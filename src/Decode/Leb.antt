-- ===== src/Decode/Leb.antt =====
-- Unsigned LEB128: what `decode_uleb128` reads back, and where its shifts are undefined.
use libgunwinder.Base.{
  ℕ, zero, suc, ◌+◌, ◌*◌, ◌/◌, ◌%◌, ◌^◌, ◌≤◌, ◌<◌, ◌≡◌, refl, true, false, List, [], ◌∷◌, ◌++◌,
  arith, bit_or, leb, ltb, ◌||◌, ok, fault, bad_shift, ap, ◌∙◌, Bool-cases, inl, inr, if◌then◌else◌,
}
use libgunwinder.Base.Bits.{bit_or-at, bit_or-zero, zero-bit_or}
use native.Mathlib.Nat.{pow-suc, div-add-mod'}
use native.Mathlib.Numerals.{towards_suc}
use libgunwinder.Decode.{
  uleb128, uleb_loop, decode_uleb128, decode_read, decode_read_checked, decode_read_fits,
  has_last_byte,
}

-- The encoding of DWARF, with at most `size` bytes.
pub encode_uleb128 : ℕ → ℕ → List ℕ
encode_uleb128 zero n = []
encode_uleb128 (suc size) n =
    if ltb n 128 then n ∷ [] else (n % 128 + 128) ∷ encode_uleb128 size (n / 128)

pow_seven : (shift : ℕ) → 2 ^ (shift + 7) ≡ 128 * 2 ^ shift
pow_seven shift = simp towards_suc (omega arith)

-- A digit joins the bits that are already there.
or_digit :
    (shift v result : ℕ)
    → result < 2 ^ shift
    → bit_or result (v * 2 ^ shift) ≡ v * 2 ^ shift + result
or_digit shift v result h = omega (
  arith,
  bit_or-at shift result (v * 2 ^ shift) 0 v result 0 (omega arith) (omega arith) h (omega arith),
  ap (λ (t : ℕ). t * 2 ^ shift) (zero-bit_or v),
  bit_or-zero result,
)

module _ (rest : List ℕ) where
  uleb_last :
      (count shift result n size : ℕ)
      → shift < 32
      → result < 2 ^ shift
      → n < 128
      → n * 2 ^ shift < 2 ^ 31
      → uleb_loop (suc count) (encode_uleb128 (suc size) n ++ rest) shift result
        ≡ ok (n * 2 ^ shift + result, rest)
  unfolding uleb_loop encode_uleb128
  uleb_last count shift result n size hs hr small hv =
      let last : ltb n 128 ≡ true = ground arith in
      let same : n % 128 ≡ n = omega arith in
      let fine : (leb 32 shift || leb (2 ^ 31) (n * 2 ^ shift)) ≡ false = ground arith in
      rw (last, same, fine, last, or_digit shift n result hr) refl

  uleb_loop-encode :
      (size count shift result n : ℕ)
      → size ≤ count
      → shift + 7 * suc size ≤ 35
      → result < 2 ^ shift
      → n < 128 ^ suc size
      → n * 2 ^ shift < 2 ^ 31
      → uleb_loop (suc count) (encode_uleb128 (suc size) n ++ rest) shift result
        ≡ ok (n * 2 ^ shift + result, rest)
  unfolding uleb_loop encode_uleb128
  uleb_loop-encode zero count shift result n hc hs hr hn hv =
      uleb_last count shift result n 0 (omega arith) hr (omega (arith, pow-suc 128 0)) hv
  uleb_loop-encode (suc size) zero shift result n hc hs hr hn hv = absurd (omega arith)
  uleb_loop-encode (suc size) (suc count) shift result n hc hs hr hn hv =
      elim (Bool-cases (ltb n 128)) [
        | inl last ↦
            uleb_last (suc count) shift result n (suc size) (omega arith) hr (ground arith) hv
        | inr more ↦
            let digit : (n % 128 + 128) % 128 ≡ n % 128 = omega arith in
            let p7 = pow_seven shift in
            let parts = ap (λ (t : ℕ). t * 2 ^ shift) (div-add-mod' n 128) in
            let up : n / 128 * 2 ^ (shift + 7) ≡ 128 * (n / 128 * 2 ^ shift) =
              omega (arith, ap (λ (t : ℕ). n / 128 * t) p7) in
            let low : n % 128 * 2 ^ shift ≤ n * 2 ^ shift = omega arith in
            let digit_small : n % 128 * 2 ^ shift ≤ 127 * 2 ^ shift = grind arith in
            let fine : (leb 32 shift || leb (2 ^ 31) (n % 128 * 2 ^ shift)) ≡ false =
              ground arith in
            let continues : ltb (n % 128 + 128) 128 ≡ false = ground arith in
            let next =
              uleb_loop-encode size count (shift + 7) (n % 128 * 2 ^ shift + result) (n / 128)
                (omega arith) (omega arith) (omega arith) (omega (arith, pow-suc 128 (suc size)))
                (omega arith) in
            rw (more, digit, fine, continues, or_digit shift (n % 128) result hr, next)
              (ap (λ (t : ℕ). ok (t, rest)) (omega arith))
      ]

  has_last_byte-encode :
      (size count n : ℕ)
      → size ≤ count
      → n < 128 ^ suc size
      → has_last_byte (suc count) (encode_uleb128 (suc size) n ++ rest) ≡ true
  unfolding has_last_byte encode_uleb128
  has_last_byte-encode zero count n hc hn = ground (arith, pow-suc 128 0)
  has_last_byte-encode (suc size) zero n hc hn = absurd (omega arith)
  has_last_byte-encode (suc size) (suc count) n hc hn = elim (Bool-cases (ltb n 128)) [
    | inl last ↦ rw (last, last) refl
    | inr more ↦
        let continues : ltb (n % 128 + 128) 128 ≡ false = ground arith in
        rw (more, continues)
          (has_last_byte-encode size count (n / 128) (omega arith)
            (omega (arith, pow-suc 128 (suc size))))
  ]

  -- A number below 2^31, in its unsigned LEB128 encoding of at most five bytes, is read back by
  -- the checked read, with the bytes that follow it.
  pub decode_read_checked-encode_uleb128 :
      (n : ℕ) → n < 2 ^ 31 → decode_read_checked uleb128 (encode_uleb128 5 n ++ rest) ≡ ok (n, rest)
  unfolding decode_read_checked decode_read_fits decode_read decode_uleb128
  decode_read_checked-encode_uleb128 n h =
      rw (has_last_byte-encode 4 7 n (omega arith) (omega arith)) (
        uleb_loop-encode 4 7 0 0 n (omega arith) (omega arith) (omega arith) (omega arith)
          (omega arith)
        ∙ ap (λ (t : ℕ). ok (t, rest)) (omega arith))

-- Decoding an unsigned LEB128 value whose first five bytes all have their continuation bit set
-- makes a shift of an int that C leaves undefined.
pub decode_uleb128-long :
    (b₀ b₁ b₂ b₃ b₄ b₅ : ℕ) (r : List ℕ)
    → 128 ≤ b₀
    → 128 ≤ b₁
    → 128 ≤ b₂
    → 128 ≤ b₃
    → 128 ≤ b₄
    → decode_uleb128 (b₀ ∷ b₁ ∷ b₂ ∷ b₃ ∷ b₄ ∷ b₅ ∷ r) ≡ fault bad_shift
unfolding decode_uleb128 uleb_loop
decode_uleb128-long b₀ b₁ b₂ b₃ b₄ b₅ r h₀ h₁ h₂ h₃ h₄ = ground arith
