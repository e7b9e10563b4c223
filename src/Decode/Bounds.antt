-- ===== src/Decode/Bounds.antt =====
-- A checked read stays inside its bytes and consumes at least one of them.
use libgunwinder.Base.{
  ℕ, zero, suc, ◌+◌, ◌*◌, ◌%◌, ◌^◌, ◌≤◌, ◌<◌, ◌≡◌, true, List, [], ◌∷◌, arith, bit_or, leb, ltb,
  length, length-drop, ok, InBounds, InBounds-bind, InBounds-mono, Bool-cases, inl, inr, ◌||◌,
}
use libgunwinder.Decode.{
  Format, uleb128, sleb128, udata2, udata4, udata8, sdata2, sdata4, sdata8, absptr, no_format,
  uleb_loop, decode_uleb128, sign_fill, sleb_loop, decode_sleb128, read_le, read_signed,
  decode_read, has_last_byte, decode_read_fits, decode_read_checked, skip_block, move_on,
  block_fits,
}

-- What is left of the bytes is shorter than they were.
abbrev pub Consumes : List ℕ → ℕ × List ℕ → Type 0
Consumes bytes (v, rest) = length rest < length bytes

uleb_loop-InBounds :
    (count : ℕ) (bytes : List ℕ) (shift result : ℕ)
    → has_last_byte count bytes ≡ true
    → InBounds (Consumes bytes) (uleb_loop count bytes shift result)
unfolding uleb_loop has_last_byte
uleb_loop-InBounds zero bytes shift result h = cc
uleb_loop-InBounds (suc count) [] shift result h = cc
uleb_loop-InBounds (suc count) (b ∷ r) shift result h =
    let value : ℕ = b % 128 * 2 ^ shift in
    elim (Bool-cases (leb 32 shift || leb (2 ^ 31) value)) [
      | inl bad ↦ rw bad tt
      | inr fine ↦ elim (Bool-cases (ltb b 128)) [
        | inl last ↦ rw (fine, last) (omega arith)
        | inr more ↦
            rw (fine, more)
              (InBounds-mono (Consumes r) (Consumes (b ∷ r))
                (uleb_loop count r (shift + 7) (bit_or result value)) (λ q c. omega arith)
                (uleb_loop-InBounds count r (shift + 7) (bit_or result value)
                  (ground (arith, more))))
      ]
    ]

sign_fill-InBounds : (last shift result : ℕ) → InBounds (λ v. Unit) (sign_fill last shift result)
unfolding sign_fill
sign_fill-InBounds last shift result = elim (Bool-cases (leb 64 (last % 128))) [
  | inr plain ↦ rw plain tt
  | inl negative ↦ elim (Bool-cases (leb 64 (shift + 7))) [
    | inl bad ↦ rw (negative, bad) tt
    | inr fine ↦ rw (negative, fine) tt
  ]
]

sleb_loop-InBounds :
    (count : ℕ) (bytes : List ℕ) (last shift result : ℕ)
    → has_last_byte count bytes ≡ true
    → InBounds (Consumes bytes) (sleb_loop count bytes last shift result)
unfolding sleb_loop has_last_byte
sleb_loop-InBounds zero bytes last shift result h = cc
sleb_loop-InBounds (suc count) [] last shift result h = cc
sleb_loop-InBounds (suc count) (b ∷ r) last shift result h =
    let value : ℕ = bit_or result (b % 128 * 2 ^ shift % 2 ^ 64) in
    elim (Bool-cases (ltb b 128)) [
      | inl stop ↦ rw stop (
          InBounds-bind (λ v. Unit) (Consumes (b ∷ r)) (sign_fill b shift value) (λ v. ok (v, r))
            (sign_fill-InBounds b shift value) (λ v u. omega arith))
      | inr more ↦ rw more (
          InBounds-mono (Consumes r) (Consumes (b ∷ r)) (sleb_loop count r b (shift + 7) value)
            (λ q c. omega arith)
            (sleb_loop-InBounds count r b (shift + 7) value (ground (arith, more))))
    ]

-- A read of n bytes takes exactly these.
abbrev Takes : ℕ → List ℕ → ℕ × List ℕ → Type 0
Takes n bytes (v, rest) = length rest + n ≡ length bytes

read_le-InBounds :
    (n : ℕ) (bytes : List ℕ) → n ≤ length bytes → InBounds (Takes n bytes) (read_le n bytes)
unfolding read_le
read_le-InBounds zero bytes h = omega arith
read_le-InBounds (suc n) [] h = absurd (omega arith)
read_le-InBounds (suc n) (b ∷ r) h =
    InBounds-bind (Takes n r) (Takes (suc n) (b ∷ r)) (read_le n r) _
      (read_le-InBounds n r (omega arith)) (λ q c. omega arith)

module _ (n : ℕ) (bytes : List ℕ) (pos : 0 < n) (h : leb n (length bytes) ≡ true) where
  room : n ≤ length bytes
  room = ground arith

  read_le-Consumes : InBounds (Consumes bytes) (read_le n bytes)
  read_le-Consumes =
      InBounds-mono (Takes n bytes) (Consumes bytes) (read_le n bytes) (λ q c. omega arith)
        (read_le-InBounds n bytes room)

  read_signed-Consumes : InBounds (Consumes bytes) (read_signed n bytes)
  unfolding read_signed
  read_signed-Consumes =
      InBounds-bind (Consumes bytes) (Consumes bytes) (read_le n bytes) _ read_le-Consumes
        (λ q c. c)

decode_read-InBounds :
    (format : Format) (bytes : List ℕ)
    → decode_read_fits format bytes ≡ true
    → InBounds (Consumes bytes) (decode_read format bytes)
unfolding decode_read_fits decode_read decode_uleb128 decode_sleb128
decode_read-InBounds uleb128 bytes h = uleb_loop-InBounds 8 bytes 0 0 h
decode_read-InBounds sleb128 bytes h = sleb_loop-InBounds 10 bytes 0 0 0 h
decode_read-InBounds udata2 bytes h = read_le-Consumes 2 bytes (omega arith) h
decode_read-InBounds udata4 bytes h = read_le-Consumes 4 bytes (omega arith) h
decode_read-InBounds udata8 bytes h = read_le-Consumes 8 bytes (omega arith) h
decode_read-InBounds absptr bytes h = read_le-Consumes 8 bytes (omega arith) h
decode_read-InBounds sdata2 bytes h = read_signed-Consumes 2 bytes (omega arith) h
decode_read-InBounds sdata4 bytes h = read_signed-Consumes 4 bytes (omega arith) h
decode_read-InBounds sdata8 bytes h = read_signed-Consumes 8 bytes (omega arith) h
decode_read-InBounds no_format bytes h = tt

-- A checked read of any format and bytes ends and never reads past the bytes, and a value that it
-- returns leaves fewer bytes than there were.
pub decode_read_checked-InBounds :
    (format : Format) (bytes : List ℕ)
    → InBounds (Consumes bytes) (decode_read_checked format bytes)
unfolding decode_read_checked
decode_read_checked-InBounds format bytes = elim (Bool-cases (decode_read_fits format bytes)) [
  | inl fits ↦ rw fits (decode_read-InBounds format bytes fits)
  | inr short ↦ rw short tt
]

pub skip_block-InBounds :
    (len : ℕ) (bytes : List ℕ)
    → InBounds (λ rest. length rest + len ≡ length bytes) (skip_block len bytes)
unfolding skip_block move_on block_fits
skip_block-InBounds len bytes = elim (Bool-cases (leb len (length bytes))) [
  | inl fits ↦
      rw fits
        (let inside : len ≤ length bytes = ground arith in omega (arith, length-drop len bytes))
  | inr short ↦ rw short tt
]
