-- ===== src/Snapshot/Flags.antt =====
-- The flag word: a stop reason in bits 16 to 23 beside the flags, and the register block.
use libgunwinder.Base.{
  ℕ, zero, suc, ◌+◌, ◌-◌, ◌*◌, ◌/◌, ◌%◌, ◌^◌, ◌<◌, ◌≡◌, refl, Bool, true, false, arith, bit_and,
  bit_or, ap, ◌∙◌, ◌==◌, sym, not, ◌&&◌, ◌||◌,
}
use libgunwinder.Base.Bits.{
  bit_and-split, bit_and_ones, bit_or-zero, bit_and-zero, zero-bit_or, bit_or-at, bit_and-at,
}
use libgunwinder.Snapshot.{
  StackInfo, UnwindFlag, hint_set_fp, fp_allow_unknown, flag_bit, flags_set, flags_clear,
  flags_is_set, UnwindReason, ok, reason_code, flags_reason, flags_set_reason, reason_mask,
}

reason_code-lt : (r : UnwindReason) → reason_code r < 256
unfolding reason_code
reason_code-lt ok = omega arith
reason_code-lt _ = omega arith

flag_bit-lt : (flag : UnwindFlag) → flag_bit flag < 2 ^ 16
flag_bit-lt hint_set_fp = omega arith
flag_bit-lt fp_allow_unknown = omega arith

-- A 64-bit word as the bits above the reason, the reason, and the flags below it.
module _ (f a m l : ℕ) (fields : f ≡ (a * 2 ^ 8 + m) * 2 ^ 16 + l) (m_small : m < 2 ^ 8)
    (l_small : l < 2 ^ 16) where
  cleared_reason : bit_and f (2 ^ 64 - 1 - reason_mask) ≡ a % 2 ^ 40 * 2 ^ 8 * 2 ^ 16 + l
  cleared_reason = rw fields (
      omega (
        arith,
        bit_and-split 16 (a * 2 ^ 8 + m) ((2 ^ 40 - 1) * 2 ^ 8 + 0) l (2 ^ 16 - 1) l_small
            (omega arith),
        bit_and-split 8 a (2 ^ 40 - 1) m 0 m_small (omega arith),
        bit_and_ones 40 a,
        bit_and_ones 16 l,
        bit_and-zero m,
      ))

  read_reason : flags_reason f ≡ m
  unfolding flags_reason
  read_reason = rw fields (
      omega (
        arith,
        bit_and-split 16 (a * 2 ^ 8 + m) (0 * 2 ^ 8 + (2 ^ 8 - 1)) l 0 l_small (omega arith),
        bit_and-split 8 a 0 m (2 ^ 8 - 1) m_small (omega arith),
        bit_and_ones 8 m,
        bit_and-zero a,
        bit_and-zero l,
      ))

  low_flags : (flag : ℕ) → flag < 2 ^ 16 → bit_and f flag ≡ bit_and l flag
  low_flags flag h = omega (
    arith,
    bit_and-at 16 f flag (a * 2 ^ 8 + m) 0 l flag fields (omega arith) l_small h,
    bit_and-zero (a * 2 ^ 8 + m),
  )

or_reason :
    (a l r : ℕ)
    → l < 2 ^ 16
    → r < 2 ^ 8
    → bit_or (a * 2 ^ 8 * 2 ^ 16 + l) (r * 2 ^ 16) ≡ (a * 2 ^ 8 + r) * 2 ^ 16 + l
or_reason a l r hl hr = omega (
  arith,
  bit_or-at 16 (a * 2 ^ 8 * 2 ^ 16 + l) (r * 2 ^ 16) (a * 2 ^ 8) r l 0 refl (omega arith) hl
      (omega arith),
  bit_or-at 8 (a * 2 ^ 8) r a 0 0 r (omega arith) (omega arith) (omega arith) hr,
  bit_or-zero a,
  bit_or-zero l,
  zero-bit_or r,
)

-- In a flag word of 64 bits, a stop reason that is stored is read back, and every flag reads as
-- before.
pub flags_reason-flags_set_reason :
    (info : StackInfo) (r : UnwindReason) (flag : UnwindFlag)
    → info.flags < 2 ^ 64
    → (flags_reason (flags_set_reason info r).flags ≡ reason_code r)
      × (flags_is_set (flags_set_reason info r) flag ≡ flags_is_set info flag)
unfolding flags_set_reason flags_is_set
flags_reason-flags_set_reason info r flag h =
    let f = info.flags in
    let a = f / 2 ^ 24 in
    let m = f / 2 ^ 16 % 2 ^ 8 in
    let l = f % 2 ^ 16 in
    let split : f ≡ (a * 2 ^ 8 + m) * 2 ^ 16 + l = omega arith in
    let code = reason_code-lt r in
    let joined : bit_or (bit_and f (2 ^ 64 - 1 - reason_mask)) (reason_code r * 2 ^ 16)
        ≡ (a * 2 ^ 8 + reason_code r) * 2 ^ 16 + l =
      rw (cleared_reason f a m l split (omega arith) (omega arith))
        (omega (arith, or_reason (a % 2 ^ 40) l (reason_code r) (omega arith) code)) in
    let low =
      low_flags _ a (reason_code r) l joined code (omega arith) (flag_bit flag)
        (flag_bit-lt flag) in
    let old =
      low_flags f a m l split (omega arith) (omega arith) (flag_bit flag) (flag_bit-lt flag) in
    (
      read_reason _ a (reason_code r) l joined code (omega arith),
      ap (λ (t : ℕ). not (t == 0)) (low ∙ sym old),
    )

-- A flag word as the two flags below the rest.
module _ (f q r : ℕ) (fields : f ≡ q * 2 ^ 2 + r) (small : r < 2 ^ 2) where
  two_or : (flag : ℕ) → flag < 2 ^ 2 → bit_or f flag ≡ q * 2 ^ 2 + bit_or r flag
  two_or flag h =
      omega (arith, bit_or-at 2 f flag q 0 r flag fields (omega arith) small h, bit_or-zero q)

  two_and : (flag : ℕ) → flag < 2 ^ 2 → bit_and f flag ≡ bit_and r flag
  two_and flag h =
      omega (arith, bit_and-at 2 f flag q 0 r flag fields (omega arith) small h, bit_and-zero q)

  two_clear :
      (mask keep : ℕ)
      → mask ≡ (2 ^ 30 - 1) * 2 ^ 2 + keep
      → keep < 2 ^ 2
      → bit_and f mask ≡ q % 2 ^ 30 * 2 ^ 2 + bit_and r keep
  two_clear mask keep e h =
      omega (arith, bit_and-at 2 f mask q (2 ^ 30 - 1) r keep fields e small h, bit_and_ones 30 q)

pub same_flag : UnwindFlag → UnwindFlag → Bool
same_flag hint_set_fp hint_set_fp = true
same_flag fp_allow_unknown fp_allow_unknown = true
same_flag _ _ = false

-- All values of the two flags.
below_four : (P : ℕ → Type 0) → P 0 → P 1 → P 2 → P 3 → (r : ℕ) → r < 4 → P r
below_four P a b c d zero h = a
below_four P a b c d (suc zero) h = b
below_four P a b c d (suc (suc zero)) h = c
below_four P a b c d (suc (suc (suc zero))) h = d
below_four P a b c d (suc (suc (suc (suc r)))) h = absurd (omega arith)

two_bit : (flag : UnwindFlag) → flag_bit flag < 2 ^ 2
two_bit hint_set_fp = omega arith
two_bit fp_allow_unknown = omega arith

abbrev Table : UnwindFlag → UnwindFlag → ℕ → Type 0
Table a b r =
    (not (bit_and (bit_or r (flag_bit a)) (flag_bit b) == 0)
      ≡ (same_flag a b || not (bit_and r (flag_bit b) == 0)))
    × (not (bit_and (bit_and r (3 - flag_bit a)) (flag_bit b) == 0)
        ≡ (not (same_flag a b) && not (bit_and r (flag_bit b) == 0)))
    × (bit_or r (flag_bit a) < 4)
    × (bit_and r (3 - flag_bit a) < 4)

table : (a b : UnwindFlag) (r : ℕ) → r < 4 → Table a b r
unfolding same_flag
table hint_set_fp hint_set_fp =
    below_four (Table hint_set_fp hint_set_fp) (refl, refl, omega arith, omega arith)
      (refl, refl, omega arith, omega arith) (refl, refl, omega arith, omega arith)
      (refl, refl, omega arith, omega arith)
table hint_set_fp fp_allow_unknown =
    below_four (Table hint_set_fp fp_allow_unknown) (refl, refl, omega arith, omega arith)
      (refl, refl, omega arith, omega arith) (refl, refl, omega arith, omega arith)
      (refl, refl, omega arith, omega arith)
table fp_allow_unknown hint_set_fp =
    below_four (Table fp_allow_unknown hint_set_fp) (refl, refl, omega arith, omega arith)
      (refl, refl, omega arith, omega arith) (refl, refl, omega arith, omega arith)
      (refl, refl, omega arith, omega arith)
table fp_allow_unknown fp_allow_unknown =
    below_four (Table fp_allow_unknown fp_allow_unknown) (refl, refl, omega arith, omega arith)
      (refl, refl, omega arith, omega arith) (refl, refl, omega arith, omega arith)
      (refl, refl, omega arith, omega arith)

-- Setting a flag makes it read as set, clearing it as not set, and neither changes how the other
-- flag reads.
pub flags_is_set-flags_set :
    (info : StackInfo) (a b : UnwindFlag)
    → (flags_is_set (flags_set info a) b ≡ (same_flag a b || flags_is_set info b))
      × (flags_is_set (flags_clear info a) b ≡ (not (same_flag a b) && flags_is_set info b))
unfolding flags_is_set flags_set flags_clear
flags_is_set-flags_set info a b =
    let f = info.flags in
    let q = f / 2 ^ 2 in
    let r = f % 2 ^ 2 in
    let split : f ≡ q * 2 ^ 2 + r = omega arith in
    let t = table a b r (omega arith) in
    let small_a = two_bit a in
    let small_b = two_bit b in
    let before = two_and f q r split (omega arith) (flag_bit b) small_b in
    let kept =
      two_clear f q r split (omega arith) (2 ^ 32 - 1 - flag_bit a) (3 - flag_bit a) (omega arith)
        (omega arith) in
    let one =
      two_and _ q _ (two_or f q r split (omega arith) (flag_bit a) small_a) t.2 (flag_bit b)
        small_b in
    let other = two_and _ (q % 2 ^ 30) _ kept t.3 (flag_bit b) small_b in
    (rw (one, before) t.0, rw (other, before) t.1)
