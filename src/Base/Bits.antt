-- ===== src/Base/Bits.antt =====
-- `&`, `|` and `^` split at any bit position, from the digit recursion of the native operations.
use Prim.Native.Nat.{
  ℕ, zero, suc, ◌+◌, ◌-◌, ◌*◌, ◌/◌, ◌%◌, ◌^◌, ◌≤◌, ◌<◌, min, max, digits, bitwise, bit_and, bit_or,
  bit_and-bitwise, bit_or-bitwise,
}
use mathlib.Core.Path.{◌≡◌, refl, sym, ap, ap₂, ◌∙◌}
use native.Mathlib.Nat.{
  le_refl, pow-suc, one-le-pow, div-add-mod', mod-lt, mod-eq_of_lt, mul-add-mod_self_right,
}
use native.Mathlib.Omega.{arith}

-- With enough fuel the digit recursion does not depend on the fuel.
module _ (z : ℕ → ℕ) (f : ℕ → ℕ → ℕ) where
  digits_any_fuel :
      (fuel other x y : ℕ) → x ≤ fuel → x ≤ other → digits z f fuel x y ≡ digits z f other x y
  digits_any_fuel zero zero a y p q = refl
  digits_any_fuel zero (suc other) zero y p q = refl
  digits_any_fuel zero (suc other) (suc x) y p q = absurd (omega arith)
  digits_any_fuel (suc fuel) zero zero y p q = refl
  digits_any_fuel (suc fuel) zero (suc x) y p q = absurd (omega arith)
  digits_any_fuel (suc fuel) (suc other) zero y p q = refl
  digits_any_fuel (suc fuel) (suc other) (suc x) y p q =
      rw (digits_any_fuel fuel other (suc x / 2) (y / 2) (omega arith) (omega arith))

  low_digit :
      (a b : ℕ)
      → bitwise z f (suc a) b ≡ bitwise z f (suc a / 2) (b / 2) * 2 + f (suc a % 2) (b % 2)
  low_digit a b =
      omega (arith, digits_any_fuel a (suc a / 2) (suc a / 2) (b / 2) (omega arith) (le_refl _))

pub bit_and-digit : (a b : ℕ) → bit_and a b ≡ bit_and (a / 2) (b / 2) * 2 + min (a % 2) (b % 2)
bit_and-digit zero b = simp bit_and-bitwise (omega arith)
bit_and-digit (suc a) b = simp bit_and-bitwise (low_digit (λ y. 0) min a b)

pub bit_or-digit : (a b : ℕ) → bit_or a b ≡ bit_or (a / 2) (b / 2) * 2 + max (a % 2) (b % 2)
bit_or-digit zero b = simp bit_or-bitwise (omega arith)
bit_or-digit (suc a) b = simp bit_or-bitwise (low_digit (λ y. y) max a b)

-- What splits off below bit `k` is handled apart from what stands above it.
module _ (op : ℕ → ℕ → ℕ) (low : ℕ → ℕ → ℕ) (zeros : op 0 0 ≡ 0)
    (digit : (a b : ℕ) → op a b ≡ op (a / 2) (b / 2) * 2 + low (a % 2) (b % 2)) where
  op_split :
      (k a b r s : ℕ)
      → r < 2 ^ k
      → s < 2 ^ k
      → op (a * 2 ^ k + r) (b * 2 ^ k + s) ≡ op a b * 2 ^ k + op r s
  op_split zero a b r s p q =
      let er : r ≡ 0 = omega arith in
      let es : s ≡ 0 = omega arith in
      let ea : a * 2 ^ 0 + 0 ≡ a = omega arith in
      let eb : b * 2 ^ 0 + 0 ≡ b = omega arith in rw (er, es, ea, eb, zeros) (omega arith)
  op_split (suc k) a b r s p q =
      let e : 2 ^ suc k ≡ 2 * 2 ^ k = omega (arith, pow-suc 2 k) in
      let ta : a * 2 ^ suc k ≡ 2 * (a * 2 ^ k) = omega (arith, ap (λ (t : ℕ). a * t) e) in
      let tb : b * 2 ^ suc k ≡ 2 * (b * 2 ^ k) = omega (arith, ap (λ (t : ℕ). b * t) e) in
      let tab : op a b * 2 ^ suc k ≡ 2 * (op a b * 2 ^ k) =
        omega (arith, ap (λ (t : ℕ). op a b * t) e) in
      let ha : (a * 2 ^ suc k + r) / 2 ≡ a * 2 ^ k + r / 2 = omega arith in
      let hb : (b * 2 ^ suc k + s) / 2 ≡ b * 2 ^ k + s / 2 = omega arith in
      let ma : (a * 2 ^ suc k + r) % 2 ≡ r % 2 = omega arith in
      let mb : (b * 2 ^ suc k + s) % 2 ≡ s % 2 = omega arith in
      let d : op (a * 2 ^ suc k + r) (b * 2 ^ suc k + s)
          ≡ op (a * 2 ^ k + r / 2) (b * 2 ^ k + s / 2) * 2 + low (r % 2) (s % 2) =
        rw (digit (a * 2 ^ suc k + r) (b * 2 ^ suc k + s), ha, hb, ma, mb) refl in
      omega (arith, d, op_split k a b (r / 2) (s / 2) (omega arith) (omega arith), digit r s)

pub bit_and-split :
    (k a b r s : ℕ)
    → r < 2 ^ k
    → s < 2 ^ k
    → bit_and (a * 2 ^ k + r) (b * 2 ^ k + s) ≡ bit_and a b * 2 ^ k + bit_and r s
bit_and-split = op_split bit_and min refl bit_and-digit

pub bit_or-split :
    (k a b r s : ℕ)
    → r < 2 ^ k
    → s < 2 ^ k
    → bit_or (a * 2 ^ k + r) (b * 2 ^ k + s) ≡ bit_or a b * 2 ^ k + bit_or r s
bit_or-split = op_split bit_or max refl bit_or-digit

zero_fuel-bit_or : (n a : ℕ) → a ≤ n → bit_or a 0 ≡ a
zero_fuel-bit_or n zero h = refl
zero_fuel-bit_or zero (suc a) h = absurd (omega arith)
zero_fuel-bit_or (suc n) (suc a) h =
    omega (arith, bit_or-digit (suc a) 0, zero_fuel-bit_or n (suc a / 2) (omega arith))

pub bit_or-zero : (a : ℕ) → bit_or a 0 ≡ a
bit_or-zero a = zero_fuel-bit_or a a (le_refl a)

zero_fuel-bit_and : (n a : ℕ) → a ≤ n → bit_and a 0 ≡ 0
zero_fuel-bit_and n zero h = refl
zero_fuel-bit_and zero (suc a) h = absurd (omega arith)
zero_fuel-bit_and (suc n) (suc a) h =
    omega (arith, bit_and-digit (suc a) 0, zero_fuel-bit_and n (suc a / 2) (omega arith))

pub bit_and-zero : (a : ℕ) → bit_and a 0 ≡ 0
bit_and-zero a = zero_fuel-bit_and a a (le_refl a)

mod_of_fields : (q m r : ℕ) → r < m → (q * m + r) % m ≡ r
mod_of_fields q m r h = mul-add-mod_self_right q m r ∙ mod-eq_of_lt h

-- `x & (2^k - 1)` keeps the low `k` bits.
pub bit_and_ones : (k a : ℕ) → bit_and a (2 ^ k - 1) ≡ a % 2 ^ k
bit_and_ones zero a = rw (bit_and-zero a) (omega arith)
bit_and_ones (suc k) a =
    let e : 2 ^ suc k ≡ 2 * 2 ^ k = omega (arith, pow-suc 2 k) in
    let pos : 1 ≤ 2 ^ k = one-le-pow k 2 (omega arith) in
    let half : (2 ^ suc k - 1) / 2 ≡ 2 ^ k - 1 = omega arith in
    let odd : (2 ^ suc k - 1) % 2 ≡ 1 = omega arith in
    let d : bit_and a (2 ^ suc k - 1) ≡ bit_and (a / 2) (2 ^ k - 1) * 2 + min (a % 2) 1 =
      rw (bit_and-digit a (2 ^ suc k - 1), half, odd) refl in
    let q : ℕ = a / 2 / 2 ^ k in
    let r : ℕ = a / 2 % 2 ^ k * 2 + a % 2 in
    let scaled : q * 2 ^ suc k ≡ 2 * (q * 2 ^ k) = omega (arith, ap (λ (t : ℕ). q * t) e) in
    let small : a / 2 % 2 ^ k < 2 ^ k = mod-lt (a / 2) (omega arith) in
    let fields : a ≡ q * 2 ^ suc k + r = omega (arith, div-add-mod' (a / 2) (2 ^ k)) in
    let low : a % 2 ^ suc k ≡ r =
      ap (λ (t : ℕ). t % 2 ^ suc k) fields ∙ mod_of_fields q (2 ^ suc k) r (omega arith) in
    omega (arith, d, bit_and_ones k (a / 2), low)

-- The low `k` bits and the rest put a number together.
pub fields_of : (k a : ℕ) → a ≡ a / 2 ^ k * 2 ^ k + a % 2 ^ k
fields_of k a = sym (div-add-mod' a (2 ^ k))

pub zero-bit_or : (a : ℕ) → bit_or 0 a ≡ a
zero-bit_or a = bit_or-bitwise 0 a

pub zero-bit_and : (a : ℕ) → bit_and 0 a ≡ 0
zero-bit_and a = bit_and-bitwise 0 a

-- The same for numbers that are known to have such parts.
module _ (k x y a b r s : ℕ) (ex : x ≡ a * 2 ^ k + r) (ey : y ≡ b * 2 ^ k + s) (hr : r < 2 ^ k)
    (hs : s < 2 ^ k) where
  pub bit_and-at : bit_and x y ≡ bit_and a b * 2 ^ k + bit_and r s
  bit_and-at = ap₂ bit_and ex ey ∙ bit_and-split k a b r s hr hs

  pub bit_or-at : bit_or x y ≡ bit_or a b * 2 ^ k + bit_or r s
  bit_or-at = ap₂ bit_or ex ey ∙ bit_or-split k a b r s hr hs
