-- ===== src/Interval/Order.antt =====
-- Intervals in order: what the search relies on and what construction gives.
use libgunwinder.Base.{
  ℕ, zero, suc, ◌^◌, ◌≤◌, ◌<◌, ◌≡◌, refl, ap, ◌≢◌, ◌⊎◌, some, List, [], ◌∷◌, map, arith, length,
  get_elem?, ◌==◌, if◌then◌else◌,
}
use native.Mathlib.Decide.{dec_lt}
use libgunwinder.Interval.{
  Item, Ascending, last_end, fill_ends, final_end, narrow, uint32_max, uint64_max,
}

-- Each interval starts before it ends, and ends before the next one starts.
abbrev pub Separated : List Item → Type 0
Separated [] = Unit
Separated (x ∷ []) = x.start ≤ x.end
Separated (x ∷ y ∷ r) = (x.start ≤ x.end) × (x.end ≤ y.start) × Separated (y ∷ r)

abbrev pub Contains : ℕ → Item → Type 0
Contains addr x = (x.start ≤ addr) × (addr < x.end)

pub head_least :
    (x : Item) (r : List Item) (j : ℕ) (y : Item)
    → Separated (x ∷ r)
    → get_elem? (x ∷ r) j ≡ some y
    → (x.start ≤ y.start) × (y.start ≤ y.end)
head_least x [] zero y s h = ground arith
head_least x [] (suc j) y s h = ground arith
head_least x (z ∷ r) zero y s h = ground arith
head_least x (z ∷ r) (suc j) y s h = ground (arith, head_least z r j y s.2 h)

-- Of two items the earlier one ends before the later one starts.
pub Separated-apart :
    (xs : List Item) (i j : ℕ) (x y : Item)
    → Separated xs
    → i < j
    → get_elem? xs i ≡ some x
    → get_elem? xs j ≡ some y
    → (x.start ≤ x.end) × (x.end ≤ y.start) × (y.start ≤ y.end)
Separated-apart [] i j x y s l hi hj = ground arith
Separated-apart (a ∷ []) i zero x y s l hi hj = absurd (omega arith)
Separated-apart (a ∷ []) i (suc j) x y s l hi hj = ground arith
Separated-apart (a ∷ b ∷ r) i zero x y s l hi hj = absurd (omega arith)
Separated-apart (a ∷ b ∷ r) zero (suc j) x y s l hi hj = ground (arith, head_least b r j y s.2 hj)
Separated-apart (a ∷ b ∷ r) (suc i) (suc j) x y s l hi hj =
    Separated-apart (b ∷ r) i j x y s.2 (omega arith) hi hj

-- Starts and ends both grow along the array.
pub Separated-mono :
    (xs : List Item) (i j : ℕ) (x y : Item)
    → Separated xs
    → i ≤ j
    → get_elem? xs i ≡ some x
    → get_elem? xs j ≡ some y
    → (x.start ≤ y.start) × (x.end ≤ y.end)
Separated-mono xs i j x y s l hi hj = elim (dec_lt i j) [
  | yes before ↦ omega (arith, Separated-apart xs i j x y s before hi hj)
  | no other ↦
      let e : i ≡ j = omega arith in let same : get_elem? xs i ≡ some y = rw e hj in ground arith
]

pub final_end-greatest :
    (x : Item) (r : List Item) (j : ℕ) (y : Item)
    → Separated (x ∷ r)
    → get_elem? (x ∷ r) j ≡ some y
    → y.end ≤ final_end x r
unfolding final_end
final_end-greatest x [] zero y s h = ground arith
final_end-greatest x [] (suc j) y s h = ground arith
final_end-greatest x (z ∷ r) zero y s h =
    ground (arith, final_end-greatest z r 0 z s.2 refl, head_least z r 0 z s.2 refl)
final_end-greatest x (z ∷ r) (suc j) y s h = final_end-greatest z r j y s.2 h

-- What the caller of `init` gives, once it is sorted: an item has an open end or stands before the
-- next one, and its start leaves room for the default end.
abbrev pub Spaced : List Item → Type 0
Spaced [] = Unit
Spaced (x ∷ []) = ((x.end ≡ 0) ⊎ (x.start ≤ x.end)) × (x.start < uint64_max) × (x.end ≤ uint64_max)
Spaced (x ∷ y ∷ r) = ((x.end ≡ 0) ⊎ ((x.start ≤ x.end) × (x.end ≤ y.start))) × Spaced (y ∷ r)

-- The intervals of the table that `init` builds.
pub fill_ends-Separated : (xs : List Item) → Ascending xs → Spaced xs → Separated (fill_ends xs)
unfolding fill_ends
fill_ends-Separated [] a s = tt
fill_ends-Separated (x ∷ []) a s = ground arith
fill_ends-Separated (x ∷ y ∷ []) a s = ground (arith, fill_ends-Separated (y ∷ []) a.1 s.1)
fill_ends-Separated (x ∷ y ∷ w ∷ r) a s = ground (arith, fill_ends-Separated (y ∷ w ∷ r) a.1 s.1)

pub length-fill_ends : (xs : List Item) → length (fill_ends xs) ≡ length xs
unfolding fill_ends
length-fill_ends [] = refl
length-fill_ends (x ∷ []) = refl
length-fill_ends (x ∷ y ∷ r) = ap suc (length-fill_ends (y ∷ r))

-- Filling keeps each start, each payload and each end that was given.
pub fill_ends-get_elem? :
    (xs : List Item) (i : ℕ) (x : Item)
    → get_elem? xs i ≡ some x
    → (e : ℕ) × (get_elem? (fill_ends xs) i ≡ some (record x { end = e })) × (x.end ≢ 0 → e ≡ x.end)
unfolding fill_ends last_end
fill_ends-get_elem? [] i x h = absurd (ground arith)
fill_ends-get_elem? (a ∷ []) zero x h = ((last_end a).end, ground arith, λ ne. ground arith)
fill_ends-get_elem? (a ∷ []) (suc i) x h = absurd (ground arith)
fill_ends-get_elem? (a ∷ b ∷ r) zero x h =
    ((if a.end == 0 then b.start else a.end), ground arith, λ ne. ground arith)
fill_ends-get_elem? (a ∷ b ∷ r) (suc i) x h = fill_ends-get_elem? (b ∷ r) i x h

-- Narrowing to 32 bits changes no item when the last end fits.
narrow_small : (x : Item) → x.start ≤ x.end → x.end < 2 ^ 32 → narrow x ≡ x
unfolding narrow
narrow_small x h k = ground arith

pub narrow-Separated :
    (x : Item) (r : List Item)
    → Separated (x ∷ r)
    → final_end x r < uint32_max
    → map narrow (x ∷ r) ≡ x ∷ r
unfolding final_end
narrow-Separated x [] s h = rw (narrow_small x s (omega arith)) refl
narrow-Separated x (y ∷ r) s h =
    let top = final_end-greatest x (y ∷ r) 0 x s refl in
    rw (narrow_small x s.0 (omega arith), narrow-Separated y r s.2 h) refl
