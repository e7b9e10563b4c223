-- ===== src/Interval/Payload.antt =====
-- The ownership tag in bit 63 of a payload, and which payloads an array frees.
use libgunwinder.Base.{
  ℕ, zero, suc, ◌+◌, ◌-◌, ◌*◌, ◌%◌, ◌^◌, ◌<◌, ◌≡◌, refl, Bool, true, false, some, List, [], ◌∷◌,
  arith, ltb, get_elem?, set, ◌≢◌, set_same, sym, ap, ◌∙◌, inl, inr, Bool-cases, bit_and, bit_or,
}
use libgunwinder.Base.Bits.{bit_and-split, bit_or-split, bit_and_ones, bit_or-zero, bit_and-zero}
use native.Mathlib.Decide.{dec_lt}
use libgunwinder.Interval.{Item, mark_no_free, is_marked, get_pointer, visited, freed, keep_payload}

-- `p | 1 << 63` and `p & 1 << 63`, by the upper half of a 64-bit word.
or_top : (p b r : ℕ) → p ≡ b * 2 ^ 63 + r → r < 2 ^ 63 → bit_or p (2 ^ 63) ≡ bit_or b 1 * 2 ^ 63 + r
or_top p b r e h = rw e (omega (arith, bit_or-split 63 b 1 r 0 h (omega arith), bit_or-zero r))

and_top : (p b r : ℕ) → p ≡ b * 2 ^ 63 + r → r < 2 ^ 63 → bit_and p (2 ^ 63) ≡ bit_and b 1 * 2 ^ 63
and_top p b r e h = rw e (omega (arith, bit_and-split 63 b 1 r 0 h (omega arith), bit_and-zero r))

pub mark_no_free_lem : (p : ℕ) → p < 2 ^ 64 → mark_no_free p ≡ 2 ^ 63 + p % 2 ^ 63
unfolding mark_no_free
mark_no_free_lem p h = elim (dec_lt p (2 ^ 63)) [
  | yes low ↦ omega (arith, or_top p 0 p (omega arith) low)
  | no high ↦ omega (arith, or_top p 1 (p - 2 ^ 63) (omega arith) (omega arith))
]

pub is_marked_lem : (p : ℕ) → p < 2 ^ 64 → is_marked p ≡ ltb (2 ^ 63 - 1) p
unfolding is_marked
is_marked_lem p h = elim (dec_lt p (2 ^ 63)) [
  | yes low ↦ rw (and_top p 0 p (omega arith) low) (ground arith)
  | no high ↦ rw (and_top p 1 (p - 2 ^ 63) (omega arith) (omega arith)) (ground arith)
]

pub get_pointer_lem : (p : ℕ) → get_pointer p ≡ p % 2 ^ 63
unfolding get_pointer
get_pointer_lem p = bit_and_ones 63 p

abbrev pub IsPointer : ℕ → Type 0
IsPointer p = p < 2 ^ 63

-- A pointer below 2^63 is not tagged, is tagged once marked, and is read back whole from both
-- forms.
pub get_pointer-mark_no_free :
    (p : ℕ)
    → IsPointer p
    → (is_marked p ≡ false)
      × (is_marked (mark_no_free p) ≡ true)
      × (get_pointer (mark_no_free p) ≡ p)
      × (get_pointer p ≡ p)
get_pointer-mark_no_free p h =
    let m = mark_no_free_lem p (omega arith) in
    (
      rw (is_marked_lem p (omega arith)) (ground arith),
      rw m (rw (is_marked_lem (2 ^ 63 + p % 2 ^ 63) (omega arith)) (ground arith)),
      omega (arith, get_pointer_lem (mark_no_free p), m),
      omega (arith, get_pointer_lem p),
    )

abbrev pub IsPayload : Item → Type 0
IsPayload x = x.private < 2 ^ 64

abbrev pub AllPayloads : List Item → Type 0
AllPayloads [] = Unit
AllPayloads (x ∷ r) = IsPayload x × AllPayloads r

pub AllPayloads-get_elem? :
    (xs : List Item) (i : ℕ) (x : Item) → AllPayloads xs → get_elem? xs i ≡ some x → IsPayload x
AllPayloads-get_elem? [] i x v h = absurd (ground arith)
AllPayloads-get_elem? (y ∷ r) zero x v h = ground arith
AllPayloads-get_elem? (y ∷ r) (suc i) x v h = AllPayloads-get_elem? r i x v.1 h

-- What an array frees or visits changes with one item only through that item.
freed_congr :
    (xs : List Item) (i : ℕ) (y z : Item)
    → freed (y ∷ []) ≡ freed (z ∷ [])
    → freed (set xs i y) ≡ freed (set xs i z)
unfolding freed
freed_congr [] i y z e = refl
freed_congr (x ∷ r) zero y z e = ground arith
freed_congr (x ∷ r) (suc i) y z e = ground (arith, freed_congr r i y z e)

visited_congr :
    (xs : List Item) (i : ℕ) (y z : Item)
    → visited (y ∷ []) ≡ visited (z ∷ [])
    → visited (set xs i y) ≡ visited (set xs i z)
unfolding visited
visited_congr [] i y z e = refl
visited_congr (x ∷ r) zero y z e = ground arith
visited_congr (x ∷ r) (suc i) y z e = ground (arith, visited_congr r i y z e)

tagged_marked : (p : ℕ) → p < 2 ^ 64 → is_marked (mark_no_free p) ≡ true
tagged_marked p h =
    let m = mark_no_free_lem p h in
    rw m (rw (is_marked_lem (2 ^ 63 + p % 2 ^ 63) (omega arith)) (ground arith))

-- If the payloads are 64-bit values and an item's payload is kept by a search, destroying the
-- array frees what it would free if that payload were NULL.
pub freed-keep_payload :
    (xs : List Item) (i : ℕ) (x : Item)
    → AllPayloads xs
    → get_elem? xs i ≡ some x
    → freed (keep_payload true xs i x) ≡ freed (set xs i (record x { private = 0 }))
unfolding keep_payload
freed-keep_payload xs i x v h = elim (Bool-cases (is_marked x.private)) [
  | inl marked ↦ rw marked (
      ap freed (sym (set_same xs i x h))
      ∙ freed_congr xs i x (record x { private = 0 }) (unfold freed in ground arith))
  | inr plain ↦
      let tag = tagged_marked x.private (AllPayloads-get_elem? xs i x v h) in
      rw plain (freed_congr xs i _ (record x { private = 0 }) (unfold freed in ground (arith, tag)))
]

-- If the payloads are 64-bit values and the one found is not zero, a search that keeps it or not
-- leaves the pointers that the visitor is given as they were.
pub visited-keep_payload :
    (set_no_free : Bool) (xs : List Item) (i : ℕ) (x : Item)
    → AllPayloads xs
    → get_elem? xs i ≡ some x
    → x.private ≢ 0
    → visited (keep_payload set_no_free xs i x) ≡ visited xs
unfolding keep_payload
visited-keep_payload false xs i x v h ne = refl
visited-keep_payload true xs i x v h ne = elim (Bool-cases (is_marked x.private)) [
  | inl marked ↦ rw marked
  | inr plain ↦
      let small = AllPayloads-get_elem? xs i x v h in
      let m = mark_no_free_lem x.private small in
      let same : get_pointer (mark_no_free x.private) ≡ get_pointer x.private =
        omega (arith, get_pointer_lem (mark_no_free x.private), get_pointer_lem x.private, m) in
      rw plain (
        visited_congr xs i (record x { private = mark_no_free x.private }) x
          (unfold visited in ground (arith, same, m))
        ∙ ap visited (set_same xs i x h))
]
