-- ===== src/Tests/Intervals.antt =====
-- Interval arrays at concrete inputs, with an insertion sort in the place of qsort.
use libgunwinder.Base.{
  ◌≡◌, refl, true, false, none, some, List, [], ◌∷◌, arith, ◌≤◌, leb, if◌then◌else◌, Bool-cases,
  leb→le, inl, inr, set,
}
use mathlib.Core.List.{Perm}
use mathlib.Core.List.Perm
use libgunwinder.Interval.{
  Item, IntervalArray, Ascending, Qsort, init, search, freed, keep_payload, fill_ends, u32,
  final_end,
}
use libgunwinder.Interval.Lookup.{IsValid, Locates, search-Locates}
use libgunwinder.Interval.Build.{search-init}
use libgunwinder.Interval.Payload.{freed-keep_payload}

unfoldable pub insert : Item → List Item → List Item
insert x [] = x ∷ []
insert x (y ∷ r) = if leb x.start y.start then x ∷ y ∷ r else y ∷ insert x r

unfoldable pub sort : List Item → List Item
sort [] = []
sort (x ∷ r) = insert x (sort r)

insert-Perm : (x : Item) (xs : List Item) → Perm (insert x xs) (x ∷ xs)
unfolding insert
insert-Perm x [] = Perm.refl (x ∷ [])
insert-Perm x (y ∷ r) = elim (Bool-cases (leb x.start y.start)) [
  | inl t ↦ rw t (Perm.refl (x ∷ y ∷ r))
  | inr f ↦ rw f (Perm.trans (Perm.cons y (insert-Perm x r)) (Perm.swap x y r))
]

pub sort-Perm : (xs : List Item) → Perm (sort xs) xs
unfolding sort
sort-Perm [] = Perm.refl []
sort-Perm (x ∷ r) = Perm.trans (insert-Perm x (sort r)) (Perm.cons x (sort-Perm r))

cons-Ascending :
    (y x : Item) (r : List Item)
    → y.start ≤ x.start
    → Ascending (y ∷ r)
    → Ascending (insert x r)
    → Ascending (y ∷ insert x r)
unfolding insert
cons-Ascending y x [] h a b = (h, tt)
cons-Ascending y x (z ∷ r) h a b = elim (Bool-cases (leb x.start z.start)) [
  | inl t ↦ rw t (h, (leb→le x.start z.start t, a.1))
  | inr f ↦ rw f (a.0, rw f at b)
]

Ascending-tail : (x : Item) (r : List Item) → Ascending (x ∷ r) → Ascending r
Ascending-tail x [] a = tt
Ascending-tail x (y ∷ r) a = a.1

insert-Ascending : (x : Item) (xs : List Item) → Ascending xs → Ascending (insert x xs)
unfolding insert
insert-Ascending x [] a = tt
insert-Ascending x (y ∷ r) a = elim (Bool-cases (leb x.start y.start)) [
  | inl t ↦ rw (insert, t) (leb→le x.start y.start t, a)
  | inr f ↦
      rw (insert, f)
        (cons-Ascending y x r (ground arith) a (insert-Ascending x r (Ascending-tail y r a)))
]

pub sort-Ascending : (xs : List Item) → Ascending (sort xs)
unfolding sort
sort-Ascending [] = tt
sort-Ascending (x ∷ r) = insert-Ascending x (sort r) (sort-Ascending r)

abbrev pub insertion_sort : Qsort
insertion_sort = record { apply = sort; permutes = sort-Perm; ascends = sort-Ascending }

abbrev late : Item
late = record { start = 400; end = 0; private = 3 }

abbrev early : Item
early = record { start = 100; end = 200; private = 5 }

abbrev given : List Item
given = late ∷ early ∷ []

search-init_example :
    (a : IntervalArray) × (init insertion_sort true true given ≡ (fill_ends (sort given), some a))
    × Locates (fill_ends (sort given)) 150 (search true (some a) 150)
unfolding sort insert
search-init_example =
    search-init insertion_sort given
      (inr (omega arith, omega arith), (inl refl, omega arith, omega arith)) true 150 (λ e. cc)

abbrev stored : IntervalArray
stored = record {
  items_u32 = some (early ∷ record late { end = 500 } ∷ []);
  items_u64 = none;
  count = 2;
  type = u32;
  min = 100;
  max = 500;
}

stored-IsValid : IsValid stored early (record late { end = 500 } ∷ [])
unfolding final_end
stored-IsValid = record {
  counted = refl;
  lowest = refl;
  highest = refl;
  separated = (omega arith, omega arith, omega arith);
  stored = inl (refl, refl, refl);
}

search-Locates_example :
    Locates (early ∷ record late { end = 500 } ∷ []) 450 (search false (some stored) 450)
search-Locates_example = search-Locates stored-IsValid 450 false

freed-keep_payload_example :
    freed (keep_payload true given 1 early) ≡ freed (set given 1 (record early { private = 0 }))
freed-keep_payload_example = freed-keep_payload given 1 early (omega arith, (omega arith, tt)) refl
