-- ===== src/Process/Pointers.antt =====
-- The pointers behind the array of a process of src/gu_stacktrace.c: sorting, filling and narrowing
-- the items leaves them as they are, and each finds its map context.
use libgunwinder.Base.{
  ℕ, ◌+◌, ◌%◌, ◌^◌, ◌≡◌, refl, ap, sym, ◌∙◌, ◌⊎◌, inl, inr, Bool, true, false, not, ◌||◌, Option,
  none, some, List, [], ◌∷◌, ◌++◌, map, ◌==◌, ltb, if◌then◌else◌, length, arith, Bool-cases,
}
use mathlib.Core.List.Perm
use mathlib.Core.List.{foldr}
use native.Mathlib.Nat.{ℕ_set}
use libgunwinder.Interval
use libgunwinder.Interval.{
  Item, IntervalArray, Qsort, mark_no_free, get_pointer, visited, store_or_nil, fill_ends, last_end,
  final_end, narrow, build, uint32_max, u32, u64, is_marked, freed,
}
use libgunwinder.Process.{pointers, owned}

-- The sum of a number over a list of pointers.
abbrev pub weigh : (ℕ → ℕ) → List ℕ → ℕ
weigh g [] = 0
weigh g (p ∷ r) = g p + weigh g r

pub weigh-append : (g : ℕ → ℕ) (xs ys : List ℕ) → weigh g (xs ++ ys) ≡ weigh g xs + weigh g ys
weigh-append g [] ys = omega arith
weigh-append g (x ∷ xs) ys = omega (arith, weigh-append g xs ys)

abbrev pub weight : (ℕ → ℕ) → Item → ℕ
weight g x = if x.private == 0 then 0 else g (get_pointer x.private)

abbrev pub weigh_items : (ℕ → ℕ) → List Item → ℕ
weigh_items g xs = foldr (λ x n. weight g x + n) 0 xs

pub weigh-visited : (g : ℕ → ℕ) (xs : List Item) → weigh g (visited xs) ≡ weigh_items g xs
unfolding visited
weigh-visited g [] = refl
weigh-visited g (x ∷ r) = elim (Bool-cases (x.private == 0)) [
  | inl y ↦ rw y (omega (arith, weigh-visited g r))
  | inr n ↦ rw n (ap (λ k. g (get_pointer x.private) + k) (weigh-visited g r))
]

sorted-weigh :
    (g : ℕ → ℕ) (qsort : Qsort) (xs : List Item) → weigh_items g (qsort.apply xs) ≡ weigh_items g xs
sorted-weigh g qsort xs =
    Perm.foldr-eq ℕ_set (λ x n. weight g x + n) (λ x y n. omega arith) (qsort.permutes xs) 0

last_end-weight : (g : ℕ → ℕ) (x : Item) → weight g (last_end x) ≡ weight g x
unfolding last_end
last_end-weight g x = elim (Bool-cases (x.end == 0)) [ inl y ↦ rw y refl | inr n ↦ rw n refl ]

fill_ends-weigh : (g : ℕ → ℕ) (xs : List Item) → weigh_items g (fill_ends xs) ≡ weigh_items g xs
unfolding fill_ends
fill_ends-weigh g [] = refl
fill_ends-weigh g (x ∷ []) = ap (λ n. n + 0) (last_end-weight g x)
fill_ends-weigh g (x ∷ y ∷ r) = elim (Bool-cases (x.end == 0)) [
  | inl t ↦ rw t (ap (λ n. weight g x + n) (fill_ends-weigh g (y ∷ r)))
  | inr n ↦ rw n (ap (λ n. weight g x + n) (fill_ends-weigh g (y ∷ r)))
]

narrow-weigh : (g : ℕ → ℕ) (xs : List Item) → weigh_items g (map narrow xs) ≡ weigh_items g xs
unfolding narrow
narrow-weigh g [] = refl
narrow-weigh g (x ∷ r) = ap (λ n. weight g x + n) (narrow-weigh g r)

abbrev pub narrow_array : Item → List Item → IntervalArray
narrow_array x r = record {
  items_u32 = some (map narrow (x ∷ r));
  items_u64 = none;
  count = length (x ∷ r);
  type = u32;
  min = x.start % 2 ^ 32;
  max = final_end x r % 2 ^ 32;
}

abbrev pub wide_array : Item → List Item → IntervalArray
wide_array x r = record {
  items_u32 = none;
  items_u64 = some (x ∷ r);
  count = length (x ∷ r);
  type = u64;
  min = x.start;
  max = final_end x r;
}

abbrev pub IsBuilt : Item → List Item → Option IntervalArray → Type 0
IsBuilt x r a = (a ≡ some (narrow_array x r)) ⊎ (a ≡ some (wide_array x r))

-- An array that was allocated is one of the two.
pub build-some :
    (alloc : Bool) (x : Item) (r : List Item) (a : IntervalArray)
    → build alloc (x ∷ r) ≡ some a
    → IsBuilt x r (some a)
unfolding build
build-some false x r a h = absurd (cc h)
build-some true x r a h = elim (Bool-cases (ltb (final_end x r) uint32_max)) [
  | inl y ↦ inl (sym h ∙ rw y refl)
  | inr n ↦ inr (sym h ∙ rw n refl)
]

build-IsBuilt :
    (alloc : Bool) (xs : List Item) (a : IntervalArray)
    → build alloc xs ≡ some a
    → (x : Item) × (r : List Item) × IsBuilt x r (some a)
unfolding build
build-IsBuilt alloc [] a h = absurd (cc h)
build-IsBuilt alloc (x ∷ r) a h = (x, r, build-some alloc x r a h)

build-weigh :
    (g : ℕ → ℕ) (alloc : Bool) (xs : List Item) (a : IntervalArray)
    → build alloc xs ≡ some a
    → weigh g (pointers (some a)) ≡ weigh_items g xs
unfolding build visited
build-weigh g alloc [] a h = absurd (cc h)
build-weigh g alloc (x ∷ r) a h = elim (build-some alloc x r a h) [
  | inl n ↦
      ap (λ o. weigh g (pointers o)) n
      ∙ weigh-append g (visited (map narrow (x ∷ r))) (visited [])
      ∙ omega
          (arith, weigh-visited g (map narrow (x ∷ r)), weigh-visited g [], narrow-weigh g (x ∷ r))
  | inr w ↦ ap (λ o. weigh g (pointers o)) w ∙ weigh-visited g (x ∷ r)
]

-- The items that a load leaves have the weight of the items that it was given, and so has the array.
pub init-weigh :
    (g : ℕ → ℕ) (qsort : Qsort) (alloc_array alloc_items : Bool) (xs : List Item)
    → weigh_items g (Interval.init qsort alloc_array alloc_items xs).0 ≡ weigh_items g xs
unfolding Interval.init
init-weigh g qsort alloc_array alloc_items xs =
    elim (Bool-cases ((length xs == 0) || not alloc_array)) [
      | inl y ↦ rw y refl
      | inr n ↦ rw n (fill_ends-weigh g (qsort.apply xs) ∙ sorted-weigh g qsort xs)
    ]

pub init-pointers :
    (g : ℕ → ℕ) (qsort : Qsort) (alloc_array alloc_items : Bool) (xs : List Item)
    (a : IntervalArray)
    → (Interval.init qsort alloc_array alloc_items xs).1 ≡ some a
    → weigh g (pointers (some a)) ≡ weigh_items g xs
unfolding Interval.init
init-pointers g qsort alloc_array alloc_items xs a =
    elim (Bool-cases ((length xs == 0) || not alloc_array)) [
      | inl y ↦ rw y (λ h. absurd (cc h))
      | inr n ↦ rw n (λ h.
          build-weigh g alloc_items (fill_ends (qsort.apply xs)) a h
          ∙ fill_ends-weigh g (qsort.apply xs)
          ∙ sorted-weigh g qsort xs)
    ]

pub init-IsBuilt :
    (qsort : Qsort) (alloc_array alloc_items : Bool) (xs : List Item) (a : IntervalArray)
    → (Interval.init qsort alloc_array alloc_items xs).1 ≡ some a
    → (x : Item) × (r : List Item) × IsBuilt x r (some a)
unfolding Interval.init
init-IsBuilt qsort alloc_array alloc_items xs a =
    elim (Bool-cases ((length xs == 0) || not alloc_array)) [
      | inl y ↦ rw y (λ h. absurd (cc h))
      | inr n ↦ rw n (λ h. build-IsBuilt alloc_items (fill_ends (qsort.apply xs)) a h)
    ]

-- Whether an item is one that the array owns.
abbrev is_owned : Item → ℕ
is_owned x = if (x.private == 0) || is_marked x.private then 0 else 1

abbrev pub count_owned : List Item → ℕ
count_owned xs = foldr (λ x n. is_owned x + n) 0 xs

freed-none : (xs : List Item) → count_owned xs ≡ 0 → freed xs ≡ []
unfolding freed
freed-none [] h = refl
freed-none (x ∷ r) h = elim (Bool-cases ((x.private == 0) || is_marked x.private)) [
  | inl y ↦
      (let none_here : is_owned x ≡ 0 = rw y refl in
        rw y (freed-none r (omega (arith, h, none_here))))
  | inr n ↦ (let one_here : is_owned x ≡ 1 = rw n refl in absurd (omega (arith, h, one_here)))
]

last_end-owned : (x : Item) → is_owned (last_end x) ≡ is_owned x
unfolding last_end
last_end-owned x = elim (Bool-cases (x.end == 0)) [ inl y ↦ rw y refl | inr n ↦ rw n refl ]

fill_ends-owned : (xs : List Item) → count_owned (fill_ends xs) ≡ count_owned xs
unfolding fill_ends
fill_ends-owned [] = refl
fill_ends-owned (x ∷ []) = ap (λ n. n + 0) (last_end-owned x)
fill_ends-owned (x ∷ y ∷ r) = elim (Bool-cases (x.end == 0)) [
  | inl t ↦ rw t (ap (λ n. is_owned x + n) (fill_ends-owned (y ∷ r)))
  | inr n ↦ rw n (ap (λ n. is_owned x + n) (fill_ends-owned (y ∷ r)))
]

narrow-owned : (xs : List Item) → count_owned (map narrow xs) ≡ count_owned xs
unfolding narrow
narrow-owned [] = refl
narrow-owned (x ∷ r) = ap (λ n. is_owned x + n) (narrow-owned r)

build-owned :
    (alloc : Bool) (xs : List Item) (a : IntervalArray)
    → build alloc xs ≡ some a
    → count_owned xs ≡ 0
    → owned (some a) ≡ []
unfolding build freed
build-owned alloc [] a h none_owned = absurd (cc h)
build-owned alloc (x ∷ r) a h none_owned = elim (build-some alloc x r a h) [
  | inl n ↦
      ap owned n
      ∙ ap (λ l. l ++ freed [])
          (freed-none (map narrow (x ∷ r)) (narrow-owned (x ∷ r) ∙ none_owned))
  | inr w ↦ ap owned w ∙ freed-none (x ∷ r) none_owned
]

-- An array of items that are all tagged owns none.
pub init-owned :
    (qsort : Qsort) (alloc_array alloc_items : Bool) (xs : List Item) (a : IntervalArray)
    → (Interval.init qsort alloc_array alloc_items xs).1 ≡ some a
    → count_owned xs ≡ 0
    → owned (some a) ≡ []
unfolding Interval.init
init-owned qsort alloc_array alloc_items xs a =
    elim (Bool-cases ((length xs == 0) || not alloc_array)) [
      | inl y ↦ rw y (λ h. absurd (cc h))
      | inr n ↦ rw n (λ h none_owned. build-owned alloc_items (fill_ends (qsort.apply xs)) a h (
          fill_ends-owned (qsort.apply xs)
          ∙ Perm.foldr-eq ℕ_set (λ x n. is_owned x + n) (λ x y n. omega arith) (qsort.permutes xs) 0
          ∙ none_owned))
    ]
