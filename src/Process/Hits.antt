-- ===== src/Process/Hits.antt =====
-- Searches in the array of a process of src/gu_stacktrace.c: what a hit returns is a pointer of the
-- array.
use libgunwinder.Base.{
  ℕ, zero, suc, ◌+◌, ◌-◌, ◌/◌, ◌≡◌, ◌≤◌, ◌<◌, refl, ap, sym, ◌∙◌, ◌⊎◌, inl, inr, true, false, ◌&&◌,
  ◌||◌, Option, none, some, List, [], ◌∷◌, map, ◌==◌, ltb, leb, ltb→lt, length, arith, tests,
  Bool-cases, ==→eq, Run, ok, fail, fault, get_elem?, get_elem?-some,
}
use mathlib.Core.Path.{subst}
use libgunwinder.Interval.{
  Item, IntervalArray, SearchResult, get_pointer, visited, narrow, search, search_items,
  search_store, report,
}
use libgunwinder.Interval.Payload.{get_pointer_lem}
use libgunwinder.Process.{pointers}
use libgunwinder.Process.Pointers.{
  weigh, weigh-append, weight, weigh_items, weigh-visited, narrow_array, wide_array, IsBuilt,
}

abbrev Picks : List Item → Run (ℕ × Item) → Type 0
Picks items (ok (mid, x)) = get_elem? items mid ≡ some x
Picks items fail = Unit
Picks items (fault e) = ⊥

search_items-Picks :
    (fuel : ℕ) (items : List Item) (addr left hi : ℕ)
    → hi ≤ length items
    → hi - left ≤ fuel
    → Picks items (search_items fuel items addr left hi)
unfolding search_items
search_items-Picks zero items addr left hi room enough = elim (Bool-cases (ltb left hi)) [
  | inl t ↦ absurd (omega (tests, t))
  | inr f ↦ rw f tt
]
search_items-Picks (suc fuel) items addr left hi room enough = elim (Bool-cases (ltb left hi)) [
  | inr f ↦ rw f tt
  | inl t ↦
      let open_range : left < hi = ltb→lt left hi t in
      let mid : ℕ = left + (hi - 1 - left) / 2 in
      let inside : mid < hi = omega arith in
      let (x, e) = get_elem?-some items mid (omega arith) in
      rw (t, e)
        (elim (Bool-cases (leb x.start addr && ltb addr x.end)) [
          | inl hit ↦ rw hit e
          | inr off ↦ rw off (elim (Bool-cases (ltb addr x.start)) [
            | inl low ↦
                rw low (search_items-Picks fuel items addr left mid (omega arith) (omega arith))
            | inr high ↦
                rw high (search_items-Picks fuel items addr (mid + 1) hi room (omega arith))
          ])
        ])
]

get_elem?-weigh :
    (g : ℕ → ℕ) (items : List Item) (i : ℕ) (x : Item)
    → get_elem? items i ≡ some x
    → weight g x ≤ weigh_items g items
get_elem?-weigh g [] i x h = absurd (cc h)
get_elem?-weigh g (y ∷ r) zero x h = let same : y ≡ x = cc h in omega (arith, ap (weight g) same)
get_elem?-weigh g (y ∷ r) (suc i) x h = omega (arith, get_elem?-weigh g r i x h)

-- An item's pointer is NULL or one that the array holds.
abbrev pub IsOf : (ℕ → ℕ) → Option IntervalArray → Item → Type 0
IsOf g a x =
    ((x.private == 0) ≡ true) ⊎ (((x.private == 0) ≡ false) × (g x.private ≤ weigh g (pointers a)))

-- A miss leaves the item without a pointer.
abbrev pub IsCleared : Option ℕ → Item → Type 0
IsCleared none x = (x.private == 0) ≡ true
IsCleared (some i) x = Unit

abbrev IsKept : (ℕ → ℕ) → Option IntervalArray → Run SearchResult → Type 0
IsKept g a (ok r) = IsOf g a r.item × IsCleared r.index r.item
IsKept g a fail = ⊥
IsKept g a (fault e) = ⊥

weight-held :
    (g : ℕ → ℕ) (x : Item)
    → (get_pointer x.private == 0) ≡ false
    → weight g x ≡ g (get_pointer x.private)
weight-held g x held = elim (Bool-cases (x.private == 0)) [
  | inr n ↦ rw n refl
  | inl y ↦
      (let null : get_pointer x.private ≡ 0 =
          omega (arith, get_pointer_lem x.private, ==→eq x.private 0 y) in
        absurd (ground (arith, null, held)))
]

module _ (g : ℕ → ℕ) (a : IntervalArray) (items : List Item)
    (all : weigh_items g items ≡ weigh g (pointers (some a)))
    (put : List Item → IntervalArray) where
  report-IsKept :
      (q : Run (ℕ × Item)) → Picks items q → IsKept g (some a) (report false a put items q)
  unfolding report
  report-IsKept (ok (mid, x)) picked = elim (Bool-cases (get_pointer x.private == 0)) [
    | inl y ↦ (inl y, tt)
    | inr n ↦
        (inr (n, omega (arith, weight-held g x n, get_elem?-weigh g items mid x picked, all)), tt)
  ]
  report-IsKept fail picked = (inl refl, refl)
  report-IsKept (fault e) picked = picked

  store-IsKept :
      (addr : ℕ)
      → a.count ≡ length items
      → IsKept g (some a) (search_store false a put (some items) addr)
  unfolding search_store
  store-IsKept addr counted =
      report-IsKept (search_items a.count items addr 0 a.count)
        (search_items-Picks a.count items addr 0 a.count (omega (arith, counted)) (omega arith))

length-narrow : (items : List Item) → length (map narrow items) ≡ length items
length-narrow [] = refl
length-narrow (x ∷ r) = ap suc (length-narrow r)

module _ (g : ℕ → ℕ) (x : Item) (r : List Item) (addr : ℕ) where
  search-narrow : IsKept g (some (narrow_array x r)) (search false (some (narrow_array x r)) addr)
  unfolding search
  search-narrow =
      let a = narrow_array x r in
      let full : (a.count == 0) ≡ false = ground arith in
      let items = map narrow (x ∷ r) in
      let all : weigh_items g items ≡ weigh g (pointers (some a)) = sym (
        weigh-append g (visited items) (visited [])
        ∙ omega (arith, weigh-visited g items, weigh-visited g [])) in
      elim (Bool-cases (ltb addr a.min || ltb a.max addr)) [
        | inl out ↦ rw (full, out) (inl refl, refl)
        | inr inside ↦
            rw (full, inside)
              (store-IsKept g a items all (λ s. record a { items_u32 = some s }) addr
                (sym (length-narrow (x ∷ r))))
      ]

  search-wide : IsKept g (some (wide_array x r)) (search false (some (wide_array x r)) addr)
  unfolding search visited
  search-wide =
      let a = wide_array x r in
      let full : (a.count == 0) ≡ false = ground arith in
      elim (Bool-cases (ltb addr a.min || ltb a.max addr)) [
        | inl out ↦ rw (full, out) (inl refl, refl)
        | inr inside ↦
            rw (full, inside)
              (store-IsKept g a (x ∷ r) (sym (weigh-visited g (x ∷ r)))
                (λ s. record a { items_u64 = some s }) addr refl)
      ]

  search-IsKept : (a : Option IntervalArray) → IsBuilt x r a → IsKept g a (search false a addr)
  search-IsKept a (inl n) = subst (λ o. IsKept g o (search false o addr)) (sym n) search-narrow
  search-IsKept a (inr w) = subst (λ o. IsKept g o (search false o addr)) (sym w) search-wide

returned :
    (a : Option IntervalArray) (q : Run SearchResult)
    → ((g : ℕ → ℕ) → IsKept g a q)
    → (res : SearchResult) × (q ≡ ok res)
      × ((g : ℕ → ℕ) → IsOf g a res.item)
      × IsCleared res.index res.item
returned a (ok res) kept = (res, refl, (λ g. (kept g).0), (kept (λ n. 0)).1)
returned a fail kept = absurd (kept (λ n. 0))
returned a (fault e) kept = absurd (kept (λ n. 0))

-- A search of an array that a load built ends without a fault.
pub search-IsOf :
    (x : Item) (r : List Item) (addr : ℕ) (a : Option IntervalArray)
    → IsBuilt x r a
    → (res : SearchResult) × (search false a addr ≡ ok res)
      × ((g : ℕ → ℕ) → IsOf g a res.item)
      × IsCleared res.index res.item
search-IsOf x r addr a built =
    returned a (search false a addr) (λ g. search-IsKept g x r addr a built)
