-- ===== src/Interval/Lookup.antt =====
-- `__gu_interval_array_search` finds the interval that contains an address, or none does.
use libgunwinder.Base.{
  ℕ, zero, suc, ◌+◌, ◌-◌, ◌/◌, ◌≤◌, ◌<◌, ◌≡◌, refl, Bool, true, false, Option, none, some, List,
  ◌∷◌, arith, length, get_elem?, get_elem?-some, ltb, leb, ◌&&◌, Bool-cases, inl, inr, Run, ok,
  fail, fault, tests, ltb→lt, ◌⊎◌, ◌||◌, lt_length-get_elem?, ◌==◌, sym,
}
use mathlib.Core.Path.{subst}
use native.Mathlib.Decide.{dec_lt}
use libgunwinder.Interval.{
  Item, IntervalArray, u32, u64, search_items, search_store, search, report, SearchResult,
  get_pointer, final_end, cleared,
}
use libgunwinder.Interval.Order.{
  Separated, Contains, Separated-mono, head_least, final_end-greatest,
}

-- What a search reports: the index of an item that contains the address, with the payload
-- untagged, or that no item contains it.
abbrev pub Answers : List Item → ℕ → Option ℕ → Item → Type 0
Answers items addr none item =
    (item ≡ cleared) × ((j : ℕ) (y : Item) → get_elem? items j ≡ some y → ¬ Contains addr y)
Answers items addr (some i) item =
    (x : Item) × (get_elem? items i ≡ some x)
    × Contains addr x
    × (item ≡ record x { private = get_pointer x.private })

-- What the loop over `items[left..hi)` returns: an item that contains the address, or the proof
-- that none of them does.
abbrev Finds : List Item → ℕ → ℕ → ℕ → Run (ℕ × Item) → Type 0
Finds items addr left hi (ok (mid, x)) = (get_elem? items mid ≡ some x) × Contains addr x
Finds items addr left hi fail =
    (j : ℕ) (y : Item) → left ≤ j → j < hi → get_elem? items j ≡ some y → ¬ Contains addr y
Finds items addr left hi (fault e) = ⊥

module _ (items : List Item) (addr : ℕ) (sep : Separated items) where
  Finds-below :
      (left mid hi : ℕ) (x : Item) (r : Run (ℕ × Item))
      → get_elem? items mid ≡ some x
      → addr < x.start
      → Finds items addr left mid r
      → Finds items addr left hi r
  Finds-below left mid hi x (ok (m, z)) e lt f = f
  Finds-below left mid hi x fail e lt f = λ j y lo up h c. elim (dec_lt j mid) [
    | yes p ↦ f j y lo p h c
    | no p ↦ omega (arith, Separated-mono items mid j x y sep (omega arith) e h)
  ]
  Finds-below left mid hi x (fault k) e lt f = f

  Finds-above :
      (left mid hi : ℕ) (x : Item) (r : Run (ℕ × Item))
      → get_elem? items mid ≡ some x
      → x.end ≤ addr
      → Finds items addr (mid + 1) hi r
      → Finds items addr left hi r
  Finds-above left mid hi x (ok (m, z)) e le f = f
  Finds-above left mid hi x fail e le f = λ j y lo up h c. elim (dec_lt mid j) [
    | yes p ↦ f j y (omega arith) up h c
    | no p ↦ omega (arith, Separated-mono items j mid y x sep (omega arith) h e)
  ]
  Finds-above left mid hi x (fault k) e le f = f

  search_items-Finds :
      (fuel left hi : ℕ)
      → hi ≤ length items
      → hi - left ≤ fuel
      → Finds items addr left hi (search_items fuel items addr left hi)
  unfolding search_items
  search_items-Finds zero left hi room enough = elim (Bool-cases (ltb left hi)) [
    | inl t ↦ absurd (omega (tests, t))
    | inr f ↦ rw f (λ j y lo up. absurd (ground arith))
  ]
  search_items-Finds (suc fuel) left hi room enough = elim (Bool-cases (ltb left hi)) [
    | inr f ↦ rw f (λ j y lo up. absurd (ground arith))
    | inl t ↦
        let open_range : left < hi = ltb→lt left hi t in
        let mid : ℕ = left + (hi - 1 - left) / 2 in
        let inside : mid < hi = omega arith in
        let (x, e) = get_elem?-some items mid (omega arith) in
        rw (t, e)
          (elim (Bool-cases (leb x.start addr && ltb addr x.end)) [
            | inl hit ↦ rw hit (e, ground arith)
            | inr off ↦ rw off (elim (Bool-cases (ltb addr x.start)) [
              | inl low ↦ rw low (
                  Finds-below left mid hi x (search_items fuel items addr left mid) e (ground arith)
                    (search_items-Finds fuel left mid (omega arith) (omega arith)))
              | inr high ↦ rw high (
                  Finds-above left mid hi x (search_items fuel items addr (mid + 1) hi) e
                    (ground arith) (search_items-Finds fuel (mid + 1) hi room (omega arith)))
            ])
          ])
  ]

-- An array as `init` leaves it: one store, with the bounds of its first and last item.
pub record IsValid (a : IntervalArray) (x : Item) (r : List Item) : Type 0 where
  pub counted : a.count ≡ length (x ∷ r)
  pub lowest : a.min ≡ x.start
  pub highest : a.max ≡ final_end x r
  pub separated : Separated (x ∷ r)
  pub stored :
      ((a.type ≡ u32) × (a.items_u32 ≡ some (x ∷ r)) × (a.items_u64 ≡ none))
      ⊎ ((a.type ≡ u64) × (a.items_u32 ≡ none) × (a.items_u64 ≡ some (x ∷ r)))

-- What a caller is told: the index and item that contain the address, or that there are none.
abbrev pub Locates : List Item → ℕ → Run SearchResult → Type 0
Locates items addr (ok r) = Answers items addr r.index r.item
Locates items addr fail = ⊥
Locates items addr (fault e) = ⊥

module _ {a : IntervalArray} {x : Item} {r : List Item} (valid : IsValid a x r) (addr : ℕ) where
  outside :
      (ltb addr a.min || ltb a.max addr) ≡ true
      → (j : ℕ) (y : Item) → get_elem? (x ∷ r) j ≡ some y
      → ¬ Contains addr y
  outside t j y h c = ground (
    arith,
    head_least x r j y valid.separated h,
    final_end-greatest x r j y valid.separated h,
    valid.lowest,
    valid.highest,
  )

  report-Locates :
      (keep : Bool) (put : List Item → IntervalArray) (q : Run (ℕ × Item))
      → Finds (x ∷ r) addr 0 (length (x ∷ r)) q
      → Locates (x ∷ r) addr (report keep a put (x ∷ r) q)
  unfolding report
  report-Locates keep put (ok (mid, z)) f = (z, f.0, f.1, refl)
  report-Locates keep put fail f =
      (refl, λ j y h. f j y (omega arith) (lt_length-get_elem? (x ∷ r) j y h) h)
  report-Locates keep put (fault e) f = f

  store-Locates :
      (keep : Bool) (put : List Item → IntervalArray)
      → Locates (x ∷ r) addr (search_store keep a put (some (x ∷ r)) addr)
  unfolding search_store
  store-Locates keep put = report-Locates keep put (search_items a.count (x ∷ r) addr 0 a.count) (
      rw valid.counted
        (search_items-Finds (x ∷ r) addr valid.separated _ 0 _ (omega arith) (omega arith)))

  -- A search of a valid array ends, reads no item out of range, returns an interval that holds the
  -- address, and reports none only when no interval does.
  pub search-Locates : (keep : Bool) → Locates (x ∷ r) addr (search keep (some a) addr)
  unfolding search
  search-Locates keep =
      let full : (a.count == 0) ≡ false = rw valid.counted (ground arith) in
      elim (Bool-cases (ltb addr a.min || ltb a.max addr)) [
        | inl t ↦ elim valid.stored [
          | inl (ty, s32, s64) ↦ rw (full, s32, s64, t) (refl, outside t)
          | inr (ty, s32, s64) ↦ rw (full, s32, s64, t) (refl, outside t)
        ]
        | inr f ↦ elim valid.stored [
          | inl (ty, s32, s64) ↦
              rw (full, s32, f, ty)
                (subst
                  (λ o.
                    Locates (x ∷ r) addr
                      (search_store keep a (λ s. record a { items_u32 = some s }) o addr))
                  (sym s32) (store-Locates keep (λ s. record a { items_u32 = some s })))
          | inr (ty, s32, s64) ↦
              rw (full, s32, s64, f, ty)
                (subst
                  (λ o.
                    Locates (x ∷ r) addr
                      (search_store keep a (λ s. record a { items_u64 = some s }) o addr))
                  (sym s64) (store-Locates keep (λ s. record a { items_u64 = some s })))
        ]
      ]
