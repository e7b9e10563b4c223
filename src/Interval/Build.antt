-- ===== src/Interval/Build.antt =====
-- `gu_interval_array_init` builds a valid array, and a search of it finds what was given.
use libgunwinder.Base.{
  ℕ, ◌≡◌, refl, true, false, none, some, List, [], ◌∷◌, arith, length, inl, inr, Bool-cases, ltb,
  Bool, ◌≢◌, sym, ltb→lt, ◌==◌, if◌then◌else◌, ◌%◌, ◌^◌,
}
use mathlib.Core.List.Perm
use libgunwinder.Interval.{
  Item, IntervalArray, u32, u64, Qsort, init, build, fill_ends, last_end, search, final_end,
  uint32_max,
}
use libgunwinder.Interval.Order.{
  Separated, Spaced, fill_ends-Separated, final_end-greatest, narrow-Separated, head_least,
}
use libgunwinder.Interval.Lookup.{IsValid, Locates, search-Locates}

-- The array built from separated intervals, in either store.
build-IsValid :
    (x : Item) (r : List Item)
    → Separated (x ∷ r)
    → (a : IntervalArray) × (build true (x ∷ r) ≡ some a) × IsValid a x r
unfolding build
build-IsValid x r sep = elim (Bool-cases (ltb (final_end x r) uint32_max)) [
  | inl small ↦
      let top = final_end-greatest x r 0 x sep refl in
      let ordered = head_least x r 0 x sep refl in
      let below = ltb→lt _ _ small in
      let least : x.start % 2 ^ 32 ≡ x.start = omega arith in
      let greatest : final_end x r % 2 ^ 32 ≡ final_end x r = omega arith in
      let same = narrow-Separated x r sep below in
      (
        record {
          items_u32 = some (x ∷ r);
          items_u64 = none;
          count = length (x ∷ r);
          type = u32;
          min = x.start;
          max = final_end x r;
        },
        rw (small, same, least, greatest) refl,
        record {
          counted = refl;
          lowest = refl;
          highest = refl;
          separated = sep;
          stored = inl (refl, refl, refl);
        },
      )
  | inr large ↦ (
    record {
      items_u32 = none;
      items_u64 = some (x ∷ r);
      count = length (x ∷ r);
      type = u64;
      min = x.start;
      max = final_end x r;
    },
    rw large refl,
    record {
      counted = refl;
      lowest = refl;
      highest = refl;
      separated = sep;
      stored = inr (refl, refl, refl);
    },
  )
]

fill_ends-ne_nil :
    (ys : List Item) → ys ≢ [] → (x : Item) × (r : List Item) × (fill_ends ys ≡ x ∷ r)
unfolding fill_ends
fill_ends-ne_nil [] ne = absurd (ne refl)
fill_ends-ne_nil (x ∷ []) ne = (last_end x, [], refl)
fill_ends-ne_nil (x ∷ y ∷ r) ne =
    ((if x.end == 0 then record x { end = y.start } else x), fill_ends (y ∷ r), refl)

length-ne_zero : (items : List Item) → items ≢ [] → (length items == 0) ≡ false
length-ne_zero [] ne = absurd (ne refl)
length-ne_zero (x ∷ r) ne = ground arith

module _ (qsort : Qsort) (items : List Item) (spaced : Spaced (qsort.apply items)) where
  abbrev filled : List Item
  filled = fill_ends (qsort.apply items)

  -- For a non-empty list of intervals that do not overlap once sorted, and both allocations done,
  -- init builds an array in which a search ends, returns an interval that holds the address, its
  -- payload untagged, and reports none only when no interval holds it; the intervals are the
  -- sorted ones with their open ends filled.
  pub search-init :
      (keep : Bool) (addr : ℕ)
      → items ≢ []
      → (a : IntervalArray) × (init qsort true true items ≡ (filled, some a))
        × Locates filled addr (search keep (some a) addr)
  unfolding init
  search-init keep addr ne =
      let some_left : qsort.apply items ≢ [] =
        λ e. ne (sym (Perm.nil-eq (rw e at (qsort.permutes items)))) in
      let (x, r, e) = fill_ends-ne_nil (qsort.apply items) some_left in
      let sep = fill_ends-Separated (qsort.apply items) (qsort.ascends items) spaced in
      let (a, built, valid) = build-IsValid x r (rw e at sep) in
      (a, rw (length-ne_zero items ne, e, built) refl, rw e (search-Locates valid addr keep))
