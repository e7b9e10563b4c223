-- ===== src/Elf/Search.antt =====
-- Both searches over the executable ranges of src/gu_elf.c.
use libgunwinder.Base.{
  leb, ℕ, ◌+◌, ◌-◌, ◌^◌, ◌≤◌, ◌<◌, ◌≡◌, refl, inl, inr, false, Option, none, some, List, [], ◌∷◌,
  arith, Bool-cases, ltb, ◌==◌, ◌&&◌,
}
use libgunwinder.Elf.{ExecRange, match_offset, offset_loop, find_by_offset, find, find_loop}
use libgunwinder.Elf.Ranges.{Any}

-- A range that holds a part of the file, and whose end does not wrap.
abbrev pub HoldsOffset : ℕ → ℕ → ExecRange → Type 0
HoldsOffset offset size r =
    (r.start < r.end)
    × (r.offset + (r.end - r.start) < 2 ^ 64)
    × (r.offset ≤ offset)
    × (offset + size ≤ r.offset + (r.end - r.start))

-- The address at which a range maps a file offset.
abbrev pub Maps : ℕ → ℕ → ℕ → ExecRange → Type 0
Maps offset size addr r =
    HoldsOffset offset size r × (addr + r.offset ≡ r.start + offset) × (addr + size ≤ r.end)

abbrev pub AllWords : List ExecRange → Type 0
AllWords [] = Unit
AllWords (r ∷ rs) = (r.end < 2 ^ 64) × AllWords rs

abbrev Matches : ExecRange → ℕ → ℕ → Option ℕ → Type 0
Matches r offset size (some addr) = Maps offset size addr r
Matches r offset size none = ¬ HoldsOffset offset size r

match_offset-Matches :
    (r : ExecRange) (offset size : ℕ)
    → r.end < 2 ^ 64
    → Matches r offset size (match_offset r offset size)
unfolding match_offset
match_offset-Matches r offset size small = ground arith

abbrev pub FindsOffset : List ExecRange → ℕ → ℕ → Option ℕ → Type 0
FindsOffset ranges offset size (some addr) = Any (Maps offset size addr) ranges
FindsOffset ranges offset size none = ¬ Any (HoldsOffset offset size) ranges

first_match :
    (r : ExecRange) (rs : List ExecRange) (offset size : ℕ) (o rest : Option ℕ)
    → Matches r offset size o
    → FindsOffset rs offset size rest
    → FindsOffset (r ∷ rs) offset size (elim o [ none ↦ rest | some a ↦ some a ])
first_match r rs offset size (some a) rest m f = inl m
first_match r rs offset size none (some a) m f = inr f
first_match r rs offset size none none m f = λ q. elim q [ inl h ↦ m h | inr h ↦ f h ]

-- No range holds a part of the file whose end does not fit 64 bits.
too_far :
    (ranges : List ExecRange) (offset size : ℕ)
    → 2 ^ 64 ≤ offset + size
    → ¬ Any (HoldsOffset offset size) ranges
too_far [] offset size h m = m
too_far (r ∷ rs) offset size h m = elim m [
  | inl q ↦ omega arith
  | inr q ↦ too_far rs offset size h q
]

offset_loop-FindsOffset :
    (ranges : List ExecRange) (offset size : ℕ)
    → AllWords ranges
    → FindsOffset ranges offset size (offset_loop ranges offset size)
unfolding offset_loop
offset_loop-FindsOffset [] offset size w = λ m. m
offset_loop-FindsOffset (r ∷ rs) offset size w =
    first_match r rs offset size (match_offset r offset size) (offset_loop rs offset size)
      (match_offset-Matches r offset size w.0) (offset_loop-FindsOffset rs offset size w.1)

-- For a part of the file with bytes, and ranges whose ends are 64-bit values, the search by file
-- offset returns the address at which a range maps the part, inside that range, and returns none
-- only when no range holds the part.
pub find_by_offset-FindsOffset :
    (ranges : List ExecRange) (offset size : ℕ)
    → AllWords ranges
    → 0 < size
    → FindsOffset ranges offset size (find_by_offset ranges offset size)
unfolding find_by_offset
find_by_offset-FindsOffset ranges offset size w pos =
    let some_size : (size == 0) ≡ false = ground arith in
    elim (Bool-cases (ltb (2 ^ 64 - 1 - size) offset)) [
      | inl t ↦ rw (some_size, t) (too_far ranges offset size (ground arith))
      | inr t ↦ rw (some_size, t) (offset_loop-FindsOffset ranges offset size w)
    ]

-- A range that holds all addresses from `first` up to `last`.
abbrev pub HoldsAll : ℕ → ℕ → ExecRange → Type 0
HoldsAll first last r = (r.start ≤ first) × (last ≤ r.end)

abbrev pub FindsAll : List ExecRange → ℕ → ℕ → Option ℕ → Type 0
FindsAll ranges first last (some addr) = (addr ≡ first) × Any (HoldsAll first last) ranges
FindsAll ranges first last none = ¬ Any (HoldsAll first last) ranges

later :
    (r : ExecRange) (rs : List ExecRange) (first last : ℕ)
    → (leb r.start first && leb last r.end) ≡ false
    → (o : Option ℕ) → FindsAll rs first last o
    → FindsAll (r ∷ rs) first last o
later r rs first last f (some a) h = (h.0, inr h.1)
later r rs first last f none h =
    λ any. elim any [ inl here ↦ absurd (ground arith) | inr there ↦ h there ]

find_loop-FindsAll :
    (ranges : List ExecRange) (first last : ℕ)
    → FindsAll ranges first last (find_loop ranges first last)
unfolding find_loop
find_loop-FindsAll [] first last = λ no. no
find_loop-FindsAll (r ∷ rs) first last = elim (Bool-cases (leb r.start first && leb last r.end)) [
  | inl t ↦ rw t (refl, inl (ground arith))
  | inr f ↦
      rw f (later r rs first last f (find_loop rs first last) (find_loop-FindsAll rs first last))
]

-- For a non-empty span of addresses, the search by address returns its first address if some range
-- holds the whole span, and returns none only when no range does.
pub find-FindsAll :
    (ranges : List ExecRange) (first last : ℕ)
    → first < last
    → FindsAll ranges first last (find ranges first last)
unfolding find
find-FindsAll ranges first last h =
    let some_bytes : leb last first ≡ false = ground arith in
    rw some_bytes (find_loop-FindsAll ranges first last)
