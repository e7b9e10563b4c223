-- ===== src/Elf/Ranges.antt =====
-- Alignment bounds, and what loading the ranges of src/gu_elf.c keeps.
use libgunwinder.Base.{
  ℕ, zero, suc, ◌+◌, ◌%◌, ◌^◌, ◌≤◌, ◌<◌, ◌≡◌, refl, ◌⊎◌, inl, inr, true, false, Option, none, some,
  List, [], ◌∷◌, arith, Bool-cases, ltb, ◌==◌, ◌&&◌, ap, sym, ◌∙◌, ◌*◌, ◌/◌,
}
use mathlib.Core.Path.{subst}
use native.Mathlib.Nat.{div-add-mod', mod-lt, mul-mod_left}
use libgunwinder.Base.Words.{add64}
use libgunwinder.Elf.{
  Phdr, ExecRange, align_down, align_up, is_exec_load, range_of, load_headers, load_from_elf,
}

multiple_mod : (q a v : ℕ) → v ≡ q * a → v % a ≡ 0
multiple_mod q a v e = ap (λ (t : ℕ). t % a) e ∙ mul-mod_left q a

align_down_lem : (v a : ℕ) → 0 < a → align_down v a ≡ v / a * a
unfolding align_down
align_down_lem v a pos = ground (arith, div-add-mod' v a)

align_up_lem :
    (v a : ℕ)
    → 0 < a
    → v + a ≤ 2 ^ 64
    → (align_up v a ≡ v / a * a) × (v % a ≡ 0) ⊎ (align_up v a ≡ (v / a + 1) * a) × (0 < v % a)
unfolding align_up
align_up_lem v a pos fits =
    let zero_align : (a == 0) ≡ false = ground arith in
    let d = div-add-mod' v a in
    let m = mod-lt v pos in
    let next : (v / a + 1) * a ≡ v / a * a + a = grind arith in
    elim (Bool-cases (v % a == 0)) [
      | inl e ↦ inl (rw (zero_align, e) (ground arith), ground arith)
      | inr n ↦ let over : 0 < v % a = ground arith in inr (rw (zero_align, n) (omega arith), over)
    ]

-- If the alignment is not 0 and the value plus the alignment is at most 2^64, align_down and
-- align_up give the multiples of the alignment next to the value, below and above.
pub align_bounds :
    (v a : ℕ)
    → 0 < a
    → v + a ≤ 2 ^ 64
    → (align_down v a ≤ v)
      × (v < align_down v a + a)
      × (align_down v a % a ≡ 0)
      × (v ≤ align_up v a)
      × (align_up v a < v + a)
      × (align_up v a % a ≡ 0)
align_bounds v a pos fits =
    let d = div-add-mod' v a in
    let m = mod-lt v pos in
    let down = align_down_lem v a pos in
    let next : (v / a + 1) * a ≡ v / a * a + a = grind arith in
    let low = multiple_mod (v / a) a (align_down v a) down in
    elim (align_up_lem v a pos fits) [
      | inl (up, e) ↦ (
        omega arith,
        omega arith,
        low,
        omega arith,
        omega arith,
        multiple_mod (v / a) a (align_up v a) up,
      )
      | inr (up, e) ↦ (
        omega arith,
        omega arith,
        low,
        omega arith,
        omega arith,
        multiple_mod (v / a + 1) a (align_up v a) up,
      )
    ]

-- Some range of a list has a property.
abbrev pub Any : (ExecRange → Type 0) → List ExecRange → Type 0
Any P [] = ⊥
Any P (r ∷ rs) = P r ⊎ Any P rs

abbrev pub AnyHeader : (Phdr → Type 0) → List (Option Phdr) → Type 0
AnyHeader P [] = ⊥
AnyHeader P (none ∷ r) = AnyHeader P r
AnyHeader P (some p ∷ r) = P p ⊎ AnyHeader P r

-- An executable segment whose end, rounded up, fits 64 bits.
abbrev pub IsExecSegment : Phdr → Type 0
IsExecSegment p =
    (is_exec_load p ≡ true) × (0 < p.p_memsz) × (p.p_vaddr + p.p_memsz + p.p_align < 2 ^ 64)

abbrev pub CoversSegment : Phdr → ExecRange → Type 0
CoversSegment p r =
    (r.start ≤ p.p_vaddr) × (p.p_vaddr + p.p_memsz ≤ r.end) × (r.offset ≤ p.p_offset)

align_zero : (v : ℕ) → (align_down v 0 ≡ v) × (align_up v 0 ≡ v)
unfolding align_down align_up
align_zero v = (refl, refl)

align_around : (v a : ℕ) → v + a ≤ 2 ^ 64 → (align_down v a ≤ v) × (v ≤ align_up v a)
align_around v zero fits = omega (arith, align_zero v)
align_around v (suc a) fits = let b = align_bounds v (suc a) (omega arith) fits in (b.0, b.3)

align_below : (v a : ℕ) → align_down v a ≤ v
align_below v zero = omega (arith, align_zero v)
align_below v (suc a) = omega (arith, align_down_lem v (suc a), div-add-mod' v (suc a))

range_of-covers :
    (p : Phdr)
    → IsExecSegment p
    → CoversSegment p (range_of p) × ((range_of p).start < (range_of p).end)
unfolding range_of
range_of-covers p h =
    let top : add64 p.p_vaddr p.p_memsz ≡ p.p_vaddr + p.p_memsz = omega arith in
    rw top (
      omega (
        arith,
        align_below p.p_vaddr p.p_align,
        align_below p.p_offset p.p_align,
        align_around (p.p_vaddr + p.p_memsz) p.p_align,
      ))

abbrev pub AllReadable : List (Option Phdr) → Type 0
AllReadable [] = Unit
AllReadable (none ∷ r) = ⊥
AllReadable (some p ∷ r) = AllReadable r

abbrev pub AllNonempty : List ExecRange → Type 0
AllNonempty [] = Unit
AllNonempty (r ∷ rs) = (r.start < r.end) × AllNonempty rs

-- What loading promises: no empty range, and one that covers each executable segment.
pub record Loads (headers : List (Option Phdr)) (ranges : List ExecRange) : Type 0 where
  pub nonempty : AllNonempty ranges
  pub covers :
      (p : Phdr) → AnyHeader (λ q. q ≡ p) headers → IsExecSegment p → Any (CoversSegment p) ranges

Loads-skip :
    (q : Phdr) (r : List (Option Phdr)) (rs : List ExecRange)
    → (is_exec_load q && ltb (range_of q).start (range_of q).end) ≡ false
    → Loads r rs
    → Loads (some q ∷ r) rs
Loads-skip q r rs t l = record {
  nonempty = l.nonempty;
  covers = λ p m seg. elim m [
    | inl e ↦
        let c = range_of-covers p seg in
        let t' =
          subst (λ o. (is_exec_load o && ltb (range_of o).start (range_of o).end) ≡ false) e t in
        absurd (ground (arith, c, t'))
    | inr rest ↦ l.covers p rest seg
  ];
}

Loads-keep :
    (q : Phdr) (r : List (Option Phdr)) (rs : List ExecRange)
    → (is_exec_load q && ltb (range_of q).start (range_of q).end) ≡ true
    → Loads r rs
    → Loads (some q ∷ r) (range_of q ∷ rs)
Loads-keep q r rs t l = record {
  nonempty = (ground arith, l.nonempty);
  covers = λ p m seg. elim m [
    | inl e ↦ inl (subst (λ o. CoversSegment p (range_of o)) (sym e) (range_of-covers p seg).0)
    | inr rest ↦ inr (l.covers p rest seg)
  ];
}

load_headers-Loads :
    (headers : List (Option Phdr))
    → AllReadable headers
    → (ranges : List ExecRange) × (load_headers headers ≡ some ranges) × Loads headers ranges
unfolding load_headers
load_headers-Loads [] ok = ([], refl, record { nonempty = tt; covers = λ p m seg. absurd m })
load_headers-Loads (none ∷ r) ok = absurd ok
load_headers-Loads (some q ∷ r) ok =
    let (rs, e, l) = load_headers-Loads r ok in
    elim (Bool-cases (is_exec_load q && ltb (range_of q).start (range_of q).end)) [
      | inl t ↦ (range_of q ∷ rs, rw (e, t) refl, Loads-keep q r rs t l)
      | inr t ↦ (rs, rw (e, t) refl, Loads-skip q r rs t l)
    ]

load_from_elf-Loads :
    (headers : List (Option Phdr))
    → AllReadable headers
    → (ranges : List ExecRange) × (load_from_elf true true headers ≡ some ranges)
      × Loads headers ranges
unfolding load_from_elf
load_from_elf-Loads headers ok = load_headers-Loads headers ok

-- If every program header can be read, loading succeeds, no range is empty, and for an executable
-- segment among the headers that has bytes and whose end plus its alignment fits 64 bits, some
-- range covers its addresses and starts no later in the file.
pub load_from_elf-covers :
    (headers : List (Option Phdr)) (p : Phdr)
    → AllReadable headers
    → AnyHeader (λ q. q ≡ p) headers
    → IsExecSegment p
    → (ranges : List ExecRange) × (load_from_elf true true headers ≡ some ranges)
      × AllNonempty ranges
      × Any (CoversSegment p) ranges
load_from_elf-covers headers p readable among exec =
    let (ranges, e, l) = load_from_elf-Loads headers readable in
    (ranges, e, l.nonempty, l.covers p among exec)
