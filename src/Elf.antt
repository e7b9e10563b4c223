-- ===== src/Elf.antt =====
-- src/gu_elf.c: the executable load ranges of an ELF image. libelf gives the program headers: a
-- list in which `none` is a header that `gelf_getphdr` cannot read. Opening the file is left out.
-- `ranges` is NULL exactly when it is empty.
pub mod Ranges
pub mod Search
use libgunwinder.Base.{
  ℕ, ◌+◌, ◌-◌, ◌%◌, ◌^◌, Bool, not, ◌&&◌, ◌||◌, Option, none, some, List, [], ◌∷◌, bit_and, ltb,
  leb, ◌==◌, if◌then◌else◌,
}
use libgunwinder.Base.Words.{u64, add64}

pub record Phdr : Type 0 where
  pub p_type : ℕ
  pub p_flags : ℕ
  pub p_offset : ℕ
  pub p_vaddr : ℕ
  pub p_memsz : ℕ
  pub p_align : ℕ

pub record ExecRange : Type 0 where
  pub start : ℕ
  pub end : ℕ
  pub offset : ℕ

unfoldable pub align_down : ℕ → ℕ → ℕ
align_down value align = if align == 0 then value else value - value % align

unfoldable pub align_up : ℕ → ℕ → ℕ
align_up value align =
    if align == 0
    then value
    else if value % align == 0
    then value
    else add64 value (align - value % align)

-- `PT_LOAD` is 1 and `PF_X` is 1 in the ELF format.
abbrev pub is_exec_load : Phdr → Bool
is_exec_load p = (p.p_type == 1) && not (bit_and p.p_flags 1 == 0) && not (p.p_memsz == 0)

unfoldable pub range_of : Phdr → ExecRange
unfolding align_down align_up
range_of p = record {
  start = align_down p.p_vaddr p.p_align;
  end = align_up (add64 p.p_vaddr p.p_memsz) p.p_align;
  offset = align_down p.p_offset p.p_align;
}

-- The loop over the headers; `none` is the jump to `err`.
unfoldable pub load_headers : List (Option Phdr) → Option (List ExecRange)
load_headers [] = some []
load_headers (none ∷ r) = none
load_headers (some p ∷ r) = elim (load_headers r) [
  | none ↦ none
  | some ranges ↦ some (
      if is_exec_load p && ltb (range_of p).start (range_of p).end
      then range_of p ∷ ranges
      else ranges)
]

-- Without a header count or memory the call returns -1, `none`.
unfoldable pub load_from_elf : Bool → Bool → List (Option Phdr) → Option (List ExecRange)
load_from_elf counted allocated headers =
    if counted && allocated then load_headers headers else none

unfoldable pub first_start : List ExecRange → ℕ
first_start [] = 0
first_start (r ∷ rs) = r.start

unfoldable pub find_loop : List ExecRange → ℕ → ℕ → Option ℕ
find_loop [] start end = none
find_loop (r ∷ rs) start end =
    if leb r.start start && leb end r.end then some start else find_loop rs start end

unfoldable pub find : List ExecRange → ℕ → ℕ → Option ℕ
unfolding find_loop
find ranges start end = if leb end start then none else find_loop ranges start end

-- One round of the search by file offset: the mapped address, if the range holds it.
unfoldable pub match_offset : ExecRange → ℕ → ℕ → Option ℕ
match_offset r offset size =
    if leb r.end r.start
    then none
    else if ltb (2 ^ 64 - 1 - (r.end - r.start)) r.offset
    then none
    else if leb r.offset offset && leb (offset + size) (r.offset + (r.end - r.start))
    then some (add64 r.start (offset - r.offset))
    else none

unfoldable pub offset_loop : List ExecRange → ℕ → ℕ → Option ℕ
offset_loop [] offset size = none
offset_loop (r ∷ rs) offset size = elim (match_offset r offset size) [
  | none ↦ offset_loop rs offset size
  | some a ↦ some a
]

unfoldable pub find_by_offset : List ExecRange → ℕ → ℕ → Option ℕ
unfolding offset_loop match_offset
find_by_offset ranges offset size =
    if size == 0
    then none
    else if ltb (2 ^ 64 - 1 - size) offset
    then none
    else offset_loop ranges offset size
