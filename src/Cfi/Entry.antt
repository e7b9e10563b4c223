-- ===== src/Cfi/Entry.antt =====
-- `init_cie_from_buf` and `init_fde_from_entry` of src/gu_cfi_helper.c, on the entries that
-- elfutils' dwarf_next_cfi returns. Allocation is taken to succeed.
pub mod Extent
use libgunwinder.Base.{
  ℕ, ◌+◌, ◌-◌, ◌%◌, ◌^◌, Bool, true, false, Option, none, some, List, [], ◌∷◌, ltb, ◌==◌,
  if◌then◌else◌, length, drop, Run, ok, fail, fault, past_end, wild_pointer, ◌>>=◌, ◌>>◌, check,
  bit_and, bit_or, not,
}
use libgunwinder.Base.Words.{add64}
use libgunwinder.Decode.{
  uleb128, format_of, decode_read_checked, get_encoding_size, skip_block, move_on,
}
use libgunwinder.Cfi.{Cie, CalcCtx, Row, zero_row}
use libgunwinder.Cfi.Program.{init_calc_ctx_by_ins}
use libgunwinder.Cfi.Parse.{Fde}

-- Dwarf_CIE: the augmentation string up to its NUL, its data up to the end of the section, and
-- the distance of the end of the instructions from the end of the section.
pub record DwarfCie : Type 0 where
  pub code_alignment_factor : ℕ
  pub data_alignment_factor : ℕ
  pub augmentation : List ℕ
  pub augmentation_data : List ℕ
  pub initial_instructions : List ℕ
  pub initial_end : ℕ

pub data Letter : Type 0 where
  sized signal lsda fde_pointers personality other : Letter

unfoldable pub letter_of : ℕ → Letter
letter_of c =
    if c == 0x7a
    then sized
    else if c == 0x53
    then signal
    else if c == 0x4c
    then lsda
    else if c == 0x52
    then fde_pointers
    else if c == 0x50
    then personality
    else other

-- `*data++`.
unfoldable pub next_byte : List ℕ → Run (ℕ × List ℕ)
next_byte [] = fault past_end
next_byte (b ∷ r) = ok (b, r)

unfoldable pub lsda_size : Cie → ℕ → List ℕ → Run ℕ
lsda_size cie encoding r =
    if cie.sized_augmentation_data then ok 0 else get_encoding_size encoding r

-- One letter of the augmentation string: the entry and the data behind it.
unfoldable pub augment : Letter → Cie → List ℕ → Run (Cie × List ℕ)
augment sized cie data_bytes = ok (record cie { sized_augmentation_data = true }, data_bytes)
augment signal cie data_bytes = ok (record cie { signal_frame = true }, data_bytes)
augment lsda cie data_bytes = do
  (encoding, r) ← next_byte data_bytes
  size ← lsda_size cie encoding r
  ok (
    record cie {
      lsda_encoding = encoding;
      fde_augmentation_data_size = cie.fde_augmentation_data_size + size;
    },
    r,
  )
augment fde_pointers cie data_bytes = do
  (encoding, r) ← next_byte data_bytes
  ok (record cie { fde_encoding = encoding }, r)
augment personality cie data_bytes = do
  (encoding, r) ← next_byte data_bytes
  size ← get_encoding_size encoding r
  r₁ ← move_on size r
  ok (cie, r₁)
augment other cie data_bytes = ok (cie, data_bytes)

-- An unknown letter ends the string unless the data has a size.
abbrev pub goes_on : Letter → Cie → Bool
goes_on other cie = cie.sized_augmentation_data
goes_on _ cie = true

unfoldable pub augmentation_loop : List ℕ → Cie → List ℕ → Run Cie
augmentation_loop [] cie data_bytes = ok cie
augmentation_loop (c ∷ r) cie data_bytes =
    augment (letter_of c) cie data_bytes >>= λ (p : Cie × List ℕ).
    elim (goes_on (letter_of c) p.0) [ true ↦ augmentation_loop r p.0 p.1 | false ↦ ok p.0 ]

abbrev pub blank_cie : DwarfCie → Row → Cie
blank_cie d row = record {
  code_alignment_factor = d.code_alignment_factor;
  data_alignment_factor = d.data_alignment_factor;
  fde_encoding = 0;
  lsda_encoding = 0xff;
  fde_augmentation_data_size = 0;
  sized_augmentation_data = false;
  signal_frame = false;
  initial_instructions = d.initial_instructions;
  initial_end = d.initial_end;
  row = row;
  prev = [];
}

-- `absptr` is read as eight bytes.
unfoldable pub wide_pointers : Cie → Cie
wide_pointers cie =
    if bit_and cie.fde_encoding 0xf == 0
    then record cie { fde_encoding = bit_or cie.fde_encoding 0x04 }
    else cie

abbrev pub default_init_cfi : List ℕ
default_init_cfi = 0x0c ∷ 7 ∷ 8 ∷ 0x90 ∷ 1 ∷ 0x08 ∷ 6 ∷ 0x14 ∷ 7 ∷ 0 ∷ []

-- `_default_calc_ctx`: the row of the first call is kept for all later ones.
unfoldable pub default_row : Option Row → Cie → Run Row
default_row (some row) cie = ok row
default_row none cie =
    init_calc_ctx_by_ins cie false 0 (record { row = zero_row; prev = [] }) default_init_cfi 0
      (2 ^ 64 - 1)
    >>= λ ctx. ok ctx.row

-- The entry with the rows that its initial instructions leave.
unfoldable pub init_cie_row : DwarfCie → Cie → Row → Run Cie
init_cie_row d cie row =
    init_calc_ctx_by_ins cie true d.initial_end (record { row = row; prev = [] })
      d.initial_instructions 0 (2 ^ 64 - 1)
    >>= λ ctx. ok (record cie { row = ctx.row; prev = ctx.prev })

-- The kept row afterwards, also where the entry fails.
unfoldable pub keep_row : Option Row → DwarfCie → Cie → Run Row → Option Row × Run Cie
keep_row kept d cie (ok row) = (some row, init_cie_row d cie row)
keep_row kept d cie fail = (kept, fail)
keep_row kept d cie (fault e) = (kept, fault e)

-- The kept row afterwards, and the entry with its row.
unfoldable pub init_cie_from_buf : Option Row → DwarfCie → Option Row × Run Cie
init_cie_from_buf kept d =
    elim (augmentation_loop d.augmentation (blank_cie d zero_row) d.augmentation_data) [
      | ok cie ↦ keep_row kept d (wide_pointers cie) (default_row kept (wide_pointers cie))
      | fail ↦ (kept, fail)
      | fault e ↦ (kept, fault e)
    ]

-- Dwarf_FDE: the bytes from its address range to its end, the distance of that end from the end
-- of the section, and `start - d_buf`.
pub record DwarfFde : Type 0 where
  pub content : List ℕ
  pub distance : ℕ
  pub place : ℕ

unfoldable pub skip_augmentation : Cie → List ℕ → Run (List ℕ)
skip_augmentation cie buf =
    if cie.sized_augmentation_data
    then (decode_read_checked uleb128 buf >>= λ (p : ℕ × List ℕ). skip_block p.0 p.1)
    else skip_block cie.fde_augmentation_data_size buf

unfoldable pub relocate : Cie → ℕ → ℕ → ℕ → ℕ
relocate cie sh_off place pc =
    if bit_and cie.fde_encoding 0x70 == 0x10 then add64 (add64 sh_off place) pc else pc

-- The entry and its end address, once its CIE is at hand; a CIE that is NULL is read all the same.
unfoldable pub init_fde_from_entry : Option Cie → ℕ → DwarfFde → Run (Fde × ℕ)
init_fde_from_entry none sh_off d = fault wild_pointer
init_fde_from_entry (some cie) sh_off d = do
  (pc, buf) ← decode_read_checked (format_of cie.fde_encoding) d.content
  (size, buf₁) ← decode_read_checked (format_of cie.fde_encoding) buf
  buf₂ ← skip_augmentation cie buf₁
  let start = relocate cie sh_off d.place pc
  check (not (ltb (add64 start size) start))
  ok (
    record { cie = some cie; start = start; instructions = buf₂; instructions_end = d.distance },
    add64 start size,
  )
