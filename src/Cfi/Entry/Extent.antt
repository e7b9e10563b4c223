-- ===== src/Cfi/Entry/Extent.antt =====
-- What `init_fde_from_entry` of src/gu_cfi_helper.c promises of the address range of an entry.
use libgunwinder.Base.{
  ℕ, ◌≤◌, ◌<◌, ◌^◌, ◌≡◌, refl, Bool, true, false, not, Option, none, some, List, arith, ltb, length,
  InBounds, InBounds-bind, InBounds-mono, Bool-cases, inl, inr, check,
}
use libgunwinder.Base.Words.{add64}
use libgunwinder.Decode.{uleb128, format_of, decode_read_checked, skip_block}
use libgunwinder.Decode.Bounds.{Consumes, decode_read_checked-InBounds, skip_block-InBounds}
use libgunwinder.Cfi.{Cie}
use libgunwinder.Cfi.Parse.{Fde}
use libgunwinder.Cfi.Entry.{DwarfFde, skip_augmentation, relocate, init_fde_from_entry}

-- The rest is no longer than the bytes.
abbrev Within : List ℕ → List ℕ → Type 0
Within bytes rest = length rest ≤ length bytes

skip_augmentation-InBounds :
    (cie : Cie) (buf : List ℕ) → InBounds (Within buf) (skip_augmentation cie buf)
unfolding skip_augmentation
skip_augmentation-InBounds cie buf = elim (Bool-cases cie.sized_augmentation_data) [
  | inl y ↦ rw y (
      InBounds-bind (Consumes buf) (Within buf) (decode_read_checked uleb128 buf) _
        (decode_read_checked-InBounds uleb128 buf)
        (λ p h.
          InBounds-mono _ _ (skip_block p.0 p.1) (λ r k. omega arith)
            (skip_block-InBounds p.0 p.1)))
  | inr n ↦ rw n (
      InBounds-mono _ _ (skip_block cie.fde_augmentation_data_size buf) (λ r k. omega arith)
        (skip_block-InBounds cie.fde_augmentation_data_size buf))
]

check-InBounds : (b : Bool) → InBounds (λ _. b ≡ true) (check b)
check-InBounds true = refl
check-InBounds false = tt

-- The address range does not wrap round, and the instructions are part of the entry.
abbrev pub HasExtent : DwarfFde → Fde × ℕ → Type 0
HasExtent d (fde, last) =
    (fde.start ≤ last) × (last < 2 ^ 64) × (length fde.instructions < length d.content)

-- Setting up a frame description entry from any bytes ends without a read or a pointer past their
-- end; it succeeds, fails, or stops at a shift that C leaves undefined or, where its CIE is NULL,
-- at the read through it. If it succeeds, its address range does not wrap round 64 bits, and its
-- instructions are fewer bytes than the entry has.
pub init_fde_from_entry-HasExtent :
    (cie : Option Cie) (sh_off : ℕ) (d : DwarfFde)
    → InBounds (HasExtent d) (init_fde_from_entry cie sh_off d)
unfolding init_fde_from_entry
init_fde_from_entry-HasExtent none sh_off d = tt
init_fde_from_entry-HasExtent (some cie) sh_off d =
    InBounds-bind (Consumes d.content) (HasExtent d)
      (decode_read_checked (format_of cie.fde_encoding) d.content) _
      (decode_read_checked-InBounds (format_of cie.fde_encoding) d.content)
      (λ p h.
        InBounds-bind (Consumes p.1) (HasExtent d)
          (decode_read_checked (format_of cie.fde_encoding) p.1) _
          (decode_read_checked-InBounds (format_of cie.fde_encoding) p.1)
          (λ q k.
            InBounds-bind (Within q.1) (HasExtent d) (skip_augmentation cie q.1) _
              (skip_augmentation-InBounds cie q.1)
              (λ r w.
                let first = relocate cie sh_off d.place p.0 in
                InBounds-bind _ (HasExtent d) (check (not (ltb (add64 first q.0) first))) _
                  (check-InBounds (not (ltb (add64 first q.0) first)))
                  (λ _ c. (ground arith, omega arith, omega arith)))))
