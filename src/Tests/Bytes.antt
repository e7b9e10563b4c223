-- ===== src/Tests/Bytes.antt =====
-- Decoding and call frame instructions at concrete inputs.
use libgunwinder.Base.{
  Returns, ◌≡◌, refl, true, false, [], ◌∷◌, ◌++◌, arith, ◌-◌, ◌+◌, ◌^◌, some, length, ok, fault,
  bad_shift, InBounds,
}
use libgunwinder.Decode.{uleb128, decode_read_checked, decode_uleb128, skip_block}
use libgunwinder.Decode.Bounds.{Consumes, decode_read_checked-InBounds, skip_block-InBounds}
use libgunwinder.Decode.Leb.{
  encode_uleb128, decode_read_checked-encode_uleb128, decode_uleb128-long,
}
use libgunwinder.Cfi.{Cie, CalcCtx, Row, zero_row, reg_plus, offset, make_rule}
use libgunwinder.Cfi.Program.{State, Stepped, exec, init_calc_ctx_by_ins}
use libgunwinder.Cfi.Parse.{row_ops}
use libgunwinder.Cfi.Parse.Sizes.{AllFit, row_ops-AllFit}
use libgunwinder.Cfi.Entry.{DwarfFde, init_fde_from_entry}
use libgunwinder.Cfi.Entry.Extent.{HasExtent, init_fde_from_entry-HasExtent}
use libgunwinder.Cfi.Rows.{init_calc_ctx_by_ins-InBounds}
use libgunwinder.Cfi.Remember.{Executes, restore_state-remember_state}

decode_read_checked-InBounds_example :
    InBounds (Consumes (129 ∷ 1 ∷ 7 ∷ [])) (decode_read_checked uleb128 (129 ∷ 1 ∷ 7 ∷ []))
decode_read_checked-InBounds_example = decode_read_checked-InBounds uleb128 (129 ∷ 1 ∷ 7 ∷ [])

skip_block-InBounds_example : InBounds (λ rest. length rest + 2 ≡ 3) (skip_block 2 (1 ∷ 2 ∷ 3 ∷ []))
skip_block-InBounds_example = skip_block-InBounds 2 (1 ∷ 2 ∷ 3 ∷ [])

decode_read_checked-encode_uleb128_example :
    decode_read_checked uleb128 (encode_uleb128 5 300 ++ 7 ∷ []) ≡ ok (300, 7 ∷ [])
decode_read_checked-encode_uleb128_example =
    decode_read_checked-encode_uleb128 (7 ∷ []) 300 (omega arith)

decode_uleb128-long_example :
    decode_uleb128 (128 ∷ 128 ∷ 128 ∷ 128 ∷ 128 ∷ 1 ∷ []) ≡ fault bad_shift
decode_uleb128-long_example =
    decode_uleb128-long 128 128 128 128 128 1 [] (omega arith) (omega arith) (omega arith)
      (omega arith) (omega arith)

abbrev row : Row
row = record zero_row { cfa = reg_plus 7 8; rip_rule = make_rule offset (2 ^ 64 - 8) }

abbrev cie : Cie
cie = record {
  code_alignment_factor = 1;
  data_alignment_factor = 2 ^ 64 - 8;
  fde_encoding = 27;
  lsda_encoding = 255;
  fde_augmentation_data_size = 0;
  sized_augmentation_data = true;
  signal_frame = false;
  initial_instructions = [];
  initial_end = 0;
  row = row;
  prev = [];
}

abbrev context : CalcCtx
context = record { row = row; prev = [] }

init_calc_ctx_by_ins-InBounds_example :
    InBounds
      (λ c. Unit)
      (init_calc_ctx_by_ins cie false 0 context (0x41 ∷ 0x0e ∷ 16 ∷ 0x86 ∷ 2 ∷ []) 100 200)
init_calc_ctx_by_ins-InBounds_example =
    init_calc_ctx_by_ins-InBounds cie false 0 context (0x41 ∷ 0x0e ∷ 16 ∷ 0x86 ∷ 2 ∷ []) 100 200

abbrev before : State
before = record { ctx = context; loc = 100; ins = [] }

abbrev saved : Stepped
saved = record {
  state = record before { ctx = record { row = row; prev = row ∷ [] }; ins = 0x0b ∷ [] };
  moved = false;
}

abbrev given_back : Stepped
given_back = record { state = before; moved = false }

restore_state-remember_state_example : given_back.state.ctx ≡ before.ctx
unfolding exec
restore_state-remember_state_example =
    restore_state-remember_state cie false 0 before saved.state (0x0b ∷ []) [] saved given_back refl
      (Executes.done saved.state) refl

row_ops-AllFit_example : Returns AllFit (row_ops (2 ∷ 0x77 ∷ 8 ∷ []) row)
row_ops-AllFit_example = row_ops-AllFit (2 ∷ 0x77 ∷ 8 ∷ []) row

abbrev described : DwarfFde
described = record {
  content = 16 ∷ 0 ∷ 0 ∷ 0 ∷ 32 ∷ 0 ∷ 0 ∷ 0 ∷ 0 ∷ 0x41 ∷ [];
  distance = 0;
  place = 64;
}

init_fde_from_entry-HasExtent_example :
    InBounds (HasExtent described) (init_fde_from_entry (some cie) 4096 described)
init_fde_from_entry-HasExtent_example = init_fde_from_entry-HasExtent (some cie) 4096 described
