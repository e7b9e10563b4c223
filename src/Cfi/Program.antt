-- ===== src/Cfi/Program.antt =====
-- `init_calc_ctx_by_ins`: the interpreter of call frame instructions. `ins_end` is the position
-- of the end of the instructions in the section data; the list holds the bytes up to it.
-- Allocation succeeds.
use libgunwinder.Base.{
  ℕ, zero, suc, ◌-◌, ◌/◌, Bool, true, false, none, some, List, [], ◌∷◌, ltb, ◌==◌, ◌&&◌,
  if◌then◌else◌, length, take, Run, ok, fail, fault, deep, ◌>>=◌, bit_and,
}
use libgunwinder.Base.Words.{add64, mul64, sub64}
use libgunwinder.Decode.{
  Format, format_of, uleb128, sleb128, udata2, udata4, udata8, decode_read_checked, skip_block,
}
use libgunwinder.Cfi.{
  FrameRule, undefined, same_value, offset, val_offset, register, expression, val_expression,
  CfaRule, no_cfa, reg_plus, expr, overwritten, Row, CalcCtx, Cie, trans_reg_type, make_rule,
  get_rule, set_rule, RegRule,
}

pub data Opcode : Type 0 where
  advance_loc offset_primary restore : ℕ → Opcode
  nop set_loc advance_loc1 advance_loc2 advance_loc4 offset_extended restore_extended : Opcode
  op_undefined op_same_value op_register remember_state restore_state : Opcode
  def_cfa def_cfa_register def_cfa_offset def_cfa_expression op_expression : Opcode
  offset_extended_sf def_cfa_sf def_cfa_offset_sf op_val_offset val_offset_sf : Opcode
  op_val_expression mips_advance_loc8 gnu_args_size gnu_negative_offset_extended : Opcode
  unknown : Opcode

abbrev pub extended_opcodes : List (ℕ × Opcode)
extended_opcodes =
    (0x00, nop)
    ∷ (0x01, set_loc)
    ∷ (0x02, advance_loc1)
    ∷ (0x03, advance_loc2)
    ∷ (0x04, advance_loc4)
    ∷ (0x05, offset_extended)
    ∷ (0x06, restore_extended)
    ∷ (0x07, op_undefined)
    ∷ (0x08, op_same_value)
    ∷ (0x09, op_register)
    ∷ (0x0a, remember_state)
    ∷ (0x0b, restore_state)
    ∷ (0x0c, def_cfa)
    ∷ (0x0d, def_cfa_register)
    ∷ (0x0e, def_cfa_offset)
    ∷ (0x0f, def_cfa_expression)
    ∷ (0x10, op_expression)
    ∷ (0x11, offset_extended_sf)
    ∷ (0x12, def_cfa_sf)
    ∷ (0x13, def_cfa_offset_sf)
    ∷ (0x14, op_val_offset)
    ∷ (0x15, val_offset_sf)
    ∷ (0x16, op_val_expression)
    ∷ (0x1d, mips_advance_loc8)
    ∷ (0x2e, gnu_args_size)
    ∷ (0x2f, gnu_negative_offset_extended)
    ∷ []

unfoldable pub find_opcode : List (ℕ × Opcode) → ℕ → Opcode
find_opcode [] op = unknown
find_opcode ((code, o) ∷ r) op = if code == op then o else find_opcode r op

-- The ranges of the three primary codes, with the operand in the low six bits.
unfoldable pub opcode_of : ℕ → Opcode
opcode_of op =
    let operand = bit_and op 0x3f in
    if op / 64 == 1
    then advance_loc operand
    else if op / 64 == 2
    then offset_primary operand
    else if op / 64 == 3
    then restore operand
    else find_opcode extended_opcodes op

-- The variables of the loop.
pub record State : Type 0 where
  pub ctx : CalcCtx
  pub loc : ℕ
  pub ins : List ℕ

-- The state after an instruction, and whether it reaches the test of `find_pc`.
pub record Stepped : Type 0 where
  pub state : State
  pub moved : Bool

abbrev pub with_row : State → List ℕ → Row → Stepped
with_row s rest row = record {
  state = record s { ctx = record { row = row; prev = s.ctx.prev }; ins = rest };
  moved = false;
}

abbrev pub with_cfa : State → List ℕ → CfaRule → Stepped
with_cfa s rest cfa = with_row s rest (record {
  cfa = cfa;
  rip_rule = s.ctx.row.rip_rule;
  rbp_rule = s.ctx.row.rbp_rule;
  rsp_rule = s.ctx.row.rsp_rule;
})

-- A rule for a register that is not tracked is dropped.
unfoldable pub put_rule : Row → ℕ → RegRule → Row
put_rule row regno r = elim (trans_reg_type regno) [ none ↦ row | some reg ↦ set_rule row reg r ]

unfoldable pub restore_rule : Row → Row → ℕ → Row
restore_rule row initial regno = elim (trans_reg_type regno) [
  | none ↦ row
  | some reg ↦ set_rule row reg (get_rule initial reg)
]

-- `cfa_data.offset.number = n` and `cfa_data.offset.number2 = n`, whatever the union holds.
unfoldable pub put_number : CfaRule → ℕ → CfaRule
put_number no_cfa n = no_cfa
put_number (reg_plus number number2) n = reg_plus n number2
put_number (expr block) n = overwritten (length block)
put_number (overwritten len) n = overwritten len

unfoldable pub put_number2 : CfaRule → ℕ → CfaRule
put_number2 (reg_plus number number2) n = reg_plus number n
put_number2 cfa n = cfa

unfoldable pub advance : Cie → State → List ℕ → ℕ → Stepped
advance cie s rest operand = record {
  state = record s { loc = add64 s.loc (mul64 operand cie.code_alignment_factor); ins = rest };
  moved = true;
}

-- Both rules by an expression keep the position of its length in the section data.
unfoldable pub exec_expression : ℕ → FrameRule → State → List ℕ → Run Stepped
exec_expression ins_end rule s r = do
  (regno, r₁) ← decode_read_checked uleb128 r
  (len, r₂) ← decode_read_checked uleb128 r₁
  r₃ ← skip_block len r₂
  ok (with_row s r₃ (put_rule s.ctx.row regno (make_rule rule (ins_end - length r₁))))

-- A register number, then an offset in units of the data alignment.
unfoldable pub exec_offset : Cie → Format → FrameRule → State → List ℕ → Run Stepped
exec_offset cie format rule s r = do
  (regno, r₁) ← decode_read_checked uleb128 r
  (off, r₂) ← decode_read_checked format r₁
  ok (
      with_row s r₂
        (put_rule s.ctx.row regno (make_rule rule (mul64 off cie.data_alignment_factor))))

module _ (cie : Cie) (in_cie : Bool) (ins_end : ℕ) where
  -- One round of the loop, behind the opcode byte.
  unfoldable pub exec : Opcode → State → List ℕ → Run Stepped
  exec advance_loc1 s [] = fail
  exec advance_loc1 s (operand ∷ r) = ok (advance cie s r operand)
  exec (advance_loc operand) s r = ok (advance cie s r operand)
  exec advance_loc2 s r = do
    (operand, r₁) ← decode_read_checked udata2 r
    ok (advance cie s r₁ operand)
  exec advance_loc4 s r = do
    (operand, r₁) ← decode_read_checked udata4 r
    ok (advance cie s r₁ operand)
  exec mips_advance_loc8 s r = do
    (operand, r₁) ← decode_read_checked udata8 r
    ok (advance cie s r₁ operand)
  exec set_loc s r = do
    (loc, r₁) ← decode_read_checked (format_of cie.fde_encoding) r
    ok (record { state = record s { loc = loc; ins = r₁ }; moved = true })
  exec def_cfa s r = do
    (operand, r₁) ← decode_read_checked uleb128 r
    (off, r₂) ← decode_read_checked uleb128 r₁
    ok (with_cfa s r₂ (reg_plus operand off))
  exec def_cfa_sf s r = do
    (operand, r₁) ← decode_read_checked uleb128 r
    (off, r₂) ← decode_read_checked sleb128 r₁
    ok (with_cfa s r₂ (reg_plus operand (mul64 off cie.data_alignment_factor)))
  exec def_cfa_register s r = do
    (operand, r₁) ← decode_read_checked uleb128 r
    ok (with_cfa s r₁ (put_number s.ctx.row.cfa operand))
  exec def_cfa_offset s r = do
    (off, r₁) ← decode_read_checked uleb128 r
    ok (with_cfa s r₁ (put_number2 s.ctx.row.cfa off))
  exec def_cfa_offset_sf s r = do
    (off, r₁) ← decode_read_checked sleb128 r
    ok (with_cfa s r₁ (put_number2 s.ctx.row.cfa (mul64 off cie.data_alignment_factor)))
  exec def_cfa_expression s r = do
    (len, r₁) ← decode_read_checked uleb128 r
    r₂ ← skip_block len r₁
    ok (with_cfa s r₂ (expr (take len r₁)))
  exec op_undefined s r = do
    (regno, r₁) ← decode_read_checked uleb128 r
    ok (with_row s r₁ (put_rule s.ctx.row regno (make_rule undefined 0)))
  exec op_same_value s r = do
    (regno, r₁) ← decode_read_checked uleb128 r
    ok (with_row s r₁ (put_rule s.ctx.row regno (make_rule same_value 0)))
  exec remember_state s r = ok (record {
    state = record s { ctx = record { row = s.ctx.row; prev = s.ctx.row ∷ s.ctx.prev }; ins = r };
    moved = false;
  })
  exec restore_state s r = elim s.ctx.prev [
    | [] ↦ fail
    | row ∷ prev ↦ ok (record {
      state = record s { ctx = record { row = row; prev = prev }; ins = r };
      moved = false;
    })
  ]
  exec (offset_primary operand) s r = do
    (off, r₁) ← decode_read_checked uleb128 r
    ok (
        with_row s r₁
          (put_rule s.ctx.row operand (make_rule offset (mul64 off cie.data_alignment_factor))))
  exec offset_extended s r = exec_offset cie uleb128 offset s r
  exec offset_extended_sf s r = exec_offset cie sleb128 offset s r
  exec op_val_offset s r = exec_offset cie uleb128 val_offset s r
  exec val_offset_sf s r = exec_offset cie sleb128 val_offset s r
  exec gnu_negative_offset_extended s r = do
    (regno, r₁) ← decode_read_checked uleb128 r
    (off, r₂) ← decode_read_checked uleb128 r₁
    ok (
        with_row s r₂ (
          put_rule s.ctx.row regno
            (make_rule offset (mul64 (sub64 0 off) cie.data_alignment_factor))))
  exec op_register s r = do
    (regno, r₁) ← decode_read_checked uleb128 r
    (operand, r₂) ← decode_read_checked uleb128 r₁
    ok (with_row s r₂ (put_rule s.ctx.row regno (make_rule register operand)))
  exec op_expression s r = exec_expression ins_end expression s r
  exec op_val_expression s r = exec_expression ins_end val_expression s r
  exec restore_extended s r = do
    (regno, r₁) ← decode_read_checked uleb128 r
    ok (with_row s r₁ (if in_cie then s.ctx.row else restore_rule s.ctx.row cie.row regno))
  exec (restore operand) s r =
      ok (with_row s r (if in_cie then s.ctx.row else restore_rule s.ctx.row cie.row operand))
  exec gnu_args_size s r = do
    (operand, r₁) ← decode_read_checked uleb128 r
    ok (with_row s r₁ s.ctx.row)
  exec nop s r = ok (with_row s r s.ctx.row)
  exec unknown s r = ok (with_row s r s.ctx.row)

  -- The loop. It ends at the end of the instructions, or once `loc` has passed `find_pc`.
  unfoldable pub run_loop : ℕ → ℕ → CalcCtx → ℕ → List ℕ → Run CalcCtx
  run_loop fuel find_pc ctx loc [] = ok ctx
  run_loop zero find_pc ctx loc (op ∷ r) = fault deep
  run_loop (suc fuel) find_pc ctx loc (op ∷ r) =
      exec (opcode_of op) (record { ctx = ctx; loc = loc; ins = r }) r >>= λ t.
      elim (t.moved && ltb find_pc t.state.loc) [
        | true ↦ ok t.state.ctx
        | false ↦ run_loop fuel find_pc t.state.ctx t.state.loc t.state.ins
      ]

-- Each instruction takes a byte, so the number of bytes is fuel enough.
unfoldable pub init_calc_ctx_by_ins : Cie → Bool → ℕ → CalcCtx → List ℕ → ℕ → ℕ → Run CalcCtx
init_calc_ctx_by_ins cie in_cie ins_end ctx ins loc find_pc =
    run_loop cie in_cie ins_end (length ins) find_pc ctx loc ins
