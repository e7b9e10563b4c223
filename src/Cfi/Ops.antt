-- ===== src/Cfi/Ops.antt =====
-- Expressions of src/gu_cfi_helper.c: `gu_cfi_init_ops_from_block` decodes a block of at most
-- `DWARF_OPS_MAX` operations; a row turns into operations for the frame address and for each
-- register. The operation codes are those of the DWARF standard.
use libgunwinder.Base.{
  ℕ, zero, suc, ◌-◌, Bool, true, false, List, [], ◌∷◌, ◌++◌, ltb, leb, ◌==◌, ◌&&◌, if◌then◌else◌,
  length, take, drop, Run, ok, fail, fault, wild_pointer, ◌>>=◌, ◌>>◌, check,
}
use libgunwinder.Decode.{
  Format, uleb128, sleb128, udata2, udata4, udata8, sdata2, sdata4, sdata8, decode_read_checked,
  sign_extend,
}
use libgunwinder.Cfi.{
  Reg, FrameRule, unspecified, undefined, same_value, offset, val_offset, register, expression,
  val_expression, CfaRule, no_cfa, reg_plus, expr, overwritten, Row, RegRule, rule_value, get_rule,
}

-- Dwarf_Op; `position` is its `offset` in the block.
pub record Op : Type 0 where
  pub atom : ℕ
  pub number : ℕ
  pub number2 : ℕ
  pub position : ℕ

abbrev pub dwarf_ops_max : ℕ
dwarf_ops_max = 256

-- What follows an operation code in a block.
pub data Operands : Type 0 where
  no_operand unsigned_byte signed_byte unsupported : Operands
  one_operand : Format → Operands
  two_operands : Format → Format → Operands
  byte_and_word : Operands

-- Ranges of codes with their operands; the first range that holds a code counts.
abbrev pub operand_table : List (ℕ × ℕ × Operands)
operand_table =
    (0x03, 0x03, one_operand udata8)
    ∷ (0x06, 0x06, no_operand)
    ∷ (0x08, 0x08, unsigned_byte)
    ∷ (0x09, 0x09, signed_byte)
    ∷ (0x0a, 0x0a, one_operand udata2)
    ∷ (0x0b, 0x0b, one_operand sdata2)
    ∷ (0x0c, 0x0c, one_operand udata4)
    ∷ (0x0d, 0x0d, one_operand sdata4)
    ∷ (0x0e, 0x0e, one_operand udata8)
    ∷ (0x0f, 0x0f, one_operand sdata8)
    ∷ (0x10, 0x10, one_operand uleb128)
    ∷ (0x11, 0x11, one_operand sleb128)
    ∷ (0x12, 0x14, no_operand)
    ∷ (0x15, 0x15, unsigned_byte)
    ∷ (0x16, 0x22, no_operand)
    ∷ (0x23, 0x23, one_operand uleb128)
    ∷ (0x24, 0x27, no_operand)
    ∷ (0x28, 0x28, one_operand sdata2)
    ∷ (0x29, 0x2e, no_operand)
    ∷ (0x2f, 0x2f, one_operand sdata2)
    ∷ (0x30, 0x6f, no_operand)
    ∷ (0x70, 0x8f, one_operand sleb128)
    ∷ (0x90, 0x90, one_operand uleb128)
    ∷ (0x91, 0x91, one_operand sleb128)
    ∷ (0x92, 0x92, two_operands uleb128 sleb128)
    ∷ (0x93, 0x93, one_operand uleb128)
    ∷ (0x94, 0x95, unsigned_byte)
    ∷ (0x96, 0x97, no_operand)
    ∷ (0x98, 0x98, one_operand sdata2)
    ∷ (0x99, 0x99, one_operand sdata4)
    ∷ (0x9a, 0x9a, one_operand udata8)
    ∷ (0x9b, 0x9c, no_operand)
    ∷ (0x9d, 0x9d, two_operands uleb128 uleb128)
    ∷ (0x9f, 0x9f, no_operand)
    ∷ (0xa0, 0xa0, two_operands udata8 udata8)
    ∷ (0xa1, 0xa2, one_operand uleb128)
    ∷ (0xa5, 0xa5, two_operands uleb128 uleb128)
    ∷ (0xa6, 0xa7, byte_and_word)
    ∷ (0xa8, 0xa9, one_operand uleb128)
    ∷ (0xe0, 0xe0, no_operand)
    ∷ (0xf0, 0xf0, no_operand)
    ∷ (0xf2, 0xf2, two_operands udata8 udata8)
    ∷ (0xf5, 0xf5, two_operands uleb128 uleb128)
    ∷ (0xf6, 0xf6, byte_and_word)
    ∷ (0xf7, 0xf7, one_operand uleb128)
    ∷ (0xf9, 0xf9, one_operand uleb128)
    ∷ (0xfa, 0xfa, one_operand sdata4)
    ∷ (0xfb, 0xfc, one_operand uleb128)
    ∷ (0xfd, 0xfd, one_operand udata8)
    ∷ []

unfoldable pub find_operands : List (ℕ × ℕ × Operands) → ℕ → Operands
find_operands [] atom = unsupported
find_operands ((lo, hi, o) ∷ r) atom =
    if leb lo atom && leb atom hi then o else find_operands r atom

-- The operation with its operands read, and the bytes behind it.
unfoldable pub read_operands : Operands → Op → List ℕ → Run (Op × List ℕ)
read_operands no_operand op r = ok (op, r)
read_operands unsigned_byte op [] = fail
read_operands unsigned_byte op (b ∷ r) = ok (record op { number = b }, r)
read_operands signed_byte op [] = fail
read_operands signed_byte op (b ∷ r) = ok (record op { number = sign_extend 1 b }, r)
read_operands (one_operand f) op r = do
  (v, r₁) ← decode_read_checked f r
  ok (record op { number = v }, r₁)
read_operands (two_operands f g) op r = do
  (v, r₁) ← decode_read_checked f r
  (w, r₂) ← decode_read_checked g r₁
  ok (record op { number = v; number2 = w }, r₂)
read_operands byte_and_word op [] = fail
read_operands byte_and_word op (b ∷ r) = do
  (w, r₁) ← decode_read_checked udata8 r
  ok (record op { number = b; number2 = w }, r₁)
read_operands unsupported op r = fail

abbrev pub plain_op : ℕ → ℕ → Op
plain_op atom position = record { atom = atom; number = 0; number2 = 0; position = position }

-- `room` is `DWARF_OPS_MAX - size`; a block that ends with no room left is refused.
unfoldable pub block_loop : ℕ → ℕ → List ℕ → Run (List Op)
block_loop zero total r = fail
block_loop (suc room) total [] = ok []
block_loop (suc room) total (atom ∷ r) =
    read_operands (find_operands operand_table atom) (plain_op atom (total - length (atom ∷ r))) r
    >>= λ p. block_loop room total p.1 >>= λ ops. ok (p.0 ∷ ops)

abbrev pub op_call_frame_cfa : ℕ
op_call_frame_cfa = 0x9c

abbrev pub op_stack_value : ℕ
op_stack_value = 0x9f

abbrev pub op_plus_uconst : ℕ
op_plus_uconst = 0x23

abbrev pub op_regx : ℕ
op_regx = 0x90

abbrev pub op_bregx : ℕ
op_bregx = 0x92

-- Behind a value expression stands `DW_OP_stack_value`, at the end of the block.
abbrev pub value_suffix : FrameRule → ℕ → List Op
value_suffix val_expression total = plain_op op_stack_value total ∷ []
value_suffix _ total = []

unfoldable pub init_ops_from_block : List ℕ → FrameRule → Bool → Run (List Op)
init_ops_from_block [] rule cfa = fail
init_ops_from_block (b ∷ r) rule true = do
  ops ← block_loop dwarf_ops_max (length (b ∷ r)) (b ∷ r)
  ok (ops ++ value_suffix rule (length (b ∷ r)))
init_ops_from_block (b ∷ r) rule false = do
  ops ← block_loop (dwarf_ops_max - 1) (length (b ∷ r)) (b ∷ r)
  ok (plain_op op_call_frame_cfa 0 ∷ (ops ++ value_suffix rule (length (b ∷ r))))

unfoldable pub cfa_rule_ops : CfaRule → Run (List Op)
cfa_rule_ops no_cfa = fail
cfa_rule_ops (reg_plus number number2) =
    ok (record { atom = op_bregx; number = number; number2 = number2; position = 0 } ∷ [])
cfa_rule_ops (expr block) = init_ops_from_block block expression true
cfa_rule_ops (overwritten len) = if len == 0 then fail else fault wild_pointer

abbrev pub get_cfa_ops : Row → Run (List Op)
get_cfa_ops row = cfa_rule_ops row.cfa

abbrev pub plus_value : RegRule → List Op
plus_value r =
    if rule_value r == 0
    then []
    else record { atom = op_plus_uconst; number = rule_value r; number2 = 0; position = 0 } ∷ []

-- A rule by an expression names the place of its length in the section data.
unfoldable pub expression_ops : List ℕ → RegRule → Run (List Op)
expression_ops cfi_data r = do
  check (ltb (rule_value r) (length cfi_data))
  (len, p) ← decode_read_checked uleb128 (drop (rule_value r) cfi_data)
  check (leb len (length p))
  init_ops_from_block (take len p) r.rule false

unfoldable pub get_rule_ops : List ℕ → RegRule → FrameRule → Run (List Op)
get_rule_ops cfi_data r unspecified = fail
get_rule_ops cfi_data r undefined = fail
get_rule_ops cfi_data r same_value = fail
get_rule_ops cfi_data r offset = ok (plain_op op_call_frame_cfa 0 ∷ plus_value r)
get_rule_ops cfi_data r val_offset =
    ok (plain_op op_call_frame_cfa 0 ∷ (plus_value r ++ plain_op op_stack_value 0 ∷ []))
get_rule_ops cfi_data r register =
    ok (record { atom = op_regx; number = rule_value r; number2 = 0; position = 0 } ∷ [])
get_rule_ops cfi_data r expression = expression_ops cfi_data r
get_rule_ops cfi_data r val_expression = expression_ops cfi_data r

abbrev pub get_regs_ops : List ℕ → Row → Reg → Run (List Op)
get_regs_ops cfi_data row reg = get_rule_ops cfi_data (get_rule row reg) (get_rule row reg).rule
