-- ===== src/Cfi/Parse/Sizes.antt =====
-- The arrays of `DWARF_OPS_MAX` operations of src/gu_cfi_helper.c never overflow.
use libgunwinder.Base.{
  Returns, Returns-then, Returns-bind, ℕ, zero, suc, ◌-◌, ◌≤◌, ◌<◌, true, false, List, [], ◌∷◌,
  arith, Run, ok, fail, fault, ◌==◌, length, length-append, Bool-cases, inl, inr, check, ltb, leb,
  drop, take,
}
use libgunwinder.Decode.{decode_read_checked, uleb128}
use libgunwinder.Cfi.{
  rip, rbp, rsp, Row, RegRule, FrameRule, CfaRule, get_rule, rule_value, val_expression, expression,
}
use libgunwinder.Cfi.Ops.{
  Op, block_loop, read_operands, find_operands, operand_table, plain_op, init_ops_from_block,
  value_suffix, get_cfa_ops, get_regs_ops, get_rule_ops, expression_ops, cfa_rule_ops,
  op_stack_value, plus_value, dwarf_ops_max,
}
use libgunwinder.Cfi.Parse.{Scratch, row_ops, or_ops}

abbrev pub Fits : List Op → Type 0
Fits ops = length ops ≤ dwarf_ops_max

block_loop-length :
    (room total : ℕ) (r : List ℕ) → Returns (λ ops. length ops < room) (block_loop room total r)
unfolding block_loop
block_loop-length zero total r = tt
block_loop-length (suc room) total [] = omega arith
block_loop-length (suc room) total (atom ∷ r) =
    Returns-bind _
      (read_operands (find_operands operand_table atom) (plain_op atom (total - length (atom ∷ r)))
        r)
      _
      (λ p.
        Returns-then (λ ops. length ops < room) _ (block_loop room total p.1) _
          (block_loop-length room total p.1) (λ ops h. omega arith))

value_suffix-length : (rule : FrameRule) (total : ℕ) → length (value_suffix rule total) ≤ 1
value_suffix-length val_expression total = omega arith
value_suffix-length _ total = omega arith

init_ops_from_block-Fits :
    (block : List ℕ) (rule : FrameRule) → Returns Fits (init_ops_from_block block rule false)
unfolding init_ops_from_block
init_ops_from_block-Fits [] rule = tt
init_ops_from_block-Fits (b ∷ r) rule =
    Returns-then _ Fits (block_loop 255 (length (b ∷ r)) (b ∷ r)) _
      (block_loop-length 255 (length (b ∷ r)) (b ∷ r))
      (λ ops h. omega (
        arith,
        length-append ops (value_suffix rule (length (b ∷ r))),
        value_suffix-length rule (length (b ∷ r)),
      ))

init_cfa_ops-Fits : (block : List ℕ) → Returns Fits (init_ops_from_block block expression true)
unfolding init_ops_from_block
init_cfa_ops-Fits [] = tt
init_cfa_ops-Fits (b ∷ r) =
    Returns-then _ Fits (block_loop 256 (length (b ∷ r)) (b ∷ r)) _
      (block_loop-length 256 (length (b ∷ r)) (b ∷ r))
      (λ ops h. omega (arith, length-append ops []))

cfa_rule_ops-Fits : (c : CfaRule) → Returns Fits (cfa_rule_ops c)
unfolding cfa_rule_ops
cfa_rule_ops-Fits CfaRule.no_cfa = tt
cfa_rule_ops-Fits (CfaRule.reg_plus n n2) = omega arith
cfa_rule_ops-Fits (CfaRule.expr block) = init_cfa_ops-Fits block
cfa_rule_ops-Fits (CfaRule.overwritten len) = elim (Bool-cases (len == 0)) [
  | inl y ↦ rw y tt
  | inr n ↦ rw n tt
]

expression_ops-Fits : (cfi_data : List ℕ) (r : RegRule) → Returns Fits (expression_ops cfi_data r)
unfolding expression_ops
expression_ops-Fits cfi_data r =
    Returns-bind Fits (check (ltb (rule_value r) (length cfi_data))) _ (λ _.
      Returns-bind Fits (decode_read_checked uleb128 (drop (rule_value r) cfi_data)) _ (λ p.
        Returns-bind Fits (check (leb p.0 (length p.1))) _
          (λ _. init_ops_from_block-Fits (take p.0 p.1) r.rule)))

plus_value-length : (r : RegRule) → length (plus_value r) ≤ 1
plus_value-length r = elim (Bool-cases (rule_value r == 0)) [
  | inl y ↦ rw y (omega arith)
  | inr n ↦ rw n (omega arith)
]

get_rule_ops-Fits :
    (cfi_data : List ℕ) (r : RegRule) (rule : FrameRule)
    → Returns Fits (get_rule_ops cfi_data r rule)
unfolding get_rule_ops
get_rule_ops-Fits cfi_data r FrameRule.unspecified = tt
get_rule_ops-Fits cfi_data r FrameRule.undefined = tt
get_rule_ops-Fits cfi_data r FrameRule.same_value = tt
get_rule_ops-Fits cfi_data r FrameRule.offset = omega (arith, plus_value-length r)
get_rule_ops-Fits cfi_data r FrameRule.val_offset =
    omega
      (arith, plus_value-length r, length-append (plus_value r) (plain_op op_stack_value 0 ∷ []))
get_rule_ops-Fits cfi_data r FrameRule.register = omega arith
get_rule_ops-Fits cfi_data r FrameRule.expression = expression_ops-Fits cfi_data r
get_rule_ops-Fits cfi_data r FrameRule.val_expression = expression_ops-Fits cfi_data r

or_ops-Fits :
    (a : Run (List Op)) (b : List Op) → Returns Fits a → Fits b → Returns Fits (or_ops a b)
or_ops-Fits (ok ops) b h k = h
or_ops-Fits fail b h k = k
or_ops-Fits (fault e) b h k = tt

abbrev pub AllFit : Scratch → Type 0
AllFit s = Fits s.cfa_ops × Fits s.rip_ops × Fits s.rbp_ops × Fits s.rsp_ops

-- Each of the four scratch arrays that a row gives holds at most DWARF_OPS_MAX operations.
pub row_ops-AllFit : (cfi_data : List ℕ) (row : Row) → Returns AllFit (row_ops cfi_data row)
unfolding row_ops
row_ops-AllFit cfi_data row =
    Returns-then Fits AllFit (get_cfa_ops row) _ (cfa_rule_ops-Fits row.cfa) (λ cfa c.
      Returns-then Fits AllFit (or_ops (get_regs_ops cfi_data row rsp) cfa) _
        (or_ops-Fits (get_regs_ops cfi_data row rsp) cfa
          (get_rule_ops-Fits cfi_data (get_rule row rsp) (get_rule row rsp).rule) c)
        (λ sp a.
          Returns-then Fits AllFit (or_ops (get_regs_ops cfi_data row rip) []) _
            (or_ops-Fits (get_regs_ops cfi_data row rip) []
              (get_rule_ops-Fits cfi_data (get_rule row rip) (get_rule row rip).rule) (omega arith))
            (λ ra b.
              Returns-then Fits AllFit (or_ops (get_regs_ops cfi_data row rbp) []) _
                (or_ops-Fits (get_regs_ops cfi_data row rbp) []
                  (get_rule_ops-Fits cfi_data (get_rule row rbp) (get_rule row rbp).rule)
                  (omega arith))
                (λ bp d. (c, b, d, a)))))
