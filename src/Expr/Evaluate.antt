-- ===== src/Expr/Evaluate.antt =====
-- `gu_dwarf_ops_eval`, its fast path and `gen_reg` of src/gu_unwinder.c. A frame address that an
-- expression calls for is evaluated by the same function again: `depth` bounds these calls.
use libgunwinder.Base.{
  ℕ, zero, suc, ◌+◌, ◌*◌, ◌%◌, ◌^◌, Bool, true, false, Option, none, some, List, [], ◌∷◌, ltb, ◌==◌,
  ◌&&◌, if◌then◌else◌, get_elem?, deep, past_end, Run, ok, fault,
}
use libgunwinder.Base.Words.{add64}
use libgunwinder.Snapshot.{StackInfo, get_regs, in_block, UnwindReason}
use libgunwinder.Decode.{sign_extend}
use libgunwinder.Cfi.{trans_reg_type}
use libgunwinder.Cfi.Ops.{Op, op_call_frame_cfa, op_stack_value, op_plus_uconst}
use libgunwinder.Cfi.Parse.{Scratch, get_ops}
use libgunwinder.Expr.{
  System, Eval, value, failed, broken, ◌>>=◌, need, Shuffle, dup, drop_top, over, pick, swap, rot,
  Kind, lit, reg, breg, address, constant, regx, bregx, deref, deref_size, bra, skip, nop,
  call_frame_cfa, stack_value, bad, shuffle, unary, binary, kind_of, eval_unary, eval_binary,
  dw_push, dw_pop, read_addr_from_info, dw_eval_steps_max,
}

-- The snapshot and the decoded operations that one evaluation works with.
pub record Frame : Type 0 where
  pub info : StackInfo
  pub raw_sp : ℕ
  pub bias : ℕ
  pub scratch : Scratch

pub record Machine : Type 0 where
  pub index : ℕ
  pub stack : List ℕ
  pub is_location : Bool

unfoldable pub eval_shuffle : Shuffle → ℕ → List ℕ → Option (List ℕ)
eval_shuffle dup number (a ∷ s) = elim (dw_push s a) [ none ↦ none | some t ↦ dw_push t a ]
eval_shuffle drop_top number (a ∷ s) = some s
eval_shuffle over number (a ∷ b ∷ s) = elim (dw_push s b) [
  | none ↦ none
  | some t ↦ elim (dw_push t a) [ none ↦ none | some u ↦ dw_push u b ]
]
eval_shuffle swap number (a ∷ b ∷ s) = some (b ∷ a ∷ s)
eval_shuffle rot number (a ∷ b ∷ c ∷ s) = some (b ∷ c ∷ a ∷ s)
eval_shuffle pick number s = elim (get_elem? s number) [ none ↦ none | some v ↦ dw_push s v ]
eval_shuffle _ number _ = none

-- The stack as it is after the operation, at the next operation.
abbrev pub next : Machine → Option (List ℕ) → Eval Machine
next m none = failed none
next m (some s) = value (record m { index = suc m.index; stack = s })

abbrev pub jump_to : Machine → Option ℕ → Eval Machine
jump_to m none = failed none
jump_to m (some i) = value (record m { index = i })

-- DW_OP_skip and a DW_OP_bra that is taken.
unfoldable pub jump : System → List Op → Machine → Op → Eval Machine
jump sys ops m op =
    jump_to m (sys.bsearch ops (add64 (op.position + 3) (sign_extend 2 (op.number % 2 ^ 16))))

unfoldable pub branch : System → List Op → Machine → Op → Eval Machine
branch sys ops m op = do
  (v, s) ← need (dw_pop m.stack)
  if v == 0 then next m (some s) else jump sys ops (record m { stack = s }) op

-- `get_regs`, where a slot beyond the register block is read past its end.
unfoldable pub read_reg : System → Frame → ℕ → Eval ℕ
read_reg sys f regno =
    if in_block sys.slots f.info regno
    then need (get_regs sys.slots f.info regno)
    else broken past_end

-- What `change` makes of a register's value, pushed.
unfoldable pub push_reg : System → Frame → Machine → ℕ → (ℕ → ℕ) → Eval Machine
push_reg sys f m regno change = do v ← read_reg sys f regno; next m (dw_push m.stack (change v))

-- DW_OP_deref and DW_OP_deref_size: `size` bytes of the word at the popped address.
unfoldable pub load : System → Frame → Machine → ℕ → Eval Machine
load sys f m size =
    if ltb 8 size
    then failed none
    else need (dw_pop m.stack) >>= λ (p : ℕ × List ℕ).
        read_addr_from_info sys f.info f.raw_sp p.0 >>= λ v.
        next m (dw_push p.1 (if ltb size 8 then v % 2 ^ (8 * size) else v))

unfoldable pub eval_kind : System → Frame → Eval ℕ → List Op → Machine → Op → Kind → Eval Machine
eval_kind sys f cfa ops m op (lit n) = next m (dw_push m.stack n)
eval_kind sys f cfa ops m op address = next m (dw_push m.stack (add64 op.number f.bias))
eval_kind sys f cfa ops m op constant = next m (dw_push m.stack op.number)
eval_kind sys f cfa ops m op (reg n) = push_reg sys f m n (λ v. v)
eval_kind sys f cfa ops m op regx = push_reg sys f m op.number (λ v. v)
eval_kind sys f cfa ops m op (breg n) = push_reg sys f m n (λ v. add64 v op.number)
eval_kind sys f cfa ops m op bregx = push_reg sys f m op.number (λ v. add64 v op.number2)
eval_kind sys f cfa ops m op (shuffle s) = next m (eval_shuffle s op.number m.stack)
eval_kind sys f cfa ops m op deref = load sys f m 8
eval_kind sys f cfa ops m op deref_size = load sys f m op.number
eval_kind sys f cfa ops m op (unary u) = do
  (v, s) ← need (dw_pop m.stack)
  w ← eval_unary u op.number v
  next m (dw_push s w)
eval_kind sys f cfa ops m op (binary b) = do
  (v2, s) ← need (dw_pop m.stack)
  (v1, s) ← need (dw_pop s)
  w ← need (eval_binary b v1 v2)
  next m (dw_push s w)
eval_kind sys f cfa ops m op bra = branch sys ops m op
eval_kind sys f cfa ops m op skip = jump sys ops m op
eval_kind sys f cfa ops m op nop = next m (some m.stack)
eval_kind sys f cfa ops m op call_frame_cfa =
    cfa >>= λ v. next (record m { is_location = true }) (dw_push m.stack v)
eval_kind sys f cfa ops m op stack_value = next (record m { is_location = false }) (some m.stack)
eval_kind sys f cfa ops m op bad = failed none

-- What follows the loop.
unfoldable pub finish : System → Frame → Machine → Eval ℕ
finish sys f m = do
  (v, s) ← need (dw_pop m.stack)
  if m.is_location then read_addr_from_info sys f.info f.raw_sp v else value v

-- `steps` operations may still be executed.
unfoldable pub eval_loop : ℕ → System → Frame → Eval ℕ → List Op → Machine → Eval ℕ
eval_loop zero sys f cfa ops m = elim (get_elem? ops m.index) [
  | none ↦ finish sys f m
  | some op ↦ failed none
]
eval_loop (suc steps) sys f cfa ops m = elim (get_elem? ops m.index) [
  | none ↦ finish sys f m
  | some op ↦
      eval_kind sys f cfa ops m op (kind_of op.atom) >>= λ m₁. eval_loop steps sys f cfa ops m₁
]

abbrev pub start : Machine
start = record { index = 0; stack = []; is_location = false }

unfoldable pub dwarf_ops_eval : ℕ → System → Frame → List Op → Eval ℕ
dwarf_ops_eval zero sys f ops = broken deep
dwarf_ops_eval (suc depth) sys f [] = failed none
dwarf_ops_eval (suc depth) sys f (op ∷ r) =
    eval_loop dw_eval_steps_max sys f (dwarf_ops_eval depth sys f f.scratch.cfa_ops) (op ∷ r) start

unfoldable pub fast_eval_reg_or_breg : System → Frame → Op → Kind → Eval ℕ
fast_eval_reg_or_breg sys f op (reg n) = read_reg sys f n
fast_eval_reg_or_breg sys f op regx = read_reg sys f op.number
fast_eval_reg_or_breg sys f op (breg n) = read_reg sys f n >>= λ v. value (add64 v op.number)
fast_eval_reg_or_breg sys f op bregx = read_reg sys f op.number >>= λ v. value (add64 v op.number2)
fast_eval_reg_or_breg sys f op _ = failed none

-- The frame address, from the operations for it.
unfoldable pub fast_eval_cfa : ℕ → System → Frame → List Op → Eval ℕ
fast_eval_cfa depth sys f [] = failed none
fast_eval_cfa depth sys f (op ∷ []) = elim (fast_eval_reg_or_breg sys f op (kind_of op.atom)) [
  | value v ↦ value v
  | failed o ↦ dwarf_ops_eval depth sys f (op ∷ [])
  | broken e ↦ broken e
]
fast_eval_cfa depth sys f (op ∷ o ∷ r) = dwarf_ops_eval depth sys f (op ∷ o ∷ r)

-- The operations behind DW_OP_call_frame_cfa.
unfoldable pub fast_tail : System → Frame → ℕ → List Op → Eval ℕ
fast_tail sys f cfa (a ∷ []) =
    if a.atom == op_stack_value
    then value cfa
    else if a.atom == op_plus_uconst
    then read_addr_from_info sys f.info f.raw_sp (add64 cfa a.number)
    else failed none
fast_tail sys f cfa (a ∷ b ∷ []) =
    if a.atom == op_plus_uconst && b.atom == op_stack_value
    then value (add64 cfa a.number)
    else failed none
fast_tail sys f cfa _ = failed none

unfoldable pub fast_dwarf_ops_eval : ℕ → System → Frame → List Op → Eval ℕ
fast_dwarf_ops_eval depth sys f [] = failed none
fast_dwarf_ops_eval depth sys f (op ∷ []) = fast_eval_reg_or_breg sys f op (kind_of op.atom)
fast_dwarf_ops_eval depth sys f (op ∷ a ∷ r) =
    if op.atom == op_call_frame_cfa
    then (fast_eval_cfa depth sys f f.scratch.cfa_ops >>= λ cfa. fast_tail sys f cfa (a ∷ r))
    else failed none

-- The first attempt, and the second where it fails; the record of a read out of range stays.
abbrev pub or_eval {ℓ} : {A : Type ℓ} → Eval A → Eval A → Eval A
or_eval (value a) other = value a
or_eval (broken e) other = broken e
or_eval (failed none) other = other
or_eval (failed (some o)) (failed none) = failed (some o)
or_eval (failed (some o)) other = other

-- The reason that `gen_reg` returns, and the register's value.
unfoldable pub reason_of : Eval ℕ → Run (UnwindReason × Option ℕ)
reason_of (value v) = ok (UnwindReason.ok, some v)
reason_of (failed (some o)) = ok (UnwindReason.stack_read_out_of_range, none)
reason_of (failed none) = ok (UnwindReason.cfi_frame_cfa_calc_failed, none)
reason_of (broken e) = fault e

-- The fast path runs at one level less, as its own call for a frame address does.
unfoldable pub gen_reg : ℕ → System → Frame → ℕ → Run (UnwindReason × Option ℕ)
gen_reg depth sys f regno = elim (get_ops f.scratch (trans_reg_type regno) false) [
  | none ↦ ok (UnwindReason.cfi_frame_cfa_failed, none)
  | some ops ↦
      reason_of
        (or_eval (fast_dwarf_ops_eval depth sys f ops) (dwarf_ops_eval (suc depth) sys f ops))
]
