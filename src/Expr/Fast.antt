-- ===== src/Expr/Fast.antt =====
-- The fast path of src/gu_unwinder.c against the full evaluator.
use libgunwinder.Base.{
  ℕ, suc, ◌≡◌, refl, sym, ap, ◌∙◌, ◌⊎◌, inl, inr, true, false, Option, none, some, List, [], ◌∷◌,
  ◌==◌, Bool-cases, ==→eq, Fault,
}
use mathlib.Core.Path.{subst}
use libgunwinder.Base.Words.{add64}
use libgunwinder.Cfi.Ops.{Op, op_call_frame_cfa, op_stack_value, op_plus_uconst}
use libgunwinder.Cfi.{trans_reg_type}
use libgunwinder.Cfi.Parse.{get_ops}
use libgunwinder.Expr.{
  System, OutOfRange, Eval, plus_uconst, value, failed, broken, ◌>>=◌, Kind, kind_of, find_kind,
  dw_push, dw_pop, eval_unary, read_addr_from_info,
}
use libgunwinder.Expr.Evaluate.{
  Frame, eval_kind, eval_loop, push_reg, finish, start, dwarf_ops_eval, fast_eval_reg_or_breg,
  fast_eval_cfa, read_reg, fast_tail, fast_dwarf_ops_eval, or_eval, gen_reg, reason_of,
}

-- An attempt that gives up without a trace, or agrees with the full evaluation.
abbrev Agrees : Eval ℕ → Eval ℕ → Type 0
Agrees a b = (a ≡ failed none) ⊎ (a ≡ b)

or_eval-Agrees : (a b : Eval ℕ) → Agrees a b → or_eval a b ≡ b
or_eval-Agrees a b (inl e) = rw e refl
or_eval-Agrees (value v) b (inr e) = e
or_eval-Agrees (failed none) b (inr e) = refl
or_eval-Agrees (failed (some o)) b (inr e) = rw (← e) refl
or_eval-Agrees (broken f) b (inr e) = e

value-id : (m : Eval ℕ) → (m >>= λ v. value v) ≡ m
value-id (value v) = refl
value-id (failed o) = refl
value-id (broken e) = refl

module _ (steps : ℕ) (sys : System) (f : Frame) (cfa : Eval ℕ) where
  read_reg-cases :
      (regno : ℕ)
      → ((o : Option OutOfRange) × (read_reg sys f regno ≡ failed o))
        ⊎ (((v : ℕ) × (read_reg sys f regno ≡ value v))
            ⊎ ((e : Fault) × (read_reg sys f regno ≡ broken e)))
  read_reg-cases regno = cases (read_reg sys f regno)
    where
      cases :
          (m : Eval ℕ)
          → ((o : Option OutOfRange) × (m ≡ failed o))
            ⊎ (((v : ℕ) × (m ≡ value v)) ⊎ ((e : Fault) × (m ≡ broken e)))
      cases (failed o) = inl (o, refl)
      cases (value v) = inr (inl (v, refl))
      cases (broken e) = inr (inr (e, refl))

  -- A register's value, pushed and popped again.
  reg_run :
      (op : Op) (k : Kind) (regno : ℕ) (change : ℕ → ℕ)
      → kind_of op.atom ≡ k
      → eval_kind sys f cfa (op ∷ []) start op k ≡ push_reg sys f start regno change
      → eval_loop (suc (suc steps)) sys f cfa (op ∷ []) start
        ≡ (read_reg sys f regno >>= λ v. value (change v))
  unfolding eval_loop push_reg finish dw_push dw_pop
  reg_run op k regno change e q = elim (read_reg-cases regno) [
    | inl (o, none_e) ↦ rw (e, q, none_e) refl
    | inr (inl (v, some_e)) ↦ rw (e, q, some_e) refl
    | inr (inr (x, broken_e)) ↦ rw (e, q, broken_e) refl
  ]

  single_reg :
      (op : Op) (k : Kind)
      → kind_of op.atom ≡ k
      → Agrees
          (fast_eval_reg_or_breg sys f op k)
          (eval_loop (suc (suc steps)) sys f cfa (op ∷ []) start)
  unfolding fast_eval_reg_or_breg eval_kind
  single_reg op (Kind.reg n) e = inr (sym (reg_run op (Kind.reg n) n (λ v. v) e refl ∙ value-id _))
  single_reg op Kind.regx e =
      inr (sym (reg_run op Kind.regx op.number (λ v. v) e refl ∙ value-id _))
  single_reg op (Kind.breg n) e =
      inr (sym (reg_run op (Kind.breg n) n (λ v. add64 v op.number) e refl))
  single_reg op Kind.bregx e =
      inr (sym (reg_run op Kind.bregx op.number (λ v. add64 v op.number2) e refl))
  single_reg op _ e = inl refl

single-Agrees :
    (depth : ℕ) (sys : System) (f : Frame) (op : Op)
    → Agrees
        (fast_eval_reg_or_breg sys f op (kind_of op.atom))
        (dwarf_ops_eval (suc depth) sys f (op ∷ []))
unfolding dwarf_ops_eval
single-Agrees depth sys f op =
    single_reg 4094 sys f (dwarf_ops_eval depth sys f f.scratch.cfa_ops) op (kind_of op.atom) refl

dwarf_ops_eval-nil :
    (depth : ℕ) (sys : System) (f : Frame) → dwarf_ops_eval (suc depth) sys f [] ≡ failed none
unfolding dwarf_ops_eval
dwarf_ops_eval-nil depth sys f = refl

dwarf_ops_eval-cons :
    (depth : ℕ) (sys : System) (f : Frame) (op : Op) (r : List Op)
    → dwarf_ops_eval (suc depth) sys f (op ∷ r)
      ≡ eval_loop 4096 sys f (dwarf_ops_eval depth sys f f.scratch.cfa_ops) (op ∷ r) start
unfolding dwarf_ops_eval
dwarf_ops_eval-cons depth sys f op r = refl

-- The attempt for a single operation, and the full evaluation where it fails.
kept :
    (full attempt : Eval ℕ)
    → Agrees attempt full
    → elim attempt [ value v ↦ value v | failed o ↦ full | broken e ↦ broken e ] ≡ full
kept full (value v) (inl e) = absurd (cc e)
kept full (value v) (inr e) = e
kept full (failed o) h = refl
kept full (broken x) (inl e) = absurd (cc e)
kept full (broken x) (inr e) = e

fast_eval_cfa-eq :
    (depth : ℕ) (sys : System) (f : Frame) (ops : List Op)
    → fast_eval_cfa (suc depth) sys f ops ≡ dwarf_ops_eval (suc depth) sys f ops
unfolding fast_eval_cfa
fast_eval_cfa-eq depth sys f [] = sym (dwarf_ops_eval-nil depth sys f)
fast_eval_cfa-eq depth sys f (op ∷ []) =
    kept (dwarf_ops_eval (suc depth) sys f (op ∷ []))
      (fast_eval_reg_or_breg sys f op (kind_of op.atom)) (single-Agrees depth sys f op)
fast_eval_cfa-eq depth sys f (op ∷ o ∷ r) = refl

kind_of-call :
    (op : Op) → (op.atom == op_call_frame_cfa) ≡ true → kind_of op.atom ≡ Kind.call_frame_cfa
unfolding find_kind
kind_of-call op e = ap kind_of (==→eq op.atom op_call_frame_cfa e)

kind_of-stack_value :
    (op : Op) → (op.atom == op_stack_value) ≡ true → kind_of op.atom ≡ Kind.stack_value
unfolding find_kind
kind_of-stack_value op e = ap kind_of (==→eq op.atom op_stack_value e)

kind_of-plus_uconst :
    (op : Op) → (op.atom == op_plus_uconst) ≡ true → kind_of op.atom ≡ Kind.unary plus_uconst
unfolding find_kind
kind_of-plus_uconst op e = ap kind_of (==→eq op.atom op_plus_uconst e)

module _ (steps : ℕ) (sys : System) (f : Frame) (op a b : Op) where
  run-stack_value :
      (cfa : Eval ℕ)
      → kind_of op.atom ≡ Kind.call_frame_cfa
      → kind_of a.atom ≡ Kind.stack_value
      → (cfa >>= λ v. value v) ≡ eval_loop (suc (suc (suc steps))) sys f cfa (op ∷ a ∷ []) start
  unfolding eval_loop eval_kind finish dw_push dw_pop
  run-stack_value (value v) e₁ e₂ = rw (e₁, e₂) refl
  run-stack_value (failed o) e₁ e₂ = rw e₁ refl
  run-stack_value (broken x) e₁ e₂ = rw e₁ refl

  run-plus_uconst :
      (cfa : Eval ℕ)
      → kind_of op.atom ≡ Kind.call_frame_cfa
      → kind_of a.atom ≡ Kind.unary plus_uconst
      → (cfa >>= λ v. read_addr_from_info sys f.info f.raw_sp (add64 v a.number))
        ≡ eval_loop (suc (suc (suc steps))) sys f cfa (op ∷ a ∷ []) start
  unfolding eval_loop eval_kind finish dw_push dw_pop eval_unary
  run-plus_uconst (value v) e₁ e₂ = rw (e₁, e₂) refl
  run-plus_uconst (failed o) e₁ e₂ = rw e₁ refl
  run-plus_uconst (broken x) e₁ e₂ = rw e₁ refl

  run-plus_value :
      (cfa : Eval ℕ)
      → kind_of op.atom ≡ Kind.call_frame_cfa
      → kind_of a.atom ≡ Kind.unary plus_uconst
      → kind_of b.atom ≡ Kind.stack_value
      → (cfa >>= λ v. value (add64 v a.number))
        ≡ eval_loop (suc (suc (suc (suc steps)))) sys f cfa (op ∷ a ∷ b ∷ []) start
  unfolding eval_loop eval_kind finish dw_push dw_pop eval_unary
  run-plus_value (value v) e₁ e₂ e₃ = rw (e₁, e₂, e₃) refl
  run-plus_value (failed o) e₁ e₂ e₃ = rw e₁ refl
  run-plus_value (broken x) e₁ e₂ e₃ = rw e₁ refl

module _ (sys : System) (f : Frame) (op a : Op) (call : kind_of op.atom ≡ Kind.call_frame_cfa) where
  run-stopped :
      (steps : ℕ) (r : List Op)
      → ((o : Option OutOfRange) → failed o ≡ eval_loop (suc steps) sys f (failed o) (op ∷ r) start)
        × ((x : Fault) → broken x ≡ eval_loop (suc steps) sys f (broken x) (op ∷ r) start)
  unfolding eval_loop eval_kind
  run-stopped steps r = (λ o. rw call refl, λ x. rw call refl)

  two_ops :
      (steps v : ℕ)
      → Agrees
          (fast_tail sys f v (a ∷ []))
          (eval_loop (suc (suc (suc steps))) sys f (value v) (op ∷ a ∷ []) start)
  unfolding fast_tail
  two_ops steps v = elim (Bool-cases (a.atom == op_stack_value)) [
    | inl y ↦
        rw y (inr (run-stack_value steps sys f op a a (value v) call (kind_of-stack_value a y)))
    | inr n ↦ rw n (elim (Bool-cases (a.atom == op_plus_uconst)) [
      | inl y ↦
          rw y (inr (run-plus_uconst steps sys f op a a (value v) call (kind_of-plus_uconst a y)))
      | inr n' ↦ rw n' (inl refl)
    ])
  ]

  three_ops :
      (steps v : ℕ) (b : Op)
      → Agrees
          (fast_tail sys f v (a ∷ b ∷ []))
          (eval_loop (suc (suc (suc (suc steps)))) sys f (value v) (op ∷ a ∷ b ∷ []) start)
  unfolding fast_tail
  three_ops steps v b = elim (Bool-cases (a.atom == op_plus_uconst)) [
    | inl y ↦ rw y (elim (Bool-cases (b.atom == op_stack_value)) [
      | inl z ↦ rw z (
          inr (
            run-plus_value steps sys f op a b (value v) call (kind_of-plus_uconst a y)
              (kind_of-stack_value b z)))
      | inr n ↦ rw n (inl refl)
    ])
    | inr n ↦ rw n (inl refl)
  ]

  tail-Agrees :
      (c : Eval ℕ) (r : List Op)
      → Agrees
          (c >>= λ v. fast_tail sys f v (a ∷ r))
          (eval_loop (suc (suc (suc (suc 4092)))) sys f c (op ∷ a ∷ r) start)
  unfolding fast_tail
  tail-Agrees (value v) [] = two_ops 4093 v
  tail-Agrees (value v) (b ∷ []) = three_ops 4092 v b
  tail-Agrees (value v) (b ∷ b' ∷ r) = inl refl
  tail-Agrees (failed o) r = inr ((run-stopped 4095 (a ∷ r)).0 o)
  tail-Agrees (broken x) r = inr ((run-stopped 4095 (a ∷ r)).1 x)

call_first :
    (depth : ℕ) (sys : System) (f : Frame) (op a : Op) (r : List Op)
    → (op.atom == op_call_frame_cfa) ≡ true
    → Agrees
        (dwarf_ops_eval (suc depth) sys f f.scratch.cfa_ops >>= λ v. fast_tail sys f v (a ∷ r))
        (dwarf_ops_eval (suc (suc depth)) sys f (op ∷ a ∷ r))
call_first depth sys f op a r y =
    subst (Agrees _) (sym (dwarf_ops_eval-cons (suc depth) sys f op (a ∷ r))) (
      tail-Agrees sys f op a (kind_of-call op y)
        (dwarf_ops_eval (suc depth) sys f f.scratch.cfa_ops) r)

fast-Agrees :
    (depth : ℕ) (sys : System) (f : Frame) (ops : List Op)
    → Agrees
        (fast_dwarf_ops_eval (suc depth) sys f ops)
        (dwarf_ops_eval (suc (suc depth)) sys f ops)
unfolding fast_dwarf_ops_eval
fast-Agrees depth sys f [] = inl refl
fast-Agrees depth sys f (op ∷ []) = single-Agrees (suc depth) sys f op
fast-Agrees depth sys f (op ∷ a ∷ r) = elim (Bool-cases (op.atom == op_call_frame_cfa)) [
  | inl y ↦ rw (y, fast_eval_cfa-eq depth sys f f.scratch.cfa_ops) (call_first depth sys f op a r y)
  | inr n ↦ rw n (inl refl)
]

-- If a register has operations, gen_reg returns the reason and the value that the full evaluator
-- alone gives for them: the fast path changes neither.
pub gen_reg-dwarf_ops_eval :
    (depth : ℕ) (sys : System) (f : Frame) (regno : ℕ) (ops : List Op)
    → get_ops f.scratch (trans_reg_type regno) false ≡ some ops
    → gen_reg (suc depth) sys f regno ≡ reason_of (dwarf_ops_eval (suc (suc depth)) sys f ops)
unfolding gen_reg
gen_reg-dwarf_ops_eval depth sys f regno ops h =
    rw (gen_reg, h, or_eval-Agrees _ _ (fast-Agrees depth sys f ops)) refl
