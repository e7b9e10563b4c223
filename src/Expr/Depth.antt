-- ===== src/Expr/Depth.antt =====
-- The recursion of the evaluator of src/gu_unwinder.c is bounded for every snapshot, also one whose
-- bytes or registers are short, unless the frame address calls for itself.
use libgunwinder.Base.{
  ℕ, zero, suc, ◌+◌, ◌*◌, ◌%◌, ◌^◌, ◌≡◌, refl, sym, ap, ◌||◌, inl, inr, true, false, Option, none,
  some, List, [], ◌∷◌, ltb, leb, ◌==◌, get_elem?, Bool-cases, Option-cases, Run, ok, fail, fault,
  Fault, deep, past_end, Settles, Whatever, drop, arith,
}
use libgunwinder.Base
use mathlib.Core.Path.{subst}
use libgunwinder.Base.Words.{add64, sub64}
use libgunwinder.Snapshot.{get_regs, in_block, UnwindReason}
use libgunwinder.Decode.{read_le}
use libgunwinder.Cfi.{trans_reg_type}
use libgunwinder.Cfi.Ops.{Op}
use libgunwinder.Cfi.Parse.{get_ops}
use libgunwinder.Expr.{
  System, Eval, value, failed, broken, ◌>>=◌, need, Kind, Unary, kind_of, dw_push, dw_pop,
  eval_unary, eval_binary, read_addr, load_word, read_addr_from_info,
}
use libgunwinder.Expr.Evaluate.{
  Frame, Machine, next, jump, jump_to, branch, load, eval_shuffle, eval_kind, push_reg, read_reg,
  eval_loop, finish, start, dwarf_ops_eval, reason_of, gen_reg,
}
use libgunwinder.Expr.Ends.{IsCallFree, eval_loop-finish, eval_loop-spent, eval_loop-step}
use libgunwinder.Expr.Fast.{gen_reg-dwarf_ops_eval}

-- Every fault but a recursion without end.
abbrev pub NotDeep : Fault → Type 0
NotDeep deep = ⊥
NotDeep e = Unit

abbrev IsShallow {ℓ} : {A : Type ℓ} → Eval A → Type 0
IsShallow (value a) = Unit
IsShallow (failed o) = Unit
IsShallow (broken e) = NotDeep e

IsShallow-bind {ℓ κ} :
    {A : Type ℓ} {B : Type κ} (m : Eval A) (f : A → Eval B)
    → IsShallow m
    → ((a : A) → IsShallow (f a))
    → IsShallow (m >>= f)
IsShallow-bind (value a) f h k = k a
IsShallow-bind (failed o) f h k = tt
IsShallow-bind (broken e) f h k = h

need-IsShallow {ℓ} : {A : Type ℓ} (o : Option A) → IsShallow (need o)
need-IsShallow none = tt
need-IsShallow (some a) = tt

-- A read of bytes past their end is no recursion.
abbrev Ends {ℓ} : {A : Type ℓ} → Run A → Type 0
Ends (ok a) = Unit
Ends fail = Unit
Ends (fault e) = NotDeep e

Ends-bind {ℓ κ} :
    {A : Type ℓ} {B : Type κ} (m : Run A) (f : A → Run B)
    → Ends m
    → ((a : A) → Ends (f a))
    → Ends (Base.◌>>=◌ m f)
Ends-bind (ok a) f h k = k a
Ends-bind fail f h k = tt
Ends-bind (fault e) f h k = h

read_le-Ends : (n : ℕ) (bytes : List ℕ) → Ends (read_le n bytes)
unfolding read_le
read_le-Ends zero bytes = tt
read_le-Ends (suc n) [] = tt
read_le-Ends (suc n) (b ∷ r) =
    Ends-bind (read_le n r) (λ p. ok (b % 256 + 256 * p.0, p.1)) (read_le-Ends n r) (λ p. tt)

module _ (bytes : List ℕ) (k : ℕ) where
  load_word-run :
      (m : Run (ℕ × List ℕ))
      → read_le 8 (drop k bytes) ≡ m
      → Ends m
      → IsShallow (load_word (some bytes) k)
  unfolding load_word
  load_word-run (ok p) e h = rw (load_word, e) tt
  load_word-run fail e h = rw (load_word, e) tt
  load_word-run (fault x) e h = rw (load_word, e) h

load_word-IsShallow : (o : Option (List ℕ)) (k : ℕ) → IsShallow (load_word o k)
unfolding load_word
load_word-IsShallow none k = tt
load_word-IsShallow (some bytes) k =
    load_word-run bytes k (read_le 8 (drop k bytes)) refl (read_le-Ends 8 (drop k bytes))

read_addr-IsShallow :
    (stack : Option (List ℕ)) (first last raw_sp addr : ℕ)
    → IsShallow (read_addr stack first last raw_sp addr)
unfolding read_addr
read_addr-IsShallow stack first last raw_sp addr =
    elim (Bool-cases
      (ltb addr first || leb last addr || ltb (add64 addr 8) addr || ltb (sub64 last addr) 8)) [
        | inl outside ↦ rw outside tt
        | inr within ↦ rw within (load_word-IsShallow stack _)
      ]

next-IsShallow : (m : Machine) (o : Option (List ℕ)) → IsShallow (next m o)
next-IsShallow m none = tt
next-IsShallow m (some s) = tt

jump_to-IsShallow : (m : Machine) (o : Option ℕ) → IsShallow (jump_to m o)
jump_to-IsShallow m none = tt
jump_to-IsShallow m (some i) = tt

eval_unary-IsShallow : (u : Unary) (n v : ℕ) → IsShallow (eval_unary u n v)
unfolding eval_unary
eval_unary-IsShallow Unary.abs n v = ground arith
eval_unary-IsShallow Unary.neg n v = ground arith
eval_unary-IsShallow Unary.not n v = tt
eval_unary-IsShallow Unary.plus_uconst n v = tt

module _ (sys : System) (f : Frame) where
  read_word-IsShallow : (addr : ℕ) → IsShallow (read_addr_from_info sys f.info f.raw_sp addr)
  unfolding read_addr_from_info
  read_word-IsShallow addr = read_addr-IsShallow f.info.stack_data _ _ f.raw_sp addr

  read_reg-IsShallow : (regno : ℕ) → IsShallow (read_reg sys f regno)
  unfolding read_reg
  read_reg-IsShallow regno = elim (Bool-cases (in_block sys.slots f.info regno)) [
    | inl y ↦ rw y (need-IsShallow (get_regs sys.slots f.info regno))
    | inr n ↦ rw n tt
  ]

  push_reg-IsShallow :
      (m : Machine) (regno : ℕ) (change : ℕ → ℕ) → IsShallow (push_reg sys f m regno change)
  unfolding push_reg
  push_reg-IsShallow m regno change =
      IsShallow-bind (read_reg sys f regno) _ (read_reg-IsShallow regno)
        (λ v. next-IsShallow m (dw_push m.stack (change v)))

  load-IsShallow : (m : Machine) (size : ℕ) → IsShallow (load sys f m size)
  unfolding load
  load-IsShallow m size = elim (Bool-cases (ltb 8 size)) [
    | inl y ↦ rw y tt
    | inr n ↦ rw n (
        IsShallow-bind (need (dw_pop m.stack)) _ (need-IsShallow (dw_pop m.stack)) (λ p.
          IsShallow-bind (read_addr_from_info sys f.info f.raw_sp p.0) _ (read_word-IsShallow p.0)
            (λ v. next-IsShallow m _)))
  ]

  branch-IsShallow : (ops : List Op) (m : Machine) (op : Op) → IsShallow (branch sys ops m op)
  unfolding branch jump
  branch-IsShallow ops m op =
      IsShallow-bind (need (dw_pop m.stack)) _ (need-IsShallow (dw_pop m.stack)) (λ p.
        elim (Bool-cases (p.0 == 0)) [
          | inl y ↦ rw y tt
          | inr n ↦ rw n (jump_to-IsShallow (record m { stack = p.1 }) _)
        ])

  eval_kind-IsShallow :
      (cfa : Eval ℕ) (ops : List Op) (m : Machine) (op : Op) (k : Kind)
      → (k ≡ Kind.call_frame_cfa → IsShallow cfa)
      → IsShallow (eval_kind sys f cfa ops m op k)
  unfolding eval_kind jump
  eval_kind-IsShallow cfa ops m op (Kind.lit n) s = next-IsShallow m _
  eval_kind-IsShallow cfa ops m op Kind.address s = next-IsShallow m _
  eval_kind-IsShallow cfa ops m op Kind.constant s = next-IsShallow m _
  eval_kind-IsShallow cfa ops m op (Kind.reg n) s = push_reg-IsShallow m n _
  eval_kind-IsShallow cfa ops m op Kind.regx s = push_reg-IsShallow m op.number _
  eval_kind-IsShallow cfa ops m op (Kind.breg n) s = push_reg-IsShallow m n _
  eval_kind-IsShallow cfa ops m op Kind.bregx s = push_reg-IsShallow m op.number _
  eval_kind-IsShallow cfa ops m op (Kind.shuffle k) s =
      next-IsShallow m (eval_shuffle k op.number m.stack)
  eval_kind-IsShallow cfa ops m op Kind.deref s = load-IsShallow m 8
  eval_kind-IsShallow cfa ops m op Kind.deref_size s = load-IsShallow m op.number
  eval_kind-IsShallow cfa ops m op (Kind.unary u) s =
      IsShallow-bind (need (dw_pop m.stack)) _ (need-IsShallow (dw_pop m.stack)) (λ p.
        IsShallow-bind (eval_unary u op.number p.0) _ (eval_unary-IsShallow u op.number p.0)
          (λ w. next-IsShallow m (dw_push p.1 w)))
  eval_kind-IsShallow cfa ops m op (Kind.binary b) s =
      IsShallow-bind (need (dw_pop m.stack)) _ (need-IsShallow (dw_pop m.stack)) (λ p.
        IsShallow-bind (need (dw_pop p.1)) _ (need-IsShallow (dw_pop p.1)) (λ q.
          IsShallow-bind (need (eval_binary b q.0 p.0)) _ (need-IsShallow (eval_binary b q.0 p.0))
            (λ w. next-IsShallow m (dw_push q.1 w))))
  eval_kind-IsShallow cfa ops m op Kind.bra s = branch-IsShallow ops m op
  eval_kind-IsShallow cfa ops m op Kind.skip s = jump_to-IsShallow m _
  eval_kind-IsShallow cfa ops m op Kind.nop s = tt
  eval_kind-IsShallow cfa ops m op Kind.call_frame_cfa s =
      IsShallow-bind cfa _ (s refl)
        (λ v. next-IsShallow (record m { is_location = true }) (dw_push m.stack v))
  eval_kind-IsShallow cfa ops m op Kind.stack_value s = tt
  eval_kind-IsShallow cfa ops m op Kind.bad s = tt

  finish-IsShallow : (m : Machine) → IsShallow (finish sys f m)
  unfolding finish
  finish-IsShallow m =
      IsShallow-bind (need (dw_pop m.stack)) _ (need-IsShallow (dw_pop m.stack)) (λ p.
        elim (Bool-cases m.is_location) [
          | inl y ↦ rw y (read_word-IsShallow p.0)
          | inr n ↦ rw n tt
        ])

  -- A call for the frame address ends wherever the operations make one.
  abbrev CallsEnd : Eval ℕ → List Op → Type 0
  CallsEnd cfa ops =
      (i : ℕ) (op : Op)
      → get_elem? ops i ≡ some op
      → kind_of op.atom ≡ Kind.call_frame_cfa
      → IsShallow cfa

  eval_loop-IsShallow :
      (steps : ℕ) (cfa : Eval ℕ) (ops : List Op) (m : Machine)
      → CallsEnd cfa ops
      → IsShallow (eval_loop steps sys f cfa ops m)
  eval_loop-IsShallow zero cfa ops m s = elim (Option-cases (get_elem? ops m.index)) [
    | inl e ↦ subst IsShallow (sym (eval_loop-finish 0 sys f cfa ops m e)) (finish-IsShallow m)
    | inr (op, e) ↦ subst IsShallow (sym (eval_loop-spent sys f cfa ops m op e)) tt
  ]
  eval_loop-IsShallow (suc n) cfa ops m s = elim (Option-cases (get_elem? ops m.index)) [
    | inl e ↦
        subst IsShallow (sym (eval_loop-finish (suc n) sys f cfa ops m e)) (finish-IsShallow m)
    | inr (op, e) ↦ subst IsShallow (sym (eval_loop-step n sys f cfa ops m op e)) (
        IsShallow-bind (eval_kind sys f cfa ops m op (kind_of op.atom)) _
          (eval_kind-IsShallow cfa ops m op (kind_of op.atom) (s m.index op e))
          (λ m₁. eval_loop-IsShallow n cfa ops m₁ s))
  ]

  eval-IsShallow :
      (depth : ℕ) (ops : List Op)
      → CallsEnd (dwarf_ops_eval depth sys f f.scratch.cfa_ops) ops
      → IsShallow (dwarf_ops_eval (suc depth) sys f ops)
  unfolding dwarf_ops_eval
  eval-IsShallow depth [] s = tt
  eval-IsShallow depth (op ∷ r) s = eval_loop-IsShallow 4096 _ (op ∷ r) start s

  reason_of-Settles : (m : Eval ℕ) → IsShallow m → Settles NotDeep Whatever (reason_of m)
  unfolding reason_of
  reason_of-Settles (value v) h = tt
  reason_of-Settles (failed none) h = tt
  reason_of-Settles (failed (some o)) h = tt
  reason_of-Settles (broken e) h = h

  gen_reg-none :
      (depth regno : ℕ)
      → get_ops f.scratch (trans_reg_type regno) false ≡ none
      → gen_reg depth sys f regno ≡ ok (UnwindReason.cfi_frame_cfa_failed, none)
  unfolding gen_reg
  gen_reg-none depth regno e = rw (gen_reg, e) refl

  -- If no operation for the frame address calls for it, gen_reg with two levels does not run out of
  -- them, whatever the snapshot holds.
  pub gen_reg-Settles :
      (depth regno : ℕ)
      → IsCallFree f.scratch.cfa_ops
      → Settles NotDeep Whatever (gen_reg (suc depth) sys f regno)
  gen_reg-Settles depth regno free =
      elim (Option-cases (get_ops f.scratch (trans_reg_type regno) false)) [
        | inl e ↦ subst (Settles NotDeep Whatever) (sym (gen_reg-none (suc depth) regno e)) tt
        | inr (ops, e) ↦
            subst (Settles NotDeep Whatever) (sym (gen_reg-dwarf_ops_eval depth sys f regno ops e))
              (reason_of-Settles _ (
                eval-IsShallow (suc depth) ops (λ i op k c.
                  eval-IsShallow depth f.scratch.cfa_ops (λ j o k' c'. absurd (free j o k' c')))))
      ]
