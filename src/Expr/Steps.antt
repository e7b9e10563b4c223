-- ===== src/Expr/Steps.antt =====
-- One operation of the evaluator of src/gu_unwinder.c: its reads and the height of its stack.
use libgunwinder.Base.{
  ℕ, ◌≡◌, refl, inl, inr, ◌≤◌, true, Option, none, some, List, [], ◌∷◌, ◌==◌, ltb, get_elem?,
  length, arith, Bool-cases, Option-cases,
}
use libgunwinder.Snapshot.{get_regs, in_block}
use libgunwinder.Cfi.Ops.{Op}
use libgunwinder.Expr.{
  System, Eval, need, Kind, dw_push, dw_pop, eval_unary, eval_binary, read_addr_from_info, Unary,
  Shuffle,
}
use libgunwinder.Expr.Evaluate.{
  Frame, Machine, next, jump, jump_to, branch, load, eval_shuffle, eval_kind, push_reg, read_reg,
}
use libgunwinder.Expr.Reads.{Sound, Sound-bind, Any, HasData, read_addr_from_info-Sound}

-- The evaluation stack stays within `DW_EVAL_STACK_SIZE`.
abbrev pub Fits : Machine → Type 0
Fits m = length m.stack ≤ 256

next-Sound :
    (m : Machine) (o : Option (List ℕ))
    → ((s : List ℕ) → o ≡ some s → length s ≤ 256)
    → Sound Fits (next m o)
next-Sound m none h = tt
next-Sound m (some s) h = h s refl

dw_push-fits : (s t : List ℕ) (v : ℕ) → dw_push s v ≡ some t → length t ≤ 256
unfolding dw_push
dw_push-fits s t v h = ground arith

push-Sound : (m : Machine) (s : List ℕ) (v : ℕ) → Sound Fits (next m (dw_push s v))
push-Sound m s v = next-Sound m (dw_push s v) (λ t. dw_push-fits s t v)

pub pop-Sound :
    (s : List ℕ) → length s ≤ 256 → Sound (λ (p : ℕ × List ℕ). length p.1 ≤ 256) (need (dw_pop s))
unfolding dw_pop
pop-Sound [] h = tt
pop-Sound (v ∷ s) h = omega arith

need-Sound {ℓ} : {A : Type ℓ} (o : Option A) → Sound Any (need o)
need-Sound none = tt
need-Sound (some a) = tt

eval_shuffle-fits :
    (k : Shuffle) (n : ℕ) (s t : List ℕ)
    → length s ≤ 256
    → eval_shuffle k n s ≡ some t
    → length t ≤ 256
unfolding eval_shuffle dw_push
eval_shuffle-fits Shuffle.dup n [] t h e = ground arith
eval_shuffle-fits Shuffle.dup n (a ∷ s) t h e = ground arith
eval_shuffle-fits Shuffle.drop_top n [] t h e = ground arith
eval_shuffle-fits Shuffle.drop_top n (a ∷ s) t h e = ground arith
eval_shuffle-fits Shuffle.over n [] t h e = ground arith
eval_shuffle-fits Shuffle.over n (a ∷ []) t h e = ground arith
eval_shuffle-fits Shuffle.over n (a ∷ b ∷ s) t h e = ground arith
eval_shuffle-fits Shuffle.swap n [] t h e = ground arith
eval_shuffle-fits Shuffle.swap n (a ∷ []) t h e = ground arith
eval_shuffle-fits Shuffle.swap n (a ∷ b ∷ s) t h e = ground arith
eval_shuffle-fits Shuffle.rot n [] t h e = ground arith
eval_shuffle-fits Shuffle.rot n (a ∷ []) t h e = ground arith
eval_shuffle-fits Shuffle.rot n (a ∷ b ∷ []) t h e = ground arith
eval_shuffle-fits Shuffle.rot n (a ∷ b ∷ c ∷ s) t h e = ground arith
eval_shuffle-fits Shuffle.pick n s t h e = elim (Option-cases (get_elem? s n)) [
  | inl q ↦ let no = rw (eval_shuffle, q) at e in absurd (ground arith)
  | inr (v, q) ↦ dw_push-fits s t v (rw (eval_shuffle, q) at e)
]

eval_unary-Sound : (u : Unary) (n v : ℕ) → Sound Any (eval_unary u n v)
unfolding eval_unary
eval_unary-Sound Unary.abs n v = ground arith
eval_unary-Sound Unary.neg n v = ground arith
eval_unary-Sound Unary.not n v = tt
eval_unary-Sound Unary.plus_uconst n v = tt

jump_to-Sound : (m : Machine) (o : Option ℕ) → Fits m → Sound Fits (jump_to m o)
jump_to-Sound m none h = tt
jump_to-Sound m (some i) h = h

module _ (sys : System) (f : Frame) (has_data : HasData sys f.info f.raw_sp)
    (whole : (regno : ℕ) → in_block sys.slots f.info regno ≡ true) where
  pub read_word : (addr : ℕ) → Sound Any (read_addr_from_info sys f.info f.raw_sp addr)
  read_word addr = read_addr_from_info-Sound sys f.info f.raw_sp addr has_data

  read_reg-Sound : (regno : ℕ) → Sound Any (read_reg sys f regno)
  unfolding read_reg
  read_reg-Sound regno = rw (whole regno) (need-Sound (get_regs sys.slots f.info regno))

  push_reg-Sound :
      (m : Machine) (regno : ℕ) (change : ℕ → ℕ) → Sound Fits (push_reg sys f m regno change)
  unfolding push_reg
  push_reg-Sound m regno change =
      Sound-bind Any Fits (read_reg sys f regno) _ (read_reg-Sound regno)
        (λ v _. push-Sound m m.stack (change v))

  load-Sound : (m : Machine) (size : ℕ) → Fits m → Sound Fits (load sys f m size)
  unfolding load
  load-Sound m size h = elim (Bool-cases (ltb 8 size)) [
    | inl y ↦ rw y tt
    | inr n ↦ rw n (
        Sound-bind _ Fits (need (dw_pop m.stack)) _ (pop-Sound m.stack h) (λ p _.
          Sound-bind Any Fits (read_addr_from_info sys f.info f.raw_sp p.0) _ (read_word p.0)
            (λ v _. push-Sound m p.1 _)))
  ]

  jump-Sound : (ops : List Op) (m : Machine) (op : Op) → Fits m → Sound Fits (jump sys ops m op)
  unfolding jump
  jump-Sound ops m op h = jump_to-Sound m _ h

  branch-Sound : (ops : List Op) (m : Machine) (op : Op) → Fits m → Sound Fits (branch sys ops m op)
  unfolding branch
  branch-Sound ops m op h =
      Sound-bind _ Fits (need (dw_pop m.stack)) _ (pop-Sound m.stack h) (λ p small.
        elim (Bool-cases (p.0 == 0)) [
          | inl y ↦ rw y small
          | inr n ↦ rw n (jump-Sound ops (record m { stack = p.1 }) op small)
        ])

  pub eval_kind-Sound :
      (cfa : Eval ℕ) (ops : List Op) (m : Machine) (op : Op) (k : Kind)
      → (k ≡ Kind.call_frame_cfa → Sound Any cfa)
      → Fits m
      → Sound Fits (eval_kind sys f cfa ops m op k)
  unfolding eval_kind
  eval_kind-Sound cfa ops m op (Kind.lit n) s h = push-Sound m m.stack n
  eval_kind-Sound cfa ops m op Kind.address s h = push-Sound m m.stack _
  eval_kind-Sound cfa ops m op Kind.constant s h = push-Sound m m.stack op.number
  eval_kind-Sound cfa ops m op (Kind.reg n) s h = push_reg-Sound m n _
  eval_kind-Sound cfa ops m op Kind.regx s h = push_reg-Sound m op.number _
  eval_kind-Sound cfa ops m op (Kind.breg n) s h = push_reg-Sound m n _
  eval_kind-Sound cfa ops m op Kind.bregx s h = push_reg-Sound m op.number _
  eval_kind-Sound cfa ops m op (Kind.shuffle k) s h =
      next-Sound m _ (λ t. eval_shuffle-fits k op.number m.stack t h)
  eval_kind-Sound cfa ops m op Kind.deref s h = load-Sound m 8 h
  eval_kind-Sound cfa ops m op Kind.deref_size s h = load-Sound m op.number h
  eval_kind-Sound cfa ops m op (Kind.unary u) s h =
      Sound-bind _ Fits (need (dw_pop m.stack)) _ (pop-Sound m.stack h) (λ p _.
        Sound-bind Any Fits (eval_unary u op.number p.0) _ (eval_unary-Sound u op.number p.0)
          (λ w _. push-Sound m p.1 w))
  eval_kind-Sound cfa ops m op (Kind.binary b) s h =
      Sound-bind _ Fits (need (dw_pop m.stack)) _ (pop-Sound m.stack h) (λ p small.
        Sound-bind _ Fits (need (dw_pop p.1)) _ (pop-Sound p.1 small) (λ q _.
          Sound-bind Any Fits (need (eval_binary b q.0 p.0)) _ (need-Sound (eval_binary b q.0 p.0))
            (λ w _. push-Sound m q.1 w)))
  eval_kind-Sound cfa ops m op Kind.bra s h = branch-Sound ops m op h
  eval_kind-Sound cfa ops m op Kind.skip s h = jump-Sound ops m op h
  eval_kind-Sound cfa ops m op Kind.nop s h = h
  eval_kind-Sound cfa ops m op Kind.call_frame_cfa s h =
      Sound-bind Any Fits cfa _ (s refl)
        (λ v _. push-Sound (record m { is_location = true }) m.stack v)
  eval_kind-Sound cfa ops m op Kind.stack_value s h = h
  eval_kind-Sound cfa ops m op Kind.bad s h = tt
