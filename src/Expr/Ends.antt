-- ===== src/Expr/Ends.antt =====
-- The evaluator of src/gu_unwinder.c as a whole: it ends, or calls itself without end.
use libgunwinder.Base.{
  ℕ, zero, suc, ◌≡◌, refl, sym, ◌≢◌, inl, inr, true, none, some, List, [], ◌∷◌, get_elem?, arith,
  Bool-cases, Option-cases, deep,
}
use mathlib.Core.Path.{subst}
use libgunwinder.Snapshot.{in_block}
use libgunwinder.Cfi.Ops.{Op}
use libgunwinder.Expr.{System, Eval, failed, broken, ◌>>=◌, need, Kind, kind_of, dw_pop}
use libgunwinder.Expr.Evaluate.{Frame, Machine, eval_kind, eval_loop, finish, start, dwarf_ops_eval}
use libgunwinder.Expr.Reads.{Sound, Sound-bind, Any, HasData, HasSlots, HasSlots-in_block}
use libgunwinder.Expr.Steps.{Fits, pop-Sound, read_word, eval_kind-Sound}

pub eval_loop-finish :
    (steps : ℕ) (sys : System) (f : Frame) (cfa : Eval ℕ) (ops : List Op) (m : Machine)
    → get_elem? ops m.index ≡ none
    → eval_loop steps sys f cfa ops m ≡ finish sys f m
unfolding eval_loop
eval_loop-finish zero sys f cfa ops m e = rw (eval_loop, e) refl
eval_loop-finish (suc n) sys f cfa ops m e = rw (eval_loop, e) refl

pub eval_loop-spent :
    (sys : System) (f : Frame) (cfa : Eval ℕ) (ops : List Op) (m : Machine) (op : Op)
    → get_elem? ops m.index ≡ some op
    → eval_loop 0 sys f cfa ops m ≡ failed none
unfolding eval_loop
eval_loop-spent sys f cfa ops m op e = rw (eval_loop, e) refl

pub eval_loop-step :
    (n : ℕ) (sys : System) (f : Frame) (cfa : Eval ℕ) (ops : List Op) (m : Machine) (op : Op)
    → get_elem? ops m.index ≡ some op
    → eval_loop (suc n) sys f cfa ops m
      ≡ (eval_kind sys f cfa ops m op (kind_of op.atom) >>= λ m₁. eval_loop n sys f cfa ops m₁)
unfolding eval_loop
eval_loop-step n sys f cfa ops m op e = rw (eval_loop, e) refl

module _ (sys : System) (f : Frame) (has_data : HasData sys f.info f.raw_sp)
    (whole : (regno : ℕ) → in_block sys.slots f.info regno ≡ true) where
  finish-Sound : (m : Machine) → Fits m → Sound Any (finish sys f m)
  unfolding finish
  finish-Sound m h = Sound-bind _ Any (need (dw_pop m.stack)) _ (pop-Sound m.stack h) (λ p _.
      elim (Bool-cases m.is_location) [
        | inl y ↦ rw y (read_word sys f has_data whole p.0)
        | inr n ↦ rw n tt
      ])

  -- A call for the frame address is sound wherever the operations make one.
  abbrev CallsSound : Eval ℕ → List Op → Type 0
  CallsSound cfa ops =
      (i : ℕ) (op : Op)
      → get_elem? ops i ≡ some op
      → kind_of op.atom ≡ Kind.call_frame_cfa
      → Sound Any cfa

  eval_loop-Sound :
      (steps : ℕ) (cfa : Eval ℕ) (ops : List Op) (m : Machine)
      → CallsSound cfa ops
      → Fits m
      → Sound Any (eval_loop steps sys f cfa ops m)
  eval_loop-Sound zero cfa ops m s h = elim (Option-cases (get_elem? ops m.index)) [
    | inl e ↦ subst (Sound Any) (sym (eval_loop-finish 0 sys f cfa ops m e)) (finish-Sound m h)
    | inr (op, e) ↦ subst (Sound Any) (sym (eval_loop-spent sys f cfa ops m op e)) tt
  ]
  eval_loop-Sound (suc n) cfa ops m s h = elim (Option-cases (get_elem? ops m.index)) [
    | inl e ↦
        subst (Sound Any) (sym (eval_loop-finish (suc n) sys f cfa ops m e)) (finish-Sound m h)
    | inr (op, e) ↦ subst (Sound Any) (sym (eval_loop-step n sys f cfa ops m op e)) (
        Sound-bind Fits Any (eval_kind sys f cfa ops m op (kind_of op.atom)) _
          (eval_kind-Sound sys f has_data whole cfa ops m op (kind_of op.atom) (s m.index op e) h)
          (λ m₁ small. eval_loop-Sound n cfa ops m₁ s small))
  ]

  eval-Sound :
      (depth : ℕ) (ops : List Op)
      → CallsSound (dwarf_ops_eval depth sys f f.scratch.cfa_ops) ops
      → Sound Any (dwarf_ops_eval (suc depth) sys f ops)
  unfolding dwarf_ops_eval
  eval-Sound depth [] s = tt
  eval-Sound depth (op ∷ r) s = eval_loop-Sound 4096 _ (op ∷ r) start s (omega arith)

-- No operation calls for the frame address.
abbrev pub IsCallFree : List Op → Type 0
IsCallFree ops =
    (i : ℕ) (op : Op) → get_elem? ops i ≡ some op → kind_of op.atom ≢ Kind.call_frame_cfa

-- If the snapshot holds as many bytes as its size says, its end fits 64 bits, the register block
-- holds every slot of the register table, and no operation for the frame address is
-- DW_OP_call_frame_cfa, then evaluating any operations with at least two levels of frame address
-- ends, reads only bytes and registers of the snapshot, and meets no undefined behaviour but a
-- signed overflow of DW_OP_abs or DW_OP_neg.
pub dwarf_ops_eval-Sound :
    (depth : ℕ) (sys : System) (f : Frame) (ops : List Op)
    → HasData sys f.info f.raw_sp
    → HasSlots sys.slots f.info.regs
    → IsCallFree f.scratch.cfa_ops
    → Sound Any (dwarf_ops_eval (suc (suc depth)) sys f ops)
dwarf_ops_eval-Sound depth sys f ops has_data slots free =
    let whole = λ (regno : ℕ). HasSlots-in_block sys.slots f.info regno slots in
    eval-Sound sys f has_data whole (suc depth) ops (λ i op e k.
      eval-Sound sys f has_data whole depth f.scratch.cfa_ops
        (λ j o e' k'. absurd (free j o e' k')))

no_depth : (sys : System) (f : Frame) (ops : List Op) → dwarf_ops_eval 0 sys f ops ≡ broken deep
unfolding dwarf_ops_eval
no_depth sys f ops = refl

loop_breaks :
    (steps : ℕ) (sys : System) (f : Frame) (op : Op) (r : List Op)
    → kind_of op.atom ≡ Kind.call_frame_cfa
    → eval_loop (suc steps) sys f (broken deep) (op ∷ r) start ≡ broken deep
unfolding eval_loop eval_kind
loop_breaks steps sys f op r k = rw k refl

first_call :
    (depth : ℕ) (sys : System) (f : Frame) (op : Op) (r : List Op)
    → kind_of op.atom ≡ Kind.call_frame_cfa
    → dwarf_ops_eval depth sys f f.scratch.cfa_ops ≡ broken deep
    → dwarf_ops_eval (suc depth) sys f (op ∷ r) ≡ broken deep
unfolding dwarf_ops_eval
first_call depth sys f op r k e = rw e (loop_breaks 4095 sys f op r k)

-- If the operations for the frame address begin with DW_OP_call_frame_cfa, evaluating them calls
-- itself without end: every depth is too small.
pub dwarf_ops_eval-endless :
    (depth : ℕ) (sys : System) (f : Frame) (op : Op) (r : List Op)
    → f.scratch.cfa_ops ≡ op ∷ r
    → kind_of op.atom ≡ Kind.call_frame_cfa
    → dwarf_ops_eval depth sys f f.scratch.cfa_ops ≡ broken deep
dwarf_ops_eval-endless zero sys f op r e k = no_depth sys f f.scratch.cfa_ops
dwarf_ops_eval-endless (suc depth) sys f op r e k =
    subst (λ ops. dwarf_ops_eval (suc depth) sys f ops ≡ broken deep) (sym e)
      (first_call depth sys f op r k (dwarf_ops_eval-endless depth sys f op r e k))
