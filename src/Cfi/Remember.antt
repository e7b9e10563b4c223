-- ===== src/Cfi/Remember.antt =====
-- Remembered rows: what stands between a `remember_state` and its `restore_state` is undone.
use libgunwinder.Base.{
  ℕ, ◌≡◌, refl, Bool, List, [], ◌∷◌, arith, Run, ok, fail, fault, ◌>>=◌, ap, ◌∙◌,
}
use mathlib.Core.Path.{subst}
use libgunwinder.Decode.{decode_read_checked, skip_block, uleb128, Format}
use libgunwinder.Cfi.{Row, CalcCtx, Cie, FrameRule}
use libgunwinder.Cfi.Program.{Opcode, State, Stepped, exec, exec_expression, exec_offset, advance}

-- The opcodes that leave the chain of remembered rows alone.
abbrev pub IsPlain : Opcode → Type 0
IsPlain Opcode.remember_state = ⊥
IsPlain Opcode.restore_state = ⊥
IsPlain o = Unit

module _ (cie : Cie) (in_cie : Bool) (ins_end : ℕ) where
  -- Instructions executed one after the other, each with the bytes behind its opcode.
  pub data Executes : State → State → Type 0 where
    done : (s : State) → Executes s s
    plain :
        (s u : State) (o : Opcode) (r : List ℕ) (t : Stepped)
        → IsPlain o
        → exec cie in_cie ins_end o s r ≡ ok t
        → Executes t.state u
        → Executes s u
    nested :
        (s t v : State) (r q : List ℕ) (a b : Stepped)
        → exec cie in_cie ins_end Opcode.remember_state s r ≡ ok a
        → Executes a.state t
        → exec cie in_cie ins_end Opcode.restore_state t q ≡ ok b
        → Executes b.state v
        → Executes s v

  abbrev Keeps : State → Run Stepped → Type 0
  Keeps s (ok t) = t.state.ctx.prev ≡ s.ctx.prev
  Keeps s fail = Unit
  Keeps s (fault e) = Unit

  Keeps-bind :
      {A : Type 0} (s : State) (m : Run A) (f : A → Run Stepped)
      → ((a : A) → Keeps s (f a))
      → Keeps s (m >>= f)
  Keeps-bind s (ok a) f k = k a
  Keeps-bind s fail f k = tt
  Keeps-bind s (fault e) f k = tt

  one_read :
      (s : State) (format : Format) (r : List ℕ) (f : ℕ → List ℕ → Stepped)
      → ((a : ℕ) (rest : List ℕ) → (f a rest).state.ctx.prev ≡ s.ctx.prev)
      → Keeps s (decode_read_checked format r >>= λ p. ok (f p.0 p.1))
  one_read s format r f k = Keeps-bind s (decode_read_checked format r) _ (λ a. k a.0 a.1)

  two_reads :
      (s : State) (format : Format) (r : List ℕ) (f : ℕ → ℕ → List ℕ → Stepped)
      → ((a b : ℕ) (rest : List ℕ) → (f a b rest).state.ctx.prev ≡ s.ctx.prev)
      → Keeps s (
          decode_read_checked uleb128 r >>= λ p.
          decode_read_checked format p.1 >>= λ q. ok (f p.0 q.0 q.1))
  two_reads s format r f k =
      Keeps-bind s (decode_read_checked uleb128 r) _
        (λ a. Keeps-bind s (decode_read_checked format a.1) _ (λ b. k a.0 b.0 b.1))

  expression_step :
      (s : State) (r : List ℕ) (rule : FrameRule) → Keeps s (exec_expression ins_end rule s r)
  unfolding exec_expression
  expression_step s r rule = Keeps-bind s (decode_read_checked uleb128 r) _ (λ a.
      Keeps-bind s (decode_read_checked uleb128 a.1) _
        (λ b. Keeps-bind s (skip_block b.0 b.1) _ (λ c. refl)))

  Keeps-plain :
      (o : Opcode) (s : State) (r : List ℕ) → IsPlain o → Keeps s (exec cie in_cie ins_end o s r)
  unfolding exec exec_offset advance
  Keeps-plain Opcode.remember_state s r p = absurd p
  Keeps-plain Opcode.restore_state s r p = absurd p
  Keeps-plain Opcode.advance_loc1 s [] p = tt
  Keeps-plain Opcode.advance_loc1 s (b ∷ r) p = refl
  Keeps-plain (Opcode.advance_loc n) s r p = refl
  Keeps-plain Opcode.nop s r p = refl
  Keeps-plain Opcode.unknown s r p = refl
  Keeps-plain (Opcode.restore n) s r p = refl
  Keeps-plain Opcode.def_cfa s r p = two_reads s _ r _ (λ a b t. refl)
  Keeps-plain Opcode.def_cfa_sf s r p = two_reads s _ r _ (λ a b t. refl)
  Keeps-plain Opcode.def_cfa_expression s r p =
      Keeps-bind s (decode_read_checked uleb128 r) _
        (λ a. Keeps-bind s (skip_block a.0 a.1) _ (λ b. refl))
  Keeps-plain Opcode.offset_extended s r p = two_reads s _ r _ (λ a b t. refl)
  Keeps-plain Opcode.offset_extended_sf s r p = two_reads s _ r _ (λ a b t. refl)
  Keeps-plain Opcode.op_val_offset s r p = two_reads s _ r _ (λ a b t. refl)
  Keeps-plain Opcode.val_offset_sf s r p = two_reads s _ r _ (λ a b t. refl)
  Keeps-plain Opcode.op_register s r p = two_reads s _ r _ (λ a b t. refl)
  Keeps-plain Opcode.gnu_negative_offset_extended s r p = two_reads s _ r _ (λ a b t. refl)
  Keeps-plain Opcode.op_expression s r p = expression_step s r _
  Keeps-plain Opcode.op_val_expression s r p = expression_step s r _
  Keeps-plain _ s r p = one_read s _ r _ (λ a t. refl)

  restored :
      (s : State) (q : List ℕ) (row : Row) (prev : List Row) (b : Stepped)
      → s.ctx.prev ≡ row ∷ prev
      → exec cie in_cie ins_end Opcode.restore_state s q ≡ ok b
      → b.state.ctx ≡ record { row = row; prev = prev }
  unfolding exec
  restored s q row prev b e h = ground arith

  remembered :
      (s : State) (r : List ℕ) (a : Stepped)
      → exec cie in_cie ins_end Opcode.remember_state s r ≡ ok a
      → a.state.ctx.prev ≡ s.ctx.row ∷ s.ctx.prev
  unfolding exec
  remembered s r a h = ground arith

  -- A run in which each remembered row is restored leaves the chain as it found it.
  Executes-prev : {s u : State} → Executes s u → u.ctx.prev ≡ s.ctx.prev
  Executes-prev (done s) = refl
  Executes-prev (plain s u o r t p e rest) =
      Executes-prev rest ∙ (subst (λ m. Keeps s m) e (Keeps-plain o s r p))
  Executes-prev (nested s t v r q a b ea inner eb rest) =
      Executes-prev rest
      ∙ ap (λ (c : CalcCtx). c.prev)
          (restored t q s.ctx.row s.ctx.prev b (Executes-prev inner ∙ remembered s r a ea) eb)

  -- If between a remember_state and a restore_state that both succeed only instructions run that
  -- leave the chain of remembered rows alone, or nested pairs of the two, the rules and the chain
  -- after the restore are those before the remember.
  pub restore_state-remember_state :
      (s t : State) (r q : List ℕ) (a b : Stepped)
      → exec cie in_cie ins_end Opcode.remember_state s r ≡ ok a
      → Executes a.state t
      → exec cie in_cie ins_end Opcode.restore_state t q ≡ ok b
      → b.state.ctx ≡ s.ctx
  restore_state-remember_state s t r q a b ea inner eb =
      restored t q s.ctx.row s.ctx.prev b (Executes-prev inner ∙ remembered s r a ea) eb
