-- ===== src/Cfi/Rows.antt =====
-- The instruction loop stays inside its instructions and ends; remembered rows come back.
use libgunwinder.Base.{
  ℕ, zero, suc, ◌+◌, ◌-◌, ◌^◌, ◌≤◌, ◌<◌, ◌≡◌, refl, ◌⊎◌, Bool, some, List, [], ◌∷◌, arith, length,
  Run, ok, ◌>>=◌, InBounds, InBounds-bind, Bool-cases, inl, inr, ltb, ◌&&◌, ◌≢◌, ap, ◌∙◌,
  Option-cases,
}
use libgunwinder.Decode.{Format, uleb128, decode_read_checked, skip_block}
use libgunwinder.Decode.Bounds.{Consumes, decode_read_checked-InBounds, skip_block-InBounds}
use libgunwinder.Cfi.{
  Reg, rip, rbp, rsp, Row, RegRule, CalcCtx, Cie, FrameRule, make_rule, rule_value, get_rule,
  set_rule, trans_reg_type,
}
use libgunwinder.Cfi.Program.{
  Opcode, State, Stepped, exec, exec_expression, exec_offset, run_loop, init_calc_ctx_by_ins,
  opcode_of, put_rule, advance,
}

-- What a step leaves is no longer than the bytes behind its opcode.
abbrev Shrinks : List ℕ → Stepped → Type 0
Shrinks r t = length t.state.ins ≤ length r

module _ {ℓ} {A : Type ℓ} (Q : A → Type 0) where
  -- Behind a checked read fewer bytes are left.
  after_read :
      (format : Format) (bytes : List ℕ) (f : ℕ × List ℕ → Run A)
      → ((v : ℕ) (rest : List ℕ) → length rest < length bytes → InBounds Q (f (v, rest)))
      → InBounds Q (decode_read_checked format bytes >>= f)
  after_read format bytes f k =
      InBounds-bind (Consumes bytes) Q (decode_read_checked format bytes) f
        (decode_read_checked-InBounds format bytes) (λ q c. k q.0 q.1 c)

  after_block :
      (len : ℕ) (bytes : List ℕ) (f : List ℕ → Run A)
      → ((rest : List ℕ) → length rest ≤ length bytes → InBounds Q (f rest))
      → InBounds Q (skip_block len bytes >>= f)
  after_block len bytes f k =
      InBounds-bind (λ rest. length rest + len ≡ length bytes) Q (skip_block len bytes) f
        (skip_block-InBounds len bytes) (λ rest c. k rest (omega arith))

module _ (cie : Cie) (in_cie : Bool) (ins_end : ℕ) where
  two_reads :
      (format : Format) (r : List ℕ) (f : ℕ → ℕ → List ℕ → Stepped)
      → ((a b : ℕ) (rest : List ℕ) → (f a b rest).state.ins ≡ rest)
      → InBounds (Shrinks r) (
          decode_read_checked uleb128 r >>= λ p.
          decode_read_checked format p.1 >>= λ q. ok (f p.0 q.0 q.1))
  two_reads format r f same =
      after_read (Shrinks r) uleb128 r _
        (λ a r₁ c. after_read (Shrinks r) format r₁ _ (λ b r₂ d. rw (same a b r₂) (omega arith)))

  one_read :
      (format : Format) (r : List ℕ) (f : ℕ → List ℕ → Stepped)
      → ((a : ℕ) (rest : List ℕ) → (f a rest).state.ins ≡ rest)
      → InBounds (Shrinks r) (decode_read_checked format r >>= λ p. ok (f p.0 p.1))
  one_read format r f same =
      after_read (Shrinks r) format r _ (λ a r₁ c. rw (same a r₁) (omega arith))

  expression_step :
      (s : State) (r : List ℕ) (rule : FrameRule)
      → InBounds (Shrinks r) (exec_expression ins_end rule s r)
  unfolding exec_expression
  expression_step s r rule = after_read (Shrinks r) uleb128 r _ (λ regno r₁ c.
      after_read (Shrinks r) uleb128 r₁ _
        (λ len r₂ d. after_block (Shrinks r) len r₂ _ (λ r₃ e. omega arith)))

  exec-InBounds :
      (o : Opcode) (s : State) (r : List ℕ) → InBounds (Shrinks r) (exec cie in_cie ins_end o s r)
  unfolding exec exec_offset advance
  exec-InBounds Opcode.advance_loc1 s [] = tt
  exec-InBounds Opcode.advance_loc1 s (b ∷ r) = omega arith
  exec-InBounds (Opcode.advance_loc n) s r = omega arith
  exec-InBounds Opcode.advance_loc2 s r = one_read _ r _ (λ a t. refl)
  exec-InBounds Opcode.advance_loc4 s r = one_read _ r _ (λ a t. refl)
  exec-InBounds Opcode.mips_advance_loc8 s r = one_read _ r _ (λ a t. refl)
  exec-InBounds Opcode.set_loc s r = one_read _ r _ (λ a t. refl)
  exec-InBounds Opcode.def_cfa s r = two_reads _ r _ (λ a b t. refl)
  exec-InBounds Opcode.def_cfa_sf s r = two_reads _ r _ (λ a b t. refl)
  exec-InBounds Opcode.def_cfa_register s r = one_read _ r _ (λ a t. refl)
  exec-InBounds Opcode.def_cfa_offset s r = one_read _ r _ (λ a t. refl)
  exec-InBounds Opcode.def_cfa_offset_sf s r = one_read _ r _ (λ a t. refl)
  exec-InBounds Opcode.def_cfa_expression s r =
      after_read (Shrinks r) uleb128 r _
        (λ len r₁ c. after_block (Shrinks r) len r₁ _ (λ r₂ d. omega arith))
  exec-InBounds Opcode.op_undefined s r = one_read _ r _ (λ a t. refl)
  exec-InBounds Opcode.op_same_value s r = one_read _ r _ (λ a t. refl)
  exec-InBounds Opcode.remember_state s r = omega arith
  exec-InBounds Opcode.restore_state s r = ground arith
  exec-InBounds (Opcode.offset_primary n) s r = one_read _ r _ (λ a t. refl)
  exec-InBounds Opcode.offset_extended s r = two_reads _ r _ (λ a b t. refl)
  exec-InBounds Opcode.offset_extended_sf s r = two_reads _ r _ (λ a b t. refl)
  exec-InBounds Opcode.op_val_offset s r = two_reads _ r _ (λ a b t. refl)
  exec-InBounds Opcode.val_offset_sf s r = two_reads _ r _ (λ a b t. refl)
  exec-InBounds Opcode.gnu_negative_offset_extended s r = two_reads _ r _ (λ a b t. refl)
  exec-InBounds Opcode.op_register s r = two_reads _ r _ (λ a b t. refl)
  exec-InBounds Opcode.op_expression s r = expression_step s r _
  exec-InBounds Opcode.op_val_expression s r = expression_step s r _
  exec-InBounds Opcode.restore_extended s r = one_read _ r _ (λ a t. refl)
  exec-InBounds (Opcode.restore n) s r = omega arith
  exec-InBounds Opcode.gnu_args_size s r = one_read _ r _ (λ a t. refl)
  exec-InBounds Opcode.nop s r = omega arith
  exec-InBounds Opcode.unknown s r = omega arith

  run_loop-InBounds :
      (fuel find_pc : ℕ) (ctx : CalcCtx) (loc : ℕ) (ins : List ℕ)
      → length ins ≤ fuel
      → InBounds (λ c. Unit) (run_loop cie in_cie ins_end fuel find_pc ctx loc ins)
  unfolding run_loop
  run_loop-InBounds zero find_pc ctx loc [] h = tt
  run_loop-InBounds (suc fuel) find_pc ctx loc [] h = tt
  run_loop-InBounds zero find_pc ctx loc (op ∷ r) h = absurd (omega arith)
  run_loop-InBounds (suc fuel) find_pc ctx loc (op ∷ r) h =
      let s : State = record { ctx = ctx; loc = loc; ins = r } in
      InBounds-bind (Shrinks r) (λ c. Unit) (exec cie in_cie ins_end (opcode_of op) s r) _
        (exec-InBounds (opcode_of op) s r)
        (λ t c. elim (Bool-cases (t.moved && ltb find_pc t.state.loc)) [
          | inl stop ↦ rw stop tt
          | inr go ↦
              rw go
                (run_loop-InBounds fuel find_pc t.state.ctx t.state.loc t.state.ins (omega arith))
        ])

-- Interpreting any bytes as call frame instructions ends within a step for each byte, or earlier
-- at a shift that C leaves undefined or at a pointer that was overwritten; up to there it reads no
-- byte behind them and moves no pointer past their end.
pub init_calc_ctx_by_ins-InBounds :
    (cie : Cie) (in_cie : Bool) (ins_end : ℕ) (ctx : CalcCtx) (ins : List ℕ) (loc find_pc : ℕ)
    → InBounds (λ c. Unit) (init_calc_ctx_by_ins cie in_cie ins_end ctx ins loc find_pc)
unfolding init_calc_ctx_by_ins
init_calc_ctx_by_ins-InBounds cie in_cie ins_end ctx ins loc find_pc =
    run_loop-InBounds cie in_cie ins_end (length ins) find_pc ctx loc ins (omega arith)

-- A 64-bit pattern whose signed value fits 61 bits is read back from the bit field of a register
-- rule.
pub rule_value-make_rule :
    (rule : FrameRule) (v : ℕ)
    → v < 2 ^ 64
    → (v < 2 ^ 60) ⊎ (2 ^ 64 - 2 ^ 60 ≤ v)
    → rule_value (make_rule rule v) ≡ v
unfolding rule_value make_rule
rule_value-make_rule rule v h fits = ground arith

get_rule-set_rule :
    (row : Row) (a : Reg) (r : RegRule)
    → (get_rule (set_rule row a r) a ≡ r)
      × ((b : Reg) → a ≢ b → get_rule (set_rule row a r) b ≡ get_rule row b)
      × ((set_rule row a r).cfa ≡ row.cfa)
unfolding get_rule set_rule
get_rule-set_rule row rip r = (refl, λ b ne. ground arith, refl)
get_rule-set_rule row rbp r = (refl, λ b ne. ground arith, refl)
get_rule-set_rule row rsp r = (refl, λ b ne. ground arith, refl)

-- A rule reaches exactly the register that it is for; one for any other register changes nothing.
pub put_rule-get_rule :
    (row : Row) (regno : ℕ) (r : RegRule) (b : Reg)
    → ((trans_reg_type regno ≡ some b) → get_rule (put_rule row regno r) b ≡ r)
      × ((trans_reg_type regno ≢ some b) → get_rule (put_rule row regno r) b ≡ get_rule row b)
      × ((put_rule row regno r).cfa ≡ row.cfa)
unfolding put_rule
put_rule-get_rule row regno r b = elim (Option-cases (trans_reg_type regno)) [
  | inl e ↦ (λ h. absurd (ground (arith, e)), λ h. rw (e, put_rule), rw (e, put_rule))
  | inr (a, e) ↦
      let g = get_rule-set_rule row a r in
      (
        λ h. let same : a ≡ b = cc in rw (e, put_rule) (rw (← same) g.0),
        λ h. rw (e, put_rule) (g.1 b (λ same. h (e ∙ ap (λ (x : Reg). some x) same))),
        rw (e, put_rule) g.2,
      )
]
