-- ===== src/Unwind/Dwarf/Progress.antt =====
-- The rounds of the loop of `gu_unwind` of src/gu_stacktrace.c: how one leads to the next.
use libgunwinder.Base.{
  ℕ, zero, suc, ◌+◌, ◌-◌, ◌≡◌, ◌≢◌, ◌≤◌, ◌<◌, refl, ap, sym, ◌∙◌, ◌⊎◌, inl, inr, Bool, true, false,
  not, ◌&&◌, ◌||◌, Option, none, some, List, [], ◌∷◌, ◌++◌, ◌==◌, leb, if◌then◌else◌, length, arith,
  Run, fail, fault, ◌>>=◌, Returns, Returns-then, Returns-bind, Bool-cases, Option-cases,
}
use mathlib.Core.Path.{subst}
use libgunwinder.Base
use libgunwinder.Snapshot.{StackInfo, UnwindReason, ok, no_exec_pc, truncated, unknown, get_regs}
use libgunwinder.Cfi.{trans_reg_type}
use libgunwinder.Cfi.Parse.{Scratch, get_ops}
use libgunwinder.Expr.{System, Eval, value, failed, broken}
use libgunwinder.Expr.Evaluate.{
  Frame, reason_of, gen_reg, or_eval, fast_dwarf_ops_eval, dwarf_ops_eval,
}
use libgunwinder.Unwind.{
  Walk, Modules, MapView, Host, FrameRecord, in_item, lookup_elf_symbol, is_stack_bottom_symbol,
  search_present,
}
use libgunwinder.Unwind.Dwarf.{
  Registers, Next, stop, go, Round, reg_rip, reg_rsp, reg_rbp, return_address, advance, with_bp,
  with_sp, with_ra, unwind_registers, after_frame, module_round, found_round, dwarf_round,
}
use libgunwinder.Unwind.Recorded.Frames.{dwarf_frame-abs_pc}

-- A reason that a round can set: neither the first one nor a truncation.
abbrev pub IsDefinite : UnwindReason → Type 0
IsDefinite unknown = ⊥
IsDefinite truncated = ⊥
IsDefinite _ = Unit

reason_of-IsDefinite : (e : Eval ℕ) → Returns (λ p. IsDefinite p.0) (reason_of e)
unfolding reason_of
reason_of-IsDefinite (value v) = tt
reason_of-IsDefinite (failed (some o)) = tt
reason_of-IsDefinite (failed none) = tt
reason_of-IsDefinite (broken e) = tt

gen_reg-IsDefinite :
    (depth : ℕ) (sys : System) (f : Frame) (regno : ℕ)
    → Returns (λ p. IsDefinite p.0) (gen_reg depth sys f regno)
unfolding gen_reg
gen_reg-IsDefinite depth sys f regno =
    elim (get_ops f.scratch (trans_reg_type regno) false)
      as (λ o.
        Returns (λ (p : UnwindReason × Option ℕ). IsDefinite p.0)
          (elim o [
            | none ↦ Base.ok (UnwindReason.cfi_frame_cfa_failed, none)
            | some ops ↦ reason_of (
                or_eval (fast_dwarf_ops_eval depth sys f ops)
                  (dwarf_ops_eval (suc depth) sys f ops))
          ])) [ none ↦ tt | some ops ↦ reason_of-IsDefinite _ ]

and_twice : (a b : Bool) → ((a && b) && b) ≡ (a && b)
and_twice true true = refl
and_twice true false = refl
and_twice false b = refl

-- What a round does to the registers, if it leads to another one.
abbrev pub Advances : {S : Type 0} → Host → Registers → Next S → Type 0
Advances host r (stop w pc reason append) = IsDefinite reason
Advances host r (go w r₁) =
    (r.prev_sp < r₁.prev_sp)
    × (r₁.pc ≢ r.prev_pc)
    × (r₁.pc ≢ 0)
    × (r₁.prev_pc ≡ r₁.pc)
    × (r₁.initial_frame ≡ (r.initial_frame && not host.verbose))
    × IsDefinite r₁.reason

module _ {S : Type 0} (host : Host) (mods : Modules S) (depth raw_sp : ℕ) where
  return_address-IsDefinite :
      (r : Registers) (info : StackInfo) (p : UnwindReason × Option ℕ)
      → IsDefinite p.0
      → IsDefinite (return_address host mods depth raw_sp r info p).0
  unfolding return_address
  return_address-IsDefinite r info (ok, v) h = tt
  return_address-IsDefinite r info (reason, v) h = elim (Bool-cases r.initial_frame) [
    | inl y ↦ elim (Option-cases (get_regs host.system.slots info reg_rip)) [
      | inl e ↦ rw (y, e) h
      | inr (x, e) ↦ rw (y, e) tt
    ]
    | inr n ↦ rw n h
  ]

  advance-Advances :
      (w : Walk S) (r : Registers) (signal : Bool) (reason : UnwindReason) (pc sp : ℕ)
      → IsDefinite reason
      → Advances host r (advance host mods depth raw_sp w r signal reason pc sp)
  unfolding advance
  advance-Advances w r signal reason pc sp h = elim (Bool-cases (pc == 0)) [
    | inl y ↦ rw y tt
    | inr n ↦ elim (Bool-cases (leb sp r.prev_sp || pc == r.prev_pc)) [
      | inl y ↦ rw (n, y) tt
      | inr m ↦ rw (n, m) (ground (arith, m), ground (arith, m), ground (arith, n), refl, refl, h)
    ]
  ]

  with_sp-Advances :
      (w : Walk S) (r : Registers) (bias : ℕ) (parsed : Scratch × Bool) (pc : ℕ)
      (p : UnwindReason × Option ℕ)
      → IsDefinite p.0
      → Returns (Advances host r) (with_sp host mods depth raw_sp w r bias parsed pc p)
  unfolding with_sp with_bp
  with_sp-Advances w r bias (scratch, signal) pc (ok, some sp) h =
      Returns-then (λ p. IsDefinite p.0) (Advances host r) (gen_reg depth host.system _ reg_rbp) _
        (gen_reg-IsDefinite depth host.system _ reg_rbp)
        (λ bp definite. advance-Advances _ r signal bp.0 pc sp definite)
  with_sp-Advances w r bias parsed pc (reason, sp) h = h

  with_ra-Advances :
      (w : Walk S) (r : Registers) (bias : ℕ) (parsed : Scratch × Bool)
      (p : UnwindReason × Option ℕ)
      → IsDefinite p.0
      → Returns (Advances host r) (with_ra host mods depth raw_sp w r bias parsed p)
  unfolding with_ra
  with_ra-Advances w r bias (scratch, signal) (ok, some pc) h =
      Returns-then (λ p. IsDefinite p.0) (Advances host r) (gen_reg depth host.system _ reg_rsp) _
        (gen_reg-IsDefinite depth host.system _ reg_rsp)
        (λ sp definite. with_sp-Advances w r bias (scratch, signal) pc sp definite)
  with_ra-Advances w r bias parsed (reason, pc) h = h

  unwind_registers-Advances :
      (w : Walk S) (r : Registers) (bias : ℕ) (parsed : Run (Scratch × Bool))
      → Returns (Advances host r) (unwind_registers host mods depth raw_sp w r bias parsed)
  unfolding unwind_registers
  unwind_registers-Advances w r bias (fault e) = tt
  unwind_registers-Advances w r bias fail = tt
  unwind_registers-Advances w r bias (Base.ok (scratch, signal)) =
      Returns-then (λ p. IsDefinite p.0) (Advances host r) (gen_reg depth host.system _ reg_rip) _
        (gen_reg-IsDefinite depth host.system _ reg_rip)
        (λ ra definite.
          with_ra-Advances w r bias (scratch, signal) _
            (return_address-IsDefinite r w.info ra definite))

  after_frame-Advances :
      (w : Walk S) (r : Registers) (v : MapView) (bias relative_pc : ℕ) (sym : Option ℕ)
      → Returns (Advances host r) (after_frame host mods depth raw_sp w r v bias relative_pc sym)
  unfolding after_frame
  after_frame-Advances w r v bias relative_pc sym =
      elim (Bool-cases (is_stack_bottom_symbol host sym)) [
        | inl y ↦ rw y tt
        | inr n ↦ elim (Bool-cases v.has_cfi) [
          | inl y ↦ rw (n, y) (unwind_registers-Advances _ r bias _)
          | inr m ↦ rw (n, m) tt
        ]
      ]

  -- A round reports the address it stands at, unless it stops without a frame.
  abbrev pub IsRound : Registers → Round S → Type 0
  IsRound r round =
      Advances host r round.next
      × (((f : FrameRecord) × (round.frames ≡ f ∷ []) × (f.abs_pc ≡ r.pc))
          ⊎ ((round.frames ≡ [])
              × ((w : Walk S) × (append : Bool) × (round.next ≡ stop w r.pc no_exec_pc append))))

  module_round-IsRound :
      (w : Walk S) (r : Registers) (o : Option MapView)
      → Returns (IsRound r) (module_round host mods depth raw_sp w r o)
  unfolding module_round
  module_round-IsRound w r none = (tt, inr (refl, (w, true, refl)))
  module_round-IsRound w r (some v) =
      Returns-bind (IsRound r) (lookup_elf_symbol v.symbols _) _ (λ s.
        Returns-then (Advances host r) (IsRound r)
          (after_frame host mods depth raw_sp w r v _ _ s.0) _ (after_frame-Advances w r v _ _ s.0)
          (λ n adv. (adv, inl (_, refl, dwarf_frame-abs_pc host v r.pc _ s))))

  found_round-IsRound :
      (r : Registers) (p : Walk S × Bool)
      → Returns (IsRound r) (found_round host mods depth raw_sp r p)
  unfolding found_round
  found_round-IsRound r (w, false) = (tt, inr (refl, (w, false, refl)))
  found_round-IsRound r (w, true) = module_round-IsRound w r (mods.map_of w.modules w.item)

  pub dwarf_round-IsRound :
      (w : Walk S) (r : Registers) → Returns (IsRound r) (dwarf_round host mods depth raw_sp w r)
  unfolding dwarf_round
  dwarf_round-IsRound w r =
      Returns-bind (IsRound r)
        (if in_item w r.pc then Base.ok (w, true) else search_present mods w r.pc) _
        (found_round-IsRound r)

  -- A walk of that many rounds, each of which leads to the next one.
  pub data Rounds (w : Walk S) (r : Registers) : ℕ → Walk S → Registers → Type 0 where
    none_yet : Rounds w r 0 w r
    another :
        (n : ℕ) (w₁ w₂ : Walk S) (r₁ r₂ : Registers) (frames : List FrameRecord)
        → Rounds w r n w₁ r₁
        → dwarf_round host mods depth raw_sp w₁ r₁
          ≡ Base.ok (record { frames = frames; next = go w₂ r₂ })
        → Rounds w r (suc n) w₂ r₂

  -- After that many rounds from a first one: the stack pointer, and the address stood at.
  abbrev pub HasClimbed : Registers → ℕ → Registers → Type 0
  HasClimbed r n r₁ =
      (r.prev_sp + n ≤ r₁.prev_sp)
      × (((n ≡ 0) × (r₁.initial_frame ≡ r.initial_frame))
          ⊎ ((r₁.prev_pc ≡ r₁.pc)
              × (r₁.pc ≢ 0)
              × (r₁.initial_frame ≡ (r.initial_frame && not host.verbose))))

  climb :
      (w : Walk S) (r r₁ r₂ : Registers) (n : ℕ)
      → HasClimbed r n r₁
      → Advances host r₁ (go w r₂)
      → HasClimbed r (suc n) r₂
  climb w r r₁ r₂ n (low, inl (z, same)) adv =
      (omega (arith, low, adv.0), inr (adv.3, adv.2, adv.4 ∙ ap (λ b. b && not host.verbose) same))
  climb w r r₁ r₂ n (low, inr (at_pc, nz, before)) adv = (
    omega (arith, low, adv.0),
    inr (
      adv.3,
      adv.2,
      adv.4 ∙ ap (λ b. b && not host.verbose) before ∙ and_twice r.initial_frame (not host.verbose),
    ),
  )

  -- After any number of rounds of the loop of gu_unwind the stack pointer is higher by at least
  -- that number; after at least one, the address stood at is not 0 and is the one kept for the
  -- next comparison, and the round counts as the first one still if verbose output is off.
  pub Rounds-HasClimbed :
      {w : Walk S} {r : Registers} {n : ℕ} {w₁ : Walk S} {r₁ : Registers}
      → Rounds w r n w₁ r₁
      → HasClimbed r n r₁
  Rounds-HasClimbed none_yet = (omega arith, inl (refl, refl))
  Rounds-HasClimbed {r = r} (another n w₁ w₂ r₁ r₂ frames before e) =
      climb w₂ r r₁ r₂ n (Rounds-HasClimbed before)
        (subst (Returns (IsRound r₁)) e (dwarf_round-IsRound w₁ r₁)).0
