-- ===== src/Unwind/Dwarf/Finish.antt =====
-- The whole walk of `gu_unwind` of src/gu_stacktrace.c over call frame information: its frames,
-- its bounds and the reason that it leaves in the snapshot.
use libgunwinder.Base.{
  ℕ, suc, ◌≡◌, ◌≢◌, ◌≤◌, refl, ap, sym, inl, inr, Option, none, some, List, [], ◌∷◌, ◌++◌, length,
  arith, fault, ◌>>=◌, unset, Returns, Returns-mono, Returns-then, Returns-from, Run, ok,
  Bool-cases, Option-cases,
}
use mathlib.Core.Path.{subst}
use libgunwinder.Snapshot.{UnwindReason, truncated, unknown, get_regs}
use libgunwinder.Unwind.{Walk, Modules, Host, FrameRecord, max_fp_stack_level}
use libgunwinder.Unwind.Tail.{unwind_tail, tail_reason}
use libgunwinder.Unwind.Tail.Chain.{pcs}
use libgunwinder.Unwind.Dwarf.{
  Looped, dwarf_loop, max_backtrace_level, Unwound, unwound, or_truncated, is_final, finish_tail,
  without_item, finish, first_registers, unwind_by_cfi, reg_rip, reg_rsp,
}
use libgunwinder.Unwind.Recorded.Frames.{EndsWith}
use libgunwinder.Unwind.Dwarf.Progress.{IsDefinite}
use libgunwinder.Unwind.Tail.Length.{AtMost, unwind_tail-AtMost}
use libgunwinder.Unwind.Dwarf.Loop.{StartsAt, Callers, but_first, IsLoop, dwarf_loop-IsLoop}

module _ {S : Type 0} (host : Host) (mods : Modules S) (depth : ℕ) (w : Walk S) (pc : ℕ) where
  -- The frames of the loop, then those of the tail; the number returned is that of the loop.
  abbrev pub IsBacktrace : Unwound S → Type 0
  IsBacktrace u =
      (sp : ℕ) × (get_regs host.system.slots w.info reg_rsp ≡ some sp)
      × (l : Looped S) × (dwarf_loop host mods depth sp max_backtrace_level w
            (first_registers host mods pc sp)
          ≡ ok l)
      × (tail : List FrameRecord) × (u.frames ≡ l.frames ++ tail)
      × (u.result ≡ l.levels)
      × StartsAt pc (pcs l.frames)
      × Callers (but_first (pcs l.frames))
      × (length l.frames ≤ max_backtrace_level)
      × (length tail ≤ suc max_fp_stack_level)
      × (length l.frames ≤ l.levels)
      × (l.levels ≤ suc max_backtrace_level)

module _ {S : Type 0} (host : Host) (mods : Modules S) (pc : ℕ) where
  -- A reason is left that is neither the first one nor a truncation.
  abbrev pub EndsDefinite : Unwound S → Type 0
  EndsDefinite u =
      (reason : UnwindReason) × EndsWith reason u × (reason ≢ truncated) × (reason ≢ unknown)

  Definite-ends :
      (w : Walk S) (frames : List FrameRecord) (reason : UnwindReason) (n : ℕ)
      → IsDefinite reason
      → EndsDefinite (unwound host mods w frames reason n)
  Definite-ends w frames reason n h =
      (reason, (w.info, refl), (λ e. subst IsDefinite e h), λ e. subst IsDefinite e h)

or_truncated-IsDefinite : (r : UnwindReason) → IsDefinite r → or_truncated r ≡ r
unfolding or_truncated
or_truncated-IsDefinite unknown h = absurd h
or_truncated-IsDefinite _ h = refl

tail_reason-IsDefinite :
    (r : UnwindReason) (fs : List FrameRecord) → IsDefinite r → IsDefinite (tail_reason r fs)
unfolding tail_reason
tail_reason-IsDefinite r [] h = h
tail_reason-IsDefinite r (f ∷ fs) h = tt

++-nil : (xs : List FrameRecord) → xs ++ [] ≡ xs
++-nil [] = refl
++-nil (x ∷ r) = ap (λ ys. x ∷ ys) (++-nil r)

module _ {S : Type 0} (host : Host) (mods : Modules S) (depth : ℕ) (w : Walk S) (pc : ℕ)
    (raw_sp : ℕ) (at_sp : get_regs host.system.slots w.info reg_rsp ≡ some raw_sp) where
  abbrev loop : Run (Looped S)
  loop =
      dwarf_loop host mods depth raw_sp max_backtrace_level w (first_registers host mods pc raw_sp)

  abbrev IsWhole : Unwound S → Type 0
  IsWhole u = IsBacktrace host mods depth w pc u × EndsDefinite host mods pc u

  -- The loop of the whole walk.
  abbrev IsWalked : Looped S → Type 0
  IsWalked l =
      StartsAt pc (pcs l.frames)
      × Callers (but_first (pcs l.frames))
      × (length l.frames ≤ max_backtrace_level)
      × (length l.frames ≤ l.levels)
      × (l.levels ≤ suc max_backtrace_level)
      × IsDefinite l.reason

  no_tail :
      (l : Looped S) (reason : UnwindReason)
      → loop ≡ ok l
      → IsWalked l
      → IsDefinite reason
      → IsWhole (unwound host mods l.walk l.frames reason l.levels)
  no_tail l reason ran h definite = (
    (raw_sp, at_sp, l, ran, [], sym (++-nil l.frames), refl, h.0, h.1, h.2, omega arith, h.3, h.4),
    Definite-ends host mods pc l.walk l.frames reason l.levels definite,
  )

  finish_tail-IsWhole :
      (l : Looped S) (reason : UnwindReason) (o : Option ℕ)
      → loop ≡ ok l
      → IsWalked l
      → IsDefinite reason
      → Returns IsWhole (finish_tail host mods raw_sp l reason o)
  unfolding finish_tail
  finish_tail-IsWhole l reason none ran h definite = no_tail l reason ran h definite
  finish_tail-IsWhole l reason (some bp) ran h definite =
      Returns-then (AtMost host mods 128) IsWhole
        (unwind_tail host mods raw_sp (without_item host mods l.walk) bp l.pc l.append_current_pc) _
        (unwind_tail-AtMost host mods raw_sp bp l.pc (without_item host mods l.walk)
          l.append_current_pc)
        (λ t short. (
          (raw_sp, at_sp, l, ran, t.frames, refl, refl, h.0, h.1, h.2, short, h.3, h.4),
          Definite-ends host mods pc t.walk (l.frames ++ t.frames) (tail_reason reason t.frames)
              l.levels (tail_reason-IsDefinite reason t.frames definite),
        ))

  finish-IsWhole :
      (l : Looped S) → loop ≡ ok l → IsWalked l → Returns IsWhole (finish host mods raw_sp l)
  unfolding finish
  finish-IsWhole l ran h =
      rw (or_truncated-IsDefinite l.reason h.5) (elim (Bool-cases (is_final l.reason)) [
        | inl y ↦ rw y (no_tail l l.reason ran h h.5)
        | inr n ↦ rw n (finish_tail-IsWhole l l.reason _ ran h h.5)
      ])

  walked : Returns IsWhole (loop >>= finish host mods raw_sp)
  walked =
      Returns-from
        (IsLoop host mods depth raw_sp (first_registers host mods pc raw_sp) max_backtrace_level)
        IsWhole loop (finish host mods raw_sp)
        (dwarf_loop-IsLoop host mods depth raw_sp max_backtrace_level w
          (first_registers host mods pc raw_sp) (λ z. absurd (omega (arith, z))))
        (λ l ran h. finish-IsWhole l ran (h.0, h.2, h.3, h.4, h.5, h.6))

module _ {S : Type 0} (host : Host) (mods : Modules S) (depth : ℕ) (w : Walk S) (pc : ℕ)
    (at_pc : get_regs host.system.slots w.info reg_rip ≡ some pc) where
  unwind_by_cfi-unset :
      get_regs host.system.slots w.info reg_rsp ≡ none
      → unwind_by_cfi host mods depth w ≡ fault unset
  unfolding unwind_by_cfi
  unwind_by_cfi-unset e = rw (unwind_by_cfi, at_pc, e) refl

  unwind_by_cfi-walk :
      (sp : ℕ)
      → get_regs host.system.slots w.info reg_rsp ≡ some sp
      → unwind_by_cfi host mods depth w ≡ (
          dwarf_loop host mods depth sp max_backtrace_level w (first_registers host mods pc sp)
          >>= finish host mods sp)
  unfolding unwind_by_cfi
  unwind_by_cfi-walk sp e = rw (unwind_by_cfi, at_pc, e) refl

  whole :
      Returns
        (λ u. IsBacktrace host mods depth w pc u × EndsDefinite host mods pc u)
        (unwind_by_cfi host mods depth w)
  whole = elim (Option-cases (get_regs host.system.slots w.info reg_rsp)) [
    | inl e ↦
        subst (Returns (λ u. IsBacktrace host mods depth w pc u × EndsDefinite host mods pc u))
          (sym (unwind_by_cfi-unset e)) tt
    | inr (sp, e) ↦
        subst (Returns (λ u. IsBacktrace host mods depth w pc u × EndsDefinite host mods pc u))
          (sym (unwind_by_cfi-walk sp e)) (walked host mods depth w pc sp e)
  ]

  -- If the sampled program counter is known, then a walk over call frame information that returns
  -- leaves a reason which is neither a truncation nor the unknown reason, also where the loop runs
  -- out of rounds.
  pub unwind_by_cfi-EndsDefinite :
      Returns (EndsDefinite host mods pc) (unwind_by_cfi host mods depth w)
  unwind_by_cfi-EndsDefinite =
      Returns-mono (λ u. IsBacktrace host mods depth w pc u × EndsDefinite host mods pc u)
        (EndsDefinite host mods pc) (unwind_by_cfi host mods depth w) (λ u h. h.1) whole
