-- ===== src/Unwind/Dwarf/Loop.antt =====
-- The loop of `gu_unwind` of src/gu_stacktrace.c: the frames of its rounds.
use libgunwinder.Base.{
  ℕ, zero, suc, ◌+◌, ◌-◌, ◌≡◌, ◌≢◌, ◌≤◌, ◌<◌, refl, ap, sym, ◌∙◌, ◌⊎◌, inl, inr, Bool, true, false,
  not, ◌&&◌, ◌||◌, Option, none, some, List, [], ◌∷◌, ◌++◌, ◌==◌, leb, if◌then◌else◌, length, arith,
  Run, fail, fault, ◌>>=◌, unset, Returns, Returns-mono, Returns-then, Returns-bind, Bool-cases,
  Option-cases,
}
use mathlib.Core.Path.{subst}
use libgunwinder.Base
use libgunwinder.Snapshot.{UnwindReason}
use libgunwinder.Unwind.{Walk, Modules, Host, FrameRecord}
use libgunwinder.Unwind.Tail.Chain.{pcs}
use libgunwinder.Unwind.Dwarf.{
  Registers, Next, stop, go, Round, Looped, looped, dwarf_round, dwarf_loop,
}
use libgunwinder.Unwind.Dwarf.Progress.{IsDefinite, Advances, IsRound, dwarf_round-IsRound}

abbrev pub StartsAt : ℕ → List ℕ → Type 0
StartsAt pc [] = Unit
StartsAt pc (x ∷ r) = x ≡ pc

-- Return addresses: none is 0, and none is the address before it.
abbrev pub Callers : List ℕ → Type 0
Callers [] = Unit
Callers (x ∷ []) = x ≢ 0
Callers (x ∷ y ∷ r) = (x ≢ 0) × (y ≢ x) × Callers (y ∷ r)

abbrev pub but_first : List ℕ → List ℕ
but_first [] = []
but_first (x ∷ r) = r

Callers-cons :
    (pc pc₁ : ℕ) (ps : List ℕ)
    → pc ≢ 0
    → pc₁ ≢ pc
    → StartsAt pc₁ ps
    → Callers ps
    → Callers (pc ∷ ps)
Callers-cons pc pc₁ [] nz ne at_first h = nz
Callers-cons pc pc₁ (y ∷ r) nz ne at_first h = (nz, subst (λ z. z ≢ pc) (sym at_first) ne, h)

module _ {S : Type 0} (host : Host) (mods : Modules S) (depth raw_sp : ℕ) where
  -- The registers of a round after the first.
  abbrev pub IsLater : Registers → Type 0
  IsLater r = (r.prev_pc ≡ r.pc) × (r.pc ≢ 0)

  abbrev pub IsLoop : Registers → ℕ → Looped S → Type 0
  IsLoop r levels l =
      StartsAt r.pc (pcs l.frames)
      × (IsLater r → Callers (pcs l.frames))
      × Callers (but_first (pcs l.frames))
      × (length l.frames ≤ levels)
      × (length l.frames ≤ l.levels)
      × (l.levels ≤ suc levels)
      × IsDefinite l.reason

  cons-IsLoop :
      (r r₁ : Registers) (w₁ : Walk S) (levels : ℕ) (f : FrameRecord) (l : Looped S)
      → f.abs_pc ≡ r.pc
      → Advances host r (go w₁ r₁)
      → IsLoop r₁ levels l
      → IsLoop r (suc levels) (looped host mods depth raw_sp (f ∷ []) l)
  cons-IsLoop r r₁ w₁ levels f l at_pc adv h =
      let later : IsLater r₁ = (adv.3, adv.2) in
      (
        at_pc,
        (λ known.
            subst (λ x. Callers (x ∷ pcs l.frames)) (sym at_pc)
              (Callers-cons r.pc r₁.pc (pcs l.frames) known.1 (subst (λ x. r₁.pc ≢ x) known.0 adv.1)
                h.0 (h.1 later))),
        h.1 later,
        omega (arith, h.3),
        omega (arith, h.4),
        omega (arith, h.5),
        h.6,
      )

  stop-IsLoop :
      (r : Registers) (levels : ℕ) (round : Round S) (w : Walk S) (pc : ℕ) (reason : UnwindReason)
      (append : Bool)
      → IsDefinite reason
      → IsRound host mods depth raw_sp r round
      → IsLoop r (suc levels) (record {
        walk = w;
        frames = round.frames;
        pc = pc;
        reason = reason;
        append_current_pc = append;
        levels = 1;
      })
  stop-IsLoop r levels round w pc reason append definite (adv, inl (f, e, at_pc)) = rw e (
    at_pc,
    (λ known. subst (λ x. x ≢ 0) (sym at_pc) known.1),
    tt,
    omega arith,
    omega arith,
    omega arith,
    definite,
  )
  stop-IsLoop r levels round w pc reason append definite (adv, inr (e, at_stop)) =
      rw e (tt, (λ known. tt), tt, omega arith, omega arith, omega arith, definite)

  go-IsLoop :
      (r r₁ : Registers) (w₁ : Walk S) (levels : ℕ) (round : Round S) (l : Looped S)
      → round.next ≡ go w₁ r₁
      → IsRound host mods depth raw_sp r round
      → IsLoop r₁ levels l
      → IsLoop r (suc levels) (looped host mods depth raw_sp round.frames l)
  go-IsLoop r r₁ w₁ levels round l e (adv, inl (f, at_f, at_pc)) h =
      rw at_f (cons-IsLoop r r₁ w₁ levels f l at_pc (subst (Advances host r) e adv) h)
  go-IsLoop r r₁ w₁ levels round l e (adv, inr (at_f, at_stop)) h = absurd (cc (e, at_stop.2))

  round-IsLoop :
      (levels : ℕ) (r : Registers) (round : Round S) (next : Next S)
      → round.next ≡ next
      → IsRound host mods depth raw_sp r round
      → ((w₁ : Walk S) (r₁ : Registers)
          → IsDefinite r₁.reason
          → Returns (IsLoop r₁ levels) (dwarf_loop host mods depth raw_sp levels w₁ r₁))
      → Returns (IsLoop r (suc levels)) (elim round.next [
        | stop w₁ pc reason append ↦ Base.ok (record {
          walk = w₁;
          frames = round.frames;
          pc = pc;
          reason = reason;
          append_current_pc = append;
          levels = 1;
        })
        | go w₁ r₁ ↦ dwarf_loop host mods depth raw_sp levels w₁ r₁ >>= λ l.
            Base.ok (looped host mods depth raw_sp round.frames l)
      ])
  round-IsLoop levels r round (stop w pc reason append) e h rest =
      rw e (stop-IsLoop r levels round w pc reason append (subst (Advances host r) e h.0) h)
  round-IsLoop levels r round (go w₁ r₁) e h rest =
      let adv : Advances host r (go w₁ r₁) = subst (Advances host r) e h.0 in
      rw e (
        Returns-then (IsLoop r₁ levels) (IsLoop r (suc levels))
          (dwarf_loop host mods depth raw_sp levels w₁ r₁) _ (rest w₁ r₁ adv.5)
          (λ l from_next. go-IsLoop r r₁ w₁ levels round l e h from_next))

  pub dwarf_loop-IsLoop :
      (levels : ℕ) (w : Walk S) (r : Registers)
      → (levels ≡ 0 → IsDefinite r.reason)
      → Returns (IsLoop r levels) (dwarf_loop host mods depth raw_sp levels w r)
  unfolding dwarf_loop
  dwarf_loop-IsLoop zero w r h =
      (tt, (λ known. tt), tt, omega arith, omega arith, omega arith, h refl)
  dwarf_loop-IsLoop (suc levels) w r h =
      Returns-then (IsRound host mods depth raw_sp r) (IsLoop r (suc levels))
        (dwarf_round host mods depth raw_sp w r) _ (dwarf_round-IsRound host mods depth raw_sp w r)
        (λ round is_round.
          round-IsLoop levels r round round.next refl is_round
            (λ w₁ r₁ definite. dwarf_loop-IsLoop levels w₁ r₁ (λ z. definite)))
