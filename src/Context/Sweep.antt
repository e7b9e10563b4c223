-- ===== src/Context/Sweep.antt =====
-- The loop of `gu_retired_elf_sweep` of src/gu_stacktrace.c: counters and deadlines.
use libgunwinder.Base.{
  ℕ, ◌+◌, ◌-◌, ◌≡◌, ◌≢◌, ◌≤◌, refl, sym, ◌∙◌, inl, inr, true, false, Option, none, some, List, [],
  ◌∷◌, arith, Bool-cases,
}
use mathlib.Core.Path.{subst}
use libgunwinder.Base.Words.{add64}
use libgunwinder.Cfi.Parse.{GuCfi}
use libgunwinder.Context.{
  ElfCtx, Statistics, unretired_statistics, symbols_statistics, cfi_statistics, cleared_statistics,
  Swept, expired_statistics, is_due, earlier, keep, sweep_loop,
}
use libgunwinder.Context.Table.{total, active, idle, one, Every}
use libgunwinder.Context.Count.{IsGood, as_retired, as_live}

pub sweep_loop-live :
    (now : ℕ) (e : ElfCtx) (r : List ElfCtx) (s : Statistics) (next : ℕ)
    → e.retired ≡ false
    → sweep_loop now (e ∷ r) s next ≡ keep e (sweep_loop now r s next)
unfolding sweep_loop
sweep_loop-live now e r s next live = rw (sweep_loop, live) refl

pub sweep_loop-due :
    (now : ℕ) (e : ElfCtx) (r : List ElfCtx) (s : Statistics) (next : ℕ)
    → e.retired ≡ true
    → is_due now e ≡ true
    → sweep_loop now (e ∷ r) s next ≡ sweep_loop now r (expired_statistics e s) next
unfolding sweep_loop
sweep_loop-due now e r s next y due = rw (sweep_loop, due) (rw y refl)

pub sweep_loop-waits :
    (now : ℕ) (e : ElfCtx) (r : List ElfCtx) (s : Statistics) (next : ℕ)
    → e.retired ≡ true
    → is_due now e ≡ false
    → sweep_loop now (e ∷ r) s next
      ≡ keep e (sweep_loop now r s (earlier e.retire_deadline_ns next))
unfolding sweep_loop
sweep_loop-waits now e r s next y waits = rw (sweep_loop, waits) (rw y refl)

cfi-counts :
    (o : Option (ℕ × ℕ × GuCfi)) (s : Statistics)
    → ((cfi_statistics o s).elf_ctx_count ≡ s.elf_ctx_count)
      × ((cfi_statistics o s).retired_elf_ctx_count ≡ s.retired_elf_ctx_count)
unfolding cfi_statistics
cfi-counts none s = (refl, refl)
cfi-counts (some (mem, bytes, cfi)) s = (refl, refl)

symbols-counts :
    (o : Option ℕ) (s : Statistics)
    → ((symbols_statistics o s).elf_ctx_count ≡ s.elf_ctx_count)
      × ((symbols_statistics o s).retired_elf_ctx_count ≡ s.retired_elf_ctx_count)
unfolding symbols_statistics
symbols-counts none s = (refl, refl)
symbols-counts (some n) s = (refl, refl)

-- One retired context fewer.
expired-counts :
    (e : ElfCtx) (s : Statistics)
    → e.retired ≡ true
    → ((expired_statistics e s).elf_ctx_count ≡ s.elf_ctx_count)
      × ((expired_statistics e s).retired_elf_ctx_count ≡ s.retired_elf_ctx_count - 1)
unfolding cleared_statistics unretired_statistics
expired-counts e s y =
    let s₁ = record s { retired_elf_expired = add64 s.retired_elf_expired 1 } in
    let s₂ = unretired_statistics false s₁ in
    let (c, t) = cfi-counts e.gu_cfi (symbols_statistics e.symbols_size s₂) in
    let (c₁, t₁) = symbols-counts e.symbols_size s₂ in rw y (c ∙ c₁, t ∙ t₁)

-- What the loop leaves.
abbrev pub IsSwept : List ElfCtx → Statistics → ℕ → Swept → Type 0
IsSwept l s next r =
    (r.statistics.elf_ctx_count ≡ s.elf_ctx_count)
    × (r.statistics.retired_elf_ctx_count + total idle l
        ≡ s.retired_elf_ctx_count + total idle r.kept)
    × (total active r.kept ≡ total active l)
    × (total one r.kept ≤ total one l)
    × Every (IsGood r.next_deadline) r.kept
    × (next ≢ 0 → (r.next_deadline ≢ 0) × (r.next_deadline ≤ next))

earlier-bounds :
    (d n : ℕ) → d ≢ 0 → (earlier d n ≢ 0) × (earlier d n ≤ d) × (n ≢ 0 → earlier d n ≤ n)
earlier-bounds d n h = (ground arith, ground arith, λ nz. ground arith)

keep-IsSwept :
    (e : ElfCtx) (l : List ElfCtx) (s : Statistics) (next next₁ : ℕ) (r : Swept)
    → IsGood r.next_deadline e
    → (next ≢ 0 → (next₁ ≢ 0) × (next₁ ≤ next))
    → IsSwept l s next₁ r
    → IsSwept (e ∷ l) s next (keep e r)
keep-IsSwept e l s next next₁ r good lower h = (
  h.0,
  omega (arith, h.1),
  omega (arith, h.2),
  omega (arith, h.3),
  (good, h.4),
  (λ nz. ((h.5 (lower nz).0).0, omega (arith, (lower nz).1, (h.5 (lower nz).0).1))),
)

drop-IsSwept :
    (e : ElfCtx) (l : List ElfCtx) (s : Statistics) (next : ℕ) (r : Swept)
    → e.retired ≡ true
    → 1 ≤ s.retired_elf_ctx_count
    → IsSwept l (expired_statistics e s) next r
    → IsSwept (e ∷ l) s next r
drop-IsSwept e l s next r y some_left h =
    let (c, t) = expired-counts e s y in
    let a : active e ≡ 0 = rw y refl in
    let i : idle e ≡ 1 = rw y refl in
    (
      h.0 ∙ c,
      omega (arith, h.1, t, i, some_left),
      omega (arith, h.2, a),
      omega (arith, h.3),
      h.4,
      h.5,
    )

pub sweep_loop-IsSwept :
    (now before : ℕ) (l : List ElfCtx) (s : Statistics) (next : ℕ)
    → total idle l ≤ s.retired_elf_ctx_count
    → Every (IsGood before) l
    → IsSwept l s next (sweep_loop now l s next)
unfolding sweep_loop
sweep_loop-IsSwept now before [] s next enough good =
    (refl, omega arith, refl, omega arith, tt, (λ nz. (nz, omega arith)))
sweep_loop-IsSwept now before (e ∷ l) s next enough good = elim (Bool-cases e.retired) [
  | inr live ↦ subst (IsSwept (e ∷ l) s next) (sym (sweep_loop-live now e l s next live)) (
      keep-IsSwept e l s next next (sweep_loop now l s next)
        (inl (live, as_live before e good.0 live)) (λ nz. (nz, omega arith))
        (sweep_loop-IsSwept now before l s next (omega (arith, enough)) good.1))
  | inl y ↦
      (let i : idle e ≡ 1 = rw y refl in
        let (idle_now, later, due_later) = as_retired before e good.0 y in
        elim (Bool-cases (is_due now e)) [
          | inl due ↦ subst (IsSwept (e ∷ l) s next) (sym (sweep_loop-due now e l s next y due)) (
              drop-IsSwept e l s next (sweep_loop now l (expired_statistics e s) next) y
                (omega (arith, enough, i))
                (sweep_loop-IsSwept now before l (expired_statistics e s) next
                  (omega (arith, enough, i, (expired-counts e s y).1)) good.1))
          | inr waits ↦
              (let d = e.retire_deadline_ns in
                let (nz, le, le_next) = earlier-bounds d next (omega (arith, later, due_later)) in
                let rest =
                  sweep_loop-IsSwept now before l s (earlier d next) (omega (arith, enough))
                    good.1 in
                subst (IsSwept (e ∷ l) s next) (sym (sweep_loop-waits now e l s next y waits)) (
                  keep-IsSwept e l s next (earlier d next) (sweep_loop now l s (earlier d next))
                    (inr (y, idle_now, (rest.5 nz).0, omega (arith, le, (rest.5 nz).1)))
                    (λ n. (nz, le_next n)) rest))
        ])
]
