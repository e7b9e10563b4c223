-- ===== src/Process/Sharing/Sweeping.antt =====
-- A sweep of src/gu_stacktrace.c removes no module that has a user.
use libgunwinder.Base.{
  ℕ, ◌≡◌, ◌≢◌, ◌≤◌, refl, ap, sym, ◌∙◌, inl, inr, true, false, ◌&&◌, ◌||◌, List, [], ◌∷◌, leb, ◌==◌,
  arith, Bool-cases,
}
use mathlib.Core.Path.{subst}
use libgunwinder.Context.{
  uint64_max, ElfCtx, GuContext, is_due, retired_elf_sweep, maybe_sweep_retired_elf,
}
use libgunwinder.Context.Table.{total, Every}
use libgunwinder.Context.Count.{IsGood}
use libgunwinder.Context.Expiry.{
  survivors, survivors-here, survivors-gone, retired_elf_sweep-survivors, retired_elf_sweep-IsWell,
}
use libgunwinder.Process.Users.{users, named, IsShared}

no_users : (now next j : ℕ) (e : ElfCtx) → IsGood next e → is_due now e ≡ true → users j e ≡ 0
no_users now next j e (inr (y, unused, later, due_later)) due = ground (arith, unused)
no_users now next j e (inl (live, held)) due =
    absurd
      (cc (sym (ap (λ b. b && (now == uint64_max || leb e.retire_deadline_ns now)) live) ∙ due))

sweep-never : (ctx : GuContext) (now : ℕ) → (now == 0) ≡ true → retired_elf_sweep ctx now ≡ ctx
unfolding retired_elf_sweep
sweep-never ctx now z = rw (retired_elf_sweep, z) refl

survivors-users :
    (now next j : ℕ) (l : List ElfCtx)
    → Every (IsGood next) l
    → (total (users j) (survivors now l) ≡ total (users j) l)
      × (total (named j) (survivors now l) ≤ total (named j) l)
survivors-users now next j [] good = (refl, omega arith)
survivors-users now next j (e ∷ r) good =
    let (u, n) = survivors-users now next j r good.1 in
    elim (Bool-cases (is_due now e)) [
      | inr waits ↦ (
        omega (arith, ap (total (users j)) (survivors-here now e r waits), u),
        omega (arith, ap (total (named j)) (survivors-here now e r waits), n),
      )
      | inl due ↦
          (let unused : users j e ≡ 0 = no_users now next j e good.0 due in
            (
              omega (arith, ap (total (users j)) (survivors-gone now e r due), u, unused),
              omega (arith, ap (total (named j)) (survivors-gone now e r due), n),
            ))
    ]

-- A sweep leaves the references as they are.
pub retired_elf_sweep-IsShared :
    (ctx : GuContext) (now : ℕ) (refs : ℕ → ℕ)
    → IsShared ctx refs
    → IsShared (retired_elf_sweep ctx now) refs
retired_elf_sweep-IsShared ctx now refs shared = elim (Bool-cases (now == 0)) [
  | inl z ↦ subst (λ c. IsShared c refs) (sym (sweep-never ctx now z)) shared
  | inr nz ↦
      (let some_time : now ≢ 0 = ground (arith, nz) in
        let list = retired_elf_sweep-survivors ctx now shared.0 some_time in
        let next = ctx.next_retired_elf_deadline_ns in
        (
          retired_elf_sweep-IsWell ctx now shared.0 some_time,
          (λ j.
              ap (total (users j)) list
              ∙ (survivors-users now next j ctx.elf_ctx_list shared.0.3).0
              ∙ shared.1 j),
          (λ j. omega (
            arith,
            ap (total (named j)) list,
            (survivors-users now next j ctx.elf_ctx_list shared.0.3).1,
            shared.2 j,
          )),
        ))
]

pub maybe_sweep_retired_elf-IsShared :
    (monotonic : ℕ) (ctx : GuContext) (refs : ℕ → ℕ)
    → IsShared ctx refs
    → IsShared (maybe_sweep_retired_elf monotonic ctx) refs
unfolding maybe_sweep_retired_elf
maybe_sweep_retired_elf-IsShared monotonic ctx refs shared =
    elim (Bool-cases (ctx.statistics.retired_elf_ctx_count == 0)) [
      | inl z ↦ rw z shared
      | inr nz ↦ elim (Bool-cases ctx.retire_timer_started) [
        | inr off ↦
            rw (nz, off)
              (retired_elf_sweep-IsShared (record ctx { retire_timer_started = false }) monotonic
                refs shared)
        | inl on ↦ elim (Bool-cases ctx.retire_sweep_pending) [
          | inr idle ↦ rw (nz, on, idle) shared
          | inl asked ↦
              rw (nz, on, asked)
                (retired_elf_sweep-IsShared
                  (record ctx { retire_timer_started = true; retire_sweep_pending = false }) _ refs
                  shared)
        ]
      ]
    ]
