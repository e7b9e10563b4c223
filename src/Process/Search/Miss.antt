-- ===== src/Process/Search/Miss.antt =====
-- A miss of `gu_search_pid_elf_ctx` of src/gu_stacktrace.c: the test of the schedule and the reload
-- keep the store sound.
use libgunwinder.Base.{
  ℕ, ◌≡◌, refl, ap, sym, ◌∙◌, ◌⊎◌, inl, inr, some, ◌==◌, if◌then◌else◌, arith, Bool-cases,
}
use mathlib.Core.Path.{subst}
use libgunwinder.Context.{GuContext}
use libgunwinder.Context.Reload.{PidCtx, schedule_next_maps_reload, maps_reload_allowed}
use libgunwinder.Process.{Process}
use libgunwinder.Process.Users.{IsShared}
use libgunwinder.Process.Pids.{find_pid-update_pid}
use libgunwinder.Process.Life.{total_users, IsSound, KeepsMaps, delete_pid-Taken}
use libgunwinder.Process.Reach.{updated, update_pid-IsSound}
use libgunwinder.Process.Calls.{Store, find_pid, update_pid}
use libgunwinder.Process.Search.{SearchAnswers, with_schedule, test_reload}
use libgunwinder.Base.{leb}
use libgunwinder.Context.{cache_now_ns}
use libgunwinder.Context.Reload.{throttled}

-- A test of the schedule changes at most the counter of the context.
maps_reload_allowed-context :
    (ctx : GuContext) (monotonic seed_time later : ℕ) (q : PidCtx)
    → let c = (maps_reload_allowed ctx monotonic seed_time later q).context in
      (c ≡ ctx) ⊎ (c ≡ throttled ctx)
unfolding maps_reload_allowed
maps_reload_allowed-context ctx monotonic seed_time later q =
    let q₁ =
      if q.next_maps_reload_ns == 0
      then schedule_next_maps_reload ctx monotonic seed_time q
      else q in
    elim (Bool-cases (leb q₁.next_maps_reload_ns (cache_now_ns ctx later))) [
      | inl y ↦ rw y (inl refl)
      | inr n ↦ rw n (inr refl)
    ]

tested_context :
    (ctx c : GuContext) (refs : ℕ → ℕ)
    → (c ≡ ctx) ⊎ (c ≡ throttled ctx)
    → IsShared ctx refs
    → IsShared c refs
tested_context ctx c refs (inl same) shared = subst (λ x. IsShared x refs) (sym same) shared
tested_context ctx c refs (inr same) shared = subst (λ x. IsShared x refs) (sym same) shared

soon_context :
    (ctx c : GuContext)
    → (c ≡ ctx) ⊎ (c ≡ throttled ctx)
    → c.retire_timer_now_ns ≡ ctx.retire_timer_now_ns
soon_context ctx c (inl same) = ap (λ x. x.retire_timer_now_ns) same
soon_context ctx c (inr same) = ap (λ x. x.retire_timer_now_ns) same

-- The store after a test of the schedule.
module _ (env : SearchAnswers) (s : Store) (pid : ℕ) (p : Process) (sound : IsSound s)
    (there : find_pid pid s.pid_ctx_list ≡ some p) where
  abbrev pub s₁ : Store
  s₁ = (test_reload env s p).0

  abbrev pub p₁ : Process
  p₁ = (test_reload env s p).1

  pub test_reload-IsSound :
      IsSound s₁
      × (find_pid pid s₁.pid_ctx_list ≡ some p₁)
      × (p₁.elf_ctx_list ≡ p.elf_ctx_list)
      × (s₁.context.retire_timer_now_ns ≡ s.context.retire_timer_now_ns)
      × ((j : ℕ) → total_users j s₁.pid_ctx_list ≡ total_users j s.pid_ctx_list)
  unfolding test_reload
  test_reload-IsSound =
      let a =
        maps_reload_allowed s.context env.monotonic env.seed_time env.monotonic_later p.schedule in
      let f : Process → Process = with_schedule a.pid_ctx in
      let keeps : KeepsMaps f = (λ q. (refl, refl, refl)) in
      let l = s.pid_ctx_list in
      let refs : ℕ → ℕ = (λ j. total_users j l) in
      let at_pid = (delete_pid-Taken pid l p there sound.1).0 in
      let changed =
        maps_reload_allowed-context s.context env.monotonic env.seed_time env.monotonic_later
          p.schedule in
      let shared₁ = tested_context s.context a.context refs changed sound.0 in
      (
        update_pid-IsSound p.schedule.pid f keeps (record s { context = a.context })
            (shared₁, sound.1, sound.2, sound.3),
        ap (λ n. find_pid n (update_pid p.schedule.pid f l)) (sym at_pid)
            ∙ find_pid-update_pid p.schedule.pid f (λ q. refl) l p
                (subst (λ n. find_pid n l ≡ some p) (sym at_pid) there),
        refl,
        omega (arith, soon_context s.context a.context changed),
        (updated p.schedule.pid f keeps l sound.1).1,
      )
