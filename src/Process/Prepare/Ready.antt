-- ===== src/Process/Prepare/Ready.antt =====
-- The start of `gu_unwind` in src/gu_stacktrace.c ends without a fault and leaves a store in which the
-- process to walk stands.
use libgunwinder.Base.{
  ℕ, ◌+◌, ◌^◌, ◌≡◌, ◌≤◌, ◌<◌, refl, ap, sym, ◌∙◌, ◌⊎◌, inl, inr, Option, none, some, List, arith,
  Bool-cases, Option-cases, length, Run, ok,
}
use mathlib.Core.Path.{subst}
use libgunwinder.Interval.{Qsort}
use libgunwinder.Snapshot.{StackInfo, no_regs, no_elf, process_exit}
use libgunwinder.Process.{Process, counted_alloc}
use libgunwinder.Process.Clean.{IsSoon}
use libgunwinder.Process.Loads.{IsPlaced}
use libgunwinder.Process.Life.{
  total_users, IsSound, delete_pid-Taken, clear_pid_ctx-IsSound, load_process-IsSound,
}
use libgunwinder.Process.Reach.{swept_store-IsSound}
use libgunwinder.Process.Timer.{maybe_sweep_retired_elf-timer}
use libgunwinder.Process.Calls.{Store, find_pid, swept_store}
use libgunwinder.Process.Prepare.{
  Arrival, Prepared, is_stale, counted_stale, drop_stale, refused, arrived, as_loaded, find_or_load,
  with_array, prepare_with, prepare,
}

-- The process that is walked is in the store, unless none is.
abbrev pub IsReady : ℕ → Run Prepared → Type 0
IsReady pid run =
    (r : Prepared) × (run ≡ ok r)
    × IsSound r.store
    × ((r.pid_ctx ≡ none) ⊎ (find_pid pid r.store.pid_ctx_list ≡ r.pid_ctx))

drop_stale-IsSound :
    (clock : ℕ → ℕ) (s : Store) (info : StackInfo)
    → IsSound s
    → IsSoon clock s.context
    → (t : Store) × (drop_stale clock s info ≡ ok t)
      × IsSound t
      × ((j : ℕ) → total_users j t.pid_ctx_list ≤ total_users j s.pid_ctx_list)
      × (t.context.retire_timer_now_ns ≡ s.context.retire_timer_now_ns)
unfolding drop_stale
drop_stale-IsSound clock s info sound soon =
    elim (Option-cases (find_pid info.pid s.pid_ctx_list)) [
      | inl n ↦ (s, rw (drop_stale, n) refl, sound, (λ j. omega arith), refl)
      | inr (p, h) ↦ elim (Bool-cases (is_stale info p)) [
        | inr same ↦ (s, rw (drop_stale, h, same) refl, sound, (λ j. omega arith), refl)
        | inl stale ↦
            (let (t, run, kept, list, events, timer) =
                clear_pid_ctx-IsSound clock (counted_stale s) info.pid p h sound soon in
              let split = (delete_pid-Taken info.pid s.pid_ctx_list p h sound.1).3 in
              (
                t,
                rw (drop_stale, h, stale) run,
                kept,
                (λ j. omega (arith, split j, ap (total_users j) list)),
                timer,
              ))
      ]
    ]

arrived-IsReady :
    (info : StackInfo) (s : Store) (p : Option Process)
    → IsSound s
    → find_pid info.pid s.pid_ctx_list ≡ p
    → IsReady info.pid (ok (arrived info (s, p)))
unfolding arrived
arrived-IsReady info s none sound there = (_, refl, sound, inl refl)
arrived-IsReady info s (some p) sound there = (_, refl, sound, inr there)

abbrev Stands : ℕ → Prepared → Type 0
Stands pid r =
    IsSound r.store × ((r.pid_ctx ≡ none) ⊎ (find_pid pid r.store.pid_ctx_list ≡ r.pid_ctx))

with_array-Stands :
    (pid : ℕ) (s : Store) (info : StackInfo) (o : Option Process)
    → IsSound s
    → (o ≡ none) ⊎ (find_pid pid s.pid_ctx_list ≡ o)
    → Stands pid (with_array s info o)
unfolding with_array
with_array-Stands pid s info none sound there = (sound, there)
with_array-Stands pid s info (some p) sound there = elim (Option-cases p.elf_ctx_list) [
  | inl n ↦
      subst (Stands pid)
        (sym (
          ap
            (λ o. elim o [
              | none ↦ refused s info no_elf
              | some a ↦ record { store = s; info = info; pid_ctx = some p }
            ])
            n))
        (sound, inl refl)
  | inr (a, h) ↦
      subst (Stands pid)
        (sym (
          ap
            (λ o. elim o [
              | none ↦ refused s info no_elf
              | some a ↦ record { store = s; info = info; pid_ctx = some p }
            ])
            h))
        (sound, there)
]

module _ (qsort : Qsort) (env : Arrival) (info : StackInfo) where
  find_or_load-IsReady :
      (s : Store)
      → IsSound s
      → IsPlaced (counted_alloc s.context) env.load.openings
      → ((j : ℕ) → total_users j s.pid_ctx_list + length env.load.openings < 2 ^ 64)
      → IsSoon env.load.clock s.context
      → IsReady info.pid (find_or_load qsort env s info)
  unfolding find_or_load
  find_or_load-IsReady s sound placed room soon =
      elim (Option-cases (find_pid info.pid s.pid_ctx_list)) [
        | inr (p, h) ↦ (
          record { store = s; info = info; pid_ctx = some p },
          rw (find_or_load, h) refl,
          sound,
          inr h,
        )
        | inl n ↦ elim (Bool-cases env.alive) [
          | inr dead ↦
              (refused s info process_exit, rw (find_or_load, n, dead) refl, sound, inl refl)
          | inl alive ↦
              (let (t, r, run, kept, found) =
                  load_process-IsSound qsort s as_loaded info.pid info.unique_id env.load
                    (λ p. (refl, refl, refl)) sound n placed room soon in
                let (q, done, sound₁, there) = arrived-IsReady info t r kept found in
                (q, rw (find_or_load, n, alive, run) done, sound₁, there))
        ]
      ]

  module _ (s : Store) where
    prepare-none : info.regs ≡ none → prepare qsort env s info ≡ ok (refused s info no_regs)
    unfolding prepare prepare_with
    prepare-none h = ap (prepare_with qsort env s info) h

    prepare-some :
        (regs : List ℕ) (t : Store) (r : Prepared)
        → info.regs ≡ some regs
        → drop_stale env.clock (swept_store env.monotonic s) info ≡ ok t
        → find_or_load qsort env t info ≡ ok r
        → prepare qsort env s info ≡ ok (with_array r.store r.info r.pid_ctx)
    unfolding prepare prepare_with
    prepare-some regs t r h dropped loaded =
        ap (prepare_with qsort env s info) h ∙ rw (dropped, loaded) refl

    -- In a store whose modules are counted by the map contexts of its processes, the start of
    -- gu_unwind ends without a fault, also where it removes the context of an earlier process of
    -- the same identifier, if fresh memory is at free addresses, counts and the clock stay below
    -- 2^64, and the debug mode is off. The store is such a store again, and the process that is
    -- walked, if any is, stands in it.
    pub prepare-IsReady :
        IsSound s
        → IsSoon env.clock s.context
        → IsSoon env.load.clock s.context
        → ((j : ℕ) → total_users j s.pid_ctx_list + length env.load.openings < 2 ^ 64)
        → ((t : Store)
            → drop_stale env.clock (swept_store env.monotonic s) info ≡ ok t
            → IsPlaced (counted_alloc t.context) env.load.openings)
        → IsReady info.pid (prepare qsort env s info)
    prepare-IsReady sound soon later room placed = elim (Option-cases info.regs) [
      | inl n ↦ (refused s info no_regs, prepare-none n, sound, inl refl)
      | inr (regs, h) ↦
          (let swept_timer = maybe_sweep_retired_elf-timer env.monotonic s.context in
            let (t, dropped, kept, fewer, timer) =
              drop_stale-IsSound env.clock (swept_store env.monotonic s) info
                (swept_store-IsSound env.monotonic s sound)
                (omega (arith, soon.0, swept_timer), soon.1) in
            let (r, loaded, sound₁, there) =
              find_or_load-IsReady t kept (placed t dropped) (λ j. omega (arith, room j, fewer j))
                (omega (arith, later.0, timer, swept_timer), later.1) in
            let (sound₂, stands) =
              with_array-Stands info.pid r.store r.info r.pid_ctx sound₁ there in
            (
              with_array r.store r.info r.pid_ctx,
              prepare-some regs t r h dropped loaded,
              sound₂,
              stands,
            ))
    ]
