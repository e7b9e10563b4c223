-- ===== src/Process/Reach.antt =====
-- The calls of src/gu_stacktrace.c on a store of processes, in any order: loads, exits, sweeps of the
-- modules and private data.
use libgunwinder.Base.{
  ℕ, ◌+◌, ◌^◌, ◌≡◌, ◌<◌, refl, ap, sym, ◌∙◌, inl, inr, Bool, Option, none, some, List, [], ◌∷◌,
  ◌==◌, arith, Bool-cases, Option-cases, length, Run, ok,
}
use mathlib.Core.Path.{subst}
use libgunwinder.Interval.{Qsort}
use libgunwinder.Context.Lifetime
use libgunwinder.Process.{Process, Loadable, counted_alloc}
use libgunwinder.Process.Sharing.Sweeping.{maybe_sweep_retired_elf-IsShared}
use libgunwinder.Process.Timer.{maybe_sweep_retired_elf-timer}
use libgunwinder.Process.Clean.{user, IsSoon}
use libgunwinder.Process.Loads.{IsPlaced}
use libgunwinder.Process.Pids.{
  update_pid-here, update_pid-there, update_pid-nil, update_pid-PidsApart, delete_pid-none,
  delete_pid-PidsApart,
}
use libgunwinder.Process.Life.{
  total_users, AllHeld, IsSound, KeepsMaps, kept-weigh, kept-IsHeld, clear_pid_ctx-IsSound,
  load_process-IsSound,
}
use libgunwinder.Process.Calls.{
  Store, find_pid, delete_pid, update_pid, clear_pid_ctx, load_process, set_pid_exit_unique,
  swept_store, event_process_exit, with_private, set_pid_private_info,
}

module _ (pid : ℕ) (f : Process → Process) (keeps : KeepsMaps f) where
  pub updated :
      (l : List Process)
      → AllHeld l
      → AllHeld (update_pid pid f l)
        × ((j : ℕ) → total_users j (update_pid pid f l) ≡ total_users j l)
  updated [] held =
      subst (λ t. AllHeld t × ((j : ℕ) → total_users j t ≡ 0)) (sym (update_pid-nil pid f))
        (tt, (λ j. refl))
  updated (q ∷ r) (here, held) = elim (Bool-cases (q.schedule.pid == pid)) [
    | inl y ↦
        subst (λ t. AllHeld t × ((j : ℕ) → total_users j t ≡ total_users j (q ∷ r)))
          (sym (update_pid-here pid f q r y))
          (
            (kept-IsHeld f keeps q here, held),
            (λ j. ap (λ n. n + total_users j r) (kept-weigh f keeps q (user j))),
          )
    | inr n ↦
        (let (rest, same) = updated r held in
          subst (λ t. AllHeld t × ((j : ℕ) → total_users j t ≡ total_users j (q ∷ r)))
            (sym (update_pid-there pid f q r n)) ((here, rest), (λ j. omega (arith, same j))))
  ]

  -- A change of one process that keeps its array keeps the references.
  pub update_pid-IsSound :
      (s : Store)
      → IsSound s
      → IsSound (record s { pid_ctx_list = update_pid pid f s.pid_ctx_list })
  update_pid-IsSound s ((well, counts, single), held, few, apart) =
      let (all, same) = updated s.pid_ctx_list held in
      (
        (well, (λ j. omega (arith, counts j, same j)), single),
        all,
        (λ j. omega (arith, few j, same j)),
        update_pid-PidsApart pid f (λ p. (keeps p).2) s.pid_ctx_list apart,
      )

pub swept_store-IsSound :
    (monotonic : ℕ) (s : Store) → IsSound s → IsSound (swept_store monotonic s)
swept_store-IsSound monotonic s (shared, held, few, apart) = (
  maybe_sweep_retired_elf-IsShared monotonic s.context (λ j. total_users j s.pid_ctx_list) shared,
  held,
  few,
  apart,
)

set_pid_exit_unique-IsSound :
    (clock : ℕ → ℕ) (s : Store) (pid : ℕ)
    → IsSound s
    → IsSoon clock s.context
    → (t : Store) × (set_pid_exit_unique clock s pid 0 ≡ ok t)
      × IsSound t
      × (t.pid_ctx_list ≡ delete_pid pid s.pid_ctx_list)
unfolding set_pid_exit_unique
set_pid_exit_unique-IsSound clock s pid sound soon =
    elim (Option-cases (find_pid pid s.pid_ctx_list)) [
      | inl n ↦
          (s, rw (set_pid_exit_unique, n) refl, sound, sym (delete_pid-none pid s.pid_ctx_list n))
      | inr (p, h) ↦
          (let (t, run, kept, list, events, timer) =
              clear_pid_ctx-IsSound clock s pid p h sound soon in
            (t, rw (set_pid_exit_unique, h) run, kept, list))
    ]

-- In a store whose modules are counted by the map contexts of its processes, if the clock plus ten
-- seconds stays below 2^64, the event of a process's exit ends without a fault, leaves such a
-- store, and the process is not in it.
pub event_process_exit-IsSound :
    (monotonic : ℕ) (clock : ℕ → ℕ) (s : Store) (pid : ℕ)
    → IsSound s
    → IsSoon clock s.context
    → (t : Store) × (event_process_exit monotonic clock s pid ≡ ok t)
      × IsSound t
      × (find_pid pid t.pid_ctx_list ≡ none)
unfolding event_process_exit
event_process_exit-IsSound monotonic clock s pid sound soon =
    let (t, run, kept, list) =
      set_pid_exit_unique-IsSound clock (swept_store monotonic s) pid
        (swept_store-IsSound monotonic s sound)
        (omega (arith, soon.0, maybe_sweep_retired_elf-timer monotonic s.context), soon.1) in
    (t, run, kept, ap (find_pid pid) list ∙ (delete_pid-PidsApart pid s.pid_ctx_list sound.3).1)

-- No process, before and after the timer's thread starts.
abbrev pub start : Bool → Store
start started = record { context = Lifetime.init started; pid_ctx_list = []; events = [] }

-- A step's bounds: the allocator's promise, fewer than 2^64 mappings, and the clock.
pub data Step (qsort : Qsort) : Store → Store → Type 0 where
  load :
      (s : Store) (f : Process → Process) (pid unique_id : ℕ) (env : Loadable) (t : Store)
      (r : Option Process)
      → KeepsMaps f
      → find_pid pid s.pid_ctx_list ≡ none
      → IsPlaced (counted_alloc s.context) env.openings
      → ((j : ℕ) → total_users j s.pid_ctx_list + length env.openings < 2 ^ 64)
      → IsSoon env.clock s.context
      → load_process qsort s f pid unique_id env ≡ ok (t, r)
      → Step qsort s t
  clear :
      (clock : ℕ → ℕ) (s : Store) (pid : ℕ) (p : Process) (t : Store)
      → find_pid pid s.pid_ctx_list ≡ some p
      → IsSoon clock s.context
      → clear_pid_ctx clock s p ≡ ok t
      → Step qsort s t
  sweep : (monotonic : ℕ) (s : Store) → Step qsort s (swept_store monotonic s)
  keep :
      (alloc : Bool) (s : Store) (pid : ℕ) (private : Option (List ℕ))
      → Step qsort s (set_pid_private_info alloc s pid private)

pub data Reach (qsort : Qsort) (s : Store) : Store → Type 0 where
  here : Reach qsort s s
  next : {t u : Store} → Reach qsort s t → Step qsort t u → Reach qsort s u

same_store : (s t : Store) {m : Run Store} → m ≡ ok s → m ≡ ok t → IsSound s → IsSound t
same_store s t h k sound = let same : s ≡ t = cc (h, k) in subst IsSound same sound

private_IsSound :
    (alloc : Bool) (s : Store) (pid : ℕ) (private : Option (List ℕ))
    → IsSound s
    → IsSound (set_pid_private_info alloc s pid private)
unfolding set_pid_private_info
private_IsSound alloc s pid private sound =
    update_pid-IsSound pid (with_private alloc private) (λ p. (refl, refl, refl)) s sound

step_keeps : {qsort : Qsort} {s t : Store} → Step qsort s t → IsSound s → IsSound t
step_keeps {qsort} (load s f pid unique_id env t r keeps new placed room soon run) sound =
    let (t₁, r₁, run₁, kept, found) =
      load_process-IsSound qsort s f pid unique_id env keeps sound new placed room soon in
    let same : t₁ ≡ t = cc (run₁, run) in subst IsSound same kept
step_keeps (clear clock s pid p t found soon run) sound =
    let (t₁, run₁, kept, list, events, timer) =
      clear_pid_ctx-IsSound clock s pid p found sound soon in
    same_store t₁ t run₁ run kept
step_keeps (sweep monotonic s) sound = swept_store-IsSound monotonic s sound
step_keeps (keep alloc s pid private) sound = private_IsSound alloc s pid private sound

reach_keeps : {qsort : Qsort} {s t : Store} → IsSound s → Reach qsort s t → IsSound t
reach_keeps sound here = sound
reach_keeps sound (next before step) = step_keeps step (reach_keeps sound before)

-- Whatever loads of processes, removals of processes, sweeps and private data follow each other on
-- an empty store, if fresh memory is at free addresses and counts and the clock stay below 2^64:
-- each module has as many users as pointers to map contexts of it stand in the arrays of the
-- processes, each pointer of an array has its map context and stands there once, no process is
-- there twice, and the counters of active and retired modules and the next deadline are right.
pub Reach-IsSound :
    (qsort : Qsort) (started : Bool) (t : Store) → Reach qsort (start started) t → IsSound t
Reach-IsSound qsort started t reached =
    reach_keeps
      (((refl, refl, omega arith, tt), (λ j. refl), (λ j. omega arith)), tt, (λ j. omega arith), tt)
      reached
