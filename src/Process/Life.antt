-- ===== src/Process/Life.antt =====
-- The life of the processes of a context of src/gu_stacktrace.c: loads, exits, sweeps and private
-- data in any order, and the references of their map contexts to the shared modules.
use libgunwinder.Base.{
  ℕ, ◌+◌, ◌^◌, ◌≡◌, ◌<◌, refl, ap, sym, ◌∙◌, inl, inr, Option, none, some, List, [], ◌∷◌, ◌++◌,
  ◌==◌, arith, Bool-cases, ==→eq, length, ok,
}
use mathlib.Core.Path.{subst}
use libgunwinder.Base.Words.{sub64}
use libgunwinder.Interval.{Qsort}
use libgunwinder.Process.{MapCtx, Process, Loadable, pointers, counted_alloc, owned, free_payloads}
use libgunwinder.Process.Users.{IsShared}
use libgunwinder.Process.Clean.{user, missing, weigh_found, IsOnce, IsSoon, clean_all-IsShared}
use libgunwinder.Process.Pointers.{IsBuilt}
use libgunwinder.Process.Loads.{IsPlaced}
use libgunwinder.Process.Load.{process_users, IsHeld, load_pid-IsShared}
use libgunwinder.Process.Pids.{
  PidsApart, find_pid-here, find_pid-there, delete_pid-here, delete_pid-there, find_pid-nil,
  append-PidsApart, find_pid-append, delete_pid-PidsApart,
}
use libgunwinder.Process.Calls.{
  Store, event_destroy, event_of, find_pid, delete_pid, count_pid_ctx, add_process, clear_pid_ctx,
  free_pid_ctx, add_loaded, load_process,
}

-- The references to a module that the processes of a list hold.
abbrev pub total_users : ℕ → List Process → ℕ
total_users j [] = 0
total_users j (p ∷ r) = process_users j p + total_users j r

abbrev pub AllHeld : List Process → Type 0
AllHeld [] = Unit
AllHeld (p ∷ r) = IsHeld p × AllHeld r

-- The modules of the context are counted by the map contexts of its processes.
abbrev pub IsSound : Store → Type 0
IsSound s =
    IsShared s.context (λ j. total_users j s.pid_ctx_list)
    × AllHeld s.pid_ctx_list
    × ((j : ℕ) → total_users j s.pid_ctx_list < 2 ^ 64)
    × PidsApart s.pid_ctx_list

total_users-append :
    (j : ℕ) (l : List Process) (p : Process)
    → total_users j (l ++ p ∷ []) ≡ process_users j p + total_users j l
total_users-append j [] p = omega arith
total_users-append j (q ∷ r) p = omega (arith, total_users-append j r p)

AllHeld-append : (l : List Process) (p : Process) → AllHeld l → IsHeld p → AllHeld (l ++ p ∷ [])
AllHeld-append [] p h held = (held, tt)
AllHeld-append (q ∷ r) p h held = (h.0, AllHeld-append r p h.1 held)

-- What deleting the process that a search finds takes away.
abbrev Taken : ℕ → List Process → Process → List Process → Type 0
Taken pid l p t =
    (p.schedule.pid ≡ pid)
    × IsHeld p
    × AllHeld t
    × ((j : ℕ) → total_users j l ≡ process_users j p + total_users j t)

pub delete_pid-Taken :
    (pid : ℕ) (l : List Process) (p : Process)
    → find_pid pid l ≡ some p
    → AllHeld l
    → Taken pid l p (delete_pid pid l)
delete_pid-Taken pid [] p found held = absurd (cc (find_pid-nil pid, found))
delete_pid-Taken pid (q ∷ r) p found held = elim (Bool-cases (q.schedule.pid == pid)) [
  | inl y ↦
      (let same : q ≡ p = cc (find_pid-here pid q r y, found) in
        subst (λ o. Taken pid (q ∷ r) o (delete_pid pid (q ∷ r))) same
          (subst (Taken pid (q ∷ r) q) (sym (delete_pid-here pid q r y))
            (==→eq q.schedule.pid pid y, held.0, held.1, (λ j. refl))))
  | inr n ↦
      (let (at_pid, here, rest, split) =
          delete_pid-Taken pid r p (sym (find_pid-there pid q r n) ∙ found) held.1 in
        subst (Taken pid (q ∷ r) p) (sym (delete_pid-there pid q r n))
          (at_pid, here, (held.0, rest), (λ j. omega (arith, split j))))
]

free_payloads-nil : (ms : List (ℕ × MapCtx)) (ps : List ℕ) → ps ≡ [] → free_payloads ms ps ≡ ok tt
unfolding free_payloads
free_payloads-nil ms ps h = ap (free_payloads ms) h

pub free_pid_ctx-IsSound :
    (clock : ℕ → ℕ) (s : Store) (pid : ℕ) (p : Process)
    → find_pid pid s.pid_ctx_list ≡ some p
    → IsSound s
    → IsSoon clock s.context
    → (t : Store) × (free_pid_ctx clock s p ≡ ok t)
      × IsSound t
      × (t.pid_ctx_list ≡ delete_pid pid s.pid_ctx_list)
      × (t.events ≡ s.events)
      × (t.context.retire_timer_now_ns ≡ s.context.retire_timer_now_ns)
unfolding free_pid_ctx
free_pid_ctx-IsSound clock s pid p found (shared, held, few, apart) soon =
    let l = s.pid_ctx_list in
    let (at_pid, here, rest, split) = delete_pid-Taken pid l p found held in
    let ctx = count_pid_ctx (sub64 s.context.statistics.pid_ctx_count 1) s.context in
    let (c, ms, run, kept, timer) =
      clean_all-IsShared clock p.map_ctxs (pointers p.elf_ctx_list) ctx (λ j. total_users j l)
        (λ j. total_users j (delete_pid pid l)) shared split here.0 here.2 few soon in
    (
      record { context = c; pid_ctx_list = delete_pid p.schedule.pid l; events = s.events },
      rw (run, free_payloads-nil ms (owned p.elf_ctx_list) here.3) refl,
      subst
          (λ t.
            IsShared c (λ j. total_users j t)
            × AllHeld t
            × ((j : ℕ) → total_users j t < 2 ^ 64)
            × PidsApart t)
          (ap (λ n. delete_pid n l) (sym at_pid))
          (kept, rest, (λ j. omega (arith, few j, split j)), (delete_pid-PidsApart pid l apart).0),
      ap (λ n. delete_pid n l) at_pid,
      refl,
      timer,
    )

-- A process that is in the store is cleared without a fault, and its references with it.
pub clear_pid_ctx-IsSound :
    (clock : ℕ → ℕ) (s : Store) (pid : ℕ) (p : Process)
    → find_pid pid s.pid_ctx_list ≡ some p
    → IsSound s
    → IsSoon clock s.context
    → (t : Store) × (clear_pid_ctx clock s p ≡ ok t)
      × IsSound t
      × (t.pid_ctx_list ≡ delete_pid pid s.pid_ctx_list)
      × (t.events ≡ event_of p event_destroy ∷ s.events)
      × (t.context.retire_timer_now_ns ≡ s.context.retire_timer_now_ns)
unfolding clear_pid_ctx
clear_pid_ctx-IsSound clock s pid p found sound soon =
    free_pid_ctx-IsSound clock (record s { events = event_of p event_destroy ∷ s.events }) pid p
      found sound soon

-- What a change keeps of a process: its identifier, its array and the map contexts behind it.
abbrev pub KeepsMaps : (Process → Process) → Type 0
KeepsMaps f =
    (p : Process)
    → ((f p).map_ctxs ≡ p.map_ctxs)
      × ((f p).elf_ctx_list ≡ p.elf_ctx_list)
      × ((f p).schedule.pid ≡ p.schedule.pid)

module _ (f : Process → Process) (keeps : KeepsMaps f) (p : Process) where
  pub kept-weigh :
      (g : Option MapCtx → ℕ)
      → weigh_found g (f p).map_ctxs (pointers (f p).elf_ctx_list)
        ≡ weigh_found g p.map_ctxs (pointers p.elf_ctx_list)
  kept-weigh g =
      ap (λ ms. weigh_found g ms (pointers (f p).elf_ctx_list)) (keeps p).0
      ∙ ap (λ a. weigh_found g p.map_ctxs (pointers a)) (keeps p).1

  pub kept-IsHeld : IsHeld p → IsHeld (f p)
  kept-IsHeld (all, (x, r, built), once, none_owned) = (
    kept-weigh missing ∙ all,
    (x, r, subst (IsBuilt x r) (sym (keeps p).1) built),
    subst (λ a. IsOnce (pointers a)) (sym (keeps p).1) once,
    ap owned (keeps p).1 ∙ none_owned,
  )

-- Loading a process never faults, whatever the system answers: it joins the list with its
-- references, or leaves none.
pub load_process-IsSound :
    (qsort : Qsort) (s : Store) (f : Process → Process) (pid unique_id : ℕ) (env : Loadable)
    → KeepsMaps f
    → IsSound s
    → find_pid pid s.pid_ctx_list ≡ none
    → IsPlaced (counted_alloc s.context) env.openings
    → ((j : ℕ) → total_users j s.pid_ctx_list + length env.openings < 2 ^ 64)
    → IsSoon env.clock s.context
    → (t : Store) × (r : Option Process) × (load_process qsort s f pid unique_id env ≡ ok (t, r))
      × IsSound t
      × (find_pid pid t.pid_ctx_list ≡ r)
unfolding load_process add_loaded add_process
load_process-IsSound qsort s f pid unique_id env keeps (shared, held, few, apart) new placed room
      soon =
    elim (load_pid-IsShared qsort s.context pid unique_id env (λ j. total_users j s.pid_ctx_list)
      shared placed room soon) [
        | inr (c, run, back) ↦
            (record s { context = c }, none, rw run refl, (back, held, few, apart), new)
        | inl (c, p, run, (at_pid, all, most, kept)) ↦
            (let l = s.pid_ctx_list in
              let at_f : (f p).schedule.pid ≡ pid = (keeps p).2 ∙ at_pid in
              let users_f : (j : ℕ)
                  → total_users j (l ++ f p ∷ []) ≡ process_users j p + total_users j l =
                (λ j.
                  total_users-append j l (f p)
                  ∙ ap (λ n. n + total_users j l) (kept-weigh f keeps p (user j))) in
              (
                add_process s c (f p),
                some (f p),
                rw run refl,
                (
                  (kept.0, (λ j. omega (arith, kept.1 j, users_f j)), kept.2),
                  AllHeld-append l (f p) held (kept-IsHeld f keeps p all),
                  (λ j. omega (arith, users_f j, most j, room j)),
                  append-PidsApart l (f p) (subst (λ n. find_pid n l ≡ none) (sym at_f) new) apart,
                ),
                find_pid-append pid l (f p) new at_f,
              ))
      ]
