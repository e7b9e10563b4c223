-- ===== src/Process/Calls.antt =====
-- The calls of src/gu_stacktrace.c that add, replace and remove process contexts.
use libgunwinder.Base.{
  ℕ, suc, Bool, true, false, not, ◌&&◌, Option, none, some, List, [], ◌∷◌, ◌++◌, ◌==◌,
  if◌then◌else◌, Run, ok, ◌>>=◌,
}
use libgunwinder.Base.Words.{add64, sub64}
use libgunwinder.Interval.{Qsort}
use libgunwinder.Event.{PidCtxEvent, copy_comm}
use libgunwinder.Context.{GuContext, uint64_max, retired_elf_sweep, maybe_sweep_retired_elf}
use libgunwinder.Process.{Process, Loadable, clean_all, pointers, free_payloads, owned, load_pid}

abbrev pub event_create : ℕ
event_create = 1

abbrev pub event_destroy : ℕ
event_destroy = 2

-- The context with its processes, in the order of their insertion, and the events notified so far,
-- the newest first.
pub record Store : Type 0 where
  pub context : GuContext
  pub pid_ctx_list : List Process
  pub events : List PidCtxEvent

-- `HASH_FIND_INT`.
unfoldable pub find_pid : ℕ → List Process → Option Process
find_pid pid [] = none
find_pid pid (p ∷ r) = if p.schedule.pid == pid then some p else find_pid pid r

unfoldable pub delete_pid : ℕ → List Process → List Process
delete_pid pid [] = []
delete_pid pid (p ∷ r) = if p.schedule.pid == pid then r else p ∷ delete_pid pid r

unfoldable pub update_pid : ℕ → (Process → Process) → List Process → List Process
update_pid pid f [] = []
update_pid pid f (p ∷ r) = if p.schedule.pid == pid then f p ∷ r else p ∷ update_pid pid f r

abbrev pub event_of : Process → ℕ → PidCtxEvent
event_of p type = record {
  pid = p.schedule.pid;
  type = type;
  start_time = p.schedule.unique_id;
  comm = copy_comm p.comm;
}

abbrev pub count_pid_ctx : ℕ → GuContext → GuContext
count_pid_ctx n ctx = record ctx { statistics = record ctx.statistics { pid_ctx_count = n } }

-- `HASH_ADD_INT`, the counter and the event.
unfoldable pub add_process : Store → GuContext → Process → Store
add_process s ctx p = record {
  context = count_pid_ctx (add64 ctx.statistics.pid_ctx_count 1) ctx;
  pid_ctx_list = s.pid_ctx_list ++ p ∷ [];
  events = event_of p event_create ∷ s.events;
}

-- `gu_clear_pid_ctx`.
unfoldable pub free_pid_ctx : (ℕ → ℕ) → Store → Process → Run Store
free_pid_ctx clock s p =
    clean_all clock p.map_ctxs (pointers p.elf_ctx_list)
      (count_pid_ctx (sub64 s.context.statistics.pid_ctx_count 1) s.context)
    >>= λ t. free_payloads t.0 (owned p.elf_ctx_list) >>= λ _.
        ok (record s { context = t.1; pid_ctx_list = delete_pid p.schedule.pid s.pid_ctx_list })

-- The event and `gu_clear_pid_ctx`.
unfoldable pub clear_pid_ctx : (ℕ → ℕ) → Store → Process → Run Store
clear_pid_ctx clock s p =
    free_pid_ctx clock (record s { events = event_of p event_destroy ∷ s.events }) p

-- The end of a call that loads a process: the store, and the new context if there is one.
unfoldable pub add_loaded :
    Store → (Process → Process) → GuContext × Option Process → Store × Option Process
add_loaded s f (ctx, none) = (record s { context = ctx }, none)
add_loaded s f (ctx, some p) = (add_process s ctx (f p), some (f p))

unfoldable pub load_process :
    Qsort → Store → (Process → Process) → ℕ → ℕ → Loadable → Run (Store × Option Process)
load_process qsort s f pid unique_id env = do
  r ← load_pid qsort s.context pid unique_id env
  ok (add_loaded s f r)

-- A NULL pointer and an empty block are not copied.
unfoldable pub private_copy : Option (List ℕ) → Option (List ℕ)
private_copy none = none
private_copy (some []) = none
private_copy (some (b ∷ r)) = some (b ∷ r)

abbrev pub kept_by : Process → Process → Process
kept_by old p = record p { preload = old.preload; private = private_copy old.private }

-- `gu_reload_pid_ctx`; the flag for a Go process is left to the caller.
unfoldable pub reload_pid_ctx :
    Qsort → (ℕ → ℕ) → Store → Process → ℕ → Loadable → Run (Store × Option Process)
reload_pid_ctx qsort clock s old unique_id env = do
  s₁ ← clear_pid_ctx clock s old
  load_process qsort s₁ (kept_by old) old.schedule.pid unique_id env

unfoldable pub set_pid_exit_unique : (ℕ → ℕ) → Store → ℕ → ℕ → Run Store
set_pid_exit_unique clock s pid unique_id = elim (find_pid pid s.pid_ctx_list) [
  | none ↦ ok s
  | some p ↦
      if not (unique_id == 0) && not (p.schedule.unique_id == unique_id)
      then ok s
      else clear_pid_ctx clock s p
]

abbrev pub swept_store : ℕ → Store → Store
swept_store monotonic s = record s { context = maybe_sweep_retired_elf monotonic s.context }

-- `gu_event_occur` for the exit of a process.
unfoldable pub event_process_exit : ℕ → (ℕ → ℕ) → Store → ℕ → Run Store
event_process_exit monotonic clock s pid = set_pid_exit_unique clock (swept_store monotonic s) pid 0

abbrev pub preloaded : Process → Process
preloaded p = record p { preload = true }

-- `gu_preload_pid_debug_info`: the store, and the identity of the process or 0.
unfoldable pub preload_pid_debug_info :
    Qsort → ℕ → Bool → Store → ℕ → ℕ → Loadable → Run (Store × ℕ)
preload_pid_debug_info qsort monotonic alive s pid unique_id env =
    let s₁ = swept_store monotonic s in
    elim (find_pid pid s₁.pid_ctx_list) [
      | some p ↦ ok (s₁, p.schedule.unique_id)
      | none ↦
          if not alive
          then ok (s₁, 0)
          else (load_process qsort s₁ preloaded pid unique_id env >>= λ r.
              ok (r.0, (elim r.1 [ none ↦ 0 | some p ↦ p.schedule.unique_id ])))
    ]

-- `gu_set_pid_private_info`; the allocation succeeds or fails.
abbrev pub with_private : Bool → Option (List ℕ) → Process → Process
with_private alloc private p = record p { private = if alloc then private_copy private else none }

unfoldable pub set_pid_private_info : Bool → Store → ℕ → Option (List ℕ) → Store
set_pid_private_info alloc s pid private = record s {
  pid_ctx_list = update_pid pid (with_private alloc private) s.pid_ctx_list;
}

-- A copy of the block; NULL with the size 0 is `none`.
unfoldable pub get_pid_private_info : Store → ℕ → Option (List ℕ)
get_pid_private_info s pid = elim (find_pid pid s.pid_ctx_list) [
  | none ↦ none
  | some p ↦ private_copy p.private
]

-- The loop of `gu_cleanup` over the processes; each has its own readings of the clock.
unfoldable pub cleanup_pids : (ℕ → ℕ → ℕ) → List Process → Store → Run Store
cleanup_pids clocks [] s = ok s
cleanup_pids clocks (p ∷ r) s = do
  t ← free_pid_ctx (clocks 0) s p
  cleanup_pids (λ k. clocks (suc k)) r t

abbrev pub without_timer : Store → Store
without_timer s = record s { context = record s.context { retire_timer_started = false } }

-- `gu_cleanup`: no event is notified.
unfoldable pub cleanup : (ℕ → ℕ → ℕ) → Store → Run Store
cleanup clocks s = do
  t ← cleanup_pids clocks s.pid_ctx_list (without_timer s)
  ok (record t { context = retired_elf_sweep t.context uint64_max })
