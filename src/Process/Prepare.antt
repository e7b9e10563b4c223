-- ===== src/Process/Prepare.antt =====
-- The start of `gu_unwind` in src/gu_stacktrace.c, outside the debug mode: the sweep, the context of
-- the process, which is replaced if it belongs to another process of the same identifier, and the
-- reasons for which no stack is walked.
pub mod Ready
use libgunwinder.Base.{
  ℕ, zero, suc, ◌+◌, ◌-◌, ◌^◌, ◌≡◌, ◌≢◌, ◌≤◌, ◌<◌, refl, ap, sym, ◌∙◌, ◌⊎◌, inl, inr, Bool, true,
  false, not, ◌&&◌, ◌||◌, Option, none, some, List, [], ◌∷◌, ◌==◌, if◌then◌else◌, arith, Bool-cases,
  Option-cases, length, Run, ok, fail, fault, ◌>>=◌,
}
use mathlib.Core.Path.{subst}
use libgunwinder.Base.Words.{add64}
use libgunwinder.Interval.{Qsort}
use libgunwinder.Snapshot.{StackInfo, UnwindReason, no_regs, no_elf, process_exit, flags_set_reason}
use libgunwinder.Context.{GuContext}
use libgunwinder.Process.{Process, Loadable, counted_alloc}
use libgunwinder.Process.Clean.{IsSoon}
use libgunwinder.Process.Loads.{IsPlaced}
use libgunwinder.Process.Pids.{delete_pid-PidsApart}
use libgunwinder.Process.Life.{
  total_users, IsSound, KeepsMaps, delete_pid-Taken, clear_pid_ctx-IsSound, load_process-IsSound,
}
use libgunwinder.Process.Calls.{
  Store, find_pid, delete_pid, clear_pid_ctx, load_process, swept_store,
}
use libgunwinder.Process.Search.{hinted}

-- The system's answers: the clock of the sweep, the clock while a context is freed, whether the
-- process is alive, and the load.
pub record Arrival : Type 0 where
  pub monotonic : ℕ
  pub clock : ℕ → ℕ
  pub alive : Bool
  pub load : Loadable

-- The context of the process, none if `gu_unwind` returns -1.
pub record Prepared : Type 0 where
  pub store : Store
  pub info : StackInfo
  pub pid_ctx : Option Process

abbrev pub is_stale : StackInfo → Process → Bool
is_stale info p = not (info.unique_id == 0) && not (p.schedule.unique_id == info.unique_id)

abbrev pub counted_stale : Store → Store
counted_stale s = record s {
  context = record s.context {
    statistics = record s.context.statistics {
      unique_id_caused_reload_count = add64 s.context.statistics.unique_id_caused_reload_count 1;
    };
  };
}

-- A context of an earlier process is removed.
unfoldable pub drop_stale : (ℕ → ℕ) → Store → StackInfo → Run Store
drop_stale clock s info = elim (find_pid info.pid s.pid_ctx_list) [
  | none ↦ ok s
  | some p ↦ if is_stale info p then clear_pid_ctx clock (counted_stale s) p else ok s
]

abbrev pub refused : Store → StackInfo → UnwindReason → Prepared
refused s info reason = record { store = s; info = flags_set_reason info reason; pid_ctx = none }

unfoldable pub arrived : StackInfo → Store × Option Process → Prepared
arrived info (s, none) = refused s info process_exit
arrived info (s, some p) = record { store = s; info = hinted p info; pid_ctx = some p }

abbrev pub as_loaded : Process → Process
as_loaded p = p

unfoldable pub find_or_load : Qsort → Arrival → Store → StackInfo → Run Prepared
find_or_load qsort env s info = elim (find_pid info.pid s.pid_ctx_list) [
  | some p ↦ ok (record { store = s; info = info; pid_ctx = some p })
  | none ↦
      if not env.alive
      then ok (refused s info process_exit)
      else load_process qsort s as_loaded info.pid info.unique_id env.load >>= λ r.
          ok (arrived info r)
]

-- The test for an array.
unfoldable pub with_array : Store → StackInfo → Option Process → Prepared
with_array s info none = record { store = s; info = info; pid_ctx = none }
with_array s info (some p) = elim p.elf_ctx_list [
  | none ↦ refused s info no_elf
  | some a ↦ record { store = s; info = info; pid_ctx = some p }
]

unfoldable pub prepare_with : Qsort → Arrival → Store → StackInfo → Option (List ℕ) → Run Prepared
prepare_with qsort env s info none = ok (refused s info no_regs)
prepare_with qsort env s info (some regs) = do
  t ← drop_stale env.clock (swept_store env.monotonic s) info
  r ← find_or_load qsort env t info
  ok (with_array r.store r.info r.pid_ctx)

unfoldable pub prepare : Qsort → Arrival → Store → StackInfo → Run Prepared
prepare qsort env s info = prepare_with qsort env s info info.regs
