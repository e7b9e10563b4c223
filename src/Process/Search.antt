-- ===== src/Process/Search.antt =====
-- `gu_search_pid_elf_ctx` of src/gu_stacktrace.c, outside the debug mode: the mapping of an address,
-- with a reload of the process's mappings where none has it.
pub mod Live
pub mod Miss
pub mod Sound
use libgunwinder.Base.{
  ℕ, suc, ◌+◌, Bool, true, false, not, ◌&&◌, ◌||◌, Option, none, some, List, [], ◌∷◌, ◌==◌,
  if◌then◌else◌, Run, ok, fail, fault, ◌>>=◌, wild_pointer,
}
use libgunwinder.Base.Words.{add64}
use libgunwinder.Interval
use libgunwinder.Interval.{Item, IntervalArray, SearchResult, Qsort}
use libgunwinder.Snapshot.{
  StackInfo, UnwindReason, process_exit, hint_set_fp, flags_set, flags_set_reason,
}
use libgunwinder.Context.{ElfCtx, GuContext, find_elf}
use libgunwinder.Context.Reload.{PidCtx, Allowed, maps_reload_allowed}
use libgunwinder.Process.{MapCtx, Process, Loadable, find_map_ctx}
use libgunwinder.Process.Calls.{Store, update_pid, reload_pid_ctx}

-- `gu_get_elf_ctx_from_item`, with what is read through the pointers it returns.
unfoldable pub elf_ctx_from_item :
    List (ℕ × MapCtx) → List ElfCtx → Item → Run (Option (MapCtx × ElfCtx))
elf_ctx_from_item ms table item =
    if item.private == 0 then ok none else elim (find_map_ctx item.private ms) [
      | none ↦ fault wild_pointer
      | some m ↦ elim (find_elf m.elf_ctx table) [
        | none ↦ fault wild_pointer
        | some e ↦ ok (some (m, e))
      ]
    ]

-- The system's answers: three readings of the clock, whether the process is alive, the clock while
-- its context is freed, and the load.
pub record SearchAnswers : Type 0 where
  pub monotonic : ℕ
  pub seed_time : ℕ
  pub monotonic_later : ℕ
  pub alive : Bool
  pub clock : ℕ → ℕ
  pub load : Loadable

-- The states after a search; `pid_ctx` is NULL once a reload has failed.
pub record Searched : Type 0 where
  pub store : Store
  pub pid_ctx : Option Process
  pub info : StackInfo
  pub index : Option ℕ
  pub item : Item
  pub maps_reloaded : Bool

abbrev pub with_schedule : PidCtx → Process → Process
with_schedule q p = record p {
  schedule = record p.schedule {
    last_maps_load_ns = q.last_maps_load_ns;
    next_maps_reload_ns = q.next_maps_reload_ns;
    maps_reload_rand_state = q.maps_reload_rand_state;
  };
}

-- The test of the schedule, which may set it.
unfoldable pub test_reload : SearchAnswers → Store → Process → Store × Process × Bool
test_reload env s p =
    let a =
      maps_reload_allowed s.context env.monotonic env.seed_time env.monotonic_later p.schedule in
    (
      record s {
        context = a.context;
        pid_ctx_list = update_pid p.schedule.pid (with_schedule a.pid_ctx) s.pid_ctx_list;
      },
      with_schedule a.pid_ctx p,
      a.answer,
    )

abbrev pub counted_reload : Store → Store
counted_reload s = record s {
  context = record s.context {
    statistics = record s.context.statistics {
      pid_maps_reload_count = add64 s.context.statistics.pid_maps_reload_count 1;
    };
  };
}

abbrev pub hinted : Process → StackInfo → StackInfo
hinted p info = if p.golang then flags_set info hint_set_fp else info

-- The second search, of the process that a reload leaves.
unfoldable pub search_again : StackInfo → ℕ → Item → Store × Option Process → Run Searched
search_again info pc item (s, none) = ok (record {
  store = s;
  pid_ctx = none;
  info = info;
  index = none;
  item = item;
  maps_reloaded = true;
})
search_again info pc item (s, some p) = do
  r ← Interval.search false p.elf_ctx_list pc
  ok (record {
    store = s;
    pid_ctx = some p;
    info = hinted p info;
    index = r.index;
    item = r.item;
    maps_reloaded = true;
  })

abbrev pub is_found : Option ℕ → Bool
is_found none = false
is_found (some i) = true

unfoldable pub search_reloaded :
    Qsort → SearchAnswers → Store → Process → StackInfo → ℕ → Item → Run Searched
search_reloaded qsort env s p info pc item = do
  t ← reload_pid_ctx qsort env.clock (counted_reload s) p info.unique_id env.load
  search_again info pc item t

abbrev pub unfound : Store → Process → StackInfo → Item → Run Searched
unfound s p info item = ok (record {
  store = s;
  pid_ctx = some p;
  info = info;
  index = none;
  item = item;
  maps_reloaded = false;
})

-- After a miss.
unfoldable pub search_miss :
    Qsort → SearchAnswers → Store → Process → StackInfo → ℕ → Item → Run Searched
search_miss qsort env s p info pc item =
    let (s₁, p₁, allowed) = test_reload env s p in
    if not allowed
    then unfound s₁ p₁ info item
    else if not env.alive
    then unfound s₁ p₁ (flags_set_reason info process_exit) item
    else search_reloaded qsort env s₁ p₁ info pc item

unfoldable pub search_pid_elf_ctx :
    Qsort → SearchAnswers → Store → Process → StackInfo → ℕ → Bool → Run Searched
search_pid_elf_ctx qsort env s p info pc maps_reloaded =
    Interval.search false p.elf_ctx_list pc >>= λ r.
    if is_found r.index || maps_reloaded
    then ok (record {
      store = s;
      pid_ctx = some p;
      info = info;
      index = r.index;
      item = r.item;
      maps_reloaded = maps_reloaded;
    })
    else search_miss qsort env s p info pc r.item
