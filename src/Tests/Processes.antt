-- ===== src/Tests/Processes.antt =====
-- A process that is loaded, searched and gone, with one module and one mapping without a file.
use libgunwinder.Base.{◌≡◌, refl, true, false, none, some, [], ◌∷◌, arith, ok}
use mathlib.Core.Path.{subst}
use libgunwinder.Interval
use libgunwinder.Interval.{Item, IntervalArray, u32}
use libgunwinder.Elf.{find_by_offset}
use libgunwinder.Context.Reload.{
  schedule_next_maps_reload, maps_reload_random_u64, random_seed, xorshift, shift_steps,
}
use libgunwinder.Maps.{MapsInfo}
use libgunwinder.Snapshot.{StackInfo}
use libgunwinder.Context.{
  ElfCtx, maybe_sweep_retired_elf, GuContext, cache_now_ns, loaded_cfi_statistics,
  loaded_symbols_statistics, find_elf, find_build_id, load_elf, add_elf_ctx,
}
use libgunwinder.Context.Lifetime
use libgunwinder.Process.{
  Process, Loadable, counted_alloc, load_map, load_maps, load_pid, end_load, first_golang,
  loaded_id, alloc_elf_map_ctx, resolve_map_exec_virt_addr, loaded_process,
}
use libgunwinder.Process.Users.{IsShared}
use libgunwinder.Process.Clean.{IsSoon}
use libgunwinder.Process.Loads.{IsPlaced}
use libgunwinder.Process.Load.{Loads, load_pid-IsShared}
use libgunwinder.Process.Life.{IsSound}
use libgunwinder.Process.Reach.{
  start, Reach, load, sweep, keep, here, next, Reach-IsSound, event_process_exit-IsSound,
}
use libgunwinder.Process.Calls.{
  Store, cleanup, swept_store, set_pid_private_info, event_of, event_create, add_loaded,
  add_process, find_pid, load_process, event_process_exit,
}
use libgunwinder.Process.Cleanup.{cleanup-frees}
use libgunwinder.Process.Prepare.{Arrival, as_loaded, drop_stale, prepare}
use libgunwinder.Process.Prepare.Ready.{IsReady, prepare-IsReady}
use libgunwinder.Process.Search.{SearchAnswers, search_pid_elf_ctx}
use libgunwinder.Process.Search.Sound.{IsOutcome, search_pid_elf_ctx-IsOutcome}
use libgunwinder.Tests.Intervals.{insertion_sort, sort, insert}

abbrev runtime : ElfCtx
runtime = record {
  id = 4096;
  build_id = 1 ∷ 2 ∷ [];
  golang = true;
  symbols_size = none;
  symbols = none;
  gu_cfi = none;
  exec_virt_addr = 4096;
  exec_ranges = [];
  refcnt = 0;
  retired = false;
  retire_deadline_ns = 0;
}

abbrev code : MapsInfo
code = record {
  start = 65536;
  end = 69632;
  offset = 4096;
  permission = 5;
  path = 47 ∷ 97 ∷ [];
  deleted = false;
}

abbrev heap : MapsInfo
heap = record {
  start = 131072;
  end = 135168;
  offset = 0;
  permission = 5;
  path = [];
  deleted = false;
}

abbrev arrival : Loadable
arrival = record {
  openings =
      record { info = code; opened = some runtime; address = 8192 }
      ∷ record { info = heap; opened = none; address = 8208 }
      ∷ [];
  comm = 103 ∷ 111 ∷ [];
  address = 12288;
  alloc_array = true;
  alloc_items = true;
  clock = λ k. 5;
}

abbrev empty : GuContext
empty = Lifetime.init true

placed : IsPlaced (counted_alloc empty) arrival.openings
unfolding find_elf load_map load_elf add_elf_ctx find_build_id
placed = (omega arith, (refl, tt), (refl, omega arith), (omega arith, tt, tt, tt))

nothing_shared : IsShared empty (λ j. 0)
nothing_shared = ((refl, refl, omega arith, tt), (λ j. refl), (λ j. omega arith))

soon : IsSoon arrival.clock empty
soon = (omega arith, (λ k. omega arith))

load_pid-IsShared_example : Loads (λ j. 0) 2 7 (load_pid insertion_sort empty 7 1 arrival)
load_pid-IsShared_example =
    load_pid-IsShared insertion_sort empty 7 1 arrival (λ j. 0) nothing_shared placed
      (λ j. omega arith) soon

abbrev nobody : Store
nobody = start true

abbrev mappings : IntervalArray
mappings = record {
  items_u32 = some (
      record { start = 65536; end = 69632; private = 9223372036854784000 }
      ∷ record { start = 131072; end = 135168; private = 0 }
      ∷ []);
  items_u64 = none;
  count = 2;
  type = u32;
  min = 65536;
  max = 135168;
}

abbrev program : Process
program = record {
  schedule = record {
    address = 12288;
    pid = 7;
    unique_id = 1;
    last_maps_load_ns = 5;
    next_maps_reload_ns = 51430311999;
    maps_reload_rand_state = 14091466221665169764;
  };
  comm = 103 ∷ 111 ∷ [];
  golang = true;
  preload = false;
  map_ctxs = (8192, record { elf_ctx = 4096; map_exec_virt_addr = 4096 }) ∷ [];
  elf_ctx_list = some mappings;
  private = none;
}

abbrev counted : GuContext
counted = record (counted_alloc empty) {
  elf_ctx_list = record runtime { refcnt = 1 } ∷ [];
  statistics = record (counted_alloc empty).statistics { elf_ctx_count = 1; pid_ctx_count = 1 };
}

abbrev present : Store
present = record {
  context = counted;
  pid_ctx_list = program ∷ [];
  events = event_of program event_create ∷ [];
}

mapped :
    load_pid insertion_sort empty 7 1 arrival
    ≡ ok (
      record counted { statistics = record counted.statistics { pid_ctx_count = 0 } },
      some program,
    )
unfolding load_pid end_load first_golang load_maps load_map loaded_id alloc_elf_map_ctx
    resolve_map_exec_virt_addr loaded_process Interval.init sort insert Interval.build
    Interval.fill_ends Interval.last_end Interval.mark_no_free Interval.narrow Interval.final_end
    find_elf load_elf add_elf_ctx find_build_id find_by_offset schedule_next_maps_reload
    maps_reload_random_u64 random_seed xorshift shift_steps cache_now_ns loaded_cfi_statistics
    loaded_symbols_statistics
mapped = refl

joined : load_process insertion_sort nobody as_loaded 7 1 arrival ≡ ok (present, some program)
unfolding load_process add_loaded add_process
joined = rw mapped refl

nobody_found : find_pid 7 nobody.pid_ctx_list ≡ none
unfolding find_pid
nobody_found = refl

-- The process is loaded and told a private byte, and the modules are swept.
told : Store
told = swept_store 9 (set_pid_private_info true present 7 (some (1 ∷ [])))

life : Reach insertion_sort nobody told
unfolding told
life =
    next
      (next
        (next here (
          load nobody as_loaded 7 1 arrival present (some program) (λ p. (refl, refl, refl))
            nobody_found placed (λ j. omega arith) soon joined))
        (keep true present 7 (some (1 ∷ []))))
      (sweep 9 (set_pid_private_info true present 7 (some (1 ∷ []))))

Reach-IsSound_example : IsSound told
Reach-IsSound_example = Reach-IsSound insertion_sort true told life

present-IsSound : IsSound present
present-IsSound = Reach-IsSound insertion_sort true present (
    next here (
      load nobody as_loaded 7 1 arrival present (some program) (λ p. (refl, refl, refl))
        nobody_found placed (λ j. omega arith) soon joined))

later : IsSoon (λ k. 20) present.context
later = (omega arith, (λ k. omega arith))

event_process_exit-IsSound_example :
    (t : Store) × (event_process_exit 20 (λ k. 20) present 7 ≡ ok t)
    × IsSound t
    × (find_pid 7 t.pid_ctx_list ≡ none)
event_process_exit-IsSound_example =
    event_process_exit-IsSound 20 (λ k. 20) present 7 present-IsSound later

abbrev sample : StackInfo
sample = record {
  pid = 7;
  unique_id = 1;
  regs = some (1 ∷ 2 ∷ []);
  flags = 0;
  ustack_fp = [];
  ustack_fp_level = 0;
  stack_size = 0;
  stack_data = none;
}

-- The process has no mapping any more when it is read again, 60 seconds later.
abbrev vanished : SearchAnswers
vanished = record {
  monotonic = 60000000000;
  seed_time = 1;
  monotonic_later = 60000000000;
  alive = true;
  clock = λ k. 60000000000;
  load = record arrival { openings = []; clock = λ k. 60000000000 };
}

much_later : IsSoon (λ k. 60000000000) present.context
much_later = (omega arith, (λ k. omega arith))

there : find_pid 7 present.pid_ctx_list ≡ some program
unfolding find_pid
there = refl

search_pid_elf_ctx-IsOutcome_example :
    IsOutcome 7 (search_pid_elf_ctx insertion_sort vanished present program sample 200000 false)
search_pid_elf_ctx-IsOutcome_example =
    search_pid_elf_ctx-IsOutcome insertion_sort vanished present 7 program sample 200000
      present-IsSound there much_later much_later (λ t h. tt)
      (λ j. omega (arith, present-IsSound.2 j)) false

abbrev sampled : Arrival
sampled = record { monotonic = 5; clock = λ k. 5; alive = true; load = arrival }

kept_empty :
    (t : Store)
    → drop_stale sampled.clock (swept_store sampled.monotonic nobody) sample ≡ ok t
    → IsPlaced (counted_alloc t.context) arrival.openings
unfolding drop_stale find_pid maybe_sweep_retired_elf
kept_empty t h =
    let same : nobody ≡ t = cc h in
    subst (λ u. IsPlaced (counted_alloc u.context) arrival.openings) same placed

nobody-IsSound : IsSound nobody
nobody-IsSound = (nothing_shared, tt, (λ j. omega arith), tt)

prepare-IsReady_example : IsReady 7 (prepare insertion_sort sampled nobody sample)
prepare-IsReady_example =
    prepare-IsReady insertion_sort sampled sample nobody nobody-IsSound soon soon (λ j. omega arith)
      kept_empty

cleanup-frees_example :
    (t : Store) × (cleanup (λ i k. 20) present ≡ ok t)
    × (t.pid_ctx_list ≡ [])
    × (t.context.elf_ctx_list ≡ [])
cleanup-frees_example =
    cleanup-frees (λ i k. 20) present present-IsSound (omega arith, (λ i k. omega arith))
