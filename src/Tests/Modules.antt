-- ===== src/Tests/Modules.antt =====
-- The life of one module, and the schedule of one process.
use libgunwinder.Base.{◌≡◌, refl, true, false, none, some, [], ◌∷◌, arith, ◌+◌, ◌^◌, ◌≤◌, ◌<◌, ◌⊎◌}
use libgunwinder.Context.{
  ElfCtx, GuContext, cache_now_ns, elf_retire_ttl_ns, find_elf, find_build_id, load_elf,
  add_elf_ctx, put_elf_ctx, retire_elf_ctx, retired_elf_sweep, retire_timer_tick,
  maybe_sweep_retired_elf,
}
use libgunwinder.Context.Table.{Every}
use libgunwinder.Context.Count.{IsWell}
use libgunwinder.Context.Expiry.{
  survivors, Waits, retired_elf_sweep-survivors, maybe_sweep_retired_elf-expires,
}
use libgunwinder.Context.Lifetime.{init, load, put, Reach, here, next, Reach-IsWell}
use libgunwinder.Context.Reload.{
  PidCtx, schedule_next_maps_reload, maps_reload_allowed, IsScheduled,
  schedule_next_maps_reload-IsScheduled, maps_reload_allowed-schedule, throttled, reload_min_ns,
  reload_max_ns,
}

abbrev libc : ElfCtx
libc = record {
  id = 4096;
  build_id = 1 ∷ 2 ∷ [];
  golang = false;
  symbols_size = some 100;
  symbols = none;
  gu_cfi = none;
  exec_virt_addr = 4096;
  exec_ranges = [];
  refcnt = 0;
  retired = false;
  retire_deadline_ns = 0;
}

abbrev loaded : GuContext
loaded = load_elf (init true) libc

loaded_list : loaded.elf_ctx_list ≡ record libc { refcnt = 1 } ∷ []
unfolding load_elf add_elf_ctx find_build_id
loaded_list = refl

found : find_elf 4096 loaded.elf_ctx_list ≡ some (record libc { refcnt = 1 })
unfolding find_elf load_elf add_elf_ctx find_build_id
found = refl

soon : cache_now_ns loaded 5 + elf_retire_ttl_ns < 2 ^ 64
unfolding cache_now_ns load_elf add_elf_ctx find_build_id
soon = omega arith

-- The module's only user is gone five nanoseconds after the start.
abbrev idle_context : GuContext
idle_context = put_elf_ctx 5 loaded 4096

life : Reach (init true) idle_context
life =
    next (next here (load (init true) libc (omega arith) tt))
      (put loaded 5 4096 (record libc { refcnt = 1 }) found (omega arith) (omega arith) soon)

Reach-IsWell_example : IsWell idle_context
Reach-IsWell_example = Reach-IsWell true idle_context life

retired_elf_sweep-survivors_example :
    (retired_elf_sweep idle_context 20000000000).elf_ctx_list
    ≡ survivors 20000000000 idle_context.elf_ctx_list
retired_elf_sweep-survivors_example =
    retired_elf_sweep-survivors idle_context 20000000000 (Reach-IsWell true idle_context life)
      (omega arith)

started : idle_context.retire_timer_started ≡ true
unfolding put_elf_ctx retire_elf_ctx find_elf load_elf add_elf_ctx find_build_id
started = refl

maybe_sweep_retired_elf-expires_example :
    ((maybe_sweep_retired_elf 7 (retire_timer_tick idle_context 20000000000)).elf_ctx_list
      ≡ survivors 20000000000 idle_context.elf_ctx_list)
    × Every
        (Waits 20000000000)
        (maybe_sweep_retired_elf 7 (retire_timer_tick idle_context 20000000000)).elf_ctx_list
maybe_sweep_retired_elf-expires_example =
    maybe_sweep_retired_elf-expires idle_context 20000000000 7 (Reach-IsWell true idle_context life)
      started (omega arith)

abbrev process : PidCtx
process = record {
  address = 8192;
  pid = 7;
  unique_id = 3;
  last_maps_load_ns = 0;
  next_maps_reload_ns = 0;
  maps_reload_rand_state = 0;
}

in_range : cache_now_ns (init false) 5 + reload_max_ns < 2 ^ 64
unfolding cache_now_ns
in_range = omega arith

schedule_next_maps_reload-IsScheduled_example :
    IsScheduled (cache_now_ns (init false) 5) (schedule_next_maps_reload (init false) 5 6 process)
schedule_next_maps_reload-IsScheduled_example =
    schedule_next_maps_reload-IsScheduled (init false) 5 6 process in_range

abbrev scheduled : PidCtx
scheduled = schedule_next_maps_reload (init false) 5 6 process

maps_reload_allowed-schedule_example :
    ((cache_now_ns (init false) 9 < cache_now_ns (init false) 5 + reload_max_ns)
      × (maps_reload_allowed (init false) 7 8 9 scheduled
          ≡ record { context = throttled (init false); pid_ctx = scheduled; answer = false }))
    ⊎ ((cache_now_ns (init false) 5 + reload_min_ns ≤ cache_now_ns (init false) 9)
        × (maps_reload_allowed (init false) 7 8 9 scheduled
            ≡ record { context = init false; pid_ctx = scheduled; answer = true }))
maps_reload_allowed-schedule_example =
    maps_reload_allowed-schedule (init false) 5 6 process in_range (init false) 7 8 9
