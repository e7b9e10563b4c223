-- ===== src/Context/Lifetime.antt =====
-- The life of the modules of a context of src/gu_stacktrace.c: loads, releases and sweeps in any
-- order, from an empty table.
use libgunwinder.Base.{ℕ, ◌+◌, ◌^◌, ◌≡◌, ◌≢◌, ◌<◌, refl, Bool, false, some, [], arith}
use libgunwinder.Context.{
  ElfCtx, Statistics, GuContext, find_elf, cache_now_ns, elf_retire_ttl_ns, put_elf_ctx, load_elf,
  retired_elf_sweep,
}
use libgunwinder.Context.Table.{total, one, Every}
use libgunwinder.Context.Count.{IsWell}
use libgunwinder.Context.Release.{put_elf_ctx-IsWell}
use libgunwinder.Context.Load.{load_elf-IsWell}
use libgunwinder.Context.Expiry.{retired_elf_sweep-IsWell}

-- Zeroed memory.
abbrev pub no_statistics : Statistics
no_statistics = record {
  elf_ctx_count = 0;
  retired_elf_ctx_count = 0;
  retired_elf_cache_hit = 0;
  retired_elf_expired = 0;
  pid_ctx_count = 0;
  pid_ctx_alloc_count = 0;
  unique_id_caused_reload_count = 0;
  pid_maps_reload_count = 0;
  pid_maps_reload_throttle_count = 0;
  symbols_mem_size = 0;
  cfi_mem_size = 0;
  cfi_data_mem_size = 0;
}

-- `gu_init`, before and after the timer's thread starts.
abbrev pub init : Bool → GuContext
init started = record {
  elf_ctx_list = [];
  next_retired_elf_deadline_ns = 0;
  retire_timer_started = started;
  retire_sweep_pending = false;
  retire_timer_now_ns = 0;
  statistics = no_statistics;
}

-- A step's bounds: counters and the clock stay in 64 bits, a user holds the reference it gives up.
pub data Step : GuContext → GuContext → Type 0 where
  load :
      (ctx : GuContext) (loaded : ElfCtx)
      → total one ctx.elf_ctx_list + 1 < 2 ^ 64
      → Every (λ e. e.refcnt + 1 < 2 ^ 64) ctx.elf_ctx_list
      → Step ctx (load_elf ctx loaded)
  put :
      (ctx : GuContext) (monotonic id : ℕ) (e : ElfCtx)
      → find_elf id ctx.elf_ctx_list ≡ some e
      → e.refcnt < 2 ^ 64
      → e.refcnt ≢ 0
      → cache_now_ns ctx monotonic + elf_retire_ttl_ns < 2 ^ 64
      → Step ctx (put_elf_ctx monotonic ctx id)
  sweep : (ctx : GuContext) (now : ℕ) → now ≢ 0 → Step ctx (retired_elf_sweep ctx now)

pub data Reach (s : GuContext) : GuContext → Type 0 where
  here : Reach s s
  next : {t u : GuContext} → Reach s t → Step t u → Reach s u

Step-IsWell : {t u : GuContext} → Step t u → IsWell t → IsWell u
Step-IsWell (load ctx loaded room fits) well = load_elf-IsWell ctx well loaded room fits
Step-IsWell (put ctx monotonic id e found fits held soon) well =
    put_elf_ctx-IsWell monotonic ctx id e found well fits held soon
Step-IsWell (sweep ctx now nz) well = retired_elf_sweep-IsWell ctx now well nz

reach_keeps : {s t : GuContext} → IsWell s → Reach s t → IsWell t
reach_keeps well here = well
reach_keeps well (next before step) = Step-IsWell step (reach_keeps well before)

-- Whatever loads, releases and sweeps follow each other on an empty table, with counters and the
-- clock below 2^64 and releases only of contexts that have a user: the two counters are the
-- numbers of active and of retired contexts; a context is retired just when it has no user; and
-- the next deadline is set and no later than that of any retired context.
pub Reach-IsWell : (started : Bool) (t : GuContext) → Reach (init started) t → IsWell t
Reach-IsWell started t reached = reach_keeps (refl, refl, omega arith, tt) reached
