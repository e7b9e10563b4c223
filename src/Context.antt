-- ===== src/Context.antt =====
-- The modules that a context of src/gu_stacktrace.c shares between processes: a module whose last
-- user is gone is retired, taken back when it is mapped again, and removed by a sweep after ten
-- seconds. Table is about the table, Count about the counters and the deadline, Release about
-- users that come and go, Load about loading a module, Sweep about a sweep's loop, Expiry about
-- which contexts it removes and when, Reload about when a process's mappings are read again.
pub mod Table
pub mod Count
pub mod Release
pub mod Load
pub mod Sweep
pub mod Expiry
pub mod Reload
pub mod Lifetime
use libgunwinder.Base.{
  ℕ, ◌+◌, ◌*◌, ◌^◌, ◌-◌, Bool, true, false, not, ◌&&◌, ◌||◌, Option, none, some, List, [], ◌∷◌,
  ◌++◌, ltb, leb, ◌==◌, if◌then◌else◌,
}
use libgunwinder.Base.Words.{add64, sub64}
use libgunwinder.Unwind.{same_bytes}
use libgunwinder.Interval.{IntervalArray}
use libgunwinder.Cfi.Parse.{GuCfi}
use libgunwinder.Elf.{ExecRange}

-- GU_ELF_RETIRE_TTL_NS.
abbrev pub elf_retire_ttl_ns : ℕ
elf_retire_ttl_ns = 10 * 1000000000

abbrev pub uint64_max : ℕ
uint64_max = 2 ^ 64 - 1

-- What struct per_elf_ctx keeps after loading: `id` is its address; the sizes are those of its
-- symbols and, with the decoded tables, of its call frame information, if it has any.
pub record ElfCtx : Type 0 where
  pub id : ℕ
  pub build_id : List ℕ
  pub golang : Bool
  pub symbols : Option IntervalArray
  pub symbols_size : Option ℕ
  pub gu_cfi : Option (ℕ × ℕ × GuCfi)
  pub exec_virt_addr : ℕ
  pub exec_ranges : List ExecRange
  pub refcnt : ℕ
  pub retired : Bool
  pub retire_deadline_ns : ℕ

-- The counters of struct gu_statistics that these functions write, each a uint64_t.
pub record Statistics : Type 0 where
  pub elf_ctx_count : ℕ
  pub retired_elf_ctx_count : ℕ
  pub retired_elf_cache_hit : ℕ
  pub retired_elf_expired : ℕ
  pub pid_ctx_count : ℕ
  pub pid_ctx_alloc_count : ℕ
  pub unique_id_caused_reload_count : ℕ
  pub pid_maps_reload_count : ℕ
  pub pid_maps_reload_throttle_count : ℕ
  pub symbols_mem_size : ℕ
  pub cfi_mem_size : ℕ
  pub cfi_data_mem_size : ℕ

-- The part of struct gu_context that keeps modules; the hash table is in its order of insertion.
pub record GuContext : Type 0 where
  pub elf_ctx_list : List ElfCtx
  pub next_retired_elf_deadline_ns : ℕ
  pub retire_timer_started : Bool
  pub retire_sweep_pending : Bool
  pub retire_timer_now_ns : ℕ
  pub statistics : Statistics

-- `monotonic` is what `gu_monotonic_ns` returns.
unfoldable pub cache_now_ns : GuContext → ℕ → ℕ
cache_now_ns ctx monotonic =
    if ctx.retire_timer_started && not (ctx.retire_timer_now_ns == 0)
    then ctx.retire_timer_now_ns
    else monotonic

unfoldable pub find_elf : ℕ → List ElfCtx → Option ElfCtx
find_elf id [] = none
find_elf id (e ∷ r) = if e.id == id then some e else find_elf id r

unfoldable pub update_elf : ℕ → (ElfCtx → ElfCtx) → List ElfCtx → List ElfCtx
update_elf id f [] = []
update_elf id f (e ∷ r) = if e.id == id then f e ∷ r else e ∷ update_elf id f r

-- `HASH_DEL`.
unfoldable pub delete_elf : ℕ → List ElfCtx → List ElfCtx
delete_elf id [] = []
delete_elf id (e ∷ r) = if e.id == id then r else e ∷ delete_elf id r

-- `if (count) count--`.
abbrev pub decrement : ℕ → ℕ
decrement n = n - 1

-- The counters after `gu_unretire_elf_ctx` of a retired context.
unfoldable pub unretired_statistics : Bool → Statistics → Statistics
unretired_statistics activate s = record s {
  retired_elf_ctx_count = decrement s.retired_elf_ctx_count;
  elf_ctx_count = if activate then add64 s.elf_ctx_count 1 else s.elf_ctx_count;
}

abbrev pub unretired : ElfCtx → ElfCtx
unretired e = record e { retired = false; retire_deadline_ns = 0 }

abbrev pub retired_until : ℕ → ElfCtx → ElfCtx
retired_until deadline e = record e { retired = true; retire_deadline_ns = deadline }

-- The counters after `clear_elf_ctx` of a context of the table.
unfoldable pub symbols_statistics : Option ℕ → Statistics → Statistics
symbols_statistics none s = s
symbols_statistics (some n) s = record s { symbols_mem_size = sub64 s.symbols_mem_size n }

unfoldable pub cfi_statistics : Option (ℕ × ℕ × GuCfi) → Statistics → Statistics
cfi_statistics none s = s
cfi_statistics (some (mem, bytes, cfi)) s = record s {
  cfi_mem_size = sub64 s.cfi_mem_size mem;
  cfi_data_mem_size = sub64 s.cfi_data_mem_size bytes;
}

abbrev pub dropped_statistics : Bool → Statistics → Statistics
dropped_statistics was_retired s =
    if was_retired then s else record s { elf_ctx_count = decrement s.elf_ctx_count }

unfoldable pub cleared_statistics : ElfCtx → Statistics → Statistics
cleared_statistics e s =
    let was_retired = e.retired in
    let s₁ = if was_retired then unretired_statistics false s else s in
    dropped_statistics was_retired (cfi_statistics e.gu_cfi (symbols_statistics e.symbols_size s₁))

unfoldable pub clear_elf_ctx : GuContext → ElfCtx → GuContext
clear_elf_ctx ctx e = record ctx {
  elf_ctx_list = delete_elf e.id ctx.elf_ctx_list;
  statistics = cleared_statistics e ctx.statistics;
}

unfoldable pub unretire_elf_ctx : GuContext → ElfCtx → Bool → GuContext
unretire_elf_ctx ctx e activate = if not e.retired then ctx else record ctx {
  elf_ctx_list = update_elf e.id unretired ctx.elf_ctx_list;
  statistics = unretired_statistics activate ctx.statistics;
}

abbrev pub retired_statistics : Statistics → Statistics
retired_statistics s = record s {
  elf_ctx_count = decrement s.elf_ctx_count;
  retired_elf_ctx_count = add64 s.retired_elf_ctx_count 1;
}

unfoldable pub retire_elf_ctx : ℕ → GuContext → ElfCtx → GuContext
retire_elf_ctx monotonic ctx e =
    let deadline = add64 (cache_now_ns ctx monotonic) elf_retire_ttl_ns in
    let next = ctx.next_retired_elf_deadline_ns in
    if e.retired then ctx else record ctx {
      elf_ctx_list = update_elf e.id (retired_until deadline) ctx.elf_ctx_list;
      statistics = retired_statistics ctx.statistics;
      next_retired_elf_deadline_ns = if next == 0 || ltb deadline next then deadline else next;
    }

abbrev pub with_refcnt : ℕ → ElfCtx → ElfCtx
with_refcnt n e = record e { refcnt = n }

-- `gu_put_elf_ctx` of the context at an address; NULL is an address without one.
unfoldable pub put_elf_ctx : ℕ → GuContext → ℕ → GuContext
put_elf_ctx monotonic ctx id = elim (find_elf id ctx.elf_ctx_list) [
  | none ↦ ctx
  | some e ↦
      let refcnt = sub64 e.refcnt 1 in
      let ctx₁ = record ctx {
        elf_ctx_list = update_elf id (with_refcnt refcnt) ctx.elf_ctx_list;
      } in
      if refcnt == 0 then retire_elf_ctx monotonic ctx₁ (with_refcnt refcnt e) else ctx₁
]

abbrev pub cache_hit : GuContext → GuContext
cache_hit ctx = record ctx {
  statistics = record ctx.statistics {
    retired_elf_cache_hit = add64 ctx.statistics.retired_elf_cache_hit 1;
  };
}

-- `load_elf` where the table has a context of the build ID.
unfoldable pub take_elf_ctx : GuContext → ElfCtx → GuContext
take_elf_ctx ctx e =
    let ctx₁ = if e.retired then cache_hit (unretire_elf_ctx ctx e true) else ctx in
    record ctx₁ {
      elf_ctx_list = update_elf e.id (with_refcnt (add64 e.refcnt 1)) ctx₁.elf_ctx_list;
    }

-- `HASH_FIND` by build ID: the address of a context.
unfoldable pub find_build_id : List ℕ → List ElfCtx → Option ℕ
find_build_id build_id [] = none
find_build_id build_id (e ∷ r) =
    if same_bytes e.build_id build_id then some e.id else find_build_id build_id r

-- The counters once a module is loaded.
unfoldable pub loaded_cfi_statistics : Option (ℕ × ℕ × GuCfi) → Statistics → Statistics
loaded_cfi_statistics none s = s
loaded_cfi_statistics (some (mem, bytes, cfi)) s = record s {
  cfi_mem_size = add64 s.cfi_mem_size mem;
  cfi_data_mem_size = add64 s.cfi_data_mem_size bytes;
}

unfoldable pub loaded_symbols_statistics : Option ℕ → Statistics → Statistics
loaded_symbols_statistics none s = s
loaded_symbols_statistics (some n) s = record s { symbols_mem_size = add64 s.symbols_mem_size n }

abbrev pub loaded_statistics : ElfCtx → Statistics → Statistics
loaded_statistics e s = loaded_cfi_statistics e.gu_cfi (loaded_symbols_statistics e.symbols_size s)

abbrev pub counted : Statistics → Statistics
counted s = record s { elf_ctx_count = add64 s.elf_ctx_count 1 }

-- `load_elf` where it has none: the context loaded joins the table with one user.
unfoldable pub add_elf_ctx : GuContext → ElfCtx → GuContext
add_elf_ctx ctx e = record ctx {
  elf_ctx_list = ctx.elf_ctx_list ++ (record e { refcnt = 1; retired = false } ∷ []);
  statistics = counted (loaded_statistics e ctx.statistics);
}

unfoldable pub take_found : GuContext → Option ElfCtx → GuContext
take_found ctx none = ctx
take_found ctx (some e) = take_elf_ctx ctx e

-- `load_elf` of a module that could be opened and has the parts of `loaded`.
unfoldable pub load_elf : GuContext → ElfCtx → GuContext
load_elf ctx loaded = elim (find_build_id loaded.build_id ctx.elf_ctx_list) [
  | none ↦ add_elf_ctx ctx loaded
  | some id ↦ take_found ctx (find_elf id ctx.elf_ctx_list)
]

-- A sweep's loop so far: the contexts that it leaves, the counters, the earliest deadline left.
pub record Swept : Type 0 where
  pub kept : List ElfCtx
  pub statistics : Statistics
  pub next_deadline : ℕ

abbrev pub expired_statistics : ElfCtx → Statistics → Statistics
expired_statistics e s =
    cleared_statistics e (record s { retired_elf_expired = add64 s.retired_elf_expired 1 })

-- Whether a sweep at that time removes a retired context.
abbrev pub is_due : ℕ → ElfCtx → Bool
is_due now e = e.retired && (now == uint64_max || leb e.retire_deadline_ns now)

abbrev pub earlier : ℕ → ℕ → ℕ
earlier deadline next = if next == 0 || ltb deadline next then deadline else next

abbrev pub keep : ElfCtx → Swept → Swept
keep e s = record s { kept = e ∷ s.kept }

-- `HASH_ITER` allows the context that it stands at to be deleted.
unfoldable pub sweep_loop : ℕ → List ElfCtx → Statistics → ℕ → Swept
sweep_loop now [] s next = record { kept = []; statistics = s; next_deadline = next }
sweep_loop now (e ∷ r) s next =
    if not e.retired
    then keep e (sweep_loop now r s next)
    else if is_due now e
    then sweep_loop now r (expired_statistics e s) next
    else keep e (sweep_loop now r s (earlier e.retire_deadline_ns next))

abbrev pub swept : GuContext → Swept → GuContext
swept ctx s = record ctx {
  elf_ctx_list = s.kept;
  statistics = s.statistics;
  next_retired_elf_deadline_ns = s.next_deadline;
}

-- Whether a sweep looks at no context: nothing is retired, or nothing is due yet.
abbrev pub nothing_due : GuContext → ℕ → Bool
nothing_due ctx now =
    not (now == uint64_max)
    && (ctx.statistics.retired_elf_ctx_count == 0
        || (not (ctx.next_retired_elf_deadline_ns == 0)
            && ltb now ctx.next_retired_elf_deadline_ns))

unfoldable pub retired_elf_sweep : GuContext → ℕ → GuContext
retired_elf_sweep ctx now =
    if now == 0
    then ctx
    else if nothing_due ctx now
    then ctx
    else swept ctx (sweep_loop now ctx.elf_ctx_list ctx.statistics 0)

-- One tick of the timer's thread.
unfoldable pub retire_timer_tick : GuContext → ℕ → GuContext
retire_timer_tick ctx monotonic =
    if monotonic == 0
    then ctx
    else record ctx { retire_timer_now_ns = monotonic; retire_sweep_pending = true }

unfoldable pub maybe_sweep_retired_elf : ℕ → GuContext → GuContext
maybe_sweep_retired_elf monotonic ctx =
    let ctx₁ = record ctx { retire_sweep_pending = false } in
    let timer_now = ctx.retire_timer_now_ns in
    if ctx.statistics.retired_elf_ctx_count == 0
    then ctx
    else if not ctx.retire_timer_started
    then retired_elf_sweep ctx monotonic
    else if not ctx.retire_sweep_pending
    then ctx
    else retired_elf_sweep ctx₁ (if timer_now == 0 then monotonic else timer_now)
