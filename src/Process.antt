-- ===== src/Process.antt =====
-- The process contexts of src/gu_stacktrace.c: a process's mappings in an interval array, with a
-- map context behind each mapping that counts as a user of its module. Calls are the functions
-- that add, replace and remove processes, Search finds the mapping of an address.
pub mod Users
pub mod Sharing
pub mod Pointers
pub mod Timer
pub mod Clean
pub mod Loads
pub mod Items
pub mod Load
pub mod Pids
pub mod Life
pub mod Reach
pub mod Calls
pub mod Search
pub mod Prepare
pub mod Cleanup
pub mod Hits
use libgunwinder.Base.{
  ℕ, suc, ◌+◌, Bool, true, false, not, ◌&&◌, ◌||◌, Option, none, some, List, [], ◌∷◌, ◌++◌, leb,
  ◌==◌, if◌then◌else◌, Run, ok, fail, fault, ◌>>=◌, wild_pointer,
}
use libgunwinder.Base.Words.{add64, sub64}
use libgunwinder.Interval
use libgunwinder.Interval.{Item, IntervalArray, Qsort, mark_no_free, visited, freed, store_or_nil}
use libgunwinder.Elf.{find_by_offset}
use libgunwinder.Event.{PidCtxEvent}
use libgunwinder.Context
use libgunwinder.Context.{ElfCtx, GuContext, Statistics, find_elf, find_build_id, put_elf_ctx}
use libgunwinder.Context.Reload.{PidCtx, schedule_next_maps_reload}
use libgunwinder.Maps.{MapsInfo}

-- struct per_elf_map_ctx.
pub record MapCtx : Type 0 where
  pub elf_ctx : ℕ
  pub map_exec_virt_addr : ℕ

-- struct per_pid_ctx; `map_ctxs` are the map contexts that its array points to, by their address.
pub record Process : Type 0 where
  pub schedule : PidCtx
  pub comm : List ℕ
  pub golang : Bool
  pub preload : Bool
  pub map_ctxs : List (ℕ × MapCtx)
  pub elf_ctx_list : Option IntervalArray
  pub private : Option (List ℕ)

-- A mapping as a load meets it: the module that libelf reads there, NULL if it cannot be loaded,
-- and the address that calloc has for its map context.
pub record Opening : Type 0 where
  pub info : MapsInfo
  pub opened : Option ElfCtx
  pub address : ℕ

-- What the system answers in one load: the mappings, the name, the address of the process context,
-- whether the two allocations of the array succeed, and the clock, reading by reading.
pub record Loadable : Type 0 where
  pub openings : List Opening
  pub comm : List ℕ
  pub address : ℕ
  pub alloc_array : Bool
  pub alloc_items : Bool
  pub clock : ℕ → ℕ

-- The context and the items of a load so far.
pub record Loading : Type 0 where
  pub context : GuContext
  pub items : List Item
  pub map_ctxs : List (ℕ × MapCtx)

unfoldable pub resolve_map_exec_virt_addr : ElfCtx → MapsInfo → ℕ
resolve_map_exec_virt_addr e map =
    if leb map.end map.start
    then 0
    else elim (find_by_offset e.exec_ranges map.offset (sub64 map.end map.start)) [
      | none ↦ 0
      | some addr ↦ addr
    ]

unfoldable pub alloc_elf_map_ctx : ElfCtx → ℕ → MapCtx
alloc_elf_map_ctx e map_exec_virt_addr = record {
  elf_ctx = e.id;
  map_exec_virt_addr = if map_exec_virt_addr == 0 then e.exec_virt_addr else map_exec_virt_addr;
}

-- The address of the context that `load_elf` returns.
unfoldable pub loaded_id : GuContext → ElfCtx → ℕ
loaded_id ctx loaded = elim (find_build_id loaded.build_id ctx.elf_ctx_list) [
  | none ↦ loaded.id
  | some id ↦ id
]

abbrev pub map_ctx_of : MapsInfo → Option ElfCtx → Option MapCtx
map_ctx_of map none = none
map_ctx_of map (some e) = some (alloc_elf_map_ctx e (resolve_map_exec_virt_addr e map))

-- The module of one mapping, and its map context.
unfoldable pub load_map : GuContext → Opening → GuContext × Option MapCtx
load_map ctx o = elim o.opened [
  | none ↦ (ctx, none)
  | some loaded ↦
      let ctx₁ = Context.load_elf ctx loaded in
      (ctx₁, map_ctx_of o.info (find_elf (loaded_id ctx loaded) ctx₁.elf_ctx_list))
]

abbrev pub add_map : Opening → Option MapCtx → Loading → Loading
add_map o none l = record l {
  items = record { start = o.info.start; end = o.info.end; private = 0 } ∷ l.items;
}
add_map o (some m) l = record l {
  items =
      record { start = o.info.start; end = o.info.end; private = mark_no_free o.address } ∷ l.items;
  map_ctxs = (o.address, m) ∷ l.map_ctxs;
}

-- The loop over the mappings.
unfoldable pub load_maps : GuContext → List Opening → Loading
load_maps ctx [] = record { context = ctx; items = []; map_ctxs = [] }
load_maps ctx (o ∷ r) = let p = load_map ctx o in add_map o p.1 (load_maps p.0 r)

abbrev pub golang_of : Option ElfCtx → Bool
golang_of none = false
golang_of (some e) = e.golang

-- Whether the first mapping is of a Go program.
unfoldable pub first_golang : GuContext → List Opening → Bool
first_golang ctx [] = false
first_golang ctx (o ∷ r) =
    let p = load_map ctx o in
    elim p.1 [ none ↦ false | some m ↦ golang_of (find_elf m.elf_ctx p.0.elf_ctx_list) ]

unfoldable pub find_map_ctx : ℕ → List (ℕ × MapCtx) → Option MapCtx
find_map_ctx p [] = none
find_map_ctx p ((address, m) ∷ r) = if address == p then some m else find_map_ctx p r

unfoldable pub delete_map_ctx : ℕ → List (ℕ × MapCtx) → List (ℕ × MapCtx)
delete_map_ctx p [] = []
delete_map_ctx p ((address, m) ∷ r) = if address == p then r else (address, m) ∷ delete_map_ctx p r

-- `__private_clean_elf_ctx`: the module behind a pointer has a user less, and the map context is
-- freed. A pointer without a map context and a map context whose module was freed are wild.
unfoldable pub clean_elf_ctx :
    ℕ → List (ℕ × MapCtx) → GuContext → ℕ → Run (List (ℕ × MapCtx) × GuContext)
clean_elf_ctx monotonic ms ctx p = elim (find_map_ctx p ms) [
  | none ↦ fault wild_pointer
  | some m ↦ elim (find_elf m.elf_ctx ctx.elf_ctx_list) [
    | none ↦ fault wild_pointer
    | some e ↦ ok (delete_map_ctx p ms, put_elf_ctx monotonic ctx m.elf_ctx)
  ]
]

-- The map contexts behind a list of pointers are freed; each call reads the clock for itself.
unfoldable pub clean_all :
    (ℕ → ℕ) → List (ℕ × MapCtx) → List ℕ → GuContext → Run (List (ℕ × MapCtx) × GuContext)
clean_all clock ms [] ctx = ok (ms, ctx)
clean_all clock ms (p ∷ r) ctx = do
  t ← clean_elf_ctx (clock 0) ms ctx p
  clean_all (λ k. clock (suc k)) t.0 r t.1

-- `free` of the payloads that the array owns: one that is no map context any more is freed twice.
unfoldable pub free_payloads : List (ℕ × MapCtx) → List ℕ → Run (Unit {0})
free_payloads ms [] = ok tt
free_payloads ms (p ∷ r) = elim (find_map_ctx p ms) [
  | none ↦ fault wild_pointer
  | some m ↦ free_payloads (delete_map_ctx p ms) r
]

-- The payloads that `gu_interval_array_destroy` frees in an array.
abbrev pub owned : Option IntervalArray → List ℕ
owned none = []
owned (some a) = freed (store_or_nil a.items_u32) ++ freed (store_or_nil a.items_u64)

-- The pointers that `gu_interval_array_for_each_private` visits in an array.
abbrev pub pointers : Option IntervalArray → List ℕ
pointers none = []
pointers (some a) = visited (store_or_nil a.items_u32) ++ visited (store_or_nil a.items_u64)

abbrev pub counted_alloc : GuContext → GuContext
counted_alloc ctx = record ctx {
  statistics = record ctx.statistics {
    pid_ctx_alloc_count = add64 ctx.statistics.pid_ctx_alloc_count 1;
  };
}

unfoldable pub loaded_process :
    GuContext → Bool → ℕ → ℕ → Loadable → Loading → IntervalArray → Process
loaded_process ctx golang pid unique_id env l a = record {
  schedule = schedule_next_maps_reload ctx (env.clock 0) (env.clock 1) (record {
    address = env.address;
    pid = pid;
    unique_id = unique_id;
    last_maps_load_ns = 0;
    next_maps_reload_ns = 0;
    maps_reload_rand_state = 0;
  });
  comm = env.comm;
  golang = golang;
  preload = false;
  map_ctxs = l.map_ctxs;
  elf_ctx_list = some a;
  private = none;
}

-- The end of a load, with the items as `gu_interval_array_init` leaves them and the new array.
unfoldable pub end_load :
    Bool
    → ℕ
    → ℕ
    → Loadable
    → Loading
    → List Item × Option IntervalArray
    → Run (GuContext × Option Process)
end_load golang pid unique_id env l (items, none) = do
  t ← clean_all env.clock l.map_ctxs (visited items) l.context
  ok (t.1, none)
end_load golang pid unique_id env l (items, some a) =
    ok (l.context, some (loaded_process l.context golang pid unique_id env l a))

-- `gu_load_pid` of a process that has no context yet; the other allocations succeed.
unfoldable pub load_pid : Qsort → GuContext → ℕ → ℕ → Loadable → Run (GuContext × Option Process)
load_pid qsort ctx pid unique_id env =
    let ctx₁ = counted_alloc ctx in
    let l = load_maps ctx₁ env.openings in
    elim env.openings [
      | [] ↦ ok (ctx, none)
      | o ∷ r ↦
          end_load (first_golang ctx₁ env.openings) pid unique_id env l
            (Interval.init qsort env.alloc_array env.alloc_items l.items)
    ]
