-- ===== src/Unwind.antt =====
-- The unwinder of src/gu_stacktrace.c: frames, symbols and reads of the snapshot. Tail follows
-- frame pointers, Dwarf the call frame information, Recorded the addresses recorded by the
-- kernel. The mapped modules are an interface.
pub mod Tail
pub mod Dwarf
pub mod Recorded
use libgunwinder.Base.{
  ℕ, ◌+◌, ◌-◌, ◌%◌, ◌^◌, Bool, true, false, not, ◌&&◌, ◌||◌, Option, none, some, List, [], ◌∷◌, ltb,
  leb, ◌==◌, if◌then◌else◌, length, drop, Run, ok, fail, fault, ◌>>=◌, wild_pointer,
}
use libgunwinder.Base.Words.{add64, sub64}
use libgunwinder.Interval
use libgunwinder.Interval.{Item, IntervalArray, SearchResult, get_pointer}
use libgunwinder.Snapshot.{StackInfo}
use libgunwinder.Decode.{read_le}
use libgunwinder.Cfi.Parse.{Scratch}
use libgunwinder.Expr.{System}

abbrev pub max_fp_stack_level : ℕ
max_fp_stack_level = 127

-- struct gu_frame_record; a symbol and a module are pointers, NULL is `none`.
pub record FrameRecord : Type 0 where
  pub pc : ℕ
  pub abs_pc : ℕ
  pub offset : ℕ
  pub symbol : Option ℕ
  pub elf_info : Option ℕ
  pub flags : ℕ

abbrev pub frame_anon_exec : ℕ
frame_anon_exec = 1

-- What the unwinder reads of a mapping and its module.
pub record MapView : Type 0 where
  pub elf : ℕ
  pub symbols : Option IntervalArray
  pub golang : Bool
  pub has_cfi : Bool
  pub map_exec_virt_addr : ℕ

-- The state of a walk: the modules, the snapshot, the mapping found last, and whether the mappings
-- were read again in this walk.
pub record Walk (S : Type 0) : Type 0 where
  pub modules : S
  pub info : StackInfo
  pub item : Item
  pub reloaded : Bool

-- What a walk asks of the modules: the mapping of an address (`gu_search_pid_elf_ctx`), the
-- context behind a mapping (`gu_get_elf_ctx_from_item`), whether there is a process context, the
-- decoding of a frame of a module.
pub record Modules (S : Type 0) : Type 0 where
  pub search : Walk S → ℕ → Run (Walk S × Bool)
  pub map_of : S → Item → Option MapView
  pub present : S → Bool
  pub parse : S → ℕ → ℕ → S × Run (Scratch × Bool)

-- The machine, the strings behind symbol pointers, the context's setting, and whether GU_VERBOSE
-- evaluates its arguments.
pub record Host : Type 0 where
  pub system : System
  pub name_at : ℕ → List ℕ
  pub go_only_buildid : Bool
  pub verbose : Bool

unfoldable pub same_bytes : List ℕ → List ℕ → Bool
same_bytes [] [] = true
same_bytes (a ∷ r) (b ∷ s) = (a == b) && same_bytes r s
same_bytes _ _ = false

-- `_start`, `__libc_start_main`, `__libc_start_call_main`, `start_thread`, `clone`, `__clone`.
abbrev pub bottom_symbols : List (List ℕ)
bottom_symbols =
    (95 ∷ 115 ∷ 116 ∷ 97 ∷ 114 ∷ 116 ∷ [])
    ∷ (95 ∷ 95 ∷ 108 ∷ 105 ∷ 98 ∷ 99 ∷ 95 ∷ 115 ∷ 116 ∷ 97 ∷ 114 ∷ 116 ∷ 95 ∷ 109 ∷ 97 ∷ 105 ∷ 110
        ∷ [])
    ∷ (95 ∷ 95 ∷ 108 ∷ 105 ∷ 98 ∷ 99 ∷ 95 ∷ 115 ∷ 116 ∷ 97 ∷ 114 ∷ 116 ∷ 95 ∷ 99 ∷ 97 ∷ 108 ∷ 108
        ∷ 95 ∷ 109 ∷ 97 ∷ 105 ∷ 110 ∷ [])
    ∷ (115 ∷ 116 ∷ 97 ∷ 114 ∷ 116 ∷ 95 ∷ 116 ∷ 104 ∷ 114 ∷ 101 ∷ 97 ∷ 100 ∷ [])
    ∷ (99 ∷ 108 ∷ 111 ∷ 110 ∷ 101 ∷ [])
    ∷ (95 ∷ 95 ∷ 99 ∷ 108 ∷ 111 ∷ 110 ∷ 101 ∷ [])
    ∷ []

unfoldable pub any_same : List (List ℕ) → List ℕ → Bool
any_same [] name = false
any_same (b ∷ r) name = same_bytes name b || any_same r name

unfoldable pub is_stack_bottom_symbol : Host → Option ℕ → Bool
is_stack_bottom_symbol host none = false
is_stack_bottom_symbol host (some sym) = any_same bottom_symbols (host.name_at sym)

unfoldable pub frame_lookup_pc : ℕ → Bool → Bool → ℕ
frame_lookup_pc pc initial_frame signal_frame =
    if initial_frame || signal_frame || pc == 0 then pc else pc - 1

-- The symbol of a search's hit, and the offset in it.
unfoldable pub symbol_of : ℕ → SearchResult → Option ℕ × ℕ
symbol_of pc r = elim r.index [
  | none ↦ (none, 0)
  | some i ↦
      if get_pointer r.item.private == 0
      then (none, 0)
      else (some (get_pointer r.item.private), sub64 pc r.item.start)
]

unfoldable pub lookup_elf_symbol : Option IntervalArray → ℕ → Run (Option ℕ × ℕ)
lookup_elf_symbol none pc = ok (none, 0)
lookup_elf_symbol (some a) pc = do r ← Interval.search false (some a) pc; ok (symbol_of pc r)

-- `fail` is a return of false.
unfoldable pub snapshot_word : List ℕ → ℕ → ℕ → ℕ → Run ℕ
snapshot_word bytes stack_start stack_end addr =
    if ltb addr stack_start
      || leb stack_end addr
      || ltb (add64 addr 8) addr
      || ltb (sub64 stack_end addr) 8
    then fail
    else (read_le 8 (drop (addr - stack_start) bytes) >>= λ p. ok p.0)

unfoldable pub stack_snapshot_read_u64 : System → StackInfo → ℕ → ℕ → Run ℕ
stack_snapshot_read_u64 sys info raw_sp addr = elim info.stack_data [
  | none ↦ fail
  | some bytes ↦
      let stack_start = raw_sp - raw_sp % sys.page_size in
      snapshot_word bytes stack_start (add64 stack_start info.stack_size) addr
]

unfoldable pub frame_pointer_sane : ℕ → ℕ → Bool
frame_pointer_sane bp next_bp =
    not (bp == 0) && not (next_bp == 0) && (bp % 8 == 0) && (next_bp % 8 == 0) && ltb bp next_bp

abbrev pub anonymous_frame : ℕ → FrameRecord
anonymous_frame pc = record {
  pc = pc;
  abs_pc = pc;
  offset = 0;
  symbol = none;
  elf_info = none;
  flags = frame_anon_exec;
}

module _ {S : Type 0} where
  -- The mapping found last still holds the address.
  abbrev pub in_item : Walk S → ℕ → Bool
  in_item w pc = not (w.item.private == 0) && leb w.item.start pc && ltb pc w.item.end

  -- A search on behalf of the process; without a process context it reads through NULL.
  unfoldable pub search_present : Modules S → Walk S → ℕ → Run (Walk S × Bool)
  search_present mods w pc = if mods.present w.modules then mods.search w pc else fault wild_pointer

  -- The mapping of an address; no search where the one found last holds it.
  unfoldable pub find_item : Modules S → Walk S → ℕ → Run (Walk S × Bool)
  find_item mods w pc = if in_item w pc then ok (w, true) else search_present mods w pc
