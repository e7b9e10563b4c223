-- ===== src/Tests/Snapshots.antt =====
-- Snapshots, listeners and executable ranges at concrete inputs.
use libgunwinder.Base.{
  ℕ, ◌≡◌, refl, true, false, Option, none, some, List, [], ◌∷◌, ◌++◌, arith, length, ◌⊎◌, inl,
}
use libgunwinder.Snapshot.{
  StackInfo, end_of_stack, fp_allow_unknown, flags_reason, flags_set_reason, flags_is_set,
  reason_code,
}
use libgunwinder.Snapshot.{get_regs, write_regs}
use libgunwinder.Snapshot.Registers.{get_regs-write_regs}
use libgunwinder.Snapshot.Flags.{flags_reason-flags_set_reason}
use libgunwinder.Event.{PidCtxEvent, register_listener}
use libgunwinder.Event.Queue.{IsPacked, registered, register_listener-registered}
use libgunwinder.Elf.{Phdr, ExecRange, find, load_from_elf, find_by_offset}
use libgunwinder.Elf.Ranges.{load_from_elf-covers, AllNonempty, Any, CoversSegment}
use libgunwinder.Elf.Search.{find_by_offset-FindsOffset, FindsOffset, find-FindsAll, FindsAll}

abbrev snapshot : StackInfo
snapshot = record {
  pid = 7;
  unique_id = 1;
  regs = none;
  flags = 3;
  ustack_fp = [];
  ustack_fp_level = 0;
  stack_size = 0;
  stack_data = none;
}

flags_reason-flags_set_reason_example :
    (flags_reason (flags_set_reason snapshot end_of_stack).flags ≡ reason_code end_of_stack)
    × (flags_is_set (flags_set_reason snapshot end_of_stack) fp_allow_unknown
        ≡ flags_is_set snapshot fp_allow_unknown)
flags_reason-flags_set_reason_example =
    flags_reason-flags_set_reason snapshot end_of_stack fp_allow_unknown (omega arith)

abbrev listeners : List (Option ℕ)
listeners = some 4 ∷ none ∷ none ∷ []

register_listener-registered_example :
    (IsPacked (register_listener listeners (some 9)).0
      × (length (register_listener listeners (some 9)).0 ≡ length listeners))
    × (((register_listener listeners (some 9)).1 ≡ true)
          × (registered (register_listener listeners (some 9)).0 ≡ registered listeners ++ 9 ∷ [])
        ⊎ ((register_listener listeners (some 9)).1 ≡ false)
          × (register_listener listeners (some 9) ≡ (listeners, false))
          × (length (registered listeners) ≡ length listeners))
register_listener-registered_example = register_listener-registered listeners 9 tt

abbrev exit_event : PidCtxEvent
exit_event = record { pid = 7; type = 1; start_time = 5; comm = [] }

abbrev text_segment : Phdr
text_segment = record {
  p_type = 1;
  p_flags = 5;
  p_offset = 4096;
  p_vaddr = 5000;
  p_memsz = 300;
  p_align = 4096;
}

load_from_elf-covers_example :
    (ranges : List ExecRange) × (load_from_elf true true (some text_segment ∷ []) ≡ some ranges)
    × AllNonempty ranges
    × Any (CoversSegment text_segment) ranges
load_from_elf-covers_example =
    load_from_elf-covers (some text_segment ∷ []) text_segment tt (inl refl)
      (refl, omega arith, omega arith)

abbrev text_range : List ExecRange
text_range = record { start = 4096; end = 8192; offset = 12288 } ∷ []

find_by_offset-FindsOffset_example :
    FindsOffset text_range 12300 16 (find_by_offset text_range 12300 16)
find_by_offset-FindsOffset_example =
    find_by_offset-FindsOffset text_range 12300 16 (omega arith, tt) (omega arith)

find-FindsAll_example : FindsAll text_range 5000 6000 (find text_range 5000 6000)
find-FindsAll_example = find-FindsAll text_range 5000 6000 (omega arith)

abbrev running : StackInfo
running = record snapshot { regs = some (1 ∷ 2 ∷ 3 ∷ []) }

get_regs-write_regs_example :
    ((write_regs (2 ∷ 0 ∷ []) running 0 9).1 ≡ true)
    × (get_regs (2 ∷ 0 ∷ []) (write_regs (2 ∷ 0 ∷ []) running 0 9).0 0 ≡ some 9)
    × (get_regs (2 ∷ 0 ∷ []) (write_regs (2 ∷ 0 ∷ []) running 0 9).0 1
        ≡ get_regs (2 ∷ 0 ∷ []) running 1)
get_regs-write_regs_example =
    get_regs-write_regs (2 ∷ 0 ∷ []) running (1 ∷ 2 ∷ 3 ∷ []) refl 0 9 2 1 0 refl (omega arith) refl
      (omega arith)
