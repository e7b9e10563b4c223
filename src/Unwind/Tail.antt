-- ===== src/Unwind/Tail.antt =====
-- `gu_append_pc_frame` and `gu_unwind_dwarf_tail_by_fp` of src/gu_stacktrace.c. The frames are in
-- the order of the calls of the callback; their number is what the C code counts as appended.
pub mod Chain
pub mod Reads
pub mod Length
use libgunwinder.Base.{
  ℕ, zero, suc, ◌+◌, ◌-◌, Bool, true, false, not, ◌&&◌, ◌||◌, Option, none, some, List, [], ◌∷◌,
  ◌==◌, if◌then◌else◌, length, Run, ok, fail, fault, ◌>>=◌,
}
use libgunwinder.Base.Words.{add64, sub64}
use libgunwinder.Snapshot.{UnwindReason}
use libgunwinder.Unwind.{
  Walk, Modules, MapView, Host, FrameRecord, anonymous_frame, find_item, frame_lookup_pc,
  lookup_elf_symbol, is_stack_bottom_symbol, stack_snapshot_read_u64, frame_pointer_sane,
  max_fp_stack_level,
}

-- What `gu_append_pc_frame` leaves: the walk, and the frame with whether it ends the stack;
-- `none` is a return of false.
pub record Appended (S : Type 0) : Type 0 where
  pub walk : Walk S
  pub frame : Option (FrameRecord × Bool)

-- The walk and the frames of a tail.
pub record Tailed (S : Type 0) : Type 0 where
  pub walk : Walk S
  pub frames : List FrameRecord

abbrev pub StackReader : Type 0
StackReader = ℕ → Run ℕ

-- A saved frame pointer and address; `none` where a read is out of range.
unfoldable pub read_pair : StackReader → ℕ → Run (Option (ℕ × ℕ))
read_pair read bp = elim (read bp) [
  | fault e ↦ fault e
  | fail ↦ ok none
  | ok next_bp ↦ elim (read (add64 bp 8)) [
    | fault e ↦ fault e
    | fail ↦ ok none
    | ok next_pc ↦ ok (some (next_bp, next_pc))
  ]
]

module _ {S : Type 0} where
  abbrev pub stopped : Walk S → Run (Tailed S)
  stopped w = ok (record { walk = w; frames = [] })

  abbrev pub prepend : FrameRecord → Tailed S → Run (Tailed S)
  prepend f t = ok (record { walk = t.walk; frames = f ∷ t.frames })

  -- After an attempt to append: `rest` goes on with the walk.
  unfoldable pub after_append :
      (Walk S → Run (Tailed S)) → Walk S → Option (FrameRecord × Bool) → Run (Tailed S)
  after_append rest w none = stopped w
  after_append rest w (some (f, true)) = prepend f (record { walk = w; frames = [] })
  after_append rest w (some (f, false)) = rest w >>= prepend f

  -- After an attempt to append the address that stopped the unwinder, which may fail.
  unfoldable pub go_on :
      (Walk S → Run (Tailed S)) → Walk S → Option (FrameRecord × Bool) → Run (Tailed S)
  go_on rest w none = rest w
  go_on rest w (some p) = after_append rest w (some p)

module _ {S : Type 0} (host : Host) (mods : Modules S) where
  -- The frame of an address in the mapping found.
  unfoldable pub module_frame : Walk S → ℕ → Bool → Bool → Option MapView → Run (Appended S)
  module_frame w pc initial_frame signal_frame none =
      ok (record { walk = w; frame = some (anonymous_frame pc, false) })
  module_frame w pc initial_frame signal_frame (some v) =
      let relative_pc = sub64 pc (sub64 w.item.start v.map_exec_virt_addr) in
      lookup_elf_symbol v.symbols (frame_lookup_pc relative_pc initial_frame signal_frame) >>= λ s.
      ok (record {
        walk = w;
        frame = some (
          record {
            pc = relative_pc;
            abs_pc = pc;
            offset = s.1;
            symbol = s.0;
            elf_info = some v.elf;
            flags = 0;
          },
          is_stack_bottom_symbol host s.0,
        );
      })

  unfoldable pub append_found : ℕ → Bool → Bool → Walk S × Bool → Run (Appended S)
  append_found pc initial_frame signal_frame (w, false) = ok (record { walk = w; frame = none })
  append_found pc initial_frame signal_frame (w, true) =
      module_frame w pc initial_frame signal_frame (mods.map_of w.modules w.item)

  unfoldable pub append_pc_frame : Walk S → ℕ → Bool → Bool → Run (Appended S)
  append_pc_frame w pc initial_frame signal_frame =
      if pc == 0
      then ok (record { walk = w; frame = none })
      else (find_item mods w pc >>= append_found pc initial_frame signal_frame)

  -- The loop may go on for `levels` more frames.
  unfoldable pub tail_loop : StackReader → ℕ → Walk S → ℕ → Run (Tailed S)
  tail_loop read zero w bp = stopped w
  tail_loop read (suc levels) w bp = read_pair read bp >>= λ pair. elim pair [
    | none ↦ stopped w
    | some (next_bp, next_pc) ↦
        if not (frame_pointer_sane bp next_bp) || next_pc == 0
        then stopped w
        else (append_pc_frame w next_pc false false >>= λ a.
            after_append (λ w₁. tail_loop read levels w₁ next_bp) a.walk a.frame)
  ]

  -- The snapshot's bytes are those of the start: a search changes only its flags. The address that
  -- stopped the unwinder is a frame of its own if it has a mapping.
  unfoldable pub unwind_tail : ℕ → Walk S → ℕ → ℕ → Bool → Run (Tailed S)
  unwind_tail raw_sp w bp pc append_current_pc =
      let follow : Walk S → Run (Tailed S) = λ w₁.
        tail_loop (stack_snapshot_read_u64 host.system w.info raw_sp) max_fp_stack_level w₁ bp in
      if not (mods.present w.modules)
      then stopped w
      else if append_current_pc
      then (append_pc_frame w pc true false >>= λ a. go_on follow a.walk a.frame)
      else follow w

-- `*reason` after the tail.
unfoldable pub tail_reason : UnwindReason → List FrameRecord → UnwindReason
tail_reason reason [] = reason
tail_reason reason (f ∷ r) = UnwindReason.end_of_stack
