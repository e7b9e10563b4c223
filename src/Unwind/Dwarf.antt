-- ===== src/Unwind/Dwarf.antt =====
-- The loop of `gu_unwind` of src/gu_stacktrace.c over call frame information, and what follows it,
-- on x86-64. `depth` bounds the evaluator's calls for the frame address.
pub mod Progress
pub mod Loop
pub mod Finish
pub mod Ends
use libgunwinder.Base.{
  ℕ, zero, suc, ◌+◌, ◌-◌, Bool, true, false, not, ◌&&◌, ◌||◌, Option, none, some, List, [], ◌∷◌,
  ◌++◌, ◌==◌, leb, if◌then◌else◌, length, Run, fail, fault, ◌>>=◌, unset,
}
use libgunwinder.Base.Words.{sub64}
use libgunwinder.Base
use libgunwinder.Snapshot.{
  StackInfo, UnwindReason, ok, no_exec_pc, end_of_stack, no_cfi, cfi_frame_decode_failed,
  no_progress, truncated, unknown, process_exit, get_regs, write_regs, flags_set_reason,
}
use libgunwinder.Cfi.Parse.{Scratch}
use libgunwinder.Expr.Evaluate.{Frame, gen_reg}
use libgunwinder.Unwind.{
  Walk, Modules, MapView, Host, FrameRecord, in_item, frame_lookup_pc, lookup_elf_symbol,
  is_stack_bottom_symbol, search_present,
}
use libgunwinder.Unwind.Tail.{Tailed, unwind_tail, tail_reason}

abbrev pub reg_rip : ℕ
reg_rip = 16

abbrev pub reg_rsp : ℕ
reg_rsp = 7

abbrev pub reg_rbp : ℕ
reg_rbp = 6

-- The variables of the loop.
pub record Registers : Type 0 where
  pub pc : ℕ
  pub initial_frame : Bool
  pub signal_frame : Bool
  pub prev_sp : ℕ
  pub prev_pc : ℕ
  pub reason : UnwindReason

-- A break with its reason, or another round.
pub data Next (S : Type 0) : Type 0 where
  stop : Walk S → ℕ → UnwindReason → Bool → Next S
  go : Walk S → Registers → Next S

-- The frame that a round reports, if it comes so far.
pub record Round (S : Type 0) : Type 0 where
  pub frames : List FrameRecord
  pub next : Next S

-- The loop's end: the frames in order, the rounds begun as the C code counts them.
pub record Looped (S : Type 0) : Type 0 where
  pub walk : Walk S
  pub frames : List FrameRecord
  pub pc : ℕ
  pub reason : UnwindReason
  pub append_current_pc : Bool
  pub levels : ℕ

-- With go_only_buildid a Go frame is reported as its function's start without a name.
abbrev pub dwarf_frame : Host → MapView → ℕ → ℕ → Option ℕ × ℕ → FrameRecord
dwarf_frame host v pc relative_pc s =
    if not host.go_only_buildid || not v.golang
    then record {
      pc = relative_pc;
      abs_pc = pc;
      offset = s.1;
      symbol = s.0;
      elf_info = some v.elf;
      flags = 0;
    }
    else record {
      pc = sub64 relative_pc s.1;
      abs_pc = pc;
      offset = 0;
      symbol = none;
      elf_info = some v.elf;
      flags = 0;
    }

module _ {S : Type 0} (host : Host) (mods : Modules S) (depth raw_sp : ℕ) where
  -- The rule of a register, and the sampled register where the innermost frame has none.
  unfoldable pub return_address :
      Registers → StackInfo → UnwindReason × Option ℕ → UnwindReason × Option ℕ
  return_address r info (ok, v) = (ok, v)
  return_address r info (reason, v) =
      if r.initial_frame
      then elim (get_regs host.system.slots info reg_rip) [
        | none ↦ (reason, none)
        | some x ↦ (ok, some x)
      ]
      else (reason, none)

  abbrev with_info : Walk S → StackInfo → Walk S
  with_info w info = record w { info = info }

  -- `write_regs` of the base pointer if it has a value.
  unfoldable pub write_bp : StackInfo → Option ℕ → StackInfo
  write_bp info none = info
  write_bp info (some bp) = (write_regs host.system.slots info reg_rbp bp).0

  -- The loop guard: the stack pointer grows and the address changes. The count of the rounds goes
  -- up inside an argument of GU_VERBOSE.
  unfoldable pub advance : Walk S → Registers → Bool → UnwindReason → ℕ → ℕ → Next S
  advance w r signal reason pc sp =
      if pc == 0
      then stop w pc end_of_stack false
      else if leb sp r.prev_sp || pc == r.prev_pc
      then stop w pc no_progress false
      else go
          (with_info w
            (write_regs host.system.slots (write_regs host.system.slots w.info reg_rsp sp).0 reg_rip
              pc).0)
          (record {
            pc = pc;
            initial_frame = r.initial_frame && not host.verbose;
            signal_frame = signal;
            prev_sp = sp;
            prev_pc = pc;
            reason = reason;
          })

  -- The base pointer's reason is not looked at, but stays the loop's.
  unfoldable pub with_bp : Walk S → Registers → Bool → ℕ → ℕ → UnwindReason × Option ℕ → Next S
  with_bp w r signal pc sp (reason, bp) =
      advance (with_info w (write_bp w.info bp)) r signal reason pc sp

  abbrev frame_of : Walk S → ℕ → Scratch → Frame
  frame_of w bias scratch = record {
    info = w.info;
    raw_sp = raw_sp;
    bias = bias;
    scratch = scratch;
  }

  unfoldable pub with_sp :
      Walk S → Registers → ℕ → Scratch × Bool → ℕ → UnwindReason × Option ℕ → Run (Next S)
  with_sp w r bias (scratch, signal) pc (ok, some sp) = do
    bp ← gen_reg depth host.system (frame_of w bias scratch) reg_rbp
    Base.ok (with_bp w r signal pc sp bp)
  with_sp w r bias parsed pc (reason, sp) = Base.ok (stop w r.pc reason false)

  unfoldable pub with_ra :
      Walk S → Registers → ℕ → Scratch × Bool → UnwindReason × Option ℕ → Run (Next S)
  with_ra w r bias (scratch, signal) (ok, some pc) = do
    sp ← gen_reg depth host.system (frame_of w bias scratch) reg_rsp
    with_sp w r bias (scratch, signal) pc sp
  with_ra w r bias parsed (reason, pc) = Base.ok (stop w r.pc reason false)

  -- The caller's registers, from the operations of the frame.
  unfoldable pub unwind_registers : Walk S → Registers → ℕ → Run (Scratch × Bool) → Run (Next S)
  unwind_registers w r bias (fault e) = fault e
  unwind_registers w r bias fail = Base.ok (stop w r.pc cfi_frame_decode_failed false)
  unwind_registers w r bias (Base.ok (scratch, signal)) = do
    ra ← gen_reg depth host.system (frame_of w bias scratch) reg_rip
    with_ra w r bias (scratch, signal) (return_address r w.info ra)

  unfoldable pub after_frame : Walk S → Registers → MapView → ℕ → ℕ → Option ℕ → Run (Next S)
  after_frame w r v bias relative_pc sym =
      if is_stack_bottom_symbol host sym
      then Base.ok (stop w r.pc end_of_stack false)
      else if not v.has_cfi
      then Base.ok (stop w r.pc no_cfi false)
      else (let parsed =
            mods.parse w.modules v.elf
              (frame_lookup_pc relative_pc r.initial_frame r.signal_frame) in
          unwind_registers (record w { modules = parsed.0 }) r bias parsed.1)

  unfoldable pub module_round : Walk S → Registers → Option MapView → Run (Round S)
  module_round w r none = Base.ok (record { frames = []; next = stop w r.pc no_exec_pc true })
  module_round w r (some v) =
      let bias = sub64 w.item.start v.map_exec_virt_addr in
      let relative_pc = sub64 r.pc bias in
      lookup_elf_symbol v.symbols (frame_lookup_pc relative_pc r.initial_frame r.signal_frame)
      >>= λ s. after_frame w r v bias relative_pc s.0 >>= λ n.
          Base.ok (record { frames = dwarf_frame host v r.pc relative_pc s ∷ []; next = n })

  unfoldable pub found_round : Registers → Walk S × Bool → Run (Round S)
  found_round r (w, false) = Base.ok (record { frames = []; next = stop w r.pc no_exec_pc false })
  found_round r (w, true) = module_round w r (mods.map_of w.modules w.item)

  unfoldable pub dwarf_round : Walk S → Registers → Run (Round S)
  dwarf_round w r =
      (if in_item w r.pc then Base.ok (w, true) else search_present mods w r.pc) >>= found_round r

  abbrev pub looped : List FrameRecord → Looped S → Looped S
  looped fs l = record l { frames = fs ++ l.frames; levels = suc l.levels }

  -- `levels` rounds are left; the last test of the counter counts as a round of its own.
  unfoldable pub dwarf_loop : ℕ → Walk S → Registers → Run (Looped S)
  dwarf_loop zero w r = Base.ok (record {
    walk = w;
    frames = [];
    pc = r.pc;
    reason = r.reason;
    append_current_pc = false;
    levels = 1;
  })
  dwarf_loop (suc levels) w r = dwarf_round w r >>= λ round. elim round.next [
    | stop w₁ pc reason append ↦ Base.ok (record {
      walk = w₁;
      frames = round.frames;
      pc = pc;
      reason = reason;
      append_current_pc = append;
      levels = 1;
    })
    | go w₁ r₁ ↦ dwarf_loop levels w₁ r₁ >>= λ l. Base.ok (looped round.frames l)
  ]

abbrev pub max_backtrace_level : ℕ
max_backtrace_level = 512

-- What a call leaves: the walk with the snapshot's flags set, the frames in the order of the
-- callback's calls, the number returned.
pub record Unwound (S : Type 0) : Type 0 where
  pub walk : Walk S
  pub frames : List FrameRecord
  pub result : ℕ

unfoldable pub or_truncated : UnwindReason → UnwindReason
or_truncated unknown = truncated
or_truncated reason = reason

-- Whether the frame pointers are not followed.
unfoldable pub is_final : UnwindReason → Bool
is_final end_of_stack = true
is_final process_exit = true
is_final _ = false

module _ {S : Type 0} (host : Host) (mods : Modules S) where
  abbrev pub unwound : Walk S → List FrameRecord → UnwindReason → ℕ → Unwound S
  unwound w frames reason result = record {
    walk = record w { info = flags_set_reason w.info reason };
    frames = frames;
    result = result;
  }

  -- The tail has variables of its own for the mapping found last and for the reload.
  abbrev pub without_item : Walk S → Walk S
  without_item w = record w { item = record { start = 0; end = 0; private = 0 }; reloaded = false }

  unfoldable pub finish_tail : ℕ → Looped S → UnwindReason → Option ℕ → Run (Unwound S)
  finish_tail raw_sp l reason none = Base.ok (unwound l.walk l.frames reason l.levels)
  finish_tail raw_sp l reason (some bp) = do
    t ← unwind_tail host mods raw_sp (without_item l.walk) bp l.pc l.append_current_pc
    Base.ok (unwound t.walk (l.frames ++ t.frames) (tail_reason reason t.frames) l.levels)

  unfoldable pub finish : ℕ → Looped S → Run (Unwound S)
  finish raw_sp l =
      let reason = or_truncated l.reason in
      if is_final reason
      then Base.ok (unwound l.walk l.frames reason l.levels)
      else finish_tail raw_sp l reason (get_regs host.system.slots l.walk.info reg_rbp)

  abbrev pub first_registers : ℕ → ℕ → Registers
  first_registers pc sp = record {
    pc = pc;
    initial_frame = true;
    signal_frame = false;
    prev_sp = sp;
    prev_pc = 0;
    reason = unknown;
  }

  -- The walk over call frame information, from the sampled registers.
  unfoldable pub unwind_by_cfi : ℕ → Walk S → Run (Unwound S)
  unwind_by_cfi depth w = elim (get_regs host.system.slots w.info reg_rip) [
    | none ↦ fault unset
    | some pc ↦ elim (get_regs host.system.slots w.info reg_rsp) [
      | none ↦ fault unset
      | some sp ↦
          dwarf_loop host mods depth sp max_backtrace_level w (first_registers pc sp) >>= finish sp
    ]
  ]
