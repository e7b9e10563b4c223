-- ===== src/Tests/Walks.antt =====
-- Walks of a stack whose one module, at addresses 4096 to 12288, needs 8 bytes a frame.
use libgunwinder.Base.{
  ℕ, zero, suc, Option, ◌≢◌, ◌-◌, ◌^◌, ◌≡◌, refl, Bool, true, false, ◌&&◌, none, some, List, [],
  ◌∷◌, arith, ◌+◌, ltb, leb, if◌then◌else◌, replicate, Run, ok, fail, fault, Settles, Returns,
  Whatever,
}
use libgunwinder.Snapshot.{StackInfo, get_regs, write_regs, UnwindReason}
use mathlib.Core.Path.{subst}
use libgunwinder.Interval
use libgunwinder.Interval.{Item}
use libgunwinder.Cfi.{trans_reg_type}
use libgunwinder.Cfi.Ops.{Op}
use libgunwinder.Cfi.Parse.{Scratch, get_ops}
use libgunwinder.Expr.{System, Kind, kind_of, find_kind, dw_push, dw_pop}
use libgunwinder.Expr.Evaluate.{
  Frame, gen_reg, fast_dwarf_ops_eval, dwarf_ops_eval, eval_loop, eval_kind, finish, reason_of,
}
use libgunwinder.Expr.Reads.{HasData}
use libgunwinder.Expr.Ends.{IsCallFree}
use libgunwinder.Expr.Depth.{NotDeep, gen_reg-Settles}
use libgunwinder.Unwind.{
  search_present, Walk, Modules, MapView, Host, FrameRecord, lookup_elf_symbol,
  is_stack_bottom_symbol, frame_lookup_pc,
}
use libgunwinder.Unwind.Tail.{unwind_tail}
use libgunwinder.Unwind.Tail.Chain.{IsReliable}
use libgunwinder.Unwind.Tail.Reads.{IsTail, unwind_tail-IsTail}
use libgunwinder.Unwind.Recorded.{unwind_by_fp}
use libgunwinder.Unwind.Recorded.Frames.{IsRecorded, unwind_by_fp-IsRecorded}
use libgunwinder.Unwind.Dwarf.{
  Registers, reg_rip, reg_rsp, reg_rbp, first_registers, Round, stop, found_round, module_round,
  after_frame, unwind_registers, with_ra, return_address, with_sp, with_bp, write_bp, advance,
  dwarf_round, dwarf_loop, max_backtrace_level, go, unwind_by_cfi,
}
use libgunwinder.Unwind.Dwarf.Progress.{none_yet, another, HasClimbed, Rounds-HasClimbed}
use libgunwinder.Unwind.Dwarf.Finish.{EndsDefinite, unwind_by_cfi-EndsDefinite}
use libgunwinder.Unwind.Dwarf.Ends.{IsCfiWalk, AllEvaluate, Evaluates, dwarf_loop-Settles}
use libgunwinder.Tests.Frames.{system}

-- The order of struct pt_regs on x86-64.
abbrev machine : System
machine = record system {
  slots = 10 ∷ 11 ∷ 12 ∷ 5 ∷ 14 ∷ 13 ∷ 4 ∷ 19 ∷ 9 ∷ 8 ∷ 7 ∷ 6 ∷ 3 ∷ 2 ∷ 1 ∷ 0 ∷ 16 ∷ [];
}

abbrev host : Host
host = record { system = machine; name_at = λ s. []; go_only_buildid = false; verbose = false }

abbrev lit_op : ℕ → Op
lit_op n = record { atom = 48 + n; number = 0; number2 = 0; position = 0 }

abbrev value_op : Op
value_op = record { atom = 159; number = 0; number2 = 0; position = 0 }

-- Every frame has the return address 8 and the stack pointer 9.
abbrev rules : Scratch
rules = record {
  rip_ops = lit_op 8 ∷ value_op ∷ [];
  rbp_ops = [];
  rsp_ops = lit_op 9 ∷ value_op ∷ [];
  cfa_ops = lit_op 9 ∷ value_op ∷ [];
}

abbrev module_view : MapView
module_view = record {
  elf = 1;
  symbols = none;
  golang = false;
  has_cfi = true;
  map_exec_virt_addr = 0;
}

abbrev mapping : Item
mapping = record { start = 4; end = 12288; private = 1 }

abbrev find_mapping : Walk (Unit {0}) → ℕ → Run (Walk (Unit {0}) × Bool)
find_mapping w pc =
    if leb 4 pc && ltb pc 12288 then ok (record w { item = mapping }, true) else ok (w, false)

abbrev mods : Modules (Unit {0})
mods = record {
  search = find_mapping;
  map_of = λ s item. some module_view;
  present = λ s. true;
  parse = λ s elf pc. (tt, ok (rules, false));
}

abbrev sampled : StackInfo
sampled = record {
  pid = 7;
  unique_id = 1;
  regs = some (replicate 21 8);
  flags = 2;
  ustack_fp = 8192 ∷ 4100 ∷ 0 ∷ [];
  ustack_fp_level = 3;
  stack_size = 16;
  stack_data = some (replicate 16 1);
}

abbrev walk : Walk (Unit {0})
walk = record {
  modules = tt;
  info = sampled;
  item = record { start = 0; end = 0; private = 0 };
  reloaded = false;
}

find_mapping-Settles : (w : Walk (Unit {0})) (pc : ℕ) → Settles NotDeep Whatever (find_mapping w pc)
find_mapping-Settles w pc = ground arith

no_symbols :
    (v : MapView) (pc : ℕ)
    → some module_view ≡ some v
    → Settles NotDeep Whatever (Interval.search false v.symbols pc)
unfolding Interval.search
no_symbols v pc e =
    let same : module_view ≡ v = cc e in
    subst (λ u. Settles NotDeep Whatever (Interval.search false u.symbols pc)) same tt

reliable : IsReliable NotDeep mods
reliable = record {
  null_read = tt;
  searches = λ w pc here. find_mapping-Settles w pc;
  symbols = λ s item v pc e. no_symbols v pc e;
  parses = λ s elf pc. tt;
}

unwind_by_fp-IsRecorded_example :
    Settles NotDeep
      (IsRecorded host mods NotDeep reliable walk (omega arith))
      (unwind_by_fp host mods walk)
unwind_by_fp-IsRecorded_example =
    unwind_by_fp-IsRecorded host mods NotDeep reliable walk (omega arith)

tail_data : HasData machine walk.info 8192
tail_data = (replicate 16 1, refl, refl, omega arith)

unwind_tail-IsTail_example :
    Settles NotDeep
      (IsTail host mods NotDeep reliable walk 8192 8192 4100 tail_data true)
      (unwind_tail host mods 8192 walk 8192 4100 true)
unwind_tail-IsTail_example =
    unwind_tail-IsTail host mods NotDeep reliable walk 8192 8192 4100 tail_data true

at_pc : get_regs machine.slots sampled reg_rip ≡ some 8
unfolding get_regs
at_pc = refl

unwind_by_cfi-EndsDefinite_example :
    Returns (EndsDefinite host mods 8) (unwind_by_cfi host mods 2 walk)
unwind_by_cfi-EndsDefinite_example = unwind_by_cfi-EndsDefinite host mods 2 walk 8 at_pc

-- The frame address is register 7 plus 8; the return address is the word saved just below it.
abbrev saved_rules : Scratch
saved_rules = record {
  rip_ops =
      record { atom = 156; number = 0; number2 = 0; position = 0 }
      ∷ record { atom = 35; number = 2 ^ 64 - 8; number2 = 0; position = 0 }
      ∷ [];
  rbp_ops = [];
  rsp_ops = [];
  cfa_ops = record { atom = 119; number = 8; number2 = 0; position = 0 } ∷ [];
}

abbrev saved_mods : Modules (Unit {0})
saved_mods = record mods { parse = λ s elf pc. (tt, ok (saved_rules, false)) }

saved_searched : IsReliable NotDeep saved_mods
saved_searched = record {
  null_read = tt;
  searches = λ w pc here. find_mapping-Settles w pc;
  symbols = λ s item v pc e. no_symbols v pc e;
  parses = λ s elf pc. tt;
}

abbrev NoCall : Option Op → Type 0
NoCall none = Unit
NoCall (some o) = kind_of o.atom ≢ Kind.call_frame_cfa

register_op-NoCall : NoCall (some (record { atom = 119; number = 8; number2 = 0; position = 0 }))
unfolding find_kind
register_op-NoCall k = absurd (cc k)

saved-IsCallFree : IsCallFree saved_rules.cfa_ops
saved-IsCallFree zero o e k = subst NoCall e register_op-NoCall k
saved-IsCallFree (suc i) o e k = absurd (cc e)

saved-Evaluates : Evaluates NotDeep machine 2 saved_rules
saved-Evaluates info raw_sp bias =
    let f : Frame = record { info = info; raw_sp = raw_sp; bias = bias; scratch = saved_rules } in
    (
      gen_reg-Settles machine f 1 reg_rip saved-IsCallFree,
      gen_reg-Settles machine f 1 reg_rsp saved-IsCallFree,
      gen_reg-Settles machine f 1 reg_rbp saved-IsCallFree,
    )

all_evaluate : AllEvaluate NotDeep host saved_mods 2
all_evaluate s elf pc scratch signal e =
    let same : saved_rules ≡ scratch = cc e in
    subst (Evaluates NotDeep machine 2) same saved-Evaluates

dwarf_loop-Settles_example :
    Settles NotDeep (IsCfiWalk 8 max_backtrace_level) (
      dwarf_loop host saved_mods 2 8 max_backtrace_level walk (first_registers host saved_mods 8 8))
dwarf_loop-Settles_example =
    dwarf_loop-Settles host saved_mods 2 8 NotDeep saved_searched all_evaluate 511 walk
      (first_registers host saved_mods 8 8)

-- One round of the walk: the next registers.
abbrev after_one : Registers
after_one = record {
  pc = 8;
  initial_frame = true;
  signal_frame = false;
  prev_sp = 9;
  prev_pc = 8;
  reason = UnwindReason.cfi_frame_cfa_calc_failed;
}

-- What a round leads to, if it goes on.
abbrev next_walk : Run (Round (Unit {0})) → Walk (Unit {0})
next_walk m = elim m [
  | ok round ↦ elim round.next [ stop w pc reason append ↦ w | go w r ↦ w ]
  | fail ↦ walk
  | fault e ↦ walk
]

abbrev round_frames : Run (Round (Unit {0})) → List FrameRecord
round_frames m = elim m [ ok round ↦ round.frames | fail ↦ [] | fault e ↦ [] ]

abbrev first_round : Run (Round (Unit {0}))
first_round = dwarf_round host mods 2 8 walk (first_registers host mods 8 8)

one_round :
    first_round
    ≡ ok (record { frames = round_frames first_round; next = go (next_walk first_round) after_one })
unfolding gen_reg trans_reg_type get_ops fast_dwarf_ops_eval dwarf_ops_eval eval_loop eval_kind
    kind_of finish reason_of find_kind dw_push dw_pop dwarf_round found_round module_round
    after_frame unwind_registers with_ra return_address with_sp with_bp write_bp advance get_regs
    write_regs lookup_elf_symbol is_stack_bottom_symbol frame_lookup_pc search_present
one_round = refl

Rounds-HasClimbed_example : HasClimbed host mods 2 8 (first_registers host mods 8 8) 1 after_one
Rounds-HasClimbed_example = Rounds-HasClimbed host mods 2 8 (
    another 0 walk (next_walk first_round) (first_registers host mods 8 8) after_one
      (round_frames first_round) none_yet one_round)
