-- ===== src/Tests/Frames.antt =====
-- Parses and evaluations at concrete inputs.
use libgunwinder.Base.{
  ℕ, ◌≡◌, ◌≢◌, refl, true, false, none, some, Option, List, [], ◌∷◌, arith, ◌^◌, ◌-◌, replicate,
  ◌==◌, if◌then◌else◌, zero, suc, deep,
}
use libgunwinder.Snapshot.{StackInfo}
use mathlib.Core.Path.{subst}
use libgunwinder.Interval.{IntervalArray, u32}
use libgunwinder.Cfi.{trans_reg_type, Row, Cie, zero_row, reg_plus, make_rule, offset}
use libgunwinder.Cfi.Ops.{Op}
use libgunwinder.Cfi.Parse.{Scratch, Tables, GuCfi, Fde, parse_cfi_ex, decode_frame, get_ops}
use libgunwinder.Cfi.Parse.Coherence.{AllDecoded, parse_cfi_ex-decode_frame}
use libgunwinder.Expr.{System, broken, kind_of, find_kind, call_frame_cfa}
use libgunwinder.Expr.Evaluate.{Frame, dwarf_ops_eval, gen_reg, reason_of}
use libgunwinder.Expr.Fast.{gen_reg-dwarf_ops_eval}
use libgunwinder.Expr.Reads.{Sound, Any, HasData, HasSlots}
use libgunwinder.Expr.Ends.{IsCallFree, dwarf_ops_eval-Sound, dwarf_ops_eval-endless}

-- The first operation at an offset.
abbrev first_at : List Op → ℕ → Option ℕ
first_at [] key = none
first_at (o ∷ r) key =
    if o.position == key
    then some 0
    else elim (first_at r key) [ none ↦ none | some i ↦ some (suc i) ]

abbrev pub system : System
system = record {
  slots = 10 ∷ 11 ∷ 12 ∷ 5 ∷ 14 ∷ 13 ∷ 4 ∷ 19 ∷ [];
  page_size = 4096;
  bsearch = first_at;
}

abbrev snapshot : StackInfo
snapshot = record {
  pid = 7;
  unique_id = 1;
  regs = some (replicate 21 8192);
  flags = 0;
  ustack_fp = [];
  ustack_fp_level = 0;
  stack_size = 16;
  stack_data = some (replicate 16 1);
}

abbrev op : ℕ → ℕ → Op
op atom number = record { atom = atom; number = number; number2 = 0; position = 0 }

-- The frame address is register 7 plus 8; the return address is saved just below it.
abbrev scratch : Scratch
scratch = record {
  rip_ops = op 0x9c 0 ∷ op 0x23 (2 ^ 64 - 8) ∷ [];
  rbp_ops = [];
  rsp_ops = [];
  cfa_ops = op 0x77 8 ∷ [];
}

abbrev frame : Frame
frame = record { info = snapshot; raw_sp = 8192; bias = 0; scratch = scratch }

snapshot-HasData : HasData system snapshot 8192
snapshot-HasData = (replicate 16 1, refl, refl, omega arith)

abbrev NoCall : Option Op → Type 0
NoCall none = Unit
NoCall (some o) = kind_of o.atom ≢ call_frame_cfa

register_op-NoCall : NoCall (some (op 0x77 8))
unfolding find_kind
register_op-NoCall k = cc

scratch-IsCallFree : IsCallFree scratch.cfa_ops
scratch-IsCallFree zero o e k = subst NoCall e register_op-NoCall k
scratch-IsCallFree (suc i) o e k = absurd (ground arith)

snapshot-HasSlots : HasSlots system.slots frame.info.regs
snapshot-HasSlots = (
  omega arith,
  (
    omega arith,
    (omega arith, (omega arith, (omega arith, (omega arith, (omega arith, (omega arith, tt)))))),
  ),
)

dwarf_ops_eval-Sound_example : Sound Any (dwarf_ops_eval 2 system frame scratch.rip_ops)
dwarf_ops_eval-Sound_example =
    dwarf_ops_eval-Sound 0 system frame scratch.rip_ops snapshot-HasData snapshot-HasSlots
      scratch-IsCallFree

gen_reg-dwarf_ops_eval_example :
    gen_reg 1 system frame 16 ≡ reason_of (dwarf_ops_eval 2 system frame scratch.rip_ops)
unfolding trans_reg_type get_ops
gen_reg-dwarf_ops_eval_example = gen_reg-dwarf_ops_eval 0 system frame 16 scratch.rip_ops refl

-- An expression for the frame address that asks for the frame address.
abbrev circular : Frame
circular = record frame { scratch = record scratch { cfa_ops = op 0x9c 0 ∷ [] } }

dwarf_ops_eval-endless_example :
    dwarf_ops_eval 9 system circular circular.scratch.cfa_ops ≡ broken deep
unfolding find_kind
dwarf_ops_eval-endless_example = dwarf_ops_eval-endless 9 system circular (op 0x9c 0) [] refl refl

abbrev row : Row
row = record zero_row { cfa = reg_plus 7 8; rip_rule = make_rule offset (2 ^ 64 - 8) }

abbrev cie : Cie
cie = record {
  code_alignment_factor = 1;
  data_alignment_factor = 2 ^ 64 - 8;
  fde_encoding = 27;
  lsda_encoding = 255;
  fde_augmentation_data_size = 0;
  sized_augmentation_data = true;
  signal_frame = false;
  initial_instructions = [];
  initial_end = 0;
  row = row;
  prev = [];
}

abbrev entry : Fde
entry = record {
  cie = some cie;
  start = 100;
  instructions = 0x41 ∷ 0x0e ∷ 16 ∷ [];
  instructions_end = 0;
}

abbrev entries : IntervalArray
entries = record {
  items_u32 = some (record { start = 100; end = 200; private = 77 } ∷ []);
  items_u64 = none;
  count = 1;
  type = u32;
  min = 100;
  max = 200;
}

abbrev tables : Tables
tables = record {
  hdr_interval_array = some entries;
  fde_at = λ p. if p == 77 then some entry else none;
  cfi_data = [];
}

abbrev cold : GuCfi
cold = record { tables = tables; parse_cache = replicate 64 none }

parse_cfi_ex-decode_frame_example :
    ((parse_cfi_ex cold 150).1 ≡ decode_frame tables 150)
    × AllDecoded tables (parse_cfi_ex cold 150).0.parse_cache
    × ((parse_cfi_ex cold 150).0.tables ≡ tables)
parse_cfi_ex-decode_frame_example = parse_cfi_ex-decode_frame cold 150 tt
