-- ===== src/Cfi.antt =====
-- src/gu_cfi_helper.h and src/gu_cfi_helper.c: the rows of call frame information, on x86-64.
-- The codes of registers, of `DW_CFA_*` and of `DW_EH_PE_*` are those of the DWARF standard.
pub mod Program
pub mod Rows
pub mod Remember
pub mod Ops
pub mod Parse
pub mod Entry
use libgunwinder.Base.{
  ℕ, ◌+◌, ◌-◌, ◌%◌, ◌^◌, Option, none, some, List, [], ◌∷◌, ltb, ◌==◌, if◌then◌else◌, Bool,
}

pub data Reg : Type 0 where
  rip rbp rsp : Reg

-- `regno` is passed as an `int`.
unfoldable pub trans_reg_type : ℕ → Option Reg
trans_reg_type regno =
    let n = regno % 2 ^ 32 in
    if n == 7 then some rsp else if n == 16 then some rip else if n == 6 then some rbp else none

pub data FrameRule : Type 0 where
  unspecified undefined same_value offset val_offset register expression val_expression : FrameRule

-- The value is a bit field of 61 bits; it is read back with its sign.
pub record RegRule : Type 0 where
  pub rule : FrameRule
  pub value : ℕ

unfoldable pub make_rule : FrameRule → ℕ → RegRule
make_rule rule value = record { rule = rule; value = value % 2 ^ 61 }

unfoldable pub rule_value : RegRule → ℕ
rule_value r = if ltb r.value (2 ^ 60) then r.value else r.value + 2 ^ 64 - 2 ^ 61

-- `cfa_rule` with `cfa_data`. A block is its bytes. In libdw's structures the `number` of an
-- operation takes the bytes of the data pointer of a block: `overwritten` is a block of that
-- length whose pointer was replaced so.
pub data CfaRule : Type 0 where
  no_cfa : CfaRule
  reg_plus : ℕ → ℕ → CfaRule
  expr : List ℕ → CfaRule
  overwritten : ℕ → CfaRule

pub record Row : Type 0 where
  pub cfa : CfaRule
  pub rip_rule : RegRule
  pub rbp_rule : RegRule
  pub rsp_rule : RegRule

unfoldable pub get_rule : Row → Reg → RegRule
get_rule row rip = row.rip_rule
get_rule row rbp = row.rbp_rule
get_rule row rsp = row.rsp_rule

unfoldable pub set_rule : Row → Reg → RegRule → Row
set_rule row rip r = record row { rip_rule = r }
set_rule row rbp r = record row { rbp_rule = r }
set_rule row rsp r = record row { rsp_rule = r }

-- struct gu_cfi_calc_ctx: the row under construction and the chain of remembered ones.
pub record CalcCtx : Type 0 where
  pub row : Row
  pub prev : List Row

abbrev pub no_rule : RegRule
no_rule = record { rule = unspecified; value = 0 }

abbrev pub zero_row : Row
zero_row = record { cfa = no_cfa; rip_rule = no_rule; rbp_rule = no_rule; rsp_rule = no_rule }

-- The factors are 64-bit patterns; the data factor is signed.
pub record Cie : Type 0 where
  pub code_alignment_factor : ℕ
  pub data_alignment_factor : ℕ
  pub fde_encoding : ℕ
  pub lsda_encoding : ℕ
  pub fde_augmentation_data_size : ℕ
  pub sized_augmentation_data : Bool
  pub signal_frame : Bool
  pub initial_instructions : List ℕ
  pub initial_end : ℕ
  pub row : Row
  pub prev : List Row
