-- ===== src/Snapshot.antt =====
-- include/gunwinder/unwinder_types.h: the caller's stack snapshot and its flag word; and the
-- register access of src/gu_unwinder.c. The register block is an array of longs, NULL is `none`.
-- The slot of each DWARF register in it, `regs[]`, comes from the offsets of the system's
-- struct pt_regs and is a parameter.
pub mod Flags
pub mod Registers
use libgunwinder.Base.{
  ℕ, ◌-◌, ◌*◌, ◌/◌, ◌%◌, ◌^◌, Bool, true, false, not, Option, none, some, List, bit_and, bit_or,
  ltb, ◌==◌, if◌then◌else◌, length, get_elem?, set,
}

pub record StackInfo : Type 0 where
  pub pid : ℕ
  pub unique_id : ℕ
  pub regs : Option (List ℕ)
  pub flags : ℕ
  pub ustack_fp : List ℕ
  pub ustack_fp_level : ℕ
  pub stack_size : ℕ
  pub stack_data : Option (List ℕ)

pub data UnwindFlag : Type 0 where
  hint_set_fp fp_allow_unknown : UnwindFlag

abbrev pub flag_bit : UnwindFlag → ℕ
flag_bit hint_set_fp = 1
flag_bit fp_allow_unknown = 2

unfoldable pub flags_set : StackInfo → UnwindFlag → StackInfo
flags_set info flag = record info { flags = bit_or info.flags (flag_bit flag) }

-- The mask has the 32 bits of the flag's type, so that the upper half is cleared as well.
unfoldable pub flags_clear : StackInfo → UnwindFlag → StackInfo
flags_clear info flag = record info { flags = bit_and info.flags (2 ^ 32 - 1 - flag_bit flag) }

unfoldable pub flags_is_set : StackInfo → UnwindFlag → Bool
flags_is_set info flag = not (bit_and info.flags (flag_bit flag) == 0)

pub data UnwindReason : Type 0 where
  ok no_regs no_elf no_cfi cfi_fail arch_fail process_exit lang_skip truncated : UnwindReason
  no_exec_pc cfi_frame_decode_failed cfi_frame_cfa_failed cfi_frame_cfa_calc_failed : UnwindReason
  end_of_stack stack_read_out_of_range no_progress unknown : UnwindReason

unfoldable pub reason_code : UnwindReason → ℕ
reason_code ok = 0
reason_code no_regs = 1
reason_code no_elf = 2
reason_code no_cfi = 3
reason_code cfi_fail = 4
reason_code arch_fail = 5
reason_code process_exit = 6
reason_code lang_skip = 7
reason_code truncated = 8
reason_code no_exec_pc = 9
reason_code cfi_frame_decode_failed = 10
reason_code cfi_frame_cfa_failed = 11
reason_code cfi_frame_cfa_calc_failed = 12
reason_code end_of_stack = 13
reason_code stack_read_out_of_range = 14
reason_code no_progress = 15
reason_code unknown = 255

abbrev pub reason_mask : ℕ
reason_mask = 255 * 2 ^ 16

unfoldable pub flags_reason : ℕ → ℕ
flags_reason flags = bit_and flags reason_mask / 2 ^ 16

unfoldable pub flags_set_reason : StackInfo → UnwindReason → StackInfo
unfolding reason_code
flags_set_reason info reason = record info {
  flags = bit_or (bit_and info.flags (2 ^ 64 - 1 - reason_mask)) (reason_code reason * 2 ^ 16);
}

-- An `int` register number is the low half of what the caller passes; a negative one is refused.
unfoldable pub get_regs : List ℕ → StackInfo → ℕ → Option ℕ
get_regs slots info regno = elim info.regs [
  | none ↦ none
  | some block ↦ elim (get_elem? slots (regno % 2 ^ 32)) [
    | none ↦ none
    | some slot ↦ get_elem? block slot
  ]
]

-- Whether the slot that `get_regs` and `write_regs` access lies in the register block, whose size
-- they do not check; they access none where they refuse the number.
unfoldable pub in_block : List ℕ → StackInfo → ℕ → Bool
in_block slots info regno = elim info.regs [
  | none ↦ true
  | some block ↦ elim (get_elem? slots (regno % 2 ^ 32)) [
    | none ↦ true
    | some slot ↦ ltb slot (length block)
  ]
]

-- The snapshot after the write, and whether it was made.
unfoldable pub write_regs : List ℕ → StackInfo → ℕ → ℕ → StackInfo × Bool
write_regs slots info regno val = elim info.regs [
  | none ↦ (info, false)
  | some block ↦ elim (get_elem? slots (regno % 2 ^ 32)) [
    | none ↦ (info, false)
    | some slot ↦ (record info { regs = some (set block slot val) }, true)
  ]
]
