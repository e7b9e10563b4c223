-- ===== src/Expr.antt =====
-- The DWARF expression evaluator of src/gu_unwinder.c. This file has the operations by kind, the
-- arithmetic on 64-bit words and the reads of the stack snapshot; Evaluate has the evaluator. The
-- evaluation stack is a list, its top first. Register slots, the page size and libc's bsearch are
-- a parameter.
pub mod Evaluate
pub mod Fast
pub mod Reads
pub mod Steps
pub mod Depth
pub mod Ends
use libgunwinder.Base.{
  ℕ, zero, suc, ◌+◌, ◌-◌, ◌*◌, ◌/◌, ◌%◌, ◌^◌, Bool, true, false, ◌&&◌, ◌||◌, Option, none, some,
  List, [], ◌∷◌, bit_and, bit_or, bit_xor, ltb, leb, ◌==◌, if◌then◌else◌, length, drop, Run, ok,
  fail, fault, Fault, past_end, overflow,
}
use libgunwinder.Base.Words.{add64, sub64, mul64}
use libgunwinder.Snapshot.{StackInfo}
use libgunwinder.Decode.{read_le}
use libgunwinder.Cfi.Ops.{Op}

-- `bsearch ops key` is the index that libc's bsearch finds for an offset in the operations.
pub record System : Type 0 where
  pub slots : List ℕ
  pub page_size : ℕ
  pub bsearch : List Op → ℕ → Option ℕ

-- What a failed evaluation leaves behind: the `stack_read_out_of_range*` variables, once set.
pub record OutOfRange : Type 0 where
  pub addr : ℕ
  pub start : ℕ
  pub last : ℕ
  pub raw_sp : ℕ

pub data Eval {ℓ} (A : Type ℓ) : Type ℓ where
  value : A → Eval A
  failed : Option OutOfRange → Eval A
  broken : Fault → Eval A

infixl 5 ◌>>=◌
abbrev pub ◌>>=◌ {ℓ κ} : {A : Type ℓ} {B : Type κ} → Eval A → (A → Eval B) → Eval B
value a >>= f = f a
failed o >>= f = failed o
broken e >>= f = broken e

-- `goto failed` unless there is a value.
abbrev pub need {ℓ} : {A : Type ℓ} → Option A → Eval A
need none = failed none
need (some a) = value a

pub data Unary : Type 0 where
  abs neg not plus_uconst : Unary

pub data Binary : Type 0 where
  and div modulo minus xor shr shl plus or mul shra le ge eq lt gt ne : Binary

pub data Shuffle : Type 0 where
  dup drop_top over pick swap rot : Shuffle

pub data Kind : Type 0 where
  lit reg breg : ℕ → Kind
  address constant regx bregx deref deref_size bra skip nop call_frame_cfa stack_value bad : Kind
  shuffle : Shuffle → Kind
  unary : Unary → Kind
  binary : Binary → Kind

-- The case labels of the switch by operation code; a range counts from its first code.
abbrev pub kind_table : List (ℕ × ℕ × (ℕ → Kind))
kind_table =
    (0x30, 0x4f, λ n. lit n)
    ∷ (0x50, 0x6f, λ n. reg n)
    ∷ (0x70, 0x8f, λ n. breg n)
    ∷ (0x03, 0x03, λ n. address)
    ∷ (0x08, 0x11, λ n. constant)
    ∷ (0x90, 0x90, λ n. regx)
    ∷ (0x92, 0x92, λ n. bregx)
    ∷ (0x12, 0x12, λ n. shuffle dup)
    ∷ (0x13, 0x13, λ n. shuffle drop_top)
    ∷ (0x15, 0x15, λ n. shuffle pick)
    ∷ (0x14, 0x14, λ n. shuffle over)
    ∷ (0x16, 0x16, λ n. shuffle swap)
    ∷ (0x17, 0x17, λ n. shuffle rot)
    ∷ (0x06, 0x06, λ n. deref)
    ∷ (0x94, 0x94, λ n. deref_size)
    ∷ (0x19, 0x19, λ n. unary abs)
    ∷ (0x1f, 0x1f, λ n. unary neg)
    ∷ (0x20, 0x20, λ n. unary not)
    ∷ (0x23, 0x23, λ n. unary plus_uconst)
    ∷ (0x1a, 0x1a, λ n. binary and)
    ∷ (0x1b, 0x1b, λ n. binary div)
    ∷ (0x1d, 0x1d, λ n. binary modulo)
    ∷ (0x1c, 0x1c, λ n. binary minus)
    ∷ (0x27, 0x27, λ n. binary xor)
    ∷ (0x25, 0x25, λ n. binary shr)
    ∷ (0x24, 0x24, λ n. binary shl)
    ∷ (0x22, 0x22, λ n. binary plus)
    ∷ (0x21, 0x21, λ n. binary or)
    ∷ (0x1e, 0x1e, λ n. binary mul)
    ∷ (0x26, 0x26, λ n. binary shra)
    ∷ (0x2c, 0x2c, λ n. binary le)
    ∷ (0x2a, 0x2a, λ n. binary ge)
    ∷ (0x29, 0x29, λ n. binary eq)
    ∷ (0x2d, 0x2d, λ n. binary lt)
    ∷ (0x2b, 0x2b, λ n. binary gt)
    ∷ (0x2e, 0x2e, λ n. binary ne)
    ∷ (0x28, 0x28, λ n. bra)
    ∷ (0x2f, 0x2f, λ n. skip)
    ∷ (0x96, 0x96, λ n. nop)
    ∷ (0x9c, 0x9c, λ n. call_frame_cfa)
    ∷ (0x9f, 0x9f, λ n. stack_value)
    ∷ []

unfoldable pub find_kind : List (ℕ × ℕ × (ℕ → Kind)) → ℕ → Kind
find_kind [] atom = bad
find_kind ((lo, hi, k) ∷ r) atom =
    if leb lo atom && leb atom hi then k (atom - lo) else find_kind r atom

abbrev pub kind_of : ℕ → Kind
kind_of atom = find_kind kind_table atom

-- A 64-bit pattern in the order of the signed numbers.
abbrev pub signed_order : ℕ → ℕ
signed_order v = add64 v (2 ^ 63)

abbrev pub negative : ℕ → Bool
negative v = leb (2 ^ 63) v

unfoldable pub eval_unary : Unary → ℕ → ℕ → Eval ℕ
eval_unary abs number v =
    if v == 2 ^ 63 then broken overflow else if negative v then value (2 ^ 64 - v) else value v
eval_unary neg number v = if v == 2 ^ 63 then broken overflow else value (sub64 0 v)
eval_unary not number v = value (2 ^ 64 - 1 - v)
eval_unary plus_uconst number v = value (add64 v number)

-- `(int64_t)a / (int64_t)b`, towards zero.
unfoldable pub signed_div : ℕ → ℕ → ℕ
signed_div a b =
    let p = (if negative a then 2 ^ 64 - a else a) in
    let q = (if negative b then 2 ^ 64 - b else b) in
    if negative a
    then (if negative b then p / q else sub64 0 (p / q))
    else if negative b
    then sub64 0 (p / q)
    else p / q

abbrev pub bit : Bool → ℕ
bit true = 1
bit false = 0

-- `a` is val1, the lower operand, and `b` val2, the top of the stack.
unfoldable pub eval_binary : Binary → ℕ → ℕ → Option ℕ
eval_binary and a b = some (bit_and a b)
eval_binary div a b =
    if b == 0
    then none
    else if (a == 2 ^ 63) && (b == 2 ^ 64 - 1)
    then none
    else some (signed_div a b)
eval_binary modulo a b = if b == 0 then none else some (a % b)
eval_binary minus a b = some (sub64 a b)
eval_binary xor a b = some (bit_xor a b)
eval_binary shr a b = if leb 64 b then none else some (a / 2 ^ b)
eval_binary shl a b = if leb 64 b then none else some (mul64 a (2 ^ b))
eval_binary plus a b = some (add64 a b)
eval_binary or a b = some (bit_or a b)
eval_binary mul a b = some (mul64 a b)
eval_binary shra a b =
    if leb 64 b
    then none
    else some (if negative a then a / 2 ^ b + 2 ^ 64 - 2 ^ (64 - b) else a / 2 ^ b)
eval_binary le a b = some (bit (leb (signed_order a) (signed_order b)))
eval_binary ge a b = some (bit (leb (signed_order b) (signed_order a)))
eval_binary eq a b = some (bit (a == b))
eval_binary lt a b = some (bit (ltb (signed_order a) (signed_order b)))
eval_binary gt a b = some (bit (ltb (signed_order b) (signed_order a)))
eval_binary ne a b = some (1 - bit (a == b))

abbrev pub dw_eval_stack_size : ℕ
dw_eval_stack_size = 256

abbrev pub dw_eval_steps_max : ℕ
dw_eval_steps_max = 4096

unfoldable pub dw_push : List ℕ → ℕ → Option (List ℕ)
dw_push stack val = if leb dw_eval_stack_size (length stack) then none else some (val ∷ stack)

unfoldable pub dw_pop : List ℕ → Option (ℕ × List ℕ)
dw_pop [] = none
dw_pop (val ∷ stack) = some (val, stack)

-- Eight bytes of the snapshot; a read past its bytes is a fault.
unfoldable pub load_word : Option (List ℕ) → ℕ → Eval ℕ
load_word none at_byte = broken past_end
load_word (some bytes) at_byte = elim (read_le 8 (drop at_byte bytes)) [
  | ok (v, rest) ↦ value v
  | fail ↦ broken past_end
  | fault e ↦ broken e
]

unfoldable pub read_addr : Option (List ℕ) → ℕ → ℕ → ℕ → ℕ → Eval ℕ
read_addr stack stack_start stack_end raw_sp addr =
    let outside =
      ltb addr stack_start
      || leb stack_end addr
      || ltb (add64 addr 8) addr
      || ltb (sub64 stack_end addr) 8 in
    if outside
    then failed
        (some (record { addr = addr; start = stack_start; last = stack_end; raw_sp = raw_sp }))
    else load_word stack (addr - stack_start)

unfoldable pub read_addr_from_info : System → StackInfo → ℕ → ℕ → Eval ℕ
read_addr_from_info sys info raw_sp addr =
    let stack_start = raw_sp - raw_sp % sys.page_size in
    read_addr info.stack_data stack_start (add64 stack_start info.stack_size) raw_sp addr
