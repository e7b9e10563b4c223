-- ===== src/Decode.antt =====
-- The pointer and LEB128 decoding of src/gu_cfi_helper.c. A pointer into a buffer is the list of
-- the bytes from it to the end of the buffer; a read past them is a fault. Multi-byte reads are
-- little-endian, as on the machines that the library supports.
pub mod Bounds
pub mod Leb
use libgunwinder.Base.{
  ℕ, zero, suc, ◌+◌, ◌-◌, ◌*◌, ◌/◌, ◌%◌, ◌^◌, Bool, true, false, ◌||◌, List, [], ◌∷◌, bit_and,
  bit_or, ltb, leb, ◌==◌, if◌then◌else◌, length, drop, Run, ok, fail, fault, past_end, bad_shift,
  ◌>>=◌, ◌>>◌, check,
}

-- The value formats of `DW_EH_PE_*`, by the low four bits of an encoding byte.
pub data Format : Type 0 where
  uleb128 sleb128 udata2 udata4 udata8 sdata2 sdata4 sdata8 absptr no_format : Format

abbrev pub pe_omit : ℕ
pe_omit = 0xff

unfoldable pub format_of : ℕ → Format
format_of type =
    let low = bit_and type 0xf in
    if low == 0x01
    then uleb128
    else if low == 0x09
    then sleb128
    else if low == 0x02
    then udata2
    else if low == 0x0a
    then sdata2
    else if low == 0x03
    then udata4
    else if low == 0x0b
    then sdata4
    else if low == 0x04
    then udata8
    else if low == 0x0c
    then sdata8
    else if low == 0x00
    then absptr
    else no_format

-- The loop runs `count` more times. The shifted value is an `int`: a shift by 32 or more, or a
-- value that does not fit, is undefined.
unfoldable pub uleb_loop : ℕ → List ℕ → ℕ → ℕ → Run (ℕ × List ℕ)
uleb_loop zero bytes shift result = ok (result, bytes)
uleb_loop (suc count) [] shift result = fault past_end
uleb_loop (suc count) (b ∷ r) shift result =
    let value = b % 128 * 2 ^ shift in
    let rest = uleb_loop count r (shift + 7) (bit_or result value) in
    if leb 32 shift || leb (2 ^ 31) value
    then fault bad_shift
    else if ltb b 128
    then ok (bit_or result value, r)
    else rest

unfoldable pub decode_uleb128 : List ℕ → Run (ℕ × List ℕ)
decode_uleb128 bytes = uleb_loop 8 bytes 0 0

-- `result |= ~0 << (shift + 7)` when bit 6 of the last byte is set.
unfoldable pub sign_fill : ℕ → ℕ → ℕ → Run ℕ
sign_fill last shift result =
    if leb 64 (last % 128)
    then (if leb 64 (shift + 7)
        then fault bad_shift
        else ok (bit_or result (2 ^ 64 - 2 ^ (shift + 7))))
    else ok result

unfoldable pub sleb_loop : ℕ → List ℕ → ℕ → ℕ → ℕ → Run (ℕ × List ℕ)
sleb_loop zero bytes last shift result = do v ← sign_fill last shift result; ok (v, bytes)
sleb_loop (suc count) [] last shift result = fault past_end
sleb_loop (suc count) (b ∷ r) last shift result =
    let value = bit_or result (b % 128 * 2 ^ shift % 2 ^ 64) in
    let rest = sleb_loop count r b (shift + 7) value in
    if ltb b 128 then (do v ← sign_fill b shift value; ok (v, r)) else rest

unfoldable pub decode_sleb128 : List ℕ → Run (ℕ × List ℕ)
decode_sleb128 bytes = sleb_loop 10 bytes 0 0 0

-- `*((uintN_t *)buf)` for N = 8 n.
unfoldable pub read_le : ℕ → List ℕ → Run (ℕ × List ℕ)
read_le zero bytes = ok (0, bytes)
read_le (suc n) [] = fault past_end
read_le (suc n) (b ∷ r) = do (v, rest) ← read_le n r; ok (b % 256 + 256 * v, rest)

-- A signed value of n bytes, widened to the 64-bit pattern.
unfoldable pub sign_extend : ℕ → ℕ → ℕ
sign_extend n v = if ltb v (2 ^ (8 * n - 1)) then v else v + 2 ^ 64 - 2 ^ (8 * n)

unfoldable pub read_signed : ℕ → List ℕ → Run (ℕ × List ℕ)
read_signed n bytes = do (v, rest) ← read_le n bytes; ok (sign_extend n v, rest)

unfoldable pub decode_read : Format → List ℕ → Run (ℕ × List ℕ)
decode_read uleb128 bytes = decode_uleb128 bytes
decode_read sleb128 bytes = decode_sleb128 bytes
decode_read udata2 bytes = read_le 2 bytes
decode_read udata4 bytes = read_le 4 bytes
decode_read udata8 bytes = read_le 8 bytes
decode_read absptr bytes = read_le 8 bytes
decode_read sdata2 bytes = read_signed 2 bytes
decode_read sdata4 bytes = read_signed 4 bytes
decode_read sdata8 bytes = read_signed 8 bytes
decode_read no_format bytes = fail

-- A byte without the continuation bit among the first `count`.
unfoldable pub has_last_byte : ℕ → List ℕ → Bool
has_last_byte zero bytes = false
has_last_byte (suc count) [] = false
has_last_byte (suc count) (b ∷ r) = ltb b 128 || has_last_byte count r

unfoldable pub decode_read_fits : Format → List ℕ → Bool
decode_read_fits uleb128 bytes = has_last_byte 8 bytes
decode_read_fits sleb128 bytes = has_last_byte 10 bytes
decode_read_fits udata2 bytes = leb 2 (length bytes)
decode_read_fits sdata2 bytes = leb 2 (length bytes)
decode_read_fits udata4 bytes = leb 4 (length bytes)
decode_read_fits sdata4 bytes = leb 4 (length bytes)
decode_read_fits udata8 bytes = leb 8 (length bytes)
decode_read_fits sdata8 bytes = leb 8 (length bytes)
decode_read_fits absptr bytes = leb 8 (length bytes)
decode_read_fits no_format bytes = false

-- The pointer after the value cannot lie past the end: it is the rest of the list.
unfoldable pub decode_read_checked : Format → List ℕ → Run (ℕ × List ℕ)
decode_read_checked format bytes = do
  check (decode_read_fits format bytes)
  decode_read format bytes

-- The number of bytes of a value; the buffer is not bounded here.
unfoldable pub get_encoding_size : ℕ → List ℕ → Run ℕ
get_encoding_size type bytes = if type == pe_omit then ok 0 else elim (format_of type) [
  | uleb128 ↦ do (v, rest) ← decode_uleb128 bytes; ok (length bytes - length rest)
  | sleb128 ↦ do (v, rest) ← decode_sleb128 bytes; ok (length bytes - length rest)
  | udata2 ↦ ok 2
  | sdata2 ↦ ok 2
  | udata4 ↦ ok 4
  | sdata4 ↦ ok 4
  | udata8 ↦ ok 8
  | sdata8 ↦ ok 8
  | absptr ↦ ok 8
  | no_format ↦ ok 0
]

-- `buf += len`; the result is a pointer into the bytes or to their end.
unfoldable pub move_on : ℕ → List ℕ → Run (List ℕ)
move_on len bytes = if leb len (length bytes) then ok (drop len bytes) else fault past_end

-- `block_fits`.
unfoldable pub block_fits : ℕ → List ℕ → Bool
block_fits len bytes = leb len (length bytes)

-- `block_fits`, and the pointer behind the block.
unfoldable pub skip_block : ℕ → List ℕ → Run (List ℕ)
skip_block len bytes = do check (block_fits len bytes); move_on len bytes
