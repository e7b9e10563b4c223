-- ===== src/Cfi/Parse.antt =====
-- `gu_cfi_parse_cfi_ex` and its parse cache. The scratch arrays `ops_arr` and `cfa_ops_info` are
-- lists of their first `ops_size` operations. A payload of the interval array is a pointer to a
-- frame description entry; `fde_at` is the memory behind it, with NULL as `none`.
pub mod Coherence
pub mod Sizes
use libgunwinder.Base.{
  ℕ, ◌-◌, ◌/◌, ◌^◌, Bool, true, false, Option, none, some, List, [], ◌∷◌, leb, ◌==◌, ◌&&◌, not,
  if◌then◌else◌, length, get_elem?, set, Run, ok, fail, fault, wild_pointer, ◌>>=◌, bit_and,
  bit_xor,
}
use libgunwinder.Interval
use libgunwinder.Interval.{IntervalArray, get_pointer}
use libgunwinder.Cfi.{Reg, rip, rbp, rsp, Row, CalcCtx, Cie}
use libgunwinder.Cfi.Program.{init_calc_ctx_by_ins}
use libgunwinder.Cfi.Ops.{Op, get_cfa_ops, get_regs_ops}

pub record Scratch : Type 0 where
  pub rip_ops : List Op
  pub rbp_ops : List Op
  pub rsp_ops : List Op
  pub cfa_ops : List Op

abbrev pub empty_scratch : Scratch
empty_scratch = record { rip_ops = []; rbp_ops = []; rsp_ops = []; cfa_ops = [] }

pub record Fde : Type 0 where
  pub cie : Option Cie
  pub start : ℕ
  pub instructions : List ℕ
  pub instructions_end : ℕ

pub record CacheEntry : Type 0 where
  pub pc : ℕ
  pub signal_frame : Bool
  pub scratch : Scratch

-- What decoding reads, and the cache; an entry that is not valid is `none`.
pub record Tables : Type 0 where
  pub hdr_interval_array : Option IntervalArray
  pub fde_at : ℕ → Option Fde
  pub cfi_data : List ℕ

pub record GuCfi : Type 0 where
  pub tables : Tables
  pub parse_cache : List (Option CacheEntry)

abbrev pub parse_cache_size : ℕ
parse_cache_size = 64

abbrev pub parse_cache_ops_max : ℕ
parse_cache_ops_max = 8

unfoldable pub parse_cache_index : ℕ → ℕ
parse_cache_index pc = bit_and (bit_xor (pc / 2 ^ 4) (pc / 2 ^ 12)) (parse_cache_size - 1)

abbrev pub ops_cacheable : List Op → Bool
ops_cacheable ops = leb (length ops) parse_cache_ops_max

-- The entry that a load copies back to the scratch arrays.
unfoldable pub parse_cache_load : List (Option CacheEntry) → ℕ → Option CacheEntry
parse_cache_load cache pc = elim (get_elem? cache (parse_cache_index pc)) [
  | none ↦ none
  | some none ↦ none
  | some (some entry) ↦ if entry.pc == pc then some entry else none
]

abbrev pub all_cacheable : Scratch → Bool
all_cacheable s =
    ops_cacheable s.cfa_ops
    && ops_cacheable s.rip_ops
    && ops_cacheable s.rbp_ops
    && ops_cacheable s.rsp_ops

unfoldable pub parse_cache_store :
    List (Option CacheEntry) → ℕ → Bool → Scratch → List (Option CacheEntry)
parse_cache_store cache pc signal_frame s =
    if all_cacheable s
    then set cache (parse_cache_index pc)
        (some (record { pc = pc; signal_frame = signal_frame; scratch = s }))
    else cache

-- The operations, or the others where they are NULL.
abbrev pub or_ops : Run (List Op) → List Op → Run (List Op)
or_ops (ok ops) other = ok ops
or_ops fail other = ok other
or_ops (fault e) other = fault e

-- The chain of rows is freed with the copy of the CIE's context, which still points to it: a chain
-- that is not empty is left behind as a wild pointer.
abbrev pub unshared : List Row → Run (List Row)
unshared [] = ok []
unshared (row ∷ r) = fault wild_pointer

-- The rows of the frame at `pc`, from the instructions of its entry.
unfoldable pub frame_row : Cie → Fde → ℕ → Run Row
frame_row cie fde pc = do
  prev ← unshared cie.prev
  ctx ←
      init_calc_ctx_by_ins cie false fde.instructions_end (record { row = cie.row; prev = prev })
        fde.instructions fde.start pc
  ok ctx.row

unfoldable pub row_ops : List ℕ → Row → Run Scratch
row_ops cfi_data row = do
  cfa ← get_cfa_ops row
  sp ← or_ops (get_regs_ops cfi_data row rsp) cfa
  ra ← or_ops (get_regs_ops cfi_data row rip) []
  bp ← or_ops (get_regs_ops cfi_data row rbp) []
  ok (record { rip_ops = ra; rbp_ops = bp; rsp_ops = sp; cfa_ops = cfa })

abbrev pub found_fde : Tables → ℕ → Run (Cie × Fde)
found_fde t p = elim (t.fde_at (get_pointer p)) [
  | none ↦ fail
  | some fde ↦ elim fde.cie [ none ↦ fail | some cie ↦ ok (cie, fde) ]
]

-- The work behind a cache miss: the operations of the frame, and whether it is a signal frame.
unfoldable pub decode_frame : Tables → ℕ → Run (Scratch × Bool)
decode_frame t pc = elim t.hdr_interval_array [
  | none ↦ fail
  | some array ↦ Interval.search false (some array) pc >>= λ r. elim r.index [
    | none ↦ fail
    | some i ↦ found_fde t r.item.private >>= λ f.
        frame_row f.0 f.1 pc >>= λ row. row_ops t.cfi_data row >>= λ s. ok (s, f.0.signal_frame)
  ]
]

-- The cache afterwards, and what the scratch arrays and `*signal_frame` hold after a return of 0.
-- After any other return the scratch arrays are empty.
unfoldable pub parse_cfi_ex : GuCfi → ℕ → GuCfi × Run (Scratch × Bool)
parse_cfi_ex cfi pc = elim (parse_cache_load cfi.parse_cache pc) [
  | some entry ↦ (cfi, ok (entry.scratch, entry.signal_frame))
  | none ↦ elim (decode_frame cfi.tables pc) [
    | ok (s, signal) ↦
        (record cfi { parse_cache = parse_cache_store cfi.parse_cache pc signal s }, ok (s, signal))
    | fail ↦ (cfi, fail)
    | fault e ↦ (cfi, fault e)
  ]
]

-- `gu_cfi_get_ops`: without a rule for the stack pointer the frame address stands in.
unfoldable pub get_ops : Scratch → Option Reg → Bool → Option (List Op)
get_ops s none cfa = none
get_ops s (some r) true = some s.cfa_ops
get_ops s (some rip) false = some s.rip_ops
get_ops s (some rbp) false = some s.rbp_ops
get_ops s (some rsp) false = some (if length s.rsp_ops == 0 then s.cfa_ops else s.rsp_ops)
