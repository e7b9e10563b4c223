-- ===== src/Unwind/Tail/Reads.antt =====
-- The whole tail of src/gu_stacktrace.c on a snapshot that has its bytes.
use libgunwinder.Base.{
  ℕ, suc, ◌+◌, ◌-◌, ◌%◌, ◌^◌, ◌≡◌, ◌≤◌, ◌<◌, refl, ap, sym, ◌⊎◌, inl, inr, Bool, true, false, ◌||◌,
  Option, none, some, List, [], ◌∷◌, ltb, leb, if◌then◌else◌, length, drop, length-drop, arith,
  ◌>>=◌, ok, Settles, Settles-then, Settles-mono, IsCalm, Bool-cases, Fault,
}
use mathlib.Core.Path.{subst}
use libgunwinder.Base.Words.{add64, sub64}
use libgunwinder.Snapshot.{StackInfo}
use libgunwinder.Decode.{read_le}
use libgunwinder.Expr.Reads.{HasData, read_le-ok}
use libgunwinder.Unwind.{
  Walk, Modules, Host, FrameRecord, snapshot_word, stack_snapshot_read_u64, max_fp_stack_level,
}
use libgunwinder.Unwind.Tail.{
  Tailed, append_pc_frame, after_append, go_on, StackReader, tail_loop, unwind_tail,
}
use libgunwinder.Unwind.Tail.Chain.{
  FpChain, pcs, IsReliable, FrameAt, Follows, append_pc_frame-FrameAt, tail_loop-Follows,
}
use libgunwinder.Expr.{System}

read_le-IsCalm :
    (bytes : List ℕ) (k : ℕ)
    → k + 8 ≤ length bytes
    → IsCalm (read_le 8 (drop k bytes) >>= λ p. ok p.0)
read_le-IsCalm bytes k h =
    let (p, e) = read_le-ok 8 (drop k bytes) (omega (arith, length-drop k bytes)) in rw e tt

snapshot_word-IsCalm :
    (bytes : List ℕ) (first size addr : ℕ)
    → length bytes ≡ size
    → first + size < 2 ^ 64
    → IsCalm (snapshot_word bytes first (add64 first size) addr)
unfolding snapshot_word
snapshot_word-IsCalm bytes first size addr len fits =
    let last = add64 first size in
    elim (Bool-cases
      (ltb addr first || leb last addr || ltb (add64 addr 8) addr || ltb (sub64 last addr) 8)) [
        | inl out ↦ rw out tt
        | inr within ↦ rw within (read_le-IsCalm bytes (addr - first) (ground arith))
      ]

snapshot_bytes :
    (sys : System) (info : StackInfo) (raw_sp addr : ℕ) (bytes : List ℕ)
    → info.stack_data ≡ some bytes
    → stack_snapshot_read_u64 sys info raw_sp addr
      ≡ snapshot_word bytes
          (raw_sp - raw_sp % sys.page_size)
          (add64 (raw_sp - raw_sp % sys.page_size) info.stack_size)
          addr
unfolding stack_snapshot_read_u64
snapshot_bytes sys info raw_sp addr bytes e = rw (stack_snapshot_read_u64, e) refl

pub stack_snapshot_read_u64-IsCalm :
    (sys : System) (info : StackInfo) (raw_sp addr : ℕ)
    → HasData sys info raw_sp
    → IsCalm (stack_snapshot_read_u64 sys info raw_sp addr)
stack_snapshot_read_u64-IsCalm sys info raw_sp addr (bytes, e, len, fits) =
    subst IsCalm (sym (snapshot_bytes sys info raw_sp addr bytes e))
      (snapshot_word-IsCalm bytes (raw_sp - raw_sp % sys.page_size) info.stack_size addr len fits)

module _ {S : Type 0} (host : Host) (mods : Modules S) (bad : Fault → Type 0)
    (reliable : IsReliable bad mods) (w : Walk S) (raw_sp bp pc : ℕ)
    (has_data : HasData host.system w.info raw_sp) where
  abbrev pub reader : StackReader
  reader = stack_snapshot_read_u64 host.system w.info raw_sp

  -- The frames of a tail: a chain of frame pointers, behind the address itself if that was asked for.
  abbrev pub IsTail : Bool → Tailed S → Type 0
  IsTail append_current_pc t =
      (rest : List ℕ) × FpChain reader bp rest
      × ((pcs t.frames ≡ rest) ⊎ ((append_current_pc ≡ true) × (pcs t.frames ≡ pc ∷ rest)))
      × (length rest ≤ max_fp_stack_level)

  length-pcs : (fs : List FrameRecord) → length (pcs fs) ≡ length fs
  length-pcs [] = refl
  length-pcs (f ∷ r) = ap suc (length-pcs r)

  calm : (a : ℕ) → IsCalm (reader a)
  calm a = stack_snapshot_read_u64-IsCalm host.system w.info raw_sp a has_data

  followed :
      (b : Bool) (w₁ : Walk S)
      → Settles bad (IsTail b) (tail_loop host mods reader max_fp_stack_level w₁ bp)
  followed b w₁ =
      Settles-mono bad (Follows host mods bad reliable reader calm max_fp_stack_level bp) (IsTail b)
        (tail_loop host mods reader max_fp_stack_level w₁ bp)
        (λ t h. (pcs t.frames, h.0, inl refl, omega (arith, length-pcs t.frames, h.1)))
        (tail_loop-Follows host mods bad reliable reader calm max_fp_stack_level w₁ bp)

  went_on :
      (w₁ : Walk S) (o : Option (FrameRecord × Bool))
      → FrameAt host mods bad reliable pc (record { walk = w₁; frame = o })
      → Settles bad
          (IsTail true)
          (go_on (λ w₂. tail_loop host mods reader max_fp_stack_level w₂ bp) w₁ o)
  unfolding go_on after_append
  went_on w₁ none at_pc = followed true w₁
  went_on w₁ (some (f, true)) at_pc =
      ([], FpChain.done bp, inr (refl, ap (λ (q : ℕ). q ∷ []) at_pc), omega arith)
  went_on w₁ (some (f, false)) at_pc =
      Settles-then bad (Follows host mods bad reliable reader calm max_fp_stack_level bp)
        (IsTail true) (tail_loop host mods reader max_fp_stack_level w₁ bp) _
        (tail_loop-Follows host mods bad reliable reader calm max_fp_stack_level w₁ bp)
        (λ t h. (
          pcs t.frames,
          h.0,
          inr (refl, ap (λ (q : ℕ). q ∷ pcs t.frames) at_pc),
          omega (arith, length-pcs t.frames, h.1),
        ))

  appended :
      (b : Bool)
      → Settles bad (IsTail b) (
          if b
          then (append_pc_frame host mods w pc true false >>= λ a.
              go_on (λ w₁. tail_loop host mods reader max_fp_stack_level w₁ bp) a.walk a.frame)
          else tail_loop host mods reader max_fp_stack_level w bp)
  appended true =
      Settles-then bad (FrameAt host mods bad reliable pc) (IsTail true)
        (append_pc_frame host mods w pc true false) _
        (append_pc_frame-FrameAt host mods bad reliable w pc true false)
        (λ a at_pc. went_on a.walk a.frame at_pc)
  appended false = followed false w

  -- For any kinds of faults among which is a read through NULL: if the searches for a process that
  -- there is, the symbol lookups and the parses end or stop at a fault of these kinds, and the
  -- snapshot holds as many bytes as its size says, below 2^64, then following frame pointers
  -- returns or stops at a fault of these kinds. If it returns, its frames are a chain: each frame
  -- pointer is a multiple of 8 and lies above the one before it, each address is the nonzero word
  -- above its frame pointer in the snapshot; the chain has at most 127 frames, and the address
  -- that stopped the unwinder may stand before it, if that was asked for.
  pub unwind_tail-IsTail :
      (append_current_pc : Bool)
      → Settles bad
          (IsTail append_current_pc)
          (unwind_tail host mods raw_sp w bp pc append_current_pc)
  unfolding unwind_tail
  unwind_tail-IsTail b = elim (Bool-cases (mods.present w.modules)) [
    | inr absent ↦ rw absent ([], FpChain.done bp, inl refl, omega arith)
    | inl here ↦ rw here (appended b)
  ]
