-- ===== src/Unwind/Tail/Length.antt =====
-- The frames that a tail of src/gu_stacktrace.c adds are at most 128.
use libgunwinder.Base.{
  ℕ, zero, suc, ◌+◌, ◌-◌, ◌≡◌, ◌≢◌, ◌≤◌, ◌<◌, refl, ap, sym, ◌∙◌, ◌⊎◌, inl, inr, Bool, true, false,
  not, ◌&&◌, ◌||◌, Option, none, some, List, [], ◌∷◌, ◌++◌, ◌==◌, leb, if◌then◌else◌, length, arith,
  Run, fail, fault, ◌>>=◌, unset, Returns, Returns-mono, Returns-then, Returns-bind, Bool-cases,
  Option-cases,
}
use libgunwinder.Base
use libgunwinder.Unwind.{
  Walk, Modules, Host, FrameRecord, frame_pointer_sane, max_fp_stack_level, stack_snapshot_read_u64,
}
use libgunwinder.Unwind.Tail.{
  Appended, Tailed, StackReader, read_pair, append_pc_frame, stopped, after_append, go_on,
  tail_loop, unwind_tail,
}

module _ {S : Type 0} (host : Host) (mods : Modules S) where
  abbrev pub AtMost : ℕ → Tailed S → Type 0
  AtMost n t = length t.frames ≤ n

  after_append-AtMost :
      (n : ℕ) (rest : Walk S → Run (Tailed S)) (w : Walk S) (o : Option (FrameRecord × Bool))
      → ((w₁ : Walk S) → Returns (AtMost n) (rest w₁))
      → Returns (AtMost (suc n)) (after_append rest w o)
  unfolding after_append
  after_append-AtMost n rest w none h = omega arith
  after_append-AtMost n rest w (some (f, true)) h = omega arith
  after_append-AtMost n rest w (some (f, false)) h =
      Returns-then (AtMost n) (AtMost (suc n)) (rest w) _ (h w) (λ t short. omega (arith, short))

  paired-AtMost :
      (levels bp : ℕ) (w : Walk S) (go_from : ℕ → Walk S → Run (Tailed S)) (o : Option (ℕ × ℕ))
      → ((next_bp : ℕ) (w₁ : Walk S) → Returns (AtMost levels) (go_from next_bp w₁))
      → Returns (AtMost (suc levels)) (elim o [
        | none ↦ stopped w
        | some (next_bp, next_pc) ↦
            if not (frame_pointer_sane bp next_bp) || next_pc == 0
            then stopped w
            else (append_pc_frame host mods w next_pc false false >>= λ a.
                after_append (go_from next_bp) a.walk a.frame)
      ])
  paired-AtMost levels bp w go_from none h = omega arith
  paired-AtMost levels bp w go_from (some (next_bp, next_pc)) h =
      elim (Bool-cases (not (frame_pointer_sane bp next_bp) || next_pc == 0)) [
        | inl y ↦ rw y (omega arith)
        | inr n ↦ rw n (
            Returns-bind (AtMost (suc levels)) (append_pc_frame host mods w next_pc false false) _
              (λ a. after_append-AtMost levels (go_from next_bp) a.walk a.frame (h next_bp)))
      ]

  tail_loop-AtMost :
      (read : StackReader) (levels : ℕ) (w : Walk S) (bp : ℕ)
      → Returns (AtMost levels) (tail_loop host mods read levels w bp)
  unfolding tail_loop
  tail_loop-AtMost read zero w bp = omega arith
  tail_loop-AtMost read (suc levels) w bp =
      Returns-bind (AtMost (suc levels)) (read_pair read bp) _ (λ o.
        paired-AtMost levels bp w (λ next_bp w₁. tail_loop host mods read levels w₁ next_bp) o
          (λ next_bp w₁. tail_loop-AtMost read levels w₁ next_bp))

  weaken : (m : Run (Tailed S)) → Returns (AtMost 127) m → Returns (AtMost 128) m
  weaken (Base.ok t) h = omega (arith, h)
  weaken fail h = tt
  weaken (fault e) h = tt

  go_on-AtMost :
      (rest : Walk S → Run (Tailed S)) (a : Appended S)
      → ((w : Walk S) → Returns (AtMost 127) (rest w))
      → Returns (AtMost 128) (go_on rest a.walk a.frame)
  unfolding go_on
  go_on-AtMost rest a h = elim (Option-cases a.frame) [
    | inl e ↦ rw e (weaken (rest a.walk) (h a.walk))
    | inr (p, e) ↦ rw e (after_append-AtMost 127 rest a.walk (some p) h)
  ]

  pub unwind_tail-AtMost :
      (raw_sp bp pc : ℕ) (w : Walk S) (append : Bool)
      → Returns (AtMost 128) (unwind_tail host mods raw_sp w bp pc append)
  unfolding unwind_tail
  unwind_tail-AtMost raw_sp bp pc w append =
      let follow : Walk S → Run (Tailed S) = λ w₁.
        tail_loop host mods (stack_snapshot_read_u64 host.system w.info raw_sp) max_fp_stack_level
          w₁ bp in
      let followed : (w₁ : Walk S) → Returns (AtMost 127) (follow w₁) =
        λ w₁. tail_loop-AtMost _ 127 w₁ bp in
      elim (Bool-cases (mods.present w.modules)) [
        | inr n ↦ rw n (omega arith)
        | inl y ↦ elim (Bool-cases append) [
          | inl asked ↦
              rw (y, asked)
                (Returns-bind (AtMost 128) (append_pc_frame host mods w pc true false) _
                  (λ a. go_on-AtMost follow a followed))
          | inr n ↦ rw (y, n) (weaken (follow w) (followed w))
        ]
      ]
