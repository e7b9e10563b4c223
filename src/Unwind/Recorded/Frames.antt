-- ===== src/Unwind/Recorded/Frames.antt =====
-- The frames that `gu_unwind_by_fp` of src/gu_stacktrace.c reports are the recorded addresses.
use libgunwinder.Base.{
  ℕ, zero, suc, ◌-◌, ◌≡◌, ◌≤◌, ◌<◌, refl, ap, ◌⊎◌, inl, inr, Bool, true, false, not, ◌||◌, Option,
  none, some, List, [], ◌∷◌, ◌==◌, ltb, leb, if◌then◌else◌, length, get_elem?, drop, arith, Run, ok,
  Settles, Settles-then, Whatever, Bool-cases, get_elem?-some, Fault,
}
use libgunwinder.Interval
use libgunwinder.Interval.{IntervalArray}
use libgunwinder.Snapshot.{
  StackInfo, UnwindReason, end_of_stack, no_exec_pc, flags_set_reason, flags_is_set,
  fp_allow_unknown,
}
use libgunwinder.Unwind.{
  Walk, Modules, MapView, Host, FrameRecord, in_item, max_fp_stack_level, search_present,
}
use libgunwinder.Unwind.Dwarf.{Unwound, unwound, dwarf_frame, or_truncated}
use libgunwinder.Unwind.Recorded.{
  Reported, Recorded, max_fp_level, recorded_symbol, report_unknown, report_module, report_found,
  report_frame, after_report, recorded_loop, unwind_by_fp,
}
use libgunwinder.Unwind.Tail.Chain.{IsReliable, pcs, search_present-Settles}

-- The first list begins the second.
abbrev pub IsPrefix : List ℕ → List ℕ → Type 0
IsPrefix [] ys = Unit
IsPrefix (x ∷ xs) [] = ⊥
IsPrefix (x ∷ xs) (y ∷ ys) = (x ≡ y) × IsPrefix xs ys

drop-get_elem? : (xs : List ℕ) (i x : ℕ) → get_elem? xs i ≡ some x → drop i xs ≡ x ∷ drop (suc i) xs
drop-get_elem? [] i x h = absurd (ground arith)
drop-get_elem? (y ∷ r) zero x h = ground arith
drop-get_elem? (y ∷ r) (suc i) x h = drop-get_elem? r i x h

recorded_symbol-Settles :
    (bad : Fault → Type 0) (o : Option IntervalArray) (pc : ℕ)
    → Settles bad Whatever (Interval.search false o pc)
    → Settles bad Whatever (recorded_symbol o pc)
unfolding recorded_symbol
recorded_symbol-Settles bad none pc h = tt
recorded_symbol-Settles bad (some a) pc h =
    Settles-then bad Whatever Whatever (Interval.search false (some a) pc) _ h (λ r _. tt)

pub dwarf_frame-abs_pc :
    (host : Host) (v : MapView) (pc relative_pc : ℕ) (s : Option ℕ × ℕ)
    → (dwarf_frame host v pc relative_pc s).abs_pc ≡ pc
dwarf_frame-abs_pc host v pc relative_pc s =
    elim (Bool-cases (not host.go_only_buildid || not v.golang)) [
      | inl y ↦ rw y refl
      | inr n ↦ rw n refl
    ]

module _ {S : Type 0} (host : Host) (mods : Modules S) (bad : Fault → Type 0)
    (reliable : IsReliable bad mods) (allow : Bool) (stack : List ℕ) (max_level : ℕ)
    (enough : max_level ≤ length stack) where
  abbrev FrameAt : ℕ → Reported S → Type 0
  FrameAt pc a = elim a.frame [ none ↦ Unit | some (f, last) ↦ f.abs_pc ≡ pc ]

  report_unknown-FrameAt :
      (w : Walk S) (pc : ℕ)
      → Settles bad (FrameAt pc) (report_unknown host mods allow stack max_level w pc)
  unfolding report_unknown
  report_unknown-FrameAt w pc = elim (Bool-cases allow) [ inl y ↦ rw y refl | inr n ↦ rw n tt ]

  report_module-FrameAt :
      (w : Walk S) (pc : ℕ) (o : Option MapView)
      → mods.map_of w.modules w.item ≡ o
      → Settles bad (FrameAt pc) (report_module host mods allow stack max_level w pc o)
  unfolding report_module
  report_module-FrameAt w pc none e = report_unknown-FrameAt w pc
  report_module-FrameAt w pc (some v) e =
      Settles-then bad Whatever (FrameAt pc) (recorded_symbol v.symbols _) _
        (recorded_symbol-Settles bad v.symbols _ (reliable.symbols w.modules w.item v _ e))
        (λ s _. dwarf_frame-abs_pc host v pc _ s)

  report_found-FrameAt :
      (pc : ℕ) (p : Walk S × Bool)
      → Settles bad (FrameAt pc) (report_found host mods allow stack max_level pc p)
  unfolding report_found
  report_found-FrameAt pc (w, false) = report_unknown-FrameAt w pc
  report_found-FrameAt pc (w, true) = report_module-FrameAt w pc (mods.map_of w.modules w.item) refl

  located :
      (w : Walk S) (pc : ℕ)
      → Settles bad Whatever (if in_item w pc then ok (w, true) else search_present mods w pc)
  located w pc = elim (Bool-cases (in_item w pc)) [
    | inl y ↦ rw y tt
    | inr n ↦ rw n (search_present-Settles mods bad reliable w pc)
  ]

  report_frame-FrameAt :
      (w : Walk S) (pc : ℕ)
      → Settles bad (FrameAt pc) (report_frame host mods allow stack max_level w pc)
  unfolding report_frame
  report_frame-FrameAt w pc =
      Settles-then bad Whatever (FrameAt pc)
        (if in_item w pc then ok (w, true) else search_present mods w pc) _ (located w pc)
        (λ p _. report_found-FrameAt pc p)

  -- The loop's frames begin the addresses from a level on; the reason; the number returned.
  abbrev From : ℕ → Recorded S → Type 0
  From level l =
      IsPrefix (pcs l.frames) (drop level stack)
      × (length l.frames ≤ max_level - level)
      × ((l.reason ≡ end_of_stack) ⊎ (l.reason ≡ no_exec_pc))
      × ((l.levels ≡ length l.frames) ⊎ (l.levels ≡ suc (length l.frames)))

  prefix_cons :
      (level pc : ℕ) (fs : List FrameRecord) (f : FrameRecord)
      → get_elem? stack level ≡ some pc
      → f.abs_pc ≡ pc
      → IsPrefix (pcs fs) (drop (suc level) stack)
      → IsPrefix (f.abs_pc ∷ pcs fs) (drop level stack)
  prefix_cons level pc fs f at_level at_pc rest =
      rw (drop-get_elem? stack level pc at_level) (at_pc, rest)

  after-From :
      (level pc : ℕ) (next : Walk S → Run (Recorded S)) (w : Walk S)
      (o : Option (FrameRecord × Bool))
      → get_elem? stack level ≡ some pc
      → level < max_level
      → FrameAt pc (record { walk = w; frame = o })
      → (suc level < max_level → (w₁ : Walk S) → Settles bad (From (suc level)) (next w₁))
      → Settles bad
          (From level)
          (after_report host mods allow stack max_level (leb max_level (suc level)) next w o)
  unfolding after_report
  after-From level pc next w none at_level low at_pc k = (tt, omega arith, inr refl, inr refl)
  after-From level pc next w (some (f, true)) at_level low at_pc k =
      (prefix_cons level pc [] f at_level at_pc tt, omega arith, inl refl, inl refl)
  after-From level pc next w (some (f, false)) at_level low at_pc k =
      elim (Bool-cases (leb max_level (suc level))) [
        | inl y ↦
            rw y (prefix_cons level pc [] f at_level at_pc tt, omega arith, inl refl, inl refl)
        | inr n ↦ rw n (
            Settles-then bad (From (suc level)) (From level) (next w) _ (k (ground arith) w) (λ l h.
              (
                prefix_cons level pc l.frames f at_level at_pc h.0,
                omega (arith, h.1),
                h.2,
                elim h.3 [ inl e ↦ inl (ap suc e) | inr e ↦ inr (ap suc e) ],
              )))
      ]

  recorded_loop-From :
      (rounds : ℕ) (w : Walk S) (level pc : ℕ)
      → get_elem? stack level ≡ some pc
      → level < max_level
      → max_level - level ≤ rounds
      → Settles bad (From level) (recorded_loop host mods allow stack max_level rounds w level pc)
  unfolding recorded_loop
  recorded_loop-From zero w level pc at_level low left = absurd (omega (arith, low, left))
  recorded_loop-From (suc rounds) w level pc at_level low left = elim (Bool-cases (pc == 0)) [
    | inl y ↦ rw y (tt, omega arith, inl refl, inr refl)
    | inr n ↦ rw n (
        Settles-then bad (FrameAt pc) (From level)
          (report_frame host mods allow stack max_level w pc) _ (report_frame-FrameAt w pc)
          (λ a at_pc. after-From level pc _ a.walk a.frame at_level low at_pc (λ more w₁.
            (let (x, e) = get_elem?-some stack (suc level) (omega (arith, more, enough)) in
              rw e (recorded_loop-From rounds w₁ (suc level) x e more (omega (arith, left)))))))
  ]

-- The reason that a walk leaves in the snapshot.
abbrev pub EndsWith : {S : Type 0} → UnwindReason → Unwound S → Type 0
EndsWith reason u = (i : StackInfo) × (u.walk.info ≡ flags_set_reason i reason)

module _ {S : Type 0} (host : Host) (mods : Modules S) (bad : Fault → Type 0)
    (reliable : IsReliable bad mods) (w : Walk S)
    (enough : max_fp_level w.info ≤ length w.info.ustack_fp) where
  abbrev pub IsRecorded : Unwound S → Type 0
  IsRecorded u =
      IsPrefix (pcs u.frames) w.info.ustack_fp
      × (length u.frames ≤ max_fp_level w.info)
      × ((u.result ≡ length u.frames) ⊎ (u.result ≡ suc (length u.frames)))
      × (EndsWith end_of_stack u ⊎ EndsWith no_exec_pc u)

  max_fp_level-le : max_fp_level w.info ≤ max_fp_stack_level
  max_fp_level-le = elim (Bool-cases (ltb max_fp_stack_level w.info.ustack_fp_level)) [
    | inl y ↦ rw y (omega arith)
    | inr n ↦ rw n (ground arith)
  ]

  or_truncated-id :
      (l : Recorded S)
      → (l.reason ≡ end_of_stack) ⊎ (l.reason ≡ no_exec_pc)
      → EndsWith end_of_stack (unwound host mods l.walk l.frames (or_truncated l.reason) l.levels)
        ⊎ EndsWith no_exec_pc (unwound host mods l.walk l.frames (or_truncated l.reason) l.levels)
  unfolding or_truncated
  or_truncated-id l (inl e) = inl (l.walk.info, rw e refl)
  or_truncated-id l (inr e) = inr (l.walk.info, rw e refl)

  ended-IsRecorded :
      (l : Recorded S)
      → From host mods bad reliable
          (flags_is_set w.info fp_allow_unknown)
          w.info.ustack_fp
          (max_fp_level w.info)
          enough
          0
          l
      → IsRecorded (unwound host mods l.walk l.frames (or_truncated l.reason) l.levels)
  ended-IsRecorded l h = (h.0, omega (arith, h.1), h.3, or_truncated-id l h.2)

  -- For any kinds of faults among which is a read through NULL: if the searches for a process that
  -- there is, the symbol lookups and the parses end or stop at a fault of these kinds, and there
  -- are as many recorded addresses as are used, then unwinding by recorded addresses returns or
  -- stops at a fault of these kinds. If it returns, the addresses of its frames begin the recorded
  -- ones and are at most as many as are used; the number returned is the number of frames or one
  -- more; the reason left is the end of the stack or an address without a mapping.
  pub unwind_by_fp-IsRecorded : Settles bad IsRecorded (unwind_by_fp host mods w)
  unfolding unwind_by_fp
  unwind_by_fp-IsRecorded = elim (Bool-cases (max_fp_level w.info == 0)) [
    | inl y ↦ rw y (tt, omega arith, inl refl, inl (w.info, refl))
    | inr n ↦
        (let (pc, e) = get_elem?-some w.info.ustack_fp 0 (ground (arith, enough, n)) in
          rw (n, e)
            (Settles-then bad _ IsRecorded
              (recorded_loop host mods (flags_is_set w.info fp_allow_unknown) w.info.ustack_fp
                (max_fp_level w.info) max_fp_stack_level w 0 pc)
              _
              (recorded_loop-From host mods bad reliable (flags_is_set w.info fp_allow_unknown)
                w.info.ustack_fp (max_fp_level w.info) enough max_fp_stack_level w 0 pc e
                (ground (arith, n)) (omega (arith, max_fp_level-le)))
              (λ l h. ended-IsRecorded l h)))
  ]
