-- ===== src/Unwind/Recorded.antt =====
-- `gu_unwind_by_fp` of src/gu_stacktrace.c: the addresses that the kernel recorded, one by one.
pub mod Frames
use libgunwinder.Base.{
  ℕ, zero, suc, ◌+◌, ◌-◌, Bool, true, false, not, ◌&&◌, ◌||◌, Option, none, some, List, [], ◌∷◌,
  ◌++◌, ◌==◌, ltb, leb, if◌then◌else◌, length, get_elem?, Run, fail, fault, ◌>>=◌, past_end,
}
use libgunwinder.Base
use libgunwinder.Base.Words.{sub64}
use libgunwinder.Interval
use libgunwinder.Interval.{IntervalArray, SearchResult, get_pointer}
use libgunwinder.Snapshot.{
  StackInfo, UnwindReason, end_of_stack, no_exec_pc, unknown, flags_set_reason, flags_is_set,
  fp_allow_unknown,
}
use libgunwinder.Unwind.{
  Walk, Modules, MapView, Host, FrameRecord, anonymous_frame, in_item, is_stack_bottom_symbol,
  max_fp_stack_level, search_present,
}
use libgunwinder.Unwind.Dwarf.{dwarf_frame, Unwound, unwound, or_truncated}

-- How many recorded addresses are used.
abbrev pub max_fp_level : StackInfo → ℕ
max_fp_level info =
    if ltb max_fp_stack_level info.ustack_fp_level then max_fp_stack_level else info.ustack_fp_level

-- The frame of one address, and whether its symbol ends the stack; `none` where the address has
-- no mapping and the walk ends for that.
pub record Reported (S : Type 0) : Type 0 where
  pub walk : Walk S
  pub frame : Option (FrameRecord × Bool)

-- The frames of a loop, its reason, the rounds begun as the C code counts them.
pub record Recorded (S : Type 0) : Type 0 where
  pub walk : Walk S
  pub frames : List FrameRecord
  pub reason : UnwindReason
  pub levels : ℕ

-- The symbol of a search's hit; its offset is kept also where the symbol has no name.
unfoldable pub recorded_symbol_of : ℕ → SearchResult → Option ℕ × ℕ
recorded_symbol_of pc r = elim r.index [
  | none ↦ (none, 0)
  | some i ↦ (
    if get_pointer r.item.private == 0 then none else some (get_pointer r.item.private),
    sub64 pc r.item.start,
  )
]

unfoldable pub recorded_symbol : Option IntervalArray → ℕ → Run (Option ℕ × ℕ)
recorded_symbol none pc = Base.ok (none, 0)
recorded_symbol (some a) pc = do
  r ← Interval.search false (some a) pc
  Base.ok (recorded_symbol_of pc r)

module _ {S : Type 0} (host : Host) (mods : Modules S) (allow_unknown : Bool) (stack : List ℕ)
    (max_level : ℕ) where
  -- Without a mapping, or with one that has no module.
  unfoldable pub report_unknown : Walk S → ℕ → Run (Reported S)
  report_unknown w pc =
      if allow_unknown
      then Base.ok (record { walk = w; frame = some (anonymous_frame pc, false) })
      else Base.ok (record { walk = w; frame = none })

  unfoldable pub report_module : Walk S → ℕ → Option MapView → Run (Reported S)
  report_module w pc none = report_unknown w pc
  report_module w pc (some v) =
      let relative_pc = sub64 pc (sub64 w.item.start v.map_exec_virt_addr) in
      recorded_symbol v.symbols relative_pc >>= λ s. Base.ok (record {
        walk = w;
        frame = some (dwarf_frame host v pc relative_pc s, is_stack_bottom_symbol host s.0);
      })

  unfoldable pub report_found : ℕ → Walk S × Bool → Run (Reported S)
  report_found pc (w, false) = report_unknown w pc
  report_found pc (w, true) = report_module w pc (mods.map_of w.modules w.item)

  unfoldable pub report_frame : Walk S → ℕ → Run (Reported S)
  report_frame w pc =
      (if in_item w pc then Base.ok (w, true) else search_present mods w pc) >>= report_found pc

  abbrev ended : Walk S → UnwindReason → Run (Recorded S)
  ended w reason = Base.ok (record { walk = w; frames = []; reason = reason; levels = 1 })

  abbrev reported : FrameRecord → Recorded S → Recorded S
  reported f l = record l { frames = f ∷ l.frames; levels = suc l.levels }

  abbrev last_frame : Walk S → FrameRecord → Run (Recorded S)
  last_frame w f = Base.ok (record { walk = w; frames = f ∷ []; reason = end_of_stack; levels = 1 })

  -- `next` is the loop from the next recorded address on.
  unfoldable pub after_report :
      Bool → (Walk S → Run (Recorded S)) → Walk S → Option (FrameRecord × Bool) → Run (Recorded S)
  after_report last next w none = ended w no_exec_pc
  after_report last next w (some (f, true)) = last_frame w f
  after_report last next w (some (f, false)) =
      if last then last_frame w f else (next w >>= λ l. Base.ok (reported f l))

  -- `level` is the index of the address `pc`; `rounds` are left.
  unfoldable pub recorded_loop : ℕ → Walk S → ℕ → ℕ → Run (Recorded S)
  recorded_loop zero w level pc = ended w unknown
  recorded_loop (suc rounds) w level pc =
      let next : Walk S → Run (Recorded S) = λ w₁. elim (get_elem? stack (suc level)) [
        | none ↦ fault past_end
        | some pc₁ ↦ recorded_loop rounds w₁ (suc level) pc₁
      ] in
      if pc == 0
      then ended w end_of_stack
      else (report_frame w pc >>= λ r. after_report (leb max_level (suc level)) next r.walk r.frame)

module _ {S : Type 0} (host : Host) (mods : Modules S) where
  unfoldable pub unwind_by_fp : Walk S → Run (Unwound S)
  unwind_by_fp w =
      if max_fp_level w.info == 0
      then Base.ok (unwound host mods w [] end_of_stack 0)
      else elim (get_elem? w.info.ustack_fp 0) [
        | none ↦ fault past_end
        | some pc ↦
            recorded_loop host mods (flags_is_set w.info fp_allow_unknown) w.info.ustack_fp
              (max_fp_level w.info) max_fp_stack_level w 0 pc
            >>= λ l. Base.ok (unwound host mods l.walk l.frames (or_truncated l.reason) l.levels)
      ]
