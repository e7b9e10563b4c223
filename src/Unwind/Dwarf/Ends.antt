-- ===== src/Unwind/Dwarf/Ends.antt =====
-- The loop of `gu_unwind` of src/gu_stacktrace.c ends, with modules that answer.
use libgunwinder.Base.{
  ℕ, zero, suc, ◌+◌, ◌≡◌, ◌≢◌, ◌≤◌, refl, sym, ◌⊎◌, inl, inr, Bool, true, false, not, ◌||◌, Option,
  none, some, List, [], ◌∷◌, ◌==◌, leb, if◌then◌else◌, length, arith, Run, fail, fault, ◌>>=◌,
  Settles, Settles-then, Settles-mono, Settles-Returns, IsCalm, Whatever, Bool-cases, Fault,
  Concludes,
}
use libgunwinder.Base
use libgunwinder.Snapshot.{StackInfo, UnwindReason, ok}
use libgunwinder.Cfi.Parse.{Scratch}
use libgunwinder.Expr.{System}
use libgunwinder.Expr.Evaluate.{Frame, gen_reg}
use libgunwinder.Unwind.{
  Walk, Modules, MapView, Host, in_item, lookup_elf_symbol, is_stack_bottom_symbol, search_present,
}
use libgunwinder.Unwind.Tail.Chain.{
  pcs, IsReliable, lookup_elf_symbol-Settles, search_present-Settles,
}
use libgunwinder.Unwind.Dwarf.{
  Registers, Next, stop, go, Round, Looped, looped, reg_rip, reg_rsp, reg_rbp, with_sp, with_ra,
  unwind_registers, after_frame, module_round, found_round, dwarf_round, dwarf_loop,
}
use libgunwinder.Unwind.Dwarf.Loop.{StartsAt, Callers, but_first, IsLoop, dwarf_loop-IsLoop}
use libgunwinder.Unwind.Dwarf.Progress.{IsDefinite}

-- The registers of a frame that a module decodes are found without undefined behaviour.
abbrev pub Evaluates : (Fault → Type 0) → System → ℕ → Scratch → Type 0
Evaluates bad sys depth scratch =
    (info : StackInfo) (raw_sp bias : ℕ)
    → let f : Frame = record { info = info; raw_sp = raw_sp; bias = bias; scratch = scratch } in
      Settles bad Whatever (gen_reg depth sys f reg_rip)
      × Settles bad Whatever (gen_reg depth sys f reg_rsp)
      × Settles bad Whatever (gen_reg depth sys f reg_rbp)

-- The loop from an address with that many rounds: its frames, the rounds it counts, its reason.
abbrev pub IsCfiWalk : {S : Type 0} → ℕ → ℕ → Looped S → Type 0
IsCfiWalk pc levels l =
    StartsAt pc (pcs l.frames)
    × Callers (but_first (pcs l.frames))
    × (length l.frames ≤ levels)
    × (length l.frames ≤ l.levels)
    × (l.levels ≤ suc levels)
    × IsDefinite l.reason

abbrev pub AllEvaluate : {S : Type 0} → (Fault → Type 0) → Host → Modules S → ℕ → Type 0
AllEvaluate {S} bad host mods depth =
    (s : S) (elf pc : ℕ) (scratch : Scratch) (signal : Bool)
    → (mods.parse s elf pc).1 ≡ Base.ok (scratch, signal)
    → Evaluates bad host.system depth scratch

module _ {S : Type 0} (host : Host) (mods : Modules S) (depth raw_sp : ℕ) (bad : Fault → Type 0)
    (reliable : IsReliable bad mods) (all_evaluate : AllEvaluate bad host mods depth) where
  with_sp-Settles :
      (w : Walk S) (r : Registers) (bias : ℕ) (scratch : Scratch) (signal : Bool) (pc : ℕ)
      (p : UnwindReason × Option ℕ)
      → Evaluates bad host.system depth scratch
      → Settles bad Whatever (with_sp host mods depth raw_sp w r bias (scratch, signal) pc p)
  unfolding with_sp
  with_sp-Settles w r bias scratch signal pc (ok, some sp) h =
      Settles-then bad Whatever Whatever (gen_reg depth host.system _ reg_rbp) _
        (h w.info raw_sp bias).2 (λ bp _. tt)
  with_sp-Settles w r bias scratch signal pc (reason, sp) h = tt

  with_ra-Settles :
      (w : Walk S) (r : Registers) (bias : ℕ) (scratch : Scratch) (signal : Bool)
      (p : UnwindReason × Option ℕ)
      → Evaluates bad host.system depth scratch
      → Settles bad Whatever (with_ra host mods depth raw_sp w r bias (scratch, signal) p)
  unfolding with_ra
  with_ra-Settles w r bias scratch signal (ok, some pc) h =
      Settles-then bad Whatever Whatever (gen_reg depth host.system _ reg_rsp) _
        (h w.info raw_sp bias).1 (λ sp _. with_sp-Settles w r bias scratch signal pc sp h)
  with_ra-Settles w r bias scratch signal (reason, pc) h = tt

  unwind_registers-Settles :
      (w : Walk S) (r : Registers) (bias : ℕ) (m : Run (Scratch × Bool))
      → Concludes bad m
      → ((scratch : Scratch) (signal : Bool)
          → m ≡ Base.ok (scratch, signal)
          → Evaluates bad host.system depth scratch)
      → Settles bad Whatever (unwind_registers host mods depth raw_sp w r bias m)
  unfolding unwind_registers
  unwind_registers-Settles w r bias (fault e) calm h = calm
  unwind_registers-Settles w r bias fail calm h = tt
  unwind_registers-Settles w r bias (Base.ok (scratch, signal)) calm h =
      let evaluates = h scratch signal refl in
      Settles-then bad Whatever Whatever (gen_reg depth host.system _ reg_rip) _
        (evaluates w.info raw_sp bias).0
        (λ ra _. with_ra-Settles w r bias scratch signal _ evaluates)

  after_frame-Settles :
      (w : Walk S) (r : Registers) (v : MapView) (bias relative_pc : ℕ) (o : Option ℕ)
      → Settles bad Whatever (after_frame host mods depth raw_sp w r v bias relative_pc o)
  unfolding after_frame
  after_frame-Settles w r v bias relative_pc o = elim (Bool-cases (is_stack_bottom_symbol host o)) [
    | inl y ↦ rw y tt
    | inr n ↦ elim (Bool-cases v.has_cfi) [
      | inl y ↦
          rw (n, y)
            (unwind_registers-Settles _ r bias _ (reliable.parses w.modules v.elf _)
              (λ scratch signal e. all_evaluate w.modules v.elf _ scratch signal e))
      | inr m ↦ rw (n, m) tt
    ]
  ]

  module_round-Settles :
      (w : Walk S) (r : Registers) (o : Option MapView)
      → mods.map_of w.modules w.item ≡ o
      → Settles bad Whatever (module_round host mods depth raw_sp w r o)
  unfolding module_round
  module_round-Settles w r none e = tt
  module_round-Settles w r (some v) e =
      Settles-then bad Whatever Whatever (lookup_elf_symbol v.symbols _) _
        (lookup_elf_symbol-Settles bad v.symbols _ (reliable.symbols w.modules w.item v _ e))
        (λ s _.
          Settles-then bad Whatever Whatever (after_frame host mods depth raw_sp w r v _ _ s.0) _
            (after_frame-Settles w r v _ _ s.0) (λ n _. tt))

  found_round-Settles :
      (r : Registers) (p : Walk S × Bool)
      → Settles bad Whatever (found_round host mods depth raw_sp r p)
  unfolding found_round
  found_round-Settles r (w, false) = tt
  found_round-Settles r (w, true) = module_round-Settles w r (mods.map_of w.modules w.item) refl

  located :
      (w : Walk S) (pc : ℕ)
      → Settles bad Whatever (if in_item w pc then Base.ok (w, true) else search_present mods w pc)
  located w pc = elim (Bool-cases (in_item w pc)) [
    | inl y ↦ rw y tt
    | inr n ↦ rw n (search_present-Settles mods bad reliable w pc)
  ]

  dwarf_round-Settles :
      (w : Walk S) (r : Registers) → Settles bad Whatever (dwarf_round host mods depth raw_sp w r)
  unfolding dwarf_round
  dwarf_round-Settles w r =
      Settles-then bad Whatever Whatever
        (if in_item w r.pc then Base.ok (w, true) else search_present mods w r.pc) _
        (located w r.pc) (λ p _. found_round-Settles r p)

  after_round-Settles :
      (levels : ℕ) (round : Round S) (next : Next S)
      → ((w₁ : Walk S) (r₁ : Registers)
          → Settles bad Whatever (dwarf_loop host mods depth raw_sp levels w₁ r₁))
      → Settles {A = Looped S} bad Whatever (elim next [
        | stop w₁ pc reason append ↦ Base.ok (record {
          walk = w₁;
          frames = round.frames;
          pc = pc;
          reason = reason;
          append_current_pc = append;
          levels = 1;
        })
        | go w₁ r₁ ↦ dwarf_loop host mods depth raw_sp levels w₁ r₁ >>= λ l.
            Base.ok (looped host mods depth raw_sp round.frames l)
      ])
  after_round-Settles levels round (stop w pc reason append) rest = tt
  after_round-Settles levels round (go w r) rest =
      Settles-then bad Whatever Whatever (dwarf_loop host mods depth raw_sp levels w r) _ (rest w r)
        (λ l _. tt)

  dwarf_loop-Whatever :
      (levels : ℕ) (w : Walk S) (r : Registers)
      → Settles bad Whatever (dwarf_loop host mods depth raw_sp levels w r)
  unfolding dwarf_loop
  dwarf_loop-Whatever zero w r = tt
  dwarf_loop-Whatever (suc levels) w r =
      Settles-then bad Whatever Whatever (dwarf_round host mods depth raw_sp w r) _
        (dwarf_round-Settles w r)
        (λ round _.
          after_round-Settles levels round round.next (λ w₁ r₁. dwarf_loop-Whatever levels w₁ r₁))

  walked :
      (levels : ℕ) (w : Walk S) (r : Registers)
      → Settles bad
          (IsLoop host mods depth raw_sp r (suc levels))
          (dwarf_loop host mods depth raw_sp (suc levels) w r)
  walked levels w r =
      Settles-Returns bad (IsLoop host mods depth raw_sp r (suc levels))
        (dwarf_loop host mods depth raw_sp (suc levels) w r) (dwarf_loop-Whatever (suc levels) w r)
        (dwarf_loop-IsLoop host mods depth raw_sp (suc levels) w r (λ z. absurd (omega (arith, z))))

  -- For any kinds of faults among which is a read through NULL: if the searches for a process that
  -- there is, the symbol lookups, the parses and the evaluation of the registers of every frame
  -- that a module decodes end or stop at a fault of these kinds, the loop of gu_unwind with at
  -- least one round allowed returns or stops at a fault of these kinds. If it returns, its first
  -- frame has the address the loop starts at; from the second frame on no address is 0, and from
  -- the third on none is that of the frame before it; there are no more frames than rounds allowed
  -- nor than rounds counted, and at most one round more is counted than allowed; the reason is
  -- neither the first one nor a truncation.
  pub dwarf_loop-Settles :
      (levels : ℕ) (w : Walk S) (r : Registers)
      → Settles bad
          (IsCfiWalk r.pc (suc levels))
          (dwarf_loop host mods depth raw_sp (suc levels) w r)
  dwarf_loop-Settles levels w r =
      Settles-mono bad (IsLoop host mods depth raw_sp r (suc levels)) (IsCfiWalk r.pc (suc levels))
        (dwarf_loop host mods depth raw_sp (suc levels) w r) (λ l h. (h.0, h.2, h.3, h.4, h.5, h.6))
        (walked levels w r)
