-- ===== src/Context/Expiry.antt =====
-- `gu_retired_elf_sweep` and `gu_maybe_sweep_retired_elf` of src/gu_stacktrace.c: which contexts a
-- sweep removes.
use libgunwinder.Base.{
  ℕ, ◌≡◌, ◌≢◌, ◌<◌, refl, ap, sym, ◌∙◌, ◌⊎◌, inl, inr, true, false, not, ◌&&◌, ◌||◌, List, [], ◌∷◌,
  ◌==◌, ltb, leb, if◌then◌else◌, arith, Bool-cases,
}
use mathlib.Core.Path.{subst}
use libgunwinder.Context.{
  ElfCtx, Statistics, GuContext, uint64_max, is_due, earlier, Swept, expired_statistics, sweep_loop,
  swept, nothing_due, retired_elf_sweep, retire_timer_tick, maybe_sweep_retired_elf,
}
use libgunwinder.Context.Table.{total, idle, Every, Every-mono}
use libgunwinder.Context.Count.{IsGood, IsWell, as_retired}
use libgunwinder.Context.Sweep.{
  sweep_loop-live, sweep_loop-due, sweep_loop-waits, IsSwept, sweep_loop-IsSwept,
}

-- The contexts that are not retired or not due yet.
abbrev pub survivors : ℕ → List ElfCtx → List ElfCtx
survivors now [] = []
survivors now (e ∷ r) = if is_due now e then survivors now r else e ∷ survivors now r

pub survivors-here :
    (now : ℕ) (e : ElfCtx) (r : List ElfCtx)
    → is_due now e ≡ false
    → survivors now (e ∷ r) ≡ e ∷ survivors now r
survivors-here now e r h = rw (survivors, h) refl

pub survivors-gone :
    (now : ℕ) (e : ElfCtx) (r : List ElfCtx)
    → is_due now e ≡ true
    → survivors now (e ∷ r) ≡ survivors now r
survivors-gone now e r h = rw (survivors, h) refl

live_waits : (now : ℕ) (e : ElfCtx) → e.retired ≡ false → is_due now e ≡ false
live_waits now e live = rw live refl

sweep_loop-kept :
    (now : ℕ) (l : List ElfCtx) (s : Statistics) (next : ℕ)
    → (sweep_loop now l s next).kept ≡ survivors now l
unfolding sweep_loop
sweep_loop-kept now [] s next = refl
sweep_loop-kept now (e ∷ l) s next = elim (Bool-cases e.retired) [
  | inr live ↦
      ap (λ r. r.kept) (sweep_loop-live now e l s next live)
      ∙ ap (λ t. e ∷ t) (sweep_loop-kept now l s next)
      ∙ sym (survivors-here now e l (live_waits now e live))
  | inl y ↦ elim (Bool-cases (is_due now e)) [
    | inl due ↦
        ap (λ r. r.kept) (sweep_loop-due now e l s next y due)
        ∙ sweep_loop-kept now l (expired_statistics e s) next
        ∙ sym (survivors-gone now e l due)
    | inr waits ↦
        ap (λ r. r.kept) (sweep_loop-waits now e l s next y waits)
        ∙ ap (λ t. e ∷ t) (sweep_loop-kept now l s (earlier e.retire_deadline_ns next))
        ∙ sym (survivors-here now e l waits)
  ]
]

survivors-all :
    (now : ℕ) (l : List ElfCtx) → Every (λ e. is_due now e ≡ false) l → survivors now l ≡ l
survivors-all now [] h = refl
survivors-all now (e ∷ r) h = survivors-here now e r h.0 ∙ ap (λ t. e ∷ t) (survivors-all now r h.1)

-- None is due where none is retired.
none_idle : (now : ℕ) (l : List ElfCtx) → total idle l ≡ 0 → Every (λ e. is_due now e ≡ false) l
none_idle now [] h = tt
none_idle now (e ∷ r) h = elim (Bool-cases e.retired) [
  | inl y ↦ (let i : idle e ≡ 1 = rw y refl in absurd (omega (arith, h, i)))
  | inr live ↦ (live_waits now e live, none_idle now r (omega (arith, h)))
]

-- None is due before the next deadline.
waits_until :
    (now next : ℕ) (e : ElfCtx)
    → (now == uint64_max) ≡ false
    → now < next
    → IsGood next e
    → is_due now e ≡ false
waits_until now next e n early good = elim (Bool-cases e.retired) [
  | inr live ↦ live_waits now e live
  | inl y ↦
      (let late : leb e.retire_deadline_ns now ≡ false =
          ground (arith, early, (as_retired next e good y).2) in
        rw (y, n, late) refl)
]

due_test :
    (now max next count : ℕ)
    → (not (now == max) && (count == 0 || (not (next == 0) && ltb now next))) ≡ true
    → ((now == max) ≡ false) × ((count ≡ 0) ⊎ (now < next))
due_test now max next count h = ground arith

nothing_due-waits :
    (ctx : GuContext) (now : ℕ)
    → IsWell ctx
    → nothing_due ctx now ≡ true
    → Every (λ e. is_due now e ≡ false) ctx.elf_ctx_list
nothing_due-waits ctx now well h =
    let next = ctx.next_retired_elf_deadline_ns in
    let (n, why) = due_test now uint64_max next ctx.statistics.retired_elf_ctx_count h in
    elim why [
      | inl z ↦ none_idle now ctx.elf_ctx_list (omega (arith, z, well.1))
      | inr early ↦
          Every-mono (IsGood next) (λ e. is_due now e ≡ false) ctx.elf_ctx_list
            (λ e good. waits_until now next e n early good) well.3
    ]

sweep-none :
    (ctx : GuContext) (now : ℕ)
    → now ≢ 0
    → nothing_due ctx now ≡ true
    → retired_elf_sweep ctx now ≡ ctx
unfolding retired_elf_sweep
sweep-none ctx now nz h =
    let n : (now == 0) ≡ false = ground (arith, nz) in rw (retired_elf_sweep, n, h) refl

sweep-some :
    (ctx : GuContext) (now : ℕ)
    → now ≢ 0
    → nothing_due ctx now ≡ false
    → retired_elf_sweep ctx now ≡ swept ctx (sweep_loop now ctx.elf_ctx_list ctx.statistics 0)
unfolding retired_elf_sweep
sweep-some ctx now nz h =
    let n : (now == 0) ≡ false = ground (arith, nz) in rw (retired_elf_sweep, n, h) refl

module _ (ctx : GuContext) (now : ℕ) (well : IsWell ctx) (nz : now ≢ 0) where
  -- If counters and deadlines are right and the time is not 0, a sweep leaves just the contexts
  -- that are not retired or not due, in their order, as a sweep that tests every context does,
  -- also where it returns early.
  pub retired_elf_sweep-survivors :
      (retired_elf_sweep ctx now).elf_ctx_list ≡ survivors now ctx.elf_ctx_list
  retired_elf_sweep-survivors = elim (Bool-cases (nothing_due ctx now)) [
    | inl h ↦
        ap (λ c. c.elf_ctx_list) (sweep-none ctx now nz h)
        ∙ sym (survivors-all now ctx.elf_ctx_list (nothing_due-waits ctx now well h))
    | inr h ↦
        ap (λ c. c.elf_ctx_list) (sweep-some ctx now nz h)
        ∙ sweep_loop-kept now ctx.elf_ctx_list ctx.statistics 0
  ]

  swept-IsWell : (r : Swept) → IsSwept ctx.elf_ctx_list ctx.statistics 0 r → IsWell (swept ctx r)
  swept-IsWell r h =
      (omega (arith, h.0, h.2, well.0), omega (arith, h.1, well.1), omega (arith, h.3, well.2), h.4)

  -- A sweep keeps counters, references and the next deadline right.
  pub retired_elf_sweep-IsWell : IsWell (retired_elf_sweep ctx now)
  retired_elf_sweep-IsWell = elim (Bool-cases (nothing_due ctx now)) [
    | inl h ↦ subst IsWell (sym (sweep-none ctx now nz h)) well
    | inr h ↦ subst IsWell (sym (sweep-some ctx now nz h)) (
        swept-IsWell (sweep_loop now ctx.elf_ctx_list ctx.statistics 0) (
          sweep_loop-IsSwept now ctx.next_retired_elf_deadline_ns ctx.elf_ctx_list ctx.statistics 0
            (omega (arith, well.1)) well.3))
  ]

before : (now max deadline : ℕ) → (now == max || leb deadline now) ≡ false → now < deadline
before now max deadline h = ground arith

-- A retired context that a sweep leaves has a deadline that is still to come.
abbrev pub Waits : ℕ → ElfCtx → Type 0
Waits now e = (e.retired ≡ false) ⊎ (now < e.retire_deadline_ns)

waiting : (now : ℕ) (e : ElfCtx) → is_due now e ≡ false → Waits now e
waiting now e h = elim (Bool-cases e.retired) [
  | inr live ↦ inl live
  | inl y ↦
      (let late : ((now == uint64_max) || leb e.retire_deadline_ns now) ≡ false =
          ap (λ b. b && ((now == uint64_max) || leb e.retire_deadline_ns now)) (sym y) ∙ h in
        inr (before now uint64_max e.retire_deadline_ns late))
]

survivors-Waits : (now : ℕ) (l : List ElfCtx) → Every (Waits now) (survivors now l)
survivors-Waits now [] = tt
survivors-Waits now (e ∷ r) = elim (Bool-cases (is_due now e)) [
  | inl due ↦ rw due (survivors-Waits now r)
  | inr waits ↦ rw waits (waiting now e waits, survivors-Waits now r)
]

module _ (ctx : GuContext) (time monotonic : ℕ) (well : IsWell ctx)
    (started : ctx.retire_timer_started ≡ true) (nz : time ≢ 0) where
  abbrev ticked : GuContext
  ticked = record ctx { retire_timer_now_ns = time; retire_sweep_pending = true }

  abbrev cleared : GuContext
  cleared = record ctx { retire_timer_now_ns = time; retire_sweep_pending = false }

  tick-eq : retire_timer_tick ctx time ≡ ticked
  unfolding retire_timer_tick
  tick-eq = let n : (time == 0) ≡ false = ground (arith, nz) in rw (retire_timer_tick, n) refl

  swept-none :
      (ctx.statistics.retired_elf_ctx_count == 0) ≡ true
      → maybe_sweep_retired_elf monotonic ticked ≡ ticked
  unfolding maybe_sweep_retired_elf
  swept-none z = rw (maybe_sweep_retired_elf, z) refl

  swept-some :
      (ctx.statistics.retired_elf_ctx_count == 0) ≡ false
      → maybe_sweep_retired_elf monotonic ticked ≡ retired_elf_sweep cleared time
  unfolding maybe_sweep_retired_elf
  swept-some more =
      let n : (time == 0) ≡ false = ground (arith, nz) in
      rw (maybe_sweep_retired_elf, more, started, n) refl

  swept_list :
      (maybe_sweep_retired_elf monotonic (retire_timer_tick ctx time)).elf_ctx_list
      ≡ survivors time ctx.elf_ctx_list
  swept_list =
      ap (λ c. (maybe_sweep_retired_elf monotonic c).elf_ctx_list) tick-eq
      ∙ elim (Bool-cases (ctx.statistics.retired_elf_ctx_count == 0)) [
        | inl z ↦
            ap (λ c. c.elf_ctx_list) (swept-none z)
            ∙ sym (
                survivors-all time ctx.elf_ctx_list
                  (none_idle time ctx.elf_ctx_list (ground (arith, z, well.1))))
        | inr more ↦
            ap (λ c. c.elf_ctx_list) (swept-some more)
            ∙ retired_elf_sweep-survivors cleared time well nz
      ]

  -- If the timer runs, counters and deadlines are right, and the timer ticks at a time other than
  -- 0, then the next event or unwind removes every context that is due at that time and no other:
  -- each context left is in use or has a deadline after it.
  pub maybe_sweep_retired_elf-expires :
      ((maybe_sweep_retired_elf monotonic (retire_timer_tick ctx time)).elf_ctx_list
        ≡ survivors time ctx.elf_ctx_list)
      × Every
          (Waits time)
          (maybe_sweep_retired_elf monotonic (retire_timer_tick ctx time)).elf_ctx_list
  maybe_sweep_retired_elf-expires = (
    swept_list,
    subst (Every (Waits time)) (sym swept_list) (survivors-Waits time ctx.elf_ctx_list),
  )
