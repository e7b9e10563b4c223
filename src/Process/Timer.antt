-- ===== src/Process/Timer.antt =====
-- The time that the timer of src/gu_stacktrace.c last stored is left alone by releases, loads and
-- sweeps.
use libgunwinder.Base.{
  if◌then◌else◌, Bool, Bool-cases, Option, Option-cases, ap, false, inl, inr, none, refl, some,
  true, ℕ, ◌==◌, ◌∙◌, ◌≡◌,
}
use libgunwinder.Base.Words.{sub64}
use libgunwinder.Context.{
  ElfCtx, GuContext, add_elf_ctx, cache_hit, find_build_id, find_elf, load_elf,
  maybe_sweep_retired_elf, nothing_due, put_elf_ctx, retire_elf_ctx, retired_elf_sweep,
  take_elf_ctx, take_found, unretire_elf_ctx, update_elf, with_refcnt,
}

retire_elf_ctx-timer :
    (monotonic : ℕ) (ctx : GuContext) (e : ElfCtx)
    → (retire_elf_ctx monotonic ctx e).retire_timer_now_ns ≡ ctx.retire_timer_now_ns
unfolding retire_elf_ctx
retire_elf_ctx-timer monotonic ctx e = elim (Bool-cases e.retired) [
  | inl y ↦ rw y refl
  | inr n ↦ rw n refl
]

pub put_elf_ctx-timer :
    (monotonic : ℕ) (ctx : GuContext) (id : ℕ)
    → (put_elf_ctx monotonic ctx id).retire_timer_now_ns ≡ ctx.retire_timer_now_ns
unfolding put_elf_ctx
put_elf_ctx-timer monotonic ctx id = elim (Option-cases (find_elf id ctx.elf_ctx_list)) [
  | inl n ↦ rw (put_elf_ctx, n) refl
  | inr (e, h) ↦ elim (Bool-cases (sub64 e.refcnt 1 == 0)) [
    | inl y ↦
        rw (put_elf_ctx, h, y)
          (retire_elf_ctx-timer monotonic
            (record ctx {
              elf_ctx_list = update_elf id (with_refcnt (sub64 e.refcnt 1)) ctx.elf_ctx_list;
            })
            (with_refcnt (sub64 e.refcnt 1) e))
    | inr n ↦ rw (put_elf_ctx, h, n) refl
  ]
]

unretire_elf_ctx-timer :
    (ctx : GuContext) (e : ElfCtx) (activate : Bool)
    → (unretire_elf_ctx ctx e activate).retire_timer_now_ns ≡ ctx.retire_timer_now_ns
unfolding unretire_elf_ctx
unretire_elf_ctx-timer ctx e activate = elim (Bool-cases e.retired) [
  | inl y ↦ rw y refl
  | inr n ↦ rw n refl
]

take_elf_ctx-timer :
    (ctx : GuContext) (e : ElfCtx)
    → (take_elf_ctx ctx e).retire_timer_now_ns ≡ ctx.retire_timer_now_ns
unfolding take_elf_ctx
take_elf_ctx-timer ctx e = elim (Bool-cases e.retired) [
  | inl y ↦
      ap (λ b. (if b then cache_hit (unretire_elf_ctx ctx e true) else ctx).retire_timer_now_ns) y
      ∙ unretire_elf_ctx-timer ctx e true
  | inr n ↦ rw n refl
]

add_elf_ctx-timer :
    (ctx : GuContext) (e : ElfCtx)
    → (add_elf_ctx ctx e).retire_timer_now_ns ≡ ctx.retire_timer_now_ns
unfolding add_elf_ctx
add_elf_ctx-timer ctx e = refl

take_found-timer :
    (ctx : GuContext) (o : Option ElfCtx)
    → (take_found ctx o).retire_timer_now_ns ≡ ctx.retire_timer_now_ns
unfolding take_found
take_found-timer ctx none = refl
take_found-timer ctx (some e) = take_elf_ctx-timer ctx e

pub load_elf-timer :
    (ctx : GuContext) (e : ElfCtx) → (load_elf ctx e).retire_timer_now_ns ≡ ctx.retire_timer_now_ns
unfolding load_elf
load_elf-timer ctx e = elim (Option-cases (find_build_id e.build_id ctx.elf_ctx_list)) [
  | inl n ↦ rw (load_elf, n) (add_elf_ctx-timer ctx e)
  | inr (id, h) ↦ rw (load_elf, h) (take_found-timer ctx (find_elf id ctx.elf_ctx_list))
]

retired_elf_sweep-timer :
    (ctx : GuContext) (now : ℕ)
    → (retired_elf_sweep ctx now).retire_timer_now_ns ≡ ctx.retire_timer_now_ns
unfolding retired_elf_sweep
retired_elf_sweep-timer ctx now = elim (Bool-cases (now == 0)) [
  | inl z ↦ rw (retired_elf_sweep, z) refl
  | inr nz ↦ elim (Bool-cases (nothing_due ctx now)) [
    | inl y ↦ rw (retired_elf_sweep, nz, y) refl
    | inr n ↦ rw (retired_elf_sweep, nz, n) refl
  ]
]

pub maybe_sweep_retired_elf-timer :
    (monotonic : ℕ) (ctx : GuContext)
    → (maybe_sweep_retired_elf monotonic ctx).retire_timer_now_ns ≡ ctx.retire_timer_now_ns
unfolding maybe_sweep_retired_elf
maybe_sweep_retired_elf-timer monotonic ctx =
    elim (Bool-cases (ctx.statistics.retired_elf_ctx_count == 0)) [
      | inl z ↦ rw z refl
      | inr nz ↦ elim (Bool-cases ctx.retire_timer_started) [
        | inr off ↦
            rw (nz, off)
              (retired_elf_sweep-timer (record ctx { retire_timer_started = false }) monotonic)
        | inl on ↦ elim (Bool-cases ctx.retire_sweep_pending) [
          | inr idle ↦ rw (nz, on, idle) refl
          | inl asked ↦
              rw (nz, on, asked)
                (retired_elf_sweep-timer
                  (record ctx { retire_timer_started = true; retire_sweep_pending = false }) _)
        ]
      ]
    ]
