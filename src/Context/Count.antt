-- ===== src/Context/Count.antt =====
-- The counters, the references and the next deadline of a context of src/gu_stacktrace.c.
use libgunwinder.Base.{
  ℕ, ◌+◌, ◌^◌, ◌≡◌, ◌≢◌, ◌≤◌, ◌<◌, refl, ◌⊎◌, inl, inr, true, false, List, [], ◌∷◌, arith,
  Bool-cases,
}
use libgunwinder.Base.Words.{add64}
use libgunwinder.Context.{
  ElfCtx, GuContext, update_elf, cache_now_ns, elf_retire_ttl_ns, decrement, retired_until,
  retire_elf_ctx, earlier,
}
use libgunwinder.Context.Table.{total, active, idle, one, Every}

-- A context is retired just when it has no user; the next deadline is no later than its own.
abbrev pub IsGood : ℕ → ElfCtx → Type 0
IsGood next e =
    ((e.retired ≡ false) × (e.refcnt ≢ 0))
    ⊎ ((e.retired ≡ true) × (e.refcnt ≡ 0) × (next ≢ 0) × (next ≤ e.retire_deadline_ns))

pub as_retired :
    (next : ℕ) (e : ElfCtx)
    → IsGood next e
    → e.retired ≡ true
    → (e.refcnt ≡ 0) × (next ≢ 0) × (next ≤ e.retire_deadline_ns)
as_retired next e (inl (live, held)) y = absurd (cc (y, live))
as_retired next e (inr (y, idle_now, later, due_later)) y₁ = (idle_now, later, due_later)

pub as_live : (next : ℕ) (e : ElfCtx) → IsGood next e → e.retired ≡ false → e.refcnt ≢ 0
as_live next e (inl (live, held)) n = held
as_live next e (inr (y, idle_now, later, due_later)) n = absurd (cc (y, n))

-- The counters are the numbers of active and retired contexts.
abbrev pub IsWell : GuContext → Type 0
IsWell ctx =
    (ctx.statistics.elf_ctx_count ≡ total active ctx.elf_ctx_list)
    × (ctx.statistics.retired_elf_ctx_count ≡ total idle ctx.elf_ctx_list)
    × (total one ctx.elf_ctx_list < 2 ^ 64)
    × Every (IsGood ctx.next_retired_elf_deadline_ns) ctx.elf_ctx_list

pub one-split : (e : ElfCtx) → active e + idle e ≡ 1
one-split e = elim (Bool-cases e.retired) [ inl y ↦ rw y refl | inr n ↦ rw n refl ]

pub total-one : (l : List ElfCtx) → total active l + total idle l ≡ total one l
total-one [] = refl
total-one (e ∷ r) = omega (arith, one-split e, total-one r)

pub active_of : (e : ElfCtx) → e.retired ≡ false → (active e ≡ 1) × (idle e ≡ 0)
active_of e n = rw n (refl, refl)

pub idle_of : (e : ElfCtx) → e.retired ≡ true → (active e ≡ 0) × (idle e ≡ 1)
idle_of e y = rw y (refl, refl)

-- A context that is not retired becomes so.
pub retire_elf_ctx-eq :
    (monotonic : ℕ) (ctx : GuContext) (e : ElfCtx)
    → e.retired ≡ false
    → retire_elf_ctx monotonic ctx e ≡ record ctx {
      elf_ctx_list =
          update_elf e.id
            (retired_until (add64 (cache_now_ns ctx monotonic) elf_retire_ttl_ns))
            ctx.elf_ctx_list;
      statistics = record ctx.statistics {
        elf_ctx_count = decrement ctx.statistics.elf_ctx_count;
        retired_elf_ctx_count = add64 ctx.statistics.retired_elf_ctx_count 1;
      };
      next_retired_elf_deadline_ns =
          earlier
            (add64 (cache_now_ns ctx monotonic) elf_retire_ttl_ns)
            ctx.next_retired_elf_deadline_ns;
    }
unfolding retire_elf_ctx
retire_elf_ctx-eq monotonic ctx e n = rw (retire_elf_ctx, n) refl

pub earlier-nonzero : (d n : ℕ) → d ≢ 0 → earlier d n ≢ 0
earlier-nonzero d n h = ground arith

pub earlier-le : (d n : ℕ) → earlier d n ≤ d
earlier-le d n = ground arith

pub earlier-le_next : (d n : ℕ) → n ≢ 0 → earlier d n ≤ n
earlier-le_next d n h = ground arith

pub IsGood-earlier : (d n : ℕ) (e : ElfCtx) → d ≢ 0 → IsGood n e → IsGood (earlier d n) e
IsGood-earlier d n e nz (inl h) = inl h
IsGood-earlier d n e nz (inr (y, idle_now, later, due_later)) =
    inr (y, idle_now, earlier-nonzero d n nz, omega (arith, earlier-le_next d n later, due_later))
