-- ===== src/Context/Reload.antt =====
-- When `gu_search_pid_elf_ctx` of src/gu_stacktrace.c may read a process's mappings again: the
-- random delay, the schedule and its test. Each reading of the clock is an argument.
use libgunwinder.Base.{
  ℕ, ◌+◌, ◌*◌, ◌-◌, ◌^◌, ◌/◌, ◌%◌, ◌≡◌, ◌≢◌, ◌≤◌, ◌<◌, refl, ◌⊎◌, inl, inr, Bool, true, false, ◌==◌,
  leb, if◌then◌else◌, arith, Bool-cases, bit_xor,
}
use libgunwinder.Base.Words.{u64, add64}
use libgunwinder.Context.{GuContext, cache_now_ns}

abbrev pub reload_min_ns : ℕ
reload_min_ns = 30 * 1000000000

abbrev pub reload_max_ns : ℕ
reload_max_ns = 90 * 1000000000

-- What struct per_pid_ctx keeps for the schedule; `address` is its own, which seeds the delay.
pub record PidCtx : Type 0 where
  pub address : ℕ
  pub pid : ℕ
  pub unique_id : ℕ
  pub last_maps_load_ns : ℕ
  pub next_maps_reload_ns : ℕ
  pub maps_reload_rand_state : ℕ

unfoldable pub shift_steps : ℕ → ℕ
shift_steps x =
    let a = bit_xor x (u64 (x * 2 ^ 13)) in
    let b = bit_xor a (a / 2 ^ 7) in bit_xor b (u64 (b * 2 ^ 17))

unfoldable pub xorshift : ℕ → ℕ
xorshift x = if shift_steps x == 0 then 15111065706836454659 else shift_steps x

unfoldable pub random_seed : PidCtx → ℕ → ℕ
random_seed p monotonic =
    let x = bit_xor (bit_xor (bit_xor (p.pid % 2 ^ 32 * 2 ^ 32) p.unique_id) monotonic) p.address in
    let y = if p.maps_reload_rand_state == 0 then x else p.maps_reload_rand_state in
    if y == 0 then 11400714819323198485 else y

-- The random number, which is the new state as well.
unfoldable pub maps_reload_random_u64 : PidCtx → ℕ → ℕ
maps_reload_random_u64 p monotonic = xorshift (random_seed p monotonic)

unfoldable pub schedule_next_maps_reload : GuContext → ℕ → ℕ → PidCtx → PidCtx
schedule_next_maps_reload ctx monotonic seed_time p =
    let now = cache_now_ns ctx monotonic in
    let x = maps_reload_random_u64 p seed_time in
    record p {
      maps_reload_rand_state = x;
      last_maps_load_ns = now;
      next_maps_reload_ns = add64 now (reload_min_ns + x % (reload_max_ns - reload_min_ns + 1));
    }

-- A test of the schedule: the states after it, and its answer.
pub record Allowed : Type 0 where
  pub context : GuContext
  pub pid_ctx : PidCtx
  pub answer : Bool

abbrev pub throttled : GuContext → GuContext
throttled ctx = record ctx {
  statistics = record ctx.statistics {
    pid_maps_reload_throttle_count = add64 ctx.statistics.pid_maps_reload_throttle_count 1;
  };
}

unfoldable pub maps_reload_allowed : GuContext → ℕ → ℕ → ℕ → PidCtx → Allowed
maps_reload_allowed ctx monotonic seed_time monotonic_later p =
    let q =
      if p.next_maps_reload_ns == 0
      then schedule_next_maps_reload ctx monotonic seed_time p
      else p in
    if leb q.next_maps_reload_ns (cache_now_ns ctx monotonic_later)
    then record { context = ctx; pid_ctx = q; answer = true }
    else record { context = throttled ctx; pid_ctx = q; answer = false }

nonzero_or : (c d : ℕ) → d ≢ 0 → (if c == 0 then d else c) ≢ 0
nonzero_or c d h = ground arith

xorshift-nonzero : (x : ℕ) → xorshift x ≢ 0
unfolding xorshift
xorshift-nonzero x = nonzero_or (shift_steps x) 15111065706836454659 (omega arith)

delay-le : (x : ℕ) → x % (reload_max_ns - reload_min_ns + 1) ≤ reload_max_ns - reload_min_ns
delay-le x = omega arith

-- The reload that a schedule at some time sets is that much later.
abbrev pub IsScheduled : ℕ → PidCtx → Type 0
IsScheduled now p =
    (p.last_maps_load_ns ≡ now)
    × (now + reload_min_ns ≤ p.next_maps_reload_ns)
    × (p.next_maps_reload_ns ≤ now + reload_max_ns)
    × (p.maps_reload_rand_state ≢ 0)

module _ (ctx : GuContext) (monotonic seed_time : ℕ) (p : PidCtx)
    (fits : cache_now_ns ctx monotonic + reload_max_ns < 2 ^ 64) where
  abbrev p₁ : PidCtx
  p₁ = schedule_next_maps_reload ctx monotonic seed_time p

  -- If the time plus 90 seconds is below 2^64, scheduling a reload sets it between 30 and 90
  -- seconds after that time, keeps the time, and leaves a random state other than 0.
  pub schedule_next_maps_reload-IsScheduled : IsScheduled (cache_now_ns ctx monotonic) p₁
  unfolding schedule_next_maps_reload maps_reload_random_u64
  schedule_next_maps_reload-IsScheduled =
      let x = xorshift (random_seed p seed_time) in
      (
        refl,
        omega (arith, delay-le x, fits),
        omega (arith, delay-le x, fits),
        xorshift-nonzero (random_seed p seed_time),
      )

  module _ (ctx₁ : GuContext) (m₀ m₁ m₂ : ℕ) where
    abbrev now : ℕ
    now = cache_now_ns ctx₁ m₂

    abbrev earlier_time : ℕ
    earlier_time = cache_now_ns ctx monotonic

    set_already : (p₁.next_maps_reload_ns == 0) ≡ false
    set_already = ground (arith, schedule_next_maps_reload-IsScheduled.1)

    refused :
        leb p₁.next_maps_reload_ns now ≡ false
        → maps_reload_allowed ctx₁ m₀ m₁ m₂ p₁
          ≡ record { context = throttled ctx₁; pid_ctx = p₁; answer = false }
    unfolding maps_reload_allowed
    refused h = rw (maps_reload_allowed, set_already, h) refl

    granted :
        leb p₁.next_maps_reload_ns now ≡ true
        → maps_reload_allowed ctx₁ m₀ m₁ m₂ p₁
          ≡ record { context = ctx₁; pid_ctx = p₁; answer = true }
    unfolding maps_reload_allowed
    granted h = rw (maps_reload_allowed, set_already, h) refl

    -- After a reload is scheduled at a time that plus 90 seconds is below 2^64, a later test
    -- either refuses, less than 90 seconds after it, and counts that and changes nothing else, or
    -- allows the reload, at least 30 seconds after it, and changes nothing.
    pub maps_reload_allowed-schedule :
        ((now < earlier_time + reload_max_ns)
          × (maps_reload_allowed ctx₁ m₀ m₁ m₂ p₁
              ≡ record { context = throttled ctx₁; pid_ctx = p₁; answer = false }))
        ⊎ ((earlier_time + reload_min_ns ≤ now)
            × (maps_reload_allowed ctx₁ m₀ m₁ m₂ p₁
                ≡ record { context = ctx₁; pid_ctx = p₁; answer = true }))
    maps_reload_allowed-schedule = elim (Bool-cases (leb p₁.next_maps_reload_ns now)) [
      | inl late ↦ inr (ground (arith, late, schedule_next_maps_reload-IsScheduled.1), granted late)
      | inr early ↦
          inl (ground (arith, early, schedule_next_maps_reload-IsScheduled.2), refused early)
    ]
