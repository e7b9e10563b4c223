-- ===== src/Process/Cleanup.antt =====
-- `gu_cleanup` of src/gu_stacktrace.c frees every process and every module.
use libgunwinder.Base.{
  ℕ, suc, ◌+◌, ◌^◌, ◌≡◌, ◌<◌, refl, ap, ◌∙◌, inl, inr, true, List, [], ◌∷◌, arith, ==_refl, ok,
}
use libgunwinder.Context.{uint64_max, ElfCtx, elf_retire_ttl_ns, is_due, retired_elf_sweep}
use libgunwinder.Context.Table.{total, Every}
use libgunwinder.Context.Count.{IsGood}
use libgunwinder.Context.Expiry.{survivors, survivors-gone, retired_elf_sweep-survivors}
use libgunwinder.Process.{Process}
use libgunwinder.Process.Users.{users}
use libgunwinder.Process.Pids.{find_pid-here, delete_pid-here}
use libgunwinder.Process.Life.{total_users, IsSound, free_pid_ctx-IsSound}
use libgunwinder.Process.Calls.{Store, find_pid, delete_pid, cleanup_pids, without_timer, cleanup}

-- Every module without users is due at the end of time.
no_survivors :
    (next : ℕ) (l : List ElfCtx)
    → Every (IsGood next) l
    → ((j : ℕ) → total (users j) l ≡ 0)
    → survivors uint64_max l ≡ []
unfolding survivors
no_survivors next [] good unused = refl
no_survivors next (e ∷ r) (inl (live, held), good) unused =
    let own : users e.id e ≡ e.refcnt = rw (==_refl e.id) refl in
    absurd (held (omega (arith, own, unused e.id)))
no_survivors next (e ∷ r) (inr (y, none_left, next_set, later), good) unused =
    let due : is_due uint64_max e ≡ true = rw y refl in
    survivors-gone uint64_max e r due ∙ no_survivors next r good (λ j. omega (arith, unused j))

abbrev pub AllSoon : (ℕ → ℕ → ℕ) → Store → Type 0
AllSoon clocks s =
    (s.context.retire_timer_now_ns + elf_retire_ttl_ns < 2 ^ 64)
    × ((i k : ℕ) → clocks i k + elf_retire_ttl_ns < 2 ^ 64)

cleanup_pids-IsSound :
    (clocks : ℕ → ℕ → ℕ) (l : List Process) (s : Store)
    → s.pid_ctx_list ≡ l
    → IsSound s
    → AllSoon clocks s
    → (t : Store) × (cleanup_pids clocks l s ≡ ok t) × IsSound t × (t.pid_ctx_list ≡ [])
unfolding cleanup_pids
cleanup_pids-IsSound clocks [] s list sound soon = (s, refl, sound, list)
cleanup_pids-IsSound clocks (p ∷ r) s list sound (timer, clock) =
    let pid = p.schedule.pid in
    let (t, run, kept, left, events, same) =
      free_pid_ctx-IsSound (clocks 0) s pid p
        (ap (find_pid pid) list ∙ find_pid-here pid p r (==_refl pid)) sound (timer, clock 0) in
    let (u, rest, sound₁, gone) =
      cleanup_pids-IsSound (λ k. clocks (suc k)) r t
        (left ∙ ap (delete_pid pid) list ∙ delete_pid-here pid p r (==_refl pid)) kept
        (omega (arith, timer, same), (λ i. clock (suc i))) in
    (u, rw run rest, sound₁, gone)

-- In a store whose modules are counted by the map contexts of its processes, if the clock plus ten
-- seconds stays below 2^64, cleaning up ends without a fault and leaves no process and no module.
pub cleanup-frees :
    (clocks : ℕ → ℕ → ℕ) (s : Store)
    → IsSound s
    → AllSoon clocks s
    → (t : Store) × (cleanup clocks s ≡ ok t)
      × (t.pid_ctx_list ≡ [])
      × (t.context.elf_ctx_list ≡ [])
unfolding cleanup
cleanup-frees clocks s sound soon =
    let (t, run, kept, gone) =
      cleanup_pids-IsSound clocks s.pid_ctx_list (without_timer s) refl sound soon in
    (
      record t { context = retired_elf_sweep t.context uint64_max },
      rw run refl,
      gone,
      retired_elf_sweep-survivors t.context uint64_max kept.0.0 (omega arith)
          ∙ no_survivors t.context.next_retired_elf_deadline_ns t.context.elf_ctx_list kept.0.0.3
              (λ j. kept.0.1 j ∙ ap (total_users j) gone),
    )
