-- ===== src/Process/Search/Sound.antt =====
-- `gu_reload_pid_ctx` and `gu_search_pid_elf_ctx` of src/gu_stacktrace.c keep the store sound and end
-- without a fault.
use libgunwinder.Base.{
  ℕ, ◌+◌, ◌^◌, ◌≡◌, ◌<◌, refl, ap, sym, ◌∙◌, inl, inr, Bool, true, false, not, ◌||◌, ◌==◌, Option,
  none, some, if◌then◌else◌, arith, Bool-cases, length, Run, ok,
}
use mathlib.Core.Path.{subst}
use libgunwinder.Interval.{Item, Qsort}
use libgunwinder.Snapshot.{StackInfo}
use libgunwinder.Process.{Process, Loadable, counted_alloc}
use libgunwinder.Process.Clean.{IsSoon}
use libgunwinder.Process.Hits.{IsOf, IsCleared}
use libgunwinder.Process.Loads.{IsPlaced}
use libgunwinder.Process.Pids.{delete_pid-PidsApart}
use libgunwinder.Process.Life.{
  total_users, IsSound, KeepsMaps, delete_pid-Taken, clear_pid_ctx-IsSound, load_process-IsSound,
}
use libgunwinder.Process.Calls.{
  Store, find_pid, clear_pid_ctx, load_process, reload_pid_ctx, kept_by,
}
use libgunwinder.Process.Search.{
  SearchAnswers, Searched, test_reload, counted_reload, hinted, search_again, is_found,
  search_reloaded, search_miss, search_pid_elf_ctx,
}
use libgunwinder.Process.Search.Live.{Leads, search-Leads, item-Leads}
use libgunwinder.Process.Search.Miss.{test_reload-IsSound}

-- The allocator's promise for a load after a process is removed.
abbrev pub PlacedAfter : (ℕ → ℕ) → Store → Process → Loadable → Type 0
PlacedAfter clock s p env =
    (t : Store) → clear_pid_ctx clock s p ≡ ok t → IsPlaced (counted_alloc t.context) env.openings

kept_by-KeepsMaps : (old : Process) → KeepsMaps (kept_by old)
kept_by-KeepsMaps old p = (refl, refl, refl)

module _ (qsort : Qsort) (clock : ℕ → ℕ) (s : Store) (pid : ℕ) (old : Process) (unique_id : ℕ)
    (env : Loadable) where
  reload_pid_ctx-run :
      (t : Store) (r : Store × Option Process)
      → clear_pid_ctx clock s old ≡ ok t
      → load_process qsort t (kept_by old) old.schedule.pid unique_id env ≡ ok r
      → reload_pid_ctx qsort clock s old unique_id env ≡ ok r
  unfolding reload_pid_ctx
  reload_pid_ctx-run t r h k = rw (reload_pid_ctx, h, k) refl

  -- A reload never faults; the process is in the store afterwards just if it was loaded.
  pub reload_pid_ctx-IsSound :
      IsSound s
      → find_pid pid s.pid_ctx_list ≡ some old
      → IsSoon clock s.context
      → IsSoon env.clock s.context
      → PlacedAfter clock s old env
      → ((j : ℕ) → total_users j s.pid_ctx_list + length env.openings < 2 ^ 64)
      → (t : Store) × (r : Option Process) × (reload_pid_ctx qsort clock s old unique_id env
          ≡ ok (t, r))
        × IsSound t
        × (find_pid pid t.pid_ctx_list ≡ r)
  reload_pid_ctx-IsSound sound there soon later placed room =
      let l = s.pid_ctx_list in
      let (at_pid, here, rest, split) = delete_pid-Taken pid l old there sound.1 in
      let (t, run, kept, list, events, timer) =
        clear_pid_ctx-IsSound clock s pid old there sound soon in
      let gone : find_pid old.schedule.pid t.pid_ctx_list ≡ none =
        ap (λ n. find_pid n t.pid_ctx_list) at_pid
        ∙ ap (find_pid pid) list
        ∙ (delete_pid-PidsApart pid l sound.3).1 in
      let (u, r, loaded, kept₁, found₁) =
        load_process-IsSound qsort t (kept_by old) old.schedule.pid unique_id env
          (kept_by-KeepsMaps old) kept gone (placed t run)
          (λ j. omega (arith, room j, split j, ap (total_users j) list))
          (omega (arith, later.0, timer), later.1) in
      (
        u,
        r,
        reload_pid_ctx-run t (u, r) run loaded,
        kept₁,
        ap (λ n. find_pid n u.pid_ctx_list) (sym at_pid) ∙ found₁,
      )

-- What a search leaves: the process that is in the store and what the item leads to, or no process
-- and no mapping; where there is no mapping, the item's pointer is NULL.
abbrev pub Leaves : Store → Option Process → Option ℕ → Item → Type 0
Leaves s none index item = (index ≡ none) × ((item.private == 0) ≡ true)
Leaves s (some p) index item = Leads s p item × IsCleared index item

abbrev pub IsOutcome : ℕ → Run Searched → Type 0
IsOutcome pid run =
    (r : Searched) × (run ≡ ok r)
    × IsSound r.store
    × (find_pid pid r.store.pid_ctx_list ≡ r.pid_ctx)
    × Leaves r.store r.pid_ctx r.index r.item

either :
    (pid : ℕ) (b : Bool) {m n : Run Searched}
    → IsOutcome pid m
    → IsOutcome pid n
    → IsOutcome pid (if not b then m else n)
either pid true km kn = kn
either pid false km kn = km

missed-null :
    (index : Option ℕ) (item : Item) (b : Bool)
    → (is_found index || b) ≡ false
    → IsCleared index item
    → (item.private == 0) ≡ true
missed-null none item b n cleared = cleared
missed-null (some i) item b n cleared = absurd (cc n)

module _ (info : StackInfo) (pc pid : ℕ) (item : Item) where
  search_again-IsOutcome :
      (s : Store) (p : Option Process)
      → IsSound s
      → find_pid pid s.pid_ctx_list ≡ p
      → (item.private == 0) ≡ true
      → IsOutcome pid (search_again info pc item (s, p))
  unfolding search_again
  search_again-IsOutcome s none sound there null = (_, refl, sound, there, (refl, null))
  search_again-IsOutcome s (some p) sound there null =
      let (r, run, kept, leads, cleared) = search-Leads s pid p sound there pc in
      (
        record {
          store = s;
          pid_ctx = some p;
          info = hinted p info;
          index = r.index;
          item = r.item;
          maps_reloaded = true;
        },
        rw run refl,
        sound,
        there,
        (leads, cleared),
      )

module _ (qsort : Qsort) (env : SearchAnswers) (s : Store) (pid : ℕ) (p : Process)
    (info : StackInfo) (pc : ℕ) (sound : IsSound s) (there : find_pid pid s.pid_ctx_list ≡ some p)
    (soon : IsSoon env.clock s.context) (later : IsSoon env.load.clock s.context)
    (placed : PlacedAfter env.clock
      (counted_reload (test_reload env s p).0)
      (test_reload env s p).1
      env.load)
    (room : (j : ℕ) → total_users j s.pid_ctx_list + length env.load.openings < 2 ^ 64) where
  abbrev s₁ : Store
  s₁ = (test_reload env s p).0

  abbrev p₁ : Process
  p₁ = (test_reload env s p).1

  search_reloaded-IsOutcome :
      (item : Item)
      → (item.private == 0) ≡ true
      → IsOutcome pid (search_reloaded qsort env s₁ p₁ info pc item)
  unfolding search_reloaded
  search_reloaded-IsOutcome item null =
      let (sound₁, there₁, same, timer, users₁) = test_reload-IsSound env s pid p sound there in
      let (t, r, run, kept, found₁) =
        reload_pid_ctx-IsSound qsort env.clock (counted_reload s₁) pid p₁ info.unique_id env.load
          sound₁ there₁ (omega (arith, soon.0, timer), soon.1)
          (omega (arith, later.0, timer), later.1) placed (λ j. omega (arith, room j, users₁ j)) in
      rw run (search_again-IsOutcome info pc pid item t r kept found₁ null)

  search_miss-IsOutcome :
      (item : Item)
      → ((g : ℕ → ℕ) → IsOf g p.elf_ctx_list item)
      → (item.private == 0) ≡ true
      → IsOutcome pid (search_miss qsort env s p info pc item)
  unfolding search_miss
  search_miss-IsOutcome item kept null =
      let (sound₁, there₁, same, timer, users₁) = test_reload-IsSound env s pid p sound there in
      let leads =
        item-Leads s₁ pid p₁ sound₁ there₁ item
          (λ g. subst (λ a. IsOf g a item) (sym same) (kept g)) in
      either pid (test_reload env s p).2 (_, refl, sound₁, there₁, (leads, null))
        (either pid env.alive (_, refl, sound₁, there₁, (leads, null))
          (search_reloaded-IsOutcome item null))

  -- In a store whose modules are counted by the map contexts of its processes, with each process
  -- once, the search for the mapping of an address on behalf of a process that is in the store
  -- ends without a fault, whether or not the mappings are read again and whatever that finds, if
  -- fresh memory is at free addresses, counts and the clock stay below 2^64, and the debug mode is
  -- off. The store is such a store again; the process context it leaves is the one in the store,
  -- or none with no mapping found and an item whose pointer is NULL; and with a process, the
  -- item's pointer is NULL, as it is where no mapping is found, or leads to a map context whose
  -- module is in the table, has users and is not retired.
  pub search_pid_elf_ctx-IsOutcome :
      (maps_reloaded : Bool)
      → IsOutcome pid (search_pid_elf_ctx qsort env s p info pc maps_reloaded)
  unfolding search_pid_elf_ctx
  search_pid_elf_ctx-IsOutcome maps_reloaded =
      let (r, run, kept, leads, cleared) = search-Leads s pid p sound there pc in
      elim (Bool-cases (is_found r.index || maps_reloaded)) [
        | inl y ↦ rw (run, y) (_, refl, sound, there, (leads, cleared))
        | inr n ↦
            rw (run, n)
              (search_miss-IsOutcome r.item kept
                (missed-null r.index r.item maps_reloaded n cleared))
      ]
