-- ===== src/Process/Load.antt =====
-- `gu_load_pid` of src/gu_stacktrace.c: a process that was loaded holds one reference per map
-- context, and a load that fails at the array gives up those that it took.
use libgunwinder.Base.{
  ℕ, ◌+◌, ◌^◌, ◌≡◌, ◌≤◌, ◌<◌, refl, ap, sym, ◌∙◌, ◌⊎◌, inl, inr, Bool, Option, none, some, List, [],
  ◌∷◌, arith, Option-cases, length, Run, ok,
}
use mathlib.Core.Path.{subst}
use libgunwinder.Context.{GuContext}
use libgunwinder.Context.Reload.{schedule_next_maps_reload}
use libgunwinder.Interval
use libgunwinder.Interval.{Item, IntervalArray, Qsort, visited}
use libgunwinder.Process.{
  MapCtx, Opening, Loadable, Loading, Process, load_map, load_maps, find_map_ctx, first_golang,
  clean_all, pointers, owned, counted_alloc, loaded_process, end_load, load_pid,
}
use libgunwinder.Process.Users.{is, IsShared}
use libgunwinder.Process.Pointers.{
  weigh_items, weigh-visited, init-weigh, init-pointers, init-IsBuilt, IsBuilt, init-owned,
}
use libgunwinder.Process.Timer.{load_elf-timer}
use libgunwinder.Process.Clean.{user, missing, weigh_found, IsOnce, IsSoon, clean_all-IsShared}
use libgunwinder.Process.Loads.{
  IsPlaced, map_users, load_maps-nil, load_maps-cons, add_map-context, load_maps-IsShared,
  load_maps-few,
}
use libgunwinder.Process.Items.{load_maps-found, load_maps-present, load_maps-once, load_maps-owned}

-- The references to a module that a process holds: the pointers of its array to map contexts of it.
abbrev pub process_users : ℕ → Process → ℕ
process_users j p = weigh_found (user j) p.map_ctxs (pointers p.elf_ctx_list)

-- The array of a process is one that was built, each pointer in it has a map context,
-- none stands in it twice, and the array owns none.
abbrev pub IsHeld : Process → Type 0
IsHeld p =
    (weigh_found missing p.map_ctxs (pointers p.elf_ctx_list) ≡ 0)
    × ((x : Item) × (r : List Item) × IsBuilt x r p.elf_ctx_list)
    × IsOnce (pointers p.elf_ctx_list)
    × (owned p.elf_ctx_list ≡ [])

load_map-timer :
    (ctx : GuContext) (o : Opening)
    → (load_map ctx o).0.retire_timer_now_ns ≡ ctx.retire_timer_now_ns
unfolding load_map
load_map-timer ctx o = elim (Option-cases o.opened) [
  | inl n ↦ rw (load_map, n) refl
  | inr (e, h) ↦ rw (load_map, h) (load_elf-timer ctx e)
]

load_maps-timer :
    (ctx : GuContext) (os : List Opening)
    → (load_maps ctx os).context.retire_timer_now_ns ≡ ctx.retire_timer_now_ns
load_maps-timer ctx [] = ap (λ l. l.context.retire_timer_now_ns) (load_maps-nil ctx)
load_maps-timer ctx (o ∷ r) =
    let p = load_map ctx o in
    ap (λ l. l.context.retire_timer_now_ns) (load_maps-cons ctx o r)
    ∙ ap (λ c. c.retire_timer_now_ns) (add_map-context o p.1 (load_maps p.0 r))
    ∙ load_maps-timer p.0 r
    ∙ load_map-timer ctx o

-- What a load leaves: a process with its references, or none.
abbrev pub Added : (ℕ → ℕ) → ℕ → ℕ → GuContext → Process → Type 0
Added refs n pid c p =
    (p.schedule.pid ≡ pid)
    × IsHeld p
    × ((j : ℕ) → process_users j p ≤ n)
    × IsShared c (λ j. process_users j p + refs j)

abbrev pub Loads : (ℕ → ℕ) → ℕ → ℕ → Run (GuContext × Option Process) → Type 0
Loads refs n pid run =
    ((c : GuContext) × (p : Process) × (run ≡ ok (c, some p)) × Added refs n pid c p)
    ⊎ ((c : GuContext) × (run ≡ ok (c, none)) × IsShared c refs)

List-cases : (os : List Opening) → (os ≡ []) ⊎ ((o : Opening) × (r : List Opening) × (os ≡ o ∷ r))
List-cases [] = inl refl
List-cases (o ∷ r) = inr (o, r, refl)

module _ (qsort : Qsort) (ctx : GuContext) (env : Loadable) (refs : ℕ → ℕ)
    (shared : IsShared ctx refs) (placed : IsPlaced ctx env.openings)
    (few : (j : ℕ) → refs j + length env.openings < 2 ^ 64) (soon : IsSoon env.clock ctx)
    (golang : Bool) (pid unique_id : ℕ) where
  abbrev l : Loading
  l = load_maps ctx env.openings

  abbrev filled : List Item × Option IntervalArray
  filled = Interval.init qsort env.alloc_array env.alloc_items l.items

  kept : IsShared l.context (λ j. map_users j l.map_ctxs + refs j)
  kept = load_maps-IsShared ctx env.openings refs shared placed few

  end_load-some :
      (a : IntervalArray)
      → filled.1 ≡ some a
      → end_load golang pid unique_id env l filled
        ≡ ok (l.context, some (loaded_process l.context golang pid unique_id env l a))
  unfolding end_load
  end_load-some a h = rw h refl

  loaded_process-Added :
      (a : IntervalArray)
      → filled.1 ≡ some a
      → Added refs
          (length env.openings)
          pid
          l.context
          (loaded_process l.context golang pid unique_id env l a)
  unfolding loaded_process schedule_next_maps_reload
  loaded_process-Added a h =
      let present =
        init-pointers (λ p. missing (find_map_ctx p l.map_ctxs)) qsort env.alloc_array
          env.alloc_items l.items a h
        ∙ load_maps-present ctx env.openings placed in
      let all : (j : ℕ)
          → weigh_found (user j) l.map_ctxs (pointers (some a)) ≡ map_users j l.map_ctxs =
        (λ j.
          init-pointers (λ p. user j (find_map_ctx p l.map_ctxs)) qsort env.alloc_array
            env.alloc_items l.items a h
          ∙ load_maps-found (user j) ctx env.openings placed) in
      (
        refl,
        (
          present,
          init-IsBuilt qsort env.alloc_array env.alloc_items l.items a h,
          (λ q. omega (
            arith,
            init-pointers (is q) qsort env.alloc_array env.alloc_items l.items a h,
            load_maps-once ctx env.openings q placed,
          )),
          init-owned qsort env.alloc_array env.alloc_items l.items a h
              (load_maps-owned ctx env.openings placed),
        ),
        (λ j. omega (arith, all j, load_maps-few ctx env.openings j)),
        (kept.0, (λ j. omega (arith, kept.1 j, all j)), kept.2),
      )

  end_load-none :
      (c : GuContext) (ms : List (ℕ × MapCtx))
      → filled.1 ≡ none
      → clean_all env.clock l.map_ctxs (visited filled.0) l.context ≡ ok (ms, c)
      → end_load golang pid unique_id env l filled ≡ ok (c, none)
  unfolding end_load
  end_load-none c ms h cleaned = rw (h, cleaned) refl

  cleaned_up :
      (c : GuContext) × (ms : List (ℕ × MapCtx)) × (clean_all env.clock l.map_ctxs
          (visited filled.0)
          l.context
        ≡ ok (ms, c))
      × IsShared c refs
      × (c.retire_timer_now_ns ≡ l.context.retire_timer_now_ns)
  cleaned_up =
      let back : (f : Option MapCtx → ℕ)
          → weigh_found f l.map_ctxs (visited filled.0)
            ≡ weigh_items (λ p. f (find_map_ctx p l.map_ctxs)) l.items =
        (λ f.
          weigh-visited (λ p. f (find_map_ctx p l.map_ctxs)) filled.0
          ∙ init-weigh (λ p. f (find_map_ctx p l.map_ctxs)) qsort env.alloc_array env.alloc_items
              l.items) in
      clean_all-IsShared env.clock l.map_ctxs (visited filled.0) l.context
        (λ j. map_users j l.map_ctxs + refs j) refs kept
        (λ j. omega (arith, back (user j), load_maps-found (user j) ctx env.openings placed))
        (back missing ∙ load_maps-present ctx env.openings placed)
        (λ q. omega (
          arith,
          weigh-visited (is q) filled.0,
          init-weigh (is q) qsort env.alloc_array env.alloc_items l.items,
          load_maps-once ctx env.openings q placed,
        ))
        (λ j. omega (arith, few j, load_maps-few ctx env.openings j))
        (omega (arith, soon.0, load_maps-timer ctx env.openings), soon.1)

  end_load-Loads : Loads refs (length env.openings) pid (end_load golang pid unique_id env l filled)
  end_load-Loads = elim (Option-cases filled.1) [
    | inr (a, h) ↦ inl (
      l.context,
      loaded_process l.context golang pid unique_id env l a,
      end_load-some a h,
      loaded_process-Added a h,
    )
    | inl h ↦
        (let (c, ms, run, back, timer) = cleaned_up in inr (c, end_load-none c ms h run, back))
  ]

module _ (qsort : Qsort) (ctx : GuContext) (pid unique_id : ℕ) (env : Loadable) where
  load_pid-nil : env.openings ≡ [] → load_pid qsort ctx pid unique_id env ≡ ok (ctx, none)
  unfolding load_pid
  load_pid-nil h = rw (load_pid, h) refl

  load_pid-cons :
      (o : Opening) (r : List Opening)
      → env.openings ≡ o ∷ r
      → load_pid qsort ctx pid unique_id env
        ≡ end_load
            (first_golang (counted_alloc ctx) env.openings)
            pid
            unique_id
            env
            (load_maps (counted_alloc ctx) env.openings)
            (Interval.init qsort env.alloc_array env.alloc_items
              (load_maps (counted_alloc ctx) env.openings).items)
  unfolding load_pid
  load_pid-cons o r h =
      let pick : List Opening → Run (GuContext × Option Process) = (λ os. elim os [
        | [] ↦ ok (ctx, none)
        | o ∷ r ↦
            end_load (first_golang (counted_alloc ctx) env.openings) pid unique_id env
              (load_maps (counted_alloc ctx) env.openings)
              (Interval.init qsort env.alloc_array env.alloc_items
                (load_maps (counted_alloc ctx) env.openings).items)
      ]) in
      ap pick h

  -- If each module has as many users as references, fresh memory is at free addresses, and counts
  -- and the clock stay below 2^64, loading a process ends without a fault. Either it gives a
  -- process of that identifier whose array was built, with a map context behind each pointer and
  -- none of them twice, and the modules have the references of these more; or it gives none, and
  -- the references are as before, also where the array could not be allocated.
  pub load_pid-IsShared :
      (refs : ℕ → ℕ)
      → IsShared ctx refs
      → IsPlaced (counted_alloc ctx) env.openings
      → ((j : ℕ) → refs j + length env.openings < 2 ^ 64)
      → IsSoon env.clock ctx
      → Loads refs (length env.openings) pid (load_pid qsort ctx pid unique_id env)
  load_pid-IsShared refs shared placed few soon = elim (List-cases env.openings) [
    | inl h ↦ inr (ctx, load_pid-nil h, shared)
    | inr (o, r, h) ↦ subst (Loads refs (length env.openings) pid) (sym (load_pid-cons o r h)) (
        end_load-Loads qsort (counted_alloc ctx) env refs shared placed few soon
          (first_golang (counted_alloc ctx) env.openings) pid unique_id)
  ]
