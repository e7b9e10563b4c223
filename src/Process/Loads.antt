-- ===== src/Process/Loads.antt =====
-- The loop of `gu_load_pid` in src/gu_stacktrace.c over the mappings of a process.
use libgunwinder.Base.{
  ℕ, ◌+◌, ◌^◌, ◌≡◌, ◌≤◌, ◌<◌, refl, ap, sym, inl, inr, false, Option, none, some, List, [], ◌∷◌,
  ◌==◌, arith, Bool-cases, Option-cases, length,
}
use mathlib.Core.Path.{subst}
use libgunwinder.Context.{ElfCtx, GuContext, find_elf, load_elf}
use libgunwinder.Context.Table.{total, one, find_elf-id}
use libgunwinder.Process.{
  MapCtx, Opening, Loading, loaded_id, alloc_elf_map_ctx, resolve_map_exec_virt_addr, load_map,
  add_map, load_maps,
}
use libgunwinder.Process.Users.{is, IsShared}
use libgunwinder.Process.Sharing.Taking.{load_elf-IsShared}
use libgunwinder.Process.Clean.{user}

-- What the system's allocator gives: a module just read lies at a free address of a table that is
-- not full, and the map contexts of a process lie at addresses of the lower half that differ.
abbrev pub IsFresh : GuContext → Option ElfCtx → Type 0
IsFresh ctx none = Unit
IsFresh ctx (some loaded) =
    (find_elf loaded.id ctx.elf_ctx_list ≡ none) × (total one ctx.elf_ctx_list + 1 < 2 ^ 64)

abbrev pub IsElsewhere : ℕ → List Opening → Type 0
IsElsewhere a [] = Unit
IsElsewhere a (o ∷ r) = ((o.address == a) ≡ false) × IsElsewhere a r

abbrev pub IsPlaced : GuContext → List Opening → Type 0
IsPlaced ctx [] = Unit
IsPlaced ctx (o ∷ r) =
    (o.address < 2 ^ 63)
    × IsElsewhere o.address r
    × IsFresh ctx o.opened
    × IsPlaced (load_map ctx o).0 r

module _ (ctx : GuContext) (o : Opening) where
  load_map-none : o.opened ≡ none → load_map ctx o ≡ (ctx, none)
  unfolding load_map
  load_map-none h = rw (load_map, h) refl

  load_map-some :
      (loaded e : ElfCtx)
      → o.opened ≡ some loaded
      → find_elf (loaded_id ctx loaded) (load_elf ctx loaded).elf_ctx_list ≡ some e
      → load_map ctx o
        ≡ (load_elf ctx loaded, some (alloc_elf_map_ctx e (resolve_map_exec_virt_addr e o.info)))
  unfolding load_map
  load_map-some loaded e h found = rw (load_map, h, found) refl

  -- A mapping adds the reference of its map context, if it has one.
  load_map-IsShared :
      (refs : ℕ → ℕ)
      → IsShared ctx refs
      → IsFresh ctx o.opened
      → ((j : ℕ) → refs j + 1 < 2 ^ 64)
      → IsShared (load_map ctx o).0 (λ j. user j (load_map ctx o).1 + refs j)
  unfolding alloc_elf_map_ctx
  load_map-IsShared refs (well, counts, single) fresh few = elim (Option-cases o.opened) [
    | inl h ↦
        (let call = load_map-none h in
          subst (λ p. IsShared p.0 (λ j. user j p.1 + refs j)) (sym call)
            (well, (λ j. omega (arith, counts j)), single))
    | inr (loaded, h) ↦
        (let (free, room) = subst (IsFresh ctx) h fresh in
          let ((e, found), shared₁) =
            load_elf-IsShared ctx refs (well, counts, single) loaded free room few in
          let at_id : e.id ≡ loaded_id ctx loaded =
            find_elf-id (loaded_id ctx loaded) (load_elf ctx loaded).elf_ctx_list e found in
          subst (λ p. IsShared p.0 (λ j. user j p.1 + refs j))
            (sym (load_map-some loaded e h found))
            (shared₁.0, (λ j. omega (arith, shared₁.1 j, ap (λ n. is n j) at_id)), shared₁.2))
  ]

  user-most : (j : ℕ) (m : Option MapCtx) → user j m ≤ 1
  user-most j none = omega arith
  user-most j (some m) = elim (Bool-cases (m.elf_ctx == j)) [
    | inl y ↦ rw y (omega arith)
    | inr n ↦ rw n (omega arith)
  ]

-- The references of the map contexts of a process.
abbrev pub sum_ctxs : (Option MapCtx → ℕ) → List (ℕ × MapCtx) → ℕ
sum_ctxs f [] = 0
sum_ctxs f ((a, m) ∷ r) = f (some m) + sum_ctxs f r

abbrev pub map_users : ℕ → List (ℕ × MapCtx) → ℕ
map_users j ms = sum_ctxs (user j) ms

add_map-users :
    (o : Opening) (m : Option MapCtx) (l : Loading) (j : ℕ)
    → map_users j (add_map o m l).map_ctxs ≡ user j m + map_users j l.map_ctxs
add_map-users o none l j = omega arith
add_map-users o (some m) l j = refl

pub add_map-context :
    (o : Opening) (m : Option MapCtx) (l : Loading) → (add_map o m l).context ≡ l.context
add_map-context o none l = refl
add_map-context o (some m) l = refl

pub load_maps-cons :
    (ctx : GuContext) (o : Opening) (r : List Opening)
    → load_maps ctx (o ∷ r) ≡ add_map o (load_map ctx o).1 (load_maps (load_map ctx o).0 r)
unfolding load_maps
load_maps-cons ctx o r = refl

pub load_maps-nil :
    (ctx : GuContext) → load_maps ctx [] ≡ record { context = ctx; items = []; map_ctxs = [] }
unfolding load_maps
load_maps-nil ctx = refl

-- Loading the mappings of a process adds one reference per map context.
pub load_maps-IsShared :
    (ctx : GuContext) (os : List Opening) (refs : ℕ → ℕ)
    → IsShared ctx refs
    → IsPlaced ctx os
    → ((j : ℕ) → refs j + length os < 2 ^ 64)
    → IsShared (load_maps ctx os).context (λ j. map_users j (load_maps ctx os).map_ctxs + refs j)
load_maps-IsShared ctx [] refs (well, counts, single) placed few =
    subst (λ l. IsShared l.context (λ j. map_users j l.map_ctxs + refs j)) (sym (load_maps-nil ctx))
      (well, (λ j. omega (arith, counts j)), single)
load_maps-IsShared ctx (o ∷ r) refs shared (low, apart, fresh, placed) few =
    let p = load_map ctx o in
    let l = load_maps p.0 r in
    let (well, counts, single) =
      load_maps-IsShared p.0 r (λ j. user j p.1 + refs j)
        (load_map-IsShared ctx o refs shared fresh (λ j. omega (arith, few j))) placed
        (λ j. omega (arith, few j, user-most ctx o j p.1)) in
    subst (λ l. IsShared l.context (λ j. map_users j l.map_ctxs + refs j))
      (sym (load_maps-cons ctx o r))
      (subst (λ c. IsShared c (λ j. map_users j (add_map o p.1 l).map_ctxs + refs j))
        (sym (add_map-context o p.1 l))
        (well, (λ j. omega (arith, counts j, add_map-users o p.1 l j)), single))

pub load_maps-few :
    (ctx : GuContext) (os : List Opening) (j : ℕ)
    → map_users j (load_maps ctx os).map_ctxs ≤ length os
load_maps-few ctx [] j = omega (arith, ap (λ l. map_users j l.map_ctxs) (load_maps-nil ctx))
load_maps-few ctx (o ∷ r) j =
    let p = load_map ctx o in
    omega (
      arith,
      ap (λ l. map_users j l.map_ctxs) (load_maps-cons ctx o r),
      add_map-users o p.1 (load_maps p.0 r) j,
      user-most ctx o j p.1,
      load_maps-few p.0 r j,
    )
