-- ===== src/Process/Sharing/Taking.antt =====
-- A load of a module of src/gu_stacktrace.c adds a user to it.
use libgunwinder.Base.{
  ℕ, ◌+◌, ◌^◌, ◌≡◌, ◌≤◌, ◌<◌, refl, ap, sym, ◌∙◌, inl, inr, false, none, some, List, [], ◌∷◌, ◌++◌,
  ◌==◌, if◌then◌else◌, arith, Bool-cases, Option-cases, ==→eq, ==_refl,
}
use mathlib.Core.Path.{subst}
use libgunwinder.Base.Words.{add64}
use libgunwinder.Context.{
  ElfCtx, GuContext, find_elf, update_elf, find_build_id, with_refcnt, unretired, load_elf,
  add_elf_ctx,
}
use libgunwinder.Context.Table.{
  total, one, Every, find_elf-id, find_build_id-find_elf, total-append, Every-find_elf,
  update_elf-twice,
}
use libgunwinder.Context.Load.{
  load_elf-IsWell, load_elf-none, load_elf-some, take_elf_ctx-live, take_elf_ctx-retired,
}
use libgunwinder.Process.{loaded_id}
use libgunwinder.Process.Users.{
  users, named, is, IsShared, named-none, find_elf-some, named-update_elf, users-update_elf,
}
use libgunwinder.Process.Sharing.{Changed}

one_more :
    (id j n m t t₁ r : ℕ)
    → m ≡ n + 1
    → t₁ + (if id == j then n else 0) ≡ t + (if id == j then m else 0)
    → t ≡ r
    → t₁ ≡ is id j + r
one_more id j n m t t₁ r more sum counts = ground (arith, more, sum, counts)

-- Each count of users is below a bound of all sums.
Every-users :
    (l : List ElfCtx)
    → ((j : ℕ) → total (users j) l + 1 < 2 ^ 64)
    → Every (λ e. e.refcnt + 1 < 2 ^ 64) l
Every-users [] h = tt
Every-users (e ∷ r) h =
    let own : users e.id e ≡ e.refcnt = rw (==_refl e.id) refl in
    (omega (arith, own, h e.id), Every-users r (λ j. omega (arith, h j)))

module _ (ctx : GuContext) (refs : ℕ → ℕ) (shared : IsShared ctx refs) (loaded : ElfCtx)
    (fresh : find_elf loaded.id ctx.elf_ctx_list ≡ none)
    (room : total one ctx.elf_ctx_list + 1 < 2 ^ 64) (few : (j : ℕ) → refs j + 1 < 2 ^ 64) where
  abbrev table : List ElfCtx
  table = ctx.elf_ctx_list

  abbrev refs₁ : ℕ → ℕ
  refs₁ j = is (loaded_id ctx loaded) j + refs j

  all_small : Every (λ e. e.refcnt + 1 < 2 ^ 64) table
  all_small = Every-users table (λ j. omega (arith, shared.1 j, few j))

  abbrev newcomer : ElfCtx
  newcomer = record loaded { refcnt = 1; retired = false }

  loaded_id-none : find_build_id loaded.build_id table ≡ none → loaded_id ctx loaded ≡ loaded.id
  unfolding loaded_id
  loaded_id-none h = rw (loaded_id, h) refl

  loaded_id-some :
      (id : ℕ) → find_build_id loaded.build_id table ≡ some id → loaded_id ctx loaded ≡ id
  unfolding loaded_id
  loaded_id-some id h = rw (loaded_id, h) refl

  add_elf_ctx-list : (add_elf_ctx ctx loaded).elf_ctx_list ≡ table ++ newcomer ∷ []
  unfolding add_elf_ctx
  add_elf_ctx-list = refl

  single_added :
      (j : ℕ)
      → total (named j) (load_elf ctx loaded).elf_ctx_list
        ≡ total (named j) (table ++ newcomer ∷ [])
      → total (named j) (load_elf ctx loaded).elf_ctx_list ≤ 1
  single_added j list = elim (Bool-cases (loaded.id == j)) [
    | inr n ↦
        (let other : named j newcomer ≡ 0 = rw n refl in
          omega (arith, list, total-append (named j) table newcomer, other, shared.2 j))
    | inl y ↦
        (let none_yet : total (named j) table ≡ 0 =
            subst (λ m. total (named m) table ≡ 0) (==→eq loaded.id j y)
              (named-none loaded.id table fresh) in
          let this : named j newcomer ≡ 1 = rw y refl in
          omega (arith, list, total-append (named j) table newcomer, this, none_yet))
  ]

  added :
      find_build_id loaded.build_id table ≡ none
      → ((j : ℕ) → total (users j) (load_elf ctx loaded).elf_ctx_list ≡ refs₁ j)
        × ((j : ℕ) → total (named j) (load_elf ctx loaded).elf_ctx_list ≤ 1)
  added h =
      let list : (load_elf ctx loaded).elf_ctx_list ≡ table ++ newcomer ∷ [] =
        ap (λ c. c.elf_ctx_list) (load_elf-none ctx shared.0 loaded h) ∙ add_elf_ctx-list in
      let id = loaded_id-none h in
      (
        (λ j. omega (
          arith,
          ap (total (users j)) list,
          total-append (users j) table newcomer,
          shared.1 j,
          ap (λ n. is n j) id,
        )),
        (λ j. single_added j (ap (total (named j)) list)),
      )

  taken-Changed :
      (id : ℕ) (e : ElfCtx)
      → find_build_id loaded.build_id table ≡ some id
      → find_elf id table ≡ some e
      → Changed id e table (λ n. n + 1) (load_elf ctx loaded).elf_ctx_list
  taken-Changed id e h found =
      let at_id : e.id ≡ id = find_elf-id id table e found in
      let here : find_elf e.id table ≡ some e =
        subst (λ m. find_elf m table ≡ some e) (sym at_id) found in
      let small : e.refcnt + 1 < 2 ^ 64 =
        Every-find_elf id (λ x. x.refcnt + 1 < 2 ^ 64) table e found all_small in
      let n : add64 e.refcnt 1 ≡ e.refcnt + 1 = omega (arith, small) in
      let call = ap (λ c. c.elf_ctx_list) (load_elf-some ctx shared.0 loaded e id h found) in
      elim (Bool-cases e.retired) [
        | inl y ↦ (
          (λ x. with_refcnt (add64 e.refcnt 1) (unretired x)),
          call
              ∙ ap (λ c. c.elf_ctx_list) (take_elf_ctx-retired ctx shared.0 e here y)
              ∙ update_elf-twice e.id (with_refcnt (add64 e.refcnt 1)) unretired table (λ x. refl)
              ∙ ap (λ m. update_elf m (λ x. with_refcnt (add64 e.refcnt 1) (unretired x)) table)
                  at_id,
          (λ x. refl),
          n,
        )
        | inr live ↦ (
          with_refcnt (add64 e.refcnt 1),
          call
              ∙ ap (λ c. c.elf_ctx_list) (take_elf_ctx-live ctx shared.0 e here live)
              ∙ ap (λ m. update_elf m (with_refcnt (add64 e.refcnt 1)) table) at_id,
          (λ x. refl),
          n,
        )
      ]

  shared_again :
      (id : ℕ) (e : ElfCtx)
      → find_build_id loaded.build_id table ≡ some id
      → find_elf id table ≡ some e
      → ((j : ℕ) → total (users j) (load_elf ctx loaded).elf_ctx_list ≡ refs₁ j)
        × ((j : ℕ) → total (named j) (load_elf ctx loaded).elf_ctx_list ≤ 1)
  shared_again id e h found =
      let (f, list, same, count) = taken-Changed id e h found in
      (
        (λ j.
            ap (total (users j)) list
            ∙ one_more id j e.refcnt (f e).refcnt (total (users j) table)
                (total (users j) (update_elf id f table)) (refs j) count
                (users-update_elf id f table e found same j) (shared.1 j)
            ∙ ap (λ m. is m j + refs j) (sym (loaded_id-some id h))),
        (λ j. omega (
          arith,
          ap (total (named j)) list,
          named-update_elf id f table e found same j,
          shared.2 j,
        )),
      )

  load_counts :
      ((j : ℕ) → total (users j) (load_elf ctx loaded).elf_ctx_list ≡ refs₁ j)
      × ((j : ℕ) → total (named j) (load_elf ctx loaded).elf_ctx_list ≤ 1)
  load_counts = elim (Option-cases (find_build_id loaded.build_id table)) [
    | inl h ↦ added h
    | inr (id, h) ↦
        (let (e, found) = find_build_id-find_elf loaded.build_id table id h in
          shared_again id e h found)
  ]

  -- A load adds one reference to the module that it returns, which is in the table.
  pub load_elf-IsShared :
      ((e : ElfCtx) × (find_elf (loaded_id ctx loaded) (load_elf ctx loaded).elf_ctx_list ≡ some e))
      × IsShared (load_elf ctx loaded) refs₁
  load_elf-IsShared =
      let well = load_elf-IsWell ctx shared.0 loaded room all_small in
      let (counts, single) = load_counts in
      let here : is (loaded_id ctx loaded) (loaded_id ctx loaded) ≡ 1 =
        rw (==_refl (loaded_id ctx loaded)) refl in
      (
        find_elf-some (loaded_id ctx loaded) (load_elf ctx loaded).elf_ctx_list
            (omega (arith, counts (loaded_id ctx loaded), here)),
        (well, counts, single),
      )
