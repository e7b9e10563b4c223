-- ===== src/Process/Sharing.antt =====
-- A release of src/gu_stacktrace.c keeps the counts of users right. Taking is about a load, Sweeping
-- about a sweep.
pub mod Taking
pub mod Sweeping
use libgunwinder.Base.{
  ℕ, zero, suc, ◌+◌, ◌-◌, ◌^◌, ◌≡◌, ◌≢◌, ◌≤◌, ◌<◌, refl, ap, sym, ◌∙◌, ◌⊎◌, inl, inr, Bool, true,
  false, not, ◌&&◌, ◌||◌, Option, none, some, List, [], ◌∷◌, ◌++◌, leb, ◌==◌, if◌then◌else◌, arith,
  Bool-cases, Option-cases, ==→eq, ==_refl,
}
use mathlib.Core.Path.{subst}
use libgunwinder.Base.Words.{add64, sub64}
use libgunwinder.Context.{
  uint64_max, ElfCtx, GuContext, find_elf, update_elf, find_build_id, cache_now_ns,
  elf_retire_ttl_ns, with_refcnt, retired_until, unretired, put_elf_ctx, load_elf, add_elf_ctx,
  take_elf_ctx, is_due, retired_elf_sweep, maybe_sweep_retired_elf,
}
use libgunwinder.Context.Table.{
  total, one, Every, find_elf-id, find_build_id-find_elf, total-append, Every-find_elf,
  update_elf-twice,
}
use libgunwinder.Context.Count.{IsGood, IsWell, as_retired}
use libgunwinder.Context.Release.{
  put_elf_ctx-IsWell, put_elf_ctx-more, put_elf_ctx-retires, released-retires, retired_list,
  retired_now, deadline,
}
use libgunwinder.Context.Load.{
  load_elf-IsWell, load_elf-none, load_elf-some, take_elf_ctx-live, take_elf_ctx-retired, taken,
}
use libgunwinder.Context.Expiry.{
  survivors, survivors-here, survivors-gone, retired_elf_sweep-survivors, retired_elf_sweep-IsWell,
}
use libgunwinder.Process.{loaded_id}
use libgunwinder.Process.Users.{
  users, named, is, IsShared, users-named, named-none, users-find_elf, find_elf-some,
  named-update_elf, users-update_elf,
}

-- The table after a change of one module, which keeps its address.
abbrev pub Changed : ℕ → ElfCtx → List ElfCtx → (ℕ → ℕ) → List ElfCtx → Type 0
Changed id e l count t =
    (f : ElfCtx → ElfCtx) × (t ≡ update_elf id f l)
    × ((x : ElfCtx) → (f x).id ≡ x.id)
    × ((f e).refcnt ≡ count e.refcnt)

module _ (monotonic : ℕ) (ctx : GuContext) (id : ℕ) (e : ElfCtx)
    (found : find_elf id ctx.elf_ctx_list ≡ some e) (well : IsWell ctx) where
  put_elf_ctx-Changed :
      e.refcnt < 2 ^ 64
      → e.refcnt ≢ 0
      → e.retired ≡ false
      → Changed id e ctx.elf_ctx_list (λ n. n - 1) (put_elf_ctx monotonic ctx id).elf_ctx_list
  put_elf_ctx-Changed fits held live = elim (Bool-cases (e.refcnt == 1)) [
    | inl last ↦
        (let one_left : e.refcnt ≡ 1 = ==→eq e.refcnt 1 last in
          (
            (λ x. retired_until (deadline monotonic ctx id e found well) (with_refcnt 0 x)),
            ap (λ c. c.elf_ctx_list)
                (put_elf_ctx-retires monotonic ctx id e found well one_left
                  ∙ released-retires monotonic ctx id e found well live
                  ∙ ap (retired_now monotonic ctx id e found well)
                      (retired_list monotonic ctx id e found well)),
            (λ x. refl),
            omega (arith, one_left),
          ))
    | inr more ↦ (
      with_refcnt (e.refcnt - 1),
      ap (λ c. c.elf_ctx_list)
          (put_elf_ctx-more monotonic ctx id e found well fits held (ground (arith, more))),
      (λ x. refl),
      refl,
    )
  ]

pub live_one :
    (ctx : GuContext) (id : ℕ) (e : ElfCtx)
    → find_elf id ctx.elf_ctx_list ≡ some e
    → IsWell ctx
    → e.refcnt ≢ 0
    → e.retired ≡ false
live_one ctx id e found well nz = elim (Bool-cases e.retired) [
  | inr live ↦ live
  | inl y ↦
      (let next = ctx.next_retired_elf_deadline_ns in
        absurd (
          nz
            (as_retired next e (Every-find_elf id (IsGood next) ctx.elf_ctx_list e found well.3)
              y).0))
]

one_less :
    (id j n m t t₁ r r₁ : ℕ)
    → n ≢ 0
    → m ≡ n - 1
    → t₁ + (if id == j then n else 0) ≡ t + (if id == j then m else 0)
    → t ≡ r
    → r ≡ is id j + r₁
    → t₁ ≡ r₁
one_less id j n m t t₁ r r₁ nz less sum counts more = ground (arith, nz, less, sum, counts, more)

-- A reference to a module is gone.
pub put_elf_ctx-IsShared :
    (monotonic : ℕ) (ctx : GuContext) (id : ℕ) (refs refs₁ : ℕ → ℕ)
    → IsShared ctx refs
    → ((j : ℕ) → refs j ≡ is id j + refs₁ j)
    → refs id < 2 ^ 64
    → cache_now_ns ctx monotonic + elf_retire_ttl_ns < 2 ^ 64
    → ((e : ElfCtx) × (find_elf id ctx.elf_ctx_list ≡ some e))
      × IsShared (put_elf_ctx monotonic ctx id) refs₁
put_elf_ctx-IsShared monotonic ctx id refs refs₁ (well, counts, single) less fits soon =
    let l = ctx.elf_ctx_list in
    let here : is id id ≡ 1 = rw (==_refl id) refl in
    let (e, found) = find_elf-some id l (omega (arith, counts id, less id, here)) in
    let held : total (users id) l ≡ e.refcnt = users-find_elf id l e found (single id) in
    let nz : e.refcnt ≢ 0 = omega (arith, held, counts id, less id, here) in
    let small : e.refcnt < 2 ^ 64 = omega (arith, held, counts id, fits) in
    let (f, list, same, count) =
      put_elf_ctx-Changed monotonic ctx id e found well small nz
        (live_one ctx id e found well nz) in
    (
      (e, found),
      (
        put_elf_ctx-IsWell monotonic ctx id e found well small nz soon,
        (λ j.
            ap (total (users j)) list
            ∙ one_less id j e.refcnt (f e).refcnt (total (users j) l)
                (total (users j) (update_elf id f l)) (refs j) (refs₁ j) nz count
                (users-update_elf id f l e found same j) (counts j) (less j)),
        (λ j.
            omega
              (arith, ap (total (named j)) list, named-update_elf id f l e found same j, single j)),
      ),
    )
