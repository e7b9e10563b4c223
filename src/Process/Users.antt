-- ===== src/Process/Users.antt =====
-- The users of the modules of src/gu_stacktrace.c: the reference count of a module is the number of
-- map contexts that point to it.
use libgunwinder.Base.{
  ℕ, ◌+◌, ◌≡◌, ◌≢◌, ◌≤◌, refl, ap, sym, ◌∙◌, inl, inr, true, none, some, List, [], ◌∷◌, ◌==◌,
  if◌then◌else◌, arith, Bool-cases, Option-cases, ==_refl,
}
use mathlib.Core.Path.{subst}
use libgunwinder.Context.{ElfCtx, GuContext, find_elf, update_elf, delete_elf}
use libgunwinder.Context.Table.{
  find_elf-here, find_elf-there, total, find_elf-id, total-update_elf, total-delete_elf,
}
use libgunwinder.Context.Count.{IsWell}

abbrev pub users : ℕ → ElfCtx → ℕ
users id e = if e.id == id then e.refcnt else 0

abbrev pub named : ℕ → ElfCtx → ℕ
named id e = if e.id == id then 1 else 0

abbrev pub is : ℕ → ℕ → ℕ
is id j = if id == j then 1 else 0

-- The counters are right, each module has as many users as there are references to its address,
-- and no two modules have one address.
abbrev pub IsShared : GuContext → (ℕ → ℕ) → Type 0
IsShared ctx refs =
    IsWell ctx
    × ((id : ℕ) → total (users id) ctx.elf_ctx_list ≡ refs id)
    × ((id : ℕ) → total (named id) ctx.elf_ctx_list ≤ 1)

pub users-named : (id : ℕ) (l : List ElfCtx) → total (named id) l ≡ 0 → total (users id) l ≡ 0
users-named id [] h = refl
users-named id (e ∷ r) h = elim (Bool-cases (e.id == id)) [
  | inl y ↦ (let one_more : named id e ≡ 1 = rw y refl in absurd (omega (arith, h, one_more)))
  | inr n ↦
      (let none_here : users id e ≡ 0 = rw n refl in
        omega (arith, none_here, users-named id r (omega (arith, h))))
]

pub named-none : (id : ℕ) (l : List ElfCtx) → find_elf id l ≡ none → total (named id) l ≡ 0
unfolding find_elf
named-none id [] h = refl
named-none id (e ∷ r) h = elim (Bool-cases (e.id == id)) [
  | inl y ↦ absurd (cc (find_elf-here id e r y, h))
  | inr n ↦
      (let none_here : named id e ≡ 0 = rw n refl in
        omega (arith, none_here, named-none id r (sym (find_elf-there id e r n) ∙ h)))
]

-- At a module's address the users are those that it counts.
pub users-find_elf :
    (id : ℕ) (l : List ElfCtx) (e : ElfCtx)
    → find_elf id l ≡ some e
    → total (named id) l ≤ 1
    → total (users id) l ≡ e.refcnt
users-find_elf id l e found single =
    let at_id : (e.id == id) ≡ true =
      subst (λ n. (e.id == n) ≡ true) (find_elf-id id l e found) (==_refl e.id) in
    let n : named id e ≡ 1 = rw at_id refl in
    let u : users id e ≡ e.refcnt = rw at_id refl in
    let rest =
      users-named id (delete_elf id l)
        (omega (arith, single, n, total-delete_elf id (named id) l e found)) in
    omega (arith, rest, u, total-delete_elf id (users id) l e found)

-- A module that has users is in the table.
pub find_elf-some :
    (id : ℕ) (l : List ElfCtx) → total (users id) l ≢ 0 → (e : ElfCtx) × (find_elf id l ≡ some e)
find_elf-some id l used = elim (Option-cases (find_elf id l)) [
  | inl h ↦ absurd (used (users-named id l (named-none id l h)))
  | inr p ↦ p
]

-- A change of one module's count that keeps its address.
module _ (id : ℕ) (f : ElfCtx → ElfCtx) (l : List ElfCtx) (e : ElfCtx)
    (found : find_elf id l ≡ some e) (same : (x : ElfCtx) → (f x).id ≡ x.id) where
  pub named-update_elf : (j : ℕ) → total (named j) (update_elf id f l) ≡ total (named j) l
  named-update_elf j =
      let kept : named j (f e) ≡ named j e = ap (λ n. if n == j then 1 else 0) (same e) in
      omega (arith, kept, total-update_elf id (named j) f l e found)

  pub users-update_elf :
      (j : ℕ)
      → total (users j) (update_elf id f l) + (if id == j then e.refcnt else 0)
        ≡ total (users j) l + (if id == j then (f e).refcnt else 0)
  users-update_elf j =
      let at_id = find_elf-id id l e found in
      let before : users j e ≡ (if id == j then e.refcnt else 0) =
        ap (λ n. if n == j then e.refcnt else 0) at_id in
      let after : users j (f e) ≡ (if id == j then (f e).refcnt else 0) =
        ap (λ n. if n == j then (f e).refcnt else 0) (same e ∙ at_id) in
      omega (arith, before, after, total-update_elf id (users j) f l e found)
