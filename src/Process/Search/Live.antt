-- ===== src/Process/Search/Live.antt =====
-- What `gu_search_pid_elf_ctx` of src/gu_stacktrace.c finds is in use: the map context and the
-- module behind an item.
use libgunwinder.Base.{
  ℕ, ◌≡◌, ◌≢◌, ◌≤◌, refl, ap, inl, inr, true, false, Option, none, some, List, ◌==◌, arith,
  Bool-cases, Option-cases, ==_refl, ok,
}
use libgunwinder.Interval
use libgunwinder.Interval.{Item, IntervalArray, SearchResult, Qsort}
use libgunwinder.Context.{ElfCtx, find_elf}
use libgunwinder.Process.{MapCtx, Process, find_map_ctx}
use libgunwinder.Process.Users.{is, users-find_elf, find_elf-some}
use libgunwinder.Process.Sharing.{live_one}
use libgunwinder.Process.Clean.{user, missing}
use libgunwinder.Process.Hits.{IsOf, IsCleared, search-IsOf}
use libgunwinder.Process.Load.{process_users, IsHeld}
use libgunwinder.Process.Life.{total_users, IsSound, delete_pid-Taken}
use libgunwinder.Process.Calls.{Store, find_pid}
use libgunwinder.Process.Search.{elf_ctx_from_item}

-- A module in use: in the table, with users, not retired.
abbrev pub InUse : Option (MapCtx × ElfCtx) → Type 0
InUse none = Unit
InUse (some (m, e)) = (e.retired ≡ false) × (e.refcnt ≢ 0)

-- The pointer of an item leads nowhere or to a module in use.
abbrev pub Leads : Store → Process → Item → Type 0
Leads s p item =
    (o : Option (MapCtx × ElfCtx)) × (elf_ctx_from_item p.map_ctxs s.context.elf_ctx_list item
      ≡ ok o)
    × InUse o

module _ (ms : List (ℕ × MapCtx)) (table : List ElfCtx) (item : Item) where
  from_null : (item.private == 0) ≡ true → elf_ctx_from_item ms table item ≡ ok none
  unfolding elf_ctx_from_item
  from_null h = rw (elf_ctx_from_item, h) refl

  from_found :
      (m : MapCtx) (e : ElfCtx)
      → (item.private == 0) ≡ false
      → find_map_ctx item.private ms ≡ some m
      → find_elf m.elf_ctx table ≡ some e
      → elf_ctx_from_item ms table item ≡ ok (some (m, e))
  unfolding elf_ctx_from_item
  from_found m e nz h k = rw (elf_ctx_from_item, nz, h, k) refl

module _ (s : Store) (pid : ℕ) (p : Process) (sound : IsSound s)
    (there : find_pid pid s.pid_ctx_list ≡ some p) where
  held : IsHeld p
  held = (delete_pid-Taken pid s.pid_ctx_list p there sound.1).1

  most : (j : ℕ) → process_users j p ≤ total_users j s.pid_ctx_list
  most j = omega (arith, (delete_pid-Taken pid s.pid_ctx_list p there sound.1).3 j)

  pub item-Leads : (item : Item) → ((g : ℕ → ℕ) → IsOf g p.elf_ctx_list item) → Leads s p item
  item-Leads item kept = elim (Bool-cases (item.private == 0)) [
    | inl z ↦ (none, from_null p.map_ctxs s.context.elf_ctx_list item z, tt)
    | inr nz ↦ elim (Option-cases (find_map_ctx item.private p.map_ctxs)) [
      | inl n ↦ elim (kept (λ q. missing (find_map_ctx q p.map_ctxs))) [
        | inl z ↦ absurd (cc (z, nz))
        | inr (k, few) ↦
            (let wild : missing (find_map_ctx item.private p.map_ctxs) ≡ 1 = ap missing n in
              absurd (omega (arith, few, wild, held.0)))
      ]
      | inr (m, h) ↦ elim (kept (λ q. user m.elf_ctx (find_map_ctx q p.map_ctxs))) [
        | inl z ↦ absurd (cc (z, nz))
        | inr (k, few) ↦
            (let id = m.elf_ctx in
              let table = s.context.elf_ctx_list in
              let one : is id id ≡ 1 = rw (==_refl id) refl in
              let this : user id (find_map_ctx item.private p.map_ctxs) ≡ is id id =
                ap (user id) h in
              let (e, found_e) =
                find_elf-some id table (omega (arith, few, this, one, most id, sound.0.1 id)) in
              let counted = users-find_elf id table e found_e (sound.0.2 id) in
              let nz_count : e.refcnt ≢ 0 =
                omega (arith, few, this, one, most id, sound.0.1 id, counted) in
              (
                some (m, e),
                from_found p.map_ctxs table item m e nz h found_e,
                (live_one s.context id e found_e sound.0.0 nz_count, nz_count),
              ))
      ]
    ]
  ]

  -- A search of the array of a process that is in the store ends without a fault, and what it
  -- finds is in use.
  pub search-Leads :
      (pc : ℕ)
      → (r : SearchResult) × (Interval.search false p.elf_ctx_list pc ≡ ok r)
        × ((g : ℕ → ℕ) → IsOf g p.elf_ctx_list r.item)
        × Leads s p r.item
        × IsCleared r.index r.item
  search-Leads pc =
      let (x, l, built) = held.1 in
      let (r, run, kept, cleared) = search-IsOf x l pc p.elf_ctx_list built in
      (r, run, kept, item-Leads r.item kept, cleared)
