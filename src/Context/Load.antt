-- ===== src/Context/Load.antt =====
-- `load_elf` of src/gu_stacktrace.c: a module is taken from the table or joins it.
use libgunwinder.Base.{
  ℕ, ◌+◌, ◌^◌, ◌≡◌, ◌<◌, refl, ap, sym, ◌∙◌, inl, inr, true, false, Option, none, some, List, arith,
  Bool-cases, Option-cases,
}
use mathlib.Core.Path.{subst}
use libgunwinder.Base.Words.{add64}
use libgunwinder.Cfi.Parse.{GuCfi}
use libgunwinder.Context.{
  ElfCtx, Statistics, GuContext, find_elf, update_elf, find_build_id, decrement,
  unretired_statistics, unretired, unretire_elf_ctx, with_refcnt, take_elf_ctx, take_found,
  add_elf_ctx, load_elf, loaded_cfi_statistics, loaded_symbols_statistics,
}
use libgunwinder.Context.Table.{
  total, active, idle, one, Every, Every-append, total-append, Every-find_elf, update_elf-twice,
  find_elf-id, find_build_id-find_elf,
}
use libgunwinder.Context.Count.{IsGood, IsWell, total-one}
use libgunwinder.Context.Release.{take-live, take-retired}

-- Counting a loaded module's sizes leaves the two numbers of contexts.
loaded_cfi-counts :
    (o : Option (ℕ × ℕ × GuCfi)) (s : Statistics)
    → ((loaded_cfi_statistics o s).elf_ctx_count ≡ s.elf_ctx_count)
      × ((loaded_cfi_statistics o s).retired_elf_ctx_count ≡ s.retired_elf_ctx_count)
unfolding loaded_cfi_statistics
loaded_cfi-counts none s = (refl, refl)
loaded_cfi-counts (some (mem, bytes, cfi)) s = (refl, refl)

loaded_symbols-counts :
    (o : Option ℕ) (s : Statistics)
    → ((loaded_symbols_statistics o s).elf_ctx_count ≡ s.elf_ctx_count)
      × ((loaded_symbols_statistics o s).retired_elf_ctx_count ≡ s.retired_elf_ctx_count)
unfolding loaded_symbols_statistics
loaded_symbols-counts none s = (refl, refl)
loaded_symbols-counts (some n) s = (refl, refl)

module _ (ctx : GuContext) (well : IsWell ctx) where
  abbrev pub l : List ElfCtx
  l = ctx.elf_ctx_list

  pub add_elf_ctx-IsWell : (e : ElfCtx) → total one l + 1 < 2 ^ 64 → IsWell (add_elf_ctx ctx e)
  unfolding add_elf_ctx
  add_elf_ctx-IsWell e room =
      let fresh : ElfCtx = record e { refcnt = 1; retired = false } in
      let s = loaded_symbols_statistics e.symbols_size ctx.statistics in
      let (c, t) = loaded_cfi-counts e.gu_cfi s in
      let (c₁, t₁) = loaded_symbols-counts e.symbols_size ctx.statistics in
      (
        omega (arith, well.0, c, c₁, total-append active l fresh, total-one l, room),
        omega (arith, well.1, t, t₁, total-append idle l fresh),
        omega (arith, total-append one l fresh, room),
        Every-append (IsGood ctx.next_retired_elf_deadline_ns) l fresh well.3
            (inl (refl, omega arith)),
      )

  module _ (e : ElfCtx) (found : find_elf e.id l ≡ some e) where
    abbrev pub n : ℕ
    n = add64 e.refcnt 1

    pub take_elf_ctx-live :
        e.retired ≡ false
        → take_elf_ctx ctx e ≡ record ctx { elf_ctx_list = update_elf e.id (with_refcnt n) l }
    unfolding take_elf_ctx
    take_elf_ctx-live live = rw (take_elf_ctx, live) refl

    abbrev pub taken : List ElfCtx → GuContext
    taken t = record ctx {
      elf_ctx_list = t;
      statistics = record ctx.statistics {
        elf_ctx_count = add64 ctx.statistics.elf_ctx_count 1;
        retired_elf_ctx_count = decrement ctx.statistics.retired_elf_ctx_count;
        retired_elf_cache_hit = add64 ctx.statistics.retired_elf_cache_hit 1;
      };
    }

    pub take_elf_ctx-retired :
        e.retired ≡ true
        → take_elf_ctx ctx e ≡ taken (update_elf e.id (with_refcnt n) (update_elf e.id unretired l))
    unfolding take_elf_ctx unretire_elf_ctx unretired_statistics
    take_elf_ctx-retired y = rw (take_elf_ctx, unretire_elf_ctx, y) refl

    pub take_elf_ctx-IsWell : e.refcnt + 1 < 2 ^ 64 → IsWell (take_elf_ctx ctx e)
    take_elf_ctx-IsWell fits = elim (Bool-cases e.retired) [
      | inl y ↦
          subst IsWell
            (sym (
              take_elf_ctx-retired y
              ∙ ap taken (update_elf-twice e.id (with_refcnt n) unretired l (λ x. refl))))
            (take-retired 0 ctx e.id e found well n (add64 ctx.statistics.retired_elf_cache_hit 1)
              (omega (arith, fits)) y)
      | inr live ↦
          subst IsWell (sym (take_elf_ctx-live live))
            (take-live 0 ctx e.id e found well n (omega (arith, fits)) live)
    ]

  pub load_elf-none :
      (loaded : ElfCtx)
      → find_build_id loaded.build_id l ≡ none
      → load_elf ctx loaded ≡ add_elf_ctx ctx loaded
  unfolding load_elf
  load_elf-none loaded h = rw (load_elf, h) refl

  pub load_elf-some :
      (loaded e : ElfCtx) (id : ℕ)
      → find_build_id loaded.build_id l ≡ some id
      → find_elf id l ≡ some e
      → load_elf ctx loaded ≡ take_elf_ctx ctx e
  unfolding load_elf take_found
  load_elf-some loaded e id h found = rw (load_elf, h, found) refl

  -- A load keeps counters, references and the next deadline right.
  pub load_elf-IsWell :
      (loaded : ElfCtx)
      → total one l + 1 < 2 ^ 64
      → Every (λ e. e.refcnt + 1 < 2 ^ 64) l
      → IsWell (load_elf ctx loaded)
  load_elf-IsWell loaded room fits = elim (Option-cases (find_build_id loaded.build_id l)) [
    | inl h ↦ subst IsWell (sym (load_elf-none loaded h)) (add_elf_ctx-IsWell loaded room)
    | inr (id, h) ↦
        (let (e, found) = find_build_id-find_elf loaded.build_id l id h in
          let at_id : e.id ≡ id = find_elf-id id l e found in
          subst IsWell (sym (load_elf-some loaded e id h found)) (
            take_elf_ctx-IsWell e (subst (λ m. find_elf m l ≡ some e) (sym at_id) found)
              (Every-find_elf id (λ x. x.refcnt + 1 < 2 ^ 64) l e found fits)))
  ]
