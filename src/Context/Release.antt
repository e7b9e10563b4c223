-- ===== src/Context/Release.antt =====
-- A user of a context of src/gu_stacktrace.c is gone, or a new one comes: counters, references and
-- the next deadline stay right.
use libgunwinder.Base.{
  ℕ, ◌+◌, ◌-◌, ◌^◌, ◌≡◌, ◌≢◌, ◌<◌, refl, ap, sym, ◌∙◌, inl, inr, true, false, some, List, ◌==◌,
  arith, Bool-cases, ==→eq,
}
use mathlib.Core.Path.{subst}
use libgunwinder.Base.Words.{add64, sub64}
use libgunwinder.Context.{
  ElfCtx, GuContext, find_elf, update_elf, cache_now_ns, elf_retire_ttl_ns, decrement, unretired,
  retired_until, retire_elf_ctx, with_refcnt, put_elf_ctx, earlier,
}
use libgunwinder.Context.Table.{
  active, idle, one, Every-mono, Every-find_elf, total-update_elf, Every-update_elf,
  update_elf-twice, find_elf-id,
}
use libgunwinder.Context.Count.{
  IsGood, as_retired, IsWell, total-one, active_of, idle_of, retire_elf_ctx-eq, earlier-nonzero,
  earlier-le, IsGood-earlier,
}

module _ (monotonic : ℕ) (ctx : GuContext) (id : ℕ) (e : ElfCtx)
    (found : find_elf id ctx.elf_ctx_list ≡ some e) (well : IsWell ctx) where
  abbrev pub l : List ElfCtx
  l = ctx.elf_ctx_list

  at_id : e.id ≡ id
  at_id = find_elf-id id l e found

  -- One user fewer, others are left.
  put-more :
      (n : ℕ)
      → n ≢ 0
      → e.retired ≡ false
      → IsWell (record ctx { elf_ctx_list = update_elf id (with_refcnt n) l })
  put-more n nz live = (
    omega (arith, well.0, total-update_elf id active (with_refcnt n) l e found),
    omega (arith, well.1, total-update_elf id idle (with_refcnt n) l e found),
    omega (arith, well.2, total-update_elf id one (with_refcnt n) l e found),
    Every-update_elf id (IsGood ctx.next_retired_elf_deadline_ns) (with_refcnt n) l e found
        (inl (live, nz)) well.3,
  )

  -- The last user is gone: the context is retired.
  put-last :
      (d : ℕ)
      → d ≢ 0
      → e.retired ≡ false
      → IsWell (record ctx {
        elf_ctx_list = update_elf id (λ x. retired_until d (with_refcnt 0 x)) l;
        statistics = record ctx.statistics {
          elf_ctx_count = decrement ctx.statistics.elf_ctx_count;
          retired_elf_ctx_count = add64 ctx.statistics.retired_elf_ctx_count 1;
        };
        next_retired_elf_deadline_ns = earlier d ctx.next_retired_elf_deadline_ns;
      })
  put-last d nz live =
      let gone : ElfCtx → ElfCtx = λ x. retired_until d (with_refcnt 0 x) in
      let (a, i) = active_of e live in
      (
        omega (arith, well.0, total-update_elf id active gone l e found, a),
        omega (
          arith,
          well.1,
          total-update_elf id idle gone l e found,
          i,
          total-one (update_elf id gone l),
          total-update_elf id one gone l e found,
          well.2,
        ),
        omega (arith, well.2, total-update_elf id one gone l e found),
        Every-update_elf id (IsGood (earlier d ctx.next_retired_elf_deadline_ns)) gone l e found
            (inr (
              refl,
              refl,
              earlier-nonzero d ctx.next_retired_elf_deadline_ns nz,
              earlier-le d ctx.next_retired_elf_deadline_ns,
            ))
            (Every-mono (IsGood ctx.next_retired_elf_deadline_ns)
              (IsGood (earlier d ctx.next_retired_elf_deadline_ns)) l
              (λ x h. IsGood-earlier d ctx.next_retired_elf_deadline_ns x nz h) well.3),
      )

  pub put_elf_ctx-more :
      e.refcnt < 2 ^ 64
      → e.refcnt ≢ 0
      → e.refcnt ≢ 1
      → put_elf_ctx monotonic ctx id
        ≡ record ctx { elf_ctx_list = update_elf id (with_refcnt (e.refcnt - 1)) l }
  unfolding put_elf_ctx
  put_elf_ctx-more fits held more =
      let less : sub64 e.refcnt 1 ≡ e.refcnt - 1 = ground (arith, fits, held) in
      let n : (e.refcnt - 1 == 0) ≡ false = ground (arith, held, more) in
      rw (put_elf_ctx, found, less, n) refl

  abbrev pub deadline : ℕ
  deadline = add64 (cache_now_ns ctx monotonic) elf_retire_ttl_ns

  abbrev pub released : GuContext
  released = record ctx { elf_ctx_list = update_elf id (with_refcnt 0) l }

  pub put_elf_ctx-retires :
      e.refcnt ≡ 1
      → put_elf_ctx monotonic ctx id ≡ retire_elf_ctx monotonic released (with_refcnt 0 e)
  unfolding put_elf_ctx
  put_elf_ctx-retires last =
      let less : sub64 e.refcnt 1 ≡ 0 = ground (arith, last) in rw (put_elf_ctx, found, less) refl

  pub retired_list :
      update_elf (with_refcnt 0 e).id (retired_until deadline) (update_elf id (with_refcnt 0) l)
      ≡ update_elf id (λ x. retired_until deadline (with_refcnt 0 x)) l
  retired_list =
      ap (λ n. update_elf n (retired_until deadline) (update_elf id (with_refcnt 0) l)) at_id
      ∙ update_elf-twice id (retired_until deadline) (with_refcnt 0) l (λ x. refl)

  abbrev pub retired_now : List ElfCtx → GuContext
  retired_now t = record ctx {
    elf_ctx_list = t;
    statistics = record ctx.statistics {
      elf_ctx_count = decrement ctx.statistics.elf_ctx_count;
      retired_elf_ctx_count = add64 ctx.statistics.retired_elf_ctx_count 1;
    };
    next_retired_elf_deadline_ns = earlier deadline ctx.next_retired_elf_deadline_ns;
  }

  pub released-retires :
      e.retired ≡ false
      → retire_elf_ctx monotonic released (with_refcnt 0 e)
        ≡ retired_now (
            update_elf
              (with_refcnt 0 e).id
              (retired_until deadline)
              (update_elf id (with_refcnt 0) l))
  unfolding cache_now_ns
  released-retires live = retire_elf_ctx-eq monotonic released (with_refcnt 0 e) live

  -- A release by a user keeps counters, references and the next deadline right.
  pub put_elf_ctx-IsWell :
      e.refcnt < 2 ^ 64
      → e.refcnt ≢ 0
      → cache_now_ns ctx monotonic + elf_retire_ttl_ns < 2 ^ 64
      → IsWell (put_elf_ctx monotonic ctx id)
  put_elf_ctx-IsWell fits held soon =
      let good : IsGood ctx.next_retired_elf_deadline_ns e =
        Every-find_elf id (IsGood ctx.next_retired_elf_deadline_ns) l e found well.3 in
      elim (Bool-cases e.retired) [
        | inl y ↦ absurd (held (as_retired ctx.next_retired_elf_deadline_ns e good y).0)
        | inr live ↦ elim (Bool-cases (e.refcnt == 1)) [
          | inl last ↦
              subst IsWell
                (sym (
                  put_elf_ctx-retires (==→eq e.refcnt 1 last)
                  ∙ released-retires live
                  ∙ ap retired_now retired_list))
                (put-last deadline (omega (arith, soon)) live)
          | inr more ↦
              subst IsWell (sym (put_elf_ctx-more fits held (ground (arith, more))))
                (put-more (e.refcnt - 1) (ground (arith, held, more)) live)
        ]
      ]

  -- One user more of a context that has some.
  pub take-live :
      (n : ℕ)
      → n ≢ 0
      → e.retired ≡ false
      → IsWell (record ctx { elf_ctx_list = update_elf id (with_refcnt n) l })
  take-live n nz live = put-more n nz live

  -- A retired context has a user again.
  pub take-retired :
      (n hits : ℕ)
      → n ≢ 0
      → e.retired ≡ true
      → IsWell (record ctx {
        elf_ctx_list = update_elf id (λ x. with_refcnt n (unretired x)) l;
        statistics = record ctx.statistics {
          elf_ctx_count = add64 ctx.statistics.elf_ctx_count 1;
          retired_elf_ctx_count = decrement ctx.statistics.retired_elf_ctx_count;
          retired_elf_cache_hit = hits;
        };
      })
  take-retired n hits nz y =
      let back : ElfCtx → ElfCtx = λ x. with_refcnt n (unretired x) in
      let (a, i) = idle_of e y in
      (
        omega (
          arith,
          well.0,
          total-update_elf id active back l e found,
          a,
          total-one (update_elf id back l),
          total-update_elf id one back l e found,
          well.2,
        ),
        omega (arith, well.1, total-update_elf id idle back l e found, i),
        omega (arith, well.2, total-update_elf id one back l e found),
        Every-update_elf id (IsGood ctx.next_retired_elf_deadline_ns) back l e found
            (inl (refl, nz)) well.3,
      )
