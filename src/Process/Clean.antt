-- ===== src/Process/Clean.antt =====
-- Freeing the map contexts of src/gu_stacktrace.c: every pointer of an array gives up the reference
-- that its map context holds.
use libgunwinder.Base.{
  ℕ, suc, ◌+◌, ◌^◌, ◌≡◌, ◌<◌, refl, ap, ◌∙◌, inl, inr, not, ◌&&◌, Option, none, some, List, [], ◌∷◌,
  ◌==◌, arith, Bool-cases, Option-cases, ok, ◌≤◌, false, ==_refl,
}
use libgunwinder.Context.{ElfCtx, GuContext, find_elf, cache_now_ns, elf_retire_ttl_ns, put_elf_ctx}
use libgunwinder.Process.{MapCtx, find_map_ctx, delete_map_ctx, clean_elf_ctx, clean_all}
use libgunwinder.Process.Timer.{put_elf_ctx-timer}
use libgunwinder.Process.Users.{is, IsShared}
use libgunwinder.Process.Sharing.{put_elf_ctx-IsShared}
use libgunwinder.Process.Pointers.{weigh}

-- The references of a map context, and the pointers without one.
abbrev pub user : ℕ → Option MapCtx → ℕ
user j none = 0
user j (some m) = is m.elf_ctx j

abbrev pub missing : Option MapCtx → ℕ
missing none = 1
missing (some m) = 0

abbrev pub weigh_found : (Option MapCtx → ℕ) → List (ℕ × MapCtx) → List ℕ → ℕ
weigh_found f ms ps = weigh (λ p. f (find_map_ctx p ms)) ps

-- The clock stays ten seconds below its end.
abbrev pub IsSoon : (ℕ → ℕ) → GuContext → Type 0
IsSoon clock ctx =
    (ctx.retire_timer_now_ns + elf_retire_ttl_ns < 2 ^ 64)
    × ((k : ℕ) → clock k + elf_retire_ttl_ns < 2 ^ 64)

cache_now_ns-soon :
    (clock : ℕ → ℕ) (ctx : GuContext)
    → IsSoon clock ctx
    → cache_now_ns ctx (clock 0) + elf_retire_ttl_ns < 2 ^ 64
unfolding cache_now_ns
cache_now_ns-soon clock ctx (timer, soon) =
    elim (Bool-cases (ctx.retire_timer_started && not (ctx.retire_timer_now_ns == 0))) [
      | inl y ↦ rw y timer
      | inr n ↦ rw n (soon 0)
    ]

clean_elf_ctx_lem :
    (monotonic : ℕ) (ms : List (ℕ × MapCtx)) (ctx : GuContext) (p : ℕ) (m : MapCtx) (e : ElfCtx)
    → find_map_ctx p ms ≡ some m
    → find_elf m.elf_ctx ctx.elf_ctx_list ≡ some e
    → clean_elf_ctx monotonic ms ctx p
      ≡ ok (delete_map_ctx p ms, put_elf_ctx monotonic ctx m.elf_ctx)
unfolding clean_elf_ctx
clean_elf_ctx_lem monotonic ms ctx p m e h found = rw (clean_elf_ctx, h, found) refl

clean_all_lem :
    (clock : ℕ → ℕ) (ms ms₁ : List (ℕ × MapCtx)) (p : ℕ) (r : List ℕ) (ctx ctx₁ : GuContext)
    → clean_elf_ctx (clock 0) ms ctx p ≡ ok (ms₁, ctx₁)
    → clean_all clock ms (p ∷ r) ctx ≡ clean_all (λ k. clock (suc k)) ms₁ r ctx₁
unfolding clean_all
clean_all_lem clock ms ms₁ p r ctx ctx₁ h = rw (clean_all, h) refl

-- No pointer stands twice in a list.
abbrev pub IsOnce : List ℕ → Type 0
IsOnce ps = (q : ℕ) → weigh (is q) ps ≤ 1

find_map_ctx-delete_map_ctx :
    (p q : ℕ) (ms : List (ℕ × MapCtx))
    → (p == q) ≡ false
    → find_map_ctx q (delete_map_ctx p ms) ≡ find_map_ctx q ms
unfolding find_map_ctx delete_map_ctx
find_map_ctx-delete_map_ctx p q [] other = refl
find_map_ctx-delete_map_ctx p q ((a, m) ∷ r) other = elim (Bool-cases (a == p)) [
  | inl y ↦ (let differs : (a == q) ≡ false = ground (arith, y, other) in rw y (rw differs refl))
  | inr n ↦ elim (Bool-cases (a == q)) [
    | inl y ↦ rw (n, y) refl
    | inr differs ↦ rw (n, differs) (find_map_ctx-delete_map_ctx p q r other)
  ]
]

-- What is found behind other pointers stays when one is freed.
weigh_found-delete_map_ctx :
    (f : Option MapCtx → ℕ) (p : ℕ) (ms : List (ℕ × MapCtx)) (r : List ℕ)
    → weigh (is p) r ≡ 0
    → weigh_found f (delete_map_ctx p ms) r ≡ weigh_found f ms r
weigh_found-delete_map_ctx f p ms [] once = refl
weigh_found-delete_map_ctx f p ms (q ∷ r) once = elim (Bool-cases (p == q)) [
  | inl y ↦ (let this : is p q ≡ 1 = rw y refl in absurd (omega (arith, this, once)))
  | inr n ↦ omega (
    arith,
    ap f (find_map_ctx-delete_map_ctx p q ms n),
    weigh_found-delete_map_ctx f p ms r (omega (arith, once)),
  )
]

-- The map contexts of a process hold the references that freeing them gives up; no pointer is wild.
pub clean_all-IsShared :
    (clock : ℕ → ℕ) (ms : List (ℕ × MapCtx)) (ps : List ℕ) (ctx : GuContext) (refs rest : ℕ → ℕ)
    → IsShared ctx refs
    → ((j : ℕ) → refs j ≡ weigh_found (user j) ms ps + rest j)
    → weigh_found missing ms ps ≡ 0
    → IsOnce ps
    → ((j : ℕ) → refs j < 2 ^ 64)
    → IsSoon clock ctx
    → (c : GuContext) × (left_ms : List (ℕ × MapCtx)) × (clean_all clock ms ps ctx
        ≡ ok (left_ms, c))
      × IsShared c rest
      × (c.retire_timer_now_ns ≡ ctx.retire_timer_now_ns)
unfolding clean_all
clean_all-IsShared clock ms [] ctx refs rest (well, counts, single) split all once few soon =
    (ctx, ms, refl, (well, (λ j. omega (arith, counts j, split j)), single), refl)
clean_all-IsShared clock ms (p ∷ r) ctx refs rest shared split all once few soon =
    elim (Option-cases (find_map_ctx p ms)) [
      | inl n ↦
          (let wild : missing (find_map_ctx p ms) ≡ 1 = ap missing n in
            absurd (omega (arith, wild, all)))
      | inr (m, h) ↦
          (let left : ℕ → ℕ = (λ j. weigh_found (user j) ms r + rest j) in
            let here : (j : ℕ) → user j (find_map_ctx p ms) ≡ is m.elf_ctx j =
              (λ j. ap (user j) h) in
            let found_here : missing (find_map_ctx p ms) ≡ 0 = ap missing h in
            let ((e, found), shared₁) =
              put_elf_ctx-IsShared (clock 0) ctx m.elf_ctx refs left shared
                (λ j. omega (arith, split j, here j)) (few m.elf_ctx)
                (cache_now_ns-soon clock ctx soon) in
            let here_once : is p p ≡ 1 = rw (==_refl p) refl in
            let others : (f : Option MapCtx → ℕ)
                → weigh_found f (delete_map_ctx p ms) r ≡ weigh_found f ms r =
              (λ f. weigh_found-delete_map_ctx f p ms r (omega (arith, once p, here_once))) in
            let same = put_elf_ctx-timer (clock 0) ctx m.elf_ctx in
            let (c, left_ms, run, kept, timer) =
              clean_all-IsShared (λ k. clock (suc k)) (delete_map_ctx p ms) r
                (put_elf_ctx (clock 0) ctx m.elf_ctx) left rest shared₁
                (λ j. omega (arith, others (user j)))
                (omega (arith, all, found_here, others missing)) (λ q. omega (arith, once q))
                (λ j. omega (arith, few j, split j, here j))
                (omega (arith, same, soon.0), (λ k. soon.1 (suc k))) in
            (
              c,
              left_ms,
              clean_all_lem clock ms (delete_map_ctx p ms) p r ctx
                    (put_elf_ctx (clock 0) ctx m.elf_ctx)
                    (clean_elf_ctx_lem (clock 0) ms ctx p m e h found)
                  ∙ run,
              kept,
              timer ∙ same,
            ))
    ]
