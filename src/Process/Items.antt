-- ===== src/Process/Items.antt =====
-- The items that `gu_load_pid` of src/gu_stacktrace.c collects: the pointers in them are the addresses
-- of the map contexts, each tagged and each found.
use libgunwinder.Base.{
  ℕ, ◌+◌, ◌^◌, ◌≡◌, ◌<◌, refl, ap, sym, ◌∙◌, inl, inr, true, false, Option, none, some, List, [],
  ◌∷◌, ◌==◌, arith, Bool-cases, ==_refl, ==→eq, ◌≤◌,
}
use mathlib.Core.Path.{subst}
use libgunwinder.Context.{GuContext}
use libgunwinder.Interval.{is_marked, mark_no_free}
use libgunwinder.Interval.Payload.{mark_no_free_lem, get_pointer-mark_no_free}
use libgunwinder.Process.{MapCtx, Opening, Loading, load_map, add_map, load_maps, find_map_ctx}
use libgunwinder.Process.Pointers.{count_owned, weight, weigh_items}
use libgunwinder.Process.Users.{is}
use libgunwinder.Process.Clean.{missing}
use libgunwinder.Process.Loads.{IsElsewhere, IsPlaced, sum_ctxs, load_maps-cons, load_maps-nil}

abbrev weigh_keys : (ℕ → ℕ) → List (ℕ × MapCtx) → ℕ
weigh_keys g [] = 0
weigh_keys g ((a, m) ∷ r) = g a + weigh_keys g r

abbrev KeysApart : List (ℕ × MapCtx) → Type 0
KeysApart [] = Unit
KeysApart ((a, m) ∷ r) = (find_map_ctx a r ≡ none) × KeysApart r

-- The weight of an item with a map context is that of the address.
tagged-weight :
    (g : ℕ → ℕ) (start end a : ℕ)
    → a < 2 ^ 63
    → weight g (record { start = start; end = end; private = mark_no_free a }) ≡ g a
tagged-weight g start end a low =
    let m = mark_no_free_lem a (omega (arith, low)) in
    let tagged : (mark_no_free a == 0) ≡ false = rw m (ground arith) in
    rw tagged (ap g (get_pointer-mark_no_free a low).2)

add_map-weigh :
    (g : ℕ → ℕ) (o : Opening) (m : Option MapCtx) (l : Loading)
    → o.address < 2 ^ 63
    → weigh_items g l.items ≡ weigh_keys g l.map_ctxs
    → weigh_items g (add_map o m l).items ≡ weigh_keys g (add_map o m l).map_ctxs
add_map-weigh g o none l low h = omega (arith, h)
add_map-weigh g o (some m) l low h =
    omega (arith, h, tagged-weight g o.info.start o.info.end o.address low)

load_maps-weigh :
    (g : ℕ → ℕ) (ctx : GuContext) (os : List Opening)
    → IsPlaced ctx os
    → weigh_items g (load_maps ctx os).items ≡ weigh_keys g (load_maps ctx os).map_ctxs
load_maps-weigh g ctx [] placed =
    subst (λ l. weigh_items g l.items ≡ weigh_keys g l.map_ctxs) (sym (load_maps-nil ctx)) refl
load_maps-weigh g ctx (o ∷ r) (low, apart, fresh, placed) =
    let p = load_map ctx o in
    subst (λ l. weigh_items g l.items ≡ weigh_keys g l.map_ctxs) (sym (load_maps-cons ctx o r))
      (add_map-weigh g o p.1 (load_maps p.0 r) low (load_maps-weigh g p.0 r placed))

module _ (q b : ℕ) (m : MapCtx) (r : List (ℕ × MapCtx)) where
  find_map_ctx-here : (b == q) ≡ true → find_map_ctx q ((b, m) ∷ r) ≡ some m
  unfolding find_map_ctx
  find_map_ctx-here h = rw h refl

  find_map_ctx-there : (b == q) ≡ false → find_map_ctx q ((b, m) ∷ r) ≡ find_map_ctx q r
  unfolding find_map_ctx
  find_map_ctx-there h = rw h refl

find_map_ctx-nil : (q : ℕ) → find_map_ctx q [] ≡ none
unfolding find_map_ctx
find_map_ctx-nil q = refl

add_map-elsewhere :
    (a : ℕ) (o : Opening) (m : Option MapCtx) (l : Loading)
    → (o.address == a) ≡ false
    → find_map_ctx a l.map_ctxs ≡ none
    → find_map_ctx a (add_map o m l).map_ctxs ≡ none
add_map-elsewhere a o none l other h = h
add_map-elsewhere a o (some m) l other h = find_map_ctx-there a o.address m l.map_ctxs other ∙ h

load_maps-elsewhere :
    (a : ℕ) (ctx : GuContext) (os : List Opening)
    → IsElsewhere a os
    → find_map_ctx a (load_maps ctx os).map_ctxs ≡ none
load_maps-elsewhere a ctx [] apart =
    ap (λ l. find_map_ctx a l.map_ctxs) (load_maps-nil ctx) ∙ find_map_ctx-nil a
load_maps-elsewhere a ctx (o ∷ r) (other, apart) =
    let p = load_map ctx o in
    ap (λ l. find_map_ctx a l.map_ctxs) (load_maps-cons ctx o r)
    ∙ add_map-elsewhere a o p.1 (load_maps p.0 r) other (load_maps-elsewhere a p.0 r apart)

add_map-KeysApart :
    (o : Opening) (m : Option MapCtx) (l : Loading)
    → find_map_ctx o.address l.map_ctxs ≡ none
    → KeysApart l.map_ctxs
    → KeysApart (add_map o m l).map_ctxs
add_map-KeysApart o none l new h = h
add_map-KeysApart o (some m) l new h = (new, h)

load_maps-KeysApart :
    (ctx : GuContext) (os : List Opening) → IsPlaced ctx os → KeysApart (load_maps ctx os).map_ctxs
load_maps-KeysApart ctx [] placed = subst (λ l. KeysApart l.map_ctxs) (sym (load_maps-nil ctx)) tt
load_maps-KeysApart ctx (o ∷ r) (low, apart, fresh, placed) =
    let p = load_map ctx o in
    subst (λ l. KeysApart l.map_ctxs) (sym (load_maps-cons ctx o r))
      (add_map-KeysApart o p.1 (load_maps p.0 r) (load_maps-elsewhere o.address p.0 r apart)
        (load_maps-KeysApart p.0 r placed))

module _ (f : Option MapCtx → ℕ) where
  -- A map context at another address is not found by the others.
  weigh-skip :
      (a : ℕ) (m : MapCtx) (ms r : List (ℕ × MapCtx))
      → find_map_ctx a r ≡ none
      → weigh_keys (λ p. f (find_map_ctx p ((a, m) ∷ ms))) r
        ≡ weigh_keys (λ p. f (find_map_ctx p ms)) r
  weigh-skip a m ms [] new = refl
  weigh-skip a m ms ((b, n) ∷ r) new = elim (Bool-cases (b == a)) [
    | inl y ↦ absurd (cc (find_map_ctx-here a b n r y, new))
    | inr other ↦
        (let swapped : (a == b) ≡ false = ground (arith, other) in
          let rest = weigh-skip a m ms r (sym (find_map_ctx-there a b n r other) ∙ new) in
          omega (arith, rest, ap f (find_map_ctx-there b a m ms swapped)))
  ]

  weigh-own :
      (ms : List (ℕ × MapCtx))
      → KeysApart ms
      → weigh_keys (λ p. f (find_map_ctx p ms)) ms ≡ sum_ctxs f ms
  weigh-own [] apart = refl
  weigh-own ((a, m) ∷ r) (new, apart) = omega (
    arith,
    weigh-skip a m r r new,
    weigh-own r apart,
    ap f (find_map_ctx-here a a m r (==_refl a)),
  )

sum-missing : (ms : List (ℕ × MapCtx)) → sum_ctxs missing ms ≡ 0
sum-missing [] = refl
sum-missing ((a, m) ∷ r) = omega (arith, sum-missing r)

-- What is found behind the pointers of the items is what is behind the map contexts.
pub load_maps-found :
    (f : Option MapCtx → ℕ) (ctx : GuContext) (os : List Opening)
    → IsPlaced ctx os
    → weigh_items (λ p. f (find_map_ctx p (load_maps ctx os).map_ctxs)) (load_maps ctx os).items
      ≡ sum_ctxs f (load_maps ctx os).map_ctxs
load_maps-found f ctx os placed =
    load_maps-weigh (λ p. f (find_map_ctx p (load_maps ctx os).map_ctxs)) ctx os placed
    ∙ weigh-own f (load_maps ctx os).map_ctxs (load_maps-KeysApart ctx os placed)

-- Each address is the key of one map context.
keys-none : (a : ℕ) (r : List (ℕ × MapCtx)) → find_map_ctx a r ≡ none → weigh_keys (is a) r ≡ 0
keys-none a [] new = refl
keys-none a ((b, n) ∷ r) new = elim (Bool-cases (b == a)) [
  | inl y ↦ absurd (cc (find_map_ctx-here a b n r y, new))
  | inr other ↦
      (let differs : is a b ≡ 0 = ground (arith, other) in
        omega (arith, differs, keys-none a r (sym (find_map_ctx-there a b n r other) ∙ new)))
]

keys-once : (q : ℕ) (ms : List (ℕ × MapCtx)) → KeysApart ms → weigh_keys (is q) ms ≤ 1
keys-once q [] apart = omega arith
keys-once q ((a, m) ∷ r) (new, apart) = elim (Bool-cases (q == a)) [
  | inl y ↦
      (let this : is q a ≡ 1 = rw y refl in
        let rest : weigh_keys (is q) r ≡ 0 =
          keys-none q r (subst (λ n. find_map_ctx n r ≡ none) (sym (==→eq q a y)) new) in
        omega (arith, this, rest))
  | inr n ↦ (let other : is q a ≡ 0 = rw n refl in omega (arith, other, keys-once q r apart))
]

pub load_maps-once :
    (ctx : GuContext) (os : List Opening) (q : ℕ)
    → IsPlaced ctx os
    → weigh_items (is q) (load_maps ctx os).items ≤ 1
load_maps-once ctx os q placed = omega (
  arith,
  load_maps-weigh (is q) ctx os placed,
  keys-once q (load_maps ctx os).map_ctxs (load_maps-KeysApart ctx os placed),
)

pub load_maps-present :
    (ctx : GuContext) (os : List Opening)
    → IsPlaced ctx os
    → weigh_items
        (λ p. missing (find_map_ctx p (load_maps ctx os).map_ctxs))
        (load_maps ctx os).items
      ≡ 0
load_maps-present ctx os placed =
    load_maps-found missing ctx os placed ∙ sum-missing (load_maps ctx os).map_ctxs

-- Every pointer that a load collects is tagged.
tagged-owned :
    (start end a : ℕ)
    → a < 2 ^ 63
    → count_owned (record { start = start; end = end; private = mark_no_free a } ∷ []) ≡ 0
tagged-owned start end a low =
    let marked : is_marked (mark_no_free a) ≡ true = (get_pointer-mark_no_free a low).1 in
    elim (Bool-cases (mark_no_free a == 0)) [ inl y ↦ rw y refl | inr n ↦ rw (n, marked) refl ]

add_map-owned :
    (o : Opening) (m : Option MapCtx) (l : Loading)
    → o.address < 2 ^ 63
    → count_owned l.items ≡ 0
    → count_owned (add_map o m l).items ≡ 0
add_map-owned o none l low h = omega (arith, h)
add_map-owned o (some m) l low h =
    omega (arith, h, tagged-owned o.info.start o.info.end o.address low)

pub load_maps-owned :
    (ctx : GuContext) (os : List Opening)
    → IsPlaced ctx os
    → count_owned (load_maps ctx os).items ≡ 0
load_maps-owned ctx [] placed = ap (λ l. count_owned l.items) (load_maps-nil ctx)
load_maps-owned ctx (o ∷ r) (low, apart, fresh, placed) =
    let p = load_map ctx o in
    ap (λ l. count_owned l.items) (load_maps-cons ctx o r)
    ∙ add_map-owned o p.1 (load_maps p.0 r) low (load_maps-owned p.0 r placed)
