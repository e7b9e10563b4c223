-- ===== src/Expr/Reads.antt =====
-- What the evaluator of src/gu_unwinder.c reads, how high its stack grows, and that it ends.
use libgunwinder.Base.{
  ℕ, zero, suc, ◌≡◌, refl, sym, inl, inr, ◌+◌, ◌-◌, ◌*◌, ◌%◌, ◌^◌, ◌≤◌, ◌<◌, ◌||◌, true, Option,
  none, some, Option-cases, get_elem?, List, [], ◌∷◌, ltb, leb, length, length-drop, drop, arith,
  Bool-cases, ok, deep, past_end, bad_shift, wild_pointer, unset, overflow,
}
use mathlib.Core.Path.{subst}
use libgunwinder.Base.Words.{add64, sub64}
use libgunwinder.Snapshot.{StackInfo, in_block}
use libgunwinder.Decode.{read_le}
use libgunwinder.Expr.{
  System, Eval, value, failed, broken, ◌>>=◌, read_addr, load_word, read_addr_from_info,
}

-- No behaviour that C leaves undefined but a signed overflow, and no recursion without end; a
-- value satisfies `P`.
abbrev pub Sound {ℓ} : {A : Type ℓ} → (A → Type 0) → Eval A → Type 0
Sound P (value a) = P a
Sound P (failed o) = Unit
Sound P (broken overflow) = Unit
Sound P (broken e) = ⊥

pub Sound-bind {ℓ κ} :
    {A : Type ℓ} {B : Type κ} (P : A → Type 0) (Q : B → Type 0) (m : Eval A) (f : A → Eval B)
    → Sound P m
    → ((a : A) → P a → Sound Q (f a))
    → Sound Q (m >>= f)
Sound-bind P Q (value a) f h k = k a h
Sound-bind P Q (failed o) f h k = tt
Sound-bind P Q (broken overflow) f h k = tt
Sound-bind P Q (broken past_end) f h k = h
Sound-bind P Q (broken bad_shift) f h k = h
Sound-bind P Q (broken wild_pointer) f h k = h
Sound-bind P Q (broken deep) f h k = h
Sound-bind P Q (broken unset) f h k = h

-- Every slot of the table lies in the register block, if there is one.
abbrev AllBelow : ℕ → List ℕ → Type 0
AllBelow n [] = Unit
AllBelow n (slot ∷ r) = (slot < n) × AllBelow n r

abbrev pub HasSlots : List ℕ → Option (List ℕ) → Type 0
HasSlots slots none = Unit
HasSlots slots (some block) = AllBelow (length block) slots

below :
    (n : ℕ) (slots : List ℕ) (i slot : ℕ)
    → AllBelow n slots
    → get_elem? slots i ≡ some slot
    → slot < n
below n [] i slot all e = absurd (cc e)
below n (x ∷ r) zero slot all e = let same : x ≡ slot = cc e in omega (arith, all.0, same)
below n (x ∷ r) (suc i) slot all e = below n r i slot all.1 e

module _ (slots : List ℕ) (info : StackInfo) (regno : ℕ) where
  in_block-none : info.regs ≡ none → in_block slots info regno ≡ true
  unfolding in_block
  in_block-none e = rw (in_block, e) refl

  in_block-refused :
      (block : List ℕ)
      → info.regs ≡ some block
      → get_elem? slots (regno % 2 ^ 32) ≡ none
      → in_block slots info regno ≡ true
  unfolding in_block
  in_block-refused block e k = rw (in_block, e, k) refl

  in_block-slot :
      (block : List ℕ) (slot : ℕ)
      → info.regs ≡ some block
      → get_elem? slots (regno % 2 ^ 32) ≡ some slot
      → slot < length block
      → in_block slots info regno ≡ true
  unfolding in_block
  in_block-slot block slot e k inside = rw (in_block, e, k) (ground (arith, inside))

  pub HasSlots-in_block : HasSlots slots info.regs → in_block slots info regno ≡ true
  HasSlots-in_block all = elim (Option-cases info.regs) [
    | inl e ↦ in_block-none e
    | inr (block, e) ↦ elim (Option-cases (get_elem? slots (regno % 2 ^ 32))) [
      | inl k ↦ in_block-refused block e k
      | inr (slot, k) ↦
          in_block-slot block slot e k
            (below (length block) slots (regno % 2 ^ 32) slot (subst (HasSlots slots) e all) k)
    ]
  ]

abbrev pub Any {ℓ} : {A : Type ℓ} → A → Type 0
Any a = Unit

-- The snapshot has the bytes that it says it has, and its end is an address.
abbrev pub HasData : System → StackInfo → ℕ → Type 0
HasData sys info raw_sp =
    (bytes : List ℕ) × (info.stack_data ≡ some bytes)
    × (length bytes ≡ info.stack_size)
    × (raw_sp - raw_sp % sys.page_size + info.stack_size < 2 ^ 64)

pub read_le-ok :
    (n : ℕ) (bytes : List ℕ) → n ≤ length bytes → (p : ℕ × List ℕ) × (read_le n bytes ≡ ok p)
unfolding read_le
read_le-ok zero bytes h = ((0, bytes), refl)
read_le-ok (suc n) [] h = absurd (omega arith)
read_le-ok (suc n) (b ∷ r) h =
    let (p, e) = read_le-ok n r (omega arith) in ((b % 256 + 256 * p.0, p.1), rw e refl)

load_word-value :
    (bytes : List ℕ) (k : ℕ) (p : ℕ × List ℕ)
    → read_le 8 (drop k bytes) ≡ ok p
    → load_word (some bytes) k ≡ value p.0
unfolding load_word
load_word-value bytes k p e = rw (load_word, e) refl

load_word-Sound :
    (bytes : List ℕ) (k : ℕ) → k + 8 ≤ length bytes → Sound Any (load_word (some bytes) k)
load_word-Sound bytes k h =
    let (p, e) = read_le-ok 8 (drop k bytes) (omega (arith, length-drop k bytes)) in
    subst (Sound Any) (sym (load_word-value bytes k p e)) tt

pub read_addr_from_info-Sound :
    (sys : System) (info : StackInfo) (raw_sp addr : ℕ)
    → HasData sys info raw_sp
    → Sound Any (read_addr_from_info sys info raw_sp addr)
unfolding read_addr_from_info read_addr
read_addr_from_info-Sound sys info raw_sp addr (bytes, e, len, fits) =
    let first = raw_sp - raw_sp % sys.page_size in
    let last = add64 first info.stack_size in
    elim (Bool-cases
      (ltb addr first || leb last addr || ltb (add64 addr 8) addr || ltb (sub64 last addr) 8)) [
        | inl out ↦ rw out tt
        | inr within ↦ rw (within, e) (load_word-Sound bytes (addr - first) (ground arith))
      ]
