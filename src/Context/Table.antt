-- ===== src/Context/Table.antt =====
-- The table of modules of a context of src/gu_stacktrace.c: sums over it, and what changing or
-- deleting one module does to them.
use libgunwinder.Base.{
  ℕ, ◌+◌, ◌≡◌, refl, ap, sym, ◌∙◌, ◌⊎◌, inl, inr, true, false, some, List, [], ◌∷◌, ◌++◌, ◌==◌,
  if◌then◌else◌, arith, Bool-cases, ==→eq, ==_refl,
}
use mathlib.Core.Path.{subst}
use libgunwinder.Unwind.{same_bytes}
use libgunwinder.Context.{ElfCtx, find_elf, update_elf, delete_elf, find_build_id}

-- The sum of a number over a list of contexts.
abbrev pub total : (ElfCtx → ℕ) → List ElfCtx → ℕ
total g [] = 0
total g (e ∷ r) = g e + total g r

abbrev pub active : ElfCtx → ℕ
active e = if e.retired then 0 else 1

abbrev pub idle : ElfCtx → ℕ
idle e = if e.retired then 1 else 0

abbrev pub one : ElfCtx → ℕ
one e = 1

abbrev pub Every : (ElfCtx → Type 0) → List ElfCtx → Type 0
Every P [] = Unit
Every P (e ∷ r) = P e × Every P r

pub Every-mono :
    (P Q : ElfCtx → Type 0) (l : List ElfCtx) → ((e : ElfCtx) → P e → Q e) → Every P l → Every Q l
Every-mono P Q [] k h = tt
Every-mono P Q (e ∷ r) k h = (k e h.0, Every-mono P Q r k h.1)

pub Every-append :
    (P : ElfCtx → Type 0) (l : List ElfCtx) (e : ElfCtx) → Every P l → P e → Every P (l ++ (e ∷ []))
Every-append P [] e h p = (p, tt)
Every-append P (x ∷ r) e h p = (h.0, Every-append P r e h.1 p)

pub total-append :
    (g : ElfCtx → ℕ) (l : List ElfCtx) (e : ElfCtx) → total g (l ++ (e ∷ [])) ≡ total g l + g e
total-append g [] e = omega arith
total-append g (x ∷ r) e = omega (arith, total-append g r e)

module _ (id : ℕ) where
  pub find_elf-here :
      (x : ElfCtx) (r : List ElfCtx) → (x.id == id) ≡ true → find_elf id (x ∷ r) ≡ some x
  unfolding find_elf
  find_elf-here x r y = rw (find_elf, y) refl

  pub find_elf-there :
      (x : ElfCtx) (r : List ElfCtx) → (x.id == id) ≡ false → find_elf id (x ∷ r) ≡ find_elf id r
  unfolding find_elf
  find_elf-there x r n = rw (find_elf, n) refl

  find_elf-nil : (e : ElfCtx) → ¬ (find_elf id [] ≡ some e)
  unfolding find_elf
  find_elf-nil e h = absurd (cc h)

  -- The context at an address is the first of the list or in the rest.
  found-cases :
      (x e : ElfCtx) (r : List ElfCtx)
      → find_elf id (x ∷ r) ≡ some e
      → (((x.id == id) ≡ true) × (x ≡ e)) ⊎ (((x.id == id) ≡ false) × (find_elf id r ≡ some e))
  found-cases x e r found = elim (Bool-cases (x.id == id)) [
    | inl y ↦ inl (y, cc (found, find_elf-here x r y))
    | inr n ↦ inr (n, sym (find_elf-there x r n) ∙ found)
  ]

  pub Every-find_elf :
      (P : ElfCtx → Type 0) (l : List ElfCtx) (e : ElfCtx)
      → find_elf id l ≡ some e
      → Every P l
      → P e
  Every-find_elf P [] e found h = absurd (find_elf-nil e found)
  Every-find_elf P (x ∷ r) e found h = elim (found-cases x e r found) [
    | inl (y, same) ↦ subst P same h.0
    | inr (n, later) ↦ Every-find_elf P r e later h.1
  ]

  update_elf-here :
      (f : ElfCtx → ElfCtx) (x : ElfCtx) (r : List ElfCtx)
      → (x.id == id) ≡ true
      → update_elf id f (x ∷ r) ≡ f x ∷ r
  unfolding update_elf
  update_elf-here f x r y = rw (update_elf, y) refl

  update_elf-there :
      (f : ElfCtx → ElfCtx) (x : ElfCtx) (r : List ElfCtx)
      → (x.id == id) ≡ false
      → update_elf id f (x ∷ r) ≡ x ∷ update_elf id f r
  unfolding update_elf
  update_elf-there f x r n = rw (update_elf, n) refl

  pub total-update_elf :
      (g : ElfCtx → ℕ) (f : ElfCtx → ElfCtx) (l : List ElfCtx) (e : ElfCtx)
      → find_elf id l ≡ some e
      → total g (update_elf id f l) + g e ≡ total g l + g (f e)
  total-update_elf g f [] e found = absurd (find_elf-nil e found)
  total-update_elf g f (x ∷ r) e found = elim (found-cases x e r found) [
    | inl (y, same) ↦
        subst (λ z. total g (update_elf id f (x ∷ r)) + g z ≡ g x + total g r + g (f z)) same
          (rw (update_elf-here f x r y) (omega arith))
    | inr (n, later) ↦ rw (update_elf-there f x r n) (omega (arith, total-update_elf g f r e later))
  ]

  pub Every-update_elf :
      (P : ElfCtx → Type 0) (f : ElfCtx → ElfCtx) (l : List ElfCtx) (e : ElfCtx)
      → find_elf id l ≡ some e
      → P (f e)
      → Every P l
      → Every P (update_elf id f l)
  Every-update_elf P f [] e found p h = absurd (find_elf-nil e found)
  Every-update_elf P f (x ∷ r) e found p h = elim (found-cases x e r found) [
    | inl (y, same) ↦ rw (update_elf-here f x r y) (subst (λ z. P (f z)) (sym same) p, h.1)
    | inr (n, later) ↦ rw (update_elf-there f x r n) (h.0, Every-update_elf P f r e later p h.1)
  ]

  pub update_elf-twice :
      (f g : ElfCtx → ElfCtx) (l : List ElfCtx)
      → ((e : ElfCtx) → (g e).id ≡ e.id)
      → update_elf id f (update_elf id g l) ≡ update_elf id (λ e. f (g e)) l
  unfolding update_elf
  update_elf-twice f g [] same = refl
  update_elf-twice f g (x ∷ r) same = elim (Bool-cases (x.id == id)) [
    | inl y ↦
        ap (update_elf id f) (update_elf-here g x r y)
        ∙ update_elf-here f (g x) r (ap (λ n. n == id) (same x) ∙ y)
        ∙ sym (update_elf-here (λ e. f (g e)) x r y)
    | inr n ↦
        ap (update_elf id f) (update_elf-there g x r n)
        ∙ update_elf-there f x (update_elf id g r) n
        ∙ ap (λ t. x ∷ t) (update_elf-twice f g r same)
        ∙ sym (update_elf-there (λ e. f (g e)) x r n)
  ]

  delete_elf-here : (x : ElfCtx) (r : List ElfCtx) → (x.id == id) ≡ true → delete_elf id (x ∷ r) ≡ r
  unfolding delete_elf
  delete_elf-here x r y = rw (delete_elf, y) refl

  delete_elf-there :
      (x : ElfCtx) (r : List ElfCtx)
      → (x.id == id) ≡ false
      → delete_elf id (x ∷ r) ≡ x ∷ delete_elf id r
  unfolding delete_elf
  delete_elf-there x r n = rw (delete_elf, n) refl

  pub total-delete_elf :
      (g : ElfCtx → ℕ) (l : List ElfCtx) (e : ElfCtx)
      → find_elf id l ≡ some e
      → total g (delete_elf id l) + g e ≡ total g l
  total-delete_elf g [] e found = absurd (find_elf-nil e found)
  total-delete_elf g (x ∷ r) e found = elim (found-cases x e r found) [
    | inl (y, same) ↦
        subst (λ z. total g (delete_elf id (x ∷ r)) + g z ≡ g x + total g r) same
          (rw (delete_elf-here x r y) (omega arith))
    | inr (n, later) ↦ rw (delete_elf-there x r n) (omega (arith, total-delete_elf g r e later))
  ]

  pub Every-delete_elf :
      (P : ElfCtx → Type 0) (l : List ElfCtx) → Every P l → Every P (delete_elf id l)
  unfolding delete_elf
  Every-delete_elf P [] h = tt
  Every-delete_elf P (x ∷ r) h = elim (Bool-cases (x.id == id)) [
    | inl y ↦ rw y h.1
    | inr n ↦ rw n (h.0, Every-delete_elf P r h.1)
  ]

  pub find_elf-id : (l : List ElfCtx) (e : ElfCtx) → find_elf id l ≡ some e → e.id ≡ id
  find_elf-id [] e found = absurd (find_elf-nil e found)
  find_elf-id (x ∷ r) e found = elim (found-cases x e r found) [
    | inl (y, same) ↦ subst (λ z. z.id ≡ id) same (==→eq x.id id y)
    | inr (n, later) ↦ find_elf-id r e later
  ]

find_build_id-here :
    (b : List ℕ) (x : ElfCtx) (r : List ElfCtx)
    → same_bytes x.build_id b ≡ true
    → find_build_id b (x ∷ r) ≡ some x.id
unfolding find_build_id
find_build_id-here b x r y = rw (find_build_id, y) refl

find_build_id-there :
    (b : List ℕ) (x : ElfCtx) (r : List ElfCtx)
    → same_bytes x.build_id b ≡ false
    → find_build_id b (x ∷ r) ≡ find_build_id b r
unfolding find_build_id
find_build_id-there b x r n = rw (find_build_id, n) refl

same_address : (x : ElfCtx) (id : ℕ) → (some x.id) ≡ (some id) → (x.id == id) ≡ true
same_address x id h = let e : x.id ≡ id = cc h in subst (λ n. (x.id == n) ≡ true) e (==_refl x.id)

-- The build ID that a module of the table has names a module by its address.
pub find_build_id-find_elf :
    (b : List ℕ) (l : List ElfCtx) (id : ℕ)
    → find_build_id b l ≡ some id
    → (e : ElfCtx) × (find_elf id l ≡ some e)
unfolding find_build_id
find_build_id-find_elf b [] id h = absurd (cc h)
find_build_id-find_elf b (x ∷ r) id h = elim (Bool-cases (x.id == id)) [
  | inl y ↦ (x, find_elf-here id x r y)
  | inr n ↦ elim (Bool-cases (same_bytes x.build_id b)) [
    | inl same ↦ absurd (cc (n, same_address x id (sym (find_build_id-here b x r same) ∙ h)))
    | inr other ↦
        (let (e, found) =
            find_build_id-find_elf b r id (sym (find_build_id-there b x r other) ∙ h) in
          (e, find_elf-there id x r n ∙ found))
  ]
]
