-- ===== src/Process/Pids.antt =====
-- The hash table of process contexts of src/gu_stacktrace.c: at most one context per process.
use libgunwinder.Base.{
  ℕ, ◌≡◌, refl, ap, sym, ◌∙◌, inl, inr, true, false, none, some, List, [], ◌∷◌, ◌++◌, ◌==◌, arith,
  Bool-cases, ==→eq, ==_refl,
}
use mathlib.Core.Path.{subst}
use libgunwinder.Process.{Process}
use libgunwinder.Process.Calls.{find_pid, delete_pid, update_pid}

module _ (pid : ℕ) (q : Process) (r : List Process) where
  pub find_pid-here : (q.schedule.pid == pid) ≡ true → find_pid pid (q ∷ r) ≡ some q
  unfolding find_pid
  find_pid-here h = rw h refl

  pub find_pid-there : (q.schedule.pid == pid) ≡ false → find_pid pid (q ∷ r) ≡ find_pid pid r
  unfolding find_pid
  find_pid-there h = rw h refl

  pub delete_pid-here : (q.schedule.pid == pid) ≡ true → delete_pid pid (q ∷ r) ≡ r
  unfolding delete_pid
  delete_pid-here h = rw h refl

  pub delete_pid-there :
      (q.schedule.pid == pid) ≡ false → delete_pid pid (q ∷ r) ≡ q ∷ delete_pid pid r
  unfolding delete_pid
  delete_pid-there h = rw h refl

pub find_pid-nil : (pid : ℕ) → find_pid pid [] ≡ none
unfolding find_pid
find_pid-nil pid = refl

delete_pid-nil : (pid : ℕ) → delete_pid pid [] ≡ []
unfolding delete_pid
delete_pid-nil pid = refl

pub update_pid-nil : (pid : ℕ) (f : Process → Process) → update_pid pid f [] ≡ []
unfolding update_pid
update_pid-nil pid f = refl

module _ (pid : ℕ) (f : Process → Process) (q : Process) (r : List Process) where
  pub update_pid-here : (q.schedule.pid == pid) ≡ true → update_pid pid f (q ∷ r) ≡ f q ∷ r
  unfolding update_pid
  update_pid-here h = rw h refl

  pub update_pid-there :
      (q.schedule.pid == pid) ≡ false → update_pid pid f (q ∷ r) ≡ q ∷ update_pid pid f r
  unfolding update_pid
  update_pid-there h = rw h refl

abbrev pub PidsApart : List Process → Type 0
PidsApart [] = Unit
PidsApart (p ∷ r) = (find_pid p.schedule.pid r ≡ none) × PidsApart r

-- A list without a process, and its first.
find_pid-none :
    (pid : ℕ) (q : Process) (r : List Process)
    → find_pid pid (q ∷ r) ≡ none
    → ((q.schedule.pid == pid) ≡ false) × (find_pid pid r ≡ none)
find_pid-none pid q r h = elim (Bool-cases (q.schedule.pid == pid)) [
  | inl y ↦ absurd (cc (find_pid-here pid q r y, h))
  | inr n ↦ (n, sym (find_pid-there pid q r n) ∙ h)
]

pub find_pid-append :
    (pid : ℕ) (l : List Process) (p : Process)
    → find_pid pid l ≡ none
    → p.schedule.pid ≡ pid
    → find_pid pid (l ++ p ∷ []) ≡ some p
find_pid-append pid [] p h at_pid =
    find_pid-here pid p []
      (subst (λ n. (p.schedule.pid == n) ≡ true) at_pid (==_refl p.schedule.pid))
find_pid-append pid (q ∷ r) p h at_pid =
    let (n, rest) = find_pid-none pid q r h in
    find_pid-there pid q (r ++ p ∷ []) n ∙ find_pid-append pid r p rest at_pid

find_pid-append-none :
    (pid : ℕ) (l : List Process) (p : Process)
    → find_pid pid l ≡ none
    → (p.schedule.pid == pid) ≡ false
    → find_pid pid (l ++ p ∷ []) ≡ none
find_pid-append-none pid [] p h other = find_pid-there pid p [] other ∙ find_pid-nil pid
find_pid-append-none pid (q ∷ r) p h other =
    let (n, rest) = find_pid-none pid q r h in
    find_pid-there pid q (r ++ p ∷ []) n ∙ find_pid-append-none pid r p rest other

pub append-PidsApart :
    (l : List Process) (p : Process)
    → find_pid p.schedule.pid l ≡ none
    → PidsApart l
    → PidsApart (l ++ p ∷ [])
append-PidsApart [] p new apart = (find_pid-nil p.schedule.pid, tt)
append-PidsApart (q ∷ r) p new (first, apart) =
    let (n, rest) = find_pid-none p.schedule.pid q r new in
    let swapped : (p.schedule.pid == q.schedule.pid) ≡ false = ground (arith, n) in
    (find_pid-append-none q.schedule.pid r p first swapped, append-PidsApart r p rest apart)

find_pid-delete_pid :
    (pid other : ℕ) (l : List Process)
    → find_pid other l ≡ none
    → find_pid other (delete_pid pid l) ≡ none
find_pid-delete_pid pid other [] h = ap (find_pid other) (delete_pid-nil pid) ∙ h
find_pid-delete_pid pid other (q ∷ r) h =
    let (m, rest) = find_pid-none other q r h in
    elim (Bool-cases (q.schedule.pid == pid)) [
      | inl y ↦ ap (find_pid other) (delete_pid-here pid q r y) ∙ rest
      | inr n ↦
          ap (find_pid other) (delete_pid-there pid q r n)
          ∙ find_pid-there other q (delete_pid pid r) m
          ∙ find_pid-delete_pid pid other r rest
    ]

-- Once a process is deleted there is none of its identifier.
pub delete_pid-PidsApart :
    (pid : ℕ) (l : List Process)
    → PidsApart l
    → PidsApart (delete_pid pid l) × (find_pid pid (delete_pid pid l) ≡ none)
delete_pid-PidsApart pid [] apart =
    subst (λ t. PidsApart t × (find_pid pid t ≡ none)) (sym (delete_pid-nil pid))
      (tt, find_pid-nil pid)
delete_pid-PidsApart pid (q ∷ r) (first, apart) = elim (Bool-cases (q.schedule.pid == pid)) [
  | inl y ↦
      subst (λ t. PidsApart t × (find_pid pid t ≡ none)) (sym (delete_pid-here pid q r y))
        (apart, subst (λ n. find_pid n r ≡ none) (==→eq q.schedule.pid pid y) first)
  | inr n ↦
      (let (rest, gone) = delete_pid-PidsApart pid r apart in
        subst (λ t. PidsApart t × (find_pid pid t ≡ none)) (sym (delete_pid-there pid q r n))
          (
            (find_pid-delete_pid pid q.schedule.pid r first, rest),
            find_pid-there pid q (delete_pid pid r) n ∙ gone,
          ))
]

pub delete_pid-none : (pid : ℕ) (l : List Process) → find_pid pid l ≡ none → delete_pid pid l ≡ l
delete_pid-none pid [] h = delete_pid-nil pid
delete_pid-none pid (q ∷ r) h =
    let (n, rest) = find_pid-none pid q r h in
    delete_pid-there pid q r n ∙ ap (λ t. q ∷ t) (delete_pid-none pid r rest)

module _ (pid : ℕ) (f : Process → Process)
    (keeps : (p : Process) → (f p).schedule.pid ≡ p.schedule.pid) where
  update_pid-none :
      (other : ℕ) (l : List Process)
      → find_pid other l ≡ none
      → find_pid other (update_pid pid f l) ≡ none
  update_pid-none other [] h = ap (find_pid other) (update_pid-nil pid f) ∙ h
  update_pid-none other (q ∷ r) h =
      let (m, rest) = find_pid-none other q r h in
      elim (Bool-cases (q.schedule.pid == pid)) [
        | inl y ↦
            ap (find_pid other) (update_pid-here pid f q r y)
            ∙ find_pid-there other (f q) r (ap (λ n. n == other) (keeps q) ∙ m)
            ∙ rest
        | inr n ↦
            ap (find_pid other) (update_pid-there pid f q r n)
            ∙ find_pid-there other q (update_pid pid f r) m
            ∙ update_pid-none other r rest
      ]

  pub update_pid-PidsApart : (l : List Process) → PidsApart l → PidsApart (update_pid pid f l)
  update_pid-PidsApart [] apart = subst PidsApart (sym (update_pid-nil pid f)) tt
  update_pid-PidsApart (q ∷ r) (first, apart) = elim (Bool-cases (q.schedule.pid == pid)) [
    | inl y ↦
        subst PidsApart (sym (update_pid-here pid f q r y))
          (subst (λ n. find_pid n r ≡ none) (sym (keeps q)) first, apart)
    | inr n ↦
        subst PidsApart (sym (update_pid-there pid f q r n))
          (update_pid-none q.schedule.pid r first, update_pid-PidsApart r apart)
  ]

  pub find_pid-update_pid :
      (l : List Process) (p : Process)
      → find_pid pid l ≡ some p
      → find_pid pid (update_pid pid f l) ≡ some (f p)
  find_pid-update_pid [] p h = absurd (cc (find_pid-nil pid, h))
  find_pid-update_pid (q ∷ r) p h = elim (Bool-cases (q.schedule.pid == pid)) [
    | inl y ↦
        (let same : q ≡ p = cc (find_pid-here pid q r y, h) in
          ap (find_pid pid) (update_pid-here pid f q r y)
          ∙ find_pid-here pid (f q) r (ap (λ n. n == pid) (keeps q) ∙ y)
          ∙ ap (λ o. some (f o)) same)
    | inr n ↦
        ap (find_pid pid) (update_pid-there pid f q r n)
        ∙ find_pid-there pid q (update_pid pid f r) n
        ∙ find_pid-update_pid r p (sym (find_pid-there pid q r n) ∙ h)
  ]
