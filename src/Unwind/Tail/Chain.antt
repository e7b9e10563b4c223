-- ===== src/Unwind/Tail/Chain.antt =====
-- The tail of src/gu_stacktrace.c against the chain of frame pointers in the snapshot.
use libgunwinder.Base.{
  ℕ, zero, suc, ◌%◌, ◌≡◌, ◌≢◌, ◌≤◌, ◌<◌, refl, sym, ◌⊎◌, inl, inr, Bool, true, false, not, ◌||◌,
  Option, none, some, List, [], ◌∷◌, ◌==◌, if◌then◌else◌, length, arith, ◌>>=◌, Run, ok, fail,
  fault, Settles, Settles-then, IsCalm, Whatever, Bool-cases, Fault, wild_pointer, Concludes,
}
use mathlib.Core.Path.{subst}
use libgunwinder.Base.Words.{add64}
use libgunwinder.Interval
use libgunwinder.Interval.{Item, IntervalArray}
use libgunwinder.Unwind.{
  Walk, Modules, MapView, Host, FrameRecord, find_item, in_item, lookup_elf_symbol,
  frame_pointer_sane, search_present,
}
use libgunwinder.Unwind.Tail.{
  Appended, Tailed, module_frame, append_found, append_pc_frame, stopped, after_append, StackReader,
  read_pair, tail_loop,
}

-- The return addresses on the chain of saved frame pointers that starts at an address.
pub data FpChain (read : StackReader) : ℕ → List ℕ → Type 0 where
  done : (bp : ℕ) → FpChain read bp []
  link :
      (bp next_bp pc : ℕ) (r : List ℕ)
      → read bp ≡ ok next_bp
      → read (add64 bp 8) ≡ ok pc
      → bp < next_bp
      → bp % 8 ≡ 0
      → pc ≢ 0
      → FpChain read next_bp r
      → FpChain read bp (pc ∷ r)

abbrev pub pcs : List FrameRecord → List ℕ
pcs [] = []
pcs (f ∷ r) = f.abs_pc ∷ pcs r

-- Modules that answer or stop at a fault of a kind that is named: the searches for a process that
-- there is, the symbol lookups and the decoding of frames. A read through NULL is of these kinds.
pub record IsReliable {S : Type 0} (bad : Fault → Type 0) (mods : Modules S) : Type 0 where
  pub null_read : bad wild_pointer
  pub searches :
      (w : Walk S) (pc : ℕ)
      → mods.present w.modules ≡ true
      → Settles bad Whatever (mods.search w pc)
  pub symbols :
      (s : S) (item : Item) (v : MapView) (pc : ℕ)
      → mods.map_of s item ≡ some v
      → Settles bad Whatever (Interval.search false v.symbols pc)
  pub parses : (s : S) (elf pc : ℕ) → Concludes bad (mods.parse s elf pc).1

pub search_present-Settles :
    {S : Type 0} (mods : Modules S) (bad : Fault → Type 0) (reliable : IsReliable bad mods)
    (w : Walk S) (pc : ℕ)
    → Settles bad Whatever (search_present mods w pc)
unfolding search_present
search_present-Settles mods bad reliable w pc = elim (Bool-cases (mods.present w.modules)) [
  | inl here ↦ rw here (reliable.searches w pc here)
  | inr absent ↦ rw absent reliable.null_read
]

pub lookup_elf_symbol-Settles :
    (bad : Fault → Type 0) (o : Option IntervalArray) (pc : ℕ)
    → Settles bad Whatever (Interval.search false o pc)
    → Settles bad Whatever (lookup_elf_symbol o pc)
unfolding lookup_elf_symbol
lookup_elf_symbol-Settles bad none pc h = tt
lookup_elf_symbol-Settles bad (some a) pc h =
    Settles-then bad Whatever Whatever (Interval.search false (some a) pc) _ h (λ r _. tt)

sane_facts :
    (bp next_bp pc : ℕ)
    → (not (frame_pointer_sane bp next_bp) || pc == 0) ≡ false
    → (bp < next_bp) × (bp % 8 ≡ 0) × (pc ≢ 0)
unfolding frame_pointer_sane
sane_facts bp next_bp pc h = ground arith

module _ {S : Type 0} (host : Host) (mods : Modules S) (bad : Fault → Type 0)
    (reliable : IsReliable bad mods) where
  -- A frame that is appended is the one of the address.
  abbrev pub FrameAt : ℕ → Appended S → Type 0
  FrameAt pc a = elim a.frame [ none ↦ Unit | some (f, last) ↦ f.abs_pc ≡ pc ]

  module_frame-FrameAt :
      (w : Walk S) (pc : ℕ) (initial signal : Bool) (o : Option MapView)
      → mods.map_of w.modules w.item ≡ o
      → Settles bad (FrameAt pc) (module_frame host mods w pc initial signal o)
  unfolding module_frame
  module_frame-FrameAt w pc initial signal none e = refl
  module_frame-FrameAt w pc initial signal (some v) e =
      Settles-then bad Whatever (FrameAt pc) (lookup_elf_symbol v.symbols _) _
        (lookup_elf_symbol-Settles bad v.symbols _ (reliable.symbols w.modules w.item v _ e))
        (λ s _. refl)

  pub find_item-Settles : (w : Walk S) (pc : ℕ) → Settles bad Whatever (find_item mods w pc)
  unfolding find_item
  find_item-Settles w pc = elim (Bool-cases (in_item w pc)) [
    | inl y ↦ rw y tt
    | inr n ↦ rw n (search_present-Settles mods bad reliable w pc)
  ]

  append_found-FrameAt :
      (pc : ℕ) (initial signal : Bool) (p : Walk S × Bool)
      → Settles bad (FrameAt pc) (append_found host mods pc initial signal p)
  unfolding append_found
  append_found-FrameAt pc initial signal (w, false) = tt
  append_found-FrameAt pc initial signal (w, true) =
      module_frame-FrameAt w pc initial signal (mods.map_of w.modules w.item) refl

  pub append_pc_frame-FrameAt :
      (w : Walk S) (pc : ℕ) (initial signal : Bool)
      → Settles bad (FrameAt pc) (append_pc_frame host mods w pc initial signal)
  unfolding append_pc_frame
  append_pc_frame-FrameAt w pc initial signal = elim (Bool-cases (pc == 0)) [
    | inl y ↦ rw y tt
    | inr n ↦ rw n (
        Settles-then bad Whatever (FrameAt pc) (find_item mods w pc) _ (find_item-Settles w pc)
          (λ p _. append_found-FrameAt pc initial signal p))
  ]

read_cases : (m : Run ℕ) → IsCalm m → (m ≡ fail) ⊎ ((v : ℕ) × (m ≡ ok v))
read_cases (ok v) c = inr (v, refl)
read_cases fail c = inl refl
read_cases (fault e) c = absurd c

-- A pair that is read, or none.
abbrev Reads : StackReader → ℕ → Type 0
Reads read bp =
    (read_pair read bp ≡ ok none)
    ⊎ ((n : ℕ) × (pc : ℕ) × (read bp ≡ ok n)
        × (read (add64 bp 8) ≡ ok pc)
        × (read_pair read bp ≡ ok (some (n, pc))))

read_pair-Reads : (read : StackReader) (bp : ℕ) → ((a : ℕ) → IsCalm (read a)) → Reads read bp
unfolding read_pair
read_pair-Reads read bp calm = elim (read_cases (read bp) (calm bp)) [
  | inl f ↦ inl (rw (read_pair, f) refl)
  | inr (n, e) ↦ elim (read_cases (read (add64 bp 8)) (calm (add64 bp 8))) [
    | inl f ↦ inl (rw (read_pair, e, f) refl)
    | inr (pc, e₁) ↦ inr (n, pc, e, e₁, rw (read_pair, e, e₁) refl)
  ]
]

module _ {S : Type 0} (host : Host) (mods : Modules S) (bad : Fault → Type 0)
    (reliable : IsReliable bad mods) (read : StackReader) (calm : (a : ℕ) → IsCalm (read a)) where
  abbrev pub Follows : ℕ → ℕ → Tailed S → Type 0
  Follows levels bp t = FpChain read bp (pcs t.frames) × (length t.frames ≤ levels)

  tail_loop-none :
      (levels : ℕ) (w : Walk S) (bp : ℕ)
      → read_pair read bp ≡ ok none
      → tail_loop host mods read (suc levels) w bp ≡ stopped w
  unfolding tail_loop
  tail_loop-none levels w bp e = rw (tail_loop, e) refl

  tail_loop-some :
      (levels : ℕ) (w : Walk S) (bp n pc : ℕ)
      → read_pair read bp ≡ ok (some (n, pc))
      → tail_loop host mods read (suc levels) w bp ≡ (
          if not (frame_pointer_sane bp n) || pc == 0
          then stopped w
          else (append_pc_frame host mods w pc false false >>= λ a.
              after_append (λ w₁. tail_loop host mods read levels w₁ n) a.walk a.frame))
  unfolding tail_loop
  tail_loop-some levels w bp n pc e = rw (tail_loop, e) refl

  after-Follows :
      (levels bp n pc : ℕ) (w : Walk S) (o : Option (FrameRecord × Bool))
      → read bp ≡ ok n
      → read (add64 bp 8) ≡ ok pc
      → (bp < n) × (bp % 8 ≡ 0) × (pc ≢ 0)
      → FrameAt host mods bad reliable pc (record { walk = w; frame = o })
      → ((w : Walk S) → Settles bad (Follows levels n) (tail_loop host mods read levels w n))
      → Settles bad
          (Follows (suc levels) bp)
          (after_append (λ w₁. tail_loop host mods read levels w₁ n) w o)
  unfolding after_append
  after-Follows levels bp n pc w none e e₁ h at_pc rest = (FpChain.done bp, omega arith)
  after-Follows levels bp n pc w (some (f, true)) e e₁ h at_pc rest = (
    subst (λ q. FpChain read bp (q ∷ [])) (sym at_pc)
        (FpChain.link bp n pc [] e e₁ h.0 h.1 h.2 (FpChain.done n)),
    omega arith,
  )
  after-Follows levels bp n pc w (some (f, false)) e e₁ h at_pc rest =
      Settles-then bad (Follows levels n) (Follows (suc levels) bp)
        (tail_loop host mods read levels w n) _ (rest w)
        (λ t follows. (
          subst (λ q. FpChain read bp (q ∷ pcs t.frames)) (sym at_pc)
              (FpChain.link bp n pc (pcs t.frames) e e₁ h.0 h.1 h.2 follows.0),
          omega (arith, follows.1),
        ))

  tail_loop-zero :
      (w : Walk S) (bp : ℕ) → Settles bad (Follows 0 bp) (tail_loop host mods read 0 w bp)
  unfolding tail_loop
  tail_loop-zero w bp = (FpChain.done bp, omega arith)

  pub tail_loop-Follows :
      (levels : ℕ) (w : Walk S) (bp : ℕ)
      → Settles bad (Follows levels bp) (tail_loop host mods read levels w bp)
  tail_loop-Follows zero w bp = tail_loop-zero w bp
  tail_loop-Follows (suc levels) w bp = elim (read_pair-Reads read bp calm) [
    | inl e ↦
        subst (Settles bad (Follows (suc levels) bp)) (sym (tail_loop-none levels w bp e))
          (FpChain.done bp, omega arith)
    | inr (n, pc, e, e₁, p) ↦
        subst (Settles bad (Follows (suc levels) bp)) (sym (tail_loop-some levels w bp n pc p))
          (elim (Bool-cases (not (frame_pointer_sane bp n) || pc == 0)) [
            | inl y ↦ rw y (FpChain.done bp, omega arith)
            | inr s ↦ rw s (
                Settles-then bad (FrameAt host mods bad reliable pc) (Follows (suc levels) bp)
                  (append_pc_frame host mods w pc false false) _
                  (append_pc_frame-FrameAt host mods bad reliable w pc false false)
                  (λ a at_pc.
                    after-Follows levels bp n pc a.walk a.frame e e₁ (sane_facts bp n pc s) at_pc
                      (λ w₁. tail_loop-Follows levels w₁ n)))
          ])
  ]
