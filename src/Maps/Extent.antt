-- ===== src/Maps/Extent.antt =====
-- What a mapping and the lines of src/gu_comm.c show, and a line that extends a mapping.
use libgunwinder.Base.{
  ℕ, ◌+◌, ◌-◌, ◌^◌, ◌≡◌, ◌≤◌, ◌<◌, ◌⊎◌, inl, inr, refl, ap, ap₂, sym, ◌∙◌, Bool, true, false, ◌&&◌,
  List, [], ◌∷◌, ◌==◌, arith, Bool-cases, ==→eq,
}
use libgunwinder.Base.Words.{sub64}
use libgunwinder.Unwind.{same_bytes}
use libgunwinder.Maps.{MapsLine, MapsInfo, has_permission, extends}

-- A mapping from `start` to `end` shows at an address a byte of a file, which its path and whether
-- it was deleted tell.
abbrev pub ShowsAt : ℕ → ℕ → ℕ → List ℕ → Bool → ℕ → ℕ → List ℕ → Bool → Type 0
ShowsAt start last offset path deleted a o p d =
    (start ≤ a) × (a < last) × (o ≡ offset + (a - start)) × (path ≡ p) × (deleted ≡ d)

abbrev pub Shows : ℕ → ℕ → List ℕ → Bool → List MapsInfo → Type 0
Shows a o p d [] = ⊥
Shows a o p d (m ∷ r) = ShowsAt m.start m.end m.offset m.path m.deleted a o p d ⊎ Shows a o p d r

-- The same of the lines that have the permission.
abbrev pub LinesShow : ℕ → ℕ → ℕ → List ℕ → Bool → List MapsLine → Type 0
LinesShow flag a o p d [] = ⊥
LinesShow flag a o p d (l ∷ r) =
    ((has_permission flag l ≡ true) × ShowsAt l.start l.end l.offset l.path l.deleted a o p d)
    ⊎ LinesShow flag a o p d r

-- Lines of 64-bit addresses, none of which ends before it starts; whether a line's file is deleted
-- depends on its path alone.
abbrev pub AllRanges : (List ℕ → Bool) → List MapsLine → Type 0
AllRanges flagged [] = Unit
AllRanges flagged (l ∷ r) =
    ((l.start ≤ l.end) × (l.end < 2 ^ 64) × (l.deleted ≡ flagged l.path)) × AllRanges flagged r

pub same_bytes-eq : (xs ys : List ℕ) → same_bytes xs ys ≡ true → xs ≡ ys
unfolding same_bytes
same_bytes-eq [] [] h = refl
same_bytes-eq [] (y ∷ ys) h = absurd (cc h)
same_bytes-eq (x ∷ xs) [] h = absurd (cc h)
same_bytes-eq (x ∷ xs) (y ∷ ys) h = elim (Bool-cases (x == y)) [
  | inl e ↦
      ap₂ (λ z zs. z ∷ zs) (==→eq x y e)
        (same_bytes-eq xs ys (ap (λ b. b && same_bytes xs ys) (sym e) ∙ h))
  | inr n ↦ absurd (cc (sym (ap (λ b. b && same_bytes xs ys) n) ∙ h))
]

and_last :
    (a b c d e : Bool) → (a && b && c && d && e) ≡ true → (a ≡ true) × (c ≡ true) × (e ≡ true)
and_last true true true true e h = (refl, refl, h)
and_last true true true false e h = absurd (cc h)
and_last true true false d e h = absurd (cc h)
and_last true false c d e h = absurd (cc h)
and_last false b c d e h = absurd (cc h)

-- The line goes on where the mapping ends.
pub extends-facts :
    (m : MapsInfo) (l : MapsLine)
    → m.start ≤ m.end
    → m.end < 2 ^ 64
    → extends m l ≡ true
    → (m.end ≡ l.start) × (m.offset + (m.end - m.start) ≡ l.offset) × (m.path ≡ l.path)
unfolding extends
extends-facts m l up fits h =
    let (a, c, e) = and_last _ _ _ _ _ h in
    let size : sub64 m.end m.start ≡ m.end - m.start = omega (arith, up, fits) in
    (
      ==→eq m.end l.start a,
      ap (λ n. m.offset + n) (sym size) ∙ ==→eq (m.offset + sub64 m.end m.start) l.offset c,
      same_bytes-eq m.path l.path e,
    )
