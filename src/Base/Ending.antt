-- ===== src/Base/Ending.antt =====
-- How a call of the C code ends: with a value, with its own failure code (-1, NULL or false),
-- or with behaviour that C leaves undefined.
use mathlib.Core.Bool.{Bool, true, false}
use mathlib.Core.Path.{◌≡◌, refl}

-- `past_end`: a read beyond the known bytes; `bad_shift`: a shift that C leaves undefined;
-- `wild_pointer`: a pointer that is NULL or overwritten; `deep`: the recursion does not end within
-- the depth given; `unset`: a variable is read that was never written; `overflow`: signed
-- arithmetic leaves its range.
pub data Fault : Type 0 where
  past_end bad_shift wild_pointer deep unset overflow : Fault

pub data Run {ℓ} (A : Type ℓ) : Type ℓ where
  ok : A → Run A
  fail : Run A
  fault : Fault → Run A

infixl 5 ◌>>=◌ ◌>>◌
abbrev pub ◌>>=◌ {ℓ κ} : {A : Type ℓ} {B : Type κ} → Run A → (A → Run B) → Run B
ok a >>= f = f a
fail >>= f = fail
fault e >>= f = fault e

abbrev pub ◌>>◌ {ℓ} : {B : Type ℓ} → Run (Unit {0}) → Run B → Run B
m >> k = m >>= λ _. k

-- `if (!test) return -1;`
abbrev pub check : Bool → Run (Unit {0})
check true = ok tt
check false = fail

-- The run ends within its fuel and without reading past the bytes that it was given,
-- and a value that it returns satisfies `P`.
abbrev pub InBounds {ℓ} : {A : Type ℓ} → (A → Type 0) → Run A → Type 0
InBounds P (ok a) = P a
InBounds P fail = Unit
InBounds P (fault bad_shift) = Unit
InBounds P (fault wild_pointer) = Unit
InBounds P (fault e) = ⊥

pub InBounds-bind {ℓ κ} :
    {A : Type ℓ} {B : Type κ} (P : A → Type 0) (Q : B → Type 0) (m : Run A) (f : A → Run B)
    → InBounds P m
    → ((a : A) → P a → InBounds Q (f a))
    → InBounds Q (m >>= f)
InBounds-bind P Q (ok a) f h k = k a h
InBounds-bind P Q fail f h k = tt
InBounds-bind P Q (fault past_end) f h k = h
InBounds-bind P Q (fault bad_shift) f h k = tt
InBounds-bind P Q (fault wild_pointer) f h k = tt
InBounds-bind P Q (fault deep) f h k = h
InBounds-bind P Q (fault unset) f h k = h
InBounds-bind P Q (fault overflow) f h k = h

pub InBounds-mono {ℓ} :
    {A : Type ℓ} (P Q : A → Type 0) (m : Run A)
    → ((a : A) → P a → Q a)
    → InBounds P m
    → InBounds Q m
InBounds-mono P Q (ok a) k h = k a h
InBounds-mono P Q fail k h = tt
InBounds-mono P Q (fault past_end) k h = h
InBounds-mono P Q (fault bad_shift) k h = tt
InBounds-mono P Q (fault wild_pointer) k h = tt
InBounds-mono P Q (fault deep) k h = h
InBounds-mono P Q (fault unset) k h = h
InBounds-mono P Q (fault overflow) k h = h

-- Every value that the run returns satisfies `P`.
abbrev pub Returns {ℓ} : {A : Type ℓ} → (A → Type 0) → Run A → Type 0
Returns P (ok a) = P a
Returns P fail = Unit
Returns P (fault e) = Unit

pub Returns-then {ℓ κ} :
    {A : Type ℓ} {B : Type κ} (P : A → Type 0) (Q : B → Type 0) (m : Run A) (f : A → Run B)
    → Returns P m
    → ((a : A) → P a → Returns Q (f a))
    → Returns Q (m >>= f)
Returns-then P Q (ok a) f h k = k a h
Returns-then P Q fail f h k = tt
Returns-then P Q (fault e) f h k = tt

-- What the second run is given is what the first one returned.
pub Returns-from {ℓ κ} :
    {A : Type ℓ} {B : Type κ} (P : A → Type 0) (Q : B → Type 0) (m : Run A) (f : A → Run B)
    → Returns P m
    → ((a : A) → m ≡ ok a → P a → Returns Q (f a))
    → Returns Q (m >>= f)
Returns-from P Q (ok a) f h k = k a refl h
Returns-from P Q fail f h k = tt
Returns-from P Q (fault e) f h k = tt

pub Returns-mono {ℓ} :
    {A : Type ℓ} (P Q : A → Type 0) (m : Run A) → ((a : A) → P a → Q a) → Returns P m → Returns Q m
Returns-mono P Q (ok a) k h = k a h
Returns-mono P Q fail k h = tt
Returns-mono P Q (fault e) k h = tt

pub Returns-bind {ℓ κ} :
    {A : Type ℓ} {B : Type κ} (Q : B → Type 0) (m : Run A) (f : A → Run B)
    → ((a : A) → Returns Q (f a))
    → Returns Q (m >>= f)
Returns-bind Q (ok a) f k = k a
Returns-bind Q fail f k = tt
Returns-bind Q (fault e) f k = tt

-- The run returns a value that satisfies `P`, or stops at a fault of a kind that is named.
abbrev pub Settles {ℓ} : {A : Type ℓ} → (Fault → Type 0) → (A → Type 0) → Run A → Type 0
Settles bad P (ok a) = P a
Settles bad P fail = ⊥
Settles bad P (fault e) = bad e

pub Settles-then {ℓ κ} :
    {A : Type ℓ} {B : Type κ} (bad : Fault → Type 0) (P : A → Type 0) (Q : B → Type 0) (m : Run A)
    (f : A → Run B)
    → Settles bad P m
    → ((a : A) → P a → Settles bad Q (f a))
    → Settles bad Q (m >>= f)
Settles-then bad P Q (ok a) f h k = k a h
Settles-then bad P Q fail f h k = h
Settles-then bad P Q (fault e) f h k = h

pub Settles-mono {ℓ} :
    {A : Type ℓ} (bad : Fault → Type 0) (P Q : A → Type 0) (m : Run A)
    → ((a : A) → P a → Q a)
    → Settles bad P m
    → Settles bad Q m
Settles-mono bad P Q (ok a) k h = k a h
Settles-mono bad P Q fail k h = h
Settles-mono bad P Q (fault e) k h = h

-- The run returns a value or its failure code, or stops at a fault of a kind that is named.
abbrev pub Concludes {ℓ} : {A : Type ℓ} → (Fault → Type 0) → Run A → Type 0
Concludes bad (ok a) = Unit
Concludes bad fail = Unit
Concludes bad (fault e) = bad e

-- The run returns a value or its failure code.
abbrev pub IsCalm {ℓ} : {A : Type ℓ} → Run A → Type 0
IsCalm (ok a) = Unit
IsCalm fail = Unit
IsCalm (fault e) = ⊥

-- Nothing is said of a value.
abbrev pub Whatever {ℓ} : {A : Type ℓ} → A → Type 0
Whatever a = Unit

-- A run that returns a value, which satisfies what every value that it returns satisfies.
pub Settles-Returns {ℓ} :
    {A : Type ℓ} (bad : Fault → Type 0) (P : A → Type 0) (m : Run A)
    → Settles bad Whatever m
    → Returns P m
    → Settles bad P m
Settles-Returns bad P (ok a) s r = r
Settles-Returns bad P fail s r = s
Settles-Returns bad P (fault e) s r = s
