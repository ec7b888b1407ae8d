-- ===== src/Base/Options.antt =====
-- Results that may be missing. In the model `none` is a run of the code that gives no result: it
-- throws, loops for ever, or computes with `NaN` or a negative index.
use mathlib.Core.Path.{◌≡◌, refl}
use mathlib.Core.Logic.{◌⊎◌, inl, inr}
use mathlib.Core.Option.{Option, none, some}
use mathlib.Core.Bool.{Bool, true, false}
use cchess.Base.Tests.{if◌then◌else◌}

infixl 5 ◌>>=◌
abbrev pub ◌>>=◌ {ℓ κ} : {A : Type ℓ} {B : Type κ} → Option A → (A → Option B) → Option B
none >>= f = none
some a >>= f = f a

-- A bind that gives a result had one in its first part.
pub >>=-eq-some {ℓ κ} :
    {A : Type ℓ} {B : Type κ} (m : Option A) (f : A → Option B) {b : B}
    → (m >>= f) ≡ some b
    → (a : A) × (m ≡ some a) × (f a ≡ some b)
>>=-eq-some none f h = cc
>>=-eq-some (some a) f h = (a, refl, h)

pub Option-cases {ℓ} : {A : Type ℓ} (o : Option A) → (o ≡ none) ⊎ ((a : A) × (o ≡ some a))
Option-cases none = inl refl
Option-cases (some a) = inr (a, refl)

pub >>=-of {ℓ κ} :
    {A : Type ℓ} {B : Type κ} {m : Option A} (f : A → Option B) {a : A}
    → m ≡ some a
    → (m >>= f) ≡ f a
>>=-of f h = rw h

-- A conditional that gives a result gave it in one of its branches.
pub if-eq-some {ℓ} :
    {A : Type ℓ} (t : Bool) (m n : Option A) {a : A}
    → (if t then m else n) ≡ some a
    → (t ≡ true) × (m ≡ some a) ⊎ (t ≡ false) × (n ≡ some a)
if-eq-some true m n h = inl (refl, h)
if-eq-some false m n h = inr (refl, h)
