-- ===== src/Prelude/Errors.antt =====
-- A call that returns, or raises an exception of the given type.
use mathlib.Core.Logic.{◌⊎◌, inl, inr}
use mathlib.Core.Path.{◌≡◌, refl, ap, Path}
use oncall.Prelude.Tests.{if◌then◌else◌}
use mathlib.Core.Bool.{Bool, true, false}

pub data Outcome {ℓ} (E : Type 0) (A : Type ℓ) : Type ℓ where
  ok : A → Outcome E A
  raised : E → Outcome E A

-- The rest of a block runs on what a call returned; an exception skips it.
infixl 5 ◌>>=◌
abbrev pub ◌>>=◌ {ℓ κ} :
    {E : Type 0} {A : Type ℓ} {B : Type κ} → Outcome E A → (A → Outcome E B) → Outcome E B
raised e >>= rest = raised e
ok a >>= rest = rest a

-- A block that returns has run its first call and its rest.
pub >>=-eq-ok {ℓ κ} :
    {E : Type 0} {A : Type ℓ} {B : Type κ} (m : Outcome E A) (rest : A → Outcome E B) {b : B}
    → (m >>= rest) ≡ ok b
    → (x : A) × (m ≡ ok x) × (rest x ≡ ok b)
>>=-eq-ok (raised e) rest returned = cc
>>=-eq-ok (ok x) rest returned = (x, refl, returned)

-- The same, to be matched on where blocks are taken apart call by call.
pub data Ran {ℓ} {E : Type 0} {A B : Type ℓ} (m : Outcome E A) (rest : A → Outcome E B) (b : B)
    : Type ℓ where
  ran : (x : A) → m ≡ ok x → rest x ≡ ok b → Ran m rest b

pub >>=-Ran {ℓ} :
    {E : Type 0} {A B : Type ℓ} (m : Outcome E A) (rest : A → Outcome E B) {b : B}
    → (m >>= rest) ≡ ok b
    → Ran m rest b
>>=-Ran (raised e) rest returned = absurd (cc)
>>=-Ran (ok x) rest returned = ran x refl returned

-- Inversion of a guard.
pub ok-of-if_raised {ℓ} :
    {E : Type 0} {A : Type ℓ} (b : Bool) (e : E) (m : Outcome E A) {a : A}
    → (if b then raised e else m) ≡ ok a
    → (b ≡ false) × (m ≡ ok a)
ok-of-if_raised true e m h = absurd (cc)
ok-of-if_raised false e m h = (refl, h)

pub ok-of-if_else_raised {ℓ} :
    {E : Type 0} {A : Type ℓ} (b : Bool) (e : E) (m : Outcome E A) {a : A}
    → (if b then m else raised e) ≡ ok a
    → (b ≡ true) × (m ≡ ok a)
ok-of-if_else_raised true e m h = (refl, h)
ok-of-if_else_raised false e m h = absurd (cc)

-- To split on a computed outcome and keep the equation.
pub Outcome-cases {ℓ} :
    {E : Type 0} {A : Type ℓ} (m : Outcome E A)
    → ((a : A) × (m ≡ ok a)) ⊎ ((e : E) × (m ≡ raised e))
Outcome-cases (ok a) = inl (a, refl)
Outcome-cases (raised e) = inr (e, refl)

abbrev value_of {ℓ} : {E : Type 0} {A : Type ℓ} → A → Outcome E A → A
value_of d (ok a) = a
value_of d (raised e) = d

pub ok-injective {ℓ} :
    {E : Type 0} {A : Type ℓ} {a b : A} → Path (Outcome E A) (ok a) (ok b) → a ≡ b
ok-injective {a = a} h = ap (value_of a) h
