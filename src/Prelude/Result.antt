-- ===== src/Prelude/Result.antt =====
-- A Python function that may raise: `err` carries which exception it was.
use mathlib.Core.Path.{◌≡◌, refl}
use mathlib.Core.Bool.{Bool, true, false, not}
use lcsas.Prelude.Tests.{if◌then◌else◌}
use mathlib.Core.Logic.{◌⊎◌, inl, inr}

pub data Result {ℓ} (E : Type 0) (A : Type ℓ) : Type ℓ where
  ok : A → Result E A
  err : E → Result E A

infixl 5 ◌>>=◌ ◌>>◌
abbrev pub ◌>>=◌ {ℓ κ} :
    {E : Type 0} {A : Type ℓ} {B : Type κ} → Result E A → (A → Result E B) → Result E B
ok a >>= f = f a
err e >>= f = err e

abbrev pub ◌>>◌ {ℓ} : {E : Type 0} {B : Type ℓ} → Result E (Unit {0}) → Result E B → Result E B
m >> k = m >>= λ _. k

module _ {ℓ κ} {E : Type 0} {A : Type ℓ} {B : Type κ} where
  -- A chain with a value passes through one.
  pub ok-inv :
      {f : A → Result E B} {b : B} (m : Result E A)
      → (m >>= f) ≡ ok b
      → (a : A) × (f a ≡ ok b) × (m ≡ ok a)
  ok-inv (err e) chain = cc
  ok-inv (ok a) chain = (a, chain, refl)

  pub >>=_ext :
      (m : Result E A) (f g : A → Result E B) → ((a : A) → f a ≡ g a) → (m >>= f) ≡ (m >>= g)
  >>=_ext (ok a) f g h = h a
  >>=_ext (err e) f g h = refl

  pub >>=_assoc {μ} :
      {C : Type μ} (m : Result E A) (f : A → Result E B) (g : B → Result E C)
      → (m >>= f >>= g) ≡ (m >>= λ a. f a >>= g)
  >>=_assoc (ok a) f g = refl
  >>=_assoc (err e) f g = refl

pub ok_inj {ℓ} : {E : Type 0} {A : Type ℓ} {a b : A} → ◌≡◌ {A = Result E A} (ok a) (ok b) → a ≡ b
ok_inj h = cc

pub Result-cases {ℓ} :
    {E : Type 0} {A : Type ℓ} (m : Result E A) → ((a : A) × (m ≡ ok a)) ⊎ ((e : E) × (m ≡ err e))
Result-cases (ok a) = inl (a, refl)
Result-cases (err e) = inr (e, refl)

pub raised {ℓ} : {E : Type 0} {A : Type ℓ} {e : E} {a : A} → ◌≡◌ {A = Result E A} (err e) (ok a) → ⊥
raised h = cc

-- A guard that raises, and what follows from an outcome.
module _ {ℓ} {E : Type 0} {A : Type ℓ} (e : E) {a b : A} where
  pub ok-when :
      (test : Bool)
      → ◌≡◌ {A = Result E A} (if test then ok a else err e) (ok b)
      → (test ≡ true) × (a ≡ b)
  ok-when true h = (refl, ok_inj h)
  ok-when false h = absurd (raised h)

  pub ok-unless :
      (test : Bool)
      → ◌≡◌ {A = Result E A} (if not test then err e else ok a) (ok b)
      → (test ≡ true) × (a ≡ b)
  ok-unless true h = (refl, ok_inj h)
  ok-unless false h = absurd (raised h)

-- A guard that was passed.
pub ok-past {ℓ} :
    {E : Type 0} {A : Type ℓ} (e : E) {b : A} {m : Result E A} (test : Bool)
    → ◌≡◌ {A = Result E A} (if test then err e else m) (ok b)
    → (test ≡ false) × (m ≡ ok b)
ok-past e true h = absurd (raised h)
ok-past e false h = (refl, h)
