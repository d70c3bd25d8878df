-- ===== src/Keyshare/Gf256/Field/Others.antt =====
-- The products that the interpolation of src/lcsas/keyshare/slip39.py divides: over all the points,
-- and over all but one.
use mathlib.Core.List.{Memᴰ}
use lcsas.Prelude.{ℕ, suc, List, [], ◌∷◌, length, All, Distinct, ◌≡◌, ◌≢◌, refl, sym, ap, ap₂, ◌∙◌}
use lcsas.Keyshare.Gf256.Field.{
  BinaryField, ◌⊕◌, ◌⊗◌, eq_of_add, zero-mul, mul_eq_zero, mul_left_comm, mul_inv_cancel,
}
use lcsas.Keyshare.Gf256.Field.Polynomial.{
  IsPoly, IsPoly-suc, IsPoly-constant, IsPoly-scale, IsPoly-times,
}

module _ {ℓ} {K : Type ℓ} ⦃F : BinaryField K⦄ where
  -- An element, or 1 in place of 0: what a table of logarithms with 0 at 0 makes of it.
  abbrev unit_if : {a b : K} → Dec (a ≡ b) → K → K
  unit_if (yes _) a = F.one
  unit_if (no _) a = a

  abbrev pub unit : K → K
  unit a = unit_if (F.decide a F.zero) a

  abbrev pub product : (K → K) → List K → K
  product f [] = F.one
  product f (x ∷ xs) = f x ⊗ product f xs

  -- The factor of the point `q` at `x`, left out for the point `p` itself.
  abbrev factor : (p x q : K) → K
  factor p x q = unit_if (F.decide q p) (x ⊕ q)

  abbrev pub others : K → List K → K → K
  others p xs x = product (factor p x) xs

  pub nonzero-add : {a b : K} → a ≢ b → a ⊕ b ≢ F.zero
  nonzero-add {a} {b} different h = different (eq_of_add a b h)

  unit_if-other : {a b : K} (d : Dec (a ≡ b)) (c : K) → a ≢ b → unit_if d c ≡ c
  unit_if-other (yes e) c different = absurd (different e)
  unit_if-other (no _) c different = refl

  unit_if-same : {a b : K} (d : Dec (a ≡ b)) (c : K) → a ≡ b → unit_if d c ≡ F.one
  unit_if-same (yes _) c e = refl
  unit_if-same (no different) c e = absurd (different e)

  pub unit-nonzero : (a : K) → a ≢ F.zero → unit a ≡ a
  unit-nonzero a = unit_if-other (F.decide a F.zero) a

  pub unit-zero : (a : K) → a ≡ F.zero → unit a ≡ F.one
  unit-zero a = unit_if-same (F.decide a F.zero) a

  unit_is_nonzero : (a : K) (d : Dec (a ≡ F.zero)) → unit_if d a ≢ F.zero
  unit_is_nonzero a (yes _) = F.one_nonzero
  unit_is_nonzero a (no nonzero) = nonzero

  pub product-nonzero : (f : K → K) (xs : List K) → product (λ x. unit (f x)) xs ≢ F.zero
  product-nonzero f [] = F.one_nonzero
  product-nonzero f (x ∷ xs) = λ h.
      product-nonzero f xs
        (mul_eq_zero (unit (f x)) _ (unit_is_nonzero (f x) (F.decide (f x) F.zero)) h)

  -- Degrees.
  factor-IsPoly :
      {p q : K} (n : ℕ) (f : K → K) (d : Dec (q ≡ p))
      → IsPoly n f
      → IsPoly (suc n) (λ x. unit_if d (x ⊕ q) ⊗ f x)
  factor-IsPoly n f (yes _) h = IsPoly-suc n (λ x. F.one ⊗ f x) (IsPoly-scale n F.one f h)
  factor-IsPoly {p} {q} n f (no _) h = IsPoly-times n q f h

  others-IsPoly-suc : (p : K) (xs : List K) → IsPoly (suc (length xs)) (others p xs)
  others-IsPoly-suc p [] = IsPoly-constant F.one
  others-IsPoly-suc p (q ∷ xs) =
      factor-IsPoly (suc (length xs)) (others p xs) (F.decide q p) (others-IsPoly-suc p xs)

  same_factor-IsPoly :
      {p q : K} (n : ℕ) (f : K → K) (d : Dec (q ≡ p))
      → p ≡ q
      → IsPoly n f
      → IsPoly n (λ x. unit_if d (x ⊕ q) ⊗ f x)
  same_factor-IsPoly n f (yes _) e h = IsPoly-scale n F.one f h
  same_factor-IsPoly n f (no different) e h = absurd (different (sym e))

  pub others-IsPoly : (p : K) (xs : List K) → Memᴰ p xs → IsPoly (length xs) (others p xs)
  others-IsPoly p [] m = elim m [ ]
  others-IsPoly p (q ∷ xs) (Memᴰ.head e) =
      same_factor-IsPoly (suc (length xs)) (others p xs) (F.decide q p) e (others-IsPoly-suc p xs)
  others-IsPoly p (q ∷ xs) (Memᴰ.tail m) =
      factor-IsPoly (length xs) (others p xs) (F.decide q p) (others-IsPoly p xs m)

  pub All-Memᴰ {κ} : (P : K → Type κ) (xs : List K) (p : K) → Memᴰ p xs → All P xs → P p
  All-Memᴰ P [] p m h = elim m [ ]
  All-Memᴰ P (q ∷ xs) p (Memᴰ.head e) h = rw e h.0
  All-Memᴰ P (q ∷ xs) p (Memᴰ.tail m) h = All-Memᴰ P xs p m h.1

  -- At another point the product is 0.
  pub others-zero : (p q : K) (xs : List K) → Memᴰ q xs → q ≢ p → others p xs q ≡ F.zero
  others-zero p q [] m different = elim m [ ]
  others-zero p q (r ∷ xs) (Memᴰ.head e) different =
      ap (λ t. t ⊗ others p xs q)
        (unit_if-other (F.decide r p) (q ⊕ r) (λ h. different (e ∙ h)) ∙ rw e (F.add_self r))
      ∙ zero-mul (others p xs q)
  others-zero p q (r ∷ xs) (Memᴰ.tail m) different =
      rw (others-zero p q xs m different) (F.mul_comm _ _ ∙ zero-mul _)

  -- At the point itself it is what the code divides by.
  own_factor : (p q : K) (d : Dec (q ≡ p)) → unit_if d (p ⊕ q) ≡ unit (p ⊕ q)
  own_factor p q (yes e) = sym (unit-zero (p ⊕ q) (rw e (F.add_self p)))
  own_factor p q (no different) = sym (unit-nonzero (p ⊕ q) (nonzero-add (λ e. different (sym e))))

  pub others-own : (p : K) (xs : List K) → others p xs p ≡ product (λ q. unit (p ⊕ q)) xs
  others-own p [] = refl
  others-own p (q ∷ xs) = ap₂ F.mul (own_factor p q (F.decide q p)) (others-own p xs)

  -- Off the points, the product over all of them is the point's factor times the others'.
  off_factor : (p x q : K) → q ≢ x → q ≢ p → factor p x q ≡ unit (q ⊕ x)
  off_factor p x q off different =
      unit_if-other (F.decide q p) (x ⊕ q) different
      ∙ F.add_comm x q
      ∙ sym (unit-nonzero (q ⊕ x) (nonzero-add off))

  off_rest :
      (p x : K) (xs : List K)
      → All (λ q. q ≢ x) xs
      → All (λ q. q ≢ p) xs
      → others p xs x ≡ product (λ q. unit (q ⊕ x)) xs
  off_rest p x [] off different = refl
  off_rest p x (q ∷ xs) off different =
      ap₂ F.mul (off_factor p x q off.0 different.0) (off_rest p x xs off.1 different.1)

  pub product-off :
      (p x : K) (xs : List K)
      → Memᴰ p xs
      → Distinct xs
      → All (λ q. q ≢ x) xs
      → product (λ q. unit (q ⊕ x)) xs ≡ unit (p ⊕ x) ⊗ others p xs x
  product-off p x [] m distinct off = elim m [ ]
  product-off p x (q ∷ xs) (Memᴰ.head e) distinct off = sym (
      ap₂ F.mul (ap (λ t. unit (t ⊕ x)) e) (
        ap (λ t. t ⊗ others p xs x) (unit_if-same (F.decide q p) (x ⊕ q) (sym e))
        ∙ F.mul_comm F.one _
        ∙ F.mul_one _
        ∙ off_rest p x xs off.1 (rw e distinct.0)))
  product-off p x (q ∷ xs) (Memᴰ.tail m) distinct off =
      ap₂ F.mul
        (sym (off_factor p x q off.0 (λ e. All-Memᴰ (λ y. y ≢ q) xs p m distinct.0 (sym e))))
        (product-off p x xs m distinct.1 off.1)
      ∙ mul_left_comm (factor p x q) (unit (p ⊕ x)) (others p xs x)

  -- The quotient that the code takes by a difference of logarithms.
  pub basis :
      (b p x : K) (xs : List K)
      → Memᴰ p xs
      → Distinct xs
      → All (λ q. q ≢ x) xs
      → b ⊗ (unit (p ⊕ x) ⊗ product (λ q. unit (p ⊕ q)) xs) ≡ product (λ q. unit (q ⊕ x)) xs
      → b ≡ F.inv (product (λ q. unit (p ⊕ q)) xs) ⊗ others p xs x
  basis b p x xs m distinct off h =
      let weight = product (λ q. unit (p ⊕ q)) xs in
      let u = unit (p ⊕ x) in
      let apart = unit_is_nonzero (p ⊕ x) (F.decide (p ⊕ x) F.zero) in
      let scaled : weight ⊗ b ≡ others p xs x =
        sym (mul_inv_cancel u (weight ⊗ b) apart)
        ∙ ap (λ t. t ⊗ F.inv u)
            (rw (← F.mul_assoc u weight b, F.mul_comm (u ⊗ weight) b)
              (h ∙ product-off p x xs m distinct off))
        ∙ mul_inv_cancel u (others p xs x) apart in
      sym (mul_inv_cancel weight b (product-nonzero (λ q. p ⊕ q) xs))
      ∙ ap (λ t. t ⊗ F.inv weight) scaled
      ∙ F.mul_comm _ _
