-- ===== src/Keyshare/Gf256/Field/Polynomial.antt =====
-- Polynomial functions over the field, by degree, and the count of their roots.
use lcsas.Prelude.{
  ℕ, zero, suc, List, [], ◌∷◌, length, Distinct, All, All-imp, ◌≡◌, ◌≢◌, refl, sym, ap, ap₂, ◌∙◌,
}
use lcsas.Keyshare.Gf256.Field.{
  BinaryField, ◌⊕◌, ◌⊗◌, zero-add, add_cancel, eq_of_add, add_interchange, mul_left_comm, add-mul,
  mul_zero, mul_eq_zero,
}

module _ {ℓ} {K : Type ℓ} ⦃F : BinaryField K⦄ where
  -- A polynomial with `n` coefficients: the division by each `x + a` leaves one with `n - 1`.
  abbrev pub IsPoly : ℕ → (K → K) → Type ℓ
  IsPoly zero f = (x : K) → f x ≡ F.zero
  IsPoly (suc n) f = (a : K) → (g : K → K) × IsPoly n g × ((x : K) → f x ≡ f a ⊕ (x ⊕ a) ⊗ g x)

  pub IsPoly-suc : (n : ℕ) (f : K → K) → IsPoly n f → IsPoly (suc n) f
  IsPoly-suc zero f h = λ a.
      ((λ x. F.zero), (λ x. refl), λ x. rw (h x, h a, mul_zero (x ⊕ a)) (sym (F.add_zero F.zero)))
  IsPoly-suc (suc n) f h = λ a. let (g, hg, eq) = h a in (g, IsPoly-suc n g hg, eq)

  pub IsPoly-constant : (c : K) → IsPoly 1 (λ x. c)
  IsPoly-constant c =
      λ a. ((λ x. F.zero), (λ x. refl), λ x. sym (rw (mul_zero (x ⊕ a)) (F.add_zero c)))

  pub IsPoly-add : (n : ℕ) (f g : K → K) → IsPoly n f → IsPoly n g → IsPoly n (λ x. f x ⊕ g x)
  IsPoly-add zero f g hf hg = λ x. rw (hf x, hg x) (F.add_zero F.zero)
  IsPoly-add (suc n) f g hf hg = λ a.
      let (p, hp, ep) = hf a in
      let (q, hq, eq) = hg a in
      (
        (λ x. p x ⊕ q x),
        IsPoly-add n p q hp hq,
        λ x.
            ap₂ F.add (ep x) (eq x)
            ∙ add_interchange (f a) _ (g a) _
            ∙ ap (λ t. f a ⊕ g a ⊕ t) (sym (F.mul-add (x ⊕ a) (p x) (q x))),
      )

  pub IsPoly-scale : (n : ℕ) (c : K) (f : K → K) → IsPoly n f → IsPoly n (λ x. c ⊗ f x)
  IsPoly-scale zero c f h = λ x. rw (h x) (mul_zero c)
  IsPoly-scale (suc n) c f h = λ a.
      let (g, hg, eq) = h a in
      (
        (λ x. c ⊗ g x),
        IsPoly-scale n c g hg,
        λ x.
            ap (λ t. c ⊗ t) (eq x)
            ∙ F.mul-add c (f a) _
            ∙ ap (λ t. c ⊗ f a ⊕ t) (mul_left_comm c (x ⊕ a) (g x)),
      )

  -- (x + b) f x = (a + b) f a + (x + a) (f x + (a + b) g x), where f x = f a + (x + a) g x.
  divide_times :
      (x a b p q r : K)
      → p ≡ q ⊕ (x ⊕ a) ⊗ r
      → (x ⊕ b) ⊗ p ≡ (a ⊕ b) ⊗ q ⊕ (x ⊕ a) ⊗ (p ⊕ (a ⊕ b) ⊗ r)
  divide_times x a b p q r h =
      ap (λ t. t ⊗ p) (shifted x a b)
      ∙ add-mul (x ⊕ a) (a ⊕ b) p
      ∙ ap (λ t. (x ⊕ a) ⊗ p ⊕ t)
          (ap (λ t. (a ⊕ b) ⊗ t) h
            ∙ F.mul-add (a ⊕ b) q _
            ∙ ap (λ t. (a ⊕ b) ⊗ q ⊕ t) (mul_left_comm (a ⊕ b) (x ⊕ a) r))
      ∙ F.add_comm _ _
      ∙ F.add_assoc _ _ _
      ∙ ap (λ t. (a ⊕ b) ⊗ q ⊕ t) (F.add_comm _ _ ∙ sym (F.mul-add (x ⊕ a) p _))
    where
      shifted : (x a b : K) → x ⊕ b ≡ (x ⊕ a) ⊕ (a ⊕ b)
      shifted x a b = sym (rw (← F.add_assoc (x ⊕ a) a b, add_cancel x a))

  pub IsPoly-times : (n : ℕ) (b : K) (f : K → K) → IsPoly n f → IsPoly (suc n) (λ x. (x ⊕ b) ⊗ f x)
  IsPoly-times zero b f h = IsPoly-suc zero (λ x. (x ⊕ b) ⊗ f x) (λ x. rw (h x) (mul_zero (x ⊕ b)))
  IsPoly-times (suc n) b f h = λ a.
      let (g, hg, eq) = h a in
      (
        (λ x. f x ⊕ (a ⊕ b) ⊗ g x),
        IsPoly-add (suc n) f (λ x. (a ⊕ b) ⊗ g x) h
            (IsPoly-suc n (λ x. (a ⊕ b) ⊗ g x) (IsPoly-scale n (a ⊕ b) g hg)),
        λ x. divide_times x a b (f x) (f a) (g x) (eq x),
      )

  -- A polynomial with `n` coefficients and `n` roots is zero.
  other_root :
      (f g : K → K) (a y : K)
      → f a ≡ F.zero
      → f y ≡ f a ⊕ (y ⊕ a) ⊗ g y
      → f y ≡ F.zero
      → y ≢ a
      → g y ≡ F.zero
  other_root f g a y root eq h different =
      mul_eq_zero (y ⊕ a) (g y) (λ e. different (eq_of_add y a e))
        (sym (eq ∙ ap (λ t. t ⊕ (y ⊕ a) ⊗ g y) root ∙ zero-add _) ∙ h)

  other_roots :
      (f g : K → K) (a : K)
      → f a ≡ F.zero
      → ((x : K) → f x ≡ f a ⊕ (x ⊕ a) ⊗ g x)
      → (ys : List K) → All (λ y. y ≢ a) ys
      → All (λ y. f y ≡ F.zero) ys
      → All (λ y. g y ≡ F.zero) ys
  other_roots f g a root eq [] different h = tt
  other_roots f g a root eq (y ∷ ys) different h =
      (other_root f g a y root (eq y) h.0 different.0, other_roots f g a root eq ys different.1 h.1)

  pub roots :
      (xs : List K) (f : K → K)
      → IsPoly (length xs) f
      → Distinct xs
      → All (λ x. f x ≡ F.zero) xs
      → (x : K) → f x ≡ F.zero
  roots [] f h distinct zeros x = h x
  roots (a ∷ xs) f h distinct zeros x =
      let (g, hg, eq) = h a in
      eq x
      ∙ rw
          (
            zeros.0,
            roots xs g hg distinct.1 (other_roots f g a zeros.0 eq xs distinct.0 zeros.1) x,
            mul_zero (x ⊕ a),
          )
          (F.add_zero F.zero)

  -- Two polynomials with `n` coefficients that agree at `n` points agree everywhere.
  pub agree :
      (xs : List K) (f g : K → K)
      → IsPoly (length xs) f
      → IsPoly (length xs) g
      → Distinct xs
      → All (λ x. f x ≡ g x) xs
      → (x : K) → f x ≡ g x
  agree xs f g hf hg distinct equal x = eq_of_add (f x) (g x) (
      roots xs (λ y. f y ⊕ g y) (IsPoly-add (length xs) f g hf hg) distinct
        (All-imp _ _ (λ y e. ap (λ t. t ⊕ g y) e ∙ F.add_self (g y)) xs equal) x)
