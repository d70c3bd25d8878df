-- ===== src/Keyshare/Gf256/Field.antt =====
-- The algebra behind the secret sharing of src/lcsas/keyshare/slip39.py: a field where every element
-- is its own negative, and its products over a list.
pub mod Polynomial
pub mod Others
pub mod Lagrange
use lcsas.Prelude.{List, [], ◌∷◌, ◌≡◌, ◌≢◌, sym, ap, ap₂, ◌∙◌, refl, ◌⊎◌, inl, inr}

pub record BinaryField {ℓ} (K : Type ℓ) : Type ℓ where
  pub zero : K
  pub one : K
  pub add : K → K → K
  pub mul : K → K → K
  pub inv : K → K
  pub decide : Discrete K
  pub add_assoc : (a b c : K) → add (add a b) c ≡ add a (add b c)
  pub add_comm : (a b : K) → add a b ≡ add b a
  pub add_zero : (a : K) → add a zero ≡ a
  pub add_self : (a : K) → add a a ≡ zero
  pub mul_assoc : (a b c : K) → mul (mul a b) c ≡ mul a (mul b c)
  pub mul_comm : (a b : K) → mul a b ≡ mul b a
  pub mul_one : (a : K) → mul a one ≡ a
  pub mul-add : (a b c : K) → mul a (add b c) ≡ add (mul a b) (mul a c)
  pub one_nonzero : one ≢ zero
  pub mul-inv : (a : K) → a ≢ zero → mul a (inv a) ≡ one

module _ {ℓ} {K : Type ℓ} ⦃F : BinaryField K⦄ where
  infixl 65 ◌⊕◌
  infixl 70 ◌⊗◌
  abbrev pub ◌⊕◌ : K → K → K
  a ⊕ b = F.add a b

  abbrev pub ◌⊗◌ : K → K → K
  a ⊗ b = F.mul a b

  pub zero-add : (a : K) → F.zero ⊕ a ≡ a
  zero-add a = rw (F.add_comm F.zero a) (F.add_zero a)

  pub add_cancel : (a b : K) → a ⊕ b ⊕ b ≡ a
  add_cancel a b = rw (F.add_assoc a b b, F.add_self b) (F.add_zero a)

  pub eq_of_add : (a b : K) → a ⊕ b ≡ F.zero → a ≡ b
  eq_of_add a b h = sym (add_cancel a b) ∙ ap (λ t. t ⊕ b) h ∙ zero-add b

  pub add_interchange : (a b c d : K) → (a ⊕ b) ⊕ (c ⊕ d) ≡ (a ⊕ c) ⊕ (b ⊕ d)
  add_interchange a b c d = rw (
    F.add_assoc a b (c ⊕ d),
    ← F.add_assoc b c d,
    F.add_comm b c,
    F.add_assoc c b d,
    ← F.add_assoc a c (b ⊕ d),
  )

  pub mul_left_comm : (a b c : K) → a ⊗ (b ⊗ c) ≡ b ⊗ (a ⊗ c)
  mul_left_comm a b c = rw (← F.mul_assoc a b c, F.mul_comm a b, F.mul_assoc b a c)

  pub add-mul : (a b c : K) → (a ⊕ b) ⊗ c ≡ a ⊗ c ⊕ b ⊗ c
  add-mul a b c = rw (F.mul_comm (a ⊕ b) c, F.mul-add c a b, F.mul_comm c a, F.mul_comm c b)

  pub mul_zero : (a : K) → a ⊗ F.zero ≡ F.zero
  mul_zero a =
      ap (λ t. a ⊗ t) (sym (F.add_self F.zero))
      ∙ F.mul-add a F.zero F.zero
      ∙ F.add_self (a ⊗ F.zero)

  pub zero-mul : (a : K) → F.zero ⊗ a ≡ F.zero
  zero-mul a = rw (F.mul_comm F.zero a) (mul_zero a)

  pub mul_inv_cancel : (a b : K) → a ≢ F.zero → (a ⊗ b) ⊗ F.inv a ≡ b
  mul_inv_cancel a b nonzero =
      rw (F.mul_comm a b, F.mul_assoc b a (F.inv a), F.mul-inv a nonzero) (F.mul_one b)

  -- There are no zero divisors.
  pub mul_eq_zero : (a b : K) → a ≢ F.zero → a ⊗ b ≡ F.zero → b ≡ F.zero
  mul_eq_zero a b nonzero h =
      sym (mul_inv_cancel a b nonzero) ∙ ap (λ t. t ⊗ F.inv a) h ∙ zero-mul (F.inv a)
