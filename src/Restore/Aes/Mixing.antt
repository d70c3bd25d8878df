-- ===== src/Restore/Aes/Mixing.antt =====
-- MixColumns of src/lcsas/restore/_aes_pure.py in any field where it makes sense: mixing four times
-- is the identity.
use lcsas.Prelude.{◌≡◌, sym, ap₂, ◌∙◌}
use lcsas.Keyshare.Gf256.Field.{BinaryField, ◌⊕◌, ◌⊗◌, zero-add}

module _ {ℓ} {K : Type ℓ} ⦃F : BinaryField K⦄ (two : K) where
  -- The row that starts at `a`; the other rows are its rotations.
  abbrev pub row : K → K → K → K → K
  row a b c d = two ⊗ a ⊕ (two ⊗ b ⊕ b) ⊕ c ⊕ d

  abbrev twice : K → K → K
  twice a c = a ⊕ two ⊗ (two ⊗ (a ⊕ c))

  add_left_comm : (a b c : K) → a ⊕ (b ⊕ c) ≡ b ⊕ (a ⊕ c)
  add_left_comm a b c = rw (← F.add_assoc a b c, F.add_comm a b, F.add_assoc b a c)

  cancel_left : (a b : K) → a ⊕ (a ⊕ b) ≡ b
  cancel_left a b = rw (← F.add_assoc a a b, F.add_self a) (zero-add b)

  row-row : (a b c d : K) → row (row a b c d) (row b c d a) (row c d a b) (row d a b c) ≡ twice a c
  row-row a b c d = simp (F.mul-add, F.add_assoc, F.add_comm, add_left_comm, cancel_left)

  twice-twice : (a c : K) → twice (twice a c) (twice c a) ≡ a
  twice-twice a c =
      simp (F.mul-add, F.add_assoc, F.add_comm, add_left_comm, F.add_self, F.add_zero, zero-add)

  -- So the rows determine the column.
  pub row_inj :
      (a b c d a' b' c' d' : K)
      → row a b c d ≡ row a' b' c' d'
      → row b c d a ≡ row b' c' d' a'
      → row c d a b ≡ row c' d' a' b'
      → row d a b c ≡ row d' a' b' c'
      → a ≡ a'
  row_inj a b c d a' b' c' d' e₀ e₁ e₂ e₃ =
      sym (twice-twice a c)
      ∙ ap₂ twice (same a b c d a' b' c' d' e₀ e₁ e₂ e₃) (same c d a b c' d' a' b' e₂ e₃ e₀ e₁)
      ∙ twice-twice a' c'
    where
      same :
          (a b c d a' b' c' d' : K)
          → row a b c d ≡ row a' b' c' d'
          → row b c d a ≡ row b' c' d' a'
          → row c d a b ≡ row c' d' a' b'
          → row d a b c ≡ row d' a' b' c'
          → twice a c ≡ twice a' c'
      same a b c d a' b' c' d' e₀ e₁ e₂ e₃ =
          sym (row-row a b c d) ∙ (λ i. row (e₀ i) (e₁ i) (e₂ i) (e₃ i)) ∙ row-row a' b' c' d'
