-- ===== src/Keyshare/Gf256/Field/Lagrange.antt =====
-- The polynomial through given points with distinct first coordinates.
use mathlib.Core.List.{Memᴰ}
use mathlib.Core.Path.{subst}
use lcsas.Prelude.{
  ℕ, zero, suc, List, [], ◌∷◌, length, length-map, map, All, All-map, All-zip, Distinct, ◌≡◌, ◌≢◌,
  refl, sym, ap, ap₂, ◌∙◌,
}
use lcsas.Keyshare.Gf256.Field.{BinaryField, ◌⊕◌, ◌⊗◌, zero-add, mul_zero}
use lcsas.Keyshare.Gf256.Field.Polynomial.{IsPoly, IsPoly-add, IsPoly-scale, IsPoly-suc, agree}
use lcsas.Keyshare.Gf256.Field.Others.{
  unit, product, others, product-nonzero, others-IsPoly, others-zero, others-own, All-Memᴰ,
}

module _ {ℓ} (K : Type ℓ) ⦃F : BinaryField K⦄ where
  IsPoly-zero : (n : ℕ) → IsPoly n (λ (x : K). F.zero)
  IsPoly-zero zero = λ x. refl
  IsPoly-zero (suc n) = IsPoly-suc n (λ x. F.zero) (IsPoly-zero n)

pub All-of_mem {ℓ κ} :
    {A : Type ℓ} (P : A → Type κ) (xs : List A) → ((x : A) → Memᴰ x xs → P x) → All P xs
All-of_mem P [] h = tt
All-of_mem P (x ∷ xs) h = (h x (Memᴰ.head refl), All-of_mem P xs (λ y m. h y (Memᴰ.tail m)))

module _ {ℓ} {K : Type ℓ} ⦃F : BinaryField K⦄ where
  abbrev pub coordinates : List (K × K) → List K
  coordinates points = map (λ s. s.0) points

  abbrev pub weighted : K → List K → K → K
  weighted p xs x = F.inv (product (λ q. unit (p ⊕ q)) xs) ⊗ others p xs x

  -- The sum over `points` with the products over `xs`.
  abbrev pub interpolant : List K → List (K × K) → K → K
  interpolant xs [] x = F.zero
  interpolant xs (s ∷ points) x = s.1 ⊗ weighted s.0 xs x ⊕ interpolant xs points x

  interpolant-IsPoly :
      (xs : List K) (points : List (K × K))
      → All (λ s. Memᴰ s.0 xs) points
      → IsPoly (length xs) (interpolant xs points)
  interpolant-IsPoly xs [] within = IsPoly-zero K (length xs)
  interpolant-IsPoly xs (s ∷ points) within =
      IsPoly-add (length xs) (λ x. s.1 ⊗ weighted s.0 xs x) (interpolant xs points)
        (IsPoly-scale (length xs) s.1 (weighted s.0 xs)
          (IsPoly-scale (length xs) _ (others s.0 xs) (others-IsPoly s.0 xs within.0)))
        (interpolant-IsPoly xs points within.1)

  term-zero :
      (q : K) (xs : List K) (s : K × K) → Memᴰ q xs → s.0 ≢ q → s.1 ⊗ weighted s.0 xs q ≡ F.zero
  term-zero q xs s m different =
      rw
        (
          others-zero s.0 q xs m (λ e. different (sym e)),
          mul_zero (F.inv (product (λ p. unit (s.0 ⊕ p)) xs)),
        )
        (mul_zero s.1)

  interpolant-zero :
      (q : K) (xs : List K) (points : List (K × K))
      → Memᴰ q xs
      → All (λ p. p ≢ q) (coordinates points)
      → interpolant xs points q ≡ F.zero
  interpolant-zero q xs [] m different = refl
  interpolant-zero q xs (s ∷ points) m different =
      ap₂ F.add (term-zero q xs s m different.0) (interpolant-zero q xs points m different.1)
      ∙ F.add_zero F.zero

  term-own : (xs : List K) (s : K × K) → s.1 ⊗ weighted s.0 xs s.0 ≡ s.1
  term-own xs s =
      ap (λ t. s.1 ⊗ (F.inv (product (λ q. unit (s.0 ⊕ q)) xs) ⊗ t)) (others-own s.0 xs)
      ∙ ap (λ t. s.1 ⊗ t) (F.mul_comm _ _ ∙ F.mul-inv _ (product-nonzero (λ q. s.0 ⊕ q) xs))
      ∙ F.mul_one s.1

  coordinate : {s : K × K} (points : List (K × K)) → Memᴰ s points → Memᴰ s.0 (coordinates points)
  coordinate [] m = elim m [ ]
  coordinate (r ∷ points) (Memᴰ.head e) = Memᴰ.head (ap (λ t. t.0) e)
  coordinate (r ∷ points) (Memᴰ.tail m) = Memᴰ.tail (coordinate points m)

  interpolant-at :
      (xs : List K) (points : List (K × K)) (s : K × K)
      → Memᴰ s points
      → Distinct (coordinates points)
      → Memᴰ s.0 xs
      → interpolant xs points s.0 ≡ s.1
  interpolant-at xs [] s m distinct within = elim m [ ]
  interpolant-at xs (r ∷ points) s (Memᴰ.head e) distinct within =
      ap₂ F.add (ap (λ t. t.1 ⊗ weighted t.0 xs s.0) (sym e) ∙ term-own xs s)
        (interpolant-zero s.0 xs points within (rw e distinct.0))
      ∙ F.add_zero s.1
  interpolant-at xs (r ∷ points) s (Memᴰ.tail m) distinct within =
      ap₂ F.add
        (term-zero s.0 xs r within (λ e.
          All-Memᴰ (λ y. y ≢ r.0) (coordinates points) s.0 (coordinate points m) distinct.0
            (sym e)))
        (interpolant-at xs points s m distinct.1 within)
      ∙ zero-add s.1

  module _ (points : List (K × K)) (distinct : Distinct (coordinates points)) where
    pub lagrange : K → K
    lagrange = interpolant (coordinates points) points

    pub lagrange-IsPoly : IsPoly (length points) lagrange
    unfolding lagrange
    lagrange-IsPoly =
        subst (λ n. IsPoly n lagrange) (length-map points (λ s. s.0))
          (interpolant-IsPoly (coordinates points) points
            (All-of_mem _ points (λ s m. coordinate points m)))

    pub lagrange-at : All (λ s. lagrange s.0 ≡ s.1) points
    unfolding lagrange
    lagrange-at =
        All-of_mem _ points
          (λ s m. interpolant-at (coordinates points) points s m distinct (coordinate points m))

    -- No other polynomial of that degree goes through them.
    pub lagrange_unique :
        (f : K → K)
        → IsPoly (length points) f
        → All (λ s. f s.0 ≡ s.1) points
        → (x : K) → interpolant (coordinates points) points x ≡ f x
    unfolding lagrange
    lagrange_unique f h through x =
        agree (coordinates points) lagrange f
          (subst (λ n. IsPoly n lagrange) (sym (length-map points (λ s. s.0))) lagrange-IsPoly)
          (subst (λ n. IsPoly n f) (sym (length-map points (λ s. s.0))) h) distinct
          (All-map _ (λ (s : K × K). s.0) points
            (All-zip _ _ _ (λ s e e'. e ∙ sym e') points lagrange-at through))
          x
