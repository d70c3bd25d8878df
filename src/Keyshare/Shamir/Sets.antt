-- ===== src/Keyshare/Shamir/Sets.antt =====
-- The checks of `_interpolate` in src/lcsas/keyshare/slip39.py on sets of indices and lengths.
use mathlib.Core.Path.{subst}
use mathlib.Core.List.{Memᴰ}
use lcsas.Prelude.{
  ℕ, suc, ◌<◌, ◌≤◌, ◌≡◌, ◌≢◌, refl, ◌∙◌, ◌⊎◌, inl, inr, Bool, true, false, List, [], ◌∷◌, length,
  any, All, All-imp, Distinct, arith, ◌==◌, if◌then◌else◌, Bool-cases,
}
use lcsas.Prelude.Result.{Result, ok}
use lcsas.Keyshare.Errors.{KeyshareError}
use lcsas.Keyshare.Shamir.{RawShare, as_set, data_at, x_coordinates, value_lengths}

any_none : (x : ℕ) (ys : List ℕ) → All (λ y. y ≢ x) ys → any (λ y. y == x) ys ≡ false
any_none x [] h = refl
any_none x (y ∷ ys) h = elim (Bool-cases (y == x)) [
  | inl e ↦ absurd (h.0 (ground arith))
  | inr e ↦ rw (e, any_none x ys h.1) refl
]

pub as_set-Distinct : (xs : List ℕ) → Distinct xs → as_set xs ≡ xs
unfolding as_set
as_set-Distinct [] h = refl
as_set-Distinct (x ∷ xs) h = rw (as_set-Distinct xs h.1, any_none x xs h.0) refl

as_set-le : (xs : List ℕ) → length (as_set xs) ≤ length xs
unfolding as_set
as_set-le [] = omega arith
as_set-le (x ∷ xs) = ground (arith, as_set-le xs)

not_any : (x : ℕ) (ys : List ℕ) → any (λ y. y == x) ys ≡ false → All (λ y. y ≢ x) ys
not_any x [] h = tt
not_any x (y ∷ ys) h = ((λ e. ground arith), not_any x ys (ground arith))

as_set_keeps :
    (x : ℕ) (xs : List ℕ)
    → length (as_set (x ∷ xs)) ≡ suc (length xs)
    → (any (λ y. y == x) (as_set xs) ≡ false) × (length (as_set xs) ≡ length xs)
unfolding as_set
as_set_keeps x xs h = (ground (arith, as_set-le xs), ground (arith, as_set-le xs))

-- A list that loses nothing as a set holds no element twice.
pub Distinct-of_set : (xs : List ℕ) → length (as_set xs) ≡ length xs → Distinct xs
Distinct-of_set [] h = tt
Distinct-of_set (x ∷ xs) h =
    let (absent, whole) = as_set_keeps x xs h in
    let distinct = Distinct-of_set xs whole in
    (not_any x xs (rw (← as_set-Distinct xs distinct) absent), distinct)

eqb_refl : (n : ℕ) → (n == n) ≡ true
eqb_refl n = ground arith

pub as_set-constant : (n x : ℕ) (xs : List ℕ) → All (λ y. y ≡ n) (x ∷ xs) → as_set (x ∷ xs) ≡ n ∷ []
unfolding as_set
as_set-constant n x [] h = rw h.0 refl
as_set-constant n x (y ∷ ys) h = rw (as_set-constant n y ys h.1, h.0, eqb_refl n) refl

-- A set of one element came from equal elements.
as_set-nonempty : (x : ℕ) (xs : List ℕ) → 0 < length (as_set (x ∷ xs))
unfolding as_set
as_set-nonempty x [] = omega arith
as_set-nonempty x (y ∷ ys) = ground (arith, as_set-nonempty y ys)

abbrev size_if : Bool → ℕ → ℕ
size_if present n = if present then n else suc n

as_set-size :
    (x : ℕ) (xs : List ℕ)
    → length (as_set (x ∷ xs)) ≡ size_if (any (λ y. y == x) (as_set xs)) (length (as_set xs))
unfolding as_set
as_set-size x xs = ground arith

as_set-All :
    (x y : ℕ) (ys : List ℕ)
    → any (λ z. z == x) (as_set (y ∷ ys)) ≡ true
    → All (λ z. z ≡ y) (y ∷ ys)
    → All (λ z. z ≡ x) (x ∷ y ∷ ys)
as_set-All x y ys present h = (refl, All-imp _ _ (λ z e. e ∙ same) (y ∷ ys) h)
  where
    found : any (λ z. z == x) (y ∷ []) ≡ true
    found = subst (λ t. any (λ z. z == x) t ≡ true) (as_set-constant y y ys h) present

    same : y ≡ x
    same = ground (arith, found)

constant-of_set : (x : ℕ) (xs : List ℕ) → length (as_set (x ∷ xs)) ≡ 1 → All (λ y. y ≡ x) (x ∷ xs)
constant-of_set x [] h = (refl, tt)
constant-of_set x (y ∷ ys) h =
    let size = as_set-size x (y ∷ ys) in
    let some_left = as_set-nonempty y ys in
    let rest = constant-of_set y ys in
    elim (Bool-cases (any (λ z. z == x) (as_set (y ∷ ys)))) [
      | inl e ↦ as_set-All x y ys e (rest (ground arith))
      | inr e ↦ absurd (ground arith)
    ]

pub one_length :
    (shares : List RawShare)
    → length (as_set (value_lengths shares)) ≡ 1
    → (size : ℕ) × All (λ s. length s.share_data ≡ size) shares
unfolding as_set
one_length [] h = absurd (omega arith)
one_length (s ∷ shares) h = (
  length s.share_data,
  unmapped (length s.share_data) (s ∷ shares)
      (constant-of_set (length s.share_data) (value_lengths shares) h),
)
  where
    unmapped :
        (n : ℕ) (ss : List RawShare)
        → All (λ k. k ≡ n) (value_lengths ss)
        → All (λ t. length t.share_data ≡ n) ss
    unmapped n [] h = tt
    unmapped n (t ∷ ss) h = (h.0, unmapped n ss h.1)

-- Whether a share stands at `x`.
abbrev pub IsHeld : ℕ → List RawShare → Type 0
IsHeld x shares =
    (s : RawShare) × (Memᴰ s shares
      × ((s.x ≡ x)
          × ((otherwise : Result KeyshareError (List ℕ))
              → data_at x shares otherwise ≡ ok s.share_data)))

abbrev pub IsAbsent : ℕ → List RawShare → Type 0
IsAbsent x shares =
    All (λ q. q ≢ x) (x_coordinates shares)
    × ((otherwise : Result KeyshareError (List ℕ)) → data_at x shares otherwise ≡ otherwise)

pub data_at_cases : (x : ℕ) (shares : List RawShare) → IsHeld x shares ⊎ IsAbsent x shares
unfolding data_at
data_at_cases x [] = inr (tt, λ otherwise. refl)
data_at_cases x (s ∷ shares) = elim (Bool-cases (s.x == x)) [
  | inl e ↦ inl (s, (Memᴰ.head refl, (ground arith, λ otherwise. rw e refl)))
  | inr e ↦ elim (data_at_cases x shares) [
    | inl (t, (m, (at, found))) ↦ inl (t, (Memᴰ.tail m, (at, λ otherwise. rw e (found otherwise))))
    | inr (absent, skipped) ↦
        inr (((λ h. ground arith), absent), λ otherwise. rw e (skipped otherwise))
  ]
]
