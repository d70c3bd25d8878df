-- ===== src/Media/Laws.antt =====
-- The padded size of an image in src/lcsas/ecc/dvdisaster.py, and the media that it is written to.
use mathlib.Core.Path.{subst}
use lcsas.Prelude.{
  ℕ, ◌≤◌, ◌<◌, ◌≡◌, ◌≢◌, ◌↔◌, ◌⊎◌, refl, sym, ap, ◌∙◌, inl, inr, true, List, [], ◌∷◌, arith, leb,
  All, Bool-cases, leb→le, any, ==_iff, ◌==◌,
}
use lcsas.Prelude.Result.{ok, err, ok_inj, raised, Result-cases}
use lcsas.Media.{
  MediaType, cd700, bd25, bd50, bdxl100, mdisc25, mdisc50, mdisc100, test_tiny, capacity_bytes,
  rs03_medium_ladder_bytes, exceeds_largest_medium, first_fitting, smallest_fitting_medium_bytes,
}

-- The outcome on an ascending ladder.
Ascending : List ℕ → Type 0
Ascending [] = Unit
Ascending (x ∷ xs) = All (λ y. x ≤ y) xs × Ascending xs

-- The least rung that holds the image.
abbrev pub IsLeastRung : ℕ → List ℕ → ℕ → Type 0
IsLeastRung image rungs rung =
    (any (λ other. other == rung) rungs ≡ true)
    × (image ≤ rung)
    × All (λ other. image ≤ other → rung ≤ other) rungs

weaken :
    (image rung : ℕ) (rungs : List ℕ)
    → All (λ y. rung ≤ y) rungs
    → All (λ other. image ≤ other → rung ≤ other) rungs
weaken image rung [] h = tt
weaken image rung (x ∷ rungs) h = (λ _. h.0, weaken image rung rungs h.1)

first_fitting-cons :
    (image x : ℕ) (rungs : List ℕ)
    → ((image ≤ x) × (first_fitting image (x ∷ rungs) ≡ ok x))
      ⊎ ((x < image) × (first_fitting image (x ∷ rungs) ≡ first_fitting image rungs))
unfolding first_fitting
first_fitting-cons image x rungs = elim (Bool-cases (leb image x)) [
  | inl fits ↦ inl (leb→le image x fits, rw fits refl)
  | inr less ↦ inr (ground arith, rw less refl)
]

first_fitting-IsLeastRung :
    (image : ℕ) (rungs : List ℕ) (rung : ℕ)
    → Ascending rungs
    → first_fitting image rungs ≡ ok rung
    → IsLeastRung image rungs rung
unfolding Ascending first_fitting
first_fitting-IsLeastRung image [] rung up e = absurd (raised e)
first_fitting-IsLeastRung image (x ∷ rungs) rung up e = elim (first_fitting-cons image x rungs) [
  | inl (fits, same) ↦
      subst (IsLeastRung image (x ∷ rungs)) (ok_inj (sym same ∙ e))
        (ground arith, fits, (λ _. omega arith, weaken image x rungs up.0))
  | inr (less, same) ↦
      let (listed, fits, least) = first_fitting-IsLeastRung image rungs rung up.1 (sym same ∙ e) in
      (ground (arith, listed), fits, (λ h. absurd (omega (arith, less, h)), least))
]

first_fitting-err_iff :
    (image : ℕ) (rungs : List ℕ)
    → (first_fitting image rungs ≡ err exceeds_largest_medium) ↔ All (λ other. other < image) rungs
unfolding first_fitting
first_fitting-err_iff image [] = (λ _. tt, λ _. refl)
first_fitting-err_iff image (x ∷ rungs) = elim (first_fitting-cons image x rungs) [
  | inl (fits, same) ↦ (λ e. absurd (raised (sym e ∙ same)), λ h. absurd (omega (arith, h.0, fits)))
  | inr (less, same) ↦
      let (there, back) = first_fitting-err_iff image rungs in
      (λ e. (less, there (sym same ∙ e)), λ h. same ∙ back h.1)
]

ladder-Ascending : Ascending rs03_medium_ladder_bytes
unfolding Ascending
ladder-Ascending = (
  (omega arith, (omega arith, (omega arith, (omega arith, (omega arith, tt))))),
  (
    (omega arith, (omega arith, (omega arith, (omega arith, tt)))),
    (
      (omega arith, (omega arith, (omega arith, tt))),
      ((omega arith, (omega arith, tt)), ((omega arith, tt), (tt, tt))),
    ),
  ),
)

-- The padded size of an image is a size of the ladder that holds it and the least such; and there is
-- none exactly when each size of the ladder is below the image.
pub smallest_fitting_medium_bytes-IsLeastRung :
    (image rung : ℕ)
    → (smallest_fitting_medium_bytes image ≡ ok rung
        → IsLeastRung image rs03_medium_ladder_bytes rung)
      × ((smallest_fitting_medium_bytes image ≡ err exceeds_largest_medium)
          ↔ All (λ other. other < image) rs03_medium_ladder_bytes)
unfolding smallest_fitting_medium_bytes
smallest_fitting_medium_bytes-IsLeastRung image rung = (
  first_fitting-IsLeastRung image rs03_medium_ladder_bytes rung ladder-Ascending,
  first_fitting-err_iff image rs03_medium_ladder_bytes,
)

on_ladder :
    (medium : MediaType)
    → medium ≢ test_tiny
    → any (λ other. other == capacity_bytes medium) rs03_medium_ladder_bytes ≡ true
unfolding capacity_bytes
on_ladder cd700 production = refl
on_ladder bd25 production = refl
on_ladder bd50 production = refl
on_ladder bdxl100 production = refl
on_ladder mdisc25 production = refl
on_ladder mdisc50 production = refl
on_ladder mdisc100 production = refl
on_ladder test_tiny production = absurd (production refl)

any-All :
    (P : ℕ → Type 0) (c : ℕ) (xs : List ℕ) → any (λ other. other == c) xs ≡ true → All P xs → P c
any-All P c [] listed all = cc
any-All P c (x ∷ xs) listed all = elim (Bool-cases (x == c)) [
  | inl here ↦ subst P ((==_iff x c).0 here) all.0
  | inr there ↦ any-All P c xs (ground (arith, listed, there)) all.1
]

-- For every medium but the one for tests: an image of at most the capacity has a padded size, and
-- that is at most the capacity; and the capacity itself is not padded.
pub padded-le-capacity :
    (medium : MediaType) (image : ℕ)
    → medium ≢ test_tiny
    → image ≤ capacity_bytes medium
    → ((rung : ℕ) × (smallest_fitting_medium_bytes image ≡ ok rung)
        × (rung ≤ capacity_bytes medium))
      × (smallest_fitting_medium_bytes (capacity_bytes medium) ≡ ok (capacity_bytes medium))
padded-le-capacity medium image production fits =
    (padded image fits, exact (padded (capacity_bytes medium) (omega arith)))
  where
    padded :
        (image : ℕ)
        → image ≤ capacity_bytes medium
        → (rung : ℕ) × (smallest_fitting_medium_bytes image ≡ ok rung)
          × (rung ≤ capacity_bytes medium)
    padded image fits = elim (Result-cases (smallest_fitting_medium_bytes image)) [
      | inl (rung, e) ↦ (
        rung,
        e,
        any-All (λ other. image ≤ other → rung ≤ other) (capacity_bytes medium)
            rs03_medium_ladder_bytes (on_ladder medium production)
            ((smallest_fitting_medium_bytes-IsLeastRung image rung).0 e).2 fits,
      )
      | inr (exceeds_largest_medium, e) ↦
          let below =
            any-All (λ other. other < image) (capacity_bytes medium) rs03_medium_ladder_bytes
              (on_ladder medium production)
              ((smallest_fitting_medium_bytes-IsLeastRung image 0).1.0 e) in
          absurd (omega (arith, below, fits))
    ]

    exact :
        (rung : ℕ) × (smallest_fitting_medium_bytes (capacity_bytes medium) ≡ ok rung)
          × (rung ≤ capacity_bytes medium)
        → smallest_fitting_medium_bytes (capacity_bytes medium) ≡ ok (capacity_bytes medium)
    exact (rung, e, small) =
        let held =
          ((smallest_fitting_medium_bytes-IsLeastRung (capacity_bytes medium) rung).0 e).1 in
        e ∙ ap ok (omega (arith, held, small))
