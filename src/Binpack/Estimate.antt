-- ===== src/Binpack/Estimate.antt =====
-- What `estimate_volumes_needed` of src/lcsas/binpack/algorithm.py answers.
use native.Mathlib.Nat.{
  div-add-mod', mod-lt, lt_of_mul-lt-mul_right, mul-le-mul_right, zero-mul, suc-mul,
}
use mathlib.Core.Path.{subst}
use lcsas.Prelude.{
  ℕ, zero, ◌⊎◌, suc, ◌+◌, ◌-◌, ◌*◌, ◌/◌, ◌≤◌, ◌<◌, ◌≡◌, ◌↔◌, sym, ◌∙◌, max, arith, ◌==◌, Bool-cases,
  inl, inr,
}
use lcsas.Prelude.Result.{ok, err, ok_inj}
use lcsas.Binpack.{no_usable_capacity, usable_capacity, estimate_volumes_needed}

-- The quotient rounded up is the least factor that covers.
ceil_bounds : (t u : ℕ) → 0 < t → 0 < u → (t ≤ (t + u - 1) / u * u) × ((t + u - 1) / u * u < t + u)
ceil_bounds t u h k =
    let e = div-add-mod' (t + u - 1) u in let m = mod-lt (t + u - 1) k in (omega arith, omega arith)

ceil_least : (t u m : ℕ) → 0 < t → 0 < u → t ≤ m * u → max 1 ((t + u - 1) / u) ≤ m
ceil_least t u zero h k covers = absurd (omega (arith, zero-mul u))
ceil_least t u (suc m) h k covers =
    let least =
      lt_of_mul-lt-mul_right u {m = (t + u - 1) / u} {n = suc (suc m)}
        (omega (arith, ceil_bounds t u h k, suc-mul (suc m) u)) in
    ground arith

ceil_covers : (t u : ℕ) → 0 < t → 0 < u → t ≤ max 1 ((t + u - 1) / u) * u
ceil_covers t u h k = omega (
  arith,
  ceil_bounds t u h k,
  mul-le-mul_right {m = (t + u - 1) / u} {n = max 1 ((t + u - 1) / u)} u (ground arith),
)

estimate_cases :
    (total capacity reserved ecc : ℕ)
    → let answer = estimate_volumes_needed total capacity reserved ecc in
      let usable = usable_capacity capacity reserved ecc in
      ((total ≡ 0) × (answer ≡ ok 0))
      ⊎ (((0 < total) × (usable ≡ 0) × (answer ≡ err no_usable_capacity))
          ⊎ ((0 < total) × (0 < usable) × (answer ≡ ok (max 1 ((total + usable - 1) / usable)))))
unfolding estimate_volumes_needed
estimate_cases total capacity reserved ecc = elim (Bool-cases (total == 0)) [
  | inl none ↦ inl (ground arith, ground arith)
  | inr some ↦ elim (Bool-cases (usable_capacity capacity reserved ecc == 0)) [
    | inl full ↦ inr (inl (ground arith, ground arith, ground arith))
    | inr room ↦ inr (inr (ground arith, ground arith, ground arith))
  ]
]

-- Exactly when there are bytes to store and the capacity less its error correction and the reserve
-- leaves nothing, the estimate is refused.
pub estimate_volumes_needed-err_iff :
    (total capacity reserved ecc : ℕ)
    → (estimate_volumes_needed total capacity reserved ecc ≡ err no_usable_capacity)
      ↔ ((0 < total) × (usable_capacity capacity reserved ecc ≡ 0))
estimate_volumes_needed-err_iff total capacity reserved ecc =
    elim (estimate_cases total capacity reserved ecc) [
      | inl (none, e) ↦ (λ h. cc, λ h. absurd (omega (arith, h.0, none)))
      | inr (inl (some, full, e)) ↦ (λ h. (some, full), λ h. e)
      | inr (inr (some, room, e)) ↦ (λ h. cc, λ h. absurd (omega (arith, h.1, room)))
    ]

-- An estimate `n` is the least number of volumes that holds the bytes: `n` volumes hold them, and
-- any `m` that do are at least `n`.
pub estimate_volumes_needed-ok :
    (total capacity reserved ecc n : ℕ)
    → estimate_volumes_needed total capacity reserved ecc ≡ ok n
    → (total ≤ n * usable_capacity capacity reserved ecc)
      × ((m : ℕ) → total ≤ m * usable_capacity capacity reserved ecc → n ≤ m)
estimate_volumes_needed-ok total capacity reserved ecc n h =
    elim (estimate_cases total capacity reserved ecc) [
      | inl (none, e) ↦ let z = ok_inj (sym e ∙ h) in (omega (arith, none), λ m _. omega (arith, z))
      | inr (inl (some, full, e)) ↦ cc
      | inr (inr (some, room, e)) ↦
          subst
            (λ k.
              (total ≤ k * usable_capacity capacity reserved ecc)
              × ((m : ℕ) → total ≤ m * usable_capacity capacity reserved ecc → k ≤ m))
            (ok_inj (sym e ∙ h))
            (ceil_covers total _ some room, λ m. ceil_least total _ m some room)
    ]
