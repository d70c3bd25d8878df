-- ===== src/Catalog/Discs.antt =====
-- The discs of a volume under an UPDATE of src/lcsas/db/volume_copies.py.
use Prim.Native.String.{String}
use lcsas.Prelude.{
  ℕ, ◌≡◌, refl, ap, ap₂, ◌∙◌, inl, inr, Bool, true, false, ◌&&◌, ◌||◌, List, [], ◌∷◌, ◌++◌, map,
  any, arith, ◌==◌, if◌then◌else◌, Bool-cases,
}
use lcsas.Catalog.{VolumeCopy, is_active}
use lcsas.Catalog.Replicas.{has_disc, has_active_disc}
use lcsas.Catalog.Copies.{is_at, is_active_at, update_copies}

-- A list of discs under an UPDATE.
pub any-map :
    (change : VolumeCopy → VolumeCopy) (p q : VolumeCopy → Bool)
    → ((copy : VolumeCopy) → p (change copy) ≡ q copy)
    → (copies : List VolumeCopy) → any p (map change copies) ≡ any q copies
any-map change p q h [] = refl
any-map change p q h (copy ∷ copies) = ap₂ ◌||◌ (h copy) (any-map change p q h copies)

pub any-append :
    (p : VolumeCopy → Bool) (copies : List VolumeCopy) (disc : VolumeCopy)
    → p disc ≡ false
    → any p (copies ++ disc ∷ []) ≡ any p copies
any-append p [] disc h = rw h refl
any-append p (copy ∷ copies) disc h = ap (◌||◌ (p copy)) (any-append p copies disc h)

elsewhere : (k m n : ℕ) → (m == n) ≡ false → (k == n) ≡ true → (k == m) ≡ false
elsewhere k m n other here = ground arith

-- An UPDATE of rows of volume `n`, with their volume kept, at another volume.
module _ (test : VolumeCopy → Bool) (change : VolumeCopy → VolumeCopy) (n : ℕ)
    (own : (copy : VolumeCopy) → test copy ≡ true → (copy.volume_id == n) ≡ true)
    (kept : (copy : VolumeCopy) → (change copy).volume_id ≡ copy.volume_id) where
  pub update-has_disc :
      (copies : List VolumeCopy) (m : ℕ)
      → has_disc (update_copies test change copies) m ≡ has_disc copies m
  update-has_disc copies m = any-map _ _ _ same copies
    where
      same :
          (copy : VolumeCopy)
          → ((if test copy then change copy else copy).volume_id == m) ≡ (copy.volume_id == m)
      same copy = elim (Bool-cases (test copy)) [
        | inl hit ↦ rw hit (ap (λ (k : ℕ). k == m) (kept copy))
        | inr missed ↦ rw missed refl
      ]

  pub update-has_active_disc :
      (copies : List VolumeCopy) (m : ℕ)
      → (m == n) ≡ false
      → has_active_disc (update_copies test change copies) m ≡ has_active_disc copies m
  update-has_active_disc copies m other = any-map _ _ _ same copies
    where
      same :
          (copy : VolumeCopy)
          → ((if test copy then change copy else copy).volume_id == m
              && is_active (if test copy then change copy else copy).status)
            ≡ (copy.volume_id == m && is_active copy.status)
      same copy = elim (Bool-cases (test copy)) [
        | inl hit ↦
            let away : (copy.volume_id == m) ≡ false =
              elsewhere copy.volume_id m n other (own copy hit) in
            rw (hit, ap (λ (k : ℕ). k == m) (kept copy) ∙ away, away) refl
        | inr missed ↦ rw missed refl
      ]

pub is_at-volume_id :
    (n : ℕ) (location : String) (copy : VolumeCopy)
    → is_at n location copy ≡ true
    → (copy.volume_id == n) ≡ true
is_at-volume_id n location copy h = ground arith

pub is_active_at-is_at :
    (n : ℕ) (location : String) (copy : VolumeCopy)
    → is_active_at n location copy ≡ true
    → is_at n location copy ≡ true
is_active_at-is_at n location copy h = ground arith

-- A disc in service at a place is one of its volume.
pub active_at-has_active_disc :
    (n : ℕ) (location : String) (copies : List VolumeCopy)
    → any (is_active_at n location) copies ≡ true
    → has_active_disc copies n ≡ true
active_at-has_active_disc n location [] h = cc
active_at-has_active_disc n location (copy ∷ copies) h =
    ground (arith, active_at-has_active_disc n location copies)
