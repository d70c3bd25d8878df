-- ===== src/Keyshare/Group/Sorted.antt =====
-- `_ShareGroup.to_raw_shares` of src/lcsas/keyshare/slip39.py, for shares that differ in the member
-- index and the value alone.

use lcsas.Prelude.{
  ℕ, zero, suc, if_elim, ◌≡◌, ◌≢◌, refl, sym, ap, ap₂, ◌∙◌, Bool, true, false, List, [], ◌∷◌, map,
  length, take, leb, if◌then◌else◌, All, All-take, Distinct,
}
use lcsas.Keyshare.Share.{Share}
use lcsas.Keyshare.Group.{insert_share, sort_shares, to_raw_shares}
use lcsas.Keyshare.Shamir.{RawShare, x_coordinates}

insert_raw : RawShare → List RawShare → List RawShare
insert_raw r [] = r ∷ []
insert_raw r (t ∷ ts) = let rest = insert_raw r ts in if leb r.x t.x then r ∷ t ∷ ts else t ∷ rest

pub sort_raw : List RawShare → List RawShare
sort_raw [] = []
sort_raw (r ∷ rs) = insert_raw r (sort_raw rs)

insert_raw-All :
    (P : RawShare → Type 0) (r : RawShare) (ts : List RawShare)
    → P r
    → All P ts
    → All P (insert_raw r ts)
unfolding insert_raw
insert_raw-All P r [] hr h = (hr, tt)
insert_raw-All P r (t ∷ ts) hr h =
    if_elim (All P) (leb r.x t.x) (λ e. (hr, h)) (λ e. (h.0, insert_raw-All P r ts hr h.1))

pub sort_raw-All : (P : RawShare → Type 0) (rs : List RawShare) → All P rs → All P (sort_raw rs)
unfolding sort_raw
sort_raw-All P [] h = tt
sort_raw-All P (r ∷ rs) h = insert_raw-All P r (sort_raw rs) h.0 (sort_raw-All P rs h.1)

insert_raw-length : (r : RawShare) (ts : List RawShare) → length (insert_raw r ts) ≡ suc (length ts)
unfolding insert_raw
insert_raw-length r [] = refl
insert_raw-length r (t ∷ ts) =
    if_elim (λ (l : List RawShare). length l ≡ suc (suc (length ts))) (leb r.x t.x) (λ e. refl)
      (λ e. ap suc (insert_raw-length r ts))

pub sort_raw-length : (rs : List RawShare) → length (sort_raw rs) ≡ length rs
unfolding sort_raw
sort_raw-length [] = refl
sort_raw-length (r ∷ rs) = insert_raw-length r (sort_raw rs) ∙ ap suc (sort_raw-length rs)

-- The indices stay distinct.
apart_map :
    (x : ℕ) (ts : List RawShare)
    → All (λ (t : RawShare). t.x ≢ x) ts
    → All (λ y. y ≢ x) (x_coordinates ts)
apart_map x [] h = tt
apart_map x (t ∷ ts) h = (h.0, apart_map x ts h.1)

apart_unmap :
    (x : ℕ) (ts : List RawShare)
    → All (λ y. y ≢ x) (x_coordinates ts)
    → All (λ (t : RawShare). t.x ≢ x) ts
apart_unmap x [] h = tt
apart_unmap x (t ∷ ts) h = (h.0, apart_unmap x ts h.1)

insert_raw-Distinct :
    (r : RawShare) (ts : List RawShare)
    → All (λ (t : RawShare). t.x ≢ r.x) ts
    → Distinct (x_coordinates ts)
    → Distinct (x_coordinates (insert_raw r ts))
unfolding insert_raw
insert_raw-Distinct r [] apart h = (tt, tt)
insert_raw-Distinct r (t ∷ ts) apart h =
    if_elim (λ (l : List RawShare). Distinct (x_coordinates l)) (leb r.x t.x)
      (λ e. (apart_map r.x (t ∷ ts) apart, h))
      (λ e. (
        apart_map t.x (insert_raw r ts) (
            insert_raw-All (λ (s : RawShare). s.x ≢ t.x) r ts (λ d. apart.0 (sym d))
              (apart_unmap t.x ts h.0)),
        insert_raw-Distinct r ts apart.1 h.1,
      ))

pub sort_raw-Distinct :
    (rs : List RawShare) → Distinct (x_coordinates rs) → Distinct (x_coordinates (sort_raw rs))
unfolding sort_raw
sort_raw-Distinct [] h = tt
sort_raw-Distinct (r ∷ rs) h =
    insert_raw-Distinct r (sort_raw rs)
      (sort_raw-All (λ (s : RawShare). s.x ≢ r.x) rs (apart_unmap r.x rs h.0))
      (sort_raw-Distinct rs h.1)

pub take-Distinct :
    (n : ℕ) (rs : List RawShare)
    → Distinct (x_coordinates rs)
    → Distinct (x_coordinates (take n rs))
take-Distinct zero rs h = tt
take-Distinct (suc n) [] h = tt
take-Distinct (suc n) (r ∷ rs) h = (
  apart_map r.x (take n rs) (All-take (λ (s : RawShare). s.x ≢ r.x) n rs (apart_unmap r.x rs h.0)),
  take-Distinct n rs h.1,
)

-- Shares made from raw shares are sorted as these are.
module _ (share : RawShare → Share) (index : (r : RawShare) → (share r).member_index ≡ r.x)
    (value : (r : RawShare) → (share r).value ≡ r.share_data) where
  insert_share-map :
      (r : RawShare) (ts : List RawShare)
      → insert_share (share r) (map share ts) ≡ map share (insert_raw r ts)
  unfolding insert_share insert_raw
  insert_share-map r [] = refl
  insert_share-map r (t ∷ ts) =
      ap
        (λ b.
          if b
          then share r ∷ share t ∷ map share ts
          else share t ∷ insert_share (share r) (map share ts))
        (same_test r t)
      ∙ either (insert_share-map r ts) (leb r.x t.x)
    where
      same_test : (a b : RawShare) → leb (share a).member_index (share b).member_index ≡ leb a.x b.x
      same_test a b = ap₂ leb (index a) (index b)

      either :
          insert_share (share r) (map share ts) ≡ map share (insert_raw r ts)
          → (b : Bool)
          → (if b
              then share r ∷ share t ∷ map share ts
              else share t ∷ insert_share (share r) (map share ts))
            ≡ map share (if b then r ∷ t ∷ ts else t ∷ insert_raw r ts)
      either rest_mapped true = refl
      either rest_mapped false = ap (λ l. share t ∷ l) rest_mapped

  sort_shares-map : (rs : List RawShare) → sort_shares (map share rs) ≡ map share (sort_raw rs)
  unfolding sort_shares sort_raw
  sort_shares-map [] = refl
  sort_shares-map (r ∷ rs) =
      ap (insert_share (share r)) (sort_shares-map rs) ∙ insert_share-map r (sort_raw rs)

  back_to_raw :
      (rs : List RawShare)
      → map (λ (s : Share). record { x = s.member_index; share_data = s.value }) (map share rs) ≡ rs
  back_to_raw [] = refl
  back_to_raw (r ∷ rs) = λ i. record { x = index r i; share_data = value r i } ∷ back_to_raw rs i

  pub to_raw_shares-map : (rs : List RawShare) → to_raw_shares (map share rs) ≡ sort_raw rs
  unfolding to_raw_shares
  to_raw_shares-map rs =
      ap (map (λ (s : Share). record { x = s.member_index; share_data = s.value }))
        (sort_shares-map rs)
      ∙ back_to_raw (sort_raw rs)
