-- ===== src/Keyshare/Combine/Decoded.antt =====
-- `_decode_mnemonics` of src/lcsas/keyshare/slip39.py on the mnemonics of one group.
use mathlib.Core.Path.{subst}
use lcsas.Prelude.{
  ℕ, ◌≡◌, ◌≢◌, refl, sym, ap, ◌∙◌, Bool, false, List, [], ◌∷◌, ◌++◌, map, any, All, Distinct, arith,
  ◌==◌, list_eqb_refl,
}
use lcsas.Prelude.Result.{ok}
use lcsas.Keyshare.Share.{Share, from_indices, int_of_bool}
use lcsas.Keyshare.Shamir.{RawShare, x_coordinates}
use lcsas.Keyshare.Group.{
  ShareCommonParameters, common_parameters, group_parameters, group_fields, share_eqb, add,
  add_to_set,
}
use lcsas.Keyshare.Combine.{add_share, add_parameters, decode_each, decode_mnemonics}

-- The shares of one group, given by their raw shares.
pub record OneGroup : Type 0 where
  pub identifier : ℕ
  pub extendable : Bool
  pub iteration_exponent : ℕ
  pub member_threshold : ℕ

abbrev pub share_of : OneGroup → RawShare → Share
share_of g r = record {
  identifier = g.identifier;
  extendable = g.extendable;
  iteration_exponent = g.iteration_exponent;
  group_index = 0;
  group_threshold = 1;
  group_count = 1;
  member_index = r.x;
  member_threshold = g.member_threshold;
  value = r.share_data;
}

abbrev pub params_of : OneGroup → ShareCommonParameters
params_of g = common_parameters (share_of g (record { x = 0; share_data = [] }))

module _ (g : OneGroup) where
  other_share : (t r : RawShare) → t.x ≢ r.x → share_eqb (share_of g t) (share_of g r) ≡ false
  unfolding share_eqb
  other_share t r different =
      rw (list_eqb_refl (group_fields (group_parameters (share_of g r))), differ t.x r.x different)
        refl
    where
      differ : (a b : ℕ) → a ≢ b → (a == b) ≡ false
      differ a b h = ground arith

  no_other :
      (seen : List RawShare) (r : RawShare)
      → All (λ y. y ≢ r.x) (x_coordinates seen)
      → any (λ t. share_eqb t (share_of g r)) (map (share_of g) seen) ≡ false
  no_other [] r h = refl
  no_other (t ∷ seen) r h = rw (other_share t r h.0, no_other seen r h.1) refl

  map_last :
      (seen : List RawShare) (r : RawShare)
      → map (share_of g) seen ++ (share_of g r ∷ []) ≡ map (share_of g) (seen ++ (r ∷ []))
  map_last [] r = refl
  map_last (t ∷ seen) r = ap (λ l. share_of g t ∷ l) (map_last seen r)

  add_next :
      (first : RawShare) (seen : List RawShare) (r : RawShare)
      → All (λ y. y ≢ r.x) (x_coordinates (first ∷ seen))
      → add_share (share_of g r) ((0, map (share_of g) (first ∷ seen)) ∷ [])
        ≡ ok ((0, map (share_of g) ((first ∷ seen) ++ (r ∷ []))) ∷ [])
  unfolding add_share add add_to_set
  add_next first seen r h =
      rw
        (
          list_eqb_refl (group_fields (group_parameters (share_of g r))),
          other_share first r h.0,
          no_other seen r h.1,
        )
        (ap (λ l. ok ((0, share_of g first ∷ l) ∷ [])) (map_last seen r))

  same_parameters : add_parameters (params_of g) (params_of g ∷ []) ≡ params_of g ∷ []
  unfolding add_parameters
  same_parameters =
      rw
        (list_eqb_refl
          (g.identifier ∷ int_of_bool g.extendable ∷ g.iteration_exponent ∷ 1 ∷ 1 ∷ []))
        refl

  -- Distinct indices: those before a share differ from its own.
  before_differ :
      (seen rest : List RawShare) (r : RawShare)
      → Distinct (x_coordinates (seen ++ (r ∷ rest)))
      → All (λ y. y ≢ r.x) (x_coordinates seen)
  before_differ [] rest r h = tt
  before_differ (t ∷ seen) rest r h = (apart seen rest r t h.0, before_differ seen rest r h.1)
    where
      apart :
          (seen rest : List RawShare) (r t : RawShare)
          → All (λ y. y ≢ t.x) (x_coordinates (seen ++ (r ∷ rest)))
          → t.x ≢ r.x
      apart [] rest r t h e = h.0 (sym e)
      apart (s ∷ seen) rest r t h e = apart seen rest r t h.1 e

  append_assoc :
      (xs : List RawShare) (r : RawShare) (ys : List RawShare)
      → (xs ++ (r ∷ [])) ++ ys ≡ xs ++ (r ∷ ys)
  append_assoc [] r ys = refl
  append_assoc (x ∷ xs) r ys = ap (λ l. x ∷ l) (append_assoc xs r ys)

  append_nil : (xs : List RawShare) → xs ++ [] ≡ xs
  append_nil [] = refl
  append_nil (x ∷ xs) = ap (λ l. x ∷ l) (append_nil xs)

  module _ (card : RawShare → List ℕ) where
    abbrev pub IsCard : RawShare → Type 0
    IsCard r = from_indices (card r) ≡ ok (share_of g r)

    decode_next :
        (first : RawShare) (seen rest : List RawShare)
        → All IsCard rest
        → Distinct (x_coordinates ((first ∷ seen) ++ rest))
        → decode_each (map card rest) (params_of g ∷ []) ((0, map (share_of g) (first ∷ seen)) ∷ [])
          ≡ ok (params_of g ∷ [], (0, map (share_of g) ((first ∷ seen) ++ rest)) ∷ [])
    unfolding decode_each
    decode_next first seen [] cards h =
        ap (λ l. ok (params_of g ∷ [], (0, share_of g first ∷ map (share_of g) l) ∷ []))
          (sym (append_nil seen))
    decode_next first seen (r ∷ rest) cards h =
        rw (cards.0, add_next first seen r (before_differ (first ∷ seen) rest r h), same_parameters)
          (decode_next first (seen ++ (r ∷ [])) rest cards.1
              (subst (λ l. Distinct (x_coordinates (first ∷ l))) (sym (append_assoc seen r rest)) h)
            ∙ ap (λ l. ok (params_of g ∷ [], (0, share_of g first ∷ map (share_of g) l) ∷ []))
                (append_assoc seen r rest))

    -- The cards of one group with distinct indices are decoded as that group.
    pub decode_mnemonics-cards :
        (first : RawShare) (rest : List RawShare)
        → All IsCard (first ∷ rest)
        → Distinct (x_coordinates (first ∷ rest))
        → decode_mnemonics (map card (first ∷ rest))
          ≡ ok ((0, map (share_of g) (first ∷ rest)) ∷ [])
    unfolding decode_mnemonics decode_each add_share add add_to_set add_parameters
    decode_mnemonics-cards first rest cards h =
        rw (cards.0, decode_next first [] rest cards.1 h) refl
