-- ===== src/Keyshare/Group.antt =====
-- src/lcsas/keyshare/slip39.py, the parameters of a share and `_ShareGroup`.
pub mod Sorted
use lcsas.Prelude.{
  ℕ, Bool, not, ◌&&◌, List, [], ◌∷◌, ◌++◌, map, any, leb, ◌==◌, if◌then◌else◌, list_eqb,
}
use lcsas.Prelude.Result.{Result, ok, err}
use lcsas.Keyshare.Errors.{KeyshareError, parameters_mismatch}
use lcsas.Keyshare.Share.{Share, int_of_bool}
use lcsas.Keyshare.Shamir.{RawShare}

pub record ShareCommonParameters : Type 0 where
  pub identifier : ℕ
  pub extendable : Bool
  pub iteration_exponent : ℕ
  pub group_threshold : ℕ
  pub group_count : ℕ

pub record ShareGroupParameters : Type 0 where
  pub identifier : ℕ
  pub extendable : Bool
  pub iteration_exponent : ℕ
  pub group_index : ℕ
  pub group_threshold : ℕ
  pub group_count : ℕ
  pub member_threshold : ℕ

abbrev pub common_parameters : Share → ShareCommonParameters
common_parameters s = record {
  identifier = s.identifier;
  extendable = s.extendable;
  iteration_exponent = s.iteration_exponent;
  group_threshold = s.group_threshold;
  group_count = s.group_count;
}

abbrev pub group_parameters : Share → ShareGroupParameters
group_parameters s = record {
  identifier = s.identifier;
  extendable = s.extendable;
  iteration_exponent = s.iteration_exponent;
  group_index = s.group_index;
  group_threshold = s.group_threshold;
  group_count = s.group_count;
  member_threshold = s.member_threshold;
}

-- The `==` of the tuples, field by field.
abbrev pub common_parameters_eqb : ShareCommonParameters → ShareCommonParameters → Bool
common_parameters_eqb a b =
    list_eqb
      (a.identifier
        ∷ int_of_bool a.extendable
        ∷ a.iteration_exponent
        ∷ a.group_threshold
        ∷ a.group_count
        ∷ [])
      (b.identifier
        ∷ int_of_bool b.extendable
        ∷ b.iteration_exponent
        ∷ b.group_threshold
        ∷ b.group_count
        ∷ [])

abbrev pub group_fields : ShareGroupParameters → List ℕ
group_fields a =
    a.identifier
    ∷ int_of_bool a.extendable
    ∷ a.iteration_exponent
    ∷ a.group_index
    ∷ a.group_threshold
    ∷ a.group_count
    ∷ a.member_threshold
    ∷ []

abbrev pub group_parameters_eqb : ShareGroupParameters → ShareGroupParameters → Bool
group_parameters_eqb a b = list_eqb (group_fields a) (group_fields b)

unfoldable pub share_eqb : Share → Share → Bool
share_eqb s t =
    group_parameters_eqb (group_parameters s) (group_parameters t)
    && (s.member_index == t.member_index && list_eqb s.value t.value)

-- The set of shares, in the order of their arrival.
abbrev pub ShareGroup : Type 0
ShareGroup = List Share

-- `self.shares.add`
unfoldable pub add_to_set : ShareGroup → Share → ShareGroup
add_to_set shares s = if any (λ t. share_eqb t s) shares then shares else shares ++ (s ∷ [])

-- `next(iter(self.shares))` is any share of the set; here it is the first.
unfoldable pub add : ShareGroup → Share → Result KeyshareError ShareGroup
add [] s = ok (add_to_set [] s)
add (first ∷ shares) s =
    if not (group_parameters_eqb (group_parameters first) (group_parameters s))
    then err parameters_mismatch
    else ok (add_to_set (first ∷ shares) s)

-- `sorted`, which is stable.
unfoldable pub insert_share : Share → List Share → List Share
insert_share s [] = s ∷ []
insert_share s (t ∷ shares) =
    let rest = insert_share s shares in
    if leb s.member_index t.member_index then s ∷ t ∷ shares else t ∷ rest

unfoldable pub sort_shares : List Share → List Share
sort_shares [] = []
sort_shares (s ∷ shares) = insert_share s (sort_shares shares)

unfoldable pub to_raw_shares : ShareGroup → List RawShare
to_raw_shares shares =
    map (λ (s : Share). record { x = s.member_index; share_data = s.value }) (sort_shares shares)
