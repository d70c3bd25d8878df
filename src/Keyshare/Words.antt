-- ===== src/Keyshare/Words.antt =====
-- src/lcsas/keyshare/slip39.py, words and their indices, and the diagnosis of one share.
-- The word list is data of src/lcsas/keyshare/wordlist.py and a parameter, as is `str.lower`; a
-- mnemonic is the list of its tokens, `mnemonic.split()`.
pub mod Laws
mod Tests
use lcsas.Prelude.{
  ℕ, zero, suc, ◌+◌, ◌/◌, ◌%◌, ◌^◌, Bool, true, false, not, ◌&&◌, List, [], ◌∷◌, length, take,
  get_or, Option, some, none, ltb, leb, ◌==◌, if◌then◌else◌, list_eqb,
}
use lcsas.Prelude.Result.{Result, ok, err, ◌>>=◌}
use lcsas.Keyshare.Errors.{KeyshareError, unknown_word}
use lcsas.Keyshare.Radix.{int_from_word_indices}
use lcsas.Keyshare.Rs1024.{rs1024_verify_checksum}
use lcsas.Keyshare.Share.{
  Share, from_indices, customization_string, id_exp_length_words, min_mnemonic_length_words,
}

-- The characters of a token.
abbrev pub Word : Type 0
Word = List ℕ

pub starts_with : Word → Word → Bool
starts_with word [] = true
starts_with [] (_ ∷ _) = false
starts_with (c ∷ word) (d ∷ start) = c == d && starts_with word start

-- A dict over the enumerated words: the last index whose key agrees.
pub index_from : (Word → Bool) → ℕ → List Word → Option ℕ
index_from test i [] = none
index_from test i (word ∷ words) = elim (index_from test (i + 1) words) [
  | some j ↦ some j
  | none ↦ if test word then some i else none
]

pub record WordList : Type 0 where
  pub words : List Word
  pub lower : Word → Word

-- Why a share is not valid by itself.
pub data ShareFault : Type 0 where
  not_a_share_word : ℕ → Word → ShareFault
  too_few_words : ℕ → ShareFault
  checksum_failed : ShareFault

pub check_indices : List ℕ → Option ShareFault
check_indices indices =
    if ltb (length indices) min_mnemonic_length_words
    then some (too_few_words (length indices))
    else if not (
        rs1024_verify_checksum indices (
          customization_string
            (int_from_word_indices (take id_exp_length_words indices) / 2 ^ 4 % 2 == 1)))
    then some checksum_failed
    else none

module _ (list : WordList) where
  pub word_to_index : Word → Option ℕ
  word_to_index word = index_from (λ w. list_eqb w word) 0 list.words

  pub prefix4_to_index : Word → Option ℕ
  prefix4_to_index start = index_from (λ w. list_eqb (take 4 w) start) 0 list.words

  pub by_prefix : Word → Result KeyshareError ℕ
  by_prefix word = elim (prefix4_to_index (take 4 word)) [
    | none ↦ err unknown_word
    | some index ↦
        if starts_with (get_or list.words index []) word then ok index else err unknown_word
  ]

  pub word_index : Word → Result KeyshareError ℕ
  word_index token = elim (word_to_index (list.lower token)) [
    | some index ↦ ok index
    | none ↦
        if leb 4 (length (list.lower token)) then by_prefix (list.lower token) else err unknown_word
  ]

  pub mnemonic_to_indices : List Word → Result KeyshareError (List ℕ)
  mnemonic_to_indices [] = ok []
  mnemonic_to_indices (token ∷ tokens) =
      word_index token >>= λ index. mnemonic_to_indices tokens >>= λ rest. ok (index ∷ rest)

  pub from_mnemonic : List Word → Result KeyshareError Share
  from_mnemonic tokens = mnemonic_to_indices tokens >>= from_indices

  pub share_identifier : List Word → Result KeyshareError ℕ
  share_identifier tokens = from_mnemonic tokens >>= λ s. ok s.identifier

  -- The first loop of `check_share`, from `position` on.
  pub check_words : ℕ → List Word → Result ShareFault (List ℕ)
  check_words position [] = ok []
  check_words position (token ∷ tokens) = elim (word_index token) [
    | err e ↦ err (not_a_share_word position (list.lower token))
    | ok index ↦ check_words (position + 1) tokens >>= λ rest. ok (index ∷ rest)
  ]

  pub check_share : List Word → Option ShareFault
  check_share tokens = elim (check_words 1 tokens) [
    | err fault ↦ some fault
    | ok indices ↦ check_indices indices
  ]
