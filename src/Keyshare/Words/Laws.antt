-- ===== src/Keyshare/Words/Laws.antt =====
-- How src/lcsas/keyshare/slip39.py resolves a token, and how its diagnosis agrees with its reading.
use mathlib.Core.Path.{subst}
use lcsas.Prelude.{
  ℕ, zero, suc, ◌+◌, ◌≤◌, ◌≡◌, refl, sym, ap, ◌∙◌, ◌⊎◌, inl, inr, Bool, true, false, List, [], ◌∷◌,
  length, take, get_or, Option, some, none, arith, leb, ltb, if◌then◌else◌, if_branch, list_eqb→eq,
}
use lcsas.Prelude.Result.{Result, ok, err, ok-inv, ok_inj, raised}
use lcsas.Keyshare.Errors.{KeyshareError, unknown_word}
use lcsas.Keyshare.Radix.{int_from_word_indices}
use lcsas.Keyshare.Share.{Share, from_indices}
use lcsas.Keyshare.Share.Outcome.{
  Passes-outcome, from_indices-eq-outcome, head_words, param_words, value_words, verified,
}
use lcsas.Keyshare.Words.{
  Word, WordList, starts_with, index_from, word_to_index, by_prefix, prefix4_to_index, word_index,
  mnemonic_to_indices, from_mnemonic, check_words, check_indices, check_share,
}

-- The index found is that of a word which passes the test.
Finds : (Word → Bool) → ℕ → List Word → ℕ → Type 0
Finds test i words j = (k : ℕ) × ((j ≡ i + k) × (test (get_or words k []) ≡ true))

some_or :
    (found : Option ℕ) (test : Bool) (i j : ℕ)
    → ◌≡◌ {A = Option ℕ}
        (elim found [ some k ↦ some k | none ↦ if test then some i else none ])
        (some j)
    → (found ≡ some j) ⊎ ((test ≡ true) × (i ≡ j))
some_or (some k) test i j h = inl h
some_or none true i j h = inr (refl, cc)
some_or none false i j h = cc

index_from-Finds :
    (test : Word → Bool) (i : ℕ) (words : List Word) (j : ℕ)
    → index_from test i words ≡ some j
    → Finds test i words j
unfolding index_from Finds
index_from-Finds test i [] j h = cc
index_from-Finds test i (word ∷ words) j h =
    elim (some_or (index_from test (i + 1) words) (test word) i j h) [
      | inl found ↦
          let (k, (at, passed)) = index_from-Finds test (i + 1) words j found in
          (suc k, (omega arith, passed))
      | inr (passed, at) ↦ (zero, (omega arith, passed))
    ]

by_prefix_inv :
    (found : Option ℕ) (test : ℕ → Bool) (i : ℕ)
    → elim found [ none ↦ err unknown_word | some k ↦ if test k then ok k else err unknown_word ]
      ≡ ok i
    → (found ≡ some i) × (test i ≡ true)
by_prefix_inv none test i h = absurd (raised h)
by_prefix_inv (some k) test i h = elim (if_branch (test k) h) [
  | inl (passed, same) ↦ (ap some (ok_inj same), subst (λ t. test t ≡ true) (ok_inj same) passed)
  | inr (_, failed) ↦ absurd (raised failed)
]

word_inv :
    (found : Option ℕ) (long : Bool) (m : Result KeyshareError ℕ) (i : ℕ)
    → elim found [ some k ↦ ok k | none ↦ if long then m else err unknown_word ] ≡ ok i
    → (found ≡ some i) ⊎ ((long ≡ true) × (m ≡ ok i))
word_inv (some k) long m i h = inl (ap some (ok_inj h))
word_inv none true m i h = inr (refl, h)
word_inv none false m i h = absurd (raised h)

check_indices-none :
    (indices : List ℕ) (s : Share) → from_indices indices ≡ ok s → check_indices indices ≡ none
unfolding check_indices
check_indices-none indices s h =
    let (passes, _) =
      Passes-outcome (length indices) (verified indices)
        (int_from_word_indices (head_words indices)) (int_from_word_indices (param_words indices))
        (length (value_words indices)) (int_from_word_indices (value_words indices))
        (sym (from_indices-eq-outcome indices) ∙ h) in
    rw (long_enough (length indices) passes.long, passes.checked) refl
  where
    long_enough : (n : ℕ) → 20 ≤ n → ltb n 20 ≡ false
    long_enough n h = ground arith

module _ (list : WordList) where
  -- A token resolves only to a word of the list that it spells, or, from four letters on, to one that
  -- it begins.
  pub word_index-word :
      (token : Word) (i : ℕ)
      → word_index list token ≡ ok i
      → (get_or list.words i [] ≡ list.lower token)
        ⊎ ((4 ≤ length (list.lower token))
            × (starts_with (get_or list.words i []) (list.lower token) ≡ true))
  unfolding word_index by_prefix word_to_index Finds
  word_index-word token i h =
      elim (word_inv (word_to_index list (list.lower token)) (leb 4 (length (list.lower token)))
        (by_prefix list (list.lower token)) i h) [
          | inl found ↦
              let (k, (at, passed)) = index_from-Finds _ 0 list.words i found in
              let same : i ≡ k = omega arith in inl (rw same (list_eqb→eq _ _ passed))
          | inr (long, resolved) ↦ inr (
            ground arith,
            (by_prefix_inv (prefix4_to_index list (take 4 (list.lower token)))
                (λ k. starts_with (get_or list.words k []) (list.lower token)) i resolved).1,
          )
        ]

  check_words-indices :
      (position : ℕ) (tokens : List Word) (indices : List ℕ)
      → mnemonic_to_indices list tokens ≡ ok indices
      → check_words list position tokens ≡ ok indices
  unfolding mnemonic_to_indices check_words
  check_words-indices position [] indices h = ap ok (ok_inj h)
  check_words-indices position (token ∷ tokens) indices h =
      let (index, step, resolved) = ok-inv (word_index list token) h in
      let (rest, last, read) = ok-inv (mnemonic_to_indices list tokens) step in
      rw (check_words, resolved, check_words-indices (position + 1) tokens rest read)
        (ap ok (ok_inj last))

  -- The diagnosis finds no fault in a share that is read.
  pub check_share-from_mnemonic :
      (tokens : List Word) (s : Share)
      → from_mnemonic list tokens ≡ ok s
      → check_share list tokens ≡ none
  unfolding from_mnemonic check_share
  check_share-from_mnemonic tokens s h =
      let (indices, parsed, read) = ok-inv (mnemonic_to_indices list tokens) h in
      rw (check_share, check_words-indices 1 tokens indices read)
        (check_indices-none indices s parsed)
