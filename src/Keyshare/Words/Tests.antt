-- ===== src/Keyshare/Words/Tests.antt =====
-- Tokens of a small word list.
use lcsas.Prelude.{◌≤◌, ◌≡◌, refl, ◌⊎◌, true, [], ◌∷◌, length, get_or, take}
use lcsas.Prelude.Result.{ok, err}
use lcsas.Keyshare.Errors.{unknown_word}
use lcsas.Keyshare.Words.{
  Word, WordList, starts_with, word_index, word_to_index, index_from, by_prefix, prefix4_to_index,
}
use lcsas.Keyshare.Words.Laws.{word_index-word}

-- "acid" and "adapt"
abbrev acid : Word
acid = 97 ∷ 99 ∷ 105 ∷ 100 ∷ []

abbrev adapt : Word
adapt = 97 ∷ 100 ∷ 97 ∷ 112 ∷ 116 ∷ []

abbrev small_list : WordList
small_list = record { words = acid ∷ adapt ∷ []; lower = λ token. token }

prefix_found : word_index small_list (take 4 adapt) ≡ ok 1
unfolding word_index word_to_index index_from by_prefix prefix4_to_index starts_with
prefix_found = refl

short_refused : word_index small_list (take 3 adapt) ≡ err unknown_word
unfolding word_index word_to_index index_from
short_refused = refl

word_index-word_example :
    (get_or small_list.words 1 [] ≡ take 4 adapt)
    ⊎ ((4 ≤ length (take 4 adapt))
        × (starts_with (get_or small_list.words 1 []) (take 4 adapt) ≡ true))
word_index-word_example = word_index-word small_list (take 4 adapt) 1 prefix_found
