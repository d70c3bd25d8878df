-- ===== src/Keyshare/Share/Laws.antt =====
-- The mnemonics that `_Share.from_mnemonic` accepts are those that `_Share.words` writes.
use mathlib.Core.Path.{subst}
use lcsas.Prelude.{ℕ, ◌≡◌, sym, ap, ◌∙◌, ◌↔◌, List, length}
use lcsas.Prelude.Result.{ok}
use lcsas.Prelude.Digits.{IsDigits}
use lcsas.Keyshare.Radix.{int_from_word_indices}
use lcsas.Keyshare.Share.{Share, share_indices, from_indices}
use lcsas.Keyshare.Share.Fields.{IsShare}
use lcsas.Keyshare.Share.Outcome.{
  Passes-outcome, from_indices-eq-outcome, head_words, param_words, value_words, verified,
}
use lcsas.Keyshare.Share.Parsed.{share-IsShare, indices-parsed}
use lcsas.Keyshare.Share.Written.{from-share_indices}

-- A list of word indices below 1024 parses as the share `s` exactly if the fields of `s` are in
-- their ranges and the list is what `words` writes for `s`.
pub from_indices_iff :
    (words : List ℕ) (s : Share)
    → IsDigits 1024 words
    → (from_indices words ≡ ok s) ↔ (IsShare s × (share_indices s ≡ words))
from_indices_iff words s digits =
    (accepted, λ (h, e). ap from_indices (sym e) ∙ from-share_indices s h)
  where
    accepted : from_indices words ≡ ok s → IsShare s × (share_indices s ≡ words)
    accepted e =
        let (passes, same) =
          Passes-outcome (length words) (verified words) (int_from_word_indices (head_words words))
            (int_from_word_indices (param_words words)) (length (value_words words))
            (int_from_word_indices (value_words words)) (sym (from_indices-eq-outcome words) ∙ e) in
        subst (λ t. IsShare t × (share_indices t ≡ words)) same
          (
            share-IsShare words digits passes.long passes,
            indices-parsed words digits passes.long passes,
          )
