-- ===== src/Keyshare/Generate/Members.antt =====
-- A split by src/lcsas/keyshare/slip39.py: its ciphertext, its members and their cards.
use mathlib.Core.Path.{subst}
use mathlib.Core.List.{Memᴰ}
use lcsas.Prelude.{
  ℕ, ◌+◌, ◌%◌, ◌^◌, ◌≤◌, ◌<◌, ◌≡◌, ◌≢◌, refl, sym, ap, ◌∙◌, true, List, [], ◌∷◌, map, length,
  length-map, All, All-imp, Distinct, arith,
}
use lcsas.Prelude.Result.{ok, ok_inj}
use lcsas.Keyshare.Share.{Share, from_indices}
use lcsas.Keyshare.Feistel.{Pbkdf2, encrypt, decrypt}
use lcsas.Keyshare.Feistel.Laws.{HasLength, decrypt-encrypt}
use lcsas.Keyshare.Feistel.Bytes.{ReturnsBytes, encrypt-IsBytes}
use lcsas.Keyshare.Shamir.{RawShare, Crypto, x_coordinates, same_shares}
use lcsas.Keyshare.Shamir
use lcsas.Keyshare.Shamir.Sums.{IsByte}
use lcsas.Keyshare.Shamir.Curve.{All-of_shares}
use lcsas.Keyshare.Generate.Picked.{picks, picked-Distinct}
use lcsas.Keyshare.Shamir.Split.{IsSound, range-lt, range-Distinct, length-range}
use lcsas.Keyshare.Shamir.Outcome.{HasShares, split_secret-total}
use lcsas.Keyshare.Combine.{from_master_secret}
use lcsas.Keyshare.Combine.Decoded.{OneGroup, IsCard}
use lcsas.Keyshare.Combine.Recovered.{recover_ems-ok}
use lcsas.Keyshare.Combine.Decoded.{decode_mnemonics-cards}
use lcsas.Keyshare.Generate.Cards.{IsRequest, card_of, cards-IsCard}
use lcsas.Keyshare.Combine.{combine_mnemonics, decrypt_ems}
use lcsas.Keyshare.Generate
use lcsas.Keyshare.Generate.{
  first_group, ShareSet, member_mnemonic, group_mnemonics, generate_mnemonics, check_master_secret,
  check_passphrase, random_identifier,
}

module _ (crypto : Crypto) (sound : IsSound crypto) (pbkdf2 : Pbkdf2) (sized : HasLength pbkdf2)
    (returns : ReturnsBytes pbkdf2) (secret : List ℕ) (threshold count : ℕ) (passphrase : List ℕ)
    (exponent call : ℕ) (request : IsRequest secret threshold count passphrase exponent) where
  abbrev pub group : OneGroup
  group = record {
    identifier = random_identifier crypto call;
    extendable = true;
    iteration_exponent = exponent;
    member_threshold = threshold;
  }

  pub identifier-lt : random_identifier crypto call < 2 ^ 15
  unfolding random_identifier
  identifier-lt = omega arith

  abbrev pub Encrypted : Type 0
  Encrypted =
      (c : List ℕ) × (encrypt pbkdf2 secret passphrase exponent (random_identifier crypto call) true
        ≡ ok c)
      × (length c ≡ length secret)
      × (decrypt pbkdf2 c passphrase exponent (random_identifier crypto call) true ≡ ok secret)

  pub encrypted : Encrypted
  encrypted =
      decrypt-encrypt pbkdf2 sized secret passphrase exponent (random_identifier crypto call) true
        request.even (omega (arith, identifier-lt))

  abbrev pub ciphertext : List ℕ
  ciphertext = encrypted.0

  pub ciphertext-bytes : All IsByte ciphertext
  ciphertext-bytes =
      encrypt-IsBytes pbkdf2 returns passphrase exponent secret (random_identifier crypto call) true
        ciphertext request.bytes encrypted.1

  pub dealt : HasShares crypto count ciphertext (call + 1) threshold
  dealt =
      split_secret-total crypto sound threshold count (call + 1) ciphertext ciphertext-bytes
        request.positive request.within request.few (omega (arith, encrypted.2, request.long))

  abbrev pub members : List RawShare
  members = dealt.0

  -- The cards, one for each member.
  abbrev pub cards : List (List ℕ)
  cards = map (card_of group) members

  master_ok : check_master_secret secret ≡ ok tt
  unfolding check_master_secret
  master_ok = ground (arith, request.long, request.even)

  passphrase_ok : check_passphrase passphrase ≡ ok tt
  unfolding check_passphrase
  passphrase_ok = rw request.printable refl

  -- The one group holds the ciphertext itself.
  group_shares :
      Shamir.split_secret crypto 1 1 ciphertext (call + 1)
      ≡ ok (record { x = 0; share_data = ciphertext } ∷ [], call + 1)
  unfolding Shamir.split_secret same_shares
  group_shares = refl

  pub split_secret-cards :
      Generate.split_secret crypto pbkdf2 secret threshold count passphrase exponent call ≡ ok cards
  unfolding Generate.split_secret first_group generate_mnemonics group_mnemonics member_mnemonic
      from_master_secret
  split_secret-cards =
      rw (master_ok, passphrase_ok, request.not_many_of_one, encrypted.1, group_shares, dealt.1.1.0)
        refl

  members-Distinct : Distinct (x_coordinates members)
  members-Distinct = subst Distinct (sym dealt.1.1.1.0) (range-Distinct 0 count)

  members-IsCard : All (IsCard group (card_of group)) members
  members-IsCard =
      cards-IsCard group identifier-lt request.exponent_fits request.positive
        (omega (arith, request.within, request.few)) (length ciphertext)
        (ap (λ n. n % 2) encrypted.2 ∙ request.even) (omega (arith, encrypted.2, request.long))
        members
        (subst (All (λ x. x < 16)) (sym dealt.1.1.1.0)
          (range-lt 0 count 16 (omega (arith, request.few))))
        dealt.1.1.1.1

  -- The secret is read back from the cards of `rs`.
  combine-members :
      (first : RawShare) (rest : List RawShare)
      → All (λ r. Memᴰ r members) (first ∷ rest)
      → Distinct (x_coordinates (first ∷ rest))
      → threshold ≤ length (first ∷ rest)
      → combine_mnemonics crypto pbkdf2 (map (card_of group) (first ∷ rest)) passphrase ≡ ok secret
  unfolding combine_mnemonics decrypt_ems
  combine-members first rest held distinct enough =
      rw
        (
          decode_mnemonics-cards group (card_of group) first rest
              (All-imp _ _
                (λ r m. All-of_shares (IsCard group (card_of group)) r members m members-IsCard)
                (first ∷ rest) held)
              distinct,
          recover_ems-ok group first rest crypto sound count (call + 1) ciphertext ciphertext-bytes
              members dealt.1.0 dealt.1.1.0 held distinct enough,
        )
        encrypted.3

  pub picked_recover :
      (rs : List RawShare)
      → All (λ r. Memᴰ r members) rs
      → Distinct (map (card_of group) rs)
      → threshold ≤ length rs
      → combine_mnemonics crypto pbkdf2 (map (card_of group) rs) passphrase ≡ ok secret
  picked_recover [] held distinct enough = absurd (omega (arith, request.positive))
  picked_recover (first ∷ rest) held distinct enough =
      combine-members first rest held
        (picked-Distinct (card_of group) members members-Distinct (first ∷ rest) held distinct)
        enough

  pub cards-length : length cards ≡ count
  cards-length =
      length-map members (card_of group)
      ∙ sym (length-map members (λ (r : RawShare). r.x))
      ∙ ap (λ (l : List ℕ). length l) dealt.1.1.1.0
      ∙ length-range 0 count

  pub chosen_recover :
      (chosen : List (List ℕ))
      → All (λ m. Memᴰ m cards) chosen
      → Distinct chosen
      → threshold ≤ length chosen
      → combine_mnemonics crypto pbkdf2 chosen passphrase ≡ ok secret
  chosen_recover chosen held distinct enough =
      let (rs, (all_held, same)) = picks (card_of group) members chosen held in
      let sizes : length rs ≡ length chosen =
        sym (length-map rs (card_of group)) ∙ ap (λ (l : List (List ℕ)). length l) same in
      subst (λ l. combine_mnemonics crypto pbkdf2 l passphrase ≡ ok secret) same
        (picked_recover rs all_held (subst Distinct (sym same) distinct) (omega arith))

  -- No two cards are the same.
  card_inj :
      (r t : RawShare)
      → IsCard group (card_of group) r
      → IsCard group (card_of group) t
      → card_of group r ≡ card_of group t
      → r.x ≡ t.x
  card_inj r t hr ht e =
      ap (λ (s : Share). s.member_index) (ok_inj (sym hr ∙ ap from_indices e ∙ ht))

  card-apart :
      (r : RawShare) (ts : List RawShare)
      → IsCard group (card_of group) r
      → All (IsCard group (card_of group)) ts
      → All (λ y. y ≢ r.x) (x_coordinates ts)
      → All (λ m. m ≢ card_of group r) (map (card_of group) ts)
  card-apart r [] hr h apart = tt
  card-apart r (t ∷ ts) hr h apart =
      ((λ e. apart.0 (card_inj t r h.0 hr e)), card-apart r ts hr h.1 apart.1)

  map-Distinct :
      (ts : List RawShare)
      → All (IsCard group (card_of group)) ts
      → Distinct (x_coordinates ts)
      → Distinct (map (card_of group) ts)
  map-Distinct [] h distinct = tt
  map-Distinct (r ∷ ts) h distinct =
      (card-apart r ts h.0 h.1 distinct.0, map-Distinct ts h.1 distinct.1)

  pub cards-Distinct : Distinct cards
  cards-Distinct = map-Distinct members members-IsCard members-Distinct
