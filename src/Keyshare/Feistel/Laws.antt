-- ===== src/Keyshare/Feistel/Laws.antt =====
-- The Feistel network of src/lcsas/keyshare/slip39.py is its own inverse with the rounds reversed.
use mathlib.Core.List.{reverse, reverse-cons}
use lcsas.Prelude.{
  ℕ, ◌/◌, ◌%◌, ◌^◌, ◌<◌, ◌≡◌, refl, sym, ap, ◌∙◌, Bool, true, false, List, [], ◌∷◌, ◌++◌, arith,
  length, take, drop, bit_xor, length-append, take-append, drop-append, take-append-drop,
  length-take, length-drop, lt→ltb,
}
use lcsas.Prelude.Bits.{bit_xor_cancel}
use lcsas.Prelude.Result.{Result, ok, err, ◌>>=◌, ok-inv, >>=_ext, >>=_assoc, ok_inj}
use lcsas.Prelude.Digits.{to_digits}
use lcsas.Keyshare.Errors.{KeyshareError, zip_strict}
use lcsas.Keyshare.Feistel.{
  Pbkdf2, customization_string_orig, xor_bytes, get_salt, round_function, feistel_rounds, rounds_up,
  encrypt, decrypt,
}

-- What the program relies on in `hashlib.pbkdf2_hmac`: it returns `dklen` bytes.
abbrev pub HasLength : Pbkdf2 → Type 0
HasLength pbkdf2 =
    (password salt : List ℕ) (iterations dklen : ℕ)
    → length (pbkdf2 password salt iterations dklen) ≡ dklen

xor_bytes-total :
    (a b : List ℕ)
    → length a ≡ length b
    → (c : List ℕ) × (xor_bytes a b ≡ ok c) × (length c ≡ length a)
unfolding xor_bytes
xor_bytes-total [] [] h = ([], refl, refl)
xor_bytes-total [] (y ∷ ys) h = absurd (omega arith)
xor_bytes-total (x ∷ xs) [] h = absurd (omega arith)
xor_bytes-total (x ∷ xs) (y ∷ ys) h =
    let (c, e, n) = xor_bytes-total xs ys (omega arith) in (bit_xor x y ∷ c, rw e, omega (arith, n))

xor_bytes-strict : (a b : List ℕ) → length a < length b → xor_bytes a b ≡ err zip_strict
unfolding xor_bytes
xor_bytes-strict [] [] h = absurd (omega arith)
xor_bytes-strict [] (y ∷ ys) h = refl
xor_bytes-strict (x ∷ xs) [] h = absurd (omega arith)
xor_bytes-strict (x ∷ xs) (y ∷ ys) h = rw (xor_bytes-strict xs ys (omega arith))

-- The same mask undoes itself.
xor_bytes_undo : (a b : List ℕ) {c : List ℕ} → xor_bytes a b ≡ ok c → xor_bytes c b ≡ ok a
unfolding xor_bytes
xor_bytes_undo [] [] h = rw (← ok_inj h)
xor_bytes_undo [] (y ∷ ys) h = cc
xor_bytes_undo (x ∷ xs) [] h = cc
xor_bytes_undo (x ∷ xs) (y ∷ ys) h =
    let (rest, same, e) = ok-inv (xor_bytes xs ys) h in
    rw (← ok_inj same) (rw (xor_bytes_undo xs ys e) (rw (bit_xor_cancel x y)))

module _ (pbkdf2 : Pbkdf2) (passphrase : List ℕ) (exponent : ℕ) (salt : List ℕ) where
  abbrev mask : ℕ → List ℕ → List ℕ
  mask i r = round_function pbkdf2 i passphrase exponent salt r

  -- The loop with its last halves kept apart.
  run : List ℕ → List ℕ → List ℕ → Result KeyshareError (List ℕ × List ℕ)
  run [] left right = ok (left, right)
  run (i ∷ rounds) left right = do mixed ← xor_bytes left (mask i right); run rounds right mixed

  abbrev join : List ℕ × List ℕ → Result KeyshareError (List ℕ)
  join (left, right) = ok (right ++ left)

  feistel_rounds-run :
      (rounds left right : List ℕ)
      → feistel_rounds pbkdf2 passphrase exponent salt rounds left right
        ≡ (run rounds left right >>= join)
  unfolding feistel_rounds run
  feistel_rounds-run [] left right = refl
  feistel_rounds-run (i ∷ rounds) left right =
      >>=_ext (xor_bytes left (mask i right)) _ _ (feistel_rounds-run rounds right)
      ∙ sym (>>=_assoc (xor_bytes left (mask i right)) (run rounds right) join)

  run-append :
      (before after left right : List ℕ)
      → run (before ++ after) left right ≡ (run before left right >>= λ (l, r). run after l r)
  unfolding run
  run-append [] after left right = refl
  run-append (i ∷ before) after left right =
      >>=_ext (xor_bytes left (mask i right)) _ _ (run-append before after right)
      ∙ sym (>>=_assoc (xor_bytes left (mask i right)) (run before right) (λ (l, r). run after l r))

  -- Rounds in reverse, from the swapped halves, lead back.
  run_undo :
      (rounds left right : List ℕ) {l r : List ℕ}
      → run rounds left right ≡ ok (l, r)
      → run (reverse rounds) r l ≡ ok (right, left)
  unfolding run
  run_undo [] left right h = ap (λ p. ok (p.1, p.0)) (sym (ok_inj h))
  run_undo (i ∷ rounds) left right {l} {r} h =
      let (mixed, rest, e) = ok-inv (xor_bytes left (mask i right)) h in
      rw
        (
          reverse-cons i rounds,
          run-append (reverse rounds) (i ∷ []) r l,
          run_undo rounds right mixed rest,
          xor_bytes_undo left (mask i right) e,
        )
        refl

  module _ (sized : HasLength pbkdf2) where
    length-mask : (i : ℕ) (r : List ℕ) → length (mask i r) ≡ length r
    length-mask i r = unfold round_function in sized _ _ _ _

    run-total :
        (rounds left right : List ℕ)
        → length left ≡ length right
        → (l r : List ℕ) × (run rounds left right ≡ ok (l, r))
          × (length l ≡ length left)
          × (length r ≡ length left)
    unfolding run
    run-total [] left right h = (left, right, refl, refl, sym h)
    run-total (i ∷ rounds) left right h =
        let (mixed, e, n) =
          xor_bytes-total left (mask i right) (omega (arith, length-mask i right)) in
        let (l, r, f, p, q) = run-total rounds right mixed (omega (arith, n)) in
        (l, r, rw e f, omega (arith, p), omega (arith, q))

    -- Halves of one size: the network returns, and the reversed network leads back.
    rounds_undo :
        (rounds left right : List ℕ)
        → length left ≡ length right
        → (l r : List ℕ) × (feistel_rounds pbkdf2 passphrase exponent salt rounds left right
            ≡ ok (r ++ l))
          × (feistel_rounds pbkdf2 passphrase exponent salt (reverse rounds) r l
              ≡ ok (left ++ right))
          × (length l ≡ length left)
          × (length r ≡ length left)
    rounds_undo rounds left right h =
        let (l, r, e, p, q) = run-total rounds left right h in
        (
          l,
          r,
          feistel_rounds-run rounds left right ∙ ap (λ m. m >>= join) e,
          feistel_rounds-run (reverse rounds) r l
              ∙ ap (λ m. m >>= join) (run_undo rounds left right e),
          p,
          q,
        )

    -- Halves of different sizes: the first round raises.
    rounds_odd :
        (i : ℕ) (rounds left right : List ℕ)
        → length left < length right
        → feistel_rounds pbkdf2 passphrase exponent salt (i ∷ rounds) left right ≡ err zip_strict
    unfolding feistel_rounds
    rounds_odd i rounds left right h =
        rw (xor_bytes-strict left (mask i right) (omega (arith, length-mask i right)))

get_salt-total :
    (identifier : ℕ) (extendable : Bool)
    → identifier < 2 ^ 16
    → (salt : List ℕ) × (get_salt identifier extendable ≡ ok salt)
unfolding get_salt
get_salt-total identifier true h = ([], refl)
get_salt-total identifier false h =
    (customization_string_orig ++ to_digits 256 2 identifier, rw (lt→ltb identifier 65536 h))

module _ (pbkdf2 : Pbkdf2) (sized : HasLength pbkdf2) (ms passphrase : List ℕ)
    (exponent identifier : ℕ) (extendable : Bool) where
  abbrev half : ℕ
  half = length ms / 2

  halves-even : length ms % 2 ≡ 0 → length (take half ms) ≡ length (drop half ms)
  halves-even h = omega (arith, length-take half ms, length-drop half ms)

  -- When PBKDF2 returns as many bytes as it is asked for and the identifier has 16 bits at most,
  -- every master secret of an even number of bytes is encrypted, into as many bytes, and `decrypt`
  -- with the same parameters gives it back.
  pub decrypt-encrypt :
      length ms % 2 ≡ 0
      → identifier < 2 ^ 16
      → (c : List ℕ) × (encrypt pbkdf2 ms passphrase exponent identifier extendable ≡ ok c)
        × (length c ≡ length ms)
        × (decrypt pbkdf2 c passphrase exponent identifier extendable ≡ ok ms)
  unfolding encrypt decrypt
  decrypt-encrypt even fits =
      let (salt, salted) = get_salt-total identifier extendable fits in
      let (l, r, there, back, p, q) =
        rounds_undo pbkdf2 passphrase exponent salt sized rounds_up (take half ms) (drop half ms)
          (halves-even even) in
      let whole : length (r ++ l) ≡ length ms =
        omega (arith, length-append r l, p, q, length-take half ms) in
      let middle : length r ≡ length (r ++ l) / 2 = omega (arith, length-append r l, p, q) in
      (
        r ++ l,
        rw salted there,
        whole,
        rw
            (
              salted,
              take-append (length (r ++ l) / 2) r l middle,
              drop-append (length (r ++ l) / 2) r l middle,
            )
            (back ∙ ap ok (take-append-drop half ms)),
      )

  -- When PBKDF2 returns as many bytes as it is asked for and the identifier has 16 bits at most, a
  -- master secret of an odd number of bytes is refused, by the strict `zip` of `_xor`.
  pub encrypt_odd :
      length ms % 2 ≡ 1
      → identifier < 2 ^ 16
      → encrypt pbkdf2 ms passphrase exponent identifier extendable ≡ err zip_strict
  unfolding encrypt
  encrypt_odd odd fits =
      let (salt, salted) = get_salt-total identifier extendable fits in
      rw salted (
        rounds_odd pbkdf2 passphrase exponent salt sized 0 (1 ∷ 2 ∷ 3 ∷ []) (take half ms)
          (drop half ms) (omega (arith, length-take half ms, length-drop half ms)))
