-- ===== src/Keyshare/Codec/Laws.antt =====
-- The framing of src/lcsas/keyshare/codec.py is reversible.
use mathlib.Core.List.{append_assoc}
use mathlib.Core.Path.{subst}
use native.Mathlib.Nat.{mod-eq_of_lt}
use lcsas.Prelude.{
  ℕ, zero, ◌+◌, ◌-◌, ◌%◌, ◌≤◌, ◌<◌, max, ◌≡◌, refl, sym, ap, ap₂, ◌∙◌, ◌↔◌, ◌⊎◌, ◌^◌, List, ◌++◌,
  arith, length, take, drop, replicate, length-append, length-replicate, take-append, drop-append,
  take-append-drop, length-drop, length-take, All-take,
}
use lcsas.Prelude.Result.{ok, err}
use lcsas.Prelude.Digits.{
  to_digits, of_digits, length-to_digits, of_digits-to_digits, to_digits-of_digits, of_digits-lt,
  IsDigits,
}
use lcsas.Keyshare.Errors.{password_too_long}
use lcsas.Keyshare.Codec.{length_prefix, encode_master_secret, decode_master_secret}

-- A master secret that holds `pw`: its length as two bytes, its bytes, and any rest.
abbrev pub Frames : List ℕ → List ℕ → Type 0
Frames pw ms =
    (length pw ≤ 0xffff) × (rest : List ℕ) × (ms ≡ length_prefix (length pw) ++ (pw ++ rest))

module _ (pw : List ℕ) where
  abbrev prefix : List ℕ
  prefix = length_prefix (length pw)

  length-prefix : length prefix ≡ 2
  length-prefix = length-to_digits 256 2 (length pw)

  value-prefix : length pw ≤ 0xffff → of_digits 256 0 prefix ≡ length pw
  value-prefix h = of_digits-to_digits 256 (omega arith) 2 (length pw) ∙ mod-eq_of_lt (omega arith)

  pub decode-frame :
      (rest : List ℕ)
      → length pw ≤ 0xffff
      → decode_master_secret (length_prefix (length pw) ++ (pw ++ rest)) ≡ ok pw
  unfolding decode_master_secret
  decode-frame rest h = ground (
    arith,
    take-append 2 prefix (pw ++ rest) length-prefix,
    drop-append 2 prefix (pw ++ rest) length-prefix,
    value-prefix h,
    length-append prefix (pw ++ rest),
    length-append pw rest,
    length-prefix,
    take-append (length pw) pw rest refl,
  )

  -- The zero padding of the encoder, and the size that it leads to.
  abbrev padding : List ℕ
  padding = replicate (max 16 (2 + length pw + (2 + length pw) % 2) - (2 + length pw)) 0

  length-body : length (prefix ++ pw) ≡ 2 + length pw
  length-body = omega (arith, length-append prefix pw, length-prefix)

  pub encode-frame :
      length pw ≤ 0xffff
      → encode_master_secret pw ≡ ok (length_prefix (length pw) ++ (pw ++ padding))
  unfolding encode_master_secret
  encode-frame h = ground (arith, length-body, append_assoc prefix pw padding)

  length-frame : length (prefix ++ (pw ++ padding)) ≡ 2 + length pw + length padding
  length-frame =
      omega (arith, length-append prefix (pw ++ padding), length-append pw padding, length-prefix)

-- Every password of at most 65535 bytes is framed, the frame meets the constraints of SLIP-0039
-- (an even number of bytes, 16 at least, and the smallest such number that holds the frame), and
-- decoding it gives the password back.
pub decode-encode :
    (pw : List ℕ)
    → length pw ≤ 0xffff
    → (ms : List ℕ) × (encode_master_secret pw ≡ ok ms)
      × (decode_master_secret ms ≡ ok pw)
      × (length ms % 2 ≡ 0)
      × (16 ≤ length ms)
      × ((length ms ≡ 16) ⊎ (length ms ≤ length pw + 3))
decode-encode pw h = (
  length_prefix (length pw) ++ (pw ++ padding pw),
  encode-frame pw h,
  decode-frame pw (padding pw) h,
  omega (arith, size),
  omega (arith, size),
  ground (arith, size),
)
  where
    size :
        length (length_prefix (length pw) ++ (pw ++ padding pw))
        ≡ max 16 (2 + length pw + (2 + length pw) % 2)
    size = omega (
      arith,
      length-frame pw,
      length-replicate (max 16 (2 + length pw + (2 + length pw) % 2) - (2 + length pw)) zero,
    )

-- The encoder refuses exactly the passwords of more than 65535 bytes.
pub encode-too_long_iff :
    (pw : List ℕ) → (encode_master_secret pw ≡ err password_too_long) ↔ (0xffff < length pw)
unfolding encode_master_secret
encode-too_long_iff pw = ground arith

module _ (ms : List ℕ) (long : 2 ≤ length ms) (bytes : IsDigits 256 ms) where
  abbrev claimed : ℕ
  claimed = of_digits 256 0 (take 2 ms)

  length-head : length (take 2 ms) ≡ 2
  length-head = omega (arith, length-take 2 ms)

  head-bytes : length_prefix claimed ≡ take 2 ms
  head-bytes =
      ap (λ (n : ℕ). to_digits 256 n claimed) (sym length-head)
      ∙ to_digits-of_digits 256 (omega arith) (take 2 ms) (All-take _ 2 ms bytes)

  claimed-lt : claimed < 65536
  claimed-lt =
      let h : claimed < 256 ^ length (take 2 ms) =
        of_digits-lt 256 (omega arith) (take 2 ms) (All-take _ 2 ms bytes) in
      subst (λ n. claimed < 256 ^ n) length-head h

  frame-claimed : 2 + claimed ≤ length ms → Frames (take claimed (drop 2 ms)) ms
  frame-claimed fits = (
    omega (arith, size, claimed-lt),
    drop claimed (drop 2 ms),
    sym (take-append-drop 2 ms)
        ∙ ap₂ ◌++◌ (sym head-bytes ∙ ap length_prefix (sym size))
            (sym (take-append-drop claimed (drop 2 ms))),
  )
    where
      size : length (take claimed (drop 2 ms)) ≡ claimed
      size = omega (arith, length-take claimed (drop 2 ms), length-drop 2 ms)

decode_inv :
    (ms pw : List ℕ)
    → decode_master_secret ms ≡ ok pw
    → (2 ≤ length ms)
      × (2 + of_digits 256 0 (take 2 ms) ≤ length ms)
      × (take (of_digits 256 0 (take 2 ms)) (drop 2 ms) ≡ pw)
unfolding decode_master_secret
decode_inv ms pw e = ground arith

-- A master secret of bytes decodes to `pw` exactly if it is the two-byte length of `pw`, then
-- `pw`, then any rest: nothing else is accepted, and nothing is read past the frame.
pub decode_iff :
    (ms pw : List ℕ) → IsDigits 256 ms → (decode_master_secret ms ≡ ok pw) ↔ Frames pw ms
decode_iff ms pw bytes = (accepted, λ (fits, rest, e). rw e (decode-frame pw rest fits))
  where
    accepted : decode_master_secret ms ≡ ok pw → Frames pw ms
    accepted e =
        let (long, fits, same) = decode_inv ms pw e in
        subst (λ p. Frames p ms) same (frame-claimed ms long bytes fits)
