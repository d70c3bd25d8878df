-- ===== src/Restore/Crypt/Laws.antt =====
-- What the decryption and the limits of src/lcsas/restore/restic_fallback.py let through.
use Prim.Native.Nat.{bit_or}
use native.Mathlib.Nat.{pow-suc}
use mathlib.Core.List.{append_assoc}
use lcsas.Prelude.{
  ℕ, zero, suc, ◌+◌, ◌-◌, ◌*◌, ◌/◌, ◌^◌, ◌<◌, ◌≤◌, ◌≡◌, refl, sym, ap, ap₂, ◌∙◌, ◌↔◌, Bool, true,
  false, not, List, [], ◌∷◌, ◌++◌, length, take, drop, ltb, ◌==◌, if◌then◌else◌, ==_iff, Bool-cases,
  inl, inr, arith, bit_xor, length-append, take-append, drop-append,
}
use lcsas.Prelude.Bits.{bit_or-zero, bit_xor_cancel, zero-bit_xor, bit_xor_self}
use lcsas.Prelude.Result.{Result, ok, err, ok-inv, ok-past, ok_inj, raised}
use lcsas.Restore.Aes.{AesError, key_schedule, aes_encrypt_block, aes_ctr}
use lcsas.Restore.Aes.Ctr.{aes_ctr_lem, aes_ctr-aes_ctr}
use lcsas.Prelude.Digits.{IsDigits}
use lcsas.Restore.Crypt.{
  from_little, to_little, poly1305_mac, wrong_mac, differences, constant_time_eq, keyed,
  decrypt_authenticated, pos, integer, is_out_of_range, scrypt_limits, scrypt_maxmem,
  scrypt_max_work, scrypt_max_mem, out_of_range,
}

bit_xor-zero_iff : (a b : ℕ) → bit_xor a b ≡ 0 → a ≡ b
bit_xor-zero_iff a b h = sym (bit_xor_cancel a b) ∙ ap (λ (t : ℕ). bit_xor t b) h ∙ zero-bit_xor b

differences-zero :
    (result : ℕ) (a b : List ℕ)
    → length a ≡ length b
    → differences result a b ≡ 0
    → (result ≡ 0) × (a ≡ b)
unfolding differences
differences-zero result [] [] e h = (h, refl)
differences-zero result [] (y ∷ b) e h = absurd (omega arith)
differences-zero result (x ∷ a) [] e h = absurd (omega arith)
differences-zero result (x ∷ a) (y ∷ b) e h =
    let (none, same) = differences-zero (bit_or result (bit_xor x y)) a b (omega arith) h in
    let (before, here) = bit_or-zero result (bit_xor x y) none in
    (before, ap₂ ◌∷◌ (bit_xor-zero_iff x y here) same)

differences_self : (a : List ℕ) → differences 0 a a ≡ 0
unfolding differences
differences_self [] = refl
differences_self (x ∷ a) = rw (bit_xor_self x) (differences_self a)

-- The comparison that takes constant time is equality.
pub constant_time_eq_iff : (a b : List ℕ) → (constant_time_eq a b ≡ true) ↔ (a ≡ b)
unfolding constant_time_eq
constant_time_eq_iff a b = (
  λ h. elim (Bool-cases (length a == length b)) [
    | inl e ↦ (differences-zero 0 a b ((==_iff (length a) (length b)).0 e) (ground (arith, h, e))).1
    | inr e ↦ absurd (ground (arith, h, e))
  ],
  λ h. rw (← h, differences_self a) (ground arith),
)

pub length-to_little : (width n : ℕ) → length (to_little width n) ≡ width
unfolding to_little
length-to_little zero n = refl
length-to_little (suc width) n = ap suc (length-to_little width (n / 256))

length-poly1305_mac :
    (key_r key_s message : List ℕ) → length (poly1305_mac key_r key_s message) ≡ 16
unfolding poly1305_mac
length-poly1305_mac key_r key_s message = length-to_little 16 _

keyed_inv {ℓ} : {A : Type ℓ} {a : A} (m : Result AesError A) → keyed m ≡ ok a → m ≡ ok a
unfolding keyed
keyed_inv (ok a) h = ap ok (ok_inj h)
keyed_inv (err e) h = absurd (raised h)

accepted : (b : Bool) → not b ≡ false → b ≡ true
accepted true h = refl
accepted false h = absurd (ground (arith, h))

module _ (encrypt_key mac_k mac_r : List ℕ) where
  -- The tag of a ciphertext: Poly1305 under the encryption of the nonce.
  abbrev pub tag_of : List (List ℕ) → List ℕ → List ℕ → List ℕ
  tag_of mac_rk iv ciphertext = poly1305_mac mac_r (aes_encrypt_block iv mac_rk) ciphertext

  decrypt_parts :
      (mac_rk : List (List ℕ)) (values : List ℕ)
      → key_schedule mac_k ≡ ok mac_rk
      → 33 ≤ length values
      → let iv = take 16 values in
        let ciphertext = drop 16 (take (length values - 16) values) in
        decrypt_authenticated encrypt_key mac_k mac_r values ≡ (
          if not (constant_time_eq (tag_of mac_rk iv ciphertext) (drop (length values - 16) values))
          then err wrong_mac
          else keyed (aes_ctr encrypt_key iv ciphertext))
  unfolding decrypt_authenticated keyed
  decrypt_parts mac_rk values scheduled long = rw (not_short, scheduled) refl
    where
      not_short : ltb (length values) 33 ≡ false
      not_short = ground (arith, long)

  decrypt_sealed :
      (mac_rk : List (List ℕ)) (iv ciphertext : List ℕ)
      → key_schedule mac_k ≡ ok mac_rk
      → length iv ≡ 16
      → 0 < length ciphertext
      → decrypt_authenticated encrypt_key mac_k mac_r
          (iv ++ (ciphertext ++ tag_of mac_rk iv ciphertext))
        ≡ keyed (aes_ctr encrypt_key iv ciphertext)
  decrypt_sealed mac_rk iv ciphertext scheduled size some =
      decrypt_parts mac_rk values scheduled (omega (arith, long))
      ∙ rw (front, middle, back, (constant_time_eq_iff tag tag).1 refl) refl
    where
      tag : List ℕ
      tag = tag_of mac_rk iv ciphertext

      values : List ℕ
      values = iv ++ (ciphertext ++ tag)

      long : length values ≡ 32 + length ciphertext
      long = omega (
        arith,
        length-append iv (ciphertext ++ tag),
        length-append ciphertext tag,
        length-poly1305_mac mac_r (aes_encrypt_block iv mac_rk) ciphertext,
      )

      cut : length values - 16 ≡ length (iv ++ ciphertext)
      cut = omega (arith, long, length-append iv ciphertext)

      front : take 16 values ≡ iv
      front = take-append 16 iv (ciphertext ++ tag) size

      middle : drop 16 (take (length values - 16) values) ≡ ciphertext
      middle =
          ap (drop 16) (
            ap (take (length values - 16)) (sym (append_assoc iv ciphertext tag))
            ∙ take-append _ (iv ++ ciphertext) tag (sym cut))
          ∙ drop-append 16 iv ciphertext size

      back : drop (length values - 16) values ≡ tag
      back =
          ap (drop (length values - 16)) (sym (append_assoc iv ciphertext tag))
          ∙ drop-append _ (iv ++ ciphertext) tag (sym cut)

  -- What is encrypted in the counter mode under a key of 16 or 32 bytes and sealed with its tag
  -- decrypts to itself: the nonce has 16 bytes, and the plaintext is not empty.
  pub decrypt_authenticated-sealed :
      (rk mac_rk : List (List ℕ)) (iv plaintext ciphertext : List ℕ)
      → key_schedule encrypt_key ≡ ok rk
      → key_schedule mac_k ≡ ok mac_rk
      → length iv ≡ 16
      → IsDigits 256 iv
      → 0 < length plaintext
      → aes_ctr encrypt_key iv plaintext ≡ ok ciphertext
      → decrypt_authenticated encrypt_key mac_k mac_r
          (iv ++ (ciphertext ++ tag_of mac_rk iv ciphertext))
        ≡ ok plaintext
  unfolding keyed
  decrypt_authenticated-sealed rk mac_rk iv plaintext ciphertext scheduled mac_scheduled size bytes
        some encrypted =
      let (out, returned, long, at) =
        aes_ctr_lem encrypt_key iv plaintext rk scheduled size bytes in
      decrypt_sealed mac_rk iv ciphertext mac_scheduled size
        (omega (arith, some, long, ap length (ok_inj (sym returned ∙ encrypted))))
      ∙ ap keyed
          (rw encrypted at (aes_ctr-aes_ctr encrypt_key iv plaintext rk scheduled size bytes))
      ∙ refl

  -- A plaintext is returned only when the data has at least 33 bytes and its last 16 are the tag,
  -- under the two keys for it, of what lies between them and the nonce.
  pub decrypt_authenticated-tag :
      (values out : List ℕ)
      → decrypt_authenticated encrypt_key mac_k mac_r values ≡ ok out
      → (33 ≤ length values)
        × ((mac_rk : List (List ℕ)) × (key_schedule mac_k ≡ ok mac_rk)
            × (drop (length values - 16) values
                ≡ tag_of mac_rk (take 16 values) (drop 16 (take (length values - 16) values))))
  unfolding decrypt_authenticated
  decrypt_authenticated-tag values out h =
      let (long, rest) = ok-past _ (ltb (length values) 33) h in
      let (mac_rk, checked, scheduled) = ok-inv (keyed (key_schedule mac_k)) rest in
      let (same, _) =
        ok-past wrong_mac
          (not (
            constant_time_eq
              (tag_of mac_rk (take 16 values) (drop 16 (take (length values - 16) values)))
              (drop (length values - 16) values)))
          checked in
      (
        ground (arith, long),
        (
          mac_rk,
          keyed_inv (key_schedule mac_k) scheduled,
          sym ((constant_time_eq_iff _ _).0 (accepted _ same)),
        ),
      )

next_product : (r t : ℕ) → 128 * r * (t + 3) ≡ 128 * r * (t + 2) + 128 * r
next_product r t = grind arith

in_range :
    (n r p : ℕ) → is_out_of_range n r p ≡ false → (0 < r) × (128 * r * (n + p + 3) ≤ scrypt_max_mem)
unfolding is_out_of_range scrypt_max_mem
in_range n r p h = (ground (arith, h), ground (arith, h))

-- The memory that is asked for is within the limits of hashlib, and it is enough for OpenSSL.
pub scrypt_maxmem-bounds :
    (n r p : ℕ) (maxmem : ℕ)
    → scrypt_maxmem (integer (pos n)) (integer (pos r)) (integer (pos p)) ≡ ok maxmem
    → (128 * r * (n + p + 2) ≤ maxmem) × (2 ^ 25 ≤ maxmem) × (maxmem < 2 ^ 31)
unfolding scrypt_maxmem scrypt_limits scrypt_max_work scrypt_max_mem
scrypt_maxmem-bounds n r p maxmem h =
    let (fits, e) = ok-past out_of_range (is_out_of_range n r p) h in
    let (some, memory) = in_range n r p fits in
    let step = next_product r (n + p) in
    (omega (arith, ok_inj e, some, memory, step), omega (arith, ok_inj e), omega (arith, ok_inj e))

pub from_little-to_little : (width n : ℕ) → n < 256 ^ width → from_little (to_little width n) ≡ n
unfolding from_little to_little
from_little-to_little zero n h = omega arith
from_little-to_little (suc width) n h =
    omega (arith, from_little-to_little width (n / 256) (omega (arith, h, pow-suc 256 width)))
