-- ===== src/Keyshare/Rs1024/Bursts.antt =====
-- Errors of up to three words in a row never pass the RS1024 checksum of one customization.
use lcsas.Prelude.{
  ℕ, zero, suc, ◌*◌, ◌/◌, ◌%◌, ◌^◌, ◌<◌, ◌≡◌, ◌≢◌, refl, sym, ap, ◌∙◌, Bool, true, false, List, [],
  ◌∷◌, ◌++◌, ◌&&◌, bit_xor, arith, length, ◌==◌, ==_iff, All-append, All-split, Bool-cases, inl,
  inr,
}
use mathlib.Core.List.{append_assoc}
use lcsas.Prelude.Bits.{
  bit_xor-mod, zero-bit_xor, bit_xor_comm, bit_xor_inj_left, bit_xor_inj_right,
}
use lcsas.Prelude.Digits.{to_digits, IsDigits, to_digits-of_digits}
use lcsas.Keyshare.Rs1024.{
  rs1024_gen, rs1024_feed, rs1024_step, rs1024_from, rs1024_polymod, rs1024_verify_checksum,
}
use lcsas.Keyshare.Rs1024.State.{advance, feed-bit_xor, rs1024_step-eq-advance, rs1024_step-lt}
use lcsas.Keyshare.Rs1024.Laws.{rs1024_from-append, rs1024_from-lt, rs1024_from-three, three}

-- The feedback alone, and its low ten bits.
feedback : ℕ → ℕ
feedback b = rs1024_feed rs1024_gen 0 b 0

abbrev low : ℕ → ℕ
low b = feedback b % 1024

-- The linear map that undoes `low`: the generators' low bits form an invertible matrix.
abbrev undo_gen : List ℕ
undo_gen = 145 ∷ 290 ∷ 580 ∷ 129 ∷ 258 ∷ 516 ∷ 1 ∷ 2 ∷ 4 ∷ 8 ∷ []

undo_low : ℕ → ℕ
undo_low y = rs1024_feed undo_gen 0 y 0

holds_below : (ℕ → Bool) → ℕ → Bool
holds_below test zero = true
holds_below test (suc limit) = test limit && holds_below test limit

holds_below-lt :
    (test : ℕ → Bool) (b limit : ℕ) → b < limit → holds_below test limit ≡ true → test b ≡ true
unfolding holds_below
holds_below-lt test b zero below all = absurd (omega arith)
holds_below-lt test b (suc limit) below all = ground (arith, holds_below-lt test b limit)

undo_table : holds_below (λ b. undo_low (low b) == b) 1024 ≡ true
unfolding holds_below undo_low feedback rs1024_feed
undo_table = refl

undo_low-low : (b : ℕ) → b < 1024 → undo_low (low b) ≡ b
undo_low-low b h = (==_iff _ b).0 (holds_below-lt (λ b. undo_low (low b) == b) b 1024 h undo_table)

advance-eq-feedback : (s : ℕ) → advance s ≡ bit_xor (s % 2 ^ 20 * 2 ^ 10) (feedback (s / 2 ^ 20))
unfolding advance feedback
advance-eq-feedback s =
    ap (rs1024_feed rs1024_gen 0 (s / 2 ^ 20)) (sym (zero-bit_xor (s % 2 ^ 20 * 2 ^ 10)))
    ∙ feed-bit_xor rs1024_gen 0 (s / 2 ^ 20) 0 (s % 2 ^ 20 * 2 ^ 10)
    ∙ bit_xor_comm _ _

low-advance : (s : ℕ) → advance s % 1024 ≡ low (s / 2 ^ 20)
low-advance s =
    ap (λ (t : ℕ). t % 1024) (advance-eq-feedback s)
    ∙ bit_xor-mod 10 (s % 2 ^ 20 * 2 ^ 10) (feedback (s / 2 ^ 20))
    ∙ ap (λ (t : ℕ). bit_xor t (low (s / 2 ^ 20))) {y = 0} (omega arith)
    ∙ zero-bit_xor (low (s / 2 ^ 20))

-- A round maps different states to different states.
advance_inj : (s t : ℕ) → s < 2 ^ 30 → t < 2 ^ 30 → advance s ≡ advance t → s ≡ t
advance_inj s t hs ht e = omega (arith, high, lower)
  where
    high : s / 2 ^ 20 ≡ t / 2 ^ 20
    high =
        sym (undo_low-low (s / 2 ^ 20) (omega arith))
        ∙ ap undo_low (sym (low-advance s) ∙ ap (λ (n : ℕ). n % 1024) e ∙ low-advance t)
        ∙ undo_low-low (t / 2 ^ 20) (omega arith)

    lower : s % 2 ^ 20 * 2 ^ 10 ≡ t % 2 ^ 20 * 2 ^ 10
    lower = bit_xor_inj_right _ _ (feedback (s / 2 ^ 20)) (
        sym (advance-eq-feedback s)
        ∙ e
        ∙ advance-eq-feedback t
        ∙ ap (λ (n : ℕ). bit_xor (t % 2 ^ 20 * 2 ^ 10) (feedback n)) (sym high))

rs1024_step_inj : (s t v : ℕ) → s < 2 ^ 30 → t < 2 ^ 30 → rs1024_step s v ≡ rs1024_step t v → s ≡ t
rs1024_step_inj s t v hs ht e =
    advance_inj s t hs ht
      (bit_xor_inj_right _ _ v (sym (rs1024_step-eq-advance s v) ∙ e ∙ rs1024_step-eq-advance t v))

rs1024_from_inj :
    (s t : ℕ) (xs : List ℕ)
    → s < 2 ^ 30
    → t < 2 ^ 30
    → IsDigits 1024 xs
    → rs1024_from s xs ≡ rs1024_from t xs
    → s ≡ t
unfolding rs1024_from
rs1024_from_inj s t [] hs ht hx e = e
rs1024_from_inj s t (x ∷ xs) hs ht hx e = rs1024_step_inj s t x hs ht (
    rs1024_from_inj (rs1024_step s x) (rs1024_step t x) xs (rs1024_step-lt s x hx.0)
      (rs1024_step-lt t x hx.0) hx.1 e)

module _ (x2 x1 x0 y2 y1 y0 : ℕ) (hx : IsDigits 1024 (three x2 x1 x0))
    (hy : IsDigits 1024 (three y2 y1 y0)) where
  -- From one state, three words lead to the same state only if they are the same words.
  three_inj :
      (s : ℕ)
      → rs1024_from s (three x2 x1 x0) ≡ rs1024_from s (three y2 y1 y0)
      → three x2 x1 x0 ≡ three y2 y1 y0
  three_inj s e =
      sym (to_digits-of_digits 1024 (omega arith) (three x2 x1 x0) hx)
      ∙ ap (to_digits 1024 3) (
          bit_xor_inj_left _ _ (rs1024_from s (three 0 0 0))
            (sym (rs1024_from-three x2 x1 x0 hx s) ∙ e ∙ rs1024_from-three y2 y1 y0 hy s))
      ∙ to_digits-of_digits 1024 (omega arith) (three y2 y1 y0) hy

module _ (customization front back : List ℕ) where
  abbrev start : ℕ
  start = rs1024_polymod (customization ++ front)

  polymod-window :
      (xs : List ℕ)
      → rs1024_polymod (customization ++ (front ++ (xs ++ back)))
        ≡ rs1024_from (rs1024_from start xs) back
  unfolding rs1024_polymod
  polymod-window xs =
      ap (rs1024_from 1) (sym (append_assoc customization front (xs ++ back)))
      ∙ rs1024_from-append 1 (customization ++ front) (xs ++ back)
      ∙ rs1024_from-append start xs back

  start-lt : IsDigits 1024 customization → IsDigits 1024 front → start < 2 ^ 30
  unfolding rs1024_polymod
  start-lt hc hf =
      rs1024_from-lt 1 (customization ++ front) (omega arith)
        (All-append _ customization front hc hf)

  window_inj :
      (xs ys : List ℕ)
      → IsDigits 1024 customization
      → IsDigits 1024 front
      → IsDigits 1024 back
      → IsDigits 1024 xs
      → IsDigits 1024 ys
      → rs1024_verify_checksum (front ++ (xs ++ back)) customization ≡ true
      → rs1024_verify_checksum (front ++ (ys ++ back)) customization ≡ true
      → rs1024_from start xs ≡ rs1024_from start ys
  unfolding rs1024_verify_checksum
  window_inj xs ys hc hf hb hx hy p q =
      rs1024_from_inj (rs1024_from start xs) (rs1024_from start ys) back
        (rs1024_from-lt start xs (start-lt hc hf) hx) (rs1024_from-lt start ys (start-lt hc hf) hy)
        hb (sym (polymod-window xs) ∙ (==_iff _ 1).0 p ∙ sym ((==_iff _ 1).0 q) ∙ polymod-window ys)

  window_cases :
      (xs ys : List ℕ)
      → IsDigits 1024 xs
      → IsDigits 1024 ys
      → length xs ≡ 3
      → length ys ≡ 3
      → rs1024_from start xs ≡ rs1024_from start ys
      → xs ≡ ys
  window_cases (x2 ∷ x1 ∷ x0 ∷ []) (y2 ∷ y1 ∷ y0 ∷ []) hx hy m n e =
      three_inj x2 x1 x0 y2 y1 y0 hx hy start e
  window_cases xs ys hx hy m n e = absurd (omega arith)

-- Where words below 1024 verify for a customization, no other three words below 1024 verify for the
-- same customization in the place of three consecutive ones.
pub burst_detected :
    (customization front xs ys back : List ℕ)
    → IsDigits 1024 (customization ++ (front ++ back))
    → IsDigits 1024 xs
    → IsDigits 1024 ys
    → length xs ≡ 3
    → length ys ≡ 3
    → xs ≢ ys
    → rs1024_verify_checksum (front ++ (xs ++ back)) customization ≡ true
    → rs1024_verify_checksum (front ++ (ys ++ back)) customization ≡ false
burst_detected customization front xs ys back words hx hy m n differ p =
    elim (Bool-cases (rs1024_verify_checksum (front ++ (ys ++ back)) customization)) [
      | inl q ↦
          let (hc, rest) = All-split _ customization (front ++ back) words in
          let (hf, hb) = All-split _ front back rest in
          absurd (
            differ (
              window_cases customization front back xs ys hx hy m n
                (window_inj customization front back xs ys hc hf hb hx hy p q)))
      | inr q ↦ q
    ]
