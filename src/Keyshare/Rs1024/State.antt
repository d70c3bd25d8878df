-- ===== src/Keyshare/Rs1024/State.antt =====
-- The 30-bit state of the RS1024 loop: one round is linear in what it is given, and loses nothing.
use lcsas.Prelude.{
  ℕ, ◌+◌, ◌*◌, ◌/◌, ◌%◌, ◌^◌, ◌<◌, ◌≡◌, refl, sym, ap, ap₂, ◌∙◌, Bool, true, false, List, [], ◌∷◌,
  bit_xor, arith, ◌==◌, if◌then◌else◌, All,
}
use lcsas.Prelude.Bits.{
  bit_xor_right_comm, bit_xor-lt, bit_xor-zero, bit_xor-div, bit_xor-mod, shift-bit_xor,
}
use lcsas.Keyshare.Rs1024.{rs1024_gen, rs1024_feed, rs1024_step}

pub feed-bit_xor :
    (gens : List ℕ) (i b chk d : ℕ)
    → rs1024_feed gens i b (bit_xor chk d) ≡ bit_xor (rs1024_feed gens i b chk) d
unfolding rs1024_feed
feed-bit_xor [] i b chk d = refl
feed-bit_xor (g ∷ gens) i b chk d =
    rw (bit_xor_right_comm chk d (if b / 2 ^ i % 2 == 1 then g else 0))
      (feed-bit_xor gens (i + 1) b (bit_xor chk (if b / 2 ^ i % 2 == 1 then g else 0)) d)

-- The round without its input word.
unfoldable pub advance : ℕ → ℕ
advance chk = rs1024_feed rs1024_gen 0 (chk / 2 ^ 20) (chk % 2 ^ 20 * 2 ^ 10)

pub rs1024_step-eq-advance : (chk v : ℕ) → rs1024_step chk v ≡ bit_xor (advance chk) v
unfolding rs1024_step advance
rs1024_step-eq-advance chk v = feed-bit_xor rs1024_gen 0 (chk / 2 ^ 20) (chk % 2 ^ 20 * 2 ^ 10) v

-- A difference in the low 20 bits is shifted up, and meets no feedback.
pub advance-bit_xor :
    (s t : ℕ) → t < 2 ^ 20 → advance (bit_xor s t) ≡ bit_xor (advance s) (t * 2 ^ 10)
unfolding advance
advance-bit_xor s t h =
    ap₂ (rs1024_feed rs1024_gen 0)
      (bit_xor-div 20 s t
        ∙ ap (bit_xor (s / 2 ^ 20)) {y = 0} (omega arith)
        ∙ bit_xor-zero (s / 2 ^ 20))
      (ap (λ (n : ℕ). n * 2 ^ 10)
          (bit_xor-mod 20 s t ∙ ap (bit_xor (s % 2 ^ 20)) {y = t} (omega arith))
        ∙ sym (shift-bit_xor 10 (s % 2 ^ 20) t))
    ∙ feed-bit_xor rs1024_gen 0 (s / 2 ^ 20) (s % 2 ^ 20 * 2 ^ 10) (t * 2 ^ 10)

-- The state stays within 30 bits.
abbrev IsState : ℕ → Type 0
IsState chk = chk < 2 ^ 30

feed-IsState :
    (gens : List ℕ) (i b chk : ℕ)
    → All IsState gens
    → IsState chk
    → IsState (rs1024_feed gens i b chk)
unfolding rs1024_feed
feed-IsState [] i b chk g h = h
feed-IsState (g ∷ gens) i b chk hg h =
    feed-IsState gens (i + 1) b _ hg.1 (bit_xor-lt 30 _ _ h (chosen (b / 2 ^ i % 2 == 1)))
  where
    chosen : (c : Bool) → IsState (if c then g else 0)
    chosen true = hg.0
    chosen false = omega arith

pub advance-lt : (chk : ℕ) → advance chk < 2 ^ 30
unfolding advance
advance-lt chk = feed-IsState rs1024_gen 0 (chk / 2 ^ 20) _ (omega arith) (omega arith)

pub rs1024_step-lt : (chk v : ℕ) → v < 1024 → rs1024_step chk v < 2 ^ 30
rs1024_step-lt chk v h =
    rw (rs1024_step-eq-advance chk v) (bit_xor-lt 30 _ _ (advance-lt chk) (omega arith))
