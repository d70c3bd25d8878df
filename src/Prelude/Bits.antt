-- ===== src/Prelude/Bits.antt =====
-- Laws of Python's `^` (exclusive or) on numbers of any width, beside shifts and masks.
mod Step
use Prim.Native.Nat.{ℕ, zero, suc, ◌+◌, ◌*◌, ◌/◌, ◌%◌, ◌^◌, ◌<◌, bit_xor}
use mathlib.Core.Path.{◌≡◌, sym, ap, ap₂, ◌∙◌}
use mathlib.Core.WellFounded
use native.Mathlib.Nat.{
  pow-suc, one-le-pow, mod-lt, mod-eq_of_lt, div-add-mod', mul-add-div_right,
  mul-add-mod_self_right, div-eq_of_lt,
}
use native.Mathlib.Omega.{arith}
use lcsas.Prelude.Order.{lt_wf}
use Step.{bit_xor_step, zero-bit_xor_raw}
pub use Step.{bit_or-zero}

-- The laws go from `a / 2` to `a`, hence the strong induction, or a bound that falls.
pub bit_xor-zero : (a : ℕ) → bit_xor a 0 ≡ a
bit_xor-zero a = WellFounded.induction lt_wf {C = λ a. bit_xor a 0 ≡ a} a step
  where
    step : (n : ℕ) → ((m : ℕ) → m < n → bit_xor m 0 ≡ m) → bit_xor n 0 ≡ n
    step zero ih = omega (arith, bit_xor_step 0 0)
    step (suc n) ih = omega (arith, bit_xor_step (suc n) 0, ih (suc n / 2) (omega arith))

pub bit_xor_comm : (a b : ℕ) → bit_xor a b ≡ bit_xor b a
bit_xor_comm a = WellFounded.induction lt_wf {C = λ a. (b : ℕ) → bit_xor a b ≡ bit_xor b a} a step
  where
    step :
        (n : ℕ)
        → ((m : ℕ) → m < n → (b : ℕ) → bit_xor m b ≡ bit_xor b m)
        → (b : ℕ) → bit_xor n b ≡ bit_xor b n
    step zero ih b = omega (arith, bit_xor-zero b, bit_xor_step 0 b, zero-bit_xor_raw b)
    step (suc n) ih b = omega (
      arith,
      bit_xor_step (suc n) b,
      bit_xor_step b (suc n),
      ih (suc n / 2) (omega arith) (b / 2),
    )

pub zero-bit_xor : (b : ℕ) → bit_xor 0 b ≡ b
zero-bit_xor b = omega (arith, bit_xor-zero b, bit_xor_comm 0 b)

pub bit_xor_self : (a : ℕ) → bit_xor a a ≡ 0
bit_xor_self a = WellFounded.induction lt_wf {C = λ a. bit_xor a a ≡ 0} a step
  where
    step : (n : ℕ) → ((m : ℕ) → m < n → bit_xor m m ≡ 0) → bit_xor n n ≡ 0
    step zero ih = zero-bit_xor 0
    step (suc n) ih = omega (arith, bit_xor_step (suc n) (suc n), ih (suc n / 2) (omega arith))

-- Halving, and the lowest digit.
pub bit_xor-half : (a b : ℕ) → bit_xor a b / 2 ≡ bit_xor (a / 2) (b / 2)
bit_xor-half a b = omega (arith, bit_xor_step a b)

pub bit_xor-parity : (a b : ℕ) → bit_xor a b % 2 ≡ (a + b) % 2
bit_xor-parity a b = omega (arith, bit_xor_step a b)

-- Two numbers with the same half and parity are equal.
eq_of_half : (a b : ℕ) → a / 2 ≡ b / 2 → a % 2 ≡ b % 2 → a ≡ b
eq_of_half a b h k = omega arith

assoc_step :
    (a b c : ℕ)
    → bit_xor (bit_xor (a / 2) (b / 2)) (c / 2) ≡ bit_xor (a / 2) (bit_xor (b / 2) (c / 2))
    → bit_xor (bit_xor a b) c ≡ bit_xor a (bit_xor b c)
assoc_step a b c h =
    eq_of_half _ _
      (rw (bit_xor-half (bit_xor a b) c, bit_xor-half a b, bit_xor-half a (bit_xor b c))
        (rw (bit_xor-half b c) h))
      (omega (
        arith,
        bit_xor-parity a b,
        bit_xor-parity b c,
        bit_xor-parity (bit_xor a b) c,
        bit_xor-parity a (bit_xor b c),
      ))

pub bit_xor_assoc : (a b c : ℕ) → bit_xor (bit_xor a b) c ≡ bit_xor a (bit_xor b c)
bit_xor_assoc a =
    WellFounded.induction lt_wf
      {C = λ a. (b c : ℕ) → bit_xor (bit_xor a b) c ≡ bit_xor a (bit_xor b c)} a step
  where
    step :
        (n : ℕ)
        → ((m : ℕ) → m < n → (b c : ℕ) → bit_xor (bit_xor m b) c ≡ bit_xor m (bit_xor b c))
        → (b c : ℕ) → bit_xor (bit_xor n b) c ≡ bit_xor n (bit_xor b c)
    step zero ih b c = rw (zero-bit_xor b, zero-bit_xor (bit_xor b c))
    step (suc n) ih b c = assoc_step (suc n) b c (ih (suc n / 2) (omega arith) (b / 2) (c / 2))

-- Applying the same mask twice undoes it.
pub bit_xor_cancel : (a b : ℕ) → bit_xor (bit_xor a b) b ≡ a
bit_xor_cancel a b = rw (bit_xor_assoc a b b, bit_xor_self b, bit_xor-zero a)

pub bit_xor_cancel_left : (a b : ℕ) → bit_xor a (bit_xor a b) ≡ b
bit_xor_cancel_left a b = rw (← bit_xor_assoc a a b, bit_xor_self a, zero-bit_xor b)

pub bit_xor_left_comm : (a b c : ℕ) → bit_xor a (bit_xor b c) ≡ bit_xor b (bit_xor a c)
bit_xor_left_comm a b c = rw (← bit_xor_assoc a b c, bit_xor_comm a b, bit_xor_assoc b a c)

pub bit_xor_right_comm : (a b c : ℕ) → bit_xor (bit_xor a b) c ≡ bit_xor (bit_xor a c) b
bit_xor_right_comm a b c = rw (bit_xor_assoc a b c, bit_xor_comm b c, ← bit_xor_assoc a c b)

-- An equation between exclusive ors is an equation of the parts.
pub bit_xor_inj_right : (a b c : ℕ) → bit_xor a c ≡ bit_xor b c → a ≡ b
bit_xor_inj_right a b c h =
    cc (bit_xor_cancel a c, bit_xor_cancel b c, ap (λ (t : ℕ). bit_xor t c) h)

pub bit_xor_inj_left : (a b c : ℕ) → bit_xor c a ≡ bit_xor c b → a ≡ b
bit_xor_inj_left a b c h =
    cc (bit_xor_cancel_left c a, bit_xor_cancel_left c b, ap (λ (t : ℕ). bit_xor c t) h)

-- The operation keeps within a width, and goes through shifts and masks of it.
pub bit_xor-lt : (k a b : ℕ) → a < 2 ^ k → b < 2 ^ k → bit_xor a b < 2 ^ k
bit_xor-lt zero a b ha hb = rw (a0, b0) (omega (arith, zero-bit_xor 0))
  where
    a0 : a ≡ 0
    a0 = omega arith

    b0 : b ≡ 0
    b0 = omega arith
bit_xor-lt (suc k) a b ha hb = omega (
  arith,
  pow-suc 2 k,
  bit_xor_step a b,
  bit_xor-lt k (a / 2) (b / 2) (omega (arith, pow-suc 2 k)) (omega (arith, pow-suc 2 k)),
)

pub double-bit_xor : (a b : ℕ) → bit_xor (a * 2) (b * 2) ≡ bit_xor a b * 2
double-bit_xor a b =
    eq_of_half _ _
      (rw (bit_xor-half (a * 2) (b * 2), double_half a, double_half b, double_half (bit_xor a b)))
      (omega (arith, bit_xor-parity (a * 2) (b * 2)))
  where
    double_half : (n : ℕ) → n * 2 / 2 ≡ n
    double_half n = omega arith

pub shift-bit_xor : (k a b : ℕ) → bit_xor (a * 2 ^ k) (b * 2 ^ k) ≡ bit_xor a b * 2 ^ k
shift-bit_xor zero a b = rw (one a, one b, one (bit_xor a b))
  where
    one : (n : ℕ) → n * 2 ^ 0 ≡ n
    one n = omega arith
shift-bit_xor (suc k) a b =
    rw (regroup a, regroup b, regroup (bit_xor a b), double-bit_xor (a * 2 ^ k) (b * 2 ^ k))
      (ap (λ (t : ℕ). t * 2) (shift-bit_xor k a b))
  where
    regroup : (n : ℕ) → n * 2 ^ suc k ≡ n * 2 ^ k * 2
    regroup n = omega (arith, ap (λ (t : ℕ). n * t) (pow-suc 2 k))

-- A field below bit `k` beside a field above it: the exclusive or is the sum.
pub bit_xor_fields : (k q r : ℕ) → r < 2 ^ k → bit_xor (q * 2 ^ k) r ≡ q * 2 ^ k + r
bit_xor_fields zero q r h = rw (r0, bit_xor-zero (q * 2 ^ 0)) (omega arith)
  where
    r0 : r ≡ 0
    r0 = omega arith
bit_xor_fields (suc k) q r h =
    eq_of_half _ _
      (rw (bit_xor-half (q * 2 ^ suc k) r, half)
        (omega (arith, bit_xor_fields k q (r / 2) (omega (arith, pow-suc 2 k)), double)))
      (omega (arith, bit_xor-parity (q * 2 ^ suc k) r, double))
  where
    double : q * 2 ^ suc k ≡ q * 2 ^ k * 2
    double = omega (arith, ap (λ (t : ℕ). q * t) (pow-suc 2 k))

    half : q * 2 ^ suc k / 2 ≡ q * 2 ^ k
    half = omega (arith, double)

pub two-pow-pos : (k : ℕ) → 0 < 2 ^ k
two-pow-pos k = one-le-pow k 2 (omega arith)

split_at : (k a : ℕ) → a ≡ bit_xor (a / 2 ^ k * 2 ^ k) (a % 2 ^ k)
split_at k a =
    rw (bit_xor_fields k (a / 2 ^ k) (a % 2 ^ k) (mod-lt a (two-pow-pos k)))
      (sym (div-add-mod' a (2 ^ k)))

pub bit_xor_middle :
    (a b c d : ℕ) → bit_xor (bit_xor a b) (bit_xor c d) ≡ bit_xor (bit_xor a c) (bit_xor b d)
bit_xor_middle a b c d =
    rw (bit_xor_assoc a b (bit_xor c d), bit_xor_left_comm b c d, ← bit_xor_assoc a c (bit_xor b d))

pub bit_xor_split :
    (k a b : ℕ)
    → bit_xor a b ≡ bit_xor (a / 2 ^ k) (b / 2 ^ k) * 2 ^ k + bit_xor (a % 2 ^ k) (b % 2 ^ k)
bit_xor_split k a b =
    ap₂ bit_xor (split_at k a) (split_at k b)
    ∙ bit_xor_middle (a / 2 ^ k * 2 ^ k) (a % 2 ^ k) (b / 2 ^ k * 2 ^ k) (b % 2 ^ k)
    ∙ ap (λ (t : ℕ). bit_xor t (bit_xor (a % 2 ^ k) (b % 2 ^ k)))
        (shift-bit_xor k (a / 2 ^ k) (b / 2 ^ k))
    ∙ bit_xor_fields k _ _ (low_fits k a b)
  where
    low_fits : (k a b : ℕ) → bit_xor (a % 2 ^ k) (b % 2 ^ k) < 2 ^ k
    low_fits k a b = bit_xor-lt k _ _ (mod-lt a (two-pow-pos k)) (mod-lt b (two-pow-pos k))

module _ (k a b : ℕ) where
  low_fits : bit_xor (a % 2 ^ k) (b % 2 ^ k) < 2 ^ k
  low_fits = bit_xor-lt k _ _ (mod-lt a (two-pow-pos k)) (mod-lt b (two-pow-pos k))

  pub bit_xor-div : bit_xor a b / 2 ^ k ≡ bit_xor (a / 2 ^ k) (b / 2 ^ k)
  bit_xor-div =
      rw
        (
          bit_xor_split k a b,
          mul-add-div_right (two-pow-pos k) (bit_xor (a / 2 ^ k) (b / 2 ^ k))
              (bit_xor (a % 2 ^ k) (b % 2 ^ k)),
          div-eq_of_lt low_fits,
        )
        (omega arith)

  pub bit_xor-mod : bit_xor a b % 2 ^ k ≡ bit_xor (a % 2 ^ k) (b % 2 ^ k)
  bit_xor-mod =
      rw
        (
          bit_xor_split k a b,
          mul-add-mod_self_right (bit_xor (a / 2 ^ k) (b / 2 ^ k)) (2 ^ k)
              (bit_xor (a % 2 ^ k) (b % 2 ^ k)),
        )
        (mod-eq_of_lt low_fits)
