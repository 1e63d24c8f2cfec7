-- ===== src/Crypto/Bits.antt =====
-- Laws of the bit operations of C on unsigned words, used by src/wg_crypto_impl.c.
use Prim.Native.Nat.{
  max, differ, digits, bitwise, bit_and, bit_or, bit_xor, bit_and-bitwise, bit_or-bitwise,
  bit_xor-bitwise,
}
use native.Mathlib.Nat.{pow-suc}
use polar_wg_app.Common.{
  ℕ, zero, suc, ◌+◌, ◌-◌, ◌*◌, ◌/◌, ◌%◌, ◌^◌, ◌≤◌, ◌<◌, ◌≡◌, refl, ap, sym, subst, ◌∙◌, min, arith,
}

-- An operation `op` that works digit by digit, as `f` does on two digits and `z` on what is left of its
-- second argument when the first is 0.
module _ (op f : ℕ → ℕ → ℕ) (z : ℕ → ℕ) (meaning : (a b : ℕ) → op a b ≡ bitwise z f a b)
    (at_zero : (b : ℕ) → z b ≡ z (b / 2) * 2 + f 0 (b % 2)) where
  one_more : (fuel a b : ℕ) → a ≤ fuel → digits z f (suc fuel) a b ≡ digits z f fuel a b
  one_more zero a b h =
      let e : 0 ≡ a = omega arith in subst (λ x. digits z f 1 x b ≡ digits z f 0 x b) e refl
  one_more (suc fuel) zero b h = refl
  one_more (suc fuel) (suc a) b h =
      ap (λ x. x * 2 + f (suc a % 2) (b % 2)) (one_more fuel (suc a / 2) (b / 2) (omega arith))

  spare : (k fuel a b : ℕ) → a ≤ fuel → digits z f (fuel + k) a b ≡ digits z f fuel a b
  spare zero fuel a b h = ap (λ x. digits z f x a b) (omega arith)
  spare (suc k) fuel a b h =
      ap (λ x. digits z f x a b) {y = suc (fuel + k)} (omega arith)
      ∙ one_more (fuel + k) a b (omega arith)
      ∙ spare k fuel a b h

  digit_law : (a b : ℕ) → op a b ≡ op (a / 2) (b / 2) * 2 + f (a % 2) (b % 2)
  digit_law zero b =
      meaning 0 b ∙ at_zero b ∙ ap (λ x. x * 2 + f 0 (b % 2)) (sym (meaning 0 (b / 2)))
  digit_law (suc a) b =
      let half = suc a / 2 in
      meaning (suc a) b
      ∙ ap (λ x. x * 2 + f (suc a % 2) (b % 2))
          (ap (λ x. digits z f x half (b / 2)) {y = half + (a - half)} (omega arith)
            ∙ spare (a - half) half half (b / 2) (omega arith)
            ∙ sym (meaning half (b / 2)))

bit_and_step : (a b : ℕ) → bit_and a b ≡ bit_and (a / 2) (b / 2) * 2 + min (a % 2) (b % 2)
bit_and_step a b = digit_law bit_and min (λ _. 0) bit_and-bitwise (λ b. omega arith) a b

bit_or_step : (a b : ℕ) → bit_or a b ≡ bit_or (a / 2) (b / 2) * 2 + max (a % 2) (b % 2)
bit_or_step a b = digit_law bit_or max (λ y. y) bit_or-bitwise (λ b. omega arith) a b

bit_xor_step : (a b : ℕ) → bit_xor a b ≡ bit_xor (a / 2) (b / 2) * 2 + differ (a % 2) (b % 2)
bit_xor_step a b = digit_law bit_xor differ (λ y. y) bit_xor-bitwise (λ b. omega arith) a b

-- The facts about binary digits, one case each.
digit_differ : (a b : ℕ) → a < 2 → b < 2 → differ (differ a b) b ≡ a
digit_differ zero zero h k = refl
digit_differ zero (suc zero) h k = refl
digit_differ (suc zero) zero h k = refl
digit_differ (suc zero) (suc zero) h k = refl
digit_differ (suc (suc a)) b h k = absurd (omega arith)
digit_differ a (suc (suc b)) h k = absurd (omega arith)

differ-lt : (a b : ℕ) → a < 2 → b < 2 → differ a b < 2
differ-lt zero b h k = k
differ-lt (suc zero) zero h k = omega arith
differ-lt (suc zero) (suc zero) h k = omega arith
differ-lt (suc (suc a)) b h k = absurd (omega arith)
differ-lt a (suc (suc b)) h k = absurd (omega arith)

differ_zero : (a b : ℕ) → a < 2 → b < 2 → differ a b ≡ 0 → a ≡ b
differ_zero zero zero h k e = refl
differ_zero zero (suc b) h k e = absurd (omega (arith, e))
differ_zero (suc zero) zero h k e = absurd (omega (arith, e))
differ_zero (suc zero) (suc zero) h k e = refl
differ_zero (suc (suc a)) b h k e = absurd (omega arith)
differ_zero a (suc (suc b)) h k e = absurd (omega arith)

double : (q k : ℕ) → q * 2 ^ suc k ≡ 2 * (q * 2 ^ k)
double q k = omega (arith, ap (λ (t : ℕ). q * t) (pow-suc 2 k))

zero-bit_and : (b : ℕ) → bit_and 0 b ≡ 0
zero-bit_and b = bit_and-bitwise 0 b

pub zero-bit_or : (b : ℕ) → bit_or 0 b ≡ b
zero-bit_or b = bit_or-bitwise 0 b

-- `r | (q << k)` is a sum where `r` has `k` bits.
pub bit_or-shifted : (k r q : ℕ) → r < 2 ^ k → bit_or r (q * 2 ^ k) ≡ r + q * 2 ^ k
bit_or-shifted zero r q h = ground (arith, zero-bit_or (q * 1))
bit_or-shifted (suc k) r q h =
    ground
      (arith, bit_or_step r (q * 2 ^ suc k), double q k, pow-suc 2 k, bit_or-shifted k (r / 2) q)

-- `&` works on the low `k` bits and on the rest apart.
pub bit_and-split :
    (k a b m n : ℕ)
    → a < 2 ^ k
    → m < 2 ^ k
    → bit_and (a + b * 2 ^ k) (m + n * 2 ^ k) ≡ bit_and a m + bit_and b n * 2 ^ k
bit_and-split zero zero b zero n h l = ground arith
bit_and-split zero (suc a) b m n h l = absurd (omega arith)
bit_and-split zero a b (suc m) n h l = absurd (omega arith)
bit_and-split (suc k) a b m n h l = ground (
  arith,
  bit_and_step (a + b * 2 ^ suc k) (m + n * 2 ^ suc k),
  bit_and_step a m,
  double b k,
  double n k,
  double (bit_and b n) k,
  pow-suc 2 k,
  bit_and-split k (a / 2) b (m / 2) n,
)

bit_and-zero_bounded : (bound a : ℕ) → a ≤ bound → bit_and a 0 ≡ 0
bit_and-zero_bounded zero a h =
    let e : 0 ≡ a = omega arith in subst (λ x. bit_and x 0 ≡ 0) e (bit_and-bitwise 0 0)
bit_and-zero_bounded (suc bound) a h =
    omega (arith, bit_and_step a 0, bit_and-zero_bounded bound (a / 2) (omega arith))

pub bit_and-zero : (a : ℕ) → bit_and a 0 ≡ 0
bit_and-zero a = bit_and-zero_bounded a a (omega arith)

pub bit_and-le : (k a m : ℕ) → m < 2 ^ k → bit_and a m ≤ m
bit_and-le zero a zero h = omega (arith, bit_and-zero a)
bit_and-le zero a (suc m) h = absurd (omega arith)
bit_and-le (suc k) a m h = omega (
  arith,
  bit_and_step a m,
  pow-suc 2 k,
  bit_and-le k (a / 2) (m / 2) (omega (arith, pow-suc 2 k)),
)

bit_and_full : (k r m : ℕ) → r < 2 ^ k → m + 1 ≡ 2 ^ k → bit_and r m ≡ r
bit_and_full zero zero m h l = zero-bit_and m
bit_and_full zero (suc r) m h l = absurd (omega arith)
bit_and_full (suc k) r m h l = omega (
  arith,
  bit_and_step r m,
  pow-suc 2 k,
  bit_and_full k (r / 2) (m / 2) (omega (arith, pow-suc 2 k)) (omega (arith, l, pow-suc 2 k)),
)

-- `&` with a mask of ones keeps the low bits.
pub bit_and-ones : (k r q m : ℕ) → r < 2 ^ k → m + 1 ≡ 2 ^ k → bit_and (r + q * 2 ^ k) m ≡ r
bit_and-ones k r q m h l = omega (
  arith,
  bit_and-split k r q m 0 h (omega (arith, l)),
  ap (λ (t : ℕ). bit_and (r + q * 2 ^ k) t) {x = m + 0 * 2 ^ k} {y = m} (omega arith),
  bit_and_full k r m h l,
  ap (λ (t : ℕ). t * 2 ^ k) (bit_and-zero q),
)

-- `^` digit by digit.
xor_half : (a b : ℕ) → bit_xor a b / 2 ≡ bit_xor (a / 2) (b / 2)
xor_half a b =
    omega (arith, bit_xor_step a b, differ-lt (a % 2) (b % 2) (omega arith) (omega arith))

xor_digit : (a b : ℕ) → bit_xor a b % 2 ≡ differ (a % 2) (b % 2)
xor_digit a b =
    omega (arith, bit_xor_step a b, differ-lt (a % 2) (b % 2) (omega arith) (omega arith))

pub bit_xor-lt : (k a b : ℕ) → a < 2 ^ k → b < 2 ^ k → bit_xor a b < 2 ^ k
bit_xor-lt zero zero zero h l = omega arith
bit_xor-lt zero (suc a) b h l = absurd (omega arith)
bit_xor-lt zero a (suc b) h l = absurd (omega arith)
bit_xor-lt (suc k) a b h l = omega (
  arith,
  xor_half a b,
  pow-suc 2 k,
  bit_xor-lt k (a / 2) (b / 2) (omega (arith, pow-suc 2 k)) (omega (arith, pow-suc 2 k)),
)

-- `^` with the same bits twice gives back what was there.
pub bit_xor-cancel : (k a b : ℕ) → a < 2 ^ k → b < 2 ^ k → bit_xor (bit_xor a b) b ≡ a
bit_xor-cancel zero zero zero h l = refl
bit_xor-cancel zero (suc a) b h l = absurd (omega arith)
bit_xor-cancel zero a (suc b) h l = absurd (omega arith)
bit_xor-cancel (suc k) a b h l = ground (
  arith,
  bit_xor_step (bit_xor a b) b,
  xor_half a b,
  xor_digit a b,
  digit_differ (a % 2) (b % 2),
  pow-suc 2 k,
  bit_xor-cancel k (a / 2) (b / 2),
)

-- Words that differ in no bit are equal.
pub bit_xor-zero : (k a b : ℕ) → a < 2 ^ k → b < 2 ^ k → bit_xor a b ≡ 0 → a ≡ b
bit_xor-zero zero a b h l e = omega arith
bit_xor-zero (suc k) a b h l e = ground (
  arith,
  xor_half a b,
  xor_digit a b,
  differ_zero (a % 2) (b % 2),
  pow-suc 2 k,
  bit_xor-zero k (a / 2) (b / 2),
)

differ_self : (a : ℕ) → differ a a ≡ 0
differ_self zero = refl
differ_self (suc a) = differ_self a

pub bit_xor_self : (k a : ℕ) → a < 2 ^ k → bit_xor a a ≡ 0
bit_xor_self zero a h = let e : a ≡ 0 = omega arith in rw e refl
bit_xor_self (suc k) a h = omega (
  arith,
  bit_xor_step a a,
  differ_self (a % 2),
  pow-suc 2 k,
  bit_xor_self k (a / 2) (omega (arith, pow-suc 2 k)),
)

-- `|` gives 0 for zeros alone.
pub bit_or-zero : (k a b : ℕ) → a < 2 ^ k → b < 2 ^ k → bit_or a b ≡ 0 → (a ≡ 0) × (b ≡ 0)
bit_or-zero zero a b h l e = omega arith
bit_or-zero (suc k) a b h l e =
    ground (arith, bit_or_step a b, pow-suc 2 k, bit_or-zero k (a / 2) (b / 2))

pub bit_or-lt : (k a b : ℕ) → a < 2 ^ k → b < 2 ^ k → bit_or a b < 2 ^ k
bit_or-lt zero zero zero h l = omega arith
bit_or-lt zero (suc a) b h l = absurd (omega arith)
bit_or-lt zero a (suc b) h l = absurd (omega arith)
bit_or-lt (suc k) a b h l = omega (
  arith,
  bit_or_step a b,
  pow-suc 2 k,
  bit_or-lt k (a / 2) (b / 2) (omega (arith, pow-suc 2 k)) (omega (arith, pow-suc 2 k)),
)
