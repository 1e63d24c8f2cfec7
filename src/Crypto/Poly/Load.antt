-- ===== src/Crypto/Poly/Load.antt =====
-- How the limbs of src/wg_crypto_impl.c hold the number that 16 bytes stand for.
use Prim.Native.Nat.{bit_and, bit_or}
use polar_wg_app.Common.{
  ℕ, ◌+◌, ◌*◌, ◌/◌, ◌%◌, ◌^◌, ◌≤◌, ◌<◌, ◌≡◌, refl, ap, ◌∙◌, List, [], ◌∷◌, length, take, drop,
  get_or, length-take, drop_all, arith,
}
use polar_wg_app.Text.Base64.RoundTrip.{IsBytes}
use polar_wg_app.Crypto.Bytes.{get_or-bytes, get_or-drop, get_or-take, drop-drop}
use polar_wg_app.Session.Types.{le32}
use polar_wg_app.Crypto.Bits.{bit_or-shifted, bit_and-ones, bit_and-split, bit_and-le, bit_and-zero}
use polar_wg_app.Crypto.Poly.{Limbs, parts, mask26, clamped_limbs}

-- The number that a little-endian list of bytes stands for.
unfoldable pub le_value : List ℕ → ℕ
le_value [] = 0
le_value (b ∷ bs) = b + 256 * le_value bs

-- The number that five limbs stand for.
unfoldable pub value : Limbs → ℕ
value l = l.l0 + l.l1 * 2 ^ 26 + l.l2 * 2 ^ 52 + l.l3 * 2 ^ 78 + l.l4 * 2 ^ 104

pub mask26-mod : (n : ℕ) → mask26 n ≡ n % 2 ^ 26
mask26-mod n =
    ap (λ (t : ℕ). bit_and t 0x3ffffff) {x = n} {y = n % 2 ^ 26 + n / 2 ^ 26 * 2 ^ 26} (omega arith)
    ∙ bit_and-ones 26 (n % 2 ^ 26) (n / 2 ^ 26) 0x3ffffff (omega arith) (omega arith)

pub le32-lt : (xs : List ℕ) (i : ℕ) → IsBytes xs → le32 xs i < 2 ^ 32
le32-lt xs i h = omega (
  arith,
  get_or-bytes xs i h,
  get_or-bytes xs (i + 1) h,
  get_or-bytes xs (i + 2) h,
  get_or-bytes xs (i + 3) h,
)

pub le32-drop : (n i : ℕ) (xs : List ℕ) → le32 (drop n xs) i ≡ le32 xs (n + i)
le32-drop n i xs = omega (
  arith,
  get_or-drop n i xs,
  get_or-drop n (i + 1) xs,
  get_or-drop n (i + 2) xs,
  get_or-drop n (i + 3) xs,
  ap (λ k. get_or xs k 0) {x = n + (i + 1)} {y = n + i + 1} (omega arith),
  ap (λ k. get_or xs k 0) {x = n + (i + 2)} {y = n + i + 2} (omega arith),
  ap (λ k. get_or xs k 0) {x = n + (i + 3)} {y = n + i + 3} (omega arith),
)

le_value-word : (xs : List ℕ) → le_value xs ≡ le32 xs 0 + le_value (drop 4 xs) * 2 ^ 32
unfolding le_value
le_value-word [] = refl
le_value-word (a ∷ []) = omega arith
le_value-word (a ∷ b ∷ []) = omega arith
le_value-word (a ∷ b ∷ c ∷ []) = omega arith
le_value-word (a ∷ b ∷ c ∷ d ∷ r) = omega arith

le_value-four_words :
    (m : List ℕ)
    → le_value m
      ≡ le32 m 0
        + le32 m 4 * 2 ^ 32
        + le32 m 8 * 2 ^ 64
        + le32 m 12 * 2 ^ 96
        + le_value (drop 16 m) * 2 ^ 128
le_value-four_words m = omega (
  arith,
  le_value-word m,
  le_value-word (drop 4 m),
  le_value-word (drop 8 m),
  le_value-word (drop 12 m),
  le32-drop 4 0 m,
  le32-drop 8 0 m,
  le32-drop 12 0 m,
  ap le_value (drop-drop 4 4 m),
  ap le_value (drop-drop 4 8 m),
  ap le_value (drop-drop 4 12 m),
)

-- The words of a list of 16 bytes.
pub words_value :
    (m : List ℕ)
    → length m ≤ 16
    → le_value m ≡ le32 m 0 + le32 m 4 * 2 ^ 32 + le32 m 8 * 2 ^ 64 + le32 m 12 * 2 ^ 96
unfolding le_value
words_value m h = omega (arith, le_value-four_words m, ap le_value (drop_all 16 m h))

-- `r | (q << k)` where both are words and `r` has `k` bits.
pub or_shifted :
    (k j r q x : ℕ) → r < 2 ^ k → x ≡ q % 2 ^ j * 2 ^ k → bit_or r x ≡ r + q % 2 ^ j * 2 ^ k
or_shifted k j r q x h e = ap (bit_or r) e ∙ bit_or-shifted k r (q % 2 ^ j) h

-- The parts of 16 bytes, as sums.
pub parts_lem :
    (m : List ℕ)
    → IsBytes m
    → let t = parts m in
      (t.l1 ≡ le32 m 0 / 2 ^ 26 + le32 m 4 % 2 ^ 26 * 2 ^ 6)
      × (t.l2 ≡ le32 m 4 / 2 ^ 20 + le32 m 8 % 2 ^ 20 * 2 ^ 12)
      × (t.l3 ≡ le32 m 8 / 2 ^ 14 + le32 m 12 % 2 ^ 14 * 2 ^ 18)
unfolding parts
parts_lem m h = (
  or_shifted 6 26 (le32 m 0 / 2 ^ 26) (le32 m 4) _ (omega (arith, le32-lt m 0 h)) (omega arith),
  or_shifted 12 20 (le32 m 4 / 2 ^ 20) (le32 m 8) _ (omega (arith, le32-lt m 4 h)) (omega arith),
  or_shifted 18 14 (le32 m 8 / 2 ^ 14) (le32 m 12) _ (omega (arith, le32-lt m 8 h)) (omega arith),
)

-- The limbs of `r` fit 26 bits.
pub record IsSmall (l : Limbs) : Type 0 where
  pub b0 : l.l0 < 2 ^ 26
  pub b1 : l.l1 < 2 ^ 26
  pub b2 : l.l2 < 2 ^ 26
  pub b3 : l.l3 < 2 ^ 26
  pub b4 : l.l4 < 2 ^ 26

pub clamped_limbs-IsSmall : (key : List ℕ) → IsSmall (clamped_limbs key)
unfolding clamped_limbs
clamped_limbs-IsSmall key =
    let t = parts key in
    record {
      b0 = omega (arith, bit_and-le 26 t.l0 0x3ffffff (omega arith));
      b1 = omega (arith, bit_and-le 26 t.l1 0x3ffff03 (omega arith));
      b2 = omega (arith, bit_and-le 26 t.l2 0x3ffc0ff (omega arith));
      b3 = omega (arith, bit_and-le 26 t.l3 0x3f03fff (omega arith));
      b4 = omega (arith, bit_and-le 26 t.l4 0x00fffff (omega arith));
    }

-- The number that `poly1305_init` keeps of a key is the key's first half with the bits cleared that
-- RFC 8439 clears.
abbrev pub clamp_mask : ℕ
clamp_mask = 0x0ffffffc0ffffffc0ffffffc0fffffff

le32-take : (n i : ℕ) (xs : List ℕ) → i + 3 < n → le32 (take n xs) i ≡ le32 xs i
le32-take n i xs h = omega (
  arith,
  get_or-take n i xs (omega arith),
  get_or-take n (i + 1) xs (omega arith),
  get_or-take n (i + 2) xs (omega arith),
  get_or-take n (i + 3) xs (omega arith),
)

pub first_words :
    (key : List ℕ)
    → le_value (take 16 key)
      ≡ le32 key 0 + le32 key 4 * 2 ^ 32 + le32 key 8 * 2 ^ 64 + le32 key 12 * 2 ^ 96
first_words key = omega (
  arith,
  words_value (take 16 key) (omega (arith, length-take 16 key)),
  le32-take 16 0 key (omega arith),
  le32-take 16 4 key (omega arith),
  le32-take 16 8 key (omega arith),
  le32-take 16 12 key (omega arith),
)

-- `&` with a mask of 26 bits sees the low 26 bits.
and_low : (x m : ℕ) → m < 2 ^ 26 → bit_and x m ≡ bit_and (x % 2 ^ 26) m
and_low x m h =
    ap (λ (t : ℕ). bit_and t m) {x = x} {y = x % 2 ^ 26 + x / 2 ^ 26 * 2 ^ 26} (omega arith)
    ∙ ap (bit_and (x % 2 ^ 26 + x / 2 ^ 26 * 2 ^ 26)) {x = m} {y = m + 0 * 2 ^ 26} (omega arith)
    ∙ bit_and-split 26 (x % 2 ^ 26) (x / 2 ^ 26) m 0 (omega arith) h
    ∙ omega (arith, ap (λ (t : ℕ). t * 2 ^ 26) (bit_and-zero (x / 2 ^ 26)))

and_limb :
    (v c x q m n : ℕ)
    → v ≡ x + q * 2 ^ 26
    → c ≡ m + n * 2 ^ 26
    → x < 2 ^ 26
    → m < 2 ^ 26
    → bit_and v c ≡ bit_and x m + bit_and q n * 2 ^ 26
and_limb v c x q m n e f h l =
    ap (λ t. bit_and t c) e ∙ ap (bit_and (x + q * 2 ^ 26)) f ∙ bit_and-split 26 x q m n h l

-- 16 bytes as limbs.
pub key_limbs :
    (key : List ℕ)
    → IsBytes key
    → let t = parts key in
      le_value (take 16 key)
      ≡ t.l0 % 2 ^ 26
        + (t.l1 % 2 ^ 26 + (t.l2 % 2 ^ 26 + (t.l3 % 2 ^ 26 + t.l4 * 2 ^ 26) * 2 ^ 26) * 2 ^ 26)
          * 2 ^ 26
unfolding parts
key_limbs key h =
    let (e1, e2, e3) = parts_lem key h in
    omega (
      arith,
      first_words key,
      e1,
      e2,
      e3,
      le32-lt key 0 h,
      le32-lt key 4 h,
      le32-lt key 8 h,
      le32-lt key 12 h,
    )

pub value-clamped_limbs :
    (key : List ℕ)
    → IsBytes key
    → value (clamped_limbs key) ≡ bit_and (le_value (take 16 key)) clamp_mask
unfolding value clamped_limbs
value-clamped_limbs key h =
    let t = parts key in
    let x1 = t.l1 % 2 ^ 26 in
    let x2 = t.l2 % 2 ^ 26 in
    let x3 = t.l3 % 2 ^ 26 in
    let q3 = x3 + t.l4 * 2 ^ 26 in
    let q2 = x2 + q3 * 2 ^ 26 in
    let q1 = x1 + q2 * 2 ^ 26 in
    omega (
      arith,
      and_low t.l0 0x3ffffff (omega arith),
      and_low t.l1 0x3ffff03 (omega arith),
      and_low t.l2 0x3ffc0ff (omega arith),
      and_low t.l3 0x3f03fff (omega arith),
      and_limb q3 0x3ffffff03fff x3 t.l4 0x3f03fff 0xfffff (omega arith) (omega arith) (omega arith)
          (omega arith),
      and_limb q2 0xffffffc0ffffffc0ff x2 q3 0x3ffc0ff 0x3ffffff03fff (omega arith) (omega arith)
          (omega arith) (omega arith),
      and_limb q1 0x3ffffff03ffffff03ffffff03 x1 q2 0x3ffff03 0xffffffc0ffffffc0ff (omega arith)
          (omega arith) (omega arith) (omega arith),
      and_limb (le_value (take 16 key)) clamp_mask (t.l0 % 2 ^ 26) q1 0x3ffffff
          0x3ffffff03ffffff03ffffff03 (key_limbs key h) (omega arith) (omega arith) (omega arith),
    )
