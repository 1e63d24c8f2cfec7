-- ===== src/Crypto/Poly/Block.antt =====
-- `poly1305_block` of src/wg_crypto_impl.c multiplies modulo 2 ^ 130 - 5, and no sum or product of it
-- wraps around.
use polar_wg_app.Common.{
  ℕ, ◌+◌, ◌*◌, ◌/◌, ◌%◌, ◌^◌, ◌≤◌, ◌<◌, ◌≡◌, ap, subst, sym, ◌∙◌, List, length, arith,
}
use polar_wg_app.Text.Base64.RoundTrip.{IsBytes}
use polar_wg_app.Crypto.Bits.{bit_or-shifted}
use polar_wg_app.Crypto.Poly.{Limbs, parts, mul32, absorb, products, carried, poly1305_block}
use polar_wg_app.Crypto.Poly.Load.{
  le_value, value, mask26-mod, le32-lt, words_value, first_words, key_limbs, IsSmall,
}
use polar_wg_app.Crypto.Poly.Carry.{
  prime, IsReduced, AreBounded, limbs_eq, moved, folded, carried-folded, moved-value,
  folded-IsReduced, moved-lt,
}

-- The accumulator with a block added.
record IsLoose (h : Limbs) : Type 0 where
  b0 : h.l0 < 2 ^ 27 + 2 ^ 6
  b1 : h.l1 < 2 ^ 27 + 2 ^ 6
  b2 : h.l2 < 2 ^ 27 + 2 ^ 6
  b3 : h.l3 < 2 ^ 27 + 2 ^ 6
  b4 : h.l4 < 2 ^ 27 + 2 ^ 6

part4-lt : (m : List ℕ) → IsBytes m → (parts m).l4 < 2 ^ 24
unfolding parts
part4-lt m h = omega (arith, le32-lt m 12 h)

absorb-value :
    (h : Limbs) (m : List ℕ) (b : ℕ)
    → IsReduced h
    → IsBytes m
    → length m ≤ 16
    → b ≤ 1
    → let a = absorb h m (b * 2 ^ 24) in (value a ≡ value h + le_value m + b * 2 ^ 128) × IsLoose a
unfolding absorb value
absorb-value h m b ok bytes n bit =
    let t = parts m in
    let e0 = mask26-mod t.l0 in
    let e1 = mask26-mod t.l1 in
    let e2 = mask26-mod t.l2 in
    let e3 = mask26-mod t.l3 in
    let small = part4-lt m bytes in
    let e4 = bit_or-shifted 24 t.l4 b small in
    (
      omega (
        arith,
        e0,
        e1,
        e2,
        e3,
        e4,
        small,
        ok.b0,
        ok.b1,
        ok.b2,
        ok.b3,
        ok.b4,
        words_value m n,
        first_words m,
        key_limbs m bytes,
      ),
      record {
        b0 = omega (arith, ok.b0, e0);
        b1 = omega (arith, ok.b1, e1);
        b2 = omega (arith, ok.b2, e2);
        b3 = omega (arith, ok.b3, e3);
        b4 = omega (arith, ok.b4, e4, small);
      },
    )

mul-lt : (a b c d : ℕ) → a < c → b < d → a * b ≤ c * d
mul-lt a b c d h k = grind arith

-- The multiple of the prime that the products leave out.
left_out : Limbs → Limbs → ℕ
left_out h r =
    (h.l1 * r.l4 + h.l2 * r.l3 + h.l3 * r.l2 + h.l4 * r.l1)
    + (h.l2 * r.l4 + h.l3 * r.l3 + h.l4 * r.l2) * 2 ^ 26
    + (h.l3 * r.l4 + h.l4 * r.l3) * 2 ^ 52
    + h.l4 * r.l4 * 2 ^ 78

-- One sum of five products.
sum_bound :
    (a b c d e x y z u v m : ℕ)
    → a < 2 ^ 27 + 2 ^ 6
    → b < 2 ^ 27 + 2 ^ 6
    → c < 2 ^ 27 + 2 ^ 6
    → d < 2 ^ 27 + 2 ^ 6
    → e < 2 ^ 27 + 2 ^ 6
    → x < m
    → y < m
    → z < m
    → u < m
    → v < m
    → a * x + b * y + c * z + d * u + e * v ≤ 5 * ((2 ^ 27 + 2 ^ 6) * m)
sum_bound a b c d e x y z u v m ha hb hc hd he hx hy hz hu hv = omega (
  arith,
  mul-lt a x (2 ^ 27 + 2 ^ 6) m ha hx,
  mul-lt b y (2 ^ 27 + 2 ^ 6) m hb hy,
  mul-lt c z (2 ^ 27 + 2 ^ 6) m hc hz,
  mul-lt d u (2 ^ 27 + 2 ^ 6) m hd hu,
  mul-lt e v (2 ^ 27 + 2 ^ 6) m he hv,
)

-- The products without wrap-around.
sums : Limbs → Limbs → Limbs
sums h r = record {
  l0 = h.l0 * r.l0 + h.l1 * (r.l4 * 5) + h.l2 * (r.l3 * 5) + h.l3 * (r.l2 * 5) + h.l4 * (r.l1 * 5);
  l1 = h.l0 * r.l1 + h.l1 * r.l0 + h.l2 * (r.l4 * 5) + h.l3 * (r.l3 * 5) + h.l4 * (r.l2 * 5);
  l2 = h.l0 * r.l2 + h.l1 * r.l1 + h.l2 * r.l0 + h.l3 * (r.l4 * 5) + h.l4 * (r.l3 * 5);
  l3 = h.l0 * r.l3 + h.l1 * r.l2 + h.l2 * r.l1 + h.l3 * r.l0 + h.l4 * (r.l4 * 5);
  l4 = h.l0 * r.l4 + h.l1 * r.l3 + h.l2 * r.l2 + h.l3 * r.l1 + h.l4 * r.l0;
}

sums-AreBounded : (h r : Limbs) → IsLoose h → IsSmall r → AreBounded (sums h r)
unfolding sums
sums-AreBounded h r a b =
    let s1 : r.l1 * 5 < 5 * 2 ^ 26 = omega (arith, b.b1) in
    let s2 : r.l2 * 5 < 5 * 2 ^ 26 = omega (arith, b.b2) in
    let s3 : r.l3 * 5 < 5 * 2 ^ 26 = omega (arith, b.b3) in
    let s4 : r.l4 * 5 < 5 * 2 ^ 26 = omega (arith, b.b4) in
    let r0 : r.l0 < 5 * 2 ^ 26 = omega (arith, b.b0) in
    let r1 : r.l1 < 5 * 2 ^ 26 = omega (arith, b.b1) in
    let r2 : r.l2 < 5 * 2 ^ 26 = omega (arith, b.b2) in
    let r3 : r.l3 < 5 * 2 ^ 26 = omega (arith, b.b3) in
    let bound : (x y z u v : ℕ)
        → x < 5 * 2 ^ 26
        → y < 5 * 2 ^ 26
        → z < 5 * 2 ^ 26
        → u < 5 * 2 ^ 26
        → v < 5 * 2 ^ 26
        → h.l0 * x + h.l1 * y + h.l2 * z + h.l3 * u + h.l4 * v
          ≤ 5 * ((2 ^ 27 + 2 ^ 6) * (5 * 2 ^ 26)) =
      λ x y z u v.
        sum_bound h.l0 h.l1 h.l2 h.l3 h.l4 x y z u v (5 * 2 ^ 26) a.b0 a.b1 a.b2 a.b3 a.b4 in
    record {
      b0 = omega (arith, bound r.l0 (r.l4 * 5) (r.l3 * 5) (r.l2 * 5) (r.l1 * 5) r0 s4 s3 s2 s1);
      b1 = omega (arith, bound r.l1 r.l0 (r.l4 * 5) (r.l3 * 5) (r.l2 * 5) r1 r0 s4 s3 s2);
      b2 = omega (arith, bound r.l2 r.l1 r.l0 (r.l4 * 5) (r.l3 * 5) r2 r1 r0 s4 s3);
      b3 = omega (arith, bound r.l3 r.l2 r.l1 r.l0 (r.l4 * 5) r3 r2 r1 r0 s4);
      b4 =
          sum_bound h.l0 h.l1 h.l2 h.l3 h.l4 r.l4 r.l3 r.l2 r.l1 r.l0 (2 ^ 26) a.b0 a.b1 a.b2 a.b3
            a.b4 b.b4 b.b3 b.b2 b.b1 b.b0;
    }

mul32-small : (a : ℕ) → a < 2 ^ 26 → mul32 a 5 ≡ a * 5
mul32-small a h = omega arith

products-sums : (h r : Limbs) → IsLoose h → IsSmall r → products h r ≡ sums h r
unfolding products sums
products-sums h r a b =
    let t1 = mul32-small r.l1 b.b1 in
    let t2 = mul32-small r.l2 b.b2 in
    let t3 = mul32-small r.l3 b.b3 in
    let t4 = mul32-small r.l4 b.b4 in
    let k = sums-AreBounded h r a b in
    limbs_eq
      (omega (
        arith,
        k.b0,
        ap (λ t. h.l1 * t) t4,
        ap (λ t. h.l2 * t) t3,
        ap (λ t. h.l3 * t) t2,
        ap (λ t. h.l4 * t) t1,
      ))
      (omega (arith, k.b1, ap (λ t. h.l2 * t) t4, ap (λ t. h.l3 * t) t3, ap (λ t. h.l4 * t) t2))
      (omega (arith, k.b2, ap (λ t. h.l3 * t) t4, ap (λ t. h.l4 * t) t3))
      (omega (arith, k.b3, ap (λ t. h.l4 * t) t4)) (omega (arith, k.b4))

sums-value : (h r : Limbs) → value (sums h r) + prime * left_out h r ≡ value h * value r
unfolding value sums left_out
sums-value h r = grind arith

multiple : (v x c n : ℕ) → v + prime * c + prime * x ≡ n → v % prime ≡ n % prime
multiple v x c n e = omega (arith, e)

pub poly1305_block-IsReduced :
    (r h : Limbs) (m : List ℕ) (b : ℕ)
    → IsSmall r
    → IsReduced h
    → IsBytes m
    → length m ≤ 16
    → b ≤ 1
    → IsReduced (poly1305_block r h m (b * 2 ^ 24))
unfolding poly1305_block
poly1305_block-IsReduced r h m b small ok bytes n bit =
    let a = absorb h m (b * 2 ^ 24) in
    let loose = (absorb-value h m b ok bytes n bit).1 in
    let bounded = sums-AreBounded a r loose small in
    subst IsReduced
      (sym (ap carried (products-sums a r loose small) ∙ carried-folded (sums a r) bounded))
      (folded-IsReduced (moved (sums a r)) (moved-lt (sums a r) bounded))

-- A block is added to the accumulator with the bit `b` above its 16 bytes, and the sum is multiplied
-- by `r`.
pub value-poly1305_block :
    (r h : Limbs) (m : List ℕ) (b : ℕ)
    → IsSmall r
    → IsReduced h
    → IsBytes m
    → length m ≤ 16
    → b ≤ 1
    → value (poly1305_block r h m (b * 2 ^ 24)) % prime
      ≡ (value h + le_value m + b * 2 ^ 128) * value r % prime
unfolding poly1305_block
value-poly1305_block r h m b small ok bytes n bit =
    let a = absorb h m (b * 2 ^ 24) in
    let (e, loose) = absorb-value h m b ok bytes n bit in
    let bounded = sums-AreBounded a r loose small in
    let block : poly1305_block r h m (b * 2 ^ 24) ≡ folded (moved (sums a r)) =
      ap carried (products-sums a r loose small) ∙ carried-folded (sums a r) bounded in
    multiple (value (poly1305_block r h m (b * 2 ^ 24))) (left_out a r)
      ((moved (sums a r)).l4 / 2 ^ 26) _
      (omega (arith, ap value block, moved-value (sums a r), sums-value a r)
        ∙ ap (λ t. t * value r) e)
