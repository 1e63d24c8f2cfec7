-- ===== src/Crypto/Poly/Carry.antt =====
-- The carries of `poly1305_block` of src/wg_crypto_impl.c.
use polar_wg_app.Common.{ℕ, ◌+◌, ◌*◌, ◌/◌, ◌%◌, ◌^◌, ◌≤◌, ◌<◌, ◌≡◌, ◌∙◌, arith}
use polar_wg_app.Crypto.Chacha.{add32}
use polar_wg_app.Crypto.Poly.{Limbs, mask26, add64, carried}
use polar_wg_app.Crypto.Poly.Load.{value, mask26-mod}

-- 2 ^ 130 - 5
abbrev pub prime : ℕ
prime = 1361129467683753853853498429727072845819

-- The accumulator between two blocks.
pub record IsReduced (h : Limbs) : Type 0 where
  pub b0 : h.l0 < 2 ^ 26
  pub b1 : h.l1 < 2 ^ 26 + 2 ^ 6
  pub b2 : h.l2 < 2 ^ 26
  pub b3 : h.l3 < 2 ^ 26
  pub b4 : h.l4 < 2 ^ 26

-- The products fit 64 bits with room for the carries, and the last has room to be taken times 5.
pub record AreBounded (d : Limbs) : Type 0 where
  pub b0 : d.l0 < 2 ^ 60
  pub b1 : d.l1 < 2 ^ 60
  pub b2 : d.l2 < 2 ^ 60
  pub b3 : d.l3 < 2 ^ 60
  pub b4 : d.l4 ≤ 5 * ((2 ^ 27 + 2 ^ 6) * 2 ^ 26)

pub limbs_eq :
    {a b : Limbs} → a.l0 ≡ b.l0 → a.l1 ≡ b.l1 → a.l2 ≡ b.l2 → a.l3 ≡ b.l3 → a.l4 ≡ b.l4 → a ≡ b
limbs_eq e0 e1 e2 e3 e4 = λ i. record { l0 = e0 i; l1 = e1 i; l2 = e2 i; l3 = e3 i; l4 = e4 i }

-- The carries without wrap-around.
pub moved : Limbs → Limbs
moved d =
    let d1 = d.l1 + d.l0 / 2 ^ 26 in
    let d2 = d.l2 + d1 / 2 ^ 26 in
    let d3 = d.l3 + d2 / 2 ^ 26 in
    record { l0 = d.l0; l1 = d1; l2 = d2; l3 = d3; l4 = d.l4 + d3 / 2 ^ 26 }

pub folded : Limbs → Limbs
folded d =
    let h0 = d.l0 % 2 ^ 26 + d.l4 / 2 ^ 26 * 5 in
    record {
      l0 = h0 % 2 ^ 26;
      l1 = d.l1 % 2 ^ 26 + h0 / 2 ^ 26;
      l2 = d.l2 % 2 ^ 26;
      l3 = d.l3 % 2 ^ 26;
      l4 = d.l4 % 2 ^ 26;
    }

low_limb : (n : ℕ) → mask26 (n % 2 ^ 32) ≡ n % 2 ^ 26
low_limb n = omega (arith, mask26-mod (n % 2 ^ 32))

pub carried-folded : (d : Limbs) → AreBounded d → carried d ≡ folded (moved d)
unfolding carried folded moved
carried-folded d h =
    let d1 = add64 d.l1 (d.l0 / 2 ^ 26) in
    let d2 = add64 d.l2 (d1 / 2 ^ 26) in
    let d3 = add64 d.l3 (d2 / 2 ^ 26) in
    let d4 = add64 d.l4 (d3 / 2 ^ 26) in
    let h0 = add32 (mask26 (d.l0 % 2 ^ 32)) (d4 / 2 ^ 26 * 5 % 2 ^ 64 % 2 ^ 32) in
    let w1 : d1 ≡ d.l1 + d.l0 / 2 ^ 26 = omega (arith, h.b0, h.b1) in
    let w2 : d2 ≡ d.l2 + d1 / 2 ^ 26 = omega (arith, h.b2) in
    let w3 : d3 ≡ d.l3 + d2 / 2 ^ 26 = omega (arith, h.b3) in
    let w4 : d4 ≡ d.l4 + d3 / 2 ^ 26 = omega (arith, h.b4) in
    let v2 : d2 ≡ d.l2 + (d.l1 + d.l0 / 2 ^ 26) / 2 ^ 26 = omega (arith, w1, w2) in
    let v3 : d3 ≡ d.l3 + (d.l2 + (d.l1 + d.l0 / 2 ^ 26) / 2 ^ 26) / 2 ^ 26 =
      omega (arith, v2, w3) in
    let v4 : d4 ≡ d.l4 + (d.l3 + (d.l2 + (d.l1 + d.l0 / 2 ^ 26) / 2 ^ 26) / 2 ^ 26) / 2 ^ 26 =
      omega (arith, v3, w4) in
    let w0 : h0 ≡ d.l0 % 2 ^ 26 + d4 / 2 ^ 26 * 5 = omega (arith, low_limb d.l0, w4, h.b4) in
    limbs_eq (mask26-mod h0 ∙ omega (arith, w0, v4))
      (omega (arith, low_limb d1, w0, w1, v4, w4, h.b4)) (low_limb d2 ∙ omega (arith, v2))
      (low_limb d3 ∙ omega (arith, v3)) (low_limb d4 ∙ omega (arith, v4))

pub moved-value :
    (d : Limbs) → (value (folded (moved d)) + prime * ((moved d).l4 / 2 ^ 26) ≡ value d)
unfolding folded moved value
moved-value d = omega arith

pub folded-IsReduced : (d : Limbs) → d.l4 < 5 * (2 ^ 27 + 2 ^ 7) * 2 ^ 26 → IsReduced (folded d)
unfolding folded
folded-IsReduced d h = record {
  b0 = omega arith;
  b1 = omega arith;
  b2 = omega arith;
  b3 = omega arith;
  b4 = omega arith;
}

pub moved-lt : (d : Limbs) → AreBounded d → (moved d).l4 < 5 * (2 ^ 27 + 2 ^ 7) * 2 ^ 26
unfolding moved
moved-lt d h = omega (arith, h.b0, h.b1, h.b2, h.b3, h.b4)
