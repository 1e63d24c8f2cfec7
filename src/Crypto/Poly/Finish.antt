-- ===== src/Crypto/Poly/Finish.antt =====
-- `poly1305_finish` of src/wg_crypto_impl.c: the accumulator modulo 2 ^ 130 - 5, and its sum with the
-- second half of the key as 16 bytes.
use Prim.Native.Nat.{bit_and, bit_or}
use polar_wg_app.Common.{
  ℕ, ◌+◌, ◌-◌, ◌*◌, ◌/◌, ◌%◌, ◌^◌, ◌≤◌, ◌<◌, ◌≡◌, ◌⊎◌, inl, inr, ap, ap₂, subst, sym, ◌∙◌, arith,
}
use polar_wg_app.Crypto.Bits.{bit_or-shifted, bit_and-ones, bit_and-zero, zero-bit_or}
use polar_wg_app.Crypto.Chacha.{add32}
use polar_wg_app.Crypto.Poly.{Limbs, mul32, settled, minus_p, select, chosen}
use polar_wg_app.Crypto.Poly.Load.{value, mask26-mod, IsSmall}
use polar_wg_app.Crypto.Poly.Carry.{prime, IsReduced, limbs_eq}

-- The carries of `settled` without wrap-around.
full_carry : Limbs → ℕ
full_carry h = (h.l4 + (h.l3 + (h.l2 + h.l1 / 2 ^ 26) / 2 ^ 26) / 2 ^ 26) / 2 ^ 26

exact : Limbs → Limbs
exact h =
    let a2 = h.l2 + h.l1 / 2 ^ 26 in
    let a3 = h.l3 + a2 / 2 ^ 26 in
    let a4 = h.l4 + a3 / 2 ^ 26 in
    let a0 = h.l0 + a4 / 2 ^ 26 * 5 in
    record {
      l0 = a0 % 2 ^ 26;
      l1 = h.l1 % 2 ^ 26 + a0 / 2 ^ 26;
      l2 = a2 % 2 ^ 26;
      l3 = a3 % 2 ^ 26;
      l4 = a4 % 2 ^ 26;
    }

settled-exact : (h : Limbs) → IsReduced h → settled h ≡ exact h
unfolding settled exact full_carry
settled-exact h ok =
    let a2 = add32 h.l2 (h.l1 / 2 ^ 26) in
    let a3 = add32 h.l3 (a2 / 2 ^ 26) in
    let a4 = add32 h.l4 (a3 / 2 ^ 26) in
    let a0 = add32 h.l0 (mul32 (a4 / 2 ^ 26) 5) in
    let w2 : a2 ≡ h.l2 + h.l1 / 2 ^ 26 = omega (arith, ok.b1, ok.b2) in
    let w3 : a3 ≡ h.l3 + (h.l2 + h.l1 / 2 ^ 26) / 2 ^ 26 = omega (arith, w2, ok.b3) in
    let w4 : a4 ≡ h.l4 + (h.l3 + (h.l2 + h.l1 / 2 ^ 26) / 2 ^ 26) / 2 ^ 26 =
      omega (arith, w3, ok.b4) in
    let w0 : a0 ≡ h.l0 + full_carry h * 5 = omega (arith, w4, ok.b0, ok.b4) in
    limbs_eq (mask26-mod a0 ∙ omega (arith, w0)) (omega (arith, mask26-mod h.l1, w0))
      (mask26-mod a2 ∙ omega (arith, w2)) (mask26-mod a3 ∙ omega (arith, w3))
      (mask26-mod a4 ∙ omega (arith, w4))

exact-IsSmall : (h : Limbs) → IsReduced h → IsSmall (exact h)
unfolding exact
exact-IsSmall h ok = record {
  b0 = omega arith;
  b1 = omega (arith, ok.b0, ok.b1, ok.b2, ok.b3, ok.b4);
  b2 = omega arith;
  b3 = omega arith;
  b4 = omega arith;
}

value-exact : (h : Limbs) → value (exact h) + prime * full_carry h ≡ value h
unfolding exact value full_carry
value-exact h = omega arith

-- What the accumulator is modulo the prime.
pub settled-value :
    (h : Limbs) → IsReduced h → (value (settled h) % prime ≡ value h % prime) × IsSmall (settled h)
settled-value h ok =
    let e = sym (settled-exact h ok) in
    (omega (arith, value-exact h, ap value e), subst IsSmall e (exact-IsSmall h ok))

-- `h + 5`, with its carry out of the last limb apart.
over : Limbs → ℕ
over h = (h.l4 + (h.l3 + (h.l2 + (h.l1 + (h.l0 + 5) / 2 ^ 26) / 2 ^ 26) / 2 ^ 26) / 2 ^ 26) / 2 ^ 26

less_p : Limbs → Limbs
less_p h =
    let g1 = h.l1 + (h.l0 + 5) / 2 ^ 26 in
    let g2 = h.l2 + g1 / 2 ^ 26 in
    let g3 = h.l3 + g2 / 2 ^ 26 in
    record {
      l0 = (h.l0 + 5) % 2 ^ 26;
      l1 = g1 % 2 ^ 26;
      l2 = g2 % 2 ^ 26;
      l3 = g3 % 2 ^ 26;
      l4 = (h.l4 + g3 / 2 ^ 26 + 2 ^ 32 - 2 ^ 26) % 2 ^ 32;
    }

minus_p-less : (h : Limbs) → IsSmall h → minus_p h ≡ less_p h
unfolding minus_p less_p
minus_p-less h ok =
    let g0 = add32 h.l0 5 in
    let g1 = add32 h.l1 (g0 / 2 ^ 26) in
    let g2 = add32 h.l2 (g1 / 2 ^ 26) in
    let g3 = add32 h.l3 (g2 / 2 ^ 26) in
    let w0 : g0 ≡ h.l0 + 5 = omega (arith, ok.b0) in
    let w1 : g1 ≡ h.l1 + (h.l0 + 5) / 2 ^ 26 = omega (arith, w0, ok.b1) in
    let w2 : g2 ≡ h.l2 + (h.l1 + (h.l0 + 5) / 2 ^ 26) / 2 ^ 26 = omega (arith, w1, ok.b2) in
    let w3 : g3 ≡ h.l3 + (h.l2 + (h.l1 + (h.l0 + 5) / 2 ^ 26) / 2 ^ 26) / 2 ^ 26 =
      omega (arith, w2, ok.b3) in
    limbs_eq (mask26-mod g0 ∙ omega (arith, w0)) (mask26-mod g1 ∙ omega (arith, w1))
      (mask26-mod g2 ∙ omega (arith, w2)) (mask26-mod g3 ∙ omega (arith, w3))
      (omega (arith, w3, ok.b4))

and_ones : (g : ℕ) → g < 2 ^ 32 → bit_and g (2 ^ 32 - 1) ≡ g
and_ones g k =
    ap (λ (t : ℕ). bit_and t (2 ^ 32 - 1)) {x = g} {y = g + 0 * 2 ^ 32} (omega arith)
    ∙ bit_and-ones 32 g 0 (2 ^ 32 - 1) k (omega arith)

-- A word under the mask of ones and under that of zeros.
select-ones : (m h g : ℕ) → g < 2 ^ 32 → m ≡ 2 ^ 32 - 1 → select m h g ≡ g
select-ones m h g k e =
    ap (λ (t : ℕ). select t h g) e ∙ ap₂ bit_or (bit_and-zero h) (and_ones g k) ∙ zero-bit_or g

select-zero : (m h g : ℕ) → h < 2 ^ 32 → m ≡ 0 → select m h g ≡ h
select-zero m h g k e =
    ap (λ (t : ℕ). select t h g) e
    ∙ ap₂ bit_or (and_ones h k) (bit_and-zero g)
    ∙ bit_or-shifted 32 h 0 k
    ∙ omega arith

abbrev choice_mask : Limbs → ℕ
choice_mask g = (g.l4 / 2 ^ 31 + 2 ^ 32 - 1) % 2 ^ 32

chosen-second : (h g : Limbs) → IsSmall g → chosen h g ≡ g
unfolding chosen
chosen-second h g ok =
    let m : choice_mask g ≡ 2 ^ 32 - 1 = omega (arith, ok.b4) in
    limbs_eq (select-ones _ h.l0 g.l0 (omega (arith, ok.b0)) m)
      (select-ones _ h.l1 g.l1 (omega (arith, ok.b1)) m)
      (select-ones _ h.l2 g.l2 (omega (arith, ok.b2)) m)
      (select-ones _ h.l3 g.l3 (omega (arith, ok.b3)) m)
      (select-ones _ h.l4 g.l4 (omega (arith, ok.b4)) m)

chosen-first : (h g : Limbs) → IsSmall h → 2 ^ 31 ≤ g.l4 → g.l4 < 2 ^ 32 → chosen h g ≡ h
unfolding chosen
chosen-first h g ok high lt =
    let m : choice_mask g ≡ 0 = omega (arith, high, lt) in
    limbs_eq (select-zero _ h.l0 g.l0 (omega (arith, ok.b0)) m)
      (select-zero _ h.l1 g.l1 (omega (arith, ok.b1)) m)
      (select-zero _ h.l2 g.l2 (omega (arith, ok.b2)) m)
      (select-zero _ h.l3 g.l3 (omega (arith, ok.b3)) m)
      (select-zero _ h.l4 g.l4 (omega (arith, ok.b4)) m)

-- The limbs of the accumulator modulo the prime.
pub record IsResidue (n : ℕ) (l : Limbs) : Type 0 where
  pub small : IsSmall l
  pub residue : value l ≡ n % prime

not_over : (h : Limbs) → IsSmall h → over h ≡ 0 → IsResidue (value h) (chosen h (less_p h))
unfolding over less_p value
not_over h ok e =
    subst (IsResidue (value h))
      (sym (chosen-first h (less_p h) ok (omega (arith, e, ok.b4)) (omega arith)))
      (record { small = ok; residue = omega (arith, e, ok.b0, ok.b1, ok.b2, ok.b3, ok.b4) })

once_over : (h : Limbs) → IsSmall h → over h ≡ 1 → IsResidue (value h) (chosen h (less_p h))
unfolding over less_p value
once_over h ok e =
    let small : IsSmall (less_p h) = record {
      b0 = omega arith;
      b1 = omega arith;
      b2 = omega arith;
      b3 = omega arith;
      b4 = omega (arith, e, ok.b0, ok.b1, ok.b2, ok.b3, ok.b4);
    } in
    subst (IsResidue (value h)) (sym (chosen-second h (less_p h) small))
      (record { small = small; residue = omega (arith, e, ok.b0, ok.b1, ok.b2, ok.b3, ok.b4) })

over-cases : (h : Limbs) → IsSmall h → (over h ≡ 0) ⊎ (over h ≡ 1)
unfolding over
over-cases h ok = ground (arith, ok.b0, ok.b1, ok.b2, ok.b3, ok.b4)

pub chosen-IsResidue : (h : Limbs) → IsSmall h → IsResidue (value h) (chosen h (minus_p h))
chosen-IsResidue h ok =
    subst (λ g. IsResidue (value h) (chosen h g)) (sym (minus_p-less h ok))
      (elim (over-cases h ok) [ inl e ↦ not_over h ok e | inr e ↦ once_over h ok e ])
