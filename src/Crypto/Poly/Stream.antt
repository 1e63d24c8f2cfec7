-- ===== src/Crypto/Poly/Stream.antt =====
-- `poly1305_update` and `poly1305_finish` of src/wg_crypto_impl.c on a message that comes in chunks.
use native.Mathlib.Nat.{pow-suc}
use polar_wg_app.Common.{
  ℕ, zero, suc, ◌+◌, ◌-◌, ◌*◌, ◌%◌, ◌^◌, ◌≤◌, ◌<◌, ◌≡◌, refl, ap, ap₂, subst, sym, ◌∙◌, List, [],
  ◌∷◌, ◌++◌, length, take, drop, length-drop, length-take, length-append, take-append-drop, leb,
  ltb, if-cases, leb-le, leb-lt, ltb-lt, ltb-le, arith,
}
use polar_wg_app.Text.Base64.RoundTrip.{IsBytes}
use polar_wg_app.Crypto.Bytes.{
  IsBytes-append, IsBytes-take, IsBytes-drop, append_assoc, length_zero,
}
use polar_wg_app.Crypto.Poly.{
  Limbs, Poly, zero_limbs, clamped_limbs, poly1305_init, full_block, blocks, poly1305_update,
}
use polar_wg_app.Crypto.Poly.Load.{le_value, value, IsSmall, clamped_limbs-IsSmall}
use polar_wg_app.Crypto.Poly.Carry.{prime, IsReduced}
use polar_wg_app.Crypto.Poly.Block.{poly1305_block-IsReduced, value-poly1305_block}
use polar_wg_app.Crypto.Poly.Mac.{step, total, total-mod, total-block}

pub le_value-append :
    (xs ys : List ℕ) → le_value (xs ++ ys) ≡ le_value xs + 256 ^ length xs * le_value ys
unfolding le_value
le_value-append [] ys = omega arith
le_value-append (x ∷ xs) ys =
    let e : 256 ^ suc (length xs) * le_value ys ≡ 256 * (256 ^ length xs * le_value ys) =
      omega (arith, ap (λ (t : ℕ). t * le_value ys) (pow-suc 256 (length xs))) in
    omega (arith, e, le_value-append xs ys)

zero_value : 0 ≡ value zero_limbs
unfolding value
zero_value = refl

full_value :
    (h : Limbs) (b : List ℕ)
    → length b ≡ 16
    → value h + le_value (b ++ 1 ∷ []) ≡ value h + le_value b + 1 * 2 ^ 128
unfolding le_value
full_value h b e = omega (arith, le_value-append b (1 ∷ []), ap (λ n. 256 ^ n) e)

-- One full block of 16 bytes.
total-full_block :
    (r h : Limbs) (b t : List ℕ)
    → IsSmall r
    → IsReduced h
    → IsBytes b
    → length b ≡ 16
    → total (value r) (value h) (b ++ t) ≡ total (value r) (value (full_block r h b)) t
total-full_block r h b t small ok bytes e =
    total-block (value r) (value h) b t e
    ∙ total-mod (value r) (step (value r) (value h) b) (value (full_block r h b)) t (
        omega (
          arith,
          value-poly1305_block r h b 1 small ok bytes (omega (arith, e)) (omega arith),
          ap (λ (n : ℕ). n * value r % prime) {x = value h + le_value (b ++ 1 ∷ [])}
              {y = value h + le_value b + 1 * 2 ^ 128} (full_value h b e),
        ))

module _ (key : List ℕ) where
  abbrev pub r_value : ℕ
  r_value = value (clamped_limbs key)

  -- The context has taken in the bytes `m`.
  pub record Absorbed (m : List ℕ) (p : Poly) : Type 0 where
    pub reduced : IsReduced p.h
    pub bytes : IsBytes p.buf
    pub short : length p.buf < 16
    pub same_r : p.r ≡ clamped_limbs key
    pub same_s : p.s ≡ (poly1305_init key).s
    pub same_total :
        (t : List ℕ) → total r_value 0 (m ++ t) ≡ total r_value (value p.h) (p.buf ++ t)

  pub small : {m : List ℕ} (p : Poly) → Absorbed m p → IsSmall p.r
  small p h = subst IsSmall (sym h.same_r) (clamped_limbs-IsSmall key)

  -- Bytes that do not fill a block are kept.
  Absorbed-keep :
      (m c : List ℕ) (p : Poly)
      → Absorbed m p
      → IsBytes c
      → length p.buf + length c < 16
      → Absorbed (m ++ c) (record p { buf = p.buf ++ c })
  Absorbed-keep m c p h bytes lt = record {
    reduced = h.reduced;
    bytes = IsBytes-append p.buf c h.bytes bytes;
    short = omega (arith, length-append p.buf c);
    same_r = h.same_r;
    same_s = h.same_s;
    same_total = λ t.
        ap (total r_value 0) (append_assoc m c t)
        ∙ h.same_total (c ++ t)
        ∙ ap (total r_value (value p.h)) (sym (append_assoc p.buf c t));
  }

  Absorbed-block :
      (m c : List ℕ) (p : Poly)
      → Absorbed m p
      → IsBytes c
      → length p.buf + length c ≡ 16
      → Absorbed (m ++ c) (record p { h = full_block p.r p.h (p.buf ++ c); buf = [] })
  Absorbed-block m c p h bytes lt = record {
    reduced =
        poly1305_block-IsReduced p.r p.h (p.buf ++ c) 1 (small p h) h.reduced
          (IsBytes-append p.buf c h.bytes bytes) (omega (arith, length-append p.buf c))
          (omega arith);
    bytes = tt;
    short = omega arith;
    same_r = h.same_r;
    same_s = h.same_s;
    same_total = λ t.
        ap (total r_value 0) (append_assoc m c t)
        ∙ h.same_total (c ++ t)
        ∙ ap₂ (λ r l. total r (value p.h) l) (ap value (sym h.same_r))
            (sym (append_assoc p.buf c t))
        ∙ total-full_block p.r p.h (p.buf ++ c) t (small p h) h.reduced
            (IsBytes-append p.buf c h.bytes bytes) (omega (arith, length-append p.buf c))
        ∙ ap (λ r. total r (value (full_block p.r p.h (p.buf ++ c))) t) (ap value h.same_r);
  }

  Absorbed-blocks :
      (fuel : ℕ) (m c : List ℕ) (p : Poly)
      → Absorbed m p
      → p.buf ≡ []
      → IsBytes c
      → length c ≤ fuel
      → Absorbed (m ++ c) (blocks fuel p c)
  unfolding blocks
  Absorbed-blocks zero m c p h e bytes lt =
      subst (λ b. Absorbed (m ++ c) (record p { buf = b })) (ap (λ b. b ++ c) e)
        (Absorbed-keep m c p h bytes (omega (arith, ap length e)))
  Absorbed-blocks (suc fuel) m c p h e bytes lt =
      let front = IsBytes-take 16 c bytes in
      let p1 = record p { h = full_block p.r p.h (take 16 c) } in
      let taken : 16 ≤ length c → Absorbed (m ++ take 16 c) p1 = λ k.
        subst (Absorbed (m ++ take 16 c))
          (λ i. record p { h = full_block p.r p.h (e i ++ take 16 c); buf = sym e i })
          (Absorbed-block m (take 16 c) p h front
            (omega (arith, ap length e, length-take 16 c, k))) in
      if-cases (Absorbed (m ++ c)) (leb 16 (length c))
        (λ k.
          subst (λ x. Absorbed x (blocks fuel p1 (drop 16 c)))
            (append_assoc m (take 16 c) (drop 16 c) ∙ ap (λ x. m ++ x) (take-append-drop 16 c))
            (Absorbed-blocks fuel (m ++ take 16 c) (drop 16 c) p1 (taken (leb-le 16 (length c) k)) e
              (IsBytes-drop 16 c bytes) (omega (arith, length-drop 16 c, leb-le 16 (length c) k))))
        (λ k.
          subst (λ b. Absorbed (m ++ c) (record p { buf = b })) (ap (λ b. b ++ c) e)
            (Absorbed-keep m c p h bytes (omega (arith, ap length e, leb-lt 16 (length c) k))))

  pub Absorbed-update :
      (m c : List ℕ) (p : Poly) → Absorbed m p → IsBytes c → Absorbed (m ++ c) (poly1305_update p c)
  unfolding poly1305_update
  Absorbed-update m c p h bytes =
      let want = 16 - length p.buf in
      let p1 = record p { h = full_block p.r p.h (p.buf ++ take want c); buf = [] } in
      if-cases (Absorbed (m ++ c)) (ltb 0 (length p.buf))
        (λ held.
          if-cases (Absorbed (m ++ c)) (ltb (length c) want)
            (λ k. Absorbed-keep m c p h bytes (omega (arith, h.short, ltb-lt (length c) want k)))
            (λ k.
              subst (λ x. Absorbed x (blocks (length c) p1 (drop want c)))
                (append_assoc m (take want c) (drop want c)
                  ∙ ap (λ x. m ++ x) (take-append-drop want c))
                (Absorbed-blocks (length c) (m ++ take want c) (drop want c) p1
                  (Absorbed-block m (take want c) p h (IsBytes-take want c bytes)
                    (omega (arith, h.short, length-take want c, ltb-le (length c) want k)))
                  refl (IsBytes-drop want c bytes) (omega (arith, length-drop want c)))))
        (λ k.
          Absorbed-blocks (length c) m c p h (length_zero p.buf (ltb-le 0 (length p.buf) k)) bytes
            (omega arith))

  pub Absorbed-init : Absorbed [] (poly1305_init key)
  unfolding poly1305_init
  Absorbed-init = record {
    reduced = record {
      b0 = omega arith;
      b1 = omega arith;
      b2 = omega arith;
      b3 = omega arith;
      b4 = omega arith;
    };
    bytes = tt;
    short = omega arith;
    same_r = refl;
    same_s = refl;
    same_total = λ t. ap (λ n. total r_value n t) {x = 0} zero_value;
  }
