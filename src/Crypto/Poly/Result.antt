-- ===== src/Crypto/Poly/Result.antt =====
-- The result of `poly1305_init`, updates and `poly1305_finish` of src/wg_crypto_impl.c.
use Prim.Native.Nat.{bit_and}
use polar_wg_app.Common.{
  ℕ, zero, suc, ◌+◌, ◌-◌, ◌*◌, ◌%◌, ◌^◌, ◌≤◌, ◌≡◌, refl, ap, subst, sym, ◌∙◌, List, [], ◌∷◌, ◌++◌,
  length, take, drop, replicate, length-append, ltb, if-cases, ltb-lt, ltb-le, arith,
}
use polar_wg_app.Text.Base64.RoundTrip.{IsBytes}
use polar_wg_app.Crypto.Bytes.{
  IsBytes-append, append_assoc, length_zero, append-nil, zeros-IsBytes, length-zeros,
}
use polar_wg_app.Crypto.Poly.{Limbs, Poly, poly1305_init, poly1305_update, flushed, poly1305_finish}
use polar_wg_app.Crypto.Poly.Load.{
  le_value, value, clamp_mask, value-clamped_limbs, first_words, le32-drop,
}
use polar_wg_app.Crypto.Poly.Carry.{prime, IsReduced}
use polar_wg_app.Crypto.Poly.Block.{poly1305_block-IsReduced, value-poly1305_block}
use polar_wg_app.Crypto.Poly.Tag.{le_bytes, words_num, tag_lem}
use polar_wg_app.Crypto.Poly.Mac.{total, total-last, total-nil, reference}
use polar_wg_app.Crypto.Poly.Stream.{
  le_value-append, r_value, Absorbed, small, Absorbed-update, Absorbed-init,
}

le_value-zeros : (n : ℕ) → le_value (replicate n 0) ≡ 0
unfolding le_value
le_value-zeros zero = refl
le_value-zeros (suc n) = omega (arith, le_value-zeros n)

-- The byte 1 and the zeros after a partial block.
padded : List ℕ → List ℕ
padded b = b ++ 1 ∷ replicate (15 - length b) 0

padded-value : (b : List ℕ) → le_value (padded b) ≡ le_value (b ++ 1 ∷ [])
unfolding padded le_value
padded-value b = omega (
  arith,
  le_value-append b (1 ∷ replicate (15 - length b) 0),
  le_value-append b (1 ∷ []),
  ap (λ (t : ℕ). 256 ^ length b * (1 + 256 * t)) (le_value-zeros (15 - length b)),
)

-- The accumulator of `poly1305_finish`.
record IsTotal (n : ℕ) (h : Limbs) : Type 0 where
  reduced : IsReduced h
  total_eq : value h % prime ≡ n

flushed-IsTotal :
    (key m : List ℕ) (p : Poly) → Absorbed key m p → IsTotal (total (r_value key) 0 m) (flushed p)
unfolding flushed padded
flushed-IsTotal key m p h =
    let e : total (r_value key) 0 m ≡ total (r_value key) (value p.h) p.buf =
      ap (total (r_value key) 0) (sym (append-nil m))
      ∙ h.same_total []
      ∙ ap (total (r_value key) (value p.h)) (append-nil p.buf) in
    let bytes =
      IsBytes-append p.buf (1 ∷ replicate (15 - length p.buf) 0) h.bytes
        (omega arith, zeros-IsBytes (15 - length p.buf)) in
    let n : length (padded p.buf) ≤ 16 = omega (
      arith,
      length-append p.buf (1 ∷ replicate (15 - length p.buf) 0),
      length-zeros (15 - length p.buf),
      h.short,
    ) in
    if-cases (IsTotal (total (r_value key) 0 m)) (ltb 0 (length p.buf))
      (λ k. record {
        reduced =
            poly1305_block-IsReduced p.r p.h (padded p.buf) 0 (small key p h) h.reduced bytes n
              (omega arith);
        total_eq =
            value-poly1305_block p.r p.h (padded p.buf) 0 (small key p h) h.reduced bytes n
              (omega arith)
            ∙ ap (λ (t : ℕ). t * value p.r % prime)
                {x = value p.h + le_value (padded p.buf) + 0 * 2 ^ 128}
                {y = value p.h + le_value (p.buf ++ 1 ∷ [])} (omega (arith, padded-value p.buf))
            ∙ ap (λ r. (value p.h + le_value (p.buf ++ 1 ∷ [])) * value r % prime) h.same_r
            ∙ sym (
                e
                ∙ total-last (r_value key) (value p.h) p.buf (ltb-lt 0 (length p.buf) k)
                    (omega (arith, h.short)));
      })
      (λ k. record {
        reduced = h.reduced;
        total_eq = sym (
            e
            ∙ ap (total (r_value key) (value p.h)) (length_zero p.buf (ltb-le 0 (length p.buf) k))
            ∙ total-nil (r_value key) (value p.h));
      })

s_value : (key : List ℕ) → words_num ((poly1305_init key).s) ≡ le_value (take 16 (drop 16 key))
unfolding poly1305_init words_num
s_value key = omega (
  arith,
  first_words (drop 16 key),
  le32-drop 16 0 key,
  le32-drop 16 4 key,
  le32-drop 16 8 key,
  le32-drop 16 12 key,
)

-- The updates with several chunks, one after the other.
abbrev pub update_all : Poly → List (List ℕ) → Poly
update_all p [] = p
update_all p (c ∷ cs) = update_all (poly1305_update p c) cs

abbrev pub joined : List (List ℕ) → List ℕ
joined [] = []
joined (c ∷ cs) = c ++ joined cs

abbrev pub AreBytes : List (List ℕ) → Type 0
AreBytes [] = Unit {0}
AreBytes (c ∷ cs) = IsBytes c × AreBytes cs

Absorbed-update_all :
    (key m : List ℕ) (cs : List (List ℕ)) (p : Poly)
    → Absorbed key m p
    → AreBytes cs
    → Absorbed key (m ++ joined cs) (update_all p cs)
Absorbed-update_all key m [] p h bytes = subst (λ x. Absorbed key x p) (sym (append-nil m)) h
Absorbed-update_all key m (c ∷ cs) p h bytes =
    subst (λ x. Absorbed key x (update_all (poly1305_update p c) cs)) (append_assoc m c (joined cs))
      (Absorbed-update_all key (m ++ c) cs (poly1305_update p c)
        (Absorbed-update key m c p h bytes.0) bytes.1)

four_words : (key : List ℕ) → length ((poly1305_init key).s) ≡ 4
unfolding poly1305_init
four_words key = refl

pub finished :
    (key m : List ℕ) (p : Poly)
    → IsBytes key
    → Absorbed key m p
    → poly1305_finish p ≡ reference key m
unfolding poly1305_finish reference total
finished key m p bytes h =
    let t = flushed-IsTotal key m p h in
    tag_lem (flushed p) p.s t.reduced (ap length h.same_s ∙ four_words key)
    ∙ ap (le_bytes 16)
        {y = total (bit_and (le_value (take 16 key)) clamp_mask) 0 m
          + le_value (take 16 (drop 16 key))}
        (omega (
          arith,
          t.total_eq,
          ap words_num h.same_s,
          s_value key,
          ap (λ r. total r 0 m) (value-clamped_limbs key bytes),
        ))

-- For a key of bytes and a message of bytes that comes in chunks of any sizes, `poly1305_init`, one
-- `poly1305_update` for each chunk and `poly1305_finish` give the MAC of the joined chunks that RFC 8439,
-- section 2.5, defines by arithmetic modulo 2 ^ 130 - 5.
pub poly1305_finish-reference :
    (key : List ℕ) (chunks : List (List ℕ))
    → IsBytes key
    → AreBytes chunks
    → poly1305_finish (update_all (poly1305_init key) chunks) ≡ reference key (joined chunks)
poly1305_finish-reference key chunks k bytes =
    finished key (joined chunks) (update_all (poly1305_init key) chunks) k
      (Absorbed-update_all key [] chunks (poly1305_init key) (Absorbed-init key) bytes)
