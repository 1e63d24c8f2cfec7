-- ===== src/Crypto/Poly/Tag.antt =====
-- The tag of src/wg_crypto_impl.c as the low 16 bytes of a sum.
use native.Mathlib.Nat.{pow-suc}
use polar_wg_app.Common.{
  ℕ, zero, suc, ◌+◌, ◌*◌, ◌/◌, ◌%◌, ◌^◌, ◌≡◌, refl, ap, ap₂, sym, ◌∙◌, List, [], ◌∷◌, ◌++◌, length,
  arith,
}
use polar_wg_app.Session.Types.{put_le32}
use polar_wg_app.Crypto.Poly.{Limbs, minus_p, settled, chosen, low_words, add_words}
use polar_wg_app.Crypto.Poly.Load.{value, IsSmall, or_shifted}
use polar_wg_app.Crypto.Poly.Carry.{prime, IsReduced}
use polar_wg_app.Crypto.Poly.Finish.{settled-value, chosen-IsResidue}

-- The low `n` bytes of a number, the least significant first.
unfoldable pub le_bytes : ℕ → ℕ → List ℕ
le_bytes zero v = []
le_bytes (suc n) v = v % 256 ∷ le_bytes n (v / 256)

-- The number that words stand for.
unfoldable pub words_num : List ℕ → ℕ
words_num [] = 0
words_num (w ∷ ws) = w + 2 ^ 32 * words_num ws

pub word_bytes :
    (v : ℕ) (n : ℕ)
    → put_le32 (v % 2 ^ 32) ++ le_bytes n (v / 2 ^ 32) ≡ le_bytes (suc (suc (suc (suc n)))) v
unfolding le_bytes
word_bytes v n = ap₂ ◌∷◌ (omega arith) (
    ap₂ ◌∷◌ (omega arith)
      (ap₂ ◌∷◌ (omega arith) (ap₂ ◌∷◌ (omega arith) (ap (le_bytes n) (omega arith)))))

le_bytes-high : (n v q : ℕ) → le_bytes n (v + q * 256 ^ n) ≡ le_bytes n v
unfolding le_bytes
le_bytes-high zero v q = refl
le_bytes-high (suc n) v q =
    let e : q * 256 ^ suc n ≡ 256 * (q * 256 ^ n) =
      omega (arith, ap (λ (t : ℕ). q * t) (pow-suc 256 n)) in
    ap₂ ◌∷◌ (omega (arith, e))
      (ap (le_bytes n) {y = v / 256 + q * 256 ^ n} (omega (arith, e)) ∙ le_bytes-high n (v / 256) q)

add_words-bytes :
    (f : ℕ) (hs ss : List ℕ)
    → length hs ≡ length ss
    → add_words f hs ss ≡ le_bytes (4 * length hs) (f + words_num hs + words_num ss)
unfolding add_words words_num le_bytes
add_words-bytes f [] [] e = refl
add_words-bytes f [] (s ∷ ss) e = absurd (omega (arith, e))
add_words-bytes f (h ∷ hs) [] e = absurd (omega (arith, e))
add_words-bytes f (h ∷ hs) (s ∷ ss) e =
    let v = f + (h + 2 ^ 32 * words_num hs) + (s + 2 ^ 32 * words_num ss) in
    ap₂ (λ x y. put_le32 x ++ y) {x = (f + h + s) % 2 ^ 32} {y = v % 2 ^ 32} (omega arith)
      (add_words-bytes ((f + h + s) / 2 ^ 32) hs ss (omega (arith, e))
        ∙ ap (le_bytes (4 * length hs)) {y = v / 2 ^ 32} (omega arith))
    ∙ word_bytes v (4 * length hs)
    ∙ ap (λ k. le_bytes k v) {x = suc (suc (suc (suc (4 * length hs))))} {y = 4 * suc (length hs)}
        (omega arith)

-- The low 128 bits of small limbs.
low_words-num : (h : Limbs) → IsSmall h → words_num (low_words h) ≡ value h % 2 ^ 128
unfolding words_num low_words value
low_words-num h ok = omega (
  arith,
  or_shifted 26 6 h.l0 h.l1 (h.l1 * 2 ^ 26 % 2 ^ 32) ok.b0 (omega arith),
  or_shifted 20 12 (h.l1 / 2 ^ 6) h.l2 (h.l2 * 2 ^ 20 % 2 ^ 32) (omega (arith, ok.b1))
      (omega arith),
  or_shifted 14 18 (h.l2 / 2 ^ 12) h.l3 (h.l3 * 2 ^ 14 % 2 ^ 32) (omega (arith, ok.b2))
      (omega arith),
  or_shifted 8 24 (h.l3 / 2 ^ 18) h.l4 (h.l4 * 2 ^ 8 % 2 ^ 32) (omega (arith, ok.b3)) (omega arith),
  ok.b0,
  ok.b1,
  ok.b2,
  ok.b3,
  ok.b4,
)

-- What `poly1305_finish` does after the last block.
pub tag_lem :
    (h : Limbs) (ss : List ℕ)
    → IsReduced h
    → length ss ≡ 4
    → add_words 0 (low_words (chosen (settled h) (minus_p (settled h)))) ss
      ≡ le_bytes 16 (value h % prime + words_num ss)
unfolding low_words
tag_lem h ss ok four =
    let (e, small) = settled-value h ok in
    let out = chosen-IsResidue (settled h) small in
    let n = value h % prime + words_num ss in
    let l = chosen (settled h) (minus_p (settled h)) in
    add_words-bytes 0 (low_words l) ss (sym four)
    ∙ sym (le_bytes-high 16 (0 + words_num (low_words l) + words_num ss) (value l / 2 ^ 128))
    ∙ ap (le_bytes 16) {y = n} (omega (arith, low_words-num l out.small, out.residue, e))
