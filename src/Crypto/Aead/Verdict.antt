-- ===== src/Crypto/Aead/Verdict.antt =====
-- What `ct_memcmp` and `aead_decrypt_96` of src/wg_crypto_impl.c accept.
use Prim.Native.Nat.{bit_or, bit_xor}
use polar_wg_app.Common.{
  ℕ, zero, suc, ◌+◌, ◌-◌, ◌≤◌, ◌<◌, ◌≡◌, refl, ap, ap₂, sym, ◌∙◌, List, [], ◌∷◌, ◌++◌, length, take,
  drop, get_or, length-append, length-drop, take-append-drop, take-append, drop-append, take_all,
  arith,
}
use polar_wg_app.Text.Base64.RoundTrip.{IsBytes}
use polar_wg_app.Session.Types.{memcpy}
use polar_wg_app.Crypto.Bits.{
  bit_or-lt, bit_or-zero, bit_xor-lt, bit_xor-zero, bit_xor_self, zero-bit_or,
}
use polar_wg_app.Crypto.Bytes.{IsBytes-take, IsBytes-drop, get_or-bytes}
use polar_wg_app.Crypto.Chacha.{chacha20_xor}
use polar_wg_app.Crypto.Chacha.Stream.{length-chacha20_xor, chacha20_xor-IsBytes}
use polar_wg_app.Crypto.Aead.{diff_loop, ct_memcmp, aead_tag, aead_encrypt_96}
use polar_wg_app.Crypto.Aead.Tag.{rfc_tag, aead_tag-rfc, length-rfc_tag, rfc_tag-IsBytes}

-- The comparison looks at every byte.
diff_loop-eq :
    (n d : ℕ) (a b : List ℕ)
    → IsBytes a
    → IsBytes b
    → d < 256
    → length a ≡ n
    → length b ≡ n
    → diff_loop n d a b ≡ 0
    → (d ≡ 0) × (a ≡ b)
unfolding diff_loop
diff_loop-eq zero d [] [] h k lt n m e = (e, refl)
diff_loop-eq zero d (x ∷ a) b h k lt n m e = absurd (omega (arith, n))
diff_loop-eq zero d a (y ∷ b) h k lt n m e = absurd (omega (arith, m))
diff_loop-eq (suc n) d [] b h k lt p m e = absurd (omega (arith, p))
diff_loop-eq (suc n) d (x ∷ a) [] h k lt p m e = absurd (omega (arith, m))
diff_loop-eq (suc n) d (x ∷ a) (y ∷ b) h k lt p m e =
    let xor_lt = bit_xor-lt 8 x y h.0 k.0 in
    let (d_or, same) =
      diff_loop-eq n (bit_or d (bit_xor x y)) a b h.1 k.1 (bit_or-lt 8 d (bit_xor x y) lt xor_lt)
        (omega (arith, p)) (omega (arith, m)) e in
    let (d_zero, xor_zero) = bit_or-zero 8 d (bit_xor x y) lt xor_lt d_or in
    (d_zero, ap₂ ◌∷◌ (bit_xor-zero 8 x y h.0 k.0 xor_zero) same)

diff_loop_same : (n : ℕ) (a : List ℕ) → IsBytes a → diff_loop n 0 a a ≡ 0
unfolding diff_loop
diff_loop_same zero a h = refl
diff_loop_same (suc n) a h =
    ap (λ d. diff_loop n d (drop 1 a) (drop 1 a))
      (ap (bit_or 0) (bit_xor_self 8 (get_or a 0 0) (get_or-bytes a 0 h)) ∙ zero-bit_or 0)
    ∙ diff_loop_same n (drop 1 a) (IsBytes-drop 1 a h)

-- For a plaintext and additional data of bytes, `aead_encrypt_96` writes the ciphertext, which `chacha20_xor`
-- gives from counter 1 on, and after it the tag that RFC 8439, section 2.8, gives by arithmetic modulo
-- 2 ^ 130 - 5, with the one-time key from the ChaCha20 block for counter 0 as `chacha20_block` computes
-- it, and leaves the rest of `dst`.
pub aead_encrypt_96-rfc :
    (dst src ad nonce12 key : List ℕ)
    → IsBytes src
    → IsBytes ad
    → let ct = chacha20_xor src key nonce12 1 in
      aead_encrypt_96 dst src ad nonce12 key
      ≡ (ct ++ rfc_tag key nonce12 ad ct) ++ drop (length src + 16) dst
unfolding aead_encrypt_96
aead_encrypt_96-rfc dst src ad nonce12 key h a =
    let ct = chacha20_xor src key nonce12 1 in
    ap (λ t. memcpy dst (ct ++ t) (length src + 16))
      (aead_tag-rfc key nonce12 ad ct a (chacha20_xor-IsBytes src key nonce12 1 h (omega arith)))
    ∙ ap (λ x. x ++ drop (length src + 16) dst)
        (take_all (length src + 16) (ct ++ rfc_tag key nonce12 ad ct) (
          omega (
            arith,
            length-append ct (rfc_tag key nonce12 ad ct),
            length-chacha20_xor src key nonce12 1,
            length-rfc_tag key nonce12 ad ct,
          )))

-- A message with its tag, taken apart again.
module _ (key nonce12 ad : List ℕ) (ad_bytes : IsBytes ad) where
  abbrev pub with_tag : List ℕ → List ℕ
  with_tag ct = ct ++ rfc_tag key nonce12 ad ct

  pub length-with_tag : (ct : List ℕ) → length (with_tag ct) ≡ length ct + 16
  length-with_tag ct =
      length-append ct (rfc_tag key nonce12 ad ct)
      ∙ ap (λ n. length ct + n) (length-rfc_tag key nonce12 ad ct)

  pub take-with_tag : (ct : List ℕ) → take (length (with_tag ct) - 16) (with_tag ct) ≡ ct
  take-with_tag ct =
      take-append _ ct (rfc_tag key nonce12 ad ct) (omega (arith, length-with_tag ct))

  drop-with_tag :
      (ct : List ℕ) → drop (length (with_tag ct) - 16) (with_tag ct) ≡ rfc_tag key nonce12 ad ct
  drop-with_tag ct =
      drop-append _ ct (rfc_tag key nonce12 ad ct) (omega (arith, length-with_tag ct))

  -- The comparison succeeds for a message with its tag, and for no other.
  pub tag_found :
      (src : List ℕ)
      → IsBytes src
      → 16 ≤ length src
      → let ct = take (length src - 16) src in
        ct_memcmp (aead_tag key nonce12 ad ct) (drop (length src - 16) src) 16 ≡ 0
        → src ≡ with_tag (take (length src - 16) src)
  unfolding ct_memcmp
  tag_found src h lt e =
      let n = length src - 16 in
      let ct = take n src in
      let rfc = aead_tag-rfc key nonce12 ad ct ad_bytes (IsBytes-take n src h) in
      sym (take-append-drop n src)
      ∙ ap (λ x. ct ++ x)
          (sym
            (diff_loop-eq 16 0 (rfc_tag key nonce12 ad ct) (drop n src)
              (rfc_tag-IsBytes key nonce12 ad ct) (IsBytes-drop n src h) (omega arith)
              (length-rfc_tag key nonce12 ad ct) (omega (arith, length-drop n src))
              (ap (λ x. diff_loop 16 0 x (drop n src)) (sym rfc) ∙ e)).1)

  pub tag_matches :
      (ct : List ℕ)
      → IsBytes ct
      → let src = with_tag ct in
        ct_memcmp
          (aead_tag key nonce12 ad (take (length src - 16) src))
          (drop (length src - 16) src)
          16
        ≡ 0
  unfolding ct_memcmp
  tag_matches ct h =
      let tag = rfc_tag key nonce12 ad ct in
      ap₂ (λ x y. diff_loop 16 0 (aead_tag key nonce12 ad x) y) (take-with_tag ct)
        (drop-with_tag ct)
      ∙ ap (λ x. diff_loop 16 0 x tag) (aead_tag-rfc key nonce12 ad ct ad_bytes h)
      ∙ diff_loop_same 16 tag (rfc_tag-IsBytes key nonce12 ad ct)
