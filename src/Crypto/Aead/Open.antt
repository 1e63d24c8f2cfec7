-- ===== src/Crypto/Aead/Open.antt =====
-- What `aead_decrypt_96` of src/wg_crypto_impl.c gives, and the round trips of the buffer API.
use polar_wg_app.Common.{
  ℕ, ◌+◌, ◌-◌, ◌≡◌, ◌⊎◌, inl, inr, refl, ap, ap₂, sym, ◌∙◌, List, [], ◌++◌, length, take, drop,
  take-append, Bool, true, false, ltb, ltb-lt, ltb-le, ◌==◌, ==_iff, if-cases, arith,
}
use polar_wg_app.Text.Base64.RoundTrip.{IsBytes}
use polar_wg_app.Session.Types.{memcpy}
use polar_wg_app.Crypto.Bytes.{IsBytes-take, append-nil, drop-nil}
use polar_wg_app.Crypto.Chacha.{chacha20_xor}
use polar_wg_app.Crypto.Chacha.Stream.{
  length-chacha20_xor, chacha20_xor_twice, chacha20_xor-IsBytes,
}
use polar_wg_app.Crypto.Aead.{
  ct_memcmp, aead_tag, aead_encrypt_96, aead_decrypt_96, nonce_bytes, chacha20_poly1305_encrypt,
  chacha20_poly1305_decrypt, subkey, last_nonce, xchacha20_poly1305_encrypt,
  xchacha20_poly1305_decrypt,
}
use polar_wg_app.Crypto.Aead.Verdict.{
  aead_encrypt_96-rfc, with_tag, length-with_tag, take-with_tag, tag_found, tag_matches,
}

-- The message is the encryption of some bytes.
pub record IsSealed (key nonce12 ad src : List ℕ) : Type 0 where
  pub plain : List ℕ
  pub bytes : IsBytes plain
  pub encrypted : src ≡ aead_encrypt_96 [] plain ad nonce12 key

module _ (key nonce12 ad : List ℕ) (ad_bytes : IsBytes ad) where
  encrypted-with_tag :
      (plain : List ℕ)
      → IsBytes plain
      → aead_encrypt_96 [] plain ad nonce12 key
        ≡ with_tag key nonce12 ad ad_bytes (chacha20_xor plain key nonce12 1)
  encrypted-with_tag plain h =
      aead_encrypt_96-rfc [] plain ad nonce12 key h ad_bytes
      ∙ ap (λ x. with_tag key nonce12 ad ad_bytes (chacha20_xor plain key nonce12 1) ++ x)
          (drop-nil (length plain + 16))
      ∙ append-nil (with_tag key nonce12 ad ad_bytes (chacha20_xor plain key nonce12 1))

  -- A ciphertext with its tag is decrypted.
  decrypt-with_tag :
      (dst ct : List ℕ)
      → IsBytes ct
      → aead_decrypt_96 dst (with_tag key nonce12 ad ad_bytes ct) ad nonce12 key
        ≡ (true, memcpy dst (chacha20_xor ct key nonce12 1) (length ct))
  unfolding aead_decrypt_96
  decrypt-with_tag dst ct h =
      let src = with_tag key nonce12 ad ad_bytes ct in
      let n = length-with_tag key nonce12 ad ad_bytes ct in
      let good : Bool × List ℕ = (true, memcpy dst (chacha20_xor ct key nonce12 1) (length ct)) in
      if-cases (λ r. r ≡ good) (ltb (length src) 16)
        (λ e. absurd (omega (arith, n, ltb-lt (length src) 16 e)))
        (λ _.
          if-cases (λ r. r ≡ good)
            (ct_memcmp (aead_tag key nonce12 ad (take (length src - 16) src))
                (drop (length src - 16) src) 16
              == 0)
            (λ _.
              ap₂ (λ x k. (true, memcpy dst (chacha20_xor x key nonce12 1) k))
                (take-with_tag key nonce12 ad ad_bytes ct) (omega (arith, n)))
            (λ e. absurd (differs _ (tag_matches key nonce12 ad ad_bytes ct h) e)))
    where
      differs : (k : ℕ) → k ≡ 0 → (k == 0) ≡ false → ⊥
      differs k e f = ground arith

  found-IsSealed :
      (src : List ℕ)
      → IsBytes src
      → src ≡ with_tag key nonce12 ad ad_bytes (take (length src - 16) src)
      → IsSealed key nonce12 ad src
  found-IsSealed src h e =
      let ct = take (length src - 16) src in
      let ct_bytes = IsBytes-take (length src - 16) src h in
      let plain = chacha20_xor ct key nonce12 1 in
      let bytes = chacha20_xor-IsBytes ct key nonce12 1 ct_bytes (omega arith) in
      record {
        plain = plain;
        bytes = bytes;
        encrypted =
            e
            ∙ ap (with_tag key nonce12 ad ad_bytes)
                (sym (chacha20_xor_twice ct key nonce12 1 ct_bytes (omega arith)))
            ∙ sym (encrypted-with_tag plain bytes);
      }

  decrypt-IsSealed :
      (dst src : List ℕ) (s : IsSealed key nonce12 ad src)
      → aead_decrypt_96 dst src ad nonce12 key ≡ (true, memcpy dst (s.plain) (length (s.plain)))
  decrypt-IsSealed dst src s =
      let ct = chacha20_xor (s.plain) key nonce12 1 in
      ap (λ x. aead_decrypt_96 dst x ad nonce12 key)
        (s.encrypted ∙ encrypted-with_tag (s.plain) (s.bytes))
      ∙ decrypt-with_tag dst ct
          (chacha20_xor-IsBytes (s.plain) key nonce12 1 (s.bytes) (omega arith))
      ∙ ap₂ (λ x k. (true, memcpy dst x k))
          (chacha20_xor_twice (s.plain) key nonce12 1 (s.bytes) (omega arith))
          (length-chacha20_xor (s.plain) key nonce12 1)

  decrypt-cases :
      (dst src : List ℕ)
      → IsBytes src
      → IsSealed key nonce12 ad src ⊎ (aead_decrypt_96 dst src ad nonce12 key ≡ (false, dst))
  unfolding aead_decrypt_96
  decrypt-cases dst src h =
      let ct = take (length src - 16) src in
      let diff = ct_memcmp (aead_tag key nonce12 ad ct) (drop (length src - 16) src) 16 in
      let either : Bool × List ℕ → Type 0 = λ r. IsSealed key nonce12 ad src ⊎ (r ≡ (false, dst)) in
      if-cases either (ltb (length src) 16) (λ _. inr refl)
        (λ long.
          if-cases either (diff == 0)
            (λ e. inl (
              found-IsSealed src h (
                tag_found key nonce12 ad ad_bytes src h (ltb-le (length src) 16 long)
                  ((==_iff diff 0).0 e))))
            (λ _. inr refl))

-- For every message, additional data, nonce and key, of bytes, `aead_decrypt_96` either returns true for
-- a message that is the encryption of some bytes under them, which it writes to the front of `dst`, or
-- returns false for a message that is no such encryption, and leaves `dst` alone.
pub aead_decrypt_96-verdict :
    (dst src ad nonce12 key : List ℕ)
    → IsBytes src
    → IsBytes ad
    → let r = aead_decrypt_96 dst src ad nonce12 key in
      ((s : IsSealed key nonce12 ad src) × (r ≡ (true, memcpy dst (s.plain) (length (s.plain)))))
      ⊎ (¬ IsSealed key nonce12 ad src × (r ≡ (false, dst)))
aead_decrypt_96-verdict dst src ad nonce12 key h a =
    elim (decrypt-cases key nonce12 ad a dst src h) [
      | inl s ↦ inl (s, decrypt-IsSealed key nonce12 ad a dst src s)
      | inr e ↦
          inr (
            λ s. refused (ap (λ r. r.0) (sym (decrypt-IsSealed key nonce12 ad a dst src s) ∙ e)),
            e,
          )
    ]
  where
    refused : true ≡ false → ⊥
    refused e = cc

-- What was encrypted comes back, with each of the three forms of a nonce.
aead_round_trip :
    (dst room src ad nonce12 key : List ℕ)
    → IsBytes src
    → IsBytes ad
    → aead_decrypt_96 room
        (take (length src + 16) (aead_encrypt_96 dst src ad nonce12 key))
        ad
        nonce12
        key
      ≡ (true, memcpy room src (length src))
aead_round_trip dst room src ad nonce12 key h a =
    let ct = chacha20_xor src key nonce12 1 in
    let m = with_tag key nonce12 ad a ct in
    ap (λ x. aead_decrypt_96 room (take (length src + 16) x) ad nonce12 key)
      (aead_encrypt_96-rfc dst src ad nonce12 key h a)
    ∙ ap (λ x. aead_decrypt_96 room x ad nonce12 key)
        (take-append (length src + 16) m (drop (length src + 16) dst) (
            omega
              (arith, length-with_tag key nonce12 ad a ct, length-chacha20_xor src key nonce12 1))
          ∙ sym (encrypted-with_tag key nonce12 ad a src h))
    ∙ decrypt-IsSealed key nonce12 ad a room _ (record { plain = src; bytes = h; encrypted = refl })

-- What the buffer API encrypts, with a nonce of any of its three sizes, it decrypts again: for a
-- plaintext and additional data of bytes, decryption of the ciphertext with its tag returns true and
-- writes the plaintext to the front of its destination.
pub decrypt-encrypt :
    (dst room src ad nonce key : List ℕ)
    → IsBytes src
    → IsBytes ad
    → let n = length src + 16 in
      let back : Bool × List ℕ = (true, memcpy room src (length src)) in
      (chacha20_poly1305_decrypt room
          (take n (chacha20_poly1305_encrypt dst src ad nonce key))
          ad
          nonce
          key
        ≡ back)
      × (xchacha20_poly1305_decrypt room
            (take n (xchacha20_poly1305_encrypt dst src ad nonce key))
            ad
            nonce
            key
          ≡ back)
unfolding chacha20_poly1305_encrypt chacha20_poly1305_decrypt xchacha20_poly1305_encrypt
    xchacha20_poly1305_decrypt
decrypt-encrypt dst room src ad nonce key h a = (
  aead_round_trip dst room src ad (nonce_bytes nonce) key h a,
  aead_round_trip dst room src ad (last_nonce nonce) (subkey nonce key) h a,
)
