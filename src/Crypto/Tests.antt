-- ===== src/Crypto/Tests.antt =====
-- Tests of src/wg_crypto_impl.c at vectors of RFC 8439, and the theorems at concrete inputs.
use polar_wg_app.Common.{
  ℕ, zero, suc, ◌+◌, ◌≡◌, ◌⊎◌, refl, Bool, true, false, List, [], ◌∷◌, ◌++◌, length, take, ◌&&◌,
  ltb, ltb-lt, arith,
}
use polar_wg_app.Text.Base64.RoundTrip.{IsBytes}
use polar_wg_app.Session.Types.{memcpy}
use polar_wg_app.Crypto.Chacha.{
  chacha20_block, chacha20_state, double_rounds, double_round, quarter_round, rotl32, sum_bytes,
  chacha20_xor,
}
use polar_wg_app.Crypto.Poly.{
  poly1305_init, clamped_limbs, parts, poly1305_update, blocks, poly1305_block, absorb, products,
  carried, poly1305_finish, flushed, settled, minus_p, chosen, low_words, add_words,
}
use polar_wg_app.Crypto.Poly.Mac.{reference}
use polar_wg_app.Crypto.Poly.Result.{update_all, joined, poly1305_finish-reference}
use polar_wg_app.Crypto.Aead.{
  aead_encrypt_96, aead_decrypt_96, chacha20_poly1305_encrypt, chacha20_poly1305_decrypt,
  xchacha20_poly1305_encrypt, xchacha20_poly1305_decrypt,
}
use polar_wg_app.Crypto.Aead.Tag.{rfc_tag}
use polar_wg_app.Crypto.Aead.Verdict.{aead_encrypt_96-rfc}
use polar_wg_app.Crypto.Aead.Open.{IsSealed, aead_decrypt_96-verdict, decrypt-encrypt}
use polar_wg_app.Crypto.Dispatch.{Cryptop, done, crypto_dispatch}
use polar_wg_app.Crypto.Dispatch.InPlace.{crypto_dispatch-buffer}

abbrev counted : ℕ → ℕ → List ℕ
counted zero n = []
counted (suc k) n = n ∷ counted k (n + 1)

-- Section 2.3.2.
block_first :
    take 8 (
      chacha20_block
        (chacha20_state (counted 32 0) (0 ∷ 0 ∷ 0 ∷ 9 ∷ 0 ∷ 0 ∷ 0 ∷ 0x4a ∷ 0 ∷ 0 ∷ 0 ∷ 0 ∷ []) 1))
    ≡ 0x10 ∷ 0xf1 ∷ 0xe7 ∷ 0xe4 ∷ 0xd1 ∷ 0x3b ∷ 0x59 ∷ 0x15 ∷ []
unfolding chacha20_block chacha20_state double_rounds double_round quarter_round rotl32 sum_bytes
block_first = refl

-- Section 2.5.2.
abbrev mac_key : List ℕ
mac_key =
    0x85 ∷ 0xd6 ∷ 0xbe ∷ 0x78 ∷ 0x57 ∷ 0x55 ∷ 0x6d ∷ 0x33 ∷ 0x7f ∷ 0x44 ∷ 0x52 ∷ 0xfe ∷ 0x42 ∷ 0xd5
    ∷ 0x06 ∷ 0xa8 ∷ 0x01 ∷ 0x03 ∷ 0x80 ∷ 0x8a ∷ 0xfb ∷ 0x0d ∷ 0xb2 ∷ 0xfd ∷ 0x4a ∷ 0xbf ∷ 0xf6
    ∷ 0xaf ∷ 0x41 ∷ 0x49 ∷ 0xf5 ∷ 0x1b ∷ []

abbrev mac_first : List ℕ
mac_first =
    0x43 ∷ 0x72 ∷ 0x79 ∷ 0x70 ∷ 0x74 ∷ 0x6f ∷ 0x67 ∷ 0x72 ∷ 0x61 ∷ 0x70 ∷ 0x68 ∷ 0x69 ∷ 0x63 ∷ 0x20
    ∷ []

abbrev mac_second : List ℕ
mac_second =
    0x46 ∷ 0x6f ∷ 0x72 ∷ 0x75 ∷ 0x6d ∷ 0x20 ∷ 0x52 ∷ 0x65 ∷ 0x73 ∷ 0x65 ∷ 0x61 ∷ 0x72 ∷ 0x63 ∷ 0x68
    ∷ 0x20 ∷ 0x47 ∷ 0x72 ∷ 0x6f ∷ 0x75 ∷ 0x70 ∷ []

mac_vector :
    poly1305_finish (update_all (poly1305_init mac_key) (mac_first ∷ mac_second ∷ []))
    ≡ 0xa8 ∷ 0x06 ∷ 0x1d ∷ 0xc1 ∷ 0x30 ∷ 0x51 ∷ 0x36 ∷ 0xc6 ∷ 0xc2 ∷ 0x2b ∷ 0x8b ∷ 0xaf ∷ 0x0c
      ∷ 0x01 ∷ 0x27 ∷ 0xa9 ∷ []
unfolding poly1305_init clamped_limbs parts poly1305_update blocks poly1305_block absorb products
    carried poly1305_finish flushed settled minus_p chosen low_words add_words
mac_vector = refl

-- Lists of bytes, by a test.
abbrev are_bytes : List ℕ → Bool
are_bytes [] = true
are_bytes (x ∷ xs) = ltb x 256 && are_bytes xs

are_bytes-IsBytes : (xs : List ℕ) → are_bytes xs ≡ true → IsBytes xs
are_bytes-IsBytes [] e = tt
are_bytes-IsBytes (x ∷ xs) e =
    let (h, k) = both (ltb x 256) (are_bytes xs) e in (ltb-lt x 256 h, are_bytes-IsBytes xs k)
  where
    both : (a b : Bool) → (a && b) ≡ true → (a ≡ true) × (b ≡ true)
    both true b h = (refl, h)
    both false b h = cc

abbrev key : List ℕ
key = counted 32 0

abbrev nonce : List ℕ
nonce = 0 ∷ 0 ∷ 0 ∷ 0x4a ∷ 0 ∷ 0 ∷ 0 ∷ 7 ∷ []

abbrev nonce12 : List ℕ
nonce12 = 0 ∷ 0 ∷ 0 ∷ 0 ∷ nonce

abbrev message : List ℕ
message = counted 70 100

abbrev ad : List ℕ
ad = 1 ∷ 2 ∷ 3 ∷ []

abbrev packet : List ℕ
packet = message ++ counted 20 0

mac_example :
    poly1305_finish (update_all (poly1305_init mac_key) (mac_first ∷ [] ∷ mac_second ∷ []))
    ≡ reference mac_key (joined (mac_first ∷ [] ∷ mac_second ∷ []))
mac_example =
    poly1305_finish-reference mac_key (mac_first ∷ [] ∷ mac_second ∷ [])
      (are_bytes-IsBytes mac_key refl)
      (are_bytes-IsBytes mac_first refl, (tt, (are_bytes-IsBytes mac_second refl, tt)))

encrypt_example :
    aead_encrypt_96 packet message ad nonce12 key
    ≡ (chacha20_xor message key nonce12 1
        ++ rfc_tag key nonce12 ad (chacha20_xor message key nonce12 1))
      ++ (16 ∷ 17 ∷ 18 ∷ 19 ∷ [])
encrypt_example =
    aead_encrypt_96-rfc packet message ad nonce12 key (are_bytes-IsBytes message refl)
      (are_bytes-IsBytes ad refl)

verdict_example :
    ((s : IsSealed key nonce12 ad packet) × (aead_decrypt_96 packet packet ad nonce12 key
        ≡ (true, memcpy packet (s.plain) (length (s.plain)))))
    ⊎ (¬ IsSealed key nonce12 ad packet
        × (aead_decrypt_96 packet packet ad nonce12 key ≡ (false, packet)))
verdict_example =
    aead_decrypt_96-verdict packet packet ad nonce12 key (are_bytes-IsBytes packet refl)
      (are_bytes-IsBytes ad refl)

round_trip_example :
    (chacha20_poly1305_decrypt []
        (take 86 (chacha20_poly1305_encrypt packet message ad nonce key))
        ad
        nonce
        key
      ≡ (true, message))
    × (xchacha20_poly1305_decrypt []
          (take 86 (xchacha20_poly1305_encrypt packet message ad nonce key))
          ad
          nonce
          key
        ≡ (true, message))
round_trip_example =
    decrypt-encrypt packet [] message ad nonce key (are_bytes-IsBytes message refl)
      (are_bytes-IsBytes ad refl)

abbrev sending : Cryptop
sending = record { op = 1; payload_length = 70; digest_start = 70; iv = nonce; cipher_key = key }

dispatch_example :
    crypto_dispatch sending packet ≡ (done, chacha20_poly1305_encrypt packet message [] nonce key)
dispatch_example =
    crypto_dispatch-buffer sending packet refl refl (omega arith) (are_bytes-IsBytes packet refl)
