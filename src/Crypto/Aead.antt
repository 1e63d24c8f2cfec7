-- ===== src/Crypto/Aead.antt =====
-- The authenticated encryption of src/wg_crypto_impl.c. A buffer is the list of its bytes, a size the
-- length of the list; a function that writes to `dst` returns what `dst` is after it.
pub mod Tag
pub mod Verdict
pub mod Open
use Prim.Native.Nat.{bit_and, bit_or, bit_xor}
use polar_wg_app.Common.{
  ℕ, zero, suc, ◌+◌, ◌-◌, ◌*◌, ◌/◌, ◌%◌, ◌^◌, Bool, true, false, List, [], ◌∷◌, ◌++◌, ltb, ◌==◌,
  if◌then◌else◌, length, take, drop, get_or, replicate,
}
use polar_wg_app.Session.Types.{put_le64, memcpy}
use polar_wg_app.Crypto.Chacha.{chacha20_xor, poly1305_key_gen, hchacha20}
use polar_wg_app.Crypto.Poly.{Poly, poly1305_init, poly1305_update, poly1305_finish}

-- The loop of `ct_memcmp`.
unfoldable pub diff_loop : ℕ → ℕ → List ℕ → List ℕ → ℕ
diff_loop zero diff a b = diff
diff_loop (suc n) diff a b =
    diff_loop n (bit_or diff (bit_xor (get_or a 0 0) (get_or b 0 0))) (drop 1 a) (drop 1 b)

-- `ct_memcmp`
unfoldable pub ct_memcmp : List ℕ → List ℕ → ℕ → ℕ
ct_memcmp a b n = diff_loop n 0 a b

-- `poly1305_pad16`
unfoldable pub poly1305_pad16 : Poly → ℕ → Poly
poly1305_pad16 p len =
    let rem = bit_and len 15 in if rem == 0 then p else poly1305_update p (replicate (16 - rem) 0)

-- The calls of both directions that take in the additional data, the ciphertext and their lengths.
unfoldable pub aead_tag : List ℕ → List ℕ → List ℕ → List ℕ → List ℕ
aead_tag key nonce12 ad ct =
    let mac = poly1305_init (poly1305_key_gen key nonce12) in
    let mac = poly1305_pad16 (poly1305_update mac ad) (length ad) in
    let mac = poly1305_pad16 (poly1305_update mac ct) (length ct) in
    let mac = poly1305_update mac (put_le64 (length ad)) in
    poly1305_finish (poly1305_update mac (put_le64 (length ct)))

-- `aead_encrypt_96`
unfoldable pub aead_encrypt_96 : List ℕ → List ℕ → List ℕ → List ℕ → List ℕ → List ℕ
aead_encrypt_96 dst src ad nonce12 key =
    let ct = chacha20_xor src key nonce12 1 in
    memcpy dst (ct ++ aead_tag key nonce12 ad ct) (length src + 16)

-- `aead_decrypt_96`: what it returns and `dst`.
unfoldable pub aead_decrypt_96 : List ℕ → List ℕ → List ℕ → List ℕ → List ℕ → Bool × List ℕ
aead_decrypt_96 dst src ad nonce12 key =
    let ct_len = length src - 16 in
    let ct = take ct_len src in
    let expected_tag = aead_tag key nonce12 ad ct in
    if ltb (length src) 16
    then (false, dst)
    else (if ct_memcmp expected_tag (drop ct_len src) 16 == 0
        then (true, memcpy dst (chacha20_xor ct key nonce12 1) ct_len)
        else (false, dst))

-- `nonce8_to_12`
unfoldable pub nonce8_to_12 : List ℕ → List ℕ
nonce8_to_12 nonce8 = 0 ∷ 0 ∷ 0 ∷ 0 ∷ take 8 nonce8

-- The 12 bytes that both functions of the buffer API make of a nonce.
unfoldable pub nonce_bytes : List ℕ → List ℕ
nonce_bytes nonce = if length nonce == 12 then take 12 nonce else nonce8_to_12 nonce

-- `chacha20_poly1305_encrypt`
unfoldable pub chacha20_poly1305_encrypt : List ℕ → List ℕ → List ℕ → List ℕ → List ℕ → List ℕ
chacha20_poly1305_encrypt dst src ad nonce key = aead_encrypt_96 dst src ad (nonce_bytes nonce) key

-- `chacha20_poly1305_decrypt`
unfoldable pub chacha20_poly1305_decrypt :
    List ℕ → List ℕ → List ℕ → List ℕ → List ℕ → Bool × List ℕ
chacha20_poly1305_decrypt dst src ad nonce key = aead_decrypt_96 dst src ad (nonce_bytes nonce) key

-- The key and the nonce that both functions with a nonce of 24 bytes derive.
abbrev pub subkey : List ℕ → List ℕ → List ℕ
subkey nonce key = hchacha20 (take 16 nonce) key

abbrev pub last_nonce : List ℕ → List ℕ
last_nonce nonce = nonce8_to_12 (drop 16 nonce)

-- `xchacha20_poly1305_encrypt`
unfoldable pub xchacha20_poly1305_encrypt : List ℕ → List ℕ → List ℕ → List ℕ → List ℕ → List ℕ
xchacha20_poly1305_encrypt dst src ad nonce key =
    aead_encrypt_96 dst src ad (last_nonce nonce) (subkey nonce key)

-- `xchacha20_poly1305_decrypt`
unfoldable pub xchacha20_poly1305_decrypt :
    List ℕ → List ℕ → List ℕ → List ℕ → List ℕ → Bool × List ℕ
xchacha20_poly1305_decrypt dst src ad nonce key =
    aead_decrypt_96 dst src ad (last_nonce nonce) (subkey nonce key)
