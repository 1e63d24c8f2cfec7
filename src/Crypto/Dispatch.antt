-- ===== src/Crypto/Dispatch.antt =====
-- `crypto_dispatch` of src/wg_crypto_impl.c, which works on the bytes of an mbuf in place.
pub mod InPlace
use Prim.Native.Nat.{bit_and}
use polar_wg_app.Common.{
  ℕ, zero, suc, ◌+◌, ◌-◌, ◌*◌, ◌/◌, ◌%◌, ◌^◌, ◌≤◌, ◌<◌, ◌≡◌, refl, ap, ap₂, subst, sym, ◌∙◌, List,
  [], ◌∷◌, ◌++◌, length, take, drop, length-take, length-append, length-drop, take-append,
  drop-append, take_all, Bool, true, false, ltb, ltb-lt, ◌==◌, if◌then◌else◌, if-cases, min, arith,
}
use polar_wg_app.Session.Types.{put_le64, memcpy}
use polar_wg_app.Crypto.Bytes.{append_assoc, drop-drop, IsBytes-take}
use polar_wg_app.Crypto.Chacha.{chacha20_xor, poly1305_key_gen}
use polar_wg_app.Crypto.Chacha.Stream.{length-chacha20_xor, chacha20_xor-IsBytes}
use polar_wg_app.Crypto.Poly.{Poly, poly1305_init, poly1305_update, blocks, poly1305_finish}
use polar_wg_app.Text.Base64.RoundTrip.{IsBytes}
use polar_wg_app.Crypto.Aead.Tag.{aead_tag-rfc}
use polar_wg_app.Crypto.Aead.Verdict.{aead_encrypt_96-rfc}
use polar_wg_app.Crypto.Aead.{
  ct_memcmp, poly1305_pad16, aead_tag, aead_encrypt_96, aead_decrypt_96, nonce8_to_12, nonce_bytes,
  chacha20_poly1305_encrypt, chacha20_poly1305_decrypt,
}

-- What `crypto_dispatch` returns: 0 or `EBADMSG`.
pub data Status : Type 0 where
  done : Status
  ebadmsg : Status

-- `struct cryptop`, as far as it is read; the mbuf's bytes stand apart.
pub record Cryptop : Type 0 where
  pub op : ℕ
  pub payload_length : ℕ
  pub digest_start : ℕ
  pub iv : List ℕ
  pub cipher_key : List ℕ

-- `CRYPTO_OP_ENCRYPT`
abbrev pub crypto_op_encrypt : ℕ
crypto_op_encrypt = 1

-- The tag of a payload, without additional data.
unfoldable pub payload_tag : List ℕ → List ℕ → List ℕ → ℕ → List ℕ
payload_tag key n12 payload pay_len =
    let mac = poly1305_init (poly1305_key_gen key n12) in
    let mac = poly1305_pad16 (poly1305_update mac payload) pay_len in
    let mac = poly1305_update mac (put_le64 0) in
    poly1305_finish (poly1305_update mac (put_le64 pay_len))

unfoldable pub dispatch_encrypt : Cryptop → List ℕ → List ℕ
dispatch_encrypt crp m =
    let n12 = nonce8_to_12 crp.iv in
    let pay_len = crp.payload_length in
    let payload = chacha20_xor (take pay_len m) crp.cipher_key n12 1 in
    let m1 = memcpy m payload pay_len in
    take crp.digest_start m1
    ++ (payload_tag crp.cipher_key n12 (take pay_len m1) pay_len ++ drop (crp.digest_start + 16) m1)

unfoldable pub dispatch_decrypt : Cryptop → List ℕ → Status × List ℕ
dispatch_decrypt crp m =
    let n12 = nonce8_to_12 crp.iv in
    let pay_len = crp.payload_length in
    let payload = take pay_len m in
    let expected = payload_tag crp.cipher_key n12 payload pay_len in
    if ct_memcmp expected (take 16 (drop crp.digest_start m)) 16 == 0
    then (done, memcpy m (chacha20_xor payload crp.cipher_key n12 1) pay_len)
    else (ebadmsg, m)

-- `crypto_dispatch`
unfoldable pub crypto_dispatch : Cryptop → List ℕ → Status × List ℕ
crypto_dispatch crp m =
    if bit_and crp.op crypto_op_encrypt == 0
    then dispatch_decrypt crp m
    else (done, dispatch_encrypt crp m)

abbrev pub status_of : Bool → Status
status_of true = done
status_of false = ebadmsg

abbrev pub with_status : Bool × List ℕ → Status × List ℕ
with_status r = (status_of r.0, r.1)
