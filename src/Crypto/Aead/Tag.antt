-- ===== src/Crypto/Aead/Tag.antt =====
-- The tag of src/wg_crypto_impl.c is the one of RFC 8439, and how two tags are compared.
use Prim.Native.Nat.{bit_and}
use polar_wg_app.Common.{
  ℕ, zero, suc, ◌+◌, ◌-◌, ◌*◌, ◌/◌, ◌%◌, ◌^◌, ◌≡◌, refl, ap, ap₂, subst, sym, ◌∙◌, List, [], ◌∷◌,
  ◌++◌, length, replicate, take, ◌==◌, if-cases, arith,
}
use polar_wg_app.Text.Base64.RoundTrip.{IsBytes}
use polar_wg_app.Session.Types.{le32, put_le32, put_le64}
use polar_wg_app.Crypto.Bits.{bit_and-ones}
use polar_wg_app.Crypto.Bytes.{IsBytes-take, zeros-IsBytes, append-nil}
use polar_wg_app.Crypto.Chacha.{poly1305_key_gen, chacha20_block, chacha20_state}
use polar_wg_app.Crypto.Chacha.Stream.{chacha20_block-IsBytes}
use polar_wg_app.Crypto.Poly.{Poly, poly1305_init, poly1305_update, poly1305_finish}
use polar_wg_app.Crypto.Poly.Tag.{le_bytes, word_bytes}
use polar_wg_app.Crypto.Poly.Mac.{reference}
use polar_wg_app.Crypto.Poly.Stream.{Absorbed, Absorbed-init, Absorbed-update}
use polar_wg_app.Crypto.Poly.Result.{finished}
use polar_wg_app.Crypto.Aead.{poly1305_pad16, aead_tag}

-- Zeros up to a multiple of 16 bytes.
abbrev pub padding : ℕ → List ℕ
padding n = replicate ((16 - n % 16) % 16) 0

-- The one-time key of RFC 8439, section 2.6: the first half of the ChaCha20 block for the state of section
-- 2.3, with the block counter 0. The block function is that of the code.
unfoldable pub rfc_key : List ℕ → List ℕ → List ℕ
rfc_key key nonce12 = take 32 (
    chacha20_block (
      0x61707865
      ∷ 0x3320646e
      ∷ 0x79622d32
      ∷ 0x6b206574
      ∷ le32 key 0
      ∷ le32 key 4
      ∷ le32 key 8
      ∷ le32 key 12
      ∷ le32 key 16
      ∷ le32 key 20
      ∷ le32 key 24
      ∷ le32 key 28
      ∷ 0
      ∷ le32 nonce12 0
      ∷ le32 nonce12 4
      ∷ le32 nonce12 8
      ∷ []))

-- The tag of RFC 8439, section 2.8, for a ciphertext.
unfoldable pub rfc_tag : List ℕ → List ℕ → List ℕ → List ℕ → List ℕ
rfc_tag key nonce12 ad ct = reference (rfc_key key nonce12) (
    ((((ad ++ padding (length ad)) ++ ct) ++ padding (length ct)) ++ le_bytes 8 (length ad))
    ++ le_bytes 8 (length ct))

low_four : (n : ℕ) → bit_and n 15 ≡ n % 16
low_four n =
    ap (λ (t : ℕ). bit_and t 15) {x = n} {y = n % 2 ^ 4 + n / 2 ^ 4 * 2 ^ 4} (omega arith)
    ∙ bit_and-ones 4 (n % 2 ^ 4) (n / 2 ^ 4) 15 (omega arith) (omega arith)

put_le32-le_bytes : (n : ℕ) → put_le32 n ≡ le_bytes 4 n
unfolding le_bytes
put_le32-le_bytes n =
    ap (λ x. n % 256 ∷ x)
      (ap₂ ◌∷◌ {x = n / 2 ^ 8 % 256} {y = n / 256 % 256} (omega arith) (
        ap₂ ◌∷◌ {x = n / 2 ^ 16 % 256} {y = n / 256 / 256 % 256} (omega arith) (
          ap (λ (t : ℕ). t ∷ []) {x = n / 2 ^ 24 % 256} {y = n / 256 / 256 / 256 % 256}
            (omega arith))))

put_le64-le_bytes : (n : ℕ) → put_le64 n ≡ le_bytes 8 n
unfolding le_bytes
put_le64-le_bytes n =
    ap (λ x. put_le32 (n % 2 ^ 32) ++ x) (put_le32-le_bytes (n / 2 ^ 32)) ∙ word_bytes n 4

le_bytes-IsBytes : (k n : ℕ) → IsBytes (le_bytes k n)
unfolding le_bytes
le_bytes-IsBytes zero n = tt
le_bytes-IsBytes (suc k) n = (omega arith, le_bytes-IsBytes k (n / 256))

length-le_bytes : (k n : ℕ) → length (le_bytes k n) ≡ k
unfolding le_bytes
length-le_bytes zero n = refl
length-le_bytes (suc k) n = ap suc (length-le_bytes k (n / 256))

Absorbed-pad16 :
    (key m : List ℕ) (p : Poly) (n : ℕ)
    → Absorbed key m p
    → Absorbed key (m ++ padding n) (poly1305_pad16 p n)
unfolding poly1305_pad16
Absorbed-pad16 key m p n h =
    let rem = bit_and n 15 in
    let low = low_four n in
    if-cases (Absorbed key (m ++ padding n)) (rem == 0)
      (λ e.
        let none_left : (16 - n % 16) % 16 ≡ 0 = ground (arith, low) in
        subst (λ x. Absorbed key x p)
          (sym (append-nil m) ∙ ap (λ k. m ++ replicate k 0) (sym none_left)) h)
      (λ e.
        let some_left : 16 - rem ≡ (16 - n % 16) % 16 = ground (arith, low) in
        subst (λ k. Absorbed key (m ++ replicate k 0) (poly1305_update p (replicate (16 - rem) 0)))
          some_left (Absorbed-update key m (replicate (16 - rem) 0) p h (zeros-IsBytes (16 - rem))))

key_gen-rfc_key : (key nonce12 : List ℕ) → poly1305_key_gen key nonce12 ≡ rfc_key key nonce12
unfolding poly1305_key_gen chacha20_state rfc_key
key_gen-rfc_key key nonce12 = refl

rfc_key-IsBytes : (key nonce12 : List ℕ) → IsBytes (rfc_key key nonce12)
unfolding rfc_key
rfc_key-IsBytes key nonce12 = IsBytes-take 32 _ (chacha20_block-IsBytes _)

pub aead_tag-rfc :
    (key nonce12 ad ct : List ℕ)
    → IsBytes ad
    → IsBytes ct
    → aead_tag key nonce12 ad ct ≡ rfc_tag key nonce12 ad ct
unfolding aead_tag rfc_tag
aead_tag-rfc key nonce12 ad ct a c =
    let pk = poly1305_key_gen key nonce12 in
    let same = key_gen-rfc_key key nonce12 in
    let m =
      ((((ad ++ padding (length ad)) ++ ct) ++ padding (length ct)) ++ le_bytes 8 (length ad))
      ++ le_bytes 8 (length ct) in
    let p0 = poly1305_init pk in
    let p1 = poly1305_update p0 ad in
    let p2 = poly1305_pad16 p1 (length ad) in
    let p3 = poly1305_update p2 ct in
    let p4 = poly1305_pad16 p3 (length ct) in
    let p5 = poly1305_update p4 (le_bytes 8 (length ad)) in
    let p6 = poly1305_update p5 (le_bytes 8 (length ct)) in
    let h1 = Absorbed-update pk [] ad p0 (Absorbed-init pk) a in
    let h2 = Absorbed-pad16 pk ad p1 (length ad) h1 in
    let h3 = Absorbed-update pk _ ct p2 h2 c in
    let h4 = Absorbed-pad16 pk _ p3 (length ct) h3 in
    let h5 = Absorbed-update pk _ (le_bytes 8 (length ad)) p4 h4 (le_bytes-IsBytes 8 (length ad)) in
    let h6 = Absorbed-update pk _ (le_bytes 8 (length ct)) p5 h5 (le_bytes-IsBytes 8 (length ct)) in
    ap₂ (λ x y. poly1305_finish (poly1305_update (poly1305_update p4 x) y))
      (put_le64-le_bytes (length ad)) (put_le64-le_bytes (length ct))
    ∙ finished pk _ p6 (subst IsBytes (sym same) (rfc_key-IsBytes key nonce12)) h6
    ∙ ap (λ k. reference k m) same

pub length-rfc_tag : (key nonce12 ad ct : List ℕ) → length (rfc_tag key nonce12 ad ct) ≡ 16
unfolding rfc_tag reference
length-rfc_tag key nonce12 ad ct = length-le_bytes 16 _

pub rfc_tag-IsBytes : (key nonce12 ad ct : List ℕ) → IsBytes (rfc_tag key nonce12 ad ct)
unfolding rfc_tag reference
rfc_tag-IsBytes key nonce12 ad ct = le_bytes-IsBytes 16 _
