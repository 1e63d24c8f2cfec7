-- ===== src/Crypto/Dispatch/InPlace.antt =====
-- `crypto_dispatch` of src/wg_crypto_impl.c beside the functions on buffers.
use Prim.Native.Nat.{bit_and}
use polar_wg_app.Common.{
  ℕ, zero, suc, ◌+◌, ◌-◌, ◌≤◌, ◌≡◌, refl, ap, ap₂, sym, ◌∙◌, List, [], ◌∷◌, ◌++◌, length, take,
  drop, length-take, take-append, drop-append, take_all, Bool, true, false, ltb, ltb-lt, ◌==◌,
  if◌then◌else◌, if-cases, arith,
}
use polar_wg_app.Session.Types.{memcpy}
use polar_wg_app.Crypto.Bytes.{append_assoc, drop-drop, IsBytes-take}
use polar_wg_app.Crypto.Chacha.{chacha20_xor}
use polar_wg_app.Crypto.Chacha.Stream.{length-chacha20_xor, chacha20_xor-IsBytes}
use polar_wg_app.Crypto.Poly.{poly1305_init, poly1305_update, blocks}
use polar_wg_app.Text.Base64.RoundTrip.{IsBytes}
use polar_wg_app.Crypto.Aead.Tag.{aead_tag-rfc}
use polar_wg_app.Crypto.Aead.Verdict.{aead_encrypt_96-rfc}
use polar_wg_app.Crypto.Aead.{
  ct_memcmp, poly1305_pad16, aead_tag, aead_encrypt_96, aead_decrypt_96, nonce8_to_12, nonce_bytes,
  chacha20_poly1305_encrypt, chacha20_poly1305_decrypt,
}
use polar_wg_app.Crypto.Dispatch.{
  Status, done, ebadmsg, Cryptop, crypto_op_encrypt, payload_tag, dispatch_encrypt,
  dispatch_decrypt, crypto_dispatch, with_status,
}

with_status-if :
    (b : Bool) (x y : List ℕ)
    → (if b then (done, x) else (ebadmsg, y)) ≡ with_status (if b then (true, x) else (false, y))
with_status-if true x y = refl
with_status-if false x y = refl

payload_tag-aead_tag :
    (key n12 ct : List ℕ) (n : ℕ)
    → length ct ≡ n
    → payload_tag key n12 ct n ≡ aead_tag key n12 [] ct
unfolding payload_tag aead_tag poly1305_update poly1305_pad16 blocks poly1305_init
payload_tag-aead_tag key n12 ct n e = ap (λ k. payload_tag key n12 ct k) (sym e)

-- The payload and the tag of a payload with its tag.
drop-take : (n k : ℕ) (xs : List ℕ) → drop n (take (n + k) xs) ≡ take k (drop n xs)
drop-take zero k xs = ap (λ j. take j xs) (omega arith)
drop-take (suc n) zero [] = ap (λ j. drop (suc n) (take j [])) {y = suc n} (omega arith)
drop-take (suc n) (suc k) [] =
    ap (λ j. drop (suc n) (take j [])) {y = suc (n + suc k)} (omega arith)
drop-take (suc n) k (x ∷ xs) =
    ap (λ j. drop (suc n) (take j (x ∷ xs))) {y = suc (n + k)} (omega arith) ∙ drop-take n k xs

take-take : (n k : ℕ) (xs : List ℕ) → take n (take (n + k) xs) ≡ take n xs
take-take zero k xs = refl
take-take (suc n) k [] = ap (λ j. take (suc n) (take j [])) {y = suc (n + k)} (omega arith)
take-take (suc n) k (x ∷ xs) =
    ap (λ j. take (suc n) (take j (x ∷ xs))) {y = suc (n + k)} (omega arith)
    ∙ ap (λ t. x ∷ t) (take-take n k xs)

short_nonce : (iv : List ℕ) → length iv ≡ 8 → nonce_bytes iv ≡ nonce8_to_12 iv
unfolding nonce_bytes
short_nonce iv e =
    if-cases (λ x. x ≡ nonce8_to_12 iv) (length iv == 12) (λ f. absurd (ground (arith, e)))
      (λ _. refl)

sealed_in_place :
    (m src key n12 : List ℕ) (n : ℕ)
    → length src ≡ n
    → IsBytes src
    → let ct = chacha20_xor src key n12 1 in
      (ct ++ aead_tag key n12 [] ct) ++ drop (n + 16) m ≡ aead_encrypt_96 m src [] n12 key
sealed_in_place m src key n12 n e h =
    let ct = chacha20_xor src key n12 1 in
    ap₂ (λ t k. (ct ++ t) ++ drop (k + 16) m)
      (aead_tag-rfc key n12 [] ct tt (chacha20_xor-IsBytes src key n12 1 h (omega arith))) (sym e)
    ∙ sym (aead_encrypt_96-rfc m src [] n12 key h tt)

encrypt_in_place :
    (crp : Cryptop) (m : List ℕ)
    → length crp.iv ≡ 8
    → crp.digest_start ≡ crp.payload_length
    → crp.payload_length + 16 ≤ length m
    → IsBytes m
    → dispatch_encrypt crp m
      ≡ chacha20_poly1305_encrypt m (take crp.payload_length m) [] crp.iv crp.cipher_key
unfolding dispatch_encrypt chacha20_poly1305_encrypt aead_encrypt_96
encrypt_in_place crp m iv8 at room bytes =
    let n = crp.payload_length in
    let key = crp.cipher_key in
    let n12 = nonce8_to_12 crp.iv in
    let src = take n m in
    let ct = chacha20_xor src key n12 1 in
    let m1 = memcpy m ct n in
    let tag = aead_tag key n12 [] ct in
    let src_len : length src ≡ n = omega (arith, length-take n m) in
    let ct_len : length ct ≡ n = length-chacha20_xor src key n12 1 ∙ src_len in
    let whole : m1 ≡ ct ++ drop n m =
      ap (λ x. x ++ drop n m) (take_all n ct (omega (arith, ct_len))) in
    let front : take n m1 ≡ ct = ap (take n) whole ∙ take-append n ct (drop n m) ct_len in
    let back : drop (n + 16) m1 ≡ drop (n + 16) m =
      sym (drop-drop 16 n m1)
      ∙ ap (λ x. drop 16 (drop n x)) whole
      ∙ ap (drop 16) (drop-append n ct (drop n m) ct_len)
      ∙ drop-drop 16 n m in
    ap₂ ◌++◌ (ap (λ j. take j m1) at ∙ front) (
      ap₂ ◌++◌ (ap (λ x. payload_tag key n12 x n) front ∙ payload_tag-aead_tag key n12 ct n ct_len)
        (ap (λ j. drop (j + 16) m1) at ∙ back))
    ∙ sym (append_assoc ct tag (drop (n + 16) m))
    ∙ sealed_in_place m src key n12 n src_len (IsBytes-take n m bytes)
    ∙ ap (λ x. aead_encrypt_96 m src [] x key) (sym (short_nonce crp.iv iv8))

decrypt_in_place :
    (crp : Cryptop) (m : List ℕ)
    → length crp.iv ≡ 8
    → crp.digest_start ≡ crp.payload_length
    → crp.payload_length + 16 ≤ length m
    → dispatch_decrypt crp m
      ≡ with_status
          (chacha20_poly1305_decrypt m (take (crp.payload_length + 16) m) [] crp.iv crp.cipher_key)
unfolding dispatch_decrypt chacha20_poly1305_decrypt aead_decrypt_96
decrypt_in_place crp m iv8 at room =
    let n = crp.payload_length in
    let key = crp.cipher_key in
    let n12 = nonce8_to_12 crp.iv in
    let src = take (n + 16) m in
    let src_len : length src ≡ n + 16 = omega (arith, length-take (n + 16) m) in
    let opened : ℕ → List ℕ → List ℕ → Bool × List ℕ = λ k ct tag.
      if ct_memcmp (aead_tag key n12 [] ct) tag 16 == 0
      then (true, memcpy m (chacha20_xor ct key n12 1) k)
      else (false, m) in
    let unpacked : opened (length src - 16) (take (length src - 16) src)
          (drop (length src - 16) src)
        ≡ opened n (take n m) (take 16 (drop n m)) =
      ap (λ k. opened k (take k src) (drop k src)) {y = n} (omega (arith, src_len))
      ∙ ap₂ (opened n) (take-take n 16 m) (drop-take n 16 m) in
    let back : aead_decrypt_96 m src [] n12 key ≡ opened n (take n m) (take 16 (drop n m)) =
      if-cases (λ r. r ≡ opened n (take n m) (take 16 (drop n m))) (ltb (length src) 16)
        (λ e. absurd (omega (arith, src_len, ltb-lt (length src) 16 e))) (λ _. unpacked) in
    let plain = memcpy m (chacha20_xor (take n m) key n12 1) n in
    let answer : List ℕ → ℕ → Status × List ℕ =
      λ t k. if ct_memcmp t (take 16 (drop k m)) 16 == 0 then (done, plain) else (ebadmsg, m) in
    ap₂ answer (payload_tag-aead_tag key n12 (take n m) n (omega (arith, length-take n m))) at
    ∙ with_status-if (ct_memcmp (aead_tag key n12 [] (take n m)) (take 16 (drop n m)) 16 == 0) plain
        m
    ∙ ap with_status (sym back)
    ∙ ap (λ x. with_status (aead_decrypt_96 m src [] x key)) (sym (short_nonce crp.iv iv8))

-- `crypto_dispatch` does in place what the buffer API does with no additional data: with the encryption
-- bit of `crp_op` it leaves the mbuf as `chacha20_poly1305_encrypt` with the mbuf as its destination
-- does, and without it, it decrypts the payload and the tag into the mbuf as
-- `chacha20_poly1305_decrypt` does, and returns `EBADMSG` exactly where that returns false. The nonce has
-- 8 bytes, the tag follows the payload, both fit the mbuf, and its elements are bytes.
pub crypto_dispatch-buffer :
    (crp : Cryptop) (m : List ℕ)
    → length crp.iv ≡ 8
    → crp.digest_start ≡ crp.payload_length
    → crp.payload_length + 16 ≤ length m
    → IsBytes m
    → let n = crp.payload_length in
      crypto_dispatch crp m ≡ (
        if bit_and crp.op crypto_op_encrypt == 0
        then with_status (chacha20_poly1305_decrypt m (take (n + 16) m) [] crp.iv crp.cipher_key)
        else (done, chacha20_poly1305_encrypt m (take n m) [] crp.iv crp.cipher_key))
unfolding crypto_dispatch
crypto_dispatch-buffer crp m iv8 at room bytes =
    ap₂ (λ x y. if bit_and crp.op crypto_op_encrypt == 0 then x else y)
      (decrypt_in_place crp m iv8 at room)
      (ap (λ x. (done, x)) (encrypt_in_place crp m iv8 at room bytes))
