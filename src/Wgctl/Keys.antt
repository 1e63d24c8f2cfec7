-- ===== src/Wgctl/Keys.antt =====
-- Keys printed by src/wgctl.c, read by the configuration parser of src/wg_session.c.
use polar_wg_app.Common.{
  ℕ, zero, suc, ◌+◌, ◌*◌, ◌/◌, ◌%◌, ◌^◌, ◌<◌, ◌≡◌, refl, ◌∙◌, Bool, true, ◌&&◌, some, List, [], ◌∷◌,
  ◌==◌, length, take, arith, ==_iff, ap, get_or,
}
use polar_wg_app.Text.Base64.{decode_base64_32}
use polar_wg_app.Text.Base64.RoundTrip.{b64_char, encode, IsBytes, decode-encode}
use polar_wg_app.Wgctl.{alphabet, b64_enc, b64_groups, b64_encode_32, b64_decode_32}

-- The two alphabets agree below `n`.
unfoldable agree : ℕ → Bool
agree zero = true
agree (suc n) = (b64_enc n == b64_char n) && agree n

agree-lt : (k n : ℕ) → agree k ≡ true → n < k → b64_enc n ≡ b64_char n
unfolding agree
agree-lt zero n e h = absurd (omega arith)
agree-lt (suc k) n e h = ground (arith, ==_iff (b64_enc k) (b64_char k), agree-lt k n)

agree_64 : agree 64 ≡ true
unfolding agree b64_enc b64_char
agree_64 = refl

enc-char : (v n : ℕ) → v % 64 ≡ n → b64_enc v ≡ b64_char n
unfolding b64_enc
enc-char v n e =
    ap (λ k. get_or alphabet k 0) {x = v % 64} {y = n % 64} (omega arith)
    ∙ agree-lt 64 n agree_64 (omega arith)

groups-encode : (xs : List ℕ) → IsBytes xs → length xs % 3 ≡ 2 → b64_groups xs ≡ encode xs
unfolding b64_groups encode
groups-encode [] h e = absurd (omega arith)
groups-encode (x ∷ []) h e = absurd (omega arith)
groups-encode (x ∷ y ∷ []) h e =
    let v = x * 2 ^ 16 + y * 2 ^ 8 in
    ground (
      arith,
      enc-char (v / 2 ^ 18) (x / 4) (omega arith),
      enc-char (v / 2 ^ 12) (x % 4 * 16 + y / 16) (omega arith),
      enc-char (v / 2 ^ 6) (y % 16 * 4) (omega arith),
    )
groups-encode (x ∷ y ∷ z ∷ r) h e =
    let v = x * 2 ^ 16 + y * 2 ^ 8 + z in
    ground (
      arith,
      enc-char (v / 2 ^ 18) (x / 4) (omega arith),
      enc-char (v / 2 ^ 12) (x % 4 * 16 + y / 16) (omega arith),
      enc-char (v / 2 ^ 6) (y % 16 * 4 + z / 64) (omega arith),
      enc-char v (z % 64) (omega arith),
      groups-encode r h.1.1.1 (omega arith),
    )

take-length : (n : ℕ) (xs : List ℕ) → length xs ≡ n → take n xs ≡ xs
take-length zero [] e = refl
take-length zero (x ∷ xs) e = absurd (omega arith)
take-length (suc n) [] e = refl
take-length (suc n) (x ∷ xs) e = ap (◌∷◌ x) (take-length n xs (omega arith))

-- A key of 32 bytes, as `wgctl genkey`, `pubkey` and `genpsk` print it, is read back as the same key
-- by the base64 decoder of the configuration parser, and by that of `wgctl pubkey`.
pub decode-b64_encode_32 :
    (key : List ℕ)
    → IsBytes key
    → length key ≡ 32
    → (decode_base64_32 (b64_encode_32 key) ≡ some key)
      × (b64_decode_32 (b64_encode_32 key) ≡ some key)
unfolding b64_encode_32 b64_decode_32
decode-b64_encode_32 key h n =
    let e : decode_base64_32 (b64_groups (take 32 key)) ≡ some key =
      ap (λ k. decode_base64_32 (b64_groups k)) (take-length 32 key n)
      ∙ ap decode_base64_32 (groups-encode key h (omega arith))
      ∙ decode-encode key h n in
    (e, e)
