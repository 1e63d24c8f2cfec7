-- ===== src/Text/Base64/RoundTrip.antt =====
-- `decode_base64_32` of src/wg_session.c against an encoder of its own.
use polar_wg_app.Common.{
  ℕ, ◌+◌, ◌-◌, ◌*◌, ◌/◌, ◌%◌, ◌<◌, ◌≡◌, refl, false, some, List, [], ◌∷◌, ltb, ◌==◌, if◌then◌else◌,
  length, arith,
}
use polar_wg_app.Text.Base64.{b64_value, decode_groups, decode_base64_32}

-- The base64 alphabet of RFC 4648.
unfoldable pub b64_char : ℕ → ℕ
b64_char v =
    if ltb v 26
    then b'A' + v
    else if ltb v 52
    then b'a' + (v - 26)
    else if ltb v 62
    then b'0' + (v - 52)
    else if v == 62
    then b'+'
    else b'/'

-- The base64 text of a list of bytes, with `=` to fill the last group.
unfoldable pub encode : List ℕ → List ℕ
encode [] = []
encode (x ∷ []) = b64_char (x / 4) ∷ b64_char (x % 4 * 16) ∷ b'=' ∷ b'=' ∷ []
encode (x ∷ y ∷ []) =
    b64_char (x / 4) ∷ b64_char (x % 4 * 16 + y / 16) ∷ b64_char (y % 16 * 4) ∷ b'=' ∷ []
encode (x ∷ y ∷ z ∷ r) =
    b64_char (x / 4)
    ∷ b64_char (x % 4 * 16 + y / 16)
    ∷ b64_char (y % 16 * 4 + z / 64)
    ∷ b64_char (z % 64)
    ∷ encode r

abbrev pub IsBytes : List ℕ → Type 0
IsBytes [] = Unit {0}
IsBytes (x ∷ xs) = (x < 256) × IsBytes xs

b64_value-char : (v : ℕ) → v < 64 → b64_value (b64_char v) ≡ some v
unfolding b64_value b64_char
b64_value-char v h = ground arith

b64_char-ne : (v : ℕ) → v < 64 → (b64_char v == b'=') ≡ false
unfolding b64_char
b64_char-ne v h = ground arith

decode_groups-encode : (xs : List ℕ) → IsBytes xs → decode_groups (encode xs) ≡ some xs
unfolding decode_groups encode
decode_groups-encode [] h = refl
decode_groups-encode (x ∷ []) h =
    ground (arith, b64_value-char (x / 4), b64_value-char (x % 4 * 16))
decode_groups-encode (x ∷ y ∷ []) h = ground (
  arith,
  b64_value-char (x / 4),
  b64_value-char (x % 4 * 16 + y / 16),
  b64_value-char (y % 16 * 4),
  b64_char-ne (y % 16 * 4),
)
decode_groups-encode (x ∷ y ∷ z ∷ r) h = ground (
  arith,
  b64_value-char (x / 4),
  b64_value-char (x % 4 * 16 + y / 16),
  b64_value-char (y % 16 * 4 + z / 64),
  b64_value-char (z % 64),
  b64_char-ne (y % 16 * 4 + z / 64),
  b64_char-ne (z % 64),
  decode_groups-encode r h.1.1.1,
)

-- The number of characters for a number of bytes.
length-encode : (xs : List ℕ) → length (encode xs) ≡ (length xs + 2) / 3 * 4
unfolding encode
length-encode [] = refl
length-encode (x ∷ []) = refl
length-encode (x ∷ y ∷ []) = refl
length-encode (x ∷ y ∷ z ∷ r) = omega (arith, length-encode r)

-- `decode_base64_32` reads back every key of 32 bytes from its base64 text.
pub decode-encode :
    (key : List ℕ) → IsBytes key → length key ≡ 32 → decode_base64_32 (encode key) ≡ some key
unfolding decode_base64_32
decode-encode key h n = ground (arith, length-encode key, decode_groups-encode key h)

-- Whatever `decode_base64_32` accepts has 44 characters, and its result 32 bytes.
pub length-decode :
    (s : List ℕ) {key : List ℕ}
    → decode_base64_32 s ≡ some key
    → (length s ≡ 44) × (length key ≡ 32)
unfolding decode_base64_32
length-decode s e = ground arith
