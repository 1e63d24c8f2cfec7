-- ===== src/Text/Hex.antt =====
-- `hex_encode` and `hex_decode` of src/wg_session.c.
pub mod RoundTrip
use polar_wg_app.Common.{
  ℕ, zero, suc, ◌+◌, ◌-◌, ◌*◌, ◌/◌, ◌%◌, ◌<◌, ◌≡◌, refl, Bool, true, false, ◌&&◌, Option, none,
  some, List, [], ◌∷◌, leb, ltb, ◌==◌, if◌then◌else◌, length, ◌>>=◌, ◌>>◌, require, arith,
}

-- The characters of "0123456789abcdef".
unfoldable pub hex_digit : ℕ → ℕ
hex_digit n = if ltb n 10 then b'0' + n else b'a' + (n - 10)

unfoldable pub hex_encode : List ℕ → List ℕ
hex_encode [] = []
hex_encode (x ∷ xs) = hex_digit (x / 16 % 16) ∷ hex_digit (x % 16) ∷ hex_encode xs

unfoldable pub hex_value : ℕ → Option ℕ
hex_value c =
    if leb b'0' c && leb c b'9'
    then some (c - b'0')
    else if leb b'a' c && leb c b'f'
    then some (c - b'a' + 10)
    else if leb b'A' c && leb c b'F'
    then some (c - b'A' + 10)
    else none

-- The loop of `hex_decode`, on pairs of characters.
unfoldable pub hex_pairs : List ℕ → Option (List ℕ)
hex_pairs (a ∷ b ∷ s) = do
  let more = hex_pairs s
  hi ← hex_value a
  lo ← hex_value b
  out ← more
  some ((hi * 16 + lo) ∷ out)
hex_pairs s = some []

unfoldable pub hex_decode : ℕ → List ℕ → Option (List ℕ)
hex_decode n s = do require (length s == 2 * n); hex_pairs s
