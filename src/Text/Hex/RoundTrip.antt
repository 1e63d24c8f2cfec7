-- ===== src/Text/Hex/RoundTrip.antt =====
-- `hex_decode` of src/wg_session.c undoes `hex_encode`.
use polar_wg_app.Common.{ℕ, ◌*◌, ◌/◌, ◌%◌, ◌<◌, ◌≡◌, refl, some, List, [], ◌∷◌, length, arith}
use polar_wg_app.Text.Base64.RoundTrip.{IsBytes}
use polar_wg_app.Text.Hex.{hex_digit, hex_encode, hex_value, hex_pairs, hex_decode}

hex_value-digit : (n : ℕ) → n < 16 → hex_value (hex_digit n) ≡ some n
unfolding hex_value hex_digit
hex_value-digit n h = ground arith

length-hex_encode : (xs : List ℕ) → length (hex_encode xs) ≡ 2 * length xs
unfolding hex_encode
length-hex_encode [] = refl
length-hex_encode (x ∷ xs) = omega (arith, length-hex_encode xs)

hex_pairs-encode : (xs : List ℕ) → IsBytes xs → hex_pairs (hex_encode xs) ≡ some xs
unfolding hex_pairs hex_encode
hex_pairs-encode [] h = refl
hex_pairs-encode (x ∷ xs) h =
    ground (arith, hex_value-digit (x / 16 % 16), hex_value-digit (x % 16), hex_pairs-encode xs h.1)

-- `hex_decode` reads back every list of bytes from its text by `hex_encode`, at its own length.
pub hex_decode-encode :
    (xs : List ℕ) → IsBytes xs → hex_decode (length xs) (hex_encode xs) ≡ some xs
unfolding hex_decode
hex_decode-encode xs h = ground (arith, length-hex_encode xs, hex_pairs-encode xs h)
