-- ===== src/Text/Base64.antt =====
-- `b64_value` and `decode_base64_32` of src/wg_session.c: keys in base64.
pub mod RoundTrip
use mathlib.Core.Option
use polar_wg_app.Common.{
  ℕ, zero, suc, ◌+◌, ◌-◌, ◌*◌, ◌/◌, ◌%◌, ◌<◌, ◌≡◌, refl, ap, Bool, true, false, ◌&&◌, Option, none,
  some, List, [], ◌∷◌, ◌++◌, ltb, leb, ◌==◌, if◌then◌else◌, length, ◌>>=◌, ◌>>◌, require, arith,
}

-- `none` is the return value -1.
unfoldable pub b64_value : ℕ → Option ℕ
b64_value c =
    if leb b'A' c && leb c b'Z'
    then some (c - b'A')
    else if leb b'a' c && leb c b'z'
    then some (c - b'a' + 26)
    else if leb b'0' c && leb c b'9'
    then some (c - b'0' + 52)
    else if c == b'+'
    then some 62
    else if c == b'/'
    then some 63
    else none

-- The loop over groups of four characters: the bytes written to `tmp`. The shifted parts of a byte
-- do not overlap, so `|` is a sum.
unfoldable pub decode_groups : List ℕ → Option (List ℕ)
decode_groups (a ∷ b ∷ c ∷ d ∷ rest) = do
  let more = decode_groups rest
  v0 ← b64_value a
  v1 ← b64_value b
  let x = v0 * 4 + v1 / 16
  if c == b'=' then some (x ∷ []) else do
    v2 ← b64_value c
    let y = v1 % 16 * 16 + v2 / 4
    if d == b'='
        then some (x ∷ y ∷ [])
        else do v3 ← b64_value d; let z = v2 % 4 * 64 + v3; Option.map (λ out. x ∷ y ∷ z ∷ out) more
decode_groups rest = some []

unfoldable pub decode_base64_32 : List ℕ → Option (List ℕ)
decode_base64_32 s = do
  require (length s == 44)
  out ← decode_groups s
  require (length out == 32)
  some out
