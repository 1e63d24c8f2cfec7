-- ===== src/Text/Tests.antt =====
-- Tests of the text functions of src/wg_session.c.
use polar_wg_app.Common.{ℕ, ◌≡◌, refl, some, List, replicate, arith}
use polar_wg_app.Common.Texts.{codes}
use polar_wg_app.Text.Base64.{decode_base64_32, decode_groups, b64_value}
use polar_wg_app.Text.Base64.RoundTrip.{IsBytes}

abbrev key : List ℕ
key = replicate 32 200

key-IsBytes : IsBytes key
key-IsBytes = ground arith

abbrev zeros : List ℕ
zeros = codes "AAAAAAAAAAAAAAAAAAAAAAAAAAAAAAAAAAAAAAAAAAA="

decode_zeros : decode_base64_32 zeros ≡ some (replicate 32 0)
unfolding decode_base64_32 decode_groups b64_value
decode_zeros = refl
