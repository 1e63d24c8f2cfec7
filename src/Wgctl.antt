-- ===== src/Wgctl.antt =====
-- The texts and file names of src/wgctl.c: `b64_encode_32`, `validate_iface` and `make_paths`.
pub mod Keys
pub mod Files
pub mod Commands
pub mod Show
mod Tests
use polar_wg_app.Common.{
  ℕ, zero, suc, ◌+◌, ◌*◌, ◌/◌, ◌%◌, ◌^◌, Bool, true, false, ◌&&◌, ◌||◌, Option, List, [], ◌∷◌, ◌++◌,
  leb, ◌==◌, get_or, length, take,
}
use polar_wg_app.Common.Texts.{codes}
use polar_wg_app.Text.Base64.{decode_base64_32}

-- `B64_ENC`
abbrev pub alphabet : List ℕ
alphabet = codes "ABCDEFGHIJKLMNOPQRSTUVWXYZabcdefghijklmnopqrstuvwxyz0123456789+/"

-- `B64_ENC[v & 0x3f]`
unfoldable pub b64_enc : ℕ → ℕ
b64_enc v = get_or alphabet (v % 64) 0

-- The loop over groups of three bytes, and the two bytes left at the end of the 32. The shifted
-- bytes do not overlap, so `|` is a sum. One byte left does not occur.
unfoldable pub b64_groups : List ℕ → List ℕ
b64_groups [] = []
b64_groups (x ∷ []) = []
b64_groups (x ∷ y ∷ []) =
    let v = x * 2 ^ 16 + y * 2 ^ 8 in
    b64_enc (v / 2 ^ 18) ∷ b64_enc (v / 2 ^ 12) ∷ b64_enc (v / 2 ^ 6) ∷ b'=' ∷ []
b64_groups (x ∷ y ∷ z ∷ r) =
    let v = x * 2 ^ 16 + y * 2 ^ 8 + z in
    b64_enc (v / 2 ^ 18) ∷ b64_enc (v / 2 ^ 12) ∷ b64_enc (v / 2 ^ 6) ∷ b64_enc v ∷ b64_groups r

-- `b64_encode_32`
unfoldable pub b64_encode_32 : List ℕ → List ℕ
b64_encode_32 key = b64_groups (take 32 key)

-- `b64_decode_32` with its `b64_value`: the code is that of src/wg_session.c, word for word.
unfoldable pub b64_decode_32 : List ℕ → Option (List ℕ)
b64_decode_32 s = decode_base64_32 s

abbrev pub is_iface_char : ℕ → Bool
is_iface_char c =
    (leb b'a' c && leb c b'z') || ((leb b'0' c && leb c b'9') || (c == b'_' || c == b'-'))

unfoldable pub all_iface_chars : List ℕ → Bool
all_iface_chars [] = true
all_iface_chars (c ∷ s) = is_iface_char c && all_iface_chars s

-- `validate_iface`, true for 0.
unfoldable pub validate_iface : List ℕ → Bool
validate_iface iface = leb 1 (length iface) && (leb (length iface) 15 && all_iface_chars iface)

-- `snprintf(out, 256, "%s/%s.xxx", dir, iface)`
abbrev pub path : List ℕ → List ℕ → List ℕ → List ℕ
path dir iface suffix = take 255 (dir ++ b'/' ∷ (iface ++ suffix))

pub record Paths : Type 0 where
  pub conf : List ℕ
  pub pidp : List ℕ
  pub namep : List ℕ
  pub sockp : List ℕ

-- `make_paths`
unfoldable pub make_paths : List ℕ → Paths
make_paths iface = record {
  conf = path (codes "/etc/wireguard") iface (codes ".conf");
  pidp = path (codes "/var/run/wireguard") iface (codes ".pid");
  namep = path (codes "/var/run/wireguard") iface (codes ".name");
  sockp = path (codes "/var/run/wireguard") iface (codes ".sock");
}
