-- ===== src/Wgctl/Commands/KeyPipe.antt =====
-- `wgctl genkey` and `wgctl genpsk` into `wgctl pubkey`, in src/wgctl.c.
use polar_wg_app.Common.{
  ℕ, zero, suc, ◌<◌, ◌≡◌, refl, ap, ◌∙◌, Bool, true, not, ◌&&◌, some, List, [], ◌∷◌, ◌++◌, ◌==◌,
  ◌%◌, length, take, get_or, arith,
}
use polar_wg_app.Text.{c_string, is_blank, drop_trailing}
use polar_wg_app.Text.Base64.RoundTrip.{IsBytes}
use polar_wg_app.Wgctl.{alphabet, b64_enc, b64_groups, b64_encode_32, b64_decode_32}
use polar_wg_app.Wgctl.Keys.{decode-b64_encode_32}
use polar_wg_app.Wgctl.Commands.{
  System, code, Shell, print_line, cmd_genkey, line_text, print_public, derive, read_key,
  cmd_pubkey,
}

-- No NUL, and nothing that `cmd_pubkey` strips.
abbrev is_plain : ℕ → Bool
is_plain c = not (c == 0) && not (is_blank c)

unfoldable all_plain : List ℕ → Bool
all_plain [] = true
all_plain (c ∷ s) = is_plain c && all_plain s

c_string-line : (t : List ℕ) → all_plain t ≡ true → c_string (t ++ 0x0a ∷ []) ≡ t ++ 0x0a ∷ []
unfolding c_string all_plain
c_string-line [] h = refl
c_string-line (c ∷ t) h = ground (arith, c_string-line t)

drop_trailing-line : (t : List ℕ) → all_plain t ≡ true → drop_trailing (t ++ 0x0a ∷ []) ≡ t
unfolding drop_trailing all_plain
drop_trailing-line [] h = refl
drop_trailing-line (c ∷ []) h = ground arith
drop_trailing-line (c ∷ d ∷ t) h = ground (arith, drop_trailing-line (d ∷ t))

get_or-all_plain :
    (s : List ℕ) (i : ℕ) → all_plain s ≡ true → i < length s → is_plain (get_or s i 0) ≡ true
unfolding all_plain
get_or-all_plain [] i h n = absurd (omega arith)
get_or-all_plain (c ∷ s) zero h n = ground arith
get_or-all_plain (c ∷ s) (suc i) h n = ground (arith, get_or-all_plain s i)

alphabet-plain : all_plain alphabet ≡ true
unfolding all_plain
alphabet-plain = refl

b64_enc-plain : (v : ℕ) → is_plain (b64_enc v) ≡ true
unfolding b64_enc
b64_enc-plain v = get_or-all_plain alphabet (v % 64) alphabet-plain (omega arith)

enc-plain_cons : (v : ℕ) (s : List ℕ) → all_plain s ≡ true → all_plain (b64_enc v ∷ s) ≡ true
unfolding all_plain
enc-plain_cons v s t = ground (arith, b64_enc-plain v)

pad-plain : all_plain (b'=' ∷ []) ≡ true
unfolding all_plain
pad-plain = refl

nil-plain : all_plain [] ≡ true
unfolding all_plain
nil-plain = refl

b64_groups-plain : (xs : List ℕ) → all_plain (b64_groups xs) ≡ true
unfolding b64_groups
b64_groups-plain [] = nil-plain
b64_groups-plain (x ∷ []) = nil-plain
b64_groups-plain (x ∷ y ∷ []) = search (enc-plain_cons, pad-plain)
b64_groups-plain (x ∷ y ∷ z ∷ r) = search (enc-plain_cons, b64_groups-plain r)

b64_encode_32-plain : (key : List ℕ) → all_plain (b64_encode_32 key) ≡ true
unfolding b64_encode_32
b64_encode_32-plain key = b64_groups-plain (take 32 key)

module _ {W : Type 0} (S : System W) where
  line_text-line : (t : List ℕ) → all_plain t ≡ true → line_text S (t ++ 0x0a ∷ []) ≡ t
  unfolding line_text
  line_text-line t h = ap drop_trailing (c_string-line t h) ∙ drop_trailing-line t h

  -- The key that `cmd_genkey` makes.
  abbrev pub new_secret : Shell W → List ℕ
  new_secret s = S.clamp_secret (S.generate_secret s.world).0

  derive-pk :
      (sk pk : List ℕ) (r : Shell W)
      → S.generate_public sk ≡ some pk
      → derive S (some sk) r ≡ (code 0, print_line S (b64_encode_32 pk) r.world r)
  unfolding derive print_public
  derive-pk sk pk r e = grind arith

  read_key-text :
      (sk pk : List ℕ) (r : Shell W)
      → IsBytes sk
      → length sk ≡ 32
      → S.generate_public sk ≡ some pk
      → read_key S (some (b64_encode_32 sk ++ 0x0a ∷ [])) r
        ≡ (code 0, print_line S (b64_encode_32 pk) r.world r)
  unfolding read_key
  read_key-text sk pk r bytes len e =
      let t = b64_encode_32 sk in
      ap (λ u. derive S (b64_decode_32 u) r) (line_text-line t (b64_encode_32-plain sk))
      ∙ ap (λ o. derive S o r) (decode-b64_encode_32 sk bytes len).1
      ∙ derive-pk sk pk r e

  -- The line that was printed last.
  abbrev pub last_line : Shell W → List ℕ
  last_line s = elim s.printed [ [] ↦ [] | t ∷ ts ↦ t ]

  -- If `cmd_genkey` makes a key of 32 bytes whose public key can be computed, it returns 0 and prints
  -- exactly one line, and `cmd_pubkey`, when `fgets` gives it this line with its newline, returns 0 and prints
  -- exactly one line, the text of the public key.
  pub cmd_genkey-cmd_pubkey :
      (s r : Shell W) (pk : List ℕ)
      → IsBytes (new_secret s)
      → length (new_secret s) ≡ 32
      → S.generate_public (new_secret s) ≡ some pk
      → (S.fgets 128 r.world).0 ≡ some (last_line (cmd_genkey S s).1 ++ 0x0a ∷ [])
      → ((cmd_genkey S s).0 ≡ code 0)
        × ((cmd_genkey S s).1.printed ≡ last_line (cmd_genkey S s).1 ∷ s.printed)
        × ((cmd_pubkey S r).0 ≡ code 0)
        × ((cmd_pubkey S r).1.printed ≡ b64_encode_32 pk ∷ r.printed)
  unfolding cmd_genkey cmd_pubkey
  cmd_genkey-cmd_pubkey s r pk bytes len e got =
      let w = (S.fgets 128 r.world).1 in
      let read = read_key-text (new_secret s) pk (record r { world = w }) bytes len e in grind arith
