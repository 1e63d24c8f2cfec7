-- ===== src/Wgctl/Files.antt =====
-- The files of an interface in src/wgctl.c stay in their directories.
use polar_wg_app.Common.{
  ℕ, zero, suc, ◌+◌, ◌≤◌, ◌≡◌, refl, ap, ◌∙◌, Bool, true, false, none, some, List, [], ◌∷◌, ◌++◌,
  ◌==◌, length, take, arith, if◌then◌else◌, length-append,
}
use polar_wg_app.Common.Texts.{codes}
use polar_wg_app.Text.{split_last}
use polar_wg_app.Wgctl.{all_iface_chars, validate_iface, path, make_paths}

-- No character is `c`.
unfoldable pub lacks : ℕ → List ℕ → Bool
lacks c [] = true
lacks c (x ∷ xs) = if x == c then false else lacks c xs

split_last-lacks : (c : ℕ) (s : List ℕ) → lacks c s ≡ true → split_last c s ≡ none
unfolding lacks split_last
split_last-lacks c [] h = refl
split_last-lacks c (x ∷ s) h = ground (arith, split_last-lacks c s)

split_last-append :
    (c : ℕ) (dir s : List ℕ) → lacks c s ≡ true → split_last c (dir ++ c ∷ s) ≡ some (dir, s)
unfolding split_last
split_last-append c [] s h = ground (arith, split_last-lacks c s h)
split_last-append c (x ∷ dir) s h = ground (arith, split_last-append c dir s h)

lacks-append : (c : ℕ) (s t : List ℕ) → lacks c s ≡ true → lacks c (s ++ t) ≡ lacks c t
unfolding lacks
lacks-append c [] t h = refl
lacks-append c (x ∷ s) t h = ground (arith, lacks-append c s t)

lacks-iface : (s : List ℕ) → all_iface_chars s ≡ true → lacks b'/' s ≡ true
unfolding lacks all_iface_chars
lacks-iface [] h = refl
lacks-iface (x ∷ s) h = ground (arith, lacks-iface s)

take-all : (n : ℕ) (xs : List ℕ) → length xs ≤ n → take n xs ≡ xs
take-all zero [] h = refl
take-all (suc n) [] h = refl
take-all zero (x ∷ xs) h = absurd (omega arith)
take-all (suc n) (x ∷ xs) h = ap (◌∷◌ x) (take-all n xs (omega arith))

validate-fits :
    (iface : List ℕ)
    → validate_iface iface ≡ true
    → (length iface ≤ 15) × (all_iface_chars iface ≡ true)
unfolding validate_iface
validate-fits iface v = ground arith

pub path-whole :
    (dir iface suffix : List ℕ)
    → validate_iface iface ≡ true
    → length dir + length suffix ≤ 200
    → path dir iface suffix ≡ dir ++ b'/' ∷ (iface ++ suffix)
path-whole dir iface suffix v n =
    let (few, chars) : (length iface ≤ 15) × (all_iface_chars iface ≡ true) =
      validate-fits iface v in
    take-all 255 (dir ++ b'/' ∷ (iface ++ suffix))
      (omega (arith, length-append dir (b'/' ∷ (iface ++ suffix)), length-append iface suffix))

path-split :
    (dir iface suffix : List ℕ)
    → validate_iface iface ≡ true
    → lacks b'/' suffix ≡ true
    → length dir + length suffix ≤ 200
    → split_last b'/' (path dir iface suffix) ≡ some (dir, iface ++ suffix)
path-split dir iface suffix v h n =
    let (few, chars) : (length iface ≤ 15) × (all_iface_chars iface ≡ true) =
      validate-fits iface v in
    ap (split_last b'/') (path-whole dir iface suffix v n)
    ∙ split_last-append b'/' dir (iface ++ suffix)
        (lacks-append b'/' iface suffix (lacks-iface iface chars) ∙ h)

-- For an interface name that `validate_iface` accepts, every path of `make_paths` is whole, and is
-- the file of that name and its suffix directly in the directory for it: the name leads nowhere else.
pub make_paths-validate_iface :
    (iface : List ℕ)
    → validate_iface iface ≡ true
    → let p = make_paths iface in
      let run = codes "/var/run/wireguard" in
      (split_last b'/' p.conf ≡ some (codes "/etc/wireguard", iface ++ codes ".conf"))
      × (split_last b'/' p.pidp ≡ some (run, iface ++ codes ".pid"))
      × (split_last b'/' p.namep ≡ some (run, iface ++ codes ".name"))
      × (split_last b'/' p.sockp ≡ some (run, iface ++ codes ".sock"))
unfolding make_paths lacks
make_paths-validate_iface iface v = (
  path-split _ iface _ v refl (omega arith),
  path-split _ iface _ v refl (omega arith),
  path-split _ iface _ v refl (omega arith),
  path-split _ iface _ v refl (omega arith),
)
