-- ===== src/Text.antt =====
-- The C string functions that src/wg_session.c uses, on lists of bytes without the final NUL, and
-- `wgs_trim` of that file.
pub mod Base64
pub mod Hex
mod Tests
use polar_wg_app.Common.{
  ℕ, zero, suc, ◌+◌, ◌-◌, ◌*◌, ◌^◌, Bool, true, false, ◌&&◌, ◌||◌, Option, none, some, List, [],
  ◌∷◌, ◌++◌, ltb, leb, ◌==◌, if◌then◌else◌, ℤ, pos, negsuc, to_int32,
}
use mathlib.Core.List.{reverse}

-- What stands before the first NUL.
unfoldable pub c_string : List ℕ → List ℕ
c_string [] = []
c_string (c ∷ s) = if c == 0 then [] else c ∷ c_string s

abbrev pub is_blank : ℕ → Bool
is_blank c = c == b' ' || c == 0x09 || c == 0x0d || c == 0x0a

unfoldable pub skip_blanks : List ℕ → List ℕ
skip_blanks [] = []
skip_blanks (c ∷ s) = if is_blank c then skip_blanks s else c ∷ s

-- The text without the blanks at its end.
unfoldable pub drop_trailing : List ℕ → List ℕ
drop_trailing [] = []
drop_trailing (c ∷ s) = elim (drop_trailing s) [
  | [] ↦ if is_blank c then [] else c ∷ []
  | d ∷ r ↦ c ∷ d ∷ r
]

-- `wgs_trim`
unfoldable pub trim : List ℕ → List ℕ
unfolding skip_blanks drop_trailing
trim s = drop_trailing (skip_blanks s)

-- `strchr`: what stands before and after the first `sep`.
unfoldable pub split_first : ℕ → List ℕ → Option (List ℕ × List ℕ)
split_first sep [] = none
split_first sep (c ∷ s) =
    if c == sep
    then some ([], s)
    else elim (split_first sep s) [ none ↦ none | some (a, b) ↦ some (c ∷ a, b) ]

-- `strrchr`: what stands before and after the last `sep`.
unfoldable pub split_last : ℕ → List ℕ → Option (List ℕ × List ℕ)
split_last sep [] = none
split_last sep (c ∷ s) = elim (split_last sep s) [
  | none ↦ if c == sep then some ([], s) else none
  | some (a, b) ↦ some (c ∷ a, b)
]

-- The loop of `strtok_r`: the tokens between separators, empty ones left out.
unfoldable pub tokens_from : ℕ → List ℕ → List ℕ → List (List ℕ)
tokens_from sep [] [] = []
tokens_from sep (a ∷ token) [] = reverse (a ∷ token) ∷ []
tokens_from sep [] (c ∷ s) = tokens_from sep (if c == sep then [] else c ∷ []) s
tokens_from sep (a ∷ token) (c ∷ s) =
    let rest = tokens_from sep (if c == sep then [] else c ∷ a ∷ token) s in
    if c == sep then reverse (a ∷ token) ∷ rest else rest

unfoldable pub tokens : ℕ → List ℕ → List (List ℕ)
unfolding tokens_from
tokens sep s = tokens_from sep [] s

abbrev pub is_digit : ℕ → Bool
is_digit c = leb b'0' c && leb c b'9'

-- Decimal digits up to the first other byte.
unfoldable pub digits_from : ℕ → List ℕ → ℕ
digits_from acc [] = acc
digits_from acc (c ∷ s) =
    let rest = digits_from (acc * 10 + (c - b'0')) s in if is_digit c then rest else acc

-- `isspace` in the C locale.
abbrev pub is_space : ℕ → Bool
is_space c = c == b' ' || (leb 0x09 c && leb c 0x0d)

unfoldable pub skip_spaces : List ℕ → List ℕ
skip_spaces [] = []
skip_spaces (c ∷ s) = if is_space c then skip_spaces s else c ∷ s

-- A `long` is 64 bits wide, and `strtol` stays at its ends.
abbrev clamped : ℕ → ℤ
clamped n = if ltb n (2 ^ 63) then pos n else pos (2 ^ 63 - 1)

abbrev negated : ℕ → ℤ
negated n = if n == 0 then pos 0 else if leb n (2 ^ 63) then negsuc (n - 1) else negsuc (2 ^ 63 - 1)

unfoldable pub signed_digits : List ℕ → ℤ
unfolding digits_from
signed_digits [] = pos 0
signed_digits (c ∷ s) =
    if c == b'-'
    then negated (digits_from 0 s)
    else clamped (digits_from 0 (if c == b'+' then s else c ∷ s))

-- `strtol` with base 10
unfoldable pub strtol : List ℕ → ℤ
unfolding skip_spaces signed_digits
strtol s = signed_digits (skip_spaces s)

-- `atoi` is `(int)strtol`.
unfoldable pub atoi : List ℕ → ℤ
unfolding strtol
atoi s = to_int32 (strtol s)
