-- ===== src/Allowedips/Spec.antt =====
-- What the trie of src/allowedips.c stands for: a map from prefixes, as lists of bits, to peers.
use polar_wg_app.Common.{
  ℕ, zero, suc, ◌+◌, ◌≤◌, ◌<◌, ◌≡◌, refl, Bool, true, false, ◌&&◌, Option, none, some, List, [],
  ◌∷◌, arith, length, take,
}
use polar_wg_app.Allowedips.{Node, null, node, child, bit_at, better}

-- Bits `i` to `i + n - 1` of an address.
abbrev pub bits : ℕ → ℕ → List ℕ → List Bool
bits zero i addr = []
bits (suc n) i addr = bit_at addr i ∷ bits n (i + 1) addr

-- The peer stored for exactly the prefix `q`.
unfoldable pub entry : Node → List Bool → Option ℕ
entry null q = none
entry (node p l r) [] = p
entry (node p l r) (b ∷ q) = entry (child b l r) q

abbrev pub bit_eq : Bool → Bool → Bool
bit_eq true b = b
bit_eq false true = false
bit_eq false false = true

unfoldable pub same_bits : List Bool → List Bool → Bool
same_bits [] [] = true
same_bits [] (b ∷ q) = false
same_bits (a ∷ p) [] = false
same_bits (a ∷ p) (b ∷ q) = bit_eq a b && same_bits p q

-- `o` is the peer of the longest prefix of `q` for which `f` has one.
abbrev pub Longest : (List Bool → Option ℕ) → List Bool → Option ℕ → Type 0
Longest f q none = (j : ℕ) → j ≤ length q → f (take j q) ≡ none
Longest f q (some p) =
    (k : ℕ) × (k ≤ length q)
    × (f (take k q) ≡ some p)
    × ((j : ℕ) → k < j → j ≤ length q → f (take j q) ≡ none)

-- The same by recursion.
unfoldable pub longest : (List Bool → Option ℕ) → List Bool → Option ℕ
longest f [] = f []
longest f (b ∷ q) = better (longest (λ r. f (b ∷ r)) q) (f [])

Longest-cons :
    (f : List Bool → Option ℕ) (b : Bool) (q : List Bool) (o : Option ℕ)
    → Longest (λ r. f (b ∷ r)) q o
    → Longest f (b ∷ q) (better o (f []))
Longest-cons f b q none h = go (f []) refl
  where
    after : (j : ℕ) → 0 < j → j ≤ suc (length q) → f (take j (b ∷ q)) ≡ none
    after zero lt le = absurd (omega arith)
    after (suc j) lt le = h j (omega arith)

    below : (j : ℕ) → j ≤ suc (length q) → f [] ≡ none → f (take j (b ∷ q)) ≡ none
    below zero le e = e
    below (suc j) le e = h j (omega arith)

    go : (o : Option ℕ) → f [] ≡ o → Longest f (b ∷ q) o
    go none e = λ j le. below j le e
    go (some p) e = (0, omega arith, e, after)
Longest-cons f b q (some p) (k, le, e, rest) = (suc k, omega arith, e, after)
  where
    after : (j : ℕ) → suc k < j → j ≤ suc (length q) → f (take j (b ∷ q)) ≡ none
    after zero lt le = absurd (omega arith)
    after (suc j) lt le = rest j (omega arith) (omega arith)

pub Longest-longest : (f : List Bool → Option ℕ) (q : List Bool) → Longest f q (longest f q)
unfolding longest
Longest-longest f [] = go (f []) refl
  where
    below : (j : ℕ) → j ≤ 0 → f [] ≡ none → f (take j []) ≡ none
    below zero le e = e
    below (suc j) le e = absurd (omega arith)

    go : (o : Option ℕ) → f [] ≡ o → Longest f [] o
    go none e = λ j le. below j le e
    go (some p) e = (0, omega arith, e, λ j lt le. absurd (omega arith))
Longest-longest f (b ∷ q) = Longest-cons f b q _ (Longest-longest (λ r. f (b ∷ r)) q)
