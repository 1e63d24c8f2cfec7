-- ===== src/Allowedips/Lookup.antt =====
-- `aips_lookup` of src/allowedips.c finds the longest prefix.
use polar_wg_app.Common.{
  ℕ, zero, suc, ◌+◌, ◌≡◌, refl, sym, subst, ◌∙◌, Bool, Option, none, some, List, [], ◌∷◌, arith,
}
use polar_wg_app.Allowedips.{Node, null, node, Trie, child, bit_at, better, walk, lookup}
use polar_wg_app.Allowedips.Spec.{bits, entry, Longest, longest, Longest-longest}

better_assoc : (a b c : Option ℕ) → better a (better b c) ≡ better (better a b) c
better_assoc none b c = refl
better_assoc (some a) b c = refl

longest-none : (q : List Bool) → longest (λ r. none) q ≡ none
unfolding longest
longest-none [] = refl
longest-none (b ∷ q) = rw (longest-none q)

walk-longest :
    (k i : ℕ) (addr : List ℕ) (best : Option ℕ) (n : Node)
    → walk k i addr best n ≡ better (longest (entry n) (bits k i addr)) best
unfolding walk entry longest
walk-longest zero i addr best null = refl
walk-longest (suc k) i addr best null = ground (arith, longest-none (bits k (i + 1) addr))
walk-longest zero i addr best (node p l r) = refl
walk-longest (suc k) i addr best (node p l r) =
    walk-longest k (i + 1) addr (better p best) (child (bit_at addr i) l r) ∙ better_assoc _ p best

better-none : (a : Option ℕ) → better a none ≡ a
better-none none = refl
better-none (some a) = refl

pub lookup-longest :
    (t : Trie) (addr : List ℕ) → lookup t addr ≡ longest (entry t.root) (bits t.max_bits 0 addr)
unfolding lookup
lookup-longest t addr = walk-longest t.max_bits 0 addr none t.root ∙ better-none _

-- `aips_lookup` returns the peer stored for the longest prefix of the address that has one, and
-- NULL exactly when no prefix of the address has one, for every trie and address.
pub lookup-Longest :
    (t : Trie) (addr : List ℕ) → Longest (entry t.root) (bits t.max_bits 0 addr) (lookup t addr)
lookup-Longest t addr =
    subst (Longest (entry t.root) (bits t.max_bits 0 addr)) (sym (lookup-longest t addr))
      (Longest-longest _ _)
