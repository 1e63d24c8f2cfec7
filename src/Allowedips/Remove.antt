-- ===== src/Allowedips/Remove.antt =====
-- What `aips_remove` of src/allowedips.c does to the map from prefixes to peers.
use polar_wg_app.Common.{
  ℕ, zero, suc, ◌+◌, ◌≡◌, refl, Bool, true, ◌&&◌, Option, none, some, List, [], ◌∷◌, arith,
  if◌then◌else◌, leb, is_some,
}
use polar_wg_app.Allowedips.{Node, null, node, Trie, child, bit_at, remove_at, remove}
use polar_wg_app.Allowedips.Spec.{bits, entry, same_bits}

abbrev Cleared : Option Node → Node → List Bool → List Bool → Type 0
Cleared none n pre q = entry n pre ≡ none
Cleared (some m) n pre q =
    (is_some (entry n pre) ≡ true) × (entry m q ≡ (if same_bits pre q then none else entry n q))

entry-remove_at :
    (k i : ℕ) (addr : List ℕ) (n : Node) (q : List Bool)
    → Cleared (remove_at k i addr n) n (bits k i addr) q
unfolding remove_at entry same_bits
entry-remove_at k i addr null q = refl
entry-remove_at zero i addr (node none l r) q = refl
entry-remove_at zero i addr (node (some p) l r) [] = (refl, refl)
entry-remove_at zero i addr (node (some p) l r) (a ∷ q) = (refl, refl)
entry-remove_at (suc k) i addr (node p l r) [] =
    ground (arith, entry-remove_at k (i + 1) addr (child (bit_at addr i) l r) [])
entry-remove_at (suc k) i addr (node p l r) (a ∷ q) =
    ground (arith, entry-remove_at k (i + 1) addr (child (bit_at addr i) l r) q)

-- `aips_remove` returns 0 exactly for a prefix that fits the trie and has a peer; then that prefix
-- has none any more and every other is as before. If it returns -1, the trie is left as it was.
pub entry-remove :
    (t : Trie) (addr : List ℕ) (prefix_len : ℕ) (q : List Bool)
    → let (done, t') = remove t addr prefix_len in
      let pre = bits prefix_len 0 addr in
      (done ≡ (leb prefix_len t.max_bits && is_some (entry t.root pre)))
      × (entry t'.root q ≡ (if done && same_bits pre q then none else entry t.root q))
      × (t' ≡ (if done then t' else t))
unfolding remove
entry-remove t addr prefix_len q = ground (arith, entry-remove_at prefix_len 0 addr t.root q)
