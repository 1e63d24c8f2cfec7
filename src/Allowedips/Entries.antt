-- ===== src/Allowedips/Entries.antt =====
-- The field `entries` of src/allowedips.c counts the nodes that hold a peer.
use polar_wg_app.Common.{
  ℕ, zero, suc, ◌+◌, ◌^◌, ◌<◌, ◌≡◌, Bool, Option, none, some, List, arith, if◌then◌else◌,
}
use polar_wg_app.Allowedips.{
  Node, null, node, Trie, child, bit_at, init, remove_at, remove, insert_at, insert,
}

-- The number of prefixes with a peer.
unfoldable pub occupied : Node → ℕ
occupied null = 0
occupied (node none l r) = occupied l + occupied r
occupied (node (some p) l r) = 1 + occupied l + occupied r

pub record IsCounted (t : Trie) : Type 0 where
  pub exact : t.entries ≡ occupied t.root
  pub small : t.entries < 2 ^ 64

abbrev OneLess : Option Node → Node → Type 0
OneLess none n = Unit {0}
OneLess (some m) n = occupied m + 1 ≡ occupied n

occupied-remove_at : (k i : ℕ) (addr : List ℕ) (n : Node) → OneLess (remove_at k i addr n) n
unfolding remove_at occupied
occupied-remove_at k i addr null = tt
occupied-remove_at zero i addr (node none l r) = tt
occupied-remove_at zero i addr (node (some p) l r) = omega arith
occupied-remove_at (suc k) i addr (node none l r) =
    ground (arith, occupied-remove_at k (i + 1) addr (child (bit_at addr i) l r))
occupied-remove_at (suc k) i addr (node (some p) l r) =
    ground (arith, occupied-remove_at k (i + 1) addr (child (bit_at addr i) l r))

-- `aips_remove` keeps the counter equal to the number of prefixes with a peer.
pub remove-IsCounted :
    (t : Trie) (addr : List ℕ) (prefix_len : ℕ)
    → IsCounted t
    → IsCounted (remove t addr prefix_len).1
unfolding remove
remove-IsCounted t addr prefix_len v = ground (arith, occupied-remove_at prefix_len 0 addr t.root)

pub init-IsCounted : (max_bits : ℕ) → IsCounted (init max_bits)
unfolding init occupied
init-IsCounted max_bits = ground arith

module _ {H : Type 0} (calloc : H → Bool × H) where
  occupied-insert_at :
      (k i : ℕ) (addr : List ℕ) (peer : ℕ) (n : Node) (h : H)
      → let r = insert_at calloc k i addr peer n h in
        occupied r.top ≡ occupied n + (if r.fresh then 1 else 0)
  unfolding insert_at occupied
  occupied-insert_at zero i addr peer null h = ground arith
  occupied-insert_at zero i addr peer (node none l r) h = ground arith
  occupied-insert_at zero i addr peer (node (some p) l r) h = ground arith
  occupied-insert_at (suc k) i addr peer null h =
      ground (
        arith,
        occupied-insert_at k (i + 1) addr peer (child (bit_at addr i) null null) (calloc h).1,
      )
  occupied-insert_at (suc k) i addr peer (node none l r) h =
      ground (arith, occupied-insert_at k (i + 1) addr peer (child (bit_at addr i) l r) h)
  occupied-insert_at (suc k) i addr peer (node (some p) l r) h =
      ground (arith, occupied-insert_at k (i + 1) addr peer (child (bit_at addr i) l r) h)

  -- `aips_insert` keeps the counter equal to the number of prefixes with a peer, also when memory
  -- runs out on the way, as long as the counter is not about to wrap.
  pub insert-IsCounted :
      (t : Trie) (addr : List ℕ) (prefix_len peer : ℕ) (h : H)
      → IsCounted t
      → t.entries + 1 < 2 ^ 64
      → IsCounted (insert calloc t addr prefix_len peer h).1
  unfolding insert
  insert-IsCounted t addr prefix_len peer h v room =
      ground (arith, occupied-insert_at prefix_len 0 addr peer t.root h)
