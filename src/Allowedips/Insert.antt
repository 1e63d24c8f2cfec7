-- ===== src/Allowedips/Insert.antt =====
-- What `aips_insert` of src/allowedips.c does to the map from prefixes to peers.
use polar_wg_app.Common.{
  ℕ, zero, suc, ◌+◌, ◌≡◌, refl, Bool, true, ◌&&◌, Option, some, List, [], ◌∷◌, arith, if◌then◌else◌,
  leb,
}
use polar_wg_app.Allowedips.{Node, null, node, Trie, child, bit_at, insert_at, insert}
use polar_wg_app.Allowedips.Spec.{bits, entry, same_bits}

-- The map after a call that stored `peer` for `pre`, or failed and changed nothing.
abbrev pub stored : Bool → List Bool → ℕ → (List Bool → Option ℕ) → List Bool → Option ℕ
stored done pre peer f q = if done && same_bits pre q then some peer else f q

module _ {H : Type 0} (calloc : H → Bool × H) where
  entry-insert_at :
      (k i : ℕ) (addr : List ℕ) (peer : ℕ) (n : Node) (h : H) (q : List Bool)
      → entry (insert_at calloc k i addr peer n h).top q
        ≡ stored (insert_at calloc k i addr peer n h).done (bits k i addr) peer (entry n) q
  unfolding insert_at entry same_bits
  entry-insert_at zero i addr peer null h [] = ground arith
  entry-insert_at zero i addr peer null h (a ∷ q) = ground arith
  entry-insert_at zero i addr peer (node p l r) h [] = refl
  entry-insert_at zero i addr peer (node p l r) h (a ∷ q) = ground arith
  entry-insert_at (suc k) i addr peer null h [] = ground arith
  entry-insert_at (suc k) i addr peer null h (a ∷ q) =
      let b = bit_at addr i in
      ground (arith, entry-insert_at k (i + 1) addr peer (child b null null) (calloc h).1 q)
  entry-insert_at (suc k) i addr peer (node p l r) h [] = ground arith
  entry-insert_at (suc k) i addr peer (node p l r) h (a ∷ q) =
      let b = bit_at addr i in ground (arith, entry-insert_at k (i + 1) addr peer (child b l r) h q)

  done-insert_at :
      ((h : H) → (calloc h).0 ≡ true)
      → (k i : ℕ) (addr : List ℕ) (peer : ℕ) (n : Node) (h : H)
      → (insert_at calloc k i addr peer n h).done ≡ true
  unfolding insert_at
  done-insert_at ample zero i addr peer null h = ground (arith, ample h)
  done-insert_at ample zero i addr peer (node p l r) h = refl
  done-insert_at ample (suc k) i addr peer null h = ground (
    arith,
    ample h,
    done-insert_at ample k (i + 1) addr peer (child (bit_at addr i) null null) (calloc h).1,
  )
  done-insert_at ample (suc k) i addr peer (node p l r) h =
      done-insert_at ample k (i + 1) addr peer (child (bit_at addr i) l r) h

  -- After `aips_insert` the map from prefixes to peers has the new peer at exactly the inserted
  -- prefix and is as before elsewhere; if the call returns -1, the map is as before everywhere.
  pub entry-insert :
      (t : Trie) (addr : List ℕ) (prefix_len peer : ℕ) (h : H) (q : List Bool)
      → let (done, t', h') = insert calloc t addr prefix_len peer h in
        entry t'.root q ≡ stored done (bits prefix_len 0 addr) peer (entry t.root) q
  unfolding insert
  entry-insert t addr prefix_len peer h q =
      ground (arith, entry-insert_at prefix_len 0 addr peer t.root h q)

  -- If memory does not run out, `aips_insert` returns 0 exactly for prefix lengths up to the
  -- trie's number of bits.
  pub insert_succeeds :
      (t : Trie) (addr : List ℕ) (prefix_len peer : ℕ) (h : H)
      → ((h : H) → (calloc h).0 ≡ true)
      → (insert calloc t addr prefix_len peer h).0 ≡ leb prefix_len t.max_bits
  unfolding insert
  insert_succeeds t addr prefix_len peer h ample =
      ground (arith, done-insert_at ample prefix_len 0 addr peer t.root h)

  pub max_bits-insert :
      (t : Trie) (addr : List ℕ) (prefix_len peer : ℕ) (h : H)
      → (insert calloc t addr prefix_len peer h).1.max_bits ≡ t.max_bits
  unfolding insert
  max_bits-insert t addr prefix_len peer h = ground arith
