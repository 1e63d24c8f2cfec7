-- ===== src/Allowedips.antt =====
-- src/allowedips.c: the bit trie that maps CIDRs to peers. A peer pointer is the slot of the peer,
-- a node pointer is the node itself or `null`, and `calloc` is a parameter over the state `H` of
-- the allocator: it says whether it returned memory.
pub mod Spec
pub mod Lookup
pub mod Insert
pub mod Remove
pub mod Entries
mod Tests
use polar_wg_app.Common.{
  ℕ, zero, suc, ◌+◌, ◌-◌, ◌/◌, ◌%◌, ◌^◌, Bool, true, false, not, Option, none, some, List, [], ◌∷◌,
  ltb, ◌==◌, if◌then◌else◌, get_or, is_some,
}

pub data Node : Type 0 where
  null : Node
  node : Option ℕ → Node → Node → Node

abbrev pub child : Bool → Node → Node → Node
child false l r = l
child true l r = r

-- The node with its child `b` replaced.
abbrev pub with_child : Bool → Option ℕ → Node → Node → Node → Node
with_child false p l r c = node p c r
with_child true p l r c = node p l c

-- Bit `i` of a big-endian byte array, bit 0 being the highest of byte 0.
unfoldable pub bit_at : List ℕ → ℕ → Bool
bit_at addr i = get_or addr (i / 8) 0 / 2 ^ (7 - i % 8) % 2 == 1

pub record Trie : Type 0 where
  pub root : Node
  pub max_bits : ℕ
  pub entries : ℕ

unfoldable pub init : ℕ → Trie
init max_bits = record { root = null; max_bits = max_bits; entries = 0 }

unfoldable pub destroy : Trie → Trie
destroy t = record t { root = null; entries = 0 }

abbrev pub better : Option ℕ → Option ℕ → Option ℕ
better (some p) best = some p
better none best = best

-- The loop of `aips_lookup`: arriving at a node takes its peer, if it has one.
unfoldable pub walk : ℕ → ℕ → List ℕ → Option ℕ → Node → Option ℕ
walk k i addr best null = best
walk zero i addr best (node p l r) = better p best
walk (suc k) i addr best (node p l r) =
    walk k (i + 1) addr (better p best) (child (bit_at addr i) l r)

unfoldable pub lookup : Trie → List ℕ → Option ℕ
unfolding walk
lookup t addr = walk t.max_bits 0 addr none t.root

-- `none` is the return value -1.
unfoldable pub remove_at : ℕ → ℕ → List ℕ → Node → Option Node
remove_at k i addr null = none
remove_at zero i addr (node none l r) = none
remove_at zero i addr (node (some p) l r) = some (node none l r)
remove_at (suc k) i addr (node p l r) =
    elim (remove_at k (i + 1) addr (child (bit_at addr i) l r)) [
      | none ↦ none
      | some c ↦ some (with_child (bit_at addr i) p l r c)
    ]

-- The result code of `aips_remove`, true for 0, and the trie after it.
unfoldable pub remove : Trie → List ℕ → ℕ → Bool × Trie
unfolding remove_at
remove t addr prefix_len =
    if ltb t.max_bits prefix_len then (false, t) else elim (remove_at prefix_len 0 addr t.root) [
      | none ↦ (false, t)
      | some n ↦ (
        true,
        record t { root = n; entries = if ltb 0 t.entries then t.entries - 1 else t.entries },
      )
    ]

unfoldable pub v4_to_be : ℕ → List ℕ
v4_to_be addr = addr / 2 ^ 24 % 256 ∷ addr / 2 ^ 16 % 256 ∷ addr / 2 ^ 8 % 256 ∷ addr % 256 ∷ []

unfoldable pub lookup_v4 : Trie → ℕ → Option ℕ
unfolding lookup v4_to_be
lookup_v4 t addr = lookup t (v4_to_be addr)

module _ {H : Type 0} (calloc : H → Bool × H) where
  pub record Inserted : Type 0 where
    pub done : Bool
    pub fresh : Bool
    pub top : Node
    pub heap : H

  -- `if (!n) { n = node_alloc(); if (!n) return -1; }`
  unfoldable pub ensure : Node → H → Option (Option ℕ × Node × Node) × H
  ensure null h = let (got, h') = calloc h in (if got then some (none, null, null) else none, h')
  ensure (node p l r) h = (some (p, l, r), h)

  unfoldable pub insert_at : ℕ → ℕ → List ℕ → ℕ → Node → H → Inserted
  unfolding ensure
  insert_at zero i addr peer n h =
      let (cell, h') = ensure n h in
      elim cell [
        | none ↦ record { done = false; fresh = false; top = n; heap = h' }
        | some (p, l, r) ↦ record {
          done = true;
          fresh = not (is_some p);
          top = node (some peer) l r;
          heap = h';
        }
      ]
  insert_at (suc k) i addr peer n h =
      let (cell, h') = ensure n h in
      elim cell [
        | none ↦ record { done = false; fresh = false; top = n; heap = h' }
        | some (p, l, r) ↦
            let b = bit_at addr i in
            let below = insert_at k (i + 1) addr peer (child b l r) h' in
            record below { top = with_child b p l r below.top }
      ]

  -- The result code, true for 0, the trie and the allocator after it. `size_t` is 64 bits wide.
  unfoldable pub insert : Trie → List ℕ → ℕ → ℕ → H → Bool × Trie × H
  unfolding insert_at
  insert t addr prefix_len peer h =
      if ltb t.max_bits prefix_len
      then (false, t, h)
      else let i = insert_at prefix_len 0 addr peer t.root h in
        (
          i.done,
          record t {
            root = i.top;
            entries = if i.fresh then (t.entries + 1) % 2 ^ 64 else t.entries;
          },
          i.heap,
        )

  unfoldable pub insert_v4 : Trie → ℕ → ℕ → ℕ → H → Bool × Trie × H
  unfolding insert v4_to_be
  insert_v4 t addr prefix_len peer h = insert t (v4_to_be addr) prefix_len peer h
