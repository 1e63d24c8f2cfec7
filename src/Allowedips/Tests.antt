-- ===== src/Allowedips/Tests.antt =====
-- Tests of src/allowedips.c at a small trie.
use polar_wg_app.Common.{
  ℕ, ◌+◌, ◌≡◌, refl, Bool, true, false, ◌&&◌, none, some, is_some, List, [], ◌∷◌, arith,
  if◌then◌else◌, leb,
}
use polar_wg_app.Allowedips.{null, node, Trie, insert, bit_at, lookup, walk, remove}
use polar_wg_app.Allowedips.Spec.{bits, entry, same_bits, Longest}
use polar_wg_app.Allowedips.Lookup.{lookup-Longest}
use polar_wg_app.Allowedips.Insert.{entry-insert, insert_succeeds, stored}
use polar_wg_app.Allowedips.Remove.{entry-remove}
use polar_wg_app.Allowedips.Entries.{IsCounted, occupied}

-- Slot 1 has the prefix 0, slot 2 the prefix 00.
abbrev two : Trie
two = record {
  root = node none (node (some 1) (node (some 2) null null) null) null;
  max_bits = 32;
  entries = 2;
}

abbrev ten : List ℕ
ten = 10 ∷ 0 ∷ 0 ∷ 1 ∷ []

abbrev seventy : List ℕ
seventy = 70 ∷ 0 ∷ 0 ∷ 1 ∷ []

abbrev always : ℕ → Bool × ℕ
always h = (true, h + 1)

two-IsCounted : IsCounted two
unfolding occupied
two-IsCounted = record { exact = refl; small = omega arith }

lookup_deepest : lookup two ten ≡ some 2
unfolding lookup walk bit_at
lookup_deepest = refl

lookup_shallow : lookup two seventy ≡ some 1
unfolding lookup walk bit_at
lookup_shallow = refl

lookup-Longest_example : Longest (entry two.root) (bits 32 0 ten) (lookup two ten)
lookup-Longest_example = lookup-Longest two ten

entry-insert_example :
    let (done, t', h') = insert always two seventy 2 3 0 in
    entry t'.root (bits 2 0 seventy)
    ≡ stored done (bits 2 0 seventy) 3 (entry two.root) (bits 2 0 seventy)
entry-insert_example = entry-insert always two seventy 2 3 0 (bits 2 0 seventy)

insert_succeeds_example : (insert always two ten 33 3 0).0 ≡ false
insert_succeeds_example = insert_succeeds always two ten 33 3 0 (λ h. refl)

entry-remove_example :
    let (done, t') = remove two ten 2 in
    (done ≡ (leb 2 32 && is_some (entry two.root (bits 2 0 ten))))
    × (entry t'.root (bits 1 0 ten) ≡ (
        if done && same_bits (bits 2 0 ten) (bits 1 0 ten)
        then none
        else entry two.root (bits 1 0 ten)))
    × (t' ≡ (if done then t' else two))
entry-remove_example = entry-remove two ten 2 (bits 1 0 ten)
