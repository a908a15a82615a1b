-- ===== src/Primitives/MerkleBlock/Tests.antt =====
-- A block of five leaves, of which two are matched.
use bcoin.Prelude.{ℕ, ◌+◌, ◌*◌, ◌≡◌, refl, some, true, false, [], ◌∷◌, arith}
use bcoin.Primitives.MerkleBlock.{Leaves, hash_at, build, any_match}
use bcoin.Primitives.MerkleBlock.Places.{matched}
use bcoin.Primitives.MerkleBlock.Whole.{
  tree_height, extract_tree, from_matches, extract_tree-from_matches,
}
use bcoin.Primitives.MerkleBlock.RoundTrip.{Apart}

abbrev block : Leaves
block = record {
  total = 5;
  leaves = 11 ∷ 12 ∷ 13 ∷ 14 ∷ 15 ∷ [];
  matches = false ∷ true ∷ false ∷ false ∷ true ∷ [];
}

abbrev mix : ℕ → ℕ → ℕ
mix x y = 3 * x + 5 * y + 1

built : build mix block 3 0 ≡ (
  true ∷ true ∷ true ∷ false ∷ true ∷ false ∷ true ∷ true ∷ true ∷ [],
  11 ∷ 12 ∷ mix 13 14 ∷ 15 ∷ [],
)
unfolding build any_match hash_at
built = refl

apart : Apart mix block (tree_height 5 5 0) 0
unfolding hash_at tree_height
apart = ground arith

both_found : matched block 0 8 ≡ (12, 1) ∷ (15, 4) ∷ []
unfolding matched
both_found = refl

extract_tree-from_matches_example :
    extract_tree mix 5
      (from_matches mix block).0
      (from_matches mix block).1
      (from_matches mix block).2
    ≡ some (hash_at mix block (tree_height 5 5 0) 0, matched block 0 5)
extract_tree-from_matches_example =
    extract_tree-from_matches mix block (omega arith) (omega arith) apart
