-- ===== src/Primitives/MerkleBlock.antt =====
-- lib/primitives/merkleblock.js: the traversals of `fromMatches` and `extractTree`. A hash is the
-- number that its bytes spell, `hash256.root` is an argument. The flags are the list of their bits,
-- the lowest of the first byte first; what the traversal has not used is what is left of a list.
-- Heights are below 31, where the shifts are those of numbers.
pub mod Places
pub mod RoundTrip
pub mod Whole
mod Tests
use bcoin.Prelude.{
  ℕ, zero, suc, ◌+◌, ◌-◌, ◌*◌, ◌/◌, ◌^◌, Bool, true, false, ◌&&◌, ◌||◌, List, [], ◌∷◌, ◌++◌, ltb,
  ◌==◌, if◌then◌else◌, get_or,
}

abbrev pub width : ℕ → ℕ → ℕ
width total height = (total + 2 ^ height - 1) / 2 ^ height

-- The block: its leaves, and which of them are matched; a missing mark is 0.
pub record Leaves : Type 0 where
  pub total : ℕ
  pub leaves : List ℕ
  pub matches : List Bool

-- The loop over `p`, from a start and over so many places.
unfoldable pub any_match : Leaves → ℕ → ℕ → Bool
any_match block p zero = false
any_match block p (suc n) =
    let rest = any_match block (p + 1) n in
    if ltb p block.total then get_or block.matches p false || rest else false

module _ (root : ℕ → ℕ → ℕ) where
  unfoldable pub hash_at : Leaves → ℕ → ℕ → ℕ
  hash_at block zero pos = get_or block.leaves pos 0
  hash_at block (suc height) pos =
      let left = hash_at block height (pos * 2) in
      let right = hash_at block height (pos * 2 + 1) in
      root left (if ltb (pos * 2 + 1) (width block.total height) then right else left)

  -- `traverse` of `fromMatches`: the bits and the hashes that it pushes.
  unfoldable pub build : Leaves → ℕ → ℕ → List Bool × List ℕ
  unfolding any_match hash_at
  build block zero pos = (any_match block (pos * 2 ^ 0) (2 ^ 0) ∷ [], hash_at block zero pos ∷ [])
  build block (suc height) pos =
      let parent = any_match block (pos * 2 ^ suc height) (2 ^ suc height) in
      let (bits, hashes) = build block height (pos * 2) in
      let (bits', hashes') = build block height (pos * 2 + 1) in
      if parent
      then (if ltb (pos * 2 + 1) (width block.total height)
          then (true ∷ (bits ++ bits'), hashes ++ hashes')
          else (true ∷ bits, hashes))
      else (false ∷ [], hash_at block (suc height) pos ∷ [])

  -- What `traverse` of `extractTree` returns and has changed: `matches` with `indexes`, and what is
  -- left of the bits and the hashes.
  pub record Extracted : Type 0 where
    pub hash : ℕ
    pub failed : Bool
    pub found : List (ℕ × ℕ)
    pub bits : List Bool
    pub hashes : List ℕ

  abbrev pub take_hash : List (ℕ × ℕ) → List Bool → List ℕ → Extracted
  take_hash found bits [] = record { hash = 0; failed = true; found = []; bits = bits; hashes = [] }
  take_hash found bits (h ∷ hashes) = record {
    hash = h;
    failed = false;
    found = found;
    bits = bits;
    hashes = hashes;
  }

  abbrev pub first_hash : List ℕ → ℕ
  first_hash [] = 0
  first_hash (h ∷ hashes) = h

  unfoldable pub extract : ℕ → ℕ → ℕ → List Bool → List ℕ → Extracted
  extract total height pos [] hashes = record {
    hash = 0;
    failed = true;
    found = [];
    bits = [];
    hashes = hashes;
  }
  extract total zero pos (parent ∷ bits) hashes =
      take_hash (if parent then (first_hash hashes, pos) ∷ [] else []) bits hashes
  extract total (suc height) pos (false ∷ bits) hashes = take_hash [] bits hashes
  extract total (suc height) pos (true ∷ bits) hashes =
      let left = extract total height (pos * 2) bits hashes in
      let right = extract total height (pos * 2 + 1) left.bits left.hashes in
      if ltb (pos * 2 + 1) (width total height)
      then record {
        hash = root left.hash right.hash;
        failed = left.failed || right.failed || right.hash == left.hash;
        found = left.found ++ right.found;
        bits = right.bits;
        hashes = right.hashes;
      }
      else record left { hash = root left.hash left.hash }
