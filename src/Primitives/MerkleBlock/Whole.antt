-- ===== src/Primitives/MerkleBlock/Whole.antt =====
-- `fromMatches` and `extractTree` as wholes.
use bcoin.Prelude.{
  ℕ, zero, suc, ◌+◌, ◌-◌, ◌*◌, ◌/◌, ◌^◌, ◌≤◌, ◌<◌, ◌≡◌, refl, sym, ap, ◌∙◌, Bool, true, false, not,
  Option, none, some, List, [], ◌++◌, arith, ltb, ◌==◌, if◌then◌else◌, length, replicate,
  length-append, length-replicate, Bool-cases, inl, inr, ==_iff,
}
use mathlib.Core.List.{append-nil}
use mathlib.Core.Path.{subst}
use native.Mathlib.Nat.{two-pow-succ, one-le-pow}
use bcoin.Primitives.MerkleBlock.{Leaves, width, hash_at, build, extract}
use bcoin.Primitives.MerkleBlock.Places.{
  matched, matched-sum, matched-beyond, within_width, beyond_width, inside_width, left_start,
  right_start, left_width,
}
use bcoin.Primitives.MerkleBlock.RoundTrip.{
  Apart, extract-build, build-none, build-one, build-two, marked, has_right,
}

-- The loop `while (width(height) > 1)`; a height of `total` is enough.
unfoldable pub tree_height : ℕ → ℕ → ℕ → ℕ
tree_height total zero height = height
tree_height total (suc fuel) height =
    let rest = tree_height total fuel (height + 1) in
    if ltb 1 (width total height) then rest else height

module _ (root : ℕ → ℕ → ℕ) where
  -- What `extractTree` returns: the root, and the matches with their indexes; `none` is an
  -- exception. `flags` is how many bytes the bits are.
  unfoldable pub extract_tree : ℕ → ℕ → List Bool → List ℕ → Option (ℕ × List (ℕ × ℕ))
  unfolding tree_height extract
  extract_tree total flags bits hashes =
      let tree = extract root total (tree_height total total 0) 0 bits hashes in
      if total == 0
      then none
      else if ltb 2000000 (total * 60)
      then none
      else if ltb total (length hashes)
      then none
      else if ltb (flags * 8) (length hashes)
      then none
      else if tree.failed
      then none
      else if not ((flags * 8 - length tree.bits + 7) / 8 == flags)
      then none
      else if not (length tree.hashes == 0)
      then none
      else some (tree.hash, tree.found)

  -- The hashes and the flags of `fromMatches`, the bits filled up with zeros to whole bytes.
  unfoldable pub from_matches : Leaves → ℕ × List Bool × List ℕ
  unfolding tree_height build
  from_matches block =
      let (bits, hashes) = build root block (tree_height block.total block.total 0) 0 in
      let flags = (length bits + 7) / 8 in
      (flags, bits ++ replicate (flags * 8 - length bits) false, hashes)

module _ (root : ℕ → ℕ → ℕ) (block : Leaves) where
  -- No more hashes than leaves below the place, and than bits.
  abbrev Few : ℕ → ℕ → List Bool × List ℕ → Type 0
  Few h p (bits, hashes) =
      (length hashes + p * 2 ^ h ≤ block.total)
      × (length hashes ≤ 2 ^ h)
      × (length hashes ≤ length bits)

  build-Few : (h p : ℕ) → p < width block.total h → Few h p (build root block h p)
  unfolding build
  build-Few zero p w = (omega (arith, within_width block.total 0 p w), omega arith, omega arith)
  build-Few (suc h) p w =
      let here = within_width block.total (suc h) p w in
      let start = left_start h p in
      let (bs, xs) = build root block h (p * 2) in
      let (bs', xs') = build root block h (p * 2 + 1) in
      let (a, b, c) = build-Few h (p * 2) (left_width block.total h p w) in
      elim (Bool-cases (marked root block h p)) [
        | inl e ↦ elim (Bool-cases (has_right root block h p)) [
          | inl r ↦
              let (a', b', c') = build-Few h (p * 2 + 1) (ground arith) in
              let lb = length-append bs bs' in
              let lx = length-append xs xs' in
              subst (Few (suc h) p) (sym (build-two root block h p e r)) (
                omega (arith, a', b, lx, start, right_start h p),
                omega (arith, b, b', lx, two-pow-succ h),
                omega (arith, c, c', lx, lb),
              )
          | inr r ↦
              subst (Few (suc h) p) (sym (build-one root block h p e r))
                (omega (arith, a, start), omega (arith, b, two-pow-succ h), omega (arith, c))
        ]
        | inr e ↦
            subst (Few (suc h) p) (sym (build-none root block h p e))
              (omega (arith, here), one-le-pow (suc h) 2 (omega arith), omega arith)
      ]

growth : (n : ℕ) → n < 2 ^ n
growth zero = omega arith
growth (suc n) = omega (arith, growth n, two-pow-succ n)

tree_height_lem :
    (total fuel height : ℕ) → total ≤ fuel + height → total ≤ 2 ^ tree_height total fuel height
unfolding tree_height
tree_height_lem total zero height h = omega (arith, h, growth height)
tree_height_lem total (suc fuel) height h = elim (Bool-cases (ltb 1 (width total height))) [
  | inl e ↦ rw (tree_height, e) (tree_height_lem total fuel (height + 1) (omega (arith, h)))
  | inr e ↦ rw (tree_height, e) (omega (arith, beyond_width total height 1 (ground arith)))
]

-- From the first leaf on, the places above the last leaf have no match.
matched-all :
    (block : Leaves) (n : ℕ) → block.total ≤ n → matched block 0 n ≡ matched block 0 block.total
matched-all block n h =
    let split : n ≡ block.total + (n - block.total) = omega arith in
    ap (matched block 0) split
    ∙ matched-sum block 0 block.total (n - block.total)
    ∙ ap (λ l. matched block 0 block.total ++ l)
        (matched-beyond block (0 + block.total) (n - block.total) (omega arith))
    ∙ append-nil (matched block 0 block.total)

not_ltb : (a b : ℕ) → b ≤ a → ltb a b ≡ false
not_ltb a b h = ground arith

not_zero : (a : ℕ) → 0 < a → (a == 0) ≡ false
not_zero a h = ground arith

module _ (root : ℕ → ℕ → ℕ) where
  accepted :
      (total flags x : ℕ) (bits rest : List Bool) (hashes : List ℕ) (f : List (ℕ × ℕ))
      → 0 < total
      → total * 60 ≤ 2000000
      → length hashes ≤ total
      → length hashes ≤ flags * 8
      → (flags * 8 - length rest + 7) / 8 ≡ flags
      → extract root total (tree_height total total 0) 0 bits hashes
        ≡ record { hash = x; failed = false; found = f; bits = rest; hashes = [] }
      → extract_tree root total flags bits hashes ≡ some (x, f)
  unfolding extract_tree
  accepted total flags x bits rest hashes f some_tx small few room used e =
      let z1 : (total == 0) ≡ false = not_zero total some_tx in
      let z2 : ltb 2000000 (total * 60) ≡ false = not_ltb 2000000 (total * 60) small in
      let z3 : ltb total (length hashes) ≡ false = not_ltb total (length hashes) few in
      let z4 : ltb (flags * 8) (length hashes) ≡ false = not_ltb (flags * 8) (length hashes) room in
      let z5 : ((flags * 8 - length rest + 7) / 8 == flags) ≡ true =
        (==_iff ((flags * 8 - length rest + 7) / 8) flags).1 used in
      rw (extract_tree, z1, z2, z3, z4, e, z5) refl

  -- For a block of 1 to 33,333 transactions in whose merkle tree no two neighbours have the same
  -- hash: what `fromMatches` writes, `extractTree` accepts, and it returns the root of the full
  -- tree and exactly the matched leaves with their places, in order.
  pub extract_tree-from_matches :
      (block : Leaves)
      → 0 < block.total
      → block.total * 60 ≤ 2000000
      → Apart root block (tree_height block.total block.total 0) 0
      → extract_tree root block.total
          (from_matches root block).0
          (from_matches root block).1
          (from_matches root block).2
        ≡ some (
          hash_at root block (tree_height block.total block.total 0) 0,
          matched block 0 block.total,
        )
  unfolding from_matches
  extract_tree-from_matches block some_tx small apart =
      let total = block.total in
      let height = tree_height total total 0 in
      let (bits, hashes) = build root block height 0 in
      let flags = (length bits + 7) / 8 in
      let zeros : List Bool = replicate (flags * 8 - length bits) false in
      let first : 0 < width total height = inside_width total height 0 (omega (arith, some_tx)) in
      let (few, deep, narrow) = build-Few root block height 0 first in
      let filled = length-replicate {0} {A = Bool} (flags * 8 - length bits) false in
      accepted total flags (hash_at root block height 0) (bits ++ zeros) zeros hashes
        (matched block 0 total) some_tx small (omega (arith, few)) (omega (arith, narrow))
        (omega (arith, filled))
        (ap (extract root total height 0 (bits ++ zeros)) (sym (append-nil hashes))
          ∙ extract-build root block height 0 zeros [] first apart
          ∙ ap
              (λ l. record {
                hash = hash_at root block height 0;
                failed = false;
                found = l;
                bits = zeros;
                hashes = [];
              })
              (ap (λ (k : ℕ). matched block k (2 ^ height)) (omega arith)
                ∙ matched-all block (2 ^ height) (tree_height_lem total total 0 (omega arith))))
