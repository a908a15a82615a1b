-- ===== src/Primitives/MerkleBlock/RoundTrip.antt =====
-- What `extractTree` reads of what `fromMatches` writes.
use bcoin.Prelude.{
  ℕ, zero, suc, ◌+◌, ◌*◌, ◌^◌, ◌<◌, ◌≡◌, ◌≢◌, refl, sym, ap, ◌∙◌, Bool, true, false, List, [], ◌∷◌,
  ◌++◌, arith, ltb, ◌==◌, get_or, Bool-cases, inl, inr,
}
use mathlib.Core.List.{append-nil, append_assoc}
use bcoin.Primitives.MerkleBlock.{Leaves, width, any_match, hash_at, build, Extracted, extract}
use bcoin.Primitives.MerkleBlock.Places.{
  matched, any_match-matched, matched-beyond, within_width, beyond_width, below, below-halves,
  left_width,
}

module _ (root : ℕ → ℕ → ℕ) (block : Leaves) where
  -- No two neighbours below a node have the same hash.
  abbrev pub Apart : ℕ → ℕ → Type 0
  Apart zero p = Unit
  Apart (suc h) p =
      (p * 2 + 1 < width block.total h
        → (hash_at root block h (p * 2 + 1) ≢ hash_at root block h (p * 2)) × Apart h (p * 2 + 1))
      × Apart h (p * 2)

  abbrev done : ℕ → List (ℕ × ℕ) → List Bool → List ℕ → Extracted root
  done hash found bits hashes = record {
    hash = hash;
    failed = false;
    found = found;
    bits = bits;
    hashes = hashes;
  }

  extract-two :
      (h p : ℕ) (bits bits1 bits2 : List Bool) (hs hs1 hs2 : List ℕ) (x y : ℕ) (f g : List (ℕ × ℕ))
      → ltb (p * 2 + 1) (width block.total h) ≡ true
      → y ≢ x
      → extract root block.total h (p * 2) bits hs ≡ done x f bits1 hs1
      → extract root block.total h (p * 2 + 1) bits1 hs1 ≡ done y g bits2 hs2
      → extract root block.total (suc h) p (true ∷ bits) hs ≡ done (root x y) (f ++ g) bits2 hs2
  unfolding extract
  extract-two h p bits bits1 bits2 hs hs1 hs2 x y f g w ne e1 e2 =
      let apart : (y == x) ≡ false = ground (arith, ne) in rw (extract, e1, e2, w, apart) refl

  extract-one :
      (h p : ℕ) (bits bits1 : List Bool) (hs hs1 : List ℕ) (x : ℕ) (f : List (ℕ × ℕ))
      → ltb (p * 2 + 1) (width block.total h) ≡ false
      → extract root block.total h (p * 2) bits hs ≡ done x f bits1 hs1
      → extract root block.total (suc h) p (true ∷ bits) hs ≡ done (root x x) f bits1 hs1
  unfolding extract
  extract-one h p bits bits1 hs hs1 x f w e = rw (extract, e, w) refl

  leaf_lem :
      (p : ℕ) (bits : List Bool) (hashes : List ℕ)
      → p < block.total
      → extract root block.total 0 p (any_match block p 1 ∷ bits) (hash_at root block 0 p ∷ hashes)
        ≡ done (hash_at root block 0 p) (matched block p 1) bits hashes
  unfolding extract any_match matched hash_at
  leaf_lem p bits hashes w =
      let inside : ltb p block.total ≡ true = ground arith in
      elim (Bool-cases (get_or block.matches p false)) [
        | inl e ↦ rw (inside, e) refl
        | inr e ↦ rw (inside, e) refl
      ]

  abbrev pub marked : ℕ → ℕ → Bool
  marked h p = any_match block (p * 2 ^ suc h) (2 ^ suc h)

  abbrev pub has_right : ℕ → ℕ → Bool
  has_right h p = ltb (p * 2 + 1) (width block.total h)

  pub build-none :
      (h p : ℕ)
      → marked h p ≡ false
      → build root block (suc h) p ≡ (false ∷ [], hash_at root block (suc h) p ∷ [])
  unfolding build
  build-none h p e = rw (build, e) refl

  pub build-two :
      (h p : ℕ)
      → marked h p ≡ true
      → has_right h p ≡ true
      → build root block (suc h) p ≡ (
        true ∷ ((build root block h (p * 2)).0 ++ (build root block h (p * 2 + 1)).0),
        (build root block h (p * 2)).1 ++ (build root block h (p * 2 + 1)).1,
      )
  unfolding build
  build-two h p e w = rw (build, e, w) refl

  pub build-one :
      (h p : ℕ)
      → marked h p ≡ true
      → has_right h p ≡ false
      → build root block (suc h) p
        ≡ (true ∷ (build root block h (p * 2)).0, (build root block h (p * 2)).1)
  unfolding build
  build-one h p e w = rw (build, e, w) refl

  hash_at-two :
      (h p : ℕ)
      → has_right h p ≡ true
      → hash_at root block (suc h) p
        ≡ root (hash_at root block h (p * 2)) (hash_at root block h (p * 2 + 1))
  unfolding hash_at
  hash_at-two h p w = rw (hash_at, w) refl

  hash_at-one :
      (h p : ℕ)
      → has_right h p ≡ false
      → hash_at root block (suc h) p
        ≡ root (hash_at root block h (p * 2)) (hash_at root block h (p * 2))
  unfolding hash_at
  hash_at-one h p w = rw (hash_at, w) refl

  -- What is read of a pair of lists with more after them.
  abbrev read : ℕ → ℕ → List Bool × List ℕ → List Bool → List ℕ → Extracted root
  read h p (b, x) bits hashes = extract root block.total h p (b ++ bits) (x ++ hashes)

  read-none :
      (h p : ℕ) (bits : List Bool) (hashes : List ℕ)
      → read (suc h) p (false ∷ [], hash_at root block (suc h) p ∷ []) bits hashes
        ≡ done (hash_at root block (suc h) p) [] bits hashes
  unfolding extract
  read-none h p bits hashes = refl

  below-one : (h p : ℕ) → has_right h p ≡ false → below block (suc h) p ≡ below block h (p * 2)
  unfolding below
  below-one h p w =
      below-halves block h p
      ∙ ap (λ l. below block h (p * 2) ++ l)
          (matched-beyond block ((p * 2 + 1) * 2 ^ h) (2 ^ h)
            (beyond_width block.total h (p * 2 + 1) (ground arith)))
      ∙ append-nil (below block h (p * 2))

  -- At a place of the tree where no two neighbours below have the same hash, `extractTree` uses up
  -- exactly the bits and the hashes that `fromMatches` wrote for that place, does not fail, and
  -- finds the hash of the place in the full tree and the matched leaves below it with their
  -- places, in order.
  pub extract-build :
      (h p : ℕ) (bits : List Bool) (hashes : List ℕ)
      → p < width block.total h
      → Apart h p
      → extract root block.total h p
          ((build root block h p).0 ++ bits)
          ((build root block h p).1 ++ hashes)
        ≡ record {
          hash = hash_at root block h p;
          failed = false;
          found = matched block (p * 2 ^ h) (2 ^ h);
          bits = bits;
          hashes = hashes;
        }
  unfolding build below
  extract-build zero p bits hashes w apart =
      let flat : p * 1 ≡ p = omega arith in
      ap
        (λ (k : ℕ).
          extract root block.total 0 p (any_match block k 1 ∷ bits)
            (hash_at root block 0 p ∷ hashes))
        flat
      ∙ leaf_lem p bits hashes (rw flat at (within_width block.total 0 p w))
      ∙ ap (λ (k : ℕ). done (hash_at root block 0 p) (matched block k 1) bits hashes) (sym flat)
  extract-build (suc h) p bits hashes w (right, left) = elim (Bool-cases (marked h p)) [
    | inl e ↦ elim (Bool-cases (has_right h p)) [
      | inl r ↦
          let (bs, xs) = build root block h (p * 2) in
          let (bs', xs') = build root block h (p * 2 + 1) in
          let (ne, apart) = right (ground arith) in
          ap (λ v. read (suc h) p v bits hashes) (build-two h p e r)
          ∙ ap (λ l. extract root block.total (suc h) p (true ∷ l) ((xs ++ xs') ++ hashes))
              (append_assoc bs bs' bits)
          ∙ ap (extract root block.total (suc h) p (true ∷ (bs ++ (bs' ++ bits))))
              (append_assoc xs xs' hashes)
          ∙ extract-two h p (bs ++ (bs' ++ bits)) (bs' ++ bits) bits (xs ++ (xs' ++ hashes))
              (xs' ++ hashes) hashes (hash_at root block h (p * 2))
              (hash_at root block h (p * 2 + 1)) (below block h (p * 2)) (below block h (p * 2 + 1))
              r ne
              (extract-build h (p * 2) (bs' ++ bits) (xs' ++ hashes) (left_width block.total h p w)
                left)
              (extract-build h (p * 2 + 1) bits hashes (ground arith) apart)
          ∙ ap (λ (x : ℕ). done x (below block h (p * 2) ++ below block h (p * 2 + 1)) bits hashes)
              (sym (hash_at-two h p r))
          ∙ ap (λ l. done (hash_at root block (suc h) p) l bits hashes)
              (sym (below-halves block h p))
      | inr r ↦
          let (bs, xs) = build root block h (p * 2) in
          ap (λ v. read (suc h) p v bits hashes) (build-one h p e r)
          ∙ extract-one h p (bs ++ bits) bits (xs ++ hashes) hashes (hash_at root block h (p * 2))
              (below block h (p * 2)) r
              (extract-build h (p * 2) bits hashes (left_width block.total h p w) left)
          ∙ ap (λ (x : ℕ). done x (below block h (p * 2)) bits hashes) (sym (hash_at-one h p r))
          ∙ ap (λ l. done (hash_at root block (suc h) p) l bits hashes) (sym (below-one h p r))
    ]
    | inr e ↦
        ap (λ v. read (suc h) p v bits hashes) (build-none h p e)
        ∙ read-none h p bits hashes
        ∙ ap (λ l. done (hash_at root block (suc h) p) l bits hashes)
            (sym (any_match-matched block (p * 2 ^ suc h) (2 ^ suc h) e))
  ]
