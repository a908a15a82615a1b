-- ===== src/Wallet/CoinSelector/RandomDraw.antt =====
-- `selectSRD` of lib/wallet/coinselector.js. The random sort of the engine is a parameter: the list
-- of the indices in some order.
use bcoin.Prelude.{
  ℕ, suc, ◌≡◌, ◌⊎◌, ℤ, pos, ◌+ℤ◌, ltb_ℤ, ◌≤ℤ◌, true, Option, none, some, List, [], ◌∷◌, get_elem?,
}
use bcoin.Wallet.CoinSelector.{CoinPointer}

-- `[...this.coinPointers.keys()]`, from an index on.
abbrev pub keys_from {ℓ} : {A : Type ℓ} → ℕ → List A → List ℕ
keys_from i [] = []
keys_from i (x ∷ xs) = i ∷ keys_from (suc i) xs

abbrev pub add_value : Option CoinPointer → ℤ → ℤ
add_value none v = v
add_value (some p) v = p.effective_value +ℤ v

-- What the pointers at the indices are worth.
abbrev pub drawn_value : List CoinPointer → List ℕ → ℤ
drawn_value pointers [] = pos 0
drawn_value pointers (i ∷ indices) = add_value (get_elem? pointers i) (drawn_value pointers indices)

-- The indices in the order of their draw, before those that are not drawn.
abbrev pub drawn_before : List ℕ → List ℕ → List ℕ
drawn_before [] rest = rest
drawn_before (i ∷ selected) rest = drawn_before selected (i ∷ rest)

module _ (pointers : List CoinPointer) where
  -- At no point of the draw, its start and its end included, the target was reached.
  abbrev pub FallsShort : ℤ → List ℕ → Type 0
  FallsShort target [] = ltb_ℤ (pos 0) target ≡ true
  FallsShort target (i ∷ selected) =
      (ltb_ℤ (drawn_value pointers (i ∷ selected)) target ≡ true) × FallsShort target selected

  -- Indices drawn from the list, in its order, until their values reach the target: the last one
  -- makes them reach it.
  abbrev pub IsDraw : ℤ → List ℕ → List ℕ → Type 0
  IsDraw target arr selected =
      (i : ℕ) × (before : List ℕ) × (rest : List ℕ) × (selected ≡ i ∷ before)
      × (drawn_before selected rest ≡ arr)
      × FallsShort target before
      × (target ≤ℤ drawn_value pointers selected)

  -- All indices are drawn, and the target is never reached.
  abbrev pub IsShort : ℤ → List ℕ → Type 0
  IsShort target arr = (drawn : List ℕ) × (drawn_before drawn [] ≡ arr) × FallsShort target drawn

  abbrev Draws : ℤ → List ℕ → Option (List ℕ) → Type 0
  Draws target arr o =
      (best : List ℕ) × (o ≡ some best)
      × (IsDraw target arr best
          ⊎ ((best ≡ []) × (ltb_ℤ (drawn_value pointers arr) target ≡ true) × IsShort target arr))
