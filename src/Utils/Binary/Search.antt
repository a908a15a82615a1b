-- ===== src/Utils/Binary/Search.antt =====
-- The binary search of lib/utils/binary.js on an array that the comparator splits in order.
use bcoin.Prelude.{
  ℕ, zero, suc, ◌+◌, ◌-◌, ◌/◌, ◌%◌, ◌^◌, ◌≤◌, ◌<◌, ◌≡◌, refl, ap, ◌⊎◌, inl, inr, ℤ, is_neg_ℤ,
  is_zero_ℤ, pos, negsuc, true, false, some, List, [], ◌∷◌, arith, ltb, length, get_elem?,
  Bool-cases,
}
use native.Mathlib.Decide.{dec_lt, ℕ_discrete}
use bcoin.Utils.Binary.{Probe, found, gap, stuck, search_loop, probe, search}

pub get_elem?-lt {ℓ} :
    {A : Type ℓ} (xs : List A) (i : ℕ) → i < length xs → (x : A) × (get_elem? xs i ≡ some x)
get_elem?-lt [] i h = elim h [ ]
get_elem?-lt (x ∷ xs) zero h = (x, refl)
get_elem?-lt (x ∷ xs) (suc i) h = get_elem?-lt xs i (omega arith)

pub get_elem?-past {ℓ} :
    {A : Type ℓ} (xs : List A) (i : ℕ) (x : A) → length xs ≤ i → get_elem? xs i ≡ some x → ⊥
get_elem?-past [] i x h e = cc
get_elem?-past (y ∷ xs) zero x h e = absurd (omega arith)
get_elem?-past (y ∷ xs) (suc i) x h e = get_elem?-past xs i x (omega arith) e

neg_nonzero : (z : ℤ) → is_neg_ℤ z ≡ true → is_zero_ℤ z ≡ false
neg_nonzero (pos n) h = cc
neg_nonzero (negsuc n) h = refl

ltb-true : (a b : ℕ) → a < b → ltb a b ≡ true
ltb-true a b h = ground arith

ltb-false : (a b : ℕ) → b ≤ a → ltb a b ≡ false
ltb-false a b h = ground arith

module _ {ℓ κ} {A : Type ℓ} {K : Type κ} (compare : A → K → ℤ) (key : K) where
  -- The comparator puts the item before the key, or behind it.
  abbrev pub Below : A → Type 0
  Below x = is_neg_ℤ (compare x key) ≡ true

  abbrev pub Above : A → Type 0
  Above x = (is_neg_ℤ (compare x key) ≡ false) × (is_zero_ℤ (compare x key) ≡ false)

  -- What stands before an item below the key is below it, what stands behind one above is above.
  abbrev pub IsOrdered : List A → Type ℓ
  IsOrdered items =
      (i j : ℕ) (x y : A)
      → i < j
      → get_elem? items i ≡ some x
      → get_elem? items j ≡ some y
      → (Below y → Below x) × (Above x → Above y)

  abbrev pub AllBefore : List A → ℕ → Type ℓ
  AllBefore items n = (i : ℕ) (x : A) → i < n → get_elem? items i ≡ some x → Below x

  abbrev pub AllFrom : List A → ℕ → Type ℓ
  AllFrom items n = (i : ℕ) (x : A) → n ≤ i → get_elem? items i ≡ some x → Above x

  -- What a probe promises.
  abbrev pub Located : List A → Probe → Type ℓ
  Located items (found p) =
      (x : A) × (get_elem? items p ≡ some x) × (is_zero_ℤ (compare x key) ≡ true)
  Located items (gap s) = (s ≤ length items) × AllBefore items s × AllFrom items s
  Located items stuck = A × ⊥

  Below-before :
      (items : List A) (m : ℕ) (x : A)
      → IsOrdered items
      → get_elem? items m ≡ some x
      → Below x
      → AllBefore items (m + 1)
  Below-before items m x ord e b i y lt ey = elim (ℕ_discrete i m) [
    | yes q ↦ cc
    | no q ↦ (ord i m y x (omega arith) ey e).0 b
  ]

  Above-from :
      (items : List A) (m : ℕ) (x : A)
      → IsOrdered items
      → get_elem? items m ≡ some x
      → Above x
      → AllFrom items m
  Above-from items m x ord e b i y le ey = elim (ℕ_discrete m i) [
    | yes q ↦ ground (arith, ap (get_elem? items) q)
    | no q ↦ (ord m i x y (omega arith) e ey).1 b
  ]

  -- The loop's invariant: what stands before `start` is below the key, and what stands from
  -- `stop` on is above it.
  search_loop-Located :
      (fuel : ℕ) (items : List A) (start stop : ℕ)
      → IsOrdered items
      → length items ≤ 2 ^ 31
      → start ≤ stop
      → stop ≤ length items
      → stop - start < fuel
      → AllBefore items start
      → AllFrom items stop
      → Located items (search_loop compare fuel items key start stop)
  unfolding search_loop
  search_loop-Located zero items start stop ord small le hi hf bef aft = absurd (omega arith)
  search_loop-Located (suc fuel) items start stop ord small le hi hf bef aft =
      elim (dec_lt start stop) [
        | no ge ↦
            rw (ltb-false start stop (omega arith))
              (omega arith, bef, λ i x h. aft i x (omega arith))
        | yes lt ↦
            let mid : ℕ = (start + stop - 1) % 2 ^ 32 / 2 in
            let (x, e) = get_elem?-lt items mid (omega arith) in
            rw (ltb-true start stop lt, e)
              (elim (Bool-cases (is_zero_ℤ (compare x key))) [
                | inl z ↦ rw z (x, e, z)
                | inr nz ↦ rw nz (elim (Bool-cases (is_neg_ℤ (compare x key))) [
                  | inl n ↦ rw n (
                      search_loop-Located fuel items (mid + 1) stop ord small (omega arith) hi
                        (omega arith) (Below-before items mid x ord e n) aft)
                  | inr nn ↦ rw nn (
                      search_loop-Located fuel items start mid ord small (omega arith) (omega arith)
                        (omega arith) bef (Above-from items mid x ord e (nn, nz)))
                ])
              ])
      ]

  pub probe-Located :
      (items : List A)
      → IsOrdered items
      → length items ≤ 2 ^ 31
      → Located items (probe compare items key)
  probe-Located items ord small =
      search_loop-Located (length items + 1) items 0 (length items) ord small (omega arith)
        (omega arith) (omega arith) (λ i x h e. absurd (omega arith))
        (λ i x h e. absurd (get_elem?-past items i x h e))

  gap_misses :
      (items : List A) (s : ℕ)
      → AllBefore items s
      → AllFrom items s
      → (i : ℕ) (x : A) → get_elem? items i ≡ some x
      → is_zero_ℤ (compare x key) ≡ false
  gap_misses items s bef aft i x e = elim (dec_lt i s) [
    | yes lt ↦ neg_nonzero (compare x key) (bef i x lt e)
    | no ge ↦ (aft i x (omega arith) e).1
  ]

  -- On an array of at most 2^31 items that the comparator splits in order, `search` without
  -- `insert` ends: it returns the index of an item that compares equal to the key, or it returns
  -- -1 and no item of the array compares equal.
  pub search_complete :
      (items : List A)
      → IsOrdered items
      → length items ≤ 2 ^ 31
      → ((p : ℕ) × (x : A) × (search compare items key false ≡ some (pos p))
          × (get_elem? items p ≡ some x)
          × (is_zero_ℤ (compare x key) ≡ true))
        ⊎ ((search compare items key false ≡ some (negsuc 0))
            × ((i : ℕ) (x : A) → get_elem? items i ≡ some x → is_zero_ℤ (compare x key) ≡ false))
  unfolding search
  search_complete items ord small =
      go (probe compare items key) refl (probe-Located items ord small)
    where
      go :
          (r : Probe)
          → probe compare items key ≡ r
          → Located items r
          → ((p : ℕ) × (x : A) × (search compare items key false ≡ some (pos p))
              × (get_elem? items p ≡ some x)
              × (is_zero_ℤ (compare x key) ≡ true))
            ⊎ ((search compare items key false ≡ some (negsuc 0))
                × ((i : ℕ) (x : A)
                    → get_elem? items i ≡ some x
                    → is_zero_ℤ (compare x key) ≡ false))
      go (found p) q (x, e, z) = inl (p, x, rw q, e, z)
      go (gap s) q (le, bef, aft) = inr (rw q, gap_misses items s bef aft)
      go stuck q (x, h) = absurd h
