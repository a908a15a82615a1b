-- ===== src/Utils/Binary/Insert.antt =====
-- `insert` of lib/utils/binary.js keeps a sorted array sorted, and adds exactly one item.
use bcoin.Prelude.{
  ℕ, zero, suc, ◌+◌, ◌^◌, ◌≤◌, ◌<◌, ◌≡◌, refl, sym, ap, ◌∙◌, inl, inr, ℤ, pos, negsuc, is_neg_ℤ,
  is_zero_ℤ, Bool, true, false, some, List, [], ◌∷◌, ◌++◌, arith, length, get_elem?, All, take,
  drop, take-append-drop, ◌==◌, Bool-cases, Option-cases,
}
use bcoin.Utils.Binary.{
  Probe, found, gap, stuck, probe, search, splice_in, is_duplicate, insert_at, insert,
}
use bcoin.Utils.Binary.Search.{
  IsOrdered, AllBefore, AllFrom, Located, probe-Located, get_elem?-past,
}
use mathlib.Core.List.{Perm, perm_middle}
use mathlib.Core.Option.{some-injective}
use mathlib.Core.Path.{subst}
use native.Mathlib.Decide.{ℕ_discrete, dec_le}
use Prim.Native.Nat.{zero-le}

-- What a comparator must satisfy to order the items.
pub record IsComparator {ℓ} {A : Type ℓ} (compare : A → A → ℤ) : Type ℓ where
  pub flip : (a b : A) → is_neg_ℤ (compare a b) ≡ true → is_neg_ℤ (compare b a) ≡ false
  pub zero_flip : (a b : A) → is_zero_ℤ (compare a b) ≡ true → is_neg_ℤ (compare b a) ≡ false
  pub antisymm :
      (a b : A)
      → is_neg_ℤ (compare a b) ≡ false
      → is_neg_ℤ (compare b a) ≡ false
      → is_zero_ℤ (compare a b) ≡ true
  pub trans :
      (a b c : A)
      → is_neg_ℤ (compare b a) ≡ false
      → is_neg_ℤ (compare c b) ≡ false
      → is_neg_ℤ (compare c a) ≡ false

All-get {ℓ κ} :
    {A : Type ℓ} (P : A → Type κ) (xs : List A) (i : ℕ) (x : A)
    → All P xs
    → get_elem? xs i ≡ some x
    → P x
All-get P [] i x h e = cc
All-get P (y ∷ xs) zero x h e = subst P (some-injective _ _ e) h.0
All-get P (y ∷ xs) (suc i) x h e = All-get P xs i x h.1 e

get-All {ℓ κ} :
    {A : Type ℓ} (P : A → Type κ) (xs : List A)
    → ((i : ℕ) (x : A) → get_elem? xs i ≡ some x → P x)
    → All P xs
get-All P [] h = tt
get-All P (x ∷ xs) h = (h 0 x refl, get-All P xs (λ i y e. h (suc i) y e))

zero_nonneg : (z : ℤ) → is_zero_ℤ z ≡ true → is_neg_ℤ z ≡ false
zero_nonneg (pos n) h = refl
zero_nonneg (negsuc n) h = cc

suc-ne-zero : (n : ℕ) → (suc n == 0) ≡ false
suc-ne-zero n = ground arith

get_elem?-le {ℓ} :
    {A : Type ℓ} (xs : List A) (i : ℕ) (x : A) → get_elem? xs i ≡ some x → i ≤ length xs
get_elem?-le xs i x e = elim (dec_le i (length xs)) [
  | yes le ↦ le
  | no gt ↦ absurd (get_elem?-past xs i x (omega arith) e)
]

module _ {ℓ} {A : Type ℓ} (compare : A → A → ℤ) where
  -- `a` may stand before `b`.
  abbrev pub Precedes : A → A → Type 0
  Precedes a b = is_neg_ℤ (compare b a) ≡ false

  abbrev pub IsSorted : List A → Type 0
  IsSorted [] = Unit
  IsSorted (x ∷ xs) = All (Precedes x) xs × IsSorted xs

  Sorted-get :
      (xs : List A) (i j : ℕ) (x y : A)
      → IsSorted xs
      → i < j
      → get_elem? xs i ≡ some x
      → get_elem? xs j ≡ some y
      → Precedes x y
  Sorted-get [] i j x y h lt ex ey = cc
  Sorted-get (z ∷ zs) i zero x y h lt ex ey = absurd (omega arith)
  Sorted-get (z ∷ zs) zero (suc j) x y h lt ex ey =
      subst (λ t. Precedes t y) (some-injective _ _ ex) (All-get (Precedes z) zs j y h.0 ey)
  Sorted-get (z ∷ zs) (suc i) (suc j) x y h lt ex ey = Sorted-get zs i j x y h.1 (omega arith) ex ey

  -- A sorted array is one that the comparator splits in order, whatever the key.
  pub Sorted-IsOrdered :
      IsComparator compare → (key : A) (xs : List A) → IsSorted xs → IsOrdered compare key xs
  Sorted-IsOrdered c key xs h i j x y lt ex ey =
      let le = Sorted-get xs i j x y h lt ex ey in (below x y le, above x y le)
    where
      below :
          (x y : A)
          → Precedes x y
          → is_neg_ℤ (compare y key) ≡ true
          → is_neg_ℤ (compare x key) ≡ true
      below x y le b = elim (Bool-cases (is_neg_ℤ (compare x key))) [
        | inl n ↦ n
        | inr nn ↦ cc (c.trans key x y nn le)
      ]

      above :
          (x y : A)
          → Precedes x y
          → (is_neg_ℤ (compare x key) ≡ false) × (is_zero_ℤ (compare x key) ≡ false)
          → (is_neg_ℤ (compare y key) ≡ false) × (is_zero_ℤ (compare y key) ≡ false)
      above x y le (nn, nz) = (c.trans key x y nn le, not_zero)
        where
          not_zero : is_zero_ℤ (compare y key) ≡ false
          not_zero = elim (Bool-cases (is_zero_ℤ (compare y key))) [
            | inr nzy ↦ nzy
            | inl z ↦ cc (c.antisymm x key nn (c.trans x y key le (c.zero_flip y key z)))
          ]

  All-splice_in {κ} :
      (P : A → Type κ) (xs : List A) (i : ℕ) (a : A) → All P xs → P a → All P (splice_in xs i a)
  All-splice_in P xs zero a h p = (p, h)
  All-splice_in P [] (suc i) a h p = (p, tt)
  All-splice_in P (x ∷ xs) (suc i) a h p = (h.0, All-splice_in P xs i a h.1 p)

  -- What stands before index `i` may stand before the item, and what stands from `i` on behind it.
  abbrev Fits : List A → ℕ → A → Type ℓ
  Fits xs i a =
      ((j : ℕ) (y : A) → j < i → get_elem? xs j ≡ some y → Precedes y a)
      × ((j : ℕ) (y : A) → i ≤ j → get_elem? xs j ≡ some y → Precedes a y)

  splice_in-IsSorted :
      (xs : List A) (i : ℕ) (a : A) → IsSorted xs → Fits xs i a → IsSorted (splice_in xs i a)
  splice_in-IsSorted xs zero a h f = (get-All (Precedes a) xs (λ j y e. f.1 j y zero-le e), h)
  splice_in-IsSorted [] (suc i) a h f = (tt, tt)
  splice_in-IsSorted (x ∷ xs) (suc i) a h f = (
    All-splice_in (Precedes x) xs i a h.0 (f.0 0 x (omega arith) refl),
    splice_in-IsSorted xs i a h.1
        (λ j y lt e. f.0 (suc j) y (omega arith) e, λ j y le e. f.1 (suc j) y (omega arith) e),
  )

  found-Fits :
      IsComparator compare
      → (xs : List A) (a x : A) (p : ℕ) → IsSorted xs
      → get_elem? xs p ≡ some x
      → is_zero_ℤ (compare x a) ≡ true
      → Fits xs p a
  found-Fits c xs a x p h e z = (
    λ j y lt ey. c.trans y x a (Sorted-get xs j p y x h lt ey e) (c.zero_flip x a z),
    λ j y le ey. behind j y (ℕ_discrete p j) le ey,
  )
    where
      after : Precedes a x
      after = zero_nonneg (compare x a) z

      behind : (j : ℕ) (y : A) → Dec (p ≡ j) → p ≤ j → get_elem? xs j ≡ some y → Precedes a y
      behind j y (yes q) le ey =
          subst (Precedes a) (some-injective _ _ (sym e ∙ ap (get_elem? xs) q ∙ ey)) after
      behind j y (no q) le ey = c.trans a x y after (Sorted-get xs p j x y h (omega arith) e ey)

  gap-Fits :
      IsComparator compare
      → (xs : List A) (a : A) (s : ℕ) → AllBefore compare a xs s
      → AllFrom compare a xs s
      → Fits xs s a
  gap-Fits c xs a s bef aft = (λ j y lt e. c.flip y a (bef j y lt e), λ j y le e. (aft j y le e).0)

  splice_in-get :
      (xs : List A) (i : ℕ) (a : A) → i ≤ length xs → get_elem? (splice_in xs i a) i ≡ some a
  splice_in-get xs zero a h = refl
  splice_in-get [] (suc i) a h = absurd (omega arith)
  splice_in-get (x ∷ xs) (suc i) a h = splice_in-get xs i a (omega arith)

  length-splice_in : (xs : List A) (i : ℕ) (a : A) → length (splice_in xs i a) ≡ length xs + 1
  length-splice_in xs zero a = omega arith
  length-splice_in [] (suc i) a = omega arith
  length-splice_in (x ∷ xs) (suc i) a = omega (arith, length-splice_in xs i a)

  splice_in-perm : (xs : List A) (i : ℕ) (a : A) → Perm (splice_in xs i a) (a ∷ xs)
  splice_in-perm xs i a =
      subst (λ t. Perm (splice_in xs i a) (a ∷ t)) (take-append-drop i xs)
        (perm_middle (take i xs) (drop i xs))

  splice_in-end : (xs : List A) (a : A) → splice_in xs (length xs) a ≡ xs ++ (a ∷ [])
  splice_in-end [] a = refl
  splice_in-end (x ∷ xs) a = ap (λ t. x ∷ t) (splice_in-end xs a)

  -- The three ways in which the source writes the item are one splice.
  insert_at-splice :
      (xs : List A) (a : A) (uniq : Bool) (i : ℕ)
      → is_duplicate compare xs i a uniq ≡ false
      → insert_at compare xs a uniq (pos i) ≡ some (pos i, splice_in xs i a)
  unfolding insert_at
  insert_at-splice xs a uniq zero d = rw d
  insert_at-splice xs a uniq (suc i) d =
      rw (d, suc-ne-zero i)
        (elim (Bool-cases (suc i == length xs)) [
          | inl e ↦ rw (e, at_end (suc i) (ground arith))
          | inr ne ↦ rw ne
        ])
    where
      at_end : (k : ℕ) → k ≡ length xs → xs ++ (a ∷ []) ≡ splice_in xs k a
      at_end k q = sym (subst (λ k. splice_in xs k a ≡ xs ++ (a ∷ [])) (sym q) (splice_in-end xs a))

  insert_at-duplicate :
      (xs : List A) (a : A) (uniq : Bool) (i : ℕ)
      → is_duplicate compare xs i a uniq ≡ true
      → insert_at compare xs a uniq (pos i) ≡ some (negsuc 0, xs)
  unfolding insert_at
  insert_at-duplicate xs a uniq i d = rw d

  abbrev pub HasNoEqual : List A → A → Type ℓ
  HasNoEqual items item =
      (j : ℕ) (x : A) → get_elem? items j ≡ some x → is_zero_ℤ (compare x item) ≡ false

  -- What `insert` leaves behind, with the returned index.
  abbrev pub Inserted : List A → A → Bool → ℤ → List A → Type ℓ
  Inserted items item uniq (pos i) items' =
      IsSorted items'
      × Perm items' (item ∷ items)
      × (length items' ≡ length items + 1)
      × (get_elem? items' i ≡ some item)
      × (uniq ≡ true → HasNoEqual items item)
  Inserted items item uniq (negsuc n) items' =
      (items' ≡ items)
      × (uniq ≡ true)
      × ((i : ℕ) × (x : A) × (get_elem? items i ≡ some x) × (is_zero_ℤ (compare x item) ≡ true))

  duplicate_item :
      (xs : List A) (i : ℕ) (a : A) (uniq : Bool)
      → is_duplicate compare xs i a uniq ≡ true
      → (uniq ≡ true)
        × ((j : ℕ) × (x : A) × (get_elem? xs j ≡ some x) × (is_zero_ℤ (compare x a) ≡ true))
  duplicate_item xs i a false d = cc
  duplicate_item xs i a true d = elim (Option-cases (get_elem? xs i)) [
    | inl no_item ↦ cc (rw no_item at d)
    | inr (x, e) ↦ (refl, (i, x, e, rw e at d))
  ]

  found-duplicate :
      (xs : List A) (p : ℕ) (a x : A) (uniq : Bool)
      → get_elem? xs p ≡ some x
      → is_zero_ℤ (compare x a) ≡ true
      → is_duplicate compare xs p a uniq ≡ false
      → uniq ≡ true
      → HasNoEqual xs a
  found-duplicate xs p a x false e z d u = cc
  found-duplicate xs p a x true e z d u = cc (rw e at d)

  negative_not_zero : (z : ℤ) → is_neg_ℤ z ≡ true → is_zero_ℤ z ≡ false
  negative_not_zero (pos n) h = cc
  negative_not_zero (negsuc n) h = refl

  gap-HasNoEqual :
      (xs : List A) (a : A) (s : ℕ)
      → AllBefore compare a xs s
      → AllFrom compare a xs s
      → HasNoEqual xs a
  gap-HasNoEqual xs a s bef aft j y e = elim (dec_le s j) [
    | yes le ↦ (aft j y le e).1
    | no gt ↦ negative_not_zero (compare y a) (bef j y (omega arith) e)
  ]

  insert_at-Inserted :
      (items : List A) (item : A) (uniq : Bool) (i : ℕ)
      → IsSorted items
      → i ≤ length items
      → Fits items i item
      → (is_duplicate compare items i item uniq ≡ false → uniq ≡ true → HasNoEqual items item)
      → (r : ℤ) × (items' : List A) × (insert_at compare items item uniq (pos i) ≡ some (r, items'))
        × Inserted items item uniq r items'
  insert_at-Inserted items item uniq i h le f distinct =
      elim (Bool-cases (is_duplicate compare items i item uniq)) [
        | inl d ↦ (
          negsuc 0,
          items,
          insert_at-duplicate items item uniq i d,
          (refl, (duplicate_item items i item uniq d).0, (duplicate_item items i item uniq d).1),
        )
        | inr d ↦ (
          pos i,
          splice_in items i item,
          insert_at-splice items item uniq i d,
          (
            splice_in-IsSorted items i item h f,
            splice_in-perm items i item,
            length-splice_in items i item,
            splice_in-get items i item le,
            distinct d,
          ),
        )
      ]

  -- Into a sorted array of at most 2^31 items, under a lawful comparator, `insert` ends. It
  -- returns the index of the item in an array that is sorted and holds what was there and the
  -- item once more, and under `uniq` no item there compared equal; or, only under `uniq`, it returns -1, leaves the array as it was, and some
  -- item there compares equal.
  pub insert_correct :
      IsComparator compare
      → (items : List A) (item : A) (uniq : Bool) → IsSorted items
      → length items ≤ 2 ^ 31
      → (r : ℤ) × (items' : List A) × (insert compare items item uniq ≡ some (r, items'))
        × Inserted items item uniq r items'
  unfolding insert search
  insert_correct c items item uniq h small =
      go (probe compare items item) refl
        (probe-Located compare item items (Sorted-IsOrdered c item items h) small)
    where
      go :
          (r : Probe)
          → probe compare items item ≡ r
          → Located compare item items r
          → (r : ℤ) × (items' : List A) × (insert compare items item uniq ≡ some (r, items'))
            × Inserted items item uniq r items'
      go (found p) q (x, e, z) =
          let (r, items', eq, ok) =
            insert_at-Inserted items item uniq p h (get_elem?-le items p x e)
              (found-Fits c items item x p h e z) (found-duplicate items p item x uniq e z) in
          (r, items', rw (q, insert) eq, ok)
      go (gap s) q (le, bef, aft) =
          let (r, items', eq, ok) =
            insert_at-Inserted items item uniq s h le (gap-Fits c items item s bef aft)
              (λ d u. gap-HasNoEqual items item s bef aft) in
          (r, items', rw (q, insert) eq, ok)
      go stuck q (x, bad) = absurd bad
