-- ===== src/Utils/Binary/Remove.antt =====
-- `remove` of lib/utils/binary.js, with its loop that closes the hole in place.
use bcoin.Prelude.{
  ℕ, zero, suc, ◌+◌, ◌^◌, ◌≤◌, ◌≡◌, refl, sym, ap, ◌∙◌, ◌⊎◌, inl, inr, ℤ, is_zero_ℤ, true, false,
  Bool, Option, some, List, [], ◌∷◌, ◌++◌, arith, length, length-append, get_elem?, set, ltb,
}
use bcoin.Utils.Binary.{copy_item, copy_loop, pop, splice, remove}
use bcoin.Utils.Binary.Search.{IsOrdered, search_complete}
use mathlib.Core.List.{append-nil, append_assoc}
use native.Mathlib.Numerals.{add-one}
use mathlib.Core.Option.{some-injective}

module _ {ℓ} {A : Type ℓ} where
  -- The array as it stands around an index in range.
  get_elem?-split :
      (xs : List A) (i : ℕ) (x : A)
      → get_elem? xs i ≡ some x
      → (pre : List A) × (post : List A) × (xs ≡ pre ++ (x ∷ post)) × (length pre ≡ i)
  get_elem?-split [] i x e = cc
  get_elem?-split (y ∷ ys) zero x e = ([], ys, ap (λ t. t ∷ ys) (some-injective _ _ e), refl)
  get_elem?-split (y ∷ ys) (suc i) x e =
      let (pre, post, q, n) = get_elem?-split ys i x e in
      (y ∷ pre, post, ap (λ t. y ∷ t) q, ap suc n)

  pop-append : (pre : List A) (x : A) → pop (pre ++ (x ∷ [])) ≡ pre
  pop-append [] x = refl
  pop-append (y ∷ []) x = refl
  pop-append (y ∷ z ∷ zs) x = ap (λ t. y ∷ t) (pop-append (z ∷ zs) x)

  get_elem?-next :
      (pre : List A) (x y : A) (ys : List A)
      → get_elem? (pre ++ (x ∷ y ∷ ys)) (suc (length pre)) ≡ some y
  get_elem?-next [] x y ys = refl
  get_elem?-next (z ∷ pre) x y ys = get_elem?-next pre x y ys

  set-middle :
      (pre : List A) (x v : A) (post : List A)
      → set (pre ++ (x ∷ post)) (length pre) v ≡ pre ++ (v ∷ post)
  set-middle [] x v post = refl
  set-middle (z ∷ pre) x v post = ap (λ t. z ∷ t) (set-middle pre x v post)

  copy_item-append :
      (pre : List A) (x y : A) (ys : List A)
      → copy_item (pre ++ (x ∷ y ∷ ys)) (length pre) (length pre + 1) ≡ pre ++ (y ∷ y ∷ ys)
  copy_item-append pre x y ys =
      rw (add-one, get_elem?-next pre x y ys, copy_item) (set-middle pre x y (y ∷ ys))

  append-snoc : (pre : List A) (y : A) (ys : List A) → (pre ++ (y ∷ [])) ++ ys ≡ pre ++ (y ∷ ys)
  append-snoc pre y ys = append_assoc pre (y ∷ []) ys

  length-snoc : (pre : List A) (y : A) → length (pre ++ (y ∷ [])) ≡ length pre + 1
  length-snoc pre y = omega (arith, length-append pre (y ∷ []))

  ltb-at_end : (pre : List A) (x : A) → ltb (length pre + 1) (length (pre ++ (x ∷ []))) ≡ false
  ltb-at_end pre x = ground (arith, length-snoc pre x)

  ltb-before_end :
      (pre : List A) (x y : A) (ys : List A)
      → ltb (length pre + 1) (length (pre ++ (x ∷ y ∷ ys))) ≡ true
  ltb-before_end pre x y ys = ground (arith, length-append pre (x ∷ y ∷ ys))

  -- Each round moves one item down; the last one is then popped.
  pop-copy_loop :
      (fuel : ℕ) (pre : List A) (x : A) (post : List A)
      → length post ≤ fuel
      → pop (copy_loop fuel (pre ++ (x ∷ post)) (length pre) (length pre + 1)) ≡ pre ++ post
  unfolding copy_loop
  pop-copy_loop zero pre x [] h = pop-append pre x ∙ sym (append-nil pre)
  pop-copy_loop zero pre x (y ∷ ys) h = absurd (omega arith)
  pop-copy_loop (suc fuel) pre x [] h =
      rw (ltb-at_end pre x) (pop-append pre x ∙ sym (append-nil pre))
  pop-copy_loop (suc fuel) pre x (y ∷ ys) h =
      rw (ltb-before_end pre x y ys, copy_item-append pre x y ys)
        (rw (length-snoc pre y, append-snoc pre y (y ∷ ys), append-snoc pre y ys) at
          (pop-copy_loop fuel (pre ++ (y ∷ [])) y ys (omega arith)))

  -- The helper `splice` takes out exactly the item at the index.
  splice-append :
      (pre : List A) (x : A) (post : List A) → splice (pre ++ (x ∷ post)) (length pre) ≡ pre ++ post
  unfolding splice
  splice-append [] x post = refl
  splice-append (z ∷ pre) x post =
      pop-copy_loop (length ((z ∷ pre) ++ (x ∷ post))) (z ∷ pre) x post
        (omega (arith, length-append pre (x ∷ post)))

module _ {ℓ κ} {A : Type ℓ} {K : Type κ} (compare : A → K → ℤ) (key : K) where
  -- On an array of at most 2^31 items that the comparator splits in order, `remove` ends: it
  -- returns true and leaves the array without one item that compares equal to the key, all others
  -- in place; or it returns false, leaves the array as it was, and no item compares equal.
  pub remove_correct :
      (items : List A)
      → IsOrdered compare key items
      → length items ≤ 2 ^ 31
      → ((pre : List A) × (x : A) × (post : List A) × (items ≡ pre ++ (x ∷ post))
          × (is_zero_ℤ (compare x key) ≡ true)
          × (remove compare items key ≡ some (true, pre ++ post)))
        ⊎ ((remove compare items key ≡ some (false, items))
            × ((i : ℕ) (x : A) → get_elem? items i ≡ some x → is_zero_ℤ (compare x key) ≡ false))
  unfolding remove
  remove_correct items ord small = elim (search_complete compare key items ord small) [
    | inr (e, none_equal) ↦ inr (rw (e, remove), none_equal)
    | inl (p, x, e, at_p, z) ↦
        let (pre, post, q, n) = get_elem?-split items p x at_p in
        inl (pre, x, post, q, z, rw (e, remove) (removed pre x post p q n))
  ]
    where
      removed :
          (pre : List A) (x : A) (post : List A) (p : ℕ)
          → items ≡ pre ++ (x ∷ post)
          → length pre ≡ p
          → ◌≡◌ {A = Option (Bool × List A)}
              (some (true, splice items p))
              (some (true, pre ++ post))
      removed pre x post p q n = rw (← n, q) (ap (λ t. some (true, t)) (splice-append pre x post))
