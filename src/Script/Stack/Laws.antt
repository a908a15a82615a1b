-- ===== src/Script/Stack/Laws.antt =====
-- The array operations of lib/script/stack.js on a stack that is listed from its top: a negative
-- index is then a distance from the top.
use bcoin.Prelude.{
  ℕ, zero, suc, ◌+◌, ◌-◌, ◌≤◌, ◌<◌, ◌≡◌, refl, sym, ap, ◌∙◌, pos, negsuc, pos_part, ◌-ℤ◌, none,
  some, List, [], ◌∷◌, ◌++◌, arith, length, length-append, length-set, get_elem?, set as set_elem,
  take, drop,
}
use bcoin.Script.Types.{Bytes, ok}
use bcoin.Script.Stack.{
  Items, position, end_position, from_end, get, push, pop, remove, insert, erase, swap,
}
use mathlib.Core.List.{append-nil, append_assoc}
use native.Mathlib.Decide.{dec_lt}

-- The stack whose items from the top are those of the list.
abbrev pub from_top : Items → Items
from_top [] = []
from_top (x ∷ r) = from_top r ++ (x ∷ [])

pub length-from_top : (r : Items) → length (from_top r) ≡ length r
length-from_top [] = refl
length-from_top (x ∷ r) = omega (arith, length-append (from_top r) (x ∷ []), length-from_top r)

pub from_top-append : (a b : Items) → from_top (a ++ b) ≡ from_top b ++ from_top a
from_top-append [] b = sym (append-nil (from_top b))
from_top-append (x ∷ a) b =
    ap (λ t. t ++ (x ∷ [])) (from_top-append a b) ∙ append_assoc (from_top b) (from_top a) (x ∷ [])

module _ {ℓ} {A : Type ℓ} where
  get_elem?-append_left :
      (xs ys : List A) (i : ℕ) → i < length xs → get_elem? (xs ++ ys) i ≡ get_elem? xs i
  get_elem?-append_left [] ys i h = absurd (omega arith)
  get_elem?-append_left (x ∷ xs) ys zero h = refl
  get_elem?-append_left (x ∷ xs) ys (suc i) h = get_elem?-append_left xs ys i (omega arith)

  get_elem?-append_at : (xs : List A) (y : A) → get_elem? (xs ++ (y ∷ [])) (length xs) ≡ some y
  get_elem?-append_at [] y = refl
  get_elem?-append_at (x ∷ xs) y = get_elem?-append_at xs y

  set_elem-append_left :
      (xs ys : List A) (i : ℕ) (v : A)
      → i < length xs
      → set_elem (xs ++ ys) i v ≡ set_elem xs i v ++ ys
  set_elem-append_left [] ys i v h = absurd (omega arith)
  set_elem-append_left (x ∷ xs) ys zero v h = refl
  set_elem-append_left (x ∷ xs) ys (suc i) v h =
      ap (λ t. x ∷ t) (set_elem-append_left xs ys i v (omega arith))

  set_elem-append_at :
      (xs : List A) (y v : A) → set_elem (xs ++ (y ∷ [])) (length xs) v ≡ xs ++ (v ∷ [])
  set_elem-append_at [] y v = refl
  set_elem-append_at (x ∷ xs) y v = ap (λ t. x ∷ t) (set_elem-append_at xs y v)

  take-append_left : (xs ys : List A) (n : ℕ) → n ≤ length xs → take n (xs ++ ys) ≡ take n xs
  take-append_left xs ys zero h = refl
  take-append_left [] ys (suc n) h = absurd (omega arith)
  take-append_left (x ∷ xs) ys (suc n) h = ap (λ t. x ∷ t) (take-append_left xs ys n (omega arith))

  drop-append_left : (xs ys : List A) (n : ℕ) → n ≤ length xs → drop n (xs ++ ys) ≡ drop n xs ++ ys
  drop-append_left xs ys zero h = refl
  drop-append_left [] ys (suc n) h = absurd (omega arith)
  drop-append_left (x ∷ xs) ys (suc n) h = drop-append_left xs ys n (omega arith)

  take-all : (xs : List A) (n : ℕ) → length xs ≤ n → take n xs ≡ xs
  take-all [] zero h = refl
  take-all [] (suc n) h = refl
  take-all (x ∷ xs) zero h = absurd (omega arith)
  take-all (x ∷ xs) (suc n) h = ap (λ t. x ∷ t) (take-all xs n (omega arith))

  drop-all : (xs : List A) (n : ℕ) → length xs ≤ n → drop n xs ≡ []
  drop-all [] zero h = refl
  drop-all [] (suc n) h = refl
  drop-all (x ∷ xs) zero h = absurd (omega arith)
  drop-all (x ∷ xs) (suc n) h = drop-all xs n (omega arith)

-- The place `k` below the top.
abbrev below : Items → ℕ → ℕ
below r k = length (from_top r) - suc k

at_top : (r : Items) (x : Bytes) → below (x ∷ r) 0 ≡ length (from_top r)
at_top r x = omega (arith, length-append (from_top r) (x ∷ []))

under_top : (r : Items) (x : Bytes) (k : ℕ) → below (x ∷ r) (suc k) ≡ below r k
under_top r x k = omega (arith, length-append (from_top r) (x ∷ []))

in_range : (r : Items) (k : ℕ) → k < length r → below r k < length (from_top r)
in_range r k h = omega (arith, length-from_top r)

get_elem?-from_top :
    (r : Items) (k : ℕ) → k < length r → get_elem? (from_top r) (below r k) ≡ get_elem? r k
get_elem?-from_top [] k h = absurd (omega arith)
get_elem?-from_top (x ∷ r) zero h = rw (at_top r x) (get_elem?-append_at (from_top r) x)
get_elem?-from_top (x ∷ r) (suc k) h = rw (under_top r x k) (
    get_elem?-append_left (from_top r) (x ∷ []) (below r k) (in_range r k (omega arith))
    ∙ get_elem?-from_top r k (omega arith))

set_elem-from_top :
    (r : Items) (k : ℕ) (v : Bytes)
    → k < length r
    → set_elem (from_top r) (below r k) v ≡ from_top (set_elem r k v)
set_elem-from_top [] k v h = absurd (omega arith)
set_elem-from_top (x ∷ r) zero v h = rw (at_top r x) (set_elem-append_at (from_top r) x v)
set_elem-from_top (x ∷ r) (suc k) v h = rw (under_top r x k) (
    set_elem-append_left (from_top r) (x ∷ []) (below r k) v (in_range r k (omega arith))
    ∙ ap (λ t. t ++ (x ∷ [])) (set_elem-from_top r k v (omega arith)))

-- `n` is the length of the stack less `k`.
take-from_top : (r : Items) (k n : ℕ) → n + k ≡ length r → take n (from_top r) ≡ from_top (drop k r)
take-from_top r zero n e = take-all (from_top r) n (omega (arith, length-from_top r))
take-from_top [] (suc k) n e = absurd (omega arith)
take-from_top (x ∷ r) (suc k) n e =
    take-append_left (from_top r) (x ∷ []) n (omega (arith, length-from_top r))
    ∙ take-from_top r k n (omega arith)

drop-from_top : (r : Items) (k n : ℕ) → n + k ≡ length r → drop n (from_top r) ≡ from_top (take k r)
drop-from_top r zero n e = drop-all (from_top r) n (omega (arith, length-from_top r))
drop-from_top [] (suc k) n e = absurd (omega arith)
drop-from_top (x ∷ r) (suc k) n e =
    drop-append_left (from_top r) (x ∷ []) n (omega (arith, length-from_top r))
    ∙ ap (λ t. t ++ (x ∷ [])) (drop-from_top r k n (omega arith))

position-from_top :
    (r : Items) (k : ℕ) → k < length r → position (negsuc k) (from_top r) ≡ some (below r k)
position-from_top r k h = ground (arith, length-from_top r)

end_position-from_top :
    (r : Items) (k : ℕ) → k < length r → end_position (negsuc k) (from_top r) ≡ some (below r k)
end_position-from_top r k h = ground (arith, length-from_top r)

position-past : (r : Items) (k : ℕ) → length r ≤ k → position (negsuc k) (from_top r) ≡ none
position-past r k h = ground (arith, length-from_top r)

get_elem?-none {ℓ} : {A : Type ℓ} (r : List A) (k : ℕ) → length r ≤ k → get_elem? r k ≡ none
get_elem?-none [] k h = refl
get_elem?-none (x ∷ r) zero h = absurd (omega arith)
get_elem?-none (x ∷ r) (suc k) h = get_elem?-none r k (omega arith)

get_elem?-some {ℓ} :
    {A : Type ℓ} (r : List A) (k : ℕ) {x : A} → get_elem? r k ≡ some x → k < length r
get_elem?-some r k e = elim (dec_lt k (length r)) [
  | yes h ↦ h
  | no h ↦ cc (get_elem?-none r k (omega arith))
]

-- `get` at a negative index is the item at that distance from the top, or null.
pub get-from_top : (r : Items) (k : ℕ) → get (negsuc k) (from_top r) ≡ get_elem? r k
unfolding get
get-from_top r k = elim (dec_lt k (length r)) [
  | yes h ↦ rw (get, position-from_top r k h) (get_elem?-from_top r k h)
  | no h ↦ rw (get, position-past r k (omega arith)) (sym (get_elem?-none r k (omega arith)))
]

pub push-from_top : (x : Bytes) (r : Items) → push x (from_top r) ≡ from_top (x ∷ r)
unfolding push
push-from_top x r = refl

pub pop-from_top : (x : Bytes) (r : Items) → pop (from_top (x ∷ r)) ≡ (some x, from_top r)
unfolding pop
pop-from_top x r = rw (
  at_top r x,
  get_elem?-append_at (from_top r) x,
  take-append_left (from_top r) (x ∷ []) (length (from_top r)) (omega arith),
  take-all (from_top r) (length (from_top r)) (omega arith),
)

pub remove-from_top :
    (r : Items) (k : ℕ)
    → k < length r
    → remove (negsuc k) (from_top r) ≡ (get_elem? r k, from_top (take k r ++ drop (suc k) r))
unfolding remove
remove-from_top r k h = rw (
  remove,
  position-from_top r k h,
  get_elem?-from_top r k h,
  take-from_top r (suc k) (below r k) (omega (arith, length-from_top r)),
  drop-from_top r k (suc (below r k)) (omega (arith, length-from_top r)),
  from_top-append (take k r) (drop (suc k) r),
)

pub swap-from_top :
    (r : Items) (i j : ℕ) (x y : Bytes)
    → get_elem? r i ≡ some x
    → get_elem? r j ≡ some y
    → swap (negsuc i) (negsuc j) (from_top r) ≡ some (from_top (set_elem (set_elem r i y) j x))
unfolding swap
swap-from_top r i j x y ex ey =
    rw
      (
        swap,
        position-from_top r i hi,
        position-from_top r j hj,
        get_elem?-from_top r i hi,
        ex,
        get_elem?-from_top r j hj,
        ey,
      )
      (ap some (
        ap (λ t. set_elem t (below r j) x) (set_elem-from_top r i y hi)
        ∙ ap (λ t. set_elem (from_top (set_elem r i y)) t x) same
        ∙ set_elem-from_top (set_elem r i y) j x (omega (arith, hj, length-set r i y))))
  where
    hi : i < length r
    hi = get_elem?-some r i ex

    hj : j < length r
    hj = get_elem?-some r j ey

    same : below r j ≡ below (set_elem r i y) j
    same = omega (arith, length-from_top r, length-from_top (set_elem r i y), length-set r i y)

pub insert-from_top :
    (r : Items) (k : ℕ) (v : Bytes)
    → k < length r
    → insert (negsuc k) v (from_top r) ≡ ok (from_top (take (suc k) r ++ (v ∷ drop (suc k) r)))
unfolding insert
insert-from_top r k v h =
    rw
      (
        insert,
        end_position-from_top r k h,
        take-from_top r (suc k) (below r k) (omega (arith, length-from_top r)),
        drop-from_top r (suc k) (below r k) (omega (arith, length-from_top r)),
        from_top-append (take (suc k) r) (v ∷ drop (suc k) r),
      )
      (ap ok (sym (append_assoc (from_top (drop (suc k) r)) (v ∷ []) (from_top (take (suc k) r)))))

from_end-from_top :
    (r : Items) (k : ℕ) → k < length r → from_end (negsuc k) (from_top r) ≡ pos (below r k)
unfolding ◌-ℤ◌
from_end-from_top r k h = ground (arith, length-from_top r)

erased_end :
    (r : Items) (i j : ℕ)
    → i < length r
    → j ≤ i
    → below r i + pos_part (pos (below r j) -ℤ pos (below r i)) ≡ below r j
unfolding ◌-ℤ◌
erased_end r i j h k = ground (arith, length-from_top r)

-- `erase` of the items below the top from one distance up to another.
pub erase-from_top :
    (r : Items) (i j : ℕ)
    → i < length r
    → j ≤ i
    → erase (negsuc i) (negsuc j) (from_top r) ≡ from_top (take (suc j) r ++ drop (suc i) r)
unfolding erase
erase-from_top r i j h k = rw (
  erase,
  from_end-from_top r i h,
  from_end-from_top r j (omega arith),
  erased_end r i j h k,
  take-from_top r (suc i) (below r i) (omega (arith, length-from_top r)),
  drop-from_top r (suc j) (below r j) (omega (arith, length-from_top r)),
  from_top-append (take (suc j) r) (drop (suc i) r),
)
