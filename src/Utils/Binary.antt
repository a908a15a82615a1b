-- ===== src/Utils/Binary.antt =====
-- lib/utils/binary.js: search, insert and remove on a sorted array. A JavaScript array is a list,
-- and the comparator's number is an integer, of which only the sign is read.
pub mod Search
pub mod Insert
pub mod Remove
mod Tests
use bcoin.Prelude.{
  ℕ, zero, suc, ◌+◌, ◌-◌, ◌/◌, ◌%◌, ◌^◌, ℤ, pos, negsuc, is_neg_ℤ, is_zero_ℤ, Bool, true, false,
  ◌&&◌, Option, none, some, List, [], ◌∷◌, ◌++◌, ltb, ◌==◌, if◌then◌else◌, length, get_elem?, set,
  take, drop,
}

-- How the loop of `search` ends: at an index that compares equal, or with the value of `start`.
-- `stuck` is no value of the program: the fuel ran out, or an index was out of range.
pub data Probe : Type 0 where
  found : ℕ → Probe
  gap : ℕ → Probe
  stuck : Probe

module _ {ℓ κ} {A : Type ℓ} {K : Type κ} (compare : A → K → ℤ) where
  -- The loop's variable `end` may be -1: the model's `stop` is `end + 1`. `>>>` wraps to 32 bits.
  unfoldable pub search_loop : ℕ → List A → K → ℕ → ℕ → Probe
  search_loop zero items key start stop = stuck
  search_loop (suc fuel) items key start stop =
      let mid = (start + stop - 1) % 2 ^ 32 / 2 in
      let right = search_loop fuel items key (mid + 1) stop in
      let left = search_loop fuel items key start mid in
      if ltb start stop
      then elim (get_elem? items mid) [
        | none ↦ stuck
        | some x ↦
            let cmp = compare x key in
            if is_zero_ℤ cmp then found mid else if is_neg_ℤ cmp then right else left
      ]
      else gap start

  abbrev pub probe : List A → K → Probe
  probe items key = search_loop (length items + 1) items key 0 (length items)

-- What `search` returns after the loop: an index, or -1.
abbrev pub probe_result : Bool → Probe → Option ℤ
probe_result ins (found p) = some (pos p)
probe_result ins (gap s) = some (if ins then pos s else negsuc 0)
probe_result ins stuck = none

module _ {ℓ κ} {A : Type ℓ} {K : Type κ} (compare : A → K → ℤ) where
  unfoldable pub search : List A → K → Bool → Option ℤ
  search items key ins = probe_result ins (probe compare items key)

-- `Array.prototype.splice(i, 0, item)`.
abbrev pub splice_in {ℓ} : {A : Type ℓ} → List A → ℕ → A → List A
splice_in items i item = take i items ++ (item ∷ drop i items)

-- `if (uniq && i < items.length) { if (compare(items[i], item) === 0) ... }`
abbrev pub is_duplicate {ℓ} : {A : Type ℓ} → (A → A → ℤ) → List A → ℕ → A → Bool → Bool
is_duplicate compare items i item uniq =
    uniq && elim (get_elem? items i) [ none ↦ false | some x ↦ is_zero_ℤ (compare x item) ]

-- The index, or -1, with the array as it is left. `unshift` is a splice at 0, and `push` one at
-- the end.
unfoldable pub insert_at {ℓ} :
    {A : Type ℓ} → (A → A → ℤ) → List A → A → Bool → ℤ → Option (ℤ × List A)
insert_at compare items item uniq (negsuc n) = none
insert_at compare items item uniq (pos i) =
    if is_duplicate compare items i item uniq
    then some (negsuc 0, items)
    else if i == 0
    then some (pos i, item ∷ items)
    else if i == length items
    then some (pos i, items ++ (item ∷ []))
    else some (pos i, splice_in items i item)

unfoldable pub insert {ℓ} : {A : Type ℓ} → (A → A → ℤ) → List A → A → Bool → Option (ℤ × List A)
unfolding insert_at
insert compare items item uniq = elim (search compare items item true) [
  | none ↦ none
  | some i ↦ insert_at compare items item uniq i
]

-- `list[i] = list[k]`.
abbrev pub copy_item {ℓ} : {A : Type ℓ} → List A → ℕ → ℕ → List A
copy_item list i k = elim (get_elem? list k) [ none ↦ list | some x ↦ set list i x ]

-- `while (k < list.length) list[i++] = list[k++]`.
pub copy_loop {ℓ} : {A : Type ℓ} → ℕ → List A → ℕ → ℕ → List A
copy_loop zero list i k = list
copy_loop (suc fuel) list i k =
    let next = copy_loop fuel (copy_item list i k) (i + 1) (k + 1) in
    if ltb k (length list) then next else list

-- `list.pop()` and `list.shift()`.
abbrev pub pop {ℓ} : {A : Type ℓ} → List A → List A
pop [] = []
pop (x ∷ []) = []
pop (x ∷ y ∷ ys) = x ∷ pop (y ∷ ys)

abbrev pub shift {ℓ} : {A : Type ℓ} → List A → List A
shift [] = []
shift (x ∷ xs) = xs

-- The helper `splice`. The loop makes less than `list.length` rounds.
pub splice {ℓ} : {A : Type ℓ} → List A → ℕ → List A
unfolding copy_loop
splice list zero = shift list
splice list (suc i) = pop (copy_loop (length list) list (suc i) (suc i + 1))

pub remove {ℓ κ} : {A : Type ℓ} {K : Type κ} → (A → K → ℤ) → List A → K → Option (Bool × List A)
unfolding splice
remove compare items item = elim (search compare items item false) [
  | none ↦ none
  | some (negsuc n) ↦ some (false, items)
  | some (pos i) ↦ some (true, splice items i)
]
