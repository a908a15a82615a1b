-- ===== src/Coins.antt =====
-- lib/coins/coins.js: the outputs of one transaction, and the class CoinEntry of
-- lib/coins/coinentry.js. Entries are shared objects: they lie on a heap, and what a collection
-- holds is their place there. The cached serialization of an entry is left out.
pub mod View
pub mod Compress
use bcoin.Prelude.{
  ℕ, zero, suc, ℤ, Bool, true, false, not, Option, none, some, List, [], ◌∷◌, ◌++◌, ◌==◌,
  if◌then◌else◌, length, get_elem?, set,
}
use bcoin.Script.Types.{Bytes}

pub record Output : Type 0 where
  pub value : ℤ
  pub script : Bytes

pub record CoinEntry : Type 0 where
  pub version : ℕ
  pub height : ℤ
  pub coinbase : Bool
  pub output : Output
  pub spent : Bool

abbrev pub Heap : Type 0
Heap = List CoinEntry

-- `coin.spent`, of the coin at a place of the heap.
abbrev pub is_spent : Heap → ℕ → Bool
is_spent [] ref = false
is_spent (coin ∷ heap) zero = coin.spent
is_spent (coin ∷ heap) (suc ref) = is_spent heap ref

-- `coin.spent = true`.
abbrev pub mark : Heap → ℕ → Heap
mark [] ref = []
mark (coin ∷ heap) zero = record coin { spent = true } ∷ heap
mark (coin ∷ heap) (suc ref) = coin ∷ mark heap ref

-- The Map of a Coins object, in its order.
abbrev pub Coins : Type 0
Coins = List (ℕ × ℕ)

-- `outputs.get` and `outputs.set`, which is `add`.
abbrev pub find : ℕ → Coins → Option ℕ
find index [] = none
find index ((i, ref) ∷ outputs) = if i == index then some ref else find index outputs

abbrev pub add : ℕ → ℕ → Coins → Coins
add index ref [] = (index, ref) ∷ []
add index ref ((i, old) ∷ outputs) =
    if i == index then (i, ref) ∷ outputs else (i, old) ∷ add index ref outputs

-- `outputs.delete`.
abbrev delete : ℕ → Coins → Coins
delete index [] = []
delete index ((i, ref) ∷ outputs) = if i == index then outputs else (i, ref) ∷ delete index outputs

abbrev pub has : ℕ → Coins → Bool
has index outputs = elim (find index outputs) [ none ↦ false | some ref ↦ true ]

unfoldable pub is_unspent : Heap → ℕ → Coins → Bool
is_unspent heap index outputs = elim (find index outputs) [
  | none ↦ false
  | some ref ↦ not (is_spent heap ref)
]

-- The entry with the heap as it is left.
unfoldable pub spend : Heap → ℕ → Coins → Option (ℕ × Heap)
spend heap index outputs = elim (find index outputs) [
  | none ↦ none
  | some ref ↦ if is_spent heap ref then none else some (ref, mark heap ref)
]

unfoldable pub remove : ℕ → Coins → Option ℕ × Coins
remove index outputs = elim (find index outputs) [
  | none ↦ (none, outputs)
  | some ref ↦ (some ref, delete index outputs)
]

abbrev pub is_empty : Coins → Bool
is_empty outputs = length outputs == 0
