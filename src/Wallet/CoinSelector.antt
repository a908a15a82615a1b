-- ===== src/Wallet/CoinSelector.antt =====
-- lib/wallet/coinselector.js: the fees, the spendable coins and the three selections. The target is a
-- number, as the documentation of the selections says. A selection is a list of indices into the
-- coin pointers, the last pushed first.
pub mod Selected
pub mod LowestLarger
pub mod RandomDraw
use bcoin.Prelude.{
  ℕ, zero, suc, ◌+◌, ◌-◌, ◌*◌, ◌/◌, ℤ, pos, negsuc, ◌+ℤ◌, ◌-ℤ◌, ltb_ℤ, leb_ℤ, is_zero_ℤ, sub_ℕ,
  Bool, true, false, not, ◌&&◌, ◌||◌, Option, none, some, List, [], ◌∷◌, ltb, leb, ◌==◌,
  if◌then◌else◌, length, get_elem?,
}
use bcoin.Primitives.Tx.{max_money, coinbase_maturity}
use bcoin.Protocol.Policy.{get_min_fee, get_round_fee}

pub record CoinPointer : Type 0 where
  pub spending_size : ℕ
  pub effective_value : ℤ
  pub index : ℕ

-- What of a coin `isSpendable` reads; a height of -1 is that of an unconfirmed coin.
pub record Coin : Type 0 where
  pub coinbase : Bool
  pub height : ℤ

-- The options that the fees and `isSpendable` read; -1 stands for one that is not set.
pub record Options : Type 0 where
  pub height : ℤ
  pub depth : ℤ
  pub rate : ℕ
  pub round : Bool

abbrev pub coin : ℕ
coin = 100000000

abbrev pub max_fee : ℕ
max_fee = coin / 10

abbrev pub long_term_feerate : ℕ
long_term_feerate = 5

abbrev pub is_unset : ℤ → Bool
is_unset z = is_zero_ℤ (z +ℤ pos 1)

-- `Coin.getDepth`.
unfoldable pub get_depth : Coin → ℤ → ℤ
get_depth c height =
    if is_unset c.height
    then pos 0
    else if is_unset height
    then pos 0
    else if ltb_ℤ height c.height
    then pos 0
    else height -ℤ c.height +ℤ pos 1

-- The first argument is the answer of `this.tx.view.hasEntry(coin)`.
unfoldable pub is_spendable : Bool → Options → Coin → Bool
unfolding get_depth
is_spendable has_entry options c =
    if has_entry
    then false
    else if is_unset options.height
    then true
    else if c.coinbase
    then if is_unset c.height
      then false
      else not (ltb_ℤ (options.height +ℤ pos 1) (c.height +ℤ pos coinbase_maturity))
    else if is_unset options.depth
    then true
    else not (ltb_ℤ (get_depth c options.height) options.depth)

abbrev min : ℕ → ℕ → ℕ
min a b = if leb a b then a else b

unfoldable pub get_fee : Options → ℕ → ℕ
unfolding get_min_fee get_round_fee
get_fee options size =
    if options.round
    then min (get_round_fee size options.rate) max_fee
    else min (get_min_fee size options.rate) max_fee

-- The sum that `selectBnB` starts with.
abbrev pub total_value : List CoinPointer → ℤ
total_value [] = pos 0
total_value (p ∷ pointers) = p.effective_value +ℤ total_value pointers

-- `coin.value - this.getFee(spendingSize)`, as `init` computes it.
abbrev pub pointer_of : Options → ℕ → ℕ → ℕ → CoinPointer
pointer_of options value spending_size index = record {
  spending_size = spending_size;
  effective_value = pos value -ℤ pos (get_fee options spending_size);
  index = index;
}

-- The product of an integer and a number.
abbrev pub scale : ℤ → ℕ → ℤ
scale (pos n) k = pos (n * k)
scale (negsuc n) k = pos 0 -ℤ pos (suc n * k)

-- The sums of the loop in `getWaste`; `none` is the read of a pointer that is not there.
unfoldable pub waste_loop : ℤ → List CoinPointer → List ℕ → ℤ → ℤ → Option (ℤ × ℤ)
waste_loop rate pointers [] waste amount = some (waste, amount)
waste_loop rate pointers (i ∷ selected) waste amount = elim (get_elem? pointers i) [
  | none ↦ none
  | some p ↦
      waste_loop rate pointers selected (waste +ℤ scale rate p.spending_size)
        (amount +ℤ p.effective_value)
]

unfoldable pub get_waste : Options → List CoinPointer → List ℕ → ℕ → ℤ → Option ℤ
unfolding waste_loop get_fee
get_waste options pointers selected cost_of_change target =
    let rate = pos (get_fee options 1) -ℤ pos long_term_feerate in
    elim (waste_loop rate pointers selected (pos 0) (pos 0)) [
      | none ↦ none
      | some (waste, amount) ↦
          if ltb 0 cost_of_change
          then some (waste +ℤ pos cost_of_change)
          else some (waste +ℤ (amount -ℤ target))
    ]

-- The loop of `selectSRD` along the shuffled indices.
unfoldable pub srd_loop : List CoinPointer → ℤ → List ℕ → ℤ → List ℕ → Option (List ℕ)
srd_loop pointers target selected value [] = some []
srd_loop pointers target selected value (i ∷ arr) = elim (get_elem? pointers i) [
  | none ↦ none
  | some p ↦ elim (leb_ℤ target (value +ℤ p.effective_value)) [
    | true ↦ some (i ∷ selected)
    | false ↦ srd_loop pointers target (i ∷ selected) (value +ℤ p.effective_value) arr
  ]
]

-- `arr` is the array of indices as the random sort leaves it.
unfoldable pub select_srd : List CoinPointer → List ℕ → ℤ → Option (List ℕ)
unfolding srd_loop
select_srd pointers arr target = srd_loop pointers target [] (pos 0) arr

-- The loop of `findLowestLarger`. Its variable `j` may be -1: the model's `stop` is `j + 1`. `none`
-- is a read out of range, or that the fuel ran out.
unfoldable pub larger_loop : ℕ → List CoinPointer → ℤ → ℕ → ℕ → ℕ → Option ℕ
larger_loop zero pointers target i stop found = none
larger_loop (suc fuel) pointers target i stop found =
    let mid = (i + stop - 1) / 2 in
    elim (ltb i stop) [
      | false ↦ some found
      | true ↦ elim (get_elem? pointers mid) [
        | none ↦ none
        | some p ↦ elim (leb_ℤ target p.effective_value) [
          | true ↦ larger_loop fuel pointers target (mid + 1) stop mid
          | false ↦ larger_loop fuel pointers target i mid found
        ]
      ]
    ]

unfoldable pub find_lowest_larger : List CoinPointer → ℤ → ℕ → Option ℕ
unfolding larger_loop
find_lowest_larger pointers target index =
    larger_loop (length pointers + 1) pointers target index (length pointers) 0

-- The loop of `selectLowestLarger` along the pointers from `index` on: where it ends, what is left
-- of the target, and the selection.
unfoldable pub largest_loop : List CoinPointer → ℕ → ℤ → List ℕ → ℕ × ℤ × List ℕ
largest_loop [] index target selected = (index, target, selected)
largest_loop (p ∷ pointers) index target selected = elim (leb_ℤ p.effective_value target) [
  | true ↦ largest_loop pointers (index + 1) (target -ℤ p.effective_value) (index ∷ selected)
  | false ↦ (index, target, selected)
]

-- `target > 0 ? [] : selected`.
abbrev pub if_met : ℤ → List ℕ → List ℕ
if_met target selected = if ltb_ℤ (pos 0) target then [] else selected

unfoldable pub select_rest : List CoinPointer → ℕ × ℤ × List ℕ → Option (List ℕ)
unfolding find_lowest_larger
select_rest pointers (index, target, selected) =
    if ltb_ℤ (pos 0) target && not (index == length pointers)
    then elim (find_lowest_larger pointers target index) [
      | none ↦ none
      | some i ↦ elim (get_elem? pointers i) [
        | none ↦ none
        | some p ↦ some (if_met (target -ℤ p.effective_value) (i ∷ selected))
      ]
    ]
    else some (if_met target selected)

-- `none` is a TypeError, as at the first read where there are no pointers.
unfoldable pub select_lowest_larger : List CoinPointer → ℤ → Option (List ℕ)
unfolding largest_loop select_rest
select_lowest_larger pointers target = elim pointers [
  | [] ↦ none
  | p ∷ rest ↦ select_rest (p ∷ rest) (largest_loop (p ∷ rest) 0 target [])
]
