-- ===== src/Wallet/BranchAndBound.antt =====
-- lib/wallet/coinselector.js: `selectBnB`, the depth-first search for a selection without change. The
-- target is a number, as its documentation says.
pub mod Bounds
pub mod Greedy
use bcoin.Prelude.{
  ℕ, zero, suc, ◌+◌, ◌-◌, ℤ, pos, ◌+ℤ◌, ◌-ℤ◌, ltb_ℤ, leb_ℤ, is_zero_ℤ, Bool, true, false, not, ◌||◌,
  Option, none, some, List, [], ◌∷◌, ltb, ◌==◌, if◌then◌else◌, get_elem?,
}
use bcoin.Primitives.Tx.{max_money}
use bcoin.Wallet.CoinSelector.{CoinPointer, Options, get_waste, total_value}

-- The variables of the loop. A selection has the index last pushed first.
pub record Search : Type 0 where
  pub selected : List ℕ
  pub curr_value : ℤ
  pub remaining_value : ℤ
  pub index : ℕ
  pub best_waste : ℤ
  pub best_selection : List ℕ

-- What one round does: it goes on, it leaves the loop, or it throws a TypeError.
pub data Round : Type 0 where
  going : Search → Round
  leaving : Search → Round
  failing : Round

-- `while (--index > last)`: the index it stops at, with the value of what was omitted. At -1 the
-- next read of a pointer throws, which is `none`.
unfoldable pub restore : List CoinPointer → ℕ → ℕ → ℤ → Option (ℕ × ℤ)
restore pointers last zero remaining = none
restore pointers last (suc i) remaining = elim (ltb last i) [
  | false ↦ some (i, remaining)
  | true ↦ elim (get_elem? pointers i) [
    | none ↦ none
    | some p ↦ restore pointers last i (remaining +ℤ p.effective_value)
  ]
]

-- A selection that reaches the target is kept when its waste is not above the best one's.
unfoldable pub compare_best : Options → List CoinPointer → ℤ → Search → Option Search
unfolding get_waste
compare_best options pointers target s = elim (get_waste options pointers s.selected 0 target) [
  | none ↦ none
  | some waste ↦ some (
      if leb_ℤ waste s.best_waste
      then record s { best_waste = waste; best_selection = s.selected }
      else s)
]

-- The round's backtracking, and `index++`.
unfoldable pub backtrack : List CoinPointer → Search → Round
unfolding restore
backtrack pointers s = elim s.selected [
  | [] ↦ leaving s
  | last ∷ rest ↦ elim (restore pointers last s.index s.remaining_value) [
    | none ↦ failing
    | some (i, remaining) ↦ elim (get_elem? pointers i) [
      | none ↦ failing
      | some p ↦ going (record s {
        selected = rest;
        curr_value = s.curr_value -ℤ p.effective_value;
        remaining_value = remaining;
        index = i + 1;
      })
    ]
  ]
]

-- `index - 1 === selected[selected.length - 1]`.
abbrev pub follows : ℕ → List ℕ → Bool
follows index [] = true
follows index (last ∷ rest) = index == last + 1

-- Whether a pointer has a value other than the one before it; `none` is a read out of range.
abbrev pub differs : List CoinPointer → ℕ → CoinPointer → Option Bool
differs pointers zero p = none
differs pointers (suc i) p = elim (get_elem? pointers i) [
  | none ↦ none
  | some q ↦ some (not (is_zero_ℤ (p.effective_value -ℤ q.effective_value)))
]

-- Whether the pointer is to be included. The tests are made from left to right.
unfoldable pub includes : List CoinPointer → ℕ → List ℕ → CoinPointer → Option Bool
includes pointers index selected p =
    if follows index selected then some true else differs pointers index p

-- The round's step to the next pointer, and `index++`.
unfoldable pub advance : List CoinPointer → Search → Round
unfolding includes
advance pointers s = elim (get_elem? pointers s.index) [
  | none ↦ failing
  | some p ↦ elim (includes pointers s.index s.selected p) [
    | none ↦ failing
    | some false ↦
        going (record s {
          remaining_value = s.remaining_value -ℤ p.effective_value;
          index = s.index + 1;
        })
    | some true ↦ going (record s {
      selected = s.index ∷ s.selected;
      curr_value = s.curr_value +ℤ p.effective_value;
      remaining_value = s.remaining_value -ℤ p.effective_value;
      index = s.index + 1;
    })
  ]
]

abbrev pub compare_and_backtrack : Options → List CoinPointer → ℤ → Search → Round
compare_and_backtrack options pointers target s = elim (compare_best options pointers target s) [
  | none ↦ failing
  | some s' ↦ backtrack pointers s'
]

unfoldable pub round_of : Options → List CoinPointer → ℤ → ℕ → Search → Round
unfolding compare_best backtrack advance
round_of options pointers target cost_of_change s =
    if ltb_ℤ (s.curr_value +ℤ s.remaining_value) target
      || ltb_ℤ (target +ℤ pos cost_of_change) s.curr_value
    then backtrack pointers s
    else if leb_ℤ target s.curr_value
    then compare_and_backtrack options pointers target s
    else advance pointers s

-- The loop, with the tries that it has left.
unfoldable pub search_loop : ℕ → Options → List CoinPointer → ℤ → ℕ → Search → Option (List ℕ)
unfolding round_of
search_loop zero options pointers target cost_of_change s = some s.best_selection
search_loop (suc tries) options pointers target cost_of_change s =
    elim (round_of options pointers target cost_of_change s) [
      | failing ↦ none
      | leaving s' ↦ some s'.best_selection
      | going s' ↦ search_loop tries options pointers target cost_of_change s'
    ]

-- `funding_error` has the amounts of the error 'Not enough funds.'.
pub data Selection : Type 0 where
  funding_error : ℤ → ℤ → Selection
  type_error : Selection
  selection : List ℕ → Selection

abbrev pub selection_of : Option (List ℕ) → Selection
selection_of none = type_error
selection_of (some selected) = selection selected

abbrev pub initial : List CoinPointer → Search
initial pointers = record {
  selected = [];
  curr_value = pos 0;
  remaining_value = total_value pointers;
  index = 0;
  best_waste = max_money;
  best_selection = [];
}

abbrev pub tries : ℕ
tries = 100000

unfoldable pub select_bnb : Options → List CoinPointer → ℤ → ℕ → Selection
unfolding search_loop
select_bnb options pointers target cost_of_change =
    if ltb_ℤ (total_value pointers) target
    then funding_error (total_value pointers) target
    else selection_of (search_loop tries options pointers target cost_of_change (initial pointers))
