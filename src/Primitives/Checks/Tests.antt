-- ===== src/Primitives/Checks/Tests.antt =====
-- A transaction that spends two coins of a view, and the theorems of its checks there.
use bcoin.Prelude.{
  ℕ, ◌+◌, ◌≡◌, ◌⊎◌, ◌↔◌, ◌<◌, ◌≤◌, inl, inr, refl, pos, ◌≤ℤ◌, ◌-ℤ◌, ◌+ℤ◌, Bool, true, false, none,
  some, [], ◌∷◌, arith,
}
use bcoin.Utils.BufferMap.Pairs.{pairs_of, pairs_of-IsMap}
use bcoin.Coins.{CoinEntry, Output, Coins}
use bcoin.Coins.View.{View, get_entry}
use bcoin.Primitives.Tx.{Input, Tx, is_final, verify_locktime, locktime_threshold, max_money}
use bcoin.Primitives.Tx.Locktime.{verify_locktime-is_final}
use bcoin.Primitives.Checks.{
  check_sanity, check_inputs, output_value, check_rest, check_outputs, check_duplicates,
  inputs_duplicate, premature_spend, sum_inputs,
}
use bcoin.Primitives.Checks.Sanity.{IsSane, check_sanity_lem}
use bcoin.Primitives.Checks.Inputs.{Ripe, input_total, check_inputs_lem}

abbrev out : ℕ → Output
out n = record { value = pos n; script = [] }

abbrev in_of : ℕ → ℕ → Input
in_of hash index = record {
  prevout = record { hash = hash; index = index };
  script = [];
  sequence = 5;
}

abbrev tx : Tx
tx = record {
  version = 2;
  inputs = in_of 7 0 ∷ in_of 7 1 ∷ [];
  outputs = out 60 ∷ out 30 ∷ [];
  locktime = 100;
  type = 0;
  extra_payload = none;
  size = 250;
}

abbrev coin : Bool → CoinEntry
coin coinbase = record {
  version = 1;
  height = pos 5;
  coinbase = coinbase;
  output = out 50;
  spent = false;
}

abbrev view : View (pairs_of Coins)
view = record {
  map = (7, (0, 0) ∷ (1, 1) ∷ []) ∷ [];
  undo = [];
  heap = coin false ∷ coin true ∷ [];
}

check_sanity_lem_example : (check_sanity (pairs_of (Unit {0})) tx ≡ some none) ↔ IsSane tx
check_sanity_lem_example =
    check_sanity_lem (pairs_of (Unit {0})) (pairs_of-IsMap (Unit {0})) tx (omega arith) (λ e. cc e)

check_inputs_lem_example : (check_inputs (pairs_of Coins) view (pos 200) tx ≡ inr (pos 10)) ↔ (
    Ripe (pairs_of Coins) view (pos 200) tx.inputs
    × (input_total (pairs_of Coins) view (pos 200) tx.inputs ≤ℤ max_money)
    × (output_value tx.outputs ≤ℤ input_total (pairs_of Coins) view (pos 200) tx.inputs)
    × (pos 10 ≡ input_total (pairs_of Coins) view (pos 200) tx.inputs -ℤ output_value tx.outputs))
check_inputs_lem_example =
    check_inputs_lem (pairs_of Coins) view (pos 200) tx (pos 10) (omega arith)

-- Two inputs of one output, and a coinbase that is too young.
double_spend :
    check_sanity (pairs_of (Unit {0})) (record tx { inputs = in_of 7 0 ∷ in_of 7 0 ∷ [] })
    ≡ some (some (inputs_duplicate, 100))
unfolding check_sanity check_rest check_outputs check_duplicates ◌+ℤ◌
double_spend = refl

young_coinbase : check_inputs (pairs_of Coins) view (pos 104) tx ≡ inl (premature_spend, 0)
unfolding check_inputs sum_inputs get_entry ◌+ℤ◌ ◌-ℤ◌
young_coinbase = refl

lock_accepted : verify_locktime 0 90 tx ≡ some true
unfolding verify_locktime
lock_accepted = refl

tx_final : is_final (pos 101) (pos 0) tx ≡ true
unfolding is_final
tx_final = refl

verify_locktime-is_final_example :
    (◌≡◌ {A = ℕ} 90 0)
    ⊎ (((90 < locktime_threshold) × (pos (90 + 1) ≤ℤ pos 101))
        ⊎ ((locktime_threshold ≤ 90) × (pos (90 + 1) ≤ℤ pos 0)))
verify_locktime-is_final_example =
    verify_locktime-is_final (pos 101) (pos 0) 0 90 tx lock_accepted tx_final
