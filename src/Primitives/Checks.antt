-- ===== src/Primitives/Checks.antt =====
-- lib/primitives/tx.js: `checkSanity`, what a transaction shows by itself, and `checkInputs`, what the
-- coins that it spends allow.
pub mod Outputs
pub mod Distinct
pub mod Sanity
pub mod Inputs
mod Tests
use bcoin.Prelude.{
  ℕ, ◌+◌, ◌*◌, ◌%◌, ◌^◌, ℤ, pos, negsuc, ◌+ℤ◌, ◌-ℤ◌, is_neg_ℤ, ltb_ℤ, leb_ℤ, Bool, true, false, not,
  ◌&&◌, ◌||◌, Option, none, some, ◌⊎◌, inl, inr, List, [], ◌∷◌, ltb, leb, ◌==◌, if◌then◌else◌,
  length, get_elem?, bit_and,
}
use bcoin.Script.Types.{Bytes}
use bcoin.Utils.BufferMap.{BufferMap}
use bcoin.Coins.{CoinEntry, Output, Heap, Coins}
use bcoin.Coins.View.{Outpoint, View, get_entry}
use bcoin.Primitives.Tx.{
  Input, Tx, max_money, coinbase_maturity, max_block_size, max_tx_extra_payload,
  transaction_coinbase, money_range, is_null, to_key, is_coinbase, is_quorum_commitment, is_special,
}

-- The reasons that the checks give.
pub data Reason : Type 0 where
  vin_empty vout_empty oversize payload_oversize vout_negative vout_toolarge : Reason
  txouttotal_toolarge inputs_duplicate cb_length prevout_null : Reason
  missing_or_spent premature_spend inputvalues_outofrange in_belowout fee_outofrange : Reason
  fee_too_low : Reason

-- `none` is the answer 'valid'; else the reason and the score.
abbrev pub Verdict : Type 0
Verdict = Option (Reason × ℕ)

pub check_outputs : ℤ → List Output → Verdict
check_outputs total [] = none
check_outputs total (output ∷ outputs) =
    let total' = total +ℤ output.value in
    if is_neg_ℤ output.value
    then some (vout_negative, 100)
    else if not (money_range output.value)
    then some (vout_toolarge, 100)
    else if not (money_range total')
    then some (txouttotal_toolarge, 100)
    else check_outputs total' outputs

-- The set of keys is a map to a value that says nothing.
pub check_duplicates : (keys : BufferMap (Unit {0})) → keys.Map → List Input → Verdict
check_duplicates keys seen [] = none
check_duplicates keys seen (input ∷ inputs) =
    let rest = check_duplicates keys (keys.put (to_key input.prevout) tt seen) inputs in
    elim (keys.get (to_key input.prevout) seen) [
      | none ↦ rest
      | some u ↦ some (inputs_duplicate, 100)
    ]

pub check_null : List Input → Verdict
check_null [] = none
check_null (input ∷ inputs) =
    if is_null input.prevout then some (prevout_null, 10) else check_null inputs

pub check_coinbase : Tx → List Input → Verdict
check_coinbase tx [] = none
check_coinbase tx (input ∷ inputs) =
    let size = length input.script in
    let min_size = if tx.type == transaction_coinbase then 1 else 2 in
    if ltb size min_size || ltb 100 size then some (cb_length, 100) else none

-- The first verdict that is not 'valid'.
infixr 20 ◌then_check◌
abbrev pub ◌then_check◌ : Verdict → Verdict → Verdict
none then_check v = v
(some r) then_check v = some r

-- The answer of `checkSanity`; an outer `none` is the failed assertion that a special transaction
-- has a payload.
unfoldable pub check_rest : (keys : BufferMap (Unit {0})) → Tx → Verdict
unfolding check_outputs check_duplicates check_null check_coinbase
check_rest keys tx =
    check_outputs (pos 0) tx.outputs
    then_check (check_duplicates keys keys.empty tx.inputs
        then_check (if is_coinbase tx then check_coinbase tx tx.inputs else check_null tx.inputs))

unfoldable pub check_sanity : (keys : BufferMap (Unit {0})) → Tx → Option Verdict
unfolding check_rest
check_sanity keys tx =
    if not (is_quorum_commitment tx) && length tx.inputs == 0
    then some (some (vin_empty, 100))
    else if not (is_quorum_commitment tx) && length tx.outputs == 0
    then some (some (vout_empty, 100))
    else if ltb max_block_size tx.size
    then some (some (oversize, 100))
    else if is_special tx
    then elim tx.extra_payload [
      | none ↦ none
      | some n ↦
          if ltb max_tx_extra_payload n
          then some (some (payload_oversize, 100))
          else some (check_rest keys tx)
    ]
    else some (check_rest keys tx)

-- `getOutputValue`.
abbrev pub output_value : List Output → ℤ
output_value [] = pos 0
output_value (output ∷ outputs) = output.value +ℤ output_value outputs

-- The entry at a place of the heap, and the amount that its output holds.
abbrev pub entry_at : Heap → Option ℕ → Option CoinEntry
entry_at heap none = none
entry_at heap (some ref) = get_elem? heap ref

-- The loop of `checkInputs`: the total, or the reason and the score. A coin entry has no field
-- `type`, so `validateFutureCoin` returns at once.
pub sum_inputs : (maps : BufferMap Coins) → View maps → ℤ → ℤ → List Input → (Reason × ℕ) ⊎ ℤ
unfolding get_entry
sum_inputs maps view height total [] = inr total
sum_inputs maps view height total (input ∷ inputs) =
    elim (entry_at view.heap (get_entry maps input.prevout view)) [
      | none ↦ inl (missing_or_spent, 0)
      | some entry ↦
          let total' = total +ℤ entry.output.value in
          let rest = sum_inputs maps view height total' inputs in
          if entry.coinbase && ltb_ℤ (height -ℤ entry.height) (pos coinbase_maturity)
          then inl (premature_spend, 0)
          else if not (money_range entry.output.value) || not (money_range total')
          then inl (inputvalues_outofrange, 100)
          else rest
    ]

-- The end of `checkInputs`. `checkSpecialTxFee` always agrees.
unfoldable pub settle : ℤ → ℤ → (Reason × ℕ) ⊎ ℤ
settle total value =
    let fee = total -ℤ value in
    if ltb_ℤ total value
    then inl (in_belowout, 100)
    else if not (money_range fee)
    then inl (fee_outofrange, 100)
    else if is_neg_ℤ fee
    then inl (fee_too_low, 100)
    else inr fee

-- The fee, or the reason and the score that stand beside -1.
unfoldable pub check_inputs : (maps : BufferMap Coins) → View maps → ℤ → Tx → (Reason × ℕ) ⊎ ℤ
unfolding sum_inputs settle
check_inputs maps view height tx = elim (sum_inputs maps view height (pos 0) tx.inputs) [
  | inl r ↦ inl r
  | inr total ↦ settle total (output_value tx.outputs)
]
