-- ===== src/Primitives/Tx.antt =====
-- lib/primitives/tx.js: the data of a transaction, and its locktimes. What
-- `getSize` returns is a field, and the extra payload is there by its size; the codecs are not here.
pub mod Locktime
use bcoin.Prelude.{
  ℕ, ◌+◌, ◌*◌, ◌%◌, ◌^◌, ℤ, pos, negsuc, ◌+ℤ◌, ◌-ℤ◌, is_neg_ℤ, ltb_ℤ, leb_ℤ, Bool, true, false, not,
  ◌&&◌, ◌||◌, Option, none, some, ◌⊎◌, inl, inr, List, [], ◌∷◌, ltb, leb, ◌==◌, if◌then◌else◌,
  length, get_elem?, bit_and,
}
use bcoin.Script.Types.{Bytes}
use bcoin.Utils.BufferMap.{BufferMap}
use bcoin.Coins.{CoinEntry, Output, Heap, Coins}
use bcoin.Coins.View.{Outpoint, View, get_entry}

pub record Input : Type 0 where
  pub prevout : Outpoint
  pub script : Bytes
  pub sequence : ℕ

pub record Tx : Type 0 where
  pub version : ℕ
  pub inputs : List Input
  pub outputs : List Output
  pub locktime : ℕ
  pub type : ℕ
  pub extra_payload : Option ℕ
  pub size : ℕ

-- consensus.js and policy.js.
abbrev pub max_money : ℤ
max_money = pos (21000000000 * 100000000)

abbrev pub coinbase_maturity : ℕ
coinbase_maturity = 100

abbrev pub locktime_threshold : ℕ
locktime_threshold = 500000000

abbrev pub sequence_final : ℕ
sequence_final = 0xffffffff

abbrev pub max_block_size : ℕ
max_block_size = 2000000

abbrev pub max_tx_extra_payload : ℕ
max_tx_extra_payload = 10000

abbrev pub transaction_coinbase : ℕ
transaction_coinbase = 5

abbrev pub transaction_quorum_commitment : ℕ
transaction_quorum_commitment = 6

-- `moneyRange` under the rules that are its default.
abbrev pub money_range : ℤ → Bool
money_range value = not (is_neg_ℤ value) && leb_ℤ value max_money

-- `Outpoint.isNull`.
abbrev pub is_null : Outpoint → Bool
is_null p = p.index == 0xffffffff && p.hash == 0

-- `Outpoint.toKey`, as the number that the 36 bytes spell.
abbrev pub to_key : Outpoint → ℕ
to_key p = p.hash * 2 ^ 32 + p.index

abbrev pub is_coinbase : Tx → Bool
is_coinbase tx = elim tx.inputs [
  | [] ↦ false
  | input ∷ inputs ↦ length inputs == 0 && is_null input.prevout
]

abbrev pub is_quorum_commitment : Tx → Bool
is_quorum_commitment tx = tx.type == transaction_quorum_commitment

abbrev pub is_special : Tx → Bool
is_special tx = leb 3 tx.version && not (tx.type == 0)

-- The loop of `isFinal` over the inputs.
abbrev pub all_final : List Input → Bool
all_final [] = true
all_final (input ∷ inputs) = input.sequence == sequence_final && all_final inputs

unfoldable pub is_final : ℤ → ℤ → Tx → Bool
is_final height time tx =
    if tx.locktime == 0
    then true
    else if ltb_ℤ (pos tx.locktime) (if ltb tx.locktime locktime_threshold then height else time)
    then true
    else all_final tx.inputs

-- A test of bits by `&`, whose operands are 32 bits.
abbrev pub masked : ℕ → ℕ → ℕ
masked n mask = bit_and (n % 2 ^ 32) mask

abbrev pub disable_flag : ℕ → Bool
disable_flag n = not (masked n (2 ^ 31) == 0)

abbrev pub type_flag : ℕ → ℕ
type_flag n = masked n (2 ^ 22)

abbrev pub sequence_mask : ℕ → ℕ
sequence_mask n = masked n 0x0000ffff

-- `verifyLocktime` and `verifySequence`; `none` is the failed assertion that the input exists. The
-- predicate is not negative.
unfoldable pub verify_locktime : ℕ → ℕ → Tx → Option Bool
verify_locktime index predicate tx = elim (get_elem? tx.inputs index) [
  | none ↦ none
  | some input ↦ some (
      if ltb tx.locktime locktime_threshold && not (ltb predicate locktime_threshold)
        || not (ltb tx.locktime locktime_threshold) && ltb predicate locktime_threshold
      then false
      else if ltb tx.locktime predicate
      then false
      else not (input.sequence == 0xffffffff))
]

unfoldable pub verify_sequence : ℕ → ℕ → Tx → Option Bool
verify_sequence index predicate tx = elim (get_elem? tx.inputs index) [
  | none ↦ none
  | some input ↦ some (
      if disable_flag predicate
      then true
      else if ltb tx.version 2
      then false
      else if disable_flag input.sequence
      then false
      else if not (type_flag input.sequence == type_flag predicate)
      then false
      else leb (sequence_mask predicate) (sequence_mask input.sequence))
]
