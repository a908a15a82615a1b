-- ===== src/Blockchain/Locks.antt =====
-- The locktimes of a transaction on a chain: `verifyFinal`, `getLocks` and `verifyLocks` of
-- lib/blockchain/chain.js. The chain up to `prev` is the list of Blockchain/VersionBits.antt.
pub mod Sequence
mod Tests
use bcoin.Prelude.{
  ℕ, ◌+◌, ◌-◌, ◌*◌, ◌^◌, ℤ, pos, negsuc, ◌+ℤ◌, ◌-ℤ◌, is_neg_ℤ, ltb_ℤ, leb_ℤ, Bool, true, false, not,
  ◌&&◌, ◌||◌, Option, none, some, List, [], ◌∷◌, ltb, leb, ◌==◌, if◌then◌else◌, length, drop,
  bit_and,
}
use bcoin.Utils.BufferMap.{BufferMap}
use bcoin.Coins.{CoinEntry, Coins}
use bcoin.Coins.View.{Outpoint, View, get_entry}
use bcoin.Blockchain.VersionBits.{Entry, median_time}
use bcoin.Primitives.Tx.{
  Input, Tx, locktime_threshold, is_coinbase, is_final, disable_flag, type_flag, sequence_mask,
}
use bcoin.Primitives.Checks.{entry_at}

-- `common.lockFlags`.
abbrev pub lock_verify_sequence : ℕ
lock_verify_sequence = 1

abbrev pub lock_median_time_past : ℕ
lock_median_time_past = 2

abbrev pub has_lock : ℕ → ℕ → Bool
has_lock flags flag = not (bit_and flags flag == 0)

-- `prev.height` and -1, for null.
abbrev pub height_of : List Entry → ℤ
height_of prev = pos (length prev) -ℤ pos 1

-- `getAncestor`: the entries up to a height. `none` is null, or the failed assertion that the height
-- is not above the entry's.
unfoldable pub get_ancestor : ℤ → List Entry → Option (List Entry)
get_ancestor (negsuc n) prev = none
get_ancestor (pos height) prev =
    if leb (length prev) height then none else some (drop (length prev - (height + 1)) prev)

-- `this.network.now()` is an argument.
unfoldable pub verify_final : ℤ → ℕ → List Entry → Tx → Bool
unfolding median_time is_final
verify_final now flags prev tx =
    let height = height_of prev +ℤ pos 1 in
    if ltb tx.locktime locktime_threshold
    then is_final height (negsuc 0) tx
    else if has_lock flags lock_median_time_past
    then is_final height (pos (median_time prev)) tx
    else is_final height now tx

abbrev pub max_ℤ : ℤ → ℤ → ℤ
max_ℤ a b = if ltb_ℤ a b then b else a

-- `view.getHeight`.
abbrev pub height_in : Option CoinEntry → ℤ
height_in none = negsuc 0
height_in (some entry) = entry.height

abbrev pub is_minus_one : ℤ → Bool
is_minus_one z = leb_ℤ z (negsuc 0) && leb_ℤ (negsuc 0) z

module _ (maps : BufferMap Coins) where
  -- The height of the coin that an input spends: that of the next block for one that is unconfirmed.
  -- `tip` is `this.height`.
  abbrev pub coin_height : ℤ → View maps → Outpoint → ℤ
  coin_height tip view prevout =
      let height = height_in (entry_at view.heap (get_entry maps prevout view)) in
      if is_minus_one height then tip +ℤ pos 1 else height

  -- The loop of `getLocks`, from the two minima so far; `none` is its failed assertion.
  pub locks_loop : ℤ → List Entry → View maps → ℤ → ℤ → List Input → Option (ℤ × ℤ)
  unfolding get_ancestor median_time
  locks_loop tip prev view min_height min_time [] = some (min_height, min_time)
  locks_loop tip prev view min_height min_time (input ∷ inputs) =
      let height = coin_height tip view input.prevout in
      let delta = pos (sequence_mask input.sequence) in
      if disable_flag input.sequence
      then locks_loop tip prev view min_height min_time inputs
      else if type_flag input.sequence == 0
      then (let height' = height +ℤ (delta -ℤ pos 1) in
          locks_loop tip prev view (max_ℤ min_height height') min_time inputs)
      else elim (get_ancestor (max_ℤ (height -ℤ pos 1) (pos 0)) prev) [
        | none ↦ none
        | some entry ↦
            let span = pos (sequence_mask input.sequence * 2 ^ 9) in
            let time = pos (median_time entry) +ℤ (span -ℤ pos 1) in
            locks_loop tip prev view min_height (max_ℤ min_time time) inputs
      ]

  unfoldable pub get_locks : ℤ → List Entry → Tx → View maps → ℕ → Option (ℤ × ℤ)
  unfolding locks_loop
  get_locks tip prev tx view flags =
      if not (has_lock flags lock_verify_sequence)
      then some (negsuc 0, negsuc 0)
      else if is_coinbase tx || ltb tx.version 2
      then some (negsuc 0, negsuc 0)
      else locks_loop tip prev view (negsuc 0) (negsuc 0) tx.inputs

  unfoldable pub verify_locks : ℤ → List Entry → Tx → View maps → ℕ → Option Bool
  unfolding get_locks median_time
  verify_locks tip prev tx view flags = elim (get_locks tip prev tx view flags) [
    | none ↦ none
    | some (height, time) ↦ some (
        if not (is_minus_one height) && leb_ℤ (height_of prev +ℤ pos 1) height
        then false
        else not (not (is_minus_one time) && leb_ℤ (pos (median_time prev)) time))
  ]
