-- ===== src/Blockchain/Retarget.antt =====
-- The difficulty: `getTarget`, `getDGWTarget` and `retarget` of lib/blockchain/chain.js. The chain up
-- to `prev` is the list of Blockchain/VersionBits.antt. A target is a number that is not negative: a
-- chain with a negative target, which `verifyPOW` refuses, has the outcome `none`, as has a failed
-- assertion.
pub mod Bounds
mod Tests
use bcoin.Prelude.{
  ℕ, zero, suc, ◌+◌, ◌-◌, ◌*◌, ◌/◌, ◌%◌, ℤ, pos, negsuc, pos_part, ◌-ℤ◌, ltb_ℤ, Bool, true, false,
  not, ◌&&◌, ◌||◌, Option, none, some, List, [], ◌∷◌, ltb, leb, ◌==◌, if◌then◌else◌, length, drop,
  take,
}
use bcoin.Protocol.Compact.{from_compact, to_compact}
use bcoin.Blockchain.VersionBits.{Entry}

-- `network.pow`, with the time of the genesis block.
pub record Pow : Type 0 where
  pub bits : ℕ
  pub limit : ℕ
  pub target_timespan : ℕ
  pub target_spacing : ℕ
  pub retarget_interval : ℕ
  pub target_reset : Bool
  pub no_retargeting : Bool
  pub dgw_height : ℕ
  pub dgw_blocks : ℕ
  pub genesis_time : ℕ

abbrev pub target_of : ℕ → Option ℕ
target_of bits = elim (from_compact bits) [ pos n ↦ some n | negsuc n ↦ none ]

-- A span of time kept between two bounds.
abbrev pub clamp : ℕ → ℕ → ℤ → ℕ
clamp low high span =
    let raised = if ltb_ℤ span (pos low) then low else pos_part span in
    if ltb high raised then high else raised

-- The seconds from one entry to another.
abbrev pub span_of : Entry → Entry → ℤ
span_of last first = pos last.time -ℤ pos first.time

-- The last steps of both algorithms.
abbrev pub scaled : ℕ → ℕ → ℕ → ℕ
scaled target actual planned = target * actual / planned

module _ (byte_length : ℕ → ℕ) (pow : Pow) where
  abbrev pub capped : ℕ → ℕ
  capped target = if ltb pow.limit target then pow.bits else to_compact byte_length target

  unfoldable pub retarget : Entry → Entry → Option ℕ
  unfolding from_compact to_compact ◌-ℤ◌
  retarget prev first = if pow.no_retargeting then some prev.bits else elim (target_of prev.bits) [
    | none ↦ none
    | some target ↦
        let planned = pow.target_timespan in
        let actual = clamp (planned / 4) (planned * 4) (span_of prev first) in
        some (capped (scaled target actual planned))
  ]

  -- The loop over the last blocks, from the second on: how many are in the average, and the average.
  unfoldable pub past_average : ℕ → ℕ → List Entry → Option ℕ
  unfolding from_compact
  past_average n avg [] = some avg
  past_average n avg (entry ∷ entries) = elim (target_of entry.bits) [
    | none ↦ none
    | some target ↦ past_average (n + 1) ((avg * (n + 1) + target) / (n + 2)) entries
  ]

  abbrev pub last_of : Entry → List Entry → Entry
  last_of entry [] = entry
  last_of entry (next ∷ entries) = last_of next entries

  abbrev pub dgw_window : ℕ
  dgw_window = if pow.dgw_blocks == 0 then 60 else pow.dgw_blocks

  -- The target from the average of a window.
  unfoldable pub dgw_scaled : Entry → Entry → ℕ → ℕ
  unfolding to_compact ◌-ℤ◌
  dgw_scaled prev oldest avg =
      let planned = dgw_window * pow.target_spacing in
      let actual = clamp (planned / 3) (planned * 3) (span_of prev oldest) in
      capped (scaled avg actual planned)

  unfoldable pub get_dgw_target : List Entry → Option ℕ
  unfolding from_compact past_average dgw_scaled
  get_dgw_target [] = some pow.bits
  get_dgw_target (prev ∷ chain) =
      if ltb (length chain) dgw_window
      then some pow.bits
      else let older = take (dgw_window - 1) chain in
        elim (target_of prev.bits) [
          | none ↦ none
          | some target ↦ elim (past_average 1 target older) [
            | none ↦ none
            | some avg ↦ some (dgw_scaled prev (last_of prev older) avg)
          ]
        ]

  -- The loop of the testnets: the bits of the last block that is not at the limit.
  unfoldable pub unreset_bits : Entry → List Entry → ℕ
  unreset_bits prev [] = prev.bits
  unreset_bits prev (older ∷ chain) =
      let rest = unreset_bits older chain in
      if not (length (older ∷ chain) % pow.retarget_interval == 0) && prev.bits == pow.bits
      then rest
      else prev.bits

  unfoldable pub get_target : ℕ → List Entry → Option ℕ
  unfolding get_dgw_target unreset_bits retarget
  get_target time [] = if time == pow.genesis_time then some pow.bits else none
  get_target time (prev ∷ chain) =
      let height = length chain in
      if leb pow.dgw_height (height + 1)
      then get_dgw_target (prev ∷ chain)
      else if not ((height + 1) % pow.retarget_interval == 0)
      then some (
          if pow.target_reset
          then (if ltb (prev.time + pow.target_spacing * 2) time
              then pow.bits
              else unreset_bits prev chain)
          else prev.bits)
      else elim (drop (pow.retarget_interval - 1) (prev ∷ chain)) [
        | [] ↦ none
        | first ∷ rest ↦ retarget prev first
      ]
