-- ===== src/Blockchain/VersionBits.antt =====
-- `getMedianTime` and `getState` of lib/blockchain/chain.js: the deployments of BIP9. An entry with
-- all its ancestors is a list, the newest first: `getPrevious` is the tail, an ancestor is what is
-- left after some entries, null is the empty list, and the height is the length less 1.
pub mod States
pub mod Coherence
pub mod Refinement
mod Tests
use bcoin.Prelude.{
  ℕ, zero, suc, ◌+◌, ◌-◌, ◌/◌, ◌%◌, ◌^◌, Bool, true, false, not, ◌&&◌, Option, none, some, List, [],
  ◌∷◌, map, ltb, leb, ◌==◌, if◌then◌else◌, length, get_or, take, drop, bit_and,
}
use bcoin.Blockchain.StateCache
use bcoin.Blockchain.StateCache.{ThresholdState, StateCache, lookup, store}
use bcoin.Utils.BufferMap.{BufferMap}

pub record Entry : Type 0 where
  pub hash : ℕ
  pub version : ℕ
  pub time : ℕ
  pub bits : ℕ

-- `consensus.hasBit`, on a 32-bit version.
abbrev pub has_bit : ℕ → ℕ → Bool
has_bit version bit =
    bit_and version 0xe0000000 == 0x20000000 && not (bit_and version (2 ^ bit) == 0)

-- `median.sort(cmp)`.
abbrev pub insert_time : ℕ → List ℕ → List ℕ
insert_time t [] = t ∷ []
insert_time t (u ∷ ts) = if leb t u then t ∷ u ∷ ts else u ∷ insert_time t ts

abbrev pub sort : List ℕ → List ℕ
sort [] = []
sort (t ∷ ts) = insert_time t (sort ts)

-- `getMedianTime` without its second argument, over MEDIAN_TIMESPAN, 11, entries.
unfoldable pub median_time : List Entry → ℕ
median_time chain =
    let times = map (λ (e : Entry). e.time) (take 11 chain) in
    get_or (sort times) (length times / 2) 0

-- A deployment; `none` stands for -1.
pub record Deployment : Type 0 where
  pub bit : ℕ
  pub start_time : Option ℕ
  pub timeout : ℕ
  pub threshold : Option ℕ
  pub window : Option ℕ

-- The two settings of the network that `getState` reads.
pub record Network : Type 0 where
  pub miner_window : ℕ
  pub activation_threshold : ℕ

-- The numbers that a run of `getState` works with.
pub record Rule : Type 0 where
  pub bit : ℕ
  pub start_time : ℕ
  pub timeout : ℕ
  pub threshold : ℕ
  pub window : ℕ

-- `for (let i = 0; i < window; i++)`: whether the state becomes LOCKED_IN; `none` is the failed
-- assertion that there is a previous block.
unfoldable pub count_loop : Rule → ℕ → List Entry → ℕ → Option Bool
count_loop rule zero chain count = some false
count_loop rule (suc n) [] count = none
count_loop rule (suc n) (block ∷ chain) count =
    let count' = if has_bit block.version rule.bit then count + 1 else count in
    let rest = count_loop rule n chain count' in
    if leb rule.threshold count' then some true else if length chain == 0 then none else rest

-- The `switch (state)` at an entry.
unfoldable pub next_state : Rule → ThresholdState → List Entry → Option ThresholdState
next_state rule ThresholdState.defined chain =
    if leb rule.timeout (median_time chain)
    then some ThresholdState.failed
    else if leb rule.start_time (median_time chain)
    then some ThresholdState.started
    else some ThresholdState.defined
next_state rule ThresholdState.started chain =
    if leb rule.timeout (median_time chain)
    then some ThresholdState.failed
    else elim (count_loop rule rule.window chain 0) [
      | none ↦ none
      | some locked ↦ some (if locked then ThresholdState.locked_in else ThresholdState.started)
    ]
next_state rule ThresholdState.locked_in chain = some ThresholdState.active
next_state rule ThresholdState.active chain = some ThresholdState.active
next_state rule ThresholdState.failed chain = some ThresholdState.failed

abbrev pub head_hash : List Entry → ℕ
head_hash [] = 0
head_hash (e ∷ chain) = e.hash

module _ (map : BufferMap ThresholdState) where
  -- `while (compute.length)`; the last entry pushed comes first.
  unfoldable pub unwind :
      Rule
      → List (List Entry)
      → ThresholdState
      → StateCache map
      → Option (ThresholdState × StateCache map)
  unfolding next_state
  unwind rule [] state cache = some (state, cache)
  unwind rule (chain ∷ compute) state cache = elim (next_state rule state chain) [
    | none ↦ none
    | some state' ↦ elim (store map rule.bit (head_hash chain) state' cache) [
      | none ↦ none
      | some cache' ↦ unwind rule compute state' cache'
    ]
  ]

  -- `while (entry)`, and then the second loop. The fuel is more than the number of entries.
  unfoldable pub walk :
      ℕ
      → Rule
      → List Entry
      → List (List Entry)
      → StateCache map
      → Option (ThresholdState × StateCache map)
  unfolding unwind
  walk zero rule chain compute cache = none
  walk (suc fuel) rule [] compute cache = unwind rule compute ThresholdState.defined cache
  walk (suc fuel) rule (entry ∷ chain) compute cache =
      let rest =
        walk fuel rule (drop rule.window (entry ∷ chain)) ((entry ∷ chain) ∷ compute) cache in
      elim (lookup map rule.bit entry.hash cache) [
        | none ↦ none
        | some (some state) ↦ unwind rule compute state cache
        | some none ↦
            if ltb (median_time (entry ∷ chain)) rule.start_time
            then elim (store map rule.bit entry.hash ThresholdState.defined cache) [
              | none ↦ none
              | some cache' ↦ unwind rule compute ThresholdState.defined cache'
            ]
            else rest
      ]

  abbrev pub rule_of : Network → Deployment → ℕ → Rule
  rule_of network deployment start = record {
    bit = deployment.bit;
    start_time = start;
    timeout = deployment.timeout;
    threshold = elim deployment.threshold [ none ↦ network.activation_threshold | some t ↦ t ];
    window = elim deployment.window [ none ↦ network.miner_window | some w ↦ w ];
  }

  -- From the last entry of a whole window on; without one the state is DEFINED.
  abbrev pub from_aligned :
      Rule → List Entry → StateCache map → Option (ThresholdState × StateCache map)
  from_aligned rule [] cache = some (ThresholdState.defined, cache)
  from_aligned rule (entry ∷ chain) cache =
      walk (length (entry ∷ chain) + 1) rule (entry ∷ chain) [] cache

  unfoldable pub get_state :
      Network → Deployment → List Entry → StateCache map → Option (ThresholdState × StateCache map)
  unfolding walk
  get_state network deployment chain cache = elim deployment.start_time [
    | none ↦ some (ThresholdState.active, cache)
    | some start ↦
        let rule = rule_of network deployment start in
        from_aligned rule (drop (length chain % rule.window) chain) cache
  ]
