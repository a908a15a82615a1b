-- ===== src/Blockchain/VersionBits/Tests.antt =====
-- Runs of `getState` on a chain of six blocks with windows of two, and its theorems there.
use bcoin.Prelude.{
  ℕ, zero, suc, ◌-◌, ◌≤◌, ◌≡◌, refl, sym, ap, ◌∙◌, none, some, List, [], ◌∷◌, arith, ◌==◌,
  if◌then◌else◌, length, drop,
}
use mathlib.Core.Path.{subst}
use mathlib.Core.Option.{some-injective}
use bcoin.Blockchain.StateCache.{ThresholdState, StateCache, lookup, store}
use bcoin.Utils.BufferMap.{BufferMap, IsMap}
use bcoin.Utils.BufferMap.Pairs.{find, pairs_of, pairs_of-IsMap}
use bcoin.Blockchain.VersionBits.{
  Entry, Network, Deployment, median_time, head_hash, next_state, count_loop, unwind, walk, rule_of,
  get_state,
}
use bcoin.Blockchain.VersionBits.States.{StateAt, at_genesis, after_window}
use bcoin.Blockchain.VersionBits.Coherence.{IsTree, IsCoherent}
use bcoin.Blockchain.VersionBits.Refinement.{get_state_correct, get_state-agrees}

abbrev pairs : BufferMap ThresholdState
pairs = pairs_of ThresholdState

abbrev pairs-IsMap : IsMap pairs
pairs-IsMap = pairs_of-IsMap ThresholdState

-- Block n has the hash n + 1 and the time 100, and signals bit 1.
abbrev grow : ℕ → List Entry
grow zero = []
grow (suc n) = record { hash = suc n; version = 0x20000002; time = 100; bits = 0 } ∷ grow n

abbrev Known : List Entry → Type 0
Known chain = (n : ℕ) × (n ≤ 6) × (chain ≡ grow n)

grow_cong : (m n : ℕ) → m ≡ n → grow m ≡ grow n
grow_cong m n e = ap grow e

drop-grow : (m n : ℕ) → drop m (grow n) ≡ grow (n - m)
drop-grow zero n = grow_cong n (n - 0) (omega arith)
drop-grow (suc m) zero = grow_cong 0 (0 - suc m) (omega arith)
drop-grow (suc m) (suc n) = drop-grow m n ∙ grow_cong (n - m) (suc n - suc m) (omega arith)

median-grow : (n : ℕ) → n ≤ 6 → median_time (grow n) ≡ (if n == 0 then 0 else 100)
unfolding median_time
median-grow zero h = refl
median-grow (suc zero) h = refl
median-grow (suc (suc zero)) h = refl
median-grow (suc (suc (suc zero))) h = refl
median-grow (suc (suc (suc (suc zero)))) h = refl
median-grow (suc (suc (suc (suc (suc zero))))) h = refl
median-grow (suc (suc (suc (suc (suc (suc zero)))))) h = refl
median-grow (suc (suc (suc (suc (suc (suc (suc n))))))) h = absurd (omega arith)

same_place :
    (m n : ℕ)
    → 1 ≤ length (grow m)
    → 1 ≤ length (grow n)
    → head_hash (grow m) ≡ head_hash (grow n)
    → m ≡ n
same_place zero n h k e = absurd (omega arith)
same_place (suc m) zero h k e = absurd (omega arith)
same_place (suc m) (suc n) h k e = e

chain-IsTree : IsTree Known
chain-IsTree = record {
  closed = λ n chain (m, le, e). (m - n, omega arith, rw e (drop-grow n m));
  named = λ chain chain' (m, le, e) (m', le', e') h h' eq.
      e ∙ ap grow (same_place m m' (rw e at h) (rw e' at h') (rw (e, e') at eq)) ∙ sym e';
  rising = λ n chain (m, le, e).
      rw (e, drop-grow n m, median-grow (m - n) (omega arith), median-grow m le) (ground arith);
}

abbrev network : Network
network = record { miner_window = 2; activation_threshold = 2 }

abbrev deployment : Deployment
deployment = record {
  bit = 1;
  start_time = some 50;
  timeout = 200;
  threshold = none;
  window = none;
}

-- Bits 0 and 1 have no map and an empty one.
abbrev fresh : StateCache pairs
fresh = record { bits = none ∷ some [] ∷ []; updates = [] }

fresh-IsCoherent :
    IsCoherent pairs pairs-IsMap (rule_of pairs network deployment 50) Known chain-IsTree fresh
fresh-IsCoherent = ([], refl, λ chain state k n g. cc)

-- DEFINED, STARTED, LOCKED_IN, ACTIVE, window after window.
active_run :
    (after : StateCache pairs) × (get_state pairs network deployment (grow 6) fresh
      ≡ some (ThresholdState.active, after))
unfolding get_state walk unwind next_state count_loop median_time lookup store
active_run = (_, refl)

get_state_correct_example :
    (state : ThresholdState) × (cache' : StateCache pairs) × (get_state pairs network deployment
        (grow 5)
        fresh
      ≡ some (state, cache'))
    × StateAt (rule_of pairs network deployment 50) (grow 4) state
    × IsCoherent pairs pairs-IsMap (rule_of pairs network deployment 50) Known chain-IsTree cache'
get_state_correct_example =
    get_state_correct pairs pairs-IsMap Known chain-IsTree network deployment 50 (grow 5) fresh refl
      (omega arith) (omega arith) (omega arith) (5, omega arith, refl) fresh-IsCoherent

-- The second block is known to be STARTED.
abbrev marked : StateCache pairs
marked = record { bits = none ∷ some ((2, ThresholdState.started) ∷ []) ∷ []; updates = [] }

second_started : StateAt (rule_of pairs network deployment 50) (grow 2) ThresholdState.started
unfolding median_time
second_started = after_window _ _ ThresholdState.defined at_genesis

marked-StateAt :
    (n : ℕ) (state : ThresholdState)
    → 1 ≤ length (grow n)
    → find (head_hash (grow n)) ((2, ThresholdState.started) ∷ []) ≡ some state
    → StateAt (rule_of pairs network deployment 50) (grow n) state
marked-StateAt zero state h g = absurd (omega arith)
marked-StateAt (suc zero) state h g = cc
marked-StateAt (suc (suc zero)) state h g =
    subst (λ s. StateAt (rule_of pairs network deployment 50) (grow 2) s) (some-injective _ _ g)
      second_started
marked-StateAt (suc (suc (suc n))) state h g = absurd (ground arith)

marked-IsCoherent :
    IsCoherent pairs pairs-IsMap (rule_of pairs network deployment 50) Known chain-IsTree marked
marked-IsCoherent = (
  (2, ThresholdState.started) ∷ [],
  refl,
  λ chain state (n, le, e) h g.
      subst (λ c. StateAt (rule_of pairs network deployment 50) c state) (sym e)
        (marked-StateAt n state (rw e at h) (rw e at g)),
)

get_state-agrees_example :
    (state : ThresholdState) × (after after' : StateCache pairs) × (get_state pairs network
        deployment
        (grow 5)
        fresh
      ≡ some (state, after))
    × (get_state pairs network deployment (grow 5) marked ≡ some (state, after'))
get_state-agrees_example =
    get_state-agrees pairs pairs-IsMap Known chain-IsTree network deployment 50 (grow 5) fresh
      marked refl (omega arith) (omega arith) (omega arith) (5, omega arith, refl) fresh-IsCoherent
      marked-IsCoherent
