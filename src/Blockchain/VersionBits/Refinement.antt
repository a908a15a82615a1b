-- ===== src/Blockchain/VersionBits/Refinement.antt =====
-- `getState` of lib/blockchain/chain.js computes the states of BIP9, whatever is in its cache,
-- on every branch of the block tree.
use bcoin.Prelude.{
  ℕ, zero, suc, ◌+◌, ◌%◌, ◌≤◌, ◌<◌, ◌≡◌, refl, sym, ap, ◌∙◌, Option, some, List, [], ◌∷◌, arith,
  ltb, length, drop, length-drop, Bool-cases, Option-cases, inl, inr,
}
use mathlib.Core.Path.{subst}
use bcoin.Blockchain.StateCache.{ThresholdState, StateCache, lookup-slot}
use bcoin.Utils.BufferMap.{BufferMap, IsMap}
use bcoin.Blockchain.VersionBits.{
  Entry, Rule, Network, Deployment, median_time, unwind, walk, rule_of, from_aligned, get_state,
}
use bcoin.Blockchain.VersionBits.States.{
  StateAt, at_genesis, after_window, transition, next_state_lem, StateAt-unique,
}
use bcoin.Blockchain.VersionBits.Coherence.{IsTree, IsCoherent, store-IsCoherent, early-StateAt}

module _ (map : BufferMap ThresholdState) (laws : IsMap map) (rule : Rule) where
  module _ (Known : List Entry → Type 0) (tree : IsTree Known) where
    -- The entries that wait for their state: each lies a window after the one before.
    abbrev IsStack : List Entry → List (List Entry) → List Entry → Type 0
    IsStack base [] goal = base ≡ goal
    IsStack base (chain ∷ compute) goal =
        (drop rule.window chain ≡ base)
        × Known chain
        × (1 ≤ length chain)
        × IsStack chain compute goal

    abbrev Computes : Option (ThresholdState × StateCache map) → List Entry → Type 0
    Computes result chain =
        (state : ThresholdState) × (cache : StateCache map) × (result ≡ some (state, cache))
        × StateAt rule chain state
        × IsCoherent map laws rule Known tree cache

    step-StateAt :
        (chain : List Entry) (state : ThresholdState)
        → 1 ≤ length chain
        → StateAt rule (drop rule.window chain) state
        → StateAt rule chain (transition rule state chain)
    step-StateAt [] state n s = absurd (omega arith)
    step-StateAt (e ∷ chain) state n s = after_window e chain state s

    unwind-Computes :
        (compute : List (List Entry)) (base goal : List Entry) (state : ThresholdState)
        (cache : StateCache map)
        → 1 ≤ rule.threshold
        → IsStack base compute goal
        → StateAt rule base state
        → IsCoherent map laws rule Known tree cache
        → Computes (unwind map rule compute state cache) goal
    unfolding unwind
    unwind-Computes [] base goal state cache h st s co =
        (state, cache, refl, subst (λ c. StateAt rule c state) st s, co)
    unwind-Computes (chain ∷ compute) base goal state cache h (d, k, n, st) s co =
        let s' = subst (λ c. StateAt rule c state) (sym d) s in
        let s'' = step-StateAt chain state n s' in
        let (cache', e, co') =
          store-IsCoherent map laws rule Known tree chain (transition rule state chain) cache k n
            s'' co in
        let (state₂, cache₂, e₂, s₂, co₂) =
          unwind-Computes compute chain goal (transition rule state chain) cache' h st s'' co' in
        (state₂, cache₂, rw (next_state_lem rule state chain h s', unwind, e) e₂, s₂, co₂)

    walk-Computes :
        (fuel : ℕ) (chain : List Entry) (compute : List (List Entry)) (goal : List Entry)
        (cache : StateCache map)
        → length chain < fuel
        → 1 ≤ rule.window
        → 1 ≤ rule.threshold
        → rule.start_time ≤ rule.timeout
        → Known chain
        → IsStack chain compute goal
        → IsCoherent map laws rule Known tree cache
        → Computes (walk map fuel rule chain compute cache) goal
    unfolding walk
    walk-Computes zero chain compute goal cache f w h t k st co = absurd (omega arith)
    walk-Computes (suc fuel) [] compute goal cache f w h t k st co =
        unwind-Computes compute [] goal ThresholdState.defined cache h st at_genesis co
    walk-Computes (suc fuel) (e ∷ chain) compute goal cache f w h t k st (m, at, holds) =
        elim (Option-cases (map.get e.hash m)) [
          | inr (state, cached) ↦
              let (state₂, cache₂, e₂, s₂, co₂) =
                unwind-Computes compute (e ∷ chain) goal state cache h st
                  (holds (e ∷ chain) state k (omega arith) cached) (m, at, holds) in
              (
                state₂,
                cache₂,
                rw (lookup-slot map rule.bit e.hash cache m at, cached, walk) e₂,
                s₂,
                co₂,
              )
          | inl unknown ↦ elim (Bool-cases (ltb (median_time (e ∷ chain)) rule.start_time)) [
            | inl early ↦
                let s =
                  early-StateAt map laws rule Known tree (length (e ∷ chain) + 1) (e ∷ chain)
                    (omega arith) w t k (ground arith) in
                let (cache', e', co') =
                  store-IsCoherent map laws rule Known tree (e ∷ chain) ThresholdState.defined cache
                    k (omega arith) s (m, at, holds) in
                let (state₂, cache₂, e₂, s₂, co₂) =
                  unwind-Computes compute (e ∷ chain) goal ThresholdState.defined cache' h st s
                    co' in
                (
                  state₂,
                  cache₂,
                  rw (lookup-slot map rule.bit e.hash cache m at, unknown, early, walk, e') e₂,
                  s₂,
                  co₂,
                )
            | inr late ↦
                let (state₂, cache₂, e₂, s₂, co₂) =
                  walk-Computes fuel (drop rule.window (e ∷ chain)) ((e ∷ chain) ∷ compute) goal
                    cache (omega (arith, length-drop rule.window (e ∷ chain))) w h t
                    (tree.closed rule.window (e ∷ chain) k) (refl, k, omega arith, st)
                    (m, at, holds) in
                (
                  state₂,
                  cache₂,
                  rw (lookup-slot map rule.bit e.hash cache m at, unknown, late, walk) e₂,
                  s₂,
                  co₂,
                )
          ]
        ]

    from_aligned-Computes :
        (aligned : List Entry) (cache : StateCache map)
        → 1 ≤ rule.window
        → 1 ≤ rule.threshold
        → rule.start_time ≤ rule.timeout
        → Known aligned
        → IsCoherent map laws rule Known tree cache
        → Computes (from_aligned map rule aligned cache) aligned
    from_aligned-Computes [] cache w h t k co =
        (ThresholdState.defined, cache, refl, at_genesis, co)
    from_aligned-Computes (e ∷ chain) cache w h t k co =
        walk-Computes (length (e ∷ chain) + 1) (e ∷ chain) [] (e ∷ chain) cache (omega arith) w h t
          k refl co

module _ (map : BufferMap ThresholdState) (laws : IsMap map) (Known : List Entry → Type 0)
    (tree : IsTree Known) where
  -- From any coherent cache `getState` ends without a failed assertion. It returns the state that
  -- BIP9 gives at the last entry of a whole window, and leaves a coherent cache. The chain is one of
  -- a tree in which a hash names one entry and median times do not fall; the deployment has a start
  -- time that is not after its timeout, and the window and the threshold are not 0.
  pub get_state_correct :
      (network : Network) (deployment : Deployment) (start : ℕ) (chain : List Entry)
      (cache : StateCache map)
      → deployment.start_time ≡ some start
      → 1 ≤ (rule_of map network deployment start).window
      → 1 ≤ (rule_of map network deployment start).threshold
      → start ≤ deployment.timeout
      → Known chain
      → IsCoherent map laws (rule_of map network deployment start) Known tree cache
      → (state : ThresholdState) × (cache' : StateCache map) × (get_state map network deployment
            chain cache
          ≡ some (state, cache'))
        × StateAt
            (rule_of map network deployment start)
            (drop (length chain % (rule_of map network deployment start).window) chain)
            state
        × IsCoherent map laws (rule_of map network deployment start) Known tree cache'
  unfolding get_state
  get_state_correct network deployment start chain cache s w h t k co =
      let rule = rule_of map network deployment start in
      let (state, cache', e, at, co') =
        from_aligned-Computes map laws rule Known tree (drop (length chain % rule.window) chain)
          cache w h t (tree.closed (length chain % rule.window) chain k) co in
      (state, cache', rw s e, at, co')

  -- The cache does not decide: from any two coherent caches `getState` returns one and the same
  -- state. The chain is one of a tree in which a hash names one entry and median times do not fall;
  -- the deployment has a start time that is not after its timeout, and the window and the threshold
  -- are not 0.
  pub get_state-agrees :
      (network : Network) (deployment : Deployment) (start : ℕ) (chain : List Entry)
      (cache cache' : StateCache map)
      → deployment.start_time ≡ some start
      → 1 ≤ (rule_of map network deployment start).window
      → 1 ≤ (rule_of map network deployment start).threshold
      → start ≤ deployment.timeout
      → Known chain
      → IsCoherent map laws (rule_of map network deployment start) Known tree cache
      → IsCoherent map laws (rule_of map network deployment start) Known tree cache'
      → (state : ThresholdState) × (after after' : StateCache map) × (get_state map network
            deployment chain cache
          ≡ some (state, after))
        × (get_state map network deployment chain cache' ≡ some (state, after'))
  get_state-agrees network deployment start chain cache cache' s w h t k co co' =
      let (state, after, e, at, c) =
        get_state_correct network deployment start chain cache s w h t k co in
      let (state', after', e', at', c') =
        get_state_correct network deployment start chain cache' s w h t k co' in
      let same = StateAt-unique (rule_of map network deployment start) _ state' state w at' at in
      (state, after, after', e, e' ∙ ap (λ u. some (u, after')) same)
