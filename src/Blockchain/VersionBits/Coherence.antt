-- ===== src/Blockchain/VersionBits/Coherence.antt =====
-- The cache of `getState` in lib/blockchain/chain.js: what it may hold, and that storing a right
-- state keeps it so.
use bcoin.Prelude.{
  ℕ, zero, suc, ◌≤◌, ◌<◌, ◌≡◌, sym, ap, ◌∙◌, Bool, true, false, some, List, [], ◌∷◌, arith, ◌==◌,
  length, drop, length-drop, ==_iff, Bool-cases, inl, inr,
}
use mathlib.Core.Option.{some-injective}
use mathlib.Core.Path.{subst}
use bcoin.Blockchain.StateCache.{
  ThresholdState, StateCache, slot, slot-write, store-slot, stored, same_state, store,
}
use bcoin.Utils.BufferMap.{BufferMap, IsMap}
use bcoin.Blockchain.VersionBits.{Entry, Rule, median_time, head_hash}
use bcoin.Blockchain.VersionBits.States.{StateAt, at_genesis, after_window}

-- The entries that the node knows: with an entry its ancestors; a hash names one entry; and the
-- median time does not fall along a chain, as the rule on timestamps makes sure.
pub record IsTree (Known : List Entry → Type 0) : Type 0 where
  pub closed : (n : ℕ) (chain : List Entry) → Known chain → Known (drop n chain)
  pub named :
      (chain chain' : List Entry)
      → Known chain
      → Known chain'
      → 1 ≤ length chain
      → 1 ≤ length chain'
      → head_hash chain ≡ head_hash chain'
      → chain ≡ chain'
  pub rising :
      (n : ℕ) (chain : List Entry) → Known chain → median_time (drop n chain) ≤ median_time chain

module _ (map : BufferMap ThresholdState) (laws : IsMap map) (rule : Rule) where
  module _ (Known : List Entry → Type 0) (tree : IsTree Known) where
    -- The bit has a map, and what it holds of a known entry is the state of the entry.
    abbrev pub IsCoherent : StateCache map → Type 0
    IsCoherent cache =
        (m : map.Map) × (slot map rule.bit cache ≡ some m)
        × ((chain : List Entry) (state : ThresholdState)
            → Known chain
            → 1 ≤ length chain
            → map.get (head_hash chain) m ≡ some state
            → StateAt rule chain state)

    -- A state that is right is stored without a failed assertion.
    pub store-IsCoherent :
        (chain : List Entry) (state : ThresholdState) (cache : StateCache map)
        → Known chain
        → 1 ≤ length chain
        → StateAt rule chain state
        → IsCoherent cache
        → (cache' : StateCache map) × (store map rule.bit (head_hash chain) state cache
            ≡ some cache')
          × IsCoherent cache'
    store-IsCoherent chain state cache k n s (m, e, holds) =
        elim (Bool-cases (same_state map (map.get (head_hash chain) m) state)) [
          | inl same ↦ (
            cache,
            rw (store-slot map rule.bit (head_hash chain) state cache m e, same),
            (m, e, holds),
          )
          | inr new ↦ (
            stored map rule.bit (head_hash chain) state cache m,
            rw (store-slot map rule.bit (head_hash chain) state cache m e, new),
            (
              map.put (head_hash chain) state m,
              slot-write map rule.bit m (map.put (head_hash chain) state m) cache.bits cache.updates
                  (stored map rule.bit (head_hash chain) state cache m).updates e,
              λ chain' state' k' n' g. elim (Bool-cases (head_hash chain' == head_hash chain)) [
                | inl eq ↦
                    let same = tree.named chain chain' k k' n n' (sym ((==_iff _ _).0 eq)) in
                    put_same chain chain' state state' m same g s
                | inr ne ↦ holds chain' state' k' n' (
                    sym (
                      laws.get-put_other (head_hash chain) (head_hash chain') state m
                        (λ t. Bool-clash ((==_iff _ _).1 t) ne))
                    ∙ g)
              ],
            ),
          )
        ]
      where
        Bool-clash : {b : Bool} → b ≡ true → b ≡ false → ⊥
        Bool-clash h k = cc

        put_same :
            (chain chain' : List Entry) (state state' : ThresholdState) (m : map.Map)
            → chain ≡ chain'
            → map.get (head_hash chain') (map.put (head_hash chain) state m) ≡ some state'
            → StateAt rule chain state
            → StateAt rule chain' state'
        put_same chain chain' state state' m e g s =
            subst (λ c. StateAt rule c state') e
              (subst (λ t. StateAt rule chain t)
                (some-injective _ _ (
                  sym (laws.get-put_same (head_hash chain) state m)
                  ∙ ap (λ c. map.get (head_hash c) (map.put (head_hash chain) state m)) e
                  ∙ g))
                s)

    -- Before the start time the state is DEFINED.
    pub early-StateAt :
        (fuel : ℕ) (chain : List Entry)
        → length chain < fuel
        → 1 ≤ rule.window
        → rule.start_time ≤ rule.timeout
        → Known chain
        → median_time chain < rule.start_time
        → StateAt rule chain ThresholdState.defined
    early-StateAt zero chain f w t k h = absurd (omega arith)
    early-StateAt (suc fuel) [] f w t k h = at_genesis
    early-StateAt (suc fuel) (e ∷ chain) f w t k h =
        subst (λ s. StateAt rule (e ∷ chain) s) (ground arith)
          (after_window e chain ThresholdState.defined (
            early-StateAt fuel (drop rule.window (e ∷ chain))
              (omega (arith, length-drop rule.window (e ∷ chain))) w t
              (tree.closed rule.window (e ∷ chain) k)
              (omega (arith, tree.rising rule.window (e ∷ chain) k))))
