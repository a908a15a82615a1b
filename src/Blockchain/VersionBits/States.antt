-- ===== src/Blockchain/VersionBits/States.antt =====
-- The state of a deployment by BIP9, window after window from the genesis block, without the cache
-- and the shortcuts of `getState` in lib/blockchain/chain.js.
use bcoin.Prelude.{
  ℕ, zero, suc, ◌+◌, ◌≤◌, ◌<◌, ◌≡◌, refl, sym, ap, ◌∙◌, Bool, true, Option, none, some, List, [],
  ◌∷◌, arith, leb, ◌==◌, if◌then◌else◌, length, length-drop, drop, take, Bool-cases, inl, inr,
}
use bcoin.Blockchain.StateCache.{ThresholdState}
use bcoin.Blockchain.VersionBits.{Entry, Rule, has_bit, median_time, count_loop, next_state}

-- The entries of a list that signal the bit.
abbrev pub signals : ℕ → List Entry → ℕ
signals bit [] = 0
signals bit (e ∷ chain) = if has_bit e.version bit then signals bit chain + 1 else signals bit chain

-- The state after a window that ends at an entry, from the state before it.
abbrev pub transition : Rule → ThresholdState → List Entry → ThresholdState
transition rule ThresholdState.defined chain =
    if leb rule.timeout (median_time chain)
    then ThresholdState.failed
    else if leb rule.start_time (median_time chain)
    then ThresholdState.started
    else ThresholdState.defined
transition rule ThresholdState.started chain =
    if leb rule.timeout (median_time chain)
    then ThresholdState.failed
    else if leb rule.threshold (signals rule.bit (take rule.window chain))
    then ThresholdState.locked_in
    else ThresholdState.started
transition rule ThresholdState.locked_in chain = ThresholdState.active
transition rule ThresholdState.active chain = ThresholdState.active
transition rule ThresholdState.failed chain = ThresholdState.failed

-- The state at an entry; before the first window it is DEFINED.
pub data StateAt (rule : Rule) : List Entry → ThresholdState → Type 0 where
  at_genesis : StateAt rule [] ThresholdState.defined
  after_window :
      (e : Entry) (chain : List Entry) (state : ThresholdState)
      → StateAt rule (drop rule.window (e ∷ chain)) state
      → StateAt rule (e ∷ chain) (transition rule state (e ∷ chain))

-- A started deployment has a window behind it.
pub started-nonempty :
    (rule : Rule) (chain : List Entry) (state : ThresholdState)
    → StateAt rule chain state
    → state ≡ ThresholdState.started
    → 1 ≤ length chain
started-nonempty rule _ _ (at_genesis) e = cc
started-nonempty rule _ _ (after_window x chain state s) e = omega arith

drop-nonempty : (n : ℕ) (chain : List Entry) → 1 ≤ length (drop n chain) → n < length chain
drop-nonempty zero chain h = h
drop-nonempty (suc n) [] h = absurd (omega arith)
drop-nonempty (suc n) (e ∷ chain) h = omega (arith, drop-nonempty n chain h)

round_lem :
    (threshold count more len : ℕ) (rest : Option Bool)
    → 1 ≤ len
    → (count < threshold → rest ≡ some (leb threshold (count + more)))
    → (if leb threshold count then some true else if len == 0 then none else rest)
      ≡ some (leb threshold (count + more))
round_lem threshold count more len rest h later = elim (Bool-cases (leb threshold count)) [
  | inl e ↦ rw e (ground arith)
  | inr e ↦ rw e (ground (arith, later (ground arith)))
]

-- The loop stops early at the threshold; over a window with an entry before it, the result is that
-- of counting all of it.
count_loop_lem :
    (rule : Rule) (n : ℕ) (chain : List Entry) (count : ℕ)
    → n < length chain
    → count < rule.threshold
    → count_loop rule n chain count
      ≡ some (leb rule.threshold (count + signals rule.bit (take n chain)))
unfolding count_loop
count_loop_lem rule zero chain count h b = ground arith
count_loop_lem rule (suc n) [] count h b = absurd (omega arith)
count_loop_lem rule (suc n) (e ∷ chain) count h b = elim (Bool-cases (has_bit e.version rule.bit)) [
  | inl s ↦ rw s (
      round_lem rule.threshold (count + 1) (signals rule.bit (take n chain)) (length chain)
        (count_loop rule n chain (count + 1)) (omega arith)
        (λ m. count_loop_lem rule n chain (count + 1) (omega arith) m)
      ∙ ap (λ t. some (leb rule.threshold t)) (omega arith))
  | inr s ↦ rw s (
      round_lem rule.threshold count (signals rule.bit (take n chain)) (length chain)
        (count_loop rule n chain count) (omega arith)
        (λ m. count_loop_lem rule n chain count (omega arith) m))
]

-- The switch makes the transition, and its assertion holds, where the state before is that of the
-- entry one window back.
pub next_state_lem :
    (rule : Rule) (state : ThresholdState) (chain : List Entry)
    → 1 ≤ rule.threshold
    → StateAt rule (drop rule.window chain) state
    → next_state rule state chain ≡ some (transition rule state chain)
unfolding next_state
next_state_lem rule ThresholdState.defined chain h s = ground arith
next_state_lem rule ThresholdState.started chain h s =
    rw
      (count_loop_lem rule rule.window chain 0
        (drop-nonempty rule.window chain (started-nonempty rule _ _ s refl)) (omega arith))
      (ground arith)
next_state_lem rule ThresholdState.locked_in chain h s = refl
next_state_lem rule ThresholdState.active chain h s = refl
next_state_lem rule ThresholdState.failed chain h s = refl

abbrev state_by : Rule → ℕ → List Entry → ThresholdState
state_by rule zero chain = ThresholdState.defined
state_by rule (suc fuel) [] = ThresholdState.defined
state_by rule (suc fuel) (e ∷ chain) =
    transition rule (state_by rule fuel (drop rule.window (e ∷ chain))) (e ∷ chain)

StateAt-state_by :
    (rule : Rule) (chain : List Entry) (state : ThresholdState) (fuel : ℕ)
    → 1 ≤ rule.window
    → StateAt rule chain state
    → length chain < fuel
    → state ≡ state_by rule fuel chain
StateAt-state_by rule _ _ zero w s h = absurd (omega arith)
StateAt-state_by rule _ _ (suc fuel) w (at_genesis) h = refl
StateAt-state_by rule _ _ (suc fuel) w (after_window e chain state s) h =
    ap (λ t. transition rule t (e ∷ chain))
      (StateAt-state_by rule (drop rule.window (e ∷ chain)) state fuel w s
        (omega (arith, length-drop rule.window (e ∷ chain))))

pub StateAt-unique :
    (rule : Rule) (chain : List Entry) (state state' : ThresholdState)
    → 1 ≤ rule.window
    → StateAt rule chain state
    → StateAt rule chain state'
    → state ≡ state'
StateAt-unique rule chain state state' w s s' =
    StateAt-state_by rule chain state (length chain + 1) w s (omega arith)
    ∙ sym (StateAt-state_by rule chain state' (length chain + 1) w s' (omega arith))
