-- ===== src/Primitives/Checks/Sanity.antt =====
-- What `checkSanity` accepts, said without its loops.
use bcoin.Prelude.{
  ℕ, ◌≤◌, ◌<◌, ◌≡◌, ◌≢◌, ◌↔◌, refl, ℤ, pos, ◌+ℤ◌, ◌≤ℤ◌, Bool, true, false, not, ◌&&◌, Option, none,
  some, List, [], ◌∷◌, inl, inr, arith, int_laws, ltb, ◌==◌, length, All, Bool-cases, if◌then◌else◌,
}
use bcoin.Utils.BufferMap.{BufferMap, IsMap}
use bcoin.Primitives.Tx.{
  Input, Tx, max_money, max_block_size, max_tx_extra_payload, transaction_coinbase, is_null, to_key,
  is_coinbase, is_quorum_commitment, is_special,
}
use bcoin.Primitives.Checks.{
  check_outputs, check_duplicates, check_null, check_coinbase, check_rest, check_sanity,
  output_value, ◌then_check◌, Verdict, vin_empty, vout_empty, oversize, payload_oversize,
}
use bcoin.Primitives.Checks.Outputs.{Paid, check_outputs_lem}
use bcoin.Primitives.Checks.Distinct.{Distinct, IsNarrow, Fresh, check_duplicates_lem}

check_null_lem :
    (inputs : List Input)
    → (check_null inputs ≡ none) ↔ All (λ (i : Input). is_null i.prevout ≡ false) inputs
unfolding check_null
check_null_lem [] = (λ e. tt, λ e. refl)
check_null_lem (input ∷ inputs) =
    let ih = check_null_lem inputs in
    elim (Bool-cases (is_null input.prevout)) [
      | inl e ↦ (λ d. cc (rw (e, check_null) at d), λ (f, fs). cc (e, f))
      | inr e ↦ (λ d. (e, ih.0 (rw (e, check_null) at d)), λ (f, fs). rw (e, check_null) (ih.1 fs))
    ]

-- A coinbase carries 2 to 100 bytes, from 1 on if it says so by its type; every other transaction
-- spends something.
abbrev pub InputsFit : Tx → List Input → Bool → Type 0
InputsFit tx inputs true =
    All
      (λ (i : Input).
        ((if tx.type == transaction_coinbase then 1 else 2) ≤ length i.script)
        × (length i.script ≤ 100))
      inputs
InputsFit tx inputs false = All (λ (i : Input). is_null i.prevout ≡ false) inputs

abbrev one_null : List Input → Bool
one_null [] = false
one_null (input ∷ inputs) = length inputs == 0 && is_null input.prevout

check_coinbase_lem :
    (tx : Tx) (inputs : List Input)
    → one_null inputs ≡ true
    → (check_coinbase tx inputs ≡ none) ↔ InputsFit tx inputs true
unfolding check_coinbase
check_coinbase_lem tx [] one = cc one
check_coinbase_lem tx (input ∷ []) one = elim (Bool-cases (tx.type == transaction_coinbase)) [
  | inl e ↦ ground arith
  | inr e ↦ ground arith
]
check_coinbase_lem tx (input ∷ other ∷ inputs) one = absurd (ground arith)

then_check_none : (v w : Verdict) → ((v then_check w) ≡ none) ↔ ((v ≡ none) × (w ≡ none))
then_check_none none w = (λ e. (refl, e), λ (e, f). f)
then_check_none (some r) w = (λ e. cc e, λ (e, f). e)

check_last_lem :
    (tx : Tx)
    → ((if is_coinbase tx then check_coinbase tx tx.inputs else check_null tx.inputs) ≡ none)
      ↔ InputsFit tx tx.inputs (is_coinbase tx)
check_last_lem tx = elim (Bool-cases (one_null tx.inputs)) [
  | inl e ↦ rw e (check_coinbase_lem tx tx.inputs e)
  | inr e ↦ rw e (check_null_lem tx.inputs)
]

-- The tests before the loops.
abbrev gate : Bool → Bool → ℕ → ℕ → ℕ → Option ℕ → Verdict → Option Verdict
gate quorum special ins outs size payload rest =
    if not quorum && ins == 0
    then some (some (vin_empty, 100))
    else if not quorum && outs == 0
    then some (some (vout_empty, 100))
    else if ltb max_block_size size
    then some (some (oversize, 100))
    else if special
    then elim payload [
      | none ↦ none
      | some n ↦
          if ltb max_tx_extra_payload n then some (some (payload_oversize, 100)) else some rest
    ]
    else some rest

gate_lem :
    (quorum special : Bool) (ins outs size : ℕ) (payload : Option ℕ) (rest : Verdict)
    → (special ≡ true → payload ≢ none)
    → (gate quorum special ins outs size payload rest ≡ some none) ↔ (
        (quorum ≡ false → (0 < ins) × (0 < outs))
        × (size ≤ max_block_size)
        × (special ≡ true → (n : ℕ) → payload ≡ some n → n ≤ max_tx_extra_payload)
        × (rest ≡ none))
gate_lem true true ins outs size none rest has = absurd (has refl refl)
gate_lem false true ins outs size none rest has = absurd (has refl refl)
gate_lem true true ins outs size (some n) rest has = (
  λ e. (λ q. cc q, ground arith, λ s m p. ground arith, ground arith),
  λ (q, h, p, r). let small = p refl n refl in ground arith,
)
gate_lem false true ins outs size (some n) rest has = (
  λ e. (λ q. ground arith, ground arith, λ s m p. ground arith, ground arith),
  λ (q, h, p, r). let small = p refl n refl in let full = q refl in ground arith,
)
gate_lem true false ins outs size payload rest has =
    (λ e. (λ q. cc q, ground arith, λ s. cc s, ground arith), λ (q, h, p, r). ground arith)
gate_lem false false ins outs size payload rest has = (
  λ e. (λ q. ground arith, ground arith, λ s. cc s, ground arith),
  λ (q, h, p, r). let full = q refl in ground arith,
)

-- A transaction that is sane by itself.
abbrev pub IsSane : Tx → Type 0
IsSane tx =
    (is_quorum_commitment tx ≡ false → (0 < length tx.inputs) × (0 < length tx.outputs))
    × (tx.size ≤ max_block_size)
    × (is_special tx ≡ true → (n : ℕ) → tx.extra_payload ≡ some n → n ≤ max_tx_extra_payload)
    × Paid tx.outputs
    × (output_value tx.outputs ≤ℤ max_money)
    × Distinct tx.inputs
    × InputsFit tx tx.inputs (is_coinbase tx)

module _ (keys : BufferMap (Unit {0})) (laws : IsMap keys) where
  abbrev Flows : Tx → Type 0
  Flows tx =
      Paid tx.outputs
      × (output_value tx.outputs ≤ℤ max_money)
      × Distinct tx.inputs
      × InputsFit tx tx.inputs (is_coinbase tx)

  Fresh-empty : (inputs : List Input) → Fresh keys laws keys.empty inputs
  Fresh-empty [] = tt
  Fresh-empty (input ∷ inputs) = (laws.get-empty (to_key input.prevout), Fresh-empty inputs)

  from_zero : (v : ℤ) → pos 0 +ℤ v ≡ v
  from_zero v = omega int_laws

  check_rest_lem : (tx : Tx) → All IsNarrow tx.inputs → (check_rest keys tx ≡ none) ↔ Flows tx
  unfolding check_rest
  check_rest_lem tx ns =
      let outs = check_outputs_lem (pos 0) tx.outputs (omega arith) (omega arith) in
      let dups = check_duplicates_lem keys laws keys.empty tx.inputs ns in
      let last = check_last_lem tx in
      let first = then_check_none (check_outputs (pos 0) tx.outputs) (
        check_duplicates keys keys.empty tx.inputs
        then_check (if is_coinbase tx
            then check_coinbase tx tx.inputs
            else check_null tx.inputs)) in
      let second =
        then_check_none (check_duplicates keys keys.empty tx.inputs)
          (if is_coinbase tx then check_coinbase tx tx.inputs else check_null tx.inputs) in
      (
        λ e.
            let (o, e') = first.0 e in
            let (d, l) = second.0 e' in
            let (paid, sum) = outs.0 o in
            (paid, rw (from_zero (output_value tx.outputs)) at sum, (dups.0 d).1, last.0 l),
        λ (paid, sum, ds, l). first.1 (
          outs.1 (paid, rw (from_zero (output_value tx.outputs)) sum),
          second.1 (dups.1 (Fresh-empty tx.inputs, ds), last.1 l),
        ),
      )

  -- Over a set of keys with the laws of one, `checkSanity` accepts a transaction whose indices are
  -- 32 bits wide, and which has a payload if it is special, exactly when: it has inputs and
  -- outputs, unless it is a quorum commitment; it and its payload are no larger than allowed; no
  -- output is negative and together they pay no more than all the money; no two inputs spend one
  -- output; and a coinbase carries 2 to 100 bytes (1 to 100 if typed as one), while all other
  -- transactions have no null input.
  pub check_sanity_lem :
      (tx : Tx)
      → All IsNarrow tx.inputs
      → (is_special tx ≡ true → tx.extra_payload ≢ none)
      → (check_sanity keys tx ≡ some none) ↔ IsSane tx
  unfolding check_sanity
  check_sanity_lem tx ns has =
      let rest = check_rest_lem tx ns in
      let all =
        gate_lem (is_quorum_commitment tx) (is_special tx) (length tx.inputs) (length tx.outputs)
          tx.size tx.extra_payload (check_rest keys tx) has in
      (
        λ e.
            let (full, small, payload, r) = all.0 e in
            let (paid, sum, ds, l) = rest.0 r in (full, small, payload, paid, sum, ds, l),
        λ (full, small, payload, paid, sum, ds, l).
            all.1 (full, small, payload, rest.1 (paid, sum, ds, l)),
      )
