-- ===== src/Primitives/Checks/Inputs.antt =====
-- What `checkInputs` accepts, and the fee that it returns.
use bcoin.Prelude.{
  ℕ, ◌≡◌, ◌⊎◌, ◌↔◌, refl, sym, ap, ◌∙◌, ℤ, pos, negsuc, ◌+ℤ◌, ◌-ℤ◌, ◌≤ℤ◌, ltb_ℤ, Bool, true, false,
  not, ◌&&◌, ◌||◌, Option, none, some, List, [], ◌∷◌, inl, inr, arith, int_laws, All, Option-cases,
  if◌then◌else◌,
}
use bcoin.Utils.BufferMap.{BufferMap}
use bcoin.Coins.{CoinEntry, Coins}
use bcoin.Coins.View.{View, get_entry}
use bcoin.Primitives.Tx.{Input, Tx, max_money, coinbase_maturity, money_range}
use bcoin.Primitives.Checks.{
  Reason, premature_spend, inputvalues_outofrange, entry_at, settle, sum_inputs, check_inputs,
  output_value,
}
use bcoin.Primitives.Checks.Outputs.{Paid, output_value-Paid}

-- A coin that may be spent at a height.
abbrev pub IsRipe : ℤ → CoinEntry → Type 0
IsRipe height entry =
    (entry.coinbase ≡ true → pos coinbase_maturity ≤ℤ height -ℤ entry.height)
    × (pos 0 ≤ℤ entry.output.value)

-- The tests of one coin and of the total up to it.
ripe_lem :
    (coinbase : Bool) (age v t r : ℤ) (rest : (Reason × ℕ) ⊎ ℤ)
    → (pos 0 ≤ℤ v → (pos 0 ≤ℤ t) × (v ≤ℤ t))
    → ((if coinbase && ltb_ℤ age (pos coinbase_maturity)
          then inl (premature_spend, 0)
          else if not (money_range v) || not (money_range t)
          then inl (inputvalues_outofrange, 100)
          else rest)
        ≡ inr r)
      ↔ ((coinbase ≡ true → pos coinbase_maturity ≤ℤ age)
          × (pos 0 ≤ℤ v)
          × (t ≤ℤ max_money)
          × (rest ≡ inr r))
ripe_lem true age (negsuc v) t r rest h =
    (λ e. ground arith, λ (a, low, m, rs). absurd (omega (arith, low)))
ripe_lem false age (negsuc v) t r rest h =
    (λ e. ground arith, λ (a, low, m, rs). absurd (omega (arith, low)))
ripe_lem b age (pos v) (negsuc t) r rest h = absurd (omega (arith, (h (omega arith)).0))
ripe_lem false age (pos v) (pos t) r rest h =
    let (low, high) = h (omega arith) in
    (λ e. (λ c. cc c, omega arith, ground arith, ground arith), λ (a, l, m, e). ground arith)
ripe_lem true age (pos v) (pos t) r rest h =
    let (low, high) = h (omega arith) in
    (
      λ e. (λ c. ground arith, omega arith, ground arith, ground arith),
      λ (a, l, m, e). let old = a refl in ground arith,
    )

sum-cases : (x : (Reason × ℕ) ⊎ ℤ) → ((r : Reason × ℕ) × (x ≡ inl r)) ⊎ ((t : ℤ) × (x ≡ inr t))
sum-cases (inl r) = inl (r, refl)
sum-cases (inr t) = inr (t, refl)

-- The tests of the fee.
fee_lem :
    (total value fee : ℤ)
    → pos 0 ≤ℤ value
    → total ≤ℤ max_money
    → (settle total value ≡ inr fee) ↔ ((value ≤ℤ total) × (fee ≡ total -ℤ value))
unfolding settle ◌-ℤ◌
fee_lem total (negsuc v) fee low high = absurd (omega (arith, low))
fee_lem (negsuc t) (pos v) fee low high = ground arith
fee_lem (pos t) (pos v) fee low high = ground arith

module _ (maps : BufferMap Coins) (view : View maps) (height : ℤ) where
  abbrev pub coin_of : Input → Option CoinEntry
  coin_of input = entry_at view.heap (get_entry maps input.prevout view)

  abbrev pub Ripe : List Input → Type 0
  Ripe inputs =
      All (λ (i : Input). (entry : CoinEntry) × (coin_of i ≡ some entry) × IsRipe height entry)
        inputs

  abbrev amount : Option CoinEntry → ℤ
  amount none = pos 0
  amount (some entry) = entry.output.value

  -- What the coins are worth that the inputs spend.
  abbrev pub input_total : List Input → ℤ
  input_total [] = pos 0
  input_total (input ∷ inputs) = amount (coin_of input) +ℤ input_total inputs

  input_total-Ripe : (inputs : List Input) → Ripe inputs → pos 0 ≤ℤ input_total inputs
  input_total-Ripe [] ripe = omega arith
  input_total-Ripe (input ∷ inputs) ((entry, e, (a, low)), ripe) =
      rw e (omega (int_laws, low, input_total-Ripe inputs ripe))

  zero_right : (v : ℤ) → v +ℤ pos 0 ≡ v
  zero_right v = omega int_laws

  zero_left : (v : ℤ) → pos 0 +ℤ v ≡ v
  zero_left v = omega int_laws

  sum_inputs_lem :
      (total t : ℤ) (inputs : List Input)
      → pos 0 ≤ℤ total
      → total ≤ℤ max_money
      → (sum_inputs maps view height total inputs ≡ inr t) ↔ (
          Ripe inputs
          × (total +ℤ input_total inputs ≤ℤ max_money)
          × (t ≡ total +ℤ input_total inputs))
  unfolding sum_inputs
  sum_inputs_lem total t [] low high = (
    λ e. (tt, omega (int_laws, high), cc e ∙ sym (zero_right total)),
    λ (r, s, e). ap inr (sym (e ∙ zero_right total)),
  )
  sum_inputs_lem total t (input ∷ inputs) low high = elim (Option-cases (coin_of input)) [
    | inl e ↦ (λ s. cc (rw (e, sum_inputs) at s), λ (((entry, f, ripe), rs), m, s). cc (e, f))
    | inr (entry, e) ↦
        let v = entry.output.value in
        let step =
          ripe_lem entry.coinbase (height -ℤ entry.height) v (total +ℤ v) t
            (sum_inputs maps view height (total +ℤ v) inputs)
            (λ h. (omega (int_laws, h, low), omega (int_laws, h, low))) in
        let ih = sum_inputs_lem (total +ℤ v) t inputs in
        (
          λ s.
              let (old, l, m, rest) = step.0 (rw (e, sum_inputs) at s) in
              let (ripe, all, sum) = (ih (omega (int_laws, low, l)) m).0 rest in
              (
                ((entry, e, (old, l)), ripe),
                rw e (omega (int_laws, all)),
                sum ∙ rw e (omega int_laws),
              ),
          λ (((entry', e', (old, l)), ripe), all, sum).
              let same : entry' ≡ entry = cc (e, e') in
              let all' = rw e at all in
              let m : total +ℤ v ≤ℤ max_money =
                omega (int_laws, all', input_total-Ripe inputs ripe) in
              let l' : pos 0 ≤ℤ v = rw same at l in
              rw (e, sum_inputs)
                (step.1 (
                  rw same at old,
                  l',
                  m,
                  (ih (omega (int_laws, low, l')) m).1
                      (ripe, omega (int_laws, all'), sum ∙ rw e (omega int_laws)),
                )),
        )
  ]

  -- For a transaction whose outputs are not negative, as `checkSanity` requires, `checkInputs`
  -- returns a fee exactly when each input spends a coin of the view, each coinbase among the coins
  -- is 100 blocks deep, no coin is negative, all coins together are within the money there is, and
  -- they cover the outputs; the fee is what they are worth above the outputs.
  pub check_inputs_lem :
      (tx : Tx) (fee : ℤ)
      → Paid tx.outputs
      → (check_inputs maps view height tx ≡ inr fee) ↔ (
          Ripe tx.inputs
          × (input_total tx.inputs ≤ℤ max_money)
          × (output_value tx.outputs ≤ℤ input_total tx.inputs)
          × (fee ≡ input_total tx.inputs -ℤ output_value tx.outputs))
  unfolding check_inputs
  check_inputs_lem tx fee paid =
      let sum = λ (t : ℤ). sum_inputs_lem (pos 0) t tx.inputs (omega arith) (omega arith) in
      elim (sum-cases (sum_inputs maps view height (pos 0) tx.inputs)) [
        | inl (r, e) ↦ (
          λ c. cc (rw (e, check_inputs) at c),
          λ (ripe, high, cover, same). cc (
            e,
            (sum (pos 0 +ℤ input_total tx.inputs)).1
                (ripe, rw (zero_left (input_total tx.inputs)) high, refl),
          ),
        )
        | inr (t, e) ↦
            let (ripe, high, same) = (sum t).0 e in
            let worth : t ≡ input_total tx.inputs = same ∙ zero_left (input_total tx.inputs) in
            let high' : t ≤ℤ max_money = rw (sym same) at high in
            let fees =
              fee_lem t (output_value tx.outputs) fee (output_value-Paid tx.outputs paid) high' in
            (
              λ c.
                  let (cover, f) = fees.0 (rw (e, check_inputs) at c) in
                  (ripe, rw worth at high', rw worth at cover, rw worth at f),
              λ (r, h, cover, f). rw (e, check_inputs) (fees.1 (rw worth cover, rw worth f)),
            )
      ]
