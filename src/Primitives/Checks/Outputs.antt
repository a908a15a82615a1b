-- ===== src/Primitives/Checks/Outputs.antt =====
-- What the loop of `checkSanity` over the outputs accepts.
use bcoin.Prelude.{
  ◌≡◌, ◌↔◌, refl, ℤ, pos, negsuc, is_neg_ℤ, ◌+ℤ◌, ◌≤ℤ◌, true, not, none, some, List, [], ◌∷◌, arith,
  int_laws, All, if◌then◌else◌,
}
use bcoin.Coins.{Output}
use bcoin.Primitives.Tx.{max_money, money_range}
use bcoin.Primitives.Checks.{
  check_outputs, output_value, Verdict, vout_negative, vout_toolarge, txouttotal_toolarge,
}

abbrev InRange : ℤ → Type 0
InRange v = (pos 0 ≤ℤ v) × (v ≤ℤ max_money)

money_range_lem : (v : ℤ) → (money_range v ≡ true) ↔ InRange v
money_range_lem v = ground arith

-- The three tests of an amount and of the total up to it.
guarded :
    (v t : ℤ) (rest : Verdict)
    → (pos 0 ≤ℤ v → pos 0 ≤ℤ t)
    → ((if is_neg_ℤ v
          then some (vout_negative, 100)
          else if not (money_range v)
          then some (vout_toolarge, 100)
          else if not (money_range t)
          then some (txouttotal_toolarge, 100)
          else rest)
        ≡ none)
      ↔ (InRange v × (t ≤ℤ max_money) × (rest ≡ none))
guarded (negsuc v) t rest h = (λ e. cc e, λ ((low, high), all, r). absurd (omega (arith, low)))
guarded (pos v) (negsuc t) rest h = absurd (omega (arith, h (omega arith)))
guarded (pos v) (pos t) rest h = ground arith

-- The first step of the loop over the outputs.
check_outputs-step :
    (total : ℤ) (o : Output) (outputs : List Output)
    → pos 0 ≤ℤ total
    → (check_outputs total (o ∷ outputs) ≡ none) ↔ (
        InRange o.value
        × ((total +ℤ o.value) ≤ℤ max_money)
        × (check_outputs (total +ℤ o.value) outputs ≡ none))
unfolding check_outputs
check_outputs-step total o outputs h =
    guarded o.value (total +ℤ o.value) (check_outputs (total +ℤ o.value) outputs)
      (λ v. omega (int_laws, h, v))

abbrev pub Paid : List Output → Type 0
Paid outputs = All (λ (o : Output). pos 0 ≤ℤ o.value) outputs

pub output_value-Paid : (outputs : List Output) → Paid outputs → pos 0 ≤ℤ output_value outputs
output_value-Paid [] paid = omega arith
output_value-Paid (o ∷ outputs) (v, paid) = omega (int_laws, v, output_value-Paid outputs paid)

-- The outputs pay no negative amount, and together no more than there is.
pub check_outputs_lem :
    (total : ℤ) (outputs : List Output)
    → pos 0 ≤ℤ total
    → total ≤ℤ max_money
    → (check_outputs total outputs ≡ none)
      ↔ (Paid outputs × (total +ℤ output_value outputs ≤ℤ max_money))
unfolding check_outputs
check_outputs_lem total [] h t = (λ e. (tt, omega (int_laws, t)), λ e. refl)
check_outputs_lem total (o ∷ outputs) h t =
    let step = check_outputs-step total o outputs h in
    (
      λ e.
          let ((low, high), sum, rest) = step.0 e in
          let (paid, all) =
            (check_outputs_lem (total +ℤ o.value) outputs (omega (int_laws, h, low)) sum).0 rest in
          ((low, paid), omega (int_laws, all)),
      λ ((low, paid), all).
          let more = output_value-Paid outputs paid in
          let sum : total +ℤ o.value ≤ℤ max_money = omega (int_laws, all, more) in
          step.1 (
            (low, omega (int_laws, h, all, more)),
            sum,
            (check_outputs_lem (total +ℤ o.value) outputs (omega (int_laws, h, low)) sum).1
                (paid, omega (int_laws, all)),
          ),
    )
