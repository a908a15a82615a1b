-- ===== src/Primitives/Checks/Distinct.antt =====
-- What the loop of `checkSanity` over the keys of the inputs accepts.
use bcoin.Prelude.{
  ◌^◌, ◌<◌, ◌≡◌, ◌≢◌, ◌↔◌, refl, sym, ap, ◌∙◌, none, List, [], ◌∷◌, inl, inr, arith, All,
  Option-cases,
}
use native.Mathlib.Decide.{ℕ_discrete}
use bcoin.Utils.BufferMap.{BufferMap, IsMap}
use bcoin.Coins.View.{Outpoint}
use bcoin.Primitives.Tx.{Input, to_key}
use bcoin.Primitives.Checks.{check_duplicates}

-- No two inputs spend one output.
abbrev pub Distinct : List Input → Type 0
Distinct [] = Unit
Distinct (input ∷ inputs) =
    All (λ (other : Input). other.prevout ≢ input.prevout) inputs × Distinct inputs

-- An index is 32 bits wide.
abbrev pub IsNarrow : Input → Type 0
IsNarrow input = input.prevout.index < 2 ^ 32

to_key-injective :
    (p q : Outpoint) → p.index < 2 ^ 32 → q.index < 2 ^ 32 → to_key p ≡ to_key q → p ≡ q
to_key-injective p q h k e =
    let same_hash : p.hash ≡ q.hash = omega (arith, h, k, e) in
    let same_index : p.index ≡ q.index = omega (arith, h, k, e) in
    λ i. record { hash = same_hash i; index = same_index i }

module _ (keys : BufferMap (Unit {0})) (laws : IsMap keys) where
  abbrev pub Fresh : keys.Map → List Input → Type 0
  Fresh seen inputs = All (λ (i : Input). keys.get (to_key i.prevout) seen ≡ none) inputs

  other_key :
      (seen : keys.Map) (input other : Input)
      → IsNarrow input
      → IsNarrow other
      → (keys.get (to_key other.prevout) (keys.put (to_key input.prevout) tt seen) ≡ none)
        ↔ ((other.prevout ≢ input.prevout) × (keys.get (to_key other.prevout) seen ≡ none))
  other_key seen input other n k = elim (ℕ_discrete (to_key other.prevout) (to_key input.prevout)) [
    | yes e ↦ (
      λ f. cc (laws.get-put_same (to_key input.prevout) tt seen, f, e),
      λ (ne, f). absurd (ne (to_key-injective other.prevout input.prevout k n e)),
    )
    | no ne ↦
        let other_law =
          laws.get-put_other (to_key input.prevout) (to_key other.prevout) tt seen ne in
        (λ f. (λ same. ne (ap to_key same), sym other_law ∙ f), λ (ne', f). other_law ∙ f)
  ]

  Fresh-put :
      (seen : keys.Map) (input : Input) (inputs : List Input)
      → IsNarrow input
      → All IsNarrow inputs
      → Fresh (keys.put (to_key input.prevout) tt seen) inputs
        ↔ (All (λ (other : Input). other.prevout ≢ input.prevout) inputs × Fresh seen inputs)
  Fresh-put seen input [] n ns = (λ f. (tt, tt), λ f. tt)
  Fresh-put seen input (other ∷ inputs) n (k, ns) =
      let rest = Fresh-put seen input inputs n ns in
      let apart = other_key seen input other n k in
      (
        λ (f, fs). let (ne, g) = apart.0 f in let (nes, gs) = rest.0 fs in ((ne, nes), (g, gs)),
        λ ((ne, nes), (g, gs)). (apart.1 (ne, g), rest.1 (nes, gs)),
      )

  pub check_duplicates_lem :
      (seen : keys.Map) (inputs : List Input)
      → All IsNarrow inputs
      → (check_duplicates keys seen inputs ≡ none) ↔ (Fresh seen inputs × Distinct inputs)
  unfolding check_duplicates
  check_duplicates_lem seen [] ns = (λ e. (tt, tt), λ e. refl)
  check_duplicates_lem seen (input ∷ inputs) (n, ns) =
      let ih = check_duplicates_lem (keys.put (to_key input.prevout) tt seen) inputs ns in
      let put = Fresh-put seen input inputs n ns in
      elim (Option-cases (keys.get (to_key input.prevout) seen)) [
        | inl e ↦ (
          λ d.
              let (f, ds) = ih.0 (rw (e, check_duplicates) at d) in
              let (nes, fs) = put.0 f in ((e, fs), (nes, ds)),
          λ ((f, fs), (nes, ds)). rw (e, check_duplicates) (ih.1 (put.1 (nes, fs), ds)),
        )
        | inr (u, e) ↦ (λ d. cc (rw (e, check_duplicates) at d), λ ((f, fs), ds). cc (e, f))
      ]
