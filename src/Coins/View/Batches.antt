-- ===== src/Coins/View/Batches.antt =====
-- Spending the inputs of a transaction, four at a time: `spendInputs` of lib/coins/coinview.js.
use bcoin.Prelude.{
  ℕ, zero, suc, ◌≤◌, ◌≡◌, refl, sym, ap, ◌∙◌, Bool, true, false, ◌&&◌, Option, List, [], ◌∷◌, map,
  arith, ◌==◌, length, take, drop, length-drop, All, Bool-cases, inl, inr,
}
use bcoin.Utils.BufferMap.{BufferMap, IsMap}
use bcoin.Coins.{CoinEntry, Coins}
use bcoin.Coins.View.{Outpoint, View, get_entry, read_batch, mark_all, spend_rounds, spend_inputs}
use bcoin.Coins.View.Spending.{IsValid}
use bcoin.Coins.View.Distinct.{
  NotIn, AreDistinct, NotIn-take, NotIn-drop, AreDistinct-take, AreDistinct-drop, first_apart,
  last_apart, All-join, All-both, All-Unit, and_assoc,
}
use bcoin.Coins.View.Loading.{is_available, all_available, clash, read_batch-HasLoaded}
use bcoin.Coins.View.Marking.{mark_all-HasMarked}

not_empty : (n : ℕ) → (suc n == 0) ≡ false
not_empty n = ground arith

All-refl :
    (maps : BufferMap Coins) (view : View maps) (ps : List Outpoint)
    → All (λ p. get_entry maps p view ≡ get_entry maps p view) ps
All-refl maps view [] = tt
All-refl maps view (p ∷ ps) = (refl, All-refl maps view ps)

module _ (maps : BufferMap Coins) (laws : IsMap maps) (db : Outpoint → Option CoinEntry) where
  all_split :
      (k : ℕ) (view : View maps) (ps : List Outpoint)
      → all_available maps laws db view ps ≡ (
          all_available maps laws db view (take k ps)
          && all_available maps laws db view (drop k ps))
  all_split zero view ps = refl
  all_split (suc k) view [] = refl
  all_split (suc k) view (p ∷ ps) =
      and_assoc (is_available maps laws db view p) (all_available maps laws db view (take k ps))
        (all_available maps laws db view (drop k ps)) (all_split k view ps)

  agree_on :
      (P : Outpoint → Type 0) (ps : List Outpoint) (view view' : View maps)
      → ((q : Outpoint)
          → P q
          → is_available maps laws db view' q ≡ is_available maps laws db view q)
      → All P ps
      → all_available maps laws db view' ps ≡ all_available maps laws db view ps
  agree_on P [] view view' f a = refl
  agree_on P (p ∷ ps) view view' f (x, a) = λ i. f p x i && agree_on P ps view view' f a i

  -- What spending the inputs leaves.
  pub record HasSpent (ps : List Outpoint) (view view' : View maps) : Type 0 where
    pub is_view : IsValid maps view'
    pub unchanged :
        (q : Outpoint)
        → NotIn q ps
        → is_available maps laws db view' q ≡ is_available maps laws db view q
    pub spent :
        all_available maps laws db view ps ≡ true
        → All (λ p. is_available maps laws db view' p ≡ false) ps

  abbrev pub Spends : List Outpoint → View maps → Bool × View maps → Type 0
  Spends ps view o =
      (view' : View maps) × (o ≡ (all_available maps laws db view ps, view'))
      × HasSpent ps view view'

  -- One batch: the coins are read, then marked.
  batch-Spends :
      (ps : List Outpoint) (view : View maps)
      → IsValid maps view
      → AreDistinct ps
      → (coins : List (Option ℕ)) × (view1 : View maps) × (read_batch maps db
            (map (λ p. (p, get_entry maps p view)) ps)
            view
          ≡ (coins, view1))
        × Spends ps view (mark_all maps db coins view1)
  batch-Spends ps view v d =
      let (coins, view1, e, h) =
        read_batch-HasLoaded maps laws db ps view view v d (All-refl maps view ps) in
      let (view2, e', h') = mark_all-HasMarked maps laws db ps view1 h.still_valid d h.are_loaded in
      let same : all_available maps laws db view1 ps ≡ all_available maps laws db view ps =
        agree_on (λ q. Unit {0}) ps view view1 (λ q u. h.are_same q) (All-Unit ps) in
      (
        coins,
        view1,
        e,
        (
          view2,
          ap (λ t. mark_all maps db t view1) h.are_entries ∙ e' ∙ (λ i. (same i, view2)),
          record {
            is_view = h'.marked_valid;
            unchanged = λ q n. h'.other_same q n ∙ h.are_same q;
            spent = λ t. h'.are_spent (same ∙ t);
          },
        ),
      )

  -- The first four inputs, and then the others.
  join-HasSpent :
      (ps : List Outpoint) (view view2 view3 : View maps)
      → AreDistinct ps
      → all_available maps laws db view (take 4 ps) ≡ true
      → all_available maps laws db view2 (drop 4 ps) ≡ all_available maps laws db view ps
      → HasSpent (take 4 ps) view view2
      → HasSpent (drop 4 ps) view2 view3
      → HasSpent ps view view3
  join-HasSpent ps view view2 view3 d t result h h' = record {
    is_view = h'.is_view;
    unchanged = λ q n. h'.unchanged q (NotIn-drop 4 q ps n) ∙ h.unchanged q (NotIn-take 4 q ps n);
    spent = λ s.
        All-join (λ q. is_available maps laws db view3 q ≡ false) 4 ps
          (All-both (λ q. NotIn q (drop 4 ps)) (λ q. is_available maps laws db view2 q ≡ false)
            (λ q. is_available maps laws db view3 q ≡ false) (take 4 ps)
            (λ q n u. h'.unchanged q n ∙ u) (first_apart 4 ps d) (h.spent t))
          (h'.spent (result ∙ s));
  }

  abbrev rounds : ℕ → List Outpoint → View maps → Bool × View maps
  rounds fuel ps view = spend_rounds maps db fuel ps view

  rounds_bad :
      (fuel : ℕ) (ps : List Outpoint) (view view1 view2 : View maps) (coins : List (Option ℕ))
      → (length ps == 0) ≡ false
      → read_batch maps db (map (λ p. (p, get_entry maps p view)) (take 4 ps)) view ≡ (coins, view1)
      → mark_all maps db coins view1 ≡ (false, view2)
      → rounds (suc fuel) ps view ≡ (false, view2)
  unfolding spend_rounds
  rounds_bad fuel ps view view1 view2 coins n e e' = rw (spend_rounds, e, e', n) refl

  rounds_good :
      (fuel : ℕ) (ps : List Outpoint) (view view1 view2 : View maps) (coins : List (Option ℕ))
      → (length ps == 0) ≡ false
      → read_batch maps db (map (λ p. (p, get_entry maps p view)) (take 4 ps)) view ≡ (coins, view1)
      → mark_all maps db coins view1 ≡ (true, view2)
      → rounds (suc fuel) ps view ≡ rounds fuel (drop 4 ps) view2
  unfolding spend_rounds
  rounds_good fuel ps view view1 view2 coins n e e' = rw (spend_rounds, e, e', n) refl

  rounds_end : (fuel : ℕ) (view : View maps) → rounds fuel [] view ≡ (true, view)
  unfolding spend_rounds
  rounds_end zero view = refl
  rounds_end (suc fuel) view = refl

  -- A batch and the rounds after it.
  rounds-step :
      (fuel : ℕ) (p : Outpoint) (ps : List Outpoint) (view : View maps)
      → IsValid maps view
      → AreDistinct (p ∷ ps)
      → ((view2 : View maps)
          → IsValid maps view2
          → Spends (drop 4 (p ∷ ps)) view2 (rounds fuel (drop 4 (p ∷ ps)) view2))
      → Spends (p ∷ ps) view (rounds (suc fuel) (p ∷ ps) view)
  rounds-step fuel p ps view v d ih =
      let (coins, view1, e, (view2, e', h)) =
        batch-Spends (take 4 (p ∷ ps)) view v (AreDistinct-take 4 (p ∷ ps) d) in
      let whole = all_split 4 view (p ∷ ps) in
      elim (Bool-cases (all_available maps laws db view (take 4 (p ∷ ps)))) [
        | inr f ↦
            let no : all_available maps laws db view (p ∷ ps) ≡ false =
              whole ∙ (λ i. f i && all_available maps laws db view (drop 4 (p ∷ ps))) in
            (
              view2,
              rounds_bad fuel (p ∷ ps) view view1 view2 coins (not_empty (length ps)) e
                    (e' ∙ (λ i. (f i, view2)))
                  ∙ sym (λ i. (no i, view2)),
              record {
                is_view = h.is_view;
                unchanged = λ q n. h.unchanged q (NotIn-take 4 q (p ∷ ps) n);
                spent = λ t. absurd (clash no t);
              },
            )
        | inl t ↦
            let (view3, e'', h') = ih view2 h.is_view in
            let agree : all_available maps laws db view2 (drop 4 (p ∷ ps))
                ≡ all_available maps laws db view (drop 4 (p ∷ ps)) =
              agree_on (λ q. NotIn q (take 4 (p ∷ ps))) (drop 4 (p ∷ ps)) view view2 h.unchanged
                (last_apart 4 (p ∷ ps) d) in
            let result : all_available maps laws db view2 (drop 4 (p ∷ ps))
                ≡ all_available maps laws db view (p ∷ ps) =
              agree
              ∙ sym (whole ∙ (λ i. t i && all_available maps laws db view (drop 4 (p ∷ ps)))) in
            (
              view3,
              rounds_good fuel (p ∷ ps) view view1 view2 coins (not_empty (length ps)) e
                    (e' ∙ (λ i. (t i, view2)))
                  ∙ e''
                  ∙ (λ i. (result i, view3)),
              join-HasSpent (p ∷ ps) view view2 view3 d t result h h',
            )
      ]

  rounds-Spends :
      (fuel : ℕ) (ps : List Outpoint) (view : View maps)
      → length ps ≤ fuel
      → IsValid maps view
      → AreDistinct ps
      → Spends ps view (rounds fuel ps view)
  rounds-Spends fuel [] view l v d =
      (view, rounds_end fuel view, record { is_view = v; unchanged = λ q n. refl; spent = λ t. tt })
  rounds-Spends zero (p ∷ ps) view l v d = absurd (omega arith)
  rounds-Spends (suc fuel) (p ∷ ps) view l v d = rounds-step fuel p ps view v d (λ view2 v2.
      rounds-Spends fuel (drop 4 (p ∷ ps)) view2 (omega (arith, l, length-drop 3 ps)) v2
        (AreDistinct-drop 4 (p ∷ ps) d))

-- In a valid view, on distinct inputs, `spendInputs` ends, with a valid view. It answers true exactly
-- if each coin is available: it is unspent in the view, or the view does not have it and the
-- database has it unspent. Where it answers true, none of them is available any more. The other
-- coins are as available as before, whatever the answer.
pub spend_inputs-Spends :
    (maps : BufferMap Coins) (db : Outpoint → Option CoinEntry) (inputs : List Outpoint)
    (view : View maps) (laws : IsMap maps)
    → IsValid maps view
    → AreDistinct inputs
    → Spends maps laws db inputs view (spend_inputs maps db inputs view)
unfolding spend_inputs
spend_inputs-Spends maps db inputs view laws v d =
    rounds-Spends maps laws db (length inputs) inputs view (omega arith) v d
