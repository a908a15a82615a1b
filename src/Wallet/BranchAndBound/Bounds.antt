-- ===== src/Wallet/BranchAndBound/Bounds.antt =====
-- The search of `selectBnB` in lib/wallet/coinselector.js: its invariant, and what it finds.
use bcoin.Prelude.{
  ℕ, zero, suc, ◌+◌, ◌≤◌, ◌<◌, ◌≡◌, refl, sym, ◌∙◌, ap, ◌⊎◌, inl, inr, ℤ, pos, ◌+ℤ◌, ◌-ℤ◌, ltb_ℤ,
  leb_ℤ, if◌then◌else◌, ◌≤ℤ◌, int_laws, Bool, true, false, not, ◌||◌, Option, some, List, [], ◌∷◌,
  arith, ltb, ◌==◌, is_zero_ℤ, length, get_elem?, drop, Bool-cases,
}
use mathlib.Core.Path.{subst}
use bcoin.Prelude.Int.{ltb_ℤ-true, ltb_ℤ-false, leb_ℤ-true, not_leb}
use native.Mathlib.Decide.{dec_lt}
use bcoin.Utils.Binary.Search.{get_elem?-lt}
use bcoin.Wallet.CoinSelector.{CoinPointer, Options, get_waste, total_value}
use bcoin.Wallet.CoinSelector.Selected.{
  Selects, Selects-mono, Selects-push, drop_at, drop_all, get_waste_ends,
}
use bcoin.Wallet.BranchAndBound.{
  Search, Round, going, leaving, failing, restore, compare_best, backtrack, differs, includes,
  advance, compare_and_backtrack, round_of, search_loop, initial,
}

pub List-cases {ℓ} : {A : Type ℓ} (l : List A) → (l ≡ []) ⊎ ((x : A) × (xs : List A) × (l ≡ x ∷ xs))
List-cases [] = inl refl
List-cases (x ∷ xs) = inr (x, xs, refl)

module _ (pointers : List CoinPointer) where
  -- What the pointers from an index on are worth.
  abbrev pub rest_value : ℕ → ℤ
  rest_value i = total_value (drop i pointers)

  pub rest_value_step :
      (i : ℕ) (p : CoinPointer)
      → get_elem? pointers i ≡ some p
      → rest_value i ≡ p.effective_value +ℤ rest_value (suc i)
  rest_value_step i p e = ap total_value (drop_at pointers i p e)

  add_swap : (a b : ℤ) → a +ℤ b ≡ b +ℤ a
  add_swap a b = omega int_laws

  -- The omitted pointers come back, down to the one that was pushed last.
  restore_lem :
      (last i : ℕ) (remaining : ℤ)
      → last < i
      → i ≤ length pointers
      → remaining ≡ rest_value i
      → restore pointers last i remaining ≡ some (last, rest_value (suc last))
  unfolding restore
  restore_lem last zero remaining h b e = absurd (omega arith)
  restore_lem last (suc i) remaining h b e =
      let (p, at) = get_elem?-lt pointers i (omega arith) in
      elim (Bool-cases (ltb last i)) [
        | inl t ↦
            rw (t, restore, at)
              (restore_lem last i _ (ground arith) (omega arith)
                (ap (λ r. r +ℤ p.effective_value) e ∙ add_swap _ _ ∙ sym (rest_value_step i p at)))
        | inr f ↦ let l : last ≡ i = ground arith in rw (f, restore, e, l) refl
      ]

-- The test for a pointer of the same value reads no pointer out of range.
pub includes-some :
    (pointers : List CoinPointer) (index : ℕ) (selected : List ℕ) (amount : ℤ) (p : CoinPointer)
    → Selects pointers index selected amount
    → index ≤ length pointers
    → (b : Bool) × (includes pointers index selected p ≡ some b)
unfolding includes
includes-some pointers index [] amount p s h = (true, refl)
includes-some pointers zero (last ∷ rest) amount p (l, q, at, s) h = absurd (omega arith)
includes-some pointers (suc i) (last ∷ rest) amount p s h =
    let (q, at) = get_elem?-lt pointers i (omega arith) in
    elim (Bool-cases (suc i == last + 1)) [
      | inl t ↦ (true, rw t refl)
      | inr f ↦ (not (is_zero_ℤ (p.effective_value -ℤ q.effective_value)), rw (f, differs, at) refl)
    ]

-- Where something is left, there is a next pointer.
inside_of :
    (pointers : List CoinPointer) (index : ℕ)
    → (rest_value pointers index ≡ pos 0 → ⊥)
    → index < length pointers
inside_of pointers index h = elim (dec_lt index (length pointers)) [
  | yes l ↦ l
  | no n ↦ absurd (h (ap total_value (drop_all pointers index (omega arith))))
]

pub or_false : (a b : Bool) → (a || b) ≡ false → (a ≡ false) × (b ≡ false)
or_false true b h = cc
or_false false b h = (refl, h)

pub contra :
    (curr target remaining : ℤ)
    → target ≤ℤ (curr +ℤ remaining)
    → remaining ≡ pos 0
    → ltb_ℤ curr target ≡ true
    → ⊥
contra curr target remaining low e below =
    let low' : target ≤ℤ (curr +ℤ pos 0) = subst (λ r. target ≤ℤ (curr +ℤ r)) e low in
    let less : (curr +ℤ pos 1) ≤ℤ target = ltb_ℤ-true curr target below in omega int_laws

cancel : (a b : ℤ) → a +ℤ b -ℤ a ≡ b
cancel a b = omega int_laws

module _ (options : Options) (pointers : List CoinPointer) (target : ℤ) (cost_of_change : ℕ) where
  -- A selection without change: it reaches the target and does not exceed it by more than the
  -- cost of change.
  abbrev pub IsChangeless : List ℕ → Type 0
  IsChangeless selected =
      (amount : ℤ) × Selects pointers (length pointers) selected amount
      × (target ≤ℤ amount)
      × (amount ≤ℤ (target +ℤ pos cost_of_change))

  pub record Invariant (s : Search) : Type 0 where
    pub is_bounded : s.index ≤ length pointers
    pub selects : Selects pointers s.index s.selected s.curr_value
    pub remains : s.remaining_value ≡ rest_value pointers s.index
    pub best : (s.best_selection ≡ []) ⊎ IsChangeless s.best_selection

  -- What a round does from a state with the invariant.
  abbrev pub Continues : Round → Type 0
  Continues failing = ⊥
  Continues (leaving s) = (s.best_selection ≡ []) ⊎ IsChangeless s.best_selection
  Continues (going s) = Invariant s

  pub backtrack-empty : (s : Search) → s.selected ≡ [] → backtrack pointers s ≡ leaving s
  unfolding backtrack
  backtrack-empty s e = simp (e, backtrack) refl

  -- The state after the backtracking.
  abbrev pub popped : Search → ℕ → List ℕ → CoinPointer → Search
  popped s last rest p = record s {
    selected = rest;
    curr_value = s.curr_value -ℤ p.effective_value;
    remaining_value = rest_value pointers (suc last);
    index = last + 1;
  }

  pub backtrack-pop :
      (s : Search) (last : ℕ) (rest : List ℕ) (p : CoinPointer)
      → s.selected ≡ last ∷ rest
      → get_elem? pointers last ≡ some p
      → restore pointers last s.index s.remaining_value
        ≡ some (last, rest_value pointers (suc last))
      → backtrack pointers s ≡ going (popped s last rest p)
  unfolding backtrack
  backtrack-pop s last rest p e at r = rw (e, backtrack, r, at) refl

  pub backtrack-Continues : (s : Search) → Invariant s → Continues (backtrack pointers s)
  backtrack-Continues s v = elim (List-cases s.selected) [
    | inl e ↦ subst Continues (sym (backtrack-empty s e)) v.best
    | inr (last, rest, e) ↦
        let (below, p, at, selects) : Selects pointers s.index (last ∷ rest) s.curr_value =
          subst (λ l. Selects pointers s.index l s.curr_value) e v.selects in
        subst Continues
          (sym (
            backtrack-pop s last rest p e at
              (restore_lem pointers last s.index s.remaining_value below v.is_bounded v.remains)))
          (record {
            is_bounded = omega (arith, below, v.is_bounded);
            selects = Selects-mono pointers last (last + 1) rest _ (omega arith) selects;
            remains = ap (rest_value pointers) {x = suc last} (omega arith);
            best = v.best;
          })
  ]

  -- The state with the current selection as the best one.
  abbrev pub kept : ℤ → Search → Search
  kept waste s = record s { best_waste = waste; best_selection = s.selected }

  compare_best-some :
      (s : Search) (waste : ℤ)
      → get_waste options pointers s.selected 0 target ≡ some waste
      → compare_best options pointers target s
        ≡ some (if leb_ℤ waste s.best_waste then kept waste s else s)
  unfolding compare_best
  compare_best-some s waste e = rw (e, compare_best) refl

  pub compare_and_backtrack-kept :
      (s : Search) (waste : ℤ)
      → get_waste options pointers s.selected 0 target ≡ some waste
      → compare_and_backtrack options pointers target s
        ≡ backtrack pointers (if leb_ℤ waste s.best_waste then kept waste s else s)
  compare_and_backtrack-kept s waste e =
      rw (compare_best-some s waste e, compare_and_backtrack) refl

  pub kept-Invariant :
      (s : Search) (waste : ℤ) (b : Bool)
      → Invariant s
      → IsChangeless s.selected
      → Invariant (if b then kept waste s else s)
  kept-Invariant s waste false v c = v
  kept-Invariant s waste true v c = record {
    is_bounded = v.is_bounded;
    selects = v.selects;
    remains = v.remains;
    best = inr c;
  }

  compare-Continues :
      (s : Search)
      → Invariant s
      → target ≤ℤ s.curr_value
      → s.curr_value ≤ℤ (target +ℤ pos cost_of_change)
      → Continues (compare_and_backtrack options pointers target s)
  compare-Continues s v low high =
      let (waste, e) =
        get_waste_ends options pointers s.index s.selected s.curr_value v.selects target in
      let changeless : IsChangeless s.selected = (
        s.curr_value,
        Selects-mono pointers s.index (length pointers) s.selected s.curr_value v.is_bounded
            v.selects,
        low,
        high,
      ) in
      subst Continues (sym (compare_and_backtrack-kept s waste e))
        (backtrack-Continues _ (kept-Invariant s waste (leb_ℤ waste s.best_waste) v changeless))

  -- The state after the step to the next pointer, which is included or not.
  abbrev pub stepped : Search → CoinPointer → Bool → Search
  stepped s p false = record s {
    remaining_value = s.remaining_value -ℤ p.effective_value;
    index = s.index + 1;
  }
  stepped s p true = record s {
    selected = s.index ∷ s.selected;
    curr_value = s.curr_value +ℤ p.effective_value;
    remaining_value = s.remaining_value -ℤ p.effective_value;
    index = s.index + 1;
  }

  pub advance-going :
      (s : Search) (p : CoinPointer) (b : Bool)
      → get_elem? pointers s.index ≡ some p
      → includes pointers s.index s.selected p ≡ some b
      → advance pointers s ≡ going (stepped s p b)
  unfolding advance
  advance-going s p false at inc = simp (advance, at, inc) refl
  advance-going s p true at inc = simp (advance, at, inc) refl

  pub rest_after :
      (s : Search) (p : CoinPointer)
      → get_elem? pointers s.index ≡ some p
      → s.remaining_value ≡ rest_value pointers s.index
      → s.remaining_value -ℤ p.effective_value ≡ rest_value pointers (s.index + 1)
  rest_after s p at e =
      ap (λ r. r -ℤ p.effective_value) (e ∙ rest_value_step pointers s.index p at)
      ∙ cancel p.effective_value _
      ∙ ap (rest_value pointers) {x = suc s.index} (omega arith)

  stepped-Invariant :
      (s : Search) (p : CoinPointer) (b : Bool)
      → get_elem? pointers s.index ≡ some p
      → s.index < length pointers
      → Invariant s
      → Invariant (stepped s p b)
  stepped-Invariant s p false at inside v = record {
    is_bounded = omega (arith, inside);
    selects =
        Selects-mono pointers s.index (s.index + 1) s.selected s.curr_value (omega arith) v.selects;
    remains = rest_after s p at v.remains;
    best = v.best;
  }
  stepped-Invariant s p true at inside v = record {
    is_bounded = omega (arith, inside);
    selects =
        Selects-mono pointers (suc s.index) (s.index + 1) (s.index ∷ s.selected) _ (omega arith)
          (Selects-push pointers s.index p s.selected s.curr_value at v.selects);
    remains = rest_after s p at v.remains;
    best = v.best;
  }

  advance-Continues :
      (s : Search)
      → Invariant s
      → target ≤ℤ (s.curr_value +ℤ s.remaining_value)
      → ltb_ℤ s.curr_value target ≡ true
      → Continues (advance pointers s)
  advance-Continues s v low below =
      let inside : s.index < length pointers =
        inside_of pointers s.index (λ e. contra s.curr_value target _ low (v.remains ∙ e) below) in
      let (p, at) = get_elem?-lt pointers s.index inside in
      let (b, inc) =
        includes-some pointers s.index s.selected s.curr_value p v.selects v.is_bounded in
      subst Continues (sym (advance-going s p b at inc)) (stepped-Invariant s p b at inside v)

  -- The first test of a round.
  abbrev pub is_dead : Search → Bool
  is_dead s =
      ltb_ℤ (s.curr_value +ℤ s.remaining_value) target
      || ltb_ℤ (target +ℤ pos cost_of_change) s.curr_value

  abbrev pub round_at : Search → Round
  round_at s = round_of options pointers target cost_of_change s

  pub round_of-back : (s : Search) → is_dead s ≡ true → round_at s ≡ backtrack pointers s
  unfolding round_of
  round_of-back s t = rw (t, round_of) refl

  pub round_of-compare :
      (s : Search)
      → is_dead s ≡ false
      → leb_ℤ target s.curr_value ≡ true
      → round_at s ≡ compare_and_backtrack options pointers target s
  unfolding round_of
  round_of-compare s f t = rw (f, round_of, t) refl

  pub round_of-advance :
      (s : Search)
      → is_dead s ≡ false
      → leb_ℤ target s.curr_value ≡ false
      → round_at s ≡ advance pointers s
  unfolding round_of
  round_of-advance s f g = rw (f, round_of, g) refl

  pub round_of-Continues : (s : Search) → Invariant s → Continues (round_at s)
  round_of-Continues s v = elim (Bool-cases (is_dead s)) [
    | inl t ↦ subst Continues (sym (round_of-back s t)) (backtrack-Continues s v)
    | inr f ↦
        let (low, high) =
          or_false (ltb_ℤ (s.curr_value +ℤ s.remaining_value) target)
            (ltb_ℤ (target +ℤ pos cost_of_change) s.curr_value) f in
        elim (Bool-cases (leb_ℤ target s.curr_value)) [
          | inl t ↦ subst Continues (sym (round_of-compare s f t)) (
              compare-Continues s v (leb_ℤ-true target s.curr_value t)
                (ltb_ℤ-false (target +ℤ pos cost_of_change) s.curr_value high))
          | inr g ↦ subst Continues (sym (round_of-advance s f g)) (
              advance-Continues s v (ltb_ℤ-false (s.curr_value +ℤ s.remaining_value) target low)
                (not_leb target s.curr_value g))
        ]
  ]

  -- The search ends, and what it returns is no selection or one without change.
  abbrev pub Returns : Option (List ℕ) → Type 0
  Returns o = (best : List ℕ) × (o ≡ some best) × ((best ≡ []) ⊎ IsChangeless best)

  abbrev pub loop_from : ℕ → Search → Option (List ℕ)
  loop_from n s = search_loop n options pointers target cost_of_change s

  loop-Returns :
      (n : ℕ) (s : Search) (r : Round)
      → round_at s ≡ r
      → Continues r
      → ((s' : Search) → Invariant s' → Returns (loop_from n s'))
      → Returns (loop_from (suc n) s)
  unfolding search_loop
  loop-Returns n s (going s') e c ih = rw (e, search_loop) (ih s' c)
  loop-Returns n s (leaving s') e c ih = rw (e, search_loop) (s'.best_selection, refl, c)
  loop-Returns n s failing e c ih = elim c [ ]

  pub search_loop-Returns : (n : ℕ) (s : Search) → Invariant s → Returns (loop_from n s)
  unfolding search_loop
  search_loop-Returns zero s v = (s.best_selection, refl, v.best)
  search_loop-Returns (suc n) s v =
      loop-Returns n s _ refl (round_of-Continues s v) (search_loop-Returns n)

  pub initial-Invariant : Invariant (initial pointers)
  initial-Invariant = record {
    is_bounded = omega arith;
    selects = refl;
    remains = refl;
    best = inl refl;
  }
