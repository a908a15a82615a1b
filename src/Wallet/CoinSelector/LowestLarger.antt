-- ===== src/Wallet/CoinSelector/LowestLarger.antt =====
-- `findLowestLarger` and `selectLowestLarger` of lib/wallet/coinselector.js on pointers in descending
-- order of their values.
use bcoin.Prelude.{
  ℕ, zero, suc, ◌+◌, ◌-◌, ◌/◌, ◌≤◌, ◌<◌, ◌≡◌, refl, sym, ◌∙◌, ap, ◌⊎◌, inl, inr, ℤ, pos, ◌+ℤ◌,
  ltb_ℤ, leb_ℤ, ◌≤ℤ◌, true, false, Option, none, some, List, [], ◌∷◌, arith, ltb, length, get_elem?,
  drop, Bool-cases,
}
use bcoin.Prelude.Int.{leb_ℤ-true, not_leb}
use mathlib.Core.Path.{subst}
use native.Mathlib.Decide.{dec_lt}
use bcoin.Utils.Binary.Search.{get_elem?-lt, get_elem?-past}
use bcoin.Wallet.CoinSelector.{CoinPointer, larger_loop, find_lowest_larger, total_value}
use bcoin.Wallet.CoinSelector.Selected.{Selects, lt_length}

-- The order in which `init` leaves the pointers.
abbrev pub IsDescending : List CoinPointer → Type 0
IsDescending [] = Unit
IsDescending (p ∷ []) = Unit
IsDescending (p ∷ q ∷ pointers) =
    (q.effective_value ≤ℤ p.effective_value) × IsDescending (q ∷ pointers)

trans_ℤ : (a b c : ℤ) → a ≤ℤ b → b ≤ℤ c → a ≤ℤ c
trans_ℤ a b c h k = omega arith

ltb_trans : (a b c : ℤ) → a ≤ℤ b → ltb_ℤ b c ≡ true → ltb_ℤ a c ≡ true
ltb_trans a b c h k = ground arith

le_lt : (a b : ℤ) → b ≤ℤ a → ltb_ℤ a b ≡ true → ⊥
le_lt a b h k = ground arith

descends_from :
    (p : CoinPointer) (pointers : List CoinPointer) (j : ℕ) (q : CoinPointer)
    → IsDescending (p ∷ pointers)
    → get_elem? pointers j ≡ some q
    → q.effective_value ≤ℤ p.effective_value
descends_from p [] j q d e = cc
descends_from p (r ∷ pointers) zero q (h, d) e =
    subst (λ o. elim o [ none ↦ Unit | some x ↦ x.effective_value ≤ℤ p.effective_value ]) e h
descends_from p (r ∷ pointers) (suc j) q (h, d) e =
    trans_ℤ q.effective_value r.effective_value p.effective_value (descends_from r pointers j q d e)
      h

IsDescending-tail :
    (p : CoinPointer) (pointers : List CoinPointer)
    → IsDescending (p ∷ pointers)
    → IsDescending pointers
IsDescending-tail p [] d = tt
IsDescending-tail p (q ∷ pointers) (h, d) = d

pub descends_at :
    (pointers : List CoinPointer) (i j : ℕ) (p q : CoinPointer)
    → IsDescending pointers
    → i < j
    → get_elem? pointers i ≡ some p
    → get_elem? pointers j ≡ some q
    → q.effective_value ≤ℤ p.effective_value
descends_at [] i j p q d h e k = cc
descends_at (r ∷ pointers) i zero p q d h e k = absurd (omega arith)
descends_at (r ∷ pointers) zero (suc j) p q d h e k =
    subst (λ o. elim o [ none ↦ Unit | some x ↦ q.effective_value ≤ℤ x.effective_value ]) e
      (descends_from r pointers j q d k)
descends_at (r ∷ pointers) (suc i) (suc j) p q d h e k =
    descends_at pointers i j p q (IsDescending-tail r pointers d) (omega arith) e k

module _ (pointers : List CoinPointer) (target : ℤ) where
  -- The pointer at the index reaches the target, or those from the index on do not.
  abbrev pub IsLarger : ℕ → Type 0
  IsLarger i = (p : CoinPointer) × (get_elem? pointers i ≡ some p) × (target ≤ℤ p.effective_value)

  abbrev pub AreSmaller : ℕ → Type 0
  AreSmaller i =
      (j : ℕ) (q : CoinPointer)
      → i ≤ j
      → get_elem? pointers j ≡ some q
      → ltb_ℤ q.effective_value target ≡ true

  -- The lowest of the pointers that reach the target.
  abbrev pub IsLowestLarger : ℕ → Type 0
  IsLowestLarger i = IsLarger i × AreSmaller (suc i)

  -- The loop has found the pointer before `i`, or the one at `i` reaches the target.
  abbrev Progress : ℕ → ℕ → ℕ → Type 0
  Progress i stop found = ((i ≡ suc found) × IsLarger found) ⊎ ((i < stop) × IsLarger i)

  abbrev Finds : Option ℕ → Type 0
  Finds o = (k : ℕ) × (o ≡ some k) × IsLowestLarger k

  smaller_from :
      (mid : ℕ) (p : CoinPointer)
      → IsDescending pointers
      → get_elem? pointers mid ≡ some p
      → ltb_ℤ p.effective_value target ≡ true
      → AreSmaller mid
  smaller_from mid p d at h j q l e = elim (dec_lt mid j) [
    | yes m ↦
        ltb_trans q.effective_value p.effective_value target
          (descends_at pointers mid j p q d m at e) h
    | no n ↦
        let same : j ≡ mid = omega arith in
        let k : some p ≡ some q = sym at ∙ ap (get_elem? pointers) (sym same) ∙ e in
        subst (λ o. elim o [ none ↦ Unit | some x ↦ ltb_ℤ x.effective_value target ≡ true ]) k h
  ]

  no_larger : (i : ℕ) → IsLarger i → AreSmaller i → ⊥
  no_larger i (p, e, h) s = le_lt p.effective_value target h (s i p (omega arith) e)

  abbrev mid_of : ℕ → ℕ → ℕ
  mid_of i stop = (i + stop - 1) / 2

  loop_done :
      (fuel i stop found : ℕ)
      → ltb i stop ≡ false
      → larger_loop (suc fuel) pointers target i stop found ≡ some found
  unfolding larger_loop
  loop_done fuel i stop found n = rw (n, larger_loop) refl

  loop_right :
      (fuel i stop found : ℕ) (p : CoinPointer)
      → ltb i stop ≡ true
      → get_elem? pointers (mid_of i stop) ≡ some p
      → leb_ℤ target p.effective_value ≡ true
      → larger_loop (suc fuel) pointers target i stop found
        ≡ larger_loop fuel pointers target (mid_of i stop + 1) stop (mid_of i stop)
  unfolding larger_loop
  loop_right fuel i stop found p t at l = rw (t, larger_loop, at, l) refl

  loop_left :
      (fuel i stop found : ℕ) (p : CoinPointer)
      → ltb i stop ≡ true
      → get_elem? pointers (mid_of i stop) ≡ some p
      → leb_ℤ target p.effective_value ≡ false
      → larger_loop (suc fuel) pointers target i stop found
        ≡ larger_loop fuel pointers target i (mid_of i stop) found
  unfolding larger_loop
  loop_left fuel i stop found p t at l = rw (t, larger_loop, at, l) refl

  done-Finds :
      (i stop found : ℕ)
      → ltb i stop ≡ false
      → AreSmaller stop
      → Progress i stop found
      → Finds (some found)
  done-Finds i stop found n s (inl (e, l)) = (found, refl, (l, λ j q h. s j q (ground arith)))
  done-Finds i stop found n s (inr (h, l)) = absurd (ground arith)

  left-Progress :
      (i mid stop found : ℕ)
      → i ≤ mid
      → AreSmaller mid
      → Progress i stop found
      → Progress i mid found
  left-Progress i mid stop found h s (inl g) = inl g
  left-Progress i mid stop found h s (inr (b, l)) = elim (dec_lt i mid) [
    | yes m ↦ inr (m, l)
    | no n ↦ absurd (no_larger mid (subst IsLarger (omega arith) l) s)
  ]

  larger_loop-Finds :
      (fuel i stop found : ℕ)
      → IsDescending pointers
      → stop ≤ length pointers
      → stop - i < fuel
      → AreSmaller stop
      → Progress i stop found
      → Finds (larger_loop fuel pointers target i stop found)
  larger_loop-Finds zero i stop found d b f s g = absurd (omega arith)
  larger_loop-Finds (suc fuel) i stop found d b f s g = elim (Bool-cases (ltb i stop)) [
    | inl t ↦
        let (p, at) = get_elem?-lt pointers (mid_of i stop) (ground arith) in
        elim (Bool-cases (leb_ℤ target p.effective_value)) [
          | inl l ↦ subst Finds (sym (loop_right fuel i stop found p t at l)) (
              larger_loop-Finds fuel (mid_of i stop + 1) stop (mid_of i stop) d b (ground arith) s
                (inl (omega arith, (p, at, leb_ℤ-true target p.effective_value l))))
          | inr n ↦
              let s' = smaller_from (mid_of i stop) p d at (not_leb target p.effective_value n) in
              subst Finds (sym (loop_left fuel i stop found p t at n)) (
                larger_loop-Finds fuel i (mid_of i stop) found d (ground arith) (ground arith) s'
                  (left-Progress i (mid_of i stop) stop found (ground arith) s' g))
        ]
    | inr n ↦ subst Finds (sym (loop_done fuel i stop found n)) (done-Finds i stop found n s g)
  ]

-- On pointers in descending order of which the one at the index reaches the target, the binary
-- search ends, and finds the lowest pointer that reaches it: no later one does.
pub find_lowest_larger-IsLowestLarger :
    (pointers : List CoinPointer) (target : ℤ) (index : ℕ)
    → IsDescending pointers
    → IsLarger pointers target index
    → (k : ℕ) × (find_lowest_larger pointers target index ≡ some k)
      × IsLowestLarger pointers target k
unfolding find_lowest_larger
find_lowest_larger-IsLowestLarger pointers target index d l =
    let (p, at, h) = l in
    larger_loop-Finds pointers target (length pointers + 1) index (length pointers) 0 d
      (omega arith) (omega arith) (λ j q m e. absurd (get_elem?-past pointers j q m e))
      (inr (lt_length pointers index p at, l))

-- The largest pointers are taken while they fit into the target.
module _ (pointers : List CoinPointer) (target : ℤ) where
  -- Where the loop stands: what is selected and what is left of the target make the whole, and what
  -- is selected and what is not taken yet make all pointers.
  record Taken (index : ℕ) (left : ℤ) (selected : List ℕ) (rest : List CoinPointer) : Type 0 where
    amount : ℤ
    selects : Selects pointers index selected amount
    sums : amount +ℤ left ≡ target
    totals : amount +ℤ total_value rest ≡ total_value pointers
    is_bounded : index ≤ length pointers
    is_rest : drop index pointers ≡ rest

  -- Where it ends: at the end, or before a pointer that is larger than what is left.
  abbrev Ended : ℕ × ℤ × List ℕ → Type 0
  Ended (index, left, selected) =
      (rest : List CoinPointer) × Taken index left selected rest
      × ((rest ≡ []) ⊎ IsLarger pointers (left +ℤ pos 1) index)

  -- The selection holds distinct indices of pointers whose values reach the target.
  abbrev pub Covers : List ℕ → Type 0
  Covers selected =
      (amount : ℤ) × Selects pointers (length pointers) selected amount × (target ≤ℤ amount)

  abbrev pub Answers : Option (List ℕ) → Type 0
  Answers o =
      (best : List ℕ) × (o ≡ some best)
      × (Covers best ⊎ ((best ≡ []) × (ltb_ℤ (total_value pointers) target ≡ true)))
