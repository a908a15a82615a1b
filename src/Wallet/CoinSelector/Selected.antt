-- ===== src/Wallet/CoinSelector/Selected.antt =====
-- Selections of coin pointers of lib/wallet/coinselector.js: the indices they hold and their value.
use bcoin.Prelude.{
  ℕ, zero, suc, ◌≤◌, ◌<◌, ◌≡◌, refl, sym, ℤ, pos, ◌+ℤ◌, ◌-ℤ◌, int_laws, some, List, [], ◌∷◌, arith,
  length, get_elem?, drop,
}
use mathlib.Core.Path.{subst}
use native.Mathlib.Decide.{dec_lt}
use bcoin.Utils.Binary.Search.{get_elem?-past}
use bcoin.Wallet.CoinSelector.{
  CoinPointer, Options, waste_loop, get_waste, get_fee, long_term_feerate,
}

-- The selection holds indices of pointers, each below the one pushed after it and the last below
-- the bound, and the pointers' values add up to the amount.
abbrev pub Selects : List CoinPointer → ℕ → List ℕ → ℤ → Type 0
Selects pointers bound [] amount = amount ≡ pos 0
Selects pointers bound (i ∷ selected) amount =
    (i < bound)
    × (p : CoinPointer) × (get_elem? pointers i ≡ some p)
    × Selects pointers i selected (amount -ℤ p.effective_value)

pub Selects-mono :
    (pointers : List CoinPointer) (bound bound' : ℕ) (selected : List ℕ) (amount : ℤ)
    → bound ≤ bound'
    → Selects pointers bound selected amount
    → Selects pointers bound' selected amount
Selects-mono pointers bound bound' [] amount h s = s
Selects-mono pointers bound bound' (i ∷ selected) amount h (l, p, e, s) = (omega arith, p, e, s)

add_sub : (a b : ℤ) → a +ℤ b -ℤ b ≡ a
add_sub a b = omega int_laws

-- A push of a pointer.
pub Selects-push :
    (pointers : List CoinPointer) (i : ℕ) (p : CoinPointer) (selected : List ℕ) (amount : ℤ)
    → get_elem? pointers i ≡ some p
    → Selects pointers i selected amount
    → Selects pointers (suc i) (i ∷ selected) (amount +ℤ p.effective_value)
Selects-push pointers i p selected amount e s = (
  omega arith,
  p,
  e,
  subst (Selects pointers i selected) (sym (add_sub amount p.effective_value)) s,
)

-- The pointers from an index on start with the one at the index.
pub drop_at {ℓ} :
    {A : Type ℓ} (xs : List A) (i : ℕ) (x : A)
    → get_elem? xs i ≡ some x
    → drop i xs ≡ x ∷ drop (suc i) xs
drop_at [] i x e = cc
drop_at (y ∷ xs) zero x e = cc
drop_at (y ∷ xs) (suc i) x e = drop_at xs i x e

pub drop_all {ℓ} : {A : Type ℓ} (xs : List A) (i : ℕ) → length xs ≤ i → drop i xs ≡ []
drop_all [] zero h = refl
drop_all [] (suc i) h = refl
drop_all (x ∷ xs) zero h = absurd (omega arith)
drop_all (x ∷ xs) (suc i) h = drop_all xs i (omega arith)

-- The loop of getWaste reads no pointer out of range.
waste_loop_ends :
    (rate : ℤ) (pointers : List CoinPointer) (bound : ℕ) (selected : List ℕ) (amount : ℤ)
    → Selects pointers bound selected amount
    → (waste total : ℤ) → (r : ℤ × ℤ) × (waste_loop rate pointers selected waste total ≡ some r)
unfolding waste_loop
waste_loop_ends rate pointers bound [] amount s waste total = ((waste, total), refl)
waste_loop_ends rate pointers bound (i ∷ selected) amount (l, p, e, s) waste total =
    rw (e, waste_loop) (waste_loop_ends rate pointers i selected _ s _ _)

pub get_waste_ends :
    (options : Options) (pointers : List CoinPointer) (bound : ℕ) (selected : List ℕ) (amount : ℤ)
    → Selects pointers bound selected amount
    → (target : ℤ) → (waste : ℤ) × (get_waste options pointers selected 0 target ≡ some waste)
unfolding get_waste
get_waste_ends options pointers bound selected amount s target =
    let ((waste, total), e) =
      waste_loop_ends (pos (get_fee options 1) -ℤ pos long_term_feerate) pointers bound selected
        amount s (pos 0) (pos 0) in
    (waste +ℤ (total -ℤ target), rw (e, get_waste) refl)

pub lt_length {ℓ} :
    {A : Type ℓ} (xs : List A) (i : ℕ) (x : A) → get_elem? xs i ≡ some x → i < length xs
lt_length xs i x e = elim (dec_lt i (length xs)) [
  | yes h ↦ h
  | no n ↦ absurd (get_elem?-past xs i x (omega arith) e)
]
