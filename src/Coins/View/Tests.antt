-- ===== src/Coins/View/Tests.antt =====
-- A coin view of two outputs of one transaction, and its theorems there.
use bcoin.Prelude.{
  Option, List, ap, ◌≢◌, get_elem?, ℕ, ◌≡◌, ◌⊎◌, refl, pos, Bool, true, false, none, some, [], ◌∷◌,
  arith,
}
use bcoin.Utils.BufferMap.Pairs.{pairs_of, pairs_of-IsMap}
use bcoin.Coins.{CoinEntry, Coins}
use bcoin.Coins.View.{
  Outpoint, View, get_entry, is_unspent_at, spend_entry, read_coin, spend_inputs,
}
use bcoin.Coins.View.Reading.{read_coin_correct}
use bcoin.Coins.View.Distinct.{AreDistinct}
use bcoin.Coins.View.Batches.{Spends, spend_inputs-Spends}
use bcoin.Coins.View.Spending.{IsValid, Spent, spend_entry_correct}

abbrev coin : Bool → CoinEntry
coin spent = record {
  version = 1;
  height = pos 5;
  coinbase = false;
  output = record { value = pos 50; script = [] };
  spent = spent;
}

-- The transaction has the hash 7; its output 1 is spent.
abbrev view : View (pairs_of Coins)
view = record {
  map = (7, (0, 0) ∷ (1, 1) ∷ []) ∷ [];
  undo = [];
  heap = coin false ∷ coin true ∷ [];
}

abbrev first : Outpoint
first = record { hash = 7; index = 0 }

view-IsValid : IsValid (pairs_of Coins) view
unfolding get_entry
view-IsValid = record { in_heap = λ p r e. ground arith; apart = λ p q r e f. ground arith }

first_unspent : is_unspent_at (pairs_of Coins) first view ≡ true
unfolding is_unspent_at
first_unspent = refl

spend_entry_correct_example :
    ((is_unspent_at (pairs_of Coins) first view ≡ false)
      × (spend_entry (pairs_of Coins) first view ≡ (none, view)))
    ⊎ ((is_unspent_at (pairs_of Coins) first view ≡ true)
        × ((ref : ℕ) × (view' : View (pairs_of Coins)) × (spend_entry (pairs_of Coins) first view
              ≡ (some ref, view'))
            × Spent (pairs_of Coins) first view ref view'))
spend_entry_correct_example = spend_entry_correct (pairs_of Coins) first view view-IsValid

-- The database has an unspent coin at each outpoint.
abbrev full : Outpoint → Option CoinEntry
full p = some (coin false)

abbrev elsewhere : Outpoint
elsewhere = record { hash = 8; index = 3 }

read_coin_correct_example :
    ((ref : ℕ) × (get_entry (pairs_of Coins) elsewhere view ≡ some ref)
      × (read_coin (pairs_of Coins) full elsewhere view ≡ (some ref, view)))
    ⊎ ((get_entry (pairs_of Coins) elsewhere view ≡ none)
        × (((full elsewhere ≡ none)
              × (read_coin (pairs_of Coins) full elsewhere view ≡ (none, view)))
            ⊎ ((c : CoinEntry) × (view' : View (pairs_of Coins)) × (full elsewhere ≡ some c)
                × (read_coin (pairs_of Coins) full elsewhere view ≡ (some 2, view'))
                × (get_entry (pairs_of Coins) elsewhere view' ≡ some 2)
                × (get_elem? view'.heap 2 ≡ some c)
                × ((q : Outpoint)
                    → q ≢ elsewhere
                    → get_entry (pairs_of Coins) q view' ≡ get_entry (pairs_of Coins) q view)
                × (view'.undo ≡ view.undo)
                × IsValid (pairs_of Coins) view')))
read_coin_correct_example =
    read_coin_correct (pairs_of Coins) (pairs_of-IsMap Coins) full elsewhere view view-IsValid

-- Six inputs, of which the view has one.
abbrev at_hash : ℕ → Outpoint
at_hash h = record { hash = h; index = 0 }

abbrev six : List Outpoint
six = first ∷ at_hash 8 ∷ at_hash 9 ∷ at_hash 10 ∷ at_hash 11 ∷ at_hash 12 ∷ []

apart : (h k : ℕ) → h ≢ k → at_hash h ≢ at_hash k
apart h k n e = n (ap (λ p. p.hash) e)

six-AreDistinct : AreDistinct six
six-AreDistinct = (
  (
    apart 7 8 (λ e. omega (arith, e)),
    (
      apart 7 9 (λ e. omega (arith, e)),
      (
        apart 7 10 (λ e. omega (arith, e)),
        (apart 7 11 (λ e. omega (arith, e)), (apart 7 12 (λ e. omega (arith, e)), tt)),
      ),
    ),
  ),
  (
    (
      apart 8 9 (λ e. omega (arith, e)),
      (
        apart 8 10 (λ e. omega (arith, e)),
        (apart 8 11 (λ e. omega (arith, e)), (apart 8 12 (λ e. omega (arith, e)), tt)),
      ),
    ),
    (
      (
        apart 9 10 (λ e. omega (arith, e)),
        (apart 9 11 (λ e. omega (arith, e)), (apart 9 12 (λ e. omega (arith, e)), tt)),
      ),
      (
        (apart 10 11 (λ e. omega (arith, e)), (apart 10 12 (λ e. omega (arith, e)), tt)),
        ((apart 11 12 (λ e. omega (arith, e)), tt), (tt, tt)),
      ),
    ),
  ),
)

spend_inputs-Spends_example :
    Spends
      (pairs_of Coins)
      (pairs_of-IsMap Coins)
      full
      six
      view
      (spend_inputs (pairs_of Coins) full six view)
spend_inputs-Spends_example =
    spend_inputs-Spends (pairs_of Coins) full six view (pairs_of-IsMap Coins) view-IsValid
      six-AreDistinct
