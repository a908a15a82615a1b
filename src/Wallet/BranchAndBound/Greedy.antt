-- ===== src/Wallet/BranchAndBound/Greedy.antt =====
-- What `selectBnB` of lib/wallet/coinselector.js finds for sure: its first descent takes the pointers
-- as they come, and what is found once is only replaced by another selection.
use bcoin.Prelude.{
  ℕ, zero, suc, ◌≤◌, ◌<◌, ◌≡◌, ◌≢◌, ℤ, pos, ◌+ℤ◌, ltb_ℤ, ◌≤ℤ◌, true, Option, some, List, [], ◌∷◌,
  length, take,
}
use bcoin.Primitives.Tx.{max_money}
use bcoin.Wallet.CoinSelector.{CoinPointer, Options, get_waste, total_value}
use bcoin.Wallet.BranchAndBound.{Search, Round, going, leaving, failing, tries}
use bcoin.Wallet.BranchAndBound.Bounds.{Invariant, round_at, loop_from, rest_value}

-- The indices below the number, the highest first.
abbrev pub down_from : ℕ → List ℕ
down_from zero = []
down_from (suc k) = k ∷ down_from k

module _ (options : Options) (pointers : List CoinPointer) (target : ℤ) (cost_of_change : ℕ) where
  -- A round leaves a best selection that is not empty.
  abbrev Keeps : Round → Type 0
  Keeps failing = Unit
  Keeps (leaving s) = s.best_selection ≢ []
  Keeps (going s) = s.best_selection ≢ []

  abbrev IsSound : Search → Type 0
  IsSound s = Invariant options pointers target cost_of_change s

  abbrev round_from : Search → Round
  round_from s = round_at options pointers target cost_of_change s

  -- From a state with a best selection, the search returns a selection that is not empty.
  abbrev Found : Option (List ℕ) → Type 0
  Found o = (best : List ℕ) × (o ≡ some best) × (best ≢ [])

  abbrev loop_at : ℕ → Search → Option (List ℕ)
  loop_at n s = loop_from options pointers target cost_of_change n s

-- The pointers before the index do not reach the target, however many are taken of them.
abbrev pub AreShort : List CoinPointer → ℤ → ℕ → Type 0
AreShort pointers target zero = Unit
AreShort pointers target (suc k) =
    AreShort pointers target k × (ltb_ℤ (total_value (take k pointers)) target ≡ true)

module _ (options : Options) (pointers : List CoinPointer) (target : ℤ) (cost_of_change : ℕ) where
  -- The state of the search when it has taken the first pointers.
  abbrev greedy : ℕ → Search
  greedy k = record {
    selected = down_from k;
    curr_value = total_value (take k pointers);
    remaining_value = rest_value pointers k;
    index = k;
    best_waste = max_money;
    best_selection = [];
  }

-- The first pointers, as far as they are needed for the target, are a selection without change.
pub record HasChangelessStart (options : Options) (pointers : List CoinPointer) (target : ℤ)
    (cost_of_change : ℕ) (k : ℕ) : Type 0 where
  pub in_tries : k < tries
  pub in_range : k ≤ length pointers
  pub is_short : AreShort pointers target k
  pub is_low : target ≤ℤ total_value (take k pointers)
  pub is_high : total_value (take k pointers) ≤ℤ (target +ℤ pos cost_of_change)
  pub waste : ℤ
  pub is_waste : get_waste options pointers (down_from k) 0 target ≡ some waste
  pub is_small : waste ≤ℤ max_money
