-- ===== src/Coins/View.antt =====
-- lib/coins/coinview.js, a snapshot of unspent outputs, and the list of lib/coins/undocoins.js.
pub mod Entries
pub mod Spending
pub mod Reading
pub mod Distinct
pub mod Loading
pub mod Marking
pub mod Batches
mod Tests
use bcoin.Prelude.{
  ℕ, zero, suc, ℤ, negsuc, Bool, true, false, not, ◌&&◌, Option, none, some, List, [], ◌∷◌, ◌++◌,
  map, ◌==◌, if◌then◌else◌, length, get_elem?, take, drop,
}
use bcoin.Utils.BufferMap.{BufferMap}
use bcoin.Coins.{CoinEntry, Heap, Coins, is_spent, mark, find, add, has, is_unspent, spend, remove}

pub record Outpoint : Type 0 where
  pub hash : ℕ
  pub index : ℕ

abbrev pub or_new : Option Coins → Coins
or_new none = []
or_new (some coins) = coins

abbrev pub entry_of : ℕ → Option Coins → Option ℕ
entry_of index none = none
entry_of index (some coins) = find index coins

module _ (maps : BufferMap Coins) where
  -- The list `items` of UndoCoins has its last element first.
  pub record View : Type 0 where
    pub map : maps.Map
    pub undo : List ℕ
    pub heap : Heap

  -- `ensure` returns the coins at a hash, or new ones, which it adds.
  abbrev pub coins_at : ℕ → View → Coins
  coins_at hash view = or_new (maps.get hash view.map)

  unfoldable pub add_entry : Outpoint → ℕ → View → View
  add_entry prevout ref view = record view {
    map = maps.put prevout.hash (add prevout.index ref (coins_at prevout.hash view)) view.map;
  }

  unfoldable pub get_entry : Outpoint → View → Option ℕ
  get_entry prevout view = entry_of prevout.index (maps.get prevout.hash view.map)

  unfoldable pub has_entry : Outpoint → View → Bool
  has_entry prevout view = elim (maps.get prevout.hash view.map) [
    | none ↦ false
    | some coins ↦ has prevout.index coins
  ]

  unfoldable pub is_unspent_at : Outpoint → View → Bool
  unfolding is_unspent
  is_unspent_at prevout view = elim (maps.get prevout.hash view.map) [
    | none ↦ false
    | some coins ↦ is_unspent view.heap prevout.index coins
  ]

  unfoldable pub spend_entry : Outpoint → View → Option ℕ × View
  unfolding spend
  spend_entry prevout view = elim (maps.get prevout.hash view.map) [
    | none ↦ (none, view)
    | some coins ↦ elim (spend view.heap prevout.index coins) [
      | none ↦ (none, view)
      | some (ref, heap) ↦ (some ref, record view { undo = ref ∷ view.undo; heap = heap })
    ]
  ]

  unfoldable pub remove_entry : Outpoint → View → Option ℕ × View
  unfolding remove
  remove_entry prevout view = elim (maps.get prevout.hash view.map) [
    | none ↦ (none, view)
    | some coins ↦
        let (ref, left) = remove prevout.index coins in
        (ref, record view { map = maps.put prevout.hash left view.map })
  ]

  -- `UndoCoins.apply`; `none` is the failed assertion.
  unfoldable pub apply : Outpoint → View → Option View
  unfolding add_entry
  apply prevout view = elim view.undo [
    | [] ↦ none
    | ref ∷ undo ↦ some (add_entry prevout ref (record view { undo = undo }))
  ]

  -- A new object on the heap.
  abbrev alloc : CoinEntry → View → ℕ × View
  alloc coin view = (length view.heap, record view { heap = view.heap ++ (coin ∷ []) })

  module _ (db : Outpoint → Option CoinEntry) where
    -- `readCoin` after it looked at the view; the database is a parameter.
    unfoldable pub read_missing : Outpoint → Option ℕ → View → Option ℕ × View
    unfolding add_entry
    read_missing prevout (some ref) view = (some ref, view)
    read_missing prevout none view = elim (db prevout) [
      | none ↦ (none, view)
      | some coin ↦ let (ref, view') = alloc coin view in (some ref, add_entry prevout ref view')
    ]

    unfoldable pub read_coin : Outpoint → View → Option ℕ × View
    unfolding read_missing get_entry
    read_coin prevout view = read_missing prevout (get_entry prevout view) view

    -- `readInputs`: whether all were found.
    unfoldable pub read_inputs : List Outpoint → View → Bool × View
    unfolding read_coin
    read_inputs [] view = (true, view)
    read_inputs (p ∷ ps) view =
        let (coin, view') = read_coin p view in
        let (found, view'') = read_inputs ps view' in
        (elim coin [ none ↦ false | some ref ↦ found ], view'')

    -- The jobs of one batch have all looked at the view before the database answers the first;
    -- the answers are taken in the order of the inputs.
    unfoldable pub read_batch : List (Outpoint × Option ℕ) → View → List (Option ℕ) × View
    unfolding read_missing
    read_batch [] view = ([], view)
    read_batch ((p, cached) ∷ jobs) view =
        let (coin, view') = read_missing p cached view in
        let (coins, view'') = read_batch jobs view' in (coin ∷ coins, view'')

    -- `for (const coin of coins)`: false for the early return.
    pub mark_all : List (Option ℕ) → View → Bool × View
    mark_all [] view = (true, view)
    mark_all (none ∷ coins) view = (false, view)
    mark_all (some ref ∷ coins) view =
        let next =
          mark_all coins (record view { undo = ref ∷ view.undo; heap = mark view.heap ref }) in
        if is_spent view.heap ref then (false, view) else next

    -- `spendInputs`, four inputs at a time; the rounds are at most the number of inputs.
    pub spend_rounds : ℕ → List Outpoint → View → Bool × View
    unfolding read_batch mark_all get_entry
    spend_rounds zero inputs view = (true, view)
    spend_rounds (suc fuel) inputs view =
        let jobs = map (λ p. (p, get_entry p view)) (take 4 inputs) in
        let (coins, view') = read_batch jobs view in
        let (good, view'') = mark_all coins view' in
        let rest = spend_rounds fuel (drop 4 inputs) view'' in
        if length inputs == 0 then (true, view) else if good then rest else (false, view'')

    unfoldable pub spend_inputs : List Outpoint → View → Bool × View
    unfolding spend_rounds
    spend_inputs inputs view = spend_rounds (length inputs) inputs view
