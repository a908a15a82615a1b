-- ===== src/Coins/View/Reading.antt =====
-- Reading a coin into a view: `readCoin` of lib/coins/coinview.js.
use bcoin.Prelude.{
  ℕ, ◌+◌, ◌<◌, ◌≡◌, ◌≢◌, ◌⊎◌, refl, sym, ap, ◌∙◌, Bool, true, false, ◌&&◌, Option, none, some, [],
  ◌∷◌, ◌++◌, arith, ◌==◌, length, get_elem?, length-append, Bool-cases, Option-cases, inl, inr,
}
use mathlib.Core.Option.{some-injective}
use mathlib.Core.Path.{subst}
use bcoin.Utils.BufferMap.{BufferMap, IsMap}
use bcoin.Coins.{CoinEntry, Heap, Coins}
use bcoin.Coins.View.{Outpoint, View, add_entry, get_entry, read_missing, read_coin}
use bcoin.Coins.View.Entries.{get_entry-add_same, get_entry-add_other}
use bcoin.Coins.View.Spending.{IsValid}

pub same_or_other : (p q : Outpoint) → (q ≡ p) ⊎ (q ≢ p)
same_or_other p q = elim (Bool-cases (q.hash == p.hash && q.index == p.index)) [
  | inl e ↦ inl (ground arith)
  | inr d ↦ inr (λ e.
      clash (subst (λ t. (t.hash == p.hash && t.index == p.index) ≡ false) e d) (ground arith))
]
  where
    clash : {b : Bool} → b ≡ false → b ≡ true → ⊥
    clash h k = cc

get_elem?-end :
    (heap : Heap) (coin : CoinEntry) → get_elem? (heap ++ (coin ∷ [])) (length heap) ≡ some coin
get_elem?-end [] coin = refl
get_elem?-end (c ∷ heap) coin = get_elem?-end heap coin

module _ (maps : BufferMap Coins) (laws : IsMap maps) where
  -- The view after a new coin is added.
  abbrev pub with_coin : Outpoint → CoinEntry → View maps → View maps
  with_coin p coin view =
      add_entry maps p (length view.heap) (record view { heap = view.heap ++ (coin ∷ []) })

  pub length-with_coin :
      (p : Outpoint) (coin : CoinEntry) (view : View maps)
      → length (with_coin p coin view).heap ≡ length view.heap + 1
  unfolding add_entry
  length-with_coin p coin view = length-append view.heap (coin ∷ []) ∙ omega arith

  pub with_coin_other :
      (p q : Outpoint) (coin : CoinEntry) (view : View maps)
      → q ≢ p
      → get_entry maps q (with_coin p coin view) ≡ get_entry maps q view
  unfolding get_entry
  with_coin_other p q coin view ne =
      get_entry-add_other maps laws p q (length view.heap)
        (record view { heap = view.heap ++ (coin ∷ []) }) ne

  -- An entry is the new one, or was there before.
  with_coin-cases :
      (p q : Outpoint) (coin : CoinEntry) (view : View maps) (ref : ℕ)
      → IsValid maps view
      → get_entry maps q (with_coin p coin view) ≡ some ref
      → ((q ≡ p) × (ref ≡ length view.heap))
        ⊎ ((ref < length view.heap) × (get_entry maps q view ≡ some ref))
  with_coin-cases p q coin view ref v h = elim (same_or_other p q) [
    | inl e ↦ inl (
      e,
      some-injective _ _ (
          sym h
          ∙ ap (λ t. get_entry maps t (with_coin p coin view)) e
          ∙ get_entry-add_same maps laws p (length view.heap)
              (record view { heap = view.heap ++ (coin ∷ []) })),
    )
    | inr ne ↦
        let old = sym (with_coin_other p q coin view ne) ∙ h in inr (v.in_heap q ref old, old)
  ]

  pub with_coin-IsValid :
      (p : Outpoint) (coin : CoinEntry) (view : View maps)
      → IsValid maps view
      → IsValid maps (with_coin p coin view)
  with_coin-IsValid p coin view v = record {
    in_heap = λ q ref h. elim (with_coin-cases p q coin view ref v h) [
      | inl (e, r) ↦ omega (arith, length-with_coin p coin view)
      | inr (lt, old) ↦ omega (arith, length-with_coin p coin view)
    ];
    apart = λ q q' ref h h'. elim (with_coin-cases p q coin view ref v h) [
      | inl (e, r) ↦ elim (with_coin-cases p q' coin view ref v h') [
        | inl (e', r') ↦ e ∙ sym e'
        | inr (lt, old) ↦ absurd (omega arith)
      ]
      | inr (lt, old) ↦ elim (with_coin-cases p q' coin view ref v h') [
        | inl (e', r') ↦ absurd (omega arith)
        | inr (lt', old') ↦ v.apart q q' ref old old'
      ]
    ];
  }

  module _ (db : Outpoint → Option CoinEntry) where
    -- In a valid view `readCoin` returns the entry that the view has, and changes nothing; else it
    -- asks the database. A coin found there is a new object, which the view holds from then on; all
    -- other entries and the undo list are as before, and the view is valid. If the database has
    -- none, the view does not change.
    pub read_coin_correct :
        (p : Outpoint) (view : View maps)
        → IsValid maps view
        → ((ref : ℕ) × (get_entry maps p view ≡ some ref)
            × (read_coin maps db p view ≡ (some ref, view)))
          ⊎ ((get_entry maps p view ≡ none)
              × (((db p ≡ none) × (read_coin maps db p view ≡ (none, view)))
                  ⊎ ((coin : CoinEntry) × (view' : View maps) × (db p ≡ some coin)
                      × (read_coin maps db p view ≡ (some (length view.heap), view'))
                      × (get_entry maps p view' ≡ some (length view.heap))
                      × (get_elem? view'.heap (length view.heap) ≡ some coin)
                      × ((q : Outpoint) → q ≢ p → get_entry maps q view' ≡ get_entry maps q view)
                      × (view'.undo ≡ view.undo)
                      × IsValid maps view')))
    unfolding read_coin read_missing add_entry
    read_coin_correct p view v = elim (Option-cases (get_entry maps p view)) [
      | inr (ref, e) ↦ inl (ref, e, rw (e, read_coin) refl)
      | inl n ↦ elim (Option-cases (db p)) [
        | inl none_there ↦
            inr (n, inl (none_there, rw (n, read_coin, none_there, read_missing) refl))
        | inr (coin, found) ↦ inr (
          n,
          inr (
            coin,
            with_coin p coin view,
            found,
            rw (n, read_coin, found, read_missing) refl,
            get_entry-add_same maps laws p (length view.heap)
                (record view { heap = view.heap ++ (coin ∷ []) }),
            get_elem?-end view.heap coin,
            λ q ne. with_coin_other p q coin view ne,
            refl,
            with_coin-IsValid p coin view v,
          ),
        )
      ]
    ]
