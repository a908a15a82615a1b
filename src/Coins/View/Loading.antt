-- ===== src/Coins/View/Loading.antt =====
-- The reads of one batch of `spendInputs` in lib/coins/coinview.js, and which coins are available.
use bcoin.Prelude.{
  ℕ, zero, suc, ◌<◌, ◌≡◌, ◌≢◌, refl, sym, ap, ◌∙◌, Bool, true, false, not, ◌&&◌, Option, none, some,
  List, [], ◌∷◌, ◌++◌, map, arith, length, All, Option-cases, inl, inr,
}
use mathlib.Core.Path.{subst}
use bcoin.Utils.BufferMap.{BufferMap, IsMap}
use bcoin.Coins.{CoinEntry, Heap, Coins, is_spent}
use bcoin.Coins.View.{Outpoint, View, add_entry, get_entry, read_missing, read_batch}
use bcoin.Coins.View.Entries.{get_entry-add_same}
use bcoin.Coins.View.Spending.{IsValid, unspent}
use bcoin.Coins.View.Reading.{with_coin, with_coin_other, with_coin-IsValid, same_or_other}
use bcoin.Coins.View.Distinct.{NotIn, AreDistinct}

is_spent-end :
    (heap : Heap) (coin : CoinEntry) → is_spent (heap ++ (coin ∷ [])) (length heap) ≡ coin.spent
is_spent-end [] coin = refl
is_spent-end (c ∷ heap) coin = is_spent-end heap coin

is_spent-append :
    (heap : Heap) (coin : CoinEntry) (ref : ℕ)
    → ref < length heap
    → is_spent (heap ++ (coin ∷ [])) ref ≡ is_spent heap ref
is_spent-append [] coin ref h = absurd (omega arith)
is_spent-append (c ∷ heap) coin zero h = refl
is_spent-append (c ∷ heap) coin (suc ref) h = is_spent-append heap coin ref (omega arith)

pub clash : {b : Bool} → b ≡ false → b ≡ true → ⊥
clash h k = cc

pub and_right : (a b : Bool) → (a && b) ≡ true → b ≡ true
and_right true b h = h
and_right false b h = cc

module _ (maps : BufferMap Coins) (laws : IsMap maps) (db : Outpoint → Option CoinEntry) where
  abbrev pub in_database : Option CoinEntry → Bool
  in_database none = false
  in_database (some coin) = not coin.spent

  abbrev pub available_from : Heap → Option CoinEntry → Option ℕ → Bool
  available_from heap stored none = in_database stored
  available_from heap stored (some ref) = not (is_spent heap ref)

  -- An unspent coin is in the view, or the database has one that the view does not have.
  abbrev pub is_available : View maps → Outpoint → Bool
  is_available view p = available_from view.heap (db p) (get_entry maps p view)

  abbrev pub all_available : View maps → List Outpoint → Bool
  all_available view [] = true
  all_available view (p ∷ ps) = is_available view p && all_available view ps

  -- What a read leaves: the entry that it returns is that of the view, and says whether the coin is
  -- available; no coin becomes available by it, or ceases to be.
  pub record HasRead (p : Outpoint) (view : View maps) (coin : Option ℕ) (view' : View maps)
      : Type 0 where
    pub is_entry : coin ≡ get_entry maps p view'
    pub is_loaded : is_available view' p ≡ unspent maps view'.heap coin
    pub is_same : (q : Outpoint) → is_available view' q ≡ is_available view q
    pub others : (q : Outpoint) → q ≢ p → get_entry maps q view' ≡ get_entry maps q view
    pub is_valid : IsValid maps view'

  module _ (p : Outpoint) (coin : CoinEntry) (view : View maps) (v : IsValid maps view)
      (n : get_entry maps p view ≡ none) (d : db p ≡ some coin) where
    abbrev loaded : View maps
    loaded = with_coin maps laws p coin view

    loaded_entry : get_entry maps p loaded ≡ some (length view.heap)
    loaded_entry =
        get_entry-add_same maps laws p (length view.heap)
          (record view { heap = view.heap ++ (coin ∷ []) })

    loaded_heap : loaded.heap ≡ view.heap ++ (coin ∷ [])
    unfolding add_entry
    loaded_heap = refl

    available_here : is_available loaded p ≡ is_available view p
    available_here =
        (λ i. available_from (loaded_heap i) (db p) (loaded_entry i))
        ∙ ap not (is_spent-end view.heap coin)
        ∙ sym (λ i. available_from view.heap (d i) (n i))

    available_other : (q : Outpoint) → q ≢ p → is_available loaded q ≡ is_available view q
    available_other q ne =
        (λ i. available_from (loaded_heap i) (db q) (with_coin_other maps laws p q coin view ne i))
        ∙ (elim (Option-cases (get_entry maps q view)) [
          | inl e ↦ rw e refl
          | inr (ref, e) ↦ rw e (ap not (is_spent-append view.heap coin ref (v.in_heap q ref e)))
        ])

    loaded_available : (q : Outpoint) → is_available loaded q ≡ is_available view q
    loaded_available q = elim (same_or_other p q) [
      | inl e ↦ subst (λ t. is_available loaded t ≡ is_available view t) (sym e) available_here
      | inr ne ↦ available_other q ne
    ]

    loaded-HasRead : HasRead p view (some (length view.heap)) loaded
    loaded-HasRead = record {
      is_entry = sym loaded_entry;
      is_loaded = ap (available_from loaded.heap (db p)) loaded_entry;
      is_same = loaded_available;
      others = λ q ne. with_coin_other maps laws p q coin view ne;
      is_valid = with_coin-IsValid maps laws p coin view v;
    }

  kept-HasRead :
      (p : Outpoint) (view : View maps) (coin : Option ℕ)
      → IsValid maps view
      → get_entry maps p view ≡ coin
      → is_available view p ≡ unspent maps view.heap coin
      → HasRead p view coin view
  kept-HasRead p view coin v e a = record {
    is_entry = sym e;
    is_loaded = a;
    is_same = λ q. refl;
    others = λ q ne. refl;
    is_valid = v;
  }

  read_missing-HasRead :
      (p : Outpoint) (view : View maps)
      → IsValid maps view
      → (coin : Option ℕ) × (view' : View maps) × (read_missing maps db p
            (get_entry maps p view)
            view
          ≡ (coin, view'))
        × HasRead p view coin view'
  unfolding read_missing
  read_missing-HasRead p view v = elim (Option-cases (get_entry maps p view)) [
    | inr (ref, e) ↦ (
      some ref,
      view,
      rw (e, read_missing) refl,
      kept-HasRead p view (some ref) v e (ap (available_from view.heap (db p)) e),
    )
    | inl n ↦ elim (Option-cases (db p)) [
      | inl d ↦ (
        none,
        view,
        rw (n, read_missing, d) refl,
        kept-HasRead p view none v n (λ i. available_from view.heap (d i) (n i)),
      )
      | inr (coin, d) ↦ (
        some (length view.heap),
        with_coin maps laws p coin view,
        rw (n, read_missing, d) refl,
        loaded-HasRead p coin view v n d,
      )
    ]
  ]

  abbrev pub entries : View maps → List Outpoint → List (Option ℕ)
  entries view ps = map (λ p. get_entry maps p view) ps

  -- A read of one batch.
  pub record HasLoaded (ps : List Outpoint) (view : View maps) (coins : List (Option ℕ))
      (view' : View maps) : Type 0 where
    pub are_entries : coins ≡ entries view' ps
    pub are_loaded :
        All (λ p. is_available view' p ≡ unspent maps view'.heap (get_entry maps p view')) ps
    pub are_same : (q : Outpoint) → is_available view' q ≡ is_available view q
    pub kept : (q : Outpoint) → NotIn q ps → get_entry maps q view' ≡ get_entry maps q view
    pub still_valid : IsValid maps view'

  agree_after :
      (p : Outpoint) (ps : List Outpoint) (earlier view view1 : View maps)
      → ((q : Outpoint) → q ≢ p → get_entry maps q view1 ≡ get_entry maps q view)
      → NotIn p ps
      → All (λ q. get_entry maps q view ≡ get_entry maps q earlier) ps
      → All (λ q. get_entry maps q view1 ≡ get_entry maps q earlier) ps
  agree_after p [] earlier view view1 o n a = tt
  agree_after p (q ∷ ps) earlier view view1 o (ne, n) (same, a) =
      (o q (λ e. ne (sym e)) ∙ same, agree_after p ps earlier view view1 o n a)

  loaded_still :
      (p : Outpoint) (coin : Option ℕ) (view1 view2 : View maps)
      → get_entry maps p view1 ≡ coin
      → get_entry maps p view2 ≡ get_entry maps p view1
      → is_available view2 p ≡ is_available view1 p
      → is_available view1 p ≡ unspent maps view1.heap coin
      → is_available view2 p ≡ unspent maps view2.heap (get_entry maps p view2)
  loaded_still p none view1 view2 e k a l = a ∙ l ∙ ap (unspent maps view2.heap) (sym (k ∙ e))
  loaded_still p (some ref) view1 view2 e k a l = rw (k ∙ e) refl

  -- The jobs have looked at an earlier view, which has the same entries for what is left to read.
  pub read_batch-HasLoaded :
      (ps : List Outpoint) (earlier view : View maps)
      → IsValid maps view
      → AreDistinct ps
      → All (λ p. get_entry maps p view ≡ get_entry maps p earlier) ps
      → (coins : List (Option ℕ)) × (view' : View maps) × (read_batch maps db
            (map (λ p. (p, get_entry maps p earlier)) ps)
            view
          ≡ (coins, view'))
        × HasLoaded ps view coins view'
  unfolding read_batch
  read_batch-HasLoaded [] earlier view v d a = (
    [],
    view,
    refl,
    record {
      are_entries = refl;
      are_loaded = tt;
      are_same = λ q. refl;
      kept = λ q n. refl;
      still_valid = v;
    },
  )
  read_batch-HasLoaded (p ∷ ps) earlier view v (n, d) (same, a) =
      let (coin, view1, e, h) = read_missing-HasRead p view v in
      let (coins, view2, e', h') =
        read_batch-HasLoaded ps earlier view1 h.is_valid d
          (agree_after p ps earlier view view1 h.others n a) in
      (
        coin ∷ coins,
        view2,
        rw (sym same, read_batch, e, e') refl,
        record {
          are_entries = λ i. (h.is_entry ∙ sym (h'.kept p n)) i ∷ h'.are_entries i;
          are_loaded = (
            loaded_still p coin view1 view2 (sym (h.is_entry)) (h'.kept p n) (h'.are_same p)
                h.is_loaded,
            h'.are_loaded,
          );
          are_same = λ q. h'.are_same q ∙ h.is_same q;
          kept = λ q (ne, nq). h'.kept q nq ∙ h.others q ne;
          still_valid = h'.still_valid;
        },
      )
