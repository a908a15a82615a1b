-- ===== src/Coins/View/Marking.antt =====
-- The marks of one batch of `spendInputs` in lib/coins/coinview.js.
use bcoin.Prelude.{
  ℕ, ◌≡◌, ◌≢◌, refl, sym, ap, ◌∙◌, true, false, not, ◌&&◌, Option, some, List, [], ◌∷◌,
  if◌then◌else◌, All, Bool-cases, Option-cases, inl, inr,
}
use bcoin.Utils.BufferMap.{BufferMap, IsMap}
use bcoin.Coins.{CoinEntry, Coins, is_spent}
use bcoin.Coins.View.{Outpoint, View, get_entry, mark_all}
use bcoin.Coins.View.Entries.{is_spent-mark_same}
use bcoin.Coins.View.Spending.{IsValid, unspent, spent_view, spent_view-IsValid, unspent-other}
use bcoin.Coins.View.Distinct.{NotIn, AreDistinct}
use bcoin.Coins.View.Loading.{
  is_available, available_from, all_available, entries, clash, and_right,
}

module _ (maps : BufferMap Coins) (laws : IsMap maps) (db : Outpoint → Option CoinEntry) where
  -- What marking the coins of a batch leaves.
  pub record HasMarked (ps : List Outpoint) (view view' : View maps) : Type 0 where
    pub other_same :
        (q : Outpoint)
        → NotIn q ps
        → is_available maps laws db view' q ≡ is_available maps laws db view q
    pub same_entries : (q : Outpoint) → get_entry maps q view' ≡ get_entry maps q view
    pub marked_valid : IsValid maps view'
    pub are_spent :
        all_available maps laws db view ps ≡ true
        → All (λ p. is_available maps laws db view' p ≡ false) ps

  module _ (p : Outpoint) (ref : ℕ) (view : View maps) (v : IsValid maps view)
      (e : get_entry maps p view ≡ some ref) where
    abbrev marked : View maps
    marked = spent_view maps ref view

    marked_entry : (q : Outpoint) → get_entry maps q marked ≡ get_entry maps q view
    unfolding get_entry
    marked_entry q = refl

    marked_here : is_available maps laws db marked p ≡ false
    marked_here =
        ap (available_from maps laws db marked.heap (db p)) (marked_entry p ∙ e)
        ∙ ap not (is_spent-mark_same view.heap ref (v.in_heap p ref e))

    marked_other :
        (q : Outpoint)
        → q ≢ p
        → is_available maps laws db marked q ≡ is_available maps laws db view q
    marked_other q ne = elim (Option-cases (get_entry maps q view)) [
      | inl n ↦
          ap (available_from maps laws db marked.heap (db q)) (marked_entry q ∙ n)
          ∙ sym (ap (available_from maps laws db view.heap (db q)) n)
      | inr (r, f) ↦
          ap (available_from maps laws db marked.heap (db q)) (marked_entry q ∙ f)
          ∙ ap (unspent maps marked.heap) (sym f)
          ∙ unspent-other maps p q ref view v e ne
          ∙ ap (unspent maps view.heap) f
          ∙ sym (ap (available_from maps laws db view.heap (db q)) f)
    ]

    marked_loaded :
        (q : Outpoint)
        → is_available maps laws db view q ≡ unspent maps view.heap (get_entry maps q view)
        → is_available maps laws db marked q ≡ unspent maps marked.heap (get_entry maps q marked)
    marked_loaded q l = elim (Option-cases (get_entry maps q view)) [
      | inl n ↦
          ap (available_from maps laws db marked.heap (db q)) (marked_entry q ∙ n)
          ∙ sym (ap (available_from maps laws db view.heap (db q)) n)
          ∙ l
          ∙ ap (unspent maps view.heap) n
          ∙ sym (ap (unspent maps marked.heap) (marked_entry q ∙ n))
      | inr (r, f) ↦
          ap (available_from maps laws db marked.heap (db q)) (marked_entry q ∙ f)
          ∙ sym (ap (unspent maps marked.heap) (marked_entry q ∙ f))
    ]

    loaded_after :
        (ps : List Outpoint)
        → All
            (λ q. is_available maps laws db view q ≡ unspent maps view.heap (get_entry maps q view))
            ps
        → All
            (λ q.
              is_available maps laws db marked q
              ≡ unspent maps marked.heap (get_entry maps q marked))
            ps
    loaded_after [] a = tt
    loaded_after (q ∷ ps) (l, a) = (marked_loaded q l, loaded_after ps a)

    entries_after :
        (ps : List Outpoint) → entries maps laws db view ps ≡ entries maps laws db marked ps
    unfolding get_entry
    entries_after ps = refl

  all_same :
      (ps : List Outpoint) (p : Outpoint) (view view' : View maps)
      → NotIn p ps
      → ((q : Outpoint)
          → q ≢ p
          → is_available maps laws db view' q ≡ is_available maps laws db view q)
      → all_available maps laws db view' ps ≡ all_available maps laws db view ps
  all_same [] p view view' n s = refl
  all_same (q ∷ ps) p view view' (ne, n) s =
      λ i. s q (λ e. ne (sym e)) i && all_same ps p view view' n s i

  refused-HasMarked :
      (ps : List Outpoint) (view : View maps)
      → IsValid maps view
      → all_available maps laws db view ps ≡ false
      → HasMarked ps view view
  refused-HasMarked ps view v f = record {
    other_same = λ q n. refl;
    same_entries = λ q. refl;
    marked_valid = v;
    are_spent = λ t. absurd (clash f t);
  }

  mark_all-some :
      (ref : ℕ) (coins : List (Option ℕ)) (view : View maps)
      → mark_all maps db (some ref ∷ coins) view ≡ (
          if is_spent view.heap ref
          then (false, view)
          else mark_all maps db coins (spent_view maps ref view))
  unfolding mark_all
  mark_all-some ref coins view = refl

  -- A coin that is not spent is marked, and then the others.
  mark_next :
      (p : Outpoint) (ref : ℕ) (view : View maps) (v : IsValid maps view)
      (e : get_entry maps p view ≡ some ref) (ps : List Outpoint) (view2 : View maps)
      → NotIn p ps
      → is_spent view.heap ref ≡ false
      → mark_all maps db
          (entries maps laws db (spent_view maps ref view) ps)
          (spent_view maps ref view)
        ≡ (all_available maps laws db (spent_view maps ref view) ps, view2)
      → HasMarked ps (spent_view maps ref view) view2
      → (mark_all maps db (entries maps laws db view (p ∷ ps)) view
          ≡ (all_available maps laws db view (p ∷ ps), view2))
        × HasMarked (p ∷ ps) view view2
  mark_next p ref view v e ps view2 n f e' h =
      let yes_there : is_available maps laws db view p ≡ true =
        ap (available_from maps laws db view.heap (db p)) e ∙ ap not f in
      let same = all_same ps p view (spent_view maps ref view) n (marked_other p ref view v e) in
      (
        (λ i. mark_all maps db (e i ∷ entries maps laws db view ps) view)
            ∙ mark_all-some ref (entries maps laws db view ps) view
            ∙ rw f (
                ap (λ t. mark_all maps db t (spent_view maps ref view))
                  (entries_after p ref view v e ps)
                ∙ e')
            ∙ (λ i. (same i, view2))
            ∙ sym (λ i. (yes_there i && all_available maps laws db view ps, view2)),
        record {
          other_same = λ q (ne, nq). h.other_same q nq ∙ marked_other p ref view v e q ne;
          same_entries = λ q. h.same_entries q ∙ marked_entry p ref view v e q;
          marked_valid = h.marked_valid;
          are_spent = λ t.
              (h.other_same p n ∙ marked_here p ref view v e, h.are_spent (same ∙ and_right _ _ t));
        },
      )

  pub mark_all-HasMarked :
      (ps : List Outpoint) (view : View maps)
      → IsValid maps view
      → AreDistinct ps
      → All
          (λ p. is_available maps laws db view p ≡ unspent maps view.heap (get_entry maps p view))
          ps
      → (view' : View maps) × (mark_all maps db (entries maps laws db view ps) view
          ≡ (all_available maps laws db view ps, view'))
        × HasMarked ps view view'
  unfolding mark_all
  mark_all-HasMarked [] view v d a = (
    view,
    refl,
    record {
      other_same = λ q n. refl;
      same_entries = λ q. refl;
      marked_valid = v;
      are_spent = λ t. tt;
    },
  )
  mark_all-HasMarked (p ∷ ps) view v (n, d) (l, a) = elim (Option-cases (get_entry maps p view)) [
    | inl e ↦
        let no : is_available maps laws db view p ≡ false = l ∙ ap (unspent maps view.heap) e in
        (
          view,
          (λ i. mark_all maps db (e i ∷ entries maps laws db view ps) view)
              ∙ sym (λ i. (no i && all_available maps laws db view ps, view)),
          refused-HasMarked (p ∷ ps) view v (λ i. no i && all_available maps laws db view ps),
        )
    | inr (ref, e) ↦ elim (Bool-cases (is_spent view.heap ref)) [
      | inl s ↦
          let no : is_available maps laws db view p ≡ false =
            ap (available_from maps laws db view.heap (db p)) e ∙ ap not s in
          (
            view,
            (λ i. mark_all maps db (e i ∷ entries maps laws db view ps) view)
                ∙ mark_all-some ref (entries maps laws db view ps) view
                ∙ rw s refl
                ∙ sym (λ i. (no i && all_available maps laws db view ps, view)),
            refused-HasMarked (p ∷ ps) view v (λ i. no i && all_available maps laws db view ps),
          )
      | inr f ↦
          let (view2, e', h) =
            mark_all-HasMarked ps (spent_view maps ref view) (spent_view-IsValid maps ref view v) d
              (loaded_after p ref view v e ps a) in
          let (eq, marks) = mark_next p ref view v e ps view2 n f e' h in (view2, eq, marks)
    ]
  ]
