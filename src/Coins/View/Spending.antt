-- ===== src/Coins/View/Spending.antt =====
-- Spending in a coin view: one entry, and what the undo list gives back.
use bcoin.Prelude.{
  ℕ, ◌<◌, ◌≡◌, ◌≢◌, ◌⊎◌, refl, sym, ap, ◌∙◌, Bool, true, false, not, Option, none, some, ◌∷◌, arith,
  if◌then◌else◌, length, Bool-cases, Option-cases, inl, inr,
}
use bcoin.Utils.BufferMap.{BufferMap}
use bcoin.Coins.{Heap, Coins, is_spent, mark, find, spend, is_unspent}
use bcoin.Coins.View.{Outpoint, View, entry_of, get_entry, is_unspent_at, spend_entry}
use bcoin.Coins.View.Entries.{length-mark, is_spent-mark_same, is_spent-mark_other}

module _ (maps : BufferMap Coins) where
  -- Every entry is an object of the heap, and no two outpoints share one.
  pub record IsValid (view : View maps) : Type 0 where
    pub in_heap :
        (p : Outpoint) (ref : ℕ) → get_entry maps p view ≡ some ref → ref < length view.heap
    pub apart :
        (p q : Outpoint) (ref : ℕ)
        → get_entry maps p view ≡ some ref
        → get_entry maps q view ≡ some ref
        → p ≡ q

  abbrev pub unspent : Heap → Option ℕ → Bool
  unspent heap none = false
  unspent heap (some ref) = not (is_spent heap ref)

  pub is_unspent_at-get_entry :
      (p : Outpoint) (view : View maps)
      → is_unspent_at maps p view ≡ unspent view.heap (get_entry maps p view)
  unfolding is_unspent_at is_unspent get_entry
  is_unspent_at-get_entry p view = go (maps.get p.hash view.map)
    where
      go :
          (coins : Option Coins)
          → (elim coins [ none ↦ false | some cs ↦ is_unspent view.heap p.index cs ])
            ≡ unspent view.heap (entry_of p.index coins)
      go none = refl
      go (some cs) = elim (Option-cases (find p.index cs)) [
        | inl e ↦ rw (e, is_unspent) refl
        | inr (ref, e) ↦ rw (e, is_unspent) refl
      ]

  -- The view after an entry is spent.
  abbrev pub spent_view : ℕ → View maps → View maps
  spent_view ref view = record view { undo = ref ∷ view.undo; heap = mark view.heap ref }

  spend_entry-none :
      (p : Outpoint) (view : View maps)
      → get_entry maps p view ≡ none
      → spend_entry maps p view ≡ (none, view)
  unfolding spend_entry spend get_entry
  spend_entry-none p view h = elim (Option-cases (maps.get p.hash view.map)) [
    | inl e ↦ rw (e, spend_entry) refl
    | inr (cs, e) ↦ rw (e, spend_entry, rw (e, get_entry) at h, spend) refl
  ]

  spend_entry-some :
      (p : Outpoint) (ref : ℕ) (view : View maps)
      → get_entry maps p view ≡ some ref
      → spend_entry maps p view
        ≡ (if is_spent view.heap ref then (none, view) else (some ref, spent_view ref view))
  unfolding spend_entry spend get_entry
  spend_entry-some p ref view h = elim (Option-cases (maps.get p.hash view.map)) [
    | inl e ↦ cc (rw (e, get_entry) at h)
    | inr (cs, e) ↦ elim (Bool-cases (is_spent view.heap ref)) [
      | inl s ↦ rw (e, spend_entry, rw (e, get_entry) at h, spend, s) refl
      | inr s ↦ rw (e, spend_entry, rw (e, get_entry) at h, spend, s) refl
    ]
  ]

  pub spent_view-IsValid :
      (ref : ℕ) (view : View maps) → IsValid view → IsValid (spent_view ref view)
  unfolding get_entry
  spent_view-IsValid ref view v = record {
    in_heap = λ p r e. omega (arith, v.in_heap p r e, length-mark view.heap ref);
    apart = v.apart;
  }

  pub unspent-other :
      (p q : Outpoint) (ref : ℕ) (view : View maps)
      → IsValid view
      → get_entry maps p view ≡ some ref
      → q ≢ p
      → unspent (mark view.heap ref) (get_entry maps q view)
        ≡ unspent view.heap (get_entry maps q view)
  unspent-other p q ref view v e ne = elim (Option-cases (get_entry maps q view)) [
    | inl n ↦ rw n refl
    | inr (r, f) ↦
        rw (f, is_spent-mark_other view.heap ref r (λ s. ne (v.apart q p ref (f ∙ ap some s) e)))
          refl
  ]

  abbrev pub Spent : Outpoint → View maps → ℕ → View maps → Type 0
  Spent p view ref view' =
      (get_entry maps p view ≡ some ref)
      × (view'.undo ≡ ref ∷ view.undo)
      × (is_unspent_at maps p view' ≡ false)
      × ((q : Outpoint) → q ≢ p → is_unspent_at maps q view' ≡ is_unspent_at maps q view)
      × IsValid view'

  spent_view-Spent :
      (p : Outpoint) (ref : ℕ) (view : View maps)
      → IsValid view
      → get_entry maps p view ≡ some ref
      → Spent p view ref (spent_view ref view)
  unfolding get_entry
  spent_view-Spent p ref view v e = (
    e,
    refl,
    is_unspent_at-get_entry p (spent_view ref view)
        ∙ rw (e, is_spent-mark_same view.heap ref (v.in_heap p ref e)) refl,
    λ q ne.
        is_unspent_at-get_entry q (spent_view ref view)
        ∙ unspent-other p q ref view v e ne
        ∙ sym (is_unspent_at-get_entry q view),
    spent_view-IsValid ref view v,
  )

  -- In a valid view `spendEntry` refuses an output that is not unspent and changes nothing; else it
  -- returns its entry, which is put on the undo list: the output is spent from then on, all other
  -- outputs are as before, and the view is valid.
  pub spend_entry_correct :
      (p : Outpoint) (view : View maps)
      → IsValid view
      → ((is_unspent_at maps p view ≡ false) × (spend_entry maps p view ≡ (none, view)))
        ⊎ ((is_unspent_at maps p view ≡ true)
            × ((ref : ℕ) × (view' : View maps) × (spend_entry maps p view ≡ (some ref, view'))
                × Spent p view ref view'))
  spend_entry_correct p view v = elim (Option-cases (get_entry maps p view)) [
    | inl n ↦ inl (is_unspent_at-get_entry p view ∙ rw n refl, spend_entry-none p view n)
    | inr (ref, e) ↦ elim (Bool-cases (is_spent view.heap ref)) [
      | inl s ↦ inl (
        is_unspent_at-get_entry p view ∙ rw (e, s) refl,
        spend_entry-some p ref view e ∙ rw s refl,
      )
      | inr s ↦ inr (
        is_unspent_at-get_entry p view ∙ rw (e, s) refl,
        (
          ref,
          spent_view ref view,
          spend_entry-some p ref view e ∙ rw s refl,
          spent_view-Spent p ref view v e,
        ),
      )
    ]
  ]
