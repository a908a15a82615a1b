-- ===== src/Coins/View/Entries.antt =====
-- The two levels of maps of a coin view as one map from outpoints to entries.
use bcoin.Prelude.{
  ℕ, zero, suc, ◌<◌, ◌≡◌, ◌≢◌, refl, sym, ap, ◌∙◌, Bool, true, false, Option, none, some, [], ◌∷◌,
  arith, ◌==◌, length, Bool-cases, ==_iff, inl, inr,
}
use bcoin.Utils.BufferMap.{BufferMap, IsMap}
use bcoin.Coins.{Heap, Coins, is_spent, mark, find, add}
use bcoin.Coins.View.{Outpoint, View, or_new, entry_of, coins_at, add_entry, get_entry}

find-add_same : (index ref : ℕ) (outputs : Coins) → find index (add index ref outputs) ≡ some ref
find-add_same index ref [] = ground arith
find-add_same index ref ((i, old) ∷ outputs) = ground (arith, find-add_same index ref outputs)

find-add_other :
    (index other ref : ℕ) (outputs : Coins)
    → other ≢ index
    → find other (add index ref outputs) ≡ find other outputs
find-add_other index other ref [] ne = ground arith
find-add_other index other ref ((i, old) ∷ outputs) ne =
    ground (arith, find-add_other index other ref outputs ne)

-- `mark` sets one flag.
pub length-mark : (heap : Heap) (ref : ℕ) → length (mark heap ref) ≡ length heap
length-mark [] ref = refl
length-mark (coin ∷ heap) zero = refl
length-mark (coin ∷ heap) (suc ref) = ap suc (length-mark heap ref)

pub is_spent-mark_same :
    (heap : Heap) (ref : ℕ) → ref < length heap → is_spent (mark heap ref) ref ≡ true
is_spent-mark_same [] ref h = absurd (omega arith)
is_spent-mark_same (coin ∷ heap) zero h = refl
is_spent-mark_same (coin ∷ heap) (suc ref) h = is_spent-mark_same heap ref (omega arith)

pub is_spent-mark_other :
    (heap : Heap) (ref other : ℕ)
    → other ≢ ref
    → is_spent (mark heap ref) other ≡ is_spent heap other
is_spent-mark_other [] ref other ne = refl
is_spent-mark_other (coin ∷ heap) zero zero ne = absurd (ne refl)
is_spent-mark_other (coin ∷ heap) zero (suc other) ne = refl
is_spent-mark_other (coin ∷ heap) (suc ref) zero ne = refl
is_spent-mark_other (coin ∷ heap) (suc ref) (suc other) ne =
    is_spent-mark_other heap ref other (λ e. ne (ap suc e))

find-or_new : (index : ℕ) (coins : Option Coins) → find index (or_new coins) ≡ entry_of index coins
find-or_new index none = refl
find-or_new index (some coins) = refl

same_outpoint : (p q : Outpoint) → q.hash ≡ p.hash → q.index ≡ p.index → q ≡ p
same_outpoint p q h i = ground arith

module _ (maps : BufferMap Coins) (laws : IsMap maps) where
  pub get_entry-add_same :
      (p : Outpoint) (ref : ℕ) (view : View maps)
      → get_entry maps p (add_entry maps p ref view) ≡ some ref
  unfolding get_entry add_entry
  get_entry-add_same p ref view =
      ap (entry_of p.index)
        (laws.get-put_same p.hash (add p.index ref (coins_at maps p.hash view)) view.map)
      ∙ find-add_same p.index ref (coins_at maps p.hash view)

  pub get_entry-add_other :
      (p q : Outpoint) (ref : ℕ) (view : View maps)
      → q ≢ p
      → get_entry maps q (add_entry maps p ref view) ≡ get_entry maps q view
  unfolding get_entry add_entry
  get_entry-add_other p q ref view ne = elim (Bool-cases (q.hash == p.hash)) [
    | inl e ↦
        let h = (==_iff q.hash p.hash).0 e in
        ap
          (λ k.
            entry_of q.index
              (maps.get k (maps.put p.hash (add p.index ref (coins_at maps p.hash view)) view.map)))
          h
        ∙ ap (entry_of q.index)
            (laws.get-put_same p.hash (add p.index ref (coins_at maps p.hash view)) view.map)
        ∙ find-add_other p.index q.index ref (coins_at maps p.hash view)
            (λ i. ne (same_outpoint p q h i))
        ∙ find-or_new q.index (maps.get p.hash view.map)
        ∙ ap (λ k. entry_of q.index (maps.get k view.map)) (sym h)
    | inr d ↦ ap (entry_of q.index) (
        laws.get-put_other p.hash q.hash (add p.index ref (coins_at maps p.hash view)) view.map
          (λ h. clash ((==_iff q.hash p.hash).1 h) d))
  ]
    where
      clash : {b : Bool} → b ≡ true → b ≡ false → ⊥
      clash h k = cc
