-- ===== src/Utils/Binary/Tests.antt =====
-- Runs of the sorted-array routines, and their theorems at concrete arrays of integers.
use bcoin.Prelude.{
  ℕ, ◌≡◌, refl, ◌⊎◌, ℤ, pos, negsuc, ◌-ℤ◌, is_zero_ℤ, true, false, some, List, [], ◌∷◌, ◌++◌, arith,
  get_elem?,
}
use bcoin.Utils.Binary.{search_loop, search, insert, remove}
use bcoin.Utils.Binary.Search.{IsOrdered, search_complete}
use bcoin.Utils.Binary.Insert.{IsComparator, IsSorted, Inserted, Sorted-IsOrdered, insert_correct}
use bcoin.Utils.Binary.Remove.{remove_correct}

abbrev by_difference : ℤ → ℤ → ℤ
by_difference a b = a -ℤ b

abbrev samples : List ℤ
samples = negsuc 4 ∷ pos 0 ∷ pos 7 ∷ pos 7 ∷ pos 12 ∷ []

by_difference-IsComparator : IsComparator by_difference
unfolding ◌-ℤ◌
by_difference-IsComparator = record {
  flip = λ a b h. ground arith;
  zero_flip = λ a b h. ground arith;
  antisymm = λ a b h k. ground arith;
  trans = λ a b c h k. ground arith;
}

samples-IsSorted : IsSorted by_difference samples
unfolding ◌-ℤ◌
samples-IsSorted = ground arith

search_hit : search by_difference samples (pos 12) false ≡ some (pos 4)
unfolding search search_loop ◌-ℤ◌
search_hit = refl

search_miss : search by_difference samples (pos 8) false ≡ some (negsuc 0)
unfolding search search_loop ◌-ℤ◌
search_miss = refl

insert_new :
    insert by_difference samples (pos 8) true
    ≡ some (pos 4, negsuc 4 ∷ pos 0 ∷ pos 7 ∷ pos 7 ∷ pos 8 ∷ pos 12 ∷ [])
unfolding insert search search_loop ◌-ℤ◌
insert_new = refl

insert_uniq : insert by_difference samples (pos 0) true ≡ some (negsuc 0, samples)
unfolding insert search search_loop ◌-ℤ◌
insert_uniq = refl

remove_hit :
    remove by_difference samples (pos 0) ≡ some (true, negsuc 4 ∷ pos 7 ∷ pos 7 ∷ pos 12 ∷ [])
unfolding remove search search_loop ◌-ℤ◌
remove_hit = refl

samples-IsOrdered : (key : ℤ) → IsOrdered by_difference key samples
samples-IsOrdered key =
    Sorted-IsOrdered by_difference by_difference-IsComparator key samples samples-IsSorted

search_complete_example :
    ((p : ℕ) × (x : ℤ) × (search by_difference samples (pos 8) false ≡ some (pos p))
      × (get_elem? samples p ≡ some x)
      × (is_zero_ℤ (by_difference x (pos 8)) ≡ true))
    ⊎ ((search by_difference samples (pos 8) false ≡ some (negsuc 0))
        × ((i : ℕ) (x : ℤ)
            → get_elem? samples i ≡ some x
            → is_zero_ℤ (by_difference x (pos 8)) ≡ false))
search_complete_example =
    search_complete by_difference (pos 8) samples (samples-IsOrdered (pos 8)) (omega arith)

insert_correct_example :
    (r : ℤ) × (items : List ℤ) × (insert by_difference samples (pos 8) true ≡ some (r, items))
    × Inserted by_difference samples (pos 8) true r items
insert_correct_example =
    insert_correct by_difference by_difference-IsComparator samples (pos 8) true samples-IsSorted
      (omega arith)

remove_correct_example :
    ((pre : List ℤ) × (x : ℤ) × (post : List ℤ) × (samples ≡ pre ++ (x ∷ post))
      × (is_zero_ℤ (by_difference x (pos 7)) ≡ true)
      × (remove by_difference samples (pos 7) ≡ some (true, pre ++ post)))
    ⊎ ((remove by_difference samples (pos 7) ≡ some (false, samples))
        × ((i : ℕ) (x : ℤ)
            → get_elem? samples i ≡ some x
            → is_zero_ℤ (by_difference x (pos 7)) ≡ false))
remove_correct_example =
    remove_correct by_difference (pos 7) samples (samples-IsOrdered (pos 7)) (omega arith)
