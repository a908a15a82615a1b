-- ===== src/Wallet/Tests.antt =====
-- The selections of lib/wallet/coinselector.js on three pointers.
use bcoin.Prelude.{ℕ, ◌≡◌, refl, pos, negsuc, ◌+ℤ◌, ◌-ℤ◌, false, some, List, [], ◌∷◌}
use bcoin.Protocol.Policy.{get_min_fee, get_round_fee}
use bcoin.Wallet.CoinSelector.{
  CoinPointer, Options, get_fee, get_waste, waste_loop, srd_loop, select_srd, larger_loop,
  find_lowest_larger, largest_loop, select_rest, select_lowest_larger,
}
use bcoin.Wallet.BranchAndBound.{
  selection, select_bnb, search_loop, round_of, compare_best, backtrack, restore, advance, includes,
}

abbrev options : Options
options = record { height = negsuc 0; depth = negsuc 0; rate = 10000; round = false }

abbrev pointer : ℕ → ℕ → CoinPointer
pointer value index = record { spending_size = 68; effective_value = pos value; index = index }

abbrev pointers : List CoinPointer
pointers = pointer 5000 2 ∷ pointer 3000 0 ∷ pointer 2000 1 ∷ []

test_lowest : select_lowest_larger pointers (pos 1500) ≡ some (2 ∷ [])
unfolding select_lowest_larger largest_loop select_rest find_lowest_larger larger_loop ◌-ℤ◌
test_lowest = refl

test_srd : select_srd pointers (1 ∷ 2 ∷ 0 ∷ []) (pos 4000) ≡ some (2 ∷ 1 ∷ [])
unfolding select_srd srd_loop ◌+ℤ◌
test_srd = refl

test_fee : get_fee options 226 ≡ 2260
unfolding get_fee get_min_fee get_round_fee
test_fee = refl

-- Two solutions have the same value: the one with fewer inputs wastes less.
test_bnb : select_bnb options pointers (pos 4900) 300 ≡ selection (0 ∷ [])
unfolding select_bnb search_loop round_of compare_best backtrack restore advance includes get_waste
    waste_loop get_fee get_min_fee ◌+ℤ◌ ◌-ℤ◌
test_bnb = refl
