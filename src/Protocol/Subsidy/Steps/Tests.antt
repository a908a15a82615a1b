-- ===== src/Protocol/Subsidy/Steps/Tests.antt =====
-- The subsidy at the last block of an era and at the first one after it.
use bcoin.Prelude.{suc, ◌+◌, ◌*◌, ◌≤◌, ◌≡◌, refl, arith}
use bcoin.Protocol.Subsidy.{falling, whole_subsidy, get_block_subsidy}
use bcoin.Protocol.Subsidy.Steps.{stairs, get_block_subsidy-stairs}

-- It rises by ten coins.
last_of_twenties : get_block_subsidy 5273694 ≡ 1270 * 100000000
unfolding get_block_subsidy whole_subsidy falling
last_of_twenties = refl

first_after_twenties : get_block_subsidy 5273695 ≡ 1280 * 100000000
unfolding get_block_subsidy whole_subsidy falling
first_after_twenties = refl

get_block_subsidy-stairs_example :
    (get_block_subsidy 5273694 ≤ stairs 5273694 * 100000000)
    × (stairs 5273694 * 100000000 ≤ get_block_subsidy 5273694 + 20 * 100000000)
    × (stairs (suc 5273694) ≤ stairs 5273694)
get_block_subsidy-stairs_example = get_block_subsidy-stairs 5273694 (omega arith)
