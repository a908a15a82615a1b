-- ===== src/Protocol/Subsidy.antt =====
-- `getBlockSubsidy` of lib/protocol/params/consensus.js. The height is a whole number that is not
-- negative. Its fractions of coins are exact here: a double errs by far less than 1 / 21262, which
-- is the least distance of a fraction that occurs from a whole number, and it has the whole numbers
-- exactly, since their quotients are multiples of one half.
pub mod Steps
use bcoin.Prelude.{ℕ, ◌+◌, ◌-◌, ◌*◌, ◌/◌, ◌&&◌, ltb, leb, if◌then◌else◌}

-- `Math.floor(BASE_REWARD - (tempHeight / owlings * rate + offset))`.
unfoldable pub falling : ℕ → ℕ → ℕ → ℕ
falling rate offset height = (5000 * 21262 - (height * rate + offset * 21262)) / 21262

-- The whole coins of the subsidy.
unfoldable pub whole_subsidy : ℕ → ℕ
whole_subsidy h =
    if ltb h 720
    then 4
    else if ltb 553531 h && ltb h 2105657
    then falling 10 10 (h - 553532)
    else if leb 2105657 h && ltb h 5273695
    then falling 20 750 (h - 2105657)
    else if leb 5273695 h && ltb h 7378633
    then falling 10 3720 (h - 5273695)
    else if leb 7378633 h && ltb h 8399209
    then falling 5 4705 (h - 7378633)
    else if leb 8399209 h && ltb h 14735285
    then 55
    else if leb 14735285 h && ltb h 15798385
    then falling 1 4946 (h - 14735285)
    else if leb 15798385 h && ltb h 25844304
    then 5
    else if leb 25844304 h
    then 0
    else 5000

unfoldable pub get_block_subsidy : ℕ → ℕ
get_block_subsidy h = whole_subsidy h * 100000000
