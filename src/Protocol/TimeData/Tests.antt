-- ===== src/Protocol/TimeData/Tests.antt =====
-- A clock that five peers move by ten seconds, one whose peers all disagree with it, and the
-- theorems at these.
use bcoin.Prelude.{
  ℕ, ◌≤◌, ◌<◌, ◌≡◌, refl, ◌⊎◌, ℤ, pos, ◌-ℤ◌, true, false, Option, none, some, List, [], ◌∷◌, arith,
  length,
}
use bcoin.Utils.Binary.{search_loop, search, insert}
use bcoin.Protocol.TimeData.{
  TimeData, Event, has, some_close, check_clock, set_median, update_offset, add, initial,
}
use bcoin.Protocol.TimeData.Invariant.{IsValid, add_correct, initial-IsValid}
use bcoin.Protocol.TimeData.Runs.{Packet, run, mismatches, run_correct}

abbrev five_peers : List Packet
five_peers =
    (pos 1000, "a", pos 1010)
    ∷ (pos 1000, "b", pos 1007)
    ∷ (pos 1000, "c", pos 990)
    ∷ (pos 1000, "a", pos 2000)
    ∷ (pos 1000, "d", pos 1010)
    ∷ (pos 1000, "e", pos 1020)
    ∷ []

abbrev bad_clock : List Packet
bad_clock =
    (pos 1000, "a", pos 9000)
    ∷ (pos 1000, "b", pos 9001)
    ∷ (pos 1000, "c", pos 9002)
    ∷ (pos 1000, "d", pos 9003)
    ∷ (pos 1000, "e", pos 9004)
    ∷ []

offset_of : Option (TimeData × List Event) → Option (ℤ × ℕ)
offset_of none = none
offset_of (some (td, events)) = some (td.offset, mismatches events)

five_peers-offset : offset_of (run five_peers (initial (some 200))) ≡ some (pos 10, 0)
unfolding offset_of run add insert search search_loop update_offset set_median check_clock
    some_close ◌-ℤ◌
five_peers-offset = refl

bad_clock-mismatch : offset_of (run bad_clock (initial none)) ≡ some (pos 0, 1)
unfolding offset_of run add insert search search_loop update_offset set_median check_clock
    some_close ◌-ℤ◌
bad_clock-mismatch = refl

add_correct_example :
    let td : TimeData = initial (some 200) in
    (td' : TimeData) × (events : List Event) × (add (pos 1000) "a" (pos 1010) td
      ≡ some (td', events))
    × IsValid td'
    × (((td' ≡ td) × (events ≡ []) × ((td.limit ≤ length td.samples) ⊎ (has "a" td.known ≡ true)))
        ⊎ ((length td.samples < td.limit)
            × (has "a" td.known ≡ false)
            × (td'.known ≡ ("a", pos 1010 -ℤ pos 1000) ∷ td.known)))
add_correct_example =
    add_correct (pos 1000) "a" (pos 1010) (initial (some 200)) (initial-IsValid 200 (omega arith))

run_correct_example :
    (td : TimeData) × (events : List Event) × (run five_peers (initial (some 200))
      ≡ some (td, events))
    × IsValid td
    × (mismatches events ≤ 1)
run_correct_example = run_correct five_peers 200 (omega arith)
