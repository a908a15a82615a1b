-- ===== src/Protocol/TimeData/Runs.antt =====
-- Any sequence of version packets handed to one TimeData object.
use bcoin.Prelude.{
  ℕ, ◌+◌, ◌^◌, ◌≤◌, ◌≡◌, refl, ℤ, pos, Bool, true, false, Option, none, some, List, [], ◌∷◌, ◌++◌,
  arith,
}
use bcoin.Protocol.TimeData.{
  TimeData, Event, sampled, mismatch, offset_set, check_clock, set_median, update_offset, add,
  initial,
}
use bcoin.Protocol.TimeData.Invariant.{IsValid, add_correct, initial-IsValid}
use Prim.Native.String.{String}

-- A version packet: our clock when it came, the peer, and the peer's clock.
abbrev pub Packet : Type 0
Packet = ℤ × String × ℤ

unfoldable pub run : List Packet → TimeData → Option (TimeData × List Event)
run [] td = some (td, [])
run ((now, id, time) ∷ packets) td = elim (add now id time td) [
  | none ↦ none
  | some (td', events) ↦ elim (run packets td') [
    | none ↦ none
    | some (td'', more) ↦ some (td'', events ++ more)
  ]
]

abbrev pub mismatches : List Event → ℕ
mismatches [] = 0
mismatches (mismatch ∷ events) = mismatches events + 1
mismatches (sampled s n ∷ events) = mismatches events
mismatches (offset_set o ∷ events) = mismatches events

abbrev bit : Bool → ℕ
bit true = 1
bit false = 0

mismatches-append : (e f : List Event) → mismatches (e ++ f) ≡ mismatches e + mismatches f
mismatches-append [] f = omega arith
mismatches-append (mismatch ∷ e) f = omega (arith, mismatches-append e f)
mismatches-append (sampled s n ∷ e) f = mismatches-append e f
mismatches-append (offset_set o ∷ e) f = mismatches-append e f

-- The event is emitted exactly when the flag is set.
check_clock-mismatches :
    (td : TimeData)
    → mismatches (check_clock td).1 + bit td.checked ≡ bit (check_clock td).0.checked
unfolding check_clock
check_clock-mismatches td = ground arith

set_median-mismatches :
    (m : ℤ) (td : TimeData)
    → mismatches (set_median m td).1 + bit td.checked ≡ bit (set_median m td).0.checked
unfolding set_median
set_median-mismatches m td = ground (
  arith,
  check_clock-mismatches td,
  mismatches-append (check_clock td).1 (offset_set (pos 0) ∷ []),
)

update_offset-mismatches :
    (td : TimeData)
    → mismatches (update_offset td).1 + bit td.checked ≡ bit (update_offset td).0.checked
unfolding update_offset
update_offset-mismatches td = grind (arith, set_median-mismatches)

add-mismatches :
    (now : ℤ) (id : String) (time : ℤ) (td td' : TimeData) (events : List Event)
    → add now id time td ≡ some (td', events)
    → mismatches events + bit td.checked ≡ bit td'.checked
unfolding add
add-mismatches now id time td td' events e = grind (arith, update_offset-mismatches)

bit-le : (b : Bool) → bit b ≤ 1
bit-le true = omega arith
bit-le false = omega arith

run-IsValid :
    (packets : List Packet) (td : TimeData)
    → IsValid td
    → (td' : TimeData) × (events : List Event) × (run packets td ≡ some (td', events))
      × IsValid td'
      × (mismatches events + bit td.checked ≡ bit td'.checked)
unfolding run
run-IsValid [] td v = (td, [], refl, v, omega arith)
run-IsValid ((now, id, time) ∷ packets) td v =
    let (td', events, e, v', changed) = add_correct now id time td v in
    let (td'', more, e', v'', m) = run-IsValid packets td' v' in
    (
      td'',
      events ++ more,
      rw (run, e, e'),
      v'',
      omega (arith, m, mismatches-append events more, add-mismatches now id time td td' events e),
    )

-- However many packets come, from a new object with room for at most 2^31 samples: the run ends
-- in a valid state, and the mismatch event is emitted at most once.
pub run_correct :
    (packets : List Packet) (n : ℕ)
    → n ≤ 2 ^ 31
    → (td : TimeData) × (events : List Event) × (run packets (initial (some n)) ≡ some (td, events))
      × IsValid td
      × (mismatches events ≤ 1)
run_correct packets n h =
    let (td, events, e, v, m) = run-IsValid packets (initial (some n)) (initial-IsValid n h) in
    (td, events, e, v, omega (arith, bit-le td.checked))
