-- ===== src/Protocol/TimeData.antt =====
-- lib/protocol/timedata.js: the adjusted clock. Times are whole seconds, negative offsets
-- included; the peers' samples are kept sorted by lib/utils/binary.js. What the object emits is
-- returned as a list of events, and the system clock is an argument.
pub mod Invariant
pub mod Runs
mod Tests
use bcoin.Prelude.{
  ℕ, ◌+◌, ◌*◌, ◌/◌, ◌%◌, ℤ, pos, pos_part, neg_part, ◌+ℤ◌, ◌-ℤ◌, is_zero_ℤ, Bool, true, false, not,
  ◌&&◌, ◌||◌, Option, none, some, List, [], ◌∷◌, ◌++◌, ltb, leb, ◌==◌, if◌then◌else◌, length,
  get_elem?,
}
use bcoin.Utils.Binary.{insert}
use Prim.Native.String.{String}
use text.Mathlib.Text.{◌==◌ as str_eq}

pub record TimeData : Type 0 where
  pub samples : List ℤ
  pub known : List (String × ℤ)
  pub limit : ℕ
  pub offset : ℤ
  pub checked : Bool

pub data Event : Type 0 where
  sampled : ℤ → ℕ → Event
  mismatch : Event
  offset_set : ℤ → Event

-- `new TimeData(limit)`.
abbrev pub initial : Option ℕ → TimeData
initial limit = record {
  samples = [];
  known = [];
  limit = elim limit [ none ↦ 200 | some n ↦ n ];
  offset = pos 0;
  checked = false;
}

-- `this.known.has(id)`.
abbrev pub has : String → List (String × ℤ) → Bool
has id [] = false
has id ((j, s) ∷ known) = str_eq j id || has id known

-- The helper `compare`, and `Math.abs`.
abbrev pub compare : ℤ → ℤ → ℤ
compare a b = a -ℤ b

abbrev pub abs : ℤ → ℕ
abs z = pos_part z + neg_part z

-- The loop over the samples that looks for one close to our own clock.
pub some_close : List ℤ → Bool
some_close [] = false
some_close (s ∷ samples) = not (is_zero_ℤ s) && ltb (abs s) (5 * 60) || some_close samples

-- The body under `if (Math.abs(median) >= 70 * 60)`: the flag, and what is emitted.
pub check_clock : TimeData → TimeData × List Event
check_clock td =
    if not td.checked && not (some_close td.samples)
    then (record td { checked = true }, mismatch ∷ [])
    else (td, [])

-- The body under `if (this.samples.length >= 5 && ...)`, at the median.
pub set_median : ℤ → TimeData → TimeData × List Event
set_median median td =
    if leb (70 * 60) (abs median)
    then (let (td', events) = check_clock td in
        (record td' { offset = pos 0 }, events ++ (offset_set (pos 0) ∷ [])))
    else (record td { offset = median }, offset_set median ∷ [])

pub update_offset : TimeData → TimeData × List Event
update_offset td =
    if leb 5 (length td.samples) && length td.samples % 2 == 1
    then elim (get_elem? td.samples (length td.samples / 2)) [
      | none ↦ (td, [])
      | some median ↦ set_median median td
    ]
    else (td, [])

-- `none` is no outcome of the program: the search below did not end.
pub add : ℤ → String → ℤ → TimeData → Option (TimeData × List Event)
add now id time td =
    if leb td.limit (length td.samples)
    then some (td, [])
    else if has id td.known
    then some (td, [])
    else let sample = time -ℤ now in
      elim (insert compare td.samples sample false) [
        | none ↦ none
        | some (i, samples) ↦
            let (td', events) =
              update_offset (record td { samples = samples; known = (id, sample) ∷ td.known }) in
            some (td', sampled sample (length samples) ∷ events)
      ]

-- `now`, `adjust` and `local`.
pub now : ℤ → TimeData → ℤ
now system td = system +ℤ td.offset

pub adjust : ℤ → TimeData → ℤ
adjust time td = time +ℤ td.offset

pub local : ℤ → TimeData → ℤ
local time td = time -ℤ td.offset
