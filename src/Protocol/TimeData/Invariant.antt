-- ===== src/Protocol/TimeData/Invariant.antt =====
-- What every state of a TimeData object satisfies, and that `add` keeps it.
use bcoin.Prelude.{
  ℕ, ◌+◌, ◌*◌, ◌^◌, ◌≤◌, ◌<◌, ◌≡◌, refl, ◌⊎◌, inl, inr, ℤ, pos, negsuc, ◌-ℤ◌, true, false, some,
  List, [], ◌∷◌, map, arith, length, leb, Bool-cases,
}
use bcoin.Utils.Binary.{insert}
use bcoin.Utils.Binary.Insert.{IsComparator, IsSorted, Inserted, insert_correct}
use bcoin.Protocol.TimeData.{
  TimeData, Event, sampled, has, compare, abs, check_clock, set_median, update_offset, add, initial,
}
use mathlib.Core.List.{Perm}
use mathlib.Core.List.Perm
use Prim.Native.String.{String}

pub compare-IsComparator : IsComparator compare
unfolding ◌-ℤ◌
compare-IsComparator = record {
  flip = λ a b h. ground arith;
  zero_flip = λ a b h. ground arith;
  antisymm = λ a b h k. ground arith;
  trans = λ a b c h k. ground arith;
}

-- No peer is recorded twice.
abbrev pub Distinct : List (String × ℤ) → Type 0
Distinct [] = Unit
Distinct ((id, s) ∷ known) = (has id known ≡ false) × Distinct known

abbrev pub offsets : List (String × ℤ) → List ℤ
offsets = map (λ e. e.1)

-- The samples are sorted, at most `limit` of them, and exactly the offsets of the known peers, no
-- peer twice; the clock is never moved by 70 minutes or more.
pub record IsValid (td : TimeData) : Type 0 where
  pub sorted : IsSorted compare td.samples
  pub within : length td.samples ≤ td.limit
  pub small : td.limit ≤ 2 ^ 31
  pub peers : Distinct td.known
  pub agree : Perm td.samples (offsets td.known)
  pub bounded : abs td.offset < 70 * 60

-- The outcome of `add` is a state that is valid, whose events come with it.
check_clock-keeps :
    (td : TimeData)
    → ((check_clock td).0.samples ≡ td.samples)
      × ((check_clock td).0.known ≡ td.known)
      × ((check_clock td).0.limit ≡ td.limit)
unfolding check_clock
check_clock-keeps td = ground arith

set_median-keeps :
    (m : ℤ) (td : TimeData)
    → ((set_median m td).0.samples ≡ td.samples)
      × ((set_median m td).0.known ≡ td.known)
      × ((set_median m td).0.limit ≡ td.limit)
      × (abs (set_median m td).0.offset < 70 * 60)
unfolding set_median
set_median-keeps m td = ground (arith, check_clock-keeps td)

update_offset-keeps :
    (td : TimeData)
    → abs td.offset < 70 * 60
    → ((update_offset td).0.samples ≡ td.samples)
      × ((update_offset td).0.known ≡ td.known)
      × ((update_offset td).0.limit ≡ td.limit)
      × (abs (update_offset td).0.offset < 70 * 60)
unfolding update_offset
update_offset-keeps td h = grind (arith, set_median-keeps)

pub initial-IsValid : (n : ℕ) → n ≤ 2 ^ 31 → IsValid (initial (some n))
initial-IsValid n h = record {
  sorted = tt;
  within = omega arith;
  small = h;
  peers = tt;
  agree = Perm.refl [];
  bounded = omega arith;
}

-- The record after a new sample, as `add` hands it to `update_offset`.
abbrev recorded : String → ℤ → List ℤ → TimeData → TimeData
recorded id sample samples td = record td { samples = samples; known = (id, sample) ∷ td.known }

recorded-IsValid :
    (id : String) (sample : ℤ) (samples : List ℤ) (i : ℕ) (td : TimeData)
    → IsValid td
    → leb td.limit (length td.samples) ≡ false
    → has id td.known ≡ false
    → Inserted compare td.samples sample false (pos i) samples
    → IsValid (update_offset (recorded id sample samples td)).0
recorded-IsValid id sample samples i td v room fresh ins =
    let (s, k, l, o) = update_offset-keeps (recorded id sample samples td) v.bounded in
    record {
      sorted = rw s ins.0;
      within = rw (s, l) (room_left (ins.2));
      small = rw l v.small;
      peers = rw k (fresh, v.peers);
      agree = rw (s, k) (Perm.trans ins.1 (Perm.cons sample v.agree));
      bounded = o;
    }
  where
    room_left : length samples ≡ length td.samples + 1 → length samples ≤ td.limit
    room_left e = ground arith

-- From a valid state `add` always ends, in a valid state. It changes nothing and emits nothing if
-- the samples are full or the peer is known already; else it records the peer's offset.
pub add_correct :
    (now : ℤ) (id : String) (time : ℤ) (td : TimeData)
    → IsValid td
    → (td' : TimeData) × (events : List Event) × (add now id time td ≡ some (td', events))
      × IsValid td'
      × (((td' ≡ td) × (events ≡ []) × ((td.limit ≤ length td.samples) ⊎ (has id td.known ≡ true)))
          ⊎ ((length td.samples < td.limit)
              × (has id td.known ≡ false)
              × (td'.known ≡ (id, time -ℤ now) ∷ td.known)))
unfolding add
add_correct now id time td v = elim (Bool-cases (leb td.limit (length td.samples))) [
  | inl full ↦ (td, [], rw full, v, inl (refl, refl, inl (ground arith)))
  | inr room ↦ elim (Bool-cases (has id td.known)) [
    | inl old ↦ (td, [], rw (room, old), v, inl (refl, refl, inr old))
    | inr fresh ↦
        let (r, samples, e, ins) =
          insert_correct compare compare-IsComparator td.samples (time -ℤ now) false v.sorted
            (ground (arith, v.within, v.small)) in
        go r samples e ins room fresh
  ]
]
  where
    go :
        (r : ℤ) (samples : List ℤ)
        → insert compare td.samples (time -ℤ now) false ≡ some (r, samples)
        → Inserted compare td.samples (time -ℤ now) false r samples
        → leb td.limit (length td.samples) ≡ false
        → has id td.known ≡ false
        → (td' : TimeData) × (events : List Event) × (add now id time td ≡ some (td', events))
          × IsValid td'
          × (((td' ≡ td)
                × (events ≡ [])
                × ((td.limit ≤ length td.samples) ⊎ (has id td.known ≡ true)))
              ⊎ ((length td.samples < td.limit)
                  × (has id td.known ≡ false)
                  × (td'.known ≡ (id, time -ℤ now) ∷ td.known)))
    go (negsuc n) samples e ins room fresh = cc (ins.1)
    go (pos i) samples e ins room fresh =
        let after : TimeData = recorded id (time -ℤ now) samples td in
        let (s, k, l, o) = update_offset-keeps after v.bounded in
        (
          (update_offset after).0,
          sampled (time -ℤ now) (length samples) ∷ (update_offset after).1,
          rw (room, fresh, e, add),
          recorded-IsValid id (time -ℤ now) samples i td v room fresh ins,
          inr (ground arith, fresh, k),
        )
