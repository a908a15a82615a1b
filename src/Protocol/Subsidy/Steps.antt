-- ===== src/Protocol/Subsidy/Steps.antt =====
-- `getBlockSubsidy` against a subsidy that falls in steps of `owlings` blocks.
mod Tests
use bcoin.Prelude.{
  ℕ, suc, ◌+◌, ◌-◌, ◌*◌, ◌/◌, ◌≤◌, ◌<◌, ◌≡◌, ◌⊎◌, ltb, if◌then◌else◌, arith, refl, inl, inr, true,
  false, Bool-cases,
}
use bcoin.Protocol.Subsidy.{falling, whole_subsidy, get_block_subsidy}

-- The steps: the height counts in whole multiples of 21262 blocks.
unfoldable pub stepped : ℕ → ℕ → ℕ → ℕ
stepped rate offset height = 5000 - (height / 21262 * rate + offset)

-- The subsidy at each height from 720, by the ends of the eras.
unfoldable pub stairs : ℕ → ℕ
stairs h =
    if ltb h 553532
    then 5000
    else if ltb h 2105657
    then stepped 10 10 (h - 553532)
    else if ltb h 5273695
    then stepped 20 750 (h - 2105657)
    else if ltb h 7378633
    then stepped 10 3720 (h - 5273695)
    else if ltb h 8399209
    then stepped 5 4705 (h - 7378633)
    else if ltb h 14735285
    then 55
    else if ltb h 15798385
    then stepped 1 4946 (h - 14735285)
    else if ltb h 25844304
    then 5
    else 0

-- The subsidy lies between the steps and what the next step leaves, and the steps fall.
abbrev IsNear : ℕ → Type 0
IsNear h =
    (whole_subsidy h ≤ stairs h) × (stairs h ≤ whole_subsidy h + 20) × (stairs (suc h) ≤ stairs h)

next_start : (h : ℕ) → 720 ≤ h → h < 553532 → stairs (suc h) ≤ stairs h
unfolding stairs stepped
next_start h l u = ground arith

start-IsNear : (h : ℕ) → 720 ≤ h → h < 553532 → IsNear h
unfolding whole_subsidy stairs
start-IsNear h l u = (ground arith, ground arith, next_start h l u)

next_tens : (h : ℕ) → 553532 ≤ h → h < 2105657 → stairs (suc h) ≤ stairs h
unfolding stairs stepped
next_tens h l u = ground arith

tens_subsidy : (h : ℕ) → 553532 ≤ h → h < 2105657 → whole_subsidy h ≡ falling 10 10 (h - 553532)
unfolding whole_subsidy
tens_subsidy h l u = ground arith

tens_stairs : (h : ℕ) → 553532 ≤ h → h < 2105657 → stairs h ≡ stepped 10 10 (h - 553532)
unfolding stairs
tens_stairs h l u = ground arith

tens_between :
    (t : ℕ) → (falling 10 10 t ≤ stepped 10 10 t) × (stepped 10 10 t ≤ falling 10 10 t + 20)
unfolding falling stepped
tens_between t = (omega arith, omega arith)

tens-IsNear : (h : ℕ) → 553532 ≤ h → h < 2105657 → IsNear h
tens-IsNear h l u =
    let (below, above) = tens_between (h - 553532) in
    let e = tens_subsidy h l u in
    let e' = tens_stairs h l u in
    (omega (arith, e, e', below), omega (arith, e, e', above), next_tens h l u)

next_twenties : (h : ℕ) → 2105657 ≤ h → h < 5273695 → stairs (suc h) ≤ stairs h
unfolding stairs stepped
next_twenties h l u = ground arith

twenties_subsidy :
    (h : ℕ) → 2105657 ≤ h → h < 5273695 → whole_subsidy h ≡ falling 20 750 (h - 2105657)
unfolding whole_subsidy
twenties_subsidy h l u = ground arith

twenties_stairs : (h : ℕ) → 2105657 ≤ h → h < 5273695 → stairs h ≡ stepped 20 750 (h - 2105657)
unfolding stairs
twenties_stairs h l u = ground arith

twenties_between :
    (t : ℕ) → (falling 20 750 t ≤ stepped 20 750 t) × (stepped 20 750 t ≤ falling 20 750 t + 20)
unfolding falling stepped
twenties_between t = (omega arith, omega arith)

twenties-IsNear : (h : ℕ) → 2105657 ≤ h → h < 5273695 → IsNear h
twenties-IsNear h l u =
    let (below, above) = twenties_between (h - 2105657) in
    let e = twenties_subsidy h l u in
    let e' = twenties_stairs h l u in
    (omega (arith, e, e', below), omega (arith, e, e', above), next_twenties h l u)

next_later_tens : (h : ℕ) → 5273695 ≤ h → h < 7378633 → stairs (suc h) ≤ stairs h
unfolding stairs stepped
next_later_tens h l u = ground arith

later_tens_subsidy :
    (h : ℕ) → 5273695 ≤ h → h < 7378633 → whole_subsidy h ≡ falling 10 3720 (h - 5273695)
unfolding whole_subsidy
later_tens_subsidy h l u = ground arith

later_tens_stairs : (h : ℕ) → 5273695 ≤ h → h < 7378633 → stairs h ≡ stepped 10 3720 (h - 5273695)
unfolding stairs
later_tens_stairs h l u = ground arith

later_tens_between :
    (t : ℕ) → (falling 10 3720 t ≤ stepped 10 3720 t) × (stepped 10 3720 t ≤ falling 10 3720 t + 20)
unfolding falling stepped
later_tens_between t = (omega arith, omega arith)

later_tens-IsNear : (h : ℕ) → 5273695 ≤ h → h < 7378633 → IsNear h
later_tens-IsNear h l u =
    let (below, above) = later_tens_between (h - 5273695) in
    let e = later_tens_subsidy h l u in
    let e' = later_tens_stairs h l u in
    (omega (arith, e, e', below), omega (arith, e, e', above), next_later_tens h l u)

next_fives : (h : ℕ) → 7378633 ≤ h → h < 8399209 → stairs (suc h) ≤ stairs h
unfolding stairs stepped
next_fives h l u = ground arith

fives_subsidy : (h : ℕ) → 7378633 ≤ h → h < 8399209 → whole_subsidy h ≡ falling 5 4705 (h - 7378633)
unfolding whole_subsidy
fives_subsidy h l u = ground arith

fives_stairs : (h : ℕ) → 7378633 ≤ h → h < 8399209 → stairs h ≡ stepped 5 4705 (h - 7378633)
unfolding stairs
fives_stairs h l u = ground arith

fives_between :
    (t : ℕ) → (falling 5 4705 t ≤ stepped 5 4705 t) × (stepped 5 4705 t ≤ falling 5 4705 t + 20)
unfolding falling stepped
fives_between t = (omega arith, omega arith)

fives-IsNear : (h : ℕ) → 7378633 ≤ h → h < 8399209 → IsNear h
fives-IsNear h l u =
    let (below, above) = fives_between (h - 7378633) in
    let e = fives_subsidy h l u in
    let e' = fives_stairs h l u in
    (omega (arith, e, e', below), omega (arith, e, e', above), next_fives h l u)

next_plateau : (h : ℕ) → 8399209 ≤ h → h < 14735285 → stairs (suc h) ≤ stairs h
unfolding stairs stepped
next_plateau h l u = ground arith

plateau-IsNear : (h : ℕ) → 8399209 ≤ h → h < 14735285 → IsNear h
unfolding whole_subsidy stairs
plateau-IsNear h l u = (ground arith, ground arith, next_plateau h l u)

next_ones : (h : ℕ) → 14735285 ≤ h → h < 15798385 → stairs (suc h) ≤ stairs h
unfolding stairs stepped
next_ones h l u = ground arith

ones_subsidy :
    (h : ℕ) → 14735285 ≤ h → h < 15798385 → whole_subsidy h ≡ falling 1 4946 (h - 14735285)
unfolding whole_subsidy
ones_subsidy h l u = ground arith

ones_stairs : (h : ℕ) → 14735285 ≤ h → h < 15798385 → stairs h ≡ stepped 1 4946 (h - 14735285)
unfolding stairs
ones_stairs h l u = ground arith

ones_between :
    (t : ℕ) → (falling 1 4946 t ≤ stepped 1 4946 t) × (stepped 1 4946 t ≤ falling 1 4946 t + 20)
unfolding falling stepped
ones_between t = (omega arith, omega arith)

ones-IsNear : (h : ℕ) → 14735285 ≤ h → h < 15798385 → IsNear h
ones-IsNear h l u =
    let (below, above) = ones_between (h - 14735285) in
    let e = ones_subsidy h l u in
    let e' = ones_stairs h l u in
    (omega (arith, e, e', below), omega (arith, e, e', above), next_ones h l u)

next_tail : (h : ℕ) → 15798385 ≤ h → h < 25844304 → stairs (suc h) ≤ stairs h
unfolding stairs stepped
next_tail h l u = ground arith

tail-IsNear : (h : ℕ) → 15798385 ≤ h → h < 25844304 → IsNear h
unfolding whole_subsidy stairs
tail-IsNear h l u = (ground arith, ground arith, next_tail h l u)

next_over : (h : ℕ) → 25844304 ≤ h → stairs (suc h) ≤ stairs h
unfolding stairs stepped
next_over h l = ground arith

over-IsNear : (h : ℕ) → 25844304 ≤ h → IsNear h
unfolding whole_subsidy stairs
over-IsNear h l = (ground arith, ground arith, next_over h l)

below_or : (h b : ℕ) → (h < b) ⊎ (b ≤ h)
below_or h b = elim (Bool-cases (ltb h b)) [
  | inl t ↦ inl (ground arith)
  | inr f ↦ inr (ground arith)
]

each-IsNear : (h : ℕ) → 720 ≤ h → IsNear h
each-IsNear h l = elim (below_or h 553532) [
  | inl u ↦ start-IsNear h l u
  | inr l0 ↦ elim (below_or h 2105657) [
    | inl u ↦ tens-IsNear h l0 u
    | inr l1 ↦ elim (below_or h 5273695) [
      | inl u ↦ twenties-IsNear h l1 u
      | inr l2 ↦ elim (below_or h 7378633) [
        | inl u ↦ later_tens-IsNear h l2 u
        | inr l3 ↦ elim (below_or h 8399209) [
          | inl u ↦ fives-IsNear h l3 u
          | inr l4 ↦ elim (below_or h 14735285) [
            | inl u ↦ plateau-IsNear h l4 u
            | inr l5 ↦ elim (below_or h 15798385) [
              | inl u ↦ ones-IsNear h l5 u
              | inr l6 ↦ elim (below_or h 25844304) [
                | inl u ↦ tail-IsNear h l6 u
                | inr l7 ↦ over-IsNear h l7
              ]
            ]
          ]
        ]
      ]
    ]
  ]
]

-- From height 720 on, the subsidy is at most the one that falls in whole steps of 21262 blocks, which
-- never rises, and less than it by at most 20 coins.
pub get_block_subsidy-stairs :
    (h : ℕ)
    → 720 ≤ h
    → (get_block_subsidy h ≤ stairs h * 100000000)
      × (stairs h * 100000000 ≤ get_block_subsidy h + 20 * 100000000)
      × (stairs (suc h) ≤ stairs h)
unfolding get_block_subsidy
get_block_subsidy-stairs h l =
    let (below, above, falls) = each-IsNear h l in
    (omega (arith, below), omega (arith, above), falls)
