-- ===== src/Coins/Compress/Double.antt =====
-- Whole numbers below 2^53 are doubles, and no larger one is rounded below 2^53.
use bcoin.Prelude.{
  ℕ, zero, suc, ◌+◌, ◌*◌, ◌/◌, ◌%◌, ◌^◌, ◌≤◌, ◌<◌, ◌≡◌, inl, inr, true, false, Bool, ◌&&◌,
  if◌then◌else◌, arith, ltb, ◌==◌, Bool-cases,
}
use bcoin.Coins.Compress.{spacing, nearest, round}

pub round-small : (n : ℕ) → n < 2 ^ 53 → round n ≡ n
unfolding round spacing
round-small n h =
    let t : ltb (n / 1) (2 ^ 53) ≡ true = ground arith in rw (t, spacing) (ground arith)

quotient_floor : (m unit n : ℕ) → m ≤ n / unit → m * unit ≤ n
quotient_floor m unit n h = grind arith

floor_quotient : (m unit n : ℕ) → 2 ≤ unit → m * unit ≤ n → m ≤ n / unit
floor_quotient m unit n h k = grind arith

multiple_large : (q unit : ℕ) → 2 ≤ unit → 2 ^ 52 ≤ q → 2 ^ 53 ≤ q * unit
multiple_large q unit h k = grind arith

-- Where the distance is more than 1, the number counts at least 2^52 in it.
spacing-Reaches :
    (fuel unit n : ℕ)
    → 2 ≤ unit
    → 2 ^ 52 * unit ≤ n
    → (2 ≤ spacing fuel unit n) × (2 ^ 52 * spacing fuel unit n ≤ n)
unfolding spacing
spacing-Reaches zero unit n h k = (h, k)
spacing-Reaches (suc fuel) unit n h k = elim (Bool-cases (ltb (n / unit) (2 ^ 53))) [
  | inl t ↦ rw (t, spacing) (h, k)
  | inr f ↦
      rw (f, spacing)
        (spacing-Reaches fuel (2 * unit) n (omega (arith, h))
          (omega (arith, quotient_floor (2 ^ 53) unit n (ground arith))))
]

either_large :
    (a b : Bool) (x y : ℕ)
    → 2 ^ 53 ≤ x
    → 2 ^ 53 ≤ y
    → 2 ^ 53 ≤ (if a then x else if b then x else y)
either_large true b x y h k = h
either_large false true x y h k = h
either_large false false x y h k = k

nearest-large : (unit n : ℕ) → 2 ≤ unit → 2 ^ 52 * unit ≤ n → 2 ^ 53 ≤ nearest unit n
nearest-large unit n h k =
    let q : 2 ^ 52 ≤ n / unit = floor_quotient (2 ^ 52) unit n h k in
    let low = multiple_large (n / unit) unit h q in
    let high = multiple_large (n / unit + 1) unit h (omega (arith, q)) in
    either_large (ltb (2 * (n % unit)) unit) (2 * (n % unit) == unit && n / unit % 2 == 0)
      (n / unit * unit) ((n / unit + 1) * unit) low high

pub round-large : (n : ℕ) → 2 ^ 53 ≤ n → 2 ^ 53 ≤ round n
unfolding round spacing
round-large n h =
    let f : ltb (n / 1) (2 ^ 53) ≡ false = ground arith in
    let (two, reach) = spacing-Reaches 63 2 n (omega arith) (omega (arith, h)) in
    rw (f, spacing) (nearest-large (spacing 63 2 n) n two reach)

-- A sum or product that comes out below 2^53 is exact.
pub round-exact : (n : ℕ) → round n < 2 ^ 53 → round n ≡ n
round-exact n h = elim (Bool-cases (ltb n (2 ^ 53))) [
  | inl t ↦ round-small n (ground arith)
  | inr f ↦ absurd (omega (arith, h, round-large n (ground arith)))
]
