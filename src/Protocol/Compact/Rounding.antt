-- ===== src/Protocol/Compact/Rounding.antt =====
-- Compact numbers that are normalised survive the way to a target and back.
use bcoin.Prelude.{
  ℕ, zero, suc, ◌+◌, ◌-◌, ◌*◌, ◌/◌, ◌%◌, ◌^◌, ◌≤◌, ◌<◌, ◌≡◌, inl, inr, refl, sym, ap, ◌∙◌, pos,
  false, arith, ltb, leb, ◌==◌, Bool-cases, if◌then◌else◌,
}
use native.Mathlib.Nat.{mul-le-mul_right, mul-lt-mul_of_pos_right, mul-div_cancel, mul_assoc}
use bcoin.Protocol.Compact.{
  signed, magnitude, from_compact, mantissa_of, joined, to_compact, IsByteLength,
}
use bcoin.Protocol.Compact.Powers.{
  bytes-suc, bytes-two, bytes-three, bytes-positive, byte_length-between,
}

signed-false : (n : ℕ) → signed false n ≡ pos n
signed-false zero = refl
signed-false (suc n) = refl

from_compact-parts :
    (c e m : ℕ)
    → (c == 0) ≡ false
    → c / 2 ^ 24 ≡ e
    → c % 2 ^ 23 ≡ m
    → (c / 2 ^ 23 % 2 == 1) ≡ false
    → from_compact c ≡ signed false (magnitude e m)
unfolding from_compact
from_compact-parts c e m z he hm hs = rw (from_compact, z, he, hm, hs) refl

abbrev shifted : ℕ → ℕ → ℕ
shifted n b = if leb b 3 then n * 2 ^ (8 * (3 - b)) else n / 2 ^ (8 * (b - 3))

shifted-right : (n b j : ℕ) → b ≡ 3 + j → shifted n b ≡ n / 2 ^ (8 * j)
shifted-right n b j h = elim (Bool-cases (leb b 3)) [
  | inl e ↦
      let none_b : 3 - b ≡ 0 = ground arith in
      let none_j : j ≡ 0 = ground arith in
      let flat : n * 2 ^ (8 * 0) ≡ n / 2 ^ (8 * 0) = omega arith in
      rw e (
        ap (λ (i : ℕ). n * 2 ^ (8 * i)) none_b
        ∙ flat
        ∙ ap (λ (i : ℕ). n / 2 ^ (8 * i)) (sym none_j))
  | inr e ↦ rw e (ap (λ (i : ℕ). n / 2 ^ (8 * i)) (omega (arith, h)))
]

shifted-left : (n b j : ℕ) → b + j ≡ 3 → shifted n b ≡ n * 2 ^ (8 * j)
shifted-left n b j h = elim (Bool-cases (leb b 3)) [
  | inl e ↦ rw e (ap (λ (i : ℕ). n * 2 ^ (8 * i)) (omega (arith, h)))
  | inr e ↦ absurd (ground arith)
]

assoc : (m p : ℕ) → m * (256 * p) ≡ (m * 256) * p
assoc m p = sym (mul_assoc m 256 p)

-- The target of a short mantissa, without its last byte.
shifted-short : (k m : ℕ) → shifted (m * 2 ^ (8 * k)) (k + 2) ≡ 2 ^ 8 * m
shifted-short zero m = shifted-left (m * 2 ^ (8 * 0)) 2 1 refl ∙ omega arith
shifted-short (suc k) m =
    let split : m * 2 ^ (8 * suc k) ≡ (m * 256) * 2 ^ (8 * k) =
      ap (λ (j : ℕ). m * 2 ^ (8 * j)) (omega arith)
      ∙ ap (λ (p : ℕ). m * p) (bytes-suc k)
      ∙ assoc m (2 ^ (8 * k)) in
    shifted-right (m * 2 ^ (8 * suc k)) (suc k + 2) k (omega arith)
    ∙ ap (λ (n : ℕ). n / 2 ^ (8 * k)) split
    ∙ mul-div_cancel (m * 256) (bytes-positive k)
    ∙ omega arith

module _ (k m : ℕ) where
  abbrev power : ℕ
  power = 2 ^ (8 * k)

  magnitude-normal : magnitude (k + 3) m ≡ m * power
  magnitude-normal = elim (Bool-cases (leb (k + 3) 3)) [
    | inl e ↦
        let zero_k : k ≡ 0 = ground arith in
        let none_k : 3 - (k + 3) ≡ 0 = omega arith in
        let flat : m / 2 ^ (8 * 0) ≡ m * 2 ^ (8 * 0) = omega arith in
        rw e (
          ap (λ (j : ℕ). m / 2 ^ (8 * j)) none_k
          ∙ flat
          ∙ ap (λ (j : ℕ). m * 2 ^ (8 * j)) (sym zero_k))
    | inr e ↦ rw e (ap (λ (j : ℕ). m * 2 ^ (8 * j)) (omega arith))
  ]

  from_compact-normal :
      k ≤ 252 → 2 ^ 15 ≤ m → m < 2 ^ 23 → from_compact ((k + 3) * 2 ^ 24 + m) ≡ pos (m * power)
  unfolding from_compact
  from_compact-normal h low high =
      from_compact-parts ((k + 3) * 2 ^ 24 + m) (k + 3) m (ground (arith, low))
        (omega (arith, high)) (omega (arith, high)) (ground (arith, high))
      ∙ ap (signed false) magnitude-normal
      ∙ signed-false (m * power)

  module _ (byte_length : ℕ → ℕ) (laws : IsByteLength byte_length) where
    -- The length of the target, by the size of the mantissa.
    length-long : 2 ^ 16 ≤ m → m < 2 ^ 23 → byte_length (m * power) ≡ k + 3
    length-long low high =
        let above = mul-le-mul_right power low in
        let under = mul-lt-mul_of_pos_right {k = power} high (bytes-positive k) in
        byte_length-between byte_length (m * power) (k + 2) laws (omega (arith, bytes-two k, above))
          (omega (arith, bytes-three k, under))
        ∙ omega arith

    length-short : 2 ^ 15 ≤ m → m < 2 ^ 16 → byte_length (m * power) ≡ k + 2
    length-short low high =
        let above = mul-le-mul_right power low in
        let under = mul-lt-mul_of_pos_right {k = power} high (bytes-positive k) in
        byte_length-between byte_length (m * power) (k + 1) laws (omega (arith, bytes-suc k, above))
          (let e : 2 ^ (8 * (k + 1 + 1)) ≡ 2 ^ (8 * (k + 2)) =
              ap (λ (j : ℕ). 2 ^ (8 * j)) (omega arith) in
            omega (arith, e, bytes-two k, under))
        ∙ omega arith

    -- The mantissa that `toCompact` takes of the target, by the same cases.
    mantissa-long : 2 ^ 16 ≤ m → m < 2 ^ 23 → mantissa_of byte_length (m * power) ≡ m
    mantissa-long low high =
        shifted-right (m * power) (byte_length (m * power)) k (length-long low high ∙ omega arith)
        ∙ mul-div_cancel m (bytes-positive k)

    mantissa-short : 2 ^ 15 ≤ m → m < 2 ^ 16 → mantissa_of byte_length (m * power) ≡ 2 ^ 8 * m
    mantissa-short low high = ap (shifted (m * power)) (length-short low high) ∙ shifted-short k m

    joined-long : k ≤ 252 → m < 2 ^ 23 → joined (k + 3) m ≡ (k + 3) * 2 ^ 24 + m
    joined-long h high = ground arith

    joined-short :
        k ≤ 252 → 2 ^ 15 ≤ m → m < 2 ^ 16 → joined (k + 2) (2 ^ 8 * m) ≡ (k + 3) * 2 ^ 24 + m
    joined-short h low high = ground arith

    target-positive : 2 ^ 15 ≤ m → (m * power == 0) ≡ false
    target-positive low = ground (arith, mul-le-mul_right power low, bytes-positive k)

    -- For a byte length as BN has it: a compact number with an exponent from 3 to 255, a mantissa
    -- from 2^15 on, and no sign, stands for the mantissa with as many more bytes of zeros as the
    -- exponent is above 3; and `toCompact` of that number is the compact number again.
    pub to_compact-from_compact :
        k ≤ 252
        → 2 ^ 15 ≤ m
        → m < 2 ^ 23
        → (from_compact ((k + 3) * 2 ^ 24 + m) ≡ pos (m * 2 ^ (8 * k)))
          × (to_compact byte_length (m * 2 ^ (8 * k)) ≡ (k + 3) * 2 ^ 24 + m)
    unfolding to_compact
    to_compact-from_compact h low high = (
      from_compact-normal h low high,
      elim (Bool-cases (ltb m (2 ^ 16))) [
        | inl e ↦
            let short : m < 2 ^ 16 = ground arith in
            rw (to_compact, target-positive low)
              (ap (λ (b : ℕ). joined b (mantissa_of byte_length (m * power)))
                  (length-short low short)
                ∙ ap (joined (k + 2)) (mantissa-short low short)
                ∙ joined-short h low short)
        | inr e ↦
            let long : 2 ^ 16 ≤ m = ground arith in
            rw (to_compact, target-positive low)
              (ap (λ (b : ℕ). joined b (mantissa_of byte_length (m * power)))
                  (length-long long high)
                ∙ ap (joined (k + 3)) (mantissa-long long high)
                ∙ joined-long h high)
      ],
    )
