-- ===== src/Protocol/Compact/Tests.antt =====
-- A byte length with the laws of BN, and the bits of two targets.
use bcoin.Prelude.{
  ℕ, zero, suc, ◌+◌, ◌*◌, ◌/◌, ◌^◌, ◌≤◌, ◌<◌, ◌≡◌, ap, pos, true, false, arith, ◌==◌, Bool-cases,
  inl, inr,
}
use bcoin.Protocol.Compact.{from_compact, to_compact, IsByteLength}
use bcoin.Protocol.Compact.Powers.{bytes-suc}
use bcoin.Protocol.Compact.Rounding.{to_compact-from_compact}

unfoldable count : ℕ → ℕ → ℕ
count zero n = 0
count (suc fuel) n = elim (n == 0) [ true ↦ 0 | false ↦ count fuel (n / 256) + 1 ]

count-fits : (fuel n : ℕ) → n ≤ fuel → n < 2 ^ (8 * count fuel n)
unfolding count
count-fits zero n h = omega (arith, h)
count-fits (suc fuel) n h = elim (Bool-cases (n == 0)) [
  | inl e ↦ rw (count, e) (ground arith)
  | inr e ↦
      rw (count, e)
        (omega (arith, count-fits fuel (n / 256) (ground arith), bytes-suc (count fuel (n / 256))))
]

count-least : (fuel n k : ℕ) → n < 2 ^ (8 * k) → count fuel n ≤ k
unfolding count
count-least zero n k h = omega arith
count-least (suc fuel) n k h = elim (Bool-cases (n == 0)) [
  | inl e ↦ rw (count, e) (omega arith)
  | inr e ↦ rw (count, e) (later fuel n k h (ground arith) (count-least fuel (n / 256)))
]
  where
    later :
        (fuel n k : ℕ)
        → n < 2 ^ (8 * k)
        → 1 ≤ n
        → ((j : ℕ) → n / 256 < 2 ^ (8 * j) → count fuel (n / 256) ≤ j)
        → count fuel (n / 256) + 1 ≤ k
    later fuel n zero h one ih = absurd (omega (arith, h, one))
    later fuel n (suc j) h one ih =
        let e : 2 ^ (8 * suc j) ≡ 2 ^ (8 * (j + 1)) = ap (λ (i : ℕ). 2 ^ (8 * i)) (omega arith) in
        let step = ih j (omega (arith, h, e, bytes-suc j)) in omega (arith, step)

abbrev bytes_of : ℕ → ℕ
bytes_of n = count n n

bytes_of-IsByteLength : IsByteLength bytes_of
bytes_of-IsByteLength = record {
  fits = λ n. count-fits n n (omega arith);
  least = λ n k h. count-least n n k h;
}

-- The bits of the first blocks of Bitcoin, and a mantissa of two bytes.
to_compact-from_compact_example :
    (from_compact ((26 + 3) * 2 ^ 24 + 0x00ffff) ≡ pos (0x00ffff * 2 ^ (8 * 26)))
    × (to_compact bytes_of (0x00ffff * 2 ^ (8 * 26)) ≡ (26 + 3) * 2 ^ 24 + 0x00ffff)
to_compact-from_compact_example =
    to_compact-from_compact 26 0x00ffff bytes_of bytes_of-IsByteLength (omega arith) (omega arith)
      (omega arith)
