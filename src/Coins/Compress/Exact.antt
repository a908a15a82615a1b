-- ===== src/Coins/Compress/Exact.antt =====
-- The compressed form of amounts without any rounding.
use bcoin.Prelude.{
  ℕ, zero, suc, ◌+◌, ◌-◌, ◌*◌, ◌/◌, ◌%◌, ◌≤◌, ◌<◌, ◌≡◌, ◌≢◌, ◌⊎◌, inl, inr, refl, ap, ◌∙◌, true,
  false, arith, ltb, ◌==◌, Bool-cases, if◌then◌else◌,
}
use mathlib.Core.Path.{subst}
use bcoin.Coins.Compress.{strip}

-- What `pack`, `unpack` and `raise` compute, exactly.
abbrev pub packed : ℕ × ℕ → ℕ
packed (value, exp) =
    if ltb exp 9 then 1 + 10 * (9 * (value / 10) + value % 10 - 1) + exp else 10 + 10 * (value - 1)

unfoldable pub raised : ℕ → ℕ → ℕ
raised zero n = n
raised (suc exp) n = raised exp (n * 10)

abbrev pub unpacked : ℕ → ℕ → ℕ
unpacked value exp = if ltb exp 9 then value / 9 * 10 + value % 9 + 1 else value + 1

-- What the first loop leaves of an amount that is not 0, after so many rounds.
abbrev pub Stripped : ℕ → ℕ → ℕ × ℕ → Type 0
Stripped bound value (v, e) =
    (raised e v ≡ value) × (1 ≤ v) × ((e ≡ bound) ⊎ ((e < bound) × (v % 10 ≢ 0)))

raised_next : (exp n : ℕ) → raised (exp + 1) n ≡ raised exp (n * 10)
unfolding raised
raised_next exp n = let e : exp + 1 ≡ suc exp = omega arith in ap (λ (k : ℕ). raised k n) e

pub strip-Stripped :
    (left value exp : ℕ)
    → 1 ≤ value
    → Stripped (exp + left) (raised exp value) (strip left value exp)
unfolding strip raised
strip-Stripped zero value exp one = (refl, one, inl (omega arith))
strip-Stripped (suc left) value exp one = elim (Bool-cases (value % 10 == 0)) [
  | inl e ↦
      let less = strip left (value / 10) (exp + 1) in
      let whole : value / 10 * 10 ≡ value = ground arith in
      let same : raised (exp + 1) (value / 10) ≡ raised exp value =
        raised_next exp (value / 10) ∙ ap (raised exp) whole in
      let bound : exp + 1 + left ≡ exp + suc left = omega arith in
      let ih = strip-Stripped left (value / 10) (exp + 1) (ground arith) in
      rw (strip, e)
        (subst (λ b. Stripped b (raised exp value) less) bound
          (subst (λ w. Stripped (exp + 1 + left) w less) same ih))
  | inr e ↦ rw (strip, e) (refl, one, inr (omega arith, ground arith))
]

pub unpacked-packed :
    (v e : ℕ)
    → 1 ≤ v
    → (e ≡ 9) ⊎ ((e < 9) × (v % 10 ≢ 0))
    → ((packed (v, e) - 1) % 10 ≡ e)
      × (unpacked ((packed (v, e) - 1) / 10) e ≡ v)
      × (1 ≤ packed (v, e))
unpacked-packed v e one (inl h) = ground arith
unpacked-packed v e one (inr (h, k)) = ground arith

raised_times : (e n : ℕ) → raised (suc e) n ≡ raised e n * 10
unfolding raised
raised_times zero n = refl
raised_times (suc e) n = raised_times e (n * 10)

pub raised_positive : (e n : ℕ) → 1 ≤ n → 1 ≤ raised e n
unfolding raised
raised_positive zero n h = h
raised_positive (suc e) n h = raised_positive e (n * 10) (omega (arith, h))

strip-times : (left n i : ℕ) → strip (suc left) (n * 10) i ≡ strip left n (i + 1)
unfolding strip
strip-times left n i =
    let z : (n * 10 % 10 == 0) ≡ true = ground arith in
    let back : n * 10 / 10 ≡ n = omega arith in
    rw (strip, z) (ap (λ (v : ℕ). strip left v (i + 1)) back)

-- The loop takes off the zeros that `raised` put on.
pub strip-raised : (e k n i : ℕ) → strip (k + e) (raised e n) i ≡ strip k n (i + e)
unfolding strip raised
strip-raised zero k n i =
    let none_k : k + 0 ≡ k = omega arith in
    let none_i : i ≡ i + 0 = omega arith in
    ap (λ (j : ℕ). strip j n i) none_k ∙ ap (strip k n) none_i
strip-raised (suc e) k n i =
    let more : k + suc e ≡ suc (k + e) = omega arith in
    let later : i + 1 + e ≡ i + suc e = omega arith in
    ap (λ (j : ℕ). strip j (raised e (n * 10)) i) more
    ∙ ap (λ (v : ℕ). strip (suc (k + e)) v i) (raised_times e n)
    ∙ strip-times (k + e) (raised e n) i
    ∙ strip-raised e k n (i + 1)
    ∙ ap (strip k n) later

pub strip-done : (k n e : ℕ) → (k ≡ 0) ⊎ (n % 10 ≢ 0) → strip k n e ≡ (n, e)
unfolding strip
strip-done zero n e h = refl
strip-done (suc k) n e (inl h) = absurd (omega (arith, h))
strip-done (suc k) n e (inr h) = let z : (n % 10 == 0) ≡ false = ground arith in rw (strip, z) refl

pub packed-unpacked : (c : ℕ) → packed (unpacked (c / 10) (c % 10), c % 10) ≡ suc c
packed-unpacked c = ground arith

pub unpacked_fits :
    (q e : ℕ) → e < 10 → (1 ≤ unpacked q e) × ((9 - e ≡ 0) ⊎ (unpacked q e % 10 ≢ 0))
unpacked_fits q e h = elim (Bool-cases (ltb e 9)) [
  | inl k ↦ rw k (omega arith, inr (λ z. omega (arith, z)))
  | inr k ↦ rw k (omega arith, inl (ground arith))
]
