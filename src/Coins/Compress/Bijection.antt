-- ===== src/Coins/Compress/Bijection.antt =====
-- Amounts and compressed amounts that are safe integers are the same numbers in two forms.
use bcoin.Prelude.{
  ℕ, zero, suc, ◌+◌, ◌-◌, ◌*◌, ◌/◌, ◌%◌, ◌^◌, ◌≤◌, ◌<◌, ◌≡◌, inl, inr, refl, sym, ap, ◌∙◌, false,
  arith, ltb, ◌==◌, Bool-cases,
}
use mathlib.Core.Path.{subst}
use bcoin.Coins.Compress.{
  plus, minus, times, strip, pack, compress_value, raise, unpack, decompress_value,
}
use bcoin.Coins.Compress.Double.{round-small, round-large, round-exact}
use bcoin.Coins.Compress.Exact.{
  packed, raised, unpacked, strip-Stripped, unpacked-packed, raised_positive, strip-raised,
  strip-done, packed-unpacked, unpacked_fits,
}

-- `raise` is exact where what it gives, or what it should give, is a safe integer.
raised_grows : (e n : ℕ) → n ≤ raised e n
unfolding raised
raised_grows zero n = omega arith
raised_grows (suc e) n = omega (arith, raised_grows e (n * 10))

raise-large : (e n : ℕ) → 2 ^ 53 ≤ n → 2 ^ 53 ≤ raise e n
unfolding raise
raise-large zero n h = h
raise-large (suc e) n h = raise-large e (times n 10) (round-large (n * 10) (omega (arith, h)))

raise-small : (e n : ℕ) → raised e n < 2 ^ 53 → raise e n ≡ raised e n
unfolding raise raised
raise-small zero n h = refl
raise-small (suc e) n h =
    ap (raise e) (round-small (n * 10) (omega (arith, h, raised_grows e (n * 10))))
    ∙ raise-small e (n * 10) h

below_large : (e n : ℕ) → raise e n < 2 ^ 53 → n < 2 ^ 53
below_large e n h = elim (Bool-cases (ltb n (2 ^ 53))) [
  | inl t ↦ ground arith
  | inr f ↦ absurd (omega (arith, h, raise-large e n (ground arith)))
]

raise-raised : (e n : ℕ) → raise e n < 2 ^ 53 → raise e n ≡ raised e n
unfolding raise raised
raise-raised zero n h = refl
raise-raised (suc e) n h =
    let exact = round-exact (n * 10) (below_large e (times n 10) h) in
    ap (raise e) exact ∙ raise-raised e (n * 10) (subst (λ m. raise e m < 2 ^ 53) exact h)

unpack-unpacked : (value e : ℕ) → value * 10 < 2 ^ 53 → unpack value e ≡ unpacked value e
unfolding unpack
unpack-unpacked value e h = elim (Bool-cases (ltb e 9)) [
  | inl t ↦
      let tens = round-small (value / 9 * 10) (omega (arith, h)) in
      let last = round-small (value / 9 * 10 + value % 9) (omega (arith, h)) in
      let one = round-small (value / 9 * 10 + value % 9 + 1) (omega (arith, h)) in
      rw (unpack, t, tens, last) one
  | inr f ↦ rw (unpack, f) (round-small (value + 1) (omega (arith, h)))
]

-- `pack` is exact in the same two cases.
abbrev sums : ℕ → ℕ → ℕ → ℕ
sums q r e = plus (plus 1 (times 10 (minus (plus (times 9 q) r) 1))) e

sums_small :
    (q r e : ℕ) → 1 + 10 * (9 * q + r - 1) + e < 2 ^ 53 → sums q r e ≡ 1 + 10 * (9 * q + r - 1) + e
sums_small q r e h =
    let nines = round-small (9 * q) (omega (arith, h)) in
    let with_last = round-small (9 * q + r) (omega (arith, h)) in
    let less = round-small (9 * q + r - 1) (omega (arith, h)) in
    let tens = round-small (10 * (9 * q + r - 1)) (omega (arith, h)) in
    let with_one = round-small (1 + 10 * (9 * q + r - 1)) (omega (arith, h)) in
    rw (nines, with_last, less, tens, with_one) (round-small (1 + 10 * (9 * q + r - 1) + e) h)

sums_exact : (q r e : ℕ) → sums q r e < 2 ^ 53 → sums q r e ≡ 1 + 10 * (9 * q + r - 1) + e
sums_exact q r e h =
    let with_exp = round-exact (plus 1 (times 10 (minus (plus (times 9 q) r) 1)) + e) h in
    let with_one =
      round-exact (1 + times 10 (minus (plus (times 9 q) r) 1)) (omega (arith, h, with_exp)) in
    let tens =
      round-exact (10 * minus (plus (times 9 q) r) 1) (omega (arith, h, with_exp, with_one)) in
    let less = round-exact (plus (times 9 q) r - 1) (omega (arith, h, with_exp, with_one, tens)) in
    let with_last =
      round-exact (times 9 q + r) (omega (arith, h, with_exp, with_one, tens, less)) in
    let nines = round-exact (9 * q) (omega (arith, h, with_exp, with_one, tens, less, with_last)) in
    omega (arith, with_exp, with_one, tens, less, with_last, nines)

pack-small : (v e : ℕ) → packed (v, e) < 2 ^ 53 → pack (v, e) ≡ packed (v, e)
unfolding pack
pack-small v e h = elim (Bool-cases (ltb e 9)) [
  | inl t ↦ rw (pack, t) (sums_small (v / 10) (v % 10) e (rw t at h))
  | inr f ↦
      let h' : 10 + 10 * (v - 1) < 2 ^ 53 = rw f at h in
      let less = round-small (v - 1) (omega (arith, h')) in
      let tens = round-small (10 * (v - 1)) (omega (arith, h')) in
      rw (pack, f, less, tens) (round-small (10 + 10 * (v - 1)) h')
]

pack-packed : (v e : ℕ) → pack (v, e) < 2 ^ 53 → pack (v, e) ≡ packed (v, e)
unfolding pack
pack-packed v e h = elim (Bool-cases (ltb e 9)) [
  | inl t ↦ rw (pack, t) (sums_exact (v / 10) (v % 10) e (rw (pack, t) at h))
  | inr f ↦
      let h' : plus 10 (times 10 (minus v 1)) < 2 ^ 53 = rw (pack, f) at h in
      let all = round-exact (10 + times 10 (minus v 1)) h' in
      let tens = round-exact (10 * minus v 1) (omega (arith, h', all)) in
      let less = round-exact (v - 1) (omega (arith, h', all, tens)) in
      rw (pack, f) (omega (arith, all, tens, less))
]

compress-strip : (value : ℕ) → 1 ≤ value → compress_value value ≡ pack (strip 9 value 0)
unfolding compress_value
compress-strip value one =
    let e : (value == 0) ≡ false = ground arith in rw (compress_value, e) refl

-- A compressed form that is a safe integer, from its parts.
decompress-raise :
    (c e v : ℕ)
    → 1 ≤ c
    → c < 2 ^ 53
    → (c - 1) % 10 ≡ e
    → unpacked ((c - 1) / 10) e ≡ v
    → decompress_value c ≡ raise e v
unfolding decompress_value
decompress-raise c e v one small h k =
    let z : (c == 0) ≡ false = ground arith in
    let exact = unpack-unpacked ((c - 1) / 10) e (omega (arith, small)) in
    let less = round-small (c - 1) (omega (arith, small)) in
    rw (decompress_value, z, less)
      (ap (λ (x : ℕ). raise x (unpack ((c - 1) / 10) x)) h ∙ ap (raise e) (exact ∙ k))

-- In doubles, an amount below 2^53 whose compressed form is below 2^53 too comes back from it.
pub decompress_value-compress_value :
    (value : ℕ)
    → value < 2 ^ 53
    → compress_value value < 2 ^ 53
    → decompress_value (compress_value value) ≡ value
unfolding decompress_value compress_value raised
decompress_value-compress_value zero small fits = refl
decompress_value-compress_value (suc value) small fits =
    let (same, one, last) = strip-Stripped 9 (suc value) 0 (omega arith) in
    let v = (strip 9 (suc value) 0).0 in
    let e = (strip 9 (suc value) 0).1 in
    let (exps, values, more) = unpacked-packed v e one last in
    let packs = compress-strip (suc value) (omega arith) in
    let below : pack (v, e) < 2 ^ 53 = subst (λ t. t < 2 ^ 53) packs fits in
    let exact = pack-packed v e below in
    ap decompress_value (packs ∙ exact)
    ∙ decompress-raise (packed (v, e)) e v more (subst (λ t. t < 2 ^ 53) exact below) exps values
    ∙ raise-small e v (subst (λ t. t < 2 ^ 53) (sym same) small)
    ∙ same

-- In doubles, a number below 2^53 that is decompressed to an amount below 2^53 is the compressed
-- form of that amount.
pub compress_value-decompress_value :
    (c : ℕ) → c < 2 ^ 53 → decompress_value c < 2 ^ 53 → compress_value (decompress_value c) ≡ c
unfolding decompress_value compress_value
compress_value-decompress_value zero small fits = refl
compress_value-decompress_value (suc c) small fits =
    let e = c % 10 in
    let n = unpacked (c / 10) e in
    let (one, last) = unpacked_fits (c / 10) e (omega arith) in
    let room : 9 ≡ 9 - e + e = omega arith in
    let less : suc c - 1 ≡ c = omega arith in
    let from_zero : 0 + e ≡ e = omega arith in
    let raises : decompress_value (suc c) ≡ raise e n =
      decompress-raise (suc c) e n (omega arith) small (ap (λ (x : ℕ). x % 10) less)
        (ap (λ (x : ℕ). unpacked (x / 10) e) less) in
    let exact = raise-raised e n (subst (λ t. t < 2 ^ 53) raises fits) in
    let whole = packed-unpacked c in
    ap compress_value (raises ∙ exact)
    ∙ compress-strip (raised e n) (raised_positive e n one)
    ∙ ap (λ (k : ℕ). pack (strip k (raised e n) 0)) room
    ∙ ap pack
        (strip-raised e (9 - e) n 0 ∙ ap (strip (9 - e) n) from_zero ∙ strip-done (9 - e) n e last)
    ∙ pack-small n e (subst (λ t. t < 2 ^ 53) (sym whole) small)
    ∙ whole
