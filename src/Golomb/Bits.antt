-- ===== src/Golomb/Bits.antt =====
-- The lowest bits of a number as a list, the highest of them first, and the operators of JavaScript
-- on numbers whose bits do not meet.
use bcoin.Prelude.{
  ℕ, zero, suc, ◌+◌, ◌-◌, ◌*◌, ◌/◌, ◌%◌, ◌^◌, ◌≤◌, ◌<◌, ◌≡◌, refl, sym, ◌∙◌, ap, List, [], ◌∷◌,
  ◌++◌, arith, bit_and, bit_or,
}
use Prim.Native.Nat.{digits, max, min, bit_or-bitwise, bit_and-bitwise}
use native.Mathlib.Nat.{
  two-pow-succ, one-le-pow, mul-le-mul, mod-lt, div-lt_iff_lt-mul, div-add-mod',
}
use mathlib.Core.List.{append-nil, append_assoc}

abbrev pub bits : ℕ → ℕ → List ℕ
bits zero n = []
bits (suc k) n = bits k (n / 2) ++ (n % 2 ∷ [])

pub double : (q k : ℕ) → q * 2 ^ suc k ≡ 2 * (q * 2 ^ k)
double q k = ap (λ (t : ℕ). q * t) (two-pow-succ k) ∙ omega arith

half_of : (q k s : ℕ) → (q * 2 ^ suc k + s) / 2 ≡ q * 2 ^ k + s / 2
half_of q k s = omega (arith, double q k)

parity_of : (q k s : ℕ) → (q * 2 ^ suc k + s) % 2 ≡ s % 2
parity_of q k s = omega (arith, double q k)

half_lt : (k s : ℕ) → s < 2 ^ suc k → s / 2 < 2 ^ k
half_lt k s h = omega (arith, two-pow-succ k)

-- The bits of a number in two parts.
pub bits-append : (j k q s : ℕ) → s < 2 ^ k → bits (j + k) (q * 2 ^ k + s) ≡ bits j q ++ bits k s
bits-append j zero q s h =
    ap (λ (t : ℕ). bits t (q * 1 + s)) {x = j + 0} {y = j} (omega arith)
    ∙ ap (bits j) (omega arith)
    ∙ sym (append-nil (bits j q))
bits-append j (suc k) q s h =
    ap (λ (t : ℕ). bits t (q * 2 ^ suc k + s)) {x = j + suc k} {y = suc (j + k)} (omega arith)
    ∙ ap (λ (t : ℕ). bits (j + k) ((q * 2 ^ suc k + s) / 2) ++ (t ∷ [])) (parity_of q k s)
    ∙ ap (λ (t : ℕ). bits (j + k) t ++ (s % 2 ∷ [])) (half_of q k s)
    ∙ ap (λ t. t ++ (s % 2 ∷ [])) (bits-append j k q (s / 2) (half_lt k s h))
    ∙ append_assoc (bits j q) (bits k (s / 2)) (s % 2 ∷ [])

pub two-pow-add : (j k : ℕ) → 2 ^ (j + k) ≡ 2 ^ j * 2 ^ k
two-pow-add zero k = ap (λ (t : ℕ). 2 ^ t) {x = 0 + k} {y = k} (omega arith) ∙ omega arith
two-pow-add (suc j) k =
    ap (λ (t : ℕ). 2 ^ t) {x = suc j + k} {y = suc (j + k)} (omega arith)
    ∙ two-pow-succ (j + k)
    ∙ omega (arith, two-pow-add j k, ap (λ (t : ℕ). t * 2 ^ k) (two-pow-succ j))

-- The parts of a number of j + k bits.
pub high_lt : (j k n : ℕ) → n < 2 ^ (j + k) → n / 2 ^ k < 2 ^ j
high_lt j k n h =
    let (there, back) =
      div-lt_iff_lt-mul {k = 2 ^ k} {x = n} {y = 2 ^ j} (one-le-pow k 2 (omega arith)) in
    back (omega (arith, two-pow-add j k))

pub low_lt : (k n : ℕ) → n % 2 ^ k < 2 ^ k
low_lt k n = mod-lt n (one-le-pow k 2 (omega arith))

pub high_low : (k n : ℕ) → n ≡ n / 2 ^ k * 2 ^ k + n % 2 ^ k
high_low k n = sym (div-add-mod' n (2 ^ k))

pub join_lt : (j k q s : ℕ) → q < 2 ^ j → s < 2 ^ k → q * 2 ^ k + s < 2 ^ (j + k)
join_lt j k q s h l = omega (
  arith,
  two-pow-add j k,
  mul-le-mul {n₁ = suc q} {m₁ = 2 ^ k} {n₂ = 2 ^ j} {m₂ = 2 ^ k} h (omega arith),
)

-- The bits of a number, in two parts.
pub bits-split : (j k n : ℕ) → bits (j + k) n ≡ bits j (n / 2 ^ k) ++ bits k (n % 2 ^ k)
bits-split j k n =
    ap (bits (j + k)) (high_low k n) ∙ bits-append j k (n / 2 ^ k) (n % 2 ^ k) (low_lt k n)

pub bits-mod : (k n : ℕ) → bits k n ≡ bits k (n % 2 ^ k)
bits-mod k n = ap (λ (t : ℕ). bits t n) {x = k} {y = 0 + k} (omega arith) ∙ bits-split 0 k n

pub bit_one : (n : ℕ) → n < 2 → bits 1 n ≡ n ∷ []
bit_one n h = ap (λ (t : ℕ). t ∷ []) (omega arith)

abbrev digits_or : ℕ → ℕ → ℕ → ℕ
digits_or n a b = digits (λ b. b) max n a b

or_zero : (n a : ℕ) → a ≤ n → digits_or n a 0 ≡ a
or_zero zero a h = omega arith
or_zero (suc n) zero h = refl
or_zero (suc n) (suc a) h =
    let ih = or_zero n (suc a / 2) (omega arith) in
    ap (λ (t : ℕ). t * 2 + max (suc a % 2) 0) ih ∙ omega arith

or_left : (n b : ℕ) → digits_or n 0 b ≡ b
or_left zero b = refl
or_left (suc n) b = refl

or_step :
    (n a b : ℕ)
    → a ≤ suc n
    → digits_or (suc n) a b ≡ digits_or n (a / 2) (b / 2) * 2 + max (a % 2) (b % 2)
or_step n zero b h = omega (arith, or_left n (b / 2))
or_step n (suc a) b h = refl

-- `a | b` where the low bits of `a` are zero and `b` has no others.
or_fuel : (r n q s : ℕ) → q * 2 ^ r ≤ n → s < 2 ^ r → digits_or n (q * 2 ^ r) s ≡ q * 2 ^ r + s
or_fuel zero n q s h l =
    ap (λ (t : ℕ). digits_or n (q * 2 ^ 0) t) {x = s} {y = 0} (omega arith)
    ∙ or_zero n (q * 2 ^ 0) h
    ∙ omega arith
or_fuel (suc r) zero q s h l = omega arith
or_fuel (suc r) (suc n) q s h l =
    let half : q * 2 ^ suc r / 2 ≡ q * 2 ^ r = omega (arith, double q r) in
    let ih = or_fuel r n q (s / 2) (omega (arith, double q r)) (half_lt r s l) in
    or_step n (q * 2 ^ suc r) s h
    ∙ ap (λ (t : ℕ). digits_or n t (s / 2) * 2 + max (q * 2 ^ suc r % 2) (s % 2)) half
    ∙ omega (arith, ih, double q r)

pub or_disjoint : (r q s : ℕ) → s < 2 ^ r → bit_or (q * 2 ^ r) s ≡ q * 2 ^ r + s
or_disjoint r q s h =
    (λ i. bit_or-bitwise (q * 2 ^ r) s i) ∙ or_fuel r (q * 2 ^ r) q s (omega arith) h

abbrev digits_and : ℕ → ℕ → ℕ → ℕ
digits_and n a b = digits (λ b. zero) min n a b

and_zero : (n a : ℕ) → digits_and n a 0 ≡ 0
and_zero zero a = refl
and_zero (suc n) zero = refl
and_zero (suc n) (suc a) = omega (arith, and_zero n (suc a / 2))

and_left : (n b : ℕ) → digits_and n 0 b ≡ 0
and_left zero b = refl
and_left (suc n) b = refl

and_step :
    (n a b : ℕ) → digits_and (suc n) a b ≡ digits_and n (a / 2) (b / 2) * 2 + min (a % 2) (b % 2)
and_step n zero b = omega (arith, and_left n (b / 2))
and_step n (suc a) b = refl

-- `a & ((1 << r) - 1)` is what the lowest bits of `a` amount to.
and_fuel :
    (r n q s : ℕ) → q * 2 ^ r + s ≤ n → s < 2 ^ r → digits_and n (q * 2 ^ r + s) (2 ^ r - 1) ≡ s
and_fuel zero n q s h l = and_zero n (q * 2 ^ 0 + s) ∙ omega arith
and_fuel (suc r) zero q s h l = omega arith
and_fuel (suc r) (suc n) q s h l =
    let ih = and_fuel r n q (s / 2) (omega (arith, double q r)) (half_lt r s l) in
    let mask : (2 ^ suc r - 1) / 2 ≡ 2 ^ r - 1 =
      omega (arith, two-pow-succ r, one-le-pow r 2 (omega arith)) in
    let odd : (2 ^ suc r - 1) % 2 ≡ 1 =
      omega (arith, two-pow-succ r, one-le-pow r 2 (omega arith)) in
    and_step n (q * 2 ^ suc r + s) (2 ^ suc r - 1)
    ∙ ap
        (λ (t : ℕ).
          digits_and n t ((2 ^ suc r - 1) / 2) * 2
          + min ((q * 2 ^ suc r + s) % 2) ((2 ^ suc r - 1) % 2))
        (half_of q r s)
    ∙ ap
        (λ (t : ℕ).
          digits_and n (q * 2 ^ r + s / 2) t * 2
          + min ((q * 2 ^ suc r + s) % 2) ((2 ^ suc r - 1) % 2))
        mask
    ∙ omega (arith, ih, odd, parity_of q r s)

pub and_mask : (r q s : ℕ) → s < 2 ^ r → bit_and (q * 2 ^ r + s) (2 ^ r - 1) ≡ s
and_mask r q s h =
    (λ i. bit_and-bitwise (q * 2 ^ r + s) (2 ^ r - 1) i)
    ∙ and_fuel r (q * 2 ^ r + s) q s (omega arith) h

abbrev pub head_or : List ℕ → ℕ
head_or [] = 0
head_or (x ∷ xs) = x

abbrev pub tail : List ℕ → List ℕ
tail [] = []
tail (x ∷ xs) = xs

-- Lists that start with as many bits, and are equal, start with the same number.
pub bits_inj :
    (k a b : ℕ) (xs ys : List ℕ)
    → a < 2 ^ k
    → b < 2 ^ k
    → bits k a ++ xs ≡ bits k b ++ ys
    → (a ≡ b) × (xs ≡ ys)
bits_inj zero a b xs ys h l e = (omega arith, e)
bits_inj (suc k) a b xs ys h l e =
    let (half, rest) =
      bits_inj k (a / 2) (b / 2) (a % 2 ∷ xs) (b % 2 ∷ ys) (half_lt k a h) (half_lt k b l) (
        sym (append_assoc (bits k (a / 2)) (a % 2 ∷ []) xs)
        ∙ e
        ∙ append_assoc (bits k (b / 2)) (b % 2 ∷ []) ys) in
    (omega (arith, half, ap head_or rest), ap tail rest)
