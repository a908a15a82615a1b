-- ===== src/Primitives/MerkleBlock/Places.antt =====
-- The leaves below a place of the tree, and the widths of its levels.
use bcoin.Prelude.{
  ℕ, zero, suc, ◌+◌, ◌-◌, ◌*◌, ◌^◌, ◌≤◌, ◌<◌, ◌≡◌, refl, sym, ap, ◌∙◌, false, ◌&&◌, List, [], ◌∷◌,
  ◌++◌, arith, ltb, if◌then◌else◌, get_or, Bool-cases, inl, inr,
}
use native.Mathlib.Nat.{
  le-div_iff_mul-le, div-lt_iff_lt-mul, mul_assoc, mul_comm, mul-suc, pow-succ', two-pow-succ,
  one-le-pow,
}
use bcoin.Primitives.MerkleBlock.{Leaves, width, any_match}

-- The matched leaves, with their places, from a start and over so many places.
unfoldable pub matched : Leaves → ℕ → ℕ → List (ℕ × ℕ)
matched block p zero = []
matched block p (suc n) =
    let rest = matched block (p + 1) n in
    if ltb p block.total && get_or block.matches p false
    then (get_or block.leaves p 0, p) ∷ rest
    else rest

pub matched-sum :
    (block : Leaves) (p a b : ℕ)
    → matched block p (a + b) ≡ matched block p a ++ matched block (p + a) b
unfolding matched
matched-sum block p zero b =
    let none_b : 0 + b ≡ b = omega arith in
    let none_p : p ≡ p + 0 = omega arith in
    ap (matched block p) none_b ∙ ap (λ (q : ℕ). matched block q b) none_p
matched-sum block p (suc a) b =
    let out : suc a + b ≡ suc (a + b) = omega arith in
    let along : p + 1 + a ≡ p + suc a = omega arith in
    let ih =
      matched-sum block (p + 1) a b
      ∙ ap (λ (q : ℕ). matched block (p + 1) a ++ matched block q b) along in
    ap (matched block p) out
    ∙ elim (Bool-cases (ltb p block.total && get_or block.matches p false)) [
      | inl e ↦ rw (matched, e) (ap (λ l. (get_or block.leaves p 0, p) ∷ l) ih)
      | inr e ↦ rw (matched, e) ih
    ]

pub matched-beyond : (block : Leaves) (p n : ℕ) → block.total ≤ p → matched block p n ≡ []
unfolding matched
matched-beyond block p zero h = refl
matched-beyond block p (suc n) h = ground (arith, matched-beyond block (p + 1) n (omega (arith, h)))

pub any_match-matched :
    (block : Leaves) (p n : ℕ) → any_match block p n ≡ false → matched block p n ≡ []
unfolding matched any_match
any_match-matched block p zero h = refl
any_match-matched block p (suc n) h = elim (Bool-cases (ltb p block.total)) [
  | inl e ↦ ground (arith, any_match-matched block (p + 1) n)
  | inr e ↦ ground (arith, matched-beyond block (p + 1) n (ground arith))
]

power-positive : (h : ℕ) → 1 ≤ 2 ^ h
power-positive h = one-le-pow h 2 (omega arith)

one_more : (p q : ℕ) → (p + 1) * q ≡ p * q + q
one_more p q =
    let e : p + 1 ≡ suc p = omega arith in
    mul_comm (p + 1) q
    ∙ ap (λ (k : ℕ). q * k) e
    ∙ mul-suc q p
    ∙ ap (λ (k : ℕ). k + q) (mul_comm q p)

-- A place is within the width exactly when its first leaf is within the block.
pub within_width : (total h p : ℕ) → p < width total h → p * 2 ^ h < total
within_width total h p w =
    let e =
      (le-div_iff_mul-le {x = p + 1} {y = total + 2 ^ h - 1} (power-positive h)).0
        (omega (arith, w)) in
    omega (arith, e, one_more p (2 ^ h), power-positive h)

pub beyond_width : (total h p : ℕ) → width total h ≤ p → total ≤ p * 2 ^ h
beyond_width total h p w =
    let e =
      (div-lt_iff_lt-mul {x = total + 2 ^ h - 1} {y = p + 1} (power-positive h)).0
        (omega (arith, w)) in
    omega (arith, e, one_more p (2 ^ h), power-positive h)

pub inside_width : (total h p : ℕ) → p * 2 ^ h < total → p < width total h
inside_width total h p w =
    let e =
      (le-div_iff_mul-le {x = p + 1} {y = total + 2 ^ h - 1} (power-positive h)).1
        (omega (arith, w, one_more p (2 ^ h), power-positive h)) in
    omega (arith, e)

-- The leaves below a place are those below its two halves.
double : (h : ℕ) → 2 ^ suc h ≡ 2 ^ h + 2 ^ h
double h = two-pow-succ h

pub left_start : (h p : ℕ) → p * 2 ^ suc h ≡ p * 2 * 2 ^ h
left_start h p = ap (λ (k : ℕ). p * k) (pow-succ' 2 h) ∙ sym (mul_assoc p 2 (2 ^ h))

pub right_start : (h p : ℕ) → p * 2 * 2 ^ h + 2 ^ h ≡ (p * 2 + 1) * 2 ^ h
right_start h p = sym (one_more (p * 2) (2 ^ h))

unfoldable pub below : Leaves → ℕ → ℕ → List (ℕ × ℕ)
below block h p = matched block (p * 2 ^ h) (2 ^ h)

pub below-halves :
    (block : Leaves) (h p : ℕ)
    → below block (suc h) p ≡ below block h (p * 2) ++ below block h (p * 2 + 1)
unfolding below
below-halves block h p =
    ap (λ (k : ℕ). matched block k (2 ^ suc h)) (left_start h p)
    ∙ ap (matched block (p * 2 * 2 ^ h)) (double h)
    ∙ matched-sum block (p * 2 * 2 ^ h) (2 ^ h) (2 ^ h)
    ∙ ap (λ (k : ℕ). matched block (p * 2 * 2 ^ h) (2 ^ h) ++ matched block k (2 ^ h))
        (right_start h p)

pub left_width : (total h p : ℕ) → p < width total (suc h) → p * 2 < width total h
left_width total h p w =
    inside_width total h (p * 2) (rw (left_start h p) at (within_width total (suc h) p w))
