-- ===== src/Protocol/Compact/Powers.antt =====
-- The powers of 256 in compact numbers, and the byte length of a number between two of them.
use bcoin.Prelude.{ℕ, ◌+◌, ◌*◌, ◌^◌, ◌≤◌, ◌<◌, ◌≡◌, ◌⊎◌, inl, inr, ap, ◌∙◌, arith}
use native.Mathlib.Numerals.{towards_suc}
use native.Mathlib.Nat.{one-le-pow, pow-le-pow_right}
use bcoin.Protocol.Compact.{IsByteLength}

pow-byte : (s : ℕ) → 2 ^ (s + 8) ≡ 256 * 2 ^ s
pow-byte s = simp towards_suc (omega arith)

pub bytes-suc : (k : ℕ) → 2 ^ (8 * (k + 1)) ≡ 256 * 2 ^ (8 * k)
bytes-suc k = ap (λ (s : ℕ). 2 ^ s) (omega arith) ∙ pow-byte (8 * k)

pub bytes-two : (k : ℕ) → 2 ^ (8 * (k + 2)) ≡ 2 ^ 16 * 2 ^ (8 * k)
bytes-two k =
    ap (λ (s : ℕ). 2 ^ s) (omega arith)
    ∙ bytes-suc (k + 1)
    ∙ ap (λ (p : ℕ). 256 * p) (bytes-suc k)
    ∙ omega arith

pub bytes-three : (k : ℕ) → 2 ^ (8 * (k + 2 + 1)) ≡ 2 ^ 24 * 2 ^ (8 * k)
bytes-three k = bytes-suc (k + 2) ∙ ap (λ (p : ℕ). 256 * p) (bytes-two k) ∙ omega arith

pub bytes-positive : (k : ℕ) → 1 ≤ 2 ^ (8 * k)
bytes-positive k = one-le-pow (8 * k) 2 (omega arith)

pub bytes_mono : (j k : ℕ) → j ≤ k → 2 ^ (8 * j) ≤ 2 ^ (8 * k)
bytes_mono j k h = pow-le-pow_right {n = 2} (omega arith) {i = 8 * j} {j = 8 * k} (omega arith)

le-or-lt : (a b : ℕ) → (a ≤ b) ⊎ (b < a)
le-or-lt a b = omega arith

-- A number from 256^k on and below 256^(k + 1) has k + 1 bytes.
pub byte_length-between :
    (byte_length : ℕ → ℕ) (n k : ℕ)
    → IsByteLength byte_length
    → 2 ^ (8 * k) ≤ n
    → n < 2 ^ (8 * (k + 1))
    → byte_length n ≡ k + 1
byte_length-between byte_length n k laws low high =
    let most = laws.least n (k + 1) high in
    elim (le-or-lt (byte_length n) k) [
      | inl h ↦ absurd (omega (arith, bytes_mono (byte_length n) k h, laws.fits n, low))
      | inr h ↦ omega (arith, h, most)
    ]
