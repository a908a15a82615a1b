-- ===== src/Script/Stack/Bools.antt =====
-- `toBool` of lib/script/stack.js against a description of the byte strings that are false.
use bcoin.Prelude.{
  ℕ, zero, suc, ◌≡◌, refl, ◌⊎◌, ◌↔◌, inl, inr, false, not, ◌&&◌, [], ◌∷◌, ◌++◌, arith, ◌==◌, length,
  replicate, Bool-cases,
}
use bcoin.Script.Types.{Bytes}
use bcoin.Script.Stack.{to_bool}

-- Zeros, or zeros with a sign bit alone in a last byte: 0 and -0.
abbrev pub IsZero : Bytes → Type 0
IsZero bytes =
    ((n : ℕ) × (bytes ≡ replicate n 0)) ⊎ ((n : ℕ) × (bytes ≡ replicate n 0 ++ (0x80 ∷ [])))

zeros_false : (n : ℕ) → to_bool (replicate n 0) ≡ false
unfolding to_bool
zeros_false zero = refl
zeros_false (suc n) = zeros_false n

negative_zero_false : (n : ℕ) → to_bool (replicate n 0 ++ (0x80 ∷ [])) ≡ false
unfolding to_bool
negative_zero_false zero = refl
negative_zero_false (suc n) = negative_zero_false n

IsZero-cons : (b : ℕ) (bytes : Bytes) → b ≡ 0 → IsZero bytes → IsZero (b ∷ bytes)
IsZero-cons b bytes e (inl (n, h)) = inl (suc n, rw (e, h))
IsZero-cons b bytes e (inr (n, h)) = inr (suc n, rw (e, h))

last_byte :
    (b : ℕ) (bytes : Bytes) → not (length bytes == 0 && b == 0x80) ≡ false → b ∷ bytes ≡ 0x80 ∷ []
last_byte b [] h = ground arith
last_byte b (c ∷ bytes) h = absurd (ground arith)

false-IsZero : (bytes : Bytes) → to_bool bytes ≡ false → IsZero bytes
unfolding to_bool
false-IsZero [] h = inl (0, refl)
false-IsZero (b ∷ bytes) h = elim (Bool-cases (b == 0)) [
  | inl z ↦ IsZero-cons b bytes (ground arith) (false-IsZero bytes (rw z at h))
  | inr nz ↦ inr (0, last_byte b bytes (rw nz at h))
]

-- An item is false exactly if it is zeros, or zeros before a last byte 0x80.
pub to_bool_lem : (bytes : Bytes) → (to_bool bytes ≡ false) ↔ IsZero bytes
to_bool_lem bytes = (
  false-IsZero bytes,
  λ z. elim z [ inl (n, h) ↦ rw h (zeros_false n) | inr (n, h) ↦ rw h (negative_zero_false n) ],
)
