-- ===== src/Net/Parser/Padding.antt =====
-- The name of a command in the twelve bytes that `parseHeader` of lib/net/parser.js reads it from.
use bcoin.Prelude.{
  ℕ, zero, suc, ◌+◌, ◌<◌, ◌≡◌, ◌≢◌, ◌⊎◌, inl, inr, refl, ap, ◌∙◌, true, false, none, some, [], ◌∷◌,
  ◌++◌, arith, ltb, ◌==◌, length, take, drop, get_elem?, All, Bool-cases,
}
use bcoin.Script.Types.{Bytes}
use bcoin.Net.Parser.{command_end}

-- The name has no zero, and nothing but zeros follows it.
abbrev pub IsCommand : Bytes → Bytes → Type 0
IsCommand name cmd =
    (padding : Bytes) × (cmd ≡ name ++ padding) × All (λ b. b ≢ 0) name × All (λ b. b ≡ 0) padding

-- After a zero there is another byte.
abbrev pub IsIllPadded : Bytes → Type 0
IsIllPadded cmd =
    (i : ℕ) × (j : ℕ) × (b : ℕ) × (i < j)
    × (get_elem? cmd i ≡ some 0)
    × (get_elem? cmd j ≡ some b)
    × (b ≢ 0)

abbrev HasByte : Bytes → Type 0
HasByte cmd = (j : ℕ) × (b : ℕ) × (get_elem? cmd j ≡ some b) × (b ≢ 0)

-- The loop after a zero.
after_zero :
    (cmd : Bytes) (i end : ℕ)
    → end < 16
    → ((command_end cmd i end ≡ some end) × All (λ b. b ≡ 0) cmd)
      ⊎ ((command_end cmd i end ≡ none) × HasByte cmd)
unfolding command_end
after_zero [] i end h = inl (refl, tt)
after_zero (b ∷ cmd) i end h =
    let t : ltb end 16 ≡ true = ground arith in
    let n : (end == 16) ≡ false = ground arith in
    elim (Bool-cases (b == 0)) [
      | inl z ↦ elim (after_zero cmd (suc i) end h) [
        | inl (e, a) ↦ inl (rw (command_end, z, n) e, (ground arith, a))
        | inr (e, (j, c, at, ne)) ↦ inr (rw (command_end, z, n) e, (suc j, c, at, ne))
      ]
      | inr z ↦ inr (rw (command_end, z, t) refl, (0, b, refl, ground arith))
    ]

-- The loop from its start: it ends behind the name, or it throws.
pub command_end_lem :
    (cmd : Bytes) (i : ℕ)
    → i + length cmd ≡ 16
    → ((name : Bytes) × (command_end cmd i 16 ≡ some (i + length name)) × IsCommand name cmd)
      ⊎ ((command_end cmd i 16 ≡ none) × IsIllPadded cmd)
unfolding command_end
command_end_lem [] i h = inl ([], ap some (omega (arith, h)), ([], refl, tt, tt))
command_end_lem (b ∷ cmd) i h = elim (Bool-cases (b == 0)) [
  | inl z ↦ elim (after_zero cmd (suc i) i (omega (arith, h))) [
    | inl (e, a) ↦ inl (
      [],
      rw (command_end, z) (e ∙ ap some (omega arith)),
      (b ∷ cmd, refl, tt, (ground arith, a)),
    )
    | inr (e, (j, c, at, ne)) ↦
        inr (rw (command_end, z) e, (0, suc j, c, omega arith, ap some (ground arith), at, ne))
  ]
  | inr z ↦ elim (command_end_lem cmd (suc i) (omega (arith, h))) [
    | inl (name, e, (padding, eq, a, zs)) ↦ inl (
      b ∷ name,
      rw (command_end, z) (e ∙ ap some (omega arith)),
      (padding, ap (λ t. b ∷ t) eq, (ground arith, a), zs),
    )
    | inr (e, (j, k, c, lt, at, at', ne)) ↦
        inr (rw (command_end, z) e, (suc j, suc k, c, omega (arith, lt), at, at', ne))
  ]
]

-- The name is what `parseHeader` cuts out up to that end.
pub take-command :
    (m : ℕ) (name bytes padding : Bytes)
    → take m bytes ≡ name ++ padding
    → take (length name) bytes ≡ name
take-command m [] bytes padding e = refl
take-command zero (n ∷ name) bytes padding e = cc
take-command (suc m) (n ∷ name) [] padding e = cc
take-command (suc m) (n ∷ name) (b ∷ bytes) padding e =
    let r = take-command m name bytes padding (ap (drop 1) e) in cc (e, r)
