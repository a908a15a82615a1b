-- ===== src/Blockchain/Retarget/Bounds.antt =====
-- How far the difficulty moves in one step.
use bcoin.Prelude.{
  ℕ, ◌+◌, ◌-◌, ◌*◌, ◌/◌, ◌≤◌, ◌<◌, ◌≡◌, ◌⊎◌, refl, sym, ap, ◌∙◌, ℤ, false, some, List, [], ◌∷◌,
  arith, ltb, length, take, All,
}
use native.Mathlib.Nat.{
  mul_assoc, mul_comm, mul-suc, mul-le-mul, le-div_iff_mul-le, div-le_of_le-mul, div-mul-le_self,
}
use bcoin.Protocol.Compact.{to_compact}
use bcoin.Blockchain.VersionBits.{Entry}
use bcoin.Blockchain.Retarget.{
  Pow, target_of, clamp, span_of, scaled, capped, retarget, past_average, last_of, dgw_window,
  dgw_scaled, get_dgw_target,
}

clamp_lem :
    (low high : ℕ) (span : ℤ)
    → low ≤ high
    → (low ≤ clamp low high span) × (clamp low high span ≤ high)
clamp_lem low high span h = ground arith

swap : (a b c : ℕ) → a * (b * c) ≡ b * (a * c)
swap a b c = sym (mul_assoc a b c) ∙ ap (λ (x : ℕ). x * c) (mul_comm a b) ∙ mul_assoc b a c

scaled-up : (t a p hi c : ℕ) → t ≤ hi → a ≤ p * c → t * a / p ≤ hi * c
scaled-up t a p hi c h k =
    let m = mul-le-mul h k in div-le_of_le-mul p (omega (arith, m, swap hi p c))

scaled-down : (t a p lo low : ℕ) → 1 ≤ p → lo ≤ t → low ≤ a → lo * low / p ≤ t * a / p
scaled-down t a p lo low one h k =
    let m = mul-le-mul h k in
    (le-div_iff_mul-le one).1 (omega (arith, m, div-mul-le_self (lo * low) p))

same : (n : ℕ) → n ≤ n
same n = omega arith

more : (x n : ℕ) → x * (n + 2) ≡ x * (n + 1) + x
more x n = ap (λ (k : ℕ). x * k) (omega arith) ∙ mul-suc x (n + 1)

average-low : (n avg t lo : ℕ) → lo ≤ avg → lo ≤ t → lo ≤ (avg * (n + 1) + t) / (n + 2)
average-low n avg t lo h k =
    let m = mul-le-mul h (same (n + 1)) in
    (le-div_iff_mul-le (omega arith)).1 (omega (arith, m, k, more lo n))

average-high : (n avg t hi : ℕ) → avg ≤ hi → t ≤ hi → (avg * (n + 1) + t) / (n + 2) ≤ hi
average-high n avg t hi h k =
    let m = mul-le-mul h (same (n + 1)) in
    div-le_of_le-mul (n + 2) (omega (arith, m, k, more hi n, mul_comm (n + 2) hi))

-- The target of an entry lies between two bounds.
abbrev pub Within : ℕ → ℕ → Entry → Type 0
Within lo hi entry = (n : ℕ) × (target_of entry.bits ≡ some n) × (lo ≤ n) × (n ≤ hi)

-- The bits for a target: those of the limit where it is passed.
abbrev pub IsCapped : (ℕ → ℕ) → Pow → ℕ → ℕ → Type 0
IsCapped byte_length pow target bits =
    ((target ≤ pow.limit) × (bits ≡ to_compact byte_length target))
    ⊎ ((pow.limit < target) × (bits ≡ pow.bits))

module _ (byte_length : ℕ → ℕ) (pow : Pow) where
  capped-IsCapped : (target : ℕ) → IsCapped byte_length pow target (capped byte_length pow target)
  capped-IsCapped target = ground arith

  -- A block's new target, where retargeting is on and the planned time is at least a second, is at
  -- most four times the old one and, but for rounding, at least a quarter of it; its bits are those
  -- of the limit if it is above the limit.
  pub retarget-IsCapped :
      (prev first : Entry) (old : ℕ)
      → pow.no_retargeting ≡ false
      → 1 ≤ pow.target_timespan
      → target_of prev.bits ≡ some old
      → (new bits : ℕ) × (retarget byte_length pow prev first ≡ some bits)
        × IsCapped byte_length pow new bits
        × (old * (pow.target_timespan / 4) / pow.target_timespan ≤ new)
        × (new ≤ old * 4)
  unfolding retarget
  retarget-IsCapped prev first old on one e =
      let planned = pow.target_timespan in
      let actual = clamp (planned / 4) (planned * 4) (span_of prev first) in
      let (low, high) = clamp_lem (planned / 4) (planned * 4) (span_of prev first) (omega arith) in
      (
        scaled old actual planned,
        capped byte_length pow (scaled old actual planned),
        rw (retarget, on, e) refl,
        capped-IsCapped (scaled old actual planned),
        scaled-down old actual planned old (planned / 4) one (omega arith) low,
        scaled-up old actual planned old 4 (omega arith) high,
      )

  -- The average of targets lies between their bounds.
  past_average-Within :
      (n avg lo hi : ℕ) (entries : List Entry)
      → lo ≤ avg
      → avg ≤ hi
      → All (Within lo hi) entries
      → (a : ℕ) × (past_average byte_length pow n avg entries ≡ some a) × (lo ≤ a) × (a ≤ hi)
  unfolding past_average
  past_average-Within n avg lo hi [] low high all = (avg, refl, low, high)
  past_average-Within n avg lo hi (entry ∷ entries) low high ((t, e, l, h), all) =
      let next = (avg * (n + 1) + t) / (n + 2) in
      let (a, p, la, ha) =
        past_average-Within (n + 1) next lo hi entries (average-low n avg t lo low l)
          (average-high n avg t hi high h) all in
      (a, rw (past_average, e) p, la, ha)

  -- Where the window of past blocks is full, their targets lie between two bounds and the planned
  -- time is at least a second, the new target of the DGW algorithm is at most three times the upper
  -- bound and, but for rounding, at least a third of the lower one; its bits are those of the limit
  -- if it is above the limit.
  pub get_dgw_target-IsCapped :
      (prev : Entry) (chain : List Entry) (lo hi : ℕ)
      → dgw_window byte_length pow ≤ length chain
      → 1 ≤ dgw_window byte_length pow * pow.target_spacing
      → Within lo hi prev
      → All (Within lo hi) (take (dgw_window byte_length pow - 1) chain)
      → (new bits : ℕ) × (get_dgw_target byte_length pow (prev ∷ chain) ≡ some bits)
        × IsCapped byte_length pow new bits
        × (let planned = dgw_window byte_length pow * pow.target_spacing in
            lo * (planned / 3) / planned ≤ new)
        × (new ≤ hi * 3)
  unfolding get_dgw_target dgw_scaled
  get_dgw_target-IsCapped prev chain lo hi full one (t, e, l, h) all =
      let window = dgw_window byte_length pow in
      let older = take (window - 1) chain in
      let planned = window * pow.target_spacing in
      let span = span_of prev (last_of byte_length pow prev older) in
      let (avg, p, la, ha) = past_average-Within 1 t lo hi older l h all in
      let actual = clamp (planned / 3) (planned * 3) span in
      let (low, high) = clamp_lem (planned / 3) (planned * 3) span (omega arith) in
      let enough : ltb (length chain) window ≡ false = ground arith in
      (
        scaled avg actual planned,
        capped byte_length pow (scaled avg actual planned),
        rw (get_dgw_target, enough, e, p) refl,
        capped-IsCapped (scaled avg actual planned),
        scaled-down avg actual planned lo (planned / 3) one la low,
        scaled-up avg actual planned hi 3 ha high,
      )
