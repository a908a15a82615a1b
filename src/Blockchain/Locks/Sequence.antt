-- ===== src/Blockchain/Locks/Sequence.antt =====
-- What OP_CHECKSEQUENCEVERIFY promises of the block that a transaction gets into.
use bcoin.Prelude.{
  ℕ, zero, suc, ◌+◌, ◌*◌, ◌^◌, ◌≤◌, ◌≡◌, ◌≢◌, ◌⊎◌, sym, ◌∙◌, ℤ, pos, negsuc, ◌+ℤ◌, ◌-ℤ◌, ◌≤ℤ◌,
  leb_ℤ, true, false, not, ◌&&◌, some, List, [], ◌∷◌, inl, inr, arith, int_laws, ltb, leb, ◌==◌,
  get_elem?, length, All, Bool-cases, Option-cases, if◌then◌else◌,
}
use mathlib.Core.Path.{subst}
use bcoin.Utils.BufferMap.{BufferMap}
use bcoin.Coins.{Coins}
use bcoin.Coins.View.{View}
use bcoin.Blockchain.VersionBits.{Entry, median_time}
use bcoin.Primitives.Tx.{
  Input, Tx, is_coinbase, disable_flag, type_flag, sequence_mask, verify_sequence,
}
use bcoin.Blockchain.Locks.{
  lock_verify_sequence, has_lock, height_of, get_ancestor, max_ℤ, coin_height, locks_loop,
  get_locks, is_minus_one, verify_locks,
}

All-get_elem? :
    (P : Input → Type 0) (inputs : List Input) (index : ℕ) (input : Input)
    → All P inputs
    → get_elem? inputs index ≡ some input
    → P input
All-get_elem? P [] index input all e = cc e
All-get_elem? P (i ∷ inputs) zero input (p, all) e = subst P (cc e) p
All-get_elem? P (i ∷ inputs) (suc index) input (p, all) e = All-get_elem? P inputs index input all e

-- What `verifySequence` accepts of a lock that is not disabled.
accepted :
    (lock version sequence : ℕ)
    → disable_flag lock ≡ false
    → some (
        if disable_flag lock
        then true
        else if ltb version 2
        then false
        else if disable_flag sequence
        then false
        else if not (type_flag sequence == type_flag lock)
        then false
        else leb (sequence_mask lock) (sequence_mask sequence))
      ≡ some true
    → (2 ≤ version)
      × (disable_flag sequence ≡ false)
      × (type_flag sequence ≡ type_flag lock)
      × (sequence_mask lock ≤ sequence_mask sequence)
accepted lock version sequence d e = ground arith

height_of-next : (prev : List Entry) → height_of prev +ℤ pos 1 ≡ pos (length prev)
height_of-next prev = omega int_laws

under :
    (z : ℤ) (n : ℕ)
    → (not (leb_ℤ z (negsuc 0) && leb_ℤ (negsuc 0) z) && leb_ℤ (pos n) z) ≡ false
    → z +ℤ pos 1 ≤ℤ pos n
unfolding ◌+ℤ◌
under z n e = ground arith

max_ℤ_lem : (a b : ℤ) → (a ≤ℤ max_ℤ a b) × (b ≤ℤ max_ℤ a b)
max_ℤ_lem a b = ground arith

module _ (maps : BufferMap Coins) (tip : ℤ) (prev : List Entry) (view : View maps) where
  abbrev pub height_for : Input → ℤ
  height_for input = coin_height maps tip view input.prevout

  abbrev IsBelow : ℤ → Input → Type 0
  IsBelow h input = height_for input +ℤ (pos (sequence_mask input.sequence) -ℤ pos 1) ≤ℤ h

  abbrev IsBefore : ℤ → Input → Type 0
  IsBefore t input =
      (entry : List Entry) × (get_ancestor (max_ℤ (height_for input -ℤ pos 1) (pos 0)) prev
        ≡ some entry)
      × (pos (median_time entry) +ℤ (pos (sequence_mask input.sequence * 2 ^ 9) -ℤ pos 1) ≤ℤ t)

  -- What the results of the loop bound, for one input.
  abbrev Bounds : ℤ → ℤ → Input → Type 0
  Bounds h t input =
      disable_flag input.sequence ≡ false
      → ((type_flag input.sequence ≡ 0) × IsBelow h input)
        ⊎ ((type_flag input.sequence ≢ 0) × IsBefore t input)

  locks_loop-Bounds :
      (mh mt h t : ℤ) (inputs : List Input)
      → locks_loop maps tip prev view mh mt inputs ≡ some (h, t)
      → (mh ≤ℤ h) × (mt ≤ℤ t) × All (Bounds h t) inputs
  unfolding locks_loop
  locks_loop-Bounds mh mt h t [] e =
      let first : mh ≡ h = cc e in
      let second : mt ≡ t = cc e in (rw first (omega arith), rw second (omega arith), tt)
  locks_loop-Bounds mh mt h t (input ∷ inputs) e = elim (Bool-cases (disable_flag input.sequence)) [
    | inl d ↦
        let (a, b, rest) = locks_loop-Bounds mh mt h t inputs (rw (d, locks_loop) at e) in
        (a, b, (λ f. cc (d, f), rest))
    | inr d ↦ elim (Bool-cases (type_flag input.sequence == 0)) [
      | inl k ↦
          let height = height_for input +ℤ (pos (sequence_mask input.sequence) -ℤ pos 1) in
          let (a, b, rest) =
            locks_loop-Bounds (max_ℤ mh height) mt h t inputs (rw (d, k, locks_loop) at e) in
          let (m, n) = max_ℤ_lem mh height in
          (omega (arith, a, m), b, (λ f. inl (ground arith, omega (arith, a, n)), rest))
      | inr k ↦
          elim (Option-cases (get_ancestor (max_ℤ (height_for input -ℤ pos 1) (pos 0)) prev)) [
            | inl g ↦ cc (rw (d, k, locks_loop, g) at e)
            | inr (entry, g) ↦
                let time =
                  pos (median_time entry)
                  +ℤ (pos (sequence_mask input.sequence * 2 ^ 9) -ℤ pos 1) in
                let (a, b, rest) =
                  locks_loop-Bounds mh (max_ℤ mt time) h t inputs (rw (d, k, locks_loop, g) at e) in
                let (m, n) = max_ℤ_lem mt time in
                (
                  a,
                  omega (arith, b, m),
                  (λ f. inr (ground arith, (entry, g, omega (arith, b, n))), rest),
                )
          ]
    ]
  ]

  -- A lock of so many blocks, or of so many units of 512 seconds, has passed since the coin.
  abbrev pub Passed : ℕ → Input → Type 0
  Passed lock input =
      ((type_flag lock ≡ 0) × (height_for input +ℤ pos (sequence_mask lock) ≤ℤ pos (length prev)))
      ⊎ ((type_flag lock ≢ 0)
          × ((entry : List Entry) × (get_ancestor (max_ℤ (height_for input -ℤ pos 1) (pos 0)) prev
                ≡ some entry)
              × (median_time entry + sequence_mask lock * 2 ^ 9 ≤ median_time prev)))

  verified :
      (h t : ℤ)
      → some (
          if not (is_minus_one h) && leb_ℤ (height_of prev +ℤ pos 1) h
          then false
          else not (not (is_minus_one t) && leb_ℤ (pos (median_time prev)) t))
        ≡ some true
      → (h +ℤ pos 1 ≤ℤ pos (length prev)) × (t +ℤ pos 1 ≤ℤ pos (median_time prev))
  verified h t e = elim (Bool-cases (not (is_minus_one h) && leb_ℤ (height_of prev +ℤ pos 1) h)) [
    | inl f ↦ cc (rw f at e)
    | inr f ↦ elim (Bool-cases (not (is_minus_one t) && leb_ℤ (pos (median_time prev)) t)) [
      | inl g ↦ cc (rw (f, g) at e)
      | inr g ↦
          (under h (length prev) (rw (height_of-next prev) at f), under t (median_time prev) g)
    ]
  ]

  locks-Passed :
      (lock : ℕ) (h t : ℤ) (input : Input)
      → (h +ℤ pos 1 ≤ℤ pos (length prev)) × (t +ℤ pos 1 ≤ℤ pos (median_time prev))
      → type_flag input.sequence ≡ type_flag lock
      → sequence_mask lock ≤ sequence_mask input.sequence
      → ((type_flag input.sequence ≡ 0) × IsBelow h input)
        ⊎ ((type_flag input.sequence ≢ 0) × IsBefore t input)
      → Passed lock input
  locks-Passed lock h t input (hs, ts) kind mask (inl (z, b)) =
      inl (sym kind ∙ z, omega (int_laws, hs, b, mask))
  locks-Passed lock h t input (hs, ts) kind mask (inr (nz, (entry, g, b))) =
      inr (λ z. nz (kind ∙ z), (entry, g, omega (int_laws, ts, b, mask)))

  -- If OP_CHECKSEQUENCEVERIFY accepts a lock for an input, the lock is not disabled, and
  -- `verifyLocks` lets the transaction, which is no coinbase, into the block after `prev` under
  -- VERIFY_SEQUENCE, then the lock has passed since the block of the coin that the input spends.
  pub verify_locks-verify_sequence :
      (index lock flags : ℕ) (tx : Tx) (input : Input)
      → get_elem? tx.inputs index ≡ some input
      → verify_sequence index lock tx ≡ some true
      → disable_flag lock ≡ false
      → is_coinbase tx ≡ false
      → has_lock flags lock_verify_sequence ≡ true
      → verify_locks maps tip prev tx view flags ≡ some true
      → Passed lock input
  unfolding verify_sequence verify_locks get_locks
  verify_locks-verify_sequence index lock flags tx input i v d c f l =
      let (version, enabled, kind, mask) =
        accepted lock tx.version input.sequence d (rw (i, verify_sequence) at v) in
      let young : ltb tx.version 2 ≡ false = ground arith in
      elim (Option-cases (locks_loop maps tip prev view (negsuc 0) (negsuc 0) tx.inputs)) [
        | inl e ↦ cc (rw (f, c, young, verify_locks, get_locks, e) at l)
        | inr ((h, t), e) ↦
            let (a, b, all) = locks_loop-Bounds (negsuc 0) (negsuc 0) h t tx.inputs e in
            locks-Passed lock h t input
              (verified h t (rw (f, c, young, verify_locks, get_locks, e) at l)) kind mask
              (All-get_elem? (Bounds h t) tx.inputs index input all i enabled)
      ]
