-- ===== src/Primitives/Tx/Locktime.antt =====
-- What OP_CHECKLOCKTIMEVERIFY promises of the block that a transaction gets into.
use bcoin.Prelude.{
  ℕ, zero, suc, ◌+◌, ◌≤◌, ◌<◌, ◌≡◌, ◌⊎◌, refl, sym, ℤ, pos, ◌≤ℤ◌, true, false, not, ◌&&◌, ◌||◌,
  some, List, [], ◌∷◌, inl, inr, arith, ltb, ◌==◌, get_elem?, Option-cases, if◌then◌else◌,
}
use bcoin.Primitives.Tx.{
  Input, Tx, sequence_final, locktime_threshold, all_final, is_final, verify_locktime,
}

not-all_final :
    (inputs : List Input) (index : ℕ) (input : Input)
    → get_elem? inputs index ≡ some input
    → (input.sequence == sequence_final) ≡ false
    → all_final inputs ≡ false
not-all_final [] index input e f = cc e
not-all_final (i ∷ inputs) zero input e f =
    let same : i ≡ input = cc e in let g = rw (sym same) at f in rw g refl
not-all_final (i ∷ inputs) (suc index) input e f =
    ground (arith, not-all_final inputs index input e f)

accepted :
    (lock locktime sequence : ℕ)
    → some (
        if ltb locktime locktime_threshold && not (ltb lock locktime_threshold)
          || not (ltb locktime locktime_threshold) && ltb lock locktime_threshold
        then false
        else if ltb locktime lock
        then false
        else not (sequence == sequence_final))
      ≡ some true
    → (ltb lock locktime_threshold ≡ ltb locktime locktime_threshold)
      × (lock ≤ locktime)
      × ((sequence == sequence_final) ≡ false)
accepted lock locktime sequence e = ground arith

-- If `verifyLocktime` accepts a lock for an input, and the transaction is final at a height and a
-- time, then the lock has passed: it is 0, or a height below that height, or a time below that time.
pub verify_locktime-is_final :
    (height time : ℤ) (index lock : ℕ) (tx : Tx)
    → verify_locktime index lock tx ≡ some true
    → is_final height time tx ≡ true
    → (lock ≡ 0)
      ⊎ (((lock < locktime_threshold) × (pos (lock + 1) ≤ℤ height))
          ⊎ ((locktime_threshold ≤ lock) × (pos (lock + 1) ≤ℤ time)))
unfolding verify_locktime is_final
verify_locktime-is_final height time index lock tx v f =
    elim (Option-cases (get_elem? tx.inputs index)) [
      | inl e ↦ cc (rw (e, verify_locktime) at v)
      | inr (input, e) ↦
          let (kind, low, unlocked) =
            accepted lock tx.locktime input.sequence (rw (e, verify_locktime) at v) in
          let last = not-all_final tx.inputs index input e unlocked in ground arith
    ]
