-- ===== src/Script/Interpreter/Checks.antt =====
-- The cases of the switch in `execute` of lib/script/script.js that need the transaction: the two
-- locks, OP_CHECKSIG and OP_CHECKMULTISIG.
use bcoin.Prelude.{
  ℕ, zero, suc, ◌+◌, ◌-◌, ℤ, negsuc, pos_part, is_neg_ℤ, Bool, true, false, not, ◌&&◌, ◌||◌, Option,
  none, some, List, [], ◌∷◌, ltb, ◌==◌, if◌then◌else◌, length, drop,
}
use bcoin.Script.Types.{
  Bytes, Op, Outcome, ok, err, ◌>>=◌, ◌>>◌, throw_if, need, has_flag, unknown_error,
  discourage_upgradable_nops, negative_locktime, unsatisfied_locktime, null_fail, check_sig_verify,
  check_multisig_verify, pubkey_count, sig_count, sig_null_dummy, op_count,
  verify_discourage_upgradable_nops, verify_nullfail, verify_nulldummy, max_script_ops,
  max_multisig_pubkeys,
}
use bcoin.Script.Num.{N64, byte_at}
use bcoin.Script.Stack.{Items, get, pop, push_bool, get_num, get_int_at}
use bcoin.Script.Encoding.{validate_key, validate_signature}
use bcoin.Script.Interpreter.Context.{Crypto, Tx, Context, minimal, at_least, but_last}

-- `if (!tx) throw new ScriptError('UNKNOWN_ERROR', 'No TX passed in.')`.
abbrev with_tx : Option Tx → Outcome Tx
with_tx none = err unknown_error
with_tx (some tx) = ok tx

abbrev pub discourage : Context → Outcome (Unit {0})
discourage ctx =
    throw_if (has_flag ctx.flags verify_discourage_upgradable_nops) discourage_upgradable_nops

-- OP_CHECKLOCKTIMEVERIFY and OP_CHECKSEQUENCEVERIFY, by the flag and the method of the
-- transaction. They leave the stack alone.
unfoldable pub lock_op : N64 → Context → ℕ → (Tx → ℕ → ℤ → Bool) → Items → Outcome (Unit {0})
lock_op n64 ctx flag holds s = if not (has_flag ctx.flags flag) then discourage ctx else (do
  tx ← with_tx ctx.tx
  at_least 1 s
  num ← get_num n64 (negsuc 0) (minimal ctx) (some 5) s
  throw_if (n64.is_neg num) negative_locktime
  throw_if (not (holds tx ctx.index (n64.to_double num))) unsatisfied_locktime)

until_bad : List Op → List Op
until_bad [] = []
until_bad (op ∷ ops) = elim op.value [ none ↦ [] | some v ↦ op ∷ until_bad ops ]

-- `getSubscript`: the code from an index up to a parse error; a clone at index 0.
unfoldable pub get_subscript : List Op → ℕ → List Op
unfolding until_bad
get_subscript script i = if i == 0 then script else until_bad (drop i script)

module _ (n64 : N64) (crypto : Crypto) (ctx : Context) where
  -- `checksig(tx.signatureHash(...), sig, key)`, for a signature that is not empty.
  abbrev pub signed : Tx → List Op → Bytes → Bytes → Bool
  signed tx subscript sig key =
      if length sig == 0
      then false
      else let type = byte_at sig (length sig - 1) in
        let hash = tx.signature_hash ctx.index subscript ctx.value type ctx.flags in
        crypto.verify_der hash (but_last sig) key

  abbrev pub nullfail : Bool
  nullfail = has_flag ctx.flags verify_nullfail

  -- OP_CHECKSIG and OP_CHECKSIGVERIFY.
  unfoldable pub checksig_op : List Op → ℕ → Bool → Items → Outcome Items
  unfolding get_subscript
  checksig_op script last_sep verifies s = do
    tx ← with_tx ctx.tx
    at_least 2 s
    sig ← need (get (negsuc 1) s)
    key ← need (get (negsuc 0) s)
    validate_signature crypto.is_low_der sig ctx.flags
    validate_key key ctx.flags
    let res = signed tx (get_subscript script last_sep) sig key
    throw_if (not res && nullfail && not (length sig == 0)) null_fail
    s' ← push_bool n64 res (pop (pop s).1).1
    if verifies then throw_if (not res) check_sig_verify >> ok (pop s').1 else ok s'

  -- The loop over keys and signatures, recursive on the number `n` of keys that are left. With no
  -- key left no signature is: `m` is at most `n`.
  pub multisig_loop : Tx → List Op → Items → ℕ → ℕ → ℕ → ℕ → Outcome Bool
  multisig_loop tx subscript s zero m isig ikey = ok true
  multisig_loop tx subscript s (suc n) m isig ikey = if m == 0 then ok true else (do
    sig ← need (get (negsuc (isig - 1)) s)
    key ← need (get (negsuc (ikey - 1)) s)
    validate_signature crypto.is_low_der sig ctx.flags
    validate_key key ctx.flags
    let hit = signed tx subscript sig key
    let m' = if hit then m - 1 else m
    let isig' = if hit then isig + 1 else isig
    let rest = multisig_loop tx subscript s n m' isig' (ikey + 1)
    if ltb n m' then ok false else rest)

  -- `while (i > 1)`: the operands are popped, and under NULLFAIL a failed check wants each of the
  -- signatures, which come after `okey` others, to be empty.
  pub multisig_clear : Bool → ℕ → ℕ → Items → Outcome Items
  multisig_clear res zero okey s = ok s
  multisig_clear res (suc i) okey s =
      let rest = multisig_clear res i (okey - 1) (pop s).1 in
      if not res && nullfail && okey == 0
      then (do item ← need (get (negsuc 0) s); throw_if (not (length item == 0)) null_fail; rest)
      else rest

  -- The part of the case from the count of signatures on, with `n` keys at most 20. The rounds of
  -- `multisig_clear` are `i - 1`, for `i = n + m + 3`.
  pub multisig_keys : List Op → ℕ → Bool → Tx → ℕ → Items → Outcome Items
  unfolding get_subscript multisig_loop multisig_clear
  multisig_keys script last_sep verifies tx n s = do
    at_least (n + 2) s
    m' ← get_int_at n64 (negsuc (n + 1)) (minimal ctx) (some 4) s
    throw_if (is_neg_ℤ m' || ltb n (pos_part m')) sig_count
    let m = pos_part m'
    at_least (n + m + 3) s
    res ← multisig_loop tx (get_subscript script last_sep) s n m (n + 3) 2
    s' ← multisig_clear res (n + m + 2) (n + 2) s
    at_least 1 s'
    dummy ← need (get (negsuc 0) s')
    throw_if (has_flag ctx.flags verify_nulldummy && not (length dummy == 0)) sig_null_dummy
    s'' ← push_bool n64 res (pop s').1
    if verifies then throw_if (not res) check_multisig_verify >> ok (pop s'').1 else ok s''

  -- OP_CHECKMULTISIG and OP_CHECKMULTISIGVERIFY, with the count of operations, to which the keys
  -- are added.
  unfoldable pub multisig_op : List Op → ℕ → Bool → ℕ → Items → Outcome (ℕ × Items)
  multisig_op script last_sep verifies count s = do
    tx ← with_tx ctx.tx
    at_least 1 s
    n' ← get_int_at n64 (negsuc 0) (minimal ctx) (some 4) s
    throw_if (is_neg_ℤ n' || ltb max_multisig_pubkeys (pos_part n')) pubkey_count
    let n = pos_part n'
    throw_if (ltb max_script_ops (count + n)) op_count
    s' ← multisig_keys script last_sep verifies tx n s
    ok (count + n, s')
