-- ===== src/Script/Interpreter/P2pkh.antt =====
-- The pay-to-pubkey-hash script of lib/script/script.js (`fromPubkeyhash`), run by `execute`.
use bcoin.Prelude.{
  ◌+◌, ◌≤◌, ◌≡◌, refl, ap, ◌∙◌, pos, Bool, true, false, not, ◌&&◌, none, some, List, [], ◌∷◌, ◌++◌,
  arith, ltb, ◌==◌, if◌then◌else◌, length, Bool-cases, inl, inr,
}
use bcoin.Script.Types.{Bytes, equals, Op, Outcome, ok, err, ◌>>=◌, equal_verify, null_fail}
use bcoin.Prelude.{length-append}
use bcoin.Script.Opcodes.{Opcode, code, opcode_of, is_disabled_op, is_branch, is_minimal_op}
use bcoin.Script.Num.{N64}
use bcoin.Script.Stack.{Items, get, push, pop, from_int, from_bool, push_bool}
use bcoin.Script.Encoding.{validate_key, validate_signature}
use bcoin.Script.Interpreter.Context.{Crypto, Context, Tx, Vm, minimal}
use bcoin.Script.Interpreter.Operands.{stack_op, hash_op, equal_op}
use bcoin.Script.Interpreter.Checks.{checksig_op, get_subscript, signed, nullfail}
use bcoin.Script.Interpreter.Switch.{switch, stack_switch}
use bcoin.Script.Interpreter.Loop.{start, check_op, push_data, run_op, step, run, finish, execute}

abbrev plain : Opcode → Op
plain c = record { value = some (code c); payload = none }

-- `fromPubkeyhash`, on a hash of 20 bytes, as it asserts.
pub from_pubkeyhash : Bytes → List Op
from_pubkeyhash hash =
    plain Opcode.op_dup
    ∷ plain Opcode.op_hash160
    ∷ record { value = some 20; payload = some hash }
    ∷ plain Opcode.op_equalverify
    ∷ plain Opcode.op_checksig
    ∷ []

abbrev hash_op20 : Bytes → Op
hash_op20 hash = record { value = some 20; payload = some hash }

minimal_hash : (hash : Bytes) → length hash ≡ 20 → is_minimal_op (hash_op20 hash) ≡ ok true
unfolding is_minimal_op
minimal_hash [] e = absurd (omega arith)
minimal_hash (a ∷ []) e = absurd (omega arith)
minimal_hash (a ∷ b ∷ bs) e = ground arith

if_same : (b : Bool) → ◌≡◌ {A = Outcome Bool} (if b then ok true else ok true) (ok true)
if_same true = refl
if_same false = refl

has_room :
    (bytes : Bytes) (vm : Vm)
    → length vm.stack + length vm.alt ≤ 999
    → ltb 1000 (length (vm.stack ++ (bytes ∷ [])) + length vm.alt) ≡ false
has_room bytes vm h = ground (arith, length-append vm.stack (bytes ∷ []))

not_long : (hash : Bytes) → length hash ≡ 20 → ltb 520 (length hash) ≡ false
not_long hash e = ground arith

module _ (n64 : N64) (crypto : Crypto) (ctx : Context) where
  push_hash :
      (hash : Bytes) (vm : Vm)
      → length hash ≡ 20
      → length vm.stack + length vm.alt ≤ 999
      → push_data n64 crypto ctx (hash_op20 hash) hash vm
        ≡ ok (record vm { stack = push hash vm.stack })
  unfolding push_data push
  push_hash hash vm e room =
      rw (push_data, minimal_hash hash e, if_same (minimal ctx), has_room hash vm room)

  abbrev after_hash : Bytes → Bytes → Bytes → Vm
  after_hash hash key sig = record {
    stack = sig ∷ key ∷ crypto.hash160 key ∷ hash ∷ [];
    alt = [];
    state = [];
    last_sep = 0;
    op_count = 2;
    negate = pos 0;
  }

  -- OP_DUP, OP_HASH160 and the push of the hash.
  first_part :
      (script ops : List Op) (hash key sig : Bytes)
      → length hash ≡ 20
      → run n64 crypto ctx script 0
          (plain Opcode.op_dup ∷ plain Opcode.op_hash160 ∷ hash_op20 hash ∷ ops)
          (start (sig ∷ key ∷ []))
        ≡ run n64 crypto ctx script 3 ops (after_hash hash key sig)
  unfolding run step check_op run_op is_branch switch stack_switch stack_op hash_op get push pop
      opcode_of is_disabled_op
  first_part script ops hash key sig e = rw (
    step,
    check_op,
    not_long hash e,
    run_op,
    push_hash hash
        (record {
          stack = sig ∷ key ∷ crypto.hash160 key ∷ [];
          alt = [];
          state = [];
          last_sep = 0;
          op_count = 2;
          negate = pos 0;
        })
        e (omega arith),
  )

  -- What the last two opcodes make of the signature.
  abbrev pub verdict : Bytes → Bytes → Bool → Outcome Items
  verdict key sig res =
      if res
      then ok ((1 ∷ []) ∷ [])
      else if nullfail n64 crypto ctx && not (length sig == 0)
      then err null_fail
      else ok ([] ∷ [])

  last_part :
      (script : List Op) (tx : Tx) (hash key sig : Bytes)
      → ctx.tx ≡ some tx
      → validate_signature crypto.is_low_der sig ctx.flags ≡ ok tt
      → validate_key key ctx.flags ≡ ok tt
      → (run n64 crypto ctx script 3
            (plain Opcode.op_equalverify ∷ plain Opcode.op_checksig ∷ [])
            (after_hash hash key sig)
          >>= finish n64 crypto ctx)
        ≡ (if equals (crypto.hash160 key) hash
            then verdict key sig (signed n64 crypto ctx tx script sig key)
            else err equal_verify)
  unfolding run step check_op run_op is_branch switch stack_switch equal_op checksig_op get push pop
      opcode_of is_disabled_op push_bool from_bool from_int finish get_subscript
  last_part script tx hash key sig t vs vk = elim (Bool-cases (equals (crypto.hash160 key) hash)) [
    | inr ne ↦ rw ne
    | inl e ↦ elim (Bool-cases (signed n64 crypto ctx tx script sig key)) [
      | inl s ↦ rw (e, t, vs, vk, s)
      | inr s ↦ elim (Bool-cases (nullfail n64 crypto ctx && not (length sig == 0))) [
        | inl d ↦ rw (e, t, vs, vk, s, d)
        | inr d ↦ rw (e, t, vs, vk, s, d)
      ]
    ]
  ]

  -- Pay to a public key hash of 20 bytes, run for a transaction on a signature and a key that pass
  -- the tests of their encodings: if the key does not
  -- have the hash, OP_EQUALVERIFY refuses; else the signature decides, where one that is wrong
  -- leaves an empty item, or is an error under NULLFAIL unless it is empty.
  pub p2pkh_runs :
      (tx : Tx) (hash key sig : Bytes)
      → ctx.tx ≡ some tx
      → length hash ≡ 20
      → validate_signature crypto.is_low_der sig ctx.flags ≡ ok tt
      → validate_key key ctx.flags ≡ ok tt
      → execute n64 crypto ctx 25 (from_pubkeyhash hash) (sig ∷ key ∷ []) ≡ (
          if equals (crypto.hash160 key) hash
          then verdict key sig (signed n64 crypto ctx tx (from_pubkeyhash hash) sig key)
          else err equal_verify)
  unfolding execute from_pubkeyhash is_disabled_op
  p2pkh_runs tx hash key sig t e vs vk =
      ap (λ m. m >>= finish n64 crypto ctx)
        (first_part (from_pubkeyhash hash)
          (plain Opcode.op_equalverify ∷ plain Opcode.op_checksig ∷ []) hash key sig e)
      ∙ last_part (from_pubkeyhash hash) tx hash key sig t vs vk
