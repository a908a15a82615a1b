-- ===== src/Script/Types.antt =====
-- What the modules of lib/script share: byte strings, parsed opcodes, the errors that a script
-- can raise, the flags of lib/script/common.js and the limits of lib/protocol/params/consensus.js.
use bcoin.Prelude.{
  ℕ, ◌^◌, ◌≡◌, refl, Bool, true, false, not, ◌&&◌, Option, none, some, List, [], ◌∷◌, ◌==◌, bit_and,
}

-- A Buffer is the list of its bytes.
abbrev pub Bytes : Type 0
Bytes = List ℕ

-- `Buffer.prototype.equals`.
unfoldable pub equals : Bytes → Bytes → Bool
equals [] [] = true
equals [] (y ∷ ys) = false
equals (x ∷ xs) [] = false
equals (x ∷ xs) (y ∷ ys) = x == y && equals xs ys

-- The class Opcode: a value, `none` for the -1 of a parse error, and the pushed data.
pub record Op : Type 0 where
  pub value : Option ℕ
  pub payload : Option Bytes

-- The codes of the ScriptErrors that the interpreter throws.
pub data ErrorCode : Type 0 where
  unknown_error script_size push_size op_count stack_size bad_opcode disabled_opcode minimal_data :
      ErrorCode
  discourage_upgradable_nops invalid_stack_operation invalid_altstack_operation : ErrorCode
  unbalanced_conditional negative_locktime unsatisfied_locktime verify op_return equal_verify :
      ErrorCode
  num_equal_verify div_by_zero mod_by_zero check_sig_verify check_multisig_verify null_fail :
      ErrorCode
  pubkey_count sig_count sig_null_dummy pubkey_type sig_der sig_high_s sig_hash_type : ErrorCode
  invalid_split_range invalid_operand_size impossible_encoding invalid_number_range : ErrorCode

-- How a call ends: with a value, with a ScriptError, or with another exception (a failed
-- assertion, a TypeError, a ReferenceError).
pub data Outcome {ℓ} (A : Type ℓ) : Type ℓ where
  ok : A → Outcome A
  err : ErrorCode → Outcome A
  fault : Outcome A

infixl 5 ◌>>=◌ ◌>>◌
abbrev pub ◌>>=◌ {ℓ κ} : {A : Type ℓ} {B : Type κ} → Outcome A → (A → Outcome B) → Outcome B
fault >>= rest = fault
err code >>= rest = err code
ok value >>= rest = rest value

abbrev pub ◌>>◌ {ℓ} : {B : Type ℓ} → Outcome (Unit {0}) → Outcome B → Outcome B
first >> rest = first >>= λ u. rest

-- `if (test) throw new ScriptError(code)`.
abbrev pub throw_if : Bool → ErrorCode → Outcome (Unit {0})
throw_if true e = err e
throw_if false e = ok tt

-- The use of a value that may be null.
abbrev pub need {ℓ} : {A : Type ℓ} → Option A → Outcome A
need none = fault
need (some a) = ok a

-- A sequence that succeeds has a first part that succeeds, and goes on from its value.
pub >>=-eq-ok {ℓ κ} :
    {A : Type ℓ} {B : Type κ} (first : Outcome A) (rest : A → Outcome B) {out : B}
    → (first >>= rest) ≡ ok out
    → (value : A) × (first ≡ ok value) × (rest value ≡ ok out)
>>=-eq-ok fault rest h = cc
>>=-eq-ok (err code) rest h = cc
>>=-eq-ok (ok value) rest h = (value, refl, h)

pub throw_if-ok : (b : Bool) (e : ErrorCode) (u : Unit {0}) → throw_if b e ≡ ok u → b ≡ false
throw_if-ok true e u h = cc
throw_if-ok false e u h = refl

-- `flags & flag`, as a test.
abbrev pub has_flag : ℕ → ℕ → Bool
has_flag flags flag = not (bit_and flags flag == 0)

abbrev pub verify_strictenc : ℕ
verify_strictenc = 2 ^ 1

abbrev pub verify_dersig : ℕ
verify_dersig = 2 ^ 2

abbrev pub verify_low_s : ℕ
verify_low_s = 2 ^ 3

abbrev pub verify_nulldummy : ℕ
verify_nulldummy = 2 ^ 4

abbrev pub verify_minimaldata : ℕ
verify_minimaldata = 2 ^ 6

abbrev pub verify_discourage_upgradable_nops : ℕ
verify_discourage_upgradable_nops = 2 ^ 7

abbrev pub verify_checklocktimeverify : ℕ
verify_checklocktimeverify = 2 ^ 9

abbrev pub verify_checksequenceverify : ℕ
verify_checksequenceverify = 2 ^ 10

abbrev pub verify_nullfail : ℕ
verify_nullfail = 2 ^ 14

abbrev pub max_script_size : ℕ
max_script_size = 10000

abbrev pub max_script_stack : ℕ
max_script_stack = 1000

abbrev pub max_script_push : ℕ
max_script_push = 520

abbrev pub max_script_ops : ℕ
max_script_ops = 201

abbrev pub max_multisig_pubkeys : ℕ
max_multisig_pubkeys = 20
