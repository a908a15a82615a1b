-- ===== src/Script/Interpreter/Context.antt =====
-- What `execute` in lib/script/script.js is given, and what it keeps while it runs.
use bcoin.Prelude.{ℕ, ◌-◌, ℤ, Bool, Option, List, length, ltb, take}
use bcoin.Script.Types.{
  Bytes, Op, Outcome, throw_if, invalid_stack_operation, has_flag, verify_minimaldata,
}
use bcoin.Script.Stack.{Items}

-- The packages for hashes and signatures that script.js calls.
pub record Crypto : Type 0 where
  pub ripemd160 : Bytes → Bytes
  pub sha1 : Bytes → Bytes
  pub sha256 : Bytes → Bytes
  pub hash160 : Bytes → Bytes
  pub hash256 : Bytes → Bytes
  pub verify_der : Bytes → Bytes → Bytes → Bool
  pub is_low_der : Bytes → Bool

-- The methods of a transaction (lib/primitives/tx.js) that script.js calls: `verifyLocktime`,
-- `verifySequence`, and `signatureHash` at an index, a subscript, a value, a type and flags.
pub record Tx : Type 0 where
  pub verify_locktime : ℕ → ℤ → Bool
  pub verify_sequence : ℕ → ℤ → Bool
  pub signature_hash : ℕ → List Op → ℕ → ℕ → ℕ → Bytes

-- The arguments of `execute` but for the stack.
pub record Context : Type 0 where
  pub flags : ℕ
  pub tx : Option Tx
  pub index : ℕ
  pub value : ℕ

-- The local variables of `execute`. `state` has its last element first.
pub record Vm : Type 0 where
  pub stack : Items
  pub alt : Items
  pub state : List Bool
  pub last_sep : ℕ
  pub op_count : ℕ
  pub negate : ℤ

abbrev pub minimal : Context → Bool
minimal ctx = has_flag ctx.flags verify_minimaldata

-- `if (stack.length < n) throw new ScriptError('INVALID_STACK_OPERATION', op, ip)`.
abbrev pub at_least : ℕ → Items → Outcome (Unit {0})
at_least n stack = throw_if (ltb (length stack) n) invalid_stack_operation

-- `buffer.slice(0, -1)`.
abbrev pub but_last : Bytes → Bytes
but_last bytes = take (length bytes - 1) bytes
