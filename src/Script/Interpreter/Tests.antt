-- ===== src/Script/Interpreter/Tests.antt =====
-- Runs of the interpreter on small scripts, over 64-bit words written out, and its theorems at them.
use bcoin.Prelude.{
  ℕ, ◌+◌, ◌-◌, ◌*◌, ◌/◌, ◌%◌, ◌^◌, ◌≤◌, ◌≡◌, refl, ℤ, pos, negsuc, pos_part, neg_part, ◌+ℤ◌, ◌-ℤ◌,
  ltb_ℤ, leb_ℤ, Bool, true, false, not, ◌&&◌, none, some, List, [], ◌∷◌, leb, ◌==◌, if◌then◌else◌,
  length, replicate, All, ◌↔◌,
}
use bcoin.Script.Types.{
  Bytes, equals, Op, ok, err, equal_verify, max_script_size, max_script_ops, max_script_stack,
}
use bcoin.Script.Opcodes.{Opcode, code, opcode_of, is_disabled_op, is_branch}
use bcoin.Script.Num.{Num, N64, to_raw, decode, from_raw, is_minimal}
use bcoin.Script.Stack.{
  Items, get, push, pop, from_int, push_int, push_num, get_num, get_bool, to_bool,
}
use bcoin.Script.Encoding.{validate_key, validate_signature}
use bcoin.Script.Stack.Laws.{from_top}
use bcoin.Script.Stack.Bools.{IsZero, to_bool_lem}
use bcoin.Script.Interpreter.Context.{Crypto, Tx, Context, Vm}
use bcoin.Script.Interpreter.Operands.{stack_op, binary_op}
use bcoin.Script.Interpreter.Checks.{get_subscript}
use bcoin.Script.Interpreter.Switch.{switch, stack_switch, if_op, else_op, endif_op}
use bcoin.Script.Interpreter.Loop.{start, check_op, run_op, step, run, finish, execute}
use bcoin.Script.Interpreter.Branches.{falses}
use bcoin.Script.Interpreter.Limits.{operations, nest, IsAllowed, execute_accepts, run_tracks}
use bcoin.Script.Interpreter.Skips.{step_skips}
use bcoin.Script.Interpreter.Effects.{stack_op-effect}
use bcoin.Script.Interpreter.P2pkh.{from_pubkeyhash, p2pkh_runs}

abbrev word : ℕ → Num
word n = record { hi = n / 2 ^ 32 % 2 ^ 32; lo = n % 2 ^ 32 }

abbrev of_int : ℤ → Num
of_int (pos n) = word n
of_int (negsuc n) = word (2 ^ 64 - 1 - n)

abbrev value_of : Num → ℤ
value_of num =
    let n = num.hi * 2 ^ 32 + num.lo in
    if leb (2 ^ 31) num.hi then negsuc (2 ^ 64 - 1 - n) else pos n

abbrev zero_of : Num → Bool
zero_of num = num.hi == 0 && num.lo == 0

abbrev negated_of : Num → Num
negated_of num = of_int (pos 0 -ℤ value_of num)

abbrev absolute : Num → ℕ
absolute num = pos_part (value_of num) + neg_part (value_of num)

abbrev signed_like : Num → ℕ → Num
signed_like num n = if leb (2 ^ 31) num.hi then of_int (pos 0 -ℤ pos n) else word n

abbrev size_of : ℕ → ℕ
size_of n =
    if n == 0
    then 0
    else if leb (n / 2 ^ 8) 0
    then 1
    else if leb (n / 2 ^ 16) 0
    then 2
    else if leb (n / 2 ^ 24) 0
    then 3
    else 4

-- Two's complement on 64 bits.
abbrev words : N64
words = record {
  is_zero = zero_of;
  is_neg = λ a. leb (2 ^ 31) a.hi;
  neg = negated_of;
  abs = λ a. word (absolute a);
  byte_length = λ a. if a.hi == 0 then size_of a.lo else size_of a.hi + 4;
  testn = λ a i. (a.hi * 2 ^ 32 + a.lo) / 2 ^ i % 2 == 1;
  setn = λ a i b.
      let n = a.hi * 2 ^ 32 + a.lo in word (n - n / 2 ^ i % 2 * 2 ^ i + (if b then 2 ^ i else 0));
  orb = λ a i b. word (a.hi * 2 ^ 32 + a.lo + b * 2 ^ (8 * i));
  addn = λ a n. of_int (value_of a +ℤ n);
  add = λ a b. of_int (value_of a +ℤ value_of b);
  sub = λ a b. of_int (value_of a -ℤ value_of b);
  div =
      λ a b. signed_like (word (if leb (2 ^ 31) a.hi then 2 ^ 63 else 0)) (absolute a / absolute b);
  mod_ = λ a b. signed_like a (absolute a % absolute b);
  eq = λ a b. a.hi == b.hi && a.lo == b.lo;
  lt = λ a b. ltb_ℤ (value_of a) (value_of b);
  lte = λ a b. leb_ℤ (value_of a) (value_of b);
  gt = λ a b. ltb_ℤ (value_of b) (value_of a);
  gte = λ a b. leb_ℤ (value_of b) (value_of a);
  min = λ a b. if ltb_ℤ (value_of a) (value_of b) then a else b;
  max = λ a b. if ltb_ℤ (value_of a) (value_of b) then b else a;
  to_bool = λ a. not (zero_of a);
  from_bool = λ b. word (if b then 1 else 0);
  to_int = value_of;
  to_double = value_of;
  from_number = of_int;
  to_minimal = λ bytes. bytes;
  int32_min = of_int (negsuc (2 ^ 31 - 1));
  int32_max = of_int (pos (2 ^ 31 - 1));
  long_min = negsuc (2 ^ 31 - 1);
  long_max = pos (2 ^ 31 - 1);
}

-- Every hash is 20 bytes of one value; a signature is right if it starts with the key.
abbrev one_hash : Bytes → Bytes
one_hash bytes = replicate 20 (length bytes)

abbrev toy : Crypto
toy = record {
  ripemd160 = one_hash;
  sha1 = one_hash;
  sha256 = one_hash;
  hash160 = one_hash;
  hash256 = one_hash;
  verify_der = λ hash sig key. equals sig key;
  is_low_der = λ sig. true;
}

abbrev spend : Tx
spend = record {
  verify_locktime = λ index n. true;
  verify_sequence = λ index n. true;
  signature_hash = λ index script value type flags. [];
}

abbrev plain_run : Context
plain_run = record { flags = 0; tx = some spend; index = 0; value = 0 }

abbrev op : Opcode → Op
op c = record { value = some (code c); payload = none }

-- OP_1 OP_IF OP_2 OP_3 OP_ADD OP_ELSE OP_3 OP_ENDIF.
abbrev choice : List Op
choice =
    op Opcode.op_1
    ∷ op Opcode.op_if
    ∷ op Opcode.op_2
    ∷ op Opcode.op_3
    ∷ op Opcode.op_add
    ∷ op Opcode.op_else
    ∷ op Opcode.op_3
    ∷ op Opcode.op_endif
    ∷ []

choice_runs : execute words toy plain_run 8 choice [] ≡ ok ((5 ∷ []) ∷ [])
unfolding execute run step finish check_op run_op is_branch is_disabled_op opcode_of switch
    stack_switch if_op else_op endif_op binary_op get push pop get_bool to_bool push_num push_int
    from_int get_num to_raw decode from_raw is_minimal ◌+ℤ◌ ◌-ℤ◌
choice_runs = refl

execute_accepts_example :
    (8 ≤ max_script_size)
    × (operations choice ≤ max_script_ops)
    × All IsAllowed choice
    × (nest choice 0 ≡ some 0)
    × (1 ≤ max_script_stack)
execute_accepts_example =
    execute_accepts words toy plain_run 8 choice [] ((5 ∷ []) ∷ []) choice_runs

-- OP_0 OP_IF: one conditional is open, and its branch does not run.
abbrev stopped : Vm
stopped = record {
  stack = [];
  alt = [];
  state = false ∷ [];
  last_sep = 0;
  op_count = 1;
  negate = pos 1;
}

stopped_runs :
    run words toy plain_run [] 0 (op Opcode.op_0 ∷ op Opcode.op_if ∷ []) (start []) ≡ ok stopped
unfolding run step check_op run_op is_branch is_disabled_op opcode_of switch stack_switch if_op get
    push pop get_bool to_bool push_int from_int ◌+ℤ◌
stopped_runs = refl

run_tracks_example :
    (stopped.negate ≡ pos (falses stopped.state))
    × (operations (op Opcode.op_0 ∷ op Opcode.op_if ∷ []) ≤ stopped.op_count)
    × (stopped.op_count ≤ max_script_ops)
run_tracks_example =
    run_tracks words toy plain_run [] [] (op Opcode.op_0 ∷ op Opcode.op_if ∷ []) stopped
      stopped_runs

step-stopped :
    step words toy plain_run [] 0 (op Opcode.op_dup) stopped ≡ ok (record stopped { op_count = 2 })
unfolding step check_op run_op is_branch is_disabled_op opcode_of
step-stopped = refl

step_skips_example : ◌≡◌ {A = Items} [] [] × ◌≡◌ {A = Items} [] [] × ◌≡◌ {A = ℕ} 0 0
step_skips_example =
    step_skips words toy plain_run [] 0 (op Opcode.op_dup) stopped (record stopped { op_count = 2 })
      refl (λ b. refl) step-stopped

stack_op-effect_example :
    stack_op Opcode.op_rot (from_top ((3 ∷ []) ∷ (2 ∷ []) ∷ (1 ∷ []) ∷ []))
    ≡ ok (from_top ((1 ∷ []) ∷ (3 ∷ []) ∷ (2 ∷ []) ∷ []))
stack_op-effect_example = stack_op-effect Opcode.op_rot ((3 ∷ []) ∷ (2 ∷ []) ∷ (1 ∷ []) ∷ [])

abbrev key_hash : Bytes
key_hash = one_hash (2 ∷ 7 ∷ [])

-- A signature of two bytes and the type 1, right for the key of these two bytes.
p2pkh_runs_example :
    execute words toy plain_run 25 (from_pubkeyhash key_hash) ((2 ∷ 7 ∷ 1 ∷ []) ∷ (2 ∷ 7 ∷ []) ∷ [])
    ≡ ok ((1 ∷ []) ∷ [])
unfolding validate_signature validate_key equals get_subscript
p2pkh_runs_example =
    p2pkh_runs words toy plain_run spend key_hash (2 ∷ 7 ∷ []) (2 ∷ 7 ∷ 1 ∷ []) refl refl refl refl

wrong_key :
    execute words toy plain_run 25 (from_pubkeyhash key_hash) ((2 ∷ 1 ∷ []) ∷ (2 ∷ []) ∷ [])
    ≡ err equal_verify
unfolding validate_signature validate_key equals get_subscript
wrong_key = p2pkh_runs words toy plain_run spend key_hash (2 ∷ []) (2 ∷ 1 ∷ []) refl refl refl refl

to_bool_lem_example : (to_bool (0 ∷ 0x80 ∷ []) ≡ false) ↔ IsZero (0 ∷ 0x80 ∷ [])
to_bool_lem_example = to_bool_lem (0 ∷ 0x80 ∷ [])
