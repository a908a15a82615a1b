-- ===== src/Script/Interpreter/Loop.antt =====
-- The loop of `execute` in lib/script/script.js, with the tests before and after the switch.
use bcoin.Prelude.{
  ℕ, ◌+◌, pos, is_zero_ℤ, Bool, true, false, not, ◌&&◌, none, some, List, [], ◌∷◌, ltb, ◌==◌,
  if◌then◌else◌, length,
}
use bcoin.Script.Types.{
  Bytes, Op, Outcome, ok, err, fault, ◌>>=◌, ◌>>◌, throw_if, script_size, bad_opcode, push_size,
  op_count, disabled_opcode, stack_size, minimal_data, unbalanced_conditional, max_script_size,
  max_script_push, max_script_ops, max_script_stack,
}
use bcoin.Script.Opcodes.{code, opcode_of, is_disabled_op, is_branch, is_minimal_op, op_16}
use bcoin.Script.Num.{N64}
use bcoin.Script.Stack.{Items, push}
use bcoin.Script.Interpreter.Context.{Crypto, Context, Vm, minimal}
use bcoin.Script.Interpreter.Switch.{switch}

abbrev pub start : Items → Vm
start stack = record {
  stack = stack;
  alt = [];
  state = [];
  last_sep = 0;
  op_count = 0;
  negate = pos 0;
}

abbrev pub too_big : Vm → Bool
too_big vm = ltb max_script_stack (length vm.stack + length vm.alt)

-- `op.value > opcodes.OP_16 && ++opCount`: the count after the test.
abbrev pub counted : ℕ → ℕ → ℕ
counted v count = if ltb (code op_16) v then count + 1 else count

-- The four tests at the head of a round, with the value and the new count.
unfoldable pub check_op : Op → ℕ → Outcome (ℕ × ℕ)
check_op op count = elim op.value [
  | none ↦ err bad_opcode
  | some v ↦ (do
    throw_if (elim op.payload [ none ↦ false | some bytes ↦ ltb max_script_push (length bytes) ])
        push_size
    throw_if (ltb (code op_16) v && ltb max_script_ops (counted v count)) op_count
    throw_if (is_disabled_op op) disabled_opcode
    ok (v, counted v count))
]

module _ (n64 : N64) (crypto : Crypto) (ctx : Context) where
  -- A push of data.
  unfoldable pub push_data : Op → Bytes → Vm → Outcome Vm
  push_data op bytes vm = do
    shortest ← if minimal ctx then is_minimal_op op else ok true
    throw_if (not shortest) minimal_data
    let vm' = record vm { stack = push bytes vm.stack }
    throw_if (too_big vm') stack_size
    ok vm'

  abbrev pub dispatch : ℕ → List Op → ℕ → Vm → Outcome Vm
  dispatch v script ip vm = elim (opcode_of v) [
    | none ↦ err bad_opcode
    | some c ↦ switch n64 crypto ctx c script ip vm
  ]

  -- The rest of a round, after the tests.
  unfoldable pub run_op : List Op → ℕ → Op → ℕ → Vm → Outcome Vm
  unfolding push_data
  run_op script ip op v vm =
      if not (is_zero_ℤ vm.negate) && not (is_branch op)
      then throw_if (too_big vm) stack_size >> ok vm
      else elim op.payload [ none ↦ dispatch v script ip vm | some bytes ↦ push_data op bytes vm ]

  -- One round of the loop.
  unfoldable pub step : List Op → ℕ → Op → Vm → Outcome Vm
  unfolding check_op run_op
  step script ip op vm = do
    (v, count) ← check_op op vm.op_count
    run_op script ip op v (record vm { op_count = count })

  -- The rounds from `ip` on, over the opcodes that are left.
  unfoldable pub run : List Op → ℕ → List Op → Vm → Outcome Vm
  unfolding step
  run script ip [] vm = ok vm
  run script ip (op ∷ ops) vm = step script ip op vm >>= λ vm'. run script (ip + 1) ops vm'

  -- After the loop. The error of the first test names `op` and `ip`, which are not in scope there,
  -- so that it ends in a ReferenceError.
  unfoldable pub finish : Vm → Outcome Items
  finish vm =
      if too_big vm
      then fault
      else throw_if (not (length vm.state == 0)) unbalanced_conditional >> ok vm.stack

  -- `execute` on a script of `size` bytes; the stack is returned as it is left.
  unfoldable pub execute : ℕ → List Op → Items → Outcome Items
  unfolding run finish
  execute size script stack = do
    throw_if (ltb max_script_size size) script_size
    vm ← run script 0 script (start stack)
    finish vm
