-- ===== src/Script/Interpreter/Switch.antt =====
-- `switch (op.value)` in `execute` of lib/script/script.js.
use bcoin.Prelude.{
  ℕ, ◌+◌, pos, negsuc, is_zero_ℤ, ◌+ℤ◌, ◌-ℤ◌, Bool, true, false, not, List, [], ◌∷◌, ltb,
  if◌then◌else◌, length,
}
use bcoin.Script.Types.{
  Op, Outcome, ok, err, ◌>>=◌, ◌>>◌, throw_if, need, invalid_altstack_operation,
  unbalanced_conditional, verify, op_return, verify_checklocktimeverify, verify_checksequenceverify,
}
use bcoin.Script.Opcodes.{Opcode}
use bcoin.Script.Num.{N64}
use bcoin.Script.Stack.{Items, push, pop, get_bool, push_int}
use bcoin.Script.Interpreter.Context.{Crypto, Context, Vm, minimal, at_least}
use bcoin.Script.Interpreter.Operands.{
  stack_op, bit_op, cat_op, hash_op, pick_op, size_op, equal_op, unary_op, binary_op, within_op,
  split_op, num2bin_op, bin2num_op,
}
use bcoin.Script.Interpreter.Checks.{discourage, lock_op, checksig_op, multisig_op}

-- OP_IF and OP_NOTIF. In a branch that does not run the condition is not looked at.
unfoldable pub if_op : Bool → Vm → Outcome Vm
if_op negated vm =
    if is_zero_ℤ vm.negate
    then (do
      throw_if (ltb (length vm.stack) 1) unbalanced_conditional
      let top = get_bool (negsuc 0) vm.stack
      let val = if negated then not top else top
      ok (record vm {
        stack = (pop vm.stack).1;
        state = val ∷ vm.state;
        negate = if val then vm.negate else vm.negate +ℤ pos 1;
      }))
    else ok (record vm { state = false ∷ vm.state; negate = vm.negate +ℤ pos 1 })

-- OP_ELSE.
unfoldable pub else_op : Vm → Outcome Vm
else_op vm = elim vm.state [
  | [] ↦ err unbalanced_conditional
  | val ∷ state ↦ ok (record vm {
    state = not val ∷ state;
    negate = if val then vm.negate +ℤ pos 1 else vm.negate -ℤ pos 1;
  })
]

-- OP_ENDIF.
unfoldable pub endif_op : Vm → Outcome Vm
endif_op vm = elim vm.state [
  | [] ↦ err unbalanced_conditional
  | val ∷ state ↦
      ok (record vm { state = state; negate = if val then vm.negate else vm.negate -ℤ pos 1 })
]

-- OP_VERIFY.
unfoldable pub verify_op : Items → Outcome Items
verify_op s = do at_least 1 s; throw_if (not (get_bool (negsuc 0) s)) verify; ok (pop s).1

-- OP_TOALTSTACK and OP_FROMALTSTACK.
unfoldable pub to_alt_op : Vm → Outcome Vm
to_alt_op vm = do
  at_least 1 vm.stack
  item ← need (pop vm.stack).0
  ok (record vm { stack = (pop vm.stack).1; alt = push item vm.alt })

unfoldable pub from_alt_op : Vm → Outcome Vm
from_alt_op vm = do
  throw_if (ltb (length vm.alt) 1) invalid_altstack_operation
  item ← need (pop vm.alt).0
  ok (record vm { stack = push item vm.stack; alt = (pop vm.alt).1 })

abbrev pub with_count : Vm → ℕ × Items → Outcome Vm
with_count vm (count, stack) = ok (record vm { stack = stack; op_count = count })

module _ (n64 : N64) (crypto : Crypto) (ctx : Context) where
  -- The cases whose only effect is on the main stack.
  unfoldable pub stack_switch : Opcode → List Op → Vm → Outcome Items
  stack_switch Opcode.op_0 script vm = push_int n64 (pos 0) vm.stack
  stack_switch Opcode.op_1negate script vm = push_int n64 (negsuc 0) vm.stack
  stack_switch Opcode.op_1 script vm = push_int n64 (pos 1) vm.stack
  stack_switch Opcode.op_2 script vm = push_int n64 (pos 2) vm.stack
  stack_switch Opcode.op_3 script vm = push_int n64 (pos 3) vm.stack
  stack_switch Opcode.op_4 script vm = push_int n64 (pos 4) vm.stack
  stack_switch Opcode.op_5 script vm = push_int n64 (pos 5) vm.stack
  stack_switch Opcode.op_6 script vm = push_int n64 (pos 6) vm.stack
  stack_switch Opcode.op_7 script vm = push_int n64 (pos 7) vm.stack
  stack_switch Opcode.op_8 script vm = push_int n64 (pos 8) vm.stack
  stack_switch Opcode.op_9 script vm = push_int n64 (pos 9) vm.stack
  stack_switch Opcode.op_10 script vm = push_int n64 (pos 10) vm.stack
  stack_switch Opcode.op_11 script vm = push_int n64 (pos 11) vm.stack
  stack_switch Opcode.op_12 script vm = push_int n64 (pos 12) vm.stack
  stack_switch Opcode.op_13 script vm = push_int n64 (pos 13) vm.stack
  stack_switch Opcode.op_14 script vm = push_int n64 (pos 14) vm.stack
  stack_switch Opcode.op_15 script vm = push_int n64 (pos 15) vm.stack
  stack_switch Opcode.op_16 script vm = push_int n64 (pos 16) vm.stack
  stack_switch Opcode.op_nop script vm = ok vm.stack
  stack_switch Opcode.op_checklocktimeverify script vm =
      lock_op n64 ctx verify_checklocktimeverify (λ tx. tx.verify_locktime) vm.stack >> ok vm.stack
  stack_switch Opcode.op_checksequenceverify script vm =
      lock_op n64 ctx verify_checksequenceverify (λ tx. tx.verify_sequence) vm.stack >> ok vm.stack
  stack_switch Opcode.op_nop1 script vm = discourage ctx >> ok vm.stack
  stack_switch Opcode.op_nop4 script vm = discourage ctx >> ok vm.stack
  stack_switch Opcode.op_nop5 script vm = discourage ctx >> ok vm.stack
  stack_switch Opcode.op_nop6 script vm = discourage ctx >> ok vm.stack
  stack_switch Opcode.op_nop7 script vm = discourage ctx >> ok vm.stack
  stack_switch Opcode.op_nop8 script vm = discourage ctx >> ok vm.stack
  stack_switch Opcode.op_nop9 script vm = discourage ctx >> ok vm.stack
  stack_switch Opcode.op_nop10 script vm = discourage ctx >> ok vm.stack
  stack_switch Opcode.op_verify script vm = verify_op vm.stack
  stack_switch Opcode.op_return script vm = err op_return
  stack_switch Opcode.op_depth script vm = push_int n64 (pos (length vm.stack)) vm.stack
  stack_switch Opcode.op_pick script vm = pick_op n64 (minimal ctx) false vm.stack
  stack_switch Opcode.op_roll script vm = pick_op n64 (minimal ctx) true vm.stack
  stack_switch Opcode.op_size script vm = size_op n64 (minimal ctx) vm.stack
  stack_switch Opcode.op_equal script vm = equal_op n64 (minimal ctx) false vm.stack
  stack_switch Opcode.op_equalverify script vm = equal_op n64 (minimal ctx) true vm.stack
  stack_switch Opcode.op_1add script vm = unary_op n64 (minimal ctx) Opcode.op_1add vm.stack
  stack_switch Opcode.op_1sub script vm = unary_op n64 (minimal ctx) Opcode.op_1sub vm.stack
  stack_switch Opcode.op_negate script vm = unary_op n64 (minimal ctx) Opcode.op_negate vm.stack
  stack_switch Opcode.op_abs script vm = unary_op n64 (minimal ctx) Opcode.op_abs vm.stack
  stack_switch Opcode.op_not script vm = unary_op n64 (minimal ctx) Opcode.op_not vm.stack
  stack_switch Opcode.op_0notequal script vm =
      unary_op n64 (minimal ctx) Opcode.op_0notequal vm.stack
  stack_switch Opcode.op_add script vm = binary_op n64 (minimal ctx) Opcode.op_add false vm.stack
  stack_switch Opcode.op_sub script vm = binary_op n64 (minimal ctx) Opcode.op_sub false vm.stack
  stack_switch Opcode.op_div script vm = binary_op n64 (minimal ctx) Opcode.op_div false vm.stack
  stack_switch Opcode.op_mod script vm = binary_op n64 (minimal ctx) Opcode.op_mod false vm.stack
  stack_switch Opcode.op_booland script vm =
      binary_op n64 (minimal ctx) Opcode.op_booland false vm.stack
  stack_switch Opcode.op_boolor script vm =
      binary_op n64 (minimal ctx) Opcode.op_boolor false vm.stack
  stack_switch Opcode.op_numequal script vm =
      binary_op n64 (minimal ctx) Opcode.op_numequal false vm.stack
  stack_switch Opcode.op_numequalverify script vm =
      binary_op n64 (minimal ctx) Opcode.op_numequalverify true vm.stack
  stack_switch Opcode.op_numnotequal script vm =
      binary_op n64 (minimal ctx) Opcode.op_numnotequal false vm.stack
  stack_switch Opcode.op_lessthan script vm =
      binary_op n64 (minimal ctx) Opcode.op_lessthan false vm.stack
  stack_switch Opcode.op_greaterthan script vm =
      binary_op n64 (minimal ctx) Opcode.op_greaterthan false vm.stack
  stack_switch Opcode.op_lessthanorequal script vm =
      binary_op n64 (minimal ctx) Opcode.op_lessthanorequal false vm.stack
  stack_switch Opcode.op_greaterthanorequal script vm =
      binary_op n64 (minimal ctx) Opcode.op_greaterthanorequal false vm.stack
  stack_switch Opcode.op_min script vm = binary_op n64 (minimal ctx) Opcode.op_min false vm.stack
  stack_switch Opcode.op_max script vm = binary_op n64 (minimal ctx) Opcode.op_max false vm.stack
  stack_switch Opcode.op_within script vm = within_op n64 (minimal ctx) vm.stack
  stack_switch Opcode.op_ripemd160 script vm = hash_op crypto.ripemd160 vm.stack
  stack_switch Opcode.op_sha1 script vm = hash_op crypto.sha1 vm.stack
  stack_switch Opcode.op_sha256 script vm = hash_op crypto.sha256 vm.stack
  stack_switch Opcode.op_hash160 script vm = hash_op crypto.hash160 vm.stack
  stack_switch Opcode.op_hash256 script vm = hash_op crypto.hash256 vm.stack
  stack_switch Opcode.op_checksig script vm =
      checksig_op n64 crypto ctx script vm.last_sep false vm.stack
  stack_switch Opcode.op_checksigverify script vm =
      checksig_op n64 crypto ctx script vm.last_sep true vm.stack
  stack_switch Opcode.op_cat script vm = cat_op vm.stack
  stack_switch Opcode.op_split script vm = split_op n64 (minimal ctx) vm.stack
  stack_switch Opcode.op_and script vm = bit_op Opcode.op_and vm.stack
  stack_switch Opcode.op_or script vm = bit_op Opcode.op_or vm.stack
  stack_switch Opcode.op_xor script vm = bit_op Opcode.op_xor vm.stack
  stack_switch Opcode.op_num2bin script vm = num2bin_op n64 (minimal ctx) vm.stack
  stack_switch Opcode.op_bin2num script vm = bin2num_op n64 (minimal ctx) vm.stack
  stack_switch c script vm = stack_op c vm.stack

  -- The case for an opcode at place `ip`. What no case takes ends in `stack_op`, whose default is
  -- that of the switch, BAD_OPCODE.
  unfoldable pub switch : Opcode → List Op → ℕ → Vm → Outcome Vm
  unfolding stack_switch if_op else_op endif_op to_alt_op from_alt_op
  switch Opcode.op_if script ip vm = if_op false vm
  switch Opcode.op_notif script ip vm = if_op true vm
  switch Opcode.op_else script ip vm = else_op vm
  switch Opcode.op_endif script ip vm = endif_op vm
  switch Opcode.op_toaltstack script ip vm = to_alt_op vm
  switch Opcode.op_fromaltstack script ip vm = from_alt_op vm
  switch Opcode.op_codeseparator script ip vm = ok (record vm { last_sep = ip + 1 })
  switch Opcode.op_checkmultisig script ip vm =
      multisig_op n64 crypto ctx script vm.last_sep false vm.op_count vm.stack >>= with_count vm
  switch Opcode.op_checkmultisigverify script ip vm =
      multisig_op n64 crypto ctx script vm.last_sep true vm.op_count vm.stack >>= with_count vm
  switch c script ip vm = stack_switch c script vm >>= λ stack. ok (record vm { stack = stack })
