-- ===== src/Script/Interpreter/Skips.antt =====
-- Code in a branch that does not run: `execute` of lib/script/script.js passes over it.
use bcoin.Prelude.{
  ℕ, ◌≡◌, is_zero_ℤ, Bool, true, false, ◌&&◌, none, some, List, arith, leb, Bool-cases,
  Option-cases, inl, inr,
}
use bcoin.Script.Types.{Op, ok, >>=-eq-ok, ◌>>◌, throw_if, stack_size}
use bcoin.Script.Opcodes.{Opcode, code, opcode_of, code-opcode_of, is_branch}
use bcoin.Script.Num.{N64}
use bcoin.Script.Interpreter.Context.{Crypto, Context, Vm}
use bcoin.Script.Interpreter.Operands.{stack_op}
use bcoin.Script.Interpreter.Switch.{if_op, else_op, endif_op, stack_switch, switch}
use bcoin.Script.Interpreter.Loop.{check_op, run_op, step, dispatch, too_big}
use bcoin.Script.Interpreter.Limits.{check_op_lem}

abbrev SameStacks : Vm → Vm → Type 0
SameStacks vm vm' = (vm'.stack ≡ vm.stack) × (vm'.alt ≡ vm.alt) × (vm'.last_sep ≡ vm.last_sep)

if_op-skips :
    (negated : Bool) (vm vm' : Vm)
    → is_zero_ℤ vm.negate ≡ false
    → if_op negated vm ≡ ok vm'
    → SameStacks vm vm'
unfolding if_op
if_op-skips negated vm vm' off h = ground arith

else_op-skips : (vm vm' : Vm) → else_op vm ≡ ok vm' → SameStacks vm vm'
unfolding else_op
else_op-skips vm vm' h = ground arith

endif_op-skips : (vm vm' : Vm) → endif_op vm ≡ ok vm' → SameStacks vm vm'
unfolding endif_op
endif_op-skips vm vm' h = ground arith

passed_over :
    (big : Bool) (vm vm' : Vm) → (throw_if big stack_size >> ok vm) ≡ ok vm' → SameStacks vm vm'
passed_over true vm vm' h = cc
passed_over false vm vm' h = ground arith

module _ (n64 : N64) (crypto : Crypto) (ctx : Context) where
  switch-skips :
      (c : Opcode) (script : List Op) (ip : ℕ) (vm vm' : Vm)
      → (leb 0x63 (code c) && leb (code c) 0x68) ≡ true
      → is_zero_ℤ vm.negate ≡ false
      → switch n64 crypto ctx c script ip vm ≡ ok vm'
      → SameStacks vm vm'
  unfolding switch stack_switch stack_op
  switch-skips Opcode.op_if script ip vm vm' b off h = if_op-skips false vm vm' off h
  switch-skips Opcode.op_notif script ip vm vm' b off h = if_op-skips true vm vm' off h
  switch-skips Opcode.op_else script ip vm vm' b off h = else_op-skips vm vm' h
  switch-skips Opcode.op_endif script ip vm vm' b off h = endif_op-skips vm vm' h
  switch-skips Opcode.op_verif script ip vm vm' b off h = cc
  switch-skips Opcode.op_vernotif script ip vm vm' b off h = cc
  switch-skips _ script ip vm vm' b off h = cc

  dispatch-skips :
      (script : List Op) (ip : ℕ) (op : Op) (v : ℕ) (vm vm' : Vm)
      → op.value ≡ some v
      → is_branch op ≡ true
      → is_zero_ℤ vm.negate ≡ false
      → dispatch n64 crypto ctx v script ip vm ≡ ok vm'
      → SameStacks vm vm'
  unfolding is_branch
  dispatch-skips script ip op v vm vm' e b off h = elim (Option-cases (opcode_of v)) [
    | inl unknown ↦ cc (rw (unknown, dispatch) at h)
    | inr (c, k) ↦
        switch-skips c script ip vm vm' (rw (code-opcode_of v c k) (rw e at b)) off
          (rw (k, dispatch) at h)
  ]

  run_op-skips :
      (script : List Op) (ip : ℕ) (op : Op) (v : ℕ) (vm vm' : Vm)
      → op.value ≡ some v
      → is_zero_ℤ vm.negate ≡ false
      → (is_branch op ≡ true → op.payload ≡ none)
      → run_op n64 crypto ctx script ip op v vm ≡ ok vm'
      → SameStacks vm vm'
  unfolding run_op
  run_op-skips script ip op v vm vm' e off parsed h = elim (Bool-cases (is_branch op)) [
    | inl b ↦ dispatch-skips script ip op v vm vm' e b off (rw (off, b, parsed b) at h)
    | inr nb ↦ passed_over (too_big vm) vm vm' (rw (off, nb) at h)
  ]

  -- While a branch does not run, no opcode touches the stacks or the separator, IF, ELSE and
  -- ENDIF included, provided that branch opcodes carry no data, as the parser makes them.
  pub step_skips :
      (script : List Op) (ip : ℕ) (op : Op) (vm vm' : Vm)
      → is_zero_ℤ vm.negate ≡ false
      → (is_branch op ≡ true → op.payload ≡ none)
      → step n64 crypto ctx script ip op vm ≡ ok vm'
      → (vm'.stack ≡ vm.stack) × (vm'.alt ≡ vm.alt) × (vm'.last_sep ≡ vm.last_sep)
  unfolding step
  step_skips script ip op vm vm' off parsed h =
      let ((v, count), checked, ran) = >>=-eq-ok (check_op op vm.op_count) _ h in
      run_op-skips script ip op v (record vm { op_count = count }) vm'
        (check_op_lem op vm.op_count v count checked).0 off parsed ran
