-- ===== src/Script/Interpreter/Branches.antt =====
-- The conditionals of `execute` in lib/script/script.js against a static description of nesting,
-- and what one opcode may change.
use bcoin.Prelude.{
  ℕ, ◌+◌, ◌-◌, ◌≤◌, ◌≡◌, refl, pos, ◌+ℤ◌, ◌-ℤ◌, Bool, true, false, Option, none, some, List, [],
  ◌∷◌, arith, ◌==◌, if◌then◌else◌, length,
}
use bcoin.Script.Types.{Op, Outcome, ok, err, fault, ◌>>=◌, max_script_ops}
use bcoin.Script.Opcodes.{Opcode}
use bcoin.Script.Num.{N64}
use bcoin.Script.Stack.{Items}
use bcoin.Script.Interpreter.Context.{Crypto, Context, Vm}
use bcoin.Script.Interpreter.Checks.{multisig_op}
use bcoin.Script.Interpreter.Switch.{
  if_op, else_op, endif_op, to_alt_op, from_alt_op, stack_switch, switch, with_count,
}

-- How an opcode moves the depth of open conditionals; `none` if it has none to close.
abbrev pub nest_code : Opcode → ℕ → Option ℕ
nest_code Opcode.op_if d = some (d + 1)
nest_code Opcode.op_notif d = some (d + 1)
nest_code Opcode.op_else d = if d == 0 then none else some d
nest_code Opcode.op_endif d = if d == 0 then none else some (d - 1)
nest_code _ d = some d

abbrev pub falses : List Bool → ℕ
falses [] = 0
falses (true ∷ state) = falses state
falses (false ∷ state) = falses state + 1

-- `negate` counts the open conditionals whose branch does not run.
abbrev pub IsTracked : Vm → Type 0
IsTracked vm = vm.negate ≡ pos (falses vm.state)

-- What an opcode does to the conditionals and to the count of operations.
abbrev pub Effect : Opcode → Vm → Vm → Type 0
Effect c vm vm' =
    (nest_code c (length vm.state) ≡ some (length vm'.state))
    × (IsTracked vm → IsTracked vm')
    × (vm.op_count ≤ vm'.op_count)
    × (vm.op_count ≤ max_script_ops → vm'.op_count ≤ max_script_ops)

if_op-Effect :
    (negated : Bool) (vm vm' : Vm) → if_op negated vm ≡ ok vm' → Effect Opcode.op_if vm vm'
unfolding if_op ◌+ℤ◌
if_op-Effect negated vm vm' h = ground arith

else_op-Effect : (vm vm' : Vm) → else_op vm ≡ ok vm' → Effect Opcode.op_else vm vm'
unfolding else_op ◌+ℤ◌ ◌-ℤ◌
else_op-Effect vm vm' h = ground arith

endif_op-Effect : (vm vm' : Vm) → endif_op vm ≡ ok vm' → Effect Opcode.op_endif vm vm'
unfolding endif_op ◌-ℤ◌
endif_op-Effect vm vm' h = ground arith

-- Nothing but the stacks and the place of the last separator changes.
abbrev Kept : Vm → Vm → Type 0
Kept vm vm' = (vm'.state ≡ vm.state) × (vm'.negate ≡ vm.negate) × (vm'.op_count ≡ vm.op_count)

stack_only-Kept :
    (m : Outcome Items) (vm vm' : Vm)
    → (m >>= λ stack. ok (record vm { stack = stack })) ≡ ok vm'
    → Kept vm vm'
stack_only-Kept (ok s) vm vm' h = ground arith
stack_only-Kept (err e) vm vm' h = cc
stack_only-Kept fault vm vm' h = cc

Kept-effect :
    (vm vm' : Vm)
    → Kept vm vm'
    → ◌≡◌ {A = Option ℕ} (some (length vm.state)) (some (length vm'.state))
      × (IsTracked vm → IsTracked vm')
      × (vm.op_count ≤ vm'.op_count)
      × (vm.op_count ≤ max_script_ops → vm'.op_count ≤ max_script_ops)
Kept-effect vm vm' k = ground arith

to_alt_op-Kept : (vm vm' : Vm) → to_alt_op vm ≡ ok vm' → Kept vm vm'
unfolding to_alt_op
to_alt_op-Kept vm vm' h = ground arith

from_alt_op-Kept : (vm vm' : Vm) → from_alt_op vm ≡ ok vm' → Kept vm vm'
unfolding from_alt_op
from_alt_op-Kept vm vm' h = ground arith

with_count-Effect :
    (m : Outcome (ℕ × Items)) (vm vm' : Vm)
    → ((count : ℕ) (s : Items)
        → m ≡ ok (count, s)
        → (vm.op_count ≤ count) × (count ≤ max_script_ops))
    → (m >>= with_count vm) ≡ ok vm'
    → (vm'.state ≡ vm.state)
      × (vm'.negate ≡ vm.negate)
      × (vm.op_count ≤ vm'.op_count)
      × (vm'.op_count ≤ max_script_ops)
with_count-Effect (ok (count, s)) vm vm' bound h = ground (arith, bound count s refl)
with_count-Effect (err e) vm vm' bound h = cc
with_count-Effect fault vm vm' bound h = cc

module _ (n64 : N64) (crypto : Crypto) (ctx : Context) where
  multisig_op-count :
      (script : List Op) (last_sep : ℕ) (verifies : Bool) (count : ℕ) (s : Items) (count' : ℕ)
      (s' : Items)
      → multisig_op n64 crypto ctx script last_sep verifies count s ≡ ok (count', s')
      → (count ≤ count') × (count' ≤ max_script_ops)
  unfolding multisig_op
  multisig_op-count script last_sep verifies count s count' s' h = ground arith

  multisig-Kept :
      (script : List Op) (last_sep : ℕ) (verifies : Bool) (vm vm' : Vm)
      → (multisig_op n64 crypto ctx script last_sep verifies vm.op_count vm.stack >>= with_count vm)
        ≡ ok vm'
      → (vm'.state ≡ vm.state)
        × (vm'.negate ≡ vm.negate)
        × (vm.op_count ≤ vm'.op_count)
        × (vm'.op_count ≤ max_script_ops)
  multisig-Kept script last_sep verifies vm vm' h =
      with_count-Effect (multisig_op n64 crypto ctx script last_sep verifies vm.op_count vm.stack)
        vm vm'
        (λ count s e. multisig_op-count script last_sep verifies vm.op_count vm.stack count s e) h

  -- Every case of the switch moves the conditionals as the static description says.
  pub switch-Effect :
      (c : Opcode) (script : List Op) (ip : ℕ) (vm vm' : Vm)
      → switch n64 crypto ctx c script ip vm ≡ ok vm'
      → Effect c vm vm'
  unfolding switch
  switch-Effect Opcode.op_if script ip vm vm' h = if_op-Effect false vm vm' h
  switch-Effect Opcode.op_notif script ip vm vm' h = if_op-Effect true vm vm' h
  switch-Effect Opcode.op_else script ip vm vm' h = else_op-Effect vm vm' h
  switch-Effect Opcode.op_endif script ip vm vm' h = endif_op-Effect vm vm' h
  switch-Effect Opcode.op_toaltstack script ip vm vm' h = ground (arith, to_alt_op-Kept vm vm' h)
  switch-Effect Opcode.op_fromaltstack script ip vm vm' h =
      ground (arith, from_alt_op-Kept vm vm' h)
  switch-Effect Opcode.op_codeseparator script ip vm vm' h = ground arith
  switch-Effect Opcode.op_checkmultisig script ip vm vm' h =
      ground (arith, multisig-Kept script vm.last_sep false vm vm' h)
  switch-Effect Opcode.op_checkmultisigverify script ip vm vm' h =
      ground (arith, multisig-Kept script vm.last_sep true vm vm' h)
  switch-Effect c script ip vm vm' h =
      Kept-effect vm vm' (stack_only-Kept (stack_switch n64 crypto ctx c script vm) vm vm' h)
