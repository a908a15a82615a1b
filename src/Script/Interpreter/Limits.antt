-- ===== src/Script/Interpreter/Limits.antt =====
-- What a script that `execute` in lib/script/script.js accepts is known to satisfy, by its code
-- alone: the limits of lib/protocol/params/consensus.js, and that its conditionals are closed.
use bcoin.Prelude.{
  ℕ, ◌+◌, ◌≤◌, ◌≡◌, refl, sym, ap, ◌∙◌, pos, is_zero_ℤ, Bool, true, false, not, ◌&&◌, Option, none,
  some, List, [], ◌∷◌, arith, ltb, leb, if◌then◌else◌, length, Bool-cases, Option-cases, inl, inr,
  All,
}
use bcoin.Script.Types.{
  Bytes, Op, ok, >>=-eq-ok, ◌>>◌, throw_if, throw_if-ok, script_size, stack_size, max_script_ops,
  max_script_push, max_script_size, max_script_stack,
}
use Prim.Native.Nat.{zero-le}
use bcoin.Script.Opcodes.{Opcode, code, opcode_of, code-opcode_of, is_branch, is_disabled_op}
use bcoin.Script.Num.{N64}
use bcoin.Script.Stack.{Items}
use bcoin.Script.Interpreter.Context.{Crypto, Context, Vm}
use bcoin.Script.Interpreter.Branches.{nest_code, IsTracked, falses, switch-Effect}
use bcoin.Script.Interpreter.Loop.{
  start, check_op, push_data, run_op, step, run, finish, execute, dispatch, too_big,
}

abbrev pub payload_size : Op → ℕ
payload_size op = elim op.payload [ none ↦ 0 | some bytes ↦ length bytes ]

-- An opcode that is no parse error, pushes at most 520 bytes and is not disabled.
abbrev pub IsAllowed : Op → Type 0
IsAllowed op =
    ((v : ℕ) × (op.value ≡ some v))
    × (payload_size op ≤ max_script_push)
    × (is_disabled_op op ≡ false)

-- The opcodes above OP_16, wherever they stand.
abbrev pub weight : Op → ℕ
weight op = elim op.value [ none ↦ 0 | some v ↦ if ltb 0x60 v then 1 else 0 ]

abbrev pub operations : List Op → ℕ
operations [] = 0
operations (op ∷ ops) = weight op + operations ops

-- The depth of open conditionals after an opcode, and after a script.
abbrev pub nest_op : Op → ℕ → Option ℕ
nest_op op d = elim op.payload [
  | some bytes ↦ some d
  | none ↦ elim op.value [
    | none ↦ none
    | some v ↦ elim (opcode_of v) [ none ↦ some d | some c ↦ nest_code c d ]
  ]
]

abbrev pub nest : List Op → ℕ → Option ℕ
nest [] d = some d
nest (op ∷ ops) d = elim (nest_op op d) [ none ↦ none | some d' ↦ nest ops d' ]

pub check_op_lem :
    (op : Op) (count v count' : ℕ)
    → check_op op count ≡ ok (v, count')
    → (op.value ≡ some v)
      × (payload_size op ≤ max_script_push)
      × (is_disabled_op op ≡ false)
      × (count' ≡ count + weight op)
      × (count ≤ max_script_ops → count' ≤ max_script_ops)
unfolding check_op
check_op_lem op count v count' h = ground arith

-- What a round may do to the conditionals and to the count.
abbrev Round : Op → Vm → Vm → Type 0
Round op vm vm' =
    (nest_op op (length vm.state) ≡ some (length vm'.state))
    × (IsTracked vm → IsTracked vm')
    × (vm.op_count ≤ vm'.op_count)
    × (vm.op_count ≤ max_script_ops → vm'.op_count ≤ max_script_ops)

-- An opcode outside of OP_IF to OP_ENDIF leaves the depth alone.
nest_code-plain :
    (c : Opcode) (v d : ℕ)
    → code c ≡ v
    → (leb 0x63 v && leb v 0x68) ≡ false
    → nest_code c d ≡ some d
nest_code-plain Opcode.op_if v d e h = ground arith
nest_code-plain Opcode.op_notif v d e h = ground arith
nest_code-plain Opcode.op_else v d e h = ground arith
nest_code-plain Opcode.op_endif v d e h = ground arith
nest_code-plain _ v d e h = refl

module _ (n64 : N64) (crypto : Crypto) (ctx : Context) where
  push_data-Kept :
      (op : Op) (bytes : Bytes) (vm vm' : Vm)
      → push_data n64 crypto ctx op bytes vm ≡ ok vm'
      → (vm'.state ≡ vm.state) × (vm'.negate ≡ vm.negate) × (vm'.op_count ≡ vm.op_count)
  unfolding push_data
  push_data-Kept op bytes vm vm' h = ground arith

  skipped-Round :
      (op : Op) (v : ℕ) (vm : Vm)
      → op.value ≡ some v
      → is_branch op ≡ false
      → nest_op op (length vm.state) ≡ some (length vm.state)
  unfolding is_branch
  skipped-Round op v vm e h = elim (Option-cases op.payload) [
    | inr (bytes, p) ↦ rw p
    | inl p ↦
        rw (p, e)
          (elim (Option-cases (opcode_of v)) [
            | inl unknown ↦ rw unknown
            | inr (c, k) ↦
                rw k (nest_code-plain c v (length vm.state) (code-opcode_of v c k) (rw e at h))
          ])
  ]

  pub skipped-Kept :
      (big : Bool) (vm vm' : Vm)
      → (throw_if big stack_size >> ok vm) ≡ ok vm'
      → (vm'.state ≡ vm.state) × (vm'.negate ≡ vm.negate) × (vm'.op_count ≡ vm.op_count)
  skipped-Kept true vm vm' h = cc
  skipped-Kept false vm vm' h = ground arith

  kept-Round :
      (op : Op) (vm vm' : Vm)
      → nest_op op (length vm.state) ≡ some (length vm.state)
      → (vm'.state ≡ vm.state) × (vm'.negate ≡ vm.negate) × (vm'.op_count ≡ vm.op_count)
      → Round op vm vm'
  kept-Round op vm vm' e k = (
    e ∙ ap (λ (t : List Bool). some (length t)) (sym k.0),
    λ t. rw (k.0, k.1) t,
    omega arith,
    λ t. omega arith,
  )

  dispatch-Round :
      (script : List Op) (ip : ℕ) (op : Op) (v : ℕ) (vm vm' : Vm)
      → op.value ≡ some v
      → op.payload ≡ none
      → dispatch n64 crypto ctx v script ip vm ≡ ok vm'
      → Round op vm vm'
  dispatch-Round script ip op v vm vm' e p h = elim (Option-cases (opcode_of v)) [
    | inl unknown ↦ cc (rw (unknown, dispatch) at h)
    | inr (c, k) ↦
        let (n, t, up, top) =
          switch-Effect n64 crypto ctx c script ip vm vm' (rw (k, dispatch) at h) in
        (rw (p, e, k) n, t, up, top)
  ]

  run_op-Round :
      (script : List Op) (ip : ℕ) (op : Op) (v : ℕ) (vm vm' : Vm)
      → op.value ≡ some v
      → run_op n64 crypto ctx script ip op v vm ≡ ok vm'
      → Round op vm vm'
  unfolding run_op
  run_op-Round script ip op v vm vm' e h =
      elim (Bool-cases (not (is_zero_ℤ vm.negate) && not (is_branch op))) [
        | inl skip ↦
            kept-Round op vm vm' (skipped-Round op v vm e (ground arith))
              (skipped-Kept (too_big vm) vm vm' (rw skip at h))
        | inr runs ↦ elim (Option-cases op.payload) [
          | inr (bytes, p) ↦
              kept-Round op vm vm' (rw p) (push_data-Kept op bytes vm vm' (rw (runs, p) at h))
          | inl p ↦ dispatch-Round script ip op v vm vm' e p (rw (runs, p) at h)
        ]
      ]

  -- One round of the loop, for an opcode that does not throw.
  step-Round :
      (script : List Op) (ip : ℕ) (op : Op) (vm vm' : Vm)
      → step n64 crypto ctx script ip op vm ≡ ok vm'
      → IsAllowed op
        × (nest_op op (length vm.state) ≡ some (length vm'.state))
        × (IsTracked vm → IsTracked vm')
        × (vm.op_count + weight op ≤ vm'.op_count)
        × (vm.op_count ≤ max_script_ops → vm'.op_count ≤ max_script_ops)
  unfolding step
  step-Round script ip op vm vm' h =
      let ((v, count), checked, ran) = >>=-eq-ok (check_op op vm.op_count) _ h in
      let (value, size, disabled, counted, top) = check_op_lem op vm.op_count v count checked in
      let (n, t, up, top') =
        run_op-Round script ip op v (record vm { op_count = count }) vm' value ran in
      (((v, value), size, disabled), n, t, omega arith, λ b. top' (top b))

  -- What the rest of the code and the rest of the run have in common.
  run_lem :
      (script : List Op) (ip : ℕ) (ops : List Op) (vm vm' : Vm)
      → run n64 crypto ctx script ip ops vm ≡ ok vm'
      → All IsAllowed ops
        × (nest ops (length vm.state) ≡ some (length vm'.state))
        × (IsTracked vm → IsTracked vm')
        × (vm.op_count + operations ops ≤ vm'.op_count)
        × (vm.op_count ≤ max_script_ops → vm'.op_count ≤ max_script_ops)
  unfolding run
  run_lem script ip [] vm vm' h =
      (tt, ground arith, λ t. ground arith, ground arith, λ b. ground arith)
  run_lem script ip (op ∷ ops) vm vm' h =
      let (vm₁, first, rest) = >>=-eq-ok (step n64 crypto ctx script ip op vm) _ h in
      let (a, n, t, up, top) = step-Round script ip op vm vm₁ first in
      let (a', n', t', up', top') = run_lem script (ip + 1) ops vm₁ vm' rest in
      ((a, a'), rw (n, nest) n', λ b. t' (t b), omega arith, λ b. top' (top b))

  finish_lem :
      (vm : Vm) (out : Items)
      → finish n64 crypto ctx vm ≡ ok out
      → (out ≡ vm.stack)
        × (length vm.stack + length vm.alt ≤ max_script_stack)
        × (length vm.state ≡ 0)
  unfolding finish
  finish_lem vm out h = ground arith

  -- A script that `execute` accepts has at most 10000 bytes and at most 201 opcodes above OP_16,
  -- in branches that do not run too; each of its opcodes parses, pushes at most 520 bytes and is
  -- not disabled; its conditionals are all opened and closed in order; and at most 1000 items are
  -- left on the stack.
  pub execute_accepts :
      (size : ℕ) (script : List Op) (stack out : Items)
      → execute n64 crypto ctx size script stack ≡ ok out
      → (size ≤ max_script_size)
        × (operations script ≤ max_script_ops)
        × All IsAllowed script
        × (nest script 0 ≡ some 0)
        × (length out ≤ max_script_stack)
  unfolding execute
  execute_accepts size script stack out h =
      let (u, fits, ran) = >>=-eq-ok (throw_if (ltb max_script_size size) script_size) _ h in
      let (vm, steps, ends) = >>=-eq-ok (run n64 crypto ctx script 0 script (start stack)) _ ran in
      let (a, n, t, up, top) = run_lem script 0 script (start stack) vm steps in
      let (same, room, closed) = finish_lem vm out ends in
      (
        ground (arith, throw_if-ok (ltb max_script_size size) script_size u fits),
        omega (arith, top zero-le),
        a,
        n ∙ ap some closed,
        rw same (omega arith),
      )

  -- Wherever the loop stands, `negate` is the number of open conditionals whose branch does not
  -- run, and the count of operations is at most 201 and at least the number of opcodes above OP_16.
  pub run_tracks :
      (script : List Op) (stack : Items) (ops : List Op) (vm : Vm)
      → run n64 crypto ctx script 0 ops (start stack) ≡ ok vm
      → (vm.negate ≡ pos (falses vm.state))
        × (operations ops ≤ vm.op_count)
        × (vm.op_count ≤ max_script_ops)
  run_tracks script stack ops vm h =
      let (a, n, t, up, top) = run_lem script 0 ops (start stack) vm h in
      (t refl, omega arith, top zero-le)
