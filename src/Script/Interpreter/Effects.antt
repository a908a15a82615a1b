-- ===== src/Script/Interpreter/Effects.antt =====
-- The stack operators of `execute` in lib/script/script.js against their effects on a stack that is
-- listed from its top, as the comments (x1 x2 -- x2 x1) of the script language describe them.
use bcoin.Prelude.{
  ℕ, ◌≤◌, ◌≡◌, refl, ap, [], ◌∷◌, arith, if◌then◌else◌, length, Bool-cases, inl, inr,
}
use bcoin.Script.Types.{Bytes, Outcome, ok, err, ◌>>=◌, bad_opcode, invalid_stack_operation}
use bcoin.Script.Opcodes.{Opcode}
use bcoin.Script.Stack.{Items, push, pop, to_bool, get_bool}
use bcoin.Script.Stack.Laws.{
  from_top, length-from_top, get-from_top, pop-from_top, remove-from_top, swap-from_top,
  insert-from_top, erase-from_top,
}
use bcoin.Script.Interpreter.Context.{at_least}
use bcoin.Script.Interpreter.Operands.{stack_op, swapped}

-- The stack from the top before and after each operator.
abbrev pub effect : Opcode → Items → Outcome Items
effect Opcode.op_2drop (b ∷ a ∷ r) = ok (r)
effect Opcode.op_2drop _ = err invalid_stack_operation
effect Opcode.op_2dup (b ∷ a ∷ r) = ok (b ∷ a ∷ b ∷ a ∷ r)
effect Opcode.op_2dup _ = err invalid_stack_operation
effect Opcode.op_3dup (c ∷ b ∷ a ∷ r) = ok (c ∷ b ∷ a ∷ c ∷ b ∷ a ∷ r)
effect Opcode.op_3dup _ = err invalid_stack_operation
effect Opcode.op_2over (d ∷ c ∷ b ∷ a ∷ r) = ok (b ∷ a ∷ d ∷ c ∷ b ∷ a ∷ r)
effect Opcode.op_2over _ = err invalid_stack_operation
effect Opcode.op_2rot (f ∷ e ∷ d ∷ c ∷ b ∷ a ∷ r) = ok (b ∷ a ∷ f ∷ e ∷ d ∷ c ∷ r)
effect Opcode.op_2rot _ = err invalid_stack_operation
effect Opcode.op_2swap (d ∷ c ∷ b ∷ a ∷ r) = ok (b ∷ a ∷ d ∷ c ∷ r)
effect Opcode.op_2swap _ = err invalid_stack_operation
effect Opcode.op_drop (a ∷ r) = ok (r)
effect Opcode.op_drop _ = err invalid_stack_operation
effect Opcode.op_dup (a ∷ r) = ok (a ∷ a ∷ r)
effect Opcode.op_dup _ = err invalid_stack_operation
effect Opcode.op_nip (b ∷ a ∷ r) = ok (b ∷ r)
effect Opcode.op_nip _ = err invalid_stack_operation
effect Opcode.op_over (b ∷ a ∷ r) = ok (a ∷ b ∷ a ∷ r)
effect Opcode.op_over _ = err invalid_stack_operation
effect Opcode.op_rot (c ∷ b ∷ a ∷ r) = ok (a ∷ c ∷ b ∷ r)
effect Opcode.op_rot _ = err invalid_stack_operation
effect Opcode.op_swap (b ∷ a ∷ r) = ok (a ∷ b ∷ r)
effect Opcode.op_swap _ = err invalid_stack_operation
effect Opcode.op_tuck (b ∷ a ∷ r) = ok (b ∷ a ∷ b ∷ r)
effect Opcode.op_tuck _ = err invalid_stack_operation
effect Opcode.op_ifdup (a ∷ r) = ok (if to_bool a then a ∷ a ∷ r else a ∷ r)
effect Opcode.op_ifdup _ = err invalid_stack_operation
effect _ r = err bad_opcode

abbrev pub map_ok : (Items → Items) → Outcome Items → Outcome Items
map_ok f m = m >>= λ r. ok (f r)

at_least-from_top : (n : ℕ) (r : Items) → n ≤ length r → at_least n (from_top r) ≡ ok tt
at_least-from_top n r h = ground (arith, length-from_top r)

popped : (x : Bytes) (r : Items) → (pop (from_top (x ∷ r))).1 ≡ from_top r
popped x r = ap (λ t. t.1) (pop-from_top x r)

ap_if :
    (a : Bytes) (r : Items)
    → ◌≡◌ {A = Outcome Items}
        (if to_bool a then ok (push a (from_top (a ∷ r))) else ok (from_top (a ∷ r)))
        (ok (from_top (if to_bool a then a ∷ a ∷ r else a ∷ r)))
unfolding push
ap_if a r = elim (Bool-cases (to_bool a)) [ inl e ↦ rw e | inr e ↦ rw e ]

-- Each of the operators on items alone, OP_2DROP to OP_TUCK without OP_DEPTH, OP_PICK and OP_ROLL,
-- implemented by indices on an array, has its effect on every stack, and refuses exactly the
-- stacks that are too short.
pub stack_op-effect :
    (c : Opcode) (r : Items) → stack_op c (from_top r) ≡ map_ok from_top (effect c r)
unfolding stack_op push get_bool
stack_op-effect Opcode.op_2drop ([]) = refl
stack_op-effect Opcode.op_2drop (a ∷ []) = refl
stack_op-effect Opcode.op_2drop (b ∷ a ∷ r) =
    rw (at_least-from_top 2 (b ∷ a ∷ r) (omega arith), popped b (a ∷ r), popped a r)
stack_op-effect Opcode.op_2dup ([]) = refl
stack_op-effect Opcode.op_2dup (a ∷ []) = refl
stack_op-effect Opcode.op_2dup (b ∷ a ∷ r) = rw (
  at_least-from_top 2 (b ∷ a ∷ r) (omega arith),
  get-from_top (b ∷ a ∷ r) 1,
  get-from_top (b ∷ a ∷ r) 0,
)
stack_op-effect Opcode.op_3dup ([]) = refl
stack_op-effect Opcode.op_3dup (a ∷ []) = refl
stack_op-effect Opcode.op_3dup (b ∷ a ∷ []) = refl
stack_op-effect Opcode.op_3dup (c ∷ b ∷ a ∷ r) = rw (
  at_least-from_top 3 (c ∷ b ∷ a ∷ r) (omega arith),
  get-from_top (c ∷ b ∷ a ∷ r) 2,
  get-from_top (c ∷ b ∷ a ∷ r) 1,
  get-from_top (c ∷ b ∷ a ∷ r) 0,
)
stack_op-effect Opcode.op_2over ([]) = refl
stack_op-effect Opcode.op_2over (a ∷ []) = refl
stack_op-effect Opcode.op_2over (b ∷ a ∷ []) = refl
stack_op-effect Opcode.op_2over (c ∷ b ∷ a ∷ []) = refl
stack_op-effect Opcode.op_2over (d ∷ c ∷ b ∷ a ∷ r) = rw (
  at_least-from_top 4 (d ∷ c ∷ b ∷ a ∷ r) (omega arith),
  get-from_top (d ∷ c ∷ b ∷ a ∷ r) 3,
  get-from_top (d ∷ c ∷ b ∷ a ∷ r) 2,
)
stack_op-effect Opcode.op_2rot ([]) = refl
stack_op-effect Opcode.op_2rot (a ∷ []) = refl
stack_op-effect Opcode.op_2rot (b ∷ a ∷ []) = refl
stack_op-effect Opcode.op_2rot (c ∷ b ∷ a ∷ []) = refl
stack_op-effect Opcode.op_2rot (d ∷ c ∷ b ∷ a ∷ []) = refl
stack_op-effect Opcode.op_2rot (e ∷ d ∷ c ∷ b ∷ a ∷ []) = refl
stack_op-effect Opcode.op_2rot (f ∷ e ∷ d ∷ c ∷ b ∷ a ∷ r) = rw (
  at_least-from_top 6 (f ∷ e ∷ d ∷ c ∷ b ∷ a ∷ r) (omega arith),
  get-from_top (f ∷ e ∷ d ∷ c ∷ b ∷ a ∷ r) 5,
  get-from_top (f ∷ e ∷ d ∷ c ∷ b ∷ a ∷ r) 4,
  erase-from_top (f ∷ e ∷ d ∷ c ∷ b ∷ a ∷ r) 5 3 (omega arith) (omega arith),
)
stack_op-effect Opcode.op_2swap ([]) = refl
stack_op-effect Opcode.op_2swap (a ∷ []) = refl
stack_op-effect Opcode.op_2swap (b ∷ a ∷ []) = refl
stack_op-effect Opcode.op_2swap (c ∷ b ∷ a ∷ []) = refl
stack_op-effect Opcode.op_2swap (d ∷ c ∷ b ∷ a ∷ r) = rw (
  at_least-from_top 4 (d ∷ c ∷ b ∷ a ∷ r) (omega arith),
  swapped,
  swap-from_top (d ∷ c ∷ b ∷ a ∷ r) 3 1 a c refl refl,
  swap-from_top (d ∷ a ∷ b ∷ c ∷ r) 2 0 b d refl refl,
)
stack_op-effect Opcode.op_drop ([]) = refl
stack_op-effect Opcode.op_drop (a ∷ r) = rw (at_least-from_top 1 (a ∷ r) (omega arith), popped a r)
stack_op-effect Opcode.op_dup ([]) = refl
stack_op-effect Opcode.op_dup (a ∷ r) =
    rw (at_least-from_top 1 (a ∷ r) (omega arith), get-from_top (a ∷ r) 0)
stack_op-effect Opcode.op_nip ([]) = refl
stack_op-effect Opcode.op_nip (a ∷ []) = refl
stack_op-effect Opcode.op_nip (b ∷ a ∷ r) = rw (
  at_least-from_top 2 (b ∷ a ∷ r) (omega arith),
  ap (λ t. t.1) (remove-from_top (b ∷ a ∷ r) 1 (omega arith)),
)
stack_op-effect Opcode.op_over ([]) = refl
stack_op-effect Opcode.op_over (a ∷ []) = refl
stack_op-effect Opcode.op_over (b ∷ a ∷ r) =
    rw (at_least-from_top 2 (b ∷ a ∷ r) (omega arith), get-from_top (b ∷ a ∷ r) 1)
stack_op-effect Opcode.op_rot ([]) = refl
stack_op-effect Opcode.op_rot (a ∷ []) = refl
stack_op-effect Opcode.op_rot (b ∷ a ∷ []) = refl
stack_op-effect Opcode.op_rot (c ∷ b ∷ a ∷ r) = rw (
  at_least-from_top 3 (c ∷ b ∷ a ∷ r) (omega arith),
  swapped,
  swap-from_top (c ∷ b ∷ a ∷ r) 2 1 a b refl refl,
  swap-from_top (c ∷ a ∷ b ∷ r) 1 0 a c refl refl,
)
stack_op-effect Opcode.op_swap ([]) = refl
stack_op-effect Opcode.op_swap (a ∷ []) = refl
stack_op-effect Opcode.op_swap (b ∷ a ∷ r) = rw (
  at_least-from_top 2 (b ∷ a ∷ r) (omega arith),
  swapped,
  swap-from_top (b ∷ a ∷ r) 1 0 a b refl refl,
)
stack_op-effect Opcode.op_tuck ([]) = refl
stack_op-effect Opcode.op_tuck (a ∷ []) = refl
stack_op-effect Opcode.op_tuck (b ∷ a ∷ r) = rw (
  at_least-from_top 2 (b ∷ a ∷ r) (omega arith),
  get-from_top (b ∷ a ∷ r) 0,
  insert-from_top (b ∷ a ∷ r) 1 b (omega arith),
)
stack_op-effect Opcode.op_ifdup [] = refl
stack_op-effect Opcode.op_ifdup (a ∷ r) =
    rw (at_least-from_top 1 (a ∷ r) (omega arith), get_bool, get-from_top (a ∷ r) 0) (ap_if a r)
stack_op-effect _ r = refl
