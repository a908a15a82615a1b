-- ===== src/Script/Interpreter/Operands.antt =====
-- The cases of the switch in `execute` of lib/script/script.js that work on the main stack alone.
use bcoin.Prelude.{
  ℕ, ◌+◌, ◌-◌, ℤ, pos, negsuc, pos_part, is_neg_ℤ, Bool, not, ◌&&◌, ◌||◌, some, [], ◌∷◌, ◌++◌, ltb,
  leb, ◌==◌, if◌then◌else◌, length, take, drop, replicate, set as set_elem, bit_and, bit_or,
  bit_xor,
}
use bcoin.Script.Types.{
  Bytes, equals, Outcome, ok, err, fault, ◌>>=◌, ◌>>◌, throw_if, need, equal_verify,
  num_equal_verify, div_by_zero, mod_by_zero, bad_opcode, push_size, invalid_split_range,
  invalid_operand_size, impossible_encoding, invalid_number_range, invalid_stack_operation,
  max_script_push,
}
use bcoin.Script.Opcodes.{Opcode}
use bcoin.Script.Num.{Num, N64, is_minimal, byte_at}
use bcoin.Script.Stack.{
  Items, get, push, pop, remove, set, insert, erase, swap, get_bool, push_int, push_bool, push_num,
  get_num, get_int_at,
}
use bcoin.Script.Interpreter.Context.{at_least}

abbrev top : ℤ
top = negsuc 0

abbrev second : ℤ
second = negsuc 1

abbrev third : ℤ
third = negsuc 2

abbrev drop_top : Items → Items
drop_top stack = (pop stack).1

-- `swap` at two places in range, as the length tests before it make sure.
abbrev pub swapped : ℤ → ℤ → Items → Outcome Items
swapped i j stack = need (swap i j stack)

-- OP_2DROP to OP_2SWAP, OP_IFDUP, and OP_DROP to OP_TUCK but for OP_PICK and OP_ROLL.
unfoldable pub stack_op : Opcode → Items → Outcome Items
stack_op Opcode.op_2drop s = do at_least 2 s; ok (drop_top (drop_top s))
stack_op Opcode.op_2dup s = do
  at_least 2 s
  v1 ← need (get second s)
  v2 ← need (get top s)
  ok (push v2 (push v1 s))
stack_op Opcode.op_3dup s = do
  at_least 3 s
  v1 ← need (get third s)
  v2 ← need (get second s)
  v3 ← need (get top s)
  ok (push v3 (push v2 (push v1 s)))
stack_op Opcode.op_2over s = do
  at_least 4 s
  v1 ← need (get (negsuc 3) s)
  v2 ← need (get third s)
  ok (push v2 (push v1 s))
stack_op Opcode.op_2rot s = do
  at_least 6 s
  v1 ← need (get (negsuc 5) s)
  v2 ← need (get (negsuc 4) s)
  ok (push v2 (push v1 (erase (negsuc 5) (negsuc 3) s)))
stack_op Opcode.op_2swap s = do at_least 4 s; s' ← swapped (negsuc 3) second s; swapped third top s'
stack_op Opcode.op_ifdup s = do
  at_least 1 s
  if get_bool top s then (do val ← need (get top s); ok (push val s)) else ok s
stack_op Opcode.op_drop s = do at_least 1 s; ok (drop_top s)
stack_op Opcode.op_dup s = do at_least 1 s; val ← need (get top s); ok (push val s)
stack_op Opcode.op_nip s = do at_least 2 s; ok (remove second s).1
stack_op Opcode.op_over s = do at_least 2 s; val ← need (get second s); ok (push val s)
stack_op Opcode.op_rot s = do at_least 3 s; s' ← swapped third second s; swapped second top s'
stack_op Opcode.op_swap s = do at_least 2 s; swapped second top s
stack_op Opcode.op_tuck s = do at_least 2 s; val ← need (get top s); insert second val s
stack_op _ s = err bad_opcode

-- The inner switches of the bitwise operators.
abbrev bitwise : Opcode → ℕ → ℕ → ℕ
bitwise Opcode.op_and a b = bit_and a b
bitwise Opcode.op_or a b = bit_or a b
bitwise Opcode.op_xor a b = bit_xor a b
bitwise _ a b = 0

bytewise : Opcode → Bytes → Bytes → Bytes
bytewise c [] v2 = []
bytewise c (a ∷ v1) [] = 0 ∷ bytewise c v1 []
bytewise c (a ∷ v1) (b ∷ v2) = bitwise c a b ∷ bytewise c v1 v2

-- OP_AND, OP_OR and OP_XOR.
unfoldable pub bit_op : Opcode → Items → Outcome Items
unfolding bytewise
bit_op c s = do
  at_least 2 s
  v1 ← need (get second s)
  v2 ← need (get top s)
  throw_if (not (length v1 == length v2)) invalid_operand_size
  ok (push (bytewise c v1 v2) (drop_top (drop_top s)))

-- OP_CAT.
unfoldable pub cat_op : Items → Outcome Items
cat_op s = do
  at_least 2 s
  v1 ← need (get second s)
  v2 ← need (get top s)
  throw_if (ltb max_script_push (length v1 + length v2)) push_size
  ok (push (v1 ++ v2) (drop_top (drop_top s)))

-- The five hash operators.
unfoldable pub hash_op : (Bytes → Bytes) → Items → Outcome Items
hash_op digest s = do at_least 1 s; item ← need (pop s).0; ok (push (digest item) (drop_top s))

-- A number above a bound, or below 0.
abbrev outside : ℤ → ℕ → Bool
outside n bound = is_neg_ℤ n || ltb bound (pos_part n)

module _ (n64 : N64) (minimal : Bool) where
  number : ℤ → Items → Outcome Num
  number index s = get_num n64 index minimal (some 4) s

  -- OP_PICK and OP_ROLL.
  unfoldable pub pick_op : Bool → Items → Outcome Items
  pick_op roll s = do
    at_least 2 s
    num ← get_int_at n64 top minimal (some 4) s
    let s' = drop_top s
    throw_if (is_neg_ℤ num || leb (length s') (pos_part num)) invalid_stack_operation
    val ← need (get (negsuc (pos_part num)) s')
    ok (push val (if roll then (remove (negsuc (pos_part num)) s').1 else s'))

  -- OP_SIZE.
  unfoldable pub size_op : Items → Outcome Items
  size_op s = do at_least 1 s; item ← need (get top s); push_int n64 (pos (length item)) s

  -- OP_EQUAL and OP_EQUALVERIFY.
  unfoldable pub equal_op : Bool → Items → Outcome Items
  equal_op verifies s = do
    at_least 2 s
    v1 ← need (get second s)
    v2 ← need (get top s)
    let res = equals v1 v2
    s' ← push_bool n64 res (drop_top (drop_top s))
    if verifies then throw_if (not res) equal_verify >> ok (drop_top s') else ok s'

  abbrev unary : Opcode → Num → Num
  unary Opcode.op_1add num = n64.addn num (pos 1)
  unary Opcode.op_1sub num = n64.addn num (negsuc 0)
  unary Opcode.op_negate num = n64.neg num
  unary Opcode.op_abs num = n64.abs num
  unary Opcode.op_not num = n64.from_bool (n64.is_zero num)
  unary _ num = n64.from_bool (not (n64.is_zero num))

  -- OP_1ADD to OP_0NOTEQUAL.
  unfoldable pub unary_op : Opcode → Items → Outcome Items
  unfolding number
  unary_op c s = do at_least 1 s; num ← number top s; push_num n64 (unary c num) (drop_top s)

  binary : Opcode → Num → Num → Outcome Num
  binary Opcode.op_add n1 n2 = ok (n64.add n1 n2)
  binary Opcode.op_sub n1 n2 = ok (n64.sub n1 n2)
  binary Opcode.op_div n1 n2 = throw_if (n64.is_zero n2) div_by_zero >> ok (n64.div n1 n2)
  binary Opcode.op_mod n1 n2 = throw_if (n64.is_zero n2) mod_by_zero >> ok (n64.mod_ n1 n2)
  binary Opcode.op_booland n1 n2 = ok (n64.from_bool (n64.to_bool n1 && n64.to_bool n2))
  binary Opcode.op_boolor n1 n2 = ok (n64.from_bool (n64.to_bool n1 || n64.to_bool n2))
  binary Opcode.op_numequal n1 n2 = ok (n64.from_bool (n64.eq n1 n2))
  binary Opcode.op_numequalverify n1 n2 = ok (n64.from_bool (n64.eq n1 n2))
  binary Opcode.op_numnotequal n1 n2 = ok (n64.from_bool (not (n64.eq n1 n2)))
  binary Opcode.op_lessthan n1 n2 = ok (n64.from_bool (n64.lt n1 n2))
  binary Opcode.op_greaterthan n1 n2 = ok (n64.from_bool (n64.gt n1 n2))
  binary Opcode.op_lessthanorequal n1 n2 = ok (n64.from_bool (n64.lte n1 n2))
  binary Opcode.op_greaterthanorequal n1 n2 = ok (n64.from_bool (n64.gte n1 n2))
  binary Opcode.op_min n1 n2 = ok (n64.min n1 n2)
  binary Opcode.op_max n1 n2 = ok (n64.max n1 n2)
  binary _ n1 n2 = fault

  -- OP_ADD to OP_MAX.
  unfoldable pub binary_op : Opcode → Bool → Items → Outcome Items
  unfolding number binary
  binary_op c verifies s = do
    at_least 2 s
    n1 ← number second s
    n2 ← number top s
    num ← binary c n1 n2
    s' ← push_num n64 num (drop_top (drop_top s))
    if verifies
        then throw_if (not (get_bool top s')) num_equal_verify >> ok (drop_top s')
        else ok s'

  -- OP_WITHIN.
  unfoldable pub within_op : Items → Outcome Items
  unfolding number
  within_op s = do
    at_least 3 s
    n1 ← number third s
    n2 ← number second s
    n3 ← number top s
    push_bool n64 (n64.lte n2 n1 && n64.lt n1 n3) (drop_top (drop_top (drop_top s)))

  -- OP_SPLIT.
  unfoldable pub split_op : Items → Outcome Items
  split_op s = do
    at_least 2 s
    bytes ← need (get second s)
    at ← get_int_at n64 top minimal (some 4) s
    throw_if (outside at (length bytes)) invalid_split_range
    s' ← set second (take (pos_part at) bytes) s
    set top (drop (pos_part at) bytes) s'

  -- The padded number of OP_NUM2BIN: the sign moves to the last byte.
  abbrev widened : Bytes → ℕ → Bytes
  widened v size =
      let raw = v ++ replicate (size - length v) 0 in
      let last = byte_at v (length v - 1) in
      if length v == 0
      then set_elem raw (size - 1) 0
      else set_elem (set_elem raw (length v - 1) (bit_and last 0x7f)) (size - 1) (bit_and last 0x80)

  -- OP_NUM2BIN.
  unfoldable pub num2bin_op : Items → Outcome Items
  num2bin_op s = do
    at_least 2 s
    size ← get_int_at n64 top minimal (some 4) s
    throw_if (outside size max_script_push) push_size
    let s' = drop_top s
    n ← need (get top s')
    let v = n64.to_minimal n
    throw_if (ltb (pos_part size) (length v)) impossible_encoding
    ok (push (if length v == pos_part size then v else widened v (pos_part size)) (drop_top s'))

  -- OP_BIN2NUM.
  unfoldable pub bin2num_op : Items → Outcome Items
  bin2num_op s = do
    at_least 1 s
    n ← need (get top s)
    let v = n64.to_minimal n
    throw_if (not (is_minimal v) || ltb 4 (length v)) invalid_number_range
    ok (push v (drop_top s))
