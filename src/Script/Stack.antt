-- ===== src/Script/Stack.antt =====
-- lib/script/stack.js: the stack of byte strings, `items`, with its top at the end of the array. A
-- negative index counts from the top. A null result is `none`; a failed assertion is `fault`.
pub mod Laws
pub mod Bools
use bcoin.Prelude.{
  ℕ, zero, suc, ◌+◌, ◌-◌, ℤ, pos, negsuc, pos_part, ◌+ℤ◌, ◌-ℤ◌, is_neg_ℤ, ltb_ℤ, leb_ℤ, Bool, true,
  false, not, ◌&&◌, Option, none, some, List, [], ◌∷◌, ◌++◌, ltb, leb, ◌==◌, if◌then◌else◌, length,
  get_elem?, set as set_elem, take, drop,
}
use bcoin.Script.Types.{Bytes, Outcome, ok, err, fault, ◌>>=◌, ◌>>◌}
use bcoin.Script.Num.{Num, N64, to_raw, decode, get_int}

abbrev pub Items : Type 0
Items = List Bytes

-- `if (index < 0) index += this.items.length`, then the range test: the place in the array.
abbrev pub position : ℤ → Items → Option ℕ
position (pos i) items = if ltb i (length items) then some i else none
position (negsuc i) items = if ltb i (length items) then some (length items - suc i) else none

unfoldable pub get : ℤ → Items → Option Bytes
get index items = elim (position index items) [ none ↦ none | some i ↦ get_elem? items i ]

unfoldable pub push : Bytes → Items → Items
push item items = items ++ (item ∷ [])

-- The item is returned with the array that is left.
unfoldable pub pop : Items → Option Bytes × Items
pop items = (get_elem? items (length items - 1), take (length items - 1) items)

unfoldable pub shift : Items → Option Bytes × Items
shift [] = (none, [])
shift (x ∷ items) = (some x, items)

unfoldable pub unshift : Bytes → Items → Items
unshift item items = item ∷ items

abbrev pub without : ℕ → Items → Items
without i items = take i items ++ drop (suc i) items

unfoldable pub remove : ℤ → Items → Option Bytes × Items
remove index items = elim (position index items) [
  | none ↦ (none, items)
  | some i ↦ (get_elem? items i, without i items)
]

-- The assertion of `set` and `insert` lets the index be `items.length` too.
abbrev pub end_position : ℤ → Items → Option ℕ
end_position (pos i) items = if leb i (length items) then some i else none
end_position (negsuc i) items = if ltb i (length items) then some (length items - suc i) else none

unfoldable pub set : ℤ → Bytes → Items → Outcome Items
unfolding push
set index item items = elim (end_position index items) [
  | none ↦ fault
  | some i ↦ ok (if i == length items then push item items else set_elem items i item)
]

unfoldable pub insert : ℤ → Bytes → Items → Outcome Items
insert index item items = elim (end_position index items) [
  | none ↦ fault
  | some i ↦ ok (take i items ++ (item ∷ drop i items))
]

-- `if (start < 0) start = this.items.length + start`.
abbrev pub from_end : ℤ → Items → ℤ
from_end (pos i) items = pos i
from_end (negsuc i) items = pos (length items) -ℤ pos (suc i)

-- `Array.prototype.splice(start, count)`: a negative start counts from the end once more, and a
-- negative count removes nothing.
abbrev splice_start : ℤ → Items → ℕ
splice_start (pos i) items = i
splice_start (negsuc i) items = length items - suc i

unfoldable pub erase : ℤ → ℤ → Items → Items
erase start end items =
    let s = from_end start items in
    let at = splice_start s items in
    take at items ++ drop (at + pos_part (from_end end items -ℤ s)) items

-- `swap`; `none` stands for a swap with a place outside of the array, which writes undefined.
unfoldable pub swap : ℤ → ℤ → Items → Option Items
swap i1 i2 items = elim (position i1 items) [
  | none ↦ none
  | some p1 ↦ elim (position i2 items) [
    | none ↦ none
    | some p2 ↦ elim (get_elem? items p1) [
      | none ↦ none
      | some v1 ↦ elim (get_elem? items p2) [
        | none ↦ none
        | some v2 ↦ some (set_elem (set_elem items p1 v2) p2 v1)
      ]
    ]
  ]
]

unfoldable pub get_length : ℤ → Items → ℤ
unfolding get
get_length index items = elim (get index items) [ none ↦ negsuc 0 | some item ↦ pos (length item) ]

-- `toBool`: some byte is not zero, where a last byte 0x80 does not count.
unfoldable pub to_bool : Bytes → Bool
to_bool [] = false
to_bool (b ∷ bytes) = if b == 0 then to_bool bytes else not (length bytes == 0 && b == 0x80)

unfoldable pub get_bool : ℤ → Items → Bool
unfolding get to_bool
get_bool index items = elim (get index items) [ none ↦ false | some item ↦ to_bool item ]

-- `common.small`: the encodings of -1 to 16.
abbrev pub small : ℤ → Option Bytes
small (negsuc zero) = some (0x81 ∷ [])
small (negsuc (suc n)) = none
small (pos zero) = some []
small (pos (suc n)) = if leb (suc n) 16 then some (suc n ∷ []) else none

module _ (n64 : N64) where
  unfoldable pub from_int : ℤ → Outcome Bytes
  from_int n = elim (small n) [ some bytes ↦ ok bytes | none ↦ to_raw n64 (n64.from_number n) ]

  unfoldable pub from_bool : Bool → Outcome Bytes
  unfolding from_int
  from_bool value = from_int (if value then pos 1 else pos 0)

  unfoldable pub push_int : ℤ → Items → Outcome Items
  unfolding from_int push
  push_int n items = do bytes ← from_int n; ok (push bytes items)

  unfoldable pub push_bool : Bool → Items → Outcome Items
  unfolding from_bool push
  push_bool value items = do bytes ← from_bool value; ok (push bytes items)

  unfoldable pub push_num : Num → Items → Outcome Items
  unfolding push
  push_num num items = do bytes ← to_raw n64 num; ok (push bytes items)

  -- A null item gives null, on which the interpreter then calls a method.
  unfoldable pub get_num : ℤ → Bool → Option ℕ → Items → Outcome Num
  unfolding get
  get_num index minimal limit items = elim (get index items) [
    | none ↦ fault
    | some item ↦ decode n64 item minimal limit
  ]

  -- A missing item gives -1.
  unfoldable pub get_int_at : ℤ → Bool → Option ℕ → Items → Outcome ℤ
  unfolding get
  get_int_at index minimal limit items = elim (get index items) [
    | none ↦ ok (negsuc 0)
    | some item ↦ (do num ← decode n64 item minimal limit; ok (get_int n64 num))
  ]
