-- ===== src/Golomb/Reader.antt =====
-- lib/golomb/reader.js: the reader of bits. A read past the end of the stream throws 'EOF', which is
-- `none`. `readBits` shifts an int32: the loops keep its 32 bits as a number, and what it returns is
-- signed.
pub mod Unread
pub mod Words
use bcoin.Prelude.{
  ℕ, zero, suc, ◌+◌, ◌-◌, ◌*◌, ◌/◌, ◌%◌, ◌^◌, Bool, true, false, Option, none, some, List, [], ◌∷◌,
  ltb, leb, ◌==◌, ℤ, pos, negsuc, if◌then◌else◌, get_elem?, bit_or, bit_and,
}
use bcoin.Golomb.Writer.{shift_left}

pub record BitReader : Type 0 where
  pub stream : List ℕ
  pub pos : ℕ
  pub remain : ℕ

abbrev pub new_reader : List ℕ → BitReader
new_reader stream = record { stream = stream; pos = 0; remain = 8 }

-- The step to the next byte, where the current one is used up.
abbrev pub next_byte : BitReader → Option (ℕ × BitReader)
next_byte r = elim (get_elem? r.stream (r.pos + 1)) [
  | none ↦ none
  | some b ↦ some (b, record r { pos = r.pos + 1; remain = 8 })
]

-- The tests that `readBit` and `readByte` start with, and the byte to read from.
unfoldable pub settle : BitReader → Option (ℕ × BitReader)
settle r = elim (get_elem? r.stream r.pos) [
  | none ↦ none
  | some b ↦ if r.remain == 0 then next_byte r else some (b, r)
]

unfoldable pub read_bit : BitReader → Option (ℕ × BitReader)
unfolding settle
read_bit r = elim (settle r) [
  | none ↦ none
  | some (b, r') ↦ some (b / 2 ^ (r'.remain - 1) % 2, record r' { remain = r'.remain - 1 })
]

-- The byte that stands in two bytes of the stream.
abbrev pub read_across : ℕ → BitReader → Option (ℕ × BitReader)
read_across b r = elim (get_elem? r.stream (r.pos + 1)) [
  | none ↦ none
  | some c ↦ some (
    bit_or (bit_and b (2 ^ r.remain - 1) * 2 ^ (8 - r.remain)) (c / 2 ^ r.remain),
    record r { pos = r.pos + 1 },
  )
]

unfoldable pub read_byte : BitReader → Option (ℕ × BitReader)
unfolding settle
read_byte r = elim (settle r) [
  | none ↦ none
  | some (b, r') ↦
      if r'.remain == 8 then some (b, record r' { pos = r'.pos + 1 }) else read_across b r'
]

-- `while (count >= 8)`, by its number of rounds.
unfoldable pub read_bytes_rounds : ℕ → ℕ → BitReader → Option (ℕ × BitReader)
unfolding read_byte
read_bytes_rounds zero num r = some (num, r)
read_bytes_rounds (suc rounds) num r = elim (read_byte r) [
  | none ↦ none
  | some (ch, r') ↦ read_bytes_rounds rounds (bit_or (shift_left num 8) ch) r'
]

-- `while (count > 0)`.
unfoldable pub read_bit_rounds : ℕ → ℕ → BitReader → Option (ℕ × BitReader)
unfolding read_bit
read_bit_rounds zero num r = some (num, r)
read_bit_rounds (suc count) num r = elim (read_bit r) [
  | none ↦ none
  | some (bit, r') ↦ read_bit_rounds count (bit_or (shift_left num 1) bit) r'
]

-- The int32 of 32 bits, and the 32 bits that a field of U64 keeps of a number.
abbrev pub to_int32 : ℕ → ℤ
to_int32 num = if ltb num (2 ^ 31) then pos num else negsuc (2 ^ 32 - 1 - num)

abbrev pub word : ℤ → ℕ
word (pos n) = n % 2 ^ 32
word (negsuc n) = 2 ^ 32 - 1 - n % 2 ^ 32

-- The 32 bits of `num` where `readBits` ends. `none` is the exception 'EOF', and here also a failed
-- assertion.
unfoldable pub read_pattern : ℕ → BitReader → Option (ℕ × BitReader)
unfolding read_bytes_rounds read_bit_rounds
read_pattern count r =
    if leb count 32
    then elim (read_bytes_rounds (count / 8) 0 r) [
      | none ↦ none
      | some (num, r') ↦ read_bit_rounds (count % 8) num r'
    ]
    else none

unfoldable pub read_bits : ℕ → BitReader → Option (ℤ × BitReader)
unfolding read_pattern
read_bits count r = elim (read_pattern count r) [
  | none ↦ none
  | some (num, r') ↦ some (to_int32 num, r')
]

-- The high and the low half of a number of at most 64 bits.
unfoldable pub read_bits64 : ℕ → BitReader → Option ((ℕ × ℕ) × BitReader)
unfolding read_bits
read_bits64 count r =
    if leb count 64
    then if ltb 32 count
      then elim (read_bits (count - 32) r) [
        | none ↦ none
        | some (hi, r') ↦ elim (read_bits 32 r') [
          | none ↦ none
          | some (lo, r'') ↦ some ((word hi, word lo), r'')
        ]
      ]
      else elim (read_bits count r) [ none ↦ none | some (lo, r') ↦ some ((0, word lo), r') ]
    else none
