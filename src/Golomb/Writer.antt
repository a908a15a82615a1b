-- ===== src/Golomb/Writer.antt =====
-- lib/golomb/writer.js: the writer of bits. The list `stream` has its last byte first. Numbers of 32
-- bits are taken as unsigned.
pub mod Contents
pub mod Numbers
use bcoin.Prelude.{
  ℕ, zero, suc, ◌+◌, ◌-◌, ◌*◌, ◌/◌, ◌%◌, ◌^◌, Bool, true, false, Option, none, some, List, [], ◌∷◌,
  ltb, leb, ◌==◌, if◌then◌else◌, bit_or,
}
use mathlib.Core.List.{reverse}

pub record BitWriter : Type 0 where
  pub stream : List ℕ
  pub remain : ℕ

abbrev pub new_writer : BitWriter
new_writer = record { stream = []; remain = 0 }

-- `if (this.remain === 0) { this.stream.push(0); this.remain = 8; }`
unfoldable pub grow : BitWriter → BitWriter
grow w = if w.remain == 0 then record { stream = 0 ∷ w.stream; remain = 8 } else w

-- `this.stream[this.stream.length - 1] |= bits`.
abbrev pub or_last : ℕ → List ℕ → List ℕ
or_last n [] = []
or_last n (b ∷ bs) = bit_or b n ∷ bs

abbrev pub put_bit : ℕ → BitWriter → BitWriter
put_bit bit w = record {
  stream = if bit == 0 then w.stream else or_last (2 ^ (w.remain - 1)) w.stream;
  remain = w.remain - 1;
}

unfoldable pub write_bit : ℕ → BitWriter → BitWriter
unfolding grow
write_bit bit w = put_bit bit (grow w)

abbrev pub put_byte : ℕ → BitWriter → BitWriter
put_byte ch w = record w {
  stream = ch * 2 ^ w.remain % 256 ∷ or_last (ch / 2 ^ (8 - w.remain) % 256) w.stream;
}

unfoldable pub write_byte : ℕ → BitWriter → BitWriter
unfolding grow
write_byte ch w = put_byte ch (grow w)

-- `num << shift`, as a number of 32 bits.
abbrev pub shift_left : ℕ → ℕ → ℕ
shift_left num shift = num * 2 ^ (shift % 32) % 2 ^ 32

-- `while (count >= 8)`, by its number of rounds.
unfoldable pub byte_rounds : ℕ → ℕ → BitWriter → ℕ × BitWriter
unfolding write_byte
byte_rounds zero num w = (num, w)
byte_rounds (suc rounds) num w = byte_rounds rounds (shift_left num 8) (write_byte (num / 2 ^ 24) w)

-- `while (count > 0)`.
unfoldable pub bit_rounds : ℕ → ℕ × BitWriter → BitWriter
unfolding write_bit
bit_rounds zero (num, w) = w
bit_rounds (suc count) (num, w) = bit_rounds count (shift_left num 1, write_bit (num / 2 ^ 31) w)

-- `none` is a failed assertion.
unfoldable pub write_bits : ℕ → ℕ → BitWriter → Option BitWriter
unfolding byte_rounds bit_rounds
write_bits num count w =
    if leb count 32
    then some (bit_rounds (count % 8) (byte_rounds (count / 8) (shift_left num (32 - count)) w))
    else none

abbrev pub then_write : ℕ → ℕ → Option BitWriter → Option BitWriter
then_write num count none = none
then_write num count (some w) = write_bits num count w

-- The number of 64 bits is given by its halves.
unfoldable pub write_bits64 : ℕ → ℕ → ℕ → BitWriter → Option BitWriter
unfolding write_bits
write_bits64 hi lo count w =
    if leb count 64
    then if ltb 32 count
      then then_write lo 32 (write_bits hi (count - 32) w)
      else write_bits lo count w
    else none

abbrev pub render : BitWriter → List ℕ
render w = reverse w.stream
