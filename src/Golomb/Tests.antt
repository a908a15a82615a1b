-- ===== src/Golomb/Tests.antt =====
-- The bits and filters of lib/golomb on small inputs, with words of 64 bits as numbers.
use bcoin.Prelude.{
  ℕ, ◌+◌, ◌-◌, ◌*◌, ◌/◌, ◌%◌, ◌^◌, ◌<◌, ◌≡◌, refl, Bool, true, false, not, Option, none, some, List,
  [], ◌∷◌, arith, ltb, ◌==◌, bit_or, map, pos, negsuc,
}
use mathlib.Core.List.{Memᴰ}
use bcoin.Golomb.Writer.{
  BitWriter, new_writer, grow, write_bit, write_byte, byte_rounds, bit_rounds, write_bits,
  write_bits64, render,
}
use bcoin.Golomb.Reader.{
  new_reader, settle, read_bit, read_byte, to_int32, read_pattern, read_bytes_rounds,
  read_bit_rounds, read_bits, read_bits64,
}
use bcoin.Golomb.Filter.{
  U64, IsU64, write_ones, write_values, read_ones, read_u64, match_loop, Golomb, from_items,
  match_item,
}
use bcoin.Golomb.Filter.Membership.{from_items-match_item}
use bcoin.Golomb.RoundTrip.{Field, write_fields, read_fields, read_fields-write_fields}

abbrev words : U64
words = record {
  lt = ltb;
  eq = λ a b. a == b;
  mul = λ a b. a * b % 2 ^ 64;
  add = λ a b. (a + b) % 2 ^ 64;
  sub = λ a b. (a + (2 ^ 64 - b)) % 2 ^ 64;
  ior = bit_or;
  maskn = λ a n. a % 2 ^ n;
  shrn = λ a n. a / 2 ^ n;
  shln = λ a n. a * 2 ^ n % 2 ^ 64;
  hi = λ a. a / 2 ^ 32;
  lo = λ a. a % 2 ^ 32;
  join = λ hi lo. hi * 2 ^ 32 + lo;
}

words-IsU64 : IsU64 words
words-IsU64 = record {
  lt_law = λ a b. refl;
  eq_law = λ a b. refl;
  add_law = λ a b. refl;
  sub_law = λ a b h. refl;
  ior_law = λ a b. refl;
  maskn_law = λ a n. refl;
  shrn_law = λ a n. refl;
  shln_law = λ a n. refl;
  lo_law = λ a. refl;
  join_law = λ a h. omega arith;
}

-- A hash below the modulus.
abbrev toy_hash : ℕ → ℕ → ℕ
toy_hash x m = x * 12345 % 2 ^ 10

toy_hash-lt : (x n : ℕ) → toy_hash x n < 2 ^ 64
toy_hash-lt x n = omega arith

abbrev items : List ℕ
items = 3 ∷ 1 ∷ 7 ∷ []

abbrev filter_bytes : Option Golomb → List ℕ
filter_bytes none = []
filter_bytes (some filter) = filter.bytes

abbrev matches : Option Golomb → ℕ → Option Bool
matches none x = none
matches (some filter) x = match_item words 6 100 toy_hash filter x

abbrev made : Option Golomb
made = from_items words 6 100 toy_hash items

-- The hashes are 171, 57 and 399.
made_bytes : filter_bytes made ≡ 115 ∷ 101 ∷ 210 ∷ 0 ∷ []
unfolding from_items write_values write_ones write_bit grow write_bits64 write_bits byte_rounds
    bit_rounds write_byte
made_bytes = refl

made_matches : matches made 7 ≡ some true
unfolding from_items write_values write_ones write_bit grow write_bits64 write_bits byte_rounds
    bit_rounds write_byte match_item match_loop read_u64 read_ones read_bit settle read_bits64
    read_bits read_pattern read_bytes_rounds read_bit_rounds read_byte
made_matches = refl

made_misses : matches made 2 ≡ some false
unfolding from_items write_values write_ones write_bit grow write_bits64 write_bits byte_rounds
    bit_rounds write_byte match_item match_loop read_u64 read_ones read_bit settle read_bits64
    read_bits read_pattern read_bytes_rounds read_bit_rounds read_byte
made_misses = refl

from_items-match_item_example :
    (filter : Golomb) × (from_items words 6 100 toy_hash items ≡ some filter)
    × ((x : ℕ)
        → Memᴰ x items
        → match_item words 6 100 toy_hash filter x ≡ some (not (toy_hash x filter.m == 0)))
from_items-match_item_example =
    from_items-match_item words 6 100 toy_hash items words-IsU64 (omega arith) toy_hash-lt
      (omega arith)

abbrev fields : List Field
fields =
    record { count = 3; value = 5 }
    ∷ record { count = 12; value = 3000 }
    ∷ record { count = 32; value = 4000000000 }
    ∷ []

-- The last one has its highest bit set.
fields_read : map (λ f. to_int32 f.value) fields ≡ pos 5 ∷ pos 3000 ∷ negsuc 294967295 ∷ []
fields_read = refl

read_fields-write_fields_example :
    (w : BitWriter) × (write_fields fields new_writer ≡ some w)
    × (read_fields fields (new_reader (render w)) ≡ some (map (λ f. to_int32 f.value) fields))
read_fields-write_fields_example =
    read_fields-write_fields fields
      (omega arith, omega arith, (omega arith, omega arith, (omega arith, omega arith, tt)))
