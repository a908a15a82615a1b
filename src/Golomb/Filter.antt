-- ===== src/Golomb/Filter.antt =====
-- lib/golomb/golomb.js: the filters of BIP158. The words of the package n64 are their values; its
-- operations and the hash of the package bcrypto are parameters.
pub mod Encoding
pub mod Matching
pub mod Membership
use bcoin.Prelude.{
  ℕ, zero, suc, ◌+◌, ◌-◌, ◌*◌, ◌%◌, ◌/◌, ◌^◌, ◌<◌, ◌≡◌, Bool, true, false, not, Option, none, some,
  List, [], ◌∷◌, map, ltb, leb, ◌==◌, if◌then◌else◌, length, bit_or,
}
use bcoin.Golomb.Writer.{BitWriter, new_writer, write_bit, write_bits64, render}
use bcoin.Golomb.Reader.{BitReader, new_reader, read_bit, read_bits64}

-- The methods of n64 on words of 64 bits; `hi`, `lo` and `join` are the halves of a word.
pub record U64 : Type 0 where
  pub lt : ℕ → ℕ → Bool
  pub eq : ℕ → ℕ → Bool
  pub mul : ℕ → ℕ → ℕ
  pub add : ℕ → ℕ → ℕ
  pub sub : ℕ → ℕ → ℕ
  pub ior : ℕ → ℕ → ℕ
  pub maskn : ℕ → ℕ → ℕ
  pub shrn : ℕ → ℕ → ℕ
  pub shln : ℕ → ℕ → ℕ
  pub hi : ℕ → ℕ
  pub lo : ℕ → ℕ
  pub join : ℕ → ℕ → ℕ

-- What they are documented to do, on words.
pub record IsU64 (u : U64) : Type 0 where
  pub lt_law : (a b : ℕ) → u.lt a b ≡ ltb a b
  pub eq_law : (a b : ℕ) → u.eq a b ≡ (a == b)
  pub add_law : (a b : ℕ) → u.add a b ≡ (a + b) % 2 ^ 64
  pub sub_law : (a b : ℕ) → b < 2 ^ 64 → u.sub a b ≡ (a + (2 ^ 64 - b)) % 2 ^ 64
  pub ior_law : (a b : ℕ) → u.ior a b ≡ bit_or a b
  pub maskn_law : (a n : ℕ) → u.maskn a n ≡ a % 2 ^ n
  pub shrn_law : (a n : ℕ) → u.shrn a n ≡ a / 2 ^ n
  pub shln_law : (a n : ℕ) → u.shln a n ≡ a * 2 ^ n % 2 ^ 64
  pub lo_law : (a : ℕ) → u.lo a ≡ a % 2 ^ 32
  pub join_law : (a : ℕ) → a < 2 ^ 32 → u.join 0 a ≡ a

-- `values.sort(compare)`.
abbrev pub insert_value : ℕ → List ℕ → List ℕ
insert_value v [] = v ∷ []
insert_value v (x ∷ xs) = let rest = insert_value v xs in if leb v x then v ∷ x ∷ xs else x ∷ rest

abbrev pub sort_values : List ℕ → List ℕ
sort_values [] = []
sort_values (v ∷ vs) = insert_value v (sort_values vs)

-- `while (!value.isZero()) { bw.writeBit(1); value.isubn(1); }`.
unfoldable pub write_ones : ℕ → BitWriter → BitWriter
unfolding write_bit
write_ones zero w = w
write_ones (suc value) w = write_ones value (write_bit 1 w)

-- `while (br.readBit()) num.iaddn(1);`. The fuel is above the number of bits of the data.
unfoldable pub read_ones : ℕ → ℕ → BitReader → Option (ℕ × BitReader)
unfolding read_bit
read_ones zero num r = none
read_ones (suc fuel) num r = elim (read_bit r) [
  | none ↦ none
  | some (zero, r') ↦ some (num, r')
  | some (suc bit, r') ↦ read_ones fuel (num + 1) r'
]

pub record Golomb : Type 0 where
  pub n : ℕ
  pub m : ℕ
  pub bytes : List ℕ

-- `p` is the parameter P of the constructor, and `factor` is M; `sipmod` is `sipmod64`.
module _ {ℓ} {Item : Type ℓ} (u : U64) (p factor : ℕ) (sipmod : Item → ℕ → ℕ) where
  -- The loop over the values in `fromItems`.
  unfoldable pub write_values : ℕ → List ℕ → BitWriter → Option BitWriter
  unfolding write_ones write_bit write_bits64
  write_values last [] w = some w
  write_values last (hash ∷ values) w =
      let rem = u.maskn (u.sub hash last) p in
      let value = u.shrn (u.sub (u.sub hash last) rem) p in
      elim (write_bits64 (u.hi rem) (u.lo rem) p (write_bit 0 (write_ones value w))) [
        | none ↦ none
        | some w' ↦ write_values hash values w'
      ]

  abbrev pub filter_of : ℕ → ℕ → Option BitWriter → Option Golomb
  filter_of n m none = none
  filter_of n m (some w) = some (record { n = n; m = m; bytes = render w })

  -- The items are those that `BufferSet` keeps. `none` is a failed assertion.
  unfoldable pub from_items : List Item → Option Golomb
  unfolding write_values
  from_items items =
      let n = length items in
      let m = u.mul factor n in
      if leb n 4294967295
      then filter_of n m
          (write_values 0 (sort_values (map (λ item. sipmod item m) items)) new_writer)
      else none

  -- `_readU64`.
  unfoldable pub read_u64 : ℕ → BitReader → Option (ℕ × BitReader)
  unfolding read_ones read_bits64
  read_u64 fuel r = elim (read_ones fuel 0 r) [
    | none ↦ none
    | some (num, r') ↦ elim (read_bits64 p r') [
      | none ↦ none
      | some ((hi, lo), r'') ↦ some (u.ior (u.shln num p) (u.join hi lo), r'')
    ]
  ]

  -- The loop of `match`. The outer `none` is that the fuel ran out.
  unfoldable pub match_loop : ℕ → ℕ → ℕ → ℕ → BitReader → Option Bool
  unfolding read_u64
  match_loop zero bound term last r = none
  match_loop (suc fuel) bound term last r = elim (u.lt last term) [
    | false ↦ some false
    | true ↦ elim (read_u64 bound r) [
      | none ↦ some false
      | some (value, r') ↦ elim (u.eq (u.add value last) term) [
        | true ↦ some true
        | false ↦ match_loop fuel bound term (u.add value last) r'
      ]
    ]
  ]

  unfoldable pub match_item : Golomb → Item → Option Bool
  unfolding match_loop
  match_item filter item =
      let bound = 8 * length filter.bytes + 1 in
      match_loop bound bound (sipmod item filter.m) 0 (new_reader filter.bytes)
