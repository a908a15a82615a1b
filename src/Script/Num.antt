-- ===== src/Script/Num.antt =====
-- lib/script/scriptnum.js. The class extends I64 of the package n64, whose words `hi` and `lo` it
-- reads and writes; what it calls of that package is a parameter, in a record of operations.
use bcoin.Prelude.{
  ℕ, ◌+◌, ◌-◌, ◌*◌, ◌/◌, ◌%◌, ◌^◌, ℤ, Bool, true, false, not, ◌&&◌, Option, none, some, [], ◌∷◌,
  ◌++◌, ltb, leb, ◌==◌, if◌then◌else◌, length, get_or, take, set, bit_and, bit_or,
}
use bcoin.Script.Types.{Bytes, Outcome, ok, fault, unknown_error, ◌>>◌, throw_if}

-- The two 32-bit words of a 64-bit integer in two's complement, as bit patterns.
pub record Num : Type 0 where
  pub hi : ℕ
  pub lo : ℕ

-- The methods of n64 that lib/script calls.
pub record N64 : Type 0 where
  pub is_zero : Num → Bool
  pub is_neg : Num → Bool
  pub neg : Num → Num
  pub abs : Num → Num
  pub byte_length : Num → ℕ
  pub testn : Num → ℕ → Bool
  pub setn : Num → ℕ → Bool → Num
  pub orb : Num → ℕ → ℕ → Num
  pub addn : Num → ℤ → Num
  pub add : Num → Num → Num
  pub sub : Num → Num → Num
  pub div : Num → Num → Num
  pub mod_ : Num → Num → Num
  pub eq : Num → Num → Bool
  pub lt : Num → Num → Bool
  pub lte : Num → Num → Bool
  pub gt : Num → Num → Bool
  pub gte : Num → Num → Bool
  pub min : Num → Num → Num
  pub max : Num → Num → Num
  pub to_bool : Num → Bool
  pub from_bool : Bool → Num
  pub to_int : Num → ℤ
  pub to_double : Num → ℤ
  pub from_number : ℤ → Num
  pub to_minimal : Bytes → Bytes
  pub int32_min : Num
  pub int32_max : Num
  pub long_min : ℤ
  pub long_max : ℤ

-- `buffer[i]`; a read out of range is undefined, for which 256 stands: it has none of the low
-- eight bits, and is equal to no byte.
abbrev pub byte_at : Bytes → ℕ → ℕ
byte_at bytes i = get_or bytes i 256

-- The cases of the `switch` on the size, which fall through: the bytes from the lowest on.
abbrev bytes_le : Num → Bytes
bytes_le num =
    num.lo % 256
    ∷ num.lo / 2 ^ 8 % 256
    ∷ num.lo / 2 ^ 16 % 256
    ∷ num.lo / 2 ^ 24 % 256
    ∷ num.hi % 256
    ∷ num.hi / 2 ^ 8 % 256
    ∷ num.hi / 2 ^ 16 % 256
    ∷ num.hi / 2 ^ 24 % 256
    ∷ []

-- The end of `toRaw`: the sign bit, with the three assertions.
pub append_sign : Bytes → ℕ → ℕ → Bool → Outcome Bytes
append_sign written size offset neg =
    let top = byte_at written (size - 1) in
    if not (bit_and top 0x80 == 0)
    then (if offset == 1 then ok (written ++ ((if neg then 0x80 else 0) ∷ [])) else fault)
    else if not (offset == 0)
    then fault
    else ok (if neg then set written (size - 1) (bit_or top 0x80) else written)

-- The word of the bytes `i` to `i + 3`, of those that the buffer has.
abbrev word_le : Bytes → ℕ → ℕ
word_le bytes i =
    get_or bytes i 0
    + get_or bytes (i + 1) 0 * 2 ^ 8
    + get_or bytes (i + 2) 0 * 2 ^ 16
    + get_or bytes (i + 3) 0 * 2 ^ 24

-- `isMinimal`.
unfoldable pub is_minimal : Bytes → Bool
is_minimal bytes =
    let n = length bytes in
    if n == 0
    then true
    else if bit_and (byte_at bytes (n - 1)) 0x7f == 0
    then (if n == 1 then false else not (bit_and (byte_at bytes (n - 2)) 0x80 == 0))
    else true

module _ (n64 : N64) where
  open n64 use {is_zero, is_neg, neg, byte_length, testn, setn, orb}

  unfoldable pub to_raw : Num → Outcome Bytes
  unfolding append_sign
  to_raw this =
      if is_zero this
      then ok []
      else let negative = is_neg this in
        let num = if negative then neg this else this in
        let size = byte_length num in
        let offset = if testn num (size * 8 - 1) then 1 else 0 in
        append_sign (take size (bytes_le num)) size offset negative

  -- The loop of the `default` case.
  pub or_bytes : Num → ℕ → Bytes → Num
  or_bytes num i [] = num
  or_bytes num i (b ∷ bytes) = or_bytes (orb num i b) (i + 1) bytes

  -- On a new number, whose words are 0.
  unfoldable pub from_raw : Bytes → Num
  unfolding or_bytes
  from_raw bytes =
      let n = length bytes in
      let num =
        if leb n 8
        then record { hi = word_le bytes 4; lo = word_le bytes 0 }
        else or_bytes (record { hi = 0; lo = 0 }) 0 bytes in
      if n == 0
      then record { hi = 0; lo = 0 }
      else if not (bit_and (byte_at bytes (n - 1)) 0x80 == 0)
      then neg (setn num (n * 8 - 1) false)
      else num

  unfoldable pub decode : Bytes → Bool → Option ℕ → Outcome Num
  unfolding from_raw is_minimal
  decode bytes minimal limit = do
    throw_if (elim limit [ none ↦ false | some n ↦ ltb n (length bytes) ]) unknown_error
    throw_if (minimal && not (is_minimal bytes)) unknown_error
    ok (from_raw bytes)

  unfoldable pub get_int : Num → ℤ
  get_int this =
      if n64.lt this n64.int32_min
      then n64.long_min
      else if n64.gt this n64.int32_max
      then n64.long_max
      else n64.to_int this
