-- ===== src/Protocol/Compact.antt =====
-- `fromCompact` and `toCompact` of lib/protocol/params/consensus.js. The class BN is third-party; of
-- it only `byteLength` is a parameter, the rest is arithmetic.
pub mod Powers
pub mod Rounding
mod Tests
use bcoin.Prelude.{
  ℕ, zero, suc, ◌+◌, ◌-◌, ◌*◌, ◌/◌, ◌%◌, ◌^◌, ◌≤◌, ◌<◌, ◌≢◌, ℤ, pos, negsuc, Bool, ltb, leb, ◌==◌,
  if◌then◌else◌,
}

-- A number with its sign; the negative of 0 is 0.
abbrev pub signed : Bool → ℕ → ℤ
signed negative zero = pos 0
signed negative (suc n) = if negative then negsuc n else pos (suc n)

abbrev pub magnitude : ℕ → ℕ → ℕ
magnitude exponent mantissa =
    if leb exponent 3
    then mantissa / 2 ^ (8 * (3 - exponent))
    else mantissa * 2 ^ (8 * (exponent - 3))

-- Of a number of 32 bits.
unfoldable pub from_compact : ℕ → ℤ
from_compact compact =
    if compact == 0
    then pos 0
    else signed (compact / 2 ^ 23 % 2 == 1) (magnitude (compact / 2 ^ 24) (compact % 2 ^ 23))

-- The two parts of the result, once bit 23 is clear. The mantissa is below 2^24, so that `|` adds.
abbrev pub joined : ℕ → ℕ → ℕ
joined exponent mantissa =
    if mantissa / 2 ^ 23 % 2 == 1
    then ((exponent + 1) * 2 ^ 24 + mantissa / 2 ^ 8) % 2 ^ 32
    else (exponent * 2 ^ 24 + mantissa) % 2 ^ 32

module _ (byte_length : ℕ → ℕ) where
  abbrev pub mantissa_of : ℕ → ℕ
  mantissa_of num =
      if leb (byte_length num) 3
      then num * 2 ^ (8 * (3 - byte_length num))
      else num / 2 ^ (8 * (byte_length num - 3))

  -- Of a number that is not negative.
  unfoldable pub to_compact : ℕ → ℕ
  to_compact num = if num == 0 then 0 else joined (byte_length num) (mantissa_of num)

  -- What `byteLength` of BN promises: the least number of bytes that hold the number.
  pub record IsByteLength : Type 0 where
    pub fits : (n : ℕ) → n < 2 ^ (8 * byte_length n)
    pub least : (n k : ℕ) → n < 2 ^ (8 * k) → byte_length n ≤ k
