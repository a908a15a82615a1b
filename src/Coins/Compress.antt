-- ===== src/Coins/Compress.antt =====
-- lib/coins/compress.js: the amounts, in the arithmetic of doubles. The arguments are whole numbers
-- below 2^54; what comes out may be larger, and then it is rounded. The compression of scripts and
-- keys stands on bcrypto and is left out.
pub mod Double
pub mod Exact
pub mod Bijection
mod Tests
use bcoin.Prelude.{
  ℕ, zero, suc, ◌+◌, ◌-◌, ◌*◌, ◌/◌, ◌%◌, ◌^◌, ◌≡◌, refl, Bool, ltb, leb, ◌==◌, ◌&&◌, if◌then◌else◌,
}

-- The distance of the doubles about a number: the least power of two, from the one given on, in
-- which it counts less than 2^53.
unfoldable pub spacing : ℕ → ℕ → ℕ → ℕ
spacing zero unit n = unit
spacing (suc fuel) unit n =
    let wider = spacing fuel (2 * unit) n in if ltb (n / unit) (2 ^ 53) then unit else wider

-- The multiple of the distance that is nearest, of two the even one.
abbrev pub nearest : ℕ → ℕ → ℕ
nearest unit n =
    let below = n / unit in
    let left = n % unit in
    if ltb (2 * left) unit
    then below * unit
    else if 2 * left == unit && below % 2 == 0
    then below * unit
    else (below + 1) * unit

-- The double of a whole number below 2^117.
unfoldable pub round : ℕ → ℕ
unfolding spacing
round n = nearest (spacing 64 1 n) n

-- The sum, the difference and the product of two doubles. The difference of a number and its
-- remainder is exact below 2^54, and so is its quotient: the model has `value / 10` for it.
abbrev pub plus : ℕ → ℕ → ℕ
plus a b = round (a + b)

abbrev pub minus : ℕ → ℕ → ℕ
minus a b = round (a - b)

abbrev pub times : ℕ → ℕ → ℕ
times a b = round (a * b)

-- The loop `while (value % 10 === 0 && exp < 9)`, by how often it may still run: the value and exp.
unfoldable pub strip : ℕ → ℕ → ℕ → ℕ × ℕ
strip zero value exp = (value, exp)
strip (suc left) value exp =
    let rest = strip left (value / 10) (exp + 1) in if value % 10 == 0 then rest else (value, exp)

-- The result, from what the loop leaves. In the last branch `value` is not 0.
unfoldable pub pack : ℕ × ℕ → ℕ
unfolding round
pack (value, exp) =
    if ltb exp 9
    then plus (plus 1 (times 10 (minus (plus (times 9 (value / 10)) (value % 10)) 1))) exp
    else plus 10 (times 10 (minus value 1))

unfoldable pub compress_value : ℕ → ℕ
unfolding strip pack
compress_value value = if value == 0 then 0 else pack (strip 9 value 0)

-- The loop `while (exp > 0)`.
unfoldable pub raise : ℕ → ℕ → ℕ
unfolding round
raise zero n = n
raise (suc exp) n = raise exp (times n 10)

unfoldable pub unpack : ℕ → ℕ → ℕ
unfolding round
unpack value exp =
    if ltb exp 9 then plus (plus (times (value / 9) 10) (value % 9)) 1 else plus value 1

unfoldable pub decompress_value : ℕ → ℕ
unfolding raise unpack
decompress_value value =
    let value' = minus value 1 in
    if value == 0 then 0 else raise (value' % 10) (unpack (value' / 10) (value' % 10))
