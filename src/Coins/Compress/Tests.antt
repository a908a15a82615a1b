-- ===== src/Coins/Compress/Tests.antt =====
-- The compressed form of fifty coins, and of an amount whose compressed form is rounded.
use bcoin.Prelude.{◌≡◌, ◌*◌, refl, arith}
use bcoin.Coins.Compress.{
  spacing, round, strip, pack, compress_value, raise, unpack, decompress_value,
}
use bcoin.Coins.Compress.Bijection.{
  decompress_value-compress_value, compress_value-decompress_value,
}

fifty_coins : compress_value (50 * 100000000) ≡ 50
unfolding compress_value strip pack round spacing
fifty_coins = refl

rounded : compress_value 1234567890123457 ≡ 11111111011111112
unfolding compress_value strip pack round spacing
rounded = refl

comes_back_as : decompress_value 11111111011111112 ≡ 123456789012345696
unfolding decompress_value raise unpack round spacing
comes_back_as = refl

decompress_value-compress_value_example : decompress_value (compress_value 123456000) ≡ 123456000
unfolding compress_value strip pack round spacing
decompress_value-compress_value_example =
    decompress_value-compress_value 123456000 (omega arith) (omega arith)

compress_value-decompress_value_example : compress_value (decompress_value 1234567) ≡ 1234567
unfolding decompress_value raise unpack round spacing
compress_value-decompress_value_example =
    compress_value-decompress_value 1234567 (omega arith) (omega arith)
