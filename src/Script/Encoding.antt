-- ===== src/Script/Encoding.antt =====
-- The byte-level tests of public keys and signatures in lib/script/common.js, and the checks of
-- lib/script/script.js that call them.
pub mod Der
mod Tests
use bcoin.Prelude.{
  ℕ, ◌+◌, ◌-◌, ◌%◌, Bool, false, not, ◌&&◌, ◌||◌, ltb, leb, ◌==◌, if◌then◌else◌, length, bit_and,
}
use bcoin.Script.Types.{
  Bytes, Outcome, ok, ◌>>◌, throw_if, has_flag, verify_strictenc, verify_dersig, verify_low_s,
  pubkey_type, sig_der, sig_high_s, sig_hash_type,
}
use bcoin.Script.Num.{byte_at}

pub is_key_encoding : Bytes → Bool
is_key_encoding key =
    if ltb (length key) 33
    then false
    else if byte_at key 0 == 0x04
    then length key == 65
    else if byte_at key 0 == 0x02 || byte_at key 0 == 0x03
    then length key == 33
    else false

pub is_compressed_encoding : Bytes → Bool
is_compressed_encoding key =
    if not (length key == 33) then false else byte_at key 0 == 0x02 || byte_at key 0 == 0x03

-- The last byte without ANYONECANPAY, 0x80, lies between ALL, 1, and SINGLE, 3. A byte & ~0x80 is
-- its low seven bits.
pub is_hash_type : Bytes → Bool
is_hash_type sig =
    if length sig == 0
    then false
    else let type = byte_at sig (length sig - 1) % 128 in not (ltb type 1 || ltb 3 type)

abbrev pub high_bit : ℕ → Bool
high_bit b = not (bit_and b 0x80 == 0)

-- BIP66, test by test.
unfoldable pub is_signature_encoding : Bytes → Bool
is_signature_encoding sig =
    let n = length sig in
    let at = λ (i : ℕ). byte_at sig i in
    let len_r = at 3 in
    let len_s = at (5 + len_r) in
    if ltb n 9
    then false
    else if ltb 73 n
    then false
    else if not (at 0 == 0x30)
    then false
    else if not (at 1 + 3 == n)
    then false
    else if leb n (5 + len_r)
    then false
    else if not (len_r + len_s + 7 == n)
    then false
    else if not (at 2 == 0x02)
    then false
    else if len_r == 0
    then false
    else if high_bit (at 4)
    then false
    else if ltb 1 len_r && at 4 == 0 && not (high_bit (at 5))
    then false
    else if not (at (len_r + 4) == 0x02)
    then false
    else if len_s == 0
    then false
    else if high_bit (at (len_r + 6))
    then false
    else not (ltb 1 len_s && at (len_r + 6) == 0 && not (high_bit (at (len_r + 7))))

-- `secp256k1.isLowDER` is a parameter.
pub is_low_der : (Bytes → Bool) → Bytes → Bool
unfolding is_signature_encoding
is_low_der low sig = is_signature_encoding sig && low sig

-- `validateKey` of script.js.
unfoldable pub validate_key : Bytes → ℕ → Outcome (Unit {0})
unfolding is_key_encoding
validate_key key flags =
    throw_if (has_flag flags verify_strictenc && not (is_key_encoding key)) pubkey_type

-- `validateSignature` of script.js.
unfoldable pub validate_signature : (Bytes → Bool) → Bytes → ℕ → Outcome (Unit {0})
unfolding is_signature_encoding is_low_der is_hash_type
validate_signature low sig flags = if length sig == 0 then ok tt else (do
  throw_if
      ((has_flag flags verify_dersig
          || has_flag flags verify_low_s
          || has_flag flags verify_strictenc)
        && not (is_signature_encoding sig))
      sig_der
  throw_if (has_flag flags verify_low_s && not (is_low_der low sig)) sig_high_s
  throw_if (has_flag flags verify_strictenc && not (is_hash_type sig)) sig_hash_type)
