-- ===== src/Golomb/Reader/Words.antt =====
-- What `readBits` of lib/golomb/reader.js gives: the 32 bits of the number whose bits come next.
use bcoin.Prelude.{
  ℕ, zero, suc, ◌+◌, ◌*◌, ◌/◌, ◌%◌, ◌^◌, ◌≤◌, ◌<◌, ◌≡◌, sym, ◌∙◌, ap, true, some, List, ◌∷◌, ◌++◌,
  arith, leb, bit_or,
}
use mathlib.Core.Path.{subst}
use mathlib.Core.List.{append_assoc}
use native.Mathlib.Nat.{one-le-pow, mod-eq_of_lt, pow-le-pow_right}
use bcoin.Golomb.Bits.{
  bits, bits-split, or_disjoint, two-pow-add, high_lt, low_lt, high_low, join_lt, bit_one,
}
use bcoin.Golomb.Writer.{shift_left}
use bcoin.Golomb.Reader.{BitReader, read_bytes_rounds, read_bit_rounds, read_pattern}
use bcoin.Golomb.Reader.Unread.{IsReader, unread, Reads, read_bit-Reads, read_byte-Reads}

-- `num << a | b` on a number with room for it.
shifted :
    (s a num b : ℕ)
    → num < 2 ^ s
    → s + a ≤ 32
    → a < 32
    → b < 2 ^ a
    → bit_or (shift_left num a) b ≡ num * 2 ^ a + b
shifted s a num b h l m c =
    let small : num * 2 ^ a < 2 ^ 32 = omega (
      arith,
      join_lt s a num 0 h (one-le-pow a 2 (omega arith)),
      pow-le-pow_right {n = 2} (omega arith) {i = s + a} {j = 32} l,
    ) in
    ap (λ (t : ℕ). bit_or (num * 2 ^ t % 2 ^ 32) b) {x = a % 32} {y = a} (omega arith)
    ∙ ap (λ (t : ℕ). bit_or t b) (mod-eq_of_lt small)
    ∙ or_disjoint a num b c

regroup_value :
    (num j k v : ℕ) → (num * 2 ^ j + v / 2 ^ k) * 2 ^ k + v % 2 ^ k ≡ num * 2 ^ (j + k) + v
regroup_value num j k v = omega (arith, high_low k v, ap (λ (t : ℕ). num * t) (two-pow-add j k))

split_bits :
    (a m v : ℕ) (xs : List ℕ)
    → bits (a + m) v ++ xs ≡ bits a (v / 2 ^ m) ++ (bits m (v % 2 ^ m) ++ xs)
split_bits a m v xs =
    ap (λ t. t ++ xs) (bits-split a m v) ∙ append_assoc (bits a (v / 2 ^ m)) (bits m (v % 2 ^ m)) xs

read_bit_rounds-Reads :
    (m s num v : ℕ) (r : BitReader) (xs : List ℕ)
    → num < 2 ^ s
    → s + m ≤ 32
    → v < 2 ^ m
    → IsReader r
    → unread r ≡ bits m v ++ xs
    → Reads (num * 2 ^ m + v) xs (read_bit_rounds m num r)
unfolding read_bit_rounds
read_bit_rounds-Reads zero s num v r xs n h l i e =
    (r, ap (λ (t : ℕ). some (t, r)) {x = num} {y = num * 2 ^ 0 + v} (omega arith), i, e)
read_bit_rounds-Reads (suc m) s num v r xs n h l i e =
    let width : suc m ≡ 1 + m = omega arith in
    let small : v / 2 ^ m < 2 = high_lt 1 m v (subst (λ (t : ℕ). v < 2 ^ t) width l) in
    let split : unread r ≡ v / 2 ^ m ∷ (bits m (v % 2 ^ m) ++ xs) =
      e
      ∙ ap (λ (t : ℕ). bits t v ++ xs) width
      ∙ split_bits 1 m v xs
      ∙ ap (λ t. t ++ (bits m (v % 2 ^ m) ++ xs)) (bit_one (v / 2 ^ m) small) in
    let (r', t, i', e') = read_bit-Reads r (v / 2 ^ m) (bits m (v % 2 ^ m) ++ xs) i split in
    let next = shifted s 1 num (v / 2 ^ m) n (omega arith) (omega arith) small in
    let (r'', t'', i'', e'') =
      read_bit_rounds-Reads m (s + 1) (num * 2 ^ 1 + v / 2 ^ m) (v % 2 ^ m) r' xs
        (join_lt s 1 num (v / 2 ^ m) n small) (omega arith) (low_lt m v) i' e' in
    let value : (num * 2 ^ 1 + v / 2 ^ m) * 2 ^ m + v % 2 ^ m ≡ num * 2 ^ suc m + v =
      regroup_value num 1 m v ∙ ap (λ (t : ℕ). num * 2 ^ t + v) (sym width) in
    (r'', rw (t, read_bit_rounds, next) (t'' ∙ ap (λ (t : ℕ). some (t, r'')) value), i'', e'')

read_bytes_rounds-Reads :
    (k s num v : ℕ) (r : BitReader) (xs : List ℕ)
    → num < 2 ^ s
    → s + 8 * k ≤ 32
    → v < 2 ^ (8 * k)
    → IsReader r
    → unread r ≡ bits (8 * k) v ++ xs
    → Reads (num * 2 ^ (8 * k) + v) xs (read_bytes_rounds k num r)
unfolding read_bytes_rounds
read_bytes_rounds-Reads zero s num v r xs n h l i e =
    let nothing : 8 * 0 ≡ 0 = omega arith in
    let no_value : v < 1 = subst (λ (t : ℕ). v < 2 ^ t) nothing l in
    (
      r,
      ap (λ (t : ℕ). some (t, r)) {x = num} {y = num * 2 ^ (8 * 0) + v}
          (omega (arith, no_value, ap (λ (t : ℕ). num * 2 ^ t) nothing)),
      i,
      e ∙ ap (λ (t : ℕ). bits t v ++ xs) nothing,
    )
read_bytes_rounds-Reads (suc k) s num v r xs n h l i e =
    let width : 8 * suc k ≡ 8 + 8 * k = omega arith in
    let small : v / 2 ^ (8 * k) < 2 ^ 8 =
      high_lt 8 (8 * k) v (subst (λ (t : ℕ). v < 2 ^ t) width l) in
    let split : unread r ≡ bits 8 (v / 2 ^ (8 * k)) ++ (bits (8 * k) (v % 2 ^ (8 * k)) ++ xs) =
      e ∙ ap (λ (t : ℕ). bits t v ++ xs) width ∙ split_bits 8 (8 * k) v xs in
    let (r', t, i', e') =
      read_byte-Reads r (v / 2 ^ (8 * k)) (bits (8 * k) (v % 2 ^ (8 * k)) ++ xs) small i split in
    let next = shifted s 8 num (v / 2 ^ (8 * k)) n (omega (arith, h)) (omega arith) small in
    let (r'', t'', i'', e'') =
      read_bytes_rounds-Reads k (s + 8) (num * 2 ^ 8 + v / 2 ^ (8 * k)) (v % 2 ^ (8 * k)) r' xs
        (join_lt s 8 num (v / 2 ^ (8 * k)) n small) (omega (arith, h)) (low_lt (8 * k) v) i' e' in
    let value : (num * 2 ^ 8 + v / 2 ^ (8 * k)) * 2 ^ (8 * k) + v % 2 ^ (8 * k)
        ≡ num * 2 ^ (8 * suc k) + v =
      regroup_value num 8 (8 * k) v ∙ ap (λ (t : ℕ). num * 2 ^ t + v) (sym width) in
    (r'', rw (t, read_bytes_rounds, next) (t'' ∙ ap (λ (t : ℕ). some (t, r'')) value), i'', e'')

-- Where the bits before the reader start with those of a number of at most 32 bits, the number is
-- read, and the bits after it are left.
pub read_pattern-Reads :
    (count v : ℕ) (r : BitReader) (xs : List ℕ)
    → count ≤ 32
    → v < 2 ^ count
    → IsReader r
    → unread r ≡ bits count v ++ xs
    → Reads v xs (read_pattern count r)
unfolding read_pattern
read_pattern-Reads count v r xs h l i e =
    let t : leb count 32 ≡ true = ground arith in
    let width : count ≡ 8 * (count / 8) + count % 8 = omega arith in
    let split : unread r
        ≡ bits (8 * (count / 8)) (v / 2 ^ (count % 8))
          ++ (bits (count % 8) (v % 2 ^ (count % 8)) ++ xs) =
      e ∙ ap (λ (n : ℕ). bits n v ++ xs) width ∙ split_bits (8 * (count / 8)) (count % 8) v xs in
    let small : v / 2 ^ (count % 8) < 2 ^ (8 * (count / 8)) =
      high_lt (8 * (count / 8)) (count % 8) v (subst (λ (n : ℕ). v < 2 ^ n) width l) in
    let (r', t', i', e') =
      read_bytes_rounds-Reads (count / 8) 0 0 (v / 2 ^ (count % 8)) r
        (bits (count % 8) (v % 2 ^ (count % 8)) ++ xs) (omega arith) (omega arith) small i split in
    let top : 0 * 2 ^ (8 * (count / 8)) + v / 2 ^ (count % 8) ≡ v / 2 ^ (count % 8) = omega arith in
    let (r'', t'', i'', e'') =
      read_bit_rounds-Reads (count % 8) (8 * (count / 8)) (v / 2 ^ (count % 8))
        (v % 2 ^ (count % 8)) r' xs small (omega arith) (low_lt (count % 8) v) i' e' in
    (
      r'',
      rw (t, read_pattern, t', top)
          (t'' ∙ ap (λ (n : ℕ). some (n, r'')) (sym (high_low (count % 8) v))),
      i'',
      e'',
    )
