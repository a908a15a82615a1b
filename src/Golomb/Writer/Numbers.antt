-- ===== src/Golomb/Writer/Numbers.antt =====
-- What `writeBits` of lib/golomb/writer.js appends: the bits of the number, the highest first.
use bcoin.Prelude.{
  ℕ, zero, suc, ◌+◌, ◌-◌, ◌*◌, ◌/◌, ◌%◌, ◌^◌, ◌≤◌, ◌<◌, ◌≡◌, refl, sym, ◌∙◌, ap, true, some, List,
  [], ◌∷◌, ◌++◌, arith, leb,
}
use mathlib.Core.Path.{subst}
use mathlib.Core.List.{append_assoc, append-nil}
use native.Mathlib.Nat.{one-le-pow, mul-le-mul, mod-eq_of_lt}
use bcoin.Golomb.Bits.{bits, bits-split, two-pow-add, high_lt, low_lt, high_low, bit_one}
use bcoin.Golomb.Writer.{
  BitWriter, write_bit, write_byte, shift_left, byte_rounds, bit_rounds, write_bits,
}
use bcoin.Golomb.Writer.Contents.{Holds, write_bit-Holds, write_byte-Holds}

-- A number at the top of a 32-bit word: its highest bits, and the word after they are shifted out.
module _ (b d v : ℕ) where
  abbrev high : ℕ
  high = v / 2 ^ b

  abbrev low : ℕ
  low = v % 2 ^ b

  word_parts : v * 2 ^ d ≡ high * 2 ^ (b + d) + low * 2 ^ d
  word_parts =
      ap (λ (t : ℕ). t * 2 ^ d) (high_low b v)
      ∙ omega (arith, ap (λ (t : ℕ). high * t) (two-pow-add b d))

  word_low : low * 2 ^ d < 2 ^ (b + d)
  word_low = omega (
    arith,
    two-pow-add b d,
    one-le-pow d 2 (omega arith),
    mul-le-mul {n₁ = suc low} {m₁ = 2 ^ d} {n₂ = 2 ^ b} {m₂ = 2 ^ d} (low_lt b v) (omega arith),
  )

  byte_word :
      b + d ≡ 24 → (v * 2 ^ d / 2 ^ 24 ≡ high) × (shift_left (v * 2 ^ d) 8 ≡ low * 2 ^ (d + 8))
  byte_word w =
      let parts : v * 2 ^ d ≡ high * 2 ^ 24 + low * 2 ^ d =
        word_parts ∙ ap (λ (t : ℕ). high * 2 ^ t + low * 2 ^ d) w in
      let small : low * 2 ^ d < 2 ^ 24 = subst (λ (t : ℕ). low * 2 ^ d < 2 ^ t) w word_low in
      let more : low * 2 ^ (d + 8) ≡ low * 2 ^ d * 256 =
        ap (λ (t : ℕ). low * t) (two-pow-add d 8) ∙ omega arith in
      (omega (arith, parts, small), omega (arith, parts, small, more))

  bit_word :
      b + d ≡ 31 → (v * 2 ^ d / 2 ^ 31 ≡ high) × (shift_left (v * 2 ^ d) 1 ≡ low * 2 ^ (d + 1))
  bit_word w =
      let parts : v * 2 ^ d ≡ high * 2 ^ 31 + low * 2 ^ d =
        word_parts ∙ ap (λ (t : ℕ). high * 2 ^ t + low * 2 ^ d) w in
      let small : low * 2 ^ d < 2 ^ 31 = subst (λ (t : ℕ). low * 2 ^ d < 2 ^ t) w word_low in
      let more : low * 2 ^ (d + 1) ≡ low * 2 ^ d * 2 =
        ap (λ (t : ℕ). low * t) (two-pow-add d 1) ∙ omega arith in
      (omega (arith, parts, small), omega (arith, parts, small, more))

bit_rounds-Holds :
    (content : List ℕ) (w : BitWriter) (m d v : ℕ)
    → m + d ≡ 32
    → v < 2 ^ m
    → Holds content w
    → Holds (content ++ bits m v) (bit_rounds m (v * 2 ^ d, w))
unfolding bit_rounds
bit_rounds-Holds content w zero d v s h c = subst (λ t. Holds t w) (sym (append-nil content)) c
bit_rounds-Holds content w (suc m) d v s h c =
    let (top, next) = bit_word m d v (omega arith) in
    let small : v / 2 ^ m < 2 =
      high_lt 1 m v (subst (λ (t : ℕ). v < 2 ^ t) {x = suc m} {y = 1 + m} (omega arith) h) in
    let ih =
      bit_rounds-Holds (content ++ (v / 2 ^ m ∷ [])) (write_bit (v / 2 ^ m) w) m (d + 1) (v % 2 ^ m)
        (omega arith) (low_lt m v) (write_bit-Holds content w (v / 2 ^ m) small c) in
    let same : (content ++ (v / 2 ^ m ∷ [])) ++ bits m (v % 2 ^ m) ≡ content ++ bits (suc m) v =
      append_assoc content (v / 2 ^ m ∷ []) (bits m (v % 2 ^ m))
      ∙ ap (λ t. content ++ (t ++ bits m (v % 2 ^ m))) (sym (bit_one (v / 2 ^ m) small))
      ∙ ap (λ t. content ++ t) (sym (bits-split 1 m v))
      ∙ ap (λ (t : ℕ). content ++ bits t v) {x = 1 + m} {y = suc m} (omega arith) in
    subst (λ t. Holds t (bit_rounds (suc m) (v * 2 ^ d, w))) same (rw (top, next, bit_rounds) ih)

rounds-Holds :
    (content : List ℕ) (w : BitWriter) (k m d v : ℕ)
    → 8 * k + m + d ≡ 32
    → v < 2 ^ (8 * k + m)
    → Holds content w
    → Holds (content ++ bits (8 * k + m) v) (bit_rounds m (byte_rounds k (v * 2 ^ d) w))
unfolding byte_rounds
rounds-Holds content w zero m d v s h c =
    let same : 8 * 0 + m ≡ m = omega arith in
    subst (λ t. Holds (content ++ bits t v) (bit_rounds m (v * 2 ^ d, w))) (sym same)
      (bit_rounds-Holds content w m d v (omega arith) (subst (λ (t : ℕ). v < 2 ^ t) same h) c)
rounds-Holds content w (suc k) m d v s h c =
    let (top, next) = byte_word (8 * k + m) d v (omega arith) in
    let width : 8 * suc k + m ≡ 8 + (8 * k + m) = omega arith in
    let small : v / 2 ^ (8 * k + m) < 2 ^ 8 =
      high_lt 8 (8 * k + m) v (subst (λ (t : ℕ). v < 2 ^ t) width h) in
    let ih =
      rounds-Holds (content ++ bits 8 (v / 2 ^ (8 * k + m))) (write_byte (v / 2 ^ (8 * k + m)) w) k
        m (d + 8) (v % 2 ^ (8 * k + m)) (omega arith) (low_lt (8 * k + m) v)
        (write_byte-Holds content w (v / 2 ^ (8 * k + m)) small c) in
    let same : (content ++ bits 8 (v / 2 ^ (8 * k + m))) ++ bits (8 * k + m) (v % 2 ^ (8 * k + m))
        ≡ content ++ bits (8 * suc k + m) v =
      append_assoc content (bits 8 (v / 2 ^ (8 * k + m))) (bits (8 * k + m) (v % 2 ^ (8 * k + m)))
      ∙ ap (λ t. content ++ t) (sym (bits-split 8 (8 * k + m) v))
      ∙ ap (λ (t : ℕ). content ++ bits t v) (sym width) in
    subst (λ t. Holds t (bit_rounds m (byte_rounds (suc k) (v * 2 ^ d) w))) same
      (rw (top, next, byte_rounds) ih)

-- The number is brought to the top of the word.
brought :
    (count v : ℕ) → count ≤ 32 → v < 2 ^ count → shift_left v (32 - count) ≡ v * 2 ^ (32 - count)
brought zero v h l =
    let none_left : v ≡ 0 = omega arith in
    ap (λ (t : ℕ). shift_left t 32) none_left ∙ omega (arith, none_left)
brought (suc c) v h l =
    let shift : (32 - suc c) % 32 ≡ 32 - suc c = omega arith in
    let whole : 2 ^ suc c * 2 ^ (32 - suc c) ≡ 2 ^ 32 =
      sym (two-pow-add (suc c) (32 - suc c))
      ∙ ap (λ (t : ℕ). 2 ^ t) {x = suc c + (32 - suc c)} {y = 32} (omega arith) in
    let small : suc v * 2 ^ (32 - suc c) ≤ 2 ^ suc c * 2 ^ (32 - suc c) =
      mul-le-mul {n₁ = suc v} {m₁ = 2 ^ (32 - suc c)} {n₂ = 2 ^ suc c} {m₂ = 2 ^ (32 - suc c)} l
        (omega arith) in
    ap (λ (t : ℕ). v * 2 ^ t % 2 ^ 32) shift
    ∙ mod-eq_of_lt (omega (arith, small, whole, one-le-pow (32 - suc c) 2 (omega arith)))

-- A number of at most 32 bits is written as its bits.
pub write_bits-Holds :
    (content : List ℕ) (w : BitWriter) (v count : ℕ)
    → count ≤ 32
    → v < 2 ^ count
    → Holds content w
    → (w' : BitWriter) × (write_bits v count w ≡ some w') × Holds (content ++ bits count v) w'
unfolding write_bits
write_bits-Holds content w v count h l c =
    let t : leb count 32 ≡ true = ground arith in
    let parts : 8 * (count / 8) + count % 8 ≡ count = omega arith in
    (
      bit_rounds (count % 8) (byte_rounds (count / 8) (v * 2 ^ (32 - count)) w),
      rw (t, write_bits, brought count v h l) refl,
      subst
          (λ (n : ℕ).
            Holds (content ++ bits n v)
              (bit_rounds (count % 8) (byte_rounds (count / 8) (v * 2 ^ (32 - count)) w)))
          parts
          (rounds-Holds content w (count / 8) (count % 8) (32 - count) v (omega arith)
            (subst (λ (n : ℕ). v < 2 ^ n) (sym parts) l) c),
    )
