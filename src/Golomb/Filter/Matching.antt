-- ===== src/Golomb/Filter/Matching.antt =====
-- What `match` of lib/golomb/golomb.js reads from the data of a filter.
use bcoin.Prelude.{
  ℕ, zero, suc, ◌+◌, ◌-◌, ◌*◌, ◌/◌, ◌%◌, ◌^◌, ◌≤◌, ◌<◌, ◌≡◌, refl, sym, ◌∙◌, ap, inl, inr, Bool,
  true, false, Option, some, List, [], ◌∷◌, ◌++◌, arith, ltb, leb, ◌==◌, length, length-append,
  Bool-cases, bit_or,
}
use mathlib.Core.List.{append_assoc, Memᴰ}
use native.Mathlib.Nat.{mod-eq_of_lt, pow-le-pow_right, div-mul-le_self}
use bcoin.Golomb.Bits.{bits, low_lt, high_low, or_disjoint}
use bcoin.Golomb.Reader.{BitReader, to_int32, word, read_pattern, read_bits, read_bits64}
use bcoin.Golomb.Reader.Unread.{IsReader, unread, Reads, read_bit-Reads}
use bcoin.Golomb.Reader.Words.{read_pattern-Reads}
use bcoin.Golomb.Filter.{U64, IsU64, read_ones, read_u64, match_loop}
use bcoin.Golomb.Filter.Encoding.{ones, code, encode, Ascends, leb_of, ltb_of}

read_ones-Reads :
    (fuel q num : ℕ) (r : BitReader) (xs : List ℕ)
    → q < fuel
    → IsReader r
    → unread r ≡ ones q ++ (0 ∷ xs)
    → Reads (num + q) xs (read_ones fuel num r)
unfolding read_ones
read_ones-Reads zero q num r xs f i e = absurd (omega arith)
read_ones-Reads (suc fuel) zero num r xs f i e =
    let (r', t, i', e') = read_bit-Reads r 0 xs i e in
    (
      r',
      rw (t, read_ones) (ap (λ (n : ℕ). some (n, r')) {x = num} {y = num + 0} (omega arith)),
      i',
      e',
    )
read_ones-Reads (suc fuel) (suc q) num r xs f i e =
    let (r', t, i', e') = read_bit-Reads r 1 (ones q ++ (0 ∷ xs)) i e in
    let (r'', t', i'', e'') = read_ones-Reads fuel q (num + 1) r' xs (omega (arith, f)) i' e' in
    (
      r'',
      rw (t, read_ones)
          (t' ∙ ap (λ (n : ℕ). some (n, r'')) {x = num + 1 + q} {y = num + suc q} (omega arith)),
      i'',
      e'',
    )

pub length-ones : (q : ℕ) → length (ones q) ≡ q
length-ones zero = refl
length-ones (suc q) = ap suc (length-ones q)

-- The unary part is shorter than the code.
code_long : (p n : ℕ) (xs : List ℕ) → n / 2 ^ p ≤ length (code p n ++ xs)
code_long p n xs = omega (
  arith,
  length-append {0} (code p n) xs,
  length-append {0} (ones (n / 2 ^ p)) (0 ∷ bits p (n % 2 ^ p)),
  length-ones (n / 2 ^ p),
)

differs_lt : (a b : ℕ) → (a == b) ≡ false → a ≤ b → a < b
differs_lt a b n h = ground arith

word-to_int32 : (v : ℕ) → v < 2 ^ 31 → word (to_int32 v) ≡ v
word-to_int32 v h = ground arith

module _ {ℓ} {Item : Type ℓ} (u : U64) (laws : IsU64 u) (p : ℕ) (small : p < 32) (factor : ℕ)
    (sipmod : Item → ℕ → ℕ) where
  short_read :
      (r r' : BitReader) (v : ℕ)
      → v < 2 ^ 31
      → read_pattern p r ≡ some (v, r')
      → read_bits64 p r ≡ some ((0, v), r')
  unfolding read_bits64 read_bits
  short_read r r' v h e =
      let t : leb p 64 ≡ true = leb_of p 64 (omega (arith, small)) in
      let s : ltb 32 p ≡ false = ltb_of 32 p (omega (arith, small)) in
      rw (t, read_bits64, s, e) (ap (λ (n : ℕ). some ((0, n), r')) (word-to_int32 v h))

  -- The two parts of a word are put together.
  whole_word : (n : ℕ) → n < 2 ^ 64 → u.ior (u.shln (n / 2 ^ p) p) (u.join 0 (n % 2 ^ p)) ≡ n
  whole_word n h =
      let words : 2 ^ p ≤ 2 ^ 32 =
        pow-le-pow_right {n = 2} (omega arith) {i = p} {j = 32} (omega (arith, small)) in
      let low : u.join 0 (n % 2 ^ p) ≡ n % 2 ^ p =
        laws.join_law (n % 2 ^ p) (omega (arith, low_lt p n, words)) in
      let high : u.shln (n / 2 ^ p) p ≡ n / 2 ^ p * 2 ^ p =
        laws.shln_law (n / 2 ^ p) p ∙ mod-eq_of_lt (omega (arith, div-mul-le_self n (2 ^ p), h)) in
      laws.ior_law (u.shln (n / 2 ^ p) p) (u.join 0 (n % 2 ^ p))
      ∙ ap (λ (t : ℕ). bit_or t (u.join 0 (n % 2 ^ p))) high
      ∙ ap (λ (t : ℕ). bit_or (n / 2 ^ p * 2 ^ p) t) low
      ∙ or_disjoint p (n / 2 ^ p) (n % 2 ^ p) (low_lt p n)
      ∙ sym (high_low p n)

  read_u64-Reads :
      (bound n : ℕ) (r : BitReader) (xs : List ℕ)
      → n < 2 ^ 64
      → length (code p n ++ xs) < bound
      → IsReader r
      → unread r ≡ code p n ++ xs
      → Reads n xs (read_u64 u p factor sipmod bound r)
  unfolding read_u64
  read_u64-Reads bound n r xs h l i e =
      let (r', t, i', e') =
        read_ones-Reads bound (n / 2 ^ p) 0 r (bits p (n % 2 ^ p) ++ xs)
          (omega (arith, code_long p n xs, l)) i
          (e ∙ append_assoc (ones (n / 2 ^ p)) (0 ∷ bits p (n % 2 ^ p)) xs) in
      let (r'', t', i'', e'') =
        read_pattern-Reads p (n % 2 ^ p) r' xs (omega (arith, small)) (low_lt p n) i' e' in
      let below : n % 2 ^ p < 2 ^ 31 = omega (
        arith,
        low_lt p n,
        pow-le-pow_right {n = 2} (omega arith) {i = p} {j = 31} (omega (arith, small)),
      ) in
      let ones_read : read_ones bound 0 r ≡ some (n / 2 ^ p, r') =
        t ∙ ap (λ (k : ℕ). some (k, r')) {x = 0 + n / 2 ^ p} {y = n / 2 ^ p} (omega arith) in
      (
        r'',
        rw (ones_read, read_u64, short_read r' r'' (n % 2 ^ p) below t')
            (ap (λ (k : ℕ). some (k, r'')) (whole_word n h)),
        i'',
        e'',
      )

  Ascends-le : (values : List ℕ) (last x : ℕ) → Ascends last values → Memᴰ x values → last ≤ x
  Ascends-le [] last x a m = elim m [ ]
  Ascends-le (v ∷ values) last x (le, word, a) (Memᴰ.head e) = omega (arith, le, e)
  Ascends-le (v ∷ values) last x (le, word, a) (Memᴰ.tail m) =
      omega (arith, le, Ascends-le values v x a m)

  later_Mem : (v x : ℕ) (values : List ℕ) → (v == x) ≡ false → Memᴰ x (v ∷ values) → Memᴰ x values
  later_Mem v x values n (Memᴰ.head e) = absurd (ground (arith, e))
  later_Mem v x values n (Memᴰ.tail m) = m

  ahead : (v x : ℕ) (values : List ℕ) → (v == x) ≡ false → Ascends v values → Memᴰ x values → v < x
  ahead v x values n a m = differs_lt v x n (Ascends-le values v x a m)

  abbrev loop_at : ℕ → ℕ → ℕ → ℕ → BitReader → Option Bool
  loop_at fuel bound term last r = match_loop u p factor sipmod fuel bound term last r

  match_found :
      (fuel bound term last value : ℕ) (r r' : BitReader)
      → u.lt last term ≡ true
      → read_u64 u p factor sipmod bound r ≡ some (value, r')
      → u.eq (u.add value last) term ≡ true
      → loop_at (suc fuel) bound term last r ≡ some true
  unfolding match_loop
  match_found fuel bound term last value r r' l e t = rw (l, match_loop, e, t) refl

  match_next :
      (fuel bound term last value : ℕ) (r r' : BitReader)
      → u.lt last term ≡ true
      → read_u64 u p factor sipmod bound r ≡ some (value, r')
      → u.eq (u.add value last) term ≡ false
      → loop_at (suc fuel) bound term last r ≡ loop_at fuel bound term (u.add value last) r'
  unfolding match_loop
  match_next fuel bound term last value r r' l e t = rw (l, match_loop, e, t) refl

  pub match_none :
      (fuel bound term last : ℕ) (r : BitReader)
      → u.lt last term ≡ false
      → loop_at (suc fuel) bound term last r ≡ some false
  unfolding match_loop
  match_none fuel bound term last r l = rw (l, match_loop) refl

  lt_of : (a b : ℕ) → a < b → u.lt a b ≡ true
  lt_of a b h = laws.lt_law a b ∙ ground arith

  -- A value that is ahead among those that follow is found.
  pub match_loop-found :
      (values : List ℕ) (fuel bound term last : ℕ) (r : BitReader) (pad : List ℕ)
      → length values ≤ fuel
      → length (encode p last values ++ pad) < bound
      → Ascends last values
      → IsReader r
      → unread r ≡ encode p last values ++ pad
      → last < term
      → Memᴰ term values
      → loop_at fuel bound term last r ≡ some true
  match_loop-found [] fuel bound term last r pad f b a i e l m = elim m [ ]
  match_loop-found (v ∷ values) zero bound term last r pad f b a i e l m = absurd (omega (arith, f))
  match_loop-found (v ∷ values) (suc fuel) bound term last r pad f b (le, word, a) i e l m =
      let codes = append_assoc (code p (v - last)) (encode p v values) pad in
      let sizes = ap length codes in
      let (r', t, i', e') =
        read_u64-Reads bound (v - last) r (encode p v values ++ pad) (omega (arith, word))
          (omega (arith, b, sizes)) i (e ∙ codes) in
      let sum : u.add (v - last) last ≡ v =
        laws.add_law (v - last) last ∙ omega (arith, le, word) in
      let shorter = length-append {0} (code p (v - last)) (encode p v values ++ pad) in
      elim (Bool-cases (v == term)) [
        | inl y ↦
            match_found fuel bound term last (v - last) r r' (lt_of last term l) t
              (ap (λ (k : ℕ). u.eq k term) sum ∙ laws.eq_law v term ∙ y)
        | inr n ↦
            match_next fuel bound term last (v - last) r r' (lt_of last term l) t
              (ap (λ (k : ℕ). u.eq k term) sum ∙ laws.eq_law v term ∙ n)
            ∙ ap (λ (k : ℕ). loop_at fuel bound term k r') sum
            ∙ match_loop-found values fuel bound term v r' pad (omega (arith, f))
                (omega (arith, b, sizes, shorter)) a i' e'
                (ahead v term values n a (later_Mem v term values n m))
                (later_Mem v term values n m)
      ]
