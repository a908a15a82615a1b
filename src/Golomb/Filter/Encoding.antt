-- ===== src/Golomb/Filter/Encoding.antt =====
-- The bits of the data of a filter of lib/golomb/golomb.js, and what `fromItems` writes.
use bcoin.Prelude.{
  ℕ, zero, suc, ◌-◌, ◌/◌, ◌%◌, ◌^◌, ◌≤◌, ◌<◌, ◌≡◌, refl, sym, ◌∙◌, ap, true, false, some, List, [],
  ◌∷◌, ◌++◌, arith, ltb, leb,
}
use mathlib.Core.Path.{subst}
use mathlib.Core.List.{append_assoc, append-nil}
use native.Mathlib.Nat.{
  one-le-pow, mod-eq_of_lt, div-eq_of_eq-mul_left, div-add-mod', mod-le, pow-le-pow_right,
}
use bcoin.Golomb.Bits.{bits, low_lt}
use bcoin.Golomb.Writer.{BitWriter, write_bit, write_bits, write_bits64}
use bcoin.Golomb.Writer.Contents.{Holds, write_bit-Holds}
use bcoin.Golomb.Writer.Numbers.{write_bits-Holds}
use bcoin.Golomb.Filter.{U64, IsU64, write_ones, write_values}

abbrev pub ones : ℕ → List ℕ
ones zero = []
ones (suc q) = 1 ∷ ones q

-- A number of p bits or more: the part above them in unary, and the p bits.
abbrev pub code : ℕ → ℕ → List ℕ
code p n = ones (n / 2 ^ p) ++ (0 ∷ bits p (n % 2 ^ p))

-- The values as they follow one another.
abbrev pub encode : ℕ → ℕ → List ℕ → List ℕ
encode p last [] = []
encode p last (v ∷ values) = code p (v - last) ++ encode p v values

-- The values ascend, and are words of 64 bits.
abbrev pub Ascends : ℕ → List ℕ → Type 0
Ascends last [] = Unit
Ascends last (v ∷ values) = (last ≤ v) × (v < 2 ^ 64) × Ascends v values

write_ones-Holds :
    (content : List ℕ) (q : ℕ) (w : BitWriter)
    → Holds content w
    → Holds (content ++ ones q) (write_ones q w)
unfolding write_ones
write_ones-Holds content zero w h = subst (λ t. Holds t w) (sym (append-nil content)) h
write_ones-Holds content (suc q) w h =
    subst (λ t. Holds t (write_ones q (write_bit 1 w))) (append_assoc content (1 ∷ []) (ones q))
      (write_ones-Holds (content ++ (1 ∷ [])) q (write_bit 1 w)
        (write_bit-Holds content w 1 (omega arith) h))

pub leb_of : (a b : ℕ) → a ≤ b → leb a b ≡ true
leb_of a b h = ground arith

pub ltb_of : (a b : ℕ) → b ≤ a → ltb a b ≡ false
ltb_of a b h = ground arith

join_code : (a b c : List ℕ) → ((a ++ b) ++ (0 ∷ [])) ++ c ≡ a ++ (b ++ (0 ∷ c))
join_code a b c = append_assoc (a ++ b) (0 ∷ []) c ∙ append_assoc a b (0 ∷ c)

module _ (u : U64) (laws : IsU64 u) (p : ℕ) (small : p < 32) where
  difference : (a b : ℕ) → b ≤ a → a < 2 ^ 64 → u.sub a b ≡ a - b
  difference a b h l = laws.sub_law a b (omega arith) ∙ omega arith

  remainder : (a b : ℕ) → b ≤ a → a < 2 ^ 64 → u.maskn (u.sub a b) p ≡ (a - b) % 2 ^ p
  remainder a b h l = laws.maskn_law (u.sub a b) p ∙ ap (λ (t : ℕ). t % 2 ^ p) (difference a b h l)

  exact : (n k : ℕ) → 0 < k → (n - n % k) / k ≡ n / k
  exact n k h =
      div-eq_of_eq-mul_left {n = k} {m = n - n % k} {k = n / k} h (omega (arith, div-add-mod' n k))

  quotient :
      (a b : ℕ)
      → b ≤ a
      → a < 2 ^ 64
      → u.shrn (u.sub (u.sub a b) (u.maskn (u.sub a b) p)) p ≡ (a - b) / 2 ^ p
  quotient a b h l =
      let rest = remainder a b h l in
      let less : (a - b) % 2 ^ p ≤ a - b = mod-le (a - b) (2 ^ p) in
      laws.shrn_law (u.sub (u.sub a b) (u.maskn (u.sub a b) p)) p
      ∙ ap (λ (t : ℕ). t / 2 ^ p)
          (ap (λ (t : ℕ). u.sub (u.sub a b) t) rest
            ∙ ap (λ (t : ℕ). u.sub t ((a - b) % 2 ^ p)) (difference a b h l)
            ∙ difference (a - b) ((a - b) % 2 ^ p) less (omega arith))
      ∙ exact (a - b) (2 ^ p) (one-le-pow p 2 (omega arith))

  words : 2 ^ p ≤ 2 ^ 32
  words = pow-le-pow_right {n = 2} (omega arith) {i = p} {j = 32} (omega (arith, small))

  short_write : (hi lo : ℕ) (w : BitWriter) → write_bits64 hi lo p w ≡ write_bits lo p w
  unfolding write_bits64
  short_write hi lo w =
      let t : leb p 64 ≡ true = leb_of p 64 (omega (arith, small)) in
      let s : ltb 32 p ≡ false = ltb_of 32 p (omega (arith, small)) in rw (t, write_bits64, s) refl

  write_code :
      (content : List ℕ) (w : BitWriter) (n rem value : ℕ)
      → rem ≡ n % 2 ^ p
      → value ≡ n / 2 ^ p
      → Holds content w
      → (w' : BitWriter) × (write_bits64 (u.hi rem) (u.lo rem) p (write_bit 0 (write_ones value w))
          ≡ some w')
        × Holds (content ++ code p n) w'
  write_code content w n rem value e f h =
      let before =
        write_bit-Holds (content ++ ones value) (write_ones value w) 0 (omega arith)
          (write_ones-Holds content value w h) in
      let fits : rem < 2 ^ p = omega (arith, e, low_lt p n) in
      let low : u.lo rem ≡ rem = laws.lo_law rem ∙ mod-eq_of_lt (omega (arith, fits, words)) in
      let (w', done, holds) =
        write_bits-Holds ((content ++ ones value) ++ (0 ∷ [])) (write_bit 0 (write_ones value w))
          rem p (omega (arith, small)) fits before in
      (
        w',
        short_write (u.hi rem) (u.lo rem) (write_bit 0 (write_ones value w))
            ∙ ap (λ (t : ℕ). write_bits t p (write_bit 0 (write_ones value w))) low
            ∙ done,
        subst (λ t. Holds t w')
            (join_code content (ones value) (bits p rem)
              ∙ (λ i. content ++ (ones (f i) ++ (0 ∷ bits p (e i)))))
            holds,
      )

module _ {ℓ} {Item : Type ℓ} (u : U64) (laws : IsU64 u) (p : ℕ) (small : p < 32) (factor : ℕ)
    (sipmod : Item → ℕ → ℕ) where
  -- The loop of `fromItems` appends the code of each value.
  pub write_values-Holds :
      (values : List ℕ) (last : ℕ) (content : List ℕ) (w : BitWriter)
      → Ascends last values
      → Holds content w
      → (w' : BitWriter) × (write_values u p factor sipmod last values w ≡ some w')
        × Holds (content ++ encode p last values) w'
  unfolding write_values
  write_values-Holds [] last content w a h =
      (w, refl, subst (λ t. Holds t w) (sym (append-nil content)) h)
  write_values-Holds (v ∷ values) last content w (le, word, a) h =
      let rem : ℕ = u.maskn (u.sub v last) p in
      let value : ℕ = u.shrn (u.sub (u.sub v last) rem) p in
      let (w', done, holds) =
        write_code u laws p small content w (v - last) rem value
          (remainder u laws p small v last le word) (quotient u laws p small v last le word) h in
      let (w'', done', holds') =
        write_values-Holds values v (content ++ code p (v - last)) w' a holds in
      (
        w'',
        rw (done, write_values) done',
        subst (λ t. Holds t w'') (append_assoc content (code p (v - last)) (encode p v values))
            holds',
      )
