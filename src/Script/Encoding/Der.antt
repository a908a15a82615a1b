-- ===== src/Script/Encoding/Der.antt =====
-- `isSignatureEncoding` of lib/script/common.js against the layout that BIP66 describes:
-- 0x30 [total-length] 0x02 [R-length] [R] 0x02 [S-length] [S] [sighash].
use bcoin.Prelude.{
  ℕ, zero, suc, ◌+◌, ◌≤◌, ◌<◌, ◌≡◌, ◌↔◌, refl, sym, ap, ◌∙◌, Bool, true, false, not, ◌&&◌, ◌||◌, [],
  ◌∷◌, ◌++◌, arith, ltb, leb, ◌==◌, if◌then◌else◌, length, get_or, take, drop, length-append,
  length-take, take-append-drop,
}
use bcoin.Script.Types.{Bytes}
use bcoin.Script.Num.{byte_at}
use bcoin.Script.Encoding.{high_bit, is_signature_encoding}

abbrev pub der : Bytes → Bytes → ℕ → Bytes
der r s type =
    0x30
    ∷ (length r + length s + 4)
    ∷ 0x02
    ∷ length r
    ∷ (r ++ (0x02 ∷ length s ∷ (s ++ (type ∷ []))))

-- A positive number in as few bytes as possible.
abbrev pub is_positive : Bytes → Bool
is_positive [] = false
is_positive (b ∷ []) = not (high_bit b)
is_positive (b ∷ c ∷ bytes) = not (high_bit b) && (not (b == 0) || high_bit c)

get_or-append :
    (xs ys : Bytes) (i k d : ℕ) → i ≡ length xs + k → get_or (xs ++ ys) i d ≡ get_or ys k d
get_or-append [] ys i k d e = ap (λ t. get_or ys t d) (omega arith)
get_or-append (x ∷ xs) ys zero k d e = absurd (omega arith)
get_or-append (x ∷ xs) ys (suc i) k d e = get_or-append xs ys i k d (omega arith)

-- The tests on one of the two numbers, at its first two bytes.
number_tests : ℕ → ℕ → ℕ → Bool
number_tests size first next =
    not (size == 0)
    && (not (high_bit first) && not (ltb 1 size && first == 0 && not (high_bit next)))

number_tests_lem :
    (r tail : Bytes) (t : ℕ)
    → number_tests (length r) (get_or (r ++ (t ∷ tail)) 0 256) (get_or (r ++ (t ∷ tail)) 1 256)
      ≡ is_positive r
unfolding number_tests
number_tests_lem [] tail t = refl
number_tests_lem (b ∷ []) tail t = ground arith
number_tests_lem (b ∷ c ∷ r) tail t = ground arith

-- All the tests but those on the numbers come to this on their layout.
frame_tests : ℕ → ℕ → ℕ → ℕ → ℕ → ℕ → Bool
frame_tests n b0 b1 b2 len_r len_s =
    not (ltb n 9)
    && (not (ltb 73 n)
        && (not (not (b0 == 0x30))
            && (not (not (b1 + 3 == n))
                && (not (leb n (5 + len_r))
                    && (not (not (len_r + len_s + 7 == n)) && not (not (b2 == 0x02)))))))

tests : ℕ → ℕ → ℕ → ℕ → ℕ → ℕ → ℕ → ℕ → ℕ → ℕ → ℕ → Bool
tests n b0 b1 b2 len_r len_s sep r0 r1 s0 s1 =
    frame_tests n b0 b1 b2 len_r len_s
    && (number_tests len_r r0 r1 && (not (not (sep == 0x02)) && number_tests len_s s0 s1))

-- A chain of early returns is a conjunction.
chain_lem :
    (a b c d e f g h i j k l m n : Bool)
    → (if a
        then false
        else if b
        then false
        else if c
        then false
        else if d
        then false
        else if e
        then false
        else if f
        then false
        else if g
        then false
        else if h
        then false
        else if i
        then false
        else if j
        then false
        else if k
        then false
        else if l
        then false
        else if m
        then false
        else n)
      ≡ ((not a && (not b && (not c && (not d && (not e && (not f && not g))))))
          && ((not h && (not i && not j)) && (not k && (not l && (not m && n)))))
chain_lem true b c d e f g h i j k l m n = refl
chain_lem false true c d e f g h i j k l m n = refl
chain_lem false false true d e f g h i j k l m n = refl
chain_lem false false false true e f g h i j k l m n = refl
chain_lem false false false false true f g h i j k l m n = refl
chain_lem false false false false false true g h i j k l m n = refl
chain_lem false false false false false false true h i j k l m n = refl
chain_lem false false false false false false false true i j k l m n = refl
chain_lem false false false false false false false false true j k l m n = refl
chain_lem false false false false false false false false false true k l m n = refl
chain_lem false false false false false false false false false false k l m n = last_part k l m n
  where
    last_part :
        (k l m n : Bool)
        → (if k then false else if l then false else if m then false else n)
          ≡ (not k && (not l && (not m && n)))
    last_part true l m n = refl
    last_part false true m n = refl
    last_part false false true n = refl
    last_part false false false n = refl

tests_lem :
    (sig : Bytes)
    → is_signature_encoding sig
      ≡ tests
          (length sig)
          (byte_at sig 0)
          (byte_at sig 1)
          (byte_at sig 2)
          (byte_at sig 3)
          (byte_at sig (5 + byte_at sig 3))
          (byte_at sig (byte_at sig 3 + 4))
          (byte_at sig 4)
          (byte_at sig 5)
          (byte_at sig (byte_at sig 3 + 6))
          (byte_at sig (byte_at sig 3 + 7))
unfolding is_signature_encoding tests number_tests frame_tests
tests_lem sig =
    let n = length sig in
    let at = byte_at sig in
    let len_r = byte_at sig 3 in
    let len_s = byte_at sig (5 + byte_at sig 3) in
    chain_lem (ltb n 9) (ltb 73 n) (not (at 0 == 0x30)) (not (at 1 + 3 == n)) (leb n (5 + len_r))
      (not (len_r + len_s + 7 == n)) (not (at 2 == 0x02)) (len_r == 0) (high_bit (at 4))
      (ltb 1 len_r && at 4 == 0 && not (high_bit (at 5))) (not (at (len_r + 4) == 0x02))
      (len_s == 0) (high_bit (at (len_r + 6)))
      (not (ltb 1 len_s && at (len_r + 6) == 0 && not (high_bit (at (len_r + 7)))))

module _ (r s : Bytes) (type : ℕ) where
  abbrev rest_s : Bytes
  rest_s = 0x02 ∷ length s ∷ (s ++ (type ∷ []))

  -- A read behind the first number.
  at_rest : (i k : ℕ) → i ≡ length r + (4 + k) → byte_at (der r s type) i ≡ get_or rest_s k 256
  at_rest zero k e = absurd (omega arith)
  at_rest (suc zero) k e = absurd (omega arith)
  at_rest (suc (suc zero)) k e = absurd (omega arith)
  at_rest (suc (suc (suc zero))) k e = absurd (omega arith)
  at_rest (suc (suc (suc (suc i)))) k e = get_or-append r rest_s i k 256 (omega arith)

  length-der : length (der r s type) ≡ length r + length s + 7
  length-der = omega (arith, length-append r rest_s, length-append s (type ∷ []))

  frame_lem :
      frame_tests
        (length r + length s + 7)
        0x30
        (length r + length s + 4)
        0x02
        (length r)
        (length s)
      ≡ leb 2 (length r + length s) && leb (length r + length s) 66
  unfolding frame_tests
  frame_lem = ground arith

  der_tests :
      is_signature_encoding (der r s type)
      ≡ (leb 2 (length r + length s) && leb (length r + length s) 66)
        && (is_positive r && is_positive s)
  unfolding tests
  der_tests =
      tests_lem (der r s type)
      ∙ rw
          (
            at_rest (5 + length r) 1 (omega arith),
            at_rest (length r + 4) 0 (omega arith),
            at_rest (length r + 6) 2 (omega arith),
            at_rest (length r + 7) 3 (omega arith),
            length-der,
            frame_lem,
            number_tests_lem r (length s ∷ (s ++ (type ∷ []))) 0x02,
            number_tests_lem s [] type,
          )
          refl

frame_facts :
    (n b0 b1 b2 len_r len_s sep r0 r1 s0 s1 : ℕ)
    → tests n b0 b1 b2 len_r len_s sep r0 r1 s0 s1 ≡ true
    → (b0 ≡ 0x30)
      × (b1 + 3 ≡ n)
      × (b2 ≡ 0x02)
      × (5 + len_r < n)
      × (len_r + len_s + 7 ≡ n)
      × (sep ≡ 0x02)
unfolding tests frame_tests
frame_facts n b0 b1 b2 len_r len_s sep r0 r1 s0 s1 h = ground arith

split_at :
    (bytes : Bytes) (n : ℕ)
    → n ≤ length bytes
    → (r tail : Bytes) × (bytes ≡ r ++ tail) × (length r ≡ n)
split_at bytes n h =
    (take n bytes, drop n bytes, sym (take-append-drop n bytes), omega (arith, length-take n bytes))

last_one :
    (bytes : Bytes) (n : ℕ)
    → length bytes ≡ n + 1
    → (s : Bytes) × (t : ℕ) × (bytes ≡ s ++ (t ∷ [])) × (length s ≡ n)
last_one [] n h = absurd (omega arith)
last_one (b ∷ []) n h = ([], b, refl, omega arith)
last_one (b ∷ c ∷ bytes) zero h = absurd (omega arith)
last_one (b ∷ c ∷ bytes) (suc n) h =
    let (s, t, e, l) = last_one (c ∷ bytes) n (omega arith) in
    (b ∷ s, t, ap (λ u. b ∷ u) e, omega (arith, l))

assembled :
    (b0 b1 b2 e f type : ℕ) (r s tail : Bytes)
    → b0 ≡ 0x30
    → b1 ≡ length r + length s + 4
    → b2 ≡ 0x02
    → e ≡ 0x02
    → f ≡ length s
    → tail ≡ s ++ (type ∷ [])
    → b0 ∷ b1 ∷ b2 ∷ length r ∷ (r ++ (e ∷ f ∷ tail)) ≡ der r s type
assembled b0 b1 b2 e f type r s tail h0 h1 h2 he hf ht = rw (h0, h1, h2, he, hf, ht) refl

-- Behind the first number.
second_part :
    (b0 b1 b2 : ℕ) (r tail : Bytes)
    → (b0 ≡ 0x30)
    → b1 + 3 ≡ length r + length tail + 4
    → (b2 ≡ 0x02)
    → 2 ≤ length tail
    → length r + get_or tail 1 256 + 7 ≡ length r + length tail + 4
    → get_or tail 0 256 ≡ 0x02
    → (s : Bytes) × (type : ℕ) × (b0 ∷ b1 ∷ b2 ∷ length r ∷ (r ++ tail) ≡ der r s type)
second_part b0 b1 b2 r [] e0 e1 e2 two sum sep = absurd (omega arith)
second_part b0 b1 b2 r (e ∷ []) e0 e1 e2 two sum sep = absurd (omega arith)
second_part b0 b1 b2 r (e ∷ f ∷ tail) e0 e1 e2 two sum sep =
    let (s, t, split, len) = last_one tail f (omega arith) in
    (s, t, assembled b0 b1 b2 e f t r s tail e0 (omega (arith, len)) e2 sep (sym len) split)

first_part :
    (b0 b1 b2 : ℕ) (r tail : Bytes)
    → is_signature_encoding (b0 ∷ b1 ∷ b2 ∷ length r ∷ (r ++ tail)) ≡ true
    → (s : Bytes) × (type : ℕ) × (b0 ∷ b1 ∷ b2 ∷ length r ∷ (r ++ tail) ≡ der r s type)
first_part b0 b1 b2 r tail h =
    let sig = b0 ∷ b1 ∷ b2 ∷ length r ∷ (r ++ tail) in
    let pre = b0 ∷ b1 ∷ b2 ∷ length r ∷ r in
    let (e0, e1, e2, room, sum, sep) =
      frame_facts _ _ _ _ _ _ _ _ _ _ _ (sym (tests_lem sig) ∙ h) in
    let at_sep = get_or-append pre tail (length r + 4) 0 256 (omega arith) in
    let at_len = get_or-append pre tail (5 + length r) 1 256 (omega arith) in
    let len = length-append r tail in
    second_part b0 b1 b2 r tail e0 (omega arith) e2 (omega arith) (omega arith) (sym at_sep ∙ sep)

long_enough : (sig : Bytes) → is_signature_encoding sig ≡ true → 6 ≤ length sig
long_enough sig h =
    let (e0, e1, e2, room, sum, sep) =
      frame_facts _ _ _ _ _ _ _ _ _ _ _ (sym (tests_lem sig) ∙ h) in
    omega (arith, room)

-- What `isSignatureEncoding` accepts has the layout.
layout :
    (sig : Bytes)
    → is_signature_encoding sig ≡ true
    → (r s : Bytes) × (type : ℕ) × (sig ≡ der r s type)
layout (b0 ∷ b1 ∷ b2 ∷ d ∷ rest) h =
    let (e0, e1, e2, room, sum, sep) =
      frame_facts _ _ _ _ _ _ _ _ _ _ _ (sym (tests_lem (b0 ∷ b1 ∷ b2 ∷ d ∷ rest)) ∙ h) in
    let (r, tail, split, len) = split_at rest d (omega arith) in
    let same = regroup b0 b1 b2 d rest r tail split len in
    let (s, type, e) = first_part b0 b1 b2 r tail (sym (ap is_signature_encoding same) ∙ h) in
    (r, s, type, same ∙ e)
  where
    regroup :
        (b0 b1 b2 d : ℕ) (rest r tail : Bytes)
        → rest ≡ r ++ tail
        → length r ≡ d
        → b0 ∷ b1 ∷ b2 ∷ d ∷ rest ≡ b0 ∷ b1 ∷ b2 ∷ length r ∷ (r ++ tail)
    regroup b0 b1 b2 d rest r tail e l = rw (e, l) refl
layout sig h = absurd (omega (arith, long_enough sig h))

is_positive-nonempty : (r : Bytes) → is_positive r ≡ true → 1 ≤ length r
is_positive-nonempty [] h = cc
is_positive-nonempty (b ∷ r) h = omega arith

verdict_true :
    (len : ℕ) (p q : Bool)
    → (leb 2 len && leb len 66) && (p && q) ≡ true
    → (p ≡ true) × (q ≡ true) × (len ≤ 66)
verdict_true len p q h = ground arith

true_verdict :
    (len : ℕ) (p q : Bool)
    → 2 ≤ len
    → len ≤ 66
    → p ≡ true
    → q ≡ true
    → (leb 2 len && leb len 66) && (p && q) ≡ true
true_verdict len p q two top hp hq = ground arith

-- `isSignatureEncoding` accepts exactly the layout of BIP66 of two positive numbers in as few bytes
-- as possible, with at most 66 bytes in both, and one byte for the type of the hash.
pub is_signature_encoding_lem :
    (sig : Bytes)
    → (is_signature_encoding sig ≡ true) ↔ (
        (r s : Bytes) × (type : ℕ) × (sig ≡ der r s type)
        × (is_positive r ≡ true)
        × (is_positive s ≡ true)
        × (length r + length s ≤ 66))
is_signature_encoding_lem sig = (
  λ h.
      let (r, s, type, e) = layout sig h in
      let (p, q, top) =
        verdict_true (length r + length s) (is_positive r) (is_positive s)
          (sym (der_tests r s type) ∙ ap is_signature_encoding (sym e) ∙ h) in
      (r, s, type, e, p, q, top),
  λ (r, s, type, e, p, q, top).
      ap is_signature_encoding e
      ∙ der_tests r s type
      ∙ true_verdict (length r + length s) (is_positive r) (is_positive s)
          (omega (arith, is_positive-nonempty r p, is_positive-nonempty s q)) top p q,
)
