-- ===== src/Golomb/Reader/Unread.antt =====
-- The bits that a reader of lib/golomb/reader.js has before it, and what each read takes of them.
use bcoin.Prelude.{
  at_drop, ℕ, zero, suc, ◌+◌, ◌-◌, ◌*◌, ◌/◌, ◌%◌, ◌^◌, ◌≤◌, ◌<◌, ◌≡◌, refl, sym, ◌∙◌, ap, inl, inr,
  true, false, Option, some, List, [], ◌∷◌, ◌++◌, arith, ◌==◌, length, length-append, get_elem?,
  drop, bit_or, bit_and, All, Bool-cases,
}
use mathlib.Core.Path.{subst}
use mathlib.Core.List.{append_assoc}
use bcoin.Golomb.Bits.{
  bits, bits-append, bits-split, bits-mod, head_or, tail, bits_inj, or_disjoint, and_mask, high_lt,
  low_lt, high_low, join_lt,
}
use bcoin.Golomb.Reader.{BitReader, next_byte, settle, read_bit, read_across, read_byte}

abbrev pub all_bits : List ℕ → List ℕ
all_bits [] = []
all_bits (b ∷ bs) = bits 8 b ++ all_bits bs

-- The bits of the bytes from the current one on, of which it has `remain`.
abbrev pub unread_of : ℕ → List ℕ → List ℕ
unread_of remain [] = []
unread_of remain (b ∷ bs) = bits remain b ++ all_bits bs

abbrev pub unread : BitReader → List ℕ
unread r = unread_of r.remain (drop r.pos r.stream)

-- The current byte and those after it; a byte has 8 bits.
pub record At (r : BitReader) (b : ℕ) (rest : List ℕ) : Type 0 where
  pub is_drop : drop r.pos r.stream ≡ b ∷ rest
  pub is_byte : b < 2 ^ 8
  pub are_bytes : All (λ c. c < 2 ^ 8) rest
  pub is_some : 1 ≤ r.remain
  pub is_most : r.remain ≤ 8

abbrev pub IsReader : BitReader → Type 0
IsReader r = (r.remain ≤ 8) × All (λ c. c < 2 ^ 8) (drop r.pos r.stream)

drop-one :
    (l : List ℕ) (pos b : ℕ) (rest : List ℕ) → drop pos l ≡ b ∷ rest → drop (pos + 1) l ≡ rest
drop-one l pos b rest e =
    let (at, next) = at_drop l pos b rest e in
    ap (λ (t : ℕ). drop t l) {x = pos + 1} {y = suc pos} (omega arith) ∙ next

pub unread_eight : (l : List ℕ) → unread_of 8 l ≡ all_bits l
unread_eight [] = refl
unread_eight (b ∷ l) = refl

-- Where a bit is left, the reader settles on a byte, with the same bits before it.
abbrev Settles : List ℕ → Option (ℕ × BitReader) → Type 0
Settles l o =
    (b : ℕ) × (rest : List ℕ) × (r : BitReader) × (o ≡ some (b, r))
    × At r b rest
    × (bits r.remain b ++ all_bits rest ≡ l)

settle_here :
    (r : BitReader) (b : ℕ)
    → get_elem? r.stream r.pos ≡ some b
    → (r.remain == 0) ≡ false
    → settle r ≡ some (b, r)
unfolding settle
settle_here r b at n = simp (settle, at, n) refl

next_byte-some :
    (r : BitReader) (c : ℕ)
    → get_elem? r.stream (r.pos + 1) ≡ some c
    → next_byte r ≡ some (c, record r { pos = r.pos + 1; remain = 8 })
next_byte-some r c next = rw (next, next_byte) refl

settle_next :
    (r : BitReader) (b c : ℕ)
    → get_elem? r.stream r.pos ≡ some b
    → get_elem? r.stream (r.pos + 1) ≡ some c
    → (r.remain == 0) ≡ true
    → settle r ≡ some (c, record r { pos = r.pos + 1; remain = 8 })
unfolding settle
settle_next r b c at next z = simp (settle, at, z) (next_byte-some r c next)

at_one :
    (l : List ℕ) (pos b c : ℕ) (rest : List ℕ)
    → drop pos l ≡ b ∷ c ∷ rest
    → (get_elem? l (pos + 1) ≡ some c) × (drop (pos + 1) l ≡ c ∷ rest)
at_one l pos b c rest e =
    let next = drop-one l pos b (c ∷ rest) e in
    let (at, after) = at_drop l (pos + 1) c rest next in (at, next)

-- The reader has used up the current byte.
settle_used :
    (r : BitReader) (b : ℕ) (rest : List ℕ) (x : ℕ) (xs : List ℕ)
    → drop r.pos r.stream ≡ b ∷ rest
    → All (λ c. c < 2 ^ 8) rest
    → (r.remain == 0) ≡ true
    → all_bits rest ≡ x ∷ xs
    → Settles (x ∷ xs) (settle r)
settle_used r b [] x xs d a z e = cc
settle_used r b (c ∷ rest) x xs d (byte, a) z e =
    let (at, next) = at_drop r.stream r.pos b (c ∷ rest) d in
    let (at', next') = at_one r.stream r.pos b c rest d in
    (
      c,
      rest,
      record r { pos = r.pos + 1; remain = 8 },
      settle_next r b c at at' z,
      record {
        is_drop = next';
        is_byte = byte;
        are_bytes = a;
        is_some = omega arith;
        is_most = omega arith;
      },
      e,
    )

positive : (n : ℕ) → (n == 0) ≡ false → 1 ≤ n
positive n h = ground arith

none_left : (n : ℕ) → (n == 0) ≡ true → n ≡ 0
none_left n h = ground arith

settle-Settles :
    (r : BitReader) (l : List ℕ) (x : ℕ) (xs : List ℕ)
    → drop r.pos r.stream ≡ l
    → IsReader r
    → unread_of r.remain l ≡ x ∷ xs
    → Settles (x ∷ xs) (settle r)
settle-Settles r [] x xs d v e = cc
settle-Settles r (b ∷ rest) x xs d (m, a) e =
    let (byte, others) : All (λ c. c < 2 ^ 8) (b ∷ rest) = subst (All (λ c. c < 2 ^ 8)) d a in
    elim (Bool-cases (r.remain == 0)) [
      | inr n ↦
          let (at, next) = at_drop r.stream r.pos b rest d in
          (
            b,
            rest,
            r,
            settle_here r b at n,
            record {
              is_drop = d;
              is_byte = byte;
              are_bytes = others;
              is_some = positive r.remain n;
              is_most = m;
            },
            e,
          )
      | inl z ↦
          settle_used r b rest x xs d others z
            (subst (λ (t : ℕ). bits t b ++ all_bits rest ≡ x ∷ xs) (none_left r.remain z) e)
    ]

-- What a read of a number gives where the bits before the reader start with it.
abbrev pub Reads : ℕ → List ℕ → Option (ℕ × BitReader) → Type 0
Reads n xs o = (r : BitReader) × (o ≡ some (n, r)) × IsReader r × (unread r ≡ xs)

bit_read :
    (r : BitReader) (b k : ℕ) (r' : BitReader)
    → settle r ≡ some (b, r')
    → r'.remain ≡ suc k
    → read_bit r ≡ some (b / 2 ^ k % 2, record r' { remain = k })
unfolding read_bit
bit_read r b k r' e m =
    let less : r'.remain - 1 ≡ k = omega (arith, m) in
    rw (e, read_bit) (λ i. some (b / 2 ^ less i % 2, record r' { remain = less i }))

suc_of : (n : ℕ) → 1 ≤ n → (k : ℕ) × (n ≡ suc k)
suc_of n h = (n - 1, omega arith)

bit_split :
    (k b : ℕ) (rest : List ℕ)
    → (b / 2 ^ k % 2) ∷ (bits k b ++ all_bits rest) ≡ bits (suc k) b ++ all_bits rest
bit_split k b rest =
    ap (λ t. (b / 2 ^ k % 2) ∷ (t ++ all_bits rest)) (bits-mod k b)
    ∙ ap (λ t. t ++ all_bits rest) (sym (bits-split 1 k b))
    ∙ ap (λ (t : ℕ). bits t b ++ all_bits rest) {x = 1 + k} {y = suc k} (omega arith)

pub read_bit-Reads :
    (r : BitReader) (x : ℕ) (xs : List ℕ) → IsReader r → unread r ≡ x ∷ xs → Reads x xs (read_bit r)
read_bit-Reads r x xs v e =
    let (b, rest, r', s, at, same) = settle-Settles r _ x xs refl v e in
    let (k, m) = suc_of r'.remain at.is_some in
    let split : (b / 2 ^ k % 2) ∷ (bits k b ++ all_bits rest) ≡ x ∷ xs =
      bit_split k b rest ∙ ap (λ (t : ℕ). bits t b ++ all_bits rest) (sym m) ∙ same in
    (
      record r' { remain = k },
      bit_read r b k r' s m ∙ ap (λ (t : ℕ). some (t, record r' { remain = k })) (ap head_or split),
      (
        omega (arith, m, at.is_most),
        subst (All (λ c. c < 2 ^ 8)) (sym at.is_drop) (at.is_byte, at.are_bytes),
      ),
      ap (unread_of k) at.is_drop ∙ ap tail split,
    )

byte_whole :
    (r : BitReader) (b : ℕ) (r' : BitReader)
    → settle r ≡ some (b, r')
    → (r'.remain == 8) ≡ true
    → read_byte r ≡ some (b, record r' { pos = r'.pos + 1 })
unfolding read_byte
byte_whole r b r' e m = simp (read_byte, e, m) refl

across :
    (r' : BitReader) (b c : ℕ)
    → get_elem? r'.stream (r'.pos + 1) ≡ some c
    → read_across b r'
      ≡ some (
        bit_or (bit_and b (2 ^ r'.remain - 1) * 2 ^ (8 - r'.remain)) (c / 2 ^ r'.remain),
        record r' { pos = r'.pos + 1 },
      )
across r' b c at = rw (at, read_across) refl

byte_across :
    (r : BitReader) (b : ℕ) (r' : BitReader) (c : ℕ)
    → settle r ≡ some (b, r')
    → (r'.remain == 8) ≡ false
    → get_elem? r'.stream (r'.pos + 1) ≡ some c
    → read_byte r
      ≡ some (
        bit_or (bit_and b (2 ^ r'.remain - 1) * 2 ^ (8 - r'.remain)) (c / 2 ^ r'.remain),
        record r' { pos = r'.pos + 1 },
      )
unfolding read_byte
byte_across r b r' c e m at = simp (read_byte, e, m) (across r' b c at)

-- The byte that is put together from two.
module _ (b c m k : ℕ) (w : m + k ≡ 8) (byte : c < 2 ^ 8) where
  abbrev together : ℕ
  together = b % 2 ^ m * 2 ^ k + c / 2 ^ m

  part_lt : c / 2 ^ m < 2 ^ k
  part_lt = high_lt k m c (subst (λ (t : ℕ). c < 2 ^ t) {x = 8} {y = k + m} (omega arith) byte)

  together_lt : together < 2 ^ 8
  together_lt =
      subst (λ (t : ℕ). together < 2 ^ t) w
        (join_lt m k (b % 2 ^ m) (c / 2 ^ m) (low_lt m b) part_lt)

  together_lem : bit_or (bit_and b (2 ^ m - 1) * 2 ^ (8 - m)) (c / 2 ^ m) ≡ together
  together_lem =
      ap (λ (t : ℕ). bit_or (bit_and t (2 ^ m - 1) * 2 ^ (8 - m)) (c / 2 ^ m)) (high_low m b)
      ∙ ap (λ (t : ℕ). bit_or (t * 2 ^ (8 - m)) (c / 2 ^ m))
          (and_mask m (b / 2 ^ m) (b % 2 ^ m) (low_lt m b))
      ∙ ap (λ (t : ℕ). bit_or (b % 2 ^ m * 2 ^ t) (c / 2 ^ m)) {x = 8 - m} {y = k} (omega arith)
      ∙ or_disjoint k (b % 2 ^ m) (c / 2 ^ m) part_lt

  together_bits : bits m b ++ bits 8 c ≡ bits 8 together ++ bits m c
  together_bits =
      let second : bits 8 c ≡ bits k (c / 2 ^ m) ++ bits m (c % 2 ^ m) =
        ap (λ (t : ℕ). bits t c) {x = 8} {y = k + m} (omega arith) ∙ bits-split k m c in
      let whole : bits 8 together ≡ bits m (b % 2 ^ m) ++ bits k (c / 2 ^ m) =
        ap (λ (t : ℕ). bits t together) (sym w) ∙ bits-append m k (b % 2 ^ m) (c / 2 ^ m) part_lt in
      (λ i. bits-mod m b i ++ second i)
      ∙ sym (append_assoc (bits m (b % 2 ^ m)) (bits k (c / 2 ^ m)) (bits m (c % 2 ^ m)))
      ∙ sym (λ i. whole i ++ bits-mod m c i)

pub length-bits : (k n : ℕ) → length (bits k n) ≡ k
length-bits zero n = refl
length-bits (suc k) n =
    omega (arith, length-append {0} (bits k (n / 2)) (n % 2 ∷ []), length-bits k (n / 2))

eight_of : (n : ℕ) → (n == 8) ≡ true → n ≡ 8
eight_of n h = ground arith

less_of : (n : ℕ) → (n == 8) ≡ false → n ≤ 8 → n < 8
less_of n h l = ground arith

bits_short : (m b v : ℕ) (xs : List ℕ) → m < 8 → bits m b ++ [] ≡ bits 8 v ++ xs → ⊥
bits_short m b v xs h e =
    let sizes = ap length e in
    omega (arith, length-append {0} (bits m b) [], length-bits m b, sizes)

across_of :
    (r' : BitReader) (b v : ℕ) (rest xs : List ℕ) (o : Option (ℕ × BitReader))
    → At r' b rest
    → v < 2 ^ 8
    → bits r'.remain b ++ all_bits rest ≡ bits 8 v ++ xs
    → (r'.remain == 8) ≡ false
    → ((c : ℕ)
        → get_elem? r'.stream (r'.pos + 1) ≡ some c
        → o
          ≡ some (
            bit_or (bit_and b (2 ^ r'.remain - 1) * 2 ^ (8 - r'.remain)) (c / 2 ^ r'.remain),
            record r' { pos = r'.pos + 1 },
          ))
    → Reads v xs o
across_of r' b v [] xs o at l e n g =
    absurd (bits_short r'.remain b v xs (less_of r'.remain n at.is_most) e)
across_of r' b v (c ∷ rest) xs o at l e n g =
    let (here, after) = at_one r'.stream r'.pos b c rest at.is_drop in
    let (byte, others) = at.are_bytes in
    let w : r'.remain + (8 - r'.remain) ≡ 8 = omega (arith, at.is_most) in
    let (same, left) =
      bits_inj 8 (together b c r'.remain (8 - r'.remain) w byte) v
        (bits r'.remain c ++ all_bits rest) xs (together_lt b c r'.remain (8 - r'.remain) w byte) l
        (sym (
            append_assoc (bits 8 (together b c r'.remain (8 - r'.remain) w byte)) (bits r'.remain c)
              (all_bits rest))
          ∙ ap (λ t. t ++ all_bits rest) (sym (together_bits b c r'.remain (8 - r'.remain) w byte))
          ∙ append_assoc (bits r'.remain b) (bits 8 c) (all_bits rest)
          ∙ e) in
    (
      record r' { pos = r'.pos + 1 },
      g c here
          ∙ ap (λ (n : ℕ). some (n, record r' { pos = r'.pos + 1 }))
              (together_lem b c r'.remain (8 - r'.remain) w byte ∙ same),
      (at.is_most, subst (All (λ c. c < 2 ^ 8)) (sym after) at.are_bytes),
      ap (unread_of r'.remain) after ∙ left,
    )

byte_of :
    (r' : BitReader) (b v : ℕ) (rest xs : List ℕ) (o : Option (ℕ × BitReader))
    → At r' b rest
    → v < 2 ^ 8
    → bits r'.remain b ++ all_bits rest ≡ bits 8 v ++ xs
    → ((r'.remain == 8) ≡ true → o ≡ some (b, record r' { pos = r'.pos + 1 }))
    → ((c : ℕ)
        → (r'.remain == 8) ≡ false
        → get_elem? r'.stream (r'.pos + 1) ≡ some c
        → o
          ≡ some (
            bit_or (bit_and b (2 ^ r'.remain - 1) * 2 ^ (8 - r'.remain)) (c / 2 ^ r'.remain),
            record r' { pos = r'.pos + 1 },
          ))
    → Reads v xs o
byte_of r' b v rest xs o at l e f g = elim (Bool-cases (r'.remain == 8)) [
  | inl t ↦
      let full : r'.remain ≡ 8 = eight_of r'.remain t in
      let (same, left) =
        bits_inj 8 b v (all_bits rest) xs at.is_byte l
          (ap (λ (n : ℕ). bits n b ++ all_bits rest) (sym full) ∙ e) in
      let after = drop-one r'.stream r'.pos b rest at.is_drop in
      (
        record r' { pos = r'.pos + 1 },
        f t ∙ ap (λ (n : ℕ). some (n, record r' { pos = r'.pos + 1 })) same,
        (at.is_most, subst (All (λ c. c < 2 ^ 8)) (sym after) at.are_bytes),
        (λ i. unread_of (full i) (after i)) ∙ unread_eight rest ∙ left,
      )
  | inr n ↦ across_of r' b v rest xs o at l e n (λ c. g c n)
]

pub read_byte-Reads :
    (r : BitReader) (v : ℕ) (xs : List ℕ)
    → v < 2 ^ 8
    → IsReader r
    → unread r ≡ bits 8 v ++ xs
    → Reads v xs (read_byte r)
read_byte-Reads r v xs l h e =
    let (b, rest, r', s, at, same) = settle-Settles r _ _ _ refl h e in
    byte_of r' b v rest xs (read_byte r) at l same (λ t. byte_whole r b r' s t)
      (λ c n here. byte_across r b r' c s n here)
