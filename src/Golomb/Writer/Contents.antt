-- ===== src/Golomb/Writer/Contents.antt =====
-- The bits that a writer of lib/golomb/writer.js holds, and what each write appends to them.
use bcoin.Prelude.{
  ℕ, zero, suc, ◌+◌, ◌-◌, ◌*◌, ◌/◌, ◌%◌, ◌^◌, ◌≤◌, ◌<◌, ◌≡◌, refl, sym, ◌∙◌, ap, ◌⊎◌, inl, inr,
  false, List, [], ◌∷◌, ◌++◌, arith, ◌==◌, if◌then◌else◌, bit_or, All,
}
use mathlib.Core.Path.{subst}
use mathlib.Core.List.{append_assoc, append-nil}
use native.Mathlib.Nat.{two-pow-succ, one-le-pow, mod-eq_of_lt, div-le_self, mul-le-mul}
use bcoin.Golomb.Bits.{
  bits, bits-append, bits-split, double, or_disjoint, two-pow-add, high_lt, low_lt, high_low,
  join_lt,
}
use bcoin.Golomb.Writer.{
  BitWriter, new_writer, grow, or_last, put_bit, write_bit, put_byte, write_byte,
}

-- The bits of bytes, of which the last comes first.
abbrev pub stream_bits : List ℕ → List ℕ
stream_bits [] = []
stream_bits (b ∷ bs) = stream_bits bs ++ bits 8 b

-- The last byte has room for r + 1 bits below the j bits that it holds.
pub record HasRoom (content stream : List ℕ) (remain : ℕ) : Type 0 where
  pub last : ℕ
  pub others : List ℕ
  pub held : ℕ
  pub width : ℕ
  pub room : ℕ
  pub is_stream : stream ≡ last ∷ others
  pub is_last : last ≡ held * 2 ^ suc room
  pub is_held : held < 2 ^ width
  pub is_width : width + suc room ≡ 8
  pub is_remain : remain ≡ suc room
  pub is_content : content ≡ stream_bits others ++ bits width held
  pub are_bytes : All (λ b. b < 2 ^ 8) others

-- The writer holds the bits.
abbrev pub Holds : List ℕ → BitWriter → Type 0
Holds content w =
    ((w.remain ≡ 0) × (content ≡ stream_bits w.stream) × All (λ b. b < 2 ^ 8) w.stream)
    ⊎ HasRoom content w.stream w.remain

pub new_writer-Holds : Holds [] new_writer
new_writer-Holds = inl (refl, refl, tt)

grow-HasRoom :
    (content : List ℕ) (w : BitWriter)
    → Holds content w
    → HasRoom content (grow w).stream (grow w).remain
unfolding grow
grow-HasRoom content w (inl (r, e, a)) =
    rw (r, grow)
      (record {
        last = 0;
        others = w.stream;
        held = 0;
        width = 0;
        room = 7;
        is_stream = refl;
        is_last = refl;
        is_held = omega arith;
        is_width = refl;
        is_remain = refl;
        is_content = e ∙ sym (append-nil (stream_bits w.stream));
        are_bytes = a;
      })
grow-HasRoom content w (inr h) =
    let n : (w.remain == 0) ≡ false = ground (arith, h.is_remain) in rw (n, grow) h

-- The stream after a bit is put into it.
bit_stream :
    (held room bit : ℕ) (others : List ℕ)
    → bit < 2
    → (if bit == 0
        then held * 2 ^ suc room ∷ others
        else or_last (2 ^ room) (held * 2 ^ suc room ∷ others))
      ≡ (2 * held + bit) * 2 ^ room ∷ others
bit_stream held room zero others h = ap (λ (b : ℕ). b ∷ others) (omega (arith, double held room))
bit_stream held room (suc zero) others h =
    ap (λ (b : ℕ). b ∷ others)
      (or_disjoint (suc room) held (2 ^ room)
          (omega (arith, two-pow-succ room, one-le-pow room 2 (omega arith)))
        ∙ omega (arith, double held room))
bit_stream held room (suc (suc bit)) others h = absurd (omega arith)

bits-bit :
    (width held bit : ℕ)
    → bit < 2
    → bits width held ++ (bit ∷ []) ≡ bits (suc width) (2 * held + bit)
bits-bit width held bit h =
    ap (λ (t : ℕ). bits width t ++ (bit ∷ [])) {x = held} {y = (2 * held + bit) / 2} (omega arith)
    ∙ ap (λ (t : ℕ). bits width ((2 * held + bit) / 2) ++ (t ∷ [])) {x = bit}
        {y = (2 * held + bit) % 2} (omega arith)

bits_after :
    (content : List ℕ) (others : List ℕ) (width held bit : ℕ)
    → bit < 2
    → content ≡ stream_bits others ++ bits width held
    → content ++ (bit ∷ []) ≡ stream_bits others ++ bits (suc width) (2 * held + bit)
bits_after content others width held bit h e =
    ap (λ t. t ++ (bit ∷ [])) e
    ∙ append_assoc (stream_bits others) (bits width held) (bit ∷ [])
    ∙ ap (λ t. stream_bits others ++ t) (bits-bit width held bit h)

full_lt : (held width : ℕ) → held < 2 ^ width → width ≡ 8 → held * 2 ^ 0 < 2 ^ 8
full_lt held width h e = omega (arith, subst (λ (t : ℕ). held < 2 ^ t) e h)

-- What a writer holds whose last byte is now full, or has room for less.
close :
    (content : List ℕ) (others : List ℕ) (held width room : ℕ)
    → held < 2 ^ width
    → width + room ≡ 8
    → content ≡ stream_bits others ++ bits width held
    → All (λ b. b < 2 ^ 8) others
    → Holds content (record { stream = held * 2 ^ room ∷ others; remain = room })
close content others held width zero h w e a = inl (
  refl,
  e
      ∙ ap (λ (t : ℕ). stream_bits others ++ bits t held) {x = width} {y = 8} (omega arith)
      ∙ ap (λ (t : ℕ). stream_bits others ++ bits 8 t) {x = held} {y = held * 2 ^ 0} (omega arith),
  (full_lt held width h (omega arith), a),
)
close content others held width (suc room) h w e a = inr (record {
  last = held * 2 ^ suc room;
  others = others;
  held = held;
  width = width;
  room = room;
  is_stream = refl;
  is_last = refl;
  is_held = h;
  is_width = w;
  is_remain = refl;
  is_content = e;
  are_bytes = a;
})

put_bit_writer :
    (content : List ℕ) (w : BitWriter) (bit : ℕ)
    → bit < 2
    → (h : HasRoom content w.stream w.remain)
    → put_bit bit w
      ≡ record { stream = (2 * h.held + bit) * 2 ^ h.room ∷ h.others; remain = h.room }
put_bit_writer content w bit b h =
    let stream : w.stream ≡ h.held * 2 ^ suc h.room ∷ h.others =
      h.is_stream ∙ ap (λ (t : ℕ). t ∷ h.others) h.is_last in
    let remain : w.remain - 1 ≡ h.room = omega (arith, h.is_remain) in
    let result : (if bit == 0 then w.stream else or_last (2 ^ (w.remain - 1)) w.stream)
        ≡ (2 * h.held + bit) * 2 ^ h.room ∷ h.others =
      rw (remain, stream) (bit_stream h.held h.room bit h.others b) in
    λ i. record { stream = result i; remain = remain i }

put_bit-Holds :
    (content : List ℕ) (w : BitWriter) (bit : ℕ)
    → bit < 2
    → HasRoom content w.stream w.remain
    → Holds (content ++ (bit ∷ [])) (put_bit bit w)
put_bit-Holds content w bit b h =
    subst (Holds (content ++ (bit ∷ []))) (sym (put_bit_writer content w bit b h)) (
      close (content ++ (bit ∷ [])) h.others (2 * h.held + bit) (suc h.width) h.room
        (omega (arith, two-pow-succ h.width, h.is_held)) (omega (arith, h.is_width))
        (bits_after content h.others h.width h.held bit b h.is_content) h.are_bytes)

mod_of : (n a b : ℕ) → n ≡ a * 256 + b → b < 256 → n % 256 ≡ b
mod_of n a b e h = omega arith

regroup : (a b c d : List ℕ) → (a ++ b) ++ (c ++ d) ≡ (a ++ (b ++ c)) ++ d
regroup a b c d =
    append_assoc a b (c ++ d)
    ∙ ap (λ t. a ++ t) (sym (append_assoc b c d))
    ∙ sym (append_assoc a (b ++ c) d)

-- The two bytes that a byte is written to, where the last one has room for r bits below its j bits.
module _ (held j r ch : ℕ) (w : j + r ≡ 8) (h : held < 2 ^ j) (c : ch < 2 ^ 8) where
  abbrev above : ℕ
  above = ch / 2 ^ j

  abbrev below : ℕ
  below = ch % 2 ^ j

  above_lt : above < 2 ^ r
  above_lt = high_lt r j ch (subst (λ (t : ℕ). ch < 2 ^ t) {x = 8} {y = r + j} (omega arith) c)

  first_byte : bit_or (held * 2 ^ r) (ch / 2 ^ (8 - r) % 256) ≡ held * 2 ^ r + above
  first_byte =
      ap (λ (t : ℕ). bit_or (held * 2 ^ r) (ch / 2 ^ t % 256)) {x = 8 - r} {y = j} (omega arith)
      ∙ ap (λ (t : ℕ). bit_or (held * 2 ^ r) t) {x = above % 256} {y = above}
          (mod-eq_of_lt (omega (arith, div-le_self ch (2 ^ j))))
      ∙ or_disjoint r held above above_lt

  last_byte : ch * 2 ^ r % 256 ≡ below * 2 ^ r
  last_byte =
      let whole : 2 ^ j * 2 ^ r ≡ 256 = sym (two-pow-add j r) ∙ ap (λ (t : ℕ). 2 ^ t) w in
      let parts : ch * 2 ^ r ≡ (above * 2 ^ j + below) * 2 ^ r =
        ap (λ (t : ℕ). t * 2 ^ r) (high_low j ch) in
      let product : above * (2 ^ j * 2 ^ r) ≡ above * 256 = ap (λ (t : ℕ). above * t) whole in
      let small : suc below * 2 ^ r ≤ 2 ^ j * 2 ^ r =
        mul-le-mul {n₁ = suc below} {m₁ = 2 ^ r} {n₂ = 2 ^ j} {m₂ = 2 ^ r} (low_lt j ch)
          (omega arith) in
      mod_of (ch * 2 ^ r) above (below * 2 ^ r) (omega (arith, parts, product))
        (omega (arith, small, whole, one-le-pow r 2 (omega arith)))

  first_lt : held * 2 ^ r + above < 2 ^ 8
  first_lt = subst (λ (t : ℕ). held * 2 ^ r + above < 2 ^ t) w (join_lt j r held above h above_lt)

  first_bits : bits 8 (held * 2 ^ r + above) ≡ bits j held ++ bits r above
  first_bits =
      ap (λ (t : ℕ). bits t (held * 2 ^ r + above)) (sym w) ∙ bits-append j r held above above_lt

  byte_bits : bits 8 ch ≡ bits r above ++ bits j below
  byte_bits = ap (λ (t : ℕ). bits t ch) {x = 8} {y = r + j} (omega arith) ∙ bits-split r j ch

put_byte_stream :
    (content : List ℕ) (w : BitWriter) (ch : ℕ)
    → ch < 2 ^ 8
    → (h : HasRoom content w.stream w.remain)
    → (put_byte ch w).stream
      ≡ ch % 2 ^ h.width * 2 ^ suc h.room ∷ (h.held * 2 ^ suc h.room + ch / 2 ^ h.width) ∷ h.others
put_byte_stream content w ch c h =
    let stream : w.stream ≡ h.held * 2 ^ suc h.room ∷ h.others =
      h.is_stream ∙ ap (λ (t : ℕ). t ∷ h.others) h.is_last in
    let first = first_byte h.held h.width (suc h.room) ch h.is_width h.is_held c in
    let last = last_byte h.held h.width (suc h.room) ch h.is_width h.is_held c in
    ap (λ (r : ℕ). ch * 2 ^ r % 256 ∷ or_last (ch / 2 ^ (8 - r) % 256) w.stream) h.is_remain
    ∙ ap (λ t. ch * 2 ^ suc h.room % 256 ∷ or_last (ch / 2 ^ (8 - suc h.room) % 256) t) stream
    ∙ (λ i. last i ∷ first i ∷ h.others)

put_byte_bits :
    (content others : List ℕ) (held j r ch : ℕ)
    → j + r ≡ 8
    → held < 2 ^ j
    → ch < 2 ^ 8
    → content ≡ stream_bits others ++ bits j held
    → content ++ bits 8 ch
      ≡ stream_bits ((held * 2 ^ r + ch / 2 ^ j) ∷ others) ++ bits j (ch % 2 ^ j)
put_byte_bits content others held j r ch w h c e =
    (λ i. e i ++ byte_bits held j r ch w h c i)
    ∙ regroup (stream_bits others) (bits j held) (bits r (ch / 2 ^ j)) (bits j (ch % 2 ^ j))
    ∙ sym (λ i. (stream_bits others ++ first_bits held j r ch w h c i) ++ bits j (ch % 2 ^ j))

put_byte-Holds :
    (content : List ℕ) (w : BitWriter) (ch : ℕ)
    → ch < 2 ^ 8
    → HasRoom content w.stream w.remain
    → Holds (content ++ bits 8 ch) (put_byte ch w)
put_byte-Holds content w ch c h = inr (record {
  last = ch % 2 ^ h.width * 2 ^ suc h.room;
  others = (h.held * 2 ^ suc h.room + ch / 2 ^ h.width) ∷ h.others;
  held = ch % 2 ^ h.width;
  width = h.width;
  room = h.room;
  is_stream = put_byte_stream content w ch c h;
  is_last = refl;
  is_held = low_lt h.width ch;
  is_width = h.is_width;
  is_remain = h.is_remain;
  is_content =
      put_byte_bits content h.others h.held h.width (suc h.room) ch h.is_width h.is_held c
        h.is_content;
  are_bytes = (first_lt h.held h.width (suc h.room) ch h.is_width h.is_held c, h.are_bytes);
})

-- A write of a bit, and of a byte.
pub write_bit-Holds :
    (content : List ℕ) (w : BitWriter) (bit : ℕ)
    → bit < 2
    → Holds content w
    → Holds (content ++ (bit ∷ [])) (write_bit bit w)
unfolding write_bit
write_bit-Holds content w bit b h = put_bit-Holds content (grow w) bit b (grow-HasRoom content w h)

pub write_byte-Holds :
    (content : List ℕ) (w : BitWriter) (ch : ℕ)
    → ch < 2 ^ 8
    → Holds content w
    → Holds (content ++ bits 8 ch) (write_byte ch w)
unfolding write_byte
write_byte-Holds content w ch c h = put_byte-Holds content (grow w) ch c (grow-HasRoom content w h)
