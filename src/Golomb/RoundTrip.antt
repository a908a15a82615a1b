-- ===== src/Golomb/RoundTrip.antt =====
-- The writer and the reader of lib/golomb on any sequence of numbers.
use bcoin.Prelude.{
  ℕ, ◌^◌, ◌≤◌, ◌<◌, ◌≡◌, refl, sym, ◌∙◌, Option, none, some, List, [], ◌∷◌, ◌++◌, map, ℤ,
}
use mathlib.Core.Path.{subst}
use mathlib.Core.List.{append_assoc, append-nil}
use bcoin.Golomb.Bits.{bits}
use bcoin.Golomb.Writer.{BitWriter, new_writer, write_bits, render}
use bcoin.Golomb.Writer.Contents.{Holds, new_writer-Holds}
use bcoin.Golomb.Writer.Numbers.{write_bits-Holds}
use bcoin.Golomb.Reader.{BitReader, new_reader, to_int32, read_bits}
use bcoin.Golomb.Reader.Unread.{IsReader, unread}
use bcoin.Golomb.Reader.Words.{read_pattern-Reads}
use bcoin.Golomb.Filter.Membership.{render-unread}

-- A number with the count of its bits.
pub record Field : Type 0 where
  pub count : ℕ
  pub value : ℕ

abbrev pub Fits : List Field → Type 0
Fits [] = Unit
Fits (f ∷ fields) = (f.count ≤ 32) × (f.value < 2 ^ f.count) × Fits fields

-- Calls of `writeBits`, one for each field.
unfoldable pub write_fields : List Field → BitWriter → Option BitWriter
write_fields [] w = some w
write_fields (f ∷ fields) w = elim (write_bits f.value f.count w) [
  | none ↦ none
  | some w' ↦ write_fields fields w'
]

-- Calls of `readBits`, one for each field, of which only the count is used.
unfoldable pub read_fields : List Field → BitReader → Option (List ℤ)
read_fields [] r = some []
read_fields (f ∷ fields) r = elim (read_bits f.count r) [
  | none ↦ none
  | some (value, r') ↦ elim (read_fields fields r') [
    | none ↦ none
    | some rest ↦ some (value ∷ rest)
  ]
]

abbrev field_bits : List Field → List ℕ
field_bits [] = []
field_bits (f ∷ fields) = bits f.count f.value ++ field_bits fields

write_fields-Holds :
    (fields : List Field) (content : List ℕ) (w : BitWriter)
    → Fits fields
    → Holds content w
    → (w' : BitWriter) × (write_fields fields w ≡ some w') × Holds (content ++ field_bits fields) w'
unfolding write_fields
write_fields-Holds [] content w f h = (w, refl, subst (λ t. Holds t w) (sym (append-nil content)) h)
write_fields-Holds (f ∷ fields) content w (c, v, a) h =
    let (w', e, h') = write_bits-Holds content w f.value f.count c v h in
    let (w'', e', h'') = write_fields-Holds fields (content ++ bits f.count f.value) w' a h' in
    (
      w'',
      rw (e, write_fields) e',
      subst (λ t. Holds t w'') (append_assoc content (bits f.count f.value) (field_bits fields))
          h'',
    )

read_fields-some :
    (fields : List Field) (r : BitReader) (pad : List ℕ)
    → Fits fields
    → IsReader r
    → unread r ≡ field_bits fields ++ pad
    → read_fields fields r ≡ some (map (λ f. to_int32 f.value) fields)
unfolding read_fields read_bits
read_fields-some [] r pad f i e = refl
read_fields-some (f ∷ fields) r pad (c, v, a) i e =
    let (r', t, i', e') =
      read_pattern-Reads f.count f.value r (field_bits fields ++ pad) c v i
        (e ∙ append_assoc (bits f.count f.value) (field_bits fields) pad) in
    rw (t, read_fields, read_fields-some fields r' pad a i' e') refl

-- Numbers of at most 32 bits each are written one after the other, whatever their counts. From the
-- rendered bytes the same counts read each of them back as an int32: as itself where it is below
-- 2^31, and else as the number minus 2^32.
pub read_fields-write_fields :
    (fields : List Field)
    → Fits fields
    → (w : BitWriter) × (write_fields fields new_writer ≡ some w)
      × (read_fields fields (new_reader (render w)) ≡ some (map (λ f. to_int32 f.value) fields))
read_fields-write_fields fields f =
    let (w, e, h) = write_fields-Holds fields [] new_writer f new_writer-Holds in
    let (i, pad, all, size) = render-unread (field_bits fields) w h in
    (w, e, read_fields-some fields (new_reader (render w)) pad f i all)
