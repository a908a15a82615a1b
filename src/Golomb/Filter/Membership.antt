-- ===== src/Golomb/Filter/Membership.antt =====
-- A filter of lib/golomb/golomb.js matches the items that it was made from.
use bcoin.Prelude.{
  ℕ, suc, ◌+◌, ◌-◌, ◌*◌, ◌/◌, ◌%◌, ◌^◌, ◌≤◌, ◌<◌, ◌≡◌, refl, sym, ◌∙◌, ap, inl, inr, Bool, true,
  false, not, some, List, [], ◌∷◌, ◌++◌, map, arith, ltb, leb, ◌==◌, length, length-append, All,
  Bool-cases,
}
use mathlib.Core.Path.{subst}
use mathlib.Core.List.{append_assoc, append-nil, reverse, reverse-cons, Memᴰ}
use native.Mathlib.Nat.{one-le-pow}
use bcoin.Golomb.Bits.{bits, bits-append, join_lt}
use bcoin.Golomb.Writer.{BitWriter, new_writer, render}
use bcoin.Golomb.Writer.Contents.{Holds, stream_bits, new_writer-Holds}
use bcoin.Golomb.Reader.{new_reader}
use bcoin.Golomb.Reader.Unread.{IsReader, unread, all_bits, unread_eight}
use bcoin.Golomb.Filter.{
  U64, IsU64, insert_value, sort_values, write_values, Golomb, from_items, match_loop, match_item,
}
use bcoin.Golomb.Filter.Encoding.{code, encode, ones, Ascends, write_values-Holds, leb_of}
use bcoin.Golomb.Filter.Matching.{match_loop-found, match_none}

le_of : (a b : ℕ) → leb a b ≡ true → a ≤ b
le_of a b h = ground arith

ge_of : (a b : ℕ) → leb a b ≡ false → b ≤ a
ge_of a b h = ground arith

keep_Mem :
    (v y x : ℕ) (xs : List ℕ)
    → Memᴰ y (x ∷ xs)
    → (Memᴰ y xs → Memᴰ y (insert_value v xs))
    → Memᴰ y (x ∷ insert_value v xs)
keep_Mem v y x xs (Memᴰ.head e) f = Memᴰ.head e
keep_Mem v y x xs (Memᴰ.tail m) f = Memᴰ.tail (f m)

-- The sort.
insert_value-Ascends :
    (v last : ℕ) (xs : List ℕ)
    → last ≤ v
    → v < 2 ^ 64
    → Ascends last xs
    → Ascends last (insert_value v xs)
insert_value-Ascends v last [] h l a = (h, l, tt)
insert_value-Ascends v last (x ∷ xs) h l (le, word, a) = elim (Bool-cases (leb v x)) [
  | inl t ↦ rw t (h, l, (le_of v x t, word, a))
  | inr f ↦ rw f (le, word, insert_value-Ascends v x xs (ge_of v x f) l a)
]

sort_values-Ascends :
    (values : List ℕ) → All (λ v. v < 2 ^ 64) values → Ascends 0 (sort_values values)
sort_values-Ascends [] a = tt
sort_values-Ascends (v ∷ values) (l, a) =
    insert_value-Ascends v 0 (sort_values values) (omega arith) l (sort_values-Ascends values a)

insert_value-here : (v : ℕ) (xs : List ℕ) → Memᴰ v (insert_value v xs)
insert_value-here v [] = Memᴰ.head refl
insert_value-here v (x ∷ xs) = elim (Bool-cases (leb v x)) [
  | inl t ↦ rw t (Memᴰ.head refl)
  | inr f ↦ rw f (Memᴰ.tail (insert_value-here v xs))
]

insert_value-Mem : (v y : ℕ) (xs : List ℕ) → Memᴰ y xs → Memᴰ y (insert_value v xs)
insert_value-Mem v y [] m = elim m [ ]
insert_value-Mem v y (x ∷ xs) m = elim (Bool-cases (leb v x)) [
  | inl t ↦ rw t (Memᴰ.tail m)
  | inr f ↦ rw f (keep_Mem v y x xs m (insert_value-Mem v y xs))
]

sort_values-Mem : (x : ℕ) (values : List ℕ) → Memᴰ x values → Memᴰ x (sort_values values)
sort_values-Mem x [] m = elim m [ ]
sort_values-Mem x (v ∷ values) (Memᴰ.head e) =
    subst (λ (t : ℕ). Memᴰ t (insert_value v (sort_values values))) (sym e)
      (insert_value-here v (sort_values values))
sort_values-Mem x (v ∷ values) (Memᴰ.tail m) =
    insert_value-Mem v x (sort_values values) (sort_values-Mem x values m)

map-Mem {ℓ} : {A : Type ℓ} (f : A → ℕ) (x : A) (xs : List A) → Memᴰ x xs → Memᴰ (f x) (map f xs)
map-Mem f x [] m = elim m [ ]
map-Mem f x (y ∷ xs) (Memᴰ.head e) = Memᴰ.head (ap f e)
map-Mem f x (y ∷ xs) (Memᴰ.tail m) = Memᴰ.tail (map-Mem f x xs m)

-- The bytes of a writer, as a reader gets them.
all_bits-snoc : (xs : List ℕ) (b : ℕ) → all_bits (xs ++ (b ∷ [])) ≡ all_bits xs ++ bits 8 b
all_bits-snoc [] b = append-nil (bits 8 b)
all_bits-snoc (x ∷ xs) b =
    ap (λ t. bits 8 x ++ t) (all_bits-snoc xs b)
    ∙ sym (append_assoc (bits 8 x) (all_bits xs) (bits 8 b))

all_bits-reverse : (l : List ℕ) → all_bits (reverse l) ≡ stream_bits l
all_bits-reverse [] = refl
all_bits-reverse (b ∷ l) =
    ap all_bits (reverse-cons b l)
    ∙ all_bits-snoc (reverse l) b
    ∙ ap (λ t. t ++ bits 8 b) (all_bits-reverse l)

All-snoc :
    (xs : List ℕ) (b : ℕ)
    → All (λ c. c < 2 ^ 8) xs
    → b < 2 ^ 8
    → All (λ c. c < 2 ^ 8) (xs ++ (b ∷ []))
All-snoc [] b a h = (h, tt)
All-snoc (x ∷ xs) b (l, a) h = (l, All-snoc xs b a h)

All-reverse : (l : List ℕ) → All (λ c. c < 2 ^ 8) l → All (λ c. c < 2 ^ 8) (reverse l)
All-reverse [] a = tt
All-reverse (b ∷ l) (h, a) =
    subst (All (λ c. c < 2 ^ 8)) (sym (reverse-cons b l))
      (All-snoc (reverse l) b (All-reverse l a) h)

length-all_bits : (l : List ℕ) → length (all_bits l) ≡ 8 * length l
length-all_bits [] = omega arith
length-all_bits (b ∷ l) =
    omega (arith, length-append {0} (bits 8 b) (all_bits l), length-all_bits l)

-- The stream of a writer holds the bits that were written, and zeros behind them.
stream-padded :
    (content : List ℕ) (w : BitWriter)
    → Holds content w
    → All (λ c. c < 2 ^ 8) w.stream × (pad : List ℕ) × (stream_bits w.stream ≡ content ++ pad)
stream-padded content w (inl (r, e, a)) = (a, [], sym e ∙ sym (append-nil content))
stream-padded content w (inr h) =
    let last_bits : bits 8 h.last ≡ bits h.width h.held ++ bits (suc h.room) 0 =
      ap (bits 8) (h.is_last ∙ omega arith)
      ∙ ap (λ (n : ℕ). bits n (h.held * 2 ^ suc h.room + 0)) (sym h.is_width)
      ∙ bits-append h.width (suc h.room) h.held 0 (one-le-pow (suc h.room) 2 (omega arith)) in
    let byte : h.last < 2 ^ 8 =
      subst (λ (t : ℕ). t < 2 ^ 8) {x = h.held * 2 ^ suc h.room + 0} (omega (arith, h.is_last))
        (subst (λ (t : ℕ). h.held * 2 ^ suc h.room + 0 < 2 ^ t) h.is_width
          (join_lt h.width (suc h.room) h.held 0 h.is_held
            (one-le-pow (suc h.room) 2 (omega arith)))) in
    (
      subst (All (λ c. c < 2 ^ 8)) (sym h.is_stream) (byte, h.are_bytes),
      bits (suc h.room) 0,
      ap stream_bits h.is_stream
          ∙ ap (λ t. stream_bits h.others ++ t) last_bits
          ∙ sym (append_assoc (stream_bits h.others) (bits h.width h.held) (bits (suc h.room) 0))
          ∙ ap (λ t. t ++ bits (suc h.room) 0) (sym h.is_content),
    )

-- What a reader of the rendered stream has before it.
pub render-unread :
    (content : List ℕ) (w : BitWriter)
    → Holds content w
    → IsReader (new_reader (render w))
      × (pad : List ℕ) × (unread (new_reader (render w)) ≡ content ++ pad)
      × (length (content ++ pad) ≡ 8 * length (render w))
render-unread content w h =
    let (a, pad, e) = stream-padded content w h in
    let all : unread (new_reader (render w)) ≡ content ++ pad =
      unread_eight (render w) ∙ all_bits-reverse w.stream ∙ e in
    (
      (omega arith, All-reverse w.stream a),
      pad,
      all,
      ap length (sym all ∙ unread_eight (render w)) ∙ length-all_bits (render w),
    )

length-encode : (p last : ℕ) (values : List ℕ) → length values ≤ length (encode p last values)
length-encode p last [] = omega arith
length-encode p last (v ∷ values) = omega (
  arith,
  length-append {0} (code p (v - last)) (encode p v values),
  length-append {0} (ones ((v - last) / 2 ^ p)) (0 ∷ bits p ((v - last) % 2 ^ p)),
  length-encode p v values,
)

All-hashes {ℓ} :
    {Item : Type ℓ} (sipmod : Item → ℕ → ℕ) (m : ℕ) (items : List Item)
    → ((x : Item) (n : ℕ) → sipmod x n < 2 ^ 64)
    → All (λ v. v < 2 ^ 64) (map (λ x. sipmod x m) items)
All-hashes sipmod m [] h = tt
All-hashes sipmod m (x ∷ items) h = (h x m, All-hashes sipmod m items h)

not_ahead : (n : ℕ) → (n == 0) ≡ true → ltb 0 n ≡ false
not_ahead n h = ground arith

some_word : (n : ℕ) → (n == 0) ≡ false → 0 < n
some_word n h = ground arith

module _ {ℓ} {Item : Type ℓ} (u : U64) (laws : IsU64 u) (p : ℕ) (small : p < 32) (factor : ℕ)
    (sipmod : Item → ℕ → ℕ) (hashes : (x : Item) (n : ℕ) → sipmod x n < 2 ^ 64) where
  -- A member that hashes to zero is not ahead of the start.
  abbrev verdict : ℕ → Bool
  verdict term = not (term == 0)

  match_of :
      (values : List ℕ) (term : ℕ) (w : BitWriter)
      → Ascends 0 values
      → Holds (encode p 0 values) w
      → Memᴰ term values
      → match_loop u p factor sipmod
          (8 * length (render w) + 1)
          (8 * length (render w) + 1)
          term
          0
          (new_reader (render w))
        ≡ some (verdict term)
  match_of values term w a h x =
      let (i, pad, e, size) = render-unread (encode p 0 values) w h in
      let long = length-encode p 0 values in
      let more = length-append {0} (encode p 0 values) pad in
      elim (Bool-cases (term == 0)) [
        | inl z ↦
            ap
              (λ (f : ℕ).
                match_loop u p factor sipmod f (8 * length (render w) + 1) term 0
                  (new_reader (render w)))
              {x = 8 * length (render w) + 1} {y = suc (8 * length (render w))} (omega arith)
            ∙ match_none u laws p small factor sipmod (8 * length (render w))
                (8 * length (render w) + 1) term 0 (new_reader (render w))
                (laws.lt_law 0 term ∙ not_ahead term z)
            ∙ ap (λ t. some (not t)) (sym z)
        | inr f ↦
            match_loop-found u laws p small factor sipmod values (8 * length (render w) + 1)
              (8 * length (render w) + 1) term 0 (new_reader (render w)) pad
              (omega (arith, long, more, size)) (omega (arith, size)) a i e (some_word term f) x
            ∙ ap (λ t. some (not t)) (sym f)
      ]

  abbrev values_of : List Item → List ℕ
  values_of items = sort_values (map (λ x. sipmod x (u.mul factor (length items))) items)

  from_items-some :
      (items : List Item) (w : BitWriter)
      → length items ≤ 4294967295
      → write_values u p factor sipmod 0 (values_of items) new_writer ≡ some w
      → from_items u p factor sipmod items
        ≡ some (record { n = length items; m = u.mul factor (length items); bytes = render w })
  unfolding from_items
  from_items-some items w l e = rw (leb_of (length items) 4294967295 l, from_items, e) refl

-- Whatever the items are that a filter is made from, at most 2^32 - 1, with P below 32 and hashes
-- of 64 bits: fromItems makes a filter, and match finds each of the items in it whose hash is not
-- zero. For an item whose hash is zero, match answers false.
pub from_items-match_item {ℓ} :
    {Item : Type ℓ} (u : U64) (p factor : ℕ) (sipmod : Item → ℕ → ℕ) (items : List Item)
    → IsU64 u
    → p < 32
    → ((x : Item) (n : ℕ) → sipmod x n < 2 ^ 64)
    → length items ≤ 4294967295
    → (filter : Golomb) × (from_items u p factor sipmod items ≡ some filter)
      × ((x : Item)
          → Memᴰ x items
          → match_item u p factor sipmod filter x ≡ some (not (sipmod x filter.m == 0)))
unfolding match_item
from_items-match_item u p factor sipmod items laws small hashes l =
    let m : ℕ = u.mul factor (length items) in
    let values : List ℕ = values_of u laws p small factor sipmod hashes items in
    let ascends =
      sort_values-Ascends _ (All-hashes sipmod (u.mul factor (length items)) items hashes) in
    let (w, done, holds) =
      write_values-Holds u laws p small factor sipmod values 0 [] new_writer ascends
        new_writer-Holds in
    (
      record { n = length items; m = u.mul factor (length items); bytes = render w },
      from_items-some u laws p small factor sipmod hashes items w l done,
      λ x in_items.
          match_of u laws p small factor sipmod hashes values (sipmod x m) w ascends holds
            (sort_values-Mem (sipmod x m) _ (map-Mem (λ y. sipmod y m) x items in_items)),
    )
