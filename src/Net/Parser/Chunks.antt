-- ===== src/Net/Parser/Chunks.antt =====
-- Where a connection cuts its bytes into pieces makes no difference to the parser.
use bcoin.Prelude.{
  ℕ, zero, suc, ◌+◌, ◌*◌, ◌≤◌, ◌≡◌, ◌⊎◌, refl, sym, ap, ◌∙◌, true, false, Option, none, some, List,
  [], ◌++◌, inl, inr, arith, ltb, length, length-append, Bool-cases, Option-cases,
}
use mathlib.Core.List.{append_assoc}
use bcoin.Script.Types.{Bytes}
use bcoin.Net.Parser.{Wire, Parser, Thrown, Outcome, Event, after, push, feed}
use bcoin.Net.Parser.Stream.{
  Stream, view, extend, consume, viewed, seen, turn_of, next_of, consume-short, consume-throw,
  consume-next, consume-drain, take-drop-within,
}
use bcoin.Net.Parser.Validity.{IsValid, feed_ends, view-push, push-counted}

module _ (wire : Wire) where
  abbrev pub prepend : List (Event wire) → Outcome wire Stream → Outcome wire Stream
  prepend events o = record o { events = events ++ o.events }

  -- How a run of the loop began.
  abbrev pub Began : ℕ → Stream → Outcome wire Stream → Type 0
  Began fuel s o =
      ((ltb (length s.buffered) s.framing.waiting ≡ true)
        × (o ≡ record { state = s; events = []; thrown = none }))
      ⊎ ((ltb (length s.buffered) s.framing.waiting ≡ false)
          × (((e : Thrown) × ((turn_of wire s).thrown ≡ some e)
                × (o ≡ record {
                  state = next_of wire s;
                  events = (turn_of wire s).events;
                  thrown = some e;
                }))
              ⊎ (((turn_of wire s).thrown ≡ none)
                  × ((rest : Outcome wire Stream) × (consume wire fuel (next_of wire s) ≡ some rest)
                      × (o ≡ prepend (turn_of wire s).events rest)))))

  after-some :
      (events : List (Event wire)) (x : Option (Outcome wire Stream)) (o : Outcome wire Stream)
      → after wire events x ≡ some o
      → (rest : Outcome wire Stream) × (x ≡ some rest) × (o ≡ prepend events rest)
  after-some events none o e = cc e
  after-some events (some rest) o e = (rest, refl, cc e)

  pub consume-Began :
      (fuel : ℕ) (s : Stream) (o : Outcome wire Stream)
      → consume wire (suc fuel) s ≡ some o
      → Began fuel s o
  consume-Began fuel s o h = elim (Bool-cases (ltb (length s.buffered) s.framing.waiting)) [
    | inl short ↦ inl (short, cc (consume-short wire fuel s short, h))
    | inr long ↦ elim (Option-cases (turn_of wire s).thrown) [
      | inl t ↦ inr (
        long,
        inr (
          t,
          after-some (turn_of wire s).events (consume wire fuel (next_of wire s)) o
              (sym (consume-next wire fuel s long t) ∙ h),
        ),
      )
      | inr (e, t) ↦ inr (long, inl (e, t, cc (consume-throw wire fuel s e long t, h)))
    ]
  ]

  -- More fuel changes nothing.
  consume-more :
      (f n : ℕ) (s : Stream) (o : Outcome wire Stream)
      → n ≤ f
      → consume wire n s ≡ some o
      → consume wire f s ≡ some o
  unfolding consume
  consume-more f zero s o h e = cc e
  consume-more zero (suc n) s o h e = absurd (omega (arith, h))
  consume-more (suc f) (suc n) s o h e = elim (consume-Began n s o e) [
    | inl (short, d) ↦ consume-short wire f s short ∙ ap some (sym d)
    | inr (long, inl (t, throws, d)) ↦ consume-throw wire f s t long throws ∙ ap some (sym d)
    | inr (long, inr (throws, (rest, r, d))) ↦
        consume-next wire f s long throws
        ∙ ap (after wire (turn_of wire s).events)
            (consume-more f n (next_of wire s) rest (omega arith) r)
        ∙ ap some (sym d)
  ]

  pub consume-agree :
      (n m : ℕ) (s : Stream) (o o' : Outcome wire Stream)
      → consume wire n s ≡ some o
      → consume wire m s ≡ some o'
      → o ≡ o'
  consume-agree n m s o o' e e' =
      cc (consume-more (n + m) n s o (omega arith) e, consume-more (n + m) m s o' (omega arith) e')

  -- A turn takes the same bytes when more bytes follow.
  pub turn-extend :
      (s : Stream) (bytes : Bytes)
      → ltb (length s.buffered) s.framing.waiting ≡ false
      → (turn_of wire (extend s bytes) ≡ turn_of wire s)
        × (next_of wire (extend s bytes) ≡ extend (next_of wire s) bytes)
        × (ltb (length (extend s bytes).buffered) s.framing.waiting ≡ false)
  turn-extend s bytes long =
      let (t, d) = take-drop-within s.framing.waiting s.buffered bytes (ground arith) in
      (rw t refl, rw (t, d) refl, ground (arith, length-append s.buffered bytes))

  pub consume-zero : (s : Stream) → consume wire zero s ≡ none
  unfolding consume
  consume-zero s = refl

  turn-rest :
      (s : Stream) (bytes : Bytes) (rest o o' : Outcome wire Stream)
      → o ≡ prepend (turn_of wire s).events rest
      → prepend (turn_of wire s).events (prepend rest.events o') ≡ prepend o.events o'
  turn-rest s bytes rest o o' d =
      ap (λ (v : List (Event wire)). record o' { events = v })
        (sym (append_assoc (turn_of wire s).events rest.events o'.events)
          ∙ ap (λ v. v.events ++ o'.events) (sym d))

  pub consume-extend :
      (f n m : ℕ) (s : Stream) (bytes : Bytes) (o o' : Outcome wire Stream)
      → n + m ≤ f
      → consume wire n s ≡ some o
      → o.thrown ≡ none
      → consume wire m (extend o.state bytes) ≡ some o'
      → consume wire f (extend s bytes) ≡ some (prepend o.events o')
  consume-extend f zero m s bytes o o' h e t e' = cc (e, consume-zero s)
  consume-extend zero (suc n) m s bytes o o' h e t e' = absurd (omega (arith, h))
  consume-extend (suc f) (suc n) m s bytes o o' h e t e' = elim (consume-Began n s o e) [
    | inl (short, d) ↦
        consume-more (suc f) m (extend s bytes) o' (omega (arith, h))
          (ap (λ v. consume wire m (extend v.state bytes)) (sym d) ∙ e')
        ∙ ap (λ v. some (prepend v.events o')) (sym d)
    | inr (long, inl (x, throws, d)) ↦ cc (sym (ap (λ v. v.thrown) d) ∙ t)
    | inr (long, inr (throws, (rest, r, d))) ↦
        let (same, next, long') = turn-extend s bytes long in
        consume-next wire f (extend s bytes) long' (ap (λ v. v.thrown) same ∙ throws)
        ∙ ap (λ v. after wire v.events (consume wire f (next_of wire (extend s bytes)))) same
        ∙ ap (λ v. after wire (turn_of wire s).events (consume wire f v)) next
        ∙ ap (after wire (turn_of wire s).events) (
            consume-extend f n m (next_of wire s) bytes rest o' (omega (arith, h)) r
              (sym (ap (λ v. v.thrown) d) ∙ t)
              (ap (λ v. consume wire m (extend v.state bytes)) (sym d) ∙ e'))
        ∙ ap some (turn-rest s bytes rest o o' d)
  ]

  -- What `feed` ends with, `consume` ends with.
  pub consume-feed :
      (chunk : Bytes) (p : Parser) (o : Outcome wire Parser)
      → IsValid p
      → feed wire chunk p ≡ some o
      → (fuel : ℕ) × (consume wire fuel (extend (view p) chunk) ≡ some (viewed wire o))
  unfolding feed
  consume-feed chunk p o v e =
      let p' = push wire chunk p in
      (
        2 * p'.total + 2,
        ap (consume wire (2 * p'.total + 2)) (sym (view-push wire chunk p))
            ∙ sym (consume-drain wire (2 * p'.total + 2) p' (push-counted wire chunk p v.counted))
            ∙ ap (seen wire) e,
      )

  -- Bytes fed in two pieces, the first of which throws nothing, have the effect of the bytes fed
  -- in one: the events are those of the first piece followed by those of the second, the parser is
  -- left with the same bytes and the same header, and it throws if the second piece does.
  pub feed-append :
      (a b : Bytes) (p : Parser) (o o' : Outcome wire Parser)
      → IsValid p
      → feed wire a p ≡ some o
      → o.thrown ≡ none
      → feed wire b o.state ≡ some o'
      → (whole : Outcome wire Parser) × (feed wire (a ++ b) p ≡ some whole)
        × (whole.events ≡ o.events ++ o'.events)
        × (view whole.state ≡ view o'.state)
        × (whole.thrown ≡ o'.thrown)
  feed-append a b p o o' v e t e' =
      let (first, f, fed) = feed_ends wire a p v in
      let (whole, w, fed') = feed_ends wire (a ++ b) p v in
      let only : first ≡ o = cc (e, f) in
      let (n, c) = consume-feed a p o v e in
      let (m, c') = consume-feed b o.state o' (rw only at fed.0) e' in
      let (k, d) = consume-feed (a ++ b) p whole v w in
      let same =
        consume-agree k (n + m) (extend (view p) (a ++ b)) (viewed wire whole)
          (prepend o.events (viewed wire o')) d
          (ap (λ (l : Bytes). consume wire (n + m) (record { buffered = l; framing = p.framing }))
              (sym (append_assoc (view p).buffered a b))
            ∙ consume-extend (n + m) n m (extend (view p) a) b (viewed wire o) (viewed wire o')
                (omega arith) c t c') in
      (whole, w, ap (λ u. u.events) same, ap (λ u. u.state) same, ap (λ u. u.thrown) same)
