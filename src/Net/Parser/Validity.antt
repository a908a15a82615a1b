-- ===== src/Net/Parser/Validity.antt =====
-- The invariant of the parser, and that `feed` ends: each turn of the loop takes a header off the
-- buffer or gives up the header that it has.
use bcoin.Prelude.{
  ℕ, zero, suc, ◌+◌, ◌*◌, ◌≤◌, ◌<◌, ◌≡◌, ◌⊎◌, refl, sym, ap, ◌∙◌, false, Option, none, some, List,
  [], ◌∷◌, ◌++◌, inl, inr, arith, ltb, length, take, length-append, Bool-cases, Option-cases,
  length-take, length-drop,
}
use mathlib.Core.List.{append-nil, append_assoc}
use bcoin.Script.Types.{Bytes}
use bcoin.Net.Parser.{
  Wire, Header, Framing, Parser, invalid_padding, Outcome, max_message, parse_size, parse_header,
  parse, after, drain, push, feed,
}
use bcoin.Net.Parser.Stream.{
  Stream, joined, view, extend, consume, viewed, drain-consume, turn_of, next_of, consume-short,
  consume-throw, consume-next,
}

-- Without a header 24 bytes are awaited, with one the size that it names; never more than a message.
abbrev pub IsFramed : Framing → Type 0
IsFramed f = (24 ≤ max_message) × (f.waiting ≤ max_message) × (f.header ≡ none → f.waiting ≡ 24)

pub record IsValid (p : Parser) : Type 0 where
  pub counted : p.total ≡ length (joined p.pending)
  pub framed : IsFramed p.framing

-- What is left to do: two for each byte, one for a header.
abbrev owed : Option Header → ℕ
owed none = 0
owed (some h) = 1

owed-le : (h : Option Header) → owed h ≤ 1
owed-le none = omega arith
owed-le (some h) = omega arith

abbrev work : Stream → ℕ
work s = 2 * length s.buffered + owed s.framing.header

module _ (wire : Wire) where
  -- A turn keeps the framing, gives up a header, and throws nothing but the exception of the
  -- padding.
  parse-IsFramed :
      (f : Framing) (bytes : Bytes)
      → IsFramed f
      → length bytes ≡ f.waiting
      → IsFramed (parse wire f bytes).state
        × (owed f.header + owed (parse wire f bytes).state.header ≤ 1)
        × (((parse wire f bytes).thrown ≡ none)
            ⊎ ((parse wire f bytes).thrown ≡ some invalid_padding))
  unfolding parse parse_header parse_size
  parse-IsFramed f bytes framed n = ground arith

  -- The loop is over: the buffer is too short for another turn, or the padding was wrong.
  abbrev pub Ended : Outcome wire Stream → Type 0
  Ended o =
      IsFramed o.state.framing
      × (((o.thrown ≡ none) × (length o.state.buffered < o.state.framing.waiting))
          ⊎ (o.thrown ≡ some invalid_padding))

  length-chunk :
      (s : Stream)
      → ltb (length s.buffered) s.framing.waiting ≡ false
      → length (take s.framing.waiting s.buffered) ≡ s.framing.waiting
  length-chunk s long = ground (arith, length-take s.framing.waiting s.buffered)

  work-next_of :
      (s : Stream)
      → IsFramed s.framing
      → ltb (length s.buffered) s.framing.waiting ≡ false
      → work (next_of wire s) < work s
  work-next_of s framed long =
      let (f, o, t) =
        parse-IsFramed s.framing (take s.framing.waiting s.buffered) framed (length-chunk s long) in
      elim (Option-cases s.framing.header) [
        | inl e ↦ ground (arith, framed.2 e, length-drop s.framing.waiting s.buffered)
        | inr (h, e) ↦ ground (arith, length-drop s.framing.waiting s.buffered)
      ]

  pub consume-Ended :
      (fuel : ℕ) (s : Stream)
      → IsFramed s.framing
      → work s < fuel
      → (o : Outcome wire Stream) × (consume wire fuel s ≡ some o) × Ended o
  consume-Ended zero s framed h = elim h [ ]
  consume-Ended (suc fuel) s framed h =
      elim (Bool-cases (ltb (length s.buffered) s.framing.waiting)) [
        | inl short ↦ (
          record { state = s; events = []; thrown = none },
          consume-short wire fuel s short,
          (framed, inl (refl, ground arith)),
        )
        | inr long ↦
            let (f, o, t) =
              parse-IsFramed s.framing (take s.framing.waiting s.buffered) framed
                (length-chunk s long) in
            elim t [
              | inl t ↦
                  let (o, e, (framed', d)) =
                    consume-Ended fuel (next_of wire s) f
                      (omega (arith, work-next_of s framed long)) in
                  (
                    record o { events = (turn_of wire s).events ++ o.events },
                    consume-next wire fuel s long t ∙ ap (after wire (turn_of wire s).events) e,
                    (framed', d),
                  )
              | inr t ↦ (
                record {
                  state = next_of wire s;
                  events = (turn_of wire s).events;
                  thrown = some invalid_padding;
                },
                consume-throw wire fuel s invalid_padding long t,
                (f, inr refl),
              )
            ]
      ]

  pub consume-ends :
      (s : Stream)
      → IsFramed s.framing
      → (fuel : ℕ) × (o : Outcome wire Stream) × (consume wire fuel s ≡ some o)
  consume-ends s framed =
      let (o, e, ended) = consume-Ended (suc (work s)) s framed (omega arith) in
      (suc (work s), o, e)

  -- What `feed` leaves behind.
  abbrev pub Fed : Outcome wire Parser → Type 0
  Fed o =
      IsValid o.state
      × (((o.thrown ≡ none) × (o.state.total < o.state.framing.waiting))
          ⊎ (o.thrown ≡ some invalid_padding))

  push-joined : (cs : List Bytes) (c : Bytes) → joined (cs ++ (c ∷ [])) ≡ joined cs ++ c
  push-joined [] c = append-nil c
  push-joined (d ∷ cs) c = rw (push-joined cs c) (sym (append_assoc d (joined cs) c))

  pub view-push : (c : Bytes) (p : Parser) → view (push wire c p) ≡ extend (view p) c
  view-push c p =
      ap (λ (b : Bytes). record { buffered = b; framing = p.framing }) (push-joined p.pending c)

  pub push-counted :
      (c : Bytes) (p : Parser)
      → p.total ≡ length (joined p.pending)
      → (push wire c p).total ≡ length (joined (push wire c p).pending)
  push-counted c p e =
      rw (push-joined p.pending c) (omega (arith, e, length-append (joined p.pending) c))

  viewed-Fed :
      (o : Outcome wire Parser)
      → o.state.total ≡ length (joined o.state.pending)
      → Ended (viewed wire o)
      → Fed o
  viewed-Fed o counted (framed, inl (t, h)) =
      (record { counted = counted; framed = framed }, inl (t, omega (arith, counted, h)))
  viewed-Fed o counted (framed, inr t) = (record { counted = counted; framed = framed }, inr t)

  pub Ended-Fed :
      (fuel : ℕ) (p : Parser) (s : Outcome wire Stream)
      → p.total ≡ length (joined p.pending)
      → consume wire fuel (view p) ≡ some s
      → Ended s
      → (o : Outcome wire Parser) × (drain wire fuel p ≡ some o) × (viewed wire o ≡ s) × Fed o
  Ended-Fed fuel p s counted e ended =
      let (o, d, same, counted') = drain-consume wire fuel p s counted e in
      (o, d, same, viewed-Fed o counted' (rw (sym same) at ended))

  -- `feed` ends, from any valid parser and whatever the bytes: the parser is valid again and too
  -- few bytes are left for another turn, or the padding of a command was wrong and `feed` threw.
  -- No assertion fails, and no element is read of an empty array.
  pub feed_ends :
      (chunk : Bytes) (p : Parser)
      → IsValid p
      → (o : Outcome wire Parser) × (feed wire chunk p ≡ some o) × Fed o
  unfolding feed
  feed_ends chunk p v =
      let p' = push wire chunk p in
      let counted = push-counted chunk p v.counted in
      let (s, e, ended) =
        consume-Ended (2 * p'.total + 2) (view p') v.framed
          (omega (arith, counted, owed-le p.framing.header)) in
      let (o, d, same, fed) = Ended-Fed (2 * p'.total + 2) p' s counted e ended in (o, d, fed)
