-- ===== src/Net/Framer/Delivery.antt =====
-- A connection that carries framed packets, cut into pieces at any places.
use bcoin.Prelude.{
  ℕ, zero, suc, ◌+◌, ◌≤◌, ◌<◌, ◌≡◌, ◌≢◌, refl, sym, ap, ◌∙◌, Option, none, some, List, [], ◌∷◌,
  ◌++◌, map, inl, inr, arith, length, All,
}
use mathlib.Core.List.{append-nil, append_assoc}
use bcoin.Script.Types.{Bytes}
use bcoin.Net.Parser.{
  Wire, Parser, Thrown, invalid_padding, Outcome, packet, awaiting_header, max_message, after, feed,
  initial, parse_payload,
}
use bcoin.Net.Parser.Stream.{
  Stream, joined, view, extend, viewed, consume, consume-throw, consume-short, turn_of, next_of,
  consume-next,
}
use bcoin.Net.Parser.Validity.{IsValid, consume-ends, feed_ends}
use bcoin.Net.Parser.Chunks.{
  consume-feed, consume-agree, consume-extend, consume-Began, turn-extend, prepend, consume-zero,
}
use bcoin.Net.Framer.{frame}
use bcoin.Net.Framer.RoundTrip.{IsWire, IsLetter, head, frame-head, consume-frame}

module _ (wire : Wire) where
  -- The pieces are fed in turn, until one throws.
  unfoldable pub feed_all : List Bytes → Parser → Option (Outcome wire Parser)
  feed_all [] p = some (record { state = p; events = []; thrown = none })
  feed_all (c ∷ cs) p = elim (feed wire c p) [
    | none ↦ none
    | some o ↦ elim o.thrown [ some e ↦ some o | none ↦ after wire o.events (feed_all cs o.state) ]
  ]

  pub record Message : Type 0 where
    pub cmd : Bytes
    pub payload : Bytes
    pub packet : wire.Packet

  -- What `frame` accepts and `parse` takes, with the packet that `fromRaw` makes of it.
  abbrev pub Fits : Message → Type 0
  Fits m =
      All IsLetter m.cmd
      × (length m.cmd < 12)
      × (length m.payload ≤ max_message)
      × (wire.from_raw m.cmd m.payload ≡ inr m.packet)

  unfoldable pub frames : List Message → Option Bytes
  frames [] = some []
  frames (m ∷ ms) = elim (frame wire m.cmd m.payload none) [
    | none ↦ none
    | some msg ↦ elim (frames ms) [ none ↦ none | some rest ↦ some (msg ++ rest) ]
  ]

  abbrev written : List Message → Bytes
  written [] = []
  written (m ∷ ms) = (head wire m.cmd m.payload ++ m.payload) ++ written ms

  frames-written : (ms : List Message) → All Fits ms → frames ms ≡ some (written ms)
  unfolding frames
  frames-written [] fits = refl
  frames-written (m ∷ ms) ((letters, h, n, raw), fits) =
      rw (frames, frame-head wire m.cmd m.payload h n, frames-written ms fits) refl

  abbrev idle : Bytes → Stream
  idle bytes = record { buffered = bytes; framing = awaiting_header }

  abbrev delivered : List Message → Outcome wire Stream
  delivered ms = record { state = idle []; events = map (λ m. packet m.packet) ms; thrown = none }

  consume-message :
      (m : Message)
      → IsWire wire
      → Fits m
      → consume wire 3 (idle (head wire m.cmd m.payload ++ m.payload)) ≡ some (delivered (m ∷ []))
  unfolding parse_payload
  consume-message m w (letters, h, n, raw) =
      consume-frame wire m.cmd m.payload w letters h n ∙ rw (parse_payload, raw) refl

  consume-written :
      (ms : List Message)
      → IsWire wire
      → All Fits ms
      → (fuel : ℕ) × (consume wire fuel (idle (written ms)) ≡ some (delivered ms))
  consume-written [] w fits = (1, consume-short wire 0 (idle []) refl)
  consume-written (m ∷ ms) w (fit, fits) =
      let (fuel, e) = consume-written ms w fits in
      (
        3 + fuel,
        consume-extend wire (3 + fuel) 3 fuel (idle (head wire m.cmd m.payload ++ m.payload))
            (written ms) (delivered (m ∷ [])) (delivered ms) (omega arith) (consume-message m w fit)
            refl e,
      )

  -- A run that throws throws also when more bytes follow.
  consume-extend_throws :
      (f n : ℕ) (s : Stream) (bytes : Bytes) (o : Outcome wire Stream) (e : Thrown)
      → n ≤ f
      → consume wire n s ≡ some o
      → o.thrown ≡ some e
      → (o' : Outcome wire Stream) × (consume wire f (extend s bytes) ≡ some o')
        × (o'.thrown ≡ some e)
  consume-extend_throws f zero s bytes o e h c t = cc (c, consume-zero wire s)
  consume-extend_throws zero (suc n) s bytes o e h c t = absurd (omega (arith, h))
  consume-extend_throws (suc f) (suc n) s bytes o e h c t = elim (consume-Began wire n s o c) [
    | inl (short, d) ↦ cc (sym (ap (λ v. v.thrown) d) ∙ t)
    | inr (long, inl (x, throws, d)) ↦
        let (same, next, long') = turn-extend wire s bytes long in
        (
          _,
          consume-throw wire f (extend s bytes) x long' (ap (λ v. v.thrown) same ∙ throws),
          sym (ap (λ v. v.thrown) d) ∙ t,
        )
    | inr (long, inr (throws, (rest, r, d))) ↦
        let (same, next, long') = turn-extend wire s bytes long in
        let (o', c', t') =
          consume-extend_throws f n (next_of wire s) bytes rest e (omega (arith, h)) r
            (sym (ap (λ v. v.thrown) d) ∙ t) in
        (
          prepend wire (turn_of wire (extend s bytes)).events o',
          consume-next wire f (extend s bytes) long' (ap (λ v. v.thrown) same ∙ throws)
              ∙ ap (after wire (turn_of wire (extend s bytes)).events)
                  (ap (consume wire f) next ∙ c'),
          t',
        )
  ]

  feed_all-next :
      (c : Bytes) (cs : List Bytes) (p : Parser) (o : Outcome wire Parser)
      → feed wire c p ≡ some o
      → o.thrown ≡ none
      → feed_all (c ∷ cs) p ≡ after wire o.events (feed_all cs o.state)
  unfolding feed_all
  feed_all-next c cs p o e t = rw (feed_all, e, t) refl

  -- The two ways to put three byte strings together.
  extend-append : (s : Stream) (a b : Bytes) → extend (extend s a) b ≡ extend s (a ++ b)
  extend-append s a b =
      ap (λ (l : Bytes). record { buffered = l; framing = s.framing }) (append_assoc s.buffered a b)

  -- If the whole throws nothing, its first piece does not throw either.
  piece-throws_not :
      (c rest : Bytes) (p : Parser) (n : ℕ) (o : Outcome wire Parser) (whole : Outcome wire Stream)
      (e : Thrown)
      → IsValid p
      → feed wire c p ≡ some o
      → consume wire n (extend (view p) (c ++ rest)) ≡ some whole
      → whole.thrown ≡ none
      → o.thrown ≢ some e
  piece-throws_not c rest p n o whole e v f w t bad =
      let (m, d) = consume-feed wire c p o v f in
      let (o', d', t') =
        consume-extend_throws m m (extend (view p) c) rest (viewed wire o) e (omega arith) d bad in
      let same =
        consume-agree wire n m (extend (view p) (c ++ rest)) whole o' w
          (ap (consume wire m) (sym (extend-append (view p) c rest)) ∙ d') in
      cc (same, t, t')

  -- The pieces do what their bytes do in one.
  feed_all-joined :
      (cs : List Bytes) (p : Parser) (n : ℕ) (whole : Outcome wire Stream)
      → IsValid p
      → length (view p).buffered < p.framing.waiting
      → consume wire n (extend (view p) (joined cs)) ≡ some whole
      → whole.thrown ≡ none
      → (o : Outcome wire Parser) × (feed_all cs p ≡ some o)
        × (viewed wire o ≡ whole)
        × IsValid o.state
  unfolding feed_all
  feed_all-joined [] p n whole v short c t =
      let here : Outcome wire Parser = record { state = p; events = []; thrown = none } in
      (
        here,
        refl,
        consume-agree wire 1 n (view p) (viewed wire here) whole
            (consume-short wire 0 (view p) (ground (arith, short)))
            (ap (λ (l : Bytes). consume wire n (record { buffered = l; framing = p.framing }))
                (sym (append-nil (view p).buffered))
              ∙ c),
        v,
      )
  feed_all-joined (d ∷ cs) p n whole v short c t =
      let (o, e, (v', ends)) = feed_ends wire d p v in
      elim ends [
        | inr bad ↦ absurd (piece-throws_not d (joined cs) p n o whole invalid_padding v e c t bad)
        | inl (fine, short') ↦
            let (m, c1) = consume-feed wire d p o v e in
            let (k, o2, c2) = consume-ends wire (extend (view o.state) (joined cs)) v'.framed in
            let same =
              consume-agree wire (m + k) n (extend (view p) (d ++ joined cs))
                (prepend wire o.events o2) whole
                (ap (consume wire (m + k)) (sym (extend-append (view p) d (joined cs)))
                  ∙ consume-extend wire (m + k) m k (extend (view p) d) (joined cs) (viewed wire o)
                      o2 (omega arith) c1 fine c2)
                c in
            let (o3, f, same3, v3) =
              feed_all-joined cs o.state k o2 v' (omega (arith, short', v'.counted)) c2
                (ap (λ u. u.thrown) same ∙ t) in
            (
              record o3 { events = o.events ++ o3.events },
              feed_all-next d cs p o e fine ∙ ap (after wire o.events) f,
              ap (prepend wire o.events) same3 ∙ same,
              v3,
            )
      ]

  -- On a network with a 32-bit magic number and a digest of 32 bytes, let the framer write messages
  -- with commands of at most eleven ASCII characters, payloads no larger than a message, and bytes
  -- that `fromRaw` accepts. In whatever pieces these bytes come, a new parser emits exactly their
  -- packets, in their order, throws nothing, and has no byte pending and no header at the end.
  pub delivery :
      (ms : List Message) (pieces : List Bytes) (bytes : Bytes)
      → IsWire wire
      → All Fits ms
      → frames ms ≡ some bytes
      → joined pieces ≡ bytes
      → (o : Outcome wire Parser) × (feed_all pieces initial ≡ some o)
        × (o.events ≡ map (λ m. packet m.packet) ms)
        × (o.thrown ≡ none)
        × (joined o.state.pending ≡ [])
        × (o.state.framing ≡ awaiting_header)
  delivery ms pieces bytes w fits f j =
      let whole : joined pieces ≡ written ms = cc (f, j, frames-written ms fits) in
      let (n, c) = consume-written ms w fits in
      let (o, e, same, v) =
        feed_all-joined pieces initial n (delivered ms)
          (record { counted = refl; framed = (omega arith, omega arith, λ h. refl) }) (omega arith)
          (ap (λ l. consume wire n (idle l)) whole ∙ c) refl in
      (
        o,
        e,
        ap (λ u. u.events) same,
        ap (λ u. u.thrown) same,
        ap (λ u. u.state.buffered) same,
        ap (λ u. u.state.framing) same,
      )
