-- ===== src/Net/Parser/Stream.antt =====
-- The parser over one buffer of bytes, without pieces: what `feed` does, told without the array of
-- pending buffers.
use bcoin.Prelude.{
  ℕ, zero, suc, ◌+◌, ◌-◌, ◌≤◌, ◌≡◌, refl, sym, ap, ◌∙◌, true, false, Option, none, some, List, [],
  ◌∷◌, ◌++◌, inl, inr, arith, ltb, leb, length, take, drop, length-append, Bool-cases, Option-cases,
  length-drop,
}
use bcoin.Script.Types.{Bytes}
use bcoin.Net.Parser.{Wire, Framing, Parser, Thrown, Outcome, Event, gather, parse, after, drain}

pub record Stream : Type 0 where
  pub buffered : Bytes
  pub framing : Framing

abbrev pub joined : List Bytes → Bytes
joined [] = []
joined (c ∷ cs) = c ++ joined cs

-- The bytes that are pending, as one buffer.
abbrev pub view : Parser → Stream
view p = record { buffered = joined p.pending; framing = p.framing }

abbrev pub extend : Stream → Bytes → Stream
extend s bytes = record s { buffered = s.buffered ++ bytes }

pub take-drop-append :
    (n k : ℕ) (xs ys : Bytes)
    → n ≡ length xs + k
    → (take n (xs ++ ys) ≡ xs ++ take k ys) × (drop n (xs ++ ys) ≡ drop k ys)
take-drop-append n k [] ys h =
    let e : n ≡ k = omega arith in (ap (λ i. take i ys) e, ap (λ i. drop i ys) e)
take-drop-append zero k (x ∷ xs) ys h = absurd (omega (arith, h))
take-drop-append (suc n) k (x ∷ xs) ys h =
    let (t, d) = take-drop-append n k xs ys (omega arith) in (ap (λ l. x ∷ l) t, d)

pub take-drop-within :
    (n : ℕ) (xs ys : Bytes)
    → n ≤ length xs
    → (take n (xs ++ ys) ≡ take n xs) × (drop n (xs ++ ys) ≡ drop n xs ++ ys)
take-drop-within zero xs ys h = (refl, refl)
take-drop-within (suc n) [] ys h = absurd (omega (arith, h))
take-drop-within (suc n) (x ∷ xs) ys h =
    let (t, d) = take-drop-within n xs ys (omega arith) in (ap (λ l. x ∷ l) t, d)

-- The copying loop gathers the first bytes that are pending and leaves the others.
gather-joined :
    (cs : List Bytes) (n : ℕ)
    → n ≤ length (joined cs)
    → (pending : List Bytes) × (gather cs n ≡ some (take n (joined cs), pending))
      × (joined pending ≡ drop n (joined cs))
unfolding gather
gather-joined [] zero h = ([], refl, refl)
gather-joined [] (suc n) h = absurd (omega (arith, h))
gather-joined (c ∷ cs) zero h = (c ∷ cs, refl, refl)
gather-joined (c ∷ cs) (suc n) h = elim (Bool-cases (leb (length c) (suc n))) [
  | inl e ↦
      let within : length c ≤ suc n = ground arith in
      let (pending, g, j) =
        gather-joined cs (suc n - length c) (omega (arith, length-append c (joined cs))) in
      let (t, d) =
        take-drop-append (suc n) (suc n - length c) c (joined cs) (omega (arith, within)) in
      (pending, rw (gather, e, g, t) refl, j ∙ sym d)
  | inr e ↦
      let within : suc n ≤ length c = ground arith in
      let (t, d) = take-drop-within (suc n) c (joined cs) within in
      (drop (suc n) c ∷ cs, rw (gather, e, t) refl, sym d)
]

module _ (wire : Wire) where
  -- `feed` on one buffer: the same loop without `gather`.
  unfoldable pub consume : ℕ → Stream → Option (Outcome wire Stream)
  consume zero s = none
  consume (suc fuel) s = elim (ltb (length s.buffered) s.framing.waiting) [
    | true ↦ some (record { state = s; events = []; thrown = none })
    | false ↦
        let turn = parse wire s.framing (take s.framing.waiting s.buffered) in
        let next : Stream = record {
          buffered = drop s.framing.waiting s.buffered;
          framing = turn.state;
        } in
        elim turn.thrown [
          | some e ↦ some (record { state = next; events = turn.events; thrown = some e })
          | none ↦ after wire turn.events (consume fuel next)
        ]
  ]

  abbrev pub viewed : Outcome wire Parser → Outcome wire Stream
  viewed o = record { state = view o.state; events = o.events; thrown = o.thrown }

  abbrev pub seen : Option (Outcome wire Parser) → Option (Outcome wire Stream)
  seen none = none
  seen (some o) = some (viewed o)

  seen-after :
      (events : List (Event wire)) (o : Option (Outcome wire Parser))
      → seen (after wire events o) ≡ after wire events (seen o)
  seen-after events none = refl
  seen-after events (some o) = refl

  -- One turn of the loop, by the three ways it goes on.
  abbrev pub turn_of : Stream → Outcome wire Framing
  turn_of s = parse wire s.framing (take s.framing.waiting s.buffered)

  abbrev pub next_of : Stream → Stream
  next_of s = record { buffered = drop s.framing.waiting s.buffered; framing = (turn_of s).state }

  pub consume-short :
      (fuel : ℕ) (s : Stream)
      → ltb (length s.buffered) s.framing.waiting ≡ true
      → consume (suc fuel) s ≡ some (record { state = s; events = []; thrown = none })
  unfolding consume
  consume-short fuel s short = rw (consume, short) refl

  pub consume-throw :
      (fuel : ℕ) (s : Stream) (e : Thrown)
      → ltb (length s.buffered) s.framing.waiting ≡ false
      → (turn_of s).thrown ≡ some e
      → consume (suc fuel) s
        ≡ some (record { state = next_of s; events = (turn_of s).events; thrown = some e })
  unfolding consume
  consume-throw fuel s e long t = rw (consume, long, t) refl

  pub consume-next :
      (fuel : ℕ) (s : Stream)
      → ltb (length s.buffered) s.framing.waiting ≡ false
      → (turn_of s).thrown ≡ none
      → consume (suc fuel) s ≡ after wire (turn_of s).events (consume fuel (next_of s))
  unfolding consume
  consume-next fuel s long t = rw (consume, long, t) refl

  abbrev rest_of : Parser → List Bytes → Parser
  rest_of p pending = record {
    pending = pending;
    total = p.total - p.framing.waiting;
    framing = (turn_of (view p)).state;
  }

  drain-throw :
      (fuel : ℕ) (p : Parser) (pending : List Bytes) (e : Thrown)
      → ltb p.total p.framing.waiting ≡ false
      → gather p.pending p.framing.waiting
        ≡ some (take p.framing.waiting (joined p.pending), pending)
      → (turn_of (view p)).thrown ≡ some e
      → drain wire (suc fuel) p
        ≡ some (record {
          state = rest_of p pending;
          events = (turn_of (view p)).events;
          thrown = some e;
        })
  unfolding drain
  drain-throw fuel p pending e long g t = rw (drain, long, g, t) refl

  drain-next :
      (fuel : ℕ) (p : Parser) (pending : List Bytes)
      → ltb p.total p.framing.waiting ≡ false
      → gather p.pending p.framing.waiting
        ≡ some (take p.framing.waiting (joined p.pending), pending)
      → (turn_of (view p)).thrown ≡ none
      → drain wire (suc fuel) p
        ≡ after wire (turn_of (view p)).events (drain wire fuel (rest_of p pending))
  unfolding drain
  drain-next fuel p pending long g t = rw (drain, long, g, t) refl

  rest_of-view :
      (p : Parser) (pending : List Bytes)
      → joined pending ≡ drop p.framing.waiting (joined p.pending)
      → view (rest_of p pending) ≡ next_of (view p)
  rest_of-view p pending j = ap (λ b. record { buffered = b; framing = (turn_of (view p)).state }) j

  -- `feed` on the pieces does what `consume` does on their bytes.
  pub consume-drain :
      (fuel : ℕ) (p : Parser)
      → p.total ≡ length (joined p.pending)
      → seen (drain wire fuel p) ≡ consume fuel (view p)
  unfolding drain consume
  consume-drain zero p counted = refl
  consume-drain (suc fuel) p counted = elim (Bool-cases (ltb p.total p.framing.waiting)) [
    | inl short ↦ rw (drain, short) (sym (consume-short fuel (view p) (rw counted at short)))
    | inr long ↦
        let long' : ltb (length (joined p.pending)) p.framing.waiting ≡ false =
          rw counted at long in
        let (pending, g, j) = gather-joined p.pending p.framing.waiting (ground arith) in
        let same = rest_of-view p pending j in
        elim (Option-cases (turn_of (view p)).thrown) [
          | inl e ↦
              ap seen (drain-next fuel p pending long g e)
              ∙ seen-after (turn_of (view p)).events (drain wire fuel (rest_of p pending))
              ∙ ap (after wire (turn_of (view p)).events) (
                  consume-drain fuel (rest_of p pending) (
                    rw j (omega (arith, counted, length-drop p.framing.waiting (joined p.pending))))
                  ∙ ap (consume fuel) same)
              ∙ sym (consume-next fuel (view p) long' e)
          | inr (t, e) ↦
              ap seen (drain-throw fuel p pending t long g e)
              ∙ ap
                  (λ v.
                    some
                      (record { state = v; events = (turn_of (view p)).events; thrown = some t }))
                  same
              ∙ sym (consume-throw fuel (view p) t long' e)
        ]
  ]

  abbrev Kept : Option (Outcome wire Parser) → Type 0
  Kept none = Unit
  Kept (some o) = o.state.total ≡ length (joined o.state.pending)

  after-Kept :
      (events : List (Event wire)) (o : Option (Outcome wire Parser))
      → Kept o
      → Kept (after wire events o)
  after-Kept events none k = k
  after-Kept events (some o) k = k

  -- The field `total` counts the pending bytes.
  drain-Kept :
      (fuel : ℕ) (p : Parser) → p.total ≡ length (joined p.pending) → Kept (drain wire fuel p)
  unfolding drain
  drain-Kept zero p counted = tt
  drain-Kept (suc fuel) p counted = elim (Bool-cases (ltb p.total p.framing.waiting)) [
    | inl short ↦ rw (drain, short) counted
    | inr long ↦
        let (pending, g, j) = gather-joined p.pending p.framing.waiting (ground arith) in
        let counted' : p.total - p.framing.waiting ≡ length (joined pending) =
          rw j (omega (arith, counted, length-drop p.framing.waiting (joined p.pending))) in
        elim (Option-cases (turn_of (view p)).thrown) [
          | inl e ↦ rw (drain-next fuel p pending long g e) (
              after-Kept (turn_of (view p)).events (drain wire fuel (rest_of p pending))
                (drain-Kept fuel (rest_of p pending) counted'))
          | inr (t, e) ↦ rw (drain-throw fuel p pending t long g e) counted'
        ]
  ]

  viewed-eq :
      (o : Outcome wire Parser) (s : Outcome wire Stream) → some (viewed o) ≡ some s → viewed o ≡ s
  viewed-eq o s e = cc e

  -- What `consume` ends with, `feed` ends with.
  pub drain-consume :
      (fuel : ℕ) (p : Parser) (s : Outcome wire Stream)
      → p.total ≡ length (joined p.pending)
      → consume fuel (view p) ≡ some s
      → (o : Outcome wire Parser) × (drain wire fuel p ≡ some o)
        × (viewed o ≡ s)
        × (o.state.total ≡ length (joined o.state.pending))
  drain-consume fuel p s counted e = elim (Option-cases (drain wire fuel p)) [
    | inl n ↦ cc (n, e, consume-drain fuel p counted)
    | inr (o, d) ↦ (
      o,
      d,
      viewed-eq o s (sym (ap seen d) ∙ consume-drain fuel p counted ∙ e),
      rw d at (drain-Kept fuel p counted),
    )
  ]
