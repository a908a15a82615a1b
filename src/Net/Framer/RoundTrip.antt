-- ===== src/Net/Framer/RoundTrip.antt =====
-- What the framer writes, the parser reads.
use bcoin.Prelude.{
  ℕ, zero, suc, ◌+◌, ◌-◌, ◌%◌, ◌^◌, ◌≤◌, ◌<◌, ◌≡◌, refl, sym, ap, ◌∙◌, none, some, List, [], ◌∷◌,
  ◌++◌, map, inl, inr, arith, ltb, leb, length, take, drop, replicate, get_or, All, length-append,
  length-map, length-take, length-replicate, Bool-cases,
}
use mathlib.Core.List.{append-nil, append_assoc}
use bcoin.Script.Types.{Bytes}
use bcoin.Net.Words.{u32_le, read_u32_le, read_u32_le-u32_le}
use bcoin.Net.Parser.{
  Wire, Header, Framing, Parser, Outcome, Event, packet, max_message, awaiting_header, command_end,
  parse_size, parse_header, parse_payload, parse, emit, after, feed,
}
use bcoin.Net.Parser.Stream.{
  Stream, view, extend, viewed, consume, take-drop-append, turn_of, consume-next, consume-short,
}
use bcoin.Net.Parser.Validity.{IsValid, feed_ends}
use bcoin.Net.Parser.Chunks.{consume-feed, consume-agree}
use bcoin.Net.Framer.{frame}

-- A character of a command: ASCII, not null.
abbrev pub IsLetter : ℕ → Type 0
IsLetter c = (0 < c) × (c < 128)

command_end-zeros : (k i e : ℕ) → e < 16 → command_end (replicate k 0) i e ≡ some e
unfolding command_end
command_end-zeros zero i e h = refl
command_end-zeros (suc k) i e h = ground (arith, command_end-zeros k (suc i) e h)

-- The padding loop finds the length of the command.
command_end-padded :
    (cmd : Bytes) (k i : ℕ)
    → All IsLetter cmd
    → i + length cmd < 16
    → command_end (map (λ c. c % 256) cmd ++ replicate (suc k) 0) i 16 ≡ some (i + length cmd)
unfolding command_end
command_end-padded [] k i letters h =
    ground (arith, command_end-zeros k (suc i) i (omega (arith, h)))
command_end-padded (c ∷ cmd) k i (letter, letters) h =
    ground (arith, command_end-padded cmd k (suc i) letters (omega (arith, h)))

letters-read : (cmd : Bytes) → All IsLetter cmd → map (λ b. b % 128) (map (λ c. c % 256) cmd) ≡ cmd
letters-read [] letters = refl
letters-read (c ∷ cmd) (letter, letters) = ground (arith, letters-read cmd letters)

get_or-append :
    (xs ys : Bytes) (n i : ℕ) → n ≡ length xs + i → get_or (xs ++ ys) n 0 ≡ get_or ys i 0
get_or-append [] ys n i h = ap (λ k. get_or ys k 0) (omega (arith, h))
get_or-append (x ∷ xs) ys zero i h = absurd (omega (arith, h))
get_or-append (x ∷ xs) ys (suc n) i h = get_or-append xs ys n i (omega (arith, h))

read_u32_le-append :
    (xs ys : Bytes) (n : ℕ) → n ≡ length xs → read_u32_le (xs ++ ys) n ≡ read_u32_le ys 0
read_u32_le-append xs ys n h = omega (
  arith,
  get_or-append xs ys n 0 (omega (arith, h)),
  get_or-append xs ys (n + 1) 1 (omega (arith, h)),
  get_or-append xs ys (n + 2) 2 (omega (arith, h)),
  get_or-append xs ys (n + 3) 3 (omega (arith, h)),
)

read_u32_le-take : (xs : Bytes) → read_u32_le (take 4 xs) 0 ≡ read_u32_le xs 0
read_u32_le-take [] = refl
read_u32_le-take (a ∷ []) = refl
read_u32_le-take (a ∷ b ∷ []) = refl
read_u32_le-take (a ∷ b ∷ c ∷ []) = refl
read_u32_le-take (a ∷ b ∷ c ∷ d ∷ xs) = refl

-- The network has a 32-bit magic number, and hash256 gives 32 bytes.
pub record IsWire (wire : Wire) : Type 0 where
  pub magic_small : wire.magic < 2 ^ 32
  pub digest : (bytes : Bytes) → length (wire.hash256 bytes) ≡ 32

-- A turn of the loop over a buffer that begins with what it takes.
consume-turn :
    (wire : Wire) (fuel : ℕ) (front rest : Bytes) (f f' : Framing) (events : List (Event wire))
    → length front ≡ f.waiting
    → parse wire f front ≡ emit wire f' events
    → consume wire (suc fuel) (record { buffered = front ++ rest; framing = f })
      ≡ after wire events (consume wire fuel (record { buffered = rest; framing = f' }))
consume-turn wire fuel front rest f f' events n e =
    let s : Stream = record { buffered = front ++ rest; framing = f } in
    let (t, d) = take-drop-append f.waiting 0 front rest (omega (arith, n)) in
    let turn : turn_of wire s ≡ emit wire f' events =
      ap (parse wire f) (t ∙ append-nil front) ∙ e in
    consume-next wire fuel s (ground (arith, n, length-append front rest)) (ap (λ v. v.thrown) turn)
    ∙ ap
        (λ v. after wire v.events (
          consume wire fuel
            (record { buffered = drop f.waiting (front ++ rest); framing = v.state })))
        turn
    ∙ ap (λ b. after wire events (consume wire fuel (record { buffered = b; framing = f' }))) d

module _ (wire : Wire) (cmd payload : Bytes) where
  -- The four parts of the header as it is written.
  abbrev pub name : Bytes
  name = map (λ c. c % 256) cmd ++ replicate (12 - length cmd) 0

  abbrev pub tail : Bytes
  tail = u32_le (length payload) ++ take 4 (wire.hash256 payload)

  abbrev pub head : Bytes
  head = u32_le wire.magic ++ (name ++ tail)

  abbrev pub header : Header
  header = record {
    cmd = cmd;
    size = length payload;
    checksum = read_u32_le (wire.hash256 payload) 0;
  }

  pub frame-head :
      length cmd < 12
      → length payload ≤ max_message
      → frame wire cmd payload none ≡ some (head ++ payload)
  unfolding frame
  frame-head h n = elim (Bool-cases (ltb (length cmd) 12)) [
    | inl e ↦ elim (Bool-cases (leb (length payload) 0xffffffff)) [
      | inl f ↦ rw (frame, e, f) (simp append_assoc refl)
      | inr f ↦ absurd (ground arith)
    ]
    | inr e ↦ absurd (ground arith)
  ]

  length-name : length cmd < 12 → length name ≡ 12
  length-name h = omega (
    arith,
    length-append (map (λ c. c % 256) cmd) (replicate (12 - length cmd) 0),
    length-map cmd (λ c. c % 256),
    length-replicate {0} {A = ℕ} (12 - length cmd) 0,
  )

  length-head : IsWire wire → length cmd < 12 → length head ≡ 24
  length-head w h = omega (
    arith,
    length-name h,
    length-append name tail,
    length-take 4 (wire.hash256 payload),
    w.digest payload,
  )

  name-end : All IsLetter cmd → length cmd < 12 → command_end name 4 16 ≡ some (4 + length cmd)
  name-end letters h =
      let e : 12 - length cmd ≡ suc (11 - length cmd) = omega (arith, h) in
      rw e (command_end-padded cmd (11 - length cmd) 4 letters (omega (arith, h)))

  take-name : length cmd < 12 → take 12 (name ++ tail) ≡ name
  take-name h = (take-drop-append 12 0 name tail (omega (arith, length-name h))).0 ∙ append-nil name

  take-cmd : take (length cmd) (name ++ tail) ≡ map (λ c. c % 256) cmd
  take-cmd =
      let letters = map (λ c. c % 256) cmd in
      let zeros : Bytes = replicate (12 - length cmd) 0 in
      ap (take (length cmd)) (append_assoc letters zeros tail)
      ∙ (take-drop-append (length cmd) 0 letters (zeros ++ tail)
          (omega (arith, length-map cmd (λ c. c % 256)))).0
      ∙ append-nil letters

  parse_header-parts :
      (bytes : Bytes) (end : ℕ) (h : Header)
      → read_u32_le bytes 0 ≡ wire.magic
      → command_end (take 12 (drop 4 bytes)) 4 16 ≡ some end
      → map (λ b. b % 128) (take (end - 4) (drop 4 bytes)) ≡ h.cmd
      → read_u32_le bytes 16 ≡ h.size
      → read_u32_le bytes 20 ≡ h.checksum
      → h.size ≤ max_message
      → parse_header wire awaiting_header bytes
        ≡ emit wire (record { waiting = h.size; header = some h }) []
  unfolding parse_header parse_size
  parse_header-parts bytes end h m e c s k n = grind (arith)

  parse_header-head :
      IsWire wire
      → All IsLetter cmd
      → length cmd < 12
      → length payload ≤ max_message
      → parse_header wire awaiting_header head
        ≡ emit wire (record { waiting = length payload; header = some header }) []
  parse_header-head w letters h n =
      let size = u32_le (length payload) in
      let start = u32_le wire.magic ++ name in
      parse_header-parts head (4 + length cmd) header
        (read_u32_le-u32_le wire.magic (name ++ tail) w.magic_small)
        (ap (λ l. command_end l 4 16) (take-name h) ∙ name-end letters h)
        (ap (map (λ b. b % 128)) (ap (λ k. take k (name ++ tail)) (omega arith) ∙ take-cmd)
          ∙ letters-read cmd letters)
        (read_u32_le-append start tail 16 (omega (arith, length-name h))
          ∙ read_u32_le-u32_le (length payload) (take 4 (wire.hash256 payload)) (omega (arith, n)))
        (ap (λ l. read_u32_le l 20) (sym (append_assoc start size (take 4 (wire.hash256 payload))))
          ∙ read_u32_le-append (start ++ size) (take 4 (wire.hash256 payload)) 20
              (omega (arith, length-name h, length-append start size))
          ∙ read_u32_le-take (wire.hash256 payload))
        n

  parse-payload :
      length payload ≤ max_message
      → parse wire (record { waiting = length payload; header = some header }) payload
        ≡ emit wire awaiting_header (parse_payload wire header payload)
  unfolding parse
  parse-payload n = grind (arith)

  parse-head :
      IsWire wire
      → All IsLetter cmd
      → length cmd < 12
      → length payload ≤ max_message
      → parse wire awaiting_header head
        ≡ emit wire (record { waiting = length payload; header = some header }) []
  unfolding parse
  parse-head w letters h n = grind (arith, parse_header-head w letters h n, length-head w h)

  -- The three turns of the loop: the header, the payload, and the test that ends it.
  pub consume-frame :
      IsWire wire
      → All IsLetter cmd
      → length cmd < 12
      → length payload ≤ max_message
      → consume wire 3 (record { buffered = head ++ payload; framing = awaiting_header })
        ≡ some (record {
          state = record { buffered = []; framing = awaiting_header };
          events = parse_payload wire header payload;
          thrown = none;
        })
  consume-frame w letters h n =
      let framing : Framing = record { waiting = length payload; header = some header } in
      let events = parse_payload wire header payload in
      consume-turn wire 2 head payload awaiting_header framing [] (length-head w h)
        (parse-head w letters h n)
      ∙ ap (λ b. after wire [] (consume wire 2 (record { buffered = b; framing = framing })))
          (sym (append-nil payload))
      ∙ ap (after wire []) (
          consume-turn wire 1 payload [] framing awaiting_header events refl (parse-payload n)
          ∙ ap (after wire events)
              (consume-short wire 0 (record { buffered = []; framing = awaiting_header }) refl))
      ∙ ap
          (λ e. some (record {
            state = record { buffered = []; framing = awaiting_header };
            events = e;
            thrown = none;
          }))
          (append-nil events)

  -- On a network with a 32-bit magic number and a digest of 32 bytes, a command of at most eleven
  -- ASCII characters and a payload no larger than a message are framed; and when a parser that has
  -- nothing pending is fed that frame, it emits the packet that `fromRaw` makes of them, and has
  -- nothing pending again.
  pub feed-frame :
      (p : Parser) (pk : wire.Packet)
      → IsWire wire
      → All IsLetter cmd
      → length cmd < 12
      → length payload ≤ max_message
      → wire.from_raw cmd payload ≡ inr pk
      → IsValid p
      → view p ≡ record { buffered = []; framing = awaiting_header }
      → (msg : Bytes) × (o : Outcome wire Parser) × (frame wire cmd payload none ≡ some msg)
        × (feed wire msg p ≡ some o)
        × (o.events ≡ packet pk ∷ [])
        × (o.thrown ≡ none)
        × (view o.state ≡ record { buffered = []; framing = awaiting_header })
        × IsValid o.state
  unfolding parse_payload
  feed-frame p pk w letters h n raw v empty =
      let msg = head ++ payload in
      let (o, e, fed) = feed_ends wire msg p v in
      let (k, c) = consume-feed wire msg p o v e in
      let same =
        consume-agree wire k 3 (extend (view p) msg) (viewed wire o)
          (record {
            state = record { buffered = []; framing = awaiting_header };
            events = parse_payload wire header payload;
            thrown = none;
          })
          c (ap (λ s. consume wire 3 (extend s msg)) empty ∙ consume-frame w letters h n) in
      (
        msg,
        o,
        frame-head h n,
        e,
        ap (λ u. u.events) same ∙ rw (parse_payload, raw) refl,
        ap (λ u. u.thrown) same,
        ap (λ u. u.state) same,
        fed.0,
      )
