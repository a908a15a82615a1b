-- ===== src/Net/Tests.antt =====
-- A small network, and the theorems of the parser and the framer there.
use bcoin.Prelude.{
  ◌%◌, ◌≡◌, ◌⊎◌, inl, inr, refl, Bool, true, none, some, List, [], ◌∷◌, ◌++◌, arith, ◌==◌,
  if◌then◌else◌, length, take, drop, replicate,
}
use bcoin.Script.Types.{Bytes}
use bcoin.Net.Parser.{
  Header, Wire, Parser, Outcome, packet, awaiting_header, initial, feed, drain, gather, parse,
  parse_header, parse_size, parse_payload, command_end, invalid_padding,
}
use bcoin.Net.Parser.Stream.{joined, view}
use bcoin.Net.Parser.Validity.{IsValid, Fed, feed_ends}
use bcoin.Net.Parser.Chunks.{feed-append}
use bcoin.Net.Parser.Reports.{HeaderReport, PayloadReport, parse_reports}
use bcoin.Net.Framer.{frame}
use bcoin.Net.Framer.RoundTrip.{IsWire, feed-frame}
use bcoin.Net.Framer.Delivery.{Message, feed_all, frames, delivery}

-- The digest is made of the length; an empty payload is refused.
abbrev toy_digest : Bytes → Bytes
toy_digest bytes = (length bytes % 256) ∷ replicate 31 7

abbrev toy_raw : Bytes → Bytes → Bool ⊎ Bytes
toy_raw cmd bytes = if length bytes == 0 then inl true else inr bytes

abbrev toy : Wire
toy = record {
  Packet = Bytes;
  Failure = Bool;
  magic = 0x01020304;
  hash256 = toy_digest;
  from_raw = toy_raw;
}

toy-IsWire : IsWire toy
toy-IsWire = record { magic_small = omega arith; digest = λ bytes. refl }

initial-IsValid : IsValid initial
initial-IsValid = record { counted = refl; framed = (omega arith, omega arith, λ h. refl) }

-- "ping" with two bytes.
abbrev ping : Bytes
ping = 112 ∷ 105 ∷ 110 ∷ 103 ∷ []

abbrev first_part : Bytes
first_part = 4 ∷ 3 ∷ 2 ∷ 1 ∷ (ping ++ replicate 8 0)

abbrev second_part : Bytes
second_part = 2 ∷ 0 ∷ 0 ∷ 0 ∷ 2 ∷ 7 ∷ 7 ∷ 7 ∷ 50 ∷ 60 ∷ []

feed_ends_example :
    (o : Outcome toy Parser) × (feed toy (first_part ++ second_part) initial ≡ some o) × Fed toy o
feed_ends_example = feed_ends toy (first_part ++ second_part) initial initial-IsValid

abbrev waiting : Outcome toy Parser
waiting = record {
  state = record { pending = first_part ∷ []; total = 16; framing = awaiting_header };
  events = [];
  thrown = none;
}

abbrev done : Outcome toy Parser
done = record {
  state = record { pending = []; total = 0; framing = awaiting_header };
  events = packet (50 ∷ 60 ∷ []) ∷ [];
  thrown = none;
}

feed_first : feed toy first_part initial ≡ some waiting
unfolding feed drain
feed_first = refl

feed_second : feed toy second_part waiting.state ≡ some done
unfolding feed drain gather parse parse_header parse_size parse_payload command_end
feed_second = refl

feed-append_example :
    (whole : Outcome toy Parser) × (feed toy (first_part ++ second_part) initial ≡ some whole)
    × (whole.events ≡ packet (50 ∷ 60 ∷ []) ∷ [])
    × (view whole.state ≡ view done.state)
    × (whole.thrown ≡ none)
feed-append_example =
    feed-append toy first_part second_part initial waiting done initial-IsValid feed_first refl
      feed_second

feed-frame_example :
    (msg : Bytes) × (o : Outcome toy Parser) × (frame toy ping (50 ∷ 60 ∷ []) none ≡ some msg)
    × (feed toy msg initial ≡ some o)
    × (o.events ≡ packet (50 ∷ 60 ∷ []) ∷ [])
    × (o.thrown ≡ none)
    × (view o.state ≡ record { buffered = []; framing = awaiting_header })
    × IsValid o.state
feed-frame_example =
    feed-frame toy ping (50 ∷ 60 ∷ []) initial (50 ∷ 60 ∷ []) toy-IsWire (omega arith) (omega arith)
      (omega arith) refl initial-IsValid refl

abbrev messages : List (Message toy)
messages =
    record { cmd = ping; payload = 50 ∷ 60 ∷ []; packet = 50 ∷ 60 ∷ [] }
    ∷ record { cmd = ping; payload = 9 ∷ []; packet = 9 ∷ [] }
    ∷ []

abbrev on_wire : Bytes
on_wire = first_part ++ (second_part ++ (first_part ++ (1 ∷ 0 ∷ 0 ∷ 0 ∷ 1 ∷ 7 ∷ 7 ∷ 7 ∷ 9 ∷ [])))

messages-framed : frames toy messages ≡ some on_wire
unfolding frames frame
messages-framed = refl

delivery_example :
    (o : Outcome toy Parser) × (feed_all toy
        (take 20 on_wire ∷ take 20 (drop 20 on_wire) ∷ drop 40 on_wire ∷ [])
        initial
      ≡ some o)
    × (o.events ≡ packet (50 ∷ 60 ∷ []) ∷ packet (9 ∷ []) ∷ [])
    × (o.thrown ≡ none)
    × (joined o.state.pending ≡ [])
    × (o.state.framing ≡ awaiting_header)
delivery_example =
    delivery toy messages (take 20 on_wire ∷ take 20 (drop 20 on_wire) ∷ drop 40 on_wire ∷ [])
      on_wire toy-IsWire
      (
        (omega arith, omega arith, omega arith, refl),
        ((omega arith, omega arith, omega arith, refl), tt),
      )
      messages-framed refl

-- A command with a byte after the padding throws.
bad_padding :
    (o : Outcome toy Parser) × (feed toy (4 ∷ 3 ∷ 2 ∷ 1 ∷ 112 ∷ 0 ∷ 112 ∷ replicate 17 0) initial
      ≡ some o)
    × (o.thrown ≡ some invalid_padding)
unfolding feed drain gather parse parse_header parse_size command_end
bad_padding = (_, refl, refl)

-- A header of the wrong network, where none was read before.
parse_reports_example :
    ((awaiting_header.header ≡ none)
      × HeaderReport toy awaiting_header
          (replicate 24 0)
          (parse toy awaiting_header (replicate 24 0)))
    ⊎ ((h : Header) × (awaiting_header.header ≡ some h)
        × PayloadReport toy h (replicate 24 0) (parse toy awaiting_header (replicate 24 0)))
parse_reports_example =
    parse_reports toy awaiting_header (replicate 24 0) (omega arith, omega arith, λ h. refl) refl
