-- ===== src/Net/Parser/Reports.antt =====
-- What the parser reports of one chunk, and how it goes on after an error.
use bcoin.Prelude.{
  ℕ, ◌+◌, ◌-◌, ◌%◌, map, ◌≤◌, ◌<◌, ◌≡◌, ◌≢◌, ◌⊎◌, inl, inr, refl, ap, ◌∙◌, false, Option, none,
  some, [], ◌∷◌, arith, ltb, ◌==◌, length, take, drop, length-take, length-drop, Bool-cases,
}
use bcoin.Script.Types.{Bytes}
use bcoin.Net.Words.{read_u32_le}
use bcoin.Net.Parser.{
  Wire, Header, Framing, invalid_padding, Outcome, Event, packet, payload_error, invalid_checksum,
  invalid_magic, too_large, max_message, awaiting_header, parse_size, parse_header, parse_payload,
  parse,
}
use bcoin.Net.Parser.Validity.{IsFramed}
use bcoin.Net.Parser.Padding.{IsCommand, IsIllPadded, command_end_lem, take-command}

-- The fields of a header that stand in its 24 bytes.
abbrev pub command_bytes : Bytes → Bytes
command_bytes bytes = take 12 (drop 4 bytes)

abbrev pub size_of : Bytes → ℕ
size_of bytes = read_u32_le bytes 16

-- The header with a name, its characters in ASCII.
abbrev pub named : Bytes → Bytes → Header
named name bytes = record {
  cmd = map (λ b. b % 128) name;
  size = size_of bytes;
  checksum = read_u32_le bytes 20;
}

module _ (wire : Wire) where
  -- The exception of the padding, which leaves the parser as it was.
  abbrev pub Threw : Framing → Outcome wire Framing → Type 0
  Threw f o = (o.thrown ≡ some invalid_padding) × (o.events ≡ []) × (o.state ≡ f)

  -- A header was read, and its payload is awaited.
  abbrev pub ReadHeader : Header → Outcome wire Framing → Type 0
  ReadHeader h o =
      (o.thrown ≡ none) × (o.events ≡ []) × (o.state ≡ record { waiting = h.size; header = some h })

  -- This event alone was emitted, and the next header is awaited.
  abbrev pub Reported : Event wire → Outcome wire Framing → Type 0
  Reported e o = (o.thrown ≡ none) × (o.events ≡ e ∷ []) × (o.state ≡ awaiting_header)

  -- What becomes of 24 bytes with the magic number and a name, by their size.
  abbrev pub SizeReport : Bytes → Bytes → Outcome wire Framing → Type 0
  SizeReport name bytes o =
      ((max_message < size_of bytes) × Reported (too_large (size_of bytes)) o)
      ⊎ ((size_of bytes ≤ max_message) × ReadHeader (named name bytes) o)

  -- What becomes of 24 bytes with the magic number, by their name.
  abbrev pub NamedReport : Framing → Bytes → Outcome wire Framing → Type 0
  NamedReport f bytes o =
      (IsIllPadded (command_bytes bytes) × Threw f o)
      ⊎ ((name : Bytes) × IsCommand name (command_bytes bytes) × SizeReport name bytes o)

  -- What becomes of 24 bytes where a header is awaited.
  abbrev pub HeaderReport : Framing → Bytes → Outcome wire Framing → Type 0
  HeaderReport f bytes o =
      ((read_u32_le bytes 0 ≢ wire.magic) × Reported (invalid_magic (read_u32_le bytes 0)) o)
      ⊎ ((read_u32_le bytes 0 ≡ wire.magic) × NamedReport f bytes o)

  -- What becomes of a payload with the right checksum, by how `fromRaw` reads it.
  abbrev pub ReadReport : Header → Bytes → Outcome wire Framing → Type 0
  ReadReport h bytes o =
      ((x : wire.Failure) × (wire.from_raw h.cmd bytes ≡ inl x) × Reported (payload_error x) o)
      ⊎ ((p : wire.Packet) × (wire.from_raw h.cmd bytes ≡ inr p) × Reported (packet p) o)

  -- What becomes of the bytes of the payload after a header.
  abbrev pub PayloadReport : Header → Bytes → Outcome wire Framing → Type 0
  PayloadReport h bytes o =
      let checksum = read_u32_le (wire.hash256 bytes) 0 in
      ((checksum ≢ h.checksum) × Reported (invalid_checksum checksum) o)
      ⊎ ((checksum ≡ h.checksum) × ReadReport h bytes o)

  parse_size_lem :
      (f : Framing) (bytes name : Bytes) (end : ℕ)
      → take (end - 4) (drop 4 bytes) ≡ name
      → SizeReport name bytes (parse_size wire f bytes end)
  unfolding parse_size
  parse_size_lem f bytes name end e = elim (Bool-cases (ltb max_message (read_u32_le bytes 16))) [
    | inl t ↦ inl (ground arith, rw t (refl, refl, refl))
    | inr t ↦ inr (
      ground arith,
      rw t (
        refl,
        refl,
        ap (λ n. record { waiting = size_of bytes; header = some (named n bytes) }) e,
      ),
    )
  ]

  cut_name :
      (bytes name : Bytes)
      → IsCommand name (command_bytes bytes)
      → take (4 + length name - 4) (drop 4 bytes) ≡ name
  cut_name bytes name (padding, e, a, z) =
      ap (λ (k : ℕ). take k (drop 4 bytes)) {x = 4 + length name - 4} {y = length name}
        (omega arith)
      ∙ take-command 12 name (drop 4 bytes) padding e

  header_lem :
      (f : Framing) (bytes : Bytes)
      → f ≡ awaiting_header
      → length bytes ≡ 24
      → HeaderReport f bytes (parse_header wire f bytes)
  unfolding parse_header
  header_lem f bytes idle n = elim (Bool-cases (read_u32_le bytes 0 == wire.magic)) [
    | inl m ↦
        elim (command_end_lem (command_bytes bytes) 4
          (omega (arith, n, length-take 12 (drop 4 bytes), length-drop 4 bytes))) [
            | inl (name, e, c) ↦ inr (
              ground arith,
              inr (
                name,
                c,
                rw (m, e) (parse_size_lem f bytes name (4 + length name) (cut_name bytes name c)),
              ),
            )
            | inr (e, ill) ↦ inr (ground arith, inl (ill, rw (m, e) (refl, refl, refl)))
          ]
    | inr m ↦ inl (ground arith, rw (m, idle) (refl, refl, refl))
  ]

  abbrev with_header : ℕ → Option Header → Framing
  with_header n header = record { waiting = n; header = header }

  idle_lem : (n : ℕ) → n ≡ 24 → with_header n none ≡ awaiting_header
  idle_lem n e = ap (λ k. with_header k none) e

  parse-none :
      (n : ℕ) (bytes : Bytes)
      → ltb max_message (length bytes) ≡ false
      → parse wire (with_header n none) bytes ≡ parse_header wire (with_header n none) bytes
  unfolding parse
  parse-none n bytes fits = rw (parse, fits) refl

  raw_cases :
      (raw : wire.Failure ⊎ wire.Packet)
      → ((x : wire.Failure) × (raw ≡ inl x)) ⊎ ((p : wire.Packet) × (raw ≡ inr p))
  raw_cases (inl x) = inl (x, refl)
  raw_cases (inr p) = inr (p, refl)

  parse-some :
      (n : ℕ) (h : Header) (bytes : Bytes)
      → ltb max_message (length bytes) ≡ false
      → PayloadReport h bytes (parse wire (with_header n (some h)) bytes)
  unfolding parse parse_payload
  parse-some n h bytes fits = elim (Bool-cases (read_u32_le (wire.hash256 bytes) 0 == h.checksum)) [
    | inl e ↦ elim (raw_cases (wire.from_raw h.cmd bytes)) [
      | inl (x, r) ↦
          inr (ground arith, inl (x, r, rw (fits, e, parse_payload, r) (refl, refl, refl)))
      | inr (p, r) ↦
          inr (ground arith, inr (p, r, rw (fits, e, parse_payload, r) (refl, refl, refl)))
    ]
    | inr e ↦ inl (ground arith, rw (fits, e) (refl, refl, refl))
  ]

  abbrev Reports : Framing → Bytes → Type 0
  Reports f bytes =
      ((f.header ≡ none) × HeaderReport f bytes (parse wire f bytes))
      ⊎ ((h : Header) × (f.header ≡ some h) × PayloadReport h bytes (parse wire f bytes))

  by_header :
      (n : ℕ) (header : Option Header) (bytes : Bytes)
      → ltb max_message (length bytes) ≡ false
      → (header ≡ none → n ≡ 24)
      → length bytes ≡ n
      → Reports (with_header n header) bytes
  by_header n none bytes fits idle long = inl (
    refl,
    rw (parse-none n bytes fits)
        (header_lem (with_header n none) bytes (idle_lem n (idle refl)) (long ∙ idle refl)),
  )
  by_header n (some h) bytes fits idle long = inr (h, refl, parse-some n h bytes fits)

  short_enough : (n m : ℕ) → n ≤ m → ltb m n ≡ false
  short_enough n m h = ground arith

  -- Of a chunk of the length that a valid parser awaits. Without a header: for a wrong magic number
  -- that error alone is emitted; else, where a byte follows a zero of the name, the parser throws for
  -- the padding and stays as it is; else, for a size above the limit that error alone is emitted;
  -- else nothing is emitted, and the payload is awaited under the header with the name before the
  -- zeros, the size and the checksum. With a header: for a wrong checksum that error alone is
  -- emitted, and else the packet or the error that `fromRaw` gives. After each event the next header
  -- is awaited.
  pub parse_reports :
      (f : Framing) (bytes : Bytes)
      → IsFramed f
      → length bytes ≡ f.waiting
      → ((f.header ≡ none) × HeaderReport f bytes (parse wire f bytes))
        ⊎ ((h : Header) × (f.header ≡ some h) × PayloadReport h bytes (parse wire f bytes))
  parse_reports f bytes (floor, small, idle) n =
      by_header f.waiting f.header bytes
        (short_enough (length bytes) max_message (omega (arith, small, n))) idle n
