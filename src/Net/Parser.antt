-- ===== src/Net/Parser.antt =====
-- lib/net/parser.js: the parser that cuts the bytes of a connection into packets. What `feed` emits
-- is returned in order, and an exception that leaves it is the field `thrown`.
pub mod Stream
pub mod Validity
pub mod Chunks
pub mod Padding
pub mod Reports
use bcoin.Prelude.{
  ℕ, zero, suc, ◌+◌, ◌-◌, ◌*◌, ◌%◌, Bool, true, false, not, ◌&&◌, Option, none, some, List, [], ◌∷◌,
  ◌++◌, map, ◌⊎◌, inl, inr, ltb, leb, ◌==◌, if◌then◌else◌, length, take, drop,
}
use bcoin.Script.Types.{Bytes}
use bcoin.Net.Words.{read_u32_le}

-- What the parser takes from elsewhere: the magic number of the network, hash256, and `fromRaw` of
-- the packets, which returns a packet or throws.
pub record Wire : Type 1 where
  pub Packet : Type 0
  pub Failure : Type 0
  pub magic : ℕ
  pub hash256 : Bytes → Bytes
  pub from_raw : Bytes → Bytes → Failure ⊎ Packet

abbrev pub max_message : ℕ
max_message = 3 * 1024 * 1024

-- `cmd` is the list of its character codes.
pub record Header : Type 0 where
  pub cmd : Bytes
  pub size : ℕ
  pub checksum : ℕ

-- The two fields of the parser that `parse` changes, and the two that `feed` changes.
pub record Framing : Type 0 where
  pub waiting : ℕ
  pub header : Option Header

pub record Parser : Type 0 where
  pub pending : List Bytes
  pub total : ℕ
  pub framing : Framing

abbrev pub awaiting_header : Framing
awaiting_header = record { waiting = 24; header = none }

-- `new Parser(network)`.
abbrev pub initial : Parser
initial = record { pending = []; total = 0; framing = awaiting_header }

pub data Thrown : Type 0 where
  assertion_failed invalid_padding type_error : Thrown

-- The padding loop of `parseHeader`, at byte i of the header; `none` is its exception.
unfoldable pub command_end : Bytes → ℕ → ℕ → Option ℕ
command_end [] i end = some end
command_end (b ∷ bytes) i end =
    let rest = command_end bytes (suc i) (if b == 0 && end == 16 then i else end) in
    if not (b == 0) && ltb end 16 then none else rest

-- One turn of the loop of `feed`, over any state; and the chunk that it gathers. `none` is the read
-- of an element of an empty `pending`.
unfoldable pub gather : List Bytes → ℕ → Option (Bytes × List Bytes)
gather [] zero = some ([], [])
gather [] (suc n) = none
gather (c ∷ cs) zero = some ([], c ∷ cs)
gather (c ∷ cs) (suc n) = elim (leb (length c) (suc n)) [
  | true ↦ elim (gather cs (suc n - length c)) [
    | none ↦ none
    | some (chunk, pending) ↦ some (c ++ chunk, pending)
  ]
  | false ↦ some (take (suc n) c, drop (suc n) c ∷ cs)
]

module _ (wire : Wire) where
  pub data Event : Type 0 where
    packet : wire.Packet → Event
    payload_error : wire.Failure → Event
    invalid_checksum : ℕ → Event
    invalid_magic : ℕ → Event
    too_large : ℕ → Event

  -- How a call ends: the state it leaves, what it emitted, what it threw.
  pub record Outcome (S : Type 0) : Type 0 where
    pub state : S
    pub events : List Event
    pub thrown : Option Thrown

  abbrev pub emit : Framing → List Event → Outcome Framing
  emit framing events = record { state = framing; events = events; thrown = none }

  abbrev pub throw : Framing → Thrown → Outcome Framing
  throw framing e = record { state = framing; events = []; thrown = some e }

  -- toString('ascii') drops the high bit of each byte.
  unfoldable pub parse_size : Framing → Bytes → ℕ → Outcome Framing
  parse_size framing bytes end =
      let size = read_u32_le bytes 16 in
      if ltb max_message size
      then emit awaiting_header (too_large size ∷ [])
      else emit
          (record {
            waiting = size;
            header = some (record {
              cmd = map (λ b. b % 128) (take (end - 4) (drop 4 bytes));
              size = size;
              checksum = read_u32_le bytes 20;
            });
          })
          []

  unfoldable pub parse_header : Framing → Bytes → Outcome Framing
  unfolding parse_size
  parse_header framing bytes =
      let magic = read_u32_le bytes 0 in
      if not (magic == wire.magic)
      then emit (record framing { header = none }) (invalid_magic magic ∷ [])
      else elim (command_end (take 12 (drop 4 bytes)) 4 16) [
        | none ↦ throw framing invalid_padding
        | some end ↦ parse_size framing bytes end
      ]

  unfoldable pub parse_payload : Header → Bytes → List Event
  parse_payload header bytes = elim (wire.from_raw header.cmd bytes) [
    | inl e ↦ payload_error e ∷ []
    | inr payload ↦ packet payload ∷ []
  ]

  unfoldable pub parse : Framing → Bytes → Outcome Framing
  unfolding parse_header parse_payload
  parse framing bytes =
      if ltb max_message (length bytes)
      then throw framing assertion_failed
      else elim framing.header [
        | none ↦ parse_header framing bytes
        | some header ↦
            let checksum = read_u32_le (wire.hash256 bytes) 0 in
            if not (checksum == header.checksum)
            then emit awaiting_header (invalid_checksum checksum ∷ [])
            else emit awaiting_header (parse_payload header bytes)
      ]

  abbrev pub after : {S : Type 0} → List Event → Option (Outcome S) → Option (Outcome S)
  after events none = none
  after events (some o) = some (record o { events = events ++ o.events })

  -- The loop of `feed`; `none` when the fuel is used up.
  unfoldable pub drain : ℕ → Parser → Option (Outcome Parser)
  drain zero p = none
  drain (suc fuel) p = elim (ltb p.total p.framing.waiting) [
    | true ↦ some (record { state = p; events = []; thrown = none })
    | false ↦ elim (gather p.pending p.framing.waiting) [
      | none ↦
          some (record { state = record p { pending = [] }; events = []; thrown = some type_error })
      | some (chunk, pending) ↦
          let turn = parse p.framing chunk in
          let total = p.total - p.framing.waiting in
          let next : Parser = record { pending = pending; total = total; framing = turn.state } in
          elim turn.thrown [
            | some e ↦ some (record { state = next; events = turn.events; thrown = some e })
            | none ↦ after turn.events (drain fuel next)
          ]
    ]
  ]

  abbrev pub push : Bytes → Parser → Parser
  push chunk p = record p { pending = p.pending ++ (chunk ∷ []); total = p.total + length chunk }

  unfoldable pub feed : Bytes → Parser → Option (Outcome Parser)
  unfolding drain
  feed chunk p = let p' = push chunk p in drain (2 * p'.total + 2) p'
