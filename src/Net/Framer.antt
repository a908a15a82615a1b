-- ===== src/Net/Framer.antt =====
-- lib/net/framer.js: the header put before a packet's bytes.
pub mod RoundTrip
pub mod Delivery
use bcoin.Prelude.{
  ℕ, zero, suc, ◌+◌, ◌-◌, ◌%◌, ◌^◌, Bool, Option, none, some, List, [], ◌∷◌, ◌++◌, map, ltb, leb,
  if◌then◌else◌, length, take, replicate, not,
}
use bcoin.Script.Types.{Bytes}
use bcoin.Net.Words.{u32_le}
use bcoin.Net.Parser.{Wire}

module _ (wire : Wire) where
  -- `packet`; `none` is a failed assertion. The command is the list of its character codes, of which
  -- a Buffer keeps the low byte. The bytes of the header are written in the order of their places.
  unfoldable pub frame : Bytes → Bytes → Option Bytes → Option Bytes
  frame cmd payload checksum =
      if not (ltb (length cmd) 12)
      then none
      else if not (leb (length payload) 0xffffffff)
      then none
      else some (
          u32_le wire.magic
          ++ (map (λ c. c % 256) cmd
              ++ (replicate (12 - length cmd) 0
                  ++ (u32_le (length payload)
                      ++ (take 4 (elim checksum [ none ↦ wire.hash256 payload | some c ↦ c ])
                          ++ payload)))))
