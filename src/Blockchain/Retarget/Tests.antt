-- ===== src/Blockchain/Retarget/Tests.antt =====
-- Retargeting on small chains.
use bcoin.Prelude.{ℕ, ◌*◌, ◌/◌, ◌≤◌, ◌≡◌, refl, false, some, [], ◌∷◌, arith}
use bcoin.Protocol.Compact.{from_compact}
use bcoin.Blockchain.VersionBits.{Entry}
use bcoin.Blockchain.Retarget.{Pow, target_of, retarget, get_dgw_target, get_target}
use bcoin.Blockchain.Retarget.Bounds.{IsCapped, Within, retarget-IsCapped, get_dgw_target-IsCapped}

-- Targets below 2^16 have at most two bytes.
abbrev toy_length : ℕ → ℕ
toy_length n = 2

abbrev pow : Pow
pow = record {
  bits = 0x0300ffff;
  limit = 0xffff;
  target_timespan = 40;
  target_spacing = 10;
  retarget_interval = 4;
  target_reset = false;
  no_retargeting = false;
  dgw_height = 100;
  dgw_blocks = 2;
  genesis_time = 0;
}

abbrev block : ℕ → Entry
block t = record { hash = t; version = 0; time = t; bits = 0x03001000 }

target_at : target_of 0x03001000 ≡ some 0x1000
unfolding from_compact
target_at = refl

retarget-IsCapped_example :
    (new bits : ℕ) × (retarget toy_length pow (block 70) (block 10) ≡ some bits)
    × IsCapped toy_length pow new bits
    × (0x1000 * (40 / 4) / 40 ≤ new)
    × (new ≤ 0x1000 * 4)
retarget-IsCapped_example =
    retarget-IsCapped toy_length pow (block 70) (block 10) 0x1000 refl (omega arith) target_at

within : (t : ℕ) → Within 0x0800 0x2000 (block t)
within t = (0x1000, target_at, omega arith, omega arith)

get_dgw_target-IsCapped_example :
    (new bits : ℕ) × (get_dgw_target toy_length pow (block 70 ∷ block 50 ∷ block 10 ∷ [])
      ≡ some bits)
    × IsCapped toy_length pow new bits
    × (0x0800 * (20 / 3) / 20 ≤ new)
    × (new ≤ 0x2000 * 3)
get_dgw_target-IsCapped_example =
    get_dgw_target-IsCapped toy_length pow (block 70) (block 50 ∷ block 10 ∷ []) 0x0800 0x2000
      (omega arith) (omega arith) (within 70) (within 50, tt)

-- Off the interval the bits are those of the last block.
kept : get_target toy_length pow 80 (block 70 ∷ block 50 ∷ []) ≡ some 0x03001000
unfolding get_target
kept = refl
