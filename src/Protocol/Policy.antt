-- ===== src/Protocol/Policy.antt =====
-- The fees of lib/protocol/params/policy.js. The sizes, rates and fees are whole numbers that are not
-- negative, which the functions assert; a rate is always given.
use bcoin.Prelude.{ℕ, ◌+◌, ◌*◌, ◌/◌, ◌&&◌, ltb, ◌==◌, if◌then◌else◌}

-- `if (fee === 0 && rate > 0) fee = rate;`
abbrev pub or_rate : ℕ → ℕ → ℕ
or_rate fee rate = if fee == 0 && ltb 0 rate then rate else fee

unfoldable pub get_min_fee : ℕ → ℕ → ℕ
get_min_fee size rate = if size == 0 then 0 else or_rate (rate * size / 1000) rate

unfoldable pub get_round_fee : ℕ → ℕ → ℕ
get_round_fee size rate = if size == 0 then 0 else or_rate (rate * ((size + 999) / 1000)) rate
