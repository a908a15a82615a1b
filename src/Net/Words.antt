-- ===== src/Net/Words.antt =====
-- `readUInt32LE` and `writeUInt32LE` on byte lists.
use bcoin.Prelude.{ℕ, ◌+◌, ◌*◌, ◌/◌, ◌%◌, ◌^◌, ◌<◌, ◌≡◌, [], ◌∷◌, ◌++◌, arith, get_or}
use bcoin.Script.Types.{Bytes}

-- A byte past the end reads as 0; the callers read inside the buffer.
abbrev pub read_u32_le : Bytes → ℕ → ℕ
read_u32_le bytes off =
    get_or bytes off 0
    + 2 ^ 8 * get_or bytes (off + 1) 0
    + 2 ^ 16 * get_or bytes (off + 2) 0
    + 2 ^ 24 * get_or bytes (off + 3) 0

abbrev pub u32_le : ℕ → Bytes
u32_le n = n % 256 ∷ n / 2 ^ 8 % 256 ∷ n / 2 ^ 16 % 256 ∷ n / 2 ^ 24 % 256 ∷ []

pub read_u32_le-u32_le : (n : ℕ) (rest : Bytes) → n < 2 ^ 32 → read_u32_le (u32_le n ++ rest) 0 ≡ n
read_u32_le-u32_le n rest h = omega arith
