-- ===== src/Script/Encoding/Tests.antt =====
-- The test of signatures of lib/script/common.js on a short signature.
use bcoin.Prelude.{ℕ, ◌+◌, ◌≤◌, ◌≡◌, refl, ◌↔◌, true, [], ◌∷◌, length}
use bcoin.Script.Types.{Bytes}
use bcoin.Script.Encoding.{is_signature_encoding}
use bcoin.Script.Encoding.Der.{der, is_positive, is_signature_encoding_lem}

-- R is 5, S is 0x80 with its zero byte, and the type is 1.
abbrev shortest : Bytes
shortest = 0x30 ∷ 7 ∷ 0x02 ∷ 1 ∷ 5 ∷ 0x02 ∷ 2 ∷ 0 ∷ 0x80 ∷ 1 ∷ []

shortest_accepted : is_signature_encoding shortest ≡ true
unfolding is_signature_encoding
shortest_accepted = refl

is_signature_encoding_lem_example : (is_signature_encoding shortest ≡ true) ↔ (
    (r s : Bytes) × (type : ℕ) × (shortest ≡ der r s type)
    × (is_positive r ≡ true)
    × (is_positive s ≡ true)
    × (length r + length s ≤ 66))
is_signature_encoding_lem_example = is_signature_encoding_lem shortest
