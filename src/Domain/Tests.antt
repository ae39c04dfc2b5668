-- ===== src/Domain/Tests.antt =====
-- Runs of the domain values at concrete inputs.
use caly.Base.{◌≡◌, refl, ℕ, ◌↔◌, ◌<◌, false, none, [], ◌∷◌, ◌++◌}
use caly.Domain.Identity.{
  parse_hex, to_hex, AreBytes, id_bytes, lower, parse_hex-to_hex, to_hex-parse_hex, parse_pairs,
  parse_byte, hex_nibble,
}
use caly.Base.{length, map, List, ◌++◌, arith, ℕ}
use caly.Base.Result.{ok}
use caly.Domain.Text.{Text, is_char_boundary, from_nonempty_clamped, truncate, codes}
use caly.Domain.Text.Clamp.{from_nonempty_clamped-none_iff}

-- Two characters of three bytes, cut at four bytes.
from_nonempty_clamped-none_iff_example :
    (from_nonempty_clamped 4 (0x20AC ∷ 0x20AC ∷ []) (codes "_") ≡ none)
    ↔ ((4 < 6) × (is_char_boundary (0x20AC ∷ 0x20AC ∷ []) 4 ≡ false))
from_nonempty_clamped-none_iff_example =
    from_nonempty_clamped-none_iff 4 0x20AC (0x20AC ∷ []) (codes "_")

clamp_panics : from_nonempty_clamped 4 (0x20AC ∷ 0x20AC ∷ []) (codes "_") ≡ none
unfolding from_nonempty_clamped truncate is_char_boundary
clamp_panics = refl

abbrev sixteen : List ℕ
sixteen = 0 ∷ 1 ∷ 255 ∷ 16 ∷ 171 ∷ 0 ∷ 0 ∷ 0 ∷ 0 ∷ 0 ∷ 0 ∷ 0 ∷ 0 ∷ 0 ∷ 0 ∷ 7 ∷ []

sixteen-AreBytes : AreBytes sixteen
sixteen-AreBytes = ground arith

parse_hex-to_hex_example : parse_hex (to_hex sixteen) ≡ ok sixteen
parse_hex-to_hex_example = parse_hex-to_hex sixteen refl sixteen-AreBytes

abbrev shouted : List ℕ
shouted = codes "0001FF10AB00000000000000000000" ++ codes "07"

to_hex-parse_hex_example :
    (length sixteen ≡ id_bytes) × AreBytes sixteen × (to_hex sixteen ≡ map lower shouted)
unfolding parse_hex parse_pairs parse_byte hex_nibble
to_hex-parse_hex_example = to_hex-parse_hex shouted sixteen refl
