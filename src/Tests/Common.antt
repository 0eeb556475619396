-- ===== src/Tests/Common.antt =====
-- The theorems about packages/common/src/convert.ts at concrete inputs.
use web5_js.Base.{ℕ, List, [], ◌∷◌, ok, ◌≡◌, ◌<◌, ◌≤◌, arith}
use web5_js.Base.ParseInt.{digit}
use web5_js.Common.Hex.{to_hex, hex_to_bytes}
use web5_js.Common.Hex.RoundTrip.{hex_to_bytes-to_hex}

abbrev three_bytes : List ℕ
three_bytes = 0 ∷ 171 ∷ 255 ∷ []

hex_to_bytes-to_hex_example : hex_to_bytes (to_hex three_bytes) ≡ ok three_bytes
hex_to_bytes-to_hex_example =
    hex_to_bytes-to_hex three_bytes (omega arith, (omega arith, (omega arith, tt)))

one_digit : digit b'1' < 16
unfolding digit
one_digit = omega arith

no_digit : 16 ≤ digit b'g'
unfolding digit
no_digit = omega arith
