-- ===== src/Common/Hex.antt =====
-- The hexadecimal conversions of `Convert` in packages/common/src/convert.ts.
pub mod RoundTrip
use web5_js.Base.{
  ℕ, zero, suc, ◌+◌, ◌-◌, ◌/◌, ◌%◌, Text, List, [], ◌∷◌, ◌++◌, Option, none, some, Bool, true,
  false, ltb, ◌==◌, length, if◌then◌else◌, Result, ok, err, ◌>>=◌, ◌>>◌, guard,
}
use web5_js.Base.ParseInt.{Number, nan, pos, neg, parse_int}

pub data HexError : Type 0 where
  odd_length not_hexadecimal : HexError

-- A digit of `i.toString(16)`
unfoldable pub hex_digit : ℕ → ℕ
hex_digit n = if ltb n 10 then b'0' + n else b'a' + (n - 10)

-- `hexes[i]`: two digits, for a byte
unfoldable pub hex_of : ℕ → Text
hex_of b = hex_digit (b / 16) ∷ hex_digit (b % 16) ∷ []

-- `toHex` of a Uint8Array
unfoldable pub to_hex : List ℕ → Text
to_hex [] = []
to_hex (b ∷ bs) = hex_of b ++ to_hex bs

-- What a Uint8Array stores of a number
abbrev pub byte_of : Number → Option ℕ
byte_of nan = none
byte_of (pos n) = some (n % 256)
byte_of (neg n) = some ((256 - n % 256) % 256)

unfoldable pub pair_value : ℕ → ℕ → Option ℕ
pair_value c d = byte_of (parse_int 16 (c ∷ d ∷ []))

abbrev pub push_byte : Option ℕ → Result HexError (List ℕ) → Result HexError (List ℕ)
push_byte none rest = err not_hexadecimal
push_byte (some b) (ok bs) = ok (b ∷ bs)
push_byte (some b) (err e) = err e

-- `toUint8Array`, for a text of even length. A unit that is left over is never read: `hex` refuses
-- such a text.
unfoldable pub bytes_of : Text → Result HexError (List ℕ)
bytes_of [] = ok []
bytes_of (c ∷ []) = ok []
bytes_of (c ∷ d ∷ s) = push_byte (pair_value c d) (bytes_of s)

-- `Convert.hex(data).toUint8Array()`
unfoldable pub hex_to_bytes : Text → Result HexError (List ℕ)
hex_to_bytes s = do guard (length s % 2 == 0) odd_length; bytes_of s
