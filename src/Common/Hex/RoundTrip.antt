-- ===== src/Common/Hex/RoundTrip.antt =====
-- Writing bytes in hexadecimal and reading them back, with packages/common/src/convert.ts.
use web5_js.Base.{
  ℕ, ◌*◌, ◌/◌, ◌%◌, ◌<◌, ◌≤◌, List, [], ◌∷◌, Option, none, some, Bool, true, false, ltb, ◌==◌,
  length, ok, ◌≡◌, ◌≢◌, refl, ap, arith, All,
}
use web5_js.Base.Range.{every_under, every_under-at}
use web5_js.Base.ParseInt.{
  pos, parse_int, sign_and_magnitude, magnitude, hex_prefix, digits, digits_from, digit, trim_start,
  is_space,
}
use web5_js.Common.Hex.{hex_digit, hex_of, to_hex, pair_value, bytes_of, hex_to_bytes}

is_some_of : Option ℕ → ℕ → Bool
is_some_of none b = false
is_some_of (some a) b = a == b

is_some_of_sound : (o : Option ℕ) (b : ℕ) → is_some_of o b ≡ true → o ≡ some b
unfolding is_some_of
is_some_of_sound none b h = cc
is_some_of_sound (some a) b h = ap some (ground arith)

-- Every byte is read back.
reads_back : ℕ → Bool
reads_back b = is_some_of (pair_value (hex_digit (b / 16)) (hex_digit (b % 16))) b

all_read_back : every_under reads_back 256 ≡ true
unfolding every_under reads_back is_some_of pair_value hex_digit parse_int
all_read_back = refl

pair_value-hex_digit :
    (b : ℕ) → b < 256 → pair_value (hex_digit (b / 16)) (hex_digit (b % 16)) ≡ some b
unfolding reads_back
pair_value-hex_digit b h = is_some_of_sound _ b (every_under-at reads_back 256 b all_read_back h)

bytes_of-to_hex : (bs : List ℕ) → All (λ b. b < 256) bs → bytes_of (to_hex bs) ≡ ok bs
unfolding bytes_of to_hex hex_of
bytes_of-to_hex [] _ = refl
bytes_of-to_hex (b ∷ bs) (h, hs) = rw (pair_value-hex_digit b h, bytes_of-to_hex bs hs) refl

length-to_hex : (bs : List ℕ) → length (to_hex bs) ≡ 2 * length bs
unfolding to_hex hex_of
length-to_hex [] = refl
length-to_hex (b ∷ bs) = omega (arith, length-to_hex bs)

-- Bytes written by `toHex` are read back by `Convert.hex` and `toUint8Array` as the same bytes.
pub hex_to_bytes-to_hex : (bs : List ℕ) → All (λ b. b < 256) bs → hex_to_bytes (to_hex bs) ≡ ok bs
unfolding hex_to_bytes
hex_to_bytes-to_hex bs h =
    let even : (length (to_hex bs) % 2 == 0) ≡ true = ground (arith, length-to_hex bs) in
    rw even (bytes_of-to_hex bs h)

digit_unspaced : (c : ℕ) → digit c < 16 → is_space c ≡ false
unfolding digit is_space
digit_unspaced c h = ground arith

digit_unsigned : (c : ℕ) → digit c < 16 → ((c == b'-') ≡ false) × ((c == b'+') ≡ false)
unfolding digit
digit_unsigned c h = (ground arith, ground arith)

no_prefix : (c d : ℕ) → d ≢ b'x' → d ≢ b'X' → hex_prefix (c ∷ d ∷ []) ≡ none
unfolding hex_prefix
no_prefix c d l m = ground arith

one_digit : (c d : ℕ) → digit c < 16 → 16 ≤ digit d → digits 16 (c ∷ d ∷ []) ≡ some (digit c)
unfolding digits digits_from
one_digit c d h k =
    let first : ltb (digit c) 16 ≡ true = ground arith in
    let second : ltb (digit d) 16 ≡ false = ground arith in
    rw (first, second) (ap some (omega arith))

magnitude_half :
    (c d : ℕ)
    → digit c < 16
    → 16 ≤ digit d
    → d ≢ b'x'
    → d ≢ b'X'
    → magnitude 16 (c ∷ d ∷ []) ≡ some (digit c)
unfolding magnitude
magnitude_half c d h k l m = rw (no_prefix c d l m, one_digit c d h k) refl

parse_int_half :
    (c d : ℕ)
    → digit c < 16
    → 16 ≤ digit d
    → d ≢ b'x'
    → d ≢ b'X'
    → parse_int 16 (c ∷ d ∷ []) ≡ pos (digit c)
unfolding parse_int trim_start sign_and_magnitude
parse_int_half c d h k l m =
    let (a, b) = digit_unsigned c h in
    rw (digit_unspaced c h, a, b, magnitude_half c d h k l m) refl

-- `parseInt` stops at what is no digit: a pair of which only the first unit is a hexadecimal digit, and
-- that is not `0x` or `0X`, is read as that digit alone where a valid text would have two.
pub hex_to_bytes_half :
    (c d : ℕ)
    → digit c < 16
    → 16 ≤ digit d
    → d ≢ b'x'
    → d ≢ b'X'
    → hex_to_bytes (c ∷ d ∷ []) ≡ ok (digit c ∷ [])
unfolding hex_to_bytes bytes_of pair_value
hex_to_bytes_half c d h k l m =
    rw (parse_int_half c d h k l m) (ap (λ b. ok (b ∷ [])) (omega arith))
