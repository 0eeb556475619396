-- ===== src/Base/ParseInt.antt =====
-- `parseInt` of JavaScript on ASCII text: leading white space is skipped, a sign is read, `0x` makes
-- the radix 16 where that is not excluded, and the longest front of digits is the number. `none` is
-- `NaN`. The numbers are exact; JavaScript rounds those above 2^53.
use web5_js.Base.Tests.{ltb, leb, ◌==◌, if◌then◌else◌}
use web5_js.Base.Texts.{Text}
use Prim.Native.Nat.{ℕ, ◌+◌, ◌-◌, ◌*◌}
use mathlib.Core.Bool.{Bool, true, false, ◌&&◌, ◌||◌}
use mathlib.Core.Option.{Option, none, some}
use mathlib.Core.List.{[], ◌∷◌}

-- A number of JavaScript that is an integer or `NaN`: `neg n` is -n, also -0.
pub data Number : Type 0 where
  nan : Number
  pos neg : ℕ → Number

-- White space and line terminators
unfoldable pub is_space : ℕ → Bool
is_space c =
    (leb 9 c && leb c 13)
    || (c == 32
        || (c == 0xa0
            || (c == 0x1680
                || ((leb 0x2000 c && leb c 0x200a)
                    || (c == 0x2028
                        || (c == 0x2029
                            || (c == 0x202f || (c == 0x205f || (c == 0x3000 || c == 0xfeff)))))))))

unfoldable pub trim_start : Text → Text
trim_start [] = []
trim_start (c ∷ s) = let rest = trim_start s in if is_space c then rest else c ∷ s

-- The value of a digit of any radix up to 36; 36 for any other unit
unfoldable pub digit : ℕ → ℕ
digit c =
    if leb b'0' c && leb c b'9'
    then c - b'0'
    else if leb b'a' c && leb c b'z'
    then c - 87
    else if leb b'A' c && leb c b'Z'
    then c - 55
    else 36

-- The digits in front, after those that make up the number so far
unfoldable pub digits_from : ℕ → ℕ → Text → ℕ
digits_from radix acc [] = acc
digits_from radix acc (c ∷ s) =
    let more = digits_from radix (acc * radix + digit c) s in
    if ltb (digit c) radix then more else acc

unfoldable pub digits : ℕ → Text → Option ℕ
digits radix [] = none
digits radix (c ∷ s) = if ltb (digit c) radix then some (digits_from radix 0 (c ∷ s)) else none

-- `0x` or `0X` in front: what follows, in radix 16
unfoldable pub hex_prefix : Text → Option Text
hex_prefix (z ∷ x ∷ s) = if z == b'0' && (x == b'x' || x == b'X') then some s else none
hex_prefix _ = none

abbrev magnitude_of : ℕ → Text → Option Text → Option ℕ
magnitude_of radix s (some t) = digits 16 t
magnitude_of radix s none = digits radix s

-- `radix` is 10 where none is given.
unfoldable pub magnitude : ℕ → Text → Option ℕ
magnitude radix s = magnitude_of radix s (hex_prefix s)

abbrev signed : Bool → Option ℕ → Number
signed negative none = nan
signed true (some n) = neg n
signed false (some n) = pos n

unfoldable pub sign_and_magnitude : ℕ → Text → Number
sign_and_magnitude radix [] = nan
sign_and_magnitude radix (c ∷ s) =
    if c == b'-'
    then signed true (magnitude radix s)
    else if c == b'+'
    then signed false (magnitude radix s)
    else signed false (magnitude radix (c ∷ s))

-- `parseInt(s)` for the radix 10, and `parseInt(s, 16)`
unfoldable pub parse_int : ℕ → Text → Number
unfolding sign_and_magnitude magnitude hex_prefix digits digits_from digit trim_start is_space
parse_int radix s = sign_and_magnitude radix (trim_start s)
