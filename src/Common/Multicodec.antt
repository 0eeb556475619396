-- ===== src/Common/Multicodec.antt =====
-- `Multicodec` of packages/common/src/multicodec.ts.
pub mod Prefix
use web5_js.Base.{
  ℕ, zero, suc, ◌+◌, ◌-◌, Text, codes, Option, none, some, List, [], ◌∷◌, ◌++◌, Bool, true, false,
  not, ◌==◌, if◌then◌else◌, is_given, length, drop, lookup, insert, Result, ok, err, ◌>>=◌, ◌>>◌,
  guard, ◌≡◌,
}

pub data CodecError : Type 0 where
  name_or_code unsupported not_a_varint : CodecError

-- `varint` of `multiformats`: the encoding of a number, and the number in front of some bytes with
-- the length of its encoding, or a throw.
pub record Varint : Type 0 where
  pub encode : ℕ → List ℕ
  pub decode : List ℕ → Option (ℕ × ℕ)
  pub decode-encode :
      (n : ℕ) (rest : List ℕ) → decode (encode n ++ rest) ≡ some (n, length (encode n))

-- `codeToName.get(code)`
unfoldable pub lookup_code : ℕ → List (ℕ × Text) → Option Text
lookup_code c [] = none
lookup_code c ((k, name) ∷ m) = if k == c then some name else lookup_code c m

-- `codeToName.set(code, name)`
unfoldable pub insert_code : ℕ → Text → List (ℕ × Text) → List (ℕ × Text)
insert_code c name [] = (c, name) ∷ []
insert_code c name ((k, old) ∷ m) =
    if k == c then (k, name) ∷ m else (k, old) ∷ insert_code c name m

-- The two static maps
pub record Registry : Type 0 where
  pub code_to_name : List (ℕ × Text)
  pub name_to_code : List (Text × ℕ)

unfoldable pub register_codec : ℕ → Text → Registry → Registry
register_codec c name r = record {
  code_to_name = insert_code c name r.code_to_name;
  name_to_code = insert name c r.name_to_code;
}

-- A number as a condition: 0 is falsy.
abbrev pub is_nonzero : Option ℕ → Bool
is_nonzero none = false
is_nonzero (some zero) = false
is_nonzero (some (suc n)) = true

-- `nameToCode.get(name!)`
abbrev pub code_of_name : Registry → Option Text → Option ℕ
code_of_name r none = none
code_of_name r (some name) = lookup name r.name_to_code

abbrev pub code_if : Option Text → ℕ → Option ℕ → Option ℕ
code_if none c other = other
code_if (some _) c other = some c

-- `codeToName.has(code!) ? code : nameToCode.get(name!)`
unfoldable pub resolve_code : Registry → Option ℕ → Option Text → Option ℕ
resolve_code r none name = code_of_name r name
resolve_code r (some c) name = code_if (lookup_code c r.code_to_name) c (code_of_name r name)

abbrev pub with_code : Varint → List ℕ → Option ℕ → Result CodecError (List ℕ)
with_code varint bytes none = err unsupported
with_code varint bytes (some c) = ok (varint.encode c ++ bytes)

unfoldable pub add_prefix :
    Varint → Registry → Option ℕ → Option Text → List ℕ → Result CodecError (List ℕ)
add_prefix varint r code name bytes = do
  guard (if is_given name then not (is_nonzero code) else is_nonzero code) name_or_code
  with_code varint bytes (resolve_code r code name)

-- A codec, its name and the bytes behind the prefix
abbrev pub Unprefixed : Type 0
Unprefixed = ℕ × Text × List ℕ

abbrev pub named : ℕ → List ℕ → Option Text → Result CodecError Unprefixed
named c bytes none = err unsupported
named c bytes (some name) = ok (c, name, bytes)

abbrev pub split_prefix : Registry → List ℕ → Option (ℕ × ℕ) → Result CodecError Unprefixed
split_prefix r bytes none = err not_a_varint
split_prefix r bytes (some (c, n)) = named c (drop n bytes) (lookup_code c r.code_to_name)

unfoldable pub remove_prefix : Varint → Registry → List ℕ → Result CodecError Unprefixed
remove_prefix varint r bytes = split_prefix r bytes (varint.decode bytes)

abbrev pub or_unsupported : {A : Type 0} → Option A → Result CodecError A
or_unsupported none = err unsupported
or_unsupported (some a) = ok a

unfoldable pub get_code_from_name : Registry → Text → Result CodecError ℕ
get_code_from_name r name = or_unsupported (lookup name r.name_to_code)

unfoldable pub get_name_from_code : Registry → ℕ → Result CodecError Text
get_name_from_code r c = or_unsupported (lookup_code c r.code_to_name)
