-- ===== src/Credentials/StatusList.antt =====
-- `StatusListCredential` of packages/credentials/src/status-list-credential.ts.
pub mod Bits
pub mod Numbers
pub mod Laws
use web5_js.Base.{
  ℕ, zero, suc, ◌+◌, ◌-◌, ◌*◌, ◌/◌, ◌%◌, ◌^◌, ◌<◌, Text, codes, Option, none, some, List, [], ◌∷◌,
  ◌++◌, map, Bool, true, false, ◌&&◌, ◌||◌, not, ◌===◌, ◌==◌, leb, if◌then◌else◌, truthy, includes,
  Result, ok, err, ◌>>=◌, ◌>>◌, guard, get_elem?, set, length, replicate, All, ◌≡◌,
}
use web5_js.Base.ParseInt.{Number, nan, pos, neg, parse_int}
use Prim.Native.Nat.{bit_or}

-- `StatusList2021Entry`
pub record Entry : Type 0 where
  pub status_purpose : Text
  pub status_list_index : Text

-- The `credentialStatus` of a credential
pub record Credential : Type 0 where
  pub credential_status : Option Entry

-- The subject of a status list credential
pub record StatusList : Type 0 where
  pub id : Text
  pub status_purpose : Text
  pub encoded_list : Text

pub data Error : Type 0 where
  no_status purpose_mismatch negative_index index_too_large : Error
  duplicate : Text → Error
  purpose_undefined list_purpose_undefined purposes_differ bitstring_empty : Error
  -- the decoder or the decompressor threw
  not_decoded : Error
  -- `credentialStatus!` was undefined
  type_error : Error

-- `pako` and the base64url codec of `multiformats`.
pub record Codec : Type 0 where
  pub gzip : List ℕ → List ℕ
  pub inflate : List ℕ → Option (List ℕ)
  pub encode : List ℕ → Text
  pub decode : Text → Option (List ℕ)

-- What the program relies on: reading back what was written, which is not empty.
pub record IsCodec (c : Codec) : Type 0 where
  pub inflate-gzip : (bs : List ℕ) → c.inflate (c.gzip bs) ≡ some bs
  pub decode-encode : (bs : List ℕ) → c.decode (c.encode bs) ≡ some bs
  pub encode_given : (bs : List ℕ) → truthy (c.encode (c.gzip bs)) ≡ true

-- `BITSTRING_SIZE / 8`, with the size of 16 KiB in bits
unfoldable pub bitstring_bytes : ℕ
bitstring_bytes = 16 * 1024

abbrev or_zero : Option ℕ → ℕ
or_zero none = 0
or_zero (some b) = b

-- The byte at a place; `undefined` beyond the end is 0 for the bit operators.
unfoldable pub byte_at : List ℕ → ℕ → ℕ
byte_at bytes i = or_zero (get_elem? bytes i)

-- `bitArray[byteIndex] | (1 << (7 - bitIndex))`
unfoldable pub set_bit : List ℕ → ℕ → List ℕ
unfolding byte_at
set_bit bytes n = set bytes (n / 8) (bit_or (byte_at bytes (n / 8)) (2 ^ (7 - n % 8)))

-- `((byte >> (7 - bitIndex)) & 1) === 1`
unfoldable pub bit_of : ℕ → ℕ → Bool
bit_of byte i = (byte / 2 ^ (7 - i)) % 2 == 1

unfoldable pub has_bit : List ℕ → ℕ → Bool
unfolding byte_at bit_of
has_bit bytes n = bit_of (byte_at bytes (n / 8)) (n % 8)

-- An index into a typed array: `NaN` and negative numbers are outside, -0 is 0.
unfoldable pub index_of : Number → Option ℕ
index_of nan = none
index_of (pos n) = some n
index_of (neg zero) = some 0
index_of (neg (suc n)) = none

-- A write outside of the array is ignored.
abbrev pub set_at : List ℕ → Option ℕ → List ℕ
set_at bytes none = bytes
set_at bytes (some i) = set_bit bytes i

unfoldable pub set_number : List ℕ → Number → List ℕ
set_number bytes n = set_at bytes (index_of n)

unfoldable pub set_numbers : List ℕ → List Number → List ℕ
set_numbers bytes [] = bytes
set_numbers bytes (n ∷ ns) = set_numbers (set_number bytes n) ns

unfoldable pub generate_bit_string : Codec → List Number → Text
generate_bit_string c ns = c.encode (c.gzip (set_numbers (replicate bitstring_bytes 0) ns))

abbrev pub bit_at : List ℕ → Option ℕ → Bool
bit_at bytes none = false
bit_at bytes (some i) = has_bit bytes i

abbrev pub bit_in : Option (List ℕ) → Option ℕ → Result Error Bool
bit_in none i = err not_decoded
bit_in (some bytes) i = ok (bit_at bytes i)

abbrev pub inflated_bit : Codec → Option (List ℕ) → Option ℕ → Result Error Bool
inflated_bit c none i = err not_decoded
inflated_bit c (some bytes) i = bit_in (c.inflate bytes) i

unfoldable pub get_bit : Codec → Text → Number → Result Error Bool
get_bit c s n = inflated_bit c (c.decode s) (index_of n)

abbrev pub is_negative : Number → Bool
is_negative (neg (suc n)) = true
is_negative _ = false

-- `parseInt(…) >= BITSTRING_SIZE`
abbrev pub is_too_large : Number → Bool
is_too_large (pos n) = leb (8 * bitstring_bytes) n
is_too_large _ = false

-- One round of the loop: the indexes seen, with that of the entry.
unfoldable pub add_entry : Text → List Text → Option Entry → Result Error (List Text)
add_entry purpose seen none = err no_status
add_entry purpose seen (some e) = do
  guard (e.status_purpose === purpose) purpose_mismatch
  guard (not (includes seen e.status_list_index)) (duplicate e.status_list_index)
  guard (not (is_negative (parse_int 10 e.status_list_index))) negative_index
  guard (not (is_too_large (parse_int 10 e.status_list_index))) index_too_large
  ok (seen ++ (e.status_list_index ∷ []))

unfoldable pub unique_indexes : Text → List Text → List Credential → Result Error (List Text)
unique_indexes purpose seen [] = ok seen
unique_indexes purpose seen (vc ∷ vcs) = do
  seen' ← add_entry purpose seen vc.credential_status
  unique_indexes purpose seen' vcs

unfoldable pub validate_indexes : Text → List Credential → Result Error (List Number)
validate_indexes purpose vcs = do
  indexes ← unique_indexes purpose [] vcs
  ok (map (parse_int 10) indexes)

-- `create`: the subject of the new credential. Its other fields are passed on.
unfoldable pub create : Codec → Text → Text → List Credential → Result Error StatusList
create c id purpose vcs = do
  numbers ← validate_indexes purpose vcs
  ok (record { id = id; status_purpose = purpose; encoded_list = generate_bit_string c numbers })

unfoldable pub validate_entry : Codec → Entry → StatusList → Result Error Bool
validate_entry c e list = do
  guard (truthy e.status_purpose) purpose_undefined
  guard (truthy list.status_purpose) list_purpose_undefined
  guard (e.status_purpose === list.status_purpose) purposes_differ
  guard (truthy list.encoded_list) bitstring_empty
  get_bit c list.encoded_list (parse_int 10 e.status_list_index)

abbrev pub validate_status : Codec → Option Entry → StatusList → Result Error Bool
validate_status c none list = err type_error
validate_status c (some e) list = validate_entry c e list

unfoldable pub validate_credential_in_status_list :
    Codec → Credential → StatusList → Result Error Bool
validate_credential_in_status_list c vc list = validate_status c vc.credential_status list
