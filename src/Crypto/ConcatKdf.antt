-- ===== src/Crypto/ConcatKdf.antt =====
-- `ConcatKdf` of packages/crypto/src/primitives/concat-kdf.ts: the derivation of a key with one round of SHA-256.
-- SHA-256 and UTF-8 are parameters; bytes are numbers.
pub mod Framing
use web5_js.Base.{
  ℕ, ◌+◌, ◌/◌, ◌%◌, Text, Option, none, some, List, [], ◌∷◌, ◌++◌, Bool, true, false, if◌then◌else◌,
  ◌==◌, length, take, Result, ok, err,
}

pub data KdfError : Type 0 where
  not_supported : ℕ → KdfError

-- A string or a `Uint8Array`. An array of another type, for which `Convert` throws, is not modelled.
pub data Data : Type 0 where
  text : Text → Data
  bytes : List ℕ → Data

-- `ConcatKdfFixedInfo`
pub record FixedInfo : Type 0 where
  pub algorithm_id : Text
  pub party_u_info : Data
  pub party_v_info : Data
  pub supp_pub_info : Option ℕ
  pub supp_priv_info : Option Data

-- `setUint32`, which takes the number modulo 2 ^ 32, with the most significant byte first
unfoldable pub uint32 : ℕ → List ℕ
uint32 n = n / 16777216 % 256 ∷ n / 65536 % 256 ∷ n / 256 % 256 ∷ n % 256 ∷ []

-- `Math.ceil(keyDataLen / 256)`
unfoldable pub round_count : ℕ → ℕ
round_count key_data_len = (key_data_len + 255) / 256

module _ (utf8 : Text → List ℕ) where
  unfoldable pub to_bytes : Data → List ℕ
  to_bytes (text t) = utf8 t
  to_bytes (bytes b) = b

  -- `toDataLenData` with variable length
  unfoldable pub variable_data : Option Data → List ℕ
  variable_data none = []
  variable_data (some d) = uint32 (length (to_bytes d)) ++ to_bytes d

  -- `toDataLenData` with fixed length
  unfoldable pub fixed_data : Option ℕ → List ℕ
  fixed_data none = []
  fixed_data (some n) = uint32 n

  unfoldable pub compute_fixed_info : FixedInfo → List ℕ
  compute_fixed_info p =
      variable_data (some (text p.algorithm_id))
      ++ (variable_data (some p.party_u_info)
          ++ (variable_data (some p.party_v_info)
              ++ (fixed_data p.supp_pub_info ++ variable_data p.supp_priv_info)))

  unfoldable pub derive_key : (List ℕ → List ℕ) → ℕ → FixedInfo → List ℕ → Result KdfError (List ℕ)
  derive_key sha256 key_data_len fixed_info shared_secret =
      if round_count key_data_len == 1
      then ok (
          take (key_data_len / 8) (
            sha256 (
              uint32 (round_count key_data_len)
              ++ (shared_secret ++ compute_fixed_info fixed_info))))
      else err (not_supported (round_count key_data_len))
