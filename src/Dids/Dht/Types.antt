-- ===== src/Dids/Dht/Types.antt =====
-- The data of packages/dids/src/methods/did-dht.ts: what it uses of a DID document, DNS records, and the keys that
-- it calls.
use web5_js.Base.{ℕ, Text, Option, List, Result}

pub data DhtError : Type 0 where
  invalid_public_key_type invalid_previous_did_proof not_found : DhtError
  invalid_did invalid_public_key invalid_public_key_length invalid_signature : DhtError
  method_not_supported invalid_did_document : DhtError
  internal_error : Text → DhtError
  invalid_did_document_length : ℕ → DhtError
  -- an error that is no `DidError`
  external : Text → DhtError

-- A string or an array of strings
pub data Value : Type 0 where
  one : Text → Value
  many : List Text → Value

-- A verification method of type `JsonWebKey`, over the type of its public key
pub record VerificationMethod (K : Type 0) : Type 0 where
  pub id : Text
  pub controller : Text
  pub public_key : Option K

-- A service, with the properties that are not named
pub record Service : Type 0 where
  pub id : Text
  pub kind : Text
  pub service_endpoint : Value
  pub properties : List (Text × Value)

-- The DID document. An empty array of verification methods or of services is one that is not there.
pub record Document (K : Type 0) : Type 0 where
  pub id : Text
  pub also_known_as : Option (List Text)
  pub controller : Option Value
  pub verification_method : List (VerificationMethod K)
  pub service : List Service
  pub authentication : Option (List Text)
  pub assertion_method : Option (List Text)
  pub key_agreement : Option (List Text)
  pub capability_invocation : Option (List Text)
  pub capability_delegation : Option (List Text)

pub data Chunk : Type 0 where
  text : Text → Chunk
  bytes : List ℕ → Chunk

-- `TxtData`
pub data TxtData : Type 0 where
  single : Chunk → TxtData
  chunks : List Chunk → TxtData

-- An answer of a DNS packet; `other` is one of a type that is not TXT, with its name.
pub data Answer : Type 0 where
  txt : Text → TxtData → Answer
  other : Text → Text → Answer

pub record PreviousDidProof : Type 0 where
  pub previous_did : Text
  pub signature : Text

-- JWKs, their conversions for a curve (`Ed25519`, `Secp256k1`, `Secp256r1`, `X25519`, the elliptic curves with
-- compressed keys), `computeJwkThumbprint`, base64url and UTF-8
pub record Keys : Type 1 where
  pub Jwk : Type 0
  pub curve : Jwk → Option Text
  pub algorithm : Jwk → Option Text
  pub set_algorithm : Option Text → Jwk → Jwk
  pub public_key_to_bytes : Text → Jwk → Result DhtError (List ℕ)
  pub bytes_to_public_key : Text → List ℕ → Result DhtError Jwk
  pub thumbprint : Jwk → Text
  pub base64url_to_bytes : Text → Result DhtError (List ℕ)
  pub bytes_to_base64url : List ℕ → Text
  pub utf8_to_text : List ℕ → Text
