-- ===== src/Dids/Dht/ToPacket.antt =====
-- `DidDhtDocument.toDnsPacket` (packages/dids/src/methods/did-dht.ts): a DID document as the answers of a DNS packet.
use web5_js.Base.{
  ℕ, suc, Text, codes, Option, none, some, List, [], ◌∷◌, ◌++◌, map, Bool, true, false, not,
  if◌then◌else◌, ◌===◌, ◌&&◌, includes, truthy, get_elem?, lookup, insert, split, join, Result, ok,
  err, ◌>>=◌, ◌>>◌,
}
use web5_js.Base.Decimal.{decimal}
use web5_js.Dids.Dht.Types.{
  DhtError, invalid_public_key_type, Value, one, many, VerificationMethod, Service, Document, text,
  single, Answer, txt, other, PreviousDidProof, Keys,
}
use web5_js.Dids.Dht.Txt.{chunk_data_if_needed}

-- `DidDhtRegisteredKeyType[name]`, the number of a registered key type
unfoldable pub registered_key_type : Text → Option ℕ
registered_key_type c =
    if c === codes "Ed25519"
    then some 0
    else if c === codes "secp256k1"
    then some 1
    else if c === codes "secp256r1"
    then some 2
    else if c === codes "X25519"
    then some 3
    else none

-- The names of `AlgorithmToKeyTypeMap`
abbrev pub supported_algorithms : List Text
supported_algorithms =
    codes "Ed25519"
    ∷ codes "ES256K"
    ∷ codes "ES256"
    ∷ codes "P-256"
    ∷ codes "secp256k1"
    ∷ codes "secp256r1"
    ∷ codes "X25519"
    ∷ []

-- `KeyTypeToDefaultAlgorithmMap[keyType]`
unfoldable pub default_algorithm : Option ℕ → Option Text
default_algorithm none = none
default_algorithm (some n) =
    get_elem? (codes "EdDSA" ∷ codes "ES256K" ∷ codes "ES256" ∷ codes "ECDH-ES+A256KW" ∷ []) n

-- The curves that `keyConverter` has a converter for; it throws on others.
unfoldable pub has_converter : Text → Bool
has_converter c =
    includes (codes "Ed25519" ∷ codes "P-256" ∷ codes "secp256k1" ∷ codes "X25519" ∷ []) c

abbrev pub same_text : Option Text → Option Text → Bool
same_text none none = true
same_text none (some _) = false
same_text (some _) none = false
same_text (some a) (some b) = a === b

-- `${value}`
abbrev pub written : Option Text → Text
written none = codes "undefined"
written (some t) = t

abbrev pub written_type : Option ℕ → Text
written_type none = codes "undefined"
written_type (some n) = decimal n

abbrev pub last_or_empty : List Text → Text
last_or_empty [] = []
last_or_empty (s ∷ []) = s
last_or_empty (s ∷ t ∷ ts) = last_or_empty (t ∷ ts)

-- `id.split('#').pop()`
unfoldable pub fragment : Text → Text
fragment id = last_or_empty (split b'#' id)

-- `extractDidFragment(id)`
unfoldable pub extract_did_fragment : Text → Option Text
extract_did_fragment id = if truthy id then some (fragment id) else none

-- `${key}=${value}`
abbrev pub pair_text : Text × Text → Text
pair_text (key, value) = key ++ (b'=' ∷ value)

unfoldable pub pairs_text : List (Text × Text) → Text
pairs_text ps = join b';' (map pair_text ps)

-- `array.join(',')` of an array of strings; a string stays.
unfoldable pub value_text : Value → Text
value_text (one t) = t
value_text (many ts) = join b',' ts

abbrev pub record_name : Text → Text
record_name id = b'_' ∷ (id ++ codes "._did.")

abbrev pub txt_answer : Text → Text → Answer
txt_answer id t = txt (record_name id) (single (text t))

abbrev pub key_record_id : ℕ → Text
key_record_id i = b'k' ∷ decimal i

abbrev pub service_record_id : ℕ → Text
service_record_id i = b's' ∷ decimal i

-- A pair that is there if the test holds
abbrev pub pair_if : Bool → Text → Text → List (Text × Text)
pair_if true key value = (key, value) ∷ []
pair_if false key value = []

abbrev pub required_curve : Option Text → Result DhtError Text
required_curve none = err invalid_public_key_type
required_curve (some c) =
    if truthy c && includes supported_algorithms c then ok c else err invalid_public_key_type

module _ (keys : Keys) where
  abbrev pub required_key : Option keys.Jwk → Result DhtError keys.Jwk
  required_key none = err invalid_public_key_type
  required_key (some key) = ok key

  unfoldable pub key_bytes : Text → keys.Jwk → Result DhtError (List ℕ)
  key_bytes c key =
      if has_converter c then keys.public_key_to_bytes c key else err invalid_public_key_type

  -- The pairs of the record of a verification method
  unfoldable pub key_pairs :
      Text → VerificationMethod keys.Jwk → keys.Jwk → Text → Text → List (Text × Text)
  key_pairs did method key c encoded =
      pair_if
        (not (fragment method.id === codes "0") && not (keys.thumbprint key === fragment method.id))
        (codes "id") (fragment method.id)
      ++ ((codes "t", written_type (registered_key_type c))
          ∷ (codes "k", encoded)
          ∷ (pair_if
                (not (same_text (keys.algorithm key) (default_algorithm (registered_key_type c))))
                (codes "a") (written (keys.algorithm key))
              ++ pair_if (not (method.controller === did)) (codes "c") method.controller))

  unfoldable pub key_answer : Text → ℕ → VerificationMethod keys.Jwk → Result DhtError Answer
  key_answer did i method = do
    key ← required_key method.public_key
    c ← required_curve (keys.curve key)
    b ← key_bytes c key
    ok (
        txt_answer (key_record_id i)
          (pairs_text (key_pairs did method key c (keys.bytes_to_base64url b))))

  unfoldable pub key_answers :
      Text → ℕ → List (VerificationMethod keys.Jwk) → Result DhtError (List Answer)
  key_answers did i [] = ok []
  key_answers did i (method ∷ methods) = do
    a ← key_answer did i method
    rest ← key_answers did (suc i) methods
    ok (a ∷ rest)

  -- `idLookup`: from the fragments to the record IDs
  unfoldable pub id_lookup :
      ℕ → List (VerificationMethod keys.Jwk) → List (Text × Text) → List (Text × Text)
  id_lookup i [] m = m
  id_lookup i (method ∷ methods) m =
      id_lookup (suc i) methods (insert (fragment method.id) (key_record_id i) m)

-- `Object.entries` with the values as text, over the entries before
unfoldable pub insert_properties : List (Text × Value) → List (Text × Text) → List (Text × Text)
insert_properties [] m = m
insert_properties ((key, value) ∷ ps) m = insert_properties ps (insert key (value_text value) m)

unfoldable pub service_pairs : Service → List (Text × Text)
service_pairs s = insert_properties s.properties (
    (codes "id", written (extract_did_fragment s.id))
    ∷ (codes "t", s.kind)
    ∷ (codes "se", value_text s.service_endpoint)
    ∷ [])

unfoldable pub service_answers : ℕ → List Service → List Answer
service_answers i [] = []
service_answers i (s ∷ ss) =
    txt (record_name (service_record_id i)) (chunk_data_if_needed (pairs_text (service_pairs s)))
    ∷ service_answers (suc i) ss

-- The record IDs with the letter, from a number on, one for each element
unfoldable pub record_ids : {A : Type 0} → (ℕ → Text) → ℕ → List A → List Text
record_ids name i [] = []
record_ids name i (a ∷ l) = name i ∷ record_ids name (suc i) l

abbrev pub or_empty : Option Text → Text
or_empty none = []
or_empty (some t) = t

-- `name=ids`, for a relationship that the document has; an ID that is not found is written as nothing.
unfoldable pub relationship_pair :
    List (Text × Text) → Text → Option (List Text) → List (Text × Text)
relationship_pair ids name none = []
relationship_pair ids name (some methods) =
    (name, join b',' (map (λ id. or_empty (lookup (fragment id) ids)) methods)) ∷ []

abbrev pub list_pair : Text → List Text → List (Text × Text)
list_pair name [] = []
list_pair name (id ∷ ids) = (name, join b',' (id ∷ ids)) ∷ []

unfoldable pub root_pairs : {K : Type 0} → List (Text × Text) → Document K → List (Text × Text)
root_pairs ids d =
    (codes "v", codes "0")
    ∷ (list_pair (codes "vm") (record_ids key_record_id 0 d.verification_method)
        ++ (relationship_pair ids (codes "auth") d.authentication
            ++ (relationship_pair ids (codes "asm") d.assertion_method
                ++ (relationship_pair ids (codes "agm") d.key_agreement
                    ++ (relationship_pair ids (codes "inv") d.capability_invocation
                        ++ (relationship_pair ids (codes "del") d.capability_delegation
                            ++ list_pair (codes "svc")
                                (record_ids service_record_id 0 d.service)))))))

unfoldable pub also_known_as_answers : Option (List Text) → List Answer
also_known_as_answers none = []
also_known_as_answers (some ids) = txt_answer (codes "aka") (join b',' ids) ∷ []

-- `if (didDocument.controller)`: the empty string is none.
unfoldable pub controller_answers : Option Value → List Answer
controller_answers none = []
controller_answers (some (one c)) = if truthy c then txt_answer (codes "cnt") c ∷ [] else []
controller_answers (some (many cs)) = txt_answer (codes "cnt") (join b',' cs) ∷ []

-- `DidDhtRegisteredDidType`
abbrev pub registered_did_types : List (Text × ℕ)
registered_did_types =
    (codes "Discoverable", 0)
    ∷ (codes "Organization", 1)
    ∷ (codes "Government", 2)
    ∷ (codes "Corporation", 3)
    ∷ (codes "LocalBusiness", 4)
    ∷ (codes "SoftwarePackage", 5)
    ∷ (codes "WebApp", 6)
    ∷ (codes "FinancialInstitution", 7)
    ∷ []

-- A type as it is given: by its number or by its name
pub data DidType : Type 0 where
  type_number : ℕ → DidType
  type_name : Text → DidType

-- `typeof type === 'string' ? DidDhtRegisteredDidType[type] : type`, `none` for a name that is not registered
unfoldable pub type_integer : DidType → Option ℕ
type_integer (type_number n) = some n
type_integer (type_name name) = lookup name registered_did_types

-- `join` writes nothing for `undefined`.
abbrev pub integer_text : Option ℕ → Text
integer_text none = []
integer_text (some n) = decimal n

-- The registered DID types, as integers
unfoldable pub type_answers : List DidType → List Answer
type_answers [] = []
type_answers (t ∷ ts) =
    txt_answer (codes "typ")
      (codes "id=" ++ join b',' (map integer_text (map type_integer (t ∷ ts))))
    ∷ []

-- `did.split(':')[2]`
abbrev pub unique_did_suffix : Text → Text
unique_did_suffix did = written (get_elem? (split b':' did) 2)

abbrev pub root_name : Text → Text
root_name did = codes "_did." ++ (unique_did_suffix did ++ codes ".")

unfoldable pub gateway_answers : Text → List Text → List Answer
gateway_answers did uris = map (λ uri. other (root_name did) (uri ++ codes ".")) uris

module _ (keys : Keys) where
  -- The answers but those of the proof and of the gateways
  abbrev pub document_answers : Document keys.Jwk → List DidType → List Answer → List Answer
  document_answers d types methods =
      also_known_as_answers d.also_known_as
      ++ (controller_answers d.controller
          ++ (methods
              ++ (service_answers 0 d.service
                  ++ (type_answers types
                      ++ (txt (root_name d.id) (
                            single (
                              text (
                                pairs_text
                                  (root_pairs (id_lookup keys 0 d.verification_method []) d))))
                          ∷ [])))))

-- `validate` is `validatePreviousDidProof`.
module _ (keys : Keys) (validate : Text → PreviousDidProof → Result DhtError (Unit {0})) where
  unfoldable pub proof_answers : Text → Option PreviousDidProof → Result DhtError (List Answer)
  proof_answers did none = ok []
  proof_answers did (some p) = do
    validate did p
    ok (
        txt_answer (codes "prv") (codes "id=" ++ (p.previous_did ++ (codes ";s=" ++ p.signature)))
        ∷ [])

  unfoldable pub to_dns_packet :
      Document keys.Jwk
      → List DidType
      → List Text
      → Option PreviousDidProof
      → Result DhtError (List Answer)
  to_dns_packet d types gateways proof = do
    proofs ← proof_answers d.id proof
    methods ← key_answers keys d.id 0 d.verification_method
    ok (proofs ++ (document_answers keys d types methods ++ gateway_answers d.id gateways))
