-- ===== src/Dids/Dht/FromPacket.antt =====
-- `DidDhtDocument.fromDnsPacket` (packages/dids/src/methods/did-dht.ts): a DID document from the answers of a DNS packet.
use web5_js.Base.{
  ℕ, Text, codes, Option, none, some, List, [], ◌∷◌, ◌++◌, map, if◌then◌else◌, ◌===◌, truthy,
  starts_with, any, ◌==◌, get_elem?, drop, lookup, insert, remove, split, Result, ok, err, ◌>>=◌,
}
use web5_js.Base.Decimal.{number}
use web5_js.Dids.Dht.Types.{
  DhtError, invalid_public_key_type, external, Value, one, many, VerificationMethod, Service,
  Document, TxtData, Answer, txt, other, Keys,
}
use web5_js.Dids.Dht.Txt.{Object, property, parse_txt_data_to_string, parse_txt_data_to_object}
use web5_js.Dids.Dht.ToPacket.{written, default_algorithm, has_converter}

-- The document and the metadata so far, and `idLookup`; a type that is no number is `none`.
pub record Decoded (K : Type 0) : Type 0 where
  pub document : Document K
  pub types : Option (List (Option ℕ))
  pub ids : List (Text × Text)

-- `DidDhtRegisteredKeyType[n]`, the name of a registered key type
abbrev pub key_type_name : Option ℕ → Option Text
key_type_name none = none
key_type_name (some n) =
    get_elem? (codes "Ed25519" ∷ codes "secp256k1" ∷ codes "secp256r1" ∷ codes "X25519" ∷ []) n

abbrev pub number_of : Option Text → Option ℕ
number_of none = none
number_of (some t) = number t

-- A method is called on the value, which throws if it is `undefined`.
abbrev pub required : Option Text → Result DhtError Text
required none = err (external (codes "TypeError"))
required (some t) = ok t

-- `a || b`
unfoldable pub or_default : Option Text → Option Text → Option Text
or_default none b = b
or_default (some a) b = if truthy a then some a else b

-- `text.includes(',') ? text.split(',') : text`
unfoldable pub value_of : Text → Value
value_of t = if any (λ c. c == b',') t then many (split b',' t) else one t

-- The same where a single value becomes an array
unfoldable pub values_of : Text → List Text
values_of t = if any (λ c. c == b',') t then split b',' t else t ∷ []

abbrev pub or_given : Option Text → Text → Text
or_given none d = d
or_given (some t) d = t

-- The properties that are not named
unfoldable pub custom_properties : Object → Result DhtError (List (Text × Value))
custom_properties [] = ok []
custom_properties ((key, v) ∷ o) = do
  t ← required v
  rest ← custom_properties o
  ok ((key, value_of t) ∷ rest)

abbrev pub without_named : Object → Object
without_named o = remove (codes "se") (remove (codes "t") (remove (codes "id") o))

unfoldable pub service_of : Text → Object → Result DhtError Service
service_of did o = do
  se ← required (property (codes "se") o)
  properties ← custom_properties (without_named o)
  ok (record {
    id = did ++ (b'#' ∷ written (property (codes "id") o));
    kind = written (property (codes "t") o);
    service_endpoint = many (values_of se);
    properties = properties;
  })

-- The found ones, without those that are not found
unfoldable pub method_ids : List (Text × Text) → List Text → List Text
method_ids ids [] = []
method_ids ids (r ∷ rs) = found (lookup r ids) (method_ids ids rs)
  where
    found : Option Text → List Text → List Text
    found none rest = rest
    found (some id) rest = id ∷ rest

-- `if (ids) document[relationship] = recordIdsToMethodIds(ids)`
unfoldable pub relationship :
    List (Text × Text) → Option Text → Option (List Text) → Option (List Text)
relationship ids none before = before
relationship ids (some t) before = if truthy t then some (method_ids ids (split b',' t)) else before

-- `name.split('.')[0].substring(1)`
abbrev pub first_or_empty : List Text → Text
first_or_empty [] = []
first_or_empty (t ∷ ts) = t

unfoldable pub record_id_of : Text → Text
record_id_of name = drop 1 (first_or_empty (split b'.' name))

module _ (keys : Keys) where
  abbrev pub Decode : Type 0
  Decode = Result DhtError (Decoded keys.Jwk)

  unfoldable pub key_of_bytes : Option Text → List ℕ → Result DhtError keys.Jwk
  key_of_bytes none b = err invalid_public_key_type
  key_of_bytes (some c) b =
      if has_converter c then keys.bytes_to_public_key c b else err invalid_public_key_type

  unfoldable pub method_fragment : Text → Option Text → keys.Jwk → Text
  method_fragment record_id id key =
      if record_id === codes "k0" then codes "0" else or_given id (keys.thumbprint key)

  -- The verification method of a record
  unfoldable pub method_of : Text → Text → Object → Result DhtError (VerificationMethod keys.Jwk)
  method_of did record_id o = do
    k ← required (property (codes "k") o)
    b ← keys.base64url_to_bytes k
    bare ← key_of_bytes (key_type_name (number_of (property (codes "t") o))) b
    let key =
        keys.set_algorithm
          (or_default (property (codes "a") o)
            (default_algorithm (number_of (property (codes "t") o))))
          bare
    ok (record {
      id = did ++ (b'#' ∷ method_fragment record_id (property (codes "id") o) key);
      controller = or_given (property (codes "c") o) did;
      public_key = some key;
    })

  abbrev pub add_method : Text → VerificationMethod keys.Jwk → Decoded keys.Jwk → Decoded keys.Jwk
  add_method record_id method s = record s {
    document = record s.document {
      verification_method = s.document.verification_method ++ (method ∷ []);
    };
    ids = insert record_id method.id s.ids;
  }

  abbrev pub add_service : Service → Decoded keys.Jwk → Decoded keys.Jwk
  add_service service s = record s {
    document = record s.document { service = s.document.service ++ (service ∷ []) };
  }

  abbrev pub set_relationships : Object → Decoded keys.Jwk → Decoded keys.Jwk
  set_relationships o s = record s {
    document = record s.document {
      authentication = relationship s.ids (property (codes "auth") o) s.document.authentication;
      assertion_method = relationship s.ids (property (codes "asm") o) s.document.assertion_method;
      capability_delegation =
          relationship s.ids (property (codes "del") o) s.document.capability_delegation;
      capability_invocation =
          relationship s.ids (property (codes "inv") o) s.document.capability_invocation;
      key_agreement = relationship s.ids (property (codes "agm") o) s.document.key_agreement;
    };
  }

  -- The kinds of records, in the order of their tests
  unfoldable pub process_record : Text → TxtData → Decoded keys.Jwk → Decode
  process_record id data' s =
      let t = parse_txt_data_to_string keys.utf8_to_text data' in
      let o = parse_txt_data_to_object keys.utf8_to_text data' in
      if starts_with (codes "aka") id
      then ok (record s { document = record s.document { also_known_as = some (split b',' t) } })
      else if starts_with (codes "cnt") id
      then ok (record s { document = record s.document { controller = some (value_of t) } })
      else if starts_with (codes "k") id
      then (do method ← method_of s.document.id id o; ok (add_method id method s))
      else if starts_with (codes "s") id
      then (do service ← service_of s.document.id o; ok (add_service service s))
      else if starts_with (codes "typ") id
      then (do
        types ← required (property (codes "id") o)
        ok (record s { types = some (map number (split b',' types)) }))
      else if starts_with (codes "did") id
      then ok (set_relationships o s)
      else ok s

  unfoldable pub process_answer : Answer → Decoded keys.Jwk → Decode
  process_answer (other name value) s = ok s
  process_answer (txt name data') s = process_record (record_id_of name) data' s

  unfoldable pub process_answers : List Answer → Decoded keys.Jwk → Decode
  process_answers [] s = ok s
  process_answers (a ∷ as') s = do s' ← process_answer a s; process_answers as' s'

  abbrev pub no_document : Text → Document keys.Jwk
  no_document did = record {
    id = did;
    also_known_as = none;
    controller = none;
    verification_method = [];
    service = [];
    authentication = none;
    assertion_method = none;
    key_agreement = none;
    capability_invocation = none;
    capability_delegation = none;
  }

  unfoldable pub from_dns_packet : Text → List Answer → Decode
  from_dns_packet did answers =
      process_answers answers (record { document = no_document did; types = none; ids = [] })
