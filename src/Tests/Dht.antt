-- ===== src/Tests/Dht.antt =====
-- A DID document of `did:dht`, written, read, published and resolved (packages/dids/src/methods/did-dht.ts).
use web5_js.Base.{
  lookup, Result, ok, guard, ℕ, Text, codes, Option, none, some, List, [], ◌∷◌, ◌++◌, ◌===◌, inl,
  inr, join, includes, truthy, ok, ◌≡◌, refl,
}
use web5_js.Dids.Dht.Types.{
  DhtError, invalid_previous_did_proof, one, many, VerificationMethod, Service, Document, Answer,
  PreviousDidProof, Keys,
}
use web5_js.Dids.Dht.ToPacket.{
  DidType, type_number, type_name, type_integer, value_text, to_dns_packet,
}
use web5_js.Dids.Dht.FromPacket.{from_dns_packet}
use web5_js.Dids.Dht.Pairs.{literal-IsClear, lacks_sound}
use web5_js.Dids.Dht.Methods.{IsKey, IsMethod, ed25519, x25519}
use web5_js.Dids.Dht.Services.{IsService}
use web5_js.Dids.Dht.Records.{read_ids}
use web5_js.Dids.Dht.State.{IsEncodable, read_types}
use web5_js.Dids.Dht.Values.{AreRegistered}
use web5_js.Dids.Dht.RoundTrip.{from_dns_packet-to_dns_packet}

-- Keys of a curve, an algorithm and bytes, with the bytes as their own base64url text
abbrev pub Key : Type 0
Key = Text × Option Text × List ℕ

abbrev pub dht_keys : Keys
dht_keys = record {
  Jwk = Key;
  curve = λ key. some key.0;
  algorithm = λ key. key.1;
  set_algorithm = λ a key. (key.0, a, key.2);
  public_key_to_bytes = λ c key. ok key.2;
  bytes_to_public_key = λ c b. ok (c, none, b);
  thumbprint = λ key. codes "thumb" ++ key.2;
  base64url_to_bytes = λ t. ok t;
  bytes_to_base64url = λ b. b;
  utf8_to_text = λ b. b;
}

abbrev pub did : Text
did = codes "did:dht:ybndrfg8"

abbrev identity_key : Key
identity_key = (codes "Ed25519", some (codes "EdDSA"), codes "AQID")

abbrev agreement_key : Key
agreement_key = (codes "X25519", some (codes "ECDH-ES"), codes "BAUG")

abbrev identity_method : VerificationMethod Key
identity_method = record {
  id = did ++ codes "#0";
  controller = did;
  public_key = some identity_key;
}

abbrev agreement_method : VerificationMethod Key
agreement_method = record {
  id = did ++ codes "#enc";
  controller = codes "did:dht:other";
  public_key = some agreement_key;
}

abbrev dwn_service : Service
dwn_service = record {
  id = did ++ codes "#dwn";
  kind = codes "DecentralizedWebNode";
  service_endpoint = many (codes "https://a.org" ∷ codes "https://b.org" ∷ []);
  properties = (codes "sig", one (codes "#sig")) ∷ [];
}

abbrev pub document : Document Key
document = record {
  id = did;
  also_known_as = some (codes "did:web:a.org" ∷ []);
  controller = some (one (codes "did:dht:other"));
  verification_method = identity_method ∷ agreement_method ∷ [];
  service = dwn_service ∷ [];
  authentication = some ((did ++ codes "#0") ∷ []);
  assertion_method = none;
  key_agreement = some ((did ++ codes "#enc") ∷ (did ++ codes "#0") ∷ []);
  capability_invocation = none;
  capability_delegation = none;
}

identity_key-IsKey : IsKey dht_keys identity_key (codes "Ed25519")
identity_key-IsKey = record {
  has_curve = refl;
  key_bytes = codes "AQID";
  to_bytes = refl;
  bare = (codes "Ed25519", none, codes "AQID");
  of_bytes = refl;
  whole = refl;
  of_base64url = refl;
  base64url_clear = literal-IsClear (codes "AQID") refl;
}

agreement_key-IsKey : IsKey dht_keys agreement_key (codes "X25519")
agreement_key-IsKey = record {
  has_curve = refl;
  key_bytes = codes "BAUG";
  to_bytes = refl;
  bare = (codes "X25519", none, codes "BAUG");
  of_bytes = refl;
  whole = refl;
  of_base64url = refl;
  base64url_clear = literal-IsClear (codes "BAUG") refl;
}

identity_method-IsMethod : IsMethod dht_keys did 0 identity_method
unfolding truthy ◌===◌
identity_method-IsMethod = record {
  key = identity_key;
  has_key = refl;
  c = codes "Ed25519";
  n = 0;
  curve = ed25519;
  is_key = identity_key-IsKey;
  algorithm = codes "EdDSA";
  has_algorithm = refl;
  algorithm_given = refl;
  algorithm_clear = literal-IsClear (codes "EdDSA") refl;
  id = codes "0";
  is_id = refl;
  id_clear = literal-IsClear (codes "0") refl;
  id_plain = lacks_sound b'#' (codes "0") refl;
  id_zero = refl;
  controller_clear = literal-IsClear did refl;
}

agreement_method-IsMethod : IsMethod dht_keys did 1 agreement_method
unfolding truthy ◌===◌
agreement_method-IsMethod = record {
  key = agreement_key;
  has_key = refl;
  c = codes "X25519";
  n = 3;
  curve = x25519;
  is_key = agreement_key-IsKey;
  algorithm = codes "ECDH-ES";
  has_algorithm = refl;
  algorithm_given = refl;
  algorithm_clear = literal-IsClear (codes "ECDH-ES") refl;
  id = codes "enc";
  is_id = refl;
  id_clear = literal-IsClear (codes "enc") refl;
  id_plain = lacks_sound b'#' (codes "enc") refl;
  id_zero = refl;
  controller_clear = literal-IsClear (codes "did:dht:other") refl;
}

abbrev endpoints : List Text
endpoints = codes "https://a.org" ∷ codes "https://b.org" ∷ []

dwn_service-IsService : IsService did dwn_service
unfolding join value_text includes ◌===◌
dwn_service-IsService = record {
  fragment = codes "dwn";
  is_id = refl;
  plain = lacks_sound b'#' (codes "dwn") refl;
  id_clear = literal-IsClear (codes "dwn") refl;
  kind_clear = literal-IsClear (codes "DecentralizedWebNode") refl;
  endpoints = endpoints;
  is_endpoint = refl;
  items = (
    lacks_sound b',' (codes "https://a.org") refl,
    (lacks_sound b',' (codes "https://b.org") refl, tt),
  );
  endpoint_clear = literal-IsClear (join b',' endpoints) refl;
  properties_valid = (
    (
      literal-IsClear (codes "sig") refl,
      lacks_sound b',' (codes "#sig") refl,
      literal-IsClear (codes "#sig") refl,
    ),
    tt,
  );
  properties_new = (refl, tt);
}

pub document-IsEncodable : IsEncodable dht_keys document
unfolding truthy
document-IsEncodable = record {
  plain = lacks_sound b'#' did refl;
  also = (lacks_sound b',' (codes "did:web:a.org") refl, tt);
  controlled = (refl, lacks_sound b',' (codes "did:dht:other") refl);
  methods = (identity_method-IsMethod, (agreement_method-IsMethod, tt));
  services = (dwn_service-IsService, tt);
  related = ((inl refl, tt), (tt, ((inr (inl refl), (inl refl, tt)), (tt, (tt, tt)))));
}

abbrev proof : PreviousDidProof
proof = record { previous_did = codes "did:dht:old"; signature = did }

-- A proof is valid whose signature is the new DID.
abbrev signed_by_did : Text → PreviousDidProof → Result DhtError (Unit {0})
signed_by_did new_did p = guard (p.signature === new_did) invalid_previous_did_proof

-- A name and a number
abbrev given_types : List DidType
given_types = type_name (codes "Government") ∷ type_number 12 ∷ []

given_types-AreRegistered : AreRegistered given_types
unfolding type_integer lookup ◌===◌
given_types-AreRegistered = ((2, refl), ((12, refl), tt))

from_dns_packet-to_dns_packet_example :
    (answers : List Answer) × (to_dns_packet dht_keys signed_by_did document given_types
        (codes "https://gateway" ∷ [])
        (some proof)
      ≡ ok answers)
    × (from_dns_packet dht_keys did answers
        ≡ ok (record {
          document = document;
          types = read_types dht_keys given_types;
          ids = read_ids dht_keys 0 document.verification_method [];
        }))
unfolding ◌===◌
from_dns_packet-to_dns_packet_example =
    from_dns_packet-to_dns_packet dht_keys document document-IsEncodable signed_by_did given_types
      (codes "https://gateway" ∷ []) (some proof) given_types-AreRegistered refl
