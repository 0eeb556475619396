-- ===== src/Tests/DhtCreate.antt =====
-- A DID of `did:dht` is created, and a P-256 key is not read (packages/dids/src/methods/did-dht.ts).
use web5_js.Base.{
  ℕ, suc, Text, codes, none, some, [], ◌∷◌, ◌++◌, ◌===◌, includes, truthy, split, split_go, ok, err,
  ◌≡◌, refl,
}
use web5_js.Base.Exec.{bind, continue, pure}
use web5_js.Base.Decimal.{decimal}
use web5_js.Dids.Dht.Types.{
  invalid_public_key_type, text, single, many, VerificationMethod, Document,
}
use web5_js.Dids.Dht.ToPacket.{
  fragment, extract_did_fragment, key_answer, key_record_id, txt_answer,
}
use web5_js.Dids.Dht.Txt.{property, parse_txt_data_to_object}
use web5_js.Dids.Dht.FromPacket.{Decoded, process_answer}
use web5_js.Dids.Dht.Pairs.{literal-IsClear}
use web5_js.Dids.Dht.Unread.{IsUnread, process_answer-P256}
use web5_js.Dids.Dht.Create.{
  KeyManager, key_agreement, CreateOptions, create, check_options, all_different, given_ids,
  add_methods, key_uri, get_public_key, method_id, with_method, add_purposes, add_purpose,
  with_services, methods_to_add, identity_key_to_identifier,
}
use web5_js.Dids.Dht.Related.{IsRelated}
use web5_js.Dids.Dht.Created.{IsStable, HasIdentity, create-HasIdentity}
use web5_js.Tests.Dht.{dht_keys, did, Key}

-- Keys by their numbers
abbrev counter : KeyManager dht_keys
counter = record {
  State = ℕ;
  generate_key = λ a s. (ok (decimal s), suc s);
  public_key = λ uri s. ok (codes "Ed25519", some (codes "EdDSA"), uri);
  kid = λ key. none;
  base32z_encode = λ b. codes "id" ++ b;
}

counter-IsStable : IsStable dht_keys counter
counter-IsStable = record { stable = λ a uri key s e. e }

abbrev options : CreateOptions
options = record {
  also_known_as = none;
  controllers = none;
  verification_methods =
      record {
        algorithm = codes "X25519";
        id = some (codes "enc");
        controller = none;
        purposes = key_agreement ∷ [];
      }
      ∷ [];
  services =
      record {
        id = codes "dwn";
        kind = codes "DecentralizedWebNode";
        service_endpoint = many [];
        properties = [];
      }
      ∷ [];
}

abbrev created : Document Key
created = record {
  id = codes "did:dht:id7";
  also_known_as = none;
  controller = none;
  verification_method =
      record {
        id = codes "did:dht:id7#0";
        controller = codes "did:dht:id7";
        public_key = some (codes "Ed25519", some (codes "EdDSA"), codes "7");
      }
      ∷ record {
        id = codes "did:dht:id7#enc";
        controller = codes "did:dht:id7";
        public_key = some (codes "Ed25519", some (codes "EdDSA"), codes "8");
      }
      ∷ [];
  service =
      record {
        id = codes "did:dht:id7#dwn";
        kind = codes "DecentralizedWebNode";
        service_endpoint = many [];
        properties = [];
      }
      ∷ [];
  authentication = some (codes "did:dht:id7#0" ∷ []);
  assertion_method = some (codes "did:dht:id7#0" ∷ []);
  key_agreement = some (codes "did:dht:id7#enc" ∷ []);
  capability_invocation = some (codes "did:dht:id7#0" ∷ []);
  capability_delegation = some (codes "did:dht:id7#0" ∷ []);
}

create-options : (create dht_keys counter options 7).0 ≡ ok created
unfolding create check_options all_different given_ids add_methods key_uri get_public_key method_id
    with_method add_purposes add_purpose with_services methods_to_add identity_key_to_identifier
    fragment extract_did_fragment bind continue pure decimal includes truthy split split_go ◌===◌
create-options = refl

create-HasIdentity_example :
    (key : Key) × (identity_key_to_identifier dht_keys counter key ≡ ok (codes "did:dht:id7"))
    × HasIdentity dht_keys counter (codes "did:dht:id7") key created.verification_method
    × IsRelated dht_keys created
create-HasIdentity_example =
    create-HasIdentity dht_keys counter options 7 created counter-IsStable create-options

abbrev p256_key : Key
p256_key = (codes "P-256", some (codes "ES256"), codes "BwgJ")

abbrev p256_method : VerificationMethod Key
p256_method = record { id = did ++ codes "#sig"; controller = did; public_key = some p256_key }

p256_method-IsUnread : IsUnread dht_keys p256_method
unfolding fragment split split_go
p256_method-IsUnread = record {
  key = p256_key;
  has_key = refl;
  has_curve = refl;
  key_bytes = codes "BwgJ";
  to_bytes = refl;
  of_base64url = refl;
  base64url_clear = literal-IsClear (codes "BwgJ") refl;
  id_clear = literal-IsClear (codes "sig") refl;
  algorithm_clear = literal-IsClear (codes "ES256") refl;
  controller_clear = literal-IsClear did refl;
}

process_answer-P256_example :
    (record_text : Text) × (key_answer dht_keys did 1 p256_method
      ≡ ok (txt_answer (key_record_id 1) record_text))
    × (property
          (codes "t")
          (parse_txt_data_to_object dht_keys.utf8_to_text (single (text record_text)))
        ≡ some (codes "undefined"))
    × ((s : Decoded Key)
        → process_answer dht_keys (txt_answer (key_record_id 1) record_text) s
          ≡ err invalid_public_key_type)
process_answer-P256_example = process_answer-P256 dht_keys did 1 p256_method p256_method-IsUnread
