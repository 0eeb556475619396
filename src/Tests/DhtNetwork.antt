-- ===== src/Tests/DhtNetwork.antt =====
-- A DID document of `did:dht`, published at a gateway and resolved (packages/dids/src/methods/did-dht.ts).
use web5_js.Base.{
  ℕ, zero, suc, includes, split, split_go, join, ◌≤◌, Text, codes, Option, none, some, List, [],
  ◌∷◌, ◌++◌, length, length-append, take, drop, take-append, drop-append, replicate, Bool, true,
  false, ◌===◌, ===_refl, truthy, lookup, insert, lookup-insert, Result, ok, err, ◌≡◌, refl, ap,
  subst, sym, all, ◌∙◌, arith,
}
use web5_js.Base.Decimal.{decimal}
use web5_js.Dids.Did.{
  parse, exec, strip_prefix, span, is_method_char, scan_id, is_id_char, ends_in_char, match_tail,
  optional_part, did_of,
}
use web5_js.Dids.Dht.Types.{DhtError, bytes, TxtData, single, Answer, txt, other}
use web5_js.Dids.Dht.Txt.{chunk_data_if_needed, parse_txt_data_to_string}
use web5_js.Dids.Dht.ToPacket.{
  DidType, type_name, type_integer, to_dns_packet, proof_answers, key_answers, key_answer,
  key_bytes, has_converter, key_pairs, fragment, registered_key_type, default_algorithm, pairs_text,
  also_known_as_answers, controller_answers, service_answers, service_pairs, insert_properties,
  value_text, extract_did_fragment, type_answers, root_pairs, record_ids, relationship_pair,
  id_lookup, gateway_answers,
}
use web5_js.Dids.Dht.Values.{AreRegistered}
use web5_js.Dids.Dht.State.{read_types}
use web5_js.Dids.Dht.Message.{
  validate_previous_did_proof, Network, identifier_to_identity_key_bytes,
}
use web5_js.Dids.Dht.Gateway.{resolved, put, resolve}
use web5_js.Dids.Dht.Chunks.{AreShort, chunk_data_if_needed-whole}
use web5_js.Dids.Dht.Verified.{IsSigned, resolve-IsSigned}
use web5_js.Dids.Dht.Publish.{is_carried, AreSimilar, IsNetwork, IsSigner, resolve-put}
use web5_js.Tests.Dht.{dht_keys, did, document, document-IsEncodable}

-- Packets as numbers: a text after its length, a name, and the data as one text
abbrev encode_text : Text → List ℕ → List ℕ
encode_text t rest = length t ∷ (t ++ rest)

abbrev whole : TxtData → Text
whole d = parse_txt_data_to_string (λ b. b) d

encode : List Answer → List ℕ
encode [] = []
encode (txt n d ∷ as') = 0 ∷ encode_text n (encode_text (whole d) (encode as'))
encode (other n d ∷ as') = 1 ∷ encode_text n (encode_text d (encode as'))

abbrev cut : List ℕ → Text × List ℕ
cut [] = ([], [])
cut (n ∷ s) = (take n s, drop n s)

abbrev answer : ℕ → Text → Text → Answer
answer zero n d = txt n (single (bytes d))
answer (suc tag) n d = other n d

decode : ℕ → List ℕ → List Answer
decode zero s = []
decode (suc fuel) [] = []
decode (suc fuel) (tag ∷ s) = answer tag (cut s).0 (cut (cut s).1).0 ∷ decode fuel (cut (cut s).1).1

cut-encode_text : (t : Text) (rest : List ℕ) → cut (encode_text t rest) ≡ (t, rest)
cut-encode_text t rest = rw (take-append t rest, drop-append t rest) refl

decode-step :
    (fuel tag : ℕ) (n d : Text) (rest : List ℕ)
    → decode (suc fuel) (tag ∷ encode_text n (encode_text d rest))
      ≡ answer tag n d ∷ decode fuel rest
unfolding decode
decode-step fuel tag n d rest =
    ap (λ p. answer tag p.0 (cut p.1).0 ∷ decode fuel (cut p.1).1)
      (cut-encode_text n (encode_text d rest))
    ∙ ap (λ p. answer tag n p.0 ∷ decode fuel p.1) (cut-encode_text d rest)

abbrev read_answers : List Answer → List Answer
read_answers [] = []
read_answers (txt n d ∷ as') = txt n (single (bytes (whole d))) ∷ read_answers as'
read_answers (other n d ∷ as') = other n d ∷ read_answers as'

decode-encode :
    (fuel : ℕ) (as' : List Answer) → length as' ≤ fuel → decode fuel (encode as') ≡ read_answers as'
unfolding decode encode
decode-encode zero [] h = refl
decode-encode (suc fuel) [] h = refl
decode-encode zero (a ∷ as') h = absurd (none_left (length as') h)
  where
    none_left : (n : ℕ) → suc n ≤ 0 → ⊥
    none_left n h = omega arith
decode-encode (suc fuel) (txt n d ∷ as') h =
    decode-step fuel 0 n (whole d) (encode as')
    ∙ ap (λ l. txt n (single (bytes (whole d))) ∷ l) (decode-encode fuel as' (omega arith))
decode-encode (suc fuel) (other n d ∷ as') h =
    decode-step fuel 1 n d (encode as')
    ∙ ap (λ l. other n d ∷ l) (decode-encode fuel as' (omega arith))

length-encode : (as' : List Answer) → length as' ≤ length (encode as')
unfolding encode
length-encode [] = omega arith
length-encode (txt n d ∷ as') =
    let rest = length-encode as' in
    let front = length-append n (encode_text (whole d) (encode as')) in
    let back = length-append (whole d) (encode as') in omega arith
length-encode (other n d ∷ as') =
    let rest = length-encode as' in
    let front = length-append n (encode_text d (encode as')) in
    let back = length-append d (encode as') in omega arith

read_answers-AreSimilar : (as' : List Answer) → AreSimilar (λ b. b) (read_answers as') as'
unfolding parse_txt_data_to_string
read_answers-AreSimilar [] = tt
read_answers-AreSimilar (txt n d ∷ as') = (refl, refl, read_answers-AreSimilar as')
read_answers-AreSimilar (other n d ∷ as') = read_answers-AreSimilar as'

abbrev fetched : Option (List ℕ) → Result Text (Bool × List ℕ)
fetched none = ok (false, [])
fetched (some b) = ok (true, b)

abbrev signature : List ℕ → List ℕ
signature data' = replicate 64 (length data')

-- A gateway that keeps the last body of each URL
abbrev network : Network
network = record {
  base32z_encode = λ b. codes "ybndrfg8";
  base32z_decode = λ t. some (replicate 32 7);
  url = λ id gateway. ok (gateway ++ id);
  bencode = λ seq v. seq ∷ v;
  utf8 = λ t. t;
  dns_encode = encode;
  dns_decode = λ b. ok (decode (length b) b);
  Key = List ℕ;
  ed25519_key = λ b. ok b;
  verify = λ key sig data'. sig === signature data';
  number_of_bigint = λ n. n;
  number_text = decimal;
  State = List (Text × List ℕ);
  fetch_get = λ url s. fetched (lookup url s);
  fetch_put = λ url b s. (ok true, insert url b s);
}

network-IsNetwork : IsNetwork dht_keys network
network-IsNetwork = record {
  get_put = λ url b s e. rw (lookup-insert url url b s, ===_refl url) refl;
  decode_encode = λ answers carried. (
    read_answers answers,
    ap ok (decode-encode (length (encode answers)) answers (length-encode answers)),
    read_answers-AreSimilar answers,
  );
  bencode_longer = λ seq v. omega arith;
  exact_number = λ n h. refl;
  exact_text = λ n h. refl;
}

abbrev public_key : List ℕ
public_key = replicate 32 7

abbrev sign : List ℕ → Result DhtError (List ℕ)
sign data' = ok (signature data')

sign-IsSigner : IsSigner network public_key sign
sign-IsSigner = record {
  key = public_key;
  is_key = refl;
  signs = λ data'. (signature data', refl, refl, ===_refl (signature data'));
}

did_key : identifier_to_identity_key_bytes network did ≡ ok public_key
unfolding identifier_to_identity_key_bytes parse exec strip_prefix span is_method_char scan_id
    is_id_char ends_in_char match_tail optional_part did_of truthy ◌===◌
did_key = refl

abbrev one_type : List DidType
one_type = type_name (codes "Organization") ∷ []

one_type-AreRegistered : AreRegistered one_type
unfolding type_integer lookup ◌===◌
one_type-AreRegistered = ((1, refl), tt)

abbrev size : Result DhtError (List Answer) → ℕ
size (ok answers) = length (encode answers)
size (err e) = 0

abbrev packet : Result DhtError (List Answer)
packet =
    to_dns_packet dht_keys (validate_previous_did_proof network dht_keys.base64url_to_bytes)
      document one_type (codes "https://gateway/" ∷ []) none

size_packet : size packet ≡ 315
unfolding encode to_dns_packet parse_txt_data_to_string proof_answers key_answers key_answer
    key_bytes has_converter includes truthy ◌===◌ key_pairs fragment split split_go
    registered_key_type default_algorithm pairs_text join decimal also_known_as_answers
    controller_answers service_answers service_pairs insert_properties insert value_text
    extract_did_fragment chunk_data_if_needed type_answers type_integer root_pairs record_ids
    relationship_pair id_lookup lookup gateway_answers
size_packet = refl

abbrev carried : Result DhtError (List Answer) → Bool
carried (ok answers) = all (is_carried dht_keys network) answers
carried (err e) = false

packet_carried : carried packet ≡ true
unfolding encode to_dns_packet parse_txt_data_to_string proof_answers key_answers key_answer
    key_bytes has_converter includes truthy ◌===◌ key_pairs fragment split split_go
    registered_key_type default_algorithm pairs_text join decimal also_known_as_answers
    controller_answers service_answers service_pairs insert_properties insert value_text
    extract_did_fragment chunk_data_if_needed type_answers type_integer root_pairs record_ids
    relationship_pair id_lookup lookup gateway_answers
packet_carried = refl

-- The packet can be carried and is small enough.
small :
    (answers : List Answer)
    → packet ≡ ok answers
    → (all (is_carried dht_keys network) answers ≡ true)
      × (length (network.bencode 1700000000 (encode answers)) ≤ 1000)
small answers e = (
  sym (ap carried e) ∙ packet_carried,
  subst (λ n. suc n ≤ 1000) (ap size e) (rw size_packet (omega arith)),
)

resolve-put_example :
    ((put dht_keys network 1699999999500 did document one_type
        (ok sign)
        (codes "https://gateway/")
        []).0
      ≡ ok (record { published = true; version_id = decimal 1700000000 }))
    × (resolve dht_keys network did
          (codes "https://gateway/")
          (put dht_keys network 1699999999500 did document one_type
            (ok sign)
            (codes "https://gateway/")
            []).1
        ≡ resolved document (read_types dht_keys one_type) (decimal 1700000000))
resolve-put_example =
    resolve-put dht_keys network network-IsNetwork document document-IsEncodable one_type
      one_type-AreRegistered public_key did_key sign sign-IsSigner (codes "https://gateway/")
      (codes "https://gateway/ybndrfg8") refl 1699999999500 (omega arith) small [] (λ m e. refl)

abbrev after_put : List (Text × List ℕ)
after_put =
    (put dht_keys network 1699999999500 did document one_type (ok sign) (codes "https://gateway/")
      []).1

document_resolves :
    resolve dht_keys network did (codes "https://gateway/") after_put
    ≡ resolved document (read_types dht_keys one_type) (decimal 1700000000)
document_resolves =
    (resolve-put dht_keys network network-IsNetwork document document-IsEncodable one_type
      one_type-AreRegistered public_key did_key sign sign-IsSigner (codes "https://gateway/")
      (codes "https://gateway/ybndrfg8") refl 1699999999500 (omega arith) small [] (λ m e. refl)).1

resolve-IsSigned_example :
    IsSigned dht_keys network did document (read_types dht_keys one_type) (decimal 1700000000)
resolve-IsSigned_example =
    resolve-IsSigned dht_keys network did (codes "https://gateway/") after_put document
      (read_types dht_keys one_type) (decimal 1700000000) document_resolves

abbrev long_text : Text
long_text = replicate 600 b'a'

chunk_data_if_needed-whole_example :
    (parse_txt_data_to_string (λ b. b) (chunk_data_if_needed long_text) ≡ long_text)
    × AreShort (chunk_data_if_needed long_text)
chunk_data_if_needed-whole_example = chunk_data_if_needed-whole (λ b. b) long_text
