-- ===== src/Dids/Dht/Message.antt =====
-- BEP44 messages that carry DNS packets, and their bytes on the wire (packages/dids/src/methods/did-dht.ts).
use web5_js.Base.{
  ℕ, zero, suc, ◌+◌, ◌*◌, ◌/◌, ◌%◌, Text, codes, Option, none, some, List, [], ◌∷◌, ◌++◌, length,
  take, drop, Bool, ltb, not, ◌==◌, ◌===◌, Result, ok, err, ◌>>=◌, ◌>>◌, guard,
}
use web5_js.Dids.Did.{Did, parse}
use web5_js.Dids.Dht.Types.{
  DhtError, PreviousDidProof, invalid_previous_did_proof, invalid_did, method_not_supported,
  invalid_public_key, invalid_public_key_length, invalid_signature, invalid_did_document_length,
  Answer,
}

-- z-base-32, URLs, bencode, the DNS packets of `@dnsquery/dns-packet`, Ed25519 signatures, numbers of 64 bits,
-- and `fetch` over a state of the network; a decoding that throws is `none`.
pub record Network : Type 1 where
  pub base32z_encode : List ℕ → Text
  pub base32z_decode : Text → Option (List ℕ)
  pub url : Text → Text → Result DhtError Text
  -- the entries of the dictionary of `seq` and `v`, without its delimiters
  pub bencode : ℕ → List ℕ → List ℕ
  -- `Buffer.from(text, 'utf8')`, as the packets write a text
  pub utf8 : Text → List ℕ
  pub dns_encode : List Answer → List ℕ
  pub dns_decode : List ℕ → Result DhtError (List Answer)
  pub Key : Type 0
  pub ed25519_key : List ℕ → Result DhtError Key
  pub verify : Key → List ℕ → List ℕ → Bool
  -- `Number(bigint)`
  pub number_of_bigint : ℕ → ℕ
  -- `toString` of a number
  pub number_text : ℕ → Text
  pub State : Type 0
  -- an error's message, or `response.ok` and the body
  pub fetch_get : Text → State → Result Text (Bool × List ℕ)
  pub fetch_put : Text → List ℕ → State → Result Text Bool × State

pub record Bep44Message : Type 0 where
  pub k : List ℕ
  pub seq : ℕ
  pub sig : List ℕ
  pub v : List ℕ

-- `setBigUint64`: the bytes of a number, the highest first, modulo 2 ^ (8 * count)
unfoldable pub set_uint : ℕ → ℕ → List ℕ
set_uint zero n = []
set_uint (suc count) n = set_uint count (n / 256) ++ ((n % 256) ∷ [])

-- `getBigUint64`
unfoldable pub get_uint : ℕ → List ℕ → ℕ
get_uint acc [] = acc
get_uint acc (b ∷ bs) = get_uint (acc * 256 + b) bs

-- The body of a PUT request
unfoldable pub message_body : Bep44Message → List ℕ
message_body m = m.sig ++ (set_uint 8 m.seq ++ m.v)

module _ (net : Network) where
  abbrev checked_key : Option (List ℕ) → Result DhtError (List ℕ)
  checked_key none = err invalid_public_key
  checked_key (some b) = guard (length b == 32) invalid_public_key_length >> ok b

  abbrev key_of_did : Option Did → Result DhtError (List ℕ)
  key_of_did none = err invalid_did
  key_of_did (some d) =
      guard (d.method === codes "dht") method_not_supported >> checked_key (net.base32z_decode d.id)

  unfoldable pub identifier_to_identity_key_bytes : Text → Result DhtError (List ℕ)
  identifier_to_identity_key_bytes uri = key_of_did (parse uri)

  unfoldable pub identifier_to_identity_key : Text → Result DhtError net.Key
  identifier_to_identity_key uri = do b ← identifier_to_identity_key_bytes uri; net.ed25519_key b

  -- `now` is `Date.now()`, and `sign` the signer.
  unfoldable pub create_bep44_put_message :
      ℕ → List Answer → List ℕ → (List ℕ → Result DhtError (List ℕ)) → Result DhtError Bep44Message
  create_bep44_put_message now packet public_key sign =
      let seq = (now + 999) / 1000 in
      let v = net.dns_encode packet in
      let bencoded = net.bencode seq v in
      (do
        guard (not (ltb 1000 (length bencoded))) (invalid_did_document_length (length bencoded))
        sig ← sign bencoded
        ok (record { k = public_key; seq = seq; sig = sig; v = v }))

  unfoldable pub parse_bep44_get_message : Bep44Message → Result DhtError (List Answer)
  parse_bep44_get_message m = do
    key ← net.ed25519_key m.k
    guard (net.verify key m.sig (net.bencode m.seq m.v)) invalid_signature
    net.dns_decode m.v

  -- The message of the body of a response
  unfoldable pub message_of_body : List ℕ → List ℕ → Result DhtError Bep44Message
  message_of_body public_key b = do
    guard (not (ltb (length b) 72)) (invalid_did_document_length (length b))
    guard (not (ltb 1072 (length b))) (invalid_did_document_length (length b))
    ok (record {
      k = public_key;
      seq = net.number_of_bigint (get_uint 0 (take 8 (drop 64 b)));
      sig = take 64 b;
      v = drop 72 b;
    })

  -- The signature of the proof is one of the previous DID for the bytes of the new one.
  unfoldable pub validate_previous_did_proof :
      (Text → Result DhtError (List ℕ)) → Text → PreviousDidProof → Result DhtError (Unit {0})
  validate_previous_did_proof base64url_to_bytes new_did p = do
    key ← identifier_to_identity_key p.previous_did
    data' ← identifier_to_identity_key_bytes new_did
    signature ← base64url_to_bytes p.signature
    guard (net.verify key signature data') invalid_previous_did_proof
