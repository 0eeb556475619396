-- ===== src/Dids/Dht/Gateway.antt =====
-- `DidDht.publish` and `DidDht.resolve` over a gateway (packages/dids/src/methods/did-dht.ts).
use web5_js.Base.{ℕ, Text, Option, none, List, [], ◌∷◌, Bool, Result, ok, err, ◌>>=◌, ◌>>◌, guard}
use web5_js.Dids.Dht.Types.{DhtError, internal_error, external, not_found, Document, Keys}
use web5_js.Dids.Dht.ToPacket.{DidType, to_dns_packet}
use web5_js.Dids.Dht.FromPacket.{Decoded, from_dns_packet}
use web5_js.Dids.Dht.Message.{
  Network, Bep44Message, message_body, message_of_body, identifier_to_identity_key,
  identifier_to_identity_key_bytes, create_bep44_put_message, validate_previous_did_proof,
  parse_bep44_get_message,
}

-- The metadata of a DID that `put` sets
pub record Registration : Type 0 where
  pub published : Bool
  pub version_id : Text

-- A resolution: of a document with its types and version, or with an error; or an error that is thrown
pub data Resolution (K : Type 0) : Type 0 where
  resolved : Document K → Option (List (Option ℕ)) → Text → Resolution K
  failed : DhtError → Resolution K
  thrown : Text → Resolution K

module _ (net : Network) where
  unfoldable pub response_body : Result Text (Bool × List ℕ) → Result DhtError (List ℕ)
  response_body (err message) = err (internal_error message)
  response_body (ok (is_ok, b)) = guard is_ok not_found >> ok b

  unfoldable pub pkarr_get : Text → List ℕ → net.State → Result DhtError Bep44Message
  pkarr_get gateway public_key s = do
    url ← net.url (net.base32z_encode public_key) gateway
    b ← response_body (net.fetch_get url s)
    message_of_body net public_key b

  abbrev pub put_response : Result Text Bool × net.State → Result DhtError Bool × net.State
  put_response (err message, s) = (err (internal_error message), s)
  put_response (ok is_ok, s) = (ok is_ok, s)

  abbrev put_to : Result DhtError Text → Bep44Message → net.State → Result DhtError Bool × net.State
  put_to (err e) m s = (err e, s)
  put_to (ok url) m s = put_response (net.fetch_put url (message_body m) s)

  unfoldable pub pkarr_put : Text → Bep44Message → net.State → Result DhtError Bool × net.State
  pkarr_put gateway m s = put_to (net.url (net.base32z_encode m.k) gateway) m s

module _ (keys : Keys) (net : Network) where
  unfoldable pub get : Text → Text → net.State → Result DhtError (Decoded keys.Jwk × Text)
  get did gateway s = do
    public_key ← identifier_to_identity_key_bytes net did
    m ← pkarr_get net gateway public_key s
    packet ← parse_bep44_get_message net m
    decoded ← from_dns_packet keys did packet
    ok (decoded, net.number_text m.seq)

  abbrev Signer : Type 0
  Signer = List ℕ → Result DhtError (List ℕ)

  -- The message of a DID: of its URI, its document and types, and the signer of its method '0'
  unfoldable pub put_message :
      ℕ
      → Text
      → Document keys.Jwk
      → List DidType
      → Result DhtError (List ℕ → Result DhtError (List ℕ))
      → Text
      → Result DhtError Bep44Message
  put_message now uri d types signer gateway = do
    packet ←
        to_dns_packet keys (validate_previous_did_proof net keys.base64url_to_bytes) d types
          (gateway ∷ []) none
    public_key ← identifier_to_identity_key_bytes net uri
    sign ← signer
    create_bep44_put_message net now packet public_key sign

  abbrev registration : ℕ → Result DhtError Bool → Result DhtError Registration
  registration seq (err e) = err e
  registration seq (ok b) = ok (record { published = b; version_id = net.number_text seq })

  abbrev put_built :
      Text → Result DhtError Bep44Message → net.State → Result DhtError Registration × net.State
  put_built gateway (err e) s = (err e, s)
  put_built gateway (ok m) s =
      let (result, s') = pkarr_put net gateway m s in (registration m.seq result, s')

  unfoldable pub put :
      ℕ
      → Text
      → Document keys.Jwk
      → List DidType
      → Result DhtError (List ℕ → Result DhtError (List ℕ))
      → Text
      → net.State
      → Result DhtError Registration × net.State
  put now uri d types signer gateway s =
      put_built gateway (put_message now uri d types signer gateway) s

  abbrev pub resolution : Result DhtError (Decoded keys.Jwk × Text) → Resolution keys.Jwk
  resolution (ok (decoded, version)) = resolved decoded.document decoded.types version
  resolution (err (external message)) = thrown message
  resolution (err e) = failed e

  unfoldable pub resolve : Text → Text → net.State → Resolution keys.Jwk
  resolve did gateway s = resolution (do _ ← identifier_to_identity_key net did; get did gateway s)
