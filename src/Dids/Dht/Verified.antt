-- ===== src/Dids/Dht/Verified.antt =====
-- What a resolved document rests on (packages/dids/src/methods/did-dht.ts).
use web5_js.Base.{
  ℕ, Text, List, length, Bool, true, Option, Result, ok, err, guard, >>=-eq-ok, ltb, not, false,
  subst, ◌≡◌, refl, sym, ap, ◌∙◌,
}
use web5_js.Dids.Dht.Types.{
  DhtError, invalid_public_key_type, invalid_previous_did_proof, not_found, invalid_did,
  invalid_public_key, invalid_public_key_length, invalid_signature, method_not_supported,
  invalid_did_document, internal_error, invalid_did_document_length, external, Document, Answer,
  Keys,
}
use web5_js.Dids.Dht.FromPacket.{Decoded, from_dns_packet}
use web5_js.Dids.Dht.Message.{
  Network, Bep44Message, message_of_body, identifier_to_identity_key,
  identifier_to_identity_key_bytes, parse_bep44_get_message,
}
use web5_js.Dids.Dht.Gateway.{
  resolved, failed, thrown, Resolution, pkarr_get, response_body, get, resolution, resolve,
}

module _ (keys : Keys) (net : Network) where
  -- A message that is signed by the key in the DID, and whose packet is the document
  pub record IsSigned (did : Text) (d : Document keys.Jwk) (types : Option (List (Option ℕ)))
      (version : Text) : Type 0 where
    pub public_key : List ℕ
    pub is_public_key : identifier_to_identity_key_bytes net did ≡ ok public_key
    pub key : net.Key
    pub is_key : net.ed25519_key public_key ≡ ok key
    pub message : Bep44Message
    pub verified : net.verify key message.sig (net.bencode message.seq message.v) ≡ true
    pub packet : List Answer
    pub is_packet : net.dns_decode message.v ≡ ok packet
    pub read : Decoded keys.Jwk
    pub read_as : from_dns_packet keys did packet ≡ ok read
    pub is_document : read.document ≡ d
    pub is_types : read.types ≡ types
    pub is_version : net.number_text message.seq ≡ version

  guard-true : (b : Bool) (e : DhtError) → guard b e ≡ ok tt → b ≡ true
  guard-true true e h = refl
  guard-true false e h = cc

  message_of_body-own :
      (public_key b : List ℕ) (m : Bep44Message)
      → message_of_body net public_key b ≡ ok m
      → m.k ≡ public_key
  unfolding message_of_body
  message_of_body-own public_key b m h =
      let long = not (ltb (length b) 72) in
      let short = not (ltb 1072 (length b)) in
      let (_, _, h₁) = >>=-eq-ok (guard long (invalid_did_document_length (length b))) _ h in
      let (_, _, h₂) = >>=-eq-ok (guard short (invalid_did_document_length (length b))) _ h₁ in cc

  pkarr_get-own :
      (gateway : Text) (public_key : List ℕ) (s : net.State) (m : Bep44Message)
      → pkarr_get net gateway public_key s ≡ ok m
      → m.k ≡ public_key
  unfolding pkarr_get
  pkarr_get-own gateway public_key s m h =
      let (url, _, h₁) = >>=-eq-ok (net.url (net.base32z_encode public_key) gateway) _ h in
      let (b, _, h₂) = >>=-eq-ok (response_body net (net.fetch_get url s)) _ h₁ in
      message_of_body-own public_key b m h₂

  get-IsSigned :
      (did gateway : Text) (s : net.State) (read : Decoded keys.Jwk) (version : Text)
      → get keys net did gateway s ≡ ok (read, version)
      → IsSigned did read.document read.types version
  unfolding get parse_bep44_get_message
  get-IsSigned did gateway s read version h =
      let (public_key, is_public_key, h₁) =
        >>=-eq-ok (identifier_to_identity_key_bytes net did) _ h in
      let (m, got, h₂) = >>=-eq-ok (pkarr_get net gateway public_key s) _ h₁ in
      let (packet, parsed, h₃) = >>=-eq-ok (parse_bep44_get_message net m) _ h₂ in
      let (own_read, read_as, h₄) = >>=-eq-ok (from_dns_packet keys did packet) _ h₃ in
      let (key, is_key, h₅) = >>=-eq-ok (net.ed25519_key m.k) _ parsed in
      let is_valid = net.verify key m.sig (net.bencode m.seq m.v) in
      let (_, guarded, is_packet) = >>=-eq-ok (guard is_valid invalid_signature) _ h₅ in
      let own = pkarr_get-own gateway public_key s m got in
      let same_read : own_read ≡ read = cc in
      record {
        public_key = public_key;
        is_public_key = is_public_key;
        key = key;
        is_key = ap net.ed25519_key (sym own) ∙ is_key;
        message = m;
        verified = guard-true is_valid invalid_signature guarded;
        packet = packet;
        is_packet = is_packet;
        read = own_read;
        read_as = read_as;
        is_document = ap (λ r. r.document) same_read;
        is_types = ap (λ r. r.types) same_read;
        is_version = cc;
      }

  abbrev is_resolved : Resolution keys.Jwk → Bool
  is_resolved (resolved d types version) = true
  is_resolved (failed e) = false
  is_resolved (thrown message) = false

  resolution-err : (e : DhtError) → is_resolved (resolution keys net (err e)) ≡ false
  resolution-err invalid_public_key_type = refl
  resolution-err invalid_previous_did_proof = refl
  resolution-err not_found = refl
  resolution-err invalid_did = refl
  resolution-err invalid_public_key = refl
  resolution-err invalid_public_key_length = refl
  resolution-err invalid_signature = refl
  resolution-err method_not_supported = refl
  resolution-err invalid_did_document = refl
  resolution-err (internal_error m) = refl
  resolution-err (invalid_did_document_length n) = refl
  resolution-err (external m) = refl

  resolution-resolved :
      (r : Result DhtError (Decoded keys.Jwk × Text)) (d : Document keys.Jwk)
      (types : Option (List (Option ℕ))) (version : Text)
      → resolution keys net r ≡ resolved d types version
      → (read : Decoded keys.Jwk) × (r ≡ ok (read, version))
        × (read.document ≡ d)
        × (read.types ≡ types)
  resolution-resolved (ok (read, v)) d types version e = (read, cc, cc, cc)
  resolution-resolved (err e) d types version h = cc (sym (resolution-err e) ∙ ap is_resolved h)

  -- A document that a DID resolves to is read from the packet of a message that the key in the DID verifies,
  -- and its version is the number of the message.
  pub resolve-IsSigned :
      (did gateway : Text) (s : net.State) (d : Document keys.Jwk)
      (types : Option (List (Option ℕ))) (version : Text)
      → resolve keys net did gateway s ≡ resolved d types version
      → IsSigned did d types version
  unfolding resolve
  resolve-IsSigned did gateway s d types version h =
      let (read, result, is_document, is_types) = resolution-resolved _ d types version h in
      let (_, _, got) = >>=-eq-ok (identifier_to_identity_key net did) _ result in
      subst (λ t. IsSigned did d t version) is_types
        (subst (λ x. IsSigned did x read.types version) is_document
          (get-IsSigned did gateway s read version got))
