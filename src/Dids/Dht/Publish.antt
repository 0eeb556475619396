-- ===== src/Dids/Dht/Publish.antt =====
-- A document that is published is resolved (packages/dids/src/methods/did-dht.ts).
use web5_js.Base.{
  ℕ, ◌+◌, ◌/◌, ◌^◌, ◌≤◌, ◌<◌, Text, none, List, [], ◌∷◌, length, Bool, true, false, ltb, Result, ok,
  err, all, leb, ◌&&◌, ◌===◌, truthy, split, ◌>>=◌, ◌≡◌, refl, ap, ◌∙◌, arith,
}
use web5_js.Base.Decimal.{decimal}
use web5_js.Dids.Dht.Types.{
  DhtError, Document, Chunk, text, bytes, TxtData, single, chunks, Answer, txt, other, Keys,
}
use web5_js.Dids.Dht.Txt.{parse_txt_data_to_string, parse_txt_data_to_object}
use web5_js.Dids.Dht.ToPacket.{DidType, to_dns_packet}
use web5_js.Dids.Dht.FromPacket.{
  Decoded, record_id_of, process_record, process_answer, process_answers, from_dns_packet,
}
use web5_js.Dids.Dht.State.{IsEncodable, read_types, decoded}
use web5_js.Dids.Dht.Values.{AreRegistered}
use web5_js.Dids.Dht.RoundTrip.{from_dns_packet-to_dns_packet}
use web5_js.Dids.Dht.Message.{
  Network, Bep44Message, message_body, message_of_body, identifier_to_identity_key,
  identifier_to_identity_key_bytes, create_bep44_put_message, validate_previous_did_proof,
  parse_bep44_get_message,
}
use web5_js.Dids.Dht.Framing.{message_of_body-message_body}
use web5_js.Dids.Dht.Gateway.{
  put_response, resolved, response_body, pkarr_get, pkarr_put, get, put_message, put, resolve,
}

-- Answers with the same record IDs and texts: the packets write a text as bytes, in one chunk or several.
abbrev pub AreSimilar : (List ℕ → Text) → List Answer → List Answer → Type 0
AreSimilar utf8 [] [] = Unit
AreSimilar utf8 (txt n d ∷ as') (txt m e ∷ bs) =
    (record_id_of n ≡ record_id_of m)
    × (parse_txt_data_to_string utf8 d ≡ parse_txt_data_to_string utf8 e)
    × AreSimilar utf8 as' bs
AreSimilar utf8 (other n d ∷ as') (other m e ∷ bs) = AreSimilar utf8 as' bs
AreSimilar utf8 as' bs = ⊥

module _ (keys : Keys) where
  process_record-text :
      (id : Text) (d e : TxtData) (s : Decoded keys.Jwk)
      → parse_txt_data_to_string keys.utf8_to_text d ≡ parse_txt_data_to_string keys.utf8_to_text e
      → process_record keys id d s ≡ process_record keys id e s
  unfolding process_record parse_txt_data_to_object
  process_record-text id d e s same = rw same refl

  bind-same :
      {A B : Type 0} {f g : A → Result DhtError B} (r : Result DhtError A)
      → ((a : A) → f a ≡ g a)
      → (r >>= f) ≡ (r >>= g)
  bind-same (ok a) h = h a
  bind-same (err e) h = refl

  -- Similar answers are read as the same document.
  process_answers-AreSimilar :
      (as' bs : List Answer) (s : Decoded keys.Jwk)
      → AreSimilar keys.utf8_to_text as' bs
      → process_answers keys as' s ≡ process_answers keys bs s
  unfolding process_answers process_answer process_record parse_txt_data_to_object
  process_answers-AreSimilar [] [] s h = refl
  process_answers-AreSimilar [] (b ∷ bs) s h = absurd h
  process_answers-AreSimilar (txt n d ∷ as') [] s h = absurd h
  process_answers-AreSimilar (other n d ∷ as') [] s h = absurd h
  process_answers-AreSimilar (txt n d ∷ as') (other m e ∷ bs) s h = absurd h
  process_answers-AreSimilar (other n d ∷ as') (txt m e ∷ bs) s h = absurd h
  process_answers-AreSimilar (other n d ∷ as') (other m e ∷ bs) s h =
      process_answers-AreSimilar as' bs s h
  process_answers-AreSimilar (txt n d ∷ as') (txt m e ∷ bs) s (same_id, same_text, h) =
      ap (λ r. r >>= process_answers keys as')
        (ap (λ id. process_record keys id d s) same_id
          ∙ process_record-text (record_id_of m) d e s same_text)
      ∙ bind-same (process_record keys (record_id_of m) e s)
          λ s'. process_answers-AreSimilar as' bs s' h

module _ (keys : Keys) (net : Network) where
  -- A character string of DNS: 255 bytes at most, which are read as the text they were written from
  abbrev is_string : Text → Bool
  is_string t = leb (length (net.utf8 t)) 255 && (keys.utf8_to_text (net.utf8 t) === t)

  abbrev is_chunk : Chunk → Bool
  is_chunk (text t) = is_string t
  is_chunk (bytes b) = leb (length b) 255

  abbrev is_data : TxtData → Bool
  is_data (single c) = is_chunk c
  is_data (chunks cs) = all is_chunk cs

  -- The labels of a name: 63 bytes at most, and only the last one may be empty.
  abbrev are_labels : List Text → Bool
  are_labels [] = true
  are_labels (l ∷ []) = leb (length (net.utf8 l)) 63
  are_labels (l ∷ m ∷ ls) = truthy l && (leb (length (net.utf8 l)) 63 && are_labels (m ∷ ls))

  abbrev is_name : Text → Bool
  is_name n = leb (length (net.utf8 n)) 255 && are_labels (split b'.' n)

  -- A record that a DNS packet can carry; the data of one that is no TXT record is the name of a server.
  abbrev pub is_carried : Answer → Bool
  is_carried (txt n d) = is_name n && is_data d
  is_carried (other n d) = is_name n && is_name d

-- What the gateway and the encodings promise
pub record IsNetwork (keys : Keys) (net : Network) : Type 0 where
  pub get_put :
      (url : Text) (b : List ℕ) (s : net.State)
      → (net.fetch_put url b s).0 ≡ ok true
      → net.fetch_get url (net.fetch_put url b s).1 ≡ ok (true, b)
  pub decode_encode :
      (answers : List Answer)
      → all (is_carried keys net) answers ≡ true
      → (read : List Answer) × (net.dns_decode (net.dns_encode answers) ≡ ok read)
        × AreSimilar keys.utf8_to_text read answers
  pub bencode_longer : (seq : ℕ) (v : List ℕ) → length v ≤ length (net.bencode seq v)
  pub exact_number : (n : ℕ) → n < 2 ^ 53 → net.number_of_bigint n ≡ n
  pub exact_text : (n : ℕ) → n < 2 ^ 53 → net.number_text n ≡ decimal n

-- Signatures by the key of the bytes
pub record IsSigner (net : Network) (public_key : List ℕ) (sign : List ℕ → Result DhtError (List ℕ))
    : Type 0 where
  pub key : net.Key
  pub is_key : net.ed25519_key public_key ≡ ok key
  pub signs :
      (data' : List ℕ)
      → (sig : List ℕ) × (sign data' ≡ ok sig)
        × (length sig ≡ 64)
        × (net.verify key sig data' ≡ true)

module _ (keys : Keys) (net : Network) (laws : IsNetwork keys net) where
  abbrev seq_of : ℕ → ℕ
  seq_of now = (now + 999) / 1000

  create-parse :
      (now : ℕ) (answers : List Answer) (public_key : List ℕ)
      (sign : List ℕ → Result DhtError (List ℕ))
      → IsSigner net public_key sign
      → length (net.bencode (seq_of now) (net.dns_encode answers)) ≤ 1000
      → seq_of now < 2 ^ 53
      → (m : Bep44Message) × (create_bep44_put_message net now answers public_key sign ≡ ok m)
        × (m.k ≡ public_key)
        × (m.seq ≡ seq_of now)
        × (message_of_body net public_key (message_body m) ≡ ok m)
        × (parse_bep44_get_message net m ≡ net.dns_decode (net.dns_encode answers))
  unfolding create_bep44_put_message parse_bep44_get_message
  create-parse now answers public_key sign h short early =
      let v = net.dns_encode answers in
      let (sig, signed, long, verified) = h.signs (net.bencode (seq_of now) v) in
      let m : Bep44Message = record { k = public_key; seq = seq_of now; sig = sig; v = v } in
      let fits : ltb 1000 (length (net.bencode (seq_of now) v)) ≡ false = ground arith in
      let shorter = laws.bencode_longer (seq_of now) v in
      (
        m,
        rw (fits, signed) refl,
        refl,
        refl,
        message_of_body-message_body net m long (omega arith) (omega arith)
            (laws.exact_number (seq_of now) early),
        rw (h.is_key, verified) refl,
      )

  put_response-ok :
      (r : Result Text Bool) (s : net.State) → r ≡ ok true → put_response net (r, s) ≡ (ok true, s)
  put_response-ok (err message) s e = cc
  put_response-ok (ok b) s e = cc

  pkarr_put-ok :
      (gateway url : Text) (m : Bep44Message) (s : net.State)
      → net.url (net.base32z_encode m.k) gateway ≡ ok url
      → (net.fetch_put url (message_body m) s).0 ≡ ok true
      → pkarr_put net gateway m s ≡ (ok true, (net.fetch_put url (message_body m) s).1)
  unfolding pkarr_put
  pkarr_put-ok gateway url m s at_url accepted = rw at_url (
      put_response-ok (net.fetch_put url (message_body m) s).0
        (net.fetch_put url (message_body m) s).1 accepted)

  put-ok :
      (now : ℕ) (uri : Text) (d : Document keys.Jwk) (types : List DidType)
      (signer : Result DhtError (List ℕ → Result DhtError (List ℕ))) (gateway url : Text)
      (m : Bep44Message) (s : net.State)
      → put_message keys net now uri d types signer gateway ≡ ok m
      → net.url (net.base32z_encode m.k) gateway ≡ ok url
      → (net.fetch_put url (message_body m) s).0 ≡ ok true
      → put keys net now uri d types signer gateway s ≡ (
        ok (record { published = true; version_id = net.number_text m.seq }),
        (net.fetch_put url (message_body m) s).1,
      )
  unfolding put
  put-ok now uri d types signer gateway url m s built at_url accepted =
      rw (built, pkarr_put-ok gateway url m s at_url accepted) refl

  -- What is got where a message's body is served
  get-ok :
      (did gateway url : Text) (public_key : List ℕ) (m : Bep44Message) (packet : List Answer)
      (read : Decoded keys.Jwk) (s : net.State)
      → identifier_to_identity_key_bytes net did ≡ ok public_key
      → net.url (net.base32z_encode public_key) gateway ≡ ok url
      → net.fetch_get url s ≡ ok (true, message_body m)
      → message_of_body net public_key (message_body m) ≡ ok m
      → parse_bep44_get_message net m ≡ ok packet
      → from_dns_packet keys did packet ≡ ok read
      → get keys net did gateway s ≡ ok (read, net.number_text m.seq)
  unfolding get pkarr_get response_body
  get-ok did gateway url public_key m packet read s is_key at_url served framed parsed read_as =
      rw (is_key, at_url, served, framed, parsed, read_as) refl

  -- A document that a packet can hold, with types that are numbers or registered names, published by a signer
  -- of the key in its DID, is what the DID resolves to then, with the integers of its types, and with the time of
  -- the publication in seconds as its version. This is so if the gateway accepts the message that is built and
  -- serves what it accepted, the time is before 2 ^ 53 seconds, the packet is within the limits of DNS (each TXT
  -- string of a record of 255 bytes of UTF-8 at most, names of labels of 63 bytes at most) and decoded as it was
  -- encoded then, and its bencoded value is of 1000 bytes at most.
  pub resolve-put :
      (d : Document keys.Jwk)
      → IsEncodable keys d
      → (types : List DidType) → AreRegistered types
      → (public_key : List ℕ) → identifier_to_identity_key_bytes net d.id ≡ ok public_key
      → (sign : List ℕ → Result DhtError (List ℕ)) → IsSigner net public_key sign
      → (gateway url : Text) → net.url (net.base32z_encode public_key) gateway ≡ ok url
      → (now : ℕ) → seq_of now < 2 ^ 53
      → ((answers : List Answer)
          → to_dns_packet keys
              (validate_previous_did_proof net keys.base64url_to_bytes)
              d
              types
              (gateway ∷ [])
              none
            ≡ ok answers
          → (all (is_carried keys net) answers ≡ true)
            × (length (net.bencode (seq_of now) (net.dns_encode answers)) ≤ 1000))
      → (s : net.State)
      → ((m : Bep44Message)
          → put_message keys net now d.id d types (ok sign) gateway ≡ ok m
          → (net.fetch_put url (message_body m) s).0 ≡ ok true)
      → ((put keys net now d.id d types (ok sign) gateway s).0
          ≡ ok (record { published = true; version_id = decimal (seq_of now) }))
        × (resolve keys net d.id gateway (put keys net now d.id d types (ok sign) gateway s).1
            ≡ resolved d (read_types keys types) (decimal (seq_of now)))
  unfolding put_message resolve from_dns_packet identifier_to_identity_key
  resolve-put d h types registered public_key is_key sign signer gateway url at_url now early small
        s accepts =
      let (answers, written, read) =
        from_dns_packet-to_dns_packet keys d h
          (validate_previous_did_proof net keys.base64url_to_bytes) types (gateway ∷ []) none
          registered tt in
      let (carried, fits) = small answers written in
      let (m, created, own_key, own_seq, framed, parsed) =
        create-parse now answers public_key sign signer fits early in
      let (similar, decoded_as, same) = laws.decode_encode answers carried in
      let built : put_message keys net now d.id d types (ok sign) gateway ≡ ok m =
        rw (written, is_key, created) refl in
      let sent =
        put-ok now d.id d types (ok sign) gateway url m s built
          (ap (λ k. net.url (net.base32z_encode k) gateway) own_key ∙ at_url) (accepts m built) in
      let got =
        get-ok d.id gateway url public_key m similar (decoded keys d types)
          (net.fetch_put url (message_body m) s).1 is_key at_url
          (laws.get_put url (message_body m) s (accepts m built)) framed (parsed ∙ decoded_as)
          (process_answers-AreSimilar keys similar answers _ same ∙ read) in
      let version = laws.exact_text (seq_of now) early in
      (
        rw (sent, own_seq, version) refl,
        rw (sent, is_key, signer.is_key, got, own_seq, version) refl,
      )
