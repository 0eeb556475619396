-- ===== src/Dids/Dht/RoundTrip.antt =====
-- A DID document, written as a DNS packet and read (packages/dids/src/methods/did-dht.ts).
use web5_js.Base.{
  Result, Text, codes, Option, none, some, List, [], ◌∷◌, ◌++◌, append_assoc, starts_with, ok,
  ◌>>=◌, ◌≡◌, refl, ap, ◌∙◌,
}
use web5_js.Dids.Dht.Types.{DhtError, Document, Answer, PreviousDidProof, Keys}
use web5_js.Dids.Dht.ToPacket.{
  DidType, txt_answer, also_known_as_answers, controller_answers, service_answers, type_answers,
  gateway_answers, proof_answers, document_answers, to_dns_packet,
}
use web5_js.Dids.Dht.FromPacket.{
  Decoded, process_record, process_answer, process_answers, from_dns_packet,
}
use web5_js.Dids.Dht.Pairs.{lacks_sound}
use web5_js.Dids.Dht.Segments.{record_id_of-name, added, key_answers-read}
use web5_js.Dids.Dht.Values.{
  also_known_as_answers-read, controller_answers-read, AreRegistered, type_answers-read,
}
use web5_js.Dids.Dht.Services.{service_answers-read}
use web5_js.Dids.Dht.Records.{read_ids, added_lem}
use web5_js.Dids.Dht.State.{
  IsEncodable, IsProved, read_types, state, also-state, controller-state, services-state,
  types-state, decoded, root_answer, process_root,
}

module _ (keys : Keys) (d : Document keys.Jwk) (h : IsEncodable keys d)
    (validate : Text → PreviousDidProof → Result DhtError (Unit {0})) where
  gateway_answers-read :
      (uris : List Text) (s : Decoded keys.Jwk)
      → process_answers keys (gateway_answers d.id uris) s ≡ ok s
  unfolding gateway_answers process_answers process_answer
  gateway_answers-read [] s = refl
  gateway_answers-read (uri ∷ uris) s = gateway_answers-read uris s

  -- The record of a proof is skipped.
  proof_answers-read :
      (proof : Option PreviousDidProof)
      → IsProved validate d.id proof
      → (answers : List Answer) × (proof_answers keys validate d.id proof ≡ ok answers)
        × ((s : Decoded keys.Jwk) (rest : List Answer)
            → process_answers keys (answers ++ rest) s ≡ process_answers keys rest s)
  unfolding proof_answers process_answers process_answer process_record starts_with
  proof_answers-read none proved = ([], refl, λ s rest. refl)
  proof_answers-read (some p) proved = (
    txt_answer (codes "prv") (codes "id=" ++ (p.previous_did ++ (codes ";s=" ++ p.signature))) ∷ [],
    rw proved refl,
    λ s rest. rw (record_id_of-name (codes "prv") (lacks_sound b'.' (codes "prv") refl)) refl,
  )

  -- The records of the document, in the order in which they are written
  document_answers_assoc :
      (types : List DidType) (methods tail : List Answer)
      → document_answers keys d types methods ++ tail
        ≡ also_known_as_answers d.also_known_as
          ++ (controller_answers d.controller
              ++ (methods
                  ++ (service_answers 0 d.service
                      ++ (type_answers types ++ (root_answer keys d ∷ tail)))))
  document_answers_assoc types methods tail = simp append_assoc

  document_answers-read :
      (types : List DidType) (methods tail : List Answer)
      → AreRegistered types
      → ((s : Decoded keys.Jwk) (rest : List Answer)
          → s.document.id ≡ d.id
          → process_answers keys (methods ++ rest) s
            ≡ process_answers keys rest (added keys 0 d.verification_method s))
      → process_answers keys
          (document_answers keys d types methods ++ tail)
          (state keys d none none [] [] [] none)
        ≡ process_answers keys tail (decoded keys d types)
  unfolding process_answers
  document_answers-read types methods tail registered read_methods =
      let a = d.also_known_as in
      let c = d.controller in
      let ids = read_ids keys 0 d.verification_method [] in
      ap (λ l. process_answers keys l (state keys d none none [] [] [] none))
        (document_answers_assoc types methods tail)
      ∙ also_known_as_answers-read keys a _ (state keys d none none [] [] [] none) h.also
      ∙ ap (process_answers keys _) (also-state keys d a)
      ∙ controller_answers-read keys c _ (state keys d a none [] [] [] none) h.controlled
      ∙ ap (process_answers keys _) (controller-state keys d a c)
      ∙ read_methods (state keys d a c [] [] [] none) _ refl
      ∙ ap (process_answers keys _)
          (added_lem keys 0 d.verification_method (state keys d a c [] [] [] none))
      ∙ service_answers-read keys d.id 0 d.service _
          (state keys d a c d.verification_method ids [] none) h.plain h.services refl
      ∙ ap (process_answers keys _)
          (services-state keys d a c d.verification_method ids [] d.service)
      ∙ type_answers-read keys types _ (state keys d a c d.verification_method ids d.service none)
          registered
      ∙ ap (process_answers keys (root_answer keys d ∷ tail))
          (types-state keys d a c d.verification_method ids d.service types)
      ∙ ap (λ r. r >>= process_answers keys tail) (process_root keys d h types)

  -- A document that a packet can hold is written as a packet, with any types that are numbers or registered
  -- names, any gateways and a valid proof if there is one, and the packet is read as the same document and the
  -- integers of the types, none being read as no types.
  pub from_dns_packet-to_dns_packet :
      (types : List DidType) (gateways : List Text) (proof : Option PreviousDidProof)
      → AreRegistered types
      → IsProved validate d.id proof
      → (answers : List Answer) × (to_dns_packet keys validate d types gateways proof ≡ ok answers)
        × (from_dns_packet keys d.id answers
            ≡ ok (record {
              document = d;
              types = read_types keys types;
              ids = read_ids keys 0 d.verification_method [];
            }))
  unfolding to_dns_packet from_dns_packet
  from_dns_packet-to_dns_packet types gateways proof registered proved =
      let (proofs, proofs_written, read_proofs) = proof_answers-read proof proved in
      let (methods, methods_written, read_methods) =
        key_answers-read keys d.id 0 d.verification_method h.plain h.methods in
      (
        proofs ++ (document_answers keys d types methods ++ gateway_answers d.id gateways),
        rw (proofs_written, methods_written) refl,
        read_proofs (state keys d none none [] [] [] none)
              (document_answers keys d types methods ++ gateway_answers d.id gateways)
            ∙ document_answers-read types methods (gateway_answers d.id gateways) registered
                read_methods
            ∙ gateway_answers-read gateways (decoded keys d types),
      )
