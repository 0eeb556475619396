-- ===== src/Dids/Dht/State.antt =====
-- The root record of a document and the state that reading it ends in (packages/dids/src/methods/did-dht.ts).
use web5_js.Base.{
  Result, ℕ, Text, codes, Option, none, some, List, [], ◌∷◌, ◌++◌, append_assoc, append-nil, map,
  starts_with, split-cut, Lacks, ok, ◌===◌, ◌≡◌, refl, sym, ap, ◌∙◌,
}
use web5_js.Dids.Dht.Types.{
  DhtError, Value, VerificationMethod, Service, Document, text, single, Answer, txt,
  PreviousDidProof, Keys,
}
use web5_js.Dids.Dht.Txt.{Object, property, parse_txt_data_to_object}
use web5_js.Dids.Dht.ToPacket.{DidType, type_integer, pairs_text, root_name, root_pairs}
use web5_js.Dids.Dht.FromPacket.{
  Decoded, set_relationships, relationship, process_record, record_id_of, process_answer,
  no_document,
}
use web5_js.Dids.Dht.Pairs.{lacks_sound, last_of, property-pairs_text}
use web5_js.Dids.Dht.Segments.{AreMethods}
use web5_js.Dids.Dht.Values.{AreAlso, IsController, with_also, with_controller, with_types}
use web5_js.Dids.Dht.Services.{AreServices, with_services}
use web5_js.Dids.Dht.Records.{read_ids}
use web5_js.Dids.Dht.Relationships.{IsRelationship, rel_text, relationship-rel}
use web5_js.Dids.Dht.Root.{own_root, root-at, root-AreClear, AreRelationships}

-- The proof of a previous DID is valid, if it is there.
abbrev pub IsProved :
    (Text → PreviousDidProof → Result DhtError (Unit {0})) → Text → Option PreviousDidProof → Type 0
IsProved validate did none = Unit
IsProved validate did (some p) = validate did p ≡ ok tt

module _ (keys : Keys) where
  -- A document that a packet can hold
  pub record IsEncodable (d : Document keys.Jwk) : Type 0 where
    pub plain : Lacks b'#' d.id
    pub also : AreAlso d.also_known_as
    pub controlled : IsController d.controller
    pub methods : AreMethods keys d.id 0 d.verification_method
    pub services : AreServices keys d.id d.service
    pub related : AreRelationships keys d

  -- The integers of the types, if there is one at least
  abbrev pub read_types : List DidType → Option (List (Option ℕ))
  read_types [] = none
  read_types (t ∷ ts) = some (map type_integer (t ∷ ts))

  module _ (d : Document keys.Jwk) where
    abbrev root_object : Object
    root_object =
        parse_txt_data_to_object keys.utf8_to_text (single (text (pairs_text (own_root keys d))))

    -- The document so far
    abbrev pub state :
        Option (List Text)
        → Option Value
        → List (VerificationMethod keys.Jwk)
        → List (Text × Text)
        → List Service
        → Option (List (Option ℕ))
        → Decoded keys.Jwk
    state also controller ms ids ss types = record {
      document = record (no_document keys d.id) {
        also_known_as = also;
        controller = controller;
        verification_method = ms;
        service = ss;
      };
      types = types;
      ids = ids;
    }

    pub also-state :
        (a : Option (List Text))
        → with_also keys a (state none none [] [] [] none) ≡ state a none [] [] [] none
    also-state none = refl
    also-state (some ts) = refl

    pub controller-state :
        (a : Option (List Text)) (c : Option Value)
        → with_controller keys c (state a none [] [] [] none) ≡ state a c [] [] [] none
    controller-state a none = refl
    controller-state a (some v) = refl

    pub services-state :
        (a : Option (List Text)) (c : Option Value) (ms : List (VerificationMethod keys.Jwk))
        (ids : List (Text × Text)) (before ss : List Service)
        → with_services keys ss (state a c ms ids before none)
          ≡ state a c ms ids (before ++ ss) none
    services-state a c ms ids before [] =
        ap (λ l. state a c ms ids l none) (sym (append-nil before))
    services-state a c ms ids before (s ∷ ss) =
        services-state a c ms ids (before ++ (s ∷ [])) ss
        ∙ ap (λ l. state a c ms ids l none) (append_assoc before (s ∷ []) ss)

    pub types-state :
        (a : Option (List Text)) (c : Option Value) (ms : List (VerificationMethod keys.Jwk))
        (ids : List (Text × Text)) (ss : List Service) (ns : List DidType)
        → with_types keys ns (state a c ms ids ss none) ≡ state a c ms ids ss (read_types ns)
    types-state a c ms ids ss [] = refl
    types-state a c ms ids ss (n ∷ ns) = refl

    abbrev pub decoded : List DidType → Decoded keys.Jwk
    decoded types = record {
      document = d;
      types = read_types types;
      ids = read_ids keys 0 d.verification_method [];
    }

    abbrev pub root_answer : Answer
    root_answer = txt (root_name d.id) (single (text (pairs_text (own_root keys d))))

    root_id : record_id_of (root_name d.id) ≡ codes "did"
    unfolding record_id_of
    root_id = rw (split-cut b'.' (codes "_did") _ (lacks_sound b'.' (codes "_did") refl)) refl

    abbrev with_relationships :
        List DidType
        → Option (List Text)
        → Option (List Text)
        → Option (List Text)
        → Option (List Text)
        → Option (List Text)
        → Decoded keys.Jwk
    with_relationships types auth asm agm inv del = record (decoded types) {
      document = record d {
        authentication = auth;
        assertion_method = asm;
        key_agreement = agm;
        capability_invocation = inv;
        capability_delegation = del;
      };
    }

    same_relationships :
        (types : List DidType) {a a' b b' c c' e e' f f' : Option (List Text)}
        → a ≡ a'
        → b ≡ b'
        → c ≡ c'
        → e ≡ e'
        → f ≡ f'
        → with_relationships types a b c e f ≡ with_relationships types a' b' c' e' f'
    same_relationships types p q r s t = cc

    abbrev pub before_root : List DidType → Decoded keys.Jwk
    before_root types =
        state d.also_known_as d.controller d.verification_method
          (read_ids keys 0 d.verification_method []) d.service (read_types types)

module _ (keys : Keys) (d : Document keys.Jwk) (h : IsEncodable keys d) where
  -- A relationship as it is read from the root record
  root_relationship :
      (k : Text) (r : Option (List Text))
      → IsRelationship keys d.id d.verification_method r
      → last_of k (own_root keys d) none ≡ rel_text keys d.id d.verification_method r
      → relationship
          (read_ids keys 0 d.verification_method [])
          (property k (root_object keys d))
          none
        ≡ r
  unfolding root_pairs
  root_relationship k r valid e =
      ap (λ t. relationship (read_ids keys 0 d.verification_method []) t none)
        (property-pairs_text keys.utf8_to_text k _ _
            (root-AreClear keys d h.plain h.methods h.related)
          ∙ e)
      ∙ relationship-rel keys d.id d.verification_method h.plain h.methods r valid

  set_root :
      (types : List DidType)
      → set_relationships keys (root_object keys d) (before_root keys d types)
        ≡ decoded keys d types
  unfolding ◌===◌
  set_root types =
      let (auth, (asm, (agm, (inv, (del, _))))) = h.related in
      same_relationships keys d types
        (root_relationship (codes "auth") d.authentication auth
          (root-at keys d (codes "auth") d.authentication 0 refl refl refl (refl, refl, refl)))
        (root_relationship (codes "asm") d.assertion_method asm
          (root-at keys d (codes "asm") d.assertion_method 1 refl refl refl (refl, refl, refl)))
        (root_relationship (codes "agm") d.key_agreement agm
          (root-at keys d (codes "agm") d.key_agreement 2 refl refl refl (refl, refl, refl)))
        (root_relationship (codes "inv") d.capability_invocation inv (
          root-at keys d (codes "inv") d.capability_invocation 3 refl refl refl (refl, refl, refl)))
        (root_relationship (codes "del") d.capability_delegation del (
          root-at keys d (codes "del") d.capability_delegation 4 refl refl refl (refl, refl, refl)))

  pub process_root :
      (types : List DidType)
      → process_answer keys (root_answer keys d) (before_root keys d types)
        ≡ ok (decoded keys d types)
  unfolding process_answer process_record starts_with
  process_root types = rw (root_id keys d) (ap ok (set_root types))
