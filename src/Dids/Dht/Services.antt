-- ===== src/Dids/Dht/Services.antt =====
-- The records of the services, written and read (packages/dids/src/methods/did-dht.ts).
use web5_js.Base.{
  ℕ, suc, ◌≤◌, Text, codes, some, List, [], ◌∷◌, ◌++◌, true, false, ◌===◌, Bool-cases, inl, inr,
  ===_iff, includes, truthy, remove, lookup, Lacks, All, join, starts_with, ok, ◌≡◌, ◌≢◌, refl, sym,
  ap, subst, ◌∙◌, arith,
}
use web5_js.Base.Decimal.{decimal-Lacks}
use web5_js.Dids.Dht.Types.{Value, many, Service, Answer, txt, Keys}
use web5_js.Dids.Dht.Txt.{Object, property, parse_txt_data_to_object, chunk_data_if_needed}
use web5_js.Dids.Dht.ToPacket.{
  value_text, extract_did_fragment, pairs_text, insert_properties, service_pairs, service_answers,
  service_record_id, record_name,
}
use web5_js.Dids.Dht.FromPacket.{
  Decoded, custom_properties, without_named, service_of, add_service, process_record,
  process_answer, process_answers,
}
use web5_js.Dids.Dht.Names.{
  names, AreNew, AreNew-All, insert_all, insert_all-new, map_values, names-map_values, remove-new,
}
use web5_js.Dids.Dht.Pairs.{IsClear, AreClear, literal-IsClear, parse-pairs_text}
use web5_js.Dids.Dht.Chunks.{chunk_data_if_needed-whole}
use web5_js.Dids.Dht.Methods.{fragment-id}
use web5_js.Dids.Dht.Segments.{record_id_of-name}
use web5_js.Dids.Dht.Values.{AreItems, IsValue, value_of-value_text, values_of-join}

abbrev pub named : List Text
named = codes "id" ∷ codes "t" ∷ codes "se" ∷ []

-- A property of a service that a record can hold
abbrev pub IsProperty : Text × Value → Type 0
IsProperty p = IsClear p.0 × IsValue p.1 × IsClear (value_text p.1)

-- A service that a record can hold: its endpoint is an array, and its properties are not named as those
-- of every service.
pub record IsService (did : Text) (s : Service) : Type 0 where
  pub fragment : Text
  pub is_id : s.id ≡ did ++ (b'#' ∷ fragment)
  pub plain : Lacks b'#' fragment
  pub id_clear : IsClear fragment
  pub kind_clear : IsClear s.kind
  pub endpoints : List Text
  pub is_endpoint : s.service_endpoint ≡ many endpoints
  pub items : AreItems endpoints
  pub endpoint_clear : IsClear (join b',' endpoints)
  pub properties_valid : All IsProperty s.properties
  pub properties_new : AreNew named (names s.properties)

insert_properties-all :
    (ps : List (Text × Value)) (m : List (Text × Text))
    → insert_properties ps m ≡ insert_all value_text ps m
unfolding insert_properties
insert_properties-all [] m = refl
insert_properties-all ((k, v) ∷ ps) m = insert_properties-all ps _

properties_clear :
    (ps : List (Text × Value)) → All IsProperty ps → AreClear (map_values value_text ps)
properties_clear [] h = tt
properties_clear ((k, v) ∷ ps) ((hk, hv, ht), h) = ((hk, ht), properties_clear ps h)

custom_properties-values :
    (ps : List (Text × Value))
    → All IsProperty ps
    → custom_properties (map_values some (map_values value_text ps)) ≡ ok ps
unfolding custom_properties
custom_properties-values [] h = refl
custom_properties-values ((k, v) ∷ ps) ((hk, hv, ht), h) =
    rw (custom_properties-values ps h, value_of-value_text v hv) refl

truthy-id : (did id : Text) → truthy (did ++ (b'#' ∷ id)) ≡ true
unfolding truthy
truthy-id [] id = refl
truthy-id (c ∷ did) id = refl

service_record_id-Lacks : (i : ℕ) → Lacks b'.' (service_record_id i)
service_record_id-Lacks i = (not_dot, decimal-Lacks b'.' i λ (low, high). apart low)
  where
    not_dot : ◌≢◌ {A = ℕ} b's' b'.'
    not_dot e = cc

    apart : 48 ≤ 46 → ⊥
    apart h = omega arith

absent :
    (j : Text) (ns : List Text)
    → includes named j ≡ true
    → All (λ k. includes named k ≡ false) ns
    → includes ns j ≡ false
unfolding includes
absent j [] e h = refl
absent j (k ∷ ns) e (new, h) = elim (Bool-cases (k === j)) [
  | inl f ↦ cc (sym e ∙ rw ((===_iff k j).0 f) at new)
  | inr f ↦ rw f (absent j ns e h)
]

module _ (did : Text) (did_plain : Lacks b'#' did) (s : Service) (h : IsService did s) where
  abbrev own_pairs : List (Text × Text)
  own_pairs =
      (codes "id", h.fragment)
      ∷ (codes "t", s.kind)
      ∷ (codes "se", join b',' h.endpoints)
      ∷ map_values value_text s.properties

  service_pairs-own : service_pairs s ≡ own_pairs
  unfolding service_pairs extract_did_fragment value_text
  service_pairs-own =
      rw
        (
          insert_properties-all s.properties,
          h.is_id,
          truthy-id did h.fragment,
          fragment-id did h.fragment did_plain h.plain,
          h.is_endpoint,
        )
        (insert_all-new value_text s.properties
          ((codes "id", h.fragment)
            ∷ (codes "t", s.kind)
            ∷ (codes "se", join b',' h.endpoints)
            ∷ [])
          h.properties_new)

  own_names : AreNew [] (names own_pairs)
  unfolding includes ◌===◌
  own_names =
      let more =
        subst (AreNew named) (sym (names-map_values value_text s.properties)) h.properties_new in
      (refl, (refl, (refl, more)))

  own_clear : AreClear own_pairs
  own_clear =
      let more = properties_clear s.properties h.properties_valid in
      (
        (literal-IsClear (codes "id") refl, h.id_clear),
        (
          (literal-IsClear (codes "t") refl, h.kind_clear),
          ((literal-IsClear (codes "se") refl, h.endpoint_clear), more),
        ),
      )

  read_pairs :
      (utf8 : List ℕ → Text)
      → parse_txt_data_to_object utf8 (chunk_data_if_needed (pairs_text (service_pairs s)))
        ≡ map_values some own_pairs
  read_pairs utf8 =
      ap (λ ps. parse_txt_data_to_object utf8 (chunk_data_if_needed (pairs_text ps)))
        service_pairs-own
      ∙ parse-pairs_text utf8 _ _ (chunk_data_if_needed (pairs_text own_pairs)) own_clear
          (chunk_data_if_needed-whole utf8 (pairs_text own_pairs)).0
      ∙ insert_all-new some own_pairs [] own_names

  abbrev own_properties : Object
  own_properties = map_values some (map_values value_text s.properties)

  unnamed : (j : Text) → includes named j ≡ true → includes (names own_properties) j ≡ false
  unnamed j e =
      ap (λ ns. includes ns j)
        (names-map_values some (map_values value_text s.properties)
          ∙ names-map_values value_text s.properties)
      ∙ absent j (names s.properties) e (AreNew-All named (names s.properties) h.properties_new)

  only_unnamed : without_named (map_values some own_pairs) ≡ own_properties
  unfolding remove ◌===◌ includes
  only_unnamed =
      rw
        (
          remove-new (codes "id") own_properties (unnamed (codes "id") refl),
          remove-new (codes "t") own_properties (unnamed (codes "t") refl),
          remove-new (codes "se") own_properties (unnamed (codes "se") refl),
        )
        refl

  service_of-own : service_of did (map_values some own_pairs) ≡ ok s
  unfolding service_of property lookup ◌===◌
  service_of-own =
      rw
        (
          only_unnamed,
          custom_properties-values s.properties h.properties_valid,
          values_of-join h.endpoints h.items,
          sym h.is_id,
          sym h.is_endpoint,
        )
        refl

  process_service :
      (keys : Keys) (i : ℕ) (state : Decoded keys.Jwk)
      → state.document.id ≡ did
      → process_answer keys
          (txt
            (record_name (service_record_id i))
            (chunk_data_if_needed (pairs_text (service_pairs s))))
          state
        ≡ ok (add_service keys s state)
  unfolding process_answer process_record starts_with
  process_service keys i state same =
      rw
        (
          record_id_of-name (service_record_id i) (service_record_id-Lacks i),
          same,
          read_pairs keys.utf8_to_text,
          service_of-own,
        )
        refl

module _ (keys : Keys) where
  abbrev pub AreServices : Text → List Service → Type 0
  AreServices did [] = Unit
  AreServices did (s ∷ ss) = IsService did s × AreServices did ss

  abbrev pub with_services : List Service → Decoded keys.Jwk → Decoded keys.Jwk
  with_services [] state = state
  with_services (s ∷ ss) state = with_services ss (add_service keys s state)

  -- The records of the services are read as the services.
  pub service_answers-read :
      (did : Text) (i : ℕ) (services : List Service) (rest : List Answer) (state : Decoded keys.Jwk)
      → Lacks b'#' did
      → AreServices did services
      → state.document.id ≡ did
      → process_answers keys (service_answers i services ++ rest) state
        ≡ process_answers keys rest (with_services services state)
  unfolding service_answers process_answers
  service_answers-read did i [] rest state plain h same = refl
  service_answers-read did i (s ∷ ss) rest state plain (h, hs) same =
      rw (process_service did plain s h keys i state same)
        (service_answers-read did (suc i) ss rest (add_service keys s state) plain hs same)
