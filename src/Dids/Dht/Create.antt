-- ===== src/Dids/Dht/Create.antt =====
-- `DidDht.create` up to the publication, `import` and `getSigningMethod` (packages/dids/src/methods/did-dht.ts).
use web5_js.Base.{
  ℕ, Text, codes, Option, none, some, List, [], ◌∷◌, ◌++◌, any, all, Bool, true, false, not,
  if◌then◌else◌, ◌&&◌, ◌===◌, includes, truthy, Result, ok, err,
}
use web5_js.Base.Exec.{Exec, pure, throw, ◌>>=◌, ◌>>◌}
use web5_js.Dids.Dht.Types.{
  DhtError, external, Value, one, many, VerificationMethod, Service, Document, Keys,
}
use web5_js.Dids.Dht.ToPacket.{supported_algorithms, written, fragment, extract_did_fragment}
use web5_js.Dids.Dht.FromPacket.{no_document}

-- A key manager and its keys: `getPublicKey` reads, `generateKey` writes.
pub record KeyManager (keys : Keys) : Type 1 where
  pub State : Type 0
  pub generate_key : Text → Exec DhtError State Text
  pub public_key : Text → State → Result DhtError keys.Jwk
  pub kid : keys.Jwk → Option Text
  pub base32z_encode : List ℕ → Text

pub data Purpose : Type 0 where
  authentication assertion_method key_agreement capability_invocation capability_delegation :
      Purpose

pub record MethodOptions : Type 0 where
  pub algorithm : Text
  pub id : Option Text
  pub controller : Option Text
  pub purposes : List Purpose

pub record CreateOptions : Type 0 where
  pub also_known_as : Option (List Text)
  pub controllers : Option Value
  pub verification_methods : List MethodOptions
  pub services : List Service

-- The IDs that are given
unfoldable pub given_ids : List MethodOptions → List Text
given_ids [] = []
given_ids (m ∷ ms) = with_id m.id (given_ids ms)
  where
    with_id : Option Text → List Text → List Text
    with_id none ids = ids
    with_id (some id) ids = id ∷ ids

unfoldable pub all_different : List Text → Bool
all_different [] = true
all_different (t ∷ ts) = not (includes ts t) && all_different ts

abbrev pub truthy_value : Value → Bool
truthy_value (one t) = truthy t
truthy_value (many ts) = true

abbrev pub given_controller : Option Value → Option Value
given_controller none = none
given_controller (some v) = if truthy_value v then some v else none

abbrev pub is_identity_id : Option Text → Bool
is_identity_id none = false
is_identity_id (some id) = fragment id === codes "0"

abbrev pub or_else : Option Text → Text → Text
or_else none b = b
or_else (some a) b = a

-- `if (!document[purpose]) document[purpose] = []; document[purpose].push(id)`
abbrev pub pushed : Option (List Text) → Text → Option (List Text)
pushed none id = some (id ∷ [])
pushed (some ids) id = some (ids ++ (id ∷ []))

abbrev pub checked : {E S : Type 0} → Bool → E → Exec E S (Unit {0})
checked true e = pure tt
checked false e = throw e

abbrev pub lift : {E S A : Type 0} → Result E A → Exec E S A
lift r s = (r, s)

module _ (keys : Keys) where
  unfoldable pub add_purpose : Text → Purpose → Document keys.Jwk → Document keys.Jwk
  add_purpose id authentication d = record d { authentication = pushed d.authentication id }
  add_purpose id assertion_method d = record d { assertion_method = pushed d.assertion_method id }
  add_purpose id key_agreement d = record d { key_agreement = pushed d.key_agreement id }
  add_purpose id capability_invocation d = record d {
    capability_invocation = pushed d.capability_invocation id;
  }
  add_purpose id capability_delegation d = record d {
    capability_delegation = pushed d.capability_delegation id;
  }

  unfoldable pub add_purposes : Text → List Purpose → Document keys.Jwk → Document keys.Jwk
  add_purposes id [] d = d
  add_purposes id (p ∷ ps) d = add_purposes id ps (add_purpose id p d)

  -- The document with a verification method
  unfoldable pub with_method :
      VerificationMethod keys.Jwk → List Purpose → Document keys.Jwk → Document keys.Jwk
  with_method method purposes d =
      add_purposes method.id purposes
        (record d { verification_method = d.verification_method ++ (method ∷ []) })

  unfoldable pub with_services : Text → List Service → Document keys.Jwk → Document keys.Jwk
  with_services did [] d = d
  with_services did (s ∷ ss) d =
      with_services did ss
        (record d { service = d.service ++ (record s { id = did ++ (b'#' ∷ fragment s.id) } ∷ []) })

  module _ (km : KeyManager keys) where
    abbrev pub Create : Type 0 → Type 0
    Create A = Exec DhtError km.State A

    unfoldable pub get_public_key : Text → Create keys.Jwk
    get_public_key uri s = (km.public_key uri s, s)

    -- The identity key for the method '0', and a new key for the others
    unfoldable pub key_uri : Text → MethodOptions → Create Text
    key_uri identity m =
        let new = km.generate_key m.algorithm in if is_identity_id m.id then pure identity else new

    unfoldable pub method_id : Text → MethodOptions → keys.Jwk → Text
    method_id did m key =
        did
        ++ (b'#'
            ∷ written
                (extract_did_fragment (or_else m.id (or_else (km.kid key) (keys.thumbprint key)))))

    unfoldable pub add_methods :
        Text → Text → List MethodOptions → Document keys.Jwk → Create (Document keys.Jwk)
    add_methods did identity [] d = pure d
    add_methods did identity (m ∷ ms) d = do
      uri ← key_uri identity m
      key ← get_public_key uri
      add_methods did identity ms (
          with_method
            (record {
              id = method_id did m key;
              controller = or_else m.controller did;
              public_key = some key;
            })
            m.purposes d)

    abbrev pub identity_options : MethodOptions
    identity_options = record {
      algorithm = codes "Ed25519";
      id = some (codes "0");
      controller = none;
      purposes =
          authentication ∷ assertion_method ∷ capability_delegation ∷ capability_invocation ∷ [];
    }

    unfoldable pub methods_to_add : List MethodOptions → List MethodOptions
    methods_to_add ms = if any (λ m. is_identity_id m.id) ms then ms else identity_options ∷ ms

    unfoldable pub identity_key_to_identifier : keys.Jwk → Result DhtError Text
    identity_key_to_identifier key = identifier (keys.public_key_to_bytes (codes "Ed25519") key)
      where
        identifier : Result DhtError (List ℕ) → Result DhtError Text
        identifier (err e) = err e
        identifier (ok b) = ok (codes "did:dht:" ++ km.base32z_encode b)

    unfoldable pub check_options : CreateOptions → Create (Unit {0})
    check_options o = do
      checked (all (λ m. includes supported_algorithms m.algorithm) o.verification_methods)
          (external (codes "One or more verification method algorithms are not supported"))
      checked (all_different (given_ids o.verification_methods))
          (external (codes "One or more verification method IDs are not unique"))
      checked
          (all (λ s. truthy s.id && (truthy s.kind && truthy_value s.service_endpoint)) o.services)
          (external (codes "One or more services are missing required properties"))

    unfoldable pub create : CreateOptions → Create (Document keys.Jwk)
    create o = do
      check_options o
      identity ← km.generate_key (codes "Ed25519")
      key ← get_public_key identity
      did ← lift (identity_key_to_identifier key)
      d ←
          add_methods did identity (methods_to_add o.verification_methods)
            (record (no_document keys did) {
              also_known_as = o.also_known_as;
              controller = given_controller o.controllers;
            })
      pure (with_services did o.services d)
