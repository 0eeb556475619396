-- ===== src/Dids/Dht/Related.antt =====
-- The relationships of a document under construction (packages/dids/src/methods/did-dht.ts).
use web5_js.Base.{
  Text, Option, none, some, List, [], ◌∷◌, ◌++◌, All, All-append, All-map, inl, inr, ◌≡◌, refl, sym,
  subst,
}
use web5_js.Dids.Dht.Types.{VerificationMethod, Service, Document, Keys}
use web5_js.Dids.Dht.ToPacket.{fragment}
use web5_js.Dids.Dht.Records.{HasMethod}
use web5_js.Dids.Dht.Create.{
  Purpose, authentication, assertion_method, key_agreement, capability_invocation,
  capability_delegation, pushed, add_purpose, add_purposes, with_method, with_services,
}

module _ (keys : Keys) where
  -- The IDs of a relationship are of verification methods of the document.
  abbrev pub AreOwn : List (VerificationMethod keys.Jwk) → Option (List Text) → Type 0
  AreOwn ms none = Unit
  AreOwn ms (some ids) = All (λ id. HasMethod keys id ms) ids

  pub record IsRelated (d : Document keys.Jwk) : Type 0 where
    pub authentication : AreOwn d.verification_method d.authentication
    pub assertion_method : AreOwn d.verification_method d.assertion_method
    pub key_agreement : AreOwn d.verification_method d.key_agreement
    pub capability_invocation : AreOwn d.verification_method d.capability_invocation
    pub capability_delegation : AreOwn d.verification_method d.capability_delegation

  HasMethod-append :
      (id : Text) (ms ns : List (VerificationMethod keys.Jwk))
      → HasMethod keys id ms
      → HasMethod keys id (ms ++ ns)
  HasMethod-append id [] ns h = absurd h
  HasMethod-append id (m ∷ ms) ns (inl e) = inl e
  HasMethod-append id (m ∷ ms) ns (inr h) = inr (HasMethod-append id ms ns h)

  HasMethod-last :
      (m : VerificationMethod keys.Jwk) (ms : List (VerificationMethod keys.Jwk))
      → HasMethod keys m.id (ms ++ (m ∷ []))
  HasMethod-last m [] = inl refl
  HasMethod-last m (n ∷ ms) = inr (HasMethod-last m ms)

  AreOwn-append :
      (ms ns : List (VerificationMethod keys.Jwk)) (r : Option (List Text))
      → AreOwn ms r
      → AreOwn (ms ++ ns) r
  AreOwn-append ms ns none h = tt
  AreOwn-append ms ns (some ids) h = All-map _ (λ id k. HasMethod-append id ms ns k) ids h

  AreOwn-pushed :
      (ms : List (VerificationMethod keys.Jwk)) (r : Option (List Text)) (id : Text)
      → HasMethod keys id ms
      → AreOwn ms r
      → AreOwn ms (pushed r id)
  AreOwn-pushed ms none id k h = (k, tt)
  AreOwn-pushed ms (some ids) id k h = All-append _ ids (id ∷ []) h (k, tt)

  abbrev pub Good : List (VerificationMethod keys.Jwk) → Document keys.Jwk → Type 0
  Good ms d = (d.verification_method ≡ ms) × IsRelated d

  add_purpose-Good :
      (id : Text) (p : Purpose) (ms : List (VerificationMethod keys.Jwk)) (d : Document keys.Jwk)
      → HasMethod keys id ms
      → Good ms d
      → Good ms (add_purpose keys id p d)
  unfolding add_purpose
  add_purpose-Good id authentication ms d k (e, h) = (
    e,
    record {
      authentication =
          AreOwn-pushed d.verification_method d.authentication id
            (subst (HasMethod keys id) (sym e) k) h.authentication;
      assertion_method = h.assertion_method;
      key_agreement = h.key_agreement;
      capability_invocation = h.capability_invocation;
      capability_delegation = h.capability_delegation;
    },
  )
  add_purpose-Good id assertion_method ms d k (e, h) = (
    e,
    record {
      authentication = h.authentication;
      assertion_method =
          AreOwn-pushed d.verification_method d.assertion_method id
            (subst (HasMethod keys id) (sym e) k) h.assertion_method;
      key_agreement = h.key_agreement;
      capability_invocation = h.capability_invocation;
      capability_delegation = h.capability_delegation;
    },
  )
  add_purpose-Good id key_agreement ms d k (e, h) = (
    e,
    record {
      authentication = h.authentication;
      assertion_method = h.assertion_method;
      key_agreement =
          AreOwn-pushed d.verification_method d.key_agreement id
            (subst (HasMethod keys id) (sym e) k) h.key_agreement;
      capability_invocation = h.capability_invocation;
      capability_delegation = h.capability_delegation;
    },
  )
  add_purpose-Good id capability_invocation ms d k (e, h) = (
    e,
    record {
      authentication = h.authentication;
      assertion_method = h.assertion_method;
      key_agreement = h.key_agreement;
      capability_invocation =
          AreOwn-pushed d.verification_method d.capability_invocation id
            (subst (HasMethod keys id) (sym e) k) h.capability_invocation;
      capability_delegation = h.capability_delegation;
    },
  )
  add_purpose-Good id capability_delegation ms d k (e, h) = (
    e,
    record {
      authentication = h.authentication;
      assertion_method = h.assertion_method;
      key_agreement = h.key_agreement;
      capability_invocation = h.capability_invocation;
      capability_delegation =
          AreOwn-pushed d.verification_method d.capability_delegation id
            (subst (HasMethod keys id) (sym e) k) h.capability_delegation;
    },
  )

  add_purposes-Good :
      (id : Text) (ps : List Purpose) (ms : List (VerificationMethod keys.Jwk))
      (d : Document keys.Jwk)
      → HasMethod keys id ms
      → Good ms d
      → Good ms (add_purposes keys id ps d)
  unfolding add_purposes
  add_purposes-Good id [] ms d k h = h
  add_purposes-Good id (p ∷ ps) ms d k h =
      add_purposes-Good id ps ms (add_purpose keys id p d) k (add_purpose-Good id p ms d k h)

  pub with_method-Good :
      (m : VerificationMethod keys.Jwk) (ps : List Purpose) (d : Document keys.Jwk)
      → IsRelated d
      → Good (d.verification_method ++ (m ∷ [])) (with_method keys m ps d)
  unfolding with_method
  with_method-Good m ps d h =
      let ms = d.verification_method in
      add_purposes-Good m.id ps (ms ++ (m ∷ [])) (record d { verification_method = ms ++ (m ∷ []) })
        (HasMethod-last m ms)
        (
          refl,
          record {
            authentication = AreOwn-append ms (m ∷ []) d.authentication h.authentication;
            assertion_method = AreOwn-append ms (m ∷ []) d.assertion_method h.assertion_method;
            key_agreement = AreOwn-append ms (m ∷ []) d.key_agreement h.key_agreement;
            capability_invocation =
                AreOwn-append ms (m ∷ []) d.capability_invocation h.capability_invocation;
            capability_delegation =
                AreOwn-append ms (m ∷ []) d.capability_delegation h.capability_delegation;
          },
        )

  pub with_services-Good :
      (did : Text) (ss : List Service) (ms : List (VerificationMethod keys.Jwk))
      (d : Document keys.Jwk)
      → Good ms d
      → Good ms (with_services keys did ss d)
  unfolding with_services
  with_services-Good did [] ms d h = h
  with_services-Good did (s ∷ ss) ms d (e, h) =
      with_services-Good did ss ms
        (record d { service = d.service ++ (record s { id = did ++ (b'#' ∷ fragment s.id) } ∷ []) })
        (
          e,
          record {
            authentication = h.authentication;
            assertion_method = h.assertion_method;
            key_agreement = h.key_agreement;
            capability_invocation = h.capability_invocation;
            capability_delegation = h.capability_delegation;
          },
        )

  add_purposes-id :
      (id : Text) (ps : List Purpose) (d : Document keys.Jwk)
      → (add_purposes keys id ps d).id ≡ d.id
  unfolding add_purposes add_purpose
  add_purposes-id id [] d = refl
  add_purposes-id id (authentication ∷ ps) d = add_purposes-id id ps _
  add_purposes-id id (assertion_method ∷ ps) d = add_purposes-id id ps _
  add_purposes-id id (key_agreement ∷ ps) d = add_purposes-id id ps _
  add_purposes-id id (capability_invocation ∷ ps) d = add_purposes-id id ps _
  add_purposes-id id (capability_delegation ∷ ps) d = add_purposes-id id ps _

  pub with_method-id :
      (m : VerificationMethod keys.Jwk) (ps : List Purpose) (d : Document keys.Jwk)
      → (with_method keys m ps d).id ≡ d.id
  unfolding with_method
  with_method-id m ps d = add_purposes-id m.id ps _

  pub with_services-id :
      (did : Text) (ss : List Service) (d : Document keys.Jwk)
      → (with_services keys did ss d).id ≡ d.id
  unfolding with_services
  with_services-id did [] d = refl
  with_services-id did (s ∷ ss) d = with_services-id did ss _
