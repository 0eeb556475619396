-- ===== src/Dids/Dht/Created.antt =====
-- What `DidDht.create` returns (packages/dids/src/methods/did-dht.ts).
use web5_js.Base.{
  Text, codes, Option, none, some, List, [], ◌∷◌, ◌++◌, any, true, Bool-cases, inl, inr, ◌⊎◌, ◌===◌,
  ===_iff, truthy, split, split_go, ok, ◌≡◌, refl, sym, ap, subst, ◌∙◌,
}
use web5_js.Base.Exec.{pure, bind-eq-ok}
use web5_js.Dids.Dht.Types.{Value, VerificationMethod, Document, Keys}
use web5_js.Dids.Dht.ToPacket.{written, fragment, extract_did_fragment}
use web5_js.Dids.Dht.FromPacket.{no_document}
use web5_js.Dids.Dht.Create.{
  lift, KeyManager, MethodOptions, CreateOptions, is_identity_id, or_else, given_controller,
  with_method, with_services, get_public_key, key_uri, method_id, add_methods, methods_to_add,
  check_options, create, identity_key_to_identifier,
}
use web5_js.Dids.Dht.Related.{
  IsRelated, with_method-Good, with_services-Good, with_method-id, with_services-id,
}

module _ (keys : Keys) (km : KeyManager keys) where
  -- Generating a key changes no other one.
  pub record IsStable : Type 0 where
    pub stable :
        (algorithm uri : Text) (key : keys.Jwk) (s : km.State)
        → km.public_key uri s ≡ ok key
        → km.public_key uri (km.generate_key algorithm s).1 ≡ ok key

  -- The document has the method '0' with the identity key.
  abbrev pub HasIdentity : Text → keys.Jwk → List (VerificationMethod keys.Jwk) → Type 0
  HasIdentity did key [] = ⊥
  HasIdentity did key (m ∷ ms) =
      ((m.id ≡ did ++ codes "#0") × (m.public_key ≡ some key)) ⊎ HasIdentity did key ms

  HasIdentity-append :
      (did : Text) (key : keys.Jwk) (ms ns : List (VerificationMethod keys.Jwk))
      → HasIdentity did key ms
      → HasIdentity did key (ms ++ ns)
  HasIdentity-append did key [] ns h = absurd h
  HasIdentity-append did key (m ∷ ms) ns (inl e) = inl e
  HasIdentity-append did key (m ∷ ms) ns (inr h) = inr (HasIdentity-append did key ms ns h)

  HasIdentity-last :
      (did : Text) (key : keys.Jwk) (ms : List (VerificationMethod keys.Jwk))
      (m : VerificationMethod keys.Jwk)
      → m.id ≡ did ++ codes "#0"
      → m.public_key ≡ some key
      → HasIdentity did key (ms ++ (m ∷ []))
  HasIdentity-last did key [] m e f = inl (e, f)
  HasIdentity-last did key (n ∷ ms) m e f = inr (HasIdentity-last did key ms m e f)

  identity_text :
      (o : Option Text) (other : Text)
      → is_identity_id o ≡ true
      → written (extract_did_fragment (or_else o other)) ≡ codes "0"
  unfolding extract_did_fragment truthy fragment split split_go ◌===◌
  identity_text none other h = cc
  identity_text (some []) other h = cc
  identity_text (some (c ∷ id)) other h = (===_iff (fragment (c ∷ id)) (codes "0")).0 h

  identity_id :
      (did : Text) (m : MethodOptions) (key : keys.Jwk)
      → is_identity_id m.id ≡ true
      → method_id keys km did m key ≡ did ++ codes "#0"
  unfolding method_id
  identity_id did m key h = ap (λ t. did ++ (b'#' ∷ t)) (identity_text m.id _ h)

  key_uri-identity :
      (identity : Text) (key : keys.Jwk) (m : MethodOptions) (s : km.State)
      → IsStable
      → km.public_key identity s ≡ ok key
      → km.public_key identity (key_uri keys km identity m s).1 ≡ ok key
  unfolding key_uri pure
  key_uri-identity identity key m s stable h = elim (Bool-cases (is_identity_id m.id)) [
    | inl e ↦ rw e h
    | inr e ↦ rw e (stable.stable m.algorithm identity key s h)
  ]

  own_uri :
      (identity uri : Text) (m : MethodOptions) (s : km.State)
      → is_identity_id m.id ≡ true
      → (key_uri keys km identity m s).0 ≡ ok uri
      → identity ≡ uri
  unfolding key_uri pure
  own_uri identity uri m s e h = cc (rw e at h)

  -- What adding methods keeps and adds
  pub add_methods-HasIdentity :
      (did identity : Text) (key : keys.Jwk) (ms : List MethodOptions) (d : Document keys.Jwk)
      (s : km.State)
      → IsStable
      → km.public_key identity s ≡ ok key
      → IsRelated keys d
      → HasIdentity did key d.verification_method ⊎ (any (λ m. is_identity_id m.id) ms ≡ true)
      → (out : Document keys.Jwk) → (add_methods keys km did identity ms d s).0 ≡ ok out
      → IsRelated keys out × (out.id ≡ d.id) × HasIdentity did key out.verification_method
  unfolding add_methods pure get_public_key
  add_methods-HasIdentity did identity key [] d s stable h related (inl has) out e =
      let same : d ≡ out = cc in
      subst (λ o. IsRelated keys o × (o.id ≡ d.id) × HasIdentity did key o.verification_method) same
        (related, refl, has)
  add_methods-HasIdentity did identity key [] d s stable h related (inr has) out e = cc
  add_methods-HasIdentity did identity key (m ∷ ms) d s stable h related has out e =
      let (uri, got_uri, e₁) = bind-eq-ok (key_uri keys km identity m) _ s e in
      let s₁ = (key_uri keys km identity m s).1 in
      let (k, got_key, e₂) = bind-eq-ok (get_public_key keys km uri) _ s₁ e₁ in
      let h₁ = key_uri-identity identity key m s stable h in
      let method : VerificationMethod keys.Jwk = record {
        id = method_id keys km did m k;
        controller = or_else m.controller did;
        public_key = some k;
      } in
      let (whole, related₁) = with_method-Good keys method m.purposes d related in
      let (related₂, same_id, has₂) =
        add_methods-HasIdentity did identity key ms (with_method keys method m.purposes d) s₁ stable
          h₁ related₁
          (next method (with_method keys method m.purposes d) whole has λ own.
            (identity_id did m k own, key_of (own_uri identity uri m s own got_uri) h₁ got_key))
          out e₂ in
      (related₂, same_id ∙ with_method-id keys method m.purposes d, has₂)
    where
      next :
          (method : VerificationMethod keys.Jwk) (d' : Document keys.Jwk)
          → d'.verification_method ≡ d.verification_method ++ (method ∷ [])
          → HasIdentity did key d.verification_method
            ⊎ (any (λ m. is_identity_id m.id) (m ∷ ms) ≡ true)
          → (is_identity_id m.id ≡ true
              → (method.id ≡ did ++ codes "#0") × (method.public_key ≡ some key))
          → HasIdentity did key d'.verification_method ⊎ (any (λ m. is_identity_id m.id) ms ≡ true)
      next method d' whole (inl has) own = inl (
          subst (HasIdentity did key) (sym whole)
            (HasIdentity-append did key d.verification_method (method ∷ []) has))
      next method d' whole (inr some_method) own = elim (Bool-cases (is_identity_id m.id)) [
        | inl e ↦
            let (id, public) = own e in
            inl (
              subst (HasIdentity did key) (sym whole)
                (HasIdentity-last did key d.verification_method method id public))
        | inr e ↦ inr (rw e at some_method)
      ]

      key_of :
          {uri : Text} {k : keys.Jwk} {s₁ : km.State}
          → identity ≡ uri
          → km.public_key identity s₁ ≡ ok key
          → km.public_key uri s₁ ≡ ok k
          → ◌≡◌ {A = Option keys.Jwk} (some k) (some key)
      key_of e f g = cc

  methods_to_add-identity :
      (ms : List MethodOptions) → any (λ m. is_identity_id m.id) (methods_to_add keys km ms) ≡ true
  unfolding methods_to_add fragment split split_go ◌===◌
  methods_to_add-identity ms = elim (Bool-cases (any (λ m. is_identity_id m.id) ms)) [
    | inl e ↦ rw e e
    | inr e ↦ rw e refl
  ]

  no_document-IsRelated :
      (did : Text) (also : Option (List Text)) (controller : Option Value)
      → IsRelated keys
          (record (no_document keys did) { also_known_as = also; controller = controller })
  no_document-IsRelated did also controller = record {
    authentication = tt;
    assertion_method = tt;
    key_agreement = tt;
    capability_invocation = tt;
    capability_delegation = tt;
  }

  -- If generating a key changes no other one, a document that create returned is of the DID of an identity
  -- key, has a method with the ID #0 and that key, and its relationships hold only IDs of its methods.
  pub create-HasIdentity :
      (o : CreateOptions) (s : km.State) (d : Document keys.Jwk)
      → IsStable
      → (create keys km o s).0 ≡ ok d
      → (key : keys.Jwk) × (identity_key_to_identifier keys km key ≡ ok d.id)
        × HasIdentity d.id key d.verification_method
        × IsRelated keys d
  unfolding create get_public_key pure
  create-HasIdentity o s d stable h =
      let (_, _, h₁) = bind-eq-ok (check_options keys km o) _ s h in
      let s₁ = (check_options keys km o s).1 in
      let (identity, _, h₂) = bind-eq-ok (km.generate_key (codes "Ed25519")) _ s₁ h₁ in
      let s₂ = (km.generate_key (codes "Ed25519") s₁).1 in
      let (key, got, h₃) = bind-eq-ok (get_public_key keys km identity) _ s₂ h₂ in
      let (did, named, h₄) = bind-eq-ok (lift (identity_key_to_identifier keys km key)) _ s₂ h₃ in
      let start : Document keys.Jwk = record (no_document keys did) {
        also_known_as = o.also_known_as;
        controller = given_controller o.controllers;
      } in
      let ms = methods_to_add keys km o.verification_methods in
      let (out, added, h₅) = bind-eq-ok (add_methods keys km did identity ms start) _ s₂ h₄ in
      let (related, same_id, has) =
        add_methods-HasIdentity did identity key ms start s₂ stable got
          (no_document-IsRelated did _ _) (inr (methods_to_add-identity o.verification_methods)) out
          added in
      let (same_methods, related₁) =
        with_services-Good keys did o.services out.verification_method out (refl, related) in
      let whole : with_services keys did o.services out ≡ d = cc in
      let own : (with_services keys did o.services out).id ≡ did =
        with_services-id keys did o.services out ∙ same_id in
      subst
        (λ x.
          (key : keys.Jwk) × (identity_key_to_identifier keys km key ≡ ok x.id)
          × HasIdentity x.id key x.verification_method
          × IsRelated keys x)
        whole
        (
          key,
          named ∙ ap ok (sym own),
          subst (λ t. HasIdentity t key (with_services keys did o.services out).verification_method)
              (sym own) (subst (HasIdentity did key) (sym same_methods) has),
          related₁,
        )
