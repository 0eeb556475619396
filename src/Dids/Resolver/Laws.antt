-- ===== src/Dids/Resolver/Laws.antt =====
-- What `resolve` and `dereference` of packages/dids/src/resolver/universal-resolver.ts answer.
use web5_js.Base.{
  Text, Option, none, some, List, [], ◌∷◌, true, false, truthy, is_given, includes, lookup, ◌≡◌,
  refl, ap, ◌∙◌, arith, ◌⊎◌, inl, inr, Bool-cases, All,
}
use web5_js.Dids.Did.{Did, parse}
use web5_js.Dids.Resolver.{
  Service, VerificationMethod, Document, not_found, ResolutionResult, null, service, method,
  DereferencingResult, Host, Method, resolve, resolve_with, resolve_parsed, cached_or, store_result,
  find_method, find_service, ids_of, find_resource, select, found, dereference, dereference_parsed,
}

-- A cache that keeps what it is given: what was set is found, and finding it does not lose it.
pub record Remembers (host : Host) : Type 0 where
  pub get-set :
      (k : Text) (r : ResolutionResult) (w : host.World)
      → (host.cache_get k (host.cache_set k r w)).0 ≡ some r
  pub get-get :
      (k : Text) (r : ResolutionResult) (w : host.World)
      → (host.cache_get k w).0 ≡ some r
      → (host.cache_get k (host.cache_get k w).1).0 ≡ some r

result_eq : {x y : ResolutionResult} → some x ≡ some y → x ≡ y
result_eq h = cc

module _ (host : Host) (keeps : Remembers host) where
  store-again :
      (uri : Text) (p : ResolutionResult × host.World)
      → (store_result host uri p).0.error ≡ none
      → (host.cache_get uri (store_result host uri p).1).0 ≡ some (store_result host uri p).0
  unfolding store_result
  store-again uri (r, w) h = ground (arith, keeps.get-set uri r w)

  cached_or-again :
      (uri : Text) (resolver : Method host) (o : Option ResolutionResult × host.World)
      → ((r : ResolutionResult) → o.0 ≡ some r → (host.cache_get uri o.1).0 ≡ some r)
      → (cached_or host uri resolver o).0.error ≡ none
      → (host.cache_get uri (cached_or host uri resolver o).1).0
        ≡ some (cached_or host uri resolver o).0
  unfolding cached_or
  cached_or-again uri resolver (some r, w) kept h = kept r refl
  cached_or-again uri resolver (none, w) kept h = store-again uri (resolver uri w) h

  cached_or-hit :
      (uri : Text) (resolver : Method host) (o : Option ResolutionResult × host.World)
      (r : ResolutionResult)
      → o.0 ≡ some r
      → cached_or host uri resolver o ≡ (r, o.1)
  unfolding cached_or
  cached_or-hit uri resolver (none, w) r h = cc
  cached_or-hit uri resolver (some q, w) r h = ap (λ x. (x, w)) (result_eq h)

  resolve_with-again :
      (m : Option (Method host)) (uri : Text) (w : host.World)
      → (resolve_with host m uri w).0.error ≡ none
      → resolve_with host m uri (resolve_with host m uri w).1
        ≡ ((resolve_with host m uri w).0, (host.cache_get uri (resolve_with host m uri w).1).1)
  unfolding resolve_with
  resolve_with-again none uri w h = cc
  resolve_with-again (some resolver) uri w h =
      cached_or-hit uri resolver
        (host.cache_get uri (cached_or host uri resolver (host.cache_get uri w)).1) _
        (cached_or-again uri resolver (host.cache_get uri w) (λ r e. keeps.get-get uri r w e) h)

  resolve_parsed-again :
      (methods : List (Text × Method host)) (d : Option Did) (w : host.World)
      → (resolve_parsed host methods d w).0.error ≡ none
      → (resolve_parsed host methods d (resolve_parsed host methods d w).1).0
        ≡ (resolve_parsed host methods d w).0
  unfolding resolve_parsed
  resolve_parsed-again methods none w h = cc
  resolve_parsed-again methods (some d) w h =
      ap (λ p. p.0) (resolve_with-again (lookup d.method methods) d.uri w h)

-- With a cache that keeps what it is given, a DID that was resolved without an error resolves to the
-- same result when it is resolved again, whatever the DID method would answer the second time.
pub resolve-again :
    (host : Host) (keeps : Remembers host) (methods : List (Text × Method host)) (did_uri : Text)
    (w : host.World)
    → (resolve host methods did_uri w).0.error ≡ none
    → (resolve host methods did_uri (resolve host methods did_uri w).1).0
      ≡ (resolve host methods did_uri w).0
unfolding resolve
resolve-again host keeps methods did_uri w h =
    resolve_parsed-again host keeps methods (parse did_uri) w h

-- The entries behind which none before has a listed id.
pub data FirstService (ids : List Text) (s : Service) : List Service → Type 0 where
  here : {ss : List Service} → includes ids s.id ≡ true → FirstService ids s (s ∷ ss)
  later :
      {t : Service} {ss : List Service}
      → includes ids t.id ≡ false
      → FirstService ids s ss
      → FirstService ids s (t ∷ ss)

pub data FirstMethod (ids : List Text) (v : VerificationMethod)
    : List VerificationMethod → Type 0 where
  here : {vs : List VerificationMethod} → includes ids v.id ≡ true → FirstMethod ids v (v ∷ vs)
  later :
      {t : VerificationMethod} {vs : List VerificationMethod}
      → includes ids t.id ≡ false
      → FirstMethod ids v vs
      → FirstMethod ids v (t ∷ vs)

abbrev pub NoService : List Text → List Service → Type 0
NoService ids = All (λ s. includes ids s.id ≡ false)

abbrev pub NoMethod : List Text → List VerificationMethod → Type 0
NoMethod ids = All (λ v. includes ids v.id ≡ false)

-- What a URL with a fragment stands for in a document.
pub data Selects (ids : List Text) (doc : Document) : DereferencingResult → Type 0 where
  a_service :
      {s : Service}
      → FirstService ids s doc.services
      → Selects ids doc (record { error = none; content = service s })
  a_method :
      {v : VerificationMethod}
      → NoService ids doc.services
      → FirstMethod ids v doc.verification_methods
      → Selects ids doc (record { error = none; content = method v })
  nothing :
      NoService ids doc.services
      → NoMethod ids doc.verification_methods
      → Selects ids doc (record { error = some not_found; content = null })

service_cases :
    (ids : List Text) (ss : List Service)
    → ((find_service ids ss ≡ none) × NoService ids ss)
      ⊎ ((s : Service) × (find_service ids ss ≡ some s) × FirstService ids s ss)
unfolding find_service
service_cases ids [] = inl (refl, tt)
service_cases ids (s ∷ ss) = elim (Bool-cases (includes ids s.id)) [
  | inl good ↦ inr (s, rw good refl, here good)
  | inr bad ↦ elim (service_cases ids ss) [
    | inl (e, h) ↦ inl (rw bad e, (bad, h))
    | inr (t, e, f) ↦ inr (t, rw bad e, later bad f)
  ]
]

method_cases :
    (ids : List Text) (vs : List VerificationMethod)
    → ((find_method ids vs ≡ none) × NoMethod ids vs)
      ⊎ ((v : VerificationMethod) × (find_method ids vs ≡ some v) × FirstMethod ids v vs)
unfolding find_method
method_cases ids [] = inl (refl, tt)
method_cases ids (v ∷ vs) = elim (Bool-cases (includes ids v.id)) [
  | inl good ↦ inr (v, rw good refl, FirstMethod.here good)
  | inr bad ↦ elim (method_cases ids vs) [
    | inl (e, h) ↦ inl (rw bad e, (bad, h))
    | inr (t, e, f) ↦ inr (t, rw bad e, FirstMethod.later bad f)
  ]
]

found-Selects : (ids : List Text) (doc : Document) → Selects ids doc (found (find_resource ids doc))
unfolding find_resource
found-Selects ids doc = elim (service_cases ids doc.services) [
  | inr (s, e, f) ↦ rw e (a_service f)
  | inl (e, h) ↦ elim (method_cases ids doc.verification_methods) [
    | inr (v, e', f) ↦ rw (e, e') (a_method h f)
    | inl (e', h') ↦ rw (e, e') (nothing h h')
  ]
]

select-Selects :
    (did_url : Text) (did : Did) (doc : Document) (fragment : Text)
    → did.fragment ≡ some fragment
    → truthy fragment ≡ true
    → is_given did.query ≡ false
    → Selects (ids_of did_url fragment) doc (select did_url did doc)
unfolding select is_given
select-Selects did_url did doc fragment e t q =
    let given : is_given did.fragment ≡ true = ap is_given e ∙ t in
    rw (given, q) (rw e (found-Selects (ids_of did_url fragment) doc))

module _ (host : Host) (methods : List (Text × Method host)) where
  dereference_found :
      (did_url : Text) (w : host.World) (did : Did) (doc : Document)
      → parse did_url ≡ some did
      → (resolve host methods did.uri w).0.document ≡ some doc
      → (dereference host methods did_url w).0 ≡ select did_url did doc
  unfolding dereference dereference_parsed
  dereference_found did_url w did doc e d = rw e (rw d refl)

-- A URL with a fragment and no query, whose DID resolves to a document, is dereferenced to the first
-- service of the document whose id is the URL, the fragment, or `#` and the fragment. If there is
-- no such service it is the first such verification method, and the error is that nothing was
-- found if there is none either.
pub dereference-Selects :
    (host : Host) (methods : List (Text × Method host)) (did_url : Text) (w : host.World)
    (did : Did) (doc : Document) (fragment : Text)
    → parse did_url ≡ some did
    → did.fragment ≡ some fragment
    → truthy fragment ≡ true
    → is_given did.query ≡ false
    → (resolve host methods did.uri w).0.document ≡ some doc
    → Selects (ids_of did_url fragment) doc (dereference host methods did_url w).0
dereference-Selects host methods did_url w did doc fragment e f t q d =
    rw (dereference_found host methods did_url w did doc e d)
      (select-Selects did_url did doc fragment f t q)
