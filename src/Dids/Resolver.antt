-- ===== src/Dids/Resolver.antt =====
-- `UniversalResolver` of packages/dids/src/resolver/universal-resolver.ts, with the parts of a DID
-- document that it reads, and `getDwnServiceEndpointUrls` of packages/agent/src/utils.ts.
pub mod Laws
pub mod Endpoints
use web5_js.Base.{
  ℕ, Text, codes, Option, none, some, List, [], ◌∷◌, ◌++◌, Bool, true, false, ◌&&◌, ◌||◌, not,
  ◌===◌, if◌then◌else◌, truthy, is_given, includes, lookup, insert, Result, ok, err,
}
use web5_js.Dids.Did.{Did, parse}

-- A property of an object from outside: absent, a string, an array of strings, or anything else.
pub data Value : Type 0 where
  absent : Value
  text : Text → Value
  texts : List Text → Value
  other : Value

pub record Service : Type 0 where
  pub id : Text
  pub type : Text
  pub service_endpoint : Value
  pub enc : Value
  pub sig : Value

pub record VerificationMethod : Type 0 where
  pub id : Text
  pub type : Text
  pub controller : Text

pub record Document : Type 0 where
  pub id : Text
  pub verification_methods : List VerificationMethod
  pub services : List Service

pub data Error : Type 0 where
  invalid_did invalid_did_url method_not_supported not_found : Error
  -- an error of a DID method
  method_error : Text → Error

pub record ResolutionResult : Type 0 where
  pub error : Option Error
  pub document : Option Document
  pub metadata : Text

-- `DidResource`, or `null`
pub data Content : Type 0 where
  null : Content
  whole : Document → Content
  service : Service → Content
  method : VerificationMethod → Content

pub record DereferencingResult : Type 0 where
  pub error : Option Error
  pub content : Content

-- What the resolver calls: its cache and the DID methods, with the world that they change.
pub record Host : Type 1 where
  pub World : Type 0
  pub cache_get : Text → World → Option ResolutionResult × World
  pub cache_set : Text → ResolutionResult → World → World

module _ (host : Host) where
  -- The `resolve` of a DID method
  abbrev pub Method : Type 0
  Method = Text → host.World → ResolutionResult × host.World

  -- The constructor's loop: a later resolver replaces an earlier one of its method name.
  unfoldable pub register : List (Text × Method) → List (Text × Method) → List (Text × Method)
  register [] m = m
  register ((name, resolver) ∷ rest) m = register rest (insert name resolver m)

  abbrev pub failure : Error → ResolutionResult
  failure e = record { error = some e; document = none; metadata = [] }

  -- An error result is not cached.
  unfoldable pub store_result : Text → ResolutionResult × host.World → ResolutionResult × host.World
  store_result uri (r, w) = elim r.error [ none ↦ (r, host.cache_set uri r w) | some _ ↦ (r, w) ]

  unfoldable pub cached_or :
      Text → Method → Option ResolutionResult × host.World → ResolutionResult × host.World
  cached_or uri resolver (some r, w) = (r, w)
  cached_or uri resolver (none, w) = store_result uri (resolver uri w)

  unfoldable pub resolve_with : Option Method → Text → host.World → ResolutionResult × host.World
  unfolding cached_or store_result
  resolve_with none uri w = (failure method_not_supported, w)
  resolve_with (some resolver) uri w = cached_or uri resolver (host.cache_get uri w)

  unfoldable pub resolve_parsed :
      List (Text × Method) → Option Did → host.World → ResolutionResult × host.World
  resolve_parsed methods none w = (failure invalid_did, w)
  resolve_parsed methods (some did) w = resolve_with (lookup did.method methods) did.uri w

  unfoldable pub resolve : List (Text × Method) → Text → host.World → ResolutionResult × host.World
  unfolding resolve_parsed
  resolve methods did_uri w = resolve_parsed methods (parse did_uri) w

-- The first entry whose id is one of the ids
unfoldable pub find_method : List Text → List VerificationMethod → Option VerificationMethod
find_method ids [] = none
find_method ids (v ∷ vs) = if includes ids v.id then some v else find_method ids vs

unfoldable pub find_service : List Text → List Service → Option Service
find_service ids [] = none
find_service ids (s ∷ ss) = if includes ids s.id then some s else find_service ids ss

-- `idSet`
unfoldable pub ids_of : Text → Text → List Text
ids_of did_url fragment = did_url ∷ fragment ∷ (codes "#" ++ fragment) ∷ []

-- A service is found after a verification method and replaces it.
abbrev pub choose : Option Service → Option VerificationMethod → Content
choose (some s) v = service s
choose none (some v) = method v
choose none none = null

unfoldable pub find_resource : List Text → Document → Content
find_resource ids doc =
    choose (find_service ids doc.services) (find_method ids doc.verification_methods)

abbrev pub refused : Error → DereferencingResult
refused e = record { error = some e; content = null }

abbrev pub found : Content → DereferencingResult
found null = refused not_found
found (whole doc) = record { error = none; content = whole doc }
found (service s) = record { error = none; content = service s }
found (method v) = record { error = none; content = method v }

abbrev pub or_empty : Option Text → Text
or_empty none = []
or_empty (some s) = s

-- The resource of a parsed URL in the document of its DID.
unfoldable pub select : Text → Did → Document → DereferencingResult
select did_url did doc =
    if not (is_given did.fragment) || is_given did.query
    then record { error = none; content = whole doc }
    else found (find_resource (ids_of did_url (or_empty did.fragment)) doc)

abbrev pub select_in : Text → Did → Option Error → Option Document → DereferencingResult
select_in did_url did e none = record { error = e; content = null }
select_in did_url did e (some doc) = select did_url did doc

abbrev pub select_from : Text → Did → ResolutionResult → DereferencingResult
select_from did_url did r = select_in did_url did r.error r.document

module _ (host : Host) where
  unfoldable pub dereference_parsed :
      List (Text × Method host) → Text → Option Did → host.World → DereferencingResult × host.World
  dereference_parsed methods did_url none w = (refused invalid_did_url, w)
  dereference_parsed methods did_url (some did) w =
      let (r, w') = resolve host methods did.uri w in (select_from did_url did r, w')

  unfoldable pub dereference :
      List (Text × Method host) → Text → host.World → DereferencingResult × host.World
  unfolding dereference_parsed
  dereference methods did_url w = dereference_parsed methods did_url (parse did_url) w

-- `isStringOrStringArray`
abbrev is_string_or_array : Value → Bool
is_string_or_array (text _) = true
is_string_or_array (texts _) = true
is_string_or_array _ = false

abbrev is_present : Value → Bool
is_present absent = false
is_present _ = true

-- `isDwnDidService` of packages/dids/src/utils.ts; a service has an id and a type.
unfoldable pub is_dwn_did_service : Service → Bool
is_dwn_did_service s =
    is_present s.service_endpoint
    && ((s.type === codes "DecentralizedWebNode")
        && (is_string_or_array s.enc && is_string_or_array s.sig))

abbrev pub endpoint_texts : Value → List Text
endpoint_texts (text t) = t ∷ []
endpoint_texts (texts ts) = ts
endpoint_texts _ = []

unfoldable pub content_urls : Content → List Text
content_urls (service s) = if is_dwn_did_service s then endpoint_texts s.service_endpoint else []
content_urls _ = []

-- The error of the dereferencing is thrown.
unfoldable pub urls_of : DereferencingResult → Result Error (List Text)
urls_of r = elim r.error [ some e ↦ err e | none ↦ ok (content_urls r.content) ]

module _ (host : Host) where
  unfoldable pub get_dwn_service_endpoint_urls :
      List (Text × Method host) → Text → host.World → Result Error (List Text) × host.World
  unfolding urls_of
  get_dwn_service_endpoint_urls methods did_uri w =
      let (r, w') = dereference host methods (did_uri ++ codes "#dwn") w in (urls_of r, w')
