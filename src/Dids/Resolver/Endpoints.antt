-- ===== src/Dids/Resolver/Endpoints.antt =====
-- `getDwnServiceEndpointUrls` of packages/agent/src/utils.ts, over `dereference`.
use web5_js.Base.{
  Text, codes, some, List, [], ◌++◌, true, false, Result, ok, err, truthy, is_given, ◌≡◌, refl, inl,
  inr, Bool-cases,
}
use web5_js.Dids.Did.{Did, parse}
use web5_js.Dids.Resolver.{
  Service, Document, Error, not_found, DereferencingResult, Host, Method, resolve, ids_of,
}
use web5_js.Dids.Resolver.{
  get_dwn_service_endpoint_urls, urls_of, content_urls, is_dwn_did_service, endpoint_texts,
}
use web5_js.Dids.Resolver.Laws.{
  NoService, NoMethod, Selects, a_service, a_method, nothing, dereference-Selects, FirstService,
}

abbrev dwn_ids : Text → List Text
dwn_ids did_uri = ids_of (did_uri ++ codes "#dwn") (codes "dwn")

-- What comes of the result of the dereferencing.
pub data Urls (ids : List Text) (doc : Document) : Result Error (List Text) → Type 0 where
  usable :
      {s : Service}
      → FirstService ids s doc.services
      → is_dwn_did_service s ≡ true
      → Urls ids doc (ok (endpoint_texts s.service_endpoint))
  unusable :
      {s : Service}
      → FirstService ids s doc.services
      → is_dwn_did_service s ≡ false
      → Urls ids doc (ok [])
  no_service : NoService ids doc.services → Urls ids doc (ok [])
  missing :
      NoService ids doc.services
      → NoMethod ids doc.verification_methods
      → Urls ids doc (err not_found)

urls_of-Urls :
    (ids : List Text) (doc : Document) (r : DereferencingResult)
    → Selects ids doc r
    → Urls ids doc (urls_of r)
unfolding urls_of content_urls
urls_of-Urls ids doc r (a_service {s} f) = elim (Bool-cases (is_dwn_did_service s)) [
  | inl good ↦ rw good (usable f good)
  | inr bad ↦ rw bad (unusable f bad)
]
urls_of-Urls ids doc r (a_method h f) = no_service h
urls_of-Urls ids doc r (nothing h k) = missing h k

-- For a DID that resolves to a document, the endpoints are those of the first service whose id is
-- the DID with `#dwn`, `#dwn` or `dwn`, if that is a service of a DWN, and none otherwise. If no
-- service and no verification method has such an id, the call throws that nothing was found.
pub get_dwn_service_endpoint_urls-Urls :
    (host : Host) (methods : List (Text × Method host)) (did_uri : Text) (w : host.World)
    (did : Did) (doc : Document)
    → parse (did_uri ++ codes "#dwn") ≡ some did
    → did.fragment ≡ some (codes "dwn")
    → is_given did.query ≡ false
    → (resolve host methods did.uri w).0.document ≡ some doc
    → Urls (dwn_ids did_uri) doc (get_dwn_service_endpoint_urls host methods did_uri w).0
unfolding get_dwn_service_endpoint_urls
get_dwn_service_endpoint_urls-Urls host methods did_uri w did doc e f q d =
    urls_of-Urls (dwn_ids did_uri) doc _ (
      dereference-Selects host methods (did_uri ++ codes "#dwn") w did doc (codes "dwn") e f
        (unfold truthy in refl) q d)
