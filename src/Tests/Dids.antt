-- ===== src/Tests/Dids.antt =====
-- The theorems about packages/dids/src/did.ts and the resolver at concrete inputs.
use web5_js.Base.{
  Text, codes, Option, none, some, List, [], ◌∷◌, ◌≡◌, refl, ap, ◌↔◌, ◌∙◌, lookup, insert,
  lookup-insert, ===_refl, ◌===◌, if◌then◌else◌, truthy, is_given,
}
use web5_js.Dids.Did.{
  Did, parse, exec, strip_prefix, span, is_method_char, is_id_char, is_hex, scan_id, ends_in_char,
  match_tail, optional_part, is_path_char, is_query_char, is_fragment_char, did_of,
}
use web5_js.Dids.Did.Parse.{IsDid, url, parse_iff, parse-uri}
use web5_js.Dids.Resolver.{
  text, Service, Document, ResolutionResult, Host, Method, resolve, resolve_parsed, resolve_with,
  cached_or, store_result, ids_of, dereference, get_dwn_service_endpoint_urls,
}
use web5_js.Dids.Resolver.Laws.{Remembers, Selects, resolve-again, dereference-Selects}
use web5_js.Dids.Resolver.Endpoints.{Urls, get_dwn_service_endpoint_urls-Urls}

abbrev web_uri : Text
web_uri = codes "did:web:a.b"

abbrev web_did : Option Text → Did
web_did fragment = record {
  uri = web_uri;
  method = codes "web";
  id = codes "a.b";
  path = none;
  query = none;
  fragment = fragment;
  params = none;
}

parse_url : parse (codes "did:web:a.b#dwn") ≡ some (web_did (some (codes "dwn")))
unfolding parse exec strip_prefix span is_method_char is_id_char is_hex scan_id ends_in_char
    match_tail optional_part is_path_char is_query_char is_fragment_char did_of truthy
parse_url = refl

parse_uri : parse web_uri ≡ some (web_did none)
parse_uri = parse-uri (codes "did:web:a.b#dwn") _ parse_url

parse_iff_example : (parse (codes "did:web:a.b#dwn") ≡ some (web_did (some (codes "dwn")))) ↔ (
    IsDid (web_did (some (codes "dwn")))
    × (codes "did:web:a.b#dwn" ≡ url (web_did (some (codes "dwn")))))
parse_iff_example = parse_iff (codes "did:web:a.b#dwn") (web_did (some (codes "dwn")))

-- A cache that forgets nothing
abbrev map_host : Host
map_host = record {
  World = List (Text × ResolutionResult);
  cache_get = λ k w. (lookup k w, w);
  cache_set = insert;
}

insert_self :
    (k : Text) (r : ResolutionResult) (w : List (Text × ResolutionResult))
    → lookup k (insert k r w) ≡ some r
insert_self k r w = lookup-insert k k r w ∙ ap (λ b. if b then some r else lookup k w) (===_refl k)

map_host-Remembers : Remembers map_host
map_host-Remembers = record { get-set = insert_self; get-get = λ k r w h. h }

abbrev dwn_service : Service
dwn_service = record {
  id = codes "did:web:a.b#dwn";
  type = codes "DecentralizedWebNode";
  service_endpoint = text (codes "https://d");
  enc = text (codes "#enc");
  sig = text (codes "#sig");
}

abbrev document : Document
document = record { id = web_uri; verification_methods = []; services = dwn_service ∷ [] }

abbrev web_methods : List (Text × Method map_host)
web_methods =
    (codes "web", λ _ w. (record { error = none; document = some document; metadata = [] }, w)) ∷ []

web_document : (resolve map_host web_methods web_uri []).0.document ≡ some document
unfolding resolve resolve_parsed resolve_with cached_or store_result lookup insert ◌===◌
web_document = rw parse_uri refl

web_resolved : (resolve map_host web_methods web_uri []).0.error ≡ none
unfolding resolve resolve_parsed resolve_with cached_or store_result lookup insert ◌===◌
web_resolved = rw parse_uri refl

resolve-again_example :
    (resolve map_host web_methods web_uri (resolve map_host web_methods web_uri []).1).0
    ≡ (resolve map_host web_methods web_uri []).0
resolve-again_example =
    resolve-again map_host map_host-Remembers web_methods web_uri [] web_resolved

dereference-Selects_example :
    Selects
      (ids_of (codes "did:web:a.b#dwn") (codes "dwn"))
      document
      (dereference map_host web_methods (codes "did:web:a.b#dwn") []).0
dereference-Selects_example =
    dereference-Selects map_host web_methods (codes "did:web:a.b#dwn") []
      (web_did (some (codes "dwn"))) document (codes "dwn") parse_url refl (unfold truthy in refl)
      (unfold is_given in refl) web_document

get_dwn_service_endpoint_urls-Urls_example :
    Urls
      (ids_of (codes "did:web:a.b#dwn") (codes "dwn"))
      document
      (get_dwn_service_endpoint_urls map_host web_methods web_uri []).0
get_dwn_service_endpoint_urls-Urls_example =
    get_dwn_service_endpoint_urls-Urls map_host web_methods web_uri []
      (web_did (some (codes "dwn"))) document parse_url refl (unfold is_given in refl) web_document
