-- ===== src/Tests/Permissions.antt =====
-- The theorems about packages/agent/src/permissions-api.ts at concrete inputs.
use web5_js.Base.{
  ℕ, Text, codes, none, some, List, [], ◌∷◌, true, false, ok, ◌≡◌, ◌↔◌, All, refl, arith, lookup,
  insert, ◌===◌, join, ◌===?◌, includes,
}
use web5_js.Base.Exec.{bind, gets, pure, throw, modify, continue}
use web5_js.Base.TtlCache.{map_cache}
use web5_js.Agent.Permissions.{
  Grant, GrantEntry, MessageParams, match_grant_from_array, match_scope_from_grant,
  matches_records_scope, is_unrestricted_protocol_scope, is_records_type,
}
use web5_js.Agent.Permissions.Matching.{Usable, First, match_grant-First_iff}
use web5_js.Agent.Permissions.Cache.{
  PermissionRequest, Agent, Api, get_permission_for_request, cached_grant, cache_key, call,
  find_permission, fetch_grants, lift_result, parse_grants, remember, params_of,
}
use web5_js.Agent.Permissions.CacheLaws.{
  IsKeyed, IsValid, Covers, get_permission-Covers, get_permission-keeps, get_permission_undelegated,
}

abbrev alice : Text
alice = codes "did:web:a"

abbrev app : Text
app = codes "did:jwk:b"

abbrev write_grant : Grant
write_grant = record {
  id = codes "g";
  grantor = alice;
  grantee = app;
  delegated = none;
  scope = record {
    interface = codes "Records";
    method = codes "Write";
    protocol = some (codes "p");
    protocol_path = none;
    context_id = none;
  };
}

abbrev entry : GrantEntry
entry = record { grant = write_grant; message = codes "m" }

-- A grant to another app stands before it.
abbrev entries : List GrantEntry
entries = record entry { grant = record write_grant { grantee = codes "did:jwk:c" } } ∷ entry ∷ []

abbrev write_params : MessageParams
write_params = record {
  message_type = codes "RecordsWrite";
  protocol = some (codes "p");
  protocol_path = none;
  context_id = none;
}

entries_match : match_grant_from_array alice app write_params entries false ≡ some entry
unfolding match_grant_from_array match_scope_from_grant matches_records_scope
    is_unrestricted_protocol_scope is_records_type ◌===◌ ◌===?◌ includes
entries_match = refl

match_grant-First_iff_example :
    ((e : GrantEntry)
      → (match_grant_from_array alice app write_params entries false ≡ some e)
        ↔ First alice app write_params false e entries)
    × ((match_grant_from_array alice app write_params entries false ≡ none)
        ↔ All (λ e. ¬ Usable alice app write_params false e) entries)
match_grant-First_iff_example = match_grant-First_iff alice app write_params false entries

-- A DWN with the one grant
abbrev one_grant : Agent
one_grant = record {
  World = ℕ;
  cache = map_cache GrantEntry;
  query_grants = λ _ w. (ok (200, codes "m" ∷ []), w);
  read_revocation = λ _ w. (ok 404, w);
  parse = λ _. ok write_grant;
}

abbrev write_request : PermissionRequest
write_request = record {
  connected_did = alice;
  delegate_did = app;
  message_type = codes "RecordsWrite";
  protocol = some (codes "p");
  delegate = false;
  cached = true;
}

write_request-IsKeyed : IsKeyed write_request
write_request-IsKeyed = record {
  connected = ground arith;
  delegate = ground arith;
  kind = ground arith;
  protocol = λ h. cc;
}

abbrev empty_api : Api one_grant
empty_api = record { cached_permissions = []; world = 0 }

empty_api-IsValid : IsValid one_grant empty_api
unfolding lookup
empty_api-IsValid = record { covered = λ r e k h. cc }

abbrev filled_api : Api one_grant
filled_api = record empty_api { cached_permissions = (cache_key write_request, entry) ∷ [] }

first_answer : get_permission_for_request one_grant write_request empty_api ≡ (ok entry, filled_api)
unfolding get_permission_for_request cached_grant find_permission fetch_grants lift_result
    parse_grants remember call bind gets pure throw modify continue lookup insert
    match_grant_from_array match_scope_from_grant matches_records_scope
    is_unrestricted_protocol_scope is_records_type ◌===◌ ◌===?◌ includes
first_answer = refl

get_permission-Covers_example :
    Covers write_request write_grant
    × (cached_grant one_grant write_request empty_api ≡ none
        → Usable alice app (params_of write_request) false entry)
get_permission-Covers_example =
    get_permission-Covers one_grant write_request empty_api entry write_request-IsKeyed
      empty_api-IsValid (rw first_answer refl)

get_permission-keeps_example :
    IsValid one_grant (get_permission_for_request one_grant write_request empty_api).1
get_permission-keeps_example =
    get_permission-keeps one_grant write_request empty_api write_request-IsKeyed empty_api-IsValid

entry_held : lookup (cache_key write_request) filled_api.cached_permissions ≡ some entry
unfolding lookup cache_key join ◌===◌
entry_held = refl

get_permission_undelegated_example :
    (get_permission_for_request one_grant
        (record write_request { delegate = true; cached = true })
        filled_api
      ≡ (ok entry, filled_api))
    × ¬ Usable alice app (params_of write_request) true entry
get_permission_undelegated_example =
    get_permission_undelegated one_grant write_request empty_api filled_api entry first_answer
      entry_held (λ h. cc)
