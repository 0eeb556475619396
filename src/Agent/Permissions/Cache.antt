-- ===== src/Agent/Permissions/Cache.antt =====
-- `getPermissionForRequest`, `fetchGrants`, `isGrantRevoked` and `clear` of
-- packages/agent/src/permissions-api.ts.
use web5_js.Base.{
  ℕ, Text, Option, none, some, List, [], ◌∷◌, Bool, true, false, ◌==◌, not, if◌then◌else◌, join,
  Result, ok, err,
}
use web5_js.Base.Exec.{Exec, pure, throw, gets, modify, ◌>>=◌, ◌>>◌}
use web5_js.Base.TtlCache.{TtlCache}
use web5_js.Agent.Permissions.{Grant, GrantEntry, MessageParams, match_grant_from_array}

pub data PermissionsError : Type 0 where
  external : Text → PermissionsError
  failed_to_fetch : ℕ → PermissionsError
  failed_to_check : ℕ → PermissionsError
  no_permissions : Text → Option Text → PermissionsError

-- `FetchPermissionsParams`
pub record FetchParams : Type 0 where
  pub author : Text
  pub target : Text
  pub grantor : Option Text
  pub grantee : Option Text
  pub protocol : Option Text
  pub remote : Bool

-- `IsGrantRevokedParams`
pub record RevokedParams : Type 0 where
  pub author : Text
  pub target : Text
  pub grant_record_id : Text
  pub remote : Bool

-- The agent's DWN and the cache, which this file calls. A query answers with a status code and the
-- messages that it found; `parse` is `DwnPermissionGrant.parse`.
pub record Agent : Type 1 where
  pub World : Type 0
  pub cache : TtlCache GrantEntry
  pub query_grants : FetchParams → World → Result PermissionsError (ℕ × List Text) × World
  pub read_revocation : RevokedParams → World → Result PermissionsError ℕ × World
  pub parse : Text → Result PermissionsError Grant

-- The state of `AgentPermissionsApi`.
pub record Api (agent : Agent) : Type 0 where
  pub cached_permissions : agent.cache.Store
  pub world : agent.World

-- `GetPermissionParams`
pub record PermissionRequest : Type 0 where
  pub connected_did : Text
  pub delegate_did : Text
  pub message_type : Text
  pub protocol : Option Text
  pub delegate : Bool
  pub cached : Bool

abbrev pub or_empty : Option Text → Text
or_empty none = []
or_empty (some s) = s

unfoldable pub cache_key : PermissionRequest → Text
cache_key r =
    join b'~' (r.connected_did ∷ r.delegate_did ∷ r.message_type ∷ or_empty r.protocol ∷ [])

abbrev pub params_of : PermissionRequest → MessageParams
params_of r = record {
  message_type = r.message_type;
  protocol = r.protocol;
  protocol_path = none;
  context_id = none;
}

module _ (agent : Agent) where
  abbrev pub ApiExec : Type 0 → Type 0
  ApiExec A = Exec PermissionsError (Api agent) A

  unfoldable pub call :
      {A : Type 0} → (agent.World → Result PermissionsError A × agent.World) → ApiExec A
  call f s = let (r, w) = f s.world in (r, record s { world = w })

  -- Every message becomes an entry; one that does not parse throws.
  unfoldable pub parse_grants : List Text → Result PermissionsError (List GrantEntry)
  parse_grants [] = ok []
  parse_grants (m ∷ ms) = elim (agent.parse m) [
    | err e ↦ err e
    | ok grant ↦ elim (parse_grants ms) [
      | err e ↦ err e
      | ok entries ↦ ok (record { grant = grant; message = m } ∷ entries)
    ]
  ]

  unfoldable pub lift_result : {A : Type 0} → Result PermissionsError A → ApiExec A
  lift_result r s = (r, s)

  unfoldable pub fetch_grants : FetchParams → ApiExec (List GrantEntry)
  fetch_grants params = do
    (code, messages) ← call (agent.query_grants params)
    if not (code == 200) then throw (failed_to_fetch code) else lift_result (parse_grants messages)

  unfoldable pub is_grant_revoked : RevokedParams → ApiExec Bool
  is_grant_revoked params = do
    code ← call (agent.read_revocation params)
    if code == 404
        then pure false
        else if code == 200
        then pure true
        else throw (failed_to_check code)

  abbrev pub grants_of : PermissionRequest → FetchParams
  grants_of r = record {
    author = r.delegate_did;
    target = r.delegate_did;
    grantor = some r.connected_did;
    grantee = some r.delegate_did;
    protocol = none;
    remote = false;
  }

  -- A match is cached and returned.
  unfoldable pub remember : PermissionRequest → Option GrantEntry → ApiExec GrantEntry
  remember r none = throw (no_permissions r.message_type r.protocol)
  remember r (some entry) = do
    modify (λ s. record s {
      cached_permissions = agent.cache.set (cache_key r) entry s.cached_permissions;
    })
    pure entry

  unfoldable pub find_permission : PermissionRequest → ApiExec GrantEntry
  find_permission r = do
    entries ← fetch_grants (grants_of r)
    remember r
        (match_grant_from_array r.connected_did r.delegate_did (params_of r) entries r.delegate)

  -- `cached ? this._cachedPermissions.get(cacheKey) : undefined`
  unfoldable pub cached_grant : PermissionRequest → Api agent → Option GrantEntry
  cached_grant r s = if r.cached then agent.cache.get (cache_key r) s.cached_permissions else none

  unfoldable pub get_permission_for_request : PermissionRequest → ApiExec GrantEntry
  get_permission_for_request r = do
    found ← gets (cached_grant r)
    elim found [ some entry ↦ pure entry | none ↦ find_permission r ]

  unfoldable pub clear : ApiExec (Unit {0})
  clear = modify (λ s. record s { cached_permissions = agent.cache.clear s.cached_permissions })
