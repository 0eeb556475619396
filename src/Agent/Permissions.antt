-- ===== src/Agent/Permissions.antt =====
-- `AgentPermissionsApi` of packages/agent/src/permissions-api.ts: the choice of a permission grant
-- and its cache.
pub mod Scopes
pub mod Matching
pub mod Cache
pub mod CacheLaws
use web5_js.Base.{
  Text, codes, Option, none, some, List, [], ◌∷◌, ◌++◌, Bool, true, false, ◌&&◌, ◌||◌, not, ◌===◌,
  ◌===?◌, if◌then◌else◌, starts_with, join, Result, ok, err, includes,
}
use web5_js.Base.Exec.{Exec, pure, throw, gets, modify, ◌>>=◌, ◌>>◌, bind, continue}

-- `DwnPermissionScope`, with the properties that the members of the union may have.
pub record Scope : Type 0 where
  pub interface : Text
  pub method : Text
  pub protocol : Option Text
  pub protocol_path : Option Text
  pub context_id : Option Text

-- `PermissionGrant`; `rest` is what the matching does not read.
pub record Grant : Type 0 where
  pub id : Text
  pub grantor : Text
  pub grantee : Text
  pub delegated : Option Bool
  pub scope : Scope

-- `PermissionGrantEntry`: a grant with the message that it was parsed from.
pub record GrantEntry : Type 0 where
  pub grant : Grant
  pub message : Text

pub record MessageParams : Type 0 where
  pub message_type : Text
  pub protocol : Option Text
  pub protocol_path : Option Text
  pub context_id : Option Text

-- `isRecordsType` of packages/agent/src/dwn-api.ts, on the values of `DwnInterface`
unfoldable pub is_records_type : Text → Bool
is_records_type t =
    includes
      (codes "RecordsDelete"
        ∷ codes "RecordsQuery"
        ∷ codes "RecordsRead"
        ∷ codes "RecordsSubscribe"
        ∷ codes "RecordsWrite"
        ∷ [])
      t

abbrev is_defined : Option Text → Bool
is_defined none = false
is_defined (some _) = true

unfoldable pub is_unrestricted_protocol_scope : Scope → Bool
is_unrestricted_protocol_scope scope =
    not (is_defined scope.context_id) && not (is_defined scope.protocol_path)

-- `contextId?.startsWith(scope.contextId)`, for a scope that has one
abbrev context_covers : Option Text → Option Text → Bool
context_covers none context = false
context_covers (some prefix) none = false
context_covers (some prefix) (some context) = starts_with prefix context

unfoldable pub matches_records_scope : Scope → MessageParams → Bool
unfolding is_unrestricted_protocol_scope
matches_records_scope scope p =
    if not (scope.protocol ===? p.protocol)
    then false
    else if is_unrestricted_protocol_scope scope
    then true
    else if is_defined scope.protocol_path && (scope.protocol_path ===? p.protocol_path)
    then true
    else context_covers scope.context_id p.context_id

unfoldable pub matches_messages_scope : Scope → MessageParams → Bool
unfolding is_unrestricted_protocol_scope
matches_messages_scope scope p =
    if not (is_defined scope.protocol)
    then true
    else if not (scope.protocol ===? p.protocol)
    then false
    else is_unrestricted_protocol_scope scope

unfoldable pub match_scope_from_grant : Text → Text → Grant → MessageParams → Bool
match_scope_from_grant grantor grantee grant p =
    if not (grant.grantee === grantee) || not (grant.grantor === grantor)
    then false
    else if (grant.scope.interface ++ grant.scope.method) === p.message_type
    then (if is_records_type p.message_type
        then matches_records_scope grant.scope p
        else matches_messages_scope grant.scope p)
    else false

-- `grant.delegated !== true`
abbrev is_true : Option Bool → Bool
is_true (some true) = true
is_true _ = false

unfoldable pub match_grant_from_array :
    Text → Text → MessageParams → List GrantEntry → Bool → Option GrantEntry
match_grant_from_array grantor grantee p [] delegated = none
match_grant_from_array grantor grantee p (entry ∷ grants) delegated =
    let rest = match_grant_from_array grantor grantee p grants delegated in
    if delegated && not (is_true entry.grant.delegated)
    then rest
    else if match_scope_from_grant grantor grantee entry.grant p
    then some entry
    else rest
