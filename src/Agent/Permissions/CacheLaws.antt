-- ===== src/Agent/Permissions/CacheLaws.antt =====
-- What `getPermissionForRequest` of packages/agent/src/permissions-api.ts answers with, from the
-- cache or not.
use web5_js.Base.{
  Text, Option, none, some, List, [], Bool, true, ◌==◌, not, ◌===◌, ===_iff, join, Result, ok, ◌≡◌,
  ◌≢◌, refl, sym, ap, ◌∙◌, subst, arith, Lacks, cut-injective, Bool-cases, Option-cases, inl, inr,
}
use web5_js.Base.Exec.{
  pure, throw, gets, modify, bind, continue, Keeps, Keeps-pure, Keeps-throw, Keeps-bind, Keeps-gets,
  Keeps-if, Keeps-modify, bind-eq-ok,
}
use web5_js.Agent.Permissions.{Grant, GrantEntry, MessageParams}
use web5_js.Agent.Permissions.Scopes.{Fits}
use web5_js.Agent.Permissions.Matching.{Usable, First, here, later, match_grant-First, some_eq}
use web5_js.Agent.Permissions.Cache.{
  PermissionsError, PermissionRequest, FetchParams, Agent, Api, cache_key, or_empty, params_of,
  call, lift_result, fetch_grants, remember, find_permission, cached_grant,
  get_permission_for_request, grants_of,
}

-- A request that the key of the cache tells apart from all others: no DID and no message type has a
-- `~`, and a protocol that is given is not empty.
pub record IsKeyed (r : PermissionRequest) : Type 0 where
  pub connected : Lacks b'~' r.connected_did
  pub delegate : Lacks b'~' r.delegate_did
  pub kind : Lacks b'~' r.message_type
  pub protocol : r.protocol ≢ some []

-- A grant covers a request: it is from the connected DID to the delegate DID, for the message type, with a
-- scope that allows the protocol. Whether a delegated one is asked for plays no part.
abbrev pub Covers : PermissionRequest → Grant → Type 0
Covers r g = Fits r.connected_did r.delegate_did (params_of r) g

or_empty-injective :
    (o o' : Option Text) → o ≢ some [] → o' ≢ some [] → or_empty o ≡ or_empty o' → o ≡ o'
or_empty-injective none none h k e = refl
or_empty-injective none (some s) h k e = absurd (k (ap some (sym e)))
or_empty-injective (some s) none h k e = absurd (h (ap some e))
or_empty-injective (some s) (some t) h k e = ap some e

-- Two requests with one key differ at most in `cached` and `delegate`.
pub cache_key-injective :
    (r q : PermissionRequest)
    → IsKeyed r
    → IsKeyed q
    → cache_key r ≡ cache_key q
    → (r.connected_did ≡ q.connected_did)
      × (r.delegate_did ≡ q.delegate_did)
      × (r.message_type ≡ q.message_type)
      × (r.protocol ≡ q.protocol)
unfolding cache_key join
cache_key-injective r q v w e =
    let (a, e₁) =
      cut-injective b'~' r.connected_did q.connected_did _ _ v.connected w.connected e in
    let (b, e₂) = cut-injective b'~' r.delegate_did q.delegate_did _ _ v.delegate w.delegate e₁ in
    let (c, e₃) = cut-injective b'~' r.message_type q.message_type _ _ v.kind w.kind e₂ in
    (a, b, c, or_empty-injective r.protocol q.protocol v.protocol w.protocol e₃)

Covers-same :
    (r q : PermissionRequest) (g : Grant)
    → r.connected_did ≡ q.connected_did
    → r.delegate_did ≡ q.delegate_did
    → r.message_type ≡ q.message_type
    → r.protocol ≡ q.protocol
    → Covers r g
    → Covers q g
Covers-same r q g a b c d f =
    subst (λ x. Fits x q.delegate_did (params q.message_type q.protocol) g) a
      (subst (λ x. Fits r.connected_did x (params q.message_type q.protocol) g) b
        (subst (λ x. Fits r.connected_did r.delegate_did (params x q.protocol) g) c
          (subst (λ x. Fits r.connected_did r.delegate_did (params r.message_type x) g) d f)))
  where
    params : Text → Option Text → MessageParams
    params kind protocol = record {
      message_type = kind;
      protocol = protocol;
      protocol_path = none;
      context_id = none;
    }

module _ (agent : Agent) where
  -- A grant in the cache covers every request that has its key.
  pub record IsValid (s : Api agent) : Type 0 where
    pub covered :
        (r : PermissionRequest) (e : GrantEntry)
        → IsKeyed r
        → agent.cache.get (cache_key r) s.cached_permissions ≡ some e
        → Covers r e.grant

First-Usable :
    {grantor grantee : Text} {p : MessageParams} {delegated : Bool} {e : GrantEntry}
    {es : List GrantEntry}
    → First grantor grantee p delegated e es
    → Usable grantor grantee p delegated e
First-Usable (here u) = u
First-Usable (later _ f) = First-Usable f

First-Fits :
    {grantor grantee : Text} {p : MessageParams} {delegated : Bool} {e : GrantEntry}
    {es : List GrantEntry}
    → First grantor grantee p delegated e es
    → Fits grantor grantee p e.grant
First-Fits f = (First-Usable f).fits

ok_eq : {x y : GrantEntry} → ◌≡◌ {A = Result PermissionsError GrantEntry} (ok x) (ok y) → x ≡ y
ok_eq h = cc

module _ (agent : Agent) where
  call-IsValid :
      {A : Type 0} (f : agent.World → Result PermissionsError A × agent.World)
      → Keeps (IsValid agent) (call agent f)
  unfolding call
  call-IsValid f = record { holds = λ s v. record { covered = v.covered } }

  set-covered :
      (r : PermissionRequest) (e : GrantEntry) (s : Api agent)
      → IsKeyed r
      → Covers r e.grant
      → IsValid agent s
      → (q : PermissionRequest) (d : GrantEntry) → IsKeyed q
      → agent.cache.get (cache_key q) (agent.cache.set (cache_key r) e s.cached_permissions)
        ≡ some d
      → Covers q d.grant
  set-covered r e s k a v q d l h =
      let found = agent.cache.get-set (cache_key r) (cache_key q) e d s.cached_permissions h in
      elim (Bool-cases (cache_key r === cache_key q)) [
        | inl same ↦
            let one : e ≡ d = some_eq (rw same at found) in
            let (c₁, c₂, c₃, c₄) = cache_key-injective r q k l ((===_iff _ _).0 same) in
            subst (λ (x : GrantEntry). Covers q x.grant) one (Covers-same r q e.grant c₁ c₂ c₃ c₄ a)
        | inr other ↦ v.covered q d l (rw other at found)
      ]

  remember-IsValid :
      (r : PermissionRequest) (o : Option GrantEntry)
      → IsKeyed r
      → ((e : GrantEntry) → o ≡ some e → Covers r e.grant)
      → Keeps (IsValid agent) (remember agent r o)
  unfolding remember
  remember-IsValid r none k a = Keeps-throw _
  remember-IsValid r (some e) k a =
      Keeps-bind _ _ (Keeps-modify _ λ s v. record { covered = set-covered r e s k (a e refl) v })
        λ _. Keeps-pure e

  fetch_grants-IsValid : (params : FetchParams) → Keeps (IsValid agent) (fetch_grants agent params)
  unfolding fetch_grants lift_result
  fetch_grants-IsValid params = Keeps-bind _ _ (call-IsValid _) λ (code, messages).
      Keeps-if (not (code == 200)) _ _ (Keeps-throw _) record { holds = λ s v. v }

  -- The grants of the cache go on covering the requests of their keys, whatever is asked for.
  pub get_permission-IsValid :
      (r : PermissionRequest)
      → IsKeyed r
      → Keeps (IsValid agent) (get_permission_for_request agent r)
  unfolding get_permission_for_request find_permission
  get_permission-IsValid r k = Keeps-bind _ _ (Keeps-gets _) (elim [
    | some entry ↦ Keeps-pure entry
    | none ↦ Keeps-bind _ _ (fetch_grants-IsValid _) λ entries. remember-IsValid r _ k λ e h.
        First-Fits
          (match_grant-First r.connected_did r.delegate_did (params_of r) r.delegate entries e h)
  ])

  remember-ok :
      (r : PermissionRequest) (o : Option GrantEntry) (s : Api agent) (e : GrantEntry)
      → (remember agent r o s).0 ≡ ok e
      → o ≡ some e
  unfolding remember bind continue modify pure throw
  remember-ok r none s e h = cc
  remember-ok r (some d) s e h = cc

  find_permission-Usable :
      (r : PermissionRequest) (s : Api agent) (e : GrantEntry)
      → (find_permission agent r s).0 ≡ ok e
      → Usable r.connected_did r.delegate_did (params_of r) r.delegate e
  unfolding find_permission
  find_permission-Usable r s e h =
      let (entries, _, k) = bind-eq-ok (fetch_grants agent (grants_of agent r)) _ s h in
      First-Usable (
        match_grant-First r.connected_did r.delegate_did (params_of r) r.delegate entries e
          (remember-ok r _ _ e k))

  get_permission_found :
      (r : PermissionRequest) (s : Api agent) (e : GrantEntry)
      → cached_grant agent r s ≡ some e
      → get_permission_for_request agent r s ≡ (ok e, s)
  unfolding get_permission_for_request bind gets continue pure
  get_permission_found r s e h = rw h refl

  get_permission_missed :
      (r : PermissionRequest) (s : Api agent)
      → cached_grant agent r s ≡ none
      → get_permission_for_request agent r s ≡ find_permission agent r s
  unfolding get_permission_for_request bind gets continue
  get_permission_missed r s h = rw h refl

  cached_grant-Covers :
      (r : PermissionRequest) (s : Api agent) (e : GrantEntry)
      → IsKeyed r
      → IsValid agent s
      → cached_grant agent r s ≡ some e
      → Covers r e.grant
  unfolding cached_grant
  cached_grant-Covers r s e k v h = v.covered r e k (ground arith)

  get_permission_returned :
      (r : PermissionRequest) (s : Api agent) (e : GrantEntry)
      → IsKeyed r
      → IsValid agent s
      → (get_permission_for_request agent r s).0 ≡ ok e
      → Covers r e.grant
  get_permission_returned r s e k v h = elim (Option-cases (cached_grant agent r s)) [
    | inl missed ↦ (find_permission-Usable r s e (rw (get_permission_missed r s missed) at h)).fits
    | inr (d, found) ↦
        let one : d ≡ e = ok_eq (rw (get_permission_found r s d found) at h) in
        cached_grant-Covers r s e k v (found ∙ ap some one)
  ]

-- The grant that `getPermissionForRequest` returns, from the cache or from the DWN, covers the request: it
-- is from the connected DID to the delegate DID, for the message type, with a scope that allows the
-- protocol; one that is not from the cache is also delegated if that is asked for. This is so if the DIDs
-- and the message type have no `~`, the protocol is not the empty string, and every grant in the cache
-- covers all such requests that have its key.
pub get_permission-Covers :
    (agent : Agent) (r : PermissionRequest) (s : Api agent) (e : GrantEntry)
    → IsKeyed r
    → IsValid agent s
    → (get_permission_for_request agent r s).0 ≡ ok e
    → Covers r e.grant
      × (cached_grant agent r s ≡ none
          → Usable r.connected_did r.delegate_did (params_of r) r.delegate e)
get_permission-Covers agent r s e k v h = (
  get_permission_returned agent r s e k v h,
  λ missed. find_permission-Usable agent r s e (rw (get_permission_missed agent r s missed) at h),
)

-- If every grant in the cache covers all requests that have its key, this is so after any call for a request
-- whose DIDs and message type have no `~` and whose protocol is not the empty string, also after one that
-- throws. Only requests of this kind are counted.
pub get_permission-keeps :
    (agent : Agent) (r : PermissionRequest) (s : Api agent)
    → IsKeyed r
    → IsValid agent s
    → IsValid agent (get_permission_for_request agent r s).1
get_permission-keeps agent r s k v = (get_permission-IsValid agent r k).holds s v

-- The key of the cache leaves out whether a delegated grant is asked for. When a request has been
-- answered with a grant that is not delegated, and the cache still holds it, the same request for a
-- delegated grant is answered from the cache with this grant, which `matchGrantFromArray` would pass
-- over.
pub get_permission_undelegated :
    (agent : Agent) (r : PermissionRequest) (s s' : Api agent) (e : GrantEntry)
    → get_permission_for_request agent r s ≡ (ok e, s')
    → agent.cache.get (cache_key r) s'.cached_permissions ≡ some e
    → e.grant.delegated ≢ some true
    → (get_permission_for_request agent (record r { delegate = true; cached = true }) s'
        ≡ (ok e, s'))
      × ¬ Usable r.connected_did r.delegate_did (params_of r) true e
unfolding cached_grant cache_key
get_permission_undelegated agent r s s' e first held plain =
    (get_permission_found agent _ s' e held, λ u. plain (u.is_delegated refl))
