-- ===== src/Agent/Permissions/Scopes.antt =====
-- What a permission grant allows, and that `matchScopeFromGrant` of
-- packages/agent/src/permissions-api.ts decides it.
use web5_js.Base.{
  Text, Option, none, some, ◌++◌, true, false, ◌&&◌, not, ◌===?◌, ===_iff, ===?_iff, if◌then◌else◌,
  starts_with_iff, ◌≡◌, refl, ap, inl, inr, arith, Bool-cases,
}
use web5_js.Agent.Permissions.{
  Scope, Grant, MessageParams, is_records_type, is_unrestricted_protocol_scope,
  matches_records_scope, matches_messages_scope, match_scope_from_grant, is_defined, context_covers,
}

-- What a scope allows, as a relation. A Records scope names a protocol and may be narrowed to a
-- protocol path or to the contexts that begin with an id; any other scope is for one protocol or
-- for all.
pub data Allows (s : Scope) (p : MessageParams) : Type 0 where
  records_all :
      is_records_type p.message_type ≡ true
      → s.protocol ≡ p.protocol
      → s.context_id ≡ none
      → s.protocol_path ≡ none
      → Allows s p
  records_path :
      {path : Text}
      → is_records_type p.message_type ≡ true
      → s.protocol ≡ p.protocol
      → s.protocol_path ≡ some path
      → p.protocol_path ≡ some path
      → Allows s p
  records_context :
      (prefix rest : Text)
      → is_records_type p.message_type ≡ true
      → s.protocol ≡ p.protocol
      → s.context_id ≡ some prefix
      → p.context_id ≡ some (prefix ++ rest)
      → Allows s p
  other_any : is_records_type p.message_type ≡ false → s.protocol ≡ none → Allows s p
  other_protocol :
      {protocol : Text}
      → is_records_type p.message_type ≡ false
      → s.protocol ≡ some protocol
      → p.protocol ≡ some protocol
      → s.context_id ≡ none
      → s.protocol_path ≡ none
      → Allows s p

-- A grant fits a request: the two parties, the message type, the scope.
pub record Fits (grantor grantee : Text) (p : MessageParams) (g : Grant) : Type 0 where
  pub from : g.grantor ≡ grantor
  pub to : g.grantee ≡ grantee
  pub kind : g.scope.interface ++ g.scope.method ≡ p.message_type
  pub allowed : Allows g.scope p

none_of_undefined : (o : Option Text) → is_defined o ≡ false → o ≡ none
none_of_undefined none h = refl
none_of_undefined (some s) h = cc

some_of_defined : (o : Option Text) → is_defined o ≡ true → (s : Text) × (o ≡ some s)
some_of_defined none h = cc
some_of_defined (some s) h = (s, refl)

context_covers_sound :
    (s c : Option Text)
    → context_covers s c ≡ true
    → (prefix : Text) × (rest : Text) × (s ≡ some prefix) × (c ≡ some (prefix ++ rest))
context_covers_sound none c h = cc
context_covers_sound (some prefix) none h = cc
context_covers_sound (some prefix) (some context) h =
    let (rest, e) = (starts_with_iff prefix context).0 h in (prefix, rest, refl, ap some e)

-- The tests of a Records scope, one after the other.
records_sound :
    (s : Scope) (p : MessageParams)
    → is_records_type p.message_type ≡ true
    → matches_records_scope s p ≡ true
    → Allows s p
unfolding matches_records_scope is_unrestricted_protocol_scope
records_sound s p r h =
    let same : s.protocol ≡ p.protocol = (===?_iff _ _).0 (ground arith) in
    elim (Bool-cases (not (is_defined s.context_id) && not (is_defined s.protocol_path))) [
      | inl open_scope ↦
          records_all r same (none_of_undefined _ (ground arith))
            (none_of_undefined _ (ground arith))
      | inr narrow ↦
          elim (Bool-cases (is_defined s.protocol_path && (s.protocol_path ===? p.protocol_path))) [
            | inl at_path ↦
                let (path, e) = some_of_defined s.protocol_path (ground arith) in
                let same_path : s.protocol_path ≡ p.protocol_path =
                  (===?_iff _ _).0 (ground arith) in
                records_path r same e (cc)
            | inr elsewhere ↦
                let (prefix, rest, e, e') =
                  context_covers_sound s.context_id p.context_id (ground arith) in
                records_context prefix rest r same e e'
          ]
    ]

messages_sound :
    (s : Scope) (p : MessageParams)
    → is_records_type p.message_type ≡ false
    → matches_messages_scope s p ≡ true
    → Allows s p
unfolding matches_messages_scope is_unrestricted_protocol_scope
messages_sound s p r h = elim (Bool-cases (is_defined s.protocol)) [
  | inr any ↦ other_any r (none_of_undefined _ any)
  | inl one ↦
      let (protocol, e) = some_of_defined s.protocol one in
      let same : s.protocol ≡ p.protocol = (===?_iff _ _).0 (ground arith) in
      other_protocol r e (cc) (none_of_undefined _ (ground arith))
        (none_of_undefined _ (ground arith))
]

pub match_scope_sound :
    (grantor grantee : Text) (g : Grant) (p : MessageParams)
    → match_scope_from_grant grantor grantee g p ≡ true
    → Fits grantor grantee p g
unfolding match_scope_from_grant
match_scope_sound grantor grantee g p h = record {
  from = (===_iff _ _).0 (ground arith);
  to = (===_iff _ _).0 (ground arith);
  kind = (===_iff _ _).0 (ground arith);
  allowed = elim (Bool-cases (is_records_type p.message_type)) [
    | inl r ↦ records_sound g.scope p r (ground arith)
    | inr r ↦ messages_sound g.scope p r (ground arith)
  ];
}

context_covers_complete :
    (s c : Option Text) (prefix rest : Text)
    → s ≡ some prefix
    → c ≡ some (prefix ++ rest)
    → context_covers s c ≡ true
context_covers_complete s c prefix rest e e' =
    rw (e, e') ((starts_with_iff prefix (prefix ++ rest)).1 (rest, refl))

scope_complete :
    (s : Scope) (p : MessageParams)
    → Allows s p
    → (if is_records_type p.message_type
        then matches_records_scope s p
        else matches_messages_scope s p)
      ≡ true
unfolding matches_records_scope matches_messages_scope is_unrestricted_protocol_scope
scope_complete s p (records_all r same c q) =
    rw (r, same, c, q, (===?_iff p.protocol p.protocol).1 refl) refl
scope_complete s p (records_path r same e e') =
    ground (arith, ===?_iff s.protocol p.protocol, ===?_iff s.protocol_path p.protocol_path)
scope_complete s p (records_context prefix rest r same e e') = ground (
  arith,
  ===?_iff s.protocol p.protocol,
  context_covers_complete s.context_id p.context_id prefix rest e e',
)
scope_complete s p (other_any r e) = ground arith
scope_complete s p (other_protocol r e e' c q) = ground (arith, ===?_iff s.protocol p.protocol)

pub match_scope_complete :
    (grantor grantee : Text) (g : Grant) (p : MessageParams)
    → Fits grantor grantee p g
    → match_scope_from_grant grantor grantee g p ≡ true
unfolding match_scope_from_grant
match_scope_complete grantor grantee g p v = ground (
  arith,
  ===_iff g.grantee grantee,
  ===_iff g.grantor grantor,
  ===_iff (g.scope.interface ++ g.scope.method) p.message_type,
  scope_complete g.scope p v.allowed,
)
