-- ===== src/Agent/Sync/Peers.antt =====
-- What a sync pass asks for and puts in its queue: `getSyncPeerState`, `getDwnEventLog` and
-- `enqueueOperations` of packages/agent/src/sync-engine-level.ts.
-- `Promise.allSettled` runs the peers' requests concurrently; here they run one after the other, and
-- one that throws does not stop the others.
use web5_js.Base.{
  Text, codes, Option, none, some, List, [], ◌∷◌, ◌++◌, true, false, if◌then◌else◌, truthy, ok, err,
}
use web5_js.Base.Exec.{Exec, pure, gets, modify, attempt, for_each, ◌>>=◌, ◌>>◌, bind}
use web5_js.Agent.Sync.Key.{generate_sync_message_params_key}
use web5_js.Agent.Sync.Types.{
  SyncError, SyncDirection, push, pull, SyncIdentityOptions, SyncState, Reply, query, Request, Host,
}
use web5_js.Agent.Sync.Engine.{Engine, get_cursor, set_cursor, call}

abbrev pub messages_query : Text
messages_query = codes "MessagesQuery"

abbrev pub messages_read : Text
messages_read = codes "MessagesRead"

module _ (host : Host) where
  abbrev pub Sync : Type 0 → Type 0
  Sync A = Exec SyncError (Engine host) A

  -- `{ did, delegateDid, dwnUrl, cursor, protocol }` of one endpoint, with the cursor that was stored
  unfoldable pub peer :
      Text → Option Text → SyncDirection → Text → Option Text → Engine host → SyncState
  peer did delegate_did direction dwn_url protocol e = record {
    did = did;
    delegate_did = delegate_did;
    dwn_url = dwn_url;
    cursor = get_cursor host did dwn_url direction protocol e;
    protocol = protocol;
  }

  unfoldable pub protocol_peers :
      Text → Option Text → SyncDirection → Text → List Text → Engine host → List SyncState
  protocol_peers did delegate_did direction dwn_url [] e = []
  protocol_peers did delegate_did direction dwn_url (p ∷ ps) e =
      peer did delegate_did direction dwn_url (some p) e
      ∷ protocol_peers did delegate_did direction dwn_url ps e

  -- All protocols, if none is listed.
  unfoldable pub url_peers :
      Text → SyncIdentityOptions → SyncDirection → Text → Engine host → List SyncState
  url_peers did options direction dwn_url e = elim options.protocols [
    | [] ↦ peer did options.delegate_did direction dwn_url none e ∷ []
    | p ∷ ps ↦ protocol_peers did options.delegate_did direction dwn_url (p ∷ ps) e
  ]

  unfoldable pub identity_peers :
      Text → SyncIdentityOptions → SyncDirection → List Text → Engine host → List SyncState
  identity_peers did options direction [] e = []
  identity_peers did options direction (url ∷ urls) e =
      url_peers did options direction url e ++ identity_peers did options direction urls e

  -- The loop of `getSyncPeerState`. An identity with no endpoint adds nothing; a lookup of the
  -- endpoints that throws ends the loop.
  unfoldable pub peers_of :
      SyncDirection → List (Text × SyncIdentityOptions) → Sync (List SyncState)
  peers_of direction [] = pure []
  peers_of direction ((did, options) ∷ rest) = do
    urls ← call host (host.endpoint_urls did)
    mine ← gets (identity_peers did options direction urls)
    others ← peers_of direction rest
    pure (mine ++ others)

  unfoldable pub get_sync_peer_state : SyncDirection → Sync (List SyncState)
  get_sync_peer_state direction = do
    registered ← gets (λ e. host.identities.entries e.registered_identities)
    peers_of direction registered

  -- The grant that a delegate needs; `none` if looking for it threw.
  unfoldable pub grant_for : Text → Option Text → Option Text → Text → Sync (Option (Option Text))
  grant_for did delegate_did protocol message_type = elim delegate_did [
    | none ↦ pure (some none)
    | some delegate ↦
        if truthy delegate
        then (do
          found ← attempt (call host (host.find_grant did message_type delegate protocol))
          elim found [ ok grant ↦ pure (some (some grant)) | err _ ↦ pure none ])
        else pure (some none)
  ]

  abbrev entries_of : Reply → List Text
  entries_of reply = elim reply.entries [ none ↦ [] | some es ↦ es ]

  -- `if (messagesReply.cursor) this.setCursor(…)`, whose promise is not awaited
  unfoldable pub store_cursor : SyncState → SyncDirection → Reply → Sync (Unit {0})
  store_cursor s direction reply = elim reply.cursor [
    | none ↦ pure tt
    | some cursor ↦ modify (set_cursor host s.did s.dwn_url direction cursor s.protocol)
  ]

  -- `protocol ? [{ protocol }] : []`
  abbrev protocol_filter : Option Text → Option Text
  protocol_filter none = none
  protocol_filter (some p) = if truthy p then some p else none

  abbrev query_request : SyncState → SyncDirection → Option Text → Request
  query_request s direction grant = record {
    did = s.did;
    grantee_did = s.delegate_did;
    grant_id = grant;
    query = query (protocol_filter s.protocol) s.cursor;
    store = elim direction [ pull ↦ false | push ↦ true ];
  }

  abbrev empty_reply : Reply
  empty_reply = record { code = 0; entry = none; entries = none; cursor = none }

  -- The reply of the remote DWN for a pull, where an endpoint that cannot be reached gives an empty
  -- reply, and of the local DWN for a push.
  unfoldable pub event_reply : SyncState → SyncDirection → Option Text → Sync Reply
  event_reply s pull grant = do
    (message, _) ← call host (host.process_request (query_request s pull grant))
    sent ← attempt (call host (host.send_dwn_request s.dwn_url s.did (some message) none))
    elim sent [ ok reply ↦ pure reply | err _ ↦ pure empty_reply ]
  event_reply s push grant = do
    (_, reply) ← call host (host.process_request (query_request s push grant))
    pure reply

  unfoldable pub get_dwn_event_log : SyncState → SyncDirection → Sync (List Text)
  get_dwn_event_log s direction = do
    grant ← grant_for s.did s.delegate_did s.protocol messages_query
    elim grant [
      | none ↦ pure []
      | some id ↦ do
        reply ← event_reply s direction id
        store_cursor s direction reply
        pure (entries_of reply)
    ]

  -- `{ type: 'put', key, value: '' }` in the queue of the direction. The puts of one peer are a batch in the source;
  -- nothing between them can throw.
  unfoldable pub put_job : SyncDirection → Text → Engine host → Engine host
  put_job pull key e = record e { pull_queue = host.texts.put key [] e.pull_queue }
  put_job push key e = record e { push_queue = host.texts.put key [] e.push_queue }

  unfoldable pub enqueue_message : SyncState → SyncDirection → Text → Sync (Unit {0})
  enqueue_message s direction cid = do
    watermark ← call host (λ w. let (u, w') = host.ulid w in (ok u, w'))
    modify (
        put_job direction (
          generate_sync_message_params_key record {
            did = s.did;
            delegate_did = s.delegate_did;
            dwn_url = s.dwn_url;
            protocol = s.protocol;
            watermark = watermark;
            message_cid = cid;
            cursor = s.cursor;
          }))

  unfoldable pub enqueue_peer : SyncDirection → SyncState → Sync (Unit {0})
  enqueue_peer direction s = do
    log ← get_dwn_event_log s direction
    for_each (enqueue_message s direction) log

  -- A peer whose work throws is logged and left.
  unfoldable pub enqueue_operations : SyncDirection → List SyncState → Sync (Unit {0})
  enqueue_operations direction =
      for_each (λ s. bind (attempt (enqueue_peer direction s)) (λ _. pure tt))
