-- ===== src/Agent/Sync/Jobs.antt =====
-- The loops of `pull` and `push` over the queued jobs, of packages/agent/src/sync-engine-level.ts,
-- and the two passes.
use web5_js.Base.{
  Text, codes, Option, none, some, List, [], ◌∷◌, ◌++◌, Bool, true, false, ◌&&◌, ◌||◌, not, ◌===◌,
  ◌==◌, if◌then◌else◌, includes, Result, ok, err,
}
use web5_js.Base.Exec.{Exec, pure, gets, modify, attempt, for_each, ◌>>=◌, ◌>>◌}
use web5_js.Base.Level.{del_all}
use web5_js.Agent.Sync.Key.{SyncMessageParams, parse_sync_message_params_key}
use web5_js.Agent.Sync.Types.{
  SyncError, type_error, SyncDirection, push, pull, Reply, Entry, Message, read, Request, Host,
}
use web5_js.Agent.Sync.Engine.{Engine, message_exists, add_message, call}
use web5_js.Agent.Sync.Peers.{grant_for, messages_read, get_sync_peer_state, enqueue_operations}

-- `isRecordsWrite` of packages/agent/src/utils.ts, on an entry
unfoldable pub is_records_write : Entry → Bool
is_records_write e = elim e.message [
  | none ↦ false
  | some m ↦ (m.interface === codes "Records") && (m.method === codes "Write")
]

-- The data of an entry, if it is a RecordsWrite
unfoldable pub entry_data : Entry → Option Text
entry_data e = if is_records_write e then e.content else none

-- `message.descriptor` of an entry with no message throws.
abbrev is_records_delete : Option Message → Result SyncError Bool
is_records_delete none = err type_error
is_records_delete (some m) = ok ((m.interface === codes "Records") && (m.method === codes "Delete"))

unfoldable pub sync_message_reply_is_successful : Reply → Result SyncError Bool
sync_message_reply_is_successful reply =
    if (reply.code == 202) || ((reply.code == 204) || (reply.code == 409))
    then ok true
    else elim reply.entry [
      | none ↦ ok false
      | some e ↦ elim (is_records_delete e.message) [
        | ok deleted ↦ ok (deleted && (reply.code == 404))
        | err x ↦ err x
      ]
    ]

-- The state of a pass: that of the engine and the two local variables of the method.
pub record Pass (host : Host) : Type 0 where
  pub engine : Engine host
  pub errored : List Text
  pub delete_operations : List Text

module _ (host : Host) where
  abbrev pub PassExec : Type 0 → Type 0
  PassExec A = Exec SyncError (Pass host) A

  -- The engine's own methods within a pass.
  unfoldable pub on_engine : {A : Type 0} → Exec SyncError (Engine host) A → PassExec A
  on_engine m s = let (r, e) = m s.engine in (r, record s { engine = e })

  -- `errored.add(dwnUrl)`
  unfoldable pub add_errored : Text → Pass host → Pass host
  add_errored url s = record s { errored = url ∷ s.errored }

  unfoldable pub push_delete : Text → Pass host → Pass host
  push_delete key s = record s { delete_operations = s.delete_operations ++ (key ∷ []) }

  -- The message is recorded in the history of its DID and the job leaves the queue.
  unfoldable pub finish : Text → SyncMessageParams → Pass host → Pass host
  unfolding push_delete
  finish key p s =
      push_delete key record s { engine = add_message host p.did p.message_cid s.engine }

  read_request : SyncMessageParams → Option Text → Bool → Request
  read_request p grant store = record {
    did = p.did;
    grantee_did = elim grant [ none ↦ none | some _ ↦ p.delegate_did ];
    grant_id = grant;
    query = read p.message_cid;
    store = store;
  }

  -- A job is over if the reply says so.
  unfoldable pub finish_if : Bool → Text → SyncMessageParams → PassExec (Unit {0})
  finish_if success key p = if success then modify (finish key p) else pure tt

  unfoldable pub lift_result : {A : Type 0} → Result SyncError A → PassExec A
  lift_result r s = (r, s)

  -- The message of a reply is handed to the local DWN.
  unfoldable pub process_pulled : Text → SyncMessageParams → Message → Entry → PassExec (Unit {0})
  process_pulled key p message entry = do
    pulled ← on_engine (call host (host.process_message p.did message (entry_data entry)))
    success ← lift_result (sync_message_reply_is_successful pulled)
    finish_if success key p

  unfoldable pub store_entry : Text → SyncMessageParams → Option Entry → PassExec (Unit {0})
  store_entry key p none = modify (finish key p)
  store_entry key p (some entry) = elim entry.message [
    | none ↦ modify (finish key p)
    | some message ↦ process_pulled key p message entry
  ]

  -- What `pull` does with the reply of the remote DWN: one that is not a message ends the job.
  unfoldable pub store_pulled : Text → SyncMessageParams → Reply → PassExec (Unit {0})
  store_pulled key p reply =
      if not (reply.code == 200) then modify (finish key p) else store_entry key p reply.entry

  -- The part of a pull job that asks the endpoint.
  unfoldable pub fetch_job : Text → SyncMessageParams → Option Text → PassExec (Unit {0})
  unfolding read_request
  fetch_job key p grant = do
    (message, _) ← on_engine (call host (host.process_request (read_request p grant false)))
    sent ←
        attempt (on_engine (call host (host.send_dwn_request p.dwn_url p.did (some message) none)))
    elim sent [ err _ ↦ modify (add_errored p.dwn_url) | ok reply ↦ store_pulled key p reply ]

  unfoldable pub granted_pull_job : Text → SyncMessageParams → PassExec (Unit {0})
  granted_pull_job key p = do
    grant ← on_engine (grant_for host p.did p.delegate_did p.protocol messages_read)
    elim grant [ none ↦ pure tt | some id ↦ fetch_job key p id ]

  -- One round of the loop of `pull`.
  unfoldable pub pull_job : Text → PassExec (Unit {0})
  pull_job key = do
    let p = parse_sync_message_params_key key
    skipped ← gets (λ s. includes s.errored p.dwn_url)
    if skipped then pure tt else (do
      exists ← gets (λ s. message_exists host p.did p.message_cid s.engine)
      if exists then modify (push_delete key) else granted_pull_job key p)

  abbrev entry_message : Option Entry → Option (Option Message × Option Text)
  entry_message none = none
  entry_message (some entry) = some (entry.message, entry_data entry)

  -- `getDwnMessage`: the message of the local DWN with its data, or undefined.
  unfoldable pub get_dwn_message :
      SyncMessageParams → PassExec (Option (Option Message × Option Text))
  unfolding read_request
  get_dwn_message p = do
    grant ← on_engine (grant_for host p.did p.delegate_did p.protocol messages_read)
    elim grant [
      | none ↦ pure none
      | some id ↦ do
        (_, reply) ← on_engine (call host (host.process_request (read_request p id true)))
        if not (reply.code == 200) then pure none else pure (entry_message reply.entry)
    ]

  -- The `try` block of `push`.
  unfoldable pub send_job :
      Text → SyncMessageParams → Option Message × Option Text → PassExec (Unit {0})
  send_job key p (message, content) = do
    reply ← on_engine (call host (host.send_dwn_request p.dwn_url p.did message content))
    success ← lift_result (sync_message_reply_is_successful reply)
    finish_if success key p

  unfoldable pub found_push_job : Text → SyncMessageParams → PassExec (Unit {0})
  found_push_job key p = do
    found ← get_dwn_message p
    elim found [
      | none ↦ modify (finish key p)
      | some m ↦ do
        sent ← attempt (send_job key p m)
        elim sent [ ok _ ↦ pure tt | err _ ↦ modify (add_errored p.dwn_url) ]
    ]

  -- One round of the loop of `push`.
  unfoldable pub push_job : Text → PassExec (Unit {0})
  push_job key = do
    let p = parse_sync_message_params_key key
    skipped ← gets (λ s. includes s.errored p.dwn_url)
    if skipped then pure tt else found_push_job key p

  abbrev pub queue : SyncDirection → Engine host → host.texts.Store
  queue pull e = e.pull_queue
  queue push e = e.push_queue

  abbrev pub job : SyncDirection → Text → PassExec (Unit {0})
  job pull = pull_job
  job push = push_job

  abbrev pub keys : {V : Type 0} → List (Text × V) → List Text
  keys [] = []
  keys ((k, v) ∷ es) = k ∷ keys es

  abbrev pub begin_pass : Engine host → Pass host
  begin_pass e = record { engine = e; errored = []; delete_operations = [] }

  -- `batch(deleteOperations)`
  unfoldable pub delete_jobs : SyncDirection → List Text → Engine host → Engine host
  delete_jobs pull ks e = record e { pull_queue = del_all host.texts ks e.pull_queue }
  delete_jobs push ks e = record e { push_queue = del_all host.texts ks e.push_queue }

  abbrev pub end_pass :
      SyncDirection
      → Result SyncError (Unit {0}) × Pass host
      → Result SyncError (Unit {0}) × Engine host
  end_pass d (ok _, s) = (ok tt, delete_jobs d s.delete_operations s.engine)
  end_pass d (err x, s) = (err x, s.engine)

  -- The jobs that are queued, in the order of the iterator, and the batch that takes the finished
  -- ones off. A throw leaves the method before the batch.
  unfoldable pub run_jobs : SyncDirection → Exec SyncError (Engine host) (Unit {0})
  run_jobs d e =
      end_pass d (for_each (job d) (keys (host.texts.entries (queue d e))) (begin_pass e))

  -- `pull` and `push`
  unfoldable pub run_pass : SyncDirection → Exec SyncError (Engine host) (Unit {0})
  run_pass d = do peers ← get_sync_peer_state host d; enqueue_operations host d peers; run_jobs d
