-- ===== src/Agent/Sync/NoLoss.antt =====
-- No queued message is lost: the whole of `sync` of packages/agent/src/sync-engine-level.ts.
use web5_js.Base.{
  Text, Option, none, some, List, [], ◌∷◌, Bool, true, false, arith, Result, ok, err, ◌≡◌, refl,
  inl, inr,
}
use web5_js.Base.Exec.{
  pure, modify, Keeps, Keeps-pure, Keeps-gets, Keeps-attempt, Keeps-modify, Keeps-bind,
  Keeps-for_each,
}
use web5_js.Agent.Sync.Types.{
  SyncError, SyncDirection, push, pull, SyncIdentityOptions, SyncState, Reply, Host,
}
use web5_js.Agent.Sync.Engine.{Engine, message_exists, call, set_cursor}
use web5_js.Agent.Sync.Peers.{
  peers_of, get_sync_peer_state, store_cursor, event_reply, get_dwn_event_log, put_job,
  enqueue_message, enqueue_peer, enqueue_operations,
}
use web5_js.Agent.Sync.Jobs.{run_pass}
use web5_js.Agent.Sync.Lock.{run_passes, sync_if, sync}
use web5_js.Agent.Sync.Accounted.{
  Queued, IsAccounted, KeepsStores-IsAccounted, run_jobs-IsAccounted, IsAccounted-kept, queue-kept,
}
use web5_js.Agent.Sync.Recorded.{KeepsStores, call-KeepsStores, grant_for-KeepsStores}

module _ (host : Host) where
  put_job-Queued :
      (d d' : SyncDirection) (k key : Text) (e : Engine host)
      → Queued host d key e
      → Queued host d key (put_job host d' k e)
  unfolding put_job
  put_job-Queued pull pull k key e h = ground (arith, host.texts.get-put k key [] e.pull_queue)
  put_job-Queued pull push k key e h = h
  put_job-Queued push pull k key e h = h
  put_job-Queued push push k key e h = ground (arith, host.texts.get-put k key [] e.push_queue)

  history-put_job :
      (d : SyncDirection) (k : Text) (e : Engine host) → (put_job host d k e).history ≡ e.history
  unfolding put_job
  history-put_job pull k e = refl
  history-put_job push k e = refl

  store_cursor-KeepsStores :
      (s : SyncState) (d' : SyncDirection) (reply : Reply)
      → KeepsStores host (store_cursor host s d' reply)
  unfolding store_cursor pure modify set_cursor
  store_cursor-KeepsStores s d' reply = record {
    history = λ e. ground arith;
    pulls = λ e. ground arith;
    pushes = λ e. ground arith;
  }

module _ (host : Host) (d : SyncDirection) (key : Text) where
  put_job-IsAccounted :
      (d' : SyncDirection) (k : Text) (e : Engine host)
      → IsAccounted host d key e
      → IsAccounted host d key (put_job host d' k e)
  unfolding message_exists
  put_job-IsAccounted d' k e a = record {
    place = elim a.place [
      | inl q ↦ inl (put_job-Queued host d d' k key e q)
      | inr h ↦ inr (rw (history-put_job host d' k e) h)
    ];
  }

  call-Keeps :
      {A : Type 0} (f : host.World → Result SyncError A × host.World)
      → Keeps (IsAccounted host d key) (call host f)
  call-Keeps f = KeepsStores-IsAccounted host d key _ (call-KeepsStores host f)

  event_reply-Keeps :
      (s : SyncState) (d' : SyncDirection) (grant : Option Text)
      → Keeps (IsAccounted host d key) (event_reply host s d' grant)
  unfolding event_reply
  event_reply-Keeps s pull grant = Keeps-bind _ _ (call-Keeps _) λ _.
      Keeps-bind _ _ (Keeps-attempt _ (call-Keeps _))
        (elim [ ok reply ↦ Keeps-pure reply | err _ ↦ Keeps-pure _ ])
  event_reply-Keeps s push grant = Keeps-bind _ _ (call-Keeps _) λ (_, reply). Keeps-pure reply

  get_dwn_event_log-Keeps :
      (s : SyncState) (d' : SyncDirection)
      → Keeps (IsAccounted host d key) (get_dwn_event_log host s d')
  unfolding get_dwn_event_log
  get_dwn_event_log-Keeps s d' =
      Keeps-bind _ _ (KeepsStores-IsAccounted host d key _ (grant_for-KeepsStores host _ _ _ _))
        (elim [
          | none ↦ Keeps-pure []
          | some id ↦ Keeps-bind _ _ (event_reply-Keeps s d' id) λ reply.
              Keeps-bind _ _
                (KeepsStores-IsAccounted host d key _ (store_cursor-KeepsStores host s d' reply))
                λ _. Keeps-pure _
        ])

  enqueue_message-Keeps :
      (s : SyncState) (d' : SyncDirection) (cid : Text)
      → Keeps (IsAccounted host d key) (enqueue_message host s d' cid)
  unfolding enqueue_message
  enqueue_message-Keeps s d' cid =
      Keeps-bind _ _ (call-Keeps _) λ _. Keeps-modify _ (put_job-IsAccounted d' _)

  enqueue_operations-Keeps :
      (d' : SyncDirection) (peers : List SyncState)
      → Keeps (IsAccounted host d key) (enqueue_operations host d' peers)
  unfolding enqueue_operations enqueue_peer
  enqueue_operations-Keeps d' peers = Keeps-for_each _ peers λ s.
      Keeps-bind _ _
        (Keeps-attempt _ (
          Keeps-bind _ _ (get_dwn_event_log-Keeps s d')
            λ log. Keeps-for_each _ log (enqueue_message-Keeps s d')))
        λ _. Keeps-pure tt

  peers_of-Keeps :
      (d' : SyncDirection) (registered : List (Text × SyncIdentityOptions))
      → Keeps (IsAccounted host d key) (peers_of host d' registered)
  unfolding peers_of
  peers_of-Keeps d' [] = Keeps-pure []
  peers_of-Keeps d' ((did, options) ∷ rest) = Keeps-bind _ _ (call-Keeps _) λ urls.
      Keeps-bind _ _ (Keeps-gets _)
        λ mine. Keeps-bind _ _ (peers_of-Keeps d' rest) λ others. Keeps-pure _

  run_pass-Keeps : (d' : SyncDirection) → Keeps (IsAccounted host d key) (run_pass host d')
  unfolding run_pass get_sync_peer_state
  run_pass-Keeps d' = Keeps-bind _ _ (Keeps-bind _ _ (Keeps-gets _) (peers_of-Keeps d')) λ peers.
      Keeps-bind _ _ (enqueue_operations-Keeps d' peers) λ _. run_jobs-IsAccounted host d key d'

  run_passes-Keeps :
      (direction : Option SyncDirection)
      → Keeps (IsAccounted host d key) (run_passes host direction)
  unfolding run_passes
  run_passes-Keeps none = Keeps-bind _ _ (run_pass-Keeps push) λ _. run_pass-Keeps pull
  run_passes-Keeps (some d') = run_pass-Keeps d'

  sync_if-IsAccounted :
      (held : Bool) (direction : Option SyncDirection) (e : Engine host)
      → IsAccounted host d key e
      → IsAccounted host d key (sync_if host held direction e).1
  unfolding sync_if
  sync_if-IsAccounted true direction e a = a
  sync_if-IsAccounted false direction e a =
      let start : Engine host = record e { sync_lock = true } in
      let end = (run_passes host direction start).1 in
      IsAccounted-kept host d key end _ refl (queue-kept host d end _ refl refl) (
        (run_passes-Keeps direction).holds start
          (IsAccounted-kept host d key e start refl (queue-kept host d e start refl refl) a))

-- A job that is queued for pull or push is, after any call of `sync`, still in its queue, or its
-- message is in the history of its DID. This holds whatever the remote and the local DWN, the
-- resolver and the permissions answer, and also if the call throws.
pub sync-IsAccounted :
    (host : Host) (d : SyncDirection) (key : Text) (direction : Option SyncDirection)
    (e : Engine host)
    → IsAccounted host d key e
    → IsAccounted host d key (sync host direction e).1
unfolding sync
sync-IsAccounted host d key direction e a = sync_if-IsAccounted host d key e.sync_lock direction e a
