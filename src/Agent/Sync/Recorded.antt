-- ===== src/Agent/Sync/Recorded.antt =====
-- No queued message is dropped: a job leaves a queue only when its message is in the history.
use web5_js.Base.{
  Text, Option, none, some, [], ◌∷◌, Bool, true, false, ===_iff, arith, Result, ok, err, ◌≡◌, refl,
  sym, subst, ◌∙◌, All, All-append, All-map, Bool-cases, Option-cases, inl, inr, not, ◌==◌,
}
use web5_js.Base.Exec.{
  Exec, pure, modify, attempt, bind, continue, Keeps, Keeps-pure, Keeps-gets, Keeps-attempt,
  Keeps-if, Keeps-modify, Keeps-bind, Keeps-bind-gets,
}
use web5_js.Agent.Sync.Key.{SyncMessageParams, parse_sync_message_params_key}
use web5_js.Agent.Sync.Types.{SyncError, Reply, Entry, Message, Host}
use web5_js.Agent.Sync.Engine.{Engine, message_exists, has_text, add_message, call}
use web5_js.Agent.Sync.Peers.{grant_for}
use web5_js.Agent.Sync.Jobs.{
  Pass, on_engine, add_errored, push_delete, finish, finish_if, lift_result, store_pulled,
  store_entry, process_pulled, fetch_job, granted_pull_job, pull_job, get_dwn_message, send_job,
  found_push_job, push_job,
}

module _ (host : Host) where
  -- The message of a job's key is in the history of the job's DID.
  abbrev pub Recorded : Engine host → Text → Type 0
  Recorded e key =
      let p = parse_sync_message_params_key key in message_exists host p.did p.message_cid e ≡ true

module _ (host : Host) where
  pub message_exists-add_message :
      (did cid d c : Text) (e : Engine host)
      → message_exists host d c e ≡ true
      → message_exists host d c (add_message host did cid e) ≡ true
  unfolding message_exists add_message
  message_exists-add_message did cid d c e h =
      ground (arith, ===_iff did d, host.texts.get-put cid c [] (e.history d))

  pub message_exists-add_message_self :
      (did cid : Text) (e : Engine host)
      → message_exists host did cid (add_message host did cid e) ≡ true
  unfolding message_exists add_message
  message_exists-add_message_self did cid e =
      ground
        (arith, ===_iff did did, ===_iff cid cid, host.texts.get-put cid cid [] (e.history did))

  -- Every job that the pass takes off the queue is recorded, and so is all that `e₀` had recorded.
  pub record IsSound (e₀ : Engine host) (s : Pass host) : Type 0 where
    pub deleted : All (Recorded host s.engine) s.delete_operations
    pub kept :
        (d c : Text) → message_exists host d c e₀ ≡ true → message_exists host d c s.engine ≡ true
    -- A pass takes nothing off a queue before its last step.
    pub pulls : s.engine.pull_queue ≡ e₀.pull_queue
    pub pushes : s.engine.push_queue ≡ e₀.push_queue

module _ (host : Host) where
  -- Work of the engine that leaves the history and the queues alone.
  pub record KeepsStores {A : Type 0} (m : Exec SyncError (Engine host) A) : Type 0 where
    pub history : (e : Engine host) → (m e).1.history ≡ e.history
    pub pulls : (e : Engine host) → (m e).1.pull_queue ≡ e.pull_queue
    pub pushes : (e : Engine host) → (m e).1.push_queue ≡ e.push_queue

module _ (host : Host) where
  pub call-KeepsStores :
      {A : Type 0} (f : host.World → Result SyncError A × host.World)
      → KeepsStores host (call host f)
  unfolding call
  call-KeepsStores f = record { history = λ e. refl; pulls = λ e. refl; pushes = λ e. refl }

  pub grant_for-KeepsStores :
      (did : Text) (delegate_did protocol : Option Text) (kind : Text)
      → KeepsStores host (grant_for host did delegate_did protocol kind)
  unfolding grant_for call attempt bind continue pure
  grant_for-KeepsStores did none protocol kind = record {
    history = λ e. refl;
    pulls = λ e. refl;
    pushes = λ e. refl;
  }
  grant_for-KeepsStores did (some delegate) protocol kind = record {
    history = λ e. ground arith;
    pulls = λ e. ground arith;
    pushes = λ e. ground arith;
  }

module _ (host : Host) (e₀ : Engine host) where
  finish-IsSound :
      (key : Text) (s : Pass host)
      → IsSound host e₀ s
      → IsSound host e₀ (finish host key (parse_sync_message_params_key key) s)
  unfolding finish push_delete
  finish-IsSound key s v =
      let p = parse_sync_message_params_key key in
      let here = message_exists-add_message_self host p.did p.message_cid s.engine in
      record {
        deleted =
            All-append (Recorded host (add_message host p.did p.message_cid s.engine))
              s.delete_operations (key ∷ [])
              (All-map (Recorded host s.engine)
                (λ k. message_exists-add_message host p.did p.message_cid _ _ s.engine)
                s.delete_operations v.deleted)
              (here, tt);
        kept = λ d c h.
            message_exists-add_message host p.did p.message_cid d c s.engine (v.kept d c h);
        pulls = unfold add_message in v.pulls;
        pushes = unfold add_message in v.pushes;
      }

  push_delete-IsSound :
      (key : Text) (s : Pass host)
      → Recorded host s.engine key
      → IsSound host e₀ s
      → IsSound host e₀ (push_delete host key s)
  unfolding push_delete
  push_delete-IsSound key s r v = record {
    deleted = All-append (Recorded host s.engine) s.delete_operations (key ∷ []) v.deleted (r, tt);
    kept = v.kept;
    pulls = v.pulls;
    pushes = v.pushes;
  }

  Keeps-on_engine :
      {A : Type 0} (m : Exec SyncError (Engine host) A)
      → KeepsStores host m
      → Keeps (IsSound host e₀) (on_engine host m)
  unfolding on_engine message_exists
  Keeps-on_engine m k = record {
    holds = λ s v. record {
      deleted =
          subst
            (λ h.
              All
                (λ key.
                  let p = parse_sync_message_params_key key in
                  has_text host (host.texts.get p.message_cid (h p.did)) ≡ true)
                s.delete_operations)
            (sym (k.history s.engine)) v.deleted;
      kept = λ d c h. rw (k.history s.engine) (v.kept d c h);
      pulls = k.pulls s.engine ∙ v.pulls;
      pushes = k.pushes s.engine ∙ v.pushes;
    };
  }

  add_errored-Keeps :
      (url : Text) → Keeps {E = SyncError} (IsSound host e₀) (modify (add_errored host url))
  unfolding add_errored
  add_errored-Keeps url =
      Keeps-modify (add_errored host url)
        (λ s v. record { deleted = v.deleted; kept = v.kept; pulls = v.pulls; pushes = v.pushes })

  finish-Keeps :
      (key : Text)
      → Keeps {E = SyncError}
          (IsSound host e₀)
          (modify (finish host key (parse_sync_message_params_key key)))
  finish-Keeps key = Keeps-modify _ (finish-IsSound key)

  lift_result-Keeps :
      {A : Type 0} (r : Result SyncError A) → Keeps (IsSound host e₀) (lift_result host r)
  unfolding lift_result
  lift_result-Keeps r = record { holds = λ s v. v }

  finish_if-Keeps :
      (b : Bool) (key : Text)
      → Keeps (IsSound host e₀) (finish_if host b key (parse_sync_message_params_key key))
  unfolding finish_if
  finish_if-Keeps b key = Keeps-if b _ _ (finish-Keeps key) (Keeps-pure tt)

  process_pulled-Keeps :
      (key : Text) (message : Message) (entry : Entry)
      → Keeps
          (IsSound host e₀)
          (process_pulled host key (parse_sync_message_params_key key) message entry)
  unfolding process_pulled
  process_pulled-Keeps key message entry =
      Keeps-bind _ _ (Keeps-on_engine _ (call-KeepsStores host _))
        λ pulled. Keeps-bind _ _ (lift_result-Keeps _) λ success. finish_if-Keeps success key

  store_entry-Keeps :
      (key : Text) (entry : Option Entry)
      → Keeps (IsSound host e₀) (store_entry host key (parse_sync_message_params_key key) entry)
  unfolding store_entry
  store_entry-Keeps key none = finish-Keeps key
  store_entry-Keeps key (some entry) = elim (Option-cases entry.message) [
    | inl missing ↦ rw (missing, store_entry) (finish-Keeps key)
    | inr (message, found) ↦ rw (found, store_entry) (process_pulled-Keeps key message entry)
  ]

  store_pulled-Keeps :
      (key : Text) (reply : Reply)
      → Keeps (IsSound host e₀) (store_pulled host key (parse_sync_message_params_key key) reply)
  unfolding store_pulled
  store_pulled-Keeps key reply =
      Keeps-if (not (reply.code == 200)) _ _ (finish-Keeps key) (store_entry-Keeps key reply.entry)

  fetch_job-Keeps :
      (key : Text) (grant : Option Text)
      → Keeps (IsSound host e₀) (fetch_job host key (parse_sync_message_params_key key) grant)
  unfolding fetch_job
  fetch_job-Keeps key grant =
      Keeps-bind _ _ (Keeps-on_engine _ (call-KeepsStores host _)) λ (message, _).
        Keeps-bind _ _ (Keeps-attempt _ (Keeps-on_engine _ (call-KeepsStores host _)))
          (elim [ ok reply ↦ store_pulled-Keeps key reply | err _ ↦ add_errored-Keeps _ ])

  granted_pull_job-Keeps :
      (key : Text)
      → Keeps (IsSound host e₀) (granted_pull_job host key (parse_sync_message_params_key key))
  unfolding granted_pull_job
  granted_pull_job-Keeps key =
      Keeps-bind _ _ (Keeps-on_engine _ (grant_for-KeepsStores host _ _ _ _))
        (elim [ none ↦ Keeps-pure tt | some id ↦ fetch_job-Keeps key id ])

  pub pull_job-Keeps : (key : Text) → Keeps (IsSound host e₀) (pull_job host key)
  unfolding pull_job modify push_delete
  pull_job-Keeps key = Keeps-bind _ _ (Keeps-gets _) (elim [
    | true ↦ Keeps-pure tt
    | false ↦ Keeps-bind-gets _ _ (λ s v.
        elim (Bool-cases (
          message_exists host (parse_sync_message_params_key key).did
            (parse_sync_message_params_key key).message_cid s.engine)) [
              | inl here ↦ rw here (push_delete-IsSound key s here v)
              | inr away ↦ rw away ((granted_pull_job-Keeps key).holds s v)
            ])
  ])

  send_job-Keeps :
      (key : Text) (m : Option Message × Option Text)
      → Keeps (IsSound host e₀) (send_job host key (parse_sync_message_params_key key) m)
  unfolding send_job
  send_job-Keeps key (message, content) =
      Keeps-bind _ _ (Keeps-on_engine _ (call-KeepsStores host _))
        λ reply. Keeps-bind _ _ (lift_result-Keeps _) λ success. finish_if-Keeps success key

  get_dwn_message-Keeps : (p : SyncMessageParams) → Keeps (IsSound host e₀) (get_dwn_message host p)
  unfolding get_dwn_message
  get_dwn_message-Keeps p =
      Keeps-bind _ _ (Keeps-on_engine _ (grant_for-KeepsStores host _ _ _ _)) (elim [
        | none ↦ Keeps-pure none
        | some id ↦ Keeps-bind _ _ (Keeps-on_engine _ (call-KeepsStores host _)) λ (_, reply).
            Keeps-if (not (reply.code == 200)) (pure none) (pure _) (Keeps-pure none) (Keeps-pure _)
      ])

  pub push_job-Keeps : (key : Text) → Keeps (IsSound host e₀) (push_job host key)
  unfolding push_job found_push_job
  push_job-Keeps key = Keeps-bind _ _ (Keeps-gets _) (elim [
    | true ↦ Keeps-pure tt
    | false ↦ Keeps-bind _ _ (get_dwn_message-Keeps _) (elim [
      | none ↦ finish-Keeps key
      | some m ↦
          Keeps-bind _ _ (Keeps-attempt _ (send_job-Keeps key m))
            (elim [ ok _ ↦ Keeps-pure tt | err _ ↦ add_errored-Keeps _ ])
    ])
  ])
