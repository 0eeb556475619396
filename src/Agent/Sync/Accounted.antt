-- ===== src/Agent/Sync/Accounted.antt =====
-- No queued message is lost, over whole passes and whatever is thrown in them.
use web5_js.Base.{
  Text, List, [], ◌∷◌, true, ◌===◌, ===_iff, includes, Result, ok, err, ◌≡◌, ◌≢◌, refl, subst, All,
  Bool-cases, ◌⊎◌, inl, inr,
}
use web5_js.Base.Exec.{Exec, for_each, Keeps, Keeps-for_each}
use web5_js.Base.Level.{del_all, get-del_all}
use web5_js.Agent.Sync.Types.{SyncError, SyncDirection, push, pull, Host}
use web5_js.Agent.Sync.Engine.{Engine, message_exists, has_text}
use web5_js.Agent.Sync.Jobs.{Pass, begin_pass, end_pass, queue, job, keys, delete_jobs, run_jobs}
use web5_js.Agent.Sync.Recorded.{Recorded, IsSound, KeepsStores, pull_job-Keeps, push_job-Keeps}

module _ (host : Host) where
  -- The key is in the queue of the direction.
  abbrev pub Queued : SyncDirection → Text → Engine host → Type 0
  Queued d key e = has_text host (host.texts.get key (queue host d e)) ≡ true

  -- The key is queued, or its message is in the history.
  pub record IsAccounted (d : SyncDirection) (key : Text) (e : Engine host) : Type 0 where
    pub place : Queued d key e ⊎ Recorded host e key

SyncDirection-discrete : Discrete SyncDirection
SyncDirection-discrete = hlevel

All-includes :
    (P : Text → Type 0) (ks : List Text) (k : Text) → All P ks → includes ks k ≡ true → P k
unfolding includes
All-includes P [] k h e = cc
All-includes P (j ∷ ks) k (p, h) e = elim (Bool-cases (j === k)) [
  | inl same ↦ subst P ((===_iff j k).0 same) p
  | inr other ↦ All-includes P ks k h (rw other at e)
]

module _ (host : Host) where
  job-Keeps :
      (d : SyncDirection) (e : Engine host) (key : Text) → Keeps (IsSound host e) (job host d key)
  job-Keeps pull e key = pull_job-Keeps host e key
  job-Keeps push e key = push_job-Keeps host e key

  pub queue-kept :
      (d : SyncDirection) (e e' : Engine host)
      → e'.pull_queue ≡ e.pull_queue
      → e'.push_queue ≡ e.push_queue
      → queue host d e' ≡ queue host d e
  queue-kept pull e e' p q = p
  queue-kept push e e' p q = q

  queue-delete_jobs :
      (d : SyncDirection) (ks : List Text) (e : Engine host)
      → queue host d (delete_jobs host d ks e) ≡ del_all host.texts ks (queue host d e)
  unfolding delete_jobs
  queue-delete_jobs pull ks e = refl
  queue-delete_jobs push ks e = refl

  queue-delete_jobs_ne :
      (d d' : SyncDirection) (ks : List Text) (e : Engine host)
      → d ≢ d'
      → queue host d (delete_jobs host d' ks e) ≡ queue host d e
  unfolding delete_jobs
  queue-delete_jobs_ne pull pull ks e h = absurd (h refl)
  queue-delete_jobs_ne pull push ks e h = refl
  queue-delete_jobs_ne push pull ks e h = refl
  queue-delete_jobs_ne push push ks e h = absurd (h refl)

  history-delete_jobs :
      (d : SyncDirection) (ks : List Text) (e : Engine host)
      → (delete_jobs host d ks e).history ≡ e.history
  unfolding delete_jobs
  history-delete_jobs pull ks e = refl
  history-delete_jobs push ks e = refl

module _ (host : Host) (d : SyncDirection) (key : Text) where
  pub IsAccounted-kept :
      (e e' : Engine host)
      → e'.history ≡ e.history
      → queue host d e' ≡ queue host d e
      → IsAccounted host d key e
      → IsAccounted host d key e'
  unfolding message_exists
  IsAccounted-kept e e' h q a = record {
    place = elim a.place [ inl x ↦ inl (rw q x) | inr r ↦ inr (rw h r) ];
  }

  pub KeepsStores-IsAccounted :
      {A : Type 0} (m : Exec SyncError (Engine host) A)
      → KeepsStores host m
      → Keeps (IsAccounted host d key) m
  KeepsStores-IsAccounted m k = record {
    holds = λ e.
        IsAccounted-kept e (m e).1 (k.history e)
          (queue-kept host d e (m e).1 (k.pulls e) (k.pushes e));
  }

  -- A finished job is recorded before it is taken off.
  delete_jobs-IsAccounted :
      (d' : SyncDirection) (ks : List Text) (e : Engine host)
      → All (Recorded host e) ks
      → IsAccounted host d key e
      → IsAccounted host d key (delete_jobs host d' ks e)
  unfolding message_exists
  delete_jobs-IsAccounted d' ks e r a = record {
    place = elim a.place [
      | inr h ↦ inr (rw (history-delete_jobs host d' ks e) h)
      | inl q ↦ elim (SyncDirection-discrete d d') [
        | no other ↦ inl (rw (queue-delete_jobs_ne host d d' ks e other) q)
        | yes same ↦ elim (Bool-cases (includes ks key)) [
          | inl gone ↦ inr (rw (history-delete_jobs host d' ks e) (All-includes _ ks key r gone))
          | inr stays ↦
              inl
                (rw (← same, queue-delete_jobs host d ks e, get-del_all host.texts ks key, stays) q)
        ]
      ]
    ];
  }

  end_pass-IsAccounted :
      (d' : SyncDirection) (e : Engine host) (r : Result SyncError (Unit {0})) (s : Pass host)
      → IsSound host e s
      → IsAccounted host d key e
      → IsAccounted host d key (end_pass host d' (r, s)).1
  end_pass-IsAccounted d' e r s v a =
      let before : IsAccounted host d key s.engine = record {
        place = elim a.place [
          | inl q ↦ inl (rw (queue-kept host d e s.engine v.pulls v.pushes) q)
          | inr h ↦ inr (v.kept _ _ h)
        ];
      } in
      elim r as (λ x. IsAccounted host d key (end_pass host d' (x, s)).1) [
        | ok _ ↦ delete_jobs-IsAccounted d' s.delete_operations s.engine v.deleted before
        | err _ ↦ before
      ]

  pub run_jobs-IsAccounted :
      (d' : SyncDirection) → Keeps (IsAccounted host d key) (run_jobs host d')
  unfolding run_jobs
  run_jobs-IsAccounted d' = record {
    holds = λ e a.
        let ks = keys host (host.texts.entries (queue host d' e)) in
        let start = begin_pass host e in
        let sound =
          (Keeps-for_each (job host d') ks (job-Keeps host d' e)).holds start
            record { deleted = tt; kept = λ _ _ h. h; pulls = refl; pushes = refl } in
        end_pass-IsAccounted d' e _ (for_each (job host d') ks start).1 sound a;
  }
