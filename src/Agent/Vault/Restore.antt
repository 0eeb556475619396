-- ===== src/Agent/Vault/Restore.antt =====
-- What `restore` of `HdIdentityVault` (packages/agent/src/hd-identity-vault.ts) leaves in the store.
use web5_js.Base.{
  Text, Option, none, some, Result, ok, err, ◌≡◌, refl, sym, ap, subst, ◌∙◌, inl, inr, Option-cases,
}
use web5_js.Base.Exec.{pure, throw, attempt, bind, continue, bind-step, bind-throws, Result-cases}
use web5_js.Agent.Vault.Types.{
  VaultError, invalid_backup, contents_missing, restore_failed, Status, Changes, Backup, BackupData,
  Host, Vault, IsJson,
}
use web5_js.Agent.Vault.Access.{
  VaultExec, lift_result, put, read_status, set_status, or_throw, unlock, merge_status, changes_of,
  status_key, cek_key, did_key,
}
use web5_js.Agent.Vault.Create.{
  backup_data, get_now, load_fields, load_backup, revert, or_revert, restore_over, restore,
  none_changed,
}
use web5_js.Agent.Vault.Contents.{
  Entries, Entries-all, Entries-status, Entries-cek, Entries-did, read_status-written,
  set_status-ok, with_status,
}
use web5_js.Agent.Vault.Contained.{
  complete, complete_of, contents_of, unlock-Stores, IsReverted, Outcome, IsRead, backup_data_state,
  backup_data-IsRead, missing, unreadable, reverted, not_unlocked, restored,
}

module _ (host : Host) where
  revert-reverted :
      (p : BackupData) (over : Status) (u : Vault host)
      → read_status host (host.texts.get status_key u.store) ≡ ok over
      → revert host p u ≡ (err restore_failed, reverted host p over u)
  unfolding revert put bind continue throw
  revert-reverted p over u e =
      bind-step (set_status host (changes_of p.status)) _ u _ tt
        (set_status-ok host (changes_of p.status) u over e)

  reverted-IsReverted :
      (v u : Vault host) (p : BackupData) (over : Status)
      → IsRead host v p
      → IsReverted host v (reverted host p over u) p.status over
  reverted-IsReverted v u p over r =
      let first =
        Entries-status host (host.status_to_text (merge_status (changes_of p.status) over)) u.store
          (Entries-all host u.store) in
      let all = Entries-did host p.did _ (Entries-cek host p.content_encryption_key _ first) in
      record {
        was = r.of_status;
        entries = record {
          of_status = all.of_status;
          of_cek = all.of_cek ∙ sym r.of_cek;
          of_did = all.of_did ∙ sym r.of_did;
        };
      }

  abbrev putting : Text → Text → Vault host → Vault host
  putting did cek v = record v {
    store = host.texts.put cek_key cek (host.texts.put did_key did v.store);
  }

  abbrev loaded : Text → Text → Changes → Status → Vault host → Vault host
  loaded did cek changes previous v =
      with_status host (merge_status changes previous) (putting did cek v)

  loaded-Entries :
      (did cek : Text) (changes : Changes) (previous : Status) (v : Vault host)
      → Entries host
          (loaded did cek changes previous v).store
          (some (host.status_to_text (merge_status changes previous)))
          (some cek)
          (some did)
  loaded-Entries did cek changes previous v =
      Entries-status host _ _
        (Entries-cek host _ _ (Entries-did host did v.store (Entries-all host v.store)))

  -- A load that throws before the status is written
  abbrev IsUnloaded : Result VaultError (Unit {0}) × Vault host → Vault host → Type 0
  IsUnloaded out v =
      (x : VaultError) × (u : Vault host) × (out ≡ (err x, u))
      × (host.texts.get status_key u.store ≡ host.texts.get status_key v.store)

  load_fields-IsUnloaded :
      (did cek : Option Text) (changes : Option Changes) (word : Text) (v : Vault host)
      → complete host did cek changes ≡ none
      → IsUnloaded (load_fields host did cek changes word v) v
  unfolding load_fields put throw bind continue
  load_fields-IsUnloaded none cek changes word v e = (invalid_backup, v, refl, refl)
  load_fields-IsUnloaded (some did) none changes word v e = (
    invalid_backup,
    record v { store = host.texts.put did_key did v.store },
    refl,
    (Entries-did host did v.store (Entries-all host v.store)).of_status,
  )
  load_fields-IsUnloaded (some did) (some cek) none word v e = (
    invalid_backup,
    putting did cek v,
    refl,
    (Entries-cek host cek _ (Entries-did host did v.store (Entries-all host v.store))).of_status,
  )
  load_fields-IsUnloaded (some did) (some cek) (some changes) word v e = cc

  load_backup-IsUnloaded :
      (content word : Text) (v : Vault host)
      → contents_of host content ≡ none
      → IsUnloaded (load_backup host content word v) v
  unfolding load_backup lift_result bind continue
  load_backup-IsUnloaded content word v e = elim (Option-cases (host.backup_of_text content)) [
    | inl none_read ↦ rw none_read (invalid_backup, v, refl, refl)
    | inr (f, read) ↦ rw read (
        load_fields-IsUnloaded f.did f.content_encryption_key f.status word v
          (ap (complete_of host) (sym read) ∙ e))
  ]

  some_contents : {x y : Text × Text × Changes} → some x ≡ some y → x ≡ y
  some_contents e = cc

  load_fields-unlock :
      (did cek : Option Text) (changes : Option Changes) (word : Text) (q : Text × Text × Changes)
      (previous : Status) (v : Vault host)
      → complete host did cek changes ≡ some q
      → read_status host (host.texts.get status_key v.store) ≡ ok previous
      → load_fields host did cek changes word v ≡ unlock host word (loaded q.0 q.1 q.2 previous v)
  unfolding load_fields put bind continue
  load_fields-unlock none cek changes word q previous v e r = cc
  load_fields-unlock (some did) none changes word q previous v e r = cc
  load_fields-unlock (some did) (some cek) none word q previous v e r = cc
  load_fields-unlock (some did) (some cek) (some changes) word q previous v e r =
      bind-step (set_status host changes) _ (putting did cek v) _ tt (
        set_status-ok host changes (putting did cek v) previous (
          ap (read_status host)
            (Entries-cek host _ _
              (Entries-did host did v.store (Entries-all host v.store))).of_status
          ∙ r))
      ∙ ap (λ x. unlock host word (loaded x.0 x.1 x.2 previous v)) (some_contents e)

  load_backup-unlock :
      (content word : Text) (q : Text × Text × Changes) (previous : Status) (v : Vault host)
      → contents_of host content ≡ some q
      → read_status host (host.texts.get status_key v.store) ≡ ok previous
      → load_backup host content word v ≡ unlock host word (loaded q.0 q.1 q.2 previous v)
  unfolding load_backup lift_result bind continue
  load_backup-unlock content word q previous v e r =
      elim (Option-cases (host.backup_of_text content)) [
        | inl none_read ↦ absurd (none-contents (sym (ap (complete_of host) none_read) ∙ e))
        | inr (f, read) ↦ rw read (
            load_fields-unlock f.did f.content_encryption_key f.status word q previous v
              (ap (complete_of host) (sym read) ∙ e) r)
      ]
    where
      none-contents : {x : Text × Text × Changes} → none ≡ some x → ⊥
      none-contents h = cc

  abbrev after_load : BackupData → Result VaultError (Unit {0}) → VaultExec host (Unit {0})
  after_load p r = bind (or_revert host p r) λ _.
      bind (get_now host) λ date. set_status host (record none_changed { last_restore = some date })

  abbrev after_read : Text → Text → Result VaultError BackupData → VaultExec host (Unit {0})
  after_read content word r =
      bind (or_throw host contents_missing r) λ previous. restore_over host previous content word

  -- The rest of `restore`, for each result of loading the backup
  restore_over-failed :
      (p : BackupData) (content word : Text) (v u : Vault host) (x : VaultError) (over : Status)
      → load_backup host content word v ≡ (err x, u)
      → read_status host (host.texts.get status_key u.store) ≡ ok over
      → restore_over host p content word v ≡ (err restore_failed, reverted host p over u)
  unfolding restore_over attempt
  restore_over-failed p content word v u x over h r =
      bind-step (attempt (load_backup host content word)) _ v u (err x) (ap (λ o. (ok o.0, o.1)) h)
      ∙ bind-throws (revert host p) _ u (reverted host p over u) restore_failed
          (revert-reverted p over u r)

  restore_over-loaded :
      (p : BackupData) (content word : Text) (v u : Vault host) (s : Status)
      → load_backup host content word v ≡ (ok tt, u)
      → read_status host (host.texts.get status_key u.store) ≡ ok s
      → (w : host.World) × (date : Text) × ((host.now u.world).0 ≡ date)
        × (restore_over host p content word v ≡ (
          ok tt,
          with_status host
              (merge_status (record none_changed { last_restore = some date }) s)
              (record u { world = w }),
        ))
  unfolding restore_over attempt get_now bind continue pure
  restore_over-loaded p content word v u s h r =
      let (date, w) = host.now u.world in
      (
        w,
        date,
        refl,
        bind-step (attempt (load_backup host content word)) (after_load p) v u (ok tt)
              (ap (λ o. (ok o.0, o.1)) h)
            ∙ set_status-ok host (record none_changed { last_restore = some date })
                (record u { world = w }) s r,
      )

  -- The second half of `restore`, with the previous contents read
  restore_over-Outcome :
      (p : BackupData) (content word : Text) (v : Vault host)
      → IsJson host
      → IsRead host v p
      → Outcome host v content (restore_over host p content word v)
  restore_over-Outcome p content word v json read = elim (Option-cases (contents_of host content)) [
    | inl none_read ↦
        let (x, u, unloaded, kept) = load_backup-IsUnloaded content word v none_read in
        subst (Outcome host v content)
          (sym (
            restore_over-failed p content word v u x p.status unloaded
              (ap (read_status host) kept ∙ read.of_status)))
          (unreadable p.status none_read (reverted-IsReverted v u p p.status read))
    | inr (q, e) ↦
        let u = loaded q.0 q.1 q.2 p.status v in
        let merged = merge_status q.2 p.status in
        let went = load_backup-unlock content word q p.status v e read.of_status in
        let same = (unlock-Stores host u.store word).holds u refl in
        let status : read_status host (host.texts.get status_key (unlock host word u).1.store)
            ≡ ok merged =
          ap (λ s. read_status host (host.texts.get status_key s)) same
          ∙ ap (read_status host) (loaded-Entries q.0 q.1 q.2 p.status v).of_status
          ∙ read_status-written host merged json in
        elim (Result-cases (unlock host word u).0) [
          | inr (x, failed) ↦
              subst (Outcome host v content)
                (sym (
                  restore_over-failed p content word v _ x merged
                    (went ∙ ap (λ r. (r, (unlock host word u).1)) failed) status))
                (not_unlocked p.status q.0 q.1 q.2 e (reverted-IsReverted v _ p merged read))
          | inl (_, opened) ↦
              let (w, date, clock, end) =
                restore_over-loaded p content word v _ merged
                  (went ∙ ap (λ r. (r, (unlock host word u).1)) opened) status in
              subst (Outcome host v content) (sym end) (
                restored p.status q.0 q.1 date q.2 _ e read.of_status clock (
                  Entries-status host _ _ (
                    subst
                      (λ s.
                        Entries host s (some (host.status_to_text merged)) (some q.1) (some q.0))
                      (sym same) (loaded-Entries q.0 q.1 q.2 p.status v))))
        ]
  ]

-- If what is written as JSON is read back, every call of `restore` with a backup ends in one of four ways.
-- Nothing was written, and it throws. The backup could not be read or lacked contents, or it did not unlock
-- with the password: it throws, and the store has the DID and the key that it had before; its status is the
-- previous one, in the second case over that of the backup, so a date that was null before is that of the
-- backup. Or it returns, with the DID and the key of the backup, and the previous status changed as the
-- backup says, with the time by the clock as the last restore.
pub restore-Outcome :
    (host : Host) (b : Backup) (word : Text) (v : Vault host)
    → IsJson host
    → Outcome host v b.content (restore host (some b) word v)
unfolding restore attempt bind continue pure throw
restore-Outcome host b word v json = elim (Result-cases (backup_data host v).0) [
  | inr (x, failed) ↦
      subst (Outcome host v b.content)
        (sym (
          bind-step (attempt (backup_data host)) (after_read host b.content word) v v (err x) (
            ap (λ r. (ok r, (backup_data host v).1)) failed
            ∙ ap (λ u. (ok (err x), u)) (backup_data_state host v))
          ∙ refl))
        missing
  | inl (p, read) ↦
      subst (Outcome host v b.content)
        (sym (
          bind-step (attempt (backup_data host)) (after_read host b.content word) v v (ok p) (
            ap (λ r. (ok r, (backup_data host v).1)) read
            ∙ ap (λ u. (ok (ok p), u)) (backup_data_state host v))
          ∙ refl))
        (restore_over-Outcome host p b.content word v json (backup_data-IsRead host v p read))
]
