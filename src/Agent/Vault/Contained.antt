-- ===== src/Agent/Vault/Contained.antt =====
-- The ways `restore` of `HdIdentityVault` (packages/agent/src/hd-identity-vault.ts) may end, and what it
-- reads first.
use web5_js.Base.{Text, Option, none, some, Result, ok, err, ◌≡◌, refl, ap, ◌∙◌, arith}
use web5_js.Base.Exec.{
  pure, bind-eq-ok, Keeps, Keeps-bind, Keeps-pure, Keeps-throw, Keeps-if, Keeps-attempt,
}
use web5_js.Agent.Vault.Types.{
  VaultError, no_did, no_key, contents_missing, restore_failed, Status, Changes, BackupData,
  BackupFields, Host, Vault,
}
use web5_js.Agent.Vault.Access.{
  read_status, get_status, is_initialized, set_key, get_stored_cek, get_stored_did, read_text, lock,
  or_throw, unlock, merge_status, changes_of, status_key, cek_key, did_key,
}
use web5_js.Agent.Vault.Create.{backup_data, none_changed}
use web5_js.Agent.Vault.Contents.{Entries}
use web5_js.Agent.Vault.Change.{Stores, open_key-Stores}

module _ (host : Host) where
  pub set_key-Stores :
      (s : host.texts.Store) (k : Option Text) → Keeps (Stores host s) (set_key host k)
  unfolding set_key
  set_key-Stores s k = record { holds = λ v h. h }

  pub get_stored_cek-Stores : (s : host.texts.Store) → Keeps (Stores host s) (get_stored_cek host)
  unfolding get_stored_cek
  get_stored_cek-Stores s = record { holds = λ v h. h }

  pub is_initialized-Stores : (s : host.texts.Store) → Keeps (Stores host s) (is_initialized host)
  unfolding is_initialized get_status
  is_initialized-Stores s = Keeps-bind _ _ record { holds = λ v h. h } λ _. Keeps-pure _

  pub or_throw-Stores :
      {A : Type 0} (s : host.texts.Store) (e : VaultError) (r : Result VaultError A)
      → Keeps (Stores host s) (or_throw host e r)
  or_throw-Stores s e (ok a) = Keeps-pure a
  or_throw-Stores s e (err x) = Keeps-throw e

  -- `unlock` writes nothing to the store.
  pub unlock-Stores :
      (s : host.texts.Store) (word : Text) → Keeps (Stores host s) (unlock host word)
  unfolding unlock lock
  unlock-Stores s word =
      Keeps-bind _ _
        (Keeps-bind _ _ (is_initialized-Stores s)
          λ i. Keeps-if i _ _ (set_key-Stores s none) (Keeps-throw _))
        λ _. Keeps-bind _ _ (get_stored_cek-Stores s) λ jwe.
          Keeps-bind _ _ (Keeps-attempt _ (open_key-Stores host s jwe word))
            λ opened. Keeps-bind _ _ (or_throw-Stores s _ opened) λ _. set_key-Stores s _

  -- The store has the previous contents, and the status that they had written over another one.
  pub record IsReverted (v v' : Vault host) (previous over : Status) : Type 0 where
    pub was : read_status host (host.texts.get status_key v.store) ≡ ok previous
    pub entries :
        Entries host v'.store
          (some (host.status_to_text (merge_status (changes_of previous) over)))
          (host.texts.get cek_key v.store)
          (host.texts.get did_key v.store)

  -- The contents of a backup, if its text has all of them
  abbrev pub complete : Option Text → Option Text → Option Changes → Option (Text × Text × Changes)
  complete (some did) (some cek) (some changes) = some (did, cek, changes)
  complete none cek changes = none
  complete (some did) none changes = none
  complete (some did) (some cek) none = none

  abbrev pub complete_of : Option BackupFields → Option (Text × Text × Changes)
  complete_of none = none
  complete_of (some f) = complete f.did f.content_encryption_key f.status

  abbrev pub contents_of : Text → Option (Text × Text × Changes)
  contents_of content = complete_of (host.backup_of_text content)

  -- How a call of `restore` may end.
  pub data Outcome (v : Vault host) (content : Text)
      : Result VaultError (Unit {0}) × Vault host → Type 0 where
    -- nothing was written
    missing : Outcome v content (err contents_missing, v)
    -- the text of the backup is none or lacks contents: the status is the previous one
    unreadable :
        {v' : Vault host} (previous : Status)
        → contents_of content ≡ none
        → IsReverted v v' previous previous
        → Outcome v content (err restore_failed, v')
    -- the vault did not unlock: the status is merged with that of the backup
    not_unlocked :
        {v' : Vault host} (previous : Status) (did cek : Text) (changes : Changes)
        → contents_of content ≡ some (did, cek, changes)
        → IsReverted v v' previous (merge_status changes previous)
        → Outcome v content (err restore_failed, v')
    -- the contents of the backup, the previous status changed as the backup says, and the time by the clock
    restored :
        {v' : Vault host} (previous : Status) (did cek date : Text) (changes : Changes)
        (w : host.World)
        → contents_of content ≡ some (did, cek, changes)
        → read_status host (host.texts.get status_key v.store) ≡ ok previous
        → (host.now w).0 ≡ date
        → Entries host v'.store
            (some (
              host.status_to_text (
                merge_status
                  (record none_changed { last_restore = some date })
                  (merge_status changes previous))))
            (some cek)
            (some did)
        → Outcome v content (ok tt, v')

  -- What `backup_data` read is what the store has.
  pub record IsRead (v : Vault host) (p : BackupData) : Type 0 where
    pub of_status : read_status host (host.texts.get status_key v.store) ≡ ok p.status
    pub of_cek : host.texts.get cek_key v.store ≡ some p.content_encryption_key
    pub of_did : host.texts.get did_key v.store ≡ some p.did

  pub read_text-ok :
      (e : VaultError) (o : Option Text) (t : Text) → read_text host e o ≡ ok t → o ≡ some t
  read_text-ok e none t h = cc
  read_text-ok e (some s) t h = ground arith

  pub reads-same :
      {A : Type 0} (v : Vault host) (r : Vault host → Result VaultError A)
      → Keeps (λ u. u ≡ v) (λ u. (r u, u))
  reads-same v r = record { holds = λ u h. h }

  pub backup_data_state : (v : Vault host) → (backup_data host v).1 ≡ v
  unfolding backup_data get_stored_did get_stored_cek get_status
  backup_data_state v =
      (Keeps-bind _ _ (reads-same v _) λ _.
          Keeps-bind _ _ (reads-same v _)
            λ _. Keeps-bind _ _ (reads-same v _) λ _. Keeps-pure _).holds
        v refl

  pub backup_data-IsRead :
      (v : Vault host) (p : BackupData) → (backup_data host v).0 ≡ ok p → IsRead v p
  unfolding backup_data get_stored_did get_stored_cek get_status pure
  backup_data-IsRead v p h =
      let (did, e₁, h₁) = bind-eq-ok (get_stored_did host) _ v h in
      let (cek, e₂, h₂) = bind-eq-ok (get_stored_cek host) _ v h₁ in
      let (status, e₃, h₃) = bind-eq-ok (get_status host) _ v h₂ in
      let same : record { did = did; content_encryption_key = cek; status = status } ≡ p = cc in
      record {
        of_status = e₃ ∙ ap (λ (q : BackupData). ok q.status) same;
        of_cek =
            read_text-ok no_key _ cek e₂
            ∙ ap (λ (q : BackupData). some q.content_encryption_key) same;
        of_did = read_text-ok no_did _ did e₁ ∙ ap (λ (q : BackupData). some q.did) same;
      }

  abbrev pub reverted : BackupData → Status → Vault host → Vault host
  reverted p over u = record u {
    store = host.texts.put did_key p.did (
        host.texts.put cek_key p.content_encryption_key (
          host.texts.put status_key (host.status_to_text (merge_status (changes_of p.status) over))
            u.store));
  }
