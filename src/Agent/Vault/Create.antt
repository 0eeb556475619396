-- ===== src/Agent/Vault/Create.antt =====
-- `initialize`, `backup` and `restore` of `HdIdentityVault` (packages/agent/src/hd-identity-vault.ts).
use web5_js.Base.{
  Text, Option, none, some, List, [], ◌∷◌, Bool, true, false, ◌&&◌, not, if◌then◌else◌, truthy,
  length, Result, ok, err,
}
use web5_js.Base.Exec.{pure, throw, attempt, ◌>>=◌, ◌>>◌}
use web5_js.Base.ParseInt.{is_space}
use web5_js.Agent.Vault.Types.{
  VaultError, already_initialized, empty_password, invalid_phrase, invalid_backup, contents_missing,
  restore_failed, locked, Changes, Backup, BackupData, password, content_key, password_header,
  did_header, Host,
}
use web5_js.Agent.Vault.Access.{
  VaultExec, call, lift_result, put, get_status, set_status, is_initialized, is_locked, set_key,
  get_stored_did, get_stored_cek, unlock, check, changes_of, of_option, or_throw, cek_key, did_key,
}

-- `isEmptyString`: nothing is left after `trim`.
unfoldable pub is_blank : Text → Bool
is_blank [] = true
is_blank (c ∷ s) = let rest = is_blank s in if is_space c then rest else false

-- `recoveryPhrase && isEmptyString(recoveryPhrase)`
abbrev pub is_blank_phrase : Option Text → Bool
is_blank_phrase none = false
is_blank_phrase (some s) = truthy s && is_blank s

abbrev pub none_changed : Changes
none_changed = record { initialized = none; last_backup = none; last_restore = none }

module _ (host : Host) where
  unfoldable pub get_now : VaultExec host Text
  get_now v = let (t, w) = host.now v.world in (ok t, record v { world = w })

  -- `recoveryPhrase ??= generateMnemonic(wordlist, 128)`
  unfoldable pub phrase_or_new : Option Text → VaultExec host Text
  phrase_or_new (some phrase) v = (ok phrase, v)
  phrase_or_new none v =
      let (phrase, w) = host.generate_mnemonic v.world in (ok phrase, record v { world = w })

  -- The content encryption key, encrypted with the password, goes to the store.
  unfoldable pub store_key : Text → Text → Text → VaultExec host (Unit {0})
  store_key word salt key = do
    jwe ← call host (host.encrypt (password word) (password_header salt) (host.key_to_text key))
    put host cek_key jwe

  -- The portable DID, encrypted with the content encryption key, goes to the store.
  unfoldable pub store_did : Text → Text → VaultExec host (Unit {0})
  store_did key did = do
    jwe ← call host (host.encrypt (content_key key) did_header did)
    put host did_key jwe

  unfoldable pub create_contents : Text → Text → List Text → VaultExec host (Unit {0})
  create_contents word phrase endpoints = do
    key ← call host (host.derive_key phrase)
    salt ← call host (host.derive_salt phrase)
    store_key word salt key
    did ← call host (host.create_did phrase endpoints)
    store_did key did
    set_key host (some key)
    set_status host (record none_changed { initialized = some true })

  unfoldable pub initialize : Text → Option Text → List Text → VaultExec host Text
  initialize word recovery_phrase endpoints = do
    i ← is_initialized host
    check host (not i) already_initialized
    check host (not (is_blank word)) empty_password
    check host (not (is_blank_phrase recovery_phrase)) empty_password
    phrase ← phrase_or_new recovery_phrase
    check host (host.validate_mnemonic phrase) invalid_phrase
    create_contents word phrase endpoints
    pure phrase

  unfoldable pub backup_data : VaultExec host BackupData
  backup_data = do
    did ← get_stored_did host
    cek ← get_stored_cek host
    status ← get_status host
    pure (record { did = did; content_encryption_key = cek; status = status })

  unfoldable pub backup_unlocked : VaultExec host Backup
  backup_unlocked = do
    i ← is_initialized host
    check host i locked
    contents ← backup_data
    date ← get_now
    set_status host (record none_changed { last_backup = some date })
    pure (record {
      date_created = date;
      size = length (host.backup_to_text contents);
      content = host.backup_to_text contents;
    })

  abbrev pub backup_if : Bool → VaultExec host Backup
  backup_if true = throw locked
  backup_if false = backup_unlocked

  unfoldable pub backup : VaultExec host Backup
  backup v = backup_if (is_locked host v) v

  -- The store is a `LevelStore`, as that of the user agent is, which throws on a value that is `undefined`.
  abbrev pub put_given : Text → Option Text → VaultExec host (Unit {0})
  put_given key none = throw invalid_backup
  put_given key (some value) = put host key value

  -- `setStatus` takes its argument apart, which throws if it is `undefined`.
  abbrev pub set_given : Option Changes → VaultExec host (Unit {0})
  set_given none = throw invalid_backup
  set_given (some changes) = set_status host changes

  unfoldable pub load_fields :
      Option Text → Option Text → Option Changes → Text → VaultExec host (Unit {0})
  load_fields did cek status word = do
    put_given did_key did
    put_given cek_key cek
    set_given status
    unlock host word

  -- The body of the second `try` of `restore`
  unfoldable pub load_backup : Text → Text → VaultExec host (Unit {0})
  load_backup content word = do
    contents ← lift_result host (of_option invalid_backup (host.backup_of_text content))
    load_fields contents.did contents.content_encryption_key contents.status word

  -- The `catch` of it
  unfoldable pub revert : BackupData → VaultExec host (Unit {0})
  revert previous = do
    set_status host (changes_of previous.status)
    put host cek_key previous.content_encryption_key
    put host did_key previous.did
    throw restore_failed

  abbrev pub or_revert : BackupData → Result VaultError (Unit {0}) → VaultExec host (Unit {0})
  or_revert previous (ok _) = pure tt
  or_revert previous (err _) = revert previous

  unfoldable pub restore_over : BackupData → Text → Text → VaultExec host (Unit {0})
  restore_over previous content word = do
    loaded ← attempt (load_backup content word)
    or_revert previous loaded
    date ← get_now
    set_status host (record none_changed { last_restore = some date })

  -- `none` is an object that is no `IdentityVaultBackup`.
  unfoldable pub restore : Option Backup → Text → VaultExec host (Unit {0})
  restore none word = throw invalid_backup
  restore (some b) word = do
    read ← attempt backup_data
    previous ← or_throw host contents_missing read
    restore_over previous b.content word
