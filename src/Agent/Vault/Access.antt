-- ===== src/Agent/Vault/Access.antt =====
-- Locking, unlocking, the status, and the password of `HdIdentityVault`
-- (packages/agent/src/hd-identity-vault.ts).
use web5_js.Base.{
  Text, codes, Option, none, some, Bool, true, false, not, if◌then◌else◌, truthy, Result, ok, err,
}
use web5_js.Base.Exec.{Exec, pure, throw, attempt, ◌>>=◌, ◌>>◌}
use web5_js.Agent.Vault.Types.{
  VaultError, invalid_status, not_initialized, no_did, no_key, incorrect_password,
  incorrect_old_password, malformed_did, locked, Status, Changes, password, content_key, Header,
  Host, Vault,
}

abbrev pub status_key : Text
status_key = codes "vaultStatus"

abbrev pub cek_key : Text
cek_key = codes "contentEncryptionKey"

abbrev pub did_key : Text
did_key = codes "did"

abbrev pub fresh_status : Status
fresh_status = record { initialized = false; last_backup = none; last_restore = none }

abbrev pub of_option : {A : Type 0} → VaultError → Option A → Result VaultError A
of_option e none = err e
of_option e (some a) = ok a

-- `a ?? b`
abbrev pub or_else : {A : Type 0} → Option A → Option A → Option A
or_else none b = b
or_else (some a) b = some a

abbrev pub or_given : {A : Type 0} → Option A → A → A
or_given none b = b
or_given (some a) b = a

unfoldable pub merge_status : Changes → Status → Status
merge_status c s = record {
  initialized = or_given c.initialized s.initialized;
  last_backup = or_else c.last_backup s.last_backup;
  last_restore = or_else c.last_restore s.last_restore;
}

abbrev pub changes_of : Status → Changes
changes_of s = record {
  initialized = some s.initialized;
  last_backup = s.last_backup;
  last_restore = s.last_restore;
}

module _ (host : Host) where
  abbrev pub VaultExec : Type 0 → Type 0
  VaultExec A = Exec VaultError (Vault host) A

  unfoldable pub call : {A : Type 0} → (host.World → Result VaultError A × host.World) → VaultExec A
  call f v = let (r, w) = f v.world in (r, record v { world = w })

  unfoldable pub lift_result : {A : Type 0} → Result VaultError A → VaultExec A
  lift_result r v = (r, v)

  unfoldable pub put : Text → Text → VaultExec (Unit {0})
  put k t v = (ok tt, record v { store = host.texts.put k t v.store })

  abbrev pub read_status : Option Text → Result VaultError Status
  read_status none = ok fresh_status
  read_status (some t) =
      if truthy t then of_option invalid_status (host.status_of_text t) else ok fresh_status

  unfoldable pub get_status : VaultExec Status
  get_status v = (read_status (host.texts.get status_key v.store), v)

  unfoldable pub set_status : Changes → VaultExec (Unit {0})
  set_status c = do s ← get_status; put status_key (host.status_to_text (merge_status c s))

  unfoldable pub is_initialized : VaultExec Bool
  is_initialized = do s ← get_status; pure s.initialized

  abbrev pub has_key : Option Text → Bool
  has_key none = false
  has_key (some _) = true

  unfoldable pub is_locked : Vault host → Bool
  is_locked v = not (has_key v.key)

  -- `if (!jwe) throw`
  abbrev pub read_text : VaultError → Option Text → Result VaultError Text
  read_text e none = err e
  read_text e (some t) = if truthy t then ok t else err e

  unfoldable pub get_stored_did : VaultExec Text
  get_stored_did v = (read_text no_did (host.texts.get did_key v.store), v)

  unfoldable pub get_stored_cek : VaultExec Text
  get_stored_cek v = (read_text no_key (host.texts.get cek_key v.store), v)

  unfoldable pub set_key : Option Text → VaultExec (Unit {0})
  set_key k v = (ok tt, record v { key = k })

  -- The old key's bytes are overwritten as well; nothing else holds them.
  unfoldable pub lock : VaultExec (Unit {0})
  lock = do i ← is_initialized; if i then set_key none else throw not_initialized

  -- `if (!b) throw e`
  abbrev pub check : Bool → VaultError → VaultExec (Unit {0})
  check true e = pure tt
  check false e = throw e

  -- The body of the `try`: the content encryption key, and the header of its JWE
  unfoldable pub open_key : Text → Text → VaultExec (Text × Header)
  open_key jwe word = do
    (plain, header) ← call (host.decrypt (password word) jwe)
    key ← lift_result (of_option incorrect_password (host.key_of_text plain))
    pure (key, header)

  -- `catch` of the attempt, with the error that is thrown in place of the one that was caught
  abbrev pub or_throw : {A : Type 0} → VaultError → Result VaultError A → VaultExec A
  or_throw e (ok a) = pure a
  or_throw e (err _) = throw e

  unfoldable pub unlock : Text → VaultExec (Unit {0})
  unlock word = do
    lock
    jwe ← get_stored_cek
    opened ← attempt (open_key jwe word)
    (key, _) ← or_throw incorrect_password opened
    set_key (some key)

  -- The key is encrypted anew, stored, and kept.
  unfoldable pub reseal : Text → Header → Text → VaultExec (Unit {0})
  reseal new_password header key = do
    jwe ← call (host.encrypt (password new_password) header (host.key_to_text key))
    put cek_key jwe
    set_key (some key)

  unfoldable pub change_password : Text → Text → VaultExec (Unit {0})
  change_password old_password new_password = do
    i ← is_initialized
    check i not_initialized
    lock
    jwe ← get_stored_cek
    opened ← attempt (open_key jwe old_password)
    (key, header) ← or_throw incorrect_old_password opened
    reseal new_password header key

  abbrev imported : Bool → Text → VaultExec Text
  imported true did = call (host.import_did did)
  imported false did = throw malformed_did

  abbrev get_did_with : Option Text → VaultExec Text
  get_did_with none = throw locked
  get_did_with (some key) = do
    jwe ← get_stored_did
    (plain, _) ← call (host.decrypt (content_key key) jwe)
    imported (host.is_portable_did plain) plain

  unfoldable pub get_did : VaultExec Text
  get_did v = get_did_with v.key v
