-- ===== src/Agent/Vault/Types.antt =====
-- The data and the state of `HdIdentityVault` (packages/agent/src/hd-identity-vault.ts and
-- packages/agent/src/types/identity-vault.ts), and what the vault calls.
use web5_js.Base.{ℕ, Text, Option, some, List, Bool, true, Result, ok, truthy, ◌≡◌}
use web5_js.Base.Level.{Level}

pub data VaultError : Type 0 where
  -- something that the vault calls threw
  external : Text → VaultError
  invalid_status not_initialized already_initialized locked : VaultError
  empty_password invalid_phrase malformed_did : VaultError
  no_did no_key : VaultError
  incorrect_password incorrect_old_password : VaultError
  invalid_backup contents_missing restore_failed : VaultError

-- `IdentityVaultStatus`; `none` is `null`.
pub record Status : Type 0 where
  pub initialized : Bool
  pub last_backup : Option Text
  pub last_restore : Option Text

-- `Partial<IdentityVaultStatus>`; `none` is `undefined` or `null`, which `??` does not tell apart.
pub record Changes : Type 0 where
  pub initialized : Option Bool
  pub last_backup : Option Text
  pub last_restore : Option Text

-- `IdentityVaultBackup`
pub record Backup : Type 0 where
  pub date_created : Text
  pub size : ℕ
  pub content : Text

-- `IdentityVaultBackupData`
pub record BackupData : Type 0 where
  pub did : Text
  pub content_encryption_key : Text
  pub status : Status

-- What `toObject` gives for the data of a backup, which is taken for `IdentityVaultBackupData` unchecked:
-- `none` is a property that is `undefined`.
pub record BackupFields : Type 0 where
  pub did : Option Text
  pub content_encryption_key : Option Text
  pub status : Option Changes

abbrev pub fields_of : BackupData → BackupFields
fields_of b = record {
  did = some b.did;
  content_encryption_key = some b.content_encryption_key;
  status = some (record {
    initialized = some b.status.initialized;
    last_backup = b.status.last_backup;
    last_restore = b.status.last_restore;
  });
}

-- What a JWE is encrypted with: a password, or the content encryption key.
pub data Secret : Type 0 where
  password content_key : Text → Secret

pub data Header : Type 0 where
  -- PBES2-HS512+A256KW, with the salt
  password_header : Text → Header
  -- dir
  did_header : Header

-- The store, `CompactJwe`, the derivation of keys, `DidDht`, the mnemonics, JSON with base64url, and the clock.
-- `World` is their state; a call of the first four may throw.
pub record Host : Type 1 where
  pub World : Type 0
  pub texts : Level Text
  pub encrypt : Secret → Header → Text → World → Result VaultError Text × World
  pub decrypt : Secret → Text → World → Result VaultError (Text × Header) × World
  -- the content encryption key, and the salt, of a recovery phrase
  pub derive_key : Text → World → Result VaultError Text × World
  pub derive_salt : Text → World → Result VaultError Text × World
  -- the DID that is made of a recovery phrase with some DWN endpoints, in its portable form
  pub create_did : Text → List Text → World → Result VaultError Text × World
  pub is_portable_did : Text → Bool
  pub import_did : Text → World → Result VaultError Text × World
  pub generate_mnemonic : World → Text × World
  pub validate_mnemonic : Text → Bool
  pub now : World → Text × World
  -- `JSON.stringify`, and `none` where the text is no such object
  pub status_to_text : Status → Text
  pub status_of_text : Text → Option Status
  pub key_to_text : Text → Text
  pub key_of_text : Text → Option Text
  pub backup_to_text : BackupData → Text
  -- `none` where the text is no JSON object
  pub backup_of_text : Text → Option BackupFields

-- What is written is read back, and a written status is not the empty string.
pub record IsJson (host : Host) : Type 0 where
  pub status_back : (s : Status) → host.status_of_text (host.status_to_text s) ≡ some s
  pub status_given : (s : Status) → truthy (host.status_to_text s) ≡ true
  pub key_back : (k : Text) → host.key_of_text (host.key_to_text k) ≡ some k
  pub backup_back :
      (b : BackupData) → host.backup_of_text (host.backup_to_text b) ≡ some (fields_of b)

-- The JWE is one that was made with the secret: it opens to the text with this secret, and with
-- no other.
pub record IsSealed (host : Host) (s : Secret) (content jwe : Text) : Type 0 where
  pub opens : (w : host.World) → (h : Header) × ((host.decrypt s jwe w).0 ≡ ok (content, h))
  pub shuts :
      (t : Secret) (w : host.World) (r : Text × Header) → (host.decrypt t jwe w).0 ≡ ok r → t ≡ s

-- Authenticated encryption: what `encrypt` returns is made with its secret, and is not empty.
pub record IsAead (host : Host) : Type 0 where
  pub encrypt_seals :
      (s : Secret) (h : Header) (content jwe : Text) (w : host.World)
      → (host.encrypt s h content w).0 ≡ ok jwe
      → IsSealed host s content jwe × (truthy jwe ≡ true)

pub record Vault (host : Host) : Type 0 where
  pub store : host.texts.Store
  pub key : Option Text
  pub world : host.World
