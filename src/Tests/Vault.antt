-- ===== src/Tests/Vault.antt =====
-- The theorems about packages/agent/src/hd-identity-vault.ts at concrete inputs, on a host that
-- writes texts with their lengths in front and puts secrets before what they seal.
use web5_js.Base.{
  Text, codes, Option, none, some, [], ◌∷◌, Bool, true, false, ◌===◌, ===_iff, ===_refl, insert,
  drop, truthy, lookup, insert, Result, ok, err, ◌≡◌, ◌↔◌, refl, sym, ap, subst, ◌∙◌,
}
use web5_js.Base.Exec.{bind, continue, pure, throw, attempt}
use web5_js.Base.Level.{map_level}
use web5_js.Base.ParseInt.{is_space}
use web5_js.Tests.Packed.{pack, unpack_with, unpack-pack}
use web5_js.Agent.Vault.Types.{
  VaultError, external, Status, Backup, BackupData, BackupFields, fields_of, Secret, password,
  content_key, Header, did_header, Host, IsJson, IsAead, IsSealed, Vault,
}
use web5_js.Agent.Vault.Access.{
  unlock, change_password, lock, is_initialized, get_status, get_stored_cek, get_stored_did,
  open_key, reseal, put, set_key, call, lift_result, set_status, merge_status, is_locked,
}
use web5_js.Agent.Vault.Create.{
  initialize, is_blank, phrase_or_new, create_contents, store_key, store_did, backup,
  backup_unlocked, backup_data, get_now, restore,
}
use web5_js.Agent.Vault.Change.{change_password-unlock}
use web5_js.Agent.Vault.Initialize.{initialize-unlock}
use web5_js.Agent.Vault.Contained.{Outcome, IsRead}
use web5_js.Agent.Vault.Restore.{restore-Outcome}
use web5_js.Agent.Vault.BackUp.{backup-IsRead}

abbrev opt : Option Text → Text
opt none = []
opt (some t) = 1 ∷ t

abbrev un_opt : Text → Option Text
un_opt [] = none
un_opt (_ ∷ t) = some t

abbrev flag : Bool → Text
flag true = 1 ∷ []
flag false = []

abbrev write_status : Status → Text
write_status s = pack (flag s.initialized) (pack (opt s.last_backup) (pack (opt s.last_restore) []))

abbrev status_with : Text → Text → Text → Text → Option Status
status_with i b r _ =
    some (record { initialized = truthy i; last_backup = un_opt b; last_restore = un_opt r })

abbrev restored_with : Text → Text → Text → Option Status
restored_with i b = unpack_with (status_with i b)

abbrev backed_up_with : Text → Text → Option Status
backed_up_with i = unpack_with (restored_with i)

abbrev status_from : Text → Option Status
status_from = unpack_with backed_up_with

un_opt-opt : (o : Option Text) → un_opt (opt o) ≡ o
un_opt-opt none = refl
un_opt-opt (some t) = refl

truthy-flag : (b : Bool) → truthy (flag b) ≡ b
unfolding truthy
truthy-flag true = refl
truthy-flag false = refl

status_from-write_status : (s : Status) → status_from (write_status s) ≡ some s
status_from-write_status s =
    let b = opt s.last_backup in
    let r = opt s.last_restore in
    unpack-pack backed_up_with (flag s.initialized) (pack b (pack r []))
    ∙ unpack-pack (restored_with (flag s.initialized)) b (pack r [])
    ∙ unpack-pack (status_with (flag s.initialized) b) r []
    ∙ rw (truthy-flag s.initialized, un_opt-opt s.last_backup, un_opt-opt s.last_restore) refl

abbrev write_backup : BackupData → Text
write_backup b = pack b.did (pack b.content_encryption_key (write_status b.status))

abbrev backup_over : Text → Text → Option Status → Option BackupFields
backup_over did cek none = none
backup_over did cek (some s) =
    some (fields_of (record { did = did; content_encryption_key = cek; status = s }))

abbrev keyed_with : Text → Text → Text → Option BackupFields
keyed_with did cek t = backup_over did cek (status_from t)

abbrev backup_with : Text → Text → Option BackupFields
backup_with did = unpack_with (keyed_with did)

backup_from-write_backup :
    (b : BackupData) → unpack_with backup_with (write_backup b) ≡ some (fields_of b)
backup_from-write_backup b =
    unpack-pack backup_with b.did (pack b.content_encryption_key (write_status b.status))
    ∙ unpack-pack (keyed_with b.did) b.content_encryption_key (write_status b.status)
    ∙ ap (backup_over b.did b.content_encryption_key) (status_from-write_status b.status)

-- The secret and its kind
abbrev mark : Secret → Text
mark (password t) = 0 ∷ t
mark (content_key t) = 1 ∷ t

abbrev seal : Secret → Text → Text
seal s content = pack (mark s) content

abbrev opened_if : Bool → Text → Result VaultError (Text × Header)
opened_if true content = ok (content, did_header)
opened_if false content = err (external (codes "decryption failed"))

abbrev tried : Secret → Text → Text → Option (Result VaultError (Text × Header))
tried s m content = some (opened_if (m === mark s) content)

abbrev settled : Option (Result VaultError (Text × Header)) → Result VaultError (Text × Header)
settled none = err (external (codes "no JWE"))
settled (some r) = r

abbrev unseal : Secret → Text → Result VaultError (Text × Header)
unseal s jwe = settled (unpack_with (tried s) jwe)

abbrev phrase_host : Host
phrase_host = record {
  World = Unit {0};
  texts = map_level Text;
  encrypt = λ s h content w. (ok (seal s content), w);
  decrypt = λ s jwe w. (unseal s jwe, w);
  derive_key = λ phrase w. (ok phrase, w);
  derive_salt = λ phrase w. (ok phrase, w);
  create_did = λ phrase endpoints w. (ok phrase, w);
  is_portable_did = truthy;
  import_did = λ did w. (ok did, w);
  generate_mnemonic = λ w. (codes "zoo", w);
  validate_mnemonic = truthy;
  now = λ w. (codes "2024", w);
  status_to_text = write_status;
  status_of_text = status_from;
  key_to_text = λ k. k;
  key_of_text = some;
  backup_to_text = write_backup;
  backup_of_text = unpack_with backup_with;
}

phrase_host-IsJson : IsJson phrase_host
unfolding truthy
phrase_host-IsJson = record {
  status_back = status_from-write_status;
  status_given = λ s. refl;
  key_back = λ k. refl;
  backup_back = backup_from-write_backup;
}

unseal-seal :
    (s t : Secret) (content : Text)
    → unseal t (seal s content) ≡ opened_if (mark s === mark t) content
unseal-seal s t content = ap settled (unpack-pack (tried t) (mark s) content)

same_mark : (s t : Secret) → mark s ≡ mark t → t ≡ s
same_mark (password a) (password b) e = ap password (sym (ap (drop 1) e))
same_mark (content_key a) (content_key b) e = ap content_key (sym (ap (drop 1) e))
same_mark (password a) (content_key b) e = cc
same_mark (content_key a) (password b) e = cc

opened_only :
    (b : Bool) (content : Text) (r : Text × Header) → opened_if b content ≡ ok r → b ≡ true
opened_only true content r h = refl
opened_only false content r h = cc

seal-IsSealed : (s : Secret) (content : Text) → IsSealed phrase_host s content (seal s content)
seal-IsSealed s content = record {
  opens = λ w.
      (did_header, unseal-seal s s content ∙ ap (λ b. opened_if b content) (===_refl (mark s)));
  shuts = λ t w r h.
      same_mark s t (
        (===_iff (mark s) (mark t)).0
          (opened_only _ content r (sym (unseal-seal s t content) ∙ h)));
}

abbrev unok : Text → Result VaultError Text → Text
unok t (ok a) = a
unok t (err e) = t

phrase_host-IsAead : IsAead phrase_host
unfolding truthy
phrase_host-IsAead = record {
  encrypt_seals = λ s h content jwe w e.
      let same = ap (unok []) e in
      (subst (IsSealed phrase_host s content) same (seal-IsSealed s content), ap truthy (sym same));
}

abbrev fresh : Vault phrase_host
fresh = record { store = []; key = none; world = tt }

abbrev word : Text
word = codes "secret"

abbrev new_word : Text
new_word = codes "safer"

abbrev zoo : Text
zoo = codes "zoo"

abbrev made : Vault phrase_host
made = (initialize phrase_host word none [] fresh).1

initialized : initialize phrase_host word none [] fresh ≡ (ok zoo, made)
unfolding initialize is_initialized get_status is_blank phrase_or_new create_contents store_key
    store_did call put set_key set_status merge_status bind continue pure truthy lookup insert
    is_space ◌===◌
initialized = refl

initialize-unlock_example : ((unlock phrase_host new_word made).0 ≡ ok tt) ↔ (new_word ≡ word)
initialize-unlock_example =
    initialize-unlock phrase_host word new_word zoo none [] fresh made phrase_host-IsJson
      phrase_host-IsAead initialized

abbrev changed : Vault phrase_host
changed = (change_password phrase_host word new_word made).1

changed_to_new : change_password phrase_host word new_word made ≡ (ok tt, changed)
unfolding initialize is_initialized get_status is_blank phrase_or_new create_contents store_key
    store_did call put set_key set_status merge_status bind continue pure truthy change_password
    lock get_stored_cek open_key reseal attempt lift_result throw lookup insert is_space ◌===◌
changed_to_new = refl

change_password-unlock_example : ((unlock phrase_host word changed).0 ≡ ok tt) ↔ (word ≡ new_word)
change_password-unlock_example =
    change_password-unlock phrase_host word new_word word made changed phrase_host-IsJson
      phrase_host-IsAead changed_to_new

abbrev backed_up : Result VaultError Backup × Vault phrase_host
backed_up = backup phrase_host made

abbrev or_no_backup : Result VaultError Backup → Backup
or_no_backup (ok b) = b
or_no_backup (err e) = record { date_created = []; size = 0; content = [] }

abbrev the_backup : Backup
the_backup = or_no_backup backed_up.0

backs_up : backup phrase_host made ≡ (ok the_backup, backed_up.1)
unfolding initialize is_initialized get_status is_blank phrase_or_new create_contents store_key
    store_did call put set_key set_status merge_status bind continue pure truthy backup is_locked
    backup_unlocked backup_data get_stored_did get_stored_cek get_now lookup insert is_space ◌===◌
backs_up = refl

backup-IsRead_example :
    (is_locked phrase_host made ≡ false)
    × ((p : BackupData) × IsRead phrase_host made p
        × (phrase_host.backup_of_text the_backup.content ≡ some (fields_of p)))
backup-IsRead_example =
    backup-IsRead phrase_host made backed_up.1 the_backup phrase_host-IsJson backs_up

restore-Outcome_example :
    Outcome phrase_host changed the_backup.content
      (restore phrase_host (some the_backup) word changed)
restore-Outcome_example = restore-Outcome phrase_host the_backup word changed phrase_host-IsJson
