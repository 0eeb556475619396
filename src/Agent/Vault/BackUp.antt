-- ===== src/Agent/Vault/BackUp.antt =====
-- What `backup` of `HdIdentityVault` (packages/agent/src/hd-identity-vault.ts) returns.
use web5_js.Base.{some, Bool, true, false, Result, ok, ◌≡◌, refl, sym, ap, ◌∙◌}
use web5_js.Base.Exec.{pure, throw, bind-ran}
use web5_js.Agent.Vault.Types.{VaultError, Backup, BackupData, fields_of, Host, Vault, IsJson}
use web5_js.Agent.Vault.Access.{set_status, is_locked}
use web5_js.Agent.Vault.Create.{
  backup_data, backup_unlocked, backup, backup_if, get_now, none_changed,
}
use web5_js.Agent.Vault.Change.{initialized_step, checked}
use web5_js.Agent.Vault.Contained.{IsRead, backup_data-IsRead}

module _ (host : Host) where
  content_eq :
      {b c : Backup} {v u : Vault host}
      → ◌≡◌ {A = Result VaultError Backup × Vault host} (ok b, v) (ok c, u)
      → b.content ≡ c.content
  content_eq h = cc

  backup_unlocked-ran :
      (v v' : Vault host) (b : Backup)
      → backup_unlocked host v ≡ (ok b, v')
      → (p : BackupData) × IsRead host v p × (host.backup_to_text p ≡ b.content)
  unfolding backup_unlocked get_now pure
  backup_unlocked-ran v v' b h =
      let (i, _, h₁) = initialized_step host _ v v' b h in
      let (_, h₂) = checked host i _ _ v v' b h₁ in
      let (p, read, h₃) = bind-ran (backup_data host) _ v v' b h₂ in
      let v₃ = (backup_data host v).1 in
      let (date, _, h₄) = bind-ran (get_now host) _ v₃ v' b h₃ in
      let (_, _, h₅) =
        bind-ran (set_status host (record none_changed { last_backup = some date })) _
          (get_now host v₃).1 v' b h₄ in
      (p, backup_data-IsRead host v p read, content_eq h₅)

  backup_if-ran :
      (is : Bool) (v v' : Vault host) (b : Backup)
      → backup_if host is v ≡ (ok b, v')
      → (is ≡ false) × (backup_unlocked host v ≡ (ok b, v'))
  unfolding throw
  backup_if-ran true v v' b h = cc
  backup_if-ran false v v' b h = (refl, h)

-- A backup that was made reads as the DID, the key and the status that the store had, and the vault
-- was unlocked.
pub backup-IsRead :
    (host : Host) (v v' : Vault host) (b : Backup)
    → IsJson host
    → backup host v ≡ (ok b, v')
    → (is_locked host v ≡ false)
      × ((p : BackupData) × IsRead host v p × (host.backup_of_text b.content ≡ some (fields_of p)))
unfolding backup
backup-IsRead host v v' b json h =
    let (open_vault, made) = backup_if-ran host (is_locked host v) v v' b h in
    let (p, read, written) = backup_unlocked-ran host v v' b made in
    (open_vault, (p, read, ap host.backup_of_text (sym written) ∙ json.backup_back p))
