-- ===== src/Agent/Vault/Password.antt =====
-- Which password opens the vault (packages/agent/src/hd-identity-vault.ts).
use web5_js.Base.{Text, none, some, true, truthy, Result, ok, err, ◌≡◌, ◌↔◌, refl, sym, ap, ◌∙◌}
use web5_js.Base.Exec.{pure, throw, attempt, bind, continue, bind-step, bind-eq-ok, attempt-ok}
use web5_js.Agent.Vault.Types.{
  VaultError, incorrect_password, Status, password, Header, Host, Vault, IsJson, IsSealed,
}
use web5_js.Agent.Vault.Access.{
  VaultExec, call, lift_result, read_status, get_status, is_initialized, set_key, get_stored_cek,
  lock, open_key, or_throw, unlock, status_key, cek_key,
}

module _ (host : Host) where
  -- The store says that the vault is initialized.
  pub record IsMarked (v : Vault host) : Type 0 where
    pub status : Status
    pub stored : read_status host (host.texts.get status_key v.store) ≡ ok status
    pub initialized : status.initialized ≡ true

  -- The store holds the key, encrypted with the password.
  pub record IsOpenable (word key : Text) (v : Vault host) : Type 0 where
    pub set : IsMarked v
    pub jwe : Text
    pub stored : host.texts.get cek_key v.store ≡ some jwe
    pub given : truthy jwe ≡ true
    pub jwe_seals : IsSealed host (password word) (host.key_to_text key) jwe

  pub lock-IsMarked : (v : Vault host) → IsMarked v → lock host v ≡ (ok tt, record v { key = none })
  unfolding lock is_initialized get_status set_key bind continue pure
  lock-IsMarked v i = rw (i.stored, i.initialized) refl

  get_stored_cek-ok :
      (v : Vault host) (jwe : Text)
      → host.texts.get cek_key v.store ≡ some jwe
      → truthy jwe ≡ true
      → get_stored_cek host v ≡ (ok jwe, v)
  unfolding get_stored_cek
  get_stored_cek-ok v jwe e t = rw (e, t) refl

  -- What is left of `unlock` after the vault was locked and the JWE was read
  abbrev try_open : Text → Text → VaultExec host (Unit {0})
  try_open jwe p =
      bind (attempt (open_key host jwe p))
        λ opened. bind (or_throw host incorrect_password opened) λ (key, _). set_key host (some key)

  unlock_opens :
      (p word key : Text) (v : Vault host) (o : IsOpenable word key v)
      → unlock host p v ≡ try_open o.jwe p (record v { key = none })
  unfolding unlock
  unlock_opens p word key v o =
      bind-step (lock host) _ v _ tt (lock-IsMarked v o.set)
      ∙ bind-step (get_stored_cek host) _ _ _ o.jwe (get_stored_cek-ok _ o.jwe o.stored o.given)

  open_key-right :
      (word key jwe : Text) (v : Vault host)
      → IsJson host
      → IsSealed host (password word) (host.key_to_text key) jwe
      → (h : Header) × ((open_key host jwe word v).0 ≡ ok (key, h))
  unfolding open_key call lift_result bind continue pure
  open_key-right word key jwe v json s =
      let (h, e) = s.opens v.world in (h, rw (e, json.key_back key) refl)

  open_key-only :
      (p word key jwe : Text) (v : Vault host) (r : Text × Header)
      → IsSealed host (password word) (host.key_to_text key) jwe
      → (open_key host jwe p v).0 ≡ ok r
      → p ≡ word
  unfolding open_key call
  open_key-only p word key jwe v r s h =
      let (out, e, _) = bind-eq-ok (call host (host.decrypt (password p) jwe)) _ v h in
      word_eq (s.shuts (password p) v.world out e)
    where
      word_eq : password p ≡ password word → p ≡ word
      word_eq e = cc

  pub or_throw-ok :
      {A : Type 0} (e : VaultError) (r : Result VaultError A) (v : Vault host) {a : A}
      → (or_throw host e r v).0 ≡ ok a
      → r ≡ ok a
  unfolding pure throw
  or_throw-ok e (ok b) v h = cc
  or_throw-ok e (err x) v h = cc

  try_open-right :
      (word key jwe : Text) (v : Vault host)
      → IsJson host
      → IsSealed host (password word) (host.key_to_text key) jwe
      → ((try_open jwe word v).0 ≡ ok tt) × ((try_open jwe word v).1.key ≡ some key)
  unfolding bind continue attempt pure set_key
  try_open-right word key jwe v json s =
      let (h, e) = open_key-right word key jwe v json s in rw e (refl, refl)

  try_open-only :
      (p word key jwe : Text) (v : Vault host)
      → IsSealed host (password word) (host.key_to_text key) jwe
      → (try_open jwe p v).0 ≡ ok tt
      → p ≡ word
  try_open-only p word key jwe v s h =
      let (opened, tried, rest) = bind-eq-ok (attempt (open_key host jwe p)) _ v h in
      let (r, passed, _) = bind-eq-ok (or_throw host incorrect_password opened) _ _ rest in
      open_key-only p word key jwe v r s
        (attempt-ok _ v opened tried ∙ or_throw-ok incorrect_password opened _ passed)

  -- With the key in the store encrypted with a password, `unlock` returns for this password and for
  -- no other.
  pub unlock_iff :
      (p word key : Text) (v : Vault host)
      → IsJson host
      → IsOpenable word key v
      → ((unlock host p v).0 ≡ ok tt) ↔ (p ≡ word)
  unlock_iff p word key v json o = (
    λ h.
        try_open-only p word key o.jwe _ o.jwe_seals
          (ap (λ r. r.0) (sym (unlock_opens p word key v o)) ∙ h),
    λ e.
        ap (λ r. r.0) (unlock_opens p word key v o)
        ∙ ap (λ q. (try_open o.jwe q (record v { key = none })).0) e
        ∙ (try_open-right word key o.jwe _ json o.jwe_seals).0,
  )
