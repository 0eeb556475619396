-- ===== src/Agent/Vault/Initialize.antt =====
-- `initialize` sets the password that opens the vault (packages/agent/src/hd-identity-vault.ts).
use web5_js.Base.{
  Text, Option, some, List, true, not, truthy, Result, ok, ◌≡◌, ◌↔◌, refl, ap, subst, ◌∙◌,
}
use web5_js.Base.Exec.{pure, bind, continue, bind-ran, bind-eq-ok, Keeps, Keeps-bind}
use web5_js.Agent.Vault.Types.{
  VaultError, password, password_header, Host, Vault, IsJson, IsAead, IsSealed,
}
use web5_js.Agent.Vault.Access.{
  call, put, read_status, set_status, set_key, unlock, merge_status, status_key, cek_key,
}
use web5_js.Agent.Vault.Create.{
  is_blank, is_blank_phrase, phrase_or_new, store_key, store_did, create_contents, initialize,
  none_changed,
}
use web5_js.Agent.Vault.Contents.{
  Entries-all, Entries-status, Entries-cek, Entries-did, read_status-written, set_status-ran,
}
use web5_js.Agent.Vault.Password.{IsOpenable, unlock_iff}
use web5_js.Agent.Vault.Change.{checked, initialized_step}

module _ (host : Host) where
  -- The end of `initialize`, once the key is stored
  unlocked_end :
      (word key jwe : Text) (v v' : Vault host)
      → IsJson host
      → IsSealed host (password word) (host.key_to_text key) jwe
      → truthy jwe ≡ true
      → host.texts.get cek_key v.store ≡ some jwe
      → set_status host (record none_changed { initialized = some true }) v ≡ (ok tt, v')
      → IsOpenable host word key v'
  unlocked_end word key jwe v v' json seal given stored h =
      let (s, _, e) = set_status-ran host _ v v' h in
      let new = merge_status (record none_changed { initialized = some true }) s in
      let written =
        Entries-status host (host.status_to_text new) v.store (Entries-all host v.store) in
      record {
        set = record {
          status = new;
          stored =
              ap (λ u. read_status host (host.texts.get status_key u.store)) e
              ∙ ap (read_status host) written.of_status
              ∙ read_status-written host new json;
          initialized = unfold merge_status in refl;
        };
        jwe = jwe;
        stored = ap (λ u. host.texts.get cek_key u.store) e ∙ written.of_cek ∙ stored;
        given = given;
        jwe_seals = seal;
      }

  -- The store has the JWE for the content encryption key.
  abbrev HasCek : Text → Vault host → Type 0
  HasCek jwe v = host.texts.get cek_key v.store ≡ some jwe

  call-HasCek :
      {A : Type 0} (jwe : Text) (f : host.World → Result VaultError A × host.World)
      → Keeps (HasCek jwe) (call host f)
  unfolding call
  call-HasCek jwe f = record { holds = λ v h. h }

  store_did-HasCek : (jwe key did : Text) → Keeps (HasCek jwe) (store_did host key did)
  unfolding store_did put
  store_did-HasCek jwe key did = Keeps-bind _ _ (call-HasCek jwe _) λ t. record {
    holds = λ v h. (Entries-did host t v.store (Entries-all host v.store)).of_cek ∙ h;
  }

  store_key-HasCek :
      (word salt key : Text) (v : Vault host)
      → IsAead host
      → (store_key host word salt key v).0 ≡ ok tt
      → (jwe : Text) × IsSealed host (password word) (host.key_to_text key) jwe
        × (truthy jwe ≡ true)
        × HasCek jwe (store_key host word salt key v).1
  unfolding store_key put call bind continue
  store_key-HasCek word salt key v aead h =
      let encrypted =
        call host (host.encrypt (password word) (password_header salt) (host.key_to_text key)) in
      let (jwe, made, rest) = bind-eq-ok encrypted _ v h in
      let (seal, given) =
        aead.encrypt_seals (password word) (password_header salt) (host.key_to_text key) jwe v.world
          made in
      (jwe, seal, given, rw made ((Entries-cek host jwe v.store (Entries-all host v.store)).of_cek))

  create_contents-IsOpenable :
      (word phrase : Text) (endpoints : List Text) (v v' : Vault host)
      → IsJson host
      → IsAead host
      → create_contents host word phrase endpoints v ≡ (ok tt, v')
      → (key : Text) × IsOpenable host word key v'
  unfolding create_contents set_key
  create_contents-IsOpenable word phrase endpoints v v' json aead h =
      let deriving_key = call host (host.derive_key phrase) in
      let salting = call host (host.derive_salt phrase) in
      let making = call host (host.create_did phrase endpoints) in
      let (key, _, h₁) = bind-ran deriving_key _ v v' tt h in
      let v₁ = (deriving_key v).1 in
      let (salt, _, h₂) = bind-ran salting _ v₁ v' tt h₁ in
      let v₂ = (salting v₁).1 in
      let (_, stored, h₃) = bind-ran (store_key host word salt key) _ v₂ v' tt h₂ in
      let v₃ = (store_key host word salt key v₂).1 in
      let (jwe, seal, given, has) = store_key-HasCek word salt key v₂ aead stored in
      let (did, _, h₄) = bind-ran making _ v₃ v' tt h₃ in
      let v₄ = (making v₃).1 in
      let (_, _, h₅) = bind-ran (store_did host key did) _ v₄ v' tt h₄ in
      let v₅ = (store_did host key did v₄).1 in
      let (_, _, h₆) = bind-ran (set_key host (some key)) _ v₅ v' tt h₅ in
      let has₅ = (store_did-HasCek jwe key did).holds v₄ ((call-HasCek jwe _).holds v₃ has) in
      (key, unlocked_end word key jwe (record v₅ { key = some key }) v' json seal given has₅ h₆)

  -- After `initialize` returned, its password unlocks the vault, and no other one does.
  pub initialize-unlock :
      (word p phrase : Text) (recovery_phrase : Option Text) (endpoints : List Text)
      (v v' : Vault host)
      → IsJson host
      → IsAead host
      → initialize host word recovery_phrase endpoints v ≡ (ok phrase, v')
      → ((unlock host p v').0 ≡ ok tt) ↔ (p ≡ word)
  unfolding initialize pure
  initialize-unlock word p phrase recovery_phrase endpoints v v' json aead h =
      let (i, _, h₁) = initialized_step host _ v v' phrase h in
      let (_, h₂) = checked host (not i) _ _ v v' phrase h₁ in
      let (_, h₃) = checked host (not (is_blank word)) _ _ v v' phrase h₂ in
      let (_, h₄) = checked host (not (is_blank_phrase recovery_phrase)) _ _ v v' phrase h₃ in
      let (chosen, _, h₅) = bind-ran (phrase_or_new host recovery_phrase) _ v v' phrase h₄ in
      let v₅ = (phrase_or_new host recovery_phrase v).1 in
      let (_, h₆) = checked host (host.validate_mnemonic chosen) _ _ v₅ v' phrase h₅ in
      let (_, made, h₇) = bind-ran (create_contents host word chosen endpoints) _ v₅ v' phrase h₆ in
      let made_at = ap (λ r. (r, (create_contents host word chosen endpoints v₅).1)) made in
      let (key, o) = create_contents-IsOpenable word chosen endpoints v₅ _ json aead made_at in
      unlock_iff host p word key v' json (subst (IsOpenable host word key) (ap (λ r. r.1) h₇) o)
