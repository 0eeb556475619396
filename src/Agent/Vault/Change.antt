-- ===== src/Agent/Vault/Change.antt =====
-- `changePassword` sets the password that opens the vault
-- (packages/agent/src/hd-identity-vault.ts).
use web5_js.Base.{
  Text, none, Bool, true, false, truthy, Result, ok, err, ◌≡◌, ◌↔◌, refl, sym, ap, ◌∙◌, inl, inr,
}
use web5_js.Base.Exec.{
  pure, throw, attempt, bind, continue, bind-step, bind-ran, Result-cases, Keeps, Keeps-bind,
  Keeps-pure, Keeps-attempt,
}
use web5_js.Agent.Vault.Types.{
  VaultError, incorrect_old_password, Status, password, Header, Host, Vault, IsJson, IsAead,
  IsSealed,
}
use web5_js.Agent.Vault.Access.{
  check, VaultExec, call, lift_result, put, read_status, get_status, is_initialized, set_key,
  get_stored_cek, lock, open_key, or_throw, unlock, reseal, change_password, status_key, cek_key,
}
use web5_js.Agent.Vault.Contents.{Entries-all, Entries-cek}
use web5_js.Agent.Vault.Password.{IsMarked, IsOpenable, lock-IsMarked, unlock_iff}

module _ (host : Host) where
  -- The store is another one's.
  abbrev pub Stores : host.texts.Store → Vault host → Type 0
  Stores s v = v.store ≡ s

  pub call-Stores :
      {A : Type 0} (s : host.texts.Store) (f : host.World → Result VaultError A × host.World)
      → Keeps (Stores s) (call host f)
  unfolding call
  call-Stores s f = record { holds = λ v h. h }

  pub lift_result-Stores :
      {A : Type 0} (s : host.texts.Store) (r : Result VaultError A)
      → Keeps (Stores s) (lift_result host r)
  unfolding lift_result
  lift_result-Stores s r = record { holds = λ v h. h }

  pub open_key-Stores :
      (s : host.texts.Store) (jwe word : Text) → Keeps (Stores s) (open_key host jwe word)
  unfolding open_key
  open_key-Stores s jwe word =
      Keeps-bind _ _ (call-Stores s _)
        λ _. Keeps-bind _ _ (lift_result-Stores s _) λ _. Keeps-pure _

  abbrev pub initialized_of : Result VaultError Status → Result VaultError Bool
  initialized_of (ok s) = ok s.initialized
  initialized_of (err e) = err e

  pub is_initialized_lem :
      (v : Vault host)
      → is_initialized host v
        ≡ (initialized_of (read_status host (host.texts.get status_key v.store)), v)
  unfolding is_initialized get_status bind continue pure
  is_initialized_lem v =
      elim (Result-cases (read_status host (host.texts.get status_key v.store))) [
        | inl (s, e) ↦ rw e refl
        | inr (x, e) ↦ rw e refl
      ]

  pub IsMarked-read :
      (v : Vault host) (r : Result VaultError Status)
      → read_status host (host.texts.get status_key v.store) ≡ r
      → initialized_of r ≡ ok true
      → IsMarked host v
  IsMarked-read v (ok s) e h = record { status = s; stored = e; initialized = cc }
  IsMarked-read v (err x) e h = cc

  pub IsMarked-initialized :
      (v : Vault host) → (is_initialized host v).0 ≡ ok true → IsMarked host v
  IsMarked-initialized v h = IsMarked-read v _ refl (ap (λ p. p.0) (sym (is_initialized_lem v)) ∙ h)

  pub IsMarked-store : (v u : Vault host) → u.store ≡ v.store → IsMarked host v → IsMarked host u
  IsMarked-store v u e i = record {
    status = i.status;
    stored = ap (λ s. read_status host (host.texts.get status_key s)) e ∙ i.stored;
    initialized = i.initialized;
  }

  -- A vault with the key, encrypted with a password, in the store of an initialized one
  pub IsOpenable-put :
      (word key jwe : Text) (v u : Vault host)
      → IsMarked host v
      → IsSealed host (password word) (host.key_to_text key) jwe
      → truthy jwe ≡ true
      → u.store ≡ host.texts.put cek_key jwe v.store
      → IsOpenable host word key u
  IsOpenable-put word key jwe v u i seal given e =
      let written = Entries-cek host jwe v.store (Entries-all host v.store) in
      record {
        set = record {
          status = i.status;
          stored =
              ap (λ s. read_status host (host.texts.get status_key s)) e
              ∙ ap (read_status host) written.of_status
              ∙ i.stored;
          initialized = i.initialized;
        };
        jwe = jwe;
        stored = ap (host.texts.get cek_key) e ∙ written.of_cek;
        given = given;
        jwe_seals = seal;
      }

  pub reseal-IsOpenable :
      (new_password key : Text) (header : Header) (v v' : Vault host)
      → IsAead host
      → IsMarked host v
      → reseal host new_password header key v ≡ (ok tt, v')
      → IsOpenable host new_password key v'
  unfolding reseal put set_key bind continue call
  reseal-IsOpenable new_password key header v v' aead i h =
      let encrypted =
        call host (host.encrypt (password new_password) header (host.key_to_text key)) in
      let (jwe, made, rest) = bind-ran encrypted _ v v' tt h in
      let (seal, given) =
        aead.encrypt_seals (password new_password) header (host.key_to_text key) jwe v.world made in
      IsOpenable-put new_password key jwe v v' i seal given (sym (ap (λ p. p.1.store) rest))

  pub checked :
      (i : Bool) (e : VaultError) {A : Type 0} (f : Unit {0} → VaultExec host A) (v v' : Vault host)
      (a : A)
      → bind (check host i e) f v ≡ (ok a, v')
      → (i ≡ true) × (f tt v ≡ (ok a, v'))
  unfolding bind continue pure throw
  checked true e f v v' a h = (refl, h)
  checked false e f v v' a h = cc

  pub caught :
      {A B : Type 0} (e : VaultError) (r : Result VaultError B) (f : B → VaultExec host A)
      (v v' : Vault host) (a : A)
      → bind (or_throw host e r) f v ≡ (ok a, v')
      → (b : B) × (r ≡ ok b) × (f b v ≡ (ok a, v'))
  unfolding bind continue pure throw
  caught e (ok b) f v v' a h = (b, refl, h)
  caught e (err x) f v v' a h = cc

  pub initialized_step :
      {A : Type 0} (f : Bool → VaultExec host A) (v v' : Vault host) (a : A)
      → bind (is_initialized host) f v ≡ (ok a, v')
      → (i : Bool) × ((is_initialized host v).0 ≡ ok i) × (f i v ≡ (ok a, v'))
  initialized_step f v v' a h =
      let (i, e, rest) = bind-ran (is_initialized host) f v v' a h in
      (i, e, ap (f i) (sym (ap (λ p. p.1) (is_initialized_lem v))) ∙ rest)

  pub change_password-ran :
      (old_password new_password : Text) (v v' : Vault host)
      → change_password host old_password new_password v ≡ (ok tt, v')
      → IsMarked host v
        × ((key : Text) × (header : Header) × (u : Vault host) × (u.store ≡ v.store)
            × (reseal host new_password header key u ≡ (ok tt, v')))
  unfolding change_password get_stored_cek bind continue
  change_password-ran old_password new_password v v' h =
      let (i, e, h₁) = initialized_step _ v v' tt h in
      let (set, h₂) = checked i _ _ v v' tt h₁ in
      let is_set = IsMarked-initialized v (e ∙ ap ok set) in
      let h₃ = sym (bind-step (lock host) _ v _ tt (lock-IsMarked host v is_set)) ∙ h₂ in
      let v₁ = record v { key = none } in
      let (jwe, _, h₄) = bind-ran (get_stored_cek host) _ v₁ v' tt h₃ in
      let opening = attempt (open_key host jwe old_password) in
      let (opened, _, h₅) = bind-ran opening _ v₁ v' tt h₄ in
      let ((key, header), _, h₆) = caught incorrect_old_password opened _ (opening v₁).1 v' tt h₅ in
      let same = (Keeps-attempt _ (open_key-Stores v.store jwe old_password)).holds v₁ refl in
      (is_set, (key, header, (opening v₁).1, same, h₆))

  pub change_password-IsOpenable :
      (old_password new_password : Text) (v v' : Vault host)
      → IsAead host
      → change_password host old_password new_password v ≡ (ok tt, v')
      → (key : Text) × IsOpenable host new_password key v'
  change_password-IsOpenable old_password new_password v v' aead h =
      let (set, (key, header, u, same, resealed)) =
        change_password-ran old_password new_password v v' h in
      (
        key,
        reseal-IsOpenable new_password key header u v' aead (IsMarked-store v u same set) resealed,
      )

  -- After `changePassword` returned, the new password unlocks the vault, and no other one does.
  pub change_password-unlock :
      (old_password new_password p : Text) (v v' : Vault host)
      → IsJson host
      → IsAead host
      → change_password host old_password new_password v ≡ (ok tt, v')
      → ((unlock host p v').0 ≡ ok tt) ↔ (p ≡ new_password)
  change_password-unlock old_password new_password p v v' json aead h =
      let (key, o) = change_password-IsOpenable old_password new_password v v' aead h in
      unlock_iff host p new_password key v' json o
