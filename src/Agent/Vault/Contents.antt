-- ===== src/Agent/Vault/Contents.antt =====
-- The three entries of the store of `HdIdentityVault` (packages/agent/src/hd-identity-vault.ts).
use web5_js.Base.{Text, Option, some, ok, ◌===◌, ◌≡◌, refl, sym, ap, ◌∙◌}
use web5_js.Base.Exec.{bind, continue, bind-ran}
use web5_js.Agent.Vault.Types.{Status, Changes, Host, Vault, IsJson}
use web5_js.Agent.Vault.Access.{
  put, read_status, get_status, set_status, merge_status, status_key, cek_key, did_key,
}

module _ (host : Host) where
  -- The entries of a store: status, key and DID
  pub record Entries (s : host.texts.Store) (status cek did : Option Text) : Type 0 where
    pub of_status : host.texts.get status_key s ≡ status
    pub of_cek : host.texts.get cek_key s ≡ cek
    pub of_did : host.texts.get did_key s ≡ did

  pub Entries-all :
      (s : host.texts.Store)
      → Entries s
          (host.texts.get status_key s)
          (host.texts.get cek_key s)
          (host.texts.get did_key s)
  Entries-all s = record { of_status = refl; of_cek = refl; of_did = refl }

  pub Entries-status :
      (t : Text) (s : host.texts.Store) {a b c : Option Text}
      → Entries s a b c
      → Entries (host.texts.put status_key t s) (some t) b c
  unfolding ◌===◌
  Entries-status t s e = record {
    of_status = host.texts.get-put status_key status_key t s;
    of_cek = host.texts.get-put status_key cek_key t s ∙ e.of_cek;
    of_did = host.texts.get-put status_key did_key t s ∙ e.of_did;
  }

  pub Entries-cek :
      (t : Text) (s : host.texts.Store) {a b c : Option Text}
      → Entries s a b c
      → Entries (host.texts.put cek_key t s) a (some t) c
  unfolding ◌===◌
  Entries-cek t s e = record {
    of_status = host.texts.get-put cek_key status_key t s ∙ e.of_status;
    of_cek = host.texts.get-put cek_key cek_key t s;
    of_did = host.texts.get-put cek_key did_key t s ∙ e.of_did;
  }

  pub Entries-did :
      (t : Text) (s : host.texts.Store) {a b c : Option Text}
      → Entries s a b c
      → Entries (host.texts.put did_key t s) a b (some t)
  unfolding ◌===◌
  Entries-did t s e = record {
    of_status = host.texts.get-put did_key status_key t s ∙ e.of_status;
    of_cek = host.texts.get-put did_key cek_key t s ∙ e.of_cek;
    of_did = host.texts.get-put did_key did_key t s;
  }

  -- A status that was written is read.
  pub read_status-written :
      (s : Status) → IsJson host → read_status host (some (host.status_to_text s)) ≡ ok s
  read_status-written s json = rw (json.status_given s, json.status_back s) refl

  abbrev pub with_status : Status → Vault host → Vault host
  with_status s v = record v { store = host.texts.put status_key (host.status_to_text s) v.store }

  pub set_status-ok :
      (c : Changes) (v : Vault host) (s : Status)
      → read_status host (host.texts.get status_key v.store) ≡ ok s
      → set_status host c v ≡ (ok tt, with_status (merge_status c s) v)
  unfolding set_status get_status put bind continue
  set_status-ok c v s e = rw e refl

  pub set_status-ran :
      (c : Changes) (v v' : Vault host)
      → set_status host c v ≡ (ok tt, v')
      → (s : Status) × (read_status host (host.texts.get status_key v.store) ≡ ok s)
        × (v' ≡ with_status (merge_status c s) v)
  unfolding set_status get_status put
  set_status-ran c v v' h =
      let (s, e, rest) = bind-ran (get_status host) _ v v' tt h in (s, e, sym (ap (λ p. p.1) rest))
