-- ===== src/Agent/Sync/Unreachable.antt =====
-- A pass in which the endpoints of a registered identity cannot be looked up.
use web5_js.Base.{Text, List, [], ◌∷◌, err, ◌≡◌, refl, ap, ◌∙◌, inl, inr, Any}
use web5_js.Base.Exec.{
  Keeps, Keeps-pure, Keeps-gets, Keeps-bind, bind-ok, bind-err, bind-gets, Result-cases,
}
use web5_js.Agent.Sync.Types.{SyncError, SyncDirection, push, pull, SyncIdentityOptions, Host}
use web5_js.Agent.Sync.Engine.{Engine, call}
use web5_js.Agent.Sync.Peers.{peers_of, get_sync_peer_state, identity_peers}
use web5_js.Agent.Sync.Jobs.{run_pass, queue}

-- Whatever the host's state, the lookup throws.
abbrev pub Unreachable : (host : Host) → Text × SyncIdentityOptions → Type 0
Unreachable host (did, _) =
    (w : host.World) → (x : SyncError) × ((host.endpoint_urls did w).0 ≡ err x)

module _ (host : Host) where
  queue-world :
      (c : SyncDirection) (e : Engine host) (w : host.World)
      → queue host c (record e { world = w }) ≡ queue host c e
  queue-world pull e w = refl
  queue-world push e w = refl

  call-queue :
      (did : Text) (q : host.texts.Store) (c : SyncDirection)
      → Keeps (λ e. queue host c e ≡ q) (call host (host.endpoint_urls did))
  unfolding call
  call-queue did q c = record { holds = λ e h. queue-world c e _ ∙ h }

module _ (host : Host) where
  peers_of-throws :
      (d : SyncDirection) (registered : List (Text × SyncIdentityOptions)) (e : Engine host)
      → Any (Unreachable host) registered
      → (x : SyncError) × ((peers_of host d registered e).0 ≡ err x)
  unfolding peers_of call
  peers_of-throws d [] e h = elim h [ ]
  peers_of-throws d ((did, options) ∷ rest) e (inl h) =
      let (x, k) = h e.world in
      (x, ap (λ p. p.0) (bind-err (call host (host.endpoint_urls did)) _ e k))
  peers_of-throws d ((did, options) ∷ rest) e (inr h) =
      let first = call host (host.endpoint_urls did) in
      elim (Result-cases (first e).0) [
        | inr (x, k) ↦ (x, ap (λ p. p.0) (bind-err first _ e k))
        | inl (urls, k) ↦
            let e' = (first e).1 in
            let (x, thrown) = peers_of-throws d rest e' h in
            (
              x,
              ap (λ p. p.0)
                  (bind-ok first _ e k
                    ∙ bind-gets (identity_peers host did options d urls) _ e'
                    ∙ bind-err (peers_of host d rest) _ e' thrown),
            )
      ]

  peers_of-KeepsStores :
      (d : SyncDirection) (registered : List (Text × SyncIdentityOptions)) (q : host.texts.Store)
      (c : SyncDirection)
      → Keeps (λ e. queue host c e ≡ q) (peers_of host d registered)
  unfolding peers_of
  peers_of-KeepsStores d [] q c = Keeps-pure []
  peers_of-KeepsStores d ((did, options) ∷ rest) q c =
      Keeps-bind _ _ (call-queue host did q c) λ urls.
        Keeps-bind _ _ (Keeps-gets _)
          λ mine. Keeps-bind _ _ (peers_of-KeepsStores d rest q c) λ others. Keeps-pure _

-- If the lookup of the DWN endpoints always throws for one of the registered identities, the whole pass
-- throws, and both queues are the same after it as before.
pub run_pass-Unreachable :
    (host : Host) (d c : SyncDirection) (e : Engine host)
    → Any (Unreachable host) (host.identities.entries e.registered_identities)
    → (x : SyncError) × ((run_pass host d e).0 ≡ err x)
      × (queue host c (run_pass host d e).1 ≡ queue host c e)
unfolding run_pass get_sync_peer_state
run_pass-Unreachable host d c e h =
    let registered = host.identities.entries e.registered_identities in
    let (x, thrown) = peers_of-throws host d registered e h in
    let whole =
      bind-err (get_sync_peer_state host d) _ e
        (ap (λ p. p.0) (bind-gets _ (peers_of host d) e) ∙ thrown) in
    (
      x,
      ap (λ p. p.0) whole,
      ap (λ p. queue host c p.1) whole
          ∙ ap (λ p. queue host c p.1) (bind-gets _ (peers_of host d) e)
          ∙ (peers_of-KeepsStores host d registered (queue host c e) c).holds e refl,
    )
