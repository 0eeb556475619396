-- ===== src/Agent/Sync/Engine.antt =====
-- The state of `SyncEngineLevel` and its access to the database
-- (packages/agent/src/sync-engine-level.ts). A failing write of the database is not modelled.
use web5_js.Base.{
  Text, codes, Option, none, some, [], ◌++◌, Bool, true, false, ◌===◌, if◌then◌else◌, truthy,
  Result,
}
use web5_js.Base.Exec.{Exec, throw, gets, modify, ◌>>=◌, bind}
use web5_js.Agent.Sync.Types.{
  SyncError, SyncDirection, push, pull, SyncIdentityOptions, PaginationCursor, Host,
  already_registered, not_registered,
}

-- The sublevels and the fields of the class. `history` has one message store for each DID.
pub record Engine (host : Host) : Type 0 where
  pub registered_identities : host.identities.Store
  pub cursors : host.cursors.Store
  pub history : Text → host.texts.Store
  pub push_queue : host.texts.Store
  pub pull_queue : host.texts.Store
  pub sync_lock : Bool
  pub world : host.World

abbrev pub direction_name : SyncDirection → Text
direction_name push = codes "push"
direction_name pull = codes "pull"

-- `${did}~${dwnUrl}~${direction}-${protocol}`, or without the protocol
unfoldable pub cursor_key : Text → Text → SyncDirection → Option Text → Text
cursor_key did dwn_url direction protocol =
    let base = did ++ (codes "~" ++ (dwn_url ++ (codes "~" ++ direction_name direction))) in
    elim protocol [ none ↦ base | some p ↦ if truthy p then base ++ (codes "-" ++ p) else base ]

module _ (host : Host) where
  unfoldable pub get_cursor :
      Text → Text → SyncDirection → Option Text → Engine host → Option PaginationCursor
  get_cursor did dwn_url direction protocol e =
      host.cursors.get (cursor_key did dwn_url direction protocol) e.cursors

  unfoldable pub set_cursor :
      Text → Text → SyncDirection → PaginationCursor → Option Text → Engine host → Engine host
  set_cursor did dwn_url direction cursor protocol e = record e {
    cursors = host.cursors.put (cursor_key did dwn_url direction protocol) cursor e.cursors;
  }

  abbrev pub has_text : Option Text → Bool
  has_text none = false
  has_text (some _) = true

  unfoldable pub message_exists : Text → Text → Engine host → Bool
  message_exists did cid e = has_text (host.texts.get cid (e.history did))

  unfoldable pub add_message : Text → Text → Engine host → Engine host
  add_message did cid e = record e {
    history = λ d. if did === d then host.texts.put cid [] (e.history d) else e.history d;
  }

  -- A call of what the host provides, which may throw and may change the host's state.
  unfoldable pub call :
      {A : Type 0} → (host.World → Result SyncError A × host.World) → Exec SyncError (Engine host) A
  call f e = let (r, w) = f e.world in (r, record e { world = w })

  -- The options are stored as JSON and read back.
  unfoldable pub get_identity_options : Text → Engine host → Option SyncIdentityOptions
  get_identity_options did e = host.identities.get did e.registered_identities

  abbrev given_options : Option SyncIdentityOptions → SyncIdentityOptions
  given_options none = record { delegate_did = none; protocols = [] }
  given_options (some options) = options

  put_identity : Text → SyncIdentityOptions → Engine host → Engine host
  put_identity did options e = record e {
    registered_identities = host.identities.put did options e.registered_identities;
  }

  unfoldable pub register_identity :
      Text → Option SyncIdentityOptions → Exec SyncError (Engine host) (Unit {0})
  unfolding put_identity get_identity_options bind gets throw modify
  register_identity did options = do
    existing ← gets (get_identity_options did)
    elim existing [
      | some _ ↦ throw (already_registered did)
      | none ↦ modify (put_identity did (given_options options))
    ]

  unfoldable pub unregister_identity : Text → Exec SyncError (Engine host) (Unit {0})
  unfolding get_identity_options bind gets throw modify
  unregister_identity did = do
    existing ← gets (get_identity_options did)
    elim existing [
      | none ↦ throw (not_registered did)
      | some _ ↦ modify (λ e. record e {
        registered_identities = host.identities.del did e.registered_identities;
      })
    ]

  unfoldable pub update_identity_options :
      Text → SyncIdentityOptions → Exec SyncError (Engine host) (Unit {0})
  unfolding put_identity get_identity_options bind gets throw modify
  update_identity_options did options = do
    existing ← gets (get_identity_options did)
    elim existing [ none ↦ throw (not_registered did) | some _ ↦ modify (put_identity did options) ]
