-- ===== src/Tests/Sync.antt =====
-- The theorems about packages/agent/src/sync-engine-level.ts at concrete inputs.
use web5_js.Base.{
  ℕ, suc, Text, codes, Option, none, some, List, [], ◌∷◌, Bool, false, ltb, Result, ok, err, ◌≡◌,
  refl, inl, inr, arith, lookup, ◌===◌, ===_refl, if◌then◌else◌,
}
use web5_js.Base.Level.{map_level}
use web5_js.Agent.Sync.Key.{
  SyncMessageParams, IsSeparable, generate_sync_message_params_key, parse_sync_message_params_key,
  parse-generate, parse-generate_tilde,
}
use web5_js.Agent.Sync.Types.{
  SyncError, external, pull, SyncIdentityOptions, Message, Entry, Reply, Host,
}
use web5_js.Agent.Sync.Engine.{Engine}
use web5_js.Agent.Sync.Jobs.{queue, run_pass}
use web5_js.Agent.Sync.Lock.{sync, Stopped, stop_sync, stop_sync-Stopped}
use web5_js.Agent.Sync.Accounted.{IsAccounted}
use web5_js.Agent.Sync.NoLoss.{sync-IsAccounted}
use web5_js.Agent.Sync.Unreachable.{Unreachable, run_pass-Unreachable}

abbrev alice : Text
alice = codes "did:web:a"

abbrev job_params : SyncMessageParams
job_params = record {
  did = alice;
  delegate_did = none;
  dwn_url = codes "https://d";
  protocol = some (codes "p");
  watermark = codes "01";
  message_cid = codes "bafy";
  cursor = some (record { message_cid = codes "bafx"; value = codes "0" });
}

job_params-IsSeparable : IsSeparable job_params
job_params-IsSeparable = record {
  did_clear = ground arith;
  delegate_clear = ground arith;
  url_clear = ground arith;
  protocol_clear = ground arith;
  watermark_clear = ground arith;
  cid_clear = ground arith;
  delegate_given = λ h. cc;
  protocol_given = λ h. cc;
}

parse-generate_example :
    parse_sync_message_params_key (generate_sync_message_params_key job_params)
    ≡ record job_params { cursor = none }
parse-generate_example = parse-generate job_params job_params-IsSeparable

abbrev tilde_params : SyncMessageParams
tilde_params = record job_params { dwn_url = codes "https://d/~u" }

parse-generate_tilde_example :
    (parse_sync_message_params_key (generate_sync_message_params_key tilde_params)).dwn_url
    ≡ codes "https://d/"
parse-generate_tilde_example =
    parse-generate_tilde tilde_params (codes "https://d/") (codes "u") (ground arith) (ground arith)
      (ground arith) refl

-- The lock is freed before the third test.
abbrev freed_later : ℕ → Bool
freed_later n = ltb n 2

stop_sync-Stopped_example : Stopped freed_later 2000 (stop_sync freed_later 2000)
stop_sync-Stopped_example = stop_sync-Stopped freed_later 2000

abbrev message_of : Text → Message
message_of rest = record { interface = codes "Records"; method = codes "Write"; rest = rest }

abbrev reply_of : ℕ → Option Entry → Option (List Text) → Reply
reply_of code entry entries = record {
  code = code;
  entry = entry;
  entries = entries;
  cursor = none;
}

-- One endpoint, which has one message; `World` counts the ULIDs. The endpoints of `did:web:b` cannot
-- be looked up.
abbrev endpoints : Text → Result SyncError (List Text)
endpoints did =
    if did === codes "did:web:b"
    then err (external (codes "notFound"))
    else ok (codes "https://d" ∷ [])

abbrev one_entry : Option Entry
one_entry = some (record { message = some (message_of (codes "m")); content = some (codes "data") })

abbrev one_peer : Host
one_peer = record {
  World = ℕ;
  identities = map_level SyncIdentityOptions;
  cursors = map_level _;
  texts = map_level Text;
  endpoint_urls = λ did w. (endpoints did, w);
  find_grant = λ _ _ _ _ w. (ok (codes "grant"), w);
  process_request = λ _ w. (ok (message_of (codes "read"), reply_of 200 one_entry none), w);
  send_dwn_request = λ _ _ _ _ w. (ok (reply_of 200 one_entry (some (codes "bafz" ∷ []))), w);
  process_message = λ _ _ _ w. (ok (reply_of 202 none none), w);
  ulid = λ w. (w ∷ [], suc w);
}

abbrev plain_options : SyncIdentityOptions
plain_options = record { delegate_did = none; protocols = [] }

abbrev job_key : Text
job_key = generate_sync_message_params_key job_params

abbrev one_job : Engine one_peer
one_job = record {
  registered_identities = (alice, plain_options) ∷ [];
  cursors = [];
  history = λ _. [];
  push_queue = [];
  pull_queue = (job_key, []) ∷ [];
  sync_lock = false;
  world = 0;
}

one_job-IsAccounted : IsAccounted one_peer pull job_key one_job
unfolding lookup
one_job-IsAccounted = record { place = inl (rw (===_refl job_key) refl) }

sync-IsAccounted_example : IsAccounted one_peer pull job_key (sync one_peer (some pull) one_job).1
sync-IsAccounted_example =
    sync-IsAccounted one_peer pull job_key (some pull) one_job one_job-IsAccounted

abbrev two_identities : Engine one_peer
two_identities = record one_job {
  registered_identities = (alice, plain_options) ∷ (codes "did:web:b", plain_options) ∷ [];
}

second-Unreachable : Unreachable one_peer (codes "did:web:b", plain_options)
unfolding ◌===◌
second-Unreachable w = (external (codes "notFound"), refl)

run_pass-Unreachable_example :
    (x : SyncError) × ((run_pass one_peer pull two_identities).0 ≡ err x)
    × (queue one_peer pull (run_pass one_peer pull two_identities).1
        ≡ queue one_peer pull two_identities)
run_pass-Unreachable_example =
    run_pass-Unreachable one_peer pull pull two_identities (inr (inl second-Unreachable))
