-- ===== src/Agent/Sync/Key.antt =====
-- The keys of the sync queues: `generateSyncMessageParamsKey` and `parseSyncMessageParamsKey` of
-- packages/agent/src/sync-engine-level.ts.
use web5_js.Base.{
  ℕ, zero, suc, Text, Option, none, some, List, [], ◌∷◌, ◌++◌, ◌≡◌, ◌≢◌, refl, Lacks, split, join,
  split-join, split-cut, append_assoc,
}
use web5_js.Agent.Sync.Types.{PaginationCursor}

pub record SyncMessageParams : Type 0 where
  pub did : Text
  pub delegate_did : Option Text
  pub dwn_url : Text
  pub protocol : Option Text
  pub watermark : Text
  pub message_cid : Text
  -- of the query that found the message; the key leaves it out
  pub cursor : Option PaginationCursor

-- `[a, undefined].join('~')` writes nothing for `undefined`.
abbrev pub or_empty : Option Text → Text
or_empty none = []
or_empty (some s) = s

-- `s === '' ? undefined : s`
abbrev pub un_empty : Text → Option Text
un_empty [] = none
un_empty (c ∷ s) = some (c ∷ s)

abbrev pub tilde : ℕ
tilde = b'~'

unfoldable pub generate_sync_message_params_key : SyncMessageParams → Text
generate_sync_message_params_key p = join tilde (
    p.did
    ∷ or_empty p.delegate_did
    ∷ p.dwn_url
    ∷ or_empty p.protocol
    ∷ p.watermark
    ∷ p.message_cid
    ∷ [])

-- The piece at a place of the destructured array. A key with fewer than six pieces, which the
-- source reads as `undefined` there, is never in a queue: `join` writes five separators.
unfoldable pub piece : List Text → ℕ → Text
piece [] i = []
piece (s ∷ ss) zero = s
piece (s ∷ ss) (suc i) = piece ss i

unfoldable pub parse_sync_message_params_key : Text → SyncMessageParams
unfolding piece
parse_sync_message_params_key key =
    let pieces = split tilde key in
    record {
      did = piece pieces 0;
      delegate_did = un_empty (piece pieces 1);
      dwn_url = piece pieces 2;
      protocol = un_empty (piece pieces 3);
      watermark = piece pieces 4;
      message_cid = piece pieces 5;
      cursor = none;
    }

-- No part of the parameters holds the separator, and an optional part is not the empty string.
pub record IsSeparable (p : SyncMessageParams) : Type 0 where
  pub did_clear : Lacks tilde p.did
  pub delegate_clear : Lacks tilde (or_empty p.delegate_did)
  pub url_clear : Lacks tilde p.dwn_url
  pub protocol_clear : Lacks tilde (or_empty p.protocol)
  pub watermark_clear : Lacks tilde p.watermark
  pub cid_clear : Lacks tilde p.message_cid
  pub delegate_given : p.delegate_did ≢ some []
  pub protocol_given : p.protocol ≢ some []

un_empty-or_empty : (o : Option Text) → o ≢ some [] → un_empty (or_empty o) ≡ o
un_empty-or_empty none h = refl
un_empty-or_empty (some []) h = absurd (h refl)
un_empty-or_empty (some (c ∷ s)) h = refl

split-generate :
    (p : SyncMessageParams)
    → IsSeparable p
    → split tilde (generate_sync_message_params_key p)
      ≡ p.did
        ∷ or_empty p.delegate_did
        ∷ p.dwn_url
        ∷ or_empty p.protocol
        ∷ p.watermark
        ∷ p.message_cid
        ∷ []
unfolding generate_sync_message_params_key
split-generate p v =
    split-join tilde p.did
      (or_empty p.delegate_did ∷ p.dwn_url ∷ or_empty p.protocol ∷ p.watermark ∷ p.message_cid ∷ [])
      (
        v.did_clear,
        (
          v.delegate_clear,
          (v.url_clear, (v.protocol_clear, (v.watermark_clear, (v.cid_clear, tt)))),
        ),
      )

-- A queue key is read back as the parameters that it was made from but for the cursor, which is read
-- as not given, if no part of them holds the separator `~` and no optional part is the empty string.
pub parse-generate :
    (p : SyncMessageParams)
    → IsSeparable p
    → parse_sync_message_params_key (generate_sync_message_params_key p)
      ≡ record p { cursor = none }
unfolding parse_sync_message_params_key piece
parse-generate p v = rw (split-generate p v) (
    rw
      (
        un_empty-or_empty p.delegate_did v.delegate_given,
        un_empty-or_empty p.protocol v.protocol_given,
      )
      refl)

-- A url with a `~` is read back from a queue key as its part before the first `~`, if the DID and the
-- delegate DID hold none.
pub parse-generate_tilde :
    (p : SyncMessageParams) (before after : Text)
    → Lacks tilde p.did
    → Lacks tilde (or_empty p.delegate_did)
    → Lacks tilde before
    → p.dwn_url ≡ before ++ (tilde ∷ after)
    → (parse_sync_message_params_key (generate_sync_message_params_key p)).dwn_url ≡ before
unfolding generate_sync_message_params_key parse_sync_message_params_key piece join
parse-generate_tilde p before after h k l e =
    rw (e, append_assoc, split-cut tilde p.did _ h, split-cut tilde (or_empty p.delegate_did) _ k)
      (rw (split-cut tilde before _ l) refl)
