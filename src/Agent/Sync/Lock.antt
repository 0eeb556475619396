-- ===== src/Agent/Sync/Lock.antt =====
-- `sync` and `stopSync` of packages/agent/src/sync-engine-level.ts. The interval timer of
-- `startSync` is not modelled: what it runs is `sync`.
use web5_js.Base.{
  ℕ, zero, suc, ◌+◌, ◌*◌, ◌/◌, ◌≤◌, ◌<◌, Option, none, some, Bool, true, false, leb, ltb,
  if◌then◌else◌, Result, ok, err, arith, ◌≡◌, Bool-cases, inl, inr, ◌==◌, ==_iff, subst, sym,
}
use web5_js.Base.Exec.{Exec, ◌>>◌}
use web5_js.Agent.Sync.Types.{
  SyncError, in_progress, not_completed, SyncDirection, push, pull, Host,
}
use web5_js.Agent.Sync.Engine.{Engine}
use web5_js.Agent.Sync.Jobs.{run_pass}

module _ (host : Host) where
  -- The body of the `try`: the pushes, then the pulls.
  unfoldable pub run_passes : Option SyncDirection → Exec SyncError (Engine host) (Unit {0})
  run_passes none = do run_pass host push; run_pass host pull
  run_passes (some d) = run_pass host d

  -- `finally` frees the lock, whether the passes threw or not.
  unfoldable pub sync_if : Bool → Option SyncDirection → Exec SyncError (Engine host) (Unit {0})
  sync_if true direction e = (err in_progress, e)
  sync_if false direction e =
      let (r, e') = run_passes direction record e { sync_lock = true } in
      (r, record e' { sync_lock = false })

  unfoldable pub sync : Option SyncDirection → Exec SyncError (Engine host) (Unit {0})
  unfolding sync_if
  sync direction e = sync_if e.sync_lock direction e

-- The loop of `stopSync`. `lock n` is what the lock reads on the n-th test, `waited` the milliseconds
-- slept so far; the result comes with the tests made and that time. `none`: the fuel ran out.
unfoldable pub stop_loop :
    ℕ → (ℕ → Bool) → ℕ → ℕ → ℕ → ℕ → Option (Result SyncError (Unit {0}) × ℕ × ℕ)
stop_loop zero lock timeout elapsed n waited = none
stop_loop (suc fuel) lock timeout elapsed n waited =
    let again =
      stop_loop fuel lock timeout (elapsed + 100) (suc n)
        (waited + (if ltb timeout 100 then timeout else 100)) in
    if lock n
    then (if leb timeout elapsed then some (err (not_completed timeout), n, waited) else again)
    else some (ok tt, n, waited)

unfoldable pub stop_sync : (ℕ → Bool) → ℕ → Option (Result SyncError (Unit {0}) × ℕ × ℕ)
unfolding stop_loop
stop_sync lock timeout = stop_loop (timeout / 100 + 2) lock timeout 0 0 0

-- How `stopSync` may end: the lock is free on the last test and on none before, or it was held on every test up to the
-- first one at which the time is up. The time slept is the timeout, rounded up to a round, at most.
pub data Stopped (lock : ℕ → Bool) (timeout : ℕ)
    : Option (Result SyncError (Unit {0}) × ℕ × ℕ) → Type 0 where
  freed :
      {n waited : ℕ}
      → ((i : ℕ) → i < n → lock i ≡ true)
      → lock n ≡ false
      → waited < timeout + 100
      → Stopped lock timeout (some (ok tt, n, waited))
  timed_out :
      {n waited : ℕ}
      → ((i : ℕ) → i ≤ n → lock i ≡ true)
      → timeout ≤ waited
      → waited < timeout + 100
      → Stopped lock timeout (some (err (not_completed timeout), n, waited))

-- The time slept before the n-th test.
abbrev slept : ℕ → ℕ → ℕ
slept timeout n = if ltb timeout 100 then (if n == 0 then 0 else timeout) else 100 * n

held_up_to :
    (lock : ℕ → Bool) (n : ℕ)
    → ((i : ℕ) → i < n → lock i ≡ true)
    → lock n ≡ true
    → (i : ℕ) → i < suc n
    → lock i ≡ true
held_up_to lock n held now i h = elim (Bool-cases (i == n)) [
  | inl same ↦ subst (λ k. lock k ≡ true) (sym ((==_iff i n).0 same)) now
  | inr other ↦ held i (ground arith)
]

stop_loop-Stopped :
    (fuel : ℕ) (lock : ℕ → Bool) (timeout elapsed n waited : ℕ)
    → elapsed ≡ 100 * n
    → timeout + 100 ≤ 100 * n + 100 * fuel
    → 100 * n < timeout + 100
    → waited ≡ slept timeout n
    → ((i : ℕ) → i < n → lock i ≡ true)
    → Stopped lock timeout (stop_loop fuel lock timeout elapsed n waited)
unfolding stop_loop
stop_loop-Stopped zero lock timeout elapsed n waited e h k w held = absurd (omega arith)
stop_loop-Stopped (suc fuel) lock timeout elapsed n waited e h k w held =
    elim (Bool-cases (lock n)) [
      | inr free ↦ rw free (freed held free (ground arith))
      | inl now ↦ elim (Bool-cases (leb timeout elapsed)) [
        | inl over ↦
            rw (now, over)
              (timed_out (λ i le. held_up_to lock n held now i (omega arith)) (ground arith)
                (ground arith))
        | inr more ↦
            rw (now, more)
              (stop_loop-Stopped fuel lock timeout (elapsed + 100) (suc n) _ (omega arith)
                (omega arith) (ground arith) (ground arith) (held_up_to lock n held now))
      ]
    ]

-- `stopSync` ends for every behaviour of the lock, with the fuel of `timeout / 100 + 2` tests: it
-- returns on the first test that finds the lock free, and throws if the lock was held on every test
-- for at least the timeout. It sleeps for less than 100 milliseconds more than the timeout.
pub stop_sync-Stopped :
    (lock : ℕ → Bool) (timeout : ℕ) → Stopped lock timeout (stop_sync lock timeout)
unfolding stop_sync
stop_sync-Stopped lock timeout =
    stop_loop-Stopped (timeout / 100 + 2) lock timeout 0 0 0 (omega arith) (omega arith)
      (omega arith) (ground arith) (λ i h. absurd (omega arith))
