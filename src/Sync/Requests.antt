-- ===== src/Sync/Requests.antt =====
-- src/server/services/connection-sync.ts: the requests, each up to its first `await`, the view of a
-- connection, the rows that `drain` takes, and the actions of the whole component.
use outpost_vpn_server.Prelude.{
  ℕ, String, Option, none, some, List, Bool, true, false, [], ◌∷◌, ◌&&◌, ◌||◌, if◌then◌else◌, ◌==◌,
  leb, is_none, take, map, rows_where,
}
use outpost_vpn_server.Db.{
  Connection, ConnectionStatus, SyncJob, SyncKind, SyncStatus, Db, service, Result, ok, err, ◌>>=◌,
  ◌>>◌, guard, is_active, is_claimable, is_failed, update_jobs,
}
use outpost_vpn_server.Connections
use outpost_vpn_server.Connections.{Crypto, Fresh, CreateData, UpdateData, get}
use outpost_vpn_server.Sync.{
  System, kind_is, is_suspend, is_resume, open_job, latest_job, recover_interrupted, run, begin,
  settle,
}

abbrev pub is_provisioning : ConnectionStatus → Bool
is_provisioning ConnectionStatus.provisioning = true
is_provisioning _ = false

abbrev pub is_archived : ConnectionStatus → Bool
is_archived ConnectionStatus.archived = true
is_archived _ = false

unfoldable pub activate_request : System → ℕ → ℕ → Result System
activate_request s id now = do
  connection ← get s.db id false
  (if is_active connection.status
      then ok s
      else do guard (is_provisioning connection.status) (service 409); ok (run s id true now))

-- WHERE id = ? AND status = 'failed'
unfoldable pub requeue : ℕ → ℕ → Db → Db
requeue id now =
    update_jobs (λ j. j.id == id && is_failed j.status)
      (λ j. record j {
        status = SyncStatus.pending;
        next_attempt_at = now;
        last_error = none;
        updated_at = now;
      })

unfoldable pub retry_request : System → ℕ → ℕ → Result System
retry_request s id now = do
  connection ← get s.db id true
  elim (open_job s.db id) [
    | none ↦
        if is_active connection.status || is_archived connection.status
        then ok s
        else err (service 409)
    | some job ↦ ok (run (record s { db = requeue job.id now s.db }) id true now)
  ]

unfoldable pub suspend_request : System → ℕ → String → ℕ → ℕ → Result System
suspend_request s id actor now job_id = do
  connection ← get s.db id false
  guard (is_active connection.status) (service 409)
  prepared ←
      (if is_none connection.suspended_at || kind_is is_resume (open_job s.db id)
        then Connections.prepare_suspend s.db id actor now job_id
        else ok s.db)
  let t = record s { db = prepared }
  (if kind_is is_suspend (open_job prepared id) then ok (run t id true now) else ok t)

unfoldable pub resume_request : System → ℕ → String → ℕ → ℕ → Result System
resume_request s id actor now job_id = do
  connection ← get s.db id false
  guard (is_active connection.status) (service 409)
  (if is_none connection.suspended_at then ok s else do
    prepared ←
        (if kind_is is_resume (open_job s.db id)
          then ok s.db
          else Connections.prepare_resume s.db id actor now job_id)
    ok (run (record s { db = prepared }) id true now))

unfoldable pub archive_request : System → ℕ → String → ℕ → ℕ → Result System
archive_request s id actor now job_id = do
  prepared ← Connections.prepare_archive s.db id actor now job_id
  ok (run (record s { db = prepared }) id true now)

-- INSERT position of a stable sort by `created_at`
insert_by_creation : SyncJob → List SyncJob → List SyncJob
insert_by_creation j [] = j ∷ []
insert_by_creation j (k ∷ ks) =
    let rest = insert_by_creation j ks in
    if leb j.created_at k.created_at then j ∷ k ∷ ks else k ∷ rest

sort_by_creation : List SyncJob → List SyncJob
sort_by_creation [] = []
sort_by_creation (j ∷ js) = insert_by_creation j (sort_by_creation js)

-- The connections that `drain` runs, in turn, without force.
unfoldable pub due : Db → ℕ → ℕ → List ℕ
unfolding insert_by_creation sort_by_creation
due db now limit =
    map (λ j. j.connection_id)
      (take limit (
        sort_by_creation
          (rows_where (λ j. is_claimable j.status && leb j.next_attempt_at now) db.jobs)))

pub data SyncState : Type 0 where
  resume_retry resuming suspension_retry suspending suspended ready : SyncState
  rotation_retry rotating archive_retry archiving archived retrying provisioning : SyncState

-- `job?.kind === ... && job.status !== "completed" && job.status !== "cancelled"`
abbrev unfinished : (SyncKind → Bool) → Option SyncJob → Bool
unfinished p none = false
unfinished p (some j) = p j.kind && unended j.status
  where
    unended : SyncStatus → Bool
    unended SyncStatus.completed = false
    unended SyncStatus.cancelled = false
    unended _ = true

abbrev job_failed : Option SyncJob → Bool
job_failed none = false
job_failed (some j) = is_failed j.status

-- The `state` of `connection()`.
unfoldable pub sync_state : Connection → Option SyncJob → SyncState
sync_state k job = by_status k.status
  where
    failed : Bool
    failed = job_failed job

    by_status : ConnectionStatus → SyncState
    by_status ConnectionStatus.active =
        if is_none k.suspended_at
        then ready
        else if unfinished is_resume job
        then (if failed then resume_retry else resuming)
        else if unfinished is_suspend job
        then (if failed then suspension_retry else suspending)
        else suspended
    by_status ConnectionStatus.archived = archived
    by_status ConnectionStatus.rotating = if failed then rotation_retry else rotating
    by_status ConnectionStatus.archiving = if failed then archive_retry else archiving
    by_status ConnectionStatus.provisioning = if failed then retrying else provisioning

-- What happens to the component, one at a time.
pub data Action : Type 0 where
  create_action : Fresh → ℕ → CreateData → String → Action
  update_action : ℕ → UpdateData → String → Action
  activate_action retry_action fetch_action : ℕ → Action
  rotate_action : Fresh → ℕ → String → Action
  suspend_action resume_action archive_action : ℕ → String → ℕ → Action
  subscription_action drain_action : ℕ → Action
  begin_action restart_action : Action
  settle_action : Option String → Action

abbrev with_db : System → Result Db → Result System
with_db s r = do db ← r; ok (record s { db = db })

module _ (c : Crypto) where
  unfoldable pub rotate_request : Fresh → System → ℕ → String → ℕ → Result System
  rotate_request fresh s id actor now = do
    prepared ← Connections.prepare_rotation c fresh s.db id actor now
    ok (run (record s { db = prepared }) id true now)

  -- `connection()`: the view, and the link where it is shown (which writes the link's hash).
  unfoldable pub connection_view : Db → ℕ → Bool → Result (Db × SyncState × Option ℕ)
  connection_view db id include_archived = do
    k ← get db id include_archived
    let state = sync_state k (latest_job db id)
    (if is_active k.status && is_none k.suspended_at
        then (do (db', link) ← Connections.subscription c db id; ok (db', state, link))
        else ok (db, state, none))

  unfoldable pub perform : System → Action → ℕ → Result System
  perform s (create_action fresh id input actor) now =
      with_db s (Connections.create c fresh s.db id input actor now)
  perform s (update_action id input actor) now =
      with_db s (Connections.update s.db id input actor now)
  perform s (activate_action id) now = activate_request s id now
  perform s (retry_action id) now = retry_request s id now
  perform s (fetch_action id) now = with_db s (Connections.mark_fetched s.db id now)
  perform s (rotate_action fresh id actor) now = rotate_request fresh s id actor now
  perform s (suspend_action id actor job_id) now = suspend_request s id actor now job_id
  perform s (resume_action id actor job_id) now = resume_request s id actor now job_id
  perform s (archive_action id actor job_id) now = archive_request s id actor now job_id
  perform s (subscription_action id) now = do
    (db, link) ← Connections.subscription c s.db id
    ok (record s { db = db })
  perform s (drain_action id) now = ok (run s id false now)
  perform s begin_action now = ok (begin s)
  perform s restart_action now =
      ok (record s { db = recover_interrupted s.db now; waiting = []; holder = none })
  perform s (settle_action outcome) now = ok (settle s outcome now)

  -- A call that throws leaves the system as it was.
  unfoldable pub step : System → Action → ℕ → System
  step s a now = elim (perform s a now) [ ok t ↦ t | err e ↦ s ]

  unfoldable pub steps : System → List (Action × ℕ) → System
  steps s [] = s
  steps s ((a, now) ∷ rest) = steps (step s a now) rest
