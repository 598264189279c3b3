-- ===== src/Sync.antt =====
-- src/server/services/connection-sync.ts: the outbox of jobs that bring the engines in line with
-- the connections.
--
-- A job is claimed (`run` up to `withLock`), waits for the lock, calls an engine, and is settled.
-- Between these parts other requests run, so each part is a step of its own on a `System`: the
-- tables, the tasks that wait for the lock in the order of their `withLock` calls, the task that
-- holds it, and the engine calls made so far. An engine (`EngineRuntimeService`) is outside: a call
-- ends with success or with a message, cut by `safeError`.
pub mod Requests
pub mod Rules
pub mod Stable
mod Tests
pub mod Race
pub mod Archive
pub mod Uniqueness
pub mod Outbox
use outpost_vpn_server.Prelude.{
  ℕ, ◌+◌, ◌-◌, ◌*◌, ◌^◌, min, String, Option, none, some, List, Bool, true, false, [], ◌∷◌, ◌++◌,
  ◌==◌, ◌&&◌, ◌||◌, not, if◌then◌else◌, ltb, leb, is_none, is_some, first_where, count_where,
  rows_where, take, map,
}
use outpost_vpn_server.Db.{
  Connection, ConnectionStatus, SyncJob, SyncKind, activate, rotate, revoke, suspend, resume,
  SyncStatus, Db, Fault, service, unreadable, Result, ok, err, ◌>>=◌, ◌>>◌, guard, is_active,
  is_rotating, is_active_state, is_open, open_of, is_claimable, is_running, is_failed, update_jobs,
}
use outpost_vpn_server.Connections
use outpost_vpn_server.Connections.{
  Crypto, Fresh, CreateData, get, complete_activation, complete_archive, complete_suspend,
  complete_resume,
}

pub data EngineCall : Type 0 where
  add_call revoke_call : ℕ → ℕ → EngineCall
  rotate_call : ℕ → Option ℕ → ℕ → EngineCall

-- The task that holds the lock: its job as it was claimed, and the engine call that it waits for.
pub record Task : Type 0 where
  pub job : SyncJob
  pub call : Option EngineCall

pub record System : Type 0 where
  pub db : Db
  pub waiting : List SyncJob
  pub holder : Option Task
  pub calls : List EngineCall

-- ORDER BY created_at DESC, rowid DESC LIMIT 1
unfoldable pub newest : (SyncJob → Bool) → List SyncJob → Option SyncJob
newest p [] = none
newest p (x ∷ xs) = elim (newest p xs) [
  | none ↦ if p x then some x else none
  | some y ↦ if p x && ltb y.created_at x.created_at then some x else some y
]

unfoldable pub open_job : Db → ℕ → Option SyncJob
open_job db id = newest (open_of id) db.jobs

unfoldable pub latest_job : Db → ℕ → Option SyncJob
latest_job db id = newest (λ j. j.connection_id == id) db.jobs

abbrev pub is_suspend : SyncKind → Bool
is_suspend suspend = true
is_suspend _ = false

abbrev pub is_resume : SyncKind → Bool
is_resume resume = true
is_resume _ = false

abbrev pub kind_is : (SyncKind → Bool) → Option SyncJob → Bool
kind_is p none = false
kind_is p (some j) = p j.kind

-- `nextRetry`: a time that lies 5 s, 10 s, 20 s, ... and at most 300 s ahead
unfoldable pub next_retry : ℕ → ℕ → ℕ
next_retry attempts now = now + 1000 * min 300 (5 * 2 ^ (attempts - 1))

unfoldable pub recover_interrupted : Db → ℕ → Db
recover_interrupted db now =
    update_jobs (λ j. is_running j.status)
      (λ j. record j {
        status = SyncStatus.failed;
        next_attempt_at = now;
        last_error = some "Процесс остановился во время синхронизации";
        updated_at = now;
      })
      db

-- The rows that the UPDATE of `run` takes.
unfoldable pub claims : Bool → ℕ → ℕ → SyncJob → Bool
claims force now id j = j.id == id && is_claimable j.status && (force || leb j.next_attempt_at now)

-- SET status = 'running', attempts = attempts + 1
unfoldable pub mark_running : Bool → ℕ → ℕ → Db → Db
mark_running force now id =
    update_jobs (claims force now id)
      (λ j. record j { status = SyncStatus.running; attempts = j.attempts + 1; updated_at = now })

-- `job` reads the row that the UPDATE has just changed; it would throw if the row were gone.
unfoldable pub claimed_job : Db → Option SyncJob → Option (Db × SyncJob)
claimed_job db none = none
claimed_job db (some current) = some (db, current)

-- `none`: there is no open job, or its row was not claimed.
unfoldable pub claim_job : Db → Bool → ℕ → Option SyncJob → Option (Db × SyncJob)
claim_job db force now none = none
claim_job db force now (some job) =
    let claimed = mark_running force now job.id db in
    if count_where (claims force now job.id) db.jobs == 0
    then none
    else claimed_job claimed (first_where (λ j. j.id == job.id) claimed.jobs)

unfoldable pub claim : Db → ℕ → Bool → ℕ → Option (Db × SyncJob)
claim db id force now = claim_job db force now (open_job db id)

unfoldable pub queue_task : System → Option (Db × SyncJob) → System
queue_task s none = s
queue_task s (some (db, job)) = record s { db = db; waiting = s.waiting ++ job ∷ [] }

-- `run`, as far as it goes without waiting: a claimed job queues for the lock.
unfoldable pub run : System → ℕ → Bool → ℕ → System
run s id force now = queue_task s (claim s.db id force now)

-- SELECT generation FROM credentials WHERE connection_id = ? AND state = 'active' LIMIT 1
unfoldable pub active_generation : Db → ℕ → Option ℕ
active_generation db id =
    elim (first_where (λ r. r.connection_id == id && is_active_state r.state) db.credentials) [
      | none ↦ none
      | some r ↦ some r.generation
    ]

unfoldable pub engine_call : Db → SyncJob → SyncKind → Option EngineCall
engine_call db j activate = some (add_call j.connection_id j.generation)
engine_call db j rotate = some (rotate_call j.connection_id j.previous_generation j.generation)
engine_call db j suspend = some (revoke_call j.connection_id j.generation)
engine_call db j resume = some (add_call j.connection_id j.generation)
engine_call db j revoke = elim (active_generation db j.connection_id) [
  | none ↦ none
  | some generation ↦ some (revoke_call j.connection_id generation)
]

unfoldable pub append_call : List EngineCall → Option EngineCall → List EngineCall
append_call calls none = calls
append_call calls (some call) = calls ++ call ∷ []

-- The first task that waits gets the lock and makes its engine call.
unfoldable pub begin_task : System → List SyncJob → Option Task → System
begin_task s [] holder = s
begin_task s (job ∷ rest) none =
    let call = engine_call s.db job job.kind in
    record s {
      waiting = rest;
      holder = some (record { job = job; call = call });
      calls = append_call s.calls call;
    }
begin_task s (job ∷ rest) (some _) = s

unfoldable pub begin : System → System
begin s = begin_task s s.waiting s.holder

unfoldable pub complete_kind : Db → SyncJob → SyncKind → ℕ → Result Db
complete_kind db j revoke now = complete_archive db j.connection_id j.actor now
complete_kind db j suspend now = complete_suspend db j.connection_id j.actor
complete_kind db j resume now = complete_resume db j.connection_id j.actor now
complete_kind db j activate now = complete_activation db j.connection_id j.generation j.actor now
complete_kind db j rotate now = complete_activation db j.connection_id j.generation j.actor now

-- WHERE id = ? AND status = 'running'
abbrev pub running_id : ℕ → SyncJob → Bool
running_id id j = j.id == id && is_running j.status

unfoldable pub complete : Db → ℕ → ℕ → Db
complete db id now =
    update_jobs (running_id id)
      (λ j. record j {
        status = SyncStatus.completed;
        next_attempt_at = now;
        last_error = none;
        completed_at = some now;
        updated_at = now;
      })
      db

unfoldable pub fail : Db → SyncJob → String → ℕ → Db
fail db job message now =
    update_jobs (running_id job.id)
      (λ j. record j {
        status = SyncStatus.failed;
        next_attempt_at = next_retry job.attempts now;
        last_error = some message;
        updated_at = now;
      })
      db

-- The message of an exception of `complete...`.
abbrev fault_message : Fault → String
fault_message (service n) = "Подключение не найдено"
fault_message _ = "error"

unfoldable pub settle_completion : Db → SyncJob → ℕ → Result Db → Db
settle_completion db job now (ok done) = complete done job.id now
settle_completion db job now (err fault) = fail db job (fault_message fault) now

unfoldable pub settle_call : Db → SyncJob → ℕ → Option String → Db
settle_call db job now none = settle_completion db job now (complete_kind db job job.kind now)
settle_call db job now (some message) = fail db job message now

-- The end of the task: `outcome` is `none` where the engine call succeeded. Where there was no call
-- to make, it is not asked.
unfoldable pub settle_db : Db → Task → Option String → ℕ → Db
settle_db db task outcome now =
    settle_call db task.job now (if is_none task.call then none else outcome)

unfoldable pub settle_task : System → Option Task → Option String → ℕ → System
settle_task s none outcome now = s
settle_task s (some task) outcome now = record s {
  db = settle_db s.db task outcome now;
  holder = none;
}

unfoldable pub settle : System → Option String → ℕ → System
settle s outcome now = settle_task s s.holder outcome now
