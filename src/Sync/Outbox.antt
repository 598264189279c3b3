-- ===== src/Sync/Outbox.antt =====
-- At most one open job for a connection, under every step of the outbox.
use outpost_vpn_server.Prelude.{ℕ, String, List, Bool, refl, arith}
use outpost_vpn_server.Db.{Db, SyncJob, SyncKind, activate, rotate, revoke, suspend, resume}
use outpost_vpn_server.Db.Laws.{Holds, OneOpen, update_jobs-OneOpen}
use outpost_vpn_server.Connections.{Crypto}
use outpost_vpn_server.Connections.Jobs
use outpost_vpn_server.Sync.{
  System, claims, mark_running, recover_interrupted, complete_kind, complete, fail,
}
use outpost_vpn_server.Sync.Requests.{Action, requeue, steps}
use outpost_vpn_server.Sync.Stable.{IsStable, steps-stable}

mark_running-OneOpen :
    (force : Bool) (now id : ℕ) (db : Db) → OneOpen db → OneOpen (mark_running force now id db)
unfolding mark_running claims
mark_running-OneOpen force now id db h =
    update_jobs-OneOpen _ _ db (λ j hit. (refl, λ e. ground arith)) h

requeue-OneOpen : (id now : ℕ) (db : Db) → OneOpen db → OneOpen (requeue id now db)
unfolding requeue
requeue-OneOpen id now db h = update_jobs-OneOpen _ _ db (λ j hit. (refl, λ e. ground arith)) h

recover-OneOpen : (db : Db) (now : ℕ) → OneOpen db → OneOpen (recover_interrupted db now)
unfolding recover_interrupted
recover-OneOpen db now h = update_jobs-OneOpen _ _ db (λ j hit. (refl, λ e. ground arith)) h

complete-OneOpen : (db : Db) (id now : ℕ) → OneOpen db → OneOpen (complete db id now)
unfolding complete
complete-OneOpen db id now h = update_jobs-OneOpen _ _ db (λ j hit. (refl, λ e. ground arith)) h

fail-OneOpen :
    (db : Db) (j : SyncJob) (message : String) (now : ℕ)
    → OneOpen db
    → OneOpen (fail db j message now)
unfolding fail
fail-OneOpen db j message now h = update_jobs-OneOpen _ _ db (λ k hit. (refl, λ e. ground arith)) h

complete_kind-OneOpen :
    (db : Db) (j : SyncJob) (kind : SyncKind) (now : ℕ)
    → OneOpen db
    → Holds OneOpen (complete_kind db j kind now)
unfolding complete_kind
complete_kind-OneOpen db j activate now h = Jobs.complete_activation-OneOpen _ _ _ _ _ h
complete_kind-OneOpen db j rotate now h = Jobs.complete_activation-OneOpen _ _ _ _ _ h
complete_kind-OneOpen db j revoke now h = Jobs.complete_archive-OneOpen _ _ _ _ h
complete_kind-OneOpen db j suspend now h = Jobs.complete_suspend-OneOpen _ _ _ h
complete_kind-OneOpen db j resume now h = Jobs.complete_resume-OneOpen _ _ _ _ h

OneOpen-IsStable : (c : Crypto) → IsStable c OneOpen
OneOpen-IsStable c = record {
  create = Jobs.create-OneOpen c;
  update = Jobs.update-OneOpen;
  fetch = Jobs.mark_fetched-OneOpen;
  link = Jobs.subscription-OneOpen c;
  rotation = Jobs.prepare_rotation-OneOpen c;
  suspension = Jobs.prepare_suspend-OneOpen;
  resumption = Jobs.prepare_resume-OneOpen;
  archival = Jobs.prepare_archive-OneOpen;
  completion = complete_kind-OneOpen;
  claimed = mark_running-OneOpen;
  requeued = requeue-OneOpen;
  recovered = recover-OneOpen;
  completed = complete-OneOpen;
  failed = fail-OneOpen;
}

-- Whatever requests, claims, engine results and restarts come, in whatever order and with any values,
-- a connection never has two open jobs (pending, running or failed), if it had at most one before.
pub steps-OneOpen :
    (c : Crypto) (s : System) (actions : List (Action × ℕ))
    → OneOpen s.db
    → OneOpen (steps c s actions).db
steps-OneOpen c s actions h = steps-stable (OneOpen-IsStable c) s actions h
