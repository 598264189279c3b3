-- ===== src/Sync/Race.antt =====
-- A suspension that is requested while a resumption waits for its engine.
use outpost_vpn_server.Prelude.{
  ℕ, String, none, some, Bool, true, false, ◌==◌, ◌≡◌, refl, ◌∙◌, arith, inl, inr, Bool-cases,
  is_none, All, All-update_where, All-always, All-first_where, first_where, first_where-eq-some,
}
use outpost_vpn_server.Db.{
  Db, Connection, SyncJob, resume, Result, ok, err, Fault, guard, service, is_active,
  update_connection, update_jobs, write_log,
}
use outpost_vpn_server.Db.Laws.{
  Holds, returned, bind_any-Holds, if-Holds, value-Holds, or_throw-eq-ok,
}
use outpost_vpn_server.Connections.{get, visible, complete_resume, write_both}
use outpost_vpn_server.Sync.{
  System, Task, open_job, run, settle, settle_task, settle_db, settle_call, settle_completion,
  complete_kind, complete, fail, is_suspend, kind_is,
}
use outpost_vpn_server.Sync.Rules.{run_rule}
use outpost_vpn_server.Sync.Requests.{suspend_request}

run-holder : (s : System) (id : ℕ) (force : Bool) (now : ℕ) → (run s id force now).holder ≡ s.holder
run-holder s id force now =
    run_rule (λ t. t.holder ≡ s.holder) s force now id refl (λ job current o f. refl)

suspend_request-holder :
    (s : System) (id : ℕ) (actor : String) (now job_id : ℕ)
    → Holds (λ t. t.holder ≡ s.holder) (suspend_request s id actor now job_id)
unfolding suspend_request
suspend_request-holder s id actor now job_id = bind_any-Holds (get s.db id false) λ k.
    bind_any-Holds (guard (is_active k.status) (service 409)) λ _. bind_any-Holds _ λ d.
      if-Holds (kind_is is_suspend (open_job d id)) (returned (run-holder _ id true now))
        (returned refl)

abbrev ResumedRow : ℕ → Connection → Type 0
ResumedRow id k = (k.id == id) ≡ true → k.suspended_at ≡ none

abbrev Resumed : ℕ → Db → Type 0
Resumed id db = (k : Connection) → get db id false ≡ ok k → k.suspended_at ≡ none

Resumed-of_rows : (id : ℕ) (db : Db) → All (ResumedRow id) db.connections → Resumed id db
unfolding get visible
Resumed-of_rows id db h k e =
    let found = or_throw-eq-ok (first_where (visible id false) db.connections) _ e in
    let test = first_where-eq-some (visible id false) db.connections found in
    All-first_where (visible id false) (ResumedRow id) db.connections found h (ground arith)

complete_resume-rows :
    (db : Db) (id : ℕ) (actor : String) (now : ℕ)
    → Holds (λ d. All (ResumedRow id) d.connections) (complete_resume db id actor now)
unfolding complete_resume write_both write_log update_connection
complete_resume-rows db id actor now = bind_any-Holds (get db id false) λ k. returned (
    All-update_where _ (λ r. Unit {0}) (ResumedRow id) _ (λ r _. ground arith) db.connections
      (All-always _ db.connections (λ r. tt)))

complete_resume-missing :
    (db : Db) (id : ℕ) (actor : String) (now : ℕ) (e : Fault)
    → complete_resume db id actor now ≡ err e
    → Resumed id db
unfolding complete_resume
complete_resume-missing db id actor now e h k found = absurd (clash found h)
  where
    clash : get db id false ≡ ok k → complete_resume db id actor now ≡ err e → ⊥
    clash found h = ground arith

completion-Resumed :
    (db : Db) (job : SyncJob) (now : ℕ) (r : Result Db)
    → complete_resume db job.connection_id job.actor now ≡ r
    → Resumed job.connection_id (settle_completion db job now r)
unfolding settle_completion complete fail update_jobs get
completion-Resumed db job now (ok d) e =
    Resumed-of_rows job.connection_id d
      (value-Holds (complete_resume-rows db job.connection_id job.actor now) e)
completion-Resumed db job now (err f) e =
    complete_resume-missing db job.connection_id job.actor now f e

settle-Resumed :
    (s : System) (task : Task) (now : ℕ)
    → task.job.kind ≡ resume
    → Resumed task.job.connection_id (settle_task s (some task) none now).db
unfolding settle_task settle_db settle_call complete_kind settle_completion fail
settle-Resumed s task now kind = elim (Bool-cases (is_none task.call)) [
  | inl idle ↦ rw (idle, kind) (completion-Resumed s.db task.job now _ (completed kind))
  | inr called ↦ rw (called, kind) (completion-Resumed s.db task.job now _ (completed kind))
]
  where
    completed :
        task.job.kind ≡ resume
        → complete_resume s.db task.job.connection_id task.job.actor now
          ≡ complete_kind s.db task.job resume now
    completed e = unfold complete_kind in refl

-- A suspension requested while a resumption of the same connection waits for its engine is undone
-- when that engine call succeeds: the connection, if it is still visible, is then not suspended, though
-- the request to suspend it was accepted after the request to resume it.
pub suspension_undone :
    (s t : System) (task : Task) (actor : String) (now job_id later : ℕ) (k : Connection)
    → s.holder ≡ some task
    → task.job.kind ≡ resume
    → suspend_request s task.job.connection_id actor now job_id ≡ ok t
    → get (settle t none later).db task.job.connection_id false ≡ ok k
    → k.suspended_at ≡ none
unfolding settle settle_task
suspension_undone s t task actor now job_id later k held kind e found =
    let same : t.holder ≡ some task =
      value-Holds {P = λ u. u.holder ≡ s.holder}
        (suspend_request-holder s task.job.connection_id actor now job_id) e
      ∙ held in
    settle-Resumed t task later kind k (rw same at found)
