-- ===== src/Sync/Stable.antt =====
-- A property of the tables that every statement group keeps is kept by every step of the outbox, in
-- whatever order requests, claims, engine calls and restarts come.
use outpost_vpn_server.Prelude.{
  ℕ, String, Option, none, some, List, Bool, true, false, [], ◌∷◌, ◌||◌, is_none, if◌then◌else◌,
}
use outpost_vpn_server.Db.{Db, SyncJob, SyncKind, ok, err, guard, is_active, service}
use outpost_vpn_server.Db.Laws.{
  Holds, returned, threw, bind-Holds, bind_any-Holds, if-Holds, kept-Holds, value-Holds,
}
use outpost_vpn_server.Connections
use outpost_vpn_server.Connections.{Crypto, Fresh, CreateData, UpdateData, get}
use outpost_vpn_server.Sync.{
  System, open_job, run, mark_running, recover_interrupted, begin, settle, complete_kind, complete,
  fail, is_resume, is_suspend, kind_is,
}
use outpost_vpn_server.Sync.Rules.{run_rule, settle_rule, begin_rule}
use outpost_vpn_server.Sync.Requests.{
  Action, create_action, update_action, activate_action, retry_action, fetch_action, rotate_action,
  suspend_action, resume_action, archive_action, subscription_action, drain_action, begin_action,
  restart_action, settle_action, requeue, activate_request, retry_request, suspend_request,
  resume_request, archive_request, rotate_request, perform, step, steps, is_provisioning,
  is_archived,
}

pub record IsStable (c : Crypto) (P : Db → Type 0) : Type 0 where
  pub create :
      (fresh : Fresh) (db : Db) (id : ℕ) (input : CreateData) (actor : String) (now : ℕ)
      → P db
      → Holds P (Connections.create c fresh db id input actor now)
  pub update :
      (db : Db) (id : ℕ) (input : UpdateData) (actor : String) (now : ℕ)
      → P db
      → Holds P (Connections.update db id input actor now)
  pub fetch : (db : Db) (id now : ℕ) → P db → Holds P (Connections.mark_fetched db id now)
  pub link : (db : Db) (id : ℕ) → P db → Holds (λ r. P r.0) (Connections.subscription c db id)
  pub rotation :
      (fresh : Fresh) (db : Db) (id : ℕ) (actor : String) (now : ℕ)
      → P db
      → Holds P (Connections.prepare_rotation c fresh db id actor now)
  pub suspension :
      (db : Db) (id : ℕ) (actor : String) (now job_id : ℕ)
      → P db
      → Holds P (Connections.prepare_suspend db id actor now job_id)
  pub resumption :
      (db : Db) (id : ℕ) (actor : String) (now job_id : ℕ)
      → P db
      → Holds P (Connections.prepare_resume db id actor now job_id)
  pub archival :
      (db : Db) (id : ℕ) (actor : String) (now job_id : ℕ)
      → P db
      → Holds P (Connections.prepare_archive db id actor now job_id)
  pub completion :
      (db : Db) (job : SyncJob) (kind : SyncKind) (now : ℕ)
      → P db
      → Holds P (complete_kind db job kind now)
  pub claimed : (force : Bool) (now id : ℕ) (db : Db) → P db → P (mark_running force now id db)
  pub requeued : (id now : ℕ) (db : Db) → P db → P (requeue id now db)
  pub recovered : (db : Db) (now : ℕ) → P db → P (recover_interrupted db now)
  pub completed : (db : Db) (id now : ℕ) → P db → P (complete db id now)
  pub failed :
      (db : Db) (job : SyncJob) (message : String) (now : ℕ) → P db → P (fail db job message now)

module _ {c : Crypto} {P : Db → Type 0} (stable : IsStable c P) where
  pub run-stable :
      (s : System) (id : ℕ) (force : Bool) (now : ℕ) → P s.db → P (run s id force now).db
  run-stable s id force now h =
      run_rule (λ t. P t.db) s force now id h
        (λ job current opened found. stable.claimed force now job.id s.db h)

  settle-stable :
      (s : System) (outcome : Option String) (now : ℕ) → P s.db → P (settle s outcome now).db
  unfolding settle
  settle-stable s outcome now h =
      settle_rule (λ t. P t.db) s s.holder outcome now h
        (λ task message held. stable.failed s.db task.job message now h)
        (λ task d held done.
          stable.completed d task.job.id now
            (value-Holds (stable.completion s.db task.job task.job.kind now h) done))

  begin-stable : (s : System) → P s.db → P (begin s).db
  unfolding begin
  begin-stable s h = begin_rule (λ t. P t.db) s s.waiting s.holder h (λ job rest w e. h)

  activate-stable :
      (s : System) (id now : ℕ) → P s.db → Holds (λ t. P t.db) (activate_request s id now)
  unfolding activate_request
  activate-stable s id now h = bind_any-Holds (get s.db id false) λ k.
      if-Holds (is_active k.status) (returned h) (
        bind_any-Holds (guard (is_provisioning k.status) (service 409))
          λ _. returned (run-stable s id true now h))

  retry-stable : (s : System) (id now : ℕ) → P s.db → Holds (λ t. P t.db) (retry_request s id now)
  unfolding retry_request
  retry-stable s id now h =
      bind_any-Holds (get s.db id true)
        λ k. opened (is_active k.status || is_archived k.status) (open_job s.db id)
    where
      opened :
          (b : Bool) (o : Option SyncJob)
          → Holds
              (λ t. P t.db)
              (elim o [
                | none ↦ if b then ok s else err (service 409)
                | some job ↦ ok (run (record s { db = requeue job.id now s.db }) id true now)
              ])
      opened b none = if-Holds b (returned h) threw
      opened b (some job) = returned (
          run-stable (record s { db = requeue job.id now s.db }) id true now
            (stable.requeued job.id now s.db h))

  suspend-stable :
      (s : System) (id : ℕ) (actor : String) (now job_id : ℕ)
      → P s.db
      → Holds (λ t. P t.db) (suspend_request s id actor now job_id)
  unfolding suspend_request
  suspend-stable s id actor now job_id h = bind_any-Holds (get s.db id false) λ k.
      bind_any-Holds (guard (is_active k.status) (service 409)) λ _.
        bind-Holds
          (if-Holds (is_none k.suspended_at || kind_is is_resume (open_job s.db id))
            (stable.suspension s.db id actor now job_id h) (returned h))
          λ d q.
            if-Holds (kind_is is_suspend (open_job d id))
              (returned (run-stable (record s { db = d }) id true now q)) (returned q)

  resume-stable :
      (s : System) (id : ℕ) (actor : String) (now job_id : ℕ)
      → P s.db
      → Holds (λ t. P t.db) (resume_request s id actor now job_id)
  unfolding resume_request
  resume-stable s id actor now job_id h = bind_any-Holds (get s.db id false) λ k.
      bind_any-Holds (guard (is_active k.status) (service 409)) λ _.
        if-Holds (is_none k.suspended_at) (returned h) (
          bind-Holds
            (if-Holds (kind_is is_resume (open_job s.db id)) (returned h)
              (stable.resumption s.db id actor now job_id h))
            λ d q. returned (run-stable (record s { db = d }) id true now q))

  archive-stable :
      (s : System) (id : ℕ) (actor : String) (now job_id : ℕ)
      → P s.db
      → Holds (λ t. P t.db) (archive_request s id actor now job_id)
  unfolding archive_request
  archive-stable s id actor now job_id h =
      bind-Holds (stable.archival s.db id actor now job_id h)
        λ d q. returned (run-stable (record s { db = d }) id true now q)

  rotate-stable :
      (fresh : Fresh) (s : System) (id : ℕ) (actor : String) (now : ℕ)
      → P s.db
      → Holds (λ t. P t.db) (rotate_request c fresh s id actor now)
  unfolding rotate_request
  rotate-stable fresh s id actor now h =
      bind-Holds (stable.rotation fresh s.db id actor now h)
        λ d q. returned (run-stable (record s { db = d }) id true now q)

  pub perform-stable :
      (s : System) (a : Action) (now : ℕ) → P s.db → Holds (λ t. P t.db) (perform c s a now)
  unfolding perform
  perform-stable s (create_action fresh id input actor) now h =
      bind-Holds (stable.create fresh s.db id input actor now h) λ d q. returned q
  perform-stable s (update_action id input actor) now h =
      bind-Holds (stable.update s.db id input actor now h) λ d q. returned q
  perform-stable s (activate_action id) now h = activate-stable s id now h
  perform-stable s (retry_action id) now h = retry-stable s id now h
  perform-stable s (fetch_action id) now h =
      bind-Holds (stable.fetch s.db id now h) λ d q. returned q
  perform-stable s (rotate_action fresh id actor) now h = rotate-stable fresh s id actor now h
  perform-stable s (suspend_action id actor job_id) now h = suspend-stable s id actor now job_id h
  perform-stable s (resume_action id actor job_id) now h = resume-stable s id actor now job_id h
  perform-stable s (archive_action id actor job_id) now h = archive-stable s id actor now job_id h
  perform-stable s (subscription_action id) now h =
      bind-Holds (stable.link s.db id h) λ r q. returned q
  perform-stable s (drain_action id) now h = returned (run-stable s id false now h)
  perform-stable s begin_action now h = returned (begin-stable s h)
  perform-stable s restart_action now h = returned (stable.recovered s.db now h)
  perform-stable s (settle_action outcome) now h = returned (settle-stable s outcome now h)

  pub step-stable : (s : System) (a : Action) (now : ℕ) → P s.db → P (step c s a now).db
  unfolding step
  step-stable s a now h = kept-Holds {P = λ t. P t.db} s (perform-stable s a now h) h

  pub steps-stable : (s : System) (actions : List (Action × ℕ)) → P s.db → P (steps c s actions).db
  unfolding steps
  steps-stable s [] h = h
  steps-stable s ((a, now) ∷ rest) h = steps-stable (step c s a now) rest (step-stable s a now h)
