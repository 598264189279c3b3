-- ===== src/Sync/Uniqueness.antt =====
-- The uniqueness of credentials, under every step of the outbox.
use outpost_vpn_server.Prelude.{ℕ, String, Option, List, true, false, is_none}
use outpost_vpn_server.Db.{
  Db, SyncJob, SyncKind, activate, rotate, revoke, suspend, resume, Connection, is_active, service,
  guard, insert_connection, insert_job, update_connection, update_jobs, write_log,
}
use outpost_vpn_server.Db.Laws.{
  Holds, returned, threw, bind-Holds, bind_any-Holds, if-Holds, if_value,
}
use outpost_vpn_server.Connections.{
  Crypto, Fresh, CreateData, get, create_job, cancel_jobs, delete_presence, write_both, update,
  prepare_suspend, prepare_resume, complete_suspend, complete_resume, prepare_archive,
  revoke_others, activate_pending, complete_activation, complete_archive, mark_fetched, create,
  prepare_rotation, subscription,
}
use outpost_vpn_server.Connections.Generations.{
  Unique, issue-Unique, revoke_others-Unique, revoke_others-OnlyGeneration, activate_pending-Unique,
  revoke_all-Unique,
}
use outpost_vpn_server.Sync.{
  System, mark_running, recover_interrupted, complete_kind, complete, fail,
}
use outpost_vpn_server.Sync.Requests.{Action, requeue, steps}
use outpost_vpn_server.Sync.Stable.{IsStable, steps-stable}

create_job-Unique :
    (job_id id generation : ℕ) (previous : Option ℕ) (kind : SyncKind) (actor : String) (now : ℕ)
    (db : Db)
    → Unique db
    → Holds Unique (create_job job_id id generation previous kind actor now db)
unfolding create_job insert_job
create_job-Unique job_id id generation previous kind actor now db h = if-Holds _ threw (returned h)

insert_connection-Unique :
    (r : Connection) (db : Db) → Unique db → Holds Unique (insert_connection r db)
unfolding insert_connection
insert_connection-Unique r db h = if-Holds _ threw (returned h)

cancel_jobs-Unique : (id now : ℕ) (db : Db) → Unique db → Unique (cancel_jobs id now db)
unfolding cancel_jobs update_jobs
cancel_jobs-Unique id now db h = h

complete_activation-Unique :
    (db : Db) (id generation : ℕ) (actor : String) (now : ℕ)
    → Unique db
    → Holds Unique (complete_activation db id generation actor now)
unfolding complete_activation write_both write_log update_connection
complete_activation-Unique db id generation actor now h =
    bind_any-Holds (get db id true) λ k. returned (if_value Unique _ (activated h) (activated h))
  where
    activated :
        Unique db → Unique (activate_pending id generation now (revoke_others id generation now db))
    activated h =
        activate_pending-Unique id generation now _
          (revoke_others-OnlyGeneration id generation now db)
          (revoke_others-Unique id generation now db h)

complete_kind-Unique :
    (db : Db) (j : SyncJob) (kind : SyncKind) (now : ℕ)
    → Unique db
    → Holds Unique (complete_kind db j kind now)
unfolding complete_kind complete_archive complete_suspend complete_resume write_both write_log
    update_connection
complete_kind-Unique db j activate now h = complete_activation-Unique db _ _ _ now h
complete_kind-Unique db j rotate now h = complete_activation-Unique db _ _ _ now h
complete_kind-Unique db j revoke now h =
    bind_any-Holds (get db j.connection_id true) λ k. returned (revoke_all-Unique _ now db h)
complete_kind-Unique db j suspend now h =
    bind_any-Holds (get db j.connection_id false) λ k. returned h
complete_kind-Unique db j resume now h =
    bind_any-Holds (get db j.connection_id false) λ k. returned h

suspension-Unique :
    (db : Db) (id : ℕ) (actor : String) (now job_id : ℕ)
    → Unique db
    → Holds Unique (prepare_suspend db id actor now job_id)
unfolding prepare_suspend update_connection delete_presence
suspension-Unique db id actor now job_id h = bind_any-Holds (get db id false) λ k.
    bind_any-Holds (guard (is_active k.status) (service 409))
      λ _. create_job-Unique _ _ _ _ _ _ _ _ (cancel_jobs-Unique id now db h)

resumption-Unique :
    (db : Db) (id : ℕ) (actor : String) (now job_id : ℕ)
    → Unique db
    → Holds Unique (prepare_resume db id actor now job_id)
unfolding prepare_resume
resumption-Unique db id actor now job_id h = bind_any-Holds (get db id false) λ k.
    bind_any-Holds (guard (is_active k.status) (service 409)) λ _.
      if-Holds (is_none k.suspended_at) (returned {a = db} h)
        (create_job-Unique _ _ _ _ _ _ _ (cancel_jobs id now db) (cancel_jobs-Unique id now db h))

archival-Unique :
    (db : Db) (id : ℕ) (actor : String) (now job_id : ℕ)
    → Unique db
    → Holds Unique (prepare_archive db id actor now job_id)
unfolding prepare_archive update_connection write_both write_log
archival-Unique db id actor now job_id h = bind_any-Holds (get db id false) λ k.
    bind-Holds (create_job-Unique _ _ _ _ _ _ _ _ (cancel_jobs-Unique id now db h))
      λ d q. returned q

module _ (c : Crypto) where
  create-Unique :
      (fresh : Fresh) (db : Db) (id : ℕ) (input : CreateData) (actor : String) (now : ℕ)
      → Unique db
      → Holds Unique (create c fresh db id input actor now)
  unfolding create write_both write_log
  create-Unique fresh db id input actor now h =
      bind-Holds (insert_connection-Unique _ db h) λ d1 h1.
        bind-Holds (issue-Unique c fresh id 1 now d1 h1)
          λ d2 h2. bind-Holds (create_job-Unique _ _ _ _ _ _ _ d2 h2) λ d3 h3. returned h3

  rotation-Unique :
      (fresh : Fresh) (db : Db) (id : ℕ) (actor : String) (now : ℕ)
      → Unique db
      → Holds Unique (prepare_rotation c fresh db id actor now)
  unfolding prepare_rotation update_connection
  rotation-Unique fresh db id actor now h = bind_any-Holds (get db id false) λ k.
      bind_any-Holds _ λ _.
        bind-Holds (issue-Unique c fresh id _ now _ h)
          λ d2 h2. create_job-Unique _ _ _ _ _ _ _ d2 h2

  subscription-Unique :
      (db : Db) (id : ℕ) → Unique db → Holds (λ r. Unique r.0) (subscription c db id)
  unfolding subscription update_connection
  subscription-Unique db id h =
      bind_any-Holds (get db id false) λ k. if-Holds _ (returned h) (returned h)

  Unique-IsStable : IsStable c Unique
  unfolding update mark_fetched write_both write_log update_connection mark_running requeue
      recover_interrupted complete fail update_jobs
  Unique-IsStable = record {
    create = create-Unique;
    update = λ db id input actor now h. bind_any-Holds (get db id false) λ k. returned h;
    fetch = λ db id now h. bind_any-Holds (get db id false) λ k. returned (if_value Unique _ h h);
    link = subscription-Unique;
    rotation = rotation-Unique;
    suspension = suspension-Unique;
    resumption = resumption-Unique;
    archival = archival-Unique;
    completion = complete_kind-Unique;
    claimed = λ force now id db h. h;
    requeued = λ id now db h. h;
    recovered = λ db now h. h;
    completed = λ db id now h. h;
    failed = λ db job message now h. h;
  }

-- Whatever steps the outbox makes, a connection has at most one credential for a generation and an
-- engine, and at most one active credential for an engine, if that was so before.
pub steps-Unique :
    (c : Crypto) (s : System) (actions : List (Action × ℕ))
    → Unique s.db
    → Unique (steps c s actions).db
steps-Unique c s actions h = steps-stable (Unique-IsStable c) s actions h
