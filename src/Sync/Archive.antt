-- ===== src/Sync/Archive.antt =====
-- An archived connection stays archived, under every step of the outbox.
use outpost_vpn_server.Prelude.{
  ℕ, String, Option, some, List, true, false, ◌≡◌, ◌≢◌, refl, is_none, is_some, any,
  All-update_where, All-always, arith,
}
use outpost_vpn_server.Db.{
  Db, SyncJob, Credential, SyncKind, activate, rotate, revoke, suspend, resume, Connection, ok, err,
  is_active, service, guard, insert_job, update_connection, update_jobs, write_log,
  insert_credential,
}
use outpost_vpn_server.Db.Laws.{
  Holds, returned, threw, bind-Holds, bind_any-Holds, if-Holds, if_value, value-Holds,
}
use outpost_vpn_server.Connections.{
  Crypto, Fresh, CreateData, get, create_job, cancel_jobs, delete_presence, write_both, update,
  prepare_suspend, prepare_resume, complete_suspend, complete_resume, prepare_archive,
  set_archiving, revoke_others, activate_pending, complete_activation, revoke_all, complete_archive,
  mark_fetched, create, prepare_rotation, subscription, issue, store, update_credentials,
  by_subscription_token, authenticate_hysteria,
}
use outpost_vpn_server.Connections.Access.{
  by_subscription_token-Locked, authenticate_hysteria-Locked,
}
use outpost_vpn_server.Connections.Retired.{
  Retired, has_id, update_connection-Retired, insert_connection-Retired, get-Retired, any-update,
  get-any, Retired-Locked,
}
use outpost_vpn_server.Sync.{
  System, mark_running, recover_interrupted, complete_kind, complete, fail,
}
use outpost_vpn_server.Sync.Requests.{
  Action, archive_action, archive_request, perform, requeue, steps,
}
use outpost_vpn_server.Sync.Stable.{IsStable, run-stable, steps-stable}

module _ (id : ℕ) where
  -- An update of a connection that keeps its id and clears no `archived_at`.
  edit :
      (j : ℕ) (f : Connection → Connection) (db : Db)
      → ((k : Connection) → (f k).id ≡ k.id)
      → ((k : Connection) → is_some k.archived_at ≡ true → is_some (f k).archived_at ≡ true)
      → Retired id db
      → Retired id (update_connection j f db)
  edit j f db same keep h = update_connection-Retired id j f db same keep h

  create_job-Retired :
      (job_id j generation : ℕ) (previous : Option ℕ) (kind : SyncKind) (actor : String) (now : ℕ)
      (db : Db)
      → Retired id db
      → Holds (Retired id) (create_job job_id j generation previous kind actor now db)
  unfolding create_job insert_job
  create_job-Retired job_id j generation previous kind actor now db h =
      if-Holds _ threw (returned h)

  insert_credential-Retired :
      (r : Credential) (db : Db) → Retired id db → Holds (Retired id) (insert_credential r db)
  unfolding insert_credential
  insert_credential-Retired r db h = if-Holds _ (returned h) threw

  issue-Retired :
      (c : Crypto) (fresh : Fresh) (j generation now : ℕ) (db : Db)
      → Retired id db
      → Holds (Retired id) (issue c fresh j generation now db)
  unfolding issue store
  issue-Retired c fresh j generation now db h =
      bind-Holds (insert_credential-Retired _ db h) λ d k. insert_credential-Retired _ d k

  cancel_jobs-Retired : (j now : ℕ) (db : Db) → Retired id db → Retired id (cancel_jobs j now db)
  unfolding cancel_jobs update_jobs
  cancel_jobs-Retired j now db h = h

  complete_kind-Retired :
      (db : Db) (j : SyncJob) (kind : SyncKind) (now : ℕ)
      → Retired id db
      → Holds (Retired id) (complete_kind db j kind now)
  unfolding complete_kind complete_archive complete_suspend complete_resume complete_activation
      write_both write_log activate_pending revoke_others revoke_all update_credentials
  complete_kind-Retired db j activate now h = bind_any-Holds (get db j.connection_id true) λ k.
      returned (
        if_value (Retired id) _ (edit _ _ _ (λ k. refl) (λ k e. e) h)
          (edit _ _ _ (λ k. refl) (λ k e. e) h))
  complete_kind-Retired db j rotate now h = bind_any-Holds (get db j.connection_id true) λ k.
      returned (
        if_value (Retired id) _ (edit _ _ _ (λ k. refl) (λ k e. e) h)
          (edit _ _ _ (λ k. refl) (λ k e. e) h))
  complete_kind-Retired db j revoke now h =
      bind_any-Holds (get db j.connection_id true)
        λ k. returned (edit _ _ _ (λ k. refl) (λ k e. e) h)
  complete_kind-Retired db j suspend now h =
      bind_any-Holds (get db j.connection_id false) λ k. returned h
  complete_kind-Retired db j resume now h =
      bind_any-Holds (get db j.connection_id false)
        λ k. returned (edit _ _ _ (λ k. refl) (λ k e. e) h)

  suspension-Retired :
      (db : Db) (j : ℕ) (actor : String) (now job_id : ℕ)
      → Retired id db
      → Holds (Retired id) (prepare_suspend db j actor now job_id)
  unfolding prepare_suspend delete_presence
  suspension-Retired db j actor now job_id h = bind_any-Holds (get db j false) λ k.
      bind_any-Holds (guard (is_active k.status) (service 409)) λ _.
        create_job-Retired _ _ _ _ _ _ _ _
          (edit _ _ _ (λ k. refl) (λ k e. e) (cancel_jobs-Retired j now db h))

  resumption-Retired :
      (db : Db) (j : ℕ) (actor : String) (now job_id : ℕ)
      → Retired id db
      → Holds (Retired id) (prepare_resume db j actor now job_id)
  unfolding prepare_resume
  resumption-Retired db j actor now job_id h = bind_any-Holds (get db j false) λ k.
      bind_any-Holds (guard (is_active k.status) (service 409)) λ _.
        if-Holds (is_none k.suspended_at) (returned {a = db} h)
          (create_job-Retired _ _ _ _ _ _ _ (cancel_jobs j now db) (cancel_jobs-Retired j now db h))

  archival-Retired :
      (db : Db) (j : ℕ) (actor : String) (now job_id : ℕ)
      → Retired id db
      → Holds (Retired id) (prepare_archive db j actor now job_id)
  unfolding prepare_archive write_both write_log
  archival-Retired db j actor now job_id h = bind_any-Holds (get db j false) λ k.
      bind-Holds
        (create_job-Retired _ _ _ _ _ _ _ _
          (edit _ _ _ (λ k. refl) (λ k e. refl) (cancel_jobs-Retired j now db h)))
        λ d q. returned q

  module _ (c : Crypto) where
    create-Retired :
        (fresh : Fresh) (db : Db) (j : ℕ) (input : CreateData) (actor : String) (now : ℕ)
        → Retired id db
        → Holds (Retired id) (create c fresh db j input actor now)
    unfolding create write_both write_log
    create-Retired fresh db j input actor now h =
        bind-Holds (insert_connection-Retired id _ db h) λ d1 h1.
          bind-Holds (issue-Retired c fresh j 1 now d1 h1)
            λ d2 h2. bind-Holds (create_job-Retired _ _ _ _ _ _ _ d2 h2) λ d3 h3. returned h3

    rotation-Retired :
        (fresh : Fresh) (db : Db) (j : ℕ) (actor : String) (now : ℕ)
        → Retired id db
        → Holds (Retired id) (prepare_rotation c fresh db j actor now)
    unfolding prepare_rotation
    rotation-Retired fresh db j actor now h = bind_any-Holds (get db j false) λ k.
        bind_any-Holds _ λ _.
          bind-Holds (issue-Retired c fresh j _ now _ (edit _ _ _ (λ k. refl) (λ k e. e) h))
            λ d2 h2. create_job-Retired _ _ _ _ _ _ _ d2 h2

    subscription-Retired :
        (db : Db) (j : ℕ) → Retired id db → Holds (λ r. Retired id r.0) (subscription c db j)
    unfolding subscription
    subscription-Retired db j h =
        bind_any-Holds (get db j false)
          λ k. if-Holds _ (returned (edit _ _ _ (λ k. refl) (λ k e. e) h)) (returned h)

    Retired-IsStable : IsStable c (Retired id)
    unfolding update mark_fetched write_both write_log mark_running requeue recover_interrupted
        complete fail update_jobs
    Retired-IsStable = record {
      create = create-Retired;
      update = λ db j input actor now h.
          bind_any-Holds (get db j false) λ k. returned (edit _ _ _ (λ k. refl) (λ k e. e) h);
      fetch = λ db j now h. bind_any-Holds (get db j false) λ k. returned (
          if_value (Retired id) _ (edit _ _ _ (λ k. refl) (λ k e. e) h)
            (edit _ _ _ (λ k. refl) (λ k e. e) h));
      link = subscription-Retired;
      rotation = rotation-Retired;
      suspension = suspension-Retired;
      resumption = resumption-Retired;
      archival = archival-Retired;
      completion = complete_kind-Retired;
      claimed = λ force now j db h. h;
      requeued = λ j now db h. h;
      recovered = λ db now h. h;
      completed = λ db j now h. h;
      failed = λ db job message now h. h;
    }

prepare_archive-Retired :
    (db : Db) (id : ℕ) (actor : String) (now job_id : ℕ)
    → Holds (Retired id) (prepare_archive db id actor now job_id)
unfolding prepare_archive write_both write_log
prepare_archive-Retired db id actor now job_id =
    bind-Holds (get-any db id) λ k found.
      bind-Holds (create_job-Retired id _ _ _ _ _ _ _ _ (stamped found)) λ d q. returned q
  where
    stamped :
        any (has_id id) db.connections ≡ true
        → Retired id (update_connection id (set_archiving now) (cancel_jobs id now db))
    stamped found =
        unfold update_connection cancel_jobs update_jobs in
        (
          rw (any-update (has_id id) (has_id id) (set_archiving now) (λ k. refl) db.connections)
              found,
          All-update_where _ (λ r. Unit {0}) _ _ (λ r _. ground arith) db.connections
              (All-always _ db.connections (λ r. tt)),
        )

archive-Retired :
    (c : Crypto) (s t : System) (id : ℕ) (actor : String) (now job_id : ℕ)
    → perform c s (archive_action id actor job_id) now ≡ ok t
    → Retired id t.db
unfolding perform archive_request
archive-Retired c s t id actor now job_id e =
    value-Holds {P = λ u. Retired id u.db}
      (bind-Holds (prepare_archive-Retired s.db id actor now job_id)
        λ d q. returned (run-stable (Retired-IsStable id c) (record s { db = d }) id true now q))
      e

-- Once a request to archive a connection has succeeded, no sequence of further steps (of requests,
-- claims, engine results and restarts, tasks in flight included) brings the connection back: it is not
-- found by its id, no subscription token leads to it, and no password authenticates as it.
pub archive_final :
    (c : Crypto) (s t : System) (id : ℕ) (actor : String) (now job_id : ℕ)
    (actions : List (Action × ℕ))
    → perform c s (archive_action id actor job_id) now ≡ ok t
    → (get (steps c t actions).db id false ≡ err (service 404))
      × ((token : ℕ) (k : Connection)
          → by_subscription_token c (steps c t actions).db token ≡ ok k
          → k.id ≢ id)
      × ((auth : String) → authenticate_hysteria c (steps c t actions).db auth ≢ ok (some id))
archive_final c s t id actor now job_id actions e =
    let gone =
      steps-stable (Retired-IsStable id c) t actions
        (archive-Retired c s t id actor now job_id e) in
    (
      get-Retired id _ gone,
      λ token k found.
          by_subscription_token-Locked c id (steps c t actions).db token k
            (Retired-Locked id (steps c t actions).db gone) found,
      λ auth.
          authenticate_hysteria-Locked c id (steps c t actions).db auth
            (Retired-Locked id (steps c t actions).db gone),
    )
