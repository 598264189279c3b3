-- ===== src/Connections/Jobs.antt =====
-- The methods of `ConnectionService` keep at most one open job for a connection.
use outpost_vpn_server.Prelude.{ℕ, String, Option, true, false, refl, arith, is_none}
use outpost_vpn_server.Db.{
  Db, SyncKind, Credential, Connection, guard, is_active, service, insert_connection,
  insert_credential, update_connection, write_log,
}
use outpost_vpn_server.Db.Laws.{
  Holds, returned, threw, bind-Holds, bind_any-Holds, if-Holds, if_value, OneOpen,
  insert_job-OneOpen, update_jobs-OneOpen,
}
use outpost_vpn_server.Connections.{
  Crypto, Fresh, CreateData, UpdateData, get, store, issue, create_job, cancel_jobs,
  delete_presence, update_credentials, write_both, update, prepare_suspend, prepare_resume,
  complete_suspend, complete_resume, prepare_archive, revoke_others, activate_pending,
  complete_activation, revoke_all, complete_archive, mark_fetched, create, prepare_rotation,
  subscription,
}

create_job-OneOpen :
    (job_id id generation : ℕ) (previous : Option ℕ) (kind : SyncKind) (actor : String) (now : ℕ)
    (db : Db)
    → OneOpen db
    → Holds OneOpen (create_job job_id id generation previous kind actor now db)
unfolding create_job
create_job-OneOpen job_id id generation previous kind actor now db h = insert_job-OneOpen _ db h

cancel_jobs-OneOpen : (id now : ℕ) (db : Db) → OneOpen db → OneOpen (cancel_jobs id now db)
unfolding cancel_jobs
cancel_jobs-OneOpen id now db h =
    update_jobs-OneOpen _ _ db (λ j hit. (refl, λ e. absurd (ground arith))) h

insert_credential-OneOpen :
    (r : Credential) (db : Db) → OneOpen db → Holds OneOpen (insert_credential r db)
unfolding insert_credential
insert_credential-OneOpen r db h = if-Holds _ (returned h) threw

insert_connection-OneOpen :
    (r : Connection) (db : Db) → OneOpen db → Holds OneOpen (insert_connection r db)
unfolding insert_connection
insert_connection-OneOpen r db h = if-Holds _ threw (returned h)

module _ (c : Crypto) where
  pub issue-OneOpen :
      (fresh : Fresh) (id generation now : ℕ) (db : Db)
      → OneOpen db
      → Holds OneOpen (issue c fresh id generation now db)
  unfolding issue store
  issue-OneOpen fresh id generation now db h =
      bind-Holds (insert_credential-OneOpen _ db h) (λ d k. insert_credential-OneOpen _ d k)

  pub create-OneOpen :
      (fresh : Fresh) (db : Db) (id : ℕ) (input : CreateData) (actor : String) (now : ℕ)
      → OneOpen db
      → Holds OneOpen (create c fresh db id input actor now)
  unfolding create write_both write_log
  create-OneOpen fresh db id input actor now h =
      bind-Holds (insert_connection-OneOpen _ db h) λ d1 h1.
        bind-Holds (issue-OneOpen fresh id 1 now d1 h1)
          λ d2 h2. bind-Holds (create_job-OneOpen _ _ _ _ _ _ _ d2 h2) λ d3 h3. returned h3

  pub prepare_rotation-OneOpen :
      (fresh : Fresh) (db : Db) (id : ℕ) (actor : String) (now : ℕ)
      → OneOpen db
      → Holds OneOpen (prepare_rotation c fresh db id actor now)
  unfolding prepare_rotation update_connection
  prepare_rotation-OneOpen fresh db id actor now h = bind_any-Holds (get db id false) λ k.
      bind_any-Holds _ λ _.
        bind-Holds (issue-OneOpen fresh id _ now _ h)
          λ d2 h2. create_job-OneOpen _ _ _ _ _ _ _ d2 h2

  pub subscription-OneOpen :
      (db : Db) (id : ℕ) → OneOpen db → Holds (λ r. OneOpen r.0) (subscription c db id)
  unfolding subscription update_connection
  subscription-OneOpen db id h =
      bind_any-Holds (get db id false) λ k. if-Holds _ (returned h) (returned h)

pub update-OneOpen :
    (db : Db) (id : ℕ) (input : UpdateData) (actor : String) (now : ℕ)
    → OneOpen db
    → Holds OneOpen (update db id input actor now)
unfolding update update_connection write_both write_log
update-OneOpen db id input actor now h = bind_any-Holds (get db id false) λ k. returned h

pub prepare_suspend-OneOpen :
    (db : Db) (id : ℕ) (actor : String) (now job_id : ℕ)
    → OneOpen db
    → Holds OneOpen (prepare_suspend db id actor now job_id)
unfolding prepare_suspend update_connection delete_presence
prepare_suspend-OneOpen db id actor now job_id h =
    bind_any-Holds (get db id false) λ k.
      bind_any-Holds _ λ _. create_job-OneOpen _ _ _ _ _ _ _ _ (cancel_jobs-OneOpen id now db h)

pub prepare_resume-OneOpen :
    (db : Db) (id : ℕ) (actor : String) (now job_id : ℕ)
    → OneOpen db
    → Holds OneOpen (prepare_resume db id actor now job_id)
unfolding prepare_resume
prepare_resume-OneOpen db id actor now job_id h = bind_any-Holds (get db id false) λ k.
    bind_any-Holds (guard (is_active k.status) (service 409)) λ _.
      if-Holds (is_none k.suspended_at) (returned {a = db} h)
        (create_job-OneOpen _ _ _ _ _ _ _ (cancel_jobs id now db) (cancel_jobs-OneOpen id now db h))

pub prepare_archive-OneOpen :
    (db : Db) (id : ℕ) (actor : String) (now job_id : ℕ)
    → OneOpen db
    → Holds OneOpen (prepare_archive db id actor now job_id)
unfolding prepare_archive update_connection write_both write_log
prepare_archive-OneOpen db id actor now job_id h = bind_any-Holds (get db id false) λ k.
    bind-Holds (create_job-OneOpen _ _ _ _ _ _ _ _ (cancel_jobs-OneOpen id now db h))
      λ d k'. returned k'

pub complete_suspend-OneOpen :
    (db : Db) (id : ℕ) (actor : String) → OneOpen db → Holds OneOpen (complete_suspend db id actor)
unfolding complete_suspend write_both write_log
complete_suspend-OneOpen db id actor h = bind_any-Holds (get db id false) λ k. returned h

pub complete_resume-OneOpen :
    (db : Db) (id : ℕ) (actor : String) (now : ℕ)
    → OneOpen db
    → Holds OneOpen (complete_resume db id actor now)
unfolding complete_resume write_both write_log update_connection
complete_resume-OneOpen db id actor now h = bind_any-Holds (get db id false) λ k. returned h

pub complete_activation-OneOpen :
    (db : Db) (id generation : ℕ) (actor : String) (now : ℕ)
    → OneOpen db
    → Holds OneOpen (complete_activation db id generation actor now)
unfolding complete_activation write_both write_log update_connection activate_pending revoke_others
    update_credentials
complete_activation-OneOpen db id generation actor now h =
    bind_any-Holds (get db id true) λ k. returned (if_value OneOpen _ h h)

pub complete_archive-OneOpen :
    (db : Db) (id : ℕ) (actor : String) (now : ℕ)
    → OneOpen db
    → Holds OneOpen (complete_archive db id actor now)
unfolding complete_archive write_log update_connection revoke_all update_credentials
complete_archive-OneOpen db id actor now h = bind_any-Holds (get db id true) λ k. returned h

pub mark_fetched-OneOpen :
    (db : Db) (id now : ℕ) → OneOpen db → Holds OneOpen (mark_fetched db id now)
unfolding mark_fetched write_log update_connection
mark_fetched-OneOpen db id now h =
    bind_any-Holds (get db id false) λ k. returned (if_value OneOpen _ h h)
