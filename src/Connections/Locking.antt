-- ===== src/Connections/Locking.antt =====
-- What a rotation, a suspension and an archival do at once, and that they are not refused.
use outpost_vpn_server.Prelude.{
  ℕ, String, Option, none, some, false, [], ◌∷◌, ◌++◌, ◌==◌, ◌≡◌, ◌≢◌, refl, arith, if◌then◌else◌,
  inl, inr, Bool-cases, count_where, count_where-clear, All-update_where, All-always,
}
use outpost_vpn_server.Db.{
  Db, Connection, Credential, SyncKind, ok, guard, service, is_active, open_of, insert_job,
  insert_credential, update_connection, update_jobs,
}
use outpost_vpn_server.Db.Laws.{
  Holds, returned, threw, bind-Holds, bind_any-Holds, if-Holds, value-Holds,
}
use outpost_vpn_server.Connections.{
  Crypto, Fresh, get, usable, by_subscription_token, authenticate_hysteria, store, issue,
  create_job, new_job, cancel_jobs, set_archiving, delete_presence, write_both, prepare_rotation,
  prepare_suspend, prepare_archive,
}
use outpost_vpn_server.Connections.Access.{
  Locked, LockedRow, by_subscription_token-Locked, authenticate_hysteria-Locked,
}

create_job-Locked :
    (i : ℕ) (job_id id generation : ℕ) (previous : Option ℕ) (kind : SyncKind) (actor : String)
    (now : ℕ) (db : Db)
    → Locked i db
    → Holds (Locked i) (create_job job_id id generation previous kind actor now db)
unfolding create_job insert_job
create_job-Locked i job_id id generation previous kind actor now db h =
    if-Holds _ threw (returned h)

insert_credential-Locked :
    (i : ℕ) (r : Credential) (db : Db) → Locked i db → Holds (Locked i) (insert_credential r db)
unfolding insert_credential
insert_credential-Locked i r db h = if-Holds _ (returned h) threw

issue-Locked :
    (c : Crypto) (i : ℕ) (fresh : Fresh) (id generation now : ℕ) (db : Db)
    → Locked i db
    → Holds (Locked i) (issue c fresh id generation now db)
unfolding issue store
issue-Locked c i fresh id generation now db h =
    bind-Holds (insert_credential-Locked i _ db h) λ d k. insert_credential-Locked i _ d k

update-Locked :
    (id : ℕ) (f : Connection → Connection) (db : Db)
    → ((k : Connection) → usable (f k) ≡ false)
    → Locked id (update_connection id f db)
unfolding update_connection
update-Locked id f db locked =
    All-update_where _ (λ k. Unit {0}) (LockedRow id) f (λ k _. row k) db.connections
      (All-always _ db.connections (λ k. tt))
  where
    row : (k : Connection) → LockedRow id (if k.id == id then f k else k)
    row k e = elim (Bool-cases (k.id == id)) [
      | inl hit ↦ rw hit (locked k)
      | inr miss ↦ rw miss (absurd (ground (arith, e)))
    ]

prepare_rotation-Locked :
    (c : Crypto) (fresh : Fresh) (db : Db) (id : ℕ) (actor : String) (now : ℕ)
    → Holds (Locked id) (prepare_rotation c fresh db id actor now)
unfolding prepare_rotation
prepare_rotation-Locked c fresh db id actor now = bind_any-Holds (get db id false) λ k.
    bind_any-Holds _ λ _.
      bind-Holds (issue-Locked c id fresh id _ now _ (update-Locked id _ db (λ r. refl)))
        λ d q. create_job-Locked id _ _ _ _ _ _ _ d q

prepare_suspend-Locked :
    (db : Db) (id : ℕ) (actor : String) (now job_id : ℕ)
    → Holds (Locked id) (prepare_suspend db id actor now job_id)
unfolding prepare_suspend delete_presence
prepare_suspend-Locked db id actor now job_id = bind_any-Holds (get db id false) λ k.
    bind_any-Holds (guard (is_active k.status) (service 409)) λ _.
      create_job-Locked id _ _ _ _ _ _ _ _
        (update-Locked id _ (cancel_jobs id now db) (λ r. ground arith))

-- As soon as a rotation is prepared, before any engine is told, no subscription token leads to the
-- connection (the old link is dead) and no password authenticates as it.
pub rotation_locks_out :
    (c : Crypto) (fresh : Fresh) (db d : Db) (id : ℕ) (actor : String) (now : ℕ)
    → prepare_rotation c fresh db id actor now ≡ ok d
    → ((token : ℕ) (k : Connection) → by_subscription_token c d token ≡ ok k → k.id ≢ id)
      × ((auth : String) → authenticate_hysteria c d auth ≢ ok (some id))
rotation_locks_out c fresh db d id actor now e =
    let locked = value-Holds (prepare_rotation-Locked c fresh db id actor now) e in
    (
      λ token k. by_subscription_token-Locked c id d token k locked,
      λ auth. authenticate_hysteria-Locked c id d auth locked,
    )

-- As soon as a suspension is prepared, before any engine is told, no subscription token leads to the
-- connection and no password authenticates as it.
pub suspension_locks_out :
    (c : Crypto) (db d : Db) (id : ℕ) (actor : String) (now job_id : ℕ)
    → prepare_suspend db id actor now job_id ≡ ok d
    → ((token : ℕ) (k : Connection) → by_subscription_token c d token ≡ ok k → k.id ≢ id)
      × ((auth : String) → authenticate_hysteria c d auth ≢ ok (some id))
suspension_locks_out c db d id actor now job_id e =
    let locked = value-Holds (prepare_suspend-Locked db id actor now job_id) e in
    (
      λ token k. by_subscription_token-Locked c id d token k locked,
      λ auth. authenticate_hysteria-Locked c id d auth locked,
    )

cancel_jobs-count :
    (id now : ℕ) (db : Db) → count_where (open_of id) (cancel_jobs id now db).jobs ≡ 0
unfolding cancel_jobs update_jobs
cancel_jobs-count id now db =
    count_where-clear (open_of id) (open_of id) _ (λ j h. h) (λ j h. ground arith) db.jobs

-- A job is created where the connection has no open job.
create_job_total :
    (job_id id generation : ℕ) (previous : Option ℕ) (kind : SyncKind) (actor : String) (now : ℕ)
    (db : Db)
    → count_where (open_of id) db.jobs ≡ 0
    → (d : Db) × (create_job job_id id generation previous kind actor now db ≡ ok d)
unfolding create_job insert_job
create_job_total job_id id generation previous kind actor now db h = (
  record db { jobs = db.jobs ++ new_job job_id id generation previous kind actor now ∷ [] },
  rw h refl,
)

-- Archiving a connection that is visible, whatever its status and jobs, is never refused: the open
-- job is cancelled first, so the index on open jobs does not stop the new one.
pub prepare_archive_total :
    (db : Db) (id : ℕ) (actor : String) (now job_id : ℕ) (k : Connection)
    → get db id false ≡ ok k
    → (d : Db) × (prepare_archive db id actor now job_id ≡ ok d)
unfolding prepare_archive
prepare_archive_total db id actor now job_id k found =
    let (d, e) =
      create_job_total job_id id k.generation none SyncKind.revoke actor now
        (update_connection id (set_archiving now) (cancel_jobs id now db))
        (unfold update_connection in cancel_jobs-count id now db) in
    (write_both "connections.archive" "connection.archived" actor id d, rw (found, e) refl)
