-- ===== src/Connections.antt =====
-- src/server/services/connections.ts: the life of a connection and of its credentials.
--
-- A method is a function from the tables to the tables, or an exception. Each runs its writes in
-- one transaction after its checks, so an exception leaves the tables as they were. The clock of a
-- call is one reading, `now`; what `crypto.randomUUID` and `randomBytes` give is the argument
-- `Fresh`. The row that a method returns is `get` of the new tables.
pub mod Jobs
pub mod Locking
pub mod Access
pub mod Retired
pub mod Generations
use text.Mathlib.Text.{◌==◌ as str_eq}
use outpost_vpn_server.Prelude.{
  ℕ, ◌+◌, String, Option, none, some, List, Bool, true, false, [], ◌∷◌, ◌==◌, ◌&&◌, ◌||◌, not,
  if◌then◌else◌, ltb, leb, max, map, is_none, is_some, or_else, rows_where, first_where,
  update_where, delete_where, any,
}
use outpost_vpn_server.Db.{
  Connection, ConnectionStatus, Color, Credential, CredentialEngine, hysteria, xray,
  CredentialState, SecretBox, SyncJob, SyncKind, SyncStatus, Entry, audit, event, Db, Fault,
  service, unreadable, Result, ok, err, ◌>>=◌, ◌>>◌, guard, or_throw, is_active, is_rotating,
  same_engine, is_pending_state, is_active_state, is_revoked_state, is_open, open_of, insert_job,
  insert_connection, insert_credential, update_connection, update_jobs, write_log,
}

-- What is sealed in a credential: `{id, password}` for Hysteria, `{id, email}` for Xray. The
-- email is printed from the connection's id and the generation.
pub data Secret : Type 0 where
  hysteria_secret : ℕ → String → Secret
  xray_secret : String → ℕ → ℕ → Secret

-- src/server/security.ts over `node:crypto`, with the master key: `encryptSecret` with its random
-- IV, `decryptSecret` (`none` if it throws), `deriveToken` of a connection's id and generation, and
-- `hashToken`.
pub record Crypto : Type 0 where
  pub encrypt : ℕ → Secret → SecretBox
  pub decrypt : SecretBox → Option Secret
  pub token : ℕ → ℕ → ℕ
  pub hash : ℕ → ℕ

-- The random values of one call.
pub record Fresh : Type 0 where
  pub hysteria_row : ℕ
  pub xray_row : ℕ
  pub password : String
  pub xray_id : String
  pub hysteria_iv : ℕ
  pub xray_iv : ℕ
  pub job_id : ℕ

-- `createInput`, after `parse`
pub record CreateData : Type 0 where
  pub name : String
  pub color : Color
  pub avatar : String

-- `updateInput`, after `parse`
pub record UpdateData : Type 0 where
  pub name : Option String
  pub color : Option Color
  pub avatar : Option String

unfoldable pub visible : ℕ → Bool → Connection → Bool
visible id include_archived c = c.id == id && (include_archived || is_none c.archived_at)

unfoldable pub get : Db → ℕ → Bool → Result Connection
get db id include_archived =
    or_throw (first_where (visible id include_archived) db.connections) (service 404)

-- ORDER BY created_at, serial
abbrev pub listed_first : Connection → Connection → Bool
listed_first k l =
    ltb k.created_at l.created_at || (k.created_at == l.created_at && leb k.serial l.serial)

unfoldable pub insert_listed : Connection → List Connection → List Connection
insert_listed k [] = k ∷ []
insert_listed k (l ∷ ls) =
    let rest = insert_listed k ls in if listed_first k l then k ∷ l ∷ ls else l ∷ rest

unfoldable pub sort_listed : List Connection → List Connection
sort_listed [] = []
sort_listed (k ∷ ks) = insert_listed k (sort_listed ks)

unfoldable pub list : Db → Bool → List Connection
list db include_archived =
    sort_listed (rows_where (λ c. include_archived || is_none c.archived_at) db.connections)

-- SELECT COALESCE(MAX(serial), 0)
unfoldable pub max_serial : List Connection → ℕ
max_serial [] = 0
max_serial (c ∷ cs) = max c.serial (max_serial cs)

abbrev pub new_job : ℕ → ℕ → ℕ → Option ℕ → SyncKind → String → ℕ → SyncJob
new_job job_id connection_id generation previous kind actor now = record {
  id = job_id;
  connection_id = connection_id;
  generation = generation;
  previous_generation = previous;
  kind = kind;
  status = SyncStatus.pending;
  actor = actor;
  attempts = 0;
  next_attempt_at = now;
  last_error = none;
  created_at = now;
  updated_at = now;
  completed_at = none;
}

unfoldable pub create_job : ℕ → ℕ → ℕ → Option ℕ → SyncKind → String → ℕ → Db → Result Db
create_job job_id connection_id generation previous kind actor now db =
    insert_job (new_job job_id connection_id generation previous kind actor now) db

unfoldable pub store :
    ℕ → ℕ → ℕ → CredentialEngine → CredentialState → SecretBox → ℕ → Db → Result Db
store row connection_id generation engine state box now db =
    insert_credential
      (record {
        id = row;
        connection_id = connection_id;
        generation = generation;
        engine = engine;
        state = state;
        box = box;
        created_at = now;
        activated_at = none;
        revoked_at = none;
      })
      db

-- UPDATE connection_sync_jobs SET status = 'cancelled' WHERE connection_id = ? AND the job is open
unfoldable pub cancel_jobs : ℕ → ℕ → Db → Db
cancel_jobs id now =
    update_jobs (open_of id)
      (λ j. record j { status = SyncStatus.cancelled; updated_at = now; completed_at = some now })

unfoldable pub delete_presence : ℕ → Db → Db
delete_presence id db = record db { presence = delete_where (λ c. c == id) db.presence }

unfoldable pub update_credentials : (Credential → Bool) → (Credential → Credential) → Db → Db
update_credentials p f db = record db { credentials = update_where p f db.credentials }

-- `audit`, then `JournalService.record` with the audit's id
unfoldable pub write_both : String → String → String → ℕ → Db → Db
write_both action type actor id db =
    write_log (event type actor id) (write_log (audit action actor id) db)

unfoldable pub update : Db → ℕ → UpdateData → String → ℕ → Result Db
update db id input actor now = do
  before ← get db id false
  ok (
      write_both "connections.update" "connection.updated" actor id (
        update_connection id
          (λ r. record r {
            name = or_else input.name before.name;
            color = or_else input.color before.color;
            avatar = or_else input.avatar before.avatar;
            updated_at = now;
          })
          db))

unfoldable pub prepare_suspend : Db → ℕ → String → ℕ → ℕ → Result Db
prepare_suspend db id actor now job_id = do
  connection ← get db id false
  guard (is_active connection.status) (service 409)
  create_job job_id id connection.generation none SyncKind.suspend actor now (
      delete_presence id (
        update_connection id
          (λ r. record r { suspended_at = some (or_else r.suspended_at now); updated_at = now })
          (cancel_jobs id now db)))

unfoldable pub prepare_resume : Db → ℕ → String → ℕ → ℕ → Result Db
prepare_resume db id actor now job_id = do
  connection ← get db id false
  guard (is_active connection.status) (service 409)
  (if is_none connection.suspended_at
      then ok db
      else create_job job_id id connection.generation none SyncKind.resume actor now
          (cancel_jobs id now db))

unfoldable pub complete_suspend : Db → ℕ → String → Result Db
complete_suspend db id actor = do
  connection ← get db id false
  ok (write_both "connections.suspend" "connection.suspended" actor id db)

unfoldable pub complete_resume : Db → ℕ → String → ℕ → Result Db
complete_resume db id actor now = do
  connection ← get db id false
  ok (
      write_both "connections.resume" "connection.resumed" actor id
        (update_connection id (λ r. record r { suspended_at = none; updated_at = now }) db))

abbrev pub set_archiving : ℕ → Connection → Connection
set_archiving now r = record r {
  status = ConnectionStatus.archiving;
  token_hash = none;
  archived_at = some now;
  updated_at = now;
}

unfoldable pub prepare_archive : Db → ℕ → String → ℕ → ℕ → Result Db
prepare_archive db id actor now job_id = do
  connection ← get db id false
  created ←
      create_job job_id id connection.generation none SyncKind.revoke actor now
        (update_connection id (set_archiving now) (cancel_jobs id now db))
  ok (write_both "connections.archive" "connection.archived" actor id created)

-- SET state = 'revoked' WHERE connection_id = ? AND generation != ? AND state = 'active'
unfoldable pub revoke_others : ℕ → ℕ → ℕ → Db → Db
revoke_others id generation now =
    update_credentials
      (λ r. r.connection_id == id && not (r.generation == generation) && is_active_state r.state)
      (λ r. record r { state = CredentialState.revoked; revoked_at = some now })

-- SET state = 'active' WHERE connection_id = ? AND generation = ? AND state = 'pending'
abbrev pub pending_of : ℕ → ℕ → Credential → Bool
pending_of id generation r =
    r.connection_id == id && r.generation == generation && is_pending_state r.state

abbrev pub set_active : ℕ → Credential → Credential
set_active now r = record r {
  state = CredentialState.active;
  activated_at = some now;
  revoked_at = none;
}

unfoldable pub activate_pending : ℕ → ℕ → ℕ → Db → Db
activate_pending id generation now = update_credentials (pending_of id generation) (set_active now)

unfoldable pub complete_activation : Db → ℕ → ℕ → String → ℕ → Result Db
complete_activation db id generation actor now = do
  connection ← get db id true
  let done =
      update_connection id
        (λ r. record r {
          status = ConnectionStatus.active;
          activated_at = some now;
          updated_at = now;
        })
        (activate_pending id generation now (revoke_others id generation now db))
  ok (
      if is_rotating connection.status
      then write_both "connections.rotate" "connection.rotated" actor id done
      else write_both "connections.activate" "connection.activated" actor id done)

-- SET state = 'revoked' WHERE connection_id = ? AND state != 'revoked'
unfoldable pub revoke_all : ℕ → ℕ → Db → Db
revoke_all id now =
    update_credentials (λ r. r.connection_id == id && not (is_revoked_state r.state))
      (λ r. record r {
        state = CredentialState.revoked;
        revoked_at = some (or_else r.revoked_at now);
      })

unfoldable pub complete_archive : Db → ℕ → String → ℕ → Result Db
complete_archive db id actor now = do
  connection ← get db id true
  ok (
      write_log (audit "connections.revoke" actor id) (
        update_connection id
          (λ r. record r { status = ConnectionStatus.archived; updated_at = now })
          (revoke_all id now db)))

unfoldable pub mark_fetched : Db → ℕ → ℕ → Result Db
mark_fetched db id now = do
  connection ← get db id false
  let fetched =
      update_connection id
        (λ r. record r {
          first_used_at = some (or_else r.first_used_at now);
          last_fetched_at = some now;
          updated_at = now;
        })
        db
  ok (
      if is_none connection.first_used_at
      then write_log (event "connection.first_used" "connection" id) fetched
      else fetched)

-- status = 'active' AND suspended_at IS NULL AND archived_at IS NULL
abbrev pub usable : Connection → Bool
usable r = is_active r.status && is_none r.suspended_at && is_none r.archived_at

abbrev pub has_hash : ℕ → Option ℕ → Bool
has_hash h none = false
has_hash h (some k) = k == h

-- The rows of the join in `authenticateHysteria`.
unfoldable pub hysteria_rows : Db → List Credential
hysteria_rows db =
    rows_where
      (λ r.
        same_engine r.engine hysteria
        && is_active_state r.state
        && any (λ k. k.id == r.connection_id && usable k) db.connections)
      db.credentials

-- What `credentials` returns.
pub record ConnectionCredential : Type 0 where
  pub connection_id : ℕ
  pub serial : ℕ
  pub generation : ℕ
  pub hysteria : Secret
  pub xray : Secret

-- One round of the loop of `authenticateHysteria`; `none` is `{ok: false}`. A secret of another
-- shape has no `password`, which equals no text.
unfoldable pub match_row :
    String → Credential → Option Secret → Result (Option ℕ) → Result (Option ℕ)
match_row auth r none rest = err unreadable
match_row auth r (some (hysteria_secret id password)) rest =
    if str_eq password auth then ok (some r.connection_id) else rest
match_row auth r (some (xray_secret id connection generation)) rest = rest

module _ (c : Crypto) where
  unfoldable pub issue : Fresh → ℕ → ℕ → ℕ → Db → Result Db
  issue fresh connection_id generation now db = do
    stored ←
        store fresh.hysteria_row connection_id generation hysteria CredentialState.pending
          (c.encrypt fresh.hysteria_iv (hysteria_secret connection_id fresh.password)) now db
    store fresh.xray_row connection_id generation xray CredentialState.pending
        (c.encrypt fresh.xray_iv (xray_secret fresh.xray_id connection_id generation)) now stored

  unfoldable pub new_connection : Db → ℕ → CreateData → ℕ → Connection
  new_connection db id input now = record {
    id = id;
    serial = max_serial db.connections + 1;
    name = input.name;
    color = input.color;
    avatar = input.avatar;
    status = ConnectionStatus.provisioning;
    generation = 1;
    token_hash = some (c.hash (c.token id 1));
    created_at = now;
    updated_at = now;
    activated_at = none;
    first_used_at = none;
    last_fetched_at = none;
    first_seen_at = none;
    last_seen_at = none;
    absence_notified_at = none;
    suspended_at = none;
    archived_at = none;
  }

  unfoldable pub create : Fresh → Db → ℕ → CreateData → String → ℕ → Result Db
  create fresh db id input actor now = do
    inserted ← insert_connection (new_connection db id input now) db
    issued ← issue fresh id 1 now inserted
    created ← create_job fresh.job_id id 1 none SyncKind.activate actor now issued
    ok (write_both "connections.create" "connection.created" actor id created)

  unfoldable pub prepare_rotation : Fresh → Db → ℕ → String → ℕ → Result Db
  prepare_rotation fresh db id actor now = do
    connection ← get db id false
    guard (is_active connection.status && is_none connection.suspended_at) (service 409)
    let generation = connection.generation + 1
    issued ← issue fresh id generation now (
        update_connection id
          (λ r. record r {
            status = ConnectionStatus.rotating;
            generation = generation;
            token_hash = some (c.hash (c.token id generation));
            activated_at = none;
            first_used_at = none;
            last_fetched_at = none;
            updated_at = now;
          })
          db)
    create_job fresh.job_id id generation (some connection.generation) SyncKind.rotate actor now
        issued

  unfoldable pub by_subscription_token : Db → ℕ → Result Connection
  by_subscription_token db token =
      or_throw (first_where (λ r. has_hash (c.hash token) r.token_hash && usable r) db.connections)
        (service 404)

  -- The loop of `authenticateHysteria`.
  unfoldable pub match_password : String → List Credential → Result (Option ℕ)
  match_password auth [] = ok none
  match_password auth (r ∷ rs) =
      let rest = match_password auth rs in match_row auth r (c.decrypt r.box) rest

  unfoldable pub authenticate_hysteria : Db → String → Result (Option ℕ)
  authenticate_hysteria db auth = match_password auth (hysteria_rows db)

  -- The link's token; storing its hash again is the method's write.
  unfoldable pub subscription : Db → ℕ → Result (Db × Option ℕ)
  subscription db id = do
    connection ← get db id false
    let token = c.token id connection.generation
    (if is_active connection.status
        then ok (
          update_connection id (λ r. record r { token_hash = some (c.hash token) }) db,
          some token,
        )
        else ok (db, none))

  unfoldable pub credentials : Db → ℕ → Option ℕ → Result ConnectionCredential
  credentials db id generation = do
    connection ← get db id true
    let selected = or_else generation connection.generation
    let rows =
        rows_where
          (λ r. r.connection_id == id && r.generation == selected && not (is_revoked_state r.state))
          db.credentials
    hysteria_row ← or_throw (first_where (λ r. same_engine r.engine hysteria) rows) (service 409)
    xray_row ← or_throw (first_where (λ r. same_engine r.engine xray) rows) (service 409)
    hysteria_value ← or_throw (c.decrypt hysteria_row.box) unreadable
    xray_value ← or_throw (c.decrypt xray_row.box) unreadable
    ok (record {
      connection_id = id;
      serial = connection.serial;
      generation = selected;
      hysteria = hysteria_value;
      xray = xray_value;
    })

  -- `.filter(...).map((connection) => this.credentials(connection.id))`
  unfoldable pub all_credentials : Db → List Connection → Result (List ConnectionCredential)
  all_credentials db [] = ok []
  all_credentials db (k ∷ ks) = do
    head ← credentials db k.id none
    rest ← all_credentials db ks
    ok (head ∷ rest)

  unfoldable pub active_credentials : Db → Result (List ConnectionCredential)
  active_credentials db =
      all_credentials db
        (rows_where (λ k. is_active k.status && is_none k.suspended_at) (list db false))
