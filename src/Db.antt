-- ===== src/Db.antt =====
-- The tables of src/server/db/schema.ts that connections use, and the statements on them that the
-- services share. A row id or UUID is a number, a time is a number of milliseconds (ISO strings of
-- `now()` compare as the times that they print), and a token or digest is a number.
pub mod Laws
use outpost_vpn_server.Prelude.{
  ℕ, String, Option, none, some, List, Bool, true, false, [], ◌∷◌, ◌++◌, ◌==◌, ◌&&◌, ◌||◌, any,
  if◌then◌else◌, not, update_where, count_where,
}

pub data ConnectionStatus : Type 0 where
  provisioning active rotating archiving archived : ConnectionStatus

pub data Color : Type 0 where
  blue green peach violet slate : Color

pub record Connection : Type 0 where
  pub id : ℕ
  pub serial : ℕ
  pub name : String
  pub color : Color
  pub avatar : String
  pub status : ConnectionStatus
  pub generation : ℕ
  pub token_hash : Option ℕ
  pub created_at : ℕ
  pub updated_at : ℕ
  pub activated_at : Option ℕ
  pub first_used_at : Option ℕ
  pub last_fetched_at : Option ℕ
  pub first_seen_at : Option ℕ
  pub last_seen_at : Option ℕ
  pub absence_notified_at : Option ℕ
  pub suspended_at : Option ℕ
  pub archived_at : Option ℕ

-- The engines that a credential can belong to.
pub data CredentialEngine : Type 0 where
  hysteria xray : CredentialEngine

pub data CredentialState : Type 0 where
  pending active revoked : CredentialState

pub record SecretBox : Type 0 where
  pub ciphertext : ℕ
  pub iv : ℕ
  pub tag : ℕ

pub record Credential : Type 0 where
  pub id : ℕ
  pub connection_id : ℕ
  pub generation : ℕ
  pub engine : CredentialEngine
  pub state : CredentialState
  pub box : SecretBox
  pub created_at : ℕ
  pub activated_at : Option ℕ
  pub revoked_at : Option ℕ

pub data SyncKind : Type 0 where
  activate rotate revoke suspend resume : SyncKind

pub data SyncStatus : Type 0 where
  pending running failed completed cancelled : SyncStatus

pub record SyncJob : Type 0 where
  pub id : ℕ
  pub connection_id : ℕ
  pub generation : ℕ
  pub previous_generation : Option ℕ
  pub kind : SyncKind
  pub status : SyncStatus
  pub actor : String
  pub attempts : ℕ
  pub next_attempt_at : ℕ
  pub last_error : Option String
  pub created_at : ℕ
  pub updated_at : ℕ
  pub completed_at : Option ℕ

-- What is written to `audit_log` and to `events`: the action or type, the actor, the resource.
pub data Entry : Type 0 where
  audit event : String → String → ℕ → Entry

pub record Db : Type 0 where
  pub connections : List Connection
  pub credentials : List Credential
  pub jobs : List SyncJob
  -- the `connection_id` of each row of `connection_presence`
  pub presence : List ℕ
  pub log : List Entry

-- An exception: a `ServiceError` with its HTTP status, or SQLite's refusal of a row that breaks a
-- UNIQUE index, or a secret box that does not open.
pub data Fault : Type 0 where
  service : ℕ → Fault
  constraint unreadable : Fault

pub data Result {ℓ} (R : Type ℓ) : Type ℓ where
  err : Fault → Result R
  ok : R → Result R

-- `if (!test) throw error`
abbrev pub guard : Bool → Fault → Result (Unit {0})
guard false fault = err fault
guard true fault = ok tt

-- `if (!row) throw error`
abbrev pub or_throw {ℓ} : {R : Type ℓ} → Option R → Fault → Result R
or_throw (some row) fault = ok row
or_throw none fault = err fault

-- What follows a statement runs unless the statement throws.
abbrev pub ◌>>=◌ {ℓ κ} : {R : Type ℓ} {T : Type κ} → Result R → (R → Result T) → Result T
err fault >>= next = err fault
ok value >>= next = next value

abbrev pub ◌>>◌ {ℓ} : {T : Type ℓ} → Result (Unit {0}) → Result T → Result T
done >> next = done >>= λ _. next

infixl 5 ◌>>=◌
infixl 5 ◌>>◌
abbrev pub is_active : ConnectionStatus → Bool
is_active ConnectionStatus.active = true
is_active _ = false

abbrev pub is_rotating : ConnectionStatus → Bool
is_rotating ConnectionStatus.rotating = true
is_rotating _ = false

abbrev pub same_engine : CredentialEngine → CredentialEngine → Bool
same_engine hysteria hysteria = true
same_engine xray xray = true
same_engine _ _ = false

abbrev pub is_pending_state : CredentialState → Bool
is_pending_state CredentialState.pending = true
is_pending_state _ = false

abbrev pub is_active_state : CredentialState → Bool
is_active_state CredentialState.active = true
is_active_state _ = false

abbrev pub is_revoked_state : CredentialState → Bool
is_revoked_state CredentialState.revoked = true
is_revoked_state _ = false

-- status IN ('pending', 'running', 'failed')
abbrev pub is_open : SyncStatus → Bool
is_open SyncStatus.pending = true
is_open SyncStatus.running = true
is_open SyncStatus.failed = true
is_open _ = false

-- status IN ('pending', 'failed')
abbrev pub is_claimable : SyncStatus → Bool
is_claimable SyncStatus.pending = true
is_claimable SyncStatus.failed = true
is_claimable _ = false

abbrev pub is_running : SyncStatus → Bool
is_running SyncStatus.running = true
is_running _ = false

abbrev pub is_failed : SyncStatus → Bool
is_failed SyncStatus.failed = true
is_failed _ = false

abbrev pub open_of : ℕ → SyncJob → Bool
open_of id j = j.connection_id == id && is_open j.status

-- INSERT INTO connection_sync_jobs, under the index `connection_sync_jobs_open`
unfoldable pub insert_job : SyncJob → Db → Result Db
insert_job j db =
    if is_open j.status && not (count_where (open_of j.connection_id) db.jobs == 0)
    then err constraint
    else ok (record db { jobs = db.jobs ++ j ∷ [] })

abbrev pub same_hash : Option ℕ → Option ℕ → Bool
same_hash (some a) (some b) = a == b
same_hash none b = false
same_hash a none = false

-- The uniqueness of `id`, `serial` and `subscription_token_hash` (NULLs never clash).
abbrev pub clashes : Connection → Connection → Bool
clashes r c = c.id == r.id || c.serial == r.serial || same_hash c.token_hash r.token_hash

-- INSERT INTO connections
unfoldable pub insert_connection : Connection → Db → Result Db
insert_connection r db =
    if any (clashes r) db.connections
    then err constraint
    else ok (record db { connections = db.connections ++ r ∷ [] })

abbrev pub same_slot : Credential → Credential → Bool
same_slot a b =
    a.connection_id == b.connection_id
    && a.generation == b.generation
    && same_engine a.engine b.engine

-- INSERT INTO credentials, under UNIQUE(connection_id, generation, engine). The rows that the
-- program inserts are pending, so the index `credentials_active` does not stop them.
unfoldable pub insert_credential : Credential → Db → Result Db
insert_credential r db =
    if count_where (same_slot r) db.credentials == 0
    then ok (record db { credentials = db.credentials ++ r ∷ [] })
    else err constraint

-- UPDATE connections ... WHERE id = ?
unfoldable pub update_connection : ℕ → (Connection → Connection) → Db → Db
update_connection id f db = record db {
  connections = update_where (λ c. c.id == id) f db.connections;
}

unfoldable pub update_jobs : (SyncJob → Bool) → (SyncJob → SyncJob) → Db → Db
update_jobs p f db = record db { jobs = update_where p f db.jobs }

-- `OutpostDatabase.audit` and `JournalService.record` append a row.
unfoldable pub write_log : Entry → Db → Db
write_log e db = record db { log = db.log ++ e ∷ [] }
