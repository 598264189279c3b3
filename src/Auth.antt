-- ===== src/Auth.antt =====
-- `AuthService` of src/server/auth/webauthn.ts: its tables, sessions, API tokens and grants. Tokens and
-- their digests are numbers, and `hash` stands for `hashToken`; a token that is created is an argument.
pub mod Registration
pub mod Login
pub mod Access
pub mod Steps
pub mod Moves
pub mod Sound
pub mod Invariant
pub mod Refinement
pub mod Requests
pub mod AccessRequests
pub mod Responses
pub mod Runs
pub mod Lifetime
pub mod Consumed
pub mod SingleUse
pub mod Lockout
pub mod Recognition
pub mod Revocation
mod Tests
use outpost_vpn_server.Prelude.{
  ℕ, ◌+◌, ◌*◌, String, Option, none, some, List, Bool, true, false, [], ◌∷◌, ◌++◌, ◌==◌, ◌&&◌, ◌||◌,
  not, if◌then◌else◌, ltb, leb, any, is_none, first_where, update_where, delete_where,
}
use outpost_vpn_server.Db.{Fault, service, constraint, Result, ok, err, ◌>>=◌, ◌>>◌, guard}

pub data Locale : Type 0 where
  ru en zh_cn fa : Locale

pub record Owner : Type 0 where
  pub id : ℕ
  pub timezone : String
  pub language : Locale
  pub created_at : ℕ
  pub updated_at : ℕ

-- What the verifier of @simplewebauthn/server tells of a new key, as numbers and texts.
pub record RegistrationInfo : Type 0 where
  pub credential_id : ℕ
  pub public_key : ℕ
  pub counter : ℕ
  pub transports : List String
  pub device_type : String
  pub backed_up : Bool

pub record Passkey : Type 0 where
  pub id : ℕ
  pub owner_id : ℕ
  pub public_key : ℕ
  pub counter : ℕ
  pub transports : List String
  pub device_type : String
  pub backed_up : Bool
  pub created_at : ℕ
  pub last_used_at : Option ℕ
  pub label : Option String

pub record Session : Type 0 where
  pub id : ℕ
  pub owner_id : ℕ
  pub token_hash : ℕ
  pub expires_at : ℕ
  pub created_at : ℕ
  pub last_seen_at : ℕ
  pub user_agent : Option String
  pub passkey_id : Option ℕ

pub record ApiToken : Type 0 where
  pub id : ℕ
  pub name : String
  pub token_hash : ℕ
  pub scopes : List String
  pub expires_at : Option ℕ
  pub created_at : ℕ
  pub last_used_at : Option ℕ
  pub revoked_at : Option ℕ

pub record Invitation : Type 0 where
  pub id : ℕ
  pub name : String
  pub token_hash : ℕ
  pub created_at : ℕ
  pub expires_at : ℕ
  pub consumed_at : Option ℕ
  pub revoked_at : Option ℕ

-- `{hash, expiresAt}`
pub record Grant : Type 0 where
  pub hash : ℕ
  pub expires_at : ℕ

pub data GrantKind : Type 0 where
  claim recovery : GrantKind

pub data Authority : Type 0 where
  by_claim by_recovery by_session by_invite : Authority

pub record RegistrationContext : Type 0 where
  pub timezone : String
  pub language : Locale
  pub owner_id : ℕ
  pub authority : Authority
  pub token_hash : Option ℕ
  pub invitation_id : Option ℕ
  pub session_hash : Option ℕ

pub data ChallengeKind : Type 0 where
  registration authentication : ChallengeKind

-- `context_json`: of a registration, or `{ownerId}` of an authentication
pub data StoredContext : Type 0 where
  of_registration : RegistrationContext → StoredContext
  of_authentication : ℕ → StoredContext

pub record Challenge : Type 0 where
  pub id : ℕ
  pub kind : ChallengeKind
  pub challenge : ℕ
  pub context : StoredContext
  pub expires_at : ℕ
  pub created_at : ℕ

-- An actor is named, or the owner or a token by its id.
pub data Actor : Type 0 where
  named : String → Actor
  owner_actor : ℕ → Actor

-- Of a row of `audit_log` or `events`: the action or type, the actor, the resource.
pub data AuthEntry : Type 0 where
  audit event : String → Actor → Option ℕ → AuthEntry

-- The tables, and three settings: `setup_claim`, `owner_recovery` and `bootstrap`.
pub record AuthDb : Type 0 where
  pub owners : List Owner
  pub passkeys : List Passkey
  pub sessions : List Session
  pub challenges : List Challenge
  pub invitations : List Invitation
  pub api_tokens : List ApiToken
  pub setup_claim : Option Grant
  pub owner_recovery : Option Grant
  pub bootstrap : Option String
  pub log : List AuthEntry

-- src/server/config.ts
pub record Config : Type 0 where
  pub demo : Bool
  pub setup : Bool
  pub session_hours : ℕ

-- What `createSession` draws at random.
pub record FreshSession : Type 0 where
  pub session_id : ℕ
  pub session_token : ℕ

-- INSERT under PRIMARY KEY and UNIQUE: `clash` tells whether a row and the new one share a key.
unfoldable pub insert_row : {A : Type 0} → (A → Bool) → A → List A → Result (List A)
insert_row clash row rows = if any clash rows then err constraint else ok (rows ++ row ∷ [])

unfoldable pub note : List AuthEntry → AuthDb → AuthDb
note entries db = record db { log = db.log ++ entries }

-- SELECT ... FROM owners LIMIT 1
abbrev pub first_owner : List Owner → Option Owner
first_owner [] = none
first_owner (o ∷ os) = some o

abbrev pub owner : AuthDb → Option Owner
owner db = first_owner db.owners

-- `createSession`; `addHours` counts in milliseconds.
unfoldable pub create_session :
    Config → (ℕ → ℕ) → FreshSession → AuthDb → ℕ → Option String → Option ℕ → ℕ → Result AuthDb
create_session config hash fresh db owner_id user_agent passkey_id now = do
  let session : Session = record {
    id = fresh.session_id;
    owner_id = owner_id;
    token_hash = hash fresh.session_token;
    expires_at = now + config.session_hours * 3600000;
    created_at = now;
    last_seen_at = now;
    user_agent = user_agent;
    passkey_id = passkey_id;
  }
  sessions ←
      insert_row (λ s. s.id == session.id || s.token_hash == session.token_hash) session db.sessions
  ok (record db { sessions = sessions })

abbrev pub grant : GrantKind → AuthDb → Option Grant
grant claim db = db.setup_claim
grant recovery db = db.owner_recovery

abbrev pub set_grant : GrantKind → Option Grant → AuthDb → AuthDb
set_grant claim g db = record db { setup_claim = g }
set_grant recovery g db = record db { owner_recovery = g }

-- An hour from now.
unfoldable pub issue_grant : (ℕ → ℕ) → GrantKind → ℕ → ℕ → AuthDb → AuthDb
issue_grant hash kind token now db =
    set_grant kind (some (record { hash = hash token; expires_at = now + 3600000 })) db

abbrev pub grant_matches : Option Grant → Option ℕ → ℕ → Bool
grant_matches none h now = false
grant_matches (some g) none now = false
grant_matches (some g) (some h) now = ltb now g.expires_at && h == g.hash

-- `verifyGrantHash`
unfoldable pub verify_grant_hash : GrantKind → Option ℕ → ℕ → AuthDb → Result (Unit {0})
verify_grant_hash kind h now db = guard (grant_matches (grant kind db) h now) (service 401)

abbrev hash_of : (ℕ → ℕ) → Option ℕ → Option ℕ
hash_of hash none = none
hash_of hash (some token) = some (hash token)

-- `verifyGrant`: the same of the token itself; `tokensEqual` compares the digests.
unfoldable pub verify_grant : (ℕ → ℕ) → GrantKind → Option ℕ → ℕ → AuthDb → Result (Unit {0})
verify_grant hash kind token now db = verify_grant_hash kind (hash_of hash token) now db

unfoldable pub issue_claim : (ℕ → ℕ) → ℕ → ℕ → AuthDb → Result AuthDb
issue_claim hash token now db = do
  guard (is_none (owner db)) (service 409)
  ok (issue_grant hash claim token now (record db { bootstrap = none }))

unfoldable pub authorize_claim : (ℕ → ℕ) → Option ℕ → ℕ → AuthDb → Result (Unit {0})
authorize_claim hash token now db = do
  guard (is_none (owner db)) (service 409)
  verify_grant hash claim token now db

abbrev reset_entries : ℕ → List AuthEntry
reset_entries id =
    audit "auth.bootstrap.reset" (named "root-cli") (some id)
    ∷ event "bootstrap.reset" (named "root-cli") (some id)
    ∷ []

-- `resetBootstrap`, on the command line of the server
unfoldable pub reset_bootstrap : (ℕ → ℕ) → ℕ → ℕ → AuthDb → AuthDb
reset_bootstrap hash token now db = elim (owner db) [
  | none ↦ issue_grant hash claim token now (record db { bootstrap = none })
  | some o ↦ note (reset_entries o.id) (
      issue_grant hash recovery token now
        (record db { sessions = delete_where (λ s. s.owner_id == o.id) db.sessions }))
]
