-- ===== src/Auth/Login.antt =====
-- Logging in and being recognised, in src/server/auth/webauthn.ts. `finishAuthentication` is cut at the
-- wait for the verifier: `begin_login` is what runs before it, `finish_login` what runs when it has
-- answered.
use outpost_vpn_server.Prelude.{
  ℕ, String, Option, none, some, List, Bool, true, false, [], ◌∷◌, ◌++◌, ◌==◌, ◌&&◌, if◌then◌else◌,
  leb, any, is_none, is_some, first_where, update_where, delete_where,
}
use outpost_vpn_server.Db.{service, Result, ok, ◌>>=◌, ◌>>◌, guard, or_throw}
use outpost_vpn_server.Auth.{
  en, Owner, Passkey, Session, ApiToken, authentication, owner_actor, audit, event, AuthDb, Config,
  FreshSession, note, owner, create_session,
}
use outpost_vpn_server.Auth.Registration.{prune_challenges, find_challenge, consume_challenge}

-- `authenticationOptions` up to the wait for the library's options: the owner, whose id `storeChallenge`
-- then keeps.
unfoldable pub authentication_options : AuthDb → Result Owner
authentication_options db = or_throw (owner db) (service 409)

-- The tables, the challenge and the key that the verifier gets.
unfoldable pub begin_login : ℕ → ℕ → ℕ → AuthDb → Result (AuthDb × ℕ × Passkey)
begin_login challenge_id response_id now db = do
  let pruned = prune_challenges now db
  c ← find_challenge authentication challenge_id now pruned
  key ← or_throw (first_where (λ k. k.id == response_id) pruned.passkeys) (service 401)
  ok (pruned, c.challenge, key)

-- UPDATE passkeys SET counter = ?, last_used_at = ? WHERE id = ?
unfoldable pub use_passkey : ℕ → ℕ → ℕ → AuthDb → AuthDb
use_passkey id counter now db = record db {
  passkeys =
      update_where (λ k. k.id == id) (λ k. record k { counter = counter; last_used_at = some now })
        db.passkeys;
}

-- `outcome` is the new counter; `none` is a response that was not verified.
unfoldable pub finish_login :
    Config
    → (ℕ → ℕ)
    → FreshSession
    → ℕ
    → Passkey
    → Option ℕ
    → Option String
    → ℕ
    → AuthDb
    → Result AuthDb
finish_login config hash fresh challenge_id key outcome user_agent now db = do
  counter ← or_throw outcome (service 401)
  guard (any (λ k. k.id == key.id) db.passkeys) (service 401)
  opened ←
      create_session config hash fresh
        (consume_challenge challenge_id (use_passkey key.id counter now db)) key.owner_id user_agent
        (some key.id) now
  ok (
      note
        (audit "auth.login" (owner_actor key.owner_id) (some fresh.session_id)
          ∷ event "auth.login_succeeded" (owner_actor key.owner_id) none
          ∷ [])
        opened)

-- Who `authenticate` finds: the owner, or an API token with its scopes.
pub data Account : Type 0 where
  owner_account : Owner → Account
  token_account : ℕ → List String → Account

abbrev pub token_expired : Option ℕ → ℕ → Bool
token_expired none now = false
token_expired (some at) now = leb at now

abbrev pub usable_token : ℕ → ApiToken → Bool
usable_token hash t = t.token_hash == hash && is_none t.revoked_at

abbrev pub api_account : Option ApiToken → ℕ → AuthDb → AuthDb × Option Account
api_account none now db = (db, none)
api_account (some t) now db = if token_expired t.expires_at now then (db, none) else (
  record db {
    api_tokens =
        update_where (λ r. r.id == t.id) (λ r. record r { last_used_at = some now }) db.api_tokens;
  },
  some (token_account t.id t.scopes),
)

unfoldable pub authenticate_api_token : (ℕ → ℕ) → ℕ → ℕ → AuthDb → AuthDb × Option Account
authenticate_api_token hash token now db =
    api_account (first_where (usable_token (hash token)) db.api_tokens) now db

abbrev pub account_of : Option Owner → Option Account
account_of none = none
account_of (some o) = some (owner_account o)

abbrev pub session_account : Option Session → ℕ → AuthDb → AuthDb × Option Account
session_account none now db = (db, none)
session_account (some s) now db = if leb s.expires_at now then (db, none) else (
  record db {
    sessions = update_where (λ r. r.id == s.id) (λ r. record r { last_seen_at = now }) db.sessions;
  },
  account_of (owner db),
)

unfoldable pub authenticate_session : (ℕ → ℕ) → ℕ → ℕ → AuthDb → AuthDb × Option Account
authenticate_session hash token now db =
    session_account (first_where (λ s. s.token_hash == hash token) db.sessions) now db

-- `demoOwner`: the owner, or a new one
unfoldable pub demo_owner : ℕ → ℕ → AuthDb → AuthDb × Owner
demo_owner fresh_id now db = elim (owner db) [
  | some o ↦ (db, o)
  | none ↦ added (record {
    id = fresh_id;
    timezone = "UTC";
    language = en;
    created_at = now;
    updated_at = now;
  })
]
  where
    added : Owner → AuthDb × Owner
    added o = (record db { owners = db.owners ++ o ∷ [] }, o)

abbrev pub or_session : AuthDb × Option Account → AuthDb × Option Account → AuthDb × Option Account
or_session (db, some a) later = (db, some a)
or_session (db, none) later = later

-- The token of the session's cookie or of the header, and whether there is a header `Bearer ...`.
abbrev pub recognise : (ℕ → ℕ) → Option ℕ → Bool → ℕ → AuthDb → AuthDb × Option Account
recognise hash none bearer now db = (db, none)
recognise hash (some token) false now db = authenticate_session hash token now db
recognise hash (some token) true now db =
    or_session (authenticate_api_token hash token now db) (authenticate_session hash token now db)

abbrev pub either : Option ℕ → Option ℕ → Option ℕ
either (some a) b = some a
either none b = b

-- `session_token` is the cookie, `bearer` what follows `Bearer ` in the header.
unfoldable pub authenticate :
    Config → (ℕ → ℕ) → ℕ → Option ℕ → Option ℕ → ℕ → AuthDb → AuthDb × Option Account
authenticate config hash fresh_id session_token bearer now db =
    let demo = demo_owner fresh_id now db in
    if config.demo
    then (demo.0, some (owner_account demo.1))
    else recognise hash (either session_token bearer) (is_some bearer) now db

unfoldable pub logout : (ℕ → ℕ) → Option ℕ → AuthDb → AuthDb
logout hash none db = db
logout hash (some token) db = record db {
  sessions = delete_where (λ s. s.token_hash == hash token) db.sessions;
}
