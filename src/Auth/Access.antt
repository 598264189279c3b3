-- ===== src/Auth/Access.antt =====
-- Taking access back and giving it, in src/server/auth/webauthn.ts: `createInvitation`, `revokePasskey`,
-- `endOtherSessions`, the API tokens and the rest of the page "Access".
use text.Mathlib.Text.{◌==◌ as str_eq}
use outpost_vpn_server.Prelude.{
  ℕ, ◌+◌, String, Option, none, some, List, Bool, true, false, [], ◌∷◌, ◌==◌, ◌&&◌, ◌||◌, not, ltb,
  any, is_none, or_else, first_where, update_where, delete_where, count_where,
}
use outpost_vpn_server.Db.{service, Result, ok, ◌>>=◌, ◌>>◌, guard, or_throw}
use outpost_vpn_server.Auth.{
  Locale, ApiToken, Invitation, Actor, audit, event, AuthDb, insert_row, note, owner,
}
use outpost_vpn_server.Auth.Registration.{is_unused}

-- The input after zod: one of the two is there.
unfoldable pub update_owner : Option String → Option Locale → Actor → ℕ → AuthDb → Result AuthDb
update_owner timezone language actor now db = do
  o ← or_throw (owner db) (service 404)
  ok (
      note (audit "owner.update" actor (some o.id) ∷ []) (record db {
        owners =
            update_where (λ r. r.id == o.id)
              (λ r. record r {
                timezone = or_else timezone o.timezone;
                language = or_else language o.language;
                updated_at = now;
              })
              db.owners;
      }))

-- `invitations`: those that can still be used
abbrev pub is_pending : ℕ → Invitation → Bool
is_pending now i = is_unused i && ltb now i.expires_at

-- The name is trimmed and not empty (zod); the link is for 24 hours.
unfoldable pub create_invitation : (ℕ → ℕ) → ℕ → ℕ → String → Actor → ℕ → AuthDb → Result AuthDb
create_invitation hash id token name actor now db = do
  o ← or_throw (owner db) (service 404)
  guard (ltb (count_where (is_pending now) db.invitations) 20) (service 429)
  invitations ←
      insert_row (λ i. i.id == id || i.token_hash == hash token)
        (record {
          id = id;
          name = name;
          token_hash = hash token;
          created_at = now;
          expires_at = now + 86400000;
          consumed_at = none;
          revoked_at = none;
        })
        db.invitations
  ok (
      note (audit "auth.invitation.create" actor (some id) ∷ [])
        (record db { invitations = invitations }))

unfoldable pub revoke_invitation : ℕ → Actor → ℕ → AuthDb → Result AuthDb
revoke_invitation id actor now db = do
  guard (any (λ i. i.id == id && is_unused i) db.invitations) (service 404)
  ok (
      note (audit "auth.invitation.revoke" actor (some id) ∷ []) (record db {
        invitations =
            update_where (λ i. i.id == id && is_unused i) (λ i. record i { revoked_at = some now })
              db.invitations;
      }))

abbrev pub of_passkey : ℕ → Option ℕ → Bool
of_passkey id none = true
of_passkey id (some k) = k == id

unfoldable pub revoke_passkey : ℕ → Actor → AuthDb → Result AuthDb
revoke_passkey id actor db = do
  o ← or_throw (owner db) (service 404)
  guard (ltb 1 (count_where (λ k. k.owner_id == o.id) db.passkeys)) (service 409)
  guard (any (λ k. k.id == id && k.owner_id == o.id) db.passkeys) (service 404)
  ok (
      note (audit "auth.passkey.revoke" actor (some id) ∷ event "passkey.revoked" actor none ∷ [])
        (record db {
          passkeys = delete_where (λ k. k.id == id && k.owner_id == o.id) db.passkeys;
          sessions =
              delete_where (λ s. s.owner_id == o.id && of_passkey id s.passkey_id) db.sessions;
        }))

unfoldable pub end_other_sessions : (ℕ → ℕ) → Option ℕ → Actor → AuthDb → Result AuthDb
end_other_sessions hash session_token actor db = do
  o ← or_throw (owner db) (service 404)
  token ← or_throw session_token (service 400)
  ok (
      note
        (audit "auth.sessions.revoke_others" actor none
          ∷ event "sessions.revoked_others" actor none
          ∷ [])
        (record db {
          sessions =
              delete_where (λ s. s.owner_id == o.id && not (s.token_hash == hash token))
                db.sessions;
        }))

unfoldable pub revoke_session : (ℕ → ℕ) → ℕ → Option ℕ → Actor → AuthDb → Result AuthDb
revoke_session hash id session_token actor db = do
  o ← or_throw (owner db) (service 404)
  token ← or_throw session_token (service 400)
  s ← or_throw (first_where (λ s. s.id == id && s.owner_id == o.id) db.sessions) (service 404)
  guard (not (s.token_hash == hash token)) (service 409)
  ok (
      note (audit "auth.session.revoke" actor (some id) ∷ event "session.revoked" actor none ∷ [])
        (record db { sessions = delete_where (λ s. s.id == id && s.owner_id == o.id) db.sessions }))

-- src/shared/api-scopes.ts
abbrev pub allowed_api_scopes : List String
allowed_api_scopes =
    "status:read" ∷ "traffic:read" ∷ "connections:read" ∷ "routes:read" ∷ "operations:read"
    ∷ "system:read" ∷ "settings:read" ∷ "engines:read" ∷ "diagnostics:read" ∷ "connections:write"
    ∷ "connections:secret" ∷ "connections:rotate" ∷ "routes:write" ∷ "operations:write"
    ∷ "settings:write" ∷ "engines:write" ∷ "diagnostics:run" ∷ "backups:read" ∷ []

abbrev pub includes : String → List String → Bool
includes s [] = false
includes s (t ∷ ts) = str_eq s t || includes s ts

-- `Array.from(new Set(scopes))`: the first of each
unfoldable pub unique_scopes : List String → List String → List String
unique_scopes seen [] = []
unique_scopes seen (s ∷ ss) = elim (includes s seen) [
  | true ↦ unique_scopes seen ss
  | false ↦ s ∷ unique_scopes (s ∷ seen) ss
]

abbrev pub is_empty_list : List String → Bool
is_empty_list [] = true
is_empty_list (s ∷ ss) = false

-- `name` is trimmed; `name_fits` tells whether it has from 1 to 80 characters.
unfoldable pub create_api_token :
    (ℕ → ℕ) → ℕ → ℕ → String → Bool → List String → Actor → ℕ → AuthDb → Result AuthDb
create_api_token hash id token name name_fits scopes actor now db = do
  guard name_fits (service 400)
  let chosen = unique_scopes [] scopes
  guard (not (is_empty_list chosen || any (λ s. not (includes s allowed_api_scopes)) chosen))
      (service 400)
  api_tokens ←
      insert_row (λ t. t.id == id || t.token_hash == hash token)
        (record {
          id = id;
          name = name;
          token_hash = hash token;
          scopes = chosen;
          expires_at = none;
          created_at = now;
          last_used_at = none;
          revoked_at = none;
        })
        db.api_tokens
  ok (
      note (audit "tokens.create" actor (some id) ∷ event "token.created" actor (some id) ∷ [])
        (record db { api_tokens = api_tokens }))

abbrev pub is_live : ℕ → ApiToken → Bool
is_live id t = t.id == id && is_none t.revoked_at

unfoldable pub revoke_api_token : ℕ → Actor → ℕ → AuthDb → Result AuthDb
revoke_api_token id actor now db = do
  guard (any (is_live id) db.api_tokens) (service 404)
  ok (
      note (audit "tokens.revoke" actor (some id) ∷ event "token.revoked" actor (some id) ∷ [])
        (record db {
          api_tokens =
              update_where (is_live id) (λ t. record t { revoked_at = some now }) db.api_tokens;
        }))
