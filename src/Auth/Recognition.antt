-- ===== src/Auth/Recognition.antt =====
-- Whom `authenticate` of src/server/auth/webauthn.ts recognises.
use outpost_vpn_server.Prelude.{
  ℕ, Option, none, some, Bool, true, false, ◌==◌, ◌&&◌, ◌≡◌, refl, arith, any, is_none, is_some,
  not, ltb, leb, Bool-cases, Option-cases, inl, inr, first_where, first_where-eq-some, ==_refl,
  lt→ltb,
}
use outpost_vpn_server.Auth.{ApiToken, AuthDb, Config, owner}
use outpost_vpn_server.Auth.Login.{
  Account, owner_account, token_account, token_expired, usable_token, authenticate_api_token,
  authenticate_session, or_session, recognise, either, authenticate,
}
use outpost_vpn_server.Auth.Lifetime.{first_where-any}

-- What the tables must hold for an account to be recognised by a token's hash at a time.
abbrev pub Entitled : ℕ → ℕ → AuthDb → Option Account → Type 0
Entitled hash now db none = Unit
Entitled hash now db (some (owner_account o)) =
    (owner db ≡ some o)
    × (any (λ s. s.token_hash == hash && ltb now s.expires_at) db.sessions ≡ true)
Entitled hash now db (some (token_account id scopes)) =
    any
      (λ t.
        t.id == id
        && t.token_hash == hash
        && is_none t.revoked_at
        && not (token_expired t.expires_at now))
      db.api_tokens
    ≡ true

-- Without a token nobody, and with one only whom it entitles.
abbrev pub Recognised : (ℕ → ℕ) → ℕ → AuthDb → Option ℕ → Option Account → Type 0
Recognised hash now db none account = account ≡ none
Recognised hash now db (some token) account = Entitled (hash token) now db account

api_token-Entitled :
    (hash : ℕ → ℕ) (token now : ℕ) (db : AuthDb)
    → Entitled (hash token) now db (authenticate_api_token hash token now db).1
unfolding authenticate_api_token
api_token-Entitled hash token now db =
    elim (Option-cases (first_where (usable_token (hash token)) db.api_tokens)) [
      | inl missing ↦ rw missing tt
      | inr (t, e) ↦ elim (Bool-cases (token_expired t.expires_at now)) [
        | inl late ↦ rw (e, late) tt
        | inr fresh ↦
            rw (e, fresh)
              (first_where-any (usable_token (hash token)) _ db.api_tokens
                (matched t fresh (first_where-eq-some (usable_token (hash token)) db.api_tokens e))
                e)
      ]
    ]
  where
    matched :
        (t : ApiToken)
        → token_expired t.expires_at now ≡ false
        → usable_token (hash token) t ≡ true
        → (t.id == t.id
            && t.token_hash == hash token
            && is_none t.revoked_at
            && not (token_expired t.expires_at now))
          ≡ true
    matched t fresh hit = rw (==_refl t.id, hit, fresh) refl

session-Entitled :
    (hash : ℕ → ℕ) (token now : ℕ) (db : AuthDb)
    → Entitled (hash token) now db (authenticate_session hash token now db).1
unfolding authenticate_session
session-Entitled hash token now db =
    elim (Option-cases (first_where (λ s. s.token_hash == hash token) db.sessions)) [
      | inl missing ↦ rw missing tt
      | inr (s, e) ↦ elim (Bool-cases (leb s.expires_at now)) [
        | inl late ↦ rw (e, late) tt
        | inr live ↦ elim (Option-cases (owner db)) [
          | inl nobody ↦ rw (e, live, nobody) tt
          | inr (o, is_it) ↦
              rw (e, live, is_it)
                (
                  is_it,
                  first_where-any (λ s. s.token_hash == hash token) _ db.sessions
                      (rw (first_where-eq-some (λ s. s.token_hash == hash token) db.sessions e)
                        (lt→ltb now s.expires_at (ground arith)))
                      e,
                )
        ]
      ]
    ]

or_session-Entitled :
    (hash now : ℕ) (db : AuthDb) (a b : AuthDb × Option Account)
    → Entitled hash now db a.1
    → Entitled hash now db b.1
    → Entitled hash now db (or_session a b).1
or_session-Entitled hash now db (d, some x) b m n = m
or_session-Entitled hash now db (d, none) b m n = n

recognise-Entitled :
    (hash : ℕ → ℕ) (token : ℕ) (bearer : Bool) (now : ℕ) (db : AuthDb)
    → Entitled (hash token) now db (recognise hash (some token) bearer now db).1
recognise-Entitled hash token false now db = session-Entitled hash token now db
recognise-Entitled hash token true now db =
    or_session-Entitled (hash token) now db (authenticate_api_token hash token now db)
      (authenticate_session hash token now db) (api_token-Entitled hash token now db)
      (session-Entitled hash token now db)

-- A server that is not a demonstration recognises nobody without a token; by the token of the cookie, or
-- else of the header, it recognises only the owner, with a session of that token that has not expired, or
-- an API token of that hash that was neither revoked nor has expired, with its own id.
pub authenticate-Entitled :
    (config : Config) (hash : ℕ → ℕ) (fresh_id : ℕ) (session bearer : Option ℕ) (now : ℕ)
    (db : AuthDb)
    → config.demo ≡ false
    → Recognised hash now db
        (either session bearer)
        (authenticate config hash fresh_id session bearer now db).1
unfolding authenticate
authenticate-Entitled config hash fresh_id none none now db live = rw live refl
authenticate-Entitled config hash fresh_id (some token) bearer now db live =
    rw live (recognise-Entitled hash token (is_some bearer) now db)
authenticate-Entitled config hash fresh_id none (some token) now db live =
    rw live (recognise-Entitled hash token true now db)
