-- ===== src/Auth/Requests.antt =====
-- The remaining requests of src/server/auth/webauthn.ts, each as moves of the description.
use outpost_vpn_server.Prelude.{
  ℕ, String, Option, none, some, List, Bool, true, false, [], ◌∷◌, ◌++◌, ◌==◌, ◌≡◌, refl, ap, ◌∙◌,
  any, is_none, leb, Bool-cases, inl, inr, any-update_where, first_where, is_some, Option-cases,
}
use outpost_vpn_server.Db.{service, guard, or_throw}
use outpost_vpn_server.Db.Laws.{returned, bind-Holds, bind_any-Holds}
use outpost_vpn_server.Auth.{
  Owner, Passkey, ApiToken, Invitation, Authority, RegistrationContext, RegistrationInfo, AuthDb,
  Config, FreshSession, note, owner, issue_grant, issue_claim, reset_bootstrap,
}
use outpost_vpn_server.Auth.Registration.{
  consume_challenge, clear_grant, consume_invitation, finish_registration,
}
use outpost_vpn_server.Auth.Login.{
  use_passkey, finish_login, authenticate, authenticate_api_token, authenticate_session, demo_owner,
  logout, usable_token, api_account, token_expired, or_session, recognise, Account, either,
}
use outpost_vpn_server.Auth.Moves.{
  Core, core, owned_by, Move, idle, both, found_demo, use_key, touch_session, close_sessions,
  use_token,
}
use outpost_vpn_server.Auth.Refinement.{
  Moves, guard-Holds, create_session-Moves, consume_invitation-Moves, clear_grant-core,
  verify_authority-Granted, register-Registered, no_owner-eq,
}

module _ (demo : Bool) where
  consume_invitation-kept :
      (i : Option Invitation) (now : ℕ) (db : AuthDb)
      → ((consume_invitation i now db).owners ≡ db.owners)
        × ((consume_invitation i now db).passkeys ≡ db.passkeys)
  consume_invitation-kept none now db = (refl, refl)
  consume_invitation-kept (some i) now db = (refl, refl)

  -- The grant and the invitation that a registration uses up.
  spending-Move :
      (i : Option Invitation) (a : Authority) (now : ℕ) (db : AuthDb)
      → Move demo (core db) (core (consume_invitation i now (clear_grant a db)))
        × ((consume_invitation i now (clear_grant a db)).owners ≡ db.owners)
        × ((consume_invitation i now (clear_grant a db)).passkeys ≡ db.passkeys)
  spending-Move i a now db =
      let same = clear_grant-core a db in
      let (owners, passkeys) = consume_invitation-kept i now (clear_grant a db) in
      (
        rw same at (consume_invitation-Moves demo i now (clear_grant a db)),
        owners ∙ ap (λ (c : Core). c.owners) same,
        passkeys ∙ ap (λ (c : Core). c.passkeys) same,
      )

  pub finish_registration-Moves :
      (config : Config) (hash : ℕ → ℕ) (fresh : FreshSession) (id : ℕ)
      (context : RegistrationContext) (outcome : Option RegistrationInfo)
      (user_agent : Option String) (now : ℕ) (db : AuthDb)
      → Moves demo db (finish_registration config hash fresh id context outcome user_agent now db)
  unfolding finish_registration note consume_challenge
  finish_registration-Moves config hash fresh id context outcome user_agent now db =
      bind_any-Holds (or_throw outcome (service 400)) λ info.
        bind-Holds (verify_authority-Granted config context context.authority now db) λ i granted.
          bind-Holds (register-Registered demo context.authority context info i now db granted)
            λ d done.
              let (moved, owners, passkeys) =
                spending-Move i context.authority now (consume_challenge id d) in
              bind-Holds
                (create_session-Moves demo config hash fresh
                  (consume_invitation i now
                    (clear_grant context.authority (consume_challenge id d)))
                  context.owner_id user_agent (some info.credential_id) now (rw owners done.1)
                  (rw passkeys done.2))
                λ e opened. returned (both done.0 (both moved opened))

  pub use_passkey-Move :
      (id counter now : ℕ) (db : AuthDb)
      → Move demo (core db) (core (use_passkey id counter now db))
  unfolding use_passkey
  use_passkey-Move id counter now db = use_key _ _ (λ k. (refl, refl))

  pub finish_login-Moves :
      (config : Config) (hash : ℕ → ℕ) (fresh : FreshSession) (id : ℕ) (key : Passkey)
      (outcome : Option ℕ) (user_agent : Option String) (now : ℕ) (db : AuthDb)
      → owned_by key.owner_id db.owners ≡ true
      → Moves demo db (finish_login config hash fresh id key outcome user_agent now db)
  unfolding finish_login note consume_challenge use_passkey
  finish_login-Moves config hash fresh id key outcome user_agent now db owned =
      bind_any-Holds (or_throw outcome (service 401)) λ counter.
        bind-Holds (guard-Holds (any (λ k. k.id == key.id) db.passkeys) (service 401)) λ _ known.
          bind-Holds
            (create_session-Moves demo config hash fresh
              (consume_challenge id (use_passkey key.id counter now db)) key.owner_id user_agent
              (some key.id) now owned
              (any-update_where (λ k. k.id == key.id) (λ k. k.id == key.id) _ (λ k. refl)
                  db.passkeys
                ∙ known))
            λ d moved. returned (both (use_passkey-Move key.id counter now db) moved)

  pub issue_claim-Moves :
      (hash : ℕ → ℕ) (token now : ℕ) (db : AuthDb) → Moves demo db (issue_claim hash token now db)
  unfolding issue_claim issue_grant
  issue_claim-Moves hash token now db =
      bind_any-Holds (guard (is_none (owner db)) (service 409)) λ _. returned idle

  pub reset_bootstrap-Move :
      (hash : ℕ → ℕ) (token now : ℕ) (db : AuthDb)
      → Move demo (core db) (core (reset_bootstrap hash token now db))
  unfolding reset_bootstrap issue_grant note
  reset_bootstrap-Move hash token now db = elim (Option-cases (owner db)) [
    | inl nobody ↦ rw (reset_bootstrap, nobody) idle
    | inr (o, e) ↦ rw (reset_bootstrap, e) (close_sessions _)
  ]

  pub logout-Move :
      (hash : ℕ → ℕ) (token : Option ℕ) (db : AuthDb)
      → Move demo (core db) (core (logout hash token db))
  unfolding logout
  logout-Move hash none db = idle
  logout-Move hash (some token) db = close_sessions _

  use_token-Move :
      (t : ApiToken) (now : ℕ) (db : AuthDb)
      → Move demo (core db) (core (api_account (some t) now db).0)
  use_token-Move t now db = elim (Bool-cases (token_expired t.expires_at now)) [
    | inl late ↦ rw late idle
    | inr fresh ↦ rw fresh (use_token _ _ (λ r. (refl, λ gone. gone)))
  ]

  authenticate_api_token-Move :
      (hash : ℕ → ℕ) (token now : ℕ) (db : AuthDb)
      → Move demo (core db) (core (authenticate_api_token hash token now db).0)
  unfolding authenticate_api_token
  authenticate_api_token-Move hash token now db =
      elim (Option-cases (first_where (usable_token (hash token)) db.api_tokens)) [
        | inl missing ↦ rw missing idle
        | inr (t, e) ↦ rw e (use_token-Move t now db)
      ]

  authenticate_session-Move :
      (hash : ℕ → ℕ) (token now : ℕ) (db : AuthDb)
      → Move demo (core db) (core (authenticate_session hash token now db).0)
  unfolding authenticate_session
  authenticate_session-Move hash token now db =
      elim (Option-cases (first_where (λ s. s.token_hash == hash token) db.sessions)) [
        | inl missing ↦ rw missing idle
        | inr (s, e) ↦ elim (Bool-cases (leb s.expires_at now)) [
          | inl late ↦ rw (e, late) idle
          | inr live ↦ rw (e, live) (touch_session _ _ (λ r. (refl, refl, refl)))
        ]
      ]

  or_session-Move :
      (db : AuthDb) (a b : AuthDb × Option Account)
      → Move demo (core db) (core a.0)
      → Move demo (core db) (core b.0)
      → Move demo (core db) (core (or_session a b).0)
  or_session-Move db (d, some x) b m n = m
  or_session-Move db (d, none) b m n = n

  recognise-Move :
      (hash : ℕ → ℕ) (token : Option ℕ) (bearer : Bool) (now : ℕ) (db : AuthDb)
      → Move demo (core db) (core (recognise hash token bearer now db).0)
  recognise-Move hash none bearer now db = idle
  recognise-Move hash (some token) false now db = authenticate_session-Move hash token now db
  recognise-Move hash (some token) true now db =
      or_session-Move db (authenticate_api_token hash token now db)
        (authenticate_session hash token now db) (authenticate_api_token-Move hash token now db)
        (authenticate_session-Move hash token now db)

  without_owner :
      (db : AuthDb) (os : List Owner) (o : Owner)
      → demo ≡ true
      → os ≡ []
      → Move demo (core (record db { owners = os })) (core (record db { owners = os ++ o ∷ [] }))
  without_owner db os o d e = rw e (found_demo o d refl)

  demo_owner-Move :
      (fresh_id now : ℕ) (db : AuthDb)
      → demo ≡ true
      → Move demo (core db) (core (demo_owner fresh_id now db).0)
  unfolding demo_owner
  demo_owner-Move fresh_id now db d = elim (Option-cases (owner db)) [
    | inl nobody ↦
        rw (demo_owner, nobody)
          (without_owner db db.owners _ d (no_owner-eq db.owners (rw nobody refl)))
    | inr (o, e) ↦ rw (demo_owner, e) idle
  ]

pub authenticate-Move :
    (config : Config) (hash : ℕ → ℕ) (fresh_id : ℕ) (session bearer : Option ℕ) (now : ℕ)
    (db : AuthDb)
    → Move config.demo (core db) (core (authenticate config hash fresh_id session bearer now db).0)
unfolding authenticate
authenticate-Move config hash fresh_id session bearer now db = elim (Bool-cases config.demo) [
  | inl demo ↦ rw demo (demo_owner-Move true fresh_id now db refl)
  | inr live ↦ rw live (recognise-Move false hash (either session bearer) (is_some bearer) now db)
]
