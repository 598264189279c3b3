-- ===== src/Auth/Responses.antt =====
-- What each request of src/server/auth/webauthn.ts, and the end of each wait, does to the tables, against
-- the description of Auth.Moves.
use outpost_vpn_server.Prelude.{
  ℕ, String, Option, none, some, Bool, true, ◌==◌, ◌≡◌, refl, All-first_where, first_where,
}
use outpost_vpn_server.Db.{service, Result}
use outpost_vpn_server.Db.Laws.{Holds, returned, threw, bind-Holds, bind_any-Holds}
use outpost_vpn_server.Auth.{
  ChallengeKind, StoredContext, AuthDb, Config, FreshSession, authentication, registration,
}
use outpost_vpn_server.Auth.Registration.{
  begin_registration, prune_challenges, find_challenge, verify_authority, parse_context,
}
use outpost_vpn_server.Auth.Login.{begin_login}
use outpost_vpn_server.Auth.Steps.{
  Waiting, asking, new_key, new_counter, refused, options_made, store_options, registering,
  logging_in, Verified, AuthAction, claim_action, reset_action, options_action, register_action,
  login_options_action, login_action, verified_action, recognise_action, logout_action,
  owner_action, invite_action, uninvite_action, unkey_action, untoken_action, end_others_action,
  end_session_action, token_action, kept, finish, respond, key_of, counter_of,
}
use outpost_vpn_server.Auth.Moves.{Core, core, owned_by, Move, idle}
use outpost_vpn_server.Auth.Sound.{IsSound}
use outpost_vpn_server.Auth.Refinement.{store_challenge-Moves, Moves, or_throw-Holds}
use outpost_vpn_server.Auth.Requests.{
  finish_registration-Moves, finish_login-Moves, issue_claim-Moves, reset_bootstrap-Move,
  logout-Move, authenticate-Move,
}
use outpost_vpn_server.Auth.AccessRequests.{
  update_owner-Moves, create_invitation-Moves, revoke_invitation-Moves, revoke_passkey-Moves,
  end_other_sessions-Moves, revoke_session-Moves, create_api_token-Moves, revoke_api_token-Moves,
}

kept-Move :
    {demo : Bool} (db : AuthDb) {r : Result AuthDb}
    → Moves demo db r
    → Move demo (core db) (core (kept db r))
kept-Move db (returned m) = m
kept-Move db threw = idle

-- A login that waits is with a key of the owner.
abbrev pub IsOwned : Core → Waiting → Type 0
IsOwned c (asking kind context) = Unit
IsOwned c (registering id context) = Unit
IsOwned c (logging_in id key) = owned_by key.owner_id c.owners ≡ true

store_options-Moves :
    (demo : Bool) (kind : ChallengeKind) (context : StoredContext) (answer : Verified) (now : ℕ)
    (db : AuthDb)
    → Moves demo db (store_options kind context answer now db)
store_options-Moves demo kind context (options_made id challenge) now db =
    store_challenge-Moves demo kind id challenge context now db
store_options-Moves demo kind context (new_key info) now db = returned idle
store_options-Moves demo kind context (new_counter n) now db = returned idle
store_options-Moves demo kind context refused now db = returned idle

module _ (config : Config) (hash : ℕ → ℕ) where
  pub finish-Move :
      (w : Option Waiting) (answer : Verified) (fresh : FreshSession) (user_agent : Option String)
      (now : ℕ) (db : AuthDb)
      → ((v : Waiting) → w ≡ some v → IsOwned (core db) v)
      → Move config.demo (core db) (core (finish config hash w answer fresh user_agent now db))
  unfolding finish
  finish-Move none answer fresh user_agent now db h = idle
  finish-Move (some (asking kind context)) answer fresh user_agent now db h =
      kept-Move db (store_options-Moves config.demo kind context answer now db)
  finish-Move (some (registering id context)) answer fresh user_agent now db h = kept-Move db (
      finish_registration-Moves config.demo config hash fresh id context (key_of answer) user_agent
        now db)
  finish-Move (some (logging_in id key)) answer fresh user_agent now db h = kept-Move db (
      finish_login-Moves config.demo config hash fresh id key (counter_of answer) user_agent now db
        (h (logging_in id key) refl))

  pub respond-Move :
      (action : AuthAction) (now : ℕ) (db : AuthDb)
      → Move config.demo (core db) (core (respond config hash action now db))
  unfolding respond
  respond-Move (claim_action token) now db = kept-Move db (issue_claim-Moves _ hash token now db)
  respond-Move (reset_action token) now db = reset_bootstrap-Move _ hash token now db
  respond-Move (options_action input who session owner_id) now db = idle
  respond-Move login_options_action now db = idle
  respond-Move (recognise_action owner_id session bearer) now db =
      authenticate-Move config hash owner_id session bearer now db
  respond-Move (logout_action token) now db = logout-Move _ hash token db
  respond-Move (owner_action timezone language actor) now db =
      kept-Move db (update_owner-Moves _ timezone language actor now db)
  respond-Move (invite_action id token name actor) now db =
      kept-Move db (create_invitation-Moves _ hash id token name actor now db)
  respond-Move (uninvite_action id actor) now db =
      kept-Move db (revoke_invitation-Moves _ id actor now db)
  respond-Move (unkey_action id actor) now db = kept-Move db (revoke_passkey-Moves _ id actor db)
  respond-Move (untoken_action id actor) now db =
      kept-Move db (revoke_api_token-Moves _ id actor now db)
  respond-Move (end_others_action session actor) now db =
      kept-Move db (end_other_sessions-Moves _ hash session actor db)
  respond-Move (end_session_action id session actor) now db =
      kept-Move db (revoke_session-Moves _ hash id session actor db)
  respond-Move (token_action id token name fits scopes actor) now db =
      kept-Move db (create_api_token-Moves _ hash id token name fits scopes actor now db)
  respond-Move (register_action id) now db = idle
  respond-Move (login_action id response_id) now db = idle
  respond-Move (verified_action n answer fresh user_agent) now db = idle

  -- What the first half of a login leaves and passes on.
  pub begin_login-Holds :
      (id response_id now : ℕ) (db : AuthDb)
      → IsSound config.demo (core db)
      → Holds
          (λ r. Move config.demo (core db) (core r.0) × (owned_by r.2.owner_id db.owners ≡ true))
          (begin_login id response_id now db)
  unfolding begin_login prune_challenges
  begin_login-Holds id response_id now db sound =
      bind_any-Holds (find_challenge authentication id now (prune_challenges now db)) λ c.
        bind-Holds
          (or_throw-Holds (first_where (λ k. k.id == response_id) db.passkeys) (service 401))
          λ key e. returned (
            idle,
            All-first_where (λ k. k.id == response_id) (λ k. owned_by k.owner_id db.owners ≡ true)
                db.passkeys e sound.keys_owned,
          )

  pub begin_registration-Moves :
      (id now : ℕ) (db : AuthDb)
      → Holds (λ r. Move config.demo (core db) (core r.0)) (begin_registration config id now db)
  unfolding begin_registration prune_challenges
  begin_registration-Moves id now db =
      bind_any-Holds (find_challenge registration id now (prune_challenges now db)) λ c.
        bind_any-Holds (parse_context c.context) λ context.
          bind_any-Holds
            (verify_authority config context context.authority now (prune_challenges now db))
            λ i. returned idle
