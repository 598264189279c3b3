-- ===== src/Auth/Steps.antt =====
-- Runs of src/server/auth/webauthn.ts: every request, in any order, with the calls that wait for a
-- verifier or for options in between.
use outpost_vpn_server.Prelude.{
  ℕ, String, Option, none, some, List, Bool, [], ◌∷◌, ◌++◌, zero, suc, get_elem?,
}
use outpost_vpn_server.Db.{Result, ok, err}
use outpost_vpn_server.Auth.{
  Locale, Owner, RegistrationInfo, Passkey, RegistrationContext, ChallengeKind, registration,
  authentication, StoredContext, of_registration, of_authentication, Actor, AuthDb, Config,
  FreshSession, issue_claim, reset_bootstrap,
}
use outpost_vpn_server.Auth.Registration.{
  RegistrationInput, registration_options, store_challenge, begin_registration, finish_registration,
}
use outpost_vpn_server.Auth.Login.{
  authentication_options, begin_login, finish_login, authenticate, logout,
}
use outpost_vpn_server.Auth.Access.{
  update_owner, create_invitation, revoke_invitation, revoke_passkey, end_other_sessions,
  revoke_session, create_api_token, revoke_api_token,
}

-- A call that waits: for its verifier, with its challenge id and what it has read, or for the options of
-- the library, with what it will store of the challenge in them.
pub data Waiting : Type 0 where
  asking : ChallengeKind → StoredContext → Waiting
  registering : ℕ → RegistrationContext → Waiting
  logging_in : ℕ → Passkey → Waiting

pub record AuthSystem : Type 0 where
  pub db : AuthDb
  pub waiting : List Waiting

-- What ends a wait: a new key, a new counter, nothing that is verified, or options with a challenge, for
-- which an id is drawn.
pub data Verified : Type 0 where
  new_key : RegistrationInfo → Verified
  new_counter : ℕ → Verified
  refused : Verified
  options_made : ℕ → ℕ → Verified

pub data AuthAction : Type 0 where
  claim_action reset_action : ℕ → AuthAction
  options_action : RegistrationInput → Option ℕ → Option ℕ → ℕ → AuthAction
  register_action : ℕ → AuthAction
  login_options_action : AuthAction
  login_action : ℕ → ℕ → AuthAction
  verified_action : ℕ → Verified → FreshSession → Option String → AuthAction
  recognise_action : ℕ → Option ℕ → Option ℕ → AuthAction
  logout_action : Option ℕ → AuthAction
  owner_action : Option String → Option Locale → Actor → AuthAction
  invite_action : ℕ → ℕ → String → Actor → AuthAction
  uninvite_action unkey_action untoken_action : ℕ → Actor → AuthAction
  end_others_action : Option ℕ → Actor → AuthAction
  end_session_action : ℕ → Option ℕ → Actor → AuthAction
  token_action : ℕ → ℕ → String → Bool → List String → Actor → AuthAction

abbrev pub key_of : Verified → Option RegistrationInfo
key_of (new_key info) = some info
key_of _ = none

abbrev pub counter_of : Verified → Option ℕ
counter_of (new_counter n) = some n
counter_of _ = none

abbrev pub remove_at {ℓ} : {A : Type ℓ} → ℕ → List A → List A
remove_at n [] = []
remove_at zero (x ∷ xs) = xs
remove_at (suc n) (x ∷ xs) = x ∷ remove_at n xs

-- The tables after a call; one that throws leaves them as they were.
abbrev pub kept : AuthDb → Result AuthDb → AuthDb
kept db (ok d) = d
kept db (err e) = db

abbrev pub begun_registration :
    AuthSystem → ℕ → Result (AuthDb × ℕ × RegistrationContext) → AuthSystem
begun_registration s id (ok (db, challenge, context)) = record {
  db = db;
  waiting = s.waiting ++ registering id context ∷ [];
}
begun_registration s id (err e) = s

abbrev pub begun_login : AuthSystem → ℕ → Result (AuthDb × ℕ × Passkey) → AuthSystem
begun_login s id (ok (db, challenge, key)) = record {
  db = db;
  waiting = s.waiting ++ logging_in id key ∷ [];
}
begun_login s id (err e) = s

abbrev pub asked_registration : AuthSystem → Result RegistrationContext → AuthSystem
asked_registration s (ok context) = record s {
  waiting = s.waiting ++ asking registration (of_registration context) ∷ [];
}
asked_registration s (err e) = s

abbrev pub asked_login : AuthSystem → Result Owner → AuthSystem
asked_login s (ok o) = record s {
  waiting = s.waiting ++ asking authentication (of_authentication o.id) ∷ [];
}
asked_login s (err e) = s

-- `storeChallenge`, if the options were made.
abbrev pub store_options : ChallengeKind → StoredContext → Verified → ℕ → AuthDb → Result AuthDb
store_options kind context (options_made id challenge) now db =
    store_challenge kind id challenge context now db
store_options kind context _ now db = ok db

module _ (config : Config) (hash : ℕ → ℕ) where
  -- The second half of the call that waits.
  unfoldable pub finish :
      Option Waiting → Verified → FreshSession → Option String → ℕ → AuthDb → AuthDb
  finish none answer fresh user_agent now db = db
  finish (some (asking kind context)) answer fresh user_agent now db =
      kept db (store_options kind context answer now db)
  finish (some (registering id context)) answer fresh user_agent now db =
      kept db (finish_registration config hash fresh id context (key_of answer) user_agent now db)
  finish (some (logging_in id key)) answer fresh user_agent now db =
      kept db (finish_login config hash fresh id key (counter_of answer) user_agent now db)

  -- The requests that do not wait.
  unfoldable pub respond : AuthAction → ℕ → AuthDb → AuthDb
  respond (claim_action token) now db = kept db (issue_claim hash token now db)
  respond (reset_action token) now db = reset_bootstrap hash token now db
  respond (recognise_action owner_id session bearer) now db =
      (authenticate config hash owner_id session bearer now db).0
  respond (logout_action token) now db = logout hash token db
  respond (owner_action timezone language actor) now db =
      kept db (update_owner timezone language actor now db)
  respond (invite_action id token name actor) now db =
      kept db (create_invitation hash id token name actor now db)
  respond (uninvite_action id actor) now db = kept db (revoke_invitation id actor now db)
  respond (unkey_action id actor) now db = kept db (revoke_passkey id actor db)
  respond (untoken_action id actor) now db = kept db (revoke_api_token id actor now db)
  respond (end_others_action session actor) now db =
      kept db (end_other_sessions hash session actor db)
  respond (end_session_action id session actor) now db =
      kept db (revoke_session hash id session actor db)
  respond (token_action id token name fits scopes actor) now db =
      kept db (create_api_token hash id token name fits scopes actor now db)
  respond _ now db = db

  unfoldable pub auth_step : AuthSystem → AuthAction → ℕ → AuthSystem
  auth_step s (options_action input who session owner_id) now =
      asked_registration s (registration_options config hash input who session owner_id now s.db)
  auth_step s login_options_action now = asked_login s (authentication_options s.db)
  auth_step s (register_action id) now =
      begun_registration s id (begin_registration config id now s.db)
  auth_step s (login_action id response_id) now =
      begun_login s id (begin_login id response_id now s.db)
  auth_step s (verified_action n answer fresh user_agent) now = record {
    db = finish (get_elem? s.waiting n) answer fresh user_agent now s.db;
    waiting = remove_at n s.waiting;
  }
  auth_step s action now = record s { db = respond action now s.db }

  unfoldable pub auth_steps : AuthSystem → List (AuthAction × ℕ) → AuthSystem
  auth_steps s [] = s
  auth_steps s ((action, now) ∷ rest) = auth_steps (auth_step s action now) rest
