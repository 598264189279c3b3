-- ===== src/Auth/Tests.antt =====
-- A server that is claimed, gives out an invitation and an API token, and takes a passkey back.
use outpost_vpn_server.Prelude.{
  ℕ, ◌+◌, String, Option, none, some, List, ◌++◌, true, false, [], ◌∷◌, ◌≡◌, ◌≢◌, refl, arith, All,
  map, first_where, update_where, delete_where, count_where,
}
use outpost_vpn_server.Db.{service, ok, err}
use outpost_vpn_server.Auth.{
  owner_actor, audit, event, Session, Invitation, ApiToken, en, by_invite, RegistrationInfo,
  RegistrationContext, Passkey, AuthDb, Config, FreshSession, owner, Actor, named, insert_row, note,
  create_session, issue_grant, verify_grant_hash, verify_grant, issue_claim,
}
use outpost_vpn_server.Auth.Registration.{
  Chosen, verify_invitation, verify_invitation_hash, verify_authority, prune_challenges,
  store_challenge, find_challenge, consume_challenge, RegistrationInput, choose_authority,
  registration_options, begin_registration, add_passkey, finish_registration,
}
use outpost_vpn_server.Auth.Login.{
  finish_login, authenticate, authenticate_api_token, token_account,
}
use outpost_vpn_server.Auth.Access.{
  create_invitation, of_passkey, revoke_passkey, create_api_token, unique_scopes, revoke_api_token,
}
use outpost_vpn_server.Auth.Steps.{
  options_made, registering, AuthSystem, new_key, AuthAction, claim_action, options_action,
  register_action, verified_action, invite_action, token_action, finish, respond, auth_step,
  auth_steps,
}
use outpost_vpn_server.Auth.Moves.{Move, core}
use outpost_vpn_server.Auth.Sound.{IsSound}
use outpost_vpn_server.Auth.Runs.{SystemSound, auth_steps-Move, auth_steps-SystemSound}
use outpost_vpn_server.Auth.SingleUse.{invitation_registers_once}
use outpost_vpn_server.Auth.Revocation.{authenticate-revoke_api_token}
use outpost_vpn_server.Auth.Lockout.{finish_login-revoke_passkey}
use outpost_vpn_server.Auth.Recognition.{Recognised, authenticate-Entitled}

abbrev config : Config
config = record { demo = false; setup = false; session_hours = 24 }

abbrev digest : ℕ → ℕ
digest t = t + 1000

abbrev fresh_system : AuthSystem
fresh_system = record {
  db = record {
    owners = [];
    passkeys = [];
    sessions = [];
    challenges = [];
    invitations = [];
    api_tokens = [];
    setup_claim = none;
    owner_recovery = none;
    bootstrap = none;
    log = [];
  };
  waiting = [];
}

fresh_system_sound : SystemSound config fresh_system
fresh_system_sound = (
  record {
    one_owner = omega arith;
    keys_owned = tt;
    sessions_owned = tt;
    sessions_backed = tt;
    one_key = λ id. unfold count_where in omega arith;
    has_key = λ live there. cc;
  },
  tt,
)

abbrev input : Option ℕ → Option ℕ → RegistrationInput
input claim_token invite_token = record {
  timezone = some "UTC";
  language = some en;
  claim_token = claim_token;
  recovery_token = none;
  invite_token = invite_token;
}

abbrev info : ℕ → RegistrationInfo
info id = record {
  credential_id = id;
  public_key = 0;
  counter = 0;
  transports = [];
  device_type = "singleDevice";
  backed_up = false;
}

abbrev owner_name : Actor
owner_name = named "owner"

abbrev token : ℕ → ℕ → FreshSession
token id t = record { session_id = id; session_token = t }

-- The server is claimed with token 5; the owner invites with token 6 and makes an API token, 7.
abbrev claiming : List (AuthAction × ℕ)
claiming =
    (claim_action 5, 0)
    ∷ (options_action (input (some 5) none) none none 1, 500)
    ∷ (verified_action 0 (options_made 10 99) (token 0 0) none, 1000)
    ∷ (register_action 10, 2000)
    ∷ (verified_action 0 (new_key (info 50)) (token 20 30) none, 3000)
    ∷ (invite_action 60 6 "phone" owner_name, 4000)
    ∷ (token_action 70 7 "script" true ("status:read" ∷ "status:read" ∷ []) owner_name, 5000)
    ∷ (options_action (input none (some 6)) none none 2, 5500)
    ∷ (verified_action 0 (options_made 11 98) (token 0 0) none, 6000)
    ∷ (register_action 11, 7000)
    ∷ []

claimed : AuthSystem
unfolding auth_steps auth_step respond finish issue_claim issue_grant registration_options
    choose_authority verify_grant verify_grant_hash store_challenge prune_challenges insert_row
    begin_registration find_challenge verify_authority finish_registration add_passkey
    consume_challenge create_session note create_invitation create_api_token unique_scopes
    verify_invitation verify_invitation_hash first_where update_where delete_where count_where
claimed = auth_steps config digest fresh_system claiming

claimed-keys : map (λ k. k.id) claimed.db.passkeys ≡ 50 ∷ []
unfolding claimed
claimed-keys = refl

auth_steps-Move_example : Move false (core fresh_system.db) (core claimed.db)
unfolding claimed
auth_steps-Move_example = auth_steps-Move config digest fresh_system claiming fresh_system_sound

auth_steps-SystemSound_example : SystemSound config (auth_steps config digest fresh_system claiming)
auth_steps-SystemSound_example =
    auth_steps-SystemSound config digest fresh_system claiming fresh_system_sound

abbrev invited : RegistrationContext
invited = record {
  timezone = "UTC";
  language = en;
  owner_id = 1;
  authority = by_invite;
  token_hash = some 1006;
  invitation_id = some 60;
  session_hash = none;
}

claimed-waiting : claimed.waiting ≡ registering 11 invited ∷ []
unfolding claimed
claimed-waiting = refl

abbrev key : ℕ → ℕ → Option String → Passkey
key id at label = record {
  id = id;
  owner_id = 1;
  public_key = 0;
  counter = 0;
  transports = [];
  device_type = "singleDevice";
  backed_up = false;
  created_at = at;
  last_used_at = none;
  label = label;
}

abbrev session : ℕ → ℕ → ℕ → Session
session id passkey at = record {
  id = id;
  owner_id = 1;
  token_hash = id + 1010;
  expires_at = at + 86400000;
  created_at = at;
  last_seen_at = at;
  user_agent = none;
  passkey_id = some passkey;
}

abbrev invitation : Option ℕ → Invitation
invitation consumed_at = record {
  id = 60;
  name = "phone";
  token_hash = 1006;
  created_at = 4000;
  expires_at = 86404000;
  consumed_at = consumed_at;
  revoked_at = none;
}

abbrev api_token : Option ℕ → ApiToken
api_token revoked_at = record {
  id = 70;
  name = "script";
  token_hash = 1007;
  scopes = "status:read" ∷ [];
  expires_at = none;
  created_at = 5000;
  last_used_at = none;
  revoked_at = revoked_at;
}

-- The claimed server.
abbrev home : AuthDb
home = record {
  owners =
      record { id = 1; timezone = "UTC"; language = en; created_at = 3000; updated_at = 3000 } ∷ [];
  passkeys = key 50 3000 none ∷ [];
  sessions = session 20 50 3000 ∷ [];
  challenges = [];
  invitations = invitation none ∷ [];
  api_tokens = api_token none ∷ [];
  setup_claim = none;
  owner_recovery = none;
  bootstrap = none;
  log = [];
}

-- The second passkey, 51, comes by the invitation.
abbrev joined : AuthDb
joined = record home {
  passkeys = key 50 3000 none ∷ key 51 8000 (some "phone") ∷ [];
  sessions = session 20 50 3000 ∷ session 21 51 8000 ∷ [];
  invitations = invitation (some 8000) ∷ [];
  log =
      audit "auth.passkey.register" (owner_actor 1) (some 51)
      ∷ event "passkey.registered" (owner_actor 1) none
      ∷ [];
}

joined-IsSound : IsSound false (core joined)
joined-IsSound = record {
  one_owner = omega arith;
  keys_owned = (refl, (refl, tt));
  sessions_owned = (refl, (refl, tt));
  sessions_backed = (refl, (refl, tt));
  one_key = λ id. unfold count_where in ground arith;
  has_key = λ live there. omega arith;
}

-- It is tried again, and refused.
abbrev again : List (AuthAction × ℕ)
again = (options_action (input none (some 6)) none none 3, 9000) ∷ []

joins :
    finish_registration config digest (token 21 31) 11 invited (some (info 51)) none 8000 home
    ≡ ok joined
unfolding finish_registration verify_authority verify_invitation_hash add_passkey consume_challenge
    create_session insert_row note first_where update_where delete_where
joins = refl

-- What the request for options would have been granted.
abbrev by_the_invitation : Chosen
by_the_invitation = record {
  authority = by_invite;
  token_hash = some 1006;
  invitation_id = some 60;
}

abbrev after_again : AuthDb
after_again = (auth_steps config digest (record { db = joined; waiting = [] }) again).db

invitation_registers_once_example :
    (verify_invitation_hash (some 60) (some 1006) 9000 after_again ≡ err (service 403))
    × (finish_registration config digest
          (token 22 32)
          12
          invited
          (some (info 52))
          none
          9000
          after_again
        ≢ ok joined)
    × (choose_authority config digest
          (input none (some 6))
          none
          none
          9000
          after_again
          (owner after_again)
          (some 6)
        ≢ ok by_the_invitation)
invitation_registers_once_example =
    invitation_registers_once config digest (token 21 31) 11 invited (some (info 51)) none 8000 60
      home joined [] again (some 1006) 9000 (token 22 32) 12 invited (some (info 52)) none joined
      (input none (some 6)) none none (some 6) by_the_invitation refl refl joins
      (joined-IsSound, tt) refl refl refl

-- Before the first registration, the invitation was granted.
granted :
    choose_authority config digest (input none (some 6)) none none 7000 home (owner home) (some 6)
    ≡ ok by_the_invitation
unfolding choose_authority verify_invitation first_where
granted = refl

abbrev revoked : AuthDb
revoked = record joined {
  api_tokens = api_token (some 10000) ∷ [];
  log =
      joined.log
      ++ audit "tokens.revoke" owner_name (some 70)
        ∷ event "token.revoked" owner_name (some 70)
        ∷ [];
}

revokes : revoke_api_token 70 owner_name 10000 joined ≡ ok revoked
unfolding revoke_api_token note update_where
revokes = refl

authenticate-revoke_api_token_example :
    (authenticate config digest 4 none
      (some 7)
      11000
      (auth_steps config digest (record { db = revoked; waiting = [] }) again).db).1
    ≢ some (token_account 70 ("status:read" ∷ []))
authenticate-revoke_api_token_example =
    authenticate-revoke_api_token config digest 70 owner_name 10000 joined revoked [] again 4 none
      (some 7) 11000 ("status:read" ∷ []) revokes (joined-IsSound, tt)

-- Before, it was recognised by its token.
recognised_token :
    (authenticate config digest 4 none (some 7) 9000 joined).1
    ≡ some (token_account 70 ("status:read" ∷ []))
unfolding authenticate authenticate_api_token first_where
recognised_token = refl

authenticate-Entitled_example :
    Recognised digest 9000 joined
      (some 7)
      (authenticate config digest 4 none (some 7) 9000 joined).1
authenticate-Entitled_example = authenticate-Entitled config digest 4 none (some 7) 9000 joined refl

abbrev unkeyed : AuthDb
unkeyed = record joined {
  passkeys = key 51 8000 (some "phone") ∷ [];
  sessions = session 21 51 8000 ∷ [];
  log =
      joined.log
      ++ audit "auth.passkey.revoke" owner_name (some 50)
        ∷ event "passkey.revoked" owner_name none
        ∷ [];
}

takes_back : revoke_passkey 50 owner_name joined ≡ ok unkeyed
unfolding revoke_passkey note delete_where count_where
takes_back = refl

finish_login-revoke_passkey_example :
    All (λ s. of_passkey 50 s.passkey_id ≡ false) unkeyed.sessions
    × (finish_login config digest (token 22 32) 13 (key 50 3000 none) (some 1) none 12000 unkeyed
        ≡ err (service 401))
finish_login-revoke_passkey_example =
    finish_login-revoke_passkey config digest 50 owner_name joined unkeyed (token 22 32) 13
      (key 50 3000 none) (some 1) none 12000 joined-IsSound takes_back refl
