-- ===== src/Auth/Registration.antt =====
-- `registrationOptions` and `finishRegistration` of src/server/auth/webauthn.ts. Both are cut at their
-- wait: `registration_options` and `begin_registration` are what runs before it, `store_challenge` and
-- `finish_registration` what runs when the options are made or the verifier has answered.
use outpost_vpn_server.Prelude.{
  ℕ, ◌+◌, String, Option, none, some, List, Bool, true, false, [], ◌∷◌, ◌++◌, ◌==◌, ◌&&◌, ◌||◌, not,
  if◌then◌else◌, ltb, leb, any, is_none, is_some, first_where, update_where, delete_where,
  count_where,
}
use outpost_vpn_server.Db.{service, unreadable, Result, ok, err, ◌>>=◌, ◌>>◌, guard, or_throw}
use outpost_vpn_server.Auth.{
  Locale, en, Owner, RegistrationInfo, Passkey, Invitation, claim, recovery, Authority, by_claim,
  by_recovery, by_session, by_invite, RegistrationContext, ChallengeKind, registration,
  authentication, StoredContext, of_registration, of_authentication, Challenge, owner_actor, audit,
  event, AuthDb, Config, FreshSession, insert_row, note, owner, create_session, set_grant, hash_of,
  verify_grant, verify_grant_hash,
}

-- consumed_at IS NULL AND revoked_at IS NULL
abbrev pub is_unused : Invitation → Bool
is_unused i = is_none i.consumed_at && is_none i.revoked_at

abbrev pub not_expired : ℕ → Invitation → Result Invitation
not_expired now i = if leb i.expires_at now then err (service 403) else ok i

-- `verifyInvitation`
unfoldable pub verify_invitation : ℕ → ℕ → AuthDb → Result Invitation
verify_invitation token_hash now db = do
  i ←
      or_throw (first_where (λ i. i.token_hash == token_hash && is_unused i) db.invitations)
        (service 403)
  not_expired now i

-- `verifyInvitationHash`
unfoldable pub verify_invitation_hash : Option ℕ → Option ℕ → ℕ → AuthDb → Result Invitation
verify_invitation_hash id hash now db = do
  wanted ← or_throw id (service 403)
  token_hash ← or_throw hash (service 403)
  i ←
      or_throw
        (first_where (λ i. i.id == wanted && i.token_hash == token_hash && is_unused i)
          db.invitations)
        (service 403)
  not_expired now i

-- SELECT id FROM sessions WHERE owner_id = ? AND token_hash = ? AND expires_at > ?
abbrev pub has_session : ℕ → Option ℕ → ℕ → AuthDb → Bool
has_session owner_id none now db = false
has_session owner_id (some hash) now db =
    any (λ s. s.owner_id == owner_id && s.token_hash == hash && ltb now s.expires_at) db.sessions

-- `verifyRegistrationAuthority`: the invitation, where there is one
unfoldable pub verify_authority :
    Config → RegistrationContext → Authority → ℕ → AuthDb → Result (Option Invitation)
verify_authority config context by_claim now db = do
  guard (is_none (owner db)) (service 409)
  verify_grant_hash claim context.token_hash now db
  ok none
verify_authority config context by_recovery now db = do
  o ← or_throw (owner db) (service 401)
  guard (o.id == context.owner_id) (service 401)
  verify_grant_hash recovery context.token_hash now db
  ok none
verify_authority config context by_invite now db = do
  o ← or_throw (owner db) (service 401)
  guard (o.id == context.owner_id) (service 401)
  i ← verify_invitation_hash context.invitation_id context.token_hash now db
  ok (some i)
verify_authority config context by_session now db = do
  o ← or_throw (owner db) (service 401)
  guard (o.id == context.owner_id) (service 401)
  guard (config.demo || has_session o.id context.session_hash now db) (service 401)
  ok none

abbrev pub same_kind : ChallengeKind → ChallengeKind → Bool
same_kind registration registration = true
same_kind authentication authentication = true
same_kind _ _ = false

unfoldable pub prune_challenges : ℕ → AuthDb → AuthDb
prune_challenges now db = record db {
  challenges = delete_where (λ c. leb c.expires_at now) db.challenges;
}

abbrev pub has_room : ChallengeKind → List Challenge → Bool
has_room kind cs = ltb (count_where (λ c. same_kind c.kind kind) cs) 100

-- `storeChallenge`: at most a hundred of a kind; 0.17 hours are 612 seconds.
unfoldable pub store_challenge : ChallengeKind → ℕ → ℕ → StoredContext → ℕ → AuthDb → Result AuthDb
store_challenge kind id challenge context now db = do
  let pruned = prune_challenges now db
  guard (has_room kind pruned.challenges) (service 429)
  challenges ←
      insert_row (λ c. c.id == id)
        (record {
          id = id;
          kind = kind;
          challenge = challenge;
          context = context;
          expires_at = now + 612000;
          created_at = now;
        })
        pruned.challenges
  ok (record pruned { challenges = challenges })

-- `challenge`, after the pruning
unfoldable pub find_challenge : ChallengeKind → ℕ → ℕ → AuthDb → Result Challenge
find_challenge kind id now db = do
  c ← or_throw (first_where (λ c. c.id == id) db.challenges) (service 400)
  guard (same_kind c.kind kind && ltb now c.expires_at) (service 400)
  ok c

unfoldable pub consume_challenge : ℕ → AuthDb → AuthDb
consume_challenge id db = record db { challenges = delete_where (λ c. c.id == id) db.challenges }

-- The body of the request, after zod.
pub record RegistrationInput : Type 0 where
  pub timezone : Option String
  pub language : Option Locale
  pub claim_token : Option ℕ
  pub recovery_token : Option ℕ
  pub invite_token : Option ℕ

-- The choice of the authority, with what it stores of the token or the invitation.
pub record Chosen : Type 0 where
  pub authority : Authority
  pub token_hash : Option ℕ
  pub invitation_id : Option ℕ

abbrev pub is_owner : Option ℕ → Owner → Bool
is_owner none o = false
is_owner (some id) o = id == o.id

unfoldable pub choose_authority :
    Config
    → (ℕ → ℕ)
    → RegistrationInput
    → Option ℕ
    → Option ℕ
    → ℕ
    → AuthDb
    → Option Owner
    → Option ℕ
    → Result Chosen
choose_authority config hash input authenticated session_token now db none invite = do
  verify_grant hash claim input.claim_token now db
  ok (record {
    authority = by_claim;
    token_hash = hash_of hash input.claim_token;
    invitation_id = none;
  })
choose_authority config hash input authenticated session_token now db (some o) (some token) = do
  i ← verify_invitation (hash token) now db
  ok (record { authority = by_invite; token_hash = some i.token_hash; invitation_id = some i.id })
choose_authority config hash input authenticated session_token now db (some o) none =
    if is_owner authenticated o
    then (do
      guard (is_some session_token || config.demo) (service 401)
      ok (record { authority = by_session; token_hash = none; invitation_id = none }))
    else (do
      verify_grant hash recovery input.recovery_token now db
      ok (record {
        authority = by_recovery;
        token_hash = hash_of hash input.recovery_token;
        invitation_id = none;
      }))

abbrev owner_id_or : Option Owner → ℕ → ℕ
owner_id_or none fresh = fresh
owner_id_or (some o) fresh = o.id

-- The owner's settings stand in for what the input leaves out, and before it for an invitation.
abbrev pub timezone_of : Authority → Option String → Option Owner → Option String
timezone_of by_invite given (some o) = some o.timezone
timezone_of _ (some t) o = some t
timezone_of _ none (some o) = some o.timezone
timezone_of _ none none = none

abbrev pub language_of : Authority → Option Locale → Option Owner → Locale
language_of by_invite given (some o) = o.language
language_of _ (some l) o = l
language_of _ none (some o) = o.language
language_of _ none none = en

-- `registrationOptions` up to the wait for the library's options, which are not modelled: the context that
-- `storeChallenge` then keeps. The id of a first owner is drawn at random.
unfoldable pub registration_options :
    Config
    → (ℕ → ℕ)
    → RegistrationInput
    → Option ℕ
    → Option ℕ
    → ℕ
    → ℕ
    → AuthDb
    → Result RegistrationContext
registration_options config hash input authenticated session_token fresh_owner now db = do
  guard (not config.setup) (service 409)
  chosen ←
      choose_authority config hash input authenticated session_token now db (owner db)
        input.invite_token
  timezone ← or_throw (timezone_of chosen.authority input.timezone (owner db)) (service 400)
  ok (record {
    timezone = timezone;
    language = language_of chosen.authority input.language (owner db);
    owner_id = owner_id_or (owner db) fresh_owner;
    authority = chosen.authority;
    token_hash = chosen.token_hash;
    invitation_id = chosen.invitation_id;
    session_hash = session_hash chosen.authority;
  })
  where
    session_hash : Authority → Option ℕ
    session_hash by_session = hash_of hash session_token
    session_hash _ = none

abbrev pub parse_context : StoredContext → Result RegistrationContext
parse_context (of_registration context) = ok context
parse_context (of_authentication id) = err unreadable

-- `finishRegistration` up to the verifier: the tables, the challenge and its context. (Where the call
-- throws, the pruning is not kept here; a challenge that has expired is not found either way.)
unfoldable pub begin_registration :
    Config → ℕ → ℕ → AuthDb → Result (AuthDb × ℕ × RegistrationContext)
begin_registration config challenge_id now db = do
  let pruned = prune_challenges now db
  c ← find_challenge registration challenge_id now pruned
  context ← parse_context c.context
  invitation ← verify_authority config context context.authority now pruned
  ok (pruned, c.challenge, context)

abbrev pub add_owner : Authority → RegistrationContext → ℕ → AuthDb → AuthDb
add_owner by_claim context now db = record db {
  owners =
      db.owners
      ++ record {
        id = context.owner_id;
        timezone = context.timezone;
        language = context.language;
        created_at = now;
        updated_at = now;
      }
        ∷ [];
}
add_owner _ context now db = db

abbrev pub clear_grant : Authority → AuthDb → AuthDb
clear_grant by_claim db = set_grant claim none db
clear_grant by_recovery db = set_grant recovery none db
clear_grant _ db = db

abbrev pub consume_invitation : Option Invitation → ℕ → AuthDb → AuthDb
consume_invitation none now db = db
consume_invitation (some i) now db = record db {
  invitations =
      update_where (λ r. r.id == i.id) (λ r. record r { consumed_at = some now }) db.invitations;
}

abbrev label_of : Option Invitation → Option String
label_of none = none
label_of (some i) = some i.name

abbrev pub new_passkey : RegistrationContext → RegistrationInfo → Option Invitation → ℕ → Passkey
new_passkey context info invitation now = record {
  id = info.credential_id;
  owner_id = context.owner_id;
  public_key = info.public_key;
  counter = info.counter;
  transports = info.transports;
  device_type = info.device_type;
  backed_up = info.backed_up;
  created_at = now;
  last_used_at = none;
  label = label_of invitation;
}

unfoldable pub add_passkey : Passkey → AuthDb → Result AuthDb
add_passkey key db = do
  passkeys ← insert_row (λ k. k.id == key.id) key db.passkeys
  ok (record db { passkeys = passkeys })

-- The transaction of `finishRegistration` and what follows it; `none` is a key that did not pass.
unfoldable pub finish_registration :
    Config
    → (ℕ → ℕ)
    → FreshSession
    → ℕ
    → RegistrationContext
    → Option RegistrationInfo
    → Option String
    → ℕ
    → AuthDb
    → Result AuthDb
finish_registration config hash fresh challenge_id context outcome user_agent now db = do
  info ← or_throw outcome (service 400)
  invitation ← verify_authority config context context.authority now db
  registered ←
      add_passkey (new_passkey context info invitation now)
        (add_owner context.authority context now db)
  let spent =
      consume_invitation invitation now
        (clear_grant context.authority (consume_challenge challenge_id registered))
  opened ←
      create_session config hash fresh spent context.owner_id user_agent (some info.credential_id)
        now
  ok (
      note
        (audit "auth.passkey.register" (owner_actor context.owner_id) (some info.credential_id)
          ∷ event "passkey.registered" (owner_actor context.owner_id) none
          ∷ [])
        opened)
