-- ===== src/Auth/Consumed.antt =====
-- What `finishRegistration` of src/server/auth/webauthn.ts does to the invitation it was given.
use outpost_vpn_server.Prelude.{
  ℕ, String, Option, none, some, List, true, false, ◌==◌, ◌&&◌, ◌≡◌, ◌⊎◌, refl, ◌∙◌, arith, any,
  if◌then◌else◌, leb, Bool-cases, inl, inr, first_where, first_where-eq-some, and_true,
}
use outpost_vpn_server.Db.{service, guard, or_throw}
use outpost_vpn_server.Db.Laws.{Holds, returned, threw, bind-Holds, bind_any-Holds}
use outpost_vpn_server.Auth.{
  Invitation, Authority, by_claim, by_recovery, by_session, by_invite, RegistrationContext,
  RegistrationInfo, Passkey, AuthDb, Config, FreshSession, note, create_session, owner,
}
use outpost_vpn_server.Auth.Registration.{
  is_unused, verify_authority, verify_invitation_hash, not_expired, add_owner, clear_grant,
  consume_invitation, consume_challenge, new_passkey, add_passkey, finish_registration,
}
use outpost_vpn_server.Auth.Refinement.{insert_row-Holds, or_throw-Holds}
use outpost_vpn_server.Auth.Lifetime.{IsOver, IsOver-close, first_where-any}

-- The invitation that a registration by invitation has found.
abbrev Invited : ℕ → List Invitation → Option Invitation → Type 0
Invited id rows none = ⊥
Invited id rows (some i) = ((i.id == id) ≡ true) × (any (λ r. r.id == id) rows ≡ true)

pub not_expired-Holds :
    (P : Invitation → Type 0) (now : ℕ) (i : Invitation) → P i → Holds P (not_expired now i)
not_expired-Holds P now i p = elim (Bool-cases (leb i.expires_at now)) [
  | inl late ↦ rw late threw
  | inr fresh ↦ rw fresh (returned p)
]

verify_invitation_hash-Invited :
    (id : ℕ) (hash : Option ℕ) (now : ℕ) (db : AuthDb)
    → Holds (λ i. Invited id db.invitations (some i)) (verify_invitation_hash (some id) hash now db)
unfolding verify_invitation_hash
verify_invitation_hash-Invited id hash now db = bind_any-Holds (or_throw hash (service 403)) λ h.
    bind-Holds
      (or_throw-Holds
        (first_where (λ i. i.id == id && i.token_hash == h && is_unused i) db.invitations)
        (service 403))
      λ i e.
        let hit : (i.id == id) ≡ true =
          (and_true (i.id == id) (i.token_hash == h)
            (and_true (i.id == id && i.token_hash == h) (is_unused i) (
              first_where-eq-some (λ i. i.id == id && i.token_hash == h && is_unused i)
                db.invitations e)).0).0 in
        not_expired-Holds (λ i. Invited id db.invitations (some i)) now i
          (
            hit,
            first_where-any (λ i. i.id == id && i.token_hash == h && is_unused i) (λ r. r.id == id)
                db.invitations hit e,
          )

verify_authority-Invited :
    (config : Config) (context : RegistrationContext) (a : Authority) (id now : ℕ) (db : AuthDb)
    → a ≡ by_invite
    → context.invitation_id ≡ some id
    → Holds (Invited id db.invitations) (verify_authority config context a now db)
unfolding verify_authority
verify_authority-Invited config context by_invite id now db e named =
    bind_any-Holds (or_throw (owner db) (service 401)) λ o.
      bind_any-Holds (guard (o.id == context.owner_id) (service 401)) λ _.
        bind-Holds {Q = λ i. Invited id db.invitations (some i)}
          {m = verify_invitation_hash context.invitation_id context.token_hash now db}
          (rw named (verify_invitation_hash-Invited id context.token_hash now db))
          λ i invited. returned invited
verify_authority-Invited config context by_claim id now db e named = cc
verify_authority-Invited config context by_recovery id now db e named = cc
verify_authority-Invited config context by_session id now db e named = cc

add_owner-invitations :
    (a : Authority) (context : RegistrationContext) (now : ℕ) (db : AuthDb)
    → (add_owner a context now db).invitations ≡ db.invitations
add_owner-invitations by_claim context now db = refl
add_owner-invitations by_recovery context now db = refl
add_owner-invitations by_session context now db = refl
add_owner-invitations by_invite context now db = refl

clear_grant-invitations :
    (a : Authority) (db : AuthDb) → (clear_grant a db).invitations ≡ db.invitations
clear_grant-invitations by_claim db = refl
clear_grant-invitations by_recovery db = refl
clear_grant-invitations by_session db = refl
clear_grant-invitations by_invite db = refl

add_passkey-invitations :
    (key : Passkey) (db : AuthDb) → Holds (λ d. d.invitations ≡ db.invitations) (add_passkey key db)
unfolding add_passkey
add_passkey-invitations key db =
    bind-Holds (insert_row-Holds (λ k. k.id == key.id) key db.passkeys) λ rows e. returned refl

create_session-invitations :
    (config : Config) (hash : ℕ → ℕ) (fresh : FreshSession) (db : AuthDb) (owner_id : ℕ)
    (user_agent : Option String) (passkey_id : Option ℕ) (now : ℕ)
    → Holds
        (λ d. d.invitations ≡ db.invitations)
        (create_session config hash fresh db owner_id user_agent passkey_id now)
unfolding create_session
create_session-invitations config hash fresh db owner_id user_agent passkey_id now =
    bind-Holds (insert_row-Holds _ _ db.sessions) λ rows e. returned refl

used :
    (i : Option Invitation) (id now : ℕ) (db : AuthDb)
    → Invited id db.invitations i
    → IsOver (λ r. r.id) is_unused id (consume_invitation i now db).invitations
used none id now db h = absurd h
used (some i) id now db (same, there) =
    IsOver-close (λ r. r.id) is_unused (λ r. r.id == i.id)
      (λ r. record r { consumed_at = some now }) db.invitations id (λ r. refl)
      (λ r. closed r (Bool-cases (r.id == i.id))) there
  where
    closed :
        (r : Invitation)
        → ((r.id == i.id) ≡ true) ⊎ ((r.id == i.id) ≡ false)
        → ((if r.id == i.id then record r { consumed_at = some now } else r).id == id) ≡ true
        → is_unused (if r.id == i.id then record r { consumed_at = some now } else r) ≡ false
    closed r (inl hit) h = rw hit refl
    closed r (inr miss) h = let old = rw miss at h in rw miss (ground arith)

pub finish_registration-IsOver :
    (config : Config) (hash : ℕ → ℕ) (fresh : FreshSession) (challenge_id : ℕ)
    (context : RegistrationContext) (outcome : Option RegistrationInfo) (user_agent : Option String)
    (now id : ℕ) (db : AuthDb)
    → context.authority ≡ by_invite
    → context.invitation_id ≡ some id
    → Holds
        (λ d. IsOver (λ i. i.id) is_unused id d.invitations)
        (finish_registration config hash fresh challenge_id context outcome user_agent now db)
unfolding finish_registration note consume_challenge
finish_registration-IsOver config hash fresh challenge_id context outcome user_agent now id db by
      named =
    bind_any-Holds (or_throw outcome (service 400)) λ info.
      bind-Holds (verify_authority-Invited config context context.authority id now db by named)
        λ i found_it.
          bind-Holds
            (add_passkey-invitations (new_passkey context info i now)
              (add_owner context.authority context now db))
            λ d kept_it.
              bind-Holds
                (create_session-invitations config hash fresh
                  (consume_invitation i now
                    (clear_grant context.authority (consume_challenge challenge_id d)))
                  context.owner_id user_agent (some info.credential_id) now)
                λ e kept_too. returned (
                  rw kept_too (
                    used i id now (clear_grant context.authority (consume_challenge challenge_id d))
                      (rw
                        (clear_grant-invitations context.authority
                            (consume_challenge challenge_id d)
                          ∙ kept_it
                          ∙ add_owner-invitations context.authority context now db)
                        found_it)))
