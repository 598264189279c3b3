-- ===== src/Auth/SingleUse.antt =====
-- An invitation of src/server/auth/webauthn.ts that was used, and an API token that was revoked.
use outpost_vpn_server.Prelude.{
  ℕ, String, Option, none, some, List, true, false, ◌==◌, ◌&&◌, ◌≡◌, ◌≢◌, refl, arith, ◌||◌,
  is_some, Bool-cases, inl, inr, All-imp, first_where, first_where-of_All, All-first_where, ==_iff,
  Bool, first_where-eq-some, and_true,
}
use outpost_vpn_server.Db.{service, ok, err, guard, or_throw}
use outpost_vpn_server.Db.Laws.{
  Holds, returned, threw, bind-Holds, if-Holds, bind_any-Holds, value-Holds,
}
use outpost_vpn_server.Auth.{
  Authority, by_claim, by_recovery, by_session, by_invite, RegistrationContext, RegistrationInfo,
  Owner, claim, recovery, verify_grant, AuthDb, Config, FreshSession, owner,
}
use outpost_vpn_server.Auth.Registration.{
  is_unused, RegistrationInput, Chosen, choose_authority, is_owner, verify_invitation,
  verify_authority, verify_invitation_hash, finish_registration,
}
use outpost_vpn_server.Auth.Refinement.{or_throw-Holds}
use outpost_vpn_server.Auth.Steps.{Waiting, AuthAction, auth_steps}
use outpost_vpn_server.Auth.Runs.{SystemSound, auth_steps-Move}
use outpost_vpn_server.Auth.Lifetime.{IsOver, invitation-IsOver}
use outpost_vpn_server.Auth.Consumed.{not_expired-Holds, finish_registration-IsOver}

over-eq-err :
    (id : ℕ) (hash : Option ℕ) (now : ℕ) (db : AuthDb)
    → IsOver (λ i. i.id) is_unused id db.invitations
    → verify_invitation_hash (some id) hash now db ≡ err (service 403)
unfolding verify_invitation_hash
over-eq-err id none now db h = refl
over-eq-err id (some hash) now db (there, over) = rw missing refl
  where
    missing :
        first_where (λ i. i.id == id && i.token_hash == hash && is_unused i) db.invitations ≡ none
    missing =
        first_where-of_All (λ i. i.id == id && i.token_hash == hash && is_unused i) db.invitations
          (All-imp (λ i. (i.id == id) ≡ true → is_unused i ≡ false)
            (λ i. (i.id == id && i.token_hash == hash && is_unused i) ≡ false)
            (λ i gone. elim (Bool-cases (i.id == id)) [
              | inl same ↦ rw (gone same) (ground arith)
              | inr other ↦ rw other refl
            ])
            db.invitations over)

over-not_authorised :
    (config : Config) (context : RegistrationContext) (a : Authority) (id now : ℕ) (db : AuthDb)
    → a ≡ by_invite
    → context.invitation_id ≡ some id
    → IsOver (λ i. i.id) is_unused id db.invitations
    → Holds (λ i. ⊥) (verify_authority config context a now db)
unfolding verify_authority
over-not_authorised config context by_invite id now db e named over =
    bind_any-Holds (or_throw (owner db) (service 401)) λ o.
      bind_any-Holds (guard (o.id == context.owner_id) (service 401)) λ _.
        bind-Holds {Q = λ i. ⊥}
          {m = verify_invitation_hash context.invitation_id context.token_hash now db}
          (rw (named, over-eq-err id context.token_hash now db over) threw) λ i never. absurd never
over-not_authorised config context by_claim id now db e named over = cc
over-not_authorised config context by_recovery id now db e named over = cc
over-not_authorised config context by_session id now db e named over = cc

over-not_finished :
    (config : Config) (hash : ℕ → ℕ) (fresh : FreshSession) (challenge_id : ℕ)
    (context : RegistrationContext) (outcome : Option RegistrationInfo) (user_agent : Option String)
    (now id : ℕ) (db : AuthDb)
    → context.authority ≡ by_invite
    → context.invitation_id ≡ some id
    → IsOver (λ i. i.id) is_unused id db.invitations
    → Holds
        (λ d. ⊥)
        (finish_registration config hash fresh challenge_id context outcome user_agent now db)
unfolding finish_registration
over-not_finished config hash fresh challenge_id context outcome user_agent now id db by named
      over =
    bind_any-Holds (or_throw outcome (service 400)) λ info.
      bind-Holds (over-not_authorised config context context.authority id now db by named over)
        λ i never. absurd never

over-not_found :
    (token_hash now id : ℕ) (db : AuthDb)
    → IsOver (λ i. i.id) is_unused id db.invitations
    → Holds (λ i. i.id ≢ id) (verify_invitation token_hash now db)
unfolding verify_invitation
over-not_found token_hash now id db (there, over) =
    bind-Holds
      (or_throw-Holds (first_where (λ i. i.token_hash == token_hash && is_unused i) db.invitations)
        (service 403))
      λ i e.
        not_expired-Holds (λ i. i.id ≢ id) now i
          (let unused : is_unused i ≡ true =
              (and_true (i.token_hash == token_hash) (is_unused i) (
                first_where-eq-some (λ i. i.token_hash == token_hash && is_unused i) db.invitations
                  e)).1 in
            let gone : (i.id == id) ≡ true → is_unused i ≡ false =
              All-first_where (λ i. i.token_hash == token_hash && is_unused i)
                (λ i. (i.id == id) ≡ true → is_unused i ≡ false) db.invitations e over in
            λ same. clash unused (gone ((==_iff i.id id).1 same)))
  where
    clash : {b : Bool} → b ≡ true → b ≡ false → ⊥
    clash is_set is_clear = cc

over-not_chosen :
    (config : Config) (hash : ℕ → ℕ) (input : RegistrationInput) (who session : Option ℕ)
    (now id : ℕ) (db : AuthDb) (o : Option Owner) (invite : Option ℕ)
    → IsOver (λ i. i.id) is_unused id db.invitations
    → Holds
        (λ c. c.invitation_id ≢ some id)
        (choose_authority config hash input who session now db o invite)
unfolding choose_authority
over-not_chosen config hash input who session now id db none invite over =
    bind_any-Holds (verify_grant hash claim input.claim_token now db) λ _. returned λ e. cc
over-not_chosen config hash input who session now id db (some o) (some token) over =
    bind-Holds (over-not_found (hash token) now id db over) λ i other. returned λ e. other cc
over-not_chosen config hash input who session now id db (some o) none over =
    if-Holds (is_owner who o)
      (bind_any-Holds (guard (is_some session || config.demo) (service 401)) λ _. returned λ e. cc)
      (bind_any-Holds (verify_grant hash recovery input.recovery_token now db)
        λ _. returned λ e. cc)

-- An invitation registers one passkey. Once a registration with it has succeeded, in a sound system, and
-- whatever requests follow, the check of the invitation by its id is refused with 403; no registration
-- whose context names it is finished, whatever key, challenge, session or time it comes with; and no
-- request for registration options is granted on its authority.
pub invitation_registers_once :
    (config : Config) (hash : ℕ → ℕ) (fresh : FreshSession) (challenge_id : ℕ)
    (context : RegistrationContext) (outcome : Option RegistrationInfo) (user_agent : Option String)
    (now id : ℕ) (db d : AuthDb) (ws : List Waiting) (run : List (AuthAction × ℕ))
    (token_hash : Option ℕ) (later : ℕ) (fresh' : FreshSession) (challenge_id' : ℕ)
    (context' : RegistrationContext) (outcome' : Option RegistrationInfo)
    (user_agent' : Option String) (e : AuthDb) (input : RegistrationInput) (who session : Option ℕ)
    (invite : Option ℕ) (chosen : Chosen)
    → context.authority ≡ by_invite
    → context.invitation_id ≡ some id
    → finish_registration config hash fresh challenge_id context outcome user_agent now db ≡ ok d
    → SystemSound config (record { db = d; waiting = ws })
    → context'.authority ≡ by_invite
    → context'.invitation_id ≡ some id
    → chosen.invitation_id ≡ some id
    → (verify_invitation_hash
          (some id)
          token_hash
          later
          (auth_steps config hash (record { db = d; waiting = ws }) run).db
        ≡ err (service 403))
      × (finish_registration config hash fresh' challenge_id' context' outcome' user_agent' later
            (auth_steps config hash (record { db = d; waiting = ws }) run).db
          ≢ ok e)
      × (choose_authority config hash input who session later
            (auth_steps config hash (record { db = d; waiting = ws }) run).db
            (owner (auth_steps config hash (record { db = d; waiting = ws }) run).db)
            invite
          ≢ ok chosen)
invitation_registers_once config hash fresh challenge_id context outcome user_agent now id db d ws
      run token_hash later fresh' challenge_id' context' outcome' user_agent' e input who session
      invite chosen by named done sound by' named' granted =
    let db' : AuthDb = (auth_steps config hash (record { db = d; waiting = ws }) run).db in
    let over : IsOver (λ i. i.id) is_unused id db'.invitations =
      invitation-IsOver id (auth_steps-Move config hash (record { db = d; waiting = ws }) run sound)
        (value-Holds
          (finish_registration-IsOver config hash fresh challenge_id context outcome user_agent now
            id db by named)
          done) in
    (
      over-eq-err id token_hash later db' over,
      λ finished.
          value-Holds
            (over-not_finished config hash fresh' challenge_id' context' outcome' user_agent' later
              id db' by' named' over)
            finished,
      λ given.
          value-Holds
            (over-not_chosen config hash input who session later id db' (owner db') invite over)
            given granted,
    )
