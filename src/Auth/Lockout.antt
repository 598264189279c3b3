-- ===== src/Auth/Lockout.antt =====
-- What `revokePasskey` of src/server/auth/webauthn.ts takes away at once.
use outpost_vpn_server.Prelude.{
  ℕ, String, Option, none, some, List, Bool, true, false, [], ◌∷◌, ◌==◌, ◌&&◌, ◌≡◌, refl, arith,
  any, ltb, All, All-delete_where, delete_where, count_where, ==_refl,
}
use outpost_vpn_server.Db.{service, ok, err, guard}
use outpost_vpn_server.Db.Laws.{Holds, returned, bind-Holds, bind_any-Holds, value-Holds}
use outpost_vpn_server.Auth.{
  Owner, Passkey, Session, AuthDb, Config, FreshSession, Actor, note, owner,
}
use outpost_vpn_server.Auth.Login.{finish_login}
use outpost_vpn_server.Auth.Access.{of_passkey, revoke_passkey}
use outpost_vpn_server.Auth.Moves.{core, owned_by}
use outpost_vpn_server.Auth.Sound.{IsSound, same_owner}
use outpost_vpn_server.Auth.Refinement.{or_throw-Holds, owner-owned}

-- No row has the key's id, and no session was opened with it or with no key.
abbrev pub LockedOut : ℕ → AuthDb → Type 0
LockedOut id db =
    (any (λ k. k.id == id) db.passkeys ≡ false)
    × All (λ s. of_passkey id s.passkey_id ≡ false) db.sessions

no_key :
    (id owner_id : ℕ) (os : List Owner) (ks : List Passkey)
    → owned_by owner_id os ≡ true
    → All (λ k. owned_by k.owner_id os ≡ true) ks
    → any (λ k. k.id == id) (delete_where (λ k. k.id == id && k.owner_id == owner_id) ks) ≡ false
unfolding delete_where
no_key id owner_id os [] owned h = refl
no_key id owner_id os (k ∷ ks) owned (here, h) =
    let same : k.owner_id ≡ owner_id = same_owner k.owner_id owner_id os here owned in
    ground (arith, no_key id owner_id os ks owned h)

revoke_passkey-Holds :
    (demo : Bool) (id : ℕ) (actor : Actor) (db : AuthDb)
    → IsSound demo (core db)
    → Holds (LockedOut id) (revoke_passkey id actor db)
unfolding revoke_passkey note
revoke_passkey-Holds demo id actor db sound =
    bind-Holds (or_throw-Holds (owner db) (service 404)) λ o e.
      bind_any-Holds
        (guard (ltb 1 (count_where (λ k. k.owner_id == o.id) db.passkeys)) (service 409))
        λ _.
          bind_any-Holds
            (guard (any (λ k. k.id == id && k.owner_id == o.id) db.passkeys) (service 404))
            λ _.
              let owned : owned_by o.id db.owners ≡ true =
                owner-owned db.owners o o.id e (==_refl o.id) in
              returned (
                no_key id o.id db.owners db.passkeys owned sound.keys_owned,
                All-delete_where (λ s. s.owner_id == o.id && of_passkey id s.passkey_id)
                    (λ s. owned_by s.owner_id db.owners ≡ true)
                    (λ s. of_passkey id s.passkey_id ≡ false)
                    (λ s stays here. closed s o owned stays here) db.sessions sound.sessions_owned,
              )
  where
    closed :
        (s : Session) (o : Owner)
        → owned_by o.id db.owners ≡ true
        → (s.owner_id == o.id && of_passkey id s.passkey_id) ≡ false
        → owned_by s.owner_id db.owners ≡ true
        → of_passkey id s.passkey_id ≡ false
    closed s o owned stays here =
        let same : s.owner_id ≡ o.id = same_owner s.owner_id o.id db.owners here owned in
        ground arith

-- A login in flight with a key that is gone.
gone-eq-err :
    (config : Config) (hash : ℕ → ℕ) (fresh : FreshSession) (challenge_id : ℕ) (key : Passkey)
    (outcome : Option ℕ) (user_agent : Option String) (now : ℕ) (db : AuthDb)
    → any (λ k. k.id == key.id) db.passkeys ≡ false
    → finish_login config hash fresh challenge_id key outcome user_agent now db ≡ err (service 401)
unfolding finish_login
gone-eq-err config hash fresh challenge_id key none user_agent now db gone = refl
gone-eq-err config hash fresh challenge_id key (some counter) user_agent now db gone = rw gone refl

-- Once the owner of a sound system has revoked a passkey, no session is left that was opened with it or
-- with no known key, and a login that was waiting for the verifier with that key is refused with 401,
-- whatever the verifier answers.
pub finish_login-revoke_passkey :
    (config : Config) (hash : ℕ → ℕ) (id : ℕ) (actor : Actor) (db d : AuthDb) (fresh : FreshSession)
    (challenge_id : ℕ) (key : Passkey) (outcome : Option ℕ) (user_agent : Option String) (now : ℕ)
    → IsSound config.demo (core db)
    → revoke_passkey id actor db ≡ ok d
    → key.id ≡ id
    → All (λ s. of_passkey id s.passkey_id ≡ false) d.sessions
      × (finish_login config hash fresh challenge_id key outcome user_agent now d
          ≡ err (service 401))
finish_login-revoke_passkey config hash id actor db d fresh challenge_id key outcome user_agent now
      sound done same =
    let locked : LockedOut id d =
      value-Holds (revoke_passkey-Holds config.demo id actor db sound) done in
    (
      locked.1,
      gone-eq-err config hash fresh challenge_id key outcome user_agent now d (rw same locked.0),
    )
