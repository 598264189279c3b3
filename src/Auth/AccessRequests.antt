-- ===== src/Auth/AccessRequests.antt =====
-- The requests of the page "Access" in src/server/auth/webauthn.ts, each as moves of the description.
use outpost_vpn_server.Prelude.{
  ℕ, String, Option, List, Bool, [], ◌==◌, ◌&&◌, ◌||◌, refl, arith, any, not, ltb, ==_refl, ltb→lt,
  count_where, first_where, any_stronger,
}
use outpost_vpn_server.Db.{service, guard, or_throw}
use outpost_vpn_server.Db.Laws.{returned, bind-Holds, bind_any-Holds}
use outpost_vpn_server.Auth.{Locale, Actor, AuthDb, note, owner}
use outpost_vpn_server.Auth.Registration.{is_unused}
use outpost_vpn_server.Auth.Access.{
  update_owner, create_invitation, revoke_invitation, revoke_passkey, end_other_sessions,
  revoke_session, create_api_token, revoke_api_token, is_pending, is_live, unique_scopes,
  is_empty_list, includes, allowed_api_scopes,
}
use outpost_vpn_server.Auth.Moves.{
  describe, drop_key, close_sessions, invite, spend, issue_token, use_token,
}
use outpost_vpn_server.Auth.Refinement.{
  Moves, insert_row-Holds, guard-Holds, or_throw-Holds, owner-owned,
}

module _ (demo : Bool) where
  pub update_owner-Moves :
      (timezone : Option String) (language : Option Locale) (actor : Actor) (now : ℕ) (db : AuthDb)
      → Moves demo db (update_owner timezone language actor now db)
  unfolding update_owner note
  update_owner-Moves timezone language actor now db =
      bind_any-Holds (or_throw (owner db) (service 404)) λ o. returned (describe _ _ (λ r. refl))

  pub create_invitation-Moves :
      (hash : ℕ → ℕ) (id token : ℕ) (name : String) (actor : Actor) (now : ℕ) (db : AuthDb)
      → Moves demo db (create_invitation hash id token name actor now db)
  unfolding create_invitation note
  create_invitation-Moves hash id token name actor now db =
      bind_any-Holds (or_throw (owner db) (service 404)) λ o.
        bind_any-Holds (guard (ltb (count_where (is_pending now) db.invitations) 20) (service 429))
          λ _. bind-Holds (insert_row-Holds _ _ db.invitations) λ rows e. returned (
            rw e.1 (
              invite _
                (any_stronger _ (λ i. i.id == id) (λ i same. ground arith) db.invitations e.0)))

  pub revoke_invitation-Moves :
      (id : ℕ) (actor : Actor) (now : ℕ) (db : AuthDb)
      → Moves demo db (revoke_invitation id actor now db)
  unfolding revoke_invitation note
  revoke_invitation-Moves id actor now db =
      bind_any-Holds (guard (any (λ i. i.id == id && is_unused i) db.invitations) (service 404))
        λ _. returned (spend _ _ (λ i. (refl, ground arith)))

  pub revoke_passkey-Moves :
      (id : ℕ) (actor : Actor) (db : AuthDb) → Moves demo db (revoke_passkey id actor db)
  unfolding revoke_passkey note
  revoke_passkey-Moves id actor db = bind-Holds (or_throw-Holds (owner db) (service 404)) λ o e.
      bind-Holds
        (guard-Holds (ltb 1 (count_where (λ k. k.owner_id == o.id) db.passkeys)) (service 409))
        λ _ many.
          bind_any-Holds
            (guard (any (λ k. k.id == id && k.owner_id == o.id) db.passkeys) (service 404))
            λ _.
              returned
                (drop_key o id (owner-owned db.owners o o.id e (==_refl o.id)) (ltb→lt _ _ many))

  pub end_other_sessions-Moves :
      (hash : ℕ → ℕ) (session : Option ℕ) (actor : Actor) (db : AuthDb)
      → Moves demo db (end_other_sessions hash session actor db)
  unfolding end_other_sessions note
  end_other_sessions-Moves hash session actor db =
      bind_any-Holds (or_throw (owner db) (service 404))
        λ o. bind_any-Holds (or_throw session (service 400)) λ token. returned (close_sessions _)

  pub revoke_session-Moves :
      (hash : ℕ → ℕ) (id : ℕ) (session : Option ℕ) (actor : Actor) (db : AuthDb)
      → Moves demo db (revoke_session hash id session actor db)
  unfolding revoke_session note
  revoke_session-Moves hash id session actor db =
      bind_any-Holds (or_throw (owner db) (service 404)) λ o.
        bind_any-Holds (or_throw session (service 400)) λ token.
          bind_any-Holds
            (or_throw (first_where (λ s. s.id == id && s.owner_id == o.id) db.sessions)
              (service 404))
            λ s.
              bind_any-Holds (guard (not (s.token_hash == hash token)) (service 409))
                λ _. returned (close_sessions _)

  pub create_api_token-Moves :
      (hash : ℕ → ℕ) (id token : ℕ) (name : String) (fits : Bool) (scopes : List String)
      (actor : Actor) (now : ℕ) (db : AuthDb)
      → Moves demo db (create_api_token hash id token name fits scopes actor now db)
  unfolding create_api_token note
  create_api_token-Moves hash id token name fits scopes actor now db =
      bind_any-Holds (guard fits (service 400)) λ _.
        bind_any-Holds
          (guard
            (not (
              is_empty_list (unique_scopes [] scopes)
              || any (λ s. not (includes s allowed_api_scopes)) (unique_scopes [] scopes)))
            (service 400))
          λ _. bind-Holds (insert_row-Holds _ _ db.api_tokens) λ rows e. returned (
            rw e.1 (
              issue_token _
                (any_stronger _ (λ t. t.id == id) (λ t same. ground arith) db.api_tokens e.0)))

  pub revoke_api_token-Moves :
      (id : ℕ) (actor : Actor) (now : ℕ) (db : AuthDb)
      → Moves demo db (revoke_api_token id actor now db)
  unfolding revoke_api_token note
  revoke_api_token-Moves id actor now db =
      bind_any-Holds (guard (any (is_live id) db.api_tokens) (service 404))
        λ _. returned (use_token _ _ (λ t. (refl, λ gone. refl)))
