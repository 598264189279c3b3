-- ===== src/Auth/Revocation.antt =====
-- An API token of src/server/auth/webauthn.ts that was revoked.
use outpost_vpn_server.Prelude.{
  ℕ, String, Option, none, some, List, Bool, true, false, [], ◌∷◌, ◌==◌, ◌&&◌, ◌≡◌, ◌≢◌, ◌⊎◌, refl,
  arith, not, any, is_none, if◌then◌else◌, Bool-cases, inl, inr, All, any_stronger,
}
use outpost_vpn_server.Db.{service, ok}
use outpost_vpn_server.Db.Laws.{Holds, returned, bind-Holds, value-Holds}
use outpost_vpn_server.Auth.{Owner, ApiToken, AuthDb, Config, Actor, note}
use outpost_vpn_server.Auth.Login.{
  Account, owner_account, token_account, authenticate, token_expired, either,
}
use outpost_vpn_server.Auth.Access.{revoke_api_token, is_live}
use outpost_vpn_server.Auth.Refinement.{guard-Holds}
use outpost_vpn_server.Auth.Steps.{Waiting, AuthAction, auth_steps}
use outpost_vpn_server.Auth.Runs.{SystemSound, auth_steps-Move}
use outpost_vpn_server.Auth.Lifetime.{IsOver, IsOver-close, token-IsOver}
use outpost_vpn_server.Auth.Recognition.{Recognised, Entitled, authenticate-Entitled}

abbrev IsRevoked : ℕ → List ApiToken → Type 0
IsRevoked id ts = IsOver (λ t. t.id) (λ t. is_none t.revoked_at) id ts

revoke_api_token-Holds :
    (id : ℕ) (actor : Actor) (now : ℕ) (db : AuthDb)
    → Holds (λ d. IsRevoked id d.api_tokens) (revoke_api_token id actor now db)
unfolding revoke_api_token note
revoke_api_token-Holds id actor now db =
    bind-Holds (guard-Holds (any (is_live id) db.api_tokens) (service 404)) λ _ live. returned (
      IsOver-close (λ t. t.id) (λ t. is_none t.revoked_at) (is_live id)
        (λ t. record t { revoked_at = some now }) db.api_tokens id (λ t. refl)
        (λ t. closed t (Bool-cases (is_live id t))) (known live))
  where
    known : any (is_live id) db.api_tokens ≡ true → any (λ t. t.id == id) db.api_tokens ≡ true
    known live = elim (Bool-cases (any (λ t. t.id == id) db.api_tokens)) [
      | inl there ↦ there
      | inr missing ↦
          let gone =
            any_stronger (λ t. t.id == id) (is_live id) (λ t hit. ground arith) db.api_tokens
              missing in
          cc
    ]

    closed :
        (t : ApiToken)
        → (is_live id t ≡ true) ⊎ (is_live id t ≡ false)
        → ((if is_live id t then record t { revoked_at = some now } else t).id == id) ≡ true
        → is_none (if is_live id t then record t { revoked_at = some now } else t).revoked_at
          ≡ false
    closed t (inl hit) h = rw hit refl
    closed t (inr miss) h = let old = rw miss at h in rw miss (ground arith)

abbrev fits : ℕ → ℕ → ℕ → ApiToken → Bool
fits id hash now t =
    t.id == id
    && t.token_hash == hash
    && is_none t.revoked_at
    && not (token_expired t.expires_at now)

no_fit :
    (id hash now : ℕ) (ts : List ApiToken)
    → All (λ t. (t.id == id) ≡ true → is_none t.revoked_at ≡ false) ts
    → any (fits id hash now) ts ≡ false
no_fit id hash now [] h = refl
no_fit id hash now (t ∷ ts) (gone, h) = elim (Bool-cases (t.id == id)) [
  | inl same ↦ rw (no_fit id hash now ts h) (ground (arith, gone same))
  | inr other ↦ rw (other, no_fit id hash now ts h) refl
]

revoked-Entitled :
    (hash id now : ℕ) (scopes : List String) (db : AuthDb)
    → IsRevoked id db.api_tokens
    → Entitled hash now db (some (token_account id scopes))
    → ⊥
revoked-Entitled hash id now scopes db (there, over) h =
    clash (no_fit id hash now db.api_tokens over) h
  where
    clash : {b : Bool} → b ≡ false → b ≡ true → ⊥
    clash e f = cc

revoked-Recognised :
    (hash : ℕ → ℕ) (id now : ℕ) (scopes : List String) (db : AuthDb) (token : Option ℕ)
    (account : Option Account)
    → IsRevoked id db.api_tokens
    → Recognised hash now db token account
    → account ≢ some (token_account id scopes)
revoked-Recognised hash id now scopes db none account over h e = cc
revoked-Recognised hash id now scopes db (some token) account over h e =
    revoked-Entitled (hash token) id now scopes db over (rw e at h)

-- Once an API token was revoked in a sound system, no request authenticates as that token, whatever
-- requests came in between.
pub authenticate-revoke_api_token :
    (config : Config) (hash : ℕ → ℕ) (id : ℕ) (actor : Actor) (now : ℕ) (db d : AuthDb)
    (ws : List Waiting) (run : List (AuthAction × ℕ)) (fresh_id : ℕ) (session bearer : Option ℕ)
    (later : ℕ) (scopes : List String)
    → revoke_api_token id actor now db ≡ ok d
    → SystemSound config (record { db = d; waiting = ws })
    → (authenticate config hash fresh_id session bearer later
        (auth_steps config hash (record { db = d; waiting = ws }) run).db).1
      ≢ some (token_account id scopes)
unfolding authenticate
authenticate-revoke_api_token config hash id actor now db d ws run fresh_id session bearer later
      scopes done sound e =
    let over =
      token-IsOver id (auth_steps-Move config hash (record { db = d; waiting = ws }) run sound)
        (value-Holds (revoke_api_token-Holds id actor now db) done) in
    elim (Bool-cases config.demo) [
      | inl demo ↦ other_account (rw demo at e)
      | inr live ↦
          revoked-Recognised hash id later scopes
            (auth_steps config hash (record { db = d; waiting = ws }) run).db
            (either session bearer) _ over
            (authenticate-Entitled config hash fresh_id session bearer later
              (auth_steps config hash (record { db = d; waiting = ws }) run).db live)
            e
    ]
  where
    other_account : {o : Owner} → some (owner_account o) ≡ some (token_account id scopes) → ⊥
    other_account e = cc
