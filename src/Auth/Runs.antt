-- ===== src/Auth/Runs.antt =====
-- Runs of src/server/auth/webauthn.ts against the description of Auth.Moves.
use outpost_vpn_server.Prelude.{
  ℕ, zero, suc, none, some, List, Bool, true, [], ◌∷◌, ◌≡◌, get_elem?, All, All-append, All-imp,
}
use outpost_vpn_server.Db.{Result, ok, err}
use outpost_vpn_server.Db.Laws.{Holds, returned, threw}
use outpost_vpn_server.Auth.{
  Owner, of_registration, of_authentication, Passkey, RegistrationContext, AuthDb, Config,
  authentication, registration,
}
use outpost_vpn_server.Auth.Registration.{registration_options, begin_registration}
use outpost_vpn_server.Auth.Login.{authentication_options, begin_login}
use outpost_vpn_server.Auth.Steps.{
  Waiting, asking, asked_registration, asked_login, registering, logging_in, AuthSystem, AuthAction,
  claim_action, reset_action, options_action, register_action, login_options_action, login_action,
  verified_action, recognise_action, logout_action, owner_action, invite_action, uninvite_action,
  unkey_action, untoken_action, end_others_action, end_session_action, token_action, remove_at,
  finish, respond, auth_step, auth_steps, begun_registration, begun_login,
}
use outpost_vpn_server.Auth.Moves.{Core, core, owned_by, Move, idle, both}
use outpost_vpn_server.Auth.Sound.{IsSound, Move-owner}
use outpost_vpn_server.Auth.Invariant.{Move-IsSound}
use outpost_vpn_server.Auth.Responses.{
  IsOwned, finish-Move, respond-Move, begin_login-Holds, begin_registration-Moves,
}

-- The tables are sound, and so is what waits.
abbrev pub SystemSound : Config → AuthSystem → Type 0
SystemSound config s = IsSound config.demo (core s.db) × All (IsOwned (core s.db)) s.waiting

Move-IsOwned :
    {demo : Bool} {c d : Core}
    → Move demo c d
    → (ws : List Waiting) → All (IsOwned c) ws
    → All (IsOwned d) ws
Move-IsOwned {c = c} {d = d} m ws h = All-imp (IsOwned c) (IsOwned d) one ws h
  where
    one : (w : Waiting) → IsOwned c w → IsOwned d w
    one (asking kind context) owned = tt
    one (registering id context) owned = tt
    one (logging_in id key) owned = Move-owner key.owner_id m owned

All-remove_at :
    {A : Type 0} (P : A → Type 0) (n : ℕ) (xs : List A) → All P xs → All P (remove_at n xs)
All-remove_at P n [] h = tt
All-remove_at P zero (x ∷ xs) (p, h) = h
All-remove_at P (suc n) (x ∷ xs) (p, h) = (p, All-remove_at P n xs h)

All-get_elem :
    {A : Type 0} (P : A → Type 0) (n : ℕ) (xs : List A) {a : A}
    → All P xs
    → get_elem? xs n ≡ some a
    → P a
All-get_elem P n [] h e = absurd (clash e)
  where
    clash : {A : Type 0} {a : A} → none ≡ some a → ⊥
    clash e = cc
All-get_elem P zero (x ∷ xs) {a} (p, h) e = let same : x ≡ a = cc in rw (← same) p
All-get_elem P (suc n) (x ∷ xs) (p, h) e = All-get_elem P n xs h e

module _ (config : Config) (hash : ℕ → ℕ) where
  -- A step makes a move, and what follows it is sound.
  abbrev Stepped : AuthSystem → AuthSystem → Type 0
  Stepped s t = Move config.demo (core s.db) (core t.db) × SystemSound config t

  stepped :
      (s : AuthSystem) (db : AuthDb) (ws : List Waiting)
      → SystemSound config s
      → Move config.demo (core s.db) (core db)
      → All (IsOwned (core s.db)) ws
      → Stepped s (record { db = db; waiting = ws })
  stepped s db ws (sound, owned) m h = (m, (Move-IsSound m sound, Move-IsOwned m ws h))

  asked_registration-Stepped :
      (s : AuthSystem) (r : Result RegistrationContext)
      → SystemSound config s
      → Stepped s (asked_registration s r)
  asked_registration-Stepped s (ok context) (sound, owned) =
      stepped s s.db _ (sound, owned) idle
        (All-append (IsOwned (core s.db)) s.waiting
          (asking registration (of_registration context) ∷ []) owned (tt, tt))
  asked_registration-Stepped s (err e) sound = (idle, sound)

  asked_login-Stepped :
      (s : AuthSystem) (r : Result Owner) → SystemSound config s → Stepped s (asked_login s r)
  asked_login-Stepped s (ok o) (sound, owned) =
      stepped s s.db _ (sound, owned) idle
        (All-append (IsOwned (core s.db)) s.waiting
          (asking authentication (of_authentication o.id) ∷ []) owned (tt, tt))
  asked_login-Stepped s (err e) sound = (idle, sound)

  begun_registration-Stepped :
      (s : AuthSystem) (id : ℕ) (r : Result (AuthDb × ℕ × RegistrationContext))
      → SystemSound config s
      → Holds (λ r. Move config.demo (core s.db) (core r.0)) r
      → Stepped s (begun_registration s id r)
  begun_registration-Stepped s id _ (sound, owned) (returned {a = (db, challenge, context)} m) =
      stepped s db _ (sound, owned) m
        (All-append (IsOwned (core s.db)) s.waiting (registering id context ∷ []) owned (tt, tt))
  begun_registration-Stepped s id _ sound threw = (idle, sound)

  begun_login-Stepped :
      (s : AuthSystem) (id : ℕ) (r : Result (AuthDb × ℕ × Passkey))
      → SystemSound config s
      → Holds
          (λ r.
            Move config.demo (core s.db) (core r.0) × (owned_by r.2.owner_id s.db.owners ≡ true))
          r
      → Stepped s (begun_login s id r)
  begun_login-Stepped s id _ (sound, owned) (returned {a = (db, challenge, key)} (m, is_owner)) =
      stepped s db _ (sound, owned) m
        (All-append (IsOwned (core s.db)) s.waiting (logging_in id key ∷ []) owned (is_owner, tt))
  begun_login-Stepped s id _ sound threw = (idle, sound)

  answered :
      (s : AuthSystem) (action : AuthAction) (now : ℕ)
      → SystemSound config s
      → Stepped s (record s { db = respond config hash action now s.db })
  answered s action now (sound, owned) =
      stepped s (respond config hash action now s.db) s.waiting (sound, owned)
        (respond-Move config hash action now s.db) owned

  auth_step-Stepped :
      (s : AuthSystem) (action : AuthAction) (now : ℕ)
      → SystemSound config s
      → Stepped s (auth_step config hash s action now)
  unfolding auth_step
  auth_step-Stepped s (register_action id) now sound =
      begun_registration-Stepped s id (begin_registration config id now s.db) sound
        (begin_registration-Moves config hash id now s.db)
  auth_step-Stepped s (login_action id response_id) now sound =
      begun_login-Stepped s id (begin_login id response_id now s.db) sound
        (begin_login-Holds config hash id response_id now s.db sound.0)
  auth_step-Stepped s (verified_action n answer fresh user_agent) now (sound, owned) =
      stepped s (finish config hash (get_elem? s.waiting n) answer fresh user_agent now s.db)
        (remove_at n s.waiting) (sound, owned)
        (finish-Move config hash (get_elem? s.waiting n) answer fresh user_agent now s.db
          (λ w e. All-get_elem (IsOwned (core s.db)) n s.waiting owned e))
        (All-remove_at (IsOwned (core s.db)) n s.waiting owned)
  auth_step-Stepped s (claim_action token) now sound = answered s (claim_action token) now sound
  auth_step-Stepped s (reset_action token) now sound = answered s (reset_action token) now sound
  auth_step-Stepped s (options_action input who session owner_id) now sound =
      asked_registration-Stepped s
        (registration_options config hash input who session owner_id now s.db) sound
  auth_step-Stepped s login_options_action now sound =
      asked_login-Stepped s (authentication_options s.db) sound
  auth_step-Stepped s (recognise_action owner_id session bearer) now sound =
      answered s (recognise_action owner_id session bearer) now sound
  auth_step-Stepped s (logout_action token) now sound = answered s (logout_action token) now sound
  auth_step-Stepped s (owner_action timezone language actor) now sound =
      answered s (owner_action timezone language actor) now sound
  auth_step-Stepped s (invite_action id token name actor) now sound =
      answered s (invite_action id token name actor) now sound
  auth_step-Stepped s (uninvite_action id actor) now sound =
      answered s (uninvite_action id actor) now sound
  auth_step-Stepped s (unkey_action id actor) now sound =
      answered s (unkey_action id actor) now sound
  auth_step-Stepped s (untoken_action id actor) now sound =
      answered s (untoken_action id actor) now sound
  auth_step-Stepped s (end_others_action session actor) now sound =
      answered s (end_others_action session actor) now sound
  auth_step-Stepped s (end_session_action id session actor) now sound =
      answered s (end_session_action id session actor) now sound
  auth_step-Stepped s (token_action id token name fits scopes actor) now sound =
      answered s (token_action id token name fits scopes actor) now sound

  auth_steps-Stepped :
      (s : AuthSystem) (run : List (AuthAction × ℕ))
      → SystemSound config s
      → Stepped s (auth_steps config hash s run)
  unfolding auth_steps
  auth_steps-Stepped s [] sound = (idle, sound)
  auth_steps-Stepped s ((action, now) ∷ rest) sound =
      let (m, kept_sound) = auth_step-Stepped s action now sound in
      let (n, end_sound) =
        auth_steps-Stepped (auth_step config hash s action now) rest kept_sound in
      (both m n, end_sound)

  -- Whatever requests come, in whatever order and with whatever verifiers and options coming late, the owners,
  -- keys, sessions, invitations and tokens change only by moves of the description, from tables in
  -- which the system is sound.
  pub auth_steps-Move :
      (s : AuthSystem) (run : List (AuthAction × ℕ))
      → SystemSound config s
      → Move config.demo (core s.db) (core (auth_steps config hash s run).db)
  auth_steps-Move s run sound = (auth_steps-Stepped s run sound).0

  -- No run of requests makes a sound system unsound: there is at most one owner, every key and session is
  -- the owner's, a session's key is registered, no two keys share an id, an owner has a key unless the
  -- server is a demonstration, and a login that waits is with a key of the owner.
  pub auth_steps-SystemSound :
      (s : AuthSystem) (run : List (AuthAction × ℕ))
      → SystemSound config s
      → SystemSound config (auth_steps config hash s run)
  auth_steps-SystemSound s run sound = (auth_steps-Stepped s run sound).1
