-- ===== src/Auth/Refinement.antt =====
-- The parts of the requests of src/server/auth/webauthn.ts as moves of the description.
use outpost_vpn_server.Prelude.{
  ℕ, String, Option, none, some, List, Bool, true, false, [], ◌∷◌, ◌++◌, ◌==◌, ◌||◌, ◌≡◌, refl,
  arith, any, is_none, Bool-cases, inl, inr, any-append, ==_refl,
}
use outpost_vpn_server.Db.{Fault, service, Result, ok, err, ◌>>=◌, guard, or_throw}
use outpost_vpn_server.Db.Laws.{Holds, returned, threw, bind-Holds, bind_any-Holds}
use outpost_vpn_server.Auth.{
  Owner, Passkey, Invitation, Authority, by_claim, by_recovery, by_session, by_invite,
  RegistrationContext, RegistrationInfo, AuthDb, Config, FreshSession, ChallengeKind, StoredContext,
  insert_row, owner, first_owner, create_session, claim, verify_grant_hash,
}
use outpost_vpn_server.Auth.Registration.{
  verify_authority, store_challenge, prune_challenges, add_owner, clear_grant, consume_invitation,
  new_passkey, add_passkey, has_session, has_room,
}
use outpost_vpn_server.Auth.Moves.{
  core, owned_by, backed_by, Move, idle, found, enroll, open_session, spend,
}

pub insert_row-Holds :
    {A : Type 0} (clash : A → Bool) (row : A) (rows : List A)
    → Holds (λ rs. (any clash rows ≡ false) × (rs ≡ rows ++ row ∷ [])) (insert_row clash row rows)
unfolding insert_row
insert_row-Holds clash row rows = elim (Bool-cases (any clash rows)) [
  | inl taken ↦ rw taken threw
  | inr free ↦ rw free (returned (refl, refl))
]

abbrev pub Moves : Bool → AuthDb → Result AuthDb → Type 0
Moves demo db = Holds (λ d. Move demo (core db) (core d))

pub guard-Holds : (b : Bool) (e : Fault) → Holds (λ _. b ≡ true) (guard b e)
guard-Holds true e = returned refl
guard-Holds false e = threw

pub or_throw-Holds :
    {A : Type 0} (o : Option A) (e : Fault) → Holds (λ a. o ≡ some a) (or_throw o e)
or_throw-Holds none e = threw
or_throw-Holds (some a) e = returned refl

pub clear_grant-core : (a : Authority) (db : AuthDb) → core (clear_grant a db) ≡ core db
clear_grant-core by_claim db = refl
clear_grant-core by_recovery db = refl
clear_grant-core by_session db = refl
clear_grant-core by_invite db = refl

-- A registration by a claim comes before there is an owner, the others are the owner's.
abbrev pub Granted : RegistrationContext → Authority → AuthDb → Type 0
Granted context by_claim db = db.owners ≡ []
Granted context _ db = owned_by context.owner_id db.owners ≡ true

pub no_owner-eq : (os : List Owner) → is_none (first_owner os) ≡ true → os ≡ []
no_owner-eq [] h = refl
no_owner-eq (o ∷ os) h = cc

pub owner-owned :
    (os : List Owner) (o : Owner) (id : ℕ)
    → first_owner os ≡ some o
    → (o.id == id) ≡ true
    → owned_by id os ≡ true
owner-owned [] o id e h = cc
owner-owned (p ∷ os) o id e h = let same : p ≡ o = cc in rw same h

anything : {A P : Type 0} (m : Result A) → P → Holds (λ _. P) m
anything (ok a) p = returned p
anything (err e) p = threw

owner_checked :
    {A : Type 0} (db : AuthDb) (context : RegistrationContext) (m : Result A)
    → Holds
        (λ _. owned_by context.owner_id db.owners ≡ true)
        (or_throw (owner db) (service 401) >>= λ o.
          guard (o.id == context.owner_id) (service 401) >>= λ _. m)
owner_checked db context m = bind-Holds (or_throw-Holds (owner db) (service 401)) λ o e.
    bind-Holds (guard-Holds (o.id == context.owner_id) (service 401))
      λ _ h. anything m (owner-owned db.owners o context.owner_id e h)

pub verify_authority-Granted :
    (config : Config) (context : RegistrationContext) (a : Authority) (now : ℕ) (db : AuthDb)
    → Holds (λ _. Granted context a db) (verify_authority config context a now db)
unfolding verify_authority
verify_authority-Granted config context by_claim now db =
    bind-Holds (guard-Holds (is_none (owner db)) (service 409)) λ _ h.
      bind_any-Holds (verify_grant_hash claim context.token_hash now db)
        λ _. returned (no_owner-eq db.owners h)
verify_authority-Granted config context by_recovery now db = owner_checked db context _
verify_authority-Granted config context by_invite now db = owner_checked db context _
verify_authority-Granted config context by_session now db =
    bind-Holds (or_throw-Holds (owner db) (service 401)) λ o e.
      bind-Holds (guard-Holds (o.id == context.owner_id) (service 401)) λ _ h.
        bind_any-Holds
          (guard (config.demo || has_session o.id context.session_hash now db) (service 401))
          λ _. returned (owner-owned db.owners o context.owner_id e h)

module _ (demo : Bool) where
  pub store_challenge-Moves :
      (kind : ChallengeKind) (id challenge : ℕ) (context : StoredContext) (now : ℕ) (db : AuthDb)
      → Moves demo db (store_challenge kind id challenge context now db)
  unfolding store_challenge prune_challenges
  store_challenge-Moves kind id challenge context now db =
      bind_any-Holds (guard (has_room kind _) (service 429))
        λ _. bind-Holds (insert_row-Holds _ _ _) λ rows e. returned idle

  pub create_session-Moves :
      (config : Config) (hash : ℕ → ℕ) (fresh : FreshSession) (db : AuthDb) (owner_id : ℕ)
      (user_agent : Option String) (passkey_id : Option ℕ) (now : ℕ)
      → owned_by owner_id db.owners ≡ true
      → backed_by db.passkeys passkey_id ≡ true
      → Moves demo db (create_session config hash fresh db owner_id user_agent passkey_id now)
  unfolding create_session
  create_session-Moves config hash fresh db owner_id user_agent passkey_id now owned backed =
      bind-Holds (insert_row-Holds _ _ db.sessions)
        λ rows e. returned (rw e.1 (open_session _ owned backed))

  pub consume_invitation-Moves :
      (i : Option Invitation) (now : ℕ) (db : AuthDb)
      → Move demo (core db) (core (consume_invitation i now db))
  consume_invitation-Moves none now db = idle
  consume_invitation-Moves (some i) now db = spend _ _ (λ r. (refl, refl))

  -- What a registration has done when the key is in the table.
  abbrev pub Registered : AuthDb → Passkey → AuthDb → Type 0
  Registered db key d =
      Move demo (core db) (core d)
      × (owned_by key.owner_id d.owners ≡ true)
      × (any (λ k. k.id == key.id) d.passkeys ≡ true)

  listed : (ks : List Passkey) (key : Passkey) → any (λ k. k.id == key.id) (ks ++ key ∷ []) ≡ true
  listed ks key =
      rw (any-append (λ k. k.id == key.id) ks (key ∷ [])) (ground (arith, ==_refl key.id))

  add_key :
      (db : AuthDb) (key : Passkey)
      → owned_by key.owner_id db.owners ≡ true
      → Holds (Registered db key) (add_passkey key db)
  unfolding add_passkey
  add_key db key owned =
      bind-Holds (insert_row-Holds (λ k. k.id == key.id) key db.passkeys)
        λ keys e. returned (rw e.1 (enroll key owned e.0, owned, listed db.passkeys key))

  pub register-Registered :
      (a : Authority) (context : RegistrationContext) (info : RegistrationInfo)
      (i : Option Invitation) (now : ℕ) (db : AuthDb)
      → Granted context a db
      → Holds
          (Registered db (new_passkey context info i now))
          (add_passkey (new_passkey context info i now) (add_owner a context now db))
  unfolding add_passkey
  register-Registered by_claim context info i now db none_yet =
      let key : Passkey = new_passkey context info i now in
      bind-Holds (insert_row-Holds (λ k. k.id == key.id) key db.passkeys) λ keys e. returned (
        rw (e.1, none_yet)
          (found _ key refl refl e.0, ==_refl context.owner_id, listed db.passkeys key))
  register-Registered by_recovery context info i now db owned = add_key db _ owned
  register-Registered by_session context info i now db owned = add_key db _ owned
  register-Registered by_invite context info i now db owned = add_key db _ owned
