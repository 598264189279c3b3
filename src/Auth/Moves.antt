-- ===== src/Auth/Moves.antt =====
-- What the requests of src/server/auth/webauthn.ts may do to owners, keys, sessions, invitations and
-- tokens: an abstract description.
use outpost_vpn_server.Prelude.{
  ℕ, ◌<◌, Option, none, some, List, Bool, true, false, [], ◌∷◌, ◌++◌, ◌==◌, ◌&&◌, ◌≡◌, any, is_none,
  update_where, delete_where, count_where,
}
use outpost_vpn_server.Auth.{Owner, Passkey, Session, ApiToken, Invitation, AuthDb}
use outpost_vpn_server.Auth.Registration.{is_unused}
use outpost_vpn_server.Auth.Access.{of_passkey}

-- The tables that the description speaks of.
pub record Core : Type 0 where
  pub owners : List Owner
  pub passkeys : List Passkey
  pub sessions : List Session
  pub invitations : List Invitation
  pub api_tokens : List ApiToken

abbrev pub core : AuthDb → Core
core db = record {
  owners = db.owners;
  passkeys = db.passkeys;
  sessions = db.sessions;
  invitations = db.invitations;
  api_tokens = db.api_tokens;
}

-- The id is that of the owner (the first row of the table).
abbrev pub owned_by : ℕ → List Owner → Bool
owned_by id [] = false
owned_by id (o ∷ os) = o.id == id

-- The key with which a session was opened is registered.
abbrev pub backed_by : List Passkey → Option ℕ → Bool
backed_by keys none = true
backed_by keys (some id) = any (λ k. k.id == id) keys

abbrev pub SameRow : Session → Session → Type 0
SameRow s r =
    (r.owner_id ≡ s.owner_id) × (r.passkey_id ≡ s.passkey_id) × (r.token_hash ≡ s.token_hash)

-- `demo` tells whether the server runs as a demonstration.
pub data Move (demo : Bool) : Core → Core → Type 0 where
  idle : {c : Core} → Move demo c c
  both : {a b c : Core} → Move demo a b → Move demo b c → Move demo a c
  -- The first owner comes with a key; without one only in a demonstration.
  found :
      {c : Core} (o : Owner) (k : Passkey)
      → c.owners ≡ []
      → k.owner_id ≡ o.id
      → any (λ r. r.id == k.id) c.passkeys ≡ false
      → Move demo c (record c { owners = o ∷ []; passkeys = c.passkeys ++ k ∷ [] })
  found_demo :
      {c : Core} (o : Owner)
      → demo ≡ true
      → c.owners ≡ []
      → Move demo c (record c { owners = o ∷ [] })
  describe :
      {c : Core} (p : Owner → Bool) (f : Owner → Owner)
      → ((o : Owner) → (f o).id ≡ o.id)
      → Move demo c (record c { owners = update_where p f c.owners })
  enroll :
      {c : Core} (k : Passkey)
      → owned_by k.owner_id c.owners ≡ true
      → any (λ r. r.id == k.id) c.passkeys ≡ false
      → Move demo c (record c { passkeys = c.passkeys ++ k ∷ [] })
  use_key :
      {c : Core} (p : Passkey → Bool) (f : Passkey → Passkey)
      → ((k : Passkey) → ((f k).id ≡ k.id) × ((f k).owner_id ≡ k.owner_id))
      → Move demo c (record c { passkeys = update_where p f c.passkeys })
  -- A key that is not the owner's last goes with its sessions and those of no known key.
  drop_key :
      {c : Core} (o : Owner) (id : ℕ)
      → owned_by o.id c.owners ≡ true
      → 1 < count_where (λ k. k.owner_id == o.id) c.passkeys
      → Move demo c (record c {
        passkeys = delete_where (λ k. k.id == id && k.owner_id == o.id) c.passkeys;
        sessions = delete_where (λ s. s.owner_id == o.id && of_passkey id s.passkey_id) c.sessions;
      })
  open_session :
      {c : Core} (s : Session)
      → owned_by s.owner_id c.owners ≡ true
      → backed_by c.passkeys s.passkey_id ≡ true
      → Move demo c (record c { sessions = c.sessions ++ s ∷ [] })
  touch_session :
      {c : Core} (p : Session → Bool) (f : Session → Session)
      → ((s : Session) → SameRow s (f s))
      → Move demo c (record c { sessions = update_where p f c.sessions })
  close_sessions :
      {c : Core} (p : Session → Bool)
      → Move demo c (record c { sessions = delete_where p c.sessions })
  invite :
      {c : Core} (i : Invitation)
      → any (λ r. r.id == i.id) c.invitations ≡ false
      → Move demo c (record c { invitations = c.invitations ++ i ∷ [] })
  -- An invitation that was used or revoked does not become usable again.
  spend :
      {c : Core} (p : Invitation → Bool) (f : Invitation → Invitation)
      → ((i : Invitation) → ((f i).id ≡ i.id) × (is_unused (f i) ≡ false))
      → Move demo c (record c { invitations = update_where p f c.invitations })
  issue_token :
      {c : Core} (t : ApiToken)
      → any (λ r. r.id == t.id) c.api_tokens ≡ false
      → Move demo c (record c { api_tokens = c.api_tokens ++ t ∷ [] })
  -- Nor is a token restored that was revoked.
  use_token :
      {c : Core} (p : ApiToken → Bool) (f : ApiToken → ApiToken)
      → ((t : ApiToken)
          → ((f t).id ≡ t.id) × (is_none t.revoked_at ≡ false → is_none (f t).revoked_at ≡ false))
      → Move demo c (record c { api_tokens = update_where p f c.api_tokens })
