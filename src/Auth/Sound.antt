-- ===== src/Auth/Sound.antt =====
-- What every move of the description keeps.
use outpost_vpn_server.Prelude.{
  ℕ, ◌≤◌, Option, none, some, List, Bool, true, false, [], ◌∷◌, ◌++◌, ◌==◌, ◌&&◌, ◌≡◌, refl, arith,
  any, update_where, delete_where, count_where, length, All, count_where-append, Bool-cases, inl,
  inr, ==_iff, count_where-none, any-append, any-delete_where, any-update_where,
}
use outpost_vpn_server.Auth.{Owner, Passkey, Session}
use outpost_vpn_server.Auth.Access.{of_passkey}
use outpost_vpn_server.Auth.Moves.{
  Core, owned_by, backed_by, Move, idle, both, found, found_demo, describe, enroll, use_key,
  drop_key, open_session, touch_session, close_sessions, invite, spend, issue_token, use_token,
}

abbrev pub is_empty : List Owner → Bool
is_empty [] = true
is_empty (o ∷ os) = false

-- There is one owner at most; every key and session is the owner's; the key of a session is registered;
-- no two keys share an id; and an owner has a key, unless the server is a demonstration.
pub record IsSoundOf (demo : Bool) (owners : List Owner) (passkeys : List Passkey)
    (sessions : List Session) : Type 0 where
  pub one_owner : length owners ≤ 1
  pub keys_owned : All (λ k. owned_by k.owner_id owners ≡ true) passkeys
  pub sessions_owned : All (λ s. owned_by s.owner_id owners ≡ true) sessions
  pub sessions_backed : All (λ s. backed_by passkeys s.passkey_id ≡ true) sessions
  pub one_key : (id : ℕ) → count_where (λ k. k.id == id) passkeys ≤ 1
  pub has_key : demo ≡ false → is_empty owners ≡ false → 1 ≤ length passkeys

abbrev pub IsSound : Bool → Core → Type 0
IsSound demo c = IsSoundOf demo c.owners c.passkeys c.sessions

pub nobody : (id : ℕ) (os : List Owner) → os ≡ [] → owned_by id os ≡ true → ⊥
nobody id os e h = clash (rw e at h)
  where
    clash : owned_by id [] ≡ true → ⊥
    clash h = cc

pub owned_by-update :
    (id : ℕ) (p : Owner → Bool) (f : Owner → Owner) (os : List Owner)
    → ((o : Owner) → (f o).id ≡ o.id)
    → owned_by id (update_where p f os) ≡ owned_by id os
unfolding update_where
owned_by-update id p f [] keep = refl
owned_by-update id p f (o ∷ os) keep = ground (arith, keep o)

-- No move takes the owner away or gives the server to another one.
pub Move-owner :
    {demo : Bool} {c d : Core} (id : ℕ)
    → Move demo c d
    → owned_by id c.owners ≡ true
    → owned_by id d.owners ≡ true
Move-owner id idle h = h
Move-owner id (both m n) h = Move-owner id n (Move-owner id m h)
Move-owner id (found {c = c} o k e f g) h = absurd (nobody id c.owners e h)
Move-owner id (found_demo {c = c} o e f) h = absurd (nobody id c.owners f h)
Move-owner id (describe {c = c} p f keep) h = rw (owned_by-update id p f c.owners keep) h
Move-owner id (enroll k e f) h = h
Move-owner id (use_key p f keep) h = h
Move-owner id (drop_key o i e f) h = h
Move-owner id (open_session s e f) h = h
Move-owner id (touch_session p f keep) h = h
Move-owner id (close_sessions p) h = h
Move-owner id (invite i e) h = h
Move-owner id (spend p f keep) h = h
Move-owner id (issue_token t e) h = h
Move-owner id (use_token p f keep) h = h

pub is_empty-update :
    (p : Owner → Bool) (f : Owner → Owner) (os : List Owner)
    → is_empty (update_where p f os) ≡ is_empty os
unfolding update_where
is_empty-update p f [] = refl
is_empty-update p f (o ∷ os) = refl

pub same_owner : (a b : ℕ) (os : List Owner) → owned_by a os ≡ true → owned_by b os ≡ true → a ≡ b
same_owner a b [] h k = cc
same_owner a b (o ∷ os) h k = ground arith

pub one_key-append :
    (k : Passkey) (ks : List Passkey)
    → any (λ r. r.id == k.id) ks ≡ false
    → ((id : ℕ) → count_where (λ r. r.id == id) ks ≤ 1)
    → (id : ℕ) → count_where (λ r. r.id == id) (ks ++ k ∷ []) ≤ 1
one_key-append k ks new one id = elim (Bool-cases (k.id == id)) [
  | inl same ↦
      let e : k.id ≡ id = (==_iff k.id id).0 same in
      let zero_rows : count_where (λ r. r.id == id) ks ≡ 0 =
        rw (← e) (count_where-none (λ r. r.id == k.id) ks new) in
      rw (count_where-append (λ r. r.id == id) ks (k ∷ [])) (unfold count_where in ground arith)
  | inr other ↦
      let old = one id in
      rw (count_where-append (λ r. r.id == id) ks (k ∷ [])) (unfold count_where in ground arith)
]

pub backed_by-append :
    (ks : List Passkey) (k : Passkey) (o : Option ℕ)
    → backed_by ks o ≡ true
    → backed_by (ks ++ k ∷ []) o ≡ true
backed_by-append ks k none h = refl
backed_by-append ks k (some id) h = rw (any-append (λ r. r.id == id) ks (k ∷ []), h) refl

pub backed_by-update :
    (p : Passkey → Bool) (f : Passkey → Passkey) (ks : List Passkey) (o : Option ℕ)
    → ((k : Passkey) → (f k).id ≡ k.id)
    → backed_by ks o ≡ true
    → backed_by (update_where p f ks) o ≡ true
backed_by-update p f ks none keep h = refl
backed_by-update p f ks (some id) keep h =
    rw (any-update_where p (λ r. r.id == id) f (λ k. rw (keep k) refl) ks) h

-- A session that survives the dropping of a key has another key, which is still there.
pub backed_by-drop :
    (o : Owner) (id : ℕ) (ks : List Passkey) (s : Session)
    → s.owner_id ≡ o.id
    → (s.owner_id == o.id && of_passkey id s.passkey_id) ≡ false
    → backed_by ks s.passkey_id ≡ true
    → backed_by (delete_where (λ k. k.id == id && k.owner_id == o.id) ks) s.passkey_id ≡ true
backed_by-drop o id ks s same stays h = by_key s.passkey_id (ground arith) h
  where
    by_key :
        (key : Option ℕ)
        → of_passkey id key ≡ false
        → backed_by ks key ≡ true
        → backed_by (delete_where (λ k. k.id == id && k.owner_id == o.id) ks) key ≡ true
    by_key none e h = cc
    by_key (some k) e h =
        any-delete_where (λ r. r.id == id && r.owner_id == o.id) (λ r. r.id == k)
          (λ a hit. ground arith) ks h
