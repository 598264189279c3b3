-- ===== src/Connections/Generations.antt =====
-- Credentials under the methods of `ConnectionService`: one row for each connection, generation and
-- engine, and at most one active row for each connection and engine.
use outpost_vpn_server.Prelude.{
  ℕ, ◌≤◌, none, List, Bool, true, false, [], ◌∷◌, ◌++◌, ◌==◌, ◌&&◌, ◌≡◌, refl, arith, inl, inr,
  Bool-cases, count_where, count_where-append, count_where-update, count_where_mono, All, All-imp,
  All-update_where, All-always,
}
use outpost_vpn_server.Db.{
  Db, Credential, CredentialEngine, hysteria, xray, CredentialState, same_engine, same_slot,
  is_active_state, insert_credential,
}
use outpost_vpn_server.Db.Laws.{Holds, returned, threw, bind-Holds}
use outpost_vpn_server.Connections.{
  Crypto, Fresh, store, issue, update_credentials, revoke_others, activate_pending, revoke_all,
  pending_of, set_active,
}

abbrev pub active_of : ℕ → CredentialEngine → Credential → Bool
active_of id e r = r.connection_id == id && same_engine r.engine e && is_active_state r.state

-- The UNIQUE constraint of the table, and the index `credentials_active`.
pub record IsUnique (rows : List Credential) : Type 0 where
  pub one_slot : (r : Credential) → count_where (same_slot r) rows ≤ 1
  pub one_active : (id : ℕ) (e : CredentialEngine) → count_where (active_of id e) rows ≤ 1

abbrev pub Unique : Db → Type 0
Unique db = IsUnique db.credentials

same_slot_trans :
    (q r a : Credential) → same_slot q r ≡ true → same_slot q a ≡ true → same_slot r a ≡ true
same_slot_trans q r a h k = ground arith

insert_slot :
    (r q : Credential) (rows : List Credential)
    → count_where (same_slot r) rows ≡ 0
    → count_where (same_slot q) rows ≤ 1
    → count_where (same_slot q) (rows ++ r ∷ []) ≤ 1
insert_slot r q rows free h = elim (Bool-cases (same_slot q r)) [
  | inl same ↦
      let fewer =
        count_where_mono (same_slot q) (same_slot r) rows
          (All-always _ rows (λ a k. same_slot_trans q r a same k)) in
      rw (count_where-append (same_slot q) rows (r ∷ []))
        (unfold count_where in rw same (omega arith))
  | inr other ↦
      rw (count_where-append (same_slot q) rows (r ∷ []))
        (unfold count_where in rw other (omega arith))
]

insert_active :
    (r : Credential) (rows : List Credential) (id : ℕ) (e : CredentialEngine)
    → is_active_state r.state ≡ false
    → count_where (active_of id e) (rows ++ r ∷ []) ≡ count_where (active_of id e) rows
insert_active r rows id e h =
    rw (count_where-append (active_of id e) rows (r ∷ [])) (unfold count_where in ground arith)

insert_credential-Unique :
    (r : Credential) (db : Db)
    → is_active_state r.state ≡ false
    → Unique db
    → Holds Unique (insert_credential r db)
unfolding insert_credential
insert_credential-Unique r db idle h =
    elim (Bool-cases (count_where (same_slot r) db.credentials == 0)) [
      | inl free ↦ rw free (
          returned (record {
            one_slot = λ q. insert_slot r q db.credentials (ground arith) (h.one_slot q);
            one_active = λ id e. rw (insert_active r db.credentials id e idle) (h.one_active id e);
          }))
      | inr taken ↦ rw taken threw
    ]

pub issue-Unique :
    (c : Crypto) (fresh : Fresh) (id generation now : ℕ) (db : Db)
    → Unique db
    → Holds Unique (issue c fresh id generation now db)
unfolding issue store
issue-Unique c fresh id generation now db h =
    bind-Holds (insert_credential-Unique _ db refl h) λ d k. insert_credential-Unique _ d refl k

-- An update that moves no row to another slot and activates none.
quiet_update :
    (p : Credential → Bool) (f : Credential → Credential) (db : Db)
    → ((q r : Credential) → same_slot q (f r) ≡ same_slot q r)
    → ((r : Credential) → is_active_state (f r).state ≡ false)
    → Unique db
    → Unique (update_credentials p f db)
unfolding update_credentials
quiet_update p f db slot idle h = record {
  one_slot = λ q. omega (
    arith,
    h.one_slot q,
    count_where-update (same_slot q) p f (λ r hit e. (slot_back q r e)) db.credentials,
  );
  one_active = λ id e. omega (
    arith,
    h.one_active id e,
    count_where-update (active_of id e) p f (λ r hit k. absurd (no_active id e r k)) db.credentials,
  );
}
  where
    slot_back : (q r : Credential) → same_slot q (f r) ≡ true → same_slot q r ≡ true
    slot_back q r e = rw (slot q r) at e

    no_active : (id : ℕ) (e : CredentialEngine) (r : Credential) → active_of id e (f r) ≡ true → ⊥
    no_active id e r k = ground (arith, idle r)

pub revoke_others-Unique :
    (id generation now : ℕ) (db : Db) → Unique db → Unique (revoke_others id generation now db)
unfolding revoke_others
revoke_others-Unique id generation now db h = quiet_update _ _ db (λ q r. refl) (λ r. refl) h

pub revoke_all-Unique : (id now : ℕ) (db : Db) → Unique db → Unique (revoke_all id now db)
unfolding revoke_all
revoke_all-Unique id now db h = quiet_update _ _ db (λ q r. refl) (λ r. refl) h

-- The connection's active rows all have this generation.
abbrev pub OnlyGeneration : ℕ → ℕ → Db → Type 0
OnlyGeneration id generation db =
    All
      (λ r.
        (r.connection_id == id && is_active_state r.state) ≡ true
        → (r.generation == generation) ≡ true)
      db.credentials

pub revoke_others-OnlyGeneration :
    (id generation now : ℕ) (db : Db)
    → OnlyGeneration id generation (revoke_others id generation now db)
unfolding revoke_others update_credentials
revoke_others-OnlyGeneration id generation now db =
    All-update_where _ (λ r. Unit {0}) _ _ (λ r _. ground arith) db.credentials
      (All-always _ db.credentials (λ r. tt))

pub activate_pending-OnlyGeneration :
    (id generation now : ℕ) (db : Db)
    → OnlyGeneration id generation db
    → OnlyGeneration id generation (activate_pending id generation now db)
unfolding activate_pending update_credentials
activate_pending-OnlyGeneration id generation now db h =
    All-update_where _ _ _ _ (λ r k. ground arith) db.credentials h

slot_of : ℕ → ℕ → CredentialEngine → Credential
slot_of id generation e = record {
  id = 0;
  connection_id = id;
  generation = generation;
  engine = e;
  state = CredentialState.pending;
  box = record { ciphertext = 0; iv = 0; tag = 0 };
  created_at = 0;
  activated_at = none;
  revoked_at = none;
}

active_in_slot :
    (id j generation : ℕ) (e : CredentialEngine) (r : Credential)
    → (j == id) ≡ true
    → ((r.connection_id == id && is_active_state r.state) ≡ true
        → (r.generation == generation) ≡ true)
    → active_of j e r ≡ true
    → same_slot (slot_of j generation e) r ≡ true
unfolding slot_of
active_in_slot id j generation e r same only h = ground (arith, engine_sym r.engine e)
  where
    engine_sym : (a b : CredentialEngine) → same_engine a b ≡ same_engine b a
    engine_sym hysteria hysteria = refl
    engine_sym hysteria xray = refl
    engine_sym xray hysteria = refl
    engine_sym xray xray = refl

activate_pending-one_slot :
    (id generation now : ℕ) (db : Db) (q : Credential)
    → Unique db
    → count_where (same_slot q) (activate_pending id generation now db).credentials ≤ 1
unfolding activate_pending update_credentials
activate_pending-one_slot id generation now db q h = omega (
  arith,
  h.one_slot q,
  count_where-update (same_slot q) (pending_of id generation) (set_active now) (λ r hit e. e)
      db.credentials,
)

activate_pending-one_active :
    (id generation now : ℕ) (db : Db) (j : ℕ) (e : CredentialEngine)
    → OnlyGeneration id generation db
    → Unique db
    → count_where (active_of j e) (activate_pending id generation now db).credentials ≤ 1
activate_pending-one_active id generation now db j e only h = elim (Bool-cases (j == id)) [
  | inl same ↦ omega (
    arith,
    activate_pending-one_slot id generation now db (slot_of j generation e) h,
    count_where_mono (active_of j e) (same_slot (slot_of j generation e)) _ (
        All-imp _ _ (λ r k. active_in_slot id j generation e r same k) _
          (activate_pending-OnlyGeneration id generation now db only)),
  )
  | inr other ↦ elsewhere other
]
  where
    elsewhere :
        (j == id) ≡ false
        → count_where (active_of j e) (activate_pending id generation now db).credentials ≤ 1
    elsewhere other =
        unfold activate_pending update_credentials in
        omega (
          arith,
          h.one_active j e,
          count_where-update (active_of j e) (pending_of id generation) (set_active now)
              (λ r hit k. ground arith) db.credentials,
        )

pub activate_pending-Unique :
    (id generation now : ℕ) (db : Db)
    → OnlyGeneration id generation db
    → Unique db
    → Unique (activate_pending id generation now db)
activate_pending-Unique id generation now db only h = record {
  one_slot = λ q. activate_pending-one_slot id generation now db q h;
  one_active = λ j e. activate_pending-one_active id generation now db j e only h;
}
