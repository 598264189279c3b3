-- ===== src/Connections/Access.antt =====
-- Who gets in: subscription links and Hysteria passwords.
use mathlib.Core.List.{Memᴰ}
use text.Mathlib.Text.{◌==◌ as str_eq}
use text.Mathlib.TextEquality.{eq_iff}
use outpost_vpn_server.Prelude.{
  ℕ, String, Option, none, some, List, Bool, true, false, [], ◌∷◌, ◌==◌, ◌&&◌, ◌≡◌, ◌≢◌, ◌⊎◌, refl,
  arith, inl, inr, Bool-cases, any, All, All-first_where, All-rows_where, first_where,
  first_where-eq-some, ==_iff, rows_where,
}
use outpost_vpn_server.Db.{
  Db, Connection, Credential, CredentialState, hysteria, Result, ok, same_engine, is_active_state,
}
use outpost_vpn_server.Db.Laws.{or_throw-eq-ok}
use outpost_vpn_server.Connections.{
  Crypto, Secret, hysteria_secret, xray_secret, usable, has_hash, by_subscription_token,
  hysteria_rows, match_row, match_password, authenticate_hysteria,
}

abbrev pub LockedRow : ℕ → Connection → Type 0
LockedRow id k = (k.id == id) ≡ true → usable k ≡ false

-- The connection is not active, or it is suspended or archived.
abbrev pub Locked : ℕ → Db → Type 0
Locked id db = All (LockedRow id) db.connections

pub by_subscription_token-Locked :
    (c : Crypto) (id : ℕ) (db : Db) (token : ℕ) (k : Connection)
    → Locked id db
    → by_subscription_token c db token ≡ ok k
    → k.id ≢ id
unfolding by_subscription_token
by_subscription_token-Locked c id db token k all e same =
    let found =
      or_throw-eq-ok
        (first_where (λ r. has_hash (c.hash token) r.token_hash && usable r) db.connections) _ e in
    let test = first_where-eq-some _ db.connections found in
    let old : LockedRow id k = All-first_where _ (LockedRow id) db.connections found all in
    ground (arith, old ((==_iff k.id id).1 same))

no_owner :
    (id j : ℕ) (rows : List Connection)
    → All (LockedRow id) rows
    → any (λ k. k.id == j && usable k) rows ≡ true
    → (j == id) ≡ false
no_owner id j [] all h = cc
no_owner id j (x ∷ xs) (old, all) h = elim (Bool-cases (any (λ k. k.id == j && usable k) xs)) [
  | inl later ↦ no_owner id j xs all later
  | inr here ↦ elim (Bool-cases (j == id)) [
    | inl same ↦ absurd (ground (arith, old))
    | inr other ↦ other
  ]
]

match_row-owner :
    (auth : String) (r : Credential) (o : Option Secret) (rest : Result (Option ℕ)) (j : ℕ)
    → match_row auth r o rest ≡ ok (some j)
    → ((r.connection_id ≡ j) × ((n : ℕ) × (o ≡ some (hysteria_secret n auth))))
      ⊎ (rest ≡ ok (some j))
unfolding match_row
match_row-owner auth r none rest j h = cc
match_row-owner auth r (some (hysteria_secret id password)) rest j h =
    elim (Bool-cases (str_eq password auth)) [
      | inl same ↦
          let text : password ≡ auth = (eq_iff password auth).0 same in
          inl (ground arith, (id, rw text))
      | inr other ↦ inr (ground arith)
    ]
match_row-owner auth r (some (xray_secret id k g)) rest j h = inr h

-- A row with the connection, whose box holds the password.
abbrev Opens : Crypto → String → ℕ → Credential → Type 0
Opens c auth j r =
    (r.connection_id ≡ j) × ((n : ℕ) × (c.decrypt r.box ≡ some (hysteria_secret n auth)))

match_password_sound :
    (c : Crypto) (auth : String) (rows : List Credential) (j : ℕ)
    → match_password c auth rows ≡ ok (some j)
    → (r : Credential) × Memᴰ r rows × Opens c auth j r
unfolding match_password
match_password_sound c auth [] j e = elim (clash e) [ ]
  where
    clash : ◌≡◌ {A = Result (Option ℕ)} (ok none) (ok (some j)) → ⊥
    clash e = cc
match_password_sound c auth (r ∷ rs) j e = elim (match_row-owner auth r (c.decrypt r.box) _ j e) [
  | inl here ↦ (r, Memᴰ.head refl, here)
  | inr later ↦
      let (s, member, opens) = match_password_sound c auth rs j later in
      (s, Memᴰ.tail member, opens)
]

All-Mem : {A : Type 0} (P : A → Type 0) {a : A} (xs : List A) → All P xs → Memᴰ a xs → P a
All-Mem P [] h m = elim m [ ]
All-Mem P (x ∷ xs) (p, h) (Memᴰ.head e) = rw e p
All-Mem P (x ∷ xs) (p, h) (Memᴰ.tail m) = All-Mem P xs h m

Mem-weaken :
    {A : Type 0} {a x : A} (xs ys : List A)
    → (Memᴰ a xs → Memᴰ a ys)
    → Memᴰ a (x ∷ xs)
    → Memᴰ a (x ∷ ys)
Mem-weaken xs ys more (Memᴰ.head e) = Memᴰ.head e
Mem-weaken xs ys more (Memᴰ.tail m) = Memᴰ.tail (more m)

Mem-rows_where :
    {A : Type 0} (p : A → Bool) {a : A} (xs : List A) → Memᴰ a (rows_where p xs) → Memᴰ a xs
unfolding rows_where
Mem-rows_where p [] m = elim m [ ]
Mem-rows_where p {a} (x ∷ xs) m = elim (Bool-cases (p x)) [
  | inl hit ↦ Mem-weaken (rows_where p xs) xs (Mem-rows_where p xs) (rw hit at m)
  | inr miss ↦ Memᴰ.tail (Mem-rows_where p xs (rw miss at m))
]

abbrev usable_owner : Db → Credential → Bool
usable_owner db r = any (λ k. k.id == r.connection_id && usable k) db.connections

-- What a successful Hysteria authentication rests on: a credential of the table for the named
-- connection, of the engine Hysteria, active, whose box opens to the password given; and the
-- connection is active, neither suspended nor archived.
pub record IsAuthentic (c : Crypto) (db : Db) (auth : String) (id : ℕ) : Type 0 where
  pub credential : Credential
  pub listed : Memᴰ credential db.credentials
  pub owner : credential.connection_id ≡ id
  pub engine : credential.engine ≡ hysteria
  pub state : credential.state ≡ CredentialState.active
  pub user : ℕ
  pub opened : c.decrypt credential.box ≡ some (hysteria_secret user auth)
  pub usable_connection : any (λ k. k.id == id && usable k) db.connections ≡ true

hysteria_rows-test :
    (db : Db) (r : Credential)
    → Memᴰ r (hysteria_rows db)
    → (same_engine r.engine hysteria && is_active_state r.state && usable_owner db r) ≡ true
unfolding hysteria_rows
hysteria_rows-test db r m =
    All-Mem _ (hysteria_rows db) (All-rows_where _ _ (λ a hit. hit) db.credentials) m

-- If a Hysteria authentication names a connection, the table holds a credential of that connection, of
-- the engine Hysteria and active, whose box opens to the password that was given, and a connection of
-- that id is active, neither suspended nor archived.
pub authenticate_hysteria-IsAuthentic :
    (c : Crypto) (db : Db) (auth : String) (id : ℕ)
    → authenticate_hysteria c db auth ≡ ok (some id)
    → IsAuthentic c db auth id
unfolding authenticate_hysteria
authenticate_hysteria-IsAuthentic c db auth id e =
    let (r, m, opens) = match_password_sound c auth (hysteria_rows db) id e in
    let test = hysteria_rows-test db r m in
    record {
      credential = r;
      listed = unfold hysteria_rows in Mem-rows_where _ db.credentials m;
      owner = opens.0;
      engine = ground arith;
      state = ground arith;
      user = opens.1.0;
      opened = opens.1.1;
      usable_connection = rw opens.0 at (owned r test);
    }
  where
    owned :
        (r : Credential)
        → (same_engine r.engine hysteria && is_active_state r.state && usable_owner db r) ≡ true
        → usable_owner db r ≡ true
    owned r h = ground arith

-- No password authenticates as the connection.
pub authenticate_hysteria-Locked :
    (c : Crypto) (id : ℕ) (db : Db) (auth : String)
    → Locked id db
    → authenticate_hysteria c db auth ≢ ok (some id)
authenticate_hysteria-Locked c id db auth all e =
    let a = authenticate_hysteria-IsAuthentic c db auth id e in
    let other : (id == id) ≡ false = no_owner id id db.connections all a.usable_connection in
    ground arith
