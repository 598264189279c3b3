-- ===== src/Connections/Retired.antt =====
-- An archived connection: all its rows (there is one) carry `archived_at`.
use outpost_vpn_server.Prelude.{
  ℕ, Option, none, some, List, Bool, true, false, [], ◌∷◌, ◌++◌, ◌==◌, ◌≡◌, ◌⊎◌, refl, ap, arith,
  inl, inr, Bool-cases, any, All, All-append, All-update, first_where, first_where-of_All, All-imp,
  update_where, is_some,
}
use outpost_vpn_server.Db.{
  Db, Connection, service, err, or_throw, clashes, insert_connection, update_connection,
}
use outpost_vpn_server.Db.Laws.{Holds, returned, threw}
use outpost_vpn_server.Connections.Access.{Locked, LockedRow}
use outpost_vpn_server.Connections.{get, visible}

abbrev pub ArchivedRow : ℕ → Connection → Type 0
ArchivedRow id k = (k.id == id) ≡ true → is_some k.archived_at ≡ true

abbrev pub has_id : ℕ → Connection → Bool
has_id id k = k.id == id

abbrev pub Retired : ℕ → Db → Type 0
Retired id db = (any (has_id id) db.connections ≡ true) × All (ArchivedRow id) db.connections

pub any-update {ℓ} :
    {A : Type ℓ} (p q : A → Bool) (f : A → A)
    → ((a : A) → p (f a) ≡ p a)
    → (xs : List A) → any p (update_where q f xs) ≡ any p xs
unfolding update_where
any-update p q f same [] = refl
any-update p q f same (x ∷ xs) = elim (Bool-cases (q x)) [
  | inl e ↦ rw (e, same x, any-update p q f same xs)
  | inr e ↦ rw (e, any-update p q f same xs)
]

any-append {ℓ} :
    {A : Type ℓ} (p : A → Bool) (xs ys : List A) → any p xs ≡ true → any p (xs ++ ys) ≡ true
any-append p [] ys h = cc
any-append p (x ∷ xs) ys h = ground (arith, any-append p xs ys)

pub update_connection-Retired :
    (id j : ℕ) (f : Connection → Connection) (db : Db)
    → ((k : Connection) → (f k).id ≡ k.id)
    → ((k : Connection) → is_some k.archived_at ≡ true → is_some (f k).archived_at ≡ true)
    → Retired id db
    → Retired id (update_connection j f db)
unfolding update_connection
update_connection-Retired id j f db same keep (h, all) = (
  rw (any-update (has_id id) _ f (λ k. ap (λ n. n == id) (same k)) db.connections) h,
  All-update _ (ArchivedRow id) f (λ k hit old e. keep k (old (rw (same k) at e))) db.connections
      all,
)

no_clash :
    (id : ℕ) (r : Connection) (rows : List Connection)
    → any (has_id id) rows ≡ true
    → any (clashes r) rows ≡ false
    → (r.id == id) ≡ false
no_clash id r [] h k = cc
no_clash id r (x ∷ xs) h k = elim (Bool-cases (x.id == id)) [
  | inl here ↦ ground arith
  | inr later ↦ no_clash id r xs (ground arith) (ground arith)
]

pub insert_connection-Retired :
    (id : ℕ) (r : Connection) (db : Db)
    → Retired id db
    → Holds (Retired id) (insert_connection r db)
unfolding insert_connection
insert_connection-Retired id r db (h, all) = elim (Bool-cases (any (clashes r) db.connections)) [
  | inl clash ↦ rw clash threw
  | inr free ↦
      let other = no_clash id r db.connections h free in
      rw free (
        returned (
          any-append (has_id id) db.connections (r ∷ []) h,
          All-append (ArchivedRow id) db.connections (r ∷ []) all ((λ e. cc), tt),
        ))
]

-- The connection is not visible: every method that does not ask for archived rows answers 404.
pub get-Retired : (id : ℕ) (db : Db) → Retired id db → get db id false ≡ err (service 404)
unfolding get visible
get-Retired id db (h, all) = rw (
    first_where-of_All (visible id false) db.connections
      (All-imp (ArchivedRow id) _ (λ k old. hidden k old) db.connections all))
  where
    hidden : (k : Connection) → ArchivedRow id k → visible id false k ≡ false
    hidden k old = elim (Bool-cases (k.id == id)) [
      | inl here ↦ ground (arith, old here)
      | inr there ↦ ground arith
    ]

pub Retired-Locked : (id : ℕ) (db : Db) → Retired id db → Locked id db
Retired-Locked id db (h, all) =
    All-imp (ArchivedRow id) (LockedRow id) (λ k old e. ground (arith, old e)) db.connections all

visible-any :
    (id : ℕ) (rows : List Connection)
    → (first_where (visible id false) rows ≡ none) ⊎ (any (has_id id) rows ≡ true)
unfolding first_where visible
visible-any id [] = inl refl
visible-any id (x ∷ xs) = elim (Bool-cases (x.id == id)) [
  | inl here ↦ inr (rw here refl)
  | inr there ↦ elim (visible-any id xs) [
    | inl missing ↦ inl (rw there missing)
    | inr found ↦ inr (rw there found)
  ]
]

-- A connection that `get` finds is in the table.
pub get-any :
    (db : Db) (id : ℕ) → Holds (λ _. any (has_id id) db.connections ≡ true) (get db id false)
unfolding get
get-any db id = elim (visible-any id db.connections) [
  | inl missing ↦ rw missing threw
  | inr found ↦ at found (first_where (visible id false) db.connections)
]
  where
    at :
        any (has_id id) db.connections ≡ true
        → (o : Option Connection)
        → Holds (λ _. any (has_id id) db.connections ≡ true) (or_throw o (service 404))
    at found none = threw
    at found (some k) = returned found
