-- ===== src/Auth/Lifetime.antt =====
-- Rows of src/server/auth/webauthn.ts under the moves of the description: an invitation that was used, an API
-- token that was revoked.
use outpost_vpn_server.Prelude.{
  ℕ, some, List, Bool, true, false, [], ◌∷◌, ◌++◌, ◌==◌, ◌≡◌, refl, ◌∙◌, arith, any, is_none,
  if◌then◌else◌, Bool-cases, inl, inr, any-append, any-update_where, All, All-append, All-update,
  first_where, update_where, All-update_where, All-always, ==_iff,
}
use outpost_vpn_server.Auth.Registration.{is_unused}
use outpost_vpn_server.Auth.Moves.{
  Core, Move, idle, both, found, found_demo, describe, enroll, use_key, drop_key, open_session,
  touch_session, close_sessions, invite, spend, issue_token, use_token,
}

-- The row of an id is there, and none with that id passes a test.
abbrev pub IsOver : {A : Type 0} → (A → ℕ) → (A → Bool) → ℕ → List A → Type 0
IsOver key live id rows =
    (any (λ r. key r == id) rows ≡ true) × All (λ r. (key r == id) ≡ true → live r ≡ false) rows

module _ {A : Type 0} (key : A → ℕ) (live : A → Bool) where
  IsOver-append :
      (row : A) (rows : List A) (id : ℕ)
      → any (λ r. key r == key row) rows ≡ false
      → IsOver key live id rows
      → IsOver key live id (rows ++ row ∷ [])
  IsOver-append row rows id new (there, over) = (
    rw (any-append (λ r. key r == id) rows (row ∷ []), there) refl,
    All-append (λ r. (key r == id) ≡ true → live r ≡ false) rows (row ∷ []) over (other, tt),
  )
    where
      clash : any (λ r. key r == id) rows ≡ false → live row ≡ false
      clash none_there = cc

      other : (key row == id) ≡ true → live row ≡ false
      other same = let e : key row ≡ id = (==_iff (key row) id).0 same in clash (rw e at new)

  IsOver-update :
      (p : A → Bool) (f : A → A) (rows : List A) (id : ℕ)
      → ((a : A) → (key (f a) ≡ key a) × (live a ≡ false → live (f a) ≡ false))
      → IsOver key live id rows
      → IsOver key live id (update_where p f rows)
  IsOver-update p f rows id keep (there, over) = (
    any-update_where p (λ r. key r == id) f (λ r. rw (keep r).0 refl) rows ∙ there,
    All-update p (λ r. (key r == id) ≡ true → live r ≡ false) f
        (λ a hit old same. (keep a).1 (old (rw (keep a).0 at same))) rows over,
  )

  -- An update that leaves no row of the id that passes the test.
  pub IsOver-close :
      (p : A → Bool) (f : A → A) (rows : List A) (id : ℕ)
      → ((a : A) → key (f a) ≡ key a)
      → ((a : A)
          → (key (if p a then f a else a) == id) ≡ true
          → live (if p a then f a else a) ≡ false)
      → any (λ r. key r == id) rows ≡ true
      → IsOver key live id (update_where p f rows)
  IsOver-close p f rows id keep closed there = (
    any-update_where p (λ r. key r == id) f (λ r. rw (keep r) refl) rows ∙ there,
    All-update_where p (λ r. Unit {0}) (λ r. (key r == id) ≡ true → live r ≡ false) f
        (λ a u. closed a) rows (All-always (λ r. Unit {0}) rows (λ r. tt)),
  )

pub first_where-any :
    {A : Type 0} (p q : A → Bool) (xs : List A) {a : A}
    → q a ≡ true
    → first_where p xs ≡ some a
    → any q xs ≡ true
unfolding first_where
first_where-any p q [] hit e = cc
first_where-any p q (x ∷ xs) {a} hit e = elim (Bool-cases (p x)) [
  | inl here ↦ let same : x ≡ a = ground arith in rw (same, hit) refl
  | inr miss ↦ elim (Bool-cases (q x)) [
    | inl found_here ↦ rw found_here refl
    | inr other ↦ rw other (first_where-any p q xs hit (rw miss at e))
  ]
]

pub invitation-IsOver :
    {demo : Bool} {c d : Core} (id : ℕ)
    → Move demo c d
    → IsOver (λ i. i.id) is_unused id c.invitations
    → IsOver (λ i. i.id) is_unused id d.invitations
invitation-IsOver id idle h = h
invitation-IsOver id (both m n) h = invitation-IsOver id n (invitation-IsOver id m h)
invitation-IsOver id (found o k e f g) h = h
invitation-IsOver id (found_demo o e f) h = h
invitation-IsOver id (describe p f keep) h = h
invitation-IsOver id (enroll k e f) h = h
invitation-IsOver id (use_key p f keep) h = h
invitation-IsOver id (drop_key o i e f) h = h
invitation-IsOver id (open_session s e f) h = h
invitation-IsOver id (touch_session p f keep) h = h
invitation-IsOver id (close_sessions p) h = h
invitation-IsOver id (invite {c = c} i e) h =
    IsOver-append (λ i. i.id) is_unused i c.invitations id e h
invitation-IsOver id (spend {c = c} p f keep) h =
    IsOver-update (λ i. i.id) is_unused p f c.invitations id (λ a. ((keep a).0, λ old. (keep a).1))
      h
invitation-IsOver id (issue_token t e) h = h
invitation-IsOver id (use_token p f keep) h = h

pub token-IsOver :
    {demo : Bool} {c d : Core} (id : ℕ)
    → Move demo c d
    → IsOver (λ t. t.id) (λ t. is_none t.revoked_at) id c.api_tokens
    → IsOver (λ t. t.id) (λ t. is_none t.revoked_at) id d.api_tokens
token-IsOver id idle h = h
token-IsOver id (both m n) h = token-IsOver id n (token-IsOver id m h)
token-IsOver id (found o k e f g) h = h
token-IsOver id (found_demo o e f) h = h
token-IsOver id (describe p f keep) h = h
token-IsOver id (enroll k e f) h = h
token-IsOver id (use_key p f keep) h = h
token-IsOver id (drop_key o i e f) h = h
token-IsOver id (open_session s e f) h = h
token-IsOver id (touch_session p f keep) h = h
token-IsOver id (close_sessions p) h = h
token-IsOver id (invite i e) h = h
token-IsOver id (spend p f keep) h = h
token-IsOver id (issue_token {c = c} t e) h =
    IsOver-append (λ t. t.id) (λ t. is_none t.revoked_at) t c.api_tokens id e h
token-IsOver id (use_token {c = c} p f keep) h =
    IsOver-update (λ t. t.id) (λ t. is_none t.revoked_at) p f c.api_tokens id keep h
