-- ===== src/Prelude/Rows.antt =====
-- What deletions, insertions and updates of rows keep.
use Prim.Native.Nat.{◌+◌, ◌≤◌}
use mathlib.Core.Path.{◌≡◌, refl}
use mathlib.Core.Bool.{Bool, true, false, ◌||◌}
use mathlib.Core.Logic.{inl, inr}
use mathlib.Core.Option.{some}
use mathlib.Core.List.{List, [], ◌∷◌, ◌++◌}
use native.Mathlib.Omega.{arith}
use outpost_vpn_server.Prelude.Tests.{Bool-cases}
use outpost_vpn_server.Prelude.Lists.{All, any, length}
use outpost_vpn_server.Prelude.Tables.{update_where, delete_where, count_where, first_where}

module _ {ℓ} {A : Type ℓ} (p : A → Bool) where
  pub All-delete_where {κ μ} :
      (P : A → Type κ) (Q : A → Type μ)
      → ((a : A) → p a ≡ false → P a → Q a)
      → (xs : List A) → All P xs
      → All Q (delete_where p xs)
  unfolding delete_where
  All-delete_where P Q keep [] h = tt
  All-delete_where P Q keep (x ∷ xs) (k, h) = elim (Bool-cases (p x)) [
    | inl gone ↦ rw gone (All-delete_where P Q keep xs h)
    | inr stays ↦ rw stays (keep x stays k, All-delete_where P Q keep xs h)
  ]

  pub length-delete_where :
      (xs : List A) → length (delete_where p xs) + count_where p xs ≡ length xs
  unfolding delete_where count_where
  length-delete_where [] = omega arith
  length-delete_where (x ∷ xs) = ground (arith, length-delete_where xs)

  pub length-count_where : (xs : List A) → count_where p xs ≤ length xs
  unfolding count_where
  length-count_where [] = omega arith
  length-count_where (x ∷ xs) = ground (arith, length-count_where xs)

  pub count_where-delete :
      (q : A → Bool) (xs : List A) → count_where q (delete_where p xs) ≤ count_where q xs
  unfolding delete_where count_where
  count_where-delete q [] = omega arith
  count_where-delete q (x ∷ xs) = ground (arith, count_where-delete q xs)

  pub count_where-none : (xs : List A) → any p xs ≡ false → count_where p xs ≡ 0
  unfolding count_where
  count_where-none [] h = refl
  count_where-none (x ∷ xs) h = ground (arith, count_where-none xs)

  pub any-append : (xs ys : List A) → any p (xs ++ ys) ≡ (any p xs || any p ys)
  any-append [] ys = refl
  any-append (x ∷ xs) ys = elim (Bool-cases (p x)) [
    | inl hit ↦ rw hit refl
    | inr miss ↦ rw miss (any-append xs ys)
  ]

  -- A row that is found stays, if no row that the test finds is deleted.
  pub any-delete_where :
      (q : A → Bool)
      → ((a : A) → q a ≡ true → p a ≡ false)
      → (xs : List A) → any q xs ≡ true
      → any q (delete_where p xs) ≡ true
  unfolding delete_where
  any-delete_where q keep [] h = h
  any-delete_where q keep (x ∷ xs) h = ground (arith, keep x, any-delete_where q keep xs)

  -- An update that does not change what a test says of a row.
  pub any-update_where :
      (q : A → Bool) (f : A → A)
      → ((a : A) → q (f a) ≡ q a)
      → (xs : List A) → any q (update_where p f xs) ≡ any q xs
  unfolding update_where
  any-update_where q f same [] = refl
  any-update_where q f same (x ∷ xs) = ground (arith, same x, any-update_where q f same xs)

  pub length-update_where : (f : A → A) (xs : List A) → length (update_where p f xs) ≡ length xs
  unfolding update_where
  length-update_where f [] = refl
  length-update_where f (x ∷ xs) = omega (arith, length-update_where f xs)

-- What a weaker test does not find, a stronger one does not either.
pub any_stronger {ℓ} :
    {A : Type ℓ} (p q : A → Bool)
    → ((a : A) → q a ≡ true → p a ≡ true)
    → (xs : List A) → any p xs ≡ false
    → any q xs ≡ false
any_stronger p q weaker [] h = refl
any_stronger p q weaker (x ∷ xs) h = ground (arith, weaker x, any_stronger p q weaker xs)

-- A row at the end is found if no other is, and does not hide one that is.
pub first_where-append {ℓ} :
    {A : Type ℓ} (p : A → Bool) (row : A) (xs : List A)
    → p row ≡ true
    → any p xs ≡ false
    → first_where p (xs ++ row ∷ []) ≡ some row
unfolding first_where
first_where-append p row [] here there = rw here refl
first_where-append p row (x ∷ xs) here there = elim (Bool-cases (p x)) [
  | inl hit ↦ ground arith
  | inr miss ↦ rw miss (first_where-append p row xs here (rw miss at there))
]

pub first_where-append_some {ℓ} :
    {A : Type ℓ} (p : A → Bool) (row : A) (xs : List A) {a : A}
    → first_where p xs ≡ some a
    → first_where p (xs ++ row ∷ []) ≡ some a
unfolding first_where
first_where-append_some p row [] h = cc
first_where-append_some p row (x ∷ xs) h = elim (Bool-cases (p x)) [
  | inl hit ↦ rw hit (rw hit at h)
  | inr miss ↦ rw miss (first_where-append_some p row xs (rw miss at h))
]
