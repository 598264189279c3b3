-- ===== src/Prelude/Tables.antt =====
-- SQL tables as lists of rows in the order of insertion (rowid): the statements that the program
-- uses, and their laws.
use Prim.Native.Nat.{ℕ, ◌+◌, ◌≤◌}
use mathlib.Core.Path.{◌≡◌, refl}
use mathlib.Core.Bool.{Bool, true, false}
use mathlib.Core.Logic.{inl, inr}
use mathlib.Core.Option.{Option, none, some}
use mathlib.Core.List.{List, [], ◌∷◌, ◌++◌}
use native.Mathlib.Omega.{arith}
use outpost_vpn_server.Prelude.Tests.{if◌then◌else◌, Bool-cases}
use outpost_vpn_server.Prelude.Lists.{All}

module _ {ℓ} {A : Type ℓ} where
  -- SELECT ... WHERE p, in the order of rowid
  unfoldable pub rows_where : (A → Bool) → List A → List A
  rows_where p [] = []
  rows_where p (x ∷ xs) = let rest = rows_where p xs in if p x then x ∷ rest else rest

  -- SELECT ... WHERE p LIMIT 1, and `Array.prototype.find`
  unfoldable pub first_where : (A → Bool) → List A → Option A
  first_where p [] = none
  first_where p (x ∷ xs) = let rest = first_where p xs in if p x then some x else rest

  -- UPDATE ... SET f WHERE p
  unfoldable pub update_where : (A → Bool) → (A → A) → List A → List A
  update_where p f [] = []
  update_where p f (x ∷ xs) = (if p x then f x else x) ∷ update_where p f xs

  -- DELETE ... WHERE p
  unfoldable pub delete_where : (A → Bool) → List A → List A
  delete_where p [] = []
  delete_where p (x ∷ xs) = let rest = delete_where p xs in if p x then rest else x ∷ rest

  -- SELECT COUNT(*) ... WHERE p
  unfoldable pub count_where : (A → Bool) → List A → ℕ
  count_where p [] = 0
  count_where p (x ∷ xs) = (if p x then 1 else 0) + count_where p xs

module _ {ℓ} {A : Type ℓ} (p : A → Bool) where
  pub count_where-append :
      (xs ys : List A) → count_where p (xs ++ ys) ≡ count_where p xs + count_where p ys
  unfolding count_where
  count_where-append [] ys = omega arith
  count_where-append (x ∷ xs) ys = omega (arith, count_where-append xs ys)

  -- An update that makes no row satisfy `p` anew does not raise the count.
  pub count_where-update :
      (q : A → Bool) (f : A → A)
      → ((a : A) → q a ≡ true → p (f a) ≡ true → p a ≡ true)
      → (xs : List A) → count_where p (update_where q f xs) ≤ count_where p xs
  unfolding count_where update_where
  count_where-update q f keep [] = omega arith
  count_where-update q f keep (x ∷ xs) = ground (arith, keep x, count_where-update q f keep xs)

  -- An update of every row that satisfies `p`, after which it does not, leaves none.
  pub count_where-clear :
      (q : A → Bool) (f : A → A)
      → ((a : A) → p a ≡ true → q a ≡ true)
      → ((a : A) → q a ≡ true → p (f a) ≡ false)
      → (xs : List A) → count_where p (update_where q f xs) ≡ 0
  unfolding count_where update_where
  count_where-clear q f hit clear [] = refl
  count_where-clear q f hit clear (x ∷ xs) =
      ground (arith, hit x, clear x, count_where-clear q f hit clear xs)

  pub first_where-eq-some : (xs : List A) {a : A} → first_where p xs ≡ some a → p a ≡ true
  unfolding first_where
  first_where-eq-some [] h = ground arith
  first_where-eq-some (x ∷ xs) {a} h = elim (Bool-cases (p x)) [
    | inl t ↦ let e : x ≡ a = ground arith in rw (← e) t
    | inr t ↦ first_where-eq-some xs (ground arith)
  ]

  pub first_where-eq-none : (xs : List A) → count_where p xs ≡ 0 → first_where p xs ≡ none
  unfolding first_where count_where
  first_where-eq-none [] h = refl
  first_where-eq-none (x ∷ xs) h = ground (arith, first_where-eq-none xs)

  pub All-update {κ} :
      (P : A → Type κ) (f : A → A)
      → ((a : A) → p a ≡ true → P a → P (f a))
      → (xs : List A) → All P xs
      → All P (update_where p f xs)
  unfolding update_where
  All-update P f keep [] h = tt
  All-update P f keep (x ∷ xs) (k, h) = elim (Bool-cases (p x)) [
    | inl e ↦ rw e (keep x e k, All-update P f keep xs h)
    | inr e ↦ rw e (k, All-update P f keep xs h)
  ]

  pub All-first_where {κ} :
      (P : A → Type κ) (xs : List A) {a : A} → first_where p xs ≡ some a → All P xs → P a
  unfolding first_where
  All-first_where P [] e h = elim (none-some e) [ ]
    where
      none-some : {a : A} → none ≡ some a → ⊥
      none-some e = cc
  All-first_where P (x ∷ xs) {a} e (k, h) = elim (Bool-cases (p x)) [
    | inl t ↦ let q : x ≡ a = ground arith in rw (← q) k
    | inr t ↦ All-first_where P xs (ground arith) h
  ]

  pub All-update_where {κ μ} :
      (P : A → Type κ) (Q : A → Type μ) (f : A → A)
      → ((a : A) → P a → Q (if p a then f a else a))
      → (xs : List A) → All P xs
      → All Q (update_where p f xs)
  unfolding update_where
  All-update_where P Q f keep [] h = tt
  All-update_where P Q f keep (x ∷ xs) (k, h) = (keep x k, All-update_where P Q f keep xs h)

  -- Fewer rows satisfy what implies another test.
  pub count_where_mono :
      (q : A → Bool) (xs : List A)
      → All (λ a. p a ≡ true → q a ≡ true) xs
      → count_where p xs ≤ count_where q xs
  unfolding count_where
  count_where_mono q [] h = omega arith
  count_where_mono q (x ∷ xs) (k, h) = ground (arith, count_where_mono q xs h)

pub All-always {ℓ κ} : {A : Type ℓ} (P : A → Type κ) (xs : List A) → ((a : A) → P a) → All P xs
All-always P [] h = tt
All-always P (x ∷ xs) h = (h x, All-always P xs h)

pub first_where-of_All {ℓ} :
    {A : Type ℓ} (p : A → Bool) (xs : List A) → All (λ a. p a ≡ false) xs → first_where p xs ≡ none
unfolding first_where
first_where-of_All p [] h = refl
first_where-of_All p (x ∷ xs) (k, h) = rw k (first_where-of_All p xs h)

pub All-rows_where {ℓ κ} :
    {A : Type ℓ} (p : A → Bool) (Q : A → Type κ)
    → ((a : A) → p a ≡ true → Q a)
    → (xs : List A) → All Q (rows_where p xs)
unfolding rows_where
All-rows_where p Q keep [] = tt
All-rows_where p Q keep (x ∷ xs) = elim (Bool-cases (p x)) [
  | inl e ↦ rw e (keep x e, All-rows_where p Q keep xs)
  | inr e ↦ rw e (All-rows_where p Q keep xs)
]
