-- ===== src/Releases/Order.antt =====
-- The comparison of versions, in src/server/releases.ts, is the same from both sides and tells different
-- versions apart.
use outpost_vpn_server.Prelude.{
  ℕ, List, Bool, true, false, [], ◌∷◌, ◌==◌, ltb, ◌≡◌, refl, ap, ◌∙◌, sym, arith, Bool-cases, inl,
  inr, ==_iff,
}
use outpost_vpn_server.Geosite.Compile.{text_eq}
use outpost_vpn_server.Geosite.Cover.{text_eq-eq}
use outpost_vpn_server.Releases.{
  Identifier, number, text, SemVer, Comparison, less, same, greater, text_above, by_test,
  compare_identifiers, or_next, compare_prereleases, compare_endings, compare_field,
  compare_versions,
}

abbrev pub opposite : Comparison → Comparison
opposite less = greater
opposite same = same
opposite greater = less

opposite-or_next : (a b : Comparison) → or_next (opposite a) (opposite b) ≡ opposite (or_next a b)
opposite-or_next less b = refl
opposite-or_next same b = refl
opposite-or_next greater b = refl

compare_field-opposite : (a b : ℕ) → compare_field a b ≡ opposite (compare_field b a)
compare_field-opposite a b = ground arith

text_eq_sym : (s t : List ℕ) → text_eq s t ≡ text_eq t s
text_eq_sym [] [] = refl
text_eq_sym [] (y ∷ ys) = refl
text_eq_sym (x ∷ xs) [] = refl
text_eq_sym (x ∷ xs) (y ∷ ys) = ground (arith, text_eq_sym xs ys)

-- Of two different texts exactly one is above the other.
text_above-opposite :
    (s t : List ℕ)
    → text_eq s t ≡ false
    → by_test (text_above s t) ≡ opposite (by_test (text_above t s))
text_above-opposite [] [] h = cc
text_above-opposite [] (y ∷ ys) h = refl
text_above-opposite (x ∷ xs) [] h = refl
text_above-opposite (x ∷ xs) (y ∷ ys) h = ground (arith, text_above-opposite xs ys)

compare_identifiers-opposite :
    (x y : Identifier) → compare_identifiers x y ≡ opposite (compare_identifiers y x)
unfolding compare_identifiers
compare_identifiers-opposite (number m) (number n) = compare_field-opposite m n
compare_identifiers-opposite (number m) (text t) = refl
compare_identifiers-opposite (text s) (number n) = refl
compare_identifiers-opposite (text s) (text t) = elim (Bool-cases (text_eq s t)) [
  | inl e ↦ rw (e, sym (text_eq_sym s t) ∙ e) refl
  | inr e ↦ rw (e, sym (text_eq_sym s t) ∙ e) (text_above-opposite s t e)
]

compare_prereleases-opposite :
    (xs ys : List Identifier) → compare_prereleases xs ys ≡ opposite (compare_prereleases ys xs)
unfolding compare_prereleases
compare_prereleases-opposite [] [] = refl
compare_prereleases-opposite [] (y ∷ ys) = refl
compare_prereleases-opposite (x ∷ xs) [] = refl
compare_prereleases-opposite (x ∷ xs) (y ∷ ys) =
    rw (compare_identifiers-opposite x y, compare_prereleases-opposite xs ys)
      (opposite-or_next (compare_identifiers y x) (compare_prereleases ys xs))

compare_endings-opposite :
    (xs ys : List Identifier) → compare_endings xs ys ≡ opposite (compare_endings ys xs)
unfolding compare_endings
compare_endings-opposite [] [] = refl
compare_endings-opposite [] (y ∷ ys) = refl
compare_endings-opposite (x ∷ xs) [] = refl
compare_endings-opposite (x ∷ xs) (y ∷ ys) = compare_prereleases-opposite (x ∷ xs) (y ∷ ys)

-- Comparing two versions the other way round gives the opposite result.
pub compare_versions-opposite :
    (a b : SemVer) → compare_versions a b ≡ opposite (compare_versions b a)
unfolding compare_versions
compare_versions-opposite a b =
    rw
      (
        compare_field-opposite a.major b.major,
        compare_field-opposite a.minor b.minor,
        compare_field-opposite a.patch b.patch,
        compare_endings-opposite a.prerelease b.prerelease,
      )
      (chain (compare_field b.major a.major) (compare_field b.minor a.minor)
        (compare_field b.patch a.patch) (compare_endings b.prerelease a.prerelease))
  where
    chain :
        (w x y z : Comparison)
        → or_next (opposite w) (or_next (opposite x) (or_next (opposite y) (opposite z)))
          ≡ opposite (or_next w (or_next x (or_next y z)))
    chain w x y z =
        rw
          (
            opposite-or_next y z,
            opposite-or_next x (or_next y z),
            opposite-or_next w (or_next x (or_next y z)),
          )
          refl

or_next-same : (a b : Comparison) → or_next a b ≡ same → (a ≡ same) × (b ≡ same)
or_next-same less b e = cc
or_next-same same b e = (refl, e)
or_next-same greater b e = cc

by_test_differs : (b : Bool) → by_test b ≡ same → ⊥
by_test_differs true e = cc
by_test_differs false e = cc

compare_field-same : (a b : ℕ) → compare_field a b ≡ same → a ≡ b
compare_field-same a b e = elim (Bool-cases (a == b)) [
  | inl equal ↦ (==_iff a b).0 equal
  | inr other ↦ absurd (by_test_differs (ltb b a) (rw other at e))
]

compare_identifiers-same : (x y : Identifier) → compare_identifiers x y ≡ same → x ≡ y
unfolding compare_identifiers
compare_identifiers-same (number m) (number n) e = ap number (compare_field-same m n e)
compare_identifiers-same (number m) (text t) e = cc
compare_identifiers-same (text s) (number n) e = cc
compare_identifiers-same (text s) (text t) e = elim (Bool-cases (text_eq s t)) [
  | inl equal ↦ ap text (text_eq-eq s t equal)
  | inr other ↦ absurd (by_test_differs (text_above s t) (rw other at e))
]

compare_prereleases-same : (xs ys : List Identifier) → compare_prereleases xs ys ≡ same → xs ≡ ys
unfolding compare_prereleases
compare_prereleases-same [] [] e = refl
compare_prereleases-same [] (y ∷ ys) e = cc
compare_prereleases-same (x ∷ xs) [] e = cc
compare_prereleases-same (x ∷ xs) (y ∷ ys) e =
    let (first, rest) = or_next-same (compare_identifiers x y) (compare_prereleases xs ys) e in
    let head : x ≡ y = compare_identifiers-same x y first in
    let tail : xs ≡ ys = compare_prereleases-same xs ys rest in rw (head, tail) refl

compare_endings-same : (xs ys : List Identifier) → compare_endings xs ys ≡ same → xs ≡ ys
unfolding compare_endings
compare_endings-same [] [] e = refl
compare_endings-same [] (y ∷ ys) e = cc
compare_endings-same (x ∷ xs) [] e = cc
compare_endings-same (x ∷ xs) (y ∷ ys) e = compare_prereleases-same (x ∷ xs) (y ∷ ys) e

abbrev version : ℕ → ℕ → ℕ → List Identifier → SemVer
version major minor patch prerelease = record {
  major = major;
  minor = minor;
  patch = patch;
  prerelease = prerelease;
}

-- Versions that compare as equal (the result 0) are equal, field by field.
pub compare_versions-same : (a b : SemVer) → compare_versions a b ≡ same → a ≡ b
unfolding compare_versions
compare_versions-same a b e =
    let (major, rest) = or_next-same (compare_field a.major b.major) _ e in
    let (minor, rest') = or_next-same (compare_field a.minor b.minor) _ rest in
    let (patch, ending) = or_next-same (compare_field a.patch b.patch) _ rest' in
    equal_fields (compare_field-same a.major b.major major)
      (compare_field-same a.minor b.minor minor) (compare_field-same a.patch b.patch patch)
      (compare_endings-same a.prerelease b.prerelease ending)
  where
    equal_fields :
        {j k m n p q : ℕ} {xs ys : List Identifier}
        → j ≡ k
        → m ≡ n
        → p ≡ q
        → xs ≡ ys
        → version j m p xs ≡ version k n q ys
    equal_fields f g h i = rw (f, g, h, i) refl
