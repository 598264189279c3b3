-- ===== src/Releases.antt =====
-- `compareVersions` of src/server/releases.ts, on versions that `parseVersion` has read.
pub mod Order
mod Tests
use outpost_vpn_server.Prelude.{
  ℕ, List, Bool, true, false, [], ◌∷◌, ◌==◌, ◌&&◌, ◌||◌, if◌then◌else◌, ltb,
}
use outpost_vpn_server.Geosite.Compile.{text_eq}

-- `number | string`; a string is the list of its code units.
pub data Identifier : Type 0 where
  number : ℕ → Identifier
  text : List ℕ → Identifier

pub record SemVer : Type 0 where
  pub major : ℕ
  pub minor : ℕ
  pub patch : ℕ
  pub prerelease : List Identifier

-- The results -1, 0 and 1.
pub data Comparison : Type 0 where
  less same greater : Comparison

-- `first > second` on strings
abbrev pub text_above : List ℕ → List ℕ → Bool
text_above [] ys = false
text_above (x ∷ xs) [] = true
text_above (x ∷ xs) (y ∷ ys) = ltb y x || (x == y && text_above xs ys)

abbrev pub by_test : Bool → Comparison
by_test above = if above then greater else less

-- Two identifiers, neither of them undefined; `same` goes on with the next pair.
unfoldable pub compare_identifiers : Identifier → Identifier → Comparison
compare_identifiers (number m) (number n) = if m == n then same else by_test (ltb n m)
compare_identifiers (number m) (text t) = less
compare_identifiers (text s) (number n) = greater
compare_identifiers (text s) (text t) = if text_eq s t then same else by_test (text_above s t)

abbrev pub or_next : Comparison → Comparison → Comparison
or_next less next = less
or_next same next = next
or_next greater next = greater

-- The loop over the identifiers; `undefined` stands past the end of the shorter list.
unfoldable pub compare_prereleases : List Identifier → List Identifier → Comparison
compare_prereleases [] [] = same
compare_prereleases [] (y ∷ ys) = less
compare_prereleases (x ∷ xs) [] = greater
compare_prereleases (x ∷ xs) (y ∷ ys) =
    or_next (compare_identifiers x y) (compare_prereleases xs ys)

-- A version without identifiers is above one with them.
unfoldable pub compare_endings : List Identifier → List Identifier → Comparison
compare_endings [] [] = same
compare_endings [] (y ∷ ys) = greater
compare_endings (x ∷ xs) [] = less
compare_endings (x ∷ xs) (y ∷ ys) = compare_prereleases (x ∷ xs) (y ∷ ys)

-- `if (a[field] !== b[field]) return a[field] > b[field] ? 1 : -1`
abbrev pub compare_field : ℕ → ℕ → Comparison
compare_field a b = if a == b then same else by_test (ltb b a)

unfoldable pub compare_versions : SemVer → SemVer → Comparison
compare_versions a b = or_next (compare_field a.major b.major) (
    or_next (compare_field a.minor b.minor)
      (or_next (compare_field a.patch b.patch) (compare_endings a.prerelease b.prerelease)))

unfoldable pub is_prerelease : SemVer → Bool
is_prerelease a = has_some a.prerelease
  where
    has_some : List Identifier → Bool
    has_some [] = false
    has_some (x ∷ xs) = true
