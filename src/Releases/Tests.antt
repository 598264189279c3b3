-- ===== src/Releases/Tests.antt =====
-- The order of versions at concrete inputs.
use outpost_vpn_server.Prelude.{[], ◌∷◌, ◌≡◌, refl}
use outpost_vpn_server.Releases.{
  number, text, SemVer, less, compare_identifiers, compare_prereleases, compare_endings,
  compare_versions,
}
use outpost_vpn_server.Releases.Order.{opposite, compare_versions-opposite, compare_versions-same}

-- 0.2.0-beta.9, 0.2.0-beta.12 and 0.2.0
abbrev beta_nine : SemVer
beta_nine = record {
  major = 0;
  minor = 2;
  patch = 0;
  prerelease = text (98 ∷ 101 ∷ 116 ∷ 97 ∷ []) ∷ number 9 ∷ [];
}

abbrev beta_twelve : SemVer
beta_twelve = record beta_nine { prerelease = text (98 ∷ 101 ∷ 116 ∷ 97 ∷ []) ∷ number 12 ∷ [] }

abbrev final_version : SemVer
final_version = record beta_nine { prerelease = [] }

betas_ordered :
    (compare_versions beta_nine beta_twelve ≡ less)
    × (compare_versions beta_twelve final_version ≡ less)
unfolding compare_versions compare_endings compare_prereleases compare_identifiers
betas_ordered = (refl, refl)

compare_versions-opposite_example :
    compare_versions beta_nine beta_twelve ≡ opposite (compare_versions beta_twelve beta_nine)
compare_versions-opposite_example = compare_versions-opposite beta_nine beta_twelve

-- 0.2.0-beta.9, read again
abbrev beta_again : SemVer
beta_again = record final_version { prerelease = text (98 ∷ 101 ∷ 116 ∷ 97 ∷ []) ∷ number 9 ∷ [] }

compare_versions-same_example : beta_nine ≡ beta_again
compare_versions-same_example = compare_versions-same beta_nine beta_again (
    unfold compare_versions in
    unfold compare_endings in unfold compare_prereleases in unfold compare_identifiers in refl)
