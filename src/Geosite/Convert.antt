-- ===== src/Geosite/Convert.antt =====
-- `convertDomain` of src/server/adapters/geosite.ts keeps what a type of domain means.
use outpost_vpn_server.Prelude.{
  ℕ, zero, suc, ◌≤◌, contains, List, Bool, true, false, [], ◌∷◌, ◌||◌, ◌≡◌, refl, arith, any,
  Bool-cases, inl, inr, some,
}
use outpost_vpn_server.Geosite.Compile.{
  domain, domain_keyword, domain_regex, GeoSiteDomain, text_eq, trim, is_bad_value, convert_domain,
  root_domain, entries_of,
}
use outpost_vpn_server.Geosite.Message.{ParsedDomain}
use outpost_vpn_server.Geosite.Matches.{ends_with, is_within, matches}

or_false : (b : Bool) → (b || false) ≡ b
or_false true = refl
or_false false = refl

again : (a b : Bool) → (a || ((a || b) || false)) ≡ (a || b)
again true b = refl
again false b = or_false b

-- What a type of the database means: 0 a keyword, 1 an expression, 2 a domain with all below it, 3 the
-- host itself.
abbrev pub type_matches :
    (List ℕ → List ℕ → Bool) → (List ℕ → List ℕ → Bool) → List ℕ → ℕ → List ℕ → Bool
type_matches keyword regex host zero value = keyword value host
type_matches keyword regex host (suc zero) value = regex value host
type_matches keyword regex host (suc (suc zero)) value = is_within host value
type_matches keyword regex host _ value = text_eq host value

module _ (keyword regex : List ℕ → List ℕ → Bool) (host : List ℕ) where
  root_domain-matches :
      (value : List ℕ) → any (matches keyword regex host) (root_domain value) ≡ is_within host value
  root_domain-matches value = elim (Bool-cases (contains 46 value)) [
    | inl dotted ↦ rw dotted (again (text_eq host value) (ends_with (46 ∷ value) host))
    | inr plain ↦ rw plain (or_false (is_within host value))
  ]

  entries_of-matches :
      (type : ℕ) (value : List ℕ) (entries : List GeoSiteDomain)
      → entries_of type value ≡ some entries
      → (any (matches keyword regex host) entries ≡ type_matches keyword regex host type value)
        × (type ≤ 3)
  entries_of-matches zero value entries e =
      let same : record { matcher = domain_keyword; value = value } ∷ [] ≡ entries = cc in
      (rw (← same) (or_false _), omega arith)
  entries_of-matches (suc zero) value entries e =
      let same : record { matcher = domain_regex; value = value } ∷ [] ≡ entries = cc in
      (rw (← same) (or_false _), omega arith)
  entries_of-matches (suc (suc zero)) value entries e =
      let same : root_domain value ≡ entries = cc in
      (rw (← same) (root_domain-matches value), omega arith)
  entries_of-matches (suc (suc (suc zero))) value entries e =
      let same : record { matcher = domain; value = value } ∷ [] ≡ entries = cc in
      (rw (← same) (or_false _), omega arith)
  entries_of-matches (suc (suc (suc (suc type)))) value entries e = absurd (ground arith)

  -- What `convertDomain` makes of a domain matches what the type of the domain means for its trimmed
  -- value; an unknown type, and a value that is empty or holds a line break or a zero, are refused.
  pub convert_domain_lem :
      (d : ParsedDomain) (entries : List GeoSiteDomain)
      → convert_domain d ≡ some entries
      → (any (matches keyword regex host) entries
          ≡ type_matches keyword regex host d.type (trim d.value))
        × (d.type ≤ 3)
        × (is_bad_value (trim d.value) ≡ false)
  unfolding convert_domain
  convert_domain_lem d entries e = elim (Bool-cases (is_bad_value (trim d.value))) [
    | inl bad ↦ absurd (ground (arith, rw bad at e))
    | inr good ↦
        let (same, known) = entries_of-matches d.type (trim d.value) entries (rw good at e) in
        (same, known, good)
  ]
