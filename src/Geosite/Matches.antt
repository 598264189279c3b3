-- ===== src/Geosite/Matches.antt =====
-- The hosts that a list of domains matches, and that `compile` of src/server/adapters/geosite.ts keeps
-- them.
use outpost_vpn_server.Prelude.{
  ℕ, List, Bool, true, false, [], ◌∷◌, ◌&&◌, ◌||◌, not, ◌≡◌, ◌⊎◌, refl, ◌∙◌, sym, arith, any,
  rows_where, Bool-cases, inl, inr,
}
use outpost_vpn_server.Geosite.Compile.{
  Matcher, domain, suffix, domain_keyword, domain_regex, GeoSiteDomain, text_eq, has_text, unique,
  is_domain, is_suffix, strip_dot, suffixes_of, is_kept, compile,
}
use outpost_vpn_server.Geosite.Cover.{any-unique, text_eq-eq}

abbrev pub ends_with : List ℕ → List ℕ → Bool
ends_with end [] = text_eq end []
ends_with end (c ∷ cs) = text_eq end (c ∷ cs) || ends_with end cs

-- The host is the domain or below it.
abbrev pub is_within : List ℕ → List ℕ → Bool
is_within host name = text_eq host name || ends_with (46 ∷ name) host

any-rows_where :
    (m k : GeoSiteDomain → Bool) (x : GeoSiteDomain) (xs : List GeoSiteDomain)
    → any m (rows_where k (x ∷ xs)) ≡ ((k x && m x) || any m (rows_where k xs))
unfolding rows_where
any-rows_where m k x xs = elim (Bool-cases (k x)) [
  | inl kept ↦ rw kept refl
  | inr dropped ↦ rw dropped refl
]

rows_where-any :
    (m k : GeoSiteDomain → Bool) (xs : List GeoSiteDomain)
    → any m (rows_where k xs) ≡ true
    → any m xs ≡ true
rows_where-any m k [] h = unfold rows_where in cc
rows_where-any m k (x ∷ xs) h =
    ground (arith, rw (any-rows_where m k x xs) at h, rows_where-any m k xs)

has_suffix-cons :
    (host : List ℕ) (x : GeoSiteDomain) (xs : List GeoSiteDomain)
    → has_text host (suffixes_of (x ∷ xs)) ≡ (
        (is_suffix x.matcher && text_eq host (strip_dot x.value)) || has_text host (suffixes_of xs))
unfolding rows_where
has_suffix-cons host x xs = elim (Bool-cases (is_suffix x.matcher)) [
  | inl is ↦ rw is refl
  | inr is_not ↦ rw is_not refl
]

suffix_is_kept :
    (ss : List (List ℕ)) (x : GeoSiteDomain) → is_suffix x.matcher ≡ true → is_kept ss x ≡ true
suffix_is_kept ss x h = by_matcher x.matcher h
  where
    by_matcher :
        (m : Matcher) → is_suffix m ≡ true → (not (is_domain m) || not (has_text x.value ss)) ≡ true
    by_matcher domain e = cc
    by_matcher suffix e = refl
    by_matcher domain_keyword e = cc
    by_matcher domain_regex e = cc

or_true : (b : Bool) → (b || true) ≡ true
or_true true = refl
or_true false = refl

module _ (keyword regex : List ℕ → List ℕ → Bool) (host : List ℕ) where
  -- What a client does with a rule: `DOMAIN` is the host itself, `SUFFIX` (its dot is taken off when
  -- it is written) the host or a domain above it.
  abbrev matches_by : Matcher → List ℕ → Bool
  matches_by domain value = text_eq host value
  matches_by suffix value = is_within host (strip_dot value)
  matches_by domain_keyword value = keyword value host
  matches_by domain_regex value = regex value host

  abbrev pub matches : GeoSiteDomain → Bool
  matches d = matches_by d.matcher d.value

  suffix_matches :
      (x : GeoSiteDomain)
      → is_suffix x.matcher ≡ true
      → text_eq host (strip_dot x.value) ≡ true
      → matches x ≡ true
  suffix_matches x h e = by_matcher x.matcher h
    where
      by_matcher : (m : Matcher) → is_suffix m ≡ true → matches_by m x.value ≡ true
      by_matcher domain h = cc
      by_matcher suffix h = rw e refl
      by_matcher domain_keyword h = cc
      by_matcher domain_regex h = cc

  -- A domain that is dropped has its value among the suffixes.
  dropped_has_suffix :
      (ss : List (List ℕ)) (x : GeoSiteDomain)
      → is_kept ss x ≡ false
      → matches x ≡ true
      → has_text host ss ≡ true
  dropped_has_suffix ss x h hit = by_matcher x.matcher h hit
    where
      by_matcher :
          (m : Matcher)
          → (not (is_domain m) || not (has_text x.value ss)) ≡ false
          → matches_by m x.value ≡ true
          → has_text host ss ≡ true
      by_matcher domain h hit =
          let same : host ≡ x.value = text_eq-eq host x.value hit in rw same (ground arith)
      by_matcher suffix h hit = cc
      by_matcher domain_keyword h hit = cc
      by_matcher domain_regex h hit = cc

  suffix_survives :
      (ss : List (List ℕ)) (xs : List GeoSiteDomain)
      → has_text host (suffixes_of xs) ≡ true
      → any matches (rows_where (is_kept ss) xs) ≡ true
  suffix_survives ss [] h = unfold rows_where in cc
  suffix_survives ss (x ∷ xs) h =
      let here = suffix_matches x in
      let kept = suffix_is_kept ss x in
      let later = suffix_survives ss xs in
      let split = rw (has_suffix-cons host x xs) at h in
      rw (any-rows_where matches (is_kept ss) x xs) (ground arith)

  match_survives :
      (ss : List (List ℕ)) (xs : List GeoSiteDomain)
      → any matches xs ≡ true
      → (any matches (rows_where (is_kept ss) xs) ≡ true) ⊎ (has_text host ss ≡ true)
  match_survives ss [] h = cc
  match_survives ss (x ∷ xs) h =
      let step = any-rows_where matches (is_kept ss) x xs in
      elim (Bool-cases (matches x)) [
        | inl hit ↦ elim (Bool-cases (is_kept ss x)) [
          | inl kept ↦ inl (rw (step, kept, hit) refl)
          | inr dropped ↦ inr (dropped_has_suffix ss x dropped hit)
        ]
        | inr miss ↦ elim (match_survives ss xs (rw miss at h)) [
          | inl later ↦ inl (rw (step, later) (or_true (is_kept ss x && matches x)))
          | inr covered ↦ inr covered
        ]
      ]

  compile_keeps :
      (vs : List GeoSiteDomain) → any matches (unique vs) ≡ true → any matches (compile vs) ≡ true
  unfolding compile
  compile_keeps vs h = elim (match_survives (suffixes_of (unique vs)) (unique vs) h) [
    | inl found ↦ found
    | inr covered ↦ suffix_survives (suffixes_of (unique vs)) (unique vs) covered
  ]

  -- `compile` changes the list of a category but not what it matches: a client that takes `DOMAIN` for
  -- the host itself, `SUFFIX` for the host and all below it, and keywords and expressions in any fixed
  -- way, matches the same hosts by the compiled list as by the list it was made of.
  pub matches-compile : (vs : List GeoSiteDomain) → any matches (compile vs) ≡ any matches vs
  matches-compile vs = elim (Bool-cases (any matches (compile vs))) [
    | inl found ↦
        let whole : any matches (unique vs) ≡ true =
          rows_where-any matches (is_kept (suffixes_of (unique vs))) (unique vs)
            (unfold compile in found) in
        rw found (sym whole ∙ any-unique matches vs)
    | inr missed ↦ elim (Bool-cases (any matches vs)) [
      | inl hit ↦ let kept = compile_keeps vs (any-unique matches vs ∙ hit) in cc
      | inr miss ↦ rw (missed, miss) refl
    ]
  ]
