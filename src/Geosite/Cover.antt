-- ===== src/Geosite/Cover.antt =====
-- What a list of domains matches, and that `unique` and `compile` keep it.
use outpost_vpn_server.Prelude.{
  ℕ, ◌≤◌, List, Bool, true, false, [], ◌∷◌, ◌++◌, ◌||◌, map, ◌≡◌, refl, ap, arith, any, count_where,
  Bool-cases, inl, inr, ==_refl,
}
use outpost_vpn_server.Geosite.Compile.{
  Matcher, domain, suffix, domain_keyword, domain_regex, GeoSiteDomain, text_eq, has_text,
  matcher_name, domain_key, unique_from, unique,
}

pub text_eq-eq : (xs ys : List ℕ) → text_eq xs ys ≡ true → xs ≡ ys
text_eq-eq [] [] e = refl
text_eq-eq [] (y ∷ ys) e = cc
text_eq-eq (x ∷ xs) [] e = cc
text_eq-eq (x ∷ xs) (y ∷ ys) e = ground (arith, text_eq-eq xs ys)

pub text_eq_refl : (xs : List ℕ) → text_eq xs xs ≡ true
text_eq_refl [] = refl
text_eq_refl (x ∷ xs) = rw (==_refl x) (text_eq_refl xs)

abbrev entry : Matcher → List ℕ → GeoSiteDomain
entry matcher value = record { matcher = matcher; value = value }

by_name :
    (ma mb : Matcher) (va vb : List ℕ)
    → text_eq (matcher_name ma ++ 0 ∷ va) (matcher_name mb ++ 0 ∷ vb) ≡ true
    → entry ma va ≡ entry mb vb
by_name domain domain va vb e = ap (λ (v : List ℕ). entry domain v) (text_eq-eq va vb e)
by_name domain suffix va vb e = cc
by_name domain domain_keyword va vb e = cc
by_name domain domain_regex va vb e = cc
by_name suffix domain va vb e = cc
by_name suffix suffix va vb e = ap (λ (v : List ℕ). entry suffix v) (text_eq-eq va vb e)
by_name suffix domain_keyword va vb e = cc
by_name suffix domain_regex va vb e = cc
by_name domain_keyword domain va vb e = cc
by_name domain_keyword suffix va vb e = cc
by_name domain_keyword domain_keyword va vb e =
    ap (λ (v : List ℕ). entry domain_keyword v) (text_eq-eq va vb e)
by_name domain_keyword domain_regex va vb e = cc
by_name domain_regex domain va vb e = cc
by_name domain_regex suffix va vb e = cc
by_name domain_regex domain_keyword va vb e = cc
by_name domain_regex domain_regex va vb e =
    ap (λ (v : List ℕ). entry domain_regex v) (text_eq-eq va vb e)

-- No two domains have the same key.
domain_key-eq : (a b : GeoSiteDomain) → text_eq (domain_key a) (domain_key b) ≡ true → a ≡ b
domain_key-eq a b e = by_name a.matcher b.matcher a.value b.value e

unique_from-seen :
    (seen : List (List ℕ)) (v : GeoSiteDomain) (vs : List GeoSiteDomain)
    → has_text (domain_key v) seen ≡ true
    → unique_from seen (v ∷ vs) ≡ unique_from seen vs
unfolding unique_from
unique_from-seen seen v vs h = rw (unique_from, h) refl

unique_from-new :
    (seen : List (List ℕ)) (v : GeoSiteDomain) (vs : List GeoSiteDomain)
    → has_text (domain_key v) seen ≡ false
    → unique_from seen (v ∷ vs) ≡ v ∷ unique_from (domain_key v ∷ seen) vs
unfolding unique_from
unique_from-new seen v vs h = rw (unique_from, h) refl

absorb : (k r a b : Bool) → (a ≡ true → k ≡ true) → (k || r) ≡ (k || b) → (k || r) ≡ (k || (a || b))
absorb true r a b h e = refl
absorb false r true b h e = absurd (ground (arith, h))
absorb false r false b h e = e

regroup : (k a r b : Bool) → ((a || k) || r) ≡ ((a || k) || b) → (k || (a || r)) ≡ (k || (a || b))
regroup true a r b e = refl
regroup false true r b e = refl
regroup false false r b e = e

module _ (p : GeoSiteDomain → Bool) where
  any-known :
      (v : GeoSiteDomain) (known : List GeoSiteDomain)
      → has_text (domain_key v) (map domain_key known) ≡ true
      → p v ≡ true
      → any p known ≡ true
  any-known v [] h hit = cc
  any-known v (k ∷ known) h hit = elim (Bool-cases (text_eq (domain_key v) (domain_key k))) [
    | inl same ↦ let e : v ≡ k = domain_key-eq v k same in rw (← e, hit) refl
    | inr other ↦ ground (arith, any-known v known)
  ]

  any-unique_from :
      (known vs : List GeoSiteDomain)
      → (any p known || any p (unique_from (map domain_key known) vs)) ≡ (any p known || any p vs)
  any-unique_from known [] = unfold unique_from in refl
  any-unique_from known (v ∷ vs) =
      elim (Bool-cases (has_text (domain_key v) (map domain_key known))) [
        | inl seen ↦ rw (unique_from-seen _ v vs seen) (
            absorb (any p known) (any p (unique_from (map domain_key known) vs)) (p v) (any p vs)
              (any-known v known seen) (any-unique_from known vs))
        | inr new ↦
            rw (unique_from-new _ v vs new)
              (regroup (any p known) (p v) _ (any p vs) (any-unique_from (v ∷ known) vs))
      ]

  -- Something in the list satisfies `p` if and only if something in `unique` does.
  pub any-unique : (vs : List GeoSiteDomain) → any p (unique vs) ≡ any p vs
  unfolding unique
  any-unique vs = any-unique_from [] vs

abbrev pub has_key : List ℕ → GeoSiteDomain → Bool
has_key key d = text_eq key (domain_key d)

count-seen :
    (key : List ℕ) (seen : List (List ℕ)) (vs : List GeoSiteDomain)
    → has_text key seen ≡ true
    → count_where (has_key key) (unique_from seen vs) ≡ 0
unfolding count_where
count-seen key seen [] h = unfold unique_from in refl
count-seen key seen (v ∷ vs) h = elim (Bool-cases (has_text (domain_key v) seen)) [
  | inl known ↦ rw (unique_from-seen seen v vs known) (count-seen key seen vs h)
  | inr new ↦
      rw (unique_from-new seen v vs new)
        (ground (arith, count-seen key (domain_key v ∷ seen) vs, clash))
]
  where
    clash : has_key key v ≡ true → has_text (domain_key v) seen ≡ true
    clash same = rw (← text_eq-eq key (domain_key v) same) h

count-unique_from :
    (key : List ℕ) (seen : List (List ℕ)) (vs : List GeoSiteDomain)
    → count_where (has_key key) (unique_from seen vs) ≤ 1
unfolding count_where
count-unique_from key seen [] = unfold unique_from in omega arith
count-unique_from key seen (v ∷ vs) = elim (Bool-cases (has_text (domain_key v) seen)) [
  | inl known ↦ rw (unique_from-seen seen v vs known) (count-unique_from key seen vs)
  | inr new ↦ rw (unique_from-new seen v vs new) (
      ground (
        arith,
        count-unique_from key (domain_key v ∷ seen) vs,
        count-seen key (domain_key v ∷ seen) vs,
      ))
]

-- `unique` keeps what the list contains, so that a test finds something in it exactly when it finds
-- something in the list, and it has no key twice.
pub unique_lem :
    (p : GeoSiteDomain → Bool) (key : List ℕ) (vs : List GeoSiteDomain)
    → (any p (unique vs) ≡ any p vs) × (count_where (has_key key) (unique vs) ≤ 1)
unique_lem p key vs = (any-unique p vs, unfold unique in count-unique_from key [] vs)
