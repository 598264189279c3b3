-- ===== src/Routes/Values.antt =====
-- The values of rules in src/server/services/routes.ts: `normalizeValue`, `validateValue`, `identity` and
-- `assertUnique`.
use outpost_vpn_server.Prelude.{
  ℕ, ◌+◌, ◌*◌, ◌-◌, List, Bool, true, false, [], ◌∷◌, ◌++◌, ◌==◌, ◌&&◌, ◌||◌, not, leb,
  if◌then◌else◌, any, contains, length,
}
use outpost_vpn_server.Db.{service, Result, ok, ◌>>=◌, ◌>>◌, guard}
use outpost_vpn_server.Geosite.Compile.{text_eq, trim, strip_dot}
use outpost_vpn_server.Routes.{
  RouteMatcher, domain_rule, suffix_rule, ip_cidr, RouteRule, same_matcher,
}

-- `toLowerCase`, the class \p{L}, and `isIP` of node:net (4, 6, or 0).
pub record TextTools : Type 0 where
  pub lower : List ℕ → List ℕ
  pub is_letter : ℕ → Bool
  pub is_ip : List ℕ → ℕ

abbrev pub star : List ℕ
star = 42 ∷ []

abbrev pub is_digit : ℕ → Bool
is_digit c = leb 48 c && leb c 57

-- `split`
unfoldable pub split_at : ℕ → List ℕ → List (List ℕ)
split_at sep [] = [] ∷ []
split_at sep (c ∷ cs) = let rest = split_at sep cs in if c == sep then [] ∷ rest else onto c rest
  where
    onto : ℕ → List (List ℕ) → List (List ℕ)
    onto c [] = (c ∷ []) ∷ []
    onto c (word ∷ words) = (c ∷ word) ∷ words

abbrev pub all : (ℕ → Bool) → List ℕ → Bool
all p [] = true
all p (c ∷ cs) = p c && all p cs

abbrev pub ends : (ℕ → Bool) → List ℕ → Bool
ends p [] = false
ends p (c ∷ []) = p c
ends p (c ∷ d ∷ ds) = ends p (d ∷ ds)

abbrev pub starts : (ℕ → Bool) → List ℕ → Bool
starts p [] = false
starts p (c ∷ cs) = p c

abbrev pub every_label : (List ℕ → Bool) → List (List ℕ) → Bool
every_label p [] = true
every_label p (w ∷ ws) = p w && every_label p ws

abbrev pub two_labels : List (List ℕ) → Bool
two_labels (a ∷ b ∷ rest) = true
two_labels _ = false

-- One to three digits.
abbrev pub is_short_number : List ℕ → Bool
is_short_number text = leb 1 (length text) && leb (length text) 3 && all is_digit text

-- `Number` of digits
unfoldable pub number_from : ℕ → List ℕ → ℕ
number_from n [] = n
number_from n (c ∷ cs) = number_from (n * 10 + (c - 48)) cs

-- `[a-z0-9_@.!+-]{1,80}`
abbrev pub is_code_char : ℕ → Bool
is_code_char c =
    (leb 97 c && leb c 122) || is_digit c || contains c (95 ∷ 64 ∷ 46 ∷ 33 ∷ 43 ∷ 45 ∷ [])

module _ (tools : TextTools) where
  abbrev pub drop_dot : RouteMatcher → List ℕ → List ℕ
  drop_dot suffix_rule value = if text_eq value star then value else strip_dot value
  drop_dot _ value = value

  unfoldable pub normalize_value : RouteMatcher → List ℕ → List ℕ
  normalize_value matcher raw = tools.lower (drop_dot matcher (trim raw))

  abbrev label_char : ℕ → Bool
  label_char c = tools.is_letter c || is_digit c

  -- `dnsLabel`
  abbrev pub is_label : List ℕ → Bool
  is_label w =
      leb (length w) 63
      && starts label_char w
      && ends label_char w
      && all (λ c. label_char c || c == 45) w

  -- `domainPattern` and `suffixPattern`
  abbrev pub is_suffix_name : List ℕ → Bool
  is_suffix_name value = every_label is_label (split_at 46 value)

  abbrev pub is_domain_name : List ℕ → Bool
  is_domain_name value = is_suffix_name value && two_labels (split_at 46 value)

  abbrev pub widest : ℕ → ℕ
  widest family = if family == 4 then 32 else 128

  -- The parts of `value.split("/")`: an address and a prefix length, and no more.
  abbrev pub is_network : List (List ℕ) → Bool
  is_network (address ∷ prefix ∷ []) =
      not (tools.is_ip address == 0)
      && is_short_number prefix
      && leb (number_from 0 prefix) (widest (tools.is_ip address))
  is_network _ = false

  -- "/32" or "/128" after a single address
  abbrev pub with_prefix : List ℕ → ℕ → List ℕ
  with_prefix value family =
      if family == 4 then value ++ 47 ∷ 51 ∷ 50 ∷ [] else value ++ 47 ∷ 49 ∷ 50 ∷ 56 ∷ []

  unfoldable pub validate_value : RouteMatcher → List ℕ → Result (List ℕ)
  validate_value ip_cidr raw =
      let value = normalize_value ip_cidr raw in
      if not (tools.is_ip value == 0)
      then ok (with_prefix value (tools.is_ip value))
      else (guard (is_network (split_at 47 value)) (service 400) >>= λ _. ok value)
  validate_value domain_rule raw =
      let value = normalize_value domain_rule raw in
      guard (is_domain_name value) (service 400) >>= λ _. ok value
  validate_value suffix_rule raw =
      let value = normalize_value suffix_rule raw in
      guard (text_eq value star || is_suffix_name value) (service 400) >>= λ _. ok value
  validate_value matcher raw =
      let value = normalize_value matcher raw in
      guard (all is_code_char value && leb 1 (length value) && leb (length value) 80) (service 400)
      >>= λ _. ok value

  -- `identity`: the matcher and the normal value, which no zero separates otherwise
  abbrev pub same_identity : RouteRule → RouteRule → Bool
  same_identity a b =
      same_matcher a.matcher b.matcher
      && text_eq (normalize_value a.matcher a.value) (normalize_value b.matcher b.value)

  -- `assertUnique`, with the rules whose identities it has seen
  unfoldable pub assert_unique : List RouteRule → List RouteRule → Result (Unit {0})
  assert_unique seen [] = ok tt
  assert_unique seen (r ∷ rs) = do
    guard (not (any (λ s. same_identity s r) seen)) (service 409)
    assert_unique (r ∷ seen) rs

  -- rules.forEach((rule) => this.validateValue(rule.matcher, rule.value))
  unfoldable pub validate_all : List RouteRule → Result (Unit {0})
  validate_all [] = ok tt
  validate_all (r ∷ rs) = do value ← validate_value r.matcher r.value; validate_all rs
