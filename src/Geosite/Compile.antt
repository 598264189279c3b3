-- ===== src/Geosite/Compile.antt =====
-- The domains of a category, in src/server/adapters/geosite.ts: `convertDomain`, `unique`, `compile` and
-- `domainKey`. A text is the list of its code points; `none` is an exception.
use outpost_vpn_server.Prelude.{
  ℕ, Option, none, some, List, Bool, true, false, [], ◌∷◌, ◌++◌, ◌==◌, ◌&&◌, ◌||◌, not, map, leb,
  if◌then◌else◌, any, contains, rows_where,
}
use outpost_vpn_server.Geosite.Message.{ParsedDomain}

pub data Matcher : Type 0 where
  domain suffix domain_keyword domain_regex : Matcher

pub record GeoSiteDomain : Type 0 where
  pub matcher : Matcher
  pub value : List ℕ

abbrev pub text_eq : List ℕ → List ℕ → Bool
text_eq [] [] = true
text_eq [] (y ∷ ys) = false
text_eq (x ∷ xs) [] = false
text_eq (x ∷ xs) (y ∷ ys) = x == y && text_eq xs ys

-- `Set.has`
abbrev pub has_text : List ℕ → List (List ℕ) → Bool
has_text x [] = false
has_text x (y ∷ ys) = text_eq x y || has_text x ys

-- The white space that `trim` takes off.
abbrev pub is_space : ℕ → Bool
is_space c =
    (leb 9 c && leb c 13)
    || contains c (32 ∷ 160 ∷ 5760 ∷ 8232 ∷ 8233 ∷ 8239 ∷ 8287 ∷ 12288 ∷ 65279 ∷ [])
    || (leb 8192 c && leb c 8202)

abbrev pub trim_start : List ℕ → List ℕ
trim_start [] = []
trim_start (c ∷ cs) = let rest = trim_start cs in if is_space c then rest else c ∷ cs

abbrev pub trim_end : List ℕ → List ℕ
trim_end [] = []
trim_end (c ∷ cs) = end_of c (trim_end cs)
  where
    end_of : ℕ → List ℕ → List ℕ
    end_of c [] = if is_space c then [] else c ∷ []
    end_of c (d ∷ ds) = c ∷ d ∷ ds

unfoldable pub trim : List ℕ → List ℕ
trim text = trim_end (trim_start text)

-- `!value || /[\0\r\n]/.test(value)`
abbrev pub is_bad_value : List ℕ → Bool
is_bad_value [] = true
is_bad_value (c ∷ cs) = any (λ x. x == 0 || x == 13 || x == 10) (c ∷ cs)

abbrev pub with_dot : List ℕ → List ℕ
with_dot value = 46 ∷ value

abbrev pub root_domain : List ℕ → List GeoSiteDomain
root_domain value =
    let suffix_entry : GeoSiteDomain = record { matcher = suffix; value = with_dot value } in
    if contains 46 value
    then record { matcher = domain; value = value } ∷ suffix_entry ∷ []
    else suffix_entry ∷ []

-- The tests of the type.
abbrev pub entries_of : ℕ → List ℕ → Option (List GeoSiteDomain)
entries_of type value =
    if type == 0
    then some (record { matcher = domain_keyword; value = value } ∷ [])
    else if type == 1
    then some (record { matcher = domain_regex; value = value } ∷ [])
    else if type == 2
    then some (root_domain value)
    else if type == 3
    then some (record { matcher = domain; value = value } ∷ [])
    else none

unfoldable pub convert_domain : ParsedDomain → Option (List GeoSiteDomain)
convert_domain d =
    let value = trim d.value in if is_bad_value value then none else entries_of d.type value

-- `DOMAIN`, `SUFFIX`, `DOMAIN_KEYWORD`, `DOMAIN_REGEX`
abbrev pub matcher_name : Matcher → List ℕ
matcher_name domain = 68 ∷ 79 ∷ 77 ∷ 65 ∷ 73 ∷ 78 ∷ []
matcher_name suffix = 83 ∷ 85 ∷ 70 ∷ 70 ∷ 73 ∷ 88 ∷ []
matcher_name domain_keyword =
    68 ∷ 79 ∷ 77 ∷ 65 ∷ 73 ∷ 78 ∷ 95 ∷ 75 ∷ 69 ∷ 89 ∷ 87 ∷ 79 ∷ 82 ∷ 68 ∷ []
matcher_name domain_regex = 68 ∷ 79 ∷ 77 ∷ 65 ∷ 73 ∷ 78 ∷ 95 ∷ 82 ∷ 69 ∷ 71 ∷ 69 ∷ 88 ∷ []

abbrev pub domain_key : GeoSiteDomain → List ℕ
domain_key d = matcher_name d.matcher ++ 0 ∷ d.value

unfoldable pub unique_from : List (List ℕ) → List GeoSiteDomain → List GeoSiteDomain
unique_from seen [] = []
unique_from seen (v ∷ vs) = elim (has_text (domain_key v) seen) [
  | true ↦ unique_from seen vs
  | false ↦ v ∷ unique_from (domain_key v ∷ seen) vs
]

unfoldable pub unique : List GeoSiteDomain → List GeoSiteDomain
unique values = unique_from [] values

abbrev pub is_domain : Matcher → Bool
is_domain domain = true
is_domain _ = false

abbrev pub is_suffix : Matcher → Bool
is_suffix suffix = true
is_suffix _ = false

-- `value.replace(/^\./, "")`
abbrev pub strip_dot : List ℕ → List ℕ
strip_dot [] = []
strip_dot (c ∷ cs) = if c == 46 then cs else c ∷ cs

abbrev pub suffixes_of : List GeoSiteDomain → List (List ℕ)
suffixes_of domains = map (λ d. strip_dot d.value) (rows_where (λ d. is_suffix d.matcher) domains)

abbrev pub is_kept : List (List ℕ) → GeoSiteDomain → Bool
is_kept suffixes d = not (is_domain d.matcher) || not (has_text d.value suffixes)

unfoldable pub compile : List GeoSiteDomain → List GeoSiteDomain
compile values = let domains = unique values in rows_where (is_kept (suffixes_of domains)) domains
