-- ===== src/Geosite/Message.antt =====
-- The messages of src/server/adapters/geosite.ts: `parseSiteCode`, `parseSite`, `parseDomain` and
-- `parseAttribute`. Each is a loop over the fields of a message until no byte is left; here it runs on
-- fuel, and running out of it is told from an exception; `read_all` gives as much fuel as there are
-- bytes, with which no loop runs out (Geosite.Fields).
-- A text is the list of its code points, and `decode` stands for the fatal `TextDecoder`.
use outpost_vpn_server.Prelude.{
  ℕ, zero, suc, Option, none, some, List, [], ◌∷◌, ◌++◌, ◌==◌, ◌&&◌, if◌then◌else◌, length,
}
use outpost_vpn_server.Geosite.Reader.{◌>>=◌, tag, varint, bytes_field, skip}

-- What a loop comes to: it ends, with a state or an exception, or the fuel runs out.
pub data Loop {ℓ} (S : Type ℓ) : Type ℓ where
  ended : Option S → Loop S
  out_of_fuel : Loop S

-- An exception ends the loop.
unfoldable pub continue {ℓ} : {A S : Type ℓ} → Option A → (A → Loop S) → Loop S
continue none next = ended none
continue (some a) next = next a

unfoldable pub value_of {ℓ} : {S : Type ℓ} → Loop S → Option S
value_of (ended r) = r
value_of out_of_fuel = none

-- `while (!reader.done) { const tag = reader.tag(); ... }`: a round turns the state, the field, the
-- wire type and the bytes after the tag into the state and the bytes that are left.
unfoldable pub read_fields :
    {S : Type 0} → ℕ → (S → ℕ → ℕ → List ℕ → Option (S × List ℕ)) → S → List ℕ → Loop S
read_fields fuel round s [] = ended (some s)
read_fields zero round s (b ∷ bytes) = out_of_fuel
read_fields (suc fuel) round s (b ∷ bytes) =
    continue (tag (b ∷ bytes))
      λ r. continue (round s r.0 r.1 r.2) λ p. read_fields fuel round p.0 p.1

unfoldable pub read_all :
    {S : Type 0} → (S → ℕ → ℕ → List ℕ → Option (S × List ℕ)) → S → List ℕ → Option S
read_all round s bytes = value_of (read_fields (length bytes) round s bytes)

unfoldable pub skip_field {ℓ} : {S : Type ℓ} → S → ℕ → List ℕ → Option (S × List ℕ)
skip_field s wire bytes = do rest ← skip wire bytes; some (s, rest)

-- `a || b` on texts
abbrev pub or_text : List ℕ → List ℕ → List ℕ
or_text [] b = b
or_text (x ∷ xs) b = x ∷ xs

pub record ParsedDomain : Type 0 where
  pub type : ℕ
  pub value : List ℕ
  pub attributes : List (List ℕ)

pub record Site : Type 0 where
  pub country_code : List ℕ
  pub code : List ℕ
  pub domains : List ParsedDomain

-- `if (attribute) attributes.push(attribute)`
abbrev pub push_attribute : List (List ℕ) → List ℕ → List (List ℕ)
push_attribute attributes [] = attributes
push_attribute attributes (x ∷ xs) = attributes ++ (x ∷ xs) ∷ []

module _ (decode : List ℕ → Option (List ℕ)) where
  -- `string`
  unfoldable pub text_field : List ℕ → Option (List ℕ × List ℕ)
  text_field bytes = do (raw, rest) ← bytes_field bytes; text ← decode raw; some (text, rest)

  unfoldable pub attribute_round : List ℕ → ℕ → ℕ → List ℕ → Option (List ℕ × List ℕ)
  attribute_round key field wire bytes =
      if field == 1 && wire == 2 then text_field bytes else skip_field key wire bytes

  unfoldable pub parse_attribute : List ℕ → Option (List ℕ)
  parse_attribute bytes = read_all attribute_round [] bytes

  unfoldable pub domain_round : ParsedDomain → ℕ → ℕ → List ℕ → Option (ParsedDomain × List ℕ)
  domain_round d field wire bytes =
      if field == 1 && wire == 0
      then (do (type, rest) ← varint bytes; some (record d { type = type }, rest))
      else if field == 2 && wire == 2
      then (do (value, rest) ← text_field bytes; some (record d { value = value }, rest))
      else if field == 3 && wire == 2
      then (do
        (message, rest) ← bytes_field bytes
        attribute ← parse_attribute message
        some (record d { attributes = push_attribute d.attributes attribute }, rest))
      else skip_field d wire bytes

  unfoldable pub parse_domain : List ℕ → Option ParsedDomain
  parse_domain bytes =
      read_all domain_round (record { type = 0; value = []; attributes = [] }) bytes

  unfoldable pub site_round : Site → ℕ → ℕ → List ℕ → Option (Site × List ℕ)
  site_round s field wire bytes =
      if field == 1 && wire == 2
      then (do (text, rest) ← text_field bytes; some (record s { country_code = text }, rest))
      else if field == 2 && wire == 2
      then (do
        (message, rest) ← bytes_field bytes
        domain ← parse_domain message
        some (record s { domains = s.domains ++ domain ∷ [] }, rest))
      else if field == 4 && wire == 2
      then (do (text, rest) ← text_field bytes; some (record s { code = text }, rest))
      else skip_field s wire bytes

  -- The code and the domains.
  unfoldable pub parse_site : List ℕ → Option (List ℕ × List ParsedDomain)
  parse_site bytes = do
    s ← read_all site_round (record { country_code = []; code = []; domains = [] }) bytes
    some (or_text s.country_code s.code, s.domains)

  unfoldable pub code_round :
      (List ℕ × List ℕ) → ℕ → ℕ → List ℕ → Option ((List ℕ × List ℕ) × List ℕ)
  code_round (country_code, code) field wire bytes =
      if field == 1 && wire == 2
      then (do (text, rest) ← text_field bytes; some ((text, code), rest))
      else if field == 4 && wire == 2
      then (do (text, rest) ← text_field bytes; some ((country_code, text), rest))
      else skip_field (country_code, code) wire bytes

  unfoldable pub parse_site_code : List ℕ → Option (List ℕ)
  parse_site_code bytes = do
    (country_code, code) ← read_all code_round ([], []) bytes
    some (or_text country_code code)
