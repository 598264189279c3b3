-- ===== src/Geosite/Tests.antt =====
-- Reading at concrete inputs.
use outpost_vpn_server.Prelude.{
  ℕ, ◌≤◌, ◌<◌, none, some, List, [], ◌∷◌, ◌++◌, ◌≡◌, refl, arith, length,
}
use outpost_vpn_server.Geosite.Reader.{
  varint, varint_loop, tag, advance, bytes_field, skip, max_safe,
}
use outpost_vpn_server.Geosite.Varint.{encode, varint-encode, varint_shorter}
use outpost_vpn_server.Geosite.Message.{
  ParsedDomain, ended, continue, value_of, read_fields, read_all, attribute_round, domain_round,
  site_round, code_round, parse_attribute, parse_domain, parse_site, parse_site_code, skip_field,
  text_field,
}
use outpost_vpn_server.Geosite.Fields.{messages_end}
use outpost_vpn_server.Geosite.Domain.{write_domain, write_attributes, parse_domain-write}
use outpost_vpn_server.Prelude.{any, count_where, rows_where, Bool, false}
use outpost_vpn_server.Geosite.Compile.{
  domain, suffix, domain_keyword, GeoSiteDomain, domain_key, unique, unique_from, compile,
  convert_domain, trim, is_bad_value, text_eq, root_domain,
}
use outpost_vpn_server.Geosite.Cover.{has_key, unique_lem}
use outpost_vpn_server.Geosite.Matches.{matches, matches-compile}
use outpost_vpn_server.Geosite.Convert.{type_matches, convert_domain_lem}

varint-encode_example : varint (encode 8 300 ++ 7 ∷ []) ≡ some (300, 7 ∷ [])
varint-encode_example = varint-encode 300 (7 ∷ []) (omega arith)

-- 300 is written as 0xac 0x02.
three_hundred : varint (172 ∷ 2 ∷ 7 ∷ []) ≡ some (300, 7 ∷ [])
unfolding varint varint_loop
three_hundred = refl

-- An integer of ten bytes that is not safe.
unsafe_integer : varint (255 ∷ 255 ∷ 255 ∷ 255 ∷ 255 ∷ 255 ∷ 255 ∷ 255 ∷ 255 ∷ 1 ∷ []) ≡ none
unfolding varint varint_loop
unsafe_integer = refl

varint_shorter_example :
    (length {A = ℕ} (7 ∷ []) < length {A = ℕ} (172 ∷ 2 ∷ 7 ∷ [])) × (300 ≤ max_safe)
varint_shorter_example = varint_shorter (172 ∷ 2 ∷ 7 ∷ []) 300 (7 ∷ []) three_hundred

-- A suffix `a.b` with the attribute `x`.
abbrev suffix_domain : ParsedDomain
suffix_domain = record { type = 2; value = 97 ∷ 46 ∷ 98 ∷ []; attributes = (120 ∷ []) ∷ [] }

abbrev suffix_bytes : List ℕ
suffix_bytes = 8 ∷ 2 ∷ 18 ∷ 3 ∷ 97 ∷ 46 ∷ 98 ∷ 26 ∷ 3 ∷ 10 ∷ 1 ∷ 120 ∷ []

abbrev site_bytes : List ℕ
site_bytes = 10 ∷ 2 ∷ 117 ∷ 115 ∷ 18 ∷ 12 ∷ suffix_bytes

suffix_written : write_domain (λ text. text) some suffix_domain ≡ suffix_bytes
unfolding write_domain write_attributes encode
suffix_written = refl

site_read : parse_site some site_bytes ≡ some (117 ∷ 115 ∷ [], suffix_domain ∷ [])
unfolding parse_site read_all value_of read_fields continue site_round tag varint varint_loop
    bytes_field advance skip skip_field text_field parse_domain domain_round parse_attribute
    attribute_round
site_read = refl

-- The field 2 is skipped.
code_read : parse_site_code some site_bytes ≡ some (117 ∷ 115 ∷ [])
unfolding parse_site_code read_all value_of read_fields continue code_round tag varint varint_loop
    bytes_field advance skip skip_field text_field
code_read = refl

parse_domain-write_example :
    parse_domain some (write_domain (λ text. text) some suffix_domain) ≡ some suffix_domain
parse_domain-write_example =
    parse_domain-write (λ text. text) some suffix_domain
      (record {
        type_fits = omega arith;
        decodes = refl;
        value_fits = omega arith;
        keys_fit = (
          record {
            some_key = λ e. cc;
            decodes = refl;
            text_fits = omega arith;
            message_fits = unfold encode in omega arith;
          },
          tt,
        );
      })

messages_end_example :
    (read_fields 20 (attribute_round some) [] site_bytes
      ≡ ended (read_all (attribute_round some) [] site_bytes))
    × (read_fields 20 (domain_round some) suffix_domain site_bytes
        ≡ ended (read_all (domain_round some) suffix_domain site_bytes))
    × (read_fields 20
          (site_round some)
          (record { country_code = []; code = []; domains = [] })
          site_bytes
        ≡ ended (
            read_all
              (site_round some)
              (record { country_code = []; code = []; domains = [] })
              site_bytes))
    × (read_fields 20 (code_round some) ([], []) site_bytes
        ≡ ended (read_all (code_round some) ([], []) site_bytes))
messages_end_example =
    messages_end some site_bytes [] suffix_domain
      (record { country_code = []; code = []; domains = [] }) ([], []) 20 (omega arith)

-- `a.b` and what is below it, `a.b` again, and the keyword `b`.
abbrev three_domains : List GeoSiteDomain
three_domains =
    record { matcher = domain; value = 97 ∷ 46 ∷ 98 ∷ [] }
    ∷ record { matcher = suffix; value = 46 ∷ 97 ∷ 46 ∷ 98 ∷ [] }
    ∷ record { matcher = domain; value = 97 ∷ 46 ∷ 98 ∷ [] }
    ∷ record { matcher = domain_keyword; value = 98 ∷ [] }
    ∷ []

compiled :
    compile three_domains
    ≡ record { matcher = suffix; value = 46 ∷ 97 ∷ 46 ∷ 98 ∷ [] }
      ∷ record { matcher = domain_keyword; value = 98 ∷ [] }
      ∷ []
unfolding compile unique unique_from rows_where
compiled = refl

matches-compile_example :
    any (matches text_eq text_eq (120 ∷ 46 ∷ 97 ∷ 46 ∷ 98 ∷ [])) (compile three_domains)
    ≡ any (matches text_eq text_eq (120 ∷ 46 ∷ 97 ∷ 46 ∷ 98 ∷ [])) three_domains
matches-compile_example =
    matches-compile text_eq text_eq (120 ∷ 46 ∷ 97 ∷ 46 ∷ 98 ∷ []) three_domains

abbrev is_value_b : GeoSiteDomain → Bool
is_value_b d = text_eq d.value (98 ∷ [])

unique_lem_example :
    (any is_value_b (unique three_domains) ≡ any is_value_b three_domains)
    × (count_where
          (has_key (domain_key (record { matcher = domain_keyword; value = 98 ∷ [] })))
          (unique three_domains)
        ≤ 1)
unique_lem_example =
    unique_lem is_value_b (domain_key (record { matcher = domain_keyword; value = 98 ∷ [] }))
      three_domains

convert_domain_lem_example :
    (any (matches text_eq text_eq (97 ∷ 46 ∷ 98 ∷ [])) (root_domain (97 ∷ 46 ∷ 98 ∷ []))
      ≡ type_matches text_eq text_eq (97 ∷ 46 ∷ 98 ∷ []) 2 (trim suffix_domain.value))
    × (2 ≤ 3)
    × (is_bad_value (trim suffix_domain.value) ≡ false)
convert_domain_lem_example =
    convert_domain_lem text_eq text_eq (97 ∷ 46 ∷ 98 ∷ []) suffix_domain
      (root_domain (97 ∷ 46 ∷ 98 ∷ [])) (unfold convert_domain in unfold trim in refl)
