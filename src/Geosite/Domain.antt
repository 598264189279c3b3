-- ===== src/Geosite/Domain.antt =====
-- A domain of a geosite list, written as the protobuf specification writes it, is read back by
-- `parseDomain` of src/server/adapters/geosite.ts.
use outpost_vpn_server.Prelude.{
  ℕ, ◌≤◌, Option, some, List, true, [], ◌∷◌, ◌++◌, ◌≡◌, ◌≢◌, refl, ap, ◌∙◌, sym, arith, leb, length,
  take, drop, All, length-append,
}
use mathlib.Core.List.{append_assoc, append-nil}
use outpost_vpn_server.Geosite.Reader.{varint_loop, tag, varint, advance, bytes_field, max_safe}
use outpost_vpn_server.Geosite.Varint.{encode, varint-encode}
use outpost_vpn_server.Geosite.Message.{
  continue, value_of, read_fields, read_all, text_field, attribute_round, parse_attribute,
  ParsedDomain, domain_round, parse_domain, push_attribute,
}
use outpost_vpn_server.Geosite.Fields.{
  read_all_round, attribute_round-Shrinks, domain_round-Shrinks,
}

-- A length-delimited field.
abbrev pub write_bytes : List ℕ → List ℕ
write_bytes raw = encode 8 (length raw) ++ raw

take-append : (xs ys : List ℕ) → take (length xs) (xs ++ ys) ≡ xs
take-append [] ys = refl
take-append (x ∷ xs) ys = rw (take-append xs ys) refl

drop-append : (xs ys : List ℕ) → drop (length xs) (xs ++ ys) ≡ ys
drop-append [] ys = refl
drop-append (x ∷ xs) ys = drop-append xs ys

advance-append : (raw rest : List ℕ) → advance (length raw) (raw ++ rest) ≡ some (raw, rest)
unfolding advance
advance-append raw rest =
    let fits : leb (length raw) (length (raw ++ rest)) ≡ true =
      ground (arith, length-append raw rest) in
    rw (fits, take-append raw rest, drop-append raw rest) refl

bytes_field-write :
    (raw rest : List ℕ)
    → length raw ≤ max_safe
    → bytes_field (write_bytes raw ++ rest) ≡ some (raw, rest)
unfolding bytes_field
bytes_field-write raw rest safe =
    rw
      (append_assoc (encode 8 (length raw)) raw rest, varint-encode (length raw) (raw ++ rest) safe)
      (advance-append raw rest)

single_byte_tags :
    (rest : List ℕ)
    → (tag (8 ∷ rest) ≡ some (1, 0, rest))
      × (tag (10 ∷ rest) ≡ some (1, 2, rest))
      × (tag (18 ∷ rest) ≡ some (2, 2, rest))
      × (tag (26 ∷ rest) ≡ some (3, 2, rest))
unfolding tag varint varint_loop
single_byte_tags rest = (refl, refl, refl, refl)

push_attribute-some :
    (attributes : List (List ℕ)) (key : List ℕ)
    → key ≢ []
    → push_attribute attributes key ≡ attributes ++ key ∷ []
push_attribute-some attributes [] some_key = absurd (some_key refl)
push_attribute-some attributes (x ∷ xs) some_key = refl

-- `utf8` writes a text; `decode` is the fatal `TextDecoder`.
module _ (utf8 : List ℕ → List ℕ) (decode : List ℕ → Option (List ℕ)) where
  abbrev pub write_text : List ℕ → List ℕ
  write_text text = write_bytes (utf8 text)

  -- `Attribute { key = 1 }`
  abbrev pub write_attribute : List ℕ → List ℕ
  write_attribute key = 10 ∷ write_text key

  -- The repeated field 3.
  unfoldable pub write_attributes : List (List ℕ) → List ℕ
  write_attributes [] = []
  write_attributes (key ∷ keys) =
      let rest = write_attributes keys in 26 ∷ (write_bytes (write_attribute key) ++ rest)

  -- `Domain { type = 1, value = 2, attribute = 3 }`
  unfoldable pub write_domain : ParsedDomain → List ℕ
  write_domain d =
      8 ∷ (encode 8 d.type ++ 18 ∷ (write_text d.value ++ write_attributes d.attributes))

  -- A key that is not empty, that the decoder reads back and whose message has a length that can be
  -- written. (A text that starts with U+FEFF, or is no sequence of Unicode scalar values, is not read back.)
  pub record IsWritableKey (key : List ℕ) : Type 0 where
    pub some_key : key ≢ []
    pub decodes : decode (utf8 key) ≡ some key
    pub text_fits : length (utf8 key) ≤ max_safe
    pub message_fits : length (write_attribute key) ≤ max_safe

  pub record IsWritable (d : ParsedDomain) : Type 0 where
    pub type_fits : d.type ≤ max_safe
    pub decodes : decode (utf8 d.value) ≡ some d.value
    pub value_fits : length (utf8 d.value) ≤ max_safe
    pub keys_fit : All IsWritableKey d.attributes

  text_field-write :
      (text rest : List ℕ)
      → decode (utf8 text) ≡ some text
      → length (utf8 text) ≤ max_safe
      → text_field decode (write_text text ++ rest) ≡ some (text, rest)
  unfolding text_field
  text_field-write text rest decodes fits =
      rw (bytes_field-write (utf8 text) rest fits, decodes) refl

  parse_attribute-write :
      (key : List ℕ) → IsWritableKey key → parse_attribute decode (write_attribute key) ≡ some key
  unfolding parse_attribute read_all value_of read_fields continue attribute_round
  parse_attribute-write key fits =
      read_all_round (attribute_round decode) [] key 10 (write_text key) (write_text key) [] 1 2
        (attribute_round-Shrinks decode) (single_byte_tags (write_text key)).1
        (ap (text_field decode) (sym (append-nil (write_text key)))
          ∙ text_field-write key [] fits.decodes fits.text_fits)
      ∙ refl

  domain_round-attribute :
      (d : ParsedDomain) (key rest : List ℕ)
      → IsWritableKey key
      → domain_round decode d 3 2 (write_bytes (write_attribute key) ++ rest)
        ≡ some (record d { attributes = d.attributes ++ key ∷ [] }, rest)
  unfolding domain_round
  domain_round-attribute d key rest fits =
      rw
        (
          bytes_field-write (write_attribute key) rest fits.message_fits,
          parse_attribute-write key fits,
        )
        (rw (push_attribute-some d.attributes key fits.some_key) refl)

  read_all-attributes :
      (d : ParsedDomain) (keys : List (List ℕ))
      → All IsWritableKey keys
      → read_all (domain_round decode) d (write_attributes keys)
        ≡ some (record d { attributes = d.attributes ++ keys })
  unfolding write_attributes read_all value_of read_fields continue
  read_all-attributes d [] fits = rw (append-nil d.attributes) refl
  read_all-attributes d (key ∷ keys) (fit, fits) =
      read_all_round (domain_round decode) d (record d { attributes = d.attributes ++ key ∷ [] }) 26
        (write_bytes (write_attribute key) ++ write_attributes keys)
        (write_bytes (write_attribute key) ++ write_attributes keys) (write_attributes keys) 3 2
        (domain_round-Shrinks decode) (single_byte_tags _).3
        (domain_round-attribute d key (write_attributes keys) fit)
      ∙ read_all-attributes (record d { attributes = d.attributes ++ key ∷ [] }) keys fits
      ∙ rw (append_assoc d.attributes (key ∷ []) keys) refl

  after_value :
      (d : ParsedDomain)
      → IsWritable d
      → read_all
          (domain_round decode)
          (record { type = d.type; value = []; attributes = [] })
          (18 ∷ (write_text d.value ++ write_attributes d.attributes))
        ≡ some d
  unfolding domain_round
  after_value d fits =
      read_all_round (domain_round decode) (record { type = d.type; value = []; attributes = [] })
        (record { type = d.type; value = d.value; attributes = [] }) 18
        (write_text d.value ++ write_attributes d.attributes)
        (write_text d.value ++ write_attributes d.attributes) (write_attributes d.attributes) 2 2
        (domain_round-Shrinks decode) (single_byte_tags _).2
        (rw (text_field-write d.value (write_attributes d.attributes) fits.decodes fits.value_fits)
          refl)
      ∙ read_all-attributes (record { type = d.type; value = d.value; attributes = [] })
          d.attributes fits.keys_fit

  -- A domain that is written as the protobuf specification writes it, with each field in its place, is
  -- read back as it was, provided that the decoder reads the encodings of its value and of its attributes'
  -- keys back, that the type and the lengths are safe integers and that no attribute has the empty key
  -- (such a one is dropped).
  pub parse_domain-write :
      (d : ParsedDomain) → IsWritable d → parse_domain decode (write_domain d) ≡ some d
  unfolding parse_domain write_domain domain_round
  parse_domain-write d fits =
      read_all_round (domain_round decode) (record { type = 0; value = []; attributes = [] })
        (record { type = d.type; value = []; attributes = [] }) 8 (encode 8 d.type ++ rest d)
        (encode 8 d.type ++ rest d) (rest d) 1 0 (domain_round-Shrinks decode)
        (single_byte_tags _).0 (rw (varint-encode d.type (rest d) fits.type_fits) refl)
      ∙ after_value d fits
    where
      rest : ParsedDomain → List ℕ
      rest d = 18 ∷ (write_text d.value ++ write_attributes d.attributes)
