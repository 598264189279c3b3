-- ===== src/Geosite/Shorter.antt =====
-- `ProtoReader` of src/server/adapters/geosite.ts only moves forward.
use outpost_vpn_server.Prelude.{
  ℕ, zero, suc, ◌-◌, ◌≤◌, ◌<◌, some, List, [], ◌∷◌, ◌==◌, ◌≡◌, arith, length, drop, Option-cases,
  Bool-cases, inl, inr,
}
use outpost_vpn_server.Geosite.Reader.{◌>>=◌, tag, varint, advance, bytes_field, skip}
use outpost_vpn_server.Geosite.Varint.{varint_shorter}

length-drop : (n : ℕ) (xs : List ℕ) → length (drop n xs) ≡ length xs - n
length-drop zero xs = omega arith
length-drop (suc n) [] = omega arith
length-drop (suc n) (x ∷ xs) = omega (arith, length-drop n xs)

pub tag_shorter :
    (bytes : List ℕ) (field wire : ℕ) (rest : List ℕ)
    → tag bytes ≡ some (field, wire, rest)
    → length rest < length bytes
unfolding tag
tag_shorter bytes field wire rest e = elim (Option-cases (varint bytes)) [
  | inl failed ↦ absurd (ground arith)
  | inr (r, read) ↦ ground (arith, varint_shorter bytes r.0 r.1 read)
]

advance_shorter :
    (n : ℕ) (bytes skipped rest : List ℕ)
    → advance n bytes ≡ some (skipped, rest)
    → length rest ≤ length bytes
unfolding advance
advance_shorter n bytes skipped rest e = ground (arith, length-drop n bytes)

pub bytes_field_shorter :
    (bytes raw rest : List ℕ) → bytes_field bytes ≡ some (raw, rest) → length rest ≤ length bytes
unfolding bytes_field
bytes_field_shorter bytes raw rest e = elim (Option-cases (varint bytes)) [
  | inl failed ↦ absurd (ground arith)
  | inr (r, read) ↦
      ground (arith, varint_shorter bytes r.0 r.1 read, advance_shorter r.0 r.1 raw rest)
]

varint_rest :
    (bytes rest : List ℕ)
    → (varint bytes >>= λ r. some r.1) ≡ some rest
    → length rest ≤ length bytes
varint_rest bytes rest e = elim (Option-cases (varint bytes)) [
  | inl failed ↦ absurd (ground arith)
  | inr (r, read) ↦ ground (arith, varint_shorter bytes r.0 r.1 read)
]

advance_rest :
    (n : ℕ) (bytes rest : List ℕ)
    → (advance n bytes >>= λ r. some r.1) ≡ some rest
    → length rest ≤ length bytes
advance_rest n bytes rest e = elim (Option-cases (advance n bytes)) [
  | inl failed ↦ absurd (ground arith)
  | inr (r, read) ↦ ground (arith, advance_shorter n bytes r.0 r.1 read)
]

field_rest :
    (bytes rest : List ℕ)
    → (bytes_field bytes >>= λ r. some r.1) ≡ some rest
    → length rest ≤ length bytes
field_rest bytes rest e = elim (Option-cases (bytes_field bytes)) [
  | inl failed ↦ absurd (ground arith)
  | inr (r, read) ↦ ground (arith, bytes_field_shorter bytes r.0 r.1 read)
]

pub skip_shorter :
    (wire : ℕ) (bytes rest : List ℕ) → skip wire bytes ≡ some rest → length rest ≤ length bytes
unfolding skip
skip_shorter wire bytes rest e = elim (Bool-cases (wire == 0)) [
  | inl w0 ↦ varint_rest bytes rest (rw w0 at e)
  | inr n0 ↦ elim (Bool-cases (wire == 1)) [
    | inl w1 ↦ advance_rest 8 bytes rest (rw (n0, w1) at e)
    | inr n1 ↦ elim (Bool-cases (wire == 2)) [
      | inl w2 ↦ field_rest bytes rest (rw (n0, n1, w2) at e)
      | inr n2 ↦ elim (Bool-cases (wire == 5)) [
        | inl w5 ↦ advance_rest 4 bytes rest (rw (n0, n1, n2, w5) at e)
        | inr n5 ↦ absurd (ground arith)
      ]
    ]
  ]
]
