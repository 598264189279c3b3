-- ===== src/Geosite/Reader.antt =====
-- `ProtoReader` of src/server/adapters/geosite.ts. A reader is the list of the bytes that are left;
-- `none` is an exception. A JavaScript number holds every integer up to `max_safe` exactly, and what
-- lies above is refused before it is used, so the numbers are natural numbers.
use outpost_vpn_server.Prelude.{
  ℕ, zero, suc, ◌+◌, ◌*◌, ◌/◌, ◌%◌, Option, none, some, List, Bool, true, false, [], ◌∷◌, ◌==◌,
  if◌then◌else◌, ltb, leb, length, take, drop,
}

infixl 5 ◌>>=◌ ◌>>◌
abbrev pub ◌>>=◌ {ℓ κ} : {A : Type ℓ} {B : Type κ} → Option A → (A → Option B) → Option B
none >>= f = none
some a >>= f = f a

abbrev pub ◌>>◌ {ℓ} : {B : Type ℓ} → Option (Unit {0}) → Option B → Option B
m >> k = m >>= λ _. k

abbrev pub ensure : Bool → Option (Unit {0})
ensure true = some tt
ensure false = none

abbrev pub max_safe : ℕ
max_safe = 9007199254740991

-- The rounds of `varint` that are left, the multiplier and the result so far.
unfoldable pub varint_loop : ℕ → ℕ → ℕ → List ℕ → Option (ℕ × List ℕ)
varint_loop zero multiplier result bytes = none
varint_loop (suc rounds) multiplier result [] = none
varint_loop (suc rounds) multiplier result (byte ∷ bytes) =
    let sum = result + byte % 128 * multiplier in
    let rest = varint_loop rounds (multiplier * 128) sum bytes in
    if ltb max_safe sum then none else if byte / 128 % 2 == 0 then some (sum, bytes) else rest

unfoldable pub varint : List ℕ → Option (ℕ × List ℕ)
varint bytes = varint_loop 10 1 0 bytes

-- `tag`: the field and the wire type
unfoldable pub tag : List ℕ → Option (ℕ × ℕ × List ℕ)
tag bytes = do (n, rest) ← varint bytes; if n / 8 == 0 then none else some (n / 8, n % 8, rest)

-- `advance`; what is skipped, and the rest. A length that `varint` gives is a safe integer.
unfoldable pub advance : ℕ → List ℕ → Option (List ℕ × List ℕ)
advance n bytes = if leb n (length bytes) then some (take n bytes, drop n bytes) else none

unfoldable pub bytes_field : List ℕ → Option (List ℕ × List ℕ)
bytes_field bytes = do (n, rest) ← varint bytes; advance n rest

unfoldable pub skip : ℕ → List ℕ → Option (List ℕ)
skip wire bytes =
    if wire == 0
    then (do (n, rest) ← varint bytes; some rest)
    else if wire == 1
    then (do (skipped, rest) ← advance 8 bytes; some rest)
    else if wire == 2
    then (do (skipped, rest) ← bytes_field bytes; some rest)
    else if wire == 5
    then (do (skipped, rest) ← advance 4 bytes; some rest)
    else none
