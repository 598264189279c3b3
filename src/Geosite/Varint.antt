-- ===== src/Geosite/Varint.antt =====
-- Variable-length integers: every safe integer is read back, and reading takes at least a byte.
use native.Mathlib.Nat.{pow-suc}
use outpost_vpn_server.Prelude.{
  ℕ, zero, suc, ◌+◌, ◌*◌, ◌/◌, ◌%◌, ◌^◌, ◌≤◌, ◌<◌, some, List, false, [], ◌∷◌, ◌++◌, ◌≡◌, refl, ap,
  ◌∙◌, arith, if◌then◌else◌, ltb, length, Bool-cases, inl, inr,
}
use outpost_vpn_server.Geosite.Reader.{max_safe, varint_loop, varint}

-- The encoding of the protobuf specification, in at most the given number of bytes.
unfoldable pub encode : ℕ → ℕ → List ℕ
encode zero n = []
encode (suc k) n =
    let rest = encode k (n / 128) in if ltb n 128 then n ∷ [] else (n % 128 + 128) ∷ rest

below_limit : (sum : ℕ) → sum ≤ max_safe → ltb max_safe sum ≡ false
below_limit sum h = ground arith

last_byte :
    (rounds multiplier result byte sum : ℕ) (bytes : List ℕ)
    → result + byte % 128 * multiplier ≡ sum
    → sum ≤ max_safe
    → byte / 128 % 2 ≡ 0
    → varint_loop (suc rounds) multiplier result (byte ∷ bytes) ≡ some (sum, bytes)
unfolding varint_loop
last_byte rounds multiplier result byte sum bytes e safe stop =
    rw (e, below_limit sum safe, stop) refl

more_bytes :
    (rounds multiplier result byte sum : ℕ) (bytes : List ℕ)
    → result + byte % 128 * multiplier ≡ sum
    → sum ≤ max_safe
    → byte / 128 % 2 ≡ 1
    → varint_loop (suc rounds) multiplier result (byte ∷ bytes)
      ≡ varint_loop rounds (multiplier * 128) sum bytes
unfolding varint_loop
more_bytes rounds multiplier result byte sum bytes e safe go = rw (e, below_limit sum safe, go) refl

split_sum :
    (n multiplier result : ℕ)
    → result + n % 128 * multiplier + n / 128 * (multiplier * 128) ≡ result + n * multiplier
split_sum n multiplier result =
    let e : n % 128 + n / 128 * 128 ≡ n = omega arith in
    omega (arith, ap (λ (t : ℕ). t * multiplier) e)

-- The loop reads what is encoded, scaled and added to what was read before.
varint_loop-encode :
    (k rounds multiplier result n : ℕ) (rest : List ℕ)
    → k ≤ rounds
    → n < 128 ^ k
    → 0 < k
    → result + n * multiplier ≤ max_safe
    → varint_loop rounds multiplier result (encode k n ++ rest)
      ≡ some (result + n * multiplier, rest)
unfolding encode
varint_loop-encode zero rounds multiplier result n rest le lt pos safe = absurd (omega arith)
varint_loop-encode (suc k) zero multiplier result n rest le lt pos safe = absurd (omega arith)
varint_loop-encode (suc k) (suc rounds) multiplier result n rest le lt pos safe =
    elim (Bool-cases (ltb n 128)) [
      | inl small ↦ rw small (
          last_byte rounds multiplier result n (result + n * multiplier) rest
            (let e : n % 128 ≡ n = ground arith in rw e refl) safe (ground arith))
      | inr large ↦
          let q : 128 ^ suc k ≡ 128 ^ k * 128 = pow-suc 128 k in
          let positive : 0 < k = first_digit k n lt (ground arith) in
          rw large (
            more_bytes rounds multiplier result (n % 128 + 128) (result + n % 128 * multiplier)
              (encode k (n / 128) ++ rest)
              (let e : (n % 128 + 128) % 128 ≡ n % 128 = omega arith in rw e refl)
              (omega (arith, split_sum n multiplier result)) (omega arith)
            ∙ varint_loop-encode k rounds (multiplier * 128) (result + n % 128 * multiplier)
                (n / 128) rest (omega arith) (omega arith) positive
                (omega (arith, split_sum n multiplier result))
            ∙ ap (λ (v : ℕ). some (v, rest)) (split_sum n multiplier result))
    ]
  where
    first_digit : (k n : ℕ) → n < 128 ^ suc k → 128 ≤ n → 0 < k
    first_digit zero n lt h = absurd (omega arith)
    first_digit (suc k) n lt h = omega arith

-- Every safe integer that the protobuf encoding writes is read back, whatever follows it, and the rest
-- is what follows.
pub varint-encode :
    (n : ℕ) (rest : List ℕ) → n ≤ max_safe → varint (encode 8 n ++ rest) ≡ some (n, rest)
unfolding varint
varint-encode n rest safe =
    varint_loop-encode 8 10 1 0 n rest (omega arith) (omega arith) (omega arith) (omega arith)
    ∙ ap (λ (v : ℕ). some (v, rest)) (omega arith)

varint_loop_shorter :
    (rounds multiplier result : ℕ) (bytes : List ℕ) (n : ℕ) (rest : List ℕ)
    → varint_loop rounds multiplier result bytes ≡ some (n, rest)
    → (length rest < length bytes) × (n ≤ max_safe)
unfolding varint_loop
varint_loop_shorter zero multiplier result bytes n rest e = ground arith
varint_loop_shorter (suc rounds) multiplier result [] n rest e = ground arith
varint_loop_shorter (suc rounds) multiplier result (byte ∷ bytes) n rest e = ground (
  arith,
  varint_loop_shorter rounds (multiplier * 128) (result + byte % 128 * multiplier) bytes n rest,
)

-- What is read is a safe integer, and reading takes at least one byte.
pub varint_shorter :
    (bytes : List ℕ) (n : ℕ) (rest : List ℕ)
    → varint bytes ≡ some (n, rest)
    → (length rest < length bytes) × (n ≤ max_safe)
unfolding varint
varint_shorter bytes n rest e = varint_loop_shorter 10 1 0 bytes n rest e
