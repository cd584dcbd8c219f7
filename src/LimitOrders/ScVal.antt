-- ===== src/LimitOrders/ScVal.antt =====
-- The values of the contract (`xdr.ScVal`) and their readers in src/modules/limit-orders.ts and
-- src/utils/numeric.ts.
use coralswap_sdk.Common.{
  ℕ, zero, suc, ◌+◌, ◌*◌, ◌/◌, ◌%◌, ◌^◌, ◌&&◌, ◌||◌, Option, none, some, List, [], ◌∷◌, Result, ok,
  err, parsing, validation, ◌>>=◌, Text, same, ltb, ◌==◌, if◌then◌else◌, ℤ, pos, negsuc, minus,
  ◌+ℤ◌, ◌*ℤ◌,
}

-- An i128 is a BigInt, or its two parts; `other` is every other kind.
mutual
  pub data ScVal : Type 0 where
    sc_string sc_symbol sc_bytes : Text → ScVal
    sc_u32 sc_i32 sc_u64 sc_i64 sc_i128 : ℤ → ScVal
    sc_i128_parts : (hi lo : ℤ) → ScVal
    sc_vec : Values → ScVal
    sc_map : Entries → ScVal
    sc_void other : ScVal

  pub data Values : Type 0 where
    no_values : Values
    value : ScVal → Values → Values

  pub data Entries : Type 0 where
    no_entries : Entries
    entry : (key val : ScVal) → Entries → Entries

-- `Number(n)` of a whole number below 2 ^ 64: it has 53 bits, and ties go to the even one.
abbrev pub round_at : (unit n : ℕ) → ℕ
round_at unit n =
    let q = n / unit in
    let r = n % unit in
    if ltb unit (2 * r) || (2 * r == unit && q % 2 == 1) then (q + 1) * unit else q * unit

-- The spacing of the doubles at `n`, found in `fuel` doublings.
abbrev pub spacing : (fuel n unit : ℕ) → ℕ
spacing zero n unit = unit
spacing (suc fuel) n unit = spacing fuel n (if ltb n (unit * 2 ^ 53) then unit else unit * 2)

unfoldable pub to_double : ℕ → ℕ
to_double n = if ltb n (2 ^ 53) then n else round_at (spacing 11 n 1) n

unfoldable pub to_number : ℤ → ℤ
unfolding to_double
to_number (pos n) = pos (to_double n)
to_number (negsuc n) = minus (to_double (suc n))

unfoldable pub scval_to_string : Option ScVal → Result Text
scval_to_string (some (sc_string s)) = ok s
scval_to_string (some (sc_symbol s)) = ok s
scval_to_string (some (sc_bytes s)) = ok s
scval_to_string _ = err parsing

unfoldable pub scval_to_number : Option ScVal → Result ℤ
unfolding to_number
scval_to_number (some (sc_u32 n)) = ok n
scval_to_number (some (sc_u64 n)) = ok (to_number n)
scval_to_number (some (sc_i32 n)) = ok n
scval_to_number (some (sc_i64 n)) = ok (to_number n)
scval_to_number _ = err parsing

unfoldable pub scval_to_optional_number : Option ScVal → Result (Option ℤ)
scval_to_optional_number none = ok none
scval_to_optional_number (some sc_void) = ok none
scval_to_optional_number (some v) = scval_to_number (some v) >>= λ n. ok (some n)

-- `(parts.hi << 64n) + parts.lo`
unfoldable pub decode_i128 : ScVal → Result ℤ
decode_i128 (sc_i128 n) = ok n
decode_i128 (sc_i128_parts hi lo) = ok (hi *ℤ pos (2 ^ 64) +ℤ lo)
decode_i128 _ = err validation

-- `try { … } catch { throw … "PARSING_ERROR" }`
abbrev pub or_parsing : Result ℤ → Result ℤ
or_parsing (ok n) = ok n
or_parsing (err thrown) = err parsing

unfoldable pub scval_to_bigint : Option ScVal → Result ℤ
unfolding decode_i128
scval_to_bigint (some (sc_i128 n)) = or_parsing (decode_i128 (sc_i128 n))
scval_to_bigint (some (sc_i128_parts hi lo)) = or_parsing (decode_i128 (sc_i128_parts hi lo))
scval_to_bigint (some (sc_u64 n)) = ok n
scval_to_bigint (some (sc_i64 n)) = ok n
scval_to_bigint (some (sc_u32 n)) = ok n
scval_to_bigint (some (sc_i32 n)) = ok n
scval_to_bigint _ = err parsing

-- `fields`: the last entry of a key is the one that counts.
abbrev pub Fields : Type 0
Fields = Text → Option ScVal

abbrev pub set : Text → ScVal → Fields → Fields
set key val fields wanted = if same key wanted then some val else fields wanted

abbrev pub sc_map_from : Fields → Entries → Fields
sc_map_from fields no_entries = fields
sc_map_from fields (entry (sc_string key) val rest) = sc_map_from (set key val fields) rest
sc_map_from fields (entry (sc_symbol key) val rest) = sc_map_from (set key val fields) rest
sc_map_from fields (entry key val rest) = sc_map_from fields rest

unfoldable pub sc_map_to_record : Entries → Fields
sc_map_to_record entries = sc_map_from (λ wanted. none) entries

-- `fields[a] ?? fields[b]`
abbrev pub either_key : Fields → Text → Text → Option ScVal
either_key fields a b = elim (fields a) [ some v ↦ some v | none ↦ fields b ]

-- `scValToStringVec`
abbrev pub strings_of : Values → Result (List Text)
strings_of no_values = ok []
strings_of (value v rest) =
    let others = strings_of rest in scval_to_string (some v) >>= λ s. others >>= λ l. ok (s ∷ l)

unfoldable pub scval_to_string_vec : Option ScVal → Result (List Text)
unfolding scval_to_string
scval_to_string_vec (some (sc_vec values)) = strings_of values
scval_to_string_vec _ = err parsing
