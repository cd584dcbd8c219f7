-- ===== src/Common/Strings.antt =====
-- JavaScript's strings: lists of UTF-16 code units, with the tests and the methods that the SDK uses.
use Prim.Native.Nat.{ℕ, zero, suc, ◌+◌, ◌-◌, ◌*◌, ◌/◌, ◌%◌}
use Prim.Native.Char.{code}
use Prim.Native.String.{String}
use mathlib.Core.Path.{◌≡◌, refl}
use mathlib.Core.Bool.{Bool, true, false, not, ◌&&◌, ◌||◌}
use mathlib.Core.List.{List, [], ◌∷◌, ◌++◌}
use native.Mathlib.Omega.{arith}
use coralswap_sdk.Common.Tests.{ltb, leb, ◌==◌, if◌then◌else◌}
use coralswap_sdk.Common.Lists.{length, replicate}

abbrev pub Text : Type 0
Text = List ℕ

-- A literal.
abbrev pub codes : String → Text
codes String.[] = []
codes (String.◌∷◌ c s) = code c ∷ codes s

-- `a === b`
unfoldable pub same : Text → Text → Bool
same [] [] = true
same [] (y ∷ ys) = false
same (x ∷ xs) [] = false
same (x ∷ xs) (y ∷ ys) = x == y && same xs ys

pub same_refl : (s : Text) → same s s ≡ true
unfolding same
same_refl [] = refl
same_refl (x ∷ xs) = ground (arith, same_refl xs)

pub same-eq : (s t : Text) → same s t ≡ true → s ≡ t
unfolding same
same-eq [] [] h = refl
same-eq [] (y ∷ ys) h = cc
same-eq (x ∷ xs) [] h = cc
same-eq (x ∷ xs) (y ∷ ys) h = ground (arith, same-eq xs ys)

-- `toLowerCase` on the Latin letters. No other letter has one of these as its lower case, but for the
-- Kelvin sign, whose lower case is a `k`.
abbrev pub lower : ℕ → ℕ
lower c = if leb b'A' c && leb c b'Z' then c + 32 else (if c == 8490 then b'k' else c)

unfoldable pub to_lower_case : Text → Text
to_lower_case [] = []
to_lower_case (c ∷ s) = lower c ∷ to_lower_case s

-- The white space and the line ends that `trim` removes.
unfoldable pub is_space : ℕ → Bool
is_space c =
    (leb 9 c && leb c 13)
    || c == 32
    || c == 160
    || c == 5760
    || (leb 8192 c && leb c 8202)
    || c == 8232
    || c == 8233
    || c == 8239
    || c == 8287
    || c == 12288
    || c == 65279

-- `value.trim().length > 0`: a character is left that is no white space.
unfoldable pub has_content : Text → Bool
unfolding is_space
has_content [] = false
has_content (c ∷ s) = not (is_space c) || has_content s

unfoldable pub trim_start : Text → Text
unfolding is_space
trim_start [] = []
trim_start (c ∷ s) = if is_space c then trim_start s else c ∷ s

unfoldable pub trim_end : Text → Text
unfolding is_space has_content
trim_end [] = []
trim_end (c ∷ s) =
    let rest = trim_end s in if is_space c && not (has_content s) then [] else c ∷ rest

unfoldable pub trim : Text → Text
unfolding trim_start trim_end
trim s = trim_end (trim_start s)

-- `padStart(n, "0")` and `padEnd(n, "0")`
abbrev pub zeros : ℕ → Text
zeros n = replicate n b'0'

abbrev pub pad_start : ℕ → Text → Text
pad_start n s = zeros (n - length s) ++ s

abbrev pub pad_end : ℕ → Text → Text
pad_end n s = s ++ zeros (n - length s)

abbrev pub is_digit : ℕ → Bool
is_digit c = leb b'0' c && leb c b'9'

-- `BigInt(s)` of digits.
abbrev pub value_from : ℕ → Text → ℕ
value_from total [] = total
value_from total (c ∷ s) = value_from (total * 10 + (c - b'0')) s

unfoldable pub big_int : Text → ℕ
big_int s = value_from 0 s

-- `n.toString()`: a number has fewer digits than the fuel `suc n`.
unfoldable pub digits_from : (fuel n : ℕ) → Text
digits_from zero n = []
digits_from (suc fuel) n =
    let front = digits_from fuel (n / 10) in
    if ltb n 10 then (b'0' + n) ∷ [] else front ++ (b'0' + n % 10) ∷ []

unfoldable pub to_string : ℕ → Text
unfolding digits_from
to_string n = digits_from (suc n) n
