-- ===== src/Common/Digits.antt =====
-- Texts of digits: how long they are, what number they are, and what `trim` leaves of them.
use Prim.Native.Nat.{ℕ, zero, suc, ◌+◌, ◌-◌, ◌*◌, ◌/◌, ◌%◌, ◌≤◌, ◌<◌}
use mathlib.Core.Path.{◌≡◌, refl, ap, ◌∙◌}
use mathlib.Core.Bool.{false}
use mathlib.Core.List.{[], ◌∷◌, ◌++◌}
use native.Mathlib.Decide.{dec_lt}
use native.Mathlib.Omega.{arith}
use coralswap_sdk.Common.Tests.{ltb, lt→ltb}
use coralswap_sdk.Common.Lists.{length, take, drop, length-append, length-replicate}
use coralswap_sdk.Common.Strings.{
  Text, is_space, trim_start, trim_end, trim, zeros, pad_start, value_from, big_int, digits_from,
  to_string,
}

abbrev pub Digits : Text → Type 0
Digits [] = Unit
Digits (c ∷ s) = (b'0' ≤ c) × (c ≤ b'9') × Digits s

pub Digits-append : (s t : Text) → Digits s → Digits t → Digits (s ++ t)
Digits-append [] t h k = k
Digits-append (c ∷ s) t (low, high, h) k = (low, high, Digits-append s t h k)

Digits-zeros : (n : ℕ) → Digits (zeros n)
Digits-zeros zero = tt
Digits-zeros (suc n) = (omega arith, omega arith, Digits-zeros n)

pub Digits-take : (k : ℕ) (s : Text) → Digits s → Digits (take k s)
Digits-take zero s h = tt
Digits-take (suc k) [] h = tt
Digits-take (suc k) (c ∷ s) (low, high, h) = (low, high, Digits-take k s h)

pub Digits-drop : (k : ℕ) (s : Text) → Digits s → Digits (drop k s)
Digits-drop zero s h = h
Digits-drop (suc k) [] h = tt
Digits-drop (suc k) (c ∷ s) (low, high, h) = Digits-drop k s h

not_lt→ltb : (a b : ℕ) → ¬ (a < b) → ltb a b ≡ false
not_lt→ltb a b h = ground arith

one_digit : (n : ℕ) → n < 10 → Digits ((b'0' + n) ∷ [])
one_digit n h = (omega arith, omega arith, tt)

Digits-digits_from : (fuel n : ℕ) → Digits (digits_from fuel n)
unfolding digits_from
Digits-digits_from zero n = tt
Digits-digits_from (suc fuel) n = elim (dec_lt n 10) [
  | yes small ↦ rw (lt→ltb n 10 small) (one_digit n small)
  | no large ↦ rw (not_lt→ltb n 10 large) (
      Digits-append (digits_from fuel (n / 10)) ((b'0' + n % 10) ∷ [])
        (Digits-digits_from fuel (n / 10)) (one_digit (n % 10) (omega arith)))
]

pub Digits-to_string : (n : ℕ) → Digits (to_string n)
unfolding to_string
Digits-to_string n = Digits-digits_from (suc n) n

pub Digits-pad_start : (k : ℕ) (s : Text) → Digits s → Digits (pad_start k s)
Digits-pad_start k s h = Digits-append (zeros (k - length s)) s (Digits-zeros (k - length s)) h

pub value_from-append :
    (total : ℕ) (s t : Text) → value_from total (s ++ t) ≡ value_from (value_from total s) t
value_from-append total [] t = refl
value_from-append total (c ∷ s) t = value_from-append (total * 10 + (c - b'0')) s t

value_from-zeros : (n : ℕ) → value_from 0 (zeros n) ≡ 0
value_from-zeros zero = refl
value_from-zeros (suc n) = value_from-zeros n

last_digit : (n : ℕ) → n / 10 * 10 + (b'0' + n % 10 - b'0') ≡ n
last_digit n = omega arith

value_from-digits_from : (fuel n : ℕ) → n < fuel → value_from 0 (digits_from fuel n) ≡ n
unfolding digits_from
value_from-digits_from zero n h = elim h [ ]
value_from-digits_from (suc fuel) n h = elim (dec_lt n 10) [
  | yes small ↦ rw (lt→ltb n 10 small) (omega arith)
  | no large ↦ rw (not_lt→ltb n 10 large) (
      value_from-append 0 (digits_from fuel (n / 10)) ((b'0' + n % 10) ∷ [])
      ∙ ap (λ t. value_from t ((b'0' + n % 10) ∷ []))
          (value_from-digits_from fuel (n / 10) (omega arith))
      ∙ last_digit n)
]

-- A number is read back from its digits, with zeros in front or not.
pub big_int-pad_start : (k n : ℕ) → big_int (pad_start k (to_string n)) ≡ n
unfolding big_int to_string
big_int-pad_start k n =
    let z = zeros (k - length (to_string n)) in
    value_from-append 0 z (digits_from (suc n) n)
    ∙ ap (λ t. value_from t (digits_from (suc n) n)) (value_from-zeros (k - length (to_string n)))
    ∙ value_from-digits_from (suc n) n (omega arith)

pub le-length-pad_start : (k : ℕ) (s : Text) → k ≤ length (pad_start k s)
le-length-pad_start k s =
    omega
      (arith, length-append (zeros (k - length s)) s, length-replicate {A = ℕ} (k - length s) b'0')

-- Visible ASCII characters.
abbrev pub Visible : Text → Type 0
Visible [] = Unit
Visible (c ∷ s) = (33 ≤ c) × (c ≤ 126) × Visible s

pub Digits-Visible : (s : Text) → Digits s → Visible s
Digits-Visible [] h = tt
Digits-Visible (c ∷ s) (low, high, h) = (omega arith, omega arith, Digits-Visible s h)

pub Visible-append : (s t : Text) → Visible s → Visible t → Visible (s ++ t)
Visible-append [] t h k = k
Visible-append (c ∷ s) t (low, high, h) k = (low, high, Visible-append s t h k)

no_space : (c : ℕ) → 33 ≤ c → c ≤ 126 → is_space c ≡ false
unfolding is_space
no_space c low high = ground arith

trim_start-Visible : (s : Text) → Visible s → trim_start s ≡ s
unfolding trim_start
trim_start-Visible [] h = refl
trim_start-Visible (c ∷ s) (low, high, h) = rw (no_space c low high) refl

trim_end-Visible : (s : Text) → Visible s → trim_end s ≡ s
unfolding trim_end
trim_end-Visible [] h = refl
trim_end-Visible (c ∷ s) (low, high, h) = rw (no_space c low high, trim_end-Visible s h) refl

pub trim-Visible : (s : Text) → Visible s → trim s ≡ s
unfolding trim
trim-Visible s h = ap trim_end (trim_start-Visible s h) ∙ trim_end-Visible s h
