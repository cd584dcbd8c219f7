-- ===== src/Common/Attempts.antt =====
-- A property of `n` attempts in a row, the first of which is attempt `a`.
use Prim.Native.Nat.{ℕ, zero, suc, ◌+◌, ◌<◌}
use mathlib.Core.Path.{◌≡◌, subst}
use native.Mathlib.Omega.{arith}

module _ {κ} (P : ℕ → Type κ) where
  abbrev pub Every : (a n : ℕ) → Type κ
  Every a n = (i : ℕ) → i < n → P (a + i)

  plus_zero : (a : ℕ) → a ≡ a + 0
  plus_zero a = omega arith

  zero_plus : (i : ℕ) → 0 + i ≡ i
  zero_plus i = omega arith

  suc_plus : (a n : ℕ) → suc a + n ≡ a + suc n
  suc_plus a n = omega arith

  pub at_start : (a : ℕ) → P a → P (a + 0)
  at_start a p = subst P (plus_zero a) p

  pub at_next : (a n : ℕ) → P (suc a + n) → P (a + suc n)
  at_next a n p = subst P (suc_plus a n) p

  pub from_zero : (i : ℕ) → P (0 + i) → P i
  from_zero i p = subst P (zero_plus i) p

  pub Every-nil : (a : ℕ) → Every a 0
  Every-nil a i h = elim h [ ]

  pub Every-cons : (a n : ℕ) → P a → Every (suc a) n → Every a (suc n)
  Every-cons a n p rest zero h = at_start a p
  Every-cons a n p rest (suc i) h = at_next a i (rest i (omega arith))
