-- ===== src/Amounts/Tests.antt =====
-- Amounts at the edges of their ranges.
use coralswap_sdk.Common.{ℕ, ◌-◌, ◌^◌, ◌≡◌, refl, err, validation, pos, negsuc}
use coralswap_sdk.Amounts.{safe_mul, apply_bps, to_bps}

some_bps : (apply_bps (pos 1999) (pos 30) ≡ pos 5) × (to_bps (pos 1) (pos 3) ≡ pos 3333)
unfolding apply_bps to_bps
some_bps = (refl, refl)

-- The least number of 128 bits is refused.
abbrev half : ℕ
half = 2 ^ 126 - 1

least_refused : safe_mul (negsuc (2 ^ 126 - 1)) (pos 2) ≡ err validation
unfolding safe_mul
least_refused = refl
