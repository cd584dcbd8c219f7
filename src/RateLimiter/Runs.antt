-- ===== src/RateLimiter/Runs.antt =====
-- The life of a `RateLimiter` of src/utils/rate-limiter.ts: calls and timer callbacks, one after another.
use coralswap_sdk.Common.{ℕ, suc, ◌+◌, ◌≤◌, ◌≡◌, if◌then◌else◌, Bool, some, List, [], ◌∷◌, ◌++◌, ok}
use coralswap_sdk.RateLimiter.{
  RateLimiter, Settled, resolved, rejected, new_limiter, get_remaining_capacity, acquire,
  try_acquire, destroy, fire,
}

-- A limiter, the present time, who has called `acquire`, which of those promises settled, and how many
-- tokens were given out.
pub record History : Type 0 where
  pub limiter : RateLimiter
  pub now : ℕ
  pub asked : List ℕ
  pub settled : List Settled
  pub spent : ℕ

-- The tokens that a list of settled promises took.
abbrev pub taken : List Settled → ℕ
taken [] = 0
taken (resolved w ∷ rest) = suc (taken rest)
taken (rejected w ∷ rest) = taken rest

abbrev pub begin : RateLimiter → ℕ → History
begin l now = record { limiter = l; now = now; asked = []; settled = []; spent = 0 }

-- The limiter became `l`, `more` promises settled, `extra` ones were asked for, `spent` tokens given out.
abbrev pub after : History → ℕ → RateLimiter → List Settled → List ℕ → ℕ → History
after h now l more extra spent = record {
  limiter = l;
  now = now;
  asked = h.asked ++ extra;
  settled = h.settled ++ more;
  spent = h.spent + spent;
}

abbrev pub after_settling : History → ℕ → List ℕ → RateLimiter × List Settled → History
after_settling h now extra (l, more) = after h now l more extra (taken more)

abbrev pub after_trying : History → ℕ → RateLimiter × Bool → History
after_trying h now (l, granted) = after h now l [] [] (if granted then 1 else 0)

infix 45 ◌⟶◌
-- One call of a method, or the callback of the timer once it is due; time does not go back.
pub data ◌⟶◌ : History → History → Type 0 where
  asks :
      {h : History} (who now : ℕ)
      → h.now ≤ now
      → h ⟶ after_settling h now (who ∷ []) (acquire h.limiter who now)
  tries : {h : History} (now : ℕ) → h.now ≤ now → h ⟶ after_trying h now (try_acquire h.limiter now)
  looks :
      {h : History} (now : ℕ)
      → h.now ≤ now
      → h ⟶ record h { limiter = (get_remaining_capacity h.limiter now).0; now = now }
  destroys : {h : History} (now : ℕ) → h.now ≤ now → h ⟶ after_settling h now [] (destroy h.limiter)
  fires :
      {h : History} (at now : ℕ)
      → h.limiter.timer ≡ some at
      → at ≤ now
      → h.now ≤ now
      → h ⟶ after_settling h now [] (fire h.limiter now)

-- The histories of a limiter that was made at `start`.
pub data Reachable (rate burst start : ℕ) : History → Type 0 where
  made :
      {l : RateLimiter}
      → new_limiter rate burst start ≡ ok l
      → Reachable rate burst start (begin l start)
  then_step :
      {h h' : History} → Reachable rate burst start h → h ⟶ h' → Reachable rate burst start h'
