-- ===== src/Common/Outcome.antt =====
-- What a call of the SDK ends in: a value, or an exception of src/errors.ts. The message and the
-- details of an exception are left out; its class decides how a caller reacts.
use mathlib.Core.Path.{◌≡◌, refl}
use mathlib.Core.Bool.{Bool, true, false}
use coralswap_sdk.Common.Tests.{if◌then◌else◌}

-- The classes that the modelled code throws. `range` is the `RangeError` that BigInt division by
-- zero raises, and `plain` a bare `Error`.
pub data SdkError : Type 0 where
  validation insufficient_liquidity pair_not_found deadline transaction : SdkError
  circuit_open pool_exhausted not_configured range plain : SdkError
  parsing simulation order_not_found invalid_operation stale_oracle decode_failed : SdkError

pub data Result {ℓ} (A : Type ℓ) : Type ℓ where
  ok : A → Result A
  err : SdkError → Result A

infixr 5 ◌>>=◌ ◌>>◌
-- `await m` followed by the rest of the function: an exception skips the rest.
abbrev pub ◌>>=◌ {ℓ κ} : {A : Type ℓ} {B : Type κ} → Result A → (A → Result B) → Result B
◌>>=◌ m rest = elim m [ ok value ↦ rest value | err thrown ↦ err thrown ]

-- `if (c) throw e;`
abbrev pub throw_if : Bool → SdkError → Result (Unit {0})
throw_if c thrown = if c then err thrown else ok tt

abbrev pub ◌>>◌ {κ} : {B : Type κ} → Result (Unit {0}) → Result B → Result B
check >> rest = check >>= λ _. rest

-- `try { m } catch (e) { handler(e) }`
abbrev pub catch {ℓ} : {A : Type ℓ} → Result A → (SdkError → A) → A
catch (ok value) handler = value
catch (err thrown) handler = handler thrown

-- A call that returned: its first step returned, and the rest returned on what that gave.
pub bind-returned {ℓ κ} :
    {A : Type ℓ} {B : Type κ} (m : Result A) (rest : A → Result B) {b : B}
    → (m >>= rest) ≡ ok b
    → record { value : A; first : m ≡ ok value; then_rest : rest value ≡ ok b }
bind-returned (ok value) rest e = record { value = value; first = refl; then_rest = e }
bind-returned (err thrown) rest e = cc

-- A call that returned has passed its guard.
pub guard-passed {κ} :
    {B : Type κ} (c : Bool) (thrown : SdkError) (rest : Result B) {b : B}
    → (throw_if c thrown >> rest) ≡ ok b
    → (c ≡ false) × (rest ≡ ok b)
guard-passed true thrown rest e = cc
guard-passed false thrown rest e = (refl, e)

pub ok-injective {ℓ} : {A : Type ℓ} {a b : A} → ok a ≡ ok b → a ≡ b
ok-injective e = cc
