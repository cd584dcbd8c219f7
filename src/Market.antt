-- ===== src/Market.antt =====
-- What the SDK reads from the chain, through src/client.ts and the contract clients of src/contracts.
-- Addresses are only compared, so they are numbers. The contracts and the RPC server are outside the
-- SDK: their answers are a parameter, one answer for each question while a call of the SDK runs.
use coralswap_sdk.Common.{ℕ, ℤ, Bool, Option, Result}

abbrev pub Address : Type 0
Address = ℕ

pub record Market : Type 0 where
  -- `client.getPairAddress(tokenIn, tokenOut)`, where it does not throw
  pub get_pair_address : Address → Address → Option Address
  -- `pair.getReserves()`, `pair.getDynamicFee()` and `pair.getTokens()`
  pub get_reserves : Address → Result (ℤ × ℤ)
  pub get_dynamic_fee : Address → Result ℤ
  pub get_tokens : Address → Result (Address × Address)
  -- `lpToken(address).totalSupply()` and `lpToken(address).balance(owner)`
  pub total_supply : Address → Result ℤ
  pub balance : Address → Address → Result ℤ

-- JavaScript's numbers where they need not be whole, and `Math.round`. Nothing is assumed of them.
pub record Double : Type 1 where
  pub Number : Type 0
  pub from_ℤ : ℤ → Number
  pub minus : Number → Number → Number
  pub times : Number → Number → Number
  pub over : Number → Number → Number
  pub round : Number → ℤ

-- The settings that a call reads from the client: `client.config.defaultSlippageBps`,
-- `client.getDeadline()`, `client.publicKey`, and the address check of the Stellar SDK.
pub record Client : Type 0 where
  pub default_slippage_bps : Option ℤ
  pub get_deadline : ℕ
  pub public_key : Address
  pub is_valid_address : Address → Bool
