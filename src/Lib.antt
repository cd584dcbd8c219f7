-- ===== src/Lib.antt =====
-- The CoralSwap SDK (package @coralswap/sdk): a TypeScript library for clients of CoralSwap, a
-- constant-product exchange on Soroban. An application asks the swap module (src/modules/swap.ts)
-- for a quote, which reads pairs through the contract clients (src/contracts) and prices every hop
-- with the formulas of src/utils/pair-math.ts; it then submits the swap through src/client.ts,
-- whose calls pass the rate limiter, the connection pool and the retry loop of src/utils, and the
-- submission is followed on the chain until it is confirmed or may be sent again.
--
-- Which file models what:
--   Common        shared names. Common/Int is BigInt: signed integers whose division truncates and
--                 throws at zero. Common/Outcome has the exceptions of src/errors.ts as values.
--                 Common/Attempts states properties of attempts in a row.
--   Market        what the SDK reads of the chain: pairs, reserves, fees, tokens.
--   PairMath      src/utils/pair-math.ts: sqrt, computeMint, computeBurn, getAmountOut, getAmountIn.
--   Swap          the quotes of src/modules/swap.ts: Swap/Hops has getAmountOut and getAmountIn of
--                 the module, computeHops and computeHopsReverse; Swap/Quote has getDirectQuote and
--                 computeCompoundedFeeBps; Swap/MultiHop has getQuote, getMultiHopQuote and
--                 simulateSwap, with the checks of src/schemas/swap.ts.
--   PriceGuard    src/utils/redstone.ts: verifyRedStonePayload and estimateUsdValue.
--   Conservation  src/contracts/reserve-conservation.ts: verifyReserveConservation.
--   Amounts       src/utils/amounts.ts: the arithmetic, and in Amounts/Decimal the text of amounts.
--   Fractions     src/utils/math.ts: Fraction and Percent.
--   Submission    src/utils/idempotent-resubmission.ts; Submission/Swap is
--                 submitSwapWithIdempotentResubmission of src/modules/swap.ts, Submission/Liquidity
--                 src/utils/submit-idempotent.ts, Submission/Rebuild src/utils/transactionStatus.ts.
--   Router        src/modules/router.ts: Router/Graph has buildTokenGraph, findAllPaths and
--                 filterZeroLiquidityPaths, Router/Best the quote of a path and the choice of one,
--                 Router/Find the cache and findOptimalPath.
--   Oracle        OracleModule of src/modules/oracle.ts.
--   Trade         buildSwapOperation, execute, executeMultiHop and swapWithPriceGuard of
--                 src/modules/swap.ts, over the quotes, the guard and the submission.
--   LimitOrders   src/modules/limit-orders.ts: LimitOrders/ScVal and LimitOrders/Parse read the values of
--                 the contract; LimitOrders/Build has the reads and the checks, LimitOrders/Orders
--                 placing, cancelling and replacing, LimitOrders/Resubmit their submission.
--   Events        EventCursor and TypedEventCursor of src/utils/event-cursor.ts: Events/Page is the body of
--                 the loop over the pages, Events/Cursor where a scan starts and what it returns.
--   StopLoss      src/modules/stop-loss.ts; StopLoss/Query has getStopLossOrders and its queries.
--   Dca           src/modules/dca.ts.
--   Liquidity     getAddLiquidityQuote and getPosition of src/modules/liquidity.ts.
--   Polling       TransactionPoller of src/utils/polling.ts.
--   Retry         src/utils/retry.ts: CircuitBreaker, getCircuitBreaker and withRetry;
--                 Retry/Resubmit is src/utils/idempotent-resubmit.ts.
--   RateLimiter   src/utils/rate-limiter.ts. A method is a function to the next state and to the
--                 promises that settle; RateLimiter/Runs has the calls and the timer callbacks as
--                 steps between histories.
--   Pool          src/utils/connection-pool.ts; Pool/Rounds has its calls as steps.
-- The other files of a folder prove what its definitions do, and Tests runs them.
--
-- State is passed from call to call: a class is a record of its fields, a method a function to the
-- next record. An exception is an `err`, or an ending of a loop.
--
-- Bounds and fuel. The loop of sqrt recurs on the well-founded order of its candidate, since a
-- candidate only stays if it is smaller; no fuel is needed. The loops of withRetry, of the
-- submissions, of the poller and of the pool's pass recur on the rounds that are left, as their
-- `for` loops do, and `_flush` on its queue. A scan of events, a `while (true)`, has fuel: one page
-- more than there are events is enough with a server that gives out cursors. The search of
-- findAllPaths has fuel for the routes it takes from its queue, of which the number of pairs gives
-- a bound.
--
-- What is not modelled, and why:
--   * the Stellar SDK, the RPC server and the contracts: what they answer is a parameter, by the
--     number of the attempt or, for reads in one quote, one answer for each question; an
--     exception of client.getPairAddress is left out of the quotes, the router and the liquidity;
--   * the clock: a time is an argument, and every read of it in a loop is a parameter;
--   * numbers that are not whole: rates, factors and delays are whole numbers, and the one formula
--     on fractions (compoundPriceImpact) has the operations of Double as a parameter, of which
--     nothing is assumed;
--   * the text of messages, labels, addresses, hashes, URLs and symbols: addresses, hashes, URLs
--     and symbols are numbers, since they are only compared, and messages are left out;
--   * logging, and the aliases resolved by resolveTokenIdentifier, which is taken as the identity;
--   * the other modules over these parts (staking, governance and the others).
pub mod Common
pub mod Market
pub mod PairMath
pub mod Swap
pub mod Retry
pub mod RateLimiter
pub mod Submission
pub mod Pool
pub mod Polling
pub mod Amounts
pub mod Conservation
pub mod PriceGuard
pub mod Events
pub mod Fractions
pub mod StopLoss
pub mod Router
pub mod Oracle
pub mod Dca
pub mod Trade
pub mod LimitOrders
pub mod Liquidity
