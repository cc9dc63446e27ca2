-- ===== src/Lib.antt =====
-- A model of llmgw, a gateway between clients and providers of language models, with the theorems
-- about it.
--
-- A request passes the request interceptors (policy/request.go and policy/token.go), which narrow the
-- routes that the router resolves it to (gateway/gateway.go) under the limits of a store
-- (store/limits.go); gets a quota reservation (policy/quota.go on a store of store/store.go); and is
-- tried on one route after the other (dispatch, gateway/gateway.go) under the attempt policy
-- (policy/attempt.go: limiters, circuit breakers, retries). What each provider call used is accumulated
-- (gateway/usage.go), and settles the reservation.
--
--  - Amounts: the saturating int64 arithmetic of store/store.go (saturatingAddNonnegative,
--    exceedsLimit), gateway/usage.go, policy/quota.go and policy/token.go.
--  - Store: MemoryQuotaStore (store/store.go, and GetUsage of store/limits.go). Store/State has its
--    state; Store/Reserve, TopUp, Settle (Commit and Refund), Report (GetUsage) and Cleanup have the
--    operations, Store/Holds the changes of counters and values, Store/Settlements the record of
--    settled requests. Store/Keys and Store/Clock have the keys and the calendar. Store/Ledger compares
--    the running values with the live reservations, Store/Replay and its kin treat the record of
--    settlements, Store/History runs calls in sequence, and Store/Denial treats calls that fail.
--  - Store/Counters: MemoryCounterStore (store/store.go).
--  - Store/Limits: the stores of quota limits (store/limits.go): MemoryQuotaLimitStore and the checks of
--    a limit (with validateLimitSpec of gateway/config.go) in Limits itself, CachedQuotaLimitStore in
--    Limits/Cache, with the interleavings of its calls in Limits/Cache/World, and
--    RefreshingQuotaLimitStore in Limits/Refreshing.
--  - Gateway: Route and Router (Router.Resolve, prepareRoute and rotateWeighted of
--    gateway/gateway.go, on the routes of gateway/config.go), Errors (APIError, fallbackEligible,
--    providerStatusError, validateProviderResult), Dispatch (Engine.dispatch and CandidatePreflight),
--    Prefetch (prefetchStream and prefetchedReadCloser), and Usage (gateway/usage.go).
--  - Policy: Request (the interceptors of policy/request.go, TokenValidation, and their sequence in
--    app/app.go), Estimate (policy/token.go), Attempt (WrapAttempt of policy/attempt.go), Attempt/Stream
--    (attemptLifecycleStream), Attempt/Rates (checkRates), Breaker (Breaker of policy/attempt.go),
--    Limiter (limiter and its map, policy/attempt.go), Quota (the arithmetic and settleReserved of
--    policy/quota.go), Quota/Attempts (the functions of Quota.Wrap that reserve, release and reconcile
--    provider calls) and Quota/Ending (how Quota.Wrap settles a request).
--  - Base: numbers, tests, lists and maps. Examples: the theorems at concrete inputs.
--
-- Conventions. Go's int and int64 are Base/Int's ℤ with its wrap-around at 64 bits; a duration is
-- such a number of nanoseconds. A time is the number of nanoseconds since Go's zero time. Each
-- operation that holds a lock is one function from state to state; the clock readings that it makes
-- are arguments. What another component answers to the retry loop, to the dispatch or to a store is an
-- argument too: a function of the number of the call. Keys that the source formats as strings are
-- structured values. A map that the source iterates over is an association list, and the other maps are
-- functions. Errors are values of Result.
--
-- Bounds. Loops over lists are structural recursion. The retry loop and the loop of the first read of a
-- stream recurse on the number of turns that the source gives them, so no fuel is added. Theorems about
-- amounts ask for int64 values, which Go's types ensure; the ledger theorems ask in addition that what
-- is held of a key stays below the largest int64, since the source cuts off sums there.
--
-- Not modelled: HTTP and JSON (api, proxy), SQL and the Lua scripts of the Redis store (store/limits.go,
-- store/redis.go), metrics (observer), wiring (app, cmd), authentication (policy/jwt.go, gateway/jwt.go).
-- The float64 prices of a usage, the FNV-1a and SHA-256 hashes, the tokenizers, and the planners,
-- preflights, counters and builders of providers are parameters. Goroutines that renew a slot or call a
-- hook are left out. The first reservation of Quota.Wrap and its renewal, the changes of an execution's stage and
-- the checks of a configuration other than those of a limit are not modelled either.
mod Base
pub mod Amounts
pub mod Store
pub mod Gateway
pub mod Policy
mod Examples
