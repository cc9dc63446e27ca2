-- ===== src/Policy/Breaker.antt =====
-- The circuit breaker of policy/attempt.go. Times are as in Store/Clock: nanoseconds since Go's
-- zero time, which is 0. Each method runs under the breaker's lock, so it is one step.
pub mod Ttl
pub mod Evidence
pub mod Opening
pub mod Admission
pub mod Retention
use llmgw.Base.{
  ℕ, suc, ℤ, pos, negsuc, String, String-discrete, ◌+◌, ◌-◌, ◌%◌, ◌==◌, ltb, ltb_ℤ, leb_ℤ, min_ℤ,
  ◌+ℤ◌, ◌-ℤ◌, ◌*ℤ◌, ◌/ℤ◌, if◌then◌else◌, Bool, true, false, not, ◌&&◌, ◌||◌, Option, none, some,
  List, [], ◌∷◌, lookup, insert,
}
use llmgw.Amounts.{zero64, max64}
use llmgw.Store.Clock.{add_time, is_zero_time}
use llmgw.Gateway.Route.{Route}

-- 10, and 30 seconds.
abbrev pub maximum_route_retries : ℤ
maximum_route_retries = pos 10

abbrev pub thirty_seconds : ℤ
thirty_seconds = pos 30_000_000_000

-- 10 minutes.
abbrev pub local_policy_state_idle_ttl : ℕ
local_policy_state_idle_ttl = 600_000_000_000

abbrev pub local_policy_prune_every : ℕ
local_policy_prune_every = 256

unfoldable pub route_attempt_count : ℤ → ℤ
route_attempt_count retries =
    if leb_ℤ retries zero64 then pos 1 else min_ℤ retries maximum_route_retries +ℤ pos 1

unfoldable pub route_attempt_state_ttl : ℤ → ℤ → ℤ
unfolding route_attempt_count
route_attempt_state_ttl route_timeout retries =
    let timeout = if leb_ℤ route_timeout zero64 then thirty_seconds else route_timeout in
    let tries = route_attempt_count retries in
    if ltb_ℤ ((max64 -ℤ thirty_seconds) /ℤ tries) timeout
    then max64
    else timeout *ℤ tries +ℤ thirty_seconds

-- `open_until` and the other times are 0 while they are not set.
pub record BreakerState : Type 0 where
  pub failures : ℤ
  pub open_until : ℕ
  pub retain_until : ℕ
  pub last_admission : ℕ
  pub last_failure : ℕ
  pub last_success : ℕ

pub record Breaker : Type 0 where
  pub states : List (String × BreakerState)
  pub operations : ℕ

abbrev pub closed_state : BreakerState
closed_state = record {
  failures = zero64;
  open_until = 0;
  retain_until = 0;
  last_admission = 0;
  last_failure = 0;
  last_success = 0;
}

abbrev pub new_breaker : Breaker
new_breaker = record { states = []; operations = 0 }

-- A missing key reads as the zero state.
abbrev pub state_or_closed : Option BreakerState → BreakerState
state_or_closed none = closed_state
state_or_closed (some st) = st

abbrev pub state_of : Breaker → String → BreakerState
state_of b key = state_or_closed (lookup String-discrete key b.states)

abbrev pub put_state : String → BreakerState → Breaker → Breaker
put_state key st b = record b { states = insert String-discrete key st b.states }

-- `routeBreakerKey`: the route's name and a digest of what it calls. `digest` stands for the
-- first eight bytes, in hexadecimal, of the SHA-256 of the parts.
abbrev pub route_breaker_key : (List String → String) → (String → String → String) → Route → String
route_breaker_key digest join route = join route.name (
    digest (
      route.provider ∷ route.backend ∷ route.base_url ∷ route.upstream_model ∷ route.model
      ∷ route.api_version ∷ []))

abbrev pub later_of : ℕ → ℕ → ℕ
later_of a b = if ltb a b then b else a

-- An admission is later than the one before it, even if the clock stands still or goes back.
abbrev pub admission_time : ℕ → ℕ → ℕ
admission_time last now = if not (is_zero_time last) && not (ltb last now) then last + 1 else now

abbrev pub admitted : BreakerState → ℤ → ℕ → BreakerState
admitted st ttl now = record st {
  last_admission = admission_time st.last_admission now;
  retain_until = later_of st.retain_until (add_time now ttl);
}

-- The key and `ttl` are those of the route: `routeBreakerKey` and `routeAttemptStateTTL`.
unfoldable pub allow_attempt : String → ℤ → ℕ → Breaker → Breaker × Bool × ℕ
allow_attempt key ttl now b =
    let st = state_of b key in
    if ltb now st.open_until
    then (b, false, now)
    else (put_state key (admitted st ttl now) b, true, admission_time st.last_admission now)

-- May the idle state be forgotten?
abbrev pub is_idle : ℕ → BreakerState → Bool
is_idle now st =
    let seen = later_of st.last_failure st.last_success in
    not (ltb now st.open_until || ltb now st.retain_until)
    && (is_zero_time seen || not (ltb (now - local_policy_state_idle_ttl) seen))

unfoldable pub prune : ℕ → List (String × BreakerState) → List (String × BreakerState)
prune now [] = []
prune now ((key, st) ∷ states) =
    let rest = prune now states in if is_idle now st then rest else (key, st) ∷ rest

-- Every 256th outcome prunes. (The counter is a uint64; it does not wrap in practice.)
unfoldable pub prune_states : ℕ → Breaker → Breaker
unfolding prune
prune_states now b =
    let counted = record b { operations = suc b.operations } in
    if suc b.operations % local_policy_prune_every == 0
    then record counted { states = prune now b.states }
    else counted

abbrev pub started_or_now : ℕ → ℕ → ℕ
started_or_now started_at now = if is_zero_time started_at then now else started_at

-- The state after one more failure, with the circuit closed.
abbrev pub counted_failure : ℤ → ℤ → ℕ → BreakerState → BreakerState
counted_failure failures_limit cooldown_limit now st =
    let threshold = if leb_ℤ failures_limit zero64 then pos 1 else failures_limit in
    let cooldown = if leb_ℤ cooldown_limit zero64 then pos 1_000_000_000 else cooldown_limit in
    let failures = st.failures +ℤ pos 1 in
    if leb_ℤ threshold failures
    then record st { open_until = add_time now cooldown; failures = zero64 }
    else record st { failures = failures }

-- An outcome of a call admitted no later than the newest opposite outcome is stale.
abbrev pub is_stale : ℕ → ℕ → Bool
is_stale newest started_at = not (is_zero_time newest) && not (ltb newest started_at)

-- What a failure makes of the state; `none` where the source leaves the map alone.
unfoldable pub failed_state : ℤ → ℤ → ℕ → ℕ → BreakerState → Option BreakerState
failed_state failures_limit cooldown_limit started_at now st =
    let noted = record st { last_failure = later_of st.last_failure started_at } in
    if is_stale st.last_success started_at
    then none
    else if ltb now st.open_until
    then some noted
    else some (counted_failure failures_limit cooldown_limit now noted)

unfoldable pub succeeded_state : ℕ → BreakerState → Option BreakerState
succeeded_state started_at st =
    if is_stale st.last_failure started_at
    then none
    else some (record st {
      failures = zero64;
      open_until = 0;
      last_success = later_of st.last_success started_at;
    })

abbrev pub write_back : String → Option BreakerState → Breaker → Breaker
write_back key none b = b
write_back key (some st) b = put_state key st b

unfoldable pub fail_attempt : String → ℤ → ℤ → ℕ → ℕ → Breaker → Breaker
unfolding prune_states failed_state
fail_attempt key failures_limit cooldown_limit started_at now b =
    let pruned = prune_states now b in
    write_back key
      (failed_state failures_limit cooldown_limit (started_or_now started_at now) now
        (state_of pruned key))
      pruned

unfoldable pub success_attempt : String → ℕ → ℕ → Breaker → Breaker
unfolding prune_states succeeded_state
success_attempt key started_at now b =
    let pruned = prune_states now b in
    write_back key (succeeded_state (started_or_now started_at now) (state_of pruned key)) pruned
