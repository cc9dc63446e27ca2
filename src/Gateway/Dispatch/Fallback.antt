-- ===== src/Gateway/Dispatch/Fallback.antt =====
-- Which candidate serves a request (gateway/gateway.go).
use llmgw.Base.{
  ℕ, suc, ◌≡◌, ◌↔◌, ◌⊎◌, inl, inr, refl, ap, ◌∙◌, String, List, [], ◌∷◌, Option, none, some, Bool,
  true, false, Bool-cases, Option-cases, if◌then◌else◌, subst,
}
use llmgw.Gateway.Route.{Operation}
use llmgw.Gateway.Router.{ResolvedRoute}
use llmgw.Gateway.Errors.{Failure, fallback_eligible}
use llmgw.Gateway.Dispatch.{
  ExecutionStage, dispatched, first_byte, Invocation, returned, failed_with, Dispatched, executed,
  unserved, unknown_provider, unsupported_by_provider, Verdict, passes, ends, judged, verdict,
  dispatch_from, dispatch,
}
use llmgw.Gateway.Dispatch.Eligible.{
  AllowsFallback, fallback-AllowsFallback, AllowsFallback-fallback,
}

module _ (providers : String → Option (Operation → Bool)) (invoke : ℕ → Invocation) where
  -- The provider of the route supports the operation.
  abbrev pub IsSupported : ResolvedRoute → Type 0
  IsSupported route =
      (supports : Operation → Bool) × (providers route.route.provider ≡ some supports)
      × (supports route.request.operation ≡ true)

  -- The call that the loop makes for the route returns, as a stream or not.
  pub data Serves : ℕ → ResolvedRoute → ExecutionStage → Type 0 where
    whole :
        (number : ℕ) (route : ResolvedRoute)
        → IsSupported route
        → invoke number ≡ returned false
        → Serves number route dispatched
    streamed :
        (number : ℕ) (route : ResolvedRoute)
        → IsSupported route
        → invoke number ≡ returned true
        → Serves number route first_byte

  -- The route is left for the next one.
  pub data PassedOver (number : ℕ) (route : ResolvedRoute) : Type 0 where
    unregistered : providers route.route.provider ≡ none → PassedOver number route
    unsupported :
        (supports : Operation → Bool)
        → providers route.route.provider ≡ some supports
        → supports route.request.operation ≡ false
        → PassedOver number route
    failed_over :
        (e : Failure)
        → IsSupported route
        → invoke number ≡ failed_with e none
        → AllowsFallback e
        → PassedOver number route

Verdict-cases : (v : Verdict) → ((e : Failure) × (v ≡ passes e)) ⊎ ((d : Dispatched) × (v ≡ ends d))
Verdict-cases (passes e) = inl (e, refl)
Verdict-cases (ends d) = inr (d, refl)

neither_passes :
    (b : Bool) (f e : Failure) → (if b then passes f else ends (unserved f)) ≡ passes e → b ≡ true
neither_passes true f e h = refl
neither_passes false f e h = absurd cc

unserved_executed :
    (b : Bool) (f : Failure) (k : ℕ) (r : ResolvedRoute) (s : ExecutionStage)
    → ¬ ((if b then passes f else ends (unserved f)) ≡ ends (executed k r s))
unserved_executed true f k r s = λ q. cc
unserved_executed false f k r s = λ q. cc

module _ (providers : String → Option (Operation → Bool)) (invoke : ℕ → Invocation) where
  judged-PassedOver :
      (number : ℕ) (route : ResolvedRoute) (call : Invocation) (e : Failure)
      → IsSupported providers invoke route
      → invoke number ≡ call
      → judged number route call ≡ passes e
      → PassedOver providers invoke number route
  judged-PassedOver number route (returned b) e o c h = absurd cc
  judged-PassedOver number route (failed_with f (some x)) e o c h = absurd cc
  judged-PassedOver number route (failed_with f none) e o c h =
      failed_over f o c
        (fallback-AllowsFallback f (neither_passes (fallback_eligible (some f)) f e h))

  judged-Serves :
      (number k : ℕ) (route r : ResolvedRoute) (s : ExecutionStage) (call : Invocation)
      → IsSupported providers invoke route
      → invoke number ≡ call
      → judged number route call ≡ ends (executed k r s)
      → Serves providers invoke number route s × (number ≡ k) × (route ≡ r)
  judged-Serves number k route r s (returned true) o c h =
      let stage : first_byte ≡ s = cc in
      (subst (Serves providers invoke number route) stage (streamed number route o c), cc, cc)
  judged-Serves number k route r s (returned false) o c h =
      let stage : dispatched ≡ s = cc in
      (subst (Serves providers invoke number route) stage (whole number route o c), cc, cc)
  judged-Serves number k route r s (failed_with f (some x)) o c h = absurd cc
  judged-Serves number k route r s (failed_with f none) o c h =
      absurd (unserved_executed (fallback_eligible (some f)) f k r s h)

  -- The decision on a route is its verdict.
  verdict-PassedOver :
      (number : ℕ) (route : ResolvedRoute) (e : Failure)
      → verdict providers invoke number route ≡ passes e
      → PassedOver providers invoke number route
  unfolding verdict
  verdict-PassedOver number route e h = elim (Option-cases (providers route.route.provider)) [
    | inl p ↦ unregistered p
    | inr (supports, p) ↦ elim (Bool-cases (supports route.request.operation)) [
      | inl q ↦
          judged-PassedOver number route (invoke number) e (supports, p, q) refl
            (rw (p, q, verdict) at h)
      | inr q ↦ unsupported supports p q
    ]
  ]

  verdict-Serves :
      (number k : ℕ) (route r : ResolvedRoute) (s : ExecutionStage)
      → verdict providers invoke number route ≡ ends (executed k r s)
      → Serves providers invoke number route s × (number ≡ k) × (route ≡ r)
  unfolding verdict
  verdict-Serves number k route r s h = elim (Option-cases (providers route.route.provider)) [
    | inl p ↦ absurd (passes_ends unknown_provider (rw (p, verdict) at h))
    | inr (supports, p) ↦ elim (Bool-cases (supports route.request.operation)) [
      | inl q ↦
          judged-Serves number k route r s (invoke number) (supports, p, q) refl
            (rw (p, q, verdict) at h)
      | inr q ↦ absurd (passes_ends unsupported_by_provider (rw (p, q, verdict) at h))
    ]
  ]
    where
      passes_ends : (f : Failure) → ¬ (passes f ≡ ends (executed k r s))
      passes_ends f = λ x. cc

  PassedOver-verdict :
      (number : ℕ) (route : ResolvedRoute)
      → PassedOver providers invoke number route
      → (e : Failure) × (verdict providers invoke number route ≡ passes e)
  unfolding verdict
  PassedOver-verdict number route (unregistered p) = (unknown_provider, rw (p, verdict) refl)
  PassedOver-verdict number route (unsupported supports p q) =
      (unsupported_by_provider, rw (p, q, verdict) refl)
  PassedOver-verdict number route (failed_over e o c a) =
      (e, rw (o.1, o.2, c, AllowsFallback-fallback e a, verdict) refl)

  Serves-verdict :
      (number : ℕ) (route : ResolvedRoute) (s : ExecutionStage)
      → Serves providers invoke number route s
      → verdict providers invoke number route ≡ ends (executed number route s)
  unfolding verdict
  Serves-verdict number route _ (whole _ _ o c) = rw (o.1, o.2, c, verdict) refl
  Serves-verdict number route _ (streamed _ _ o c) = rw (o.1, o.2, c, verdict) refl

  -- Of the candidates, of which the first has the given number, the one with the number k serves the
  -- request at a stage, and all before it are passed over.
  pub data Reaches : ℕ → List ResolvedRoute → ℕ → ResolvedRoute → ExecutionStage → Type 0 where
    here :
        (number : ℕ) (route : ResolvedRoute) (candidates : List ResolvedRoute) (s : ExecutionStage)
        → Serves providers invoke number route s
        → Reaches number (route ∷ candidates) number route s
    there :
        (number : ℕ) (route : ResolvedRoute) (candidates : List ResolvedRoute) (k : ℕ)
        (r : ResolvedRoute) (s : ExecutionStage)
        → PassedOver providers invoke number route
        → Reaches (suc number) candidates k r s
        → Reaches number (route ∷ candidates) k r s

  Reaches-dispatch_from :
      (number : ℕ) (last : Option Failure) (candidates : List ResolvedRoute) (k : ℕ)
      (r : ResolvedRoute) (s : ExecutionStage)
      → Reaches number candidates k r s
      → dispatch_from providers invoke number last candidates ≡ executed k r s
  unfolding dispatch_from
  Reaches-dispatch_from number last _ _ r s (here _ _ candidates _ v) =
      rw (Serves-verdict number r s v, dispatch_from) refl
  Reaches-dispatch_from number last _ k r s (there _ route candidates _ _ _ p h) =
      let v = PassedOver-verdict number route p in
      rw (v.1, dispatch_from) (Reaches-dispatch_from (suc number) (some v.0) candidates k r s h)

  here_at :
      (number k : ℕ) (route r : ResolvedRoute) (candidates : List ResolvedRoute)
      (s : ExecutionStage)
      → Serves providers invoke number route s
      → number ≡ k
      → route ≡ r
      → Reaches number (route ∷ candidates) k r s
  here_at number k route r candidates s v n e =
      subst (λ j. Reaches number (route ∷ candidates) j r s) n
        (subst (λ x. Reaches number (route ∷ candidates) number x s) e
          (here number route candidates s v))

  dispatch_from-Reaches :
      (number : ℕ) (last : Option Failure) (candidates : List ResolvedRoute) (k : ℕ)
      (r : ResolvedRoute) (s : ExecutionStage)
      → dispatch_from providers invoke number last candidates ≡ executed k r s
      → Reaches number candidates k r s
  unfolding dispatch_from
  dispatch_from-Reaches number last [] k r s h = absurd cc
  dispatch_from-Reaches number last (route ∷ candidates) k r s h =
      elim (Verdict-cases (verdict providers invoke number route)) [
        | inl (e, v) ↦ there number route candidates k r s (verdict-PassedOver number route e v) (
            dispatch_from-Reaches (suc number) (some e) candidates k r s
              (rw (v, dispatch_from) at h))
        | inr (d, v) ↦
            (let w = verdict-Serves number k route r s (v ∙ ap ends (rw (v, dispatch_from) at h)) in
              here_at number k route r candidates s w.0 w.1 w.2)
      ]

  -- A candidate serves the request exactly when its provider supports the operation and its call
  -- returns (then the stage is that of a stream or of a whole response), and every candidate before it
  -- is passed over: its provider is not registered or does not support the operation, or its call fails
  -- while the request's context lives, with an error that allows a fallback. Such an error is not an
  -- `APIError`, or it is one that allows a fallback, or one whose disposition is not set, with a status
  -- of 500 or more, 408, 409, 425 or 429. No later candidate counts.
  pub dispatch_iff :
      (candidates : List ResolvedRoute) (k : ℕ) (r : ResolvedRoute) (s : ExecutionStage)
      → (dispatch providers invoke candidates ≡ executed k r s) ↔ Reaches 1 candidates k r s
  unfolding dispatch
  dispatch_iff candidates k r s =
      (dispatch_from-Reaches 1 none candidates k r s, Reaches-dispatch_from 1 none candidates k r s)
