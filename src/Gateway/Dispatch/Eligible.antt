-- ===== src/Gateway/Dispatch/Eligible.antt =====
-- Which errors allow a fallback to another route (gateway/gateway.go, fallbackEligible).
use llmgw.Base.{
  ◌≡◌, ◌⊎◌, inl, inr, refl, none, some, Bool, true, false, Bool-cases, Option-cases, or_cases, ℤ,
  pos, leb_ℤ, ◌≤ℤ◌, eqb_ℤ, eqb_ℤ→eq, ◌||◌,
}
use llmgw.Gateway.Errors.{
  Failure, ApiError, is_transient_status, api_fallback_eligible, fallback_eligible,
}

-- The status is a server's, or one of the four that count as transient.
abbrev pub IsTransient : ℤ → Type 0
IsTransient status =
    (pos 500 ≤ℤ status)
    ⊎ (status ≡ pos 408)
    ⊎ (status ≡ pos 409)
    ⊎ (status ≡ pos 425)
    ⊎ (status ≡ pos 429)

-- Another route may be tried after the error: it is not an `APIError`; or its disposition is set, and
-- allows a fallback; or its disposition is not set, and it allows one or has a transient status.
pub data AllowsFallback (e : Failure) : Type 0 where
  unclassified : e.api_error ≡ none → AllowsFallback e
  disposed :
      (a : ApiError)
      → e.api_error ≡ some a
      → a.disposition_set ≡ true
      → a.fallback ≡ true
      → AllowsFallback e
  transient :
      (a : ApiError)
      → e.api_error ≡ some a
      → a.disposition_set ≡ false
      → (a.fallback ≡ true) ⊎ IsTransient a.status
      → AllowsFallback e

-- A disjunction of three tests.
or_cases3 : (a b c : Bool) → (a || b || c) ≡ true → (a ≡ true) ⊎ (b ≡ true) ⊎ (c ≡ true)
or_cases3 true b c h = inl refl
or_cases3 false true c h = inr (inl refl)
or_cases3 false false c h = inr (inr h)

eqb-IsTransient : (status : ℤ) → is_transient_status status ≡ true → IsTransient status
eqb-IsTransient status h =
    elim (or_cases3 (eqb_ℤ status (pos 408) || eqb_ℤ status (pos 409)) (eqb_ℤ status (pos 425))
      (eqb_ℤ status (pos 429)) h) [
        | inl p ↦ elim (or_cases (eqb_ℤ status (pos 408)) (eqb_ℤ status (pos 409)) p) [
          | inl q ↦ inr (inl (eqb_ℤ→eq status (pos 408) q))
          | inr q ↦ inr (inr (inl (eqb_ℤ→eq status (pos 409) q)))
        ]
        | inr (inl p) ↦ inr (inr (inr (inl (eqb_ℤ→eq status (pos 425) p))))
        | inr (inr p) ↦ inr (inr (inr (inr (eqb_ℤ→eq status (pos 429) p))))
      ]

when-IsTransient :
    (a : ApiError)
    → (leb_ℤ (pos 500) a.status || a.fallback || is_transient_status a.status) ≡ true
    → (a.fallback ≡ true) ⊎ IsTransient a.status
when-IsTransient a h =
    elim (or_cases3 (leb_ℤ (pos 500) a.status) a.fallback (is_transient_status a.status) h) [
      | inl p ↦ inr (inl p)
      | inr (inl p) ↦ inl p
      | inr (inr p) ↦ inr (eqb-IsTransient a.status p)
    ]

third : (a b : Bool) → (a || b || true) ≡ true
third true b = refl
third false true = refl
third false false = refl

second : (a c : Bool) → (a || true || c) ≡ true
second true c = refl
second false c = refl

IsTransient-when :
    (a : ApiError)
    → (a.fallback ≡ true) ⊎ IsTransient a.status
    → (leb_ℤ (pos 500) a.status || a.fallback || is_transient_status a.status) ≡ true
IsTransient-when a (inl f) = rw f (second (leb_ℤ (pos 500) a.status) (is_transient_status a.status))
IsTransient-when a (inr (inl s)) = rw s refl
IsTransient-when a (inr (inr (inl s))) = rw s (third false a.fallback)
IsTransient-when a (inr (inr (inr (inl s)))) = rw s (third false a.fallback)
IsTransient-when a (inr (inr (inr (inr (inl s))))) = rw s (third false a.fallback)
IsTransient-when a (inr (inr (inr (inr (inr s))))) = rw s (third false a.fallback)

api_fallback-AllowsFallback :
    (e : Failure) (a : ApiError)
    → e.api_error ≡ some a
    → api_fallback_eligible a ≡ true
    → AllowsFallback e
api_fallback-AllowsFallback e a q h = elim (Bool-cases a.disposition_set) [
  | inl s ↦ disposed a q s (rw s at h)
  | inr s ↦ transient a q s (when-IsTransient a (rw s at h))
]

pub fallback-AllowsFallback : (e : Failure) → fallback_eligible (some e) ≡ true → AllowsFallback e
unfolding fallback_eligible
fallback-AllowsFallback e h = elim (Option-cases e.api_error) [
  | inl q ↦ unclassified q
  | inr (a, q) ↦ api_fallback-AllowsFallback e a q (rw (q, fallback_eligible) at h)
]

pub AllowsFallback-fallback : (e : Failure) → AllowsFallback e → fallback_eligible (some e) ≡ true
unfolding fallback_eligible
AllowsFallback-fallback e (unclassified q) = rw (q, fallback_eligible) refl
AllowsFallback-fallback e (disposed a q s f) = rw (q, s, fallback_eligible) f
AllowsFallback-fallback e (transient a q s t) = rw (q, s, fallback_eligible) (IsTransient-when a t)
