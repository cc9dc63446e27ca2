-- ===== src/Policy/Attempt/Rates/Requests.antt =====
-- The requests that the rates of a route make (policy/attempt.go, checkRates).
use Prim.Native.Nat.{min, max}
use llmgw.Amounts.{zero64, saturating_add}
use llmgw.Amounts.Laws.{saturating_add_lem}
use llmgw.Base.{
  subst, sym, ◌⊎◌, inl, inr, ℕ, zero, suc, ◌+◌, ◌≤ℤ◌, negsuc, pos_part, max_int64, IsInt64, ltb_ℤ,
  leb_ℤ, if◌then◌else◌, ◌++◌, arith, ◌≡◌, refl, List, [], ◌∷◌, pos, ℤ,
}
use llmgw.Gateway.Route.{Route}
use llmgw.Gateway.Usage.{Usage}
use llmgw.Policy.Attempt.Rates.{
  RateKind, rpm, tpm, RateRequest, safe_usage_total, rate_tokens, rate_request, rate_requests,
}

-- The count of tokens of a usage: the sum of input and output, cut off at the largest int64, or the
-- total if that is larger.
abbrev pub tokens_of : Usage → ℕ
tokens_of u =
    max (min max_int64 (pos_part u.input_tokens + pos_part u.output_tokens))
      (pos_part u.total_tokens)

-- What a call is counted with: its route's estimate, or else the request's, or one.
abbrev pub counted_tokens : ℕ → ℕ → ℕ
counted_tokens (suc own) other = suc own
counted_tokens zero (suc other) = suc other
counted_tokens zero zero = 1

abbrev pub AreInt64 : Usage → Type 0
AreInt64 u = IsInt64 u.input_tokens × IsInt64 u.output_tokens × IsInt64 u.total_tokens

larger : (x : ℕ) (t : ℤ) → (if ltb_ℤ (pos x) t then t else pos x) ≡ pos (max x (pos_part t))
larger x (pos t) = ground arith
larger x (negsuc t) = ground arith

counted :
    (x y : ℕ)
    → (let delta = if leb_ℤ (pos x) zero64 then pos y else pos x in
        if leb_ℤ delta zero64 then pos 1 else delta)
      ≡ pos (counted_tokens x y)
counted zero zero = refl
counted zero (suc y) = ground arith
counted (suc x) y = ground arith

safe_usage_total_lem : (u : Usage) → AreInt64 u → safe_usage_total u ≡ pos (tokens_of u)
unfolding safe_usage_total saturating_add
safe_usage_total_lem u (i, o, t) =
    rw (saturating_add_lem u.input_tokens u.output_tokens i o)
      (larger (min max_int64 (pos_part u.input_tokens + pos_part u.output_tokens)) u.total_tokens)

rate_tokens_lem :
    (e f : Usage)
    → AreInt64 e
    → AreInt64 f
    → rate_tokens e f ≡ pos (counted_tokens (tokens_of e) (tokens_of f))
rate_tokens_lem e f h k =
    rw (safe_usage_total_lem e h, safe_usage_total_lem f k) (counted (tokens_of e) (tokens_of f))

-- The requests that the limits of a route make of a call with the given tokens: one for each limit that
-- is set, with the limit as its rate; the calls count as 1, and the tokens as they are.
pub data Asks (route : Route) (tokens : ℕ) : List RateRequest → Type 0 where
  unlimited : route.limits.rpm ≤ℤ zero64 → route.limits.tpm ≤ℤ zero64 → Asks route tokens []
  calls_only :
      (m : ℕ)
      → route.limits.rpm ≡ pos (suc m)
      → route.limits.tpm ≤ℤ zero64
      → Asks route tokens
          (record { kind = rpm; route = route.name; rate = pos (suc m); n = pos 1 } ∷ [])
  tokens_only :
      (m : ℕ)
      → route.limits.rpm ≤ℤ zero64
      → route.limits.tpm ≡ pos (suc m)
      → Asks route tokens
          (record { kind = tpm; route = route.name; rate = pos (suc m); n = pos tokens } ∷ [])
  both :
      (l m : ℕ)
      → route.limits.rpm ≡ pos (suc l)
      → route.limits.tpm ≡ pos (suc m)
      → Asks route tokens (
          record { kind = rpm; route = route.name; rate = pos (suc l); n = pos 1 }
          ∷ record { kind = tpm; route = route.name; rate = pos (suc m); n = pos tokens }
          ∷ [])

sign_cases : (a : ℤ) → (a ≤ℤ zero64) ⊎ ((m : ℕ) × (a ≡ pos (suc m)))
sign_cases (pos zero) = inl refl
sign_cases (pos (suc m)) = inr (m, refl)
sign_cases (negsuc m) = inl refl

rate_request-unset :
    (kind : RateKind) (route : Route) (rate n : ℤ)
    → rate ≤ℤ zero64
    → rate_request kind route rate n ≡ []
rate_request-unset kind route (pos zero) n h = refl
rate_request-unset kind route (pos (suc m)) n h = ground arith
rate_request-unset kind route (negsuc m) n h = refl

rate_request-set :
    (kind : RateKind) (route : Route) (rate n k : ℤ) (m : ℕ)
    → rate ≡ pos (suc m)
    → n ≡ k
    → rate_request kind route rate n
      ≡ record { kind = kind; route = route.name; rate = pos (suc m); n = k } ∷ []
rate_request-set kind route rate n k m h e = rw (h, e) (when_set m)
  where
    when_set :
        (m : ℕ)
        → rate_request kind route (pos (suc m)) k
          ≡ record { kind = kind; route = route.name; rate = pos (suc m); n = k } ∷ []
    when_set m = ground arith

pub rate_requests-Asks :
    (route : Route) (e f : Usage)
    → AreInt64 e
    → AreInt64 f
    → Asks route (counted_tokens (tokens_of e) (tokens_of f)) (rate_requests route e f)
unfolding rate_requests
rate_requests-Asks route e f h k =
    let tokens = pos (counted_tokens (tokens_of e) (tokens_of f)) in
    let T : List RateRequest → Type 0 = Asks route (counted_tokens (tokens_of e) (tokens_of f)) in
    let both_parts : (xs ys : List RateRequest)
        → rate_request rpm route route.limits.rpm (pos 1) ≡ xs
        → rate_request tpm route route.limits.tpm (rate_tokens e f) ≡ ys
        → T (xs ++ ys)
        → T (rate_requests route e f) =
      λ xs ys p q t.
        subst (λ z. T (z ++ rate_request tpm route route.limits.tpm (rate_tokens e f))) (sym p)
          (subst (λ z. T (xs ++ z)) (sym q) t) in
    elim (sign_cases route.limits.rpm) [
      | inl p ↦ elim (sign_cases route.limits.tpm) [
        | inl q ↦
            both_parts _ _ (rate_request-unset rpm route route.limits.rpm (pos 1) p)
              (rate_request-unset tpm route route.limits.tpm (rate_tokens e f) q) (unlimited p q)
        | inr (m, q) ↦
            both_parts _ _ (rate_request-unset rpm route route.limits.rpm (pos 1) p)
              (rate_request-set tpm route _ _ tokens m q (rate_tokens_lem e f h k))
              (tokens_only m p q)
      ]
      | inr (l, p) ↦ elim (sign_cases route.limits.tpm) [
        | inl q ↦
            both_parts _ _ (rate_request-set rpm route _ (pos 1) (pos 1) l p refl)
              (rate_request-unset tpm route route.limits.tpm (rate_tokens e f) q) (calls_only l p q)
        | inr (m, q) ↦
            both_parts _ _ (rate_request-set rpm route _ (pos 1) (pos 1) l p refl)
              (rate_request-set tpm route _ _ tokens m q (rate_tokens_lem e f h k)) (both l m p q)
      ]
    ]
