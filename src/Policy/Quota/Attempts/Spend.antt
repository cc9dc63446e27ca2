-- ===== src/Policy/Quota/Attempts/Spend.antt =====
-- The money that is held for a request's calls (policy/quota.go).
use llmgw.Base.{
  ℕ, ◌+◌, ◌<◌, ◌≡◌, refl, sym, subst, pos_part, max_int64, arith, String, String-discrete, List, [],
  ◌∷◌, Option, none, some, lookup, Option-cases, inl, inr,
}
use llmgw.Store.Usage.{EstimatedUsage, ActualUsage}
use llmgw.Gateway.Errors.{Failure}
use llmgw.Policy.Quota.{consume_reservation_credit}
use llmgw.Policy.Quota.Attempts.{
  AttemptReservations, no_reservations, refused_by, reserved_once, reserve_attempt, release_attempt,
  overage_of, reconciled_with, reconciled, ReservationOperation, reserves, releases, reconciles,
  perform,
}
use llmgw.Policy.Quota.Attempts.Money.{IsAmount}
use llmgw.Policy.Quota.Attempts.Kept.{
  spend_of, spends_of, IsConserved, KeptBy, reserved_with-KeptBy, released_from-KeptBy,
  reconciled_with-KeptBy,
}

-- The money that a step settles: that of a reconciled call.
abbrev pub settled_with : Option EstimatedUsage → ActualUsage → Option Failure → ℕ
settled_with none actual answer = 0
settled_with (some u) actual answer = elim (refused_by (overage_of u actual) answer) [
  | none ↦ pos_part actual.spend_micros
  | some e ↦ 0
]

abbrev pub settles : ReservationOperation → AttemptReservations → ℕ
settles (reserves id delta answer) s = 0
settles (releases id) s = 0
settles (reconciles id actual answer) s =
    settled_with (lookup String-discrete id s.attempts) actual answer

-- The amounts of an operation are not negative.
abbrev pub HasAmounts : ReservationOperation → Type 0
HasAmounts (reserves id delta answer) = IsAmount delta.estimated_spend_micros
HasAmounts (releases id) = Unit
HasAmounts (reconciles id actual answer) = IsAmount actual.spend_micros

plus_zero : (n : ℕ) → n ≡ n + 0
plus_zero n = omega arith

settled_none :
    (u : EstimatedUsage) (actual : ActualUsage) (answer : Option Failure)
    → refused_by (overage_of u actual) answer ≡ none
    → settled_with (some u) actual answer ≡ pos_part actual.spend_micros
settled_none u actual answer q = rw (q, settled_with) refl

settled_some :
    (u : EstimatedUsage) (actual : ActualUsage) (answer : Option Failure) (e : Failure)
    → refused_by (overage_of u actual) answer ≡ some e
    → settled_with (some u) actual answer ≡ 0
settled_some u actual answer e q = rw (q, settled_with) refl

reconciled_with-refused :
    (o : Option Failure) (id : String) (u : EstimatedUsage) (actual : ActualUsage)
    (s : AttemptReservations) (e : Failure)
    → o ≡ some e
    → (reconciled_with o id u actual s).0 ≡ s
reconciled_with-refused none id u actual s e q = absurd cc
reconciled_with-refused (some x) id u actual s e q = refl

module _ (n : ℕ) (s : AttemptReservations) (c : IsConserved n s) where
  reserved_once-KeptBy :
      (o : Option EstimatedUsage) (id : String) (delta : EstimatedUsage) (answer : Option Failure)
      → IsAmount delta.estimated_spend_micros
      → KeptBy n (reserved_once o id delta answer s).0
  reserved_once-KeptBy (some u) id delta answer d b = c
  reserved_once-KeptBy none id delta answer d b =
      reserved_with-KeptBy n s c (refused_by (consume_reservation_credit delta s.credit).0 answer)
        id delta d b

  reconciled-KeptBy :
      (o : Option EstimatedUsage) (id : String) (actual : ActualUsage) (answer : Option Failure)
      → IsAmount actual.spend_micros
      → lookup String-discrete id s.attempts ≡ o
      → KeptBy (n + settled_with o actual answer) (reconciled o id actual answer s).0
  reconciled-KeptBy none id actual answer w h b = subst (λ k. IsConserved k s) (plus_zero n) c
  reconciled-KeptBy (some u) id actual answer w h b =
      elim (Option-cases (refused_by (overage_of u actual) answer)) [
        | inl q ↦
            subst
              (λ k.
                IsConserved (n + k)
                  (reconciled_with (refused_by (overage_of u actual) answer) id u actual s).0)
              (sym (settled_none u actual answer q))
              (reconciled_with-KeptBy n s c (refused_by (overage_of u actual) answer) id u actual w
                h q b)
        | inr (e, q) ↦
            subst
              (λ k.
                IsConserved (n + k)
                  (reconciled_with (refused_by (overage_of u actual) answer) id u actual s).0)
              (sym (settled_some u actual answer e q))
              (subst (IsConserved (n + 0))
                (sym (
                  reconciled_with-refused (refused_by (overage_of u actual) answer) id u actual s e
                    q))
                (subst (λ k. IsConserved k s) (plus_zero n) c))
      ]

perform-KeptBy :
    (n : ℕ) (s : AttemptReservations) (op : ReservationOperation)
    → IsConserved n s
    → HasAmounts op
    → KeptBy (n + settles op s) (perform op s).0
unfolding perform
perform-KeptBy n s (reserves id delta answer) c a b =
    subst (λ k. IsConserved k (reserve_attempt id delta answer s).0) (plus_zero n)
      (reserved_once-KeptBy n s c (lookup String-discrete id s.attempts) id delta answer a b)
perform-KeptBy n s (releases id) c a b =
    subst (λ k. IsConserved k (release_attempt id s)) (plus_zero n)
      (released_from-KeptBy n s c (lookup String-discrete id s.attempts) id refl b)
perform-KeptBy n s (reconciles id actual answer) c a b =
    reconciled-KeptBy n s c (lookup String-discrete id s.attempts) id actual answer a refl b

-- A sequence of operations, and the money that it settles.
unfoldable pub perform_all : List ReservationOperation → AttemptReservations → AttemptReservations
unfolding perform
perform_all [] s = s
perform_all (op ∷ ops) s = perform_all ops (perform op s).0

abbrev pub settled_by : List ReservationOperation → AttemptReservations → ℕ
settled_by [] s = 0
settled_by (op ∷ ops) s = settles op s + settled_by ops (perform op s).0

-- Every operation has amounts that are not negative, and what is held stays below the largest int64.
abbrev pub StaysBelow : List ReservationOperation → AttemptReservations → Type 0
StaysBelow [] s = Unit
StaysBelow (op ∷ ops) s =
    HasAmounts op
    × (spend_of (perform op s).0.reserve < max_int64)
    × StaysBelow ops (perform op s).0

perform_all-IsConserved :
    (n : ℕ) (ops : List ReservationOperation) (s : AttemptReservations)
    → IsConserved n s
    → StaysBelow ops s
    → IsConserved (n + settled_by ops s) (perform_all ops s)
unfolding perform_all
perform_all-IsConserved n [] s c h = subst (λ k. IsConserved k s) (plus_zero n) c
perform_all-IsConserved n (op ∷ ops) s c h =
    subst (λ k. IsConserved k (perform_all ops (perform op s).0)) (omega arith)
      (perform_all-IsConserved (n + settles op s) ops (perform op s).0
        (perform-KeptBy n s op c h.0 h.1) h.2)

no_reservations-IsConserved : IsConserved 0 no_reservations
no_reservations-IsConserved = record {
  held = omega arith;
  reserve_int64 = omega arith;
  credit_int64 = omega arith;
  amounts = tt;
}

-- After any sequence of reservations of calls, releases and reconciliations, whatever the store answers
-- to their top-ups: the money that the request holds is exactly the sum of the estimates of the calls
-- that are reserved, the credit that later calls may use, and what the reconciled calls have used. So
-- no money is held twice for a retry, and none is lost. The amounts are not negative, and what is held
-- stays below the largest int64, at which the sums are cut off.
pub perform_all-conserves :
    (ops : List ReservationOperation)
    → StaysBelow ops no_reservations
    → spend_of (perform_all ops no_reservations).reserve
      ≡ spend_of (perform_all ops no_reservations).credit
        + spends_of (perform_all ops no_reservations).attempts
        + settled_by ops no_reservations
perform_all-conserves ops h =
    let c = perform_all-IsConserved 0 ops no_reservations no_reservations-IsConserved h in
    omega (arith, c.held)
