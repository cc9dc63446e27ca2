-- ===== src/Store/Ledger/Cleanup.antt =====
-- Settling a request and cleaning the store keep the ledger (store/store.go).
use llmgw.Base.{
  ℕ, ◌≡◌, refl, sym, ap, ◌∙◌, true, none, some, List, [], ◌∷◌, arith, All, Bool, Bool-cases, String,
  String-discrete, lookup, remove, lookup-remove, inl, inr,
}
use llmgw.Amounts.{zero64}
use llmgw.Store.State.{Reservation, QuotaStore}
use llmgw.Store.Settlements.{record_settlement, cleanup_settlements}
use llmgw.Store.Holds.{has_passed, release_hold}
use llmgw.Store.Cleanup.{
  drop_reservation, expire_reservation, expire_reservations, drop_expired_amounts, cleanup_expired,
}
use llmgw.Store.Ledger.{Unique, IsLedger}
use llmgw.Store.Ledger.Frames.{release_scopes-IsFrame}
use llmgw.Store.Ledger.Release.{release-IsLedger}

-- The ledger reads the values, their expiries and the reservations only.
pub IsLedger-of :
    (s t : QuotaStore)
    → t.values ≡ s.values
    → t.value_expires ≡ s.value_expires
    → t.reservations ≡ s.reservations
    → IsLedger s
    → IsLedger t
IsLedger-of s t p q r v = record {
  exact = λ k held. rw (r, p) (v.exact k held);
  lasting = λ k held. rw q (v.lasting k held);
  unique = rw r v.unique;
  sound = rw r v.sound;
  fits = λ k held. rw r (v.fits k held);
}

pub record_settlement-IsLedger :
    (id : String) (expired : Bool) (now : ℕ) (s : QuotaStore)
    → IsLedger s
    → IsLedger (record_settlement id expired now s)
unfolding record_settlement
record_settlement-IsLedger id expired now s v =
    IsLedger-of s (record_settlement id expired now s) (ground arith) (ground arith) (ground arith)
      v

pub reservations-record_settlement :
    (id : String) (expired : Bool) (now : ℕ) (s : QuotaStore)
    → (record_settlement id expired now s).reservations ≡ s.reservations
unfolding record_settlement
reservations-record_settlement id expired now s = ground arith

-- These entries all stand in the map, each under its own key.
abbrev AllThere : List (String × Reservation) → List (String × Reservation) → Type 0
AllThere rs m = All (λ p. lookup String-discrete p.0 m ≡ some p.1) rs

AllThere-remove :
    (id : String) (rs m : List (String × Reservation))
    → lookup String-discrete id rs ≡ none
    → AllThere rs m
    → AllThere rs (remove String-discrete id m)
unfolding lookup
AllThere-remove id [] m h a = tt
AllThere-remove id ((j, r) ∷ rs) m h a = elim (String-discrete id j) [
  | yes e ↦ absurd (clash (ground arith))
  | no n ↦ (
    ground (arith, lookup-remove String-discrete id j m),
    AllThere-remove id rs m (ground arith) a.1,
  )
]
  where
    clash : some r ≡ none → ⊥
    clash e = cc

reservations-expire :
    (id : String) (res : Reservation) (now : ℕ) (s : QuotaStore)
    → has_passed res.expires now ≡ true
    → (expire_reservation id res now s).reservations ≡ remove String-discrete id s.reservations
unfolding expire_reservation
reservations-expire id res now s h =
    rw (h, expire_reservation)
      (reservations-record_settlement id true now
          (drop_reservation id (release_hold res zero64 now s))
        ∙ ap (remove String-discrete id) (kept s))
  where
    kept : (t : QuotaStore) → (release_hold res zero64 now t).reservations ≡ t.reservations
    kept = (release_scopes-IsFrame res.scopes res.held zero64 now).reservations

expire_reservation-IsLedger :
    (id : String) (res : Reservation) (now : ℕ) (s : QuotaStore)
    → IsLedger s
    → lookup String-discrete id s.reservations ≡ some res
    → IsLedger (expire_reservation id res now s)
unfolding expire_reservation
expire_reservation-IsLedger id res now s v found = elim (Bool-cases (has_passed res.expires now)) [
  | inl h ↦
      rw (h, expire_reservation)
        (record_settlement-IsLedger id true now _ (release-IsLedger id res zero64 now s v found))
  | inr h ↦ rw (h, expire_reservation) v
]

expire_reservations-IsLedger :
    (rs : List (String × Reservation)) (now : ℕ) (s : QuotaStore)
    → Unique rs
    → AllThere rs s.reservations
    → IsLedger s
    → IsLedger (expire_reservations rs now s)
unfolding expire_reservations expire_reservation
expire_reservations-IsLedger [] now s u a v = v
expire_reservations-IsLedger ((id, res) ∷ rs) now s u a v =
    expire_reservations-IsLedger rs now (expire_reservation id res now s) u.1 still
      (expire_reservation-IsLedger id res now s v a.0)
  where
    still : AllThere rs (expire_reservation id res now s).reservations
    still = elim (Bool-cases (has_passed res.expires now)) [
      | inl h ↦
          rw (reservations-expire id res now s h) (AllThere-remove id rs s.reservations u.0 a.1)
      | inr h ↦ rw (h, expire_reservation) a.1
    ]

AllThere-cons :
    (id : String) (r : Reservation) (rs m : List (String × Reservation))
    → lookup String-discrete id rs ≡ none
    → AllThere rs m
    → AllThere rs ((id, r) ∷ m)
unfolding lookup
AllThere-cons id r [] m h a = tt
AllThere-cons id r ((j, q) ∷ rs) m h a = elim (String-discrete id j) [
  | yes e ↦ absurd (clash (ground arith))
  | no n ↦ (ground (arith, λ (e : j ≡ id). n (sym e)), AllThere-cons id r rs m (ground arith) a.1)
]
  where
    clash : some q ≡ none → ⊥
    clash e = cc

AllThere-self : (m : List (String × Reservation)) → Unique m → AllThere m m
unfolding lookup
AllThere-self [] u = tt
AllThere-self ((id, r) ∷ m) u = (ground arith, AllThere-cons id r m m u.0 (AllThere-self m u.1))

drop_expired_amounts-IsLedger :
    (now : ℕ) (s : QuotaStore) → IsLedger s → IsLedger (drop_expired_amounts now s)
unfolding drop_expired_amounts
drop_expired_amounts-IsLedger now s v = record {
  exact = λ k held. rw (v.lasting k held) (v.exact k held);
  lasting = λ k held. rw (v.lasting k held) refl;
  unique = v.unique;
  sound = v.sound;
  fits = v.fits;
}

-- Expired reservations give back what they held; nothing else that is held changes.
pub cleanup_expired-IsLedger :
    (now : ℕ) (s : QuotaStore) → IsLedger s → IsLedger (cleanup_expired now s)
unfolding cleanup_expired cleanup_settlements
cleanup_expired-IsLedger now s v =
    drop_expired_amounts-IsLedger now
      (cleanup_settlements now (expire_reservations s.reservations now s))
      (IsLedger-of (expire_reservations s.reservations now s)
        (cleanup_settlements now (expire_reservations s.reservations now s)) refl refl refl
        (expire_reservations-IsLedger s.reservations now s v.unique
          (AllThere-self s.reservations v.unique) v))
