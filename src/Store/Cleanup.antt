-- ===== src/Store/Cleanup.antt =====
-- `cleanupExpired` of store/store.go, which every operation runs first.
use llmgw.Base.{
  ℕ, String, String-discrete, if◌then◌else◌, Bool, true, false, Option, none, some, List, [], ◌∷◌,
  remove, insert,
}
use llmgw.Amounts.{zero64}
use llmgw.Store.State.{CounterEntry, Reservation, QuotaStore}
use llmgw.Store.Settlements.{cleanup_settlements, record_settlement}
use llmgw.Store.Holds.{has_passed, release_hold}

abbrev pub drop_reservation : String → QuotaStore → QuotaStore
drop_reservation id s = record s { reservations = remove String-discrete id s.reservations }

abbrev pub put_reservation : String → Reservation → QuotaStore → QuotaStore
put_reservation id res s = record s { reservations = insert String-discrete id res s.reservations }

-- One round of the walk of `cleanupExpired` over the reservations.
unfoldable pub expire_reservation : String → Reservation → ℕ → QuotaStore → QuotaStore
unfolding release_hold record_settlement
expire_reservation id res now s =
    if has_passed res.expires now
    then record_settlement id true now (drop_reservation id (release_hold res zero64 now s))
    else s

unfoldable pub expire_reservations : List (String × Reservation) → ℕ → QuotaStore → QuotaStore
unfolding expire_reservation
expire_reservations [] now s = s
expire_reservations ((id, res) ∷ reservations) now s =
    expire_reservations reservations now (expire_reservation id res now s)

abbrev pub unexpired_counter : Option CounterEntry → ℕ → Option CounterEntry
unexpired_counter none now = none
unexpired_counter (some e) now = if has_passed e.expires now then none else some e

abbrev pub time_has_passed : Option ℕ → ℕ → Bool
time_has_passed none now = false
time_has_passed (some t) now = has_passed t now

-- The last two loops of `cleanupExpired`: counters and values whose time has passed are deleted.
unfoldable pub drop_expired_amounts : ℕ → QuotaStore → QuotaStore
drop_expired_amounts now s = record s {
  counters = λ k. unexpired_counter (s.counters k) now;
  values = λ k. if time_has_passed (s.value_expires k) now then none else s.values k;
  value_expires = λ k. if time_has_passed (s.value_expires k) now then none else s.value_expires k;
}

unfoldable pub cleanup_expired : ℕ → QuotaStore → QuotaStore
unfolding expire_reservations cleanup_settlements drop_expired_amounts
cleanup_expired now s =
    drop_expired_amounts now (cleanup_settlements now (expire_reservations s.reservations now s))
