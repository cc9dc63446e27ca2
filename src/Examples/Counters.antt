-- ===== src/Examples/Counters.antt =====
-- A counter before its expiry, and at the very instant of it (store/store.go).
use llmgw.Base.{
  ℕ, ◌≡◌, ◌≢◌, ◌<◌, refl, pos, String, String-discrete, lookup, [], ◌∷◌, some, ◌-ℤ◌, ◌+ℤ◌, arith,
}
use llmgw.Amounts.{saturating_add_nonnegative}
use llmgw.Store.Clock.{add_time}
use llmgw.Store.State.{CounterEntry}
use llmgw.Store.Counters.{CounterStore, value_now, add_live}
use llmgw.Store.Counters.Windows.{IsUnique, add_live_lem}

abbrev five : CounterEntry
five = record { value = pos 5; expires = 100 }

abbrev counters : CounterStore
counters = record { entries = ("a", five) ∷ []; operations = 7 }

five-IsUnique : IsUnique counters.entries
unfolding lookup
five-IsUnique = (refl, tt)

five_expires :
    (e : CounterEntry) → lookup String-discrete "a" counters.entries ≡ some e → e.expires ≢ 50
unfolding lookup String-discrete
five_expires e h = λ q. expires_differs e h q
  where
    expires_differs : (e : CounterEntry) → some five ≡ some e → e.expires ≢ 50
    expires_differs e h = ground arith

add_live_example :
    ((add_live "a" (pos 3) (pos 60) 50 counters).1
      ≡ saturating_add_nonnegative
          (value_now (lookup String-discrete "a" counters.entries) 50)
          (pos 3))
    × (lookup String-discrete "a" (add_live "a" (pos 3) (pos 60) 50 counters).0.entries
        ≡ some (record {
          value =
              saturating_add_nonnegative
                (value_now (lookup String-discrete "a" counters.entries) 50)
                (pos 3);
          expires = add_time 50 (pos 60);
        }))
    × ((j : String) (t : ℕ)
        → j ≢ "a"
        → 50 < t
        → value_now
            (lookup String-discrete j (add_live "a" (pos 3) (pos 60) 50 counters).0.entries)
            t
          ≡ value_now (lookup String-discrete j counters.entries) t)
add_live_example = add_live_lem "a" (pos 3) (pos 60) 50 counters five-IsUnique five_expires

-- At the time 100 the counter is kept, but the 256th call prunes it first.
kept_at_expiry : (add_live "a" (pos 3) (pos 60) 100 counters).1 ≡ pos 8
unfolding add_live lookup String-discrete ◌-ℤ◌ ◌+ℤ◌
kept_at_expiry = refl

pruned_at_expiry :
    (add_live "a" (pos 3) (pos 60) 100 (record counters { operations = 255 })).1 ≡ pos 3
unfolding add_live lookup String-discrete ◌-ℤ◌ ◌+ℤ◌
pruned_at_expiry = refl
