-- ===== src/Store/Counters/Windows.antt =====
-- What counters count, whether expired ones are pruned or not (store/store.go).
use llmgw.Base.{
  ℕ, suc, ◌≡◌, ◌≢◌, ◌≤◌, ◌<◌, ◌∙◌, refl, sym, ap, subst, ◌==◌, ◌%◌, ℤ, String, String-discrete,
  List, [], ◌∷◌, Option, none, some, true, lookup, insert, lookup-insert, ite, ite-holds, if-holds,
  arith,
}
use llmgw.Amounts.{zero64, saturating_add_nonnegative}
use llmgw.Store.Clock.{add_time}
use llmgw.Store.State.{CounterEntry}
use llmgw.Store.Counters.{
  CounterStore, is_expired, prune_counters, pruned_entries, value_now, add_live,
  memory_counter_prune_every,
}

-- No two counters have one key.
abbrev pub IsUnique : List (String × CounterEntry) → Type 0
IsUnique [] = Unit
IsUnique ((key, e) ∷ entries) = (lookup String-discrete key entries ≡ none) × IsUnique entries

-- An entry that has expired by `now` counts for nothing at t.
abbrev pub IsOver : ℕ → ℕ → Option CounterEntry → Type 0
IsOver now t none = Unit
IsOver now t (some e) = e.expires ≤ now → e.expires < t

lookup-prune_counters :
    (key : String) (now : ℕ) (entries : List (String × CounterEntry))
    → lookup String-discrete key entries ≡ none
    → lookup String-discrete key (prune_counters now entries) ≡ none
unfolding lookup prune_counters
lookup-prune_counters key now [] h = refl
lookup-prune_counters key now ((k, e) ∷ entries) h =
    ground (arith, lookup-prune_counters key now entries)

prune_counters-IsUnique :
    (now : ℕ) (entries : List (String × CounterEntry))
    → IsUnique entries
    → IsUnique (prune_counters now entries)
unfolding prune_counters
prune_counters-IsUnique now [] u = tt
prune_counters-IsUnique now ((k, e) ∷ entries) (h, u) =
    if-holds IsUnique (is_expired now e) (prune_counters now entries)
      ((k, e) ∷ prune_counters now entries) (λ _. prune_counters-IsUnique now entries u)
      (λ _. (lookup-prune_counters k now entries h, prune_counters-IsUnique now entries u))

expired_value :
    (now t : ℕ) (e : CounterEntry)
    → is_expired now e ≡ true
    → IsOver now t (some e)
    → value_now (some e) t ≡ zero64
expired_value now t e x o = ground (arith, o)

value-ite :
    {A : Type 0} (now t : ℕ) (d : Dec A) (x y z : Option CounterEntry)
    → IsOver now t (ite d x z)
    → (IsOver now t z → value_now y t ≡ value_now z t)
    → value_now (ite d x y) t ≡ value_now (ite d x z) t
value-ite now t (yes a) x y z o f = refl
value-ite now t (no n) x y z o f = f o

value-prune_counters :
    (key : String) (now t : ℕ) (entries : List (String × CounterEntry))
    → IsUnique entries
    → IsOver now t (lookup String-discrete key entries)
    → value_now (lookup String-discrete key (prune_counters now entries)) t
      ≡ value_now (lookup String-discrete key entries) t
unfolding lookup prune_counters
value-prune_counters key now t [] u o = refl
value-prune_counters key now t ((k, e) ∷ entries) (h, u) o =
    if-holds
      (λ (m : List (String × CounterEntry)).
        value_now (lookup String-discrete key m) t
        ≡ value_now (lookup String-discrete key ((k, e) ∷ entries)) t)
      (is_expired now e) (prune_counters now entries) ((k, e) ∷ prune_counters now entries)
      (λ x.
        ite-holds
          (λ w.
            IsOver now t w
            → value_now (lookup String-discrete key (prune_counters now entries)) t ≡ value_now w t)
          (String-discrete key k) (some e) (lookup String-discrete key entries)
          (λ p i.
            ap (λ w. value_now w t)
              (lookup-prune_counters key now entries
                (subst (λ j. lookup String-discrete j entries ≡ none) (sym p) h))
            ∙ sym (expired_value now t e x i))
          (λ _ i. value-prune_counters key now t entries u i) o)
      (λ _.
        value-ite now t (String-discrete key k) (some e) _ _ o
          (λ i. value-prune_counters key now t entries u i))

ite_no : {A : Type 0} (d : Dec A) (x y : Option CounterEntry) → ¬ A → ite d x y ≡ y
ite_no (yes a) x y n = absurd (n a)
ite_no (no m) x y n = refl

module _ (key : String) (delta ttl : ℤ) (now : ℕ) (s : CounterStore) where
  value-pruned_entries :
      (j : String) (t : ℕ)
      → IsUnique s.entries
      → IsOver now t (lookup String-discrete j s.entries)
      → value_now (lookup String-discrete j (pruned_entries now s)) t
        ≡ value_now (lookup String-discrete j s.entries) t
  value-pruned_entries j t u o =
      if-holds
        (λ (m : List (String × CounterEntry)).
          value_now (lookup String-discrete j m) t
          ≡ value_now (lookup String-discrete j s.entries) t)
        (suc s.operations % memory_counter_prune_every == 0) (prune_counters now s.entries)
        s.entries (λ _. value-prune_counters j now t s.entries u o) (λ _. refl)

  IsOver-now :
      (o : Option CounterEntry)
      → ((e : CounterEntry) → o ≡ some e → e.expires ≢ now)
      → IsOver now now o
  IsOver-now none x = tt
  IsOver-now (some e) x = λ h. omega (arith, h, x e refl)

  IsOver-later : (o : Option CounterEntry) (t : ℕ) → now < t → IsOver now t o
  IsOver-later none t l = tt
  IsOver-later (some e) t l = λ h. omega (arith, h, l)

  lookup-insert_other :
      (e : CounterEntry) (j : String)
      → j ≢ key
      → lookup String-discrete j (insert String-discrete key e (pruned_entries now s))
        ≡ lookup String-discrete j (pruned_entries now s)
  lookup-insert_other e j n =
      lookup-insert String-discrete key j e (pruned_entries now s)
      ∙ ite_no (String-discrete j key) (some e) _ n

  abbrev stored_as : ℤ → CounterEntry
  stored_as v = record { value = saturating_add_nonnegative v delta; expires = add_time now ttl }

  lookup-insert_same :
      (e : CounterEntry)
      → lookup String-discrete key (insert String-discrete key e (pruned_entries now s)) ≡ some e
  lookup-insert_same e =
      lookup-insert String-discrete key key e (pruned_entries now s)
      ∙ ite-holds (λ x. x ≡ some e) (String-discrete key key) (some e) _ (λ _. refl)
          (λ n. absurd (n refl))

  -- Add gives the value that the key's counter has, if it has not expired, plus the delta, cut off at 0
  -- and at the largest int64. It stores this value under the key, with an expiry of ttl from now; and
  -- every other counter reads at each later time as it did before. This is so whether the call prunes
  -- the expired counters or not, provided that the key's own counter does not expire at the very instant
  -- of the call, when the pruning would count.
  pub add_live_lem :
      IsUnique s.entries
      → ((e : CounterEntry) → lookup String-discrete key s.entries ≡ some e → e.expires ≢ now)
      → ((add_live key delta ttl now s).1
          ≡ saturating_add_nonnegative (value_now (lookup String-discrete key s.entries) now) delta)
        × (lookup String-discrete key (add_live key delta ttl now s).0.entries
            ≡ some (record {
              value =
                  saturating_add_nonnegative
                    (value_now (lookup String-discrete key s.entries) now)
                    delta;
              expires = add_time now ttl;
            }))
        × ((j : String) (t : ℕ)
            → j ≢ key
            → now < t
            → value_now (lookup String-discrete j (add_live key delta ttl now s).0.entries) t
              ≡ value_now (lookup String-discrete j s.entries) t)
  unfolding add_live
  add_live_lem u x =
      let own : value_now (lookup String-discrete key (pruned_entries now s)) now
          ≡ value_now (lookup String-discrete key s.entries) now =
        value-pruned_entries key now u (IsOver-now (lookup String-discrete key s.entries) x) in
      (
        ap (λ v. saturating_add_nonnegative v delta) own,
        lookup-insert_same _ ∙ ap (λ v. some (stored_as v)) own,
        λ j t n l.
            ap (λ w. value_now w t) (lookup-insert_other _ j n)
            ∙ value-pruned_entries j t u (IsOver-later (lookup String-discrete j s.entries) t l),
      )
