-- ===== src/Gateway/Usage/Charges.antt =====
-- What the calls of a request are charged (`AttemptUsageAccumulator`, gateway/usage.go).
use Prim.Native.Nat.{min}
use llmgw.Base.{
  ℕ, ◌+◌, ◌≡◌, refl, ◌∙◌, ap, ℤ, pos, pos_part, max_int64, IsInt64, arith, List, [], ◌∷◌, String,
  String-discrete, Bool, some, Option-cases, inl, inr, lookup, lookup-insert, lookup-remove, All,
}
use llmgw.Amounts.{saturating_usage_add}
use llmgw.Amounts.Laws.{saturating_usage_add_lem}
use llmgw.Store.Usage.{ActualUsage}
use llmgw.Gateway.Usage.{Usage, normalize_attempt_usage}
use llmgw.Gateway.Usage.Accumulator.{
  Entries, begin, cancel, complete, charge_of, with_charge, total_charge, no_actual_usage,
  new_entry, completed_entry,
}

pub data Event (P : Type 0) : Type 0 where
  begins : String → P → Usage → Event P
  cancels : String → Event P
  completes : String → Usage → Bool → Event P

module _ {P : Type 0} (spend : P → Usage → ℤ) where
  unfoldable pub step : Entries P → Event P → Entries P
  unfolding begin cancel complete
  step entries (begins id pricing estimate) = begin spend id pricing estimate entries
  step entries (cancels id) = cancel spend id entries
  step entries (completes id usage partial) = complete spend id usage partial entries

  unfoldable pub run : Entries P → List (Event P) → Entries P
  unfolding step
  run entries [] = entries
  run entries (e ∷ events) = run (step entries e) events

  step-charge_of :
      (id : String) (charge : ActualUsage) (entries : Entries P) (e : Event P)
      → charge_of id entries ≡ some charge
      → charge_of id (step entries e) ≡ some charge
  unfolding step charge_of begin cancel complete
  step-charge_of id charge entries (begins j pricing estimate) h = ground (
    arith,
    lookup-insert String-discrete j id (new_entry spend pricing (normalize_attempt_usage estimate))
        entries,
  )
  step-charge_of id charge entries (cancels j) h =
      ground (arith, lookup-remove String-discrete j id entries)
  step-charge_of id charge entries (completes j usage partial) h =
      elim (Option-cases (lookup String-discrete j entries)) [
        | inl l ↦ rw (l, step) (ground arith)
        | inr (entry, l) ↦
            rw (l, step)
              (ground (
                arith,
                l,
                lookup-insert String-discrete j id (completed_entry spend entry usage partial)
                    entries,
              ))
      ]

  -- A call is charged once: after it is completed, no later begin, cancel or completion of it or of
  -- any other call changes what it is finally charged.
  pub run-charge_of :
      (id : String) (charge : ActualUsage) (entries : Entries P) (events : List (Event P))
      → charge_of id entries ≡ some charge
      → charge_of id (run entries events) ≡ some charge
  unfolding run
  run-charge_of id charge entries [] h = h
  run-charge_of id charge entries (e ∷ events) h =
      run-charge_of id charge (step entries e) events (step-charge_of id charge entries e h)

-- The amounts of a charge are int64 values.
pub record AreInt64 (charge : ActualUsage) : Type 0 where
  pub input : IsInt64 charge.input_tokens
  pub output : IsInt64 charge.output_tokens
  pub spend : IsInt64 charge.spend_micros

abbrev pub sum_of : {P : Type 0} → (ActualUsage → ℤ) → Entries P → ℕ
sum_of f [] = 0
sum_of f ((id, entry) ∷ entries) = pos_part (f entry.charge) + sum_of f entries

abbrev pub capped : ℕ → ℤ
capped n = pos (min max_int64 n)

record IsCapped (total : ActualUsage) (i o m : ℕ) : Type 0 where
  input : total.input_tokens ≡ capped i
  output : total.output_tokens ≡ capped o
  spend : total.spend_micros ≡ capped m

capped_add :
    (n : ℕ) (t z : ℤ)
    → t ≡ capped n
    → IsInt64 z
    → saturating_usage_add t z ≡ capped (n + pos_part z)
capped_add n t z e h =
    rw e (saturating_usage_add_lem (capped n) z (ground arith) h ∙ ap pos (ground arith))

total_charge-IsCapped :
    {P : Type 0} (total : ActualUsage) (i o m : ℕ) (entries : Entries P)
    → IsCapped total i o m
    → All (λ e. AreInt64 e.1.charge) entries
    → IsCapped
        (total_charge total entries)
        (i + sum_of (λ c. c.input_tokens) entries)
        (o + sum_of (λ c. c.output_tokens) entries)
        (m + sum_of (λ c. c.spend_micros) entries)
unfolding total_charge
total_charge-IsCapped total i o m [] c h = record {
  input = c.input ∙ ap capped (omega arith);
  output = c.output ∙ ap capped (omega arith);
  spend = c.spend ∙ ap capped (omega arith);
}
total_charge-IsCapped total i o m ((id, entry) ∷ entries) c h =
    let charge = entry.charge in
    let rest =
      total_charge-IsCapped (with_charge total charge) (i + pos_part charge.input_tokens)
        (o + pos_part charge.output_tokens) (m + pos_part charge.spend_micros) entries
        (record {
          input = capped_add i total.input_tokens charge.input_tokens c.input h.0.input;
          output = capped_add o total.output_tokens charge.output_tokens c.output h.0.output;
          spend = capped_add m total.spend_micros charge.spend_micros c.spend h.0.spend;
        })
        h.1 in
    record {
      input = rest.input ∙ ap capped (omega arith);
      output = rest.output ∙ ap capped (omega arith);
      spend = rest.spend ∙ ap capped (omega arith);
    }

-- The total that `total` reports is, in each dimension, the exact sum of the charges of all calls
-- (negative ones count as 0), cut off at the largest int64, in whatever order the map is read: no
-- call is lost or counted twice.
pub total_charge_lem :
    {P : Type 0} (entries : Entries P)
    → All (λ e. AreInt64 e.1.charge) entries
    → ((total_charge no_actual_usage entries).input_tokens
        ≡ capped (sum_of (λ c. c.input_tokens) entries))
      × ((total_charge no_actual_usage entries).output_tokens
          ≡ capped (sum_of (λ c. c.output_tokens) entries))
      × ((total_charge no_actual_usage entries).spend_micros
          ≡ capped (sum_of (λ c. c.spend_micros) entries))
total_charge_lem entries h =
    let all =
      total_charge-IsCapped no_actual_usage 0 0 0 entries
        (record { input = refl; output = refl; spend = refl }) h in
    (
      all.input ∙ ap capped (omega arith),
      all.output ∙ ap capped (omega arith),
      all.spend ∙ ap capped (omega arith),
    )
