-- ===== src/Store/Ledger/Growth.antt =====
-- What a new reservation or a top-up adds to the ledger (store/store.go).
use Prim.Native.Nat.{min}
use llmgw.Base.{
  ℕ, ◌+◌, ◌<◌, ◌≡◌, refl, ap, subst, ◌∙◌, ℤ, pos, negsuc, pos_part, IsInt64, ◌-ℤ◌, max_int64, true,
  false, none, some, List, [], ◌∷◌, arith, All, Bool, String, String-discrete, lookup, remove,
  insert, lookup-remove, if◌then◌else◌, ltb_ℤ, ◌||◌,
}
use llmgw.Amounts.{zero64, saturating_add_nonnegative}
use llmgw.Amounts.Laws.{saturating_usage_add_lem, saturating_add_nonnegative_lem}
use llmgw.Store.Usage.{
  EstimatedUsage, ScopedLimit, estimated_total_tokens, normalize_estimated_usage,
}
use llmgw.Store.Clock.{day_of, month_of}
use llmgw.Store.Keys.{QuotaKey, budget_bucket, spend_used, day_used, month_used}
use llmgw.Store.State.{Reservation, QuotaStore, resolve_scope_reservations}
use llmgw.Store.Cleanup.{put_reservation}
use llmgw.Store.Reserve.{apply_holds}
use llmgw.Store.TopUp.{more_held}
use llmgw.Store.Ledger.{
  is_held, IsUsedKey, shares, held_by, held_total, IsAmount, IsKeyed, IsReservation, Holds,
  IsLedger, spend_of, tokens_of,
}
use llmgw.Store.Ledger.Holds.{apply_holds-Books}
use llmgw.Store.Ledger.Totals.{
  remove_absent, held_total-remove, Unique-remove, All-remove, shares_grow,
}
use llmgw.Store.Ledger.Release.{IsAmount-tokens, IsInt64-of_IsAmount}

pub record IsUsage (e : EstimatedUsage) : Type 0 where
  pub input : IsAmount e.input_tokens
  pub output : IsAmount e.reserved_output_tokens
  pub spend : IsAmount e.estimated_spend_micros

-- The caller's three amounts are int64 values.
abbrev pub AreInt64 : EstimatedUsage → Type 0
AreInt64 e =
    IsInt64 e.input_tokens × IsInt64 e.reserved_output_tokens × IsInt64 e.estimated_spend_micros

normalized :
    (i o m : ℤ)
    → IsInt64 i
    → IsInt64 o
    → IsInt64 m
    → IsUsage (
        normalize_estimated_usage
          (record { input_tokens = i; reserved_output_tokens = o; estimated_spend_micros = m }))
unfolding normalize_estimated_usage ◌-ℤ◌
normalized (pos i) (pos o) (pos m) hi ho hm = ground arith
normalized (pos i) (pos o) (negsuc m) hi ho hm = ground arith
normalized (pos i) (negsuc o) (pos m) hi ho hm = ground arith
normalized (pos i) (negsuc o) (negsuc m) hi ho hm = ground arith
normalized (negsuc i) (pos o) (pos m) hi ho hm = ground arith
normalized (negsuc i) (pos o) (negsuc m) hi ho hm = ground arith
normalized (negsuc i) (negsuc o) (pos m) hi ho hm = ground arith
normalized (negsuc i) (negsuc o) (negsuc m) hi ho hm = ground arith

pub normalize_estimated_usage-IsUsage :
    (e : EstimatedUsage) → AreInt64 e → IsUsage (normalize_estimated_usage e)
normalize_estimated_usage-IsUsage e h =
    normalized e.input_tokens e.reserved_output_tokens e.estimated_spend_micros h.0 h.1 h.2

IsUsedKey-if :
    (b : Bool) (k : QuotaKey) → is_held k ≡ false → IsUsedKey (if b then some k else none)
IsUsedKey-if true k e = e
IsUsedKey-if false k e = tt

pub resolve_scope_reservations-IsKeyed :
    (scopes : List ScopedLimit) (now : ℕ) → All IsKeyed (resolve_scope_reservations scopes now)
unfolding resolve_scope_reservations
resolve_scope_reservations-IsKeyed [] now = tt
resolve_scope_reservations-IsKeyed (scope ∷ scopes) now = (
  (
    IsUsedKey-if
        (ltb_ℤ zero64 scope.limits.max_spend_micros || ltb_ℤ zero64 scope.limits.soft_spend_micros)
        (spend_used scope.ref (budget_bucket scope.limits.budget_duration now)) refl,
    IsUsedKey-if (ltb_ℤ zero64 scope.limits.daily_tokens) (day_used scope.ref (day_of now)) refl,
    IsUsedKey-if (ltb_ℤ zero64 scope.limits.monthly_tokens) (month_used scope.ref (month_of now))
        refl,
  ),
  resolve_scope_reservations-IsKeyed scopes now,
)

saturated :
    (a b : ℤ)
    → IsAmount a
    → IsAmount b
    → saturating_add_nonnegative a b ≡ pos (min max_int64 (pos_part a + pos_part b))
saturated (pos a) (pos b) ha hb =
    saturating_add_nonnegative_lem (pos a) (pos b) ha.1 hb.1 ∙ ap pos (omega arith)
saturated (pos a) (negsuc b) ha hb = cc (hb.0)
saturated (negsuc a) b ha hb = cc (ha.0)

module _ (held delta : EstimatedUsage) (h : IsUsage held) (d : IsUsage delta) where
  pub more_held-IsUsage : IsUsage (more_held held delta)
  more_held-IsUsage = record {
    input = rw (saturated held.input_tokens delta.input_tokens h.input d.input) (refl, omega arith);
    output =
        rw (saturated held.reserved_output_tokens delta.reserved_output_tokens h.output d.output)
          (refl, omega arith);
    spend =
        rw (saturated held.estimated_spend_micros delta.estimated_spend_micros h.spend d.spend)
          (refl, omega arith);
  }

  pub spend-more_held :
      spend_of (more_held held delta) ≡ min max_int64 (spend_of held + spend_of delta)
  spend-more_held =
      ap pos_part
        (saturated held.estimated_spend_micros delta.estimated_spend_micros h.spend d.spend)

  tokens_lem :
      (e : EstimatedUsage)
      → IsUsage e
      → tokens_of e ≡ min max_int64 (pos_part e.input_tokens + pos_part e.reserved_output_tokens)
  unfolding estimated_total_tokens
  tokens_lem e u = ap pos_part (
      saturating_usage_add_lem e.input_tokens e.reserved_output_tokens
        (IsInt64-of_IsAmount e.input_tokens u.input)
        (IsInt64-of_IsAmount e.reserved_output_tokens u.output))

  pub tokens-more_held :
      tokens_of (more_held held delta) ≡ min max_int64 (tokens_of held + tokens_of delta)
  tokens-more_held = omega (
    arith,
    tokens_lem held h,
    tokens_lem delta d,
    tokens_lem (more_held held delta) more_held-IsUsage,
    ap pos_part (saturated held.input_tokens delta.input_tokens h.input d.input),
    ap pos_part
        (saturated held.reserved_output_tokens delta.reserved_output_tokens h.output d.output),
  )

module _ (id : String) (res : Reservation) (s t : QuotaStore) (v : IsLedger s)
    (u : IsReservation res)
    (expiries : (k : QuotaKey) → is_held k ≡ true → t.value_expires k ≡ none)
    (kept : t.reservations ≡ s.reservations)
    (booked : (k : QuotaKey)
      → is_held k ≡ true
      → held_total k (insert String-discrete id res s.reservations) < max_int64
      → Holds t k (held_total k (insert String-discrete id res s.reservations)))
    (fit : (k : QuotaKey)
      → is_held k ≡ true
      → held_total k (insert String-discrete id res s.reservations) < max_int64) where
  -- A store `t` that booked what `res` adds has a ledger once `res` is entered.
  pub put_reservation-IsLedger : IsLedger (put_reservation id res t)
  unfolding insert
  put_reservation-IsLedger = record {
    exact = λ k held. rw kept (booked k held (fit k held));
    lasting = expiries;
    unique = rw kept (absent, Unique-remove id s.reservations v.unique);
    sound = rw kept (u, All-remove id s.reservations v.sound);
    fits = λ k held. rw kept (fit k held);
  }
    where
      absent : lookup String-discrete id (remove String-discrete id s.reservations) ≡ none
      absent = ground (arith, lookup-remove String-discrete id id s.reservations)

-- A new reservation: its shares are added to those of the others.
pub reserved-Holds :
    (k : QuotaKey) (later : ℕ → ℕ → ℕ) (now : ℕ) (id : String) (res : Reservation) (s : QuotaStore)
    → is_held k ≡ true
    → IsLedger s
    → IsUsage res.held
    → lookup String-discrete id s.reservations ≡ none
    → held_total k (insert String-discrete id res s.reservations) < max_int64
    → Holds
        (apply_holds later res.scopes res.held now false s)
        k
        (held_total k (insert String-discrete id res s.reservations))
unfolding insert held_total held_by
reserved-Holds k later now id res s held v u fresh fit =
    subst (Holds (apply_holds later res.scopes res.held now false s) k)
      (omega (arith, v.fits k held, ap (held_total k) (remove_absent id s.reservations fresh)))
      ((apply_holds-Books k res.held u.spend (IsAmount-tokens res.held u.input u.output) later
          res.scopes now false).books
        (held_total k s.reservations) s (omega (arith, v.fits k held)) (v.exact k held))

held_by-grown :
    (k : QuotaKey) (res grown : Reservation) (delta : EstimatedUsage)
    → IsUsage res.held
    → IsUsage delta
    → grown.scopes ≡ res.scopes
    → grown.held ≡ more_held res.held delta
    → held_by k grown < max_int64
    → held_by k grown ≡ held_by k res + shares k res.scopes 0 (spend_of delta) (tokens_of delta)
unfolding held_by
held_by-grown k res grown delta u d es eh fit =
    let same : held_by k grown
        ≡ shares k res.scopes 1 (min max_int64 (spend_of res.held + spend_of delta))
            (min max_int64 (tokens_of res.held + tokens_of delta)) =
      rw (es, eh, spend-more_held res.held delta u d, tokens-more_held res.held delta u d) refl in
    let grows =
      shares_grow k res.scopes (spend_of res.held) (spend_of delta) (tokens_of res.held)
        (tokens_of delta) (omega (arith, same)) in
    same ∙ grows

-- A top-up: the shares of the reservation grow by what it books.
pub grown-Holds :
    (k : QuotaKey) (later : ℕ → ℕ → ℕ) (now : ℕ) (id : String) (res grown : Reservation)
    (delta : EstimatedUsage) (s : QuotaStore)
    → is_held k ≡ true
    → IsLedger s
    → IsUsage res.held
    → IsUsage delta
    → lookup String-discrete id s.reservations ≡ some res
    → grown.scopes ≡ res.scopes
    → grown.held ≡ more_held res.held delta
    → held_total k (insert String-discrete id grown s.reservations) < max_int64
    → Holds
        (apply_holds later res.scopes delta now true s)
        k
        (held_total k (insert String-discrete id grown s.reservations))
unfolding insert held_total
grown-Holds k later now id res grown delta s held v u d found es eh fit =
    subst (Holds (apply_holds later res.scopes delta now true s) k)
      (omega (
        arith,
        v.fits k held,
        held_total-remove k id s.reservations res v.unique found,
        held_by-grown k res grown delta u d es eh (omega arith),
      ))
      ((apply_holds-Books k delta d.spend (IsAmount-tokens delta d.input d.output) later res.scopes
          now true).books
        (held_total k s.reservations) s (omega (arith, v.fits k held)) (v.exact k held))
