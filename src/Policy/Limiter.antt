-- ===== src/Policy/Limiter.antt =====
-- The limiter of calls in flight (policy/attempt.go). Each method of a limiter runs under its lock,
-- and each operation on the map of limiters is atomic; between them other requests take steps.
pub mod Sharing
use llmgw.Base.{
  ℕ, zero, suc, ◌+◌, ◌<◌, ◌≡◌, ℤ, pos, ltb, leb_ℤ, ltb_ℤ, eqb_ℤ, ◌+ℤ◌, ◌-ℤ◌, if◌then◌else◌, Bool,
  true, false, not, ◌||◌, ite, Option, none, some, ℕ_discrete, IsInt64,
}
use llmgw.Amounts.{zero64}

pub record Limiter : Type 0 where
  pub current : ℤ
  pub limit : ℤ
  pub last_seen : ℕ
  pub retired : Bool

abbrev pub new_limiter : Limiter
new_limiter = record { current = zero64; limit = zero64; last_seen = 0; retired = false }

-- The limiter, whether a slot was acquired, and whether the limiter is retired.
unfoldable pub acquire : ℤ → ℕ → Limiter → Limiter × Bool × Bool
acquire limit now l =
    let seen = record l { limit = limit; last_seen = now } in
    if l.retired
    then (l, false, true)
    else if leb_ℤ limit l.current
    then (seen, false, false)
    else (record seen { current = l.current +ℤ pos 1 }, true, false)

unfoldable pub release : ℕ → Limiter → Limiter
release now l = record l {
  current = if ltb_ℤ zero64 l.current then l.current -ℤ pos 1 else l.current;
  last_seen = now;
}

unfoldable pub retire_if_idle : ℕ → Limiter → Limiter × Bool
retire_if_idle cutoff l =
    if not (eqb_ℤ l.current zero64) || ltb cutoff l.last_seen
    then (l, false)
    else (record l { retired = true }, true)

-- The limiters that were ever made for one key: `limiters i` for i below `made`. `stored` is the one
-- that the map holds, and `in_flight i` counts the releases that requests still owe limiter i.
pub record Limiters : Type 0 where
  pub limiters : ℕ → Limiter
  pub made : ℕ
  pub stored : Option ℕ
  pub in_flight : ℕ → ℕ

abbrev pub no_limiters : Limiters
no_limiters = record { limiters = λ i. new_limiter; made = 0; stored = none; in_flight = λ i. 0 }

abbrev pub change : {A : Type 0} → ℕ → A → (ℕ → A) → ℕ → A
change i a f j = ite (ℕ_discrete j i) a (f j)

-- LoadOrStore, when the map has no limiter of the key.
unfoldable pub store_new : Limiters → Limiters
store_new s = record s {
  limiters = change s.made new_limiter s.limiters;
  made = suc s.made;
  stored = some s.made;
}

unfoldable pub acquire_at : ℕ → ℤ → ℕ → Limiters → Limiters
unfolding acquire
acquire_at i limit now s =
    let got = acquire limit now (s.limiters i) in
    record s {
      limiters = change i got.0 s.limiters;
      in_flight = change i (if got.1 then suc (s.in_flight i) else s.in_flight i) s.in_flight;
    }

unfoldable pub release_at : ℕ → ℕ → ℕ → Limiters → Limiters
unfolding release
release_at i left now s = record s {
  limiters = change i (release now (s.limiters i)) s.limiters;
  in_flight = change i left s.in_flight;
}

unfoldable pub retire_at : ℕ → ℕ → Limiters → Limiters
unfolding retire_if_idle
retire_at i cutoff s = record s {
  limiters = change i (retire_if_idle cutoff (s.limiters i)).0 s.limiters;
}

abbrev pub is_stored : Option ℕ → ℕ → Bool
is_stored none i = false
is_stored (some j) i = ite (ℕ_discrete j i) true false

-- CompareAndDelete.
unfoldable pub delete_at : ℕ → Limiters → Limiters
delete_at i s = record s { stored = if is_stored s.stored i then none else s.stored }

-- One atomic step of `acquireLimiter`, of a release or of `pruneLimiters`. A request acts on a
-- limiter that it has loaded, which may no longer be the stored one.
pub data Step : Limiters → Limiters → Type 0 where
  stores : (s : Limiters) → s.stored ≡ none → Step s (store_new s)
  acquires :
      (s : Limiters) (i : ℕ) (limit : ℤ) (now : ℕ)
      → IsInt64 limit
      → i < s.made
      → Step s (acquire_at i limit now s)
  releases :
      (s : Limiters) (i left now : ℕ)
      → i < s.made
      → s.in_flight i ≡ suc left
      → Step s (release_at i left now s)
  retires : (s : Limiters) (i cutoff : ℕ) → i < s.made → Step s (retire_at i cutoff s)
  deletes :
      (s : Limiters) (i : ℕ) → i < s.made → (s.limiters i).retired ≡ true → Step s (delete_at i s)

pub data Reachable : Limiters → Type 0 where
  starts : Reachable no_limiters
  steps : (s t : Limiters) → Reachable s → Step s t → Reachable t
