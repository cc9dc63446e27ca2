-- ===== src/Store/Limits/Cache/Entries.antt =====
-- What holds of every entry of the cache of quota limits, as entries come and go (store/limits.go).
use llmgw.Base.{
  ite-holds, ℕ, zero, suc, ◌≡◌, ◌≢◌, refl, inl, inr, subst, ℤ, String, String-discrete, List, [],
  ◌∷◌, Option, none, some, ltb, take, Bool-cases, All,
}
use llmgw.Store.Clock.{add_time}
use llmgw.Store.Usage.{LimitSpec}
use llmgw.Store.Limits.Cache.{
  CachedQuotaLimit, find_entry, remove_entry, prune_expired, put_found, put_cache_entry, stored,
}

pub some_inj : (x e : CachedQuotaLimit) → some x ≡ some e → x ≡ e
some_inj x e h = cc

pub some-none : (e : CachedQuotaLimit) → some e ≢ none
some-none e = λ h. cc

-- The entries that stay keep what holds of them all.
module _ (P : CachedQuotaLimit → Type 0) where
  pub remove_entry-All :
      (k : String) (es : List CachedQuotaLimit) → All P es → All P (remove_entry k es)
  remove_entry-All k [] h = tt
  remove_entry-All k (e ∷ es) (p, h) =
      ite-holds (All P) (String-discrete k e.key) (remove_entry k es) (e ∷ remove_entry k es)
        (λ _. remove_entry-All k es h) (λ _. (p, remove_entry-All k es h))

  pub prune_expired-All :
      (now : ℕ) (es : List CachedQuotaLimit) → All P es → All P (prune_expired now es)
  prune_expired-All now [] h = tt
  prune_expired-All now (e ∷ es) (p, h) = elim (Bool-cases (ltb now e.expires)) [
    | inl t ↦ rw (t, prune_expired) (p, prune_expired-All now es h)
    | inr f ↦ rw (f, prune_expired) (prune_expired-All now es h)
  ]

  pub take-All : (n : ℕ) (es : List CachedQuotaLimit) → All P es → All P (take n es)
  take-All zero es h = tt
  take-All (suc n) [] h = tt
  take-All (suc n) (e ∷ es) (p, h) = (p, take-All n es h)

  pub find_entry-All :
      (k : String) (es : List CachedQuotaLimit) (e : CachedQuotaLimit)
      → All P es
      → find_entry k es ≡ some e
      → P e
  find_entry-All k [] e h f = absurd cc
  find_entry-All k (x ∷ es) e (p, h) f =
      ite-holds (λ o. o ≡ some e → P e) (String-discrete k x.key) (some x) (find_entry k es)
        (λ _ q. subst P (some_inj x e q) p) (λ _. find_entry-All k es e h) f

  module _ (Q : CachedQuotaLimit → Type 0) (k : String)
      (f : (e : CachedQuotaLimit) → k ≢ e.key → P e → Q e) where
    others-All : (es : List CachedQuotaLimit) → All P es → All Q (remove_entry k es)
    others-All [] h = tt
    others-All (e ∷ es) (p, h) =
        ite-holds (All Q) (String-discrete k e.key) (remove_entry k es) (e ∷ remove_entry k es)
          (λ _. others-All es h) (λ n. (f e n p, others-All es h))

    missing-All : (es : List CachedQuotaLimit) → find_entry k es ≡ none → All P es → All Q es
    missing-All [] g h = tt
    missing-All (e ∷ es) g (p, h) =
        ite-holds (λ o. o ≡ none → All Q (e ∷ es)) (String-discrete k e.key) (some e)
          (find_entry k es) (λ _ q. absurd (some-none e q)) (λ n q. (f e n p, missing-All es q h)) g

-- A new entry for which Q holds, and the entries of other keys.
module _ (P Q : CachedQuotaLimit → Type 0) (entry : CachedQuotaLimit) (q : Q entry)
    (f : (e : CachedQuotaLimit) → entry.key ≢ e.key → P e → Q e) where
  put_found-All :
      (capacity : ℕ) (found : Option CachedQuotaLimit) (es : List CachedQuotaLimit)
      → find_entry entry.key es ≡ found
      → All P es
      → All Q (put_found found capacity entry es)
  put_found-All capacity (some x) es h a = (q, others-All P Q entry.key f es a)
  put_found-All capacity none es h a =
      take-All Q capacity (entry ∷ es) (q, missing-All P Q entry.key f es h a)

module _ (capacity : ℕ) (ttl : ℤ) (P Q : CachedQuotaLimit → Type 0) where
  pub stored-All :
      (key : String) (limit : Option LimitSpec) (now : ℕ) (es : List CachedQuotaLimit)
      → Q (record { key = key; limit = limit; expires = add_time now ttl })
      → ((e : CachedQuotaLimit) → key ≢ e.key → P e → Q e)
      → All P es
      → All Q (stored capacity ttl key limit now es)
  unfolding put_cache_entry
  stored-All key limit now es q f a =
      put_found-All P Q (record { key = key; limit = limit; expires = add_time now ttl }) q f
        capacity _ (prune_expired now es) refl (prune_expired-All P now es a)
