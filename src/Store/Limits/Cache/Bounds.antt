-- ===== src/Store/Limits/Cache/Bounds.antt =====
-- The size of the cache of quota limits and the keys in it (store/limits.go).
use llmgw.Base.{
  ℕ, zero, suc, ◌≤◌, ◌<◌, ◌≡◌, refl, inl, inr, ℤ, String, String-discrete, List, [], ◌∷◌, Option,
  none, some, ltb, ite, ite-holds, ℕ_discrete, take, length, arith, Bool-cases,
}
use llmgw.Store.Usage.{LimitSpec}
use llmgw.Store.Limits.Cache.{
  CachedQuotaLimit, CachedQuotaLimitStore, find_entry, remove_entry, prune_expired, put_found,
  put_cache_entry, looked_up, begin_get, finish_get, publish, stored,
}

-- No two entries have one key.
abbrev pub IsUnique : List CachedQuotaLimit → Type 0
IsUnique [] = Unit
IsUnique (e ∷ es) = (find_entry e.key es ≡ none) × IsUnique es

abbrev pub IsCache : ℕ → List CachedQuotaLimit → Type 0
IsCache capacity es = (length es ≤ capacity) × IsUnique es

pub find_entry-remove_entry :
    (k j : String) (es : List CachedQuotaLimit)
    → find_entry k (remove_entry j es) ≡ ite (String-discrete k j) none (find_entry k es)
find_entry-remove_entry k j [] = ground arith
find_entry-remove_entry k j (e ∷ es) = ground (arith, find_entry-remove_entry k j es)

length-remove_entry :
    (k : String) (es : List CachedQuotaLimit) → length (remove_entry k es) ≤ length es
length-remove_entry k [] = omega arith
length-remove_entry k (e ∷ es) = ground (arith, length-remove_entry k es)

-- An entry that is found goes.
length-remove_found :
    (k : String) (es : List CachedQuotaLimit) (e : CachedQuotaLimit)
    → find_entry k es ≡ some e
    → length (remove_entry k es) < length es
length-remove_found k [] e h = absurd cc
length-remove_found k (x ∷ es) e h =
    ground (arith, length-remove_entry k es, length-remove_found k es e)

find_entry-prune_expired :
    (k : String) (now : ℕ) (es : List CachedQuotaLimit)
    → find_entry k es ≡ none
    → find_entry k (prune_expired now es) ≡ none
find_entry-prune_expired k now [] h = refl
find_entry-prune_expired k now (e ∷ es) h = ground (arith, find_entry-prune_expired k now es)

find_entry-take :
    (k : String) (n : ℕ) (es : List CachedQuotaLimit)
    → find_entry k es ≡ none
    → find_entry k (take n es) ≡ none
find_entry-take k zero es h = refl
find_entry-take k (suc n) [] h = refl
find_entry-take k (suc n) (e ∷ es) h = ground (arith, find_entry-take k n es)

length-prune_expired :
    (now : ℕ) (es : List CachedQuotaLimit) → length (prune_expired now es) ≤ length es
length-prune_expired now [] = omega arith
length-prune_expired now (e ∷ es) = ground (arith, length-prune_expired now es)

length-take : (n : ℕ) (es : List CachedQuotaLimit) → length (take n es) ≤ n
length-take zero es = omega arith
length-take (suc n) [] = omega arith
length-take (suc n) (e ∷ es) = omega (arith, length-take n es)

missing-remove_entry :
    (k j : String) (es : List CachedQuotaLimit)
    → find_entry k es ≡ none
    → find_entry k (remove_entry j es) ≡ none
missing-remove_entry k j es h = ground (arith, find_entry-remove_entry k j es)

remove_entry-IsUnique :
    (k : String) (es : List CachedQuotaLimit) → IsUnique es → IsUnique (remove_entry k es)
remove_entry-IsUnique k [] u = tt
remove_entry-IsUnique k (e ∷ es) (h, u) =
    ite-holds IsUnique (String-discrete k e.key) (remove_entry k es) (e ∷ remove_entry k es)
      (λ p. remove_entry-IsUnique k es u)
      (λ n. (missing-remove_entry e.key k es h, remove_entry-IsUnique k es u))

prune_expired-IsUnique :
    (now : ℕ) (es : List CachedQuotaLimit) → IsUnique es → IsUnique (prune_expired now es)
prune_expired-IsUnique now [] u = tt
prune_expired-IsUnique now (e ∷ es) (h, u) = elim (Bool-cases (ltb now e.expires)) [
  | inl t ↦
      rw (t, prune_expired)
        (find_entry-prune_expired e.key now es h, prune_expired-IsUnique now es u)
  | inr f ↦ rw (f, prune_expired) (prune_expired-IsUnique now es u)
]

take-IsUnique : (n : ℕ) (es : List CachedQuotaLimit) → IsUnique es → IsUnique (take n es)
take-IsUnique zero es u = tt
take-IsUnique (suc n) [] u = tt
take-IsUnique (suc n) (e ∷ es) (h, u) = (find_entry-take e.key n es h, take-IsUnique n es u)

gone : (k : String) (es : List CachedQuotaLimit) → find_entry k (remove_entry k es) ≡ none
gone k es = ground (arith, find_entry-remove_entry k k es)

pub find_entry-key :
    (k : String) (es : List CachedQuotaLimit) (e : CachedQuotaLimit)
    → find_entry k es ≡ some e
    → e.key ≡ k
find_entry-key k [] e h = absurd cc
find_entry-key k (x ∷ es) e h = ground (arith, find_entry-key k es e)

gone_found :
    (e : CachedQuotaLimit) (k : String) (es : List CachedQuotaLimit)
    → e.key ≡ k
    → find_entry e.key (remove_entry k es) ≡ none
gone_found e k es h = rw h (gone k es)

-- The entries keep their bound and their distinct keys.
put_found-IsCache :
    (capacity : ℕ) (e : CachedQuotaLimit) (found : Option CachedQuotaLimit)
    (es : List CachedQuotaLimit)
    → find_entry e.key es ≡ found
    → IsCache capacity es
    → IsCache capacity (put_found found capacity e es)
put_found-IsCache capacity e (some x) es h (l, u) = (
  omega (arith, l, length-remove_found e.key es x h),
  (gone e.key es, remove_entry-IsUnique e.key es u),
)
put_found-IsCache capacity e none es h (l, u) =
    (length-take capacity (e ∷ es), take-IsUnique capacity (e ∷ es) (h, u))

module _ (capacity : ℕ) (ttl : ℤ) where
  stored-IsCache :
      (key : String) (limit : Option LimitSpec) (now : ℕ) (es : List CachedQuotaLimit)
      → IsCache capacity es
      → IsCache capacity (stored capacity ttl key limit now es)
  unfolding put_cache_entry
  stored-IsCache key limit now es (l, u) =
      put_found-IsCache capacity _ _ (prune_expired now es) refl
        (omega (arith, l, length-prune_expired now es), prune_expired-IsUnique now es u)

  looked_up-IsCache :
      (found : Option CachedQuotaLimit) (key : String) (now : ℕ) (s : CachedQuotaLimitStore)
      → find_entry key s.cache ≡ found
      → IsCache capacity s.cache
      → IsCache capacity (looked_up found key now s).0.cache
  looked_up-IsCache none key now s h c = c
  looked_up-IsCache (some e) key now s h (l, u) = elim (Bool-cases (ltb now e.expires)) [
    | inl t ↦
        rw (t, looked_up)
          (
            omega (arith, l, length-remove_found key s.cache e h),
            (
              gone_found e key s.cache (find_entry-key key s.cache e h),
              remove_entry-IsUnique key s.cache u,
            ),
          )
    | inr f ↦
        rw (f, looked_up)
          (omega (arith, l, length-remove_entry key s.cache), remove_entry-IsUnique key s.cache u)
  ]

-- Each locked part of the cache's operations leaves at most `capacity` entries, no two of them with
-- one key, if it finds the cache so: the lookup of Get, the part of Get that keeps what the source
-- gave, and the part of Put that publishes the new limit.
pub cache-IsCache :
    (capacity : ℕ) (ttl : ℤ) (key : String) (now generation : ℕ) (read : Option LimitSpec)
    (limit : LimitSpec) (s : CachedQuotaLimitStore)
    → IsCache capacity s.cache
    → IsCache capacity (begin_get key now s).0.cache
      × IsCache capacity (finish_get capacity ttl key generation read now s).cache
      × IsCache capacity (publish capacity ttl key limit now s).cache
unfolding begin_get finish_get publish
cache-IsCache capacity ttl key now generation read limit s c = (
  looked_up-IsCache capacity ttl (find_entry key s.cache) key now s refl c,
  ite-holds (λ x. IsCache capacity x.cache) (ℕ_discrete generation s.write_generation) _ s
      (λ p. stored-IsCache capacity ttl key read now s.cache c) (λ n. c),
  stored-IsCache capacity ttl key (some limit) now s.cache c,
)
