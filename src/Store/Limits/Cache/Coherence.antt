-- ===== src/Store/Limits/Cache/Coherence.antt =====
-- When the cache of quota limits agrees with its source, and what writes do to that
-- (store/limits.go).
use llmgw.Base.{
  ite-holds, ℕ, suc, ◌≤◌, ◌≡◌, ◌≢◌, ◌⊎◌, refl, inl, inr, ◌∙◌, String, String-discrete, Option, none,
  some, ltb, ℕ_discrete, arith, Bool-cases, put, delete, All,
}
use llmgw.Store.Usage.{LimitSpec}
use llmgw.Store.Limits.Cache.{CachedQuotaLimit, CachedQuotaLimitStore, find_entry, looked_up}
use llmgw.Store.Limits.Cache.World.{
  ReadState, unused, asking, answered_with, World, set_read, started,
}
use llmgw.Store.Limits.Cache.Entries.{remove_entry-All, find_entry-All}

-- A limit of the key that is the source's, unless a Put of the key is about to publish.
abbrev pub IsFresh :
    (String → Option LimitSpec) → (String → Option LimitSpec) → String → Option LimitSpec → Type 0
IsFresh source unpublished key limit = (limit ≡ source key) ⊎ (unpublished key ≢ none)

abbrev pub EntryFresh :
    (String → Option LimitSpec) → (String → Option LimitSpec) → CachedQuotaLimit → Type 0
EntryFresh source unpublished e = IsFresh source unpublished e.key e.limit

-- A call of Get has read the counter of writes in the past, and if it is still the same, what the
-- source answered is fresh.
abbrev pub ReadFresh :
    (String → Option LimitSpec) → (String → Option LimitSpec) → ℕ → ReadState → Type 0
ReadFresh source unpublished now unused = Unit
ReadFresh source unpublished now (asking key generation) = generation ≤ now
ReadFresh source unpublished now (answered_with key generation limit) =
    (generation ≤ now) × (generation ≡ now → IsFresh source unpublished key limit)

pub record IsCoherent (w : World) : Type 0 where
  pub entries : All (EntryFresh w.source w.unpublished) w.cached.cache
  pub calls : (i : ℕ) → ReadFresh w.source w.unpublished w.cached.write_generation (w.reads i)
  pub pending :
      (key : String) (limit : LimitSpec)
      → w.unpublished key ≡ some limit
      → w.source key ≡ some limit

module _ (source unpublished : String → Option LimitSpec) where
  pub looked_up-Fresh :
      (found : Option CachedQuotaLimit) (key : String) (now : ℕ) (s : CachedQuotaLimitStore)
      → find_entry key s.cache ≡ found
      → All (EntryFresh source unpublished) s.cache
      → All (EntryFresh source unpublished) (looked_up found key now s).0.cache
  looked_up-Fresh none key now s h a = a
  looked_up-Fresh (some e) key now s h a = elim (Bool-cases (ltb now e.expires)) [
    | inl t ↦
        rw (t, looked_up)
          (
            find_entry-All (EntryFresh source unpublished) key s.cache e a h,
            remove_entry-All (EntryFresh source unpublished) key s.cache a,
          )
    | inr f ↦ rw (f, looked_up) (remove_entry-All (EntryFresh source unpublished) key s.cache a)
  ]

  -- A lookup does not change the counter, and a miss reads it.
  pub looked_up-counter :
      (found : Option CachedQuotaLimit) (key : String) (now : ℕ) (s : CachedQuotaLimitStore)
      → ((looked_up found key now s).0.write_generation ≡ s.write_generation)
        × ReadFresh source unpublished s.write_generation
            (started key (looked_up found key now s).1)
  looked_up-counter none key now s = (refl, omega arith)
  looked_up-counter (some e) key now s = elim (Bool-cases (ltb now e.expires)) [
    | inl t ↦ rw (t, looked_up) (refl, tt)
    | inr f ↦ rw (f, looked_up) (refl, omega arith)
  ]

  pub set_read-Fresh :
      (now i : ℕ) (r : ReadState) (reads : ℕ → ReadState)
      → ReadFresh source unpublished now r
      → ((j : ℕ) → ReadFresh source unpublished now (reads j))
      → (j : ℕ) → ReadFresh source unpublished now (set_read i r reads j)
  set_read-Fresh now i r reads h a j =
      ite-holds (ReadFresh source unpublished now) (ℕ_discrete j i) r (reads j) (λ _. h) (λ _. a j)

-- A write of the source, which is unpublished at first.
module _ (source unpublished : String → Option LimitSpec) (key : String) (limit : LimitSpec) where
  put_some : (k : String) → k ≡ key → put String-discrete key limit unpublished k ≢ none
  put_some k p = λ q. ground arith

  put_other : (k : String) → k ≢ key → source k ≡ put String-discrete key limit source k
  put_other k n = ground arith

  put-none :
      (k : String) → put String-discrete key limit unpublished k ≡ none → unpublished k ≡ none
  put-none k q = ground arith

  delete-none :
      (k : String)
      → key ≢ k
      → delete String-discrete key unpublished k ≡ none
      → unpublished k ≡ none
  delete-none k n q = ground arith

  pub write-IsFresh :
      (k : String) (l : Option LimitSpec)
      → IsFresh source unpublished k l
      → IsFresh
          (put String-discrete key limit source)
          (put String-discrete key limit unpublished)
          k
          l
  write-IsFresh k l (inl e) = elim (String-discrete k key) [
    | yes p ↦ inr (λ q. put_some k p q)
    | no n ↦ inl (e ∙ put_other k n)
  ]
  write-IsFresh k l (inr u) = inr (λ q. u (put-none k q))

  pub write-Fresh :
      (now : ℕ) (r : ReadState)
      → ReadFresh source unpublished now r
      → ReadFresh
          (put String-discrete key limit source)
          (put String-discrete key limit unpublished)
          now
          r
  write-Fresh now unused h = tt
  write-Fresh now (asking k g) h = h
  write-Fresh now (answered_with k g l) (h, f) = (h, λ e. write-IsFresh k l (f e))

  pub write-pending :
      ((k : String) (l : LimitSpec) → unpublished k ≡ some l → source k ≡ some l)
      → (k : String) (l : LimitSpec) → put String-discrete key limit unpublished k ≡ some l
      → put String-discrete key limit source k ≡ some l
  write-pending f k l h = ground (arith, f k l)

  pub publish-IsFresh :
      (k : String) (l : Option LimitSpec)
      → key ≢ k
      → IsFresh source unpublished k l
      → IsFresh source (delete String-discrete key unpublished) k l
  publish-IsFresh k l n (inl e) = inl e
  publish-IsFresh k l n (inr u) = inr (λ q. u (delete-none k n q))

  pub publish-Fresh :
      (now : ℕ) (r : ReadState)
      → ReadFresh source unpublished now r
      → ReadFresh source (delete String-discrete key unpublished) (suc now) r
  publish-Fresh now unused h = tt
  publish-Fresh now (asking k g) h = omega (arith, h)
  publish-Fresh now (answered_with k g l) (h, f) =
      (omega (arith, h), λ e. absurd (omega (arith, e, h)))

  pub publish-pending :
      ((k : String) (l : LimitSpec) → unpublished k ≡ some l → source k ≡ some l)
      → (k : String) (l : LimitSpec) → delete String-discrete key unpublished k ≡ some l
      → source k ≡ some l
  publish-pending f k l h = ground (arith, f k l)
