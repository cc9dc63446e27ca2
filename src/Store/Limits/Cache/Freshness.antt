-- ===== src/Store/Limits/Cache/Freshness.antt =====
-- A cached quota limit is the source's (store/limits.go).
use llmgw.Base.{
  ite-holds, ℕ, ◌≡◌, ◌≢◌, refl, inl, inr, sym, ◌∙◌, ap, subst, ℤ, String, String-discrete, Option,
  none, some, ltb, ℕ_discrete, Bool-cases, delete, All, All-map,
}
use llmgw.Store.Usage.{LimitSpec}
use llmgw.Store.Limits.Cache.{
  CachedQuotaLimit, CachedQuotaLimitStore, find_entry, hit, miss, looked_up, begin_get, finish_get,
  publish,
}
use llmgw.Store.Limits.Cache.Bounds.{find_entry-key}
use llmgw.Store.Limits.Cache.World.{
  unused, answered_with, World, set_read, started, start_get, Step, starts, answers, drops,
  finishes, writes, publishes, Reachable, begins, steps,
}
use llmgw.Store.Limits.Cache.Entries.{find_entry-All, stored-All}
use llmgw.Store.Limits.Cache.Coherence.{
  EntryFresh, ReadFresh, IsCoherent, looked_up-Fresh, looked_up-counter, set_read-Fresh,
  write-IsFresh, write-Fresh, write-pending, publish-IsFresh, publish-Fresh, publish-pending,
}

-- The invariant is kept by every step.
module _ (capacity : ℕ) (ttl : ℤ) where
  start_get-IsCoherent :
      (w : World) (i : ℕ) (key : String) (now : ℕ)
      → IsCoherent w
      → IsCoherent (start_get i key now w)
  unfolding start_get
  start_get-IsCoherent w i key now c =
      let found = find_entry key w.cached.cache in
      let counter = looked_up-counter w.source w.unpublished found key now w.cached in
      record {
        entries = looked_up-Fresh w.source w.unpublished found key now w.cached refl c.entries;
        calls =
            subst
              (λ n.
                (j : ℕ)
                → ReadFresh w.source w.unpublished n
                    (set_read i (started key (begin_get key now w.cached).1) w.reads j))
              (sym counter.0)
              (set_read-Fresh w.source w.unpublished w.cached.write_generation i _ w.reads counter.1
                c.calls);
        pending = c.pending;
      }

  finish_get-IsCoherent :
      (w : World) (i : ℕ) (key : String) (generation : ℕ) (limit : Option LimitSpec) (now : ℕ)
      → w.reads i ≡ answered_with key generation limit
      → IsCoherent w
      → IsCoherent (record w {
        cached = finish_get capacity ttl key generation limit now w.cached;
        reads = set_read i unused w.reads;
      })
  unfolding finish_get
  finish_get-IsCoherent w i key generation limit now h c =
      let fresh = EntryFresh w.source w.unpublished in
      let call = subst (ReadFresh w.source w.unpublished w.cached.write_generation) h (c.calls i) in
      record {
        entries =
            ite-holds (λ s. All fresh s.cache) (ℕ_discrete generation w.cached.write_generation) _
              w.cached
              (λ p.
                stored-All capacity ttl fresh fresh key limit now w.cached.cache (call.1 p)
                  (λ e _ x. x) c.entries)
              (λ _. c.entries);
        calls =
            ite-holds
              (λ s.
                (j : ℕ)
                → ReadFresh w.source w.unpublished s.write_generation (set_read i unused w.reads j))
              (ℕ_discrete generation w.cached.write_generation) _ w.cached (λ _. rest w i c)
              (λ _. rest w i c);
        pending = c.pending;
      }
    where
      rest :
          (w : World) (i : ℕ) (c : IsCoherent w) (j : ℕ)
          → ReadFresh w.source w.unpublished w.cached.write_generation (set_read i unused w.reads j)
      rest w i c =
          set_read-Fresh w.source w.unpublished w.cached.write_generation i unused w.reads tt
            c.calls

  publish-IsCoherent :
      (w : World) (key : String) (limit : LimitSpec) (now : ℕ)
      → w.unpublished key ≡ some limit
      → IsCoherent w
      → IsCoherent (record w {
        cached = publish capacity ttl key limit now w.cached;
        unpublished = delete String-discrete key w.unpublished;
      })
  unfolding publish
  publish-IsCoherent w key limit now h c = record {
    entries =
        stored-All capacity ttl (EntryFresh w.source w.unpublished)
          (EntryFresh w.source (delete String-discrete key w.unpublished)) key (some limit) now
          w.cached.cache (inl (sym (c.pending key limit h)))
          (λ e n x. publish-IsFresh w.source w.unpublished key limit e.key e.limit n x) c.entries;
    calls = λ i.
        publish-Fresh w.source w.unpublished key limit w.cached.write_generation (w.reads i)
          (c.calls i);
    pending = publish-pending w.source w.unpublished key limit c.pending;
  }

  Step-IsCoherent : (w v : World) → Step capacity ttl w v → IsCoherent w → IsCoherent v
  Step-IsCoherent w _ (starts _ i key now h) c = start_get-IsCoherent w i key now c
  Step-IsCoherent w _ (answers _ i key generation h) c = record {
    entries = c.entries;
    calls =
        set_read-Fresh w.source w.unpublished w.cached.write_generation i _ w.reads
          (
            subst (ReadFresh w.source w.unpublished w.cached.write_generation) h (c.calls i),
            λ _. inl refl,
          )
          c.calls;
    pending = c.pending;
  }
  Step-IsCoherent w _ (drops _ i) c = record {
    entries = c.entries;
    calls =
        set_read-Fresh w.source w.unpublished w.cached.write_generation i unused w.reads tt c.calls;
    pending = c.pending;
  }
  Step-IsCoherent w _ (finishes _ i key generation limit now h) c =
      finish_get-IsCoherent w i key generation limit now h c
  Step-IsCoherent w _ (writes _ key limit h) c = record {
    entries =
        All-map w.cached.cache
          (λ e x. write-IsFresh w.source w.unpublished key limit e.key e.limit x) c.entries;
    calls = λ i.
        write-Fresh w.source w.unpublished key limit w.cached.write_generation (w.reads i)
          (c.calls i);
    pending = write-pending w.source w.unpublished key limit c.pending;
  }
  Step-IsCoherent w _ (publishes _ key limit now h) c = publish-IsCoherent w key limit now h c

  Reachable-IsCoherent : (w : World) → Reachable capacity ttl w → IsCoherent w
  Reachable-IsCoherent _ (begins source) = record {
    entries = tt;
    calls = λ i. tt;
    pending = λ key limit h. absurd cc;
  }
  Reachable-IsCoherent v (steps w _ r s) = Step-IsCoherent w v s (Reachable-IsCoherent w r)

  hit_inj : (a b : Option LimitSpec) → hit a ≡ hit b → a ≡ b
  hit_inj a b h = cc

  miss_hit : (n : ℕ) (limit : Option LimitSpec) → miss n ≢ hit limit
  miss_hit n limit = λ h. cc

  looked_up-hit :
      (found : Option CachedQuotaLimit) (key : String) (now : ℕ) (s : CachedQuotaLimitStore)
      (limit : Option LimitSpec)
      → (looked_up found key now s).1 ≡ hit limit
      → (e : CachedQuotaLimit) × (found ≡ some e) × (e.limit ≡ limit)
  looked_up-hit none key now s limit h = absurd cc
  looked_up-hit (some e) key now s limit h = elim (Bool-cases (ltb now e.expires)) [
    | inl t ↦ (e, refl, hit_inj e.limit limit (rw (t, looked_up) at h))
    | inr f ↦ absurd (miss_hit s.write_generation limit (rw (f, looked_up) at h))
  ]

entry-source :
    (w : World) (key : String) (e : CachedQuotaLimit) (limit : Option LimitSpec)
    → EntryFresh w.source w.unpublished e
    → e.key ≡ key
    → e.limit ≡ limit
    → w.unpublished key ≡ none
    → limit ≡ w.source key
entry-source w key e limit (inl f) p q u = sym q ∙ f ∙ ap w.source p
entry-source w key e limit (inr f) p q u = absurd (f (ap w.unpublished p ∙ u))

-- In every interleaving of calls of Get and Put of one process in which two writes of one key do not
-- overlap, and while no one else writes the source: a Get that the cache answers gives what the source
-- holds, unless a Put of the same key has written the source and is about to publish.
pub begin_get-IsFresh :
    (capacity : ℕ) (ttl : ℤ) (w : World) (key : String) (now : ℕ) (limit : Option LimitSpec)
    → Reachable capacity ttl w
    → (begin_get key now w.cached).1 ≡ hit limit
    → w.unpublished key ≡ none
    → limit ≡ w.source key
unfolding begin_get
begin_get-IsFresh capacity ttl w key now limit r h u =
    let c = Reachable-IsCoherent capacity ttl w r in
    let found =
      looked_up-hit capacity ttl (find_entry key w.cached.cache) key now w.cached limit h in
    let e = found.0 in
    entry-source w key e limit
      (find_entry-All (EntryFresh w.source w.unpublished) key w.cached.cache e c.entries found.1)
      (find_entry-key key w.cached.cache e found.1) found.2 u
