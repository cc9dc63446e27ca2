-- ===== src/Policy/Limiter/Sharing.antt =====
-- All the calls of a key in flight share one limiter (policy/attempt.go), however requests and
-- pruning interleave.
use llmgw.Base.{
  ℕ, suc, ◌<◌, ◌≤◌, ◌≡◌, ◌≢◌, refl, ℤ, pos, negsuc, pos_part, ◌+ℤ◌, ◌-ℤ◌, max_int64, true, false,
  Option, none, some, ℕ_discrete, IsInt64, if◌then◌else◌, Bool-cases, ltb, ltb→lt, inl, inr,
  fun_ext, ◌∙◌, arith,
}
use llmgw.Policy.Limiter.{
  Limiter, Limiters, new_limiter, acquire, release, retire_if_idle, store_new, acquire_at,
  release_at, retire_at, delete_at, change, Step, stores, acquires, releases, retires, deletes,
  is_stored, Reachable, starts, steps,
}

-- A limiter counts the calls in flight, and a retired one has none.
pub record IsCounting (l : Limiter) (n : ℕ) : Type 0 where
  pub counts : l.current ≡ pos n
  pub fits : n ≤ max_int64
  pub idle : l.retired ≡ true → n ≡ 0

-- Every limiter counts its calls, and only the stored one is in use.
pub record IsShared (s : Limiters) : Type 0 where
  pub counting : (i : ℕ) → i < s.made → IsCounting (s.limiters i) (s.in_flight i)
  pub others : (i : ℕ) → i < s.made → is_stored s.stored i ≡ false → (s.limiters i).retired ≡ true
  pub unmade : (i : ℕ) → s.made ≤ i → s.in_flight i ≡ 0

acquire-IsCounting :
    (l : Limiter) (n : ℕ) (limit : ℤ) (now : ℕ)
    → IsInt64 limit
    → IsCounting l n
    → IsCounting (acquire limit now l).0 (if (acquire limit now l).1 then suc n else n)
unfolding acquire ◌+ℤ◌
acquire-IsCounting l n (pos limit) now h c = ground (arith, c.counts, c.fits, c.idle)
acquire-IsCounting l n (negsuc limit) now h c = ground (arith, c.counts, c.fits, c.idle)

acquire-retired : (l : Limiter) (limit : ℤ) (now : ℕ) → (acquire limit now l).0.retired ≡ l.retired
unfolding acquire
acquire-retired l limit now = ground arith

release-IsCounting : (l : Limiter) (n now : ℕ) → IsCounting l (suc n) → IsCounting (release now l) n
unfolding release ◌-ℤ◌
release-IsCounting l n now c = ground (arith, c.counts, c.fits, c.idle)

retire_if_idle-IsCounting :
    (l : Limiter) (n cutoff : ℕ) → IsCounting l n → IsCounting (retire_if_idle cutoff l).0 n
unfolding retire_if_idle
retire_if_idle-IsCounting l n cutoff c = ground (arith, c.counts, c.fits, c.idle)

retire_if_idle-retired :
    (l : Limiter) (cutoff : ℕ) → l.retired ≡ true → (retire_if_idle cutoff l).0.retired ≡ true
unfolding retire_if_idle
retire_if_idle-retired l cutoff h = ground arith

change_same : {A : Type 0} (i j : ℕ) (a : A) (f : ℕ → A) → j ≡ i → change i a f j ≡ a
change_same i j a f p = ground arith

change_other : {A : Type 0} (i j : ℕ) (a : A) (f : ℕ → A) → j ≢ i → change i a f j ≡ f j
change_other i j a f p = ground arith

stored_once : (o : Option ℕ) (i j : ℕ) → j ≡ i → is_stored o j ≡ false → is_stored o i ≡ false
stored_once none i j p h = refl
stored_once (some k) i j p h = ground arith

deleted_is :
    (o : Option ℕ) (i j : ℕ)
    → is_stored o j ≡ true
    → is_stored (if is_stored o i then none else o) j ≡ false
    → j ≡ i
deleted_is none i j p h = ground arith
deleted_is (some k) i j p h = ground arith

-- A step on limiter i alone.
change-IsShared :
    (s t : Limiters) (i n : ℕ) (l : Limiter)
    → i < s.made
    → t.made ≡ s.made
    → t.stored ≡ s.stored
    → t.limiters ≡ change i l s.limiters
    → t.in_flight ≡ change i n s.in_flight
    → IsCounting l n
    → ((s.limiters i).retired ≡ true → l.retired ≡ true)
    → IsShared s
    → IsShared t
change-IsShared s t i n l h m q f g c r v = record {
  counting = λ j k.
      rw (f, g)
        (elim (ℕ_discrete j i) [
          | yes p ↦ rw (change_same i j l s.limiters p, change_same i j n s.in_flight p) c
          | no p ↦
              rw (change_other i j l s.limiters p, change_other i j n s.in_flight p)
                (v.counting j (rw m at k))
        ]);
  others = λ j k o. rw f (elim (ℕ_discrete j i) [
    | yes p ↦
        rw (change_same i j l s.limiters p)
          (r (v.others i h (stored_once s.stored i j p (rw q at o))))
    | no p ↦ rw (change_other i j l s.limiters p) (v.others j (rw m at k) (rw q at o))
  ]);
  unmade = λ j k. rw g (elim (ℕ_discrete j i) [
    | yes p ↦ absurd (ground (arith, rw m at k))
    | no p ↦ rw (change_other i j n s.in_flight p) (v.unmade j (rw m at k))
  ]);
}

new_limiter-IsCounting : IsCounting new_limiter 0
new_limiter-IsCounting = record { counts = refl; fits = omega arith; idle = λ h. refl }

same_count : (i n : ℕ) (f : ℕ → ℕ) → f i ≡ n → f ≡ change i n f
same_count i n f e = fun_ext (λ j. ground (arith, e))

Step-IsShared : (s t : Limiters) → Step s t → IsShared s → IsShared t
unfolding release store_new acquire_at release_at retire_at delete_at
Step-IsShared s t (stores _ e) v = record {
  counting = λ j k. elim (ℕ_discrete j s.made) [
    | yes p ↦
        rw (change_same s.made j new_limiter s.limiters p, v.unmade j (omega arith))
          new_limiter-IsCounting
    | no p ↦ rw (change_other s.made j new_limiter s.limiters p) (v.counting j (ground arith))
  ];
  others = λ j k o. elim (ℕ_discrete j s.made) [
    | yes p ↦ ground arith
    | no p ↦
        rw (change_other s.made j new_limiter s.limiters p) (v.others j (ground arith) (rw e refl))
  ];
  unmade = λ j k. v.unmade j (omega arith);
}
Step-IsShared s t (acquires _ i limit now w h) v =
    change-IsShared s t i
      (if (acquire limit now (s.limiters i)).1 then suc (s.in_flight i) else s.in_flight i)
      (acquire limit now (s.limiters i)).0 h refl refl refl refl
      (acquire-IsCounting (s.limiters i) (s.in_flight i) limit now w (v.counting i h))
      (λ r. acquire-retired (s.limiters i) limit now ∙ r) v
Step-IsShared s t (releases _ i left now h e) v =
    change-IsShared s t i left (release now (s.limiters i)) h refl refl refl refl
      (release-IsCounting (s.limiters i) left now (rw e at (v.counting i h))) (λ r. r) v
Step-IsShared s t (retires _ i cutoff h) v =
    change-IsShared s t i (s.in_flight i) (retire_if_idle cutoff (s.limiters i)).0 h refl refl refl
      (same_count i (s.in_flight i) s.in_flight refl)
      (retire_if_idle-IsCounting (s.limiters i) (s.in_flight i) cutoff (v.counting i h))
      (retire_if_idle-retired (s.limiters i) cutoff) v
Step-IsShared s t (deletes _ i h e) v = record {
  counting = v.counting;
  others = λ j k o. elim (Bool-cases (is_stored s.stored j)) [
    | inl p ↦ rw (deleted_is s.stored i j p o) e
    | inr p ↦ v.others j k p
  ];
  unmade = v.unmade;
}

Reachable-IsShared : (s : Limiters) → Reachable s → IsShared s
Reachable-IsShared s starts = record {
  counting = λ j k. absurd (ground arith);
  others = λ j k o. absurd (ground arith);
  unmade = λ j k. refl;
}
Reachable-IsShared t (steps s _ r e) = Step-IsShared s t e (Reachable-IsShared s r)

acquire-below :
    (l : Limiter) (n : ℕ) (limit : ℤ) (now : ℕ)
    → IsInt64 limit
    → IsCounting l n
    → (acquire limit now l).1 ≡ true
    → (l.retired ≡ false) × (suc n ≤ pos_part limit)
unfolding acquire
acquire-below l n (pos limit) now h c e = ground (arith, c.counts)
acquire-below l n (negsuc limit) now h c e = ground (arith, c.counts)

is_stored-some : (o : Option ℕ) (i : ℕ) → is_stored o i ≡ true → o ≡ some i
is_stored-some none i h = ground arith
is_stored-some (some k) i h = ground arith

stored_elsewhere : (o : Option ℕ) (i j : ℕ) → is_stored o i ≡ true → j ≢ i → is_stored o j ≡ false
stored_elsewhere none i j h p = ground arith
stored_elsewhere (some k) i j h p = ground arith

unstored : (s : Limiters) → IsShared s → (j : ℕ) → is_stored s.stored j ≡ false → s.in_flight j ≡ 0
unstored s v j o = elim (Bool-cases (ltb j s.made)) [
  | inl p ↦ (v.counting j (ltb→lt j s.made p)).idle (v.others j (ltb→lt j s.made p) o)
  | inr p ↦ v.unmade j (ground arith)
]

-- However the steps of requests and of pruning interleave: when a request acquires a slot of a
-- limiter that it has loaded, that limiter is the one the map holds, no call of the key is in flight
-- on any other limiter, and with the new call there are at most `limit` calls in flight.
pub acquire-shares :
    (s : Limiters) (i : ℕ) (limit : ℤ) (now : ℕ)
    → Reachable s
    → i < s.made
    → IsInt64 limit
    → (acquire limit now (s.limiters i)).1 ≡ true
    → (s.stored ≡ some i)
      × ((j : ℕ) → j ≢ i → (acquire_at i limit now s).in_flight j ≡ 0)
      × ((acquire_at i limit now s).in_flight i ≤ pos_part limit)
unfolding acquire_at
acquire-shares s i limit now r h w e =
    let v = Reachable-IsShared s r in
    let below = acquire-below (s.limiters i) (s.in_flight i) limit now w (v.counting i h) e in
    let stored : is_stored s.stored i ≡ true = elim (Bool-cases (is_stored s.stored i)) [
      | inl p ↦ p
      | inr p ↦ absurd (ground (arith, below.0, v.others i h p))
    ] in
    (
      is_stored-some s.stored i stored,
      λ j p.
          change_other i j _ s.in_flight p
          ∙ unstored s v j (stored_elsewhere s.stored i j stored p),
      rw
          (
            change_same i i
                (if (acquire limit now (s.limiters i)).1
                  then suc (s.in_flight i)
                  else s.in_flight i)
                s.in_flight refl,
            e,
          )
          below.1,
    )
