-- ===== src/Store/Ledger/Amounts.antt =====
-- What each primitive update of store/store.go does to the value of a key.
use Prim.Native.Nat.{min}
use llmgw.Base.{
  ℕ, ◌+◌, ◌-◌, ◌≤◌, ◌≡◌, refl, ℤ, pos, negsuc, pos_part, -ℤ-pos, max_int64, true, Option, none,
  some, arith, ap,
}
use llmgw.Amounts.Laws.{saturating_add_nonnegative_lem}
use llmgw.Store.Keys.{QuotaKey, QuotaKey-discrete}
use llmgw.Store.State.{QuotaStore, value_or_zero}
use llmgw.Store.Holds.{add_value, decr_value, add_counter, reconcile_counter}
use llmgw.Store.Ledger.{is_held, when, Holds, IsUsedKey, IsAmount}

pub add_value-Holds :
    (key : Option QuotaKey) (k : QuotaKey) (v : ℕ) (d : ℤ) (expires at : ℕ) (s : QuotaStore)
    → v ≤ max_int64
    → IsAmount d
    → Holds s k v
    → Holds (add_value key d expires at s) k (min max_int64 (v + when key k (pos_part d)))
unfolding add_value
add_value-Holds none k v (pos d) expires at s hv hd h = ground arith
add_value-Holds none k v (negsuc d) expires at s hv hd h = ground arith
add_value-Holds (some j) k v (pos d) expires at s hv hd h =
    ground (arith, saturating_add_nonnegative_lem (value_or_zero (s.values j)) (pos d))
add_value-Holds (some j) k v (negsuc d) expires at s hv hd h = cc (hd.0)

pub decr_value-Holds :
    (key : Option QuotaKey) (k : QuotaKey) (v : ℕ) (d : ℤ) (s : QuotaStore)
    → v ≤ max_int64
    → IsAmount d
    → when key k (pos_part d) ≤ v
    → Holds s k v
    → Holds (decr_value key d s) k (v - when key k (pos_part d))
unfolding decr_value
decr_value-Holds none k v (pos d) s hv hd hl h = ground arith
decr_value-Holds none k v (negsuc d) s hv hd hl h = ground arith
decr_value-Holds (some j) k v (pos d) s hv hd hl h = ground (arith, -ℤ-pos v d)
decr_value-Holds (some j) k v (negsuc d) s hv hd hl h = cc (hd.0)

-- An update that adds `n` to the value of `k`, up to the largest int64.
pub record Books (k : QuotaKey) (n : ℕ) (f : QuotaStore → QuotaStore) : Type 0 where
  pub books :
      (v : ℕ) (s : QuotaStore) → v ≤ max_int64 → Holds s k v → Holds (f s) k (min max_int64 (v + n))

-- An update that takes `n` off the value of `k`.
pub record Unbooks (k : QuotaKey) (n : ℕ) (f : QuotaStore → QuotaStore) : Type 0 where
  pub unbooks :
      (v : ℕ) (s : QuotaStore) → v ≤ max_int64 → n ≤ v → Holds s k v → Holds (f s) k (v - n)

Holds-at : (s : QuotaStore) (k : QuotaKey) (v w : ℕ) → v ≡ w → Holds s k v → Holds s k w
Holds-at s k v w e h = rw (← e) h

module _ {k : QuotaKey} {m n : ℕ} {f g : QuotaStore → QuotaStore} where
  pub Books-compose : Books k m f → Books k n g → Books k (m + n) (λ s. g (f s))
  Books-compose hf hg = record {
    books = λ v s hv h.
        Holds-at (g (f s)) k (min max_int64 (min max_int64 (v + m) + n))
          (min max_int64 (v + (m + n))) (omega arith)
          (hg.books (min max_int64 (v + m)) (f s) (omega arith) (hf.books v s hv h));
  }

  pub Unbooks-compose : Unbooks k m f → Unbooks k n g → Unbooks k (m + n) (λ s. g (f s))
  Unbooks-compose hf hg = record {
    unbooks = λ v s hv hn h.
        Holds-at (g (f s)) k (v - m - n) (v - (m + n)) (omega arith) (
          hg.unbooks (v - m) (f s) (omega arith) (omega arith) (hf.unbooks v s hv (omega arith) h));
  }

pub add_value-Books :
    (key : Option QuotaKey) (k : QuotaKey) (d : ℤ) (expires at : ℕ)
    → IsAmount d
    → Books k (when key k (pos_part d)) (add_value key d expires at)
add_value-Books key k d expires at hd = record {
  books = λ v s hv h. add_value-Holds key k v d expires at s hv hd h;
}

pub decr_value-Unbooks :
    (key : Option QuotaKey) (k : QuotaKey) (d : ℤ)
    → IsAmount d
    → Unbooks k (when key k (pos_part d)) (decr_value key d)
decr_value-Unbooks key k d hd = record {
  unbooks = λ v s hv hn h. decr_value-Holds key k v d s hv hd hn h;
}

pub values-add_counter :
    (key : Option QuotaKey) (d : ℤ) (ttl at : ℕ) (s : QuotaStore)
    → (add_counter key d ttl at s).values ≡ s.values
unfolding add_counter
values-add_counter none d ttl at s = refl
values-add_counter (some j) d ttl at s = ground arith

pub values-reconcile_counter :
    (key : Option QuotaKey) (held actual : ℤ) (now : ℕ) (s : QuotaStore)
    → (reconcile_counter key held actual now s).values ≡ s.values
unfolding reconcile_counter
values-reconcile_counter none held actual now s = refl
values-reconcile_counter (some j) held actual now s = refl

pub add_counter-Books :
    (key : Option QuotaKey) (k : QuotaKey) (d : ℤ) (ttl at : ℕ)
    → Books k 0 (add_counter key d ttl at)
add_counter-Books key k d ttl at = record {
  books = λ v s hv h.
      rw (values-add_counter key d ttl at s)
        (Holds-at s k v (min max_int64 (v + 0)) (omega arith) h);
}

pub reconcile_counter-Unbooks :
    (key : Option QuotaKey) (k : QuotaKey) (held actual : ℤ) (now : ℕ)
    → Unbooks k 0 (reconcile_counter key held actual now)
reconcile_counter-Unbooks key k held actual now = record {
  unbooks = λ v s hv hn h.
      rw (values-reconcile_counter key held actual now s) (Holds-at s k v (v - 0) (omega arith) h);
}

-- What is booked on a key that is not held changes no held value.
pub add_value-IsUsedKey :
    (key : Option QuotaKey) (k : QuotaKey) (d : ℤ) (expires at : ℕ) (s : QuotaStore)
    → is_held k ≡ true
    → IsUsedKey key
    → ((add_value key d expires at s).values k ≡ s.values k)
      × ((add_value key d expires at s).value_expires k ≡ s.value_expires k)
unfolding add_value
add_value-IsUsedKey none k d expires at s h u = (refl, refl)
add_value-IsUsedKey (some j) k d expires at s h u = elim (QuotaKey-discrete k j) [
  | yes e ↦ (cc (ap is_held e), cc (ap is_held e))
  | no e ↦ (ground arith, ground arith)
]
