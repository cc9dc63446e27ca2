-- ===== src/Store/Limits/Refreshing/Serving.antt =====
-- What the snapshot of quota limits serves (store/limits.go).
use llmgw.Base.{
  ap, if-holds, and_left, and_right, ite-holds, ◌≡◌, ◌≢◌, refl, sym, ◌∙◌, subst, inl, inr, String,
  String-discrete, List, [], ◌∷◌, Option, none, some, Bool, true, false, if◌then◌else◌, lookup,
  insert, lookup-insert, Bool-cases,
}
use llmgw.Store.Usage.{LimitSpec}
use llmgw.Store.Limits.{
  LimitError, invalid_limit, store_closed, read, unread, validate_quota_limit,
  validate_quota_limit_map,
}
use llmgw.Store.Limits.Refreshing.{
  RefreshingStore, Loaded, loaded, load_failed, SnapshotOperation, puts, refreshes, closes,
  get_snapshot, checked, opened, new_refreshing, put_open, refreshed, operate_open, operate,
  operate_all,
}

loaded_inj : (a b : List (String × LimitSpec)) → loaded a ≡ loaded b → a ≡ b
loaded_inj a b h = cc

failed_loaded :
    (e : LimitError) (limits : List (String × LimitSpec)) → load_failed e ≢ loaded limits
failed_loaded e limits = λ h. cc

unread_read : (e : LimitError) (limit : LimitSpec) → unread e ≢ read (some limit)
unread_read e limit = λ h. cc

not_empty :
    (b : Bool) (o : Option LimitSpec) (limit : LimitSpec)
    → read (if b then none else o) ≡ read (some limit)
    → o ≡ some limit
not_empty true o limit h = absurd cc
not_empty false o limit h = cc

module _ (is_blank is_provider_name : String → Bool) where
  abbrev pub IsChecked : List (String × LimitSpec) → Type 0
  IsChecked limits =
      (key_id : String) (limit : LimitSpec)
      → lookup String-discrete key_id limits ≡ some limit
      → validate_quota_limit is_blank is_provider_name key_id limit ≡ true

  head_valid :
      (k key : String) (limit l : LimitSpec)
      → k ≡ key
      → validate_quota_limit is_blank is_provider_name key limit ≡ true
      → some limit ≡ some l
      → validate_quota_limit is_blank is_provider_name k l ≡ true
  head_valid k key limit l p v q = cc

  validate_quota_limit_map-IsChecked :
      (limits : List (String × LimitSpec))
      → validate_quota_limit_map is_blank is_provider_name limits ≡ true
      → IsChecked limits
  unfolding validate_quota_limit_map lookup
  validate_quota_limit_map-IsChecked [] h k l f = absurd cc
  validate_quota_limit_map-IsChecked ((key, limit) ∷ limits) h k l f =
      ite-holds (λ o. o ≡ some l → validate_quota_limit is_blank is_provider_name k l ≡ true)
        (String-discrete k key) (some limit) (lookup String-discrete k limits)
        (λ p q.
          head_valid k key limit l p
            (and_left (validate_quota_limit is_blank is_provider_name key limit) _ h) q)
        (λ _ q.
          validate_quota_limit_map-IsChecked limits
            (and_right (validate_quota_limit is_blank is_provider_name key limit) _ h) k l q)
        f

  insert-IsChecked :
      (key_id : String) (limit : LimitSpec) (limits : List (String × LimitSpec))
      → validate_quota_limit is_blank is_provider_name key_id limit ≡ true
      → IsChecked limits
      → IsChecked (insert String-discrete key_id limit limits)
  insert-IsChecked key_id limit limits v h k l f =
      ite-holds (λ o. o ≡ some l → validate_quota_limit is_blank is_provider_name k l ≡ true)
        (String-discrete k key_id) (some limit) (lookup String-discrete k limits)
        (λ p q. head_valid k key_id limit l p v q) (λ _ q. h k l q)
        (sym (lookup-insert String-discrete key_id k limit limits) ∙ f)

  checked-IsChecked :
      (answer : Loaded) (limits : List (String × LimitSpec))
      → checked is_blank is_provider_name answer ≡ loaded limits
      → IsChecked limits
  checked-IsChecked (load_failed e) limits h = absurd cc
  checked-IsChecked (loaded ls) limits h =
      elim (Bool-cases (validate_quota_limit_map is_blank is_provider_name ls)) [
        | inl t ↦
            subst IsChecked (loaded_inj ls limits (rw (t, checked) at h))
              (validate_quota_limit_map-IsChecked ls t)
        | inr f ↦ absurd (failed_loaded invalid_limit limits (rw (f, checked) at h))
      ]

  refreshed-IsChecked :
      (answer : Loaded) (s : RefreshingStore)
      → ((limits : List (String × LimitSpec)) → answer ≡ loaded limits → IsChecked limits)
      → IsChecked s.snapshot
      → IsChecked (refreshed is_blank is_provider_name answer s).0.snapshot
  refreshed-IsChecked (loaded limits) s f c = f limits refl
  refreshed-IsChecked (load_failed e) s f c = c

  put_open-IsChecked :
      (valid : Bool) (key_id : String) (limit : LimitSpec) (e : Option LimitError)
      (s : RefreshingStore)
      → validate_quota_limit is_blank is_provider_name key_id limit ≡ valid
      → IsChecked s.snapshot
      → IsChecked (put_open is_blank is_provider_name valid key_id limit e s).0.snapshot
  put_open-IsChecked false key_id limit e s h c = c
  put_open-IsChecked true key_id limit (some e) s h c = c
  put_open-IsChecked true key_id limit none s h c = insert-IsChecked key_id limit s.snapshot h c

  operate-IsChecked :
      (op : SnapshotOperation) (s : RefreshingStore)
      → IsChecked s.snapshot
      → IsChecked (operate is_blank is_provider_name op s).0.snapshot
  unfolding operate
  operate-IsChecked op s c =
      if-holds (λ (r : RefreshingStore × Option LimitError). IsChecked r.0.snapshot) s.closed _ _
        (λ _. c) (λ _. open_IsChecked op s c)
    where
      open_IsChecked :
          (op : SnapshotOperation) (s : RefreshingStore)
          → IsChecked s.snapshot
          → IsChecked (operate_open is_blank is_provider_name op s).0.snapshot
      open_IsChecked (puts key_id limit e) s c = put_open-IsChecked _ key_id limit e s refl c
      open_IsChecked (refreshes answer) s c =
          refreshed-IsChecked (checked is_blank is_provider_name answer) s
            (checked-IsChecked answer) c
      open_IsChecked closes s c = c

  operate_all-IsChecked :
      (ops : List SnapshotOperation) (s : RefreshingStore)
      → IsChecked s.snapshot
      → IsChecked (operate_all is_blank is_provider_name ops s).snapshot
  unfolding operate_all
  operate_all-IsChecked [] s c = c
  operate_all-IsChecked (op ∷ ops) s c =
      operate_all-IsChecked ops (operate is_blank is_provider_name op s).0
        (operate-IsChecked op s c)

  abbrev loaded_by : Option RefreshingStore → Loaded
  loaded_by none = loaded []
  loaded_by (some s) = loaded s.snapshot

  opened-snapshot :
      (answer : Loaded) (s : RefreshingStore)
      → opened is_blank is_provider_name answer ≡ some s
      → answer ≡ loaded s.snapshot
  opened-snapshot (load_failed e) s h = absurd cc
  opened-snapshot (loaded limits) s h = ap loaded_by h

  get_snapshot-lookup :
      (is_empty : String → Bool) (key_id : String) (limit : LimitSpec) (s : RefreshingStore)
      → get_snapshot is_empty key_id s ≡ read (some limit)
      → lookup String-discrete key_id s.snapshot ≡ some limit
  unfolding get_snapshot
  get_snapshot-lookup is_empty key_id limit s h =
      if-holds (λ r. r ≡ read (some limit) → lookup String-discrete key_id s.snapshot ≡ some limit)
        s.closed _ _ (λ _ q. absurd (unread_read store_closed limit q))
        (λ _ q. not_empty (is_empty key_id) (lookup String-discrete key_id s.snapshot) limit q) h

-- A store that was opened serves only limits that pass the checks, whatever the source answers: after
-- any sequence of Put, Refresh and Close, a limit that Get reads for a key is valid for that key.
pub get_snapshot-IsValid :
    (is_blank is_provider_name is_empty : String → Bool) (answer : Loaded)
    (ops : List SnapshotOperation) (s : RefreshingStore) (key_id : String) (limit : LimitSpec)
    → new_refreshing is_blank is_provider_name answer ≡ some s
    → get_snapshot is_empty key_id (operate_all is_blank is_provider_name ops s) ≡ read (some limit)
    → validate_quota_limit is_blank is_provider_name key_id limit ≡ true
unfolding new_refreshing
get_snapshot-IsValid is_blank is_provider_name is_empty answer ops s key_id limit h g =
    operate_all-IsChecked is_blank is_provider_name ops s
      (checked-IsChecked is_blank is_provider_name answer s.snapshot
        (opened-snapshot is_blank is_provider_name (checked is_blank is_provider_name answer) s h))
      key_id limit (get_snapshot-lookup is_blank is_provider_name is_empty key_id limit _ g)

put_open-keeps :
    (is_blank is_provider_name : String → Bool) (valid : Bool) (key_id : String) (limit : LimitSpec)
    (source_err : Option LimitError) (s : RefreshingStore) (e : LimitError)
    → (put_open is_blank is_provider_name valid key_id limit source_err s).1 ≡ some e
    → (put_open is_blank is_provider_name valid key_id limit source_err s).0.snapshot ≡ s.snapshot
put_open-keeps b p false key_id limit source_err s e h = refl
put_open-keeps b p true key_id limit (some x) s e h = refl
put_open-keeps b p true key_id limit none s e h = absurd cc

refreshed-keeps :
    (is_blank is_provider_name : String → Bool) (answer : Loaded) (s : RefreshingStore)
    (e : LimitError)
    → (refreshed is_blank is_provider_name answer s).1 ≡ some e
    → (refreshed is_blank is_provider_name answer s).0.snapshot ≡ s.snapshot
refreshed-keeps b p (loaded limits) s e h = absurd cc
refreshed-keeps b p (load_failed x) s e h = refl

operate_open-keeps :
    (is_blank is_provider_name : String → Bool) (op : SnapshotOperation) (s : RefreshingStore)
    (e : LimitError)
    → (operate_open is_blank is_provider_name op s).1 ≡ some e
    → (operate_open is_blank is_provider_name op s).0.snapshot ≡ s.snapshot
operate_open-keeps b p (puts key_id limit source_err) s e h =
    put_open-keeps b p _ key_id limit source_err s e h
operate_open-keeps b p (refreshes answer) s e h = refreshed-keeps b p (checked b p answer) s e h
operate_open-keeps b p closes s e h = refl

-- An operation that returns an error leaves the last known-good snapshot: a Put of an invalid limit or
-- one that the source refuses, a Refresh whose load fails or holds an invalid limit, and any Put or
-- Refresh of a closed store.
pub operate-keeps :
    (is_blank is_provider_name : String → Bool) (op : SnapshotOperation) (s : RefreshingStore)
    (e : LimitError)
    → (operate is_blank is_provider_name op s).1 ≡ some e
    → (operate is_blank is_provider_name op s).0.snapshot ≡ s.snapshot
unfolding operate
operate-keeps b p op s e h =
    if-holds (λ (r : RefreshingStore × Option LimitError). r.1 ≡ some e → r.0.snapshot ≡ s.snapshot)
      s.closed _ _ (λ _ _. refl) (λ _. operate_open-keeps b p op s e) h
