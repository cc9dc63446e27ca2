-- ===== src/Store/ReplayBound.antt =====
-- `recordSettlement` and `cleanupSettlements` of store/store.go keep the replay window consistent
-- and bounded.
use llmgw.Base.{
  ℕ, suc, String, String-discrete, ◌≤◌, ◌<◌, ◌≡◌, ◌≢◌, inl, inr, Bool, Bool-cases, Option-cases,
  Option, none, some, List, [], ◌∷◌, length, lookup, remove, lookup-insert, All-append, All-map,
  arith,
}
use llmgw.Store.State.{Settlement, QuotaStore}
use llmgw.Store.Settlements.{
  cleanup_settled, trim_settled, cleanup_settlements, order_without, push_settlement,
  record_settlement, max_memory_settlements, is_empty_id, is_remembered, forget_front,
  new_settlement,
}
use llmgw.Store.Replay.{
  In, Distinct, IsLinked, cleanup_settled-IsLinked, trim_settled-IsLinked, length-trim_settled,
}
use llmgw.Store.ReplayOrder.{
  Below, In-append-left, In-append-right, In-remove_element, All-remove_element,
  Distinct-remove_element, Distinct-push, In-unique,
}

-- The replay window of a store: consistent, with fresh identities to come, and within its bound.
pub record IsReplay (s : QuotaStore) : Type 0 where
  pub links : IsLinked s.settled_order s.settlements
  pub fresh : Below s.next_element s.settled_order
  pub bounded : length s.settlements ≤ max_memory_settlements

pub Below-cleanup_settled :
    (next now : ℕ) (order : List (ℕ × String)) (settlements : List (String × Settlement))
    → Below next order
    → Below next (cleanup_settled now order settlements).0
unfolding cleanup_settled
Below-cleanup_settled next now [] settlements b = b
Below-cleanup_settled next now ((f, id) ∷ order) settlements b =
    elim (Bool-cases (is_remembered (lookup String-discrete id settlements) now)) [
      | inl stays ↦ rw (stays, cleanup_settled) b
      | inr goes ↦
          rw (goes, cleanup_settled)
            (Below-cleanup_settled next now order (forget_front f id settlements) b.1)
    ]

Below-trim_settled :
    (next most : ℕ) (order : List (ℕ × String)) (settlements : List (String × Settlement))
    → Below next order
    → Below next (trim_settled most order settlements).0
unfolding trim_settled
Below-trim_settled next most [] settlements b = b
Below-trim_settled next most ((f, id) ∷ order) settlements b =
    ground (arith, Below-trim_settled next most order (forget_front f id settlements) b.1)

length-remove-le :
    (id : String) (settlements : List (String × Settlement))
    → length (remove String-discrete id settlements) ≤ length settlements
unfolding remove
length-remove-le id [] = omega arith
length-remove-le id ((j, st) ∷ settlements) = ground (arith, length-remove-le id settlements)

length-forget_front-le :
    (f : ℕ) (id : String) (settlements : List (String × Settlement))
    → length (forget_front f id settlements) ≤ length settlements
unfolding forget_front
length-forget_front-le f id settlements = ground (arith, length-remove-le id settlements)

length-cleanup_settled-le :
    (now : ℕ) (order : List (ℕ × String)) (settlements : List (String × Settlement))
    → length (cleanup_settled now order settlements).1 ≤ length settlements
unfolding cleanup_settled
length-cleanup_settled-le now [] settlements = omega arith
length-cleanup_settled-le now ((f, id) ∷ order) settlements = ground (
  arith,
  length-forget_front-le f id settlements,
  length-cleanup_settled-le now order (forget_front f id settlements),
)

-- Another request keeps its element when the old element of `id` goes.
In-order_without :
    (id j : String) (st : Settlement) (order : List (ℕ × String))
    (settlements : List (String × Settlement))
    → IsLinked order settlements
    → j ≢ id
    → lookup String-discrete j settlements ≡ some st
    → In st.element j (order_without (lookup String-discrete id settlements) order)
In-order_without id j st order settlements v n e =
    elim (Option-cases (lookup String-discrete id settlements)) [
      | inl none' ↦ rw none' (v.linked j st e)
      | inr (old, found) ↦ rw found (
          In-remove_element st.element old.element j order
            (λ same. n (
              In-unique st.element j id order v.distinct (v.linked j st e)
                (rw same (v.linked id old found))))
            (v.linked j st e))
    ]

Distinct-order_without :
    (o : Option Settlement) (order : List (ℕ × String))
    → Distinct order
    → Distinct (order_without o order)
Distinct-order_without none order d = d
Distinct-order_without (some st) order d = Distinct-remove_element st.element order d

Below-order_without :
    (next : ℕ) (o : Option Settlement) (order : List (ℕ × String))
    → Below next order
    → Below next (order_without o order)
Below-order_without next none order b = b
Below-order_without next (some st) order b = All-remove_element _ st.element order b

push_settlement-linked :
    (id : String) (expired : Bool) (now : ℕ) (s : QuotaStore)
    → IsLinked s.settled_order s.settlements
    → (j : String) (st : Settlement)
    → lookup String-discrete j (push_settlement id expired now s).settlements ≡ some st
    → In st.element j (push_settlement id expired now s).settled_order
unfolding push_settlement
push_settlement-linked id expired now s v j st e = elim (String-discrete j id) [
  | yes same ↦ In-append-right st.element j _ ((s.next_element, id) ∷ []) (
      inl (
        ground (
          arith,
          lookup-insert String-discrete id j (new_settlement expired now s.next_element)
              s.settlements,
        ),
        same,
      ))
  | no differ ↦ In-append-left st.element j _ _ (
      In-order_without id j st s.settled_order s.settlements v differ (
        ground (
          arith,
          lookup-insert String-discrete id j (new_settlement expired now s.next_element)
              s.settlements,
        )))
]

push_settlement-IsLinked :
    (id : String) (expired : Bool) (now : ℕ) (s : QuotaStore)
    → IsLinked s.settled_order s.settlements
    → Below s.next_element s.settled_order
    → IsLinked
        (push_settlement id expired now s).settled_order
        (push_settlement id expired now s).settlements
unfolding push_settlement
push_settlement-IsLinked id expired now s v b = record {
  linked = push_settlement-linked id expired now s v;
  distinct =
      Distinct-push s.next_element id
        (order_without (lookup String-discrete id s.settlements) s.settled_order)
        (Below-order_without s.next_element (lookup String-discrete id s.settlements)
          s.settled_order b)
        (Distinct-order_without (lookup String-discrete id s.settlements) s.settled_order
          v.distinct);
}

Below-push_settlement :
    (id : String) (expired : Bool) (now : ℕ) (s : QuotaStore)
    → Below s.next_element s.settled_order
    → Below
        (push_settlement id expired now s).next_element
        (push_settlement id expired now s).settled_order
unfolding push_settlement
Below-push_settlement id expired now s b =
    All-append (λ p. p.0 < suc s.next_element)
      (order_without (lookup String-discrete id s.settlements) s.settled_order)
      ((s.next_element, id) ∷ [])
      (All-map _ (λ p h. omega arith)
        (Below-order_without s.next_element (lookup String-discrete id s.settlements)
          s.settled_order b))
      (omega arith, tt)

-- A settlement keeps the window consistent and within 65,536 entries, whatever it held before.
pub record_settlement-IsReplay :
    (id : String) (expired : Bool) (now : ℕ) (s : QuotaStore)
    → IsReplay s
    → IsReplay (record_settlement id expired now s)
unfolding record_settlement
record_settlement-IsReplay id expired now s v = elim (Bool-cases (is_empty_id id)) [
  | inl e ↦ rw (e, record_settlement) v
  | inr e ↦
      rw (e, record_settlement)
        (record {
          links = trim_settled-IsLinked max_memory_settlements _ _ cleaned;
          fresh =
              Below-trim_settled _ max_memory_settlements _ _
                (Below-cleanup_settled _ now _ _ pushed_below);
          bounded = length-trim_settled max_memory_settlements _ _ cleaned;
        })
]
  where
    pushed_below :
        Below
          (push_settlement id expired now s).next_element
          (push_settlement id expired now s).settled_order
    pushed_below = Below-push_settlement id expired now s v.fresh

    cleaned :
        IsLinked
          (cleanup_settled now
            (push_settlement id expired now s).settled_order
            (push_settlement id expired now s).settlements).0
          (cleanup_settled now
            (push_settlement id expired now s).settled_order
            (push_settlement id expired now s).settlements).1
    cleaned =
        cleanup_settled-IsLinked now _ _ (push_settlement-IsLinked id expired now s v.links v.fresh)

pub cleanup_settlements-IsReplay :
    (now : ℕ) (s : QuotaStore) → IsReplay s → IsReplay (cleanup_settlements now s)
unfolding cleanup_settlements
cleanup_settlements-IsReplay now s v = record {
  links = cleanup_settled-IsLinked now _ _ v.links;
  fresh = Below-cleanup_settled _ now _ _ v.fresh;
  bounded = omega (arith, length-cleanup_settled-le now s.settled_order s.settlements, v.bounded);
}
