-- ===== src/Store/Settlements.antt =====
-- The replay window of store/store.go: a settled request is remembered for a minute, in order of
-- settlement, and at most 65,536 are.
use llmgw.Base.{
  ℕ, suc, String, String-discrete, ◌+◌, ◌==◌, ltb, leb, if◌then◌else◌, Bool, true, false, Option,
  none, some, List, [], ◌∷◌, ◌++◌, length, lookup, remove, insert,
}
use llmgw.Store.State.{Settlement, QuotaStore}
use llmgw.Store.Clock.{minute_ns}

abbrev pub quota_settlement_replay_window : ℕ
quota_settlement_replay_window = minute_ns

abbrev pub max_memory_settlements : ℕ
max_memory_settlements = 65_536

abbrev pub Settled : Type 0
Settled = List (ℕ × String) × List (String × Settlement)

-- settledOrder.Remove(element)
unfoldable pub remove_element : ℕ → List (ℕ × String) → List (ℕ × String)
remove_element e [] = []
remove_element e ((f, id) ∷ order) = if e == f then order else (f, id) ∷ remove_element e order

-- ok && settlement.element == front
abbrev pub points_to : Option Settlement → ℕ → Bool
points_to none front = false
points_to (some s) front = s.element == front

-- ok && now.Before(settlement.expires)
abbrev pub is_remembered : Option Settlement → ℕ → Bool
is_remembered none now = false
is_remembered (some s) now = ltb now s.expires

-- Drop the settlement that points to the removed front element.
unfoldable pub forget_front : ℕ → String → List (String × Settlement) → List (String × Settlement)
forget_front front id settlements =
    if points_to (lookup String-discrete id settlements) front
    then remove String-discrete id settlements
    else settlements

-- The loop of `cleanupSettlements`.
unfoldable pub cleanup_settled : ℕ → List (ℕ × String) → List (String × Settlement) → Settled
unfolding forget_front
cleanup_settled now [] settlements = ([], settlements)
cleanup_settled now ((front, id) ∷ order) settlements =
    let rest = cleanup_settled now order (forget_front front id settlements) in
    if is_remembered (lookup String-discrete id settlements) now
    then ((front, id) ∷ order, settlements)
    else rest

-- The loop `for len(s.settlements) > max { s.removeOldestSettlement() }`. The model stops when no
-- element is left, where `removeOldestSettlement` would return for ever.
unfoldable pub trim_settled : ℕ → List (ℕ × String) → List (String × Settlement) → Settled
unfolding forget_front
trim_settled most [] settlements = ([], settlements)
trim_settled most ((front, id) ∷ order) settlements =
    let rest = trim_settled most order (forget_front front id settlements) in
    if leb (length settlements) most then ((front, id) ∷ order, settlements) else rest

unfoldable pub cleanup_settlements : ℕ → QuotaStore → QuotaStore
unfolding cleanup_settled
cleanup_settlements now s =
    let (order, settlements) = cleanup_settled now s.settled_order s.settlements in
    record s { settled_order = order; settlements = settlements }

abbrev pub order_without : Option Settlement → List (ℕ × String) → List (ℕ × String)
order_without none order = order
order_without (some s) order = remove_element s.element order

abbrev pub new_settlement : Bool → ℕ → ℕ → Settlement
new_settlement expired now element = record {
  expires = now + quota_settlement_replay_window;
  expired = expired;
  element = element;
}

-- `recordSettlement` up to its calls of the two loops: the newest settlement stands at the back.
unfoldable pub push_settlement : String → Bool → ℕ → QuotaStore → QuotaStore
unfolding remove_element
push_settlement id expired now s = record s {
  settled_order =
      order_without (lookup String-discrete id s.settlements) s.settled_order
      ++ (s.next_element, id) ∷ [];
  settlements = insert String-discrete id (new_settlement expired now s.next_element) s.settlements;
  next_element = suc s.next_element;
}

unfoldable pub trim_settlements : QuotaStore → QuotaStore
unfolding trim_settled
trim_settlements s =
    let (order, settlements) = trim_settled max_memory_settlements s.settled_order s.settlements in
    record s { settled_order = order; settlements = settlements }

abbrev pub is_empty_id : String → Bool
is_empty_id id = elim (String-discrete id "") [ yes _ ↦ true | no _ ↦ false ]

unfoldable pub record_settlement : String → Bool → ℕ → QuotaStore → QuotaStore
unfolding push_settlement cleanup_settlements trim_settlements
record_settlement id expired now s =
    if is_empty_id id
    then s
    else trim_settlements (cleanup_settlements now (push_settlement id expired now s))
