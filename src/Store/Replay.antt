-- ===== src/Store/Replay.antt =====
-- The replay window of store/store.go stays consistent and bounded.
use llmgw.Base.{
  ℕ, String, String-discrete, ◌≤◌, ◌≡◌, ◌≢◌, refl, ◌⊎◌, inl, inr, true, Bool-cases, some, List, [],
  ◌∷◌, length, lookup, lookup-remove, All, arith, leb, leb→le,
}
use llmgw.Store.State.{Settlement}
use llmgw.Store.Settlements.{
  Settled, points_to, is_remembered, forget_front, cleanup_settled, trim_settled,
}

-- The element with this identity stands in the order, for this request.
abbrev pub In : ℕ → String → List (ℕ × String) → Type 0
In e id [] = ⊥
In e id ((f, j) ∷ order) = ((e ≡ f) × (id ≡ j)) ⊎ In e id order

abbrev pub Distinct : List (ℕ × String) → Type 0
Distinct [] = Unit
Distinct ((f, j) ∷ order) = All (λ p. p.0 ≢ f) order × Distinct order

-- Every settlement points to its own element of the order, and the elements are distinct.
pub record IsLinked (order : List (ℕ × String)) (settlements : List (String × Settlement))
    : Type 0 where
  pub linked :
      (id : String) (st : Settlement)
      → lookup String-discrete id settlements ≡ some st
      → In st.element id order
  pub distinct : Distinct order

points_to_self :
    (settlements : List (String × Settlement)) (id : String) (st : Settlement) (f : ℕ)
    → lookup String-discrete id settlements ≡ some st
    → st.element ≡ f
    → points_to (lookup String-discrete id settlements) f ≡ true
points_to_self settlements id st f e p = rw e (ground arith)

forget_front-linked :
    (f : ℕ) (id : String) (order : List (ℕ × String)) (settlements : List (String × Settlement))
    → ((j : String) (st : Settlement)
        → lookup String-discrete j settlements ≡ some st
        → In st.element j ((f, id) ∷ order))
    → (j : String) (st : Settlement)
    → lookup String-discrete j (forget_front f id settlements) ≡ some st
    → In st.element j order
unfolding forget_front
forget_front-linked f id order settlements h j st e = ground (
  arith,
  h j st,
  lookup-remove String-discrete id j settlements,
  points_to_self settlements id st f,
)

pub forget_front-IsLinked :
    (f : ℕ) (id : String) (order : List (ℕ × String)) (settlements : List (String × Settlement))
    → IsLinked ((f, id) ∷ order) settlements
    → IsLinked order (forget_front f id settlements)
forget_front-IsLinked f id order settlements v = record {
  linked = forget_front-linked f id order settlements v.linked;
  distinct = v.distinct.1;
}

abbrev pub IsLinked2 : Settled → Type 0
IsLinked2 r = IsLinked r.0 r.1

pub cleanup_settled-IsLinked :
    (now : ℕ) (order : List (ℕ × String)) (settlements : List (String × Settlement))
    → IsLinked order settlements
    → IsLinked2 (cleanup_settled now order settlements)
unfolding cleanup_settled
cleanup_settled-IsLinked now [] settlements v = v
cleanup_settled-IsLinked now ((f, id) ∷ order) settlements v =
    let ih =
      cleanup_settled-IsLinked now order (forget_front f id settlements)
        (forget_front-IsLinked f id order settlements v) in
    elim (Bool-cases (is_remembered (lookup String-discrete id settlements) now)) [
      | inl stays ↦ rw (stays, cleanup_settled) v
      | inr goes ↦ rw (goes, cleanup_settled) ih
    ]

pub trim_settled-IsLinked :
    (most : ℕ) (order : List (ℕ × String)) (settlements : List (String × Settlement))
    → IsLinked order settlements
    → IsLinked2 (trim_settled most order settlements)
unfolding trim_settled
trim_settled-IsLinked most [] settlements v = v
trim_settled-IsLinked most ((f, id) ∷ order) settlements v =
    let ih =
      trim_settled-IsLinked most order (forget_front f id settlements)
        (forget_front-IsLinked f id order settlements v) in
    elim (Bool-cases (leb (length settlements) most)) [
      | inl stays ↦ rw (stays, trim_settled) v
      | inr goes ↦ rw (goes, trim_settled) ih
    ]

-- A nonempty map has an entry that a lookup finds.
length_of_no_entry :
    (settlements : List (String × Settlement)) → IsLinked [] settlements → length settlements ≡ 0
unfolding lookup
length_of_no_entry [] v = refl
length_of_no_entry ((id, st) ∷ settlements) v = absurd (v.linked id st (ground arith))

pub length-trim_settled :
    (most : ℕ) (order : List (ℕ × String)) (settlements : List (String × Settlement))
    → IsLinked order settlements
    → length (trim_settled most order settlements).1 ≤ most
unfolding trim_settled
length-trim_settled most [] settlements v = omega (arith, length_of_no_entry settlements v)
length-trim_settled most ((f, id) ∷ order) settlements v =
    let ih =
      length-trim_settled most order (forget_front f id settlements)
        (forget_front-IsLinked f id order settlements v) in
    elim (Bool-cases (leb (length settlements) most)) [
      | inl stays ↦ rw (stays, trim_settled) (leb→le (length settlements) most stays)
      | inr goes ↦ rw (goes, trim_settled) ih
    ]
