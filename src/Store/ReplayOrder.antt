-- ===== src/Store/ReplayOrder.antt =====
-- The list of settled requests of store/store.go: what removing and adding an element keeps.
use llmgw.Base.{
  ℕ, String, ◌<◌, ◌≡◌, ◌≢◌, sym, ◌∙◌, inl, inr, Bool-cases, List, [], ◌∷◌, ◌++◌, All, All-append,
  arith, ◌==◌,
}
use llmgw.Store.Settlements.{remove_element}
use llmgw.Store.Replay.{In, Distinct}

abbrev pub Below : ℕ → List (ℕ × String) → Type 0
Below next order = All (λ p. p.0 < next) order

pub In-append-left :
    (e : ℕ) (id : String) (xs ys : List (ℕ × String)) → In e id xs → In e id (xs ++ ys)
In-append-left e id [] ys h = absurd h
In-append-left e id ((f, j) ∷ xs) ys (inl p) = inl p
In-append-left e id ((f, j) ∷ xs) ys (inr h) = inr (In-append-left e id xs ys h)

pub In-append-right :
    (e : ℕ) (id : String) (xs ys : List (ℕ × String)) → In e id ys → In e id (xs ++ ys)
In-append-right e id [] ys h = h
In-append-right e id ((f, j) ∷ xs) ys h = inr (In-append-right e id xs ys h)

pub In-remove_element :
    (e f : ℕ) (id : String) (order : List (ℕ × String))
    → e ≢ f
    → In e id order
    → In e id (remove_element f order)
unfolding remove_element
In-remove_element e f id [] n h = h
In-remove_element e f id ((g, j) ∷ order) n h = ground (arith, In-remove_element e f id order)

pub All-remove_element :
    (P : ℕ × String → Type 0) (f : ℕ) (order : List (ℕ × String))
    → All P order
    → All P (remove_element f order)
unfolding remove_element
All-remove_element P f [] h = h
All-remove_element P f ((g, j) ∷ order) h = elim (Bool-cases (f == g)) [
  | inl e ↦ rw e h.1
  | inr e ↦ rw e (h.0, All-remove_element P f order h.1)
]

pub Distinct-remove_element :
    (f : ℕ) (order : List (ℕ × String)) → Distinct order → Distinct (remove_element f order)
unfolding remove_element
Distinct-remove_element f [] h = h
Distinct-remove_element f ((g, j) ∷ order) h = elim (Bool-cases (f == g)) [
  | inl e ↦ rw e h.1
  | inr e ↦ rw e (All-remove_element _ f order h.0, Distinct-remove_element f order h.1)
]

pub Distinct-push :
    (next : ℕ) (id : String) (order : List (ℕ × String))
    → Below next order
    → Distinct order
    → Distinct (order ++ (next, id) ∷ [])
Distinct-push next id [] b d = (tt, tt)
Distinct-push next id ((g, j) ∷ order) b d = (
  All-append (λ p. p.0 ≢ g) order ((next, id) ∷ []) d.0 ((λ e. omega arith), tt),
  Distinct-push next id order b.1 d.1,
)

not-In :
    (e : ℕ) (id : String) (order : List (ℕ × String)) → All (λ p. p.0 ≢ e) order → ¬ In e id order
not-In e id [] a h = h
not-In e id ((g, j) ∷ order) a (inl p) = a.0 (sym p.0)
not-In e id ((g, j) ∷ order) a (inr h) = not-In e id order a.1 h

-- An element stands in the order for one request.
pub In-unique :
    (e : ℕ) (i j : String) (order : List (ℕ × String))
    → Distinct order
    → In e i order
    → In e j order
    → i ≡ j
In-unique e i j [] d h k = absurd h
In-unique e i j ((g, n) ∷ order) d (inl p) (inl q) = p.1 ∙ sym q.1
In-unique e i j ((g, n) ∷ order) d (inl p) (inr k) = absurd (not-In g j order d.0 (rw (← p.0) k))
In-unique e i j ((g, n) ∷ order) d (inr h) (inl q) = absurd (not-In g i order d.0 (rw (← q.0) h))
In-unique e i j ((g, n) ∷ order) d (inr h) (inr k) = In-unique e i j order d.1 h k
