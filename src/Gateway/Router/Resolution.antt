-- ===== src/Gateway/Router/Resolution.antt =====
-- Which routes the router returns (gateway/gateway.go).
use mathlib.Core.List.Perm
use mathlib.Core.List.{Perm}
use llmgw.Base.{◌≡◌, refl, ◌∙◌, ap, List, [], ◌∷◌, ◌++◌, arith}
use llmgw.Gateway.Router.{ResolvedRoute}
use llmgw.Gateway.Router.Order.{joins, priority_groups}

abbrev pub concat : List (List ResolvedRoute) → List ResolvedRoute
concat [] = []
concat (group ∷ groups) = group ++ concat groups

concat-joins :
    (x : ResolvedRoute) (groups : List (List ResolvedRoute))
    → concat (joins x groups) ≡ x ∷ concat groups
concat-joins x [] = refl
concat-joins x ([] ∷ groups) = refl
concat-joins x ((y ∷ group) ∷ groups) = ground arith

pub concat-priority_groups : (xs : List ResolvedRoute) → concat (priority_groups xs) ≡ xs
unfolding priority_groups
concat-priority_groups [] = refl
concat-priority_groups (x ∷ xs) =
    concat-joins x (priority_groups xs) ∙ ap (λ ys. x ∷ ys) (concat-priority_groups xs)
