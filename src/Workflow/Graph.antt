-- ===== src/Workflow/Graph.antt =====
-- `_check_cycles` of python/src/roar_sdk/workflow.py.
use roar_protocol.Base.{
  ℕ, zero, suc, ◌+◌, String, Bool, true, false, not, nat_eq, Option, none, some, List, [], ◌∷◌,
  ◌++◌, if◌then◌else◌, length, ◌==◌,
}
use roar_protocol.Base.Dict.{Dict, lookup, contains}
use roar_protocol.Workflow.{Tasks}

-- Kahn's algorithm: the degrees and the successors of every task.
abbrev pub initial {ℓ} : {A : Type ℓ} → A → Tasks → Dict A
initial a [] = []
initial a ((k, t) ∷ d) = (k, a) ∷ initial a d

abbrev pub bump : String → Dict ℕ → Dict ℕ
bump k [] = []
bump k ((j, n) ∷ d) = if k == j then (j, n + 1) ∷ d else (j, n) ∷ bump k d

abbrev pub push : String → String → Dict (List String) → Dict (List String)
push k x [] = []
push k x ((j, xs) ∷ d) = if k == j then (j, xs ++ x ∷ []) ∷ d else (j, xs) ∷ push k x d

pub record Graph : Type 0 where
  pub in_degree : Dict ℕ
  pub adj : Dict (List String)

unfoldable pub add_edges : String → List String → Graph → Graph
add_edges k [] g = g
add_edges k (dep ∷ deps) g = add_edges k deps (
    if contains dep g.adj
    then record { in_degree = bump k g.in_degree; adj = push dep k g.adj }
    else g)

unfoldable pub add_all : Tasks → Graph → Graph
add_all [] g = g
add_all ((k, t) ∷ d) g = add_all d (add_edges k t.depends_on g)

unfoldable pub graph_of : Tasks → Graph
graph_of d = add_all d (record { in_degree = initial 0 d; adj = initial [] d })

abbrev pub zero_degree : Dict ℕ → List String
zero_degree [] = []
zero_degree ((k, zero) ∷ d) = k ∷ zero_degree d
zero_degree ((k, suc n) ∷ d) = zero_degree d

-- `in_degree[k] -= 1`, and whether it is 0 now. A count of 0 goes below it, and is never 0 again:
-- it stays as it is here.
abbrev pub lower : String → Dict ℕ → Dict ℕ × Bool
lower k [] = ([], false)
lower k ((j, n) ∷ d) =
    let (d', hit) = lower k d in
    if k == j
    then (elim n [
      | zero ↦ ((j, zero) ∷ d, false)
      | suc zero ↦ ((j, zero) ∷ d, true)
      | suc (suc m) ↦ ((j, suc m) ∷ d, false)
    ])
    else ((j, n) ∷ d', hit)

-- the neighbours of a node that is taken off the queue
unfoldable pub release : List String → Dict ℕ → List String → Dict ℕ × List String
release [] degrees queue = (degrees, queue)
release (x ∷ xs) degrees queue =
    let (degrees', hit) = lower x degrees in
    release xs degrees' (if hit then queue ++ x ∷ [] else queue)

abbrev pub neighbors : String → Dict (List String) → List String
neighbors k adj = elim (lookup k adj) [ none ↦ [] | some xs ↦ xs ]

-- The loop of `_check_cycles` on fuel: how many nodes it visits.
unfoldable pub visit : Dict (List String) → ℕ → Dict ℕ → List String → ℕ → Option ℕ
visit adj n degrees [] visited = some visited
visit adj zero degrees (k ∷ queue) visited = none
visit adj (suc n) degrees (k ∷ queue) visited =
    let (degrees', queue') = release (neighbors k adj) degrees queue in
    visit adj n degrees' queue' (visited + 1)

-- Whether there is a cycle; none where the fuel is used up.
unfoldable pub check_cycles : ℕ → Tasks → Option Bool
check_cycles fuel d =
    let g = graph_of d in
    elim (visit g.adj fuel g.in_degree (zero_degree g.in_degree) 0) [
      | none ↦ none
      | some n ↦ some (not (nat_eq n (length d)))
    ]
