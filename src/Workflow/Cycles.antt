-- ===== src/Workflow/Cycles.antt =====
-- The number of steps of the test of cycles.
use roar_protocol.Base.{
  ℕ, zero, suc, ◌+◌, ◌≤◌, String, ◌≡◌, ◌≢◌, refl, none, List, [], ◌∷◌, ◌++◌, arith, if◌then◌else◌,
  length, length-append,
}
use roar_protocol.Base.Dict.{Dict}
use roar_protocol.Workflow.{Tasks}
use roar_protocol.Workflow.Graph.{
  push, Graph, initial, add_all, add_edges, bump, lower, release, neighbors, visit, check_cycles,
  graph_of, zero_degree,
}

-- The sum of the degrees.
abbrev pub total : Dict ℕ → ℕ
total [] = 0
total ((k, n) ∷ d) = n + total d

total-lower :
    (k : String) (d : Dict ℕ)
    → let (d', hit) = lower k d in total d' + (if hit then 1 else 0) ≤ total d
total-lower k [] = omega arith
total-lower k ((j, zero) ∷ d) = ground (arith, total-lower k d)
total-lower k ((j, suc zero) ∷ d) = ground (arith, total-lower k d)
total-lower k ((j, suc (suc n)) ∷ d) = ground (arith, total-lower k d)

total-release :
    (xs : List String) (d : Dict ℕ) (queue : List String)
    → let (d', queue') = release xs d queue in total d' + length queue' ≤ total d + length queue
unfolding release
total-release [] d queue = omega arith
total-release (x ∷ xs) d queue =
    let (d', hit) = lower x d in
    let queue' = if hit then queue ++ x ∷ [] else queue in
    let grown : length queue' ≡ length queue + (if hit then 1 else 0) =
      ground (arith, length-append queue (x ∷ [])) in
    omega (arith, total-lower x d, total-release xs d' queue', grown)

visit-some :
    (adj : Dict (List String)) (fuel : ℕ) (d : Dict ℕ) (queue : List String) (visited : ℕ)
    → total d + length queue ≤ fuel
    → visit adj fuel d queue visited ≢ none
unfolding visit
visit-some adj fuel d [] visited h = λ e. ground arith
visit-some adj zero d (k ∷ queue) visited h = λ e. omega (arith, h)
visit-some adj (suc n) d (k ∷ queue) visited h =
    let (d', queue') = release (neighbors k adj) d queue in
    visit-some adj n d' queue' (visited + 1)
      (omega (arith, h, total-release (neighbors k adj) d queue))

zero_degree-le : (d : Dict ℕ) → length (zero_degree d) ≤ length d
zero_degree-le [] = omega arith
zero_degree-le ((k, zero) ∷ d) = omega (arith, zero_degree-le d)
zero_degree-le ((k, suc n) ∷ d) = omega (arith, zero_degree-le d)

-- The number of dependencies that the tasks declare.
abbrev pub edges : Tasks → ℕ
edges [] = 0
edges ((k, t) ∷ d) = length t.depends_on + edges d

total-bump : (k : String) (d : Dict ℕ) → total (bump k d) ≤ total d + 1
total-bump k [] = omega arith
total-bump k ((j, n) ∷ d) = ground (arith, total-bump k d)

length-bump : (k : String) (d : Dict ℕ) → length (bump k d) ≡ length d
length-bump k [] = refl
length-bump k ((j, n) ∷ d) = ground (arith, length-bump k d)

add_edges-le :
    (k : String) (deps : List String) (g : Graph)
    → let g' = add_edges k deps g in
      (total g'.in_degree ≤ total g.in_degree + length deps)
      × (length g'.in_degree ≡ length g.in_degree)
unfolding add_edges
add_edges-le k [] g = (omega arith, refl)
add_edges-le k (dep ∷ deps) g =
    let g' : Graph = record { in_degree = bump k g.in_degree; adj = push dep k g.adj } in
    ground (
      arith,
      add_edges-le k deps g,
      add_edges-le k deps g',
      total-bump k g.in_degree,
      length-bump k g.in_degree,
    )

add_all-le :
    (d : Tasks) (g : Graph)
    → let g' = add_all d g in
      (total g'.in_degree ≤ total g.in_degree + edges d)
      × (length g'.in_degree ≡ length g.in_degree)
unfolding add_all
add_all-le [] g = (omega arith, refl)
add_all-le ((k, t) ∷ d) g =
    let first = add_edges-le k t.depends_on g in
    let rest = add_all-le d (add_edges k t.depends_on g) in omega (arith, first, rest)

total-initial :
    (d : Tasks) → (total (initial {A = ℕ} 0 d) ≡ 0) × (length (initial {A = ℕ} 0 d) ≡ length d)
total-initial [] = (refl, refl)
total-initial ((k, t) ∷ d) = ground (arith, total-initial d)

-- The test of cycles ends for every workflow: its loop has a step for each task and for each
-- dependency, at most.
pub check_cycles-edges :
    (fuel : ℕ) (d : Tasks) → length d + edges d ≤ fuel → check_cycles fuel d ≢ none
unfolding check_cycles graph_of
check_cycles-edges fuel d h =
    let g0 : Graph = record { in_degree = initial 0 d; adj = initial [] d } in
    let g = add_all d g0 in
    let built = add_all-le d g0 in
    let zeros = zero_degree-le g.in_degree in
    ground (
      arith,
      visit-some g.adj fuel g.in_degree (zero_degree g.in_degree) 0
          (omega (arith, built, zeros, total-initial d, h)),
    )
