-- ===== src/Workflow/Ready.antt =====
-- The ready tasks of a round.
use roar_protocol.Base.{
  Option-cases, ◌&&◌, ℕ, ◌<◌, String, ◌≡◌, refl, true, false, none, some, List, [], ◌∷◌, arith,
  ◌==◌, All, inl, inr, Bool-cases,
}
use roar_protocol.Base.Dict.{Dict, lookup, Distinct}
use roar_protocol.Workflow.Progress.{
  lookup-adjust, execute-Ends, count_pending, count_pending-adjust-lt, count_pending-execute_all,
}
use roar_protocol.Workflow.{
  WorkflowTask, Tasks, Outcome, is_pending, adjust, deps_met, ready_among, get_ready_tasks, execute,
  execute_all,
}

-- A batch of ready tasks: each stands in the workflow, is pending and has its dependencies met, and
-- none is listed twice.
pub record Batch (d ready : Tasks) : Type 0 where
  pub listed : All (λ e. lookup e.0 d ≡ some e.1) ready
  pub waits : All (λ e. is_pending e.1 ≡ true) ready
  pub met : All (λ e. deps_met d e.1.depends_on ≡ true) ready
  pub distinct : Distinct ready

ready_among-absent :
    (k : String) (d rest : Tasks) → lookup k rest ≡ none → lookup k (ready_among d rest) ≡ none
ready_among-absent k d [] h = refl
ready_among-absent k d ((i, t) ∷ rest) h = ground (arith, ready_among-absent k d rest)

ready_among-Batch :
    (d rest : Tasks)
    → ((k : String) (t : WorkflowTask) → lookup k rest ≡ some t → lookup k d ≡ some t)
    → Distinct rest
    → Batch d (ready_among d rest)
ready_among-Batch d [] sub h = record { listed = tt; waits = tt; met = tt; distinct = tt }
ready_among-Batch d ((k, t) ∷ rest) sub h =
    let sub' : (j : String) (u : WorkflowTask) → lookup j rest ≡ some u → lookup j d ≡ some u =
      λ j u found. sub j u (ground arith) in
    let b = ready_among-Batch d rest sub' h.1 in
    let there = sub k t (ground arith) in
    elim (Bool-cases (is_pending t && deps_met d t.depends_on)) [
      | inl chosen ↦ rw chosen (record {
        listed = (there, b.listed);
        waits = (ground arith, b.waits);
        met = (ground arith, b.met);
        distinct = (ready_among-absent k d rest h.0, b.distinct);
      })
      | inr passed ↦ rw passed b
    ]

pub get_ready_tasks-Batch : (d : Tasks) → Distinct d → Batch d (get_ready_tasks d)
unfolding get_ready_tasks
get_ready_tasks-Batch d h = ready_among-Batch d d (λ k t found. found) h

absent-apart {ℓ} :
    {V : Type ℓ} → (k : String) (d : Dict V) → lookup k d ≡ none → All (λ e. (k == e.0) ≡ false) d
absent-apart k [] h = tt
absent-apart k ((j, v) ∷ d) h = (ground arith, absent-apart k d (ground arith))

listed-adjust :
    (k : String) (f : WorkflowTask → WorkflowTask) (d ready : Tasks)
    → All (λ e. (k == e.0) ≡ false) ready
    → All (λ e. lookup e.0 d ≡ some e.1) ready
    → All (λ e. lookup e.0 (adjust k f d) ≡ some e.1) ready
listed-adjust k f d [] apart l = tt
listed-adjust k f d ((j, t) ∷ ready) apart l =
    (ground (arith, lookup-adjust j k f d, apart.0, l.0), listed-adjust k f d ready apart.1 l.1)

-- A dependency that is met stays so when a pending task is changed.
pub deps_met-adjust :
    (k : String) (f : WorkflowTask → WorkflowTask) (d : Tasks) (t : WorkflowTask)
    (deps : List String)
    → lookup k d ≡ some t
    → is_pending t ≡ true
    → deps_met d deps ≡ true
    → deps_met (adjust k f d) deps ≡ true
deps_met-adjust k f d t [] l p h = refl
deps_met-adjust k f d t (dep ∷ deps) l p h =
    let rest = deps_met-adjust k f d t deps l p (ground arith) in
    let same = lookup-adjust dep k f d in
    elim (Option-cases (lookup dep d)) [
      | inl absent ↦ ground (arith, rest, same, absent)
      | inr (u, found) ↦ elim (Bool-cases (dep == k)) [
        | inl it ↦ ground (arith, rest, same, found, it, l, p, h)
        | inr other ↦ ground (arith, rest, same, found, other, h)
      ]
    ]

met-adjust :
    (k : String) (f : WorkflowTask → WorkflowTask) (d : Tasks) (t : WorkflowTask) (ready : Tasks)
    → lookup k d ≡ some t
    → is_pending t ≡ true
    → All (λ e. deps_met d e.1.depends_on ≡ true) ready
    → All (λ e. deps_met (adjust k f d) e.1.depends_on ≡ true) ready
met-adjust k f d t [] l p m = tt
met-adjust k f d t (e ∷ ready) l p m =
    (deps_met-adjust k f d t e.1.depends_on l p m.0, met-adjust k f d t ready l p m.1)

-- The rest of a batch is a batch when the first task of it is changed.
pub Batch-adjust :
    (k : String) (t : WorkflowTask) (f : WorkflowTask → WorkflowTask) (d ready : Tasks)
    → Batch d ((k, t) ∷ ready)
    → Batch (adjust k f d) ready
Batch-adjust k t f d ready b = record {
  listed = listed-adjust k f d ready (absent-apart k ready b.distinct.0) b.listed.1;
  waits = b.waits.1;
  met = met-adjust k f d t ready b.listed.0 b.waits.0 b.met.1;
  distinct = b.distinct.1;
}

-- A round that has a task to execute leaves fewer tasks pending.
pub count_pending-Batch :
    (send : String → ℕ → Outcome) (e : String × WorkflowTask) (ready d : Tasks)
    → Batch d (e ∷ ready)
    → count_pending (execute_all send (e ∷ ready) d) < count_pending d
unfolding execute_all
count_pending-Batch send (k, t) ready d b =
    let f = execute (send k) in
    omega (
      arith,
      count_pending-execute_all send ready (adjust k f d),
      count_pending-adjust-lt k f d t (execute-Ends (send k)) b.listed.0 b.waits.0,
    )
