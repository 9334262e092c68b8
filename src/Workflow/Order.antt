-- ===== src/Workflow/Order.antt =====
-- The order of dependencies, and the end of the tasks.
use mathlib.Core.Path.{subst}
use roar_protocol.Base.{
  ◌<◌, length, ℕ, zero, suc, String, ◌≡◌, refl, true, false, none, some, List, [], ◌∷◌, ◌==◌, arith,
  if◌then◌else◌, All, inl, inr, Bool-cases, Option-cases, List-cases,
}
use roar_protocol.Base.Dict.{lookup, Distinct}
use roar_protocol.Workflow.{
  WorkflowTask, Tasks, Outcome, is_pending, is_running, is_completed, adjust, deps_met,
  get_ready_tasks, is_complete, execute, execute_all, cancel_pending, cancels, run_loop,
}
use roar_protocol.Workflow.Progress.{
  count_pending-le, Ends, lookup-adjust, execute-Ends, execute-depends_on, Distinct-execute_all,
}
use roar_protocol.Workflow.Ready.{Batch, get_ready_tasks-Batch, Batch-adjust, deps_met-adjust}
use roar_protocol.Workflow.Graph.{check_cycles}
use roar_protocol.Workflow.Engine.{run_loop-some}
use roar_protocol.Workflow.Run.{run}

-- No task is running, as before a run.
abbrev pub Idle : Tasks → Type 0
Idle d = All (λ e. is_running e.1 ≡ false) d

-- A completed task has its dependencies completed.
abbrev pub Closed : Tasks → Type 0
Closed d =
    (k : String) (t : WorkflowTask)
    → lookup k d ≡ some t
    → is_completed t ≡ true
    → deps_met d t.depends_on ≡ true

Idle-adjust :
    (k : String) (f : WorkflowTask → WorkflowTask) (d : Tasks)
    → Ends f
    → Idle d
    → Idle (adjust k f d)
Idle-adjust k f [] e h = tt
Idle-adjust k f ((j, t) ∷ d) e h = ground (arith, e t, h, Idle-adjust k f d e h.1)

Closed-adjust :
    (k : String) (t : WorkflowTask) (f : WorkflowTask → WorkflowTask) (d ready : Tasks)
    → ((u : WorkflowTask) → (f u).depends_on ≡ u.depends_on)
    → Batch d ((k, t) ∷ ready)
    → Closed d
    → Closed (adjust k f d)
Closed-adjust k t f d ready keeps b c j u found done = elim (Option-cases (lookup j d)) [
  | inl absent ↦ absurd (ground (arith, lookup-adjust j k f d, found, absent))
  | inr (v, there) ↦ elim (Bool-cases (j == k)) [
    | inl it ↦
        let e : u.depends_on ≡ t.depends_on =
          ground (arith, lookup-adjust j k f d, found, there, it, b.listed.0, keeps v) in
        rw e (deps_met-adjust k f d t t.depends_on b.listed.0 b.waits.0 b.met.0)
    | inr other ↦
        let same : lookup j d ≡ some u =
          ground (arith, lookup-adjust j k f d, found, there, other) in
        deps_met-adjust k f d t u.depends_on b.listed.0 b.waits.0 (c j u same done)
  ]
]

Closed-execute_all :
    (send : String → ℕ → Outcome) (ready d : Tasks)
    → Batch d ready
    → Closed d
    → Closed (execute_all send ready d)
unfolding execute_all
Closed-execute_all send [] d b c = c
Closed-execute_all send ((k, t) ∷ ready) d b c =
    let f = execute (send k) in
    Closed-execute_all send ready (adjust k f d) (Batch-adjust k t f d ready b)
      (Closed-adjust k t f d ready (execute-depends_on (send k)) b c)

Idle-execute_all :
    (send : String → ℕ → Outcome) (ready d : Tasks) → Idle d → Idle (execute_all send ready d)
unfolding execute_all
Idle-execute_all send [] d h = h
Idle-execute_all send ((k, t) ∷ ready) d h =
    let f = execute (send k) in
    Idle-execute_all send ready (adjust k f d) (Idle-adjust k f d (execute-Ends (send k)) h)

is_complete-cancel_pending : (d : Tasks) → Idle d → is_complete (cancel_pending d) ≡ true
unfolding is_complete cancel_pending
is_complete-cancel_pending [] h = refl
is_complete-cancel_pending ((k, t) ∷ d) h = ground (arith, h, is_complete-cancel_pending d h.1)

lookup-cancel_pending :
    (j : String) (d : Tasks)
    → lookup j (cancel_pending d)
      ≡ elim (lookup j d) [ none ↦ none | some t ↦ some (if is_pending t then cancels t else t) ]
unfolding cancel_pending
lookup-cancel_pending j [] = refl
lookup-cancel_pending j ((k, t) ∷ d) = ground (arith, lookup-cancel_pending j d)

deps_met-cancel_pending :
    (d : Tasks) (deps : List String) → deps_met (cancel_pending d) deps ≡ deps_met d deps
deps_met-cancel_pending d [] = refl
deps_met-cancel_pending d (dep ∷ deps) =
    ground (arith, lookup-cancel_pending dep d, deps_met-cancel_pending d deps)

Closed-cancel_pending : (d : Tasks) → Closed d → Closed (cancel_pending d)
Closed-cancel_pending d c k t found done =
    let same : lookup k d ≡ some t = ground (arith, lookup-cancel_pending k d, found, done) in
    rw (deps_met-cancel_pending d t.depends_on) (c k t same done)

-- What a run leaves: every task in a terminal state, and no task completed before the ones that it
-- depends on.
pub record Ended (d : Tasks) : Type 0 where
  pub complete : is_complete d ≡ true
  pub closed : Closed d

run_loop-Ended :
    (send : String → ℕ → Outcome) (fuel : ℕ) (d d' : Tasks)
    → Distinct d
    → Idle d
    → Closed d
    → run_loop send fuel d ≡ some d'
    → Ended d'
unfolding run_loop
run_loop-Ended send zero d d' u i c h = absurd (ground arith)
run_loop-Ended send (suc n) d d' u i c h = elim (Bool-cases (is_complete d)) [
  | inl over ↦
      let e : d ≡ d' = ground arith in subst Ended e (record { complete = over; closed = c })
  | inr unfinished ↦ elim (List-cases (get_ready_tasks d)) [
    | inl none_ready ↦
        let e : cancel_pending d ≡ d' = ground arith in
        subst Ended e
          (record { complete = is_complete-cancel_pending d i; closed = Closed-cancel_pending d c })
    | inr (x, ready, more) ↦
        let b : Batch d (x ∷ ready) = subst (Batch d) more (get_ready_tasks-Batch d u) in
        let next = execute_all send (x ∷ ready) d in
        let e : run_loop send n next ≡ some d' = ground arith in
        run_loop-Ended send n next d' (Distinct-execute_all send (x ∷ ready) d u)
          (Idle-execute_all send (x ∷ ready) d i) (Closed-execute_all send (x ∷ ready) d b c) e
  ]
]

-- A run of a workflow without a cycle, in which no task is running yet, comes to an end, and it
-- leaves every task completed, failed or cancelled, whatever the agents answer; and no task is
-- completed unless the tasks of the workflow that it depends on are, where this held before. A
-- round for each task and one more are enough.
pub run-Ended :
    (send : String → ℕ → Outcome) (cycle_fuel fuel : ℕ) (d : Tasks)
    → Distinct d
    → Idle d
    → Closed d
    → check_cycles cycle_fuel d ≡ some false
    → length d < fuel
    → (d' : Tasks) × (run send cycle_fuel fuel d ≡ some (some d')) × Ended d'
unfolding run
run-Ended send cycle_fuel fuel d u i c acyclic enough =
    let ends = run_loop-some send fuel d u (omega (arith, count_pending-le d, enough)) in
    elim (Option-cases (run_loop send fuel d)) [
      | inl stuck ↦ absurd (ends stuck)
      | inr (d', e) ↦ (d', ground arith, run_loop-Ended send fuel d d' u i c e)
    ]
