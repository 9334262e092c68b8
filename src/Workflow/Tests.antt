-- ===== src/Workflow/Tests.antt =====
-- Tests and concrete instances for workflows.
use roar_protocol.Base.{
  ℕ, zero, suc, ◌≡◌, ◌≢◌, String, refl, true, false, some, none, List, [], ◌∷◌, arith, str_dec,
}
use roar_protocol.Base.Dict.{Distinct}
use roar_protocol.Types.{MessageIntent}
use roar_protocol.Workflow.{
  WorkflowTask, Tasks, Outcome, TaskStatus, returns, raises, pending, execute, attempts,
  execute_all, run_loop, get_ready_tasks, is_complete, cancel_pending,
}
use roar_protocol.Workflow.Graph.{check_cycles, graph_of, add_all, add_edges, visit, release}
use roar_protocol.Workflow.Run.{run}
use roar_protocol.Workflow.Engine.{run-length}
use roar_protocol.Workflow.Order.{Closed, Ended, run-Ended}

abbrev task : String → List String → WorkflowTask
task id deps = record {
  task_id = id;
  name = id;
  agent_did = "did:roar:agent:alice";
  intent = MessageIntent.delegate;
  payload = [];
  status = pending;
  result = none;
  depends_on = deps;
  timeout_seconds = 300;
  retry_count = 0;
  max_retries = 1;
  error = none;
}

-- `b` depends on `a`, and `c` on itself
abbrev chain : Tasks
chain = ("a", task "a" []) ∷ ("b", task "b" ("a" ∷ [])) ∷ []

abbrev looped : Tasks
looped = ("c", task "c" ("c" ∷ [])) ∷ []

-- the first attempt fails
abbrev second_try : String → ℕ → Outcome
second_try id zero = raises "busy"
second_try id (suc n) = returns []

chain_has_no_cycle : check_cycles 3 chain ≡ some false
unfolding check_cycles graph_of add_all add_edges visit release str_dec
chain_has_no_cycle = refl

looped_has_a_cycle : check_cycles 2 looped ≡ some true
unfolding check_cycles graph_of add_all add_edges visit release str_dec
looped_has_a_cycle = refl

chain-Distinct : Distinct chain
unfolding str_dec
chain-Distinct = (refl, (refl, tt))

run-length_example : run second_try 3 3 chain ≢ none
run-length_example = run-length second_try 3 3 chain chain-Distinct (omega arith) (omega arith)

abbrev finished : String → List String → WorkflowTask
finished id deps = record (task id deps) {
  status = TaskStatus.completed;
  result = some [];
  retry_count = 1;
}

abbrev chain_done : Tasks
chain_done = ("a", finished "a" []) ∷ ("b", finished "b" ("a" ∷ [])) ∷ []

chain_runs : run second_try 3 3 chain ≡ some (some chain_done)
unfolding run check_cycles graph_of add_all add_edges visit release str_dec run_loop get_ready_tasks
    execute_all execute attempts is_complete cancel_pending
chain_runs = refl

nothing_completed : Closed chain
nothing_completed k t found done = ground arith

run-Ended_example : (d' : Tasks) × (run second_try 3 3 chain ≡ some (some d')) × Ended d'
run-Ended_example =
    run-Ended second_try 3 3 chain chain-Distinct (refl, (refl, tt)) nothing_completed
      chain_has_no_cycle (omega arith)
