-- ===== src/Workflow/Run.antt =====
-- `add_task` of python/src/roar_sdk/workflow.py, and `run` of its engine.
use roar_protocol.Base.{
  ℕ, String, Bool, true, false, ◌&&◌, Option, none, some, List, [], ◌∷◌, if◌then◌else◌,
}
use roar_protocol.Base.Dict.{insert, contains}
use roar_protocol.Workflow.{WorkflowTask, Tasks, Outcome, pending, run_loop}
use roar_protocol.Workflow.Graph.{check_cycles}

-- What a caller of `add_task` gives, with the id that is drawn.
pub data Added : Type 0 where
  added : Tasks → Added
  unknown_dependency : Tasks → Added
  cyclic : Tasks → Added
  out_of_fuel : Added

abbrev pub new_task : WorkflowTask → WorkflowTask
new_task t = record t { status = pending; result = none; retry_count = 0; error = none }

abbrev pub all_known : List String → Tasks → Bool
all_known [] d = true
all_known (dep ∷ deps) d = contains dep d && all_known deps d

-- The new task stays when a cycle is found.
unfoldable pub add_task : ℕ → WorkflowTask → Tasks → Added
add_task fuel t d =
    let d' = insert t.task_id (new_task t) d in
    if all_known t.depends_on d
    then elim (check_cycles fuel d') [
      | none ↦ out_of_fuel
      | some true ↦ cyclic d'
      | some false ↦ added d'
    ]
    else unknown_dependency d

-- `run`: none where the workflow has a cycle, which raises; the outer none where the fuel of the
-- test of cycles, or of the loop, is used up.
unfoldable pub run : (String → ℕ → Outcome) → ℕ → ℕ → Tasks → Option (Option Tasks)
run send cycle_fuel fuel d = elim (check_cycles cycle_fuel d) [
  | none ↦ none
  | some true ↦ some none
  | some false ↦ elim (run_loop send fuel d) [ none ↦ none | some d' ↦ some (some d') ]
]
