-- ===== src/Workflow.antt =====
-- Workflows: `Workflow` and `WorkflowEngine` of python/src/roar_sdk/workflow.py. The random ids of
-- tasks are arguments, and so is what the send function does: `send` gives the outcome of each
-- attempt for each task. Timeouts are in whole seconds; a timeout is an outcome that raises.
pub mod Graph
pub mod Run
pub mod Cycles
pub mod Progress
pub mod Ready
pub mod Order
pub mod Engine
mod Tests
use roar_protocol.Base.{
  nat_eq, not, ◌==◌, ℕ, zero, suc, ◌+◌, String, Bool, true, false, ◌&&◌, Option, none, some, List,
  [], ◌∷◌, if◌then◌else◌, length, nonempty, elem, ◌++◌,
}
use roar_protocol.Base.Dict.{Dict, lookup, insert, contains}
use roar_protocol.Json.{Json}
use roar_protocol.Types.{MessageIntent}

pub data TaskStatus : Type 0 where
  pending running completed failed cancelled : TaskStatus

pub record WorkflowTask : Type 0 where
  pub task_id : String
  pub name : String
  pub agent_did : String
  pub intent : MessageIntent
  pub payload : Dict Json
  pub status : TaskStatus
  pub result : Option (Dict Json)
  pub depends_on : List String
  pub timeout_seconds : ℕ
  pub retry_count : ℕ
  pub max_retries : ℕ
  pub error : Option String

abbrev pub Tasks : Type 0
Tasks = Dict WorkflowTask

abbrev pub is_pending : WorkflowTask → Bool
is_pending t = elim t.status [ pending ↦ true | _ ↦ false ]

abbrev pub is_completed : WorkflowTask → Bool
is_completed t = elim t.status [ completed ↦ true | _ ↦ false ]

abbrev pub is_running : WorkflowTask → Bool
is_running t = elim t.status [ running ↦ true | _ ↦ false ]

-- in a terminal state
abbrev pub is_terminal : WorkflowTask → Bool
is_terminal t = elim t.status [ pending ↦ false | running ↦ false | _ ↦ true ]

-- A task is changed in place.
abbrev pub adjust : String → (WorkflowTask → WorkflowTask) → Tasks → Tasks
adjust k f [] = []
adjust k f ((j, t) ∷ d) = if k == j then (j, f t) ∷ d else (j, t) ∷ adjust k f d

-- `complete_task`, `fail_task` and `cancel_task`, none where they raise `KeyError`
abbrev pub adjust_known : String → (WorkflowTask → WorkflowTask) → Tasks → Option Tasks
adjust_known k f d = if contains k d then some (adjust k f d) else none

abbrev pub completes : Option (Dict Json) → WorkflowTask → WorkflowTask
completes result t = record t { status = completed; result = result; error = none }

abbrev pub fails : String → WorkflowTask → WorkflowTask
fails error t = record t { status = failed; error = some error }

abbrev pub cancels : WorkflowTask → WorkflowTask
cancels t = record t { status = cancelled }

unfoldable pub complete_task : String → Option (Dict Json) → Tasks → Option Tasks
complete_task id result d = adjust_known id (completes result) d

unfoldable pub fail_task : String → String → Tasks → Option Tasks
fail_task id error d = adjust_known id (fails error) d

unfoldable pub cancel_task : String → Tasks → Option Tasks
cancel_task id d = adjust_known id cancels d

-- A dependency that is no task of the workflow is passed over.
abbrev pub is_met : Tasks → String → Bool
is_met d dep = elim (lookup dep d) [ none ↦ true | some t ↦ is_completed t ]

abbrev pub deps_met : Tasks → List String → Bool
deps_met d [] = true
deps_met d (dep ∷ deps) = is_met d dep && deps_met d deps

abbrev pub ready_among : Tasks → Tasks → Tasks
ready_among d [] = []
ready_among d ((k, t) ∷ rest) =
    if is_pending t && deps_met d t.depends_on
    then (k, t) ∷ ready_among d rest
    else ready_among d rest

unfoldable pub get_ready_tasks : Tasks → Tasks
get_ready_tasks d = ready_among d d

unfoldable pub is_complete : Tasks → Bool
is_complete [] = true
is_complete ((k, t) ∷ d) = is_terminal t && is_complete d

-- What an attempt does: `send_fn` returns, or it raises or runs out of time.
pub data Outcome : Type 0 where
  returns : Dict Json → Outcome
  raises : String → Outcome

-- `last_error or "unknown error"`
abbrev pub error_text : String → String
error_text e = if nonempty e then e else "unknown error"

-- The attempts that are left, from the attempt `k` on, with the last error.
unfoldable pub attempts : (ℕ → Outcome) → ℕ → ℕ → String → WorkflowTask → WorkflowTask
attempts send zero k last t = fails (error_text last) t
attempts send (suc n) k last t =
    let retried = attempts send n (k + 1) in
    elim (send k) [
      | returns r ↦ completes (some r) t
      | raises e ↦ retried e (record t { status = running; retry_count = k + 1 })
    ]

unfoldable pub execute : (ℕ → Outcome) → WorkflowTask → WorkflowTask
execute send t = attempts send (suc t.max_retries) 0 "" (record t { status = running })

-- `asyncio.gather` over the ready tasks: each coroutine writes to its own task alone.
unfoldable pub execute_all : (String → ℕ → Outcome) → Tasks → Tasks → Tasks
execute_all send [] d = d
execute_all send ((k, t) ∷ ready) d = execute_all send ready (adjust k (execute (send k)) d)

unfoldable pub cancel_pending : Tasks → Tasks
cancel_pending [] = []
cancel_pending ((k, t) ∷ d) = (k, if is_pending t then cancels t else t) ∷ cancel_pending d

-- The loop of `run` on fuel; none where the fuel is used up.
unfoldable pub run_loop : (String → ℕ → Outcome) → ℕ → Tasks → Option Tasks
run_loop send zero d = none
run_loop send (suc n) d =
    let ready = get_ready_tasks d in
    let rest = run_loop send n (execute_all send ready d) in
    if is_complete d then some d else elim ready [ [] ↦ some (cancel_pending d) | _ ∷ _ ↦ rest ]
