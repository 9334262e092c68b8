-- ===== src/Workflow/Engine.antt =====
-- The length of a run.
use roar_protocol.Base.{
  ℕ, zero, suc, ◌+◌, ◌≤◌, ◌<◌, String, ◌≢◌, none, ◌∷◌, arith, length, inl, inr, List-cases,
}
use mathlib.Core.Path.{subst}
use roar_protocol.Base.Dict.{Distinct}
use roar_protocol.Workflow.{Tasks, Outcome, get_ready_tasks, execute_all, run_loop}
use roar_protocol.Workflow.Progress.{count_pending, count_pending-le, Distinct-execute_all}
use roar_protocol.Workflow.Ready.{Batch, get_ready_tasks-Batch, count_pending-Batch}
use roar_protocol.Workflow.Cycles.{edges, check_cycles-edges}
use roar_protocol.Workflow.Run.{run}

pub run_loop-some :
    (send : String → ℕ → Outcome) (fuel : ℕ) (d : Tasks)
    → Distinct d
    → count_pending d < fuel
    → run_loop send fuel d ≢ none
unfolding run_loop
run_loop-some send zero d u h = λ e. omega (arith, h)
run_loop-some send (suc n) d u h = elim (List-cases (get_ready_tasks d)) [
  | inl idle ↦ λ e. ground arith
  | inr (x, ready, more) ↦
      let b = get_ready_tasks-Batch d u in
      let b' : Batch d (x ∷ ready) = subst (Batch d) more b in
      let d' = execute_all send (x ∷ ready) d in
      let fewer = count_pending-Batch send x ready d b' in
      let rest =
        run_loop-some send n d' (Distinct-execute_all send (x ∷ ready) d u)
          (omega (arith, h, fewer)) in
      λ e. ground (arith, rest)
]

-- A run ends, in its test of cycles and in its loop: a round of the loop for each task and one more
-- are enough.
pub run-length :
    (send : String → ℕ → Outcome) (cycle_fuel fuel : ℕ) (d : Tasks)
    → Distinct d
    → length d + edges d ≤ cycle_fuel
    → length d < fuel
    → run send cycle_fuel fuel d ≢ none
unfolding run
run-length send cycle_fuel fuel d u h h' e = ground (
  arith,
  check_cycles-edges cycle_fuel d h,
  run_loop-some send fuel d u (omega (arith, count_pending-le d, h')),
)
