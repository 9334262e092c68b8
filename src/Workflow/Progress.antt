-- ===== src/Workflow/Progress.antt =====
-- The count of pending tasks.
use roar_protocol.Base.{
  ℕ, zero, suc, ◌+◌, ◌≤◌, ◌<◌, String, ◌≡◌, refl, true, none, some, [], ◌∷◌, arith, if◌then◌else◌,
  length, ◌==◌, inl, inr, ◌⊎◌, Bool-cases,
}
use roar_protocol.Base.Dict.{Dict, lookup, Distinct}
use roar_protocol.Json.{Json}
use roar_protocol.Workflow.{
  returns, raises, running, WorkflowTask, Tasks, Outcome, is_pending, is_terminal, adjust, attempts,
  execute, execute_all,
}

Outcome-cases :
    (o : Outcome) → ((r : Dict Json) × (o ≡ returns r)) ⊎ ((e : String) × (o ≡ raises e))
Outcome-cases (returns r) = inl (r, refl)
Outcome-cases (raises e) = inr (e, refl)

pub attempts-is_terminal :
    (send : ℕ → Outcome) (n k : ℕ) (last : String) (t : WorkflowTask)
    → (is_terminal (attempts send n k last t) ≡ true)
      × ((attempts send n k last t).depends_on ≡ t.depends_on)
unfolding attempts
attempts-is_terminal send zero k last t = (refl, refl)
attempts-is_terminal send (suc n) k last t = elim (Outcome-cases (send k)) [
  | inl (r, o) ↦ ground (arith, o)
  | inr (e, o) ↦
      let t' = record t { status = running; retry_count = k + 1 } in
      ground (arith, o, attempts-is_terminal send n (k + 1) e t')
]

pub lookup-adjust :
    (j k : String) (f : WorkflowTask → WorkflowTask) (d : Tasks)
    → lookup j (adjust k f d)
      ≡ elim (lookup j d) [ none ↦ none | some t ↦ some (if j == k then f t else t) ]
lookup-adjust j k f [] = refl
lookup-adjust j k f ((i, t) ∷ d) = ground (arith, lookup-adjust j k f d)

pub Distinct-adjust :
    (k : String) (f : WorkflowTask → WorkflowTask) (d : Tasks)
    → Distinct d
    → Distinct (adjust k f d)
Distinct-adjust k f [] h = tt
Distinct-adjust k f ((i, t) ∷ d) h =
    ground (arith, h, Distinct-adjust k f d h.1, lookup-adjust i k f d)

-- How many tasks are pending.
abbrev pub count_pending : Tasks → ℕ
count_pending [] = 0
count_pending ((k, t) ∷ d) = if is_pending t then count_pending d + 1 else count_pending d

pub count_pending-le : (d : Tasks) → count_pending d ≤ length d
count_pending-le [] = omega arith
count_pending-le ((k, t) ∷ d) = ground (arith, count_pending-le d)

-- The function leaves every task in a terminal state.
abbrev pub Ends : (WorkflowTask → WorkflowTask) → Type 0
Ends f = (t : WorkflowTask) → is_terminal (f t) ≡ true

count_pending-adjust-le :
    (k : String) (f : WorkflowTask → WorkflowTask) (d : Tasks)
    → Ends f
    → count_pending (adjust k f d) ≤ count_pending d
count_pending-adjust-le k f [] e = omega arith
count_pending-adjust-le k f ((i, t) ∷ d) e = ground (arith, e t, count_pending-adjust-le k f d e)

pub count_pending-adjust-lt :
    (k : String) (f : WorkflowTask → WorkflowTask) (d : Tasks) (t : WorkflowTask)
    → Ends f
    → lookup k d ≡ some t
    → is_pending t ≡ true
    → count_pending (adjust k f d) < count_pending d
count_pending-adjust-lt k f [] t e h p = absurd (ground arith)
count_pending-adjust-lt k f ((i, u) ∷ d) t e h p = elim (Bool-cases (k == i)) [
  | inl here ↦ ground (arith, e u)
  | inr later ↦ ground (arith, count_pending-adjust-lt k f d t e (ground arith) p)
]

pub execute-Ends : (send : ℕ → Outcome) → Ends (execute send)
unfolding execute
execute-Ends send t =
    (attempts-is_terminal send (suc t.max_retries) 0 "" (record t { status = running })).0

pub execute-depends_on :
    (send : ℕ → Outcome) (t : WorkflowTask) → (execute send t).depends_on ≡ t.depends_on
unfolding execute
execute-depends_on send t =
    (attempts-is_terminal send (suc t.max_retries) 0 "" (record t { status = running })).1

pub Distinct-execute_all :
    (send : String → ℕ → Outcome) (ready d : Tasks)
    → Distinct d
    → Distinct (execute_all send ready d)
unfolding execute_all
Distinct-execute_all send [] d h = h
Distinct-execute_all send ((k, t) ∷ ready) d h =
    Distinct-execute_all send ready (adjust k (execute (send k)) d)
      (Distinct-adjust k (execute (send k)) d h)

pub count_pending-execute_all :
    (send : String → ℕ → Outcome) (ready d : Tasks)
    → count_pending (execute_all send ready d) ≤ count_pending d
unfolding execute_all
count_pending-execute_all send [] d = omega arith
count_pending-execute_all send ((k, t) ∷ ready) d =
    let f = execute (send k) in
    omega (
      arith,
      count_pending-execute_all send ready (adjust k f d),
      count_pending-adjust-le k f d (execute-Ends (send k)),
    )
