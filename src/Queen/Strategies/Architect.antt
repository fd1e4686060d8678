-- ===== src/Queen/Strategies/Architect.antt =====
-- `_core_handle_architect` of queen.py: what becomes of the lead that runs the plan, and the pool.
use hivekernel.Prelude.{ℕ, ◌≡◌, refl, subst, sym, ◌∷◌, ◌++◌}
use hivekernel.Prelude.Text.{Text, text}
use hivekernel.Prelude.Decimal.{show}
use hivekernel.Exec.{Result, ok, raised, Exec, continue, ◌>>=◌, ◌>>◌}
use hivekernel.Core.{Core, Spawn, TaskOutput, logged, kill_child, execute_task, log, spawn_child}
use hivekernel.Queen.{Queen, QueenState, Reply}
use hivekernel.Queen.Leads.{acquire_lead, release_lead}
use hivekernel.Queen.Leads.Pool.{IsOut, NoTwice, acquire_lead-IsOut, release_lead-NoTwice}
use hivekernel.Queen.Strategies.{
  architect_spawn, handle_architect, ask_architect, planned, run_plan, reply_of, architect_outcome,
  plan_params, task_request, failure, lead_params, handle_complex,
}
use hivekernel.Queen.Strategies.Complex.{LeadSettled, handle_complex-ComplexRun}

-- By the result of its task, the lead is settled as it is after a complex task; after an exception,
-- from the state in which the handler's log line was sent, if that raised nothing. If it did, the
-- exception leaves the handler with the lead running, in no pool and never killed.
abbrev pub NotedRun :
    {W : Type 0}
    → ℕ
    → Text
    → Result (Unit {0})
    → QueenState W
    → Result Reply
    → QueenState W
    → Type 0
NotedRun pid e (ok u) noted r st =
    (reply : Reply) × (r ≡ ok reply) × LeadSettled pid (raised e) reply noted st
NotedRun pid e (raised e') noted r st = (r ≡ raised e') × (st ≡ noted)

abbrev pub PlanRun :
    {W : Type 0}
    → Core W
    → ℕ
    → Result TaskOutput
    → QueenState W
    → Result Reply
    → QueenState W
    → Type 0
PlanRun core pid (ok result) before r st =
    (reply : Reply) × (r ≡ ok reply) × LeadSettled pid (ok result) reply before st
PlanRun core pid (raised e) before r st =
    let (answer, noted) = log core (text "error") (text "Lead execution failed: " ++ e) before in
    (noted.agent ≡ before.agent)
    × (noted.calls ≡ logged (text "error") ∷ before.calls)
    × NotedRun pid e answer noted r st

-- Statements that leave the pool without repetitions if it had none.
abbrev pub KeepsPool : {W A : Type 0} → Exec (QueenState W) A → Type 0
KeepsPool {W = W} m =
    (st : QueenState W) → NoTwice st.agent.idle_leads → NoTwice (m st).1.agent.idle_leads

continue-KeepsPool :
    {W A B : Type 0} (r : Result A) (f : A → Exec (QueenState W) B)
    → ((a : A) → KeepsPool (f a))
    → KeepsPool (continue r f)
continue-KeepsPool (ok a) f keeps st distinct = keeps a st distinct
continue-KeepsPool (raised e) f keeps st distinct = distinct

pub bind-KeepsPool :
    {W A B : Type 0} (m : Exec (QueenState W) A) (f : A → Exec (QueenState W) B)
    → KeepsPool m
    → ((a : A) → KeepsPool (f a))
    → KeepsPool (m >>= f)
bind-KeepsPool m f first next st distinct =
    let (r, st') = m st in continue-KeepsPool r f next st' (first st distinct)

module _ {W : Type 0} (core : Core W) where
  pub log-KeepsPool : (level message : Text) → KeepsPool (log core level message)
  unfolding log
  log-KeepsPool level message st distinct = distinct

  kill_after_log :
      (pid : ℕ) (e : Text) (r : Result (Unit {0})) (st : QueenState W)
      → let (answer, st') =
          continue r
            (λ _ s.
              let (_, s') = kill_child core pid s in
              (ok (failure (text "Architect execution failed: ") e), s'))
            st in
        (st'.agent ≡ st.agent) × NotedRun pid e r st answer st'
  unfolding kill_child failure
  kill_after_log pid e (ok tt) st = (refl, (_, refl, (refl, refl, refl)))
  kill_after_log pid e (raised e') st = (refl, (refl, refl))

  -- After a result of its task the lead that runs the architect's plan is at the end of the pool, and
  -- the reply has the output and exit code of the result. After an exception the handler logs, and if
  -- that raises nothing it kills the lead, by the last call, leaves the pool as it was, and replies
  -- with a failure; if the log line raises, the handler raises that, and the lead is neither killed
  -- nor put back. A pool without repetitions and without the lead has no repetitions afterwards.
  pub architect_outcome-PlanRun :
      (arch_pid pid : ℕ) (r : Result TaskOutput) (st : QueenState W)
      → IsOut pid st.agent.idle_leads
      → NoTwice st.agent.idle_leads
      → let (answer, st') = architect_outcome core arch_pid pid r st in
        NoTwice st'.agent.idle_leads × PlanRun core pid r st answer st'
  unfolding architect_outcome release_lead log reply_of
  architect_outcome-PlanRun arch_pid pid (ok result) st out distinct = (
    release_lead-NoTwice core pid st out distinct,
    (_, refl, ((_, refl, refl), refl, refl, refl)),
  )
  architect_outcome-PlanRun arch_pid pid (raised e) st out distinct =
      let (r, st') = log core (text "error") (text "Lead execution failed: " ++ e) st in
      let (same, settled) = kill_after_log pid e r st' in
      (subst (λ (q : Queen). NoTwice q.idle_leads) (sym same) distinct, (refl, refl, settled))

  pub acquire_lead-KeepsPool : KeepsPool (acquire_lead core)
  acquire_lead-KeepsPool st distinct =
      let (_, _, kept) = acquire_lead-IsOut core st distinct in kept

  pub spawn_child-KeepsPool : (spawn : Spawn) → KeepsPool (spawn_child {A = Queen} core spawn)
  unfolding spawn_child
  spawn_child-KeepsPool spawn st distinct = distinct

  pub handle_complex-KeepsPool :
      (description trace_id : Text) → KeepsPool (handle_complex core description trace_id)
  handle_complex-KeepsPool description trace_id st distinct =
      (handle_complex-ComplexRun core description trace_id st distinct).0

  run_plan-KeepsPool :
      (description trace_id : Text) (arch_pid : ℕ) (plan : Text) (r : Result ℕ) (st : QueenState W)
      → ((pid : ℕ) → r ≡ ok pid → IsOut pid st.agent.idle_leads)
      → NoTwice st.agent.idle_leads
      → NoTwice
          (continue r (run_plan core description trace_id arch_pid plan) st).1.agent.idle_leads
  unfolding run_plan execute_task
  run_plan-KeepsPool description trace_id arch_pid plan (raised e) st out distinct = distinct
  run_plan-KeepsPool description trace_id arch_pid plan (ok pid) st out distinct =
      let params = plan_params description plan st.agent.max_workers trace_id in
      let (r, st') = execute_task core (task_request pid description params 300) st in
      (architect_outcome-PlanRun arch_pid pid r st' (out pid refl) distinct).0

  acquired-KeepsPool :
      (description trace_id : Text) (arch_pid : ℕ) (plan : Text)
      → KeepsPool (acquire_lead core >>= run_plan core description trace_id arch_pid plan)
  acquired-KeepsPool description trace_id arch_pid plan st distinct =
      let (r, st') = acquire_lead core st in
      let (_, out, kept) = acquire_lead-IsOut core st distinct in
      run_plan-KeepsPool description trace_id arch_pid plan r st' out kept

  planned-KeepsPool :
      (description trace_id : Text) (arch_pid : ℕ) (r : Result TaskOutput)
      → KeepsPool (planned core description trace_id arch_pid r)
  unfolding planned
  planned-KeepsPool description trace_id arch_pid (ok result) =
      bind-KeepsPool _ _ (log-KeepsPool _ _)
        (λ _. acquired-KeepsPool description trace_id arch_pid result.output)
  planned-KeepsPool description trace_id arch_pid (raised e) =
      bind-KeepsPool _ _ (log-KeepsPool _ _) (λ _. handle_complex-KeepsPool description trace_id)

  ask_architect-KeepsPool :
      (description trace_id : Text) (arch_pid : ℕ)
      → KeepsPool (ask_architect core description trace_id arch_pid)
  unfolding ask_architect execute_task
  ask_architect-KeepsPool description trace_id arch_pid st distinct =
      let params = lead_params description st.agent.max_workers trace_id in
      let (r, st') = execute_task core (task_request arch_pid description params 120) st in
      planned-KeepsPool description trace_id arch_pid r st' distinct

  pub handle_architect-KeepsPool :
      (description trace_id : Text) → KeepsPool (handle_architect core description trace_id)
  unfolding handle_architect
  handle_architect-KeepsPool description trace_id =
      let announce =
        log core (text "info") (text "Architect strategy: spawning strategic planner") in
      let note =
        λ (pid : ℕ). log core (text "info") (text "Architect spawned as PID " ++ show pid) in
      let ask = ask_architect core description trace_id in
      let spawn = spawn_child core architect_spawn in
      bind-KeepsPool announce (λ _. spawn >>= λ pid. note pid >> ask pid) (log-KeepsPool _ _)
        (λ _.
          bind-KeepsPool spawn (λ pid. note pid >> ask pid) (spawn_child-KeepsPool architect_spawn)
            (λ pid.
              bind-KeepsPool (note pid) (λ _. ask pid) (log-KeepsPool _ _)
                (λ _. ask_architect-KeepsPool description trace_id pid)))
