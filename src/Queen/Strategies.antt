-- ===== src/Queen/Strategies.antt =====
-- sdk/python/hivekernel_sdk/queen.py: `_core_handle_simple`, `_core_handle_complex` and
-- `_core_handle_architect`, with their exception handlers as functions of their own.
pub mod Simple
pub mod Complex
pub mod Architect
use hivekernel.Prelude.{ℕ, zero, suc, List, [], ◌∷◌, ◌++◌, length, if◌then◌else◌}
use hivekernel.Prelude.Text.{Text, text, truthy}
use hivekernel.Prelude.Dict.{Dict, insert}
use hivekernel.Prelude.Decimal.{show}
use hivekernel.Exec.{Result, ok, raised, Exec, pure, suppress, continue, ◌>>=◌, ◌>>◌}
use hivekernel.Core.{
  Core, Session, Spawn, TaskOutput, ExecuteRequest, spawn_child, kill_child, execute_task, log,
}
use hivekernel.Queen.{Queen, QueenState, Reply}
use hivekernel.Queen.Leads.{acquire_lead, release_lead}

unfoldable pub worker_spawn : Spawn
worker_spawn = record {
  name = text "queen-task";
  role = text "task";
  cognitive_tier = text "operational";
  model = text "mini";
  runtime_image = text "hivekernel_sdk.worker:WorkerAgent";
}

unfoldable pub architect_spawn : Spawn
architect_spawn = record {
  name = text "architect";
  role = text "task";
  cognitive_tier = text "tactical";
  model = text "sonnet";
  runtime_image = text "hivekernel_sdk.architect:ArchitectAgent";
}

-- `if trace_id: params["trace_id"] = trace_id`
with_trace : Text → Dict Text → Dict Text
with_trace trace_id params =
    if truthy trace_id then insert (text "trace_id") trace_id params else params

unfoldable pub simple_params : Text → Text → Dict Text
unfolding with_trace
simple_params description trace_id = with_trace trace_id ((text "subtask", description) ∷ [])

unfoldable pub lead_params : Text → Text → Text → Dict Text
unfolding with_trace
lead_params description workers trace_id =
    with_trace trace_id ((text "task", description) ∷ (text "max_workers", workers) ∷ [])

unfoldable pub plan_params : Text → Text → Text → Text → Dict Text
unfolding with_trace
plan_params description plan workers trace_id =
    with_trace trace_id
      ((text "task", description) ∷ (text "plan", plan) ∷ (text "max_workers", workers) ∷ [])

-- `{**result, "metadata": {**result.get("metadata", {}), ...}}`, one entry at a time.
unfoldable pub annotate : Dict Text → Dict Text → Dict Text
annotate [] metadata = metadata
annotate ((k, v) ∷ more) metadata = annotate more (insert k v metadata)

unfoldable pub reply_of : TaskOutput → Dict Text → Reply
unfolding annotate
reply_of result more = record {
  output = result.output;
  exit_code = result.exit_code;
  artifacts = result.artifacts;
  metadata = annotate more result.metadata;
}

unfoldable pub failure : Text → Text → Reply
failure prefix e = record { output = prefix ++ e; exit_code = 1; artifacts = []; metadata = [] }

abbrev pub task_request : ℕ → Text → Dict Text → ℕ → ExecuteRequest
task_request pid description params seconds = record {
  target_pid = pid;
  description = description;
  params = params;
  timeout_seconds = seconds;
}

module _ {W : Type 0} (core : Core W) where
  -- `if worker_pid: try: kill ... except: pass`
  kill_if_any : ℕ → Exec (QueenState W) (Unit {0})
  kill_if_any zero st = (ok tt, st)
  kill_if_any (suc n) st = suppress (kill_child core (suc n)) st

  -- The rest of the `try` block, once the worker is there, and its handler.
  unfoldable pub simple_outcome : ℕ → Result TaskOutput → Exec (QueenState W) Reply
  unfolding kill_if_any
  simple_outcome worker_pid (ok result) = do
    suppress (kill_child core worker_pid)
    pure (reply_of result ((text "strategy", text "simple") ∷ []))
  simple_outcome worker_pid (raised e) = do
    kill_if_any worker_pid
    pure (failure (text "Task failed: ") e)

  run_worker : Text → Text → Result ℕ → Exec (QueenState W) Reply
  unfolding simple_outcome
  run_worker description trace_id (raised e) st = pure (failure (text "Task failed: ") e) st
  run_worker description trace_id (ok worker_pid) st =
      let request = task_request worker_pid description (simple_params description trace_id) 120 in
      let (r, st') = execute_task core request st in simple_outcome worker_pid r st'

  unfoldable pub handle_simple : Text → Text → Exec (QueenState W) Reply
  unfolding run_worker
  handle_simple description trace_id st =
      let (r, st') =
        (log core (text "info") (text "Simple strategy: spawning task worker")
            >> spawn_child core worker_spawn)
          st in
      run_worker description trace_id r st'

  -- The lead goes back to the pool after a success, and is killed after an exception.
  unfoldable pub complex_outcome : ℕ → Result TaskOutput → Exec (QueenState W) Reply
  complex_outcome lead_pid (ok result) = do
    release_lead core lead_pid
    pure (
        reply_of result ((text "strategy", text "complex") ∷ (text "lead_pid", show lead_pid) ∷ []))
  complex_outcome lead_pid (raised e) = do
    suppress (kill_child core lead_pid)
    pure (failure (text "Task failed: ") e)

  unfoldable pub run_lead : Text → Text → ℕ → Exec (QueenState W) Reply
  unfolding complex_outcome
  run_lead description trace_id lead_pid st =
      let params = lead_params description st.agent.max_workers trace_id in
      let (r, st') = execute_task core (task_request lead_pid description params 300) st in
      complex_outcome lead_pid r st'

  unfoldable pub handle_complex : Text → Text → Exec (QueenState W) Reply
  handle_complex description trace_id = do
    log core (text "info") (text "Complex strategy: acquiring orchestrator lead")
    lead_pid ← acquire_lead core
    run_lead description trace_id lead_pid

  -- The handler logs before it kills, and what `log` raises leaves it.
  unfoldable pub architect_outcome : ℕ → ℕ → Result TaskOutput → Exec (QueenState W) Reply
  architect_outcome arch_pid lead_pid (ok result) = do
    release_lead core lead_pid
    pure (
        reply_of result
          ((text "strategy", text "architect") ∷ (text "architect_pid", show arch_pid) ∷ []))
  architect_outcome arch_pid lead_pid (raised e) = do
    log core (text "error") (text "Lead execution failed: " ++ e)
    suppress (kill_child core lead_pid)
    pure (failure (text "Architect execution failed: ") e)

  unfoldable pub run_plan : Text → Text → ℕ → Text → ℕ → Exec (QueenState W) Reply
  unfolding architect_outcome
  run_plan description trace_id arch_pid plan lead_pid st =
      let params = plan_params description plan st.agent.max_workers trace_id in
      let (r, st') = execute_task core (task_request lead_pid description params 300) st in
      architect_outcome arch_pid lead_pid r st'

  -- With a plan a lead runs it; without one the task is handled as a complex one.
  unfoldable pub planned : Text → Text → ℕ → Result TaskOutput → Exec (QueenState W) Reply
  planned description trace_id arch_pid (raised e) = do
    log core (text "error") (text "Architect failed: " ++ (e ++ text ", falling back to complex"))
    handle_complex description trace_id
  planned description trace_id arch_pid (ok result) = do
    log core (text "info")
        (text "Architect plan received (" ++ (show (length result.output) ++ text " bytes)"))
    lead_pid ← acquire_lead core
    run_plan description trace_id arch_pid result.output lead_pid

  unfoldable pub ask_architect : Text → Text → ℕ → Exec (QueenState W) Reply
  ask_architect description trace_id arch_pid st =
      let params = lead_params description st.agent.max_workers trace_id in
      let (r, st') = execute_task core (task_request arch_pid description params 120) st in
      planned description trace_id arch_pid r st'

  unfoldable pub handle_architect : Text → Text → Exec (QueenState W) Reply
  handle_architect description trace_id = do
    log core (text "info") (text "Architect strategy: spawning strategic planner")
    arch_pid ← spawn_child core architect_spawn
    log core (text "info") (text "Architect spawned as PID " ++ show arch_pid)
    ask_architect description trace_id arch_pid
