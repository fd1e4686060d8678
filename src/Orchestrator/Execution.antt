-- ===== src/Orchestrator/Execution.antt =====
-- sdk/python/hivekernel_sdk/orchestrator.py: `run_group` of `handle_task`, which runs the subtasks of a
-- group on one worker, and `_kill_safe`. The calls of ctx (syscall.py) are those of the kernel interface.
-- The agent's part of the state is the counter `completed`. No other group is interleaved.
pub mod Answers
use hivekernel.Prelude.{ℕ, ◌+◌, List, [], ◌∷◌, ◌++◌, if◌then◌else◌, take}
use hivekernel.Prelude.Text.{Text, text, truthy}
use hivekernel.Prelude.Dict.{Dict, insert, lookup_or}
use hivekernel.Prelude.Decimal.{show}
use hivekernel.Exec.{Result, ok, raised, Exec, pure, suppress, modify, ◌>>=◌, ◌>>◌}
use hivekernel.Core.{
  Core, Session, TaskOutput, ExecuteRequest, execute_task, kill_child, log, report_progress,
}
use hivekernel.Orchestrator.Groups.{Group}

-- An entry of `results`.
pub data Status : Type 0 where
  succeeded failed : Status

pub record SubtaskResult : Type 0 where
  pub subtask : Text
  pub worker_pid : ℕ
  pub group : Text
  pub output : Text
  pub status : Status
  pub tokens : Text

abbrev pub Progress : Type 0 → Type 0
Progress W = Session ℕ W

unfoldable pub sub_params : Text → Text → Dict Text
sub_params trace_id subtask =
    let params = (text "subtask", subtask) ∷ [] in
    if truthy trace_id then insert (text "trace_id") trace_id params else params

abbrev pub subtask_request : Text → ℕ → Text → ExecuteRequest
subtask_request trace_id pid subtask = record {
  target_pid = pid;
  description = subtask;
  params = sub_params trace_id subtask;
  timeout_seconds = 0;
}

unfoldable pub entry_of : Group → ℕ → Text → Result TaskOutput → SubtaskResult
entry_of g pid subtask (ok wr) = record {
  subtask = subtask;
  worker_pid = pid;
  group = g.name;
  output = wr.output;
  status = succeeded;
  tokens = lookup_or (text "tokens_used") (text "0") wr.metadata;
}
entry_of g pid subtask (raised e) = record {
  subtask = subtask;
  worker_pid = pid;
  group = g.name;
  output = e;
  status = failed;
  tokens = text "0";
}

module _ {W : Type 0} (core : Core W) where
  -- The `except` block logs, and what `log` raises leaves it.
  unfoldable pub report_failure : ℕ → Result TaskOutput → Exec (Progress W) (Unit {0})
  report_failure pid (ok wr) = pure tt
  report_failure pid (raised e) =
      log core (text "error") (text "Worker " ++ (show pid ++ (text " failed: " ++ e)))

  unfoldable pub progress : ℕ → Text → Exec (Progress W) (Unit {0})
  progress total subtask st =
      report_progress core
        (text "["
          ++ (show st.agent
              ++ (text "/" ++ (show total ++ (text "] " ++ (take 40 subtask ++ text "..."))))))
        st

  -- What follows the execution of a subtask.
  unfoldable pub conclude_subtask : ℕ → ℕ → Text → Result TaskOutput → Exec (Progress W) (Unit {0})
  unfolding report_failure progress
  conclude_subtask total pid subtask r = do
    report_failure pid r
    modify (λ st. record st { agent = st.agent + 1 })
    progress total subtask

  -- The results so far are an argument, as the list that the loop appends to.
  unfoldable pub run_subtasks :
      (total : ℕ) (trace_id : Text) (g : Group) (pid : ℕ)
      → List SubtaskResult
      → List Text
      → Exec (Progress W) (List SubtaskResult)
  unfolding entry_of
  run_subtasks total trace_id g pid results [] st = (ok results, st)
  run_subtasks total trace_id g pid results (subtask ∷ more) st =
      let (r, st') = execute_task core (subtask_request trace_id pid subtask) st in
      (conclude_subtask total pid subtask r
          >> run_subtasks total trace_id g pid (results ++ entry_of g pid subtask r ∷ []) more)
        st'

  unfoldable pub run_group : ℕ → Text → Group → ℕ → Exec (Progress W) (List SubtaskResult)
  unfolding run_subtasks
  run_group total trace_id g pid = run_subtasks total trace_id g pid [] g.subtasks

  unfoldable pub kill_safe : ℕ → Exec (Progress W) (Unit {0})
  kill_safe pid = suppress (kill_child core pid)
