-- ===== src/Worker.antt =====
-- sdk/python/hivekernel_sdk/worker.py: `WorkerAgent`, which keeps the tasks that it did as context for
-- the next one.
mod Witnesses
use hivekernel.Prelude.{ℕ, ◌+◌, List, [], ◌∷◌, ◌++◌, length, take}
use hivekernel.Prelude.Text.{Text, text, join_lines}
use hivekernel.Prelude.Dict.{Dict, lookup_or}
use hivekernel.Prelude.Decimal.{show}
use hivekernel.Exec.{Result, ok, raised, Exec, pure, modify, continue, ◌>>=◌, ◌>>◌}
use hivekernel.Core.{Core, Session, TaskOutput, report_progress, log}

-- A task that was done.
pub record Remembered : Type 0 where
  pub task : Text
  pub output : Text

pub record Worker : Type 0 where
  pub pid : ℕ
  pub task_memory : List Remembered

abbrev pub WorkerState : Type 0 → Type 0
WorkerState W = Session Worker W

pub record WorkerEnv (W : Type 0) : Type 0 where
  pub core : Core W
  pub ask : Text → W → Result Text × W
  pub total_tokens : W → ℕ

pub record Task : Type 0 where
  pub description : Text
  pub params : Dict Text

-- The lines for the earlier tasks, numbered from `i`.
unfoldable pub memory_lines : ℕ → List Remembered → List Text
memory_lines i [] =
    text "\n--- Current task ---"
    ∷ text "Use context from your previous tasks to inform this response.\n"
    ∷ []
memory_lines i (m ∷ ms) =
    (text "\n--- Previous task " ++ (show i ++ text " ---"))
    ∷ (text "Task: " ++ m.task)
    ∷ (text "Result: " ++ take 500 m.output)
    ∷ memory_lines (i + 1) ms

unfoldable pub context : List Remembered → Text
unfolding memory_lines
context [] = []
context (m ∷ ms) =
    join_lines (text "You have already completed these related tasks:" ∷ memory_lines 1 (m ∷ ms))

unfoldable pub worker_prompt : List Remembered → Text → Text
unfolding context
worker_prompt memory description =
    context memory
    ++ (text "Complete the following task thoroughly and concisely.\n\nTask: "
        ++ (description ++ text "\n\nProvide a clear, well-structured response."))

abbrev pub remember : Text → Text → Worker → Worker
remember task output worker = record worker {
  task_memory = worker.task_memory ++ record { task = task; output = output } ∷ [];
}

abbrev pub worker_output : Text → ℕ → ℕ → TaskOutput
worker_output result tokens done = record {
  exit_code = 0;
  output = result;
  artifacts = [];
  metadata = (text "tokens_used", show tokens) ∷ (text "tasks_completed", show done) ∷ [];
}

module _ {W : Type 0} (env : WorkerEnv W) where
  unfoldable pub ask : Text → Exec (WorkerState W) Text
  unfolding worker_prompt
  ask description st =
      let (r, world) = env.ask (worker_prompt st.agent.task_memory description) st.world in
      (r, record st { world = world })

  -- The count of the model's tokens is read before the last log line.
  unfoldable pub finish : Text → Exec (WorkerState W) TaskOutput
  finish result st =
      let tokens = env.total_tokens st.world in
      let done = length st.agent.task_memory in
      (log env.core (text "info") (
            text "Worker PID "
            ++ (show st.agent.pid
                ++ (text " done ("
                    ++ (show done ++ (text " tasks, " ++ (show tokens ++ text " tokens)"))))))
          >> report_progress env.core (text "Done")
          >> pure (worker_output result tokens done))
        st

  unfoldable pub start : Text → Exec (WorkerState W) (Unit {0})
  start description st =
      (log env.core (text "info") (
            text "Worker PID "
            ++ (show st.agent.pid ++ (text " starting: " ++ take 80 description)))
          >> report_progress env.core (text "Working..."))
        st

  unfoldable pub handle_task : Task → Exec (WorkerState W) TaskOutput
  unfolding ask finish start
  handle_task task =
      let description = lookup_or (text "subtask") task.description task.params in
      start description >>= λ u. ask description >>= λ result.
      modify (λ st. record st { agent = remember description result st.agent }) >>= λ v.
      finish result
