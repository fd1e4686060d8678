-- ===== src/ToolAgent/Tasks.antt =====
-- sdk/python/hivekernel_sdk/tool_agent.py: `ToolAgent.handle_task`, which loads the memory, runs the
-- agent loop and turns its result into a task result. The latency is left out of the metadata,
-- and the trace id, which only the dialog log reads.
use hivekernel.Prelude.{ℕ, ◌≡◌, sym, ap, refl, ◌∙◌, [], ◌∷◌}
use hivekernel.Prelude.Text.{Text, text}
use hivekernel.Prelude.Dict.{Dict, lookup_or}
use hivekernel.Prelude.Decimal.{show}
use hivekernel.Core.{TaskOutput}
use hivekernel.Memory.{AgentMemory, fresh}
use hivekernel.Memory.Storage.{load}
use hivekernel.Tools.{ToolRegistry}
use hivekernel.Loop.{ToolWorld, Env, State, LoopError, LoopResult}
use hivekernel.Loop.Run.{RunResult, returned, exception, run}
use hivekernel.Loop.Exceptions.{IsSavable, run_saves}

pub record Task : Type 0 where
  pub description : Text
  pub params : Dict Text

-- What `handle_task` returns, or the exception that leaves it.
pub data Answer : Type 0 where
  answered : TaskOutput → Answer
  raised : LoopError → Answer

task_output : LoopResult → TaskOutput
task_output r = record {
  exit_code = 0;
  output = r.content;
  artifacts = [];
  metadata =
      (text "iterations", show r.iterations)
      ∷ (text "tool_calls", show r.tool_calls_total)
      ∷ (text "tokens_used", show r.total_tokens)
      ∷ (text "prompt_tokens", show r.prompt_tokens)
      ∷ (text "completion_tokens", show r.completion_tokens)
      ∷ (text "llm_calls", show r.llm_calls)
      ∷ [];
}

unfoldable pub answer_of : RunResult → Answer
unfolding task_output
answer_of (returned r) = answered (task_output r)
answer_of (exception e) = raised e

returned_run :
    (r : RunResult) (output : TaskOutput)
    → answer_of r ≡ answered output
    → (result : LoopResult) × (r ≡ returned result)
unfolding answer_of
returned_run (returned result) output h = (result, refl)
returned_run (exception e) output h = cc

module _ {Args W : Type 0} (env : Env Args W) (registry : ToolRegistry Args (ToolWorld W))
    (system_prompt : Text) (max_iterations : ℕ) where
  -- `await self.memory.load(tool_ctx)`
  unfoldable pub reload : State W → State W
  reload st = record st { memory = load env.dumps env.loads st.world.artifacts st.memory }

  unfoldable pub handle_task : Task → State W → Answer × State W
  unfolding reload answer_of
  handle_task task st =
      let prompt = lookup_or (text "task") task.description task.params in
      let (r, st') = run env registry system_prompt [] max_iterations prompt (reload st) in
      (answer_of r, st')

  -- An agent that is started anew, with the client that it had, behind a task that returned and whose
  -- memory could be saved goes on as the agent that ran the task: both do the next task with the same
  -- answer and the same end, and with the memory that the first task left.
  pub handle_task-restart :
      (first next : Task) (st : State W) (output : TaskOutput)
      → (handle_task first st).0 ≡ answered output
      → IsSavable env registry system_prompt [] (handle_task first st).1
      → let end = (handle_task first st).1 in
        (handle_task next (record end { memory = fresh end.memory.pid }) ≡ handle_task next end)
        × ((reload (record end { memory = fresh end.memory.pid })).memory ≡ end.memory)
  unfolding handle_task reload
  handle_task-restart first next st output h savable =
      let end = (handle_task first st).1 in
      let prompt = lookup_or (text "task") first.description first.params in
      let start = reload st in
      let (result, e) =
        returned_run (run env registry system_prompt [] max_iterations prompt start).0 output h in
      let saved = λ (n : AgentMemory) (same : end.memory.pid ≡ n.pid).
        run_saves env registry system_prompt [] max_iterations prompt start result n e savable
          same in
      let back = saved (fresh end.memory.pid) refl in
      (
        ap
            (λ m.
              let (r, st') =
                run env registry system_prompt [] max_iterations
                  (lookup_or (text "task") next.description next.params)
                  (record end { memory = m }) in
              (answer_of r, st'))
            (back ∙ sym (saved end.memory refl)),
        back,
      )
