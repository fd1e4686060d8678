-- ===== src/PowerTools/Catalog.antt =====
-- `POWER_TOOLS` of power_tools.py, with the schemas of the tools.
use hivekernel.Prelude.{List, [], ◌∷◌}
use hivekernel.Prelude.Text.{Text, text}
use hivekernel.BuiltinTools.{string, integer, required, optional}
use hivekernel.BuiltinTools.Catalog.{BuiltinTool}
use hivekernel.PowerTools.{Calls, PowerEnv, run_orchestrate, run_delegate_async}

abbrev pub orchestrate_tool : {W : Type 0} → PowerEnv W → BuiltinTool (Calls W)
orchestrate_tool env = record {
  name = text "orchestrate";
  description =
      text
        "Decompose a complex task into parallel subtasks, spawn workers, execute them, and synthesize results. Requires LLM access.";
  properties =
      required (text "task") string (text "The task to decompose and execute in parallel")
      ∷ optional (text "max_workers") integer
          (text "Maximum number of parallel workers (default 3)")
      ∷ [];
  execute = λ ctx. run_orchestrate env;
}

abbrev pub delegate_async_tool : {W : Type 0} → (Text → Text) → BuiltinTool W
delegate_async_tool dumps_task = record {
  name = text "delegate_async";
  description =
      text
        "Send a task to another agent asynchronously (fire-and-forget). The result will arrive later as a message.";
  properties =
      required (text "target_pid") integer (text "PID of the target agent")
      ∷ required (text "task_description") string (text "Description of the task to delegate")
      ∷ [];
  execute = λ ctx. run_delegate_async ctx.client dumps_task;
}

abbrev pub power_tools : {W : Type 0} → PowerEnv W → (Text → Text) → List (BuiltinTool (Calls W))
power_tools env dumps_task = orchestrate_tool env ∷ delegate_async_tool dumps_task ∷ []
