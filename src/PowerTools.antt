-- ===== src/PowerTools.antt =====
-- sdk/python/hivekernel_sdk/power_tools.py: the tools that have a task done by workers or by another agent.
-- `asyncio.gather` starts the subtasks together; here they run one after another. `max_workers` is not
-- negative, and the elements of the decomposition are texts.
pub mod Workers
pub mod Catalog
mod Witnesses
use hivekernel.Prelude.{
  ℕ, zero, suc, ◌+◌, ◌-◌, Bool, true, false, Option, none, some, List, [], ◌∷◌, ◌++◌, ◌==◌, take,
  drop, map, if◌then◌else◌,
}
use hivekernel.Prelude.Text.{Text, text, join_with}
use hivekernel.Prelude.Dict.{lookup, lookup_or}
use hivekernel.Prelude.Decimal.{show}
use hivekernel.Exec.{Result, ok, raised, Exec, pure, suppress, ◌>>=◌, ◌>>◌}
use hivekernel.Core.{
  Core, Session, Spawn, TaskOutput, ExecuteRequest, spawn_child, kill_child, execute_task,
}
use hivekernel.Core.Client.{CoreClient, send_message}
use hivekernel.Tools.{ToolResult, Outcome, returns, raises}
use hivekernel.BuiltinTools.{Args, quoted, result, printed, need_text, need_number}

-- `raw.find(c)` and `raw.rfind(c)` of one character, from position `i` on.
unfoldable pub find : ℕ → ℕ → Text → Option ℕ
find c i [] = none
find c i (d ∷ s) = let rest = find c (i + 1) s in if d == c then some i else rest

unfoldable pub rfind : ℕ → ℕ → Text → Option ℕ
rfind c i [] = none
rfind c i (d ∷ s) = elim (rfind c (i + 1) s) [
  | some j ↦ some j
  | none ↦ if d == c then some i else none
]

-- What `json.loads` makes of a text: an exception, a list, or anything else.
pub data Parsed : Type 0 where
  no_json : Text → Parsed
  items : List Text → Parsed
  other : Parsed

-- The `ToolContext` of the tool, with `complete` of its model, and what it does not implement.
pub record PowerEnv (W : Type 0) : Type 0 where
  pub core : Core W
  pub complete : Option ((prompt : Text) → (max_tokens : ℕ) → W → Result Text × W)
  pub loads : Text → Parsed
  pub dumps : List Text → Text
  pub decompose_prompt : Text → ℕ → Text

abbrev pub failure : Text → ToolResult
failure content = record { content = content; is_error = true }

-- What comes of the decomposition: the subtasks, or the error that the tool returns.
pub data Decomposition : Type 0 where
  refused : ToolResult → Decomposition
  subtasks : List Text → Decomposition

unfoldable pub parsed_subtasks : Parsed → Decomposition
parsed_subtasks (no_json e) = refused (failure (text "Decomposition failed: " ++ e))
parsed_subtasks (items []) =
    refused (failure (text "Decomposition returned empty or non-list result"))
parsed_subtasks (items (s ∷ ss)) = subtasks (s ∷ ss)
parsed_subtasks other = refused (failure (text "Decomposition returned empty or non-list result"))

-- `raw[start:end]`, where there are both brackets.
unfoldable pub bracketed : Text → Option ℕ → Option ℕ → Option Text
bracketed raw none last = none
bracketed raw (some start) none = none
bracketed raw (some start) (some last) = some (take (last + 1 - start) (drop start raw))

unfoldable pub decomposed : (Text → Parsed) → Result Text → Decomposition
unfolding parsed_subtasks bracketed find rfind
decomposed loads (raised e) = refused (failure (text "Decomposition failed: " ++ e))
decomposed loads (ok raw) = elim (bracketed raw (find b'[' 0 raw) (rfind b']' 0 raw)) [
  | none ↦
      refused
        (failure (text "LLM did not return valid JSON array for decomposition: " ++ take 200 raw))
  | some json ↦ parsed_subtasks (loads json)
]

abbrev pub worker_spawn : ℕ → Spawn
worker_spawn i = record {
  name = text "orch-worker-" ++ show i;
  role = text "task";
  cognitive_tier = text "operational";
  model = text "mini";
  runtime_image = text "hivekernel_sdk.tool_agent:ToolAgent";
}

abbrev pub Worker : Type 0
Worker = ℕ × Text

-- The `output` of what `_run_subtask` returns.
abbrev pub output_of : Result TaskOutput → Text
output_of (ok r) = r.output
output_of (raised e) = text "Error: " ++ e

abbrev pub subtask_request : Worker → ExecuteRequest
subtask_request (pid, subtask) = record {
  target_pid = pid;
  description = subtask;
  params = [];
  timeout_seconds = 120;
}

-- `synthesis_parts`, of the workers and the outputs in their order.
unfoldable pub synthesis_parts : ℕ → List Worker → List Text → Text
synthesis_parts i [] outputs = []
synthesis_parts i ((pid, subtask) ∷ ws) [] = []
synthesis_parts i ((pid, subtask) ∷ ws) (o ∷ outputs) =
    text "Subtask "
    ++ (show (i + 1)
        ++ (text ": "
            ++ (subtask
                ++ (text "\nResult: "
                    ++ (take 2000 o ++ (text "\n" ++ synthesis_parts (i + 1) ws outputs))))))

unfoldable pub synthesis_prompt : Text → List Worker → List Text → Text
unfolding synthesis_parts
synthesis_prompt task workers outputs =
    text "Original task: "
    ++ (task
        ++ (text "\n\nSubtask results:\n"
            ++ (synthesis_parts 0 workers outputs
                ++ text "\nSynthesize these results into a coherent final answer.")))

-- The state of the tool is that of the kernel, with its calls.
abbrev pub Calls : Type 0 → Type 0
Calls W = Session (Unit {0}) W

module _ {W : Type 0} (env : PowerEnv W) where
  abbrev pub ask :
      ((prompt : Text) → (max_tokens : ℕ) → W → Result Text × W)
      → Text
      → ℕ
      → Calls W
      → Result Text × Calls W
  ask complete prompt max_tokens st =
      let (r, world) = complete prompt max_tokens st.world in (r, record st { world = world })

  -- A spawn answered: the worker joins those of the rest of the loop, or the exception leaves the loop.
  after_spawn :
      Text
      → Result ℕ
      → (List Worker × Result (Unit {0})) × Calls W
      → Calls W
      → (List Worker × Result (Unit {0})) × Calls W
  after_spawn s (ok pid) rest st = (((pid, s) ∷ rest.0.0, rest.0.1), rest.1)
  after_spawn s (raised e) rest st = (([], raised e), st)

  -- `worker_pids` with how the loop that fills it ended.
  unfoldable pub spawn_workers :
      ℕ → List Text → Calls W → (List Worker × Result (Unit {0})) × Calls W
  unfolding after_spawn
  spawn_workers i [] st = (([], ok tt), st)
  spawn_workers i (s ∷ ss) st =
      let (r, st') = spawn_child env.core (worker_spawn i) st in
      after_spawn s r (spawn_workers (i + 1) ss st') st'

  unfoldable pub run_subtasks : List Worker → Calls W → List Text × Calls W
  run_subtasks [] st = ([], st)
  run_subtasks (w ∷ ws) st =
      let (r, st1) = execute_task env.core (subtask_request w) st in
      let (outputs, st2) = run_subtasks ws st1 in (output_of r ∷ outputs, st2)

  unfoldable pub kill_workers : List Worker → Calls W → Calls W
  kill_workers [] st = st
  kill_workers (w ∷ ws) st = kill_workers ws (suppress (kill_child env.core w.0) st).1

  -- The body of the `try` after the spawns, and the `finally`.
  close : Result (Unit {0}) → List Worker → Calls W → Result (List Worker × List Text) × Calls W
  unfolding run_subtasks kill_workers
  close (ok u) workers st =
      let (outputs, st') = run_subtasks workers st in
      (ok (workers, outputs), kill_workers workers st')
  close (raised e) workers st = (raised e, kill_workers workers st)

  -- The workers with the outputs, or the exception of a spawn.
  unfoldable pub run_workers : List Text → Calls W → Result (List Worker × List Text) × Calls W
  unfolding close spawn_workers
  run_workers ss st = let ((workers, end), st') = spawn_workers 0 ss st in close end workers st'

  synthesized : List Text → Result Text → Text
  synthesized outputs (ok s) = s
  synthesized outputs (raised e) =
      text "Synthesis failed: " ++ (e ++ (text ". Raw results: " ++ env.dumps outputs))

  unfoldable pub synthesize :
      ((prompt : Text) → (max_tokens : ℕ) → W → Result Text × W)
      → Text
      → Result (List Worker × List Text)
      → Calls W
      → Outcome × Calls W
  unfolding synthesized synthesis_prompt
  synthesize complete task (raised e) st = (raises e, st)
  synthesize complete task (ok (workers, outputs)) st =
      let (r, st') = ask complete (synthesis_prompt task workers outputs) 2048 st in
      (returns (result (synthesized outputs r)), st')

  unfoldable pub orchestrate_task :
      ((prompt : Text) → (max_tokens : ℕ) → W → Result Text × W)
      → Text
      → ℕ
      → Decomposition
      → Calls W
      → Outcome × Calls W
  unfolding run_workers synthesize
  orchestrate_task complete task max_workers (refused r) st = (returns r, st)
  orchestrate_task complete task max_workers (subtasks ss) st =
      let (r, st') = run_workers (take max_workers ss) st in synthesize complete task r st'

  orchestrate_with :
      Option ((prompt : Text) → (max_tokens : ℕ) → W → Result Text × W)
      → Args
      → Calls W
      → Outcome × Calls W
  unfolding orchestrate_task decomposed
  orchestrate_with none args st =
      (returns (failure (text "orchestrate requires LLM access (ctx.llm not set)")), st)
  orchestrate_with (some complete) args st =
      need_text (text "task") args
        (λ task st.
          let max_workers = lookup_or (text "max_workers") 3 args.numbers in
          let (r, st') = ask complete (env.decompose_prompt task max_workers) 1024 st in
          orchestrate_task complete task max_workers (decomposed env.loads r) st')
        st

  -- `OrchestrateTool.execute`
  unfoldable pub run_orchestrate : Args → Calls W → Outcome × Calls W
  unfolding orchestrate_with
  run_orchestrate = orchestrate_with env.complete

-- `DelegateAsyncTool.execute`
unfoldable pub run_delegate_async :
    {W : Type 0} → CoreClient W → (Text → Text) → Args → W → Outcome × W
run_delegate_async client dumps_task args = need_text (text "task_description") args λ task.
    need_number (text "target_pid") args λ pid. λ w.
      printed
        (λ id.
          text "Task delegated to PID "
          ++ (show pid ++ (text ", msg_id=" ++ (id ++ text ". Result will arrive later."))))
        (send_message client
          (record {
            to_pid = pid;
            type = text "task_request";
            payload = dumps_task task;
            reply_to = [];
          })
          w)
