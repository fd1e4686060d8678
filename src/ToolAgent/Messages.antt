-- ===== src/ToolAgent/Messages.antt =====
-- sdk/python/hivekernel_sdk/tool_agent.py: `ToolAgent.handle_message`, which runs the agent loop on the task
-- of a message and replies to its sender.
use hivekernel.Prelude.{ℕ, ◌||◌, Option, none, some, [], take, if◌then◌else◌}
use hivekernel.Prelude.Text.{Text, text, text_eq}
use hivekernel.Exec.{Result, ok, raised}
use hivekernel.Core.{Send}
use hivekernel.Agent.Mailbox.{Message}
use hivekernel.Tools.{ToolRegistry}
use hivekernel.Loop.{ToolWorld, World, Env, State, LoopError}
use hivekernel.Loop.Run.{RunResult, returned, exception, run}
use hivekernel.ToolAgent.Tasks.{reload}

-- What `json.loads` makes of the payload of a task: no JSON, an object with or without a task and a
-- description, which are texts, or something that has no `get`.
pub data TaskFields : Type 0 where
  no_json : TaskFields
  object : (task description : Option Text) → TaskFields
  other : TaskFields

pub data MessageAnswer : Type 0 where
  acknowledged : (reply : Text) → MessageAnswer
  passed_on : MessageAnswer
  loop_raised : LoopError → MessageAnswer
  left_by : Text → MessageAnswer

unfoldable pub prompt_of : TaskFields → (payload : Text) → Result Text
prompt_of no_json payload = ok payload
prompt_of (object (some task) description) payload = ok task
prompt_of (object none (some description)) payload = ok description
prompt_of (object none none) payload = ok (text "")
prompt_of other payload = raised (text "object has no attribute 'get'")

module _ {Args W : Type 0} (env : Env Args W) (registry : ToolRegistry Args (ToolWorld W))
    (system_prompt : Text) (max_iterations : ℕ) (loads : Text → TaskFields)
    (dumps_output : Text → Text) (send_message : Send → World W → Result (Unit {0}) × World W) where
  acknowledge : Text → Result (Unit {0}) × World W → State W → MessageAnswer × State W
  acknowledge content (ok u, world) st =
      (acknowledged (take 200 content), record st { world = world })
  acknowledge content (raised e, world) st = (left_by e, record st { world = world })

  -- `reply_to` with the result, and the acknowledgement.
  unfoldable pub reply_result : Message → RunResult → State W → MessageAnswer × State W
  unfolding acknowledge
  reply_result message (exception e) st = (loop_raised e, st)
  reply_result message (returned r) st =
      acknowledge r.content
        (send_message
          (record {
            to_pid = message.from_pid;
            type = text "task_response";
            payload = dumps_output r.content;
            reply_to = message.message_id;
          })
          st.world)
        st

  run_message : Message → Result Text → State W → MessageAnswer × State W
  unfolding reply_result
  run_message message (raised e) st = (left_by e, st)
  run_message message (ok prompt) st =
      let (r, st') =
        run env registry system_prompt [] max_iterations prompt
          (reload env registry system_prompt max_iterations st) in
      reply_result message r st'

  unfoldable pub handle_message : Message → State W → MessageAnswer × State W
  unfolding run_message prompt_of
  handle_message message st =
      if text_eq message.type (text "task_request") || text_eq message.type (text "cron_task")
      then run_message message (prompt_of (loads message.payload) message.payload) st
      else (passed_on, st)
