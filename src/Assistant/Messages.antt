-- ===== src/Assistant/Messages.antt =====
-- `on_message`, `handle_message` and `_process_ipc_task` of assistant.py. The creation of the background
-- task for a message is left out, and so is an assistant without a client of the kernel.
use hivekernel.Prelude.{◌&&◌, ◌||◌, Option, none, some, [], ◌++◌, ◌==◌, map, take, if◌then◌else◌}
use hivekernel.Prelude.Text.{Text, text, text_eq, truthy, lower}
use hivekernel.Prelude.Dict.{Dict, lookup}
use hivekernel.Exec.{Result, ok, raised, Exec, pure, suppress, ◌>>=◌, ◌>>◌}
use hivekernel.Core.{store_artifact, send_message, log}
use hivekernel.Agent.Mailbox.{Message, Routing}
use hivekernel.Assistant.Delegations.{Delegation, ResultFields, no_json, object}
use hivekernel.Assistant.Actions.{AssistantState, AssistantEnv}

-- `task_response` with the id of a delegation.
unfoldable pub is_delegation : Message → Dict Delegation → Option Delegation
is_delegation message active =
    if text_eq message.type (text "task_response") && truthy message.reply_to
    then lookup message.reply_to active
    else none

-- What is logged of a result: its output, or the whole of it.
unfoldable pub logged_output : Text → ResultFields → Text
logged_output payload no_json = payload
logged_output payload (object none error) = payload
logged_output payload (object (some output) error) = output

pub data Ack : Type 0 where
  accepted : Ack
  queued : Ack

unfoldable pub handle_message : Message → Ack
handle_message message =
    if text_eq message.type (text "task_request") || text_eq message.type (text "cron_task")
    then queued
    else accepted

-- `payload.get("task", payload.get("description", ""))`
abbrev pub described : Option Text × Option Text → Text
described (some task, description) = task
described (none, some description) = description
described (none, none) = []

module _ {W : Type 0} (env : AssistantEnv W) where
  -- `data.get` raises where a payload is JSON but no object.
  unfoldable pub check_object : Text → Exec (AssistantState W) (Unit {0})
  check_object payload st = elim (env.no_object payload) [
    | none ↦ (ok tt, st)
    | some e ↦ (raised e, st)
  ]

  -- A result is stored and logged; an exception is passed over.
  unfoldable pub record_result : Message → Option Delegation → Exec (AssistantState W) (Unit {0})
  unfolding check_object logged_output
  record_result message none = pure tt
  record_result message (some d) = suppress (
      check_object message.payload
      >> store_artifact env.core
          (text "assistant/delegation-result/"
            ++ take 40 (map (λ c. if c == 32 then 45 else c) (lower d.task)))
          message.payload
      >> log env.core (text "info") (
          text "Delegation result from "
          ++ (d.target
              ++ (text ": "
                  ++ take 500 (logged_output message.payload (env.loads_result message.payload))))))

  unfoldable pub on_message : Message → AssistantState W → Routing × AssistantState W
  unfolding record_result is_delegation
  on_message message st =
      let delegation = is_delegation message st.agent.active_delegations in
      let (routing, mailbox) =
        hivekernel.Agent.Mailbox.on_message env.loads_cron env.with_task message st.agent.mailbox in
      let (r, st') =
        record_result message delegation
          (record st { agent = record st.agent { mailbox = mailbox } }) in
      (routing, st')

  unfoldable pub ask : Text → Exec (AssistantState W) Text
  ask prompt st = let (r, world) = env.ask prompt st.world in (r, record st { world = world })

  unfoldable pub reply_to : Message → Text → Exec (AssistantState W) (Unit {0})
  reply_to message payload = send_message env.core (record {
    to_pid = message.from_pid;
    type = text "task_response";
    payload = payload;
    reply_to = message.message_id;
  })

  unfoldable pub answer_ipc : Message → Text → Exec (AssistantState W) (Unit {0})
  unfolding ask reply_to
  answer_ipc message description =
      if truthy description
      then (do
        response ← ask description
        log env.core (text "info") (text "IPC task result: " ++ take 200 response)
        reply_to message (env.dump_output response))
      else reply_to message (env.dump_error (text "empty task"))

  unfoldable pub report_error : Message → Result (Unit {0}) → Exec (AssistantState W) (Unit {0})
  unfolding reply_to
  report_error message (ok u) = pure tt
  report_error message (raised e) = suppress (reply_to message (env.dump_error e))

  unfoldable pub process_ipc_task : Message → Exec (AssistantState W) (Unit {0})
  unfolding answer_ipc report_error
  process_ipc_task message st =
      let (r, st') =
        ((λ st. (env.loads_task message.payload, st)) >>= λ payload.
        answer_ipc message (described payload))
          st in
      report_error message r st'
