-- ===== src/Assistant/Actions.antt =====
-- `_handle_schedule`, `_handle_code_delegation` and `_handle_delegation` of assistant.py, which act on
-- the blocks in an answer of the model.
pub mod Keeps
use hivekernel.Prelude.{
  ℕ, Bool, true, false, ◌&&◌, Option, none, some, List, [], ◌∷◌, ◌++◌, take, if◌then◌else◌,
}
use hivekernel.Prelude.Text.{Text, text, truthy}
use hivekernel.Prelude.Dict.{Dict, lookup, lookup_or, insert}
use hivekernel.Prelude.Decimal.{show}
use hivekernel.Exec.{Result, ok, raised, Exec, pure, modify, continue, ◌>>=◌, ◌>>◌}
use hivekernel.Core.{
  Core, Session, TaskOutput, Sibling, CronRequest, add_cron, execute_task, send_message, log, uuid,
}
use hivekernel.Agent.Mailbox.{HiveAgent, CronFields}
use hivekernel.Assistant.Blocks.{Block, is_empty, extract_json_block}
use hivekernel.Assistant.Delegations.{Delegation, ResultFields}
use hivekernel.Assistant.Siblings.{resolve, nonzero}

-- The mailbox of the base class, the delegations in flight, and what the agent was told of itself.
pub record Assistant : Type 0 where
  pub mailbox : HiveAgent
  pub active_delegations : Dict Delegation
  pub pid : ℕ
  pub name : Text

abbrev pub AssistantState : Type 0 → Type 0
AssistantState W = Session Assistant W

-- An entry of the history: a dictionary with a role and a content, or anything else.
pub data HistoryEntry : Type 0 where
  entry : (role content : Text) → HistoryEntry
  other : HistoryEntry

-- What the assistant does not implement: the kernel, the model and `json`.
pub record AssistantEnv (W : Type 0) : Type 0 where
  pub core : Core W
  pub ask : Text → W → Result Text × W
  pub chat : List (Text × Text) → W → Result Text × W
  pub loads_history : Text → Option (List HistoryEntry)
  pub loads_pids : Text → Option (Dict ℕ)
  pub loads_block : Text → Option Block
  pub loads_result : Text → ResultFields
  pub no_object : Text → Option Text
  pub loads_cron : Text → CronFields
  pub with_task : Text → Text → Text
  pub loads_task : Text → Result (Option Text × Option Text)
  pub dump_task : (task trace_id : Text) → Text
  pub dump_output : Text → Text
  pub dump_error : Text → Text
  pub show_names : List Text → Text

abbrev pub field : Text → Text → Block → Text
field name default block = lookup_or name default block.fields

abbrev pub cron_request : Block → ℕ → CronRequest
cron_request block pid = record {
  name = field (text "name") (text "assistant-scheduled") block;
  cron_expression = field (text "cron") (text "0 * * * *") block;
  target_pid = pid;
  description = field (text "description") (text "Scheduled task") block;
  params = elim block.params [ none ↦ [] | some p ↦ p ];
}

unfoldable pub scheduled_line : Block → Result Text → Text
scheduled_line block (ok cron_id) =
    text "[Scheduled: "
    ++ (field (text "name") (text "?") block
        ++ (text " | cron: "
            ++ (field (text "cron") (text "?") block ++ (text " | id: " ++ (cron_id ++ text "]")))))
scheduled_line block (raised e) = text "[Failed to schedule: " ++ (e ++ text "]")

unfoldable pub code_line : Result TaskOutput → Text
code_line (ok result) = text "[Code from Coder agent:]" ++ (10 ∷ result.output)
code_line (raised e) = text "[Code delegation failed: " ++ (e ++ text "]")

unfoldable pub delegated_line : Text → Result (Unit {0}) → Text
delegated_line target (ok u) =
    text "[Delegated to " ++ (target ++ text " -- results will appear in next message]")
delegated_line target (raised e) =
    text "[Delegation to " ++ (target ++ (text " failed: " ++ (e ++ text "]")))

module _ {W : Type 0} (env : AssistantEnv W) where
  schedule_for : Block → Option ℕ → Exec (AssistantState W) (Option Text)
  unfolding scheduled_line
  schedule_for block none st = (
    ok (
        some (
          text "[Could not find agent '"
          ++ (field (text "target") [] block ++ text "' to schedule]"))),
    st,
  )
  schedule_for block (some pid) st =
      let (r, st') = add_cron env.core (cron_request block pid) st in
      (ok (some (scheduled_line block r)), st')

  -- `if not info: return None`, before what is done with a block.
  abbrev pub on_block :
      Option Block
      → (Block → Exec (AssistantState W) (Option Text))
      → Exec (AssistantState W) (Option Text)
  on_block none f = pure none
  on_block (some block) f = if is_empty block then pure none else f block

  unfoldable pub handle_schedule : Text → Dict ℕ → Exec (AssistantState W) (Option Text)
  unfolding schedule_for
  handle_schedule response pids =
      on_block (extract_json_block env.loads_block response (text "SCHEDULE:"))
        (λ block. schedule_for block (resolve (field (text "target") [] block) pids))

  code_for : Block → Option ℕ → Exec (AssistantState W) (Option Text)
  unfolding code_line
  code_for block none st = (ok (some (text "[Coder agent not available]")), st)
  code_for block (some pid) st =
      let (r, st') =
        execute_task env.core
          (record {
            target_pid = pid;
            description = field (text "request") (text "Write code") block;
            params =
                (text "request", field (text "request") [] block)
                ∷ (text "language", field (text "language") (text "python") block)
                ∷ [];
            timeout_seconds = 120;
          })
          st in
      (ok (some (code_line r)), st')

  unfoldable pub handle_code_delegation : Text → Dict ℕ → Exec (AssistantState W) (Option Text)
  unfolding code_for
  handle_code_delegation response pids =
      on_block (extract_json_block env.loads_block response (text "DELEGATE_CODE:"))
        (λ block. code_for block (nonzero (lookup (text "coder") pids)))

  -- The request is sent under a new id, and then the delegation is in flight under it.
  unfoldable pub track :
      (target task trace_id request_id : Text) → AssistantState W → AssistantState W
  track target task trace_id request_id st = record st {
    agent = record st.agent {
      active_delegations =
          insert request_id
            (record {
              target = target;
              task = task;
              ts = env.core.time st.world;
              trace_id = trace_id;
            })
            st.agent.active_delegations;
    };
  }

  unfoldable pub send_fire_and_forget : ℕ → Text → Text → Exec (AssistantState W) Text
  send_fire_and_forget to_pid type payload = do
    request_id ← uuid env.core
    send_message env.core
        (record { to_pid = to_pid; type = type; payload = payload; reply_to = request_id })
    pure request_id

  unfoldable pub delegate : Text → Text → ℕ → Exec (AssistantState W) (Unit {0})
  unfolding track send_fire_and_forget
  delegate target task pid = do
    id ← uuid env.core
    request_id ←
        send_fire_and_forget pid (text "task_request") (env.dump_task task (text "t-" ++ take 8 id))
    modify (track target task (text "t-" ++ take 8 id) request_id)

  try_delegate : Text → Text → ℕ → Exec (AssistantState W) (Option Text)
  unfolding delegate delegated_line
  try_delegate target task pid st =
      let (r, st') = delegate target task pid st in (ok (some (delegated_line target r)), st')

  -- The log line stands outside of the `try`.
  delegate_to : Text → Text → Option ℕ → Exec (AssistantState W) (Option Text)
  unfolding try_delegate
  delegate_to target task none =
      pure (some (text "[Could not find agent '" ++ (target ++ text "' for delegation]")))
  delegate_to target task (some pid) = do
    log env.core (text "info") (
        text "Delegating (async) to "
        ++ (target ++ (text " (PID " ++ (show pid ++ (text "): " ++ take 80 task)))))
    try_delegate target task pid

  delegate_block : Dict ℕ → Block → Exec (AssistantState W) (Option Text)
  unfolding delegate_to
  delegate_block pids block =
      let target = field (text "to") [] block in
      let task = field (text "task") [] block in
      if truthy target && truthy task
      then delegate_to target task (resolve target pids)
      else pure none

  unfoldable pub handle_delegation : Text → Dict ℕ → Exec (AssistantState W) (Option Text)
  unfolding delegate_block
  handle_delegation response pids =
      on_block (extract_json_block env.loads_block response (text "DELEGATE:"))
        (delegate_block pids)
