-- ===== src/ToolAgent/Witnesses.antt =====
-- Tests of tool_agent.py, and its theorems at a filter with two names.
use hivekernel.Prelude.{keep, ◌≡◌, refl, true, if◌then◌else◌, none, [], ◌∷◌, ◌++◌}
use hivekernel.Prelude.Text.{text, member, truthy, strip, split_on}
use hivekernel.Tools.{get}
use hivekernel.Tools.Samples.{counter, broken_counter, clock}
use hivekernel.Prelude.Dict.{lookup, lookup_or}
use hivekernel.Prelude.Decimal.{show}
use hivekernel.Core.{TaskOutput}
use hivekernel.Memory.{
  fresh, needs_summarization, add_message, messages_len, message_len, tool_calls_len,
}
use hivekernel.Memory.Storage.{load, save, store_artifact, get_artifact}
use hivekernel.Memory.Samples.{dumps, loads, calls_len}
use hivekernel.Llm.{new_client, chat, chat_with_tools}
use hivekernel.Tools.{execute, to_openai_schema}
use hivekernel.Loop.{preflight, overhead_tokens}
use hivekernel.Loop.Run.{
  run, run_calls, iterate, turn, attempt, finish_turn, respond, start, wrap_up,
}
use hivekernel.Loop.Samples.{env, registry, initial}
use hivekernel.Loop.Exceptions.{IsSavable}
use hivekernel.ToolAgent.Tasks.{Task, answered, handle_task, reload, handle_task-restart}
use hivekernel.ToolAgent.{allowed_names, init_registry}
use hivekernel.ToolAgent.Selection.{last_named, get-init_registry}

test_allowed : allowed_names (text " count, ,shell ") ≡ text "count" ∷ text "shell" ∷ []
unfolding allowed_names text strip split_on keep
test_allowed = refl

filter_given : truthy (text "count, shell") ≡ true
unfolding text
filter_given = refl

get-init_registry_example :
    get
      (text "count")
      (init_registry (counter ∷ []) (clock ∷ []) (broken_counter ∷ []) (text "count, shell"))
    ≡ (if member (text "count") (allowed_names (text "count, shell"))
        then last_named (text "count") (((counter ∷ []) ++ clock ∷ []) ++ broken_counter ∷ [])
        else none)
get-init_registry_example =
    get-init_registry (counter ∷ []) (clock ∷ []) (broken_counter ∷ []) (text "count, shell")
      (text "count") filter_given

abbrev question : Task
question = record { description = text "the number?"; params = [] }

abbrev again : Task
again = record { description = text "ask"; params = (text "task", text "and now?") ∷ [] }

program : Unit {0}
unfolding handle_task run chat chat_with_tools execute to_openai_schema text dumps loads calls_len
    preflight iterate turn attempt finish_turn respond start run_calls lookup wrap_up
    needs_summarization add_message messages_len message_len tool_calls_len overhead_tokens
    new_client save load store_artifact get_artifact show lookup_or
program = tt

abbrev output : TaskOutput
output = record {
  exit_code = 0;
  output = text "it is 42";
  artifacts = [];
  metadata =
      (text "iterations", text "2")
      ∷ (text "tool_calls", text "1")
      ∷ (text "tokens_used", text "30")
      ∷ (text "prompt_tokens", text "20")
      ∷ (text "completion_tokens", text "10")
      ∷ (text "llm_calls", text "2")
      ∷ [];
}

first_answer : (handle_task env registry (text "Be brief.") 5 question initial).0 ≡ answered output
unfolding program
first_answer = refl

first-IsSavable :
    IsSavable env registry
      (text "Be brief.")
      []
      (handle_task env registry (text "Be brief.") 5 question initial).1
unfolding program
first-IsSavable = record {
  memory_reachable = refl;
  session_reachable = refl;
  summary_reachable = refl;
  nonempty = refl;
  parsed = refl;
}

handle_task-restart_example :
    let agent = handle_task env registry (text "Be brief.") 5 in
    let end = (agent question initial).1 in
    (agent again (record end { memory = fresh end.memory.pid }) ≡ agent again end)
    × ((reload env registry
          (text "Be brief.")
          5
          (record end { memory = fresh end.memory.pid })).memory
        ≡ end.memory)
handle_task-restart_example =
    handle_task-restart env registry (text "Be brief.") 5 question again initial output first_answer
      first-IsSavable
