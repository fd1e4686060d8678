-- ===== src/Assistant/Witnesses.antt =====
-- Tests of assistant.py, and its theorems at a kernel whose world is a clock.
use hivekernel.Prelude.{ℕ, ◌≡◌, refl, none, some, [], ◌∷◌, arith}
use hivekernel.Prelude.Text.{Text, text, starts_with, contains, lower}
use hivekernel.Prelude.Dict.{Dict, lookup}
use hivekernel.Prelude.Decimal.{show}
use hivekernel.Exec.{raised}
use hivekernel.Core.Samples.{quiet}
use hivekernel.Agent.Mailbox.{HiveAgent, Message, new_agent}
use hivekernel.Assistant.Blocks.{Block, extract_json_block, strip_marker}
use hivekernel.Assistant.Blocks.Extraction.{empty, braces, FirstAt, Flat, extract_json_block-Nested}
use hivekernel.Assistant.Delegations.{Delegation, no_json, collect, result_prefix}
use hivekernel.Assistant.Siblings.{resolve}
use hivekernel.Assistant.Actions.{AssistantState, AssistantEnv}
use hivekernel.Assistant.Actions.Keeps.{unread}
use hivekernel.Assistant.Tasks.{Task, elapsed, handle_task}
use hivekernel.Assistant.Tasks.Delivery.{Delivered, handle_task-Delivered}

-- A block is read as its own text under `raw`.
abbrev raw_block : Text → Block
raw_block s = record { fields = (text "raw", s) ∷ []; params = none }

-- A brace inside of a JSON text counts like any other: the block ends too early.
test_brace_in_text :
    extract_json_block
      (λ s. some (raw_block s))
      (text "DELEGATE: {\"task\": \"close }\"}")
      (text "DELEGATE:")
    ≡ some (raw_block (text "{\"task\": \"close }"))
unfolding extract_json_block text
test_brace_in_text = refl

-- No target is a part of every name.
test_no_target : resolve [] ((text "queen", 4) ∷ (text "coder", 5) ∷ []) ≡ some 4
unfolding resolve text lookup contains lower
test_no_target = refl

-- A delegation that was started five seconds after the start of the task.
test_elapsed : elapsed 10 15 ≡ text "-5"
unfolding elapsed text show
test_elapsed = refl

first_marker : FirstAt (text "SCHEDULE:") (text "ok ") (text "SCHEDULE: {{}} bye")
unfolding text starts_with
first_marker = (refl, (refl, (refl, tt)))

marker-Flat : Flat (text "SCHEDULE:")
unfolding text
marker-Flat = ground arith

gap-Flat : Flat (text " ")
unfolding text
gap-Flat = ground arith

extract_json_block-Nested_example :
    let answer = text "ok SCHEDULE: {{}} bye" in
    (extract_json_block (λ s. some (raw_block s)) answer (text "SCHEDULE:")
      ≡ some (raw_block (text "{{}}")))
    × (strip_marker (λ s. some (raw_block s)) answer (text "SCHEDULE:") ≡ text "ok  bye")
unfolding text
extract_json_block-Nested_example =
    extract_json_block-Nested (λ s. some (raw_block s)) (text "SCHEDULE:") (text "ok ") (text " ")
      (b'{' ∷ b'}' ∷ []) (text " bye") (raw_block (text "{{}}")) first_marker marker-Flat gap-Flat
      (braces [] [] empty empty) refl

abbrev delegation : Text → ℕ → Delegation
delegation target ts = record {
  target = target;
  task = text "survey";
  ts = ts;
  trace_id = text "t-1";
}

abbrev active : Dict Delegation
active =
    (text "a", delegation (text "queen") 100)
    ∷ (text "b", delegation (text "coder") 100)
    ∷ (text "c", delegation (text "queen") 500)
    ∷ []

abbrev result : Message
result = record {
  message_id = text "m";
  from_pid = 4;
  type = text "task_response";
  payload = text "done";
  reply_to = text "a";
}

-- The model fails.
abbrev env : AssistantEnv ℕ
env = record {
  core = quiet;
  ask = λ prompt w. (raised (text "no credit"), w);
  chat = λ messages w. (raised (text "no credit"), w);
  loads_history = λ s. none;
  loads_pids = λ s. none;
  loads_block = λ s. none;
  loads_result = λ s. no_json;
  no_object = λ s. none;
  loads_cron = λ s. hivekernel.Agent.Mailbox.no_json;
  with_task = λ description payload. payload;
  loads_task = λ s. raised (text "no JSON");
  dump_task = λ task trace_id. task;
  dump_output = λ s. s;
  dump_error = λ s. s;
  show_names = λ names. [];
}

abbrev begin : AssistantState ℕ
begin = record {
  agent = record {
    mailbox = record {
      pending_requests = [];
      pending_results = result ∷ [];
      futures = λ f. hivekernel.Agent.Mailbox.cancelled;
      allocated = 0;
    };
    active_delegations = active;
    pid = 7;
    name = text "assistant";
  };
  world = 800;
  calls = [];
}

abbrev task : Task
task = record { description = text "and now?"; params = [] }

handle_task-Delivered_example :
    Delivered
      (result_prefix (collect env.loads_result 800 (unread begin) begin.agent.active_delegations).0)
      (handle_task env task begin)
handle_task-Delivered_example = handle_task-Delivered env task begin
