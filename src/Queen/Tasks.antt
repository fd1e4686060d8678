-- ===== src/Queen/Tasks.antt =====
-- sdk/python/hivekernel_sdk/queen.py: `_assess_complexity` with its fallback, `_check_maid_health`,
-- `handle_task`, `handle_message` and `_process_message_task`. Python's `json` at the values of these
-- methods and the answer of the model are parameters.
pub mod Assessment
pub mod Reachable
use hivekernel.Prelude.{
  ℕ, zero, suc, ◌≤◌, Bool, true, false, ◌||◌, Option, none, some, List, [], ◌∷◌, ◌++◌, ◌==◌, length,
  take, take_last, map, if◌then◌else◌,
}
use hivekernel.Prelude.Text.{Text, text, text_eq, truthy, lower, strip, strip_fences, join_with}
use hivekernel.Prelude.Dict.{Dict, lookup_or}
use hivekernel.Prelude.Decimal.{show}
use hivekernel.Exec.{Result, ok, raised, Exec, pure, suppress, continue, modify, ◌>>=◌, ◌>>◌}
use hivekernel.Core.{
  Core, Session, Send, log, get_artifact, store_artifact, send_message, report_progress, uuid,
}
use hivekernel.Queen.{
  Complexity, simple, complex, architect, HistoryEntry, Queen, QueenState, Reply, max_history,
}
use hivekernel.Queen.Words.{from_history, heuristic}
use hivekernel.Queen.Strategies.{handle_simple, handle_complex, handle_architect}

-- What the queen does not implement. `complexity_field` reads the entry `complexity` of a JSON text,
-- `anomalies_field` the list of anomalies of a health report, and `request_fields` the task and the
-- trace id of a message; each raises where `json.loads` or the access does. An answer to an empty task is
-- `{"error": ...}`, one to a task that raised is `{"error": ..., "exit_code": 1}`.
pub record QueenEnv (W : Type 0) : Type 0 where
  pub core : Core W
  pub ask : Text → W → Result Text × W
  pub complexity_field : Text → Result (Option Text)
  pub anomalies_field : Text → Result (List Text)
  pub request_fields : Text → Result (Text × Text)
  pub dump_result : Text → Complexity → Reply → Text
  pub dump_reply : Reply → Text
  pub dump_error_only : Text → Text
  pub dump_error : Text → Text

-- The fields of a task, and of a message, that the queen reads.
pub record QueenTask : Type 0 where
  pub description : Text
  pub params : Dict Text

pub record Incoming : Type 0 where
  pub type : Text
  pub from_pid : ℕ
  pub reply_to : Text
  pub payload : Text

pub record TaskResult : Type 0 where
  pub exit_code : ℕ
  pub output : Text
  pub artifacts : Dict Text
  pub metadata : Dict Text

pub data Ack : Type 0 where
  accepted queued : Ack

-- A deque of `max_history` entries: the oldest makes room.
unfoldable pub push_history : HistoryEntry → List HistoryEntry → List HistoryEntry
push_history e history = take_last max_history (history ++ e ∷ [])

complexity_text : Complexity → Text
unfolding text
complexity_text simple = text "simple"
complexity_text complex = text "complex"
complexity_text architect = text "architect"

-- One of the three names, or the default.
unfoldable pub complexity_of : Text → Complexity
unfolding text
complexity_of c =
    if text_eq c (text "simple")
    then simple
    else if text_eq c (text "architect")
    then architect
    else complex

-- `data.get("complexity", "complex")`, and the default after any exception.
unfoldable pub parsed_complexity : Result (Option Text) → Complexity
unfolding complexity_of
parsed_complexity (ok (some c)) = complexity_of c
parsed_complexity (ok none) = complex
parsed_complexity (raised e) = complex

safe_key : Text → Text
safe_key description = take 40 (map (λ c. if c == 32 then 45 else c) (lower description))

abbrev warning_of : Result (List Text) → Text
warning_of (ok anomalies) = join_with (text "; ") anomalies
warning_of (raised e) = []

module _ {W : Type 0} (env : QueenEnv W) where
  answered_complexity : Result Text → Complexity
  unfolding parsed_complexity
  answered_complexity (ok response) =
      parsed_complexity (env.complexity_field (strip_fences (strip response)))
  answered_complexity (raised e) = complex

  unfoldable pub assess_complexity_llm : Text → Exec (QueenState W) Complexity
  unfolding answered_complexity
  assess_complexity_llm description st =
      let (r, world) = env.ask description st.world in
      (ok (answered_complexity r), record st { world = world })

  heuristic_or_llm : Text → Option Complexity → Exec (QueenState W) Complexity
  heuristic_or_llm description (some c) st = (ok c, st)
  heuristic_or_llm description none st = assess_complexity_llm description st

  history_or_rest : Text → Option Complexity → Exec (QueenState W) Complexity
  unfolding heuristic_or_llm
  history_or_rest description (some c) st = (ok c, st)
  history_or_rest description none st = heuristic_or_llm description (heuristic description) st

  unfoldable pub assess_complexity : Text → Exec (QueenState W) Complexity
  unfolding history_or_rest
  assess_complexity description st =
      history_or_rest description (from_history description st.agent.task_history) st

  health_of : Result Text → Text
  health_of (ok content) = warning_of (env.anomalies_field content)
  health_of (raised e) = []

  unfoldable pub check_maid_health : Exec (QueenState W) Text
  unfolding health_of
  check_maid_health st =
      let (r, st') = get_artifact env.core (text "maid/health-report") st in (ok (health_of r), st')

  -- `if health_warning: await self.core.log(...)`
  unfoldable pub warn_health : Text → Exec (QueenState W) (Unit {0})
  warn_health warning =
      if truthy warning
      then log env.core (text "warn") (text "Maid health: " ++ warning)
      else pure tt

  unfoldable pub dispatch : Complexity → Text → Text → Exec (QueenState W) Reply
  dispatch simple description trace_id = handle_simple env.core description trace_id
  dispatch architect description trace_id = handle_architect env.core description trace_id
  dispatch complex description trace_id = handle_complex env.core description trace_id

  unfoldable pub record_history : Text → Complexity → ℕ → Exec (QueenState W) (Unit {0})
  unfolding push_history
  record_history description complexity exit_code st =
      let entry : HistoryEntry = record {
        task = description;
        complexity = complexity;
        exit_code = exit_code;
        ts = env.core.time st.world;
      } in
      (
        ok tt,
        record st {
          agent = record st.agent { task_history = push_history entry st.agent.task_history };
        },
      )

  unfoldable pub store_result : Text → Complexity → Reply → Exec (QueenState W) (Unit {0})
  unfolding safe_key
  store_result description complexity result = suppress (
      store_artifact env.core (text "queen-result-" ++ safe_key description)
        (env.dump_result description complexity result))

  strategy_message : Complexity → Text
  strategy_message simple = text "Spawning task worker..."
  strategy_message architect = text "Spawning architect..."
  strategy_message complex = text "Acquiring orchestrator..."

  -- `params.get("trace_id", "") or str(uuid.uuid4())`
  choose_trace : Text → Exec (QueenState W) Text
  choose_trace given = if truthy given then pure given else uuid env.core

  -- The body of `handle_task` for a task that is not empty.
  unfoldable pub execute_described : Text → Text → Exec (QueenState W) TaskResult
  unfolding strategy_message complexity_text
  execute_described description trace_id = do
    report_progress env.core (text "Assessing task complexity...")
    log env.core (text "info") (text "Queen received task: " ++ take 100 description)
    warning ← check_maid_health
    warn_health warning
    complexity ← assess_complexity description
    log env.core (text "info") (text "Task complexity: " ++ complexity_text complexity)
    report_progress env.core (strategy_message complexity)
    result ← dispatch complexity description trace_id
    record_history description complexity result.exit_code
    report_progress env.core (text "Storing result...")
    store_result description complexity result
    log env.core (text "info")
        (text "Queen task done (exit=" ++ (show result.exit_code ++ text ")"))
    pure (record {
      exit_code = result.exit_code;
      output = result.output;
      artifacts = result.artifacts;
      metadata = result.metadata;
    })

  unfoldable pub handle_task : QueenTask → Exec (QueenState W) TaskResult
  unfolding choose_trace
  handle_task task st =
      let description = lookup_or (text "task") task.description task.params in
      let workers = lookup_or (text "max_workers") (text "3") task.params in
      let st' = record st { agent = record st.agent { max_workers = workers } } in
      (choose_trace (lookup_or (text "trace_id") [] task.params) >>= λ trace_id.
      if truthy (strip description)
      then execute_described description trace_id
      else pure (record {
        exit_code = 1;
        output = text "Empty task description";
        artifacts = [];
        metadata = [];
      }))
        st'

  -- The payload of the answer to a message with a task, built inside the `try` block.
  unfoldable pub run_request : Text → Text → Exec (QueenState W) Text
  run_request description trace_id = do
    warning ← check_maid_health
    warn_health warning
    complexity ← assess_complexity description
    result ← dispatch complexity description trace_id
    record_history description complexity result.exit_code
    store_result description complexity result
    pure (env.dump_reply result)

  unfoldable pub answer_request : Result (Text × Text) → Exec (QueenState W) Text
  unfolding choose_trace
  answer_request (raised e) st = (raised e, st)
  answer_request (ok (description, given)) st =
      (choose_trace given >>= λ trace_id.
      if truthy description
      then run_request description trace_id
      else pure (env.dump_error_only (text "empty task")))
        st

  -- The handler around the block: the text of an exception becomes the payload.
  unfoldable pub payload_of : Result Text → Text
  payload_of (ok payload) = payload
  payload_of (raised e) = env.dump_error e

  unfoldable pub send_reply : Incoming → Text → Exec (QueenState W) (Unit {0})
  send_reply message payload st =
      if message.from_pid == 0
      then (ok tt, st)
      else suppress
          (send_message env.core (record {
            to_pid = message.from_pid;
            type = text "task_response";
            payload = payload;
            reply_to = message.reply_to;
          }))
          st

  unfoldable pub process_message_task : Incoming → Exec (QueenState W) (Unit {0})
  unfolding answer_request payload_of send_reply
  process_message_task message st =
      let (r, st') = answer_request (env.request_fields message.payload) st in
      send_reply message (payload_of r) st'

-- `handle_message`: the task is queued as `process_message_task`, and the answer comes at once.
unfoldable pub handle_message : Incoming → Ack
handle_message message =
    if text_eq message.type (text "task_request") || text_eq message.type (text "cron_task")
    then queued
    else accepted
