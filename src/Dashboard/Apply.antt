-- ===== src/Dashboard/Apply.antt =====
-- `apply_event` of app.py of the dashboard, with what it makes of replies, deliveries and calls of the model.
use hivekernel.Prelude.{
  ℕ, ◌+◌, Bool, true, false, not, ◌&&◌, Option, none, some, List, [], ◌∷◌, ◌++◌, take,
  if◌then◌else◌,
}
use hivekernel.Prelude.Text.{Text, text, text_eq, truthy}
use hivekernel.Prelude.Dict.{Dict, lookup_or}
use hivekernel.Prelude.Decimal.{show}
use hivekernel.Exec.{Result, ok, raised}
use hivekernel.Dashboard.Tables.{find, put}
use hivekernel.Dashboard.{
  Dashboard, Delta, Event, Kind, MessageEntry, Node, TaskEntry, Usage, add, change_state,
  cron_executed, delivered, llm_call, log, logged, message, message_delivered, message_sent,
  new_node, or_text, record_message, record_task, record_trace, remove, remove_node, removed,
  spawn_node, spawned, state_changed, tool_call, update,
}

-- What `json.loads` makes of a payload: no JSON, an object with or without an output and an error, which
-- are texts, or something that has no `get`.
pub data Payload : Type 0 where
  no_json : Payload
  object : (output error : Option Text) → Payload
  other : Payload

abbrev pub or_else : Option Text → Text → Text
or_else none s = s
or_else (some t) s = t

abbrev pub named_pid : Text → ℕ → Text
named_pid name pid = or_text name (text "PID " ++ show pid)

abbrev pub response_entry : Event → (to_name result error : Text) → (now : ℕ) → TaskEntry
response_entry event to_name result error now = record {
  pid = event.ppid;
  name = named_pid to_name event.ppid;
  description = text "Async result from " ++ named_pid event.name event.pid;
  result = take 4000 result;
  success = not (truthy error);
  error = error;
  duration_ms = 0;
  timestamp = now;
}

-- The record of a delegation whose result has arrived.
unfoldable pub record_response :
    Payload
    → Event
    → (to_name payload : Text) → (now : ℕ) → Dashboard
    → Result (Unit {0}) × Dashboard
unfolding record_task
record_response no_json event to_name payload now st =
    (ok tt, record_task (response_entry event to_name payload [] now) st)
record_response (object output error) event to_name payload now st = (
  ok tt,
  record_task
      (response_entry event to_name (or_else output (or_else error payload)) (or_else error []) now)
      st,
)
record_response other event to_name payload now st =
    (raised (text "object has no attribute 'get'"), st)

-- The loop from the newest entry on, up to the first with the id, and whether there was one.
unfoldable pub mark_newest :
    (message_id : Text) → (now : ℕ) → List MessageEntry → List MessageEntry × Bool
mark_newest id now [] = ([], false)
mark_newest id now (e ∷ es) =
    let (rest, found) = mark_newest id now es in
    if not found && text_eq e.message_id id && truthy id
    then (record e { delivered_at = some now } ∷ rest, true)
    else (e ∷ rest, found)

unfoldable pub mark_delivered : (message_id : Text) → (now : ℕ) → Dashboard → Dashboard
unfolding mark_newest
mark_delivered id now st = record st { message_log = (mark_newest id now st.message_log).0 }

unfoldable pub name_of : Option Node → Text → Text
name_of none name = name
name_of (some node) name = or_text name node.name

abbrev pub usage_of : Option Usage → Usage
usage_of none = record { tokens = 0; calls = 0 }
usage_of (some u) = u

unfoldable pub count_call : (pid tokens : ℕ) → Dashboard → Dashboard
count_call pid tokens st =
    let u = usage_of (find pid st.llm_usage) in
    record st {
      llm_usage = put pid (record { tokens = u.tokens + tokens; calls = u.calls + 1 }) st.llm_usage;
    }

-- A change of the tree, with what the clients are told: nothing where an unknown process changed.
abbrev pub told_state : Option Node → ℕ → Text → Option Delta
told_state none pid state = none
told_state (some node) pid state = some (update pid state)

module _ (int : Text → Result ℕ) (loads : Text → Payload) (now : ℕ) where
  unfoldable pub after_tokens :
      Result ℕ → Event → Dict Text → Dashboard → Result (Option Delta) × Dashboard
  unfolding count_call name_of
  after_tokens (raised e) event fields st = (raised e, st)
  after_tokens (ok tokens) event fields st = (
    ok (
        some (
          logged event.pid (name_of (find event.pid st.tree_cache) event.name) (text "info")
            (text "LLM call: "
              ++ (lookup_or (text "model") [] fields
                  ++ (text " (" ++ (show tokens ++ text " tokens)"))))
            fields)),
    count_call event.pid tokens st,
  )

  unfoldable pub answered :
      Event → Result (Unit {0}) × Dashboard → Result (Option Delta) × Dashboard
  answered event (ok u, st) = (ok (some (message event)), st)
  answered event (raised e, st) = (raised e, st)

  -- `apply_event` after the trace.
  unfoldable pub apply_kind : Kind → Event → Dashboard → Result (Option Delta) × Dashboard
  unfolding spawn_node change_state remove_node name_of after_tokens record_message record_response
      mark_delivered answered
  apply_kind (spawned role tier model state) event st =
      let node = new_node event role tier model state in
      (ok (some (add node)), record st { tree_cache = spawn_node node st.tree_cache })
  apply_kind (state_changed old_state new_state) event st = (
    ok (told_state (find event.pid st.tree_cache) event.pid new_state),
    record st { tree_cache = change_state event.pid new_state st.tree_cache },
  )
  apply_kind removed event st =
      (ok (some (remove event.pid)), record st { tree_cache = remove_node event.pid st.tree_cache })
  apply_kind (log level msg fields) event st = (
    ok (
        some
          (logged event.pid (name_of (find event.pid st.tree_cache) event.name) level msg fields)),
    st,
  )
  apply_kind (llm_call level msg fields) event st =
      after_tokens (int (lookup_or (text "total_tokens") (text "0") fields)) event fields st
  apply_kind (tool_call level msg fields) event st = (
    ok (
        some (
          logged event.pid (name_of (find event.pid st.tree_cache) event.name) (text "info")
            (text "Tool: "
              ++ (lookup_or (text "tool_name") [] fields
                  ++ (text " ("
                      ++ (lookup_or (text "duration_ms") (text "0") fields ++ text "ms)"))))
            fields)),
    st,
  )
  apply_kind (cron_executed level msg fields) event st = (
    ok (
        some (
          logged event.pid (name_of (find event.pid st.tree_cache) event.name)
            (or_text level (text "info"))
            (text "Cron '"
              ++ (lookup_or (text "cron_name") [] fields
                  ++ (text "' exit="
                      ++ (lookup_or (text "exit_code") (text "?") fields
                          ++ (text " ("
                              ++ (lookup_or (text "duration_ms") (text "0") fields
                                  ++ text "ms)"))))))
            fields)),
    st,
  )
  apply_kind (message_delivered id) event st =
      (ok (some (delivered id event.pid event.ppid)), mark_delivered id now st)
  apply_kind (message_sent to_name type reply_to payload id) event st =
      let st' =
        record_message
          (record {
            event = event;
            to_name = to_name;
            type = type;
            reply_to = reply_to;
            payload_preview = take 2000 payload;
            timestamp = now;
            message_id = id;
            delivered_at = none;
          })
          st in
      if text_eq type (text "task_response") && truthy payload
      then answered event (record_response (loads payload) event to_name payload now st')
      else (ok (some (message event)), st')

  unfoldable pub apply_event : Event → Dashboard → Result (Option Delta) × Dashboard
  unfolding apply_kind record_trace
  apply_event event st =
      apply_kind event.kind event (record_trace event (record st { last_seq = event.seq }))
