-- ===== src/Dashboard.antt =====
-- sdk/python/dashboard/app.py: the state that the dashboard keeps of the events of the kernel.
-- Latencies, which are floats, are left out, and so is what a node has of the user, the virtual machine and
-- the context. The clock is an argument, and so are `int` of a text and what `json.loads` makes of a payload.
pub mod Tables
pub mod Apply
pub mod Children
pub mod Events
pub mod Lookups
mod Witnesses
use hivekernel.Prelude.{
  ℕ, ◌+◌, ◌-◌, Bool, true, false, not, ◌&&◌, Option, none, some, List, [], ◌∷◌, ◌++◌, ◌==◌, ltb,
  leb, length, take, drop, if◌then◌else◌,
}
use hivekernel.Prelude.Text.{Text, text, text_eq, truthy}
use hivekernel.Prelude.Dict.{Dict, lookup, lookup_or, insert}
use hivekernel.Prelude.Decimal.{show}
use hivekernel.Exec.{Result, ok, raised}
use hivekernel.Dashboard.Tables.{Table, find, put, pop}

pub record Node : Type 0 where
  pub pid : ℕ
  pub ppid : ℕ
  pub name : Text
  pub role : Text
  pub cognitive_tier : Text
  pub model : Text
  pub state : Text
  pub child_count : ℕ

-- The `type` of a `ProcessEvent`, with the fields that go with it.
pub data Kind : Type 0 where
  spawned : (role tier model state : Text) → Kind
  state_changed : (old_state new_state : Text) → Kind
  removed : Kind
  log : (level message : Text) → Dict Text → Kind
  llm_call : (level message : Text) → Dict Text → Kind
  tool_call : (level message : Text) → Dict Text → Kind
  cron_executed : (level message : Text) → Dict Text → Kind
  message_sent : (to_name type reply_to payload_preview message_id : Text) → Kind
  message_delivered : (message_id : Text) → Kind

pub record Event : Type 0 where
  pub seq : ℕ
  pub timestamp_ms : ℕ
  pub trace_id : Text
  pub trace_span : Text
  pub pid : ℕ
  pub ppid : ℕ
  pub name : Text
  pub kind : Kind

pub record TaskEntry : Type 0 where
  pub pid : ℕ
  pub name : Text
  pub description : Text
  pub result : Text
  pub success : Bool
  pub error : Text
  pub duration_ms : ℕ
  pub timestamp : ℕ

pub record MessageEntry : Type 0 where
  pub event : Event
  pub to_name : Text
  pub type : Text
  pub reply_to : Text
  pub payload_preview : Text
  pub timestamp : ℕ
  pub message_id : Text
  pub delivered_at : Option ℕ

pub record Usage : Type 0 where
  pub tokens : ℕ
  pub calls : ℕ

pub record Dashboard : Type 0 where
  pub tree_cache : Table Node
  pub last_seq : ℕ
  pub task_history : List TaskEntry
  pub message_log : List MessageEntry
  pub trace_log : Dict (List Event)
  pub llm_usage : Table Usage

-- What goes to the clients of the socket.
pub data Delta : Type 0 where
  add : Node → Delta
  update : (pid : ℕ) → (state : Text) → Delta
  remove : (pid : ℕ) → Delta
  logged : (pid : ℕ) → (name level message : Text) → Dict Text → Delta
  message : Event → Delta
  delivered : (message_id : Text) → (to_pid from_pid : ℕ) → Delta

abbrev pub task_history_max : ℕ
task_history_max = 500

abbrev pub message_log_max : ℕ
message_log_max = 500

abbrev pub max_traces : ℕ
max_traces = 100

-- `while len(entries) > limit: entries.pop(0)`
unfoldable pub trim : {A : Type 0} → ℕ → List A → List A
trim limit entries = drop (length entries - limit) entries

unfoldable pub record_task : TaskEntry → Dashboard → Dashboard
unfolding trim
record_task entry st = record st {
  task_history = trim task_history_max (st.task_history ++ entry ∷ []);
}

-- `record_message`, with the two fields that its caller sets in the entry.
unfoldable pub record_message : MessageEntry → Dashboard → Dashboard
unfolding trim
record_message entry st = record st {
  message_log = trim message_log_max (st.message_log ++ entry ∷ []);
}

-- The oldest trace goes where there are as many as may be.
unfoldable pub evict : Dict (List Event) → Dict (List Event)
evict traces = if leb max_traces (length traces) then drop 1 traces else traces

trace_in : Option (List Event) → Event → Dict (List Event) → Dict (List Event)
unfolding evict
trace_in none event traces = insert event.trace_id (event ∷ []) (evict traces)
trace_in (some events) event traces = insert event.trace_id (events ++ event ∷ []) traces

unfoldable pub record_trace : Event → Dashboard → Dashboard
unfolding trace_in
record_trace event st =
    if truthy event.trace_id
    then record st { trace_log = trace_in (lookup event.trace_id st.trace_log) event st.trace_log }
    else st

abbrev pub or_text : Text → Text → Text
or_text s t = if truthy s then s else t

abbrev pub new_node : Event → (role tier model state : Text) → Node
new_node event role tier model state = record {
  pid = event.pid;
  ppid = event.ppid;
  name = event.name;
  role = role;
  cognitive_tier = tier;
  model = model;
  state = or_text state (text "idle");
  child_count = 0;
}

-- The count of a parent, if the parent is in the table.
recount : (ℕ → ℕ) → Option Node → ℕ → Table Node → Table Node
recount f none ppid tree = tree
recount f (some parent) ppid tree =
    put ppid (record parent { child_count = f parent.child_count }) tree

unfoldable pub spawn_node : Node → Table Node → Table Node
unfolding recount
spawn_node node tree =
    let tree' = put node.pid node tree in
    recount (λ n. n + 1) (find node.ppid tree') node.ppid tree'

remove_found : Option Node → ℕ → Table Node → Table Node
unfolding recount
remove_found none pid tree = tree
remove_found (some node) pid tree =
    let tree' = pop pid tree in recount (λ n. n - 1) (find node.ppid tree') node.ppid tree'

unfoldable pub remove_node : ℕ → Table Node → Table Node
unfolding remove_found
remove_node pid tree = remove_found (find pid tree) pid tree

set_state : Option Node → ℕ → Text → Table Node → Table Node
set_state none pid state tree = tree
set_state (some node) pid state tree = put pid (record node { state = state }) tree

unfoldable pub change_state : ℕ → Text → Table Node → Table Node
unfolding set_state
change_state pid state tree = set_state (find pid tree) pid state tree
