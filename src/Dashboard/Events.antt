-- ===== src/Dashboard/Events.antt =====
-- The dashboard over any sequence of events: what its state keeps to.
use hivekernel.Prelude.{
  ℕ, ◌+◌, ◌-◌, ◌≤◌, ◌≡◌, ◌≢◌, refl, subst, sym, ◌&&◌, Bool-cases, inl, inr, Option, none, some,
  List, [], ◌∷◌, ◌++◌, length, length-drop, arith,
}
use hivekernel.Prelude.Text.{Text, text, text_eq, truthy}
use hivekernel.Prelude.Dict.{Dict, lookup, insert}
use hivekernel.Exec.{Result, ok, raised}
use hivekernel.Dashboard.Tables.{Table, find}
use hivekernel.Dashboard.{
  Node, Event, Kind, spawned, state_changed, removed, log, llm_call, tool_call, cron_executed,
  message_sent, message_delivered, Dashboard, TaskEntry, MessageEntry, trim, record_task,
  record_message, evict, trace_in, record_trace, new_node,
}
use hivekernel.Dashboard.Apply.{
  Payload, no_json, object, other, record_response, mark_newest, mark_delivered, count_call,
  after_tokens, answered, apply_kind, apply_event,
}
use hivekernel.Dashboard.Children.{
  children, IsCounted, spawn-IsCounted, remove_node-IsCounted, change_state-IsCounted,
}

-- The lists and the traces that are kept have their sizes.
pub record IsSound (st : Dashboard) : Type 0 where
  pub tree : IsCounted st.tree_cache
  pub tasks : length st.task_history ≤ 500
  pub messages : length st.message_log ≤ 500
  pub traces : length st.trace_log ≤ 100

-- A process that is spawned is new, has no children yet and is not its own parent.
abbrev pub IsOrderly : Kind → Event → Table Node → Type 0
IsOrderly (spawned role tier model state) event tree =
    (find event.pid tree ≡ none) × (children event.pid tree ≡ 0) × (event.ppid ≢ event.pid)
IsOrderly kind event tree = Unit

length-trim-le : {A : Type 0} (limit : ℕ) (xs : List A) → length (trim limit xs) ≤ limit
unfolding trim
length-trim-le limit xs = omega (arith, length-drop (length xs - limit) xs)

length-insert-le :
    (k : Text) (v : List Event) (d : Dict (List Event)) → length (insert k v d) ≤ length d + 1
unfolding insert
length-insert-le k v [] = omega arith
length-insert-le k v ((j, w) ∷ d) = ground (arith, length-insert-le k v d)

length-insert_found :
    (k : Text) (v w : List Event) (d : Dict (List Event))
    → lookup k d ≡ some w
    → length (insert k v d) ≡ length d
unfolding insert lookup
length-insert_found k v w [] h = cc
length-insert_found k v w ((j, u) ∷ d) h = ground (arith, length-insert_found k v w d)

length-evict-le : (d : Dict (List Event)) → length d ≤ 100 → length (evict d) ≤ 99
unfolding evict
length-evict-le [] h = ground arith
length-evict-le (e ∷ d) h = ground arith

length-trace_in-le :
    (found : Option (List Event)) (event : Event) (d : Dict (List Event))
    → lookup event.trace_id d ≡ found
    → length d ≤ 100
    → length (trace_in found event d) ≤ 100
unfolding trace_in
length-trace_in-le none event d e h =
    omega (arith, length-insert-le event.trace_id (event ∷ []) (evict d), length-evict-le d h)
length-trace_in-le (some es) event d e h =
    omega (arith, length-insert_found event.trace_id (es ++ event ∷ []) es d e)

length-mark_newest :
    (id : Text) (now : ℕ) (es : List MessageEntry) → length (mark_newest id now es).0 ≡ length es
unfolding mark_newest
length-mark_newest id now [] = refl
length-mark_newest id now (e ∷ es) = ground (arith, length-mark_newest id now es)

tree_cache-record_trace :
    (event : Event) (st : Dashboard) → (record_trace event st).tree_cache ≡ st.tree_cache
unfolding record_trace
tree_cache-record_trace event st = ground arith

record_trace-IsSound :
    (event : Event) (st : Dashboard) → IsSound st → IsSound (record_trace event st)
unfolding record_trace
record_trace-IsSound event st h = elim (Bool-cases (truthy event.trace_id)) [
  | inl traced ↦ rw traced (record {
    tree = h.tree;
    tasks = h.tasks;
    messages = h.messages;
    traces =
        length-trace_in-le (lookup event.trace_id st.trace_log) event st.trace_log refl h.traces;
  })
  | inr untraced ↦ rw untraced h
]

record_task-IsSound :
    (entry : TaskEntry) (st : Dashboard) → IsSound st → IsSound (record_task entry st)
unfolding record_task
record_task-IsSound entry st h = record {
  tree = h.tree;
  tasks = length-trim-le 500 (st.task_history ++ entry ∷ []);
  messages = h.messages;
  traces = h.traces;
}

record_message-IsSound :
    (entry : MessageEntry) (st : Dashboard) → IsSound st → IsSound (record_message entry st)
unfolding record_message
record_message-IsSound entry st h = record {
  tree = h.tree;
  tasks = h.tasks;
  messages = length-trim-le 500 (st.message_log ++ entry ∷ []);
  traces = h.traces;
}

record_response-IsSound :
    (loaded : Payload) (event : Event) (to_name payload : Text) (now : ℕ) (st : Dashboard)
    → IsSound st
    → IsSound (record_response loaded event to_name payload now st).1
unfolding record_response
record_response-IsSound no_json event to_name payload now st h = record_task-IsSound _ st h
record_response-IsSound (object output error) event to_name payload now st h =
    record_task-IsSound _ st h
record_response-IsSound other event to_name payload now st h = h

-- The tree changes, and nothing else.
tree-IsSound :
    (tree : Table Node) (st : Dashboard)
    → IsSound st
    → IsCounted tree
    → IsSound (record st { tree_cache = tree })
tree-IsSound tree st h counted = record {
  tree = counted;
  tasks = h.tasks;
  messages = h.messages;
  traces = h.traces;
}

module _ (int : Text → Result ℕ) (loads : Text → Payload) where
  after_tokens-IsSound :
      (now : ℕ) (r : Result ℕ) (event : Event) (fields : Dict Text) (st : Dashboard)
      → IsSound st
      → IsSound (after_tokens int loads now r event fields st).1
  unfolding after_tokens count_call
  after_tokens-IsSound now (ok n) event fields st h = record {
    tree = h.tree;
    tasks = h.tasks;
    messages = h.messages;
    traces = h.traces;
  }
  after_tokens-IsSound now (raised e) event fields st h = h

  answered-IsSound :
      (now : ℕ) (event : Event) (r : Result (Unit {0}) × Dashboard)
      → IsSound r.1
      → IsSound (answered int loads now event r).1
  unfolding answered
  answered-IsSound now event (ok u, st) h = h
  answered-IsSound now event (raised e, st) h = h

  apply_kind-IsSound :
      (now : ℕ) (kind : Kind) (event : Event) (st : Dashboard)
      → IsOrderly kind event st.tree_cache
      → IsSound st
      → IsSound (apply_kind int loads now kind event st).1
  unfolding apply_kind mark_delivered
  apply_kind-IsSound now (spawned role tier model state) event st (fresh, childless, parent) h =
      tree-IsSound _ st h (
        spawn-IsCounted (new_node event role tier model state) st.tree_cache fresh childless parent
          refl h.tree)
  apply_kind-IsSound now (state_changed old new) event st o h =
      tree-IsSound _ st h (change_state-IsCounted event.pid new st.tree_cache h.tree)
  apply_kind-IsSound now removed event st o h =
      tree-IsSound _ st h (remove_node-IsCounted event.pid st.tree_cache h.tree)
  apply_kind-IsSound now (log level msg fields) event st o h = h
  apply_kind-IsSound now (llm_call level msg fields) event st o h =
      after_tokens-IsSound now _ event fields st h
  apply_kind-IsSound now (tool_call level msg fields) event st o h = h
  apply_kind-IsSound now (cron_executed level msg fields) event st o h = h
  apply_kind-IsSound now (message_delivered id) event st o h = record {
    tree = h.tree;
    tasks = h.tasks;
    messages = omega (arith, length-mark_newest id now st.message_log, h.messages);
    traces = h.traces;
  }
  apply_kind-IsSound now (message_sent to_name type reply_to payload id) event st o h =
      elim (Bool-cases (text_eq type (text "task_response") && truthy payload)) [
        | inl response ↦ rw response (
            answered-IsSound now event _ (
              record_response-IsSound (loads payload) event to_name payload now _
                (record_message-IsSound _ st h)))
        | inr others ↦ rw others (record_message-IsSound _ st h)
      ]

  -- The states of a dashboard that starts empty and applies the events of the kernel.
  pub data Tracked : Dashboard → Type 0 where
    empty :
        {st : Dashboard}
        → st.tree_cache ≡ []
        → st.task_history ≡ []
        → st.message_log ≡ []
        → st.trace_log ≡ []
        → Tracked st
    applied :
        {st : Dashboard} (now : ℕ) (event : Event)
        → Tracked st
        → IsOrderly event.kind event st.tree_cache
        → Tracked (apply_event int loads now event st).1

  empty-IsSound :
      (st : Dashboard)
      → st.tree_cache ≡ []
      → st.task_history ≡ []
      → st.message_log ≡ []
      → st.trace_log ≡ []
      → IsSound st
  unfolding find
  empty-IsSound st a b c d = record {
    tree = subst IsCounted (sym a) (record { distinct = tt; counts = λ p n e. cc });
    tasks = rw b (omega arith);
    messages = rw c (omega arith);
    traces = rw d (omega arith);
  }

  -- Whatever events a dashboard applies that started empty, where each process that is spawned is new, has no
  -- children yet and is not its own parent: the tree has each process once, and `child_count` of each node is the
  -- number of the nodes in the tree that it is the parent of; at most 500 tasks and 500 messages
  -- and 100 traces are kept.
  pub Tracked-IsSound : (st : Dashboard) → Tracked st → IsSound st
  unfolding apply_event
  Tracked-IsSound st (empty a b c d) = empty-IsSound st a b c d
  Tracked-IsSound st (applied {st = before} now event t o) =
      let mid = record before { last_seq = event.seq } in
      let h = Tracked-IsSound before t in
      apply_kind-IsSound now event.kind event (record_trace event mid)
        (subst (IsOrderly event.kind event) (sym (tree_cache-record_trace event mid)) o)
        (record_trace-IsSound event mid
          (record { tree = h.tree; tasks = h.tasks; messages = h.messages; traces = h.traces }))
