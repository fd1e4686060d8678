-- ===== src/Dashboard/Witnesses.antt =====
-- Tests of app.py of the dashboard: a process is spawned and has a child, which is removed again.
use hivekernel.Prelude.{ℕ, ◌+◌, ◌≡◌, refl, some, [], ◌∷◌, arith}
use hivekernel.Prelude.Text.{Text, text}
use hivekernel.Exec.{Result, ok}
use hivekernel.Dashboard.Tables.{Table, find, put, pop}
use hivekernel.Dashboard.{
  Node, Event, Kind, spawned, removed, Dashboard, record_trace, spawn_node, remove_node,
}
use hivekernel.Dashboard.Apply.{Payload, no_json, apply_event, apply_kind}
use hivekernel.Dashboard.Children.{children, IsCounted, spawn_twice}
use hivekernel.Dashboard.Events.{IsSound, Tracked, empty, applied, Tracked-IsSound}

abbrev int : Text → Result ℕ
int s = ok 0

abbrev loads : Text → Payload
loads s = no_json

abbrev new : Dashboard
new = record {
  tree_cache = [];
  last_seq = 0;
  task_history = [];
  message_log = [];
  trace_log = [];
  llm_usage = [];
}

abbrev event : ℕ → ℕ → ℕ → Kind → Event
event seq pid ppid kind = record {
  seq = seq;
  timestamp_ms = 0;
  trace_id = [];
  trace_span = [];
  pid = pid;
  ppid = ppid;
  name = text "agent";
  kind = kind;
}

abbrev birth : Kind
birth = spawned (text "agent") (text "tactical") (text "mini") []

abbrev parent_there : Dashboard
parent_there = (apply_event int loads 0 (event 1 2 1 birth) new).1

abbrev child_there : Dashboard
child_there = (apply_event int loads 0 (event 2 3 2 birth) parent_there).1

abbrev child_gone : Dashboard
child_gone = (apply_event int loads 0 (event 3 3 2 removed) child_there).1

-- The child counts for the parent, the process 2.
test_children : (children 2 child_there.tree_cache ≡ 1) × (children 2 child_gone.tree_cache ≡ 0)
unfolding apply_event apply_kind record_trace spawn_node remove_node find put pop children
test_children = (refl, refl)

child_gone-Tracked : Tracked int loads child_gone
unfolding apply_event apply_kind record_trace spawn_node find put children
child_gone-Tracked =
    applied 0 (event 3 3 2 removed)
      (applied 0 (event 2 3 2 birth)
        (applied 0 (event 1 2 1 birth) (empty {st = new} refl refl refl refl)
          (refl, refl, λ (e : ◌≡◌ {A = ℕ} 1 2). omega arith))
        (refl, refl, λ (e : ◌≡◌ {A = ℕ} 2 3). omega arith))
      tt

Tracked-IsSound_example : IsSound child_gone
Tracked-IsSound_example = Tracked-IsSound int loads child_gone child_gone-Tracked

-- The process 2 and its child 3, once more with what the tree of the dashboard had of them.
abbrev node_of : (pid ppid child_count : ℕ) → Node
node_of pid ppid child_count = record {
  pid = pid;
  ppid = ppid;
  name = text "agent";
  role = text "agent";
  cognitive_tier = text "tactical";
  model = text "mini";
  state = text "idle";
  child_count = child_count;
}

abbrev family : Table Node
family = (2, node_of 2 1 1) ∷ (3, node_of 3 2 0) ∷ []

family-IsCounted : IsCounted family
unfolding find children
family-IsCounted = record { distinct = (refl, (refl, tt)); counts = λ p n e. ground (arith, e) }

spawn_twice_example :
    find 2 (spawn_node (node_of 3 2 0) family)
    ≡ some (node_of 2 1 (children 2 (spawn_node (node_of 3 2 0) family) + 1))
unfolding find
spawn_twice_example =
    spawn_twice (node_of 3 2 0) (node_of 3 2 0) (node_of 2 1 1) family family-IsCounted refl refl
      refl (λ (e : ◌≡◌ {A = ℕ} 2 3). omega arith)
