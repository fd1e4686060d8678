-- ===== src/Dashboard/Lookups.antt =====
-- What app.py of the dashboard reads off the tree of processes, and the rebuilding of the tree from what the
-- kernel answers.
use hivekernel.Prelude.{ℕ, ◌&&◌, Option, none, some, List, [], ◌∷◌, ◌++◌, ◌==◌, if◌then◌else◌}
use hivekernel.Prelude.Text.{Text, text, text_eq, truthy, starts_with}
use hivekernel.Prelude.Dict.{Dict, insert}
use hivekernel.Exec.{Result, ok, raised}
use hivekernel.Dashboard.Tables.{Table, find, put}
use hivekernel.Dashboard.{
  Node, Kind, spawned, state_changed, removed, Event, Delta, logged, Dashboard,
}

unfoldable pub find_queen_pid : Table Node → Option ℕ
find_queen_pid [] = none
find_queen_pid ((pid, node) ∷ tree) =
    if node.ppid == 1 && text_eq node.role (text "daemon") && starts_with node.name (text "queen@")
    then some pid
    else find_queen_pid tree

unfoldable pub find_agent_pid : Text → Table Node → Option ℕ
find_agent_pid prefix [] = none
find_agent_pid prefix ((pid, node) ∷ tree) =
    if starts_with node.name prefix then some pid else find_agent_pid prefix tree

collect_pids : Table Node → Dict ℕ → Dict ℕ
collect_pids [] pids = pids
collect_pids ((pid, node) ∷ tree) pids = collect_pids tree (
    if text_eq node.role (text "daemon") && truthy node.name
    then insert node.name pid pids
    else pids)

unfoldable pub get_sibling_pids : Table Node → Dict ℕ
unfolding collect_pids
get_sibling_pids tree = collect_pids tree []

put_all : List Node → Table Node → Table Node
put_all [] tree = tree
put_all (n ∷ ns) tree = put_all ns (put n.pid n tree)

-- `full_resync` with what the two calls of the kernel answered, and whether it succeeded.
unfoldable pub full_resync : Result Node → Result (List Node) → Dashboard → Dashboard
unfolding put_all
full_resync (ok king) (ok nodes) st = record st {
  tree_cache = put_all nodes (put king.pid king []);
}
full_resync (ok king) (raised e) st = st
full_resync (raised e) nodes st = st

-- `make_lifecycle_log`, after the event has been applied.
unfoldable pub make_lifecycle_log : Kind → Event → Table Node → Option Delta
make_lifecycle_log (spawned role tier model state) event tree = some (
    logged event.pid event.name (text "info")
      (text "Process spawned (role=" ++ (role ++ (text ", model=" ++ (model ++ text ")")))) [])
make_lifecycle_log (state_changed old_state new_state) event tree = some (
    logged event.pid (elim (find event.pid tree) [ none ↦ [] | some node ↦ node.name ])
      (text "info") (text "State: " ++ (old_state ++ (text " -> " ++ new_state))) [])
make_lifecycle_log removed event tree =
    some (logged event.pid [] (text "info") (text "Process removed (reaped)") [])
make_lifecycle_log kind event tree = none
