-- ===== src/Orchestrator/Witnesses.antt =====
-- Tests of orchestrator.py, and its theorems at a plan of three groups for two workers.
use hivekernel.Prelude.{
  ℕ, ◌+◌, ◌==◌, if◌then◌else◌, ◌≤◌, ◌≡◌, ◌⊎◌, refl, none, Bool, true, false, List, [], ◌∷◌, length,
  keep,
}
use hivekernel.Prelude.Text.{Text, text, strip, split_on, starts_with}
use hivekernel.Prelude.Decimal.{show}
use hivekernel.Core.Samples.{quiet}
use hivekernel.Exec.{ok, raised}
use hivekernel.Core.{
  Core, spawn_child, kill_child, execute_task, log, report_progress, store_artifact,
}
use hivekernel.Orchestrator.Tasks.{
  OrchestratorEnv, Task, run_pool, handle_task, spawn_workers, log_groups, run_groups, ask,
  sum_tokens, kill_workers,
}
use hivekernel.Orchestrator.Tasks.Pool.{Ends}
use hivekernel.Orchestrator.Tasks.Spares.{spawned_pids, killed_pids}
use hivekernel.Orchestrator.Tasks.Workers.{handle_task-Ends}
use hivekernel.Orchestrator.Execution.{
  Progress, SubtaskResult, run_group, conclude_subtask, kill_safe,
}
use hivekernel.Orchestrator.Execution.Answers.{
  Listens, ResultsOf, requests, asked, run_group-ResultsOf,
}
use hivekernel.Orchestrator.Groups.{
  Group, entry, other, no_json, cap_groups, parse_groups, valid_groups,
}
use hivekernel.Orchestrator.Groups.Capping.{Capped, cap_groups-Capped}

abbrev group : Text → List Text → Group
group name subtasks = record { name = name; subtasks = subtasks }

abbrev three_groups : List Group
three_groups =
    group (text "research") (text "read" ∷ text "search" ∷ [])
    ∷ group (text "code") (text "write" ∷ [])
    ∷ group (text "tests") (text "run" ∷ text "read" ∷ [])
    ∷ []

test_cap :
    cap_groups three_groups 2
    ≡ ok (
        group (text "research") (text "read" ∷ text "search" ∷ text "run" ∷ text "read" ∷ [])
        ∷ group (text "code") (text "write" ∷ [])
        ∷ [])
unfolding cap_groups
test_cap = refl

-- A group whose subtasks are all blank stays, without subtasks.
test_blank :
    valid_groups 0 (other ∷ entry none (text " " ∷ []) ∷ entry none [] ∷ [])
    ≡ group (text "group-1") [] ∷ []
unfolding valid_groups keep strip text show
test_blank = refl

-- A numbered list that is no JSON.
test_lines :
    parse_groups (λ s. no_json) (text "1. read\n\n```\n2. \"write\"") 3
    ≡ ok (
        group (text "task-1") (text " read" ∷ [])
        ∷ group (text "task-2") (text " \"write" ∷ [])
        ∷ [])
unfolding parse_groups keep split_on strip text starts_with show
test_lines = refl

cap_groups-Capped_example :
    ((capped : List Group) × (cap_groups three_groups 2 ≡ ok capped) × Capped 2 three_groups capped)
    ⊎ ((◌≡◌ {A = ℕ} 2 0)
        × (1 ≤ length three_groups)
        × (cap_groups three_groups 2 ≡ raised (text "integer modulo by zero")))
cap_groups-Capped_example = cap_groups-Capped 2 three_groups

-- The world counts the tasks: the first fails.
abbrev core : Core ℕ
core = record quiet {
  execute_task = λ req w. (
    if w == 0
        then raised (text "timeout")
        else ok (record { exit_code = 0; output = text "done"; artifacts = []; metadata = [] }),
    w + 1,
  );
}

core-Listens : Listens core
core-Listens = record { logs = λ level message w. refl; progresses = λ message w. refl }

abbrev research : Group
research = group (text "research") (text "read" ∷ text "search" ∷ [])

abbrev begin : Progress ℕ
begin = record { agent = 0; world = 0; calls = [] }

run_group-ResultsOf_example :
    let (answer, end) = run_group core 2 (text "t") research 9 begin in
    ((results : List SubtaskResult) × (answer ≡ ok results)
      × ResultsOf research 9 (text "read" ∷ text "search" ∷ []) results)
    × (end.agent ≡ 0 + length (text "read" ∷ text "search" ∷ []))
    × (requests end.calls ≡ asked (text "t") 9 (text "read" ∷ text "search" ∷ []) [])
run_group-ResultsOf_example = run_group-ResultsOf core core-Listens 2 (text "t") research 9 begin

-- The world counts the workers; the model answers one subtask per line, and its second answer fails when
-- `broken` is set.
abbrev pool_env : Bool → OrchestratorEnv ℕ
pool_env broken = record {
  core = record quiet { spawn_child = λ request w. (ok (w + 7), w + 1) };
  ask = λ prompt w. (
    if w == 0
        then ok (text "1. read\n2. write")
        else if broken
        then raised (text "no credit")
        else ok (text "report"),
    w + 1,
  );
  total_tokens = λ w. w;
  loads = λ s. no_json;
  int = λ s. ok 2;
  decompose_prompt = λ description n. description;
  dump_report = λ groups results report total tokens. report;
}

abbrev pool_task : Task
pool_task = record { description = text "survey"; params = [] }

abbrev end_of : Bool → Progress ℕ
end_of broken =
    (run_pool (pool_env broken) (text "survey") [] (research ∷ research ∷ [])
      (record begin { world = 1 })).1

-- The workers 8 and 9 are killed after the report; when the synthesis raises, nobody kills them.
test_leak :
    (killed_pids (end_of false).calls ≡ 9 ∷ 8 ∷ [])
    × (spawned_pids (end_of true).calls ≡ 9 ∷ 8 ∷ [])
    × (killed_pids (end_of true).calls ≡ [])
unfolding run_pool spawn_workers spawn_child log log_groups report_progress run_groups run_group
    conclude_subtask execute_task ask sum_tokens store_artifact kill_workers kill_safe kill_child
test_leak = (refl, refl, refl)

handle_task-Ends_example : Ends [] [] (handle_task (pool_env true) pool_task begin)
handle_task-Ends_example = handle_task-Ends (pool_env true) pool_task begin
