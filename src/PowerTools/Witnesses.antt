-- ===== src/PowerTools/Witnesses.antt =====
-- Tests of power_tools.py: a task of two subtasks, the second of whose workers cannot be spawned.
use hivekernel.Prelude.{ℕ, ◌+◌, ◌==◌, ◌≡◌, refl, some, [], ◌∷◌, if◌then◌else◌}
use hivekernel.Prelude.Text.{text}
use hivekernel.Prelude.Dict.{lookup, lookup_or}
use hivekernel.Exec.{ok, raised}
use hivekernel.Core.{Core, spawn_child, kill_child}
use hivekernel.Core.Samples.{quiet}
use hivekernel.Tools.{raises}
use hivekernel.BuiltinTools.{Args}
use hivekernel.Orchestrator.Tasks.Spares.{killed_pids}
use hivekernel.PowerTools.{
  Calls, PowerEnv, items, decomposed, spawn_workers, run_workers, kill_workers, orchestrate_task,
  synthesize, run_orchestrate, find, rfind, bracketed, parsed_subtasks,
}
use hivekernel.PowerTools.Workers.{IsCleaned, run_orchestrate-IsCleaned}

-- The world is the number of the next PID, and there is no PID 9.
abbrev full : Core ℕ
full = record quiet {
  spawn_child = λ req w. (if w == 9 then raised (text "no more") else ok w, w + 1);
}

abbrev an_env : PowerEnv ℕ
an_env = record {
  core = full;
  complete = some (λ prompt n w. (ok (text "Here: [...]"), w + 1));
  loads = λ s. items (text "read" ∷ text "write" ∷ []);
  dumps = λ outputs. [];
  decompose_prompt = λ task n. task;
}

abbrev some_args : Args
some_args = record { texts = (text "task", text "survey") ∷ []; numbers = [] }

abbrev begin : Calls ℕ
begin = record { agent = tt; world = 7; calls = [] }

-- The model has taken a turn of the world, the first worker is 8, and the second spawn raises.
test_leak :
    ((run_orchestrate an_env some_args begin).0 ≡ raises (text "no more"))
    × (killed_pids (run_orchestrate an_env some_args begin).1.calls ≡ 8 ∷ [])
unfolding run_orchestrate orchestrate_task decomposed find rfind bracketed parsed_subtasks
    run_workers spawn_workers spawn_child kill_workers kill_child synthesize lookup lookup_or text
test_leak = (refl, refl)

run_orchestrate-IsCleaned_example : IsCleaned 3 begin (run_orchestrate an_env some_args begin).1
unfolding lookup lookup_or
run_orchestrate-IsCleaned_example = run_orchestrate-IsCleaned an_env some_args begin
