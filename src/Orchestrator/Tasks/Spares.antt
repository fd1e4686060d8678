-- ===== src/Orchestrator/Tasks/Spares.antt =====
-- `handle_task` of orchestrator.py: the statements that spawn and kill no worker.
pub mod Planning
use hivekernel.Prelude.{
  ℕ, ◌+◌, ◌≡◌, ◌⊎◌, inl, inr, refl, ap, sym, ◌∙◌, subst, Bool, true, false, Bool-cases, List, [],
  ◌∷◌, ◌++◌, append_assoc, length, min, arith, if◌then◌else◌,
}
use mathlib.Core.List.{reverse}
use hivekernel.Prelude.Text.{Text, text, truthy}
use hivekernel.Exec.{Result, ok, raised, Exec, pure, continue, ◌>>=◌, ◌>>◌}
use hivekernel.Core.{
  Core, CoreCall, ExecuteRequest, spawned, killed, Session, Spawn, TaskOutput, spawn_child,
  kill_child, execute_task, log, report_progress, store_artifact, uuid, spawn_note,
}
use hivekernel.Orchestrator.Groups.{Group, Decoded, parse_groups}
use hivekernel.Orchestrator.Execution.{
  Progress, SubtaskResult, run_group, run_subtasks, conclude_subtask, report_failure, progress,
  subtask_request, entry_of, kill_safe,
}
use hivekernel.Orchestrator.Tasks.{
  OrchestratorEnv, Task, count_subtasks, max_workers_limit, worker_spawn, ask, parse,
  decompose_and_group, plan_or_model, plan_groups, log_groups, spawn_workers, run_groups,
  kill_workers, sum_tokens, synthesize, store_report, work, output_of, done_line, finish, announce,
  run_pool, choose_trace, plan_task, handle_task,
}

-- The PIDs that were spawned, and those that were killed, the last first.
abbrev pub spawned_pids : List CoreCall → List ℕ
spawned_pids [] = []
spawned_pids (spawned name pid ∷ calls) = pid ∷ spawned_pids calls
spawned_pids (c ∷ calls) = spawned_pids calls

abbrev pub killed_pids : List CoreCall → List ℕ
killed_pids [] = []
killed_pids (killed pid ∷ calls) = pid ∷ killed_pids calls
killed_pids (c ∷ calls) = killed_pids calls

-- Between two states nobody was spawned and nobody was killed.
pub record Spares {W : Type 0} (st end : Progress W) : Type 0 where
  pub spawns : spawned_pids end.calls ≡ spawned_pids st.calls
  pub kills : killed_pids end.calls ≡ killed_pids st.calls

abbrev pub none_Spares : {W : Type 0} (st : Progress W) → Spares st st
none_Spares st = record { spawns = refl; kills = refl }

pub trans-Spares :
    {W : Type 0} {st mid end : Progress W} → Spares st mid → Spares mid end → Spares st end
trans-Spares a b = record { spawns = b.spawns ∙ a.spawns; kills = b.kills ∙ a.kills }

pub next-Spares :
    {W A B : Type 0} (st : Progress W) (r : Result A) (f : A → Exec (Progress W) B)
    (mid : Progress W)
    → Spares st mid
    → ((a : A) → Spares mid (f a mid).1)
    → Spares st (continue r f mid).1
next-Spares st (ok a) f mid kept rest = trans-Spares kept (rest a)
next-Spares st (raised e) f mid kept rest = kept

-- The same for statements.
pub bind-Spares :
    {W A B : Type 0} (m : Exec (Progress W) A) (f : A → Exec (Progress W) B) (st : Progress W)
    → Spares st (m st).1
    → ((a : A) (mid : Progress W) → Spares mid (f a mid).1)
    → Spares st ((m >>= f) st).1
bind-Spares m f st kept rest = let (r, mid) = m st in next-Spares st r f mid kept (λ a. rest a mid)

module _ {W : Type 0} (core : Core W) where
  pub log-Spares :
      (level message : Text) (st : Progress W) → Spares st (log core level message st).1
  unfolding log
  log-Spares level message st = record { spawns = refl; kills = refl }

  pub report_progress-Spares :
      (message : Text) (st : Progress W) → Spares st (report_progress core message st).1
  unfolding report_progress
  report_progress-Spares message st = record { spawns = refl; kills = refl }

  execute_task-Spares :
      (request : ExecuteRequest) (st : Progress W) → Spares st (execute_task core request st).1
  unfolding execute_task
  execute_task-Spares request st = record { spawns = refl; kills = refl }

  conclude_subtask-Spares :
      (total pid : ℕ) (subtask : Text) (r : Result TaskOutput) (st : Progress W)
      → Spares st (conclude_subtask core total pid subtask r st).1
  unfolding conclude_subtask report_failure progress report_progress
  conclude_subtask-Spares total pid subtask (ok wr) st = record { spawns = refl; kills = refl }
  conclude_subtask-Spares total pid subtask (raised e) st =
      bind-Spares (report_failure core pid (raised e)) _ st (log-Spares _ _ st)
        (λ _ mid. record { spawns = refl; kills = refl })

  run_subtasks-Spares :
      (total : ℕ) (trace_id : Text) (g : Group) (pid : ℕ) (results : List SubtaskResult)
      (more : List Text) (st : Progress W)
      → Spares st (run_subtasks core total trace_id g pid results more st).1
  unfolding run_subtasks
  run_subtasks-Spares total trace_id g pid results [] st = none_Spares st
  run_subtasks-Spares total trace_id g pid results (s ∷ more) st =
      let (r, mid) = execute_task core (subtask_request trace_id pid s) st in
      trans-Spares (execute_task-Spares _ st) (
        bind-Spares (conclude_subtask core total pid s r) _ mid
          (conclude_subtask-Spares total pid s r mid)
          (λ _. run_subtasks-Spares total trace_id g pid (results ++ entry_of g pid s r ∷ []) more))

module _ {W : Type 0} (env : OrchestratorEnv W) where
  run_groups-Spares :
      (total : ℕ) (trace_id : Text) (groups : List Group) (pids : List ℕ) (st : Progress W)
      → Spares st (run_groups env total trace_id groups pids st).1
  unfolding run_groups run_group
  run_groups-Spares total trace_id [] pids st = none_Spares st
  run_groups-Spares total trace_id (g ∷ gs) [] st = none_Spares st
  run_groups-Spares total trace_id (g ∷ gs) (pid ∷ pids) st =
      bind-Spares (run_group env.core total trace_id g pid) _ st
        (run_subtasks-Spares env.core total trace_id g pid [] g.subtasks st)
        (λ results mid.
          bind-Spares (run_groups env total trace_id gs pids) _ mid
            (run_groups-Spares total trace_id gs pids mid) (λ rest. none_Spares))

  sum_tokens-Spares :
      (results : List SubtaskResult) (st : Progress W) → Spares st (sum_tokens env results st).1
  unfolding sum_tokens
  sum_tokens-Spares [] st = none_Spares st
  sum_tokens-Spares (r ∷ rs) st =
      next-Spares st (env.int r.tokens) _ st (none_Spares st)
        (λ n. bind-Spares (sum_tokens env rs) _ st (sum_tokens-Spares rs st) (λ m. none_Spares))

  pub ask-Spares : (prompt : Text) (st : Progress W) → Spares st (ask env prompt st).1
  unfolding ask
  ask-Spares prompt st = record { spawns = refl; kills = refl }

  synthesize-Spares :
      (description : Text) (groups : List Group) (results : List SubtaskResult) (st : Progress W)
      → Spares st (synthesize env description groups results st).1
  unfolding synthesize
  synthesize-Spares description groups results st =
      bind-Spares (report_progress env.core _) _ st (report_progress-Spares env.core _ st) (λ _ st1.
        bind-Spares (ask env _) _ st1 (ask-Spares _ st1) (λ report st2.
          bind-Spares (report_progress env.core _) _ st2 (report_progress-Spares env.core _ st2)
            (λ _ st3.
              bind-Spares (sum_tokens env results) _ st3 (sum_tokens-Spares results st3)
                (λ tokens. none_Spares))))

  store_report-Spares :
      (description : Text) (groups : List Group) (results : List SubtaskResult)
      (synthesis : Text × ℕ) (st : Progress W)
      → Spares st (store_report env description groups results synthesis st).1
  unfolding store_report store_artifact
  store_report-Spares description groups results synthesis st = record {
    spawns = refl;
    kills = refl;
  }

  pub work-Spares :
      (description trace_id : Text) (groups : List Group) (pids : List ℕ) (st : Progress W)
      → Spares st (work env description trace_id groups pids st).1
  unfolding work
  work-Spares description trace_id groups pids st =
      bind-Spares (report_progress env.core _) _ st (report_progress-Spares env.core _ st) (λ _ st1.
        trans-Spares (record { spawns = refl; kills = refl })
          (bind-Spares (run_groups env (count_subtasks groups) trace_id groups pids) _ _
            (run_groups-Spares _ trace_id groups pids _)
            (λ results st2.
              bind-Spares (synthesize env description groups results) _ st2
                (synthesize-Spares description groups results st2)
                (λ synthesis st3.
                  bind-Spares (store_report env description groups results synthesis) _ st3
                    (store_report-Spares description groups results synthesis st3)
                    (λ _. none_Spares)))))
