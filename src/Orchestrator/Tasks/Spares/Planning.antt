-- ===== src/Orchestrator/Tasks/Spares/Planning.antt =====
-- `handle_task` of orchestrator.py: the planning spawns and kills no worker.
use hivekernel.Prelude.{ℕ, refl, List, [], ◌∷◌}
use hivekernel.Prelude.Text.{Text, text}
use hivekernel.Core.{log, report_progress, uuid}
use hivekernel.Orchestrator.Groups.{Group}
use hivekernel.Orchestrator.Execution.{Progress}
use hivekernel.Orchestrator.Tasks.{
  OrchestratorEnv, Task, ask, parse, decompose_and_group, plan_or_model, plan_groups, log_groups,
  announce, choose_trace, plan_task,
}
use hivekernel.Orchestrator.Tasks.Spares.{
  Spares, none_Spares, bind-Spares, log-Spares, report_progress-Spares, ask-Spares,
}

module _ {W : Type 0} (env : OrchestratorEnv W) where
  log_groups-Spares :
      (groups : List Group) (st : Progress W) → Spares st (log_groups env groups st).1
  unfolding log_groups
  log_groups-Spares [] st = none_Spares st
  log_groups-Spares (g ∷ gs) st =
      bind-Spares (log env.core (text "info") _) _ st (log-Spares env.core _ _ st)
        (λ _. log_groups-Spares gs)

  pub announce-Spares :
      (groups : List Group) (st : Progress W) → Spares st (announce env groups st).1
  unfolding announce
  announce-Spares groups st =
      bind-Spares (log env.core (text "info") _) _ st (log-Spares env.core _ _ st) (λ _ st1.
        bind-Spares (log_groups env groups) _ st1 (log_groups-Spares groups st1)
          (λ _. report_progress-Spares env.core _))

  decompose_and_group-Spares :
      (description : Text) (n : ℕ) (st : Progress W)
      → Spares st (decompose_and_group env description n st).1
  unfolding decompose_and_group parse
  decompose_and_group-Spares description n st =
      bind-Spares (ask env _) _ st (ask-Spares env _ st) (λ raw. none_Spares)

  plan_or_model-Spares :
      (description : Text) (n : ℕ) (groups : List Group) (st : Progress W)
      → Spares st (plan_or_model env description n groups st).1
  unfolding plan_or_model
  plan_or_model-Spares description n [] st =
      bind-Spares (log env.core (text "warn") _) _ st (log-Spares env.core _ _ st)
        (λ _. decompose_and_group-Spares description n)
  plan_or_model-Spares description n (g ∷ gs) st =
      bind-Spares (log env.core (text "info") _) _ st (log-Spares env.core _ _ st)
        (λ _. none_Spares)

  plan_groups-Spares :
      (description plan : Text) (n : ℕ) (st : Progress W)
      → Spares st (plan_groups env description plan n st).1
  unfolding plan_groups parse
  plan_groups-Spares description [] n st = decompose_and_group-Spares description n st
  plan_groups-Spares description (c ∷ cs) n st =
      bind-Spares (parse env (c ∷ cs) n) _ st (none_Spares st)
        (λ groups. plan_or_model-Spares description n groups)

  pub plan_task-Spares :
      (task : Task) (description : Text) (n : ℕ) (st : Progress W)
      → Spares st (plan_task env task description n st).1
  unfolding plan_task
  plan_task-Spares task description n st =
      bind-Spares (log env.core (text "info") _) _ st (log-Spares env.core _ _ st) (λ _ st1.
        bind-Spares (report_progress env.core _) _ st1 (report_progress-Spares env.core _ st1)
          (λ _. plan_groups-Spares description _ n))

  pub choose_trace-Spares :
      (given : Text) (st : Progress W) → Spares st (choose_trace env given st).1
  unfolding choose_trace uuid
  choose_trace-Spares [] st = record { spawns = refl; kills = refl }
  choose_trace-Spares (c ∷ cs) st = none_Spares st
