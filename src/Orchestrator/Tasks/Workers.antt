-- ===== src/Orchestrator/Tasks/Workers.antt =====
-- `handle_task` of orchestrator.py: which of the workers that it spawns it kills.
use hivekernel.Prelude.{ℕ, ◌≡◌, inl, inr, refl, ap, ◌∙◌, List, [], ◌∷◌, min}
use hivekernel.Prelude.Text.{Text, text}
use hivekernel.Prelude.Dict.{lookup_or}
use hivekernel.Exec.{Result, ok, raised, Exec, continue}
use hivekernel.Core.{log}
use hivekernel.Orchestrator.Groups.{Group}
use hivekernel.Orchestrator.Execution.{Progress}
use hivekernel.Orchestrator.Tasks.{
  OrchestratorEnv, Task, max_workers_limit, spawn_workers, kill_workers, work, finish, announce,
  run_pool, choose_trace, plan_task, handle_task,
}
use hivekernel.Orchestrator.Tasks.Spares.{
  spawned_pids, killed_pids, none_Spares, next-Spares, log-Spares, work-Spares,
}
use hivekernel.Orchestrator.Tasks.Spares.Planning.{
  announce-Spares, plan_task-Spares, choose_trace-Spares,
}
use hivekernel.Orchestrator.Tasks.Pool.{
  backwards, Ends, Pool, bind-Ends, bind_lem, stop-Ends, spawn_workers-Pool, kill_workers_lem,
}

module _ {W : Type 0} (env : OrchestratorEnv W) where
  finish-Settled :
      (groups : List Group) (pids : List ℕ) (synthesis : Text × ℕ) (st : Progress W)
      → let end = (finish env groups pids synthesis st).1 in
        (spawned_pids end.calls ≡ spawned_pids st.calls)
        × (killed_pids end.calls ≡ backwards pids (killed_pids st.calls))
  unfolding finish
  finish-Settled groups pids synthesis st =
      let (r, mid) = kill_workers env pids st in
      let (spawns, kills) = kill_workers_lem env pids st in
      let kept = next-Spares mid r _ mid (none_Spares mid) (λ _.
        next-Spares mid (log env.core (text "info") _ mid).0 _ _ (log-Spares env.core _ _ mid)
          (λ _. none_Spares _)) in
      (kept.spawns ∙ spawns, kept.kills ∙ kills)

  continue-Ends :
      {B : Type 0} (s k : List ℕ) (r : Result (List ℕ)) (f : List ℕ → Exec (Progress W) B)
      (mid : Progress W)
      → Pool s k (r, mid)
      → ((pids : List ℕ)
          → spawned_pids mid.calls ≡ backwards pids s
          → killed_pids mid.calls ≡ k
          → Ends s k (f pids mid))
      → Ends s k (continue r f mid)
  continue-Ends s k (ok pids) f mid (spawns, kills) rest = rest pids spawns kills
  continue-Ends s k (raised e) f mid kills rest = inr (e, refl, kills)

  run_pool-Ends :
      (description trace_id : Text) (groups : List Group) (st : Progress W)
      → Ends
          (spawned_pids st.calls)
          (killed_pids st.calls)
          (run_pool env description trace_id groups st)
  unfolding run_pool
  run_pool-Ends description trace_id [] st = inl ([], refl, refl)
  run_pool-Ends description trace_id (g ∷ gs) st =
      bind-Ends (announce env (g ∷ gs)) _ st (announce-Spares env (g ∷ gs) st) (λ _ st1.
        let (r, mid) = spawn_workers env 1 (g ∷ gs) st1 in
        continue-Ends (spawned_pids st1.calls) (killed_pids st1.calls) r _ mid
          (spawn_workers-Pool env 1 (g ∷ gs) st1)
          (λ pids spawns kills.
            bind_lem (Ends (spawned_pids st1.calls) (killed_pids st1.calls)) (killed_pids st1.calls)
              (stop-Ends _ _) (work env description trace_id (g ∷ gs) pids) _ mid kills
              (work-Spares env description trace_id (g ∷ gs) pids mid)
              (λ synthesis st2 kept.
                let (a, b) = finish-Settled (g ∷ gs) pids synthesis st2 in
                inl (
                  pids,
                  a ∙ (kept.spawns ∙ spawns),
                  b ∙ ap (backwards pids) (kept.kills ∙ kills),
                ))))

  -- A run of handle_task that returns has killed each worker that it spawned, in the order in which they
  -- were spawned, and no other process. A run that an exception leaves has either done the same (the
  -- exception came after the pool was killed) or has killed nobody, so that the workers it had spawned
  -- are still running.
  pub handle_task-Ends :
      (task : Task) (st : Progress W)
      → Ends (spawned_pids st.calls) (killed_pids st.calls) (handle_task env task st)
  unfolding handle_task
  handle_task-Ends task st =
      let description = lookup_or (text "task") task.description task.params in
      bind-Ends (λ st. (env.int (lookup_or (text "max_workers") (text "3") task.params), st)) _ st
        (none_Spares st)
        (λ n st1.
          bind-Ends (choose_trace env _) _ st1 (choose_trace-Spares env _ st1) (λ trace_id st2.
            bind-Ends (plan_task env task description (min n max_workers_limit)) _ st2
              (plan_task-Spares env task description _ st2)
              (λ groups st3. run_pool-Ends description trace_id groups st3)))
