-- ===== src/Orchestrator/Execution/Answers.antt =====
-- `run_group` of orchestrator.py: one result for each subtask, in order, all from one worker.
use hivekernel.Prelude.{
  ℕ, ◌+◌, ◌≡◌, refl, ap, sym, ◌∙◌, List, [], ◌∷◌, ◌++◌, append-nil, append_assoc, length, arith,
}
use hivekernel.Prelude.Text.{Text}
use hivekernel.Exec.{Result, ok, raised}
use hivekernel.Core.{
  Core, CoreCall, TaskOutput, executed, ExecuteRequest, execute_task, log, report_progress,
}
use hivekernel.Orchestrator.Groups.{Group}
use hivekernel.Orchestrator.Execution.{
  SubtaskResult, Progress, subtask_request, entry_of, conclude_subtask, run_subtasks, run_group,
  report_failure, progress,
}

-- The requests among the calls, the newest first.
abbrev pub requests : List CoreCall → List ExecuteRequest
requests [] = []
requests (executed r ∷ calls) = r ∷ requests calls
requests (c ∷ calls) = requests calls

-- The results are those of the subtasks, in order, on the worker and in the group.
abbrev pub ResultsOf : Group → ℕ → List Text → List SubtaskResult → Type 0
ResultsOf g pid [] [] = Unit
ResultsOf g pid [] (r ∷ rs) = ⊥
ResultsOf g pid (s ∷ ss) [] = ⊥
ResultsOf g pid (s ∷ ss) (r ∷ rs) =
    (r.subtask ≡ s) × (r.worker_pid ≡ pid) × (r.group ≡ g.name) × ResultsOf g pid ss rs

-- The requests after the subtasks were sent one by one.
abbrev pub asked : Text → ℕ → List Text → List ExecuteRequest → List ExecuteRequest
asked trace_id pid [] earlier = earlier
asked trace_id pid (s ∷ ss) earlier =
    asked trace_id pid ss (subtask_request trace_id pid s ∷ earlier)

-- The kernel takes log lines and progress reports.
pub record Listens {W : Type 0} (core : Core W) : Type 0 where
  pub logs : (level message : Text) (w : W) → (core.log level message w).0 ≡ ok tt
  pub progresses : (message : Text) (w : W) → (core.report_progress message w).0 ≡ ok tt

entry_of_lem :
    (g : Group) (pid : ℕ) (s : Text) (r : Result TaskOutput)
    → ((entry_of g pid s r).subtask ≡ s)
      × ((entry_of g pid s r).worker_pid ≡ pid)
      × ((entry_of g pid s r).group ≡ g.name)
unfolding entry_of
entry_of_lem g pid s (ok wr) = (refl, refl, refl)
entry_of_lem g pid s (raised e) = (refl, refl, refl)

module _ {W : Type 0} (core : Core W) (listens : Listens core) where
  -- A subtask is done: it was counted, and nothing was executed since.
  abbrev Counted : Result (Unit {0}) → Progress W → Progress W → Type 0
  Counted r before after =
      (r ≡ ok tt)
      × (after.agent ≡ before.agent + 1)
      × (requests after.calls ≡ requests before.calls)

  conclude_subtask-Counted :
      (total pid : ℕ) (subtask : Text) (r : Result TaskOutput) (st : Progress W)
      → Counted
          (conclude_subtask core total pid subtask r st).0
          st
          (conclude_subtask core total pid subtask r st).1
  unfolding conclude_subtask report_failure progress log report_progress
  conclude_subtask-Counted total pid subtask (ok wr) st = (listens.progresses _ _, refl, refl)
  conclude_subtask-Counted total pid subtask (raised e) st =
      rw (listens.logs) (listens.progresses _ _, refl, refl)

  run_subtasks_lem :
      (total : ℕ) (trace_id : Text) (g : Group) (pid : ℕ) (results : List SubtaskResult)
      (more : List Text) (st : Progress W)
      → let (answer, end) = run_subtasks core total trace_id g pid results more st in
        ((rs : List SubtaskResult) × (answer ≡ ok (results ++ rs)) × ResultsOf g pid more rs)
        × (end.agent ≡ st.agent + length more)
        × (requests end.calls ≡ asked trace_id pid more (requests st.calls))
  unfolding run_subtasks execute_task
  run_subtasks_lem total trace_id g pid results [] st =
      (([], ap ok (sym (append-nil results)), tt), omega arith, refl)
  run_subtasks_lem total trace_id g pid results (s ∷ more) st =
      let (r, st') = execute_task core (subtask_request trace_id pid s) st in
      let (done, counted, quiet) = conclude_subtask-Counted total pid s r st' in
      let st'' = (conclude_subtask core total pid s r st').1 in
      let result = entry_of g pid s r in
      let (subtask, worker, group) = entry_of_lem g pid s r in
      let ((rs, answer, each), agent, calls) =
        run_subtasks_lem total trace_id g pid (results ++ result ∷ []) more st'' in
      rw done (
        (
          result ∷ rs,
          answer ∙ ap ok (append_assoc results (result ∷ []) rs),
          (subtask, worker, group, each),
        ),
        omega (arith, agent, counted),
        calls ∙ ap (asked trace_id pid more) quiet,
      )

  -- Where the kernel takes log lines and progress reports, a group always returns, also when tasks of
  -- its worker fail. There is one result for each subtask, in order, under the name of the group and
  -- with the PID of its worker; the worker was sent each subtask once, in order, and nothing else was
  -- executed; and the counter has grown by the number of subtasks.
  pub run_group-ResultsOf :
      (total : ℕ) (trace_id : Text) (g : Group) (pid : ℕ) (st : Progress W)
      → let (answer, end) = run_group core total trace_id g pid st in
        ((results : List SubtaskResult) × (answer ≡ ok results)
          × ResultsOf g pid g.subtasks results)
        × (end.agent ≡ st.agent + length g.subtasks)
        × (requests end.calls ≡ asked trace_id pid g.subtasks (requests st.calls))
  unfolding run_group
  run_group-ResultsOf total trace_id g pid st =
      run_subtasks_lem total trace_id g pid [] g.subtasks st
