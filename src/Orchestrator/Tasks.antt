-- ===== src/Orchestrator/Tasks.antt =====
-- sdk/python/hivekernel_sdk/orchestrator.py: `handle_task` and `_decompose_and_group`. `asyncio.gather`
-- starts the groups together; here they run one after another, and the first exception ends the rest.
pub mod Spares
pub mod Pool
pub mod Workers
use hivekernel.Prelude.{
  ℕ, zero, suc, ◌+◌, ◌*◌, min, Bool, true, false, Option, none, some, List, [], ◌∷◌, ◌++◌, ◌==◌,
  ltb, length, map, keep, take, if◌then◌else◌,
}
use hivekernel.Prelude.Text.{Text, text, truthy, lower, join_with}
use hivekernel.Prelude.Dict.{Dict, lookup_or}
use hivekernel.Prelude.Decimal.{show}
use hivekernel.Exec.{Result, ok, raised, Exec, pure, modify, continue, ◌>>=◌, ◌>>◌}
use hivekernel.Core.{
  Core, Session, Spawn, TaskOutput, spawn_child, log, report_progress, store_artifact, uuid,
}
use hivekernel.Orchestrator.Groups.{Group, Decoded, parse_groups}
use hivekernel.Orchestrator.Execution.{
  Progress, SubtaskResult, Status, succeeded, failed, run_group, kill_safe,
}

-- What the orchestrator does not implement: the kernel, its model, with the count of the model's tokens,
-- `json`, and `int` of a text.
pub record OrchestratorEnv (W : Type 0) : Type 0 where
  pub core : Core W
  pub ask : Text → W → Result Text × W
  pub total_tokens : W → ℕ
  pub loads : Text → Decoded
  pub int : Text → Result ℕ
  pub decompose_prompt : Text → ℕ → Text
  pub dump_report : List Group → List SubtaskResult → Text → ℕ → ℕ → Text

pub record Task : Type 0 where
  pub description : Text
  pub params : Dict Text

abbrev pub max_workers_limit : ℕ
max_workers_limit = 5

abbrev pub count_subtasks : List Group → ℕ
count_subtasks [] = 0
count_subtasks (g ∷ gs) = length g.subtasks + count_subtasks gs

-- The groups with more than one subtask.
abbrev pub reused : List Group → ℕ
reused groups = length (keep (λ (g : Group). ltb 1 (length g.subtasks)) groups)

abbrev pub worker_spawn : ℕ → Spawn
worker_spawn i = record {
  name = text "worker-" ++ show i;
  role = text "worker";
  cognitive_tier = text "operational";
  model = text "mini";
  runtime_image = text "hivekernel_sdk.worker:WorkerAgent";
}

-- The line of a group in the log.
unfoldable pub group_line : Group → Text
group_line g =
    text "  Group '" ++ (g.name ++ (text "': " ++ (show (length g.subtasks) ++ text " subtask(s)")))

unfoldable pub finding : SubtaskResult → Text
finding r = text "### [" ++ (r.group ++ (text "] " ++ (r.subtask ++ (10 ∷ r.output))))

abbrev pub is_succeeded : SubtaskResult → Bool
is_succeeded r = elim r.status [ succeeded ↦ true | failed ↦ false ]

unfoldable pub findings_text : List SubtaskResult → Text
unfolding finding
findings_text results = join_with (10 ∷ 10 ∷ []) (map finding (keep is_succeeded results))

unfoldable pub synthesis_prompt : Text → Text → Text
synthesis_prompt description findings =
    text "You have completed subtasks for the following main task:\n\n**Task:** "
    ++ (description
        ++ (text "\n\nResults from each subtask:\n\n"
            ++ (findings
                ++ text
                    "\n\nSynthesize everything into a single cohesive, well-structured response. Include key points and a brief conclusion.")))

module _ {W : Type 0} (env : OrchestratorEnv W) where
  unfoldable pub ask : Text → Exec (Progress W) Text
  ask prompt st = let (r, world) = env.ask prompt st.world in (r, record st { world = world })

  unfoldable pub parse : Text → ℕ → Exec (Progress W) (List Group)
  parse raw max_workers st = (parse_groups env.loads raw max_workers, st)

  unfoldable pub decompose_and_group : Text → ℕ → Exec (Progress W) (List Group)
  unfolding ask parse
  decompose_and_group description max_workers =
      ask (env.decompose_prompt description max_workers) >>= λ raw. parse raw max_workers

  -- The plan of an architect, or the model's where the plan has no group.
  unfoldable pub plan_or_model : Text → ℕ → List Group → Exec (Progress W) (List Group)
  plan_or_model description max_workers [] = do
    log env.core (text "warn") (text "Failed to parse Architect plan, falling back to LLM")
    decompose_and_group description max_workers
  plan_or_model description max_workers (g ∷ gs) = do
    log env.core (text "info")
        (text "Using Architect plan (" ++ (show (length (g ∷ gs)) ++ text " groups)"))
    pure (g ∷ gs)

  unfoldable pub plan_groups : Text → Text → ℕ → Exec (Progress W) (List Group)
  unfolding plan_or_model
  plan_groups description plan max_workers =
      if truthy plan
      then (parse plan max_workers >>= λ groups. plan_or_model description max_workers groups)
      else decompose_and_group description max_workers

  unfoldable pub log_groups : List Group → Exec (Progress W) (Unit {0})
  log_groups [] = pure tt
  log_groups (g ∷ gs) = log env.core (text "info") (group_line g) >> log_groups gs

  -- The pool, one worker for each group; a worker that was spawned is logged.
  unfoldable pub spawn_workers : ℕ → List Group → Exec (Progress W) (List ℕ)
  spawn_workers i [] = pure []
  spawn_workers i (g ∷ gs) = do
    pid ← spawn_child env.core (worker_spawn i)
    log env.core (text "info") (
        text "Spawned worker-"
        ++ (show i
            ++ (text " as PID " ++ (show pid ++ (text " for group '" ++ (g.name ++ text "'"))))))
    pids ← spawn_workers (i + 1) gs
    pure (pid ∷ pids)

  -- `gather` over `zip(groups, worker_pids)`, with the results in the order of the groups.
  unfoldable pub run_groups :
      ℕ → Text → List Group → List ℕ → Exec (Progress W) (List SubtaskResult)
  run_groups total trace_id [] pids = pure []
  run_groups total trace_id (g ∷ gs) [] = pure []
  run_groups total trace_id (g ∷ gs) (pid ∷ pids) = do
    results ← run_group env.core total trace_id g pid
    rest ← run_groups total trace_id gs pids
    pure (results ++ rest)

  unfoldable pub kill_workers : List ℕ → Exec (Progress W) (Unit {0})
  kill_workers [] = pure tt
  kill_workers (pid ∷ pids) = kill_safe env.core pid >> kill_workers pids

  -- `sum(int(r.get("tokens", "0")) for r in all_results)`
  unfoldable pub sum_tokens : List SubtaskResult → Exec (Progress W) ℕ
  sum_tokens [] = pure 0
  sum_tokens (r ∷ rs) = (λ st. (env.int r.tokens, st)) >>= λ n. sum_tokens rs >>= λ m. pure (n + m)

  -- From the spawned pool to the stored report: the synthesis and the tokens of the workers.
  unfoldable pub synthesize : Text → List Group → List SubtaskResult → Exec (Progress W) (Text × ℕ)
  synthesize description groups results = do
    report_progress env.core (text "Synthesizing results...")
    report ← ask (synthesis_prompt description (findings_text results))
    report_progress env.core (text "Storing results...")
    tokens ← sum_tokens results
    pure (report, tokens)

  unfoldable pub store_report :
      Text → List Group → List SubtaskResult → Text × ℕ → Exec (Progress W) (Unit {0})
  store_report description groups results (report, tokens) st =
      store_artifact env.core
        (text "result-" ++ take 40 (map (λ c. if c == 32 then 45 else c) (lower description)))
        (env.dump_report groups results report (env.total_tokens st.world) tokens) st

  unfoldable pub work : Text → Text → List Group → List ℕ → Exec (Progress W) (Text × ℕ)
  unfolding synthesize store_report
  work description trace_id groups pids = do
    report_progress env.core (text "Delegating subtasks...")
    modify (λ st. record st { agent = 0 })
    results ← run_groups (count_subtasks groups) trace_id groups pids
    synthesis ← synthesize description groups results
    store_report description groups results synthesis
    pure synthesis

  unfoldable pub output_of : List Group → Text × ℕ → Progress W → TaskOutput
  output_of groups (report, tokens) st = record {
    exit_code = 0;
    output = report;
    artifacts = (text "total_tokens", show (env.total_tokens st.world + tokens)) ∷ [];
    metadata =
        (text "subtasks_count", show (count_subtasks groups))
        ∷ (text "groups_count", show (length groups))
        ∷ (text "workers_reused", show (reused groups))
        ∷ [];
  }

  unfoldable pub done_line : List Group → ℕ → Progress W → Text
  done_line groups tokens st =
      text "Orchestrator done. "
      ++ (show (length groups)
          ++ (text " groups, "
              ++ (show (count_subtasks groups)
                  ++ (text " subtasks, "
                      ++ (show (reused groups)
                          ++ (text " workers reused, "
                              ++ (show (env.total_tokens st.world + tokens)
                                  ++ text " tokens total")))))))

  -- The workers are killed, and the end is logged.
  unfoldable pub finish : List Group → List ℕ → Text × ℕ → Exec (Progress W) TaskOutput
  unfolding output_of done_line
  finish groups pids synthesis = do
    kill_workers pids
    (λ st. log env.core (text "info") (done_line groups synthesis.1 st) st)
    (λ st. (ok (output_of groups synthesis st), st))

  unfoldable pub announce : List Group → Exec (Progress W) (Unit {0})
  announce groups = do
    log env.core (text "info") (
        text "Decomposed into "
        ++ (show (length groups)
            ++ (text " groups (" ++ (show (count_subtasks groups) ++ text " subtasks)"))))
    log_groups groups
    report_progress env.core (text "Spawning " ++ (show (length groups) ++ text " workers..."))

  -- The rest of `handle_task` once there are groups.
  unfoldable pub run_pool : Text → Text → List Group → Exec (Progress W) TaskOutput
  unfolding announce work finish
  run_pool description trace_id [] = pure (record {
    exit_code = 1;
    output = text "Failed to decompose task into subtasks";
    artifacts = [];
    metadata = [];
  })
  run_pool description trace_id (g ∷ gs) = do
    announce (g ∷ gs)
    pids ← spawn_workers 1 (g ∷ gs)
    synthesis ← work description trace_id (g ∷ gs) pids
    finish (g ∷ gs) pids synthesis

  unfoldable pub choose_trace : Text → Exec (Progress W) Text
  choose_trace given = if truthy given then pure given else uuid env.core

  unfoldable pub plan_task : Task → Text → ℕ → Exec (Progress W) (List Group)
  plan_task task description max_workers = do
    log env.core (text "info") (text "Orchestrator starting: " ++ take 80 description)
    report_progress env.core (text "Analyzing task...")
    plan_groups description (lookup_or (text "plan") [] task.params) max_workers

  unfoldable pub handle_task : Task → Exec (Progress W) TaskOutput
  unfolding choose_trace plan_task
  handle_task task =
      let description = lookup_or (text "task") task.description task.params in
      (λ st. (env.int (lookup_or (text "max_workers") (text "3") task.params), st)) >>= λ n.
      choose_trace (lookup_or (text "trace_id") [] task.params) >>= λ trace_id.
      plan_task task description (min n max_workers_limit) >>= λ groups.
      run_pool description trace_id groups
