-- ===== src/PowerTools/Workers.antt =====
-- The workers that `OrchestrateTool` of power_tools.py spawns and kills.
use hivekernel.Prelude.{
  ℕ, zero, suc, ◌+◌, ◌≤◌, ◌≡◌, refl, ap, ◌∙◌, Option, none, some, List, [], ◌∷◌, map, take, length,
  arith,
}
use hivekernel.Prelude.Text.{Text, text}
use hivekernel.Prelude.Dict.{lookup, lookup_or}
use hivekernel.Exec.{Result, ok, raised}
use hivekernel.Core.{spawn_child, kill_child, execute_task, spawn_note}
use hivekernel.Tools.{Outcome}
use hivekernel.BuiltinTools.{Args, need}
use hivekernel.Orchestrator.Tasks.Spares.{spawned_pids, killed_pids}
use hivekernel.Orchestrator.Tasks.Pool.{backwards}
use hivekernel.PowerTools.{
  Decomposition, refused, subtasks, PowerEnv, Worker, Calls, ask, worker_spawn, subtask_request,
  decomposed, spawn_workers, after_spawn, run_subtasks, kill_workers, close, run_workers,
  synthesize, orchestrate_task, orchestrate_with, run_orchestrate,
}

abbrev pids : List Worker → List ℕ
pids = map (λ (w : Worker). w.0)

-- At most `n` workers were spawned, and all of them were killed, in the order of the spawns; nobody else
-- was.
abbrev pub IsCleaned : {W : Type 0} → ℕ → Calls W → Calls W → Type 0
IsCleaned n st end =
    (ps : List ℕ) × (spawned_pids end.calls ≡ backwards ps (spawned_pids st.calls))
    × (killed_pids end.calls ≡ backwards ps (killed_pids st.calls))
    × (length ps ≤ n)

length-take-le : {A : Type 0} (n : ℕ) (xs : List A) → length (take n xs) ≤ n
length-take-le zero xs = omega arith
length-take-le (suc n) [] = omega arith
length-take-le (suc n) (x ∷ xs) = omega (arith, length-take-le n xs)

module _ {W : Type 0} (env : PowerEnv W) where
  -- Where the loop of the spawns ends: the workers that it has are those that were spawned.
  abbrev HasSpawned : List Worker → ℕ → Calls W → Calls W → Type 0
  HasSpawned ws n st end =
      (spawned_pids end.calls ≡ backwards (pids ws) (spawned_pids st.calls))
      × (killed_pids end.calls ≡ killed_pids st.calls)
      × (length (pids ws) ≤ n)

  after_spawn_lem :
      (s name : Text) (n : ℕ) (r : Result ℕ) (rest : (List Worker × Result (Unit {0})) × Calls W)
      (st mid : Calls W)
      → mid.calls ≡ spawn_note name r ∷ st.calls
      → HasSpawned rest.0.0 n mid rest.1
      → HasSpawned (after_spawn env s r rest mid).0.0 (suc n) st (after_spawn env s r rest mid).1
  unfolding after_spawn
  after_spawn_lem s name n (ok pid) rest st mid e (a, b, c) = (
    a ∙ ap (λ l. backwards (pids rest.0.0) (spawned_pids l)) e,
    b ∙ ap killed_pids e,
    omega (arith, c),
  )
  after_spawn_lem s name n (raised x) rest st mid e h =
      (ap spawned_pids e, ap killed_pids e, omega arith)

  spawn_workers_lem :
      (i : ℕ) (ss : List Text) (st : Calls W)
      → HasSpawned (spawn_workers env i ss st).0.0 (length ss) st (spawn_workers env i ss st).1
  unfolding spawn_workers spawn_child
  spawn_workers_lem i [] st = (refl, refl, omega arith)
  spawn_workers_lem i (s ∷ ss) st =
      let (r, mid) = spawn_child env.core (worker_spawn i) st in
      after_spawn_lem s (worker_spawn i).name (length ss) r (spawn_workers env (i + 1) ss mid) st
        mid refl (spawn_workers_lem (i + 1) ss mid)

  run_subtasks_lem :
      (ws : List Worker) (st : Calls W)
      → (spawned_pids (run_subtasks env ws st).1.calls ≡ spawned_pids st.calls)
        × (killed_pids (run_subtasks env ws st).1.calls ≡ killed_pids st.calls)
  unfolding run_subtasks execute_task
  run_subtasks_lem [] st = (refl, refl)
  run_subtasks_lem (w ∷ ws) st =
      run_subtasks_lem ws (execute_task env.core (subtask_request w) st).1

  kill_workers_lem :
      (ws : List Worker) (st : Calls W)
      → (spawned_pids (kill_workers env ws st).calls ≡ spawned_pids st.calls)
        × (killed_pids (kill_workers env ws st).calls ≡ backwards (pids ws) (killed_pids st.calls))
  unfolding kill_workers kill_child
  kill_workers_lem [] st = (refl, refl)
  kill_workers_lem (w ∷ ws) st = kill_workers_lem ws (kill_child env.core w.0 st).1

  close-IsCleaned :
      (n : ℕ) (end : Result (Unit {0})) (ws : List Worker) (st mid : Calls W)
      → HasSpawned ws n st mid
      → IsCleaned n st (close env end ws mid).1
  unfolding close
  close-IsCleaned n (ok u) ws st mid (a, b, c) =
      let (outputs, ran) = run_subtasks env ws mid in
      let (s1, k1) = run_subtasks_lem ws mid in
      let (s2, k2) = kill_workers_lem ws ran in
      (pids ws, s2 ∙ (s1 ∙ a), k2 ∙ ap (backwards (pids ws)) (k1 ∙ b), c)
  close-IsCleaned n (raised e) ws st mid (a, b, c) =
      let (s2, k2) = kill_workers_lem ws mid in
      (pids ws, s2 ∙ a, k2 ∙ ap (backwards (pids ws)) b, c)

  run_workers-IsCleaned :
      (n : ℕ) (ss : List Text) (st : Calls W)
      → length ss ≤ n
      → IsCleaned n st (run_workers env ss st).1
  unfolding run_workers
  run_workers-IsCleaned n ss st few =
      let (a, b, c) = spawn_workers_lem 0 ss st in
      close-IsCleaned n (spawn_workers env 0 ss st).0.1 (spawn_workers env 0 ss st).0.0 st
        (spawn_workers env 0 ss st).1 (a, b, omega arith)

  synthesize-calls :
      (complete : (prompt : Text) → (max_tokens : ℕ) → W → Result Text × W) (task : Text)
      (r : Result (List Worker × List Text)) (st : Calls W)
      → (synthesize env complete task r st).1.calls ≡ st.calls
  unfolding synthesize
  synthesize-calls complete task (ok r) st = refl
  synthesize-calls complete task (raised e) st = refl

  orchestrate_task-IsCleaned :
      (complete : (prompt : Text) → (max_tokens : ℕ) → W → Result Text × W) (task : Text)
      (max_workers : ℕ) (d : Decomposition) (st : Calls W)
      → IsCleaned max_workers st (orchestrate_task env complete task max_workers d st).1
  unfolding orchestrate_task
  orchestrate_task-IsCleaned complete task max_workers (refused r) st =
      ([], refl, refl, omega arith)
  orchestrate_task-IsCleaned complete task max_workers (subtasks ss) st =
      let (r, mid) = run_workers env (take max_workers ss) st in
      let (ps, a, b, c) =
        run_workers-IsCleaned max_workers (take max_workers ss) st
          (length-take-le max_workers ss) in
      let same = synthesize-calls complete task r mid in
      (ps, ap spawned_pids same ∙ a, ap killed_pids same ∙ b, c)

  need-IsCleaned :
      {A : Type 0} (n : ℕ) (k : Text) (o : Option A) (f : A → Calls W → Outcome × Calls W)
      (st : Calls W)
      → ((a : A) → IsCleaned n st (f a st).1)
      → IsCleaned n st (need k o f st).1
  need-IsCleaned n k none f st h = ([], refl, refl, omega arith)
  need-IsCleaned n k (some a) f st h = h a

  orchestrate_with-IsCleaned :
      (model : Option ((prompt : Text) → (max_tokens : ℕ) → W → Result Text × W)) (args : Args)
      (st : Calls W)
      → IsCleaned
          (lookup_or (text "max_workers") 3 args.numbers)
          st
          (orchestrate_with env model args st).1
  unfolding orchestrate_with
  orchestrate_with-IsCleaned none args st = ([], refl, refl, omega arith)
  orchestrate_with-IsCleaned (some complete) args st =
      let max_workers = lookup_or (text "max_workers") 3 args.numbers in
      need-IsCleaned max_workers (text "task") (lookup (text "task") args.texts) _ st (λ task.
        let (r, mid) = ask env complete (env.decompose_prompt task max_workers) 1024 st in
        orchestrate_task-IsCleaned complete task max_workers (decomposed env.loads r) mid)

  -- However the tool `orchestrate` ends, with an answer, with an error or with an exception, it has spawned
  -- at most `max_workers` workers (3 where no number is given), and it has killed each of them, in the order
  -- in which they were spawned, and nobody else.
  pub run_orchestrate-IsCleaned :
      (args : Args) (st : Calls W)
      → IsCleaned (lookup_or (text "max_workers") 3 args.numbers) st (run_orchestrate env args st).1
  unfolding run_orchestrate
  run_orchestrate-IsCleaned args st = orchestrate_with-IsCleaned env.complete args st
