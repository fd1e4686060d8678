-- ===== src/Queen/Strategies/Simple.antt =====
-- `_core_handle_simple` of queen.py: its reply, and what becomes of the worker that it spawns.
use hivekernel.Prelude.{ℕ, zero, suc, ◌≡◌, ◌⊎◌, refl, List, ◌∷◌, inl, inr}
use hivekernel.Prelude.Text.{Text, text}
use hivekernel.Exec.{Result, ok, raised, continue}
use hivekernel.Core.{
  Core, CoreCall, TaskOutput, spawned, spawn_failed, killed, executed, logged, spawn_child,
  kill_child, execute_task, log, spawn_note,
}
use hivekernel.Queen.{QueenState, Reply}
use hivekernel.Queen.Strategies.{
  handle_simple, run_worker, simple_outcome, simple_params, task_request, failure, worker_spawn,
}

-- The calls of `_core_handle_simple`, the newest first, and its reply: nothing was spawned, or the
-- worker that was spawned ran the task and was killed last, or it had the PID 0 of no process and the
-- task failed.
abbrev pub SimpleRun : Text → Text → List CoreCall → List CoreCall → Reply → Type 0
SimpleRun description trace_id before after reply =
    let request =
      λ (pid : ℕ). task_request pid description (simple_params description trace_id) 120 in
    let name = text "queen-task" in
    (((after ≡ logged (text "info") ∷ before)
        ⊎ (after ≡ spawn_failed name ∷ logged (text "info") ∷ before)
        ⊎ (after ≡ executed (request 0) ∷ spawned name 0 ∷ logged (text "info") ∷ before))
      × (reply.exit_code ≡ 1))
    ⊎ ((pid : ℕ) × (after
          ≡ killed pid ∷ executed (request pid) ∷ spawned name pid ∷ logged (text "info") ∷ before))

module _ {W : Type 0} (core : Core W) where
  -- The worker is killed, and killed last, unless it has the PID 0 and the task failed.
  simple_outcome_lem :
      (pid : ℕ) (r : Result TaskOutput) (st : QueenState W)
      → (reply : Reply) × ((simple_outcome core pid r st).0 ≡ ok reply)
        × ((simple_outcome core pid r st).1.agent ≡ st.agent)
        × (((simple_outcome core pid r st).1.calls ≡ killed pid ∷ st.calls)
            ⊎ ((pid ≡ 0)
                × ((simple_outcome core pid r st).1.calls ≡ st.calls)
                × (reply.exit_code ≡ 1)))
  unfolding simple_outcome kill_child failure
  simple_outcome_lem pid (ok result) st = (_, refl, refl, inl refl)
  simple_outcome_lem zero (raised e) st = (_, refl, refl, inr (refl, refl, refl))
  simple_outcome_lem (suc n) (raised e) st = (_, refl, refl, inl refl)

  -- What the calls are once those of the worker are appended.
  spawned_run :
      (description trace_id : Text) (pid : ℕ) (before middle after : List CoreCall) (reply : Reply)
      → middle ≡ spawned (text "queen-task") pid ∷ logged (text "info") ∷ before
      → let request = task_request pid description (simple_params description trace_id) 120 in
        ((after ≡ killed pid ∷ executed request ∷ middle)
          ⊎ ((pid ≡ 0) × (after ≡ executed request ∷ middle) × (reply.exit_code ≡ 1)))
        → SimpleRun description trace_id before after reply
  spawned_run description trace_id pid before middle after reply h (inl killed_last) = inr (pid, cc)
  spawned_run description trace_id pid before middle after reply h (inr (none, kept, failed)) =
      inl (inr (inr cc), failed)

  run_worker_lem :
      (description trace_id : Text) (r : Result ℕ) (st : QueenState W) (before : List CoreCall)
      → st.calls ≡ spawn_note (text "queen-task") r ∷ logged (text "info") ∷ before
      → (reply : Reply) × ((run_worker core description trace_id r st).0 ≡ ok reply)
        × ((run_worker core description trace_id r st).1.agent ≡ st.agent)
        × SimpleRun description trace_id before
            (run_worker core description trace_id r st).1.calls
            reply
  unfolding run_worker execute_task failure
  run_worker_lem description trace_id (raised e) st before h =
      (_, refl, refl, inl (inr (inl h), refl))
  run_worker_lem description trace_id (ok pid) st before h =
      let request = task_request pid description (simple_params description trace_id) 120 in
      let (r, st') = execute_task core request st in
      let (reply, returns, same, calls) = simple_outcome_lem pid r st' in
      (reply, returns, same, spawned_run description trace_id pid before st.calls _ reply h calls)

  spawn_worker_lem :
      (description trace_id : Text) (r : Result (Unit {0})) (st : QueenState W)
      (before : List CoreCall)
      → st.calls ≡ logged (text "info") ∷ before
      → let (worker, st') = continue r (λ _. spawn_child core worker_spawn) st in
        (reply : Reply) × ((run_worker core description trace_id worker st').0 ≡ ok reply)
        × ((run_worker core description trace_id worker st').1.agent ≡ st.agent)
        × SimpleRun description trace_id before
            (run_worker core description trace_id worker st').1.calls
            reply
  unfolding run_worker spawn_child worker_spawn failure
  spawn_worker_lem description trace_id (raised e) st before h = (_, refl, refl, inl (inl h, refl))
  spawn_worker_lem description trace_id (ok tt) st before h =
      let (r, st') = spawn_child core worker_spawn st in
      run_worker_lem description trace_id r st' before (cc)

  -- `_core_handle_simple` returns whatever the kernel answers and leaves the queen as she was. A worker
  -- that it spawns runs the task and is killed by the last call, after a failure too, unless its task
  -- raised and its PID is 0. There and where no worker was spawned the reply is a failure.
  pub handle_simple-SimpleRun :
      (description trace_id : Text) (st : QueenState W)
      → (reply : Reply) × ((handle_simple core description trace_id st).0 ≡ ok reply)
        × ((handle_simple core description trace_id st).1.agent ≡ st.agent)
        × SimpleRun description trace_id st.calls
            (handle_simple core description trace_id st).1.calls
            reply
  unfolding handle_simple log
  handle_simple-SimpleRun description trace_id st =
      let (r, st') = log core (text "info") (text "Simple strategy: spawning task worker") st in
      spawn_worker_lem description trace_id r st' st.calls refl
