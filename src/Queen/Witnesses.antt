-- ===== src/Queen/Witnesses.antt =====
-- Tests of queen.py, and its theorems at a concrete kernel: PID 5 is running and all others are dead,
-- a spawn gives PID 9, and tasks of PID 4 fail.
use hivekernel.Prelude.{
  ℕ, ◌+◌, ◌≡◌, ◌⊎◌, refl, none, some, List, [], ◌∷◌, ◌==◌, keep, arith, if◌then◌else◌,
}
use hivekernel.Prelude.Text.{Text, text, words, lower, member}
use hivekernel.Core.Samples.{quiet}
use hivekernel.Exec.{ok, raised}
use hivekernel.Core.{log, get_process_info, Core, TaskOutput, ProcessInfo}
use hivekernel.Queen.{Complexity, complex, IdleLead, HistoryEntry, QueenState, Reply}
use hivekernel.Queen.Leads.{acquire_lead, reaper_pass, is_expired, is_alive}
use hivekernel.Queen.Leads.Pool.{IsOut, NoTwice, Acquired, acquire_lead-IsOut}
use hivekernel.Queen.Leads.Race.{
  Race, asleep, sweep, wake, resume, release_all, pop, Sweeps, wakes, goes_on, fresh, expired_after,
  sweep_exact, lead_lost,
}
use hivekernel.Queen.Strategies.{handle_simple, handle_complex, architect_outcome}
use hivekernel.Queen.Strategies.Simple.{SimpleRun, handle_simple-SimpleRun}
use hivekernel.Queen.Strategies.Complex.{ComplexRun, handle_complex-ComplexRun}
use hivekernel.Queen.Strategies.Architect.{PlanRun, architect_outcome-PlanRun}
use hivekernel.Queen.Words.{from_history, heuristic}
use hivekernel.Queen.Tasks.{dispatch, QueenEnv, Incoming, assess_complexity, assess_complexity_llm}
use hivekernel.Queen.Tasks.Assessment.{FromHistory, NotInHistory, assess_complexity_lem}
use hivekernel.Queen.Tasks.Reachable.{Reachable, started, ran, reaped, Reachable-NoTwice}

abbrev info_of : ℕ → ProcessInfo
info_of pid = record {
  pid = pid;
  ppid = 1;
  name = text "queen-lead";
  state = if pid == 5 then 1 else 4;
  role = 4;
  tokens_consumed = 0;
}

abbrev done : TaskOutput
done = record { exit_code = 0; output = text "done"; artifacts = []; metadata = [] }

-- The world is the clock.
abbrev core : Core ℕ
core = record quiet {
  get_process_info = λ pid w. (ok (info_of pid), w);
  execute_task = λ req w. (if req.target_pid == 4 then raised (text "timeout") else ok done, w + 1);
}

abbrev idle : ℕ → ℕ → IdleLead
idle pid since = record { pid = pid; idle_since = since }

abbrev three_leads : List IdleLead
three_leads = idle 3 100 ∷ idle 5 650 ∷ idle 6 700 ∷ []

abbrev translated : HistoryEntry
translated = record {
  task = text "translate the manual into french";
  complexity = complex;
  exit_code = 0;
  ts = 10;
}

abbrev state : QueenState ℕ
state = record {
  agent = record {
    idle_leads = three_leads;
    task_history = translated ∷ [];
    max_workers = text "3";
  };
  world = 900;
  calls = [];
}

three_leads-NoTwice : NoTwice three_leads
three_leads-NoTwice = (
  ((λ e. ground (arith, e)), ((λ e. ground (arith, e)), tt)),
  (((λ e. ground (arith, e)), tt), (tt, tt)),
)

-- PID 3 is dead, PID 5 is taken, and PID 6 stays.
test_acquire : (acquire_lead core state).1.agent.idle_leads ≡ idle 6 700 ∷ []
unfolding acquire_lead is_alive get_process_info
test_acquire = refl

acquire_lead-IsOut_example :
    Acquired core three_leads state (acquire_lead core state).0 (acquire_lead core state).1
    × ((pid : ℕ)
        → (acquire_lead core state).0 ≡ ok pid
        → IsOut pid (acquire_lead core state).1.agent.idle_leads)
    × NoTwice (acquire_lead core state).1.agent.idle_leads
acquire_lead-IsOut_example = acquire_lead-IsOut core state three_leads-NoTwice

handle_simple-SimpleRun_example :
    (reply : Reply) × ((handle_simple core (text "count to ten") (text "t") state).0 ≡ ok reply)
    × ((handle_simple core (text "count to ten") (text "t") state).1.agent ≡ state.agent)
    × SimpleRun
        (text "count to ten")
        (text "t")
        []
        (handle_simple core (text "count to ten") (text "t") state).1.calls
        reply
handle_simple-SimpleRun_example =
    handle_simple-SimpleRun core (text "count to ten") (text "t") state

handle_complex-ComplexRun_example :
    NoTwice (handle_complex core (text "plan it") [] state).1.agent.idle_leads
    × ComplexRun core
        (text "plan it")
        []
        (log core (text "info") (text "Complex strategy: acquiring orchestrator lead") state).0
        (log core (text "info") (text "Complex strategy: acquiring orchestrator lead") state).1
        (handle_complex core (text "plan it") [] state).0
        (handle_complex core (text "plan it") [] state).1
handle_complex-ComplexRun_example =
    handle_complex-ComplexRun core (text "plan it") [] state three_leads-NoTwice

-- The lead 7 fails, and so does the log: it is neither killed nor put back.
abbrev dead_log : Core ℕ
dead_log = record core { log = λ level message w. (raised (text "kernel gone"), w) }

seven-IsOut : IsOut 7 three_leads
seven-IsOut = ((λ e. ground (arith, e)), ((λ e. ground (arith, e)), ((λ e. ground (arith, e)), tt)))

test_leak :
    (architect_outcome dead_log 8 7 (raised (text "timeout")) state).0 ≡ raised (text "kernel gone")
unfolding architect_outcome log
test_leak = refl

architect_outcome-PlanRun_example :
    NoTwice (architect_outcome dead_log 8 7 (raised (text "timeout")) state).1.agent.idle_leads
    × PlanRun dead_log 7
        (raised (text "timeout"))
        state
        (architect_outcome dead_log 8 7 (raised (text "timeout")) state).0
        (architect_outcome dead_log 8 7 (raised (text "timeout")) state).1
architect_outcome-PlanRun_example =
    architect_outcome-PlanRun dead_log 8 7 (raised (text "timeout")) state seven-IsOut
      three_leads-NoTwice

abbrev env : QueenEnv ℕ
env = record {
  core = core;
  ask = λ prompt w. (raised (text "no model"), w);
  complexity_field = λ s. ok none;
  anomalies_field = λ s. ok [];
  request_fields = λ s. ok (s, []);
  dump_result = λ description c r. r.output;
  dump_reply = λ r. r.output;
  dump_error_only = λ e. e;
  dump_error = λ e. e;
}

-- Four of the six words are shared, so the complexity of the task before is taken over, and the
-- keyword `translate` is not looked at.
test_history :
    (assess_complexity env (text "Translate the manual into german") state).0 ≡ ok complex
unfolding assess_complexity from_history words lower text member keep
test_history = refl

abbrev asked : Text
asked = text "Translate the manual into german"

assess_complexity_lem_example :
    ((c : Complexity) × FromHistory asked (translated ∷ []) c
      × (assess_complexity env asked state ≡ (ok c, state)))
    ⊎ (NotInHistory asked (translated ∷ [])
        × (((c : Complexity) × (heuristic asked ≡ some c)
              × (assess_complexity env asked state ≡ (ok c, state)))
            ⊎ ((heuristic asked ≡ none)
                × (assess_complexity env asked state ≡ assess_complexity_llm env asked state))))
assess_complexity_lem_example = assess_complexity_lem env asked state

abbrev request : Incoming
request = record {
  type = text "task_request";
  from_pid = 2;
  reply_to = text "req-1";
  payload = text "count to ten";
}

abbrev new : QueenState ℕ
new = record {
  agent = record { idle_leads = []; task_history = []; max_workers = text "3" };
  world = 900;
  calls = [];
}

-- A complex task, whose lead goes into the pool, a pass of the reaper and another task.
worked-Reachable :
    Reachable env
      (dispatch env complex
        (text "again")
        []
        (reaper_pass core (dispatch env complex (text "plan it") [] new).1)).1
worked-Reachable = ran _ _ _ _ (reaped _ (ran _ _ _ _ (started new refl)))

Reachable-NoTwice_example :
    NoTwice
      (dispatch env complex
        (text "again")
        []
        (reaper_pass core (dispatch env complex (text "plan it") [] new).1)).1.agent.idle_leads
Reachable-NoTwice_example = Reachable-NoTwice env _ worked-Reachable

-- At 1000 the lead 5 has expired, and 6 has not.
abbrev before_pass : Race
before_pass = record { leads = idle 5 0 ∷ idle 6 900 ∷ []; pass = asleep; kills = [] }

-- The lead 7 is released while 5 is killed.
abbrev after_pass : Race
after_pass = resume (release_all (idle 7 990 ∷ []) (wake 1000 before_pass))

after_pass-Sweeps : Sweeps 1000 before_pass (idle 5 0 ∷ idle 6 900 ∷ idle 7 990 ∷ []) after_pass
unfolding wake sweep is_expired
after_pass-Sweeps = goes_on 1 [] (idle 7 990 ∷ []) (wakes refl refl) refl

sweep_exact_example :
    (after_pass.leads ≡ fresh 1000 (idle 5 0 ∷ idle 6 900 ∷ idle 7 990 ∷ []))
    × (after_pass.kills ≡ expired_after 1000 [] (idle 5 0 ∷ idle 6 900 ∷ idle 7 990 ∷ []))
unfolding wake sweep is_expired release_all resume
sweep_exact_example =
    sweep_exact 1000 before_pass after_pass (idle 5 0 ∷ idle 6 900 ∷ idle 7 990 ∷ [])
      after_pass-Sweeps refl

lead_lost_example :
    resume (pop (wake 1000 before_pass)) ≡ record { leads = []; pass = asleep; kills = 5 ∷ [] }
unfolding is_expired
lead_lost_example = lead_lost 1000 (idle 5 0) (idle 6 900) [] [] refl refl tt
