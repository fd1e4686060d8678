-- ===== src/Queen/Strategies/Complex.antt =====
-- `_core_handle_complex` of queen.py: what becomes of the lead that it takes.
use hivekernel.Prelude.{ℕ, ◌≡◌, refl, [], ◌∷◌, ◌++◌}
use hivekernel.Prelude.Text.{Text, text}
use hivekernel.Exec.{Result, ok, raised, continue}
use hivekernel.Core.{Core, TaskOutput, killed, kill_child, execute_task, log}
use hivekernel.Queen.{IdleLead, QueenState, Reply}
use hivekernel.Queen.Leads.{acquire_lead, release_lead}
use hivekernel.Queen.Leads.Pool.{IsOut, NoTwice, acquire_lead-IsOut, release_lead-NoTwice}
use hivekernel.Queen.Strategies.{
  handle_complex, run_lead, reply_of, complex_outcome, lead_params, task_request, failure,
}

-- What becomes of a lead by the result of its task. After a result the lead is at the end of the pool,
-- behind the leads that were there, and nothing was asked of the kernel; after an exception the lead
-- was killed, by one more call, the pool is as it was, and the reply is a failure.
abbrev pub LeadSettled :
    {W : Type 0} → ℕ → Result TaskOutput → Reply → QueenState W → QueenState W → Type 0
LeadSettled pid (ok result) reply before st =
    ((lead : IdleLead) × (lead.pid ≡ pid)
      × (st.agent.idle_leads ≡ before.agent.idle_leads ++ lead ∷ []))
    × (st.calls ≡ before.calls)
    × (reply.output ≡ result.output)
    × (reply.exit_code ≡ result.exit_code)
LeadSettled pid (raised e) reply before st =
    (st.agent.idle_leads ≡ before.agent.idle_leads)
    × (st.calls ≡ killed pid ∷ before.calls)
    × (reply.exit_code ≡ 1)

-- From the state with its log line sent and by the result of asking for a lead: the handler asks this
-- lead for the task and returns with it settled by what the task gave; or it raises what the request
-- for a lead raised, in the state that it left.
abbrev pub LeadRun :
    {W : Type 0}
    → Core W
    → Text
    → Text
    → Result ℕ
    → QueenState W
    → Result Reply
    → QueenState W
    → Type 0
LeadRun core description trace_id (ok pid) before r st =
    let params = lead_params description before.agent.max_workers trace_id in
    let (given, asked) = execute_task core (task_request pid description params 300) before in
    IsOut pid before.agent.idle_leads
    × (asked.agent ≡ before.agent)
    × ((reply : Reply) × (r ≡ ok reply) × LeadSettled pid given reply asked st)
LeadRun core description trace_id (raised e) before r st = (r ≡ raised e) × (st ≡ before)

-- The same for the whole handler, from the result of its log line.
abbrev pub ComplexRun :
    {W : Type 0}
    → Core W
    → Text
    → Text
    → Result (Unit {0})
    → QueenState W
    → Result Reply
    → QueenState W
    → Type 0
ComplexRun core description trace_id (ok u) before r st =
    let (lead, taken) = acquire_lead core before in
    LeadRun core description trace_id lead taken r st
ComplexRun core description trace_id (raised e) before r st = (r ≡ raised e) × (st ≡ before)

module _ {W : Type 0} (core : Core W) where
  settle_lead :
      (pid : ℕ) (r : Result TaskOutput) (st : QueenState W)
      → IsOut pid st.agent.idle_leads
      → NoTwice st.agent.idle_leads
      → let (answer, st') = complex_outcome core pid r st in
        NoTwice st'.agent.idle_leads
        × ((reply : Reply) × (answer ≡ ok reply) × LeadSettled pid r reply st st')
  unfolding complex_outcome failure kill_child release_lead reply_of
  settle_lead pid (ok result) st out distinct = (
    release_lead-NoTwice core pid st out distinct,
    (_, refl, ((_, refl, refl), refl, refl, refl)),
  )
  settle_lead pid (raised e) st out distinct = (distinct, (_, refl, (refl, refl, refl)))

  run_lead_lem :
      (description trace_id : Text) (r : Result ℕ) (st : QueenState W)
      → ((pid : ℕ) → r ≡ ok pid → IsOut pid st.agent.idle_leads)
      → NoTwice st.agent.idle_leads
      → let (answer, st') = continue r (run_lead core description trace_id) st in
        NoTwice st'.agent.idle_leads × LeadRun core description trace_id r st answer st'
  unfolding run_lead execute_task
  run_lead_lem description trace_id (ok pid) st out distinct =
      let params = lead_params description st.agent.max_workers trace_id in
      let (r, st') = execute_task core (task_request pid description params 300) st in
      let (kept, settled) = settle_lead pid r st' (out pid refl) distinct in
      (kept, (out pid refl, refl, settled))
  run_lead_lem description trace_id (raised e) st out distinct = (distinct, (refl, refl))

  complex_after_log :
      (description trace_id : Text) (r : Result (Unit {0})) (st : QueenState W)
      → NoTwice st.agent.idle_leads
      → let (answer, st') =
          continue r
            (λ _ s.
              let (l, s') = acquire_lead core s in
              continue l (run_lead core description trace_id) s')
            st in
        NoTwice st'.agent.idle_leads × ComplexRun core description trace_id r st answer st'
  complex_after_log description trace_id (raised e) st distinct = (distinct, (refl, refl))
  complex_after_log description trace_id (ok u) st distinct =
      let (r, st') = acquire_lead core st in
      let (_, out, kept) = acquire_lead-IsOut core st distinct in
      run_lead_lem description trace_id r st' out kept

  -- In a pool without repetitions the handler of complex tasks leaves none. Where its log line raises,
  -- or the request for a lead, it raises that and does no more. Otherwise it asks the lead that it was
  -- given, which is not in the pool, for the task, and returns: after a result of the task, with that
  -- lead at the end of the pool and the output and exit code of the result; after an exception, with
  -- that lead killed by the last call, the pool as it was, without it, and a failure as the reply.
  pub handle_complex-ComplexRun :
      (description trace_id : Text) (st : QueenState W)
      → NoTwice st.agent.idle_leads
      → let (noted, before) =
          log core (text "info") (text "Complex strategy: acquiring orchestrator lead") st in
        let (answer, st') = handle_complex core description trace_id st in
        NoTwice st'.agent.idle_leads × ComplexRun core description trace_id noted before answer st'
  unfolding handle_complex log
  handle_complex-ComplexRun description trace_id st distinct =
      let (r, st') =
        log core (text "info") (text "Complex strategy: acquiring orchestrator lead") st in
      complex_after_log description trace_id r st' distinct
