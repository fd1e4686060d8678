-- ===== src/Loop/Outcome.antt =====
-- What `AgentLoop.run` (loop.py) promises of its result, its exceptions and the memory it leaves.
use hivekernel.Prelude.{
  ℕ, zero, suc, ◌+◌, ◌≤◌, ◌≡◌, refl, Bool-cases, inl, inr, Option, none, some, arith, length,
  length-take_last, take_last, leb→le, leb,
}
use hivekernel.Prelude.Text.{Text}
use hivekernel.Memory.{needs_summarization}
use hivekernel.Llm.Accounting.{chat_calls}
use hivekernel.Tools.{ToolRegistry}
use hivekernel.Loop.{ToolWorld, Env, State, LoopResult}
use hivekernel.Loop.Run.{
  Turn, answered, called, stopped, Ending, finished, raised, returned, turn, after_turn, iterate,
  ask_summary, summarize, wrap_up, start, conclude, run,
}
use hivekernel.Loop.Calls.{LeavesCalls, count_tool_calls, count_llm_calls}
use hivekernel.Loop.Turns.{iterate-Tallied, Tallied}

module _ {Args W : Type 0} (env : Env Args W) (registry : ToolRegistry Args (ToolWorld W))
    (system_prompt model : Text) (quiet : LeavesCalls registry) where
  -- The loop has made at most the iterations that it was given.
  abbrev Within : (bound : ℕ) → Ending → Type 0
  Within bound (raised e) = Unit
  Within bound (finished c i n) = i ≤ bound

  after_turn-Within :
      (bound i n : ℕ) (next : Text → ℕ → State W → Ending × State W) (t : Turn) (st : State W)
      → i ≤ bound
      → ((c : Text) (m : ℕ) (s : State W) → Within bound (next c m s).0)
      → Within bound (after_turn env registry system_prompt model i n next t st).0
  unfolding after_turn
  after_turn-Within bound i n next (answered c) st h ih = h
  after_turn-Within bound i n next (called c m) st h ih = ih c (n + m) st
  after_turn-Within bound i n next (stopped e) st h ih = tt

  iterate-Within :
      (k i n bound : ℕ) (content : Option Text) (st : State W)
      → i + k ≤ bound
      → Within bound (iterate env registry system_prompt model k i n content st).0
  unfolding iterate
  iterate-Within zero i n bound none st h = tt
  iterate-Within zero i n bound (some c) st h = omega arith
  iterate-Within (suc k) i n bound content st h =
      let (t, st') = turn env registry system_prompt model (i + 1) st in
      after_turn-Within bound (i + 1) n
        (λ c total next. iterate env registry system_prompt model k (i + 1) total (some c) next) t
        st' (omega arith) (λ c m s. iterate-Within k (i + 1) m bound (some c) s (omega arith))

  ask_summary_calls :
      (st : State W)
      → (st.llm.llm_calls ≤ (ask_summary env registry system_prompt model st).1.llm_calls)
        × ((ask_summary env registry system_prompt model st).1.llm_calls ≤ st.llm.llm_calls + 1)
  unfolding ask_summary
  ask_summary_calls st = chat_calls env.exchange model system_prompt _ st.llm st.world

  -- Summarizing makes at most one counted call, and emits nothing. Whether the call succeeds or not,
  -- the last four messages are what is left.
  pub summarize_effect :
      (st : State W)
      → (st.llm.llm_calls ≤ (summarize env registry system_prompt model st).llm.llm_calls)
        × ((summarize env registry system_prompt model st).llm.llm_calls ≤ st.llm.llm_calls + 1)
        × ((summarize env registry system_prompt model st).events ≡ st.events)
        × ((summarize env registry system_prompt model st).memory.messages
            ≡ take_last 4 st.memory.messages)
  unfolding summarize
  summarize_effect st = elim (Bool-cases (leb (length st.memory.messages) 4)) [
    | inl few ↦
        let le = leb→le (length st.memory.messages) 4 few in
        rw few (omega arith, omega arith, refl, unfold take_last in ground arith)
    | inr many ↦ let (low, high) = ask_summary_calls st in rw many (low, high, refl, refl)
  ]

  wrap_up_effect :
      (st : State W)
      → (st.llm.llm_calls ≤ (wrap_up env registry system_prompt model st).llm.llm_calls)
        × ((wrap_up env registry system_prompt model st).llm.llm_calls ≤ st.llm.llm_calls + 1)
        × ((wrap_up env registry system_prompt model st).events ≡ st.events)
        × (length (wrap_up env registry system_prompt model st).memory.messages ≤ 10)
  unfolding wrap_up needs_summarization
  wrap_up_effect st = ground (arith, summarize_effect st, length-take_last 4 st.memory.messages)

  -- What a result says, of the client and the events that `run` began with.
  abbrev Counts : (bound : ℕ) → State W → LoopResult → State W → Type 0
  Counts bound st r final =
      (r.iterations ≤ bound)
      × (r.iterations ≤ r.llm_calls)
      × (r.llm_calls ≤ r.iterations + 1)
      × (count_llm_calls final.events ≡ count_llm_calls st.events + r.iterations)
      × (count_tool_calls final.events ≡ count_tool_calls st.events + r.tool_calls_total)
      × (length final.memory.messages ≤ 10)

  conclude-Counts :
      (bound : ℕ) (st0 : State W) (e : Ending) (st : State W) (r : LoopResult)
      → Within bound e
      → Tallied env registry system_prompt model quiet 0 0 st0 e st
      → (conclude env registry system_prompt model st0.llm e st).0 ≡ returned r
      → Counts bound st0 r (conclude env registry system_prompt model st0.llm e st).1
  unfolding conclude
  conclude-Counts bound st0 (finished c i n) st r within tally h = ground (arith, wrap_up_effect st)
  conclude-Counts bound st0 (raised e) st r within tally h = cc

  -- Where no tool of the registry makes a counted call of the model of its own, and `run` returns, it
  -- made at most `max_iterations` iterations. Each of them is one event and
  -- one counted call of the model, and a last call may have gone into the summary. The tool calls of
  -- the result are those that the events report. The memory that is left has at most ten messages.
  pub run_counts :
      (max_iterations : ℕ) (prompt : Text) (st : State W) (r : LoopResult)
      → (run env registry system_prompt model max_iterations prompt st).0 ≡ returned r
      → (r.iterations ≤ max_iterations)
        × (r.iterations ≤ r.llm_calls)
        × (r.llm_calls ≤ r.iterations + 1)
        × (count_llm_calls (run env registry system_prompt model max_iterations prompt st).1.events
            ≡ count_llm_calls st.events + r.iterations)
        × (count_tool_calls (run env registry system_prompt model max_iterations prompt st).1.events
            ≡ count_tool_calls st.events + r.tool_calls_total)
        × (length (run env registry system_prompt model max_iterations prompt st).1.memory.messages
            ≤ 10)
  unfolding run start
  run_counts max_iterations prompt st r h =
      let st0 = start env registry system_prompt model prompt st in
      let (e, st') = iterate env registry system_prompt model max_iterations 0 0 none st0 in
      conclude-Counts max_iterations st0 e st' r
        (iterate-Within max_iterations 0 0 max_iterations none st0 (omega arith))
        (iterate-Tallied env registry system_prompt model quiet max_iterations 0 0 none st0) h
