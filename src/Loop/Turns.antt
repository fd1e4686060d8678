-- ===== src/Loop/Turns.antt =====
-- The bookkeeping of the loop (loop.py): what each attempt, turn and run of the loop adds to the
-- client's counter and to the events.
use hivekernel.Prelude.{
  ℕ, zero, suc, ◌+◌, ◌≤◌, ◌≡◌, refl, true, inl, inr, Option, none, some, List, [], ◌∷◌, arith, take,
  ◌∙◌, sym, ap,
}
use mathlib.Core.Bool.{false≢true}
use mathlib.Core.List.{reverse}
use hivekernel.Prelude.Text.{Text, text}
use hivekernel.Memory.{ToolCall, Message, get_context_messages, force_compress}
use hivekernel.Llm.{Result, ok, runtime_error, other_error, ToolMessage}
use hivekernel.Llm.Accounting.{chat_with_tools-ok_calls, chat_with_tools-error_calls}
use hivekernel.Tools.{ToolRegistry, to_openai_schema}
use hivekernel.Loop.{ToolWorld, Env, llm_call, State, emit, remember, system_of, behind_system}
use hivekernel.Loop.Overflow.{is_context_overflow, no_choices_is_no_overflow}
use hivekernel.Loop.Run.{
  Attempt, got, failed, Turn, answered, called, stopped, Ending, finished, raised, attempt,
  call_model, after_call, respond, first_user, content_of, after_attempt, after_turn, finish_turn,
  turn, iterate, run_calls,
}
use hivekernel.Loop.Calls.{
  count_tool_calls, count_llm_calls, count_tool_calls-append, count_llm_calls-append, LeavesCalls,
  Answers-llm_calls, run_calls-Answers,
}

module _ {Args W : Type 0} (env : Env Args W) (registry : ToolRegistry Args (ToolWorld W))
    (system_prompt model : Text) (quiet : LeavesCalls registry) where
  abbrev calls_of : State W → ℕ
  calls_of st = st.llm.llm_calls

  -- An overflow is not the error of an answer without choices, so it is not counted.
  overflow_calls :
      (messages : List Message) (st : State W) (e : Text)
      → (call_model env registry system_prompt model messages st).0 ≡ runtime_error e
      → is_context_overflow e ≡ true
      → calls_of (call_model env registry system_prompt model messages st).1 ≡ calls_of st
  overflow_calls messages st e h over =
      elim (chat_with_tools-error_calls env.exchange_tools model (system_of messages)
        (behind_system messages) (to_openai_schema registry) st.llm st.world e h) [
          | inl same ↦ same
          | inr none_given ↦ absurd (
              false≢true
                (sym no_choices_is_no_overflow ∙ (ap is_context_overflow (sym none_given) ∙ over)))
        ]

  -- From `st` to `st'` one counted call of the model was made, and no event was emitted.
  abbrev OneCall : State W → State W → Type 0
  OneCall st st' = (calls_of st' ≡ calls_of st + 1) × (st'.events ≡ st.events)

  after_call-got :
      (i : ℕ) (again : Text → State W → Attempt × State W) (r : Result ToolMessage)
      (messages : List Message) (st st' : State W) (msg : ToolMessage) (ms : List Message)
      → ((m : ToolMessage) → r ≡ ok m → calls_of st' ≡ calls_of st + 1)
      → ((e : Text)
          → r ≡ runtime_error e
          → is_context_overflow e ≡ true
          → calls_of st' ≡ calls_of st)
      → ((e : Text) (s : State W) → (again e s).0 ≡ got msg ms → OneCall s (again e s).1)
      → st'.events ≡ st.events
      → (after_call env registry system_prompt model i again r messages st').0 ≡ got msg ms
      → OneCall st (after_call env registry system_prompt model i again r messages st').1
  unfolding after_call
  after_call-got i again (ok m) messages st st' msg ms counted same ih events h =
      (counted m refl, events)
  after_call-got i again (runtime_error e) messages st st' msg ms counted same ih events h =
      ground (arith, same e refl, ih e (record st' { memory = force_compress st'.memory }))
  after_call-got i again (other_error e) messages st st' msg ms counted same ih events h = cc

  attempt-got :
      (i k : ℕ) (e : Text) (messages : List Message) (st : State W) (msg : ToolMessage)
      (ms : List Message)
      → (attempt env registry system_prompt model i k e messages st).0 ≡ got msg ms
      → OneCall st (attempt env registry system_prompt model i k e messages st).1
  unfolding attempt
  attempt-got i zero e messages st msg ms h = cc
  attempt-got i (suc k) e messages st msg ms h =
      let again = λ (e' : Text) (s : State W).
        attempt env registry system_prompt model i k e'
          (get_context_messages system_prompt s.memory) s in
      let (r, st') = call_model env registry system_prompt model messages st in
      after_call-got i again r messages st st' msg ms
        (chat_with_tools-ok_calls env.exchange_tools model (system_of messages)
          (behind_system messages) (to_openai_schema registry) st.llm st.world)
        (overflow_calls messages st)
        (λ e' s. attempt-got i k e' (get_context_messages system_prompt s.memory) s msg ms) refl h

  -- From `st` to `st'` one counted call and `n` tool calls were made, and each had its event.
  abbrev pub Used : (calls tools : ℕ) → State W → State W → Type 0
  Used calls tools st st' =
      (calls_of st' ≡ calls_of st + calls)
      × (count_llm_calls st'.events ≡ count_llm_calls st.events + calls)
      × (count_tool_calls st'.events ≡ count_tool_calls st.events + tools)

  abbrev pub tools_of : Turn → ℕ
  tools_of (answered c) = 0
  tools_of (called c n) = n
  tools_of (stopped e) = 0

  respond_events :
      (content : Text) (tcs : List ToolCall) (st : State W)
      → Used 0
          (tools_of (respond env registry system_prompt model content tcs st).0)
          st
          (respond env registry system_prompt model content tcs st).1
  unfolding respond
  respond_events content [] st = omega arith
  respond_events content (tc ∷ tcs) st =
      let st' = remember (text "assistant") content (tc ∷ tcs) [] st in
      let end = run_calls env registry system_prompt model (tc ∷ tcs) st' in
      let ((replies, _, answers), tools, models) =
        run_calls-Answers env registry system_prompt model (tc ∷ tcs) st' in
      let same =
        Answers-llm_calls env registry (tc ∷ tcs) (st'.llm, st'.world) replies (end.llm, end.world)
          quiet answers in
      (ground (arith, same), ground (arith, models), ground (arith, tools))

  finish_turn_events :
      (i : ℕ) (msg : ToolMessage) (ms : List Message) (st : State W)
      → (calls_of (finish_turn env registry system_prompt model i msg ms st).1 ≡ calls_of st)
        × (count_llm_calls (finish_turn env registry system_prompt model i msg ms st).1.events
            ≡ count_llm_calls st.events + 1)
        × (count_tool_calls (finish_turn env registry system_prompt model i msg ms st).1.events
            ≡ count_tool_calls st.events
              + tools_of (finish_turn env registry system_prompt model i msg ms st).0)
  unfolding finish_turn
  finish_turn_events i msg ms st =
      let event =
        llm_call st.llm.last_call i (take 500 (first_user (reverse ms)))
          (take 500 (content_of msg.content)) in
      let (same, models, tools) =
        respond_events (content_of msg.content) msg.tool_calls (emit event st) in
      let one = count_llm_calls-append st.events (event ∷ []) in
      let zero_tools = count_tool_calls-append st.events (event ∷ []) in
      (omega (arith, same), omega (arith, models, one), omega (arith, tools, zero_tools))

  abbrev pub IsStopped : Turn → Type 0
  IsStopped (stopped e) = Unit
  IsStopped (answered c) = ⊥
  IsStopped (called c n) = ⊥

  after_attempt-Used :
      (i : ℕ) (a : Attempt) (st st' : State W)
      → ((msg : ToolMessage) (ms : List Message) → a ≡ got msg ms → OneCall st st')
      → ¬ IsStopped (after_attempt env registry system_prompt model i a st').0
      → Used 1
          (tools_of (after_attempt env registry system_prompt model i a st').0)
          st
          (after_attempt env registry system_prompt model i a st').1
  unfolding after_attempt
  after_attempt-Used i (failed e) st st' one h = absurd (h tt)
  after_attempt-Used i (got msg ms) st st' one h =
      let (calls, events) = one msg ms refl in
      let (same, models, tools) = finish_turn_events i msg ms st' in
      (
        omega (arith, same, calls),
        omega (arith, models, ap count_llm_calls events),
        omega (arith, tools, ap count_tool_calls events),
      )

  turn-Used :
      (i : ℕ) (st : State W)
      → ¬ IsStopped (turn env registry system_prompt model i st).0
      → Used 1
          (tools_of (turn env registry system_prompt model i st).0)
          st
          (turn env registry system_prompt model i st).1
  unfolding turn
  turn-Used i st h =
      let messages = get_context_messages system_prompt st.memory in
      let (a, st') = attempt env registry system_prompt model i 3 [] messages st in
      after_attempt-Used i a st st' (attempt-got i 3 [] messages st) h

  -- How far the loop has come from `i` iterations and `n` tool calls, where it has a result.
  abbrev pub Tallied : (i n : ℕ) → State W → Ending → State W → Type 0
  Tallied i n st (raised e) st' = Unit
  Tallied i n st (finished c i' n') st' =
      (i ≤ i')
      × (calls_of st' + i ≡ calls_of st + i')
      × (count_llm_calls st'.events + i ≡ count_llm_calls st.events + i')
      × (count_tool_calls st'.events + n ≡ count_tool_calls st.events + n')

  Tallied-trans :
      (i n t : ℕ) (st mid : State W) (e : Ending) (last : State W)
      → Used 1 t st mid
      → Tallied (i + 1) (n + t) mid e last
      → Tallied i n st e last
  Tallied-trans i n t st mid (raised e) last used h = tt
  Tallied-trans i n t st mid (finished c i' n') last used h = omega arith

  after_turn-Tallied :
      (i n : ℕ) (next : Text → ℕ → State W → Ending × State W) (t : Turn) (st st' : State W)
      → (¬ IsStopped t → Used 1 (tools_of t) st st')
      → ((c : Text) (m : ℕ) (s : State W) → Tallied (i + 1) m s (next c m s).0 (next c m s).1)
      → Tallied i n st
          (after_turn env registry system_prompt model (i + 1) n next t st').0
          (after_turn env registry system_prompt model (i + 1) n next t st').1
  unfolding after_turn
  after_turn-Tallied i n next (answered c) st st' used ih =
      Tallied-trans i n 0 st st' (finished c (i + 1) n) st' (used (λ h. h)) (omega arith)
  after_turn-Tallied i n next (called c m) st st' used ih =
      Tallied-trans i n m st st' _ _ (used (λ h. h)) (ih c (n + m) st')
  after_turn-Tallied i n next (stopped e) st st' used ih = tt

  -- The loop counts its iterations as the client counts its calls, and its tool calls as the events
  -- report them.
  pub iterate-Tallied :
      (k i n : ℕ) (content : Option Text) (st : State W)
      → Tallied i n st
          (iterate env registry system_prompt model k i n content st).0
          (iterate env registry system_prompt model k i n content st).1
  unfolding iterate
  iterate-Tallied zero i n none st = tt
  iterate-Tallied zero i n (some c) st = omega arith
  iterate-Tallied (suc k) i n content st =
      let (t, st') = turn env registry system_prompt model (i + 1) st in
      after_turn-Tallied i n
        (λ c total next. iterate env registry system_prompt model k (i + 1) total (some c) next) t
        st st' (turn-Used (i + 1) st) (λ c m s. iterate-Tallied k (i + 1) m (some c) s)
