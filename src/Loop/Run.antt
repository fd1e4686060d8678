-- ===== src/Loop/Run.antt =====
-- sdk/python/hivekernel_sdk/loop.py: `AgentLoop.run` and `_summarize`. The `for` loop is a recursion
-- on the iterations left, its body is `turn`, and the inner `for retry in range(3)` is `attempt`.
use hivekernel.Prelude.{
  ℕ, zero, suc, ◌+◌, ◌-◌, Option, none, some, List, [], ◌∷◌, ◌++◌, ltb, leb, length, take,
  take_last, if◌then◌else◌,
}
use mathlib.Core.List.{reverse}
use hivekernel.Prelude.Text.{Text, text, text_eq, truthy}
use hivekernel.Memory.{
  ToolCall, Message, get_context_messages, estimate_total_tokens, needs_summarization,
  force_compress,
}
use hivekernel.Memory.Storage.{save}
use hivekernel.Llm.{
  LlmClient, Result, ok, runtime_error, other_error, ToolMessage, chat, chat_with_tools,
}
use hivekernel.Tools.{ToolRegistry, execute, to_openai_schema}
use hivekernel.Loop.{
  ToolWorld, World, Env, llm_failure, llm_call, tool_call, State, LoopError, runtime, other,
  unbound_local, LoopResult, preflight, overhead_tokens, emit, remember, system_of, behind_system,
}
use hivekernel.Loop.Overflow.{is_context_overflow}

-- What the three attempts at one call leave: the message with the context that it answers, or an
-- exception.
pub data Attempt : Type 0 where
  got : ToolMessage → List Message → Attempt
  failed : LoopError → Attempt

-- How an iteration ends: with the final text, with so many calls made, or with an exception.
pub data Turn : Type 0 where
  answered : Text → Turn
  called : Text → ℕ → Turn
  stopped : LoopError → Turn

-- How the loop ends.
pub data Ending : Type 0 where
  finished : (content : Text) (iterations tool_calls_total : ℕ) → Ending
  raised : LoopError → Ending

pub data RunResult : Type 0 where
  returned : LoopResult → RunResult
  exception : LoopError → RunResult

-- The last message of the user, or nothing.
pub first_user : List Message → Text
unfolding text
first_user [] = []
first_user (m ∷ ms) =
    let rest = first_user ms in if text_eq m.role (text "user") then m.content else rest

unfoldable pub content_of : Option Text → Text
content_of none = []
content_of (some c) = c

-- `final_content = content if content else "Max iterations reached"`
unfoldable pub exhausted_content : Text → Text
exhausted_content content = if truthy content then content else text "Max iterations reached"

-- The summary with a new part, capped at its last 4000 characters.
unfoldable pub merge_summary : Text → Text → Text
merge_summary existing summary =
    let combined = existing ++ (10 ∷ 10 ∷ summary) in
    if truthy existing
    then (if ltb 4000 (length combined) then take_last 4000 combined else combined)
    else summary

summary_lines : List Message → Text
summary_lines [] = []
summary_lines (m ∷ ms) =
    (if truthy m.content then m.role ++ (text ": " ++ (m.content ++ 10 ∷ [])) else [])
    ++ summary_lines ms

summary_prompt : List Message → Text
unfolding summary_lines
summary_prompt old =
    text "Summarize this conversation concisely, preserving key facts, decisions, and results:\n\n"
    ++ summary_lines old

module _ {Args W : Type 0} (env : Env Args W) (registry : ToolRegistry Args (ToolWorld W))
    (system_prompt model : Text) where
  -- One call of the model, with the client and the world that it leaves.
  abbrev pub call_model : List Message → State W → Result ToolMessage × State W
  call_model messages st =
      let (r, llm, world) =
        chat_with_tools env.exchange_tools model (system_of messages) (behind_system messages)
          (to_openai_schema registry) st.llm st.world in
      (r, record st { llm = llm; world = world })

  -- What follows a call: an overflow is tried again on the compressed memory.
  unfoldable pub after_call :
      (iteration : ℕ) (again : Text → State W → Attempt × State W)
      → Result ToolMessage
      → List Message
      → State W
      → Attempt × State W
  unfolding emit
  after_call iteration again (ok choice) messages st = (got choice messages, st)
  after_call iteration again (runtime_error e) messages st =
      let next = again e (record st { memory = force_compress st.memory }) in
      let reported = emit (llm_failure (text "LLM error: " ++ take 300 e) iteration) st in
      if is_context_overflow e then next else (failed (runtime e), reported)
  after_call iteration again (other_error e) messages st = (failed (other e), st)

  unfoldable pub attempt :
      (iteration retries : ℕ) (last_error : Text) (messages : List Message)
      → State W
      → Attempt × State W
  unfolding after_call
  attempt iteration zero last_error messages st =
      (failed (runtime (text "Context overflow after 3 retries: " ++ last_error)), st)
  attempt iteration (suc k) last_error messages st =
      let (r, st') = call_model messages st in
      after_call iteration
        (λ e compressed.
          attempt iteration k e (get_context_messages system_prompt compressed.memory) compressed)
        r messages st'

  -- One tool call: its arguments, its result, its event and its message. The tool gets the client
  -- too, and the loop goes on with what it leaves.
  unfoldable pub run_call : ToolCall → State W → State W
  unfolding emit remember
  run_call tc st =
      let args : Args = elim (env.parse_args tc.arguments) [ none ↦ env.no_args | some a ↦ a ] in
      let (result, (llm, world)) = execute tc.name args registry (st.llm, st.world) in
      remember (text "tool") result.content [] tc.id (
        emit
          (tool_call tc.name (take 200 (env.show_args args)) (take 200 result.content)
            result.is_error)
          (record st { llm = llm; world = world }))

  unfoldable pub run_calls : List ToolCall → State W → State W
  unfolding run_call
  run_calls [] st = st
  run_calls (tc ∷ tcs) st = run_calls tcs (run_call tc st)

  -- The message of the assistant, and the calls that it asks for.
  unfoldable pub respond : (content : Text) → List ToolCall → State W → Turn × State W
  unfolding remember
  respond content [] st = (answered content, remember (text "assistant") content [] [] st)
  respond content (tc ∷ tcs) st = (
    called content (length (tc ∷ tcs)),
    run_calls (tc ∷ tcs) (remember (text "assistant") content (tc ∷ tcs) [] st),
  )

  unfoldable pub finish_turn :
      (iteration : ℕ) → ToolMessage → List Message → State W → Turn × State W
  unfolding emit content_of first_user
  finish_turn iteration msg messages st =
      let content = content_of msg.content in
      let event =
        llm_call st.llm.last_call iteration (take 500 (first_user (reverse messages)))
          (take 500 content) in
      respond content msg.tool_calls (emit event st)

  -- An iteration, once its call has an answer or an exception.
  unfoldable pub after_attempt : (iteration : ℕ) → Attempt → State W → Turn × State W
  after_attempt iteration (failed e) st = (stopped e, st)
  after_attempt iteration (got msg messages) st = finish_turn iteration msg messages st

  unfoldable pub turn : (iteration : ℕ) → State W → Turn × State W
  unfolding after_attempt
  turn iteration st =
      let (a, st') = attempt iteration 3 [] (get_context_messages system_prompt st.memory) st in
      after_attempt iteration a st'

  -- The iterations that remain after a turn, if it asked for calls.
  unfoldable pub after_turn :
      (iterations calls : ℕ) (next : Text → ℕ → State W → Ending × State W)
      → Turn
      → State W
      → Ending × State W
  after_turn iterations calls next (answered c) st = (finished c iterations calls, st)
  after_turn iterations calls next (called c n) st = next c (calls + n) st
  after_turn iterations calls next (stopped e) st = (raised e, st)

  unfoldable pub iterate :
      (remaining iterations tool_calls_total : ℕ) (content : Option Text)
      → State W
      → Ending × State W
  unfolding after_turn
  iterate zero iterations calls none st = (raised unbound_local, st)
  iterate zero iterations calls (some content) st =
      (finished (exhausted_content content) iterations calls, st)
  iterate (suc k) iterations calls content st =
      let (t, st') = turn (iterations + 1) st in
      after_turn (iterations + 1) calls
        (λ c total next. iterate k (iterations + 1) total (some c) next) t st'

  summarized : Result Text → Text → Text
  unfolding merge_summary
  summarized (ok summary) existing = merge_summary existing summary
  summarized (runtime_error e) existing = existing
  summarized (other_error e) existing = existing

  user_message : Text → Message
  user_message content = record {
    role = text "user";
    content = content;
    tool_calls = [];
    tool_call_id = [];
  }

  -- The model's summary of all messages but the last four.
  unfoldable pub ask_summary : State W → Result Text × LlmClient × World W
  unfolding summary_prompt user_message
  ask_summary st =
      let old = take (length st.memory.messages - 4) st.memory.messages in
      chat env.exchange model system_prompt (user_message (summary_prompt old) ∷ []) st.llm st.world

  unfoldable pub summarize : State W → State W
  unfolding summarized
  summarize st =
      let (r, llm, world) = ask_summary st in
      if leb (length st.memory.messages) 4 then st else record st {
        memory = record st.memory {
          summary = summarized r st.memory.summary;
          messages = take_last 4 st.memory.messages;
        };
        llm = llm;
        world = world;
      }

  -- The end of `run`: summarize if needed, then save.
  unfoldable pub wrap_up : State W → State W
  wrap_up st =
      let st' = if needs_summarization env.calls_len 10 30000 st.memory then summarize st else st in
      record st' {
        world = record st'.world {
          artifacts = save env.dumps env.loads st'.memory st'.world.artifacts;
        };
      }

  unfoldable pub start : Text → State W → State W
  unfolding remember
  start prompt st =
      let st' = remember (text "user") prompt [] [] st in
      let overhead = overhead_tokens env.schema_len (to_openai_schema registry) system_prompt in
      record st' {
        memory =
            preflight env.calls_len overhead (suc (estimate_total_tokens env.calls_len st'.memory))
              st'.memory;
      }

  -- The counters of the result are those of the client, less what they were when `run` began.
  result_of :
      LlmClient → (content : Text) (iterations tool_calls_total : ℕ) → LlmClient → LoopResult
  result_of before content iterations calls after = record {
    content = content;
    iterations = iterations;
    tool_calls_total = calls;
    prompt_tokens = after.prompt_tokens - before.prompt_tokens;
    completion_tokens = after.completion_tokens - before.completion_tokens;
    total_tokens = after.total_tokens - before.total_tokens;
    llm_calls = after.llm_calls - before.llm_calls;
  }

  unfoldable pub conclude : (before : LlmClient) → Ending → State W → RunResult × State W
  unfolding result_of
  conclude before (finished content iterations calls) st =
      let final = wrap_up st in
      (returned (result_of before content iterations calls final.llm), final)
  conclude before (raised e) st = (exception e, st)

  unfoldable pub run : (max_iterations : ℕ) → Text → State W → RunResult × State W
  unfolding conclude
  run max_iterations prompt st =
      let (ending, st') = iterate max_iterations 0 0 none (start prompt st) in
      conclude st.llm ending st'
