-- ===== src/Loop/Calls.antt =====
-- What the calls of one answer leave in the conversation and in the events (loop.py).
use hivekernel.Prelude.{
  ℕ, ◌+◌, ◌≡◌, refl, List, [], ◌∷◌, ◌++◌, arith, length, append_assoc, append-nil, ◌∙◌, sym, ap,
  subst, Option, none, some,
}
use hivekernel.Prelude.Text.{Text, text}
use hivekernel.Memory.{ToolCall, Message, add_message}
use hivekernel.Llm.{LlmClient}
use hivekernel.Tools.{ToolRegistry, execute}
use hivekernel.Loop.{ToolWorld, World, Env, Event, llm_failure, llm_call, tool_call, State}
use hivekernel.Loop.Run.{run_call, run_calls}

-- How many events of a kind there are.
abbrev pub count_tool_calls : List Event → ℕ
count_tool_calls [] = 0
count_tool_calls (tool_call n a r e ∷ es) = count_tool_calls es + 1
count_tool_calls (llm_call l i p r ∷ es) = count_tool_calls es
count_tool_calls (llm_failure m i ∷ es) = count_tool_calls es

abbrev pub count_llm_calls : List Event → ℕ
count_llm_calls [] = 0
count_llm_calls (llm_call l i p r ∷ es) = count_llm_calls es + 1
count_llm_calls (tool_call n a r e ∷ es) = count_llm_calls es
count_llm_calls (llm_failure m i ∷ es) = count_llm_calls es

pub count_tool_calls-append :
    (es fs : List Event) → count_tool_calls (es ++ fs) ≡ count_tool_calls es + count_tool_calls fs
count_tool_calls-append [] fs = omega arith
count_tool_calls-append (tool_call n a r e ∷ es) fs = omega (arith, count_tool_calls-append es fs)
count_tool_calls-append (llm_call l i p r ∷ es) fs = count_tool_calls-append es fs
count_tool_calls-append (llm_failure m i ∷ es) fs = count_tool_calls-append es fs

pub count_llm_calls-append :
    (es fs : List Event) → count_llm_calls (es ++ fs) ≡ count_llm_calls es + count_llm_calls fs
count_llm_calls-append [] fs = omega arith
count_llm_calls-append (llm_call l i p r ∷ es) fs = omega (arith, count_llm_calls-append es fs)
count_llm_calls-append (tool_call n a r e ∷ es) fs = count_llm_calls-append es fs
count_llm_calls-append (llm_failure m i ∷ es) fs = count_llm_calls-append es fs

-- No tool of the registry makes a counted call of the model.
abbrev pub LeavesCalls : {Args W : Type 0} → ToolRegistry Args (ToolWorld W) → Type 0
LeavesCalls {Args = Args} {W = W} registry =
    (name : Text) (args : Args) (llm : LlmClient) (w : World W)
    → (execute name args registry (llm, w)).1.0.llm_calls ≡ llm.llm_calls

abbrev pub or_no_args : {Args : Type 0} → Args → Option Args → Args
or_no_args no_args none = no_args
or_no_args no_args (some args) = args

module _ {Args W : Type 0} (env : Env Args W) (registry : ToolRegistry Args (ToolWorld W)) where
  -- The messages that answer the calls, one for each call, in its order, under its id and with what
  -- its tool returned, each tool run on what the tool before it left.
  abbrev pub Answers : List ToolCall → ToolWorld W → List Message → ToolWorld W → Type 0
  Answers [] before [] end = end ≡ before
  Answers [] before (m ∷ ms) end = ⊥
  Answers (c ∷ cs) before [] end = ⊥
  Answers (c ∷ cs) before (m ∷ ms) end =
      let (result, after) =
        execute c.name (or_no_args env.no_args (env.parse_args c.arguments)) registry before in
      (m.role ≡ text "tool")
      × (m.tool_call_id ≡ c.id)
      × (m.tool_calls ≡ [])
      × (m.content ≡ result.content)
      × Answers cs after ms end

  pub Answers-llm_calls :
      (cs : List ToolCall) (before : ToolWorld W) (ms : List Message) (end : ToolWorld W)
      → LeavesCalls registry
      → Answers cs before ms end
      → end.0.llm_calls ≡ before.0.llm_calls
  Answers-llm_calls [] before [] end quiet h = ap (λ (w : ToolWorld W). w.0.llm_calls) h
  Answers-llm_calls [] before (m ∷ ms) end quiet h = elim h [ ]
  Answers-llm_calls (c ∷ cs) before [] end quiet h = elim h [ ]
  Answers-llm_calls (c ∷ cs) before (m ∷ ms) end quiet (_, _, _, _, h) =
      Answers-llm_calls cs _ ms end quiet h ∙ quiet c.name _ before.0 before.1

module _ {Args W : Type 0} (env : Env Args W) (registry : ToolRegistry Args (ToolWorld W))
    (system_prompt model : Text) where
  run_call_effect :
      (tc : ToolCall) (st : State W)
      → let st' = run_call env registry system_prompt model tc st in
        let (result, after) =
          execute tc.name
            (or_no_args env.no_args (env.parse_args tc.arguments))
            registry
            (st.llm, st.world) in
        ((reply : Message) × (st'.memory.messages ≡ st.memory.messages ++ reply ∷ [])
          × (reply.role ≡ text "tool")
          × (reply.tool_call_id ≡ tc.id)
          × (reply.tool_calls ≡ [])
          × (reply.content ≡ result.content))
        × (◌≡◌ {A = ToolWorld W} (st'.llm, st'.world) after)
        × (count_tool_calls st'.events ≡ count_tool_calls st.events + 1)
        × (count_llm_calls st'.events ≡ count_llm_calls st.events)
  unfolding run_call add_message
  run_call_effect tc st = (
    (_, refl, refl, refl, refl, refl),
    refl,
    count_tool_calls-append st.events (_ ∷ []) ∙ omega arith,
    count_llm_calls-append st.events (_ ∷ []) ∙ omega arith,
  )

  -- Running the calls of an answer appends to the conversation one tool message for each call, in
  -- order, under its id and with the content that its tool returned, and emits one event for each and
  -- none of another kind. Each tool runs on the client and the world that the one before it left, and
  -- what the last one leaves is what the loop goes on with.
  pub run_calls-Answers :
      (tcs : List ToolCall) (st : State W)
      → let st' = run_calls env registry system_prompt model tcs st in
        ((replies : List Message) × (st'.memory.messages ≡ st.memory.messages ++ replies)
          × Answers env registry tcs (st.llm, st.world) replies (st'.llm, st'.world))
        × (count_tool_calls st'.events ≡ count_tool_calls st.events + length tcs)
        × (count_llm_calls st'.events ≡ count_llm_calls st.events)
  unfolding run_calls
  run_calls-Answers [] st = (([], sym (append-nil _), refl), omega arith, refl)
  run_calls-Answers (tc ∷ tcs) st =
      let ((reply, said, role, id, calls, content), after, tools, models) = run_call_effect tc st in
      let st' = run_call env registry system_prompt model tc st in
      let end = run_calls env registry system_prompt model tcs st' in
      let ((replies, rest, answers), tools', models') = run_calls-Answers tcs st' in
      (
        (
          reply ∷ replies,
          rest
              ∙ (ap (λ l. l ++ replies) said
                  ∙ append_assoc st.memory.messages (reply ∷ []) replies),
          (
            role,
            id,
            calls,
            content,
            subst (λ w. Answers env registry tcs w replies (end.llm, end.world)) after answers,
          ),
        ),
        omega (arith, tools, tools'),
        models' ∙ models,
      )
