-- ===== src/Llm/Accounting.antt =====
-- The counters of llm.py: what one response adds to them.
use hivekernel.Memory.{Message}
use hivekernel.Tools.{FunctionSchema}
use hivekernel.Prelude.{◌≤◌, ◌+◌, ◌≡◌, ◌⊎◌, List, arith}
use hivekernel.Prelude.Text.{Text, text}
use hivekernel.Llm.{
  LlmClient, Response, ok, runtime_error, answer, receive, Request, ToolMessage, request, chat,
  chat_with_tools,
}

module _ {C : Type 0} where
  -- A call that returns is counted once.
  pub receive-ok_calls :
      (model : Text) (r : Response C) (c : LlmClient) (choice : C)
      → (receive model r c).0 ≡ ok choice
      → (receive model r c).1.llm_calls ≡ c.llm_calls + 1
  unfolding receive
  receive-ok_calls model (answer u choices) c choice h = omega arith
  receive-ok_calls model r c choice h = cc

  -- A call that raises is counted only where the answer has no choices.
  pub receive-error_calls :
      (model : Text) (r : Response C) (c : LlmClient) (e : Text)
      → (receive model r c).0 ≡ runtime_error e
      → ((receive model r c).1.llm_calls ≡ c.llm_calls)
        ⊎ (e ≡ text "OpenRouter returned no choices")
  unfolding receive
  receive-error_calls model (answer u choices) c e h = ground arith
  receive-error_calls model r c e h = ground arith

module _ {W : Type 0} (exchange : Request → W → Response ToolMessage × W) (model system : Text)
    (messages : List Message) (tools : List FunctionSchema) (c : LlmClient) (w : W) where
  -- A call with tools that returns is counted once.
  pub chat_with_tools-ok_calls :
      (m : ToolMessage)
      → (chat_with_tools exchange model system messages tools c w).0 ≡ ok m
      → (chat_with_tools exchange model system messages tools c w).1.llm_calls ≡ c.llm_calls + 1
  unfolding chat_with_tools request
  chat_with_tools-ok_calls m h =
      receive-ok_calls _ (exchange (request model system messages tools c) w).0 c m h

  -- A call with tools that raises is not counted, unless the answer had no choices.
  pub chat_with_tools-error_calls :
      (e : Text)
      → (chat_with_tools exchange model system messages tools c w).0 ≡ runtime_error e
      → ((chat_with_tools exchange model system messages tools c w).1.llm_calls ≡ c.llm_calls)
        ⊎ (e ≡ text "OpenRouter returned no choices")
  unfolding chat_with_tools request
  chat_with_tools-error_calls e h =
      receive-error_calls _ (exchange (request model system messages tools c) w).0 c e h

module _ {W : Type 0} (exchange : Request → W → Response Text × W) (model system : Text)
    (messages : List Message) (c : LlmClient) (w : W) where
  -- Any call of `chat` is counted at most once.
  pub chat_calls :
      (c.llm_calls ≤ (chat exchange model system messages c w).1.llm_calls)
      × ((chat exchange model system messages c w).1.llm_calls ≤ c.llm_calls + 1)
  unfolding chat receive
  chat_calls = ground arith
