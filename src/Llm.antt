-- ===== src/Llm.antt =====
-- sdk/python/hivekernel_sdk/llm.py: `LLMClient`, its model table, its request and its accounting.
-- The HTTP exchange is a parameter: what comes back is a `Response`. Latencies (floats), the
-- sampling parameters and the dialog log are left out.
pub mod Accounting
mod Witnesses
use hivekernel.Prelude.{ℕ, ◌+◌, Option, none, some, List, [], ◌∷◌, ◌++◌, if◌then◌else◌}
use hivekernel.Prelude.Text.{Text, text, truthy}
use hivekernel.Prelude.Dict.{Dict, lookup_or}
use hivekernel.Memory.{Message, ToolCall}
use hivekernel.Tools.{FunctionSchema}

-- What a method returns, or the text of the exception that it raises. `_is_context_overflow` is
-- asked only of a `RuntimeError`.
pub data Result {ℓ} (A : Type ℓ) : Type ℓ where
  ok : A → Result A
  runtime_error : Text → Result A
  other_error : Text → Result A

unfoldable pub model_map : Dict Text
unfolding text
model_map =
    (text "opus", text "anthropic/claude-opus-4")
    ∷ (text "sonnet", text "anthropic/claude-sonnet-4-5")
    ∷ (text "mini", text "google/gemini-2.5-flash")
    ∷ (text "haiku", text "anthropic/claude-haiku-3-5")
    ∷ []

pub record Usage : Type 0 where
  pub prompt_tokens : ℕ
  pub completion_tokens : ℕ
  pub total_tokens : ℕ

pub record LastCall : Type 0 where
  pub model : Text
  pub usage : Usage

pub record LlmClient : Type 0 where
  pub default_model : Text
  pub total_tokens : ℕ
  pub prompt_tokens : ℕ
  pub completion_tokens : ℕ
  pub llm_calls : ℕ
  pub last_call : Option LastCall

-- `LLMClient(api_key, default_model)`
unfoldable pub new_client : Text → LlmClient
unfolding model_map
new_client default_model = record {
  default_model =
      if truthy default_model then default_model else lookup_or (text "mini") [] model_map;
  total_tokens = 0;
  prompt_tokens = 0;
  completion_tokens = 0;
  llm_calls = 0;
  last_call = none;
}

-- The body of the request: the messages stand behind the system message, if there is one, and no
-- tools stand for a key that is left out.
pub record Request : Type 0 where
  pub model : Text
  pub system : Text
  pub messages : List Message
  pub tools : List FunctionSchema

-- A failed exchange, an answer with an `error` field, or an answer with the payloads of its
-- choices. `code` is empty where the error has none.
pub data Response (C : Type 0) : Type 0 where
  http_error : Text → Response C
  broken : Text → Response C
  api_error : (code message : Text) → Response C
  answer : Usage → List C → Response C

-- `choices[0].message` of an answer with tools. A null content is `none`.
pub record ToolMessage : Type 0 where
  pub content : Option Text
  pub tool_calls : List ToolCall

resolve : Text → LlmClient → Text
unfolding model_map
resolve model c = if truthy model then lookup_or model model model_map else c.default_model

error_detail : Text → Text → Text
error_detail code message =
    if truthy code then (text "[" ++ (code ++ (text "] " ++ message))) else message

count_usage : Text → Usage → LlmClient → LlmClient
count_usage model u c = record c {
  total_tokens = c.total_tokens + u.total_tokens;
  prompt_tokens = c.prompt_tokens + u.prompt_tokens;
  completion_tokens = c.completion_tokens + u.completion_tokens;
  llm_calls = c.llm_calls + 1;
  last_call = some (record { model = model; usage = u });
}

module _ {C : Type 0} where
  first_choice : List C → Result C
  first_choice [] = runtime_error (text "OpenRouter returned no choices")
  first_choice (c ∷ _) = ok c

  -- What both methods do with a response. The usage is counted before the choices are looked at.
  unfoldable pub receive : Text → Response C → LlmClient → Result C × LlmClient
  unfolding error_detail count_usage first_choice
  receive model (http_error body) c = (runtime_error body, c)
  receive model (broken e) c = (other_error e, c)
  receive model (api_error code message) c =
      (runtime_error (text "OpenRouter API error: " ++ error_detail code message), c)
  receive model (answer u choices) c = (first_choice choices, count_usage model u c)

unfoldable pub request : Text → Text → List Message → List FunctionSchema → LlmClient → Request
unfolding resolve
request model system messages tools c = record {
  model = resolve model c;
  system = system;
  messages = messages;
  tools = tools;
}

-- The exchange reads and changes the world outside of the agent.
module _ {W : Type 0} where
  unfoldable pub chat :
      (Request → W → Response Text × W)
      → Text
      → Text
      → List Message
      → LlmClient
      → W
      → Result Text × LlmClient × W
  unfolding request receive
  chat exchange model system messages c w =
      let req = request model system messages [] c in
      let (response, w') = exchange req w in
      let (result, c') = receive req.model response c in (result, c', w')

  unfoldable pub chat_with_tools :
      (Request → W → Response ToolMessage × W)
      → Text
      → Text
      → List Message
      → List FunctionSchema
      → LlmClient
      → W
      → Result ToolMessage × LlmClient × W
  unfolding request receive
  chat_with_tools exchange model system messages tools c w =
      let req = request model system messages tools c in
      let (response, w') = exchange req w in
      let (result, c') = receive req.model response c in (result, c', w')
