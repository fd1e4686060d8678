-- ===== src/Loop/Samples.antt =====
-- A concrete environment of the loop: a model that asks for one call and then answers, and a registry
-- with one tool.
use hivekernel.Prelude.{ℕ, zero, suc, ◌+◌, false, none, some, [], ◌∷◌}
use hivekernel.Prelude.Text.{Text, text}
use hivekernel.Memory.{fresh}
use hivekernel.Memory.Samples.{dumps, loads, calls_len, lookup_call, empty_store}
use hivekernel.Llm.{Request, Response, answer, ToolMessage, Usage, new_client}
use hivekernel.Tools.{Tool, ToolRegistry, returns}
use hivekernel.Loop.{ToolWorld, World, Env, State}

abbrev pub usage : Usage
usage = record { prompt_tokens = 10; completion_tokens = 5; total_tokens = 15 }

-- The world counts the exchanges: the first answer asks for a call.
abbrev pub ask_then_answer : Request → World ℕ → Response ToolMessage × World ℕ
ask_then_answer req w = (
  answer usage (
      elim w.outside [
        | zero ↦ record { content = none; tool_calls = lookup_call ∷ [] }
        | suc n ↦ record { content = some (text "it is 42"); tool_calls = [] }
      ]
      ∷ []),
  record w { outside = w.outside + 1 },
)

abbrev pub env : Env Text ℕ
env = record {
  exchange = λ req w. (answer usage (text "a summary" ∷ []), w);
  exchange_tools = ask_then_answer;
  calls_len = calls_len;
  schema_len = λ s. 30;
  dumps = dumps;
  loads = loads;
  parse_args = some;
  no_args = text "{}";
  show_args = λ a. a;
}

abbrev pub lookup_tool : Tool Text (ToolWorld ℕ)
lookup_tool = record {
  name = text "lookup";
  description = text "Look a number up";
  parameters = text "{}";
  run = λ args w. (returns (record { content = text "42"; is_error = false }), w);
}

abbrev pub registry : ToolRegistry Text (ToolWorld ℕ)
registry = (text "lookup", lookup_tool) ∷ []

abbrev pub initial : State ℕ
initial = record {
  memory = fresh 7;
  llm = new_client [];
  world = record { artifacts = empty_store; outside = 0 };
  events = [];
}
