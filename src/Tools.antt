-- ===== src/Tools.antt =====
-- sdk/python/hivekernel_sdk/tools.py: `ToolResult`, the `Tool` protocol and `ToolRegistry`.
-- A tool is what the protocol asks of one: its three properties and its `execute`, which reads and
-- changes the world and may raise. The world and the decoded arguments are type parameters.
pub mod Registry
pub mod Samples
mod Witnesses
use hivekernel.Prelude.{Bool, true, false, List, [], ◌∷◌, ◌++◌, Option, none, some, map}
use hivekernel.Prelude.Text.{Text, text, join_lines}
use hivekernel.Prelude.Dict.{Dict, lookup, insert}

pub record ToolResult : Type 0 where
  pub content : Text
  pub is_error : Bool

pub data Outcome : Type 0 where
  returns : ToolResult → Outcome
  raises : Text → Outcome

pub record Tool (Args W : Type 0) : Type 0 where
  pub name : Text
  pub description : Text
  pub parameters : Text
  pub run : Args → W → Outcome × W

abbrev pub ToolRegistry : Type 0 → Type 0 → Type 0
ToolRegistry Args W = Dict (Tool Args W)

-- An entry of `to_openai_schema`, with its constant `"type": "function"` left out.
pub record FunctionSchema : Type 0 where
  pub name : Text
  pub description : Text
  pub parameters : Text

unfoldable pub unknown_tool : Text → ToolResult
unknown_tool name = record { content = text "Unknown tool: " ++ name; is_error = true }

-- The `except Exception` of `execute`.
unfoldable pub settle : Text → Outcome → ToolResult
settle name (returns result) = result
settle name (raises e) = record {
  content = text "Tool " ++ (name ++ (text " failed: " ++ e));
  is_error = true;
}

module _ {Args W : Type 0} where
  unfoldable pub register : Tool Args W → ToolRegistry Args W → ToolRegistry Args W
  register tool r = insert tool.name tool r

  unfoldable pub get : Text → ToolRegistry Args W → Option (Tool Args W)
  get name r = lookup name r

  call : Text → Tool Args W → Args → W → ToolResult × W
  unfolding settle
  call name tool args w = let (outcome, w') = tool.run args w in (settle name outcome, w')

  unfoldable pub execute : Text → Args → ToolRegistry Args W → W → ToolResult × W
  unfolding get unknown_tool call
  execute name args r w = elim (get name r) [
    | none ↦ (unknown_tool name, w)
    | some tool ↦ call name tool args w
  ]

  summary_line : Tool Args W → Text
  summary_line tool = text "- " ++ (tool.name ++ (text ": " ++ tool.description))

  unfoldable pub get_summaries : ToolRegistry Args W → Text
  unfolding summary_line
  get_summaries r = join_lines (map (λ e. summary_line e.1) r)

  schema : Tool Args W → FunctionSchema
  schema tool = record {
    name = tool.name;
    description = tool.description;
    parameters = tool.parameters;
  }

  unfoldable pub to_openai_schema : ToolRegistry Args W → List FunctionSchema
  unfolding schema
  to_openai_schema r = map (λ e. schema e.1) r
