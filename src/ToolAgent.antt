-- ===== src/ToolAgent.antt =====
-- sdk/python/hivekernel_sdk/tool_agent.py: the tools that `ToolAgent.on_init` registers, and the
-- system prompt that `_build_system_prompt` makes.
pub mod Selection
pub mod Tasks
pub mod Messages
mod Witnesses
use hivekernel.Prelude.{
  ℕ, Bool, true, false, List, [], ◌∷◌, ◌++◌, ◌==◌, ◌||◌, map, keep, if◌then◌else◌,
}
use hivekernel.Prelude.Text.{Text, text, text_eq, truthy, strip, split_on, join_lines, member}
use hivekernel.Prelude.Dict.{Dict, lookup_or}
use hivekernel.Prelude.Decimal.{show}
use hivekernel.Tools.{Tool, ToolRegistry, register, get_summaries}

-- `{t.strip() for t in tools_filter.split(",") if t.strip()}`
unfoldable pub allowed_names : Text → List Text
allowed_names tools_filter = keep truthy (map strip (split_on b',' tools_filter))

module _ {Args W : Type 0} where
  unfoldable pub register_all : List (Tool Args W) → ToolRegistry Args W → ToolRegistry Args W
  register_all [] r = r
  register_all (tool ∷ tools) r = register_all tools (register tool r)

  -- The tools of `on_init`: with a filter those that it names among all tools and the subclass's
  -- own, and without one the builtin tools and the subclass's own.
  unfoldable pub init_registry :
      (builtin extensions own : List (Tool Args W)) (tools_filter : Text) → ToolRegistry Args W
  unfolding member allowed_names register_all
  init_registry builtin extensions own tools_filter =
      if truthy tools_filter
      then register_all
          (keep (λ tool. member tool.name (allowed_names tools_filter))
            ((builtin ++ extensions) ++ own))
          []
      else register_all own (register_all builtin [])

  -- `config.name`, `config.system_prompt` and `config.metadata`
  unfoldable pub build_system_prompt :
      (pid : ℕ) (name system_prompt : Text) (metadata : Dict Text) (r : ToolRegistry Args W) → Text
  build_system_prompt pid name system_prompt metadata r =
      let base = strip system_prompt in
      let tier = lookup_or (text "cognitive_tier") (text "operational") metadata in
      let role = lookup_or (text "role") (text "agent") metadata in
      let identity =
        10
        ∷ (text "## Identity"
            ++ (10
                ∷ (text "You are "
                    ++ (name
                        ++ (text " (PID "
                            ++ (show pid
                                ++ (text "), role="
                                    ++ (role ++ (text ", tier=" ++ (tier ++ text ".")))))))))) in
      let summaries = get_summaries r in
      join_lines (
        (if truthy base then base ∷ [] else [])
        ++ (identity
            ∷ (if truthy summaries
                then (10 ∷ (text "## Available Tools" ++ 10 ∷ summaries)) ∷ []
                else [])))
