-- ===== src/Tools/Witnesses.antt =====
-- Tests of tools.py, and its theorems at a registry of two tools.
use hivekernel.Prelude.{ℕ, ◌≡◌, refl, [], ◌∷◌}
use hivekernel.Prelude.Text.{join_lines, text}
use hivekernel.Prelude.Dict.{insert, lookup}
use hivekernel.Tools.{ToolRegistry, register, get_summaries, to_openai_schema}
use hivekernel.Tools.Samples.{counter, broken_counter, clock}
use hivekernel.Tools.Registry.{IsAbsent, IsRegistry, register-IsRegistry, schema_names}

abbrev two_tools : ToolRegistry ℕ ℕ
two_tools = (text "count", counter) ∷ (text "clock", clock) ∷ []

two_tools-IsRegistry : IsRegistry two_tools
unfolding lookup text
two_tools-IsRegistry = record { named = (refl, (refl, tt)); distinct = (refl, (refl, tt)) }

-- The replacement keeps the place of the tool that it replaces.
test_replace :
    register broken_counter two_tools ≡ (text "count", broken_counter) ∷ (text "clock", clock) ∷ []
unfolding register insert text
test_replace = refl

test_summaries : get_summaries two_tools ≡ text "- count: Count up\n- clock: Tell the time"
unfolding get_summaries text join_lines
test_summaries = refl

register-IsRegistry_example : IsRegistry (register broken_counter two_tools)
register-IsRegistry_example = register-IsRegistry broken_counter two_tools two_tools-IsRegistry

shell-IsAbsent : IsAbsent (text "shell") (schema_names two_tools)
unfolding text to_openai_schema
shell-IsAbsent = (refl, (refl, tt))
