-- ===== src/ToolAgent/Selection.antt =====
-- Which tool of `on_init` (tool_agent.py) answers to a name.
use hivekernel.Prelude.{
  Bool-cases, inl, inr, ◌∙◌, ◌≡◌, refl, true, Option, none, some, List, [], ◌∷◌, ◌++◌, arith, keep,
  if◌then◌else◌,
}
use hivekernel.Prelude.Text.{Text, text_eq, text_eq_iff, truthy, member}
use hivekernel.Prelude.Dict.{lookup}
use hivekernel.Tools.{Tool, ToolRegistry, register, get}
use hivekernel.Tools.Registry.{IsRegistry, register-IsRegistry, get-register, nil-IsRegistry}
use hivekernel.ToolAgent.{allowed_names, register_all, init_registry}

module _ {Args W : Type 0} where
  -- The tool that comes last among those of the name.
  pub last_named : Text → List (Tool Args W) → Option (Tool Args W)
  last_named name [] = none
  last_named name (t ∷ ts) = elim (last_named name ts) [
    | some u ↦ some u
    | none ↦ if text_eq t.name name then some t else none
  ]

  abbrev or_else : Option (Tool Args W) → Option (Tool Args W) → Option (Tool Args W)
  or_else (some t) o = some t
  or_else none o = o

  or_else-none : (o : Option (Tool Args W)) → or_else o none ≡ o
  or_else-none none = refl
  or_else-none (some t) = refl

  get-register_all :
      (name : Text) (ts : List (Tool Args W)) (r : ToolRegistry Args W)
      → get name (register_all ts r) ≡ or_else (last_named name ts) (get name r)
  unfolding register_all last_named
  get-register_all name [] r = refl
  get-register_all name (t ∷ ts) r =
      ground (arith, get-register_all name ts (register t r), get-register t name r)

  register_all-IsRegistry :
      (ts : List (Tool Args W)) (r : ToolRegistry Args W)
      → IsRegistry r
      → IsRegistry (register_all ts r)
  unfolding register_all
  register_all-IsRegistry [] r h = h
  register_all-IsRegistry (t ∷ ts) r h =
      register_all-IsRegistry ts (register t r) (register-IsRegistry t r h)

  last_named-keep :
      (name : Text) (allowed : List Text) (ts : List (Tool Args W))
      → last_named name (keep (λ t. member t.name allowed) ts)
        ≡ (if member name allowed then last_named name ts else none)
  unfolding last_named keep
  last_named-keep name allowed [] = ground arith
  last_named-keep name allowed (t ∷ ts) =
      ground (arith, last_named-keep name allowed ts, text_eq_iff t.name name)

  module _ (builtin extensions own : List (Tool Args W)) (tools_filter : Text) where
    -- The tools of an agent, however they were chosen, form a registry: each stands under its own name
    -- and no name stands twice.
    pub init_registry-IsRegistry : IsRegistry (init_registry builtin extensions own tools_filter)
    unfolding init_registry
    init_registry-IsRegistry = elim (Bool-cases (truthy tools_filter)) [
      | inl given ↦ rw given (
          register_all-IsRegistry
            (keep (λ t. member t.name (allowed_names tools_filter))
              ((builtin ++ extensions) ++ own))
            [] nil-IsRegistry)
      | inr absent ↦ rw absent (
          register_all-IsRegistry own (register_all builtin [])
            (register_all-IsRegistry builtin [] nil-IsRegistry))
    ]

    -- With a filter an agent has exactly the tools that the filter names: a name that is not on it
    -- is not there, and one that is on it means the last tool of that name among the builtin ones,
    -- those of the extensions and the subclass's own.
    pub get-init_registry :
        (name : Text)
        → truthy tools_filter ≡ true
        → get name (init_registry builtin extensions own tools_filter) ≡ (
            if member name (allowed_names tools_filter)
            then last_named name ((builtin ++ extensions) ++ own)
            else none)
    unfolding init_registry get lookup
    get-init_registry name h =
        let all = (builtin ++ extensions) ++ own in
        rw h (
          get-register_all name (keep (λ t. member t.name (allowed_names tools_filter)) all) []
          ∙ (or_else-none _ ∙ last_named-keep name (allowed_names tools_filter) all))
