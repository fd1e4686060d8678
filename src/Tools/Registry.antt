-- ===== src/Tools/Registry.antt =====
-- The registry of tools.py: what `register`, `execute` and `to_openai_schema` do with each other.
use hivekernel.Prelude.{◌≡◌, refl, false, none, some, List, [], ◌∷◌, arith, map, if◌then◌else◌, All}
use hivekernel.Prelude.Text.{Text, text_eq, text_eq_iff}
use hivekernel.Prelude.Dict.{lookup, insert, lookup-insert, Distinct, Distinct-insert}
use hivekernel.Tools.{
  Tool, ToolRegistry, FunctionSchema, register, get, execute, settle, call, unknown_tool,
  to_openai_schema,
}

abbrev pub IsAbsent : Text → List Text → Type 0
IsAbsent s ts = All (λ t. text_eq t s ≡ false) ts

abbrev pub NoRepeat : List Text → Type 0
NoRepeat [] = Unit
NoRepeat (t ∷ ts) = IsAbsent t ts × NoRepeat ts

module _ {Args W : Type 0} where
  -- Every tool stands under its own name, and no name stands twice.
  abbrev NamedRight : ToolRegistry Args W → Type 0
  NamedRight [] = Unit
  NamedRight ((k, tool) ∷ r) = (k ≡ tool.name) × NamedRight r

  pub record IsRegistry (r : ToolRegistry Args W) : Type 0 where
    pub named : NamedRight r
    pub distinct : Distinct r

  NamedRight-insert :
      (tool : Tool Args W) (r : ToolRegistry Args W)
      → NamedRight r
      → NamedRight (insert tool.name tool r)
  unfolding insert
  NamedRight-insert tool [] h = (refl, tt)
  NamedRight-insert tool ((k, t) ∷ r) h =
      ground (arith, text_eq_iff k tool.name, NamedRight-insert tool r h.1)

  pub nil-IsRegistry : IsRegistry []
  nil-IsRegistry = record { named = tt; distinct = tt }

  pub register-IsRegistry :
      (tool : Tool Args W) (r : ToolRegistry Args W) → IsRegistry r → IsRegistry (register tool r)
  unfolding register
  register-IsRegistry tool r h = record {
    named = NamedRight-insert tool r h.named;
    distinct = Distinct-insert tool.name tool r h.distinct;
  }

  pub get-register :
      (tool : Tool Args W) (name : Text) (r : ToolRegistry Args W)
      → get name (register tool r) ≡ (if text_eq tool.name name then some tool else get name r)
  unfolding get register
  get-register tool name r = lookup-insert tool.name name tool r

  -- The names that the model is told.
  abbrev pub schema_names : ToolRegistry Args W → List Text
  schema_names r = map (λ (s : FunctionSchema). s.name) (to_openai_schema r)

  IsAbsent-lookup :
      (k : Text) (r : ToolRegistry Args W)
      → NamedRight r
      → lookup k r ≡ none
      → IsAbsent k (schema_names r)
  unfolding lookup to_openai_schema
  IsAbsent-lookup k [] h e = tt
  IsAbsent-lookup k ((j, t) ∷ r) h e =
      ground (arith, IsAbsent-lookup k r, text_eq_iff t.name k, text_eq_iff j k)

  -- In a registry the model is offered no name twice.
  schema-NoRepeat : (r : ToolRegistry Args W) → IsRegistry r → NoRepeat (schema_names r)
  unfolding to_openai_schema
  schema-NoRepeat [] h = tt
  schema-NoRepeat ((k, t) ∷ r) h = (
    rw (← h.named.0) (IsAbsent-lookup k r h.named.1 h.distinct.0),
    schema-NoRepeat r (record { named = h.named.1; distinct = h.distinct.1 }),
  )

  lookup_absent :
      (k : Text) (r : ToolRegistry Args W)
      → NamedRight r
      → IsAbsent k (schema_names r)
      → lookup k r ≡ none
  unfolding lookup to_openai_schema
  lookup_absent k [] h e = refl
  lookup_absent k ((j, t) ∷ r) h e =
      ground (arith, lookup_absent k r, text_eq_iff t.name k, text_eq_iff j k)

  -- A call under a name that the schema does not list changes nothing in the world, and its result
  -- is the error that names it.
  pub execute_unlisted :
      (name : Text) (args : Args) (r : ToolRegistry Args W) (w : W)
      → IsRegistry r
      → IsAbsent name (schema_names r)
      → execute name args r w ≡ (unknown_tool name, w)
  unfolding get execute
  execute_unlisted name args r w h absent = rw (lookup_absent name r h.named absent, execute)

  -- A call under the name of a tool runs that tool on the world as it is; its result is passed on,
  -- and an exception becomes an error result.
  pub execute_found :
      (name : Text) (tool : Tool Args W) (args : Args) (r : ToolRegistry Args W) (w : W)
      → get name r ≡ some tool
      → execute name args r w ≡ (settle name (tool.run args w).0, (tool.run args w).1)
  unfolding call execute
  execute_found name tool args r w h = rw (h, execute)
