-- ===== src/BuiltinTools/Registration.antt =====
-- The tools of builtin_tools.py in a registry.
use hivekernel.Prelude.{
  ◌≡◌, refl, ap, ◌∙◌, subst, inl, inr, false, Option, none, some, List, [], ◌∷◌, map,
}
use hivekernel.Prelude.Text.{Text, text, text_eq, text_eq_refl}
use hivekernel.Tools.{
  ToolRegistry, ToolResult, Outcome, returns, raises, get, register, execute, settle,
}
use hivekernel.Tools.Registry.{get-register, execute_found, IsAbsent, NoRepeat}
use hivekernel.BuiltinTools.{Args, Property, ToolContext, quoted}
use hivekernel.BuiltinTools.Catalog.{
  BuiltinTool, tool_of, register_all, register_builtin_tools, all_builtin_tools,
}
use hivekernel.BuiltinTools.Arguments.{IsMember, IsGranting, Answers, first_missing, tool-Answers}

abbrev names : {W : Type 0} → List (BuiltinTool W) → List Text
names = map (λ t. t.name)

names-NoRepeat : (W : Type 0) → NoRepeat (names (all_builtin_tools {W = W}))
unfolding text
names-NoRepeat W = search

module _ {W : Type 0} where
  IsAbsent-IsMember :
      (k : Text) (ts : List (BuiltinTool W)) (t : BuiltinTool W)
      → IsAbsent k (names ts)
      → IsMember t ts
      → text_eq t.name k ≡ false
  IsAbsent-IsMember k [] t h m = elim m [ ]
  IsAbsent-IsMember k (u ∷ ts) t h (inl e) = rw (← e) h.0
  IsAbsent-IsMember k (u ∷ ts) t h (inr m) = IsAbsent-IsMember k ts t h.1 m

  module _ (ctx : ToolContext W) (dumps_schema : List Property → Text) where
    get_absent :
        (k : Text) (ts : List (BuiltinTool W)) (r : ToolRegistry Args W)
        → IsAbsent k (names ts)
        → get k (register_all ctx dumps_schema ts r) ≡ get k r
    unfolding register_all
    get_absent k [] r h = refl
    get_absent k (t ∷ ts) r h =
        get_absent k ts (register (tool_of ctx dumps_schema t) r) h.1
        ∙ rw (get-register (tool_of ctx dumps_schema t) k r, h.0) refl

    get-register_all :
        (ts : List (BuiltinTool W)) (t : BuiltinTool W) (r : ToolRegistry Args W)
        → NoRepeat (names ts)
        → IsMember t ts
        → get t.name (register_all ctx dumps_schema ts r) ≡ some (tool_of ctx dumps_schema t)
    unfolding register_all
    get-register_all [] t r h m = elim m [ ]
    get-register_all (u ∷ ts) t r h (inl e) =
        subst
          (λ x.
            get x.name (register_all ctx dumps_schema ts (register (tool_of ctx dumps_schema u) r))
            ≡ some (tool_of ctx dumps_schema x))
          e
          (get_absent u.name ts (register (tool_of ctx dumps_schema u) r) h.0
            ∙ rw (get-register (tool_of ctx dumps_schema u) u.name r, text_eq_refl u.name) refl)
    get-register_all (u ∷ ts) t r h (inr m) =
        get-register_all ts t (register (tool_of ctx dumps_schema u) r) h.1 m

    -- The registry turns an exception into an error result that names the tool.
    abbrev pub Settles : Text → Option Text → ToolResult × W → W → Type 0
    Settles name none r w = r.0.is_error ≡ false
    Settles name (some k) r w = r ≡ (settle name (raises (quoted k)), w)

    settle-Settles :
        (name : Text) (missing : Option Text) (o : Outcome × W) (w : W)
        → Answers missing o w
        → Settles name missing (settle name o.0, o.1) w
    unfolding settle
    settle-Settles name none (returns r, w') w h = h
    settle-Settles name none (raises e, w') w h = elim h [ ]
    settle-Settles name (some k) o w h = ap (λ (x : Outcome × W). (settle name x.0, x.1)) h

    -- Through a registry that `register_builtin_tools` was run on, in a world whose kernel grants every
    -- call and lists no children, the call of a tool of the catalogue gives no error where no required argument of its schema is missing.
    -- Otherwise it gives the error that names the tool and the first argument missing, and changes nothing.
    pub execute_builtin :
        (t : BuiltinTool W) (args : Args) (r : ToolRegistry Args W) (w : W)
        → IsGranting ctx w
        → IsMember t all_builtin_tools
        → Settles t.name
            (first_missing t.properties args)
            (execute t.name args (register_builtin_tools ctx dumps_schema r) w)
            w
    unfolding register_builtin_tools
    execute_builtin t args r w h m =
        rw
          (execute_found t.name (tool_of ctx dumps_schema t) args
            (register_all ctx dumps_schema all_builtin_tools r) w
            (get-register_all all_builtin_tools t r (names-NoRepeat W) m))
          (settle-Settles t.name (first_missing t.properties args) (t.execute ctx args w) w
            (tool-Answers ctx w h t args m))
