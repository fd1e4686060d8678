-- ===== src/BuiltinTools/Arguments.antt =====
-- The arguments of the tools of builtin_tools.py: what their schemas ask for is what they read.
use hivekernel.Prelude.{
  ℕ, ◌≡◌, refl, ◌⊎◌, inl, inr, Bool, true, false, Option, none, some, List, [], ◌∷◌, All,
  if◌then◌else◌, subst,
}
use hivekernel.Prelude.Text.{Text}
use hivekernel.Prelude.Dict.{lookup}
use hivekernel.Exec.{Result, ok, raised}
use hivekernel.Core.{Spawn, ExecuteRequest, Send, CronRequest}
use hivekernel.Core.Client.{
  spawn_child, execute_task, send_message, store_artifact, get_artifact, list_children,
  list_siblings, add_cron, get_process_info,
}
use hivekernel.Tools.{Outcome, returns, raises}
use hivekernel.BuiltinTools.{
  Args, ArgType, string, integer, Property, required, ToolContext, quoted, need, need_text,
  need_number, printed, printed_or, dumped, run_spawn_child, run_execute_task, run_send_message,
  run_store_artifact, run_get_artifact, run_list_children, run_list_siblings, run_memory_store,
  run_memory_recall, run_schedule_cron, run_get_process_info,
}
use hivekernel.BuiltinTools.Catalog.{
  BuiltinTool, all_builtin_tools, spawn_child_tool, execute_task_tool, send_message_tool,
  store_artifact_tool, get_artifact_tool, list_children_tool, list_siblings_tool, memory_store_tool,
  memory_recall_tool, schedule_cron_tool, get_process_info_tool,
}

abbrev given : {A : Type 0} → Option A → Bool
given none = false
given (some a) = true

abbrev has_argument : ArgType → Text → Args → Bool
has_argument string k args = given (lookup k args.texts)
has_argument integer k args = given (lookup k args.numbers)

-- The first property that is required and has no argument of its type.
unfoldable pub first_missing : List Property → Args → Option Text
first_missing [] args = none
first_missing (p ∷ ps) args =
    let rest = first_missing ps args in
    if p.is_required then (if has_argument p.type p.name args then rest else some p.name) else rest

abbrev pub IsMember : {A : Type 0} → A → List A → Type 0
IsMember a [] = ⊥
IsMember a (x ∷ xs) = (x ≡ a) ⊎ IsMember a xs

All-IsMember : {A : Type 0} (P : A → Type 0) (xs : List A) (a : A) → All P xs → IsMember a xs → P a
All-IsMember P [] a h m = elim m [ ]
All-IsMember P (x ∷ xs) a h (inl e) = subst P e h.0
All-IsMember P (x ∷ xs) a h (inr m) = All-IsMember P xs a h.1 m

abbrev IsOk : {A : Type 0} → Result A → Type 0
IsOk (ok a) = Unit
IsOk (raised e) = ⊥

-- A result that is no error.
abbrev pub IsReturned : Outcome → Type 0
IsReturned (returns r) = r.is_error ≡ false
IsReturned (raises e) = ⊥

-- With nothing missing a tool returns, and else it raises the error of the key and changes nothing.
abbrev pub Answers : {W : Type 0} → Option Text → Outcome × W → W → Type 0
Answers none r w = IsReturned r.0
Answers (some k) r w = r ≡ (raises (quoted k), w)

module _ {W : Type 0} where
  -- In the world `w` every call that the tools make is answered, and the listing of no children can be
  -- printed.
  pub record IsGranting (ctx : ToolContext W) (w : W) : Type 0 where
    pub spawns : (s : Spawn) (p : Text) → IsOk (spawn_child ctx.client s p w).0
    pub executes : (r : ExecuteRequest) → IsOk (execute_task ctx.client r w).0
    pub sends : (s : Send) → IsOk (send_message ctx.client s w).0
    pub stores : (k c : Text) → IsOk (store_artifact ctx.client k c w).0
    pub fetches : (k : Text) → IsOk (get_artifact ctx.client k w).0
    pub lists : (list_children ctx.client w).0 ≡ ok []
    pub lists_siblings : IsOk (list_siblings ctx.client w).0
    pub schedules : (r : CronRequest) (a : Text) → IsOk (add_cron ctx.client r a w).0
    pub inspects : (pid : ℕ) → IsOk (get_process_info ctx.client pid w).0
    pub prints : IsOk (ctx.dumps_children [])

  printed-IsReturned :
      {A : Type 0} (f : A → Text) (r : Result A × W) → IsOk r.0 → IsReturned (printed f r).0
  printed-IsReturned f (ok a, w) h = refl
  printed-IsReturned f (raised e, w) h = h

  printed_or-IsReturned : (r : Result Text × W) → IsOk r.0 → IsReturned (printed_or r).0
  printed_or-IsReturned (ok a, w) h = refl
  printed_or-IsReturned (raised e, w) h = h

  dumped-IsReturned :
      {A : Type 0} (f : A → Result Text) (r : Result A × W)
      → (a : A) → IsOk (f a)
      → r.0 ≡ ok a
      → IsReturned (dumped f r).0
  dumped-IsReturned f (r, w) a total h = rw h (printed_or-IsReturned (f a, w) total)

  need-Answers :
      {A : Type 0} (k : Text) (o : Option A) (missing : Option Text) (f : A → W → Outcome × W)
      (w : W)
      → ((a : A) → Answers missing (f a w) w)
      → Answers (if given o then missing else some k) (need k o f w) w
  need-Answers k none missing f w h = refl
  need-Answers k (some a) missing f w h = h a

  Answers-none :
      (m : Option Text) (r : Outcome × W) (w : W) → m ≡ none → IsReturned r.0 → Answers m r w
  Answers-none none r w e h = h
  Answers-none (some k) r w e h = cc

  -- A statement block answers in agreement with the properties that it has left to read.
  record Takes (args : Args) (w : W) (ps : List Property) (body : W → Outcome × W) : Type 0 where
    answers : Answers (first_missing ps args) (body w) w

  module _ {args : Args} {w : W} where
    need_text-Takes :
        {k d : Text} {ps : List Property} {f : Text → W → Outcome × W}
        → ((s : Text) → Takes args w ps (f s))
        → Takes args w (required k string d ∷ ps) (need_text k args f)
    unfolding first_missing
    need_text-Takes {k} {d} {ps} {f} h = record {
      answers =
          need-Answers k (lookup k args.texts) (first_missing ps args) f w (λ s. (h s).answers);
    }

    need_number-Takes :
        {k d : Text} {ps : List Property} {f : ℕ → W → Outcome × W}
        → ((n : ℕ) → Takes args w ps (f n))
        → Takes args w (required k integer d ∷ ps) (need_number k args f)
    unfolding first_missing
    need_number-Takes {k} {d} {ps} {f} h = record {
      answers =
          need-Answers k (lookup k args.numbers) (first_missing ps args) f w (λ n. (h n).answers);
    }

    printed-Takes :
        {A : Type 0} {ps : List Property} (f : A → Text) (call : W → Result A × W)
        → first_missing ps args ≡ none
        → IsOk (call w).0
        → Takes args w ps (λ w. printed f (call w))
    printed-Takes {A} {ps} f call e h = record {
      answers =
          Answers-none (first_missing ps args) (printed f (call w)) w e
            (printed-IsReturned f (call w) h);
    }

  -- What a tool makes of its arguments agrees with its schema.
  abbrev IsTyped : ToolContext W → W → BuiltinTool W → Type 0
  IsTyped ctx w t = (args : Args) → Takes args w t.properties (t.execute ctx args)

  module _ (ctx : ToolContext W) (w : W) (h : IsGranting ctx w) where
    spawn_child-IsTyped : IsTyped ctx w spawn_child_tool
    unfolding first_missing run_spawn_child
    spawn_child-IsTyped args = need_text-Takes λ name.
        need_text-Takes λ role. need_text-Takes λ tier. printed-Takes _ _ refl (h.spawns _ _)

    execute_task-IsTyped : IsTyped ctx w execute_task_tool
    unfolding first_missing run_execute_task
    execute_task-IsTyped args =
        need_number-Takes
          λ pid. need_text-Takes λ description. printed-Takes _ _ refl (h.executes _)

    send_message-IsTyped : IsTyped ctx w send_message_tool
    unfolding first_missing run_send_message
    send_message-IsTyped args =
        need_number-Takes λ pid.
          need_text-Takes λ type. need_text-Takes λ payload. printed-Takes _ _ refl (h.sends _)

    store_artifact-IsTyped : IsTyped ctx w store_artifact_tool
    unfolding first_missing run_store_artifact
    store_artifact-IsTyped args =
        need_text-Takes λ key. need_text-Takes λ content. printed-Takes _ _ refl (h.stores _ _)

    get_artifact-IsTyped : IsTyped ctx w get_artifact_tool
    unfolding first_missing run_get_artifact
    get_artifact-IsTyped args = need_text-Takes λ key. printed-Takes _ _ refl (h.fetches _)

    list_children-IsTyped : IsTyped ctx w list_children_tool
    unfolding first_missing run_list_children
    list_children-IsTyped args = record {
      answers =
          dumped-IsReturned ctx.dumps_children (list_children ctx.client w) [] h.prints h.lists;
    }

    list_siblings-IsTyped : IsTyped ctx w list_siblings_tool
    unfolding first_missing run_list_siblings
    list_siblings-IsTyped args = printed-Takes _ _ refl h.lists_siblings

    memory_store-IsTyped : IsTyped ctx w memory_store_tool
    unfolding first_missing run_memory_store
    memory_store-IsTyped args = need_text-Takes λ content. printed-Takes _ _ refl (h.stores _ _)

    memory_reccatalogue-IsTyped : IsTyped ctx w memory_recall_tool
    unfolding first_missing run_memory_recall
    memory_reccatalogue-IsTyped args = printed-Takes _ _ refl (h.fetches _)

    schedule_cron-IsTyped : IsTyped ctx w schedule_cron_tool
    unfolding first_missing run_schedule_cron
    schedule_cron-IsTyped args = need_text-Takes λ name.
        need_text-Takes
          λ expression. need_number-Takes λ pid. printed-Takes _ _ refl (h.schedules _ _)

    get_process_info-IsTyped : IsTyped ctx w get_process_info_tool
    unfolding first_missing run_get_process_info
    get_process_info-IsTyped args = need_number-Takes λ pid. printed-Takes _ _ refl (h.inspects _)

    catalogue-IsTyped : All (IsTyped ctx w) all_builtin_tools
    catalogue-IsTyped = (
      spawn_child-IsTyped,
      (
        execute_task-IsTyped,
        (
          send_message-IsTyped,
          (
            store_artifact-IsTyped,
            (
              get_artifact-IsTyped,
              (
                list_children-IsTyped,
                (
                  list_siblings-IsTyped,
                  (
                    memory_store-IsTyped,
                    (
                      memory_reccatalogue-IsTyped,
                      (schedule_cron-IsTyped, (get_process_info-IsTyped, tt)),
                    ),
                  ),
                ),
              ),
            ),
          ),
        ),
      ),
    )

    -- In a world whose kernel grants every call and lists no children, a tool of the catalogue returns where no required argument
    -- of its schema is missing. Otherwise it raises the `KeyError` of the first one missing, before it has
    -- made any call.
    pub tool-Answers :
        (t : BuiltinTool W) (args : Args)
        → IsMember t all_builtin_tools
        → Answers (first_missing t.properties args) (t.execute ctx args w) w
    tool-Answers t args m =
        (All-IsMember (IsTyped ctx w) all_builtin_tools t catalogue-IsTyped m args).answers
