-- ===== src/Architect.antt =====
-- sdk/python/hivekernel_sdk/architect.py: `ArchitectAgent`, which has the model plan a task and puts a
-- plan of its own in place of one that is no plan.
pub mod Plans
mod Witnesses
use hivekernel.Prelude.{
  not, ◌==◌, ℕ, Bool, true, false, Option, none, some, List, [], ◌∷◌, ◌++◌, length, take,
  if◌then◌else◌,
}
use hivekernel.Prelude.Text.{Text, text, text_eq, truthy, strip, starts_with, strip_fences, fence}
use hivekernel.Prelude.Dict.{Dict, lookup_or}
use hivekernel.Prelude.Decimal.{show}
use hivekernel.Exec.{Result, ok, raised, Exec, pure, suppress, continue, ◌>>=◌, ◌>>◌}
use hivekernel.Core.{Core, Session, TaskOutput, store_artifact, report_progress, log}

-- JSON values as `json.loads` gives them: a number that is no natural one by its text and whether it
-- is zero, and a dictionary by its entries, each key once.
mutual
  pub data Json : Type 0 where
    null : Json
    boolean : Bool → Json
    number : ℕ → Json
    other_number : (shown : Text) (is_zero : Bool) → Json
    string : Text → Json
    array : Items → Json
    object : Fields → Json

  pub data Items : Type 0 where
    no_items : Items
    item : Json → Items → Items

  pub data Fields : Type 0 where
    no_fields : Fields
    field : Text → Json → Fields → Fields

unfoldable pub get : Text → Fields → Option Json
get key no_fields = none
get key (field k v rest) = let later = get key rest in if text_eq k key then some v else later

-- `bool(value)`
unfoldable pub is_truthy : Json → Bool
is_truthy null = false
is_truthy (boolean b) = b
is_truthy (number n) = not (n == 0)
is_truthy (other_number shown is_zero) = not is_zero
is_truthy (string s) = truthy s
is_truthy (array no_items) = false
is_truthy (array (item v vs)) = true
is_truthy (object no_fields) = false
is_truthy (object (field k v rest)) = true

pub record Task : Type 0 where
  pub description : Text
  pub params : Dict Text

pub record ArchitectEnv (W : Type 0) : Type 0 where
  pub core : Core W
  pub ask : Text → W → Result Text × W
  pub int : Text → Result ℕ
  pub loads : Text → Result Json
  pub dumps : Json → Text
  pub str : Json → Text
  pub plan_prompt : (description : Text) (max_workers : ℕ) → Text

abbrev pub ArchitectState : Type 0 → Type 0
ArchitectState W = Session (Unit {0}) W

abbrev is_some_truthy : Option Json → Bool
is_some_truthy none = false
is_some_truthy (some v) = is_truthy v

-- `isinstance(g, dict) and g.get("subtasks")`
unfoldable pub has_subtasks : Json → Bool
unfolding get is_truthy
has_subtasks (object fields) = is_some_truthy (get (text "subtasks") fields)
has_subtasks v = false

unfoldable pub check_groups : (str : Json → Text) → Items → Result (Unit {0})
unfolding has_subtasks
check_groups str no_items = ok tt
check_groups str (item g gs) =
    let rest = check_groups str gs in
    if has_subtasks g then rest else raised (text "Group missing subtasks: " ++ str g)

-- What stands under `groups`: a list that is not empty, of groups with subtasks.
unfoldable pub check_field : (str : Json → Text) → Option Json → Result (Unit {0})
unfolding check_groups
check_field str none = raised (text "Plan missing 'groups' field")
check_field str (some (array (item g gs))) = check_groups str (item g gs)
check_field str (some v) = raised (text "Plan has empty groups")

unfoldable pub validate : (str : Json → Text) → Result Json → Result (Unit {0})
unfolding check_field
validate str (raised e) = raised e
validate str (ok (object fields)) = check_field str (get (text "groups") fields)
validate str (ok v) = raised (text "Plan missing 'groups' field")

-- The plan that takes the place of one that is none: the task as the one subtask of one group.
unfoldable pub fallback_plan : (description : Text) (max_workers : ℕ) → Json
fallback_plan description max_workers =
    let main = object (
      field (text "name") (string (text "main"))
        (field (text "subtasks") (array (item (string description) no_items)) no_fields)) in
    object (
      field (text "analysis") (string (text "Auto-generated fallback plan")) (
        field (text "approach") (string (text "Direct decomposition")) (
          field (text "groups") (array (item main no_items)) (
            field (text "max_workers") (number max_workers) (
              field (text "risks") (string (text "Fallback plan -- original planning failed"))
                (field (text "acceptance_criteria") (string (text "Task completed")) no_fields))))))

unfoldable pub plan_text : Text → Text
plan_text raw = let s = strip raw in if starts_with s fence then strip (strip_fences s) else s

abbrev pub plan_output : Text → TaskOutput
plan_output plan = record {
  exit_code = 0;
  output = plan;
  artifacts = [];
  metadata = (text "plan_size", show (length plan)) ∷ [];
}

module _ {W : Type 0} (env : ArchitectEnv W) where
  unfoldable pub ask : Text → Exec (ArchitectState W) Text
  ask prompt st = let (r, world) = env.ask prompt st.world in (r, record st { world = world })

  -- A plan that is none is logged and replaced.
  unfoldable pub or_fallback : Text → ℕ → Text → Result (Unit {0}) → Exec (ArchitectState W) Text
  unfolding fallback_plan
  or_fallback description max_workers plan (ok u) = pure plan
  or_fallback description max_workers plan (raised e) =
      log env.core (text "error") (text "Plan validation failed: " ++ e)
      >> pure (env.dumps (fallback_plan description max_workers))

  unfoldable pub design : Text → ℕ → Exec (ArchitectState W) Text
  unfolding ask or_fallback validate
  design description max_workers = do
    log env.core (text "info") (text "Architect analyzing: " ++ take 80 description)
    report_progress env.core (text "Analyzing task...")
    report_progress env.core (text "Designing plan...")
    raw ← ask (env.plan_prompt description max_workers)
    or_fallback description max_workers (plan_text raw)
        (validate env.str (env.loads (plan_text raw)))

  unfoldable pub size_line : Text → Text
  size_line plan = text "Architect plan complete (" ++ (show (length plan) ++ text " bytes)")

  unfoldable pub conclude : Text → Exec (ArchitectState W) TaskOutput
  unfolding size_line
  conclude plan = do
    log env.core (text "info") (size_line plan)
    report_progress env.core (text "Done")
    pure (plan_output plan)

  unfoldable pub deliver : Text → Exec (ArchitectState W) TaskOutput
  unfolding conclude
  deliver plan = do
    report_progress env.core (text "Storing plan...")
    suppress (store_artifact env.core (text "architect/plan") plan)
    conclude plan

  unfoldable pub handle_task : Task → Exec (ArchitectState W) TaskOutput
  unfolding design deliver
  handle_task task =
      let description = lookup_or (text "task") task.description task.params in
      (λ st. (env.int (lookup_or (text "max_workers") (text "3") task.params), st)) >>= λ n.
      design description n >>= λ plan. deliver plan
