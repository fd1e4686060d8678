-- ===== src/Architect/Witnesses.antt =====
-- Tests of architect.py, and its theorem at a model that answers no plan.
use hivekernel.Prelude.{ℕ, ◌≡◌, refl, [], ◌∷◌}
use hivekernel.Prelude.Text.{Text, text}
use hivekernel.Exec.{Result, ok, raised}
use hivekernel.Core.{TaskOutput}
use hivekernel.Core.Samples.{quiet}
use hivekernel.Architect.{
  ArchitectEnv, ArchitectState, Json, number, string, array, object, no_items, item, no_fields,
  field, fallback_plan, Task, validate, handle_task,
}
use hivekernel.Architect.Plans.{ReadsBack, Gives, Valid, Answers, handle_task-Gives}

-- A text for JSON that tells the fallback plans apart: the number of workers, and the task.
abbrev dumps : Json → Text
dumps
      (object (
        field a va (
          field b vb (
            field c
              (array
                (item (object (field d vd (field e (array (item (string s) no_items)) fe))) vs))
              (field g (number n) rest))))) =
    n ∷ s
dumps v = []

abbrev loads : Text → Result Json
loads [] = raised (text "empty")
loads (n ∷ s) = ok (fallback_plan s n)

abbrev env : ArchitectEnv ℕ
env = record {
  core = quiet;
  ask = λ prompt w. (ok [], w);
  int = λ s. ok 3;
  loads = loads;
  dumps = dumps;
  str = dumps;
  plan_prompt = λ description n. description;
}

abbrev begin : ArchitectState ℕ
begin = record { agent = tt; world = 0; calls = [] }

abbrev task : Task
task = record { description = text "survey"; params = [] }

env-Answers : Answers env
env-Answers = record {
  logs = λ level message w. refl;
  progresses = λ message w. refl;
  asks = λ prompt w. ([], refl);
}

env-ReadsBack : ReadsBack env
unfolding fallback_plan
env-ReadsBack description n = refl

handle_task-Gives_example :
    Gives (λ (out : TaskOutput). Valid env out.output) (handle_task env task begin).0
handle_task-Gives_example = handle_task-Gives env env-Answers env-ReadsBack task 3 begin refl

abbrev group : Text → Json
group key = object (field key (array (item (string (text "x")) no_items)) no_fields)

test_validate :
    validate
      (λ v. text "g")
      (ok (
        object (
          field
            (text "groups")
            (array (item (group (text "subtasks")) (item (group (text "tasks")) no_items)))
            no_fields)))
    ≡ raised (text "Group missing subtasks: g")
unfolding validate text
test_validate = refl
