-- ===== src/Architect/Plans.antt =====
-- The plan that `handle_task` of architect.py returns.
use hivekernel.Prelude.{
  inl, inr, Bool-cases, true, Option, none, some, ℕ, ◌≡◌, refl, sym, subst, ◌++◌,
}
use hivekernel.Prelude.Text.{Text, text}
use hivekernel.Prelude.Dict.{lookup_or}
use hivekernel.Exec.{Result, ok, raised, Exec, pure, suppress, continue, ◌>>=◌, ◌>>◌}
use hivekernel.Core.{TaskOutput, log, report_progress, store_artifact}
use hivekernel.Architect.{
  ArchitectEnv, ArchitectState, Task, validate, plan_text, plan_output, Json, null, boolean, number,
  other_number, string, array, object, Items, no_items, item, Fields, get, is_truthy,
  is_some_truthy, has_subtasks, check_groups, check_field, fallback_plan, ask, or_fallback, design,
  size_line, conclude, deliver, handle_task,
}

-- The statement returns, and what it returns has the property.
abbrev pub Gives : {A : Type 0} → (A → Type 0) → Result A → Type 0
Gives {A = A} P r = (a : A) × (r ≡ ok a) × P a

next-Gives :
    {W A B : Type 0} (P : A → Type 0) (Q : B → Type 0) (r : Result A)
    (f : A → Exec (ArchitectState W) B) (mid : ArchitectState W)
    → Gives P r
    → ((a : A) → P a → Gives Q (f a mid).0)
    → Gives Q (continue r f mid).0
next-Gives P Q r f mid (a, e, h) rest = rw e (rest a h)

-- The same behind a statement that returns.
bind-Gives :
    {W A B : Type 0} (Q : B → Type 0) (m : Exec (ArchitectState W) A)
    (f : A → Exec (ArchitectState W) B) (st : ArchitectState W)
    → Gives (λ a. Unit) (m st).0
    → ((a : A) (mid : ArchitectState W) → Gives Q (f a mid).0)
    → Gives Q ((m >>= f) st).0
bind-Gives Q m f st given rest =
    let (r, mid) = m st in next-Gives (λ a. Unit) Q r f mid given (λ a h. rest a mid)

-- The groups of a plan: a list of at least one, each a dictionary whose subtasks are not empty.
abbrev Subtasks : Json → Type 0
Subtasks (object fields) =
    (v : Json) × (get (text "subtasks") fields ≡ some v) × (is_truthy v ≡ true)
Subtasks v = ⊥

abbrev AllSubtasks : Items → Type 0
AllSubtasks no_items = Unit
AllSubtasks (item g gs) = Subtasks g × AllSubtasks gs

-- JSON that the orchestrator can take for a plan.
abbrev pub IsPlan : Result Json → Type 0
IsPlan r =
    (fields : Fields) × (g : Json) × (gs : Items) × (r ≡ ok (object fields))
    × (get (text "groups") fields ≡ some (array (item g gs)))
    × AllSubtasks (item g gs)

has_subtasks-Subtasks : (g : Json) → has_subtasks g ≡ true → Subtasks g
unfolding has_subtasks
has_subtasks-Subtasks null h = cc
has_subtasks-Subtasks (boolean b) h = cc
has_subtasks-Subtasks (number n) h = cc
has_subtasks-Subtasks (other_number s z) h = cc
has_subtasks-Subtasks (string s) h = cc
has_subtasks-Subtasks (array vs) h = cc
has_subtasks-Subtasks (object fields) h = found (get (text "subtasks") fields) refl h
  where
    found :
        (o : Option Json)
        → get (text "subtasks") fields ≡ o
        → is_some_truthy o ≡ true
        → Subtasks (object fields)
    found none e t = cc
    found (some v) e t = (v, e, t)

check_groups-AllSubtasks :
    (str : Json → Text) (gs : Items) → check_groups str gs ≡ ok tt → AllSubtasks gs
unfolding check_groups
check_groups-AllSubtasks str no_items h = tt
check_groups-AllSubtasks str (item g gs) h = elim (Bool-cases (has_subtasks g)) [
  | inl full ↦ (has_subtasks-Subtasks g full, check_groups-AllSubtasks str gs (rw full at h))
  | inr empty ↦ let no : raised _ ≡ ok tt = rw empty at h in cc
]

-- A text that passes the validation is a plan.
validate-IsPlan : (str : Json → Text) (r : Result Json) → validate str r ≡ ok tt → IsPlan r
unfolding validate check_field
validate-IsPlan str (raised e) h = cc
validate-IsPlan str (ok null) h = cc
validate-IsPlan str (ok (boolean b)) h = cc
validate-IsPlan str (ok (number n)) h = cc
validate-IsPlan str (ok (other_number s z)) h = cc
validate-IsPlan str (ok (string s)) h = cc
validate-IsPlan str (ok (array vs)) h = cc
validate-IsPlan str (ok (object fields)) h = groups (get (text "groups") fields) refl h
  where
    groups :
        (o : Option Json)
        → get (text "groups") fields ≡ o
        → check_field str o ≡ ok tt
        → IsPlan (ok (object fields))
    groups none e t = cc
    groups (some null) e t = cc
    groups (some (boolean b)) e t = cc
    groups (some (number n)) e t = cc
    groups (some (other_number s z)) e t = cc
    groups (some (string s)) e t = cc
    groups (some (object fs)) e t = cc
    groups (some (array no_items)) e t = cc
    groups (some (array (item g gs))) e t =
        (fields, g, gs, refl, e, check_groups-AllSubtasks str (item g gs) t)

fallback_plan-IsPlan : (description : Text) (n : ℕ) → IsPlan (ok (fallback_plan description n))
unfolding fallback_plan get is_truthy text
fallback_plan-IsPlan description n = (_, _, _, refl, refl, ((_, refl, refl), tt))

-- `json.loads` reads the fallback plan back as it was written.
abbrev pub ReadsBack : {W : Type 0} → ArchitectEnv W → Type 0
ReadsBack env =
    (description : Text) (n : ℕ)
    → env.loads (env.dumps (fallback_plan description n)) ≡ ok (fallback_plan description n)

-- The kernel takes log lines and progress reports, and the model answers.
pub record Answers {W : Type 0} (env : ArchitectEnv W) : Type 0 where
  pub logs : (level message : Text) (w : W) → (env.core.log level message w).0 ≡ ok tt
  pub progresses : (message : Text) (w : W) → (env.core.report_progress message w).0 ≡ ok tt
  pub asks : (prompt : Text) (w : W) → (raw : Text) × ((env.ask prompt w).0 ≡ ok raw)

module _ {W : Type 0} (env : ArchitectEnv W) where
  -- The text of a plan.
  abbrev pub Valid : Text → Type 0
  Valid plan = IsPlan (env.loads plan)

  module _ (answers : Answers env) (reads_back : ReadsBack env) where
    log-Gives :
        (level message : Text) (st : ArchitectState W)
        → Gives (λ u. Unit) (log env.core level message st).0
    unfolding log
    log-Gives level message st = (tt, answers.logs level message st.world, tt)

    report_progress-Gives :
        (message : Text) (st : ArchitectState W)
        → Gives (λ u. Unit) (report_progress env.core message st).0
    unfolding report_progress
    report_progress-Gives message st = (tt, answers.progresses message st.world, tt)

    ask-Gives : (prompt : Text) (st : ArchitectState W) → Gives (λ u. Unit) (ask env prompt st).0
    unfolding ask
    ask-Gives prompt st = let (raw, e) = answers.asks prompt st.world in (raw, e, tt)

    or_fallback-Gives :
        (description : Text) (n : ℕ) (plan : Text) (r : Result (Unit {0})) (st : ArchitectState W)
        → validate env.str (env.loads plan) ≡ r
        → Gives Valid (or_fallback env description n plan r st).0
    unfolding or_fallback
    or_fallback-Gives description n plan (ok u) st e =
        (plan, refl, validate-IsPlan env.str (env.loads plan) e)
    or_fallback-Gives description n plan (raised e) st h =
        bind-Gives Valid (log env.core (text "error") (text "Plan validation failed: " ++ e))
          (λ u. pure (env.dumps (fallback_plan description n))) st (log-Gives _ _ st)
          (λ _ mid. (
            _,
            refl,
            subst IsPlan (sym (reads_back description n)) (fallback_plan-IsPlan description n),
          ))

    design-Gives :
        (description : Text) (n : ℕ) (st : ArchitectState W)
        → Gives Valid (design env description n st).0
    unfolding design
    design-Gives description n st =
        bind-Gives Valid (log env.core (text "info") _) _ st (log-Gives _ _ st) (λ _ st1.
          bind-Gives Valid (report_progress env.core _) _ st1 (report_progress-Gives _ st1)
            (λ _ st2.
              bind-Gives Valid (report_progress env.core _) _ st2 (report_progress-Gives _ st2)
                (λ _ st3.
                  bind-Gives Valid (ask env _) _ st3 (ask-Gives _ st3)
                    (λ raw st4. or_fallback-Gives description n (plan_text raw) _ st4 refl))))

    conclude-Gives :
        (plan : Text) (st : ArchitectState W)
        → Gives (λ (out : TaskOutput). out.output ≡ plan) (conclude env plan st).0
    unfolding conclude
    conclude-Gives plan st =
        let Q : TaskOutput → Type 0 = λ out. out.output ≡ plan in
        bind-Gives Q (log env.core (text "info") (size_line env plan))
          (λ u. report_progress env.core (text "Done") >> pure (plan_output plan)) st
          (log-Gives _ _ st)
          (λ _ st1.
            bind-Gives Q (report_progress env.core (text "Done")) (λ u. pure (plan_output plan)) st1
              (report_progress-Gives _ st1) (λ _ st2. (plan_output plan, refl, refl)))

    deliver-Gives :
        (plan : Text) (st : ArchitectState W)
        → Gives (λ (out : TaskOutput). out.output ≡ plan) (deliver env plan st).0
    unfolding deliver
    deliver-Gives plan st =
        let Q : TaskOutput → Type 0 = λ out. out.output ≡ plan in
        let store = suppress (store_artifact env.core (text "architect/plan") plan) in
        bind-Gives Q (report_progress env.core (text "Storing plan..."))
          (λ u. store >> conclude env plan) st (report_progress-Gives _ st)
          (λ _ st1.
            bind-Gives Q store (λ u. conclude env plan) st1 (tt, refl, tt)
              (λ _ st2. conclude-Gives plan st2))

    -- Where the kernel takes log lines and progress reports, the model answers, max_workers is a number
    -- and json reads the fallback plan back as it was written, handle_task returns the JSON text of a
    -- dictionary with at least one group, each of whose groups is a dictionary with subtasks, whatever
    -- the model answered and whether or not the plan could be stored.
    pub handle_task-Gives :
        (task : Task) (n : ℕ) (st : ArchitectState W)
        → env.int (lookup_or (text "max_workers") (text "3") task.params) ≡ ok n
        → Gives (λ (out : TaskOutput). Valid out.output) (handle_task env task st).0
    unfolding handle_task
    handle_task-Gives task n st answered =
        let Q : TaskOutput → Type 0 = λ out. Valid out.output in
        let description = lookup_or (text "task") task.description task.params in
        bind-Gives Q (λ st. (env.int (lookup_or (text "max_workers") (text "3") task.params), st)) _
          st (n, answered, tt)
          (λ m st1.
            let (r, st2) = design env description m st1 in
            next-Gives Valid Q r _ st2 (design-Gives description m st1) (λ plan valid.
              let (out, e, same) = deliver-Gives plan st2 in
              (out, e, subst Valid (sym same) valid)))
