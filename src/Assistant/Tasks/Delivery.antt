-- ===== src/Assistant/Tasks/Delivery.antt =====
-- `handle_task` of assistant.py hands over what came back: the mailbox is empty afterwards, and the
-- answer begins with the results.
use hivekernel.Prelude.{
  ℕ, ◌≡◌, ◌⊎◌, inl, inr, refl, ◌∙◌, Bool-cases, Option, none, some, List, [], ◌++◌,
}
use hivekernel.Prelude.Text.{Text, text, truthy, strip}
use hivekernel.Prelude.Dict.{Dict, lookup_or}
use hivekernel.Exec.{Result, ok, raised, Exec, continue, ◌>>=◌}
use hivekernel.Core.{TaskOutput, Sibling, list_siblings, log}
use hivekernel.Agent.Mailbox.{Message, drain_pending_results}
use hivekernel.Assistant.Delegations.{first_raise, collect, result_prefix}
use hivekernel.Assistant.Actions.{
  AssistantState, AssistantEnv, handle_schedule, handle_code_delegation, handle_delegation,
}
use hivekernel.Assistant.Actions.Keeps.{
  unread, Keeps, log-Keeps, handle_schedule-Keeps, handle_code_delegation-Keeps,
  handle_delegation-Keeps,
}
use hivekernel.Assistant.Tasks.{
  Task, gather, collect_results, discovered, discover, chat, compose, post_process, answer, reply,
  handle_task,
}

-- Nothing is unread, and an answer begins with the given text or is the error of the model.
abbrev pub Delivered : {W : Type 0} → Text → Result TaskOutput × AssistantState W → Type 0
Delivered prefix (ok out, end) =
    (unread end ≡ [])
    × (((rest : Text) × (out.output ≡ prefix ++ rest) × (out.exit_code ≡ 0))
        ⊎ ((e : Text) × (out.output ≡ text "LLM error: " ++ e) × (out.exit_code ≡ 1)))
Delivered prefix (raised e, end) = unread end ≡ []

next-Delivered :
    {W A : Type 0} (prefix : Text) (r : Result A) (f : A → Exec (AssistantState W) TaskOutput)
    (mid : AssistantState W)
    → unread mid ≡ []
    → ((a : A) → Delivered prefix (f a mid))
    → Delivered prefix (continue r f mid)
next-Delivered prefix (ok a) f mid empty rest = rest a
next-Delivered prefix (raised e) f mid empty rest = empty

bind-Delivered :
    {W A : Type 0} (prefix : Text) (m : Exec (AssistantState W) A)
    (f : A → Exec (AssistantState W) TaskOutput) (st : AssistantState W)
    → Keeps m
    → unread st ≡ []
    → ((a : A) (mid : AssistantState W) → unread mid ≡ [] → Delivered prefix (f a mid))
    → Delivered prefix ((m >>= f) st)
bind-Delivered prefix m f st keeps empty rest =
    let (r, mid) = m st in
    let empty' = keeps st ∙ empty in next-Delivered prefix r f mid empty' (λ a. rest a mid empty')

module _ {W : Type 0} (env : AssistantEnv W) where
  discovered-Keeps : (r : Result (List Sibling)) → Keeps (discovered env r)
  unfolding discovered log
  discovered-Keeps (ok siblings) st = refl
  discovered-Keeps (raised e) st = refl

  discover-Keeps : Keeps (discover env)
  unfolding discover list_siblings
  discover-Keeps st = discovered-Keeps (list_siblings env.core st).0 (list_siblings env.core st).1

  compose-Delivered :
      (now : ℕ) (prefix response : Text) (a b c : Option Text) (st : AssistantState W)
      → unread st ≡ []
      → Delivered prefix (compose env now prefix response a b c st)
  unfolding compose
  compose-Delivered now prefix response a b c st empty =
      bind-Delivered prefix (log env.core (text "info") _) _ st (log-Keeps env _ _) empty
        (λ _ mid empty'. (empty', inl (_, refl, refl)))

  post_process-Delivered :
      (now : ℕ) (prefix : Text) (pids : Dict ℕ) (r : Result Text) (st : AssistantState W)
      → unread st ≡ []
      → Delivered prefix (post_process env now prefix pids r st)
  unfolding post_process
  post_process-Delivered now prefix pids (raised e) st empty = (empty, inr (e, refl, refl))
  post_process-Delivered now prefix pids (ok response) st empty =
      bind-Delivered prefix (handle_schedule env response pids) _ st
        (handle_schedule-Keeps env response pids) empty
        (λ a st1 empty1.
          bind-Delivered prefix (handle_code_delegation env response pids) _ st1
            (handle_code_delegation-Keeps env response pids) empty1
            (λ b st2 empty2.
              bind-Delivered prefix (handle_delegation env response pids) _ st2
                (handle_delegation-Keeps env response pids) empty2
                (λ c. compose-Delivered now prefix response a b c)))

  reply-Delivered :
      (task : Task) (now : ℕ) (prefix : Text) (st : AssistantState W)
      → unread st ≡ []
      → Delivered prefix (reply env task now prefix st)
  unfolding reply answer chat
  reply-Delivered task now prefix st empty =
      let message = lookup_or (text "message") task.description task.params in
      elim (Bool-cases (truthy (strip message))) [
        | inl e ↦ rw e (
            bind-Delivered prefix (log env.core (text "info") _) _ st (log-Keeps env _ _) empty
              (λ _ st1 empty1.
                bind-Delivered prefix (discover env) _ st1 discover-Keeps empty1
                  (λ found st2 empty2. post_process-Delivered now prefix _ _ _ empty2)))
        | inr e ↦ rw e (empty, inl (_, refl, refl))
      ]

  gathered-Delivered :
      (task : Task) (exit : Option (Text × List Text)) (msgs : List Message) (st : AssistantState W)
      → unread st ≡ []
      → let (r, st') = gather env exit msgs st in
        Delivered
          (result_prefix
            (collect env.loads_result (env.core.time st.world) msgs st.agent.active_delegations).0)
          (continue r (λ parts. reply env task (env.core.time st.world) (result_prefix parts)) st')
  unfolding gather
  gathered-Delivered task none msgs st empty = reply-Delivered task _ _ _ empty
  gathered-Delivered task (some (e, ids)) msgs st empty = empty

  -- After handle_task no message of the mailbox is left unread, however it ends. An answer with exit
  -- code 0 begins with the results and notices that were collected at the start. Any other answer has
  -- exit code 1 and is the error of the model, without them, and an exception leaves no answer.
  pub handle_task-Delivered :
      (task : Task) (st : AssistantState W)
      → Delivered
          (result_prefix
            (collect env.loads_result
              (env.core.time st.world)
              (unread st)
              st.agent.active_delegations).0)
          (handle_task env task st)
  unfolding handle_task collect_results drain_pending_results
  handle_task-Delivered task st =
      gathered-Delivered task (first_raise env.no_object (unread st)) (unread st)
        (record st {
          agent = record st.agent { mailbox = record st.agent.mailbox { pending_results = [] } };
        })
        refl
