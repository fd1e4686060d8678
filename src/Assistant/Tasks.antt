-- ===== src/Assistant/Tasks.antt =====
-- `handle_task` of assistant.py.
pub mod Delivery
use hivekernel.Prelude.{
  ℕ, ◌+◌, ◌-◌, Bool, true, false, ◌&&◌, ◌||◌, Option, none, some, List, [], ◌∷◌, ◌++◌, ◌==◌, ltb,
  length, drop, map, take, if◌then◌else◌,
}
use hivekernel.Prelude.Text.{Text, text, text_eq, truthy, lower, strip, join_lines}
use hivekernel.Prelude.Dict.{Dict, lookup, lookup_or}
use hivekernel.Prelude.Decimal.{show}
use hivekernel.Exec.{continue, Result, ok, raised, Exec, pure, suppress, continue, ◌>>=◌, ◌>>◌}
use hivekernel.Core.{
  Core, Session, TaskOutput, Sibling, list_siblings, store_artifact, send_message, log,
}
use hivekernel.Agent.Mailbox.{Message, Message, Routing, drain_pending_results}
use hivekernel.Assistant.Blocks.{strip_markers}
use hivekernel.Assistant.Delegations.{
  drop_all, first_raise, Delegation, ResultFields, collect, result_prefix,
}
use hivekernel.Assistant.Siblings.{add_siblings, merge, with_self, sibling_context}
use hivekernel.Assistant.Actions.{
  Assistant, AssistantState, AssistantEnv, HistoryEntry, entry, other, handle_schedule,
  handle_code_delegation, handle_delegation,
}

pub record Task : Type 0 where
  pub description : Text
  pub params : Dict Text

unfoldable pub system_prompt : Text
system_prompt =
    text
      "You are HiveKernel Assistant, a helpful AI running inside a process tree OS.\nYou can:\n- Answer questions on any topic\n- Schedule recurring tasks using cron expressions\n- Delegate tasks to sibling agents (Queen, Coder, etc.) via IPC messaging\n- Check GitHub repos via the GitMonitor agent\n\nDelegation is ASYNC: when you delegate to another agent, the task is sent and you respond immediately. Results arrive with the user's next message.\n\nRespond concisely and helpfully.\nIf the user asks to schedule something, include this JSON block in your response:\nSCHEDULE: {\"name\": \"task-name\", \"cron\": \"*/30 * * * *\", \"target\": \"github-monitor\", \"description\": \"What to do\", \"params\": {}}\nIf the user asks to write/generate code, include this block:\nDELEGATE_CODE: {\"request\": \"what to code\", \"language\": \"python\"}\nIf the user asks you to delegate a task to another agent (like Queen for research, analysis, or complex tasks), include this block:\nDELEGATE: {\"to\": \"<agent-name>\", \"task\": \"description of what to do\"}\nOtherwise just answer the question directly."

unfoldable pub system_content : List Sibling → Text
unfolding system_prompt
system_content siblings =
    let context = sibling_context siblings in
    if truthy context then system_prompt ++ (10 ∷ 10 ∷ context) else system_prompt

history_messages : List HistoryEntry → List (Text × Text)
history_messages [] = []
history_messages (entry role content ∷ more) = (role, content) ∷ history_messages more
history_messages (other ∷ more) = history_messages more

-- `history[-10:]`
abbrev pub last_ten : List HistoryEntry → List HistoryEntry
last_ten history = drop (length history - 10) history

unfoldable pub chat_messages : List Sibling → List HistoryEntry → Text → List (Text × Text)
unfolding history_messages system_content
chat_messages siblings history message =
    (text "system", system_content siblings)
    ∷ (history_messages (last_ten history) ++ (text "user", message) ∷ [])

-- `json.loads(raw) if raw else []`, and `[]` where that raises.
abbrev pub loaded : {A : Type 0} → (Text → Option (List A)) → Text → List A
loaded loads raw = elim (if truthy raw then loads raw else none) [ none ↦ [] | some xs ↦ xs ]

-- `int(now - d["ts"])`, which is negative for a delegation that was started after `now`.
unfoldable pub elapsed : ℕ → ℕ → Text
elapsed now ts = if ltb now ts then b'-' ∷ show (ts - now) else show (now - ts)

unfoldable pub in_flight_line : ℕ → Text × Delegation → Text
unfolding elapsed
in_flight_line now (rid, d) =
    text "  - "
    ++ (d.target
        ++ (text ": " ++ (take 60 d.task ++ (text " (" ++ (elapsed now d.ts ++ text "s ago)")))))

unfoldable pub in_flight : ℕ → Dict Delegation → Text
unfolding in_flight_line
in_flight now [] = []
in_flight now (e ∷ active) =
    join_lines (text "\n\n[In-flight delegations:]" ∷ map (in_flight_line now) (e ∷ active))

abbrev pub extra_of : Option Text → Text
extra_of none = []
extra_of (some []) = []
extra_of (some (c ∷ s)) = 10 ∷ 10 ∷ c ∷ s

abbrev pub markers : List Text
unfolding text
markers = text "SCHEDULE:" ∷ text "DELEGATE_CODE:" ∷ text "DELEGATE:" ∷ []

abbrev pub done : ℕ → Text → TaskOutput
done exit_code output = record {
  exit_code = exit_code;
  output = output;
  artifacts = [];
  metadata = [];
}

module _ {W : Type 0} (env : AssistantEnv W) where
  -- The loop over the messages, with the exception that ends it, if there is one, and then the stale
  -- delegations.
  unfoldable pub gather :
      Option (Text × List Text) → List Message → Exec (AssistantState W) (List Text)
  gather none msgs st =
      let (parts, active) =
        collect env.loads_result (env.core.time st.world) msgs st.agent.active_delegations in
      (ok parts, record st { agent = record st.agent { active_delegations = active } })
  gather (some (e, ids)) msgs st = (
    raised e,
    record st {
      agent = record st.agent { active_delegations = drop_all ids st.agent.active_delegations };
    },
  )

  -- The mailbox is drained, and the delegations that are answered or stale are dropped.
  unfoldable pub collect_results : Exec (AssistantState W) (List Text)
  unfolding gather
  collect_results st =
      let (msgs, mailbox) = drain_pending_results st.agent.mailbox in
      gather (first_raise env.no_object msgs) msgs
        (record st { agent = record st.agent { mailbox = mailbox } })

  discovered : Result (List Sibling) → Exec (AssistantState W) (List Sibling × Dict ℕ)
  discovered (raised e) st = (ok ([], []), st)
  discovered (ok siblings) st =
      let (logged, st') =
        log env.core (text "info")
          (text "Discovered "
            ++ (show (length siblings)
                ++ (text " siblings: " ++ env.show_names (map (λ (s : Sibling). s.name) siblings))))
          st in
      (ok (siblings, add_siblings siblings []), st')

  unfoldable pub discover : Exec (AssistantState W) (List Sibling × Dict ℕ)
  unfolding discovered
  discover st = let (r, st') = list_siblings env.core st in discovered r st'

  unfoldable pub chat : List (Text × Text) → Exec (AssistantState W) Text
  chat messages st = let (r, world) = env.chat messages st.world in (r, record st { world = world })

  -- The answer with the results of the three handlers.
  unfoldable pub compose :
      ℕ → Text → Text → (a b c : Option Text) → Exec (AssistantState W) TaskOutput
  unfolding in_flight
  compose now prefix response a b c st =
      let final =
        prefix
        ++ (strip (strip_markers env.loads_block response markers)
            ++ ((extra_of a ++ (extra_of b ++ extra_of c))
                ++ in_flight now st.agent.active_delegations)) in
      (log env.core (text "info")
            (text "Assistant responded (" ++ (show (length final) ++ text " chars)"))
          >> pure (done 0 final))
        st

  unfoldable pub post_process : ℕ → Text → Dict ℕ → Result Text → Exec (AssistantState W) TaskOutput
  unfolding compose
  post_process now prefix pids (raised e) = pure (done 1 (text "LLM error: " ++ e))
  post_process now prefix pids (ok response) = do
    a ← handle_schedule env response pids
    b ← handle_code_delegation env response pids
    c ← handle_delegation env response pids
    compose now prefix response a b c

  unfoldable pub answer :
      Task → ℕ → Text → Text → List Sibling × Dict ℕ → Exec (AssistantState W) TaskOutput
  unfolding chat post_process
  answer task now prefix message (siblings, found) st =
      let history = loaded env.loads_history (lookup_or (text "history") (text "[]") task.params) in
      let given = loaded env.loads_pids (lookup_or (text "sibling_pids") (text "{}") task.params) in
      let pids = with_self st.agent.name st.agent.pid (merge given found) in
      let (r, st') = chat (chat_messages siblings history message) st in
      post_process now prefix pids r st'

  unfoldable pub reply : Task → ℕ → Text → Exec (AssistantState W) TaskOutput
  unfolding discover answer
  reply task now prefix =
      let message = lookup_or (text "message") task.description task.params in
      if truthy (strip message)
      then (log env.core (text "info") (text "Assistant received: " ++ take 80 message)
          >> (discover >>= answer task now prefix message))
      else pure (done 0 (prefix ++ text "Hello! I'm the HiveKernel Assistant. How can I help?"))

  unfoldable pub handle_task : Task → Exec (AssistantState W) TaskOutput
  unfolding collect_results reply
  handle_task task st =
      let (r, st') = collect_results st in
      continue r (λ parts. reply task (env.core.time st.world) (result_prefix parts)) st'
