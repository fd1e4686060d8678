-- ===== src/Assistant/Actions/Keeps.antt =====
-- The handlers of blocks in assistant.py leave the messages in the mailbox alone.
use hivekernel.Prelude.{ℕ, ◌≡◌, inl, inr, refl, ◌∙◌, Bool-cases, ◌&&◌, Option, none, some, List, []}
use hivekernel.Prelude.Text.{Text, text, truthy}
use hivekernel.Prelude.Dict.{Dict, lookup}
use hivekernel.Exec.{Result, ok, raised, Exec, modify, continue, ◌>>=◌}
use hivekernel.Core.{add_cron, execute_task, send_message, uuid, log}
use hivekernel.Agent.Mailbox.{Message}
use hivekernel.Assistant.Blocks.{Block, is_empty, extract_json_block}
use hivekernel.Assistant.Siblings.{resolve, nonzero}
use hivekernel.Assistant.Actions.{
  AssistantState, AssistantEnv, on_block, handle_schedule, handle_code_delegation,
  handle_delegation, schedule_for, code_for, delegate, delegate_to, delegate_block, try_delegate,
  field, send_fire_and_forget, track,
}

-- The messages in the mailbox that no one has read.
abbrev pub unread : {W : Type 0} → AssistantState W → List Message
unread st = st.agent.mailbox.pending_results

-- A statement that leaves the unread messages alone.
abbrev pub Keeps : {W A : Type 0} → Exec (AssistantState W) A → Type 0
Keeps {W = W} m = (st : AssistantState W) → unread (m st).1 ≡ unread st

next-Keeps :
    {W A B : Type 0} (r : Result A) (f : A → Exec (AssistantState W) B) (mid : AssistantState W)
    → ((a : A) → Keeps (f a))
    → unread (continue r f mid).1 ≡ unread mid
next-Keeps (ok a) f mid rest = rest a mid
next-Keeps (raised e) f mid rest = refl

bind-Keeps :
    {W A B : Type 0} (m : Exec (AssistantState W) A) (f : A → Exec (AssistantState W) B)
    → Keeps m
    → ((a : A) → Keeps (f a))
    → Keeps (m >>= f)
bind-Keeps m f keeps rest st = let (r, mid) = m st in next-Keeps r f mid rest ∙ keeps st

module _ {W : Type 0} (env : AssistantEnv W) where
  pub log-Keeps : (level message : Text) → Keeps {W = W} (log env.core level message)
  unfolding log
  log-Keeps level message st = refl

  on_block-Keeps :
      (block : Option Block) (f : Block → Exec (AssistantState W) (Option Text))
      → ((b : Block) → Keeps (f b))
      → Keeps (on_block env block f)
  on_block-Keeps none f keeps st = refl
  on_block-Keeps (some b) f keeps st = elim (Bool-cases (is_empty b)) [
    | inl e ↦ rw e refl
    | inr e ↦ rw e (keeps b st)
  ]

  schedule_for-Keeps : (b : Block) (pid : Option ℕ) → Keeps (schedule_for env b pid)
  unfolding schedule_for add_cron
  schedule_for-Keeps b none st = refl
  schedule_for-Keeps b (some pid) st = refl

  code_for-Keeps : (b : Block) (pid : Option ℕ) → Keeps (code_for env b pid)
  unfolding code_for execute_task
  code_for-Keeps b none st = refl
  code_for-Keeps b (some pid) st = refl

  send_fire_and_forget-Keeps :
      (to_pid : ℕ) (type payload : Text) → Keeps (send_fire_and_forget env to_pid type payload)
  unfolding send_fire_and_forget uuid send_message
  send_fire_and_forget-Keeps to_pid type payload st =
      next-Keeps (env.core.send_message _ (env.core.uuid st.world).1).0 _ _ (λ u mid. refl)

  delegate-Keeps : (target task : Text) (pid : ℕ) → Keeps (delegate env target task pid)
  unfolding delegate uuid track
  delegate-Keeps target task pid st =
      bind-Keeps (send_fire_and_forget env pid (text "task_request") _) (λ rid. modify _)
        (send_fire_and_forget-Keeps pid _ _) (λ rid mid. refl)
        (record st { world = (env.core.uuid st.world).1 })

  delegate_to-Keeps :
      (target task : Text) (pid : Option ℕ) → Keeps (delegate_to env target task pid)
  unfolding delegate_to try_delegate
  delegate_to-Keeps target task none st = refl
  delegate_to-Keeps target task (some pid) st =
      bind-Keeps (log env.core (text "info") _) _ (log-Keeps _ _)
        (λ _ mid. delegate-Keeps target task pid mid) st

  delegate_block-Keeps : (pids : Dict ℕ) (b : Block) → Keeps (delegate_block env pids b)
  unfolding delegate_block
  delegate_block-Keeps pids b st =
      let target = field (text "to") [] b in
      let task = field (text "task") [] b in
      elim (Bool-cases (truthy target && truthy task)) [
        | inl e ↦ rw e (delegate_to-Keeps target task (resolve target pids) st)
        | inr e ↦ rw e refl
      ]

  pub handle_schedule-Keeps :
      (response : Text) (pids : Dict ℕ) → Keeps (handle_schedule env response pids)
  unfolding handle_schedule
  handle_schedule-Keeps response pids =
      on_block-Keeps (extract_json_block env.loads_block response (text "SCHEDULE:")) _
        (λ b. schedule_for-Keeps b (resolve (field (text "target") [] b) pids))

  pub handle_code_delegation-Keeps :
      (response : Text) (pids : Dict ℕ) → Keeps (handle_code_delegation env response pids)
  unfolding handle_code_delegation
  handle_code_delegation-Keeps response pids =
      on_block-Keeps (extract_json_block env.loads_block response (text "DELEGATE_CODE:")) _
        (λ b. code_for-Keeps b (nonzero (lookup (text "coder") pids)))

  pub handle_delegation-Keeps :
      (response : Text) (pids : Dict ℕ) → Keeps (handle_delegation env response pids)
  unfolding handle_delegation
  handle_delegation-Keeps response pids =
      on_block-Keeps (extract_json_block env.loads_block response (text "DELEGATE:")) _
        (delegate_block-Keeps pids)
