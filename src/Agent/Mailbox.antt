-- ===== src/Agent/Mailbox.antt =====
-- sdk/python/hivekernel_sdk/agent.py: `on_message`, `send_and_wait`, `send_and_wait_core` and
-- `drain_pending_results`. A future is an address in a store, which `_pending_requests` and the
-- coroutine that waits for it share.
pub mod Requests
pub mod Soundness
pub mod Coroutines
pub mod Runs
pub mod Bystanders
pub mod Leaks
pub mod Replies
use hivekernel.Prelude.{
  ℕ, ◌+◌, Bool, true, false, not, ◌&&◌, Option, none, some, List, [], ◌∷◌, ◌++◌, ◌==◌,
  if◌then◌else◌,
}
use hivekernel.Prelude.Text.{Text, text, text_eq, truthy}
use hivekernel.Prelude.Dict.{Dict, lookup, insert, remove}

-- The fields of a message that the base class reads.
pub record Message : Type 0 where
  pub message_id : Text
  pub from_pid : ℕ
  pub type : Text
  pub payload : Text
  pub reply_to : Text

pub data Future : Type 0 where
  waiting : Future
  resolved : Message → Future
  cancelled : Future

pub record HiveAgent : Type 0 where
  pub pending_requests : Dict ℕ
  pub pending_results : List Message
  pub futures : ℕ → Future
  pub allocated : ℕ

unfoldable pub new_agent : HiveAgent
new_agent = record {
  pending_requests = [];
  pending_results = [];
  futures = λ f. cancelled;
  allocated = 0;
}

-- What `json.loads` makes of the payload of a cron task, as far as `on_message` looks: no JSON, or an
-- object with or without a description and a task. Other JSON is left out.
pub data CronFields : Type 0 where
  no_json : CronFields
  object : (description : Option Text) (has_task : Bool) → CronFields

-- Answered by `on_message`, or passed on to `handle_message`.
pub data Routing : Type 0 where
  accepted : Routing
  delegated : Message → Routing

abbrev pub set_future : ℕ → Future → (ℕ → Future) → ℕ → Future
set_future f value futures g = if g == f then value else futures g

-- `if not fut.done(): fut.set_result(message)`
unfoldable pub set_result : Message → Future → Future
set_result message waiting = resolved message
set_result message (resolved m) = resolved m
set_result message cancelled = cancelled

module _ (loads : Text → CronFields) (with_task : Text → Text → Text) where
  cron_payload : Text → CronFields → Text
  cron_payload payload no_json = payload
  cron_payload payload (object none has_task) = payload
  cron_payload payload (object (some description) true) = payload
  cron_payload payload (object (some description) false) = with_task description payload

  unfoldable pub normalize : Message → Message
  unfolding cron_payload
  normalize message =
      if text_eq message.type (text "cron_task")
      then record message { payload = cron_payload message.payload (loads message.payload) }
      else message

  -- The reply to a pending request, if it is one; else a late answer for the mailbox; else the
  -- application's.
  unfoldable pub route : Option ℕ → Message → HiveAgent → Routing × HiveAgent
  unfolding set_result normalize
  route (some f) message st = (
    accepted,
    record st {
      pending_requests = remove message.reply_to st.pending_requests;
      futures = set_future f (set_result message (st.futures f)) st.futures;
    },
  )
  route none message st =
      if text_eq message.type (text "task_response") && truthy message.reply_to
      then (accepted, record st { pending_results = st.pending_results ++ message ∷ [] })
      else (delegated (normalize message), st)

  unfoldable pub on_message : Message → HiveAgent → Routing × HiveAgent
  unfolding route
  on_message message st =
      route (if truthy message.reply_to then lookup message.reply_to st.pending_requests else none)
        message st

-- The start of `send_and_wait`: a new future under the id of the request, and its address. The send
-- follows.
unfoldable pub open_request : Text → HiveAgent → ℕ × HiveAgent
open_request request_id st = (
  st.allocated,
  record st {
    pending_requests = insert request_id st.allocated st.pending_requests;
    futures = set_future st.allocated waiting st.futures;
    allocated = st.allocated + 1;
  },
)

-- asyncio's `Future.cancel`: a future that is done stays as it is.
unfoldable pub cancel : Future → Future
cancel waiting = cancelled
cancel (resolved m) = resolved m
cancel cancelled = cancelled

-- What happens to the future when the time of `wait_for` is over, and when the task that waits is
-- cancelled. The coroutine goes on later.
unfoldable pub cancel_wait : ℕ → HiveAgent → HiveAgent
unfolding cancel
cancel_wait f st = record st { futures = set_future f (cancel (st.futures f)) st.futures }

-- How an exception leaves the `try` block: the timeout of `wait_for`, or any other, which the send
-- raises or the cancellation of the task.
pub data Exit : Type 0 where
  timed_out other_exception : Exit

-- The handler is for timeouts: it forgets the request. Other exceptions pass it by.
unfoldable pub leave : Exit → Text → HiveAgent → HiveAgent
leave timed_out request_id st = record st {
  pending_requests = remove request_id st.pending_requests;
}
leave other_exception request_id st = st

unfoldable pub drain_pending_results : HiveAgent → List Message × HiveAgent
drain_pending_results st = (st.pending_results, record st { pending_results = [] })
