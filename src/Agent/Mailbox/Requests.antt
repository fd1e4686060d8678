-- ===== src/Agent/Mailbox/Requests.antt =====
-- The requests of an agent over any sequence of what can happen to them: a waiting request gets the
-- first reply to it and no other.
use hivekernel.Prelude.{zero, suc, Bool, true, false, ◌||◌, ℕ, List, [], ◌∷◌, ◌==◌, if◌then◌else◌}
use hivekernel.Prelude.Text.{Text, text_eq}
use hivekernel.Agent.Mailbox.{
  timed_out, other_exception, leave, cancel_wait, Message, Future, waiting, resolved, cancelled,
  HiveAgent, CronFields, on_message, open_request, drain_pending_results,
}

-- Where the coroutine of a request is: it sends; it waits; its send failed; its time is over and it
-- has not gone on, with a future that was cancelled, or one that had a reply already; it was
-- cancelled; it forgot the request after its time was over; it ended with a reply there.
pub data Waiter : Type 0 where
  absent sending awaiting failed timed late stopped given_up ended : Waiter

-- The agent with a note of the request id that each future was made for, and of its coroutine.
pub record Requests : Type 0 where
  pub agent : HiveAgent
  pub owner : ℕ → Text
  pub waiter : ℕ → Waiter

-- A request under a new id is opened (with an id that was used before nothing happens); its send is
-- done, or raises; a message arrives; the time of a waiting coroutine is over; that coroutine goes on
-- with the timeout; a waiting coroutine is cancelled, or goes on with its reply; the mailbox is drained.
pub data Event : Type 0 where
  opens : Text → Event
  sends : ℕ → Event
  fails : ℕ → Event
  receives : Message → Event
  expires : ℕ → Event
  gives_up : ℕ → Event
  cancels : ℕ → Event
  returns : ℕ → Event
  drains : Event

abbrev pub set_owner : ℕ → Text → (ℕ → Text) → ℕ → Text
set_owner f id owner g = if g == f then id else owner g

abbrev pub set_waiter : ℕ → Waiter → (ℕ → Waiter) → ℕ → Waiter
set_waiter f w waiter g = if g == f then w else waiter g

-- One of the first `n` futures was made for the id.
abbrev pub is_used : Text → ℕ → (ℕ → Text) → Bool
is_used id zero owner = false
is_used id (suc n) owner = text_eq (owner n) id || is_used id n owner

unfoldable pub add_request : Text → Bool → Requests → Requests
unfolding open_request
add_request id true st = st
add_request id false st =
    let (f, agent) = open_request id st.agent in
    record {
      agent = agent;
      owner = set_owner f id st.owner;
      waiter = set_waiter f sending st.waiter;
    }

abbrev pub after_send : Waiter → Waiter
after_send sending = awaiting
after_send w = w

unfoldable pub fail : Waiter → ℕ → Requests → Requests
unfolding leave
fail sending f st = record st {
  agent = leave other_exception (st.owner f) st.agent;
  waiter = set_waiter f failed st.waiter;
}
fail w f st = st

-- The timer cancels what the coroutine waits for.
abbrev pub after_timer : Future → Waiter
after_timer waiting = timed
after_timer (resolved m) = late
after_timer cancelled = timed

unfoldable pub expire : Waiter → ℕ → Requests → Requests
unfolding cancel_wait
expire awaiting f st = record st {
  agent = cancel_wait f st.agent;
  waiter = set_waiter f (after_timer (st.agent.futures f)) st.waiter;
}
expire w f st = st

unfoldable pub give_up : Waiter → ℕ → Requests → Requests
unfolding leave
give_up timed f st = record st {
  agent = leave timed_out (st.owner f) st.agent;
  waiter = set_waiter f given_up st.waiter;
}
give_up late f st = record st {
  agent = leave timed_out (st.owner f) st.agent;
  waiter = set_waiter f ended st.waiter;
}
give_up w f st = st

abbrev pub after_cancel : Future → Waiter
after_cancel waiting = stopped
after_cancel (resolved m) = ended
after_cancel cancelled = stopped

unfoldable pub cancel_task : Waiter → ℕ → Requests → Requests
unfolding cancel_wait leave
cancel_task awaiting f st = record st {
  agent = leave other_exception (st.owner f) (cancel_wait f st.agent);
  waiter = set_waiter f (after_cancel (st.agent.futures f)) st.waiter;
}
cancel_task w f st = st

abbrev pub after_reply : Waiter → Future → Waiter
after_reply awaiting (resolved m) = ended
after_reply w future = w

module _ (loads : Text → CronFields) (with_task : Text → Text → Text) where
  unfoldable pub step : Event → Requests → Requests
  unfolding add_request fail expire give_up cancel_task
  step (opens id) st = add_request id (is_used id st.agent.allocated st.owner) st
  step (sends f) st = record st { waiter = set_waiter f (after_send (st.waiter f)) st.waiter }
  step (fails f) st = fail (st.waiter f) f st
  step (receives m) st = record st { agent = (on_message loads with_task m st.agent).1 }
  step (expires f) st = expire (st.waiter f) f st
  step (gives_up f) st = give_up (st.waiter f) f st
  step (cancels f) st = cancel_task (st.waiter f) f st
  step (returns f) st = record st {
    waiter = set_waiter f (after_reply (st.waiter f) (st.agent.futures f)) st.waiter;
  }
  step drains st = record st { agent = (drain_pending_results st.agent).1 }

  unfoldable pub run : List Event → Requests → Requests
  run [] st = st
  run (e ∷ es) st = run es (step e st)
