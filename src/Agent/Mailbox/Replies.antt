-- ===== src/Agent/Mailbox/Replies.antt =====
-- What becomes of one request of an agent that is answered: the first reply to it is its answer for
-- good.
use hivekernel.Prelude.{
  ℕ, ◌≡◌, sym, inl, inr, refl, Bool, true, false, Bool-cases, ◌==◌, Option, none, some, List, [],
  ◌∷◌, arith,
}
use hivekernel.Prelude.Text.{Text, truthy}
use hivekernel.Prelude.Dict.{lookup}
use hivekernel.Agent.Mailbox.{
  Message, waiting, resolved, HiveAgent, CronFields, on_message, route, cancel, set_result,
  open_request, cancel_wait, leave, drain_pending_results,
}
use hivekernel.Agent.Mailbox.Requests.{
  Waiter, absent, sending, awaiting, failed, timed, late, stopped, given_up, ended, Requests, Event,
  opens, sends, fails, receives, expires, gives_up, cancels, returns, drains, step, run,
  add_request, fail, expire, give_up, cancel_task,
}
use hivekernel.Agent.Mailbox.Soundness.{IsSound}
use hivekernel.Agent.Mailbox.Runs.{step-IsSound}

add-resolved :
    (id : Text) (used : Bool) (st : Requests) (f : ℕ) (n : Message)
    → IsSound st
    → st.agent.futures f ≡ resolved n
    → (add_request id used st).agent.futures f ≡ resolved n
unfolding add_request open_request
add-resolved id true st f n h r = r
add-resolved id false st f n h r = ground (arith, r, h.answered f n)

cancel_wait-resolved :
    (g : ℕ) (a : HiveAgent) (f : ℕ) (n : Message)
    → a.futures f ≡ resolved n
    → (cancel_wait g a).futures f ≡ resolved n
unfolding cancel_wait cancel
cancel_wait-resolved g a f n r = elim (Bool-cases (f == g)) [
  | inl here ↦ let same : f ≡ g = ground (arith, here) in rw (here, (sym same), r) refl
  | inr other ↦ rw other r
]

abbrev Keeps : (Requests → Requests) → Type 0
Keeps change =
    (st : Requests) (f : ℕ) (n : Message)
    → st.agent.futures f ≡ resolved n
    → (change st).agent.futures f ≡ resolved n

fail-Keeps : (w : Waiter) (g : ℕ) → Keeps (fail w g)
unfolding fail leave
fail-Keeps sending g st f n r = r
fail-Keeps absent g st f n r = r
fail-Keeps awaiting g st f n r = r
fail-Keeps failed g st f n r = r
fail-Keeps timed g st f n r = r
fail-Keeps late g st f n r = r
fail-Keeps stopped g st f n r = r
fail-Keeps given_up g st f n r = r
fail-Keeps ended g st f n r = r

expire-Keeps : (w : Waiter) (g : ℕ) → Keeps (expire w g)
unfolding expire
expire-Keeps awaiting g st f n r = cancel_wait-resolved g st.agent f n r
expire-Keeps absent g st f n r = r
expire-Keeps sending g st f n r = r
expire-Keeps failed g st f n r = r
expire-Keeps timed g st f n r = r
expire-Keeps late g st f n r = r
expire-Keeps stopped g st f n r = r
expire-Keeps given_up g st f n r = r
expire-Keeps ended g st f n r = r

give_up-Keeps : (w : Waiter) (g : ℕ) → Keeps (give_up w g)
unfolding give_up leave
give_up-Keeps timed g st f n r = r
give_up-Keeps late g st f n r = r
give_up-Keeps absent g st f n r = r
give_up-Keeps sending g st f n r = r
give_up-Keeps awaiting g st f n r = r
give_up-Keeps failed g st f n r = r
give_up-Keeps stopped g st f n r = r
give_up-Keeps given_up g st f n r = r
give_up-Keeps ended g st f n r = r

cancel_task-Keeps : (w : Waiter) (g : ℕ) → Keeps (cancel_task w g)
unfolding cancel_task leave
cancel_task-Keeps awaiting g st f n r = cancel_wait-resolved g st.agent f n r
cancel_task-Keeps absent g st f n r = r
cancel_task-Keeps sending g st f n r = r
cancel_task-Keeps failed g st f n r = r
cancel_task-Keeps timed g st f n r = r
cancel_task-Keeps late g st f n r = r
cancel_task-Keeps stopped g st f n r = r
cancel_task-Keeps given_up g st f n r = r
cancel_task-Keeps ended g st f n r = r

module _ (loads : Text → CronFields) (with_task : Text → Text → Text) where
  route-resolved :
      (pending : Option ℕ) (m n : Message) (a : HiveAgent) (f : ℕ)
      → a.futures f ≡ resolved n
      → (route loads with_task pending m a).1.futures f ≡ resolved n
  unfolding route set_result
  route-resolved (some g) m n a f h = ground (arith, h)
  route-resolved none m n a f h = ground (arith, h)

  step-resolved :
      (e : Event) (st : Requests) (f : ℕ) (n : Message)
      → IsSound st
      → st.agent.futures f ≡ resolved n
      → (step loads with_task e st).agent.futures f ≡ resolved n
  unfolding step on_message drain_pending_results
  step-resolved (opens id) st f n h r = add-resolved id _ st f n h r
  step-resolved (sends g) st f n h r = r
  step-resolved (fails g) st f n h r = fail-Keeps (st.waiter g) g st f n r
  step-resolved (receives m) st f n h r = route-resolved _ m n st.agent f r
  step-resolved (expires g) st f n h r = expire-Keeps (st.waiter g) g st f n r
  step-resolved (gives_up g) st f n h r = give_up-Keeps (st.waiter g) g st f n r
  step-resolved (cancels g) st f n h r = cancel_task-Keeps (st.waiter g) g st f n r
  step-resolved (returns g) st f n h r = r
  step-resolved drains st f n h r = r

  run-resolved :
      (es : List Event) (st : Requests) (f : ℕ) (n : Message)
      → IsSound st
      → st.agent.futures f ≡ resolved n
      → (run loads with_task es st).agent.futures f ≡ resolved n
  unfolding run
  run-resolved [] st f n h r = r
  run-resolved (e ∷ es) st f n h r =
      run-resolved es (step loads with_task e st) f n (step-IsSound loads with_task e st h)
        (step-resolved e st f n h r)

  receive-resolved :
      (m : Message) (st : Requests) (f : ℕ)
      → IsSound st
      → st.agent.futures f ≡ waiting
      → m.reply_to ≡ st.owner f
      → truthy m.reply_to ≡ true
      → (step loads with_task (receives m) st).agent.futures f ≡ resolved m
  unfolding step on_message route set_result
  receive-resolved m st f h wait own given =
      let pends : lookup m.reply_to st.agent.pending_requests ≡ some f =
        rw own ((h.waiting_pends f wait).1) in
      rw (given, pends) (ground (arith, wait))

  -- A request that waits is answered by the first reply to it that arrives: from then on its future
  -- holds that message, whatever happens next.
  pub first_reply :
      (m : Message) (es : List Event) (st : Requests) (f : ℕ)
      → IsSound st
      → st.agent.futures f ≡ waiting
      → m.reply_to ≡ st.owner f
      → truthy m.reply_to ≡ true
      → (run loads with_task (receives m ∷ es) st).agent.futures f ≡ resolved m
  unfolding run
  first_reply m es st f h wait own given =
      run-resolved es (step loads with_task (receives m) st) f m
        (step-IsSound loads with_task (receives m) st h) (receive-resolved m st f h wait own given)
