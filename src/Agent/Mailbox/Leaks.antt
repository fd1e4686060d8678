-- ===== src/Agent/Mailbox/Leaks.antt =====
-- A request of an agent whose send failed: without a reply it is never forgotten.
use hivekernel.Prelude.{All, ℕ, ◌≡◌, ◌≢◌, refl, Option, none, some, List, [], ◌∷◌, arith}
use hivekernel.Prelude.Text.{Text, text_eq_iff}
use hivekernel.Prelude.Dict.{lookup, lookup-remove}
use hivekernel.Agent.Mailbox.{
  Message, HiveAgent, CronFields, on_message, route, leave, drain_pending_results,
}
use hivekernel.Agent.Mailbox.Requests.{
  sending, Requests, Event, opens, sends, fails, receives, expires, gives_up, cancels, returns,
  drains, step, run, fail,
}
use hivekernel.Agent.Mailbox.Soundness.{IsSound}
use hivekernel.Agent.Mailbox.Runs.{step-IsSound}
use hivekernel.Agent.Mailbox.Bystanders.{
  Leaked, add-Leaked, stays, fail-Leaked, expire-Leaked, cancel_task-Leaked, give_up-Leaked,
}

-- An event that is no reply to the request.
abbrev pub NoReply : Text → Event → Type 0
NoReply id (receives m) = m.reply_to ≢ id
NoReply id e = Unit

module _ (loads : Text → CronFields) (with_task : Text → Text → Text) where
  route-pending :
      (pending : Option ℕ) (m : Message) (a : HiveAgent) (id : Text) (f : ℕ)
      → m.reply_to ≢ id
      → lookup id a.pending_requests ≡ some f
      → lookup id (route loads with_task pending m a).1.pending_requests ≡ some f
  unfolding route
  route-pending (some g) m a id f other found = ground (
    arith,
    found,
    other,
    lookup-remove m.reply_to id a.pending_requests,
    text_eq_iff m.reply_to id,
  )
  route-pending none m a id f other found = ground (arith, found)

  step-Leaked :
      (e : Event) (st : Requests) (id : Text) (f : ℕ)
      → IsSound st
      → NoReply id e
      → Leaked id f st
      → Leaked id f (step loads with_task e st)
  unfolding step on_message drain_pending_results
  step-Leaked (opens j) st id f h no_reply leaked = add-Leaked j _ st id f refl h leaked
  step-Leaked (sends g) st id f h no_reply (found, w) =
      (found, stays g f _ st.waiter (λ e. rw e refl) w)
  step-Leaked (fails g) st id f h no_reply leaked = fail-Leaked id f (st.waiter g) g st refl leaked
  step-Leaked (receives m) st id f h no_reply (found, w) =
      (route-pending _ m st.agent id f no_reply found, w)
  step-Leaked (expires g) st id f h no_reply leaked =
      expire-Leaked id f (st.waiter g) g st refl leaked
  step-Leaked (gives_up g) st id f h no_reply leaked =
      give_up-Leaked id f (st.waiter g) g st refl h leaked
  step-Leaked (cancels g) st id f h no_reply leaked =
      cancel_task-Leaked id f (st.waiter g) g st refl leaked
  step-Leaked (returns g) st id f h no_reply (found, w) =
      (found, stays g f _ st.waiter (λ e. rw e refl) w)
  step-Leaked drains st id f h no_reply leaked = leaked

  run-Leaked :
      (es : List Event) (st : Requests) (id : Text) (f : ℕ)
      → IsSound st
      → All (NoReply id) es
      → Leaked id f st
      → Leaked id f (run loads with_task es st)
  unfolding run
  run-Leaked [] st id f h no_reply leaked = leaked
  run-Leaked (e ∷ es) st id f h no_reply leaked =
      run-Leaked es (step loads with_task e st) id f (step-IsSound loads with_task e st h)
        no_reply.1 (step-Leaked e st id f h no_reply.0 leaked)

  first_fail :
      (st : Requests) (id : Text) (f : ℕ)
      → st.waiter f ≡ sending
      → lookup id st.agent.pending_requests ≡ some f
      → Leaked id f (step loads with_task (fails f) st)
  unfolding step fail leave
  first_fail st id f w found = rw w (found, ground arith)

  -- A request whose send raises stays pending for good as long as no reply to it comes, whatever else
  -- happens: no timeout and no other coroutine forgets it.
  pub send_fails :
      (es : List Event) (st : Requests) (id : Text) (f : ℕ)
      → IsSound st
      → st.waiter f ≡ sending
      → lookup id st.agent.pending_requests ≡ some f
      → All (NoReply id) es
      → lookup id (run loads with_task (fails f ∷ es) st).agent.pending_requests ≡ some f
  unfolding run
  send_fails es st id f h w found no_reply =
      (run-Leaked es (step loads with_task (fails f) st) id f
        (step-IsSound loads with_task (fails f) st h) no_reply (first_fail st id f w found)).0
