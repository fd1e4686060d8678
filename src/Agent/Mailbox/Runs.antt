-- ===== src/Agent/Mailbox/Runs.antt =====
-- Every event leaves the requests of an agent sound, and so does every sequence of them.
use hivekernel.Prelude.{
  ℕ, ◌≡◌, inl, inr, refl, Bool-cases, ◌&&◌, Option, none, some, List, [], ◌∷◌, if◌then◌else◌, arith,
}
use hivekernel.Prelude.Text.{Text, text, text_eq, text_eq_iff, truthy}
use hivekernel.Prelude.Dict.{lookup, remove, lookup-remove}
use hivekernel.Agent.Mailbox.{
  Message, Future, waiting, resolved, cancelled, CronFields, on_message, route, set_future,
  set_result, drain_pending_results,
}
use hivekernel.Agent.Mailbox.Requests.{
  Requests, Event, opens, sends, fails, receives, expires, gives_up, cancels, returns, drains,
  is_used, after_send, after_reply, step, run,
}
use hivekernel.Agent.Mailbox.Soundness.{IsSound, open-IsSound}
use hivekernel.Agent.Mailbox.Coroutines.{
  move-IsSound, after_send-Eases, after_reply-Eases, fail-IsSound, expire-IsSound,
  cancel_task-IsSound, give_up-IsSound,
}

-- A reply to a pending request: the request is forgotten, and its future set, if it waits.
reply-IsSound :
    (f : ℕ) (m : Message) (future : Future) (st : Requests)
    → st.agent.futures f ≡ future
    → lookup m.reply_to st.agent.pending_requests ≡ some f
    → IsSound st
    → IsSound (record st {
      agent = record st.agent {
        pending_requests = remove m.reply_to st.agent.pending_requests;
        futures = set_future f (set_result m future) st.agent.futures;
      };
    })
unfolding set_result
reply-IsSound f m (resolved n) st is found h =
    let (_, _, there) = h.pending_open m.reply_to f found in absurd (ground (arith, there, is))
reply-IsSound f m waiting st is found h =
    let (bound, own, there) = h.pending_open m.reply_to f found in
    record {
      pending_open = λ j g e. ground (
        arith,
        lookup-remove m.reply_to j st.agent.pending_requests,
        text_eq_iff m.reply_to j,
        h.pending_open j g,
        own,
      );
      waiting_pends = λ g e. ground (
        arith,
        lookup-remove m.reply_to (st.owner g) st.agent.pending_requests,
        text_eq_iff m.reply_to (st.owner g),
        h.waiting_pends g,
        found,
      );
      answered = λ g n e. ground (arith, h.answered g n, own, bound);
      over = λ g e. ground (arith, h.over g, is);
      late_done = λ g e. ground (arith, h.late_done g);
      known = h.known;
      distinct = h.distinct;
    }
reply-IsSound f m cancelled st is found h =
    let (bound, own, there) = h.pending_open m.reply_to f found in
    record {
      pending_open = λ j g e. ground (
        arith,
        lookup-remove m.reply_to j st.agent.pending_requests,
        text_eq_iff m.reply_to j,
        h.pending_open j g,
        own,
        is,
      );
      waiting_pends = λ g e. ground (
        arith,
        lookup-remove m.reply_to (st.owner g) st.agent.pending_requests,
        text_eq_iff m.reply_to (st.owner g),
        h.waiting_pends g,
        found,
      );
      answered = λ g n e. ground (arith, h.answered g n, is);
      over = λ g e. ground (arith, h.over g, is);
      late_done = λ g e. ground (arith, h.late_done g, is);
      known = h.known;
      distinct = h.distinct;
    }

-- The mailbox plays no part.
mail-IsSound :
    (box : List Message) (st : Requests)
    → IsSound st
    → IsSound (record st { agent = record st.agent { pending_results = box } })
mail-IsSound box st h = record {
  pending_open = h.pending_open;
  waiting_pends = h.waiting_pends;
  answered = h.answered;
  over = h.over;
  late_done = h.late_done;
  known = h.known;
  distinct = h.distinct;
}

module _ (loads : Text → CronFields) (with_task : Text → Text → Text) where
  route-IsSound :
      (pending : Option ℕ) (m : Message) (st : Requests)
      → ((f : ℕ) → pending ≡ some f → lookup m.reply_to st.agent.pending_requests ≡ some f)
      → IsSound st
      → IsSound (record st { agent = (route loads with_task pending m st.agent).1 })
  unfolding route
  route-IsSound (some f) m st found h =
      reply-IsSound f m (st.agent.futures f) st refl (found f refl) h
  route-IsSound none m st found h =
      elim (Bool-cases (text_eq m.type (text "task_response") && truthy m.reply_to)) [
        | inl unasked ↦ rw unasked (mail-IsSound _ st h)
        | inr others ↦ rw others h
      ]

  receive-IsSound :
      (m : Message) (st : Requests)
      → IsSound st
      → IsSound (record st { agent = (on_message loads with_task m st.agent).1 })
  unfolding on_message
  receive-IsSound m st h =
      route-IsSound
        (if truthy m.reply_to then lookup m.reply_to st.agent.pending_requests else none) m st
        (λ f e. ground (arith, e)) h

  pub step-IsSound : (e : Event) (st : Requests) → IsSound st → IsSound (step loads with_task e st)
  unfolding step drain_pending_results
  step-IsSound (opens id) st h = open-IsSound id (is_used id st.agent.allocated st.owner) st refl h
  step-IsSound (sends f) st h =
      move-IsSound f (after_send (st.waiter f)) st (after_send-Eases (st.waiter f)) h
  step-IsSound (fails f) st h = fail-IsSound (st.waiter f) f st refl h
  step-IsSound (receives m) st h = receive-IsSound m st h
  step-IsSound (expires f) st h = expire-IsSound (st.waiter f) f st refl h
  step-IsSound (gives_up f) st h = give_up-IsSound (st.waiter f) f st refl h
  step-IsSound (cancels f) st h = cancel_task-IsSound (st.waiter f) f st refl h
  step-IsSound (returns f) st h =
      move-IsSound f (after_reply (st.waiter f) (st.agent.futures f)) st
        (after_reply-Eases (st.waiter f) (st.agent.futures f)) h
  step-IsSound drains st h = mail-IsSound [] st h

  -- Whatever requests are opened under new ids, whichever sends fail, whatever arrives, times out, is
  -- cancelled or returns, in any order, and however often the mailbox is drained: a pending request
  -- stands under its own id, and its future waits, or it was cancelled and the coroutine has not
  -- forgotten the request; every future that waits is pending; a future that is resolved holds a reply
  -- to its own request; and one that was cancelled before there was a reply stays cancelled.
  pub run-IsSound :
      (es : List Event) (st : Requests) → IsSound st → IsSound (run loads with_task es st)
  unfolding run
  run-IsSound [] st h = h
  run-IsSound (e ∷ es) st h = run-IsSound es (step loads with_task e st) (step-IsSound e st h)
