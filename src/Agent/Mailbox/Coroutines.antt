-- ===== src/Agent/Mailbox/Coroutines.antt =====
-- The steps of the coroutines that wait for replies leave the requests sound.
use hivekernel.Prelude.{ℕ, ◌<◌, ◌≡◌, ◌≢◌, refl, true, false, arith}
use hivekernel.Prelude.Text.{text_eq_iff}
use hivekernel.Prelude.Dict.{remove, lookup-remove}
use hivekernel.Agent.Mailbox.{Future, waiting, resolved, cancelled, cancel, leave, cancel_wait}
use hivekernel.Agent.Mailbox.Requests.{
  Waiter, absent, sending, awaiting, failed, timed, late, stopped, given_up, ended, Requests,
  set_waiter, after_send, fail, after_timer, expire, give_up, after_cancel, cancel_task,
  after_reply,
}
use hivekernel.Agent.Mailbox.Soundness.{is_over, may_pend, IsSound}

-- The coroutine moves on and nothing else changes.
abbrev pub Eases : Waiter → Waiter → Type 0
Eases w w' =
    (w' ≢ absent → w ≢ absent)
    × (is_over w' ≡ true → is_over w ≡ true)
    × (w' ≡ late → w ≡ late)
    × (may_pend w ≡ true → may_pend w' ≡ true)

same-Eases : (w : Waiter) → Eases w w
same-Eases w = ((λ h. h), (λ h. h), (λ h. h), (λ h. h))

pub move-IsSound :
    (f : ℕ) (w : Waiter) (st : Requests)
    → Eases (st.waiter f) w
    → IsSound st
    → IsSound (record st { waiter = set_waiter f w st.waiter })
move-IsSound f w st eases h = record {
  pending_open = λ j g e. ground (arith, h.pending_open j g e, eases);
  waiting_pends = h.waiting_pends;
  answered = h.answered;
  over = λ g e. ground (arith, h.over g, eases);
  late_done = λ g e. ground (arith, h.late_done g, eases);
  known = λ g e. ground (arith, h.known g, eases);
  distinct = h.distinct;
}

pub after_send-Eases : (w : Waiter) → Eases w (after_send w)
after_send-Eases absent = same-Eases absent
after_send-Eases sending = (λ h. cc, λ h. cc, λ h. cc, λ h. cc)
after_send-Eases awaiting = same-Eases awaiting
after_send-Eases failed = same-Eases failed
after_send-Eases timed = same-Eases timed
after_send-Eases late = same-Eases late
after_send-Eases stopped = same-Eases stopped
after_send-Eases given_up = same-Eases given_up
after_send-Eases ended = same-Eases ended

pub after_reply-Eases : (w : Waiter) (future : Future) → Eases w (after_reply w future)
after_reply-Eases awaiting (resolved m) = (λ h. cc, λ h. cc, λ h. cc, λ h. cc)
after_reply-Eases awaiting waiting = same-Eases awaiting
after_reply-Eases awaiting cancelled = same-Eases awaiting
after_reply-Eases absent future = same-Eases absent
after_reply-Eases sending future = same-Eases sending
after_reply-Eases failed future = same-Eases failed
after_reply-Eases timed future = same-Eases timed
after_reply-Eases late future = same-Eases late
after_reply-Eases stopped future = same-Eases stopped
after_reply-Eases given_up future = same-Eases given_up
after_reply-Eases ended future = same-Eases ended

pub fail-IsSound :
    (w : Waiter) (f : ℕ) (st : Requests) → st.waiter f ≡ w → IsSound st → IsSound (fail w f st)
unfolding fail leave
fail-IsSound sending f st e h =
    move-IsSound f failed st (rw e (λ h. cc, λ h. cc, λ h. cc, λ h. cc)) h
fail-IsSound absent f st e h = h
fail-IsSound awaiting f st e h = h
fail-IsSound failed f st e h = h
fail-IsSound timed f st e h = h
fail-IsSound late f st e h = h
fail-IsSound stopped f st e h = h
fail-IsSound given_up f st e h = h
fail-IsSound ended f st e h = h

-- Where a coroutine is after what it waited for was cancelled.
abbrev Cut : Future → Waiter → Type 0
Cut (resolved m) w = (is_over w ≡ false) × (w ≢ absent)
Cut waiting w = (may_pend w ≡ true) × (w ≢ late)
Cut cancelled w = (may_pend w ≡ true) × (w ≢ late)

after_timer-Cut : (future : Future) → Cut future (after_timer future)
after_timer-Cut waiting = (refl, λ p. cc)
after_timer-Cut (resolved m) = (refl, λ p. cc)
after_timer-Cut cancelled = (refl, λ p. cc)

after_cancel-Cut : (future : Future) → Cut future (after_cancel future)
after_cancel-Cut waiting = (refl, λ p. cc)
after_cancel-Cut (resolved m) = (refl, λ p. cc)
after_cancel-Cut cancelled = (refl, λ p. cc)

cancel_wait-IsSound :
    (f : ℕ) (future : Future) (w : Waiter) (st : Requests)
    → st.agent.futures f ≡ future
    → f < st.agent.allocated
    → Cut future w
    → IsSound st
    → IsSound (record st { agent = cancel_wait f st.agent; waiter = set_waiter f w st.waiter })
unfolding cancel_wait cancel
cancel_wait-IsSound f waiting w st e bound cut h = record {
  pending_open = λ j g p. ground (arith, h.pending_open j g p, cut, e);
  waiting_pends = λ g p. ground (arith, h.waiting_pends g, e);
  answered = λ g m p. ground (arith, h.answered g m, e);
  over = λ g p. ground (arith, h.over g, e);
  late_done = λ g p. ground (arith, h.late_done g, cut, e);
  known = λ g p. ground (arith, h.known g, bound);
  distinct = h.distinct;
}
cancel_wait-IsSound f (resolved n) w st e bound cut h = record {
  pending_open = λ j g p. ground (arith, h.pending_open j g p, cut, e);
  waiting_pends = λ g p. ground (arith, h.waiting_pends g, e);
  answered = λ g m p. ground (arith, h.answered g m, e);
  over = λ g p. ground (arith, h.over g, cut, e);
  late_done = λ g p. ground (arith, h.late_done g, e);
  known = λ g p. ground (arith, h.known g, bound);
  distinct = h.distinct;
}
cancel_wait-IsSound f cancelled w st e bound cut h = record {
  pending_open = λ j g p. ground (arith, h.pending_open j g p, cut, e);
  waiting_pends = λ g p. ground (arith, h.waiting_pends g, e);
  answered = λ g m p. ground (arith, h.answered g m, e);
  over = λ g p. ground (arith, h.over g, e);
  late_done = λ g p. ground (arith, h.late_done g, cut, e);
  known = λ g p. ground (arith, h.known g, bound);
  distinct = h.distinct;
}

pub expire-IsSound :
    (w : Waiter) (f : ℕ) (st : Requests) → st.waiter f ≡ w → IsSound st → IsSound (expire w f st)
unfolding expire
expire-IsSound awaiting f st e h =
    let future = st.agent.futures f in
    cancel_wait-IsSound f future (after_timer future) st refl (h.known f (rw e (λ p. cc)))
      (after_timer-Cut future) h
expire-IsSound absent f st e h = h
expire-IsSound sending f st e h = h
expire-IsSound failed f st e h = h
expire-IsSound timed f st e h = h
expire-IsSound late f st e h = h
expire-IsSound stopped f st e h = h
expire-IsSound given_up f st e h = h
expire-IsSound ended f st e h = h

pub cancel_task-IsSound :
    (w : Waiter) (f : ℕ) (st : Requests)
    → st.waiter f ≡ w
    → IsSound st
    → IsSound (cancel_task w f st)
unfolding cancel_task leave
cancel_task-IsSound awaiting f st e h =
    let future = st.agent.futures f in
    cancel_wait-IsSound f future (after_cancel future) st refl (h.known f (rw e (λ p. cc)))
      (after_cancel-Cut future) h
cancel_task-IsSound absent f st e h = h
cancel_task-IsSound sending f st e h = h
cancel_task-IsSound failed f st e h = h
cancel_task-IsSound timed f st e h = h
cancel_task-IsSound late f st e h = h
cancel_task-IsSound stopped f st e h = h
cancel_task-IsSound given_up f st e h = h
cancel_task-IsSound ended f st e h = h

-- A coroutine whose future waits no more forgets its request.
forget-IsSound :
    (f : ℕ) (w : Waiter) (st : Requests)
    → f < st.agent.allocated
    → st.agent.futures f ≢ waiting
    → (is_over w ≡ true → is_over (st.waiter f) ≡ true)
    → w ≢ late
    → IsSound st
    → IsSound (record st {
      agent = record st.agent { pending_requests = remove (st.owner f) st.agent.pending_requests };
      waiter = set_waiter f w st.waiter;
    })
forget-IsSound f w st bound done over not_late h = record {
  pending_open = λ j g e. ground (
    arith,
    lookup-remove (st.owner f) j st.agent.pending_requests,
    text_eq_iff (st.owner f) j,
    h.pending_open j g,
  );
  waiting_pends = λ g e. ground (
    arith,
    lookup-remove (st.owner f) (st.owner g) st.agent.pending_requests,
    text_eq_iff (st.owner f) (st.owner g),
    h.waiting_pends g,
    h.distinct f g bound,
    done,
  );
  answered = h.answered;
  over = λ g e. ground (arith, h.over g, over);
  late_done = λ g e. ground (arith, h.late_done g, not_late);
  known = λ g e. ground (arith, h.known g, bound);
  distinct = h.distinct;
}

pub give_up-IsSound :
    (w : Waiter) (f : ℕ) (st : Requests) → st.waiter f ≡ w → IsSound st → IsSound (give_up w f st)
unfolding give_up leave
give_up-IsSound timed f st e h =
    let is : st.agent.futures f ≡ cancelled = h.over f (rw e refl) in
    forget-IsSound f given_up st (h.known f (rw e (λ p. cc))) (λ p. cc) (λ p. rw e refl) (λ p. cc) h
give_up-IsSound late f st e h =
    forget-IsSound f ended st (h.known f (rw e (λ p. cc))) (h.late_done f e) (λ p. cc) (λ p. cc) h
give_up-IsSound absent f st e h = h
give_up-IsSound sending f st e h = h
give_up-IsSound awaiting f st e h = h
give_up-IsSound failed f st e h = h
give_up-IsSound stopped f st e h = h
give_up-IsSound given_up f st e h = h
give_up-IsSound ended f st e h = h
