-- ===== src/Agent/Mailbox/Bystanders.antt =====
-- A request whose send failed, while requests are opened and other coroutines move: it stays pending.
use hivekernel.Prelude.{
  ap, ◌∙◌, ℕ, ◌≡◌, ◌≢◌, sym, inl, inr, Bool, true, false, Bool-cases, ◌==◌, some, arith,
}
use hivekernel.Prelude.Text.{Text, text_eq_iff}
use hivekernel.Prelude.Dict.{lookup, lookup-insert, lookup-remove}
use hivekernel.Agent.Mailbox.{open_request, cancel_wait, leave, timed_out}
use hivekernel.Agent.Mailbox.Requests.{
  Waiter, absent, sending, awaiting, failed, timed, late, stopped, given_up, ended, Requests,
  is_used, set_waiter, add_request, fail, expire, give_up, cancel_task,
}
use hivekernel.Agent.Mailbox.Soundness.{IsSound, unused}

-- The request is pending, and its coroutine ended when the send failed.
abbrev pub Leaked : Text → ℕ → Requests → Type 0
Leaked id f st = (lookup id st.agent.pending_requests ≡ some f) × (st.waiter f ≡ failed)

pub add-Leaked :
    (j : Text) (used : Bool) (st : Requests) (id : Text) (f : ℕ)
    → is_used j st.agent.allocated st.owner ≡ used
    → IsSound st
    → Leaked id f st
    → Leaked id f (add_request j used st)
unfolding add_request open_request
add-Leaked j true st id f fresh h leaked = leaked
add-Leaked j false st id f fresh h (found, w) =
    let (bound, own, _) = h.pending_open id f found in
    let other = unused j st.agent.allocated f st.owner fresh bound in
    (
      ground (
        arith,
        lookup-insert j id st.agent.allocated st.agent.pending_requests,
        text_eq_iff j id,
        found,
        own,
        other,
      ),
      ground (arith, bound, w),
    )

-- A step of another coroutine.
beside :
    (g f : ℕ) (w v : Waiter) (waiter : ℕ → Waiter)
    → waiter g ≡ v
    → v ≢ failed
    → waiter f ≡ failed
    → set_waiter g w waiter f ≡ failed
beside g f w v waiter e other is = elim (Bool-cases (f == g)) [
  | inl here ↦
      let same : f ≡ g = ground (arith, here) in absurd (other (sym e ∙ ap waiter (sym same) ∙ is))
  | inr away ↦ rw away is
]

forgotten :
    (g : ℕ) (v : Waiter) (st : Requests) (id : Text) (f : ℕ)
    → st.waiter g ≡ v
    → v ≢ failed
    → v ≢ absent
    → IsSound st
    → Leaked id f st
    → lookup id (leave timed_out (st.owner g) st.agent).pending_requests ≡ some f
unfolding leave
forgotten g v st id f e other there h (found, w) =
    let (bound, own, _) = h.pending_open id f found in
    let away : g ≢ f = λ p. other (sym e ∙ ap st.waiter p ∙ w) in
    ground (
      arith,
      found,
      own,
      away,
      h.distinct g f (h.known g (λ p. there (sym e ∙ p))) bound,
      lookup-remove (st.owner g) id st.agent.pending_requests,
      text_eq_iff (st.owner g) id,
    )

module _ (id : Text) (f : ℕ) where
  pub fail-Leaked :
      (v : Waiter) (g : ℕ) (st : Requests)
      → st.waiter g ≡ v
      → Leaked id f st
      → Leaked id f (fail v g st)
  unfolding fail leave
  fail-Leaked sending g st e (found, w) = (found, beside g f failed sending st.waiter e (λ p. cc) w)
  fail-Leaked absent g st e leaked = leaked
  fail-Leaked awaiting g st e leaked = leaked
  fail-Leaked failed g st e leaked = leaked
  fail-Leaked timed g st e leaked = leaked
  fail-Leaked late g st e leaked = leaked
  fail-Leaked stopped g st e leaked = leaked
  fail-Leaked given_up g st e leaked = leaked
  fail-Leaked ended g st e leaked = leaked

  pub expire-Leaked :
      (v : Waiter) (g : ℕ) (st : Requests)
      → st.waiter g ≡ v
      → Leaked id f st
      → Leaked id f (expire v g st)
  unfolding expire cancel_wait
  expire-Leaked awaiting g st e (found, w) = (found, beside g f _ awaiting st.waiter e (λ p. cc) w)
  expire-Leaked absent g st e leaked = leaked
  expire-Leaked sending g st e leaked = leaked
  expire-Leaked failed g st e leaked = leaked
  expire-Leaked timed g st e leaked = leaked
  expire-Leaked late g st e leaked = leaked
  expire-Leaked stopped g st e leaked = leaked
  expire-Leaked given_up g st e leaked = leaked
  expire-Leaked ended g st e leaked = leaked

  pub cancel_task-Leaked :
      (v : Waiter) (g : ℕ) (st : Requests)
      → st.waiter g ≡ v
      → Leaked id f st
      → Leaked id f (cancel_task v g st)
  unfolding cancel_task cancel_wait leave
  cancel_task-Leaked awaiting g st e (found, w) =
      (found, beside g f _ awaiting st.waiter e (λ p. cc) w)
  cancel_task-Leaked absent g st e leaked = leaked
  cancel_task-Leaked sending g st e leaked = leaked
  cancel_task-Leaked failed g st e leaked = leaked
  cancel_task-Leaked timed g st e leaked = leaked
  cancel_task-Leaked late g st e leaked = leaked
  cancel_task-Leaked stopped g st e leaked = leaked
  cancel_task-Leaked given_up g st e leaked = leaked
  cancel_task-Leaked ended g st e leaked = leaked

  pub give_up-Leaked :
      (v : Waiter) (g : ℕ) (st : Requests)
      → st.waiter g ≡ v
      → IsSound st
      → Leaked id f st
      → Leaked id f (give_up v g st)
  unfolding give_up
  give_up-Leaked timed g st e h leaked = (
    forgotten g timed st id f e (λ p. cc) (λ p. cc) h leaked,
    beside g f given_up timed st.waiter e (λ p. cc) leaked.1,
  )
  give_up-Leaked late g st e h leaked = (
    forgotten g late st id f e (λ p. cc) (λ p. cc) h leaked,
    beside g f ended late st.waiter e (λ p. cc) leaked.1,
  )
  give_up-Leaked absent g st e h leaked = leaked
  give_up-Leaked sending g st e h leaked = leaked
  give_up-Leaked awaiting g st e h leaked = leaked
  give_up-Leaked failed g st e h leaked = leaked
  give_up-Leaked stopped g st e h leaked = leaked
  give_up-Leaked given_up g st e h leaked = leaked
  give_up-Leaked ended g st e h leaked = leaked

-- A coroutine whose send failed moves no more.
pub stays :
    (g f : ℕ) (w : Waiter) (waiter : ℕ → Waiter)
    → (waiter g ≡ failed → w ≡ failed)
    → waiter f ≡ failed
    → set_waiter g w waiter f ≡ failed
stays g f w waiter still is = elim (Bool-cases (f == g)) [
  | inl here ↦
      let same : f ≡ g = ground (arith, here) in rw here (still (ap waiter (sym same) ∙ is))
  | inr away ↦ rw away is
]
