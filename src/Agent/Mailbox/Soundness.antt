-- ===== src/Agent/Mailbox/Soundness.antt =====
-- The pending requests of an agent against their futures and coroutines, over any sequence of what can
-- happen to them.
use hivekernel.Prelude.{
  ℕ, zero, suc, ◌<◌, ◌≡◌, ◌≢◌, ◌⊎◌, inl, inr, refl, ap, Bool, true, false, Bool-cases, some, ◌==◌,
  arith,
}
use hivekernel.Prelude.Text.{Text, text_eq_iff, text_eq_refl}
use hivekernel.Prelude.Dict.{lookup, lookup-insert}
use hivekernel.Agent.Mailbox.{
  Message, Future, waiting, resolved, cancelled, new_agent, open_request,
}
use hivekernel.Agent.Mailbox.Requests.{
  Waiter, absent, timed, late, stopped, given_up, Requests, set_owner, is_used, add_request,
}

-- The coroutine's future was cancelled.
abbrev pub is_over : Waiter → Bool
is_over timed = true
is_over stopped = true
is_over given_up = true
is_over w = false

-- The request can be pending though its future was cancelled: the coroutine has yet to forget it, or
-- it was cancelled and never will.
abbrev pub may_pend : Waiter → Bool
may_pend timed = true
may_pend stopped = true
may_pend w = false

abbrev pub Open : Future → Waiter → Type 0
Open future w = (future ≡ waiting) ⊎ ((future ≡ cancelled) × (may_pend w ≡ true))

-- A pending request stands under its own id, and its future waits, or it was cancelled and the
-- coroutine has not forgotten the request; a future that waits is pending; one that is resolved holds
-- a reply to its own request; where the coroutine's time was over or it was cancelled before there was
-- a reply, the future stays cancelled.
pub record IsSound (st : Requests) : Type 0 where
  pub pending_open :
      (id : Text) (f : ℕ)
      → lookup id st.agent.pending_requests ≡ some f
      → (f < st.agent.allocated) × (st.owner f ≡ id) × Open (st.agent.futures f) (st.waiter f)
  pub waiting_pends :
      (f : ℕ)
      → st.agent.futures f ≡ waiting
      → (f < st.agent.allocated) × (lookup (st.owner f) st.agent.pending_requests ≡ some f)
  pub answered :
      (f : ℕ) (m : Message)
      → st.agent.futures f ≡ resolved m
      → (f < st.agent.allocated) × (m.reply_to ≡ st.owner f)
  pub over : (f : ℕ) → is_over (st.waiter f) ≡ true → st.agent.futures f ≡ cancelled
  pub late_done : (f : ℕ) → st.waiter f ≡ late → st.agent.futures f ≢ waiting
  pub known : (f : ℕ) → st.waiter f ≢ absent → f < st.agent.allocated
  pub distinct :
      (f g : ℕ) → f < st.agent.allocated → g < st.agent.allocated → st.owner f ≡ st.owner g → f ≡ g

pub new-IsSound :
    (owner : ℕ → Text) → IsSound (record { agent = new_agent; owner = owner; waiter = λ f. absent })
unfolding new_agent lookup
new-IsSound owner = record {
  pending_open = λ id f h. cc;
  waiting_pends = λ f h. cc;
  answered = λ f m h. cc;
  over = λ f h. cc;
  late_done = λ f h. cc;
  known = λ f h. absurd (h refl);
  distinct = λ f g h. absurd (omega (arith, h));
}

pub unused :
    (id : Text) (n f : ℕ) (owner : ℕ → Text) → is_used id n owner ≡ false → f < n → owner f ≢ id
unused id zero f owner h less = λ e. absurd (omega (arith, less))
unused id (suc n) f owner h less = elim (Bool-cases (f == n)) [
  | inl last ↦
      let same : f ≡ n = ground (arith, last) in
      λ e. ground (arith, h, text_eq_iff (owner n) id, ap owner same, e)
  | inr before ↦ unused id n f owner (ground (arith, h)) (ground (arith, before, less))
]

pub open-IsSound :
    (id : Text) (used : Bool) (st : Requests)
    → is_used id st.agent.allocated st.owner ≡ used
    → IsSound st
    → IsSound (add_request id used st)
unfolding add_request open_request
open-IsSound id true st fresh h = h
open-IsSound id false st fresh h =
    let other = λ (f : ℕ). unused id st.agent.allocated f st.owner fresh in
    record {
      pending_open = λ j f e. ground (
        arith,
        lookup-insert id j st.agent.allocated st.agent.pending_requests,
        text_eq_iff id j,
        h.pending_open j f,
      );
      waiting_pends = λ f e. ground (
        arith,
        lookup-insert id (set_owner st.agent.allocated id st.owner f) st.agent.allocated
            st.agent.pending_requests,
        text_eq_iff id (st.owner f),
        text_eq_refl id,
        h.waiting_pends f,
        other f,
      );
      answered = λ f m e. ground (arith, h.answered f m);
      over = λ f e. ground (arith, h.over f);
      late_done = λ f e. ground (arith, h.late_done f);
      known = λ f e. ground (arith, h.known f);
      distinct = λ f g a b e. ground (arith, h.distinct f g, other f, other g);
    }
