-- ===== src/Queen/Tasks/Reachable.antt =====
-- The states that a queen reaches from an empty pool by running tasks, by passes of the reaper and by
-- shutting her leads down, one after another.
use hivekernel.Prelude.{ℕ, ◌≡◌, sym, subst, Bool, Bool-cases, inl, inr, List, [], ◌∷◌, keep}
use hivekernel.Prelude.Text.{Text}
use hivekernel.Queen.{Complexity, simple, complex, architect, IdleLead, Queen, QueenState}
use hivekernel.Queen.Leads.{reaper_pass, shutdown_leads}
use hivekernel.Queen.Leads.Pool.{IsOut, NoTwice, reaper_pass_lem}
use hivekernel.Queen.Strategies.Simple.{handle_simple-SimpleRun}
use hivekernel.Queen.Strategies.Architect.{
  KeepsPool, handle_complex-KeepsPool, handle_architect-KeepsPool,
}
use hivekernel.Queen.Tasks.{QueenEnv, dispatch}

IsOut-keep :
    (pid : ℕ) (p : IdleLead → Bool) (ls : List IdleLead) → IsOut pid ls → IsOut pid (keep p ls)
unfolding keep
IsOut-keep pid p [] h = tt
IsOut-keep pid p (l ∷ ls) h = elim (Bool-cases (p l)) [
  | inl kept ↦ rw kept (h.0, IsOut-keep pid p ls h.1)
  | inr dropped ↦ rw dropped (IsOut-keep pid p ls h.1)
]

NoTwice-keep : (p : IdleLead → Bool) (ls : List IdleLead) → NoTwice ls → NoTwice (keep p ls)
unfolding keep
NoTwice-keep p [] h = tt
NoTwice-keep p (l ∷ ls) h = elim (Bool-cases (p l)) [
  | inl kept ↦ rw kept (IsOut-keep l.pid p ls h.0, NoTwice-keep p ls h.1)
  | inr dropped ↦ rw dropped (NoTwice-keep p ls h.1)
]

module _ {W : Type 0} (env : QueenEnv W) where
  pub data Reachable : QueenState W → Type 0 where
    started : (st : QueenState W) → st.agent.idle_leads ≡ [] → Reachable st
    ran :
        (c : Complexity) (description trace_id : Text) (st : QueenState W)
        → Reachable st
        → Reachable (dispatch env c description trace_id st).1
    reaped : (st : QueenState W) → Reachable st → Reachable (reaper_pass env.core st)
    shut_down : (st : QueenState W) → Reachable st → Reachable (shutdown_leads env.core st)

  dispatch-KeepsPool :
      (c : Complexity) (description trace_id : Text)
      → KeepsPool (dispatch env c description trace_id)
  unfolding dispatch
  dispatch-KeepsPool simple description trace_id st h =
      let (_, _, same, _) = handle_simple-SimpleRun env.core description trace_id st in
      subst (λ (q : Queen). NoTwice q.idle_leads) (sym same) h
  dispatch-KeepsPool complex description trace_id st h =
      handle_complex-KeepsPool env.core description trace_id st h
  dispatch-KeepsPool architect description trace_id st h =
      handle_architect-KeepsPool env.core description trace_id st h

  reaper_pass-NoTwice :
      (st : QueenState W)
      → NoTwice st.agent.idle_leads
      → NoTwice (reaper_pass env.core st).agent.idle_leads
  reaper_pass-NoTwice st h =
      subst NoTwice (sym (reaper_pass_lem env.core st).0) (NoTwice-keep _ st.agent.idle_leads h)

  -- From an empty pool no sequence of tasks of any complexity, passes of the reaper and shutdowns, each
  -- run to its end whatever the kernel answers, puts a lead into the pool twice.
  pub Reachable-NoTwice : (st : QueenState W) → Reachable st → NoTwice st.agent.idle_leads
  unfolding shutdown_leads
  Reachable-NoTwice _ (started st e) = subst NoTwice (sym e) tt
  Reachable-NoTwice _ (ran c d t st r) = dispatch-KeepsPool c d t st (Reachable-NoTwice st r)
  Reachable-NoTwice _ (reaped st r) = reaper_pass-NoTwice st (Reachable-NoTwice st r)
  Reachable-NoTwice _ (shut_down st r) = tt
