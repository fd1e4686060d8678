-- ===== src/Queen/Leads/Pool.antt =====
-- The pool of idle leads of queen.py: whom `_acquire_lead` gives out, whom the reaper kills, and that
-- no lead stands in the pool twice or while it is given out.
use hivekernel.Prelude.{
  ℕ, ◌≡◌, ◌≢◌, ◌⊎◌, inl, inr, refl, not, true, false, Bool-cases, List, [], ◌∷◌, ◌++◌, arith, keep,
  All, All-append, sym, ap, subst,
}
use hivekernel.Prelude.Text.{text}
use hivekernel.Exec.{Result, ok, raised}
use hivekernel.Core.{
  Core, CoreCall, ProcessInfo, inspected, killed, spawn_note, spawn_child, kill_child,
  get_process_info,
}
use hivekernel.Queen.{IdleLead, Queen, QueenState}
use hivekernel.Queen.Leads.{
  set_leads, lead_spawn, is_alive, acquire_from, acquire_lead, release_lead, is_expired, reap,
  reaper_pass,
}

-- No lead of the pool has the PID.
abbrev pub IsOut : ℕ → List IdleLead → Type 0
IsOut pid leads = All (λ l. l.pid ≢ pid) leads

-- No two leads of the pool have the same PID.
abbrev pub NoTwice : List IdleLead → Type 0
NoTwice [] = Unit
NoTwice (l ∷ ls) = IsOut l.pid ls × NoTwice ls

-- An answer of the kernel that counts as a living lead: the process is idle (0) or running (1).
abbrev pub Lives : Result ProcessInfo → Type 0
Lives (ok info) = (info.state ≡ 0) ⊎ (info.state ≡ 1)
Lives (raised e) = ⊥

-- What a request for a lead gives, when the kernel answers in the worlds of the run, one after the
-- other. The leads of the pool are asked for in order, each in the state that the answer before it
-- left. The first that lives is given out; it and those before it leave the pool, and the rest stays,
-- in its order. If none of them lives the pool is empty and a new lead is asked for.
abbrev pub Acquired :
    {W : Type 0} → Core W → List IdleLead → QueenState W → Result ℕ → QueenState W → Type 0
Acquired core [] before r st =
    (st.agent.idle_leads ≡ []) × (st.calls ≡ spawn_note (text "queen-lead") r ∷ before.calls)
Acquired core (lead ∷ rest) before r st =
    let (answer, asked) = get_process_info core lead.pid (set_leads rest before) in
    (asked.calls ≡ inspected lead.pid ∷ before.calls)
    × ((Lives answer × (r ≡ ok lead.pid) × (st ≡ asked) × (st.agent.idle_leads ≡ rest))
        ⊎ ((¬ Lives answer) × Acquired core rest asked r st))

is_alive-Lives : (r : Result ProcessInfo) → is_alive r ≡ true → Lives r
unfolding is_alive
is_alive-Lives (ok info) h = ground (arith, h)
is_alive-Lives (raised e) h = cc

not-Lives : (r : Result ProcessInfo) → is_alive r ≡ false → ¬ Lives r
unfolding is_alive
not-Lives (ok info) h lives = ground (arith, h, lives)
not-Lives (raised e) h lives = lives

NoTwice-suffix : (xs ys : List IdleLead) → NoTwice (xs ++ ys) → NoTwice ys
NoTwice-suffix [] ys h = h
NoTwice-suffix (x ∷ xs) ys h = NoTwice-suffix xs ys h.1

NoTwice-snoc :
    (ls : List IdleLead) (l : IdleLead) → IsOut l.pid ls → NoTwice ls → NoTwice (ls ++ l ∷ [])
NoTwice-snoc [] l out distinct = (tt, tt)
NoTwice-snoc (k ∷ ls) l out distinct = (
  All-append (λ (i : IdleLead). i.pid ≢ k.pid) ls (l ∷ []) distinct.0 ((λ e. out.0 (sym e)), tt),
  NoTwice-snoc ls l out.1 distinct.1,
)

-- Kills of the leads, in order, in front of earlier calls.
abbrev pub kill_calls : List IdleLead → List CoreCall → List CoreCall
kill_calls [] calls = calls
kill_calls (l ∷ ls) calls = kill_calls ls (killed l.pid ∷ calls)

module _ {W : Type 0} (core : Core W) where
  Acquired-NoTwice :
      (leads : List IdleLead) (before : QueenState W) (r : Result ℕ) (st : QueenState W)
      → Acquired core leads before r st
      → NoTwice leads
      → NoTwice st.agent.idle_leads
  Acquired-NoTwice [] before r st (none_left, asked) distinct = subst NoTwice (sym none_left) tt
  Acquired-NoTwice (lead ∷ rest) before r st (_, inl (_, _, _, left)) distinct =
      subst NoTwice (sym left) distinct.1
  Acquired-NoTwice (lead ∷ rest) before r st (_, inr (_, more)) distinct =
      let (_, asked) = get_process_info core lead.pid (set_leads rest before) in
      Acquired-NoTwice rest asked r st more distinct.1

  Acquired-IsOut :
      (leads : List IdleLead) (before : QueenState W) (r : Result ℕ) (st : QueenState W) (pid : ℕ)
      → Acquired core leads before r st
      → NoTwice leads
      → r ≡ ok pid
      → IsOut pid st.agent.idle_leads
  Acquired-IsOut [] before r st pid (none_left, asked) distinct given =
      subst (IsOut pid) (sym none_left) tt
  Acquired-IsOut (lead ∷ rest) before r st pid (_, inl (_, taken, _, left)) distinct given =
      let same : lead.pid ≡ pid = ground (arith, taken, given) in
      rw left (subst (λ p. IsOut p rest) same distinct.0)
  Acquired-IsOut (lead ∷ rest) before r st pid (_, inr (_, more)) distinct given =
      let (_, asked) = get_process_info core lead.pid (set_leads rest before) in
      Acquired-IsOut rest asked r st pid more distinct.1 given

  acquire_from-Acquired :
      (leads : List IdleLead) (st : QueenState W)
      → Acquired core leads st (acquire_from core leads st).0 (acquire_from core leads st).1
  unfolding acquire_from spawn_child get_process_info
  acquire_from-Acquired [] st = (refl, unfold lead_spawn in refl)
  acquire_from-Acquired (lead ∷ rest) st =
      let (r, st') = get_process_info core lead.pid (set_leads rest st) in
      elim (Bool-cases (is_alive r)) [
        | inl alive ↦ rw alive (refl, inl (is_alive-Lives r alive, refl, refl, refl))
        | inr gone ↦ rw gone (refl, inr (not-Lives r gone, acquire_from-Acquired rest st'))
      ]

  -- The kernel is asked about the leads of the pool in order, up to the first that lives, idle or
  -- running; an exception counts as no. That one is given out, and what is left of the pool is the rest,
  -- in its order. Where none of them lives the pool is empty after the call, whose last request is for
  -- a new lead. A pool without repetitions still has none, and the lead that is given out is not in
  -- what is left.
  pub acquire_lead-IsOut :
      (st : QueenState W)
      → NoTwice st.agent.idle_leads
      → let (r, st') = acquire_lead core st in
        Acquired core st.agent.idle_leads st r st'
        × ((pid : ℕ) → r ≡ ok pid → IsOut pid st'.agent.idle_leads)
        × NoTwice st'.agent.idle_leads
  unfolding acquire_lead
  acquire_lead-IsOut st distinct =
      let leads = st.agent.idle_leads in
      let (r, st') = acquire_from core leads st in
      let found = acquire_from-Acquired leads st in
      (
        found,
        (λ pid h. Acquired-IsOut leads st r st' pid found distinct h),
        Acquired-NoTwice leads st r st' found distinct,
      )

  -- The loop of the reaper keeps those that are not expired and kills the others, in order.
  reap_lem :
      (now : ℕ) (leads : List IdleLead) (st : QueenState W)
      → ((reap core now leads st).0 ≡ keep (λ l. not (is_expired now l)) leads)
        × ((reap core now leads st).1.calls ≡ kill_calls (keep (is_expired now) leads) st.calls)
        × ((reap core now leads st).1.agent ≡ st.agent)
  unfolding reap keep kill_child
  reap_lem now [] st = (refl, refl, refl)
  reap_lem now (lead ∷ rest) st =
      ground (arith, reap_lem now rest st, reap_lem now rest (kill_child core lead.pid st).1)

  -- A pass of the reaper leaves in the pool exactly the leads that have been idle for at most 300
  -- seconds, in their order, and kills each of the others once, in order.
  pub reaper_pass_lem :
      (st : QueenState W)
      → ((reaper_pass core st).agent.idle_leads
          ≡ keep (λ l. not (is_expired (core.time st.world) l)) st.agent.idle_leads)
        × ((reaper_pass core st).calls
            ≡ kill_calls (keep (is_expired (core.time st.world)) st.agent.idle_leads) st.calls)
        × ((reaper_pass core st).agent.task_history ≡ st.agent.task_history)
  unfolding reaper_pass
  reaper_pass_lem st =
      let (kept, calls, agent) = reap_lem (core.time st.world) st.agent.idle_leads st in
      (kept, calls, ap (λ (q : Queen). q.task_history) agent)

  pub release_lead-NoTwice :
      (pid : ℕ) (st : QueenState W)
      → IsOut pid st.agent.idle_leads
      → NoTwice st.agent.idle_leads
      → NoTwice (release_lead core pid st).1.agent.idle_leads
  unfolding release_lead
  release_lead-NoTwice pid st out distinct =
      NoTwice-snoc st.agent.idle_leads (record { pid = pid; idle_since = core.time st.world }) out
        distinct
