-- ===== src/Queen/Leads.antt =====
-- sdk/python/hivekernel_sdk/queen.py: `_acquire_lead`, `_release_lead`, one pass of `_lead_reaper` and
-- the end of `on_shutdown`, each as it runs when no other task is interleaved.
pub mod Pool
pub mod Race
use hivekernel.Prelude.{
  ℕ, ◌-◌, Bool, true, false, ◌||◌, List, [], ◌∷◌, ◌++◌, ltb, ◌==◌, if◌then◌else◌,
}
use hivekernel.Prelude.Text.{Text, text}
use hivekernel.Exec.{Result, ok, raised, Exec, pure, suppress, modify, continue, ◌>>=◌, ◌>>◌}
use hivekernel.Core.{Core, Session, Spawn, ProcessInfo, spawn_child, kill_child, get_process_info}
use hivekernel.Queen.{IdleLead, Queen, QueenState, lead_idle_timeout}

abbrev pub set_leads : {W : Type 0} → List IdleLead → QueenState W → QueenState W
set_leads leads st = record st { agent = record st.agent { idle_leads = leads } }

unfoldable pub lead_spawn : Spawn
lead_spawn = record {
  name = text "queen-lead";
  role = text "lead";
  cognitive_tier = text "tactical";
  model = text "sonnet";
  runtime_image = text "hivekernel_sdk.orchestrator:OrchestratorAgent";
}

-- `info.state in (0, 1)`, where a call that raises counts as no.
unfoldable pub is_alive : Result ProcessInfo → Bool
is_alive (ok info) = info.state == 0 || info.state == 1
is_alive (raised e) = false

-- `now - t > _LEAD_IDLE_TIMEOUT`
unfoldable pub is_expired : ℕ → IdleLead → Bool
is_expired now lead = ltb lead_idle_timeout (now - lead.idle_since)

module _ {W : Type 0} (core : Core W) where
  -- The `while` loop: leads are popped until one is alive; when none is left a new one is spawned.
  unfoldable pub acquire_from : List IdleLead → Exec (QueenState W) ℕ
  acquire_from [] st = spawn_child core lead_spawn (set_leads [] st)
  acquire_from (lead ∷ rest) st =
      let (r, st') = get_process_info core lead.pid (set_leads rest st) in
      let next = acquire_from rest st' in if is_alive r then (ok lead.pid, st') else next

  unfoldable pub acquire_lead : Exec (QueenState W) ℕ
  unfolding acquire_from
  acquire_lead st = acquire_from st.agent.idle_leads st

  unfoldable pub release_lead : ℕ → Exec (QueenState W) (Unit {0})
  release_lead pid st =
      let lead : IdleLead = record { pid = pid; idle_since = core.time st.world } in
      (ok tt, set_leads (st.agent.idle_leads ++ lead ∷ []) st)

  -- The `for` loop of the reaper: the leads that stay, and the state after the kills.
  unfoldable pub reap : ℕ → List IdleLead → QueenState W → List IdleLead × QueenState W
  unfolding is_expired
  reap now [] st = ([], st)
  reap now (lead ∷ rest) st =
      let (_, st') = kill_child core lead.pid st in
      let (kept_after_kill, end_after_kill) = reap now rest st' in
      let (kept, end) = reap now rest st in
      if is_expired now lead then (kept_after_kill, end_after_kill) else (lead ∷ kept, end)

  unfoldable pub reaper_pass : QueenState W → QueenState W
  unfolding reap
  reaper_pass st =
      let (still_idle, st') = reap (core.time st.world) st.agent.idle_leads st in
      set_leads still_idle st'

  unfoldable pub kill_all : List IdleLead → QueenState W → QueenState W
  kill_all [] st = st
  kill_all (lead ∷ rest) st = kill_all rest (kill_child core lead.pid st).1

  unfoldable pub shutdown_leads : QueenState W → QueenState W
  unfolding kill_all
  shutdown_leads st = set_leads [] (kill_all st.agent.idle_leads st)
