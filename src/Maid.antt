-- ===== src/Maid.antt =====
-- sdk/python/hivekernel_sdk/maid.py: `MaidAgent`, which looks for zombies and orphans in the process
-- table and reports them. The creation and the cancellation of its background task are left out,
-- and so is a maid without a client of the kernel.
pub mod Orphans
mod Witnesses
use hivekernel.Prelude.{
  ℕ, zero, suc, ◌+◌, Bool, true, false, not, ◌&&◌, ◌||◌, Option, none, some, List, [], ◌∷◌, ◌++◌,
  ◌==◌, length, keep, map, if◌then◌else◌,
}
use hivekernel.Prelude.Text.{Text, text, text_eq, join_with, join_lines}
use hivekernel.Prelude.Decimal.{show}
use hivekernel.Exec.{Result, ok, raised, Exec, pure, suppress, continue, ◌>>=◌, ◌>>◌}
use hivekernel.Core.{
  Core, Session, ProcessInfo, TaskOutput, get_process_info, send_message, store_artifact, escalate,
}
use hivekernel.Agent.Mailbox.{Message}

pub record Maid : Type 0 where
  pub max_pid_scan : ℕ

unfoldable pub new_maid : Maid
new_maid = record { max_pid_scan = 200 }

abbrev pub MaidState : Type 0 → Type 0
MaidState W = Session Maid W

pub record Process : Type 0 where
  pub pid : ℕ
  pub ppid : ℕ
  pub name : Text
  pub state : ℕ
  pub role : ℕ
  pub tokens : ℕ

pub record Report : Type 0 where
  pub ts : ℕ
  pub total : ℕ
  pub zombie_count : ℕ
  pub orphan_count : ℕ
  pub zombies : List Process
  pub orphans : List Process
  pub anomalies : List Text
  pub processes : List Process

abbrev pub state_dead : ℕ
state_dead = 4

abbrev pub state_zombie : ℕ
state_zombie = 5

abbrev pub process_of : ProcessInfo → Process
process_of info = record {
  pid = info.pid;
  ppid = info.ppid;
  name = info.name;
  state = info.state;
  role = info.role;
  tokens = info.tokens_consumed;
}

-- The processes that were found, with one more if there is one.
abbrev pub append_found : Result ProcessInfo → List Process → List Process
append_found (ok info) found = process_of info ∷ found
append_found (raised e) found = found

unfoldable pub is_gone : ℕ → Bool
is_gone state = state == state_zombie || state == state_dead

abbrev pub later_or : Option ℕ → Option ℕ → Option ℕ
later_or (some state) earlier = some state
later_or none earlier = earlier

-- `pid_states.get(pid)`: of two processes with one PID the later counts.
unfoldable pub state_of : ℕ → List Process → Option ℕ
state_of pid [] = none
state_of pid (p ∷ ps) = later_or (state_of pid ps) (if p.pid == pid then some p.state else none)

unfoldable pub parent_gone : Option ℕ → Bool
unfolding is_gone
parent_gone none = true
parent_gone (some state) = is_gone state

unfoldable pub is_orphan : List Process → Process → Bool
unfolding parent_gone
is_orphan processes p =
    if p.ppid == 0
    then false
    else if is_gone p.state
    then false
    else parent_gone (state_of p.ppid processes)

listing : Text → List Process → Text
listing what ps =
    show (length ps)
    ++ (what
        ++ join_with (text ", ") (
            map
              (λ (p : Process). text "PID " ++ (show p.pid ++ (text " (" ++ (p.name ++ text ")"))))
              ps))

-- A line of `anomalies`, if there are any such processes.
unfoldable pub anomaly : Text → List Process → List Text
unfolding listing
anomaly what [] = []
anomaly what (p ∷ ps) = listing what (p ∷ ps) ∷ []

-- What `_scan` makes of the processes that it found.
unfoldable pub report_of : ℕ → List Process → Report
unfolding is_orphan anomaly
report_of now processes =
    let zombies = keep (λ (p : Process). p.state == state_zombie) processes in
    let orphans = keep (is_orphan processes) processes in
    record {
      ts = now;
      total = length processes;
      zombie_count = length zombies;
      orphan_count = length orphans;
      zombies = zombies;
      orphans = orphans;
      anomalies = anomaly (text " zombie(s): ") zombies ++ anomaly (text " orphan(s): ") orphans;
      processes = processes;
    }

section : Text → (Process → Text) → List Process → List Text
section what rest [] = []
section what rest (p ∷ ps) =
    (what ++ (show p.pid ++ (text " (" ++ (p.name ++ (rest p ++ text ")"))))) ∷ section what rest ps

anomaly_lines : List Text → List Text
anomaly_lines [] = text "No anomalies detected." ∷ []
anomaly_lines (a ∷ more) = text "Anomalies:" ∷ map (λ line. text "  - " ++ line) (a ∷ more)

-- `clock` is `time.strftime('%H:%M:%S')`.
unfoldable pub format_report : (clock : Text) → Report → Text
unfolding section anomaly_lines
format_report clock report = join_lines (
    text "=== Maid Health Report ==="
    ∷ (text "Time: " ++ clock)
    ∷ (text "Total processes: " ++ show report.total)
    ∷ (text "Zombies: " ++ show report.zombie_count)
    ∷ (text "Orphans: " ++ show report.orphan_count)
    ∷ (section (text "  ZOMBIE: PID ") (λ p. []) report.zombies
        ++ (section (text "  ORPHAN: PID ") (λ p. text ", ppid=" ++ show p.ppid) report.orphans
            ++ anomaly_lines report.anomalies)))

module _ {W : Type 0} (core : Core W) where
  -- The `for` loop over the PIDs, `n` of them from `pid` on.
  unfoldable pub scan_from : (n pid : ℕ) → MaidState W → List Process × MaidState W
  scan_from zero pid st = ([], st)
  scan_from (suc n) pid st =
      let (r, st') = get_process_info core pid st in
      let (found, st'') = scan_from n (pid + 1) st' in (append_found r found, st'')

  unfoldable pub scan : MaidState W → Report × MaidState W
  unfolding scan_from report_of
  scan st =
      let (processes, st') = scan_from st.agent.max_pid_scan 1 st in
      (report_of (core.time st'.world) processes, st')

  module _ (clock : W → Text) (dump_report : Report → Text) where
    unfoldable pub handle_task : MaidState W → TaskOutput × MaidState W
    handle_task st =
        let (report, st') = scan st in
        (
          record {
            exit_code = 0;
            output = format_report (clock st'.world) report;
            artifacts = [];
            metadata = [];
          },
          st',
        )

    -- The answer to a cron task. Other messages are the base class's.
    unfoldable pub handle_cron : Message → Exec (MaidState W) (Unit {0})
    handle_cron message st =
        let (report, st') = scan st in
        suppress
          (send_message core (record {
            to_pid = message.from_pid;
            type = text "cron_result";
            payload = format_report (clock st'.world) report;
            reply_to = message.message_id;
          }))
          st'

    unfoldable pub handle_message : Message → Exec (MaidState W) (Unit {0})
    unfolding handle_cron
    handle_message message =
        if text_eq message.type (text "cron_task") then handle_cron message else pure tt

    escalate_anomalies : List Text → Exec (MaidState W) (Unit {0})
    escalate_anomalies [] = pure tt
    escalate_anomalies (a ∷ more) =
        suppress (escalate core (text "Maid health alert: " ++ join_with (text "; ") (a ∷ more)))

    -- One turn of `_health_loop`.
    unfoldable pub health_check : Exec (MaidState W) (Unit {0})
    unfolding escalate_anomalies
    health_check st =
        let (report, st') = scan st in
        (suppress (store_artifact core (text "maid/health-report") (dump_report report))
            >> escalate_anomalies report.anomalies)
          st'
