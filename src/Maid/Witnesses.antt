-- ===== src/Maid/Witnesses.antt =====
-- Tests of maid.py, and its theorems at a kernel with three processes: PID 1 is the root, PID 2 is a
-- zombie, and PID 3 is a living child of the living PID 9.
use hivekernel.Prelude.{
  ap, Option, none, some, ℕ, ◌≡◌, ◌↔◌, refl, [], ◌==◌, keep, if◌then◌else◌, arith,
}
use hivekernel.Prelude.Text.{text}
use hivekernel.Core.Samples.{quiet}
use hivekernel.Exec.{Result, ok, raised}
use hivekernel.Core.{Core, ProcessInfo, get_process_info}
use hivekernel.Maid.{MaidState, state_of, scan}
use hivekernel.Maid.Orphans.{
  Answers, listed, is_lost, is_child_of_far, scan_exact, scan_false_alarm,
}

abbrev info : (pid ppid state : ℕ) → ProcessInfo
info pid ppid state = record {
  pid = pid;
  ppid = ppid;
  name = text "p";
  state = state;
  role = 5;
  tokens_consumed = 0;
}

abbrev table : ℕ → Option ProcessInfo
table pid =
    if pid == 1
    then some (info pid 0 1)
    else if pid == 2
    then some (info pid 1 5)
    else if pid == 3
    then some (info pid 9 1)
    else if pid == 9
    then some (info pid 1 1)
    else none

abbrev answer : Option ProcessInfo → Result ProcessInfo
answer (some i) = ok i
answer none = raised (text "no such process")

abbrev core : Core ℕ
core = record quiet { get_process_info = λ pid w. (answer (table pid), w) }

core-Answers : Answers core table
core-Answers = record {
  found = λ pid w i h. ap answer h;
  missing = λ pid w h. (_, ap answer h);
  own = λ pid i h. ground (arith, h);
}

abbrev begin : MaidState ℕ
begin = record { agent = record { max_pid_scan = 3 }; world = 12; calls = [] }

test_orphans : (scan core begin).0.orphan_count ≡ 1
unfolding scan keep get_process_info state_of
test_orphans = refl

scan_exact_example :
    let report = (scan core begin).0 in
    let all = listed table 3 1 in
    (report.processes ≡ all)
    × (report.orphans ≡ keep (is_lost all) all)
    × (report.zombies ≡ keep (λ p. p.state == 5) all)
    × ((report.anomalies ≡ []) ↔ ((report.zombies ≡ []) × (report.orphans ≡ [])))
scan_exact_example = scan_exact core table core-Answers begin

scan_false_alarm_example :
    keep (is_child_of_far 3) (scan core begin).0.orphans
    ≡ keep (is_child_of_far 3) (listed table 3 1)
scan_false_alarm_example = scan_false_alarm core table core-Answers begin
