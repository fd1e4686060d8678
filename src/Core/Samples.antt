-- ===== src/Core/Samples.antt =====
-- A concrete kernel, whose world is a clock: every call answers, but no artifact is found.
use hivekernel.Prelude.{ℕ, [], ◌+◌}
use hivekernel.Prelude.Text.{text}
use hivekernel.Exec.{ok, raised}
use hivekernel.Core.{Core}

abbrev pub quiet : Core ℕ
quiet = record {
  spawn_child = λ req w. (ok 9, w);
  kill_child = λ pid w. (ok tt, w);
  get_process_info = λ pid w. (
    ok (record {
      pid = pid;
      ppid = 1;
      name = text "agent";
      state = 1;
      role = 5;
      tokens_consumed = 0;
    }),
    w,
  );
  execute_task = λ req w.
      (ok (record { exit_code = 0; output = text "done"; artifacts = []; metadata = [] }), w + 1);
  log = λ level message w. (ok tt, w);
  store_artifact = λ key content w. (ok tt, w);
  get_artifact = λ key w. (raised (text "not found"), w);
  send_message = λ req w. (ok tt, w);
  report_progress = λ message w. (ok tt, w);
  escalate = λ issue w. (ok (text "noted"), w);
  list_siblings = λ w. (ok [], w);
  add_cron = λ req w. (ok (text "cron-1"), w);
  uuid = λ w. (text "trace-1", w);
  time = λ w. w;
}
