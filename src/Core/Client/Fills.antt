-- ===== src/Core/Client/Fills.antt =====
-- `CoreClient` and `SyscallContext` as the interface that the agents use. The clock, the ids and the
-- progress reports are no calls of the kernel.
use hivekernel.Prelude.{ℕ, []}
use hivekernel.Prelude.Text.{Text, text}
use hivekernel.Exec.{Result, ok, raised}
use hivekernel.Core.{Core}
use hivekernel.Core.Client.{
  CoreClient, spawn_child, kill_child, get_process_info, execute_task, log, store_artifact,
  get_artifact, send_message, escalate, list_siblings, add_cron,
}

-- What is answered is not looked at.
abbrev pub forget : {A : Type 0} → Result A → Result (Unit {0})
forget (ok a) = ok tt
forget (raised e) = raised e

abbrev pub forgotten : {A W : Type 0} → Result A × W → Result (Unit {0}) × W
forgotten r = (forget r.0, r.1)

module _ {W : Type 0} (client : CoreClient W) (uuid : W → Text × W) (time : W → ℕ) where
  unfoldable pub client_core : Core W
  unfolding spawn_child
  client_core = record {
    spawn_child = λ s. spawn_child client s [];
    kill_child = λ pid w. forgotten (kill_child client pid w);
    get_process_info = get_process_info client;
    execute_task = execute_task client;
    log = λ level message. log client level message [];
    store_artifact = λ key content w. forgotten (store_artifact client key content w);
    get_artifact = get_artifact client;
    send_message = λ s w. forgotten (send_message client s w);
    report_progress = λ message w. (ok tt, w);
    escalate = λ issue. escalate client issue (text "warning");
    list_siblings = list_siblings client;
    add_cron = λ req. add_cron client req (text "execute");
    uuid = uuid;
    time = time;
  }
