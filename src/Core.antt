-- ===== src/Core.antt =====
-- The kernel as the agents see it: `CoreClient` of sdk/python/hivekernel_sdk/client.py and its
-- counterpart in syscall.py. The kernel itself, behind gRPC, is an interface whose operations answer
-- or raise and change a world of their own. Each operation notes its call, the newest first.
pub mod Samples
pub mod Enums
pub mod Wire
pub mod Client
pub mod Syscalls
mod Witnesses
use hivekernel.Prelude.{ℕ, List, ◌∷◌}
use hivekernel.Prelude.Text.{Text}
use hivekernel.Prelude.Dict.{Dict}
use hivekernel.Exec.{Result, ok, raised, Exec}

-- The arguments of `spawn_child`, without the texts of the prompt.
pub record Spawn : Type 0 where
  pub name : Text
  pub role : Text
  pub cognitive_tier : Text
  pub model : Text
  pub runtime_image : Text

-- What `execute_task` returns.
pub record TaskOutput : Type 0 where
  pub exit_code : ℕ
  pub output : Text
  pub artifacts : Dict Text
  pub metadata : Dict Text

pub record ExecuteRequest : Type 0 where
  pub target_pid : ℕ
  pub description : Text
  pub params : Dict Text
  pub timeout_seconds : ℕ

pub record ProcessInfo : Type 0 where
  pub pid : ℕ
  pub ppid : ℕ
  pub name : Text
  pub state : ℕ
  pub role : ℕ
  pub tokens_consumed : ℕ

-- An entry of `list_siblings`.
pub record Sibling : Type 0 where
  pub pid : ℕ
  pub name : Text
  pub role : Text
  pub state : Text

-- The arguments of `add_cron`.
pub record CronRequest : Type 0 where
  pub name : Text
  pub cron_expression : Text
  pub target_pid : ℕ
  pub description : Text
  pub params : Dict Text

pub record Send : Type 0 where
  pub to_pid : ℕ
  pub type : Text
  pub payload : Text
  pub reply_to : Text

pub record Core (W : Type 0) : Type 0 where
  pub spawn_child : Spawn → W → Result ℕ × W
  pub kill_child : ℕ → W → Result (Unit {0}) × W
  pub get_process_info : ℕ → W → Result ProcessInfo × W
  pub execute_task : ExecuteRequest → W → Result TaskOutput × W
  pub log : Text → Text → W → Result (Unit {0}) × W
  pub store_artifact : Text → Text → W → Result (Unit {0}) × W
  pub get_artifact : Text → W → Result Text × W
  pub send_message : Send → W → Result (Unit {0}) × W
  pub report_progress : Text → W → Result (Unit {0}) × W
  pub escalate : Text → W → Result Text × W
  pub list_siblings : W → Result (List Sibling) × W
  pub add_cron : CronRequest → W → Result Text × W
  pub uuid : W → Text × W
  pub time : W → ℕ

-- A call that was made. A spawn that succeeded is noted with the PID that it gave.
pub data CoreCall : Type 0 where
  spawned : Text → ℕ → CoreCall
  spawn_failed : Text → CoreCall
  killed : ℕ → CoreCall
  inspected : ℕ → CoreCall
  executed : ExecuteRequest → CoreCall
  logged : Text → CoreCall
  stored : Text → CoreCall
  fetched : Text → CoreCall
  sent : Send → CoreCall
  progressed : Text → CoreCall
  escalated : Text → CoreCall
  listed_siblings : CoreCall
  scheduled : CronRequest → CoreCall

pub record Session (A W : Type 0) : Type 0 where
  pub agent : A
  pub world : W
  pub calls : List CoreCall

abbrev pub spawn_note : Text → Result ℕ → CoreCall
spawn_note name (ok pid) = spawned name pid
spawn_note name (raised e) = spawn_failed name

module _ {A W : Type 0} (core : Core W) where
  abbrev perform : {B : Type 0} → CoreCall → (W → Result B × W) → Exec (Session A W) B
  perform call f st =
      let (r, world) = f st.world in (r, record st { world = world; calls = call ∷ st.calls })

  unfoldable pub spawn_child : Spawn → Exec (Session A W) ℕ
  spawn_child req st =
      let (r, world) = core.spawn_child req st.world in
      (r, record st { world = world; calls = spawn_note req.name r ∷ st.calls })

  unfoldable pub kill_child : ℕ → Exec (Session A W) (Unit {0})
  kill_child pid = perform (killed pid) (core.kill_child pid)

  unfoldable pub get_process_info : ℕ → Exec (Session A W) ProcessInfo
  get_process_info pid = perform (inspected pid) (core.get_process_info pid)

  unfoldable pub execute_task : ExecuteRequest → Exec (Session A W) TaskOutput
  execute_task req = perform (executed req) (core.execute_task req)

  unfoldable pub log : Text → Text → Exec (Session A W) (Unit {0})
  log level message = perform (logged level) (core.log level message)

  unfoldable pub store_artifact : Text → Text → Exec (Session A W) (Unit {0})
  store_artifact key content = perform (stored key) (core.store_artifact key content)

  unfoldable pub get_artifact : Text → Exec (Session A W) Text
  get_artifact key = perform (fetched key) (core.get_artifact key)

  unfoldable pub send_message : Send → Exec (Session A W) (Unit {0})
  send_message req = perform (sent req) (core.send_message req)

  unfoldable pub report_progress : Text → Exec (Session A W) (Unit {0})
  report_progress message = perform (progressed message) (core.report_progress message)

  unfoldable pub escalate : Text → Exec (Session A W) Text
  escalate issue = perform (escalated issue) (core.escalate issue)

  unfoldable pub list_siblings : Exec (Session A W) (List Sibling)
  list_siblings = perform listed_siblings core.list_siblings

  unfoldable pub add_cron : CronRequest → Exec (Session A W) Text
  add_cron req = perform (scheduled req) (core.add_cron req)

  -- `str(uuid.uuid4())`
  unfoldable pub uuid : Exec (Session A W) Text
  uuid st = let (id, world) = core.uuid st.world in (ok id, record st { world = world })
