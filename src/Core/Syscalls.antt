-- ===== src/Core/Syscalls.antt =====
-- sdk/python/hivekernel_sdk/syscall.py: the syscalls of `SyscallContext`. Each builds a call, waits for
-- its result and looks at the answer to it. The stream that carries the call is a parameter here.
use hivekernel.Prelude.{ℕ, true, false, List, []}
use hivekernel.Prelude.Text.{Text, text}
use hivekernel.Prelude.Dict.{Dict, insert}
use hivekernel.Exec.{Result}
use hivekernel.Core.{Spawn, TaskOutput, ExecuteRequest, Sibling, Send}
use hivekernel.Core.Wire.{
  SpawnRequest, SpawnResponse, KillRequest, KillResponse, SendMessageRequest, SendMessageResponse,
  StoreArtifactRequest, StoreArtifactResponse, GetArtifactRequest, GetArtifactResponse,
  EscalateRequest, LogRequest, ExecuteTaskRequest, ExecuteTaskResponse, WaitChildRequest,
  WaitChildResponse, Exited,
}
use hivekernel.Core.Client.{
  checked, spawn_request, send_request, escalate_request, log_request, child_of, killed_of,
  message_of, artifact_of, content_of, exited_of,
}

pub data SystemCall : Type 0 where
  spawn : SpawnRequest → SystemCall
  kill : KillRequest → SystemCall
  send : SendMessageRequest → SystemCall
  list_siblings : SystemCall
  store : StoreArtifactRequest → SystemCall
  get_artifact : GetArtifactRequest → SystemCall
  escalate : EscalateRequest → SystemCall
  log : LogRequest → SystemCall
  execute_on : (task_id : Text) → ExecuteTaskRequest → SystemCall
  wait_child : WaitChildRequest → SystemCall

pub data SyscallResult : Type 0 where
  spawned : SpawnResponse → SyscallResult
  killed : KillResponse → SyscallResult
  sent : SendMessageResponse → SyscallResult
  siblings : List Sibling → SyscallResult
  stored : StoreArtifactResponse → SyscallResult
  artifact : GetArtifactResponse → SyscallResult
  escalated : Text → SyscallResult
  logged : SyscallResult
  executed : ExecuteTaskResponse → SyscallResult
  exited : WaitChildResponse → SyscallResult

-- A field of a message that holds another one reads as a message of default values.
abbrev pub spawn_of : SyscallResult → SpawnResponse
spawn_of (spawned r) = r
spawn_of r = record { success = false; error = []; child_pid = 0 }

abbrev pub kill_of : SyscallResult → KillResponse
kill_of (killed r) = r
kill_of r = record { success = false; error = []; killed_pids = [] }

abbrev pub send_of : SyscallResult → SendMessageResponse
send_of (sent r) = r
send_of r = record { delivered = false; error = []; message_id = [] }

abbrev pub siblings_of : SyscallResult → List Sibling
siblings_of (siblings ss) = ss
siblings_of r = []

abbrev pub store_of : SyscallResult → StoreArtifactResponse
store_of (stored r) = r
store_of r = record { success = false; error = []; artifact_id = [] }

abbrev pub get_of : SyscallResult → GetArtifactResponse
get_of (artifact r) = r
get_of r = record { found = false; error = []; content = [] }

abbrev pub response_of : SyscallResult → Text
response_of (escalated s) = s
response_of r = []

abbrev no_output : TaskOutput
no_output = record { exit_code = 0; output = []; artifacts = []; metadata = [] }

abbrev pub execute_of : SyscallResult → ExecuteTaskResponse
execute_of (executed r) = r
execute_of r = record { success = false; error = []; result = no_output }

abbrev pub wait_of : SyscallResult → WaitChildResponse
wait_of (exited r) = r
wait_of r = record { success = false; error = []; pid = 0; exit_code = 0; output = [] }

-- `_do_syscall` from the id of the call to its result, and the drawing of ids.
pub record Link (W : Type 0) : Type 0 where
  pub do_syscall : (call_id : Text) → SystemCall → W → SyscallResult × W
  pub uuid : W → Text × W

module _ {W : Type 0} (link : Link W) where
  abbrev call_of : {A : Type 0} → (SyscallResult → A) → SystemCall → W → A × W
  call_of f call w =
      let (id, w1) = link.uuid w in let (r, w2) = link.do_syscall id call w1 in (f r, w2)

  unfoldable pub context_spawn : Spawn → (system_prompt : Text) → W → Result ℕ × W
  context_spawn s system_prompt =
      call_of (λ r. child_of (spawn_of r)) (spawn (spawn_request s system_prompt))

  unfoldable pub context_kill : ℕ → W → Result (List ℕ) × W
  context_kill pid =
      call_of (λ r. killed_of (kill_of r)) (kill (record { target_pid = pid; recursive = true }))

  unfoldable pub context_send : Send → W → Result Text × W
  context_send s = call_of (λ r. message_of (send_of r)) (send (send_request s))

  unfoldable pub context_list_siblings : W → List Sibling × W
  context_list_siblings = call_of siblings_of list_siblings

  unfoldable pub context_store_artifact : (key content : Text) → W → Result Text × W
  context_store_artifact key content =
      call_of (λ r. artifact_of (store_of r))
        (store (record {
          key = key;
          content = content;
          content_type = text "text/plain";
          visibility = 3;
        }))

  unfoldable pub context_get_artifact : (key : Text) → W → Result Text × W
  context_get_artifact key =
      call_of (λ r. content_of (get_of r)) (get_artifact (record { key = key; artifact_id = [] }))

  unfoldable pub context_escalate : (issue severity : Text) → W → Text × W
  context_escalate issue severity = call_of response_of (escalate (escalate_request issue severity))

  unfoldable pub context_log : (level message : Text) → Dict Text → W → Unit {0} × W
  context_log level message fields = call_of (λ r. tt) (log (log_request level message fields))

  -- The id of the call is drawn before that of the task.
  unfoldable pub context_execute_on : ExecuteRequest → W → Result TaskOutput × W
  context_execute_on req w =
      let (id, w1) = link.uuid w in
      let (task_id, w2) = link.uuid w1 in
      let (r, w3) =
        link.do_syscall id
          (execute_on task_id (record {
            target_pid = req.target_pid;
            description = req.description;
            params = req.params;
            timeout_seconds = req.timeout_seconds;
          }))
          w2 in
      let resp = execute_of r in
      (checked (text "execute_on failed") resp.success resp.error resp.result, w3)

  unfoldable pub context_wait_child : (pid timeout_seconds : ℕ) → W → Result Exited × W
  context_wait_child pid timeout_seconds =
      call_of (λ r. exited_of (wait_of r))
        (wait_child (record { target_pid = pid; timeout_seconds = timeout_seconds }))

  unfoldable pub context_log_event : (event_type message : Text) → Dict Text → W → Unit {0} × W
  unfolding context_log
  context_log_event event_type message fields =
      context_log (text "info") message (insert (text "event_type") event_type fields)
