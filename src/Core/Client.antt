-- ===== src/Core/Client.antt =====
-- sdk/python/hivekernel_sdk/client.py: `CoreClient` over the generated gRPC stub, which is a parameter. A
-- request carries the PID of the client, and may raise. Metrics, whose values are floats, the limits, the
-- tools and the first task of a child, and a message to a queue are left out.
pub mod Fills
use hivekernel.Prelude.{ℕ, Bool, true, false, List, [], ◌∷◌, ◌++◌, if◌then◌else◌}
use hivekernel.Prelude.Text.{Text, text, truthy}
use hivekernel.Prelude.Dict.{Dict, lookup_or}
use hivekernel.Exec.{Result, ok, raised}
use hivekernel.Core.{
  Core, Spawn, TaskOutput, ExecuteRequest, ProcessInfo, Sibling, CronRequest, Send,
}
use hivekernel.Core.Enums.{role_to_proto, cog_to_proto, priority_to_proto}
use hivekernel.Core.Wire.{
  SpawnRequest, SpawnResponse, KillRequest, KillResponse, SendMessageRequest, SendMessageResponse,
  StoreArtifactRequest, StoreArtifactResponse, GetArtifactRequest, GetArtifactResponse,
  EscalateRequest, LogRequest, ExecuteTaskRequest, ExecuteTaskResponse, WaitChildRequest,
  WaitChildResponse, AddCronRequest, AddCronResponse, RemoveCronResponse, CronEntry, ResourceUsage,
  ResourceRequest, Grant, Exited,
}

-- A call of the stub: the PID in its metadata, and the request.
abbrev pub Rpc : Type 0 → Type 0 → Type 0 → Type 0
Rpc W Q R = (pid : ℕ) → Q → W → Result R × W

pub record Stub (W : Type 0) : Type 0 where
  pub spawn_child : Rpc W SpawnRequest SpawnResponse
  pub kill_child : Rpc W KillRequest KillResponse
  pub get_process_info : Rpc W ℕ ProcessInfo
  pub list_children : Rpc W Bool (List ProcessInfo)
  pub execute_task : Rpc W ExecuteTaskRequest ExecuteTaskResponse
  pub send_message : Rpc W SendMessageRequest SendMessageResponse
  pub store_artifact : Rpc W StoreArtifactRequest StoreArtifactResponse
  pub get_artifact : Rpc W GetArtifactRequest GetArtifactResponse
  pub list_artifacts : Rpc W Text (List Text)
  pub get_resource_usage : Rpc W (Unit {0}) ResourceUsage
  pub request_resources : Rpc W ResourceRequest Grant
  pub escalate : Rpc W EscalateRequest Text
  pub log : Rpc W LogRequest (Unit {0})
  pub list_siblings : Rpc W (Unit {0}) (List Sibling)
  pub wait_child : Rpc W WaitChildRequest WaitChildResponse
  pub add_cron : Rpc W AddCronRequest AddCronResponse
  pub remove_cron : Rpc W Text RemoveCronResponse
  pub list_cron : Rpc W (Unit {0}) (List CronEntry)

-- `CoreClient._pid`, as the metadata of each request has it.
pub record CoreClient (W : Type 0) : Type 0 where
  pub stub : Stub W
  pub pid : ℕ

-- `if not resp.success: raise RuntimeError(f"{what}: {resp.error}")`
abbrev pub checked : {A : Type 0} → (what : Text) → (success : Bool) → (error : Text) → A → Result A
checked what success error a = if success then ok a else raised (what ++ (b':' ∷ b' ' ∷ error))

-- What is made of a response; what the call raised goes on.
abbrev pub answered : {A B : Type 0} → (A → Result B) → Result A → Result B
answered f (ok a) = f a
answered f (raised e) = raised e

-- `if resp.error: raise ...`
abbrev pub unless_error : {A : Type 0} → (what error : Text) → A → Result A
unless_error what error a = if truthy error then raised (what ++ (b':' ∷ b' ' ∷ error)) else ok a

unfoldable pub sev_map : Dict ℕ
unfolding text
sev_map = (text "info", 0) ∷ (text "warning", 1) ∷ (text "error", 2) ∷ (text "critical", 3) ∷ []

unfoldable pub level_map : Dict ℕ
unfolding text
level_map = (text "debug", 0) ∷ (text "info", 1) ∷ (text "warn", 2) ∷ (text "error", 3) ∷ []

-- The requests, which syscall.py builds in the same way.
abbrev pub spawn_request : Spawn → Text → SpawnRequest
spawn_request s system_prompt = record {
  name = s.name;
  role = role_to_proto s.role;
  cognitive_tier = cog_to_proto s.cognitive_tier;
  model = s.model;
  system_prompt = system_prompt;
  runtime_image = s.runtime_image;
}

abbrev pub send_request : Send → SendMessageRequest
send_request s = record {
  to_pid = s.to_pid;
  type = s.type;
  priority = priority_to_proto (text "normal");
  payload = s.payload;
  reply_to = s.reply_to;
}

abbrev pub escalate_request : (issue severity : Text) → EscalateRequest
escalate_request issue severity = record {
  issue = issue;
  severity = lookup_or severity 1 sev_map;
  auto_propagate = true;
}

abbrev pub log_request : (level message : Text) → Dict Text → LogRequest
log_request level message fields = record {
  level = lookup_or level 1 level_map;
  message = message;
  fields = fields;
}

-- What is made of the responses, there too.
abbrev pub child_of : SpawnResponse → Result ℕ
child_of r = checked (text "spawn failed") r.success r.error r.child_pid

abbrev pub killed_of : KillResponse → Result (List ℕ)
killed_of r = checked (text "kill failed") r.success r.error r.killed_pids

abbrev pub message_of : SendMessageResponse → Result Text
message_of r = checked (text "send failed") r.delivered r.error r.message_id

abbrev pub artifact_of : StoreArtifactResponse → Result Text
artifact_of r = checked (text "store artifact failed") r.success r.error r.artifact_id

abbrev pub content_of : GetArtifactResponse → Result Text
content_of r = checked (text "artifact not found") r.found r.error r.content

abbrev pub exited_of : WaitChildResponse → Result Exited
exited_of r =
    checked (text "wait_child failed") r.success r.error
      (record { pid = r.pid; exit_code = r.exit_code; output = r.output })

module _ {W : Type 0} (client : CoreClient W) where
  abbrev rpc : {Q A B : Type 0} → Rpc W Q A → (A → Result B) → Q → W → Result B × W
  rpc call f q w = let (r, w') = call client.pid q w in (answered f r, w')

  unfoldable pub spawn_child : Spawn → (system_prompt : Text) → W → Result ℕ × W
  spawn_child s system_prompt = rpc client.stub.spawn_child child_of (spawn_request s system_prompt)

  unfoldable pub kill_child : ℕ → W → Result (List ℕ) × W
  kill_child pid =
      rpc client.stub.kill_child killed_of (record { target_pid = pid; recursive = true })

  unfoldable pub get_process_info : ℕ → W → Result ProcessInfo × W
  get_process_info pid = rpc client.stub.get_process_info ok pid

  unfoldable pub list_children : W → Result (List ProcessInfo) × W
  list_children = rpc client.stub.list_children ok false

  unfoldable pub execute_task : ExecuteRequest → W → Result TaskOutput × W
  execute_task req =
      rpc client.stub.execute_task
        (λ r. checked (text "execute_task failed") r.success r.error r.result)
        (record {
          target_pid = req.target_pid;
          description = req.description;
          params = req.params;
          timeout_seconds = req.timeout_seconds;
        })

  unfoldable pub send_message : Send → W → Result Text × W
  send_message s = rpc client.stub.send_message message_of (send_request s)

  unfoldable pub store_artifact : (key content : Text) → W → Result Text × W
  store_artifact key content = rpc client.stub.store_artifact artifact_of (record {
    key = key;
    content = content;
    content_type = text "application/octet-stream";
    visibility = 3;
  })

  unfoldable pub get_artifact : (key : Text) → W → Result Text × W
  get_artifact key =
      rpc client.stub.get_artifact content_of (record { key = key; artifact_id = [] })

  unfoldable pub list_artifacts : (prefix : Text) → W → Result (List Text) × W
  list_artifacts prefix = rpc client.stub.list_artifacts ok prefix

  unfoldable pub get_resource_usage : W → Result ResourceUsage × W
  get_resource_usage = rpc client.stub.get_resource_usage ok tt

  unfoldable pub request_resources : ResourceRequest → W → Result Grant × W
  request_resources req = rpc client.stub.request_resources ok req

  unfoldable pub escalate : (issue severity : Text) → W → Result Text × W
  escalate issue severity = rpc client.stub.escalate ok (escalate_request issue severity)

  unfoldable pub log : (level message : Text) → Dict Text → W → Result (Unit {0}) × W
  log level message fields = rpc client.stub.log ok (log_request level message fields)

  unfoldable pub list_siblings : W → Result (List Sibling) × W
  list_siblings = rpc client.stub.list_siblings ok tt

  unfoldable pub wait_child : (pid timeout_seconds : ℕ) → W → Result Exited × W
  wait_child pid timeout_seconds =
      rpc client.stub.wait_child exited_of
        (record { target_pid = pid; timeout_seconds = timeout_seconds })

  unfoldable pub add_cron : CronRequest → (action : Text) → W → Result Text × W
  add_cron req action =
      rpc client.stub.add_cron (λ r. unless_error (text "add_cron failed") r.error r.cron_id)
        (record {
          name = req.name;
          cron_expression = req.cron_expression;
          action = action;
          target_pid = req.target_pid;
          execute_description = req.description;
          execute_params = req.params;
        })

  unfoldable pub remove_cron : (cron_id : Text) → W → Result Bool × W
  remove_cron cron_id =
      rpc client.stub.remove_cron (λ r. unless_error (text "remove_cron failed") r.error r.ok)
        cron_id

  unfoldable pub list_cron : W → Result (List CronEntry) × W
  list_cron = rpc client.stub.list_cron ok tt
