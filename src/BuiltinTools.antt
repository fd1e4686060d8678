-- ===== src/BuiltinTools.antt =====
-- sdk/python/hivekernel_sdk/builtin_tools.py: the tools that hand the calls of the kernel to the model.
-- `register_builtin_tools` is in Catalog. A process is printed without its tier and its model.
pub mod Catalog
pub mod Arguments
pub mod Registration
mod Witnesses
use hivekernel.Prelude.{ℕ, Bool, true, false, Option, none, some, List, [], ◌∷◌, ◌++◌}
use hivekernel.Prelude.Text.{Text, text}
use hivekernel.Prelude.Dict.{Dict, lookup, lookup_or}
use hivekernel.Prelude.Decimal.{show}
use hivekernel.Exec.{Result, ok, raised}
use hivekernel.Core.{ProcessInfo, Sibling, TaskOutput}
use hivekernel.Core.Client.{
  CoreClient, spawn_child, execute_task, send_message, store_artifact, get_artifact, list_children,
  list_siblings, add_cron, get_process_info,
}
use hivekernel.Memory.Storage.{memory_key}
use hivekernel.Tools.{ToolResult, Outcome, returns, raises}

-- The arguments that a model gave, by their types. Arguments of other types are left out.
pub record Args : Type 0 where
  pub texts : Dict Text
  pub numbers : Dict ℕ

pub data ArgType : Type 0 where
  string : ArgType
  integer : ArgType

-- An entry of `properties`, with whether it stands in `required`.
pub record Property : Type 0 where
  pub name : Text
  pub type : ArgType
  pub description : Text
  pub is_required : Bool

abbrev pub required : Text → ArgType → Text → Property
required name type description = record {
  name = name;
  type = type;
  description = description;
  is_required = true;
}

abbrev pub optional : Text → ArgType → Text → Property
optional name type description = record {
  name = name;
  type = type;
  description = description;
  is_required = false;
}

-- `ToolContext`, and `json.dumps` of what the tools print, which raises on messages of protobuf.
pub record ToolContext (W : Type 0) : Type 0 where
  pub client : CoreClient W
  pub pid : ℕ
  pub dumps_output : TaskOutput → Text
  pub dumps_children : List ProcessInfo → Result Text
  pub dumps_siblings : List Sibling → Text
  pub dumps_info : ProcessInfo → Text

-- The text of `KeyError(k)`.
abbrev pub quoted : Text → Text
quoted k = b'\'' ∷ (k ++ b'\'' ∷ [])

abbrev pub result : Text → ToolResult
result content = record { content = content; is_error = false }

-- What a tool makes of what a call answered; what the call raised goes on.
abbrev pub printed : {A W : Type 0} → (A → Text) → Result A × W → Outcome × W
printed f (ok a, w) = (returns (result (f a)), w)
printed f (raised e, w) = (raises e, w)

abbrev pub printed_or : {W : Type 0} → Result Text × W → Outcome × W
printed_or (ok s, w) = (returns (result s), w)
printed_or (raised e, w) = (raises e, w)

-- `json.dumps`, where it may raise.
abbrev pub dumped : {A W : Type 0} → (A → Result Text) → Result A × W → Outcome × W
dumped f (ok a, w) = printed_or (f a, w)
dumped f (raised e, w) = (raises e, w)

module _ {W : Type 0} where
  -- `args[k]`
  abbrev pub need : {A : Type 0} → Text → Option A → (A → W → Outcome × W) → W → Outcome × W
  need k none f w = (raises (quoted k), w)
  need k (some a) f w = f a w

  abbrev pub need_text : Text → Args → (Text → W → Outcome × W) → W → Outcome × W
  need_text k args = need k (lookup k args.texts)

  abbrev pub need_number : Text → Args → (ℕ → W → Outcome × W) → W → Outcome × W
  need_number k args = need k (lookup k args.numbers)

module _ {W : Type 0} (ctx : ToolContext W) (args : Args) where
  unfoldable pub run_spawn_child : W → Outcome × W
  run_spawn_child = need_text (text "name") args λ name. need_text (text "role") args λ role.
      need_text (text "cognitive_tier") args λ tier. λ w.
        printed (λ pid. text "Spawned child agent with PID " ++ show pid)
          (spawn_child ctx.client
            (record {
              name = name;
              role = role;
              cognitive_tier = tier;
              model = lookup_or (text "model") [] args.texts;
              runtime_image = [];
            })
            (lookup_or (text "system_prompt") [] args.texts) w)

  unfoldable pub run_execute_task : W → Outcome × W
  run_execute_task = need_number (text "target_pid") args λ pid.
      need_text (text "description") args λ description. λ w. printed ctx.dumps_output (
        execute_task ctx.client
          (record {
            target_pid = pid;
            description = description;
            params = [];
            timeout_seconds = lookup_or (text "timeout_seconds") 120 args.numbers;
          })
          w)

  unfoldable pub run_send_message : W → Outcome × W
  run_send_message = need_number (text "to_pid") args λ pid. need_text (text "type") args λ type.
      need_text (text "payload") args λ payload. λ w.
        printed (λ id. text "Message sent, id=" ++ id)
          (send_message ctx.client
            (record { to_pid = pid; type = type; payload = payload; reply_to = [] }) w)

  unfoldable pub run_store_artifact : W → Outcome × W
  run_store_artifact = need_text (text "key") args λ key. need_text (text "content") args λ content.
      λ w.
        printed (λ id. text "Artifact stored, id=" ++ id) (store_artifact ctx.client key content w)

  -- The client answers with a message that has a content, or raises.
  unfoldable pub run_get_artifact : W → Outcome × W
  run_get_artifact =
      need_text (text "key") args
        λ key w. printed (λ content. content) (get_artifact ctx.client key w)

  unfoldable pub run_list_children : W → Outcome × W
  run_list_children w = dumped ctx.dumps_children (list_children ctx.client w)

  unfoldable pub run_list_siblings : W → Outcome × W
  run_list_siblings w = printed ctx.dumps_siblings (list_siblings ctx.client w)

  unfoldable pub run_memory_store : W → Outcome × W
  run_memory_store = need_text (text "content") args λ content w.
      printed (λ id. text "Memory saved") (store_artifact ctx.client (memory_key ctx.pid) content w)

  unfoldable pub run_memory_recall : W → Outcome × W
  run_memory_recall w =
      printed (λ content. content) (get_artifact ctx.client (memory_key ctx.pid) w)

  unfoldable pub run_schedule_cron : W → Outcome × W
  run_schedule_cron = need_text (text "name") args λ name.
      need_text (text "cron_expression") args λ expression.
        need_number (text "target_pid") args λ pid. λ w.
          printed (λ id. text "Cron scheduled, id=" ++ id)
            (add_cron ctx.client
              (record {
                name = name;
                cron_expression = expression;
                target_pid = pid;
                description = lookup_or (text "description") [] args.texts;
                params = [];
              })
              (lookup_or (text "action") (text "execute") args.texts) w)

  unfoldable pub run_get_process_info : W → Outcome × W
  run_get_process_info =
      need_number (text "pid") args
        λ pid w. printed ctx.dumps_info (get_process_info ctx.client pid w)
