-- ===== src/BuiltinTools/Catalog.antt =====
-- `ALL_BUILTIN_TOOLS` of builtin_tools.py, with the schemas of the tools, and `register_builtin_tools`.
use hivekernel.Prelude.{List, [], ◌∷◌}
use hivekernel.Prelude.Text.{Text, text}
use hivekernel.Tools.{Tool, ToolRegistry, Outcome, register}
use hivekernel.BuiltinTools.{
  Args, string, integer, Property, required, optional, ToolContext, run_spawn_child,
  run_execute_task, run_send_message, run_store_artifact, run_get_artifact, run_list_children,
  run_list_siblings, run_memory_store, run_memory_recall, run_schedule_cron, run_get_process_info,
}

-- A tool before its schema is printed. `execute` is given its context here.
pub record BuiltinTool (W : Type 0) : Type 0 where
  pub name : Text
  pub description : Text
  pub properties : List Property
  pub execute : ToolContext W → Args → W → Outcome × W

module _ {W : Type 0} where
  abbrev pub spawn_child_tool : BuiltinTool W
  spawn_child_tool = record {
    name = text "spawn_child";
    description = text "Spawn a new child agent with specified name, role, and configuration";
    properties =
        required (text "name") string (text "Name for the child agent")
        ∷ required (text "role") string (text "Role: worker, task, agent, lead")
        ∷ required (text "cognitive_tier") string (text "Tier: strategic, tactical, operational")
        ∷ optional (text "system_prompt") string (text "System prompt for the child")
        ∷ optional (text "model") string (text "LLM model to use")
        ∷ [];
    execute = run_spawn_child;
  }

  abbrev pub execute_task_tool : BuiltinTool W
  execute_task_tool = record {
    name = text "execute_task";
    description = text "Execute a task on another agent by PID";
    properties =
        required (text "target_pid") integer (text "PID of the target agent")
        ∷ required (text "description") string (text "Task description")
        ∷ optional (text "timeout_seconds") integer (text "Timeout in seconds")
        ∷ [];
    execute = run_execute_task;
  }

  abbrev pub send_message_tool : BuiltinTool W
  send_message_tool = record {
    name = text "send_message";
    description = text "Send an IPC message to another agent by PID";
    properties =
        required (text "to_pid") integer (text "Target agent PID")
        ∷ required (text "type") string (text "Message type")
        ∷ required (text "payload") string (text "Message content")
        ∷ [];
    execute = run_send_message;
  }

  abbrev pub store_artifact_tool : BuiltinTool W
  store_artifact_tool = record {
    name = text "store_artifact";
    description = text "Store data persistently in the artifact store";
    properties =
        required (text "key") string (text "Storage key")
        ∷ required (text "content") string (text "Content to store")
        ∷ [];
    execute = run_store_artifact;
  }

  abbrev pub get_artifact_tool : BuiltinTool W
  get_artifact_tool = record {
    name = text "get_artifact";
    description = text "Retrieve data from the artifact store by key";
    properties = required (text "key") string (text "Storage key to retrieve") ∷ [];
    execute = run_get_artifact;
  }

  abbrev pub list_children_tool : BuiltinTool W
  list_children_tool = record {
    name = text "list_children";
    description = text "List all child agents of this agent";
    properties = [];
    execute = run_list_children;
  }

  abbrev pub list_siblings_tool : BuiltinTool W
  list_siblings_tool = record {
    name = text "list_siblings";
    description = text "List sibling agents (same parent, excluding self)";
    properties = [];
    execute = run_list_siblings;
  }

  abbrev pub memory_store_tool : BuiltinTool W
  memory_store_tool = record {
    name = text "memory_store";
    description = text "Save information to long-term memory for recall across sessions";
    properties = required (text "content") string (text "Content to remember") ∷ [];
    execute = run_memory_store;
  }

  abbrev pub memory_recall_tool : BuiltinTool W
  memory_recall_tool = record {
    name = text "memory_recall";
    description = text "Recall information from long-term memory";
    properties = [];
    execute = run_memory_recall;
  }

  abbrev pub schedule_cron_tool : BuiltinTool W
  schedule_cron_tool = record {
    name = text "schedule_cron";
    description = text "Schedule a recurring task via cron expression";
    properties =
        required (text "name") string (text "Name for the cron entry")
        ∷ required (text "cron_expression") string (text "Cron expression (e.g. '*/5 * * * *')")
        ∷ required (text "target_pid") integer (text "PID of the agent to execute on")
        ∷ optional (text "description") string (text "Task description for the cron entry")
        ∷ optional (text "action") string (text "Action type: execute, message, spawn, wake")
        ∷ [];
    execute = run_schedule_cron;
  }

  abbrev pub get_process_info_tool : BuiltinTool W
  get_process_info_tool = record {
    name = text "get_process_info";
    description = text "Get information about a process by PID (0 = self)";
    properties = required (text "pid") integer (text "PID to query (0 = self)") ∷ [];
    execute = run_get_process_info;
  }

  abbrev pub all_builtin_tools : List (BuiltinTool W)
  all_builtin_tools =
      spawn_child_tool ∷ execute_task_tool ∷ send_message_tool ∷ store_artifact_tool
      ∷ get_artifact_tool ∷ list_children_tool ∷ list_siblings_tool ∷ memory_store_tool
      ∷ memory_recall_tool ∷ schedule_cron_tool ∷ get_process_info_tool ∷ []

  module _ (ctx : ToolContext W) (dumps_schema : List Property → Text) where
    abbrev pub tool_of : BuiltinTool W → Tool Args W
    tool_of t = record {
      name = t.name;
      description = t.description;
      parameters = dumps_schema t.properties;
      run = t.execute ctx;
    }

    unfoldable pub register_all : List (BuiltinTool W) → ToolRegistry Args W → ToolRegistry Args W
    register_all [] r = r
    register_all (t ∷ ts) r = register_all ts (register (tool_of t) r)

    unfoldable pub register_builtin_tools : ToolRegistry Args W → ToolRegistry Args W
    unfolding register_all
    register_builtin_tools = register_all all_builtin_tools
