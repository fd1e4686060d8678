-- ===== src/BuiltinTools/Witnesses.antt =====
-- Tests of builtin_tools.py, with a kernel that grants every call and counts them.
use hivekernel.Prelude.{ℕ, ◌+◌, ◌≡◌, refl, inl, true, [], ◌∷◌}
use hivekernel.Prelude.Text.{text}
use hivekernel.Prelude.Dict.{lookup}
use hivekernel.Exec.{Result, ok, raised}
use hivekernel.Core.{ProcessInfo, TaskOutput}
use hivekernel.Core.Client.{
  Stub, spawn_child, execute_task, send_message, store_artifact, get_artifact, list_children,
  list_siblings, add_cron, get_process_info,
}
use hivekernel.Tools.{execute, settle, raises}
use hivekernel.BuiltinTools.{Args, ToolContext, quoted}
use hivekernel.BuiltinTools.Catalog.{register_builtin_tools, spawn_child_tool}
use hivekernel.BuiltinTools.Arguments.{IsGranting, first_missing}
use hivekernel.BuiltinTools.Registration.{execute_builtin}

abbrev answer : {Q R : Type 0} → R → ℕ → Q → ℕ → Result R × ℕ
answer r pid q w = (ok r, w + 1)

abbrev a_process : ProcessInfo
a_process = record {
  pid = 7;
  ppid = 1;
  name = text "scribe";
  state = 0;
  role = 3;
  tokens_consumed = 0;
}

abbrev an_output : TaskOutput
an_output = record { exit_code = 0; output = text "done"; artifacts = []; metadata = [] }

abbrev granting : Stub ℕ
granting = record {
  spawn_child = answer (record { success = true; error = []; child_pid = 12 });
  kill_child = answer (record { success = true; error = []; killed_pids = [] });
  get_process_info = answer a_process;
  list_children = answer [];
  execute_task = answer (record { success = true; error = []; result = an_output });
  send_message = answer (record { delivered = true; error = []; message_id = text "m" });
  store_artifact = answer (record { success = true; error = []; artifact_id = text "a" });
  get_artifact = answer (record { found = true; error = []; content = text "notes" });
  list_artifacts = answer [];
  get_resource_usage = answer (record {
    tokens_consumed = 0;
    tokens_remaining = 9;
    children_active = 0;
    children_max = 3;
    uptime_seconds = 1;
  });
  request_resources = answer (record { granted = true; granted_amount = 5; reason = [] });
  escalate = answer [];
  log = answer tt;
  list_siblings = answer [];
  wait_child = answer (record { success = true; error = []; pid = 7; exit_code = 0; output = [] });
  add_cron = answer (record { error = []; cron_id = text "c" });
  remove_cron = answer (record { error = []; ok = true });
  list_cron = answer [];
}

abbrev a_context : ToolContext ℕ
a_context = record {
  client = record { stub = granting; pid = 7 };
  pid = 7;
  dumps_output = λ r. r.output;
  dumps_children =
      λ ps. elim ps [ [] ↦ ok (text "[]") | p ∷ rest ↦ raised (text "not serializable") ];
  dumps_siblings = λ ss. [];
  dumps_info = λ p. p.name;
}

a_context-IsGranting : IsGranting a_context 4
unfolding spawn_child execute_task send_message store_artifact get_artifact list_children
    list_siblings add_cron get_process_info
a_context-IsGranting = record {
  spawns = λ s p. tt;
  executes = λ r. tt;
  sends = λ s. tt;
  stores = λ k c. tt;
  fetches = λ k. tt;
  lists = refl;
  lists_siblings = tt;
  schedules = λ r a. tt;
  inspects = λ pid. tt;
  prints = tt;
}

-- A model that names a child and gives no role.
abbrev half_args : Args
half_args = record { texts = (text "name", text "scribe") ∷ []; numbers = [] }

execute_builtin_example :
    execute (text "spawn_child") half_args (register_builtin_tools a_context (λ ps. []) []) 4
    ≡ (settle (text "spawn_child") (raises (quoted (text "role"))), 4)
unfolding first_missing lookup text
execute_builtin_example =
    execute_builtin a_context (λ ps. []) spawn_child_tool half_args [] 4 a_context-IsGranting
      (inl refl)
