-- ===== src/Loop.antt =====
-- sdk/python/hivekernel_sdk/loop.py: `AgentLoop`, which calls the model, runs the tools that it asks
-- for and feeds their results back. The state is passed on explicitly: the memory, the client with
-- its counters, the world, and the events emitted so far (emission is best effort, and its failures
-- are swallowed). What the loop does not implement is an `Env`.
pub mod Overflow
pub mod Run
pub mod Preflight
pub mod Calls
pub mod Turns
pub mod Outcome
pub mod Exceptions
pub mod Samples
mod Witnesses
use hivekernel.Prelude.{
  ℕ, zero, suc, ◌+◌, ◌-◌, ◌/◌, Bool, Option, none, some, List, [], ◌∷◌, ◌++◌, ltb, leb, length,
  take, take_last, if◌then◌else◌,
}
use hivekernel.Prelude.Text.{Text, text, text_eq, truthy}
use hivekernel.Memory.{
  ToolCall, Message, AgentMemory, add_message, get_context_messages, estimate_total_tokens,
  needs_summarization, force_compress,
}
use hivekernel.Memory.Storage.{Artifacts, save}
use hivekernel.Llm.{
  Result, ok, runtime_error, other_error, LlmClient, LastCall, Request, Response, ToolMessage, chat,
  chat_with_tools,
}
use hivekernel.Tools.{ToolResult, ToolRegistry, FunctionSchema, execute, to_openai_schema}
use hivekernel.Loop.Overflow.{is_context_overflow}

-- The artifact store, and all else that the model and the tools can see or change.
pub record World (W : Type 0) : Type 0 where
  pub artifacts : Artifacts
  pub outside : W

-- What a tool can change: the world, and by `ctx.llm` the client of the loop with its counters.
abbrev pub ToolWorld : Type 0 → Type 0
ToolWorld W = LlmClient × World W

-- The HTTP exchanges with the model, and Python's `json` and `str` at the values of this module:
-- the lengths of `str(tool_calls)` and of `json.dumps(tools_schema)`, `json.dumps` and `json.loads`
-- of the messages, and `json.loads` and `str` of a call's arguments.
pub record Env (Args W : Type 0) : Type 0 where
  pub exchange : Request → World W → Response Text × World W
  pub exchange_tools : Request → World W → Response ToolMessage × World W
  pub calls_len : List ToolCall → ℕ
  pub schema_len : List FunctionSchema → ℕ
  pub dumps : List Message → Text
  pub loads : Text → Option (List Message)
  pub parse_args : Text → Option Args
  pub no_args : Args
  pub show_args : Args → Text

pub data Event : Type 0 where
  llm_failure : (message : Text) (iteration : ℕ) → Event
  llm_call :
      (last : Option LastCall) (iteration : ℕ) (prompt_preview response_preview : Text) → Event
  tool_call : (name args_preview result_preview : Text) (is_error : Bool) → Event

pub record State (W : Type 0) : Type 0 where
  pub memory : AgentMemory
  pub llm : LlmClient
  pub world : World W
  pub events : List Event

-- What leaves `run` as an exception. `unbound_local` is the `UnboundLocalError` of reading `content`
-- where no iteration has assigned it.
pub data LoopError : Type 0 where
  runtime : Text → LoopError
  other : Text → LoopError
  unbound_local : LoopError

pub record LoopResult : Type 0 where
  pub content : Text
  pub iterations : ℕ
  pub tool_calls_total : ℕ
  pub prompt_tokens : ℕ
  pub completion_tokens : ℕ
  pub total_tokens : ℕ
  pub llm_calls : ℕ

abbrev pub context_budget : ℕ
context_budget = 80000

module _ (calls_len : List ToolCall → ℕ) (overhead : ℕ) where
  -- The `while` loop of the pre-flight compression, with fuel.
  unfoldable pub preflight : ℕ → AgentMemory → AgentMemory
  preflight zero m = m
  preflight (suc fuel) m =
      let before = estimate_total_tokens calls_len m in
      let m' = force_compress m in
      let after = estimate_total_tokens calls_len m' in
      let rest = preflight fuel m' in
      if ltb context_budget (before + overhead) then (if leb before after then m' else rest) else m

-- `tools_overhead + system_overhead`
unfoldable pub overhead_tokens : (List FunctionSchema → ℕ) → List FunctionSchema → Text → ℕ
overhead_tokens schema_len [] system_prompt = length system_prompt / 3
overhead_tokens schema_len (s ∷ ss) system_prompt =
    schema_len (s ∷ ss) / 3 + length system_prompt / 3

unfoldable pub emit : {W : Type 0} → Event → State W → State W
emit e st = record st { events = st.events ++ e ∷ [] }

unfoldable pub remember : {W : Type 0} → Text → Text → List ToolCall → Text → State W → State W
remember role content calls id st = record st {
  memory = add_message role content calls id st.memory;
}

unfoldable pub system_of : List Message → Text
system_of [] = []
system_of (m ∷ ms) = m.content

unfoldable pub behind_system : List Message → List Message
behind_system [] = []
behind_system (m ∷ ms) = ms
