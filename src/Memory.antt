-- ===== src/Memory.antt =====
-- sdk/python/hivekernel_sdk/memory.py: `AgentMemory`, the conversation that an agent keeps, its
-- token estimates and its emergency compression. Loading and saving stand in Memory/Storage.
pub mod Storage
pub mod Compression
pub mod Samples
mod Witnesses
use hivekernel.Prelude.{
  ℕ, ◌+◌, ◌*◌, ◌/◌, Bool, ◌||◌, List, [], ◌∷◌, ◌++◌, ltb, length, take_last, if◌then◌else◌,
}
use hivekernel.Prelude.Text.{Text, text, truthy, join_lines}

-- A call that the model asks for: the values that `run` reads from it by `get`, with defaults.
pub record ToolCall : Type 0 where
  pub id : Text
  pub name : Text
  pub arguments : Text

-- A message as `add_message` builds it. An empty list or text stands for a key that is left out.
pub record Message : Type 0 where
  pub role : Text
  pub content : Text
  pub tool_calls : List ToolCall
  pub tool_call_id : Text

pub record AgentMemory : Type 0 where
  pub pid : ℕ
  pub long_term : Text
  pub messages : List Message
  pub summary : Text

-- `AgentMemory(pid)`
abbrev pub fresh : ℕ → AgentMemory
fresh pid = record { pid = pid; long_term = []; messages = []; summary = [] }

unfoldable pub add_message : Text → Text → List ToolCall → Text → AgentMemory → AgentMemory
add_message role content tool_calls tool_call_id m = record m {
  messages =
      m.messages
      ++ record {
        role = role;
        content = content;
        tool_calls = tool_calls;
        tool_call_id = tool_call_id;
      }
        ∷ [];
}

-- The part `f"\n## {title}\n{body}"`, left out when the body is empty.
section : Text → Text → List Text
section title body = if truthy body then (10 ∷ (text "## " ++ (title ++ 10 ∷ body))) ∷ [] else []

system_message : Text → Message
system_message content = record {
  role = text "system";
  content = content;
  tool_calls = [];
  tool_call_id = [];
}

unfoldable pub get_context_messages : Text → AgentMemory → List Message
unfolding section system_message
get_context_messages system_prompt m =
    let parts =
      system_prompt
      ∷ (section (text "Long-term Memory") m.long_term
          ++ section (text "Conversation Summary") m.summary) in
    system_message (join_lines parts) ∷ m.messages

-- `int(total / 2.5)`, which for totals below 2 ^ 50 is the exact quotient.
unfoldable pub int_tokens : ℕ → ℕ
int_tokens total = total * 2 / 5

-- `len(str(calls))` is a parameter: the text that Python prints for the list of calls.
module _ (calls_len : List ToolCall → ℕ) where
  -- `len(str(m.get("tool_calls", "")))`, where a key left out gives the empty text.
  unfoldable pub tool_calls_len : List ToolCall → ℕ
  tool_calls_len [] = 0
  tool_calls_len (c ∷ cs) = calls_len (c ∷ cs)

  unfoldable pub message_len : Message → ℕ
  message_len m = length m.content + tool_calls_len m.tool_calls * 2

  unfoldable pub messages_len : List Message → ℕ
  messages_len [] = 0
  messages_len (m ∷ ms) = message_len m + messages_len ms

  unfoldable pub estimate_total_tokens : AgentMemory → ℕ
  unfolding int_tokens
  estimate_total_tokens m =
      int_tokens (length m.long_term + length m.summary + messages_len m.messages)

  unfoldable pub needs_summarization : ℕ → ℕ → AgentMemory → Bool
  unfolding estimate_total_tokens
  needs_summarization threshold max_tokens m =
      ltb threshold (length m.messages) || ltb max_tokens (estimate_total_tokens m)

-- The messages alone, without their calls.
unfoldable pub contents_len : List Message → ℕ
contents_len [] = 0
contents_len (m ∷ ms) = length m.content + contents_len ms

unfoldable pub estimate_tokens : AgentMemory → ℕ
unfolding int_tokens contents_len
estimate_tokens m = int_tokens (contents_len m.messages)

-- `s[-n:]` where `s` is longer than `n`, and `s` otherwise.
unfoldable pub last_chars : ℕ → Text → Text
unfolding take_last
last_chars n s = if ltb n (length s) then take_last n s else s

unfoldable pub force_compress : AgentMemory → AgentMemory
unfolding take_last last_chars
force_compress m =
    if ltb 4 (length m.messages)
    then record m { messages = take_last 4 m.messages; summary = last_chars 2000 m.summary }
    else if ltb 2 (length m.messages)
    then record m { messages = take_last 2 m.messages; summary = [] }
    else record m {
      messages = if ltb 1 (length m.messages) then take_last 1 m.messages else m.messages;
      summary = [];
      long_term = last_chars 1000 m.long_term;
    }
