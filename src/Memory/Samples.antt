-- ===== src/Memory/Samples.antt =====
-- Concrete memories, and a concrete pair of functions in the place of `json.dumps` and `json.loads`:
-- each text stands behind its length, each call behind a 1 and each list before a 0.
use hivekernel.Prelude.{
  ℕ, zero, suc, true, Option, some, List, [], ◌∷◌, ◌++◌, ◌==◌, length, take, drop, if◌then◌else◌,
}
use hivekernel.Prelude.Text.{Text, text}
use hivekernel.Memory.{ToolCall, Message, AgentMemory}
use hivekernel.Memory.Storage.{Artifacts}

put_text : Text → Text
put_text s = length s ∷ s

get_text : Text → Text × Text
get_text [] = ([], [])
get_text (n ∷ s) = (take n s, drop n s)

put_calls : List ToolCall → Text
unfolding put_text
put_calls [] = 0 ∷ []
put_calls (c ∷ cs) =
    1 ∷ (put_text c.id ++ (put_text c.name ++ (put_text c.arguments ++ put_calls cs)))

get_calls : ℕ → Text → List ToolCall × Text
unfolding get_text
get_calls zero s = ([], s)
get_calls (suc f) [] = ([], [])
get_calls (suc f) (n ∷ s) =
    let (id, s1) = get_text s in
    let (name, s2) = get_text s1 in
    let (arguments, s3) = get_text s2 in
    let (calls, rest) = get_calls f s3 in
    if n == 0
    then ([], s)
    else (record { id = id; name = name; arguments = arguments } ∷ calls, rest)

unfoldable pub dumps : List Message → Text
unfolding put_calls
dumps [] = 0 ∷ []
dumps (m ∷ ms) =
    1
    ∷ (put_text m.role
        ++ (put_text m.content
            ++ (put_text m.tool_call_id ++ (put_calls m.tool_calls ++ dumps ms))))

get_messages : ℕ → Text → List Message
unfolding get_calls
get_messages zero s = []
get_messages (suc f) [] = []
get_messages (suc f) (n ∷ s) =
    let (role, s1) = get_text s in
    let (content, s2) = get_text s1 in
    let (id, s3) = get_text s2 in
    let (calls, s4) = get_calls f s3 in
    let rest = get_messages f s4 in
    if n == 0
    then []
    else record { role = role; content = content; tool_calls = calls; tool_call_id = id } ∷ rest

unfoldable pub loads : Text → Option (List Message)
unfolding get_messages
loads s = some (get_messages (length s) s)

unfoldable pub calls_len : List ToolCall → ℕ
unfolding put_calls
calls_len cs = length (put_calls cs)

abbrev pub said : Text → Text → Message
said role content = record { role = role; content = content; tool_calls = []; tool_call_id = [] }

abbrev pub lookup_call : ToolCall
lookup_call = record { id = text "c1"; name = text "lookup"; arguments = text "{}" }

abbrev pub short_talk : List Message
short_talk =
    said (text "user") (text "hi")
    ∷ record {
      role = text "assistant";
      content = [];
      tool_calls = lookup_call ∷ [];
      tool_call_id = [];
    }
    ∷ record { role = text "tool"; content = text "42"; tool_calls = []; tool_call_id = text "c1" }
    ∷ said (text "assistant") (text "it is 42")
    ∷ said (text "user") (text "thanks")
    ∷ said (text "assistant") (text "welcome")
    ∷ []

abbrev pub talker : AgentMemory
talker = record {
  pid = 7;
  long_term = text "likes numbers";
  messages = short_talk;
  summary = text "asked for a number";
}

abbrev pub empty_store : Artifacts
empty_store = record { entries = []; reachable = λ k. true }
