-- ===== src/Memory/Storage.antt =====
-- sdk/python/hivekernel_sdk/memory.py: `AgentMemory._key`, `load` and `save` over an artifact store.
-- The store is the kernel's: a dictionary, with keys on which a call raises while it is out of reach.
-- Contents are the decoded texts, none of which holds a lone surrogate: `encode` raises on those, and
-- that exception is left out. Python's `json.dumps` and `json.loads` on a list of messages are
-- parameters.
pub mod Laws
use hivekernel.Prelude.{ℕ, Bool, true, false, Option, none, some, List, ◌∷◌, ◌++◌, if◌then◌else◌}
use hivekernel.Prelude.Text.{Text, text, truthy}
use hivekernel.Prelude.Dict.{Dict, lookup, insert}
use hivekernel.Prelude.Decimal.{show}
use hivekernel.Memory.{Message, AgentMemory}

pub record Artifacts : Type 0 where
  pub entries : Dict Text
  pub reachable : Text → Bool

-- `none` is a call that raises.
unfoldable pub get_artifact : Text → Artifacts → Option Text
get_artifact k a = if a.reachable k then lookup k a.entries else none

unfoldable pub store_artifact : Text → Text → Artifacts → Option Artifacts
store_artifact k content a =
    if a.reachable k then some (record a { entries = insert k content a.entries }) else none

unfoldable pub key : ℕ → Text → Text
key pid suffix = text "agent:" ++ (show pid ++ b':' ∷ suffix)

abbrev pub memory_key : ℕ → Text
memory_key pid = key pid (text "memory")

abbrev pub session_key : ℕ → Text
session_key pid = key pid (text "session")

abbrev pub summary_key : ℕ → Text
summary_key pid = key pid (text "summary")

module _ (dumps : List Message → Text) (loads : Text → Option (List Message)) where
  load_memory : Option Text → AgentMemory → AgentMemory
  load_memory none m = m
  load_memory (some content) m = record m { long_term = content }

  load_session : Option (List Message) → AgentMemory → AgentMemory
  load_session none m = m
  load_session (some messages) m = record m { messages = messages }

  -- `if data: self.messages = json.loads(data)`, where an error of `loads` changes nothing.
  load_data : Option Text → AgentMemory → AgentMemory
  unfolding load_session
  load_data none m = m
  load_data (some content) m = if truthy content then load_session (loads content) m else m

  load_summary : Option Text → AgentMemory → AgentMemory
  load_summary none m = m
  load_summary (some content) m = record m { summary = content }

  -- Each of the three reads is tried, and one that raises leaves its field alone.
  unfoldable pub load : Artifacts → AgentMemory → AgentMemory
  unfolding load_memory load_data load_summary
  load a m = load_summary (get_artifact (summary_key m.pid) a) (
      load_data (get_artifact (session_key m.pid) a)
        (load_memory (get_artifact (memory_key m.pid) a) m))

  -- One write of the `try` block: the first that raises ends the block, and what was written stays.
  write : Text → Text → (Artifacts → Artifacts) → Artifacts → Artifacts
  write k content rest a = elim (store_artifact k content a) [ none ↦ a | some b ↦ rest b ]

  unfoldable pub save : AgentMemory → Artifacts → Artifacts
  unfolding write
  save m =
      write (memory_key m.pid) m.long_term (
        write (session_key m.pid) (dumps m.messages) (write (summary_key m.pid) m.summary (λ a. a)))
