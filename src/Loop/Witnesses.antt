-- ===== src/Loop/Witnesses.antt =====
-- Tests of loop.py, and its theorems at concrete runs.
use hivekernel.Prelude.{
  inl, inr, Bool-cases, ℕ, ◌+◌, ◌≤◌, ◌<◌, ◌≡◌, ◌↔◌, refl, List, [], ◌∷◌, ◌++◌, arith, length,
}
use hivekernel.Prelude.Text.{Text, text, text_eq}
use hivekernel.Memory.{
  Message, AgentMemory, fresh, estimate_total_tokens, needs_summarization, add_message,
  messages_len, message_len, tool_calls_len,
}
use hivekernel.Prelude.Dict.{lookup}
use hivekernel.Memory.Storage.{load, save, store_artifact, get_artifact}
use hivekernel.Memory.Samples.{dumps, loads, calls_len, said, lookup_call, talker}
use hivekernel.Llm.{http_error, new_client, chat, chat_with_tools}
use hivekernel.Tools.{execute, to_openai_schema}
use hivekernel.Loop.{Env, State, LoopResult, unbound_local, preflight, overhead_tokens}
use hivekernel.Loop.Samples.{env, registry, initial}
use hivekernel.Loop.Preflight.{IsSettled, estimate, preflight-IsSettled}
use hivekernel.Loop.Run.{
  run, run_calls, returned, exception, iterate, turn, attempt, finish_turn, respond, start, wrap_up,
}
use hivekernel.Loop.Calls.{
  LeavesCalls, Answers, count_tool_calls, count_llm_calls, run_calls-Answers,
}
use hivekernel.Loop.Outcome.{run_counts}
use hivekernel.Loop.Exceptions.{IsSavable, run_unbound_local, run_saves}

program : Unit {0}
unfolding run chat chat_with_tools execute to_openai_schema text dumps loads calls_len preflight
    iterate turn attempt finish_turn respond start run_calls lookup wrap_up needs_summarization
    add_message messages_len message_len tool_calls_len overhead_tokens new_client save load
    store_artifact get_artifact
program = tt

abbrev expected : LoopResult
expected = record {
  content = text "it is 42";
  iterations = 2;
  tool_calls_total = 1;
  prompt_tokens = 20;
  completion_tokens = 10;
  total_tokens = 30;
  llm_calls = 2;
}

run_talk :
    (run env registry (text "Be brief.") [] 5 (text "the number?") initial).0 ≡ returned expected
unfolding program
run_talk = refl

registry-LeavesCalls : LeavesCalls registry
unfolding program
registry-LeavesCalls name args llm w = elim (Bool-cases (text_eq name (text "lookup"))) [
  | inl known ↦ ground (arith, known)
  | inr unknown ↦ ground (arith, unknown)
]

run_counts_example :
    (2 ≤ 5)
    × (2 ≤ 2)
    × (2 ≤ 2 + 1)
    × (count_llm_calls
          (run env registry (text "Be brief.") [] 5 (text "the number?") initial).1.events
        ≡ 2)
    × (count_tool_calls
          (run env registry (text "Be brief.") [] 5 (text "the number?") initial).1.events
        ≡ 1)
    × (length
          (run env registry (text "Be brief.") [] 5 (text "the number?") initial).1.memory.messages
        ≤ 10)
run_counts_example =
    run_counts env registry (text "Be brief.") [] registry-LeavesCalls 5 (text "the number?")
      initial expected run_talk

run_unbound_local_example :
    ((run env registry (text "Be brief.") [] 0 (text "the number?") initial).0
      ≡ exception unbound_local)
    ↔ (◌≡◌ {A = ℕ} 0 0)
run_unbound_local_example =
    run_unbound_local env registry (text "Be brief.") [] 0 (text "the number?") initial

talk_IsSavable :
    IsSavable env registry
      (text "Be brief.")
      []
      (run env registry (text "Be brief.") [] 5 (text "the number?") initial).1
unfolding program
talk_IsSavable = record {
  memory_reachable = refl;
  session_reachable = refl;
  summary_reachable = refl;
  nonempty = refl;
  parsed = refl;
}

run_pid : (run env registry (text "Be brief.") [] 5 (text "the number?") initial).1.memory.pid ≡ 7
unfolding program
run_pid = refl

run_saves_example :
    load dumps loads
      (run env registry (text "Be brief.") [] 5 (text "the number?") initial).1.world.artifacts
      (fresh 7)
    ≡ (run env registry (text "Be brief.") [] 5 (text "the number?") initial).1.memory
run_saves_example =
    run_saves env registry (text "Be brief.") [] 5 (text "the number?") initial expected (fresh 7)
      run_talk talk_IsSavable run_pid

run_calls-Answers_example :
    let end = run_calls env registry [] [] (lookup_call ∷ []) initial in
    ((replies : List Message) × (end.memory.messages ≡ [] ++ replies)
      × Answers env registry
          (lookup_call ∷ [])
          (initial.llm, initial.world)
          replies
          (end.llm, end.world))
    × (count_tool_calls end.events ≡ 0 + 1)
    × (count_llm_calls end.events ≡ 0)
run_calls-Answers_example = run_calls-Answers env registry [] [] (lookup_call ∷ []) initial

talker_fits : estimate_total_tokens calls_len talker < 40
unfolding estimate_total_tokens program
talker_fits = omega arith

abbrev stalled : AgentMemory
stalled = record {
  pid = 7;
  long_term = [];
  messages =
      said (text "assistant") []
      ∷ said (text "user") (text "a")
      ∷ said (text "assistant") (text "b")
      ∷ said (text "user") (text "c")
      ∷ said (text "assistant") (text "d")
      ∷ [];
  summary = text "old";
}

-- The summary call fails, and the first of the five messages is gone all the same.
abbrev mute : Env Text ℕ
mute = record env { exchange = λ req w. (http_error (text "503"), w) }

abbrev five : State ℕ
five = record initial { memory = stalled }

preflight-IsSettled_example :
    IsSettled calls_len 80000 talker (preflight calls_len 80000 40 talker)
    × (estimate calls_len 80000 (preflight calls_len 80000 40 talker)
        ≤ estimate calls_len 80000 talker)
preflight-IsSettled_example = preflight-IsSettled calls_len 80000 40 talker talker_fits

stalled_over : 80000 < estimate_total_tokens calls_len stalled + 80000
unfolding estimate_total_tokens program
stalled_over = omega arith
