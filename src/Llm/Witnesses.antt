-- ===== src/Llm/Witnesses.antt =====
-- The accounting of llm.py at an answer, at an answer without choices and at an error.
use hivekernel.Prelude.{ℕ, ◌+◌, ◌≡◌, refl, some, [], ◌∷◌}
use hivekernel.Prelude.Text.{text}
use hivekernel.Llm.{
  Usage, answer, http_error, ToolMessage, new_client, runtime_error, ok, chat_with_tools,
}
use hivekernel.Llm.Accounting.{chat_with_tools-ok_calls}

abbrev usage : Usage
usage = record { prompt_tokens = 3; completion_tokens = 4; total_tokens = 7 }

abbrev hello : ToolMessage
hello = record { content = some (text "hello"); tool_calls = [] }

answered :
    (chat_with_tools (λ r w. (answer usage (hello ∷ []), w + 1)) [] [] [] [] (new_client []) 0).0
    ≡ ok hello
unfolding chat_with_tools
answered = refl

refused :
    (chat_with_tools {W = ℕ}
      (λ r w. (http_error (text "429"), w + 1))
      []
      []
      []
      []
      (new_client [])
      0).0
    ≡ runtime_error (text "429")
unfolding chat_with_tools
refused = refl

chat_with_tools-ok_calls_example :
    (chat_with_tools
      (λ r w. (answer usage (hello ∷ []), w + 1))
      []
      []
      []
      []
      (new_client [])
      0).1.llm_calls
    ≡ (new_client []).llm_calls + 1
chat_with_tools-ok_calls_example =
    chat_with_tools-ok_calls (λ r w. (answer usage (hello ∷ []), w + 1)) [] [] [] [] (new_client [])
      0 hello answered
