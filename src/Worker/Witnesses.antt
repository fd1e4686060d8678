-- ===== src/Worker/Witnesses.antt =====
-- Tests of worker.py.
use hivekernel.Prelude.{◌≡◌, refl, [], ◌∷◌}
use hivekernel.Prelude.Text.{text, join_lines}
use hivekernel.Prelude.Decimal.{show}
use hivekernel.Worker.{context}

test_context :
    context (record { task = text "a"; output = text "b" } ∷ [])
    ≡ text
        "You have already completed these related tasks:\n\n--- Previous task 1 ---\nTask: a\nResult: b\n\n--- Current task ---\nUse context from your previous tasks to inform this response.\n"
unfolding context text join_lines show
test_context = refl
