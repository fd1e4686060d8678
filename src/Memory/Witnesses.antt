-- ===== src/Memory/Witnesses.antt =====
-- Tests of memory.py, and its theorems at concrete memories.
use hivekernel.Prelude.{◌≤◌, ◌≡◌, refl, [], length}
use hivekernel.Prelude.Text.{text}
use hivekernel.Prelude.Decimal.{show}
use hivekernel.Memory.{
  fresh, estimate_total_tokens, message_len, messages_len, tool_calls_len, force_compress,
}
use hivekernel.Memory.Compression.{
  IsLast, force_compress-IsLast, kept_messages, kept_summary, kept_long_term, force_compress_thrice,
}
use hivekernel.Memory.Storage.{load, save, key}
use hivekernel.Memory.Storage.Laws.{load-save}
use hivekernel.Memory.Samples.{dumps, loads, calls_len, talker, empty_store}

test_key : key 7 (text "memory") ≡ text "agent:7:memory"
unfolding key text show
test_key = refl

test_estimate : estimate_total_tokens calls_len talker ≡ 34
unfolding estimate_total_tokens message_len messages_len tool_calls_len calls_len text
test_estimate = refl

test_compress : length (force_compress talker).messages ≡ 4
unfolding force_compress
test_compress = refl

force_compress-IsLast_example :
    IsLast (kept_messages (length talker.messages)) (force_compress talker).messages talker.messages
    × IsLast (kept_summary (length talker.messages)) (force_compress talker).summary talker.summary
    × IsLast
        (kept_long_term (length talker.messages) (length talker.long_term))
        (force_compress talker).long_term
        talker.long_term
    × (length (force_compress talker).messages ≤ 4)
force_compress-IsLast_example = force_compress-IsLast talker

force_compress_thrice_example :
    (length (force_compress (force_compress (force_compress talker))).messages ≤ 1)
    × ((force_compress (force_compress (force_compress talker))).summary ≡ [])
    × (length (force_compress (force_compress (force_compress talker))).long_term ≤ 1000)
force_compress_thrice_example = force_compress_thrice talker

load-save_example : load dumps loads (save dumps loads talker empty_store) (fresh 7) ≡ talker
load-save_example =
    load-save dumps loads talker (fresh 7) empty_store refl refl refl refl (unfold dumps in refl)
      (unfold dumps loads text in refl)
