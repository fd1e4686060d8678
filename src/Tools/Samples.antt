-- ===== src/Tools/Samples.antt =====
-- Two concrete tools: an adder of the world's counter that answers, and one that raises.
use hivekernel.Prelude.{ℕ, ◌+◌, false}
use hivekernel.Prelude.Text.{text}
use hivekernel.Tools.{Tool, returns, raises}

abbrev pub counter : Tool ℕ ℕ
counter = record {
  name = text "count";
  description = text "Count up";
  parameters = text "{}";
  run = λ n w. (returns (record { content = text "done"; is_error = false }), w + n);
}

abbrev pub broken_counter : Tool ℕ ℕ
broken_counter = record {
  name = text "count";
  description = text "Count up";
  parameters = text "{}";
  run = λ n w. (raises (text "out of order"), w + n);
}

abbrev pub clock : Tool ℕ ℕ
clock = record {
  name = text "clock";
  description = text "Tell the time";
  parameters = text "{}";
  run = λ n w. (returns (record { content = text "noon"; is_error = false }), w);
}
