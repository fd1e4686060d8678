-- ===== src/Coder/Witnesses.antt =====
-- Tests of coder.py.
use hivekernel.Prelude.{◌≡◌, refl, leb, keep}
use hivekernel.Prelude.Text.{text, strip, strip_of, lower}
use hivekernel.Coder.{extract_code_block, safe_key}

test_block :
    (extract_code_block (leb 48) (text "Here:\n```python\nx = 1\n```\nbye") ≡ text "x = 1")
    × (extract_code_block (leb 48) (text " x = 1 ") ≡ text "x = 1")
unfolding extract_code_block text strip
test_block = (refl, refl)

test_key : safe_key (text "Sort a List!") ≡ text "sort-a-list"
unfolding safe_key text strip_of lower keep
test_key = refl
