-- ===== src/Loop/Overflow.antt =====
-- sdk/python/hivekernel_sdk/loop.py: `_is_context_overflow`. A pattern is the list of the texts that
-- stand between its `.*`; a `.` matches no newline, so `re.search` looks for them in one line.
use hivekernel.Prelude.{Bool, true, false, ◌||◌, none, some, List, [], ◌∷◌, ◌≡◌, refl}
use hivekernel.Prelude.Text.{Text, text, lower, split_on, after_first}

pub overflow_patterns : List (List Text)
unfolding text
overflow_patterns =
    (text "context length" ∷ [])
    ∷ (text "context_length" ∷ [])
    ∷ (text "too many tokens" ∷ [])
    ∷ (text "too long" ∷ [])
    ∷ (text "max" ∷ text "token" ∷ text "exceed" ∷ [])
    ∷ (text "request too large" ∷ [])
    ∷ (text "maximum" ∷ text "tokens" ∷ [])
    ∷ (text "prompt" ∷ text "exceed" ∷ [])
    ∷ []

-- The parts stand in the line one behind the other.
in_order : List Text → Text → Bool
in_order [] line = true
in_order (p ∷ ps) line = elim (after_first p line) [ none ↦ false | some rest ↦ in_order ps rest ]

any_line : List Text → List Text → Bool
unfolding in_order
any_line parts [] = false
any_line parts (l ∷ ls) = in_order parts l || any_line parts ls

any_pattern : List (List Text) → Text → Bool
unfolding any_line
any_pattern [] s = false
any_pattern (p ∷ ps) s = any_line p (split_on 10 s) || any_pattern ps s

unfoldable pub is_context_overflow : Text → Bool
unfolding any_pattern overflow_patterns
is_context_overflow error_msg = any_pattern overflow_patterns (lower error_msg)

-- The error of an answer without choices is no overflow.
pub no_choices_is_no_overflow : is_context_overflow (text "OpenRouter returned no choices") ≡ false
unfolding is_context_overflow lower split_on after_first text
no_choices_is_no_overflow = refl
