-- ===== src/Orchestrator/Groups.antt =====
-- sdk/python/hivekernel_sdk/orchestrator.py: `_parse_groups` and `_cap_groups`.
pub mod Capping
use hivekernel.Prelude.{
  ℕ, zero, suc, ◌+◌, ◌%◌, Bool, true, false, not, ◌&&◌, ◌||◌, Option, none, some, List, [], ◌∷◌,
  ◌++◌, if◌then◌else◌, leb, ◌==◌, length, take, drop, keep, map,
}
use mathlib.Core.List.{reverse}
use hivekernel.Prelude.Text.{
  Text, text, truthy, strip, strip_of, strip_fences, starts_with, fence, split_on,
}
use hivekernel.Prelude.Decimal.{show}
use hivekernel.Exec.{Result, ok, raised}

pub record Group : Type 0 where
  pub name : Text
  pub subtasks : List Text

-- An element of `data["groups"]`: a dictionary whose `subtasks` is a list, with the `str` of its name,
-- if it has one, and of each subtask, or anything else.
pub data Entry : Type 0 where
  entry : Option Text → List Text → Entry
  other : Entry

-- What `json.loads` makes of a text, as far as `_parse_groups` looks: an exception, a dictionary whose
-- `groups` is a list, a list, of which the `str` of each element is read, or anything else.
pub data Decoded : Type 0 where
  no_json : Decoded
  grouped : List Entry → Decoded
  flat : List Text → Decoded
  unexpected : Decoded

-- `merged[i]["subtasks"].extend(extra["subtasks"])`
unfoldable pub extend_at : ℕ → List Text → List Group → List Group
extend_at i extra [] = []
extend_at zero extra (g ∷ gs) = record g { subtasks = g.subtasks ++ extra } ∷ gs
extend_at (suc i) extra (g ∷ gs) = g ∷ extend_at i extra gs

-- The loop over the groups beyond the limit, from its `i`-th on.
unfoldable pub merge_extras : (max_workers i : ℕ) → (extras merged : List Group) → List Group
unfolding extend_at
merge_extras max_workers i [] merged = merged
merge_extras max_workers i (g ∷ gs) merged =
    merge_extras max_workers (i + 1) gs (extend_at (i % max_workers) g.subtasks merged)

-- Without workers the first `i % max_workers` raises.
unfoldable pub cap_groups : List Group → ℕ → Result (List Group)
unfolding merge_extras
cap_groups [] max_workers = ok []
cap_groups (g ∷ gs) zero = raised (text "integer modulo by zero")
cap_groups (g ∷ gs) (suc n) =
    let merged = merge_extras (suc n) 0 (drop (suc n) (g ∷ gs)) (take (suc n) (g ∷ gs)) in
    ok (if leb (length (g ∷ gs)) (suc n) then g ∷ gs else merged)

named : ℕ → Option Text → Text
named n (some name) = name
named n none = text "group-" ++ show n

-- The dictionaries with subtasks, numbered by those before them that were taken.
unfoldable pub valid_groups : ℕ → List Entry → List Group
unfolding named
valid_groups n [] = []
valid_groups n (other ∷ es) = valid_groups n es
valid_groups n (entry name [] ∷ es) = valid_groups n es
valid_groups n (entry name (s ∷ ss) ∷ es) =
    record { name = named (n + 1) name; subtasks = keep (λ t. truthy (strip t)) (s ∷ ss) }
    ∷ valid_groups (n + 1) es

-- One group for each text that passes the test, numbered by its position.
unfoldable pub single_groups : (Text → Bool) → ℕ → List Text → List Group
single_groups p n [] = []
single_groups p n (s ∷ ss) =
    let rest = single_groups p (n + 1) ss in
    if p s then record { name = text "task-" ++ show (n + 1); subtasks = s ∷ [] } ∷ rest else rest

-- A line without its spaces, quotes, dashes and numbering.
unfoldable pub clean_line : Text → Text
unfolding strip_of
clean_line s =
    strip_of (text "0123456789.)") (strip_of (text "- ") (strip_of (text "\"") (strip s)))

unfoldable pub plan_lines : Text → List Text
unfolding clean_line
plan_lines raw = keep truthy (
    map clean_line
      (keep (λ s. truthy (strip s) && not (starts_with (strip s) fence)) (split_on 10 (strip raw))))

-- The groups before they are capped. A strategy without a group leaves the text to the next.
unfoldable pub from_lines : Text → List Group
unfolding plan_lines single_groups
from_lines raw = single_groups (λ s. true) 0 (plan_lines raw)

unfoldable pub or_lines : List Group → Text → List Group
or_lines [] raw = from_lines raw
or_lines (g ∷ gs) raw = g ∷ gs

unfoldable pub found_groups : Decoded → Text → List Group
unfolding from_lines or_lines valid_groups
found_groups (grouped es) raw = or_lines (valid_groups 0 es) raw
found_groups (flat ss) raw = or_lines (single_groups (λ s. truthy (strip s)) 0 ss) raw
found_groups no_json raw = from_lines raw
found_groups unexpected raw = from_lines raw

unfoldable pub plan_text : Text → Text
plan_text raw =
    if starts_with (strip raw) fence then strip (strip_fences (strip raw)) else strip raw

unfoldable pub parse_groups : (Text → Decoded) → Text → ℕ → Result (List Group)
unfolding plan_text found_groups cap_groups
parse_groups loads raw max_workers =
    cap_groups (found_groups (loads (plan_text raw)) raw) max_workers
