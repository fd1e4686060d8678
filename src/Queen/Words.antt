-- ===== src/Queen/Words.antt =====
-- sdk/python/hivekernel_sdk/queen.py: `_word_similarity`, the keyword sets and the first two tiers of
-- `_assess_complexity`. A Python set of words is a list without repetitions.
pub mod Similarity
use hivekernel.Prelude.{
  ℕ, ◌+◌, ◌-◌, ◌*◌, Bool, false, ◌&&◌, ◌||◌, Option, none, some, List, [], ◌∷◌, ltb, leb, ◌==◌,
  length, keep, map, if◌then◌else◌,
}
use hivekernel.Prelude.Text.{Text, text, lower, words, member}
use hivekernel.Queen.{Complexity, simple, complex, architect, HistoryEntry}

unfoldable pub word_set : List Text → List Text
word_set [] = []
word_set (w ∷ ws) = let rest = word_set ws in if member w ws then rest else w ∷ rest

unfoldable pub words_of : Text → List Text
unfolding word_set
words_of s = word_set (words (lower s))

-- `len(a & b)`
unfoldable pub common : List Text → List Text → ℕ
common a b = length (keep (λ w. member w b) a)

-- `_word_similarity(a, b) >= SIMILARITY_THRESHOLD`: the quotient of the sizes of the intersection and
-- of the union is at least 0.5, which the rounding of the division does not change.
similar_sets : List Text → List Text → Bool
unfolding common
similar_sets [] b = false
similar_sets (w ∷ ws) [] = false
similar_sets (w ∷ ws) (v ∷ vs) =
    let both = common (w ∷ ws) (v ∷ vs) in leb (length (w ∷ ws) + length (v ∷ vs) - both) (2 * both)

unfoldable pub is_similar : Text → Text → Bool
unfolding words_of similar_sets
is_similar a b = similar_sets (words_of a) (words_of b)

unfoldable pub simple_keywords : List Text
unfolding text
simple_keywords = map text (
    "translate" ∷ "summarize" ∷ "define" ∷ "explain" ∷ "convert" ∷ "format" ∷ "count" ∷ "list"
    ∷ "describe" ∷ "what" ∷ [])

unfoldable pub complex_keywords : List Text
unfolding text
complex_keywords = map text (
    "research" ∷ "analyze" ∷ "compare" ∷ "investigate" ∷ "plan" ∷ "design" ∷ "implement"
    ∷ "evaluate" ∷ "review" ∷ "create" ∷ "develop" ∷ "build" ∷ "optimize" ∷ "benchmark" ∷ [])

unfoldable pub architect_keywords : List Text
unfolding text
architect_keywords =
    map text
      ("architect" ∷ "architecture" ∷ "blueprint" ∷ "roadmap" ∷ "infrastructure" ∷ "framework" ∷ [])

-- The first entry of the history that is similar to the description.
unfoldable pub from_history : Text → List HistoryEntry → Option Complexity
unfolding is_similar
from_history description [] = none
from_history description (e ∷ es) =
    let rest = from_history description es in
    if is_similar e.task description then some e.complexity else rest

-- The keywords and the length, or nothing where they do not decide.
unfoldable pub heuristic : Text → Option Complexity
unfolding words_of common simple_keywords complex_keywords architect_keywords
heuristic description =
    let found = words_of description in
    let architect_hits = common found architect_keywords in
    let simple_hits = common found simple_keywords in
    let complex_hits = common found complex_keywords in
    if leb 1 architect_hits
    then some architect
    else if ltb (length description) 80 && (ltb 0 simple_hits && complex_hits == 0)
    then some simple
    else if ltb 200 (length description) || leb 2 complex_hits
    then some complex
    else none
