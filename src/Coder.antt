-- ===== src/Coder.antt =====
-- sdk/python/hivekernel_sdk/coder.py: `CoderAgent`, which has the model write code and keeps it as an
-- artifact.
mod Witnesses
use hivekernel.Prelude.{
  ℕ, Bool, not, ◌&&◌, ◌||◌, Option, none, some, List, [], ◌∷◌, ◌++◌, ◌==◌, leb, length, drop, map,
  take, if◌then◌else◌,
}
use hivekernel.Prelude.Text.{Text, text, truthy, lower, strip, strip_of, starts_with, fence}
use hivekernel.Prelude.Dict.{Dict, lookup_or}
use hivekernel.Prelude.Decimal.{show}
use hivekernel.Exec.{Result, ok, raised, Exec, pure, suppress, continue, ◌>>=◌, ◌>>◌}
use hivekernel.Core.{Core, Session, TaskOutput, store_artifact, log}
use hivekernel.Assistant.Blocks.{split_at_first}

abbrev pub CoderState : Type 0 → Type 0
CoderState W = Session (Unit {0}) W

-- The kernel, the model with its system prompt, and which characters `\w` matches.
pub record CoderEnv (W : Type 0) : Type 0 where
  pub core : Core W
  pub complete : (prompt system : Text) → W → Result Text × W
  pub is_word : ℕ → Bool

pub record Task : Type 0 where
  pub description : Text
  pub params : Dict Text

unfoldable pub system_of : Text → Text
system_of language =
    text "You are a skilled "
    ++ (language
        ++ text
            " programmer working inside HiveKernel, a process-tree OS for LLM agents.\nWrite clean, well-structured, production-quality code.\nReturn ONLY the code block with brief inline comments.\nDo not include explanations outside the code unless explicitly asked.\nIf the request is ambiguous, make reasonable assumptions and note them in a comment at the top.")

unfoldable pub coder_prompt : (request context : Text) → Text
coder_prompt request context =
    let prompt = text "Task: " ++ request in
    if truthy context then text "Context:\n" ++ (context ++ (10 ∷ 10 ∷ prompt)) else prompt

is_key_char : ℕ → Bool
is_key_char c = (leb b'a' c && leb c b'z') || (leb b'0' c && leb c b'9') || c == b'-'

unfoldable pub safe_key : Text → Text
unfolding is_key_char
safe_key request =
    strip_of (text "-") (take 40 (map (λ c. if is_key_char c then c else b'-') (lower request)))

abbrev up_to : Option (Text × Text) → Option Text
up_to none = none
up_to (some (code, rest)) = some code

-- `(.*?)` and a fence, behind the end of the line.
after_line : Text → Option Text
unfolding split_at_first
after_line [] = none
after_line (c ∷ s) = if c == 10 then up_to (split_at_first fence s) else none

abbrev or_later : Option Text → Option Text → Option Text
or_later none later = later
or_later (some code) later = some code

module _ (is_word : ℕ → Bool) where
  skip_word : Text → Text
  skip_word [] = []
  skip_word (c ∷ s) = let rest = skip_word s in if is_word c then rest else c ∷ s

  -- A match at the start of the text.
  match_here : Text → Option Text
  unfolding skip_word after_line
  match_here s =
      if starts_with s fence then after_line (skip_word (drop (length fence) s)) else none

  unfoldable pub search_block : Text → Option Text
  unfolding match_here
  search_block [] = none
  search_block (c ∷ s) = or_later (match_here (c ∷ s)) (search_block s)

  unfoldable pub extract_code_block : Text → Text
  unfolding search_block
  extract_code_block s = elim (search_block s) [ none ↦ strip s | some code ↦ strip code ]

abbrev pub done : ℕ → Text → TaskOutput
done exit_code output = record {
  exit_code = exit_code;
  output = output;
  artifacts = [];
  metadata = [];
}

module _ {W : Type 0} (env : CoderEnv W) where
  unfoldable pub keep_code :
      (request language : Text) → Result Text → Exec (CoderState W) TaskOutput
  unfolding safe_key extract_code_block
  keep_code request language (raised e) = pure (done 1 (text "Code generation failed: " ++ e))
  keep_code request language (ok response) = do
    suppress (
        store_artifact env.core (text "code/" ++ safe_key request)
          (extract_code_block env.is_word response))
    log env.core (text "info") (
        text "Coder generated "
        ++ (show (length (extract_code_block env.is_word response))
            ++ (text " chars of " ++ language)))
    pure (done 0 (extract_code_block env.is_word response))

  unfoldable pub generate : (request language context : Text) → Exec (CoderState W) TaskOutput
  unfolding keep_code system_of coder_prompt
  generate request language context st =
      let (r, world) = env.complete (coder_prompt request context) (system_of language) st.world in
      keep_code request language r (record st { world = world })

  unfoldable pub handle_task : Task → Exec (CoderState W) TaskOutput
  unfolding generate
  handle_task task =
      let request = lookup_or (text "request") task.description task.params in
      let language = lookup_or (text "language") (text "python") task.params in
      if truthy (strip request)
      then (log env.core (text "info")
            (text "Coder: " ++ (language ++ (text " | " ++ take 80 request)))
          >> generate request language (lookup_or (text "context") [] task.params))
      else pure (done 1 (text "Empty code request"))
