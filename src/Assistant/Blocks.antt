-- ===== src/Assistant/Blocks.antt =====
-- `_extract_json_block` of assistant.py, and the loop of `handle_task` that strips the blocks from the
-- answer of the model.
pub mod Extraction
use hivekernel.Prelude.{
  ℕ, suc, ◌+◌, ◌-◌, Bool, true, false, Option, none, some, List, [], ◌∷◌, ◌++◌, ◌==◌, length, drop,
  if◌then◌else◌,
}
use hivekernel.Prelude.Text.{Text, text, truthy, starts_with}
use hivekernel.Prelude.Dict.{Dict}

-- What `json.loads` makes of a block, as far as the assistant looks: the fields that are texts, and
-- `params`.
pub record Block : Type 0 where
  pub fields : Dict Text
  pub params : Option (Dict Text)

-- `if not info`
abbrev pub is_empty : Block → Bool
is_empty block = elim block.params [
  | some p ↦ false
  | none ↦ elim block.fields [ [] ↦ true | e ∷ d ↦ false ]
]

abbrev prepend : ℕ → Option (Text × Text) → Option (Text × Text)
prepend c none = none
prepend c (some (s, t)) = some (c ∷ s, t)

-- `s[:idx]` and `s[idx:]` for `idx = s.index(p)`.
unfoldable pub split_at_first : Text → Text → Option (Text × Text)
unfolding starts_with
split_at_first p [] = if truthy p then none else some ([], [])
split_at_first p (c ∷ s) =
    let rest = prepend c (split_at_first p s) in
    if starts_with (c ∷ s) p then some ([], c ∷ s) else rest

-- The characters up to the brace that brings the depth to 0, and those behind it.
unfoldable pub close_block : ℕ → Text → Option (Text × Text)
close_block depth [] = none
close_block depth (c ∷ s) =
    let deeper = close_block (depth + 1) s in
    let higher = close_block (depth - 1) s in
    let on = close_block depth s in
    if c == b'{'
    then prepend c deeper
    else if c == b'}'
    then (if depth == 1 then some (c ∷ [], s) else prepend c higher)
    else prepend c on

-- The block that starts at the first opening brace, and what stands behind the block.
unfoldable pub block_and_rest : Text → Option (Text × Text)
unfolding close_block
block_and_rest [] = none
block_and_rest (c ∷ s) =
    let later = block_and_rest s in if c == b'{' then prepend c (close_block 1 s) else later

module _ (loads : Text → Option Block) where
  load_block : Option (Text × Text) → Option Block
  load_block none = none
  load_block (some (json, rest)) = loads json

  unfoldable pub block_behind : Text → Option (Text × Text) → Option Block
  unfolding load_block block_and_rest
  block_behind marker none = none
  block_behind marker (some (before, from)) =
      load_block (block_and_rest (drop (length marker) from))

  unfoldable pub extract_json_block : Text → Text → Option Block
  unfolding block_behind split_at_first
  extract_json_block s marker = block_behind marker (split_at_first marker s)

  without_block : Text → Text → Option Block → Option (Text × Text) → Text
  without_block s before (some block) (some (json, rest)) = before ++ rest
  without_block s before (some block) none = s
  without_block s before none found = s

  cut_block : Text → Option Block → Option (Text × Text) → Text
  unfolding without_block block_and_rest
  cut_block s block none = s
  cut_block s block (some (before, from)) = without_block s before block (block_and_rest from)

  -- One turn of the loop over the markers.
  unfoldable pub strip_marker : Text → Text → Text
  unfolding cut_block split_at_first
  strip_marker s marker = cut_block s (extract_json_block s marker) (split_at_first marker s)

  unfoldable pub strip_markers : Text → List Text → Text
  strip_markers s [] = s
  strip_markers s (marker ∷ markers) = strip_markers (strip_marker s marker) markers
