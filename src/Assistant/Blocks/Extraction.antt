-- ===== src/Assistant/Blocks/Extraction.antt =====
-- `_extract_json_block` of assistant.py finds a block whose braces match.
use hivekernel.Prelude.{
  ℕ, suc, ◌≡◌, ◌≢◌, refl, ap, sym, ◌∙◌, true, false, Option, none, some, [], ◌∷◌, ◌++◌,
  append_assoc, length, drop, arith, All,
}
use hivekernel.Prelude.Text.{Text, starts_with}
use hivekernel.Assistant.Blocks.{
  Block, prepend, split_at_first, close_block, block_and_rest, extract_json_block, strip_marker,
}

-- A text in which the braces match.
pub data Nested : Text → Type 0 where
  empty : Nested []
  plain : (c : ℕ) (s : Text) → c ≢ b'{' → c ≢ b'}' → Nested s → Nested (c ∷ s)
  braces : (s t : Text) → Nested s → Nested t → Nested (b'{' ∷ (s ++ b'}' ∷ t))

abbrev prepend_all : Text → Option (Text × Text) → Option (Text × Text)
prepend_all s none = none
prepend_all s (some (t, rest)) = some (s ++ t, rest)

-- `p` starts nowhere in `before`, behind which `after` stands.
abbrev pub FirstAt : (p before after : Text) → Type 0
FirstAt p [] after = Unit
FirstAt p (c ∷ before) after =
    (starts_with (c ∷ (before ++ after)) p ≡ false) × FirstAt p before after

prepend_all_cons :
    (c : ℕ) (s : Text) (o : Option (Text × Text))
    → prepend c (prepend_all s o) ≡ prepend_all (c ∷ s) o
prepend_all_cons c s none = refl
prepend_all_cons c s (some (u, rest)) = refl

prepend_all_nil : (o : Option (Text × Text)) → o ≡ prepend_all [] o
prepend_all_nil none = refl
prepend_all_nil (some (u, rest)) = refl

close-plain :
    (depth c : ℕ) (s : Text)
    → c ≢ b'{'
    → c ≢ b'}'
    → close_block depth (c ∷ s) ≡ prepend c (close_block depth s)
unfolding close_block
close-plain depth c s no_open no_close = ground (arith, no_open, no_close)

close-close :
    (depth : ℕ) (s : Text)
    → close_block (suc (suc depth)) (b'}' ∷ s) ≡ prepend b'}' (close_block (suc depth) s)
unfolding close_block
close-close depth s = ground arith

close-open :
    (depth : ℕ) (s : Text) → close_block depth (b'{' ∷ s) ≡ prepend b'{' (close_block (suc depth) s)
unfolding close_block
close-open depth s = ground arith

close_last : (s : Text) → close_block 1 (b'}' ∷ s) ≡ some (b'}' ∷ [], s)
unfolding close_block
close_last s = ground arith

prepend_all_braces :
    (s t : Text) (o : Option (Text × Text))
    → prepend b'{' (prepend_all s (prepend b'}' (prepend_all t o)))
      ≡ prepend_all (b'{' ∷ (s ++ b'}' ∷ t)) o
prepend_all_braces s t none = refl
prepend_all_braces s t (some (u, rest)) =
    ap (λ v. some (b'{' ∷ v, rest)) (sym (append_assoc s (b'}' ∷ t) u))

-- The counting of depths passes over a text in which the braces match.
close-Nested :
    {s : Text} (depth : ℕ) (rest : Text)
    → Nested s
    → close_block (suc depth) (s ++ rest) ≡ prepend_all s (close_block (suc depth) rest)
close-Nested depth rest empty = prepend_all_nil _
close-Nested depth rest (plain c s no_open no_close n) =
    close-plain (suc depth) c (s ++ rest) no_open no_close
    ∙ ap (prepend c) (close-Nested depth rest n)
    ∙ prepend_all_cons c s _
close-Nested depth rest (braces s t n m) =
    close-open (suc depth) ((s ++ b'}' ∷ t) ++ rest)
    ∙ ap (λ u. prepend b'{' (close_block (suc (suc depth)) u)) (append_assoc s (b'}' ∷ t) rest)
    ∙ ap (prepend b'{') (
        close-Nested (suc depth) (b'}' ∷ (t ++ rest)) n
        ∙ ap (prepend_all s)
            (close-close depth (t ++ rest) ∙ ap (prepend b'}') (close-Nested depth rest m)))
    ∙ prepend_all_braces s t (close_block (suc depth) rest)

block-Nested :
    (inner rest : Text)
    → Nested inner
    → block_and_rest (b'{' ∷ (inner ++ b'}' ∷ rest)) ≡ some (b'{' ∷ (inner ++ b'}' ∷ []), rest)
unfolding block_and_rest
block-Nested inner rest n =
    ap (prepend b'{') (close-Nested 0 (b'}' ∷ rest) n ∙ ap (prepend_all inner) (close_last rest))

-- A text without an opening brace.
abbrev pub Flat : Text → Type 0
Flat = All (λ c. c ≢ b'{')

block-Flat : (gap rest : Text) → Flat gap → block_and_rest (gap ++ rest) ≡ block_and_rest rest
unfolding block_and_rest
block-Flat [] rest flat = refl
block-Flat (c ∷ gap) rest flat = ground (arith, flat.0, block-Flat gap rest flat.1)

starts_with-append : (p s : Text) → starts_with (p ++ s) p ≡ true
unfolding starts_with
starts_with-append [] s = ground arith
starts_with-append (c ∷ p) s = ground (arith, starts_with-append p s)

split_here : (p s : Text) → starts_with s p ≡ true → split_at_first p s ≡ some ([], s)
unfolding split_at_first starts_with
split_here [] [] h = refl
split_here (c ∷ p) [] h = cc
split_here p (d ∷ s) h = rw h refl

split-FirstAt :
    (p before s : Text)
    → FirstAt p before (p ++ s)
    → split_at_first p (before ++ (p ++ s)) ≡ some (before, p ++ s)
unfolding split_at_first
split-FirstAt p [] s first = split_here p (p ++ s) (starts_with-append p s)
split-FirstAt p (c ∷ before) s first =
    rw first.0 (ap (prepend c) (split-FirstAt p before s first.1))

drop-append : (p s : Text) → drop (length p) (p ++ s) ≡ s
drop-append [] s = refl
drop-append (c ∷ p) s = drop-append p s

module _ (loads : Text → Option Block) where
  -- Behind the first place of a marker, and some text without an opening brace, stands a block whose
  -- braces match and which is JSON. Then this block is what is extracted, and the stripped answer is the
  -- text before the marker followed by the text behind the block.
  pub extract_json_block-Nested :
      (marker before gap inner after : Text) (block : Block)
      → let json = b'{' ∷ (inner ++ b'}' ∷ []) in
        let answer = before ++ (marker ++ (gap ++ b'{' ∷ (inner ++ b'}' ∷ after))) in
        FirstAt marker before (marker ++ (gap ++ b'{' ∷ (inner ++ b'}' ∷ after)))
        → Flat marker
        → Flat gap
        → Nested inner
        → loads json ≡ some block
        → (extract_json_block loads answer marker ≡ some block)
          × (strip_marker loads answer marker ≡ before ++ after)
  unfolding extract_json_block strip_marker
  extract_json_block-Nested marker before gap inner after block first flat_marker flat_gap n json =
      let rest = gap ++ b'{' ∷ (inner ++ b'}' ∷ after) in
      let found =
        block-Flat gap (b'{' ∷ (inner ++ b'}' ∷ after)) flat_gap ∙ block-Nested inner after n in
      let extracted : extract_json_block loads (before ++ (marker ++ rest)) marker ≡ some block =
        rw (split-FirstAt marker before rest first, drop-append marker rest, found) json in
      (
        extracted,
        rw
            (
              extracted,
              split-FirstAt marker before rest first,
              block-Flat marker rest flat_marker,
              found,
            )
            refl,
      )
