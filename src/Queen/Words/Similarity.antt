-- ===== src/Queen/Words/Similarity.antt =====
-- `_word_similarity` of queen.py: which task is compared with which does not matter.
use hivekernel.Prelude.{
  ℕ, ◌+◌, ◌≡◌, inl, inr, refl, sym, ◌∙◌, Bool, false, Bool-cases, List, [], ◌∷◌, length, keep,
  if◌then◌else◌, arith,
}
use hivekernel.Prelude.Text.{Text, text_eq, text_eq_iff, member, words, lower}
use hivekernel.Queen.Words.{word_set, words_of, common, similar_sets, is_similar}

-- No word stands twice.
abbrev pub IsWordSet : List Text → Type 0
IsWordSet [] = Unit
IsWordSet (w ∷ ws) = (member w ws ≡ false) × IsWordSet ws

text_eq_comm : (s t : Text) → text_eq s t ≡ text_eq t s
text_eq_comm s t = ground (arith, text_eq_iff s t, text_eq_iff t s)

member-word_set : (w : Text) (ws : List Text) → member w (word_set ws) ≡ member w ws
unfolding word_set member
member-word_set w [] = refl
member-word_set w (v ∷ ws) = ground (arith, member-word_set w ws, text_eq_iff v w)

word_set-IsWordSet : (ws : List Text) → IsWordSet (word_set ws)
unfolding word_set
word_set-IsWordSet [] = tt
word_set-IsWordSet (w ∷ ws) = elim (Bool-cases (member w ws)) [
  | inl seen ↦ rw seen (word_set-IsWordSet ws)
  | inr fresh ↦ rw fresh (member-word_set w ws ∙ fresh, word_set-IsWordSet ws)
]

abbrev one : Bool → ℕ
one b = if b then 1 else 0

absent_count :
    (w : Text) (b : List Text) → member w b ≡ false → length (keep (λ v. text_eq v w) b) ≡ 0
unfolding keep member
absent_count w [] h = refl
absent_count w (v ∷ b) h = ground (arith, absent_count w b)

-- In a set a word stands once or not at all.
count_word :
    (w : Text) (b : List Text) → IsWordSet b → length (keep (λ v. text_eq v w) b) ≡ one (member w b)
unfolding keep member
count_word w [] h = refl
count_word w (v ∷ b) h = ground (arith, count_word w b h.1, absent_count w b, text_eq_iff v w)

-- One more word to be in common with.
common-cons :
    (w : Text) (ws b : List Text)
    → member w ws ≡ false
    → common b (w ∷ ws) ≡ length (keep (λ v. text_eq v w) b) + common b ws
unfolding common keep member
common-cons w ws [] fresh = omega arith
common-cons w ws (v ∷ b) fresh =
    ground (arith, common-cons w ws b fresh, text_eq_iff v w, text_eq_iff w v)

common_nil : (b : List Text) → common b [] ≡ 0
unfolding common keep member
common_nil [] = refl
common_nil (w ∷ b) = common_nil b

common_comm : (a b : List Text) → IsWordSet a → IsWordSet b → common a b ≡ common b a
unfolding common keep
common_comm [] b ha hb = sym (common_nil b)
common_comm (w ∷ a) b ha hb =
    ground (arith, common_comm a b ha.1 hb, common-cons w a b ha.0, count_word w b hb)

similar_sets_comm :
    (a b : List Text) → IsWordSet a → IsWordSet b → similar_sets a b ≡ similar_sets b a
unfolding similar_sets
similar_sets_comm [] [] ha hb = refl
similar_sets_comm [] (v ∷ b) ha hb = refl
similar_sets_comm (w ∷ a) [] ha hb = refl
similar_sets_comm (w ∷ a) (v ∷ b) ha hb = ground (arith, common_comm (w ∷ a) (v ∷ b) ha hb)

-- Two descriptions are similar in either order or in none.
is_similar_comm : (a b : Text) → is_similar a b ≡ is_similar b a
unfolding is_similar words_of
is_similar_comm a b =
    similar_sets_comm (words_of a) (words_of b) (word_set-IsWordSet (words (lower a)))
      (word_set-IsWordSet (words (lower b)))
