-- ===== src/Prelude/Text.antt =====
-- Python's `str` as its list of code points, so that `len`, slices and `+` are those of lists.
-- `lower` follows `str.lower` on ASCII letters and leaves other code points alone.
use Prim.Native.Nat.{ℕ, ◌+◌}
use Prim.Native.Char.{code}
use Prim.Native.String.{String}
use mathlib.Core.Path.{◌≡◌, refl}
use mathlib.Core.Logic.{◌↔◌}
use mathlib.Core.Bool.{Bool, true, false, ◌&&◌, ◌||◌, not}
use mathlib.Core.List.{List, [], ◌∷◌, ◌++◌, map, reverse}
use mathlib.Core.Option.{Option, none, some}
use native.Mathlib.Omega.{arith}
use hivekernel.Prelude.Tests.{leb, ◌==◌, if◌then◌else◌}
use hivekernel.Prelude.Lists.{length, drop, keep}

abbrev pub Text : Type 0
Text = List ℕ

-- A literal of the source.
unfoldable pub text : String → Text
text String.[] = []
text (String.◌∷◌ c s) = code c ∷ text s

abbrev pub text_eq : Text → Text → Bool
text_eq [] [] = true
text_eq [] (d ∷ t) = false
text_eq (c ∷ s) [] = false
text_eq (c ∷ s) (d ∷ t) = (c == d) && text_eq s t

pub text_eq_refl : (s : Text) → text_eq s s ≡ true
text_eq_refl [] = refl
text_eq_refl (c ∷ s) = ground (arith, text_eq_refl s)

pub text_eq→eq : (s t : Text) → text_eq s t ≡ true → s ≡ t
text_eq→eq [] [] h = refl
text_eq→eq [] (d ∷ t) h = cc
text_eq→eq (c ∷ s) [] h = cc
text_eq→eq (c ∷ s) (d ∷ t) h = ground (arith, text_eq→eq s t)

pub text_eq_iff : (s t : Text) → (text_eq s t ≡ true) ↔ (s ≡ t)
text_eq_iff s t = (text_eq→eq s t, λ e. ground (arith, text_eq_refl s, e))

-- `if s:`
abbrev pub truthy : Text → Bool
truthy [] = false
truthy (c ∷ s) = true

-- `str.isspace` of one character.
unfoldable pub is_space : ℕ → Bool
is_space c =
    (leb 9 c && leb c 13)
    || (leb 28 c && leb c 32)
    || c == 0x85
    || c == 0xa0
    || c == 0x1680
    || (leb 0x2000 c && leb c 0x200a)
    || c == 0x2028
    || c == 0x2029
    || c == 0x202f
    || c == 0x205f
    || c == 0x3000

unfoldable pub lower_char : ℕ → ℕ
lower_char c = if leb b'A' c && leb c b'Z' then c + 32 else c

unfoldable pub lower : Text → Text
unfolding lower_char
lower = map lower_char

-- `str.lstrip`, and `str.strip` as the same from both ends.
unfoldable pub lstrip : Text → Text
unfolding is_space
lstrip [] = []
lstrip (c ∷ s) = let rest = lstrip s in if is_space c then rest else c ∷ s

unfoldable pub strip : Text → Text
unfolding lstrip
strip s = reverse (lstrip (reverse (lstrip s)))

-- `s.strip(chars)`
lstrip_of : Text → Text → Text
lstrip_of chars [] = []
lstrip_of chars (c ∷ s) =
    let rest = lstrip_of chars s in
    if leb 1 (length (keep (λ d. d == c) chars)) then rest else c ∷ s

unfoldable pub strip_of : Text → Text → Text
unfolding lstrip_of
strip_of chars s = reverse (lstrip_of chars (reverse (lstrip_of chars s)))

-- `s.split(c)` for one character `c`: always at least one part.
cons_first : ℕ → List Text → List Text
cons_first c [] = (c ∷ []) ∷ []
cons_first c (p ∷ ps) = (c ∷ p) ∷ ps

unfoldable pub split_on : ℕ → Text → List Text
unfolding cons_first
split_on sep [] = [] ∷ []
split_on sep (c ∷ s) =
    let rest = split_on sep s in if c == sep then [] ∷ rest else cons_first c rest

-- `s.split()`: the runs of characters that are no space.
words_from : Text → Text → List Text
unfolding is_space
words_from w [] = if truthy w then w ∷ [] else []
words_from w (c ∷ s) =
    let after_space = words_from [] s in
    let in_word = words_from (w ++ c ∷ []) s in
    if is_space c then (if truthy w then w ∷ after_space else after_space) else in_word

unfoldable pub words : Text → List Text
unfolding words_from
words s = words_from [] s

-- `s.startswith(p)`
unfoldable pub starts_with : Text → Text → Bool
starts_with s [] = true
starts_with [] (c ∷ p) = false
starts_with (d ∷ s) (c ∷ p) = (d == c) && starts_with s p

-- What stands behind the first place at which `p` occurs.
unfoldable pub after_first : Text → Text → Option Text
unfolding starts_with
after_first p [] = if truthy p then none else some []
after_first p (c ∷ s) =
    let rest = after_first p s in
    if starts_with (c ∷ s) p then some (drop (length p) (c ∷ s)) else rest

-- `p in s`
unfoldable pub contains : Text → Text → Bool
unfolding after_first
contains p s = elim (after_first p s) [ none ↦ false | some _ ↦ true ]

-- `"\n".join(parts)`
unfoldable pub join_lines : List Text → Text
join_lines [] = []
join_lines (s ∷ []) = s
join_lines (s ∷ t ∷ rest) = s ++ 10 ∷ join_lines (t ∷ rest)

-- `sep.join(parts)`
unfoldable pub join_with : Text → List Text → Text
join_with sep [] = []
join_with sep (s ∷ []) = s
join_with sep (s ∷ t ∷ rest) = s ++ (sep ++ join_with sep (t ∷ rest))

abbrev pub fence : Text
fence = 96 ∷ 96 ∷ 96 ∷ []

-- A text that starts with a code fence, without the lines that start with one.
unfoldable pub strip_fences : Text → Text
unfolding starts_with join_lines strip split_on
strip_fences s =
    if starts_with s fence
    then join_lines (keep (λ l. not (starts_with (strip l) fence)) (split_on 10 s))
    else s

unfoldable pub member : Text → List Text → Bool
member s [] = false
member s (t ∷ ts) = text_eq t s || member s ts
