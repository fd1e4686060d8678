-- ===== src/Prelude/Decimal.antt =====
-- `str(n)` of a non-negative `int`, and reading it back.
use Prim.Native.Nat.{ℕ, zero, suc, ◌+◌, ◌-◌, ◌*◌, ◌/◌, ◌%◌, ◌<◌}
use mathlib.Core.Path.{◌≡◌, sym, ap, ◌∙◌}
use mathlib.Core.List.{[], ◌∷◌, ◌++◌}
use native.Mathlib.Omega.{arith}
use hivekernel.Prelude.Tests.{ltb, if◌then◌else◌}
use hivekernel.Prelude.Lists.{All}
use hivekernel.Prelude.Text.{Text}

-- The digits of `n` in front of `acc`. The fuel is a bound on the number of digits.
show_acc : ℕ → ℕ → Text → Text
show_acc zero n acc = acc
show_acc (suc f) n acc =
    let rest = show_acc f (n / 10) ((48 + n % 10) ∷ acc) in
    if ltb n 10 then (48 + n) ∷ acc else rest

unfoldable pub show : ℕ → Text
unfolding show_acc
show n = show_acc (suc n) n []

abbrev parse_acc : ℕ → Text → ℕ
parse_acc n [] = n
parse_acc n (c ∷ s) = parse_acc (n * 10 + (c - 48)) s

parse_acc-show_acc :
    (f n : ℕ) (acc : Text) → n < f → parse_acc 0 (show_acc f n acc) ≡ parse_acc n acc
unfolding show_acc
parse_acc-show_acc zero n acc h = elim h [ ]
parse_acc-show_acc (suc f) n acc h =
    ground (arith, parse_acc-show_acc f (n / 10) ((48 + n % 10) ∷ acc))

-- The decimal text determines the number.
pub show-injective : (m n : ℕ) → show m ≡ show n → m ≡ n
unfolding show
show-injective m n e =
    sym (parse_acc-show_acc (suc m) m [] (omega arith))
    ∙ ap (parse_acc 0) e
    ∙ parse_acc-show_acc (suc n) n [] (omega arith)

abbrev pub IsDigit : ℕ → Type 0
IsDigit c = (47 < c) × (c < 58)

show_acc-IsDigit : (f n : ℕ) (acc : Text) → All IsDigit acc → All IsDigit (show_acc f n acc)
unfolding show_acc
show_acc-IsDigit zero n acc h = h
show_acc-IsDigit (suc f) n acc h = ground (arith, show_acc-IsDigit f (n / 10) ((48 + n % 10) ∷ acc))

pub show-IsDigit : (n : ℕ) → All IsDigit (show n)
unfolding show
show-IsDigit n = show_acc-IsDigit (suc n) n [] tt

-- What stands before the first character that is no digit is determined.
pub digits_before :
    (s t u v : Text) (c : ℕ)
    → All IsDigit s
    → All IsDigit t
    → ¬ IsDigit c
    → s ++ c ∷ u ≡ t ++ c ∷ v
    → (s ≡ t) × (u ≡ v)
digits_before [] [] u v c hs ht hc e = ground arith
digits_before [] (d ∷ t) u v c hs ht hc e = absurd (hc (ground arith))
digits_before (d ∷ s) [] u v c hs ht hc e = absurd (hc (ground arith))
digits_before (d ∷ s) (d' ∷ t) u v c hs ht hc e = ground (arith, digits_before s t u v c)
