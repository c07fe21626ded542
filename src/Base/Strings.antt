-- ===== src/Base/Strings.antt =====
-- Go's order on strings.
use Prim.Native.Nat.compare as compare_ℕ
use Prim.Native.Nat.{ℕ, zero, suc, Ordering, compare as compare_ℕ}
use Prim.Native.Char.{code}
use Prim.Native.String.compare
use Prim.Native.String.{String, [], ◌∷◌, compare, then}
use text.Mathlib.Text.{is_lt}
use text.Mathlib.TextEquality.{path_by_compare}
use mathlib.Core.Path.{◌≡◌, refl, sym, ap, ◌∙◌}
use mathlib.Core.Logic.{◌⊎◌, inl, inr}
use mathlib.Core.Bool.{Bool, true, false}

abbrev pub str_lt : String → String → Bool
str_lt a b = is_lt (compare a b)

abbrev flip : Ordering → Ordering
flip Ordering.lt = Ordering.gt
flip Ordering.eq = Ordering.eq
flip Ordering.gt = Ordering.lt

then-flip : (o r : Ordering) → flip (then o r) ≡ then (flip o) (flip r)
then-flip Ordering.lt r = refl
then-flip Ordering.eq r = refl
then-flip Ordering.gt r = refl

compare_ℕ-flip : (m n : ℕ) → compare_ℕ n m ≡ flip (compare_ℕ m n)
compare_ℕ-flip zero zero = compare_ℕ.zero-zero ∙ ap flip (sym compare_ℕ.zero-zero)
compare_ℕ-flip zero (suc n) = compare_ℕ.suc-zero n ∙ ap flip (sym (compare_ℕ.zero-suc n))
compare_ℕ-flip (suc m) zero = compare_ℕ.zero-suc m ∙ ap flip (sym (compare_ℕ.suc-zero m))
compare_ℕ-flip (suc m) (suc n) =
    compare_ℕ.suc-suc n m ∙ compare_ℕ-flip m n ∙ ap flip (sym (compare_ℕ.suc-suc m n))

compare-flip : (s t : String) → compare t s ≡ flip (compare s t)
compare-flip [] [] = compare.nil-nil ∙ ap flip (sym compare.nil-nil)
compare-flip [] (d ∷ t) = compare.cons-nil d t ∙ ap flip (sym (compare.nil-cons d t))
compare-flip (c ∷ s) [] = compare.nil-cons c s ∙ ap flip (sym (compare.cons-nil c s))
compare-flip (c ∷ s) (d ∷ t) =
    compare.cons-cons d c t s
    ∙ ap (λ o. then o (compare t s)) (compare_ℕ-flip (code c) (code d))
    ∙ ap (then (flip (compare_ℕ (code c) (code d)))) (compare-flip s t)
    ∙ sym (then-flip (compare_ℕ (code c) (code d)) (compare s t))
    ∙ ap flip (sym (compare.cons-cons c d s t))

-- Of two strings one is the smaller one, or they are equal.
pub str_lt-cases :
    (a b : String)
    → ((str_lt a b ≡ true) × (str_lt b a ≡ false))
      ⊎ ((str_lt b a ≡ true) × (str_lt a b ≡ false))
      ⊎ (a ≡ b)
str_lt-cases a b = cases (compare a b) refl
  where
    cases :
        (o : Ordering)
        → compare a b ≡ o
        → ((str_lt a b ≡ true) × (str_lt b a ≡ false))
          ⊎ ((str_lt b a ≡ true) × (str_lt a b ≡ false))
          ⊎ (a ≡ b)
    cases Ordering.lt e = inl (ap is_lt e, ap is_lt (compare-flip a b ∙ ap flip e))
    cases Ordering.eq e = inr (inr (path_by_compare a b e))
    cases Ordering.gt e = inr (inl (ap is_lt (compare-flip a b ∙ ap flip e), ap is_lt e))
