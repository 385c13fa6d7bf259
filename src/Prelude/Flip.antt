-- ===== src/Prelude/Flip.antt =====
-- The order of strings, with its sides exchanged.
use Prim.Native.Nat.compare as compare_ℕ
use Prim.Native.Nat.{ℕ, zero, suc, Ordering, compare as compare_ℕ}
use Prim.Native.Char.{code}
use Prim.Native.String.compare
use Prim.Native.String.{String, [], ◌∷◌, compare, then}
use mathlib.Core.Path.{◌≡◌, refl, sym, ◌∙◌, ap}
use mathlib.Core.Bool.{true, false, not}
use text.Mathlib.Text.{◌==◌ as str_eq, is_eq}
use di.Prelude.Strings.{str_ltb}

abbrev op : Ordering → Ordering
op Ordering.lt = Ordering.gt
op Ordering.eq = Ordering.eq
op Ordering.gt = Ordering.lt

op-then : (o r : Ordering) → op (then o r) ≡ then (op o) (op r)
op-then Ordering.lt r = refl
op-then Ordering.eq r = refl
op-then Ordering.gt r = refl

numbers_flip : (m n : ℕ) → compare_ℕ n m ≡ op (compare_ℕ m n)
numbers_flip zero zero = refl
numbers_flip zero (suc n) = compare_ℕ.suc-zero n ∙ ap op (sym (compare_ℕ.zero-suc n))
numbers_flip (suc m) zero = compare_ℕ.zero-suc m ∙ ap op (sym (compare_ℕ.suc-zero m))
numbers_flip (suc m) (suc n) =
    compare_ℕ.suc-suc n m ∙ numbers_flip m n ∙ ap op (sym (compare_ℕ.suc-suc m n))

compare_flip : (s t : String) → compare t s ≡ op (compare s t)
compare_flip [] [] = compare.nil-nil ∙ ap op (sym compare.nil-nil)
compare_flip [] (d ∷ t) = compare.cons-nil d t ∙ ap op (sym (compare.nil-cons d t))
compare_flip (c ∷ s) [] = compare.nil-cons c s ∙ ap op (sym (compare.cons-nil c s))
compare_flip (c ∷ s) (d ∷ t) =
    compare.cons-cons d c t s
    ∙ (λ i. then (numbers_flip (code c) (code d) i) (compare_flip s t i))
    ∙ sym (op-then (compare_ℕ (code c) (code d)) (compare s t))
    ∙ ap op (sym (compare.cons-cons c d s t))

by_ordering :
    (o : Ordering)
    → is_eq o ≡ false
    → (elim (op o) [ Ordering.lt ↦ true | _ ↦ false ])
      ≡ not (elim o [ Ordering.lt ↦ true | _ ↦ false ])
by_ordering Ordering.lt h = refl
by_ordering Ordering.eq h = sym h
by_ordering Ordering.gt h = refl

-- Of two different strings, exactly one is below the other.
pub str_ltb-flip : (s t : String) → str_eq s t ≡ false → str_ltb t s ≡ not (str_ltb s t)
str_ltb-flip s t h =
    ap (λ (o : Ordering). elim o [ Ordering.lt ↦ true | _ ↦ false ]) (compare_flip s t)
    ∙ by_ordering (compare s t) h
