-- ===== src/Text/Order.antt =====
-- include/swirly/ash/String.hpp: the comparison is the lexicographic order.
use swirlyc.Common.{◌≡◌, refl, sym, ◌∙◌, true, [], ◌∷◌, compare, Ordering, arith, ◌↔◌}
use swirlyc.OrderedSet.Laws.{IsOrder}
use swirlyc.Text.{Str, compare_str, str_eq}

-- The order of dictionaries, defined without lengths.
abbrev pub lex : Str → Str → Ordering
lex [] [] = Ordering.eq
lex [] (y ∷ b) = Ordering.lt
lex (x ∷ a) [] = Ordering.gt
lex (x ∷ a) (y ∷ b) = elim (compare x y) [
  | Ordering.eq ↦ lex a b
  | Ordering.lt ↦ Ordering.lt
  | Ordering.gt ↦ Ordering.gt
]

-- The comparison of two strings, which is that of a common prefix and then of the lengths, is the
-- order of dictionaries.
pub compare_str-lex : (a b : Str) → compare_str a b ≡ lex a b
unfolding compare_str
compare_str-lex [] [] = refl
compare_str-lex [] (y ∷ b) = ground arith
compare_str-lex (x ∷ a) [] = ground arith
compare_str-lex (x ∷ a) (y ∷ b) = ground (arith, compare_str-lex a b)

lex_refl : (a : Str) → lex a a ≡ Ordering.eq
lex_refl [] = refl
lex_refl (x ∷ a) = ground (arith, lex_refl a)

eq_of_lex : (a b : Str) → lex a b ≡ Ordering.eq → a ≡ b
eq_of_lex [] [] h = refl
eq_of_lex [] (y ∷ b) h = ground arith
eq_of_lex (x ∷ a) [] h = ground arith
eq_of_lex (x ∷ a) (y ∷ b) h = ground (arith, eq_of_lex a b)

pub compare_str_refl : (a : Str) → compare_str a a ≡ Ordering.eq
compare_str_refl a = compare_str-lex a a ∙ lex_refl a

pub eq_of_compare_str : (a b : Str) → compare_str a b ≡ Ordering.eq → a ≡ b
eq_of_compare_str a b h = eq_of_lex a b (sym (compare_str-lex a b) ∙ h)

pub str_eq_iff : (a b : Str) → (str_eq a b ≡ true) ↔ (a ≡ b)
unfolding str_eq
str_eq_iff a b = ground (arith, compare_str_refl a, eq_of_compare_str a b)

lex_flip : (a b : Str) → lex a b ≡ Ordering.gt → lex b a ≡ Ordering.lt
lex_flip [] [] h = ground arith
lex_flip [] (y ∷ b) h = ground arith
lex_flip (x ∷ a) [] h = refl
lex_flip (x ∷ a) (y ∷ b) h = ground (arith, lex_flip a b)

lex_trans : (a b c : Str) → lex a b ≡ Ordering.lt → lex b c ≡ Ordering.lt → lex a c ≡ Ordering.lt
lex_trans [] [] c h k = ground arith
lex_trans [] (y ∷ b) [] h k = ground arith
lex_trans [] (y ∷ b) (z ∷ c) h k = refl
lex_trans (x ∷ a) [] c h k = ground arith
lex_trans (x ∷ a) (y ∷ b) [] h k = ground arith
lex_trans (x ∷ a) (y ∷ b) (z ∷ c) h k = ground (arith, lex_trans a b c)

-- Strings are ordered by their comparison.
pub compare_str-IsOrder : IsOrder compare_str
compare_str-IsOrder = record {
  cmp_refl = compare_str_refl;
  cmp_eq = eq_of_compare_str;
  cmp_flip = λ a b h. compare_str-lex b a ∙ lex_flip a b (sym (compare_str-lex a b) ∙ h);
  cmp_trans = λ a b c h k.
      compare_str-lex a c
      ∙ lex_trans a b c (sym (compare_str-lex a b) ∙ h) (sym (compare_str-lex b c) ∙ k);
}
