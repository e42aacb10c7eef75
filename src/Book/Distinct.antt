-- ===== src/Book/Distinct.antt =====
-- Addresses that stand in a list at most once: an order rests in one place of the order list.
use swirlyc.Common.{
  suc, ◌==◌, ==-refl, eq_of_==, Bool-cases, ◌≡◌, refl, sym, ap, subst, ◌∙◌, inl, inr, Bool, true,
  false, ◌||◌, length, List, [], ◌∷◌, ◌++◌, All, All-append, All-append_left, All-append_right,
  All-map, arith,
}
use swirlyc.Order.{Addr}
use mathlib.Core.Bool.{false≢true}
use swirlyc.Book.Side.{remove, next_order}

abbrev pub NotIn : Addr → List Addr → Type 0
NotIn a os = All (λ b. (a == b) ≡ false) os

abbrev pub Distinct : List Addr → Type 0
Distinct [] = Unit {0}
Distinct (a ∷ os) = NotIn a os × Distinct os

NotIn-drop_middle :
    (a : Addr) (xs ms ys : List Addr) → NotIn a (xs ++ (ms ++ ys)) → NotIn a (xs ++ ys)
NotIn-drop_middle a xs ms ys n =
    All-append _ xs ys (All-append_left _ xs (ms ++ ys) n)
      (All-append_right _ ms ys (All-append_right _ xs (ms ++ ys) n))

pub Distinct-drop_middle :
    (xs ms ys : List Addr) → Distinct (xs ++ (ms ++ ys)) → Distinct (xs ++ ys)
Distinct-drop_middle [] [] ys d = d
Distinct-drop_middle [] (m ∷ ms) ys d = Distinct-drop_middle [] ms ys d.1
Distinct-drop_middle (x ∷ xs) ms ys d =
    (NotIn-drop_middle x xs ms ys d.0, Distinct-drop_middle xs ms ys d.1)

pub Distinct-right : (xs ys : List Addr) → Distinct (xs ++ ys) → Distinct ys
Distinct-right [] ys d = d
Distinct-right (x ∷ xs) ys d = Distinct-right xs ys d.1

NotIn-append_cons : (a b : Addr) (xs ys : List Addr) → NotIn b (xs ++ a ∷ ys) → (a == b) ≡ false
NotIn-append_cons a b [] ys n = ground arith
NotIn-append_cons a b (x ∷ xs) ys n = NotIn-append_cons a b xs ys n.1

pub Distinct-NotIn_left : (a : Addr) (xs ys : List Addr) → Distinct (xs ++ a ∷ ys) → NotIn a xs
Distinct-NotIn_left a [] ys d = tt
Distinct-NotIn_left a (x ∷ xs) ys d =
    (NotIn-append_cons a x xs ys d.0, Distinct-NotIn_left a xs ys d.1)

NotIn-insert :
    (a b : Addr) (xs ys : List Addr)
    → (b == a) ≡ false
    → NotIn b (xs ++ ys)
    → NotIn b (xs ++ a ∷ ys)
NotIn-insert a b [] ys e n = (e, n)
NotIn-insert a b (x ∷ xs) ys e n = (n.0, NotIn-insert a b xs ys e n.1)

-- A new address may be put anywhere.
pub Distinct-insert :
    (a : Addr) (xs ys : List Addr)
    → NotIn a (xs ++ ys)
    → Distinct (xs ++ ys)
    → Distinct (xs ++ a ∷ ys)
Distinct-insert a [] ys n d = (n, d)
Distinct-insert a (x ∷ xs) ys n d =
    (NotIn-insert a x xs ys (ground arith) d.0, Distinct-insert a xs ys n.1 d.1)

unfoldable pub has : Addr → List Addr → Bool
has a [] = false
has a (b ∷ os) = (a == b) || has a os

pub NotIn-of_has : (a : Addr) (os : List Addr) → has a os ≡ false → NotIn a os
unfolding has
NotIn-of_has a [] e = tt
NotIn-of_has a (b ∷ os) e = (ground arith, NotIn-of_has a os (ground arith))

pub has-append_left : (a : Addr) (xs ys : List Addr) → has a xs ≡ true → has a (xs ++ ys) ≡ true
unfolding has
has-append_left a [] ys e = cc
has-append_left a (x ∷ xs) ys e = ground (arith, has-append_left a xs ys)

pub has-append_right :
    (a : Addr) (xs ys : List Addr) → has a (xs ++ ys) ≡ true → has a xs ≡ false → has a ys ≡ true
unfolding has
has-append_right a [] ys e n = e
has-append_right a (x ∷ xs) ys e n = has-append_right a xs ys (ground arith) (ground arith)

-- What holds of all members holds of one.
pub All-has {κ} : (P : Addr → Type κ) (a : Addr) (os : List Addr) → All P os → has a os ≡ true → P a
unfolding has
All-has P a [] h e = absurd (false≢true e)
All-has P a (b ∷ os) h e = elim (Bool-cases (a == b)) [
  | inl same ↦ subst P (sym (eq_of_== a b same)) h.0
  | inr other ↦ All-has P a os h.1 (sym (rw other refl) ∙ e)
]

pub remove-append :
    (a : Addr) (xs ys : List Addr) → has a xs ≡ true → remove a (xs ++ ys) ≡ remove a xs ++ ys
unfolding has remove
remove-append a [] ys e = cc
remove-append a (x ∷ xs) ys e = ground (arith, remove-append a xs ys)

pub remove_skip :
    (a : Addr) (xs ys : List Addr) → NotIn a xs → remove a (xs ++ ys) ≡ xs ++ remove a ys
unfolding remove
remove_skip a [] ys n = refl
remove_skip a (x ∷ xs) ys n = rw n.0 (ap (◌∷◌ x) (remove_skip a xs ys n.1))

pub All-remove {κ} :
    (P : Addr → Type κ) (a : Addr) (os : List Addr) → All P os → All P (remove a os)
unfolding remove
All-remove P a [] h = tt
All-remove P a (b ∷ os) h = elim (Bool-cases (a == b)) [
  | inl same ↦ rw (same, remove) h.1
  | inr other ↦ rw (other, remove) (h.0, All-remove P a os h.1)
]

pub Distinct-remove : (a : Addr) (os : List Addr) → Distinct os → Distinct (remove a os)
unfolding remove
Distinct-remove a [] d = tt
Distinct-remove a (b ∷ os) d = elim (Bool-cases (a == b)) [
  | inl same ↦ rw (same, remove) d.1
  | inr other ↦ rw (other, remove) (All-remove _ a os d.0, Distinct-remove a os d.1)
]

pub NotIn-remove : (a : Addr) (os : List Addr) → Distinct os → NotIn a (remove a os)
unfolding remove
NotIn-remove a [] d = tt
NotIn-remove a (b ∷ os) d = elim (Bool-cases (a == b)) [
  | inl same ↦ rw (same, remove) (subst (λ c. NotIn c os) (sym (eq_of_== a b same)) d.0)
  | inr other ↦ rw (other, remove) (other, NotIn-remove a os d.1)
]

pub length-remove :
    (a : Addr) (os : List Addr) → has a os ≡ true → length os ≡ suc (length (remove a os))
unfolding has remove
length-remove a [] e = cc
length-remove a (b ∷ os) e = ground (arith, length-remove a os)

pub next_order_skip :
    (a b : Addr) (xs ys : List Addr) → NotIn a xs → next_order a (xs ++ a ∷ b ∷ ys) ≡ b
unfolding next_order
next_order_skip a b [] ys n = rw (==-refl a)
next_order_skip a b (x ∷ []) ys n = rw (n.0, ==-refl a)
next_order_skip a b (x ∷ c ∷ xs) ys n = rw n.0 (next_order_skip a b (c ∷ xs) ys n.1)

pub Distinct-left : (xs ys : List Addr) → Distinct (xs ++ ys) → Distinct xs
Distinct-left [] ys d = tt
Distinct-left (x ∷ xs) ys d = (All-append_left _ xs ys d.0, Distinct-left xs ys d.1)

-- An address of the first list does not stand in the second.
pub NotIn-later :
    (a : Addr) (xs ys : List Addr) → Distinct (xs ++ ys) → has a xs ≡ true → NotIn a ys
unfolding has
NotIn-later a [] ys d m = absurd (false≢true m)
NotIn-later a (x ∷ xs) ys d m = elim (Bool-cases (a == x)) [
  | inl same ↦ subst (λ c. NotIn c ys) (sym (eq_of_== a x same)) (All-append_right _ xs ys d.0)
  | inr other ↦ NotIn-later a xs ys d.1 (sym (rw other refl) ∙ m)
]

pub has-remove_ne :
    (a b : Addr) (os : List Addr) → (a == b) ≡ false → has b os ≡ true → has b (remove a os) ≡ true
unfolding has remove
has-remove_ne a b [] n m = m
has-remove_ne a b (c ∷ os) n m = ground (arith, has-remove_ne a b os n)

has-cons : (a b : Addr) (xs : List Addr) → has a xs ≡ true → has a (b ∷ xs) ≡ true
unfolding has
has-cons a b xs m = ground arith

has_head : (a : Addr) (xs : List Addr) → has a (a ∷ xs) ≡ true
unfolding has
has_head a xs = ground arith

pub has_self : (xs : List Addr) → All (λ a. has a xs ≡ true) xs
has_self [] = tt
has_self (x ∷ xs) = (has_head x xs, All-map _ _ xs (λ a m. has-cons a x xs m) (has_self xs))
