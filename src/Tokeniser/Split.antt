-- ===== src/Tokeniser/Split.antt =====
-- include/swirly/ash/Tokeniser.hpp: all the tokens of a string, read one by one.
use swirlyc.Common.{
  ℕ, zero, suc, ◌-◌, ◌≤◌, ◌==◌, Bool-cases, true, false, List, [], ◌∷◌, length, if◌then◌else◌, ◌≡◌,
  refl, sym, ap, ap₂, ◌∙◌, arith, inl, inr,
}
use swirlyc.Text.{Str, take}
use swirlyc.Tokeniser.{Tokeniser, find, reset, top, empty, pop}

-- What a client reads with `top` and `pop` until the tokeniser is empty, in at most n rounds.
unfoldable pub tokens : ℕ → ℕ → Tokeniser → List Str
tokens delim zero t = []
tokens delim (suc n) t = elim (empty t) [ true ↦ [] | false ↦ top t ∷ tokens delim n (pop delim t) ]

abbrev pub push_first : ℕ → List Str → List Str
push_first c [] = (c ∷ []) ∷ []
push_first c (w ∷ ws) = (c ∷ w) ∷ ws

-- The words of a string: each delimiter ends one, and so does the end of the string after anything
-- else than a delimiter.
abbrev pub split : ℕ → Str → List Str
split delim [] = []
split delim (c ∷ s) = if c == delim then [] ∷ split delim s else push_first c (split delim s)

abbrev pub word : ℕ → Str → Str
word delim [] = []
word delim (c ∷ s) = if c == delim then [] else c ∷ word delim s

abbrev pub after : ℕ → Str → Str
after delim [] = []
after delim (c ∷ s) = if c == delim then s else after delim s

split_cons :
    (delim c : ℕ) (s : Str)
    → split delim (c ∷ s) ≡ word delim (c ∷ s) ∷ split delim (after delim (c ∷ s))
split_cons delim c [] = ground arith
split_cons delim c (x ∷ s) = elim (Bool-cases (c == delim)) [
  | inl e ↦ rw e refl
  | inr n ↦ rw n (ap (push_first c) (split_cons delim x s))
]

length-find : (delim : ℕ) (s : Str) → length (find delim s) ≤ length s
unfolding find
length-find delim [] = omega arith
length-find delim (c ∷ s) = ground (arith, length-find delim s)

length-after : (delim c : ℕ) (s : Str) → length (after delim (c ∷ s)) ≤ length s
length-after delim c [] = ground arith
length-after delim c (x ∷ s) = ground (arith, length-after delim x s)

take_gap : (n k c : ℕ) (s : Str) → k ≤ n → take (suc n - k) (c ∷ s) ≡ c ∷ take (n - k) s
unfolding take
take_gap n k c s le = let e : suc n - k ≡ suc (n - k) = omega arith in ap (λ i. take i (c ∷ s)) e

take_none : (n : ℕ) (s : Str) → take (n - n) s ≡ []
unfolding take
take_none n s = let e : n - n ≡ 0 = omega arith in ap (λ i. take i s) e

pub top-reset : (delim : ℕ) (s : Str) → top (reset delim s) ≡ word delim s
unfolding top reset find take
top-reset delim [] = refl
top-reset delim (c ∷ s) = elim (Bool-cases (c == delim)) [
  | inl e ↦ rw e (take_none (suc (length s)) (c ∷ s))
  | inr n ↦ rw n (
      take_gap (length s) (length (find delim s)) c s (length-find delim s)
      ∙ ap (◌∷◌ c) (top-reset delim s))
]

pub pop-reset : (delim : ℕ) (s : Str) → pop delim (reset delim s) ≡ reset delim (after delim s)
unfolding pop reset find
pop-reset delim [] = refl
pop-reset delim (c ∷ s) = elim (Bool-cases (c == delim)) [
  | inl e ↦ rw (e, pop) refl
  | inr n ↦ rw (n, pop) (pop-reset delim s)
]

-- Reading the tokens of a string one by one gives its words, and as many rounds as the string has
-- characters are enough.
pub tokens-split :
    (delim n : ℕ) (s : Str) → length s ≤ n → tokens delim n (reset delim s) ≡ split delim s
unfolding tokens empty reset
tokens-split delim zero [] le = refl
tokens-split delim zero (c ∷ s) le = absurd (omega (arith, le))
tokens-split delim (suc n) [] le = refl
tokens-split delim (suc n) (c ∷ s) le =
    ap₂ ◌∷◌ (top-reset delim (c ∷ s)) (
      ap (tokens delim n) (pop-reset delim (c ∷ s))
      ∙ tokens-split delim n (after delim (c ∷ s)) (omega (arith, length-after delim c s, le)))
    ∙ sym (split_cons delim c s)

-- A string without the delimiter.
abbrev pub IsWord : ℕ → Str → Type 0
IsWord delim [] = Unit {0}
IsWord delim (c ∷ s) = ((c == delim) ≡ false) × IsWord delim s

pub word_all : (delim : ℕ) (s : Str) → IsWord delim s → word delim s ≡ s
word_all delim [] h = refl
word_all delim (c ∷ s) h = rw h.0 (ap (λ t. c ∷ t) (word_all delim s h.1))

pub after_all : (delim : ℕ) (s : Str) → IsWord delim s → after delim s ≡ []
after_all delim [] h = refl
after_all delim (c ∷ s) h = rw h.0 (after_all delim s h.1)
