-- ===== src/Bits/Laws.antt =====
-- The idioms of include/swirly/fir/EntitySet.hpp on bits: the lowest bit that is set, and its removal.
use swirlyc.Common.{ℕ, suc, ◌-◌, ◌≡◌, refl, ap, arith, true, false, [], ◌∷◌, length, ltb}
use swirlyc.Bits.{Bits, zeros, and, complement, dec, neg, nonzero}

-- The number of bits that are set.
abbrev pub count : Bits → ℕ
count [] = 0
count (true ∷ b) = suc (count b)
count (false ∷ b) = count b

-- The lowest bit of a number alone.
abbrev pub lowest : Bits → Bits
lowest [] = []
lowest (true ∷ b) = true ∷ zeros (length b)
lowest (false ∷ b) = false ∷ lowest b

abbrev pub clear_lowest : Bits → Bits
clear_lowest [] = []
clear_lowest (true ∷ b) = false ∷ b
clear_lowest (false ∷ b) = false ∷ clear_lowest b

and-complement : (b : Bits) → and b (complement b) ≡ zeros (length b)
and-complement [] = refl
and-complement (true ∷ b) = ap (λ x. false ∷ x) (and-complement b)
and-complement (false ∷ b) = ap (λ x. false ∷ x) (and-complement b)

pub and-neg : (b : Bits) → and b (neg b) ≡ lowest b
and-neg [] = refl
and-neg (true ∷ b) = ap (λ x. true ∷ x) (and-complement b)
and-neg (false ∷ b) = ap (λ x. false ∷ x) (and-neg b)

and_all : (b : Bits) → and b (complement (zeros (length b))) ≡ b
and_all [] = refl
and_all (true ∷ b) = ap (λ x. true ∷ x) (and_all b)
and_all (false ∷ b) = ap (λ x. false ∷ x) (and_all b)

pub and-lowest : (b : Bits) → and b (complement (lowest b)) ≡ clear_lowest b
and-lowest [] = refl
and-lowest (true ∷ b) = ap (λ x. false ∷ x) (and_all b)
and-lowest (false ∷ b) = ap (λ x. false ∷ x) (and-lowest b)

and_same : (b : Bits) → and b b ≡ b
and_same [] = refl
and_same (true ∷ b) = ap (λ x. true ∷ x) (and_same b)
and_same (false ∷ b) = ap (λ x. false ∷ x) (and_same b)

pub and-dec : (b : Bits) → and b (dec b) ≡ clear_lowest b
and-dec [] = refl
and-dec (true ∷ b) = ap (λ x. false ∷ x) (and_same b)
and-dec (false ∷ b) = ap (λ x. false ∷ x) (and-dec b)

pub count-clear_lowest : (b : Bits) → count (clear_lowest b) ≡ count b - 1
count-clear_lowest [] = omega arith
count-clear_lowest (true ∷ b) = omega arith
count-clear_lowest (false ∷ b) = count-clear_lowest b

pub nonzero-count : (b : Bits) → nonzero b ≡ ltb 0 (count b)
nonzero-count [] = refl
nonzero-count (true ∷ b) = ground arith
nonzero-count (false ∷ b) = nonzero-count b
