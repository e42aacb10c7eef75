-- ===== src/Bits.antt =====
-- The bitwise operators of C++ on `int` and `unsigned`, as include/swirly/fir/EntitySet.hpp and
-- include/swirly/fir/RestRequest.hpp use them: a number is its 32 bits in two's complement, the lowest
-- first.
use swirlyc.Common.{ℕ, zero, suc, Bool, true, false, not, ◌&&◌, ◌||◌, List, [], ◌∷◌, map}
pub mod Laws

abbrev pub Bits : Type 0
Bits = List Bool

-- 0, and 1 << k, of a width.
abbrev pub zeros : ℕ → Bits
zeros zero = []
zeros (suc w) = false ∷ zeros w

abbrev pub one_at : ℕ → ℕ → Bits
one_at zero k = []
one_at (suc w) zero = true ∷ zeros w
one_at (suc w) (suc k) = false ∷ one_at w k

abbrev pub bit : ℕ → Bits
bit k = one_at 32 k

abbrev pub and : Bits → Bits → Bits
and [] b = []
and (x ∷ a) [] = []
and (x ∷ a) (y ∷ b) = (x && y) ∷ and a b

abbrev pub or : Bits → Bits → Bits
or [] b = []
or (x ∷ a) [] = []
or (x ∷ a) (y ∷ b) = (x || y) ∷ or a b

abbrev pub complement : Bits → Bits
complement = map not

-- One more, and one less.
abbrev inc : Bits → Bits
inc [] = []
inc (true ∷ b) = false ∷ inc b
inc (false ∷ b) = true ∷ b

abbrev pub dec : Bits → Bits
dec [] = []
dec (true ∷ b) = false ∷ b
dec (false ∷ b) = true ∷ dec b

abbrev pub neg : Bits → Bits
neg b = inc (complement b)

-- Whether a number is not 0, and whether two are equal.
abbrev pub nonzero : Bits → Bool
nonzero [] = false
nonzero (x ∷ b) = x || nonzero b

abbrev pub bits_eq : Bits → Bits → Bool
bits_eq [] [] = true
bits_eq [] (y ∷ b) = false
bits_eq (x ∷ a) [] = false
bits_eq (true ∷ a) (true ∷ b) = bits_eq a b
bits_eq (true ∷ a) (false ∷ b) = false
bits_eq (false ∷ a) (true ∷ b) = false
bits_eq (false ∷ a) (false ∷ b) = bits_eq a b
