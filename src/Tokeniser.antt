-- ===== src/Tokeniser.antt =====
-- include/swirly/ash/Tokeniser.hpp: the tokens of a string between delimiters. The two iterators are
-- the parts of the string that they lead to.
use swirlyc.Common.{
  ℕ, zero, suc, ◌-◌, ◌==◌, Bool, true, false, List, [], ◌∷◌, length, if◌then◌else◌,
}
use swirlyc.Text.{Str, take}
pub mod Split

pub record Tokeniser : Type 0 where
  pub token : Str
  pub rest : Str

-- `std::find`.
unfoldable pub find : ℕ → Str → Str
find delim [] = []
find delim (c ∷ s) = if c == delim then c ∷ s else find delim s

unfoldable pub reset : ℕ → Str → Tokeniser
unfolding find
reset delim buf = record { token = buf; rest = find delim buf }

unfoldable pub top : Tokeniser → Str
unfolding take
top t = take (length t.token - length t.rest) t.token

unfoldable pub empty : Tokeniser → Bool
empty t = elim (t.token) [ [] ↦ true | _ ∷ _ ↦ false ]

unfoldable pub pop : ℕ → Tokeniser → Tokeniser
unfolding reset
pop delim t = elim (t.rest) [ [] ↦ record { token = []; rest = [] } | _ ∷ s ↦ reset delim s ]
