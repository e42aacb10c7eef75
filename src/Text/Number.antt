-- ===== src/Text/Number.antt =====
-- src/ash/String.cpp: the reading of a number.
use swirlyc.Common.{
  ℕ, zero, suc, ◌+◌, ◌*◌, ◌-◌, ◌/◌, ◌%◌, ◌==◌, leb, Bool, true, false, ◌&&◌, ◌||◌, List, [], ◌∷◌,
  if◌then◌else◌,
}
use swirlyc.Text.{Str}
pub mod Decimal

abbrev pub two64 : ℕ
two64 = 18446744073709551616

abbrev pub is_space : ℕ → Bool
is_space c = (leb 9 c && leb c 13) || (c == b' ')

abbrev pub is_digit : ℕ → Bool
is_digit c = leb b'0' c && leb c b'9'

-- The loop over the digits; the arithmetic of `uint64_t` wraps around.
unfoldable pub digits_loop : ℕ → Str → ℕ
digits_loop l [] = l
digits_loop l (c ∷ s) =
    let rest = digits_loop ((l * 10 % two64 + (c - b'0')) % two64) s in
    if is_digit c then rest else l

unfoldable pub skip_space : Str → Str
skip_space [] = []
skip_space (c ∷ s) = if is_space c then skip_space s else c ∷ s

unfoldable pub stou64 : Str → ℕ
unfolding digits_loop skip_space
stou64 s = digits_loop 0 (skip_space s)
