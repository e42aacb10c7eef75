-- ===== src/Text.antt =====
-- include/swirly/ash/String.hpp: the fixed-capacity string. A string is the list of its bytes;
-- the unused tail of the buffer is not observable.
use Prim.Native.Char.{code}
use Prim.Native.String.{String}
use swirlyc.Common.{
  ℕ, zero, suc, ◌≡◌, Bool, true, false, List, [], ◌∷◌, length, compare, Ordering, leb,
}
pub mod Order
pub mod Number

abbrev pub Str : Type 0
Str = List ℕ

-- The first n bytes.
unfoldable pub take : ℕ → Str → Str
take zero s = []
take (suc n) [] = []
take (suc n) (c ∷ s) = c ∷ take n s

-- The bytes of an ASCII literal.
abbrev pub codes : String → Str
codes String.[] = []
codes (String.◌∷◌ c s) = code c ∷ codes s

abbrev pub min : ℕ → ℕ → ℕ
min a b = elim (leb a b) [ true ↦ a | false ↦ b ]

-- `assign` of a `String<max>`: what does not fit is cut off.
unfoldable pub assign : ℕ → Str → Str
unfolding take
assign max s = take (min max (length s)) s

-- The sign of `memcmp` over n bytes that both buffers have.
unfoldable pub memcmp : ℕ → Str → Str → Ordering
memcmp zero a b = Ordering.eq
memcmp (suc n) [] b = Ordering.eq
memcmp (suc n) (x ∷ a) [] = Ordering.eq
memcmp (suc n) (x ∷ a) (y ∷ b) = elim (compare x y) [
  | Ordering.eq ↦ memcmp n a b
  | Ordering.lt ↦ Ordering.lt
  | Ordering.gt ↦ Ordering.gt
]

unfoldable pub compare_str : Str → Str → Ordering
unfolding memcmp
compare_str a b = elim (memcmp (min (length a) (length b)) a b) [
  | Ordering.eq ↦ compare (length a) (length b)
  | Ordering.lt ↦ Ordering.lt
  | Ordering.gt ↦ Ordering.gt
]

-- `operator ==`.
unfoldable pub str_eq : Str → Str → Bool
unfolding compare_str
str_eq a b = elim (compare_str a b) [ Ordering.eq ↦ true | _ ↦ false ]
