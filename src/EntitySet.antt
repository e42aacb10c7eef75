-- ===== src/EntitySet.antt =====
-- include/swirly/fir/EntitySet.hpp and src/fir/EntitySet.cpp: the set of entities that a request
-- names, as an `int` whose bits stand for them.
use swirlyc.Common.{ℕ, zero, suc, Bool, true, false, not, List, [], ◌∷◌, length, if◌then◌else◌}
use swirlyc.Text.{Str, str_eq, codes}
use swirlyc.Tokeniser.{Tokeniser, reset}
use swirlyc.Tokeniser
use swirlyc.Bits.{Bits, zeros, bit, and, or, complement, neg, dec, nonzero}
use swirlyc.Exception.{Exception, Result, ok, throw, ◌>>=◌}
pub mod Pops
pub mod Parse

abbrev pub asset_bit : Bits
asset_bit = bit 0

abbrev pub contr_bit : Bits
contr_bit = bit 1

abbrev pub market_bit : Bits
market_bit = bit 2

abbrev pub trader_bit : Bits
trader_bit = bit 3

abbrev pub order_bit : Bits
order_bit = bit 4

abbrev pub trade_bit : Bits
trade_bit = bit 5

abbrev pub posn_bit : Bits
posn_bit = bit 6

abbrev pub view_bit : Bits
view_bit = bit 7

-- `bs & -bs`.
unfoldable pub top : Bits → Bits
top bs = and bs (neg bs)

unfoldable pub empty : Bits → Bool
empty bs = not (nonzero bs)

unfoldable pub many : Bits → Bool
many bs = nonzero (and bs (dec bs))

-- Whether one entity is in the set: `asset`, `contr`, and so on.
unfoldable pub has : Bits → Bits → Bool
has bs entity = nonzero (and bs entity)

-- `pop`: the entity, and the set that is left.
unfoldable pub pop : Bits → Bits × Bits
unfolding top
pop bs = (top bs, and bs (complement (top bs)))

-- `bit`.
unfoldable pub entity_bit : Str → Result Bits
entity_bit s =
    if str_eq s (codes "asset")
    then ok asset_bit
    else if str_eq s (codes "contr")
    then ok contr_bit
    else if str_eq s (codes "market")
    then ok market_bit
    else if str_eq s (codes "trader")
    then ok trader_bit
    else if str_eq s (codes "order")
    then ok order_bit
    else if str_eq s (codes "trade")
    then ok trade_bit
    else if str_eq s (codes "posn")
    then ok posn_bit
    else if str_eq s (codes "view")
    then ok view_bit
    else throw Exception.not_found

-- The loop of `parse`, in at most n rounds.
unfoldable pub parse_loop : ℕ → Bits → Tokeniser → Result Bits
unfolding entity_bit Tokeniser.empty Tokeniser.top Tokeniser.pop
parse_loop zero bs t = ok bs
parse_loop (suc n) bs t = elim (Tokeniser.empty t) [
  | true ↦ ok bs
  | false ↦ entity_bit (Tokeniser.top t) >>= λ i. parse_loop n (or bs i) (Tokeniser.pop b',' t)
]

-- A round takes a character at least.
unfoldable pub parse : Str → Result Bits
unfolding parse_loop reset
parse s = parse_loop (length s) (zeros 32) (reset b',' s)
