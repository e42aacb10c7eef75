-- ===== src/Registry.antt =====
-- src/fig/Serv.cpp, the records of `Serv::Impl`, and src/fig/TraderSessSet.hpp: the maintenance and
-- lookup of markets and traders. A call that throws has changed nothing by then.
use swirlyc.Common.{
  ℕ, suc, ◌==◌, ltb, leb, Bool, true, false, not, ◌&&◌, ◌||◌, List, [], ◌∷◌, Option, none, some,
  if◌then◌else◌, length,
}
use swirlyc.Domain.{Jday}
use swirlyc.Text.{Str, assign, compare_str, str_eq}
use swirlyc.Session.{TraderSess}
use swirlyc.Book.Market.{MarketBook}
use swirlyc.Exception.{Exception, Result, ok, throw, ◌>>=◌, ◌>>◌}
use swirlyc.OrderedSet
use swirlyc.Rec.{Asset, Contr}
pub mod Maintain
pub mod Created
pub mod Emails
pub mod Answers
pub mod Identities

-- `TraderSessSet` holds pointers to sessions: a session's mnemonic, with its email, which is constant.
pub record EmailPtr : Type 0 where
  pub email : Str
  pub trader : Str

pub record Registry : Type 0 where
  pub assets : List Asset
  pub contrs : List Contr
  pub markets : List MarketBook
  pub traders : List TraderSess
  pub email_idx : List EmailPtr

-- `mnemPattern`.
unfoldable pub is_mnem_char : ℕ → Bool
is_mnem_char c =
    (leb 48 c && leb c 57)
    || (leb 65 c && leb c 90)
    || (leb 97 c && leb c 122)
    || (c == 45)
    || (c == 46)
    || (c == 95)

unfoldable pub all_mnem_chars : Str → Bool
unfolding is_mnem_char
all_mnem_chars [] = true
all_mnem_chars (c ∷ s) = is_mnem_char c && all_mnem_chars s

unfoldable pub is_mnem : Str → Bool
unfolding all_mnem_chars
is_mnem s = leb 3 (length s) && leb (length s) 16 && all_mnem_chars s

-- `TraderSessSet::find`.
unfoldable pub find_email : Str → List EmailPtr → Option EmailPtr
find_email email [] = none
find_email email (p ∷ ps) = if str_eq email p.email then some p else find_email email ps

-- `TraderSessSet::insert`: nothing is inserted where an equal email stands.
unfoldable pub insert_email : EmailPtr → List EmailPtr → List EmailPtr
unfolding find_email
insert_email p ps = elim (find_email p.email ps) [ none ↦ p ∷ ps | some _ ↦ ps ]

abbrev pub market_key : MarketBook → Str
market_key b = b.mnem

abbrev pub trader_key : TraderSess → Str
trader_key t = t.mnem

unfoldable pub find_contr : Str → List Contr → Option Contr
unfolding OrderedSet.find
find_contr mnem cs = OrderedSet.find (λ (c : Contr). compare_str mnem c.mnem) cs

unfoldable pub find_market : Str → List MarketBook → Option MarketBook
unfolding OrderedSet.find
find_market mnem bs = OrderedSet.find (λ b. compare_str mnem (market_key b)) bs

unfoldable pub find_trader : Str → List TraderSess → Option TraderSess
unfolding OrderedSet.find
find_trader mnem ts = OrderedSet.find (λ t. compare_str mnem (trader_key t)) ts

unfoldable pub insert_market : MarketBook → List MarketBook → List MarketBook
unfolding OrderedSet.insert
insert_market = OrderedSet.insert (λ a b. compare_str (market_key a) (market_key b))

unfoldable pub insert_trader : TraderSess → List TraderSess → List TraderSess
unfolding OrderedSet.insert
insert_trader = OrderedSet.insert (λ a b. compare_str (trader_key a) (trader_key b))

unfoldable pub modify_market : Str → (MarketBook → MarketBook) → List MarketBook → List MarketBook
unfolding OrderedSet.modify
modify_market mnem f bs = OrderedSet.modify (λ b. compare_str mnem (market_key b)) f bs

unfoldable pub modify_trader : Str → (TraderSess → TraderSess) → List TraderSess → List TraderSess
unfolding OrderedSet.modify
modify_trader mnem f ts = OrderedSet.modify (λ t. compare_str mnem (trader_key t)) f ts

-- An element that must be there, or must not.
abbrev pub get_or_throw {ℓ} : {A : Type ℓ} → Exception → Option A → Result A
get_or_throw e none = throw e
get_or_throw e (some a) = ok a

abbrev pub absent_or_throw {ℓ} : {A : Type ℓ} → Exception → Option A → Result (Unit {0})
absent_or_throw e none = ok tt
absent_or_throw e (some a) = throw e

abbrev pub guard : Bool → Exception → Result (Unit {0})
guard true e = ok tt
guard false e = throw e

unfoldable pub market : Str → Registry → Result MarketBook
unfolding find_market
market mnem r = get_or_throw Exception.market_not_found (find_market mnem r.markets)

unfoldable pub trader : Str → Registry → Result TraderSess
unfolding find_trader
trader mnem r = get_or_throw Exception.trader_not_found (find_trader mnem r.traders)

-- `findTraderByEmail`, through the pointer.
unfoldable pub find_trader_by_email : Str → Registry → Option TraderSess
unfolding find_email find_trader
find_trader_by_email email r = elim (find_email email r.email_idx) [
  | none ↦ none
  | some p ↦ find_trader p.trader r.traders
]
