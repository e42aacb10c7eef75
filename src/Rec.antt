-- ===== src/Rec.antt =====
-- include/swirly/elm/Rec.hpp, Asset.hpp, Contr.hpp, Trader.hpp and Market.hpp: the records that are kept
-- by mnemonic. The factors that a contract derives as floating-point numbers are left out.
use swirlyc.Common.{ℕ, ℤ, pos, compare, Ordering, List}
use swirlyc.Domain.{Lots, AssetType, RecType, Jday}
use swirlyc.Text.{Str, assign, compare_str}
use swirlyc.Session.{TraderSess}
use swirlyc.Book.Market.{MarketBook}

abbrev pub display_max : ℕ
display_max = 64

abbrev pub email_max : ℕ
email_max = 64

abbrev pub mnem_max : ℕ
mnem_max = 16

pub record Rec : Type 0 where
  pub rec_type : RecType
  pub mnem : Str
  pub display : Str

unfoldable pub new_rec : RecType → Str → Str → Rec
unfolding assign
new_rec rec_type mnem display = record {
  rec_type = rec_type;
  mnem = assign mnem_max mnem;
  display = assign display_max display;
}

-- The numbers of the enumerators, which are in the order of the declaration.
abbrev rec_number : RecType → ℕ
rec_number RecType.asset = 1
rec_number RecType.contr = 2
rec_number RecType.market = 3
rec_number RecType.trader = 4

-- `Rec::compare`.
unfoldable pub compare_rec : Rec → Rec → Ordering
compare_rec a b = elim (compare (rec_number a.rec_type) (rec_number b.rec_type)) [
  | Ordering.lt ↦ Ordering.lt
  | Ordering.eq ↦ compare_str a.mnem b.mnem
  | Ordering.gt ↦ Ordering.gt
]

pub record Asset : Type 0 where
  pub rec : Rec
  pub open rec use *
  pub asset_type : AssetType

unfoldable pub new_asset : Str → Str → AssetType → Asset
unfolding new_rec
new_asset mnem display asset_type = record {
  rec = new_rec RecType.asset mnem display;
  asset_type = asset_type;
}

pub record Contr : Type 0 where
  pub rec : Rec
  pub open rec use *
  pub asset : Str
  pub ccy : Str
  pub lot_numer : ℤ
  pub lot_denom : ℤ
  pub tick_numer : ℤ
  pub tick_denom : ℤ
  pub pip_dp : ℤ
  pub min_lots : Lots
  pub max_lots : Lots

-- `Trader` and `Market` name this as their type.
unfoldable pub trader_rec : Str → Str → Rec
unfolding new_rec
trader_rec mnem display = new_rec RecType.market mnem display

unfoldable pub market_rec : Str → Str → Rec
unfolding new_rec
market_rec mnem display = new_rec RecType.market mnem display

-- `ServFactory::doNewMarket`, for a market that has not traded.
unfoldable pub new_market : Str → Str → Str → Jday → Jday → ℕ → MarketBook
unfolding market_rec assign
new_market mnem display contr settl_day expiry_day state = record {
  mnem = (market_rec mnem display).mnem;
  display = (market_rec mnem display).display;
  contr = assign mnem_max contr;
  settl_day = settl_day;
  expiry_day = expiry_day;
  state = state;
  last_lots = pos 0;
  last_ticks = pos 0;
  last_time = 0;
  bid_side = record { levels = List.[]; orders = List.[] };
  offer_side = record { levels = List.[]; orders = List.[] };
  max_order_id = 0;
  max_exec_id = 0;
}

-- `ServFactory::doNewTrader`.
unfoldable pub new_trader : Str → Str → Str → TraderSess
unfolding trader_rec assign
new_trader mnem display email = record {
  mnem = (trader_rec mnem display).mnem;
  display = (trader_rec mnem display).display;
  email = assign email_max email;
  orders = List.[];
  trades = List.[];
  posns = List.[];
  ref_idx = List.[];
}
