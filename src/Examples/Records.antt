-- ===== src/Examples/Records.antt =====
-- Concrete records, dates and sets, at which the theorems about them are applied.
use swirlyc.Common.{◌≡◌, refl, arith, [], ◌∷◌, pos}
use swirlyc.Domain.{Jday, Millis}
use swirlyc.Text.{codes}
use swirlyc.Session.{TraderSess}
use swirlyc.Exception.{ok}
use swirlyc.Rec.{Contr, new_trader, trader_rec, new_rec}
use swirlyc.Registry.{
  Registry, is_mnem, is_mnem_char, find_email, find_trader, insert_trader, find_trader_by_email,
}
use swirlyc.Registry.Maintain.{create_trader}
use swirlyc.Registry.Emails.{IsRegistry, create_trader-IsRegistry}

abbrev pub eurusd_contr : Contr
eurusd_contr = record {
  rec = record {
    rec_type = swirlyc.Domain.RecType.contr;
    mnem = codes "EURUSD";
    display = codes "EURUSD";
  };
  asset = codes "EUR";
  ccy = codes "USD";
  lot_numer = pos 1000000;
  lot_denom = pos 1;
  tick_numer = pos 1;
  tick_denom = pos 10000;
  pip_dp = pos 4;
  min_lots = pos 1;
  max_lots = pos 10;
}

abbrev pub no_records : Registry
no_records = record {
  assets = [];
  contrs = eurusd_contr ∷ [];
  markets = [];
  traders = [];
  email_idx = [];
}

abbrev pub marayl : TraderSess
marayl = record {
  mnem = codes "MARAYL";
  display = codes "Mark";
  email = codes "m@x";
  orders = [];
  trades = [];
  posns = [];
  ref_idx = [];
}

abbrev pub one_trader : Registry
one_trader = record no_records {
  traders = marayl ∷ [];
  email_idx = (record { email = codes "m@x"; trader = codes "MARAYL" }) ∷ [];
}

pub no_records-IsRegistry : IsRegistry no_records
unfolding find_trader find_email find_trader_by_email
no_records-IsRegistry = record {
  traders_sorted = tt;
  indexed = λ k t h. ground (arith, h);
  listed = λ e p h. ground (arith, h);
}

pub created : create_trader (codes "MARAYL") (codes "Mark") (codes "m@x") no_records ≡ ok one_trader
unfolding create_trader new_trader trader_rec new_rec insert_trader is_mnem is_mnem_char find_trader
    find_email
created = refl

create_trader-IsRegistry_example : IsRegistry one_trader
create_trader-IsRegistry_example =
    create_trader-IsRegistry (codes "MARAYL") (codes "Mark") (codes "m@x") no_records one_trader
      (omega arith) created no_records-IsRegistry
