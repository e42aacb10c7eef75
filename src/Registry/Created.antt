-- ===== src/Registry/Created.antt =====
-- src/fig/Serv.cpp, `createMarket` and `createTrader`: what a call that succeeds has tested and done.
use swirlyc.Common.{
  ℕ, zero, suc, ◌≡◌, ◌≢◌, ◌≤◌, refl, ap, subst, ◌∙◌, inl, inr, arith, length, true, List, [], ◌∷◌,
  none, some, Bool-cases,
}
use swirlyc.Domain.{Jday, Millis}
use swirlyc.Text.{Str, take, assign, compare_str, str_eq, min}
use swirlyc.Text.Order.{compare_str-IsOrder, str_eq_iff, eq_of_compare_str}
use swirlyc.Session.{TraderSess}
use swirlyc.Book.Market.{MarketBook}
use swirlyc.Exception.{ok}
use swirlyc.Rec.{new_market, new_trader, market_rec, trader_rec, new_rec}
use swirlyc.OrderedSet.Laws
use swirlyc.OrderedSet.Laws.{or_else}
use swirlyc.Registry.{
  Registry, EmailPtr, is_mnem, find_email, insert_email, find_contr, find_market, find_trader,
  insert_market, insert_trader, market_key, trader_key,
}
use swirlyc.Registry.Maintain.{check_days, create_market, create_trader, email_ptr}

take_all : (n : ℕ) (s : Str) → length s ≤ n → take n s ≡ s
unfolding take
take_all zero [] le = refl
take_all (suc n) [] le = refl
take_all zero (c ∷ s) le = absurd (omega (arith, le))
take_all (suc n) (c ∷ s) le = ap (λ t. c ∷ t) (take_all n s (omega arith))

min_fits : (a b : ℕ) → b ≤ a → min a b ≡ b
min_fits a b le = ground arith

-- A string that fits is assigned as it is.
pub assign_fits : (max : ℕ) (s : Str) → length s ≤ max → assign max s ≡ s
unfolding assign
assign_fits max s le = rw (min_fits max (length s) le, assign) (take_all (length s) s (omega arith))

pub length-is_mnem : (s : Str) → is_mnem s ≡ true → length s ≤ 16
unfolding is_mnem
length-is_mnem s h = ground arith

pub mnem-new_market :
    (mnem display contr : Str) (settl_day expiry_day : Jday) (state : ℕ)
    → is_mnem mnem ≡ true
    → market_key (new_market mnem display contr settl_day expiry_day state) ≡ mnem
unfolding new_market market_rec new_rec
mnem-new_market mnem display contr sd ed state h = assign_fits 16 mnem (length-is_mnem mnem h)

pub mnem-new_trader :
    (mnem display email : Str)
    → is_mnem mnem ≡ true
    → trader_key (new_trader mnem display email) ≡ mnem
unfolding new_trader trader_rec new_rec
mnem-new_trader mnem display email h = assign_fits 16 mnem (length-is_mnem mnem h)

pub create_trader_ok :
    (mnem display email : Str) (r r' : Registry)
    → create_trader mnem display email r ≡ ok r'
    → (find_trader mnem r.traders ≡ none)
      × (find_email email r.email_idx ≡ none)
      × (is_mnem mnem ≡ true)
      × (r' ≡ record r {
        traders = insert_trader (new_trader mnem display email) r.traders;
        email_idx = insert_email (email_ptr (new_trader mnem display email)) r.email_idx;
      })
unfolding create_trader
create_trader_ok mnem display email r r' h = ground arith

pub create_market_ok :
    (bus_day : Millis → Jday) (mnem display contr : Str) (settl_day expiry_day : Jday) (state : ℕ)
    (now : Millis) (r r' : Registry)
    → create_market bus_day mnem display contr settl_day expiry_day state now r ≡ ok r'
    → (find_contr contr r.contrs ≢ none)
      × (check_days (bus_day now) settl_day expiry_day ≡ ok tt)
      × (find_market mnem r.markets ≡ none)
      × (is_mnem mnem ≡ true)
      × (r' ≡ record r {
        markets =
            insert_market (new_market mnem display contr settl_day expiry_day state) r.markets;
      })
unfolding create_market
create_market_ok bus_day mnem display contr sd ed state now r r' h = ground arith

pub find_email_self : (p : EmailPtr) (ps : List EmailPtr) → find_email p.email (p ∷ ps) ≡ some p
unfolding find_email
find_email_self p ps = rw ((str_eq_iff p.email p.email).1 refl) refl

pub find_email_ne :
    (email : Str) (p : EmailPtr) (ps : List EmailPtr)
    → email ≢ p.email
    → find_email email (p ∷ ps) ≡ find_email email ps
unfolding find_email
find_email_ne email p ps n = elim (Bool-cases (str_eq email p.email)) [
  | inl e ↦ absurd (n ((str_eq_iff email p.email).0 e))
  | inr e ↦ rw e refl
]

pub insert_email_new :
    (p : EmailPtr) (ps : List EmailPtr) → find_email p.email ps ≡ none → insert_email p ps ≡ p ∷ ps
unfolding insert_email
insert_email_new p ps e = rw (e, insert_email) refl

pub insert_email_found :
    (p q : EmailPtr) (ps : List EmailPtr) → find_email p.email ps ≡ some q → insert_email p ps ≡ ps
unfolding insert_email
insert_email_found p q ps e = rw (e, insert_email) refl

-- A key that nothing has finds what is inserted with it; other keys find what they found.
pub find-insert_trader :
    (mnem : Str) (t : TraderSess) (ts : List TraderSess)
    → t.mnem ≡ mnem
    → find_trader mnem ts ≡ none
    → find_trader mnem (insert_trader t ts) ≡ some t
unfolding find_trader insert_trader
find-insert_trader mnem t ts key h =
    subst (λ m. find_trader m (insert_trader t ts) ≡ some t) key
      (Laws.at-insert_self trader_key compare_str compare_str-IsOrder t ts
        ∙ ap (λ o. some (or_else t o)) (ap (λ m. find_trader m ts) key ∙ h))

pub find-insert_trader_ne :
    (k mnem : Str) (t : TraderSess) (ts : List TraderSess)
    → t.mnem ≡ mnem
    → k ≢ mnem
    → find_trader k (insert_trader t ts) ≡ find_trader k ts
unfolding find_trader insert_trader
find-insert_trader_ne k mnem t ts key n =
    Laws.at-insert_ne trader_key compare_str compare_str-IsOrder k t ts
      (λ e. n (eq_of_compare_str k t.mnem e ∙ key))

pub find-insert_market :
    (mnem : Str) (b : MarketBook) (bs : List MarketBook)
    → b.mnem ≡ mnem
    → find_market mnem bs ≡ none
    → find_market mnem (insert_market b bs) ≡ some b
unfolding find_market insert_market
find-insert_market mnem b bs key h =
    subst (λ m. find_market m (insert_market b bs) ≡ some b) key
      (Laws.at-insert_self market_key compare_str compare_str-IsOrder b bs
        ∙ ap (λ o. some (or_else b o)) (ap (λ m. find_market m bs) key ∙ h))

pub find-insert_market_ne :
    (k mnem : Str) (b : MarketBook) (bs : List MarketBook)
    → b.mnem ≡ mnem
    → k ≢ mnem
    → find_market k (insert_market b bs) ≡ find_market k bs
unfolding find_market insert_market
find-insert_market_ne k mnem b bs key n =
    Laws.at-insert_ne market_key compare_str compare_str-IsOrder k b bs
      (λ e. n (eq_of_compare_str k b.mnem e ∙ key))
