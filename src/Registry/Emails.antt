-- ===== src/Registry/Emails.antt =====
-- src/fig/Serv.cpp, `createTrader` and `findTraderByEmail`: the index of the emails agrees with the
-- set of the traders.
use swirlyc.Common.{
  ◌≡◌, ◌≢◌, ◌≤◌, refl, sym, ap, ap₂, ◌∙◌, ◌⊎◌, inl, inr, arith, length, List, ◌∷◌, Option, none,
  some, Option-cases, Bool-cases, subst,
}
use swirlyc.Text.{Str, compare_str, str_eq}
use swirlyc.Text.Order.{compare_str-IsOrder, str_eq_iff}
use swirlyc.Session.{TraderSess}
use swirlyc.Exception.{ok}
use swirlyc.Rec.{new_trader}
use swirlyc.OrderedSet.Laws
use swirlyc.OrderedSet.Laws.{or_else}
use swirlyc.Registry.{
  Registry, EmailPtr, find_email, find_trader, insert_trader, trader_key, insert_email,
  find_trader_by_email,
}
use swirlyc.Registry.Maintain.{create_trader}
use swirlyc.Registry.Created.{
  create_trader_ok, mnem-new_trader, assign_fits, find_email_self, find_email_ne, insert_email_new,
  find-insert_trader, find-insert_trader_ne,
}

abbrev pub IsSortedTraders : List TraderSess → Type 0
IsSortedTraders = Laws.IsSorted trader_key compare_str compare_str-IsOrder

-- The traders rise by mnemonic, each is found by its email, and each email leads to a trader that
-- has it.
pub record IsRegistry (r : Registry) : Type 0 where
  pub traders_sorted : IsSortedTraders r.traders
  pub indexed :
      (mnem : Str) (t : TraderSess)
      → find_trader mnem r.traders ≡ some t
      → find_trader_by_email t.email r ≡ some t
  pub listed :
      (email : Str) (p : EmailPtr)
      → find_email email r.email_idx ≡ some p
      → (t : TraderSess) × (find_trader p.trader r.traders ≡ some t) × (t.email ≡ email)

email_length :
    (mnem display email : Str) → length email ≤ 64 → (new_trader mnem display email).email ≡ email
unfolding new_trader
email_length mnem display email le = assign_fits 64 email le

-- How the answers of the finds change where a trader is added.
record Added (r r' : Registry) (mnem email : Str) (t : TraderSess) : Type 0 where
  absent : find_trader mnem r.traders ≡ none
  absent_email : find_email email r.email_idx ≡ none
  email_eq : t.email ≡ email
  find_self : find_trader mnem r'.traders ≡ some t
  find_other : (k : Str) → k ≢ mnem → find_trader k r'.traders ≡ find_trader k r.traders
  email_self : find_email email r'.email_idx ≡ some (record { email = email; trader = mnem })
  email_other : (e : Str) → e ≢ email → find_email e r'.email_idx ≡ find_email e r.email_idx
  sorted : IsSortedTraders r.traders → IsSortedTraders r'.traders

create_trader-Added :
    (mnem display email : Str) (r r' : Registry)
    → length email ≤ 64
    → create_trader mnem display email r ≡ ok r'
    → Added r r' mnem email (new_trader mnem display email)
unfolding insert_trader
create_trader-Added mnem display email r r' le h =
    let t = new_trader mnem display email in
    let f = create_trader_ok mnem display email r r' h in
    let key : t.mnem ≡ mnem = mnem-new_trader mnem display email f.2 in
    let mail : t.email ≡ email = email_length mnem display email le in
    let traders_eq : r'.traders ≡ insert_trader t r.traders = ap (λ q. q.traders) f.3 in
    let p : EmailPtr = record { email = email; trader = mnem } in
    let idx_eq : r'.email_idx ≡ p ∷ r.email_idx =
      ap (λ q. q.email_idx) f.3
      ∙ ap (λ q. insert_email q r.email_idx)
          (ap₂ (λ a b. record { email = a; trader = b }) mail key)
      ∙ insert_email_new p r.email_idx f.1 in
    record {
      absent = f.0;
      absent_email = f.1;
      email_eq = mail;
      find_self = rw traders_eq (find-insert_trader mnem t r.traders key f.0);
      find_other = λ k n. rw traders_eq (find-insert_trader_ne k mnem t r.traders key n);
      email_self = rw idx_eq (find_email_self p r.email_idx);
      email_other = λ e n. rw idx_eq (find_email_ne e p r.email_idx n);
      sorted = λ s.
          rw (traders_eq, insert_trader)
            (Laws.insert-IsSorted trader_key compare_str compare_str-IsOrder t r.traders s);
    }

str_dec : (a b : Str) → (a ≡ b) ⊎ (a ≢ b)
str_dec a b = elim (Bool-cases (str_eq a b)) [
  | inl e ↦ inl ((str_eq_iff a b).0 e)
  | inr e ↦ inr (λ p. ground (arith, e, (str_eq_iff a b).1 p))
]

pub by_email :
    (email : Str) (p : EmailPtr) (r : Registry)
    → find_email email r.email_idx ≡ some p
    → find_trader_by_email email r ≡ find_trader p.trader r.traders
unfolding find_trader_by_email
by_email email p r e = rw (e, find_trader_by_email) refl

pub by_email_inv :
    (email : Str) (t : TraderSess) (r : Registry)
    → find_trader_by_email email r ≡ some t
    → (p : EmailPtr) × (find_email email r.email_idx ≡ some p)
      × (find_trader p.trader r.traders ≡ some t)
unfolding find_trader_by_email
by_email_inv email t r h = elim (Option-cases (find_email email r.email_idx)) [
  | inl e ↦ absurd (ground (arith, e, h))
  | inr (p, e) ↦ (p, e, sym (by_email email p r e) ∙ h)
]

some_inj : {A : Type 0} (x y : A) → some x ≡ some y → x ≡ y
some_inj x y h = ap (or_else x) h

none_some : {A : Type 0} (o : Option A) (x : A) → o ≡ none → o ≡ some x → ⊥
none_some o x h k = ground (arith, h, k)

-- Adding a trader with a new mnemonic and a new email keeps the index.
module _ (r r' : Registry) (mnem email : Str) (t : TraderSess) (a : Added r r' mnem email t)
    (i : IsRegistry r) where
  old_found :
      (k : Str) (u : TraderSess)
      → find_trader k r.traders ≡ some u
      → find_trader k r'.traders ≡ some u
  old_found k u h =
      a.find_other k (λ e. none_some _ u a.absent (ap (λ m. find_trader m r.traders) (sym e) ∙ h))
      ∙ h

  old_listed :
      (e : Str) (p : EmailPtr)
      → find_email e r.email_idx ≡ some p
      → find_email e r'.email_idx ≡ some p
  old_listed e p h =
      a.email_other e
        (λ q. none_some _ p a.absent_email (ap (λ m. find_email m r.email_idx) (sym q) ∙ h))
      ∙ h

  Added-indexed :
      (k : Str) (u : TraderSess)
      → find_trader k r'.traders ≡ some u
      → find_trader_by_email u.email r' ≡ some u
  Added-indexed k u h = elim (str_dec k mnem) [
    | inl e ↦
        let same : t ≡ u =
          some_inj t u (sym a.find_self ∙ ap (λ m. find_trader m r'.traders) (sym e) ∙ h) in
        subst (λ v. find_trader_by_email v.email r' ≡ some v) same
          (ap (λ m. find_trader_by_email m r') a.email_eq
            ∙ by_email email _ r' a.email_self
            ∙ a.find_self)
    | inr n ↦
        let (p, e, g) = by_email_inv u.email u r (i.indexed k u (sym (a.find_other k n) ∙ h)) in
        by_email u.email p r' (old_listed u.email p e) ∙ old_found p.trader u g
  ]

  Added-listed :
      (e : Str) (p : EmailPtr)
      → find_email e r'.email_idx ≡ some p
      → (u : TraderSess) × (find_trader p.trader r'.traders ≡ some u) × (u.email ≡ e)
  Added-listed e p h = elim (str_dec e email) [
    | inl q ↦
        let same =
          some_inj _ p (sym a.email_self ∙ ap (λ m. find_email m r'.email_idx) (sym q) ∙ h) in
        (
          t,
          ap (λ m. find_trader m r'.traders) (ap (λ x. x.trader) (sym same)) ∙ a.find_self,
          a.email_eq ∙ sym q,
        )
    | inr n ↦
        let (u, g, m) = i.listed e p (sym (a.email_other e n) ∙ h) in (u, old_found p.trader u g, m)
  ]

-- A successful createTrader whose email fits keeps the registry's invariant: the traders stay sorted,
-- each trader is found by its email, and each email in the index leads to the trader that has it.
pub create_trader-IsRegistry :
    (mnem display email : Str) (r r' : Registry)
    → length email ≤ 64
    → create_trader mnem display email r ≡ ok r'
    → IsRegistry r
    → IsRegistry r'
create_trader-IsRegistry mnem display email r r' le h i =
    let a = create_trader-Added mnem display email r r' le h in
    let t = new_trader mnem display email in
    record {
      traders_sorted = a.sorted i.traders_sorted;
      indexed = Added-indexed r r' mnem email t a i;
      listed = Added-listed r r' mnem email t a i;
    }

-- The invariant makes emails unique: traders of the set that have one email are one trader.
pub unique_email :
    (r : Registry) (k k' : Str) (t u : TraderSess)
    → IsRegistry r
    → find_trader k r.traders ≡ some t
    → find_trader k' r.traders ≡ some u
    → t.email ≡ u.email
    → t ≡ u
unique_email r k k' t u i h h' e =
    some_inj t u (sym (i.indexed k t h) ∙ ap (λ m. find_trader_by_email m r) e ∙ i.indexed k' u h')
