-- ===== src/Registry/Identities.antt =====
-- src/fig/Serv.cpp: the index of the emails depends on who the traders are only, not on their orders,
-- trades and positions.
use swirlyc.Common.{
  ◌≡◌, refl, sym, ap, subst, ◌∙◌, inl, inr, arith, List, [], ◌∷◌, map, All, Option, none, some,
}
use swirlyc.Text.{Str, compare_str}
use swirlyc.Text.Order.{compare_str-IsOrder}
use swirlyc.Session.{TraderSess}
use swirlyc.OrderedSet
use swirlyc.OrderedSet.Laws
use swirlyc.OrderedSet.Laws.{Ordering-cases, map_option}
use swirlyc.Registry.{Registry, find_email, find_trader, trader_key}
use swirlyc.Registry.Emails.{IsRegistry, IsSortedTraders, by_email, by_email_inv}
use swirlyc.Serv.Names.{identity, identities}

abbrev first : Str × Str → Str
first (a, b) = a

-- The identity that a mnemonic finds.
find_identity :
    (k : Str) (ts : List TraderSess)
    → map_option identity (find_trader k ts)
      ≡ Laws.at first compare_str compare_str-IsOrder k (identities ts)
unfolding find_trader OrderedSet.find
find_identity k [] = refl
find_identity k (t ∷ ts) = elim (Ordering-cases (compare_str k t.mnem)) [
  | inl (inl e) ↦ rw (e, find_trader, OrderedSet.find) refl
  | inl (inr e) ↦ rw (e, find_trader, OrderedSet.find) refl
  | inr e ↦ rw (e, find_trader, OrderedSet.find) (find_identity k ts)
]

-- Traders that are the same find the same identity.
same_find :
    (k : Str) (ts us : List TraderSess)
    → identities us ≡ identities ts
    → map_option identity (find_trader k us) ≡ map_option identity (find_trader k ts)
same_find k ts us e =
    find_identity k us
    ∙ ap (Laws.at first compare_str compare_str-IsOrder k) e
    ∙ sym (find_identity k ts)

map_some :
    (o : Option TraderSess) (u : TraderSess) (p : Option TraderSess)
    → map_option identity o ≡ map_option identity p
    → o ≡ some u
    → (t : TraderSess) × (p ≡ some t) × (identity t ≡ identity u)
map_some o u none e h = absurd (ground (arith, e, ap (map_option identity) h))
map_some o u (some t) e h = (t, refl, ground (arith, e, ap (map_option identity) h))

found_same :
    (k : Str) (ts us : List TraderSess) (u : TraderSess)
    → identities us ≡ identities ts
    → find_trader k us ≡ some u
    → (t : TraderSess) × (find_trader k ts ≡ some t) × (identity t ≡ identity u)
found_same k ts us u e h = map_some (find_trader k us) u (find_trader k ts) (same_find k ts us e) h

All-map_to {ℓ κ μ} :
    {A : Type ℓ} {B : Type κ} (P : B → Type μ) (f : A → B) (xs : List A)
    → All (λ x. P (f x)) xs
    → All P (map f xs)
All-map_to P f [] h = tt
All-map_to P f (x ∷ xs) h = (h.0, All-map_to P f xs h.1)

All-map_from {ℓ κ μ} :
    {A : Type ℓ} {B : Type κ} (P : B → Type μ) (f : A → B) (xs : List A)
    → All P (map f xs)
    → All (λ x. P (f x)) xs
All-map_from P f [] h = tt
All-map_from P f (x ∷ xs) h = (h.0, All-map_from P f xs h.1)

identities-IsSorted :
    (ts : List TraderSess)
    → IsSortedTraders ts
    → Laws.IsSorted first compare_str compare_str-IsOrder (identities ts)
identities-IsSorted [] s = tt
identities-IsSorted (t ∷ ts) s = (All-map_to _ identity ts s.0, identities-IsSorted ts s.1)

sorted_back :
    (ts : List TraderSess)
    → Laws.IsSorted first compare_str compare_str-IsOrder (identities ts)
    → IsSortedTraders ts
sorted_back [] s = tt
sorted_back (t ∷ ts) s = (All-map_from _ identity ts s.0, sorted_back ts s.1)

has_key : (k : Str) (t : TraderSess) (ts : List TraderSess) → find_trader k ts ≡ some t → t.mnem ≡ k
unfolding find_trader
has_key k t ts h = Laws.at-key trader_key compare_str compare_str-IsOrder k t ts h

-- The invariant of the registry is kept where only the orders, trades and positions of its traders
-- change.
pub identities-IsRegistry :
    (r r' : Registry)
    → identities r'.traders ≡ identities r.traders
    → r'.email_idx ≡ r.email_idx
    → IsRegistry r
    → IsRegistry r'
identities-IsRegistry r r' e x i = record {
  traders_sorted = sorted_back r'.traders (
      subst (Laws.IsSorted first compare_str compare_str-IsOrder) (sym e)
        (identities-IsSorted r.traders i.traders_sorted));
  indexed = λ k u h.
      let (t, f, g) = found_same k r.traders r'.traders u e h in
      let (p, a, b) = by_email_inv t.email t r (i.indexed k t f) in
      let key : p.trader ≡ k = sym (has_key p.trader t r.traders b) ∙ has_key k t r.traders f in
      by_email u.email p r'
        (ap (find_email u.email) x ∙ ap (λ q. find_email q.1 r.email_idx) (sym g) ∙ a)
      ∙ ap (λ m. find_trader m r'.traders) key
      ∙ h;
  listed = λ m p h.
      let (t, f, g) = i.listed m p (ap (find_email m) (sym x) ∙ h) in
      let (u, f', j) = found_same p.trader r'.traders r.traders t (sym e) f in
      (u, f', ap (λ q. q.1) j ∙ g);
}
