-- ===== src/EntitySet/Parse.antt =====
-- src/fir/EntitySet.cpp: the reading of a set.
use swirlyc.Common.{
  ℕ, zero, suc, ◌≡◌, refl, ap, sym, ◌∙◌, arith, List, [], ◌∷◌, ◌++◌, ==-refl, map, length,
  Bool-cases, inl, inr,
}
use swirlyc.Text.{Str, codes, str_eq}
use swirlyc.Tokeniser.{Tokeniser, reset}
use swirlyc.Tokeniser
use swirlyc.Tokeniser.Split.{tokens, split, push_first, IsWord, tokens-split}
use swirlyc.Bits.{Bits, zeros, or}
use swirlyc.Exception.{Exception, Result-cases, Result, ok, throw, ◌>>=◌}
use swirlyc.EntitySet.{
  asset_bit, contr_bit, market_bit, trader_bit, order_bit, trade_bit, posn_bit, view_bit,
  entity_bit, parse_loop, parse,
}

-- What the entities of a list of words are together.
abbrev pub union : Bits → List Str → Result Bits
union bs [] = ok bs
union bs (w ∷ ws) = entity_bit w >>= λ i. union (or bs i) ws

bind_cong :
    {A B : Type 0} {f g : A → Result B} (m : Result A)
    → ((a : A) → f a ≡ g a)
    → (m >>= f) ≡ (m >>= g)
bind_cong (ok a) h = h a
bind_cong (throw e) h = refl

parse_loop-union :
    (n : ℕ) (bs : Bits) (t : Tokeniser) → parse_loop n bs t ≡ union bs (tokens b',' n t)
unfolding parse_loop tokens
parse_loop-union zero bs t = refl
parse_loop-union (suc n) bs t = elim (Bool-cases (Tokeniser.empty t)) [
  | inl e ↦ rw (e, parse_loop, tokens) refl
  | inr e ↦
      rw (e, parse_loop, tokens)
        (bind_cong (entity_bit (Tokeniser.top t))
          (λ i. parse_loop-union n (or bs i) (Tokeniser.pop b',' t)))
]

-- Reading a set is the union of the entities that the words between commas name, in their order; the
-- first word that names none throws.
pub parse-union : (s : Str) → parse s ≡ union (zeros 32) (split b',' s)
unfolding parse
parse-union s =
    parse_loop-union (length s) (zeros 32) (reset b',' s)
    ∙ ap (union (zeros 32)) (tokens-split b',' (length s) s (omega arith))

-- The entities, their names and their bits.
pub data Entity : Type 0 where
  asset contr market trader order trade posn view : Entity

abbrev pub name : Entity → Str
name Entity.asset = codes "asset"
name Entity.contr = codes "contr"
name Entity.market = codes "market"
name Entity.trader = codes "trader"
name Entity.order = codes "order"
name Entity.trade = codes "trade"
name Entity.posn = codes "posn"
name Entity.view = codes "view"

abbrev pub bit_of : Entity → Bits
bit_of Entity.asset = asset_bit
bit_of Entity.contr = contr_bit
bit_of Entity.market = market_bit
bit_of Entity.trader = trader_bit
bit_of Entity.order = order_bit
bit_of Entity.trade = trade_bit
bit_of Entity.posn = posn_bit
bit_of Entity.view = view_bit

-- The words with commas between them.
abbrev pub join : ℕ → List Str → Str
join delim [] = []
join delim (w ∷ []) = w
join delim (w ∷ v ∷ ws) = w ++ delim ∷ join delim (v ∷ ws)

-- The set of a list of entities.
abbrev pub set_of : Bits → List Entity → Bits
set_of bs [] = bs
set_of bs (e ∷ es) = set_of (or bs (bit_of e)) es

split_word :
    (delim c : ℕ) (w s : Str)
    → IsWord delim (c ∷ w)
    → split delim ((c ∷ w) ++ delim ∷ s) ≡ (c ∷ w) ∷ split delim s
split_word delim c [] s h = rw (h.0, ==-refl delim) refl
split_word delim c (d ∷ w) s h = rw h.0 (ap (push_first c) (split_word delim d w s h.1))

split_last : (delim c : ℕ) (w : Str) → IsWord delim (c ∷ w) → split delim (c ∷ w) ≡ (c ∷ w) ∷ []
split_last delim c [] h = rw h.0 refl
split_last delim c (d ∷ w) h = rw h.0 (ap (push_first c) (split_last delim d w h.1))

-- No name is empty or has a comma.
name-cons : (e : Entity) → (c : ℕ) × (w : Str) × (name e ≡ c ∷ w) × IsWord b',' (c ∷ w)
name-cons Entity.asset = (_, _, refl, ground arith)
name-cons Entity.contr = (_, _, refl, ground arith)
name-cons Entity.market = (_, _, refl, ground arith)
name-cons Entity.trader = (_, _, refl, ground arith)
name-cons Entity.order = (_, _, refl, ground arith)
name-cons Entity.trade = (_, _, refl, ground arith)
name-cons Entity.posn = (_, _, refl, ground arith)
name-cons Entity.view = (_, _, refl, ground arith)

entity_bit-name : (e : Entity) → entity_bit (name e) ≡ ok (bit_of e)
unfolding entity_bit str_eq
entity_bit-name Entity.asset = refl
entity_bit-name Entity.contr = refl
entity_bit-name Entity.market = refl
entity_bit-name Entity.trader = refl
entity_bit-name Entity.order = refl
entity_bit-name Entity.trade = refl
entity_bit-name Entity.posn = refl
entity_bit-name Entity.view = refl

split-join :
    (e : Entity) (es : List Entity) → split b',' (join b',' (map name (e ∷ es))) ≡ map name (e ∷ es)
split-join e [] = let (c, w, p, q) = name-cons e in rw p (split_last b',' c w q)
split-join e (f ∷ es) =
    let (c, w, p, q) = name-cons e in
    rw p (split_word b',' c w _ q ∙ ap (λ r. (c ∷ w) ∷ r) (split-join f es))

union-names : (bs : Bits) (es : List Entity) → union bs (map name es) ≡ ok (set_of bs es)
union-names bs [] = refl
union-names bs (e ∷ es) = rw (entity_bit-name e) (union-names (or bs (bit_of e)) es)

-- Reading the names of any entities, printed with commas between them, gives the set of these
-- entities.
pub parse-join : (es : List Entity) → parse (join b',' (map name es)) ≡ ok (set_of (zeros 32) es)
parse-join [] = parse-union []
parse-join (e ∷ es) =
    parse-union (join b',' (map name (e ∷ es)))
    ∙ ap (union (zeros 32)) (split-join e es)
    ∙ union-names (zeros 32) (e ∷ es)

entity_bit_throws : (w : Str) (x : Exception) → entity_bit w ≡ throw x → x ≡ Exception.not_found
unfolding entity_bit
entity_bit_throws w x h = ground (arith, h)

union_throws :
    (bs : Bits) (ws : List Str) (x : Exception) → union bs ws ≡ throw x → x ≡ Exception.not_found
union_throws bs [] x h = ground (arith, h)
union_throws bs (w ∷ ws) x h = elim (Result-cases (entity_bit w)) [
  | inl (i, e) ↦ union_throws (or bs i) ws x (sym (ap (λ m. m >>= λ i. union (or bs i) ws) e) ∙ h)
  | inr (y, e) ↦ entity_bit_throws w x (e ∙ (sym (ap (λ m. m >>= λ i. union (or bs i) ws) e) ∙ h))
]

-- The only exception of reading a set is that an entity is unknown.
pub parse_throws : (s : Str) (x : Exception) → parse s ≡ throw x → x ≡ Exception.not_found
parse_throws s x h = union_throws (zeros 32) (split b',' s) x (sym (parse-union s) ∙ h)
