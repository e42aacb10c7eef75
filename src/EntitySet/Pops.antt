-- ===== src/EntitySet/Pops.antt =====
-- include/swirly/fir/EntitySet.hpp: what `top`, `many` and `pop` do to the bits.
use swirlyc.Common.{
  ℕ, zero, suc, ◌-◌, ◌≡◌, ◌≤◌, refl, ap, sym, ◌∙◌, arith, true, false, List, [], ◌∷◌, map, length,
  ltb, if◌then◌else◌, Bool-cases, inl, inr,
}
use swirlyc.Bits.{Bits, zeros, and, complement, nonzero}
use swirlyc.Bits.Laws.{
  count, lowest, clear_lowest, and-neg, and-lowest, and-dec, count-clear_lowest, nonzero-count,
}
use swirlyc.EntitySet.{top, empty, many, pop}

less : (c d : ℕ) → d ≡ c - 1 → ltb 0 d ≡ ltb 1 c
less c d e = ground arith

-- A set has many entities exactly if at least two bits are set.
pub many-count : (bs : Bits) → many bs ≡ ltb 1 (count bs)
unfolding many
many-count bs =
    ap nonzero (and-dec bs)
    ∙ nonzero-count (clear_lowest bs)
    ∙ less (count bs) _ (count-clear_lowest bs)

-- `pop` gives the lowest bit alone and leaves the others.
pub pop-lowest : (bs : Bits) → pop bs ≡ (lowest bs, clear_lowest bs)
unfolding pop top
pop-lowest bs =
    ap (λ i. (i, and bs (complement i))) (and-neg bs) ∙ ap (λ r. (lowest bs, r)) (and-lowest bs)

-- A client that pops until the set is empty, in at most n rounds.
unfoldable pub pops : ℕ → Bits → List Bits
unfolding empty pop
pops zero bs = []
pops (suc n) bs = if empty bs then [] else (pop bs).0 ∷ pops n (pop bs).1

-- The entities of a set, each alone, the lowest first.
abbrev pub singles : Bits → List Bits
singles [] = []
singles (true ∷ b) = (true ∷ zeros (length b)) ∷ map (λ x. false ∷ x) (singles b)
singles (false ∷ b) = map (λ x. false ∷ x) (singles b)

singles_pop : (b : Bits) → nonzero b ≡ true → singles b ≡ lowest b ∷ singles (clear_lowest b)
singles_pop [] h = ground (arith, h)
singles_pop (true ∷ b) h = refl
singles_pop (false ∷ b) h = ap (map (λ x. false ∷ x)) (singles_pop b h)

singles_none : (b : Bits) → nonzero b ≡ false → singles b ≡ []
singles_none [] h = refl
singles_none (true ∷ b) h = ground (arith, h)
singles_none (false ∷ b) h = ap (map (λ x. false ∷ x)) (singles_none b h)

pops_step :
    (n : ℕ) (bs : Bits) → nonzero bs ≡ true → pops (suc n) bs ≡ lowest bs ∷ pops n (clear_lowest bs)
unfolding pops empty pop
pops_step n bs e = rw (e, pops) (ap (λ p. p.0 ∷ pops n p.1) (pop-lowest bs))

-- Popping until the set is empty gives each entity of the set once, the lowest first, and ends after
-- as many rounds as bits are set.
pub pops-singles : (n : ℕ) (bs : Bits) → count bs ≤ n → pops n bs ≡ singles bs
unfolding pops empty
pops-singles zero bs le = sym (singles_none bs (nonzero-count bs ∙ ground arith))
pops-singles (suc n) bs le = elim (Bool-cases (nonzero bs)) [
  | inl e ↦
      pops_step n bs e
      ∙ ap (λ r. lowest bs ∷ r)
          (pops-singles n (clear_lowest bs) (omega (arith, count-clear_lowest bs)))
      ∙ sym (singles_pop bs e)
  | inr e ↦ rw (e, pops) (sym (singles_none bs e))
]
