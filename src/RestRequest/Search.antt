-- ===== src/RestRequest/Search.antt =====
-- src/fir/RestRequest.cpp, `parse`: the searches of a key.
use swirlyc.Common.{
  ℕ, zero, suc, ◌+◌, ◌-◌, ◌/◌, ◌%◌, ◌≡◌, ◌≢◌, ◌≤◌, ◌<◌, inl, inr, arith, ltb, List, Option, none,
  some, Bool-cases, subst,
}
use swirlyc.RestRequest.Act.{entry}
use swirlyc.RestRequest.Machine.{char_ltb, find_single}

-- The number that a `char` is, moved by 128.
abbrev pub rank : ℕ → ℕ
rank c = (c + 128) % 256

module _ (keys : List ℕ) (c : ℕ) where
  -- What a search of [lo, hi) among single keys gives, where they ascend.
  abbrev pub Single : ℕ → ℕ → Option ℕ → Type 0
  Single lo hi (some i) = (lo ≤ i) × (i < hi) × (rank (entry keys i) ≡ rank c)
  Single lo hi none = (i : ℕ) → lo ≤ i → i < hi → rank (entry keys i) ≢ rank c

  abbrev pub Ascending : ℕ → ℕ → Type 0
  Ascending lo hi = (i j : ℕ) → lo ≤ i → i < j → j < hi → rank (entry keys i) < rank (entry keys j)

  -- The part that a comparison leaves out.
  less_at :
      (lo mid hi i : ℕ)
      → Ascending lo hi
      → lo ≤ mid
      → mid < hi
      → rank c < rank (entry keys mid)
      → mid ≤ i
      → i < hi
      → rank (entry keys i) ≢ rank c
  less_at lo mid hi i a le lt b p q = elim (Bool-cases (ltb mid i)) [
    | inl e ↦ let d = a mid i le (ground (arith, e)) q in omega (arith, d, b)
    | inr e ↦
        let d : mid ≡ i = ground (arith, e, p) in
        subst (λ j. rank (entry keys j) ≢ rank c) d (omega (arith, b))
  ]

  more_at :
      (lo mid hi i : ℕ)
      → Ascending lo hi
      → mid < hi
      → rank (entry keys mid) < rank c
      → lo ≤ i
      → i < mid + 1
      → rank (entry keys i) ≢ rank c
  more_at lo mid hi i a lt b p q = elim (Bool-cases (ltb i mid)) [
    | inl e ↦ let d = a i mid p (ground (arith, e)) lt in omega (arith, d, b)
    | inr e ↦
        let d : mid ≡ i = ground (arith, e, q) in
        subst (λ j. rank (entry keys j) ≢ rank c) d (omega (arith, b))
  ]

  below :
      (lo mid hi : ℕ) (o : Option ℕ)
      → lo ≤ mid
      → mid < hi
      → Ascending lo hi
      → rank c < rank (entry keys mid)
      → Single lo mid o
      → Single lo hi o
  below lo mid hi (some i) le lt a b h = (h.0, omega (arith, h.1), h.2)
  below lo mid hi none le lt a b h = λ i p q. elim (Bool-cases (ltb i mid)) [
    | inl e ↦ h i p (ground (arith, e))
    | inr e ↦ less_at lo mid hi i a le lt b (ground (arith, e)) q
  ]

  above :
      (lo mid hi : ℕ) (o : Option ℕ)
      → lo ≤ mid
      → mid < hi
      → Ascending lo hi
      → rank (entry keys mid) < rank c
      → Single (mid + 1) hi o
      → Single lo hi o
  above lo mid hi (some i) le lt a b h = (omega (arith, h.0), h.1, h.2)
  above lo mid hi none le lt a b h = λ i p q. elim (Bool-cases (ltb i (mid + 1))) [
    | inl e ↦ more_at lo mid hi i a lt b p (ground (arith, e))
    | inr e ↦ h i (ground (arith, e)) q
  ]

  pub find_single-Single :
      (n lo hi : ℕ) → hi ≤ lo + n → Ascending lo hi → Single lo hi (find_single n keys c lo hi)
  unfolding find_single
  find_single-Single zero lo hi le a = λ i p q. absurd (omega (arith, le, p, q))
  find_single-Single (suc n) lo hi le a = elim (Bool-cases (ltb lo hi)) [
    | inr e ↦ rw (e, Single) (λ i p q. absurd (ground (arith, e, p, q)))
    | inl e ↦
        let m = lo + (hi - 1 - lo) / 2 in
        let p : lo ≤ m = omega arith in
        let q : m < hi = ground (arith, e) in
        elim (Bool-cases (char_ltb c (entry keys m))) [
          | inl f ↦
              rw (e, f, Single)
                (below lo m hi _ p q a (ground (arith, f)) (
                  find_single-Single n lo m (omega (arith, le, q))
                    (λ i j u v w. a i j u v (omega (arith, w, q)))))
          | inr f ↦ elim (Bool-cases (char_ltb (entry keys m) c)) [
            | inl g ↦
                rw (e, f, g, Single)
                  (above lo m hi _ p q a (ground (arith, g)) (
                    find_single-Single n (m + 1) hi (omega (arith, le))
                      (λ i j u v w. a i j (omega (arith, u, p)) v w)))
            | inr g ↦ rw (e, f, g, Single) (p, q, ground (arith, f, g))
          ]
        ]
  ]
