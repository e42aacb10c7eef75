-- ===== src/RestRequest/Ranges.antt =====
-- src/fir/RestRequest.cpp, `parse`: the search of a range of keys.
use swirlyc.Common.{
  ℕ, zero, suc, ◌+◌, ◌-◌, ◌*◌, ◌/◌, ◌%◌, ◌≡◌, ◌≤◌, ◌<◌, inl, inr, arith, ltb, List, Option, none,
  some, Bool-cases,
}
use swirlyc.RestRequest.Act.{entry}
use swirlyc.RestRequest.Machine.{char_ltb, find_range}
use swirlyc.RestRequest.Search.{rank}

module _ (keys : List ℕ) (c : ℕ) where
  -- The character is in the range of the entries i and i + 1.
  abbrev pub Within : ℕ → Type 0
  Within i = (rank (entry keys i) ≤ rank c) × (rank c ≤ rank (entry keys (i + 1)))

  -- What a search of the ranges from lo to hi gives, where their ends ascend.
  abbrev pub Range : ℕ → ℕ → Option ℕ → Type 0
  Range lo hi (some i) = (lo ≤ i) × (i + 1 < hi) × ((i - lo) % 2 ≡ 0) × Within i
  Range lo hi none = (i : ℕ) → lo ≤ i → i + 1 < hi → (i - lo) % 2 ≡ 0 → ¬ Within i

  abbrev pub Rising : ℕ → ℕ → Type 0
  Rising lo hi = (i j : ℕ) → lo ≤ i → i ≤ j → j < hi → rank (entry keys i) ≤ rank (entry keys j)

  below :
      (lo mid hi : ℕ) (o : Option ℕ)
      → lo ≤ mid
      → mid + 1 < hi
      → (mid - lo) % 2 ≡ 0
      → Rising lo hi
      → rank c < rank (entry keys mid)
      → Range lo mid o
      → Range lo hi o
  below lo mid hi (some i) le lt e a b h = (h.0, omega (arith, h.1), h.2, h.3)
  below lo mid hi none le lt e a b h = λ i p q r w. elim (Bool-cases (ltb (i + 1) mid)) [
    | inl f ↦ h i p (ground (arith, f)) r w
    | inr f ↦
        let m : mid ≤ i = ground (arith, f, r, e, p) in
        let d = a mid i le m (omega (arith, q)) in omega (arith, d, b, w.0)
  ]

  above :
      (lo mid hi : ℕ) (o : Option ℕ)
      → lo ≤ mid
      → mid + 1 < hi
      → (mid - lo) % 2 ≡ 0
      → Rising lo hi
      → rank (entry keys (mid + 1)) < rank c
      → Range (mid + 2) hi o
      → Range lo hi o
  above lo mid hi (some i) le lt e a b h =
      (omega (arith, h.0), h.1, ground (arith, h.2, h.0, e), h.3)
  above lo mid hi none le lt e a b h = λ i p q r w. elim (Bool-cases (ltb i (mid + 2))) [
    | inl f ↦
        let m : i ≤ mid = ground (arith, f, r, e, p) in
        let d = a (i + 1) (mid + 1) (omega (arith, p)) (omega (arith, m)) lt in
        omega (arith, d, b, w.1)
    | inr f ↦ h i (ground (arith, f)) q (ground (arith, f, r, e, p)) w
  ]

  pub find_range-Range :
      (n lo hi : ℕ)
      → hi ≤ lo + n * 2
      → (hi - lo) % 2 ≡ 0
      → Rising lo hi
      → Range lo hi (find_range n keys c lo hi)
  unfolding find_range
  find_range-Range zero lo hi le ev a = λ i p q r w. absurd (omega (arith, le, p, q))
  find_range-Range (suc n) lo hi le ev a = elim (Bool-cases (ltb (lo + 1) hi)) [
    | inr e ↦ rw (e, Range) (λ i p q r w. absurd (ground (arith, e, p, q)))
    | inl e ↦
        let m = lo + (hi - 2 - lo) / 2 / 2 * 2 in
        let p : lo ≤ m = omega arith in
        let q : m + 1 < hi = ground (arith, e) in
        let r : (m - lo) % 2 ≡ 0 = omega arith in
        elim (Bool-cases (char_ltb c (entry keys m))) [
          | inl f ↦
              rw (e, f, Range)
                (below lo m hi _ p q r a (ground (arith, f)) (
                  find_range-Range n lo m (omega (arith, le, ev, q)) r
                    (λ i j u v w. a i j u v (omega (arith, w, q)))))
          | inr f ↦ elim (Bool-cases (char_ltb (entry keys (m + 1)) c)) [
            | inl g ↦
                rw (e, f, g, Range)
                  (above lo m hi _ p q r a (ground (arith, g)) (
                    find_range-Range n (m + 2) hi (omega (arith, le, ev)) (omega (arith, ev, q))
                      (λ i j u v w. a i j (omega (arith, u, p)) v w)))
            | inr g ↦ rw (e, f, g, Range) (p, q, r, (ground (arith, f), ground (arith, g)))
          ]
        ]
  ]
