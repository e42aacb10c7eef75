-- ===== src/RestRequest/Chosen.antt =====
-- src/fir/RestRequest.cpp, `parse`: the transition that the searches choose.
use swirlyc.Common.{
  ℕ, suc, ◌+◌, ◌-◌, ◌*◌, ◌/◌, ◌≡◌, ◌≢◌, ◌≤◌, ◌<◌, inl, inr, refl, arith, ltb, leb, Bool, true, ◌&&◌,
  List, Option, none, Option-cases, subst, sym,
}
use swirlyc.RestRequest.States.{
  json_key_offsets, json_single_lengths, json_range_lengths, json_index_offsets,
}
use swirlyc.RestRequest.Transitions.{json_trans_keys}
use swirlyc.RestRequest.Act.{entry}
use swirlyc.RestRequest.Machine.{find_single, find_range, transition}
use swirlyc.RestRequest.Kinds.{all_below, all_below_at}
use swirlyc.RestRequest.Search.{rank, Single, Ascending, find_single-Single}
use swirlyc.RestRequest.Ranges.{Within, Range, Rising, find_range-Range}

-- The keys of a state: first the single ones, then the ends of the ranges.
abbrev pub first_key : ℕ → ℕ
first_key s = entry json_key_offsets s

abbrev pub singles : ℕ → ℕ
singles s = entry json_single_lengths s

abbrev pub ranges : ℕ → ℕ
ranges s = entry json_range_lengths s

abbrev pub key : ℕ → ℕ
key i = entry json_trans_keys i

-- The transition t is that of the single key that the character is, or else that of the range that it
-- is in, or else that of all other characters.
pub data Chosen (s c t : ℕ) : Type 0 where
  single :
      (i : ℕ)
      → i < singles s
      → rank (key (first_key s + i)) ≡ rank c
      → t ≡ entry json_index_offsets s + i
      → Chosen s c t
  range :
      (j : ℕ)
      → ((i : ℕ) → i < singles s → rank (key (first_key s + i)) ≢ rank c)
      → j < ranges s
      → Within json_trans_keys c (first_key s + singles s + j * 2)
      → t ≡ entry json_index_offsets s + singles s + j
      → Chosen s c t
  other :
      ((i : ℕ) → i < singles s → rank (key (first_key s + i)) ≢ rank c)
      → ((j : ℕ) → j < ranges s → ¬ Within json_trans_keys c (first_key s + singles s + j * 2))
      → t ≡ entry json_index_offsets s + singles s + ranges s
      → Chosen s c t

-- The order of the keys, tested on all pairs.
abbrev ascending : List ℕ → ℕ → ℕ → Bool
ascending keys lo n =
    all_below n
      (λ j. all_below j (λ i. ltb (rank (entry keys (lo + i))) (rank (entry keys (lo + j)))))

abbrev rising : List ℕ → ℕ → ℕ → Bool
rising keys lo n =
    all_below n
      (λ j. all_below (suc j) (λ i. leb (rank (entry keys (lo + i))) (rank (entry keys (lo + j)))))

unfoldable sorted_state : ℕ → Bool
unfolding json_key_offsets json_single_lengths json_range_lengths json_trans_keys
sorted_state s =
    ascending json_trans_keys (first_key s) (singles s)
    && rising json_trans_keys (first_key s + singles s) (ranges s * 2)

all_sorted : all_below 228 sorted_state ≡ true
unfolding sorted_state
all_sorted = refl

back : (lo i : ℕ) → lo ≤ i → lo + (i - lo) ≡ i
back lo i h = omega (arith, h)

pub and_both : (a b : Bool) → (a && b) ≡ true → (a ≡ true) × (b ≡ true)
and_both a b h = ground (arith, h)

module _ (keys : List ℕ) (c lo n : ℕ) where
  at : ℕ → ℕ
  at i = rank (entry keys (lo + i))

  ascending-Ascending : ascending keys lo n ≡ true → Ascending keys c lo (lo + n)
  ascending-Ascending h i j p q r =
      let b : j - lo < n = omega (arith, p, q, r) in
      let row =
        all_below_at n
          (λ j. all_below j (λ i. ltb (rank (entry keys (lo + i))) (rank (entry keys (lo + j)))))
          (j - lo) h b in
      let cell =
        all_below_at (j - lo)
          (λ i. ltb (rank (entry keys (lo + i))) (rank (entry keys (lo + (j - lo))))) (i - lo) row
          (omega (arith, p, q)) in
      let e = back lo i p in
      let f = back lo j (omega (arith, p, q)) in
      subst (λ x. rank (entry keys x) < rank (entry keys j)) e
        (subst (λ y. rank (entry keys (lo + (i - lo))) < rank (entry keys y)) f
          (ground (arith, cell)))

  rising-Rising : rising keys lo n ≡ true → Rising keys c lo (lo + n)
  rising-Rising h i j p q r =
      let b : j - lo < n = omega (arith, p, q, r) in
      let row =
        all_below_at n
          (λ j.
            all_below (suc j) (λ i. leb (rank (entry keys (lo + i))) (rank (entry keys (lo + j)))))
          (j - lo) h b in
      let cell =
        all_below_at (suc (j - lo))
          (λ i. leb (rank (entry keys (lo + i))) (rank (entry keys (lo + (j - lo))))) (i - lo) row
          (omega (arith, p, q)) in
      let e = back lo i p in
      let f = back lo j (omega (arith, p, q)) in
      subst (λ x. rank (entry keys x) ≤ rank (entry keys j)) e
        (subst (λ y. rank (entry keys (lo + (i - lo))) ≤ rank (entry keys y)) f
          (ground (arith, cell)))

module _ (s c : ℕ) (lt : s < 228) where
  sorted :
      (ascending json_trans_keys (first_key s) (singles s) ≡ true)
      × (rising json_trans_keys (first_key s + singles s) (ranges s * 2) ≡ true)
  unfolding sorted_state
  sorted = and_both _ _ (all_below_at 228 sorted_state s all_sorted lt)

  lookup-Single :
      Single json_trans_keys c
        (first_key s)
        (first_key s + singles s)
        (find_single (singles s) json_trans_keys c (first_key s) (first_key s + singles s))
  lookup-Single =
      find_single-Single json_trans_keys c (singles s) (first_key s) (first_key s + singles s)
        (omega arith) (ascending-Ascending json_trans_keys c (first_key s) (singles s) sorted.0)

  lookup-Range :
      Range json_trans_keys c (first_key s + singles s) (first_key s + singles s + ranges s * 2) (
        find_range
          (ranges s)
          json_trans_keys
          c
          (first_key s + singles s)
          (first_key s + singles s + ranges s * 2))
  lookup-Range =
      find_range-Range json_trans_keys c (ranges s) (first_key s + singles s)
        (first_key s + singles s + ranges s * 2) (omega arith) (omega arith)
        (rising-Rising json_trans_keys c (first_key s + singles s) (ranges s * 2) sorted.1)

  unmatched_keys :
      {o : Option ℕ}
      → o ≡ none
      → Single json_trans_keys c (first_key s) (first_key s + singles s) o
      → (i : ℕ) → i < singles s
      → rank (key (first_key s + i)) ≢ rank c
  unmatched_keys e h i b =
      subst (Single json_trans_keys c (first_key s) (first_key s + singles s)) e h (first_key s + i)
        (omega arith) (omega (arith, b))

  unmatched_ends :
      {o : Option ℕ}
      → o ≡ none
      → Range json_trans_keys c (first_key s + singles s) (first_key s + singles s + ranges s * 2) o
      → (j : ℕ) → j < ranges s
      → ¬ Within json_trans_keys c (first_key s + singles s + j * 2)
  unmatched_ends e h j b =
      subst
        (Range json_trans_keys c (first_key s + singles s) (first_key s + singles s + ranges s * 2))
        e h (first_key s + singles s + j * 2) (omega arith) (omega (arith, b)) (omega arith)

  -- For each state and character, the transition is the one that the state's keys choose: the two binary
  -- searches find what a search of all keys would.
  pub transition-Chosen : Chosen s c (transition s c)
  unfolding transition
  transition-Chosen =
      elim (Option-cases
        (find_single (singles s) json_trans_keys c (first_key s) (first_key s + singles s))) [
          | inr (m, e) ↦
              let h =
                subst (Single json_trans_keys c (first_key s) (first_key s + singles s)) e
                  lookup-Single in
              rw (e, transition)
                (Chosen.single (m - first_key s) (omega (arith, h.0, h.1))
                  (subst (λ x. rank (key x) ≡ rank c) (sym (back (first_key s) m h.0)) h.2) refl)
          | inl e ↦
              elim (Option-cases (
                find_range (ranges s) json_trans_keys c (first_key s + singles s)
                  (first_key s + singles s + ranges s * 2))) [
                    | inl f ↦
                        rw (e, f, transition)
                          (Chosen.other (unmatched_keys e lookup-Single)
                            (unmatched_ends f lookup-Range) refl)
                    | inr (m, f) ↦
                        let h =
                          subst
                            (Range json_trans_keys c (first_key s + singles s)
                              (first_key s + singles s + ranges s * 2))
                            f lookup-Range in
                        let g : first_key s + singles s + (m - (first_key s + singles s)) / 2 * 2
                            ≡ m =
                          omega (arith, h.0, h.2) in
                        rw (e, f, transition)
                          (Chosen.range ((m - (first_key s + singles s)) / 2)
                            (unmatched_keys e lookup-Single) (omega (arith, h.0, h.1, h.2))
                            (subst (Within json_trans_keys c) (sym g) h.3) refl)
                  ]
        ]
