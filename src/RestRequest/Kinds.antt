-- ===== src/RestRequest/Kinds.antt =====
-- src/fir/RestRequest.cpp, `parse`: which part of the union each state of the machine needs, and a
-- test of all transitions that an action finds the part that it reads.
use swirlyc.Common.{
  ℕ, zero, suc, ◌+◌, ◌≡◌, ◌<◌, refl, arith, ltb, leb, Bool, true, false, ◌&&◌, ◌||◌, List, [], ◌∷◌,
  Option, none, some, if◌then◌else◌, ◌==◌, Bool-cases, inl, inr,
}
use swirlyc.RestRequest.States.{
  json_actions, json_single_lengths, json_range_lengths, json_index_offsets,
}
use swirlyc.RestRequest.Transitions.{json_trans_targs, json_trans_actions}
use swirlyc.RestRequest.Actions.{Scratch}
use swirlyc.RestRequest.Act.{Action, cases, entry, get_elem?}

-- What is known of the union.
pub data Kind : Type 0 where
  any number text : Kind

abbrev pub holds : Kind → Scratch → Bool
holds Kind.any s = true
holds Kind.number (Scratch.number sign digits) = true
holds Kind.number _ = false
holds Kind.text (Scratch.text t) = true
holds Kind.text _ = false

abbrev pub is_number : Kind → Bool
is_number Kind.number = true
is_number _ = false

abbrev pub is_text : Kind → Bool
is_text Kind.text = true
is_text _ = false

-- What an action needs, and what it leaves.
abbrev pub allowed : Action → Kind → Bool
allowed Action.negate k = is_number k
allowed Action.add_digit k = is_number k
allowed (Action.end_number n) k = is_number k
allowed Action.begin_text k = is_text k
allowed Action.add_char k = is_text k
allowed _ k = true

abbrev pub after : Action → Kind → Kind
after Action.begin_number k = Kind.number
after (Action.select t) k = Kind.text
after _ k = k

-- The states within a number and within a string.
abbrev within : List (ℕ × ℕ) → ℕ → Bool
within [] s = false
within ((lo, hi) ∷ r) s = (leb lo s && ltb s hi) || within r s

abbrev number_states : List (ℕ × ℕ)
number_states = (73, 75) ∷ (85, 87) ∷ (100, 102) ∷ (163, 165) ∷ (194, 196) ∷ (207, 209) ∷ []

abbrev text_states : List (ℕ × ℕ)
text_states =
    (11, 13) ∷ (15, 16) ∷ (25, 28) ∷ (41, 44) ∷ (55, 58) ∷ (111, 114) ∷ (123, 126) ∷ (220, 223) ∷ []

unfoldable pub kind_at : ℕ → Kind
kind_at s =
    if within number_states s
    then Kind.number
    else if within text_states s
    then Kind.text
    else Kind.any

-- Whether the n actions from the entry a on find what they need, and what they leave.
unfoldable pub all_allowed : ℕ → ℕ → Kind → Option Kind
unfolding json_actions
all_allowed zero a k = some k
all_allowed (suc n) a k = elim (get_elem? cases (entry json_actions a)) [
  | none ↦ all_allowed n (a + 1) k
  | some i ↦ elim (allowed i k) [ true ↦ all_allowed n (a + 1) (after i k) | false ↦ none ]
]

unfoldable pub taken : ℕ → Kind → Option Kind
unfolding json_actions json_trans_actions all_allowed
taken t k =
    let a = entry json_trans_actions t in
    if a == 0 then some k else all_allowed (entry json_actions a) (a + 1) k

abbrev pub implies : Kind → Kind → Bool
implies k Kind.any = true
implies Kind.number Kind.number = true
implies Kind.text Kind.text = true
implies _ _ = false

abbrev pub ends_in : Kind → Option Kind → Bool
ends_in k none = false
ends_in k (some j) = implies j k

unfoldable pub transition_ok : Kind → ℕ → Bool
unfolding json_trans_targs kind_at taken
transition_ok k t =
    ltb (entry json_trans_targs t) 228 && ends_in (kind_at (entry json_trans_targs t)) (taken t k)

abbrev pub all_below : ℕ → (ℕ → Bool) → Bool
all_below zero f = true
all_below (suc n) f = f n && all_below n f

pub all_below_at : (n : ℕ) (f : ℕ → Bool) (i : ℕ) → all_below n f ≡ true → i < n → f i ≡ true
all_below_at zero f i h lt = absurd (omega arith)
all_below_at (suc n) f i h lt = elim (Bool-cases (i == n)) [
  | inl e ↦ ground (arith, e, h)
  | inr e ↦ all_below_at n f i (ground (arith, h)) (ground (arith, lt, e))
]

-- The number of transitions of a state.
abbrev pub count : ℕ → ℕ
count s = entry json_single_lengths s + entry json_range_lengths s + 1

unfoldable pub state_ok : ℕ → Bool
unfolding json_single_lengths json_range_lengths json_index_offsets transition_ok kind_at
state_ok s = all_below (count s) (λ i. transition_ok (kind_at s) (entry json_index_offsets s + i))

-- Every transition of every state is in order.
pub all_states_ok : all_below 228 state_ok ≡ true
unfolding state_ok
all_states_ok = refl

pub holds_weaker :
    (j k : Kind) (s : Scratch) → holds j s ≡ true → implies j k ≡ true → holds k s ≡ true
holds_weaker j Kind.any s h e = refl
holds_weaker Kind.number Kind.number s h e = h
holds_weaker Kind.text Kind.text s h e = h
holds_weaker Kind.any Kind.number s h e = absurd (ground (arith, e))
holds_weaker Kind.any Kind.text s h e = absurd (ground (arith, e))
holds_weaker Kind.number Kind.text s h e = absurd (ground (arith, e))
holds_weaker Kind.text Kind.number s h e = absurd (ground (arith, e))
