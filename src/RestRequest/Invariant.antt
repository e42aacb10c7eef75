-- ===== src/RestRequest/Invariant.antt =====
-- src/fir/RestRequest.cpp: the invariant of the parser, which `reset` establishes and `parse` keeps.
use swirlyc.Common.{
  ℕ, ◌+◌, ◌≡◌, ◌<◌, inl, inr, refl, arith, ltb, true, false, [], ◌∷◌, Option, none, some,
  Bool-cases, ◌==◌, subst, sym,
}
use swirlyc.Text.{Str}
use swirlyc.RestRequest.States.{json_single_lengths, json_range_lengths, json_index_offsets}
use swirlyc.RestRequest.Transitions.{json_trans_targs}
use swirlyc.RestRequest.Actions.{Parser, Acted, Scratch, reset_parser}
use swirlyc.RestRequest.Act.{and_then, entry}
use swirlyc.RestRequest.Machine.{transition, take_transition, resume, Parsed, parse, ending}
use swirlyc.RestRequest.Kinds.{
  Kind, holds, holds_weaker, taken, kind_at, transition_ok, state_ok, all_below_at, all_states_ok,
  count, ends_in, implies,
}
use swirlyc.RestRequest.Bounds.{IsRequest, Good}
use swirlyc.RestRequest.Chosen.{Chosen, transition-Chosen, and_both}
use swirlyc.RestRequest.Safe.{Ends, taken-Ends}

-- The state is one of the machine, the union holds what the state needs, and the request is in order.
pub record IsParser (p : Parser) : Type 0 where
  pub state : p.cs < 228
  pub union : holds (kind_at p.cs) p.scratch ≡ true
  pub request : IsRequest p.request

kind_of_error : (s : Scratch) → holds (kind_at 0) s ≡ true
unfolding kind_at
kind_of_error s = refl

kind_of_start : (s : Scratch) → holds (kind_at 1) s ≡ true
unfolding kind_at
kind_of_start s = refl

-- After an action there is a parser in order, and never a fault.
abbrev pub Stays : Acted → Type 0
Stays (Acted.go q) = IsParser q
Stays (Acted.stop q) = IsParser q
Stays Acted.fault = ⊥

in_error : (q : Parser) → q.cs ≡ 0 → IsRequest q.request → IsParser q
in_error q e r = record {
  state = omega (arith, e);
  union = subst (λ s. holds (kind_at s) q.scratch ≡ true) (sym e) (kind_of_error q.scratch);
  request = r;
}

Good-Stays :
    (cs : ℕ) (j : Kind) (m : Acted)
    → cs < 228
    → implies j (kind_at cs) ≡ true
    → Good cs j m
    → Stays m
Good-Stays cs j (Acted.go q) lt i g = elim (g.0) [
  | inl e ↦ record {
    state = omega (arith, e, lt);
    union =
        holds_weaker j (kind_at q.cs) q.scratch g.1
          (subst (λ s. implies j (kind_at s) ≡ true) (sym e) i);
    request = g.2;
  }
  | inr e ↦ in_error q e g.2
]
Good-Stays cs j (Acted.stop q) lt i g = in_error q g.0 g.1
Good-Stays cs j Acted.fault lt i g = g

Ends-Stays :
    (cs : ℕ) (o : Option Kind) (m : Acted)
    → cs < 228
    → ends_in (kind_at cs) o ≡ true
    → Ends cs o m
    → Stays m
Ends-Stays cs none m lt e g = absurd (ground (arith, e))
Ends-Stays cs (some j) m lt e g = Good-Stays cs j m lt e g

-- The transition is one of the state's.
transition-count :
    (s c t : ℕ) → Chosen s c t → (i : ℕ) × (i < count s) × (t ≡ entry json_index_offsets s + i)
transition-count s c t (Chosen.single i lt k e) = (i, omega (arith, lt), e)
transition-count s c t (Chosen.range j n lt w e) =
    (entry json_single_lengths s + j, omega (arith, lt), omega (arith, e))
transition-count s c t (Chosen.other n m e) =
    (entry json_single_lengths s + entry json_range_lengths s, omega arith, omega (arith, e))

transition_in_order : (s c : ℕ) → s < 228 → transition_ok (kind_at s) (transition s c) ≡ true
unfolding state_ok
transition_in_order s c lt =
    let (i, b, e) = transition-count s c (transition s c) (transition-Chosen s c lt) in
    subst (λ t. transition_ok (kind_at s) t ≡ true) (sym e)
      (all_below_at (count s) (λ i. transition_ok (kind_at s) (entry json_index_offsets s + i)) i
        (all_below_at 228 state_ok s all_states_ok lt) b)

lt_of_ltb : (a b : ℕ) → ltb a b ≡ true → a < b
lt_of_ltb a b h = ground (arith, h)

step-Stays : (c : ℕ) (p : Parser) → IsParser p → Stays (take_transition (transition p.cs c) c p)
unfolding transition_ok
step-Stays c p h =
    let t = transition p.cs c in
    let k = kind_at p.cs in
    let (lt, e) =
      and_both (ltb (entry json_trans_targs t) 228)
        (ends_in (kind_at (entry json_trans_targs t)) (taken t k))
        (transition_in_order p.cs c h.state) in
    Ends-Stays (entry json_trans_targs t) (taken t k) (take_transition t c p) (lt_of_ltb _ _ lt) e
      (taken-Ends t c k p h.union h.request)

and_then-Stays :
    (m : Acted) (f : Parser → Acted)
    → Stays m
    → ((q : Parser) → IsParser q → Stays (f q))
    → Stays (and_then m f)
and_then-Stays (Acted.go q) f h g = g q h
and_then-Stays (Acted.stop q) f h g = h
and_then-Stays Acted.fault f h g = h

resume-Stays : (s : Str) (p : Parser) → IsParser p → Stays (resume s p)
unfolding resume
resume-Stays [] p h = h
resume-Stays (c ∷ s) p h = elim (Bool-cases (p.cs == 0)) [
  | inl e ↦ rw (e, resume) h
  | inr e ↦
      rw (e, resume)
        (and_then-Stays (take_transition (transition p.cs c) c p) (resume s) (step-Stays c p h)
          (λ q i. resume-Stays s q i))
]

-- After `parse` there is a parser in order, however it ends.
abbrev pub Parses : Parsed → Type 0
Parses (Parsed.threw p) = IsParser p
Parses (Parsed.partial p) = IsParser p
Parses (Parsed.complete p) = IsParser p × (p.cs ≡ 227)
Parses Parsed.fault = ⊥

ending-Parses : (m : Acted) → Stays m → Parses (ending m)
unfolding ending
ending-Parses (Acted.go p) h = elim (Bool-cases (p.cs == 0)) [
  | inl e ↦ rw (e, ending) h
  | inr e ↦ elim (Bool-cases (ltb p.cs 227)) [
    | inl f ↦ rw (e, f, ending) h
    | inr f ↦ rw (e, f, ending) (h, ground (arith, f, h.state))
  ]
]
ending-Parses (Acted.stop p) h = h
ending-Parses Acted.fault h = h

-- From a parser that is in order, `parse` of any text never reads the part of the union that was not
-- written; it throws, asks for more or has a complete object, and the parser is in order again (its
-- state is one of the machine's, each string fits its field, and the side's bit is set only where there
-- is a side).
pub parse-IsParser : (s : Str) (p : Parser) → IsParser p → Parses (parse s p)
unfolding parse
parse-IsParser s p h = ending-Parses (resume s p) (resume-Stays s p h)

-- `reset` brings a parser in order, whatever it was; without clearing, it keeps one in order.
pub reset_parser-IsParser :
    (p : Parser) → IsParser (reset_parser true p) × (IsParser p → IsParser (reset_parser false p))
unfolding reset_parser
reset_parser-IsParser p = (
  record {
    state = omega arith;
    union = kind_of_start p.scratch;
    request = (ground arith, λ e. absurd (ground (arith, e)));
  },
  λ h. record { state = omega arith; union = kind_of_start p.scratch; request = h.request },
)
