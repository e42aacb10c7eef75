-- ===== src/RestRequest/Safe.antt =====
-- src/fir/RestRequest.cpp, `parse`: the invariant of the parser.
use swirlyc.Common.{
  ℕ, zero, suc, ◌+◌, ◌≡◌, ◌⊎◌, inl, inr, refl, arith, true, [], Option, none, some, Bool-cases,
  ◌==◌, negsuc, ℤ, Option-cases,
}
use swirlyc.Bits.{complement}
use swirlyc.RestRequest
use swirlyc.RestRequest.{RestRequest}
use swirlyc.RestRequest.States.{json_actions}
use swirlyc.RestRequest.Transitions.{json_trans_targs, json_trans_actions}
use swirlyc.RestRequest.Actions.{TextField, Scratch, Parser, Acted, bit_of, num_bit, null_bit}
use swirlyc.RestRequest.Act.{
  and_then, Action, on_number, on_text, cases, entry, get_elem?, act, acts,
}
use swirlyc.RestRequest.Machine.{take_transition}
use swirlyc.RestRequest.Kinds.{Kind, holds, allowed, after, all_allowed, taken, is_number, is_text}
use swirlyc.RestRequest.Bounds.{
  IsRequest, Good, set_num-Good, append_char-Good, set_text-IsRequest, given_bit-IsRequest,
  null_bit-IsRequest, null_num-IsRequest, bit_of_text, bit_at-and,
}

module _ (cs : ℕ) (k : Kind) (f : ℤ → ℕ → Acted) where
  on_number-Good :
      (s : Scratch)
      → is_number k ≡ true
      → holds k s ≡ true
      → ((sign : ℤ) (digits : ℕ) → Good cs k (f sign digits))
      → Good cs k (on_number f s)
  on_number-Good (Scratch.number sign digits) n h g = g sign digits
  on_number-Good s n h g = absurd (ground (arith, n, h))

module _ (cs : ℕ) (k : Kind) (f : TextField → Acted) where
  on_text-Good :
      (s : Scratch)
      → is_text k ≡ true
      → holds k s ≡ true
      → ((t : TextField) → Good cs k (f t))
      → Good cs k (on_text f s)
  on_text-Good (Scratch.text t) n h g = g t
  on_text-Good s n h g = absurd (ground (arith, n, h))

is_number_eq : (k : Kind) → is_number k ≡ true → k ≡ Kind.number
is_number_eq Kind.number h = refl
is_number_eq Kind.any h = absurd (ground (arith, h))
is_number_eq Kind.text h = absurd (ground (arith, h))

number_holds : (k : Kind) (g : ℤ) (d : ℕ) → is_number k ≡ true → holds k (Scratch.number g d) ≡ true
number_holds k g d h = rw (is_number_eq k h) refl

act-Good :
    (c : ℕ) (i : Action) (k : Kind) (p : Parser)
    → allowed i k ≡ true
    → holds k p.scratch ≡ true
    → IsRequest p.request
    → Good p.cs (after i k) (act c i p)
unfolding act
act-Good c Action.begin_number k p a s h = (inl refl, refl, h)
act-Good c Action.negate k p a s h =
    on_number-Good p.cs k _ p.scratch a s (λ g d. (inl refl, number_holds k (negsuc 0) d a, h))
act-Good c Action.add_digit k p a s h =
    on_number-Good p.cs k _ p.scratch a s (λ g d. (inl refl, number_holds k g _ a, h))
act-Good c Action.begin_text k p a s h =
    on_text-Good p.cs k _ p.scratch a s
      (λ t. (inl refl, s, set_text-IsRequest t [] p.request (omega arith) h))
act-Good c Action.add_char k p a s h =
    on_text-Good p.cs k _ p.scratch a s (λ t. append_char-Good c t k p s h)
act-Good c (Action.null_text t) k p a s h = (
  inl refl,
  s,
  set_text-IsRequest t [] (null_bit (bit_of t) p.request) (omega arith)
      (null_bit-IsRequest (bit_of t) p.request h),
)
act-Good c (Action.select t) k p a s h = (inl refl, refl, h)
act-Good c (Action.given_text t) k p a s h =
    (inl refl, s, given_bit-IsRequest (bit_of t) p.request (bit_of_text t) h)
act-Good c (Action.null_number n) k p a s h = (
  inl refl,
  s,
  null_num-IsRequest n (null_bit (num_bit n) p.request)
      (null_bit-IsRequest (num_bit n) p.request h),
)
act-Good c (Action.end_number n) k p a s h =
    on_number-Good p.cs k _ p.scratch a s (λ g d. set_num-Good g d k p s h n)
act-Good c Action.null_side k p a s h =
    (inl refl, s, (h.0, λ e. (bit_at-and 9 p.request.fields (complement RestRequest.side_bit) e).1))
act-Good c Action.buy_side k p a s h = (inl refl, s, (h.0, λ e. refl))
act-Good c Action.sell_side k p a s h = (inl refl, s, (h.0, λ e. refl))
act-Good c Action.null_role k p a s h =
    (inl refl, s, null_bit-IsRequest RestRequest.role_bit p.request h)
act-Good c Action.maker_role k p a s h =
    (inl refl, s, given_bit-IsRequest RestRequest.role_bit p.request refl h)
act-Good c Action.taker_role k p a s h =
    (inl refl, s, given_bit-IsRequest RestRequest.role_bit p.request refl h)

Good-weaken :
    (cs cs' : ℕ) (k : Kind) (m : Acted) → (cs' ≡ cs) ⊎ (cs' ≡ 0) → Good cs' k m → Good cs k m
Good-weaken cs cs' k (Acted.go q) e g = (ground (arith, e, g.0), g.1, g.2)
Good-weaken cs cs' k (Acted.stop q) e g = g
Good-weaken cs cs' k Acted.fault e g = g

-- What is true after actions that leave a kind, if they are allowed.
abbrev pub Ends : ℕ → Option Kind → Acted → Type 0
Ends cs none m = Unit
Ends cs (some k) m = Good cs k m

Ends-weaken :
    (cs cs' : ℕ) (o : Option Kind) (m : Acted) → (cs' ≡ cs) ⊎ (cs' ≡ 0) → Ends cs' o m → Ends cs o m
Ends-weaken cs cs' none m e g = tt
Ends-weaken cs cs' (some k) m e g = Good-weaken cs cs' k m e g

and_then-Ends :
    (cs : ℕ) (k : Kind) (o : Option Kind) (m : Acted) (f : Parser → Acted)
    → Good cs k m
    → ((q : Parser) → holds k q.scratch ≡ true → IsRequest q.request → Ends q.cs o (f q))
    → Ends cs o (and_then m f)
and_then-Ends cs k o (Acted.go q) f g h = Ends-weaken cs q.cs o (f q) g.0 (h q g.1 g.2)
and_then-Ends cs k none (Acted.stop q) f g h = tt
and_then-Ends cs k (some j) (Acted.stop q) f g h = g
and_then-Ends cs k o Acted.fault f g h = absurd g

acts-Ends :
    (n a c : ℕ) (k : Kind) (p : Parser)
    → holds k p.scratch ≡ true
    → IsRequest p.request
    → Ends p.cs (all_allowed n a k) (acts n a c p)
unfolding acts all_allowed
acts-Ends zero a c k p s h = (inl refl, s, h)
acts-Ends (suc n) a c k p s h = elim (Option-cases (get_elem? cases (entry json_actions a))) [
  | inl e ↦ rw (e, acts, all_allowed) (acts-Ends n (a + 1) c k p s h)
  | inr (i, e) ↦ elim (Bool-cases (allowed i k)) [
    | inr f ↦ rw (e, f, acts, all_allowed) tt
    | inl f ↦
        rw (e, f, acts, all_allowed)
          (and_then-Ends p.cs (after i k) (all_allowed n (a + 1) (after i k)) (act c i p)
            (acts n (a + 1) c) (act-Good c i k p f s h)
            (λ q t r. acts-Ends n (a + 1) c (after i k) q t r))
  ]
]

pub taken-Ends :
    (t c : ℕ) (k : Kind) (p : Parser)
    → holds k p.scratch ≡ true
    → IsRequest p.request
    → Ends (entry json_trans_targs t) (taken t k) (take_transition t c p)
unfolding taken take_transition
taken-Ends t c k p s h = elim (Bool-cases (entry json_trans_actions t == 0)) [
  | inl e ↦ rw (e, taken, take_transition) (inl refl, s, h)
  | inr e ↦
      rw (e, taken, take_transition)
        (acts-Ends (entry json_actions (entry json_trans_actions t))
          (entry json_trans_actions t + 1) c k (record p { cs = entry json_trans_targs t }) s h)
]
