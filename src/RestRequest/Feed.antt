-- ===== src/RestRequest/Feed.antt =====
-- src/fir/RestRequest.cpp: how the machine reads the digits of a number.
use swirlyc.Common.{
  ℕ, ◌+◌, ◌-◌, ◌*◌, ◌%◌, ◌≡◌, refl, arith, Bool, true, false, [], ◌∷◌, ◌++◌, ◌==◌, subst, ap, ◌∙◌,
  eq_of_==, All,
}
use swirlyc.Text.{Str}
use swirlyc.Text.Number.{is_digit, digits_loop, two64}
use swirlyc.RestRequest.{RestRequest}
use swirlyc.RestRequest.Actions.{NumField, Scratch, push_digit}
use swirlyc.RestRequest.Machine.{transition, take_transition, resume}
use swirlyc.RestRequest.Kinds.{all_below_at}
use swirlyc.RestRequest.Strings.{resume_step, and_left, and_right}
use swirlyc.RestRequest.Digits.{
  first_state, minus_state, digit_state, first_step, minus_step, digit_step, before, at_digits,
  digit_ok, all_digits, first_added, minus_added, digit_added,
}

digit_steps :
    (f : NumField) (c : ℕ)
    → is_digit c ≡ true
    → (transition (first_state f) c ≡ first_step f)
      × (transition (minus_state f) c ≡ minus_step f)
      × (transition (digit_state f) c ≡ digit_step f)
unfolding digit_ok
digit_steps f c h =
    let e : b'0' + (c - b'0') ≡ c = ground (arith, h) in
    let k = all_below_at 10 (digit_ok f) (c - b'0') (all_digits f) (ground (arith, h)) in
    let a = and_left _ _ k in
    subst
      (λ c.
        (transition (first_state f) c ≡ first_step f)
        × (transition (minus_state f) c ≡ minus_step f)
        × (transition (digit_state f) c ≡ digit_step f))
      e
      (
        eq_of_== _ _ (and_left _ _ a),
        eq_of_== _ _ (and_right _ _ a),
        eq_of_== _ _ (and_right _ _ k),
      )

in_number :
    (f : NumField)
    → ((first_state f == 0) ≡ false)
      × ((minus_state f == 0) ≡ false)
      × ((digit_state f == 0) ≡ false)
in_number NumField.settl_date = (refl, refl, refl)
in_number NumField.expiry_date = (refl, refl, refl)
in_number NumField.state = (refl, refl, refl)
in_number NumField.ticks = (refl, refl, refl)
in_number NumField.lots = (refl, refl, refl)
in_number NumField.min_lots = (refl, refl, refl)

-- The first digit, and a further one.
first_read :
    (f : NumField) (neg : Bool) (c : ℕ) (s : Str) (u : Scratch) (r : RestRequest)
    → is_digit c ≡ true
    → resume (c ∷ s) (before f neg r u) ≡ resume s (at_digits f neg (push_digit 0 c) r)
first_read f true c s u r h =
    resume_step c s (before f true r u) (at_digits f true (push_digit 0 c) r) (in_number f).1 (
      ap (λ k. take_transition k c (before f true r u)) (digit_steps f c h).1 ∙ minus_added f c u r)
first_read f false c s u r h =
    resume_step c s (before f false r u) (at_digits f false (push_digit 0 c) r) (in_number f).0 (
      ap (λ k. take_transition k c (before f false r u)) (digit_steps f c h).0
      ∙ first_added f c u r)

push_digit_lem :
    (d c : ℕ) → is_digit c ≡ true → push_digit d c ≡ (d * 10 % two64 + (c - b'0')) % two64
unfolding push_digit
push_digit_lem d c h = ground (arith, h)

digits_read :
    (f : NumField) (neg : Bool) (s rest : Str) (d : ℕ) (r : RestRequest)
    → All (λ c. is_digit c ≡ true) s
    → resume (s ++ rest) (at_digits f neg d r) ≡ resume rest (at_digits f neg (digits_loop d s) r)
unfolding digits_loop
digits_read f neg [] rest d r h = refl
digits_read f neg (c ∷ s) rest d r h =
    resume_step c (s ++ rest) (at_digits f neg d r) (at_digits f neg (push_digit d c) r)
      (in_number f).2
      (ap (λ k. take_transition k c (at_digits f neg d r)) (digit_steps f c h.0).2
        ∙ digit_added f neg c d r)
    ∙ ap (λ e. resume (s ++ rest) (at_digits f neg e r)) (push_digit_lem d c h.0)
    ∙ rw h.0 (digits_read f neg s rest ((d * 10 % two64 + (c - b'0')) % two64) r h.1)

-- A number of at least one digit.
pub number_read :
    (f : NumField) (neg : Bool) (c : ℕ) (s rest : Str) (u : Scratch) (r : RestRequest)
    → All (λ c. is_digit c ≡ true) (c ∷ s)
    → resume (c ∷ s ++ rest) (before f neg r u)
      ≡ resume rest (at_digits f neg (digits_loop 0 (c ∷ s)) r)
unfolding digits_loop
number_read f neg c s rest u r h =
    first_read f neg c (s ++ rest) u r h.0
    ∙ digits_read f neg s rest (push_digit 0 c) r h.1
    ∙ ap (λ e. resume rest (at_digits f neg (digits_loop e s) r)) (push_digit_lem 0 c h.0)
    ∙ rw h.0 refl
