-- ===== src/RestRequest/Strings.antt =====
-- src/fir/RestRequest.cpp: the round trip of a field that is a string.
use swirlyc.Common.{
  ℕ, ◌+◌, ◌≡◌, ◌≤◌, ◌<◌, inl, inr, refl, arith, ltb, Bool, true, false, ◌&&◌, ◌||◌, [], ◌∷◌, ◌++◌,
  length, length-append, if◌then◌else◌, Bool-cases, ◌==◌, sym, ap, ◌∙◌, eq_of_==, append-nil,
  append_assoc, All,
}
use swirlyc.Text.{Str}
use swirlyc.RestRequest.{RestRequest}
use swirlyc.RestRequest.Actions.{TextField, Scratch, Parser, Acted, max_of}
use swirlyc.RestRequest.Act.{and_then}
use swirlyc.RestRequest.Machine.{transition, take_transition, resume, Parsed, parse, ending}
use swirlyc.RestRequest.Kinds.{all_below_at}
use swirlyc.RestRequest.Pieces.{resume-append}
use swirlyc.RestRequest.Printing.{
  name, is_special, escape, opening, closing, inside, escaped, plain_step, escaped_step, at_text,
  after_backslash, at_end, plain_ok, all_plain,
}

-- What the machine does at the start, at a plain or escaped character, at a backslash and at the end.
started :
    (f : TextField) (u : Scratch) (r : RestRequest)
    → resume (opening (name f)) (record { cs = 1; scratch = u; request = r })
      ≡ Acted.go (at_text f [] r)
unfolding resume
started TextField.mnem u r = refl
started TextField.display u r = refl
started TextField.email u r = refl
started TextField.trader u r = refl
started TextField.contr u r = refl
started TextField.ref u r = refl
started TextField.cpty u r = refl

ended :
    (f : TextField) (t : Str) (r : RestRequest)
    → resume closing (at_text f t r) ≡ Acted.go (at_end f t r)
unfolding resume
ended TextField.mnem t r = refl
ended TextField.display t r = refl
ended TextField.email t r = refl
ended TextField.trader t r = refl
ended TextField.contr t r = refl
ended TextField.ref t r = refl
ended TextField.cpty t r = refl

plain_added :
    (f : TextField) (c : ℕ) (t : Str) (r : RestRequest)
    → ltb (length t) (max_of f) ≡ true
    → take_transition (plain_step f) c (at_text f t r) ≡ Acted.go (at_text f (t ++ c ∷ []) r)
unfolding take_transition
plain_added TextField.mnem c t r e = rw (e, take_transition) refl
plain_added TextField.display c t r e = rw (e, take_transition) refl
plain_added TextField.email c t r e = rw (e, take_transition) refl
plain_added TextField.trader c t r e = rw (e, take_transition) refl
plain_added TextField.contr c t r e = rw (e, take_transition) refl
plain_added TextField.ref c t r e = rw (e, take_transition) refl
plain_added TextField.cpty c t r e = rw (e, take_transition) refl

escaped_added :
    (f : TextField) (c : ℕ) (t : Str) (r : RestRequest)
    → ltb (length t) (max_of f) ≡ true
    → take_transition (escaped_step f) c (after_backslash f t r)
      ≡ Acted.go (at_text f (t ++ c ∷ []) r)
unfolding take_transition
escaped_added TextField.mnem c t r e = rw (e, take_transition) refl
escaped_added TextField.display c t r e = rw (e, take_transition) refl
escaped_added TextField.email c t r e = rw (e, take_transition) refl
escaped_added TextField.trader c t r e = rw (e, take_transition) refl
escaped_added TextField.contr c t r e = rw (e, take_transition) refl
escaped_added TextField.ref c t r e = rw (e, take_transition) refl
escaped_added TextField.cpty c t r e = rw (e, take_transition) refl

backslash :
    (f : TextField) (t : Str) (r : RestRequest)
    → take_transition (transition (inside f) 92) 92 (at_text f t r)
      ≡ Acted.go (after_backslash f t r)
unfolding transition take_transition
backslash TextField.mnem t r = refl
backslash TextField.display t r = refl
backslash TextField.email t r = refl
backslash TextField.trader t r = refl
backslash TextField.contr t r = refl
backslash TextField.ref t r = refl
backslash TextField.cpty t r = refl

in_string : (f : TextField) → ((inside f == 0) ≡ false) × ((escaped f == 0) ≡ false)
in_string TextField.mnem = (refl, refl)
in_string TextField.display = (refl, refl)
in_string TextField.email = (refl, refl)
in_string TextField.trader = (refl, refl)
in_string TextField.contr = (refl, refl)
in_string TextField.ref = (refl, refl)
in_string TextField.cpty = (refl, refl)

-- Where the state is not that of an error, the loop takes a transition.
pub resume_step :
    (c : ℕ) (s : Str) (p : Parser) (q : Parser)
    → (p.cs == 0) ≡ false
    → take_transition (transition p.cs c) c p ≡ Acted.go q
    → resume (c ∷ s) p ≡ resume s q
unfolding resume
resume_step c s p q n e = rw (n, e, resume) refl

pub and_left : (a b : Bool) → (a && b) ≡ true → a ≡ true
and_left a b h = ground (arith, h)

pub and_right : (a b : Bool) → (a && b) ≡ true → b ≡ true
and_right a b h = ground (arith, h)

or_right : (a b : Bool) → a ≡ false → (a || b) ≡ true → b ≡ true
or_right a b h e = ground (arith, h, e)

plain_steps :
    (f : TextField) (c : ℕ)
    → c < 256
    → ((is_special c || (transition (inside f) c == plain_step f)) ≡ true)
      × (transition (escaped f) c ≡ escaped_step f)
unfolding plain_ok
plain_steps f c lt =
    let h = all_below_at 256 (plain_ok f) c (all_plain f) lt in
    (and_left _ _ h, eq_of_== _ _ (and_right _ _ h))

printed : ℕ → Str → Str
printed c s = if is_special c then 92 ∷ c ∷ s else c ∷ s

printed_append : (c : ℕ) (s rest : Str) → escape (c ∷ s) ++ rest ≡ printed c (escape s ++ rest)
unfolding printed
printed_append c s rest = elim (Bool-cases (is_special c)) [ inl h ↦ rw h refl | inr h ↦ rw h refl ]

complete_end :
    (f : TextField) (t : Str) (r : RestRequest)
    → ending (Acted.go (at_end f t r)) ≡ Parsed.complete (at_end f t r)
unfolding ending
complete_end f t r = refl

module _ (f : TextField) (r : RestRequest) where
  char_read :
      (c : ℕ) (s t : Str)
      → c < 256
      → ltb (length t) (max_of f) ≡ true
      → resume (printed c s) (at_text f t r) ≡ resume s (at_text f (t ++ c ∷ []) r)
  unfolding printed
  char_read c s t lt e = elim (Bool-cases (is_special c)) [
    | inl h ↦
        rw (h, printed)
          (resume_step 92 (c ∷ s) (at_text f t r) (after_backslash f t r) (in_string f).0
              (backslash f t r)
            ∙ resume_step c s (after_backslash f t r) (at_text f (t ++ c ∷ []) r) (in_string f).1 (
                ap (λ k. take_transition k c (after_backslash f t r)) (plain_steps f c lt).1
                ∙ escaped_added f c t r e))
    | inr h ↦
        rw (h, printed)
          (resume_step c s (at_text f t r) (at_text f (t ++ c ∷ []) r) (in_string f).0 (
            ap (λ k. take_transition k c (at_text f t r))
              (eq_of_== _ _ (or_right _ _ h (plain_steps f c lt).0))
            ∙ plain_added f c t r e))
  ]

  escape_read :
      (s t rest : Str)
      → All (λ c. c < 256) s
      → length t + length s ≤ max_of f
      → resume (escape s ++ rest) (at_text f t r) ≡ resume rest (at_text f (t ++ s) r)
  escape_read [] t rest b le = ap (λ u. resume rest (at_text f u r)) (sym (append-nil t))
  escape_read (c ∷ s) t rest b le =
      ap (λ u. resume u (at_text f t r)) (printed_append c s rest)
      ∙ char_read c (escape s ++ rest) t b.0 (ground (arith, le))
      ∙ escape_read s (t ++ c ∷ []) rest b.1 (omega (arith, le, length-append t (c ∷ [])))
      ∙ ap (λ u. resume rest (at_text f u r)) (append_assoc t (c ∷ []) s)

-- A body that gives one string, with a backslash before each quotation mark and each backslash of it,
-- is parsed to a request that has this string in its field and the bit of the field, where the string is
-- not longer than its field, whatever else the request has.
pub parse-escape :
    (f : TextField) (s : Str) (u : Scratch) (r : RestRequest)
    → All (λ c. c < 256) s
    → length s ≤ max_of f
    → parse
        (opening (name f) ++ (escape s ++ closing))
        (record { cs = 1; scratch = u; request = r })
      ≡ Parsed.complete (at_end f s r)
unfolding parse
parse-escape f s u r b le =
    ap ending (
      resume-append (opening (name f)) (escape s ++ closing)
        (record { cs = 1; scratch = u; request = r })
      ∙ ap (λ m. and_then m (resume (escape s ++ closing))) (started f u r)
      ∙ escape_read f r s [] closing b (omega (arith, le))
      ∙ ended f s r)
    ∙ complete_end f s r
