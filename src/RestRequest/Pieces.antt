-- ===== src/RestRequest/Pieces.antt =====
-- src/fir/RestRequest.cpp, `parse`: a body that comes in pieces.
use swirlyc.Common.{◌≡◌, inl, inr, refl, sym, ◌∙◌, ap, ltb, true, [], ◌∷◌, ◌++◌, Bool-cases, ◌==◌}
use swirlyc.Text.{Str}
use swirlyc.RestRequest.Actions.{Parser, Acted}
use swirlyc.RestRequest.Act.{and_then}
use swirlyc.RestRequest.Machine.{transition, take_transition, resume, Parsed, parse, ending}

-- What follows a parse that did not throw.
abbrev pub continue : Parsed → (Parser → Parsed) → Parsed
continue (Parsed.threw p) f = Parsed.threw p
continue (Parsed.partial p) f = f p
continue (Parsed.complete p) f = f p
continue Parsed.fault f = Parsed.fault

resume_error : (s : Str) (p : Parser) → (p.cs == 0) ≡ true → resume s p ≡ Acted.go p
unfolding resume
resume_error [] p e = refl
resume_error (c ∷ s) p e = rw (e, resume) refl

and_then_assoc :
    (m : Acted) (f g h : Parser → Acted)
    → ((q : Parser) → h q ≡ and_then (f q) g)
    → and_then m h ≡ and_then (and_then m f) g
and_then_assoc (Acted.go p) f g h e = e p
and_then_assoc (Acted.stop p) f g h e = refl
and_then_assoc Acted.fault f g h e = refl

pub resume-append : (a b : Str) (p : Parser) → resume (a ++ b) p ≡ and_then (resume a p) (resume b)
unfolding resume
resume-append [] b p = refl
resume-append (c ∷ a) b p = elim (Bool-cases (p.cs == 0)) [
  | inl e ↦ rw (e, resume) (sym (resume_error b p e))
  | inr e ↦
      rw (e, resume)
        (and_then_assoc (take_transition (transition p.cs c) c p) (resume a) (resume b)
          (resume (a ++ b)) (λ q. resume-append a b q))
]

ending-continue :
    (m : Acted) (b : Str) → ending (and_then m (resume b)) ≡ continue (ending m) (parse b)
unfolding ending parse
ending-continue (Acted.go p) b = elim (Bool-cases (p.cs == 0)) [
  | inl e ↦ rw (e, ending, resume_error b p e) (rw (e, ending) refl)
  | inr e ↦ elim (Bool-cases (ltb p.cs 227)) [
    | inl f ↦ rw (e, f, ending) refl
    | inr f ↦ rw (e, f, ending) refl
  ]
]
ending-continue (Acted.stop p) b = refl
ending-continue Acted.fault b = refl

-- Parsing a body at once and in two pieces give the same, wherever it is cut: the second piece goes on
-- from the parser that the first one left, unless that threw.
pub parse-append : (a b : Str) (p : Parser) → parse (a ++ b) p ≡ continue (parse a p) (parse b)
unfolding parse
parse-append a b p = ap ending (resume-append a b p) ∙ ending-continue (resume a p) b
