-- ===== src/RestRequest/Digits.antt =====
-- src/fir/RestRequest.cpp: how the machine reads a field that is a number, one digit after another.
use swirlyc.Common.{
  ℕ, ◌+◌, ◌≡◌, refl, Bool, true, false, ◌&&◌, [], ◌∷◌, ◌++◌, ◌==◌, ap, ◌∙◌, ℤ, pos, negsuc,
}
use swirlyc.Text.{Str, codes}
use swirlyc.RestRequest.{RestRequest}
use swirlyc.RestRequest.Actions.{NumField, Scratch, Parser, Acted, push_digit, set_num}
use swirlyc.RestRequest.Act.{and_then}
use swirlyc.RestRequest.Machine.{transition, take_transition, resume}
use swirlyc.RestRequest.Kinds.{all_below}

abbrev pub name : NumField → Str
name NumField.settl_date = codes "settlDate"
name NumField.expiry_date = codes "expiryDate"
name NumField.state = codes "state"
name NumField.ticks = codes "ticks"
name NumField.lots = codes "lots"
name NumField.min_lots = codes "minLots"

-- The states before the number, after a minus, and after a digit, and what each does at a digit.
abbrev pub first_state : NumField → ℕ
first_state NumField.settl_date = 162
first_state NumField.expiry_date = 72
first_state NumField.state = 193
first_state NumField.ticks = 206
first_state NumField.lots = 84
first_state NumField.min_lots = 99

abbrev pub minus_state : NumField → ℕ
minus_state NumField.settl_date = 163
minus_state NumField.expiry_date = 73
minus_state NumField.state = 194
minus_state NumField.ticks = 207
minus_state NumField.lots = 85
minus_state NumField.min_lots = 100

abbrev pub digit_state : NumField → ℕ
digit_state NumField.settl_date = 164
digit_state NumField.expiry_date = 74
digit_state NumField.state = 195
digit_state NumField.ticks = 208
digit_state NumField.lots = 86
digit_state NumField.min_lots = 101

abbrev pub first_step : NumField → ℕ
first_step NumField.settl_date = 546
first_step NumField.expiry_date = 246
first_step NumField.state = 649
first_step NumField.ticks = 695
first_step NumField.lots = 287
first_step NumField.min_lots = 339

abbrev pub minus_step : NumField → ℕ
minus_step NumField.settl_date = 548
minus_step NumField.expiry_date = 248
minus_step NumField.state = 651
minus_step NumField.ticks = 697
minus_step NumField.lots = 289
minus_step NumField.min_lots = 341

abbrev pub digit_step : NumField → ℕ
digit_step NumField.settl_date = 554
digit_step NumField.expiry_date = 254
digit_step NumField.state = 657
digit_step NumField.ticks = 703
digit_step NumField.lots = 295
digit_step NumField.min_lots = 347

abbrev pub opening : Str → Str
opening n = b'{' ∷ 34 ∷ n ++ 34 ∷ b':' ∷ []

abbrev pub minus : Bool → Str
minus true = b'-' ∷ []
minus false = []

abbrev pub sign_of : Bool → ℤ
sign_of true = negsuc 0
sign_of false = pos 1

-- The parser before the number, after a minus if there is one, and after digits.
abbrev pub before : NumField → Bool → RestRequest → Scratch → Parser
before f true r u = record {
  cs = minus_state f;
  scratch = Scratch.number (negsuc 0) 0;
  request = r;
}
before f false r u = record { cs = first_state f; scratch = u; request = r }

abbrev pub at_digits : NumField → Bool → ℕ → RestRequest → Parser
at_digits f neg d r = record {
  cs = digit_state f;
  scratch = Scratch.number (sign_of neg) d;
  request = r;
}

unfoldable pub digit_ok : NumField → ℕ → Bool
unfolding transition
digit_ok f k =
    (transition (first_state f) (b'0' + k) == first_step f)
    && (transition (minus_state f) (b'0' + k) == minus_step f)
    && (transition (digit_state f) (b'0' + k) == digit_step f)

pub all_digits : (f : NumField) → all_below 10 (digit_ok f) ≡ true
unfolding digit_ok
all_digits NumField.settl_date = refl
all_digits NumField.expiry_date = refl
all_digits NumField.state = refl
all_digits NumField.ticks = refl
all_digits NumField.lots = refl
all_digits NumField.min_lots = refl

pub started :
    (f : NumField) (neg : Bool) (u : Scratch) (r : RestRequest)
    → resume (opening (name f) ++ minus neg) (record { cs = 1; scratch = u; request = r })
      ≡ Acted.go (before f neg r u)
unfolding resume
started NumField.settl_date true u r = refl
started NumField.settl_date false u r = refl
started NumField.expiry_date true u r = refl
started NumField.expiry_date false u r = refl
started NumField.state true u r = refl
started NumField.state false u r = refl
started NumField.ticks true u r = refl
started NumField.ticks false u r = refl
started NumField.lots true u r = refl
started NumField.lots false u r = refl
started NumField.min_lots true u r = refl
started NumField.min_lots false u r = refl

pub first_added :
    (f : NumField) (c : ℕ) (u : Scratch) (r : RestRequest)
    → take_transition (first_step f) c (before f false r u)
      ≡ Acted.go (at_digits f false (push_digit 0 c) r)
unfolding take_transition
first_added NumField.settl_date c u r = refl
first_added NumField.expiry_date c u r = refl
first_added NumField.state c u r = refl
first_added NumField.ticks c u r = refl
first_added NumField.lots c u r = refl
first_added NumField.min_lots c u r = refl

pub minus_added :
    (f : NumField) (c : ℕ) (u : Scratch) (r : RestRequest)
    → take_transition (minus_step f) c (before f true r u)
      ≡ Acted.go (at_digits f true (push_digit 0 c) r)
unfolding take_transition
minus_added NumField.settl_date c u r = refl
minus_added NumField.expiry_date c u r = refl
minus_added NumField.state c u r = refl
minus_added NumField.ticks c u r = refl
minus_added NumField.lots c u r = refl
minus_added NumField.min_lots c u r = refl

pub digit_added :
    (f : NumField) (neg : Bool) (c d : ℕ) (r : RestRequest)
    → take_transition (digit_step f) c (at_digits f neg d r)
      ≡ Acted.go (at_digits f neg (push_digit d c) r)
unfolding take_transition
digit_added NumField.settl_date neg c d r = refl
digit_added NumField.expiry_date neg c d r = refl
digit_added NumField.state neg c d r = refl
digit_added NumField.ticks neg c d r = refl
digit_added NumField.lots neg c d r = refl
digit_added NumField.min_lots neg c d r = refl

go_go :
    (m : Acted) (f g : Parser → Acted)
    → ((q : Parser) → f q ≡ Acted.go q)
    → ((q : Parser) → g q ≡ Acted.go q)
    → and_then (and_then m f) g ≡ and_then m (λ q. Acted.go q)
go_go (Acted.go p) f g h k = ap (λ m. and_then m g) (h p) ∙ k p
go_go (Acted.stop p) f g h k = refl
go_go Acted.fault f g h k = refl

-- At the end of the object the number is given to the field.
pub ended :
    (f : NumField) (neg : Bool) (d : ℕ) (r : RestRequest)
    → resume (b'}' ∷ []) (at_digits f neg d r)
      ≡ and_then
          (set_num f (sign_of neg) d (record (at_digits f neg d r) { cs = 227 }))
          (λ q. Acted.go q)
unfolding resume
ended NumField.settl_date neg d r =
    go_go
      (set_num NumField.settl_date (sign_of neg) d
        (record (at_digits NumField.settl_date neg d r) { cs = 227 }))
      (λ q. Acted.go q) (resume []) (λ q. refl) (λ q. refl)
ended NumField.expiry_date neg d r =
    go_go
      (set_num NumField.expiry_date (sign_of neg) d
        (record (at_digits NumField.expiry_date neg d r) { cs = 227 }))
      (λ q. Acted.go q) (resume []) (λ q. refl) (λ q. refl)
ended NumField.state neg d r =
    go_go
      (set_num NumField.state (sign_of neg) d
        (record (at_digits NumField.state neg d r) { cs = 227 }))
      (λ q. Acted.go q) (resume []) (λ q. refl) (λ q. refl)
ended NumField.ticks neg d r =
    go_go
      (set_num NumField.ticks (sign_of neg) d
        (record (at_digits NumField.ticks neg d r) { cs = 227 }))
      (λ q. Acted.go q) (resume []) (λ q. refl) (λ q. refl)
ended NumField.lots neg d r =
    go_go
      (set_num NumField.lots (sign_of neg) d
        (record (at_digits NumField.lots neg d r) { cs = 227 }))
      (λ q. Acted.go q) (resume []) (λ q. refl) (λ q. refl)
ended NumField.min_lots neg d r =
    go_go
      (set_num NumField.min_lots (sign_of neg) d
        (record (at_digits NumField.min_lots neg d r) { cs = 227 }))
      (λ q. Acted.go q) (resume []) (λ q. refl) (λ q. refl)
