-- ===== src/RestRequest/Numbers.antt =====
-- src/fir/RestRequest.cpp: the round trip of a field that is a number.
use swirlyc.Common.{
  ℕ, zero, suc, ◌+◌, ◌%◌, ◌/◌, ◌≡◌, ◌<◌, refl, arith, Bool, true, false, [], ◌∷◌, ◌++◌, sym, ap,
  ◌∙◌, All, ℤ, pos, negsuc, ltb, Bool-cases, inl, inr, subst,
}
use swirlyc.Text.{Str}
use swirlyc.Text.Number.{digits_loop, two64, is_digit}
use swirlyc.Text.Number.Decimal.{print, print_loop, print_loop-IsDigits, digits_loop-print}
use swirlyc.RestRequest.{RestRequest}
use swirlyc.RestRequest.Actions.{
  NumField, Scratch, Parser, Acted, set_num, num, num_bit, given_bit, signed32, word64,
}
use swirlyc.RestRequest.Act.{and_then}
use swirlyc.RestRequest.Machine.{resume, Parsed, parse, ending}
use swirlyc.RestRequest.Pieces.{resume-append}
use swirlyc.RestRequest.Digits.{name, opening, minus, sign_of, before, at_digits, started, ended}
use swirlyc.RestRequest.Feed.{number_read}

-- The number that a minus, or none, and digits mean.
abbrev pub value : Bool → ℕ → ℤ
value false n = pos n
value true zero = pos 0
value true (suc n) = negsuc n

-- The numbers that a field can hold: an `int` for a date, 32 bits for a state, which has no minus, and
-- a 64-bit integer for the others. A negative number can be one further from 0 than the others.
abbrev pub Fits : Bool → ℕ → ℕ → Type 0
Fits false n m = n < m
Fits true n m = n < suc m

abbrev pub InRange : NumField → Bool → ℕ → Type 0
InRange NumField.settl_date neg n = Fits neg n 2147483648
InRange NumField.expiry_date neg n = Fits neg n 2147483648
InRange NumField.state neg n = (neg ≡ false) × (n < 4294967296)
InRange NumField.ticks neg n = Fits neg n 9223372036854775808
InRange NumField.lots neg n = Fits neg n 9223372036854775808
InRange NumField.min_lots neg n = Fits neg n 9223372036854775808

abbrev pub with_number : NumField → Bool → ℕ → RestRequest → RestRequest
with_number NumField.settl_date neg n r = record r { settl_date = value neg n }
with_number NumField.expiry_date neg n r = record r { expiry_date = value neg n }
with_number NumField.state neg n r = record r { state = n }
with_number NumField.ticks neg n r = record r { ticks = value neg n }
with_number NumField.lots neg n r = record r { lots = value neg n }
with_number NumField.min_lots neg n r = record r { min_lots = value neg n }

num-value :
    (neg : Bool) (n : ℕ)
    → Fits neg n 9223372036854775808
    → num (sign_of neg) (n % two64) ≡ value neg n
unfolding num
num-value false n lt = ground (arith, lt)
num-value true zero lt = ground (arith, lt)
num-value true (suc n) lt = ground (arith, lt)

narrow32 :
    (neg : Bool) (n : ℕ)
    → Fits neg n 2147483648
    → signed32 (word64 (value neg n) % 4294967296) ≡ value neg n
narrow32 false n lt = ground (arith, lt)
narrow32 true zero lt = refl
narrow32 true (suc n) lt = ground (arith, lt)

Fits-wider : (neg : Bool) (n : ℕ) → Fits neg n 2147483648 → Fits neg n 9223372036854775808
Fits-wider false n lt = omega (arith, lt)
Fits-wider true n lt = omega (arith, lt)

narrow_state : (n : ℕ) → n < 4294967296 → word64 (pos n) % 4294967296 ≡ n
narrow_state n lt = ground (arith, lt)

module _ (n : ℕ) (p : Parser) where
  set_num-InRange :
      (f : NumField) (neg : Bool)
      → InRange f neg n
      → set_num f (sign_of neg) (n % two64) p
        ≡ Acted.go (record p { request = with_number f neg n (given_bit (num_bit f) p.request) })
  unfolding set_num
  set_num-InRange NumField.settl_date neg h =
      rw (num-value neg n (Fits-wider neg n h), narrow32 neg n h) refl
  set_num-InRange NumField.expiry_date neg h =
      rw (num-value neg n (Fits-wider neg n h), narrow32 neg n h) refl
  set_num-InRange NumField.state true h = absurd (ground (arith, h.0))
  set_num-InRange NumField.state false h =
      rw (num-value false n (omega (arith, h.1)), narrow_state n h.1, set_num) refl
  set_num-InRange NumField.ticks neg h = rw (num-value neg n h) refl
  set_num-InRange NumField.lots neg h = rw (num-value neg n h) refl
  set_num-InRange NumField.min_lots neg h = rw (num-value neg n h) refl

-- The decimal digits are at least one.
print_loop-cons : (k n : ℕ) → (c : ℕ) × (s : Str) × (print_loop k n ≡ c ∷ s)
print_loop-cons zero n = (_, _, refl)
print_loop-cons (suc k) n = elim (Bool-cases (ltb n 10)) [
  | inl e ↦ rw e (_, _, refl)
  | inr e ↦
      let (c, s, h) = print_loop-cons k (n / 10) in rw (e, h) (c, s ++ (b'0' + n % 10) ∷ [], refl)
]

abbrev pub at_close : NumField → Bool → ℕ → RestRequest → Parser
at_close f neg n r = record {
  cs = 227;
  scratch = Scratch.number (sign_of neg) (n % two64);
  request = with_number f neg n (given_bit (num_bit f) r);
}

print_read :
    (f : NumField) (neg : Bool) (n : ℕ) (rest : Str) (u : Scratch) (r : RestRequest)
    → resume (print n ++ rest) (before f neg r u) ≡ resume rest (at_digits f neg (n % two64) r)
print_read f neg n rest u r =
    let (c, s, e) = print_loop-cons n n in
    let h = subst (All (λ c. is_digit c ≡ true)) e (print_loop-IsDigits n n) in
    ap (λ t. resume (t ++ rest) (before f neg r u)) e
    ∙ number_read f neg c s rest u r h
    ∙ ap (λ t. resume rest (at_digits f neg (digits_loop 0 t) r)) (sym e)
    ∙ ap (λ d. resume rest (at_digits f neg d r)) (digits_loop-print n n (omega arith))

closed :
    (f : NumField) (neg : Bool) (n : ℕ) (r : RestRequest)
    → ending (Acted.go (at_close f neg n r)) ≡ Parsed.complete (at_close f neg n r)
unfolding ending
closed f neg n r = refl

-- A body that gives one number, as a minus or none and its decimal digits, is parsed to a request that
-- has this number in its field and the bit of the field, where the number is one that the field can
-- hold (an int for a date, an unsigned int with no minus for the state, a 64-bit integer for the
-- others), whatever else the request has.
pub parse-print :
    (f : NumField) (neg : Bool) (n : ℕ) (u : Scratch) (r : RestRequest)
    → InRange f neg n
    → parse
        ((opening (name f) ++ minus neg) ++ (print n ++ b'}' ∷ []))
        (record { cs = 1; scratch = u; request = r })
      ≡ Parsed.complete (at_close f neg n r)
unfolding parse
parse-print f neg n u r h =
    ap ending (
      resume-append (opening (name f) ++ minus neg) (print n ++ b'}' ∷ [])
        (record { cs = 1; scratch = u; request = r })
      ∙ ap (λ m. and_then m (resume (print n ++ b'}' ∷ []))) (started f neg u r)
      ∙ print_read f neg n (b'}' ∷ []) u r
      ∙ ended f neg (n % two64) r
      ∙ ap (λ m. and_then m (λ q. Acted.go q))
          (set_num-InRange n (record (at_digits f neg (n % two64) r) { cs = 227 }) f neg h))
    ∙ closed f neg n r
