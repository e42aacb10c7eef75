-- ===== src/Text/Number/Decimal.antt =====
-- src/ash/String.cpp, `stou64`: the number that decimal digits mean.
use swirlyc.Common.{
  ℕ, zero, suc, ◌+◌, ◌-◌, ◌*◌, ◌/◌, ◌%◌, ◌≡◌, ◌≤◌, ◌<◌, ltb, true, false, [], ◌∷◌, ◌++◌,
  if◌then◌else◌, arith, refl, ap, ◌∙◌, Bool-cases, inl, inr, All, All-append,
}
use swirlyc.Text.{Str}
use swirlyc.Text.Number.{is_digit, is_space, two64, digits_loop, skip_space, stou64}

-- The decimal digits of a number; a number has at most as many as itself and one more.
abbrev pub print_loop : ℕ → ℕ → Str
print_loop zero n = (b'0' + n % 10) ∷ []
print_loop (suc f) n =
    let rest = print_loop f (n / 10) in
    if ltb n 10 then (b'0' + n % 10) ∷ [] else rest ++ (b'0' + n % 10) ∷ []

abbrev pub print : ℕ → Str
print n = print_loop n n

abbrev pub IsDigits : Str → Type 0
IsDigits = All (λ c. is_digit c ≡ true)

digits_loop-snoc :
    (s : Str) (l c : ℕ)
    → IsDigits s
    → is_digit c ≡ true
    → digits_loop l (s ++ c ∷ []) ≡ (digits_loop l s * 10 % two64 + (c - b'0')) % two64
unfolding digits_loop
digits_loop-snoc [] l c h d = rw d refl
digits_loop-snoc (x ∷ s) l c h d =
    rw h.0 (digits_loop-snoc s ((l * 10 % two64 + (x - b'0')) % two64) c h.1 d)

digit : (n : ℕ) → is_digit (b'0' + n % 10) ≡ true
digit n = ground arith

pub print_loop-IsDigits : (f n : ℕ) → IsDigits (print_loop f n)
print_loop-IsDigits zero n = (digit n, tt)
print_loop-IsDigits (suc f) n = elim (Bool-cases (ltb n 10)) [
  | inl e ↦ rw e (digit n, tt)
  | inr e ↦
      rw e (All-append _ (print_loop f (n / 10)) _ (print_loop-IsDigits f (n / 10)) (digit n, tt))
]

step : (n : ℕ) → (n / 10 % two64 * 10 % two64 + (b'0' + n % 10 - b'0')) % two64 ≡ n % two64
step n = omega arith

less_of : {n : ℕ} → ltb n 10 ≡ true → n < 10
less_of e = ground (arith, e)

pub digits_loop-print : (f n : ℕ) → n ≤ f → digits_loop 0 (print_loop f n) ≡ n % two64
unfolding digits_loop
digits_loop-print zero n le = rw (digit n) (omega (arith, le))
digits_loop-print (suc f) n le = elim (Bool-cases (ltb n 10)) [
  | inl e ↦ rw (e, digits_loop) (rw (digit n) (omega (arith, less_of e)))
  | inr e ↦ rw e (
      digits_loop-snoc (print_loop f (n / 10)) 0 _ (print_loop-IsDigits f (n / 10)) (digit n)
      ∙ ap (λ l. (l * 10 % two64 + (b'0' + n % 10 - b'0')) % two64)
          (digits_loop-print f (n / 10) (ground (arith, le, e)))
      ∙ step n)
]

no_space : (s : Str) → IsDigits s → skip_space s ≡ s
unfolding skip_space
no_space [] h = refl
no_space (c ∷ s) h = let e : is_space c ≡ false = ground (arith, h.0) in rw e refl

-- Reading the decimal digits of a number gives the number, reduced to 64 bits.
pub stou64-print : (n : ℕ) → stou64 (print n) ≡ n % two64
unfolding stou64
stou64-print n =
    ap (digits_loop 0) (no_space (print n) (print_loop-IsDigits n n))
    ∙ digits_loop-print n n (omega arith)
