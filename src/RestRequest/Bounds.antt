-- ===== src/RestRequest/Bounds.antt =====
-- src/fir/RestRequest.cpp, the actions of `parse`: they keep each string within its buffer, they give a
-- side wherever they say that there is one, and they find the part of the union that they read.
use swirlyc.Common.{
  ℕ, zero, suc, ◌≡◌, ◌≤◌, ◌⊎◌, inl, inr, refl, arith, ltb, Bool, true, false, [], ◌∷◌, ◌++◌, length,
  length-append, Option, none, some, Bool-cases, ℤ, pos, ltb_ℤ,
}
use swirlyc.Text.{Str}
use swirlyc.Bits.{Bits, or, and, complement}
use swirlyc.RestRequest
use swirlyc.RestRequest.{RestRequest}
use swirlyc.RestRequest.Actions.{
  TextField, NumField, Parser, Acted, max_of, bit_of, text_of, set_text, given_bit, null_bit,
  null_num, set_num,
}
use swirlyc.RestRequest.Act.{append_char}
use swirlyc.RestRequest.Kinds.{Kind, holds}

-- A bit, by its number.
abbrev pub bit_at : ℕ → Bits → Bool
bit_at i [] = false
bit_at zero (x ∷ b) = x
bit_at (suc i) (x ∷ b) = bit_at i b

bit_at-or :
    (i : ℕ) (a b : Bits) → bit_at i (or a b) ≡ true → (bit_at i a ≡ true) ⊎ (bit_at i b ≡ true)
bit_at-or i [] b h = absurd (ground (arith, h))
bit_at-or i (x ∷ a) [] h = absurd (ground (arith, h))
bit_at-or zero (true ∷ a) (y ∷ b) h = inl refl
bit_at-or zero (false ∷ a) (y ∷ b) h = inr h
bit_at-or (suc i) (x ∷ a) (y ∷ b) h = bit_at-or i a b h

pub bit_at-and :
    (i : ℕ) (a b : Bits) → bit_at i (and a b) ≡ true → (bit_at i a ≡ true) × (bit_at i b ≡ true)
bit_at-and i [] b h = absurd (ground (arith, h))
bit_at-and i (x ∷ a) [] h = absurd (ground (arith, h))
bit_at-and zero (true ∷ a) (y ∷ b) h = (refl, h)
bit_at-and zero (false ∷ a) (y ∷ b) h = absurd (ground (arith, h))
bit_at-and (suc i) (x ∷ a) (y ∷ b) h = bit_at-and i a b h

-- Each string fits its field.
abbrev pub Fits : RestRequest → Type 0
Fits r =
    (length r.mnem ≤ 16)
    × (length r.display ≤ 64)
    × (length r.email ≤ 64)
    × (length r.trader ≤ 16)
    × (length r.contr ≤ 16)
    × (length r.ref ≤ 64)
    × (length r.cpty ≤ 16)

abbrev pub is_some {ℓ} : {A : Type ℓ} → Option A → Bool
is_some none = false
is_some (some a) = true

-- The bit of the side, which is number 9, is set only if the side is one.
abbrev pub Sided : RestRequest → Type 0
Sided r = bit_at 9 r.fields ≡ true → is_some r.side ≡ true

abbrev pub IsRequest : RestRequest → Type 0
IsRequest r = Fits r × Sided r

set_text-Fits :
    (t : TextField) (s : Str) (r : RestRequest)
    → length s ≤ max_of t
    → Fits r
    → Fits (set_text t s r)
set_text-Fits TextField.mnem s r le (a, b, c, d, e, f, g) = (le, b, c, d, e, f, g)
set_text-Fits TextField.display s r le (a, b, c, d, e, f, g) = (a, le, c, d, e, f, g)
set_text-Fits TextField.email s r le (a, b, c, d, e, f, g) = (a, b, le, d, e, f, g)
set_text-Fits TextField.trader s r le (a, b, c, d, e, f, g) = (a, b, c, le, e, f, g)
set_text-Fits TextField.contr s r le (a, b, c, d, e, f, g) = (a, b, c, d, le, f, g)
set_text-Fits TextField.ref s r le (a, b, c, d, e, f, g) = (a, b, c, d, e, le, g)
set_text-Fits TextField.cpty s r le (a, b, c, d, e, f, g) = (a, b, c, d, e, f, le)

set_text-Sided : (t : TextField) (s : Str) (r : RestRequest) → Sided r → Sided (set_text t s r)
set_text-Sided TextField.mnem s r h = h
set_text-Sided TextField.display s r h = h
set_text-Sided TextField.email s r h = h
set_text-Sided TextField.trader s r h = h
set_text-Sided TextField.contr s r h = h
set_text-Sided TextField.ref s r h = h
set_text-Sided TextField.cpty s r h = h

pub set_text-IsRequest :
    (t : TextField) (s : Str) (r : RestRequest)
    → length s ≤ max_of t
    → IsRequest r
    → IsRequest (set_text t s r)
set_text-IsRequest t s r le h = (set_text-Fits t s r le h.0, set_text-Sided t s r h.1)

-- A bit other than the side's.
given :
    (b fields : Bits) → bit_at 9 b ≡ false → bit_at 9 (or fields b) ≡ true → bit_at 9 fields ≡ true
given b fields n h = elim (bit_at-or 9 fields b h) [
  | inl e ↦ e
  | inr e ↦ absurd (ground (arith, e, n))
]

pub given_bit-IsRequest :
    (b : Bits) (r : RestRequest) → bit_at 9 b ≡ false → IsRequest r → IsRequest (given_bit b r)
given_bit-IsRequest b r n h = (h.0, λ e. h.1 (given b r.fields n e))

pub null_bit-IsRequest : (b : Bits) (r : RestRequest) → IsRequest r → IsRequest (null_bit b r)
null_bit-IsRequest b r h = (h.0, λ e. h.1 (bit_at-and 9 r.fields (complement b) e).0)

pub null_num-IsRequest : (n : NumField) (r : RestRequest) → IsRequest r → IsRequest (null_num n r)
null_num-IsRequest NumField.settl_date r h = h
null_num-IsRequest NumField.expiry_date r h = h
null_num-IsRequest NumField.state r h = h
null_num-IsRequest NumField.ticks r h = h
null_num-IsRequest NumField.lots r h = h
null_num-IsRequest NumField.min_lots r h = h

pub bit_of_text : (t : TextField) → bit_at 9 (bit_of t) ≡ false
bit_of_text TextField.mnem = refl
bit_of_text TextField.display = refl
bit_of_text TextField.email = refl
bit_of_text TextField.trader = refl
bit_of_text TextField.contr = refl
bit_of_text TextField.ref = refl
bit_of_text TextField.cpty = refl

-- What is true after an action that found the state cs: the state is as it was, or that of an error.
abbrev pub Good : ℕ → Kind → Acted → Type 0
Good cs k (Acted.go q) =
    ((q.cs ≡ cs) ⊎ (q.cs ≡ 0)) × (holds k q.scratch ≡ true) × IsRequest q.request
Good cs k (Acted.stop q) = (q.cs ≡ 0) × IsRequest q.request
Good cs k Acted.fault = ⊥

module _ (sign : ℤ) (digits : ℕ) (k : Kind) (p : Parser) (s : holds k p.scratch ≡ true)
    (h : IsRequest p.request) where
  pub set_num-Good : (n : NumField) → Good p.cs k (set_num n sign digits p)
  unfolding set_num
  set_num-Good NumField.settl_date =
      (inl refl, s, given_bit-IsRequest RestRequest.settl_date_bit p.request refl h)
  set_num-Good NumField.expiry_date =
      (inl refl, s, given_bit-IsRequest RestRequest.expiry_date_bit p.request refl h)
  set_num-Good NumField.state = elim (Bool-cases (ltb_ℤ sign (pos 0))) [
    | inl e ↦ rw (e, Good) (inr refl, s, h)
    | inr e ↦ rw (e, Good) (inl refl, s, given_bit-IsRequest RestRequest.state_bit p.request refl h)
  ]
  set_num-Good NumField.ticks =
      (inl refl, s, given_bit-IsRequest RestRequest.ticks_bit p.request refl h)
  set_num-Good NumField.lots =
      (inl refl, s, given_bit-IsRequest RestRequest.lots_bit p.request refl h)
  set_num-Good NumField.min_lots =
      (inl refl, s, given_bit-IsRequest RestRequest.min_lots_bit p.request refl h)

pub append_char-Good :
    (c : ℕ) (t : TextField) (k : Kind) (p : Parser)
    → holds k p.scratch ≡ true
    → IsRequest p.request
    → Good p.cs k (append_char c p t)
unfolding append_char
append_char-Good c t k p s h = elim (Bool-cases (ltb (length (text_of t p.request)) (max_of t))) [
  | inl e ↦
      rw (e, Good)
        (
          inl refl,
          s,
          set_text-IsRequest t (text_of t p.request ++ c ∷ []) p.request
              (ground (arith, length-append (text_of t p.request) (c ∷ []), e)) h,
        )
  | inr e ↦ rw (e, Good) (refl, h)
]
